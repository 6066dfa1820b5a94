-- ===== src/Examples/Initial.antt =====
-- An initial packet on its way to the server name (ebpf/ebpf_quic.c, ebpf/ebpf_bespoke.c): the keys of
-- the sample DCID of RFC 9001, and a ClientHello for "a.example" under them.
use udpgrm.Base.{
  false, ℕ, zero, suc, ◌+◌, ◌*◌, ◌/◌, ◌<◌, List, [], ◌∷◌, ◌++◌, ◌≡◌, refl, some, arith, take, drop,
  replicate, u8_at, bit_xor, le32, bswap32, if◌then◌else◌, ltb,
}
use udpgrm.Storage.Helpers.{Packet}
use udpgrm.Aes.{sub_byte, key_expand, encrypt}
use udpgrm.Aes.Blocks.{HasBytes}
use udpgrm.Aes.Schedule.{key_expand-HasBytes}
use udpgrm.Sha256.{sha256_hmac, sha256_calc_chunk, sha256_read}
use udpgrm.Dead.{sni}
use udpgrm.Quic.{varint_decode}
use udpgrm.Quic.Keys.{
  QuicKeys, load_const, expand_client_keys_from_dcid, initial_keys,
  expand_client_keys_from_dcid-eq-initial_keys,
}
use udpgrm.Quic.Decrypt.{
  Decrypting, combine, decrypt_quic, counter_of, counter_bytes, block_at, block_bytes,
  compute_hp_mask,
}
use udpgrm.Quic.Cipher.{IsPacket, keystream, decrypt_quic-byte, decrypt_quic_twice}
use udpgrm.Quic.Header.{
  nonce, shifted_pno, quic_parse_hdr, quic_extract_sni, window, header_in, get_u8, get_u32,
  get_word, long_header, protected,
}
use udpgrm.Quic.Hello.{
  read, read_le, copy, parse_client_hello_extract_sni, buf_get_u8, buf_get_u16, buf_get_varint,
  decoded, hello_body, handshake, extensions, server_name,
}
use udpgrm.Quic.Nonce.{nonce-aligned}
use udpgrm.Quic.Slow.{quic_slow}
use udpgrm.Examples.{packet_with}
use udpgrm.Examples.Aes.{standard_key, standard_key-IsBlock}

abbrev sample_dcid : List ℕ
sample_dcid = 0x83 ∷ 0x94 ∷ 0xc8 ∷ 0xf0 ∷ 0x3e ∷ 0x51 ∷ 0x57 ∷ 0x08 ∷ []

abbrev sample_keys : QuicKeys
sample_keys = record {
  hp =
      0x9f ∷ 0x50 ∷ 0x44 ∷ 0x9e ∷ 0x04 ∷ 0xa0 ∷ 0xe8 ∷ 0x10 ∷ 0x28 ∷ 0x3a ∷ 0x1e ∷ 0x99 ∷ 0x33
      ∷ 0xad ∷ 0xed ∷ 0xd2 ∷ [];
  key =
      0x1f ∷ 0x36 ∷ 0x96 ∷ 0x13 ∷ 0xdd ∷ 0x76 ∷ 0xd5 ∷ 0x46 ∷ 0x77 ∷ 0x30 ∷ 0xef ∷ 0xcb ∷ 0xe3
      ∷ 0xb1 ∷ 0xa2 ∷ 0x2d ∷ [];
  iv =
      0xfa
      ∷ 0x04
      ∷ 0x4b
      ∷ 0x2f
      ∷ 0x42
      ∷ 0xa3
      ∷ 0xfd
      ∷ 0x3b
      ∷ 0x46
      ∷ 0xfb
      ∷ 0x25
      ∷ 0x5c
      ∷ replicate 4 0;
}

sample_expanded : expand_client_keys_from_dcid (sample_dcid ++ replicate 12 0) 8 ≡ sample_keys
unfolding expand_client_keys_from_dcid sha256_hmac sha256_calc_chunk sha256_read load_const
sample_expanded = refl

abbrev initial_bytes : List ℕ
initial_bytes =
    0x00 ∷ 0x00 ∷ 0x00 ∷ 0x00 ∷ 0x00 ∷ 0x00 ∷ 0x00 ∷ 0x00 ∷ 0xc3 ∷ 0x00 ∷ 0x00 ∷ 0x00 ∷ 0x01 ∷ 0x08
    ∷ 0x83 ∷ 0x94 ∷ 0xc8 ∷ 0xf0 ∷ 0x3e ∷ 0x51 ∷ 0x57 ∷ 0x08 ∷ 0x00 ∷ 0x00 ∷ 0x40 ∷ 0x56 ∷ 0xab
    ∷ 0xd1 ∷ 0xb1 ∷ 0xc9 ∷ 0x3d ∷ 0xd7 ∷ 0x68 ∷ 0x9f ∷ 0x68 ∷ 0xec ∷ 0x11 ∷ 0x39 ∷ 0xba ∷ 0x4b
    ∷ 0x75 ∷ 0x2d ∷ 0xb2 ∷ 0xe1 ∷ 0x03 ∷ 0xe1 ∷ 0x7c ∷ 0x8c ∷ 0xeb ∷ 0xd5 ∷ 0xc2 ∷ 0xf1 ∷ 0x67
    ∷ 0xb3 ∷ 0xc8 ∷ 0xb2 ∷ 0x26 ∷ 0x7f ∷ 0x05 ∷ 0x23 ∷ 0x33 ∷ 0x7e ∷ 0xd8 ∷ 0x93 ∷ 0x5a ∷ 0x2b
    ∷ 0xf0 ∷ 0xbb ∷ 0xd5 ∷ 0x1c ∷ 0x26 ∷ 0x08 ∷ 0xc4 ∷ 0xc6 ∷ 0x1f ∷ 0x15 ∷ 0xb2 ∷ 0x0d ∷ 0x84
    ∷ 0xe9 ∷ 0x15 ∷ 0x75 ∷ 0xb3 ∷ 0x46 ∷ 0x12 ∷ 0x8c ∷ 0xaf ∷ 0x22 ∷ 0x8d ∷ 0xd2 ∷ 0x26 ∷ 0x2c
    ∷ 0xad ∷ 0x67 ∷ 0x50 ∷ 0x0c ∷ 0x00 ∷ 0x00 ∷ 0x00 ∷ 0x00 ∷ 0x00 ∷ 0x00 ∷ 0x00 ∷ 0x00 ∷ 0x00
    ∷ 0x00 ∷ 0x00 ∷ 0x00 ∷ 0x00 ∷ 0x00 ∷ 0x00 ∷ 0x00 ∷ []

abbrev initial_packet : Packet
initial_packet = record (packet_with []) {
  len = 112;
  linear = initial_bytes;
  load = λ off n. some (take n (drop off initial_bytes ++ replicate n 0));
}

initial_found :
    quic_slow (replicate 1024 0) initial_packet (sample_dcid ++ replicate 12 0) 8
    ≡ sni (
        0
        ∷ 12
        ∷ 0
        ∷ 0
        ∷ 9
        ∷ b'a'
        ∷ b'.'
        ∷ b'e'
        ∷ b'x'
        ∷ b'a'
        ∷ b'm'
        ∷ b'p'
        ∷ b'l'
        ∷ b'e'
        ∷ replicate 136 0)
unfolding quic_slow quic_parse_hdr window header_in get_u8 read long_header get_u32 read_le get_word
    varint_decode protected copy quic_extract_sni compute_hp_mask sub_byte
    expand_client_keys_from_dcid sha256_hmac sha256_calc_chunk sha256_read load_const decrypt_quic
    parse_client_hello_extract_sni buf_get_u8 buf_get_u16 buf_get_varint decoded hello_body
    handshake extensions server_name combine nonce block_at block_bytes counter_of counter_bytes
    encrypt key_expand
initial_found = refl

expand_client_keys_from_dcid-eq-initial_keys_example :
    expand_client_keys_from_dcid (sample_dcid ++ replicate 12 0) 8 ≡ initial_keys sample_dcid
expand_client_keys_from_dcid-eq-initial_keys_example =
    expand_client_keys_from_dcid-eq-initial_keys sample_dcid (omega arith)

nonce-aligned_example :
    nonce sample_keys.iv (bswap32 (shifted_pno 2 0x1234))
    ≡ take 12 (combine bit_xor 10 (take 2 (le32 0x1234)) sample_keys.iv) ++ (0 ∷ 0 ∷ 0 ∷ 1 ∷ [])
nonce-aligned_example =
    nonce-aligned sample_keys.iv 2 0x1234 (omega arith) (omega arith) (omega arith)

abbrev cipher_state : Decrypting
cipher_state = record {
  counter = counter_of sample_keys.iv;
  pkt = replicate 1024 7;
  outside = false;
}

sevens_lt : (n j : ℕ) → u8_at (replicate n 7) j < 256
sevens_lt zero j = omega arith
sevens_lt (suc n) zero = omega arith
sevens_lt (suc n) (suc j) = sevens_lt n j

sevens-IsPacket : IsPacket (replicate 1024 7)
sevens-IsPacket = (refl, sevens_lt 1024)

schedule-HasBytes : HasBytes (key_expand standard_key)
schedule-HasBytes = key_expand-HasBytes standard_key standard_key-IsBlock

decrypt_quic-byte_example :
    u8_at (decrypt_quic (key_expand standard_key) 20 cipher_state).pkt 17 ≡ (
      if ltb 17 20
      then bit_xor
          (u8_at cipher_state.pkt 17)
          (keystream (key_expand standard_key) cipher_state.counter 17)
      else if ltb 17 (20 / 16 * 16 + 16)
      then 0
      else u8_at cipher_state.pkt 17)
decrypt_quic-byte_example =
    decrypt_quic-byte (key_expand standard_key) 20 cipher_state 17 schedule-HasBytes sevens-IsPacket
      (omega arith) (omega arith)

decrypt_quic_twice_example :
    u8_at
      (decrypt_quic (key_expand standard_key) 20 (record cipher_state {
        pkt = (decrypt_quic (key_expand standard_key) 20 cipher_state).pkt;
      })).pkt
      17
    ≡ u8_at cipher_state.pkt 17
decrypt_quic_twice_example =
    decrypt_quic_twice (key_expand standard_key) 20 cipher_state 17 schedule-HasBytes
      sevens-IsPacket (omega arith) (omega arith)
