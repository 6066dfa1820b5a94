-- ===== src/Quic/Header.antt =====
-- The slow path of an initial packet (ebpf/ebpf_quic.c, ebpf/ebpf_bespoke.c): quic_parse_hdr,
-- quic_extract_sni and what run_0xDEAD makes of them. `pkt` is scratch->pkt, which keeps what an
-- earlier packet left there.
use udpgrm.Base.{
  ℕ, ◌+◌, ◌*◌, ◌/◌, ◌%◌, ◌^◌, bit_and, bit_xor, Option, none, some, false, not, ◌||◌, List, ◌++◌,
  leb, ltb, ◌==◌, if◌then◌else◌, length, take, drop, le32, sub64, ◌>>>◌, bswap32,
}
use udpgrm.Storage.Helpers.{Packet}
use udpgrm.Interp.{ierr_load, ierr_sanity, ierr_badinstr}
use udpgrm.Aes.{key_expand}
use udpgrm.Quic.{varint_decode}
use udpgrm.Quic.Keys.{QuicKeys}
use udpgrm.Quic.Decrypt.{Decrypting, combine, compute_hp_mask, decrypt_quic, counter_of, block_at}
use udpgrm.Quic.Hello.{
  Result, value, error, fault, ◌>>=◌, read, read_le, copy, smaller, Sni,
  parse_client_hello_extract_sni,
}

-- get_u8: the byte and the offset behind it, in the bytes from pkt to pkt_end.
unfoldable pub get_u8 : List ℕ → ℕ → Result (ℕ × ℕ)
get_u8 win off =
    if ltb (length win) (off + 1) then error ierr_load else read win off >>= λ v. value (v, off + 1)

-- get_u32
unfoldable pub get_u32 : List ℕ → ℕ → Result (ℕ × ℕ)
get_u32 win off =
    if ltb (length win) (off + 4)
    then error ierr_load
    else read_le 4 win off >>= λ v. value (bswap32 v, off + 4)

-- The eight bytes for varint_decode, with the test before them.
unfoldable pub get_word : List ℕ → ℕ → Result ℕ
get_word win off = if ltb (length win) (off + 8) then error ierr_load else read_le 8 win off

-- The offset behind the token.
unfoldable pub token_end : ℕ → Option (ℕ × ℕ) → Result ℕ
token_end off none = error ierr_load
token_end off (some (token_len, token_len_len)) =
    if ltb 8 token_len_len || ltb 255 token_len
    then error ierr_sanity
    else value (off + token_len_len + token_len)

-- The length of the packet, and the offset behind it.
unfoldable pub packet_length : ℕ → Option (ℕ × ℕ) → Result (ℕ × ℕ)
packet_length off none = error ierr_load
packet_length off (some (packet_len, packet_len_len)) =
    if ltb 255 packet_len_len then error ierr_load else value (packet_len, off + packet_len_len)

-- What quic_parse_hdr leaves: *enc_offset_ptr, *packet_len_ptr and scratch->quic_iv.
pub record Header : Type 0 where
  pub enc_offset : ℕ
  pub packet_len : ℕ
  pub iv : List ℕ

-- The switch over pno_len, from 1 to 4.
unfoldable pub shifted_pno : ℕ → ℕ → ℕ
shifted_pno pno_len pno =
    if pno_len == 1
    then pno % 2 ^ 8 * 2 ^ 24
    else if pno_len == 2
    then pno % 2 ^ 16 * 2 ^ 16
    else if pno_len == 3
    then pno % 2 ^ 24 * 2 ^ 8
    else pno

-- The IV becomes the nonce, and the nonce the counter.
unfoldable pub nonce : List ℕ → ℕ → List ℕ
unfolding combine
nonce iv pno = take 12 (combine bit_xor 8 (le32 (bswap32 pno)) iv) ++ le32 (bswap32 1)

-- From the protected packet number on, at offset off: hdr is the first byte.
unfoldable pub protected : QuicKeys → List ℕ → ℕ → ℕ → ℕ → Result Header
unfolding shifted_pno nonce
protected keys win hdr packet_len off =
    if leb (length win) (off + 20)
    then error ierr_load
    else copy 16 win (off + 4) >>= λ sample.
        (read_le 4 win off >>= λ raw.
        (let hp_mask = compute_hp_mask keys.hp sample in
          let hdr' =
            bit_xor hdr (bit_and (hp_mask % 256) (if hdr / 2 ^ 7 == 0 then 0x1f else 0x0f)) in
          let pno = bit_xor raw (hp_mask >>> 8 % 2 ^ 32) in
          let pno_len = hdr' % 4 + 1 in
          value (record {
            enc_offset = off + pno_len;
            packet_len = sub64 (sub64 packet_len pno_len) 16;
            iv = nonce keys.iv (bswap32 (shifted_pno pno_len pno));
          })))

-- From the version on.
unfoldable pub long_header : QuicKeys → List ℕ → ℕ → ℕ → Result Header
unfolding token_end packet_length
long_header keys win hdr off = get_u32 win off >>= λ (version, off₁).
    if not (version == 1)
    then error ierr_badinstr
    else get_u8 win off₁ >>= λ (dcid_len, off₂).
        if ltb dcid_len 8 || ltb 20 dcid_len
        then error ierr_sanity
        else get_u8 win (off₂ + dcid_len) >>= λ (scid_len, off₃).
            (get_word win (off₃ + scid_len) >>= λ token.
            (token_end (off₃ + scid_len) (varint_decode token) >>= λ off₄.
            (get_word win off₄ >>= λ word.
            (packet_length off₄ (varint_decode word) >>= λ (packet_len, off₅).
            protected keys win hdr packet_len off₅))))

-- After a packet that is not an initial one both lengths are the caller's zeros.
unfoldable pub header_in : QuicKeys → List ℕ → Result Header
header_in keys win = get_u8 win 8 >>= λ (hdr, off).
    if not (hdr / 2 ^ 4 == 0xc)
    then value (record { enc_offset = 0; packet_len = 0; iv = keys.iv })
    else long_header keys win hdr off

-- The bytes that the header is read from, and scratch->pkt.
pub record Window : Type 0 where
  pub win : List ℕ
  pub pkt : List ℕ

unfoldable pub loaded_window : ℕ → List ℕ → Option (List ℕ) → Result Window
loaded_window sz pkt none = error ierr_load
loaded_window sz pkt (some bytes) = value (record { win = bytes; pkt = bytes ++ drop sz pkt })

unfoldable pub window : Packet → List ℕ → Result Window
unfolding loaded_window
window md pkt =
    if ltb (length md.linear) (smaller md.len 192)
    then (if ltb md.len 1
        then error ierr_sanity
        else loaded_window (smaller md.len 192) pkt (md.load 0 (smaller md.len 192)))
    else value (record { win = md.linear; pkt = pkt })

-- quic_parse_hdr
unfoldable pub quic_parse_hdr : Packet → QuicKeys → List ℕ → Result (Header × List ℕ)
quic_parse_hdr md keys pkt = window md pkt >>= λ w. (header_in keys w.win >>= λ h. value (h, w.pkt))

-- The search in what decrypt_quic leaves, after an access outside of scratch->pkt a fault.
unfoldable pub search_plaintext : Decrypting → Result Sni
search_plaintext s = if s.outside then fault else parse_client_hello_extract_sni s.pkt

unfoldable pub extract_loaded : QuicKeys → Header → List ℕ → ℕ → Option (List ℕ) → Result Sni
unfolding search_plaintext
extract_loaded keys h pkt n none = error ierr_load
extract_loaded keys h pkt n (some bytes) =
    let start : Decrypting = record {
      counter = counter_of h.iv;
      pkt = bytes ++ drop n pkt;
      outside = false;
    } in
    search_plaintext (decrypt_quic (key_expand (block_at keys.key 0)) n start)

-- quic_extract_sni
unfoldable pub quic_extract_sni : Packet → QuicKeys → Header → List ℕ → Result Sni
unfolding extract_loaded
quic_extract_sni md keys h pkt =
    let n = smaller h.packet_len 1024 in
    if ltb h.packet_len 2
    then error ierr_sanity
    else extract_loaded keys h pkt n (md.load h.enc_offset n)
