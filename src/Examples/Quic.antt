-- ===== src/Examples/Quic.antt =====
-- QUIC numbers, the counter, and a small ClientHello (ebpf/ebpf_quic.c).
use udpgrm.Base.{ℕ, List, [], ◌∷◌, ◌++◌, ◌+◌, ◌%◌, ◌^◌, ◌≡◌, refl, some, replicate, length, arith}
use udpgrm.Quic.{varint_decode, AesKey, increment_counter}
use udpgrm.Quic.Varint.{two, wire, varint_decode-wire}
use udpgrm.Quic.Counter.{big_endian, big_endian-increment_counter}
use udpgrm.Quic.Hello.{
  value, parse_client_hello_extract_sni, read, buf_get_u8, buf_get_u16, read_le, decoded,
  buf_get_varint, copy, server_name, extensions, hello_body, handshake,
}
use udpgrm.Quic.Bounds.{Good, Fits, parse_client_hello_extract_sni-Good}

-- 15293 is 0x7bbd in two bytes.
two_bytes : wire two 15293 7 ≡ 0x7_bd7b
two_bytes = refl

varint_decode-wire_example : varint_decode 0x7_bd7b ≡ some (15293, 2)
varint_decode-wire_example = varint_decode-wire two 15293 7 (omega arith)

-- All 64 low bits are set.
abbrev full_low : AesKey
full_low = record { c0 = 0; c1 = 0xffff_ffff_ffff_ffff }

big_endian-increment_counter_example :
    big_endian (increment_counter full_low) ≡ (big_endian full_low + 1) % 2 ^ 128
big_endian-increment_counter_example =
    big_endian-increment_counter full_low (omega arith) (omega arith)

-- A CRYPTO frame with a ClientHello whose one extension is the server name "a".
abbrev hello : List ℕ
hello =
    6 ∷ 0 ∷ 60 ∷ 1 ∷ 0 ∷ 0 ∷ 56 ∷ 3 ∷ 3 ∷ replicate 32 7
    ++ 0
      ∷ 0
      ∷ 2
      ∷ 0x13
      ∷ 1
      ∷ 1
      ∷ 0
      ∷ 0
      ∷ 10
      ∷ 0
      ∷ 0
      ∷ 0
      ∷ 6
      ∷ 0
      ∷ 4
      ∷ 0
      ∷ 0
      ∷ 1
      ∷ 97
      ∷ replicate 964 0

length-hello : length hello ≡ 1024
length-hello = refl

found_name : parse_client_hello_extract_sni hello ≡ value (some (0 ∷ 4 ∷ 0 ∷ 0 ∷ 1 ∷ 97 ∷ [], 6))
unfolding parse_client_hello_extract_sni read buf_get_u8 buf_get_u16 read_le decoded buf_get_varint
    copy server_name extensions hello_body handshake varint_decode
found_name = refl

parse_client_hello_extract_sni-Good_example : Good Fits (parse_client_hello_extract_sni hello)
parse_client_hello_extract_sni-Good_example = parse_client_hello_extract_sni-Good hello length-hello
