-- ===== src/Examples/Net.antt =====
-- Addresses with ports (src/net.c), for an inet_ntop that puts a letter before the bytes of an address.
use udpgrm.Base.{ℕ, ◌==◌, if◌then◌else◌, Option, none, some, List, [], ◌∷◌, true, ◌≡◌, refl, arith}
use udpgrm.Net.{
  Inet, Sockaddr, sin, sun, net_ss_size, net_ss_ntop, net_parse_sockaddr, strtol, last_colon,
  strip_brackets,
}
use udpgrm.Net.Roundtrip.{IsInet, ip4, net_parse_sockaddr-net_ss_ntop}

abbrev lettered : ℕ → List ℕ → Option (List ℕ)
lettered letter [] = none
lettered letter (c ∷ s) = if c == letter then some s else none

abbrev inet : Inet
inet = record {
  pton4 = lettered b'v';
  pton6 = lettered b'x';
  ntop4 = λ addr. b'v' ∷ addr;
  ntop6 = λ addr. b'x' ∷ addr;
}

inet-IsInet : IsInet inet
inet-IsInet = record {
  back4 = λ addr h. refl;
  back6 = λ addr h. refl;
  short4 = λ addr h. omega arith;
  short6 = λ addr h. omega arith;
  bracket4 = λ s. refl;
  bracket6 = λ s. refl;
  colon6 = λ addr s h. refl;
}

-- 10.0.0.2:443
abbrev https : Sockaddr
https = sin 0xbb01 (10 ∷ 0 ∷ 0 ∷ 2 ∷ [])

https_text :
    net_ss_ntop inet https true ≡ some (b'v' ∷ 10 ∷ 0 ∷ 0 ∷ 2 ∷ b':' ∷ b'4' ∷ b'4' ∷ b'3' ∷ [])
unfolding net_ss_ntop
https_text = refl

net_parse_sockaddr-net_ss_ntop_example :
    net_parse_sockaddr inet (b'v' ∷ 10 ∷ 0 ∷ 0 ∷ 2 ∷ b':' ∷ b'4' ∷ b'4' ∷ b'3' ∷ []) 53 ≡ some https
net_parse_sockaddr-net_ss_ntop_example =
    net_parse_sockaddr-net_ss_ntop inet inet-IsInet 53 https
      (b'v' ∷ 10 ∷ 0 ∷ 0 ∷ 2 ∷ b':' ∷ b'4' ∷ b'4' ∷ b'3' ∷ [])
      (ip4 0xbb01 (10 ∷ 0 ∷ 0 ∷ 2 ∷ []) (omega arith) refl) https_text

-- A port out of range stays part of the host, which is then no address.
too_large :
    net_parse_sockaddr inet (b'v' ∷ b':' ∷ b'9' ∷ b'9' ∷ b'9' ∷ b'9' ∷ b'9' ∷ []) 53
    ≡ some (sin 0x3500 (b':' ∷ b'9' ∷ b'9' ∷ b'9' ∷ b'9' ∷ b'9' ∷ []))
unfolding net_parse_sockaddr strtol last_colon strip_brackets
too_large = refl

-- An abstract UNIX address of the name "ab".
abstract_size : net_ss_size (sun (0 ∷ b'a' ∷ b'b' ∷ [])) ≡ 5
unfolding net_ss_size
abstract_size = refl
