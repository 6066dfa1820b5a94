-- ===== src/Net/Roundtrip.antt =====
-- An address with its port, printed and parsed again (src/net.c).
use udpgrm.Base.{
  ℕ, zero, suc, ◌+◌, ◌/◌, ◌%◌, ◌≤◌, ◌<◌, true, false, ◌==◌, ltb, if◌then◌else◌, none, some, List,
  [], ◌∷◌, ◌++◌, length, length-append, take, u16, bswap16, Bool-cases, inl, inr, ==_iff, ◌≡◌, refl,
  sym, ap, ◌∙◌, arith,
}
use mathlib.Core.List.{append_assoc}
use udpgrm.Net.{
  Inet, Sockaddr, sin, sin6, net_ss_ntop, print_port, digits_of, net_gethostbyname, try6, any,
  port_behind, split_port, drop_bracket, strip_brackets, net_parse_sockaddr,
}
use udpgrm.Net.Decimal.{
  AllDigits, number, digits_of-AllDigits, number-digits_of, last_colon-append, digits-last_colon,
  strtol-digits,
}

-- What the two functions of the C library promise of addresses of 4 and of 16 bytes: a printed address
-- is read back, and is short; inet_pton takes no text with a bracket in front, and no dotted address
-- with a colon behind it.
pub record IsInet (inet : Inet) : Type 0 where
  pub back4 : (addr : List ℕ) → length addr ≡ 4 → inet.pton4 (inet.ntop4 addr) ≡ some addr
  pub back6 : (addr : List ℕ) → length addr ≡ 16 → inet.pton6 (inet.ntop6 addr) ≡ some addr
  pub short4 : (addr : List ℕ) → length addr ≡ 4 → length (inet.ntop4 addr) ≤ 15
  pub short6 : (addr : List ℕ) → length addr ≡ 16 → length (inet.ntop6 addr) ≤ 45
  pub bracket4 : (s : List ℕ) → inet.pton4 (b'[' ∷ s) ≡ none
  pub bracket6 : (s : List ℕ) → inet.pton6 (b'[' ∷ s) ≡ none
  pub colon6 :
      (addr s : List ℕ) → length addr ≡ 4 → inet.pton6 (inet.ntop4 addr ++ (b':' ∷ s)) ≡ none

-- An IPv4 or IPv6 address.
pub data IsIp : Sockaddr → Type 0 where
  ip4 : (port : ℕ) (addr : List ℕ) → port < 65536 → length addr ≡ 4 → IsIp (sin port addr)
  ip6 : (port : ℕ) (addr : List ℕ) → port < 65536 → length addr ≡ 16 → IsIp (sin6 port addr)

take_short {ℓ} : {A : Type ℓ} (n : ℕ) (xs : List A) → length xs ≤ n → take n xs ≡ xs
take_short zero [] h = refl
take_short zero (x ∷ xs) h = elim h [ ]
take_short (suc n) [] h = refl
take_short (suc n) (x ∷ xs) h = ap (λ t. x ∷ t) (take_short n xs (omega arith))

length-digits_of : (f n : ℕ) → length (digits_of f n) ≤ f
unfolding digits_of
length-digits_of zero n = omega arith
length-digits_of (suc f) n =
    ground (
      arith,
      length-digits_of f (n / 10),
      length-append (digits_of f (n / 10)) ((48 + n % 10) ∷ []),
    )

-- The digits of a port, split off behind the last colon.
split_digits :
    (h ds : List ℕ) (n d : ℕ)
    → AllDigits ds
    → 0 < length ds
    → number 0 ds ≡ n
    → n < 65536
    → length h ≤ 255
    → split_port (h ++ (b':' ∷ ds)) d ≡ (h, n)
unfolding split_port port_behind
split_digits h [] n d digits nonempty e l s = absurd (omega arith)
split_digits h (c ∷ ds) n d digits nonempty e l s =
    let big : ltb 65535 n ≡ false = ground arith in
    rw
      (
        last_colon-append h (c ∷ ds) (digits-last_colon (c ∷ ds) digits),
        strtol-digits c ds digits,
        e,
        big,
        take_short 255 h s,
      )
      refl

length-print_port-le : (n : ℕ) → length (print_port n) ≤ 5
unfolding print_port
length-print_port-le n = length-digits_of 5 n

length-print_port : (n : ℕ) → 0 < length (print_port n)
unfolding print_port digits_of
length-print_port n =
    omega
      (arith, length-append (if n / 10 == 0 then [] else digits_of 4 (n / 10)) ((48 + n % 10) ∷ []))

split_printed :
    (h : List ℕ) (n d : ℕ)
    → n < 65536
    → length h ≤ 255
    → split_port (h ++ (b':' ∷ print_port n)) d ≡ (h, n)
split_printed h n d l s =
    split_digits h (print_port n) n d (unfold print_port in digits_of-AllDigits 5 n)
      (length-print_port n) (unfold print_port in number-digits_of 5 n (omega arith)) l s

drop_bracket-append : (t : List ℕ) → drop_bracket (t ++ (b']' ∷ [])) ≡ some t
unfolding drop_bracket
drop_bracket-append [] = refl
drop_bracket-append (c ∷ []) = refl
drop_bracket-append (c ∷ d ∷ t) = rw (drop_bracket-append (d ∷ t)) refl

-- A port in network order, printed in host order and stored again.
port_back : (port : ℕ) → port < 65536 → bswap16 (u16 (bswap16 port)) ≡ port
port_back port h = omega arith

module _ (inet : Inet) (lawful : IsInet inet) (d : ℕ) where
  not_bracket4 :
      (addr : List ℕ) → length addr ≡ 4 → strip_brackets (inet.ntop4 addr) ≡ (inet.ntop4 addr, any)
  not_bracket4 addr h = first (inet.ntop4 addr) (lawful.back4 addr h)
    where
      first : (t : List ℕ) → inet.pton4 t ≡ some addr → strip_brackets t ≡ (t, any)
      first [] e = unfold strip_brackets in refl
      first (c ∷ t) e = elim (Bool-cases (c == b'[')) [
        | inl q ↦
            let same : c ≡ b'[' = (==_iff c b'[').0 q in
            absurd (cc (lawful.bracket4 t, ap (λ x. inet.pton4 (x ∷ t)) same))
        | inr q ↦ unfold strip_brackets in rw q refl
      ]

  parse4 :
      (port : ℕ) (addr : List ℕ)
      → port < 65536
      → length addr ≡ 4
      → net_parse_sockaddr inet (inet.ntop4 addr ++ (b':' ∷ print_port (bswap16 port))) d
        ≡ some (sin port addr)
  unfolding net_parse_sockaddr net_gethostbyname try6
  parse4 port addr l h =
      let digits = print_port (bswap16 port) in
      let text = inet.ntop4 addr ++ (b':' ∷ digits) in
      let short = lawful.short4 addr h in
      let whole : take 255 text ≡ text = take_short 255 text (
        omega (
          arith,
          length-append (inet.ntop4 addr) (b':' ∷ digits),
          length-print_port-le (bswap16 port),
        )) in
      rw
        (
          whole,
          lawful.colon6 addr digits h,
          split_printed (inet.ntop4 addr) (bswap16 port) d (omega arith) (omega arith),
          not_bracket4 addr h,
          lawful.back4 addr h,
          port_back port l,
        )
        refl

  parse6 :
      (port : ℕ) (addr : List ℕ)
      → port < 65536
      → length addr ≡ 16
      → net_parse_sockaddr inet
          (b'[' ∷ (inet.ntop6 addr ++ (b']' ∷ b':' ∷ print_port (bswap16 port))))
          d
        ≡ some (sin6 port addr)
  unfolding net_parse_sockaddr net_gethostbyname try6 strip_brackets
  parse6 port addr l h =
      let digits = print_port (bswap16 port) in
      let t = inet.ntop6 addr in
      let host = b'[' ∷ (t ++ (b']' ∷ [])) in
      let text = b'[' ∷ (t ++ (b']' ∷ b':' ∷ digits)) in
      let short = lawful.short6 addr h in
      let len : length host ≤ 255 = omega (arith, length-append t (b']' ∷ [])) in
      let cut : host ++ (b':' ∷ digits) ≡ text =
        ap (λ r. b'[' ∷ r) (append_assoc t (b']' ∷ []) (b':' ∷ digits)) in
      let split : split_port text d ≡ (host, bswap16 port) =
        ap (λ r. split_port r d) (sym cut)
        ∙ split_printed host (bswap16 port) d (omega arith) len in
      rw
        (
          lawful.bracket6 (take 254 (t ++ (b']' ∷ b':' ∷ digits))),
          split,
          drop_bracket-append t,
          lawful.back6 addr h,
          port_back port l,
        )
        refl

  -- What net_ss_ntop prints of an IPv4 or IPv6 address with its port, net_parse_sockaddr reads back to
  -- the same address, whatever the default port is, for an inet_ntop and inet_pton that keep their
  -- promises.
  pub net_parse_sockaddr-net_ss_ntop :
      (ss : Sockaddr) (text : List ℕ)
      → IsIp ss
      → net_ss_ntop inet ss true ≡ some text
      → net_parse_sockaddr inet text d ≡ some ss
  unfolding net_ss_ntop
  net_parse_sockaddr-net_ss_ntop _ text (ip4 port addr l h) e =
      let same : inet.ntop4 addr ++ (b':' ∷ print_port (bswap16 port)) ≡ text = cc in
      ap (λ t. net_parse_sockaddr inet t d) (sym same) ∙ parse4 port addr l h
  net_parse_sockaddr-net_ss_ntop _ text (ip6 port addr l h) e =
      let same : b'[' ∷ (inet.ntop6 addr ++ (b']' ∷ b':' ∷ print_port (bswap16 port))) ≡ text =
        cc in
      ap (λ t. net_parse_sockaddr inet t d) (sym same) ∙ parse6 port addr l h
