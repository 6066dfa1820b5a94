-- ===== src/Net.antt =====
-- Socket addresses (src/net.c): net_ss_size, net_get_port, net_ss_ntop, net_gethostbyname and
-- net_parse_sockaddr. A C string is the list of its bytes without the NUL; inet_pton and inet_ntop are
-- arguments.
pub mod Decimal
pub mod Roundtrip
pub mod Key
use udpgrm.Base.{
  ℕ, zero, suc, ◌+◌, ◌-◌, ◌*◌, ◌/◌, ◌%◌, ◌^◌, Bool, true, false, not, ◌&&◌, ◌||◌, Option, none,
  some, List, [], ◌∷◌, ◌++◌, ltb, leb, ◌==◌, if◌then◌else◌, length, take, drop, u16, bswap16,
}

-- inet_pton(AF_INET, …), inet_pton(AF_INET6, …) where they return 1, and inet_ntop.
pub record Inet : Type 0 where
  pub pton4 : List ℕ → Option (List ℕ)
  pub pton6 : List ℕ → Option (List ℕ)
  pub ntop4 : List ℕ → List ℕ
  pub ntop6 : List ℕ → List ℕ

-- struct sockaddr_storage: the port in network order, and the address.
pub data Sockaddr : Type 0 where
  sin : ℕ → List ℕ → Sockaddr
  sin6 : ℕ → List ℕ → Sockaddr
  sun : List ℕ → Sockaddr
  other : ℕ → Sockaddr

-- strnlen
unfoldable pub strnlen : List ℕ → ℕ → ℕ
strnlen s zero = 0
strnlen [] (suc max) = 0
strnlen (c ∷ s) (suc max) = let rest = strnlen s max in if c == 0 then 0 else suc rest

-- net_ss_size: sun_path stands at offset 2 and has 108 bytes.
unfoldable pub net_ss_size : Sockaddr → ℕ
unfolding strnlen
net_ss_size (sin port addr) = 16
net_ss_size (sin6 port addr) = 28
net_ss_size (sun []) = 2 + 1
net_ss_size (sun (c ∷ path)) =
    if not (c == 0) then 2 + strnlen (c ∷ path) 108 else 2 + (1 + strnlen path 107)
net_ss_size (other family) = 128

-- net_get_port: none is -1.
unfoldable pub net_get_port : Sockaddr → Option ℕ
net_get_port (sin port addr) = some (bswap16 port)
net_get_port (sin6 port addr) = some (bswap16 port)
net_get_port (sun path) = none
net_get_port (other family) = none

-- The decimal digits of a number, with fuel for the digits.
unfoldable pub digits_of : ℕ → ℕ → List ℕ
digits_of zero n = []
digits_of (suc fuel) n =
    let before = digits_of fuel (n / 10) in
    (if n / 10 == 0 then [] else before) ++ ((b'0' + n % 10) ∷ [])

-- snprintf("%d") of a port.
unfoldable pub print_port : ℕ → List ℕ
unfolding digits_of
print_port n = digits_of 5 n

-- net_ss_ntop; none is the exit on an unknown family.
unfoldable pub net_ss_ntop : Inet → Sockaddr → Bool → Option (List ℕ)
unfolding print_port
net_ss_ntop inet (sin port addr) show_port =
    some
      (if show_port then inet.ntop4 addr ++ (b':' ∷ print_port (bswap16 port)) else inet.ntop4 addr)
net_ss_ntop inet (sin6 port addr) show_port = some (
    if show_port
    then b'[' ∷ (inet.ntop6 addr ++ (b']' ∷ b':' ∷ print_port (bswap16 port)))
    else inet.ntop6 addr)
net_ss_ntop inet (sun []) show_port = some (b'@' ∷ [])
net_ss_ntop inet (sun (c ∷ path)) show_port =
    some (
      take (strnlen ((if c == 0 then b'@' else c) ∷ path) 108)
        ((if c == 0 then b'@' else c) ∷ path))
net_ss_ntop inet (other family) show_port = none

-- force_family
pub data Family : Type 0 where
  any : Family
  only6 : Family

unfoldable pub as_sin6 : ℕ → Option (List ℕ) → Option Sockaddr
as_sin6 port none = none
as_sin6 port (some addr) = some (sin6 (bswap16 (u16 port)) addr)

-- The test of inet_pton(AF_INET6, …).
unfoldable pub try6 : Inet → List ℕ → ℕ → Option Sockaddr
unfolding as_sin6
try6 inet host port = as_sin6 port (inet.pton6 host)

unfoldable pub as_sin : Inet → List ℕ → ℕ → Option (List ℕ) → Option Sockaddr
unfolding try6
as_sin inet host port none = try6 inet host port
as_sin inet host port (some addr) = some (sin (bswap16 (u16 port)) addr)

-- net_gethostbyname: none is -1.
unfoldable pub net_gethostbyname : Inet → List ℕ → ℕ → Family → Option Sockaddr
unfolding try6 as_sin
net_gethostbyname inet host port only6 = try6 inet host port
net_gethostbyname inet host port any = as_sin inet host port (inet.pton4 host)

-- strrchr(addr, ':'): what stands before and behind the last colon.
unfoldable pub last_colon : List ℕ → Option (List ℕ × List ℕ)
last_colon [] = none
last_colon (c ∷ s) = elim (last_colon s) [
  | some (before, behind) ↦ some (c ∷ before, behind)
  | none ↦ if c == b':' then some ([], s) else none
]

unfoldable pub is_digit : ℕ → Bool
is_digit c = leb b'0' c && leb c b'9'

-- The digits that strtol reads, on top of n, and what is left.
unfoldable pub read_digits : ℕ → List ℕ → ℕ × List ℕ
unfolding is_digit
read_digits n [] = (n, [])
read_digits n (c ∷ s) =
    let rest = read_digits (n * 10 + (c - b'0')) s in if is_digit c then rest else (n, c ∷ s)

-- The characters that strtol skips.
unfoldable pub is_space : ℕ → Bool
is_space c = c == b' ' || (leb 9 c && leb c 13)

unfoldable pub skip_spaces : List ℕ → List ℕ
unfolding is_space
skip_spaces [] = []
skip_spaces (c ∷ s) = let rest = skip_spaces s in if is_space c then rest else c ∷ s

-- strtol behind the sign: whether it is negative, the digits' value, and what is left of the whole
-- text; without a digit nothing is read.
unfoldable pub strtol_digits : Bool → List ℕ → List ℕ → Bool × ℕ × List ℕ
unfolding read_digits
strtol_digits negative whole [] = (false, 0, whole)
strtol_digits negative whole (c ∷ s) =
    if is_digit c
    then (let (n, rest) = read_digits 0 (c ∷ s) in (negative, n, rest))
    else (false, 0, whole)

unfoldable pub strtol_signed : List ℕ → List ℕ → Bool × ℕ × List ℕ
unfolding strtol_digits
strtol_signed whole [] = (false, 0, whole)
strtol_signed whole (c ∷ s) =
    if c == b'-'
    then strtol_digits true whole s
    else if c == b'+'
    then strtol_digits false whole s
    else strtol_digits false whole (c ∷ s)

-- strtol(s, &endptr, 10), up to the clamp of values that are no port anyway.
unfoldable pub strtol : List ℕ → Bool × ℕ × List ℕ
unfolding strtol_signed skip_spaces
strtol s = strtol_signed s (skip_spaces s)

-- The port behind the colon, or none where it is not taken for one.
unfoldable pub port_behind : Bool × ℕ × List ℕ → Option ℕ
port_behind (negative, n, []) = if (negative && not (n == 0)) || ltb 65535 n then none else some n
port_behind (negative, n, c ∷ rest) = none

unfoldable pub with_port : List ℕ → List ℕ → ℕ → Option ℕ → List ℕ × ℕ
with_port addr before default_port none = (take 255 addr, default_port)
with_port addr before default_port (some port) = (take 255 before, port)

unfoldable pub at_colon : List ℕ → ℕ → Option (List ℕ × List ℕ) → List ℕ × ℕ
unfolding with_port port_behind
at_colon addr default_port none = (take 255 addr, default_port)
at_colon addr default_port (some (before, [])) = (take 255 addr, default_port)
at_colon addr default_port (some (before, c ∷ s)) =
    with_port addr before default_port (port_behind (strtol (c ∷ s)))

-- The host, and the port behind the last colon.
unfoldable pub split_port : List ℕ → ℕ → List ℕ × ℕ
unfolding at_colon
split_port addr default_port = at_colon addr default_port (last_colon addr)

-- All but the last element, and whether the last one is `]`.
unfoldable pub drop_bracket : List ℕ → Option (List ℕ)
drop_bracket [] = none
drop_bracket (c ∷ []) = if c == b']' then some [] else none
drop_bracket (c ∷ d ∷ s) = elim (drop_bracket (d ∷ s)) [ none ↦ none | some t ↦ some (c ∷ t) ]

-- The brackets round an IPv6 address.
unfoldable pub strip_brackets : List ℕ → List ℕ × Family
strip_brackets [] = ([], any)
strip_brackets (c ∷ s) =
    if c == b'['
    then elim (drop_bracket s) [ none ↦ (c ∷ s, any) | some t ↦ (t, only6) ]
    else (c ∷ s, any)

unfoldable pub parse_host : Inet → ℕ → List ℕ × Family → Option Sockaddr
parse_host inet port (host, family) = net_gethostbyname inet host port family

unfoldable pub parse_split : Inet → List ℕ × ℕ → Option Sockaddr
unfolding parse_host strip_brackets
parse_split inet (host, port) = parse_host inet port (strip_brackets host)

unfoldable pub after_first : Inet → List ℕ → ℕ → Option Sockaddr → Option Sockaddr
unfolding parse_split split_port
after_first inet addr default_port (some ss) = some ss
after_first inet addr default_port none = parse_split inet (split_port addr default_port)

-- net_parse_sockaddr: none is -1.
unfoldable pub net_parse_sockaddr : Inet → List ℕ → ℕ → Option Sockaddr
unfolding after_first net_gethostbyname
net_parse_sockaddr inet addr default_port =
    after_first inet addr default_port (net_gethostbyname inet (take 255 addr) default_port only6)
