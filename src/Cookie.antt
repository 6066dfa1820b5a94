-- ===== src/Cookie.antt =====
-- The 16-bit udpgrm cookie and the generation slots (include/udpgrm_internal.h).
pub mod Roundtrip
pub mod Slots
use udpgrm.Base.{
  ℕ, ◌+◌, ◌*◌, ◌/◌, ◌%◌, ◌^◌, bit_or, bit_xor, Option, none, some, List, [], ◌∷◌, u8, ◌>>>◌, ◌<<<◌,
  ◌==◌, if◌then◌else◌,
}

abbrev pub max_sockets_in_gen : ℕ
max_sockets_in_gen = 256

abbrev pub max_gens : ℕ
max_gens = 32

abbrev pub max_apps : ℕ
max_apps = 4

-- GRM_COOKIE_CS
unfoldable pub grm_cookie_cs : ℕ → ℕ → ℕ
grm_cookie_cs sock_gen sock_idx =
    let cs = u8 (
      bit_xor
        (bit_xor (bit_xor (bit_xor 0xD (sock_idx >>> 4 % 16)) (sock_idx % 16))
          (sock_gen >>> 4 % 16))
        (sock_gen % 16)) in
    bit_xor (cs % 8) (cs >>> 3 % 2)

-- The four bytes that `v` points to.
unfoldable pub grm_cookie_pack : ℕ → ℕ → List ℕ
grm_cookie_pack gen idx =
    let sock_gen = gen % 2 ^ 5 in
    let sock_idx = idx % 2 ^ 8 in
    let cs = grm_cookie_cs sock_gen sock_idx in
    u8 (bit_or (sock_gen % 2 ^ 5) (cs <<< 5)) ∷ sock_idx % 2 ^ 8 ∷ 0 ∷ 0 ∷ []

-- `none` is the return value -1, where nothing is written.
unfoldable pub grm_cookie_unpack : ℕ → Option (ℕ × ℕ)
grm_cookie_unpack grm_cookie =
    let sock_gen = grm_cookie % 2 ^ 5 in
    let sock_idx = grm_cookie >>> 8 % 2 ^ 8 in
    let cs_from_cookie = grm_cookie % 2 ^ 8 >>> 5 in
    if cs_from_cookie == grm_cookie_cs sock_gen sock_idx then some (sock_gen, sock_idx) else none

-- TO_WRK_GEN in the eBPF programs, where x / 0 is 0 and x % 0 is x, as with the native numbers. In
-- the daemon a slot size of 0 traps.
unfoldable pub to_wrk_gen : ℕ → ℕ → ℕ → ℕ
to_wrk_gen apps app_idx working_gen =
    let max_apps = if apps == 0 then 1 else apps in
    let slot_size = max_gens / max_apps in (app_idx * slot_size + working_gen % slot_size) % 2 ^ 32
