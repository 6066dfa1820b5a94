-- ===== src/Quic/Counter.antt =====
-- The block counter of AES-CTR (ebpf/ebpf_quic.c).
use udpgrm.Base.{
  ℕ, Bool, ap, sym, ◌∙◌, ◌+◌, ◌*◌, ◌%◌, ◌^◌, ◌<◌, ◌≡◌, bswap32, bswap64, arith, u64, ◌==◌,
  if◌then◌else◌,
}
use udpgrm.Quic.{AesKey, increment_counter}

pub bswap32_lem : (x : ℕ) → x < 2 ^ 32 → (bswap32 (bswap32 x) ≡ x) × (bswap32 x < 2 ^ 32)
bswap32_lem x h = omega arith

pub bswap64_lem : (x : ℕ) → x < 2 ^ 64 → (bswap64 (bswap64 x) ≡ x) × (bswap64 x < 2 ^ 64)
bswap64_lem x h = omega arith

bswap64_zero : (x : ℕ) → x < 2 ^ 64 → ((bswap64 x == 0) ≡ (x == 0))
bswap64_zero x h = ground arith

u64-lt : (x : ℕ) → u64 x < 2 ^ 64
u64-lt x = omega arith

-- The 16 bytes of a counter as one big-endian number.
abbrev pub big_endian : AesKey → ℕ
big_endian k = bswap64 k.c0 * 2 ^ 64 + bswap64 k.c1

-- The carry from the low to the high word.
carry :
    (a b c0 c1 : ℕ)
    → a < 2 ^ 64
    → b < 2 ^ 64
    → c1 ≡ u64 (b + 1)
    → c0 ≡ u64 (a + (if c1 == 0 then 1 else 0))
    → c0 * 2 ^ 64 + c1 ≡ (a * 2 ^ 64 + b + 1) % 2 ^ 128
carry a b c0 c1 ha hb e₁ e₀ = ground arith

-- increment_counter adds one to the 128-bit big-endian counter, with wrap-around.
pub big_endian-increment_counter :
    (k : AesKey)
    → k.c0 < 2 ^ 64
    → k.c1 < 2 ^ 64
    → big_endian (increment_counter k) ≡ (big_endian k + 1) % 2 ^ 128
unfolding increment_counter
big_endian-increment_counter k h₀ h₁ =
    let a = bswap64 k.c0 in
    let y = u64 (bswap64 k.c1 + 1) in
    let back : bswap64 (bswap64 y) ≡ y = (bswap64_lem y (u64-lt _)).0 in
    let test : (bswap64 y == 0) ≡ (bswap64 (bswap64 y) == 0) =
      bswap64_zero y (u64-lt _) ∙ ap (λ x. x == 0) (sym back) in
    carry a (bswap64 k.c1) _ (bswap64 (bswap64 y)) (bswap64_lem k.c0 h₀).1 (bswap64_lem k.c1 h₁).1
      back ((bswap64_lem _ (u64-lt _)).0 ∙ ap (λ (b : Bool). u64 (a + (if b then 1 else 0))) test)
