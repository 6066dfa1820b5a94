-- ===== src/Cookie/Roundtrip.antt =====
-- Packing and unpacking of udpgrm cookies (include/udpgrm_internal.h).
use udpgrm.Base.{
  ℕ, ◌+◌, ◌*◌, ◌/◌, ◌%◌, ◌^◌, ◌<◌, ◌≡◌, refl, bit_or, true, some, u8, u16_at, ◌<<<◌, ◌==◌, ltb,
  ==_iff, all_below₂, all_below₂-lt, arith,
}
use udpgrm.Cookie.{grm_cookie_cs, grm_cookie_pack, grm_cookie_unpack}

cs-lt_table : all_below₂ 32 256 (λ gen idx. ltb (grm_cookie_cs gen idx) 8) ≡ true
unfolding all_below₂ grm_cookie_cs
cs-lt_table = refl

pub grm_cookie_cs-lt : (gen idx : ℕ) → gen < 32 → idx < 256 → grm_cookie_cs gen idx < 8
grm_cookie_cs-lt gen idx hg hi = ground (arith, all_below₂-lt 32 256 _ gen idx cs-lt_table hg hi)

-- `|` of the five generation bits and the three checksum bits is their sum.
fields_table : all_below₂ 32 8 (λ gen cs. u8 (bit_or gen (cs <<< 5)) == gen + cs * 32) ≡ true
unfolding all_below₂
fields_table = refl

bit_or_fields : (gen cs : ℕ) → gen < 32 → cs < 8 → u8 (bit_or gen (cs <<< 5)) ≡ gen + cs * 32
bit_or_fields gen cs hg hc = (==_iff _ _).0 (all_below₂-lt 32 8 _ gen cs fields_table hg hc)

-- The cookie as it stands in the two bytes that a packet carries.
abbrev pub cookie_of : ℕ → ℕ → ℕ
cookie_of gen idx = u16_at (grm_cookie_pack gen idx) 0

pub cookie_of_sum :
    (gen idx : ℕ)
    → cookie_of gen idx ≡ gen % 32 + grm_cookie_cs (gen % 32) (idx % 256) * 32 + idx % 256 * 256
unfolding grm_cookie_pack
cookie_of_sum gen idx = ground (
  arith,
  bit_or_fields (gen % 32) (grm_cookie_cs (gen % 32) (idx % 256)),
  grm_cookie_cs-lt (gen % 32) (idx % 256),
)

cookie_fields :
    (gen idx cs : ℕ)
    → gen < 32
    → idx < 256
    → cs < 8
    → let c = gen + cs * 32 + idx * 256 in
      (c % 32 ≡ gen) × (c / 256 % 256 ≡ idx) × (c % 256 / 32 ≡ cs)
cookie_fields gen idx cs hg hi hc = omega arith

-- What grm_cookie_pack writes for a generation and an index, read as the 16-bit cookie of a packet,
-- grm_cookie_unpack accepts, and it gives the generation modulo 32 and the index modulo 256.
pub unpack-pack : (gen idx : ℕ) → grm_cookie_unpack (cookie_of gen idx) ≡ some (gen % 32, idx % 256)
unfolding grm_cookie_unpack
unpack-pack gen idx = rw (cookie_of_sum gen idx) (
    ground (
      arith,
      grm_cookie_cs-lt (gen % 32) (idx % 256),
      cookie_fields (gen % 32) (idx % 256) (grm_cookie_cs (gen % 32) (idx % 256)),
    ))

-- A 16-bit value that grm_cookie_unpack accepts is the cookie that grm_cookie_pack writes for the
-- generation and the index that it gives.
pub pack-unpack :
    (c gen idx : ℕ) → c < 2 ^ 16 → grm_cookie_unpack c ≡ some (gen, idx) → cookie_of gen idx ≡ c
unfolding grm_cookie_unpack
pack-unpack c gen idx hc h = ground (arith, cookie_of_sum gen idx)
