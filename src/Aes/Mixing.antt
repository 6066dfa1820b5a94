-- ===== src/Aes/Mixing.antt =====
-- The powers of mix_columns (ebpf/ebpf_aes128.c).
use udpgrm.Base.{ℕ, ◌<◌, bit_xor, ◌≡◌, refl, ap, ◌∙◌, [], ◌∷◌}
use mathlib.Core.Path.{ap₂}
use udpgrm.Base.Xor.{term, ◌⊕◌, same_terms}
use udpgrm.Aes.{Column, gf_multiply_by_2, mix_column}
use udpgrm.Aes.Byte.{gf_multiply_by_2-bit_xor, gf_multiply_by_2-lt}
use udpgrm.Aes.Columns.{IsBytes, xor_byte-lt, mix_column-IsBytes}
use udpgrm.Aes.Field.{mixed}

module _ (x y z w tmp : ℕ) (hx : x < 256) (hy : y < 256) (hz : z < 256) (hw : w < 256) where
  -- The sum of the mixed bytes is that of the bytes.
  mixed-sum :
      bit_xor (bit_xor (bit_xor (mixed x y tmp) (mixed y z tmp)) (mixed z w tmp)) (mixed w x tmp)
      ≡ bit_xor (bit_xor (bit_xor x y) z) w
  unfolding mixed
  mixed-sum =
      rw
        (
          gf_multiply_by_2-bit_xor x y hx hy,
          gf_multiply_by_2-bit_xor y z hy hz,
          gf_multiply_by_2-bit_xor z w hz hw,
          gf_multiply_by_2-bit_xor w x hw hx,
        )
        (let X = term 0 in
          let Y = term 1 in
          let Z = term 2 in
          let W = term 3 in
          let TX = term 4 in
          let TY = term 5 in
          let TZ = term 6 in
          let TW = term 7 in
          let S = term 8 in
          same_terms
            (x
              ∷ y
              ∷ z
              ∷ w
              ∷ gf_multiply_by_2 x
              ∷ gf_multiply_by_2 y
              ∷ gf_multiply_by_2 z
              ∷ gf_multiply_by_2 w
              ∷ tmp
              ∷ [])
            ((X ⊕ ((TX ⊕ TY) ⊕ S))
              ⊕ (Y ⊕ ((TY ⊕ TZ) ⊕ S))
              ⊕ (Z ⊕ ((TZ ⊕ TW) ⊕ S))
              ⊕ (W ⊕ ((TW ⊕ TX) ⊕ S)))
            (X ⊕ Y ⊕ Z ⊕ W) refl)

  -- The difference of two mixed neighbours.
  mixed-difference :
      bit_xor (mixed x y tmp) (mixed y z tmp)
      ≡ bit_xor (bit_xor x y) (bit_xor (gf_multiply_by_2 x) (gf_multiply_by_2 z))
  unfolding mixed
  mixed-difference =
      rw (gf_multiply_by_2-bit_xor x y hx hy, gf_multiply_by_2-bit_xor y z hy hz)
        (let X = term 0 in
          let Y = term 1 in
          let TX = term 2 in
          let TY = term 3 in
          let TZ = term 4 in
          let S = term 5 in
          same_terms
            (x ∷ y ∷ gf_multiply_by_2 x ∷ gf_multiply_by_2 y ∷ gf_multiply_by_2 z ∷ tmp ∷ [])
            ((X ⊕ ((TX ⊕ TY) ⊕ S)) ⊕ (Y ⊕ ((TY ⊕ TZ) ⊕ S))) ((X ⊕ Y) ⊕ (TX ⊕ TZ)) refl)

  -- Its double.
  spread :
      gf_multiply_by_2 (bit_xor (bit_xor x y) (bit_xor (gf_multiply_by_2 x) (gf_multiply_by_2 z)))
      ≡ bit_xor
          (bit_xor (gf_multiply_by_2 x) (gf_multiply_by_2 y))
          (bit_xor (gf_multiply_by_2 (gf_multiply_by_2 x)) (gf_multiply_by_2 (gf_multiply_by_2 z)))
  spread =
      rw
        (
          gf_multiply_by_2-bit_xor (bit_xor x y) (bit_xor (gf_multiply_by_2 x) (gf_multiply_by_2 z))
              (xor_byte-lt x y hx hy)
              (xor_byte-lt _ _ (gf_multiply_by_2-lt x) (gf_multiply_by_2-lt z)),
          gf_multiply_by_2-bit_xor x y hx hy,
          gf_multiply_by_2-bit_xor (gf_multiply_by_2 x) (gf_multiply_by_2 z) (gf_multiply_by_2-lt x)
              (gf_multiply_by_2-lt z),
        )
        refl

  regroup :
      (u v : ℕ)
      → bit_xor
          (mixed x y tmp)
          (bit_xor (bit_xor (bit_xor (gf_multiply_by_2 x) (gf_multiply_by_2 y)) (bit_xor u v)) tmp)
        ≡ bit_xor x (bit_xor u v)
  unfolding mixed
  regroup u v = rw (gf_multiply_by_2-bit_xor x y hx hy) (
      let X = term 0 in
      let TX = term 1 in
      let TY = term 2 in
      let U = term 3 in
      let V = term 4 in
      let S = term 5 in
      same_terms (x ∷ gf_multiply_by_2 x ∷ gf_multiply_by_2 y ∷ u ∷ v ∷ tmp ∷ [])
        (X ⊕ ((TX ⊕ TY) ⊕ S) ⊕ (((TX ⊕ TY) ⊕ (U ⊕ V)) ⊕ S)) (X ⊕ (U ⊕ V)) refl)

  -- Two rounds of mixing.
  mixed-mixed :
      mixed (mixed x y tmp) (mixed y z tmp) tmp
      ≡ bit_xor x
          (bit_xor (gf_multiply_by_2 (gf_multiply_by_2 x)) (gf_multiply_by_2 (gf_multiply_by_2 z)))
  unfolding mixed
  mixed-mixed =
      ap (λ t. bit_xor (mixed x y tmp) (bit_xor (gf_multiply_by_2 t) tmp)) mixed-difference
      ∙ ap (λ t. bit_xor (mixed x y tmp) (bit_xor t tmp)) spread
      ∙ regroup _ _

-- What two rounds of mixing do to a byte, of which z is the opposite one.
abbrev twice : ℕ → ℕ → ℕ
twice x z =
    bit_xor x
      (bit_xor (gf_multiply_by_2 (gf_multiply_by_2 x)) (gf_multiply_by_2 (gf_multiply_by_2 z)))

fours : ℕ → ℕ
fours x = gf_multiply_by_2 (gf_multiply_by_2 x)

fours-bit_xor : (x y : ℕ) → x < 256 → y < 256 → fours (bit_xor x y) ≡ bit_xor (fours x) (fours y)
unfolding fours
fours-bit_xor x y hx hy =
    ap gf_multiply_by_2 (gf_multiply_by_2-bit_xor x y hx hy)
    ∙ gf_multiply_by_2-bit_xor _ _ (gf_multiply_by_2-lt x) (gf_multiply_by_2-lt y)

fours-lt : (x : ℕ) → fours x < 256
unfolding fours
fours-lt x = gf_multiply_by_2-lt _

-- Doing so twice changes nothing.
twice-twice : (x z : ℕ) → x < 256 → z < 256 → twice (twice x z) (twice z x) ≡ x
unfolding fours
twice-twice x z hx hz =
    let a = bit_xor (fours x) (fours z) in
    let b = bit_xor (fours z) (fours x) in
    let ha : a < 256 = xor_byte-lt _ _ (fours-lt x) (fours-lt z) in
    let hb : b < 256 = xor_byte-lt _ _ (fours-lt z) (fours-lt x) in
    ap (bit_xor (bit_xor x a)) (
      ap₂ bit_xor
        (fours-bit_xor x a hx ha
          ∙ ap (bit_xor (fours x)) (fours-bit_xor _ _ (fours-lt x) (fours-lt z)))
        (fours-bit_xor z b hz hb
          ∙ ap (bit_xor (fours z)) (fours-bit_xor _ _ (fours-lt z) (fours-lt x))))
    ∙ (let X = term 0 in
        let FX = term 1 in
        let FZ = term 2 in
        let GX = term 3 in
        let GZ = term 4 in
        same_terms (x ∷ fours x ∷ fours z ∷ fours (fours x) ∷ fours (fours z) ∷ [])
          (X ⊕ (FX ⊕ FZ) ⊕ ((FX ⊕ (GX ⊕ GZ)) ⊕ (FZ ⊕ (GZ ⊕ GX)))) X refl)

twice_column : Column → Column
twice_column a = record {
  b0 = twice a.b0 a.b2;
  b1 = twice a.b1 a.b3;
  b2 = twice a.b2 a.b0;
  b3 = twice a.b3 a.b1;
}

-- Two rounds of mixing of a column, with the sum of the mixed column put in.
mix_twice : (a : Column) → IsBytes a → mix_column (mix_column a) ≡ twice_column a
unfolding mix_column twice_column mixed
mix_twice a h =
    let sum = bit_xor (bit_xor (bit_xor a.b0 a.b1) a.b2) a.b3 in
    let same = mixed-sum a.b0 a.b1 a.b2 a.b3 sum h.lt0 h.lt1 h.lt2 h.lt3 in
    let f = λ (x y t : ℕ). mixed (mixed x y sum) (mixed y t sum) in
    λ i. record {
      b0 =
          (ap (f a.b0 a.b1 a.b2) same ∙ mixed-mixed a.b0 a.b1 a.b2 a.b3 sum h.lt0 h.lt1 h.lt2 h.lt3)
            i;
      b1 =
          (ap (f a.b1 a.b2 a.b3) same ∙ mixed-mixed a.b1 a.b2 a.b3 a.b0 sum h.lt1 h.lt2 h.lt3 h.lt0)
            i;
      b2 =
          (ap (f a.b2 a.b3 a.b0) same ∙ mixed-mixed a.b2 a.b3 a.b0 a.b1 sum h.lt2 h.lt3 h.lt0 h.lt1)
            i;
      b3 =
          (ap (f a.b3 a.b0 a.b1) same ∙ mixed-mixed a.b3 a.b0 a.b1 a.b2 sum h.lt3 h.lt0 h.lt1 h.lt2)
            i;
    }

pub mix_four_times :
    (a : Column) → IsBytes a → mix_column (mix_column (mix_column (mix_column a))) ≡ a
unfolding twice_column
mix_four_times a h =
    mix_twice (mix_column (mix_column a)) (mix_column-IsBytes (mix_column-IsBytes h))
    ∙ ap twice_column (mix_twice a h)
    ∙ λ i. record {
      b0 = twice-twice a.b0 a.b2 h.lt0 h.lt2 i;
      b1 = twice-twice a.b1 a.b3 h.lt1 h.lt3 i;
      b2 = twice-twice a.b2 a.b0 h.lt2 h.lt0 i;
      b3 = twice-twice a.b3 a.b1 h.lt3 h.lt1 i;
    }
