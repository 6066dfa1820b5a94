-- ===== src/Aes/Field.antt =====
-- mix_columns against the matrix of the standard, over the field GF(2^8) (ebpf/ebpf_aes128.c).
use udpgrm.Base.{
  ℕ, zero, suc, ◌+◌, ◌*◌, ◌/◌, ◌%◌, ◌^◌, ◌<◌, bit_xor, true, ◌==◌, if◌then◌else◌, ◌≡◌, refl, ◌∙◌,
  arith, [], ◌∷◌, all_below, all_below-lt, ◌&&◌,
}
use udpgrm.Base.Xor.{term, ◌⊕◌, same_terms}
use udpgrm.Aes.{Column, gf_multiply_by_2, mix_column}
use udpgrm.Aes.Byte.{gf_multiply_by_2-bit_xor}
use udpgrm.Aes.Columns.{IsBytes}

-- The product of two polynomials over GF(2), b's of degree below n.
unfoldable pub carryless : ℕ → ℕ → ℕ → ℕ
carryless zero a b = 0
carryless (suc n) a b = bit_xor (if b % 2 == 1 then a else 0) (carryless n (a * 2) (b / 2))

-- The remainder by x^8 + x^4 + x^3 + x + 1 of a polynomial of degree below 8 + n.
unfoldable pub reduce : ℕ → ℕ → ℕ
reduce zero x = x
reduce (suc n) x = reduce n (if x / 2 ^ (n + 8) % 2 == 1 then bit_xor x (0x11b * 2 ^ n) else x)

-- The product in GF(2^8).
unfoldable pub gf_mul : ℕ → ℕ → ℕ
unfolding carryless reduce
gf_mul a b = reduce 8 (carryless 8 a b)

-- The product with the circulant matrix whose first row is 2, 3, 1, 1.
unfoldable pub matrix_product : Column → Column
unfolding gf_mul
matrix_product a =
    let row = λ (x y z w : ℕ).
      bit_xor (bit_xor (bit_xor (gf_mul 2 x) (gf_mul 3 y)) (gf_mul 1 z)) (gf_mul 1 w) in
    record {
      b0 = row a.b0 a.b1 a.b2 a.b3;
      b1 = row a.b1 a.b2 a.b3 a.b0;
      b2 = row a.b2 a.b3 a.b0 a.b1;
      b3 = row a.b3 a.b0 a.b1 a.b2;
    }

product_table :
    all_below 256 (λ a.
      gf_mul 2 a == gf_multiply_by_2 a
      && (gf_mul 3 a == bit_xor (gf_multiply_by_2 a) a && (gf_mul 1 a == a)))
    ≡ true
unfolding all_below gf_mul gf_multiply_by_2
product_table = refl

gf_mul_two : (a : ℕ) → a < 256 → gf_mul 2 a ≡ gf_multiply_by_2 a
gf_mul_two a h = ground (arith, all_below-lt 256 _ a product_table h)

gf_mul_three : (a : ℕ) → a < 256 → gf_mul 3 a ≡ bit_xor (gf_multiply_by_2 a) a
gf_mul_three a h = ground (arith, all_below-lt 256 _ a product_table h)

gf_mul_one : (a : ℕ) → a < 256 → gf_mul 1 a ≡ a
gf_mul_one a h = ground (arith, all_below-lt 256 _ a product_table h)

-- The sum of a rotated column.
rotate_sum :
    (x y z w : ℕ) → bit_xor (bit_xor (bit_xor x y) z) w ≡ bit_xor (bit_xor (bit_xor y z) w) x
rotate_sum x y z w =
    let X = term 0 in
    let Y = term 1 in
    let Z = term 2 in
    let W = term 3 in same_terms (x ∷ y ∷ z ∷ w ∷ []) (X ⊕ Y ⊕ Z ⊕ W) (Y ⊕ Z ⊕ W ⊕ X) refl

-- One byte of the mixed column, for the sum `tmp` of all of them.
unfoldable pub mixed : ℕ → ℕ → ℕ → ℕ
mixed x y tmp = bit_xor x (bit_xor (gf_multiply_by_2 (bit_xor x y)) tmp)

module _ (x y z w tmp : ℕ) (hx : x < 256) (hy : y < 256) (hz : z < 256) (hw : w < 256) where
  -- It is one row of the product.
  mixed-row :
      tmp ≡ bit_xor (bit_xor (bit_xor x y) z) w
      → mixed x y tmp
        ≡ bit_xor (bit_xor (bit_xor (gf_mul 2 x) (gf_mul 3 y)) (gf_mul 1 z)) (gf_mul 1 w)
  unfolding mixed
  mixed-row e =
      rw
        (
          e,
          gf_multiply_by_2-bit_xor x y hx hy,
          gf_mul_two x hx,
          gf_mul_three y hy,
          gf_mul_one z hz,
          gf_mul_one w hw,
        )
        (let X = term 0 in
          let Y = term 1 in
          let Z = term 2 in
          let W = term 3 in
          let TX = term 4 in
          let TY = term 5 in
          same_terms (x ∷ y ∷ z ∷ w ∷ gf_multiply_by_2 x ∷ gf_multiply_by_2 y ∷ [])
            (X ⊕ ((TX ⊕ TY) ⊕ (X ⊕ Y ⊕ Z ⊕ W))) (TX ⊕ (TY ⊕ Y) ⊕ Z ⊕ W) refl)

-- The four rows of the product, for one column of bytes.
pub mix_column-eq-matrix_product : (a : Column) → IsBytes a → mix_column a ≡ matrix_product a
unfolding mix_column matrix_product mixed
mix_column-eq-matrix_product a h =
    let s1 = rotate_sum a.b0 a.b1 a.b2 a.b3 in
    let s2 = s1 ∙ rotate_sum a.b1 a.b2 a.b3 a.b0 in
    let s3 = s2 ∙ rotate_sum a.b2 a.b3 a.b0 a.b1 in
    λ i. record {
      b0 = mixed-row a.b0 a.b1 a.b2 a.b3 _ h.lt0 h.lt1 h.lt2 h.lt3 refl i;
      b1 = mixed-row a.b1 a.b2 a.b3 a.b0 _ h.lt1 h.lt2 h.lt3 h.lt0 s1 i;
      b2 = mixed-row a.b2 a.b3 a.b0 a.b1 _ h.lt2 h.lt3 h.lt0 h.lt1 s2 i;
      b3 = mixed-row a.b3 a.b0 a.b1 a.b2 _ h.lt3 h.lt0 h.lt1 h.lt2 s3 i;
    }
