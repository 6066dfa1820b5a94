-- ===== src/Base/Xor.antt =====
-- Equations between exclusive ors of the same terms, by reflection: an expression over numbered
-- terms counts each of them modulo 2, and two expressions with the same counts are equal.
use Prim.Native.Nat.{ℕ, zero, suc, bit_xor}
use mathlib.Core.Path.{◌≡◌, refl, sym, ap, ◌∙◌}
use mathlib.Core.Bool.{Bool, true, false}
use mathlib.Core.List.{List, [], ◌∷◌}
use udpgrm.Base.Bits.{bit_xor_comm, bit_xor_assoc, bit_xor_self, zero-bit_xor, bit_xor-zero}
use udpgrm.Base.Lists.{get_or}

infixl 60 ◌⊕◌
pub data Exp : Type 0 where
  term : ℕ → Exp
  ◌⊕◌ : Exp → Exp → Exp

-- The number that an expression stands for.
abbrev pub value : List ℕ → Exp → ℕ
value ts (term i) = get_or ts i 0
value ts (a ⊕ b) = bit_xor (value ts a) (value ts b)

abbrev flip : Bool → Bool → Bool
flip true true = false
flip true false = true
flip false b = b

-- Which terms occur an odd number of times.
abbrev single : ℕ → List Bool
single zero = true ∷ []
single (suc i) = false ∷ single i

abbrev add : List Bool → List Bool → List Bool
add [] qs = qs
add (p ∷ ps) [] = p ∷ ps
add (p ∷ ps) (q ∷ qs) = flip p q ∷ add ps qs

abbrev trim : List Bool → List Bool
trim [] = []
trim (true ∷ ps) = true ∷ trim ps
trim (false ∷ ps) = elim (trim ps) [ [] ↦ [] | q ∷ qs ↦ false ∷ q ∷ qs ]

abbrev counts : Exp → List Bool
counts (term i) = single i
counts (a ⊕ b) = add (counts a) (counts b)

abbrev chosen : Bool → ℕ → ℕ
chosen true t = t
chosen false t = 0

abbrev total : List ℕ → List Bool → ℕ
total ts [] = 0
total [] (p ∷ ps) = 0
total (t ∷ ts) (p ∷ ps) = bit_xor (chosen p t) (total ts ps)

total-single : (ts : List ℕ) (i : ℕ) → total ts (single i) ≡ get_or ts i 0
total-single [] zero = refl
total-single [] (suc i) = refl
total-single (t ∷ ts) zero = bit_xor-zero t
total-single (t ∷ ts) (suc i) = zero-bit_xor _ ∙ total-single ts i

chosen-flip : (p q : Bool) (t : ℕ) → chosen (flip p q) t ≡ bit_xor (chosen p t) (chosen q t)
chosen-flip true true t = sym (bit_xor_self t)
chosen-flip true false t = sym (bit_xor-zero t)
chosen-flip false q t = sym (zero-bit_xor _)

exchange : (a b c d : ℕ) → bit_xor (bit_xor a b) (bit_xor c d) ≡ bit_xor (bit_xor a c) (bit_xor b d)
exchange a b c d =
    bit_xor_assoc a b (bit_xor c d)
    ∙ ap (bit_xor a)
        (sym (bit_xor_assoc b c d) ∙ ap (λ t. bit_xor t d) (bit_xor_comm b c) ∙ bit_xor_assoc c b d)
    ∙ sym (bit_xor_assoc a c (bit_xor b d))

total-add :
    (ts : List ℕ) (ps qs : List Bool) → total ts (add ps qs) ≡ bit_xor (total ts ps) (total ts qs)
total-add ts [] qs = sym (zero-bit_xor _)
total-add [] (p ∷ ps) [] = refl
total-add (t ∷ ts) (p ∷ ps) [] = sym (bit_xor-zero _)
total-add [] (p ∷ ps) (q ∷ qs) = refl
total-add (t ∷ ts) (p ∷ ps) (q ∷ qs) =
    rw (chosen-flip p q t, total-add ts ps qs)
      (exchange (chosen p t) (chosen q t) (total ts ps) (total ts qs))

value-counts : (ts : List ℕ) (e : Exp) → value ts e ≡ total ts (counts e)
value-counts ts (term i) = sym (total-single ts i)
value-counts ts (a ⊕ b) =
    rw (value-counts ts a, value-counts ts b) (sym (total-add ts (counts a) (counts b)))

total-nil : (ps : List Bool) → total [] ps ≡ 0
total-nil [] = refl
total-nil (p ∷ ps) = refl

total-trim : (ts : List ℕ) (ps : List Bool) → total ts (trim ps) ≡ total ts ps
total-trim ts [] = refl
total-trim [] (p ∷ ps) = total-nil (trim (p ∷ ps))
total-trim (t ∷ ts) (true ∷ ps) = ap (bit_xor t) (total-trim ts ps)
total-trim (t ∷ ts) (false ∷ ps) = after (trim ps) (total-trim ts ps)
  where
    after :
        (rs : List Bool)
        → total ts rs ≡ total ts ps
        → total (t ∷ ts) (elim rs [ [] ↦ [] | q ∷ qs ↦ false ∷ q ∷ qs ]) ≡ bit_xor 0 (total ts ps)
    after [] e = e ∙ sym (zero-bit_xor _)
    after (q ∷ qs) e = ap (bit_xor 0) e

-- Two expressions in which the same terms occur an odd number of times are equal.
pub same_terms :
    (ts : List ℕ) (a b : Exp) → trim (counts a) ≡ trim (counts b) → value ts a ≡ value ts b
same_terms ts a b e =
    value-counts ts a
    ∙ sym (total-trim ts (counts a))
    ∙ ap (total ts) e
    ∙ total-trim ts (counts b)
    ∙ sym (value-counts ts b)
