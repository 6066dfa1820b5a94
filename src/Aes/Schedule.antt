-- ===== src/Aes/Schedule.antt =====
-- AES_key_expand (ebpf/ebpf_aes128.c): the 44 words of the schedule and the rule that they obey.
use udpgrm.Base.{
  ℕ, zero, suc, ◌+◌, ◌-◌, ◌/◌, ◌%◌, ◌≤◌, ◌<◌, bit_xor, bit_xor-lt, bit_xor-zero, subst, ==_iff,
  all_below, all_below-lt, true, ltb, ◌==◌, if◌then◌else◌, if_cases, Bool-cases, inl, inr, ◌≡◌,
  refl, sym, ap, ◌∙◌, arith, [], ◌∷◌, ◌++◌, length, get_or, length-append, get_or-append,
  get_or-append_last, get_or_past,
}
use udpgrm.Aes.{
  Column, Block, AesCtx, no_word, xor_column, sub_column, round_constants, key_core, key_word,
  key_words, key_expand, encrypt,
}
use udpgrm.Aes.Columns.{IsBytes, xor_column-IsBytes, sub_column-IsBytes}
use udpgrm.Aes.Field.{gf_mul}
use udpgrm.Aes.Blocks.{IsBlock, HasBytes, encrypt-IsBlock}
use udpgrm.Aes.Inverse.{decrypt, decrypt-encrypt}

-- A word is made from two words before it.
key_word_same :
    (j : ℕ) (a b : AesCtx)
    → get_or a (j - 1) no_word ≡ get_or b (j - 1) no_word
    → get_or a (j - 4) no_word ≡ get_or b (j - 4) no_word
    → key_word j a ≡ key_word j b
unfolding key_word
key_word_same j a b p q = rw (p, q) refl

-- The loop appends n words, leaves those before them, and each obeys the rule in the final list.
record Extends (n : ℕ) (ctx r : AesCtx) : Type 0 where
  sized : length r ≡ length ctx + n
  kept : (j : ℕ) → j < length ctx → get_or r j no_word ≡ get_or ctx j no_word
  ruled : (j : ℕ) → length ctx ≤ j → j < length ctx + n → get_or r j no_word ≡ key_word j r

key_words-Extends :
    (n i : ℕ) (ctx : AesCtx) → i ≡ length ctx → 4 ≤ i → Extends n ctx (key_words n i ctx)
unfolding key_words
key_words-Extends zero i ctx e h = record {
  sized = omega arith;
  kept = λ j k. refl;
  ruled = λ j k l. absurd (omega arith);
}
key_words-Extends (suc n) i ctx e h =
    let word = key_word i ctx in
    let ctx' = ctx ++ (word ∷ []) in
    let r = key_words n (i + 1) ctx' in
    let len : length ctx' ≡ length ctx + 1 = length-append ctx (word ∷ []) in
    let ih = key_words-Extends n (i + 1) ctx' (omega (arith, len)) (omega arith) in
    let old : (j : ℕ) → j < length ctx → get_or r j no_word ≡ get_or ctx j no_word =
      λ j k. ih.kept j (omega (arith, len)) ∙ get_or-append ctx (word ∷ []) j no_word k in
    let here : get_or r i no_word ≡ key_word i r =
      ih.kept i (omega (arith, len))
      ∙ ap (λ t. get_or ctx' t no_word) e
      ∙ get_or-append_last ctx word no_word
      ∙ sym (key_word_same i r ctx (old (i - 1) (omega arith)) (old (i - 4) (omega arith))) in
    record {
      sized = omega (arith, len, ih.sized);
      kept = old;
      ruled = λ j k l. elim (Bool-cases (j == i)) [
        | inl same ↦ subst (λ t. get_or r t no_word ≡ key_word t r) (ground arith) here
        | inr later ↦ ih.ruled j (ground (arith, len)) (ground (arith, len))
      ];
    }

-- The constant of round r in GF(2^8): each one is the double of the one before.
pub rcon : ℕ → ℕ
rcon zero = 0x8d
rcon (suc r) = gf_mul 2 (rcon r)

rcon_table : all_below 11 (λ r. get_or round_constants r 0 == rcon r) ≡ true
unfolding all_below rcon gf_mul
rcon_table = refl

pub rot_word : Column → Column
rot_word a = record { b0 = a.b1; b1 = a.b2; b2 = a.b3; b3 = a.b0 }

-- The rule of the standard for word j of the schedule.
pub standard_word : ℕ → AesCtx → Column
unfolding rcon rot_word
standard_word j r =
    let before = get_or r (j - 1) no_word in
    xor_column (get_or r (j - 4) no_word) (
      if j % 4 == 0
      then xor_column (sub_column (rot_word before))
          (record { b0 = rcon (j / 4); b1 = 0; b2 = 0; b3 = 0 })
      else before)

key_core-eq-rcon :
    (r : ℕ) (a : Column)
    → r < 11
    → key_core r a
      ≡ xor_column (sub_column (rot_word a)) (record { b0 = rcon r; b1 = 0; b2 = 0; b3 = 0 })
unfolding key_core xor_column rot_word
key_core-eq-rcon r a h =
    let s = sub_column (rot_word a) in
    let e : get_or round_constants r 0 ≡ rcon r =
      (==_iff _ _).0 (all_below-lt 11 (λ k. get_or round_constants k 0 == rcon k) r rcon_table h) in
    λ i. record {
      b0 = bit_xor s.b0 (e i);
      b1 = sym (bit_xor-zero s.b1) i;
      b2 = sym (bit_xor-zero s.b2) i;
      b3 = sym (bit_xor-zero s.b3) i;
    }

key_word-eq-standard_word : (j : ℕ) (r : AesCtx) → j < 44 → key_word j r ≡ standard_word j r
unfolding key_word standard_word
key_word-eq-standard_word j r h =
    rw (key_core-eq-rcon (j / 4) (get_or r (j - 1) no_word) (omega arith)) refl

-- What AES_key_expand promises of its 44 words.
pub record IsSchedule (key : Block) (r : AesCtx) : Type 0 where
  pub sized : length r ≡ 44
  pub word0 : get_or r 0 no_word ≡ key.c0
  pub word1 : get_or r 1 no_word ≡ key.c1
  pub word2 : get_or r 2 no_word ≡ key.c2
  pub word3 : get_or r 3 no_word ≡ key.c3
  pub ruled : (j : ℕ) → 4 ≤ j → j < 44 → get_or r j no_word ≡ standard_word j r

-- The words are the key and then, one by one, what the standard's rule makes of them.
pub key_expand-IsSchedule : (key : Block) → IsSchedule key (key_expand key)
unfolding key_expand
key_expand-IsSchedule key =
    let ctx = key.c0 ∷ key.c1 ∷ key.c2 ∷ key.c3 ∷ [] in
    let x = key_words-Extends 40 4 ctx refl (omega arith) in
    record {
      sized = x.sized;
      word0 = x.kept 0 (omega arith);
      word1 = x.kept 1 (omega arith);
      word2 = x.kept 2 (omega arith);
      word3 = x.kept 3 (omega arith);
      ruled = λ j h k. x.ruled j h k ∙ key_word-eq-standard_word j (key_words 40 4 ctx) k;
    }

constants_table : all_below 11 (λ r. ltb (get_or round_constants r 0) 256) ≡ true
unfolding all_below
constants_table = refl

round_constants-lt : (r : ℕ) → get_or round_constants r 0 < 256
round_constants-lt r = elim (Bool-cases (ltb r 11)) [
  | inl h ↦ ground (
    arith,
    all_below-lt 11 (λ k. ltb (get_or round_constants k 0) 256) r constants_table (ground arith),
  )
  | inr h ↦ omega (arith, get_or_past round_constants r 0 (ground arith))
]

key_core-IsBytes : (r : ℕ) {a : Column} → IsBytes a → IsBytes (key_core r a)
unfolding key_core
key_core-IsBytes r {a} h =
    let rotated : Column = record { b0 = a.b1; b1 = a.b2; b2 = a.b3; b3 = a.b0 } in
    let s =
      sub_column-IsBytes {a = rotated}
        (record { lt0 = h.lt1; lt1 = h.lt2; lt2 = h.lt3; lt3 = h.lt0 }) in
    record {
      lt0 = bit_xor-lt 8 _ _ s.lt0 (round_constants-lt r);
      lt1 = s.lt1;
      lt2 = s.lt2;
      lt3 = s.lt3;
    }

key_word-IsBytes : (i : ℕ) (ctx : AesCtx) → HasBytes ctx → IsBytes (key_word i ctx)
unfolding key_word
key_word-IsBytes i ctx w =
    xor_column-IsBytes (w (i - 4)) (
      if_cases IsBytes (i % 4 == 0) _ _ (λ e. key_core-IsBytes (i / 4) (w (i - 1)))
        (λ e. w (i - 1)))

no_word-IsBytes : IsBytes no_word
no_word-IsBytes = omega arith

HasBytes-append : (xs : AesCtx) (v : Column) → HasBytes xs → IsBytes v → HasBytes (xs ++ (v ∷ []))
HasBytes-append [] v w h zero = h
HasBytes-append [] v w h (suc i) = no_word-IsBytes
HasBytes-append (x ∷ xs) v w h zero = w 0
HasBytes-append (x ∷ xs) v w h (suc i) = HasBytes-append xs v (λ k. w (suc k)) h i

key_words-HasBytes : (n i : ℕ) (ctx : AesCtx) → HasBytes ctx → HasBytes (key_words n i ctx)
unfolding key_words
key_words-HasBytes zero i ctx w = w
key_words-HasBytes (suc n) i ctx w =
    key_words-HasBytes n (i + 1) _ (HasBytes-append ctx _ w (key_word-IsBytes i ctx w))

first_words : (key : Block) → IsBlock key → HasBytes (key.c0 ∷ key.c1 ∷ key.c2 ∷ key.c3 ∷ [])
first_words key h zero = h.bytes0
first_words key h (suc zero) = h.bytes1
first_words key h (suc (suc zero)) = h.bytes2
first_words key h (suc (suc (suc zero))) = h.bytes3
first_words key h (suc (suc (suc (suc i)))) = no_word-IsBytes

pub key_expand-HasBytes : (key : Block) → IsBlock key → HasBytes (key_expand key)
unfolding key_expand
key_expand-HasBytes key h =
    key_words-HasBytes 40 4 (key.c0 ∷ key.c1 ∷ key.c2 ∷ key.c3 ∷ []) (first_words key h)

-- Every block is had back from what AES_ECB_encrypt makes of it under the schedule of any key, and
-- what it makes of a block of bytes is one.
pub aes_permutes :
    (key s : Block)
    → IsBlock key
    → IsBlock s
    → (decrypt (key_expand key) (encrypt (key_expand key) s) ≡ s)
      × IsBlock (encrypt (key_expand key) s)
aes_permutes key s k h =
    let w = key_expand-HasBytes key k in
    (decrypt-encrypt (key_expand key) s w h, encrypt-IsBlock (key_expand key) s w h)
