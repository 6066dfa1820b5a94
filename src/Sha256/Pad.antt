-- ===== src/Sha256/Pad.antt =====
-- SHA-256 of a message of any length, by blocks of its padded form, over the compression of the code
-- (ebpf/ebpf_sha256.c), and what sha256_final writes for the last block.
use udpgrm.Base.{
  ℕ, zero, suc, ◌+◌, ◌-◌, ◌*◌, ◌/◌, ◌%◌, ◌≤◌, ◌≡◌, refl, sym, ap, ◌∙◌, arith, List, [], ◌∷◌, ◌++◌,
  length, length-append, set, take, drop, replicate, length-replicate, u64,
}
use mathlib.Core.List.{append_assoc}
use udpgrm.Sha256.{Sha256Buff, sha256_init, sha256_calc_chunk, sha256_read, be64}

-- The message, a 1 bit, zeros up to a multiple of the block, and the number of bits.
unfoldable pub pad : List ℕ → List ℕ
pad m = m ++ (0x80 ∷ (replicate ((119 - length m % 64) % 64) 0 ++ be64 (u64 (length m * 8))))

-- The compression of n blocks.
unfoldable pub compress : ℕ → Sha256Buff → List ℕ → Sha256Buff
compress zero h bytes = h
compress (suc n) h bytes = compress n (sha256_calc_chunk h (take 64 bytes)) (drop 64 bytes)

unfoldable pub sha256 : List ℕ → List ℕ
unfolding pad compress
sha256 m = sha256_read (compress (length (pad m) / 64) sha256_init (pad m))

module _ {ℓ} {A : Type ℓ} where
  take-append : (n : ℕ) (xs ys : List A) → n ≡ length xs → take n (xs ++ ys) ≡ xs
  take-append zero [] ys e = refl
  take-append zero (x ∷ xs) ys e = absurd (omega arith)
  take-append (suc n) [] ys e = absurd (omega arith)
  take-append (suc n) (x ∷ xs) ys e = ap (λ t. x ∷ t) (take-append n xs ys (omega arith))

  drop-append : (n : ℕ) (xs ys : List A) → n ≡ length xs → drop n (xs ++ ys) ≡ ys
  drop-append zero [] ys e = refl
  drop-append zero (x ∷ xs) ys e = absurd (omega arith)
  drop-append (suc n) [] ys e = absurd (omega arith)
  drop-append (suc n) (x ∷ xs) ys e = drop-append n xs ys (omega arith)

  pub take_all : (n : ℕ) (xs : List A) → n ≡ length xs → take n xs ≡ xs
  take_all zero [] e = refl
  take_all zero (x ∷ xs) e = absurd (omega arith)
  take_all (suc n) [] e = refl
  take_all (suc n) (x ∷ xs) e = ap (λ t. x ∷ t) (take_all n xs (omega arith))

  take-replicate : (j k : ℕ) (a : A) → j ≤ k → take j (replicate k a) ≡ replicate j a
  take-replicate zero k a h = refl
  take-replicate (suc j) zero a h = absurd (omega arith)
  take-replicate (suc j) (suc k) a h = ap (λ t. a ∷ t) (take-replicate j k a (omega arith))

  -- A write to the first element behind m.
  set_behind :
      (m : List A) (n : ℕ) (x a : A)
      → set (m ++ replicate (suc n) a) (length m) x ≡ m ++ (x ∷ replicate n a)
  set_behind [] n x a = refl
  set_behind (y ∷ m) n x a = ap (λ t. y ∷ t) (set_behind m n x a)

  take_behind :
      (n : ℕ) (m : List A) (j k : ℕ) (x a : A)
      → n ≡ length m + suc j
      → j ≤ k
      → take n (m ++ (x ∷ replicate k a)) ≡ m ++ (x ∷ replicate j a)
  take_behind zero m j k x a e h = absurd (omega arith)
  take_behind (suc n) [] j k x a e h =
      rw (let same : n ≡ j = omega arith in same) (ap (λ t. x ∷ t) (take-replicate j k a h))
  take_behind (suc n) (y ∷ m) j k x a e h =
      ap (λ t. y ∷ t) (take_behind n m j k x a (omega arith) h)

-- The block that sha256_final writes is the last block of a padded message of `total` bytes.
pub last_block :
    (m : List ℕ) (total : ℕ)
    → length m ≤ 55
    → take 56 (set (m ++ replicate (64 - length m) 0) (length m) 0x80) ++ be64 (u64 (total * 8))
      ≡ m ++ (0x80 ∷ (replicate (55 - length m) 0 ++ be64 (u64 (total * 8))))
last_block m total h =
    let e : 64 - length m ≡ suc (63 - length m) = omega arith in
    ap (λ t. take 56 (set (m ++ replicate t 0) (length m) 0x80) ++ be64 (u64 (total * 8))) e
    ∙ ap (λ t. take 56 t ++ be64 (u64 (total * 8))) (set_behind m (63 - length m) 0x80 0)
    ∙ ap (λ t. t ++ be64 (u64 (total * 8)))
        (take_behind 56 m (55 - length m) (63 - length m) 0x80 0 (omega arith) (omega arith))
    ∙ append_assoc m _ _

-- The padded form of a block followed by a short message: the block, and one more.
pub pad_two :
    (key m : List ℕ)
    → length key ≡ 64
    → length m ≤ 55
    → pad (key ++ m)
      ≡ key ++ (m ++ (0x80 ∷ (replicate (55 - length m) 0 ++ be64 (u64 ((length m + 64) * 8)))))
unfolding pad
pad_two key m k h =
    let len : length (key ++ m) ≡ length m + 64 = omega (arith, length-append key m) in
    let zeros : (119 - length (key ++ m) % 64) % 64 ≡ 55 - length m = omega (arith, len) in
    rw (zeros, len) (append_assoc key m _)

pub compress_two :
    (key rest : List ℕ) (h : Sha256Buff)
    → length key ≡ 64
    → length rest ≡ 64
    → compress 2 h (key ++ rest) ≡ sha256_calc_chunk (sha256_calc_chunk h key) rest
unfolding compress
compress_two key rest h e f =
    rw (take-append 64 key rest (sym e), drop-append 64 key rest (sym e), take_all 64 rest (sym f))
      refl

-- The two-block case of SHA-256.
pub sha256_two :
    (key m : List ℕ)
    → length key ≡ 64
    → length m ≤ 55
    → sha256 (key ++ m)
      ≡ sha256_read (
          sha256_calc_chunk
            (sha256_calc_chunk sha256_init key)
            (m ++ (0x80 ∷ (replicate (55 - length m) 0 ++ be64 (u64 ((length m + 64) * 8))))))
unfolding sha256
sha256_two key m k h =
    let rest = m ++ (0x80 ∷ (replicate (55 - length m) 0 ++ be64 (u64 ((length m + 64) * 8)))) in
    let len : length rest ≡ 64 = omega (
      arith,
      length-append m (0x80 ∷ (replicate (55 - length m) 0 ++ be64 (u64 ((length m + 64) * 8)))),
      length-append (replicate (55 - length m) 0) (be64 (u64 ((length m + 64) * 8))),
      length-replicate {A = ℕ} (55 - length m) 0,
    ) in
    let blocks : length (key ++ rest) / 64 ≡ 2 = omega (arith, length-append key rest) in
    ap (λ p. sha256_read (compress (length p / 64) sha256_init p)) (pad_two key m k h)
    ∙ ap (λ n. sha256_read (compress n sha256_init (key ++ rest))) blocks
    ∙ ap sha256_read (compress_two key rest sha256_init k len)
