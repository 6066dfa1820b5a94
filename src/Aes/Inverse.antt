-- ===== src/Aes/Inverse.antt =====
-- AES_ECB_encrypt as a permutation of the blocks (ebpf/ebpf_aes128.c), by the inverse of each of its
-- steps, and the end of its loop.
use udpgrm.Base.{
  ℕ, zero, suc, ◌+◌, ◌≤◌, ◌<◌, bit_xor_cancel, ltb, ◌==◌, if◌then◌else◌, Bool-cases, inl, inr, ◌≡◌,
  refl, ap, ◌∙◌, arith,
}
use udpgrm.Aes.{
  Column, Block, AesCtx, xor_column, sub_column, mix_columns, sub_bytes, shift_rows, add_round_key,
  encrypt_rounds, encrypt,
}
use udpgrm.Aes.Byte.{inv_sub_byte, inv_sub_byte-sub_byte}
use udpgrm.Aes.Columns.{IsBytes}
use udpgrm.Aes.Mixing.{mix_four_times}
use udpgrm.Aes.Blocks.{
  IsBlock, HasBytes, add_round_key-IsBlock, sub_bytes-IsBlock, shift_rows-IsBlock,
  mix_columns-IsBlock,
}

-- The inverses of the steps.
inv_sub_column : Column → Column
inv_sub_column a = record {
  b0 = inv_sub_byte a.b0;
  b1 = inv_sub_byte a.b1;
  b2 = inv_sub_byte a.b2;
  b3 = inv_sub_byte a.b3;
}

inv_sub_bytes : Block → Block
unfolding inv_sub_column
inv_sub_bytes s = record {
  c0 = inv_sub_column s.c0;
  c1 = inv_sub_column s.c1;
  c2 = inv_sub_column s.c2;
  c3 = inv_sub_column s.c3;
}

inv_shift_rows : Block → Block
inv_shift_rows s = record {
  c0 = record { b0 = s.c0.b0; b1 = s.c3.b1; b2 = s.c2.b2; b3 = s.c1.b3 };
  c1 = record { b0 = s.c1.b0; b1 = s.c0.b1; b2 = s.c3.b2; b3 = s.c2.b3 };
  c2 = record { b0 = s.c2.b0; b1 = s.c1.b1; b2 = s.c0.b2; b3 = s.c3.b3 };
  c3 = record { b0 = s.c3.b0; b1 = s.c2.b1; b2 = s.c1.b2; b3 = s.c0.b3 };
}

inv_mix_columns : Block → Block
inv_mix_columns s = mix_columns (mix_columns (mix_columns s))

-- The rounds undone, the last one first.
decrypt_rounds : ℕ → ℕ → AesCtx → Block → Block
unfolding inv_sub_bytes inv_shift_rows inv_mix_columns
decrypt_rounds zero round ctx s = s
decrypt_rounds (suc n) round ctx s =
    let later = decrypt_rounds n (round + 1) ctx s in
    let mixed = inv_mix_columns (add_round_key round later ctx) in
    inv_sub_bytes (inv_shift_rows (if round == 10 then s else mixed))

pub decrypt : AesCtx → Block → Block
unfolding decrypt_rounds
decrypt ctx s = add_round_key 0 (decrypt_rounds 10 1 ctx (add_round_key 10 s ctx)) ctx

xor_column_cancel : (a b : Column) → xor_column (xor_column a b) b ≡ a
unfolding xor_column
xor_column_cancel a b = λ i. record {
  b0 = bit_xor_cancel a.b0 b.b0 i;
  b1 = bit_xor_cancel a.b1 b.b1 i;
  b2 = bit_xor_cancel a.b2 b.b2 i;
  b3 = bit_xor_cancel a.b3 b.b3 i;
}

-- Adding a round key twice changes nothing.
add_round_key_twice :
    (round : ℕ) (s : Block) (ctx : AesCtx) → add_round_key round (add_round_key round s ctx) ctx ≡ s
unfolding add_round_key
add_round_key_twice round s ctx = elim (Bool-cases (ltb 10 round)) [
  | inl e ↦ simp e
  | inr e ↦ simp (e, xor_column_cancel)
]

inv_sub_column-sub_column : (a : Column) → IsBytes a → inv_sub_column (sub_column a) ≡ a
unfolding inv_sub_column sub_column
inv_sub_column-sub_column a h = λ i. record {
  b0 = inv_sub_byte-sub_byte a.b0 h.lt0 i;
  b1 = inv_sub_byte-sub_byte a.b1 h.lt1 i;
  b2 = inv_sub_byte-sub_byte a.b2 h.lt2 i;
  b3 = inv_sub_byte-sub_byte a.b3 h.lt3 i;
}

inv_sub_bytes-sub_bytes : (s : Block) → IsBlock s → inv_sub_bytes (sub_bytes s) ≡ s
unfolding inv_sub_bytes sub_bytes
inv_sub_bytes-sub_bytes s h = λ i. record {
  c0 = inv_sub_column-sub_column s.c0 h.bytes0 i;
  c1 = inv_sub_column-sub_column s.c1 h.bytes1 i;
  c2 = inv_sub_column-sub_column s.c2 h.bytes2 i;
  c3 = inv_sub_column-sub_column s.c3 h.bytes3 i;
}

inv_shift_rows-shift_rows : (s : Block) → inv_shift_rows (shift_rows s) ≡ s
unfolding inv_shift_rows shift_rows
inv_shift_rows-shift_rows s = refl

inv_mix_columns-mix_columns : (s : Block) → IsBlock s → inv_mix_columns (mix_columns s) ≡ s
unfolding inv_mix_columns mix_columns
inv_mix_columns-mix_columns s h = λ i. record {
  c0 = mix_four_times s.c0 h.bytes0 i;
  c1 = mix_four_times s.c1 h.bytes1 i;
  c2 = mix_four_times s.c2 h.bytes2 i;
  c3 = mix_four_times s.c3 h.bytes3 i;
}

inv_round : (s : Block) → IsBlock s → inv_sub_bytes (inv_shift_rows (shift_rows (sub_bytes s))) ≡ s
inv_round s h =
    ap inv_sub_bytes (inv_shift_rows-shift_rows (sub_bytes s)) ∙ inv_sub_bytes-sub_bytes s h

decrypt_rounds-encrypt_rounds :
    (n round : ℕ) (ctx : AesCtx) (s : Block)
    → HasBytes ctx
    → IsBlock s
    → decrypt_rounds n round ctx (encrypt_rounds n round ctx s) ≡ s
unfolding decrypt_rounds encrypt_rounds
decrypt_rounds-encrypt_rounds zero round ctx s w h = refl
decrypt_rounds-encrypt_rounds (suc n) round ctx s w h =
    let shifted = shift_rows-IsBlock (sub_bytes-IsBlock h) in
    let mixed = mix_columns-IsBlock shifted in
    let next = mix_columns (shift_rows (sub_bytes s)) in
    elim (Bool-cases (round == 10)) [
      | inl e ↦ simp e (inv_round s h)
      | inr e ↦ simp e (
          ap (λ t. inv_sub_bytes (inv_shift_rows (inv_mix_columns (add_round_key round t ctx))))
            (decrypt_rounds-encrypt_rounds n (round + 1) ctx (add_round_key round next ctx) w
              (add_round_key-IsBlock round ctx w mixed))
          ∙ ap (λ t. inv_sub_bytes (inv_shift_rows (inv_mix_columns t)))
              (add_round_key_twice round next ctx)
          ∙ ap (λ t. inv_sub_bytes (inv_shift_rows t)) (inv_mix_columns-mix_columns _ shifted)
          ∙ inv_round s h)
    ]

-- Decryption by the inverse steps gives the block back, under every key schedule.
pub decrypt-encrypt :
    (ctx : AesCtx) (s : Block) → HasBytes ctx → IsBlock s → decrypt ctx (encrypt ctx s) ≡ s
unfolding decrypt encrypt
decrypt-encrypt ctx s w h =
    let start = add_round_key 0 s ctx in
    ap (λ t. add_round_key 0 (decrypt_rounds 10 1 ctx t) ctx)
      (add_round_key_twice 10 (encrypt_rounds 10 1 ctx start) ctx)
    ∙ ap (λ t. add_round_key 0 t ctx)
        (decrypt_rounds-encrypt_rounds 10 1 ctx start w (add_round_key-IsBlock 0 ctx w h))
    ∙ add_round_key_twice 0 s ctx

-- The loop has no bound of its own: from round 1 on it ends within ten rounds, by its test.
pub encrypt_rounds_ends :
    (n m round : ℕ) (ctx : AesCtx) (s : Block)
    → round ≤ 10
    → 10 < n + round
    → 10 < m + round
    → encrypt_rounds n round ctx s ≡ encrypt_rounds m round ctx s
unfolding encrypt_rounds
encrypt_rounds_ends zero m round ctx s r h k = absurd (omega arith)
encrypt_rounds_ends (suc n) zero round ctx s r h k = absurd (omega arith)
encrypt_rounds_ends (suc n) (suc m) round ctx s r h k = elim (Bool-cases (round == 10)) [
  | inl e ↦ rw e refl
  | inr e ↦
      rw e (encrypt_rounds_ends n m (round + 1) ctx _ (ground arith) (omega arith) (omega arith))
]
