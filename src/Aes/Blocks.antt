-- ===== src/Aes/Blocks.antt =====
-- Blocks of bytes through the steps of a round (ebpf/ebpf_aes128.c).
use udpgrm.Base.{ℕ, zero, suc, ◌+◌, ltb, ◌==◌, Bool-cases, inl, inr, get_or}
use udpgrm.Aes.{
  Block, AesCtx, no_word, mix_columns, sub_bytes, shift_rows, add_round_key, encrypt_rounds,
  encrypt,
}
use udpgrm.Aes.Columns.{IsBytes, xor_column-IsBytes, sub_column-IsBytes, mix_column-IsBytes}

pub record IsBlock (s : Block) : Type 0 where
  pub bytes0 : IsBytes s.c0
  pub bytes1 : IsBytes s.c1
  pub bytes2 : IsBytes s.c2
  pub bytes3 : IsBytes s.c3

-- Each word of the schedule is four bytes.
abbrev pub HasBytes : AesCtx → Type 0
HasBytes ctx = (i : ℕ) → IsBytes (get_or ctx i no_word)

pub add_round_key-IsBlock :
    (round : ℕ) {s : Block} (ctx : AesCtx)
    → HasBytes ctx
    → IsBlock s
    → IsBlock (add_round_key round s ctx)
unfolding add_round_key
add_round_key-IsBlock round {s} ctx w h = elim (Bool-cases (ltb 10 round)) [
  | inl e ↦ rw e h
  | inr e ↦ rw e (record {
    bytes0 = xor_column-IsBytes h.bytes0 (w _);
    bytes1 = xor_column-IsBytes h.bytes1 (w _);
    bytes2 = xor_column-IsBytes h.bytes2 (w _);
    bytes3 = xor_column-IsBytes h.bytes3 (w _);
  })
]

pub sub_bytes-IsBlock : {s : Block} → IsBlock s → IsBlock (sub_bytes s)
unfolding sub_bytes
sub_bytes-IsBlock h = record {
  bytes0 = sub_column-IsBytes h.bytes0;
  bytes1 = sub_column-IsBytes h.bytes1;
  bytes2 = sub_column-IsBytes h.bytes2;
  bytes3 = sub_column-IsBytes h.bytes3;
}

pub shift_rows-IsBlock : {s : Block} → IsBlock s → IsBlock (shift_rows s)
unfolding shift_rows
shift_rows-IsBlock h = record {
  bytes0 = record {
    lt0 = h.bytes0.lt0;
    lt1 = h.bytes1.lt1;
    lt2 = h.bytes2.lt2;
    lt3 = h.bytes3.lt3;
  };
  bytes1 = record {
    lt0 = h.bytes1.lt0;
    lt1 = h.bytes2.lt1;
    lt2 = h.bytes3.lt2;
    lt3 = h.bytes0.lt3;
  };
  bytes2 = record {
    lt0 = h.bytes2.lt0;
    lt1 = h.bytes3.lt1;
    lt2 = h.bytes0.lt2;
    lt3 = h.bytes1.lt3;
  };
  bytes3 = record {
    lt0 = h.bytes3.lt0;
    lt1 = h.bytes0.lt1;
    lt2 = h.bytes1.lt2;
    lt3 = h.bytes2.lt3;
  };
}

pub mix_columns-IsBlock : {s : Block} → IsBlock s → IsBlock (mix_columns s)
unfolding mix_columns
mix_columns-IsBlock h = record {
  bytes0 = mix_column-IsBytes h.bytes0;
  bytes1 = mix_column-IsBytes h.bytes1;
  bytes2 = mix_column-IsBytes h.bytes2;
  bytes3 = mix_column-IsBytes h.bytes3;
}

encrypt_rounds-IsBlock :
    (n round : ℕ) (ctx : AesCtx) (s : Block)
    → HasBytes ctx
    → IsBlock s
    → IsBlock (encrypt_rounds n round ctx s)
unfolding encrypt_rounds
encrypt_rounds-IsBlock zero round ctx s w h = h
encrypt_rounds-IsBlock (suc n) round ctx s w h =
    let shifted = shift_rows-IsBlock (sub_bytes-IsBlock h) in
    elim (Bool-cases (round == 10)) [
      | inl e ↦ rw e shifted
      | inr e ↦ rw e (
          encrypt_rounds-IsBlock n (round + 1) ctx _ w
            (add_round_key-IsBlock round ctx w (mix_columns-IsBlock shifted)))
    ]

-- The encrypted block is a block of bytes.
pub encrypt-IsBlock :
    (ctx : AesCtx) (s : Block) → HasBytes ctx → IsBlock s → IsBlock (encrypt ctx s)
unfolding encrypt
encrypt-IsBlock ctx s w h =
    add_round_key-IsBlock 10 ctx w
      (encrypt_rounds-IsBlock 10 1 ctx _ w (add_round_key-IsBlock 0 ctx w h))
