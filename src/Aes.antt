-- ===== src/Aes.antt =====
-- AES-128 on one block (ebpf/ebpf_aes128.c): the tables, AES_key_expand, the four steps of a round
-- and AES_ECB_encrypt. The calls with a null pointer are left out.
pub mod Byte
pub mod Columns
pub mod Field
pub mod Mixing
pub mod Blocks
pub mod Inverse
pub mod Schedule
use udpgrm.Base.{
  ℕ, zero, suc, ◌+◌, ◌-◌, ◌*◌, ◌/◌, ◌%◌, ◌^◌, bit_xor, List, [], ◌∷◌, ◌++◌, ltb, ◌==◌,
  if◌then◌else◌, get_or, u8, ◌>>>◌, ◌<<<◌,
}

-- aes_sbox
unfoldable pub aes_sbox : List ℕ
aes_sbox =
    0x63 ∷ 0x7c ∷ 0x77 ∷ 0x7b ∷ 0xf2 ∷ 0x6b ∷ 0x6f ∷ 0xc5 ∷ 0x30 ∷ 0x01 ∷ 0x67 ∷ 0x2b ∷ 0xfe ∷ 0xd7
    ∷ 0xab ∷ 0x76 ∷ 0xca ∷ 0x82 ∷ 0xc9 ∷ 0x7d ∷ 0xfa ∷ 0x59 ∷ 0x47 ∷ 0xf0 ∷ 0xad ∷ 0xd4 ∷ 0xa2
    ∷ 0xaf ∷ 0x9c ∷ 0xa4 ∷ 0x72 ∷ 0xc0 ∷ 0xb7 ∷ 0xfd ∷ 0x93 ∷ 0x26 ∷ 0x36 ∷ 0x3f ∷ 0xf7 ∷ 0xcc
    ∷ 0x34 ∷ 0xa5 ∷ 0xe5 ∷ 0xf1 ∷ 0x71 ∷ 0xd8 ∷ 0x31 ∷ 0x15 ∷ 0x04 ∷ 0xc7 ∷ 0x23 ∷ 0xc3 ∷ 0x18
    ∷ 0x96 ∷ 0x05 ∷ 0x9a ∷ 0x07 ∷ 0x12 ∷ 0x80 ∷ 0xe2 ∷ 0xeb ∷ 0x27 ∷ 0xb2 ∷ 0x75 ∷ 0x09 ∷ 0x83
    ∷ 0x2c ∷ 0x1a ∷ 0x1b ∷ 0x6e ∷ 0x5a ∷ 0xa0 ∷ 0x52 ∷ 0x3b ∷ 0xd6 ∷ 0xb3 ∷ 0x29 ∷ 0xe3 ∷ 0x2f
    ∷ 0x84 ∷ 0x53 ∷ 0xd1 ∷ 0x00 ∷ 0xed ∷ 0x20 ∷ 0xfc ∷ 0xb1 ∷ 0x5b ∷ 0x6a ∷ 0xcb ∷ 0xbe ∷ 0x39
    ∷ 0x4a ∷ 0x4c ∷ 0x58 ∷ 0xcf ∷ 0xd0 ∷ 0xef ∷ 0xaa ∷ 0xfb ∷ 0x43 ∷ 0x4d ∷ 0x33 ∷ 0x85 ∷ 0x45
    ∷ 0xf9 ∷ 0x02 ∷ 0x7f ∷ 0x50 ∷ 0x3c ∷ 0x9f ∷ 0xa8 ∷ 0x51 ∷ 0xa3 ∷ 0x40 ∷ 0x8f ∷ 0x92 ∷ 0x9d
    ∷ 0x38 ∷ 0xf5 ∷ 0xbc ∷ 0xb6 ∷ 0xda ∷ 0x21 ∷ 0x10 ∷ 0xff ∷ 0xf3 ∷ 0xd2 ∷ 0xcd ∷ 0x0c ∷ 0x13
    ∷ 0xec ∷ 0x5f ∷ 0x97 ∷ 0x44 ∷ 0x17 ∷ 0xc4 ∷ 0xa7 ∷ 0x7e ∷ 0x3d ∷ 0x64 ∷ 0x5d ∷ 0x19 ∷ 0x73
    ∷ 0x60 ∷ 0x81 ∷ 0x4f ∷ 0xdc ∷ 0x22 ∷ 0x2a ∷ 0x90 ∷ 0x88 ∷ 0x46 ∷ 0xee ∷ 0xb8 ∷ 0x14 ∷ 0xde
    ∷ 0x5e ∷ 0x0b ∷ 0xdb ∷ 0xe0 ∷ 0x32 ∷ 0x3a ∷ 0x0a ∷ 0x49 ∷ 0x06 ∷ 0x24 ∷ 0x5c ∷ 0xc2 ∷ 0xd3
    ∷ 0xac ∷ 0x62 ∷ 0x91 ∷ 0x95 ∷ 0xe4 ∷ 0x79 ∷ 0xe7 ∷ 0xc8 ∷ 0x37 ∷ 0x6d ∷ 0x8d ∷ 0xd5 ∷ 0x4e
    ∷ 0xa9 ∷ 0x6c ∷ 0x56 ∷ 0xf4 ∷ 0xea ∷ 0x65 ∷ 0x7a ∷ 0xae ∷ 0x08 ∷ 0xba ∷ 0x78 ∷ 0x25 ∷ 0x2e
    ∷ 0x1c ∷ 0xa6 ∷ 0xb4 ∷ 0xc6 ∷ 0xe8 ∷ 0xdd ∷ 0x74 ∷ 0x1f ∷ 0x4b ∷ 0xbd ∷ 0x8b ∷ 0x8a ∷ 0x70
    ∷ 0x3e ∷ 0xb5 ∷ 0x66 ∷ 0x48 ∷ 0x03 ∷ 0xf6 ∷ 0x0e ∷ 0x61 ∷ 0x35 ∷ 0x57 ∷ 0xb9 ∷ 0x86 ∷ 0xc1
    ∷ 0x1d ∷ 0x9e ∷ 0xe1 ∷ 0xf8 ∷ 0x98 ∷ 0x11 ∷ 0x69 ∷ 0xd9 ∷ 0x8e ∷ 0x94 ∷ 0x9b ∷ 0x1e ∷ 0x87
    ∷ 0xe9 ∷ 0xce ∷ 0x55 ∷ 0x28 ∷ 0xdf ∷ 0x8c ∷ 0xa1 ∷ 0x89 ∷ 0x0d ∷ 0xbf ∷ 0xe6 ∷ 0x42 ∷ 0x68
    ∷ 0x41 ∷ 0x99 ∷ 0x2d ∷ 0x0f ∷ 0xb0 ∷ 0x54 ∷ 0xbb ∷ 0x16 ∷ []

-- round_constants
abbrev pub round_constants : List ℕ
round_constants = 0x8d ∷ 0x01 ∷ 0x02 ∷ 0x04 ∷ 0x08 ∷ 0x10 ∷ 0x20 ∷ 0x40 ∷ 0x80 ∷ 0x1b ∷ 0x36 ∷ []

-- Four bytes in a row: a column of the state, or a word of the key schedule.
pub record Column : Type 0 where
  pub b0 : ℕ
  pub b1 : ℕ
  pub b2 : ℕ
  pub b3 : ℕ

-- struct aes_key: byte u8[4 * i + j] is byte j of column i.
pub record Block : Type 0 where
  pub c0 : Column
  pub c1 : Column
  pub c2 : Column
  pub c3 : Column

-- struct AES_ctx: round_key in words of four bytes, as far as it is written.
abbrev pub AesCtx : Type 0
AesCtx = List Column

abbrev pub no_word : Column
no_word = record { b0 = 0; b1 = 0; b2 = 0; b3 = 0 }

-- aes_sbox[b]
unfoldable pub sub_byte : ℕ → ℕ
unfolding aes_sbox
sub_byte b = get_or aes_sbox b 0

unfoldable pub xor_column : Column → Column → Column
xor_column a b = record {
  b0 = bit_xor a.b0 b.b0;
  b1 = bit_xor a.b1 b.b1;
  b2 = bit_xor a.b2 b.b2;
  b3 = bit_xor a.b3 b.b3;
}

unfoldable pub sub_column : Column → Column
sub_column a = record {
  b0 = sub_byte a.b0;
  b1 = sub_byte a.b1;
  b2 = sub_byte a.b2;
  b3 = sub_byte a.b3;
}

-- The rotation, the table and the constant of round r, at each fourth word.
unfoldable pub key_core : ℕ → Column → Column
unfolding sub_column
key_core r tmp =
    let s = sub_column (record { b0 = tmp.b1; b1 = tmp.b2; b2 = tmp.b3; b3 = tmp.b0 }) in
    record s { b0 = bit_xor s.b0 (get_or round_constants r 0) }

-- Word i from the words before it.
unfoldable pub key_word : ℕ → AesCtx → Column
unfolding key_core xor_column
key_word i ctx =
    let tmp = get_or ctx (i - 1) no_word in
    xor_column (get_or ctx (i - 4) no_word) (if i % 4 == 0 then key_core (i / 4) tmp else tmp)

-- The second loop of AES_key_expand, for n rounds from i on.
unfoldable pub key_words : ℕ → ℕ → AesCtx → AesCtx
unfolding key_word
key_words zero i ctx = ctx
key_words (suc n) i ctx = key_words n (i + 1) (ctx ++ (key_word i ctx ∷ []))

-- AES_key_expand
unfoldable pub key_expand : Block → AesCtx
unfolding key_words
key_expand key = key_words 40 4 (key.c0 ∷ key.c1 ∷ key.c2 ∷ key.c3 ∷ [])

-- add_round_key: the index p / 4 of a word, modulo 176 / 4.
unfoldable pub add_round_key : ℕ → Block → AesCtx → Block
unfolding xor_column
add_round_key round state ctx = if ltb 10 round then state else record {
  c0 = xor_column state.c0 (get_or ctx (round * 4 % 44) no_word);
  c1 = xor_column state.c1 (get_or ctx ((round * 4 + 1) % 44) no_word);
  c2 = xor_column state.c2 (get_or ctx ((round * 4 + 2) % 44) no_word);
  c3 = xor_column state.c3 (get_or ctx ((round * 4 + 3) % 44) no_word);
}

-- sub_bytes
unfoldable pub sub_bytes : Block → Block
unfolding sub_column
sub_bytes state = record {
  c0 = sub_column state.c0;
  c1 = sub_column state.c1;
  c2 = sub_column state.c2;
  c3 = sub_column state.c3;
}

-- shift_rows: byte j of each column comes from the column j places further on.
unfoldable pub shift_rows : Block → Block
shift_rows state = record {
  c0 = record { b0 = state.c0.b0; b1 = state.c1.b1; b2 = state.c2.b2; b3 = state.c3.b3 };
  c1 = record { b0 = state.c1.b0; b1 = state.c2.b1; b2 = state.c3.b2; b3 = state.c0.b3 };
  c2 = record { b0 = state.c2.b0; b1 = state.c3.b1; b2 = state.c0.b2; b3 = state.c1.b3 };
  c3 = record { b0 = state.c3.b0; b1 = state.c0.b1; b2 = state.c1.b2; b3 = state.c2.b3 };
}

-- gf_multiply_by_2, stored in a uint8_t
unfoldable pub gf_multiply_by_2 : ℕ → ℕ
gf_multiply_by_2 x = u8 (bit_xor (x <<< 1) (x >>> 7 % 2 * 0x1b))

-- The body of the loop of mix_columns.
unfoldable pub mix_column : Column → Column
unfolding gf_multiply_by_2
mix_column a =
    let tmp = bit_xor (bit_xor (bit_xor a.b0 a.b1) a.b2) a.b3 in
    record {
      b0 = bit_xor a.b0 (bit_xor (gf_multiply_by_2 (bit_xor a.b0 a.b1)) tmp);
      b1 = bit_xor a.b1 (bit_xor (gf_multiply_by_2 (bit_xor a.b1 a.b2)) tmp);
      b2 = bit_xor a.b2 (bit_xor (gf_multiply_by_2 (bit_xor a.b2 a.b3)) tmp);
      b3 = bit_xor a.b3 (bit_xor (gf_multiply_by_2 (bit_xor a.b3 a.b0)) tmp);
    }

-- mix_columns
unfoldable pub mix_columns : Block → Block
unfolding mix_column
mix_columns state = record {
  c0 = mix_column state.c0;
  c1 = mix_column state.c1;
  c2 = mix_column state.c2;
  c3 = mix_column state.c3;
}

-- The loop of AES_ECB_encrypt from `round` on, for at most n rounds; it ends by its own test.
unfoldable pub encrypt_rounds : ℕ → ℕ → AesCtx → Block → Block
unfolding sub_bytes shift_rows mix_columns add_round_key
encrypt_rounds zero round ctx state = state
encrypt_rounds (suc n) round ctx state =
    let state' = shift_rows (sub_bytes state) in
    let rest = encrypt_rounds n (round + 1) ctx (add_round_key round (mix_columns state') ctx) in
    if round == 10 then state' else rest

-- AES_ECB_encrypt
unfoldable pub encrypt : AesCtx → Block → Block
unfolding encrypt_rounds
encrypt ctx state = add_round_key 10 (encrypt_rounds 10 1 ctx (add_round_key 0 state ctx)) ctx
