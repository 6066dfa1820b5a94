-- ===== src/Examples/Aes.antt =====
-- AES-128 at the example vectors of the standard.
use udpgrm.Base.{ℕ, ◌≡◌, refl, arith}
use udpgrm.Aes.{Block, Column, sub_byte, key_expand, encrypt, mix_column, encrypt_rounds}
use udpgrm.Aes.Columns.{IsBytes}
use udpgrm.Aes.Field.{matrix_product, mix_column-eq-matrix_product}
use udpgrm.Aes.Blocks.{IsBlock}
use udpgrm.Aes.Inverse.{decrypt, encrypt_rounds_ends}
use udpgrm.Aes.Schedule.{IsSchedule, key_expand-IsSchedule, aes_permutes}

abbrev pub word : ℕ → ℕ → ℕ → ℕ → Column
word a b c d = record { b0 = a; b1 = b; b2 = c; b3 = d }

-- 2b7e151628aed2a6abf7158809cf4f3c
abbrev pub standard_key : Block
standard_key = record {
  c0 = word 0x2b 0x7e 0x15 0x16;
  c1 = word 0x28 0xae 0xd2 0xa6;
  c2 = word 0xab 0xf7 0x15 0x88;
  c3 = word 0x09 0xcf 0x4f 0x3c;
}

-- 3243f6a8885a308d313198a2e0370734
abbrev pub standard_input : Block
standard_input = record {
  c0 = word 0x32 0x43 0xf6 0xa8;
  c1 = word 0x88 0x5a 0x30 0x8d;
  c2 = word 0x31 0x31 0x98 0xa2;
  c3 = word 0xe0 0x37 0x07 0x34;
}

-- 3925841d02dc09fbdc118597196a0b32
standard_output : encrypt (key_expand standard_key) standard_input ≡ record {
  c0 = word 0x39 0x25 0x84 0x1d;
  c1 = word 0x02 0xdc 0x09 0xfb;
  c2 = word 0xdc 0x11 0x85 0x97;
  c3 = word 0x19 0x6a 0x0b 0x32;
}
unfolding encrypt key_expand sub_byte
standard_output = refl

-- d4 bf 5d 30 becomes 04 66 81 e5.
mixed_test : mix_column (word 0xd4 0xbf 0x5d 0x30) ≡ word 0x04 0x66 0x81 0xe5
unfolding mix_column
mixed_test = refl

word-IsBytes : IsBytes (word 0xd4 0xbf 0x5d 0x30)
word-IsBytes = omega arith

pub standard_key-IsBlock : IsBlock standard_key
standard_key-IsBlock = omega arith

standard_input-IsBlock : IsBlock standard_input
standard_input-IsBlock = omega arith

mix_column-eq-matrix_product_example :
    mix_column (word 0xd4 0xbf 0x5d 0x30) ≡ matrix_product (word 0xd4 0xbf 0x5d 0x30)
mix_column-eq-matrix_product_example =
    mix_column-eq-matrix_product (word 0xd4 0xbf 0x5d 0x30) word-IsBytes

key_expand-IsSchedule_example : IsSchedule standard_key (key_expand standard_key)
key_expand-IsSchedule_example = key_expand-IsSchedule standard_key

aes_permutes_example :
    (decrypt (key_expand standard_key) (encrypt (key_expand standard_key) standard_input)
      ≡ standard_input)
    × IsBlock (encrypt (key_expand standard_key) standard_input)
aes_permutes_example =
    aes_permutes standard_key standard_input standard_key-IsBlock standard_input-IsBlock

encrypt_rounds_ends_example :
    encrypt_rounds 10 1 (key_expand standard_key) standard_input
    ≡ encrypt_rounds 1000 1 (key_expand standard_key) standard_input
encrypt_rounds_ends_example =
    encrypt_rounds_ends 10 1000 1 (key_expand standard_key) standard_input (omega arith)
      (omega arith) (omega arith)
