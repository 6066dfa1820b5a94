-- ===== src/Aes/Columns.antt =====
-- Columns of bytes through the operations on a column (ebpf/ebpf_aes128.c).
use udpgrm.Base.{ℕ, ◌<◌, bit_xor, bit_xor-lt}
use udpgrm.Aes.{Column, xor_column, mix_column, sub_column}
use udpgrm.Aes.Byte.{gf_multiply_by_2-lt, sub_byte-lt}

pub record IsBytes (a : Column) : Type 0 where
  pub lt0 : a.b0 < 256
  pub lt1 : a.b1 < 256
  pub lt2 : a.b2 < 256
  pub lt3 : a.b3 < 256

pub xor_byte-lt : (a b : ℕ) → a < 256 → b < 256 → bit_xor a b < 256
xor_byte-lt a b h k = bit_xor-lt 8 a b h k

pub xor_column-IsBytes : {a b : Column} → IsBytes a → IsBytes b → IsBytes (xor_column a b)
unfolding xor_column
xor_column-IsBytes h k = record {
  lt0 = xor_byte-lt _ _ h.lt0 k.lt0;
  lt1 = xor_byte-lt _ _ h.lt1 k.lt1;
  lt2 = xor_byte-lt _ _ h.lt2 k.lt2;
  lt3 = xor_byte-lt _ _ h.lt3 k.lt3;
}

pub sub_column-IsBytes : {a : Column} → IsBytes a → IsBytes (sub_column a)
unfolding sub_column
sub_column-IsBytes h = record {
  lt0 = sub_byte-lt _ h.lt0;
  lt1 = sub_byte-lt _ h.lt1;
  lt2 = sub_byte-lt _ h.lt2;
  lt3 = sub_byte-lt _ h.lt3;
}

pub mix_column-IsBytes : {a : Column} → IsBytes a → IsBytes (mix_column a)
unfolding mix_column
mix_column-IsBytes {a} h =
    let tmp =
      xor_byte-lt _ a.b3 (xor_byte-lt _ a.b2 (xor_byte-lt a.b0 a.b1 h.lt0 h.lt1) h.lt2) h.lt3 in
    record {
      lt0 = xor_byte-lt _ _ h.lt0 (xor_byte-lt _ _ (gf_multiply_by_2-lt _) tmp);
      lt1 = xor_byte-lt _ _ h.lt1 (xor_byte-lt _ _ (gf_multiply_by_2-lt _) tmp);
      lt2 = xor_byte-lt _ _ h.lt2 (xor_byte-lt _ _ (gf_multiply_by_2-lt _) tmp);
      lt3 = xor_byte-lt _ _ h.lt3 (xor_byte-lt _ _ (gf_multiply_by_2-lt _) tmp);
    }
