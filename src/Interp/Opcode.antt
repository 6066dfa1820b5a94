-- ===== src/Interp/Opcode.antt =====
-- The case labels of the switch in ebpf/ebpf_inter.c, with the values that linux/bpf_common.h and
-- linux/filter.h give the names.
use udpgrm.Base.{ℕ, List, [], ◌∷◌, ◌==◌, if◌then◌else◌}
use udpgrm.Interp.Alu.{AluOp, lsh, rsh, add, sub, mul, div, mod_by, and, or, xor}

pub data Size : Type 0 where
  word half byte : Size

pub data Operand : Type 0 where
  by_x by_k : Operand

pub data Cond : Type 0 where
  gt ge eq set_bits : Cond

pub data Op : Type 0 where
  tax txa st stx ldx_msh ld_len ld_imm ldx_imm ld_mem ldx_mem ja neg_a : Op
  ld_abs ld_ind : Size → Op
  jump : Cond → Operand → Op
  alu : AluOp → Operand → Op
  ret_k ret_x ret_a bad : Op

-- The labels, in the order of the switch. Both labels of the packet length lead to one body.
abbrev pub labels : List (ℕ × Op)
labels =
    (0x07, tax)
    ∷ (0x87, txa)
    ∷ (0x02, st)
    ∷ (0x03, stx)
    ∷ (0x20, ld_abs word)
    ∷ (0x28, ld_abs half)
    ∷ (0x30, ld_abs byte)
    ∷ (0x40, ld_ind word)
    ∷ (0x48, ld_ind half)
    ∷ (0x50, ld_ind byte)
    ∷ (0xb1, ldx_msh)
    ∷ (0x80, ld_len)
    ∷ (0x81, ld_len)
    ∷ (0x00, ld_imm)
    ∷ (0x01, ldx_imm)
    ∷ (0x60, ld_mem)
    ∷ (0x61, ldx_mem)
    ∷ (0x05, ja)
    ∷ (0x2d, jump gt by_x)
    ∷ (0x25, jump gt by_k)
    ∷ (0x3d, jump ge by_x)
    ∷ (0x35, jump ge by_k)
    ∷ (0x1d, jump eq by_x)
    ∷ (0x15, jump eq by_k)
    ∷ (0x4d, jump set_bits by_x)
    ∷ (0x45, jump set_bits by_k)
    ∷ (0x84, neg_a)
    ∷ (0x6c, alu lsh by_x)
    ∷ (0x64, alu lsh by_k)
    ∷ (0x7c, alu rsh by_x)
    ∷ (0x74, alu rsh by_k)
    ∷ (0x0c, alu add by_x)
    ∷ (0x04, alu add by_k)
    ∷ (0x1c, alu sub by_x)
    ∷ (0x14, alu sub by_k)
    ∷ (0x2c, alu mul by_x)
    ∷ (0x24, alu mul by_k)
    ∷ (0x3c, alu div by_x)
    ∷ (0x34, alu div by_k)
    ∷ (0x9c, alu mod_by by_x)
    ∷ (0x94, alu mod_by by_k)
    ∷ (0x5c, alu and by_x)
    ∷ (0x54, alu and by_k)
    ∷ (0x4c, alu or by_x)
    ∷ (0x44, alu or by_k)
    ∷ (0xac, alu xor by_x)
    ∷ (0xa4, alu xor by_k)
    ∷ (0x06, ret_k)
    ∷ (0x0e, ret_x)
    ∷ (0x16, ret_a)
    ∷ []

find_label : ℕ → List (ℕ × Op) → Op
find_label code [] = bad
find_label code ((c, op) ∷ rest) = if c == code then op else find_label code rest

-- The case that `switch (f->code)` enters; `bad` is the default.
unfoldable pub decode : ℕ → Op
unfolding find_label
decode code = find_label code labels
