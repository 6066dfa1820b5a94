-- ===== src/Interp/Alu.antt =====
-- The two-operand arithmetic of the switch in ebpf/ebpf_inter.c, on `uint32_t`. C leaves a shift by
-- 32 or more open; the 32-bit shifts of eBPF, to which it compiles, use the low five bits.
use udpgrm.Base.{
  ℕ, ◌*◌, ◌+◌, ◌/◌, ◌%◌, ◌^◌, bit_and, bit_or, bit_xor, Bool, true, false, u32, sub32,
}

pub data AluOp : Type 0 where
  lsh rsh add sub mul div mod_by and or xor : AluOp

abbrev pub alu_value : AluOp → ℕ → ℕ → ℕ
alu_value lsh a b = u32 (a * 2 ^ (b % 32))
alu_value rsh a b = a / 2 ^ (b % 32)
alu_value add a b = u32 (a + b)
alu_value sub a b = sub32 a b
alu_value mul a b = u32 (a * b)
alu_value div a b = a / b
alu_value mod_by a b = a % b
alu_value and a b = bit_and a b
alu_value or a b = bit_or a b
alu_value xor a b = bit_xor a b

-- The operations that test their operand for zero.
abbrev pub divides : AluOp → Bool
divides div = true
divides mod_by = true
divides _ = false
