-- ===== src/Interp.antt =====
-- The interpreter of classic BPF (ebpf/ebpf_inter.c): one instruction, the callback of bpf_loop
-- with its skipping of instructions, and interpret_cbpf.
pub mod Opcode
pub mod Alu
pub mod Reference
pub mod Codes
use Opcode.{
  Op, Size, Operand, Cond, word, half, byte, by_x, by_k, gt, ge, eq, set_bits, tax, txa, st, stx,
  ld_abs, ld_ind, ldx_msh, ld_len, ld_imm, ldx_imm, ld_mem, ldx_mem, ja, jump, neg_a, alu, ret_k,
  ret_x, ret_a, bad, decode,
}
use Alu.{AluOp, alu_value, divides}
use udpgrm.Base.{
  ℕ, zero, suc, ◌+◌, ◌*◌, ◌%◌, ◌^◌, bit_and, Bool, not, ◌&&◌, Option, none, some, List, ℤ, neg, pos,
  ltb, leb, ◌==◌, if◌then◌else◌, u32, sub32, bswap16, u8_at,
}
use udpgrm.Storage.{ReuseportStorage}
use udpgrm.Storage.Helpers.{Packet}
use udpgrm.Storage.Config.{SockFilter, filter_at, max_instr}

-- struct bpf_regs; M has 16 words.
pub record BpfRegs : Type 0 where
  pub a : ℕ
  pub x : ℕ
  pub m : ℕ → ℕ

-- What struct interpret_ctx changes while the program runs; `retval` is the word *retval.
pub record InterpretCtx : Type 0 where
  pub r : BpfRegs
  pub retval : ℕ
  pub retcode : ℤ
  pub next_index : ℕ

abbrev pub ierr_ok : ℤ
ierr_ok = pos 0

abbrev pub ierr_load : ℤ
ierr_load = neg 2

abbrev pub ierr_instrexceeded : ℤ
ierr_instrexceeded = neg 3

abbrev pub ierr_badinstr : ℤ
ierr_badinstr = neg 4

abbrev pub ierr_sanity : ℤ
ierr_sanity = neg 5

abbrev pub ierr_badreturnvalue : ℤ
ierr_badreturnvalue = neg 6

-- LOOP_CONTINUE and LOOP_BREAK, with the context that the callback leaves.
pub data LoopResult {ℓ} (S : Type ℓ) : Type ℓ where
  loop_continue : S → LoopResult S
  loop_break : S → LoopResult S

abbrev size_of : Size → ℕ
size_of word = 4
size_of half = 2
size_of byte = 1

-- bpf_ntohl, bpf_ntohs, or the byte itself
abbrev big_endian : Size → List ℕ → ℕ
big_endian word v = u8_at v 0 * 2 ^ 24 + u8_at v 1 * 2 ^ 16 + u8_at v 2 * 2 ^ 8 + u8_at v 3
big_endian half v = u8_at v 0 * 2 ^ 8 + u8_at v 1
big_endian byte v = u8_at v 0

-- extract_u32, extract_u16, extract_u8. c->offset is sizeof(struct udphdr), and the sum is a uint32_t.
unfoldable pub extract : Size → Packet → ℕ → Option ℕ
extract size md off = elim (md.load (u32 (8 + off)) (size_of size)) [
  | none ↦ none
  | some v ↦ some (big_endian size v)
]

abbrev fail : InterpretCtx → ℤ → LoopResult InterpretCtx
fail c code = loop_break (record c { retcode = code })

abbrev return : InterpretCtx → ℕ → LoopResult InterpretCtx
return c v = loop_break (record c { retcode = ierr_ok; retval = v })

abbrev with_a : InterpretCtx → ℕ → LoopResult InterpretCtx
with_a c v = loop_continue (record c { r = record c.r { a = v } })

abbrev with_x : InterpretCtx → ℕ → LoopResult InterpretCtx
with_x c v = loop_continue (record c { r = record c.r { x = v } })

-- r->M[K & MEMWORDS_MASK] = v
abbrev with_m : InterpretCtx → ℕ → ℕ → LoopResult InterpretCtx
with_m c k v =
    loop_continue (record c { r = record c.r { m = λ i. if i == k % 16 then v else c.r.m i } })

-- A load that breaks the loop where the packet is too short.
unfoldable pub load_a : InterpretCtx → Option ℕ → LoopResult InterpretCtx
load_a c none = fail c ierr_load
load_a c (some v) = with_a c v

unfoldable pub load_msh : InterpretCtx → Option ℕ → LoopResult InterpretCtx
load_msh c none = fail c ierr_load
load_msh c (some v) = with_x c (v % 16 * 4)

-- BPF_X or BPF_K
abbrev pub operand : Operand → BpfRegs → ℕ → ℕ
operand by_x r k = r.x
operand by_k r k = k

unfoldable pub holds : Cond → ℕ → ℕ → Bool
holds gt a b = ltb b a
holds ge a b = leb b a
holds eq a b = a == b
holds set_bits a b = not (bit_and a b == 0)

-- A jump sets the index before which instructions are skipped, a uint32_t.
abbrev jump_to : InterpretCtx → ℕ → ℕ → LoopResult InterpretCtx
jump_to c index off = loop_continue (record c { next_index = u32 (1 + index + off) })

-- SKF_AD_OFF + SKF_AD_PROTOCOL as a uint32_t
abbrev ad_protocol : ℕ
ad_protocol = 0xffff_f000

-- case BPF_LD | BPF_ABS
unfoldable pub load_abs : Packet → Size → ℕ → InterpretCtx → LoopResult InterpretCtx
unfolding extract load_a
load_abs md half k c =
    if k == ad_protocol then with_a c (bswap16 md.eth_protocol) else load_a c (extract half md k)
load_abs md size k c = load_a c (extract size md k)

-- The switch of _do_interpret_loop.
unfoldable pub execute : Packet → SockFilter → ℕ → Op → InterpretCtx → LoopResult InterpretCtx
unfolding load_abs load_msh holds
execute md f index tax c = with_x c c.r.a
execute md f index txa c = with_a c c.r.x
execute md f index st c = with_m c f.k c.r.a
execute md f index stx c = with_m c f.k c.r.x
execute md f index (ld_abs size) c = load_abs md size f.k c
execute md f index (ld_ind size) c = load_a c (extract size md (u32 (c.r.x + f.k)))
execute md f index ldx_msh c = load_msh c (extract byte md f.k)
execute md f index ld_len c = with_a c (sub32 md.len 8)
execute md f index ld_imm c = with_a c f.k
execute md f index ldx_imm c = with_x c f.k
execute md f index ld_mem c = with_a c (c.r.m (f.k % 16))
execute md f index ldx_mem c = with_x c (c.r.m (f.k % 16))
execute md f index ja c = jump_to c index f.k
execute md f index (jump cond src) c =
    jump_to c index (if holds cond c.r.a (operand src c.r f.k) then f.jt else f.jf)
execute md f index neg_a c = with_a c (sub32 0 c.r.a)
execute md f index (alu op src) c =
    if divides op && operand src c.r f.k == 0
    then fail c ierr_badinstr
    else with_a c (alu_value op c.r.a (operand src c.r f.k))
execute md f index ret_k c = return c f.k
execute md f index ret_x c = return c c.r.x
execute md f index ret_a c = return c c.r.a
execute md f index bad c = fail c ierr_badinstr

-- _do_interpret_loop
unfoldable pub do_interpret_loop :
    Packet → ReuseportStorage → ℕ → InterpretCtx → LoopResult InterpretCtx
do_interpret_loop md state index c =
    if ltb index c.next_index
    then loop_continue c
    else if leb max_instr index
    then fail c ierr_sanity
    else let f = filter_at state.dis index in execute md f index (decode f.code) c

-- The rounds i, i + 1, … of bpf_loop, until the callback breaks.
module _ {ℓ} {S : Type ℓ} where
  unfoldable pub loop_from : ℕ → ℕ → (ℕ → S → LoopResult S) → S → S
  loop_from zero i f s = s
  loop_from (suc n) i f s = elim (f i s) [
    | loop_continue s' ↦ loop_from n (i + 1) f s'
    | loop_break s' ↦ s'
  ]

  -- bpf_loop(n, f, s, 0): above BPF_MAX_LOOPS rounds it does nothing and returns -E2BIG.
  unfoldable pub bpf_loop : ℕ → (ℕ → S → LoopResult S) → S → S
  bpf_loop n f s = if ltb (2 ^ 23) n then s else loop_from n 0 f s

abbrev pub initial_ctx : InterpretCtx
initial_ctx = record {
  r = record { a = 0; x = 0; m = λ _. 0 };
  retval = 0;
  retcode = ierr_instrexceeded;
  next_index = 0;
}

-- interpret_cbpf: the return code and *retval, which the caller sets to 0 before.
unfoldable pub interpret_cbpf : Packet → ReuseportStorage → ℤ × ℕ
unfolding bpf_loop do_interpret_loop
interpret_cbpf md state =
    let c = bpf_loop state.dis.filter_len (do_interpret_loop md state) initial_ctx in
    (c.retcode, c.retval)
