-- ===== src/Interp/Codes.antt =====
-- Which codes the interpreter of ebpf/ebpf_inter.c returns.
use udpgrm.Base.{ℕ, ◌≤◌, ◌≡◌, refl, ◌⊎◌, inl, arith}
use udpgrm.Storage.{ReuseportStorage}
use udpgrm.Storage.Helpers.{Packet}
use udpgrm.Storage.Config.{SockFilter}
use udpgrm.Interp.{
  InterpretCtx, LoopResult, loop_continue, loop_break, execute, interpret_cbpf, ierr_ok, ierr_load,
  ierr_instrexceeded, ierr_badinstr,
}
use udpgrm.Interp.Opcode.{Op, tax}
use udpgrm.Interp.Reference.{Runs, off_end, halts, moves, interpret_cbpf-Runs}

-- An instruction that does not break leaves the code alone.
abbrev Codes : InterpretCtx → LoopResult InterpretCtx → Type 0
Codes c (loop_continue c') = c'.retcode ≡ c.retcode
Codes c (loop_break c') =
    (c'.retcode ≡ ierr_ok) ⊎ (c'.retcode ≡ ierr_load) ⊎ (c'.retcode ≡ ierr_badinstr)

execute-Codes :
    (md : Packet) (f : SockFilter) (index : ℕ) (op : Op) (c : InterpretCtx)
    → Codes c (execute md f index op c)
unfolding execute
execute-Codes md f index tax c = refl
execute-Codes md f index op c = ground arith

-- A run that breaks ends with one of three codes, and any other with the code it began with.
abbrev pub EndCode : InterpretCtx → InterpretCtx → Type 0
EndCode c d =
    (d.retcode ≡ c.retcode)
    ⊎ (d.retcode ≡ ierr_ok)
    ⊎ (d.retcode ≡ ierr_load)
    ⊎ (d.retcode ≡ ierr_badinstr)

use_break :
    (c : InterpretCtx) {d : InterpretCtx} (r : LoopResult InterpretCtx)
    → Codes c r
    → r ≡ loop_break d
    → EndCode c d
use_break c (loop_continue c') h e = ground arith
use_break c (loop_break c') h e = ground arith

use_continue :
    (c : InterpretCtx) {d : InterpretCtx} (r : LoopResult InterpretCtx)
    → Codes c r
    → r ≡ loop_continue d
    → d.retcode ≡ c.retcode
use_continue c (loop_continue c') h e = ground arith
use_continue c (loop_break c') h e = ground arith

module _ (md : Packet) (state : ReuseportStorage) where
  Runs-EndCode : {pc : ℕ} {c d : InterpretCtx} → Runs md state pc c d → EndCode c d
  Runs-EndCode (off_end pc c h) = inl refl
  Runs-EndCode (halts pc c d h e) = use_break c _ (execute-Codes md _ pc _ c) e
  Runs-EndCode (moves pc next c c' d h e n r) =
      ground (arith, use_continue c _ (execute-Codes md _ pc _ c) e, Runs-EndCode r)

-- A program of at most 64 instructions returns a value, or fails on a short packet, at its end,
-- or on a bad instruction; never with IERR_SANITY.
pub interpret_cbpf_codes :
    (md : Packet) (state : ReuseportStorage)
    → state.dis.filter_len ≤ 64
    → ((interpret_cbpf md state).0 ≡ ierr_ok)
      ⊎ ((interpret_cbpf md state).0 ≡ ierr_load)
      ⊎ ((interpret_cbpf md state).0 ≡ ierr_instrexceeded)
      ⊎ ((interpret_cbpf md state).0 ≡ ierr_badinstr)
interpret_cbpf_codes md state fits =
    let (d, r, _, e) = interpret_cbpf-Runs md state fits in ground (arith, Runs-EndCode md state r)
