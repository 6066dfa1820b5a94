-- ===== src/Interp/Reference.antt =====
-- The interpreter of ebpf/ebpf_inter.c against a machine with a program counter. bpf_loop only
-- counts up, so the callback skips the instructions below `next_index`; here the counter jumps.
use udpgrm.Base.{
  ℕ, zero, suc, ◌+◌, ◌≤◌, ◌<◌, ◌≡◌, refl, sym, ap, ◌∙◌, ◌⊎◌, inl, inr, max, subst, ltb, Bool-cases,
  arith,
}
use udpgrm.Storage.{ReuseportStorage}
use udpgrm.Storage.Helpers.{Packet}
use udpgrm.Storage.Config.{filter_at}
use udpgrm.Interp.{
  InterpretCtx, LoopResult, loop_continue, loop_break, execute, do_interpret_loop, loop_from,
  interpret_cbpf, initial_ctx,
}
use udpgrm.Interp.Opcode.{decode}

-- The instruction at a position.
abbrev pub instruction : Packet → ReuseportStorage → ℕ → InterpretCtx → LoopResult InterpretCtx
instruction md state pc c = let f = filter_at state.dis pc in execute md f pc (decode f.code) c

-- `Runs md state pc c d`: the program, continued at `pc` in `c`, ends in `d`. A jump goes to the
-- index that it set; one that does not lead forward, where the sum wrapped, falls through.
pub data Runs (md : Packet) (state : ReuseportStorage)
    : ℕ → InterpretCtx → InterpretCtx → Type 0 where
  off_end : (pc : ℕ) (c : InterpretCtx) → state.dis.filter_len ≤ pc → Runs md state pc c c
  halts :
      (pc : ℕ) (c d : InterpretCtx)
      → pc < state.dis.filter_len
      → instruction md state pc c ≡ loop_break d
      → Runs md state pc c d
  moves :
      (pc next : ℕ) (c c' d : InterpretCtx)
      → pc < state.dis.filter_len
      → instruction md state pc c ≡ loop_continue c'
      → next ≡ max (suc pc) c'.next_index
      → Runs md state next c' d
      → Runs md state pc c d

LoopResult-cases :
    (r : LoopResult InterpretCtx)
    → ((c : InterpretCtx) × (r ≡ loop_continue c)) ⊎ ((c : InterpretCtx) × (r ≡ loop_break c))
LoopResult-cases (loop_continue c) = inl (c, refl)
LoopResult-cases (loop_break c) = inr (c, refl)

module _ (md : Packet) (state : ReuseportStorage) (fits : state.dis.filter_len ≤ 64) where
  -- One round that is not skipped executes the instruction at its index.
  round_executes :
      (i : ℕ) (c : InterpretCtx)
      → i < state.dis.filter_len
      → c.next_index ≤ i
      → do_interpret_loop md state i c ≡ instruction md state i c
  unfolding do_interpret_loop
  round_executes i c hi hn = ground arith

  round_skips :
      (i : ℕ) (c : InterpretCtx)
      → i < c.next_index
      → do_interpret_loop md state i c ≡ loop_continue c
  unfolding do_interpret_loop
  round_skips i c h = ground arith

  loop-Runs :
      (n i pc : ℕ) (c : InterpretCtx)
      → i + n ≡ state.dis.filter_len
      → pc ≡ max i c.next_index
      → Runs md state pc c (loop_from n i (do_interpret_loop md state) c)
  unfolding loop_from
  loop-Runs zero i pc c e p = off_end pc c (omega arith)
  loop-Runs (suc n) i pc c e p = elim (Bool-cases (ltb i c.next_index)) [
    | inl skip ↦
        rw (round_skips i c (ground arith), loop_from)
          (loop-Runs n (i + 1) pc c (omega arith) (ground arith))
    | inr act ↦
        let here : i ≡ pc = ground arith in
        elim (LoopResult-cases (instruction md state i c)) [
          | inl (c', e') ↦
              rw (round_executes i c (omega arith) (ground arith) ∙ e', loop_from)
                (moves pc (max (suc pc) c'.next_index) c c' _ (omega arith)
                  (subst (λ j. instruction md state j c ≡ loop_continue c') here e') refl
                  (loop-Runs n (i + 1) _ c' (omega arith) (omega arith)))
          | inr (d, e') ↦
              rw (round_executes i c (omega arith) (ground arith) ∙ e', loop_from)
                (halts pc c d (omega arith)
                  (subst (λ j. instruction md state j c ≡ loop_break d) here e'))
        ]
  ]

-- What the callback's result carries.
abbrev context : LoopResult InterpretCtx → InterpretCtx
context (loop_continue c) = c
context (loop_break c) = c

module _ (md : Packet) (state : ReuseportStorage) where
  same_instruction :
      {pc pc' : ℕ} {c c' : InterpretCtx}
      → pc ≡ pc'
      → c ≡ c'
      → instruction md state pc c ≡ instruction md state pc' c'
  same_instruction p e i = instruction md state (p i) (e i)

  -- The machine is deterministic.
  pub Runs-functional :
      {pc pc' : ℕ} {c c' d d' : InterpretCtx}
      → Runs md state pc c d
      → Runs md state pc' c' d'
      → pc ≡ pc'
      → c ≡ c'
      → d ≡ d'
  Runs-functional (off_end _ _ _) (off_end _ _ _) p e = e
  Runs-functional (off_end _ _ h) (halts _ _ _ h' _) p e = absurd (omega arith)
  Runs-functional (off_end _ _ h) (moves _ _ _ _ _ h' _ _ _) p e = absurd (omega arith)
  Runs-functional (halts _ _ _ h' _) (off_end _ _ h) p e = absurd (omega arith)
  Runs-functional (halts _ _ _ _ x) (halts _ _ _ _ y) p e =
      ap context (sym x ∙ same_instruction p e ∙ y)
  Runs-functional (halts _ _ _ _ x) (moves _ _ _ _ _ _ y _ _) p e =
      cc (sym x ∙ same_instruction p e ∙ y)
  Runs-functional (moves _ _ _ _ _ h' _ _ _) (off_end _ _ h) p e = absurd (omega arith)
  Runs-functional (moves _ _ _ _ _ _ x _ _) (halts _ _ _ _ y) p e =
      cc (sym x ∙ same_instruction p e ∙ y)
  Runs-functional (moves _ n _ c₁ _ _ x nx r) (moves _ n' _ c₂ _ _ y ny r') p e =
      let same : c₁ ≡ c₂ = ap context (sym x ∙ same_instruction p e ∙ y) in
      Runs-functional r r' (ground arith) same

-- A program of at most 64 instructions ends on the machine with a program counter, in one context
-- only, and interpret_cbpf returns the code and the value that stand there.
pub interpret_cbpf-Runs :
    (md : Packet) (state : ReuseportStorage)
    → state.dis.filter_len ≤ 64
    → (d : InterpretCtx) × Runs md state 0 initial_ctx d
      × ((d' : InterpretCtx) → Runs md state 0 initial_ctx d' → d' ≡ d)
      × (interpret_cbpf md state ≡ (d.retcode, d.retval))
unfolding interpret_cbpf
interpret_cbpf-Runs md state fits =
    let r =
      loop-Runs md state fits state.dis.filter_len 0 0 initial_ctx (omega arith) (omega arith) in
    (_, r, λ d' r'. Runs-functional md state r' r refl refl, ground arith)
