-- ===== src/Examples/Programs.antt =====
-- A cBPF program at work (ebpf/ebpf_inter.c), and cookies (include/udpgrm_internal.h).
use udpgrm.Base.{ℕ, [], ◌∷◌, ◌≡◌, ◌↔◌, ◌%◌, refl, some, arith}
use udpgrm.Cookie.{grm_cookie_unpack, to_wrk_gen, grm_cookie_cs}
use udpgrm.Cookie.Roundtrip.{cookie_of, unpack-pack, pack-unpack}
use udpgrm.Cookie.Slots.{slot_size, to_wrk_gen_iff}
use udpgrm.Interp.{InterpretCtx, initial_ctx, interpret_cbpf, loop_from, execute, ierr_ok}
use udpgrm.Interp.Opcode.{decode}
use udpgrm.Storage.Config.{filter_at}
use udpgrm.Interp.Reference.{Runs, interpret_cbpf-Runs}
use udpgrm.Examples.{packet_with, cbpf_group}

two_instructions_run :
    interpret_cbpf (packet_with (0x12 ∷ 0x34 ∷ [])) cbpf_group ≡ (ierr_ok, 0x1234)
unfolding interpret_cbpf loop_from execute decode filter_at
two_instructions_run = refl

interpret_cbpf-Runs_example :
    (d : InterpretCtx) × Runs (packet_with (0x12 ∷ 0x34 ∷ [])) cbpf_group 0 initial_ctx d
    × ((d' : InterpretCtx)
        → Runs (packet_with (0x12 ∷ 0x34 ∷ [])) cbpf_group 0 initial_ctx d'
        → d' ≡ d)
    × (interpret_cbpf (packet_with (0x12 ∷ 0x34 ∷ [])) cbpf_group ≡ (d.retcode, d.retval))
interpret_cbpf-Runs_example =
    interpret_cbpf-Runs (packet_with (0x12 ∷ 0x34 ∷ [])) cbpf_group (omega arith)

unpack-pack_example : grm_cookie_unpack (cookie_of 3 7) ≡ some (3, 7)
unpack-pack_example = unpack-pack 3 7

read_cookie : grm_cookie_unpack 0x0703 ≡ some (3, 7)
unfolding grm_cookie_unpack grm_cookie_cs
read_cookie = refl

pack-unpack_example : cookie_of 3 7 ≡ 0x0703
pack-unpack_example = pack-unpack 0x0703 3 7 (omega arith) read_cookie

to_wrk_gen_iff_example :
    (to_wrk_gen 3 2 11 ≡ to_wrk_gen 3 2 1)
    ↔ ((◌≡◌ {A = ℕ} 2 2) × (11 % slot_size 3 ≡ 1 % slot_size 3))
to_wrk_gen_iff_example = to_wrk_gen_iff 3 2 2 11 1 (omega arith) (omega arith) (omega arith)
