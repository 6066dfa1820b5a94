-- ===== src/Sockopt/Readback.antt =====
-- A dissector through setsockopt and getsockopt (ebpf/ebpf.c).
use udpgrm.Base.{
  ℕ, ◌≤◌, ◌≡◌, refl, true, false, some, neg, minus_one, eqℤ, length, take, if_cases, leb, arith, ap,
  ◌∙◌,
}
use udpgrm.Storage.{World, ReuseportStorage, find_state, sock_key}
use udpgrm.Storage.Helpers.{Kernel}
use udpgrm.Storage.Config.{Dissector, dissector_at, dissector_bytes, dissector_same}
use udpgrm.Hook.{BpfSockopt, is_ours, enoprotoopt, udp_grm_dissector}
use udpgrm.Sockopt.{copied_size, setsockopt}
use udpgrm.Sockopt.Get.{
  reply, answer, answered_size, get_dissector, with_answer, with_size, getsockopt,
}
use udpgrm.Sockopt.Stored.{setsockopt-Stored}

answer-dissector :
    (w : World) (ctx : BpfSockopt) (state : ReuseportStorage)
    → ctx.optname ≡ udp_grm_dissector
    → find_state w ctx.sk ≡ some state
    → answer w ctx ≡ reply (dissector_bytes state.dis)
unfolding answer get_dissector
answer-dissector w ctx state name found = rw (name, found) refl

answered_size-whole : (n : ℕ) → 632 ≤ n → answered_size n ≡ some 632
unfolding answered_size
answered_size-whole n h =
    if_cases (λ o. o ≡ some 632) (leb 632 n) _ _ (λ _. refl) (λ e. ground arith)

getsockopt-get_dissector :
    (k : Kernel) (w : World) (ctx : BpfSockopt) (state : ReuseportStorage)
    → is_ours ctx ≡ true
    → ctx.optname ≡ udp_grm_dissector
    → ctx.retval ≡ neg enoprotoopt
    → k.percpu_page ≡ true
    → find_state w ctx.sk ≡ some state
    → 632 ≤ length ctx.optval
    → getsockopt k w ctx ≡ with_size w ctx (dissector_bytes state.dis) (some 632)
unfolding getsockopt with_answer
getsockopt-get_dissector k w ctx state ours name fine page found long =
    simp (ours, fine, page)
      (ap (with_answer w ctx) (answer-dissector w ctx state name found)
        ∙ ap (with_size w ctx (dissector_bytes state.dis))
            (answered_size-whole (length ctx.optval) long))

-- A dissector that setsockopt(UDP_GRM_DISSECTOR) accepted, which it shows by the optlen of -1, can be
-- read back: getsockopt on the same socket, with room for the whole struct, succeeds and fills it
-- with the bytes of a dissector that the comparison of dissector_cmp does not tell from the one
-- that was set. This holds for the call that creates the group and for one that repeats its dissector.
pub getsockopt-setsockopt :
    (k k' : Kernel) (w : World) (ctx ctx' : BpfSockopt)
    → is_ours ctx ≡ true
    → ctx.optname ≡ udp_grm_dissector
    → eqℤ ctx.optlen minus_one ≡ false
    → (setsockopt k w ctx).optlen ≡ minus_one
    → is_ours ctx' ≡ true
    → ctx'.optname ≡ udp_grm_dissector
    → ctx'.retval ≡ neg enoprotoopt
    → k'.percpu_page ≡ true
    → 632 ≤ length ctx'.optval
    → ctx'.sk ≡ ctx.sk
    → (size : ℕ) × (d : Dissector) × (copied_size (length ctx.optval) ≡ some size)
      × (dissector_same d (dissector_at (take size ctx.optval)) ≡ true)
      × (getsockopt k' (setsockopt k w ctx).world ctx'
          ≡ with_size (setsockopt k w ctx).world ctx' (dissector_bytes d) (some 632))
getsockopt-setsockopt k k' w ctx ctx' ours name first accepted ours' name' fine page long same =
    let (size, copied, (state, found, as_set)) =
      setsockopt-Stored k w ctx first ours name accepted in
    (
      size,
      state.dis,
      copied,
      as_set,
      getsockopt-get_dissector k' (setsockopt k w ctx).world ctx' state ours' name' fine page
          (ap (find_state (setsockopt k w ctx).world) same ∙ found) long,
    )
