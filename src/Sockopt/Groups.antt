-- ===== src/Sockopt/Groups.antt =====
-- The cgroup/setsockopt hook (ebpf/ebpf.c) as a whole, and the map of reuseport groups.
use udpgrm.Base.{
  ℕ, ==_iff, ◌≡◌, refl, List, inl, inr, true, false, none, some, eqℤ, pos, ◌==◌, if_cases,
  Option-cases,
}
use udpgrm.Storage.{
  World, ReuseportStorage, SocketStorage, empty_state, create_state, find_state, put_state,
  skey_from_bpf_sock,
}
use udpgrm.Storage.Helpers.{Kernel}
use udpgrm.Storage.Identity.{
  SameGroup, Keeps, Frame, AllGroups, Writes-Keeps, Rewrites-Frame, Frame-trans, Frame-Keeps,
  Rewrites-AllGroups, Keeps-refl, Writes-map,
}
use udpgrm.Hook.{IsErrno, is_ebadf, BpfSockopt, Outcome, deny, ebadf}
use udpgrm.Sockopt.{setsockopt, with_state, init_state, on_option}
use udpgrm.Sockopt.Cases.{setsockopt_cases}
use udpgrm.Sockopt.Preserve.{
  plain, HasChecked, SameGroup-HasChecked, on_option-Safe, on_option-Fresh,
}

-- The maps once a group was created and given its identity.
abbrev pub created_world : Kernel → World → BpfSockopt → SocketStorage → World
created_world k w ctx s =
    put_state (put_state w ctx.sk empty_state) ctx.sk (init_state k s empty_state)

module _ (k : Kernel) (w : World) (ctx : BpfSockopt) (bytes : List ℕ) (s : SocketStorage) where
  module _ (Q : Outcome → Type 0) where
    -- Whether the group is there, is created, or cannot be.
    pub with_state_cases :
        ((state : ReuseportStorage)
          → find_state w ctx.sk ≡ some state
          → state.netns_cookie ≡ s.netns_cookie
          → Q (on_option k w ctx bytes s state false))
        → (find_state w ctx.sk ≡ none
            → Q (
                on_option k
                  (created_world k w ctx s)
                  ctx
                  bytes
                  s
                  (init_state k s empty_state)
                  true))
        → ((err : ℕ) → IsErrno err → Q (deny w ctx err))
        → Q (with_state k ctx bytes s (create_state k w ctx.sk))
    unfolding with_state create_state
    with_state_cases q₁ q₂ q₃ = elim (Option-cases (find_state w ctx.sk)) [
      | inl e ↦
          rw (e, create_state)
            (if_cases (λ p. Q (with_state k ctx bytes s p)) (eqℤ k.update_group (pos 0)) _ _
              (λ _. q₂ e) (λ _. q₃ ebadf is_ebadf))
      | inr (state, e) ↦
          rw (e, create_state)
            (if_cases Q (state.netns_cookie == s.netns_cookie) _ _
              (λ same. q₁ state e ((==_iff _ _).0 same)) (λ _. q₃ ebadf is_ebadf))
    ]

  abbrev Kept : Outcome → Type 0
  Kept r = Keeps SameGroup w r.world

  created-Frame : Frame w ctx.sk (created_world k w ctx s)
  unfolding put_state
  created-Frame =
      Frame-trans ctx.sk
        (Rewrites-Frame (λ _. Unit {0}) {w' = put_state w ctx.sk empty_state} ctx.sk
          (inl (inr (empty_state, tt, refl))))
        (Rewrites-Frame (λ _. Unit {0}) ctx.sk (inl (inr (init_state k s empty_state, tt, refl))))

  init-HasChecked : HasChecked (init_state k s empty_state)
  unfolding init_state
  init-HasChecked = plain (inl refl) refl refl refl

  with_state-Kept : Kept (with_state k ctx bytes s (create_state k w ctx.sk))
  with_state-Kept =
      with_state_cases Kept
        (λ state found _. Writes-Keeps ctx.sk found (on_option-Safe k w ctx bytes state s))
        (λ absent. Frame-Keeps ctx.sk absent (
          Frame-trans ctx.sk created-Frame (
            Rewrites-Frame HasChecked ctx.sk
              (on_option-Fresh k (created_world k w ctx s) ctx bytes _ init-HasChecked s))))
        (λ err _. Keeps-refl w)

-- Whatever setsockopt is asked, every group that was there is there still, with the dissector, the
-- identity and the table of sockets that it had.
pub setsockopt-Keeps :
    (k : Kernel) (w : World) (ctx : BpfSockopt) → Keeps SameGroup w (setsockopt k w ctx).world
setsockopt-Keeps k w ctx =
    setsockopt_cases (λ (r : Outcome). Keeps SameGroup w r.world) k w ctx (λ _. Keeps-refl w)
      (λ _ _. Keeps-refl w) (λ bytes s _. with_state-Kept k w ctx bytes s)

module _ (k : Kernel) (w : World) (ctx : BpfSockopt) (all : AllGroups HasChecked w) where
  abbrev AllChecked : Outcome → Type 0
  AllChecked r = AllGroups HasChecked r.world

  created-AllChecked : (s : SocketStorage) → AllGroups HasChecked (created_world k w ctx s)
  unfolding put_state init_state
  created-AllChecked s =
      Rewrites-AllGroups HasChecked {w = put_state w ctx.sk empty_state} ctx.sk
        (inl (inr (init_state k s empty_state, plain (inl refl) refl refl refl, refl)))
        (Rewrites-AllGroups HasChecked ctx.sk
          (inl (inr (empty_state, plain (inl refl) refl refl refl, refl))) all)

  with_state-AllChecked :
      (bytes : List ℕ) (s : SocketStorage)
      → AllChecked (with_state k ctx bytes s (create_state k w ctx.sk))
  unfolding find_state
  with_state-AllChecked bytes s =
      with_state_cases k w ctx bytes s AllChecked
        (λ state found _.
          let checked : HasChecked state = all.at (skey_from_bpf_sock ctx.sk) state found in
          Rewrites-AllGroups HasChecked ctx.sk
            (inl (
              Writes-map w ctx.sk (on_option k w ctx bytes s state false).world
                (λ st same. SameGroup-HasChecked checked same)
                (on_option-Safe k w ctx bytes state s)))
            all)
        (λ absent.
          Rewrites-AllGroups HasChecked ctx.sk
            (on_option-Fresh k (created_world k w ctx s) ctx bytes _
              (init-HasChecked k w ctx bytes s) s)
            (created-AllChecked s))
        (λ err _. all)

  -- If every group has a dissector that the hook accepts, this is so after any setsockopt: a dissector
  -- that is refused is not left behind, neither in a new group nor in an old one.
  pub setsockopt-HasChecked : AllGroups HasChecked (setsockopt k w ctx).world
  setsockopt-HasChecked =
      setsockopt_cases AllChecked k w ctx (λ _. all) (λ _ _. all)
        (λ bytes s _. with_state-AllChecked bytes s)
