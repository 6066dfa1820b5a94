-- ===== src/Sockopt/Preserve.antt =====
-- The cgroup/setsockopt hook (ebpf/ebpf.c) and the groups that are there already.
use udpgrm.Base.{
  ℕ, ◌≡◌, ◌≤◌, subst, sym, ==_iff, Bool-cases, refl, ◌⊎◌, inl, inr, true, false, List, if_cases,
  ◌==◌, arith, Option-cases,
}
use udpgrm.Storage.{World, ReuseportStorage, SocketStorage, sock_key}
use udpgrm.Storage.Helpers.{Kernel}
use udpgrm.Storage.Config.{
  Dissector, dissector_at, dissector_same, type_of, type_flow, type_cbpf, type_bespoke, type_noop,
}
use udpgrm.Storage.Identity.{SameGroup, Writes, Writes-map, Rewrites}
use udpgrm.Sockopt.Cases.{on_option_cases}
use udpgrm.Siphash.{IpFlowHash, count_ip_flow_hash}
use udpgrm.Flow.{flow_assure}
use udpgrm.Flow.Assure.{flow_assure-SameGroup}
use udpgrm.Hook.{BpfSockopt, Outcome}
use udpgrm.Sockopt.{
  on_dissector, on_dissector_created, dissector_fails, on_working_gen, on_socket_gen,
  on_dissector_again, on_flow_assure, assure_sockaddr, sockaddr_flow, on_socket_app, on_option,
}

module _ (k : Kernel) (w : World) (ctx : BpfSockopt) (bytes : List ℕ)
    (state : ReuseportStorage) where
  abbrev pub Safe : Outcome → Type 0
  Safe r = Writes (SameGroup state) w ctx.sk r.world

  on_working_gen-Safe : (s : SocketStorage) → Safe (on_working_gen k w ctx bytes s state)
  unfolding on_working_gen
  on_working_gen-Safe s =
      if_cases Safe k.reserve _ _
        (λ _. inr (
          _,
          record {
            dis = refl;
            random_id = refl;
            netns_cookie = refl;
            max_idx = refl;
            cookies = refl;
          },
          refl,
        ))
        (λ _. inl refl)

  on_socket_gen-Safe : (s : SocketStorage) → Safe (on_socket_gen k w ctx bytes s)
  unfolding on_socket_gen
  on_socket_gen-Safe s = ground arith

  on_dissector_again-Safe : (d : Dissector) → Safe (on_dissector_again k w ctx bytes d state)
  unfolding on_dissector_again
  on_dissector_again-Safe d =
      if_cases Safe (dissector_same state.dis d) _ _
        (λ _. inr (
          _,
          record {
            dis = refl;
            random_id = refl;
            netns_cookie = refl;
            max_idx = refl;
            cookies = refl;
          },
          refl,
        ))
        (λ _. inl refl)

  assure_sockaddr-Safe :
      (s : SocketStorage) (flow : IpFlowHash) → Safe (assure_sockaddr k w ctx bytes s state flow)
  unfolding assure_sockaddr
  assure_sockaddr-Safe s flow =
      let same = flow_assure-SameGroup k state s (count_ip_flow_hash flow) w.flows in
      if_cases Safe (flow_assure k state s (count_ip_flow_hash flow) w.flows).assured _ _
        (λ _. inr (_, same, refl)) (λ _. inr (_, same, refl))

  on_flow_assure-Safe : (s : SocketStorage) → Safe (on_flow_assure k w ctx bytes s state)
  unfolding on_flow_assure
  on_flow_assure-Safe s = elim (Option-cases (sockaddr_flow bytes state.random_id)) [
    | inl e ↦
        rw (e, on_flow_assure)
          (if_cases Safe (type_of state.dis.dissector_type == type_flow) _ _ (λ _. inl refl)
            (λ _. inl refl))
    | inr (flow, e) ↦
        rw (e, on_flow_assure)
          (if_cases Safe (type_of state.dis.dissector_type == type_flow) _ _
            (λ _. assure_sockaddr-Safe s flow) (λ _. inl refl))
  ]

  on_socket_app-Safe : (s : SocketStorage) → Safe (on_socket_app k w ctx bytes s state)
  unfolding on_socket_app
  on_socket_app-Safe s = ground arith

  -- On a group that is there every option but leaves it or writes the same group.
  pub on_option-Safe : (s : SocketStorage) → Safe (on_option k w ctx bytes s state false)
  unfolding on_dissector
  on_option-Safe s =
      on_option_cases Safe k w ctx bytes s state false (on_working_gen-Safe s)
        (on_socket_gen-Safe s) (on_dissector_again-Safe (dissector_at bytes))
        (on_flow_assure-Safe s) (on_socket_app-Safe s) (inl refl)

-- A dissector that the hook accepts for a new group. Of DISSECTOR_BESPOKE it demands nothing.
pub data IsChecked (d : Dissector) : Type 0 where
  plain :
      (d.dissector_type ≡ type_flow) ⊎ (d.dissector_type ≡ type_noop)
      → d.filter_len ≡ 0
      → d.max_apps ≡ 0
      → d.bespoke_digest ≡ 0
      → IsChecked d
  program :
      d.dissector_type ≡ type_cbpf
      → 1 ≤ d.filter_len
      → d.filter_len ≤ 64
      → d.max_apps ≤ 4
      → d.bespoke_digest ≡ 0
      → IsChecked d
  bespoke : d.dissector_type ≡ type_bespoke → IsChecked d

abbrev pub HasChecked : ReuseportStorage → Type 0
HasChecked state = IsChecked state.dis

pub SameGroup-HasChecked : {a b : ReuseportStorage} → HasChecked a → SameGroup a b → HasChecked b
SameGroup-HasChecked h same = subst IsChecked (sym same.dis) h

-- The copy that the hook stores has the flags taken off its type.
abbrev stored : Dissector → Dissector
stored d = record d { dissector_type = type_of d.dissector_type }

stored-IsChecked : (d : Dissector) → dissector_fails d ≡ false → IsChecked (stored d)
unfolding dissector_fails
stored-IsChecked d h = elim (Bool-cases (kind == type_cbpf)) [
  | inl c ↦ program ((==_iff _ _).0 c) (ground arith) (ground arith) (ground arith) (ground arith)
  | inr nc ↦ elim (Bool-cases (kind == type_bespoke)) [
    | inl b ↦ bespoke ((==_iff _ _).0 b)
    | inr nb ↦ plain (ground arith) (ground arith) (ground arith) (ground arith)
  ]
]
  where
    kind : ℕ
    kind = type_of d.dissector_type

module _ (k : Kernel) (w : World) (ctx : BpfSockopt) (bytes : List ℕ) (state : ReuseportStorage)
    (checked : HasChecked state) where
  abbrev pub Fresh : Outcome → Type 0
  Fresh r = Rewrites HasChecked w ctx.sk r.world

  Safe-Fresh : (w' : World) → Writes (SameGroup state) w ctx.sk w' → Rewrites HasChecked w ctx.sk w'
  Safe-Fresh w' h = inl (Writes-map w ctx.sk w' (λ st same. SameGroup-HasChecked checked same) h)

  on_dissector_created-Fresh : (d : Dissector) → Fresh (on_dissector_created k w ctx bytes d state)
  unfolding on_dissector_created
  on_dissector_created-Fresh d =
      if_cases Fresh (dissector_fails d) _ _ (λ _. inr refl)
        (λ fine.
          if_cases Fresh k.reserve _ _ (λ _. inl (inr (_, stored-IsChecked d fine, refl)))
            (λ _. inl (inl refl)))

  -- On a new group an option leaves it, writes a group with a checked dissector, or deletes it.
  pub on_option-Fresh : (s : SocketStorage) → Fresh (on_option k w ctx bytes s state true)
  unfolding on_dissector
  on_option-Fresh s =
      on_option_cases Fresh k w ctx bytes s state true
        (Safe-Fresh (on_working_gen k w ctx bytes s state).world
          (on_working_gen-Safe k w ctx bytes state s))
        (Safe-Fresh (on_socket_gen k w ctx bytes s).world
          (on_socket_gen-Safe k w ctx bytes state s))
        (on_dissector_created-Fresh (dissector_at bytes))
        (Safe-Fresh (on_flow_assure k w ctx bytes s state).world
          (on_flow_assure-Safe k w ctx bytes state s))
        (Safe-Fresh (on_socket_app k w ctx bytes s state).world
          (on_socket_app-Safe k w ctx bytes state s))
        (inl (inl refl))
