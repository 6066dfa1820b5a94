-- ===== src/Machine/Options.antt =====
-- The counters of all groups through the cgroup/setsockopt hook (ebpf/ebpf.c).
use udpgrm.Base.{ℕ, refl, arith, Bool, true, false, List, inl, inr, if_cases, Option-cases, ◌==◌}
use udpgrm.Storage.{
  World, ReuseportStorage, SocketStorage, empty_state, put_state, find_state, skey_from_bpf_sock,
  create_state, sock_key,
}
use udpgrm.Storage.Helpers.{Kernel}
use udpgrm.Storage.Config.{Dissector, dissector_at, dissector_same, type_of, type_flow}
use udpgrm.Storage.Identity.{Rewrites, AllGroups, Rewrites-AllGroups}
use udpgrm.Siphash.{IpFlowHash, count_ip_flow_hash}
use udpgrm.Flow.{flow_assure}
use udpgrm.Hook.{BpfSockopt, Outcome}
use udpgrm.Sockopt.{
  setsockopt, with_state, init_state, on_option, on_working_gen, on_socket_gen, on_dissector,
  on_dissector_again, on_dissector_created, dissector_fails, on_flow_assure, assure_sockaddr,
  sockaddr_flow, on_socket_app,
}
use udpgrm.Sockopt.Cases.{setsockopt_cases, on_option_cases}
use udpgrm.Sockopt.Groups.{with_state_cases, created_world}
use udpgrm.Machine.Counts.{Counted, metrics-Counted, empty_state-Counted, flow_assure-Counted}

module _ (k : Kernel) (w : World) (ctx : BpfSockopt) (bytes : List ℕ) (state : ReuseportStorage)
    (c : Counted state) where
  abbrev Fine : Outcome → Type 0
  Fine r = Rewrites Counted w ctx.sk r.world

  on_working_gen-Fine : (s : SocketStorage) → Fine (on_working_gen k w ctx bytes s state)
  unfolding on_working_gen
  on_working_gen-Fine s =
      if_cases Fine k.reserve _ _ (λ _. inl (inr (_, metrics-Counted state _ refl c, refl)))
        (λ _. inl (inl refl))

  on_socket_gen-Fine : (s : SocketStorage) → Fine (on_socket_gen k w ctx bytes s)
  unfolding on_socket_gen
  on_socket_gen-Fine s = ground arith

  on_dissector_again-Fine : (d : Dissector) → Fine (on_dissector_again k w ctx bytes d state)
  unfolding on_dissector_again
  on_dissector_again-Fine d =
      if_cases Fine (dissector_same state.dis d) _ _
        (λ _. inl (inr (_, metrics-Counted state _ refl c, refl))) (λ _. inl (inl refl))

  on_dissector_created-Fine : (d : Dissector) → Fine (on_dissector_created k w ctx bytes d state)
  unfolding on_dissector_created
  on_dissector_created-Fine d =
      if_cases Fine (dissector_fails d) _ _ (λ _. inr refl)
        (λ _.
          if_cases Fine k.reserve _ _ (λ _. inl (inr (_, metrics-Counted state _ refl c, refl)))
            (λ _. inl (inl refl)))

  assure_sockaddr-Fine :
      (s : SocketStorage) (flow : IpFlowHash) → Fine (assure_sockaddr k w ctx bytes s state flow)
  unfolding assure_sockaddr
  assure_sockaddr-Fine s flow =
      let after = flow_assure-Counted k state s (count_ip_flow_hash flow) w.flows c in
      if_cases Fine (flow_assure k state s (count_ip_flow_hash flow) w.flows).assured _ _
        (λ _. inl (inr (_, after, refl))) (λ _. inl (inr (_, after, refl)))

  on_flow_assure-Fine : (s : SocketStorage) → Fine (on_flow_assure k w ctx bytes s state)
  unfolding on_flow_assure
  on_flow_assure-Fine s = elim (Option-cases (sockaddr_flow bytes state.random_id)) [
    | inl e ↦
        rw (e, on_flow_assure)
          (if_cases Fine (type_of state.dis.dissector_type == type_flow) _ _ (λ _. inl (inl refl))
            (λ _. inl (inl refl)))
    | inr (flow, e) ↦
        rw (e, on_flow_assure)
          (if_cases Fine (type_of state.dis.dissector_type == type_flow) _ _
            (λ _. assure_sockaddr-Fine s flow) (λ _. inl (inl refl)))
  ]

  on_socket_app-Fine : (s : SocketStorage) → Fine (on_socket_app k w ctx bytes s state)
  unfolding on_socket_app
  on_socket_app-Fine s = ground arith

  on_dissector-Fine : (created : Bool) → Fine (on_dissector k w ctx bytes state created)
  unfolding on_dissector
  on_dissector-Fine true = on_dissector_created-Fine (dissector_at bytes)
  on_dissector-Fine false = on_dissector_again-Fine (dissector_at bytes)

  -- An option leaves the group, writes one whose counters balance, or deletes it.
  pub on_option-Fine :
      (s : SocketStorage) (created : Bool) → Fine (on_option k w ctx bytes s state created)
  on_option-Fine s created =
      on_option_cases Fine k w ctx bytes s state created (on_working_gen-Fine s)
        (on_socket_gen-Fine s) (on_dissector-Fine created) (on_flow_assure-Fine s)
        (on_socket_app-Fine s) (inl (inl refl))

module _ (k : Kernel) (w : World) (ctx : BpfSockopt) (all : AllGroups Counted w) where
  abbrev AllCounted : Outcome → Type 0
  AllCounted r = AllGroups Counted r.world

  init-Counted : (s : SocketStorage) → Counted (init_state k s empty_state)
  unfolding init_state
  init-Counted s = metrics-Counted empty_state _ refl empty_state-Counted

  created-AllCounted : (s : SocketStorage) → AllGroups Counted (created_world k w ctx s)
  unfolding put_state
  created-AllCounted s =
      Rewrites-AllGroups Counted {w = put_state w ctx.sk empty_state} ctx.sk
        (inl (inr (init_state k s empty_state, init-Counted s, refl)))
        (Rewrites-AllGroups Counted ctx.sk (inl (inr (empty_state, empty_state-Counted, refl))) all)

  with_state-AllCounted :
      (bytes : List ℕ) (s : SocketStorage)
      → AllCounted (with_state k ctx bytes s (create_state k w ctx.sk))
  unfolding find_state
  with_state-AllCounted bytes s =
      with_state_cases k w ctx bytes s AllCounted
        (λ state found _.
          Rewrites-AllGroups Counted ctx.sk
            (on_option-Fine k w ctx bytes state (all.at (skey_from_bpf_sock ctx.sk) state found) s
              false)
            all)
        (λ _.
          Rewrites-AllGroups Counted ctx.sk
            (on_option-Fine k (created_world k w ctx s) ctx bytes _ (init-Counted s) s true)
            (created-AllCounted s))
        (λ _ _. all)

  pub setsockopt-Counted : AllGroups Counted (setsockopt k w ctx).world
  setsockopt-Counted =
      setsockopt_cases AllCounted k w ctx (λ _. all) (λ _ _. all)
        (λ bytes s _. with_state-AllCounted bytes s)
