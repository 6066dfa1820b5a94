-- ===== src/Sockopt/Replies.antt =====
-- What the cgroup/setsockopt hook (ebpf/ebpf.c) answers, and what a refusal leaves.
use udpgrm.Base.{
  ℕ, ◌≡◌, refl, inl, inr, List, Bool, true, false, pos, neg, minus_one, ◌==◌, ◌||◌, not, leb,
  u32_at, if_cases, Option-cases,
}
use udpgrm.Storage.{World, ReuseportStorage, SocketStorage, empty_state, put_state}
use udpgrm.Storage.Helpers.{Kernel}
use udpgrm.Storage.Config.{type_of, type_flow, dissector_at, dissector_same}
use udpgrm.Siphash.{IpFlowHash, count_ip_flow_hash}
use udpgrm.Flow.Assure.{fresh, refused, flow_assure-Ends}
use udpgrm.Hook.{BpfSockopt, Outcome, unset, IsErrno, is_eperm, is_eagain, is_eexist, is_eoverflow}
use udpgrm.Sockopt.{
  sockaddr_flow, dissector_fails, on_working_gen, on_socket_gen, assure_sockaddr, on_flow_assure,
  on_socket_app, on_dissector_again, on_dissector_created, on_dissector, on_option, init_state,
  setsockopt,
}
use udpgrm.Sockopt.Cases.{on_option_cases, setsockopt_cases}
use udpgrm.Sockopt.Groups.{created_world, with_state_cases}

-- The two ways in which a call of an option ends. A refusal names its errno, changes no socket and no
-- flow, and sends no message.
pub data Settled (w : World) (r : Outcome) : Type 0 where
  done : r.optlen ≡ minus_one → r.retval ≡ pos 0 → r.ret ≡ 1 → Settled w r
  denied :
      (err : ℕ)
      → IsErrno err
      → r.retval ≡ neg err
      → r.ret ≡ 0
      → r.world.sockets ≡ w.sockets
      → r.world.flows ≡ w.flows
      → r.world.ring ≡ w.ring
      → Settled w r

-- The same, for any call of setsockopt.
pub data Replies (w : World) (ctx : BpfSockopt) (r : Outcome) : Type 0 where
  passed : r.world ≡ w → r.retval ≡ ctx.retval → r.ret ≡ 1 → Replies w ctx r
  settled : Settled w r → Replies w ctx r

module _ (k : Kernel) (w : World) (ctx : BpfSockopt) (bytes : List ℕ) where
  abbrev Ok : Outcome → Type 0
  Ok r = Settled w r

  on_working_gen-Settled :
      (s : SocketStorage) (state : ReuseportStorage) → Ok (on_working_gen k w ctx bytes s state)
  unfolding on_working_gen
  on_working_gen-Settled s state =
      if_cases Ok k.reserve _ _ (λ _. done refl refl refl)
        (λ _. denied _ is_eagain refl refl refl refl refl)

  on_socket_gen-Settled : (s : SocketStorage) → Ok (on_socket_gen k w ctx bytes s)
  unfolding on_socket_gen
  on_socket_gen-Settled s =
      if_cases Ok (not (s.sock_gen == u32_at bytes 0) || s.sock_idx == unset) _ _
        (λ _.
          if_cases Ok k.reserve _ _ (λ _. done refl refl refl)
            (λ _. denied _ is_eagain refl refl refl refl refl))
        (λ _. done refl refl refl)

  on_dissector-Settled :
      (state : ReuseportStorage) (created : Bool) → Ok (on_dissector k w ctx bytes state created)
  unfolding on_dissector on_dissector_again on_dissector_created put_state
  on_dissector-Settled state true =
      if_cases Ok (dissector_fails (dissector_at bytes)) _ _
        (λ _. denied _ is_eperm refl refl refl refl refl)
        (λ _.
          if_cases Ok k.reserve _ _ (λ _. done refl refl refl)
            (λ _. denied _ is_eagain refl refl refl refl refl))
  on_dissector-Settled state false =
      if_cases Ok (dissector_same state.dis (dissector_at bytes)) _ _ (λ _. done refl refl refl)
        (λ _. denied _ is_eperm refl refl refl refl refl)

  -- A flow that is not assured leaves the table.
  assure_sockaddr-Settled :
      (s : SocketStorage) (state : ReuseportStorage) (flow : IpFlowHash)
      → Ok (assure_sockaddr k w ctx bytes s state flow)
  unfolding assure_sockaddr put_state
  assure_sockaddr-Settled s state flow =
      let hash = count_ip_flow_hash flow in
      elim (flow_assure-Ends k s hash state w.flows) [
        | fresh v ok e c t ↦ rw (ok, assure_sockaddr) (done refl refl refl)
        | refused not_ok e ↦ rw (not_ok, assure_sockaddr) (denied _ is_eexist refl refl refl e refl)
      ]

  on_flow_assure-Settled :
      (s : SocketStorage) (state : ReuseportStorage) → Ok (on_flow_assure k w ctx bytes s state)
  unfolding on_flow_assure
  on_flow_assure-Settled s state =
      if_cases Ok (type_of state.dis.dissector_type == type_flow) _ _
        (λ _. elim (Option-cases (sockaddr_flow bytes state.random_id)) [
          | inl e ↦ rw e (denied _ is_eperm refl refl refl refl refl)
          | inr (flow, e) ↦ rw e (assure_sockaddr-Settled s state flow)
        ])
        (λ _. denied _ is_eperm refl refl refl refl refl)

  on_socket_app-Settled :
      (s : SocketStorage) (state : ReuseportStorage) → Ok (on_socket_app k w ctx bytes s state)
  unfolding on_socket_app
  on_socket_app-Settled s state =
      if_cases Ok (s.sock_app == u32_at bytes 0) _ _ (λ _. done refl refl refl)
        (λ _.
          if_cases Ok (not (s.sock_gen == unset) || not (s.sock_idx == unset)) _ _
            (λ _. denied _ is_eexist refl refl refl refl refl)
            (λ _.
              if_cases Ok (leb state.dis.max_apps (u32_at bytes 0)) _ _
                (λ _. denied _ is_eoverflow refl refl refl refl refl) (λ _. done refl refl refl)))

  on_option-Settled :
      (s : SocketStorage) (state : ReuseportStorage) (created : Bool)
      → Ok (on_option k w ctx bytes s state created)
  on_option-Settled s state created =
      on_option_cases Ok k w ctx bytes s state created (on_working_gen-Settled s state)
        (on_socket_gen-Settled s) (on_dissector-Settled state created)
        (on_flow_assure-Settled s state) (on_socket_app-Settled s state)
        (denied _ is_eperm refl refl refl refl refl)

-- A new group changes no socket, no flow and no message.
created-Settled :
    (k : Kernel) (w : World) (ctx : BpfSockopt) (s : SocketStorage) (r : Outcome)
    → Settled (created_world k w ctx s) r
    → Settled w r
unfolding put_state
created-Settled k w ctx s r (done a b c) = done a b c
created-Settled k w ctx s r (denied err e a b x y z) = denied err e a b x y z

-- A call of setsockopt passes through with the maps as they are, or is done (optlen is -1 and retval
-- 0), or is refused with one of seven errno values; a refusal changes no socket storage and no flow,
-- and sends no message.
pub setsockopt-Replies :
    (k : Kernel) (w : World) (ctx : BpfSockopt) → Replies w ctx (setsockopt k w ctx)
setsockopt-Replies k w ctx =
    setsockopt_cases (Replies w ctx) k w ctx (λ optlen. passed refl refl refl)
      (λ err is. settled (denied err is refl refl refl refl refl))
      (λ bytes s _. settled (
        with_state_cases k w ctx bytes s (Settled w)
          (λ state _ _. on_option-Settled k w ctx bytes s state false)
          (λ _. created-Settled k w ctx s _ (
            on_option-Settled k (created_world k w ctx s) ctx bytes s (init_state k s empty_state)
              true))
          (λ err is. denied err is refl refl refl refl refl)))
