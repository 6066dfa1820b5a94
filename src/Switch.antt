-- ===== src/Switch.antt =====
-- The switch to another generation (ebpf/ebpf.c): after setsockopt(UDP_GRM_WORKING_GEN) new flows go
-- to the sockets of the generation that it names.
use udpgrm.Base.{
  ℕ, ◌≤◌, ◌≡◌, refl, List, true, false, Option, none, some, pos, minus_one, eqℤ, ◌==◌, ==-refl, ◌%◌,
  length, take, u32_at, lookup, insert, lookup-insert_self, ap, ◌∙◌, if◌then◌else◌,
}
use udpgrm.Cookie.{max_gens, max_sockets_in_gen, max_apps, to_wrk_gen}
use udpgrm.Storage.{
  World, ReuseportStorage, SocketStorage, LruValue, set_working_gen, find_state, put_state,
  create_state, submit, skey_from_bpf_sock, metric_inc, sock_key,
}
use udpgrm.Storage.Counters.{rx_dissected_ok_total, rx_processed_total, rx_flow_new_unseen}
use udpgrm.Storage.Helpers.{Kernel, Packet}
use udpgrm.Storage.Config.{type_of, type_flow, type_noop}
use udpgrm.Hook.{BpfSockopt, Outcome, accept, is_ours, udp_grm_working_gen}
use udpgrm.Sockopt.{setsockopt, with_value, with_socket, with_state, on_option, on_working_gen}
use udpgrm.Sockopt.Enrol.{reaches_value, some-copied_size, u32_at-take}
use udpgrm.Flow.{dissector_flow}
use udpgrm.Reuseport.{
  Bespoke, receive, parse, dispatch, by_hash, third_stage, working_slot, reuseport_prog,
}

-- The group after the switch of the app to the generation.
abbrev pub switched : ReuseportStorage → ℕ → ℕ → ReuseportStorage
switched state app_idx gen = record state {
  working_gen = λ i. if i == app_idx then gen else state.working_gen i;
}

module _ (k : Kernel) (w : World) (ctx : BpfSockopt) (state : ReuseportStorage)
    (s : SocketStorage) where
  -- The outcome of the switch: the group, the message, and success.
  abbrev pub switch_done : ℕ → Outcome
  switch_done gen =
      accept
        (submit (set_working_gen (skey_from_bpf_sock ctx.sk) (s.sock_app % max_apps) gen)
          (put_state w ctx.sk (switched state (s.sock_app % max_apps) gen)))
        ctx

  reaches_working_gen :
      (bytes : List ℕ)
      → ctx.optname ≡ udp_grm_working_gen
      → w.sockets ctx.sk.id ≡ some s
      → find_state w ctx.sk ≡ some state
      → state.netns_cookie ≡ s.netns_cookie
      → with_socket k w ctx bytes (w.sockets ctx.sk.id) ≡ on_working_gen k w ctx bytes s state
  unfolding with_socket create_state with_state on_option
  reaches_working_gen bytes name bound found netns =
      rw (bound, with_socket, found, create_state, netns, ==-refl s.netns_cookie, name) refl

  on_working_gen-switch_done :
      (bytes : List ℕ)
      → k.reserve ≡ true
      → on_working_gen k w ctx bytes s state ≡ switch_done (u32_at bytes 0)
  unfolding on_working_gen
  on_working_gen-switch_done bytes room = simp room

  setsockopt-switch_done :
      is_ours ctx ≡ true
      → ctx.optname ≡ udp_grm_working_gen
      → eqℤ ctx.optlen minus_one ≡ false
      → ctx.retval ≡ pos 0
      → k.percpu_page ≡ true
      → k.reserve ≡ true
      → 4 ≤ length ctx.optval
      → w.sockets ctx.sk.id ≡ some s
      → find_state w ctx.sk ≡ some state
      → state.netns_cookie ≡ s.netns_cookie
      → setsockopt k w ctx ≡ switch_done (u32_at ctx.optval 0)
  unfolding with_value
  setsockopt-switch_done ours name first fine page room long bound found netns =
      let (size, e, h) = some-copied_size (length ctx.optval) long in
      reaches_value k w ctx state s ours first fine page
      ∙ ap (with_value k w ctx) e
      ∙ reaches_working_gen (take size ctx.optval) name bound found netns
      ∙ on_working_gen-switch_done (take size ctx.optval) room
      ∙ ap switch_done (u32_at-take size ctx.optval h)

-- A packet of a new flow: the dissector is NOOP, or FLOW with a readable header and no entry.
pub data IsNew (md : Packet) (flows : ℕ → Option LruValue) (state : ReuseportStorage) : Type 0 where
  noop : type_of state.dis.dissector_type ≡ type_noop → IsNew md flows state
  unseen :
      (hash : ℕ)
      → type_of state.dis.dissector_type ≡ type_flow
      → dissector_flow md state.random_id ≡ some hash
      → flows hash ≡ none
      → IsNew md flows state

module _ (bespoke : Bespoke) (k : Kernel) (md : Packet) (flows : ℕ → Option LruValue) where
  third_stage-selected :
      (s : ReuseportStorage) (c : ℕ)
      → working_slot s 0 md.hash ≡ c
      → k.select_reuseport c ≡ pos 0
      → (third_stage k md s 0).selected ≡ some c
  unfolding third_stage
  third_stage-selected s c e sel = rw (e, sel) refl

  -- The state in which the third stage starts.
  abbrev at_third : ReuseportStorage → ReuseportStorage
  at_third state =
      metric_inc rx_flow_new_unseen
        (metric_inc rx_dissected_ok_total (metric_inc rx_processed_total state))

  -- A new flow goes to a socket of the working generation of app 0.
  receive-IsNew :
      (state : ReuseportStorage)
      → IsNew md flows state
      → k.select_reuseport (working_slot state 0 md.hash) ≡ pos 0
      → (receive bespoke k md flows state).selected ≡ some (working_slot state 0 md.hash)
  unfolding receive parse dispatch by_hash metric_inc working_slot
  receive-IsNew state (noop t) sel =
      rw t (third_stage-selected (at_third state) (working_slot state 0 md.hash) refl sel)
  receive-IsNew state (unseen hash t d e) sel =
      rw (t, d, e) (third_stage-selected (at_third state) (working_slot state 0 md.hash) refl sel)

-- A call setsockopt(UDP_GRM_WORKING_GEN) for app 0 that is not turned away: no other hook ran, the
-- generation is there, the socket is bound, its group is there and of the same network namespace,
-- and the ring has room.
pub record Switches (k : Kernel) (w : World) (ctx : BpfSockopt) (state : ReuseportStorage)
    (s : SocketStorage) : Type 0 where
  pub ours : is_ours ctx ≡ true
  pub name : ctx.optname ≡ udp_grm_working_gen
  pub first : eqℤ ctx.optlen minus_one ≡ false
  pub fine : ctx.retval ≡ pos 0
  pub page : k.percpu_page ≡ true
  pub room : k.reserve ≡ true
  pub size : 4 ≤ length ctx.optval
  pub bound : w.sockets ctx.sk.id ≡ some s
  pub found : find_state w ctx.sk ≡ some state
  pub netns : state.netns_cookie ≡ s.netns_cookie
  pub app : s.sock_app % max_apps ≡ 0

-- The socket cookie for a packet hash in the slots of a generation of app 0.
abbrev pub slot_in : ReuseportStorage → ℕ → ℕ → ℕ
slot_in state gen hash =
    let g = to_wrk_gen state.dis.max_apps 0 gen % max_gens in
    state.cookies g (hash % state.max_idx g % max_sockets_in_gen)

module _ (k : Kernel) (w : World) (ctx : BpfSockopt) (state : ReuseportStorage)
    (s : SocketStorage) where
  setsockopt-Switches :
      Switches k w ctx state s
      → setsockopt k w ctx ≡ switch_done k w ctx state s (u32_at ctx.optval 0)
  setsockopt-Switches q =
      setsockopt-switch_done k w ctx state s q.ours q.name q.first q.fine q.page q.room q.size
        q.bound q.found q.netns

  flows-switched : Switches k w ctx state s → (setsockopt k w ctx).world.flows ≡ w.flows
  unfolding put_state submit
  flows-switched q = ap (λ (r : Outcome). r.world.flows) (setsockopt-Switches q)

  find_state-switched :
      (md : Packet)
      → Switches k w ctx state s
      → skey_from_bpf_sock md.sk ≡ skey_from_bpf_sock ctx.sk
      → find_state (setsockopt k w ctx).world md.sk ≡ some (switched state 0 (u32_at ctx.optval 0))
  unfolding find_state put_state submit
  find_state-switched md q same =
      ap (λ (r : Outcome). lookup (skey_from_bpf_sock md.sk) r.world.groups) (setsockopt-Switches q)
      ∙ ap
          (λ x. lookup x (
            insert (skey_from_bpf_sock ctx.sk)
              (switched state (s.sock_app % max_apps) (u32_at ctx.optval 0)) w.groups))
          same
      ∙ lookup-insert_self (skey_from_bpf_sock ctx.sk) _ w.groups
      ∙ ap (λ x. some (switched state x (u32_at ctx.optval 0))) q.app

-- The switch makes no flow an old one.
IsNew-switched :
    {md : Packet} {flows flows' : ℕ → Option LruValue} {state : ReuseportStorage} (app_idx gen : ℕ)
    → flows' ≡ flows
    → IsNew md flows state
    → IsNew md flows' (switched state app_idx gen)
IsNew-switched app_idx gen same (noop t) = noop t
IsNew-switched app_idx gen same (unseen hash t d e) = unseen hash t d (ap (λ f. f hash) same ∙ e)

-- After setsockopt(UDP_GRM_WORKING_GEN) for app 0, a packet of a new flow of the group (NOOP, or FLOW
-- with no entry for it) is sent to the socket that its hash picks among the slots of the generation
-- that was set, if the kernel can select this socket.
pub switch-IsNew :
    (bespoke : Bespoke) (k k' : Kernel) (w : World) (ctx : BpfSockopt) (md : Packet)
    (state : ReuseportStorage) (s : SocketStorage)
    → Switches k w ctx state s
    → skey_from_bpf_sock md.sk ≡ skey_from_bpf_sock ctx.sk
    → IsNew md w.flows state
    → k'.select_reuseport (slot_in state (u32_at ctx.optval 0) md.hash) ≡ pos 0
    → (reuseport_prog bespoke k' (setsockopt k w ctx).world md).1
      ≡ some (slot_in state (u32_at ctx.optval 0) md.hash)
unfolding reuseport_prog working_slot
switch-IsNew bespoke k k' w ctx md state s q same new sel =
    let gen = u32_at ctx.optval 0 in
    let found = find_state-switched k w ctx state s md q same in
    rw (found, reuseport_prog)
      (receive-IsNew bespoke k' md (setsockopt k w ctx).world.flows (switched state 0 gen)
        (IsNew-switched 0 gen (flows-switched k w ctx state s q) new) sel)
