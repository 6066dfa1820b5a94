-- ===== src/Sockopt.antt =====
-- The cgroup/setsockopt hook (ebpf/ebpf.c): its guards, the copy of the option value, and one
-- handler for each option. Lines of log are left out.
pub mod Cases
pub mod Stored
pub mod Readback
pub mod Get
pub mod Preserve
pub mod Groups
pub mod Replies
pub mod Enrol
use udpgrm.Hook.{
  udp_grm_working_gen, udp_grm_socket_gen, udp_grm_dissector, udp_grm_flow_assure,
  udp_grm_socket_app, unset, eperm, ebadf, eagain, efault, eexist, eoverflow, ebadfd, enoprotoopt,
  enobufs, BpfSockopt, Outcome, deny, accept, leave, is_ours, pass_thru,
}
use udpgrm.Base.{
  ℕ, ◌+◌, ◌%◌, ◌^◌, Bool, true, false, not, ◌&&◌, ◌||◌, Option, none, some, List, ℤ, neg, pos,
  minus_one, eqℤ, above, ltb, leb, ◌==◌, if◌then◌else◌, length, take, u16_at, u32_at, erase,
  bytes_eq,
}
use udpgrm.Cookie.{max_apps}
use udpgrm.Storage.{
  World, ReuseportStorage, SocketStorage, Msg, register_socket, set_working_gen, set_dissector,
  skey_from_bpf_sock, create_state, put_state, submit, sock_key,
}
use udpgrm.Storage.Helpers.{Kernel, BpfSock, af_inet, af_inet6, ipproto_udp}
use udpgrm.Storage.Config.{
  Dissector, type_of, is_verbose, type_flow, type_cbpf, type_bespoke, type_noop, max_instr,
  dissector_at, dissector_same,
}
use udpgrm.Siphash.{IpFlowHash, count_ip_flow_hash}
use udpgrm.Flow.{flow_assure}

-- The first size of the ladder that fits in the option value.
unfoldable pub copied_size : ℕ → Option ℕ
copied_size n =
    if leb 632 n
    then some 632
    else if leb 376 n
    then some 376
    else if leb 116 n
    then some 116
    else if leb 28 n
    then some 28
    else if leb 16 n
    then some 16
    else if leb 12 n
    then some 12
    else if leb 8 n
    then some 8
    else if leb 4 n
    then some 4
    else none

-- A write through the pointer into sk_storage_map.
unfoldable pub put_socket : World → BpfSock → SocketStorage → World
put_socket w sk s = record w { sockets = λ i. if i == sk.id then some s else w.sockets i }

-- The struct that UDP_GRM_FLOW_ASSURE hashes, for sockaddr_in and sockaddr_in6.
unfoldable pub sockaddr_flow : List ℕ → ℕ → Option IpFlowHash
sockaddr_flow bytes group_id =
    let flow : IpFlowHash = record {
      remote_ip0 = 0;
      remote_ip1 = 0;
      remote_ip2 = 0;
      remote_ip3 = 0;
      reuseport_group_id = group_id;
      remote_port = u16_at bytes 2;
    } in
    if u16_at bytes 0 == af_inet
    then some (record flow { remote_ip0 = u32_at bytes 4 })
    else if u16_at bytes 0 == af_inet6
    then some (record flow {
      remote_ip0 = u32_at bytes 8;
      remote_ip1 = u32_at bytes 12;
      remote_ip2 = u32_at bytes 16;
      remote_ip3 = u32_at bytes 20;
    })
    else none

-- Whether a new group refuses the dissector; the branch of DISSECTOR_BESPOKE only sets `fail`
-- to the 0 that it has.
unfoldable pub dissector_fails : Dissector → Bool
dissector_fails d =
    let kind = type_of d.dissector_type in
    if kind == type_flow || kind == type_noop
    then not (d.filter_len == 0) || not (d.max_apps == 0) || not (d.bespoke_digest == 0)
    else if kind == type_cbpf
    then ltb d.filter_len 1
      || ltb max_instr d.filter_len
      || ltb max_apps d.max_apps
      || not (d.bespoke_digest == 0)
    else not (kind == type_bespoke)

module _ (k : Kernel) (w : World) (ctx : BpfSockopt) (bytes : List ℕ) where
  -- UDP_GRM_WORKING_GEN
  unfoldable pub on_working_gen : SocketStorage → ReuseportStorage → Outcome
  unfolding put_state submit
  on_working_gen s state =
      let app_idx = s.sock_app % max_apps in
      let gen = u32_at bytes 0 in
      if k.reserve
      then accept
          (submit (set_working_gen (skey_from_bpf_sock ctx.sk) app_idx gen) (
            put_state w ctx.sk (record state {
              working_gen = λ i. if i == app_idx then gen else state.working_gen i;
            })))
          ctx
      else deny w ctx eagain

  -- UDP_GRM_SOCKET_GEN
  unfoldable pub on_socket_gen : SocketStorage → Outcome
  unfolding put_socket submit
  on_socket_gen s =
      let gen = u32_at bytes 0 in
      if not (s.sock_gen == gen) || s.sock_idx == unset
      then if k.reserve
        then accept
            (submit (register_socket (skey_from_bpf_sock ctx.sk) k.pid s.so_cookie gen s.sock_app)
              (put_socket w ctx.sk (record s { sock_gen = gen })))
            ctx
        else deny w ctx eagain
      else accept w ctx

  unfoldable pub assure_sockaddr : SocketStorage → ReuseportStorage → IpFlowHash → Outcome
  unfolding flow_assure put_state
  assure_sockaddr s state flow =
      let r = flow_assure k state s (count_ip_flow_hash flow) w.flows in
      let w' = record (put_state w ctx.sk r.state) { flows = r.flows } in
      if r.assured then accept w' ctx else deny w' ctx eexist

  -- UDP_GRM_FLOW_ASSURE
  unfoldable pub on_flow_assure : SocketStorage → ReuseportStorage → Outcome
  unfolding assure_sockaddr sockaddr_flow type_of
  on_flow_assure s state =
      if type_of state.dis.dissector_type == type_flow
      then elim (sockaddr_flow bytes state.random_id) [
        | none ↦ deny w ctx eperm
        | some flow ↦ assure_sockaddr s state flow
      ]
      else deny w ctx eperm

  -- UDP_GRM_SOCKET_APP
  unfoldable pub on_socket_app : SocketStorage → ReuseportStorage → Outcome
  unfolding put_socket
  on_socket_app s state =
      let app = u32_at bytes 0 in
      if s.sock_app == app
      then accept w ctx
      else if not (s.sock_gen == unset) || not (s.sock_idx == unset)
      then deny w ctx eexist
      else if leb state.dis.max_apps app
      then deny w ctx eoverflow
      else accept (put_socket w ctx.sk (record s { sock_app = app })) ctx

  -- UDP_GRM_DISSECTOR on a group that is there already
  unfoldable pub on_dissector_again : Dissector → ReuseportStorage → Outcome
  unfolding dissector_same put_state is_verbose
  on_dissector_again d state =
      if dissector_same state.dis d
      then accept (put_state w ctx.sk (record state { verbose = is_verbose d.dissector_type })) ctx
      else deny w ctx eperm

  -- UDP_GRM_DISSECTOR on the group that this call created
  unfoldable pub on_dissector_created : Dissector → ReuseportStorage → Outcome
  unfolding dissector_fails put_state is_verbose submit
  on_dissector_created d state =
      let skey = skey_from_bpf_sock ctx.sk in
      if dissector_fails d
      then deny (record w { groups = erase skey w.groups }) ctx eperm
      else if k.reserve
      then accept
          (submit (set_dissector skey 0) (
            put_state w ctx.sk (record state {
              verbose = is_verbose d.dissector_type;
              dis = record d { dissector_type = type_of d.dissector_type };
            })))
          ctx
      else deny w ctx eagain

  -- UDP_GRM_DISSECTOR
  unfoldable pub on_dissector : ReuseportStorage → Bool → Outcome
  unfolding on_dissector_again on_dissector_created
  on_dissector state created =
      if created
      then on_dissector_created (dissector_at bytes) state
      else on_dissector_again (dissector_at bytes) state

  -- The chain of tests on ctx->optname.
  unfoldable pub on_option : SocketStorage → ReuseportStorage → Bool → Outcome
  unfolding on_working_gen on_socket_gen on_dissector on_flow_assure on_socket_app
  on_option s state created =
      if ctx.optname == udp_grm_working_gen
      then on_working_gen s state
      else if ctx.optname == udp_grm_socket_gen
      then on_socket_gen s
      else if ctx.optname == udp_grm_dissector
      then on_dissector state created
      else if ctx.optname == udp_grm_flow_assure
      then on_flow_assure s state
      else if ctx.optname == udp_grm_socket_app
      then on_socket_app s state
      else deny w ctx eperm

-- A group that was just created is given its identity and the namespace of the socket.
unfoldable pub init_state : Kernel → SocketStorage → ReuseportStorage → ReuseportStorage
init_state k s state = record state {
  random_id = k.prandom;
  netns_cookie = s.netns_cookie;
  verbose = false;
  dis = record state.dis { dissector_type = type_flow };
}

-- The hook from the group on.
unfoldable pub with_state :
    Kernel → BpfSockopt → List ℕ → SocketStorage → World × Option ReuseportStorage × Bool → Outcome
unfolding init_state put_state
with_state k ctx bytes s (w, none, created) = deny w ctx ebadf
with_state k ctx bytes s (w, some state, true) =
    let state' = init_state k s state in
    on_option k (put_state w ctx.sk state') ctx bytes s state' true
with_state k ctx bytes s (w, some state, false) =
    if state.netns_cookie == s.netns_cookie
    then on_option k w ctx bytes s state false
    else deny w ctx ebadf

-- The hook from the copied option value on.
unfoldable pub with_socket : Kernel → World → BpfSockopt → List ℕ → Option SocketStorage → Outcome
unfolding create_state with_state
with_socket k w ctx bytes none = deny w ctx ebadf
with_socket k w ctx bytes (some s) = with_state k ctx bytes s (create_state k w ctx.sk)

unfoldable pub with_value : Kernel → World → BpfSockopt → Option ℕ → Outcome
unfolding with_socket
with_value k w ctx none = deny w ctx efault
with_value k w ctx (some size) = with_socket k w ctx (take size ctx.optval) (w.sockets ctx.sk.id)

-- udpgrm_setsockopt
unfoldable pub setsockopt : Kernel → World → BpfSockopt → Outcome
unfolding copied_size with_value
setsockopt k w ctx =
    if is_ours ctx
    then if eqℤ ctx.optlen minus_one || not (eqℤ ctx.retval (pos 0))
      then leave w ctx ctx.optlen
      else if k.percpu_page
      then with_value k w ctx (copied_size (length ctx.optval))
      else deny w ctx enobufs
    else pass_thru w ctx
