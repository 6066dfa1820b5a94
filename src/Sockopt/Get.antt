-- ===== src/Sockopt/Get.antt =====
-- The cgroup/getsockopt hook (ebpf/ebpf.c).
use udpgrm.Base.{
  ℕ, ◌%◌, Option, none, some, List, ◌++◌, pos, neg, eqℤ, leb, ◌==◌, if◌then◌else◌, length, take,
  drop, replicate, le32,
}
use udpgrm.Cookie.{max_apps, grm_cookie_pack, to_wrk_gen}
use udpgrm.Storage.{World, ReuseportStorage, SocketStorage, find_state}
use udpgrm.Storage.Helpers.{Kernel}
use udpgrm.Storage.Config.{dissector_bytes}
use udpgrm.Hook.{
  BpfSockopt, Outcome, deny, leave, pass_thru, is_ours, unset, eperm, efault, ebadfd, enobufs,
  enoprotoopt, udp_grm_working_gen, udp_grm_socket_gen, udp_grm_dissector, udp_grm_socket_app,
}

-- The start of the zeroed page that a handler filled, or its errno.
pub data Answer : Type 0 where
  reply : List ℕ → Answer
  refuse : ℕ → Answer

-- UDP_GRM_WORKING_GEN
unfoldable pub get_working_gen : Option ReuseportStorage → Option SocketStorage → Answer
get_working_gen none s = reply (le32 unset)
get_working_gen (some state) none = reply (le32 (state.working_gen 0))
get_working_gen (some state) (some s) = reply (le32 (state.working_gen (s.sock_app % max_apps)))

-- The number of apps of a group, 0 where there is none.
abbrev pub apps_of : Option ReuseportStorage → ℕ
apps_of none = 0
apps_of (some state) = state.dis.max_apps

-- UDP_GRM_SOCKET_GEN: struct udp_grm_socket_gen, the udpgrm cookie of the socket at its end
unfoldable pub get_socket_gen : Option ReuseportStorage → Option SocketStorage → Answer
get_socket_gen state none = refuse ebadfd
get_socket_gen state (some s) =
    let gen = to_wrk_gen (apps_of state) s.sock_app s.sock_gen in
    reply (le32 s.sock_gen ++ le32 s.sock_idx ++ grm_cookie_pack gen s.sock_idx)

-- UDP_GRM_DISSECTOR
unfoldable pub get_dissector : Option ReuseportStorage → Answer
get_dissector none = refuse ebadfd
get_dissector (some state) = reply (dissector_bytes state.dis)

-- UDP_GRM_SOCKET_APP
unfoldable pub get_socket_app : Option SocketStorage → Answer
get_socket_app none = refuse ebadfd
get_socket_app (some s) = reply (le32 s.sock_app)

-- The chain of tests on ctx->optname; UDP_GRM_FLOW_ASSURE cannot be read.
unfoldable pub answer : World → BpfSockopt → Answer
unfolding get_working_gen get_socket_gen get_dissector get_socket_app
answer w ctx =
    let state = find_state w ctx.sk in
    let s = w.sockets ctx.sk.id in
    if ctx.optname == udp_grm_working_gen
    then get_working_gen state s
    else if ctx.optname == udp_grm_socket_gen
    then get_socket_gen state s
    else if ctx.optname == udp_grm_dissector
    then get_dissector state
    else if ctx.optname == udp_grm_socket_app
    then get_socket_app s
    else refuse eperm

-- The sizes that are copied out; unlike for setsockopt sockaddr_in6 is not among them.
unfoldable pub answered_size : ℕ → Option ℕ
answered_size n =
    if leb 632 n
    then some 632
    else if leb 376 n
    then some 376
    else if leb 116 n
    then some 116
    else if leb 16 n
    then some 16
    else if leb 12 n
    then some 12
    else if leb 8 n
    then some 8
    else if leb 4 n
    then some 4
    else none

-- The option value after the copy of `size` bytes of the page.
unfoldable pub copy_out : ℕ → List ℕ → List ℕ → List ℕ
copy_out size page optval = take size (page ++ replicate 632 0) ++ drop size optval

unfoldable pub with_size : World → BpfSockopt → List ℕ → Option ℕ → Outcome
unfolding copy_out
with_size w ctx page none = deny w ctx efault
with_size w ctx page (some size) = record {
  world = w;
  optlen = ctx.optlen;
  optval = copy_out size page ctx.optval;
  retval = pos 0;
  ret = 1;
}

unfoldable pub with_answer : World → BpfSockopt → Answer → Outcome
unfolding with_size answered_size
with_answer w ctx (reply page) = with_size w ctx page (answered_size (length ctx.optval))
with_answer w ctx (refuse err) = deny w ctx err

-- udpgrm_getsockopt. The hook runs after the kernel, which does not know these options.
unfoldable pub getsockopt : Kernel → World → BpfSockopt → Outcome
unfolding answer with_answer
getsockopt k w ctx =
    if is_ours ctx
    then if eqℤ ctx.retval (neg enoprotoopt)
      then if k.percpu_page then with_answer w ctx (answer w ctx) else deny w ctx enobufs
      else leave w ctx ctx.optlen
    else pass_thru w ctx
