-- ===== src/Bind.antt =====
-- The cgroup/bind hooks (ebpf/ebpf.c), which give each UDP socket with SO_REUSEPORT its storage.
use udpgrm.Base.{ℕ, Bool, false, not, ◌&&◌, Option, none, some, ◌==◌, if◌then◌else◌}
use udpgrm.Storage.{World, SocketStorage}
use udpgrm.Storage.Helpers.{af_inet, af_inet6, ipproto_udp}
use udpgrm.Flow.{BpfSockAddr}
use udpgrm.Hook.{unset}
use udpgrm.Sockopt.{put_socket}

-- The answers of the helpers: the value of SO_REUSEPORT or an error, whether a socket without
-- storage can be given one, and the cookies of the socket and of its namespace.
pub record BindHelpers : Type 0 where
  pub reuseport : Option ℕ
  pub can_create : Bool
  pub socket_cookie : ℕ
  pub netns_cookie : ℕ

-- bpf_sk_storage_get(…, BPF_LOCAL_STORAGE_GET_F_CREATE): what is there, or zeroes.
unfoldable pub storage_or_new : BindHelpers → Option SocketStorage → Option SocketStorage
storage_or_new h (some s) = some s
storage_or_new h none =
    if h.can_create
    then some (record { sock_gen = 0; sock_idx = 0; sock_app = 0; so_cookie = 0; netns_cookie = 0 })
    else none

unfoldable pub bind_storage : BindHelpers → World → BpfSockAddr → Option SocketStorage → World
unfolding put_socket
bind_storage h w ctx none = w
bind_storage h w ctx (some s) = put_socket w ctx.sk (record s {
  sock_gen = unset;
  sock_idx = unset;
  so_cookie = h.socket_cookie;
  netns_cookie = h.netns_cookie;
})

-- Whether SO_REUSEPORT was read and is on.
unfoldable pub wants_reuseport : BindHelpers → Bool
wants_reuseport h = elim h.reuseport [ none ↦ false | some v ↦ not (v == 0) ]

-- _bpf_bind, which always returns 1
unfoldable pub bpf_bind : BindHelpers → World → BpfSockAddr → World
unfolding storage_or_new bind_storage wants_reuseport
bpf_bind h w ctx =
    if not (ctx.user_family == af_inet) && not (ctx.user_family == af_inet6)
    then w
    else if not (ctx.protocol == ipproto_udp)
    then w
    else if wants_reuseport h
    then bind_storage h w ctx (storage_or_new h (w.sockets ctx.sk.id))
    else w
