-- ===== src/Hook.antt =====
-- What the two sockopt hooks share (ebpf/ebpf.c): the option names of include/udpgrm.h, the context
-- that the kernel passes, the outcome, and the tests on entry.
use udpgrm.Base.{ℕ, Bool, ◌&&◌, List, ℤ, neg, pos, minus_one, above, leb, ◌==◌, if◌then◌else◌}
use udpgrm.Storage.{World, sock_key}
use udpgrm.Storage.Helpers.{BpfSock, ipproto_udp}

abbrev pub udp_grm_working_gen : ℕ
udp_grm_working_gen = 200

abbrev pub udp_grm_socket_gen : ℕ
udp_grm_socket_gen = 201

abbrev pub udp_grm_dissector : ℕ
udp_grm_dissector = 202

abbrev pub udp_grm_flow_assure : ℕ
udp_grm_flow_assure = 203

abbrev pub udp_grm_socket_app : ℕ
udp_grm_socket_app = 204

-- -1 as a uint32_t: no generation, no index yet
abbrev pub unset : ℕ
unset = 0xffff_ffff

abbrev pub eperm : ℕ
eperm = 1

abbrev pub ebadf : ℕ
ebadf = 9

abbrev pub eagain : ℕ
eagain = 11

abbrev pub efault : ℕ
efault = 14

abbrev pub eexist : ℕ
eexist = 17

abbrev pub eoverflow : ℕ
eoverflow = 75

abbrev pub ebadfd : ℕ
ebadfd = 77

abbrev pub enoprotoopt : ℕ
enoprotoopt = 92

abbrev pub enobufs : ℕ
enobufs = 105

-- struct bpf_sockopt; `optval` holds the bytes up to optval_end, and `retval` is bpf_get_retval().
pub record BpfSockopt : Type 0 where
  pub sk : BpfSock
  pub level : ℕ
  pub optname : ℕ
  pub optlen : ℤ
  pub optval : List ℕ
  pub retval : ℤ

-- What a hook leaves: the maps, ctx->optlen, the bytes of optval, the retval that it set, and its
-- return value, 1 to go on and 0 to refuse.
pub record Outcome : Type 0 where
  pub world : World
  pub optlen : ℤ
  pub optval : List ℕ
  pub retval : ℤ
  pub ret : ℕ

-- bpf_set_retval(-err); return 0;
abbrev pub deny : World → BpfSockopt → ℕ → Outcome
deny w ctx err = record {
  world = w;
  optlen = ctx.optlen;
  optval = ctx.optval;
  retval = neg err;
  ret = 0;
}

-- ctx->optlen = -1; bpf_set_retval(0); return 1;
abbrev pub accept : World → BpfSockopt → Outcome
accept w ctx = record {
  world = w;
  optlen = minus_one;
  optval = ctx.optval;
  retval = pos 0;
  ret = 1;
}

-- return 1; with nothing set
abbrev pub leave : World → BpfSockopt → ℤ → Outcome
leave w ctx optlen = record {
  world = w;
  optlen = optlen;
  optval = ctx.optval;
  retval = ctx.retval;
  ret = 1;
}

-- Whether the option is one of udpgrm's.
abbrev pub is_ours : BpfSockopt → Bool
is_ours ctx = ctx.level == ipproto_udp && (leb 200 ctx.optname && leb ctx.optname 204)

-- The pass-through: an option value above a page is not looked at.
abbrev pub pass_thru : World → BpfSockopt → Outcome
pass_thru w ctx = leave w ctx (if above 4096 ctx.optlen then pos 0 else ctx.optlen)

-- The errno values with which udpgrm_setsockopt refuses a call.
pub data IsErrno : ℕ → Type 0 where
  is_eperm : IsErrno eperm
  is_ebadf : IsErrno ebadf
  is_eagain : IsErrno eagain
  is_efault : IsErrno efault
  is_eexist : IsErrno eexist
  is_eoverflow : IsErrno eoverflow
  is_enobufs : IsErrno enobufs
