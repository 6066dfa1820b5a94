-- ===== src/Storage.antt =====
-- The data that the eBPF programs and the daemon share: include/udpgrm.h,
-- include/udpgrm_internal.h, ebpf/ebpf_internal.h, and the access to it in ebpf/ebpf.c.
-- Fixed arrays are functions of the index, which the code always reduces first. The hash map of
-- reuseport groups is an association list; the other maps are functions of their key.
pub mod Counters
pub mod Helpers
pub mod Config
pub mod Identity
use Counters
use Counters.{Metric}
use Helpers.{Kernel, BpfSock, af_inet, af_inet6}
use Config.{Dissector, zero_dissector}
use udpgrm.Base.{
  ℕ, ◌+◌, ◌%◌, ◌^◌, ◌≡◌, refl, ◌↔◌, Bool, true, false, ◌&&◌, Option, none, some, List, [], ◌∷◌,
  ◌++◌, ℤ, eqℤ, pos, Key, lookup, insert, ◌==◌, if◌then◌else◌, u64, arith,
}

-- struct reuseport_storage_key; `src_ip4` is the first word of the address.
pub record SockKey : Type 0 where
  pub family : ℕ
  pub src_port : ℕ
  pub ip0 : ℕ
  pub ip1 : ℕ
  pub ip2 : ℕ
  pub ip3 : ℕ

abbrev pub sock_key_eqb : SockKey → SockKey → Bool
sock_key_eqb a b =
    a.family == b.family
    && a.src_port == b.src_port
    && a.ip0 == b.ip0
    && a.ip1 == b.ip1
    && a.ip2 == b.ip2
    && a.ip3 == b.ip3

pub sock_key_eqb_iff : (a b : SockKey) → (sock_key_eqb a b ≡ true) ↔ (a ≡ b)
sock_key_eqb_iff a b = ground arith

instance abbrev pub sock_key : Key SockKey
sock_key = record { eqb = sock_key_eqb; eqb_iff = sock_key_eqb_iff }

-- struct reuseport_storage
pub record ReuseportStorage : Type 0 where
  pub verbose : Bool
  pub netns_cookie : ℕ
  pub random_id : ℕ
  pub dis : Dissector
  pub working_gen : ℕ → ℕ
  pub max_idx : ℕ → ℕ
  pub cookies : ℕ → ℕ → ℕ
  pub metrics : Metric → ℕ

-- static struct reuseport_storage empty_state = {}
abbrev pub empty_state : ReuseportStorage
empty_state = record {
  verbose = false;
  netns_cookie = 0;
  random_id = 0;
  dis = zero_dissector;
  working_gen = λ _. 0;
  max_idx = λ _. 0;
  cookies = λ _ _. 0;
  metrics = λ _. 0;
}

-- struct socket_storage
pub record SocketStorage : Type 0 where
  pub sock_gen : ℕ
  pub sock_idx : ℕ
  pub sock_app : ℕ
  pub so_cookie : ℕ
  pub netns_cookie : ℕ

-- struct lru_value
pub record LruValue : Type 0 where
  pub last_tx_ns : ℕ
  pub cookie : ℕ

-- struct msg_value, without MSG_LOG: MSG_* go to the daemon, GSM_* come from it.
pub data Msg : Type 0 where
  register_socket : SockKey → ℕ → ℕ → ℕ → ℕ → Msg
  set_working_gen : SockKey → ℕ → ℕ → Msg
  set_dissector : SockKey → ℕ → Msg
  set_cookies : SockKey → ℕ → ℕ → ℕ → ℕ → Msg
  set_socket_critical_gauge : SockKey → ℤ → Msg
  incr_socket_critical : SockKey → ℤ → Msg

-- The maps: reuseport_storage_map, sk_storage_map, lru_map and msg_rb.
pub record World : Type 0 where
  pub groups : List (SockKey × ReuseportStorage)
  pub sockets : ℕ → Option SocketStorage
  pub flows : ℕ → Option LruValue
  pub ring : List Msg

-- METRIC_INC
unfoldable pub metric_inc : Metric → ReuseportStorage → ReuseportStorage
unfolding Counters.index
metric_inc token state = record state {
  metrics = λ m.
      if Counters.index m == Counters.index token
      then u64 (state.metrics m + 1)
      else state.metrics m;
}

-- _skey_from_bpf_sock
unfoldable pub skey_from_bpf_sock : BpfSock → SockKey
skey_from_bpf_sock sk =
    let family = sk.family % 2 ^ 8 in
    let port = sk.src_port % 2 ^ 16 in
    if sk.family == af_inet
    then record { family = family; src_port = port; ip0 = sk.src_ip4; ip1 = 0; ip2 = 0; ip3 = 0 }
    else if sk.family == af_inet6
    then record {
      family = family;
      src_port = port;
      ip0 = sk.src_ip6_0;
      ip1 = sk.src_ip6_1;
      ip2 = sk.src_ip6_2;
      ip3 = sk.src_ip6_3;
    }
    else record { family = family; src_port = port; ip0 = 0; ip1 = 0; ip2 = 0; ip3 = 0 }

-- get_state(sk, 0, NULL)
unfoldable pub find_state : World → BpfSock → Option ReuseportStorage
find_state w sk = lookup (skey_from_bpf_sock sk) w.groups

-- A write through the pointer that get_state returned.
unfoldable pub put_state : World → BpfSock → ReuseportStorage → World
put_state w sk state = record w { groups = insert (skey_from_bpf_sock sk) state w.groups }

-- get_state(sk, 1, &created): the maps after it, the group (NULL is `none`) and `created`.
unfoldable pub create_state : Kernel → World → BpfSock → World × Option ReuseportStorage × Bool
unfolding find_state put_state
create_state k w sk = elim (find_state w sk) [
  | some state ↦ (w, some state, false)
  | none ↦
      if eqℤ k.update_group (pos 0)
      then (put_state w sk empty_state, some empty_state, true)
      else (w, none, true)
]

-- bpf_ringbuf_submit
unfoldable pub submit : Msg → World → World
submit event w = record w { ring = w.ring ++ event ∷ [] }
