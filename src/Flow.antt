-- ===== src/Flow.antt =====
-- The flow table (ebpf/ebpf.c): the flow hash of a received packet and of a sent one, the creation
-- and refresh of entries, and the sendmsg hooks.
pub mod Assure
pub mod Account
use udpgrm.Base.{
  ℕ, ◌+◌, ◌*◌, ◌%◌, ◌^◌, Bool, true, false, Option, none, some, List, eqℤ, pos, u8_at, u16_at,
  u32_at, leb, ◌==◌, if◌then◌else◌, u16, u64, sub64,
}
use udpgrm.Storage.{
  World, ReuseportStorage, SocketStorage, LruValue, find_state, put_state, metric_inc,
}
use udpgrm.Storage.Counters.{
  tx_total, tx_flow_create_ok, tx_flow_create_from_expired_ok, tx_flow_create_error,
  tx_flow_update_ok, tx_flow_update_conflict,
}
use udpgrm.Storage.Helpers.{Kernel, BpfSock, Packet, af_inet, af_inet6}
use udpgrm.Storage.Config.{type_of, type_flow, flow_default_timeout_sec}
use udpgrm.Siphash.{IpFlowHash, count_ip_flow_hash}

-- flow_entry_timeout_sec of the group, or the default, as SEC_TO_NSEC of it
unfoldable pub flow_timeout_ns : ReuseportStorage → ℕ
flow_timeout_ns state =
    let sec = state.dis.flow_entry_timeout_sec in
    u64 ((if sec == 0 then flow_default_timeout_sec else sec) * 1_000_000_000)

-- The test by which both directions tell a live entry from an expired one.
unfoldable pub is_live : ReuseportStorage → ℕ → LruValue → Bool
unfolding flow_timeout_ns
is_live state now value = leb (sub64 now value.last_tx_ns) (flow_timeout_ns state)

-- What flow_assure leaves: the group with its counters, the table, and whether it returned 1.
pub record Assured : Type 0 where
  pub state : ReuseportStorage
  pub flows : ℕ → Option LruValue
  pub assured : Bool

abbrev put_flow : (ℕ → Option LruValue) → ℕ → LruValue → ℕ → Option LruValue
put_flow flows hash value h = if h == hash then some value else flows h

-- bpf_map_update_elem(&lru_map, …, BPF_NOEXIST) where it succeeds
abbrev create_flow : Kernel → (ℕ → Option LruValue) → ℕ → LruValue → ℕ → Option LruValue
create_flow k flows hash value h =
    if h == hash then some value else if k.evicted h then none else flows h

-- flow_assure, where the lookup found nothing
unfoldable pub assure_new :
    Kernel → ReuseportStorage → SocketStorage → ℕ → (ℕ → Option LruValue) → Assured
assure_new k state s hash flows =
    if eqℤ k.update_flow (pos 0)
    then record {
      state = metric_inc tx_flow_create_ok state;
      flows = create_flow k flows hash (record { last_tx_ns = k.now; cookie = s.so_cookie });
      assured = true;
    }
    else record { state = metric_inc tx_flow_create_error state; flows = flows; assured = false }

-- flow_assure, where the lookup found `value`
unfoldable pub assure_found :
    Kernel → ReuseportStorage → SocketStorage → ℕ → LruValue → (ℕ → Option LruValue) → Assured
unfolding is_live
assure_found k state s hash value flows =
    if is_live state k.now value
    then if value.cookie == s.so_cookie
      then record {
        state = metric_inc tx_flow_update_ok state;
        flows = put_flow flows hash (record value { last_tx_ns = k.now });
        assured = true;
      }
      else record {
        state = metric_inc tx_flow_update_conflict state;
        flows = flows;
        assured = false;
      }
    else record {
      state = metric_inc tx_flow_create_from_expired_ok (metric_inc tx_flow_create_ok state);
      flows = put_flow flows hash (record { last_tx_ns = k.now_later; cookie = s.so_cookie });
      assured = true;
    }

-- flow_assure
unfoldable pub flow_assure :
    Kernel → ReuseportStorage → SocketStorage → ℕ → (ℕ → Option LruValue) → Assured
unfolding assure_new assure_found
flow_assure k state s hash flows =
    let counted = metric_inc tx_total state in
    elim (flows hash) [
      | none ↦ assure_new k counted s hash flows
      | some value ↦ assure_found k counted s hash value flows
    ]

-- bpf_htons(ETH_P_IP) and bpf_htons(ETH_P_IPV6)
abbrev pub eth_p_ip : ℕ
eth_p_ip = 0x0008

abbrev pub eth_p_ipv6 : ℕ
eth_p_ipv6 = 0xdd86

-- The source address of a packet: 4 bytes at offset 12 of the IPv4 header, or 16 at offset 8 of
-- the IPv6 header.
unfoldable pub remote_address : Packet → Option (List ℕ)
remote_address md =
    if md.eth_protocol == eth_p_ip
    then md.load_net 12 4
    else if md.eth_protocol == eth_p_ipv6
    then md.load_net 8 16
    else none

-- The struct that is hashed, from the address and the port as they stand in memory.
unfoldable pub packet_flow : ℕ → List ℕ → List ℕ → IpFlowHash
packet_flow group_id ip port = record {
  remote_ip0 = u32_at ip 0;
  remote_ip1 = u32_at ip 4;
  remote_ip2 = u32_at ip 8;
  remote_ip3 = u32_at ip 12;
  reuseport_group_id = group_id;
  remote_port = u16_at port 0;
}

-- dissector_flow: the hash, or none where it returns an error.
unfoldable pub dissector_flow : Packet → ℕ → Option ℕ
unfolding remote_address packet_flow
dissector_flow md group_id = elim (remote_address md) [
  | none ↦ none
  | some ip ↦ elim (md.load 0 2) [
    | none ↦ none
    | some port ↦ some (count_ip_flow_hash (packet_flow group_id ip port))
  ]
]

-- struct bpf_sock_addr
pub record BpfSockAddr : Type 0 where
  pub sk : BpfSock
  pub user_family : ℕ
  pub protocol : ℕ
  pub user_ip4 : ℕ
  pub user_ip6_0 : ℕ
  pub user_ip6_1 : ℕ
  pub user_ip6_2 : ℕ
  pub user_ip6_3 : ℕ
  pub user_port : ℕ

-- The struct that _udp_sendmsg hashes.
unfoldable pub sendmsg_flow : BpfSockAddr → ℕ → ℕ → IpFlowHash
sendmsg_flow ctx family group_id =
    let flow : IpFlowHash = record {
      remote_ip0 = 0;
      remote_ip1 = 0;
      remote_ip2 = 0;
      remote_ip3 = 0;
      reuseport_group_id = group_id;
      remote_port = u16 ctx.user_port;
    } in
    if family == af_inet
    then record flow { remote_ip0 = ctx.user_ip4 }
    else if family == af_inet6
    then record flow {
      remote_ip0 = ctx.user_ip6_0;
      remote_ip1 = ctx.user_ip6_1;
      remote_ip2 = ctx.user_ip6_2;
      remote_ip3 = ctx.user_ip6_3;
    }
    else flow

-- _udp_sendmsg with a group and a socket storage at hand
unfoldable pub sendmsg_assure :
    Kernel → World → BpfSockAddr → ℕ → ReuseportStorage → SocketStorage → World
unfolding flow_assure sendmsg_flow put_state
sendmsg_assure k w ctx family state s =
    let r =
      flow_assure k state s (count_ip_flow_hash (sendmsg_flow ctx family state.random_id))
        w.flows in
    record (put_state w ctx.sk r.state) { flows = r.flows }

-- _udp_sendmsg, which always returns 1
unfoldable pub udp_sendmsg : Kernel → World → BpfSockAddr → ℕ → World
unfolding find_state type_of sendmsg_assure
udp_sendmsg k w ctx family = elim (find_state w ctx.sk) [
  | none ↦ w
  | some state ↦
      if type_of state.dis.dissector_type == type_flow
      then elim (w.sockets ctx.sk.id) [ none ↦ w | some s ↦ sendmsg_assure k w ctx family state s ]
      else w
]
