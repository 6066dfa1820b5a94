-- ===== src/Sticky.antt =====
-- The two directions of the flow table together (ebpf/ebpf.c): what _udp_sendmsg records is what
-- udpgrm_reuseport_prog finds for the packets of the same remote.
use udpgrm.Base.{
  ℕ, ◌+◌, ◌^◌, ◌≤◌, ◌<◌, ◌≡◌, refl, ap, ◌∙◌, true, Option, some, ◌++◌, pos, le16, le32, arith,
}
use udpgrm.Storage.{World, ReuseportStorage, SocketStorage, LruValue, find_state, metric_inc}
use udpgrm.Storage.Helpers.{Kernel, Packet, af_inet, af_inet6}
use udpgrm.Storage.Config.{type_of, type_flow}
use udpgrm.Storage.Identity.{SameGroup}
use udpgrm.Storage.Counters.{Metric, rx_dissected_ok_total, rx_processed_total}
use udpgrm.Siphash.{IpFlowHash, count_ip_flow_hash}
use udpgrm.Flow.{
  BpfSockAddr, Assured, flow_assure, flow_timeout_ns, is_live, eth_p_ip, eth_p_ipv6, dissector_flow,
  sendmsg_flow, udp_sendmsg, packet_flow,
}
use udpgrm.Flow.Assure.{Ends, fresh, refused, flow_assure-Ends}
use udpgrm.Reuseport.{Bespoke, parse, receive, dispatch, by_hash, have_hash, reuseport_prog}

-- `md` comes from the address to which `ctx` sends: the words of `ctx` are in network byte order,
-- as the header fields of the packet are.
pub data ComesFrom (ctx : BpfSockAddr) (md : Packet) : ℕ → Type 0 where
  v4 :
      (family : ℕ)
      → family ≡ af_inet
      → md.eth_protocol ≡ eth_p_ip
      → ctx.user_ip4 < 2 ^ 32
      → ctx.user_port < 2 ^ 16
      → md.load_net 12 4 ≡ some (le32 ctx.user_ip4)
      → md.load 0 2 ≡ some (le16 ctx.user_port)
      → ComesFrom ctx md family
  v6 :
      (family : ℕ)
      → family ≡ af_inet6
      → md.eth_protocol ≡ eth_p_ipv6
      → ctx.user_ip6_0 < 2 ^ 32
      → ctx.user_ip6_1 < 2 ^ 32
      → ctx.user_ip6_2 < 2 ^ 32
      → ctx.user_ip6_3 < 2 ^ 32
      → ctx.user_port < 2 ^ 16
      → md.load_net 8 16
        ≡ some (
            le32 ctx.user_ip6_0
            ++ le32 ctx.user_ip6_1
            ++ le32 ctx.user_ip6_2
            ++ le32 ctx.user_ip6_3)
      → md.load 0 2 ≡ some (le16 ctx.user_port)
      → ComesFrom ctx md family

flow_eq : {f g : IpFlowHash} → f ≡ g → some (count_ip_flow_hash f) ≡ some (count_ip_flow_hash g)
flow_eq e = ap (λ x. some (count_ip_flow_hash x)) e

module _ (ctx : BpfSockAddr) (md : Packet) (id : ℕ) where
  v4_flow :
      ctx.user_ip4 < 2 ^ 32
      → ctx.user_port < 2 ^ 16
      → packet_flow id (le32 ctx.user_ip4) (le16 ctx.user_port) ≡ sendmsg_flow ctx af_inet id
  unfolding packet_flow sendmsg_flow
  v4_flow a p = ground arith

  v6_flow :
      ctx.user_ip6_0 < 2 ^ 32
      → ctx.user_ip6_1 < 2 ^ 32
      → ctx.user_ip6_2 < 2 ^ 32
      → ctx.user_ip6_3 < 2 ^ 32
      → ctx.user_port < 2 ^ 16
      → packet_flow id
          (le32 ctx.user_ip6_0 ++ le32 ctx.user_ip6_1 ++ le32 ctx.user_ip6_2 ++ le32 ctx.user_ip6_3)
          (le16 ctx.user_port)
        ≡ sendmsg_flow ctx af_inet6 id
  unfolding packet_flow sendmsg_flow
  v6_flow a b c d p = ground arith

  -- A packet from the address and port to which a message was sent has the flow hash that
  -- _udp_sendmsg computed for the message, for IPv4 and for IPv6.
  pub dissector_flow-ComesFrom :
      {family : ℕ}
      → ComesFrom ctx md family
      → dissector_flow md id ≡ some (count_ip_flow_hash (sendmsg_flow ctx family id))
  unfolding dissector_flow
  dissector_flow-ComesFrom (v4 family f e a p la lp) =
      rw (f, e, la, lp, dissector_flow) (flow_eq (v4_flow a p))
  dissector_flow-ComesFrom (v6 family f e a b c d p la lp) =
      rw (f, e, la, lp, dissector_flow) (flow_eq (v6_flow a b c d p))

-- The flow of a message, in the group of its socket.
abbrev pub flow_hash : BpfSockAddr → ℕ → ReuseportStorage → ℕ
flow_hash ctx family state = count_ip_flow_hash (sendmsg_flow ctx family state.random_id)

module _ (k : Kernel) (w : World) (ctx : BpfSockAddr) (family : ℕ) (state : ReuseportStorage)
    (s : SocketStorage) where
  -- With a flow group and a bound socket, a message runs flow_assure.
  pub flows-udp_sendmsg :
      find_state w ctx.sk ≡ some state
      → type_of state.dis.dissector_type ≡ type_flow
      → w.sockets ctx.sk.id ≡ some s
      → (udp_sendmsg k w ctx family).flows
        ≡ (flow_assure k state s (flow_hash ctx family state) w.flows).flows
  unfolding udp_sendmsg
  flows-udp_sendmsg found flow bound = rw (found, flow, bound, udp_sendmsg)

parse-have_hash :
    (bespoke : Bespoke) (md : Packet) (state : ReuseportStorage) {hash : ℕ}
    → type_of state.dis.dissector_type ≡ type_flow
    → dissector_flow md state.random_id ≡ some hash
    → parse bespoke md state ≡ have_hash hash
unfolding parse
parse-have_hash bespoke md state flow d = rw (flow, d, parse)

is_live-metric_inc :
    (m : Metric) (state : ReuseportStorage) (now : ℕ) (value : LruValue)
    → is_live (metric_inc m state) now value ≡ is_live state now value
unfolding is_live metric_inc
is_live-metric_inc m state now value = refl

by_hash-live :
    (k : Kernel) (md : Packet) (state : ReuseportStorage) (value : LruValue)
    → is_live state k.now value ≡ true
    → k.select_reuseport value.cookie ≡ pos 0
    → (by_hash k md state (some value)).selected ≡ some value.cookie
unfolding by_hash
by_hash-live k md state value live sel = ground arith

-- A live entry is followed, if its socket can be selected.
receive-live :
    (bespoke : Bespoke) (k : Kernel) (md : Packet) (flows : ℕ → Option LruValue)
    (state : ReuseportStorage) {hash : ℕ} (value : LruValue)
    → type_of state.dis.dissector_type ≡ type_flow
    → dissector_flow md state.random_id ≡ some hash
    → flows hash ≡ some value
    → is_live state k.now value ≡ true
    → k.select_reuseport value.cookie ≡ pos 0
    → (receive bespoke k md flows state).selected ≡ some value.cookie
unfolding receive dispatch
receive-live bespoke k md flows state value flow d e live sel =
    rw (parse-have_hash bespoke md state flow d, dispatch)
      (rw e (
        by_hash-live k md (metric_inc rx_dissected_ok_total (metric_inc rx_processed_total state))
          value (simp is_live-metric_inc live) sel))

-- An entry is live until the timeout of the group has passed.
is_live-within :
    (state : ReuseportStorage) (now : ℕ) (value : LruValue)
    → value.last_tx_ns ≤ now
    → now < 2 ^ 64
    → now ≤ value.last_tx_ns + flow_timeout_ns state
    → is_live state now value ≡ true
unfolding is_live
is_live-within state now value a b c = ground arith

timeout-SameGroup : {a b : ReuseportStorage} → SameGroup a b → flow_timeout_ns b ≡ flow_timeout_ns a
unfolding flow_timeout_ns
timeout-SameGroup h = rw h.dis

module _ {k : Kernel} {s : SocketStorage} {hash : ℕ} {flows : ℕ → Option LruValue} where
  -- The entry behind a success.
  entry_of :
      {r : Assured}
      → Ends k s hash flows r
      → r.assured ≡ true
      → k.now ≤ k.now_later
      → (value : LruValue) × (r.flows hash ≡ some value)
        × (value.cookie ≡ s.so_cookie)
        × (k.now ≤ value.last_tx_ns)
        × (value.last_tx_ns ≤ k.now_later)
  entry_of (fresh value a e c t) ok h = (value, e, c, ground arith, ground arith)
  entry_of (refused a e) ok h = cc

module _ (bespoke : Bespoke) (k' : Kernel) (w' : World) (md : Packet)
    {state' : ReuseportStorage} where
  reuseport_prog-live :
      {hash : ℕ} (value : LruValue)
      → find_state w' md.sk ≡ some state'
      → type_of state'.dis.dissector_type ≡ type_flow
      → dissector_flow md state'.random_id ≡ some hash
      → w'.flows hash ≡ some value
      → is_live state' k'.now value ≡ true
      → k'.select_reuseport value.cookie ≡ pos 0
      → (reuseport_prog bespoke k' w' md).1 ≡ some value.cookie
  unfolding reuseport_prog
  reuseport_prog-live value found flow d e live sel =
      rw (found, reuseport_prog)
        (receive-live bespoke k' md w'.flows state' value flow d e live sel)

-- When _udp_sendmsg has recorded a message that a bound socket of a flow group sent to `ctx`, a packet
-- of that group from the same remote is sent to this socket, if it comes at most the timeout of the
-- group after the message. The entry at the flow hash must still be the one that the message left,
-- the group must be the same, the clock must not go back, and the kernel must be able to select the
-- socket.
pub reply-Sticky :
    (bespoke : Bespoke) (k k' : Kernel) (w w' : World) (ctx : BpfSockAddr) (family : ℕ)
    (md : Packet) (state state' : ReuseportStorage) (s : SocketStorage)
    → find_state w ctx.sk ≡ some state
    → type_of state.dis.dissector_type ≡ type_flow
    → w.sockets ctx.sk.id ≡ some s
    → (flow_assure k state s (flow_hash ctx family state) w.flows).assured ≡ true
    → ComesFrom ctx md family
    → find_state w' md.sk ≡ some state'
    → SameGroup state state'
    → w'.flows (flow_hash ctx family state)
      ≡ (udp_sendmsg k w ctx family).flows (flow_hash ctx family state)
    → k.now ≤ k.now_later
    → k.now_later ≤ k'.now
    → k'.now < 2 ^ 64
    → k'.now ≤ k.now + flow_timeout_ns state
    → k'.select_reuseport s.so_cookie ≡ pos 0
    → (reuseport_prog bespoke k' w' md).1 ≡ some s.so_cookie
reply-Sticky bespoke k k' w w' ctx family md state state' s found flow bound ok from found' same
      kept t₁ t₂ t₃ t₄ sel =
    let hash = flow_hash ctx family state in
    let (value, e, c, lo, hi) = entry_of (flow_assure-Ends k s hash state w.flows) ok t₁ in
    let kept' : w'.flows hash ≡ some value =
      kept
      ∙ ap (λ (f : ℕ → Option LruValue). f hash)
          (flows-udp_sendmsg k w ctx family state s found flow bound)
      ∙ e in
    let hashed : dissector_flow md state'.random_id ≡ some hash =
      rw same.random_id (dissector_flow-ComesFrom ctx md state.random_id from) in
    let live : is_live state' k'.now value ≡ true =
      is_live-within state' k'.now value (omega arith) t₃ (omega (arith, timeout-SameGroup same)) in
    reuseport_prog-live bespoke k' w' md value found' (rw same.dis flow) hashed kept' live
      (rw c sel)
    ∙ ap some c
