-- ===== src/Examples/Flows.antt =====
-- Flows of one client (ebpf/ebpf.c).
use udpgrm.Base.{ℕ, [], lookup, ◌≡◌, refl, true, false, Option, some, neg, arith, ◌↔◌}
use udpgrm.Storage.{World, LruValue, find_state, skey_from_bpf_sock}
use udpgrm.Storage.Identity.{SameGroup-refl}
use udpgrm.Storage.Config.{type_of}
use udpgrm.Siphash.{count_ip_flow_hash}
use udpgrm.Flow.{
  flow_timeout_ns, BpfSockAddr, flow_assure, udp_sendmsg, dissector_flow, sendmsg_flow,
}
use udpgrm.Flow.Assure.{Ends, Obstacle, flow_assure-Ends, flow_assure_refuses}
use udpgrm.Reuseport.{Bespoke, reuseport_prog, receive}
use udpgrm.Reuseport.Account.{Balanced, receive-Balanced}
use udpgrm.Reuseport.Origin.{Sound, receive-Sound}
use udpgrm.Flow.Account.{TxBalanced, flow_assure-TxBalanced}
use udpgrm.Sticky.{ComesFrom, v4, dissector_flow-ComesFrom, reply-Sticky}
use udpgrm.Examples.{server, server_storage, kernel_at, packet_with, maps_with, flow_group}

-- The server sends to 10.0.0.2:5555.
abbrev message : BpfSockAddr
message = record {
  sk = server;
  user_family = 2;
  protocol = 17;
  user_ip4 = 0x0200_000a;
  user_ip6_0 = 0;
  user_ip6_1 = 0;
  user_ip6_2 = 0;
  user_ip6_3 = 0;
  user_port = 45845;
}

-- The maps once the entry is written, with the counters as before.
abbrev maps_after : World
maps_after = record (maps_with flow_group) {
  flows = (udp_sendmsg (kernel_at 1000) (maps_with flow_group) message 2).flows;
}

-- A bespoke dissector that recognises nothing.
abbrev no_bespoke : Bespoke
no_bespoke md digest state = (neg 1, 0)

answer_of : ComesFrom message (packet_with []) 2
answer_of = v4 2 refl refl (omega arith) (omega arith) refl refl

assured_message :
    (flow_assure
      (kernel_at 1000)
      flow_group
      server_storage
      (count_ip_flow_hash (sendmsg_flow message 2 77))
      (maps_with flow_group).flows).assured
    ≡ true
unfolding flow_assure
assured_message = refl

found_group : find_state (maps_with flow_group) server ≡ some flow_group
unfolding find_state skey_from_bpf_sock lookup
found_group = refl

found_after : find_state maps_after server ≡ some flow_group
unfolding find_state skey_from_bpf_sock lookup
found_after = refl

reply-Sticky_example :
    (reuseport_prog no_bespoke (kernel_at 2000) maps_after (packet_with [])).1 ≡ some 9001
unfolding type_of flow_timeout_ns
reply-Sticky_example =
    reply-Sticky no_bespoke (kernel_at 1000) (kernel_at 2000) (maps_with flow_group) maps_after
      message 2 (packet_with []) flow_group flow_group server_storage found_group refl refl
      assured_message answer_of found_after (SameGroup-refl flow_group) refl (omega arith)
      (omega arith) (omega arith) (omega arith) refl

dissector_flow-ComesFrom_example :
    dissector_flow (packet_with []) 77 ≡ some (count_ip_flow_hash (sendmsg_flow message 2 77))
dissector_flow-ComesFrom_example = dissector_flow-ComesFrom message (packet_with []) 77 answer_of

-- Another socket's entry, still live.
abbrev foreign_flow : ℕ → Option LruValue
foreign_flow h = some (record { last_tx_ns = 900; cookie = 9002 })

flow_assure-Ends_example :
    Ends
      (kernel_at 1000)
      server_storage
      5
      foreign_flow
      (flow_assure (kernel_at 1000) flow_group server_storage 5 foreign_flow)
flow_assure-Ends_example =
    flow_assure-Ends (kernel_at 1000) server_storage 5 flow_group foreign_flow

flow_assure_refuses_example :
    ((flow_assure (kernel_at 1000) flow_group server_storage 5 foreign_flow).assured ≡ false)
    ↔ Obstacle (kernel_at 1000) server_storage 5 flow_group foreign_flow
flow_assure_refuses_example =
    flow_assure_refuses (kernel_at 1000) server_storage 5 flow_group foreign_flow

flow_group-Balanced : Balanced flow_group
flow_group-Balanced = record {
  processed = refl;
  dissected = refl;
  reasons = refl;
  dispatched = refl;
}

receive-Balanced_example :
    Balanced
      (receive no_bespoke (kernel_at 2000) (packet_with []) maps_after.flows flow_group).state
receive-Balanced_example =
    receive-Balanced no_bespoke (kernel_at 2000) (packet_with []) maps_after.flows flow_group
      flow_group-Balanced

receive-Sound_example :
    Sound no_bespoke
      (kernel_at 2000)
      (packet_with [])
      maps_after.flows
      flow_group
      (receive no_bespoke (kernel_at 2000) (packet_with []) maps_after.flows flow_group).selected
receive-Sound_example =
    receive-Sound no_bespoke (kernel_at 2000) (packet_with []) maps_after.flows flow_group

flow_group-TxBalanced : TxBalanced flow_group
flow_group-TxBalanced = record { total = refl }

flow_assure-TxBalanced_example :
    TxBalanced (flow_assure (kernel_at 1000) flow_group server_storage 5 foreign_flow).state
flow_assure-TxBalanced_example =
    flow_assure-TxBalanced (kernel_at 1000) flow_group server_storage 5 foreign_flow
      flow_group-TxBalanced
