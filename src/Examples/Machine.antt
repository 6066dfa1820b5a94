-- ===== src/Examples/Machine.antt =====
-- A run of the whole system: a bind, the creation of a group by its dissector, and a packet.
use udpgrm.Base.{[], some, none, lookup, insert, ◌≡◌, refl, ℕ, Option, true}
use udpgrm.Storage.{
  World, Msg, register_socket, ReuseportStorage, find_state, sock_key, skey_from_bpf_sock,
}
use udpgrm.Storage.Config.{dissector_at}
use udpgrm.Storage.Identity.{AllGroups, Keeps}
use udpgrm.Flow.{BpfSockAddr}
use udpgrm.Sockopt.{setsockopt, on_option}
use udpgrm.Bind.{BindHelpers, bpf_bind}
use udpgrm.Reuseport.{reuseport_prog}
use udpgrm.Machine.{Reach, here, next, option, packet, bind, empty_maps}
use udpgrm.Machine.Evolves.{InOrder, SameIdentity}
use udpgrm.Machine.Invariant.{reachable-InOrder}
use udpgrm.Examples.{server, kernel_at, packet_with}
use udpgrm.Examples.Options.{set_two_instructions}
use udpgrm.Examples.Slots.{no_bespoke, answers, state_of}
use udpgrm.Daemon.{DaemonState, handle_msg}

abbrev helpers : BindHelpers
helpers = record { reuseport = some 1; can_create = true; socket_cookie = 9001; netns_cookie = 1 }

abbrev address : BpfSockAddr
address = record {
  sk = server;
  user_family = 2;
  protocol = 17;
  user_ip4 = 0;
  user_ip6_0 = 0;
  user_ip6_1 = 0;
  user_ip6_2 = 0;
  user_ip6_3 = 0;
  user_port = 0;
}

abbrev bound : World
bound = bpf_bind helpers empty_maps address

abbrev created : World
created = (setsockopt (kernel_at 1000) bound set_two_instructions).world

abbrev received : World
received = (reuseport_prog no_bespoke (kernel_at 2000) created (packet_with [])).0

created-Reach : Reach no_bespoke empty_maps created
created-Reach =
    next (next here (bind helpers empty_maps address))
      (option (kernel_at 1000) bound set_two_instructions)

received-Reach : Reach no_bespoke created received
received-Reach = next here (packet (kernel_at 2000) created (packet_with []))

reachable-InOrder_example : AllGroups InOrder created × Keeps SameIdentity created received
reachable-InOrder_example =
    reachable-InOrder no_bespoke created received created-Reach received-Reach

abbrev type_found : Option ReuseportStorage → ℕ
type_found none = 0
type_found (some state) = state.dis.dissector_type

-- The group is there, with the cBPF dissector.
created_dissector : type_found (find_state created server) ≡ 1
unfolding setsockopt bpf_bind find_state lookup on_option dissector_at insert skey_from_bpf_sock
created_dissector = refl

-- The daemon takes the message of a socket of the group that asks for generation 3.
abbrev asks_slot : Msg
asks_slot = register_socket (skey_from_bpf_sock server) 100 9001 3 0

abbrev before : DaemonState
before = record {
  maps = created;
  sockhash = λ c. none;
  tubular = record { sk_groups = []; closed = [] };
}

abbrev handled : DaemonState
handled = state_of (handle_msg answers asks_slot before)
