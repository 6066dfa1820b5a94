-- ===== src/Examples.antt =====
-- Concrete sockets, groups, packets and kernels, on which the properties are used.
pub mod Aes
pub mod Sha256
pub mod Initial
pub mod Machine
pub mod Net
pub mod Listing
pub mod Flows
pub mod Programs
pub mod Options
pub mod Slots
pub mod Protocol
pub mod Descriptors
pub mod Dead
pub mod Switching
pub mod Quic
use udpgrm.Base.{
  ℕ, Option, none, some, List, [], ◌∷◌, ◌++◌, pos, neg, false, true, ◌==◌, if◌then◌else◌, le16,
  le32, replicate,
}
use udpgrm.Storage.{
  World, ReuseportStorage, SocketStorage, SockKey, empty_state, skey_from_bpf_sock,
}
use udpgrm.Storage.Helpers.{BpfSock, Kernel, Packet}
use udpgrm.Storage.Config.{Dissector, zero_dissector}

-- The server's socket, on 127.0.0.1:4433.
abbrev pub server : BpfSock
server = record {
  id = 7;
  family = 2;
  src_port = 4433;
  src_ip4 = 0x0100_007f;
  src_ip6_0 = 0;
  src_ip6_1 = 0;
  src_ip6_2 = 0;
  src_ip6_3 = 0;
}

-- Its storage: generation 3 of app 0, no slot, and the socket cookie 9001.
abbrev pub server_storage : SocketStorage
server_storage = record {
  sock_gen = 3;
  sock_idx = 0xffff_ffff;
  sock_app = 0;
  so_cookie = 9001;
  netns_cookie = 1;
}

-- A kernel whose helpers succeed, at the time `now` in nanoseconds.
abbrev pub kernel_at : ℕ → Kernel
kernel_at now = record {
  now = now;
  now_later = now;
  update_group = pos 0;
  update_flow = pos 0;
  evicted = λ _. false;
  reserve = true;
  percpu_page = true;
  prandom = 77;
  pid = 100;
  select_reuseport = λ cookie. if cookie == 9001 then pos 0 else neg 2;
}

-- A packet from 10.0.0.2:5555 to the server, with the payload behind the UDP header.
abbrev pub packet_with : List ℕ → Packet
packet_with payload = record {
  sk = server;
  eth_protocol = 8;
  len = 8;
  hash = 5;
  linear = replicate 8 0 ++ payload;
  load = λ off size. if off == 0 then some (le16 45845) else some payload;
  load_net = λ off size. some (le32 0x0200_000a);
}

-- The maps with one group and the server's socket.
abbrev pub maps_with : ReuseportStorage → World
maps_with state = record {
  groups = (skey_from_bpf_sock server, state) ∷ [];
  sockets = λ i. if i == 7 then some server_storage else none;
  flows = λ _. none;
  ring = [];
}

-- A group with the FLOW dissector.
abbrev pub flow_group : ReuseportStorage
flow_group = record empty_state { random_id = 77; netns_cookie = 1 }

-- A cBPF dissector of two instructions: load the half-word at offset 0 of the payload, return A.
abbrev pub two_instructions : Dissector
two_instructions = record zero_dissector {
  dissector_type = 1;
  filter_len = 2;
  body = 0x28 ∷ 0 ∷ 0 ∷ 0 ∷ 0 ∷ 0 ∷ 0 ∷ 0 ∷ 0x16 ∷ 0 ∷ 0 ∷ 0 ∷ 0 ∷ 0 ∷ 0 ∷ 0 ∷ replicate 496 0;
}

abbrev pub cbpf_group : ReuseportStorage
cbpf_group = record flow_group { dis = two_instructions }
