-- ===== src/Examples/Slots.antt =====
-- The registration of the server's socket (src/udpgrm.c), and a packet with its cookie.
use udpgrm.Base.{
  ℕ, Option, ◌==◌, if◌then◌else◌, [], ◌∷◌, ◌≡◌, refl, none, some, true, pos, neg, replicate, lookup,
  insert, arith,
}
use udpgrm.Cookie.{max_sockets_in_gen, to_wrk_gen, grm_cookie_pack, grm_cookie_cs}
use udpgrm.Storage.{ReuseportStorage, register_socket, find_state, skey_from_bpf_sock, sock_key}
use udpgrm.Storage.Helpers.{Packet}
use udpgrm.Storage.Identity.{SameGroup-refl}
use udpgrm.Storage.Config.{type_of, filter_at}
use udpgrm.Interp.{interpret_cbpf, loop_from, execute}
use udpgrm.Interp.Opcode.{decode}
use udpgrm.Sockopt.Get.{getsockopt}
use udpgrm.Hook.{BpfSockopt}
use udpgrm.Callback.{put_cookie}
use udpgrm.Reuseport.{Bespoke, run_cbpf, reuseport_prog}
use udpgrm.Daemon.{
  DaemonState, Answers, Handled, go_on, exit, cookies_find_empty, register_found, handle_msg,
}
use udpgrm.Daemon.Slots.{Scanned, cookies_find_empty-Scanned}
use udpgrm.Daemon.Reach.{Uses, register-Reachable}
use udpgrm.Examples.{
  server, server_storage, kernel_at, packet_with, maps_with, flow_group, cbpf_group,
}

-- A sockhash in which only the socket cookie 9001 is found.
abbrev only_server : ℕ → Option ℕ
only_server c = if c == 9001 then some 9001 else none

-- Slot 0 of generation 3 is taken by the server.
abbrev one_taken : ReuseportStorage
one_taken = put_cookie 3 0 1 9001 flow_group

second_slot : (cookies_find_empty only_server one_taken 3 9002).free_pos ≡ some 1
unfolding cookies_find_empty put_cookie
second_slot = refl

cookies_find_empty-Scanned_example :
    Scanned only_server
      (one_taken.cookies 3)
      max_sockets_in_gen
      (cookies_find_empty only_server one_taken 3 9002)
cookies_find_empty-Scanned_example = cookies_find_empty-Scanned only_server one_taken 3 9002

abbrev daemon : DaemonState
daemon = record {
  maps = maps_with cbpf_group;
  sockhash = λ c. none;
  tubular = record { sk_groups = []; closed = [] };
}

abbrev pub answers : Answers
answers = record {
  pidfd = true;
  socket = some server;
  fd = 9;
  sockhash_errno = 0;
  test_run = true;
  storage_update = true;
  attach = true;
  tubular_path = true;
  tubular_sent = 0;
  now = 5000;
}

abbrev pub state_of : Handled → DaemonState
state_of (go_on d) = d
state_of exit = daemon

-- A group with 33 apps has slots of no generation, which ends the daemon.
no_slots :
    register_found answers
      (skey_from_bpf_sock server)
      (record cbpf_group { dis = record cbpf_group.dis { max_apps = 33 } })
      9001
      3
      0
      server
      (some server_storage)
      daemon
    ≡ exit
unfolding register_found
no_slots = refl

abbrev registered : DaemonState
registered =
    state_of (handle_msg answers (register_socket (skey_from_bpf_sock server) 100 9001 3 0) daemon)

was_handled :
    handle_msg answers (register_socket (skey_from_bpf_sock server) 100 9001 3 0) daemon
    ≡ go_on registered
unfolding handle_msg cookies_find_empty lookup skey_from_bpf_sock
was_handled = refl

abbrev pub registered_group : ReuseportStorage
registered_group = put_cookie 3 0 1 9001 cbpf_group

abbrev pub read_socket_gen : BpfSockopt
read_socket_gen = record {
  sk = server;
  level = 17;
  optname = 201;
  optlen = pos 12;
  optval = replicate 12 0;
  retval = neg 92;
}

abbrev pub no_bespoke : Bespoke
no_bespoke md digest state = (neg 1, 0)

-- A packet with the cookie of generation 3, slot 0 in its first two bytes.
abbrev pub packet : Packet
packet = packet_with (0x00 ∷ 0xe3 ∷ [])

found_group : lookup (skey_from_bpf_sock server) daemon.maps.groups ≡ some cbpf_group
unfolding lookup skey_from_bpf_sock
found_group = refl

first_slot : (cookies_find_empty (λ c. none) cbpf_group (to_wrk_gen 0 0 3) 9001).free_pos ≡ some 0
unfolding cookies_find_empty to_wrk_gen
first_slot = refl

found_registered : find_state registered.maps server ≡ some registered_group
unfolding handle_msg cookies_find_empty lookup skey_from_bpf_sock find_state insert to_wrk_gen
found_registered = refl

packet-Uses :
    Uses (kernel_at 6000) registered.maps read_socket_gen no_bespoke packet registered_group
unfolding handle_msg cookies_find_empty lookup skey_from_bpf_sock find_state run_cbpf interpret_cbpf
    loop_from getsockopt execute grm_cookie_pack decode filter_at to_wrk_gen insert grm_cookie_cs
packet-Uses = record {
  name = refl;
  ours = refl;
  retval = refl;
  page = refl;
  size = refl;
  cookie = refl;
}

register-Reachable_example :
    (reuseport_prog no_bespoke (kernel_at 6000) registered.maps packet).1 ≡ some 9001
unfolding type_of
register-Reachable_example =
    register-Reachable no_bespoke answers (kernel_at 6000) (kernel_at 6000) daemon registered
      registered.maps read_socket_gen packet cbpf_group registered_group registered_group
      server_storage 100 9001 0 found_group (omega arith) refl refl refl refl first_slot was_handled
      found_registered packet-Uses found_registered (SameGroup-refl registered_group) refl
