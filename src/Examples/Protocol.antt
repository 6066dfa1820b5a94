-- ===== src/Examples/Protocol.antt =====
-- The server asks for a slot, and the daemon gives it one (ebpf/ebpf.c, src/udpgrm.c).
use udpgrm.Base.{◌≡◌, ◌++◌, ◌∷◌, [], refl, none, some, pos, le32, lookup, insert, arith}
use udpgrm.Cookie.{to_wrk_gen, grm_cookie_pack, grm_cookie_cs}
use udpgrm.Storage.{World, find_state, skey_from_bpf_sock, submit}
use udpgrm.Storage.Config.{type_of, filter_at}
use udpgrm.Storage.Identity.{SameGroup-refl}
use udpgrm.Interp.{interpret_cbpf, loop_from, execute}
use udpgrm.Interp.Opcode.{decode}
use udpgrm.Hook.{BpfSockopt}
use udpgrm.Sockopt.{setsockopt, put_socket, on_option}
use udpgrm.Sockopt.Get.{getsockopt}
use udpgrm.Reuseport.{run_cbpf, reuseport_prog}
use udpgrm.Daemon.{DaemonState, go_on, cookies_find_empty, handle_msg}
use udpgrm.Daemon.Reach.{Uses}
use udpgrm.Daemon.Protocol.{Asks, message, enrol-Reachable}
use udpgrm.Examples.{server, server_storage, kernel_at, maps_with, cbpf_group}
use udpgrm.Examples.Slots.{answers, no_bespoke, packet, read_socket_gen, registered_group, state_of}

-- setsockopt(UDP_GRM_SOCKET_GEN, 3)
abbrev ask : BpfSockopt
ask = record read_socket_gen { optlen = pos 4; optval = le32 3; retval = pos 0 }

found_group : find_state (maps_with cbpf_group) server ≡ some cbpf_group
unfolding find_state skey_from_bpf_sock lookup
found_group = refl

ask-Asks : Asks (kernel_at 4000) (maps_with cbpf_group) ask cbpf_group server_storage
unfolding type_of
ask-Asks = record {
  ours = refl;
  name = refl;
  first = refl;
  fine = refl;
  page = refl;
  room = refl;
  size = omega arith;
  bound = refl;
  found = found_group;
  netns = refl;
  new = refl;
  apps = omega arith;
  cbpf = refl;
}

-- The maps after the call.
abbrev asked_maps : World
asked_maps = (setsockopt (kernel_at 4000) (maps_with cbpf_group) ask).world

abbrev before : DaemonState
before = record {
  maps = asked_maps;
  sockhash = λ c. none;
  tubular = record { sk_groups = []; closed = [] };
}

abbrev after : DaemonState
after = state_of (
    handle_msg answers
      (message (kernel_at 4000) (maps_with cbpf_group) ask cbpf_group server_storage) before)

first_slot :
    (cookies_find_empty before.sockhash cbpf_group (to_wrk_gen 0 0 3) 9001).free_pos ≡ some 0
unfolding cookies_find_empty to_wrk_gen
first_slot = refl

was_handled :
    handle_msg answers
      (message (kernel_at 4000) (maps_with cbpf_group) ask cbpf_group server_storage)
      before
    ≡ go_on after
unfolding handle_msg cookies_find_empty lookup skey_from_bpf_sock setsockopt put_socket submit
    find_state on_option
was_handled = refl

found_after : find_state after.maps server ≡ some registered_group
unfolding handle_msg cookies_find_empty lookup skey_from_bpf_sock setsockopt put_socket submit
    find_state on_option insert to_wrk_gen
found_after = refl

after-Uses : Uses (kernel_at 6000) after.maps read_socket_gen no_bespoke packet registered_group
unfolding handle_msg cookies_find_empty lookup skey_from_bpf_sock setsockopt put_socket submit
    find_state on_option insert to_wrk_gen run_cbpf interpret_cbpf loop_from getsockopt execute
    grm_cookie_pack decode filter_at grm_cookie_cs
after-Uses = record {
  name = refl;
  ours = refl;
  retval = refl;
  page = refl;
  size = refl;
  cookie = refl;
}

enrol-Reachable_example :
    (asked_maps.ring
      ≡ [] ++ message (kernel_at 4000) (maps_with cbpf_group) ask cbpf_group server_storage ∷ [])
    × ((reuseport_prog no_bespoke (kernel_at 6000) after.maps packet).1 ≡ some 9001)
enrol-Reachable_example =
    enrol-Reachable no_bespoke answers (kernel_at 4000) (kernel_at 6000) (kernel_at 6000)
      (maps_with cbpf_group) after.maps before after ask read_socket_gen packet cbpf_group
      registered_group registered_group server_storage 0 ask-Asks refl refl refl first_slot
      was_handled refl found_after after-Uses found_after (SameGroup-refl registered_group) refl
