-- ===== src/Examples/Switching.antt =====
-- The server switches new flows to generation 3 (ebpf/ebpf.c).
use udpgrm.Base.{[], ◌≡◌, refl, some, pos, le32, lookup, arith}
use udpgrm.Storage.{ReuseportStorage, find_state, skey_from_bpf_sock}
use udpgrm.Storage.Config.{type_of}
use udpgrm.Callback.{put_cookie}
use udpgrm.Cookie.{to_wrk_gen}
use udpgrm.Hook.{BpfSockopt}
use udpgrm.Sockopt.{setsockopt}
use udpgrm.Reuseport.{reuseport_prog}
use udpgrm.Switch.{Switches, IsNew, noop, switch-IsNew}
use udpgrm.Examples.{server, server_storage, kernel_at, packet_with, maps_with, flow_group}
use udpgrm.Examples.Slots.{no_bespoke}

-- A group with the NOOP dissector, with the server in slot 0 of generation 3.
abbrev noop_group : ReuseportStorage
noop_group =
    put_cookie 3 0 1 9001 (record flow_group { dis = record flow_group.dis { dissector_type = 4 } })

-- setsockopt(UDP_GRM_WORKING_GEN, 3)
abbrev switch_to : BpfSockopt
switch_to = record {
  sk = server;
  level = 17;
  optname = 200;
  optlen = pos 4;
  optval = le32 3;
  retval = pos 0;
}

switch_to-Switches :
    Switches (kernel_at 1000) (maps_with noop_group) switch_to noop_group server_storage
unfolding find_state skey_from_bpf_sock lookup put_cookie
switch_to-Switches = record {
  ours = refl;
  name = refl;
  first = refl;
  fine = refl;
  page = refl;
  room = refl;
  size = omega arith;
  bound = refl;
  found = refl;
  netns = refl;
  app = refl;
}

packet-IsNew : IsNew (packet_with []) (maps_with noop_group).flows noop_group
unfolding put_cookie type_of
packet-IsNew = noop refl

switch-IsNew_example :
    (reuseport_prog no_bespoke
      (kernel_at 2000)
      (setsockopt (kernel_at 1000) (maps_with noop_group) switch_to).world
      (packet_with [])).1
    ≡ some 9001
unfolding put_cookie to_wrk_gen
switch-IsNew_example =
    switch-IsNew no_bespoke (kernel_at 1000) (kernel_at 2000) (maps_with noop_group) switch_to
      (packet_with []) noop_group server_storage switch_to-Switches refl packet-IsNew refl
