-- ===== src/Examples/Options.antt =====
-- setsockopt(UDP_GRM_DISSECTOR) on an empty map (ebpf/ebpf.c).
use udpgrm.Base.{
  ℕ, [], ◌++◌, ◌≡◌, refl, true, some, pos, neg, minus_one, replicate, lookup, le32, length, take,
  arith,
}
use udpgrm.Storage.{World, sock_key}
use udpgrm.Storage.Identity.{SameGroup, Keeps, AllGroups}
use udpgrm.Hook.{BpfSockopt}
use udpgrm.Sockopt.{copied_size, on_option, setsockopt}
use udpgrm.Storage.Config.{Dissector, dissector_at, dissector_bytes, dissector_same}
use udpgrm.Sockopt.Get.{with_size, getsockopt}
use udpgrm.Sockopt.Readback.{getsockopt-setsockopt}
use udpgrm.Sockopt.Preserve.{HasChecked}
use udpgrm.Sockopt.Groups.{setsockopt-Keeps, setsockopt-HasChecked}
use udpgrm.Sockopt.Replies.{Replies, setsockopt-Replies}
use udpgrm.Examples.{server, kernel_at, maps_with, flow_group, two_instructions}

-- The maps with the server's socket and no group.
abbrev no_groups : World
no_groups = record (maps_with flow_group) { groups = [] }

-- The dissector of two instructions, as the process passes it.
abbrev pub set_two_instructions : BpfSockopt
set_two_instructions = record {
  sk = server;
  level = 17;
  optname = 202;
  optlen = pos 632;
  optval = le32 1 ++ replicate 112 0 ++ le32 2 ++ two_instructions.body;
  retval = pos 0;
}

no_groups-HasChecked : AllGroups HasChecked no_groups
unfolding lookup
no_groups-HasChecked = record { at = λ j a h. cc }

setsockopt-HasChecked_example :
    AllGroups HasChecked (setsockopt (kernel_at 1000) no_groups set_two_instructions).world
setsockopt-HasChecked_example =
    setsockopt-HasChecked (kernel_at 1000) no_groups set_two_instructions no_groups-HasChecked

setsockopt-Keeps_example :
    Keeps SameGroup
      (maps_with flow_group)
      (setsockopt (kernel_at 1000) (maps_with flow_group) set_two_instructions).world
setsockopt-Keeps_example =
    setsockopt-Keeps (kernel_at 1000) (maps_with flow_group) set_two_instructions

setsockopt-Replies_example :
    Replies no_groups set_two_instructions
      (setsockopt (kernel_at 1000) no_groups set_two_instructions)
setsockopt-Replies_example = setsockopt-Replies (kernel_at 1000) no_groups set_two_instructions

-- The same process reads the dissector back into 632 bytes.
abbrev get_dissector_back : BpfSockopt
get_dissector_back = record {
  sk = server;
  level = 17;
  optname = 202;
  optlen = pos 632;
  optval = replicate 632 0;
  retval = neg 92;
}

two_instructions_accepted :
    (setsockopt (kernel_at 1000) no_groups set_two_instructions).optlen ≡ minus_one
unfolding setsockopt lookup on_option dissector_at
two_instructions_accepted = refl

getsockopt-setsockopt_example :
    (size : ℕ) × (d : Dissector) × (copied_size (length set_two_instructions.optval) ≡ some size)
    × (dissector_same d (dissector_at (take size set_two_instructions.optval)) ≡ true)
    × (getsockopt
          (kernel_at 2000)
          (setsockopt (kernel_at 1000) no_groups set_two_instructions).world
          get_dissector_back
        ≡ with_size
            (setsockopt (kernel_at 1000) no_groups set_two_instructions).world
            get_dissector_back
            (dissector_bytes d)
            (some 632))
getsockopt-setsockopt_example =
    getsockopt-setsockopt (kernel_at 1000) (kernel_at 2000) no_groups set_two_instructions
      get_dissector_back refl refl refl two_instructions_accepted refl refl refl refl (omega arith)
      refl
