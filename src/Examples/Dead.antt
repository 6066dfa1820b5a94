-- ===== src/Examples/Dead.antt =====
-- A short-header packet to a group with the bespoke dissector (ebpf/ebpf_bespoke.c).
use udpgrm.Base.{ℕ, ◌∷◌, ◌≡◌, refl, some, replicate, drop, List, none, arith}
use udpgrm.Storage.{ReuseportStorage}
use udpgrm.Storage.Helpers.{Packet}
use udpgrm.Storage.Config.{type_of}
use udpgrm.Callback.{put_cookie}
use udpgrm.Cookie.{grm_cookie_unpack, grm_cookie_cs}
use udpgrm.Reuseport.{receive, cookie_slot}
use udpgrm.Dead.{Slow, no_sni, run_bespoke_by_digest}
use udpgrm.Dead.Dcid.{at_hand, Carries, receive-Carries}
use udpgrm.Examples.{kernel_at, packet_with, flow_group}

abbrev no_slow_path : Packet → List ℕ → ℕ → Slow
no_slow_path md dcid dcid_len = no_sni

-- A short header, then the mark 1 and the cookie of generation 3, slot 0.
abbrev short_packet : Packet
short_packet = record (packet_with (0x40 ∷ 1 ∷ 0x00 ∷ 0xe3 ∷ replicate 40 0)) { len = 52 }

abbrev dead_group : ReuseportStorage
dead_group = put_cookie 3 0 1 9001 (record flow_group {
  dis = record flow_group.dis { dissector_type = 3; bespoke_digest = 0xdead };
})

short_packet-Carries : Carries short_packet 0xe3
short_packet-Carries = record {
  long_enough = omega arith;
  pkt = drop 8 short_packet.linear;
  payload = at_hand (omega arith);
  short = omega arith;
  ours = refl;
  cookie = refl;
  some_cookie = omega arith;
  fits = omega arith;
}

receive-Carries_example :
    (receive
      (run_bespoke_by_digest no_slow_path)
      (kernel_at 2000)
      short_packet
      (λ _. none)
      dead_group).selected
    ≡ some 9001
unfolding put_cookie type_of cookie_slot grm_cookie_unpack grm_cookie_cs
receive-Carries_example =
    receive-Carries no_slow_path short_packet dead_group 0xe3 short_packet-Carries (kernel_at 2000)
      (λ _. none) (omega arith) refl refl refl
