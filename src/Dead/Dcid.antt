-- ===== src/Dead/Dcid.antt =====
-- A QUIC packet with a short header and a custom DCID (ebpf/ebpf_bespoke.c) reaches the socket of its
-- cookie (ebpf/ebpf.c).
use udpgrm.Base.{
  ℕ, ◌∙◌, ◌+◌, ◌*◌, ◌/◌, ◌≤◌, ◌<◌, ◌≡◌, ◌≢◌, ◌^◌, refl, ap, List, true, false, Option, some, pos,
  ◌==◌, ltb, length, drop, take, u8_at, arith,
}
use udpgrm.Cookie.{grm_cookie_unpack}
use udpgrm.Storage.{ReuseportStorage, LruValue}
use udpgrm.Storage.Helpers.{Kernel, Packet}
use udpgrm.Storage.Config.{type_of, type_bespoke}
use udpgrm.Interp.{ierr_ok}
use udpgrm.Reuseport.{run_cbpf, parse, dispatch, by_cookie, receive, cookie_slot}
use udpgrm.Daemon.Reach.{dissector_cbpf-cookie}
use udpgrm.Dead.{
  Slow, fast, fast_dcid, fast_loaded, parse_quic_fast, by_dcid, after_fast, run_dead,
  run_bespoke_by_digest,
}

-- The bytes behind the UDP header: those at hand where there are 32 of them, and otherwise 32 bytes
-- that are loaded from behind the 8 bytes of the header.
pub data Payload (md : Packet) : List ℕ → Type 0 where
  at_hand : 40 ≤ length md.linear → Payload md (drop 8 md.linear)
  loaded : (pkt : List ℕ) → length md.linear < 40 → md.load 8 32 ≡ some pkt → Payload md pkt

-- A packet of at least 32 bytes, with a short header and a DCID that starts with 1 and the two bytes
-- of the cookie c, highest first.
pub record Carries (md : Packet) (c : ℕ) : Type 0 where
  pub long_enough : 32 ≤ md.len
  pub pkt : List ℕ
  pub payload : Payload md pkt
  pub short : u8_at pkt 0 < 128
  pub ours : u8_at (take 20 (drop 1 pkt)) 0 ≡ 1
  pub cookie : u8_at (take 20 (drop 1 pkt)) 1 * 2 ^ 8 + u8_at (take 20 (drop 1 pkt)) 2 ≡ c
  pub some_cookie : c ≢ 0
  pub fits : c ≤ 0xffff

by_dcid-ours :
    (dcid : List ℕ) (c : ℕ)
    → u8_at dcid 0 ≡ 1
    → u8_at dcid 1 * 2 ^ 8 + u8_at dcid 2 ≡ c
    → c ≢ 0
    → by_dcid dcid ≡ c
unfolding by_dcid
by_dcid-ours dcid c one e nonzero = ground arith

-- A short header is not that of an initial packet.
fast_dcid-short :
    (pkt : List ℕ) → u8_at pkt 0 < 128 → fast_dcid pkt ≡ fast (take 20 (drop 1 pkt)) 0 false
unfolding fast_dcid
fast_dcid-short pkt h =
    let init : (u8_at pkt 0 / 2 ^ 4 == 0xc) ≡ false = ground arith in
    let long : (u8_at pkt 0 / 2 ^ 7 == 0) ≡ true = ground arith in rw (init, long) refl

parse_quic_fast-Payload :
    (md : Packet) (pkt : List ℕ) → 32 ≤ md.len → Payload md pkt → parse_quic_fast md ≡ fast_dcid pkt
unfolding parse_quic_fast
parse_quic_fast-Payload md _ long (at_hand h) =
    let enough : ltb md.len 32 ≡ false = ground arith in
    let here : ltb (length md.linear) 40 ≡ false = ground arith in simp (enough, here)
parse_quic_fast-Payload md pkt long (loaded _ h e) =
    let enough : ltb md.len 32 ≡ false = ground arith in
    let behind : ltb (length md.linear) 40 ≡ true = ground arith in
    rw (enough, behind, e, fast_loaded) refl

module _ (slow : Packet → List ℕ → ℕ → Slow) (md : Packet) (state : ReuseportStorage) (c : ℕ)
    (h : Carries md c) where
  parse_quic_fast-Carries : parse_quic_fast md ≡ fast (take 20 (drop 1 h.pkt)) 0 false
  parse_quic_fast-Carries =
      parse_quic_fast-Payload md h.pkt h.long_enough h.payload ∙ fast_dcid-short h.pkt h.short

  run_dead-Carries : run_dead slow md state ≡ (ierr_ok, c)
  unfolding run_dead after_fast
  run_dead-Carries = rw parse_quic_fast-Carries (
      ap (λ x. (ierr_ok, x))
        (by_dcid-ours (take 20 (drop 1 h.pkt)) c h.ours h.cookie h.some_cookie))

  run_cbpf-Carries :
      state.dis.bespoke_digest ≡ 0xdead
      → run_cbpf (run_bespoke_by_digest slow) md state ≡ (ierr_ok, c)
  unfolding run_cbpf run_bespoke_by_digest
  run_cbpf-Carries digest = simp digest run_dead-Carries

  -- In a group with the bespoke dissector 0xDEAD, a packet with a short header and a custom DCID that
  -- carries a cookie is sent to the socket in the slot of this cookie, whatever the slow path does,
  -- if the kernel can select the socket. The packet has at least 32 bytes; where fewer than 40 bytes
  -- are at hand, the 32 bytes behind the UDP header can be loaded. The group has at most four apps.
  pub receive-Carries :
      (k : Kernel) (flows : ℕ → Option LruValue)
      → state.dis.max_apps ≤ 4
      → type_of state.dis.dissector_type ≡ type_bespoke
      → state.dis.bespoke_digest ≡ 0xdead
      → k.select_reuseport (cookie_slot state (grm_cookie_unpack c)) ≡ pos 0
      → (receive (run_bespoke_by_digest slow) k md flows state).selected
        ≡ some (cookie_slot state (grm_cookie_unpack c))
  unfolding receive parse dispatch by_cookie
  receive-Carries k flows apps type digest sel =
      let cookie =
        dissector_cbpf-cookie (run_bespoke_by_digest slow) md state c apps h.fits
          (run_cbpf-Carries digest) in
      rw (type, cookie, sel) refl
