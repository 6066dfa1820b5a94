-- ===== src/Dead.antt =====
-- The bespoke dissector 0xDEAD for QUIC (ebpf/ebpf_bespoke.c): parse_quic_fast, run_0xDEAD and
-- run_bespoke_by_digest. What the slow path makes of an initial packet, from the keys to
-- quic_extract_sni, is the argument `slow`.
pub mod Dcid
use udpgrm.Base.{
  ℕ, zero, suc, ◌+◌, ◌*◌, ◌/◌, ◌^◌, Bool, true, false, not, ◌||◌, Option, none, some, List, [], ◌∷◌,
  ◌++◌, ℤ, bit_or, ltb, leb, ◌==◌, if◌then◌else◌, u8_at, take, drop, replicate, length, bytes_eq,
}
use udpgrm.Storage.{ReuseportStorage}
use udpgrm.Storage.Helpers.{Packet}
use udpgrm.Interp.{ierr_ok, ierr_load, ierr_sanity, ierr_instrexceeded}

-- An error, or the 20 bytes of the DCID with its length and whether the packet is an initial one.
pub data Fast : Type 0 where
  bad : ℤ → Fast
  fast : List ℕ → ℕ → Bool → Fast

-- The DCID of a long header is cut to its length, that of a short header is not.
unfoldable pub fast_dcid : List ℕ → Fast
fast_dcid pkt =
    let hdr = u8_at pkt 0 in
    let is_init = hdr / 2 ^ 4 == 0xc in
    let dcid_len = u8_at pkt 5 in
    if hdr / 2 ^ 7 == 0
    then fast (take 20 (drop 1 pkt)) 0 is_init
    else if ltb dcid_len 8 || ltb 20 dcid_len
    then bad ierr_sanity
    else fast (take 20 (take dcid_len (drop 6 pkt) ++ replicate 20 0)) dcid_len is_init

unfoldable pub fast_loaded : Option (List ℕ) → Fast
fast_loaded none = bad ierr_load
fast_loaded (some pkt) = fast_dcid pkt

-- parse_quic_fast
unfoldable pub parse_quic_fast : Packet → Fast
unfolding fast_loaded
parse_quic_fast md =
    if ltb md.len 32
    then bad ierr_sanity
    else if ltb (length md.linear) (8 + 32)
    then fast_loaded (md.load 8 32)
    else fast_dcid (drop 8 md.linear)

-- What the slow path finds: an error of quic_parse_hdr, no server name, or scratch->sni.
pub data Slow : Type 0 where
  failed : ℤ → Slow
  no_sni : Slow
  sni : List ℕ → Slow

-- 0x80000000 | app
abbrev pub app_value : ℕ → ℕ
app_value app = bit_or 0x8000_0000 app

-- The loop over bespoke_sni, for n rounds from i on; an entry is the app, a reserved byte and 62
-- bytes of host name, of which 61 are compared.
unfoldable pub by_sni : ℕ → ℕ → ReuseportStorage → List ℕ → ℕ
by_sni zero i state name = app_value 0
by_sni (suc n) i state name =
    let rest = by_sni n (i + 1) state name in
    if leb state.dis.filter_len i
    then app_value 0
    else if bytes_eq (take 61 name) (take 61 (drop (64 * i + 2) state.dis.body))
    then app_value (u8_at state.dis.body (64 * i))
    else rest

-- The custom DCID: a 1, two bytes of cookie, and the app where the cookie is 0.
unfoldable pub by_dcid : List ℕ → ℕ
by_dcid dcid =
    let cookie = u8_at dcid 1 * 2 ^ 8 + u8_at dcid 2 in
    if u8_at dcid 0 == 1
    then if cookie == 0 then app_value (u8_at dcid 4) else cookie
    else app_value 0

unfoldable pub after_slow : ReuseportStorage → List ℕ → Slow → ℤ × ℕ
unfolding by_sni by_dcid
after_slow state dcid (failed r) = (r, 0)
after_slow state dcid no_sni = (ierr_ok, by_dcid dcid)
after_slow state dcid (sni name) = (ierr_ok, by_sni 8 0 state (drop 5 name))

unfoldable pub after_fast : (Packet → List ℕ → ℕ → Slow) → Packet → ReuseportStorage → Fast → ℤ × ℕ
unfolding after_slow
after_fast slow md state (bad r) = (r, 0)
after_fast slow md state (fast dcid dcid_len is_init) =
    if is_init then after_slow state dcid (slow md dcid dcid_len) else (ierr_ok, by_dcid dcid)

-- run_0xDEAD
unfoldable pub run_dead : (Packet → List ℕ → ℕ → Slow) → Packet → ReuseportStorage → ℤ × ℕ
unfolding after_fast parse_quic_fast
run_dead slow md state = after_fast slow md state (parse_quic_fast md)

-- run_bespoke_by_digest
unfoldable pub run_bespoke_by_digest :
    (Packet → List ℕ → ℕ → Slow) → Packet → ℕ → ReuseportStorage → ℤ × ℕ
unfolding run_dead
run_bespoke_by_digest slow md digest state =
    if digest == 0xdead then run_dead slow md state else (ierr_instrexceeded, 0)
