-- ===== src/Quic/Slow.antt =====
-- run_0xDEAD on an initial packet (ebpf/ebpf_bespoke.c): the keys, the header, the server name; and
-- the bounds of all reads on the way (ebpf/ebpf_quic.c).
use udpgrm.Base.{
  ℕ, ◌-◌, ◌<◌, none, some, List, ◌++◌, ◌==◌, if◌then◌else◌, length, replicate, ◌⊎◌, ◌≡◌,
}
use udpgrm.Storage.Helpers.{Packet}
use udpgrm.Dead.{Slow, failed, no_sni, sni}
use udpgrm.Quic.Keys.{QuicKeys, expand_client_keys_from_dcid}
use udpgrm.Quic.Hello.{Result, value, error, fault, ◌>>=◌, Sni}
use udpgrm.Quic.Header.{Header, Window, quic_parse_hdr, quic_extract_sni}

-- scratch->sni, cleared before the search, if scratch->sni_len is set.
unfoldable pub found_sni : Result Sni → Slow
found_sni (value none) = no_sni
found_sni (value (some (name, sni_len))) =
    if sni_len == 0 then no_sni else sni (name ++ replicate (150 - length name) 0)
found_sni (error r) = no_sni
found_sni fault = no_sni

unfoldable pub after_header : Packet → QuicKeys → Result (Header × List ℕ) → Slow
unfolding found_sni
after_header md keys (value (h, pkt)) = found_sni (quic_extract_sni md keys h pkt)
after_header md keys (error r) = failed r
after_header md keys fault = no_sni

-- The slow path, from the bytes that scratch->pkt holds before it.
unfoldable pub quic_slow : List ℕ → Packet → List ℕ → ℕ → Slow
unfolding after_header
quic_slow pkt md dcid dcid_len =
    let keys = expand_client_keys_from_dcid dcid dcid_len in
    after_header md keys (quic_parse_hdr md keys pkt)

-- All that it reads, in one computation.
unfoldable pub quic_reads : Packet → QuicKeys → List ℕ → Result Sni
quic_reads md keys pkt = quic_parse_hdr md keys pkt >>= λ (h, pkt'). quic_extract_sni md keys h pkt'

-- A load that succeeds gives as many bytes as were asked for.
abbrev pub LoadsAll : Packet → Type 0
LoadsAll md = (off n : ℕ) (bytes : List ℕ) → md.load off n ≡ some bytes → length bytes ≡ n

module _ (win : List ℕ) where
  -- The payload starts inside of the window, if there is one.
  abbrev Starts : Header → Type 0
  Starts h = (h.enc_offset < length win) ⊎ (h.packet_len ≡ 0)

abbrev IsFull : Window → Type 0
IsFull w = length w.pkt ≡ 1024
