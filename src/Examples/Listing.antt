-- ===== src/Examples/Listing.antt =====
-- The flows of two sockets whose cookies share a list (src/do_flows.c).
use udpgrm.Base.{
  ℕ, ◌*◌, ◌^◌, ◌<◌, ◌==◌, if◌then◌else◌, Option, none, some, [], ◌∷◌, lookup, false, not, ◌≡◌, refl,
  arith,
}
use udpgrm.Storage.{SockKey, ReuseportStorage, LruValue, World, empty_state}
use udpgrm.Flow.{is_live}
use udpgrm.Listing.{
  group_name, so_cookie, flow, add_item, add_found, is_stale, timeout_sec, asked_keys, do_flows,
}
use udpgrm.Listing.Groups.{listed, do_flows-listed}
use udpgrm.Listing.Stale.{is_stale-is_live}

abbrev dns : SockKey
dns = record { family = 2; src_port = 53; ip0 = 1; ip1 = 0; ip2 = 0; ip3 = 0 }

-- Sockets 5 and 261 in generation 0, and a closed one, 7, between them.
abbrev dns_group : ReuseportStorage
dns_group = record empty_state {
  max_idx = λ gen. if gen == 0 then 3 else 0;
  cookies = λ gen j. if j == 0 then 5 else if j == 1 then 7 else 261;
}

abbrev sent : ℕ → ℕ → LruValue
sent sec cookie = record { last_tx_ns = sec * 1_000_000_000; cookie = cookie }

abbrev dns_maps : World
dns_maps = record {
  groups = (dns, dns_group) ∷ [];
  sockets = λ _. none;
  flows = λ h.
      if h == 1
      then some (sent 900 5)
      else if h == 2
      then some (sent 990 261)
      else if h == 3
      then some (sent 800 5)
      else if h == 4
      then some (sent 1000 7)
      else none;
  ring = [];
}

abbrev but_seven : ℕ → Option ℕ
but_seven c = if c == 7 then none else some 1

-- The flow with hash 3 is older than the 125 seconds of the default.
dns_listed :
    do_flows dns_maps (λ _. 1_000_000_000_000) but_seven (1 ∷ 2 ∷ 3 ∷ 4 ∷ 9 ∷ []) (dns ∷ []) none 0
    ≡ group_name dns
      ∷ so_cookie 5
      ∷ flow 1 100_000_000_000 false
      ∷ so_cookie 261
      ∷ flow 2 10_000_000_000 false
      ∷ []
unfolding do_flows lookup add_found add_item
dns_listed = refl

do_flows-listed_example :
    do_flows dns_maps (λ _. 1_000_000_000_000) but_seven (1 ∷ 2 ∷ 3 ∷ 4 ∷ 9 ∷ []) (dns ∷ []) none 1
    ≡ listed dns_maps
        (λ _. 1_000_000_000_000)
        but_seven
        (1 ∷ 2 ∷ 3 ∷ 4 ∷ 9 ∷ [])
        1
        (asked_keys none (dns ∷ []))
do_flows-listed_example =
    do_flows-listed dns_maps (λ _. 1_000_000_000_000) but_seven (1 ∷ 2 ∷ 3 ∷ 4 ∷ 9 ∷ []) (dns ∷ [])
      none 1

dns_timeout : timeout_sec dns_group * 1_000_000_000 < 2 ^ 53
unfolding timeout_sec
dns_timeout = omega arith

is_stale-is_live_example :
    is_stale dns_group 1_000_000_000_000 (sent 800 5)
    ≡ not (is_live dns_group 1_000_000_000_000 (sent 800 5))
is_stale-is_live_example =
    is_stale-is_live dns_group 1_000_000_000_000 (sent 800 5) (omega arith) dns_timeout
