-- ===== src/Listing.antt =====
-- The command that lists flows (src/do_flows.c). The key lists of bpf_map_get_next_key and the
-- clock are arguments; what it prints is a list of lines, before they are formatted.
pub mod Buckets
pub mod Groups
pub mod Stale
use udpgrm.Base.{
  ℕ, zero, suc, ◌+◌, ◌-◌, ◌*◌, ◌/◌, ◌%◌, ◌^◌, Bool, true, false, not, ◌&&◌, ◌||◌, Option, none,
  some, List, [], ◌∷◌, ◌++◌, lookup, ltb, ◌==◌, if◌then◌else◌, sub64,
}
use udpgrm.Storage.{SockKey, sock_key, ReuseportStorage, LruValue, World}
use udpgrm.Storage.Config.{flow_default_timeout_sec}
use udpgrm.Net.{Sockaddr}
use udpgrm.Net.Key.{skey_from_ss}

-- struct item
pub record Item : Type 0 where
  pub rx_hash : ℕ
  pub value : LruValue

-- What is printed: the name of a group, a socket cookie, and a flow with its hash, its age in
-- nanoseconds and whether it is stale.
pub data Line : Type 0 where
  group_name : SockKey → Line
  so_cookie : ℕ → Line
  flow : ℕ → ℕ → Bool → Line

-- hlist_add_head to the list of the cookie
unfoldable pub add_item : Item → (ℕ → List Item) → ℕ → List Item
add_item item flows b = if b == item.value.cookie % 256 then item ∷ flows b else flows b

-- The lookup of a key, which may have left the map since it was listed.
unfoldable pub add_found : ℕ → Option LruValue → (ℕ → List Item) → ℕ → List Item
add_found key none flows = flows
add_found key (some value) flows = add_item (record { rx_hash = key; value = value }) flows

-- The loop over lru_map.
unfoldable pub load_flows : (ℕ → Option LruValue) → List ℕ → (ℕ → List Item) → ℕ → List Item
load_flows lru [] flows = flows
load_flows lru (key ∷ keys) flows = load_flows lru keys (add_found key (lru key) flows)

-- The binary exponent of a number of at most `fuel` bits.
unfoldable pub exponent : ℕ → ℕ → ℕ
exponent zero n = 0
exponent (suc fuel) n = let rest = exponent fuel (n / 2) in if ltb n 2 then 0 else suc rest

-- A uint64_t as a double: 53 bits, to the nearest, ties to the even one.
unfoldable pub to_double : ℕ → ℕ
unfolding exponent
to_double n =
    let unit = 2 ^ (exponent 64 n - 52) in
    let q = n / unit in
    let r = n % unit in
    if ltb n (2 ^ 53)
    then n
    else (if ltb (2 * r) unit || 2 * r == unit && q % 2 == 0 then q else q + 1) * unit

-- age_ns / 1000000000. > sec, in doubles: the quotient is rounded to a double above `sec`, which
-- has an even significand, when it exceeds `sec` by more than half of the distance to the next one.
unfoldable pub age_above : ℕ → ℕ → Bool
unfolding to_double
age_above age_ns sec =
    ltb (1_000_000_000 * (sec * 2 ^ 53 + 2 ^ exponent 32 sec)) (to_double age_ns * 2 ^ 53)

-- flow_entry_timeout_sec as _do_flows takes it
unfoldable pub timeout_sec : ReuseportStorage → ℕ
timeout_sec s =
    if s.dis.flow_entry_timeout_sec == 0
    then flow_default_timeout_sec
    else s.dis.flow_entry_timeout_sec

unfoldable pub is_stale : ReuseportStorage → ℕ → LruValue → Bool
unfolding age_above timeout_sec
is_stale s now value = age_above (sub64 now value.last_tx_ns) (timeout_sec s)

-- hlist_for_each over the list of a cookie; `first` is set once the cookie is printed.
unfoldable pub show_bucket : ReuseportStorage → ℕ → ℕ → ℕ → Bool → List Item → List Line
unfolding is_stale
show_bucket s verbose now c first [] = []
show_bucket s verbose now c first (item ∷ items) =
    let stale = is_stale s now item.value in
    let shown = item.value.cookie == c && (not stale || ltb 0 verbose) in
    let rest = show_bucket s verbose now c (first || shown) items in
    let line = flow item.rx_hash (sub64 now item.value.last_tx_ns) stale in
    if shown then if first then line ∷ rest else so_cookie c ∷ line ∷ rest else rest

-- Whether the lookup in sockhash returns a value that is not zero.
unfoldable pub has_socket : Option ℕ → Bool
has_socket none = false
has_socket (some v) = not (v == 0)

-- The loop over the cookies of a generation, from index `j` on, `n` of them.
unfoldable pub show_cookies :
    ReuseportStorage → (ℕ → Option ℕ) → ℕ → ℕ → (ℕ → List Item) → ℕ → ℕ → ℕ → List Line
unfolding show_bucket has_socket
show_cookies s sockhash verbose now flows gen j zero = []
show_cookies s sockhash verbose now flows gen j (suc n) =
    let c = s.cookies gen j in
    let rest = show_cookies s sockhash verbose now flows gen (suc j) n in
    if c == 0
    then []
    else if has_socket (sockhash c)
    then show_bucket s verbose now c false (flows (c % 256)) ++ rest
    else rest

-- The loop over the generations, from `gen` on, `n` of them.
unfoldable pub show_gens :
    ReuseportStorage → (ℕ → Option ℕ) → ℕ → ℕ → (ℕ → List Item) → ℕ → ℕ → List Line
unfolding show_cookies
show_gens s sockhash verbose now flows gen zero = []
show_gens s sockhash verbose now flows gen (suc n) =
    show_cookies s sockhash verbose now flows gen 0 (s.max_idx gen)
    ++ show_gens s sockhash verbose now flows (suc gen) n

-- _do_flows
unfoldable pub do_flows_group :
    SockKey → ReuseportStorage → (ℕ → Option ℕ) → ℕ → ℕ → (ℕ → List Item) → List Line
unfolding show_gens
do_flows_group key s sockhash verbose now flows =
    group_name key ∷ show_gens s sockhash verbose now flows 0 32

-- What the loop over reuseport_storage_map does with a key.
unfoldable pub show_found :
    SockKey → Option ReuseportStorage → (ℕ → Option ℕ) → ℕ → ℕ → (ℕ → List Item) → List Line
unfolding do_flows_group
show_found key none sockhash verbose now flows = []
show_found key (some s) sockhash verbose now flows = do_flows_group key s sockhash verbose now flows

-- The loop over reuseport_storage_map; the clock is read for each group.
unfoldable pub show_groups :
    World → (SockKey → ℕ) → (ℕ → Option ℕ) → ℕ → (ℕ → List Item) → List SockKey → List Line
unfolding show_found
show_groups w clock sockhash verbose flows [] = []
show_groups w clock sockhash verbose flows (key ∷ keys) =
    show_found key (lookup key w.groups) sockhash verbose (clock key) flows
    ++ show_groups w clock sockhash verbose flows keys

-- One group, of the address that is asked for, or all of them.
unfoldable pub asked_keys : Option Sockaddr → List SockKey → List SockKey
asked_keys none keys = keys
asked_keys (some reuseport_ss) keys = skey_from_ss reuseport_ss ∷ []

-- do_flows
unfoldable pub do_flows :
    World → (SockKey → ℕ) → (ℕ → Option ℕ) → List ℕ → List SockKey → Option Sockaddr → ℕ → List Line
unfolding show_groups load_flows asked_keys
do_flows w clock sockhash lru_keys group_keys reuseport_ss verbose =
    let flows = load_flows w.flows lru_keys (λ _. []) in
    show_groups w clock sockhash verbose flows (asked_keys reuseport_ss group_keys)
