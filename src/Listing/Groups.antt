-- ===== src/Listing/Groups.antt =====
-- The output of do_flows (src/do_flows.c) by the groups and the flow table, without the lists by cookie.
use udpgrm.Base.{
  ℕ, zero, suc, Option, none, some, List, [], ◌∷◌, ◌++◌, lookup, ◌==◌, if◌then◌else◌, ◌≡◌, refl, ap,
  sym, ◌∙◌, arith,
}
use mathlib.Core.Path.{ap₂}
use udpgrm.Storage.{SockKey, sock_key, ReuseportStorage, LruValue, World}
use udpgrm.Net.{Sockaddr}
use udpgrm.Listing.{
  Line, group_name, load_flows, has_socket, show_cookies, show_gens, do_flows_group, show_found,
  show_groups, asked_keys, do_flows,
}
use udpgrm.Listing.Buckets.{cookie_lines, show_bucket-cookie_lines}

-- The cookies with a socket, up to the first that is zero.
unfoldable pub live_cookies : (ℕ → ℕ) → (ℕ → Option ℕ) → ℕ → ℕ → List ℕ
live_cookies cookies sockhash j zero = []
live_cookies cookies sockhash j (suc n) =
    let rest = live_cookies cookies sockhash (suc j) n in
    if cookies j == 0
    then []
    else if has_socket (sockhash (cookies j))
    then cookies j ∷ rest
    else rest

-- Those of the generations from `gen` on.
unfoldable pub table_cookies : ReuseportStorage → (ℕ → Option ℕ) → ℕ → ℕ → List ℕ
unfolding live_cookies
table_cookies s sockhash gen zero = []
table_cookies s sockhash gen (suc n) =
    live_cookies (s.cookies gen) sockhash 0 (s.max_idx gen) ++ table_cookies s sockhash (suc gen) n

unfoldable pub all_lines : (ℕ → List Line) → List ℕ → List Line
all_lines f [] = []
all_lines f (c ∷ cs) = f c ++ all_lines f cs

-- A group that is there, with the flows of its live cookies.
unfoldable pub listed_group :
    SockKey
    → Option ReuseportStorage
    → (ℕ → Option ℕ)
    → (ℕ → Option LruValue)
    → List ℕ
    → ℕ
    → ℕ
    → List Line
unfolding all_lines table_cookies
listed_group key none sockhash lru lru_keys verbose now = []
listed_group key (some s) sockhash lru lru_keys verbose now =
    group_name key
    ∷ all_lines (cookie_lines s lru lru_keys verbose now) (table_cookies s sockhash 0 32)

unfoldable pub listed :
    World → (SockKey → ℕ) → (ℕ → Option ℕ) → List ℕ → ℕ → List SockKey → List Line
unfolding listed_group
listed w clock sockhash lru_keys verbose [] = []
listed w clock sockhash lru_keys verbose (key ∷ keys) =
    listed_group key (lookup key w.groups) sockhash w.flows lru_keys verbose (clock key)
    ++ listed w clock sockhash lru_keys verbose keys

append_assoc : (xs ys zs : List Line) → (xs ++ ys) ++ zs ≡ xs ++ (ys ++ zs)
append_assoc [] ys zs = refl
append_assoc (x ∷ xs) ys zs = ap (λ l. x ∷ l) (append_assoc xs ys zs)

all_lines-append :
    (f : ℕ → List Line) (cs ds : List ℕ) → all_lines f (cs ++ ds) ≡ all_lines f cs ++ all_lines f ds
unfolding all_lines
all_lines-append f [] ds = refl
all_lines-append f (c ∷ cs) ds =
    ap (λ l. f c ++ l) (all_lines-append f cs ds)
    ∙ sym (append_assoc (f c) (all_lines f cs) (all_lines f ds))

module _ (s : ReuseportStorage) (sockhash : ℕ → Option ℕ) (lru : ℕ → Option LruValue)
    (lru_keys : List ℕ) (verbose now : ℕ) where
  show_cookies-all_lines :
      (gen j n : ℕ)
      → show_cookies s sockhash verbose now (load_flows lru lru_keys (λ _. [])) gen j n
        ≡ all_lines
            (cookie_lines s lru lru_keys verbose now)
            (live_cookies (s.cookies gen) sockhash j n)
  unfolding show_cookies live_cookies all_lines
  show_cookies-all_lines gen j zero = refl
  show_cookies-all_lines gen j (suc n) = ground (
    arith,
    show_bucket-cookie_lines s lru lru_keys verbose now (s.cookies gen j),
    show_cookies-all_lines gen (suc j) n,
  )

  show_gens-all_lines :
      (gen n : ℕ)
      → show_gens s sockhash verbose now (load_flows lru lru_keys (λ _. [])) gen n
        ≡ all_lines (cookie_lines s lru lru_keys verbose now) (table_cookies s sockhash gen n)
  unfolding show_gens table_cookies all_lines
  show_gens-all_lines gen zero = refl
  show_gens-all_lines gen (suc n) =
      ap₂ (λ xs ys. xs ++ ys) (show_cookies-all_lines gen 0 (s.max_idx gen))
        (show_gens-all_lines (suc gen) n)
      ∙ sym (
          all_lines-append (cookie_lines s lru lru_keys verbose now)
            (live_cookies (s.cookies gen) sockhash 0 (s.max_idx gen))
            (table_cookies s sockhash (suc gen) n))

show_found-listed_group :
    (key : SockKey) (found : Option ReuseportStorage) (sockhash : ℕ → Option ℕ)
    (lru : ℕ → Option LruValue) (lru_keys : List ℕ) (verbose now : ℕ)
    → show_found key found sockhash verbose now (load_flows lru lru_keys (λ _. []))
      ≡ listed_group key found sockhash lru lru_keys verbose now
unfolding show_found listed_group do_flows_group
show_found-listed_group key none sockhash lru lru_keys verbose now = refl
show_found-listed_group key (some s) sockhash lru lru_keys verbose now =
    ap (λ l. group_name key ∷ l) (show_gens-all_lines s sockhash lru lru_keys verbose now 0 32)

show_groups-listed :
    (w : World) (clock : SockKey → ℕ) (sockhash : ℕ → Option ℕ) (lru_keys : List ℕ) (verbose : ℕ)
    (keys : List SockKey)
    → show_groups w clock sockhash verbose (load_flows w.flows lru_keys (λ _. [])) keys
      ≡ listed w clock sockhash lru_keys verbose keys
unfolding show_groups listed
show_groups-listed w clock sockhash lru_keys verbose [] = refl
show_groups-listed w clock sockhash lru_keys verbose (key ∷ keys) =
    ap₂ (λ xs ys. xs ++ ys)
      (show_found-listed_group key (lookup key w.groups) sockhash w.flows lru_keys verbose
        (clock key))
      (show_groups-listed w clock sockhash lru_keys verbose keys)

-- do_flows prints, for each group that is asked for and there, its name and then for each cookie
-- of its table with a socket, up to the first free slot of each generation, the flows of the flow
-- table with that cookie, those that are listed last first, under one line with the cookie if any
-- is printed: all of them when `verbose` is not 0, otherwise those that are not stale. The lists
-- by the cookie modulo 256 do not show.
pub do_flows-listed :
    (w : World) (clock : SockKey → ℕ) (sockhash : ℕ → Option ℕ) (lru_keys : List ℕ)
    (group_keys : List SockKey) (reuseport_ss : Option Sockaddr) (verbose : ℕ)
    → do_flows w clock sockhash lru_keys group_keys reuseport_ss verbose
      ≡ listed w clock sockhash lru_keys verbose (asked_keys reuseport_ss group_keys)
unfolding do_flows
do_flows-listed w clock sockhash lru_keys group_keys reuseport_ss verbose =
    show_groups-listed w clock sockhash lru_keys verbose (asked_keys reuseport_ss group_keys)
