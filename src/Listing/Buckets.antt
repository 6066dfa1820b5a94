-- ===== src/Listing/Buckets.antt =====
-- The lists of do_flows by cookie against the flow table itself (src/do_flows.c).
use udpgrm.Base.{
  ℕ, ◌%◌, Bool, true, false, not, ◌&&◌, ◌||◌, Option, none, some, List, [], ◌∷◌, ltb, ◌==◌,
  if◌then◌else◌, sub64, ◌≡◌, refl, ap, sym, ◌∙◌, arith,
}
use udpgrm.Storage.{sock_key, ReuseportStorage, LruValue}
use udpgrm.Listing.{
  Item, Line, so_cookie, flow, add_item, add_found, load_flows, is_stale, show_bucket,
}

-- The flows of a cookie in the table, those that are listed last first.
unfoldable pub own : ℕ → ℕ → Option LruValue → List Item → List Item
own c key none items = items
own c key (some value) items =
    if value.cookie == c then record { rx_hash = key; value = value } ∷ items else items

unfoldable pub own_flows : (ℕ → Option LruValue) → ℕ → List ℕ → List Item → List Item
unfolding own
own_flows lru c [] items = items
own_flows lru c (key ∷ keys) items = own_flows lru c keys (own c key (lru key) items)

-- Those that are printed, each on its line.
unfoldable pub lines : ReuseportStorage → ℕ → ℕ → List Item → List Line
lines s verbose now [] = []
lines s verbose now (item ∷ items) =
    let stale = is_stale s now item.value in
    let rest = lines s verbose now items in
    if not stale || ltb 0 verbose
    then flow item.rx_hash (sub64 now item.value.last_tx_ns) stale ∷ rest
    else rest

unfoldable pub headed : ℕ → List Line → List Line
headed c [] = []
headed c (line ∷ rest) = so_cookie c ∷ line ∷ rest

-- The items of a cookie in a list.
unfoldable select : ℕ → List Item → List Item
select c [] = []
select c (item ∷ items) =
    let rest = select c items in if item.value.cookie == c then item ∷ rest else rest

show_bucket-lines :
    (s : ReuseportStorage) (verbose now c : ℕ) (items : List Item)
    → show_bucket s verbose now c true items ≡ lines s verbose now (select c items)
unfolding show_bucket lines select
show_bucket-lines s verbose now c [] = refl
show_bucket-lines s verbose now c (item ∷ items) =
    ground (arith, show_bucket-lines s verbose now c items)

-- The lines of a list of items, of which the first has the cookie or not, and is printed or not.
unfoldable first_line : Bool → Bool → Line → List Line → List Line
first_line true true line rest = line ∷ rest
first_line true false line rest = rest
first_line false shown line rest = rest

lines-select :
    (s : ReuseportStorage) (verbose now c : ℕ) (item : Item) (items : List Item)
    → lines s verbose now (select c (item ∷ items))
      ≡ first_line
          (item.value.cookie == c)
          (not (is_stale s now item.value) || ltb 0 verbose)
          (flow item.rx_hash (sub64 now item.value.last_tx_ns) (is_stale s now item.value))
          (lines s verbose now (select c items))
unfolding lines select first_line
lines-select s verbose now c item items = ground arith

headed-first_line :
    (c : ℕ) (same printed : Bool) (line : Line) (shows : Bool → List Line) (rest : List Line)
    → shows true ≡ rest
    → shows false ≡ headed c rest
    → (if same && printed
        then so_cookie c ∷ line ∷ shows (same && printed)
        else shows (same && printed))
      ≡ headed c (first_line same printed line rest)
unfolding headed first_line
headed-first_line c true true line shows rest h g = ap (λ r. so_cookie c ∷ line ∷ r) h
headed-first_line c true false line shows rest h g = g
headed-first_line c false printed line shows rest h g = g

show_bucket-headed_nil :
    (s : ReuseportStorage) (verbose now c : ℕ)
    → show_bucket s verbose now c false [] ≡ headed c (lines s verbose now (select c []))
unfolding show_bucket headed lines select
show_bucket-headed_nil s verbose now c = refl

show_bucket-headed :
    (s : ReuseportStorage) (verbose now c : ℕ) (items : List Item)
    → show_bucket s verbose now c false items ≡ headed c (lines s verbose now (select c items))
unfolding show_bucket
show_bucket-headed s verbose now c [] = show_bucket-headed_nil s verbose now c
show_bucket-headed s verbose now c (item ∷ items) =
    headed-first_line c (item.value.cookie == c) (not (is_stale s now item.value) || ltb 0 verbose)
      (flow item.rx_hash (sub64 now item.value.last_tx_ns) (is_stale s now item.value))
      (λ first. show_bucket s verbose now c first items) (lines s verbose now (select c items))
      (show_bucket-lines s verbose now c items) (show_bucket-headed s verbose now c items)
    ∙ ap (headed c) (sym (lines-select s verbose now c item items))

select-add_found :
    (c key : ℕ) (found : Option LruValue) (flows : ℕ → List Item) (items : List Item)
    → select c (flows (c % 256)) ≡ items
    → select c (add_found key found flows (c % 256)) ≡ own c key found items
unfolding select add_found add_item own
select-add_found c key none flows items h = h
select-add_found c key (some value) flows items h = ground arith

select-load_flows :
    (lru : ℕ → Option LruValue) (c : ℕ) (keys : List ℕ) (flows : ℕ → List Item) (items : List Item)
    → select c (flows (c % 256)) ≡ items
    → select c (load_flows lru keys flows (c % 256)) ≡ own_flows lru c keys items
unfolding load_flows own_flows
select-load_flows lru c [] flows items h = h
select-load_flows lru c (key ∷ keys) flows items h =
    select-load_flows lru c keys (add_found key (lru key) flows) (own c key (lru key) items)
      (select-add_found c key (lru key) flows items h)

-- The lines of a cookie.
unfoldable pub cookie_lines :
    ReuseportStorage → (ℕ → Option LruValue) → List ℕ → ℕ → ℕ → ℕ → List Line
unfolding own_flows lines headed
cookie_lines s lru lru_keys verbose now c =
    headed c (lines s verbose now (own_flows lru c lru_keys []))

pub show_bucket-cookie_lines :
    (s : ReuseportStorage) (lru : ℕ → Option LruValue) (lru_keys : List ℕ) (verbose now c : ℕ)
    → show_bucket s verbose now c false (load_flows lru lru_keys (λ _. []) (c % 256))
      ≡ cookie_lines s lru lru_keys verbose now c
unfolding cookie_lines select
show_bucket-cookie_lines s lru lru_keys verbose now c =
    show_bucket-headed s verbose now c (load_flows lru lru_keys (λ _. []) (c % 256))
    ∙ ap (λ items. headed c (lines s verbose now items))
        (select-load_flows lru c lru_keys (λ _. []) [] refl)
