-- ===== src/Storage/Identity.antt =====
-- What stays the same in a group through every operation but the daemon's (ebpf/ebpf.c), and how
-- an operation writes to the map of groups.
use udpgrm.Base.{
  ◌≡◌, refl, ◌∙◌, ap, subst, ◌⊎◌, inl, inr, some, lookup, insert, lookup-insert, erase,
  lookup-erase, false, none, Bool-cases,
}
use udpgrm.Storage.{
  World, ReuseportStorage, SockKey, metric_inc, skey_from_bpf_sock, find_state, sock_key,
  sock_key_eqb, sock_key_eqb_iff,
}
use udpgrm.Storage.Counters.{Metric}
use udpgrm.Storage.Helpers.{BpfSock}

-- Two states of one group: the dissector, the identity and the table of sockets are the same.
pub record SameGroup (a b : ReuseportStorage) : Type 0 where
  pub dis : b.dis ≡ a.dis
  pub random_id : b.random_id ≡ a.random_id
  pub netns_cookie : b.netns_cookie ≡ a.netns_cookie
  pub max_idx : b.max_idx ≡ a.max_idx
  pub cookies : b.cookies ≡ a.cookies

pub SameGroup-refl : (a : ReuseportStorage) → SameGroup a a
SameGroup-refl a = record {
  dis = refl;
  random_id = refl;
  netns_cookie = refl;
  max_idx = refl;
  cookies = refl;
}

pub SameGroup-trans : {a b c : ReuseportStorage} → SameGroup a b → SameGroup b c → SameGroup a c
SameGroup-trans p q = record {
  dis = q.dis ∙ p.dis;
  random_id = q.random_id ∙ p.random_id;
  netns_cookie = q.netns_cookie ∙ p.netns_cookie;
  max_idx = q.max_idx ∙ p.max_idx;
  cookies = q.cookies ∙ p.cookies;
}

pub metric_inc-SameGroup : (m : Metric) (a : ReuseportStorage) → SameGroup a (metric_inc m a)
unfolding metric_inc
metric_inc-SameGroup m a = record {
  dis = refl;
  random_id = refl;
  netns_cookie = refl;
  max_idx = refl;
  cookies = refl;
}

-- One more count after a change.
pub inc-SameGroup :
    (m : Metric) {a b : ReuseportStorage} → SameGroup a b → SameGroup a (metric_inc m b)
inc-SameGroup m {b = b} h = SameGroup-trans h (metric_inc-SameGroup m b)

-- The map of groups is as it was, or a state with `P` was written at the group of `sk`.
abbrev pub Writes : (ReuseportStorage → Type 0) → World → BpfSock → World → Type 0
Writes P w sk w' =
    (w'.groups ≡ w.groups)
    ⊎ ((st : ReuseportStorage) × P st × (w'.groups ≡ insert (skey_from_bpf_sock sk) st w.groups))

-- A group that was there is there still, and `P` holds between its states.
pub record Keeps (P : ReuseportStorage → ReuseportStorage → Type 0) (w w' : World) : Type 0 where
  pub at :
      (j : SockKey) (a : ReuseportStorage)
      → lookup j w.groups ≡ some a
      → (b : ReuseportStorage) × (lookup j w'.groups ≡ some b) × P a b

pub Keeps-refl : (w : World) → Keeps SameGroup w w
Keeps-refl w = record { at = λ j a h. (a, h, SameGroup-refl a) }

-- A write to the group that was found keeps all groups.
pub Writes-Keeps :
    {w w' : World} (sk : BpfSock) {state : ReuseportStorage}
    → find_state w sk ≡ some state
    → Writes (SameGroup state) w sk w'
    → Keeps SameGroup w w'
unfolding find_state
Writes-Keeps sk found (inl e) = record { at = λ j a h. (a, rw e h, SameGroup-refl a) }
Writes-Keeps {w} {w'} sk {state} found (inr (st, same, e)) = record { at = one }
  where
    one :
        (j : SockKey) (a : ReuseportStorage)
        → lookup j w.groups ≡ some a
        → (b : ReuseportStorage) × (lookup j w'.groups ≡ some b) × SameGroup a b
    one j a h = elim (Bool-cases (sock_key_eqb (skey_from_bpf_sock sk) j)) [
      | inl eq ↦
          let p : skey_from_bpf_sock sk ≡ j = (sock_key_eqb_iff _ j).0 eq in
          let q : state ≡ a = cc (found, ap (λ (x : SockKey). lookup x w.groups) p) in
          (st, rw (e, lookup-insert, eq), subst (λ x. SameGroup x st) q same)
      | inr ne ↦ (a, rw (e, lookup-insert, ne) h, SameGroup-refl a)
    ]

-- The same, or the group of `sk` was deleted.
abbrev pub Rewrites : (ReuseportStorage → Type 0) → World → BpfSock → World → Type 0
Rewrites P w sk w' = Writes P w sk w' ⊎ (w'.groups ≡ erase (skey_from_bpf_sock sk) w.groups)

-- No group but that of `sk` differs.
pub record Frame (w : World) (sk : BpfSock) (w' : World) : Type 0 where
  pub at :
      (j : SockKey)
      → sock_key_eqb (skey_from_bpf_sock sk) j ≡ false
      → lookup j w'.groups ≡ lookup j w.groups

pub Rewrites-Frame :
    (P : ReuseportStorage → Type 0) {w w' : World} (sk : BpfSock)
    → Rewrites P w sk w'
    → Frame w sk w'
Rewrites-Frame P sk (inl (inl e)) = record { at = λ j ne. rw e }
Rewrites-Frame P sk (inl (inr (st, _, e))) = record { at = λ j ne. rw (e, lookup-insert, ne) }
Rewrites-Frame P sk (inr e) = record { at = λ j ne. rw (e, lookup-erase, ne) }

pub Frame-trans : {w v u : World} (sk : BpfSock) → Frame w sk v → Frame v sk u → Frame w sk u
Frame-trans sk p q = record { at = λ j ne. q.at j ne ∙ p.at j ne }

-- Where the group of `sk` was not there, a frame keeps all groups.
pub Frame-Keeps :
    {w w' : World} (sk : BpfSock) → find_state w sk ≡ none → Frame w sk w' → Keeps SameGroup w w'
unfolding find_state
Frame-Keeps {w} {w'} sk absent f = record { at = one }
  where
    one :
        (j : SockKey) (a : ReuseportStorage)
        → lookup j w.groups ≡ some a
        → (b : ReuseportStorage) × (lookup j w'.groups ≡ some b) × SameGroup a b
    one j a h = elim (Bool-cases (sock_key_eqb (skey_from_bpf_sock sk) j)) [
      | inl eq ↦
          let p : skey_from_bpf_sock sk ≡ j = (sock_key_eqb_iff _ j).0 eq in
          absurd (cc (absent, ap (λ (x : SockKey). lookup x w.groups) p))
      | inr ne ↦ (a, f.at j ne ∙ h, SameGroup-refl a)
    ]

-- `P` holds of every group.
pub record AllGroups (P : ReuseportStorage → Type 0) (w : World) : Type 0 where
  pub at : (j : SockKey) (a : ReuseportStorage) → lookup j w.groups ≡ some a → P a

pub Rewrites-AllGroups :
    (P : ReuseportStorage → Type 0) {w w' : World} (sk : BpfSock)
    → Rewrites P w sk w'
    → AllGroups P w
    → AllGroups P w'
Rewrites-AllGroups P sk (inl (inl e)) h = record { at = λ j a x. h.at j a (rw e at x) }
Rewrites-AllGroups P {w} {w'} sk (inl (inr (st, p, e))) h = record { at = one }
  where
    one : (j : SockKey) (a : ReuseportStorage) → lookup j w'.groups ≡ some a → P a
    one j a x = elim (Bool-cases (sock_key_eqb (skey_from_bpf_sock sk) j)) [
      | inl eq ↦ let q : st ≡ a = cc (rw (e, lookup-insert, eq) at x) in subst P q p
      | inr ne ↦ h.at j a (rw (e, lookup-insert, ne) at x)
    ]
Rewrites-AllGroups P {w} {w'} sk (inr e) h = record { at = one }
  where
    one : (j : SockKey) (a : ReuseportStorage) → lookup j w'.groups ≡ some a → P a
    one j a x = elim (Bool-cases (sock_key_eqb (skey_from_bpf_sock sk) j)) [
      | inl eq ↦ absurd (cc (rw (e, lookup-erase, eq) at x))
      | inr ne ↦ h.at j a (rw (e, lookup-erase, ne) at x)
    ]

pub Writes-map :
    {P Q : ReuseportStorage → Type 0} (w : World) (sk : BpfSock) (w' : World)
    → ((st : ReuseportStorage) → P st → Q st)
    → Writes P w sk w'
    → Writes Q w sk w'
Writes-map w sk w' f (inl e) = inl e
Writes-map w sk w' f (inr (st, p, e)) = inr (st, f st p, e)
