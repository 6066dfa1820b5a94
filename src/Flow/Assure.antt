-- ===== src/Flow/Assure.antt =====
-- What flow_assure promises (ebpf/ebpf.c).
use udpgrm.Base.{
  ℕ, ◌≡◌, refl, ◌⊎◌, inl, inr, ◌↔◌, ◌≢◌, true, false, Option, none, some, eqℤ, pos, ◌==◌, ==-refl,
  ==_iff, if_cases, arith, Option-cases,
}
use udpgrm.Storage.{ReuseportStorage, SocketStorage, LruValue, metric_inc}
use udpgrm.Storage.Counters.{
  tx_total, tx_flow_create_ok, tx_flow_create_from_expired_ok, tx_flow_create_error,
  tx_flow_update_ok, tx_flow_update_conflict,
}
use udpgrm.Storage.Helpers.{Kernel}
use udpgrm.Storage.Identity.{SameGroup, metric_inc-SameGroup, inc-SameGroup}
use udpgrm.Flow.{Assured, flow_assure, assure_new, assure_found, is_live}

module _ (k : Kernel) (s : SocketStorage) (hash : ℕ) where
  -- How a call ends: the entry at the hash is the socket's and has the time of this call, or the
  -- table is as it was.
  pub data Ends (flows : ℕ → Option LruValue) (r : Assured) : Type 0 where
    fresh :
        (value : LruValue)
        → r.assured ≡ true
        → r.flows hash ≡ some value
        → value.cookie ≡ s.so_cookie
        → (value.last_tx_ns ≡ k.now) ⊎ (value.last_tx_ns ≡ k.now_later)
        → Ends flows r
    refused : r.assured ≡ false → r.flows ≡ flows → Ends flows r

  assure_new-Ends :
      (state : ReuseportStorage) (flows : ℕ → Option LruValue)
      → Ends flows (assure_new k state s hash flows)
  unfolding assure_new
  assure_new-Ends state flows =
      if_cases (Ends flows) (eqℤ k.update_flow (pos 0)) _ _
        (λ _.
          fresh (record { last_tx_ns = k.now; cookie = s.so_cookie }) refl (rw (==-refl hash)) refl
            (inl refl))
        (λ _. refused refl refl)

  assure_found-Ends :
      (state : ReuseportStorage) (flows : ℕ → Option LruValue) (value : LruValue)
      → Ends flows (assure_found k state s hash value flows)
  unfolding assure_found
  assure_found-Ends state flows value =
      if_cases (Ends flows) (is_live state k.now value) _ _
        (λ _.
          if_cases (Ends flows) (value.cookie == s.so_cookie) _ _
            (λ same.
              fresh (record value { last_tx_ns = k.now }) refl (rw (==-refl hash))
                ((==_iff _ _).0 same) (inl refl))
            (λ _. refused refl refl))
        (λ _.
          fresh (record { last_tx_ns = k.now_later; cookie = s.so_cookie }) refl (rw (==-refl hash))
            refl (inr refl))

  -- Either flow_assure returns 1, and the entry at the flow hash is the socket's and has a time of this
  -- call, or it returns 0 and the table is as it was.
  pub flow_assure-Ends :
      (state : ReuseportStorage) (flows : ℕ → Option LruValue)
      → Ends flows (flow_assure k state s hash flows)
  unfolding flow_assure
  flow_assure-Ends state flows = elim (Option-cases (flows hash)) [
    | inl e ↦ rw (e, flow_assure) (assure_new-Ends (metric_inc tx_total state) flows)
    | inr (value, e) ↦
        rw (e, flow_assure) (assure_found-Ends (metric_inc tx_total state) flows value)
  ]

  -- Why a call is refused: no entry and no room for one, or an entry of another socket.
  pub data Obstacle (state : ReuseportStorage) (flows : ℕ → Option LruValue) : Type 0 where
    no_room : flows hash ≡ none → eqℤ k.update_flow (pos 0) ≡ false → Obstacle state flows
    foreign :
        (value : LruValue)
        → flows hash ≡ some value
        → is_live state k.now value ≡ true
        → value.cookie ≢ s.so_cookie
        → Obstacle state flows

  refused-Obstacle :
      (state : ReuseportStorage) (flows : ℕ → Option LruValue)
      → (flow_assure k state s hash flows).assured ≡ false
      → Obstacle state flows
  unfolding flow_assure metric_inc
  refused-Obstacle state flows h = elim (Option-cases (flows hash)) [
    | inl e ↦ no_room e (ground arith)
    | inr (value, e) ↦ foreign value e (ground arith) (ground arith)
  ]

  Obstacle-refused :
      (state : ReuseportStorage) (flows : ℕ → Option LruValue)
      → Obstacle state flows
      → (flow_assure k state s hash flows).assured ≡ false
  unfolding flow_assure metric_inc
  Obstacle-refused state flows (no_room e h) = rw (e, flow_assure, h)
  Obstacle-refused state flows (foreign value e h n) = rw (e, flow_assure) (ground arith)

  -- flow_assure returns 0 exactly if there is no entry and the map does not take one, or the entry is
  -- live and belongs to another socket.
  pub flow_assure_refuses :
      (state : ReuseportStorage) (flows : ℕ → Option LruValue)
      → ((flow_assure k state s hash flows).assured ≡ false) ↔ Obstacle state flows
  flow_assure_refuses state flows = (refused-Obstacle state flows, Obstacle-refused state flows)

module _ (k : Kernel) (a : ReuseportStorage) (s : SocketStorage) (hash : ℕ) where
  assure_new-SameGroup :
      (state : ReuseportStorage) (flows : ℕ → Option LruValue)
      → SameGroup a state
      → SameGroup a (assure_new k state s hash flows).state
  unfolding assure_new
  assure_new-SameGroup state flows h =
      if_cases (λ (r : Assured). SameGroup a r.state) (eqℤ k.update_flow (pos 0)) _ _
        (λ _. inc-SameGroup tx_flow_create_ok h) (λ _. inc-SameGroup tx_flow_create_error h)

  assure_found-SameGroup :
      (state : ReuseportStorage) (value : LruValue) (flows : ℕ → Option LruValue)
      → SameGroup a state
      → SameGroup a (assure_found k state s hash value flows).state
  unfolding assure_found
  assure_found-SameGroup state value flows h =
      if_cases (λ (r : Assured). SameGroup a r.state) (is_live state k.now value) _ _
        (λ _.
          if_cases (λ (r : Assured). SameGroup a r.state) (value.cookie == s.so_cookie) _ _
            (λ _. inc-SameGroup tx_flow_update_ok h) (λ _. inc-SameGroup tx_flow_update_conflict h))
        (λ _. inc-SameGroup tx_flow_create_from_expired_ok (inc-SameGroup tx_flow_create_ok h))

-- Nothing of the group but its counters changes.
pub flow_assure-SameGroup :
    (k : Kernel) (state : ReuseportStorage) (s : SocketStorage) (hash : ℕ)
    (flows : ℕ → Option LruValue)
    → SameGroup state (flow_assure k state s hash flows).state
unfolding flow_assure
flow_assure-SameGroup k state s hash flows =
    let counted = metric_inc-SameGroup tx_total state in
    elim (Option-cases (flows hash)) [
      | inl e ↦ rw (e, flow_assure) (assure_new-SameGroup k state s hash _ flows counted)
      | inr (value, e) ↦
          rw (e, flow_assure) (assure_found-SameGroup k state s hash _ value flows counted)
    ]
