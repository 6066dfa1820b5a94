-- ===== src/Daemon/Slots.antt =====
-- What cookies_find_empty finds (src/uspace.c).
use udpgrm.Base.{
  ℕ, zero, suc, ◌+◌, ◌%◌, ◌≤◌, ◌<◌, ◌≡◌, refl, ap, ◌⊎◌, inl, inr, Bool, true, false, Option, none,
  some, Bool-cases, Option-cases, ◌==◌, arith,
}
use udpgrm.Cookie.{max_gens, max_sockets_in_gen}
use udpgrm.Storage.{ReuseportStorage}
use udpgrm.Daemon.{
  Found, value_is_live, see_live, see_free, see_slot, find_from, cookies_find_empty,
}
use native.Mathlib.Numerals.{add-one}

module _ (sockhash : ℕ → Option ℕ) (slots : ℕ → ℕ) where
  -- Whether the slot i points to a live socket.
  abbrev pub live_at : ℕ → Bool
  live_at i = value_is_live (sockhash (slots i))

  -- What the loop knows after i rounds.
  pub record Scanned (i : ℕ) (acc : Found) : Type 0 where
    pub within : acc.gen_len ≤ i
    -- the free slot is dead, and counted in the length
    pub free_dead :
        (p : ℕ)
        → acc.free_pos ≡ some p
        → (live_at p ≡ false) × (p < acc.gen_len) × ((j : ℕ) → j < p → live_at j ≡ true)
    -- with no free slot all are live
    pub all_live : acc.free_pos ≡ none → (j : ℕ) → j < i → live_at j ≡ true
    -- a live slot is counted in the length
    pub counted : (j : ℕ) → j < i → live_at j ≡ true → j < acc.gen_len
    -- the last slot that is counted is live or the free one
    pub tight : (j : ℕ) → acc.gen_len ≡ suc j → (live_at j ≡ true) ⊎ (acc.free_pos ≡ some j)

  last_or_before : {j i : ℕ} → j < suc i → (j < i) ⊎ (j ≡ i)
  last_or_before h = omega arith

  see_live-Scanned :
      (cookie i v : ℕ) (acc : Found)
      → live_at i ≡ true
      → Scanned i acc
      → Scanned (suc i) (see_live cookie i v acc)
  unfolding see_live
  see_live-Scanned cookie i v acc live h = record {
    within = omega arith;
    free_dead =
        λ p e. let (dead, lt, before) = h.free_dead p e in (dead, omega (arith, h.within), before);
    all_live = λ e j lt. elim (last_or_before lt) [
      | inl less ↦ h.all_live e j less
      | inr same ↦ rw same live
    ];
    counted = λ j lt _. omega arith;
    tight = λ j e. let same : i ≡ j = omega arith in inl (rw (← same) live);
  }

  see_free-Scanned :
      (i : ℕ) (acc : Found) → live_at i ≡ false → Scanned i acc → Scanned (suc i) (see_free i acc)
  unfolding see_free
  see_free-Scanned i acc dead h = elim (Option-cases acc.free_pos) [
    | inl e ↦
        rw (e, see_free)
          (record {
            within = omega arith;
            free_dead = λ p e'.
                let same : i ≡ p = cc in
                (rw (← same) dead, omega arith, λ j lt. h.all_live e j (rw same lt));
            all_live = λ none_some. cc;
            counted = λ j lt _. omega arith;
            tight = λ j e'. let same : i ≡ j = omega arith in inr (ap some same);
          })
    | inr (q, e) ↦
        rw (e, see_free)
          (record {
            within = omega (arith, h.within);
            free_dead = h.free_dead;
            all_live = λ e'. cc;
            counted = λ j lt live. elim (last_or_before lt) [
              | inl less ↦ h.counted j less live
              | inr same ↦ cc
            ];
            tight = h.tight;
          })
  ]

  see_slot-Scanned :
      (cookie i : ℕ) (acc : Found)
      → Scanned i acc
      → Scanned (suc i) (see_slot cookie i (sockhash (slots i)) acc)
  unfolding see_slot value_is_live
  see_slot-Scanned cookie i acc h = elim (Option-cases (sockhash (slots i))) [
    | inl e ↦ rw (e, see_slot) (see_free-Scanned i acc (rw (e, value_is_live) refl) h)
    | inr (v, e) ↦ elim (Bool-cases (v == 0)) [
      | inl y ↦ rw (e, see_slot, y) (see_free-Scanned i acc (rw (e, value_is_live, y) refl) h)
      | inr n ↦
          rw (e, see_slot, n) (see_live-Scanned cookie i v acc (rw (e, value_is_live, n) refl) h)
    ]
  ]

  find_from-Scanned :
      (cookie n i j : ℕ) (acc : Found)
      → i + n ≡ j
      → Scanned i acc
      → Scanned j (find_from sockhash slots cookie n i acc)
  unfolding find_from
  find_from-Scanned cookie zero i j acc e h = let e' : i ≡ j = omega arith in rw (← e') h
  find_from-Scanned cookie (suc n) i j acc e h =
      find_from-Scanned cookie n (i + 1) j _ (omega arith)
        (rw add-one (see_slot-Scanned cookie i acc h))

-- The search ends within the 256 slots of the generation with the first slot whose cookie points to
-- no live socket (none when all 256 are live), and with the least length that counts every live slot
-- and the slot it found.
pub cookies_find_empty-Scanned :
    (sockhash : ℕ → Option ℕ) (state : ReuseportStorage) (gen cookie : ℕ)
    → Scanned sockhash
        (state.cookies (gen % max_gens))
        max_sockets_in_gen
        (cookies_find_empty sockhash state gen cookie)
unfolding cookies_find_empty
cookies_find_empty-Scanned sockhash state gen cookie =
    find_from-Scanned sockhash (state.cookies (gen % max_gens)) cookie max_sockets_in_gen 0
      max_sockets_in_gen _ refl
      (record {
        within = omega arith;
        free_dead = λ p e. cc;
        all_live = λ e j lt. ground arith;
        counted = λ j lt _. omega arith;
        tight = λ j e. absurd (omega arith);
      })
