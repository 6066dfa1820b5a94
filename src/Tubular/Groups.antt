-- ===== src/Tubular/Groups.antt =====
-- Which groups reuseport_groups_maybe_cleanup_stale leaves (src/tubular.c), and that no descriptor is
-- lost or closed twice by it.
use udpgrm.Base.{
  ℕ, zero, suc, ◌+◌, ◌<◌, ◌≡◌, refl, ap, inl, inr, true, false, Bool, List, [], ◌∷◌, ltb, ℤ, sub64,
  if◌then◌else◌, Bool-cases, arith,
}
use udpgrm.Cookie.{max_gens}
use udpgrm.Tubular.{SkGroup, all_empty, close_all, cleanup_stale, stale_ns}
use udpgrm.Tubular.Closing.{count, gens_with, count-close_all, max_idx-close_all}

-- Whether ten seconds have passed since the last socket was added.
abbrev pub is_stale : ℕ → SkGroup → Bool
is_stale now g = ltb stale_ns (sub64 now g.last_modified)

-- The groups that are not stale, in their order.
unfoldable pub fresh_groups : ℕ → List SkGroup → List SkGroup
fresh_groups now [] = []
fresh_groups now (g ∷ gs) =
    let rest = fresh_groups now gs in if is_stale now g then rest else g ∷ rest

-- In how many slots of all groups a descriptor is.
unfoldable pub kept : ℕ → List SkGroup → ℕ
kept fd [] = 0
kept fd (g ∷ gs) = gens_with fd max_gens 0 g + kept fd gs

all_empty-zero : (n : ℕ) (m : ℕ → ℕ) → ((j : ℕ) → j < n → m j ≡ 0) → all_empty n m ≡ true
unfolding all_empty
all_empty-zero zero m h = refl
all_empty-zero (suc n) m h =
    rw (h n (omega arith), all_empty-zero n m (λ j lt. h j (omega arith))) refl

all_empty-close_all :
    (g : SkGroup) (closed : List ℤ)
    → all_empty max_gens (close_all max_gens 0 g closed).0.max_idx ≡ true
all_empty-close_all g closed = all_empty-zero max_gens _ (λ j lt.
    max_idx-close_all max_gens 0 j g closed (omega arith) (omega arith) (λ h. absurd (omega arith)))

cleanup_stale-nil : (now : ℕ) (closed : List ℤ) → cleanup_stale now [] closed ≡ ([], closed)
unfolding cleanup_stale
cleanup_stale-nil now closed = refl

-- One group of the loop.
module _ (now : ℕ) (g : SkGroup) (gs : List SkGroup) (closed : List ℤ) where
  cleanup_stale-old :
      is_stale now g ≡ true
      → cleanup_stale now (g ∷ gs) closed ≡ cleanup_stale now gs (close_all max_gens 0 g closed).1
  unfolding cleanup_stale
  cleanup_stale-old old = rw (old, all_empty-close_all g closed) refl

  cleanup_stale-new :
      is_stale now g ≡ false
      → cleanup_stale now (g ∷ gs) closed
        ≡ (g ∷ (cleanup_stale now gs closed).0, (cleanup_stale now gs closed).1)
  unfolding cleanup_stale
  cleanup_stale-new new = rw new refl

-- The loop that removes stale groups leaves exactly the groups that are not stale, in their order.
pub cleanup_stale-fresh_groups :
    (now : ℕ) (gs : List SkGroup) (closed : List ℤ)
    → (cleanup_stale now gs closed).0 ≡ fresh_groups now gs
unfolding fresh_groups
cleanup_stale-fresh_groups now [] closed = rw (cleanup_stale-nil now closed) refl
cleanup_stale-fresh_groups now (g ∷ gs) closed = elim (Bool-cases (is_stale now g)) [
  | inl old ↦
      rw (cleanup_stale-old now g gs closed old, old)
        (cleanup_stale-fresh_groups now gs (close_all max_gens 0 g closed).1)
  | inr new ↦
      rw (cleanup_stale-new now g gs closed new, new)
        (ap (λ x. g ∷ x) (cleanup_stale-fresh_groups now gs closed))
]

-- Whatever is stale, the slots below the lengths of their generations that hold a descriptor and the
-- times that it was closed are together as many after the loop as before: the loop loses no
-- descriptor and closes none twice.
pub kept-cleanup_stale :
    (fd now : ℕ) (gs : List SkGroup) (closed : List ℤ)
    → 0 < fd
    → kept fd (cleanup_stale now gs closed).0 + count fd (cleanup_stale now gs closed).1
      ≡ kept fd gs + count fd closed
unfolding kept
kept-cleanup_stale fd now [] closed h = rw (cleanup_stale-nil now closed) refl
kept-cleanup_stale fd now (g ∷ gs) closed h = elim (Bool-cases (is_stale now g)) [
  | inl old ↦
      let rest = kept-cleanup_stale fd now gs (close_all max_gens 0 g closed).1 h in
      let one = count-close_all fd h max_gens 0 g closed (omega arith) in
      rw (cleanup_stale-old now g gs closed old) (omega arith)
  | inr new ↦
      let rest = kept-cleanup_stale fd now gs closed h in
      rw (cleanup_stale-new now g gs closed new) (omega arith)
]
