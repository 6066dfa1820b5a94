-- ===== src/Tubular/Closing.antt =====
-- Which descriptors are closed (tubular_close_wg of src/tubular.c), counted one by one.
use udpgrm.Base.{
  ℕ, zero, suc, ◌+◌, ◌%◌, ◌≤◌, ◌<◌, ◌≡◌, refl, List, [], ◌∷◌, ℤ, pos, negsuc, arith, if◌then◌else◌,
  eqℤ,
}
use udpgrm.Cookie.{max_gens}
use udpgrm.Tubular.{SkGroup, close_fd, close_from, tubular_close_wg, close_all}

-- 1 where the slot holds the descriptor.
abbrev pub holds_fd : ℕ → ℤ → ℕ
holds_fd fd x = if eqℤ (pos fd) x then 1 else 0

-- How often the descriptor was closed.
unfoldable pub count : ℕ → List ℤ → ℕ
count fd [] = 0
count fd (x ∷ xs) = holds_fd fd x + count fd xs

-- In how many of the n slots from i on it is.
unfoldable pub slots_with : ℕ → ℕ → ℕ → (ℕ → ℤ) → ℕ
slots_with fd zero i fds = 0
slots_with fd (suc n) i fds = holds_fd fd (fds i) + slots_with fd n (i + 1) fds

-- In how many slots of the n generations from i on it is; a generation ends at its length.
unfoldable pub gens_with : ℕ → ℕ → ℕ → SkGroup → ℕ
gens_with fd zero i g = 0
gens_with fd (suc n) i g = slots_with fd (g.max_idx i) 0 (g.sockets i) + gens_with fd n (i + 1) g

module _ (fd : ℕ) (is_open : 0 < fd) where
  count-close_fd :
      (x : ℤ) (closed : List ℤ) → count fd (close_fd x closed) ≡ holds_fd fd x + count fd closed
  unfolding count close_fd
  count-close_fd (pos n) closed = ground arith
  count-close_fd (negsuc n) closed = ground arith

  count-close_from :
      (n i : ℕ) (fds : ℕ → ℤ) (closed : List ℤ)
      → count fd (close_from n i fds closed) ≡ slots_with fd n i fds + count fd closed
  unfolding close_from slots_with
  count-close_from zero i fds closed = omega arith
  count-close_from (suc n) i fds closed = omega (
    arith,
    count-close_from n (i + 1) fds (close_fd (fds i) closed),
    count-close_fd (fds i) closed,
  )

  -- Closing a generation closes each descriptor as often as it is in one of its slots.
  pub count-tubular_close_wg :
      (wg : ℕ) (g : SkGroup) (closed : List ℤ)
      → count fd (tubular_close_wg wg g closed).1
        ≡ slots_with fd (g.max_idx (wg % max_gens)) 0 (g.sockets (wg % max_gens)) + count fd closed
  unfolding tubular_close_wg
  count-tubular_close_wg wg g closed =
      count-close_from (g.max_idx (wg % max_gens)) 0 (g.sockets (wg % max_gens)) closed

-- Two groups that are the same from the generation i on.
record SameFrom (i : ℕ) (g h : SkGroup) : Type 0 where
  lengths : (j : ℕ) → i ≤ j → h.max_idx j ≡ g.max_idx j
  slots : (j : ℕ) → i ≤ j → (k : ℕ) → h.sockets j k ≡ g.sockets j k

slots_with_eq :
    (fd n i : ℕ) (f g : ℕ → ℤ) → ((k : ℕ) → f k ≡ g k) → slots_with fd n i f ≡ slots_with fd n i g
unfolding slots_with
slots_with_eq fd zero i f g e = refl
slots_with_eq fd (suc n) i f g e = rw (e i, slots_with_eq fd n (i + 1) f g e) refl

gens_with-SameFrom :
    (fd n i : ℕ) (g h : SkGroup) → SameFrom i g h → gens_with fd n i h ≡ gens_with fd n i g
unfolding gens_with
gens_with-SameFrom fd zero i g h same = refl
gens_with-SameFrom fd (suc n) i g h same =
    let later : SameFrom (i + 1) g h = record {
      lengths = λ j le. same.lengths j (omega arith);
      slots = λ j le. same.slots j (omega arith);
    } in
    rw
      (
        same.lengths i (omega arith),
        slots_with_eq fd (g.max_idx i) 0 (h.sockets i) (g.sockets i) (same.slots i (omega arith)),
        gens_with-SameFrom fd n (i + 1) g h later,
      )
      refl

-- Closing the generation i leaves those after it.
SameFrom-tubular_close_wg :
    (i : ℕ) (g : SkGroup) (closed : List ℤ)
    → i < 32
    → SameFrom (i + 1) g (tubular_close_wg i g closed).0
unfolding tubular_close_wg
SameFrom-tubular_close_wg i g closed h = record {
  lengths = λ j le. ground arith;
  slots = λ j le k. ground arith;
}

module _ (fd : ℕ) (is_open : 0 < fd) where
  -- Closing all generations from i on.
  pub count-close_all :
      (n i : ℕ) (g : SkGroup) (closed : List ℤ)
      → i + n ≤ 32
      → count fd (close_all n i g closed).1 ≡ gens_with fd n i g + count fd closed
  unfolding close_all gens_with
  count-close_all zero i g closed h = omega arith
  count-close_all (suc n) i g closed h =
      let (g', closed') = tubular_close_wg i g closed in
      let here : i % max_gens ≡ i = omega arith in
      let rest = count-close_all n (i + 1) g' closed' (omega arith) in
      let now = rw here at (count-tubular_close_wg fd is_open i g closed) in
      let same =
        gens_with-SameFrom fd n (i + 1) g g' (SameFrom-tubular_close_wg i g closed (omega arith)) in
      omega arith

-- After this no generation has a length.
pub max_idx-close_all :
    (n i j : ℕ) (g : SkGroup) (closed : List ℤ)
    → i + n ≤ 32
    → j < i + n
    → (j < i → g.max_idx j ≡ 0)
    → (close_all n i g closed).0.max_idx j ≡ 0
unfolding close_all tubular_close_wg
max_idx-close_all zero i j g closed h lt e = e (omega arith)
max_idx-close_all (suc n) i j g closed h lt e =
    max_idx-close_all n (i + 1) j (tubular_close_wg i g closed).0 (tubular_close_wg i g closed).1
      (omega arith) (omega arith) (λ le. ground arith)
