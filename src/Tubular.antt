-- ===== src/Tubular.antt =====
-- The descriptors that the daemon keeps for tubular (src/tubular.c). The list of groups is a list;
-- `closed` collects the descriptors that are closed. tubular_register, which talks to tubular over
-- a socket, enters by the errno that it returns, and CLOCK_MONOTONIC by its value.
pub mod Closing
pub mod Groups
use udpgrm.Base.{
  ℕ, zero, suc, ◌+◌, ◌%◌, Bool, true, false, not, ◌&&◌, Option, none, some, List, [], ◌∷◌, ℤ, pos,
  minus_one, above, ltb, ◌==◌, if◌then◌else◌, sub64, u8_at,
}
use udpgrm.Cookie.{max_gens}
use udpgrm.Storage.{ReuseportStorage}

-- struct reuseport_group
pub record SkGroup : Type 0 where
  pub random_id : ℕ
  pub last_modified : ℕ
  pub max_idx : ℕ → ℕ
  pub sockets : ℕ → ℕ → ℤ

pub record Tubular : Type 0 where
  pub sk_groups : List SkGroup
  pub closed : List ℤ

-- reuseport_groups_empty
unfoldable pub reuseport_groups_empty : List SkGroup → Bool
reuseport_groups_empty [] = true
reuseport_groups_empty (g ∷ gs) = false

-- reuseport_group_lookup
unfoldable pub reuseport_group_lookup : ℕ → List SkGroup → Option SkGroup
reuseport_group_lookup id [] = none
reuseport_group_lookup id (g ∷ gs) =
    if g.random_id == id then some g else reuseport_group_lookup id gs

-- The write through the pointer that the lookup returned.
unfoldable pub put_group : SkGroup → List SkGroup → List SkGroup
put_group v [] = []
put_group v (g ∷ gs) = if g.random_id == v.random_id then v ∷ gs else g ∷ put_group v gs

-- list_del of the group that the lookup returned
unfoldable pub delete_group : ℕ → List SkGroup → List SkGroup
delete_group id [] = []
delete_group id (g ∷ gs) = if g.random_id == id then gs else g ∷ delete_group id gs

-- reuseport_group_lookup_or_add; calloc leaves zeroes, and list_add adds in front.
unfoldable pub lookup_or_add : ℕ → ℕ → List SkGroup → List SkGroup × SkGroup
unfolding reuseport_group_lookup
lookup_or_add now id gs = elim (reuseport_group_lookup id gs) [
  | some g ↦ (gs, g)
  | none ↦
      let g : SkGroup = record {
        random_id = id;
        last_modified = now;
        max_idx = λ _. 0;
        sockets = λ _ _. pos 0;
      } in
      (g ∷ gs, g)
]

-- if (*fd_ptr > 0) close(*fd_ptr)
unfoldable pub close_fd : ℤ → List ℤ → List ℤ
close_fd fd closed = if above 0 fd then fd ∷ closed else closed

-- Whether the group has a label, so that its sockets go to tubular.
abbrev pub has_label : ReuseportStorage → Bool
has_label state = not (u8_at state.dis.label 0 == 0)

unfoldable pub preserve_fd : ℕ → ℕ → ℕ → ℕ → ℤ → SkGroup → SkGroup
preserve_fd now gen gen_len free_pos f g = record g {
  last_modified = now;
  max_idx = λ i. if i == gen % max_gens then gen_len else g.max_idx i;
  sockets = λ i j.
      if i == gen % max_gens then if j == free_pos then f else g.sockets i j else g.sockets i j;
}

-- tubular_maybe_preserve_fd: the groups, and whether the caller closes the descriptor.
unfoldable pub tubular_maybe_preserve_fd :
    ℕ → ReuseportStorage → ℕ → ℕ → ℕ → ℤ → Tubular → Tubular × Bool
unfolding lookup_or_add preserve_fd put_group close_fd
tubular_maybe_preserve_fd now state gen gen_len free_pos f t =
    if has_label state
    then (let (gs, g) = lookup_or_add now state.random_id t.sk_groups in
        (
          record {
            sk_groups = put_group (preserve_fd now gen gen_len free_pos f g) gs;
            closed = close_fd (g.sockets (gen % max_gens) free_pos) t.closed;
          },
          false,
        ))
    else (t, true)

-- The loop of tubular_close_wg from i on, `n` rounds: what is closed.
unfoldable pub close_from : ℕ → ℕ → (ℕ → ℤ) → List ℤ → List ℤ
unfolding close_fd
close_from zero i fds closed = closed
close_from (suc n) i fds closed = close_from n (i + 1) fds (close_fd (fds i) closed)

-- tubular_close_wg
unfoldable pub tubular_close_wg : ℕ → SkGroup → List ℤ → SkGroup × List ℤ
unfolding close_from
tubular_close_wg wg g closed = (
  record g {
    max_idx = λ i. if i == wg % max_gens then 0 else g.max_idx i;
    sockets = λ i j.
        if i == wg % max_gens
        then if ltb j (g.max_idx i) then minus_one else g.sockets i j
        else g.sockets i j;
  },
  close_from (g.max_idx (wg % max_gens)) 0 (g.sockets (wg % max_gens)) closed,
)

-- Whether the generations below n have no sockets.
unfoldable pub all_empty : ℕ → (ℕ → ℕ) → Bool
all_empty zero max_idx = true
all_empty (suc n) max_idx = max_idx n == 0 && all_empty n max_idx

-- reuseport_group_maybe_delete, on the group as it is now
unfoldable pub maybe_delete : SkGroup → List SkGroup → List SkGroup
unfolding all_empty delete_group put_group
maybe_delete g gs =
    if all_empty max_gens g.max_idx then delete_group g.random_id gs else put_group g gs

unfoldable pub close_and_delete : ℕ → Option SkGroup → Tubular → Tubular
unfolding tubular_close_wg maybe_delete
close_and_delete wg none t = t
close_and_delete wg (some g) t =
    let (g', closed) = tubular_close_wg wg g t.closed in
    record { sk_groups = maybe_delete g' t.sk_groups; closed = closed }

abbrev pub enoent : ℕ
enoent = 2

abbrev pub ebadf : ℕ
ebadf = 9

-- The errno of tubular_maybe_register: no path, no descriptors, or what tubular_register returns.
unfoldable pub register_errno : Bool → ℕ → Option SkGroup → ℕ
register_errno false sent g = enoent
register_errno true sent none = ebadf
register_errno true sent (some g) = sent

-- tubular_maybe_register; `has_path` is tubular_path != NULL, `sent` the result of tubular_register.
unfoldable pub tubular_maybe_register : Bool → ℕ → ReuseportStorage → ℕ → Tubular → Tubular × ℕ
unfolding register_errno close_and_delete reuseport_group_lookup
tubular_maybe_register has_path sent state wg t =
    if has_label state
    then (let g = reuseport_group_lookup state.random_id t.sk_groups in
        (close_and_delete wg g t, register_errno has_path sent g))
    else (t, 0)

-- tubular_close_wg(sk_group, g) for the n generations from g on
unfoldable pub close_all : ℕ → ℕ → SkGroup → List ℤ → SkGroup × List ℤ
close_all zero i g closed = (g, closed)
close_all (suc n) i g closed =
    let (g', closed') = tubular_close_wg i g closed in close_all n (i + 1) g' closed'

-- 10 seconds
abbrev pub stale_ns : ℕ
stale_ns = 10_000_000_000

-- reuseport_groups_maybe_cleanup_stale, the loop over the groups
unfoldable pub cleanup_stale : ℕ → List SkGroup → List ℤ → List SkGroup × List ℤ
cleanup_stale now [] closed = ([], closed)
cleanup_stale now (g ∷ gs) closed =
    let stale = ltb stale_ns (sub64 now g.last_modified) in
    let (g', closed') = close_all max_gens 0 g closed in
    let (gs', out) = cleanup_stale now gs (if stale then closed' else closed) in
    if stale
    then if all_empty max_gens g'.max_idx then (gs', out) else (g' ∷ gs', out)
    else (g ∷ gs', out)
