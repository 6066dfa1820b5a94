-- ===== src/Examples/Descriptors.antt =====
-- Descriptors that are kept for tubular (src/tubular.c).
use udpgrm.Base.{[], ◌∷◌, pos, ◌+◌, ◌≡◌, refl, ◌==◌, if◌then◌else◌, ltb, arith}
use udpgrm.Tubular.{SkGroup, tubular_close_wg, cleanup_stale, all_empty, close_all}
use udpgrm.Tubular.Closing.{count}
use udpgrm.Tubular.Groups.{fresh_groups, kept, cleanup_stale-fresh_groups, kept-cleanup_stale}

-- Generation 3 of a group holds the descriptors 8 and 9.
abbrev two_kept : SkGroup
two_kept = record {
  random_id = 77;
  last_modified = 1000;
  max_idx = λ g. if g == 3 then 2 else 0;
  sockets = λ g i. if g == 3 then if ltb i 2 then pos (8 + i) else pos 0 else pos 0;
}

-- A group that was used a moment ago.
abbrev just_used : SkGroup
just_used = record two_kept { random_id = 78; last_modified = 20_000_000_000 }

-- Of the two only the second is left, and both descriptors of the first are closed.
one_left :
    cleanup_stale 20_000_000_001 (two_kept ∷ just_used ∷ []) []
    ≡ (just_used ∷ [], pos 9 ∷ pos 8 ∷ [])
unfolding cleanup_stale all_empty close_all tubular_close_wg
one_left = refl

cleanup_stale-fresh_groups_example :
    (cleanup_stale 20_000_000_001 (two_kept ∷ just_used ∷ []) []).0
    ≡ fresh_groups 20_000_000_001 (two_kept ∷ just_used ∷ [])
cleanup_stale-fresh_groups_example =
    cleanup_stale-fresh_groups 20_000_000_001 (two_kept ∷ just_used ∷ []) []

kept-cleanup_stale_example :
    kept 9 (cleanup_stale 20_000_000_001 (two_kept ∷ just_used ∷ []) []).0
      + count 9 (cleanup_stale 20_000_000_001 (two_kept ∷ just_used ∷ []) []).1
    ≡ kept 9 (two_kept ∷ just_used ∷ []) + count 9 []
kept-cleanup_stale_example =
    kept-cleanup_stale 9 20_000_000_001 (two_kept ∷ just_used ∷ []) [] (omega arith)
