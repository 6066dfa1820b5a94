-- ===== src/Listing/Stale.antt =====
-- The flows that do_flows marks as stale against the expiry in the datapath (src/do_flows.c,
-- ebpf/ebpf.c).
use udpgrm.Base.{
  ℕ, zero, suc, ◌+◌, ◌*◌, ◌/◌, ◌^◌, ◌≤◌, ◌<◌, Bool, true, false, not, ltb, leb, if◌then◌else◌,
  sub64, ◌≡◌, refl, ap, sym, ◌∙◌, arith,
}
use native.Mathlib.Numerals.{unary_clauses}
use udpgrm.Storage.{ReuseportStorage, LruValue}
use udpgrm.Flow.{flow_timeout_ns, is_live}
use udpgrm.Listing.{exponent, to_double, age_above, timeout_sec, is_stale}

power_if :
    (b : Bool) (r m : ℕ) → 1 ≤ m → (b ≡ false → 2 * 2 ^ r ≤ m) → 2 ^ (if b then 0 else suc r) ≤ m
power_if true r m h g = omega arith
power_if false r m h g = simp unary_clauses (omega (arith, g refl))

half_positive : (n : ℕ) → ltb n 2 ≡ false → 1 ≤ n / 2
half_positive n e = ground arith

twice_half : (n a : ℕ) → a ≤ n / 2 → 2 * a ≤ n
twice_half n a h = omega arith

power-exponent : (fuel n : ℕ) → 1 ≤ n → 2 ^ exponent fuel n ≤ n
unfolding exponent
power-exponent zero n h = omega arith
power-exponent (suc fuel) n h = power_if (ltb n 2) (exponent fuel (n / 2)) n h (λ e.
    twice_half n (2 ^ exponent fuel (n / 2)) (power-exponent fuel (n / 2) (half_positive n e)))

if_true : (b : Bool) (x y : ℕ) → b ≡ true → (if b then x else y) ≡ x
if_true true x y h = refl
if_true false x y h = ground arith

ltb-lt : (a b : ℕ) → a < b → ltb a b ≡ true
ltb-lt a b h = ground arith

to_double-small : (n : ℕ) → n < 2 ^ 53 → to_double n ≡ n
unfolding to_double
to_double-small n h = if_true (ltb n (2 ^ 53)) n _ (ltb-lt n (2 ^ 53) h)

above_lem :
    (age_ns sec p : ℕ)
    → p ≤ sec
    → sec * 1_000_000_000 < 2 ^ 53
    → ltb (1_000_000_000 * (sec * 2 ^ 53 + p)) (age_ns * 2 ^ 53)
      ≡ not (leb age_ns (sec * 1_000_000_000))
above_lem age_ns sec p h k = ground arith

age_above-leb :
    (age_ns sec : ℕ)
    → age_ns < 2 ^ 53
    → 1 ≤ sec
    → sec * 1_000_000_000 < 2 ^ 53
    → age_above age_ns sec ≡ not (leb age_ns (sec * 1_000_000_000))
unfolding age_above
age_above-leb age_ns sec h pos k =
    ap (λ d. ltb (1_000_000_000 * (sec * 2 ^ 53 + 2 ^ exponent 32 sec)) (d * 2 ^ 53))
      (to_double-small age_ns h)
    ∙ above_lem age_ns sec (2 ^ exponent 32 sec) (power-exponent 32 sec pos) k

timeout_sec-positive : (s : ReuseportStorage) → 1 ≤ timeout_sec s
unfolding timeout_sec
timeout_sec-positive s = ground arith

flow_timeout_ns-timeout_sec :
    (s : ReuseportStorage)
    → timeout_sec s * 1_000_000_000 < 2 ^ 53
    → flow_timeout_ns s ≡ timeout_sec s * 1_000_000_000
unfolding flow_timeout_ns timeout_sec
flow_timeout_ns-timeout_sec s k = ground arith

-- As long as the age of a flow and the timeout of its group stay below 2 ^ 53 nanoseconds, which
-- is 104 days, do_flows marks the flow as stale, by its division in floating point, exactly when
-- the programs treat it as expired, by theirs in integers.
pub is_stale-is_live :
    (s : ReuseportStorage) (now : ℕ) (value : LruValue)
    → sub64 now value.last_tx_ns < 2 ^ 53
    → timeout_sec s * 1_000_000_000 < 2 ^ 53
    → is_stale s now value ≡ not (is_live s now value)
unfolding is_stale is_live
is_stale-is_live s now value h k =
    age_above-leb (sub64 now value.last_tx_ns) (timeout_sec s) h (timeout_sec-positive s) k
    ∙ ap (λ t. not (leb (sub64 now value.last_tx_ns) t)) (sym (flow_timeout_ns-timeout_sec s k))
