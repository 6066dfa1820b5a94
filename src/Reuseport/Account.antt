-- ===== src/Reuseport/Account.antt =====
-- The counters of udpgrm_reuseport_prog (ebpf/ebpf.c) account for every packet.
use udpgrm.Base.{ℕ, ◌+◌, ◌≡◌, Option, none, some, u64, eqℤ, pos, arith, if_cases, ℤ, ◌==◌, ◌||◌}
use udpgrm.Storage.{ReuseportStorage, LruValue, metric_inc}
use udpgrm.Storage.Counters.{
  Metric, rx_processed_total, rx_internal_state_error, rx_cbpf_prog_error,
  rx_packet_too_short_error, rx_dissected_ok_total, rx_flow_ok, rx_flow_rg_conflict,
  rx_flow_other_error, rx_flow_new_unseen, rx_flow_new_had_expired, rx_flow_new_bad_cookie,
  rx_new_flow_total, rx_new_flow_working_gen_dispatch_ok, rx_new_flow_working_gen_dispatch_error,
}
use udpgrm.Storage.Helpers.{Kernel, Packet}
use udpgrm.Storage.Config.{type_of, type_flow, type_cbpf, type_bespoke, type_noop}
use udpgrm.Interp.{ierr_load}
use udpgrm.Flow.{dissector_flow, is_live}
use udpgrm.Reuseport.{
  CbpfResult, new_flow, cookie_found, failed, dissector_cbpf, Bespoke, Verdict, Parsed, stop,
  have_hash, have_cookie, have_third_stage, third_stage, by_hash, by_cookie, ebadf, no_cookie,
  bad_cookie, select_error, cookie_error, dispatch, receive, parse, parse_flow, parse_cbpf,
}

-- Every packet is counted once at each fork, up to the wrap of the counters: it is dissected or
-- fails; a dissected one hits its flow or is a new flow; a new flow has one reason, and is
-- dispatched or not.
pub record Balanced (s : ReuseportStorage) : Type 0 where
  pub processed :
      s.metrics rx_processed_total
      ≡ u64 (
          s.metrics rx_internal_state_error
          + s.metrics rx_cbpf_prog_error
          + s.metrics rx_packet_too_short_error
          + s.metrics rx_dissected_ok_total)
  pub dissected :
      s.metrics rx_dissected_ok_total ≡ u64 (s.metrics rx_flow_ok + s.metrics rx_new_flow_total)
  pub reasons :
      s.metrics rx_new_flow_total
      ≡ u64 (
          s.metrics rx_flow_new_unseen
          + s.metrics rx_flow_rg_conflict
          + s.metrics rx_flow_other_error)
  pub dispatched :
      s.metrics rx_new_flow_total
      ≡ u64 (
          s.metrics rx_new_flow_working_gen_dispatch_ok
          + s.metrics rx_new_flow_working_gen_dispatch_error)

-- The same in the middle of a run: one dissected packet waits for its dispatch, and `b` is 1 once
-- the reason for its being a new flow is counted.
record Pending (b : ℕ) (s : ReuseportStorage) : Type 0 where
  processed :
      s.metrics rx_processed_total
      ≡ u64 (
          s.metrics rx_internal_state_error
          + s.metrics rx_cbpf_prog_error
          + s.metrics rx_packet_too_short_error
          + s.metrics rx_dissected_ok_total)
  dissected :
      s.metrics rx_dissected_ok_total ≡ u64 (s.metrics rx_flow_ok + s.metrics rx_new_flow_total + 1)
  reasons :
      u64 (s.metrics rx_new_flow_total + b)
      ≡ u64 (
          s.metrics rx_flow_new_unseen
          + s.metrics rx_flow_rg_conflict
          + s.metrics rx_flow_other_error)
  dispatched :
      s.metrics rx_new_flow_total
      ≡ u64 (
          s.metrics rx_new_flow_working_gen_dispatch_ok
          + s.metrics rx_new_flow_working_gen_dispatch_error)

module _ {s : ReuseportStorage} (h : Pending 0 s) where
  unseen-Pending : Pending 1 (metric_inc rx_flow_new_unseen s)
  unfolding metric_inc
  unseen-Pending = ground arith

  expired-Pending : Pending 1 (metric_inc rx_flow_new_had_expired (metric_inc rx_flow_new_unseen s))
  unfolding metric_inc
  expired-Pending = ground arith

  bad_cookie-Pending :
      Pending 1 (metric_inc rx_flow_new_bad_cookie (metric_inc rx_flow_new_unseen s))
  unfolding metric_inc
  bad_cookie-Pending = ground arith

  rg_conflict-Pending : Pending 1 (metric_inc rx_flow_rg_conflict s)
  unfolding metric_inc
  rg_conflict-Pending = ground arith

  other_error-Pending : Pending 1 (metric_inc rx_flow_other_error s)
  unfolding metric_inc
  other_error-Pending = ground arith

  select_error-Pending : (err : ℤ) → Pending 1 (metric_inc (select_error err) s)
  unfolding select_error
  select_error-Pending err =
      if_cases (λ m. Pending 1 (metric_inc m s)) (eqℤ err ebadf) _ _ (λ _. rg_conflict-Pending)
        (λ _. other_error-Pending)

  cookie_error-Pending : (err : ℤ) (c : ℕ) → Pending 1 (cookie_error err c s)
  unfolding cookie_error
  cookie_error-Pending err c =
      if_cases (Pending 1) (eqℤ err ebadf) _ _ (λ _. rg_conflict-Pending)
        (λ _.
          if_cases (Pending 1) (c == no_cookie || c == 0 || c == bad_cookie) _ _
            (λ _.
              if_cases (Pending 1) (c == bad_cookie) _ _ (λ _. bad_cookie-Pending)
                (λ _. unseen-Pending))
            (λ _. other_error-Pending))

  ok-Balanced : Balanced (metric_inc rx_flow_ok s)
  unfolding metric_inc
  ok-Balanced = ground arith

module _ (k : Kernel) (md : Packet) where
  third_stage-Balanced :
      {s : ReuseportStorage} (app_idx : ℕ)
      → Pending 1 s
      → Balanced (third_stage k md s app_idx).state
  unfolding third_stage metric_inc
  third_stage-Balanced app_idx h = ground arith

  by_hash-Balanced :
      {s : ReuseportStorage} (value : Option LruValue)
      → Pending 0 s
      → Balanced (by_hash k md s value).state
  unfolding by_hash
  by_hash-Balanced none h = third_stage-Balanced 0 (unseen-Pending h)
  by_hash-Balanced {s} (some value) h =
      if_cases (λ (v : Verdict). Balanced v.state) (is_live s k.now value) _ _
        (λ _.
          if_cases (λ (v : Verdict). Balanced v.state)
            (eqℤ (k.select_reuseport value.cookie) (pos 0)) _ _ (λ _. ok-Balanced h)
            (λ _.
              third_stage-Balanced 0 (select_error-Pending h (k.select_reuseport value.cookie))))
        (λ _. third_stage-Balanced 0 (expired-Pending h))

  by_cookie-Balanced :
      {s : ReuseportStorage} (c app_idx : ℕ)
      → Pending 0 s
      → Balanced (by_cookie k md s c app_idx).state
  unfolding by_cookie
  by_cookie-Balanced c app_idx h =
      if_cases (λ (v : Verdict). Balanced v.state) (eqℤ (k.select_reuseport c) (pos 0)) _ _
        (λ _. ok-Balanced h)
        (λ _. third_stage-Balanced app_idx (cookie_error-Pending h (k.select_reuseport c) c))

module _ {s : ReuseportStorage} (h : Balanced s) where
  dissected-Pending : Pending 0 (metric_inc rx_dissected_ok_total (metric_inc rx_processed_total s))
  unfolding metric_inc
  dissected-Pending = ground arith

-- The counters by which the first stage stops.
pub data IsStop : Metric → Type 0 where
  internal : IsStop rx_internal_state_error
  program : IsStop rx_cbpf_prog_error
  short : IsStop rx_packet_too_short_error

abbrev pub StopsWell : Parsed → Type 0
StopsWell (stop token) = IsStop token
StopsWell _ = Unit

parse_flow-StopsWell : (hash : Option ℕ) → StopsWell (parse_flow hash)
unfolding parse_flow
parse_flow-StopsWell none = short
parse_flow-StopsWell (some hash) = tt

parse_cbpf-StopsWell : (s : ReuseportStorage) (r : CbpfResult) → StopsWell (parse_cbpf s r)
unfolding parse_cbpf
parse_cbpf-StopsWell s (new_flow app_idx) = tt
parse_cbpf-StopsWell s (cookie_found c) = tt
parse_cbpf-StopsWell s (failed r) =
    if_cases StopsWell (eqℤ r ierr_load) _ _ (λ _. short) (λ _. program)

pub parse-StopsWell :
    (bespoke : Bespoke) (md : Packet) (s : ReuseportStorage) → StopsWell (parse bespoke md s)
unfolding parse
parse-StopsWell bespoke md s =
    let dis = type_of s.dis.dissector_type in
    if_cases StopsWell (dis == type_flow) _ _
      (λ _. parse_flow-StopsWell (dissector_flow md s.random_id))
      (λ _.
        if_cases StopsWell (dis == type_cbpf || dis == type_bespoke) _ _
          (λ _. parse_cbpf-StopsWell s (dissector_cbpf bespoke md s))
          (λ _. if_cases StopsWell (dis == type_noop) _ _ (λ _. tt) (λ _. internal)))

stop-Balanced :
    {s : ReuseportStorage} {token : Metric}
    → IsStop token
    → Balanced s
    → Balanced (metric_inc token (metric_inc rx_processed_total s))
unfolding metric_inc
stop-Balanced internal h = ground arith
stop-Balanced program h = ground arith
stop-Balanced short h = ground arith

dispatch-Balanced :
    (k : Kernel) (md : Packet) (flows : ℕ → Option LruValue) {s : ReuseportStorage} (p : Parsed)
    → StopsWell p
    → Balanced s
    → Balanced (dispatch k md flows (metric_inc rx_processed_total s) p).state
unfolding dispatch
dispatch-Balanced k md flows (stop token) w h = stop-Balanced w h
dispatch-Balanced k md flows (have_hash hash) w h =
    by_hash-Balanced k md (flows hash) (dissected-Pending h)
dispatch-Balanced k md flows (have_cookie c app_idx) w h =
    by_cookie-Balanced k md c app_idx (dissected-Pending h)
dispatch-Balanced k md flows have_third_stage w h =
    third_stage-Balanced k md 0 (unseen-Pending (dissected-Pending h))

-- If the counters of a group account for every packet, they do so after one more packet, whatever
-- the packet, the flow table and the answers of the kernel are.
pub receive-Balanced :
    (bespoke : Bespoke) (k : Kernel) (md : Packet) (flows : ℕ → Option LruValue)
    (s : ReuseportStorage)
    → Balanced s
    → Balanced (receive bespoke k md flows s).state
unfolding receive
receive-Balanced bespoke k md flows s h =
    dispatch-Balanced k md flows (parse bespoke md s) (parse-StopsWell bespoke md s) h
