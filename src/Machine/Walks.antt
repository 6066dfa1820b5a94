-- ===== src/Machine/Walks.antt =====
-- The counters that udpgrm_reuseport_prog and flow_assure (ebpf/ebpf.c) touch: what holds of a group
-- and survives each of these counters survives the program.
use udpgrm.Base.{ℕ, Option, none, some, ℤ, pos, eqℤ, ◌==◌, ◌||◌, if_cases, Option-cases, inl, inr}
use udpgrm.Storage.{ReuseportStorage, SocketStorage, LruValue, metric_inc}
use udpgrm.Storage.Counters.{
  Metric, rx_processed_total, rx_dissected_ok_total, rx_flow_ok, rx_flow_rg_conflict,
  rx_flow_other_error, rx_flow_new_unseen, rx_flow_new_had_expired, rx_flow_new_bad_cookie,
  rx_new_flow_total, rx_new_flow_working_gen_dispatch_ok, rx_new_flow_working_gen_dispatch_error,
  tx_total, tx_flow_create_ok, tx_flow_create_error, tx_flow_update_ok, tx_flow_update_conflict,
  tx_flow_create_from_expired_ok,
}
use udpgrm.Storage.Helpers.{Kernel, Packet}
use udpgrm.Flow.{is_live, Assured, assure_new, assure_found, flow_assure}
use udpgrm.Reuseport.{
  Bespoke, Verdict, Parsed, stop, have_hash, have_cookie, have_third_stage, third_stage,
  working_slot, by_hash, by_cookie, ebadf, no_cookie, bad_cookie, select_error, cookie_error,
  dispatch, receive, parse,
}
use udpgrm.Reuseport.Account.{IsStop, StopsWell, parse-StopsWell}

pub data IsTx : Metric → Type 0 where
  total : IsTx tx_total
  create_ok : IsTx tx_flow_create_ok
  create_error : IsTx tx_flow_create_error
  update_ok : IsTx tx_flow_update_ok
  update_conflict : IsTx tx_flow_update_conflict
  from_expired : IsTx tx_flow_create_from_expired_ok

-- The counters of a dispatch that are not those of a stop.
pub data IsRx : Metric → Type 0 where
  processed : IsRx rx_processed_total
  stopped : (token : Metric) → IsStop token → IsRx token
  dissected : IsRx rx_dissected_ok_total
  ok : IsRx rx_flow_ok
  conflict : IsRx rx_flow_rg_conflict
  other : IsRx rx_flow_other_error
  unseen : IsRx rx_flow_new_unseen
  had_expired : IsRx rx_flow_new_had_expired
  bad : IsRx rx_flow_new_bad_cookie
  new : IsRx rx_new_flow_total
  sent : IsRx rx_new_flow_working_gen_dispatch_ok
  not_sent : IsRx rx_new_flow_working_gen_dispatch_error

module _ (P : ReuseportStorage → Type 0)
    (inc : (token : Metric) (s : ReuseportStorage)
      → IsTx token
      → P s
      → P (metric_inc token s)) where
  abbrev AfterAssure : Assured → Type 0
  AfterAssure r = P r.state

  pub flow_assure_closed :
      (k : Kernel) (state : ReuseportStorage) (s : SocketStorage) (hash : ℕ)
      (flows : ℕ → Option LruValue)
      → P state
      → P (flow_assure k state s hash flows).state
  unfolding flow_assure
  flow_assure_closed k state s hash flows h =
      let counted = metric_inc tx_total state in
      let h' : P counted = inc tx_total state total h in
      elim (Option-cases (flows hash)) [
        | inl e ↦
            rw (e, flow_assure, assure_new)
              (if_cases AfterAssure (eqℤ k.update_flow (pos 0)) _ _
                (λ _. inc tx_flow_create_ok counted create_ok h')
                (λ _. inc tx_flow_create_error counted create_error h'))
        | inr (value, e) ↦
            rw (e, flow_assure, assure_found)
              (if_cases AfterAssure (is_live counted k.now value) _ _
                (λ _.
                  if_cases AfterAssure (value.cookie == s.so_cookie) _ _
                    (λ _. inc tx_flow_update_ok counted update_ok h')
                    (λ _. inc tx_flow_update_conflict counted update_conflict h'))
                (λ _.
                  inc tx_flow_create_from_expired_ok (metric_inc tx_flow_create_ok counted)
                    from_expired (inc tx_flow_create_ok counted create_ok h')))
      ]

module _ (P : ReuseportStorage → Type 0)
    (inc : (token : Metric) (s : ReuseportStorage)
      → IsRx token
      → P s
      → P (metric_inc token s)) where
  abbrev AfterPacket : Verdict → Type 0
  AfterPacket v = P v.state

  third_stage_closed :
      (k : Kernel) (md : Packet) (s : ReuseportStorage) (app : ℕ)
      → P s
      → P (third_stage k md s app).state
  unfolding third_stage
  third_stage_closed k md s app h =
      let h' = inc rx_new_flow_total s new h in
      if_cases AfterPacket (eqℤ (k.select_reuseport (working_slot s app md.hash)) (pos 0)) _ _
        (λ _. inc rx_new_flow_working_gen_dispatch_ok _ sent h')
        (λ _. inc rx_new_flow_working_gen_dispatch_error _ not_sent h')

  select_error_closed : (err : ℤ) (s : ReuseportStorage) → P s → P (metric_inc (select_error err) s)
  unfolding select_error
  select_error_closed err s h =
      if_cases (λ m. P (metric_inc m s)) (eqℤ err ebadf) _ _
        (λ _. inc rx_flow_rg_conflict s conflict h) (λ _. inc rx_flow_other_error s other h)

  by_hash_closed :
      (k : Kernel) (md : Packet) (s : ReuseportStorage) (o : Option LruValue)
      → P s
      → P (by_hash k md s o).state
  unfolding by_hash
  by_hash_closed k md s none h = third_stage_closed k md _ 0 (inc rx_flow_new_unseen s unseen h)
  by_hash_closed k md s (some value) h =
      if_cases AfterPacket (is_live s k.now value) _ _
        (λ _.
          if_cases AfterPacket (eqℤ (k.select_reuseport value.cookie) (pos 0)) _ _
            (λ _. inc rx_flow_ok s ok h)
            (λ _.
              third_stage_closed k md _ 0
                (select_error_closed (k.select_reuseport value.cookie) s h)))
        (λ _.
          third_stage_closed k md _ 0
            (inc rx_flow_new_had_expired _ had_expired (inc rx_flow_new_unseen s unseen h)))

  cookie_error_closed : (err : ℤ) (c : ℕ) (s : ReuseportStorage) → P s → P (cookie_error err c s)
  unfolding cookie_error
  cookie_error_closed err c s h =
      if_cases P (eqℤ err ebadf) _ _ (λ _. inc rx_flow_rg_conflict s conflict h)
        (λ _.
          if_cases P (c == no_cookie || c == 0 || c == bad_cookie) _ _
            (λ _.
              if_cases P (c == bad_cookie) _ _
                (λ _. inc rx_flow_new_bad_cookie _ bad (inc rx_flow_new_unseen s unseen h))
                (λ _. inc rx_flow_new_unseen s unseen h))
            (λ _. inc rx_flow_other_error s other h))

  by_cookie_closed :
      (k : Kernel) (md : Packet) (s : ReuseportStorage) (c app : ℕ)
      → P s
      → P (by_cookie k md s c app).state
  unfolding by_cookie
  by_cookie_closed k md s c app h =
      if_cases AfterPacket (eqℤ (k.select_reuseport c) (pos 0)) _ _ (λ _. inc rx_flow_ok s ok h)
        (λ _. third_stage_closed k md _ app (cookie_error_closed (k.select_reuseport c) c s h))

  dispatch_closed :
      (k : Kernel) (md : Packet) (flows : ℕ → Option LruValue) (s : ReuseportStorage) (p : Parsed)
      → StopsWell p
      → P s
      → P (dispatch k md flows s p).state
  unfolding dispatch
  dispatch_closed k md flows s (stop token) w h = inc token s (stopped token w) h
  dispatch_closed k md flows s (have_hash hash) w h =
      by_hash_closed k md _ (flows hash) (inc rx_dissected_ok_total s dissected h)
  dispatch_closed k md flows s (have_cookie c app) w h =
      by_cookie_closed k md _ c app (inc rx_dissected_ok_total s dissected h)
  dispatch_closed k md flows s have_third_stage w h =
      third_stage_closed k md _ 0
        (inc rx_flow_new_unseen _ unseen (inc rx_dissected_ok_total s dissected h))

  pub receive_closed :
      (b : Bespoke) (k : Kernel) (md : Packet) (flows : ℕ → Option LruValue) (s : ReuseportStorage)
      → P s
      → P (receive b k md flows s).state
  unfolding receive
  receive_closed b k md flows s h =
      dispatch_closed k md flows _ (parse b md s) (parse-StopsWell b md s)
        (inc rx_processed_total s processed h)
