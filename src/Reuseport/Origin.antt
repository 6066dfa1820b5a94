-- ===== src/Reuseport/Origin.antt =====
-- Where the socket that udpgrm_reuseport_prog selects comes from (ebpf/ebpf.c).
use udpgrm.Base.{
  ℕ, ◌≡◌, refl, sym, ap, ◌∙◌, false, Option, none, some, pos, eqℤ, ◌==◌, ◌||◌, arith, if_cases,
  true, ℤ,
}
use udpgrm.Cookie.{grm_cookie_unpack}
use udpgrm.Storage.{ReuseportStorage, LruValue, metric_inc}
use udpgrm.Storage.Counters.{
  Metric, rx_dissected_ok_total, rx_processed_total, rx_flow_new_unseen, rx_flow_new_had_expired,
}
use udpgrm.Storage.Helpers.{Kernel, Packet}
use udpgrm.Storage.Config.{type_of, type_flow, type_cbpf, type_bespoke, type_noop}
use udpgrm.Interp.{ierr_load}
use udpgrm.Flow.{dissector_flow, is_live}
use udpgrm.Reuseport.{
  Bespoke, Verdict, Parsed, stop, have_hash, have_cookie, have_third_stage, CbpfResult, new_flow,
  cookie_found, failed, parse, parse_flow, parse_cbpf, dissector_cbpf, cookie_slot, no_cookie,
  bad_cookie, working_slot, third_stage, by_hash, by_cookie, dispatch, receive, cookie_error, ebadf,
}

some_same : {a b : LruValue} → some a ≡ some b → a ≡ b
some_same e = cc e

apart : true ≡ false → ⊥
apart e = cc e

module _ (bespoke : Bespoke) (k : Kernel) (md : Packet) (flows : ℕ → Option LruValue)
    (state : ReuseportStorage) where
  -- The dissector of the group looks for flows, runs a program, or does nothing.
  abbrev pub IsFlow : Type 0
  IsFlow = (type_of state.dis.dissector_type == type_flow) ≡ true

  abbrev pub IsProgram : Type 0
  IsProgram =
      let dis = type_of state.dis.dissector_type in (dis == type_cbpf || dis == type_bespoke) ≡ true

  abbrev pub IsNoop : Type 0
  IsNoop = (type_of state.dis.dissector_type == type_noop) ≡ true

  -- The kernel does not select the socket.
  abbrev pub Refused : ℕ → Type 0
  Refused c = eqℤ (k.select_reuseport c) (pos 0) ≡ false

  -- The app whose working generation serves the packet, and why nothing else does: app 0 for a flow
  -- without a live entry that the kernel selects, and for a cookie that it does not select; the app
  -- that the program found for a new flow; app 0 without a dissector.
  pub data AppOf : ℕ → Type 0 where
    no_entry :
        (hash : ℕ)
        → IsFlow
        → dissector_flow md state.random_id ≡ some hash
        → ((value : LruValue)
            → flows hash ≡ some value
            → is_live state k.now value ≡ true
            → Refused value.cookie)
        → AppOf 0
    behind_cookie :
        (c : ℕ)
        → IsProgram
        → dissector_cbpf bespoke md state ≡ cookie_found c
        → Refused (cookie_slot state (grm_cookie_unpack c))
        → AppOf 0
    given :
        (app_idx : ℕ)
        → IsProgram
        → dissector_cbpf bespoke md state ≡ new_flow app_idx
        → Refused no_cookie
        → AppOf app_idx
    without : IsNoop → AppOf 0

  -- The sources of a socket cookie: a live entry at the flow hash of the packet, the slot of the
  -- cookie that the dissector found, a slot of the working generation of the packet's app, and, for
  -- a new flow, the mark -1 itself.
  pub data Origin : ℕ → Type 0 where
    by_flow :
        (hash : ℕ) (value : LruValue)
        → IsFlow
        → dissector_flow md state.random_id ≡ some hash
        → flows hash ≡ some value
        → is_live state k.now value ≡ true
        → Origin value.cookie
    by_slot :
        (c : ℕ)
        → IsProgram
        → dissector_cbpf bespoke md state ≡ cookie_found c
        → Origin (cookie_slot state (grm_cookie_unpack c))
    by_app : (app_idx : ℕ) → AppOf app_idx → Origin (working_slot state app_idx md.hash)
    by_mark :
        (app_idx : ℕ)
        → IsProgram
        → dissector_cbpf bespoke md state ≡ new_flow app_idx
        → Origin no_cookie

  -- A verdict without a selection, or with one that the kernel made.
  pub data Sound : Option ℕ → Type 0 where
    none_selected : Sound none
    one_selected : (c : ℕ) → k.select_reuseport c ≡ pos 0 → Origin c → Sound (some c)

  abbrev SoundV : Verdict → Type 0
  SoundV v = Sound v.selected

  eq_pos : (x : ℤ) → eqℤ x (pos 0) ≡ true → x ≡ pos 0
  eq_pos x h = ground arith

  -- A state of the group that dispatches as `state` does.
  record Alike (s : ReuseportStorage) : Type 0 where
    working : (app_idx hash : ℕ) → working_slot s app_idx hash ≡ working_slot state app_idx hash
    live : (now : ℕ) (value : LruValue) → is_live s now value ≡ is_live state now value

  metric_inc-Alike : {s : ReuseportStorage} (m : Metric) → Alike s → Alike (metric_inc m s)
  unfolding metric_inc working_slot is_live
  metric_inc-Alike m h = record { working = h.working; live = h.live }

  third_stage-Sound :
      {s : ReuseportStorage} (app_idx : ℕ)
      → Alike s
      → AppOf app_idx
      → SoundV (third_stage k md s app_idx)
  unfolding third_stage
  third_stage-Sound {s} app_idx h why =
      let same = h.working app_idx md.hash in
      if_cases SoundV (eqℤ (k.select_reuseport (working_slot s app_idx md.hash)) (pos 0)) _ _
        (λ e. rw same (
          one_selected (working_slot state app_idx md.hash) (eq_pos _ (rw same at e))
            (by_app app_idx why)))
        (λ _. none_selected)

  by_hash-Sound :
      {s : ReuseportStorage} (hash : ℕ) (entry : Option LruValue)
      → Alike s
      → IsFlow
      → dissector_flow md state.random_id ≡ some hash
      → flows hash ≡ entry
      → SoundV (by_hash k md s entry)
  unfolding by_hash
  by_hash-Sound {s} hash none h f d e =
      third_stage-Sound 0 (metric_inc-Alike rx_flow_new_unseen h)
        (no_entry hash f d (λ value e' live. cc))
  by_hash-Sound {s} hash (some value) h f d e =
      if_cases SoundV (is_live s k.now value) _ _
        (λ live.
          if_cases SoundV (eqℤ (k.select_reuseport value.cookie) (pos 0)) _ _
            (λ ok.
              one_selected value.cookie (eq_pos _ ok)
                (by_flow hash value f d e (rw (h.live k.now value) at live)))
            (λ refused. third_stage-Sound 0 (metric_inc-Alike _ h) (
              no_entry hash f d (λ other e' _.
                let same : value ≡ other = some_same (cc (e, e')) in
                ap (λ (x : LruValue). eqℤ (k.select_reuseport x.cookie) (pos 0)) (sym same)
                ∙ refused))))
        (λ dead.
          third_stage-Sound 0
            (metric_inc-Alike rx_flow_new_had_expired (metric_inc-Alike rx_flow_new_unseen h))
            (no_entry hash f d (λ other e' live.
              let same : value ≡ other = some_same (cc (e, e')) in
              absurd (
                apart (
                  sym live
                  ∙ ap (is_live state k.now) (sym same)
                  ∙ sym (h.live k.now value)
                  ∙ dead)))))

  cookie_error-Alike :
      {s : ReuseportStorage} (err : ℤ) (c : ℕ) → Alike s → Alike (cookie_error err c s)
  unfolding cookie_error
  cookie_error-Alike {s} err c h =
      if_cases Alike (eqℤ err ebadf) _ _ (λ _. metric_inc-Alike _ h)
        (λ _.
          if_cases Alike (c == no_cookie || c == 0 || c == bad_cookie) _ _
            (λ _.
              if_cases Alike (c == bad_cookie) _ _ (λ _. metric_inc-Alike _ (metric_inc-Alike _ h))
                (λ _. metric_inc-Alike _ h))
            (λ _. metric_inc-Alike _ h))

  by_cookie-Sound :
      {s : ReuseportStorage} (c app_idx : ℕ)
      → Alike s
      → Origin c
      → (Refused c → AppOf app_idx)
      → SoundV (by_cookie k md s c app_idx)
  unfolding by_cookie
  by_cookie-Sound c app_idx h o why =
      if_cases SoundV (eqℤ (k.select_reuseport c) (pos 0)) _ _
        (λ ok. one_selected c (eq_pos _ ok) o)
        (λ refused.
          third_stage-Sound app_idx (cookie_error-Alike (k.select_reuseport c) c h) (why refused))

  -- What the first stage hands to the second.
  abbrev FromParsed : Parsed → Type 0
  FromParsed (stop m) = Unit {0}
  FromParsed (have_hash hash) = IsFlow × (dissector_flow md state.random_id ≡ some hash)
  FromParsed (have_cookie c app_idx) = Origin c × (Refused c → AppOf app_idx)
  FromParsed have_third_stage = IsNoop

  parse_flow-FromParsed :
      (hash : Option ℕ)
      → IsFlow
      → dissector_flow md state.random_id ≡ hash
      → FromParsed (parse_flow hash)
  unfolding parse_flow
  parse_flow-FromParsed none f e = tt
  parse_flow-FromParsed (some hash) f e = (f, e)

  parse_cbpf-FromParsed :
      (r : CbpfResult)
      → IsProgram
      → dissector_cbpf bespoke md state ≡ r
      → FromParsed (parse_cbpf state r)
  unfolding parse_cbpf
  parse_cbpf-FromParsed (new_flow app_idx) p e = (by_mark app_idx p e, given app_idx p e)
  parse_cbpf-FromParsed (cookie_found c) p e = (by_slot c p e, behind_cookie c p e)
  parse_cbpf-FromParsed (failed r) p e =
      if_cases FromParsed (eqℤ r ierr_load) _ _ (λ _. tt) (λ _. tt)

  parse-FromParsed : FromParsed (parse bespoke md state)
  unfolding parse
  parse-FromParsed =
      let dis = type_of state.dis.dissector_type in
      if_cases FromParsed (dis == type_flow) _ _ (λ f. parse_flow-FromParsed _ f refl)
        (λ _.
          if_cases FromParsed (dis == type_cbpf || dis == type_bespoke) _ _
            (λ p. parse_cbpf-FromParsed _ p refl)
            (λ _. if_cases FromParsed (dis == type_noop) _ _ (λ n. n) (λ _. tt)))

  dispatch-Sound :
      {s : ReuseportStorage} (p : Parsed)
      → Alike s
      → FromParsed p
      → SoundV (dispatch k md flows s p)
  unfolding dispatch
  dispatch-Sound (stop m) h from = none_selected
  dispatch-Sound (have_hash hash) h (f, d) =
      by_hash-Sound hash (flows hash) (metric_inc-Alike rx_dissected_ok_total h) f d refl
  dispatch-Sound (have_cookie c app_idx) h (o, why) =
      by_cookie-Sound c app_idx (metric_inc-Alike rx_dissected_ok_total h) o why
  dispatch-Sound have_third_stage h from =
      third_stage-Sound 0
        (metric_inc-Alike rx_flow_new_unseen (metric_inc-Alike rx_dissected_ok_total h))
        (without from)

  -- For every packet the program selects nothing, or a socket that the kernel selected for it and
  -- that comes, by the dissector of the group: from a live entry at the flow hash of the packet; from
  -- the slot of the cookie that the program found; where the kernel selects none of these, from the
  -- working generation, of the app that the program found for a new flow, and of app 0 for a flow or
  -- a cookie and without a dissector; or, for a new flow of the program, is the mark -1 itself.
  pub receive-Sound : Sound (receive bespoke k md flows state).selected
  unfolding receive
  receive-Sound =
      dispatch-Sound (parse bespoke md state)
        (metric_inc-Alike rx_processed_total
          (record { working = λ app_idx hash. refl; live = λ now value. refl }))
        parse-FromParsed
