-- ===== src/Reuseport.antt =====
-- The SO_REUSEPORT program (ebpf/ebpf.c): dissector_cbpf and the three stages of
-- udpgrm_reuseport_prog. Its lines of log are left out.
pub mod Account
pub mod Origin
use udpgrm.Base.{
  ℕ, ◌+◌, ◌-◌, ◌*◌, ◌%◌, ◌^◌, Bool, true, false, ◌||◌, Option, none, some, List, ℤ, eqℤ, pos, neg,
  ltb, ◌==◌, if◌then◌else◌, u16, sub32,
}
use udpgrm.Cookie.{max_gens, max_sockets_in_gen, max_apps, grm_cookie_unpack, to_wrk_gen}
use udpgrm.Storage.{World, ReuseportStorage, LruValue, find_state, put_state, metric_inc}
use udpgrm.Storage.Counters.{
  Metric, rx_processed_total, rx_internal_state_error, rx_cbpf_prog_error,
  rx_packet_too_short_error, rx_dissected_ok_total, rx_flow_ok, rx_flow_rg_conflict,
  rx_flow_other_error, rx_flow_new_unseen, rx_flow_new_had_expired, rx_flow_new_bad_cookie,
  rx_new_flow_total, rx_new_flow_working_gen_dispatch_ok, rx_new_flow_working_gen_dispatch_error,
}
use udpgrm.Storage.Helpers.{Kernel, Packet}
use udpgrm.Storage.Config.{type_of, type_flow, type_cbpf, type_bespoke, type_noop}
use udpgrm.Interp.{interpret_cbpf, ierr_ok, ierr_load, ierr_badreturnvalue}
use udpgrm.Flow.{dissector_flow, is_live}

-- run_bespoke_by_digest(md, digest, state, &retval), as its return code and *retval.
abbrev pub Bespoke : Type 0
Bespoke = Packet → ℕ → ReuseportStorage → ℤ × ℕ

abbrev pub ebadf : ℤ
ebadf = neg 9

-- What dissector_cbpf tells its caller: no cookie and an app, a cookie, or another code.
pub data CbpfResult : Type 0 where
  new_flow : ℕ → CbpfResult
  cookie_found : ℕ → CbpfResult
  failed : ℤ → CbpfResult

-- The reading of *retval after IERR_OK; as an int it is negative from 2 ^ 31 on.
unfoldable pub read_retval : ReuseportStorage → ℕ → CbpfResult
read_retval state retval =
    let app_idx = sub32 retval 0x8000_0000 in
    if ltb app_idx state.dis.max_apps
    then new_flow app_idx
    else if ltb 0xffff retval
    then new_flow 0
    else cookie_found (u16 retval)

-- The two dissectors behind dissector_cbpf.
unfoldable pub run_cbpf : Bespoke → Packet → ReuseportStorage → ℤ × ℕ
run_cbpf bespoke md state =
    if state.dis.bespoke_digest == 0
    then interpret_cbpf md state
    else bespoke md state.dis.bespoke_digest state

-- dissector_cbpf; IERR_BADRETURNVALUE of the dissector means a new flow too.
unfoldable pub dissector_cbpf : Bespoke → Packet → ReuseportStorage → CbpfResult
unfolding read_retval
dissector_cbpf bespoke md state =
    let (r, retval) = run_cbpf bespoke md state in
    if eqℤ r ierr_ok
    then read_retval state retval
    else if eqℤ r ierr_badreturnvalue
    then new_flow 0
    else failed r

-- The labels to which the first stage jumps: an error with its counter, have_hash, have_cookie
-- with the socket cookie and the app, and have_third_stage.
pub data Parsed : Type 0 where
  stop : Metric → Parsed
  have_hash : ℕ → Parsed
  have_cookie : ℕ → ℕ → Parsed
  have_third_stage : Parsed

-- -1ULL and -2ULL
abbrev pub no_cookie : ℕ
no_cookie = 2 ^ 64 - 1

abbrev pub bad_cookie : ℕ
bad_cookie = 2 ^ 64 - 2

-- The socket cookie behind a udpgrm cookie.
unfoldable pub cookie_slot : ReuseportStorage → Option (ℕ × ℕ) → ℕ
cookie_slot state none = bad_cookie
cookie_slot state (some (sock_gen, sock_idx)) =
    state.cookies (sock_gen % max_gens) (sock_idx % max_sockets_in_gen)

unfoldable pub parse_cbpf : ReuseportStorage → CbpfResult → Parsed
unfolding cookie_slot
parse_cbpf state (new_flow app_idx) = have_cookie no_cookie app_idx
parse_cbpf state (cookie_found c) = have_cookie (cookie_slot state (grm_cookie_unpack c)) 0
parse_cbpf state (failed r) =
    if eqℤ r ierr_load then stop rx_packet_too_short_error else stop rx_cbpf_prog_error

unfoldable pub parse_flow : Option ℕ → Parsed
parse_flow none = stop rx_packet_too_short_error
parse_flow (some hash) = have_hash hash

-- First stage, parsing.
unfoldable pub parse : Bespoke → Packet → ReuseportStorage → Parsed
unfolding parse_cbpf parse_flow type_of
parse bespoke md state =
    let dis = type_of state.dis.dissector_type in
    if dis == type_flow
    then parse_flow (dissector_flow md state.random_id)
    else if dis == type_cbpf || dis == type_bespoke
    then parse_cbpf state (dissector_cbpf bespoke md state)
    else if dis == type_noop
    then have_third_stage
    else stop rx_internal_state_error

-- The group with its counters, and the socket cookie that was selected. Without one the kernel
-- falls back to its own choice. Each return of the program is SK_PASS.
pub record Verdict : Type 0 where
  pub state : ReuseportStorage
  pub selected : Option ℕ

abbrev pass : ReuseportStorage → Option ℕ → Verdict
pass state selected = record { state = state; selected = selected }

-- The slot of the working generation that a new flow is sent to.
unfoldable pub working_slot : ReuseportStorage → ℕ → ℕ → ℕ
working_slot state app_idx hash =
    let wrk_gen = to_wrk_gen state.dis.max_apps app_idx (state.working_gen (app_idx % max_apps)) in
    let max_idx = state.max_idx (wrk_gen % max_gens) in
    state.cookies (wrk_gen % max_gens) (hash % max_idx % max_sockets_in_gen)

-- Third stage, new flow dispatch.
unfoldable pub third_stage : Kernel → Packet → ReuseportStorage → ℕ → Verdict
third_stage k md state app_idx =
    let counted = metric_inc rx_new_flow_total state in
    let sock_cookie = working_slot state app_idx md.hash in
    if eqℤ (k.select_reuseport sock_cookie) (pos 0)
    then pass (metric_inc rx_new_flow_working_gen_dispatch_ok counted) (some sock_cookie)
    else pass (metric_inc rx_new_flow_working_gen_dispatch_error counted) none

-- The counters of have_hash where the entry led nowhere.
unfoldable pub select_error : ℤ → Metric
select_error err = if eqℤ err ebadf then rx_flow_rg_conflict else rx_flow_other_error

unfoldable pub by_hash : Kernel → Packet → ReuseportStorage → Option LruValue → Verdict
unfolding third_stage select_error is_live
by_hash k md state none = third_stage k md (metric_inc rx_flow_new_unseen state) 0
by_hash k md state (some value) =
    if is_live state k.now value
    then (let err = k.select_reuseport value.cookie in
        if eqℤ err (pos 0)
        then pass (metric_inc rx_flow_ok state) (some value.cookie)
        else third_stage k md (metric_inc (select_error err) state) 0)
    else third_stage k md (metric_inc rx_flow_new_had_expired (metric_inc rx_flow_new_unseen state))
        0

-- The counters of have_cookie where the socket was not selected.
unfoldable pub cookie_error : ℤ → ℕ → ReuseportStorage → ReuseportStorage
cookie_error err sock_cookie state =
    if eqℤ err ebadf
    then metric_inc rx_flow_rg_conflict state
    else if sock_cookie == no_cookie || sock_cookie == 0 || sock_cookie == bad_cookie
    then (let unseen = metric_inc rx_flow_new_unseen state in
        if sock_cookie == bad_cookie then metric_inc rx_flow_new_bad_cookie unseen else unseen)
    else metric_inc rx_flow_other_error state

unfoldable pub by_cookie : Kernel → Packet → ReuseportStorage → ℕ → ℕ → Verdict
unfolding third_stage cookie_error
by_cookie k md state sock_cookie app_idx =
    let err = k.select_reuseport sock_cookie in
    if eqℤ err (pos 0)
    then pass (metric_inc rx_flow_ok state) (some sock_cookie)
    else third_stage k md (cookie_error err sock_cookie state) app_idx

-- Second stage, existing flow dispatch, and what follows it.
unfoldable pub dispatch :
    Kernel → Packet → (ℕ → Option LruValue) → ReuseportStorage → Parsed → Verdict
unfolding by_hash by_cookie
dispatch k md flows state (stop token) = pass (metric_inc token state) none
dispatch k md flows state (have_hash hash) =
    by_hash k md (metric_inc rx_dissected_ok_total state) (flows hash)
dispatch k md flows state (have_cookie sock_cookie app_idx) =
    by_cookie k md (metric_inc rx_dissected_ok_total state) sock_cookie app_idx
dispatch k md flows state have_third_stage =
    third_stage k md (metric_inc rx_flow_new_unseen (metric_inc rx_dissected_ok_total state)) 0

-- udpgrm_reuseport_prog, once the group is found.
unfoldable pub receive :
    Bespoke → Kernel → Packet → (ℕ → Option LruValue) → ReuseportStorage → Verdict
unfolding dispatch parse
receive bespoke k md flows state =
    dispatch k md flows (metric_inc rx_processed_total state) (parse bespoke md state)

-- udpgrm_reuseport_prog: the maps after it and the selected socket.
unfoldable pub reuseport_prog : Bespoke → Kernel → World → Packet → World × Option ℕ
unfolding find_state put_state receive
reuseport_prog bespoke k w md = elim (find_state w md.sk) [
  | none ↦ (w, none)
  | some state ↦
      let v = receive bespoke k md w.flows state in (put_state w md.sk v.state, v.selected)
]
