-- ===== src/Callback.antt =====
-- udpgrm_cb_update_map (ebpf/ebpf.c), by which the daemon writes to the groups.
use udpgrm.Base.{
  ℕ, suc, ◌+◌, ◌-◌, ◌%◌, ◌^◌, Option, none, some, ℤ, pos, negsuc, ltb, ◌==◌, if◌then◌else◌, u64,
  lookup, insert,
}
use udpgrm.Cookie.{max_gens, max_sockets_in_gen}
use udpgrm.Storage.{
  World, SockKey, ReuseportStorage, Msg, set_cookies, set_socket_critical_gauge,
  incr_socket_critical, register_socket, set_working_gen, set_dissector, sock_key,
}
use udpgrm.Storage.Counters
use udpgrm.Storage.Counters.{Metric, socket_critical_gauge, socket_critical}

-- An int that is added to a uint64_t.
abbrev pub to_u64 : ℤ → ℕ
to_u64 (pos n) = u64 n
to_u64 (negsuc n) = 2 ^ 64 - suc n

-- __sync_fetch_and_add(&state->token, value)
unfoldable pub metric_add : Metric → ℤ → ReuseportStorage → ReuseportStorage
unfolding Counters.index
metric_add token value state = record state {
  metrics = λ m.
      if Counters.index m == Counters.index token
      then u64 (state.metrics m + to_u64 value)
      else state.metrics m;
}

-- GSM_SET_COOKIES
unfoldable pub put_cookie : ℕ → ℕ → ℕ → ℕ → ReuseportStorage → ReuseportStorage
put_cookie gen idx len cookie state = record state {
  cookies = λ g i.
      if g == gen % max_gens
      then if i == idx % max_sockets_in_gen then cookie else state.cookies g i
      else state.cookies g i;
  max_idx = λ g. if g == gen % max_gens then len else state.max_idx g;
}

-- The key of a message.
abbrev pub skey_of : Msg → SockKey
skey_of (register_socket skey pid cookie gen app) = skey
skey_of (set_working_gen skey app gen) = skey
skey_of (set_dissector skey value) = skey
skey_of (set_cookies skey gen idx len cookie) = skey
skey_of (set_socket_critical_gauge skey value) = skey
skey_of (incr_socket_critical skey value) = skey

-- The new state of the group, or none for a message of another type.
unfoldable pub apply_msg : Msg → ReuseportStorage → Option ReuseportStorage
unfolding put_cookie metric_add
apply_msg (set_cookies skey gen idx len cookie) state = some (put_cookie gen idx len cookie state)
apply_msg (set_socket_critical_gauge skey value) state =
    some (metric_add socket_critical_gauge value state)
apply_msg (incr_socket_critical skey value) state = some (metric_add socket_critical value state)
apply_msg _ state = none

unfoldable pub write_msg : World → Msg → Option ReuseportStorage → World × ℕ
unfolding apply_msg
write_msg w msg none = (w, 1)
write_msg w msg (some state) = elim (apply_msg msg state) [
  | none ↦ (w, 1)
  | some state' ↦ (record w { groups = insert (skey_of msg) state' w.groups }, 0)
]

-- sizeof(struct msg_value)
abbrev pub msg_size : ℕ
msg_size = 128

-- udpgrm_cb_update_map on `size` bytes of data: the maps and the return value.
unfoldable pub cb_update_map : World → ℕ → Msg → World × ℕ
unfolding write_msg
cb_update_map w size msg =
    if ltb size msg_size then (w, 1) else write_msg w msg (lookup (skey_of msg) w.groups)
