-- ===== src/Daemon.antt =====
-- The daemon's side (src/uspace.c and handle_msg of src/udpgrm.c): it takes the messages of the
-- eBPF programs, finds the socket, and gives it a slot.
pub mod Slots
pub mod Register
pub mod Reach
pub mod Protocol
use udpgrm.Base.{
  ℕ, zero, suc, ◌+◌, ◌-◌, ◌/◌, ◌%◌, max, ◌^◌, Bool, true, false, not, ◌&&◌, ◌||◌, Option, none,
  some, List, [], ◌∷◌, ℤ, pos, neg, ltb, ◌==◌, if◌then◌else◌, lookup,
}
use udpgrm.Cookie.{max_gens, max_sockets_in_gen, max_apps, to_wrk_gen}
use udpgrm.Storage.{
  World, SockKey, ReuseportStorage, SocketStorage, Msg, register_socket, set_working_gen,
  set_dissector, set_cookies, set_socket_critical_gauge, incr_socket_critical, sock_key,
}
use udpgrm.Storage.Helpers.{BpfSock}
use udpgrm.Callback.{cb_update_map, msg_size, skey_of}
use udpgrm.Sockopt.{put_socket}
use udpgrm.Tubular.{Tubular, tubular_maybe_preserve_fd, tubular_maybe_register}

-- The variables that cookies_find_empty sets; `none` is -1.
pub record Found : Type 0 where
  pub prev_pos : Option ℕ
  pub free_pos : Option ℕ
  pub gen_len : ℕ

-- Whether a cookie points to a live socket: the lookup in the sockhash finds a value other than 0.
unfoldable pub value_is_live : Option ℕ → Bool
value_is_live none = false
value_is_live (some v) = not (v == 0)

abbrev or_first : Option ℕ → ℕ → Option ℕ
or_first none i = some i
or_first (some j) i = some j

-- The body of the loop in cookies_find_empty for a live slot that holds the value v.
unfoldable pub see_live : ℕ → ℕ → ℕ → Found → Found
see_live cookie i v acc = record {
  prev_pos = if v == cookie then or_first acc.prev_pos i else acc.prev_pos;
  free_pos = acc.free_pos;
  gen_len = i + 1;
}

-- The same for a slot with no live socket.
unfoldable pub see_free : ℕ → Found → Found
see_free i acc = elim acc.free_pos [
  | none ↦ record acc { free_pos = some i; gen_len = i + 1 }
  | some j ↦ acc
]

unfoldable pub see_slot : ℕ → ℕ → Option ℕ → Found → Found
unfolding see_live see_free
see_slot cookie i none acc = see_free i acc
see_slot cookie i (some v) acc = if v == 0 then see_free i acc else see_live cookie i v acc

-- The rounds i, i + 1, … of the loop, n of them.
unfoldable pub find_from : (ℕ → Option ℕ) → (ℕ → ℕ) → ℕ → ℕ → ℕ → Found → Found
unfolding see_slot
find_from sockhash slots cookie zero i acc = acc
find_from sockhash slots cookie (suc n) i acc =
    find_from sockhash slots cookie n (i + 1) (see_slot cookie i (sockhash (slots i)) acc)

-- cookies_find_empty
unfoldable pub cookies_find_empty : (ℕ → Option ℕ) → ReuseportStorage → ℕ → ℕ → Found
unfolding find_from
cookies_find_empty sockhash state gen cookie =
    find_from sockhash (state.cookies (gen % max_gens)) cookie max_sockets_in_gen 0
      (record { prev_pos = none; free_pos = none; gen_len = 0 })

-- What the daemon keeps and writes to. A lookup in the sockhash gives the cookie of the socket.
pub record DaemonState : Type 0 where
  pub maps : World
  pub sockhash : ℕ → Option ℕ
  pub tubular : Tubular

-- The answers of the kernel to one message: whether pidfd_open succeeds, the socket that
-- pidfd_find_socket copies (none where it fails) and its descriptor, the errno of the update of the
-- sockhash (0 for none), whether test_run, the update of sk_storage and
-- SO_ATTACH_REUSEPORT_EBPF succeed, whether there is a tubular path and what tubular_register
-- returns, and the time.
pub record Answers : Type 0 where
  pub pidfd : Bool
  pub socket : Option BpfSock
  pub fd : ℕ
  pub sockhash_errno : ℕ
  pub test_run : Bool
  pub storage_update : Bool
  pub attach : Bool
  pub tubular_path : Bool
  pub tubular_sent : ℕ
  pub now : ℕ

-- The next state, or the end of the daemon by error(-1, …).
pub data Handled : Type 0 where
  go_on : DaemonState → Handled
  exit : Handled

infixl 5 ◌>>=◌
abbrev pub ◌>>=◌ : Handled → (DaemonState → Handled) → Handled
go_on d >>= f = f d
exit >>= f = exit

abbrev pub check : Bool → DaemonState → Handled
check b d = if b then go_on d else exit

abbrev with_maps : DaemonState → World × ℕ → Handled
with_maps d (w, retval) = if retval == 0 then go_on (record d { maps = w }) else exit

-- run_cb_update_map
unfoldable pub run_cb_update_map : Answers → Msg → DaemonState → Handled
unfolding cb_update_map
run_cb_update_map k msg d =
    if k.test_run then with_maps d (cb_update_map d.maps msg_size msg) else exit

-- metric_incr_critical
unfoldable pub metric_incr_critical : Answers → SockKey → ℕ → ℕ → DaemonState → Handled
unfolding run_cb_update_map
metric_incr_critical k skey counter gauge d =
    run_cb_update_map k (set_socket_critical_gauge skey (pos gauge)) d >>= λ d'.
    if counter == 0
    then go_on d'
    else run_cb_update_map k (incr_socket_critical skey (pos counter)) d'

abbrev pub eexist : ℕ
eexist = 17

-- bpf_map_update_elem(sockhash_fd, …, BPF_NOEXIST)
unfoldable pub put_sockhash : Answers → ℕ → DaemonState → Handled
put_sockhash k cookie d =
    if k.sockhash_errno == 0
    then go_on (record d { sockhash = λ c. if c == cookie then some cookie else d.sockhash c })
    else check (k.sockhash_errno == eexist) d

-- The slot `idx` of generation `gen` is given to the socket.
unfoldable pub take_slot :
    Answers
    → SockKey
    → ReuseportStorage
    → BpfSock
    → SocketStorage
    → ℕ
    → ℕ
    → ℕ
    → ℕ
    → DaemonState
    → Handled
unfolding run_cb_update_map tubular_maybe_preserve_fd put_socket
take_slot k skey state sk s cookie gen idx gen_len d =
    let (t, close) = tubular_maybe_preserve_fd k.now state gen gen_len idx (pos k.fd) d.tubular in
    run_cb_update_map k (set_cookies skey gen idx gen_len cookie) (record d { tubular = t })
    >>= λ d'.
        if k.storage_update
        then go_on (record d' { maps = put_socket d'.maps sk (record s { sock_idx = idx }) })
        else exit

-- MSG_REGISTER_SOCKET from the search for a slot on; without one nothing is registered.
unfoldable pub find_slot :
    Answers → SockKey → ReuseportStorage → BpfSock → SocketStorage → ℕ → ℕ → DaemonState → Handled
unfolding put_sockhash take_slot
find_slot k skey state sk s cookie gen d =
    let found = cookies_find_empty d.sockhash state gen cookie in
    elim found.free_pos [
      | none ↦ go_on d
      | some idx ↦ put_sockhash k cookie d >>= λ d'.
          take_slot k skey state sk s cookie gen idx found.gen_len d'
    ]

-- MSG_REGISTER_SOCKET with the socket at hand; the program is attached in any case. With more than
-- 32 apps the slot size of TO_WRK_GEN is 0, and the division by it ends the daemon.
unfoldable pub register_found :
    Answers
    → SockKey
    → ReuseportStorage
    → ℕ
    → ℕ
    → ℕ
    → BpfSock
    → Option SocketStorage
    → DaemonState
    → Handled
unfolding find_slot
register_found k skey state cookie gen app sk none d = exit
register_found k skey state cookie gen app sk (some s) d =
    if max_gens / max 1 state.dis.max_apps == 0
    then exit
    else find_slot k skey state sk s cookie (to_wrk_gen state.dis.max_apps app gen) d
      >>= check k.attach

-- MSG_REGISTER_SOCKET
unfoldable pub on_register_socket :
    Answers → SockKey → ReuseportStorage → ℕ → ℕ → ℕ → DaemonState → Handled
unfolding register_found metric_incr_critical
on_register_socket k skey state cookie gen app d =
    if k.pidfd
    then elim k.socket [
      | none ↦ metric_incr_critical k skey 1 1 d
      | some sk ↦ register_found k skey state cookie gen app sk (d.maps.sockets sk.id) d
    ]
    else go_on d

-- MSG_SET_WORKING_GEN
unfoldable pub on_set_working_gen : Answers → SockKey → ReuseportStorage → ℕ → DaemonState → Handled
unfolding tubular_maybe_register metric_incr_critical
on_set_working_gen k skey state gen d =
    let (t, err) =
      tubular_maybe_register k.tubular_path k.tubular_sent state (gen % max_gens) d.tubular in
    let flag = if err == 0 then 0 else 1 in
    metric_incr_critical k skey flag flag (record d { tubular = t })

unfoldable pub on_msg : Answers → Msg → ReuseportStorage → DaemonState → Handled
unfolding on_register_socket on_set_working_gen
on_msg k (register_socket skey pid cookie gen app) state d =
    on_register_socket k skey state cookie gen app d
on_msg k (set_working_gen skey app gen) state d = on_set_working_gen k skey state gen d
on_msg k _ state d = go_on d

-- handle_msg, for all messages but MSG_LOG, which is only printed
unfoldable pub handle_msg : Answers → Msg → DaemonState → Handled
unfolding on_msg
handle_msg k msg d = elim (lookup (skey_of msg) d.maps.groups) [
  | none ↦ exit
  | some state ↦ on_msg k msg state d
]
