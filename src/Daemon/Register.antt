-- ===== src/Daemon/Register.antt =====
-- MSG_REGISTER_SOCKET from its arrival to the slot of the socket (handle_msg of src/udpgrm.c and
-- udpgrm_cb_update_map of ebpf/ebpf.c).
use udpgrm.Base.{
  if◌then◌else◌, ℕ, ◌≡◌, refl, ap, ◌∙◌, sym, Bool, true, false, some, lookup, arith, insert,
}
use udpgrm.Cookie.{to_wrk_gen}
use udpgrm.Storage.{
  World, SockKey, ReuseportStorage, SocketStorage, set_cookies, register_socket, sock_key,
}
use udpgrm.Storage.Helpers.{BpfSock}
use udpgrm.Callback.{cb_update_map, write_msg, apply_msg, put_cookie, msg_size}
use udpgrm.Sockopt.{put_socket}
use udpgrm.Daemon.{
  cookies_find_empty, DaemonState, Answers, Handled, go_on, exit, ◌>>=◌, check, run_cb_update_map,
  put_sockhash, take_slot, find_slot, register_found, on_register_socket, on_msg, handle_msg,
}

-- What ran before, and what ran after it.
bind-go_on :
    (h : Handled) (f : DaemonState → Handled) {d' : DaemonState}
    → (h >>= f) ≡ go_on d'
    → (d : DaemonState) × (f d ≡ go_on d') × (h ≡ go_on d)
bind-go_on (go_on d) f e = (d, e, refl)
bind-go_on exit f e = ground arith

check-go_on : (b : Bool) (d : DaemonState) {d' : DaemonState} → check b d ≡ go_on d' → d ≡ d'
check-go_on true d e = cc
check-go_on false d e = cc

-- What a test guards that ends the daemon.
no_trap :
    (b : Bool) (h : Handled) {d' : DaemonState} → (if b then exit else h) ≡ go_on d' → h ≡ go_on d'
no_trap true h e = ground arith
no_trap false h e = e

pub maps-put_sockhash :
    (k : Answers) (cookie : ℕ) (d : DaemonState) {d' : DaemonState}
    → put_sockhash k cookie d ≡ go_on d'
    → d'.maps ≡ d.maps
unfolding put_sockhash
maps-put_sockhash k cookie d e = ground arith

-- The maps after GSM_SET_COOKIES.
abbrev pub slot_written : World → SockKey → ReuseportStorage → World
slot_written w skey state = record w { groups = insert skey state w.groups }

set_cookies-written :
    (w : World) (skey : SockKey) (gen idx len cookie : ℕ) (state : ReuseportStorage)
    → lookup skey w.groups ≡ some state
    → cb_update_map w msg_size (set_cookies skey gen idx len cookie)
      ≡ (slot_written w skey (put_cookie gen idx len cookie state), 0)
unfolding cb_update_map write_msg apply_msg
set_cookies-written w skey gen idx len cookie state e = rw (e, write_msg) refl

maps-run_cb_update_map :
    (k : Answers) (d : DaemonState) (skey : SockKey) (gen idx len cookie : ℕ)
    (state : ReuseportStorage) {d' : DaemonState}
    → lookup skey d.maps.groups ≡ some state
    → run_cb_update_map k (set_cookies skey gen idx len cookie) d ≡ go_on d'
    → d'.maps ≡ slot_written d.maps skey (put_cookie gen idx len cookie state)
unfolding run_cb_update_map
maps-run_cb_update_map k d skey gen idx len cookie state e h =
    ground (arith, set_cookies-written d.maps skey gen idx len cookie state e)

-- A write to the maps that the daemon insists on.
maps-if :
    (b : Bool) (d : DaemonState) (w : World) {d' : DaemonState}
    → (if b then go_on (record d { maps = w }) else exit) ≡ go_on d'
    → d'.maps ≡ w
maps-if b d w h = ground arith

maps-take_slot :
    (k : Answers) (skey : SockKey) (state : ReuseportStorage) (sk : BpfSock) (s : SocketStorage)
    (cookie gen idx len : ℕ) (d : DaemonState) {d' : DaemonState}
    → lookup skey d.maps.groups ≡ some state
    → take_slot k skey state sk s cookie gen idx len d ≡ go_on d'
    → d'.maps
      ≡ put_socket
          (slot_written d.maps skey (put_cookie gen idx len cookie state))
          sk
          (record s { sock_idx = idx })
unfolding take_slot
maps-take_slot k skey state sk s cookie gen idx len d e h =
    let (d₁, h₂, h₁) = bind-go_on _ _ h in
    let m = maps-run_cb_update_map k _ skey gen idx len cookie state e h₁ in
    maps-if k.storage_update d₁ _ h₂ ∙ ap (λ w. put_socket w sk (record s { sock_idx = idx })) m

-- The maps after the registration in the slot `idx` of the generation `gen`.
abbrev pub registered_maps :
    World → SockKey → ReuseportStorage → BpfSock → SocketStorage → ℕ → ℕ → ℕ → ℕ → World
registered_maps w skey state sk s cookie gen idx len =
    put_socket (slot_written w skey (put_cookie gen idx len cookie state)) sk
      (record s { sock_idx = idx })

maps-find_slot :
    (k : Answers) (skey : SockKey) (state : ReuseportStorage) (sk : BpfSock) (s : SocketStorage)
    (cookie gen idx : ℕ) (d : DaemonState) {d' : DaemonState}
    → lookup skey d.maps.groups ≡ some state
    → (cookies_find_empty d.sockhash state gen cookie).free_pos ≡ some idx
    → find_slot k skey state sk s cookie gen d ≡ go_on d'
    → d'.maps
      ≡ registered_maps d.maps skey state sk s cookie gen idx
          (cookies_find_empty d.sockhash state gen cookie).gen_len
unfolding find_slot
maps-find_slot k skey state sk s cookie gen idx d {d'} e free h =
    let len = (cookies_find_empty d.sockhash state gen cookie).gen_len in
    let (d₁, h₂, h₁) =
      bind-go_on (put_sockhash k cookie d)
        (λ d''. take_slot k skey state sk s cookie gen idx len d'') {d' = d'}
        (rw (free, find_slot) at h) in
    let m : d₁.maps ≡ d.maps = maps-put_sockhash k cookie d h₁ in
    let e₁ : lookup skey d₁.maps.groups ≡ some state = rw m e in
    maps-take_slot k skey state sk s cookie gen idx len d₁ e₁ h₂
    ∙ ap (λ w. registered_maps w skey state sk s cookie gen idx len) m

pub maps-handle_msg :
    (k : Answers) (skey : SockKey) (pid cookie gen app idx : ℕ) (state : ReuseportStorage)
    (sk : BpfSock) (s : SocketStorage) (d : DaemonState) {d' : DaemonState}
    → lookup skey d.maps.groups ≡ some state
    → k.pidfd ≡ true
    → k.socket ≡ some sk
    → d.maps.sockets sk.id ≡ some s
    → (cookies_find_empty d.sockhash state (to_wrk_gen state.dis.max_apps app gen) cookie).free_pos
      ≡ some idx
    → handle_msg k (register_socket skey pid cookie gen app) d ≡ go_on d'
    → d'.maps
      ≡ registered_maps d.maps skey state sk s cookie
          (to_wrk_gen state.dis.max_apps app gen)
          idx
          (cookies_find_empty d.sockhash state
            (to_wrk_gen state.dis.max_apps app gen)
            cookie).gen_len
unfolding handle_msg on_msg on_register_socket register_found
maps-handle_msg k skey pid cookie gen app idx state sk s d {d'} e alive found bound free h =
    let gen' = to_wrk_gen state.dis.max_apps app gen in
    let (d₁, h₂, h₁) =
      bind-go_on (find_slot k skey state sk s cookie gen' d) (check k.attach) {d' = d'}
        (no_trap _ _ (rw (e, alive, found, bound, handle_msg, on_register_socket) at h)) in
    ap (λ (x : DaemonState). x.maps) (sym (check-go_on k.attach d₁ h₂))
    ∙ maps-find_slot k skey state sk s cookie gen' idx d e free h₁
