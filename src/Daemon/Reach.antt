-- ===== src/Daemon/Reach.antt =====
-- A registered socket can be reached: the cookie that getsockopt reports for it leads
-- udpgrm_reuseport_prog to it (src/udpgrm.c and ebpf/ebpf.c together).
use mathlib.Core.Option.{some-injective}
use udpgrm.Base.{
  ℕ, ◌%◌, ◌≤◌, ◌≡◌, refl, ap, sym, subst, ◌∙◌, true, Option, none, some, ◌++◌, pos, neg, lookup,
  lookup-insert_self, arith, length, u16_at, le32,
}
use udpgrm.Cookie.{to_wrk_gen, grm_cookie_unpack, grm_cookie_pack}
use udpgrm.Cookie.Roundtrip.{cookie_of, cookie_of_sum, unpack-pack, grm_cookie_cs-lt}
use udpgrm.Storage.{
  World, SockKey, ReuseportStorage, SocketStorage, register_socket, sock_key, find_state,
  skey_from_bpf_sock,
}
use udpgrm.Storage.Helpers.{BpfSock, Kernel, Packet}
use udpgrm.Storage.Config.{type_of, type_cbpf}
use udpgrm.Storage.Identity.{SameGroup}
use udpgrm.Callback.{put_cookie}
use udpgrm.Interp.{ierr_ok}
use udpgrm.Hook.{BpfSockopt, enoprotoopt, udp_grm_socket_gen, is_ours}
use udpgrm.Sockopt.{put_socket}
use udpgrm.Sockopt.Get.{
  getsockopt, answer, get_socket_gen, copy_out, answered_size, with_size, with_answer, reply,
}
use udpgrm.Reuseport.{
  Bespoke, run_cbpf, dissector_cbpf, parse, cookie_slot, by_cookie, dispatch, receive,
  reuseport_prog, cookie_found,
}
use udpgrm.Daemon.{cookies_find_empty, DaemonState, Answers, go_on, handle_msg}
use udpgrm.Daemon.Register.{maps-handle_msg, registered_maps}

-- A slot that was written is found under its packed cookie.
cookie_slot-put_cookie :
    (gen idx len cookie : ℕ) (state : ReuseportStorage)
    → cookie_slot (put_cookie gen idx len cookie state) (grm_cookie_unpack (cookie_of gen idx))
      ≡ cookie
unfolding cookie_slot put_cookie
cookie_slot-put_cookie gen idx len cookie state = rw (unpack-pack gen idx) (ground arith)

cookie_slot-SameGroup :
    {a b : ReuseportStorage} (c : Option (ℕ × ℕ))
    → SameGroup a b
    → cookie_slot b c ≡ cookie_slot a c
unfolding cookie_slot
cookie_slot-SameGroup none h = refl
cookie_slot-SameGroup (some (gen, idx)) h = rw h.cookies refl

pub cookie_of-lt : (gen idx : ℕ) → cookie_of gen idx ≤ 0xffff
cookie_of-lt gen idx = omega (
  arith,
  cookie_of_sum gen idx,
  grm_cookie_cs-lt (gen % 32) (idx % 256) (omega arith) (omega arith),
)

-- A cookie from the dissector, for a group with at most four apps.
pub dissector_cbpf-cookie :
    (bespoke : Bespoke) (md : Packet) (state : ReuseportStorage) (c : ℕ)
    → state.dis.max_apps ≤ 4
    → c ≤ 0xffff
    → run_cbpf bespoke md state ≡ (ierr_ok, c)
    → dissector_cbpf bespoke md state ≡ cookie_found c
unfolding dissector_cbpf
dissector_cbpf-cookie bespoke md state c apps hc e = rw (e, dissector_cbpf) (ground arith)

-- With a cookie dissector that returns a udpgrm cookie, the packet goes to the socket in the slot,
-- if the kernel can select it.
pub receive-cookie :
    (bespoke : Bespoke) (k : Kernel) (md : Packet) (state : ReuseportStorage) (c : ℕ)
    → state.dis.max_apps ≤ 4
    → c ≤ 0xffff
    → type_of state.dis.dissector_type ≡ type_cbpf
    → run_cbpf bespoke md state ≡ (ierr_ok, c)
    → k.select_reuseport (cookie_slot state (grm_cookie_unpack c)) ≡ pos 0
    → (flows : ℕ → _)
    → (receive bespoke k md flows state).selected ≡ some (cookie_slot state (grm_cookie_unpack c))
unfolding receive parse dispatch by_cookie
receive-cookie bespoke k md state c apps hc t e sel flows =
    rw (t, dissector_cbpf-cookie bespoke md state c apps hc e, sel) refl

module _ (k : Kernel) (w : World) (ctx : BpfSockopt) where
  answer-socket_gen :
      (state : ReuseportStorage) (s : SocketStorage)
      → ctx.optname ≡ udp_grm_socket_gen
      → find_state w ctx.sk ≡ some state
      → w.sockets ctx.sk.id ≡ some s
      → answer w ctx
        ≡ reply (
            le32 s.sock_gen
            ++ le32 s.sock_idx
            ++ grm_cookie_pack (to_wrk_gen state.dis.max_apps s.sock_app s.sock_gen) s.sock_idx)
  unfolding answer get_socket_gen
  answer-socket_gen state s name found bound = rw (name, found, bound, answer) refl

  -- What getsockopt(UDP_GRM_SOCKET_GEN) reports.
  getsockopt-socket_gen :
      (state : ReuseportStorage) (s : SocketStorage)
      → ctx.optname ≡ udp_grm_socket_gen
      → is_ours ctx ≡ true
      → ctx.retval ≡ neg enoprotoopt
      → k.percpu_page ≡ true
      → length ctx.optval ≡ 12
      → find_state w ctx.sk ≡ some state
      → w.sockets ctx.sk.id ≡ some s
      → u16_at (getsockopt k w ctx).optval 8
        ≡ cookie_of (to_wrk_gen state.dis.max_apps s.sock_app s.sock_gen) s.sock_idx
  unfolding getsockopt with_answer with_size copy_out answered_size grm_cookie_pack
  getsockopt-socket_gen state s name ours ret page len found bound =
      rw (ours, ret, page, answer-socket_gen state s name found bound, len, getsockopt) refl

-- The socket option and the packet with which a process and its clients use a registration: `ctx`
-- reads UDP_GRM_SOCKET_GEN (12 bytes) of the socket, and the dissector returns for `md` the cookie
-- that this option holds.
pub record Uses (k : Kernel) (w : World) (ctx : BpfSockopt) (bespoke : Bespoke) (md : Packet)
    (state' : ReuseportStorage) : Type 0 where
  pub name : ctx.optname ≡ udp_grm_socket_gen
  pub ours : is_ours ctx ≡ true
  pub retval : ctx.retval ≡ neg enoprotoopt
  pub page : k.percpu_page ≡ true
  pub size : length ctx.optval ≡ 12
  pub cookie : run_cbpf bespoke md state' ≡ (ierr_ok, u16_at (getsockopt k w ctx).optval 8)

module _ (w : World) (skey : SockKey) (state : ReuseportStorage) (sk : BpfSock) (s : SocketStorage)
    (cookie gen idx len : ℕ) where
  find_state-registered :
      (sk' : BpfSock)
      → skey_from_bpf_sock sk' ≡ skey
      → find_state (registered_maps w skey state sk s cookie gen idx len) sk'
        ≡ some (put_cookie gen idx len cookie state)
  unfolding find_state put_socket
  find_state-registered sk' e = rw e (lookup-insert_self skey _ w.groups)

  sockets-registered :
      (registered_maps w skey state sk s cookie gen idx len).sockets sk.id
      ≡ some (record s { sock_idx = idx })
  unfolding put_socket
  sockets-registered = ground arith

module _ (bespoke : Bespoke) (k k' : Kernel) (w' : World) (ctx : BpfSockopt) (md : Packet)
    (state state' : ReuseportStorage) (s : SocketStorage) where
  -- The registered maps lead to the socket.
  reach :
      (w : World) (cookie idx len : ℕ)
      → let gen = to_wrk_gen state.dis.max_apps s.sock_app s.sock_gen in
        let reg = registered_maps w (skey_from_bpf_sock ctx.sk) state ctx.sk s cookie gen idx len in
        state.dis.max_apps ≤ 4
        → type_of state.dis.dissector_type ≡ type_cbpf
        → Uses k reg ctx bespoke md state'
        → find_state w' md.sk ≡ some state'
        → SameGroup (put_cookie gen idx len cookie state) state'
        → k'.select_reuseport cookie ≡ pos 0
        → (reuseport_prog bespoke k' w' md).1 ≡ some cookie
  unfolding reuseport_prog put_cookie
  reach w cookie idx len apps type u found same sel =
      let gen = to_wrk_gen state.dis.max_apps s.sock_app s.sock_gen in
      let c = cookie_of gen idx in
      let reg = registered_maps w (skey_from_bpf_sock ctx.sk) state ctx.sk s cookie gen idx len in
      let read : u16_at (getsockopt k reg ctx).optval 8 ≡ c =
        getsockopt-socket_gen k reg ctx (put_cookie gen idx len cookie state)
          (record s { sock_idx = idx }) u.name u.ours u.retval u.page u.size
          (find_state-registered w _ state ctx.sk s cookie gen idx len ctx.sk refl)
          (sockets-registered w (skey_from_bpf_sock ctx.sk) state ctx.sk s cookie gen idx len) in
      let slot : cookie_slot state' (grm_cookie_unpack c) ≡ cookie =
        cookie_slot-SameGroup (grm_cookie_unpack c) same
        ∙ cookie_slot-put_cookie gen idx len cookie state in
      let r =
        receive-cookie bespoke k' md state' c (rw same.dis apps) (cookie_of-lt gen idx)
          (rw same.dis type) (u.cookie ∙ ap (λ x. (ierr_ok, x)) read) (rw slot sel) w'.flows in
      rw (found, reuseport_prog) (r ∙ ap some slot)

-- When handle_msg has taken a socket's registration and had a free slot for it, the cookie that
-- getsockopt(UDP_GRM_SOCKET_GEN) reports for the socket leads to it: a packet of the group for which
-- the cBPF dissector returns this cookie is sent to the registered socket cookie, if the kernel can
-- select it and as long as the table of the group is as handle_msg left it. The group has at most
-- four apps, and the message carries the generation and the app of the socket.
pub register-Reachable :
    (bespoke : Bespoke) (a : Answers) (k k' : Kernel) (d d' : DaemonState) (w' : World)
    (ctx : BpfSockopt) (md : Packet) (state state' state'' : ReuseportStorage) (s : SocketStorage)
    (pid cookie idx : ℕ)
    → lookup (skey_from_bpf_sock ctx.sk) d.maps.groups ≡ some state
    → state.dis.max_apps ≤ 4
    → type_of state.dis.dissector_type ≡ type_cbpf
    → a.pidfd ≡ true
    → a.socket ≡ some ctx.sk
    → d.maps.sockets ctx.sk.id ≡ some s
    → (cookies_find_empty d.sockhash state
        (to_wrk_gen state.dis.max_apps s.sock_app s.sock_gen)
        cookie).free_pos
      ≡ some idx
    → handle_msg a (register_socket (skey_from_bpf_sock ctx.sk) pid cookie s.sock_gen s.sock_app) d
      ≡ go_on d'
    → find_state d'.maps ctx.sk ≡ some state'
    → Uses k d'.maps ctx bespoke md state''
    → find_state w' md.sk ≡ some state''
    → SameGroup state' state''
    → k'.select_reuseport cookie ≡ pos 0
    → (reuseport_prog bespoke k' w' md).1 ≡ some cookie
register-Reachable bespoke a k k' d d' w' ctx md state state' state'' s pid cookie idx e apps type
      alive sk bound free h found' u found same sel =
    let gen = to_wrk_gen state.dis.max_apps s.sock_app s.sock_gen in
    let len = (cookies_find_empty d.sockhash state gen cookie).gen_len in
    let skey = skey_from_bpf_sock ctx.sk in
    let m : d'.maps ≡ registered_maps d.maps skey state ctx.sk s cookie gen idx len =
      maps-handle_msg a skey pid cookie s.sock_gen s.sock_app idx state ctx.sk s d e alive sk bound
        free h in
    let put = find_state-registered d.maps skey state ctx.sk s cookie gen idx len ctx.sk refl in
    let here : put_cookie gen idx len cookie state ≡ state' =
      some-injective _ _ (sym put ∙ ap (λ w. find_state w ctx.sk) (sym m) ∙ found') in
    reach bespoke k k' w' ctx md state state'' s d.maps cookie idx len apps type
      (subst (λ w. Uses k w ctx bespoke md state'') m u) found
      (subst (λ x. SameGroup x state'') (sym here) same) sel
