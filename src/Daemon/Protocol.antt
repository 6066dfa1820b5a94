-- ===== src/Daemon/Protocol.antt =====
-- The registration of a socket from the process to the packets: setsockopt and getsockopt of
-- UDP_GRM_SOCKET_GEN and udpgrm_reuseport_prog (ebpf/ebpf.c), with handle_msg (src/udpgrm.c) between.
use udpgrm.Base.{
  ℕ, ◌≤◌, ◌≡◌, refl, sym, ap, subst, ◌∙◌, true, false, some, pos, minus_one, eqℤ, ◌==◌, ◌||◌, not,
  length, u32_at, ==-refl, lookup, ◌++◌, ◌∷◌, [],
}
use udpgrm.Cookie.{to_wrk_gen}
use udpgrm.Storage.{
  World, ReuseportStorage, SocketStorage, Msg, register_socket, find_state, skey_from_bpf_sock,
  submit, sock_key,
}
use udpgrm.Storage.Helpers.{Kernel, Packet}
use udpgrm.Storage.Config.{type_of, type_cbpf}
use udpgrm.Storage.Identity.{SameGroup}
use udpgrm.Hook.{BpfSockopt, is_ours, unset, udp_grm_socket_gen}
use udpgrm.Sockopt.{setsockopt, put_socket}
use udpgrm.Sockopt.Enrol.{enrolled, setsockopt-socket_gen}
use udpgrm.Reuseport.{Bespoke, reuseport_prog}
use udpgrm.Daemon.{DaemonState, Answers, go_on, handle_msg, cookies_find_empty}
use udpgrm.Daemon.Reach.{Uses, register-Reachable}

-- A call setsockopt(UDP_GRM_SOCKET_GEN) that asks for a slot and is not turned away: no other hook
-- ran, the generation is there, the socket is bound, its group is there, of the same network
-- namespace and with the cBPF dissector and at most four apps, and the ring has room.
pub record Asks (k : Kernel) (w : World) (ctx : BpfSockopt) (state : ReuseportStorage)
    (s : SocketStorage) : Type 0 where
  pub ours : is_ours ctx ≡ true
  pub name : ctx.optname ≡ udp_grm_socket_gen
  pub first : eqℤ ctx.optlen minus_one ≡ false
  pub fine : ctx.retval ≡ pos 0
  pub page : k.percpu_page ≡ true
  pub room : k.reserve ≡ true
  pub size : 4 ≤ length ctx.optval
  pub bound : w.sockets ctx.sk.id ≡ some s
  pub found : find_state w ctx.sk ≡ some state
  pub netns : state.netns_cookie ≡ s.netns_cookie
  pub new : (not (s.sock_gen == u32_at ctx.optval 0) || s.sock_idx == unset) ≡ true
  pub apps : state.dis.max_apps ≤ 4
  pub cbpf : type_of state.dis.dissector_type ≡ type_cbpf

module _ (k : Kernel) (w : World) (ctx : BpfSockopt) (state : ReuseportStorage)
    (s : SocketStorage) where
  -- The message that the call sends.
  abbrev pub message : Msg
  message =
      register_socket (skey_from_bpf_sock ctx.sk) k.pid s.so_cookie (u32_at ctx.optval 0) s.sock_app

  -- The storage of the socket after the call.
  abbrev pub asked : SocketStorage
  asked = record s { sock_gen = u32_at ctx.optval 0 }

  module _ (q : Asks k w ctx state s) where
    setsockopt-enrolled : setsockopt k w ctx ≡ enrolled k w ctx state s (u32_at ctx.optval 0)
    setsockopt-enrolled =
        setsockopt-socket_gen k w ctx state s q.ours q.name q.first q.fine q.page q.room q.size
          q.bound q.found q.netns q.new

    ring-setsockopt : (setsockopt k w ctx).world.ring ≡ w.ring ++ message ∷ []
    unfolding submit put_socket
    ring-setsockopt = ap (λ r. r.world.ring) setsockopt-enrolled

    sockets-setsockopt : (setsockopt k w ctx).world.sockets ctx.sk.id ≡ some asked
    unfolding submit put_socket
    sockets-setsockopt =
        ap (λ r. r.world.sockets ctx.sk.id) setsockopt-enrolled ∙ rw (==-refl ctx.sk.id) refl

    groups-setsockopt : (setsockopt k w ctx).world.groups ≡ w.groups
    unfolding submit put_socket
    groups-setsockopt = ap (λ r. r.world.groups) setsockopt-enrolled

-- When setsockopt(UDP_GRM_SOCKET_GEN) has asked for a slot and was not turned away, in a cBPF group
-- with at most four apps, the call sends the message of the registration; and when handle_msg takes
-- this message on the maps that the call left and finds a free slot, then a packet that carries the
-- cookie which getsockopt(UDP_GRM_SOCKET_GEN) reports for the socket afterwards is sent to the
-- socket, if the kernel can select it and as long as the table of the group is as handle_msg left it.
pub enrol-Reachable :
    (bespoke : Bespoke) (a : Answers) (k k₁ k₂ : Kernel) (w w' : World) (d d' : DaemonState)
    (ctx ctx' : BpfSockopt) (md : Packet) (state state' state'' : ReuseportStorage)
    (s : SocketStorage) (idx : ℕ)
    → Asks k w ctx state s
    → d.maps ≡ (setsockopt k w ctx).world
    → a.pidfd ≡ true
    → a.socket ≡ some ctx'.sk
    → (cookies_find_empty d.sockhash state
        (to_wrk_gen state.dis.max_apps s.sock_app (u32_at ctx.optval 0))
        s.so_cookie).free_pos
      ≡ some idx
    → handle_msg a (message k w ctx state s) d ≡ go_on d'
    → ctx'.sk ≡ ctx.sk
    → find_state d'.maps ctx'.sk ≡ some state'
    → Uses k₁ d'.maps ctx' bespoke md state''
    → find_state w' md.sk ≡ some state''
    → SameGroup state' state''
    → k₂.select_reuseport s.so_cookie ≡ pos 0
    → ((setsockopt k w ctx).world.ring ≡ w.ring ++ message k w ctx state s ∷ [])
      × ((reuseport_prog bespoke k₂ w' md).1 ≡ some s.so_cookie)
unfolding find_state
enrol-Reachable bespoke a k k₁ k₂ w w' d d' ctx ctx' md state state' state'' s idx q maps alive sk
      free h same found' u found fresh sel =
    let there : lookup (skey_from_bpf_sock ctx'.sk) d.maps.groups ≡ some state =
      ap (λ (x : World). lookup (skey_from_bpf_sock ctx'.sk) x.groups) maps
      ∙ ap (λ g. lookup (skey_from_bpf_sock ctx'.sk) g) (groups-setsockopt k w ctx state s q)
      ∙ ap (λ x. lookup (skey_from_bpf_sock x) w.groups) same
      ∙ q.found in
    let bound : d.maps.sockets ctx'.sk.id ≡ some (asked k w ctx state s) =
      ap (λ (x : World). x.sockets ctx'.sk.id) maps
      ∙ ap (λ x. (setsockopt k w ctx).world.sockets x.id) same
      ∙ sockets-setsockopt k w ctx state s q in
    (
      ring-setsockopt k w ctx state s q,
      register-Reachable bespoke a k₁ k₂ d d' w' ctx' md state state' state''
          (asked k w ctx state s) k.pid s.so_cookie idx there q.apps q.cbpf alive sk bound free
          (subst
            (λ x.
              handle_msg a
                (register_socket (skey_from_bpf_sock x) k.pid s.so_cookie (u32_at ctx.optval 0)
                  s.sock_app)
                d
              ≡ go_on d')
            (sym same) h)
          found' u found fresh sel,
    )
