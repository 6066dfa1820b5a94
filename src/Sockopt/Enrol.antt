-- ===== src/Sockopt/Enrol.antt =====
-- setsockopt(UDP_GRM_SOCKET_GEN), by which a process asks for a slot (ebpf/ebpf.c).
use udpgrm.Base.{
  ℕ, zero, suc, ◌≤◌, ◌<◌, ◌≡◌, refl, List, [], ◌∷◌, true, false, Option, some, pos, minus_one, eqℤ,
  ◌==◌, ◌||◌, not, length, take, u8_at, u32_at, arith, ap, if_cases, leb, ==-refl, ◌∙◌,
}
use udpgrm.Storage.{
  World, ReuseportStorage, SocketStorage, find_state, create_state, register_socket, submit,
  skey_from_bpf_sock,
}
use udpgrm.Storage.Helpers.{Kernel}
use udpgrm.Hook.{BpfSockopt, Outcome, accept, is_ours, unset, udp_grm_socket_gen}
use udpgrm.Sockopt.{
  copied_size, setsockopt, with_value, with_socket, with_state, on_option, on_socket_gen,
  put_socket,
}

-- A prefix holds the bytes of the whole.
u8_at-take : (n i : ℕ) (xs : List ℕ) → i < n → u8_at (take n xs) i ≡ u8_at xs i
u8_at-take zero i xs h = absurd (omega arith)
u8_at-take (suc n) i [] h = refl
u8_at-take (suc n) zero (x ∷ xs) h = refl
u8_at-take (suc n) (suc i) (x ∷ xs) h = u8_at-take n i xs (omega arith)

pub u32_at-take : (n : ℕ) (xs : List ℕ) → 4 ≤ n → u32_at (take n xs) 0 ≡ u32_at xs 0
u32_at-take n xs h = omega (
  arith,
  u8_at-take n 0 xs (omega arith),
  u8_at-take n 1 xs (omega arith),
  u8_at-take n 2 xs (omega arith),
  u8_at-take n 3 xs (omega arith),
)

-- Of four bytes or more at least four are copied.
pub some-copied_size : (n : ℕ) → 4 ≤ n → (size : ℕ) × (copied_size n ≡ some size) × (4 ≤ size)
unfolding copied_size
some-copied_size n h =
    let P : Option ℕ → Type 0 = λ o. (size : ℕ) × (o ≡ some size) × (4 ≤ size) in
    if_cases P (leb 632 n) _ _ (λ _. (632, refl, omega arith))
      (λ _.
        if_cases P (leb 376 n) _ _ (λ _. (376, refl, omega arith))
          (λ _.
            if_cases P (leb 116 n) _ _ (λ _. (116, refl, omega arith))
              (λ _.
                if_cases P (leb 28 n) _ _ (λ _. (28, refl, omega arith))
                  (λ _.
                    if_cases P (leb 16 n) _ _ (λ _. (16, refl, omega arith))
                      (λ _.
                        if_cases P (leb 12 n) _ _ (λ _. (12, refl, omega arith))
                          (λ _.
                            if_cases P (leb 8 n) _ _ (λ _. (8, refl, omega arith))
                              (λ _.
                                if_cases P (leb 4 n) _ _ (λ _. (4, refl, omega arith))
                                  (λ e. ground arith))))))))

module _ (k : Kernel) (w : World) (ctx : BpfSockopt) (state : ReuseportStorage)
    (s : SocketStorage) where
  reaches_socket_gen :
      (bytes : List ℕ)
      → ctx.optname ≡ udp_grm_socket_gen
      → w.sockets ctx.sk.id ≡ some s
      → find_state w ctx.sk ≡ some state
      → state.netns_cookie ≡ s.netns_cookie
      → with_socket k w ctx bytes (w.sockets ctx.sk.id) ≡ on_socket_gen k w ctx bytes s
  unfolding with_socket create_state with_state on_option
  reaches_socket_gen bytes name bound found netns =
      rw (bound, with_socket, found, create_state, netns, ==-refl s.netns_cookie, name) refl

  pub reaches_value :
      is_ours ctx ≡ true
      → eqℤ ctx.optlen minus_one ≡ false
      → ctx.retval ≡ pos 0
      → k.percpu_page ≡ true
      → setsockopt k w ctx ≡ with_value k w ctx (copied_size (length ctx.optval))
  unfolding setsockopt
  reaches_value ours first fine page = simp (ours, first, fine, page)

  -- The outcome of a registration.
  abbrev pub enrolled : ℕ → Outcome
  enrolled gen =
      accept
        (submit (register_socket (skey_from_bpf_sock ctx.sk) k.pid s.so_cookie gen s.sock_app)
          (put_socket w ctx.sk (record s { sock_gen = gen })))
        ctx

  on_socket_gen-new :
      (bytes : List ℕ)
      → (not (s.sock_gen == u32_at bytes 0) || s.sock_idx == unset) ≡ true
      → k.reserve ≡ true
      → on_socket_gen k w ctx bytes s ≡ enrolled (u32_at bytes 0)
  unfolding on_socket_gen
  on_socket_gen-new bytes new room = simp (new, room)

  -- Asked for a generation that is not the socket's, or of a socket without a slot, setsockopt stores
  -- the generation in the socket's storage and sends the daemon the registration of the socket with
  -- it: the call comes first among the hooks, the option value has at least the four bytes of the
  -- generation, the socket is bound and of the group's network namespace, and the ring has room.
  pub setsockopt-socket_gen :
      is_ours ctx ≡ true
      → ctx.optname ≡ udp_grm_socket_gen
      → eqℤ ctx.optlen minus_one ≡ false
      → ctx.retval ≡ pos 0
      → k.percpu_page ≡ true
      → k.reserve ≡ true
      → 4 ≤ length ctx.optval
      → w.sockets ctx.sk.id ≡ some s
      → find_state w ctx.sk ≡ some state
      → state.netns_cookie ≡ s.netns_cookie
      → (not (s.sock_gen == u32_at ctx.optval 0) || s.sock_idx == unset) ≡ true
      → setsockopt k w ctx ≡ enrolled (u32_at ctx.optval 0)
  unfolding setsockopt with_value
  setsockopt-socket_gen ours name first fine page room long bound found netns new =
      let (size, e, h) = some-copied_size (length ctx.optval) long in
      let same = u32_at-take size ctx.optval h in
      reaches_value ours first fine page
      ∙ ap (with_value k w ctx) e
      ∙ reaches_socket_gen (take size ctx.optval) name bound found netns
      ∙ on_socket_gen-new (take size ctx.optval) (rw same new) room
      ∙ ap enrolled same
