-- ===== src/Sockopt/Cases.antt =====
-- Case analysis over the branches of the cgroup/setsockopt hook (ebpf/ebpf.c).
use udpgrm.Base.{
  ℕ, ℤ, List, refl, ◌≡◌, Bool, Option, none, some, if_cases, ◌==◌, ◌||◌, not, eqℤ, pos, minus_one,
  length, take,
}
use udpgrm.Storage.{World, ReuseportStorage, SocketStorage, create_state}
use udpgrm.Storage.Helpers.{Kernel}
use udpgrm.Hook.{
  IsErrno, is_enobufs, is_ebadf, is_efault, BpfSockopt, Outcome, deny, leave, is_ours, eperm, ebadf,
  efault, enobufs, udp_grm_working_gen, udp_grm_socket_gen, udp_grm_dissector, udp_grm_flow_assure,
  udp_grm_socket_app,
}
use udpgrm.Sockopt.{
  on_working_gen, on_socket_gen, on_dissector, on_flow_assure, on_socket_app, on_option,
  copied_size, with_value, with_socket, with_state, setsockopt,
}

module _ {ℓ} (Q : Outcome → Type ℓ) (k : Kernel) (w : World) (ctx : BpfSockopt) where
  pub on_option_cases :
      (bytes : List ℕ) (s : SocketStorage) (state : ReuseportStorage) (created : Bool)
      → Q (on_working_gen k w ctx bytes s state)
      → Q (on_socket_gen k w ctx bytes s)
      → Q (on_dissector k w ctx bytes state created)
      → Q (on_flow_assure k w ctx bytes s state)
      → Q (on_socket_app k w ctx bytes s state)
      → Q (deny w ctx eperm)
      → Q (on_option k w ctx bytes s state created)
  unfolding on_option
  on_option_cases bytes s state created q₁ q₂ q₃ q₄ q₅ q₆ =
      if_cases Q (ctx.optname == udp_grm_working_gen) _ _ (λ _. q₁)
        (λ _.
          if_cases Q (ctx.optname == udp_grm_socket_gen) _ _ (λ _. q₂)
            (λ _.
              if_cases Q (ctx.optname == udp_grm_dissector) _ _ (λ _. q₃)
                (λ _.
                  if_cases Q (ctx.optname == udp_grm_flow_assure) _ _ (λ _. q₄)
                    (λ _. if_cases Q (ctx.optname == udp_grm_socket_app) _ _ (λ _. q₅) (λ _. q₆)))))

  -- The hook either returns before it looks for the group, or runs `with_socket`.
  pub setsockopt_cases :
      ((optlen : ℤ) → Q (leave w ctx optlen))
      → ((err : ℕ) → IsErrno err → Q (deny w ctx err))
      → ((bytes : List ℕ) (s : SocketStorage)
          → w.sockets ctx.sk.id ≡ some s
          → Q (with_state k ctx bytes s (create_state k w ctx.sk)))
      → Q (setsockopt k w ctx)
  unfolding setsockopt
  setsockopt_cases q₁ q₂ q₃ =
      if_cases Q (is_ours ctx) _ _
        (λ _.
          if_cases Q (eqℤ ctx.optlen minus_one || not (eqℤ ctx.retval (pos 0))) _ _ (λ _. q₁ _)
            (λ _.
              if_cases Q k.percpu_page _ _ (λ _. value (copied_size (length ctx.optval)))
                (λ _. q₂ enobufs is_enobufs)))
        (λ _. q₁ _)
    where
      socket :
          (bytes : List ℕ) (o : Option SocketStorage)
          → w.sockets ctx.sk.id ≡ o
          → Q (with_socket k w ctx bytes o)
      socket bytes none e = q₂ ebadf is_ebadf
      socket bytes (some s) e = q₃ bytes s e

      value : (o : Option ℕ) → Q (with_value k w ctx o)
      value none = q₂ efault is_efault
      value (some size) = socket (take size ctx.optval) (w.sockets ctx.sk.id) refl
