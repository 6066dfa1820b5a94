-- ===== src/Sockopt/Stored.antt =====
-- The dissector of a group after a setsockopt that accepts one (ebpf/ebpf.c).
use udpgrm.Base.{
  ℕ, ◌≡◌, refl, ℤ, Bool, List, true, false, not, ◌||◌, Option, none, some, pos, minus_one, eqℤ,
  ◌==◌, ==_iff, ==-refl, Bool-cases, inl, inr, length, take, if_cases, lookup-insert_self,
  bytes_eq_refl, arith, ap, sym, ◌∙◌,
}
use udpgrm.Storage.{
  Msg, World, ReuseportStorage, SocketStorage, find_state, put_state, create_state, submit,
  skey_from_bpf_sock, sock_key,
}
use udpgrm.Storage.Helpers.{Kernel, BpfSock}
use udpgrm.Storage.Config.{
  Dissector, dissector_at, dissector_same, type_of, type_flow, type_cbpf, type_bespoke, type_noop,
}
use udpgrm.Hook.{BpfSockopt, Outcome, deny, is_ours, ebadf, eperm, eagain, udp_grm_dissector}
use udpgrm.Sockopt.{
  dissector_fails, on_dissector_again, on_dissector_created, on_dissector, on_option, init_state,
  with_state, with_socket, with_value, copied_size, setsockopt,
}

-- A type that passed the checks has no flags left to take off.
type_of_twice :
    (d : Dissector)
    → dissector_fails d ≡ false
    → type_of (type_of d.dissector_type) ≡ type_of d.dissector_type
unfolding dissector_fails type_of
type_of_twice d h =
    let kind = type_of d.dissector_type in
    elim (Bool-cases (kind == type_flow)) [
      | inl e ↦ known e refl
      | inr f ↦ elim (Bool-cases (kind == type_noop)) [
        | inl e ↦ known e refl
        | inr n ↦ elim (Bool-cases (kind == type_cbpf)) [
          | inl e ↦ known e refl
          | inr c ↦ elim (Bool-cases (kind == type_bespoke)) [
            | inl e ↦ known e refl
            | inr b ↦ ground arith
          ]
        ]
      ]
    ]
  where
    known :
        {t : ℕ}
        → (type_of d.dissector_type == t) ≡ true
        → type_of t ≡ t
        → type_of (type_of d.dissector_type) ≡ type_of d.dissector_type
    known {t} e fixed =
        let same = (==_iff (type_of d.dissector_type) t).0 e in ap type_of same ∙ fixed ∙ sym same

dissector_same-stored :
    (d : Dissector)
    → dissector_fails d ≡ false
    → dissector_same (record d { dissector_type = type_of d.dissector_type }) d ≡ true
unfolding dissector_same
dissector_same-stored d h =
    rw
      (
        type_of_twice d h,
        ==-refl (type_of d.dissector_type),
        ==-refl d.flow_entry_timeout_sec,
        ==-refl d.max_apps,
        ==-refl d.bespoke_digest,
        bytes_eq_refl d.label,
        ==-refl d.filter_len,
        bytes_eq_refl d.body,
      )
      refl

-- The group of a socket has the dissector that was set, up to the flags in its type.
abbrev pub HasDissector : List ℕ → World → BpfSock → Type 0
HasDissector bytes w sk =
    (state : ReuseportStorage) × (find_state w sk ≡ some state)
    × (dissector_same state.dis (dissector_at bytes) ≡ true)

find_state-put_state :
    (w : World) (sk : BpfSock) (state : ReuseportStorage)
    → find_state (put_state w sk state) sk ≡ some state
unfolding find_state put_state
find_state-put_state w sk state = lookup-insert_self (skey_from_bpf_sock sk) state w.groups

find_state-submit :
    (event : Msg) (w : World) (sk : BpfSock) → find_state (submit event w) sk ≡ find_state w sk
unfolding find_state submit
find_state-submit event w sk = refl

kept_optlen {ℓ} : {P : Type ℓ} (o : ℤ) → eqℤ o minus_one ≡ false → o ≡ minus_one → P
kept_optlen o h e = ground (arith, sym h ∙ ap (λ x. eqℤ x minus_one) e)

module _ (k : Kernel) (ctx : BpfSockopt) (bytes : List ℕ)
    (first : eqℤ ctx.optlen minus_one ≡ false) where
  -- An outcome that accepts the option has the dissector.
  abbrev Accepted : Outcome → Type 0
  Accepted out = out.optlen ≡ minus_one → HasDissector bytes out.world ctx.sk

  deny-Accepted : (w : World) (err : ℕ) → Accepted (deny w ctx err)
  deny-Accepted w err e = kept_optlen ctx.optlen first e

  on_dissector_again-Accepted :
      (w : World) (state : ReuseportStorage)
      → Accepted (on_dissector_again k w ctx bytes (dissector_at bytes) state)
  unfolding on_dissector_again
  on_dissector_again-Accepted w state =
      if_cases Accepted (dissector_same state.dis (dissector_at bytes)) _ _
        (λ same _. (_, find_state-put_state w ctx.sk _, same)) (λ _. deny-Accepted w eperm)

  on_dissector_created-Accepted :
      (w : World) (state : ReuseportStorage)
      → Accepted (on_dissector_created k w ctx bytes (dissector_at bytes) state)
  unfolding on_dissector_created
  on_dissector_created-Accepted w state =
      if_cases Accepted (dissector_fails (dissector_at bytes)) _ _ (λ _. deny-Accepted _ eperm)
        (λ fine.
          if_cases Accepted k.reserve _ _
            (λ _ _. (
              _,
              find_state-submit _ _ ctx.sk ∙ find_state-put_state w ctx.sk _,
              dissector_same-stored (dissector_at bytes) fine,
            ))
            (λ _. deny-Accepted w eagain))

  with_state-Accepted :
      (s : SocketStorage) (found : World × Option ReuseportStorage × Bool)
      → ctx.optname ≡ udp_grm_dissector
      → Accepted (with_state k ctx bytes s found)
  unfolding with_state on_option on_dissector
  with_state-Accepted s (w, none, created) name = deny-Accepted w ebadf
  with_state-Accepted s (w, some state, true) name = rw name (
      on_dissector_created-Accepted (put_state w ctx.sk (init_state k s state))
        (init_state k s state))
  with_state-Accepted s (w, some state, false) name =
      if_cases Accepted (state.netns_cookie == s.netns_cookie) _ _
        (λ _. rw name (on_dissector_again-Accepted w state)) (λ _. deny-Accepted w ebadf)

  with_socket-Accepted :
      (w : World) (bound : Option SocketStorage)
      → ctx.optname ≡ udp_grm_dissector
      → Accepted (with_socket k w ctx bytes bound)
  unfolding with_socket
  with_socket-Accepted w none name = deny-Accepted w ebadf
  with_socket-Accepted w (some s) name = with_state-Accepted s (create_state k w ctx.sk) name

module _ (k : Kernel) (w : World) (ctx : BpfSockopt)
    (first : eqℤ ctx.optlen minus_one ≡ false) where
  -- The option value was copied, and the group has its dissector.
  abbrev pub Stored : Outcome → Type 0
  Stored out =
      (size : ℕ) × (copied_size (length ctx.optval) ≡ some size)
      × HasDissector (take size ctx.optval) out.world ctx.sk

  with_value-Stored :
      (size : Option ℕ)
      → copied_size (length ctx.optval) ≡ size
      → ctx.optname ≡ udp_grm_dissector
      → (with_value k w ctx size).optlen ≡ minus_one
      → Stored (with_value k w ctx size)
  unfolding with_value
  with_value-Stored none e name accepted = kept_optlen ctx.optlen first accepted
  with_value-Stored (some size) e name accepted = (
    size,
    e,
    with_socket-Accepted k ctx (take size ctx.optval) first w (w.sockets ctx.sk.id) name accepted,
  )

  pub setsockopt-Stored :
      is_ours ctx ≡ true
      → ctx.optname ≡ udp_grm_dissector
      → (setsockopt k w ctx).optlen ≡ minus_one
      → Stored (setsockopt k w ctx)
  unfolding setsockopt
  setsockopt-Stored ours name =
      if_cases (λ out. out.optlen ≡ minus_one → Stored out) (is_ours ctx) _ _
        (λ _.
          if_cases (λ out. out.optlen ≡ minus_one → Stored out)
            (eqℤ ctx.optlen minus_one || not (eqℤ ctx.retval (pos 0))) _ _
            (λ _ e. kept_optlen ctx.optlen first e)
            (λ _.
              if_cases (λ out. out.optlen ≡ minus_one → Stored out) k.percpu_page _ _
                (λ _. with_value-Stored (copied_size (length ctx.optval)) refl name)
                (λ _ e. kept_optlen ctx.optlen first e)))
        (λ other _. ground (arith, sym ours ∙ other))
