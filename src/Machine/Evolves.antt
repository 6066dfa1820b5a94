-- ===== src/Machine/Evolves.antt =====
-- What each step of the system does to the groups (ebpf/ebpf.c).
use udpgrm.Base.{
  ℕ, ◌≡◌, refl, sym, ap, ◌∙◌, subst, not, ◌&&◌, Option, none, some, ltb, ◌==◌, inl, inr, if_cases,
  Bool-cases, Option-cases, lookup, insert, lookup-insert,
}
use udpgrm.Storage.{
  World, ReuseportStorage, SocketStorage, SockKey, Msg, set_cookies, set_socket_critical_gauge,
  incr_socket_critical, register_socket, set_working_gen, set_dissector, find_state, put_state,
  skey_from_bpf_sock, sock_key, sock_key_eqb, sock_key_eqb_iff,
}
use udpgrm.Storage.Counters.{socket_critical_gauge, socket_critical}
use udpgrm.Storage.Config.{type_of, type_flow}
use udpgrm.Storage.Helpers.{Kernel, Packet, af_inet, af_inet6, ipproto_udp}
use udpgrm.Storage.Identity.{
  SameGroup, Keeps, AllGroups, SameGroup-refl, metric_inc-SameGroup, SameGroup-trans,
}
use udpgrm.Hook.{BpfSockopt}
use udpgrm.Siphash.{count_ip_flow_hash}
use udpgrm.Flow.{BpfSockAddr, udp_sendmsg, sendmsg_assure, sendmsg_flow, flow_assure}
use udpgrm.Flow.Assure.{flow_assure-SameGroup}
use udpgrm.Sockopt.{setsockopt}
use udpgrm.Sockopt.Preserve.{IsChecked}
use udpgrm.Sockopt.Groups.{setsockopt-Keeps, setsockopt-HasChecked}
use udpgrm.Bind.{BindHelpers, bpf_bind, bind_storage, storage_or_new, wants_reuseport}
use udpgrm.Reuseport.{Bespoke, receive, reuseport_prog}
use udpgrm.Callback.{cb_update_map, write_msg, apply_msg, skey_of, put_cookie, metric_add}
use udpgrm.Machine.Walks.{receive_closed}
use udpgrm.Machine.Counts.{
  Counted, metrics-Counted, flow_assure-Counted, receive-Counted, metric_add_gauge-Counted,
  metric_add_critical-Counted,
}
use udpgrm.Machine.Options.{setsockopt-Counted}

-- What a group is never to change.
pub record SameIdentity (a b : ReuseportStorage) : Type 0 where
  pub dis : b.dis ≡ a.dis
  pub random_id : b.random_id ≡ a.random_id
  pub netns_cookie : b.netns_cookie ≡ a.netns_cookie

pub SameIdentity-refl : (a : ReuseportStorage) → SameIdentity a a
SameIdentity-refl a = record { dis = refl; random_id = refl; netns_cookie = refl }

pub SameIdentity-trans :
    (a b c : ReuseportStorage) → SameIdentity a b → SameIdentity b c → SameIdentity a c
SameIdentity-trans a b c p q = record {
  dis = q.dis ∙ p.dis;
  random_id = q.random_id ∙ p.random_id;
  netns_cookie = q.netns_cookie ∙ p.netns_cookie;
}

SameGroup-SameIdentity : (a b : ReuseportStorage) → SameGroup a b → SameIdentity a b
SameGroup-SameIdentity a b h = record {
  dis = h.dis;
  random_id = h.random_id;
  netns_cookie = h.netns_cookie;
}

-- A group is in order: its dissector was checked, and its counters account for all packets.
pub record InOrder (s : ReuseportStorage) : Type 0 where
  pub checked : IsChecked s.dis
  pub counted : Counted s

-- What a step does to the groups.
pub record Evolves (w w' : World) : Type 0 where
  pub keeps : Keeps SameIdentity w w'
  pub orders : AllGroups InOrder w → AllGroups InOrder w'

pub Evolves-same : (w w' : World) → w'.groups ≡ w.groups → Evolves w w'
Evolves-same w w' e = record {
  keeps = record { at = λ j a h. (a, rw e h, SameIdentity-refl a) };
  orders = λ all. record { at = λ j a h. all.at j a (rw e at h) };
}

-- A write to a group that is there.
Evolves-write :
    (w w' : World) (key : SockKey) (state st : ReuseportStorage)
    → lookup key w.groups ≡ some state
    → w'.groups ≡ insert key st w.groups
    → SameIdentity state st
    → (Counted state → Counted st)
    → Evolves w w'
Evolves-write w w' key state st found e same count = record {
  keeps = record { at = kept };
  orders = λ all. record { at = ordered all };
}
  where
    kept :
        (j : SockKey) (a : ReuseportStorage)
        → lookup j w.groups ≡ some a
        → (b : ReuseportStorage) × (lookup j w'.groups ≡ some b) × SameIdentity a b
    kept j a h = elim (Bool-cases (sock_key_eqb key j)) [
      | inl eq ↦
          let p : key ≡ j = (sock_key_eqb_iff _ j).0 eq in
          let q : state ≡ a = cc (found, ap (λ (x : SockKey). lookup x w.groups) p) in
          (st, rw (e, lookup-insert, eq), subst (λ x. SameIdentity x st) q same)
      | inr ne ↦ (a, rw (e, lookup-insert, ne) h, SameIdentity-refl a)
    ]

    ordered :
        AllGroups InOrder w
        → (j : SockKey) (a : ReuseportStorage) → lookup j w'.groups ≡ some a
        → InOrder a
    ordered all j a h = elim (Bool-cases (sock_key_eqb key j)) [
      | inl eq ↦
          let q : st ≡ a = cc (rw (e, lookup-insert, eq) at h) in
          let before = all.at key state found in
          subst InOrder q (record {
            checked = subst IsChecked (sym same.dis) before.checked;
            counted = count before.counted;
          })
      | inr ne ↦ all.at j a (rw (e, lookup-insert, ne) at h)
    ]

pub Evolves-option :
    (k : Kernel) (w : World) (ctx : BpfSockopt) → Evolves w (setsockopt k w ctx).world
Evolves-option k w ctx = record {
  keeps = record {
    at = λ j a h.
        let (b, found, same) = (setsockopt-Keeps k w ctx).at j a h in
        (b, found, SameGroup-SameIdentity a b same);
  };
  orders = λ all.
      let checked =
        setsockopt-HasChecked k w ctx (record { at = λ j a h. (all.at j a h).checked }) in
      let counted = setsockopt-Counted k w ctx (record { at = λ j a h. (all.at j a h).counted }) in
      record { at = λ j a h. record { checked = checked.at j a h; counted = counted.at j a h } };
}

Evolves-assure :
    (k : Kernel) (w : World) (ctx : BpfSockAddr) (family : ℕ) (state : ReuseportStorage)
    (s : SocketStorage)
    → find_state w ctx.sk ≡ some state
    → Evolves w (sendmsg_assure k w ctx family state s)
unfolding sendmsg_assure put_state find_state
Evolves-assure k w ctx family state s found =
    let hash = count_ip_flow_hash (sendmsg_flow ctx family state.random_id) in
    let r = flow_assure k state s hash w.flows in
    Evolves-write w _ (skey_from_bpf_sock ctx.sk) state r.state found refl
      (SameGroup-SameIdentity state r.state (flow_assure-SameGroup k state s hash w.flows))
      (flow_assure-Counted k state s hash w.flows)

pub Evolves-send :
    (k : Kernel) (w : World) (ctx : BpfSockAddr) (family : ℕ)
    → Evolves w (udp_sendmsg k w ctx family)
unfolding udp_sendmsg
Evolves-send k w ctx family = elim (Option-cases (find_state w ctx.sk)) [
  | inl e ↦ rw (e, udp_sendmsg) (Evolves-same w w refl)
  | inr (state, e) ↦
      rw (e, udp_sendmsg)
        (if_cases (Evolves w) (type_of state.dis.dissector_type == type_flow) _ _
          (λ _. elim (Option-cases (w.sockets ctx.sk.id)) [
            | inl n ↦ rw (n, udp_sendmsg) (Evolves-same w w refl)
            | inr (s, n) ↦ rw (n, udp_sendmsg) (Evolves-assure k w ctx family state s e)
          ])
          (λ _. Evolves-same w w refl))
]

pub Evolves-packet :
    (b : Bespoke) (k : Kernel) (w : World) (md : Packet) → Evolves w (reuseport_prog b k w md).0
unfolding reuseport_prog put_state
Evolves-packet b k w md = elim (Option-cases (find_state w md.sk)) [
  | inl e ↦ rw (e, reuseport_prog) (Evolves-same w w refl)
  | inr (state, e) ↦
      rw (e, reuseport_prog)
        (let v = receive b k md w.flows state in
          Evolves-write w _ (skey_from_bpf_sock md.sk) state v.state (unfold find_state in e) refl
            (SameGroup-SameIdentity state v.state (
              receive_closed (SameGroup state)
                (λ token s _ h. SameGroup-trans h (metric_inc-SameGroup token s)) b k md w.flows
                state (SameGroup-refl state)))
            (receive-Counted b k md w.flows state))
]

-- _bpf_bind writes to the storage of sockets only.
bind_groups :
    (h : BindHelpers) (w : World) (ctx : BpfSockAddr) → (bpf_bind h w ctx).groups ≡ w.groups
unfolding bpf_bind
bind_groups h w ctx =
    let Same : World → Type 0 = λ v. v.groups ≡ w.groups in
    if_cases Same (not (ctx.user_family == af_inet) && not (ctx.user_family == af_inet6)) _ _
      (λ _. refl)
      (λ _.
        if_cases Same (not (ctx.protocol == ipproto_udp)) _ _ (λ _. refl)
          (λ _.
            if_cases Same (wants_reuseport h) _ _
              (λ _. stored (storage_or_new h (w.sockets ctx.sk.id))) (λ _. refl)))
  where
    stored : (o : Option SocketStorage) → (bind_storage h w ctx o).groups ≡ w.groups
    stored none = refl
    stored (some s) = refl

pub Evolves-bind : (h : BindHelpers) (w : World) (ctx : BpfSockAddr) → Evolves w (bpf_bind h w ctx)
Evolves-bind h w ctx = Evolves-same w _ (bind_groups h w ctx)

Evolves-apply :
    (w : World) (msg : Msg) (state : ReuseportStorage)
    → lookup (skey_of msg) w.groups ≡ some state
    → Evolves w (write_msg w msg (some state)).0
unfolding write_msg apply_msg
Evolves-apply w (register_socket skey pid c gen app) state e = Evolves-same w w refl
Evolves-apply w (set_working_gen skey app gen) state e = Evolves-same w w refl
Evolves-apply w (set_dissector skey value) state e = Evolves-same w w refl
Evolves-apply w (set_cookies skey gen idx len cookie) state e =
    Evolves-write w _ skey state (put_cookie gen idx len cookie state) e refl
      (unfold put_cookie in record { dis = refl; random_id = refl; netns_cookie = refl })
      (unfold put_cookie in metrics-Counted state _ refl)
Evolves-apply w (set_socket_critical_gauge skey value) state e =
    Evolves-write w _ skey state (metric_add socket_critical_gauge value state) e refl
      (unfold metric_add in record { dis = refl; random_id = refl; netns_cookie = refl })
      (metric_add_gauge-Counted value state)
Evolves-apply w (incr_socket_critical skey value) state e =
    Evolves-write w _ skey state (metric_add socket_critical value state) e refl
      (unfold metric_add in record { dis = refl; random_id = refl; netns_cookie = refl })
      (metric_add_critical-Counted value state)

pub Evolves-update : (w : World) (size : ℕ) (msg : Msg) → Evolves w (cb_update_map w size msg).0
unfolding cb_update_map
Evolves-update w size msg =
    if_cases (λ (r : World × ℕ). Evolves w r.0) (ltb size 128) _ _ (λ _. Evolves-same w w refl)
      (λ _. elim (Option-cases (lookup (skey_of msg) w.groups)) [
        | inl e ↦ rw e (unfold write_msg in Evolves-same w w refl)
        | inr (state, e) ↦ rw e (Evolves-apply w msg state e)
      ])
