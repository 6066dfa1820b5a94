-- ===== src/Flow/Account.antt =====
-- The counters of flow_assure (ebpf/ebpf.c).
use udpgrm.Base.{ℕ, ◌+◌, ◌≡◌, Option, eqℤ, pos, ◌==◌, u64, if_cases, arith, Option-cases, inl, inr}
use udpgrm.Storage.{ReuseportStorage, SocketStorage, LruValue, metric_inc}
use udpgrm.Storage.Counters.{
  tx_total, tx_flow_create_ok, tx_flow_create_from_expired_ok, tx_flow_create_error,
  tx_flow_update_ok, tx_flow_update_conflict,
}
use udpgrm.Storage.Helpers.{Kernel}
use udpgrm.Flow.{Assured, flow_assure, assure_new, assure_found, is_live}

-- Up to the wrap of the counters, each call ends in one of four ways.
pub record TxBalanced (s : ReuseportStorage) : Type 0 where
  pub total :
      s.metrics tx_total
      ≡ u64 (
          s.metrics tx_flow_create_ok
          + s.metrics tx_flow_create_error
          + s.metrics tx_flow_update_ok
          + s.metrics tx_flow_update_conflict)

module _ {s : ReuseportStorage} (b : TxBalanced s) where
  create_ok-TxBalanced : TxBalanced (metric_inc tx_flow_create_ok (metric_inc tx_total s))
  unfolding metric_inc
  create_ok-TxBalanced = ground arith

  create_error-TxBalanced : TxBalanced (metric_inc tx_flow_create_error (metric_inc tx_total s))
  unfolding metric_inc
  create_error-TxBalanced = ground arith

  update_ok-TxBalanced : TxBalanced (metric_inc tx_flow_update_ok (metric_inc tx_total s))
  unfolding metric_inc
  update_ok-TxBalanced = ground arith

  conflict-TxBalanced : TxBalanced (metric_inc tx_flow_update_conflict (metric_inc tx_total s))
  unfolding metric_inc
  conflict-TxBalanced = ground arith

  expired-TxBalanced : TxBalanced (
      metric_inc tx_flow_create_from_expired_ok
        (metric_inc tx_flow_create_ok (metric_inc tx_total s)))
  unfolding metric_inc
  expired-TxBalanced = ground arith

-- If the sendmsg counters of a group account for every call, they do so after one more call of
-- flow_assure, however it ends.
pub flow_assure-TxBalanced :
    (k : Kernel) (state : ReuseportStorage) (s : SocketStorage) (hash : ℕ)
    (flows : ℕ → Option LruValue)
    → TxBalanced state
    → TxBalanced (flow_assure k state s hash flows).state
unfolding flow_assure
flow_assure-TxBalanced k state s hash flows b =
    let P : Assured → Type 0 = λ r. TxBalanced r.state in
    elim (Option-cases (flows hash)) [
      | inl e ↦
          rw (e, flow_assure, assure_new)
            (if_cases P (eqℤ k.update_flow (pos 0)) _ _ (λ _. create_ok-TxBalanced b)
              (λ _. create_error-TxBalanced b))
      | inr (value, e) ↦
          rw (e, flow_assure, assure_found)
            (if_cases P (is_live (metric_inc tx_total state) k.now value) _ _
              (λ _.
                if_cases P (value.cookie == s.so_cookie) _ _ (λ _. update_ok-TxBalanced b)
                  (λ _. conflict-TxBalanced b))
              (λ _. expired-TxBalanced b))
    ]
