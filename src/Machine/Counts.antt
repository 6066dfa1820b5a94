-- ===== src/Machine/Counts.antt =====
-- The counters of a group through every program that writes to it (ebpf/ebpf.c).
use udpgrm.Base.{ℕ, ◌≡◌, Option, ℤ, arith}
use udpgrm.Storage.{ReuseportStorage, SocketStorage, LruValue, metric_inc, empty_state}
use udpgrm.Storage.Counters.{Metric, socket_critical_gauge, socket_critical}
use udpgrm.Storage.Helpers.{Kernel, Packet}
use udpgrm.Flow.{flow_assure}
use udpgrm.Flow.Account.{TxBalanced, flow_assure-TxBalanced}
use udpgrm.Reuseport.{Bespoke, receive}
use udpgrm.Reuseport.Account.{Balanced, internal, program, short, receive-Balanced}
use udpgrm.Callback.{metric_add}
use udpgrm.Machine.Walks.{
  IsTx, total, create_ok, create_error, update_ok, update_conflict, from_expired, IsRx, processed,
  stopped, dissected, ok, conflict, other, unseen, had_expired, bad, new, sent, not_sent,
  flow_assure_closed, receive_closed,
}

-- Both sets of counters account for every packet and every message.
pub record Counted (s : ReuseportStorage) : Type 0 where
  pub rx : Balanced s
  pub tx : TxBalanced s

metric_inc_tx-Balanced :
    (token : Metric) (s : ReuseportStorage)
    → IsTx token
    → Balanced s
    → Balanced (metric_inc token s)
unfolding metric_inc
metric_inc_tx-Balanced _ s total h = ground arith
metric_inc_tx-Balanced _ s create_ok h = ground arith
metric_inc_tx-Balanced _ s create_error h = ground arith
metric_inc_tx-Balanced _ s update_ok h = ground arith
metric_inc_tx-Balanced _ s update_conflict h = ground arith
metric_inc_tx-Balanced _ s from_expired h = ground arith

metric_inc_rx-TxBalanced :
    (token : Metric) (s : ReuseportStorage)
    → IsRx token
    → TxBalanced s
    → TxBalanced (metric_inc token s)
unfolding metric_inc
metric_inc_rx-TxBalanced _ s processed h = ground arith
metric_inc_rx-TxBalanced _ s (stopped _ internal) h = ground arith
metric_inc_rx-TxBalanced _ s (stopped _ program) h = ground arith
metric_inc_rx-TxBalanced _ s (stopped _ short) h = ground arith
metric_inc_rx-TxBalanced _ s dissected h = ground arith
metric_inc_rx-TxBalanced _ s ok h = ground arith
metric_inc_rx-TxBalanced _ s conflict h = ground arith
metric_inc_rx-TxBalanced _ s other h = ground arith
metric_inc_rx-TxBalanced _ s unseen h = ground arith
metric_inc_rx-TxBalanced _ s had_expired h = ground arith
metric_inc_rx-TxBalanced _ s bad h = ground arith
metric_inc_rx-TxBalanced _ s new h = ground arith
metric_inc_rx-TxBalanced _ s sent h = ground arith
metric_inc_rx-TxBalanced _ s not_sent h = ground arith

pub flow_assure-Counted :
    (k : Kernel) (state : ReuseportStorage) (s : SocketStorage) (hash : ℕ)
    (flows : ℕ → Option LruValue)
    → Counted state
    → Counted (flow_assure k state s hash flows).state
flow_assure-Counted k state s hash flows h = record {
  rx = flow_assure_closed Balanced metric_inc_tx-Balanced k state s hash flows h.rx;
  tx = flow_assure-TxBalanced k state s hash flows h.tx;
}

pub receive-Counted :
    (b : Bespoke) (k : Kernel) (md : Packet) (flows : ℕ → Option LruValue) (s : ReuseportStorage)
    → Counted s
    → Counted (receive b k md flows s).state
receive-Counted b k md flows s h = record {
  rx = receive-Balanced b k md flows s h.rx;
  tx = receive_closed TxBalanced metric_inc_rx-TxBalanced b k md flows s h.tx;
}

-- The daemon's counters are others.
pub metric_add_gauge-Counted :
    (value : ℤ) (s : ReuseportStorage)
    → Counted s
    → Counted (metric_add socket_critical_gauge value s)
unfolding metric_add
metric_add_gauge-Counted value s h = ground arith

pub metric_add_critical-Counted :
    (value : ℤ) (s : ReuseportStorage) → Counted s → Counted (metric_add socket_critical value s)
unfolding metric_add
metric_add_critical-Counted value s h = ground arith

-- It is a matter of the counters alone.
pub metrics-Counted : (a b : ReuseportStorage) → a.metrics ≡ b.metrics → Counted a → Counted b
metrics-Counted a b e h = record {
  rx = record {
    processed = rw (← e) h.rx.processed;
    dissected = rw (← e) h.rx.dissected;
    reasons = rw (← e) h.rx.reasons;
    dispatched = rw (← e) h.rx.dispatched;
  };
  tx = record { total = rw (← e) h.tx.total };
}

pub empty_state-Counted : Counted empty_state
empty_state-Counted = ground arith
