-- ===== src/Storage/Counters.antt =====
-- The counters of struct reuseport_storage (include/udpgrm_internal.h).
use udpgrm.Base.{ℕ}

pub data Metric : Type 0 where
  socket_critical_gauge socket_critical : Metric
  rx_processed_total rx_internal_state_error rx_cbpf_prog_error rx_packet_too_short_error : Metric
  rx_dissected_ok_total rx_flow_ok rx_flow_rg_conflict rx_flow_other_error : Metric
  rx_flow_new_unseen rx_flow_new_had_expired rx_flow_new_bad_cookie : Metric
  rx_new_flow_total : Metric
  rx_new_flow_working_gen_dispatch_ok rx_new_flow_working_gen_dispatch_error : Metric
  tx_total tx_flow_create_ok tx_flow_create_from_expired_ok tx_flow_create_error : Metric
  tx_flow_update_ok tx_flow_update_conflict : Metric

-- The place of a counter in the struct.
unfoldable pub index : Metric → ℕ
index socket_critical_gauge = 0
index socket_critical = 1
index rx_processed_total = 2
index rx_internal_state_error = 3
index rx_cbpf_prog_error = 4
index rx_packet_too_short_error = 5
index rx_dissected_ok_total = 6
index rx_flow_ok = 7
index rx_flow_rg_conflict = 8
index rx_flow_other_error = 9
index rx_flow_new_unseen = 10
index rx_flow_new_had_expired = 11
index rx_flow_new_bad_cookie = 12
index rx_new_flow_total = 13
index rx_new_flow_working_gen_dispatch_ok = 14
index rx_new_flow_working_gen_dispatch_error = 15
index tx_total = 16
index tx_flow_create_ok = 17
index tx_flow_create_from_expired_ok = 18
index tx_flow_create_error = 19
index tx_flow_update_ok = 20
index tx_flow_update_conflict = 21
