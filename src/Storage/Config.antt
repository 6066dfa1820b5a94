-- ===== src/Storage/Config.antt =====
-- struct udp_grm_dissector (include/udpgrm.h) and its comparison (ebpf/ebpf.c). The union at the
-- end is kept as its length word and its 512 bytes, which cBPF reads as instructions and the
-- bespoke dissector as host names.
use udpgrm.Base.{
  ℕ, ◌+◌, ◌*◌, Bool, not, ◌&&◌, List, ◌++◌, bit_and, take, drop, replicate, u8_at, u16_at, u32_at,
  le32, bytes_eq, ◌==◌,
}

pub record Dissector : Type 0 where
  pub dissector_type : ℕ
  pub flow_entry_timeout_sec : ℕ
  pub max_apps : ℕ
  pub bespoke_digest : ℕ
  pub label : List ℕ
  pub filter_len : ℕ
  pub body : List ℕ

-- struct sock_filter of linux/filter.h
pub record SockFilter : Type 0 where
  pub code : ℕ
  pub jt : ℕ
  pub jf : ℕ
  pub k : ℕ

abbrev pub type_flow : ℕ
type_flow = 0

abbrev pub type_cbpf : ℕ
type_cbpf = 1

abbrev pub type_bespoke : ℕ
type_bespoke = 3

abbrev pub type_noop : ℕ
type_noop = 4

abbrev pub max_instr : ℕ
max_instr = 64

abbrev pub label_sz : ℕ
label_sz = 100

abbrev pub flow_default_timeout_sec : ℕ
flow_default_timeout_sec = 125

-- DISSECTOR_TYPE(x): x & ~DISSECTOR_FLAGS
unfoldable pub type_of : ℕ → ℕ
type_of x = bit_and x 0xffff_7fff

-- !!(x & DISSECTOR_FLAG_VERBOSE)
unfoldable pub is_verbose : ℕ → Bool
is_verbose x = not (bit_and x 0x8000 == 0)

-- filter[i]
unfoldable pub filter_at : Dissector → ℕ → SockFilter
filter_at d i = record {
  code = u16_at d.body (8 * i);
  jt = u8_at d.body (8 * i + 2);
  jf = u8_at d.body (8 * i + 3);
  k = u32_at d.body (8 * i + 4);
}

abbrev pub zero_dissector : Dissector
zero_dissector = record {
  dissector_type = 0;
  flow_entry_timeout_sec = 0;
  max_apps = 0;
  bespoke_digest = 0;
  label = replicate 100 0;
  filter_len = 0;
  body = replicate 512 0;
}

-- The struct at the start of a zeroed page, into which `bytes` were copied.
unfoldable pub dissector_at : List ℕ → Dissector
dissector_at bytes = record {
  dissector_type = u32_at bytes 0;
  flow_entry_timeout_sec = u32_at bytes 4;
  max_apps = u32_at bytes 8;
  bespoke_digest = u32_at bytes 12;
  label = take 100 (drop 16 bytes ++ replicate 100 0);
  filter_len = u32_at bytes 116;
  body = take 512 (drop 120 bytes ++ replicate 512 0);
}

-- Its bytes, as memcpy copies them.
unfoldable pub dissector_bytes : Dissector → List ℕ
dissector_bytes d =
    le32 d.dissector_type
    ++ le32 d.flow_entry_timeout_sec
    ++ le32 d.max_apps
    ++ le32 d.bespoke_digest
    ++ d.label
    ++ le32 d.filter_len
    ++ d.body

-- dissector_cmp(a, b) == 0
unfoldable pub dissector_same : Dissector → Dissector → Bool
unfolding type_of
dissector_same a b =
    type_of a.dissector_type == type_of b.dissector_type
    && a.flow_entry_timeout_sec == b.flow_entry_timeout_sec
    && a.max_apps == b.max_apps
    && a.bespoke_digest == b.bespoke_digest
    && bytes_eq a.label b.label
    && a.filter_len == b.filter_len
    && bytes_eq a.body b.body
