-- ===== src/Storage/Helpers.antt =====
-- What the kernel hands the eBPF programs: the answers of its helpers during one run, the socket
-- and the packet. None of it is code of this repository, so all of it is a parameter.
use udpgrm.Base.{ℕ, List, Option, Bool, ℤ}

-- struct bpf_sock; `id` is the identity of the socket, by which sk_storage_map is keyed.
pub record BpfSock : Type 0 where
  pub id : ℕ
  pub family : ℕ
  pub src_port : ℕ
  pub src_ip4 : ℕ
  pub src_ip6_0 : ℕ
  pub src_ip6_1 : ℕ
  pub src_ip6_2 : ℕ
  pub src_ip6_3 : ℕ

abbrev pub af_inet : ℕ
af_inet = 2

abbrev pub af_inet6 : ℕ
af_inet6 = 10

abbrev pub ipproto_udp : ℕ
ipproto_udp = 17

pub record Kernel : Type 0 where
  -- bpf_ktime_get_ns(), and its value at the second call of one run
  pub now : ℕ
  pub now_later : ℕ
  -- the return values of bpf_map_update_elem(…, BPF_NOEXIST) on the two maps
  pub update_group : ℤ
  pub update_flow : ℤ
  -- the flow entries that the LRU map drops to make room for a new one
  pub evicted : ℕ → Bool
  -- whether bpf_ringbuf_reserve returns a record, and the per-CPU array a page
  pub reserve : Bool
  pub percpu_page : Bool
  pub prandom : ℕ
  pub pid : ℕ
  -- bpf_sk_select_reuseport(md, &sockhash, &cookie, 0)
  pub select_reuseport : ℕ → ℤ

-- struct sk_reuseport_md. `linear` holds the bytes from data to data_end. The two `load` fields are bpf_skb_load_bytes(md, offset, to, len) and
-- bpf_skb_load_bytes_relative(…, BPF_HDR_START_NET): the bytes, or none on an error.
pub record Packet : Type 0 where
  pub sk : BpfSock
  pub eth_protocol : ℕ
  pub len : ℕ
  pub hash : ℕ
  pub linear : List ℕ
  pub load : ℕ → ℕ → Option (List ℕ)
  pub load_net : ℕ → ℕ → Option (List ℕ)
