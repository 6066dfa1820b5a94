-- ===== src/Siphash.antt =====
-- The keyed hash of ebpf/siphash.h and its use in ebpf/ebpf.c: SipHash with one round for each
-- block and two at the end, cut to 32 bits. The machine is little-endian, so _le64toh is nothing.
use udpgrm.Base.{
  ℕ, zero, suc, ◌+◌, ◌-◌, ◌*◌, ◌/◌, ◌^◌, bit_or, bit_xor, List, [], ◌∷◌, ◌++◌, length, drop, u32_at,
  le16, le32, u32, u64, ◌<<<◌, ◌>>>◌,
}

-- The four words of the state.
pub record Lanes : Type 0 where
  pub v0 : ℕ
  pub v1 : ℕ
  pub v2 : ℕ
  pub v3 : ℕ

-- ROTATE
unfoldable pub rotate : ℕ → ℕ → ℕ
rotate x b = bit_or (u64 (x <<< b)) (x >>> (64 - b))

-- HALF_ROUND(a, b, c, d, s, t); the result is a, b, c, d in this order.
unfoldable pub half_round : ℕ → ℕ → Lanes → Lanes
unfolding rotate
half_round s t v =
    let a = u64 (v.v0 + v.v1) in
    let c = u64 (v.v2 + v.v3) in
    record {
      v0 = rotate a 32;
      v1 = bit_xor (rotate v.v1 s) a;
      v2 = c;
      v3 = bit_xor (rotate v.v3 t) c;
    }

-- The lanes 0 and 2 change places, for HALF_ROUND(v2, v1, v0, v3, …).
abbrev crossed : Lanes → Lanes
crossed v = record { v0 = v.v2; v1 = v.v1; v2 = v.v0; v3 = v.v3 }

-- ROUND
unfoldable pub round : Lanes → Lanes
unfolding half_round
round v = crossed (half_round 17 21 (crossed (half_round 13 16 v)))

abbrev pub u64_at : List ℕ → ℕ → ℕ
u64_at bytes off = u32_at bytes off + u32_at bytes (off + 4) * 2 ^ 32

-- The loop over whole blocks: `n` of them are left.
unfoldable pub absorb : ℕ → List ℕ → Lanes → Lanes
unfolding round
absorb zero bytes v = v
absorb (suc n) bytes v =
    let mi = u64_at bytes 0 in
    let v' = round (record v { v3 = bit_xor v.v3 mi }) in
    absorb n (drop 8 bytes) (record v' { v0 = bit_xor v'.v0 mi })

-- The last block: the size in its highest byte, and the up to seven bytes that are left.
abbrev last_block : List ℕ → List ℕ → ℕ
last_block src tail = bit_or (u64 (length src <<< 56)) (u64_at tail 0)

unfoldable pub finish : ℕ → Lanes → ℕ
unfolding round
finish b v =
    let v' = round (record v { v3 = bit_xor v.v3 b }) in
    let v'' = round (round (record v' { v0 = bit_xor v'.v0 b; v2 = bit_xor v'.v2 0xff })) in
    u32 (bit_xor (bit_xor v''.v0 v''.v1) (bit_xor v''.v2 v''.v3))

-- hsiphash(src, src_sz, key)
unfoldable pub hsiphash : List ℕ → List ℕ → ℕ
unfolding absorb finish
hsiphash src key =
    let k0 = u64_at key 0 in
    let k1 = u64_at key 8 in
    let blocks = length src / 8 in
    finish (last_block src (drop (8 * blocks) src)) (
      absorb blocks src (record {
        v0 = bit_xor k0 0x736f_6d65_7073_6575;
        v1 = bit_xor k1 0x646f_7261_6e64_6f6d;
        v2 = bit_xor k0 0x6c79_6765_6e65_7261;
        v3 = bit_xor k1 0x7465_6462_7974_6573;
      }))

-- struct ip_flow_hash (ebpf/ebpf_internal.h)
pub record IpFlowHash : Type 0 where
  pub remote_ip0 : ℕ
  pub remote_ip1 : ℕ
  pub remote_ip2 : ℕ
  pub remote_ip3 : ℕ
  pub reuseport_group_id : ℕ
  pub remote_port : ℕ

abbrev pub flow_bytes : IpFlowHash → List ℕ
flow_bytes f =
    le32 f.remote_ip0
    ++ le32 f.remote_ip1
    ++ le32 f.remote_ip2
    ++ le32 f.remote_ip3
    ++ le32 f.reuseport_group_id
    ++ le16 f.remote_port

abbrev siphash_key : List ℕ
siphash_key =
    0xd9 ∷ 0xbd ∷ 0xd7 ∷ 0xf6 ∷ 0xa0 ∷ 0xb3 ∷ 0x49 ∷ 0x83 ∷ 0x10 ∷ 0xb7 ∷ 0x49 ∷ 0x0f ∷ 0x75 ∷ 0x56
    ∷ 0xfd ∷ 0x4c ∷ []

-- count_ip_flow_hash
unfoldable pub count_ip_flow_hash : IpFlowHash → ℕ
unfolding hsiphash
count_ip_flow_hash flow = hsiphash (flow_bytes flow) siphash_key
