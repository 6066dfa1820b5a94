-- ===== src/Quic/Decrypt.antt =====
-- The decryption of initial packets (ebpf/ebpf_quic.c): compute_hp_mask, _do_decrypt_quic_loop and
-- decrypt_quic, over the counter scratch->quic_iv and the 1024 bytes of scratch->pkt.
use udpgrm.Base.{
  ℕ, zero, suc, ◌+◌, ◌*◌, ◌/◌, ◌%◌, ◌^◌, bit_xor, bit_and, Bool, true, false, ◌||◌, length, ltb,
  ◌==◌, if◌then◌else◌, List, [], ◌∷◌, ◌++◌, u8_at, u32_at, le32,
}
use udpgrm.Siphash.{u64_at}
use udpgrm.Aes.{Column, Block, AesCtx, key_expand, encrypt}
use udpgrm.Quic.{AesKey, increment_counter, clear_upper_bytes}

abbrev pub le64 : ℕ → List ℕ
le64 x = le32 (x % 2 ^ 32) ++ le32 (x / 2 ^ 32)

-- struct aes_key, of its sixteen bytes from off on.
abbrev pub column_at : List ℕ → ℕ → Column
column_at bytes off = record {
  b0 = u8_at bytes off;
  b1 = u8_at bytes (off + 1);
  b2 = u8_at bytes (off + 2);
  b3 = u8_at bytes (off + 3);
}

unfoldable pub block_at : List ℕ → ℕ → Block
block_at bytes off = record {
  c0 = column_at bytes off;
  c1 = column_at bytes (off + 4);
  c2 = column_at bytes (off + 8);
  c3 = column_at bytes (off + 12);
}

abbrev pub column_bytes : Column → List ℕ
column_bytes c = c.b0 ∷ c.b1 ∷ c.b2 ∷ c.b3 ∷ []

unfoldable pub block_bytes : Block → List ℕ
block_bytes s = column_bytes s.c0 ++ (column_bytes s.c1 ++ (column_bytes s.c2 ++ column_bytes s.c3))

-- The counter as its two uint64_t, and back.
unfoldable pub counter_of : List ℕ → AesKey
counter_of bytes = record { c0 = u64_at bytes 0; c1 = u64_at bytes 8 }

unfoldable pub counter_bytes : AesKey → List ℕ
counter_bytes c = le64 c.c0 ++ le64 c.c1

-- compute_hp_mask: the first five bytes of the encrypted sample.
unfoldable pub compute_hp_mask : List ℕ → List ℕ → ℕ
unfolding block_at block_bytes key_expand encrypt
compute_hp_mask quic_hp sample =
    let enc = block_bytes (encrypt (key_expand (block_at quic_hp 0)) (block_at sample 0)) in
    u32_at enc 0 + u8_at enc 4 * 2 ^ 32

-- The bytes from off on, each combined with the next one of ms.
unfoldable pub combine : (ℕ → ℕ → ℕ) → ℕ → List ℕ → List ℕ → List ℕ
combine f zero [] pkt = pkt
combine f zero (m ∷ ms) [] = []
combine f zero (m ∷ ms) (b ∷ pkt) = f b m ∷ combine f zero ms pkt
combine f (suc off) ms [] = []
combine f (suc off) ms (b ∷ pkt) = b ∷ combine f off ms pkt

-- The counter and scratch->pkt, and whether a byte outside of scratch->pkt was accessed.
pub record Decrypting : Type 0 where
  pub counter : AesKey
  pub pkt : List ℕ
  pub outside : Bool

-- The sixteen bytes from off on, each combined with one of ms and written back.
unfoldable pub combine_chunk : (ℕ → ℕ → ℕ) → ℕ → List ℕ → Decrypting → Decrypting
unfolding combine
combine_chunk f off ms s = record s {
  pkt = combine f off ms s.pkt;
  outside = s.outside || ltb (length s.pkt) (off + 16);
}

-- The key stream of one chunk.
unfoldable pub stream_block : AesCtx → AesKey → List ℕ
unfolding block_at block_bytes counter_bytes encrypt
stream_block ctx counter = block_bytes (encrypt ctx (block_at (counter_bytes counter) 0))

-- _do_decrypt_quic_loop, and whether it is LOOP_CONTINUE.
unfoldable pub do_decrypt_quic_loop : AesCtx → ℕ → Decrypting → Decrypting × Bool
unfolding stream_block combine_chunk increment_counter
do_decrypt_quic_loop ctx index s =
    let counter = increment_counter s.counter in
    let tmp = stream_block ctx counter in
    if ltb 1024 (index * 16 + 16)
    then (record s { counter = counter }, false)
    else (combine_chunk bit_xor (index * 16) tmp (record s { counter = counter }), true)

-- bpf_loop, for n rounds from index on.
unfoldable pub decrypt_loop : AesCtx → ℕ → ℕ → Decrypting → Decrypting
unfolding do_decrypt_quic_loop
decrypt_loop ctx zero index s = s
decrypt_loop ctx (suc n) index s =
    let (s', go_on) = do_decrypt_quic_loop ctx index s in
    let rest = decrypt_loop ctx n (index + 1) s' in if go_on then rest else s'

-- The bytes of the two masks of clear_upper_bytes.
unfoldable pub mask_bytes : ℕ → List ℕ
unfolding clear_upper_bytes
mask_bytes len = let (mask0, mask1) = clear_upper_bytes len in le64 mask0 ++ le64 mask1

-- decrypt_quic
unfoldable pub decrypt_quic : AesCtx → ℕ → Decrypting → Decrypting
unfolding decrypt_loop combine_chunk mask_bytes
decrypt_quic ctx packet_len s =
    let s' = decrypt_loop ctx (packet_len / 16 + (if packet_len % 16 == 0 then 0 else 1)) 0 s in
    let last_chunk_off = packet_len / 16 * 16 in
    if ltb 1008 last_chunk_off
    then s'
    else combine_chunk bit_and last_chunk_off (mask_bytes (packet_len % 16)) s'
