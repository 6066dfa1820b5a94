-- ===== src/Quic.antt =====
-- The number formats of QUIC and of AES-CTR (ebpf/ebpf_quic.c).
pub mod Varint
pub mod Counter
pub mod Keys
pub mod Decrypt
pub mod Stream
pub mod Inside
pub mod Cipher
pub mod Header
pub mod Slow
pub mod Nonce
pub mod Hello
pub mod Bounds
use udpgrm.Base.{
  ℕ, ◌+◌, ◌-◌, ◌*◌, ◌/◌, ◌%◌, ◌^◌, Option, none, some, ◌==◌, if◌then◌else◌, leb, u64, bswap16,
  bswap32, bswap64,
}

-- varint_decode of the eight bytes of `word`, as they stand in memory: *value_ptr and *value_len_ptr.
unfoldable pub varint_decode : ℕ → Option (ℕ × ℕ)
varint_decode word =
    let kind = word % 256 / 64 in
    if kind == 0
    then some (word % 2 ^ 6, 1)
    else if kind == 1
    then some (bswap16 (word % 2 ^ 16) % 2 ^ 14, 2)
    else if kind == 2
    then some (bswap32 (word % 2 ^ 32) % 2 ^ 30, 4)
    else if kind == 3
    then some (bswap64 word % 2 ^ 62, 8)
    else none

-- struct aes_key, as its two uint64_t.
pub record AesKey : Type 0 where
  pub c0 : ℕ
  pub c1 : ℕ

-- increment_counter
unfoldable pub increment_counter : AesKey → AesKey
increment_counter counter =
    let c1 = bswap64 (u64 (bswap64 counter.c1 + 1)) in
    record { c0 = bswap64 (u64 (bswap64 counter.c0 + (if c1 == 0 then 1 else 0))); c1 = c1 }

-- clear_upper_bytes: the two masks
unfoldable pub clear_upper_bytes : ℕ → ℕ × ℕ
clear_upper_bytes n =
    let len = n % 16 in
    if leb 8 len then (2 ^ 64 - 1, 2 ^ ((len - 8) * 8) - 1) else (2 ^ (len * 8) - 1, 0)
