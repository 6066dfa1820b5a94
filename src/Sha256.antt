-- ===== src/Sha256.antt =====
-- SHA-256 of short messages and HMAC (ebpf/ebpf_sha256.c). A block is its 64 bytes; the scratch
-- arrays w and tv are values of their own. The calls with a null pointer are left out.
pub mod Pad
pub mod Hmac
use udpgrm.Base.{
  ℕ, zero, suc, ◌+◌, ◌-◌, ◌*◌, ◌/◌, ◌%◌, ◌^◌, bit_and, bit_or, bit_xor, Option, none, some, List,
  [], ◌∷◌, ◌++◌, map, ltb, if◌then◌else◌, get_or, set, take, drop, replicate, u32_at, u32, u64,
  ◌>>>◌, ◌<<<◌, bswap32,
}

-- struct sha256_buff, and scratch->tv.
pub record Sha256Buff : Type 0 where
  pub h0 : ℕ
  pub h1 : ℕ
  pub h2 : ℕ
  pub h3 : ℕ
  pub h4 : ℕ
  pub h5 : ℕ
  pub h6 : ℕ
  pub h7 : ℕ

-- sha256_init
abbrev pub sha256_init : Sha256Buff
sha256_init = record {
  h0 = 0x6a09e667;
  h1 = 0xbb67ae85;
  h2 = 0x3c6ef372;
  h3 = 0xa54ff53a;
  h4 = 0x510e527f;
  h5 = 0x9b05688c;
  h6 = 0x1f83d9ab;
  h7 = 0x5be0cd19;
}

-- k
unfoldable pub k : List ℕ
k =
    0x428a2f98 ∷ 0x71374491 ∷ 0xb5c0fbcf ∷ 0xe9b5dba5 ∷ 0x3956c25b ∷ 0x59f111f1 ∷ 0x923f82a4
    ∷ 0xab1c5ed5 ∷ 0xd807aa98 ∷ 0x12835b01 ∷ 0x243185be ∷ 0x550c7dc3 ∷ 0x72be5d74 ∷ 0x80deb1fe
    ∷ 0x9bdc06a7 ∷ 0xc19bf174 ∷ 0xe49b69c1 ∷ 0xefbe4786 ∷ 0x0fc19dc6 ∷ 0x240ca1cc ∷ 0x2de92c6f
    ∷ 0x4a7484aa ∷ 0x5cb0a9dc ∷ 0x76f988da ∷ 0x983e5152 ∷ 0xa831c66d ∷ 0xb00327c8 ∷ 0xbf597fc7
    ∷ 0xc6e00bf3 ∷ 0xd5a79147 ∷ 0x06ca6351 ∷ 0x14292967 ∷ 0x27b70a85 ∷ 0x2e1b2138 ∷ 0x4d2c6dfc
    ∷ 0x53380d13 ∷ 0x650a7354 ∷ 0x766a0abb ∷ 0x81c2c92e ∷ 0x92722c85 ∷ 0xa2bfe8a1 ∷ 0xa81a664b
    ∷ 0xc24b8b70 ∷ 0xc76c51a3 ∷ 0xd192e819 ∷ 0xd6990624 ∷ 0xf40e3585 ∷ 0x106aa070 ∷ 0x19a4c116
    ∷ 0x1e376c08 ∷ 0x2748774c ∷ 0x34b0bcb5 ∷ 0x391c0cb3 ∷ 0x4ed8aa4a ∷ 0x5b9cca4f ∷ 0x682e6ff3
    ∷ 0x748f82ee ∷ 0x78a5636f ∷ 0x84c87814 ∷ 0x8cc70208 ∷ 0x90befffa ∷ 0xa4506ceb ∷ 0xbef9a3f7
    ∷ 0xc67178f2 ∷ []

-- ROTATE_R
unfoldable pub rotate_r : ℕ → ℕ → ℕ
rotate_r val bits = bit_or (val >>> bits) (u32 (val <<< (32 - bits)))

-- The first sixteen words, for n of them from word i on.
unfoldable pub chunk_words : ℕ → ℕ → List ℕ → List ℕ
chunk_words zero i b = []
chunk_words (suc n) i b = bswap32 (u32_at b (4 * i)) ∷ chunk_words n (i + 1) b

-- Word i from the words before it.
unfoldable pub next_word : ℕ → List ℕ → ℕ
unfolding rotate_r
next_word i w =
    let a = get_or w (i - 15) 0 in
    let b = get_or w (i - 2) 0 in
    let s0 = bit_xor (bit_xor (rotate_r a 7) (rotate_r a 18)) (a >>> 3) in
    let s1 = bit_xor (bit_xor (rotate_r b 17) (rotate_r b 19)) (b >>> 10) in
    u32 (get_or w (i - 16) 0 + s0 + get_or w (i - 7) 0 + s1)

-- The second loop, for n rounds from i on.
unfoldable pub extend_words : ℕ → ℕ → List ℕ → List ℕ
unfolding next_word
extend_words zero i w = w
extend_words (suc n) i w = extend_words n (i + 1) (w ++ (next_word i w ∷ []))

-- The body of the last loop.
unfoldable pub round : ℕ → List ℕ → Sha256Buff → Sha256Buff
unfolding k rotate_r
round i w tv =
    let s1 = bit_xor (bit_xor (rotate_r tv.h4 6) (rotate_r tv.h4 11)) (rotate_r tv.h4 25) in
    let ch = bit_xor (bit_and tv.h4 tv.h5) (bit_and (2 ^ 32 - 1 - tv.h4) tv.h6) in
    let temp1 = u32 (tv.h7 + s1 + ch + get_or k i 0 + get_or w i 0) in
    let s0 = bit_xor (bit_xor (rotate_r tv.h0 2) (rotate_r tv.h0 13)) (rotate_r tv.h0 22) in
    let maj = bit_xor (bit_xor (bit_and tv.h0 tv.h1) (bit_and tv.h0 tv.h2)) (bit_and tv.h1 tv.h2) in
    let temp2 = u32 (s0 + maj) in
    record {
      h0 = u32 (temp1 + temp2);
      h1 = tv.h0;
      h2 = tv.h1;
      h3 = tv.h2;
      h4 = u32 (tv.h3 + temp1);
      h5 = tv.h4;
      h6 = tv.h5;
      h7 = tv.h6;
    }

-- That loop, for n rounds from i on.
unfoldable pub rounds : ℕ → ℕ → List ℕ → Sha256Buff → Sha256Buff
unfolding round
rounds zero i w tv = tv
rounds (suc n) i w tv = rounds n (i + 1) w (round i w tv)

-- sha256_calc_chunk
unfoldable pub sha256_calc_chunk : Sha256Buff → List ℕ → Sha256Buff
unfolding chunk_words extend_words rounds
sha256_calc_chunk ctx b =
    let tv = rounds 64 0 (extend_words 48 16 (chunk_words 16 0 b)) ctx in
    record {
      h0 = u32 (ctx.h0 + tv.h0);
      h1 = u32 (ctx.h1 + tv.h1);
      h2 = u32 (ctx.h2 + tv.h2);
      h3 = u32 (ctx.h3 + tv.h3);
      h4 = u32 (ctx.h4 + tv.h4);
      h5 = u32 (ctx.h5 + tv.h5);
      h6 = u32 (ctx.h6 + tv.h6);
      h7 = u32 (ctx.h7 + tv.h7);
    }

-- The bytes of a number, the highest one first.
abbrev pub be32 : ℕ → List ℕ
be32 x = x / 2 ^ 24 % 256 ∷ x / 2 ^ 16 % 256 ∷ x / 2 ^ 8 % 256 ∷ x % 256 ∷ []

abbrev pub be64 : ℕ → List ℕ
be64 x = be32 (x / 2 ^ 32) ++ be32 x

-- sha256_final: the new state and the block as it is written; `none` is its -1.
unfoldable pub sha256_final : Sha256Buff → List ℕ → ℕ → ℕ → Option (Sha256Buff × List ℕ)
sha256_final ctx block data_len total_len =
    if ltb 55 data_len
    then none
    else let written = take 56 (set block data_len 0x80) ++ be64 (u64 (total_len * 8)) in
      some (sha256_calc_chunk ctx written, written)

-- sha256_read
unfoldable pub sha256_read : Sha256Buff → List ℕ
sha256_read buff =
    be32 buff.h0
    ++ (be32 buff.h1
        ++ (be32 buff.h2
            ++ (be32 buff.h3
                ++ (be32 buff.h4 ++ (be32 buff.h5 ++ (be32 buff.h6 ++ be32 buff.h7))))))

-- key->u64[i] ^= a mask of eight bytes m, in the loop over i.
unfoldable pub xor_all : ℕ → List ℕ → List ℕ
xor_all m key = map (λ b. bit_xor b m) key

-- The state after a call of sha256_final, whose result is not looked at.
unfoldable pub final_state : Sha256Buff → Option (Sha256Buff × List ℕ) → Sha256Buff
final_state ctx none = ctx
final_state ctx (some (ctx', _)) = ctx'

-- memset and sha256_read, into a block.
unfoldable pub read_block : Sha256Buff → List ℕ
unfolding sha256_read
read_block ctx = sha256_read ctx ++ replicate 32 0

-- One half of sha256_hmac: the masked key, then what sha256_final makes of the block.
unfoldable pub keyed : List ℕ → List ℕ → ℕ → List ℕ
unfolding final_state read_block sha256_final
keyed key block data_len =
    let ctx = sha256_calc_chunk sha256_init key in
    read_block (final_state ctx (sha256_final ctx block data_len (data_len + 64)))

-- sha256_hmac: the key and the data as they are left.
unfoldable pub sha256_hmac : List ℕ → List ℕ → ℕ → List ℕ × List ℕ
unfolding xor_all keyed
sha256_hmac key block data_len =
    let k_ipad = xor_all 0x36 key in
    let k_opad = xor_all (bit_xor 0x36 0x5c) k_ipad in
    (xor_all 0x5c k_opad, keyed k_opad (keyed k_ipad block data_len) 32)
