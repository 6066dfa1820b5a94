-- ===== src/Quic/Cipher.antt =====
-- decrypt_quic as a stream cipher (ebpf/ebpf_quic.c).
use udpgrm.Base.{
  ℕ, zero, suc, ◌+◌, ◌-◌, ◌*◌, ◌/◌, ◌%◌, ◌≤◌, ◌<◌, bit_xor, bit_and, bit_xor_cancel, bit_xor-lt,
  Bool, true, false, ltb, leb, ◌&&◌, ◌==◌, ==_iff, if◌then◌else◌, List, [], ◌∷◌, u8_at, length,
  get_or_past, Bool-cases, inl, inr, ◌≡◌, refl, ap, ◌∙◌, arith, all_below, all_below-lt, all_below₂,
  all_below₂-lt,
}
use udpgrm.Aes.{AesCtx, Block, encrypt}
use udpgrm.Aes.Blocks.{IsBlock, HasBytes, encrypt-IsBlock}
use udpgrm.Quic.{AesKey}
use udpgrm.Quic.Decrypt.{
  combine, combine_chunk, Decrypting, stream_block, decrypt_loop, mask_bytes, decrypt_quic,
  block_bytes, block_at, counter_bytes,
}
use udpgrm.Quic.Stream.{
  advance, combine_lem, loop_byte, stream_byte, length-combine, length-decrypt_loop,
}

-- Byte j of the key stream: that of block j / 16, for the counter advanced once more than that.
unfoldable pub keystream : AesCtx → AesKey → ℕ → ℕ
keystream ctx counter j = u8_at (stream_block ctx (advance (j / 16 + 1) counter)) (j % 16)

-- The masks cut off what is behind the first len bytes.
mask_table :
    all_below₂ 16 16 (λ len i. u8_at (mask_bytes len) i == (if ltb i len then 255 else 0)) ≡ true
unfolding all_below₂ mask_bytes
mask_table = refl

mask_byte :
    (len i : ℕ) → len < 16 → i < 16 → u8_at (mask_bytes len) i ≡ (if ltb i len then 255 else 0)
mask_byte len i h k = (==_iff _ _).0 (
    all_below₂-lt 16 16 (λ len i. u8_at (mask_bytes len) i == (if ltb i len then 255 else 0)) len i
      mask_table h k)

and_table : all_below 256 (λ b. (bit_and b 255 == b) && (bit_and b 0 == 0)) ≡ true
unfolding all_below
and_table = refl

-- A byte under a mask of ones, and under one of zeros.
masked :
    (b : ℕ) (keep : Bool) → b < 256 → bit_and b (if keep then 255 else 0) ≡ (if keep then b else 0)
masked b true h =
    ground (arith, all_below-lt 256 (λ b. (bit_and b 255 == b) && (bit_and b 0 == 0)) b and_table h)
masked b false h =
    ground (arith, all_below-lt 256 (λ b. (bit_and b 255 == b) && (bit_and b 0 == 0)) b and_table h)

length-mask_bytes : (len : ℕ) → length (mask_bytes len) ≡ 16
unfolding mask_bytes
length-mask_bytes len = refl

-- Every byte of the packet fits.
abbrev pub IsPacket : List ℕ → Type 0
IsPacket pkt = (length pkt ≡ 1024) × ((j : ℕ) → u8_at pkt j < 256)

abbrev AllBytes : List ℕ → Type 0
AllBytes [] = Unit
AllBytes (x ∷ xs) = (x < 256) × AllBytes xs

AllBytes-u8_at : (xs : List ℕ) → AllBytes xs → (i : ℕ) → u8_at xs i < 256
AllBytes-u8_at [] h i = omega arith
AllBytes-u8_at (x ∷ xs) h zero = h.0
AllBytes-u8_at (x ∷ xs) h (suc i) = AllBytes-u8_at xs h.1 i

block_byte-lt : (s : Block) → IsBlock s → (i : ℕ) → u8_at (block_bytes s) i < 256
block_byte-lt s h = AllBytes-u8_at (block_bytes s) (unfold block_bytes in omega arith)

counter_bytes-IsBlock : (c : AesKey) → IsBlock (block_at (counter_bytes c) 0)
unfolding block_at counter_bytes
counter_bytes-IsBlock c = omega arith

keystream-lt : (ctx : AesCtx) (c : AesKey) (j : ℕ) → HasBytes ctx → keystream ctx c j < 256
unfolding keystream stream_block
keystream-lt ctx c j w =
    let block = block_at (counter_bytes (advance (j / 16 + 1) c)) 0 in
    block_byte-lt (encrypt ctx block)
      (encrypt-IsBlock ctx block w (counter_bytes-IsBlock (advance (j / 16 + 1) c))) (j % 16)

-- The rounds that decrypt_quic asks for.
abbrev chunks : ℕ → ℕ
chunks packet_len = packet_len / 16 + (if packet_len % 16 == 0 then 0 else 1)

chunks_fit : (packet_len : ℕ) → packet_len ≤ 1024 → (0 + chunks packet_len) * 16 ≤ 1024
chunks_fit packet_len h = ground arith

-- Byte j after the loop and the masks: a is what the loop leaves, t the key stream's byte.
cut_off :
    (packet_len j p a t : ℕ)
    → packet_len ≤ 1024
    → a ≡ (if leb (0 * 16) j && ltb j ((0 + chunks packet_len) * 16) then bit_xor p t else p)
    → (if leb (packet_len / 16 * 16) j && ltb j (packet_len / 16 * 16 + 16)
        then (if ltb (j - packet_len / 16 * 16) (packet_len % 16) then a else 0)
        else a)
      ≡ (if ltb j packet_len
          then bit_xor p t
          else if ltb j (packet_len / 16 * 16 + 16)
          then 0
          else p)
cut_off packet_len j p a t h e = ground arith

under_mask :
    (off j a len : ℕ)
    → len < 16
    → a < 256
    → (if leb off j && ltb j (off + 16) then bit_and a (u8_at (mask_bytes len) (j - off)) else a)
      ≡ (if leb off j && ltb j (off + 16) then (if ltb (j - off) len then a else 0) else a)
under_mask off j a len h k = elim (Bool-cases (leb off j)) [
  | inl after ↦ elim (Bool-cases (ltb j (off + 16))) [
    | inl within ↦
        rw (after, within)
          (ap (bit_and a) (mask_byte len (j - off) h (ground arith))
            ∙ masked a (ltb (j - off) len) k)
    | inr behind ↦ rw (after, behind) refl
  ]
  | inr before ↦ rw before refl
]

module _ (ctx : AesCtx) (packet_len : ℕ) (s : Decrypting) (j : ℕ) where
  module _ (w : HasBytes ctx) (full : IsPacket s.pkt) (fits : packet_len ≤ 1024)
      (h : j < 1024) where
    looped : u8_at (decrypt_loop ctx (chunks packet_len) 0 s).pkt j ≡ (
        if leb (0 * 16) j && ltb j ((0 + chunks packet_len) * 16)
        then bit_xor (u8_at s.pkt j) (keystream ctx s.counter j)
        else u8_at s.pkt j)
    unfolding keystream stream_byte
    looped =
        let e : j / 16 - 0 + 1 ≡ j / 16 + 1 = omega arith in
        loop_byte ctx (chunks packet_len) 0 s j full.0 (chunks_fit packet_len fits) h
        ∙ ap
            (λ k.
              if leb (0 * 16) j && ltb j ((0 + chunks packet_len) * 16)
              then bit_xor (u8_at s.pkt j) (u8_at (stream_block ctx (advance k s.counter)) (j % 16))
              else u8_at s.pkt j)
            e

    looped-lt : u8_at (decrypt_loop ctx (chunks packet_len) 0 s).pkt j < 256
    looped-lt = ground (
      arith,
      looped,
      full.1 j,
      bit_xor-lt 8 (u8_at s.pkt j) (keystream ctx s.counter j),
      keystream-lt ctx s.counter j w,
    )

    masks_lem :
        u8_at
          (combine bit_and
            (packet_len / 16 * 16)
            (mask_bytes (packet_len % 16))
            (decrypt_loop ctx (chunks packet_len) 0 s).pkt)
          j
        ≡ (if leb (packet_len / 16 * 16) j && ltb j (packet_len / 16 * 16 + 16)
            then (if ltb (j - packet_len / 16 * 16) (packet_len % 16)
                then u8_at (decrypt_loop ctx (chunks packet_len) 0 s).pkt j
                else 0)
            else u8_at (decrypt_loop ctx (chunks packet_len) 0 s).pkt j)
    masks_lem =
        let off = packet_len / 16 * 16 in
        let len = packet_len % 16 in
        let pkt = (decrypt_loop ctx (chunks packet_len) 0 s).pkt in
        let sized : length pkt ≡ 1024 = length-decrypt_loop ctx (chunks packet_len) 0 s ∙ full.0 in
        combine_lem bit_and off j (mask_bytes len) pkt (length-mask_bytes len) (omega arith)
        ∙ under_mask off j (u8_at pkt j) len (omega arith) looped-lt

    -- decrypt_quic adds the key stream to the first packet_len bytes, clears those behind them in
    -- the last chunk of sixteen, and leaves the others; packet_len is at most 1024.
    pub decrypt_quic-byte : u8_at (decrypt_quic ctx packet_len s).pkt j ≡ (
        if ltb j packet_len
        then bit_xor (u8_at s.pkt j) (keystream ctx s.counter j)
        else if ltb j (packet_len / 16 * 16 + 16)
        then 0
        else u8_at s.pkt j)
    unfolding decrypt_quic combine_chunk
    decrypt_quic-byte = elim (Bool-cases (ltb 1008 (packet_len / 16 * 16))) [
      | inl whole ↦ rw whole (ground (arith, looped))
      | inr part ↦ rw part (masks_lem ∙ cut_off packet_len j _ _ _ fits looped)
    ]

-- A ciphertext, decrypted twice from one counter.
twice :
    (packet_len j p a b t : ℕ)
    → a ≡ (
        if ltb j packet_len
        then bit_xor p t
        else if ltb j (packet_len / 16 * 16 + 16)
        then 0
        else p)
    → b ≡ (
        if ltb j packet_len
        then bit_xor a t
        else if ltb j (packet_len / 16 * 16 + 16)
        then 0
        else a)
    → j < packet_len
    → b ≡ p
twice packet_len j p a b t e f h = ground (arith, bit_xor_cancel p t)

pub length-decrypt_quic :
    (ctx : AesCtx) (packet_len : ℕ) (s : Decrypting)
    → length (decrypt_quic ctx packet_len s).pkt ≡ length s.pkt
unfolding decrypt_quic combine_chunk
length-decrypt_quic ctx packet_len s = elim (Bool-cases (ltb 1008 (packet_len / 16 * 16))) [
  | inl e ↦ rw e (length-decrypt_loop ctx (chunks packet_len) 0 s)
  | inr e ↦ rw e (
      length-combine bit_and (packet_len / 16 * 16) (mask_bytes (packet_len % 16)) _
      ∙ length-decrypt_loop ctx (chunks packet_len) 0 s)
]

pub decrypt_quic-IsPacket :
    (ctx : AesCtx) (packet_len : ℕ) (s : Decrypting)
    → HasBytes ctx
    → IsPacket s.pkt
    → packet_len ≤ 1024
    → IsPacket (decrypt_quic ctx packet_len s).pkt
decrypt_quic-IsPacket ctx packet_len s w full fits =
    let len : length (decrypt_quic ctx packet_len s).pkt ≡ 1024 =
      length-decrypt_quic ctx packet_len s ∙ full.0 in
    (
      len,
      λ j. elim (Bool-cases (ltb j 1024)) [
        | inl h ↦ ground (
          arith,
          decrypt_quic-byte ctx packet_len s j w full fits (ground arith),
          full.1 j,
          bit_xor-lt 8 (u8_at s.pkt j) (keystream ctx s.counter j),
          keystream-lt ctx s.counter j w,
        )
        | inr h ↦
            omega (arith, get_or_past (decrypt_quic ctx packet_len s).pkt j 0 (ground (arith, len)))
      ],
    )

-- Decrypting what decrypt_quic leaves once more, from the same counter, gives the first packet_len
-- bytes back; so it also encrypts.
pub decrypt_quic_twice :
    (ctx : AesCtx) (packet_len : ℕ) (s : Decrypting) (j : ℕ)
    → HasBytes ctx
    → IsPacket s.pkt
    → packet_len ≤ 1024
    → j < packet_len
    → u8_at
        (decrypt_quic ctx packet_len (record s { pkt = (decrypt_quic ctx packet_len s).pkt })).pkt
        j
      ≡ u8_at s.pkt j
decrypt_quic_twice ctx packet_len s j w full fits h =
    let s' : Decrypting = record s { pkt = (decrypt_quic ctx packet_len s).pkt } in
    twice packet_len j (u8_at s.pkt j) (u8_at s'.pkt j) _ (keystream ctx s.counter j)
      (decrypt_quic-byte ctx packet_len s j w full fits (omega arith))
      (decrypt_quic-byte ctx packet_len s' j w (decrypt_quic-IsPacket ctx packet_len s w full fits)
        fits (omega arith))
      h
