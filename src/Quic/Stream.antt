-- ===== src/Quic/Stream.antt =====
-- What decrypt_quic does to each byte (ebpf/ebpf_quic.c).
use udpgrm.Base.{
  ℕ, zero, suc, ◌+◌, ◌-◌, ◌*◌, ◌/◌, ◌%◌, ◌≤◌, ◌<◌, bit_xor, false, ltb, leb, ◌&&◌, if◌then◌else◌,
  List, [], ◌∷◌, u8_at, length, Bool-cases, inl, inr, ◌≡◌, refl, sym, ap, ◌∙◌, arith,
}
use udpgrm.Aes.{AesCtx}
use udpgrm.Quic.{AesKey, increment_counter}
use udpgrm.Quic.Decrypt.{
  combine, combine_chunk, Decrypting, stream_block, do_decrypt_quic_loop, decrypt_loop, block_bytes,
}

pub length-combine :
    (f : ℕ → ℕ → ℕ) (off : ℕ) (ms pkt : List ℕ) → length (combine f off ms pkt) ≡ length pkt
unfolding combine
length-combine f zero [] pkt = refl
length-combine f zero (m ∷ ms) [] = refl
length-combine f zero (m ∷ ms) (b ∷ pkt) = ap suc (length-combine f zero ms pkt)
length-combine f (suc off) ms [] = refl
length-combine f (suc off) ms (b ∷ pkt) = ap suc (length-combine f off ms pkt)

-- A byte among those that are combined, and any other.
combine_in :
    (f : ℕ → ℕ → ℕ) (off i : ℕ) (ms pkt : List ℕ)
    → i < length ms
    → off + i < length pkt
    → u8_at (combine f off ms pkt) (off + i) ≡ f (u8_at pkt (off + i)) (u8_at ms i)
unfolding combine
combine_in f zero i [] pkt h k = absurd (omega arith)
combine_in f zero i (m ∷ ms) [] h k = absurd (omega arith)
combine_in f zero zero (m ∷ ms) (b ∷ pkt) h k = refl
combine_in f zero (suc i) (m ∷ ms) (b ∷ pkt) h k =
    rw (let e : 0 + suc i ≡ suc (0 + i) = omega arith in e)
      (combine_in f zero i ms pkt (omega arith) (omega arith))
combine_in f (suc off) i ms [] h k = absurd (omega arith)
combine_in f (suc off) i ms (b ∷ pkt) h k =
    rw (let e : suc off + i ≡ suc (off + i) = omega arith in e)
      (combine_in f off i ms pkt h (omega arith))

combine_before :
    (f : ℕ → ℕ → ℕ) (off j : ℕ) (ms pkt : List ℕ)
    → j < off
    → u8_at (combine f off ms pkt) j ≡ u8_at pkt j
unfolding combine
combine_before f zero j ms pkt h = absurd (omega arith)
combine_before f (suc off) j ms [] h = refl
combine_before f (suc off) zero ms (b ∷ pkt) h = refl
combine_before f (suc off) (suc j) ms (b ∷ pkt) h = combine_before f off j ms pkt (omega arith)

combine_behind :
    (f : ℕ → ℕ → ℕ) (off j : ℕ) (ms pkt : List ℕ)
    → off + length ms ≤ j
    → u8_at (combine f off ms pkt) j ≡ u8_at pkt j
unfolding combine
combine_behind f zero j [] pkt h = refl
combine_behind f zero j (m ∷ ms) [] h = refl
combine_behind f zero zero (m ∷ ms) (b ∷ pkt) h = absurd (omega arith)
combine_behind f zero (suc j) (m ∷ ms) (b ∷ pkt) h = combine_behind f zero j ms pkt (omega arith)
combine_behind f (suc off) j ms [] h = refl
combine_behind f (suc off) zero ms (b ∷ pkt) h = absurd (omega arith)
combine_behind f (suc off) (suc j) ms (b ∷ pkt) h = combine_behind f off j ms pkt (omega arith)

-- The three cases at once, for a chunk of sixteen bytes.
pub combine_lem :
    (f : ℕ → ℕ → ℕ) (off j : ℕ) (ms pkt : List ℕ)
    → length ms ≡ 16
    → j < length pkt
    → u8_at (combine f off ms pkt) j ≡ (
        if leb off j && ltb j (off + 16) then f (u8_at pkt j) (u8_at ms (j - off)) else u8_at pkt j)
combine_lem f off j ms pkt e h = elim (Bool-cases (leb off j)) [
  | inl after ↦ elim (Bool-cases (ltb j (off + 16))) [
    | inl within ↦
        rw (after, within)
          (let at : off + (j - off) ≡ j = ground arith in
            ap (u8_at (combine f off ms pkt)) (sym at)
            ∙ combine_in f off (j - off) ms pkt (ground arith) (ground arith)
            ∙ ap (λ t. f (u8_at pkt t) (u8_at ms (j - off))) at)
    | inr behind ↦ rw (after, behind) (combine_behind f off j ms pkt (ground arith))
  ]
  | inr before ↦ rw before (combine_before f off j ms pkt (ground arith))
]

-- The counter after n increments.
unfoldable pub advance : ℕ → AesKey → AesKey
advance zero counter = counter
advance (suc n) counter = advance n (increment_counter counter)

length-stream_block : (ctx : AesCtx) (c : AesKey) → length (stream_block ctx c) ≡ 16
unfolding stream_block block_bytes
length-stream_block ctx c = refl

-- The byte of the key stream for byte j, k chunks after the counter.
unfoldable pub stream_byte : AesCtx → AesKey → ℕ → ℕ → ℕ
stream_byte ctx counter k j = u8_at (stream_block ctx (advance k counter)) (j % 16)

-- The round for chunk `index` and the later rounds, at byte j: u is the key stream's byte of the
-- round, t that of the later rounds, v that of the whole loop.
join :
    (index n j p a t u v : ℕ)
    → a ≡ (if leb (index * 16) j && ltb j (index * 16 + 16) then bit_xor p u else p)
    → (index * 16 ≤ j → j < index * 16 + 16 → u ≡ v)
    → (index * 16 + 16 ≤ j → t ≡ v)
    → (if leb ((index + 1) * 16) j && ltb j ((index + 1 + n) * 16) then bit_xor a t else a)
      ≡ (if leb (index * 16) j && ltb j ((index + suc n) * 16) then bit_xor p v else p)
join index n j p a t u v e first later = elim (Bool-cases (leb (index * 16) j)) [
  | inl after ↦ elim (Bool-cases (ltb j (index * 16 + 16))) [
    | inl within ↦ ground (arith, first (ground arith) (ground arith))
    | inr behind ↦ ground (arith, later (ground arith))
  ]
  | inr before ↦ ground arith
]

-- The key stream's byte in the first chunk, and in the later ones.
stream_first :
    (ctx : AesCtx) (c : AesKey) (index j : ℕ)
    → index * 16 ≤ j
    → j < index * 16 + 16
    → u8_at (stream_block ctx (increment_counter c)) (j - index * 16)
      ≡ stream_byte ctx c (j / 16 - index + 1) j
unfolding stream_byte advance
stream_first ctx c index j h k =
    let a : j - index * 16 ≡ j % 16 = omega arith in
    let b : j / 16 - index + 1 ≡ suc zero = omega arith in rw (a, b) refl

stream_later :
    (ctx : AesCtx) (c : AesKey) (index j : ℕ)
    → index * 16 + 16 ≤ j
    → stream_byte ctx (increment_counter c) (j / 16 - (index + 1) + 1) j
      ≡ stream_byte ctx c (j / 16 - index + 1) j
unfolding stream_byte advance
stream_later ctx c index j h =
    let a : j / 16 - index + 1 ≡ suc (j / 16 - (index + 1) + 1) = omega arith in rw a refl

-- The bytes of the chunks that the loop goes through, and the others.
pub loop_byte :
    (ctx : AesCtx) (n index : ℕ) (s : Decrypting) (j : ℕ)
    → length s.pkt ≡ 1024
    → (index + n) * 16 ≤ 1024
    → j < 1024
    → u8_at (decrypt_loop ctx n index s).pkt j ≡ (
        if leb (index * 16) j && ltb j ((index + n) * 16)
        then bit_xor (u8_at s.pkt j) (stream_byte ctx s.counter (j / 16 - index + 1) j)
        else u8_at s.pkt j)
unfolding decrypt_loop do_decrypt_quic_loop combine_chunk
loop_byte ctx zero index s j full fits h = elim (Bool-cases (leb (index * 16) j)) [
  | inl e ↦ elim (Bool-cases (ltb j ((index + 0) * 16))) [
    | inl f ↦ absurd (ground arith)
    | inr f ↦ rw (e, f) refl
  ]
  | inr e ↦ rw e refl
]
loop_byte ctx (suc n) index s j full fits h =
    let inside : ltb 1024 (index * 16 + 16) ≡ false = ground arith in
    let c = increment_counter s.counter in
    let tmp = stream_block ctx c in
    let s' : Decrypting = combine_chunk bit_xor (index * 16) tmp (record s { counter = c }) in
    let ih =
      loop_byte ctx n (index + 1) s' j (length-combine bit_xor (index * 16) tmp s.pkt ∙ full)
        (omega arith) h in
    let now =
      combine_lem bit_xor (index * 16) j tmp s.pkt (length-stream_block ctx c) (omega arith) in
    rw inside (
      ih
      ∙ join index n j (u8_at s.pkt j) (u8_at s'.pkt j) _ _ _ now
          (stream_first ctx s.counter index j) (stream_later ctx s.counter index j))

pub length-decrypt_loop :
    (ctx : AesCtx) (n index : ℕ) (s : Decrypting)
    → length (decrypt_loop ctx n index s).pkt ≡ length s.pkt
unfolding decrypt_loop do_decrypt_quic_loop combine_chunk
length-decrypt_loop ctx zero index s = refl
length-decrypt_loop ctx (suc n) index s = elim (Bool-cases (ltb 1024 (index * 16 + 16))) [
  | inl e ↦ rw e refl
  | inr e ↦
      rw e (length-decrypt_loop ctx n (index + 1) _ ∙ length-combine bit_xor (index * 16) _ s.pkt)
]
