-- ===== src/Quic/Nonce.antt =====
-- The nonce of an initial packet, as quic_parse_hdr makes it of the IV (ebpf/ebpf_quic.c).
use udpgrm.Base.{
  ℕ, zero, suc, ◌+◌, ◌-◌, ◌^◌, ◌≤◌, ◌<◌, bit_xor, bit_xor-zero, List, [], ◌∷◌, ◌++◌, take,
  replicate, le32, bswap32, ◌≡◌, refl, ap, ◌∙◌, arith,
}
use udpgrm.Quic.Decrypt.{combine}
use udpgrm.Quic.Header.{nonce, shifted_pno}

-- Zeros change no byte.
combine_zeros :
    (k off : ℕ) (ms pkt : List ℕ)
    → combine bit_xor off (replicate k 0 ++ ms) pkt ≡ combine bit_xor (off + k) ms pkt
unfolding combine
combine_zeros zero off ms pkt = rw (let e : off + 0 ≡ off = omega arith in e) refl
combine_zeros (suc k) zero ms [] = rw (let e : 0 + suc k ≡ suc k = omega arith in e) refl
combine_zeros (suc k) zero ms (b ∷ pkt) =
    rw (let e : 0 + suc k ≡ suc (0 + k) = omega arith in e)
      (λ i. bit_xor-zero b i ∷ combine_zeros k zero ms pkt i)
combine_zeros (suc k) (suc off) ms [] =
    rw (let e : suc off + suc k ≡ suc (off + suc k) = omega arith in e) refl
combine_zeros (suc k) (suc off) ms (b ∷ pkt) =
    rw (let e : suc off + suc k ≡ suc (off + suc k) = omega arith in e)
      (ap (λ t. b ∷ t) (combine_zeros (suc k) off ms pkt))

-- The bytes of the shifted packet number: its own, behind zeros.
shifted_bytes :
    (len pno : ℕ)
    → 1 ≤ len
    → len ≤ 4
    → pno < 2 ^ 32
    → le32 (bswap32 (bswap32 (shifted_pno len pno))) ≡ replicate (4 - len) 0 ++ take len (le32 pno)
unfolding shifted_pno
shifted_bytes zero pno h k l = absurd (omega arith)
shifted_bytes (suc zero) pno h k l = ground arith
shifted_bytes (suc (suc zero)) pno h k l = ground arith
shifted_bytes (suc (suc (suc zero))) pno h k l = ground arith
shifted_bytes (suc (suc (suc (suc zero)))) pno h k l = ground arith
shifted_bytes (suc (suc (suc (suc (suc n))))) pno h k l = absurd (omega arith)

-- The len bytes of the packet number, as they stand in the header, are added to the last ones of the
-- twelve bytes of the IV, for a len from 1 to 4; the four bytes behind it are the number 1.
pub nonce-aligned :
    (iv : List ℕ) (len pno : ℕ)
    → 1 ≤ len
    → len ≤ 4
    → pno < 2 ^ 32
    → nonce iv (bswap32 (shifted_pno len pno))
      ≡ take 12 (combine bit_xor (12 - len) (take len (le32 pno)) iv) ++ (0 ∷ 0 ∷ 0 ∷ 1 ∷ [])
unfolding nonce
nonce-aligned iv len pno h k l =
    let e : 8 + (4 - len) ≡ 12 - len = omega arith in
    ap (λ t. take 12 (combine bit_xor 8 t iv) ++ (0 ∷ 0 ∷ 0 ∷ 1 ∷ [])) (shifted_bytes len pno h k l)
    ∙ ap (λ t. take 12 t ++ (0 ∷ 0 ∷ 0 ∷ 1 ∷ []))
        (combine_zeros (4 - len) 8 (take len (le32 pno)) iv)
    ∙ ap (λ t. take 12 (combine bit_xor t (take len (le32 pno)) iv) ++ (0 ∷ 0 ∷ 0 ∷ 1 ∷ [])) e
