-- ===== src/Sha256/Hmac.antt =====
-- sha256_hmac (ebpf/ebpf_sha256.c) against the definition of HMAC in RFC 2104.
use udpgrm.Base.{
  ℕ, suc, ◌+◌, ◌-◌, ◌≤◌, ltb, bit_xor, bit_xor_assoc, bit_xor-zero, false, ◌≡◌, refl, sym, ap, ◌∙◌,
  arith, List, [], ◌∷◌, ◌++◌, length, replicate,
}
use udpgrm.Sha256.{
  sha256_init, sha256_calc_chunk, sha256_final, sha256_read, sha256_hmac, xor_all, keyed,
  final_state, read_block,
}
use udpgrm.Sha256.Pad.{sha256, sha256_two, last_block}

-- H((K ⊕ opad) ‖ H((K ⊕ ipad) ‖ m)), for a key of one block.
unfoldable pub hmac : List ℕ → List ℕ → List ℕ
unfolding xor_all
hmac key m = sha256 (xor_all 0x5c key ++ sha256 (xor_all 0x36 key ++ m))

-- A short message in a block of zeros.
abbrev pub in_block : List ℕ → List ℕ
in_block m = m ++ replicate (64 - length m) 0

-- sha256_final is reached with a length that it accepts.
keyed-eq-sha256 :
    (key m : List ℕ)
    → length key ≡ 64
    → length m ≤ 55
    → keyed key (in_block m) (length m) ≡ sha256 (key ++ m) ++ replicate 32 0
unfolding keyed sha256_final final_state read_block
keyed-eq-sha256 key m k h =
    let fits : ltb 55 (length m) ≡ false = ground arith in
    rw fits (
      ap
        (λ t.
          sha256_read (sha256_calc_chunk (sha256_calc_chunk sha256_init key) t) ++ replicate 32 0)
        (last_block m (length m + 64) h)
      ∙ ap (λ t. t ++ replicate 32 0) (sym (sha256_two key m k h)))

xor_all_twice : (a b : ℕ) (key : List ℕ) → xor_all b (xor_all a key) ≡ xor_all (bit_xor a b) key
unfolding xor_all
xor_all_twice a b [] = refl
xor_all_twice a b (x ∷ key) = λ i. bit_xor_assoc x a b i ∷ xor_all_twice a b key i

xor_all_zero : (key : List ℕ) → xor_all 0 key ≡ key
unfolding xor_all
xor_all_zero [] = refl
xor_all_zero (x ∷ key) = λ i. bit_xor-zero x i ∷ xor_all_zero key i

length-xor_all : (a : ℕ) (key : List ℕ) → length (xor_all a key) ≡ length key
unfolding xor_all
length-xor_all a [] = refl
length-xor_all a (x ∷ key) = ap suc (length-xor_all a key)

length-sha256 : (m : List ℕ) → length (sha256 m) ≡ 32
unfolding sha256 sha256_read
length-sha256 m = refl

-- The outer half, on the digest of the inner one.
keyed-digest :
    (key m : List ℕ)
    → length key ≡ 64
    → keyed key (sha256 m ++ replicate 32 0) 32 ≡ sha256 (key ++ sha256 m) ++ replicate 32 0
keyed-digest key m k =
    let e = length-sha256 m in
    sym (ap (λ n. keyed key (sha256 m ++ replicate (64 - n) 0) n) e)
    ∙ keyed-eq-sha256 key (sha256 m) k (omega (arith, e))

-- sha256_hmac leaves the HMAC of the message in the block, and the key as it was.
pub sha256_hmac-eq-hmac :
    (key m : List ℕ)
    → length key ≡ 64
    → length m ≤ 55
    → sha256_hmac key (in_block m) (length m) ≡ (key, hmac key m ++ replicate 32 0)
unfolding sha256_hmac hmac
sha256_hmac-eq-hmac key m k h =
    let k_ipad = xor_all 0x36 key in
    let opad : xor_all (bit_xor 0x36 0x5c) k_ipad ≡ xor_all 0x5c key =
      xor_all_twice 0x36 (bit_xor 0x36 0x5c) key in
    let back : xor_all 0x5c (xor_all 0x5c key) ≡ key =
      xor_all_twice 0x5c 0x5c key ∙ xor_all_zero key in
    let inner = keyed-eq-sha256 k_ipad m (length-xor_all 0x36 key ∙ k) h in
    let outer = keyed-digest (xor_all 0x5c key) (k_ipad ++ m) (length-xor_all 0x5c key ∙ k) in
    λ i. (
      (ap (xor_all 0x5c) opad ∙ back) i,
      (ap (λ t. keyed t (keyed k_ipad (in_block m) (length m)) 32) opad
            ∙ ap (λ t. keyed (xor_all 0x5c key) t 32) inner
            ∙ outer)
          i,
    )

pub length-hmac : (key m : List ℕ) → length (hmac key m) ≡ 32
unfolding hmac
length-hmac key m = length-sha256 _
