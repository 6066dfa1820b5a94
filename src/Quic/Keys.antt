-- ===== src/Quic/Keys.antt =====
-- The keys of QUIC initial packets (ebpf/ebpf_quic.c): load_const and expand_client_keys_from_dcid,
-- against HKDF as RFC 9001 uses it.
use udpgrm.Base.{
  ℕ, zero, suc, ◌+◌, ◌-◌, ◌/◌, ◌%◌, ◌≤◌, ◌≡◌, refl, sym, ap, ◌∙◌, arith, List, [], ◌∷◌, ◌++◌,
  length, length-append, take, replicate,
}
use mathlib.Core.List.{append_assoc}
use udpgrm.Sha256.{sha256_hmac}
use udpgrm.Sha256.Pad.{take_all}
use udpgrm.Sha256.Hmac.{hmac, in_block, length-hmac, sha256_hmac-eq-hmac}

-- The argument of load_const.
pub data Const : Type 0 where
  initial_salt : Const
  client_in : Const
  quic_key : Const
  quic_iv : Const
  quic_hp : Const

-- The arrays of 20 bytes.
unfoldable pub const_bytes : Const → List ℕ
const_bytes initial_salt =
    0x38 ∷ 0x76 ∷ 0x2c ∷ 0xf7 ∷ 0xf5 ∷ 0x59 ∷ 0x34 ∷ 0xb3 ∷ 0x4d ∷ 0x17 ∷ 0x9a ∷ 0xe6 ∷ 0xa4 ∷ 0xc8
    ∷ 0x0c ∷ 0xad ∷ 0xcc ∷ 0xbb ∷ 0x7f ∷ 0x0a ∷ []
const_bytes client_in =
    0x00 ∷ 0x20 ∷ 0x0f ∷ b't' ∷ b'l' ∷ b's' ∷ b'1' ∷ b'3' ∷ b' ' ∷ b'c' ∷ b'l' ∷ b'i' ∷ b'e' ∷ b'n'
    ∷ b't' ∷ b' ' ∷ b'i' ∷ b'n' ∷ 0x00 ∷ 0x01 ∷ []
const_bytes quic_key =
    0x00 ∷ 0x10 ∷ 0x0e ∷ b't' ∷ b'l' ∷ b's' ∷ b'1' ∷ b'3' ∷ b' ' ∷ b'q' ∷ b'u' ∷ b'i' ∷ b'c' ∷ b' '
    ∷ b'k' ∷ b'e' ∷ b'y' ∷ 0x00 ∷ 0x01 ∷ 0x00 ∷ []
const_bytes quic_iv =
    0x00 ∷ 0x0c ∷ 0x0d ∷ b't' ∷ b'l' ∷ b's' ∷ b'1' ∷ b'3' ∷ b' ' ∷ b'q' ∷ b'u' ∷ b'i' ∷ b'c' ∷ b' '
    ∷ b'i' ∷ b'v' ∷ 0x00 ∷ 0x01 ∷ 0x00 ∷ 0x00 ∷ []
const_bytes quic_hp =
    0x00 ∷ 0x10 ∷ 0x0d ∷ b't' ∷ b'l' ∷ b's' ∷ b'1' ∷ b'3' ∷ b' ' ∷ b'q' ∷ b'u' ∷ b'i' ∷ b'c' ∷ b' '
    ∷ b'h' ∷ b'p' ∷ 0x00 ∷ 0x01 ∷ 0x00 ∷ 0x00 ∷ []

-- load_const: the bytes behind the first 20 are cleared.
unfoldable pub load_const : Const → List ℕ
unfolding const_bytes
load_const i = const_bytes i ++ replicate 44 0

-- scratch->quic_hp, quic_key and quic_iv, in bytes.
pub record QuicKeys : Type 0 where
  pub hp : List ℕ
  pub key : List ℕ
  pub iv : List ℕ

-- The keys from client_initial_secret; each call leaves `secret` as it is.
unfoldable pub expand_client_keys : List ℕ → QuicKeys
expand_client_keys secret =
    let (secret₁, hp) = sha256_hmac secret (load_const quic_hp) 18 in
    let (secret₂, key) = sha256_hmac secret₁ (load_const quic_key) 19 in
    let (_, iv) = sha256_hmac secret₂ (load_const quic_iv) 18 in
    record { hp = take 16 hp; key = take 16 key; iv = take 12 iv ++ replicate 4 0 }

-- expand_client_keys_from_dcid, of the 20 bytes of the DCID and its length.
unfoldable pub expand_client_keys_from_dcid : List ℕ → ℕ → QuicKeys
unfolding expand_client_keys
expand_client_keys_from_dcid user_dcid dcid_len =
    let (_, initial_secret) =
      sha256_hmac (load_const initial_salt) (user_dcid ++ replicate 44 0) dcid_len in
    let (_, client_initial_secret) = sha256_hmac initial_secret (load_const client_in) 20 in
    expand_client_keys client_initial_secret

-- A secret of up to 64 bytes as the key of HMAC.
abbrev pub padded : List ℕ → List ℕ
padded secret = secret ++ replicate (64 - length secret) 0

-- HKDF-Extract of RFC 5869.
unfoldable pub hkdf_extract : List ℕ → List ℕ → List ℕ
hkdf_extract salt ikm = hmac (padded salt) ikm

-- HKDF-Expand-Label of RFC 8446 with an empty context, for at most 32 bytes.
unfoldable pub hkdf_expand_label : List ℕ → List ℕ → ℕ → List ℕ
hkdf_expand_label secret label len =
    let full = b't' ∷ b'l' ∷ b's' ∷ b'1' ∷ b'3' ∷ b' ' ∷ label in
    let info = len / 256 ∷ len % 256 ∷ length full ∷ full ++ (0 ∷ []) in
    take len (hmac (padded secret) (info ++ (1 ∷ [])))

-- The salt of QUIC version 1, as RFC 9001, 5.2 prints it.
abbrev pub rfc9001_salt : List ℕ
rfc9001_salt =
    0x38 ∷ 0x76 ∷ 0x2c ∷ 0xf7 ∷ 0xf5 ∷ 0x59 ∷ 0x34 ∷ 0xb3 ∷ 0x4d ∷ 0x17 ∷ 0x9a ∷ 0xe6 ∷ 0xa4 ∷ 0xc8
    ∷ 0x0c ∷ 0xad ∷ 0xcc ∷ 0xbb ∷ 0x7f ∷ 0x0a ∷ []

-- The client's initial secret of RFC 9001, 5.2.
unfoldable pub client_secret : List ℕ → List ℕ
client_secret dcid =
    hkdf_expand_label (hkdf_extract rfc9001_salt dcid)
      (b'c' ∷ b'l' ∷ b'i' ∷ b'e' ∷ b'n' ∷ b't' ∷ b' ' ∷ b'i' ∷ b'n' ∷ []) 32

abbrev quic : List ℕ → List ℕ
quic rest = b'q' ∷ b'u' ∷ b'i' ∷ b'c' ∷ b' ' ∷ rest

-- The keys of RFC 9001, 5.1; four bytes of zeros stand behind the IV.
unfoldable pub initial_keys : List ℕ → QuicKeys
unfolding client_secret hkdf_expand_label
initial_keys dcid =
    let secret = client_secret dcid in
    record {
      hp = hkdf_expand_label secret (quic (b'h' ∷ b'p' ∷ [])) 16;
      key = hkdf_expand_label secret (quic (b'k' ∷ b'e' ∷ b'y' ∷ [])) 16;
      iv = hkdf_expand_label secret (quic (b'i' ∷ b'v' ∷ [])) 12 ++ replicate 4 0;
    }

take-append_le {ℓ} :
    {A : Type ℓ} (n : ℕ) (xs ys : List A) → n ≤ length xs → take n (xs ++ ys) ≡ take n xs
take-append_le zero xs ys h = refl
take-append_le (suc n) [] ys h = absurd (omega arith)
take-append_le (suc n) (x ∷ xs) ys h = ap (λ t. x ∷ t) (take-append_le n xs ys (omega arith))

replicate-append {ℓ} :
    {A : Type ℓ} (m n : ℕ) (a : A) → replicate m a ++ replicate n a ≡ replicate (m + n) a
replicate-append zero n a = ap (λ k. replicate k a) (omega arith)
replicate-append (suc m) n a =
    rw (let e : suc m + n ≡ suc (m + n) = omega arith in e)
      (ap (λ t. a ∷ t) (replicate-append m n a))

-- The secret as it stands in a block after a call of sha256_hmac.
abbrev held : List ℕ → List ℕ
held secret = secret ++ replicate 32 0

-- One call with a held secret of 32 bytes.
held-sha256_hmac :
    (secret m : List ℕ)
    → length secret ≡ 32
    → length m ≤ 55
    → sha256_hmac (held secret) (in_block m) (length m)
      ≡ (held secret, held (hmac (padded secret) m))
held-sha256_hmac secret m e h =
    let same : held secret ≡ padded secret = ap (λ n. secret ++ replicate (64 - n) 0) (sym e) in
    let full : length (held secret) ≡ 64 = omega (arith, length-append secret (replicate 32 0)) in
    sha256_hmac-eq-hmac (held secret) m full h ∙ ap (λ t. (held secret, held (hmac t m))) same

module _ (secret : List ℕ) (e : length secret ≡ 32) where
  held_hp :
      sha256_hmac (held secret) (load_const quic_hp) 18
      ≡ (held secret, held (hmac (padded secret) (take 18 (const_bytes quic_hp))))
  unfolding load_const
  held_hp = held-sha256_hmac secret (take 18 (const_bytes quic_hp)) e (omega arith)

  held_key :
      sha256_hmac (held secret) (load_const quic_key) 19
      ≡ (held secret, held (hmac (padded secret) (take 19 (const_bytes quic_key))))
  unfolding load_const
  held_key = held-sha256_hmac secret (take 19 (const_bytes quic_key)) e (omega arith)

  held_iv :
      sha256_hmac (held secret) (load_const quic_iv) 18
      ≡ (held secret, held (hmac (padded secret) (take 18 (const_bytes quic_iv))))
  unfolding load_const
  held_iv = held-sha256_hmac secret (take 18 (const_bytes quic_iv)) e (omega arith)

  held_client :
      sha256_hmac (held secret) (load_const client_in) 20
      ≡ (held secret, held (hmac (padded secret) (const_bytes client_in)))
  unfolding load_const
  held_client = held-sha256_hmac secret (const_bytes client_in) e (omega arith)

  cut :
      (n : ℕ) (m : List ℕ)
      → n ≤ 32
      → take n (held (hmac (padded secret) m)) ≡ take n (hmac (padded secret) m)
  cut n m h = take-append_le n _ _ (omega (arith, length-hmac (padded secret) m))

  expand_held : expand_client_keys (held secret) ≡ record {
    hp = hkdf_expand_label secret (quic (b'h' ∷ b'p' ∷ [])) 16;
    key = hkdf_expand_label secret (quic (b'k' ∷ b'e' ∷ b'y' ∷ [])) 16;
    iv = hkdf_expand_label secret (quic (b'i' ∷ b'v' ∷ [])) 12 ++ replicate 4 0;
  }
  unfolding expand_client_keys hkdf_expand_label const_bytes
  expand_held =
      simp (held_hp, held_key, held_iv)
        (λ i. record {
          hp = cut 16 (take 18 (const_bytes quic_hp)) (omega arith) i;
          key = cut 16 (take 19 (const_bytes quic_key)) (omega arith) i;
          iv = cut 12 (take 18 (const_bytes quic_iv)) (omega arith) i ++ replicate 4 0;
        })

-- The first call, with the salt as the key and the DCID as the message.
salted :
    (dcid : List ℕ)
    → length dcid ≤ 20
    → sha256_hmac
        (load_const initial_salt)
        ((dcid ++ replicate (20 - length dcid) 0) ++ replicate 44 0)
        (length dcid)
      ≡ (load_const initial_salt, held (hkdf_extract rfc9001_salt dcid))
unfolding load_const hkdf_extract const_bytes
salted dcid h =
    let sum : 20 - length dcid + 44 ≡ 64 - length dcid = omega arith in
    let zeros : replicate {A = ℕ} (20 - length dcid) 0 ++ replicate 44 0
        ≡ replicate (64 - length dcid) 0 =
      replicate-append (20 - length dcid) 44 0 ∙ ap (λ n. replicate n 0) sum in
    ap (λ t. sha256_hmac (rfc9001_salt ++ replicate 44 0) t (length dcid))
      (append_assoc dcid _ _ ∙ ap (λ t. dcid ++ t) zeros)
    ∙ sha256_hmac-eq-hmac (rfc9001_salt ++ replicate 44 0) dcid refl (omega arith)

-- The keys, for a DCID of at most 20 bytes with zeros behind it, are those that RFC 9001 derives by
-- HKDF from the DCID, the salt of QUIC version 1 and its labels, each written out here.
pub expand_client_keys_from_dcid-eq-initial_keys :
    (dcid : List ℕ)
    → length dcid ≤ 20
    → expand_client_keys_from_dcid (dcid ++ replicate (20 - length dcid) 0) (length dcid)
      ≡ initial_keys dcid
unfolding expand_client_keys_from_dcid initial_keys client_secret
expand_client_keys_from_dcid-eq-initial_keys dcid h =
    let s = hkdf_extract rfc9001_salt dcid in
    let es : length s ≡ 32 = unfold hkdf_extract in length-hmac _ dcid in
    let c = hmac (padded s) (const_bytes client_in) in
    let ec : length c ≡ 32 = length-hmac _ _ in
    let whole : c ≡ client_secret dcid =
      unfold hkdf_expand_label const_bytes in sym (take_all 32 c (sym ec)) in
    simp (salted dcid h, held_client s es)
      (expand_held c ec
        ∙ ap
            (λ t. record {
              hp = hkdf_expand_label t (quic (b'h' ∷ b'p' ∷ [])) 16;
              key = hkdf_expand_label t (quic (b'k' ∷ b'e' ∷ b'y' ∷ [])) 16;
              iv = hkdf_expand_label t (quic (b'i' ∷ b'v' ∷ [])) 12 ++ replicate 4 0;
            })
            whole)
