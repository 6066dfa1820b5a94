-- ===== src/Examples/Sha256.antt =====
-- SHA-256 and HMAC at published vectors.
use udpgrm.Base.{ℕ, ◌≡◌, refl, arith, List, [], ◌∷◌, ◌++◌, length, replicate}
use udpgrm.Sha256.{sha256_hmac, sha256_calc_chunk, sha256_read}
use udpgrm.Sha256.Pad.{sha256}
use udpgrm.Sha256.Hmac.{hmac, in_block, sha256_hmac-eq-hmac}

-- "abc"
abc_digest :
    sha256 (0x61 ∷ 0x62 ∷ 0x63 ∷ [])
    ≡ 0xba ∷ 0x78 ∷ 0x16 ∷ 0xbf ∷ 0x8f ∷ 0x01 ∷ 0xcf ∷ 0xea ∷ 0x41 ∷ 0x41 ∷ 0x40 ∷ 0xde ∷ 0x5d
      ∷ 0xae ∷ 0x22 ∷ 0x23 ∷ 0xb0 ∷ 0x03 ∷ 0x61 ∷ 0xa3 ∷ 0x96 ∷ 0x17 ∷ 0x7a ∷ 0x9c ∷ 0xb4 ∷ 0x10
      ∷ 0xff ∷ 0x61 ∷ 0xf2 ∷ 0x00 ∷ 0x15 ∷ 0xad ∷ []
unfolding sha256 sha256_calc_chunk sha256_read
abc_digest = refl

-- Twenty bytes 0x0b, in a block.
abbrev vector_key : List ℕ
vector_key = replicate 20 0x0b ++ replicate 44 0

-- "Hi There"
abbrev vector_message : List ℕ
vector_message = 0x48 ∷ 0x69 ∷ 0x20 ∷ 0x54 ∷ 0x68 ∷ 0x65 ∷ 0x72 ∷ 0x65 ∷ []

hmac_vector :
    hmac vector_key vector_message
    ≡ 0xb0 ∷ 0x34 ∷ 0x4c ∷ 0x61 ∷ 0xd8 ∷ 0xdb ∷ 0x38 ∷ 0x53 ∷ 0x5c ∷ 0xa8 ∷ 0xaf ∷ 0xce ∷ 0xaf
      ∷ 0x0b ∷ 0xf1 ∷ 0x2b ∷ 0x88 ∷ 0x1d ∷ 0xc2 ∷ 0x00 ∷ 0xc9 ∷ 0x83 ∷ 0x3d ∷ 0xa7 ∷ 0x26 ∷ 0xe9
      ∷ 0x37 ∷ 0x6c ∷ 0x2e ∷ 0x32 ∷ 0xcf ∷ 0xf7 ∷ []
unfolding hmac sha256 sha256_calc_chunk sha256_read
hmac_vector = refl

sha256_hmac-eq-hmac_example :
    sha256_hmac vector_key (in_block vector_message) (length vector_message)
    ≡ (vector_key, hmac vector_key vector_message ++ replicate 32 0)
sha256_hmac-eq-hmac_example = sha256_hmac-eq-hmac vector_key vector_message refl (omega arith)
