-- ===== src/Quic/Hello.antt =====
-- parse_client_hello_extract_sni (ebpf/ebpf_quic.c): the search for the server name in a decrypted
-- packet. `buf` is scratch->pkt, of 1024 bytes. A read outside of it is a result of its own.
use udpgrm.Base.{
  ℕ, zero, suc, ◌+◌, ◌*◌, ◌^◌, Option, none, some, List, [], ◌∷◌, ℤ, leb, ltb, not, ◌==◌,
  if◌then◌else◌,
}
use udpgrm.Interp.{ierr_load, ierr_sanity}
use udpgrm.Quic.{varint_decode}

-- A value, an error code that is returned, or a read out of bounds.
pub data Result {ℓ} (A : Type ℓ) : Type ℓ where
  value : A → Result A
  error : ℤ → Result A
  fault : Result A

infixl 5 ◌>>=◌
abbrev pub ◌>>=◌ {ℓ κ} : {A : Type ℓ} {B : Type κ} → Result A → (A → Result B) → Result B
value a >>= f = f a
error e >>= f = error e
fault >>= f = fault

-- sizeof(scratch->pkt)
abbrev pub buf_sz : ℕ
buf_sz = 1024

-- sizeof(scratch->sni)
abbrev pub sni_sz : ℕ
sni_sz = 150

-- buf[off]
unfoldable pub read : List ℕ → ℕ → Result ℕ
read [] off = fault
read (x ∷ xs) zero = value x
read (x ∷ xs) (suc off) = read xs off

-- buf_get_u8: the byte and the offset behind it
unfoldable pub buf_get_u8 : List ℕ → ℕ → Result (ℕ × ℕ)
buf_get_u8 buf off =
    if ltb buf_sz (off + 1) then error ierr_load else read buf off >>= λ v. value (v, off + 1)

-- buf_get_u16
unfoldable pub buf_get_u16 : List ℕ → ℕ → Result (ℕ × ℕ)
buf_get_u16 buf off =
    if ltb buf_sz (off + 2)
    then error ierr_load
    else read buf off >>= λ a. (read buf (off + 1) >>= λ b. value (a * 2 ^ 8 + b, off + 2))

-- The n bytes from off on, the first one lowest.
unfoldable pub read_le : ℕ → List ℕ → ℕ → Result ℕ
read_le zero buf off = value 0
read_le (suc n) buf off =
    read buf off >>= λ a. (read_le n buf (off + 1) >>= λ rest. value (a + rest * 2 ^ 8))

unfoldable pub decoded : ℕ → Option (ℕ × ℕ) → Result (ℕ × ℕ)
decoded off none = error ierr_load
decoded off (some (v, len)) = value (v, off + len)

-- The two calls of varint_decode, with the test before them.
unfoldable pub buf_get_varint : List ℕ → ℕ → Result (ℕ × ℕ)
buf_get_varint buf off =
    if ltb buf_sz (off + 8)
    then error ierr_load
    else read_le 8 buf off >>= λ word. decoded off (varint_decode word)

-- The copy of n bytes to scratch->sni.
unfoldable pub copy : ℕ → List ℕ → ℕ → Result (List ℕ)
copy zero buf off = value []
copy (suc n) buf off = read buf off >>= λ a. (copy n buf (off + 1) >>= λ rest. value (a ∷ rest))

abbrev pub smaller : ℕ → ℕ → ℕ
smaller a b = if leb a b then a else b

-- What is found: scratch->sni as far as it is written, and scratch->sni_len.
abbrev pub Sni : Type 0
Sni = Option (List ℕ × ℕ)

-- The extension 0, with the offset of its contents and its length.
unfoldable pub server_name : List ℕ → ℕ → ℕ → Result Sni
server_name buf off ext_len =
    if ltb buf_sz (off + sni_sz)
    then error ierr_load
    else copy (smaller ext_len sni_sz) buf off >>= λ sni. value (some (sni, ext_len))

-- The loop over the extensions, for n rounds.
unfoldable pub extensions : ℕ → List ℕ → ℕ → ℕ → Result Sni
extensions zero buf end off = value none
extensions (suc n) buf end off =
    if leb end off
    then value none
    else buf_get_u16 buf off >>= λ (ext_type, off₁).
        (buf_get_u16 buf off₁ >>= λ (ext_len, off₂).
        if ext_type == 0
        then server_name buf off₂ ext_len
        else extensions n buf end (off₂ + ext_len))

-- From the client random on.
unfoldable pub hello_body : List ℕ → ℕ → Result Sni
hello_body buf off = buf_get_u8 buf (off + 32) >>= λ (session_id_len, off₁).
    (buf_get_u16 buf (off₁ + session_id_len) >>= λ (cipher_suite_len, off₂).
    (buf_get_u8 buf (off₂ + cipher_suite_len) >>= λ (compression_len, off₃).
    (buf_get_u16 buf (off₃ + compression_len) >>= λ (extensions_len, off₄).
    extensions 32 buf (off₄ + extensions_len) off₄)))

-- From the handshake type on.
unfoldable pub handshake : List ℕ → ℕ → Result Sni
handshake buf off = buf_get_u8 buf off >>= λ (handshake_type, off₁).
    if not (handshake_type == 1)
    then error ierr_sanity
    else buf_get_u8 buf off₁ >>= λ (_, off₂).
        (buf_get_u8 buf off₂ >>= λ (_, off₃).
        (buf_get_u8 buf off₃ >>= λ (_, off₄).
        (buf_get_u16 buf off₄ >>= λ (_, off₅). hello_body buf off₅)))

-- parse_client_hello_extract_sni
unfoldable pub parse_client_hello_extract_sni : List ℕ → Result Sni
parse_client_hello_extract_sni buf = buf_get_u8 buf 0 >>= λ (frame_type, off).
    if not (frame_type == 6)
    then value none
    else buf_get_varint buf off >>= λ (_, off₁).
        (buf_get_varint buf off₁ >>= λ (_, off₂). handshake buf off₂)
