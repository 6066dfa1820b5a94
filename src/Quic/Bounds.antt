-- ===== src/Quic/Bounds.antt =====
-- parse_client_hello_extract_sni stays in its buffers (ebpf/ebpf_quic.c).
use udpgrm.Base.{
  ℕ, zero, suc, ◌+◌, ◌≤◌, ◌<◌, ◌≡◌, refl, ap, not, Option, none, some, List, [], ◌∷◌, leb, ltb,
  ◌==◌, length, if_cases, arith,
}
use udpgrm.Quic.{varint_decode}
use udpgrm.Quic.Hello.{
  Result, value, error, fault, ◌>>=◌, buf_sz, sni_sz, read, buf_get_u8, buf_get_u16, read_le,
  decoded, buf_get_varint, copy, smaller, Sni, server_name, extensions, hello_body, handshake,
  parse_client_hello_extract_sni,
}

-- No read out of bounds, and `P` of the value.
abbrev pub Good {ℓ} : {A : Type ℓ} → (A → Type 0) → Result A → Type 0
Good P (value a) = P a
Good P (error e) = Unit
Good P fault = ⊥

abbrev pub Any {ℓ} : {A : Type ℓ} → A → Type 0
Any a = Unit

pub bind-Good :
    {A B : Type 0} (P : A → Type 0) (Q : B → Type 0) (r : Result A) (f : A → Result B)
    → Good P r
    → ((a : A) → P a → Good Q (f a))
    → Good Q (r >>= f)
bind-Good P Q (value a) f h k = k a h
bind-Good P Q (error e) f h k = tt
bind-Good P Q fault f h k = absurd h

pub read-Good : (buf : List ℕ) (off : ℕ) → off < length buf → Good Any (read buf off)
unfolding read
read-Good [] off h = absurd (omega arith)
read-Good (x ∷ xs) zero h = tt
read-Good (x ∷ xs) (suc off) h = read-Good xs off (omega arith)

-- The copied part is as long as asked for.
pub copy-Good :
    (n : ℕ) (buf : List ℕ) (off : ℕ)
    → off + n ≤ length buf
    → Good (λ (xs : List ℕ). length xs ≡ n) (copy n buf off)
unfolding copy
copy-Good zero buf off h = refl
copy-Good (suc n) buf off h =
    bind-Good Any _ (read buf off) _ (read-Good buf off (omega arith)) (λ a _.
      bind-Good _ _ (copy n buf (off + 1)) _ (copy-Good n buf (off + 1) (omega arith))
        (λ rest e. ap suc e))

pub read_le-Good :
    (n : ℕ) (buf : List ℕ) (off : ℕ) → off + n ≤ length buf → Good Any (read_le n buf off)
unfolding read_le
read_le-Good zero buf off h = tt
read_le-Good (suc n) buf off h =
    bind-Good Any _ (read buf off) _ (read-Good buf off (omega arith)) (λ a _.
      bind-Good Any _ (read_le n buf (off + 1)) _ (read_le-Good n buf (off + 1) (omega arith))
        (λ rest _. tt))

-- The name that is copied fits scratch->sni, and has the length of the extension up to its size.
abbrev pub Fits : Sni → Type 0
Fits none = Unit
Fits (some (sni, sni_len)) = (length sni ≤ 150) × (length sni ≡ smaller sni_len 150)

module _ (buf : List ℕ) (full : length buf ≡ 1024) where
  buf_get_u8-Good : (off : ℕ) → Good Any (buf_get_u8 buf off)
  unfolding buf_get_u8
  buf_get_u8-Good off =
      if_cases (Good Any) (ltb buf_sz (off + 1)) _ _ (λ _. tt)
        (λ e. bind-Good Any _ (read buf off) _ (read-Good buf off (ground arith)) (λ v _. tt))

  buf_get_u16-Good : (off : ℕ) → Good Any (buf_get_u16 buf off)
  unfolding buf_get_u16
  buf_get_u16-Good off =
      if_cases (Good Any) (ltb buf_sz (off + 2)) _ _ (λ _. tt)
        (λ e. bind-Good Any _ (read buf off) _ (read-Good buf off (ground arith)) (λ a _.
          bind-Good Any _ (read buf (off + 1)) _ (read-Good buf (off + 1) (ground arith))
            (λ b _. tt)))

  decoded-Good : (off : ℕ) (o : Option (ℕ × ℕ)) → Good Any (decoded off o)
  unfolding decoded
  decoded-Good off none = tt
  decoded-Good off (some (v, len)) = tt

  buf_get_varint-Good : (off : ℕ) → Good Any (buf_get_varint buf off)
  unfolding buf_get_varint
  buf_get_varint-Good off =
      if_cases (Good Any) (ltb buf_sz (off + 8)) _ _ (λ _. tt)
        (λ e.
          bind-Good Any _ (read_le 8 buf off) _ (read_le-Good 8 buf off (ground arith))
            (λ word _. decoded-Good off (varint_decode word)))

  server_name-Good : (off ext_len : ℕ) → Good Fits (server_name buf off ext_len)
  unfolding server_name
  server_name-Good off ext_len =
      if_cases (Good Fits) (ltb buf_sz (off + sni_sz)) _ _ (λ _. tt)
        (λ e.
          bind-Good _ Fits (copy (smaller ext_len sni_sz) buf off) _
            (copy-Good (smaller ext_len sni_sz) buf off (ground arith))
            (λ sni h. (ground arith, h)))

  extensions-Good : (n end off : ℕ) → Good Fits (extensions n buf end off)
  unfolding extensions
  extensions-Good zero end off = tt
  extensions-Good (suc n) end off =
      if_cases (Good Fits) (leb end off) _ _ (λ _. tt)
        (λ _. bind-Good Any Fits (buf_get_u16 buf off) _ (buf_get_u16-Good off) (λ (t, off₁) _.
          bind-Good Any Fits (buf_get_u16 buf off₁) _ (buf_get_u16-Good off₁) (λ (len, off₂) _.
            if_cases (Good Fits) (t == 0) _ _ (λ _. server_name-Good off₂ len)
              (λ _. extensions-Good n end (off₂ + len)))))

  hello_body-Good : (off : ℕ) → Good Fits (hello_body buf off)
  unfolding hello_body
  hello_body-Good off =
      bind-Good Any Fits (buf_get_u8 buf (off + 32)) _ (buf_get_u8-Good (off + 32))
        (λ (session, off₁) _.
          bind-Good Any Fits (buf_get_u16 buf (off₁ + session)) _
            (buf_get_u16-Good (off₁ + session))
            (λ (ciphers, off₂) _.
              bind-Good Any Fits (buf_get_u8 buf (off₂ + ciphers)) _
                (buf_get_u8-Good (off₂ + ciphers))
                (λ (methods, off₃) _.
                  bind-Good Any Fits (buf_get_u16 buf (off₃ + methods)) _
                    (buf_get_u16-Good (off₃ + methods))
                    (λ (len, off₄) _. extensions-Good 32 (off₄ + len) off₄))))

  handshake-Good : (off : ℕ) → Good Fits (handshake buf off)
  unfolding handshake
  handshake-Good off =
      bind-Good Any Fits (buf_get_u8 buf off) _ (buf_get_u8-Good off) (λ (t, off₁) _.
        if_cases (Good Fits) (not (t == 1)) _ _ (λ _. tt)
          (λ _. bind-Good Any Fits (buf_get_u8 buf off₁) _ (buf_get_u8-Good off₁) (λ (_, off₂) _.
            bind-Good Any Fits (buf_get_u8 buf off₂) _ (buf_get_u8-Good off₂) (λ (_, off₃) _.
              bind-Good Any Fits (buf_get_u8 buf off₃) _ (buf_get_u8-Good off₃) (λ (_, off₄) _.
                bind-Good Any Fits (buf_get_u16 buf off₄) _ (buf_get_u16-Good off₄)
                  (λ (_, off₅) _. hello_body-Good off₅))))))

  -- On any contents of the 1024 bytes of scratch->pkt the parser reads no byte outside of them, and
  -- a server name that it copies fits the 150 bytes of scratch->sni and is as long as its extension,
  -- up to this size.
  pub parse_client_hello_extract_sni-Good : Good Fits (parse_client_hello_extract_sni buf)
  unfolding parse_client_hello_extract_sni
  parse_client_hello_extract_sni-Good =
      bind-Good Any Fits (buf_get_u8 buf 0) _ (buf_get_u8-Good 0) (λ (t, off) _.
        if_cases (Good Fits) (not (t == 6)) _ _ (λ _. tt)
          (λ _.
            bind-Good Any Fits (buf_get_varint buf off) _ (buf_get_varint-Good off) (λ (_, off₁) _.
              bind-Good Any Fits (buf_get_varint buf off₁) _ (buf_get_varint-Good off₁)
                (λ (_, off₂) _. handshake-Good off₂))))
