-- ===== src/Net/Decimal.antt =====
-- The port of an address in digits (src/net.c): what snprintf prints and strtol reads.
use udpgrm.Base.{
  ℕ, zero, suc, ◌+◌, ◌-◌, ◌*◌, ◌/◌, ◌%◌, ◌^◌, ◌≤◌, ◌<◌, true, false, ◌==◌, if◌then◌else◌, if_cases,
  Bool-cases, inl, inr, none, some, List, [], ◌∷◌, ◌++◌, ◌≡◌, refl, ◌∙◌, arith,
}
use native.Mathlib.Nat.{pow-suc}
use udpgrm.Net.{
  digits_of, is_digit, read_digits, is_space, skip_spaces, strtol, strtol_signed, strtol_digits,
  last_colon,
}

abbrev pub AllDigits : List ℕ → Type 0
AllDigits [] = Unit
AllDigits (c ∷ s) = (48 ≤ c) × (c ≤ 57) × AllDigits s

-- The number that digits stand for, on top of n.
pub number : ℕ → List ℕ → ℕ
number n [] = n
number n (c ∷ s) = number (n * 10 + (c - 48)) s

number-append :
    (n : ℕ) (xs : List ℕ) (c : ℕ) → number n (xs ++ (c ∷ [])) ≡ number n xs * 10 + (c - 48)
unfolding number
number-append n [] c = refl
number-append n (x ∷ xs) c = number-append (n * 10 + (x - 48)) xs c

AllDigits-append :
    (xs : List ℕ) (c : ℕ) → AllDigits xs → 48 ≤ c → c ≤ 57 → AllDigits (xs ++ (c ∷ []))
AllDigits-append [] c h p q = (p, q, tt)
AllDigits-append (x ∷ xs) c h p q = (h.0, h.1, AllDigits-append xs c h.2 p q)

pub digits_of-AllDigits : (f n : ℕ) → AllDigits (digits_of f n)
unfolding digits_of
digits_of-AllDigits zero n = tt
digits_of-AllDigits (suc f) n =
    AllDigits-append (if n / 10 == 0 then [] else digits_of f (n / 10)) (48 + n % 10)
      (if_cases AllDigits (n / 10 == 0) _ _ (λ _. tt) (λ _. digits_of-AllDigits f (n / 10)))
      (omega arith) (omega arith)

pub number-digits_of : (f n : ℕ) → n < 10 ^ f → number 0 (digits_of f n) ≡ n
unfolding digits_of number
number-digits_of zero n h = omega arith
number-digits_of (suc f) n h =
    number-append 0 (if n / 10 == 0 then [] else digits_of f (n / 10)) (48 + n % 10)
    ∙ elim (Bool-cases (n / 10 == 0)) [
      | inl e ↦ rw e (ground arith)
      | inr e ↦ rw e (omega (arith, number-digits_of f (n / 10) (omega (arith, pow-suc 10 f))))
    ]

pub read_digits-eq-number : (n : ℕ) (s : List ℕ) → AllDigits s → read_digits n s ≡ (number n s, [])
unfolding read_digits number
read_digits-eq-number n [] h = refl
read_digits-eq-number n (c ∷ s) h =
    let e : is_digit c ≡ true = unfold is_digit in ground arith in
    rw e (read_digits-eq-number (n * 10 + (c - 48)) s h.2)

-- The last colon of a text whose end has none.
pub last_colon-append :
    (h p : List ℕ) → last_colon p ≡ none → last_colon (h ++ (b':' ∷ p)) ≡ some (h, p)
unfolding last_colon
last_colon-append [] p e = rw e refl
last_colon-append (c ∷ h) p e = rw (last_colon-append h p e) refl

pub digits-last_colon : (s : List ℕ) → AllDigits s → last_colon s ≡ none
unfolding last_colon
digits-last_colon [] h = refl
digits-last_colon (c ∷ s) h =
    let e : (c == b':') ≡ false = ground arith in rw (digits-last_colon s h.2, e) refl

-- strtol reads a text of digits to its end.
pub strtol-digits :
    (c : ℕ) (s : List ℕ) → AllDigits (c ∷ s) → strtol (c ∷ s) ≡ (false, number 0 (c ∷ s), [])
unfolding strtol skip_spaces strtol_signed strtol_digits is_digit is_space number
strtol-digits c s h =
    let space : is_space c ≡ false = unfold is_space in ground arith in
    let minus : (c == b'-') ≡ false = ground arith in
    let plus : (c == b'+') ≡ false = ground arith in
    let digit : is_digit c ≡ true = unfold is_digit in ground arith in
    rw (space, minus, plus, digit, read_digits-eq-number (0 + (c - 48)) s h.2) refl
