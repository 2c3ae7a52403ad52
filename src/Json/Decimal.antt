-- ===== src/Json/Decimal.antt =====
-- The decimal digits of a number, least first as they are found and first as they are written.
use blockchain_messaging_pro.Common.{
  ℕ, zero, suc, ◌+◌, ◌-◌, ◌*◌, ◌/◌, ◌%◌, ◌≤◌, ◌<◌, ◌≡◌, refl, ap, ◌∙◌, inl, inr, [], ◌∷◌, Str, ltb,
  arith, Bool-cases,
}
use blockchain_messaging_pro.Json.{digits_of, decimal}

-- a digit of ASCII
abbrev pub IsDigit : ℕ → Type 0
IsDigit c = (48 ≤ c) × (c < 58)

abbrev pub AreDigits : Str → Type 0
AreDigits [] = Unit
AreDigits (c ∷ s) = IsDigit c × AreDigits s

-- the number that digits continue
abbrev pub number : ℕ → Str → ℕ
number v [] = v
number v (c ∷ s) = number (10 * v + (c - 48)) s

digits_of-AreDigits : (fuel n : ℕ) (acc : Str) → AreDigits acc → AreDigits (digits_of fuel n acc)
unfolding digits_of
digits_of-AreDigits zero n acc h = h
digits_of-AreDigits (suc f) n acc h =
    let digit : IsDigit (48 + n % 10) = (omega arith, omega arith) in
    elim (Bool-cases (ltb n 10)) [
      | inl e ↦ rw (digits_of, e) (digit, h)
      | inr e ↦ rw (digits_of, e) (digits_of-AreDigits f (n / 10) ((48 + n % 10) ∷ acc) (digit, h))
    ]

number-digits_of :
    (fuel n : ℕ) (acc : Str) → n < fuel → number 0 (digits_of fuel n acc) ≡ number n acc
unfolding digits_of
number-digits_of zero n acc h = absurd (omega arith)
number-digits_of (suc f) n acc h = elim (Bool-cases (ltb n 10)) [
  | inl e ↦ rw (digits_of, e) (ap (λ v. number v acc) (ground (arith, e)))
  | inr e ↦
      rw (digits_of, e)
        (number-digits_of f (n / 10) ((48 + n % 10) ∷ acc) (ground (arith, e))
          ∙ ap (λ v. number v acc) (ground (arith, e)))
]

pub decimal-AreDigits : (n : ℕ) → AreDigits (decimal n)
unfolding decimal
decimal-AreDigits n = digits_of-AreDigits (suc n) n [] tt

pub number-decimal : (n : ℕ) → number 0 (decimal n) ≡ n
unfolding decimal
number-decimal n = number-digits_of (suc n) n [] (omega arith)

digits_of-cons :
    (fuel n c : ℕ) (acc : Str) → (d : ℕ) × (s : Str) × (digits_of fuel n (c ∷ acc) ≡ d ∷ s)
unfolding digits_of
digits_of-cons zero n c acc = (c, acc, refl)
digits_of-cons (suc f) n c acc = elim (Bool-cases (ltb n 10)) [
  | inl e ↦ rw (digits_of, e) (48 + n % 10, c ∷ acc, refl)
  | inr e ↦ rw (digits_of, e) (digits_of-cons f (n / 10) (48 + n % 10) (c ∷ acc))
]

-- A number has a digit.
pub decimal-cons : (n : ℕ) → (d : ℕ) × (s : Str) × (decimal n ≡ d ∷ s)
unfolding decimal digits_of
decimal-cons n = elim (Bool-cases (ltb n 10)) [
  | inl e ↦ rw (e) (48 + n % 10, [], refl)
  | inr e ↦ rw (e) (digits_of-cons n (n / 10) (48 + n % 10) [])
]
