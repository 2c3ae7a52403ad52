-- ===== src/Json/Quoted.antt =====
-- What can be read back of the texts of `json.dumps`: the characters of a string.
use mathlib.Core.List.{append_assoc}
use blockchain_messaging_pro.Common.{
  drop, ◌≢◌, ℕ, ◌+◌, ◌-◌, ◌*◌, ◌/◌, ◌%◌, ◌≤◌, ◌<◌, ◌≡◌, ◌⊎◌, refl, sym, ap, ap₂, ◌∙◌, inl, inr,
  Bool, true, false, [], ◌∷◌, ◌++◌, Str, ltb, leb, nat_beq, ◌||◌, ◌&&◌, arith, if◌then◌else◌,
  Bool-cases,
}
use blockchain_messaging_pro.Json.{hex_digit, unicode_escape, escape_char, escape, quote, decimal}
use blockchain_messaging_pro.Json.Decimal.{AreDigits, number, decimal-AreDigits, number-decimal}

-- a code point that is no surrogate
abbrev pub IsChar : ℕ → Type 0
IsChar c = (c < 0xd800) ⊎ ((0xdfff < c) × (c < 0x110000))

abbrev pub IsText : Str → Type 0
IsText [] = Unit
IsText (c ∷ s) = IsChar c × IsText s

hex_value : ℕ → ℕ
hex_value d = if ltb d 58 then d - 48 else d - 87

four_digits : ℕ → ℕ → ℕ → ℕ → ℕ
unfolding hex_value
four_digits a b c d = ((hex_value a * 16 + hex_value b) * 16 + hex_value c) * 16 + hex_value d

-- the second half of a pair of surrogates
read_low : ℕ → Str → ℕ × Str
unfolding four_digits
read_low high (x ∷ y ∷ a ∷ b ∷ c ∷ d ∷ s) =
    (0x10000 + (high - 0xd800) * 1024 + (four_digits a b c d - 0xdc00), s)
read_low high s = (high, s)

read_unicode : Str → ℕ × Str
unfolding read_low
read_unicode (a ∷ b ∷ c ∷ d ∷ s) =
    let value = four_digits a b c d in
    if leb 0xd800 value && ltb value 0xdc00 then read_low value s else (value, s)
read_unicode s = (0, s)

read_escaped : Str → ℕ × Str
unfolding read_unicode
read_escaped [] = (0, [])
read_escaped (e ∷ s) =
    if nat_beq e b'n'
    then (10, s)
    else if nat_beq e b'r'
    then (13, s)
    else if nat_beq e b't'
    then (9, s)
    else if nat_beq e b'f'
    then (12, s)
    else if nat_beq e b'b'
    then (8, s)
    else if nat_beq e b'u'
    then read_unicode s
    else (e, s)

-- the first character of an escaped text, and the rest
read_char : Str → ℕ × Str
unfolding read_escaped
read_char [] = (0, [])
read_char (c ∷ s) = if nat_beq c 92 then read_escaped s else (c, s)

hex_value-hex_digit : (d : ℕ) → d < 16 → hex_value (hex_digit d) ≡ d
unfolding hex_value hex_digit
hex_value-hex_digit d h = ground arith

four_digits-hex_digit :
    (c : ℕ)
    → c < 0x10000
    → four_digits
        (hex_digit (c / 4096 % 16))
        (hex_digit (c / 256 % 16))
        (hex_digit (c / 16 % 16))
        (hex_digit (c % 16))
      ≡ c
unfolding four_digits
four_digits-hex_digit c h =
    rw
      (
        hex_value-hex_digit (c / 4096 % 16) (omega arith),
        hex_value-hex_digit (c / 256 % 16) (omega arith),
        hex_value-hex_digit (c / 16 % 16) (omega arith),
        hex_value-hex_digit (c % 16) (omega arith),
      )
      (omega arith)

read_unicode-escape :
    (c : ℕ) (r : Str) → IsChar c → c < 0x10000 → read_char (unicode_escape c ++ r) ≡ (c, r)
unfolding read_char unicode_escape
read_unicode-escape c r h small =
    let single : (leb 0xd800 c && ltb c 0xdc00) ≡ false = ground arith in
    rw (four_digits-hex_digit c small, single) refl

read_pair :
    (high low : ℕ) (r : Str)
    → 0xd800 ≤ high
    → high < 0xdc00
    → low < 0x10000
    → read_char (unicode_escape high ++ (unicode_escape low ++ r))
      ≡ (0x10000 + (high - 0xd800) * 1024 + (low - 0xdc00), r)
unfolding read_char unicode_escape
read_pair high low r above below small =
    let double : (leb 0xd800 high && ltb high 0xdc00) ≡ true = ground arith in
    rw (four_digits-hex_digit high (omega arith), double, four_digits-hex_digit low small) refl

if_either :
    (P : Str → Type 0) (b : Bool) (x y : Str)
    → (b ≡ true → P x)
    → (b ≡ false → P y)
    → P (if b then x else y)
if_either P true x y f g = f refl
if_either P false x y f g = g refl

abbrev Reads : ℕ → Str → Str → Type 0
Reads c r t = read_char (t ++ r) ≡ (c, r)

read_plain : (c : ℕ) (r : Str) → nat_beq c 92 ≡ false → Reads c r (c ∷ [])
unfolding read_char
read_plain c r h = rw (h) refl

read_supplementary :
    (c : ℕ) (r : Str)
    → 0x10000 ≤ c
    → c < 0x110000
    → Reads c r (
        unicode_escape (0xd800 + (c - 0x10000) / 1024 % 1024) ++ unicode_escape (0xdc00 + c % 1024))
read_supplementary c r above below =
    ap read_char (
      append_assoc (unicode_escape (0xd800 + (c - 0x10000) / 1024 % 1024))
        (unicode_escape (0xdc00 + c % 1024)) r)
    ∙ read_pair (0xd800 + (c - 0x10000) / 1024 % 1024) (0xdc00 + c % 1024) r (omega arith)
        (omega arith) (omega arith)
    ∙ ap (λ v. (v, r)) (omega arith)

read_char-escape_char : (c : ℕ) (r : Str) → IsChar c → Reads c r (escape_char c)
unfolding escape_char read_char
read_char-escape_char c r h =
    if_either (Reads c r) (nat_beq c 34 || nat_beq c 92) _ _ (λ e. ground arith)
      (λ e0.
        if_either (Reads c r) (nat_beq c 10) _ _ (λ e. ground arith)
          (λ e1.
            if_either (Reads c r) (nat_beq c 13) _ _ (λ e. ground arith)
              (λ e2.
                if_either (Reads c r) (nat_beq c 9) _ _ (λ e. ground arith)
                  (λ e3.
                    if_either (Reads c r) (nat_beq c 12) _ _ (λ e. ground arith)
                      (λ e4.
                        if_either (Reads c r) (nat_beq c 8) _ _ (λ e. ground arith)
                          (λ e5.
                            if_either (Reads c r) (ltb c 32) _ _
                              (λ e. read_unicode-escape c r h (ground arith))
                              (λ e6.
                                if_either (Reads c r) (ltb c 127) _ _
                                  (λ e. read_plain c r (ground arith))
                                  (λ e7.
                                    if_either (Reads c r) (ltb c 0x10000) _ _
                                      (λ e. read_unicode-escape c r h (ground arith))
                                      (λ e8.
                                        read_supplementary c r (ground arith)
                                          (ground arith))))))))))

escape_char-ne-quote : (c : ℕ) (r s : Str) → IsChar c → 34 ∷ r ≡ escape_char c ++ s → ⊥
unfolding escape_char read_char
escape_char-ne-quote c r s h e =
    let read = ap read_char e ∙ read_char-escape_char c s h in
    let is_quote : 34 ≡ c = ap (λ x. x.0) read in
    let clash : 34 ∷ r ≡ escape_char 34 ++ s = e ∙ ap (λ x. escape_char x ++ s) (sym is_quote) in
    ground (arith, clash)

escape-cancel :
    (s t r u : Str)
    → IsText s
    → IsText t
    → escape s ++ (34 ∷ r) ≡ escape t ++ (34 ∷ u)
    → (s ≡ t) × (r ≡ u)
unfolding escape
escape-cancel [] [] r u h k e = (refl, ground (arith, e))
escape-cancel [] (d ∷ t) r u h (char, k) e = absurd (
    escape_char-ne-quote d r (escape t ++ (34 ∷ u)) char
      (e ∙ append_assoc (escape_char d) (escape t) (34 ∷ u)))
escape-cancel (c ∷ s) [] r u (char, h) k e = absurd (
    escape_char-ne-quote c u (escape s ++ (34 ∷ r)) char
      (sym e ∙ append_assoc (escape_char c) (escape s) (34 ∷ r)))
escape-cancel (c ∷ s) (d ∷ t) r u (char, h) (char', k) e =
    let read =
      sym (
        ap read_char (append_assoc (escape_char c) (escape s) (34 ∷ r))
        ∙ read_char-escape_char c (escape s ++ (34 ∷ r)) char)
      ∙ ap read_char e
      ∙ ap read_char (append_assoc (escape_char d) (escape t) (34 ∷ u))
      ∙ read_char-escape_char d (escape t ++ (34 ∷ u)) char' in
    let (same, rest) = escape-cancel s t r u h k (ap (λ x. x.1) read) in
    (ap₂ ◌∷◌ (ap (λ x. x.0) read) same, rest)

-- A quoted text ends where its text does.
pub quote-cancel :
    (s t r u : Str) → IsText s → IsText t → quote s ++ r ≡ quote t ++ u → (s ≡ t) × (r ≡ u)
unfolding quote
quote-cancel s t r u h k e = escape-cancel s t r u h k (
    sym (append_assoc (escape s) (34 ∷ []) r) ∙ ap (drop 1) e ∙ append_assoc (escape t) (34 ∷ []) u)

-- the character is not in the text
abbrev pub Lacks : ℕ → Str → Type 0
Lacks x [] = Unit
Lacks x (c ∷ s) = (c ≢ x) × Lacks x s

-- A text without a character ends where the character is.
pub Lacks-cancel :
    (x : ℕ) (s t r u : Str)
    → Lacks x s
    → Lacks x t
    → s ++ (x ∷ r) ≡ t ++ (x ∷ u)
    → (s ≡ t) × (r ≡ u)
Lacks-cancel x [] [] r u h k e = (refl, ground (arith, e))
Lacks-cancel x [] (d ∷ t) r u h (other, k) e = absurd (other (ground (arith, e)))
Lacks-cancel x (c ∷ s) [] r u (other, h) k e = absurd (other (ground (arith, e)))
Lacks-cancel x (c ∷ s) (d ∷ t) r u (other, h) (other', k) e =
    let (same, rest) = Lacks-cancel x s t r u h k (ap (drop 1) e) in
    (ap₂ ◌∷◌ (ground (arith, e)) same, rest)

AreDigits-Lacks : (x : ℕ) (s : Str) → (x < 48) ⊎ (57 < x) → AreDigits s → Lacks x s
AreDigits-Lacks x [] other h = tt
AreDigits-Lacks x (c ∷ s) other (digit, h) = (λ e. ground arith, AreDigits-Lacks x s other h)

-- A number in decimal ends where its digits do.
pub decimal-cancel :
    (x m n : ℕ) (r u : Str)
    → (x < 48) ⊎ (57 < x)
    → decimal m ++ (x ∷ r) ≡ decimal n ++ (x ∷ u)
    → (m ≡ n) × (r ≡ u)
decimal-cancel x m n r u other e =
    let (same, rest) =
      Lacks-cancel x (decimal m) (decimal n) r u
        (AreDigits-Lacks x (decimal m) other (decimal-AreDigits m))
        (AreDigits-Lacks x (decimal n) other (decimal-AreDigits n)) e in
    (sym (number-decimal m) ∙ ap (number 0) same ∙ number-decimal n, rest)

is_char : ℕ → Bool
is_char c = ltb c 0xd800 || ltb 0xdfff c && ltb c 0x110000

unfoldable pub is_text : Str → Bool
unfolding is_char
is_text [] = true
is_text (c ∷ s) = is_char c && is_text s

is_char-IsChar : (c : ℕ) → is_char c ≡ true → IsChar c
unfolding is_char
is_char-IsChar c h = elim (Bool-cases (ltb c 0xd800)) [
  | inl e ↦ inl (ground (arith, e))
  | inr e ↦ inr (ground (arith, e, h), ground (arith, e, h))
]

pub is_text-IsText : (s : Str) → is_text s ≡ true → IsText s
unfolding is_text
is_text-IsText [] h = tt
is_text-IsText (c ∷ s) h =
    (is_char-IsChar c (ground (arith, h)), is_text-IsText s (ground (arith, h)))
