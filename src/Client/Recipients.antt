-- ===== src/Client/Recipients.antt =====
-- src/client/cli.py: the recipient that a command finds among the peers that a client knows.
use blockchain_messaging_pro.Common.{
  ◌≤◌, ◌<◌, ◌≡◌, refl, true, false, some, [], ◌∷◌, Str, length, ltb, arith, str_beq, str_beq_iff,
  str_beq_refl, str_eq, Bool-cases, inl, inr, ◌⊎◌, starts_with, ok,
}
use blockchain_messaging_pro.Common.Dict
use blockchain_messaging_pro.Common.Dict.{Dict}
use blockchain_messaging_pro.Json.{Fields}
use blockchain_messaging_pro.Client.Commands.{find_by_prefix, full_recipient}
use blockchain_messaging_pro.Client.Directory.{HasIds}

-- The text is the beginning of the id of a known peer, or of none and then the result is the text.
abbrev pub IsFound : Dict Str Fields → Str → Str → Type 0
IsFound d t r =
    ((peer : Fields) × (Dict.get d r ≡ some peer) × (starts_with r t ≡ true))
    ⊎ ((r ≡ t)
        × ((id : Str) (peer : Fields) → Dict.get d id ≡ some peer → starts_with id t ≡ false))

find_by_prefix-IsFound :
    (d : Dict Str Fields) (t : Str)
    → HasIds d
    → (r : Str) × (find_by_prefix t (Dict.values d) ≡ ok r) × IsFound d t r
unfolding find_by_prefix Dict.get
find_by_prefix-IsFound [] t h = (t, refl, inr (refl, λ id peer found. cc))
find_by_prefix-IsFound ((j, p) ∷ d) t (e, h) = elim (Bool-cases (starts_with j t)) [
  | inl f ↦ (j, rw (find_by_prefix, e, f) refl, inl (p, rw (str_beq_refl j) refl, f))
  | inr f ↦
      let (r, found, cases) = find_by_prefix-IsFound d t h in
      (
        r,
        rw (find_by_prefix, e, f) found,
        elim cases [
          | inl (peer, known, starts) ↦ elim (Bool-cases (str_beq j r)) [
            | inl g ↦ inl (p, rw (g) refl, starts)
            | inr g ↦ inl (peer, rw (g) known, starts)
          ]
          | inr (same, nobody) ↦
              inr (same, λ id peer known. ground (arith, nobody id peer, str_beq_iff j id, f))
        ],
      )
]

-- A recipient of 64 or more characters is taken as it is. A shorter one is the beginning of the id
-- of a known peer, which is then the result, or of no known peer's, and then it is taken as it is.
pub full_recipient-IsFound :
    (d : Dict Str Fields) (t : Str)
    → HasIds d
    → (r : Str) × (full_recipient t (Dict.values d) ≡ ok r)
      × (64 ≤ length t → r ≡ t)
      × (length t < 64 → IsFound d t r)
unfolding full_recipient
full_recipient-IsFound d t h = elim (Bool-cases (ltb (length t) 64)) [
  | inl e ↦
      let (r, found, cases) = find_by_prefix-IsFound d t h in
      (r, rw (e) found, λ long. absurd (ground arith), λ short. cases)
  | inr e ↦ (t, rw (e) refl, λ long. refl, λ short. absurd (ground arith))
]
