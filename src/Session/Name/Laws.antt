-- ===== src/Session/Name/Laws.antt =====
-- What a persona name from a token can be.
use hp_server.Prelude.{
  ℕ, ◌≤◌, ◌≡◌, ◌≢◌, ◌⊎◌, inl, inr, true, false, some, List, [], ◌∷◌, ◌++◌, All, length, arith,
  Option-cases, Bool-cases, ◌||◌, not, ◌==◌, ltb,
}
use hp_server.Session.Name.{
  cut_prefix, persona_token_prefix, trim_space, valid_string, has_control, accepted_name,
  persona_name_from_token,
}

cut_prefix_sound : (p s rest : List ℕ) → cut_prefix p s ≡ some rest → s ≡ p ++ rest
unfolding cut_prefix
cut_prefix_sound [] s rest e = cc
cut_prefix_sound (p ∷ ps) [] rest e = cc
cut_prefix_sound (p ∷ ps) (c ∷ s) rest e = ground (arith, cut_prefix_sound ps s rest)

-- A printable byte.
abbrev pub IsPrintable : ℕ → Type 0
IsPrintable c = (0x20 ≤ c) × (c ≢ 0x7f)

no_control : (s : List ℕ) → has_control s ≡ false → All IsPrintable s
unfolding has_control
no_control [] h = tt
no_control (c ∷ s) h = (ground arith, no_control s (ground arith))

accepted_cases :
    (name : List ℕ)
    → (accepted_name name ≡ [])
      ⊎ ((accepted_name name ≡ name)
          × (1 ≤ length name)
          × (length name ≤ 32)
          × (valid_string name ≡ true)
          × All IsPrintable name)
unfolding accepted_name
accepted_cases name = elim (Bool-cases (has_control name)) [
  | inl control ↦ inl (ground arith)
  | inr clean ↦
      elim (Bool-cases ((length name == 0) || (ltb 32 (length name) || not (valid_string name)))) [
        | inl bad ↦ inl (rw bad)
        | inr good ↦
            inr (rw (good, clean), ground arith, ground arith, ground arith, no_control name clean)
      ]
]

-- A name is taken only from a token that is the prefix and a text which trims to that name; it has
-- 1 to 32 bytes, is valid UTF-8 and holds no control byte. Any other token gives no name.
pub persona_name_sound :
    (token : List ℕ)
    → (persona_name_from_token token ≡ [])
      ⊎ ((rest : List ℕ) × (token ≡ persona_token_prefix ++ rest)
          × (persona_name_from_token token ≡ trim_space rest)
          × (1 ≤ length (trim_space rest))
          × (length (trim_space rest) ≤ 32)
          × (valid_string (trim_space rest) ≡ true)
          × All IsPrintable (trim_space rest))
unfolding persona_name_from_token
persona_name_sound token = elim (Option-cases (cut_prefix persona_token_prefix token)) [
  | inl missing ↦ inl (rw (missing, persona_name_from_token))
  | inr (rest, found) ↦ elim (accepted_cases (trim_space rest)) [
    | inl refused ↦ inl (rw (found, persona_name_from_token) refused)
    | inr (same, lo, hi, valid, printable) ↦ inr (
      rest,
      cut_prefix_sound persona_token_prefix token rest found,
      rw (found, persona_name_from_token) same,
      lo,
      hi,
      valid,
      printable,
    )
  ]
]
