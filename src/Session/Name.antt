-- ===== src/Session/Name.antt =====
-- `personaNameFromToken` and `personaName` of session.go. Texts are the bytes of Go strings;
-- `strings.TrimSpace` and `utf8.ValidString` are written out on them.
pub mod Laws
use hp_server.Prelude.{
  ℕ, zero, suc, ◌+◌, Bool, true, false, Option, none, some, List, [], ◌∷◌, ◌++◌, ltb, leb, slt,
  ◌==◌, ◌&&◌, ◌||◌, not, length, drop, bytes_of, if◌then◌else◌,
}
use hp_server.Tdf.Encode.{print_int64}
use mathlib.Core.List.{reverse}

abbrev pub persona_token_prefix : List ℕ
persona_token_prefix = bytes_of "LOCAL-PC-TOKEN|PNAM="

-- `strings.TrimPrefix`, or `none` without the prefix.
unfoldable pub cut_prefix : List ℕ → List ℕ → Option (List ℕ)
cut_prefix [] s = some s
cut_prefix (p ∷ ps) [] = none
cut_prefix (p ∷ ps) (c ∷ s) = let rest = cut_prefix ps s in if p == c then rest else none

abbrev pub is_ascii_space : ℕ → Bool
is_ascii_space c = (c == 0x20) || (leb 0x09 c && leb c 0x0d)

-- The white space of Unicode past ASCII, in UTF-8: U+0085, U+00A0, U+1680, U+2000 to U+200A,
-- U+2028, U+2029, U+202F, U+205F, U+3000.
abbrev pub is_space2 : ℕ → ℕ → Bool
is_space2 a b = (a == 0xc2) && ((b == 0x85) || (b == 0xa0))

abbrev pub is_space3 : ℕ → ℕ → ℕ → Bool
is_space3 a b c =
    ((a == 0xe1) && ((b == 0x9a) && (c == 0x80)))
    || (((a == 0xe2)
          && ((b == 0x80)
              && ((leb 0x80 c && leb c 0x8a) || ((c == 0xa8) || ((c == 0xa9) || (c == 0xaf))))))
        || (((a == 0xe2) && ((b == 0x81) && (c == 0x9f)))
            || ((a == 0xe3) && ((b == 0x80) && (c == 0x80)))))

-- The length of the white space at the front, 0 for none.
unfoldable pub space_front : List ℕ → ℕ
space_front (a ∷ b ∷ c ∷ s) =
    if is_ascii_space a then 1 else if is_space2 a b then 2 else if is_space3 a b c then 3 else 0
space_front (a ∷ b ∷ []) = if is_ascii_space a then 1 else if is_space2 a b then 2 else 0
space_front (a ∷ []) = if is_ascii_space a then 1 else 0
space_front [] = 0

-- The same at the back, on the reversed text.
unfoldable pub space_back : List ℕ → ℕ
space_back (a ∷ b ∷ c ∷ s) =
    if is_ascii_space a then 1 else if is_space2 b a then 2 else if is_space3 c b a then 3 else 0
space_back (a ∷ b ∷ []) = if is_ascii_space a then 1 else if is_space2 b a then 2 else 0
space_back (a ∷ []) = if is_ascii_space a then 1 else 0
space_back [] = 0

-- Each round drops a character at least, so the length of the text bounds them.
unfoldable pub trim : (List ℕ → ℕ) → ℕ → List ℕ → List ℕ
trim space zero s = s
trim space (suc rounds) s =
    let rest = trim space rounds (drop (space s) s) in if space s == 0 then s else rest

unfoldable pub trim_space : List ℕ → List ℕ
unfolding trim space_front space_back
trim_space s =
    let s' = trim space_front (length s) s in reverse (trim space_back (length s) (reverse s'))

abbrev pub is_continuation : ℕ → Bool
is_continuation c = leb 0x80 c && leb c 0xbf

-- The ranges of the second byte exclude overlong forms, surrogates and what is past U+10FFFF.
abbrev pub starts_two : ℕ → ℕ → Bool
starts_two a b = leb 0xc2 a && (leb a 0xdf && is_continuation b)

abbrev pub starts_three : ℕ → ℕ → Bool
starts_three a b =
    ((a == 0xe0) && (leb 0xa0 b && leb b 0xbf))
    || (((a == 0xed) && (leb 0x80 b && leb b 0x9f))
        || (leb 0xe1 a && (leb a 0xef && (not (a == 0xed) && is_continuation b))))

abbrev pub starts_four : ℕ → ℕ → Bool
starts_four a b =
    ((a == 0xf0) && (leb 0x90 b && leb b 0xbf))
    || (((a == 0xf4) && (leb 0x80 b && leb b 0x8f))
        || (leb 0xf1 a && (leb a 0xf3 && is_continuation b)))

unfoldable pub valid_string : List ℕ → Bool
valid_string [] = true
valid_string (a ∷ []) = ltb a 0x80
valid_string (a ∷ b ∷ []) =
    let rest = valid_string (b ∷ []) in if ltb a 0x80 then rest else starts_two a b
valid_string (a ∷ b ∷ c ∷ []) =
    let one = valid_string (b ∷ c ∷ []) in
    let two = valid_string (c ∷ []) in
    if ltb a 0x80
    then one
    else if starts_two a b
    then two
    else starts_three a b && is_continuation c
valid_string (a ∷ b ∷ c ∷ d ∷ s) =
    let one = valid_string (b ∷ c ∷ d ∷ s) in
    let two = valid_string (c ∷ d ∷ s) in
    let three = valid_string (d ∷ s) in
    let four = valid_string s in
    if ltb a 0x80
    then one
    else if starts_two a b
    then two
    else if starts_three a b && is_continuation c
    then three
    else if starts_four a b && (is_continuation c && is_continuation d)
    then four
    else false

-- `for _, value := range []byte(name)`
unfoldable pub has_control : List ℕ → Bool
has_control [] = false
has_control (c ∷ s) = (ltb c 0x20 || (c == 0x7f)) || has_control s

unfoldable pub accepted_name : List ℕ → List ℕ
accepted_name name =
    if (length name == 0) || (ltb 32 (length name) || not (valid_string name))
    then []
    else if has_control name
    then []
    else name

unfoldable pub persona_name_from_token : List ℕ → List ℕ
unfolding accepted_name
persona_name_from_token token = elim (cut_prefix persona_token_prefix token) [
  | none ↦ []
  | some rest ↦ accepted_name (trim_space rest)
]

-- `personaID <= 1` is on a signed integer.
unfoldable pub persona_name : ℕ → List ℕ
persona_name persona_id =
    if not (slt 1 persona_id)
    then bytes_of "Player"
    else bytes_of "Player" ++ print_int64 persona_id
