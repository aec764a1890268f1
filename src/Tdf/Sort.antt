-- ===== src/Tdf/Sort.antt =====
-- `sortedKeys` and `sortedMapKeys`: the entries of a map, ordered by the text of their keys. The
-- entries are sorted together with what is made of them.
use hp_server.Prelude.{ℕ, Bool, true, false, List, [], ◌∷◌, ltb, ◌==◌, if◌then◌else◌}

-- `a < b` on Go strings.
abbrev pub text_lt : List ℕ → List ℕ → Bool
text_lt [] [] = false
text_lt [] (b ∷ bs) = true
text_lt (a ∷ as') [] = false
text_lt (a ∷ as') (b ∷ bs) = if ltb a b then true else if a == b then text_lt as' bs else false

module _ {ℓ} {A : Type ℓ} where
  -- Equal keys keep their order.
  unfoldable pub insert_key : List ℕ × A → List (List ℕ × A) → List (List ℕ × A)
  insert_key (k, a) [] = (k, a) ∷ []
  insert_key (k, a) ((j, b) ∷ rest) =
      if text_lt j k then (j, b) ∷ insert_key (k, a) rest else (k, a) ∷ (j, b) ∷ rest

  unfoldable pub sorted_keys : List (List ℕ × A) → List (List ℕ × A)
  unfolding insert_key
  sorted_keys [] = []
  sorted_keys (x ∷ rest) = insert_key x (sorted_keys rest)
