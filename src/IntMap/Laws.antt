-- ===== src/IntMap/Laws.antt =====
-- Reads after writes.
use hp_server.Prelude.{
  ℕ, ◌≡◌, true, none, some, [], ◌∷◌, arith, ◌==◌, if◌then◌else◌, inl, inr, Bool-cases, All, refl,
  sym, ◌∙◌, subst, Option,
}
use hp_server.IntMap.{IntMap, get, put, delete, keys, contains}

module _ {ℓ} {V : Type ℓ} where
  pub get-put :
      (k j : ℕ) (v : V) (m : IntMap V) → get j (put k v m) ≡ (if k == j then some v else get j m)
  unfolding get put
  get-put k j v [] = ground arith
  get-put k j v ((i, w) ∷ m) = ground (arith, get-put k j v m)

  pub get-delete :
      (k j : ℕ) (m : IntMap V) → get j (delete k m) ≡ (if k == j then none else get j m)
  unfolding get delete
  get-delete k j [] = ground arith
  get-delete k j ((i, w) ∷ m) = ground (arith, get-delete k j m)

  -- A key that reads back is among the keys.
  pub contains-keys : (k : ℕ) (v : V) (m : IntMap V) → get k m ≡ some v → contains (keys m) k ≡ true
  unfolding get keys contains
  contains-keys k v [] h = cc
  contains-keys k v ((j, w) ∷ m) h = ground (arith, contains-keys k v m)

-- What is true of every value.
module _ {ℓ κ} {V : Type ℓ} (P : V → Type κ) where
  pub put-All :
      (k : ℕ) (v : V) (m : IntMap V) → P v → All (λ e. P e.1) m → All (λ e. P e.1) (put k v m)
  unfolding put
  put-All k v [] hv rest = (hv, tt)
  put-All k v ((j, w) ∷ m) hv (first, rest) = elim (Bool-cases (j == k)) [
    | inl same ↦ rw same (hv, rest)
    | inr other ↦ rw other (first, put-All k v m hv rest)
  ]

  pub delete-All : (k : ℕ) (m : IntMap V) → All (λ e. P e.1) m → All (λ e. P e.1) (delete k m)
  unfolding delete
  delete-All k [] rest = tt
  delete-All k ((j, w) ∷ m) (first, rest) = elim (Bool-cases (j == k)) [
    | inl same ↦ rw same (delete-All k m rest)
    | inr other ↦ rw other (first, delete-All k m rest)
  ]

  pub get-All : (k : ℕ) (v : V) (m : IntMap V) → All (λ e. P e.1) m → get k m ≡ some v → P v
  unfolding get
  get-All k v [] rest found = absurd (cc)
  get-All k v ((j, w) ∷ m) (first, rest) found = elim (Bool-cases (j == k)) [
    | inl same ↦
        let e : ◌≡◌ {A = Option V} (some w) (some v) = sym (rw same refl) ∙ found in
        let e' : w ≡ v = cc in subst P e' first
    | inr other ↦ get-All k v m rest (sym (rw other refl) ∙ found)
  ]
