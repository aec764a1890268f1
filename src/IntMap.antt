-- ===== src/IntMap.antt =====
-- Go maps with int64 keys, which hpserver keeps its sessions, users, games and rosters in, as lists
-- of entries. A nil map and an empty one are not told apart: the code makes a map before it writes.
pub mod Laws
pub mod Search
use hp_server.Prelude.{
  ℕ, zero, suc, Bool, true, false, Option, none, some, List, [], ◌∷◌, ◌==◌, ◌||◌, inc64,
  if◌then◌else◌,
}

abbrev pub IntMap {ℓ} : Type ℓ → Type ℓ
IntMap V = List (ℕ × V)

module _ {ℓ} {V : Type ℓ} where
  unfoldable pub get : ℕ → IntMap V → Option V
  get k [] = none
  get k ((j, v) ∷ m) = if j == k then some v else get k m

  -- `m[k]` with the zero value of a missing key.
  abbrev pub get_or : V → ℕ → IntMap V → V
  get_or d k m = elim (get k m) [ none ↦ d | some v ↦ v ]

  abbrev pub has : ℕ → IntMap V → Bool
  has k m = elim (get k m) [ none ↦ false | some v ↦ true ]

  -- `m[k] = v`
  unfoldable pub put : ℕ → V → IntMap V → IntMap V
  put k v [] = (k, v) ∷ []
  put k v ((j, w) ∷ m) = if j == k then (k, v) ∷ m else (j, w) ∷ put k v m

  -- `delete(m, k)`
  unfoldable pub delete : ℕ → IntMap V → IntMap V
  delete k [] = []
  delete k ((j, w) ∷ m) = let rest = delete k m in if j == k then rest else (j, w) ∷ rest

  unfoldable pub keys : IntMap V → List ℕ
  keys [] = []
  keys ((k, v) ∷ m) = k ∷ keys m

  unfoldable pub values : IntMap V → List V
  values [] = []
  values ((k, v) ∷ m) = v ∷ values m

unfoldable pub contains : List ℕ → ℕ → Bool
contains [] x = false
contains (y ∷ ys) x = (y == x) || contains ys x

-- `for taken(n) { n++ }` on an int64, with a bound on the rounds.
unfoldable pub next_free : ℕ → (ℕ → Bool) → ℕ → ℕ
next_free zero taken n = n
next_free (suc rounds) taken n =
    let next = next_free rounds taken (inc64 n) in if taken n then next else n
