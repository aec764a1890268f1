-- ===== src/IntMap/Search.antt =====
-- `next_free` finds what is not taken, if there are more rounds than numbers that are.
use hp_server.Prelude.{
  ℕ, zero, suc, ◌+◌, ◌%◌, ◌^◌, ◌≤◌, ◌<◌, ◌≡◌, ◌≢◌, Bool, true, false, List, [], ◌∷◌, length, arith,
  ◌==◌, if◌then◌else◌, inc64, Bool-cases, inl, inr, ◌⊎◌, ◌∙◌,
}
use hp_server.IntMap.{contains, next_free}

remove : ℕ → List ℕ → List ℕ
remove x [] = []
remove x (y ∷ ys) = let rest = remove x ys in if y == x then ys else y ∷ rest

length-remove : (x : ℕ) (ys : List ℕ) → contains ys x ≡ true → length (remove x ys) + 1 ≡ length ys
unfolding remove contains
length-remove x [] h = cc
length-remove x (y ∷ ys) h = ground (arith, length-remove x ys)

contains-remove :
    (x z : ℕ) (ys : List ℕ) → x ≢ z → contains ys z ≡ true → contains (remove x ys) z ≡ true
unfolding remove contains
contains-remove x z [] ne h = h
contains-remove x z (y ∷ ys) ne h = ground (arith, contains-remove x z ys)

-- `n` different numbers from `p` on, around the end of the int64s, need a list of that length.
pigeonhole :
    (n p : ℕ) (ys : List ℕ)
    → n ≤ 2 ^ 64
    → p < 2 ^ 64
    → ((i : ℕ) → i < n → contains ys ((p + i) % 2 ^ 64) ≡ true)
    → n ≤ length ys
pigeonhole zero p ys hn hp h = omega arith
pigeonhole (suc n) p ys hn hp h =
    let x = (p + n) % 2 ^ 64 in
    omega (
      arith,
      length-remove x ys (h n (omega arith)),
      pigeonhole n p (remove x ys) (omega arith) hp
          (λ i hi. contains-remove x ((p + i) % 2 ^ 64) ys (omega arith) (h i (omega arith))),
    )

shift : (n i : ℕ) → (inc64 n + i) % 2 ^ 64 ≡ (n + suc i) % 2 ^ 64
shift n i = omega arith

-- What is taken at `n` and from the next number on is taken from `n` on.
taken_from :
    (taken : ℕ → Bool) (n k : ℕ)
    → n < 2 ^ 64
    → taken n ≡ true
    → ((i : ℕ) → i < k → taken ((inc64 n + i) % 2 ^ 64) ≡ true)
    → (i : ℕ) → i < suc k
    → taken ((n + i) % 2 ^ 64) ≡ true
taken_from taken n k hn now later zero h = let e : (n + 0) % 2 ^ 64 ≡ n = omega arith in rw e now
taken_from taken n k hn now later (suc i) h = rw (← shift n i) (later i (omega arith))

-- The search stopped at the first free number, `k` steps on.
abbrev pub Found : (ℕ → Bool) → ℕ → ℕ → ℕ → Type 0
Found taken rounds n result =
    (k : ℕ) × (k < rounds)
    × (result ≡ (n + k) % 2 ^ 64)
    × (taken ((n + k) % 2 ^ 64) ≡ false)
    × ((i : ℕ) → i < k → taken ((n + i) % 2 ^ 64) ≡ true)

-- Either the search stops at a free number behind taken ones, or every number on the way is taken.
search_cases :
    (taken : ℕ → Bool) (rounds n : ℕ)
    → n < 2 ^ 64
    → Found taken rounds n (next_free rounds taken n)
      ⊎ ((i : ℕ) → i < rounds → taken ((n + i) % 2 ^ 64) ≡ true)
unfolding next_free
search_cases taken zero n hn = inr (λ i h. absurd (omega arith))
search_cases taken (suc rounds) n hn =
    let first : (n + 0) % 2 ^ 64 ≡ n = omega arith in
    elim (Bool-cases (taken n)) [
      | inr free ↦
          inl (0, omega arith, rw (free, first), rw (first, free), λ i h. absurd (omega arith))
      | inl now ↦ elim (search_cases taken rounds (inc64 n) (omega arith)) [
        | inl (k, hk, e, free, before) ↦ inl (
          suc k,
          omega arith,
          rw now (e ∙ shift n k),
          rw (← shift n k) free,
          taken_from taken n k hn now before,
        )
        | inr all ↦ inr (taken_from taken n rounds hn now all)
      ]
    ]

-- With more rounds than numbers that are taken, the search stops at the first number from `n` on
-- that is not taken.
pub next_free-Found :
    (taken : ℕ → Bool) (used : List ℕ) (rounds n : ℕ)
    → ((x : ℕ) → taken x ≡ true → contains used x ≡ true)
    → length used < rounds
    → rounds ≤ 2 ^ 64
    → n < 2 ^ 64
    → Found taken rounds n (next_free rounds taken n)
next_free-Found taken used rounds n listed enough small hn = elim (search_cases taken rounds n hn) [
  | inl found ↦ found
  | inr all ↦ absurd (
      omega (arith, pigeonhole rounds n used small hn (λ i h. listed ((n + i) % 2 ^ 64) (all i h))))
]
