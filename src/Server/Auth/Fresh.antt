-- ===== src/Server/Auth/Fresh.antt =====
-- The personas that `authenticateSessionNamed` of hpserver/server.go gives out.
use hp_server.Prelude.{
  ℕ, suc, ◌+◌, ◌^◌, ◌%◌, ◌<◌, ◌≤◌, ◌≡◌, ◌⊎◌, inl, inr, true, false, List, [], ◌∷◌, ◌++◌, arith,
  length, ◌||◌, Option-cases, Bool-cases, refl, slt, not, ◌∙◌, sym,
}
use hp_server.IntMap
use hp_server.IntMap.{IntMap, contains, get, keys}
use hp_server.IntMap.Laws.{contains-keys}
use hp_server.IntMap.Search.{next_free-Found}
use hp_server.Server.{Server}
use hp_server.Server.Auth.{is_taken, known_personas, free_persona, choose_persona}

contains-append :
    (xs ys : List ℕ) (x : ℕ) → contains (xs ++ ys) x ≡ (contains xs x || contains ys x)
unfolding contains
contains-append [] ys x = refl
contains-append (y ∷ xs) ys x = ground (arith, contains-append xs ys x)

has-contains {ℓ} :
    {V : Type ℓ} (k : ℕ) (m : IntMap V) → IntMap.has k m ≡ true → contains (keys m) k ≡ true
has-contains k m h = elim (Option-cases (get k m)) [
  | inl missing ↦
      let no : false ≡ true = sym (rw (missing, IntMap.has) refl) ∙ h in
      let never : ⊥ = cc in absurd never
  | inr (v, e) ↦ contains-keys k v m e
]

-- What is taken is known.
taken-known : (s : Server) (p : ℕ) → is_taken s p ≡ true → contains (known_personas s) p ≡ true
unfolding is_taken
taken-known s p h =
    rw (contains-append (keys s.active_personas) (keys s.users) p)
      (elim (Bool-cases (IntMap.has p s.active_personas)) [
        | inl active ↦ let e = has-contains p s.active_personas active in rw e refl
        | inr not_active ↦ elim (Option-cases (get p s.users)) [
          | inl missing ↦
              let no : false ≡ true = sym (rw (not_active, missing, is_taken) refl) ∙ h in
              let never : ⊥ = cc in absurd never
          | inr (identity, e) ↦ let e' = contains-keys p identity s.users e in ground (arith, e')
        ]
      ])

-- The ids are not used up: from the next id on there are more int64s above zero than ids in use.
abbrev pub HasRoom : Server → Type 0
HasRoom s = (0 < s.next_user_id) × (s.next_user_id + length (known_personas s) < 2 ^ 63)

free_persona_lem :
    (s : Server)
    → HasRoom s
    → (is_taken s (free_persona s) ≡ false)
      × (s.next_user_id ≤ free_persona s)
      × (free_persona s < 2 ^ 63)
unfolding free_persona
free_persona_lem s (positive, room) =
    let used = known_personas s in
    let (k, hk, e, free, before) =
      next_free-Found (is_taken s) used (suc (length used)) s.next_user_id (taken-known s)
        (omega arith) (omega arith) (omega arith) in
    let small : (s.next_user_id + k) % 2 ^ 64 ≡ s.next_user_id + k = omega arith in
    (rw e free, rw (e, small) (omega arith), rw (e, small) (omega arith))

taken-has : (s : Server) (p : ℕ) → is_taken s p ≡ false → IntMap.has p s.active_personas ≡ false
unfolding is_taken
taken-has s p h = elim (Bool-cases (IntMap.has p s.active_personas)) [
  | inr absent ↦ absent
  | inl active ↦
      let no : true ≡ false = sym (rw (active, is_taken) refl) ∙ h in
      let never : ⊥ = cc in absurd never
]

-- While ids are left, the persona that a session gets is above zero and not active. It is the requested one if that is
-- above zero and not active, and one that nobody ever had otherwise.
pub choose_persona_free :
    (s : Server) (requested : ℕ)
    → HasRoom s
    → requested < 2 ^ 64
    → let chosen = choose_persona s requested in
      (IntMap.has chosen s.active_personas ≡ false)
      × (0 < chosen)
      × (chosen < 2 ^ 63)
      × (((chosen ≡ requested) × (slt 0 requested ≡ true)) ⊎ (is_taken s chosen ≡ false))
unfolding choose_persona
choose_persona_free s requested room bound =
    let (free, above, below) = free_persona_lem s room in
    elim (Bool-cases (not (slt 0 requested) || IntMap.has requested s.active_personas)) [
      | inl other ↦
          rw (other, choose_persona)
            (taken-has s (free_persona s) free, omega (arith, room.0), below, inr free)
      | inr asked ↦
          let positive : slt 0 requested ≡ true = ground (arith, asked) in
          let inactive : IntMap.has requested s.active_personas ≡ false = ground (arith, asked) in
          rw (asked, choose_persona)
            (inactive, ground (arith, positive), ground (arith, positive), inl (refl, positive))
    ]
