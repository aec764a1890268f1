-- ===== src/Game/Roster/Remove.antt =====
-- What `removeMember` of hpserver/game.go do to a roster.
use hp_server.Prelude.{
  ℕ, ◌≡◌, ◌≢◌, inl, inr, true, false, none, List, [], ◌∷◌, ◌++◌, arith, All, sym, ◌==◌,
  if◌then◌else◌, Bool-cases, refl, subst, ap, ◌∙◌,
}
use hp_server.IntMap
use hp_server.IntMap.{IntMap, contains, values, get}
use hp_server.IntMap.Laws.{get-put}
use hp_server.Session.{Heap}
use hp_server.Game.{Game, ensure_membership_state, add_member}
use hp_server.IntMap.{delete}
use hp_server.IntMap.Laws.{get-delete}
use hp_server.Game.{is_member, drop_member, remove_member}
use hp_server.Game.Roster.{IsRoster, find_member_cases}
use hp_server.Game.Roster.{whole-IsRoster}
use hp_server.Game.Roster.Add.{add_member_cases, place_found}

pub drop_member-All {ℓ} :
    (P : ℕ → Type ℓ) (p : ℕ) (members : List ℕ) → All P members → All P (drop_member p members)
unfolding drop_member
drop_member-All P p [] h = tt
drop_member-All P p (m ∷ ms) (h, hs) = elim (Bool-cases (m == p)) [
  | inl same ↦ rw (same, drop_member) hs
  | inr other ↦ rw (other, drop_member) (h, drop_member-All P p ms hs)
]

pub member-All {ℓ} :
    (P : ℕ → Type ℓ) (p : ℕ) (members : List ℕ) → is_member p members ≡ true → All P members → P p
unfolding is_member
member-All P p [] h all = let no : false ≡ true = h in let never : ⊥ = cc in absurd never
member-All P p (m ∷ ms) h (hm, hs) = elim (Bool-cases (m == p)) [
  | inl same ↦ let e : m ≡ p = ground (arith, same) in subst P e hm
  | inr other ↦ member-All P p ms (sym (rw other refl) ∙ h) hs
]

absent_member :
    (heap : Heap) (p : ℕ) (members : List ℕ)
    → All (λ m. (heap m).persona_id ≢ (heap p).persona_id) members
    → is_member p members ≡ false
absent_member heap p members others = elim (Bool-cases (is_member p members)) [
  | inr absent ↦ absent
  | inl present ↦
      absurd
        (member-All (λ m. (heap m).persona_id ≢ (heap p).persona_id) p members present others refl)
]

-- Who was added was not in the roster.
added_absent :
    (heap : Heap) (now p : ℕ) (game : Game)
    → IsRoster heap game
    → (add_member heap now p game).1.1 ≡ true
    → is_member p game.members ≡ false
unfolding add_member
added_absent heap now p game roster added =
    let (whole, slots, members, capacity) = whole-IsRoster heap now game roster in
    let game' = ensure_membership_state heap now game in
    elim (find_member_cases heap p game'.members) [
      | inl (e, others) ↦
          subst (λ ms. is_member p ms ≡ false) members (absent_member heap p game'.members others)
      | inr (m, e, same) ↦
          let no : false ≡ true =
            sym (ap (λ r. r.1.1) (place_found heap now p m game' e)) ∙ added in
          let never : ⊥ = cc in absurd never
    ]

drop-last :
    (p : ℕ) (members : List ℕ)
    → is_member p members ≡ false
    → (drop_member p (members ++ p ∷ []) ≡ members) × (is_member p (members ++ p ∷ []) ≡ true)
unfolding drop_member is_member
drop-last p [] h = (ground arith, ground arith)
drop-last p (m ∷ ms) h = elim (Bool-cases (m == p)) [
  | inl same ↦ let no : true ≡ false = sym (rw same refl) ∙ h in let never : ⊥ = cc in absurd never
  | inr other ↦
      let later : is_member p ms ≡ false = sym (rw other refl) ∙ h in
      let (dropped, last) = drop-last p ms later in
      (rw (other, drop_member) (ap (λ ms. m ∷ ms) dropped), rw (other, is_member) last)
]

get-delete-put :
    (k j v : ℕ) (m : IntMap ℕ)
    → get j (delete k (IntMap.put k v m)) ≡ (if k == j then none else get j m)
get-delete-put k j v m = rw (get-delete k j (IntMap.put k v m), get-put k j v m) (ground arith)

-- Removing a session that was added to a roster gives the members before it, and the slots of the
-- other personas; its own persona has none.
pub remove-add_member :
    (heap : Heap) (now p : ℕ) (game : Game)
    → IsRoster heap game
    → (add_member heap now p game).1.1 ≡ true
    → let left = (remove_member heap p (add_member heap now p game).0).0 in
      (left.members ≡ game.members)
      × ((k : ℕ) → get k left.slots ≡ (if (heap p).persona_id == k then none else get k game.slots))
unfolding remove_member
remove-add_member heap now p game roster added =
    let result = add_member heap now p game in
    let (dropped, last) = drop-last p game.members (added_absent heap now p game roster added) in
    elim (add_member_cases heap now p game roster) [
      | inl kept ↦ let no : true ≡ false = sym added ∙ kept.0 in let never : ⊥ = cc in absurd never
      | inr (inl refused) ↦
          let no : true ≡ false = sym added ∙ refused.0 in let never : ⊥ = cc in absurd never
      | inr (inr (a, members, slots, slot, room, fresh)) ↦
          let present : is_member p result.0.members ≡ true = rw members last in
          (
            rw (present, remove_member) (rw members dropped),
            λ k.
                rw (present, remove_member)
                  (rw slots (get-delete-put (heap p).persona_id k result.1.0 game.slots)),
          )
    ]
