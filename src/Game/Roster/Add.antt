-- ===== src/Game/Roster/Add.antt =====
-- What `addMember` of hpserver/game.go does to a roster.
use hp_server.Prelude.{
  ℕ, ◌+◌, ◌^◌, ◌<◌, ◌≤◌, ◌≡◌, ◌≢◌, ◌⊎◌, inl, inr, Bool, true, false, none, some, List, [], ◌∷◌,
  ◌++◌, arith, length, All, sym, ◌==◌, ◌||◌, Option-cases, Bool-cases, refl, length-append, not,
  slt, ◌&&◌, subst, ap, ◌∙◌,
}
use hp_server.IntMap
use hp_server.IntMap.{IntMap, contains, values, get}
use hp_server.Session.{Heap}
use hp_server.Game.{
  Game, free_slot, ensure_membership_state, find_member, seat, add_member, place_member, minus_one,
  is_member,
}
use hp_server.Game.Roster.{IsRoster, find_member_cases, seat-IsRoster, whole-IsRoster}

-- No member has the persona.
abbrev pub IsStranger : Heap → ℕ → List ℕ → Type 0
IsStranger heap persona members = All (λ m. (heap m).persona_id ≢ persona) members

-- A member has the persona.
abbrev pub HasPersona : Heap → ℕ → List ℕ → Type 0
HasPersona heap persona members =
    (m : ℕ) × (is_member m members ≡ true) × ((heap m).persona_id ≡ persona)

-- The three things that adding a member does: the session or one of its persona is there and keeps
-- its slot; none is and the game is full; none is and the session gets the lowest free slot.
abbrev pub Kept : Heap → ℕ → List ℕ → IntMap ℕ → Game × (ℕ × Bool) → Type 0
Kept heap persona members slots (game, (slot, added)) =
    (added ≡ false)
    × (game.members ≡ members)
    × (game.slots ≡ slots)
    × (get persona slots ≡ some slot)
    × HasPersona heap persona members

abbrev pub Refused : Heap → ℕ → List ℕ → IntMap ℕ → ℕ → Game × (ℕ × Bool) → Type 0
Refused heap persona members slots capacity (game, (slot, added)) =
    (added ≡ false)
    × (game.members ≡ members)
    × (game.slots ≡ slots)
    × (slot ≡ minus_one)
    × ((slt 0 capacity && not (slt (length members) capacity)) ≡ true)
    × IsStranger heap persona members

abbrev pub Seated : Heap → ℕ → ℕ → List ℕ → IntMap ℕ → ℕ → Game × (ℕ × Bool) → Type 0
Seated heap p persona members slots capacity (game, (slot, added)) =
    (added ≡ true)
    × (game.members ≡ members ++ p ∷ [])
    × (game.slots ≡ IntMap.put persona slot slots)
    × (slot ≡ free_slot slots)
    × ((slt 0 capacity && not (slt (length members) capacity)) ≡ false)
    × IsStranger heap persona members

abbrev pub Outcome : Heap → ℕ → ℕ → List ℕ → IntMap ℕ → ℕ → Game × (ℕ × Bool) → Type 0
Outcome heap p persona members slots capacity result =
    Kept heap persona members slots result
    ⊎ (Refused heap persona members slots capacity result
        ⊎ Seated heap p persona members slots capacity result)

found-is_member :
    (heap : Heap) (p m : ℕ) (members : List ℕ)
    → find_member heap p members ≡ some m
    → is_member m members ≡ true
unfolding find_member is_member
found-is_member heap p m [] e = let no : ⊥ = cc in absurd no
found-is_member heap p m (m' ∷ ms) e =
    elim (Bool-cases ((m' == p) || ((heap m').persona_id == (heap p).persona_id))) [
      | inl same ↦
          let e' : some m' ≡ some m = sym (rw same refl) ∙ e in
          let e'' : m' ≡ m = cc in let here : (m' == m) ≡ true = ground (arith, e'') in rw here refl
      | inr other ↦
          let later = found-is_member heap p m ms (sym (rw other refl) ∙ e) in ground (arith, later)
    ]

-- What holds of every member holds of the one that is found.
found-All {ℓ} :
    (P : ℕ → Type ℓ) (heap : Heap) (p m : ℕ) (members : List ℕ)
    → find_member heap p members ≡ some m
    → All P members
    → P m
unfolding find_member
found-All P heap p m [] e h = let no : ⊥ = cc in absurd no
found-All P heap p m (m' ∷ ms) e (h, hs) =
    elim (Bool-cases ((m' == p) || ((heap m').persona_id == (heap p).persona_id))) [
      | inl same ↦
          let e' : some m' ≡ some m = sym (rw same refl) ∙ e in
          let e'' : m' ≡ m = cc in subst P e'' h
      | inr other ↦ found-All P heap p m ms (sym (rw other refl) ∙ e) hs
    ]

has-get_or :
    (k : ℕ) (slots : IntMap ℕ)
    → IntMap.has k slots ≡ true
    → get k slots ≡ some (IntMap.get_or 0 k slots)
has-get_or k slots h = elim (Option-cases (get k slots)) [
  | inl missing ↦ let no : false ≡ true = sym (rw (missing, IntMap.has) refl) ∙ h in cc
  | inr (slot, e) ↦ rw (e, IntMap.get_or) refl
]

-- `placeMember` where the session is there, where the game is full, and where it has room.
pub place_found :
    (heap : Heap) (now p m : ℕ) (game : Game)
    → find_member heap p game.members ≡ some m
    → place_member heap now p game ≡ (game, (IntMap.get_or 0 (heap m).persona_id game.slots, false))
unfolding place_member
place_found heap now p m game e = rw (e, place_member) refl

abbrev pub is_full : Game → Bool
is_full game = slt 0 game.capacity && not (slt (length game.members) game.capacity)

pub place_full :
    (heap : Heap) (now p : ℕ) (game : Game)
    → find_member heap p game.members ≡ none
    → is_full game ≡ true
    → place_member heap now p game ≡ (game, (minus_one, false))
unfolding place_member
place_full heap now p game e full = rw (e, full, place_member) refl

pub place_seated :
    (heap : Heap) (now p : ℕ) (game : Game)
    → find_member heap p game.members ≡ none
    → is_full game ≡ false
    → place_member heap now p game
      ≡ (seat now p (heap p).persona_id game, (free_slot game.slots, true))
unfolding place_member
place_seated heap now p game e room = rw (e, room, place_member) refl

place_member_cases :
    (heap : Heap) (now p : ℕ) (game : Game)
    → All (λ m. IntMap.has (heap m).persona_id game.slots ≡ true) game.members
    → Outcome heap p
        (heap p).persona_id
        game.members
        game.slots
        game.capacity
        (place_member heap now p game)
unfolding seat
place_member_cases heap now p game slotted =
    let IsOutcome : Game × (ℕ × Bool) → Type 0 =
      Outcome heap p (heap p).persona_id game.members game.slots game.capacity in
    elim (find_member_cases heap p game.members) [
      | inr (m, e, same) ↦
          let has_slot =
            found-All (λ m. IntMap.has (heap m).persona_id game.slots ≡ true) heap p m game.members
              e slotted in
          subst IsOutcome (sym (place_found heap now p m game e)) (
            inl (
              refl,
              refl,
              refl,
              rw (← same) (has-get_or (heap m).persona_id game.slots has_slot),
              (m, found-is_member heap p m game.members e, same),
            ))
      | inl (e, fresh) ↦ elim (Bool-cases (is_full game)) [
        | inl full ↦
            subst IsOutcome (sym (place_full heap now p game e full))
              (inr (inl (refl, refl, refl, refl, full, fresh)))
        | inr room ↦
            subst IsOutcome (sym (place_seated heap now p game e room))
              (inr (inr (refl, refl, refl, refl, room, fresh)))
      ]
    ]

place_member-IsRoster :
    (heap : Heap) (now p : ℕ) (game : Game)
    → length (values game.slots) < 2 ^ 64
    → IsRoster heap game
    → IsRoster heap (place_member heap now p game).0
place_member-IsRoster heap now p game small roster =
    let IsKept : Game × (ℕ × Bool) → Type 0 = λ result. IsRoster heap result.0 in
    elim (find_member_cases heap p game.members) [
      | inr (m, e, same) ↦ subst IsKept (sym (place_found heap now p m game e)) roster
      | inl (e, fresh) ↦ elim (Bool-cases (is_full game)) [
        | inl full ↦ subst IsKept (sym (place_full heap now p game e full)) roster
        | inr room ↦
            subst IsKept (sym (place_seated heap now p game e room))
              (seat-IsRoster heap now p game small roster fresh)
      ]
    ]

Outcome-subst :
    (heap : Heap) (p persona : ℕ) {members members' : List ℕ} {slots slots' : IntMap ℕ}
    {capacity capacity' : ℕ} (result : Game × (ℕ × Bool))
    → members' ≡ members
    → slots' ≡ slots
    → capacity' ≡ capacity
    → Outcome heap p persona members' slots' capacity' result
    → Outcome heap p persona members slots capacity result
Outcome-subst heap p persona {members} {members'} {slots} {slots'} {capacity} {capacity'} result em
      es ec o =
    subst (λ c. Outcome heap p persona members slots c result) ec
      (subst (λ s. Outcome heap p persona members s capacity' result) es
        (subst (λ m. Outcome heap p persona m slots' capacity' result) em o))

-- Adding a session to a roster has one of three outcomes. It stays out where it, or another session
-- of its persona, is a member, and the slot is the one that the persona has; it is refused, with slot
-- −1, where the game has a positive capacity that its members reach; otherwise it comes last in the
-- roster, in the lowest free slot.
pub add_member_cases :
    (heap : Heap) (now p : ℕ) (game : Game)
    → IsRoster heap game
    → Outcome heap p
        (heap p).persona_id
        game.members
        game.slots
        game.capacity
        (add_member heap now p game)
unfolding add_member
add_member_cases heap now p game roster =
    let ((distinct, slotted, one), slots, members, capacity) =
      whole-IsRoster heap now game roster in
    Outcome-subst heap p (heap p).persona_id (add_member heap now p game) members slots capacity
      (place_member_cases heap now p (ensure_membership_state heap now game) slotted)

-- Adding a session keeps a roster: its members have different personas, all have slots, and no two
-- personas share one, as long as there are fewer slots than int64s.
pub add_member-IsRoster :
    (heap : Heap) (now p : ℕ) (game : Game)
    → length (values game.slots) < 2 ^ 64
    → IsRoster heap game
    → IsRoster heap (add_member heap now p game).0
unfolding add_member
add_member-IsRoster heap now p game small roster =
    let (whole, slots, members, capacity) = whole-IsRoster heap now game roster in
    place_member-IsRoster heap now p (ensure_membership_state heap now game) (rw slots small) whole

-- A roster with a capacity above zero and below 2 ^ 63, and with at most that many members, has at
-- most that many after a session is added.
pub add_member_capacity :
    (heap : Heap) (now p : ℕ) (game : Game)
    → IsRoster heap game
    → 0 < game.capacity
    → game.capacity < 2 ^ 63
    → length game.members ≤ game.capacity
    → length (add_member heap now p game).0.members ≤ game.capacity
add_member_capacity heap now p game roster positive small fits =
    let result = add_member heap now p game in
    elim (add_member_cases heap now p game roster) [
      | inl (a, m, s, g, own) ↦ rw m fits
      | inr (inl (a, m, s, e, full, fresh)) ↦ rw m fits
      | inr (inr (a, m, s, f, room, fresh)) ↦
          let longer : length result.0.members ≡ length game.members + 1 =
            ap length m ∙ length-append game.members (p ∷ []) in
          ground (arith, longer, room)
    ]
