-- ===== src/Game/Roster.antt =====
-- The rosters of hpserver/game.go, and that `ensureMembershipState` leaves them as they are.
pub mod Add
pub mod Remove
pub mod New
use hp_server.Prelude.{
  ℕ, suc, ◌+◌, ◌^◌, ◌<◌, ◌≤◌, ◌≡◌, ◌≢◌, ◌⊎◌, inl, inr, Bool, true, false, Option, none, some, List,
  [], ◌∷◌, ◌++◌, arith, length, All, All-append, All-map, sym, ◌==◌, ◌||◌, if◌then◌else◌,
  Option-cases, Bool-cases, refl, length-append, not, slt, ◌&&◌, subst, ap, ◌∙◌,
}
use hp_server.IntMap
use hp_server.IntMap.{IntMap, contains, values, get}
use hp_server.IntMap.Laws.{get-put}
use hp_server.Session.{Heap, Session}
use hp_server.Game.{
  Game, free_slot, put_missing, ensure_member, ensure_members, ensure_membership_state, find_member,
  seat, add_member, place_member, minus_one,
}
use hp_server.Game.Slots.{free_slot_lowest}

-- No two members have the same persona.
abbrev pub Distinct : Heap → List ℕ → Type 0
Distinct heap [] = Unit
Distinct heap (m ∷ ms) =
    All (λ other. (heap other).persona_id ≢ (heap m).persona_id) ms × Distinct heap ms

-- Members have slots, and a slot has one persona.
abbrev pub IsRoster : Heap → Game → Type 0
IsRoster heap game =
    Distinct heap game.members
    × All (λ m. IntMap.has (heap m).persona_id game.slots ≡ true) game.members
    × ((a b slot : ℕ) → get a game.slots ≡ some slot → get b game.slots ≡ some slot → a ≡ b)

-- Where every member has a slot, making the state whole changes no member and no slot.
ensure_members_slots :
    (heap : Heap) (now index : ℕ) (members : List ℕ) (game : Game)
    → All (λ m. IntMap.has (heap m).persona_id game.slots ≡ true) members
    → (ensure_members heap now index members game).slots ≡ game.slots
unfolding ensure_members ensure_member
ensure_members_slots heap now index [] game h = refl
ensure_members_slots heap now index (m ∷ ms) game (h, hs) =
    let kept : (ensure_member now index (heap m).persona_id game).slots ≡ game.slots = rw h refl in
    ensure_members_slots heap now (index + 1) ms (ensure_member now index (heap m).persona_id game)
      (rw h hs)
    ∙ kept

-- Only the slots, the times and the states of the members are looked after.
ensure_members_frame :
    (heap : Heap) (now index : ℕ) (members : List ℕ) (game : Game)
    → ((ensure_members heap now index members game).members ≡ game.members)
      × ((ensure_members heap now index members game).capacity ≡ game.capacity)
unfolding ensure_members ensure_member
ensure_members_frame heap now index [] game = (refl, refl)
ensure_members_frame heap now index (m ∷ ms) game =
    ensure_members_frame heap now (index + 1) ms (ensure_member now index (heap m).persona_id game)

-- The member that has the session's place, if there is one.
pub find_member_cases :
    (heap : Heap) (session : ℕ) (members : List ℕ)
    → ((find_member heap session members ≡ none)
        × All (λ m. (heap m).persona_id ≢ (heap session).persona_id) members)
      ⊎ ((m : ℕ) × (find_member heap session members ≡ some m)
          × ((heap m).persona_id ≡ (heap session).persona_id))
unfolding find_member
find_member_cases heap session [] = inl (refl, tt)
find_member_cases heap session (m ∷ ms) =
    elim (Bool-cases ((m == session) || ((heap m).persona_id == (heap session).persona_id))) [
      | inl same ↦ inr (m, rw same refl, ground arith)
      | inr other ↦ elim (find_member_cases heap session ms) [
        | inl (e, hs) ↦ inl (rw other e, (ground arith, hs))
        | inr (m', e, h) ↦ inr (m', rw other e, h)
      ]
    ]

get-contains : (k v : ℕ) (m : IntMap ℕ) → get k m ≡ some v → contains (values m) v ≡ true
unfolding get contains values
get-contains k v [] h = cc
get-contains k v ((j, w) ∷ m) h = ground (arith, get-contains k v m)

has-put :
    (k j v : ℕ) (m : IntMap ℕ) → IntMap.has j m ≡ true → IntMap.has j (IntMap.put k v m) ≡ true
has-put k j v m h = rw (get-put k j v m, IntMap.has) (ground arith)

has_self : (k v : ℕ) (m : IntMap ℕ) → IntMap.has k (IntMap.put k v m) ≡ true
has_self k v m = rw (get-put k k v m, IntMap.has) (ground arith)

-- A slot that is not in use goes to one more persona.
put_one :
    (k slot : ℕ) (slots : IntMap ℕ)
    → contains (values slots) slot ≡ false
    → ((a b x : ℕ) → get a slots ≡ some x → get b slots ≡ some x → a ≡ b)
    → (a b x : ℕ) → get a (IntMap.put k slot slots) ≡ some x
    → get b (IntMap.put k slot slots) ≡ some x
    → a ≡ b
put_one k slot slots free one a b x ha hb =
    let ha' : (if k == a then some slot else get a slots) ≡ some x =
      sym (get-put k a slot slots) ∙ ha in
    let hb' : (if k == b then some slot else get b slots) ≡ some x =
      sym (get-put k b slot slots) ∙ hb in
    ground (arith, one a b x, get-contains a x slots, get-contains b x slots)

Distinct-append :
    (heap : Heap) (p : ℕ) (members : List ℕ)
    → Distinct heap members
    → All (λ m. (heap m).persona_id ≢ (heap p).persona_id) members
    → Distinct heap (members ++ p ∷ [])
Distinct-append heap p [] d h = (tt, tt)
Distinct-append heap p (m ∷ ms) (first, d) (h, hs) = (
  All-append (λ other. (heap other).persona_id ≢ (heap m).persona_id) ms (p ∷ []) first
      (λ e. h (sym e), tt),
  Distinct-append heap p ms d hs,
)

-- A session that is not in the roster and has a free slot keeps it a roster.
pub seat-IsRoster :
    (heap : Heap) (now p : ℕ) (game : Game)
    → length (values game.slots) < 2 ^ 64
    → IsRoster heap game
    → All (λ m. (heap m).persona_id ≢ (heap p).persona_id) game.members
    → IsRoster heap (seat now p (heap p).persona_id game)
unfolding seat
seat-IsRoster heap now p game small (d, slotted, one) fresh =
    let k = (heap p).persona_id in
    let slot = free_slot game.slots in
    let (free, below, bounded) = free_slot_lowest game.slots small in
    (
      Distinct-append heap p game.members d fresh,
      All-append (λ m. IntMap.has (heap m).persona_id (IntMap.put k slot game.slots) ≡ true)
          game.members (p ∷ [])
          (All-map (λ m h. has-put k (heap m).persona_id slot game.slots h) game.members slotted)
          (has_self k slot game.slots, tt),
      put_one k slot game.slots free one,
    )

-- Making the membership state whole leaves a roster as it is.
pub whole-IsRoster :
    (heap : Heap) (now : ℕ) (game : Game)
    → IsRoster heap game
    → IsRoster heap (ensure_membership_state heap now game)
      × ((ensure_membership_state heap now game).slots ≡ game.slots)
      × ((ensure_membership_state heap now game).members ≡ game.members)
      × ((ensure_membership_state heap now game).capacity ≡ game.capacity)
unfolding ensure_membership_state
whole-IsRoster heap now game (d, slotted, one) =
    let slots = ensure_members_slots heap now 0 game.members game slotted in
    let (members, capacity) = ensure_members_frame heap now 0 game.members game in
    ((rw members d, rw (members, slots) slotted, rw slots one), slots, members, capacity)
