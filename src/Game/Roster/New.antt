-- ===== src/Game/Roster/New.antt =====
-- The rosters that `newGame` of hpserver/game.go makes.
use hp_server.Prelude.{
  ℕ, ◌+◌, ◌^◌, ◌<◌, ◌≤◌, ◌≡◌, some, List, [], ◌∷◌, arith, length, All, inl, inr,
}
use hp_server.IntMap
use hp_server.IntMap.{IntMap, values, get}
use hp_server.Tdf.Value.{Entries}
use hp_server.Session.{Heap}
use hp_server.Game.{Game, add_member, add_members, blank_game, new_game}
use hp_server.Game.Members.{add_member-All}
use hp_server.Game.Roster.{IsRoster}
use hp_server.Game.Roster.Add.{add_member_cases, add_member-IsRoster}

length-put : (k v : ℕ) (m : IntMap ℕ) → length (values (IntMap.put k v m)) ≤ length (values m) + 1
unfolding IntMap.put values
length-put k v [] = omega arith
length-put k v ((j, w) ∷ m) = ground (arith, length-put k v m)

-- A game has at most one slot more after a session is added.
length-add_member :
    (heap : Heap) (now p : ℕ) (game : Game)
    → IsRoster heap game
    → length (values (add_member heap now p game).0.slots) ≤ length (values game.slots) + 1
length-add_member heap now p game roster = elim (add_member_cases heap now p game roster) [
  | inl (a, m, slots, s, own) ↦ rw slots (omega arith)
  | inr (inl (a, m, slots, s, full, fresh)) ↦ rw slots (omega arith)
  | inr (inr (a, m, slots, s, room, fresh)) ↦
      rw slots (length-put (heap p).persona_id (add_member heap now p game).1.0 game.slots)
]

add_members-IsRoster :
    (heap : Heap) (now : ℕ) (members : List ℕ) (game : Game)
    → length (values game.slots) + length members < 2 ^ 64
    → IsRoster heap game
    → IsRoster heap (add_members heap now members game)
unfolding add_members
add_members-IsRoster heap now [] game small roster = roster
add_members-IsRoster heap now (m ∷ ms) game small roster =
    let longer = length-add_member heap now m game roster in
    add_members-IsRoster heap now ms (add_member heap now m game).0 (omega (arith, longer, small))
      (add_member-IsRoster heap now m game (omega (arith, small)) roster)

no_slots : (a b x : ℕ) → get a [] ≡ some x → get b [] ≡ some x → a ≡ b
unfolding get
no_slots a b x ha hb = let never : ⊥ = cc in absurd never

-- A new game is a roster, whatever sessions are to be in it, as long as they are fewer than int64s.
pub new_game-IsRoster :
    (heap : Heap) (now id host : ℕ) (members : List ℕ) (attrs : Entries)
    (capacity topology state : ℕ)
    → length members < 2 ^ 64
    → IsRoster heap (new_game heap now id host members attrs capacity topology state)
unfolding new_game values
new_game-IsRoster heap now id host members attrs capacity topology state small =
    add_members-IsRoster heap now members (blank_game id host attrs capacity topology state)
      (omega (arith, small)) (tt, tt, no_slots)

-- What holds of the sessions that are to be in it holds of the members of a game.
add_members-All {ℓ} :
    (P : ℕ → Type ℓ) (heap : Heap) (now : ℕ) (members : List ℕ) (game : Game)
    → All P members
    → All P game.members
    → All P (add_members heap now members game).members
unfolding add_members
add_members-All P heap now [] game h hs = hs
add_members-All P heap now (m ∷ ms) game (hm, hms) hs =
    add_members-All P heap now ms (add_member heap now m game).0 hms
      (add_member-All P heap now m game hm hs)

pub new_game-All {ℓ} :
    (P : ℕ → Type ℓ) (heap : Heap) (now id host : ℕ) (members : List ℕ) (attrs : Entries)
    (capacity topology state : ℕ)
    → All P members
    → All P (new_game heap now id host members attrs capacity topology state).members
unfolding new_game
new_game-All P heap now id host members attrs capacity topology state h =
    add_members-All P heap now members (blank_game id host attrs capacity topology state) h tt
