-- ===== src/Game/Members.antt =====
-- The operations of hpserver/game.go on the members of a game: filling in what is missing and telling
-- of the game leave them alone, and `addMember` adds its session at most.
use hp_server.Prelude.{
  ℕ, ◌+◌, ◌≡◌, inl, inr, List, [], ◌∷◌, false, ◌&&◌, not, slt, length, All, All-append, Bool-cases,
  Option-cases, refl, ◌∙◌,
}
use hp_server.Session.{Heap}
use hp_server.Game.{
  Game, ensure_member, ensure_members, ensure_membership_state, find_member, seat, place_member,
  add_member,
}
use hp_server.Game.Setup.{game_setup, replicated_players, replicated_game_player}

ensure_members-members :
    (heap : Heap) (now index : ℕ) (members : List ℕ) (game : Game)
    → (ensure_members heap now index members game).members ≡ game.members
unfolding ensure_members ensure_member
ensure_members-members heap now index [] game = refl
ensure_members-members heap now index (m ∷ ms) game =
    ensure_members-members heap now (index + 1) ms
      (ensure_member now index (heap m).persona_id game)

pub ensure_membership_state-members :
    (heap : Heap) (now : ℕ) (game : Game)
    → (ensure_membership_state heap now game).members ≡ game.members
unfolding ensure_membership_state
ensure_membership_state-members heap now game = ensure_members-members heap now 0 game.members game

replicated_players-members :
    (heap : Heap) (now : ℕ) (players : List ℕ) (game : Game)
    → (replicated_players heap now players game).0.members ≡ game.members
unfolding replicated_players replicated_game_player
replicated_players-members heap now [] game = refl
replicated_players-members heap now (m ∷ ms) game =
    replicated_players-members heap now ms (ensure_membership_state heap now game)
    ∙ ensure_membership_state-members heap now game

-- What a client is told of a game changes no roster.
pub game_setup-members :
    (heap : Heap) (now : ℕ) (game : Game) → (game_setup heap now game).0.members ≡ game.members
unfolding game_setup
game_setup-members heap now game =
    let whole = ensure_membership_state heap now game in
    replicated_players-members heap now whole.members whole
    ∙ ensure_membership_state-members heap now game

place_member-All {ℓ} :
    (P : ℕ → Type ℓ) (heap : Heap) (now p : ℕ) (game : Game)
    → P p
    → All P game.members
    → All P (place_member heap now p game).0.members
unfolding place_member seat
place_member-All P heap now p game hp hs = elim (Option-cases (find_member heap p game.members)) [
  | inr (m, e) ↦ rw (e, place_member) hs
  | inl stranger ↦
      elim (Bool-cases (slt 0 game.capacity && not (slt (length game.members) game.capacity))) [
        | inl full ↦ rw (stranger, full, place_member) hs
        | inr room ↦
            rw (stranger, room, place_member) (All-append P game.members (p ∷ []) hs (hp, tt))
      ]
]

-- Whatever the slots are.
pub add_member-All {ℓ} :
    (P : ℕ → Type ℓ) (heap : Heap) (now p : ℕ) (game : Game)
    → P p
    → All P game.members
    → All P (add_member heap now p game).0.members
unfolding add_member
add_member-All P heap now p game hp hs =
    place_member-All P heap now p (ensure_membership_state heap now game) hp
      (rw (ensure_membership_state-members heap now game) hs)

place_member-refused {ℓ} :
    (P : ℕ → Type ℓ) (heap : Heap) (now p : ℕ) (game : Game)
    → All P game.members
    → (place_member heap now p game).1.1 ≡ false
    → All P (place_member heap now p game).0.members
unfolding place_member
place_member-refused P heap now p game hs = elim (Option-cases (find_member heap p game.members)) [
  | inr (m, e) ↦ rw (e, place_member) (λ refused. hs)
  | inl stranger ↦
      elim (Bool-cases (slt 0 game.capacity && not (slt (length game.members) game.capacity))) [
        | inl full ↦ rw (stranger, full, place_member) (λ refused. hs)
        | inr room ↦ rw (stranger, room, place_member) (λ refused. absurd (cc))
      ]
]

-- A session that is not added changes no roster.
pub add_member-refused {ℓ} :
    (P : ℕ → Type ℓ) (heap : Heap) (now p : ℕ) (game : Game)
    → All P game.members
    → (add_member heap now p game).1.1 ≡ false
    → All P (add_member heap now p game).0.members
unfolding add_member
add_member-refused P heap now p game hs =
    place_member-refused P heap now p (ensure_membership_state heap now game)
      (rw (ensure_membership_state-members heap now game) hs)
