-- ===== src/Game/Tests.antt =====
-- The theorems on games of hpserver/game.go at concrete games.
use hp_server.Prelude.{
  ℕ, ◌^◌, ◌<◌, ◌≤◌, ◌≡◌, ◌≢◌, ◌↔◌, true, false, none, [], ◌∷◌, arith, length, refl, All, ◌==◌, ◌+◌,
  if◌then◌else◌,
}
use hp_server.IntMap
use hp_server.IntMap.{values, contains, get, put, next_free}
use hp_server.Tdf.Value.{no_entries}
use hp_server.Session.{Heap, new_session}
use hp_server.Game.{
  Game, ensure_members, free_slot, new_game, add_member, remove_member, mesh_ready_for_player,
}
use hp_server.Game.Slots.{free_slot_lowest}
use hp_server.Game.Roster.{IsRoster}
use hp_server.Game.Roster.Add.{Outcome, add_member_cases, add_member-IsRoster, add_member_capacity}
use hp_server.Game.Roster.Remove.{remove-add_member}
use hp_server.Game.Roster.New.{new_game-IsRoster}
use hp_server.Game.Mesh.{Linked, mesh_ready_iff}

-- The session `p` has the persona 100 + p.
abbrev players : Heap
players p = record (new_session none []) { persona_id = 100 + p }

-- Two players in a lobby for three, opened at 50.
abbrev lobby : Game
lobby = new_game players 50 7 1 (1 ∷ 2 ∷ []) no_entries 3 130 1

-- The third player, who joins at 60.
abbrev lobby_of_three : Game
lobby_of_three = (add_member players 60 3 lobby).0

lobby_members : lobby.members ≡ 1 ∷ 2 ∷ []
unfolding new_game ensure_members put get next_free contains values
lobby_members = refl

lobby_slots : lobby.slots ≡ (101, 0) ∷ (102, 1) ∷ []
unfolding new_game ensure_members put get next_free contains values
lobby_slots = refl

third_joins : (add_member players 60 3 lobby).1 ≡ (2, true)
unfolding new_game ensure_members put get next_free contains values
third_joins = refl

third_is_added : (add_member players 60 3 lobby).1.1 ≡ true
unfolding new_game ensure_members put get next_free contains values
third_is_added = refl

fourth_is_refused : (add_member players 70 4 lobby_of_three).1.1 ≡ false
unfolding new_game ensure_members put get next_free contains values
fourth_is_refused = refl

second_stays : (add_member players 60 2 lobby).1 ≡ (1, false)
unfolding new_game ensure_members put get next_free contains values
second_stays = refl

few_slots : length (values lobby.slots) < 2 ^ 64
unfolding new_game ensure_members put get next_free contains values
few_slots = omega arith

-- The slot between 0 and 2 is free.
abbrev gap : IntMap.IntMap ℕ
gap = (101, 0) ∷ (102, 2) ∷ []

gap_is_found : free_slot gap ≡ 1
unfolding free_slot next_free contains values
gap_is_found = refl

free_slot_lowest_example :
    (contains (values gap) (free_slot gap) ≡ false)
    × ((i : ℕ) → i < free_slot gap → contains (values gap) i ≡ true)
    × (free_slot gap ≤ length (values gap))
unfolding values
free_slot_lowest_example = free_slot_lowest gap (omega arith)

new_game-IsRoster_example :
    IsRoster players (new_game players 50 7 1 (1 ∷ 2 ∷ []) no_entries 3 130 1)
new_game-IsRoster_example =
    new_game-IsRoster players 50 7 1 (1 ∷ 2 ∷ []) no_entries 3 130 1 (omega arith)

lobby-IsRoster : IsRoster players lobby
lobby-IsRoster = new_game-IsRoster players 50 7 1 (1 ∷ 2 ∷ []) no_entries 3 130 1 (omega arith)

add_member_cases_example :
    Outcome players 3 103 lobby.members lobby.slots lobby.capacity (add_member players 60 3 lobby)
add_member_cases_example = add_member_cases players 60 3 lobby lobby-IsRoster

add_member-IsRoster_example : IsRoster players (add_member players 60 3 lobby).0
add_member-IsRoster_example = add_member-IsRoster players 60 3 lobby few_slots lobby-IsRoster

add_member_capacity_example : length (add_member players 60 3 lobby).0.members ≤ lobby.capacity
unfolding new_game ensure_members put get next_free contains values
add_member_capacity_example =
    add_member_capacity players 60 3 lobby lobby-IsRoster (omega arith) (omega arith) (omega arith)

remove-add_member_example :
    ((remove_member players 3 lobby_of_three).0.members ≡ lobby.members)
    × ((k : ℕ)
        → get k (remove_member players 3 lobby_of_three).0.slots
          ≡ (if 103 == k then none else get k lobby.slots))
remove-add_member_example = remove-add_member players 60 3 lobby lobby-IsRoster third_is_added

-- The two report each other as connected.
abbrev meshed : Game
meshed = record lobby { mesh = (101, (102, 2) ∷ []) ∷ (102, (101, 2) ∷ []) ∷ [] }

meshed_is_ready : mesh_ready_for_player players meshed 1 ≡ true
unfolding new_game mesh_ready_for_player ensure_members put get next_free contains values
meshed_is_ready = refl

half_meshed_is_not :
    mesh_ready_for_player players (record lobby { mesh = (101, (102, 2) ∷ []) ∷ [] }) 1 ≡ false
unfolding new_game mesh_ready_for_player ensure_members put get next_free contains values
half_meshed_is_not = refl

mesh_ready_iff_example :
    (mesh_ready_for_player players meshed 1 ≡ true)
    ↔ All (λ m. m ≢ 1 → Linked players meshed.mesh 1 m) meshed.members
mesh_ready_iff_example = mesh_ready_iff players meshed 1
