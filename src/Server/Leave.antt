-- ===== src/Server/Leave.antt =====
-- `removeQueuedSessionLocked` and `removeSession`.
pub mod Laws
pub mod Exclusive
mod Tests
use hp_server.Prelude.{
  ℕ, Bool, true, false, Option, none, some, List, [], ◌∷◌, ◌++◌, ◌==◌, if◌then◌else◌,
}
use hp_server.IntMap
use hp_server.IntMap.{IntMap}
use hp_server.Session.{Session, Heap, Message}
use hp_server.Session.Outbox.{close}
use hp_server.Game.{
  Game, MatchRequest, remove_member, refresh_mesh_readiness, session_for_player_id,
}
use hp_server.Server.{Server, update_session, notify_session, notify_all}
use hp_server.Server.Notices.{player_removed_notification, game_removed_notification}

-- The queue without the requests of a session.
unfoldable pub without_session : ℕ → List MatchRequest → List MatchRequest
without_session p [] = []
without_session p (request ∷ queue) =
    let rest = without_session p queue in if request.session == p then rest else request ∷ rest

unfoldable pub remove_queued_session : ℕ → Server → Server
unfolding without_session update_session
remove_queued_session p s =
    update_session p (λ session. record session { queued_match_id = 0 })
      (record s { match_queue = without_session p s.match_queue })

abbrev pub idle : Session → Session
idle session = record session { game_id = 0; pending_matchmaking_game = 0; queued_match_id = 0 }

-- The game of a closed lobby is no longer theirs.
unfoldable pub clear_members : List ℕ → Server → Server
unfolding update_session
clear_members [] s = s
clear_members (member ∷ members) s = clear_members members (update_session member idle s)

-- `for _, candidate := range s.games`: the key and the game of the first that has the session.
unfoldable pub find_game : Heap → ℕ → IntMap Game → Option (ℕ × Game)
find_game heap p [] = none
find_game heap p ((key, game) ∷ games) =
    let rest = find_game heap p games in
    elim (session_for_player_id heap game.members (heap p).persona_id) [
      | none ↦ rest
      | some member ↦ if member == p then some (key, game) else rest
    ]

-- The game that `removeSession` takes the session out of.
unfoldable pub game_of_leaver : ℕ → ℕ → Server → Option (ℕ × Game)
unfolding find_game
game_of_leaver p game_id s = elim (IntMap.get game_id s.games) [
  | some game ↦ some (game_id, game)
  | none ↦ find_game s.heap p s.games
]

-- A roster without its host ends the game; any other is looked at again.
unfoldable pub settle_departure : Bool → ℕ → Game → Server → Server
unfolding clear_members
settle_departure true key game s =
    clear_members game.members (record s { games = IntMap.delete game.id s.games })
settle_departure false key game s = record s {
  games = IntMap.put key (refresh_mesh_readiness s.heap game) s.games;
}

-- What the members who stay are told.
unfoldable pub departure_frames : Bool → ℕ → ℕ → List Message
unfolding player_removed_notification game_removed_notification
departure_frames host_left game_id persona_id =
    player_removed_notification game_id persona_id 0 1
    ∷ (if host_left then game_removed_notification game_id 2 ∷ [] else [])

unfoldable pub leave_game : ℕ → Option (ℕ × Game) → Server → Server
unfolding settle_departure notify_all departure_frames
leave_game p none s = s
leave_game p (some (key, game)) s =
    let removed = (remove_member s.heap p game).0 in
    let host_left = removed.host == p in
    let s' = settle_departure host_left key removed s in
    notify_all removed.members (departure_frames host_left game.id (s.heap p).persona_id) s'

-- The part of `removeSession` before the game.
unfoldable pub withdraw : ℕ → Server → Server
unfolding remove_queued_session update_session close
withdraw p s =
    let session = s.heap p in
    let closing = update_session p close s in
    update_session p idle (
      remove_queued_session p (record closing {
        sessions = IntMap.delete session.session_id s.sessions;
        active_personas =
            if IntMap.get_or 0 session.persona_id s.active_personas == p
            then IntMap.delete session.persona_id s.active_personas
            else s.active_personas;
      }))

unfoldable pub remove_session : ℕ → Server → Server
unfolding withdraw leave_game game_of_leaver
remove_session p s =
    let s' = withdraw p s in leave_game p (game_of_leaver p (s.heap p).game_id s') s'
