-- ===== src/Server/Handlers/Apart.antt =====
-- The places of sessions under the handler `removePlayer` of hpserver/handlers.go.
use hp_server.Prelude.{
  ℕ, ◌≡◌, inl, inr, Bool, some, List, [], ◌∷◌, ◌==◌, ◌&&◌, not, if◌then◌else◌, Bool-cases,
  Option-cases, refl,
}
use hp_server.IntMap
use hp_server.IntMap.{IntMap, get}
use hp_server.IntMap.Laws.{put-All, delete-All, get-All}
use hp_server.Tdf.Value.{int_field}
use hp_server.Fire.{Frame}
use hp_server.Session.{Message}
use hp_server.Game.{Game, remove_member, refresh_mesh_readiness}
use hp_server.Server.{Server, update_session, notify_session}
use hp_server.Server.Leave.{without_session, remove_queued_session}
use hp_server.Server.Leave.Laws.{notify_session-tables, clear_members-tables, without_session-gone}
use hp_server.Server.Leave.Exclusive.{
  IsApart, IsPlaying, removed-IsPlaying, without_session-IsPlaying, without_session-AllPlaying,
  clear_members-IsExclusive,
}
use hp_server.Server.Notices.{player_removed_notification, game_removed_notification}
use hp_server.Server.Match.Exclusive.{
  SamePlaces, IsExclusive-SamePlaces, notify_session-SamePlaces, update_outside,
}
use hp_server.Server.Match.Cancel.Laws.{dropped-IsExclusive}
use hp_server.Server.Handlers.Removal.{
  removal_target, removed_from_game, take_out, tell_members, remove_player,
}

IsApart-SamePlaces : (s s' : Server) → SamePlaces s s' → s'.games ≡ s.games → IsApart s → IsApart s'
IsApart-SamePlaces s s' same games (exclusive, all) =
    (IsExclusive-SamePlaces s s' same exclusive, rw (same.0, games) all)

pub notify_session-IsApart :
    (p : ℕ) (frames : List Message) (s : Server) → IsApart s → IsApart (notify_session p frames s)
notify_session-IsApart p frames s =
    IsApart-SamePlaces s (notify_session p frames s) (notify_session-SamePlaces p frames s)
      (notify_session-tables p frames s).1

tell_members-IsApart :
    (members : List ℕ) (target : ℕ) (host_removed : Bool) (left ended : Message) (s : Server)
    → IsApart s
    → IsApart (tell_members members target host_removed left ended s)
unfolding tell_members
tell_members-IsApart [] target host_removed left ended s apart = apart
tell_members-IsApart (m ∷ ms) target host_removed left ended s apart =
    let frames = left ∷ (if host_removed && not (m == target) then ended ∷ [] else []) in
    tell_members-IsApart ms target host_removed left ended (notify_session m frames s)
      (notify_session-IsApart m frames s apart)

-- The session is out of the queue, and its place is its own.
taken-IsApart :
    (p : ℕ) (s : Server)
    → IsApart s
    → let s' = update_session p removed_from_game (remove_queued_session p s) in
      IsApart s' × (s'.match_queue ≡ without_session p s.match_queue)
unfolding remove_queued_session update_session
taken-IsApart p s (exclusive, all) =
    let s1 = remove_queued_session p s in
    let dropped = dropped-IsExclusive p s (without_session p s.match_queue) refl exclusive in
    (
      (
        update_outside p removed_from_game s1 (without_session-gone p s.match_queue) dropped,
        without_session-AllPlaying p s.match_queue s.games all,
      ),
      refl,
    )

take_out-IsApart :
    (target id : ℕ) (game : Game) (s : Server)
    → get id s.games ≡ some game
    → IsApart s
    → IsApart (take_out target id game s)
unfolding take_out refresh_mesh_readiness
take_out-IsApart target id game s found apart =
    let left = (remove_member s.heap target game).0 in
    let s' = update_session target removed_from_game (remove_queued_session target s) in
    let ((exclusive, all), queue) = taken-IsApart target s apart in
    let playing = get-All (IsPlaying s.match_queue) id game s.games apart.1 found in
    let stay : IsPlaying s'.match_queue left =
      removed-IsPlaying s.heap target s'.match_queue game
        (rw queue (without_session-IsPlaying target s.match_queue game playing)) in
    elim (Bool-cases (target == game.host)) [
      | inl host ↦
          let s0 = record s' { games = IntMap.delete id s'.games } in
          rw (host, take_out)
            (
              clear_members-IsExclusive left.members s0 stay exclusive,
              rw
                  (
                    (clear_members-tables left.members s0).0.0,
                    (clear_members-tables left.members s0).1,
                  )
                  (delete-All (IsPlaying s'.match_queue) id s'.games all),
            )
      | inr guest ↦
          rw (guest, take_out)
            (
              exclusive,
              put-All (IsPlaying s'.match_queue) id (refresh_mesh_readiness s'.heap left) s'.games
                  stay all,
            )
    ]

-- Removing a player keeps the sessions apart, whoever asks for whom: if before the request every
-- queued session had one request, was in no game and knew the request, and no member of a game was
-- queued, then so it is after it.
pub remove_player-IsApart :
    (p : ℕ) (req : Frame) (s : Server) → IsApart s → IsApart (remove_player p req s).0
unfolding remove_player
remove_player-IsApart p req s apart =
    let id = int_field "GID" req.tdf in
    let player_id = int_field "PID" req.tdf in
    elim (Option-cases (get id s.games)) [
      | inl missing ↦
          let left =
            player_removed_notification id player_id (int_field "CNTX" req.tdf)
              (int_field "REAS" req.tdf) in
          rw (missing, remove_player) (notify_session-IsApart p (left ∷ []) s apart)
      | inr (game, found) ↦ elim (Option-cases (removal_target s.heap p game player_id)) [
        | inl nobody ↦ rw (found, nobody, remove_player) apart
        | inr (target, e) ↦
            let left =
              player_removed_notification id (s.heap target).persona_id (int_field "CNTX" req.tdf)
                (int_field "REAS" req.tdf) in
            rw (found, e, remove_player)
              (tell_members-IsApart game.members target (target == game.host) left
                (game_removed_notification id 2) (take_out target id game s)
                (take_out-IsApart target id game s found apart))
      ]
    ]
