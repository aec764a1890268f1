-- ===== src/Server/Handlers/Create.antt =====
-- The places of sessions under the handler `resetDedicatedServer` of hpserver/handlers.go.
use hp_server.Prelude.{ℕ, ◌≡◌, none, some, [], ◌∷◌, refl, Option-cases, inl, inr, inc64}
use hp_server.IntMap
use hp_server.IntMap.{IntMap}
use hp_server.Tdf.Value.{Fields, mapping_field}
use hp_server.Fire.{Frame}
use hp_server.Session.{Message}
use hp_server.Game.{Game, new_game}
use hp_server.Game.Roster.New.{new_game-All}
use hp_server.Game.Setup.{game_setup}
use hp_server.IntMap.Laws.{put-All}
use hp_server.Server.Leave.Exclusive.{IsApart, IsPlaying, AllPlaying, without_session-AllPlaying}
use hp_server.Game.Members.{game_setup-members}
use hp_server.Server.{Server, update_session}
use hp_server.Server.Leave.{remove_queued_session}
use hp_server.Server.Match.{get_matchmaking_capacity, get_matchmaking_topology}
use hp_server.Server.Match.Exclusive.{
  IsExclusive, update-SamePlaces, IsExclusive-SamePlaces, update_outside,
}
use hp_server.Server.Match.Queue.{out_of_game}
use hp_server.Server.Match.Found.{Outside}
use hp_server.Server.Match.Queue.Laws.{cleared-IsExclusive}
use hp_server.Server.Handlers.{own_game, hosting, open_game, reset_dedicated, with_pending}

-- A frame that is left for a session changes no place, whatever the games are.
left-IsExclusive :
    (p : ℕ) (frame : Message) (games : IntMap Game) (s : Server)
    → IsExclusive s
    → IsExclusive (update_session p (with_pending frame) (record s { games = games }))
left-IsExclusive p frame games s exclusive =
    let s' = record s { games = games } in
    IsExclusive-SamePlaces s' (update_session p (with_pending frame) s')
      (update-SamePlaces p (with_pending frame) s' (λ x. (refl, refl))) exclusive

open_game-IsExclusive :
    (now p : ℕ) (tdf : Fields) (s : Server)
    → Outside s.match_queue p
    → IsExclusive s
    → IsExclusive (open_game now p tdf s)
unfolding open_game
open_game-IsExclusive now p tdf s outside exclusive =
    let s0 = record s { next_game_id = inc64 s.next_game_id } in
    let s1 = update_session p (hosting s.next_game_id) s0 in
    let hosted : IsExclusive s1 = update_outside p (hosting s.next_game_id) s0 outside exclusive in
    let game =
      new_game s.heap now s.next_game_id p (p ∷ []) (mapping_field "ATTR" tdf)
        (get_matchmaking_capacity tdf) (get_matchmaking_topology tdf) 1 in
    let games = IntMap.put s.next_game_id (game_setup s1.heap now game).0 s1.games in
    left-IsExclusive p _ games s1 hosted

open_game-queue :
    (now p : ℕ) (tdf : Fields) (s : Server) → (open_game now p tdf s).match_queue ≡ s.match_queue
unfolding open_game update_session
open_game-queue now p tdf s = refl

open_game-AllPlaying :
    (now p : ℕ) (tdf : Fields) (s : Server)
    → Outside s.match_queue p
    → AllPlaying s.match_queue s.games
    → AllPlaying s.match_queue (open_game now p tdf s).games
unfolding open_game update_session
open_game-AllPlaying now p tdf s outside all =
    let id = s.next_game_id in
    let s1 = update_session p (hosting id) (record s { next_game_id = inc64 id }) in
    let attrs = mapping_field "ATTR" tdf in
    let capacity = get_matchmaking_capacity tdf in
    let topology = get_matchmaking_topology tdf in
    let game = new_game s.heap now id p (p ∷ []) attrs capacity topology 1 in
    let playing =
      new_game-All (Outside s.match_queue) s.heap now id p (p ∷ []) attrs capacity topology 1
        (outside, tt) in
    put-All (IsPlaying s.match_queue) id (game_setup s1.heap now game).0 s.games
      (rw (game_setup-members s1.heap now game) playing) all

pub reset_dedicated-IsApart :
    (now p : ℕ) (req : Frame) (s : Server) → IsApart s → IsApart (reset_dedicated now p req s).0
unfolding reset_dedicated remove_queued_session update_session
reset_dedicated-IsApart now p req s (exclusive, all) =
    let s' = remove_queued_session p (update_session p out_of_game s) in
    let (kept, outside, idle) = cleared-IsExclusive p s exclusive in
    elim (Option-cases (own_game p s)) [
      | inr (game, e) ↦ rw (e, reset_dedicated) (exclusive, all)
      | inl idle' ↦
          rw (idle', reset_dedicated)
            (
              open_game-IsExclusive now p req.tdf s' outside kept,
              rw (open_game-queue now p req.tdf s') (
                  open_game-AllPlaying now p req.tdf s' outside
                    (without_session-AllPlaying p s.match_queue s.games all)),
            )
    ]

-- Creating a game keeps the places exclusive: the host is taken out of the queue, and one that is in
-- a game already changes nothing.
pub reset_dedicated-IsExclusive :
    (now p : ℕ) (req : Frame) (s : Server)
    → IsExclusive s
    → IsExclusive (reset_dedicated now p req s).0
      × ((game : Game) → own_game p s ≡ some game → (reset_dedicated now p req s).0 ≡ s)
      × (own_game p s ≡ none → Outside (reset_dedicated now p req s).0.match_queue p)
unfolding reset_dedicated
reset_dedicated-IsExclusive now p req s exclusive =
    let s' = remove_queued_session p (update_session p out_of_game s) in
    let (kept, outside, idle) = cleared-IsExclusive p s exclusive in
    elim (Option-cases (own_game p s)) [
      | inr (game, e) ↦
          rw (e, reset_dedicated)
            (
              exclusive,
              λ game' h. refl,
              λ h. let no : some game ≡ none = h in let never : ⊥ = cc in absurd never,
            )
      | inl idle' ↦
          rw (idle', reset_dedicated)
            (
              open_game-IsExclusive now p req.tdf s' outside kept,
              λ game' h. let no : none ≡ some game' = h in let never : ⊥ = cc in absurd never,
              λ h. rw (open_game-queue now p req.tdf s') outside,
            )
    ]
