-- ===== src/Server/Leave/Exclusive.antt =====
-- The places of sessions under `removeSession` of hpserver/server.go.
use hp_server.Prelude.{
  ℕ, ◌≡◌, ◌≢◌, inl, inr, Bool, true, false, Option, none, some, List, [], ◌∷◌, All, ◌==◌,
  Bool-cases, Option-cases, refl, ◌∙◌, sym, subst, All-map,
}
use hp_server.IntMap
use hp_server.IntMap.{IntMap, get}
use hp_server.IntMap.Laws.{put-All, delete-All, get-All}
use hp_server.Session.{Message, Heap}
use hp_server.Session.Outbox.{close}
use hp_server.Game.{
  Game, MatchRequest, remove_member, is_member, refresh_mesh_readiness, session_for_player_id,
}
use hp_server.Game.Roster.Remove.{drop_member-All}
use hp_server.Server.{Server, update_session, notify_session, notify_all}
use hp_server.Server.Leave.{
  idle, without_session, remove_queued_session, clear_members, find_game, game_of_leaver,
  settle_departure, departure_frames, leave_game, withdraw, remove_session,
}
use hp_server.Server.Match.Exclusive.{
  IsExclusive, SamePlaces, SamePlaces-trans, IsExclusive-SamePlaces, notify_session-SamePlaces,
  update_outside, remove_queued-IsExclusive, without_session-All,
}
use hp_server.Server.Leave.Laws.{notify_all-tables, clear_members-tables, leave_game-tables}
use hp_server.Server.Match.Found.{Outside}

-- No member of the game has a request in the queue.
abbrev pub IsPlaying : List MatchRequest → Game → Type 0
IsPlaying queue game = All (Outside queue) game.members

abbrev pub AllPlaying : List MatchRequest → IntMap Game → Type 0
AllPlaying queue games = All (λ e. IsPlaying queue e.1) games

-- The sessions keep apart: a queued session has one request, is in no game and knows the request,
-- and no member of a game is queued.
abbrev pub IsApart : Server → Type 0
IsApart s = IsExclusive s × AllPlaying s.match_queue s.games

pub removed-IsPlaying :
    (heap : Heap) (p : ℕ) (queue : List MatchRequest) (game : Game)
    → IsPlaying queue game
    → IsPlaying queue (remove_member heap p game).0
unfolding remove_member
removed-IsPlaying heap p queue game h = elim (Bool-cases (is_member p game.members)) [
  | inl member ↦ rw (member, remove_member) (drop_member-All (Outside queue) p game.members h)
  | inr stranger ↦ rw (stranger, remove_member) h
]

-- A shorter queue leaves out whom the longer one left out.
pub without_session-IsPlaying :
    (p : ℕ) (queue : List MatchRequest) (game : Game)
    → IsPlaying queue game
    → IsPlaying (without_session p queue) game
without_session-IsPlaying p queue game =
    All-map (λ m out. without_session-All (λ r. r.session ≢ m) p queue out) game.members

pub without_session-AllPlaying :
    (p : ℕ) (queue : List MatchRequest) (games : IntMap Game)
    → AllPlaying queue games
    → AllPlaying (without_session p queue) games
without_session-AllPlaying p queue games =
    All-map (λ e. without_session-IsPlaying p queue e.1) games

find_game-IsPlaying :
    (heap : Heap) (p key : ℕ) (queue : List MatchRequest) (game : Game) (games : IntMap Game)
    → AllPlaying queue games
    → find_game heap p games ≡ some (key, game)
    → IsPlaying queue game
unfolding find_game
find_game-IsPlaying heap p key queue game [] h found = absurd (cc)
find_game-IsPlaying heap p key queue game ((k, g) ∷ games) (first, h) found =
    let later = find_game-IsPlaying heap p key queue game games h in
    elim (Option-cases (session_for_player_id heap g.members (heap p).persona_id)) [
      | inl missing ↦ later (sym (rw (missing, find_game) refl) ∙ found)
      | inr (m, e) ↦ elim (Bool-cases (m == p)) [
        | inl same ↦
            let mine : ◌≡◌ {A = Option (ℕ × Game)} (some (k, g)) (some (key, game)) =
              sym (rw (e, same, find_game) refl) ∙ found in
            let e' : ◌≡◌ {A = ℕ × Game} (k, g) (key, game) = cc in
            subst (λ x. IsPlaying queue x.1) e' first
        | inr other ↦ later (sym (rw (e, other, find_game) refl) ∙ found)
      ]
    ]

game_of_leaver-IsPlaying :
    (p id key : ℕ) (game : Game) (s : Server)
    → AllPlaying s.match_queue s.games
    → game_of_leaver p id s ≡ some (key, game)
    → IsPlaying s.match_queue game
unfolding game_of_leaver
game_of_leaver-IsPlaying p id key game s h found = elim (Option-cases (get id s.games)) [
  | inl missing ↦
      find_game-IsPlaying s.heap p key s.match_queue game s.games h
        (sym (rw (missing, game_of_leaver) refl) ∙ found)
  | inr (g, e) ↦
      let mine : ◌≡◌ {A = Option (ℕ × Game)} (some (id, g)) (some (key, game)) =
        sym (rw (e, game_of_leaver) refl) ∙ found in
      let e' : ◌≡◌ {A = ℕ × Game} (id, g) (key, game) = cc in
      subst (λ x. IsPlaying s.match_queue x.1) e'
        (get-All (IsPlaying s.match_queue) id g s.games h e)
]

notify_all-SamePlaces :
    (members : List ℕ) (frames : List Message) (s : Server)
    → SamePlaces s (notify_all members frames s)
unfolding notify_all
notify_all-SamePlaces [] frames s = (refl, λ q. (refl, refl))
notify_all-SamePlaces (m ∷ ms) frames s =
    let s' = notify_session m frames s in
    SamePlaces-trans s s' (notify_all ms frames s') (notify_session-SamePlaces m frames s)
      (notify_all-SamePlaces ms frames s')

pub clear_members-IsExclusive :
    (members : List ℕ) (s : Server)
    → All (Outside s.match_queue) members
    → IsExclusive s
    → IsExclusive (clear_members members s)
unfolding clear_members update_session
clear_members-IsExclusive [] s outside exclusive = exclusive
clear_members-IsExclusive (m ∷ ms) s (out, outside) exclusive =
    clear_members-IsExclusive ms (update_session m idle s) outside
      (update_outside m idle s out exclusive)

-- The queue and the games as `removeSession` finds them when it comes to the game.
withdraw-IsExclusive :
    (p : ℕ) (s : Server)
    → IsExclusive s
    → IsExclusive (withdraw p s)
      × ((withdraw p s).match_queue ≡ without_session p s.match_queue)
      × ((withdraw p s).games ≡ s.games)
      × Outside (without_session p s.match_queue) p
unfolding withdraw remove_queued_session update_session
withdraw-IsExclusive p s exclusive =
    let s1 = remove_queued_session p (update_session p close s) in
    let (kept, outside, zero) = remove_queued-IsExclusive p close s exclusive in
    (update_outside p idle s1 outside kept, refl, refl, outside)

settle-IsExclusive :
    (host_left : Bool) (key : ℕ) (game : Game) (s : Server)
    → IsPlaying s.match_queue game
    → AllPlaying s.match_queue s.games
    → IsExclusive s
    → let s' = settle_departure host_left key game s in
      IsExclusive s' × AllPlaying s.match_queue s'.games
unfolding settle_departure refresh_mesh_readiness
settle-IsExclusive true key game s playing all exclusive =
    let s0 = record s { games = IntMap.delete game.id s.games } in
    (
      clear_members-IsExclusive game.members s0 playing exclusive,
      rw (clear_members-tables game.members s0).1
          (delete-All (IsPlaying s.match_queue) game.id s.games all),
    )
settle-IsExclusive false key game s playing all exclusive = (
  exclusive,
  put-All (IsPlaying s.match_queue) key (refresh_mesh_readiness s.heap game) s.games playing all,
)

leave_game-IsExclusive :
    (p : ℕ) (place : Option (ℕ × Game)) (s : Server)
    → ((key : ℕ) (game : Game) → place ≡ some (key, game) → IsPlaying s.match_queue game)
    → AllPlaying s.match_queue s.games
    → IsExclusive s
    → let s' = leave_game p place s in IsExclusive s' × AllPlaying s.match_queue s'.games
unfolding leave_game
leave_game-IsExclusive p none s playing all exclusive = (exclusive, all)
leave_game-IsExclusive p (some (key, game)) s playing all exclusive =
    let removed = (remove_member s.heap p game).0 in
    let host_left = removed.host == p in
    let s' = settle_departure host_left key removed s in
    let frames = departure_frames host_left game.id (s.heap p).persona_id in
    let stay = removed-IsPlaying s.heap p s.match_queue game (playing key game refl) in
    let (kept, all') = settle-IsExclusive host_left key removed s stay all exclusive in
    (
      IsExclusive-SamePlaces s' (notify_all removed.members frames s')
          (notify_all-SamePlaces removed.members frames s') kept,
      rw (notify_all-tables removed.members frames s').1 all',
    )

-- A connection that ends keeps the places of the sessions apart. If before it every queued session
-- had one request, was in no game and knew the request, and no member of a game was queued, then so
-- it is after `removeSession`, whether the session was queued, a member or a host, and the session
-- itself has no request.
pub remove_session-IsApart :
    (p : ℕ) (s : Server)
    → IsApart s
    → IsApart (remove_session p s) × Outside (remove_session p s).match_queue p
unfolding remove_session
remove_session-IsApart p s (exclusive, all) =
    let s1 = withdraw p s in
    let (kept, queue, games, outside) = withdraw-IsExclusive p s exclusive in
    let place = game_of_leaver p (s.heap p).game_id s1 in
    let all1 : AllPlaying s1.match_queue s1.games =
      rw (queue, games) (without_session-AllPlaying p s.match_queue s.games all) in
    let (kept', all') =
      leave_game-IsExclusive p place s1
        (λ key game found. game_of_leaver-IsPlaying p (s.heap p).game_id key game s1 all1 found)
        all1 kept in
    let same : (remove_session p s).match_queue ≡ s1.match_queue =
      (leave_game-tables p place s1).0 in
    ((kept', rw same all'), rw (same, queue) outside)
