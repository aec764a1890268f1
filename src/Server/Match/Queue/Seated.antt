-- ===== src/Server/Match/Queue/Seated.antt =====
-- Wherever `queueMatch` of hpserver/server.go puts a session, the sessions keep apart.
use hp_server.Prelude.{
  ℕ, ◌≡◌, ◌≢◌, inl, inr, false, Option, none, some, List, [], ◌∷◌, ◌++◌, All, All-map, All-append,
  Bool-cases, Option-cases, refl, inc64,
}
use hp_server.IntMap
use hp_server.IntMap.{IntMap, get}
use hp_server.IntMap.Laws.{get-All}
use hp_server.Tdf.Value.{Fields}
use hp_server.Game.{Game, MatchRequest}
use hp_server.Server.{Server, update_session}
use hp_server.Server.Leave.{remove_queued_session}
use hp_server.Server.Leave.Exclusive.{IsApart, IsPlaying, AllPlaying, without_session-AllPlaying}
use hp_server.Server.Match.{try_games, sorted_ids, take_match}
use hp_server.Server.Match.Found.{Outside, take_match-All, take_match-IsQueue}
use hp_server.Server.Match.Queue.{
  encodes, meet_messages, join_messages, meet, wait_or_pair, take_place, find_place, out_of_game,
  request_of, is_active_member, queue_match,
}
use hp_server.Server.Match.Exclusive.{IsQueue}
use hp_server.Server.Match.Queue.Laws.{cleared-IsExclusive, queue_match-IsExclusive}
use hp_server.Server.Match.Queue.Apart.{join_game-AllPlaying, pair_sessions-AllPlaying}
use hp_server.Server.Match.Queue.Tried.{Holds, Holds-elim, IsUnseated, try_games-All}

-- No member of a game is queued, in the state itself.
abbrev AllApart : Server → Type 0
AllApart s = AllPlaying s.match_queue s.games

waits-AllApart :
    (c : MatchRequest) (queue : List MatchRequest) (games : IntMap Game)
    → IsUnseated c.session games
    → AllPlaying queue games
    → AllPlaying (queue ++ c ∷ []) games
waits-AllApart c queue [] unseated all = tt
waits-AllApart c queue ((k, game) ∷ games) (away, unseated) (playing, all) =
    (go game.members away playing, waits-AllApart c queue games unseated all)
  where
    go :
        (ms : List ℕ)
        → All (λ m. c.session ≢ m) ms
        → All (Outside queue) ms
        → All (Outside (queue ++ c ∷ [])) ms
    go [] h out = tt
    go (m ∷ ms) (h, hs) (out, outs) =
        (All-append (λ r. r.session ≢ m) queue (c ∷ []) out (h, tt), go ms hs outs)

meet-AllApart :
    (now : ℕ) (c : MatchRequest) (s : Server) (found : Option (MatchRequest × List MatchRequest))
    → take_match c s.match_queue ≡ some found
    → IsQueue s.match_queue
    → Outside s.match_queue c.session
    → IsUnseated c.session s.games
    → AllApart s
    → AllApart (meet now c s found)
unfolding meet update_session
meet-AllApart now c s none h distinct outside unseated all =
    waits-AllApart c s.match_queue s.games unseated all
meet-AllApart now c s (some (w, others)) h distinct outside unseated all =
    let (distinct', out_w) = take_match-IsQueue c w s.match_queue others h distinct in
    let (apart, out_c) =
      take_match-All (λ r. r.session ≢ c.session) c w s.match_queue others h outside in
    let fewer =
      All-map
        (λ e.
          All-map (λ m out. (take_match-All (λ r. r.session ≢ m) c w s.match_queue others h out).1)
            e.1.members)
        s.games all in
    let (queue, kept) =
      pair_sessions-AllPlaying now w c (record s { match_queue = others }) out_w out_c fewer in
    rw queue kept

take_place-AllApart :
    (now : ℕ) (c : MatchRequest) (s : Server) (joined : Option ℕ)
    → IsQueue s.match_queue
    → Outside s.match_queue c.session
    → (joined ≡ none → IsUnseated c.session s.games)
    → AllApart s
    → Holds AllApart (take_place now c s joined)
unfolding take_place wait_or_pair
take_place-AllApart now c s none distinct outside unseated all =
    elim (Option-cases (take_match c s.match_queue)) [
      | inl panic ↦ rw (panic, wait_or_pair) tt
      | inr (found, e) ↦ elim (Bool-cases (encodes (meet_messages now c s found))) [
        | inr panic ↦ rw (e, panic, wait_or_pair) tt
        | inl encoded ↦
            rw (e, encoded, wait_or_pair)
              (meet-AllApart now c s found e distinct outside (unseated refl) all)
      ]
    ]
take_place-AllApart now c s (some id) distinct outside unseated all =
    elim (Option-cases (get id s.games)) [
      | inl missing ↦ rw (missing, take_place) all
      | inr (game, found) ↦
          let playing = get-All (IsPlaying s.match_queue) id game s.games all found in
          let (queue, kept) = join_game-AllPlaying now c.session c.msid id game s playing all in
          elim (Bool-cases (encodes (join_messages now c.session c.msid game s))) [
            | inr panic ↦ rw (found, panic, take_place) tt
            | inl encoded ↦ rw (found, encoded, take_place) (rw queue kept)
          ]
    ]

find_place-AllApart :
    (now : ℕ) (c : MatchRequest) (s : Server)
    → IsQueue s.match_queue
    → Outside s.match_queue c.session
    → IsUnseated c.session s.games
    → AllApart s
    → Holds AllApart (find_place now c s)
unfolding find_place
find_place-AllApart now c s distinct outside unseated all =
    let ids = sorted_ids (IntMap.keys s.games) in
    elim (Option-cases (try_games s.heap now c ids s.games)) [
      | inl panic ↦ rw (panic, find_place) tt
      | inr ((games, joined), e) ↦
          let playing =
            Holds-elim
              (λ r.
                (Outside s.match_queue c.session → AllPlaying s.match_queue r.0)
                × (r.1 ≡ none → AllPlaying s.match_queue r.0))
              (try_games-All (Outside s.match_queue) s.heap now c ids s.games all) e in
          let away =
            Holds-elim
              (λ r.
                (c.session ≢ c.session → IsUnseated c.session r.0)
                × (r.1 ≡ none → IsUnseated c.session r.0))
              (try_games-All (λ m. c.session ≢ m) s.heap now c ids s.games unseated) e in
          rw (e, find_place)
            (take_place-AllApart now c (record s { games = games }) joined distinct outside away.1
              (playing.0 outside))
    ]

-- A matchmaking request keeps the sessions apart: if before it every queued session had one request,
-- was in no game and knew the request, and no member of a game was queued, then so it is after it,
-- whether the session joins, is paired or waits. The session itself must be in no game but the one
-- that it says it is in.
pub queue_match-IsApart :
    (now p : ℕ) (tdf : Fields) (s s' : Server) (msid : ℕ)
    → (is_active_member p s ≡ false → IsUnseated p s.games)
    → IsApart s
    → queue_match now p tdf s ≡ some (s', msid)
    → IsApart s'
unfolding queue_match remove_queued_session update_session
queue_match-IsApart now p tdf s s' msid unseated (exclusive, all) h =
    let s1 = record s { next_match_id = inc64 s.next_match_id } in
    let s2 = remove_queued_session p (update_session p out_of_game s1) in
    let request = request_of p s.next_match_id tdf in
    let ((distinct, waiting), outside, idle) = cleared-IsExclusive p s1 exclusive in
    let (kept, id) = queue_match-IsExclusive now p tdf s s' msid exclusive h in
    let all2 = without_session-AllPlaying p s.match_queue s.games all in
    let after : Holds (λ r. AllApart r.0) (queue_match now p tdf s) =
      elim (Bool-cases (is_active_member p s)) [
        | inl active ↦ rw (active, queue_match) all
        | inr away ↦
            let found = find_place-AllApart now request s2 distinct outside (unseated away) all2 in
            elim (Option-cases (find_place now request s2)) [
              | inl panic ↦ rw (away, panic, queue_match) tt
              | inr (s3, e) ↦ rw (away, e, queue_match) (Holds-elim AllApart found e)
            ]
      ] in
    (kept, Holds-elim (λ r. AllApart r.0) after h)
