-- ===== src/Server/Match/Queue/Apart.antt =====
-- Where `queueMatch` of hpserver/server.go puts a session, the sessions keep apart.
use hp_server.Prelude.{ℕ, ◌≡◌, inl, inr, List, [], ◌∷◌, ◌++◌, ◌==◌, Bool-cases, refl, ◌∙◌, inc64}
use hp_server.IntMap
use hp_server.IntMap.{IntMap, get}
use hp_server.IntMap.Laws.{put-All}
use hp_server.Session.{Message}
use hp_server.Session.Identity.{user_notifications_for, user_session_id}
use hp_server.Game.{Game, MatchRequest, ensure_membership_state, new_game}
use hp_server.Game.Members.{ensure_membership_state-members, game_setup-members}
use hp_server.Game.Roster.New.{new_game-All}
use hp_server.Game.Setup.{game_setup, replicated_game_player}
use hp_server.Server.{Server, update_session, notify_session}
use hp_server.Server.Leave.Laws.{notify_session-tables}
use hp_server.Server.Leave.Exclusive.{IsPlaying, AllPlaying}
use hp_server.Server.Match.{get_matchmaking_reason}
use hp_server.Server.Match.Found.{Outside}
use hp_server.Server.Match.Queue.{
  setup_message, joining_message, publish_joiner, set_pending, notify_matched_game, deliver_setups,
  enter_game, enter_all, join_game, pair_sessions,
}

-- The tables that sessions are found by are the same.
abbrev SameRosters : Server → Server → Type 0
SameRosters s s' = (s'.match_queue ≡ s.match_queue) × (s'.games ≡ s.games)

publish_joiner-rosters :
    (members : List ℕ) (p : ℕ) (joining : Message) (s : Server)
    → SameRosters s (publish_joiner members p joining s)
unfolding publish_joiner
publish_joiner-rosters [] p joining s = (refl, refl)
publish_joiner-rosters (m ∷ ms) p joining s = elim (Bool-cases (m == p)) [
  | inl same ↦ rw (same, publish_joiner) (publish_joiner-rosters ms p joining s)
  | inr apart ↦
      let frames = user_notifications_for (s.heap p) ++ joining ∷ [] in
      let s' = notify_session m frames s in
      let ((queue, sessions, personas), games) = notify_session-tables m frames s in
      let (queue', games') = publish_joiner-rosters ms p joining s' in
      rw (apart, publish_joiner) (queue' ∙ queue, games' ∙ games)
]

matched-rosters :
    (members : List ℕ) (p : ℕ) (joining setup : Message) (s : Server)
    → SameRosters s (notify_matched_game members p joining setup s)
unfolding notify_matched_game set_pending update_session
matched-rosters members p joining setup s = publish_joiner-rosters members p joining s

delivered-rosters :
    (host p : ℕ) (host_setup join_setup : Message) (s : Server)
    → SameRosters s (deliver_setups host p host_setup join_setup s)
unfolding deliver_setups set_pending update_session
delivered-rosters host p host_setup join_setup s =
    let ((queue, sessions, personas), games) =
      notify_session-tables host (user_notifications_for (s.heap p)) s in
    (queue, games)

entered-rosters : (id : ℕ) (members : List ℕ) (s : Server) → SameRosters s (enter_all id members s)
unfolding enter_all enter_game update_session
entered-rosters id [] s = (refl, refl)
entered-rosters id (m ∷ ms) s = entered-rosters id ms (enter_game id m s)

-- The games stay as they are while their members are told.
told-AllPlaying :
    (queue : List MatchRequest) (s s' : Server)
    → SameRosters s s'
    → AllPlaying queue s.games
    → (s'.match_queue ≡ s.match_queue) × AllPlaying queue s'.games
told-AllPlaying queue s s' (same, games) all = (same, rw games all)

matched-AllPlaying :
    (queue : List MatchRequest) (members : List ℕ) (p : ℕ) (joining setup : Message)
    (games : IntMap Game) (s : Server)
    → AllPlaying queue games
    → let s' = notify_matched_game members p joining setup (record s { games = games }) in
      (s'.match_queue ≡ s.match_queue) × AllPlaying queue s'.games
matched-AllPlaying queue members p joining setup games s =
    let s0 = record s { games = games } in
    told-AllPlaying queue s0 (notify_matched_game members p joining setup s0)
      (matched-rosters members p joining setup s0)

delivered-AllPlaying :
    (queue : List MatchRequest) (host p : ℕ) (host_setup join_setup : Message) (games : IntMap Game)
    (s : Server)
    → AllPlaying queue games
    → let s' = deliver_setups host p host_setup join_setup (record s { games = games }) in
      (s'.match_queue ≡ s.match_queue) × AllPlaying queue s'.games
delivered-AllPlaying queue host p host_setup join_setup games s =
    let s0 = record s { games = games } in
    told-AllPlaying queue s0 (deliver_setups host p host_setup join_setup s0)
      (delivered-rosters host p host_setup join_setup s0)

-- The game that the session joins, and every other, has no member in the queue.
pub join_game-AllPlaying :
    (now p msid key : ℕ) (game : Game) (s : Server)
    → IsPlaying s.match_queue game
    → AllPlaying s.match_queue s.games
    → let s' = join_game now p msid key game s in
      (s'.match_queue ≡ s.match_queue) × AllPlaying s.match_queue s'.games
unfolding join_game enter_game update_session replicated_game_player
join_game-AllPlaying now p msid key game s playing all =
    let s1 = enter_game game.id p s in
    let shown = ensure_membership_state s1.heap now game in
    let set = (game_setup s1.heap now shown).0 in
    let same =
      game_setup-members s1.heap now shown ∙ ensure_membership_state-members s1.heap now game in
    let player = (replicated_game_player s1.heap now game p).1 in
    let reason = get_matchmaking_reason msid 1 (user_session_id (s1.heap p)) in
    let setup = setup_message (game_setup s1.heap now shown).1 reason in
    matched-AllPlaying s.match_queue game.members p (joining_message game.id player) setup
      (IntMap.put key set s1.games) s1
      (put-All (IsPlaying s.match_queue) key set s.games (rw same playing) all)

pub pair_sessions-AllPlaying :
    (now : ℕ) (w c : MatchRequest) (s : Server)
    → Outside s.match_queue w.session
    → Outside s.match_queue c.session
    → AllPlaying s.match_queue s.games
    → let s' = pair_sessions now w c s in
      (s'.match_queue ≡ s.match_queue) × AllPlaying s.match_queue s'.games
unfolding pair_sessions
pair_sessions-AllPlaying now w c s out_w out_c all =
    let id = s.next_game_id in
    let members = w.session ∷ c.session ∷ [] in
    let game = new_game s.heap now id w.session members w.attrs w.cap w.topology 1 in
    let playing =
      new_game-All (Outside s.match_queue) s.heap now id w.session members w.attrs w.cap w.topology
        1 (out_w, (out_c, tt)) in
    let s1 = enter_all id game.members (record s { next_game_id = inc64 id }) in
    let (queue1, games1) = entered-rosters id game.members (record s { next_game_id = inc64 id }) in
    let game1 = (game_setup s1.heap now game).0 in
    let game2 = (game_setup s1.heap now game1).0 in
    let same = game_setup-members s1.heap now game1 ∙ game_setup-members s1.heap now game in
    let put = put-All (IsPlaying s.match_queue) id game2 s.games (rw same playing) all in
    let host_reason = get_matchmaking_reason w.msid 0 (user_session_id (s1.heap w.session)) in
    let join_reason = get_matchmaking_reason c.msid 1 (user_session_id (s1.heap c.session)) in
    let (queue, kept) =
      delivered-AllPlaying s.match_queue w.session c.session
        (setup_message (game_setup s1.heap now game).1 host_reason)
        (setup_message (game_setup s1.heap now game1).1 join_reason) (IntMap.put id game2 s1.games)
        s1 (rw games1 put) in
    (queue ∙ queue1, kept)
