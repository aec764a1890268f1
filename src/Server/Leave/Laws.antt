-- ===== src/Server/Leave/Laws.antt =====
-- What `removeSession` of hpserver/server.go leaves behind.
use hp_server.Prelude.{
  not, filter, ℕ, ◌≡◌, ◌≢◌, inl, inr, Bool, true, false, Option, none, some, List, [], ◌∷◌, arith,
  All, ◌==◌, if◌then◌else◌, Bool-cases, refl, ◌∙◌, ap,
}
use hp_server.IntMap
use hp_server.IntMap.{IntMap, get}
use hp_server.IntMap.Laws.{get-delete}
use hp_server.Session.{Session, Message}
use hp_server.Game.{Game, MatchRequest, remove_member, refresh_mesh_readiness}
use hp_server.Server.{Server, update_session, notify_session, notify_all}
use hp_server.Server.Leave.{
  idle, without_session, remove_queued_session, clear_members, game_of_leaver, settle_departure,
  departure_frames, leave_game, withdraw, remove_session,
}

-- The tables but the games, which the sessions are found in.
abbrev pub SameTables : Server → Server → Type 0
SameTables s s' =
    (s'.match_queue ≡ s.match_queue)
    × (s'.sessions ≡ s.sessions)
    × (s'.active_personas ≡ s.active_personas)

SameTables-trans : (a b c : Server) → SameTables a b → SameTables b c → SameTables a c
SameTables-trans a b c (q, s, p) (q', s', p') = (q' ∙ q, s' ∙ s, p' ∙ p)

update-tables :
    (p : ℕ) (change : Session → Session) (s : Server)
    → SameTables s (update_session p change s) × ((update_session p change s).games ≡ s.games)
unfolding update_session
update-tables p change s = ((refl, refl, refl), refl)

pub notify_session-tables :
    (p : ℕ) (frames : List Message) (s : Server)
    → SameTables s (notify_session p frames s) × ((notify_session p frames s).games ≡ s.games)
unfolding notify_session update_session
notify_session-tables p [] s = ((refl, refl, refl), refl)
notify_session-tables p (frame ∷ frames) s = notify_session-tables p frames _

pub notify_all-tables :
    (members : List ℕ) (frames : List Message) (s : Server)
    → SameTables s (notify_all members frames s) × ((notify_all members frames s).games ≡ s.games)
unfolding notify_all
notify_all-tables [] frames s = ((refl, refl, refl), refl)
notify_all-tables (m ∷ ms) frames s =
    let s' = notify_session m frames s in
    let (tables, games) = notify_session-tables m frames s in
    let (tables', games') = notify_all-tables ms frames s' in
    (SameTables-trans s s' (notify_all ms frames s') tables tables', games' ∙ games)

pub clear_members-tables :
    (members : List ℕ) (s : Server)
    → SameTables s (clear_members members s) × ((clear_members members s).games ≡ s.games)
unfolding clear_members update_session
clear_members-tables [] s = ((refl, refl, refl), refl)
clear_members-tables (m ∷ ms) s = clear_members-tables ms (update_session m idle s)

settle-tables :
    (host_left : Bool) (key : ℕ) (game : Game) (s : Server)
    → SameTables s (settle_departure host_left key game s)
      × ((settle_departure host_left key game s).games ≡ (
          if host_left
          then IntMap.delete game.id s.games
          else IntMap.put key (refresh_mesh_readiness s.heap game) s.games))
unfolding settle_departure
settle-tables true key game s =
    clear_members-tables game.members (record s { games = IntMap.delete game.id s.games })
settle-tables false key game s = ((refl, refl, refl), refl)

pub leave_game-tables :
    (p : ℕ) (place : Option (ℕ × Game)) (s : Server) → SameTables s (leave_game p place s)
unfolding leave_game
leave_game-tables p none s = (refl, refl, refl)
leave_game-tables p (some (key, game)) s =
    let removed = (remove_member s.heap p game).0 in
    let s' = settle_departure (removed.host == p) key removed s in
    let frames = departure_frames (removed.host == p) game.id (s.heap p).persona_id in
    SameTables-trans s s' (notify_all removed.members frames s')
      (settle-tables (removed.host == p) key removed s).0
      (notify_all-tables removed.members frames s').0

pub without_session-gone :
    (p : ℕ) (queue : List MatchRequest) → All (λ r. r.session ≢ p) (without_session p queue)
unfolding without_session
without_session-gone p [] = tt
without_session-gone p (r ∷ rs) = elim (Bool-cases (r.session == p)) [
  | inl same ↦ rw (same, without_session) (without_session-gone p rs)
  | inr apart ↦
      let ne : r.session ≢ p = ground (arith, apart) in
      rw (apart, without_session) (ne, without_session-gone p rs)
]

keep-others :
    (k q : ℕ) (own : Bool) (m : IntMap ℕ)
    → q ≢ k
    → get q (if own then IntMap.delete k m else m) ≡ get q m
keep-others k q true m ne = get-delete k q m ∙ ground (arith, ne)
keep-others k q false m ne = refl

-- The requests of other sessions, in their order.
abbrev pub of_others : ℕ → List MatchRequest → List MatchRequest
of_others p queue = filter (λ r. not (r.session == p)) queue

without_session-of_others :
    (p : ℕ) (queue : List MatchRequest) → without_session p queue ≡ of_others p queue
unfolding without_session
without_session-of_others p [] = refl
without_session-of_others p (r ∷ rs) = elim (Bool-cases (r.session == p)) [
  | inl same ↦ rw (same, without_session) (without_session-of_others p rs)
  | inr apart ↦
      rw (apart, without_session)
        (ap (λ (q : List MatchRequest). r ∷ q) (without_session-of_others p rs))
]

-- A session that is removed has no request in the queue, is not found under its session id, and is
-- not active under its persona, which another session may be; the requests of other sessions stay,
-- in their order, and the other personas and session ids lead where they led.
pub remove_session-gone :
    (p : ℕ) (s : Server)
    → let s' = remove_session p s in
      let session = s.heap p in
      All (λ r. r.session ≢ p) s'.match_queue
      × (get session.session_id s'.sessions ≡ none)
      × (IntMap.get_or 0 session.persona_id s.active_personas ≡ p
          → get session.persona_id s'.active_personas ≡ none)
      × ((q : ℕ) → q ≢ session.persona_id → get q s'.active_personas ≡ get q s.active_personas)
      × ((q : ℕ) → q ≢ session.session_id → get q s'.sessions ≡ get q s.sessions)
      × (s'.match_queue ≡ of_others p s.match_queue)
unfolding remove_session withdraw remove_queued_session update_session
remove_session-gone p s =
    let session = s.heap p in
    let s1 = withdraw p s in
    let (queue, sessions, active) = leave_game-tables p (game_of_leaver p session.game_id s1) s1 in
    let k = session.persona_id in
    (
      rw queue (without_session-gone p s.match_queue),
      ap (get session.session_id) sessions
          ∙ get-delete session.session_id session.session_id s.sessions
          ∙ ground arith,
      λ mine.
          let own : (IntMap.get_or 0 k s.active_personas == p) ≡ true = ground (arith, mine) in
          ap (get k) active ∙ rw own (get-delete k k s.active_personas ∙ ground arith),
      λ q ne.
          ap (get q) active
          ∙ keep-others k q (IntMap.get_or 0 k s.active_personas == p) s.active_personas ne,
      λ q ne. ap (get q) sessions ∙ get-delete session.session_id q s.sessions ∙ ground (arith, ne),
      queue ∙ without_session-of_others p s.match_queue,
    )
