-- ===== src/Server/Match/Queue.antt =====
-- `queueMatch` and `notifyMatchedGame`, which run under the server's mutex as far as they change
-- games and the queue.
pub mod Laws
pub mod Places
pub mod Apart
pub mod Tried
pub mod Seated
use hp_server.Prelude.{
  ℕ, Bool, true, false, Option, none, some, List, [], ◌∷◌, ◌++◌, bytes_of, inc64, ◌==◌, ◌&&◌, not,
  if◌then◌else◌, ◌>>=◌,
}
use hp_server.IntMap
use hp_server.IntMap.{IntMap}
use hp_server.Tdf.Value.{Value, Fields, int64, struct, fields_of, set_field, mapping_field}
use hp_server.Tdf.Encode.{encode_tdf}
use hp_server.Session.{Session, Heap, Message, OutboundFrame, notification}
use hp_server.Session.Identity.{user_session_id, user_notifications_for}
use hp_server.Session.Outbox.{enqueue}
use hp_server.Game.{Game, MatchRequest, new_game, session_for_player_id}
use hp_server.Game.Setup.{replicated_game_player, game_setup}
use hp_server.Server.{Server, update_session, notify_session}
use hp_server.Server.Leave.{remove_queued_session}
use hp_server.Server.Notices.{component_game_manager, notify_player_joining, notify_game_setup}
use hp_server.Server.Match.{
  try_games, sorted_ids, take_match, get_matchmaking_capacity, get_matchmaking_topology,
  get_matchmaking_reason,
}

-- `notifyMatchedGame`: those who were there already learn of the joiner, and the joiner gets, with
-- the reply, who was there and the game.
unfoldable pub publish_joiner : List ℕ → ℕ → Message → Server → Server
unfolding notify_session user_notifications_for
publish_joiner [] p joining s = s
publish_joiner (member ∷ members) p joining s = publish_joiner members p joining (
    if member == p
    then s
    else notify_session member (user_notifications_for (s.heap p) ++ joining ∷ []) s)

unfoldable pub roster_notifications : Heap → List ℕ → ℕ → List Message
unfolding user_notifications_for
roster_notifications heap [] p = []
roster_notifications heap (member ∷ members) p =
    let rest = roster_notifications heap members p in
    if member == p then rest else user_notifications_for (heap member) ++ rest

-- What waits for the reply to a matchmaking request, then 250 ms.
unfoldable pub set_pending : ℕ → List Message → Server → Server
unfolding update_session
set_pending p frames s =
    update_session p
      (λ session. record session {
        notifications = session.notifications ++ frames;
        notification_delay = 250;
      })
      s

unfoldable pub notify_matched_game : List ℕ → ℕ → Message → Message → Server → Server
unfolding publish_joiner roster_notifications set_pending
notify_matched_game members p joining setup s =
    let s' = publish_joiner members p joining s in
    set_pending p (roster_notifications s'.heap members p ++ setup ∷ []) s'

-- The session is in the game, which its setup is pending for.
abbrev pub in_game : ℕ → Session → Session
in_game game_id session = record session {
  game_id = game_id;
  pending_matchmaking_game = game_id;
  queued_match_id = 0;
}

unfoldable pub enter_game : ℕ → ℕ → Server → Server
unfolding update_session
enter_game game_id p s = update_session p (in_game game_id) s

unfoldable pub enter_all : ℕ → List ℕ → Server → Server
unfolding enter_game
enter_all game_id [] s = s
enter_all game_id (member ∷ members) s = enter_all game_id members (enter_game game_id member s)

-- `setup["REAS"] = …`, encoded, as the notification of a game.
unfoldable pub setup_message : Fields → Value → Message
unfolding notification
setup_message setup reason =
    notification component_game_manager notify_game_setup
      (encode_tdf (set_field (bytes_of "REAS") reason setup))

-- The joiner is shown as connecting.
unfoldable pub joining_message : ℕ → Fields → Message
unfolding notification
joining_message game_id player = notification component_game_manager notify_player_joining (
    encode_tdf (
      fields_of (
        ("GID", int64 game_id)
        ∷ ("PDAT", struct (set_field (bytes_of "STAT") (int64 2) player))
        ∷ [])))

-- The rest of `queueMatch` in a game that had a place.
unfoldable pub join_game : ℕ → ℕ → ℕ → ℕ → Game → Server → Server
unfolding enter_game replicated_game_player game_setup notify_matched_game setup_message
    joining_message get_matchmaking_reason user_session_id
join_game now p msid key game s =
    let s1 = enter_game game.id p s in
    let (game1, player) = replicated_game_player s1.heap now game p in
    let (game2, setup) = game_setup s1.heap now game1 in
    let reason = get_matchmaking_reason msid 1 (user_session_id (s1.heap p)) in
    notify_matched_game game.members p (joining_message game.id player) (setup_message setup reason)
      (record s1 { games = IntMap.put key game2 s1.games })

-- The host is told of the other player and gets its setup 250 ms later; what the other player is
-- told waits for the reply.
abbrev pub send_later : Message → Session → Session
send_later frame session = (enqueue session (record { frame = frame; delay = 250 })).0

unfoldable pub deliver_setups : ℕ → ℕ → Message → Message → Server → Server
unfolding notify_session user_notifications_for update_session enqueue set_pending
deliver_setups host p host_setup join_setup s =
    let s1 = notify_session host (user_notifications_for (s.heap p)) s in
    let s2 = update_session host (send_later host_setup) s1 in
    set_pending p (user_notifications_for (s2.heap host) ++ join_setup ∷ []) s2

-- The rest of `queueMatch` for two requests that match.
unfoldable pub pair_sessions : ℕ → MatchRequest → MatchRequest → Server → Server
unfolding new_game enter_all game_setup setup_message get_matchmaking_reason user_session_id
    deliver_setups
pair_sessions now waiting candidate s =
    let id = s.next_game_id in
    let h = waiting.session in
    let p = candidate.session in
    let game = new_game s.heap now id h (h ∷ p ∷ []) waiting.attrs waiting.cap waiting.topology 1 in
    let s1 = enter_all id game.members (record s { next_game_id = inc64 id }) in
    let (game1, host_setup) = game_setup s1.heap now game in
    let (game2, join_setup) = game_setup s1.heap now game1 in
    let host_reason = get_matchmaking_reason waiting.msid 0 (user_session_id (s1.heap h)) in
    let join_reason = get_matchmaking_reason candidate.msid 1 (user_session_id (s1.heap p)) in
    deliver_setups h p (setup_message host_setup host_reason) (setup_message join_setup join_reason)
      (record s1 { games = IntMap.put id game2 s1.games })

-- Whether the encoder gave every message; where it panics, nothing after that is done.
unfoldable pub encodes : List Message → Bool
encodes [] = true
encodes (none ∷ messages) = false
encodes (some frame ∷ messages) = encodes messages

-- What the joiner and the members who were there are told of each other.
unfoldable pub introductions : Heap → List ℕ → ℕ → List Message
unfolding user_notifications_for
introductions heap [] p = []
introductions heap (member ∷ members) p =
    let rest = introductions heap members p in
    if member == p
    then rest
    else user_notifications_for (heap p) ++ (user_notifications_for (heap member) ++ rest)

-- What is encoded for a session that joins a game.
unfoldable pub join_messages : ℕ → ℕ → ℕ → Game → Server → List Message
unfolding enter_game replicated_game_player game_setup setup_message joining_message
    get_matchmaking_reason user_session_id introductions
join_messages now p msid game s =
    let s1 = enter_game game.id p s in
    let (game1, player) = replicated_game_player s1.heap now game p in
    let (game2, setup) = game_setup s1.heap now game1 in
    let reason = get_matchmaking_reason msid 1 (user_session_id (s1.heap p)) in
    joining_message game.id player
    ∷ setup_message setup reason
    ∷ introductions s1.heap game.members p

-- What is encoded for two requests that match.
unfoldable pub pair_messages : ℕ → MatchRequest → MatchRequest → Server → List Message
unfolding new_game enter_all game_setup setup_message get_matchmaking_reason user_session_id
    user_notifications_for
pair_messages now waiting candidate s =
    let id = s.next_game_id in
    let h = waiting.session in
    let p = candidate.session in
    let game = new_game s.heap now id h (h ∷ p ∷ []) waiting.attrs waiting.cap waiting.topology 1 in
    let s1 = enter_all id game.members (record s { next_game_id = inc64 id }) in
    let (game1, host_setup) = game_setup s1.heap now game in
    let (game2, join_setup) = game_setup s1.heap now game1 in
    setup_message host_setup (get_matchmaking_reason waiting.msid 0 (user_session_id (s1.heap h)))
    ∷ setup_message join_setup
        (get_matchmaking_reason candidate.msid 1 (user_session_id (s1.heap p)))
    ∷ (user_notifications_for (s1.heap p) ++ user_notifications_for (s1.heap h))

unfoldable pub meet_messages :
    ℕ → MatchRequest → Server → Option (MatchRequest × List MatchRequest) → List Message
unfolding pair_messages
meet_messages now candidate s none = []
meet_messages now candidate s (some (waiting, queue)) =
    pair_messages now waiting candidate (record s { match_queue = queue })

-- A request that none matches waits in the queue.
abbrev pub queued_as : ℕ → Session → Session
queued_as msid session = record session { queued_match_id = msid }

unfoldable pub meet : ℕ → MatchRequest → Server → Option (MatchRequest × List MatchRequest) → Server
unfolding pair_sessions update_session
meet now candidate s none =
    update_session candidate.session (queued_as candidate.msid)
      (record s { match_queue = s.match_queue ++ candidate ∷ [] })
meet now candidate s (some (waiting, queue)) =
    pair_sessions now waiting candidate (record s { match_queue = queue })

-- The rest of `queueMatch` without a game to join.
unfoldable pub wait_or_pair : ℕ → MatchRequest → Server → Option Server
unfolding take_match meet meet_messages encodes
wait_or_pair now candidate s = do
  found ← take_match candidate s.match_queue
  if encodes (meet_messages now candidate s found) then some (meet now candidate s found) else none

-- The session is in the game that it says it is in.
unfoldable pub is_active_member : ℕ → Server → Bool
unfolding session_for_player_id
is_active_member p s =
    let session = s.heap p in
    elim (IntMap.get session.game_id s.games) [
      | none ↦ false
      | some game ↦ elim (session_for_player_id s.heap game.members session.persona_id) [
        | none ↦ false
        | some member ↦ not (session.game_id == 0) && (member == p)
      ]
    ]

abbrev pub request_of : ℕ → ℕ → Fields → MatchRequest
request_of p msid tdf = record {
  session = p;
  attrs = mapping_field "ATTR" tdf;
  cap = get_matchmaking_capacity tdf;
  topology = get_matchmaking_topology tdf;
  msid = msid;
}

-- The session enters the game that was found, or waits.
unfoldable pub take_place : ℕ → MatchRequest → Server → Option ℕ → Option Server
unfolding join_game wait_or_pair join_messages encodes
take_place now candidate s none = wait_or_pair now candidate s
take_place now candidate s (some id) = elim (IntMap.get id s.games) [
  | none ↦ some s
  | some game ↦
      if encodes (join_messages now candidate.session candidate.msid game s)
      then some (join_game now candidate.session candidate.msid id game s)
      else none
]

-- The part of `queueMatch` behind the test for an active member.
unfoldable pub find_place : ℕ → MatchRequest → Server → Option Server
unfolding try_games sorted_ids take_place
find_place now candidate s = do
  (games, joined) ← try_games s.heap now candidate (sorted_ids (IntMap.keys s.games)) s.games
  take_place now candidate (record s { games = games }) joined

abbrev pub out_of_game : Session → Session
out_of_game session = record session { game_id = 0 }

-- The server and the matchmaking id.
unfoldable pub queue_match : ℕ → ℕ → Fields → Server → Option (Server × ℕ)
unfolding is_active_member remove_queued_session find_place update_session get_matchmaking_capacity
    get_matchmaking_topology
queue_match now p tdf s =
    let msid = s.next_match_id in
    let s1 = record s { next_match_id = inc64 msid } in
    let s2 = update_session p out_of_game s1 in
    if is_active_member p s then some (s1, msid) else (do
      s' ← find_place now (request_of p msid tdf) (remove_queued_session p s2)
      some (s', msid))
