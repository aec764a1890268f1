-- ===== src/Server/Handlers.antt =====
-- The handlers of hpserver/handlers.go that change games, matchmaking and network information. A
-- handler gives the server after it and the reply, where `none` is a panic of the encoder.
pub mod Create
pub mod Removal
pub mod Apart
pub mod Steady
pub mod Joined
pub mod Answers
pub mod Login
use hp_server.Prelude.{
  ℕ, Bool, true, false, Option, none, some, List, [], ◌∷◌, ◌++◌, String, bytes_of, inc64, ◌==◌,
  ◌&&◌, ◌||◌, not, if◌then◌else◌, ◌>>=◌,
}
use hp_server.IntMap
use hp_server.Tdf.Value.{
  Value, Values, value, no_values, Fields, no_fields, int64, struct, union, mapping, typed_list,
  list, fields_of, get_field, int_field, mapping_field, list_field,
}
use hp_server.Tdf.Encode.{encode_tdf}
use hp_server.Fire.{Frame, reply}
use hp_server.Session.{Session, Message, notification}
use hp_server.Game.{Game, new_game, remove_member, session_for_player_id, refresh_mesh_readiness}
use hp_server.Game.Setup.{game_setup}
use hp_server.Server.{Server, update_session, notify_session, notify_all}
use hp_server.Server.Leave.{remove_queued_session, clear_members}
use hp_server.Server.Match.{get_matchmaking_capacity, get_matchmaking_topology, first_int64}
use hp_server.Server.Match.Queue.{out_of_game, queue_match}
use hp_server.Server.Match.Cancel.{cancel_queued_match}
use hp_server.Server.Mesh.{update_mesh_connection}
use hp_server.Server.Broadcast.{broadcast, broadcast_player_attributes}
use hp_server.Server.Notices.{
  component_game_manager, notify_game_setup, notify_platform_host, notify_game_state,
  notify_game_attrs, notify_game_settings, notify_game_capacity, player_removed_notification,
  game_removed_notification,
}

-- `legacyfire.Reply(req, blaze.EncodeTDF(…))`
unfoldable pub reply_with : Frame → Option (List ℕ) → Message
unfolding reply
reply_with req none = none
reply_with req (some payload) = some (reply req payload)

abbrev pub acknowledge : Frame → Message
acknowledge req = reply_with req (some [])

-- `session.Notifications = append(session.Notifications, frame)`
abbrev pub with_pending : Message → Session → Session
with_pending frame session = record session { notifications = session.notifications ++ frame ∷ [] }

abbrev pub game_notification : ℕ → List (String × Value) → Message
game_notification command body =
    notification component_game_manager command (encode_tdf (fields_of body))

-- `networkAddress`
unfoldable pub network_address : Option Value → Option Fields
network_address (some (union active tag (struct address))) = some address
network_address (some (struct address)) = some address
network_address _ = none

abbrev pub as_struct : Option Value → Option Fields
as_struct (some (struct x)) = some x
as_struct _ = none

abbrev pub or_else : Option Fields → Option Fields → Option Fields
or_else none old = old
or_else (some x) old = some x

unfoldable pub update_network_info : ℕ → Frame → Server → Server × Message
unfolding reply_with network_address update_session
update_network_info p req s =
    let address = network_address (get_field (bytes_of "ADDR") req.tdf) in
    let qos = as_struct (get_field (bytes_of "NQOS") req.tdf) in
    (
      update_session p
          (λ session. record session {
            network_address = or_else address session.network_address;
            network_qos = or_else qos session.network_qos;
          })
          s,
      acknowledge req,
    )

-- The game that the session says it is in, and is.
unfoldable pub own_game : ℕ → Server → Option Game
unfolding session_for_player_id
own_game p s = elim (IntMap.get (s.heap p).game_id s.games) [
  | none ↦ none
  | some game ↦ elim (session_for_player_id s.heap game.members (s.heap p).persona_id) [
    | none ↦ none
    | some member ↦ if member == p then some game else none
  ]
]

abbrev pub hosting : ℕ → Session → Session
hosting game_id session = record session { game_id = game_id }

-- A game with the session as its host, from a place outside queue and games.
unfoldable pub open_game : ℕ → ℕ → Fields → Server → Server
unfolding new_game game_setup update_session get_matchmaking_capacity get_matchmaking_topology
open_game now p tdf s =
    let id = s.next_game_id in
    let game =
      new_game s.heap now id p (p ∷ []) (mapping_field "ATTR" tdf) (get_matchmaking_capacity tdf)
        (get_matchmaking_topology tdf) 1 in
    let s1 = update_session p (hosting id) (record s { next_game_id = inc64 id }) in
    let (game', setup) = game_setup s1.heap now game in
    update_session p
      (with_pending (notification component_game_manager notify_game_setup (encode_tdf setup)))
      (record s1 { games = IntMap.put id game' s1.games })

unfoldable pub reset_dedicated : ℕ → ℕ → Frame → Server → Server × Message
unfolding own_game open_game remove_queued_session update_session reply_with
reset_dedicated now p req s = elim (own_game p s) [
  | some existing ↦ (s, reply_with req (encode_tdf (fields_of (("GID", int64 existing.id) ∷ []))))
  | none ↦ (
    open_game now p req.tdf (remove_queued_session p (update_session p out_of_game s)),
    reply_with req (encode_tdf (fields_of (("GID", int64 s.next_game_id) ∷ []))),
  )
]

-- `if gameID == 0 { gameID = … }`
abbrev pub or_id : ℕ → ℕ → ℕ
or_id id other = if id == 0 then other else id

abbrev pub finalized : ℕ → Session → Session
finalized game_id session = record session {
  notifications =
      session.notifications
      ++ game_notification notify_platform_host (("GID", int64 game_id) ∷ ("PHST", int64 0) ∷ [])
        ∷ [];
  pending_matchmaking_game = 0;
}

unfoldable pub finalize_game : ℕ → Frame → Server → Server × Message
unfolding reply_with update_session
finalize_game p req s =
    let session = s.heap p in
    let id =
      or_id (or_id (int_field "GID" req.tdf) session.pending_matchmaking_game) session.game_id in
    (if id == 0 then s else update_session p (finalized id) s, acknowledge req)

-- `if game := s.games[gameID]; game != nil { … }`
unfoldable pub change_game : ℕ → (Game → Game) → Server → Server
change_game id change s = elim (IntMap.get id s.games) [
  | none ↦ s
  | some game ↦ record s { games = IntMap.put id (change game) s.games }
]

unfoldable pub advance_game_state : ℕ → Frame → Server → Server × Message
unfolding change_game broadcast reply_with
advance_game_state p req s =
    let id = int_field "GID" req.tdf in
    let state = int_field "GSTA" req.tdf in
    let frame =
      game_notification notify_game_state (("GID", int64 id) ∷ ("GSTA", int64 state) ∷ []) in
    (
      broadcast p id frame (change_game id (λ game. record game { state = state }) s),
      acknowledge req,
    )

unfoldable pub set_player_attrs : ℕ → ℕ → Frame → Server → Server × Message
unfolding broadcast_player_attributes reply_with
set_player_attrs now p req s = (
  broadcast_player_attributes now p (int_field "GID" req.tdf) (int_field "PID" req.tdf)
      (mapping_field "ATTR" req.tdf) s,
  acknowledge req,
)

unfoldable pub set_game_attrs : ℕ → Frame → Server → Server × Message
unfolding change_game broadcast reply_with
set_game_attrs p req s =
    let attributes = mapping_field "ATTR" req.tdf in
    let id = int_field "GID" req.tdf in
    let frame =
      game_notification notify_game_attrs (("ATTR", mapping attributes) ∷ ("GID", int64 id) ∷ []) in
    (
      broadcast p id frame (change_game id (λ game. record game { attrs = attributes }) s),
      acknowledge req,
    )

unfoldable pub set_game_settings : ℕ → Frame → Server → Server × Message
unfolding change_game broadcast reply_with
set_game_settings p req s =
    let id = int_field "GID" req.tdf in
    let settings = int_field "GSET" req.tdf in
    let frame =
      game_notification notify_game_settings (("ATTR", int64 settings) ∷ ("GID", int64 id) ∷ []) in
    (
      broadcast p id frame (change_game id (λ game. record game { settings = settings }) s),
      acknowledge req,
    )

abbrev pub with_capacity : Option ℕ → Game → Game
with_capacity none game = game
with_capacity (some capacity) game = record game { capacity = capacity }

unfoldable pub set_player_capacity : ℕ → Frame → Server → Server × Message
unfolding change_game broadcast reply_with
set_player_capacity p req s =
    let id = int_field "GID" req.tdf in
    let capacity = first_int64 (get_field (bytes_of "PCAP") req.tdf) in
    let items = list_field "PCAP" req.tdf in
    let frame =
      game_notification notify_game_capacity
        (("CAP", typed_list 0 items) ∷ ("GID", int64 id) ∷ []) in
    (broadcast p id frame (change_game id (with_capacity capacity) s), acknowledge req)

unfoldable pub start_matchmaking : ℕ → ℕ → Frame → Server → Option (Server × Message)
unfolding queue_match reply_with
start_matchmaking now p req s = do
  (s', msid) ← queue_match now p req.tdf s
  some (s', reply_with req (encode_tdf (fields_of (("MSID", int64 msid) ∷ []))))

unfoldable pub cancel_matchmaking : ℕ → Frame → Server → Server × Message
unfolding cancel_queued_match reply_with
cancel_matchmaking p req s =
    ((cancel_queued_match (some p) (int_field "MSID" req.tdf) s).0, acknowledge req)

unfoldable pub is_host_of : ℕ → ℕ → Server → Bool
unfolding session_for_player_id
is_host_of p id s = elim (IntMap.get id s.games) [
  | none ↦ false
  | some game ↦ elim (session_for_player_id s.heap game.members (s.heap p).persona_id) [
    | none ↦ false
    | some member ↦ (member == p) && (game.host == p)
  ]
]

unfoldable pub replay_game : ℕ → Frame → Server → Server × Message
unfolding is_host_of change_game broadcast reply_with
replay_game p req s =
    let id = int_field "GID" req.tdf in
    let frame =
      game_notification notify_game_state (("GID", int64 id) ∷ ("GSTA", int64 130) ∷ []) in
    (
      if is_host_of p id s
          then broadcast p id frame (change_game id (λ game. record game { state = 130 }) s)
          else s,
      acknowledge req,
    )

unfoldable pub update_mesh : ℕ → ℕ → Frame → Server → Server × Message
unfolding update_mesh_connection reply_with
update_mesh now p req s = (
  update_mesh_connection now p (int_field "GID" req.tdf) (list_field "TARG" req.tdf) s,
  acknowledge req,
)
