-- ===== src/Server/Match/Cancel.antt =====
-- `cancelQueuedMatch`.
pub mod Laws
use hp_server.Prelude.{
  ℕ, ◌+◌, Bool, true, false, Option, none, some, List, [], ◌∷◌, ◌++◌, String, bytes_of, slt, inc64,
  ◌==◌, ◌&&◌, ◌||◌, not, if◌then◌else◌, ◌>>=◌,
}
use hp_server.IntMap
use hp_server.IntMap.{IntMap}
use hp_server.Tdf.Value.{
  Value, Fields, Entries, Values, value, no_values, list, int64, struct, union, fields_of,
  get_field, set_field, mapping_field, get_entry, equal_values,
}
use hp_server.Tdf.Encode.{encode_tdf}
use hp_server.Session.{Session, Heap, Message, OutboundFrame, notification}
use hp_server.Session.Identity.{user_session_id, user_notifications_for}
use hp_server.Session.Outbox.{enqueue}
use hp_server.Session.{Session}
use hp_server.Game.{
  Game, MatchRequest, add_member, new_game, match_keys, is_compatible_game, session_for_player_id,
}
use hp_server.Game.Setup.{replicated_game_player, game_setup}
use hp_server.Server.{Server, update_session, notify_session}
use hp_server.Server.Leave.{remove_queued_session}
use hp_server.Server.Notices.{component_game_manager, notify_player_joining, notify_game_setup}

-- The queue without the first request of the session with this id.
unfoldable pub drop_request : ℕ → ℕ → List MatchRequest → Option (List MatchRequest)
drop_request p msid [] = none
drop_request p msid (queued ∷ queue) =
    let rest = drop_request p msid queue in
    if not (queued.session == p) || not (queued.msid == msid)
    then (do others ← rest; some (queued ∷ others))
    else some queue

abbrev pub unqueued : Session → Session
unqueued session = record session { queued_match_id = 0 }

-- `none` is the nil session.
unfoldable pub cancel_queued_match : Option ℕ → ℕ → Server → Server × Bool
unfolding drop_request update_session
cancel_queued_match none msid s = (s, false)
cancel_queued_match (some p) msid s =
    if not (slt 0 msid) || not ((s.heap p).queued_match_id == msid)
    then (s, false)
    else elim (drop_request p msid s.match_queue) [
      | none ↦ (s, false)
      | some queue ↦ (update_session p unqueued (record s { match_queue = queue }), true)
    ]
