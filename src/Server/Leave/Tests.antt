-- ===== src/Server/Leave/Tests.antt =====
-- The sessions of hpserver/server.go keep apart, at a game of two and a session that waits.
use hp_server.Prelude.{some, ◌==◌, if◌then◌else◌, ◌≡◌, ◌+◌, arith, refl, none, [], ◌∷◌}
use hp_server.IntMap.{get, put, next_free, contains, values}
use hp_server.Tdf.Value.{no_entries, fields_of, int64}
use hp_server.Fire.{Frame}
use hp_server.Session.{new_session}
use hp_server.Game.{new_game, ensure_members, session_for_player_id}
use hp_server.Server.{Server, new}
use hp_server.Server.Leave.{remove_session}
use hp_server.Server.Leave.Exclusive.{IsApart, remove_session-IsApart}
use hp_server.Server.Match.Found.{Outside}
use hp_server.Server.Handlers.Removal.{remove_player}
use hp_server.Server.Notices.{component_game_manager}
use hp_server.Server.Commands.{command_remove_player}
use hp_server.Server.Match.Queue.{is_active_member}
use hp_server.Server.Dispatch.{
  Handler, returns, handler_of, default_handlers, register_all, handler_key,
}
use hp_server.Server.Dispatch.Places.{IsPlaced, handler_of-IsApart}

-- The session 2 waits for a match; 1 and 3 play in the game 7, which 1 hosts.
abbrev evening : Server
evening =
    let s =
      record (new [] (λ p. record (new_session none []) {
        persona_id = 100 + p;
        queued_match_id = 4;
        game_id = if p == 2 then 0 else 7;
      })) {
        match_queue =
            record { session = 2; attrs = no_entries; cap = 2; topology = 130; msid = 4 } ∷ [];
      } in
    record s { games = (7, new_game s.heap 50 7 1 (1 ∷ 3 ∷ []) no_entries 3 130 1) ∷ [] }

evening-IsApart : IsApart evening
unfolding new_game ensure_members put get next_free contains values
evening-IsApart =
    (((tt, tt), ((refl, refl), tt)), (((omega arith, tt), ((omega arith, tt), tt)), tt))

remove_session-IsApart_example :
    IsApart (remove_session 1 evening) × Outside (remove_session 1 evening).match_queue 1
remove_session-IsApart_example = remove_session-IsApart 1 evening evening-IsApart

-- The host asks for the player 3 to leave the game 7.
abbrev dismissal : Frame
dismissal = record {
  header = record {
    payload_size = 0;
    component = component_game_manager;
    command = command_remove_player;
    error = 0;
    message_type = 0;
    message_id = 1;
  };
  payload = [];
  tdf = fields_of (("GID", int64 7) ∷ ("PID", int64 103) ∷ []);
}

abbrev removal : Handler
removal now p = returns (remove_player p)

removal_handler : handler_of default_handlers dismissal ≡ some removal
unfolding handler_of default_handlers register_all handler_key get put
removal_handler = refl

-- The host says that it is in the game 7, and is.
host-IsPlaced : IsPlaced 1 evening
unfolding is_active_member session_for_player_id new_game ensure_members put get next_free contains
    values
host-IsPlaced = λ h. absurd (cc)

handler_of-IsApart_example : IsApart (remove_player 1 dismissal evening).0
handler_of-IsApart_example =
    handler_of-IsApart 60 1 dismissal evening (remove_player 1 dismissal evening).0 removal
      (remove_player 1 dismissal evening).1 removal_handler refl host-IsPlaced evening-IsApart
