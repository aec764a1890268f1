-- ===== src/Server/Notices.antt =====
-- The component, command and notification numbers of handlers.go, and the notifications that it
-- builds from them.
use hp_server.Prelude.{ℕ, [], ◌∷◌}
use hp_server.Tdf.Value.{int64, fields_of}
use hp_server.Tdf.Encode.{encode_tdf}
use hp_server.Session.{Message, notification}

abbrev pub component_game_manager : ℕ
component_game_manager = 4

abbrev pub notify_game_setup : ℕ
notify_game_setup = 0x14

abbrev pub notify_game_removed : ℕ
notify_game_removed = 0x10

abbrev pub notify_player_joining : ℕ
notify_player_joining = 0x15

abbrev pub notify_player_joined : ℕ
notify_player_joined = 0x1e

abbrev pub notify_player_removed : ℕ
notify_player_removed = 0x28

abbrev pub notify_platform_host : ℕ
notify_platform_host = 0x47

abbrev pub notify_game_attrs : ℕ
notify_game_attrs = 0x50

abbrev pub notify_player_attrs : ℕ
notify_player_attrs = 0x5a

abbrev pub notify_game_state : ℕ
notify_game_state = 0x64

abbrev pub notify_game_settings : ℕ
notify_game_settings = 0x6e

abbrev pub notify_game_capacity : ℕ
notify_game_capacity = 0x6f

unfoldable pub player_removed_notification : ℕ → ℕ → ℕ → ℕ → Message
player_removed_notification game_id player_id context_value reason =
    notification component_game_manager notify_player_removed (
      encode_tdf (
        fields_of (
          ("CNTX", int64 context_value)
          ∷ ("GID", int64 game_id)
          ∷ ("PID", int64 player_id)
          ∷ ("REAS", int64 reason)
          ∷ [])))

unfoldable pub game_removed_notification : ℕ → ℕ → Message
game_removed_notification game_id reason =
    notification component_game_manager notify_game_removed
      (encode_tdf (fields_of (("GID", int64 game_id) ∷ ("REAS", int64 reason) ∷ [])))

unfoldable pub player_join_completed_notification : ℕ → ℕ → Message
player_join_completed_notification game_id player_id =
    notification component_game_manager notify_player_joined
      (encode_tdf (fields_of (("GID", int64 game_id) ∷ ("PID", int64 player_id) ∷ [])))
