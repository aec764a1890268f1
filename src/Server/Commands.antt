-- ===== src/Server/Commands.antt =====
-- The component and command numbers of handlers.go.
use hp_server.Prelude.{ℕ}

abbrev pub component_authentication : ℕ
component_authentication = 1

abbrev pub component_redirector : ℕ
component_redirector = 5

abbrev pub component_utility : ℕ
component_utility = 9

abbrev pub component_association : ℕ
component_association = 25

abbrev pub component_game_reporting : ℕ
component_game_reporting = 28

abbrev pub component_autolog : ℕ
component_autolog = 0x0801

abbrev pub command_login : ℕ
command_login = 0x28

abbrev pub command_silent_login : ℕ
command_silent_login = 0x32

abbrev pub command_logout : ℕ
command_logout = 0x46

abbrev pub command_post_auth : ℕ
command_post_auth = 0x08

abbrev pub command_user_settings_load : ℕ
command_user_settings_load = 0x0a

abbrev pub command_set_metrics : ℕ
command_set_metrics = 0x16

abbrev pub command_update_network_info : ℕ
command_update_network_info = 0x14

abbrev pub command_update_hardware : ℕ
command_update_hardware = 0x08

abbrev pub command_get_telemetry : ℕ
command_get_telemetry = 0x05

abbrev pub command_create_wal_session : ℕ
command_create_wal_session = 0xe6

abbrev pub command_get_account : ℕ
command_get_account = 0x1e

abbrev pub command_list_entitlements : ℕ
command_list_entitlements = 0x20

abbrev pub command_get_lists : ℕ
command_get_lists = 0x06

abbrev pub command_get_best_scores : ℕ
command_get_best_scores = 0x0b

abbrev pub command_submit_game_report : ℕ
command_submit_game_report = 0x01

abbrev pub command_submit_offline_game : ℕ
command_submit_offline_game = 0x02

abbrev pub command_advance_game_state : ℕ
command_advance_game_state = 0x03

abbrev pub command_set_game_settings : ℕ
command_set_game_settings = 0x04

abbrev pub command_set_player_capacity : ℕ
command_set_player_capacity = 0x05

abbrev pub command_set_game_attrs : ℕ
command_set_game_attrs = 0x07

abbrev pub command_set_player_attrs : ℕ
command_set_player_attrs = 0x08

abbrev pub command_remove_player : ℕ
command_remove_player = 0x0b

abbrev pub command_start_matchmaking : ℕ
command_start_matchmaking = 0x0d

abbrev pub command_cancel_matchmaking : ℕ
command_cancel_matchmaking = 0x0e

abbrev pub command_finalize_game : ℕ
command_finalize_game = 0x0f

abbrev pub command_replay_game : ℕ
command_replay_game = 0x13

abbrev pub command_reset_dedicated : ℕ
command_reset_dedicated = 0x19

abbrev pub command_update_mesh : ℕ
command_update_mesh = 0x1d

abbrev pub auth_invalid_password : ℕ
auth_invalid_password = 0x0c
