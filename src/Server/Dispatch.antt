-- ===== src/Server/Dispatch.antt =====
-- `registerDefaultHandlers`, `Handle` and `key` of hpserver: which handler a request goes to.
pub mod Registered
pub mod Addressed
pub mod Table
pub mod Places
use hp_server.Prelude.{ℕ, ◌*◌, ◌^◌, Option, none, some, List, [], ◌∷◌, bit_or, ◌>>=◌}
use hp_server.IntMap
use hp_server.IntMap.{IntMap}
use hp_server.Fire.{Frame}
use hp_server.Session.{Message}
use hp_server.Session.Identity.{component_user_sessions}
use hp_server.Server.{Server}
use hp_server.Server.Notices.{component_game_manager}
use hp_server.Server.Commands.{
  component_authentication, component_redirector, component_utility, component_association,
  component_game_reporting, component_autolog, command_login, command_silent_login, command_logout,
  command_post_auth, command_user_settings_load, command_set_metrics, command_update_network_info,
  command_update_hardware, command_get_telemetry, command_create_wal_session, command_get_account,
  command_list_entitlements, command_get_lists, command_get_best_scores, command_submit_game_report,
  command_submit_offline_game, command_advance_game_state, command_set_game_settings,
  command_set_player_capacity, command_set_game_attrs, command_set_player_attrs,
  command_remove_player, command_start_matchmaking, command_cancel_matchmaking,
  command_finalize_game, command_replay_game, command_reset_dedicated, command_update_mesh,
}
use hp_server.Server.Handlers.{
  acknowledge, update_network_info, reset_dedicated, finalize_game, advance_game_state,
  set_player_attrs, set_game_attrs, set_game_settings, set_player_capacity, start_matchmaking,
  cancel_matchmaking, replay_game, update_mesh,
}
use hp_server.Server.Handlers.Removal.{remove_player}
use hp_server.Server.Handlers.Answers.{
  redirect, pre_auth, ping_reply, post_auth, user_settings_load, get_best_scores, get_telemetry,
  create_wal_session, get_lists, client_config, password_login,
}
use hp_server.Server.Handlers.Login.{get_account, list_entitlements, silent_login}

-- The clock, the session, the request and the server. The outer `none` is a panic of the handler,
-- the inner one of the encoder.
abbrev pub Handler : Type 0
Handler = ℕ → ℕ → Frame → Server → Option (Server × Message)

unfoldable pub handler_key : ℕ → ℕ → ℕ
handler_key component command = bit_or (component * 2 ^ 16) command

-- `Handle`
abbrev pub handle : ℕ → ℕ → Handler → IntMap Handler → IntMap Handler
handle component command handler handlers =
    IntMap.put (handler_key component command) handler handlers

-- A handler that leaves the server alone.
abbrev pub stateless : (Frame → Message) → Handler
stateless f now p req s = some (s, f req)

-- A handler that always returns.
abbrev pub returns :
    (Frame → Server → Server × Message) → Frame → Server → Option (Server × Message)
returns f req s = some (f req s)

-- What a handler is registered under, in the order of the source.
pub record Registration : Type 0 where
  pub component : ℕ
  pub command : ℕ
  pub handler : Handler

abbrev pub registered : ℕ → ℕ → Handler → Registration
registered component command handler = record {
  component = component;
  command = command;
  handler = handler;
}

abbrev pub utility_handlers : List Registration
utility_handlers =
    registered component_redirector 1 (stateless redirect)
    ∷ registered component_utility 7 (stateless pre_auth)
    ∷ registered component_utility 2 (λ now p req s. some (s, ping_reply now req))
    ∷ registered component_utility command_post_auth (stateless post_auth)
    ∷ registered component_utility command_user_settings_load (stateless user_settings_load)
    ∷ registered component_utility command_set_metrics (stateless acknowledge)
    ∷ registered component_user_sessions command_update_network_info
        (λ now p. returns (update_network_info p))
    ∷ registered component_user_sessions command_update_hardware (stateless acknowledge)
    ∷ registered component_game_reporting command_submit_game_report (stateless acknowledge)
    ∷ registered component_game_reporting command_submit_offline_game (stateless acknowledge)
    ∷ registered component_autolog command_get_best_scores (stateless get_best_scores)
    ∷ []

abbrev pub game_handlers : List Registration
game_handlers =
    registered component_game_manager command_reset_dedicated
      (λ now p. returns (reset_dedicated now p))
    ∷ registered component_game_manager command_finalize_game (λ now p. returns (finalize_game p))
    ∷ registered component_game_manager command_advance_game_state
        (λ now p. returns (advance_game_state p))
    ∷ registered component_game_manager command_set_player_attrs
        (λ now p. returns (set_player_attrs now p))
    ∷ registered component_game_manager command_set_game_attrs (λ now p. returns (set_game_attrs p))
    ∷ registered component_game_manager command_set_game_settings
        (λ now p. returns (set_game_settings p))
    ∷ registered component_game_manager command_set_player_capacity
        (λ now p. returns (set_player_capacity p))
    ∷ registered component_game_manager command_remove_player (λ now p. returns (remove_player p))
    ∷ registered component_game_manager command_start_matchmaking start_matchmaking
    ∷ registered component_game_manager command_cancel_matchmaking
        (λ now p. returns (cancel_matchmaking p))
    ∷ registered component_game_manager command_replay_game (λ now p. returns (replay_game p))
    ∷ registered component_game_manager command_update_mesh (λ now p. returns (update_mesh now p))
    ∷ []

abbrev pub account_handlers : List Registration
account_handlers =
    registered component_utility command_get_telemetry (stateless get_telemetry)
    ∷ registered component_authentication command_create_wal_session (stateless create_wal_session)
    ∷ registered component_authentication command_get_account
        (λ now p req s. some (s, get_account (s.heap p) req))
    ∷ registered component_authentication command_list_entitlements
        (λ now p req s. some (s, list_entitlements (s.heap p) req))
    ∷ registered component_association command_get_lists (stateless get_lists)
    ∷ registered component_utility 1 (λ now p req s. some (s, client_config s.autolog_base req))
    ∷ registered component_authentication command_silent_login (λ now p. returns (silent_login p))
    ∷ registered component_authentication command_logout (stateless acknowledge)
    ∷ registered component_authentication command_login (stateless password_login)
    ∷ []

unfoldable pub register_all : List Registration → IntMap Handler → IntMap Handler
register_all [] handlers = handlers
register_all (r ∷ rest) handlers =
    register_all rest (handle r.component r.command r.handler handlers)

-- `registerDefaultHandlers`
unfoldable pub default_handlers : IntMap Handler
unfolding register_all
default_handlers =
    register_all account_handlers (register_all game_handlers (register_all utility_handlers []))

-- `s.Handlers[key(component, command)]`
unfoldable pub handler_of : IntMap Handler → Frame → Option Handler
unfolding handler_key
handler_of handlers req = IntMap.get (handler_key req.header.component req.header.command) handlers
