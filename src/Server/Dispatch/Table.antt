-- ===== src/Server/Dispatch/Table.antt =====
-- The table of handlers: each of them answers the request that it was given.
use hp_server.Prelude.{ℕ, ◌≡◌, some, bytes_of}
use hp_server.Fire.{Frame}
use hp_server.Session.{Message}
use hp_server.Server.{Server}
use hp_server.Server.Handlers.{
  acknowledge, update_network_info, reset_dedicated, finalize_game, advance_game_state,
  set_player_attrs, set_game_attrs, set_game_settings, set_player_capacity, cancel_matchmaking,
  replay_game, update_mesh,
}
use hp_server.Server.Handlers.Removal.{remove_player}
use hp_server.Tdf.Varint.{encode_varsize_integer}
use hp_server.Server.Handlers.Answers.{
  redirect, pre_auth, ping_reply, post_auth, user_settings_load, get_best_scores, get_telemetry,
  create_wal_session, get_lists, client_config, must_hex, redirect_payload, pre_auth_payload,
  followed_by, password_login,
}
use hp_server.Server.Handlers.Login.{get_account, list_entitlements, login_reply, silent_login}
use hp_server.Server.Dispatch.Registered.{AllHandlers, handler_of-All}
use hp_server.Server.Dispatch.{
  Handler, utility_handlers, game_handlers, account_handlers, default_handlers, handler_of,
}
use hp_server.Server.Dispatch.Addressed.{
  IsAnswer, AnswersAll, reply_with-IsAnswer, acknowledge-IsAnswer, refusal-IsAnswer, returning,
  reset_dedicated-IsAnswer, remove_player-IsAnswer, client_config-IsAnswer,
  start_matchmaking-IsAnswer,
}

-- A handler that answers by `reply_with` and leaves the server alone.
unchanged :
    (f : ℕ → ℕ → Frame → Server → Message)
    → ((now p : ℕ) (req : Frame) (s : Server) → IsAnswer req (f now p req s))
    → AnswersAll (λ now p req s. some (s, f now p req s))
unchanged f right = returning (λ now p req s. (s, f now p req s)) right

utility_handlers-AllAnswer : AllHandlers AnswersAll utility_handlers
unfolding redirect pre_auth ping_reply post_auth user_settings_load get_best_scores
    update_network_info
utility_handlers-AllAnswer = (
  unchanged (λ now p req s. redirect req) (λ now p req s. reply_with-IsAnswer req redirect_payload),
  (
    unchanged (λ now p req s. pre_auth req)
        (λ now p req s. reply_with-IsAnswer req pre_auth_payload),
    (
      unchanged (λ now p req s. ping_reply now req)
          (λ now p req s.
            reply_with-IsAnswer req
              (followed_by (encode_varsize_integer now) (must_hex (bytes_of "cf4a6d00")))),
      (
        unchanged (λ now p req s. post_auth req) (λ now p req s. reply_with-IsAnswer req _),
        (
          unchanged (λ now p req s. user_settings_load req)
              (λ now p req s. reply_with-IsAnswer req _),
          (
            unchanged (λ now p req s. acknowledge req) (λ now p req s. acknowledge-IsAnswer req),
            (
              returning (λ now p. update_network_info p) (λ now p req s. acknowledge-IsAnswer req),
              (
                unchanged (λ now p req s. acknowledge req)
                    (λ now p req s. acknowledge-IsAnswer req),
                (
                  unchanged (λ now p req s. acknowledge req)
                      (λ now p req s. acknowledge-IsAnswer req),
                  (
                    unchanged (λ now p req s. acknowledge req)
                        (λ now p req s. acknowledge-IsAnswer req),
                    (
                      unchanged (λ now p req s. get_best_scores req)
                          (λ now p req s. reply_with-IsAnswer req _),
                      tt,
                    ),
                  ),
                ),
              ),
            ),
          ),
        ),
      ),
    ),
  ),
)

game_handlers-AllAnswer : AllHandlers AnswersAll game_handlers
unfolding finalize_game advance_game_state set_player_attrs set_game_attrs set_game_settings
    set_player_capacity cancel_matchmaking replay_game update_mesh
game_handlers-AllAnswer = (
  returning (λ now p. reset_dedicated now p) reset_dedicated-IsAnswer,
  (
    returning (λ now p. finalize_game p) (λ now p req s. acknowledge-IsAnswer req),
    (
      returning (λ now p. advance_game_state p) (λ now p req s. acknowledge-IsAnswer req),
      (
        returning (λ now p. set_player_attrs now p) (λ now p req s. acknowledge-IsAnswer req),
        (
          returning (λ now p. set_game_attrs p) (λ now p req s. acknowledge-IsAnswer req),
          (
            returning (λ now p. set_game_settings p) (λ now p req s. acknowledge-IsAnswer req),
            (
              returning (λ now p. set_player_capacity p) (λ now p req s. acknowledge-IsAnswer req),
              (
                returning (λ now p. remove_player p)
                    (λ now p req s. remove_player-IsAnswer p req s),
                (
                  start_matchmaking-IsAnswer,
                  (
                    returning (λ now p. cancel_matchmaking p)
                        (λ now p req s. acknowledge-IsAnswer req),
                    (
                      returning (λ now p. replay_game p) (λ now p req s. acknowledge-IsAnswer req),
                      (
                        returning (λ now p. update_mesh now p)
                            (λ now p req s. acknowledge-IsAnswer req),
                        tt,
                      ),
                    ),
                  ),
                ),
              ),
            ),
          ),
        ),
      ),
    ),
  ),
)

account_handlers-AllAnswer : AllHandlers AnswersAll account_handlers
unfolding get_telemetry create_wal_session get_account list_entitlements get_lists silent_login
    login_reply password_login
account_handlers-AllAnswer = (
  unchanged (λ now p req s. get_telemetry req) (λ now p req s. reply_with-IsAnswer req _),
  (
    unchanged (λ now p req s. create_wal_session req) (λ now p req s. reply_with-IsAnswer req _),
    (
      unchanged (λ now p req s. get_account (s.heap p) req)
          (λ now p req s. reply_with-IsAnswer req _),
      (
        unchanged (λ now p req s. list_entitlements (s.heap p) req)
            (λ now p req s. reply_with-IsAnswer req _),
        (
          unchanged (λ now p req s. get_lists req) (λ now p req s. reply_with-IsAnswer req _),
          (
            unchanged (λ now p req s. client_config s.autolog_base req)
                (λ now p req s. client_config-IsAnswer s.autolog_base req),
            (
              returning (λ now p. silent_login p) (λ now p req s. reply_with-IsAnswer req _),
              (
                unchanged (λ now p req s. acknowledge req)
                    (λ now p req s. acknowledge-IsAnswer req),
                (
                  unchanged (λ now p req s. password_login req)
                      (λ now p req s.
                        refusal-IsAnswer req (must_hex (bytes_of "c2e86d010100d699000000"))),
                  tt,
                ),
              ),
            ),
          ),
        ),
      ),
    ),
  ),
)

-- Whichever of the server's handlers a request goes to, and whatever the server's state: where the
-- handler returns without a panic, what it gives is a reply or an error under the component, the
-- command and the message id of the request.
pub handler_of-IsAnswer :
    (now p : ℕ) (req : Frame) (s s' : Server) (h : Handler) (m : Message)
    → handler_of default_handlers req ≡ some h
    → h now p req s ≡ some (s', m)
    → IsAnswer req m
handler_of-IsAnswer now p req s s' h m found given =
    handler_of-All AnswersAll req h utility_handlers-AllAnswer game_handlers-AllAnswer
      account_handlers-AllAnswer found now p req s s' m given
