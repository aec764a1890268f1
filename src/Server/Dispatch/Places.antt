-- ===== src/Server/Dispatch/Places.antt =====
-- The table of handlers: each of them keeps the sessions apart.
use hp_server.Prelude.{ℕ, ◌≡◌, false, some, Option-cases, inl, inr}
use hp_server.Fire.{Frame}
use hp_server.Session.{Message}
use hp_server.Server.{Server}
use hp_server.Server.Leave.Exclusive.{IsApart}
use hp_server.Server.Match.Queue.{is_active_member, queue_match}
use hp_server.Server.Match.Queue.Tried.{Holds, Holds-elim, IsUnseated}
use hp_server.Server.Match.Queue.Seated.{queue_match-IsApart}
use hp_server.Server.Handlers.{
  acknowledge, update_network_info, reset_dedicated, finalize_game, advance_game_state,
  set_player_attrs, set_game_attrs, set_game_settings, set_player_capacity, start_matchmaking,
  cancel_matchmaking, replay_game, update_mesh,
}
use hp_server.Server.Handlers.Removal.{remove_player}
use hp_server.Server.Handlers.Answers.{
  redirect, pre_auth, ping_reply, post_auth, user_settings_load, get_best_scores, get_telemetry,
  create_wal_session, get_lists, client_config, password_login,
}
use hp_server.Server.Handlers.Login.{get_account, list_entitlements, silent_login}
use hp_server.Server.Handlers.Create.{reset_dedicated-IsApart}
use hp_server.Server.Handlers.Apart.{remove_player-IsApart}
use hp_server.Server.Handlers.Steady.{
  finalize_game-IsApart, advance_game_state-IsApart, set_player_attrs-IsApart,
  set_game_attrs-IsApart, set_game_settings-IsApart, set_player_capacity-IsApart,
  replay_game-IsApart, update_network_info-IsApart,
}
use hp_server.Server.Handlers.Joined.{
  silent_login-IsApart, cancel_matchmaking-IsApart, update_mesh-IsApart,
}
use hp_server.Server.Dispatch.Registered.{AllHandlers, handler_of-All}
use hp_server.Server.Dispatch.{
  Handler, utility_handlers, game_handlers, account_handlers, default_handlers, handler_of,
}

-- A session in no game but the one that it says it is in.
abbrev pub IsPlaced : ℕ → Server → Type 0
IsPlaced p s = is_active_member p s ≡ false → IsUnseated p s.games

abbrev KeepsApart : Handler → Type 0
KeepsApart h =
    (now p : ℕ) (req : Frame) (s s' : Server) (m : Message)
    → h now p req s ≡ some (s', m)
    → IsPlaced p s
    → IsApart s
    → IsApart s'

moving :
    (f : ℕ → ℕ → Frame → Server → Server × Message)
    → ((now p : ℕ) (req : Frame) (s : Server) → IsApart s → IsApart (f now p req s).0)
    → KeepsApart (λ now p req s. some (f now p req s))
moving f keeps now p req s s' m h placed apart =
    Holds-elim (λ r. IsApart r.0) (keeps now p req s apart) h

quiet : (f : ℕ → ℕ → Frame → Server → Message) → KeepsApart (λ now p req s. some (s, f now p req s))
quiet f = moving (λ now p req s. (s, f now p req s)) (λ now p req s apart. apart)

start_matchmaking-IsApart : KeepsApart start_matchmaking
unfolding start_matchmaking
start_matchmaking-IsApart now p req s s' m h placed apart =
    let after : Holds (λ r. IsApart r.0) (start_matchmaking now p req s) =
      elim (Option-cases (queue_match now p req.tdf s)) [
        | inl panic ↦ rw (panic, start_matchmaking) tt
        | inr ((s1, msid), e) ↦
            rw (e, start_matchmaking) (queue_match-IsApart now p req.tdf s s1 msid placed apart e)
      ] in
    Holds-elim (λ r. IsApart r.0) after h

utility_handlers-AllKeep : AllHandlers KeepsApart utility_handlers
utility_handlers-AllKeep = (
  quiet (λ now p req s. redirect req),
  (
    quiet (λ now p req s. pre_auth req),
    (
      quiet (λ now p req s. ping_reply now req),
      (
        quiet (λ now p req s. post_auth req),
        (
          quiet (λ now p req s. user_settings_load req),
          (
            quiet (λ now p req s. acknowledge req),
            (
              moving (λ now p. update_network_info p)
                  (λ now p req s apart. update_network_info-IsApart p req s apart),
              (
                quiet (λ now p req s. acknowledge req),
                (
                  quiet (λ now p req s. acknowledge req),
                  (
                    quiet (λ now p req s. acknowledge req),
                    (quiet (λ now p req s. get_best_scores req), tt),
                  ),
                ),
              ),
            ),
          ),
        ),
      ),
    ),
  ),
)

game_handlers-AllKeep : AllHandlers KeepsApart game_handlers
game_handlers-AllKeep = (
  moving (λ now p. reset_dedicated now p)
      (λ now p req s apart. reset_dedicated-IsApart now p req s apart),
  (
    moving (λ now p. finalize_game p) (λ now p req s apart. finalize_game-IsApart p req s apart),
    (
      moving (λ now p. advance_game_state p)
          (λ now p req s apart. advance_game_state-IsApart p req s apart),
      (
        moving (λ now p. set_player_attrs now p)
            (λ now p req s apart. set_player_attrs-IsApart now p req s apart),
        (
          moving (λ now p. set_game_attrs p)
              (λ now p req s apart. set_game_attrs-IsApart p req s apart),
          (
            moving (λ now p. set_game_settings p)
                (λ now p req s apart. set_game_settings-IsApart p req s apart),
            (
              moving (λ now p. set_player_capacity p)
                  (λ now p req s apart. set_player_capacity-IsApart p req s apart),
              (
                moving (λ now p. remove_player p)
                    (λ now p req s apart. remove_player-IsApart p req s apart),
                (
                  start_matchmaking-IsApart,
                  (
                    moving (λ now p. cancel_matchmaking p)
                        (λ now p req s apart. cancel_matchmaking-IsApart p req s apart),
                    (
                      moving (λ now p. replay_game p)
                          (λ now p req s apart. replay_game-IsApart p req s apart),
                      (
                        moving (λ now p. update_mesh now p)
                            (λ now p req s apart. update_mesh-IsApart now p req s apart),
                        tt,
                      ),
                    ),
                  ),
                ),
              ),
            ),
          ),
        ),
      ),
    ),
  ),
)

account_handlers-AllKeep : AllHandlers KeepsApart account_handlers
account_handlers-AllKeep = (
  quiet (λ now p req s. get_telemetry req),
  (
    quiet (λ now p req s. create_wal_session req),
    (
      quiet (λ now p req s. get_account (s.heap p) req),
      (
        quiet (λ now p req s. list_entitlements (s.heap p) req),
        (
          quiet (λ now p req s. get_lists req),
          (
            quiet (λ now p req s. client_config s.autolog_base req),
            (
              moving (λ now p. silent_login p)
                  (λ now p req s apart. silent_login-IsApart p req s apart),
              (
                quiet (λ now p req s. acknowledge req),
                (quiet (λ now p req s. password_login req), tt),
              ),
            ),
          ),
        ),
      ),
    ),
  ),
)

-- Every request keeps the sessions apart, whichever of the server's handlers it goes to: if before it
-- every queued session had one request, was in no game and knew the request, and no member of a game
-- was queued, then so it is after it. The session that asks must be in no game but the one that it
-- says it is in.
pub handler_of-IsApart :
    (now p : ℕ) (req : Frame) (s s' : Server) (h : Handler) (m : Message)
    → handler_of default_handlers req ≡ some h
    → h now p req s ≡ some (s', m)
    → IsPlaced p s
    → IsApart s
    → IsApart s'
handler_of-IsApart now p req s s' h m found given placed apart =
    handler_of-All KeepsApart req h utility_handlers-AllKeep game_handlers-AllKeep
      account_handlers-AllKeep found now p req s s' m given placed apart
