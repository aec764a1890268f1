-- ===== src/Session/Tests.antt =====
-- The theorems on hpserver/session.go at concrete sessions.
use hp_server.Prelude.{
  ℕ, ◌≤◌, ◌≡◌, ◌≢◌, ◌⊎◌, true, some, none, List, [], ◌∷◌, ◌++◌, refl, All, length, take, bytes_of,
}
use hp_server.Session.{Session, open_channel, closed_channel, new_session}
use hp_server.Session.Outbox.{enqueue, flush_frames, flush_notifications}
use hp_server.Session.Outbox.Laws.{delayed, flush_prefix}
use hp_server.Session.Name.{
  persona_name_from_token, persona_token_prefix, trim_space, valid_string, cut_prefix, has_control,
}
use hp_server.Session.Name.Laws.{IsPrintable, persona_name_sound}

-- A session with two notifications that wait for its reply.
abbrev pending : Session
pending = record (new_session none (true ∷ [])) {
  notifications = none ∷ none ∷ [];
  notification_delay = 250;
}

is_open : open_channel ≢ closed_channel
is_open h = cc

-- The same session when it is closed.
abbrev closing_session : Session
closing_session = record pending { closing = closed_channel }

one_goes_out :
    (flush_notifications closing_session).outbound
    ≡ some (record { frame = none; delay = 250 } ∷ [])
unfolding flush_notifications flush_frames enqueue
one_goes_out = refl

flush_prefix_example :
    (n : ℕ) × ((flush_notifications closing_session).outbound
      ≡ some ([] ++ delayed 250 (take n (none ∷ none ∷ []))))
    × ((flush_notifications closing_session).notifications ≡ [])
flush_prefix_example = flush_prefix closing_session [] refl

abbrev token : List ℕ
token = persona_token_prefix ++ bytes_of "  Racer One "

racer : persona_name_from_token token ≡ bytes_of "Racer One"
unfolding persona_name_from_token cut_prefix trim_space valid_string has_control
racer = refl

persona_name_sound_example :
    (persona_name_from_token token ≡ [])
    ⊎ ((rest : List ℕ) × (token ≡ persona_token_prefix ++ rest)
        × (persona_name_from_token token ≡ trim_space rest)
        × (1 ≤ length (trim_space rest))
        × (length (trim_space rest) ≤ 32)
        × (valid_string (trim_space rest) ≡ true)
        × All IsPrintable (trim_space rest))
persona_name_sound_example = persona_name_sound token
