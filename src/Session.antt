-- ===== src/Session.antt =====
-- hpserver/session.go and the session types of hpserver/types.go. A session is a record; `Heap` is
-- what the pointers to sessions lead to, and a pointer is a number.
pub mod Name
pub mod Outbox
pub mod Identity
mod Tests
use hp_server.Prelude.{
  ℕ, Bool, true, false, Option, none, some, List, [], ◌∷◌, ◌++◌, ◌==◌, if◌then◌else◌,
}
use hp_server.Tdf.Value.{Fields}
use hp_server.Fire.{Frame, Header, message_notify}
use hp_server.Tdf.Value.{no_fields}

-- A frame that is being sent. `none` is the panic of the encoder, which ends the program: what the
-- model does after it stands for nothing.
abbrev pub Message : Type 0
Message = Option Frame

-- The delay is in milliseconds.
pub record OutboundFrame : Type 0 where
  pub frame : Message
  pub delay : ℕ

-- The channel `done`: nil, open or closed.
pub data Done : Type 0 where
  no_channel open_channel closed_channel : Done

-- `choices` is what the scheduler picks where `select` finds both of its cases ready: true for the
-- send, and the closed channel when the list is used up. The 256 places of `outbound` are not
-- bounded here: a sender that waits for the writer goes on when the writer has caught up.
pub record Session : Type 0 where
  pub remote_ip : Option (List ℕ)
  pub account_id : ℕ
  pub persona_id : ℕ
  pub session_id : ℕ
  pub persona : List ℕ
  pub notifications : List Message
  pub notification_delay : ℕ
  pub pending_matchmaking_game : ℕ
  pub network_address : Option Fields
  pub network_qos : Option Fields
  pub game_id : ℕ
  pub queued_match_id : ℕ
  pub outbound : Option (List OutboundFrame)
  pub closing : Done
  pub choices : List Bool

abbrev pub Heap : Type 0
Heap = ℕ → Session

-- `*p = session`
unfoldable pub store : ℕ → Session → Heap → Heap
store p session heap q = if p == q then session else heap q

-- `Server.newSession`
abbrev pub new_session : Option (List ℕ) → List Bool → Session
new_session remote choices = record {
  remote_ip = remote;
  account_id = 0;
  persona_id = 0;
  session_id = 0;
  persona = [];
  notifications = [];
  notification_delay = 0;
  pending_matchmaking_game = 0;
  network_address = none;
  network_qos = none;
  game_id = 0;
  queued_match_id = 0;
  outbound = some [];
  closing = open_channel;
  choices = choices;
}

-- `notification` of server.go, on the payload that the encoder gives.
unfoldable pub notification : ℕ → ℕ → Option (List ℕ) → Message
notification component command none = none
notification component command (some payload) = some (record {
  header = record {
    payload_size = 0;
    component = component;
    command = command;
    error = 0;
    message_type = message_notify;
    message_id = 0;
  };
  payload = payload;
  tdf = no_fields;
})
