-- ===== src/Server.antt =====
-- hpserver/server.go and hpserver/types.go: the state of the server. A handler runs with the
-- server's mutex held wherever it changes the state, so each is one step here.
pub mod Auth
pub mod Notices
pub mod Leave
pub mod Match
pub mod Mesh
pub mod Broadcast
pub mod Handlers
pub mod Commands
pub mod Dispatch
pub mod Serve
pub mod Writer
mod Tests
use hp_server.Prelude.{ℕ, Option, none, some, List, [], ◌∷◌}
use hp_server.IntMap.{IntMap}
use hp_server.Session.{Session, Heap, Message, store, OutboundFrame}
use hp_server.Session.Outbox.{notify, enqueue}
use hp_server.Game.{Game, MatchRequest}

pub record UserIdentity : Type 0 where
  pub account_id : ℕ
  pub persona_id : ℕ
  pub name : List ℕ

-- `heap` holds the sessions that the pointers lead to.
pub record Server : Type 0 where
  pub next_user_id : ℕ
  pub next_session_id : ℕ
  pub next_game_id : ℕ
  pub next_match_id : ℕ
  pub users : IntMap UserIdentity
  pub sessions : IntMap ℕ
  pub active_personas : IntMap ℕ
  pub games : IntMap Game
  pub match_queue : List MatchRequest
  pub autolog_base : List ℕ
  pub heap : Heap

-- `New`, over any heap.
abbrev pub new : List ℕ → Heap → Server
new autolog_base heap = record {
  next_user_id = 1;
  next_session_id = 1;
  next_game_id = 1;
  next_match_id = 1;
  users = [];
  sessions = [];
  active_personas = [];
  games = [];
  match_queue = [];
  autolog_base = autolog_base;
  heap = heap;
}

-- A write through the pointer `p`.
unfoldable pub update_session : ℕ → (Session → Session) → Server → Server
unfolding store
update_session p change s = record s { heap = store p (change (s.heap p)) s.heap }

-- `member.notify(frame)` for each frame, in order.
unfoldable pub notify_session : ℕ → List Message → Server → Server
unfolding update_session
notify_session p [] s = s
notify_session p (frame ∷ frames) s =
    notify_session p frames (update_session p (λ session. notify session frame) s)

unfoldable pub notify_all : List ℕ → List Message → Server → Server
unfolding notify_session
notify_all [] frames s = s
notify_all (member ∷ members) frames s = notify_all members frames (notify_session member frames s)
