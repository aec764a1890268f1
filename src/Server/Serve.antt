-- ===== src/Server/Serve.antt =====
-- `serveConn` of hpserver/server.go: the requests of one connection, up to its end.
pub mod Ends
pub mod Reply
mod Tests
use hp_server.Prelude.{
  ℕ, zero, suc, ◌+◌, Bool, true, false, Option, none, some, List, [], ◌∷◌, length, if◌then◌else◌,
}
use hp_server.IntMap.{IntMap}
use hp_server.Stream.{Result, ok, err}
use hp_server.Fire.{Frame, read}
use hp_server.Session.{Session, Message, OutboundFrame, new_session}
use hp_server.Session.Outbox.{enqueue, flush_notifications}
use hp_server.Server.{Server, update_session}
use hp_server.Server.Leave.{remove_session}
use hp_server.Server.Dispatch.{Handler, handler_of}

-- A request left the program in a panic, ended the connection, or leaves it open.
pub data Served : Type 0 where
  crashed : Served
  ended : Server → Served
  again : Server → Served

abbrev pub set_session : ℕ → Session → Server → Server
set_session p session s = update_session p (λ old. session) s

-- `if !session.enqueue(…) { return }`, and the notifications behind the reply.
abbrev pub flush_served : ℕ → Server → Session × Bool → Served
flush_served p s (session, false) = ended (set_session p session s)
flush_served p s (session, true) = again (set_session p (flush_notifications session) s)

abbrev pub replied : ℕ → Option (Server × Message) → Served
replied p none = crashed
replied p (some (s, none)) = crashed
replied p (some (s, some frame)) =
    flush_served p s (enqueue (s.heap p) (record { frame = some frame; delay = 0 }))

abbrev pub dispatched : ℕ → ℕ → Frame → Server → Option Handler → Served
dispatched now p req s none = ended s
dispatched now p req s (some handler) = replied p (handler now p req s)

-- A request: its handler, the reply and the pending notifications.
unfoldable pub serve_request : IntMap Handler → ℕ → ℕ → Frame → Server → Served
unfolding handler_of update_session enqueue flush_notifications
serve_request handlers now p req s = dispatched now p req s (handler_of handlers req)

-- The ends of a connection: the program panics, `serveConn` returns, or it waits for ever in a send
-- on a channel, its own or that of a session that it notifies.
pub data Ending : Type 0 where
  panic : Ending
  left : Server → Ending
  waiting : Ending

-- What a connection meets, by the number of the round: the clock, what other connections do to the
-- server before the round, whether the writer has failed by then, and whether a send of the round
-- finds the 256 places of its channel taken and no writer ever takes from them.
pub record Meets : Type 0 where
  pub clock : ℕ → ℕ
  pub others : ℕ → Server → Server
  pub write_failed : ℕ → Bool
  pub blocked : ℕ → Bool

-- The deferred `removeSession`, which notifies those who stay.
abbrev pub leave : Bool → ℕ → Server → Ending
leave true p s = waiting
leave false p s = left (remove_session p s)

abbrev pub after_request : Bool → ℕ → (Server → Option Ending) → Served → Option Ending
after_request blocked p next crashed = some panic
after_request blocked p next (ended s) = some (leave blocked p s)
after_request true p next (again s) = some waiting
after_request false p next (again s) = next s

abbrev pub after_read :
    Bool
    → ℕ
    → Server
    → (Frame → Served)
    → (List ℕ → Server → Option Ending)
    → Result (Option Frame × List ℕ)
    → Option Ending
after_read blocked p s serve next (err e) = some (leave blocked p s)
after_read blocked p s serve next (ok (none, rest)) = some panic
after_read blocked p s serve next (ok (some req, rest)) =
    after_request blocked p (next rest) (serve req)

-- The loop over the bytes that the client sends before it closes, up to the deferred calls. A frame takes twelve bytes at least, so the bytes are enough fuel; `none` is a
-- loop that ran out of it.
unfoldable pub serve_loop : IntMap Handler → Meets → ℕ → ℕ → ℕ → List ℕ → Server → Option Ending
unfolding serve_request
serve_loop handlers meets p zero round stream s = none
serve_loop handlers meets p (suc fuel) round stream s =
    let s' = meets.others round s in
    let next =
      after_read (meets.blocked round) p s'
        (λ req. serve_request handlers (meets.clock round) p req s')
        (λ rest t. serve_loop handlers meets p fuel (round + 1) rest t) (read stream) in
    if meets.write_failed round then some (leave (meets.blocked round) p s') else next

-- `serveConn` for a new session, on a connection without a handshake or whose handshake gave
-- `shaken`.
unfoldable pub serve_conn :
    IntMap Handler
    → Meets
    → Option (List ℕ)
    → List Bool
    → Bool
    → ℕ
    → List ℕ
    → Server
    → Option Ending
unfolding serve_loop update_session
serve_conn handlers meets remote choices shaken p stream s =
    let s' = set_session p (new_session remote choices) s in
    if shaken
    then serve_loop handlers meets p (suc (length stream)) 0 stream s'
    else some (leave (meets.blocked 0) p s')
