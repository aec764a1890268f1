-- ===== src/Server/Serve/Reply.antt =====
-- The order in which `serveConn` of hpserver/server.go answers.
use hp_server.Prelude.{sym, ℕ, ◌≡◌, ◌≢◌, ap, ◌∙◌, Bool, some, List, [], ◌∷◌, ◌++◌}
use hp_server.IntMap.{IntMap}
use hp_server.Fire.{Frame}
use hp_server.Session.{Session, OutboundFrame, closed_channel}
use hp_server.Session.Outbox.{flush_notifications}
use hp_server.Session.Outbox.Laws.{delayed, enqueue_open, reply_first}
use hp_server.Server.{Server, update_session}
use hp_server.Server.Dispatch.{Handler, handler_of}
use hp_server.Server.Serve.{again, set_session, flush_served, replied, dispatched, serve_request}

-- The session after its reply went on the channel, with what was pending behind it.
abbrev pub answered : Frame → List OutboundFrame → Session → Session
answered frame queue session = record session {
  outbound = some (
      queue
      ++ record { frame = some frame; delay = 0 }
        ∷ delayed session.notification_delay session.notifications);
  notifications = [];
  notification_delay = 0;
}

reply_then_flush :
    (p : ℕ) (s : Server) (frame : Frame) (queue : List OutboundFrame)
    → (s.heap p).outbound ≡ some queue
    → (s.heap p).closing ≢ closed_channel
    → replied p (some (s, some frame)) ≡ again (update_session p (answered frame queue) s)
unfolding update_session
reply_then_flush p s frame queue channel open' =
    let item : OutboundFrame = record { frame = some frame; delay = 0 } in
    let sent = enqueue_open (s.heap p) queue item channel open' in
    let flushed = reply_first (s.heap p) queue (some frame) channel open' in
    ap (flush_served p s) sent
    ∙ ap (λ (r : Session × Bool). again (set_session p (flush_notifications r.0) s)) (sym sent)
    ∙ ap (λ (x : Session). again (set_session p x s)) flushed

-- A request whose handler answers: on a session that is not closed, the answer goes on the channel
-- first, behind what the channel holds, then every notification that is pending after the handler, in
-- order, the first of them delayed; nothing is left pending, the connection goes on, and nothing else
-- of the server changes after the handler.
pub serve_request-Replies :
    (handlers : IntMap Handler) (now p : ℕ) (req : Frame) (s s' : Server) (h : Handler)
    (frame : Frame) (queue : List OutboundFrame)
    → handler_of handlers req ≡ some h
    → h now p req s ≡ some (s', some frame)
    → (s'.heap p).outbound ≡ some queue
    → (s'.heap p).closing ≢ closed_channel
    → serve_request handlers now p req s ≡ again (update_session p (answered frame queue) s')
unfolding serve_request
serve_request-Replies handlers now p req s s' h frame queue found given channel open' =
    ap (dispatched now p req s) found
    ∙ ap (replied p) given
    ∙ reply_then_flush p s' frame queue channel open'
