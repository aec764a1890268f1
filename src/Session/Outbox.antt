-- ===== src/Session/Outbox.antt =====
-- `enqueue`, `notify`, `flushNotifications` and `close` of session.go. The channel is the list of all
-- frames that were sent on it, whether the writer took them or not: a send that waits for one of the
-- 256 places is done once there is room, and a send that waits for ever has no result here.
pub mod Laws
use hp_server.Prelude.{ℕ, Bool, true, false, Option, none, some, List, [], ◌∷◌, ◌++◌, if◌then◌else◌}
use hp_server.Session.{
  Session, Message, OutboundFrame, Done, no_channel, open_channel, closed_channel,
}

abbrev pub send : Session → List OutboundFrame → OutboundFrame → Session
send session queue item = record session { outbound = some (queue ++ item ∷ []) }

-- `select` with the channel `done` closed: both cases are ready.
abbrev pub pick : List Bool → Session → List OutboundFrame → OutboundFrame → Session × Bool
pick [] session queue item = (session, false)
pick (true ∷ rest) session queue item = (record (send session queue item) { choices = rest }, true)
pick (false ∷ rest) session queue item = (record session { choices = rest }, false)

abbrev pub offer : Done → Session → List OutboundFrame → OutboundFrame → Session × Bool
offer no_channel session queue item = (send session queue item, true)
offer open_channel session queue item = (send session queue item, true)
offer closed_channel session queue item = pick session.choices session queue item

unfoldable pub enqueue : Session → OutboundFrame → Session × Bool
enqueue session item = elim session.outbound [
  | none ↦ (session, false)
  | some queue ↦ offer session.closing session queue item
]

unfoldable pub notify : Session → Message → Session
unfolding enqueue
notify session frame = elim session.outbound [
  | none ↦ record session { notifications = session.notifications ++ frame ∷ [] }
  | some queue ↦ (enqueue session (record { frame = frame; delay = 0 })).0
]

-- `for i, frame := range frames`, with the delay of the next frame.
unfoldable pub flush_frames : List Message → ℕ → Session → Session
flush_frames [] delay session = session
flush_frames (frame ∷ frames) delay session =
    let (session', sent) = enqueue session (record { frame = frame; delay = delay }) in
    let rest = flush_frames frames 0 session' in if sent then rest else session'

unfoldable pub flush_notifications : Session → Session
flush_notifications session =
    flush_frames session.notifications session.notification_delay
      (record session { notifications = []; notification_delay = 0 })

abbrev pub closed : Done → Done
closed no_channel = no_channel
closed open_channel = closed_channel
closed closed_channel = closed_channel

unfoldable pub close : Session → Session
close session = record session { closing = closed session.closing }
