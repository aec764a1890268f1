-- ===== src/Session/Outbox/Laws.antt =====
-- Notifications leave in order behind the reply, and a session that is closed takes nothing after
-- the first refusal.
use hp_server.Prelude.{
  ℕ, suc, true, some, List, [], ◌∷◌, ◌++◌, ◌≡◌, ◌≢◌, refl, ◌∙◌, append_assoc, append-nil, arith,
  if◌then◌else◌, take, Bool-cases, inl, inr,
}
use hp_server.Session.{Session, Message, OutboundFrame, closed_channel}
use hp_server.Session.Outbox.{enqueue, flush_frames, flush_notifications}

-- The first frame carries the delay.
abbrev pub delayed : ℕ → List Message → List OutboundFrame
delayed delay [] = []
delayed delay (frame ∷ frames) = record { frame = frame; delay = delay } ∷ delayed 0 frames

pub enqueue_open :
    (session : Session) (queue : List OutboundFrame) (item : OutboundFrame)
    → session.outbound ≡ some queue
    → session.closing ≢ closed_channel
    → enqueue session item ≡ (record session { outbound = some (queue ++ item ∷ []) }, true)
unfolding enqueue
enqueue_open session queue item e o = ground arith

flush_frames_open :
    (frames : List Message) (delay : ℕ) (session : Session) (queue : List OutboundFrame)
    → session.outbound ≡ some queue
    → session.closing ≢ closed_channel
    → flush_frames frames delay session
      ≡ record session { outbound = some (queue ++ delayed delay frames) }
unfolding flush_frames
flush_frames_open [] delay session queue e o = ground (arith, append-nil queue)
flush_frames_open (frame ∷ frames) delay session queue e o =
    let item : OutboundFrame = record { frame = frame; delay = delay } in
    rw (enqueue_open session queue item e o) (
      flush_frames_open frames 0 (record session { outbound = some (queue ++ item ∷ []) })
        (queue ++ item ∷ []) refl o
      ∙ rw append_assoc)

-- A frame and then a flush: on a session that is not closed the frame goes out first, then every pending notification in order, the first of them delayed, and nothing is
-- left pending.
pub reply_first :
    (session : Session) (queue : List OutboundFrame) (reply : Message)
    → session.outbound ≡ some queue
    → session.closing ≢ closed_channel
    → flush_notifications (enqueue session (record { frame = reply; delay = 0 })).0
      ≡ record session {
        outbound = some (
            queue
            ++ record { frame = reply; delay = 0 }
              ∷ delayed session.notification_delay session.notifications);
        notifications = [];
        notification_delay = 0;
      }
unfolding flush_notifications
reply_first session queue reply e o =
    let item : OutboundFrame = record { frame = reply; delay = 0 } in
    rw (enqueue_open session queue item e o) (
      flush_frames_open session.notifications session.notification_delay _ (queue ++ item ∷ []) refl
        o
      ∙ rw append_assoc)

enqueue_cases :
    (session : Session) (queue : List OutboundFrame) (item : OutboundFrame)
    → session.outbound ≡ some queue
    → let (session', sent) = enqueue session item in
      (session'.notifications ≡ session.notifications)
      × (session'.outbound ≡ some (if sent then queue ++ item ∷ [] else queue))
unfolding enqueue
enqueue_cases session queue item e = ground arith

-- What a flush puts on the channel.
flushed :
    (frames : List Message) (delay : ℕ) (session : Session) (queue : List OutboundFrame)
    → session.outbound ≡ some queue
    → (n : ℕ) × ((flush_frames frames delay session).outbound
        ≡ some (queue ++ delayed delay (take n frames)))
      × ((flush_frames frames delay session).notifications ≡ session.notifications)
unfolding flush_frames
flushed [] delay session queue e = (0, e ∙ rw append-nil, refl)
flushed (frame ∷ frames) delay session queue e =
    let item : OutboundFrame = record { frame = frame; delay = delay } in
    let step = enqueue session item in
    let (kept, out) = enqueue_cases session queue item e in
    elim (Bool-cases step.1) [
      | inr refused ↦ (0, rw refused (out ∙ rw (refused, append-nil)), rw refused kept)
      | inl sent ↦
          let (n, more, kept') = flushed frames 0 step.0 (queue ++ item ∷ []) (out ∙ rw sent) in
          (suc n, rw sent (more ∙ rw append_assoc), rw sent (kept' ∙ kept))
    ]

-- Whatever the scheduler picks, a flush sends a prefix of the pending notifications, in order and
-- behind what the channel holds, and leaves none pending.
pub flush_prefix :
    (session : Session) (queue : List OutboundFrame)
    → session.outbound ≡ some queue
    → (n : ℕ) × ((flush_notifications session).outbound
        ≡ some (queue ++ delayed session.notification_delay (take n session.notifications)))
      × ((flush_notifications session).notifications ≡ [])
unfolding flush_notifications
flush_prefix session queue e =
    flushed session.notifications session.notification_delay
      (record session { notifications = []; notification_delay = 0 }) queue e
