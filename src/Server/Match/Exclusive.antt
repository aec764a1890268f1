-- ===== src/Server/Match/Exclusive.antt =====
-- That a session is idle, queued or in one game, which `removeQueuedSessionLocked` of
-- hpserver/server.go is for.
use hp_server.Prelude.{
  ℕ, ◌≡◌, ◌≢◌, inl, inr, Bool, true, false, List, [], ◌∷◌, arith, All, All-map, ◌==◌, Option-cases,
  Bool-cases, refl, ◌∙◌, subst,
}
use hp_server.Session.{
  Session, Message, OutboundFrame, Done, no_channel, open_channel, closed_channel, store, Heap,
}
use hp_server.Session.Outbox.{offer, pick, enqueue, notify}
use hp_server.Game.{MatchRequest}
use hp_server.Server.{Server, update_session, notify_session}
use hp_server.Server.Leave.{without_session, remove_queued_session}

-- A session has one request at most.
abbrev pub IsQueue : List MatchRequest → Type 0
IsQueue [] = Unit
IsQueue (r ∷ rs) = All (λ other. other.session ≢ r.session) rs × IsQueue rs

-- The session of a request is in no game and knows the request.
abbrev pub IsWaiting : Heap → MatchRequest → Type 0
IsWaiting heap r = ((heap r.session).game_id ≡ 0) × ((heap r.session).queued_match_id ≡ r.msid)

abbrev pub IsExclusive : Server → Type 0
IsExclusive s = IsQueue s.match_queue × All (IsWaiting s.heap) s.match_queue

-- The place of a session in matchmaking is the same.
abbrev pub SamePlace : Session → Session → Type 0
SamePlace x y = (y.game_id ≡ x.game_id) × (y.queued_match_id ≡ x.queued_match_id)

abbrev pub SamePlaces : Server → Server → Type 0
SamePlaces s s' = (s'.match_queue ≡ s.match_queue) × ((q : ℕ) → SamePlace (s.heap q) (s'.heap q))

pick-SamePlace :
    (choices : List Bool) (x : Session) (queue : List OutboundFrame) (item : OutboundFrame)
    → SamePlace x (pick choices x queue item).0
pick-SamePlace [] x queue item = (refl, refl)
pick-SamePlace (true ∷ rest) x queue item = (refl, refl)
pick-SamePlace (false ∷ rest) x queue item = (refl, refl)

offer-SamePlace :
    (done' : Done) (x : Session) (queue : List OutboundFrame) (item : OutboundFrame)
    → SamePlace x (offer done' x queue item).0
offer-SamePlace no_channel x queue item = (refl, refl)
offer-SamePlace open_channel x queue item = (refl, refl)
offer-SamePlace closed_channel x queue item = pick-SamePlace x.choices x queue item

pub enqueue-SamePlace : (x : Session) (item : OutboundFrame) → SamePlace x (enqueue x item).0
unfolding enqueue
enqueue-SamePlace x item = elim (Option-cases x.outbound) [
  | inl nil' ↦ rw (nil', enqueue) (refl, refl)
  | inr (queue, e) ↦ rw (e, enqueue) (offer-SamePlace x.closing x queue item)
]

pub notify-SamePlace : (x : Session) (frame : Message) → SamePlace x (notify x frame)
unfolding notify
notify-SamePlace x frame = elim (Option-cases x.outbound) [
  | inl nil' ↦ rw (nil', notify) (refl, refl)
  | inr (queue, e) ↦ rw (e, notify) (enqueue-SamePlace x (record { frame = frame; delay = 0 }))
]

pub SamePlaces-trans : (a b c : Server) → SamePlaces a b → SamePlaces b c → SamePlaces a c
SamePlaces-trans a b c (q, h) (q', h') = (q' ∙ q, λ x. ((h' x).0 ∙ (h x).0, (h' x).1 ∙ (h x).1))

pub update-SamePlaces :
    (p : ℕ) (change : Session → Session) (s : Server)
    → ((x : Session) → SamePlace x (change x))
    → SamePlaces s (update_session p change s)
unfolding update_session store
update-SamePlaces p change s keeps = (
  refl,
  λ q. elim (Bool-cases (p == q)) [
    | inr apart ↦ rw (apart, store) (refl, refl)
    | inl same ↦
        let e : p ≡ q = ground (arith, same) in
        rw (same, store)
          (subst (λ x. SamePlace (s.heap x) (change (s.heap p))) e (keeps (s.heap p)))
  ],
)

pub notify_session-SamePlaces :
    (p : ℕ) (frames : List Message) (s : Server) → SamePlaces s (notify_session p frames s)
unfolding notify_session
notify_session-SamePlaces p [] s = (refl, λ q. (refl, refl))
notify_session-SamePlaces p (frame ∷ frames) s =
    let s' = update_session p (λ session. notify session frame) s in
    SamePlaces-trans s s' (notify_session p frames s')
      (update-SamePlaces p (λ session. notify session frame) s (λ x. notify-SamePlace x frame))
      (notify_session-SamePlaces p frames s')

-- What is true of the places is true where they are the same.
pub IsExclusive-SamePlaces : (s s' : Server) → SamePlaces s s' → IsExclusive s → IsExclusive s'
IsExclusive-SamePlaces s s' (queue, same) (distinct, waiting) = (
  rw queue distinct,
  rw queue
      (All-map (λ r w. ((same r.session).0 ∙ w.0, (same r.session).1 ∙ w.1)) s.match_queue waiting),
)

pub store_same : (p : ℕ) (x : Session) (heap : Heap) → store p x heap p ≡ x
unfolding store
store_same p x heap = ground arith

pub update-IsWaiting :
    (p : ℕ) (x : Session) (heap : Heap) (queue : List MatchRequest)
    → All (λ r. r.session ≢ p) queue
    → All (IsWaiting heap) queue
    → All (IsWaiting (store p x heap)) queue
unfolding store
update-IsWaiting p x heap [] outside waiting = tt
update-IsWaiting p x heap (r ∷ rs) (apart, outside) (w, waiting) =
    let other : (p == r.session) ≡ false = ground (arith, apart) in
    (rw (other, store) w, update-IsWaiting p x heap rs outside waiting)

-- A session that no request is of may change its place.
pub update_outside :
    (p : ℕ) (change : Session → Session) (s : Server)
    → All (λ r. r.session ≢ p) s.match_queue
    → IsExclusive s
    → IsExclusive (update_session p change s)
unfolding update_session
update_outside p change s outside (distinct, waiting) =
    (distinct, update-IsWaiting p (change (s.heap p)) s.heap s.match_queue outside waiting)

pub without_session-All :
    (P : MatchRequest → Type 0) (p : ℕ) (queue : List MatchRequest)
    → All P queue
    → All P (without_session p queue)
unfolding without_session
without_session-All P p [] h = tt
without_session-All P p (r ∷ rs) (h, hs) = elim (Bool-cases (r.session == p)) [
  | inl same ↦ rw (same, without_session) (without_session-All P p rs hs)
  | inr apart ↦ rw (apart, without_session) (h, without_session-All P p rs hs)
]

pub without_session-IsQueue :
    (p : ℕ) (queue : List MatchRequest)
    → IsQueue queue
    → IsQueue (without_session p queue) × All (λ r. r.session ≢ p) (without_session p queue)
unfolding without_session
without_session-IsQueue p [] h = (tt, tt)
without_session-IsQueue p (r ∷ rs) (first, h) =
    let (distinct, outside) = without_session-IsQueue p rs h in
    elim (Bool-cases (r.session == p)) [
      | inl same ↦ rw (same, without_session) (distinct, outside)
      | inr apart ↦
          let ne : r.session ≢ p = ground (arith, apart) in
          rw (apart, without_session)
            (
              (without_session-All (λ other. other.session ≢ r.session) p rs first, distinct),
              (ne, outside),
            )
    ]

-- `removeQueuedSessionLocked` leaves no request of the session and keeps the others exclusive,
-- whatever the place of the session was.
pub remove_queued-IsExclusive :
    (p : ℕ) (change : Session → Session) (s : Server)
    → IsExclusive s
    → IsExclusive (remove_queued_session p (update_session p change s))
      × All (λ r. r.session ≢ p) (remove_queued_session p (update_session p change s)).match_queue
      × (((remove_queued_session p (update_session p change s)).heap p).queued_match_id ≡ 0)
unfolding remove_queued_session update_session store
remove_queued-IsExclusive p change s (distinct, waiting) =
    let queue = without_session p s.match_queue in
    let (distinct', outside) = without_session-IsQueue p s.match_queue distinct in
    let waiting' = without_session-All (IsWaiting s.heap) p s.match_queue waiting in
    let once = update-IsWaiting p (change (s.heap p)) s.heap queue outside waiting' in
    (
      (distinct', update-IsWaiting p _ (store p (change (s.heap p)) s.heap) queue outside once),
      outside,
      ground arith,
    )
