-- ===== src/Server/Match/Cancel/Laws.antt =====
-- What `cancelQueuedMatch` of hpserver/server.go takes out of the queue.
use hp_server.Prelude.{
  ℕ, ◌≡◌, ◌≢◌, inl, inr, ◌⊎◌, true, false, none, some, List, [], ◌∷◌, arith, All, ◌==◌, ◌||◌, not,
  slt, Option-cases, Bool-cases, refl, ◌∙◌, sym, subst, ap,
}
use hp_server.Session.{Heap, store}
use hp_server.Game.{MatchRequest}
use hp_server.Server.{Server, update_session}
use hp_server.Server.Leave.{without_session}
use hp_server.Server.Match.Cancel.{unqueued, drop_request, cancel_queued_match}
use hp_server.Server.Match.Exclusive.{
  IsQueue, IsWaiting, IsExclusive, update-IsWaiting, store_same, without_session-All,
  without_session-IsQueue,
}

-- The session waits with this id.
abbrev pub HasRequest : ℕ → ℕ → List MatchRequest → Type 0
HasRequest p msid [] = ⊥
HasRequest p msid (r ∷ rs) = ((r.session ≡ p) × (r.msid ≡ msid)) ⊎ HasRequest p msid rs

without_absent :
    (p : ℕ) (queue : List MatchRequest)
    → All (λ r. r.session ≢ p) queue
    → without_session p queue ≡ queue
unfolding without_session
without_absent p [] h = refl
without_absent p (r ∷ rs) (ne, h) =
    let other : (r.session == p) ≡ false = ground (arith, ne) in
    rw (other, without_session) (ap (λ q. r ∷ q) (without_absent p rs h))

request-All :
    (P : ℕ → Type 0) (p msid : ℕ) (queue : List MatchRequest)
    → HasRequest p msid queue
    → All (λ r. P r.session) queue
    → P p
request-All P p msid [] h hs = absurd h
request-All P p msid (r ∷ rs) (inl (e, e')) (hr, hs) = subst P e hr
request-All P p msid (r ∷ rs) (inr later) (hr, hs) = request-All P p msid rs later hs

-- In a queue the request of a session is the only one to go.
drop_request_found :
    (p msid : ℕ) (queue : List MatchRequest)
    → IsQueue queue
    → HasRequest p msid queue
    → drop_request p msid queue ≡ some (without_session p queue)
unfolding drop_request without_session
drop_request_found p msid [] d h = absurd h
drop_request_found p msid (r ∷ rs) (first, d) (inl (e, e')) =
    let mine : (r.session == p) ≡ true = ground (arith, e) in
    let same : (r.msid == msid) ≡ true = ground (arith, e') in
    rw (mine, same, drop_request, without_session)
      (ap (λ q. some q)
        (sym (without_absent p rs (subst (λ x. All (λ o. o.session ≢ x) rs) e first))))
drop_request_found p msid (r ∷ rs) (first, d) (inr later) =
    let ne = request-All (λ x. x ≢ r.session) p msid rs later first in
    let other : (r.session == p) ≡ false = ground (arith, ne) in
    rw (other, drop_request_found p msid rs d later, drop_request, without_session) refl

drop_request_missing :
    (p msid : ℕ) (queue others : List MatchRequest)
    → drop_request p msid queue ≡ some others
    → HasRequest p msid queue
unfolding drop_request
drop_request_missing p msid [] others h = let never : ⊥ = cc in absurd never
drop_request_missing p msid (r ∷ rs) others h =
    elim (Bool-cases (not (r.session == p) || not (r.msid == msid))) [
      | inr mine ↦ inl (ground (arith, mine), ground (arith, mine))
      | inl other ↦ elim (Option-cases (drop_request p msid rs)) [
        | inl missing ↦
            let no : none ≡ some others = sym (rw (other, missing, drop_request) refl) ∙ h in
            let never : ⊥ = cc in absurd never
        | inr (rest, e) ↦ inr (drop_request_missing p msid rs rest e)
      ]
    ]

-- A session that waits knows the id of its request.
known_id :
    (p msid : ℕ) (heap : Heap) (queue : List MatchRequest)
    → HasRequest p msid queue
    → All (IsWaiting heap) queue
    → (heap p).queued_match_id ≡ msid
known_id p msid heap [] h hs = absurd h
known_id p msid heap (r ∷ rs) (inl (e, e')) ((idle, id), hs) =
    subst (λ x. (heap x).queued_match_id ≡ msid) e (id ∙ e')
known_id p msid heap (r ∷ rs) (inr later) (h, hs) = known_id p msid heap rs later hs

pub dropped-IsExclusive :
    (p : ℕ) (s : Server) (rest : List MatchRequest)
    → rest ≡ without_session p s.match_queue
    → IsExclusive s
    → IsExclusive (update_session p unqueued (record s { match_queue = rest }))
unfolding update_session
dropped-IsExclusive p s rest e (distinct, waiting) =
    let queue = without_session p s.match_queue in
    let (distinct', outside) = without_session-IsQueue p s.match_queue distinct in
    let waiting' = without_session-All (IsWaiting s.heap) p s.match_queue waiting in
    subst (λ q. IsQueue q × All (IsWaiting (store p (unqueued (s.heap p)) s.heap)) q) (sym e)
      (distinct', update-IsWaiting p (unqueued (s.heap p)) s.heap queue outside waiting')

-- In an exclusive state a cancellation is done exactly when the id is above zero and the session
-- waits with it. Then its request leaves the queue, the others keep their order, and the session is
-- no longer queued; otherwise nothing changes. The state stays exclusive.
pub cancel_exact :
    (p msid : ℕ) (s : Server)
    → IsExclusive s
    → let (s', cancelled) = cancel_queued_match (some p) msid s in
      ((cancelled ≡ true)
        × (slt 0 msid ≡ true)
        × HasRequest p msid s.match_queue
        × (s'.match_queue ≡ without_session p s.match_queue)
        × ((s'.heap p).queued_match_id ≡ 0)
        × IsExclusive s')
      ⊎ ((cancelled ≡ false) × (s' ≡ s) × (slt 0 msid ≡ true → HasRequest p msid s.match_queue → ⊥))
unfolding cancel_queued_match update_session
cancel_exact p msid s (distinct, waiting) =
    elim (Bool-cases (not (slt 0 msid) || not ((s.heap p).queued_match_id == msid))) [
      | inl refused ↦
          rw (refused, cancel_queued_match)
            (inr (
              refl,
              refl,
              λ positive has.
                  let id = known_id p msid s.heap s.match_queue has waiting in
                  ground (arith, id, positive),
            ))
      | inr asked ↦ elim (Option-cases (drop_request p msid s.match_queue)) [
        | inl missing ↦
            rw (asked, missing, cancel_queued_match)
              (inr (
                refl,
                refl,
                λ positive has.
                    let no : none ≡ some (without_session p s.match_queue) =
                      sym missing ∙ drop_request_found p msid s.match_queue distinct has in
                    cc,
              ))
        | inr (rest, e) ↦
            let positive : slt 0 msid ≡ true = ground (arith, asked) in
            let has = drop_request_missing p msid s.match_queue rest e in
            let all : some rest ≡ some (without_session p s.match_queue) =
              sym e ∙ drop_request_found p msid s.match_queue distinct has in
            let e' : rest ≡ without_session p s.match_queue = cc in
            rw (asked, e, cancel_queued_match)
              (inl (
                refl,
                positive,
                has,
                e',
                ap (λ x. x.queued_match_id) (store_same p (unqueued (s.heap p)) s.heap),
                dropped-IsExclusive p s rest e' (distinct, waiting),
              ))
      ]
    ]
