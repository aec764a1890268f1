-- ===== src/Server/Match/Queue/Laws.antt =====
-- What `queueMatch` of hpserver/server.go does to the places of the sessions.
use hp_server.Prelude.{
  ℕ, ◌≡◌, ◌≢◌, inl, inr, Option, none, some, List, [], ◌∷◌, ◌++◌, All-append, Option-cases,
  Bool-cases, refl, ◌∙◌, sym, subst, ap, inc64,
}
use hp_server.IntMap
use hp_server.Tdf.Value.{Fields}
use hp_server.Session.{store}
use hp_server.Game.{MatchRequest, new_game}
use hp_server.Game.Roster.New.{new_game-All}
use hp_server.Game.Setup.{game_setup}
use hp_server.Server.{Server, update_session}
use hp_server.Server.Leave.{remove_queued_session}
use hp_server.Server.Match.{take_match, try_games, sorted_ids}
use hp_server.Server.Match.Exclusive.{
  IsQueue, IsWaiting, IsExclusive, update-IsWaiting, store_same, remove_queued-IsExclusive,
}
use hp_server.Server.Match.Queue.{
  encodes, meet_messages, join_messages, enter_all, join_game, pair_sessions, queued_as, meet,
  take_place, wait_or_pair, is_active_member, request_of, out_of_game, find_place, queue_match,
}
use hp_server.Server.Match.Found.{Outside, take_match-All, take_match-IsQueue}
use hp_server.Server.Match.Queue.Places.{
  delivered-IsExclusive, join_game-IsExclusive, enter_all-IsExclusive,
}

IsQueue-append :
    (queue : List MatchRequest) (c : MatchRequest)
    → Outside queue c.session
    → IsQueue queue
    → IsQueue (queue ++ c ∷ [])
IsQueue-append [] c outside d = (tt, tt)
IsQueue-append (r ∷ rs) c (apart, outside) (first, d) = (
  All-append (λ other. other.session ≢ r.session) rs (c ∷ []) first (λ h. apart (sym h), tt),
  IsQueue-append rs c outside d,
)

-- Two sessions that no request in the queue is of are paired.
pair_sessions-IsExclusive :
    (now : ℕ) (w c : MatchRequest) (s : Server)
    → Outside s.match_queue w.session
    → Outside s.match_queue c.session
    → IsExclusive s
    → IsExclusive (pair_sessions now w c s)
unfolding pair_sessions
pair_sessions-IsExclusive now w c s out_w out_c exclusive =
    let id = s.next_game_id in
    let members = w.session ∷ c.session ∷ [] in
    let game = new_game s.heap now id w.session members w.attrs w.cap w.topology 1 in
    let all_out =
      new_game-All (Outside s.match_queue) s.heap now id w.session members w.attrs w.cap w.topology
        1 (out_w, (out_c, tt)) in
    let s0 = record s { next_game_id = inc64 id } in
    let s1 = enter_all id game.members s0 in
    let entered : IsExclusive s1 = enter_all-IsExclusive id game.members s0 all_out exclusive in
    let game1 = (game_setup s1.heap now game).0 in
    let game2 = (game_setup s1.heap now game1).0 in
    delivered-IsExclusive w.session c.session _ _ (IntMap.put id game2 s1.games) s1 entered

-- A session of no game and no request takes its place in the queue.
waits-IsExclusive :
    (c : MatchRequest) (s : Server)
    → Outside s.match_queue c.session
    → (s.heap c.session).game_id ≡ 0
    → IsExclusive s
    → IsExclusive (
        update_session c.session
          (queued_as c.msid)
          (record s { match_queue = s.match_queue ++ c ∷ [] }))
unfolding update_session store
waits-IsExclusive c s outside idle (distinct, waiting) =
    let heap' = store c.session (queued_as c.msid (s.heap c.session)) s.heap in
    let mine = store_same c.session (queued_as c.msid (s.heap c.session)) s.heap in
    let others =
      update-IsWaiting c.session (queued_as c.msid (s.heap c.session)) s.heap s.match_queue outside
        waiting in
    (
      IsQueue-append s.match_queue c outside distinct,
      All-append (IsWaiting heap') s.match_queue (c ∷ []) others
          ((ap (λ x. x.game_id) mine ∙ idle, ap (λ x. x.queued_match_id) mine), tt),
    )

meet-IsExclusive :
    (now : ℕ) (c : MatchRequest) (s : Server) (found : Option (MatchRequest × List MatchRequest))
    → take_match c s.match_queue ≡ some found
    → Outside s.match_queue c.session
    → (s.heap c.session).game_id ≡ 0
    → IsExclusive s
    → IsExclusive (meet now c s found)
unfolding meet
meet-IsExclusive now c s none h outside idle exclusive =
    waits-IsExclusive c s outside idle exclusive
meet-IsExclusive now c s (some (w, others)) h outside idle (distinct, waiting) =
    let (distinct', out_w) = take_match-IsQueue c w s.match_queue others h distinct in
    let (apart, out_c) =
      take_match-All (λ r. r.session ≢ c.session) c w s.match_queue others h outside in
    let (w_waits, waiting') =
      take_match-All (IsWaiting s.heap) c w s.match_queue others h waiting in
    pair_sessions-IsExclusive now w c (record s { match_queue = others }) out_w out_c
      (distinct', waiting')

wait_or_pair-IsExclusive :
    (now : ℕ) (c : MatchRequest) (s s' : Server)
    → Outside s.match_queue c.session
    → (s.heap c.session).game_id ≡ 0
    → IsExclusive s
    → wait_or_pair now c s ≡ some s'
    → IsExclusive s'
unfolding wait_or_pair
wait_or_pair-IsExclusive now c s s' outside idle exclusive h =
    elim (Option-cases (take_match c s.match_queue)) [
      | inl panic ↦
          let no : none ≡ some s' = sym (rw (panic, wait_or_pair) refl) ∙ h in
          let never : ⊥ = cc in absurd never
      | inr (found, e) ↦ elim (Bool-cases (encodes (meet_messages now c s found))) [
        | inr panic ↦
            let none' : none ≡ some s' = sym (rw (e, panic, wait_or_pair) refl) ∙ h in
            let never : ⊥ = cc in absurd never
        | inl encoded ↦
            let h' : some (meet now c s found) ≡ some s' =
              sym (rw (e, encoded, wait_or_pair) refl) ∙ h in
            let e' : meet now c s found ≡ s' = cc in
            subst IsExclusive e' (meet-IsExclusive now c s found e outside idle exclusive)
      ]
    ]

take_place-IsExclusive :
    (now : ℕ) (c : MatchRequest) (s s' : Server) (joined : Option ℕ)
    → Outside s.match_queue c.session
    → (s.heap c.session).game_id ≡ 0
    → IsExclusive s
    → take_place now c s joined ≡ some s'
    → IsExclusive s'
unfolding take_place
take_place-IsExclusive now c s s' none outside idle exclusive h =
    wait_or_pair-IsExclusive now c s s' outside idle exclusive h
take_place-IsExclusive now c s s' (some id) outside idle exclusive h =
    elim (Option-cases (IntMap.get id s.games)) [
      | inl missing ↦
          let h' : some s ≡ some s' = sym (rw (missing, take_place) refl) ∙ h in
          let e' : s ≡ s' = cc in subst IsExclusive e' exclusive
      | inr (game, e) ↦
          let s1 = join_game now c.session c.msid id game s in
          elim (Bool-cases (encodes (join_messages now c.session c.msid game s))) [
            | inr panic ↦
                let none' : none ≡ some s' = sym (rw (e, panic, take_place) refl) ∙ h in
                let never : ⊥ = cc in absurd never
            | inl encoded ↦
                let h' : some s1 ≡ some s' = sym (rw (e, encoded, take_place) refl) ∙ h in
                let e' : s1 ≡ s' = cc in
                subst IsExclusive e'
                  (join_game-IsExclusive now c.session c.msid id game s outside exclusive)
          ]
    ]

find_place-IsExclusive :
    (now : ℕ) (c : MatchRequest) (s s' : Server)
    → Outside s.match_queue c.session
    → (s.heap c.session).game_id ≡ 0
    → IsExclusive s
    → find_place now c s ≡ some s'
    → IsExclusive s'
unfolding find_place
find_place-IsExclusive now c s s' outside idle exclusive h =
    let ids = sorted_ids (IntMap.keys s.games) in
    elim (Option-cases (try_games s.heap now c ids s.games)) [
      | inl panic ↦
          let no : none ≡ some s' = sym (rw (panic, find_place) refl) ∙ h in
          let never : ⊥ = cc in absurd never
      | inr ((games, joined), e) ↦
          let s1 = record s { games = games } in
          take_place-IsExclusive now c s1 s' joined outside idle exclusive
            (sym (rw (e, find_place) refl) ∙ h)
    ]

-- The session is in no game and no request is its own when `queueMatch` looks for a place.
pub cleared-IsExclusive :
    (p : ℕ) (s : Server)
    → IsExclusive s
    → let s' = remove_queued_session p (update_session p out_of_game s) in
      IsExclusive s' × Outside s'.match_queue p × ((s'.heap p).game_id ≡ 0)
unfolding remove_queued_session update_session
cleared-IsExclusive p s exclusive =
    let (kept, outside, zero) = remove_queued-IsExclusive p out_of_game s exclusive in
    let once = store_same p (out_of_game (s.heap p)) s.heap in
    (
      kept,
      outside,
      ap (λ x. x.game_id) (store_same p _ (store p (out_of_game (s.heap p)) s.heap))
          ∙ ap (λ x. x.game_id) once,
    )

-- Where `queueMatch` returns, every queued session still has one request, is in no game and knows the
-- request, if that held before; the id that it returns is the next one.
pub queue_match-IsExclusive :
    (now p : ℕ) (tdf : Fields) (s s' : Server) (msid : ℕ)
    → IsExclusive s
    → queue_match now p tdf s ≡ some (s', msid)
    → IsExclusive s' × (msid ≡ s.next_match_id)
unfolding queue_match
queue_match-IsExclusive now p tdf s s' msid exclusive h =
    let s1 = record s { next_match_id = inc64 s.next_match_id } in
    let s2 = remove_queued_session p (update_session p out_of_game s1) in
    let request = request_of p s.next_match_id tdf in
    let result : Server × ℕ = (s', msid) in
    let (kept, outside, idle) = cleared-IsExclusive p s1 exclusive in
    elim (Bool-cases (is_active_member p s)) [
      | inl active ↦
          let ignored : Server × ℕ = (s1, s.next_match_id) in
          let h' : some ignored ≡ some result = sym (rw (active, queue_match) refl) ∙ h in
          let e : ignored ≡ result = cc in
          (subst IsExclusive (ap (λ r. r.0) e) exclusive, sym (ap (λ r. r.1) e))
      | inr new' ↦ elim (Option-cases (find_place now request s2)) [
        | inl panic ↦
            let no : none ≡ some result = sym (rw (new', panic, queue_match) refl) ∙ h in
            let never : ⊥ = cc in absurd never
        | inr (s3, placed) ↦
            let answer : Server × ℕ = (s3, s.next_match_id) in
            let h' : some answer ≡ some result = sym (rw (new', placed, queue_match) refl) ∙ h in
            let e : answer ≡ result = cc in
            (
              subst IsExclusive (ap (λ r. r.0) e)
                  (find_place-IsExclusive now request s2 s3 outside idle kept placed),
              sym (ap (λ r. r.1) e),
            )
      ]
    ]
