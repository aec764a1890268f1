-- ===== src/Server/Match/Queue/Places.antt =====
-- The notifications of `queueMatch` of hpserver/server.go change no place of a session, and entering a
-- game changes that of a session outside the queue.
use hp_server.Prelude.{ℕ, inl, inr, List, [], ◌∷◌, ◌++◌, All, ◌==◌, Bool-cases, refl}
use hp_server.IntMap
use hp_server.Session.{Session, Message}
use hp_server.Session.Identity.{user_notifications_for}
use hp_server.Game.{Game}
use hp_server.Server.{Server, update_session, notify_session}
use hp_server.Server.Match.Exclusive.{
  IsExclusive, SamePlace, SamePlaces, SamePlaces-trans, update-SamePlaces, enqueue-SamePlace,
  notify_session-SamePlaces, IsExclusive-SamePlaces, update_outside,
}
use hp_server.Server.Match.Queue.{
  publish_joiner, roster_notifications, set_pending, send_later, deliver_setups,
  notify_matched_game, in_game, enter_game, enter_all, join_game,
}
use hp_server.Server.Match.Found.{Outside}

publish_joiner-SamePlaces :
    (members : List ℕ) (p : ℕ) (joining : Message) (s : Server)
    → SamePlaces s (publish_joiner members p joining s)
unfolding publish_joiner
publish_joiner-SamePlaces [] p joining s = (refl, λ q. (refl, refl))
publish_joiner-SamePlaces (m ∷ ms) p joining s = elim (Bool-cases (m == p)) [
  | inl same ↦ rw (same, publish_joiner) (publish_joiner-SamePlaces ms p joining s)
  | inr apart ↦
      let frames = user_notifications_for (s.heap p) ++ joining ∷ [] in
      let s' = notify_session m frames s in
      rw (apart, publish_joiner)
        (SamePlaces-trans s s' (publish_joiner ms p joining s')
          (notify_session-SamePlaces m frames s) (publish_joiner-SamePlaces ms p joining s'))
]

set_pending-SamePlaces :
    (p : ℕ) (frames : List Message) (s : Server) → SamePlaces s (set_pending p frames s)
unfolding set_pending
set_pending-SamePlaces p frames s =
    update-SamePlaces p
      (λ x. record x { notifications = x.notifications ++ frames; notification_delay = 250 }) s
      (λ x. (refl, refl))

notify_matched-SamePlaces :
    (members : List ℕ) (p : ℕ) (joining setup : Message) (s : Server)
    → SamePlaces s (notify_matched_game members p joining setup s)
unfolding notify_matched_game
notify_matched-SamePlaces members p joining setup s =
    let s' = publish_joiner members p joining s in
    let frames = roster_notifications s'.heap members p ++ setup ∷ [] in
    SamePlaces-trans s s' (set_pending p frames s') (publish_joiner-SamePlaces members p joining s)
      (set_pending-SamePlaces p frames s')

-- The games are not looked at.
pub matched-IsExclusive :
    (members : List ℕ) (p : ℕ) (joining setup : Message) (games : IntMap.IntMap Game) (s : Server)
    → IsExclusive s
    → IsExclusive (notify_matched_game members p joining setup (record s { games = games }))
matched-IsExclusive members p joining setup games s exclusive =
    let s' = record s { games = games } in
    IsExclusive-SamePlaces s' (notify_matched_game members p joining setup s')
      (notify_matched-SamePlaces members p joining setup s') exclusive

send_later-SamePlace : (frame : Message) (x : Session) → SamePlace x (send_later frame x)
send_later-SamePlace frame x = enqueue-SamePlace x (record { frame = frame; delay = 250 })

pub delivered-IsExclusive :
    (host p : ℕ) (host_setup join_setup : Message) (games : IntMap.IntMap Game) (s : Server)
    → IsExclusive s
    → IsExclusive (deliver_setups host p host_setup join_setup (record s { games = games }))
unfolding deliver_setups
delivered-IsExclusive host p host_setup join_setup games s exclusive =
    let s0 = record s { games = games } in
    let frames = user_notifications_for (s0.heap p) in
    let s1 = notify_session host frames s0 in
    let s2 = update_session host (send_later host_setup) s1 in
    let frames' = user_notifications_for (s2.heap host) ++ join_setup ∷ [] in
    let first = IsExclusive-SamePlaces s0 s1 (notify_session-SamePlaces host frames s0) exclusive in
    let second =
      IsExclusive-SamePlaces s1 s2
        (update-SamePlaces host (send_later host_setup) s1 (send_later-SamePlace host_setup))
        first in
    IsExclusive-SamePlaces s2 (set_pending p frames' s2) (set_pending-SamePlaces p frames' s2)
      second

pub join_game-IsExclusive :
    (now p msid key : ℕ) (game : Game) (s : Server)
    → Outside s.match_queue p
    → IsExclusive s
    → IsExclusive (join_game now p msid key game s)
unfolding join_game enter_game
join_game-IsExclusive now p msid key game s outside exclusive =
    let s1 = enter_game game.id p s in
    let entered : IsExclusive s1 = update_outside p (in_game game.id) s outside exclusive in
    matched-IsExclusive game.members p _ _ _ s1 entered

pub enter_all-IsExclusive :
    (id : ℕ) (members : List ℕ) (s : Server)
    → All (Outside s.match_queue) members
    → IsExclusive s
    → IsExclusive (enter_all id members s)
unfolding enter_all enter_game update_session
enter_all-IsExclusive id [] s outside exclusive = exclusive
enter_all-IsExclusive id (m ∷ ms) s (out, outside) exclusive =
    enter_all-IsExclusive id ms (enter_game id m s) outside
      (update_outside m (in_game id) s out exclusive)
