-- ===== src/Server/Handlers/Joined.antt =====
-- The handlers of hpserver/handlers.go that sign in, cancel a request and take reports of links keep
-- the sessions apart.
use hp_server.Prelude.{
  ℕ, ◌≡◌, inl, inr, false, some, List, [], ◌∷◌, ◌++◌, ◌==◌, ◌||◌, ◌&&◌, not, slt, Bool-cases,
  Option-cases, refl, sym, subst,
}
use hp_server.IntMap
use hp_server.IntMap.{IntMap, get}
use hp_server.Tdf.Value.{Values, int_field, text_field, list_field}
use hp_server.Fire.{Frame}
use hp_server.Session.{Session, Message}
use hp_server.Session.Name.{persona_name_from_token}
use hp_server.Game.Members.{ensure_membership_state-members}
use hp_server.Game.{Game, ensure_membership_state, session_for_player_id, refresh_mesh_readiness}
use hp_server.Server.{Server, update_session}
use hp_server.Server.Auth.{authenticate_session_named, choose_persona, identity_of, sign_in}
use hp_server.Server.Leave.Exclusive.{IsApart, without_session-AllPlaying}
use hp_server.Server.Match.Cancel.{cancel_queued_match, drop_request}
use hp_server.Server.Match.Cancel.Laws.{cancel_exact}
use hp_server.Server.Mesh.{
  complete_joins, tell_recipient, tell_recipients, announce_joins, report_targets, report_links,
  update_mesh_connection,
}
use hp_server.Server.Notices.{player_join_completed_notification}
use hp_server.Server.Handlers.{cancel_matchmaking, update_mesh}
use hp_server.Server.Handlers.Apart.{notify_session-IsApart}
use hp_server.Server.Handlers.Login.{silent_login, welcomed}
use hp_server.Server.Handlers.Steady.{update-IsApart, put_game-IsApart}

sign_in-IsApart :
    (p requested : ℕ) (name : List ℕ) (s : Server)
    → IsApart s
    → IsApart (authenticate_session_named p requested name s)
unfolding authenticate_session_named sign_in update_session
sign_in-IsApart p requested name s apart = elim (Bool-cases (not ((s.heap p).persona_id == 0))) [
  | inl known ↦ rw (known, authenticate_session_named) apart
  | inr fresh ↦
      let identity = identity_of s (choose_persona s requested) name in
      rw (fresh, authenticate_session_named)
        (update-IsApart p
          (λ session. record session {
            account_id = identity.account_id;
            persona_id = identity.persona_id;
            session_id = s.next_session_id;
            persona = identity.name;
          })
          s (λ x. (refl, refl)) apart)
]

pub silent_login-IsApart :
    (p : ℕ) (req : Frame) (s : Server) → IsApart s → IsApart (silent_login p req s).0
unfolding silent_login
silent_login-IsApart p req s apart =
    let name = persona_name_from_token (text_field "PCTK" req.tdf) in
    let s' = authenticate_session_named p (int_field "PID" req.tdf) name s in
    update-IsApart p welcomed s' (λ x. (refl, refl))
      (sign_in-IsApart p (int_field "PID" req.tdf) name s apart)

cancelled-games :
    (p msid : ℕ) (s : Server) → (cancel_queued_match (some p) msid s).0.games ≡ s.games
unfolding cancel_queued_match update_session
cancelled-games p msid s =
    elim (Bool-cases (not (slt 0 msid) || not ((s.heap p).queued_match_id == msid))) [
      | inl refused ↦ rw (refused, cancel_queued_match) refl
      | inr asked ↦ elim (Option-cases (drop_request p msid s.match_queue)) [
        | inl missing ↦ rw (asked, missing, cancel_queued_match) refl
        | inr (queue, e) ↦ rw (asked, e, cancel_queued_match) refl
      ]
    ]

pub cancel_matchmaking-IsApart :
    (p : ℕ) (req : Frame) (s : Server) → IsApart s → IsApart (cancel_matchmaking p req s).0
unfolding cancel_matchmaking
cancel_matchmaking-IsApart p req s (exclusive, all) =
    let msid = int_field "MSID" req.tdf in
    elim (cancel_exact p msid s exclusive) [
      | inr (refused, same, absent) ↦ subst IsApart (sym same) (exclusive, all)
      | inl (done, positive, has, queue, id, exclusive') ↦ (
        exclusive',
        rw (queue, cancelled-games p msid s)
            (without_session-AllPlaying p s.match_queue s.games all),
      )
    ]

complete_joins-IsApart :
    (game : Game) (members : List ℕ) (s : Server)
    → IsApart s
    → IsApart (complete_joins game members s).1
unfolding complete_joins
complete_joins-IsApart game [] s apart = apart
complete_joins-IsApart game (m ∷ ms) s apart =
    let session = s.heap m in
    elim (Bool-cases (
      IntMap.get_or false session.persona_id game.mesh_ready
      && (session.pending_matchmaking_game == game.id))) [
        | inl ready ↦
            let change = λ (x : Session). record x { pending_matchmaking_game = 0 } in
            rw (ready, complete_joins)
              (complete_joins-IsApart game ms (update_session m change s)
                (update-IsApart m change s (λ x. (refl, refl)) apart))
        | inr later ↦ rw (later, complete_joins) (complete_joins-IsApart game ms s apart)
      ]

tell_recipients-IsApart :
    (p : ℕ) (notice : Message) (recipients : List ℕ) (s : Server)
    → IsApart s
    → IsApart (tell_recipients p notice recipients s)
unfolding tell_recipients tell_recipient
tell_recipients-IsApart p notice [] s apart = apart
tell_recipients-IsApart p notice (m ∷ ms) s apart =
    tell_recipients-IsApart p notice ms (tell_recipient p notice m s) told
  where
    told : IsApart (tell_recipient p notice m s)
    told = elim (Bool-cases (m == p)) [
      | inl same ↦
          rw (same, tell_recipient)
            (update-IsApart p
              (λ session. record session { notifications = session.notifications ++ notice ∷ [] }) s
              (λ x. (refl, refl)) apart)
      | inr other ↦ rw (other, tell_recipient) (notify_session-IsApart m (notice ∷ []) s apart)
    ]

announce_joins-IsApart :
    (p id : ℕ) (recipients completed : List ℕ) (s : Server)
    → IsApart s
    → IsApart (announce_joins p id recipients completed s)
unfolding announce_joins
announce_joins-IsApart p id recipients [] s apart = apart
announce_joins-IsApart p id recipients (m ∷ ms) s apart =
    let notice = player_join_completed_notification id (s.heap m).persona_id in
    announce_joins-IsApart p id recipients ms (tell_recipients p notice recipients s)
      (tell_recipients-IsApart p notice recipients s apart)

complete_joins-queue :
    (game : Game) (members : List ℕ) (s : Server)
    → (complete_joins game members s).1.match_queue ≡ s.match_queue
unfolding complete_joins update_session
complete_joins-queue game [] s = refl
complete_joins-queue game (m ∷ ms) s =
    let session = s.heap m in
    elim (Bool-cases (
      IntMap.get_or false session.persona_id game.mesh_ready
      && (session.pending_matchmaking_game == game.id))) [
        | inl ready ↦
            rw (ready, complete_joins)
              (complete_joins-queue game ms
                (update_session m (λ x. record x { pending_matchmaking_game = 0 }) s))
        | inr later ↦ rw (later, complete_joins) (complete_joins-queue game ms s)
      ]

report_links-IsApart :
    (now p id : ℕ) (targets : Values) (game : Game) (s : Server)
    → get id s.games ≡ some game
    → IsApart s
    → IsApart (report_links now p id targets game s)
unfolding report_links refresh_mesh_readiness
report_links-IsApart now p id targets game s found apart =
    let whole = ensure_membership_state s.heap now game in
    let row = IntMap.get_or [] (s.heap p).persona_id whole.mesh in
    let mesh = IntMap.put (s.heap p).persona_id row whole.mesh in
    let reported = report_targets s.heap whole.members p targets (mesh, false) in
    let linked = record whole { mesh = reported.0 } in
    let refreshed = refresh_mesh_readiness s.heap linked in
    let joins = complete_joins refreshed refreshed.members s in
    let members = ensure_membership_state-members s.heap now game in
    elim (Bool-cases reported.1) [
      | inr same ↦ rw (same, report_links) (put_game-IsApart id game linked s found members apart)
      | inl changed ↦
          let kept = complete_joins-IsApart refreshed refreshed.members s apart in
          let put = put_game-IsApart id game refreshed s found members apart in
          rw (changed, report_links)
            (announce_joins-IsApart p id refreshed.members joins.0
              (record joins.1 { games = IntMap.put id refreshed s.games })
              (kept.0, rw (complete_joins-queue refreshed refreshed.members s) put.1))
    ]

pub update_mesh-IsApart :
    (now p : ℕ) (req : Frame) (s : Server) → IsApart s → IsApart (update_mesh now p req s).0
unfolding update_mesh update_mesh_connection
update_mesh-IsApart now p req s apart =
    let id = int_field "GID" req.tdf in
    elim (Option-cases (get id s.games)) [
      | inl missing ↦ rw (missing, update_mesh, update_mesh_connection) apart
      | inr (game, found) ↦
          elim (Option-cases (session_for_player_id s.heap game.members (s.heap p).persona_id)) [
            | inl stranger ↦ rw (found, stranger, update_mesh, update_mesh_connection) apart
            | inr (m, e) ↦ elim (Bool-cases (m == p)) [
              | inr other ↦ rw (found, e, other, update_mesh, update_mesh_connection) apart
              | inl same ↦
                  rw (found, e, same, update_mesh, update_mesh_connection)
                    (report_links-IsApart now p id (list_field "TARG" req.tdf) game s found apart)
            ]
          ]
    ]
