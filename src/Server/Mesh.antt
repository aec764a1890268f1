-- ===== src/Server/Mesh.antt =====
-- `updateMeshConnection` of hpserver/server.go: a member reports the state of its links, and those
-- whose links are whole have joined.
use hp_server.Prelude.{
  ℕ, Bool, true, false, Option, none, some, List, [], ◌∷◌, ◌++◌, ◌==◌, ◌&&◌, if◌then◌else◌,
}
use hp_server.IntMap
use hp_server.IntMap.{IntMap}
use hp_server.Tdf.Value.{Value, Values, value, no_values, struct, int_field}
use hp_server.Session.{Heap, Message}
use hp_server.Game.{Game, ensure_membership_state, session_for_player_id, refresh_mesh_readiness}
use hp_server.Server.{Server, update_session, notify_session}
use hp_server.Server.Notices.{player_join_completed_notification}

-- `game.Mesh[a][b] = status`
unfoldable pub set_link : ℕ → ℕ → ℕ → IntMap (IntMap ℕ) → IntMap (IntMap ℕ)
set_link a b status mesh = IntMap.put a (IntMap.put b status (IntMap.get_or [] a mesh)) mesh

-- The peer that a target names, which is another member.
unfoldable pub peer_of : Heap → List ℕ → ℕ → ℕ → Option ℕ
unfolding session_for_player_id
peer_of heap members p player_id = elim (session_for_player_id heap members player_id) [
  | none ↦ none
  | some peer ↦ if peer == p then none else some peer
]

-- One target, with whether a link changed so far.
unfoldable pub report_target :
    Heap → List ℕ → ℕ → Value → IntMap (IntMap ℕ) × Bool → IntMap (IntMap ℕ) × Bool
unfolding peer_of set_link
report_target heap members p (struct target) (mesh, changed) =
    elim (peer_of heap members p (int_field "PID" target)) [
      | none ↦ (mesh, changed)
      | some peer ↦
          (set_link (heap p).persona_id (heap peer).persona_id (int_field "STAT" target) mesh, true)
    ]
report_target heap members p _ state = state

unfoldable pub report_targets :
    Heap → List ℕ → ℕ → Values → IntMap (IntMap ℕ) × Bool → IntMap (IntMap ℕ) × Bool
unfolding report_target
report_targets heap members p no_values state = state
report_targets heap members p (value target targets) state =
    report_targets heap members p targets (report_target heap members p target state)

-- The members that are ready and still pending have joined: they, and the server where they are no
-- longer pending.
unfoldable pub complete_joins : Game → List ℕ → Server → List ℕ × Server
unfolding update_session
complete_joins game [] s = ([], s)
complete_joins game (player ∷ players) s =
    let session = s.heap player in
    let ready =
      IntMap.get_or false session.persona_id game.mesh_ready
      && (session.pending_matchmaking_game == game.id) in
    let s' =
      if ready
      then update_session player (λ session'. record session' { pending_matchmaking_game = 0 }) s
      else s in
    let (completed, s'') = complete_joins game players s' in
    (if ready then player ∷ completed else completed, s'')

-- The reporter gets its notification after its reply, the others at once.
unfoldable pub tell_recipient : ℕ → Message → ℕ → Server → Server
unfolding update_session notify_session
tell_recipient p notice recipient s =
    if recipient == p
    then update_session p
        (λ session. record session { notifications = session.notifications ++ notice ∷ [] }) s
    else notify_session recipient (notice ∷ []) s

unfoldable pub tell_recipients : ℕ → Message → List ℕ → Server → Server
unfolding tell_recipient
tell_recipients p notice [] s = s
tell_recipients p notice (recipient ∷ recipients) s =
    tell_recipients p notice recipients (tell_recipient p notice recipient s)

unfoldable pub announce_joins : ℕ → ℕ → List ℕ → List ℕ → Server → Server
unfolding tell_recipients player_join_completed_notification
announce_joins p game_id recipients [] s = s
announce_joins p game_id recipients (player ∷ completed) s =
    let notice = player_join_completed_notification game_id (s.heap player).persona_id in
    announce_joins p game_id recipients completed (tell_recipients p notice recipients s)

-- The report of a member of the game.
unfoldable pub report_links : ℕ → ℕ → ℕ → Values → Game → Server → Server
unfolding ensure_membership_state report_targets refresh_mesh_readiness complete_joins
    announce_joins
report_links now p game_id targets game s =
    let whole = ensure_membership_state s.heap now game in
    let row = IntMap.get_or [] (s.heap p).persona_id whole.mesh in
    let mesh = IntMap.put (s.heap p).persona_id row whole.mesh in
    let (mesh', changed) = report_targets s.heap whole.members p targets (mesh, false) in
    let linked = record whole { mesh = mesh' } in
    let refreshed = refresh_mesh_readiness s.heap linked in
    let (completed, s') = complete_joins refreshed refreshed.members s in
    if changed
    then announce_joins p game_id refreshed.members completed
        (record s' { games = IntMap.put game_id refreshed s.games })
    else record s { games = IntMap.put game_id linked s.games }

unfoldable pub update_mesh_connection : ℕ → ℕ → ℕ → Values → Server → Server
unfolding report_links session_for_player_id
update_mesh_connection now p game_id targets s = elim (IntMap.get game_id s.games) [
  | none ↦ s
  | some game ↦ elim (session_for_player_id s.heap game.members (s.heap p).persona_id) [
    | none ↦ s
    | some member ↦ if member == p then report_links now p game_id targets game s else s
  ]
]
