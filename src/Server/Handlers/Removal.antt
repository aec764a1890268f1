-- ===== src/Server/Handlers/Removal.antt =====
-- The handler `removePlayer` of hpserver/handlers.go.
use hp_server.Prelude.{
  ℕ, ◌≡◌, ◌⊎◌, inl, inr, refl, sym, ◌∙◌, subst, arith, Bool-cases, Option-cases, Bool, true, Option,
  none, some, List, [], ◌∷◌, ◌==◌, ◌&&◌, ◌||◌, not, if◌then◌else◌,
}
use hp_server.IntMap
use hp_server.Tdf.Value.{int_field}
use hp_server.Fire.{Frame}
use hp_server.Session.{Session, Message, Heap}
use hp_server.Game.{Game, remove_member, session_for_player_id, refresh_mesh_readiness, is_member}
use hp_server.Server.{Server, update_session, notify_session}
use hp_server.Server.Leave.{remove_queued_session, clear_members}
use hp_server.Server.Handlers.{reply_with, acknowledge}
use hp_server.Server.Notices.{player_removed_notification, game_removed_notification}

-- Whom the session may remove: itself, and anyone in a game that it hosts.
unfoldable pub removal_target : Heap → ℕ → Game → ℕ → Option ℕ
unfolding session_for_player_id
removal_target heap p game player_id =
    elim (session_for_player_id heap game.members (heap p).persona_id) [
      | none ↦ none
      | some caller ↦ elim (session_for_player_id heap game.members player_id) [
        | none ↦ none
        | some candidate ↦ if (candidate == p) || (p == game.host) then some candidate else none
      ]
    ]

abbrev pub removed_from_game : Session → Session
removed_from_game session = record session { game_id = 0; pending_matchmaking_game = 0 }

-- What becomes of the game and the sessions.
unfoldable pub take_out : ℕ → ℕ → Game → Server → Server
unfolding remove_member remove_queued_session update_session clear_members refresh_mesh_readiness
take_out target id game s =
    let left = (remove_member s.heap target game).0 in
    let s' = update_session target removed_from_game (remove_queued_session target s) in
    if target == game.host
    then clear_members left.members (record s' { games = IntMap.delete id s'.games })
    else record s' { games = IntMap.put id (refresh_mesh_readiness s'.heap left) s'.games }

-- All who were members are told, the target too.
unfoldable pub tell_members : List ℕ → ℕ → Bool → Message → Message → Server → Server
unfolding notify_session
tell_members [] target host_removed left ended s = s
tell_members (member ∷ members) target host_removed left ended s =
    tell_members members target host_removed left ended (
      notify_session member
        (left ∷ (if host_removed && not (member == target) then ended ∷ [] else [])) s)

unfoldable pub remove_player : ℕ → Frame → Server → Server × Message
unfolding reply_with removal_target take_out tell_members notify_session player_removed_notification
    game_removed_notification
remove_player p req s =
    let context_value = int_field "CNTX" req.tdf in
    let id = int_field "GID" req.tdf in
    let player_id = int_field "PID" req.tdf in
    let reason = int_field "REAS" req.tdf in
    elim (IntMap.get id s.games) [
      | none ↦ (
        notify_session p (player_removed_notification id player_id context_value reason ∷ []) s,
        acknowledge req,
      )
      | some game ↦ elim (removal_target s.heap p game player_id) [
        | none ↦ (s, acknowledge req)
        | some target ↦ (
          tell_members game.members target (target == game.host)
              (player_removed_notification id (s.heap target).persona_id context_value reason)
              (game_removed_notification id 2) (take_out target id game s),
          acknowledge req,
        )
      ]
    ]

later_member : (m' m : ℕ) (ms : List ℕ) → is_member m ms ≡ true → is_member m (m' ∷ ms) ≡ true
unfolding is_member
later_member m' m ms h = ground (arith, h)

found_member :
    (heap : Heap) (members : List ℕ) (player_id m : ℕ)
    → session_for_player_id heap members player_id ≡ some m
    → (is_member m members ≡ true) × ((heap m).persona_id ≡ player_id)
unfolding session_for_player_id is_member
found_member heap [] player_id m e = let never : ⊥ = cc in absurd never
found_member heap (m' ∷ ms) player_id m e = elim (Bool-cases ((heap m').persona_id == player_id)) [
  | inl same ↦
      let e' : some m' ≡ some m = sym (rw (same, session_for_player_id) refl) ∙ e in
      let e'' : m' ≡ m = cc in
      let here : (m' == m) ≡ true = ground (arith, e'') in
      let persona : (heap m').persona_id ≡ player_id = ground (arith, same) in
      (rw here refl, subst (λ x. (heap x).persona_id ≡ player_id) e'' persona)
  | inr other ↦
      let (member, persona) =
        found_member heap ms player_id m (sym (rw (other, session_for_player_id) refl) ∙ e) in
      (later_member m' m ms member, persona)
]

may_remove : (a b c : ℕ) → ((a == b) || (b == c)) ≡ true → (a ≡ b) ⊎ (b ≡ c)
may_remove a b c h = elim (Bool-cases (a == b)) [
  | inl same ↦ inl (ground (arith, same))
  | inr other ↦ inr (ground (arith, other, h))
]

-- Whom a session may remove is a member with the persona asked for, and is the session itself unless
-- it hosts the game.
removal_target_cases :
    (heap : Heap) (p player_id target : ℕ) (game : Game)
    → removal_target heap p game player_id ≡ some target
    → (is_member target game.members ≡ true)
      × ((heap target).persona_id ≡ player_id)
      × ((target ≡ p) ⊎ (p ≡ game.host))
unfolding removal_target
removal_target_cases heap p player_id target game h =
    elim (Option-cases (session_for_player_id heap game.members (heap p).persona_id)) [
      | inl missing ↦
          let no : none ≡ some target = sym (rw (missing, removal_target) refl) ∙ h in
          let never : ⊥ = cc in absurd never
      | inr (caller, e) ↦ elim (Option-cases (session_for_player_id heap game.members player_id)) [
        | inl missing ↦
            let no : none ≡ some target = sym (rw (e, missing, removal_target) refl) ∙ h in
            let never : ⊥ = cc in absurd never
        | inr (candidate, e') ↦ elim (Bool-cases ((candidate == p) || (p == game.host))) [
          | inr other ↦
              let no : none ≡ some target = sym (rw (e, e', other, removal_target) refl) ∙ h in
              let never : ⊥ = cc in absurd never
          | inl allowed ↦
              let same : some candidate ≡ some target =
                sym (rw (e, e', allowed, removal_target) refl) ∙ h in
              let same' : candidate ≡ target = cc in
              let (member, persona) = found_member heap game.members player_id candidate e' in
              let may : (candidate ≡ p) ⊎ (p ≡ game.host) =
                may_remove candidate p game.host allowed in
              subst
                (λ t.
                  (is_member t game.members ≡ true)
                  × ((heap t).persona_id ≡ player_id)
                  × ((t ≡ p) ⊎ (p ≡ game.host)))
                same' (member, persona, may)
        ]
      ]
    ]

-- In a game that is there, removing a player changes nothing unless the player asked for is a member,
-- and is the session itself or in a game that the session hosts.
pub remove_player_authority :
    (p : ℕ) (req : Frame) (game : Game) (s : Server)
    → IntMap.get (int_field "GID" req.tdf) s.games ≡ some game
    → ((remove_player p req s).0 ≡ s)
      ⊎ ((target : ℕ) × (is_member target game.members ≡ true)
          × ((s.heap target).persona_id ≡ int_field "PID" req.tdf)
          × ((target ≡ p) ⊎ (p ≡ game.host)))
unfolding remove_player
remove_player_authority p req game s found =
    let player_id = int_field "PID" req.tdf in
    elim (Option-cases (removal_target s.heap p game player_id)) [
      | inl nobody ↦ inl (rw (found, nobody, remove_player) refl)
      | inr (target, e) ↦
          let (member, persona, may) = removal_target_cases s.heap p player_id target game e in
          inr (target, member, persona, may)
    ]
