-- ===== src/Server/Broadcast.antt =====
-- `broadcast` and `broadcastPlayerAttributes` of hpserver/server.go.
use hp_server.Prelude.{ℕ, none, some, List, [], ◌∷◌, ◌==◌, ◌||◌, if◌then◌else◌}
use hp_server.IntMap
use hp_server.Tdf.Value.{Entries, no_entries, entry, set_entry, int64, mapping, fields_of}
use hp_server.Tdf.Encode.{encode_tdf}
use hp_server.Session.{Message, notification}
use hp_server.Session.Identity.{canonical_player_id}
use hp_server.Game.{Game, ensure_membership_state, session_for_player_id}
use hp_server.Server.{Server, notify_session, notify_all}
use hp_server.Server.Notices.{component_game_manager, notify_player_attrs}

-- The members of a game; none of a game that is not there.
unfoldable pub members_of : ℕ → Server → List ℕ
members_of game_id s = elim (IntMap.get game_id s.games) [ none ↦ [] | some game ↦ game.members ]

unfoldable pub broadcast : ℕ → ℕ → Message → Server → Server
unfolding members_of notify_session notify_all
broadcast sender game_id frame s = elim (members_of game_id s) [
  | [] ↦ notify_session sender (frame ∷ []) s
  | member ∷ members ↦ notify_all (member ∷ members) (frame ∷ []) s
]

unfoldable pub player_attributes_notification : Entries → ℕ → ℕ → Message
unfolding notification
player_attributes_notification attributes game_id player_id =
    notification component_game_manager notify_player_attrs (
      encode_tdf (
        fields_of
          (("ATTR", mapping attributes) ∷ ("GID", int64 game_id) ∷ ("PID", int64 player_id) ∷ [])))

-- `for key, value := range attributes { attrs[key] = value }`
unfoldable pub merge_entries : Entries → Entries → Entries
merge_entries no_entries attrs = attrs
merge_entries (entry k v rest) attrs = merge_entries rest (set_entry k v attrs)

unfoldable pub set_player_attributes : ℕ → Entries → Game → Game
unfolding merge_entries
set_player_attributes persona attributes game = record game {
  player_attrs =
      IntMap.put persona
        (merge_entries attributes (IntMap.get_or no_entries persona game.player_attrs))
        game.player_attrs;
}

unfoldable pub change_player_attributes : ℕ → ℕ → ℕ → Entries → Game → Server → Server
unfolding ensure_membership_state set_player_attributes notify_all player_attributes_notification
    canonical_player_id
change_player_attributes now game_id player attributes game s =
    let persona = (s.heap player).persona_id in
    let whole = ensure_membership_state s.heap now game in
    let game' = set_player_attributes persona attributes whole in
    let notice =
      player_attributes_notification attributes game_id (canonical_player_id (s.heap player)) in
    notify_all game'.members (notice ∷ []) (record s { games = IntMap.put game_id game' s.games })

unfoldable pub broadcast_player_attributes : ℕ → ℕ → ℕ → ℕ → Entries → Server → Server
unfolding notify_session player_attributes_notification session_for_player_id
    change_player_attributes
broadcast_player_attributes now sender game_id player_id attributes s =
    elim (IntMap.get game_id s.games) [
      | none ↦
          notify_session sender (player_attributes_notification attributes game_id player_id ∷ []) s
      | some game ↦ elim (session_for_player_id s.heap game.members player_id) [
        | none ↦ s
        | some player ↦
            elim (session_for_player_id s.heap game.members (s.heap sender).persona_id) [
              | none ↦ s
              | some caller ↦
                  if (player == sender) || (game.host == sender)
                  then change_player_attributes now game_id player attributes game s
                  else s
            ]
      ]
    ]
