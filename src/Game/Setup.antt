-- ===== src/Game/Setup.antt =====
-- `replicatedGamePlayer` and `gameSetup` of game.go: what the notifications say of a game. Both make
-- the membership state whole first, so both return the game.
use hp_server.Prelude.{ℕ, List, [], ◌∷◌, ◌++◌, bytes_of, false}
use hp_server.IntMap
use hp_server.Tdf.Value.{
  Value, Fields, no_entries, int64, boolean, text, blob, struct, armed_struct, typed_list, mapping,
  object_id, union, fields_of, values_of,
}
use hp_server.Tdf.Encode.{print_int64}
use hp_server.Session.{Heap, Session}
use hp_server.Session.Identity.{
  canonical_player_id, player_name, session_qos, session_ip_pair, user_session_id,
}
use hp_server.Game.{Game, ensure_membership_state, minus_one}

unfoldable pub replicated_fields : Game → Session → Fields
unfolding canonical_player_id player_name session_qos session_ip_pair user_session_id
replicated_fields game player = fields_of (
    ("BLOB", blob [])
    ∷ ("EXID", int64 0)
    ∷ ("GID", int64 game.id)
    ∷ ("LOC", int64 0)
    ∷ ("NAME", text (player_name player))
    ∷ ("PID", int64 (canonical_player_id player))
    ∷ ("NQOS", struct (session_qos player))
    ∷ ("PATT", mapping (IntMap.get_or no_entries player.persona_id game.player_attrs))
    ∷ ("PNET", union 2 (bytes_of "VALU") (struct (session_ip_pair player)))
    ∷ ("SID", int64 (IntMap.get_or 0 player.persona_id game.slots))
    ∷ ("SLOT", int64 0)
    ∷ ("STAT", int64 (IntMap.get_or 0 player.persona_id game.player_states))
    ∷ ("TEAM", int64 minus_one)
    ∷ ("TIDX", int64 minus_one)
    ∷ ("TIME", int64 (IntMap.get_or 0 player.persona_id game.joined_at))
    ∷ ("UGID", object_id 0 0 0)
    ∷ ("UID", int64 (user_session_id player))
    ∷ [])

unfoldable pub replicated_game_player : Heap → ℕ → Game → ℕ → Game × Fields
unfolding ensure_membership_state replicated_fields
replicated_game_player heap now game player =
    let game' = ensure_membership_state heap now game in
    (game', replicated_fields game' (heap player))

-- `for _, member := range registryGame.Members`
unfoldable pub replicated_players : Heap → ℕ → List ℕ → Game → Game × List Value
unfolding replicated_game_player
replicated_players heap now [] game = (game, [])
replicated_players heap now (member ∷ members) game =
    let (game', player) = replicated_game_player heap now game member in
    let (game'', players) = replicated_players heap now members game' in
    (game'', struct player ∷ players)

unfoldable pub game_fields : Heap → Game → Fields
unfolding canonical_player_id player_name session_qos session_ip_pair user_session_id
game_fields heap game =
    let host = heap game.host in
    let persona_id = canonical_player_id host in
    let host_info = struct (fields_of (("HPID", int64 persona_id) ∷ ("HSLT", int64 0) ∷ [])) in
    fields_of (
      ("ADMN", typed_list 0 (values_of (int64 persona_id ∷ [])))
      ∷ ("ATTR", mapping game.attrs)
      ∷ ("CAP", typed_list 0 (values_of (int64 game.capacity ∷ int64 0 ∷ [])))
      ∷ ("GID", int64 game.id)
      ∷ ("GNAM", text (player_name host))
      ∷ ("GPVH", int64 0)
      ∷ ("GSET", int64 game.settings)
      ∷ ("GSID", int64 game.id)
      ∷ ("GSTA", int64 game.state)
      ∷ ("GTYP", text [])
      ∷ ("HNET", typed_list 3 (values_of (armed_struct 2 (session_ip_pair host) ∷ [])))
      ∷ ("HSES", int64 (user_session_id host))
      ∷ ("IGNO", boolean false)
      ∷ ("MCAP", int64 game.capacity)
      ∷ ("NQOS", struct (session_qos host))
      ∷ ("NTOP", int64 game.topology)
      ∷ ("PHST", host_info)
      ∷ ("PSAS", text [])
      ∷ ("QCAP", int64 0)
      ∷ ("SEED", int64 1)
      ∷ ("THST", host_info)
      ∷ ("UUID", text (bytes_of "LOCAL-GAME-" ++ print_int64 game.id))
      ∷ ("VOIP", int64 0)
      ∷ ("VSTR", text (bytes_of "Retail-0.2"))
      ∷ [])

unfoldable pub game_setup : Heap → ℕ → Game → Game × Fields
unfolding ensure_membership_state game_fields replicated_players
game_setup heap now game =
    let game' = ensure_membership_state heap now game in
    let fields = game_fields heap game' in
    let (game'', players) = replicated_players heap now game'.members game' in
    (
      game'',
      fields_of (
          ("GAME", struct fields)
          ∷ ("PROS", typed_list 3 (values_of players))
          ∷ ("REAS", union 1 (bytes_of "VALU") (struct (fields_of (("ERR", int64 0) ∷ []))))
          ∷ []),
    )
