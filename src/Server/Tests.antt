-- ===== src/Server/Tests.antt =====
-- The theorems on the server's state of hpserver/server.go at concrete states.
use hp_server.Prelude.{
  ℕ, ◌+◌, ◌^◌, ◌<◌, ◌≡◌, ◌≢◌, ◌⊎◌, true, false, none, some, [], ◌∷◌, arith, refl, All, bytes_of,
  slt,
}
use hp_server.IntMap
use hp_server.IntMap.{get, put, next_free, keys, delete}
use hp_server.Tdf.Encode.{encode_tdf, encode_struct, encode_fields, is_empty_collection}
use hp_server.Tdf.Value.{
  set_field, count_entries, Fields, no_entries, fields_of, int64, list, value, no_values, get_field,
  get_entry, int_field,
}
use hp_server.Session.{Heap, new_session, store}
use hp_server.Game.{Game, MatchRequest, new_game, ensure_members, is_member}
use hp_server.Server.{Server, new, update_session}
use hp_server.Fire.{Frame}
use hp_server.Server.Handlers.{own_game, reset_dedicated}
use hp_server.Server.Handlers.Create.{reset_dedicated-IsExclusive}
use hp_server.Server.Handlers.Removal.{remove_player, remove_player_authority}
use hp_server.Server.Auth.{choose_persona, is_taken, authenticate_session_named}
use hp_server.Server.Auth.Fresh.{choose_persona_free}
use hp_server.Server.Auth.Directory.{IsDirectory, authenticate-IsDirectory}
use hp_server.Server.Leave.{remove_queued_session, without_session, remove_session}
use hp_server.Server.Leave.Laws.{of_others, remove_session-gone}
use hp_server.Server.Match.Exclusive.{IsExclusive}
use hp_server.Server.Match.Cancel.{cancel_queued_match}
use hp_server.Server.Match.Cancel.Laws.{HasRequest, cancel_exact}
use hp_server.Server.Match.Queue.{queue_match, pair_sessions, request_of, out_of_game}
use hp_server.Server.Match.Queue.Laws.{queue_match-IsExclusive}

-- Sessions that have just connected.
abbrev guests : Heap
guests p = new_session none []

abbrev fresh : Server
fresh = new (bytes_of "http://127.0.0.1:18080") guests

no_personas : IsDirectory fresh
unfolding get
no_personas =
    (λ q p h. let never : ⊥ = cc in absurd never, refl, λ q i h. let never : ⊥ = cc in absurd never)

choose_persona_free_example :
    (IntMap.has (choose_persona fresh 7) fresh.active_personas ≡ false)
    × (0 < choose_persona fresh 7)
    × (choose_persona fresh 7 < 2 ^ 63)
    × (((choose_persona fresh 7 ≡ 7) × (slt 0 7 ≡ true))
        ⊎ (is_taken fresh (choose_persona fresh 7) ≡ false))
unfolding keys
choose_persona_free_example = choose_persona_free fresh 7 (omega arith, omega arith) (omega arith)

abbrev signed : Server
signed = authenticate_session_named 5 0 (bytes_of "driver") fresh

first_persona : (signed.heap 5).persona_id ≡ 1
unfolding authenticate_session_named get next_free is_taken keys store
first_persona = refl

authenticate-IsDirectory_example :
    IsDirectory signed
    × ((fresh.heap 5).persona_id ≢ 0 → signed ≡ fresh)
    × ((fresh.heap 5).persona_id ≡ 0
        → ((signed.heap 5).persona_id ≡ choose_persona fresh 0)
          × (get (choose_persona fresh 0) signed.active_personas ≡ some 5)
          × (get (choose_persona fresh 0) fresh.active_personas ≡ none)
          × ((signed.heap 5).session_id ≡ fresh.next_session_id)
          × (get fresh.next_session_id signed.sessions ≡ some 5))
unfolding keys
authenticate-IsDirectory_example =
    authenticate-IsDirectory fresh 5 0 (bytes_of "driver") (omega arith, omega arith) (omega arith)
      no_personas

-- The session 2 waits for a match of two with the id 4.
abbrev waiting_request : MatchRequest
waiting_request = record { session = 2; attrs = no_entries; cap = 2; topology = 130; msid = 4 }

abbrev waiting : Server
waiting =
    record (new []
      (λ p. record (new_session none []) { persona_id = 100 + p; queued_match_id = 4 })) {
        next_match_id = 5;
        match_queue = waiting_request ∷ [];
      }

waiting-IsExclusive : IsExclusive waiting
waiting-IsExclusive = ((tt, tt), ((refl, refl), tt))

cancel_exact_example :
    (((cancel_queued_match (some 2) 4 waiting).1 ≡ true)
      × (slt 0 4 ≡ true)
      × HasRequest 2 4 waiting.match_queue
      × ((cancel_queued_match (some 2) 4 waiting).0.match_queue
          ≡ without_session 2 waiting.match_queue)
      × (((cancel_queued_match (some 2) 4 waiting).0.heap 2).queued_match_id ≡ 0)
      × IsExclusive (cancel_queued_match (some 2) 4 waiting).0)
    ⊎ (((cancel_queued_match (some 2) 4 waiting).1 ≡ false)
        × ((cancel_queued_match (some 2) 4 waiting).0 ≡ waiting)
        × (slt 0 4 ≡ true → HasRequest 2 4 waiting.match_queue → ⊥))
cancel_exact_example = cancel_exact 2 4 waiting waiting-IsExclusive

-- A request for a match of two by the session 3.
abbrev wish : Fields
wish = fields_of (("PCAP", list (value (int64 2) no_values)) ∷ ("NTOP", int64 132) ∷ [])

-- The server where the two are paired.
abbrev paired : Server
paired =
    pair_sessions 1000 waiting_request (request_of 3 5 wish)
      (record (remove_queued_session 3
        (update_session 3 out_of_game (record waiting { next_match_id = 6 }))) {
          match_queue = [];
          games = [];
        })

wish_pairs : queue_match 1000 3 wish waiting ≡ some (paired, 5)
unfolding queue_match get keys get_field get_entry encode_tdf encode_struct encode_fields set_field
    is_empty_collection count_entries ensure_members put
wish_pairs = refl

queue_match-IsExclusive_example : IsExclusive paired × (5 ≡ waiting.next_match_id)
queue_match-IsExclusive_example =
    queue_match-IsExclusive 1000 3 wish waiting paired 5 waiting-IsExclusive wish_pairs

remove_session-gone_example :
    All (λ r. r.session ≢ 2) (remove_session 2 waiting).match_queue
    × (get 0 (remove_session 2 waiting).sessions ≡ none)
    × (IntMap.get_or 0 102 waiting.active_personas ≡ 2
        → get 102 (remove_session 2 waiting).active_personas ≡ none)
    × ((q : ℕ)
        → q ≢ 102
        → get q (remove_session 2 waiting).active_personas ≡ get q waiting.active_personas)
    × ((q : ℕ) → q ≢ 0 → get q (remove_session 2 waiting).sessions ≡ get q waiting.sessions)
    × ((remove_session 2 waiting).match_queue ≡ of_others 2 waiting.match_queue)
remove_session-gone_example = remove_session-gone 2 waiting

-- The host 1 and the player 2 in the game 7.
abbrev lobby : Game
lobby = new_game waiting.heap 50 7 1 (1 ∷ 2 ∷ []) no_entries 3 130 1

abbrev in_lobby : Server
in_lobby = record waiting { games = (7, lobby) ∷ [] }

-- A request of the session 3 to open a game with the same wish.
abbrev wish_frame : Frame
wish_frame = record {
  header = record {
    payload_size = 0;
    component = 4;
    command = 25;
    error = 0;
    message_type = 0;
    message_id = 1;
  };
  payload = [];
  tdf = wish;
}

third_has_no_game : own_game 3 waiting ≡ none
unfolding own_game get
third_has_no_game = refl

reset_dedicated-IsExclusive_example :
    IsExclusive (reset_dedicated 50 3 wish_frame waiting).0
    × ((game : Game)
        → own_game 3 waiting ≡ some game
        → (reset_dedicated 50 3 wish_frame waiting).0 ≡ waiting)
    × (own_game 3 waiting ≡ none
        → All (λ r. r.session ≢ 3) (reset_dedicated 50 3 wish_frame waiting).0.match_queue)
reset_dedicated-IsExclusive_example =
    reset_dedicated-IsExclusive 50 3 wish_frame waiting waiting-IsExclusive

-- The host asks for the second player to leave the game 7.
abbrev kick : Frame
kick = record wish_frame { tdf = fields_of (("GID", int64 7) ∷ ("PID", int64 102) ∷ []) }

lobby_is_found : get (int_field "GID" kick.tdf) in_lobby.games ≡ some lobby
unfolding get get_field
lobby_is_found = refl

remove_player_authority_example :
    ((remove_player 1 kick in_lobby).0 ≡ in_lobby)
    ⊎ ((target : ℕ) × (is_member target lobby.members ≡ true)
        × ((in_lobby.heap target).persona_id ≡ int_field "PID" kick.tdf)
        × ((target ≡ 1) ⊎ (1 ≡ lobby.host)))
remove_player_authority_example = remove_player_authority 1 kick lobby in_lobby lobby_is_found
