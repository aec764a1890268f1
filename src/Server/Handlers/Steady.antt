-- ===== src/Server/Handlers/Steady.antt =====
-- The handlers of hpserver/handlers.go that change games and tell their members leave every session
-- where it is.
use hp_server.Prelude.{
  ℕ, ◌≡◌, inl, inr, bytes_of, Option, none, some, List, [], ◌∷◌, ◌==◌, ◌||◌, Bool-cases,
  Option-cases, refl,
}
use hp_server.IntMap
use hp_server.IntMap.{IntMap, get}
use hp_server.IntMap.Laws.{put-All, get-All}
use hp_server.Tdf.Value.{Entries, int_field, mapping_field, get_field}
use hp_server.Server.Match.{first_int64}
use hp_server.Fire.{Frame}
use hp_server.Session.{Session, Message}
use hp_server.Game.Members.{ensure_membership_state-members}
use hp_server.Game.{Game, ensure_membership_state, session_for_player_id}
use hp_server.Server.{Server, update_session, notify_session, notify_all}
use hp_server.Server.Broadcast.{
  members_of, broadcast, broadcast_player_attributes, change_player_attributes,
  set_player_attributes, player_attributes_notification,
}
use hp_server.Server.Leave.Exclusive.{IsApart, IsPlaying}
use hp_server.Server.Match.Exclusive.{SamePlace, update-SamePlaces, IsExclusive-SamePlaces}
use hp_server.Server.Handlers.{
  change_game, advance_game_state, set_game_attrs, set_game_settings, set_player_capacity,
  with_capacity, replay_game, is_host_of, finalize_game, finalized, or_id, update_network_info,
  or_else, network_address, as_struct, set_player_attrs,
}
use hp_server.Server.Handlers.Apart.{notify_session-IsApart}

pub update-IsApart :
    (p : ℕ) (change : Session → Session) (s : Server)
    → ((x : Session) → SamePlace x (change x))
    → IsApart s
    → IsApart (update_session p change s)
unfolding update_session
update-IsApart p change s keeps (exclusive, all) = (
  IsExclusive-SamePlaces s (update_session p change s) (update-SamePlaces p change s keeps)
      exclusive,
  all,
)

notify_all-IsApart :
    (members : List ℕ) (frames : List Message) (s : Server)
    → IsApart s
    → IsApart (notify_all members frames s)
unfolding notify_all
notify_all-IsApart [] frames s apart = apart
notify_all-IsApart (m ∷ ms) frames s apart =
    notify_all-IsApart ms frames (notify_session m frames s)
      (notify_session-IsApart m frames s apart)

broadcast-IsApart :
    (p id : ℕ) (frame : Message) (s : Server) → IsApart s → IsApart (broadcast p id frame s)
unfolding broadcast
broadcast-IsApart p id frame s apart = go (members_of id s)
  where
    go :
        (members : List ℕ)
        → IsApart (elim members [
          | [] ↦ notify_session p (frame ∷ []) s
          | m ∷ ms ↦ notify_all (m ∷ ms) (frame ∷ []) s
        ])
    go [] = notify_session-IsApart p (frame ∷ []) s apart
    go (m ∷ ms) = notify_all-IsApart (m ∷ ms) (frame ∷ []) s apart

-- A game that keeps its members may change otherwise.
pub put_game-IsApart :
    (id : ℕ) (game game' : Game) (s : Server)
    → get id s.games ≡ some game
    → game'.members ≡ game.members
    → IsApart s
    → IsApart (record s { games = IntMap.put id game' s.games })
put_game-IsApart id game game' s found same (exclusive, all) = (
  exclusive,
  put-All (IsPlaying s.match_queue) id game' s.games
      (rw same (get-All (IsPlaying s.match_queue) id game s.games all found)) all,
)

change_game-IsApart :
    (id : ℕ) (change : Game → Game) (s : Server)
    → ((game : Game) → (change game).members ≡ game.members)
    → IsApart s
    → IsApart (change_game id change s)
unfolding change_game
change_game-IsApart id change s keeps apart = elim (Option-cases (get id s.games)) [
  | inl missing ↦ rw (missing, change_game) apart
  | inr (game, found) ↦
      rw (found, change_game) (put_game-IsApart id game (change game) s found (keeps game) apart)
]

-- A change of a game that its members are told of.
told-IsApart :
    (p id : ℕ) (change : Game → Game) (frame : Message) (s : Server)
    → ((game : Game) → (change game).members ≡ game.members)
    → IsApart s
    → IsApart (broadcast p id frame (change_game id change s))
told-IsApart p id change frame s keeps apart =
    broadcast-IsApart p id frame (change_game id change s)
      (change_game-IsApart id change s keeps apart)

pub advance_game_state-IsApart :
    (p : ℕ) (req : Frame) (s : Server) → IsApart s → IsApart (advance_game_state p req s).0
unfolding advance_game_state
advance_game_state-IsApart p req s =
    told-IsApart p (int_field "GID" req.tdf)
      (λ game. record game { state = int_field "GSTA" req.tdf }) _ s (λ game. refl)

pub set_game_attrs-IsApart :
    (p : ℕ) (req : Frame) (s : Server) → IsApart s → IsApart (set_game_attrs p req s).0
unfolding set_game_attrs
set_game_attrs-IsApart p req s =
    told-IsApart p (int_field "GID" req.tdf)
      (λ game. record game { attrs = mapping_field "ATTR" req.tdf }) _ s (λ game. refl)

pub set_game_settings-IsApart :
    (p : ℕ) (req : Frame) (s : Server) → IsApart s → IsApart (set_game_settings p req s).0
unfolding set_game_settings
set_game_settings-IsApart p req s =
    told-IsApart p (int_field "GID" req.tdf)
      (λ game. record game { settings = int_field "GSET" req.tdf }) _ s (λ game. refl)

with_capacity-members :
    (capacity : Option ℕ) (game : Game) → (with_capacity capacity game).members ≡ game.members
with_capacity-members none game = refl
with_capacity-members (some capacity) game = refl

pub set_player_capacity-IsApart :
    (p : ℕ) (req : Frame) (s : Server) → IsApart s → IsApart (set_player_capacity p req s).0
unfolding set_player_capacity
set_player_capacity-IsApart p req s =
    let capacity = first_int64 (get_field (bytes_of "PCAP") req.tdf) in
    told-IsApart p (int_field "GID" req.tdf) (with_capacity capacity) _ s
      (with_capacity-members capacity)

pub replay_game-IsApart :
    (p : ℕ) (req : Frame) (s : Server) → IsApart s → IsApart (replay_game p req s).0
unfolding replay_game
replay_game-IsApart p req s apart = elim (Bool-cases (is_host_of p (int_field "GID" req.tdf) s)) [
  | inr other ↦ rw (other, replay_game) apart
  | inl host ↦
      rw (host, replay_game)
        (told-IsApart p (int_field "GID" req.tdf) (λ game. record game { state = 130 }) _ s
          (λ game. refl) apart)
]

pub finalize_game-IsApart :
    (p : ℕ) (req : Frame) (s : Server) → IsApart s → IsApart (finalize_game p req s).0
unfolding finalize_game
finalize_game-IsApart p req s apart =
    let session = s.heap p in
    let id =
      or_id (or_id (int_field "GID" req.tdf) session.pending_matchmaking_game) session.game_id in
    elim (Bool-cases (id == 0)) [
      | inl zero' ↦ rw (zero', finalize_game) apart
      | inr given ↦
          rw (given, finalize_game) (update-IsApart p (finalized id) s (λ x. (refl, refl)) apart)
    ]

pub update_network_info-IsApart :
    (p : ℕ) (req : Frame) (s : Server) → IsApart s → IsApart (update_network_info p req s).0
unfolding update_network_info
update_network_info-IsApart p req s =
    let address = network_address (get_field (bytes_of "ADDR") req.tdf) in
    let qos = as_struct (get_field (bytes_of "NQOS") req.tdf) in
    update-IsApart p
      (λ x. record x {
        network_address = or_else address x.network_address;
        network_qos = or_else qos x.network_qos;
      })
      s (λ x. (refl, refl))

-- Notifying of attributes changes a game's, and no roster.
change_player_attributes-IsApart :
    (now id player : ℕ) (attributes : Entries) (game : Game) (s : Server)
    → get id s.games ≡ some game
    → IsApart s
    → IsApart (change_player_attributes now id player attributes game s)
unfolding change_player_attributes set_player_attributes
change_player_attributes-IsApart now id player attributes game s found apart =
    let whole = ensure_membership_state s.heap now game in
    let game' = set_player_attributes (s.heap player).persona_id attributes whole in
    notify_all-IsApart game'.members _ (record s { games = IntMap.put id game' s.games })
      (put_game-IsApart id game game' s found (ensure_membership_state-members s.heap now game)
        apart)

broadcast_player_attributes-IsApart :
    (now p id player_id : ℕ) (attributes : Entries) (s : Server)
    → IsApart s
    → IsApart (broadcast_player_attributes now p id player_id attributes s)
unfolding broadcast_player_attributes
broadcast_player_attributes-IsApart now p id player_id attributes s apart =
    elim (Option-cases (get id s.games)) [
      | inl missing ↦
          rw (missing, broadcast_player_attributes)
            (notify_session-IsApart p (player_attributes_notification attributes id player_id ∷ [])
              s apart)
      | inr (game, found) ↦
          elim (Option-cases (session_for_player_id s.heap game.members player_id)) [
            | inl nobody ↦ rw (found, nobody, broadcast_player_attributes) apart
            | inr (player, e) ↦
                elim (Option-cases
                  (session_for_player_id s.heap game.members (s.heap p).persona_id)) [
                    | inl stranger ↦ rw (found, e, stranger, broadcast_player_attributes) apart
                    | inr (caller, e') ↦ elim (Bool-cases ((player == p) || (game.host == p))) [
                      | inr refused ↦ rw (found, e, e', refused, broadcast_player_attributes) apart
                      | inl allowed ↦
                          rw (found, e, e', allowed, broadcast_player_attributes)
                            (change_player_attributes-IsApart now id player attributes game s found
                              apart)
                    ]
                  ]
          ]
    ]

pub set_player_attrs-IsApart :
    (now p : ℕ) (req : Frame) (s : Server) → IsApart s → IsApart (set_player_attrs now p req s).0
unfolding set_player_attrs
set_player_attrs-IsApart now p req s =
    broadcast_player_attributes-IsApart now p (int_field "GID" req.tdf) (int_field "PID" req.tdf)
      (mapping_field "ATTR" req.tdf) s
