-- ===== src/Game.antt =====
-- hpserver/game.go: the roster and the mesh of a game. A game holds pointers to sessions, so its
-- operations take the heap; the time is an argument.
pub mod Slots
pub mod Roster
pub mod Mesh
pub mod Setup
pub mod Members
mod Tests
use hp_server.Prelude.{
  ℕ, zero, suc, ◌+◌, Bool, true, false, Option, none, some, List, [], ◌∷◌, ◌++◌, ltb, leb, slt,
  ◌==◌, ◌&&◌, ◌||◌, ◌-◌, ◌^◌, not, length, bytes_of, if◌then◌else◌, ◌>>=◌,
}
use hp_server.IntMap
use hp_server.IntMap.{IntMap}
use hp_server.Tdf.Value.{Value, Entries, text, no_entries, get_entry, equal_values}
use hp_server.Session.{Session, Heap}

pub record Game : Type 0 where
  pub id : ℕ
  pub host : ℕ
  pub members : List ℕ
  pub attrs : Entries
  pub capacity : ℕ
  pub topology : ℕ
  pub state : ℕ
  pub settings : ℕ
  pub slots : IntMap ℕ
  pub joined_at : IntMap ℕ
  pub player_attrs : IntMap Entries
  pub player_states : IntMap ℕ
  pub mesh : IntMap (IntMap ℕ)
  pub mesh_ready : IntMap Bool

pub record MatchRequest : Type 0 where
  pub session : ℕ
  pub attrs : Entries
  pub cap : ℕ
  pub topology : ℕ
  pub msid : ℕ

-- ACTIVE_CONNECTED
abbrev pub active_connected : ℕ
active_connected = 4

-- `if _, ok := m[k]; !ok { m[k] = v }`
abbrev pub put_missing : ℕ → ℕ → IntMap ℕ → IntMap ℕ
put_missing k v m = if IntMap.has k m then m else IntMap.put k v m

-- One round of the loop of `ensureMembershipState`, at the persona of the member.
unfoldable pub ensure_member : ℕ → ℕ → ℕ → Game → Game
ensure_member now index persona game = record game {
  slots = put_missing persona index game.slots;
  joined_at =
      if IntMap.get_or 0 persona game.joined_at == 0
      then IntMap.put persona now game.joined_at
      else game.joined_at;
  player_states = put_missing persona active_connected game.player_states;
}

unfoldable pub ensure_members : Heap → ℕ → ℕ → List ℕ → Game → Game
unfolding ensure_member
ensure_members heap now index [] game = game
ensure_members heap now index (member ∷ members) game =
    ensure_members heap now (index + 1) members
      (ensure_member now index (heap member).persona_id game)

unfoldable pub ensure_membership_state : Heap → ℕ → Game → Game
ensure_membership_state heap now game = ensure_members heap now 0 game.members game

-- `member == session || member.PersonaID == session.PersonaID`
unfoldable pub find_member : Heap → ℕ → List ℕ → Option ℕ
find_member heap session [] = none
find_member heap session (member ∷ members) =
    if (member == session) || ((heap member).persona_id == (heap session).persona_id)
    then some member
    else find_member heap session members

-- `for used[slot] { slot++ }` from 0. A round passes a slot in use, so one more round than there
-- are slots is enough.
unfoldable pub free_slot : IntMap ℕ → ℕ
free_slot slots =
    IntMap.next_free (suc (length (IntMap.values slots))) (IntMap.contains (IntMap.values slots)) 0

abbrev pub minus_one : ℕ
minus_one = 2 ^ 64 - 1

-- The roster with one more member in the free slot.
unfoldable pub seat : ℕ → ℕ → ℕ → Game → Game
seat now session persona game = record game {
  members = game.members ++ session ∷ [];
  slots = IntMap.put persona (free_slot game.slots) game.slots;
  joined_at = IntMap.put persona now game.joined_at;
  player_attrs = IntMap.put persona no_entries game.player_attrs;
  player_states = IntMap.put persona active_connected game.player_states;
}

-- `addMember` where every member has its slot.
unfoldable pub place_member : Heap → ℕ → ℕ → Game → Game × (ℕ × Bool)
unfolding find_member free_slot seat
place_member heap now session game =
    let added = seat now session (heap session).persona_id game in
    elim (find_member heap session game.members) [
      | some member ↦ (game, (IntMap.get_or 0 (heap member).persona_id game.slots, false))
      | none ↦
          if slt 0 game.capacity && not (slt (length game.members) game.capacity)
          then (game, (minus_one, false))
          else (added, (free_slot game.slots, true))
    ]

-- The game, the slot and whether the session was added.
unfoldable pub add_member : Heap → ℕ → ℕ → Game → Game × (ℕ × Bool)
unfolding ensure_membership_state place_member
add_member heap now session game =
    place_member heap now session (ensure_membership_state heap now game)

unfoldable pub add_members : Heap → ℕ → List ℕ → Game → Game
unfolding add_member
add_members heap now [] game = game
add_members heap now (member ∷ members) game =
    add_members heap now members (add_member heap now member game).0

abbrev pub blank_game : ℕ → ℕ → Entries → ℕ → ℕ → ℕ → Game
blank_game id host attrs capacity topology state = record {
  id = id;
  host = host;
  members = [];
  attrs = attrs;
  capacity = capacity;
  topology = topology;
  state = state;
  settings = 284;
  slots = [];
  joined_at = [];
  player_attrs = [];
  player_states = [];
  mesh = [];
  mesh_ready = [];
}

unfoldable pub new_game : Heap → ℕ → ℕ → ℕ → List ℕ → Entries → ℕ → ℕ → ℕ → Game
unfolding add_members
new_game heap now id host members attrs capacity topology state =
    add_members heap now members (blank_game id host attrs capacity topology state)

unfoldable pub is_member : ℕ → List ℕ → Bool
is_member session [] = false
is_member session (member ∷ members) = (member == session) || is_member session members

-- `append(Members[:i], Members[i+1:]...)` at the first place of the session.
unfoldable pub drop_member : ℕ → List ℕ → List ℕ
drop_member session [] = []
drop_member session (member ∷ members) =
    let rest = drop_member session members in if member == session then members else member ∷ rest

-- `for _, connections := range game.Mesh { delete(connections, id) }`
unfoldable pub drop_peer : ℕ → IntMap (IntMap ℕ) → IntMap (IntMap ℕ)
drop_peer persona [] = []
drop_peer persona ((j, connections) ∷ mesh) =
    (j, IntMap.delete persona connections) ∷ drop_peer persona mesh

unfoldable pub remove_member : Heap → ℕ → Game → Game × Bool
unfolding is_member drop_member drop_peer
remove_member heap session game =
    let persona = (heap session).persona_id in
    let removed = record game {
      members = drop_member session game.members;
      slots = IntMap.delete persona game.slots;
      joined_at = IntMap.delete persona game.joined_at;
      player_attrs = IntMap.delete persona game.player_attrs;
      player_states = IntMap.delete persona game.player_states;
      mesh = drop_peer persona (IntMap.delete persona game.mesh);
      mesh_ready = IntMap.delete persona game.mesh_ready;
    } in
    if is_member session game.members then (removed, true) else (game, false)

-- The keys that matchmaking compares.
abbrev pub match_keys : List Value
match_keys =
    text (bytes_of "playlist")
    ∷ text (bytes_of "cartier")
    ∷ text (bytes_of "event")
    ∷ text (bytes_of "visibility")
    ∷ []

-- `hasRequested && (!hasActual || requested != actual)`, negated. `none` is the panic of comparing
-- two values that have no equality.
unfoldable pub agrees : Option Value → Option Value → Option Bool
agrees none actual = some true
agrees (some requested) none = some false
agrees (some requested) (some actual) = equal_values requested actual

unfoldable pub all_agree : Entries → Entries → List Value → Option Bool
unfolding agrees
all_agree requested actual [] = some true
all_agree requested actual (k ∷ ks) =
    let rest = all_agree requested actual ks in
    do same ← agrees (get_entry k requested) (get_entry k actual); if same then rest else some false

unfoldable pub is_compatible_game : Game → MatchRequest → Option Bool
unfolding all_agree
is_compatible_game game request =
    if (game.host == request.session)
      || (not (slt (length game.members) game.capacity)
          || ((slt 0 request.cap && slt request.cap game.capacity)
              || not (game.topology == request.topology)))
    then some false
    else all_agree request.attrs game.attrs match_keys

unfoldable pub session_for_player_id : Heap → List ℕ → ℕ → Option ℕ
session_for_player_id heap [] player_id = none
session_for_player_id heap (member ∷ members) player_id =
    if (heap member).persona_id == player_id
    then some member
    else session_for_player_id heap members player_id

-- `game.Mesh[a][b]`
abbrev pub link : IntMap (IntMap ℕ) → ℕ → ℕ → ℕ
link mesh a b = IntMap.get_or 0 b (IntMap.get_or [] a mesh)

unfoldable pub linked_to_all : Heap → IntMap (IntMap ℕ) → ℕ → List ℕ → Bool
linked_to_all heap mesh player [] = true
linked_to_all heap mesh player (member ∷ members) =
    let a = (heap player).persona_id in
    let b = (heap member).persona_id in
    ((member == player) || ((link mesh a b == 2) && (link mesh b a == 2)))
    && linked_to_all heap mesh player members

unfoldable pub mesh_ready_for_player : Heap → Game → ℕ → Bool
unfolding linked_to_all
mesh_ready_for_player heap game player = linked_to_all heap game.mesh player game.members

unfoldable pub refresh_members : Heap → Game → List ℕ → IntMap Bool → IntMap Bool
unfolding mesh_ready_for_player
refresh_members heap game [] ready = ready
refresh_members heap game (player ∷ players) ready =
    refresh_members heap game players
      (IntMap.put (heap player).persona_id (mesh_ready_for_player heap game player) ready)

unfoldable pub refresh_mesh_readiness : Heap → Game → Game
unfolding refresh_members
refresh_mesh_readiness heap game = record game {
  mesh_ready = refresh_members heap game game.members game.mesh_ready;
}
