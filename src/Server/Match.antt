-- ===== src/Server/Match.antt =====
-- `getMatchmakingCapacity`, `getMatchmakingTopology`, `isCompatibleMatch`, `getMatchmakingReason`
-- and the two searches of `queueMatch`. `none` is the panic of comparing two attribute values that
-- have no equality.
pub mod Exclusive
pub mod Found
pub mod Cancel
pub mod Queue
use hp_server.Prelude.{
  ℕ, ◌+◌, Bool, true, false, Option, none, some, List, [], ◌∷◌, ◌++◌, String, bytes_of, slt, inc64,
  ◌==◌, ◌&&◌, ◌||◌, not, if◌then◌else◌, ◌>>=◌,
}
use hp_server.IntMap
use hp_server.IntMap.{IntMap}
use hp_server.Tdf.Value.{
  Value, Fields, Entries, Values, value, no_values, list, int64, struct, union, fields_of,
  get_field, set_field, mapping_field, get_entry, equal_values,
}
use hp_server.Tdf.Encode.{encode_tdf}
use hp_server.Session.{Session, Heap, Message, OutboundFrame, notification}
use hp_server.Session.Identity.{user_session_id, user_notifications_for}
use hp_server.Session.Outbox.{enqueue}
use hp_server.Game.{
  Game, MatchRequest, add_member, new_game, match_keys, is_compatible_game, session_for_player_id,
}
use hp_server.Game.Setup.{replicated_game_player, game_setup}
use hp_server.Server.{Server, update_session, notify_session}
use hp_server.Server.Leave.{remove_queued_session}
use hp_server.Server.Notices.{component_game_manager, notify_player_joining, notify_game_setup}

-- `v.(int64)`
abbrev pub as_int64 : Option Value → Option ℕ
as_int64 (some (int64 n)) = some n
as_int64 _ = none

-- `caps[0].(int64)` of a list that is not empty.
abbrev pub first_int64 : Option Value → Option ℕ
first_int64 (some (list (value (int64 n) rest))) = some n
first_int64 _ = none

unfoldable pub mcap_or_8 : Fields → ℕ
mcap_or_8 tdf = elim (as_int64 (get_field (bytes_of "MCAP") tdf)) [ none ↦ 8 | some n ↦ n ]

unfoldable pub pmax_or_mcap : Fields → ℕ
unfolding mcap_or_8
pmax_or_mcap tdf = elim (as_int64 (get_field (bytes_of "PMAX") tdf)) [
  | none ↦ mcap_or_8 tdf
  | some n ↦ if slt 0 n then n else mcap_or_8 tdf
]

unfoldable pub get_matchmaking_capacity : Fields → ℕ
unfolding pmax_or_mcap
get_matchmaking_capacity tdf = elim (first_int64 (get_field (bytes_of "PCAP") tdf)) [
  | none ↦ pmax_or_mcap tdf
  | some n ↦ n
]

-- The topology 132 needs a server that is not there: 130 is the direct one.
unfoldable pub get_matchmaking_topology : Fields → ℕ
get_matchmaking_topology tdf = elim (as_int64 (get_field (bytes_of "NTOP") tdf)) [
  | none ↦ 0
  | some n ↦ if n == 132 then 130 else n
]

-- `aok != bok || (aok && av != bv)`, negated.
unfoldable pub matches : Option Value → Option Value → Option Bool
unfolding equal_values
matches none none = some true
matches none (some b) = some false
matches (some a) none = some false
matches (some a) (some b) = equal_values a b

unfoldable pub all_match : Entries → Entries → List Value → Option Bool
unfolding matches
all_match a b [] = some true
all_match a b (k ∷ ks) =
    let rest = all_match a b ks in
    do same ← matches (get_entry k a) (get_entry k b); if same then rest else some false

unfoldable pub is_compatible_match : MatchRequest → MatchRequest → Option Bool
unfolding all_match
is_compatible_match a b =
    if (slt a.cap 2 || slt b.cap 2) || (not (a.cap == b.cap) || not (a.topology == b.topology))
    then some false
    else all_match a.attrs b.attrs match_keys

unfoldable pub get_matchmaking_reason : ℕ → ℕ → ℕ → Value
get_matchmaking_reason msid result user_id = union 3 (bytes_of "VALU") (
    struct (
      fields_of (
        ("FIT", int64 100)
        ∷ ("MAXF", int64 100)
        ∷ ("MSID", int64 msid)
        ∷ ("RSLT", int64 result)
        ∷ ("USID", int64 user_id)
        ∷ [])))

-- `sort.Slice` on the ids of the games, which are int64s.
unfoldable pub insert_id : ℕ → List ℕ → List ℕ
insert_id id [] = id ∷ []
insert_id id (j ∷ ids) = let rest = insert_id id ids in if slt j id then j ∷ rest else id ∷ j ∷ ids

unfoldable pub sorted_ids : List ℕ → List ℕ
unfolding insert_id
sorted_ids [] = []
sorted_ids (id ∷ ids) = insert_id id (sorted_ids ids)

-- What a compatible game becomes, and whether the session is in it now.
unfoldable pub try_game : Heap → ℕ → MatchRequest → Game → Option (Game × Bool)
unfolding is_compatible_game add_member
try_game heap now request game = do
  compatible ← is_compatible_game game request
  let (game', (slot, added)) = add_member heap now request.session game in
      some (if compatible then (game', added) else (game, false))

-- The loop over the games: the games after it, and the id of the game that was joined.
unfoldable pub try_games :
    Heap → ℕ → MatchRequest → List ℕ → IntMap Game → Option (IntMap Game × Option ℕ)
unfolding try_game
try_games heap now request [] games = some (games, none)
try_games heap now request (id ∷ ids) games = elim (IntMap.get id games) [
  | none ↦ try_games heap now request ids games
  | some game ↦ do
    (game', added) ← try_game heap now request game
    let games' = IntMap.put id game' games in
        let rest = try_games heap now request ids games' in
        if added then some (games', some id) else rest
]

-- The request found behind `queued`.
abbrev pub keep_first :
    MatchRequest
    → Option (Option (MatchRequest × List MatchRequest))
    → Option (Option (MatchRequest × List MatchRequest))
keep_first queued none = none
keep_first queued (some none) = some none
keep_first queued (some (some (request, others))) = some (some (request, queued ∷ others))

-- The first request of the queue that matches, with the queue without it.
unfoldable pub take_match :
    MatchRequest → List MatchRequest → Option (Option (MatchRequest × List MatchRequest))
unfolding is_compatible_match
take_match candidate [] = some none
take_match candidate (queued ∷ queue) =
    let later = keep_first queued (take_match candidate queue) in
    if queued.session == candidate.session then later else do
      same ← is_compatible_match queued candidate
      if same then some (some (queued, queue)) else later
