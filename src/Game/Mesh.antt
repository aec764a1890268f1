-- ===== src/Game/Mesh.antt =====
-- `meshReadyForPlayer` of hpserver/game.go.
use hp_server.Prelude.{
  ℕ, ◌≡◌, ◌≢◌, ◌↔◌, Bool, true, List, [], ◌∷◌, arith, All, ◌==◌, ◌&&◌, ◌||◌, Bool-cases, inl, inr,
  refl,
}
use hp_server.IntMap.{IntMap}
use hp_server.Session.{Heap}
use hp_server.Game.{Game, link, linked_to_all, mesh_ready_for_player}

-- The player reports a link to the member, and the member one to the player. 2 is CONNECTED.
abbrev pub Linked : Heap → IntMap (IntMap ℕ) → ℕ → ℕ → Type 0
Linked heap mesh player member =
    (link mesh (heap player).persona_id (heap member).persona_id ≡ 2)
    × (link mesh (heap member).persona_id (heap player).persona_id ≡ 2)

test_sound :
    (m p x y : ℕ) (rest : Bool)
    → ((m == p) || ((x == 2) && (y == 2))) && rest ≡ true
    → (m ≢ p → (x ≡ 2) × (y ≡ 2)) × (rest ≡ true)
test_sound m p x y rest h = (λ ne. (ground arith, ground arith), ground arith)

test_complete :
    (m p x y : ℕ) (rest : Bool)
    → (m ≢ p → (x ≡ 2) × (y ≡ 2))
    → rest ≡ true
    → ((m == p) || ((x == 2) && (y == 2))) && rest ≡ true
test_complete m p x y rest linked h = elim (Bool-cases (m == p)) [
  | inl same ↦ rw (same, h) refl
  | inr other ↦
      let ne : m ≢ p = ground arith in
      let (there, back) = linked ne in rw (other, there, back, h) refl
]

linked_to_all_sound :
    (heap : Heap) (mesh : IntMap (IntMap ℕ)) (player : ℕ) (members : List ℕ)
    → linked_to_all heap mesh player members ≡ true
    → All (λ m. m ≢ player → Linked heap mesh player m) members
unfolding linked_to_all
linked_to_all_sound heap mesh player [] h = tt
linked_to_all_sound heap mesh player (m ∷ ms) h =
    let a = (heap player).persona_id in
    let b = (heap m).persona_id in
    let (linked, rest) =
      test_sound m player (link mesh a b) (link mesh b a) (linked_to_all heap mesh player ms) h in
    (linked, linked_to_all_sound heap mesh player ms rest)

linked_to_all_complete :
    (heap : Heap) (mesh : IntMap (IntMap ℕ)) (player : ℕ) (members : List ℕ)
    → All (λ m. m ≢ player → Linked heap mesh player m) members
    → linked_to_all heap mesh player members ≡ true
unfolding linked_to_all
linked_to_all_complete heap mesh player [] h = refl
linked_to_all_complete heap mesh player (m ∷ ms) (h, hs) =
    let a = (heap player).persona_id in
    let b = (heap m).persona_id in
    test_complete m player (link mesh a b) (link mesh b a) (linked_to_all heap mesh player ms) h
      (linked_to_all_complete heap mesh player ms hs)

-- A player is ready exactly when every other member of the game and the player report a link to each
-- other.
pub mesh_ready_iff :
    (heap : Heap) (game : Game) (player : ℕ)
    → (mesh_ready_for_player heap game player ≡ true)
      ↔ All (λ m. m ≢ player → Linked heap game.mesh player m) game.members
unfolding mesh_ready_for_player
mesh_ready_iff heap game player = (
  linked_to_all_sound heap game.mesh player game.members,
  linked_to_all_complete heap game.mesh player game.members,
)
