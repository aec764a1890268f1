-- ===== src/Game/Slots.antt =====
-- The slot that `addMember` of hpserver/game.go searches.
use hp_server.Prelude.{ℕ, suc, ◌+◌, ◌^◌, ◌%◌, ◌<◌, ◌≤◌, ◌≡◌, true, false, arith, length}
use hp_server.IntMap.{IntMap, contains, values}
use hp_server.IntMap.Search.{next_free-Found}
use hp_server.Game.{free_slot}

-- While there are fewer slots than int64s, the slot that a new member gets is not in use, every lower
-- one is, and it is at most the number of slots in use.
pub free_slot_lowest :
    (slots : IntMap ℕ)
    → length (values slots) < 2 ^ 64
    → (contains (values slots) (free_slot slots) ≡ false)
      × ((i : ℕ) → i < free_slot slots → contains (values slots) i ≡ true)
      × (free_slot slots ≤ length (values slots))
unfolding free_slot
free_slot_lowest slots small =
    let used = values slots in
    let (k, hk, e, free, before) =
      next_free-Found (contains used) used (suc (length used)) 0 (λ x h. h) (omega arith)
        (omega arith) (omega arith) in
    let small_k : (0 + k) % 2 ^ 64 ≡ k = omega arith in
    (
      rw e free,
      rw (e, small_k)
          (λ i hi. let low : (0 + i) % 2 ^ 64 ≡ i = omega arith in rw (← low) (before i hi)),
      rw (e, small_k) (omega arith),
    )
