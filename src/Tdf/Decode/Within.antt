-- ===== src/Tdf/Decode/Within.antt =====
-- The bytes that a reader of Fire2Decoder.go takes, through its checks and its slices.
use hp_server.Prelude.{
  ℕ, ◌+◌, ◌-◌, ◌%◌, ◌^◌, ◌≤◌, ◌<◌, ◌≡◌, ◌≢◌, Bool, true, false, List, [], ◌∷◌, slt, ◌||◌, length,
  arith, some, none, Option, if◌then◌else◌,
}
use mathlib.Core.Path.{refl, subst}
use hp_server.Tdf.Value.{Value, Fields}
use hp_server.Tdf.Decode.{
  Read, done, bad, panic, stuck, continue, slice, continue_struct, skip_terminator,
}

-- A read that is not stuck, and that takes at most `limit` bytes where it succeeds.
abbrev pub Within {ℓ} : {A : Type ℓ} → ℕ → Read A → Type 0
Within limit (done a n) = n ≤ limit
Within limit (bad a) = Unit
Within limit panic = Unit
Within limit stuck = ⊥

pub Within-continue {ℓ κ} :
    {A : Type ℓ} {B : Type κ} (r : Read A) (d : B) (f : A → ℕ → Read B) (k limit : ℕ)
    → Within k r
    → ((a : A) (n : ℕ) → n ≤ k → Within limit (f a n))
    → Within limit (continue r d f)
Within-continue (done a n) d f k limit h g = g a n h
Within-continue (bad a) d f k limit h g = tt
Within-continue panic d f k limit h g = tt
Within-continue stuck d f k limit h g = absurd h

pub Within-if {ℓ} :
    {A : Type ℓ} (limit : ℕ) (b : Bool) (x y : Read A)
    → (b ≡ true → Within limit x)
    → (b ≡ false → Within limit y)
    → Within limit (if b then x else y)
Within-if limit true x y hx hy = hx refl
Within-if limit false x y hx hy = hy refl

pub Within-le {ℓ} : {A : Type ℓ} (r : Read A) (a b : ℕ) → a ≤ b → Within a r → Within b r
Within-le (done x n) a b h w = omega arith
Within-le (bad x) a b h w = tt
Within-le panic a b h w = tt
Within-le stuck a b h w = absurd w

pub slice_hi : (lo hi : ℕ) (buf s : List ℕ) → slice lo hi buf ≡ some s → hi ≤ length buf
unfolding slice
slice_hi lo hi buf s e = ground arith

pub slice-Within :
    (lo hi n : ℕ) (buf : List ℕ) (make : List ℕ → Value)
    → (hi ≤ length buf → n ≤ length buf)
    → Within (length buf) (elim (slice lo hi buf) [ none ↦ panic | some s ↦ done (make s) n ])
slice-Within lo hi n buf make h = go (slice lo hi buf) (slice_hi lo hi buf)
  where
    go :
        (o : Option (List ℕ))
        → ((s : List ℕ) → o ≡ some s → hi ≤ length buf)
        → Within (length buf) (elim o [ none ↦ panic | some s ↦ done (make s) n ])
    go none g = tt
    go (some s) g = h (g s refl)

pub continue_struct-Within :
    (r : Read Fields) (limit : ℕ) → Within limit r → Within limit (continue_struct r)
continue_struct-Within (done x n) limit h = h
continue_struct-Within (bad x) limit h = tt
continue_struct-Within panic limit h = tt
continue_struct-Within stuck limit h = absurd h

pub skip_terminator-le : (buf : List ℕ) → skip_terminator buf ≤ length buf
skip_terminator-le [] = ground arith
skip_terminator-le (b ∷ buf) = ground arith

-- The test on the length of a string bounds the end of what is sliced.
pub string_end :
    (size limit end : ℕ)
    → limit < 2 ^ 63 - 1
    → end < 2 ^ 64
    → (slt size 1 || slt limit end) ≡ false
    → (end + 2 ^ 64 - 1) % 2 ^ 64 ≤ limit
    → end ≤ limit
string_end size limit end hl he fits h = ground arith

pub Within-ne-stuck {ℓ} : {A : Type ℓ} (limit : ℕ) {r : Read A} → Within limit r → r ≢ stuck
Within-ne-stuck limit w e = subst (Within limit) e w

pub Within-le_done {ℓ} :
    {A : Type ℓ} (limit : ℕ) {r : Read A}
    → Within limit r
    → (a : A) (n : ℕ) → r ≡ done a n
    → n ≤ limit
Within-le_done limit w a n e = subst (Within limit) e w
