-- ===== src/Tdf/Varint/Bounds.antt =====
-- The size of a packed integer, and what a decode may read.
use hp_server.Prelude.{
  ℕ, zero, suc, ◌+◌, ◌*◌, ◌/◌, ◌%◌, ◌^◌, ◌≤◌, ◌<◌, bit_or, Bool, List, [], ◌∷◌, length, All, IsByte,
  arith, ltb,
}
use hp_server.Prelude.Bits.{bit_or_above, bit_or-lt}
use native.Mathlib.Nat.{pow-suc}
use hp_server.Tdf.Varint.{
  is_negative, magnitude, first_byte, encode_rest, encode_varsize_integer, decode_rest,
  decode_varsize_integer,
}

encode_rest_shape :
    (rounds r : ℕ) → All IsByte (encode_rest rounds r) × (length (encode_rest rounds r) ≤ rounds)
unfolding encode_rest
encode_rest_shape zero r = (tt, omega arith)
encode_rest_shape (suc rounds) r =
    ground (arith, bit_or_above 7 1 (r % 128), encode_rest_shape rounds (r / 128))

first_byte-IsByte : (negative more : Bool) (g : ℕ) → g < 64 → IsByte (first_byte negative more g)
unfolding first_byte
first_byte-IsByte negative more g h =
    ground (arith, bit_or_above 6 1 g, bit_or_above 7 1 g, bit_or_above 7 1 (g + 64))

-- A number below 128 ^ k takes at most `k` rounds.
length-encode_rest : (rounds k r : ℕ) → r < 128 ^ k → length (encode_rest rounds r) ≤ k
unfolding encode_rest
length-encode_rest zero k r h = omega arith
length-encode_rest (suc rounds) zero r h = ground arith
length-encode_rest (suc rounds) (suc k) r h =
    ground (arith, pow-suc 128 k, length-encode_rest rounds k (r / 128))

-- A packed integer is 1 to 10 bytes long, and every element is a byte.
pub encode_varsize_shape :
    (value : ℕ)
    → value < 2 ^ 64
    → All IsByte (encode_varsize_integer value)
      × (1 ≤ length (encode_varsize_integer value))
      × (length (encode_varsize_integer value) ≤ 10)
unfolding encode_varsize_integer
encode_varsize_shape value h =
    let rest = magnitude value / 64 in
    ground (
      arith,
      first_byte-IsByte (is_negative value) (ltb 0 rest) (magnitude value % 64),
      encode_rest_shape 10 rest,
      length-encode_rest 10 9 rest,
    )

decode_rest_takes :
    (rest : List ℕ) (value shift read : ℕ)
    → value < 2 ^ 64
    → (read ≤ (decode_rest rest value shift read).1)
      × ((decode_rest rest value shift read).1 ≤ read + length rest)
      × ((decode_rest rest value shift read).0 < 2 ^ 64)
unfolding decode_rest
decode_rest_takes [] value shift read h = omega arith
decode_rest_takes (b ∷ rest) value shift read h =
    let group = b % 128 * 2 ^ shift % 2 ^ 64 in
    ground (
      arith,
      bit_or-lt 64 value group,
      decode_rest_takes rest (bit_or value group) (shift + 7) (read + 1),
    )

-- Decoding any bytes gives an int64, reads nothing of an empty buffer, and otherwise at least one
-- byte and at most all of them.
pub decode_varsize_takes :
    (buffer : List ℕ)
    → ((decode_varsize_integer buffer).0 < 2 ^ 64)
      × ((decode_varsize_integer buffer).1 ≤ length buffer)
      × (1 ≤ length buffer → 1 ≤ (decode_varsize_integer buffer).1)
unfolding decode_varsize_integer
decode_varsize_takes [] = ground arith
decode_varsize_takes (b ∷ rest) = ground (arith, decode_rest_takes rest (b % 64) 6 1)
