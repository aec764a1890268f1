-- ===== src/Tdf/Varint/RoundTrip.antt =====
-- What `EncodeVarsizeInteger` writes, `DecodeVarsizeInteger` reads back.
use hp_server.Prelude.{
  ℕ, zero, suc, ◌+◌, ◌*◌, ◌/◌, ◌%◌, ◌^◌, ◌<◌, ◌≡◌, ap, ◌∙◌, bit_or, List, [], ◌∷◌, ◌++◌, length,
  arith, inl, inr, Bool-cases, Bool, ltb, ltb→lt, if◌then◌else◌, refl,
}
use hp_server.Prelude.Bits.{bit_or_above}
use hp_server.Tdf.Varint.{
  is_negative, negate64, magnitude, has_bit, first_byte, encode_rest, encode_varsize_integer,
  decode_rest, decode_varsize_integer,
}
use native.Mathlib.Nat.{div-add-mod, pow-suc}
use native.Mathlib.Numerals.{towards_suc}

shift_seven : (s : ℕ) → 2 ^ (s + 7) ≡ 128 * 2 ^ s
shift_seven s = simp towards_suc (omega arith)

-- The lowest group of `r` and the rest, both shifted by `s`.
split_group : (r s : ℕ) → r * 2 ^ s ≡ r % 128 * 2 ^ s + r / 128 * 2 ^ (s + 7)
split_group r s = omega (
  arith,
  ap (λ (t : ℕ). t * 2 ^ s) (div-add-mod r 128),
  ap (λ (t : ℕ). r / 128 * t) (shift_seven s),
)

group_fits : (g s : ℕ) → g < 128 → g * 2 ^ s + 2 ^ s < 2 ^ (s + 7) + 1
group_fits g s h = rw shift_seven (grind arith)

-- One round on a byte with the group `g`, whose top bit says whether more follow.
or_group :
    (value g s : ℕ)
    → value < 2 ^ s
    → value + g * 2 ^ s < 2 ^ 64
    → bit_or value (g * 2 ^ s % 2 ^ 64) ≡ value + g * 2 ^ s
or_group value g s fits top = ap (bit_or value) (omega arith) ∙ bit_or_above s g value fits

last_byte :
    (w value s read : ℕ) (rest : List ℕ)
    → w < 128
    → value < 2 ^ s
    → value + w * 2 ^ s < 2 ^ 64
    → decode_rest (w ∷ rest) value s read ≡ (value + w * 2 ^ s, read + 1)
unfolding decode_rest
last_byte w value s read rest hw fits top =
    let e : w % 128 ≡ w = omega arith in ground (arith, e, or_group value w s)

inner_byte :
    (g value s read : ℕ) (rest : List ℕ)
    → g < 128
    → value < 2 ^ s
    → value + g * 2 ^ s < 2 ^ 64
    → decode_rest ((g + 128) ∷ rest) value s read
      ≡ decode_rest rest (value + g * 2 ^ s) (s + 7) (read + 1)
unfolding decode_rest
inner_byte g value s read rest hg fits top =
    let low : (g + 128) % 128 ≡ g = omega arith in
    let high : (g + 128) / 128 % 2 ≡ 1 = omega arith in
    rw (high, low, or_group value g s fits top) refl

encode_rest-zero : (k : ℕ) → encode_rest k 0 ≡ []
unfolding encode_rest
encode_rest-zero zero = refl
encode_rest-zero (suc k) = refl

encode_last : (k r : ℕ) → 0 < r → r < 128 → encode_rest (suc k) r ≡ r ∷ []
unfolding encode_rest
encode_last k r pos h = ground (arith, encode_rest-zero k)

encode_inner :
    (k r : ℕ) → 127 < r → encode_rest (suc k) r ≡ (r % 128 + 128) ∷ encode_rest k (r / 128)
unfolding encode_rest
encode_inner k r h = ground (arith, bit_or_above 7 1 (r % 128))

decode_rest-encode_rest :
    (k r value s read : ℕ) (rest : List ℕ)
    → 0 < r
    → r < 128 ^ k
    → value < 2 ^ s
    → value + r * 2 ^ s < 2 ^ 64
    → decode_rest (encode_rest k r ++ rest) value s read
      ≡ (value + r * 2 ^ s, read + length (encode_rest k r))
decode_rest-encode_rest zero r value s read rest pos hr fits top = absurd (omega arith)
decode_rest-encode_rest (suc k) r value s read rest pos hr fits top =
    elim (Bool-cases (ltb r 128)) [
      | inl h ↦
          rw (encode_last k r pos (ltb→lt r 128 h))
            (last_byte r value s read rest (ltb→lt r 128 h) fits top)
      | inr h ↦
          let large : 127 < r = ground arith in
          let low : value + r % 128 * 2 ^ s < 2 ^ 64 = omega (arith, split_group r s) in
          rw (encode_inner k r large) (
            inner_byte (r % 128) value s read _ (omega arith) fits low
            ∙ decode_rest-encode_rest k (r / 128) (value + r % 128 * 2 ^ s) (s + 7) (read + 1) rest
                (omega arith) (omega (arith, pow-suc 128 k))
                (omega (arith, group_fits (r % 128) s (omega arith)))
                (omega (arith, split_group r s))
            ∙ ground (arith, split_group r s))
    ]

-- The first byte holds the low six bits, the sign and the continuation, each by itself.
first_byte_bits :
    (negative more : Bool) (g : ℕ)
    → g < 64
    → (first_byte negative more g % 64 ≡ g)
      × (has_bit (first_byte negative more g) 6 ≡ negative)
      × (has_bit (first_byte negative more g) 7 ≡ more)
unfolding first_byte
first_byte_bits negative more g h =
    ground (arith, bit_or_above 6 1 g, bit_or_above 7 1 g, bit_or_above 7 1 (g + 64))

negate-negate : (v : ℕ) → v < 2 ^ 64 → negate64 (negate64 v) ≡ v
negate-negate v h = omega arith

-- `encode_rest` after the first six bits.
decode_magnitude :
    (m : ℕ) (rest : List ℕ)
    → m < 2 ^ 64
    → (if ltb 0 (m / 64)
        then decode_rest (encode_rest 10 (m / 64) ++ rest) (m % 64) 6 1
        else (m % 64, 1))
      ≡ (m, suc (length (encode_rest 10 (m / 64))))
decode_magnitude m rest h =
    ground (arith, decode_rest-encode_rest 10 (m / 64) (m % 64) 6 1 rest, encode_rest-zero 10)

-- Decoding what `encode_varsize_integer` wrote gives the int64 back, and reads exactly those bytes,
-- whatever follows them.
pub decode-encode_varsize :
    (value : ℕ) (rest : List ℕ)
    → value < 2 ^ 64
    → decode_varsize_integer (encode_varsize_integer value ++ rest)
      ≡ (value, length (encode_varsize_integer value))
unfolding encode_varsize_integer decode_varsize_integer
decode-encode_varsize value rest h =
    let m = magnitude value in
    let fits : magnitude value < 2 ^ 64 = ground arith in
    let (low, sign, more) =
      first_byte_bits (is_negative value) (ltb 0 (m / 64)) (m % 64) (omega arith) in
    simp (low, sign, more, decode_magnitude m rest fits) (ground arith)
