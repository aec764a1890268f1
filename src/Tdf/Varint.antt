-- ===== src/Tdf/Varint.antt =====
-- `EncodeVarsizeInteger` and `DecodeVarsizeInteger`. An int64 is its bit pattern, below 2 ^ 64.
pub mod RoundTrip
pub mod Bounds
use hp_server.Prelude.{
  ℕ, zero, suc, ◌+◌, ◌-◌, ◌*◌, ◌/◌, ◌%◌, ◌^◌, bit_or, Bool, List, [], ◌∷◌, ltb, leb, ◌==◌,
  if◌then◌else◌,
}

-- `value < 0`
abbrev pub is_negative : ℕ → Bool
is_negative v = leb (2 ^ 63) v

-- `-value`
abbrev pub negate64 : ℕ → ℕ
negate64 v = (2 ^ 64 - v) % 2 ^ 64

-- The bit at place `k` is set.
abbrev pub has_bit : ℕ → ℕ → Bool
has_bit b k = b / 2 ^ k % 2 == 1

-- `for remaining > 0`. A round takes seven bits off, so ten rounds empty a uint64.
unfoldable pub encode_rest : ℕ → ℕ → List ℕ
encode_rest zero remaining = []
encode_rest (suc rounds) remaining =
    let next_byte = remaining % 2 ^ 7 in
    let remaining' = remaining / 2 ^ 7 in
    let more = encode_rest rounds remaining' in
    if ltb 0 remaining
    then (if ltb 0 remaining' then bit_or next_byte 0x80 else next_byte) ∷ more
    else []

-- `uint64(value)`, or `uint64(-value)` of a negative value.
abbrev pub magnitude : ℕ → ℕ
magnitude value = if is_negative value then negate64 value else value

-- The sign at bit 6 and the continuation at bit 7 of the first byte.
unfoldable pub first_byte : Bool → Bool → ℕ → ℕ
first_byte negative more byte =
    let byte' = if negative then bit_or byte 0x40 else byte in
    if more then bit_or byte' 0x80 else byte'

unfoldable pub encode_varsize_integer : ℕ → List ℕ
encode_varsize_integer value =
    let negative = is_negative value in
    let remaining = magnitude value in
    let remaining' = remaining / 2 ^ 6 in
    first_byte negative (ltb 0 remaining') (remaining % 2 ^ 6) ∷ encode_rest 10 remaining'

-- `for read < len(buffer)`, over the bytes that are not read yet.
unfoldable pub decode_rest : List ℕ → ℕ → ℕ → ℕ → ℕ × ℕ
decode_rest [] value shift read = (value, read)
decode_rest (next_byte ∷ rest) value shift read =
    let value' = bit_or value (next_byte % 2 ^ 7 * 2 ^ shift % 2 ^ 64) in
    let more = decode_rest rest value' (shift + 7) (read + 1) in
    if has_bit next_byte 7 then more else (value', read + 1)

unfoldable pub finish_varsize : Bool → ℕ × ℕ → ℕ × ℕ
finish_varsize negative (value, read) = (if negative then negate64 value else value, read)

-- The value and the count of bytes read.
unfoldable pub decode_varsize_integer : List ℕ → ℕ × ℕ
unfolding finish_varsize
decode_varsize_integer [] = (0, 0)
decode_varsize_integer (first_byte ∷ rest) =
    let negative = has_bit first_byte 6 in
    let value = first_byte % 2 ^ 6 in
    let more = decode_rest rest value 6 1 in
    finish_varsize negative (if has_bit first_byte 7 then more else (value, 1))
