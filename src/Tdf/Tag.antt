-- ===== src/Tdf/Tag.antt =====
-- `encodeTag` and `DecodeTag`: a tag of at most four characters in three bytes, six bits each.
-- A Go string is the list of its bytes.
pub mod RoundTrip
use hp_server.Prelude.{
  ℕ, zero, suc, ◌+◌, ◌-◌, ◌*◌, ◌/◌, ◌%◌, ◌^◌, bit_or, List, [], ◌∷◌, ltb, leb, ◌==◌, ◌&&◌,
  if◌then◌else◌, take,
}

-- The character as `encodeTag` packs it: a lower case letter is made upper case.
abbrev pub upper : ℕ → ℕ
upper char = if leb b'a' char && leb char b'z' then char - 0x20 else char

-- `uint32((char-0x20)&0x3f)`, where the subtraction is on a byte.
abbrev pub six_bits : ℕ → ℕ
six_bits char = (upper char + 256 - 0x20) % 256 % 2 ^ 6

-- `for i := 0; i < len(tag) && i < 4; i++`
unfoldable pub pack_tag : ℕ → List ℕ → ℕ → ℕ
pack_tag i [] packed = packed
pack_tag i (char ∷ tag) packed =
    let more = pack_tag (i + 1) tag (bit_or packed (six_bits char * 2 ^ (26 - 6 * i) % 2 ^ 32)) in
    if ltb i 4 then more else packed

unfoldable pub encode_tag : List ℕ → List ℕ
encode_tag tag =
    let packed = pack_tag 0 tag 0 in
    packed / 2 ^ 24 % 256 ∷ packed / 2 ^ 16 % 256 ∷ packed / 2 ^ 8 % 256 ∷ []

-- `for i := 3; i >= 0; i--`: the first argument is i + 1, and the result is (buf, size).
unfoldable pub unpack_tag : ℕ → ℕ → List ℕ → ℕ → List ℕ × ℕ
unpack_tag zero tag buf size = (buf, size)
unpack_tag (suc i) tag buf size =
    let sixbits = tag % 2 ^ 6 in
    let blank = sixbits == 0 in
    unpack_tag i (tag / 2 ^ 6) ((if blank then 0 else (sixbits + 32) % 256) ∷ buf)
      (if blank then i else size)

abbrev cut_tag : List ℕ × ℕ → List ℕ
cut_tag (buf, size) = take size buf

unfoldable pub decode_tag : List ℕ → List ℕ
decode_tag (b0 ∷ b1 ∷ b2 ∷ _) =
    let tag = bit_or (bit_or (b0 * 2 ^ 16) (b1 * 2 ^ 8)) b2 in cut_tag (unpack_tag 4 tag [] 4)
decode_tag _ = []
