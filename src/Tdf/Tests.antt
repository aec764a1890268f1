-- ===== src/Tdf/Tests.antt =====
-- Runs of the codec on a payload that the repository's tests captured, and its theorems at concrete
-- inputs.
use hp_server.Prelude.{
  ℕ, ◌^◌, ◌≤◌, ◌≡◌, ◌≢◌, inl, inr, ◌-◌, refl, List, [], ◌∷◌, ◌++◌, some, bytes_of, map, take,
  length, arith, All, IsByte,
}
use hp_server.Tdf.Varint.{encode_varsize_integer, decode_varsize_integer, encode_rest, first_byte}
use hp_server.Tdf.Varint.RoundTrip.{decode-encode_varsize}
use hp_server.Tdf.Varint.Bounds.{encode_varsize_shape}
use hp_server.Tdf.Tag.{encode_tag, decode_tag, pack_tag, unpack_tag, upper}
use hp_server.Tdf.HeatType.{get_type_by_id}
use hp_server.Tdf.Sort.{sorted_keys}
use hp_server.Tdf.Tag.RoundTrip.{decode-encode_tag}
use hp_server.Tdf.Value.{Fields, text, field, no_fields, int64, set_field}
use hp_server.Tdf.Encode.{encode_tdf, encode_struct, encode_fields, is_empty_collection}
use hp_server.Tdf.Decode.{done, stuck, decode_tdf, read_value, slice}
use hp_server.Tdf.Decode.Bounds.{decode_tdf_bounds}

abbrev login : List ℕ
login =
    0xb6 ∷ 0x1a ∷ 0x6c ∷ 0x01 ∷ 0x0e ∷ 0x61 ∷ 0x73 ∷ 0x64 ∷ 0x66 ∷ 0x40 ∷ 0x61 ∷ 0x73 ∷ 0x64 ∷ 0x66
    ∷ 0x2e ∷ 0x63 ∷ 0x6f ∷ 0x6d ∷ 0x00 ∷ 0xc2 ∷ 0x1c ∷ 0xf3 ∷ 0x01 ∷ 0x09 ∷ 0x61 ∷ 0x73 ∷ 0x64
    ∷ 0x66 ∷ 0x61 ∷ 0x73 ∷ 0x64 ∷ 0x66 ∷ 0x00 ∷ 0xd2 ∷ 0xfa ∷ 0xee ∷ 0x01 ∷ 0x01 ∷ 0x00 ∷ 0xd3
    ∷ 0x9c ∷ 0x25 ∷ 0x00 ∷ 0x00 ∷ []

abbrev login_fields : Fields
login_fields = field (bytes_of "MAIL") (text (bytes_of "asdf@asdf.com")) (
    field (bytes_of "PASS") (text (bytes_of "asdfasdf"))
      (field (bytes_of "TOKN") (text []) (field (bytes_of "TYPE") (int64 0) no_fields)))

-- The captured payload decodes to the fields of the login, and they encode to the payload.
decode_login : decode_tdf login ≡ done login_fields 44
unfolding decode_tdf read_value get_type_by_id decode_varsize_integer slice set_field decode_tag
    unpack_tag
decode_login = refl

encode_login : encode_tdf login_fields ≡ some login
unfolding encode_tdf encode_struct encode_fields is_empty_collection sorted_keys encode_tag pack_tag
    encode_varsize_integer first_byte encode_rest
encode_login = refl

-- −1 as an int64.
abbrev minus_one : ℕ
minus_one = 2 ^ 64 - 1

decode-encode_varsize_example :
    decode_varsize_integer (encode_varsize_integer minus_one ++ 7 ∷ [])
    ≡ (minus_one, length (encode_varsize_integer minus_one))
decode-encode_varsize_example = decode-encode_varsize minus_one (7 ∷ []) (omega arith)

encode_varsize_shape_example :
    All IsByte (encode_varsize_integer minus_one)
    × (1 ≤ length (encode_varsize_integer minus_one))
    × (length (encode_varsize_integer minus_one) ≤ 10)
encode_varsize_shape_example = encode_varsize_shape minus_one (omega arith)

decode-encode_tag_example :
    decode_tag (encode_tag (bytes_of "Gid5x")) ≡ map upper (take 4 (bytes_of "Gid5x"))
decode-encode_tag_example = decode-encode_tag (bytes_of "Gid5x") (
  inl (omega arith, omega arith),
  (
    inr (omega arith, omega arith),
    (
      inr (omega arith, omega arith),
      (inl (omega arith, omega arith), (inr (omega arith, omega arith), tt)),
    ),
  ),
)

decode_tdf_bounds_example :
    (decode_tdf login ≢ stuck)
    × ((found : Fields) (n : ℕ) → decode_tdf login ≡ done found n → n ≤ length login)
decode_tdf_bounds_example = decode_tdf_bounds login (omega arith)
