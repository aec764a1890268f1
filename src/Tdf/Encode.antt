-- ===== src/Tdf/Encode.antt =====
-- Fire2Encoder.go: `encodeStruct`, `encodeValue`, `typeByte`, `leafType`, `BuildMetadata`,
-- `EncodeTDF`, `isEmptyCollection`. `none` is a panic.
use hp_server.Prelude.{
  ℕ, zero, suc, ◌+◌, ◌/◌, ◌%◌, ◌^◌, Bool, true, false, Option, none, some, List, [], ◌∷◌, ◌++◌, ltb,
  ◌==◌, ◌||◌, length, bytes_of, if◌then◌else◌, ◌>>=◌,
}
use hp_server.Tdf.Varint.{is_negative, magnitude, encode_varsize_integer}
use hp_server.Tdf.Tag.{encode_tag}
use hp_server.Tdf.Value.{
  Value, Values, Fields, Entries, nil, int64, boolean, text, blob, struct, armed_struct, list,
  typed_list, mapping, float32, object_type, object_id, union, variable, no_values, value,
  no_fields, field, no_entries, entry, count_values, count_entries,
}
use hp_server.Tdf.Sort.{sorted_keys}

unfoldable pub type_byte : Value → ℕ
type_byte (int64 _) = 0
type_byte (boolean _) = 0
type_byte (text _) = 1
type_byte (blob _) = 2
type_byte (struct _) = 3
type_byte (armed_struct _ _) = 3
type_byte (list _) = 4
type_byte (typed_list _ _) = 4
type_byte (mapping _) = 5
type_byte (union _ _ _) = 6
type_byte (variable _ _ _) = 7
type_byte (object_type _ _) = 8
type_byte (object_id _ _ _) = 9
type_byte (float32 _) = 10
type_byte nil = 0xff

-- `for _, v := range x { return leafType(v) }` looks at one entry, which Go leaves open; here it is
-- the first.
unfoldable pub leaf_type : Value → ℕ
unfolding type_byte
leaf_type (list no_values) = 3
leaf_type (list (value v rest)) = leaf_type v
leaf_type (mapping no_entries) = 3
leaf_type (mapping (entry k v rest)) = leaf_type v
leaf_type v = type_byte v

unfoldable pub is_empty_collection : Value → Bool
is_empty_collection (list x) = count_values x == 0
is_empty_collection (mapping x) = count_entries x == 0
is_empty_collection _ = false

-- `%d`. Twenty digits hold every uint64.
unfoldable pub decimal : ℕ → ℕ → List ℕ → List ℕ
decimal zero n digits = digits
decimal (suc fuel) n digits =
    let more = decimal fuel (n / 10) ((48 + n % 10) ∷ digits) in
    if ltb n 10 then (48 + n) ∷ digits else more

unfoldable pub print_int64 : ℕ → List ℕ
unfolding decimal
print_int64 v =
    let digits = decimal 20 (magnitude v) [] in if is_negative v then b'-' ∷ digits else digits

-- `fmt.Sprintf("%v", key)`, by which map keys are sorted. The text of a float32 is not modelled.
unfoldable pub sprint : Value → List ℕ
unfolding decimal print_int64
sprint (int64 v) = print_int64 v
sprint (boolean b) = if b then bytes_of "true" else bytes_of "false"
sprint (text s) = s
sprint (object_type c t) = b'{' ∷ decimal 20 c (b' ' ∷ decimal 20 t (b'}' ∷ []))
sprint (object_id c t i) =
    b'{' ∷ decimal 20 c (b' ' ∷ decimal 20 t (b' ' ∷ (print_int64 i ++ (b'}' ∷ []))))
sprint (union a f v) = b'{' ∷ decimal 20 a (b' ' ∷ (f ++ (b' ' ∷ (sprint v ++ (b'}' ∷ [])))))
sprint (variable a f v) = b'{' ∷ decimal 20 a (b' ' ∷ (f ++ (b' ' ∷ (sprint v ++ (b'}' ∷ [])))))
sprint nil = bytes_of "<nil>"
sprint _ = []

-- The bytes of the fields in the order of their tags.
unfoldable pub join_bodies {ℓ} : {A : Type ℓ} → List (A × List ℕ) → List ℕ
join_bodies [] = []
join_bodies ((k, body) ∷ rest) = body ++ join_bodies rest

abbrev pub terminator : Bool → List ℕ
terminator root = if root then [] else 0x00 ∷ []

-- The body of a list from the type and the body of each element: `x[0]` panics on an empty list.
unfoldable pub list_body : ℕ → List (ℕ × List ℕ) → Option (ℕ × List ℕ)
unfolding join_bodies
list_body n [] = none
list_body n ((elem_type, body) ∷ rest) =
    some (4, elem_type ∷ (encode_varsize_integer n ++ (body ++ join_bodies rest)))

-- The bytes of the entries in the order of their keys.
unfoldable pub join_entries : List (List ℕ × ((ℕ × ℕ) × List ℕ)) → List ℕ
join_entries [] = []
join_entries ((k, (types, body)) ∷ rest) = body ++ join_entries rest

-- The body of a map from its sorted entries: `keys[0]` panics on an empty map.
unfoldable pub map_body : ℕ → List (List ℕ × ((ℕ × ℕ) × List ℕ)) → Option (ℕ × List ℕ)
unfolding join_entries
map_body n [] = none
map_body n ((k, ((key_type, val_type), body)) ∷ rest) =
    some (5, key_type ∷ val_type ∷ (encode_varsize_integer n ++ (body ++ join_entries rest)))

unfoldable mutual
  pub encode_value : Value → Option (ℕ × List ℕ)
  encode_value nil = some (0xff, [])
  encode_value (int64 x) = some (0, encode_varsize_integer x)
  encode_value (boolean x) = some (0, encode_varsize_integer (if x then 1 else 0))
  encode_value (text x) = some (1, encode_varsize_integer (length x + 1) ++ (x ++ (0x00 ∷ [])))
  encode_value (blob x) = some (2, encode_varsize_integer (length x) ++ x)
  encode_value (struct x) = do
    fields ← encode_fields x
    some (3, join_bodies (sorted_keys fields) ++ terminator false)
  encode_value (armed_struct arm x) = do
    fields ← encode_fields x
    some (3, arm ∷ (join_bodies (sorted_keys fields) ++ terminator false))
  encode_value (list x) = do items ← encode_items x; list_body (count_values x) items
  encode_value (typed_list elem_type x) = do
    items ← encode_items x
    some (4, elem_type ∷ (encode_varsize_integer (count_values x) ++ join_bodies items))
  encode_value (mapping x) = do
    entries ← encode_entries x
    map_body (count_entries x) (sorted_keys entries)
  encode_value (float32 bits) =
      some (10, bits / 2 ^ 24 % 256 ∷ bits / 2 ^ 16 % 256 ∷ bits / 2 ^ 8 % 256 ∷ bits % 256 ∷ [])
  encode_value (object_type c t) = some (8, encode_varsize_integer c ++ encode_varsize_integer t)
  encode_value (object_id c t i) =
      some (9, encode_varsize_integer c ++ (encode_varsize_integer t ++ encode_varsize_integer i))
  encode_value (union active tag x) =
      let member = (do
        (typ, body) ← encode_value x
        some (6, active ∷ (encode_tag tag ++ (typ ∷ body)))) in
      if (active == 0xff) || (active == 0x7f) then some (6, active ∷ []) else member
  encode_value (variable id tag nil) = some (7, 0x00 ∷ [])
  encode_value (variable id tag x) = do
    (typ, body) ← encode_value x
    some
        (7, 0x01 ∷ (encode_varsize_integer id ++ (encode_tag tag ++ (typ ∷ (body ++ (0x00 ∷ []))))))

  -- The type and the body of each element.
  pub encode_items : Values → Option (List (ℕ × List ℕ))
  encode_items no_values = some []
  encode_items (value v rest) = do
    item ← encode_value v
    items ← encode_items rest
    some (item ∷ items)

  -- The bytes of each field that is written, with its tag. Empty collections are left out.
  pub encode_fields : Fields → Option (List (List ℕ × List ℕ))
  encode_fields no_fields = some []
  encode_fields (field tag v rest) =
      let written = (do
        (typ, body) ← encode_value v
        fields ← encode_fields rest
        some ((tag, encode_tag tag ++ (typ ∷ body)) ∷ fields)) in
      let left_out = encode_fields rest in if is_empty_collection v then left_out else written

  -- The text of each key, with the types and the bytes of its entry.
  pub encode_entries : Entries → Option (List (List ℕ × ((ℕ × ℕ) × List ℕ)))
  encode_entries no_entries = some []
  encode_entries (entry k v rest) = do
    (key_type, key_body) ← encode_value k
    (val_type, val_body) ← encode_value v
    entries ← encode_entries rest
    some ((sprint k, ((key_type, leaf_type v), key_body ++ val_body)) ∷ entries)

unfoldable pub encode_struct : Fields → Bool → Option (List ℕ)
unfolding join_bodies
encode_struct fields root = do
  written ← encode_fields fields
  some (join_bodies (sorted_keys written) ++ terminator root)

unfoldable pub encode_tdf : Fields → Option (List ℕ)
encode_tdf fields = encode_struct fields true

unfoldable pub build_metadata : ℕ → ℕ → List ℕ
build_metadata cntx errc =
    encode_tag (bytes_of "CNTX")
    ++ (0
        ∷ (encode_varsize_integer cntx
            ++ (encode_tag (bytes_of "ERRC") ++ (0 ∷ encode_varsize_integer errc))))
