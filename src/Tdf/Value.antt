-- ===== src/Tdf/Value.antt =====
-- The dynamic values of the codec (Fire2Types.go and the cases of `encodeValue`). An `interface{}`
-- is a `Value`, and `nil` is the empty one. Integers are bit patterns: an int64 below 2 ^ 64, a
-- uint16 below 2 ^ 16, a uint8 below 2 ^ 8; a float32 is its IEEE bits. A Go map is the list of its
-- entries, with a nil map as the empty one; the order of entries is not observable.
use hp_server.Prelude.{
  ℕ, suc, ◌*◌, ◌%◌, ◌^◌, Bool, true, false, Option, none, some, List, [], ◌∷◌, String, bytes_of,
  ◌&&◌, ◌||◌, not, ◌==◌, ltb, text_eq, if◌then◌else◌,
}

mutual
  pub data Value : Type 0 where
    nil : Value
    int64 : ℕ → Value
    boolean : Bool → Value
    text : List ℕ → Value
    blob : List ℕ → Value
    struct : Fields → Value
    armed_struct : ℕ → Fields → Value
    list : Values → Value
    typed_list : ℕ → Values → Value
    mapping : Entries → Value
    float32 : ℕ → Value
    object_type : ℕ → ℕ → Value
    object_id : ℕ → ℕ → ℕ → Value
    union : ℕ → List ℕ → Value → Value
    variable : ℕ → List ℕ → Value → Value

  -- `[]interface{}`
  pub data Values : Type 0 where
    no_values : Values
    value : Value → Values → Values

  -- `map[string]interface{}`
  pub data Fields : Type 0 where
    no_fields : Fields
    field : List ℕ → Value → Fields → Fields

  -- `map[interface{}]interface{}`
  pub data Entries : Type 0 where
    no_entries : Entries
    entry : Value → Value → Entries → Entries

unfoldable pub get_field : List ℕ → Fields → Option Value
get_field tag no_fields = none
get_field tag (field t v rest) = if text_eq t tag then some v else get_field tag rest

-- `fields[tag] = v`
unfoldable pub set_field : List ℕ → Value → Fields → Fields
set_field tag v no_fields = field tag v no_fields
set_field tag v (field t w rest) =
    if text_eq t tag then field t v rest else field t w (set_field tag v rest)

-- `append(list, v)`
unfoldable pub add_value : Values → Value → Values
add_value no_values v = value v no_values
add_value (value w rest) v = value w (add_value rest v)

unfoldable pub count_values : Values → ℕ
count_values no_values = 0
count_values (value v rest) = suc (count_values rest)

unfoldable pub count_entries : Entries → ℕ
count_entries no_entries = 0
count_entries (entry k v rest) = suc (count_entries rest)

-- `==` on float32 bits: a NaN differs from itself, and the two zeros are equal.
abbrev is_nan : ℕ → Bool
is_nan bits = ltb (255 * 2 ^ 23) (bits % 2 ^ 31)

abbrev float_eq : ℕ → ℕ → Bool
float_eq a b = not (is_nan a) && ((a == b) || ((a % 2 ^ 31 == 0) && (b % 2 ^ 31 == 0)))

-- The first field that differs decides a comparison of structs, and one that cannot be compared
-- panics.
abbrev and_then : Bool → Option Bool → Option Bool
and_then false r = some false
and_then true r = r

-- `==` between two interface values. `none` is the panic of comparing two values of one type that
-- has no equality.
unfoldable pub equal_values : Value → Value → Option Bool
equal_values nil nil = some true
equal_values (int64 a) (int64 b) = some (a == b)
equal_values (boolean true) (boolean b) = some b
equal_values (boolean false) (boolean b) = some (not b)
equal_values (text a) (text b) = some (text_eq a b)
equal_values (float32 a) (float32 b) = some (float_eq a b)
equal_values (object_type a b) (object_type c d) = some ((a == c) && (b == d))
equal_values (object_id a b i) (object_id c d j) = some ((a == c) && ((b == d) && (i == j)))
equal_values (union a f v) (union b g w) =
    let inner = equal_values v w in and_then ((a == b) && text_eq f g) inner
equal_values (variable a f v) (variable b g w) =
    let inner = equal_values v w in and_then ((a == b) && text_eq f g) inner
equal_values (blob a) (blob b) = none
equal_values (struct a) (struct b) = none
equal_values (armed_struct a x) (armed_struct b y) = none
equal_values (list a) (list b) = none
equal_values (typed_list a x) (typed_list b y) = none
equal_values (mapping a) (mapping b) = none
equal_values _ _ = some false

-- A key of these types makes a map operation panic.
unfoldable pub is_hashable : Value → Bool
is_hashable (blob a) = false
is_hashable (struct a) = false
is_hashable (armed_struct a x) = false
is_hashable (list a) = false
is_hashable (typed_list a x) = false
is_hashable (mapping a) = false
is_hashable (union a f v) = is_hashable v
is_hashable (variable a f v) = is_hashable v
is_hashable _ = true

abbrev pub same_key : Value → Value → Bool
same_key a b = elim (equal_values a b) [ none ↦ false | some e ↦ e ]

-- `m[k]` for a hashable key.
unfoldable pub get_entry : Value → Entries → Option Value
get_entry k no_entries = none
get_entry k (entry j v rest) = if same_key j k then some v else get_entry k rest

-- `m[k] = v` for a hashable key.
unfoldable pub set_entry : Value → Value → Entries → Entries
set_entry k v no_entries = entry k v no_entries
set_entry k v (entry j w rest) =
    if same_key j k then entry j v rest else entry j w (set_entry k v rest)

-- A map literal with the tags as texts.
abbrev pub fields_of : List (String × Value) → Fields
fields_of [] = no_fields
fields_of ((tag, v) ∷ rest) = field (bytes_of tag) v (fields_of rest)

abbrev pub values_of : List Value → Values
values_of [] = no_values
values_of (v ∷ rest) = value v (values_of rest)

-- `v, _ := fields[tag].(T)`: the zero value where the tag is missing or holds another type.
abbrev pub int_field : String → Fields → ℕ
int_field tag x = elim (get_field (bytes_of tag) x) [ some (int64 v) ↦ v | _ ↦ 0 ]

abbrev pub mapping_field : String → Fields → Entries
mapping_field tag x = elim (get_field (bytes_of tag) x) [ some (mapping s) ↦ s | _ ↦ no_entries ]

abbrev pub list_field : String → Fields → Values
list_field tag x = elim (get_field (bytes_of tag) x) [ some (list s) ↦ s | _ ↦ no_values ]

abbrev pub text_field : String → Fields → List ℕ
text_field tag x = elim (get_field (bytes_of tag) x) [ some (text s) ↦ s | _ ↦ [] ]

-- `map[interface{}]interface{}{"…": …}`
abbrev pub entries_of : List (String × Value) → Entries
entries_of [] = no_entries
entries_of ((key, v) ∷ rest) = entry (text (bytes_of key)) v (entries_of rest)
