-- ===== src/Tdf/Decode.antt =====
-- Fire2Decoder.go: `GetTypeByID`, `readValue`, `readStruct`, `readElement`, `DecodeTDF`. A buffer is
-- the list of the bytes that are left, so an offset is what has been dropped.
mod Within
mod Pieces
pub mod Bounds
use hp_server.Prelude.{
  ℕ, zero, suc, ◌+◌, ◌-◌, ◌*◌, ◌%◌, ◌^◌, Bool, Option, none, some, List, [], ◌∷◌, ltb, leb, slt,
  ◌==◌, ◌&&◌, ◌||◌, not, length, take, drop, if◌then◌else◌,
}
use hp_server.Tdf.Varint.{is_negative, decode_varsize_integer}
use hp_server.Tdf.Tag.{decode_tag}
use hp_server.Tdf.HeatType.{HeatType, get_type_by_id}
use hp_server.Tdf.Value.{
  Value, Values, Fields, Entries, nil, int64, text, blob, struct, armed_struct, list, mapping,
  float32, object_type, object_id, union, variable, no_values, no_fields, no_entries, set_field,
  set_entry, add_value, is_hashable,
}

-- What a read returns: the value and the bytes read; or -1, with the value that Go returns beside
-- it; or a panic. `stuck` is no result of Go: the fuel of the model ran out.
pub data Read {ℓ} (A : Type ℓ) : Type ℓ where
  done : A → ℕ → Read A
  bad : A → Read A
  panic : Read A
  stuck : Read A

-- The value of an outcome in the caller's terms: `done` goes on, and -1 makes the caller return -1.
abbrev pub continue {ℓ κ} : {A : Type ℓ} {B : Type κ} → Read A → B → (A → ℕ → Read B) → Read B
continue (done a n) d f = f a n
continue (bad a) d f = bad d
continue panic d f = panic
continue stuck d f = stuck

-- `make([]T, n)` and `make([]T, 0, n)` panic on a negative size and past 2 ^ 48 bytes (64 bit).
abbrev pub too_large : ℕ → ℕ → Bool
too_large size n = is_negative n || ltb (2 ^ 48) (size * n)

-- `buf[lo:hi]`, where a negative index is a huge pattern.
unfoldable pub slice : ℕ → ℕ → List ℕ → Option (List ℕ)
slice lo hi buf =
    if leb lo hi && leb hi (length buf) then some (take (hi - lo) (drop lo buf)) else none

abbrev pub big_endian32 : List ℕ → ℕ
big_endian32 (a ∷ b ∷ c ∷ d ∷ _) = a * 2 ^ 24 + b * 2 ^ 16 + c * 2 ^ 8 + d
big_endian32 _ = 0

-- The readers below take the reader of the values inside, which gets the type and the buffer.
abbrev pub Reader : Type 0
Reader = ℕ → List ℕ → Read Value

abbrev pub first : List ℕ → ℕ
first [] = 0
first (b ∷ _) = b

-- The reader's answer for a struct is a value, also beside -1.
abbrev pub continue_struct : Read Fields → Read Value
continue_struct (done fields n) = done (struct fields) n
continue_struct (bad fields) = bad (struct fields)
continue_struct panic = panic
continue_struct stuck = stuck

-- `int(count)` rounds: none of a negative count.
abbrev pub rounds : ℕ → ℕ
rounds count = if is_negative count then 0 else count

abbrev pub read_string : List ℕ → Read Value
read_string buf =
    let (length64, bytes_read) = decode_varsize_integer buf in
    let end = (bytes_read + length64) % 2 ^ 64 in
    if slt length64 1 || slt (length buf) end
    then bad nil
    else elim (slice bytes_read ((end + 2 ^ 64 - 1) % 2 ^ 64) buf) [
      | none ↦ panic
      | some s ↦ done (text s) end
    ]

abbrev pub read_blob : List ℕ → Read Value
read_blob buf =
    let (length64, bytes_read) = decode_varsize_integer buf in
    let end = (bytes_read + length64) % 2 ^ 64 in
    if slt (length buf) end
    then bad nil
    else if too_large 1 length64
    then panic
    else elim (slice bytes_read end buf) [ none ↦ panic | some s ↦ done (blob s) end ]

abbrev pub read_float : List ℕ → Read Value
read_float buf = if ltb (length buf) 4 then bad nil else done (float32 (big_endian32 buf)) 4

abbrev pub read_object_type : List ℕ → Read Value
read_object_type buf =
    let (component, bytes_read1) = decode_varsize_integer buf in
    let (c_type, bytes_read2) = decode_varsize_integer (drop bytes_read1 buf) in
    done (object_type (component % 2 ^ 16) (c_type % 2 ^ 16)) (bytes_read1 + bytes_read2)

abbrev pub read_object_id : List ℕ → Read Value
read_object_id buf =
    let (component, bytes_read1) = decode_varsize_integer buf in
    let (c_type, bytes_read2) = decode_varsize_integer (drop bytes_read1 buf) in
    let (id, bytes_read3) = decode_varsize_integer (drop (bytes_read1 + bytes_read2) buf) in
    done (object_id (component % 2 ^ 16) (c_type % 2 ^ 16) id)
      (bytes_read1 + bytes_read2 + bytes_read3)

-- The variable's own terminator is skipped when it is there.
abbrev pub skip_terminator : List ℕ → ℕ
skip_terminator buf = if ltb 0 (length buf) && (first buf == 0x00) then 1 else 0

module _ (read_value : Reader) where
  -- `readStruct`. The fuel bounds the rounds of its loop; each takes a byte at least.
  unfoldable pub read_struct : ℕ → List ℕ → ℕ → Fields → Read Fields
  read_struct fuel [] read out = done out read
  read_struct zero (b ∷ buf) read out = stuck
  read_struct (suc fuel) (b ∷ buf) read out =
      let rest = drop 4 (b ∷ buf) in
      let typ = first (drop 3 (b ∷ buf)) in
      let tag = decode_tag (b ∷ buf) in
      let next = continue (read_value typ rest) out λ val bytes_read.
        read_struct fuel (drop bytes_read rest) (read + 4 + bytes_read) (set_field tag val out) in
      if b == 0 then done out (read + 1) else if ltb (length (b ∷ buf)) 4 then bad out else next

  -- `readElement`: the tag and the value.
  unfoldable pub read_element : List ℕ → Read (List ℕ × Value)
  read_element buf =
      if ltb (length buf) 4
      then bad ([], nil)
      else continue (read_value (first (drop 3 buf)) (drop 4 buf)) ([], nil)
          λ value bytes_read. done (decode_tag buf, value) (4 + bytes_read)

  -- An element of a list: a struct behind a byte below 0x80 is an `ArmedStruct`.
  unfoldable pub read_item : ℕ → List ℕ → Read Value
  read_item elem_type buf =
      if (elem_type == 3) && (ltb 0 (length buf) && (not (first buf == 0) && ltb (first buf) 0x80))
      then (continue (read_struct (length buf) (drop 1 buf) 0 no_fields) nil
          λ fields struct_bytes. done (armed_struct (first buf) fields) (1 + struct_bytes))
      else read_value elem_type buf

  -- `for i := 0; i < int(count); i++`, on the buffer at `off`.
  unfoldable pub read_items : ℕ → ℕ → List ℕ → ℕ → Values → Read Value
  unfolding read_item
  read_items zero elem_type buf off items = done (list items) off
  read_items (suc count) elem_type buf off items =
      continue (read_item elem_type buf) nil λ value bytes_read.
        read_items count elem_type (drop bytes_read buf) (off + bytes_read) (add_value items value)

  -- A key that cannot be hashed panics when it is stored.
  unfoldable pub read_entries : ℕ → ℕ → ℕ → List ℕ → ℕ → Entries → Read Value
  read_entries zero key_type val_type buf off entries = done (mapping entries) off
  read_entries (suc count) key_type val_type buf off entries =
      continue (read_value key_type buf) nil λ value1 bytes_read2.
        let buf' = drop bytes_read2 buf in
        continue (read_value val_type buf') nil λ value2 bytes_read3.
          let next =
            read_entries count key_type val_type (drop bytes_read3 buf')
              (off + bytes_read2 + bytes_read3) (set_entry value1 value2 entries) in
          if is_hashable value1 then next else panic

  abbrev pub read_list : List ℕ → Read Value
  read_list [] = bad nil
  read_list (elem_type ∷ buf) =
      let (count, bytes_read) = decode_varsize_integer buf in
      let items = read_items count elem_type (drop bytes_read buf) (1 + bytes_read) no_values in
      if too_large 16 count then panic else items

  abbrev pub read_map : List ℕ → Read Value
  read_map (key_type ∷ val_type ∷ buf) =
      let (count, bytes_read) = decode_varsize_integer buf in
      read_entries (rounds count) key_type val_type (drop bytes_read buf) (2 + bytes_read)
        no_entries
  read_map _ = bad nil

  abbrev pub read_union : List ℕ → Read Value
  read_union [] = bad nil
  read_union (active ∷ buf) =
      let member =
        continue (read_element buf) nil
          λ (tag, value) bytes_read. done (union active tag value) (1 + bytes_read) in
      if (active == 0xff) || (active == 0x7f) then done (union active [] nil) 1 else member

  abbrev pub read_variable : List ℕ → Read Value
  read_variable [] = bad nil
  read_variable (present ∷ buf) =
      let (tdf_id, bytes_read) = decode_varsize_integer buf in
      let rest = drop bytes_read buf in
      let element = continue (read_element rest) nil λ (tag, value) bytes_read2.
        done (variable (tdf_id % 2 ^ 32) tag value)
          (1 + bytes_read + bytes_read2 + skip_terminator (drop bytes_read2 rest)) in
      if present == 0 then done (variable 0 [] nil) 1 else element

  unfoldable pub read_typed : HeatType → List ℕ → Read Value
  read_typed HeatType.integer buf =
      let (value, num_read) = decode_varsize_integer buf in done (int64 value) num_read
  read_typed HeatType.string buf = read_string buf
  read_typed HeatType.tdf buf = continue_struct (read_struct (length buf) buf 0 no_fields)
  read_typed HeatType.list buf = read_list buf
  read_typed HeatType.map buf = read_map buf
  read_typed HeatType.blob buf = read_blob buf
  read_typed HeatType.float buf = read_float buf
  read_typed HeatType.time_value buf =
      let (value, num_read) = decode_varsize_integer buf in done (int64 value) num_read
  read_typed HeatType.object_type buf = read_object_type buf
  read_typed HeatType.object_id buf = read_object_id buf
  read_typed HeatType.union buf = read_union buf
  read_typed HeatType.variable buf = read_variable buf
  read_typed HeatType.generic_type buf = read_variable buf
  read_typed HeatType.invalid buf = bad nil

-- `readValue`. A value inside another stands behind a byte of it at least, so the length of the
-- buffer bounds the depth.
unfoldable pub read_value : ℕ → Reader
unfolding read_typed
read_value zero typ buf = stuck
read_value (suc depth) typ buf = read_typed (read_value depth) (get_type_by_id typ) buf

unfoldable pub decode_tdf : List ℕ → Read Fields
unfolding read_struct
decode_tdf buffer =
    read_struct (read_value (suc (length buffer))) (length buffer) buffer 0 no_fields
