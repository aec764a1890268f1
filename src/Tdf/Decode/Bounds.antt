-- ===== src/Tdf/Decode/Bounds.antt =====
-- The reader stays inside its buffer, and its depth bound is never reached.
use hp_server.Prelude.{
  ℕ, zero, suc, ◌+◌, ◌-◌, ◌%◌, ◌^◌, ◌≤◌, ◌<◌, ◌≡◌, ◌≢◌, List, [], ◌∷◌, ltb, slt, ◌==◌, ◌||◌, length,
  drop, length-drop, arith,
}
use hp_server.Tdf.Varint.{decode_varsize_integer}
use hp_server.Tdf.Varint.Bounds.{decode_varsize_takes}
use hp_server.Tdf.HeatType.{HeatType, get_type_by_id}
use hp_server.Tdf.Value.{Fields, no_fields, text, blob, no_values, no_entries}
use hp_server.Tdf.Decode.{
  done, stuck, Reader, read_struct, read_element, read_items, read_entries, read_typed, read_value,
  decode_tdf, read_list, read_map, read_union, read_variable, rounds, too_large,
}
use hp_server.Tdf.Decode.Within.{
  Within, Within-continue, Within-if, Within-le, slice-Within, continue_struct-Within,
  skip_terminator-le, string_end, Within-ne-stuck, Within-le_done,
}
use hp_server.Tdf.Decode.Pieces.{
  whole_struct-Within, read_element-Within, read_items-Within, read_entries-Within,
}

-- The reader of the values inside is good on every buffer below `N`.
module _ (rec : Reader) (N : ℕ) (small : N < 2 ^ 63 - 1)
    (good : (typ : ℕ) (buf : List ℕ) → length buf < N → Within (length buf) (rec typ buf)) where
  read_list-Within : (buf : List ℕ) → length buf ≤ N → Within (length buf) (read_list rec buf)
  read_list-Within [] hn = tt
  read_list-Within (elem_type ∷ buf) hn =
      let count = (decode_varsize_integer buf).0 in
      let start = (decode_varsize_integer buf).1 in
      let short : length (drop start buf) + start ≡ length buf =
        omega (arith, length-drop start buf, decode_varsize_takes buf) in
      Within-if (length (elem_type ∷ buf)) (too_large 16 count) _ _ (λ _. tt)
        λ _.
          Within-le (read_items rec count elem_type (drop start buf) (1 + start) no_values)
            (1 + start + length (drop start buf)) (length (elem_type ∷ buf)) (omega arith)
            (read_items-Within rec N good count elem_type (drop start buf) (1 + start) no_values
              (omega arith))

  read_map-Within : (buf : List ℕ) → length buf ≤ N → Within (length buf) (read_map rec buf)
  read_map-Within [] hn = tt
  read_map-Within (kt ∷ []) hn = tt
  read_map-Within (kt ∷ vt ∷ buf) hn =
      let count = rounds (decode_varsize_integer buf).0 in
      let start = (decode_varsize_integer buf).1 in
      let short : length (drop start buf) + start ≡ length buf =
        omega (arith, length-drop start buf, decode_varsize_takes buf) in
      Within-le (read_entries rec count kt vt (drop start buf) (2 + start) no_entries)
        (2 + start + length (drop start buf)) (length (kt ∷ vt ∷ buf)) (omega arith)
        (read_entries-Within rec N good count kt vt (drop start buf) (2 + start) no_entries
          (omega arith))

  read_union-Within : (buf : List ℕ) → length buf ≤ N → Within (length buf) (read_union rec buf)
  read_union-Within [] hn = tt
  read_union-Within (active ∷ buf) hn =
      Within-if (length (active ∷ buf)) ((active == 0xff) || (active == 0x7f)) _ _
        (λ _. omega arith)
        λ _.
          Within-continue (read_element rec buf) _ _ (length buf) _
            (read_element-Within rec N good buf (omega arith)) λ v n h. omega arith

  read_variable-Within :
      (buf : List ℕ) → length buf ≤ N → Within (length buf) (read_variable rec buf)
  read_variable-Within [] hn = tt
  read_variable-Within (present ∷ buf) hn =
      let start = (decode_varsize_integer buf).1 in
      let rest = drop start buf in
      let short : length (drop start buf) + start ≡ length buf =
        omega (arith, length-drop start buf, decode_varsize_takes buf) in
      Within-if (length (present ∷ buf)) (present == 0) _ _ (λ _. omega arith)
        λ _.
          Within-continue (read_element rec rest) _ _ (length rest) _
            (read_element-Within rec N good rest (omega arith))
            λ v n h. omega (arith, skip_terminator-le (drop n rest), length-drop n (drop start buf))

  read_typed-Within :
      (t : HeatType) (buf : List ℕ) → length buf ≤ N → Within (length buf) (read_typed rec t buf)
  unfolding read_typed
  read_typed-Within HeatType.integer buf hn = omega (arith, decode_varsize_takes buf)
  read_typed-Within HeatType.string buf hn =
      let size = (decode_varsize_integer buf).0 in
      let start = (decode_varsize_integer buf).1 in
      let end = (start + size) % 2 ^ 64 in
      Within-if (length buf) (slt size 1 || slt (length buf) end) _ _ (λ _. tt)
        λ fits.
          slice-Within start ((end + 2 ^ 64 - 1) % 2 ^ 64) end buf text
            (λ h. string_end size (length buf) end (omega arith) (omega arith) fits h)
  read_typed-Within HeatType.tdf buf hn =
      continue_struct-Within (read_struct rec (length buf) buf 0 no_fields) (length buf)
        (whole_struct-Within rec N good (length buf) buf (omega arith) hn)
  read_typed-Within HeatType.list buf hn = read_list-Within buf hn
  read_typed-Within HeatType.map buf hn = read_map-Within buf hn
  read_typed-Within HeatType.blob buf hn =
      let size = (decode_varsize_integer buf).0 in
      let start = (decode_varsize_integer buf).1 in
      let end = (start + size) % 2 ^ 64 in
      Within-if (length buf) (slt (length buf) end) _ _ (λ _. tt)
        λ _.
          Within-if (length buf) (too_large 1 size) _ _ (λ _. tt)
            λ _. slice-Within start end end buf blob (λ h. h)
  read_typed-Within HeatType.float buf hn =
      Within-if (length buf) (ltb (length buf) 4) _ _ (λ _. tt) λ h. ground arith
  read_typed-Within HeatType.time_value buf hn = omega (arith, decode_varsize_takes buf)
  read_typed-Within HeatType.object_type buf hn =
      let start = (decode_varsize_integer buf).1 in
      omega (
        arith,
        decode_varsize_takes buf,
        decode_varsize_takes (drop start buf),
        length-drop start buf,
      )
  read_typed-Within HeatType.object_id buf hn =
      let n1 = (decode_varsize_integer buf).1 in
      let n2 = (decode_varsize_integer (drop n1 buf)).1 in
      omega (
        arith,
        decode_varsize_takes buf,
        decode_varsize_takes (drop n1 buf),
        decode_varsize_takes (drop (n1 + n2) buf),
        length-drop n1 buf,
        length-drop (n1 + n2) buf,
      )
  read_typed-Within HeatType.union buf hn = read_union-Within buf hn
  read_typed-Within HeatType.variable buf hn = read_variable-Within buf hn
  read_typed-Within HeatType.generic_type buf hn = read_variable-Within buf hn
  read_typed-Within HeatType.invalid buf hn = tt

-- A value in `buf` needs less depth than `buf` has bytes.
pub read_value-Within :
    (depth typ : ℕ) (buf : List ℕ)
    → depth < 2 ^ 63
    → length buf < depth
    → Within (length buf) (read_value depth typ buf)
unfolding read_value
read_value-Within zero typ buf hd h = absurd (omega arith)
read_value-Within (suc depth) typ buf hd h =
    read_typed-Within (read_value depth) depth (omega arith)
      (λ typ' buf' h'. read_value-Within depth typ' buf' (omega arith) h') (get_type_by_id typ) buf
      (omega arith)

-- On any buffer whose length an int can hold, `DecodeTDF` ends within the model's bounds on rounds
-- and depth, and where it succeeds it has read at most the buffer.
pub decode_tdf_bounds :
    (buffer : List ℕ)
    → length buffer < 2 ^ 63 - 1
    → (decode_tdf buffer ≢ stuck)
      × ((fields : Fields) (n : ℕ) → decode_tdf buffer ≡ done fields n → n ≤ length buffer)
unfolding decode_tdf
decode_tdf_bounds buffer h =
    (Within-ne-stuck (length buffer) whole, Within-le_done (length buffer) whole)
  where
    whole : Within (length buffer) (decode_tdf buffer)
    whole =
        whole_struct-Within (read_value (suc (length buffer))) (length buffer)
          (λ typ buf hb.
            read_value-Within (suc (length buffer)) typ buf (omega arith) (omega arith))
          (length buffer) buffer (omega arith) (omega arith)
