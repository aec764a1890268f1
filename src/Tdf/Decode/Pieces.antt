-- ===== src/Tdf/Decode/Pieces.antt =====
-- The loops of Fire2Decoder.go over fields, elements and entries stay inside their buffer.
use hp_server.Prelude.{
  ℕ, zero, suc, ◌+◌, ◌≤◌, ◌<◌, ◌≡◌, true, false, List, [], ◌∷◌, ltb, ◌==◌, ◌&&◌, length, drop,
  length-drop, arith,
}
use hp_server.Tdf.Value.{
  Values, Fields, Entries, no_fields, is_hashable, set_field, set_entry, add_value, nil,
  armed_struct,
}
use hp_server.Tdf.Tag.{decode_tag}
use hp_server.Tdf.Decode.{
  done, Reader, first, read_struct, read_element, read_item, read_items, read_entries,
}
use hp_server.Tdf.Decode.Within.{Within, Within-continue, Within-if, Within-le}

-- The reader of the values inside is good on every buffer below `N`.
module _ (rec : Reader) (N : ℕ)
    (good : (typ : ℕ) (buf : List ℕ) → length buf < N → Within (length buf) (rec typ buf)) where
  read_struct-Within :
      (fuel : ℕ) (buf : List ℕ) (read : ℕ) (out : Fields)
      → length buf ≤ fuel
      → length buf ≤ N
      → Within (read + length buf) (read_struct rec fuel buf read out)
  unfolding read_struct
  read_struct-Within fuel [] read out hf hn = omega arith
  read_struct-Within zero (b ∷ buf) read out hf hn = absurd (omega arith)
  read_struct-Within (suc fuel) (b ∷ buf) read out hf hn =
      let limit = read + length (b ∷ buf) in
      Within-if limit (b == 0) _ _ (λ _. omega arith)
        λ _.
          Within-if limit (ltb (length (b ∷ buf)) 4) _ _ (λ _. tt)
            λ long.
              let enough : 3 ≤ length buf = ground arith in
              Within-continue (rec (first (drop 3 (b ∷ buf))) (drop 4 (b ∷ buf))) out _
                (length (drop 3 buf)) limit (good _ _ (omega (arith, length-drop 3 buf)))
                λ val n hn'.
                  Within-le
                    (read_struct rec fuel (drop n (drop 3 buf)) (read + 4 + n)
                      (set_field (decode_tag (b ∷ buf)) val out))
                    (read + 4 + n + length (drop n (drop 3 buf))) limit
                    (omega (arith, length-drop 3 buf, length-drop n (drop 3 buf)))
                    (read_struct-Within fuel (drop n (drop 3 buf)) (read + 4 + n)
                      (set_field (decode_tag (b ∷ buf)) val out)
                      (omega (arith, length-drop 3 buf, length-drop n (drop 3 buf)))
                      (omega (arith, length-drop 3 buf, length-drop n (drop 3 buf))))

  pub whole_struct-Within :
      (fuel : ℕ) (buf : List ℕ)
      → length buf ≤ fuel
      → length buf ≤ N
      → Within (length buf) (read_struct rec fuel buf 0 no_fields)
  whole_struct-Within fuel buf hf hn =
      Within-le (read_struct rec fuel buf 0 no_fields) (0 + length buf) (length buf) (omega arith)
        (read_struct-Within fuel buf 0 no_fields hf hn)

  pub read_element-Within :
      (buf : List ℕ) → length buf ≤ N → Within (length buf) (read_element rec buf)
  unfolding read_element
  read_element-Within buf hn =
      Within-if (length buf) (ltb (length buf) 4) _ _ (λ _. tt)
        λ long.
          let enough : 4 ≤ length buf = ground arith in
          Within-continue (rec (first (drop 3 buf)) (drop 4 buf)) _ _ (length (drop 4 buf))
            (length buf) (good _ _ (omega (arith, length-drop 4 buf)))
            λ val n hn'. omega (arith, length-drop 4 buf)

  read_item-Within :
      (typ : ℕ) (buf : List ℕ) → length buf < N → Within (length buf) (read_item rec typ buf)
  unfolding read_item
  read_item-Within typ [] hn =
      Within-if 0 _ _ _ (λ (h : ((typ == 3) && false) ≡ true). absurd (ground arith))
        (λ _. good typ [] hn)
  read_item-Within typ (b ∷ buf) hn =
      Within-if (length (b ∷ buf)) _ _ _
        (λ _.
          Within-continue (read_struct rec (length (b ∷ buf)) buf 0 no_fields) nil
            (λ fields n. done (armed_struct b fields) (1 + n)) (length buf) (length (b ∷ buf))
            (whole_struct-Within (length (b ∷ buf)) buf (omega arith) (omega arith))
            λ v n h. omega arith)
        (λ _. good typ (b ∷ buf) hn)

  pub read_items-Within :
      (count typ : ℕ) (buf : List ℕ) (off : ℕ) (items : Values)
      → length buf < N
      → Within (off + length buf) (read_items rec count typ buf off items)
  unfolding read_items
  read_items-Within zero typ buf off items hn = omega arith
  read_items-Within (suc count) typ buf off items hn =
      Within-continue (read_item rec typ buf) _ _ (length buf) _ (read_item-Within typ buf hn)
        λ v n h.
          Within-le (read_items rec count typ (drop n buf) (off + n) (add_value items v))
            (off + n + length (drop n buf)) (off + length buf) (omega (arith, length-drop n buf))
            (read_items-Within count typ (drop n buf) (off + n) (add_value items v)
              (omega (arith, length-drop n buf)))

  pub read_entries-Within :
      (count kt vt : ℕ) (buf : List ℕ) (off : ℕ) (es : Entries)
      → length buf < N
      → Within (off + length buf) (read_entries rec count kt vt buf off es)
  unfolding read_entries
  read_entries-Within zero kt vt buf off es hn = omega arith
  read_entries-Within (suc count) kt vt buf off es hn =
      Within-continue (rec kt buf) _ _ (length buf) _ (good kt buf hn) λ k n h.
        let buf' = drop n buf in
        let short : length (drop n buf) + n ≡ length buf = omega (arith, length-drop n buf) in
        Within-continue (rec vt buf') _ _ (length buf') _ (good vt buf' (omega arith)) λ v m h'.
          let short' : length (drop m (drop n buf)) + m ≡ length (drop n buf) =
            omega (arith, length-drop m (drop n buf)) in
          Within-if (off + length buf) (is_hashable k) _ _
            (λ _.
              Within-le
                (read_entries rec count kt vt (drop m buf') (off + n + m) (set_entry k v es))
                (off + n + m + length (drop m buf')) (off + length buf) (omega arith)
                (read_entries-Within count kt vt (drop m buf') (off + n + m) (set_entry k v es)
                  (omega arith)))
            (λ _. tt)
