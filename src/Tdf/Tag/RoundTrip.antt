-- ===== src/Tdf/Tag/RoundTrip.antt =====
-- A packed tag reads back as the tag in upper case.
use hp_server.Prelude.{
  ℕ, zero, suc, ◌+◌, ◌*◌, ◌/◌, ◌%◌, ◌^◌, ◌≤◌, ◌<◌, ◌≡◌, ◌⊎◌, ap, ◌∙◌, bit_or, List, [], ◌∷◌, map,
  All, arith, take, false, ◌==◌, if◌then◌else◌,
}
use hp_server.Prelude.Bits.{bit_or_below, bit_or_above}
use hp_server.Tdf.Tag.{upper, six_bits, pack_tag, encode_tag, unpack_tag, decode_tag}

-- The characters that six bits can tell apart: 0x21 to 0x5f, and the lower case letters.
abbrev pub IsTagChar : ℕ → Type 0
IsTagChar c = ((0x21 ≤ c) × (c ≤ 0x5f)) ⊎ ((b'a' ≤ c) × (c ≤ b'z'))

six_bits_char :
    (c : ℕ) → IsTagChar c → (0 < six_bits c) × (six_bits c + 32 ≡ upper c) × (six_bits c < 64)
six_bits_char c h = ground arith

-- The packed word of four groups, and the three bytes and the 24 bits of it.
abbrev word : ℕ → ℕ → ℕ → ℕ → ℕ
word s0 s1 s2 s3 = s0 * 2 ^ 26 + s1 * 2 ^ 20 + s2 * 2 ^ 14 + s3 * 2 ^ 8

abbrev low_word : ℕ → ℕ → ℕ → ℕ → ℕ
low_word s0 s1 s2 s3 = s0 * 2 ^ 18 + s1 * 2 ^ 12 + s2 * 2 ^ 6 + s3

join_bytes :
    (p : ℕ)
    → p < 2 ^ 32
    → bit_or (bit_or (p / 2 ^ 24 % 256 * 2 ^ 16) (p / 2 ^ 16 % 256 * 2 ^ 8)) (p / 2 ^ 8 % 256)
      ≡ p / 256
join_bytes p h =
    let b0 = p / 2 ^ 24 % 256 in
    let b1 = p / 2 ^ 16 % 256 in
    ap (λ (t : ℕ). bit_or t (p / 2 ^ 8 % 256))
      (bit_or_below 16 b0 (b1 * 2 ^ 8) (omega arith) ∙ regroup)
    ∙ bit_or_below 8 (b0 * 2 ^ 8 + b1) (p / 2 ^ 8 % 256) (omega arith)
    ∙ omega arith
  where
    regroup :
        p / 2 ^ 24 % 256 * 2 ^ 16 + p / 2 ^ 16 % 256 * 2 ^ 8
        ≡ (p / 2 ^ 24 % 256 * 2 ^ 8 + p / 2 ^ 16 % 256) * 2 ^ 8
    regroup = omega arith

module _ (s0 s1 s2 s3 : ℕ) (h0 : s0 < 64) (h1 : s1 < 64) (h2 : s2 < 64) (h3 : s3 < 64) where
  word_shifted : word s0 s1 s2 s3 / 256 ≡ low_word s0 s1 s2 s3
  word_shifted = omega arith

  digits :
      (low_word s0 s1 s2 s3 % 64 ≡ s3)
      × (low_word s0 s1 s2 s3 / 64 % 64 ≡ s2)
      × (low_word s0 s1 s2 s3 / 64 / 64 % 64 ≡ s1)
      × (low_word s0 s1 s2 s3 / 64 / 64 / 64 % 64 ≡ s0)
  digits = omega arith

-- One round of `pack_tag` at each place of the word.
or_first : (s : ℕ) → s < 64 → bit_or 0 (s * 2 ^ 26 % 2 ^ 32) ≡ s * 2 ^ 26
or_first s h = ap (bit_or 0) (omega arith) ∙ bit_or_above 26 s 0 (omega arith) ∙ omega arith

or_second : (h s : ℕ) → s < 64 → bit_or (h * 2 ^ 26) (s * 2 ^ 20 % 2 ^ 32) ≡ h * 2 ^ 26 + s * 2 ^ 20
or_second h s fits =
    ap (bit_or (h * 2 ^ 26)) (omega arith) ∙ bit_or_below 26 h (s * 2 ^ 20) (omega arith)

or_third : (h s : ℕ) → s < 64 → bit_or (h * 2 ^ 20) (s * 2 ^ 14 % 2 ^ 32) ≡ h * 2 ^ 20 + s * 2 ^ 14
or_third h s fits =
    ap (bit_or (h * 2 ^ 20)) (omega arith) ∙ bit_or_below 20 h (s * 2 ^ 14) (omega arith)

or_fourth : (h s : ℕ) → s < 64 → bit_or (h * 2 ^ 14) (s * 2 ^ 8 % 2 ^ 32) ≡ h * 2 ^ 14 + s * 2 ^ 8
or_fourth h s fits =
    ap (bit_or (h * 2 ^ 14)) (omega arith) ∙ bit_or_below 14 h (s * 2 ^ 8) (omega arith)

pack_two :
    (s0 s1 : ℕ)
    → s0 < 64
    → s1 < 64
    → bit_or (bit_or 0 (s0 * 2 ^ 26 % 2 ^ 32)) (s1 * 2 ^ 20 % 2 ^ 32) ≡ s0 * 2 ^ 26 + s1 * 2 ^ 20
pack_two s0 s1 h0 h1 = rw (or_first s0 h0) (or_second s0 s1 h1)

pack_three :
    (s0 s1 s2 : ℕ)
    → s0 < 64
    → s1 < 64
    → s2 < 64
    → bit_or
        (bit_or (bit_or 0 (s0 * 2 ^ 26 % 2 ^ 32)) (s1 * 2 ^ 20 % 2 ^ 32))
        (s2 * 2 ^ 14 % 2 ^ 32)
      ≡ s0 * 2 ^ 26 + s1 * 2 ^ 20 + s2 * 2 ^ 14
pack_three s0 s1 s2 h0 h1 h2 =
    ap (λ (t : ℕ). bit_or t (s2 * 2 ^ 14 % 2 ^ 32)) (pack_two s0 s1 h0 h1 ∙ shape)
    ∙ or_third (s0 * 2 ^ 6 + s1) s2 h2
    ∙ omega arith
  where
    shape : s0 * 2 ^ 26 + s1 * 2 ^ 20 ≡ (s0 * 2 ^ 6 + s1) * 2 ^ 20
    shape = omega arith

pack_four :
    (s0 s1 s2 s3 : ℕ)
    → s0 < 64
    → s1 < 64
    → s2 < 64
    → s3 < 64
    → bit_or
        (bit_or
          (bit_or (bit_or 0 (s0 * 2 ^ 26 % 2 ^ 32)) (s1 * 2 ^ 20 % 2 ^ 32))
          (s2 * 2 ^ 14 % 2 ^ 32))
        (s3 * 2 ^ 8 % 2 ^ 32)
      ≡ word s0 s1 s2 s3
pack_four s0 s1 s2 s3 h0 h1 h2 h3 =
    ap (λ (t : ℕ). bit_or t (s3 * 2 ^ 8 % 2 ^ 32)) (pack_three s0 s1 s2 h0 h1 h2 ∙ shape)
    ∙ or_fourth (s0 * 2 ^ 12 + s1 * 2 ^ 6 + s2) s3 h3
    ∙ omega arith
  where
    shape : s0 * 2 ^ 26 + s1 * 2 ^ 20 + s2 * 2 ^ 14 ≡ (s0 * 2 ^ 12 + s1 * 2 ^ 6 + s2) * 2 ^ 14
    shape = omega arith

abbrev bytes_of : ℕ → List ℕ
bytes_of packed = packed / 2 ^ 24 % 256 ∷ packed / 2 ^ 16 % 256 ∷ packed / 2 ^ 8 % 256 ∷ []

abbrev shown : ℕ → ℕ
shown s = if s == 0 then 0 else (s + 32) % 256

-- The characters before the first empty group.
abbrev tag_size : ℕ → ℕ → ℕ → ℕ → ℕ
tag_size s0 s1 s2 s3 =
    if s0 == 0 then 0 else if s1 == 0 then 1 else if s2 == 0 then 2 else if s3 == 0 then 3 else 4

decode_word :
    (s0 s1 s2 s3 : ℕ)
    → s0 < 64
    → s1 < 64
    → s2 < 64
    → s3 < 64
    → decode_tag (bytes_of (word s0 s1 s2 s3))
      ≡ take (tag_size s0 s1 s2 s3) (shown s0 ∷ shown s1 ∷ shown s2 ∷ shown s3 ∷ [])
unfolding decode_tag unpack_tag
decode_word s0 s1 s2 s3 h0 h1 h2 h3 =
    let (d3, d2, d1, d0) = digits s0 s1 s2 s3 h0 h1 h2 h3 in
    rw (join_bytes (word s0 s1 s2 s3) (omega arith), word_shifted s0 s1 s2 s3 h0 h1 h2 h3)
      (rw (d3, d2, d1, d0))

-- What is packed is the word of the first four groups.
abbrev nth_bits : ℕ → List ℕ → ℕ
nth_bits n [] = 0
nth_bits zero (c ∷ tag) = six_bits c
nth_bits (suc n) (c ∷ tag) = nth_bits n tag

pack-word :
    (tag : List ℕ)
    → All IsTagChar tag
    → pack_tag 0 tag 0 ≡ word (nth_bits 0 tag) (nth_bits 1 tag) (nth_bits 2 tag) (nth_bits 3 tag)
unfolding pack_tag
pack-word [] h = omega arith
pack-word (a ∷ []) (ha, h) = or_first (six_bits a) (six_bits_char a ha).2 ∙ omega arith
pack-word (a ∷ b ∷ []) (ha, (hb, h)) =
    pack_two (six_bits a) (six_bits b) (six_bits_char a ha).2 (six_bits_char b hb).2 ∙ omega arith
pack-word (a ∷ b ∷ c ∷ []) (ha, (hb, (hc, h))) =
    pack_three (six_bits a) (six_bits b) (six_bits c) (six_bits_char a ha).2 (six_bits_char b hb).2
      (six_bits_char c hc).2
    ∙ omega arith
pack-word (a ∷ b ∷ c ∷ d ∷ []) (ha, (hb, (hc, (hd, h)))) =
    pack_four (six_bits a) (six_bits b) (six_bits c) (six_bits d) (six_bits_char a ha).2
      (six_bits_char b hb).2 (six_bits_char c hc).2 (six_bits_char d hd).2
pack-word (a ∷ b ∷ c ∷ d ∷ e ∷ rest) (ha, (hb, (hc, (hd, h)))) =
    pack_four (six_bits a) (six_bits b) (six_bits c) (six_bits d) (six_bits_char a ha).2
      (six_bits_char b hb).2 (six_bits_char c hc).2 (six_bits_char d hd).2

nth_bits-lt : (n : ℕ) (tag : List ℕ) → nth_bits n tag < 64
nth_bits-lt n [] = omega arith
nth_bits-lt zero (c ∷ tag) = omega arith
nth_bits-lt (suc n) (c ∷ tag) = nth_bits-lt n tag

decode-encode_bits :
    (tag : List ℕ)
    → All IsTagChar tag
    → decode_tag (encode_tag tag) ≡ (
        let s0 = nth_bits 0 tag in
        let s1 = nth_bits 1 tag in
        let s2 = nth_bits 2 tag in
        let s3 = nth_bits 3 tag in
        take (tag_size s0 s1 s2 s3) (shown s0 ∷ shown s1 ∷ shown s2 ∷ shown s3 ∷ []))
unfolding encode_tag
decode-encode_bits tag h = rw (pack-word tag h) (
    decode_word (nth_bits 0 tag) (nth_bits 1 tag) (nth_bits 2 tag) (nth_bits 3 tag)
      (nth_bits-lt 0 tag) (nth_bits-lt 1 tag) (nth_bits-lt 2 tag) (nth_bits-lt 3 tag))

-- A character of a tag fills its group, and is shown in upper case.
group_used :
    (c : ℕ) → IsTagChar c → ((six_bits c == 0) ≡ false) × ((six_bits c + 32) % 256 ≡ upper c)
group_used c h = ground arith

-- A tag of characters 0x21 to 0x5f and lower case letters decodes to its first four characters in
-- upper case.
pub decode-encode_tag :
    (tag : List ℕ) → All IsTagChar tag → decode_tag (encode_tag tag) ≡ map upper (take 4 tag)
decode-encode_tag [] h = decode-encode_bits [] h
decode-encode_tag (a ∷ []) (ha, h) =
    decode-encode_bits (a ∷ []) (ha, h) ∙ rw ((group_used a ha).0, (group_used a ha).1)
decode-encode_tag (a ∷ b ∷ []) (ha, (hb, h)) =
    decode-encode_bits (a ∷ b ∷ []) (ha, (hb, h))
    ∙ simp ((group_used a ha).0, (group_used a ha).1, (group_used b hb).0, (group_used b hb).1)
decode-encode_tag (a ∷ b ∷ c ∷ []) (ha, (hb, (hc, h))) =
    decode-encode_bits (a ∷ b ∷ c ∷ []) (ha, (hb, (hc, h)))
    ∙ simp (
      (group_used a ha).0,
      (group_used a ha).1,
      (group_used b hb).0,
      (group_used b hb).1,
      (group_used c hc).0,
      (group_used c hc).1,
    )
decode-encode_tag (a ∷ b ∷ c ∷ d ∷ rest) (ha, (hb, (hc, (hd, h)))) =
    decode-encode_bits (a ∷ b ∷ c ∷ d ∷ rest) (ha, (hb, (hc, (hd, h))))
    ∙ simp (
      (group_used a ha).0,
      (group_used a ha).1,
      (group_used b hb).0,
      (group_used b hb).1,
      (group_used c hc).0,
      (group_used c hc).1,
      (group_used d hd).0,
      (group_used d hd).1,
    )
