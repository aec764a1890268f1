-- ===== src/Tls/Record/Opened.antt =====
-- What the parts of `readRecord` did where they succeeded.
use hp_server.Prelude.{
  ℕ, ◌-◌, ◌≡◌, refl, ap, sym, ◌∙◌, false, ◌||◌, ◌&&◌, List, [], ◌++◌, length, take, drop,
  take-append-drop, ltb, ◌==◌, text_eq, text_eq→eq, Bool-cases, inl, inr,
}
use hp_server.Stream.{Result, ok, err, read_full}
use hp_server.Stream.Laws.{read_full-ok}
use hp_server.Tls.{
  hash_size, Crypto, CipherState, Conn, Outcome, good, stream, good_parts, refused-ne-good,
  bad_record_mac, short_encrypted_record, unsupported_record_version, ssl30, record_handshake,
}
use hp_server.Tls.Record.{
  xor_key_stream, advance, count_record, took_bytes, read_bytes, accept_version, record_mac,
  check_mac, open_state, open_record, seal,
}
use hp_server.Tls.Record.RoundTrip.{
  length-xor_key_stream, xor_key_stream_twice, seal_active, seal_passive, open_active, open_passive,
}

took_bytes_good :
    (c d : Conn) (o : Result (List ℕ × List ℕ)) (bytes : List ℕ)
    → took_bytes c o ≡ (d, good bytes)
    → (rest : List ℕ) × (o ≡ ok (bytes, rest)) × (d ≡ record c { input = rest })
took_bytes_good c d (ok (xs, rest)) bytes h =
    let (after, read) = good_parts (record c { input = rest }) d xs bytes h in
    (rest, ap (λ (l : List ℕ). ok (l, rest)) read, sym after)
took_bytes_good c d (err e) bytes h =
    absurd (refused-ne-good (record c { input = [] }) d (stream e) bytes h)

pub read_bytes_good :
    (n : ℕ) (c d : Conn) (bytes : List ℕ)
    → read_bytes n c ≡ (d, good bytes)
    → (rest : List ℕ) × (c.input ≡ bytes ++ rest)
      × (length bytes ≡ n)
      × (d ≡ record c { input = rest })
unfolding read_bytes
read_bytes_good n c d bytes h =
    let (rest, read, after) = took_bytes_good c d (read_full n c.input) bytes h in
    let (split, long) = read_full-ok n c.input bytes rest read in (rest, split, long, after)

pub accept_version_good :
    (typ version : ℕ) (c d : Conn) (u : Unit {0})
    → accept_version typ version c ≡ (d, good u)
    → d ≡ record c { first_record = false }
unfolding accept_version
accept_version_good typ version c d u h =
    elim (Bool-cases
      (version == c.version || (c.first_record && (version == ssl30 && typ == record_handshake)))) [
        | inl fits ↦
            sym (good_parts (record c { first_record = false }) d tt u (sym (rw fits refl) ∙ h)).0
        | inr wrong ↦
            absurd
              (refused-ne-good c d (unsupported_record_version version) u (sym (rw wrong refl) ∙ h))
      ]

module _ (crypto : Crypto) where
  check_mac_good :
      (s s' : CipherState) (typ : ℕ) (b plain : List ℕ)
      → check_mac crypto s typ b ≡ (s', good plain)
      → (b ≡ plain ++ record_mac crypto s typ plain) × (s' ≡ count_record s)
  unfolding check_mac
  check_mac_good s s' typ b plain h =
      let mac_len = hash_size s.new_hash in
      let front = take (length b - mac_len) b in
      let back = drop (length b - mac_len) b in
      elim (Bool-cases (ltb (length b) mac_len)) [
        | inl short ↦
            absurd (refused-ne-good s s' short_encrypted_record plain (sym (rw short refl) ∙ h))
        | inr long ↦ elim (Bool-cases (text_eq back (record_mac crypto s typ front))) [
          | inl same ↦
              let accepted : (count_record s, good front) ≡ (s', good plain) =
                sym (rw (long, same) refl) ∙ h in
              let (after, read) = good_parts (count_record s) s' front plain accepted in
              let mac : back ≡ record_mac crypto s typ plain =
                text_eq→eq back (record_mac crypto s typ front) same ∙ rw read in
              (
                sym (take-append-drop (length b - mac_len) b)
                    ∙ ap (λ (l : List ℕ). l ++ back) read
                    ∙ ap (λ (l : List ℕ). plain ++ l) mac,
                sym after,
              )
          | inr other ↦
              absurd (refused-ne-good s s' bad_record_mac plain (sym (rw (long, other) refl) ∙ h))
        ]
      ]

  open_state_good :
      (s s' : CipherState) (typ : ℕ) (b plain : List ℕ)
      → open_state crypto s typ b ≡ (s', good plain)
      → (b ≡ (seal crypto s typ plain).1) × (s' ≡ (seal crypto s typ plain).0)
  unfolding record_mac
  open_state_good s s' typ b plain h = elim (Bool-cases s.active) [
    | inl on ↦
        let key_stream = crypto.key_stream s.key in
        let x = xor_key_stream key_stream s.position b in
        let mac = record_mac crypto s typ plain in
        let (content, after) =
          check_mac_good (advance s (length b)) s' typ x plain
            (sym (open_active crypto s typ b on) ∙ h) in
        let size : length b ≡ length (plain ++ mac) =
          sym (length-xor_key_stream key_stream s.position b) ∙ ap length content in
        rw (seal_active crypto s typ plain on) (
          sym (xor_key_stream_twice key_stream s.position b)
              ∙ ap (xor_key_stream key_stream s.position) content,
          after ∙ ap (λ (n : ℕ). count_record (advance s n)) size,
        )
    | inr off ↦
        let passed : (s, good b) ≡ (s', good plain) = sym (open_passive crypto s typ b off) ∙ h in
        let (after, read) = good_parts s s' b plain passed in
        rw (seal_passive crypto s typ plain off) (read, sym after)
  ]

  pub open_record_good :
      (typ : ℕ) (b plain : List ℕ) (c d : Conn)
      → open_record crypto typ b c ≡ (d, good plain)
      → (b ≡ (seal crypto c.in_state typ plain).1)
        × (d ≡ record c { in_state = (seal crypto c.in_state typ plain).0 })
  unfolding open_record
  open_record_good typ b plain c d h =
      let o = open_state crypto c.in_state typ b in
      let after : record c { in_state = o.0 } ≡ d = ap (λ (p : Conn × Outcome (List ℕ)). p.0) h in
      let read : o.1 ≡ good plain = ap (λ (p : Conn × Outcome (List ℕ)). p.1) h in
      let opened : o ≡ (o.0, good plain) = ap (λ (r : Outcome (List ℕ)). (o.0, r)) read in
      let (sealed, moved) = open_state_good c.in_state o.0 typ b plain opened in
      (sealed, sym after ∙ ap (λ (s : CipherState). record c { in_state = s }) moved)
