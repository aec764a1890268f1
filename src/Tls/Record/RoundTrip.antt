-- ===== src/Tls/Record/RoundTrip.antt =====
-- What one side seals the other opens, and the two ciphers stay in step.
use hp_server.Prelude.{
  ℕ, suc, ◌+◌, ◌-◌, ◌/◌, ◌%◌, ◌^◌, ◌<◌, ◌≤◌, ◌≡◌, refl, ap, ◌∙◌, true, false, List, [], ◌∷◌, ◌++◌,
  length, length-append, take-append_left, drop-append_left, arith, text_eq_self, ltb, leb, ◌==◌,
  Bool-cases, inl, inr,
}
use hp_server.Prelude.Xor.{bit_xor_twice}
use hp_server.Stream.{read_full, ok}
use hp_server.Fire.{uint16}
use hp_server.Stream.Laws.{read_full-append}
use hp_server.Tls.{Hash, md5, sha1, hash_size, Crypto, CipherState, ssl30, Conn, good}
use hp_server.Tls.Record.{
  xor_key_stream, advance, count_record, read_bytes, accept_version, record_header, record_mac,
  check_mac, open_state, open_record, read_content, read_after_header, read_record, seal,
  max_record,
}

hash_size_le : (h : Hash) → hash_size h ≤ 20
hash_size_le md5 = omega arith
hash_size_le sha1 = omega arith

pub length-xor_key_stream :
    (key_stream : ℕ → ℕ) (position : ℕ) (b : List ℕ)
    → length (xor_key_stream key_stream position b) ≡ length b
unfolding xor_key_stream
length-xor_key_stream key_stream position [] = refl
length-xor_key_stream key_stream position (b ∷ bs) =
    ap suc (length-xor_key_stream key_stream (position + 1) bs)

pub xor_key_stream_twice :
    (key_stream : ℕ → ℕ) (position : ℕ) (b : List ℕ)
    → xor_key_stream key_stream position (xor_key_stream key_stream position b) ≡ b
unfolding xor_key_stream
xor_key_stream_twice key_stream position [] = refl
xor_key_stream_twice key_stream position (b ∷ bs) =
    rw (bit_xor_twice b (key_stream position), xor_key_stream_twice key_stream (position + 1) bs)

module _ (crypto : Crypto) where
  open crypto use {digest_size, hmac_size}

  pub length-record_mac :
      (s : CipherState) (typ : ℕ) (content : List ℕ)
      → length (record_mac crypto s typ content) ≡ hash_size s.new_hash
  unfolding record_mac
  length-record_mac s typ content = elim (Bool-cases (s.version == ssl30)) [
    | inl old ↦ rw old (digest_size s.new_hash _)
    | inr new ↦ rw new (hmac_size s.new_hash s.mac_key _)
  ]

  check_mac-append :
      (s : CipherState) (typ : ℕ) (plain : List ℕ)
      → check_mac crypto s typ (plain ++ record_mac crypto s typ plain)
        ≡ (count_record s, good plain)
  unfolding check_mac
  check_mac-append s typ plain =
      let mac = record_mac crypto s typ plain in
      let size = length-record_mac s typ plain in
      let cut : length (plain ++ mac) - hash_size s.new_hash ≡ length plain =
        omega (arith, length-append plain mac) in
      let long : ltb (length (plain ++ mac)) (hash_size s.new_hash) ≡ false =
        ground (arith, length-append plain mac) in
      rw (
        long,
        cut,
        take-append_left (length plain) plain mac refl,
        drop-append_left (length plain) plain mac refl,
        text_eq_self mac,
      )

  pub seal_active :
      (s : CipherState) (typ : ℕ) (plain : List ℕ)
      → s.active ≡ true
      → seal crypto s typ plain ≡ (
        count_record (advance s (length (plain ++ record_mac crypto s typ plain))),
        xor_key_stream
            (crypto.key_stream s.key)
            s.position
            (plain ++ record_mac crypto s typ plain),
      )
  unfolding seal
  seal_active s typ plain on = rw on

  pub open_active :
      (s : CipherState) (typ : ℕ) (b : List ℕ)
      → s.active ≡ true
      → open_state crypto s typ b
        ≡ check_mac crypto
            (advance s (length b))
            typ
            (xor_key_stream (crypto.key_stream s.key) s.position b)
  unfolding open_state
  open_active s typ b on = rw on

  pub seal_passive :
      (s : CipherState) (typ : ℕ) (plain : List ℕ)
      → s.active ≡ false
      → seal crypto s typ plain ≡ (s, plain)
  unfolding seal
  seal_passive s typ plain off = rw off

  pub open_passive :
      (s : CipherState) (typ : ℕ) (b : List ℕ)
      → s.active ≡ false
      → open_state crypto s typ b ≡ (s, good b)
  unfolding open_state
  open_passive s typ b off = rw off

  -- Opening undoes sealing and leaves the same cipher, with a cipher in use or without.
  pub open_state-seal :
      (s : CipherState) (typ : ℕ) (plain : List ℕ)
      → open_state crypto s typ (seal crypto s typ plain).1
        ≡ ((seal crypto s typ plain).0, good plain)
  unfolding record_mac
  open_state-seal s typ plain = elim (Bool-cases s.active) [
    | inl on ↦
        let content = plain ++ record_mac crypto s typ plain in
        let key_stream = crypto.key_stream s.key in
        rw (seal_active s typ plain on) (
          open_active s typ (xor_key_stream key_stream s.position content) on
          ∙ rw
              (
                length-xor_key_stream key_stream s.position content,
                xor_key_stream_twice key_stream s.position content,
              )
              (check_mac-append (advance s (length content)) typ plain))
    | inr off ↦ rw (seal_passive s typ plain off) (open_passive s typ plain off)
  ]

  pub length-seal :
      (s : CipherState) (typ : ℕ) (plain : List ℕ)
      → length (seal crypto s typ plain).1 ≤ length plain + 20
  length-seal s typ plain = elim (Bool-cases s.active) [
    | inl on ↦ rw (seal_active s typ plain on) (
        omega (
          arith,
          length-xor_key_stream (crypto.key_stream s.key) s.position
              (plain ++ record_mac crypto s typ plain),
          length-append plain (record_mac crypto s typ plain),
          length-record_mac s typ plain,
          hash_size_le s.new_hash,
        ))
    | inr off ↦ rw (seal_passive s typ plain off) (omega arith)
  ]

  -- The next record on the wire, where its bytes open.
  pub read_record-opened :
      (r : Conn) (s : CipherState) (typ : ℕ) (content plain rest : List ℕ)
      → r.version < 2 ^ 16
      → length content ≤ max_record
      → r.input ≡ record_header typ r.version (length content) ++ (content ++ rest)
      → open_state crypto r.in_state typ content ≡ (s, good plain)
      → read_record crypto r
        ≡ (record r { input = rest; first_record = false; in_state = s }, good (typ, plain))
  unfolding read_record read_after_header read_content read_bytes accept_version open_record
  read_record-opened r s typ content plain rest hv hn coming opened =
      let head : read_full 5 r.input
          ≡ ok (record_header typ r.version (length content), content ++ rest) =
        rw coming
          (read_full-append (record_header typ r.version (length content)) (content ++ rest)) in
      let version : uint16 (r.version / 2 ^ 8 % 256) (r.version % 256) ≡ r.version = omega arith in
      let size : uint16 (length content / 2 ^ 8 % 256) (length content % 256) ≡ length content =
        omega arith in
      let same : (r.version == r.version) ≡ true = ground arith in
      let fits : leb (length content) max_record ≡ true = ground arith in
      rw (head, version, size, same, fits, read_full-append content rest, opened)
