-- ===== src/Tls/Record.antt =====
-- Records of legacytls/conn.go: `recordMAC`, `readRecord`, `writeRecord` and `writeRawRecord`.
pub mod RoundTrip
pub mod Exchange
pub mod Opened
pub mod Accepted
use hp_server.Prelude.{
  ℕ, zero, suc, ◌+◌, ◌-◌, ◌/◌, ◌%◌, ◌^◌, Bool, true, false, ◌&&◌, ◌||◌, List, [], ◌∷◌, ◌++◌, ltb,
  leb, ◌==◌, bit_xor, length, take, drop, get_or, replicate, if◌then◌else◌, text_eq, inc64,
}
use hp_server.Stream.{Result, ok, err, Answer, read_full, write_all, answers_left}
use hp_server.Fire.{put_uint16, uint16}
use hp_server.Tls.{
  Hash, md5, sha1, hash_size, Crypto, CipherState, Conn, Outcome, good, refused, M, ◌>>=◌, ◌>>◌,
  give, require, record_handshake, ssl30, stream, unsupported_record_version, oversized_record,
  short_encrypted_record, bad_record_mac,
}

-- `binary.BigEndian.PutUint64`.
abbrev put_uint64 : ℕ → List ℕ
put_uint64 v =
    v / 2 ^ 56 % 256
    ∷ v / 2 ^ 48 % 256
    ∷ v / 2 ^ 40 % 256
    ∷ v / 2 ^ 32 % 256
    ∷ v / 2 ^ 24 % 256
    ∷ v / 2 ^ 16 % 256
    ∷ v / 2 ^ 8 % 256
    ∷ v % 256
    ∷ []

abbrev mac_pad : Hash → ℕ
mac_pad md5 = 48
mac_pad sha1 = 40

abbrev pub max_record : ℕ
max_record = 18432

-- `stream.XORKeyStream(b, b)` from a position of the key's stream.
unfoldable pub xor_key_stream : (ℕ → ℕ) → ℕ → List ℕ → List ℕ
xor_key_stream key_stream position [] = []
xor_key_stream key_stream position (b ∷ bs) =
    bit_xor b (key_stream position) ∷ xor_key_stream key_stream (position + 1) bs

abbrev pub advance : CipherState → ℕ → CipherState
advance s n = record s { position = s.position + n }

abbrev pub count_record : CipherState → CipherState
count_record s = record s { seq = inc64 s.seq }

-- What a failed `io.ReadFull` has read is gone too.
abbrev pub took_bytes : Conn → Result (List ℕ × List ℕ) → Conn × Outcome (List ℕ)
took_bytes c (ok (bytes, rest)) = (record c { input = rest }, good bytes)
took_bytes c (err e) = (record c { input = [] }, refused (stream e))

unfoldable pub read_bytes : ℕ → M (List ℕ)
read_bytes n c = took_bytes c (read_full n c.input)

-- The version of a record's header, which the first handshake record may give as SSL 3.0.
unfoldable pub accept_version : ℕ → ℕ → M (Unit {0})
accept_version typ version c =
    if version == c.version || (c.first_record && (version == ssl30 && typ == record_handshake))
    then (record c { first_record = false }, good tt)
    else (c, refused (unsupported_record_version version))

abbrev pub sent : Conn → List Answer → List ℕ × Result (Unit {0}) → Conn × Outcome (Unit {0})
sent c answers (out, ok u) = (record c { output = c.output ++ out; answers = answers }, good tt)
sent c answers (out, err e) =
    (record c { output = c.output ++ out; answers = answers }, refused (stream e))

abbrev pub record_header : ℕ → ℕ → ℕ → List ℕ
record_header typ version n = typ ∷ put_uint16 version ++ put_uint16 n

unfoldable pub write_raw_record : ℕ → List ℕ → M (Unit {0})
write_raw_record typ content c =
    let packet = record_header typ c.version (length content) ++ content in
    sent c (answers_left c.answers packet) (write_all c.answers packet)

module _ (crypto : Crypto) where
  open crypto use {digest, hmac, key_stream}

  unfoldable pub record_mac : CipherState → ℕ → List ℕ → List ℕ
  record_mac s typ content =
      let size = put_uint16 (length content) in
      if s.version == ssl30
      then (let pad = mac_pad s.new_hash in
          let inner =
            digest s.new_hash (
              s.mac_key ++ (replicate pad 0x36 ++ (put_uint64 s.seq ++ (typ ∷ size ++ content)))) in
          digest s.new_hash (s.mac_key ++ (replicate pad 0x5c ++ inner)))
      else hmac s.new_hash s.mac_key (put_uint64 s.seq ++ (typ ∷ 3 ∷ 1 ∷ size ++ content))

  -- The decrypted bytes of a record, as their content and the MAC behind it.
  unfoldable pub check_mac : CipherState → ℕ → List ℕ → CipherState × Outcome (List ℕ)
  check_mac s typ plain_mac =
      let mac_len = hash_size s.new_hash in
      let plain = take (length plain_mac - mac_len) plain_mac in
      let got = drop (length plain_mac - mac_len) plain_mac in
      if ltb (length plain_mac) mac_len
      then (s, refused short_encrypted_record)
      else if text_eq got (record_mac s typ plain)
      then (count_record s, good plain)
      else (s, refused bad_record_mac)

  unfoldable pub open_state : CipherState → ℕ → List ℕ → CipherState × Outcome (List ℕ)
  open_state s typ b =
      if s.active
      then check_mac (advance s (length b)) typ (xor_key_stream (key_stream s.key) s.position b)
      else (s, good b)

  unfoldable pub open_record : ℕ → List ℕ → M (List ℕ)
  open_record typ b c =
      let (s, outcome) = open_state c.in_state typ b in (record c { in_state = s }, outcome)

  unfoldable pub read_content : ℕ → ℕ → M (ℕ × List ℕ)
  read_content typ n = do b ← read_bytes n; content ← open_record typ b; give (typ, content)

  -- The rest of a record behind its header.
  unfoldable pub read_after_header : List ℕ → M (ℕ × List ℕ)
  read_after_header h = do
    accept_version (get_or h 0 0) (uint16 (get_or h 1 0) (get_or h 2 0))
    require (leb (uint16 (get_or h 3 0) (get_or h 4 0)) max_record) oversized_record
    read_content (get_or h 0 0) (uint16 (get_or h 3 0) (get_or h 4 0))

  -- The type and the content of the next record.
  unfoldable pub read_record : M (ℕ × List ℕ)
  read_record = do h ← read_bytes 5; read_after_header h

  -- The cipher after a record, and the record's bytes.
  unfoldable pub seal : CipherState → ℕ → List ℕ → CipherState × List ℕ
  seal s typ plain =
      let content = plain ++ record_mac s typ plain in
      if s.active
      then (
        count_record (advance s (length content)),
        xor_key_stream (key_stream s.key) s.position content,
      )
      else (s, plain)

  unfoldable pub write_record : ℕ → List ℕ → M (Unit {0})
  write_record typ plain c =
      let (s, content) = seal c.out_state typ plain in
      write_raw_record typ content (record c { out_state = s })
