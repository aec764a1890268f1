-- ===== src/Tls/Record/Exchange.antt =====
-- A record that one side writes is the record that the other side reads.
use hp_server.Prelude.{
  ℕ, ◌^◌, ◌<◌, ◌≤◌, ◌≡◌, refl, ap, sym, ◌∙◌, false, List, ◌++◌, length, drop, drop-append_left,
  append-nil, append_assoc, arith,
}
use hp_server.Stream.{Result, ok, err, Answer, write_all, answers_left}
use hp_server.Stream.Laws.{write_all_prefix}
use hp_server.Tls.{Crypto, Conn, good}
use hp_server.Tls.Record.{
  record_header, sent, write_raw_record, write_record, read_record, seal, open_state,
}
use hp_server.Tls.Record.RoundTrip.{length-seal, open_state-seal, read_record-opened}

-- What went out between two states of a connection.
abbrev pub sent_since : Conn → Conn → List ℕ
sent_since w w' = drop (length w.output) w'.output

-- The reader's cipher is the writer's, and so is its version.
pub record InStep (w r : Conn) : Type 0 where
  pub same_cipher : r.in_state ≡ w.out_state
  pub same_version : r.version ≡ w.version
  pub version_fits : w.version < 2 ^ 16

abbrev pub largest_plain : ℕ
largest_plain = 16384

sent_whole :
    (c : Conn) (answers : List Answer) (p : List ℕ × Result (Unit {0}))
    → (sent c answers p).1 ≡ good tt
    → (p.1 ≡ ok tt)
      × ((sent c answers p).0 ≡ record c { output = c.output ++ p.0; answers = answers })
sent_whole c answers (out, ok u) h = (refl, refl)
sent_whole c answers (out, err e) h = cc

-- Where a raw record is written without an error, all its bytes went out.
pub write_raw_record-sent :
    (typ : ℕ) (content : List ℕ) (c : Conn)
    → (write_raw_record typ content c).1 ≡ good tt
    → sent_since c (write_raw_record typ content c).0
      ≡ record_header typ c.version (length content) ++ content
unfolding write_raw_record
write_raw_record-sent typ content c h =
    let packet = record_header typ c.version (length content) ++ content in
    let (whole, after) =
      sent_whole c (answers_left c.answers packet) (write_all c.answers packet) h in
    let (rest, split, empty) = write_all_prefix c.answers packet in
    let all : packet ≡ (write_all c.answers packet).0 =
      split
      ∙ ap (λ (l : List ℕ). (write_all c.answers packet).0 ++ l) (empty whole)
      ∙ append-nil (write_all c.answers packet).0 in
    ap (λ (d : Conn). drop (length c.output) d.output) after
    ∙ drop-append_left (length c.output) c.output (write_all c.answers packet).0 refl
    ∙ sym all

sent_out :
    (c : Conn) (answers : List Answer) (p : List ℕ × Result (Unit {0}))
    → (sent c answers p).0.out_state ≡ c.out_state
sent_out c answers (out, ok u) = refl
sent_out c answers (out, err e) = refl

write_raw_record_out :
    (typ : ℕ) (content : List ℕ) (c : Conn)
    → (write_raw_record typ content c).0.out_state ≡ c.out_state
unfolding write_raw_record
write_raw_record_out typ content c =
    let packet = record_header typ c.version (length content) ++ content in
    sent_out c (answers_left c.answers packet) (write_all c.answers packet)

module _ (crypto : Crypto) where
  -- What `writeRecord` sends without an error, `readRecord` of a connection in step reads: the same
  -- type and content, nothing of what follows, with or without a cipher. Both sides' ciphers are the
  -- same again afterwards.
  pub read_record-write_record :
      (w r : Conn) (typ : ℕ) (plain rest : List ℕ)
      → InStep w r
      → length plain ≤ largest_plain
      → (write_record crypto typ plain w).1 ≡ good tt
      → r.input ≡ sent_since w (write_record crypto typ plain w).0 ++ rest
      → read_record crypto r ≡ (
        record r {
          input = rest;
          first_record = false;
          in_state = (write_record crypto typ plain w).0.out_state;
        },
        good (typ, plain),
      )
  unfolding write_record
  read_record-write_record w r typ plain rest step small written coming =
      let (s, content) = seal crypto w.out_state typ plain in
      let w' : Conn = record w { out_state = s } in
      let went = write_raw_record-sent typ content w' written in
      let heard : r.input ≡ record_header typ r.version (length content) ++ (content ++ rest) =
        coming
        ∙ rw (went, step.same_version)
            (append_assoc (record_header typ w.version (length content)) content rest) in
      let opened : open_state crypto r.in_state typ content ≡ (s, good plain) =
        rw step.same_cipher (open_state-seal crypto w.out_state typ plain) in
      rw (write_raw_record_out typ content w') (
        read_record-opened crypto r s typ content plain rest
          (rw step.same_version step.version_fits)
          (omega (arith, length-seal crypto w.out_state typ plain)) heard opened)
