-- ===== src/Fire/RoundTrip.antt =====
-- A frame that is written is read back.
use hp_server.Prelude.{
  ℕ, ◌+◌, ◌%◌, ◌^◌, ◌<◌, ◌≤◌, ◌≡◌, refl, List, [], ◌++◌, length, append_assoc, length-append, arith,
  All, Option,
}
use mathlib.Core.Path.{subst}
use mathlib.Core.List.{append-nil}
use mathlib.Core.Bool.{false}
use hp_server.Prelude.{ltb}
use hp_server.Stream.{Result, ok, err, too_long, read_full, Answer}
use hp_server.Stream.Laws.{IsProgress, write_all_whole, read_full-append}
use hp_server.Fire.{
  Header, Frame, marshal_binary, parse_header, attach_tdf, read, write, reply, error_reply,
}

-- Each field fits a uint16.
pub record IsHeader (h : Header) : Type 0 where
  pub payload_size : h.payload_size < 2 ^ 16
  pub component : h.component < 2 ^ 16
  pub command : h.command < 2 ^ 16
  pub error : h.error < 2 ^ 16
  pub message_type : h.message_type < 2 ^ 16
  pub message_id : h.message_id < 2 ^ 16

-- The twelve bytes of a header parse back, whatever follows them.
pub parse-marshal :
    (h : Header) (rest : List ℕ)
    → IsHeader h
    → (parse_header (marshal_binary h ++ rest) ≡ ok h) × (length (marshal_binary h) ≡ 12)
unfolding parse_header marshal_binary
parse-marshal h rest v = (ground arith, refl)

read-header :
    (h : Header) (payload rest : List ℕ)
    → IsHeader h
    → h.payload_size ≡ length payload
    → read (marshal_binary h ++ (payload ++ rest)) ≡ ok (attach_tdf h payload, rest)
unfolding read
read-header h payload rest v e = simp (
  subst
      (λ n.
        read_full n (marshal_binary h ++ (payload ++ rest))
        ≡ ok (marshal_binary h, payload ++ rest))
      (parse-marshal h [] v).1 (read_full-append (marshal_binary h) (payload ++ rest)),
  header_alone,
  e,
  read_full-append payload rest,
)
  where
    header_alone : parse_header (marshal_binary h) ≡ ok h
    header_alone = rw append-nil at (parse-marshal h [] v).0

-- The frame as it arrives: the header with the size of the payload, and the payload with its TDF.
abbrev pub arrives : Frame → List ℕ → Result (Option Frame × List ℕ)
arrives f rest =
    ok (attach_tdf (record (f.header) { payload_size = length f.payload }) f.payload, rest)

sized_header :
    (f : Frame)
    → IsHeader f.header
    → length f.payload < 2 ^ 16
    → IsHeader (record (f.header) { payload_size = length f.payload })
sized_header f v fits = record {
  payload_size = fits;
  component = v.component;
  command = v.command;
  error = v.error;
  message_type = v.message_type;
  message_id = v.message_id;
}

-- All that `Write` has to send goes out.
pub write_whole :
    (answers : List Answer) (f : Frame)
    → IsHeader f.header
    → length f.payload < 2 ^ 16
    → All IsProgress answers
    → 12 + length f.payload ≤ length answers
    → (write answers f).1
      ≡ (marshal_binary (record (f.header) { payload_size = length f.payload }) ++ f.payload, ok tt)
unfolding write
write_whole answers f v fits progress enough =
    let sized : length f.payload % 2 ^ 16 ≡ length f.payload = omega arith in
    let short : ltb 0xffff (length f.payload) ≡ false = ground arith in
    let h = record (f.header) { payload_size = length f.payload } in
    rw (short, sized)
      (write_all_whole answers (marshal_binary h ++ f.payload) progress (
        omega (
          arith,
          length-append (marshal_binary h) f.payload,
          (parse-marshal h [] (sized_header f v fits)).1,
        )))

-- A frame whose payload fits a uint16 goes out whole over a writer that makes progress, and is read
-- back with its size set, whatever follows it.
pub read-write :
    (answers : List Answer) (f : Frame) (rest : List ℕ)
    → IsHeader f.header
    → length f.payload < 2 ^ 16
    → All IsProgress answers
    → 12 + length f.payload ≤ length answers
    → ((write answers f).1.1 ≡ ok tt) × (read ((write answers f).1.0 ++ rest) ≡ arrives f rest)
read-write answers f rest v fits progress enough =
    let h = record (f.header) { payload_size = length f.payload } in
    rw (write_whole answers f v fits progress enough)
      (refl, rw append_assoc (read-header h f.payload rest (sized_header f v fits) refl))

-- A payload past 65535 bytes is refused: nothing goes out, and the frame stays as it was.
pub write-too_long :
    (answers : List Answer) (f : Frame)
    → 2 ^ 16 ≤ length f.payload
    → write answers f ≡ (f, ([], err too_long))
unfolding write
write-too_long answers f h = ground arith

-- A reply and an error reply reach the client under the request's component, command and message
-- id, with their own type and error code.
pub reply_arrives :
    (answers : List Answer) (req : Frame) (code : ℕ) (payload rest : List ℕ)
    → IsHeader req.header
    → code < 2 ^ 16
    → length payload < 2 ^ 16
    → All IsProgress answers
    → 12 + length payload ≤ length answers
    → let answer = λ (type error : ℕ). record (req.header) {
      payload_size = length payload;
      error = error;
      message_type = type;
    } in
      (read ((write answers (reply req payload)).1.0 ++ rest)
        ≡ ok (attach_tdf (answer 0x1000 0) payload, rest))
      × (read ((write answers (error_reply req code payload)).1.0 ++ rest)
          ≡ ok (attach_tdf (answer 0x3000 code) payload, rest))
unfolding reply error_reply
reply_arrives answers req code payload rest v hc fits progress enough = (
  (read-write answers (reply req payload) rest
      (record {
        payload_size = omega arith;
        component = v.component;
        command = v.command;
        error = omega arith;
        message_type = omega arith;
        message_id = v.message_id;
      })
      fits progress enough).1,
  (read-write answers (error_reply req code payload) rest
      (record {
        payload_size = omega arith;
        component = v.component;
        command = v.command;
        error = hc;
        message_type = omega arith;
        message_id = v.message_id;
      })
      fits progress enough).1,
)
