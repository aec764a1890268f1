-- ===== src/Tls/Handshake/Finished.antt =====
-- The end of a handshake: the client's Finished is right, and both ciphers are in use.
use hp_server.Prelude.{
  ℕ, ◌+◌, ◌≡◌, ap, sym, ◌∙◌, List, [], ◌∷◌, ◌++◌, length, drop, append-nil, refl, ◌==◌, ==_iff,
  text_eq, text_eq→eq,
}
use hp_server.Stream.{Result, ok, err, Answer, write_all, answers_left}
use hp_server.Stream.Laws.{write_all_prefix}
use hp_server.Tls.{
  Conn, good, stream, and_then, and_then-good, require, require-good, good_parts, refused-ne-good,
  record_handshake, expected_finished, malformed_finished, finished_failed, give,
}
use hp_server.Tls.Message.{split_handshake}
use hp_server.Tls.Record.{record_header, sent, write_raw_record}
use hp_server.Tls.Hello.{only_message}
use hp_server.Tls.Hello.Laws.{only_message_good}
use hp_server.Tls.Handshake.{check_finished, finished_len}

sent_good :
    (c d : Conn) (answers : List Answer) (p : List ℕ × Result (Unit {0})) (u : Unit {0})
    → sent c answers p ≡ (d, good u)
    → d ≡ record c { output = c.output ++ p.0; answers = answers }
sent_good c d answers (out, ok v) u h =
    sym (good_parts (record c { output = c.output ++ out; answers = answers }) d tt u h).0
sent_good c d answers (out, err e) u h =
    absurd
      (refused-ne-good (record c { output = c.output ++ out; answers = answers }) d (stream e) u h)

-- A raw record that was written changes what went out, and nothing else.
pub write_raw_record_good :
    (typ : ℕ) (content : List ℕ) (c d : Conn) (u : Unit {0})
    → write_raw_record typ content c ≡ (d, good u)
    → (output : List ℕ) × (answers : List Answer) × (d
        ≡ record c { output = output; answers = answers })
unfolding write_raw_record
write_raw_record_good typ content c d u h =
    let packet = record_header typ c.version (length content) ++ content in
    let left = answers_left c.answers packet in
    let done = write_all c.answers packet in (c.output ++ done.0, left, sent_good c d left done u h)

-- It went out whole.
pub write_raw_record_whole :
    (typ : ℕ) (content : List ℕ) (c d : Conn) (u : Unit {0})
    → write_raw_record typ content c ≡ (d, good u)
    → d.output ≡ c.output ++ (record_header typ c.version (length content) ++ content)
unfolding write_raw_record
write_raw_record_whole typ content c d u h =
    let packet = record_header typ c.version (length content) ++ content in
    let left = answers_left c.answers packet in
    let (rest, split, done) = write_all_prefix c.answers packet in
    let out = (write_all c.answers packet).0 in
    let whole : packet ≡ out =
      split
      ∙ ap (λ (l : List ℕ). out ++ l) (done (sent_ok c d left (write_all c.answers packet) u h))
      ∙ append-nil out in
    ap (λ (k : Conn). k.output) (sent_good c d left (write_all c.answers packet) u h)
    ∙ ap (λ (l : List ℕ). c.output ++ l) (sym whole)
  where
    sent_ok :
        (c d : Conn) (answers : List Answer) (p : List ℕ × Result (Unit {0})) (u : Unit {0})
        → sent c answers p ≡ (d, good u)
        → p.1 ≡ ok tt
    sent_ok c d answers (out, ok v) u h = refl
    sent_ok c d answers (out, err e) u h = absurd (
        refused-ne-good (record c { output = c.output ++ out; answers = answers }) d (stream e) u h)

checked_good :
    (version : ℕ) (want message : List ℕ) (c d : Conn) (given : List ℕ)
    → and_then (require (length message == 4 + finished_len version) malformed_finished c) (λ u.
      λ c'.
        and_then (require (text_eq (drop 4 message) want) finished_failed c') (λ v. give message))
      ≡ (d, good given)
    → (drop 4 message ≡ want)
      × (length message ≡ 4 + finished_len version)
      × (message ≡ given)
      × (c ≡ d)
checked_good version want message c d given h =
    let (c1, u, sized, h1) =
      and_then-good (require (length message == 4 + finished_len version) malformed_finished c) _
        h in
    let (c2, v, same, h2) =
      and_then-good (require (text_eq (drop 4 message) want) finished_failed c1) _ h1 in
    let (long, kept) =
      require-good (length message == 4 + finished_len version) malformed_finished c sized in
    let (equal, kept') = require-good (text_eq (drop 4 message) want) finished_failed c1 same in
    let (last, read) = good_parts c2 d message given h2 in
    (
      text_eq→eq (drop 4 message) want equal,
      (==_iff (length message) (4 + finished_len version)).0 long,
      read,
      kept ∙ kept' ∙ last,
    )

-- A Finished that passes is a handshake message alone in its record, of the right length, and says
-- what it must.
pub check_finished_good :
    (version : ℕ) (want : List ℕ) (r : ℕ × List ℕ) (c d : Conn) (message : List ℕ)
    → check_finished version want r c ≡ (d, good message)
    → (r.0 ≡ record_handshake)
      × (split_handshake r.1 ≡ ok (message ∷ []))
      × (drop 4 message ≡ want)
      × (length message ≡ 4 + finished_len version)
      × (c ≡ d)
unfolding check_finished
check_finished_good version want r c d message h =
    let (c1, u, typed, h1) =
      and_then-good (require (r.0 == record_handshake) expected_finished c) _ h in
    let (c2, m, alone, h2) = and_then-good (only_message 20 malformed_finished r.1 c1) _ h1 in
    let (handshake_typed, kept) =
      require-good (r.0 == record_handshake) expected_finished c typed in
    let (split, first, kept') = only_message_good 20 malformed_finished r.1 c1 c2 m alone in
    let (said, long, read, kept3) = checked_good version want m c2 d message h2 in
    (
      (==_iff r.0 record_handshake).0 handshake_typed,
      split ∙ ap (λ (l : List ℕ). ok (l ∷ [])) read,
      ap (drop 4) (sym read) ∙ said,
      ap length (sym read) ∙ long,
      kept ∙ kept' ∙ kept3,
    )
