-- ===== src/Tls/Handshake/Finish.antt =====
-- `finish`: from the client's change of cipher to the server's Finished.
use hp_server.Prelude.{
  ℕ, ◌+◌, ◌≡◌, ap, sym, ◌∙◌, true, false, ◌&&◌, List, [], ◌∷◌, ◌++◌, length, drop, ◌==◌, text_eq,
  append_assoc,
}
use hp_server.Stream.{ok, Answer}
use hp_server.Tls.{
  Crypto, Conn, CipherState, good, and_then, and_then-good, require-good, record_handshake,
  record_change_cipher_spec, expected_change_cipher_spec,
}
use hp_server.Tls.Message.{split_handshake, handshake_message}
use hp_server.Tls.Keys.{finished_verify}
use hp_server.Tls.Record.{read_record, write_raw_record, write_record, seal}
use hp_server.Tls.Record.Accepted.{read_record-Accepted}
use hp_server.Tls.Handshake.{
  client_finished, answer_finished, change_cipher_spec, finish, finished_len, Agreed, derive_keys,
}
use hp_server.Tls.Handshake.Finished.{write_raw_record_good, check_finished_good}

module _ (crypto : Crypto) where
  -- What a record that was read leaves of the connection.
  abbrev pub AfterRead : Conn → Conn → Type 0
  AfterRead c d =
      (before rest : List ℕ) × (s : CipherState) × (c.input ≡ before ++ rest)
      × (d ≡ record c { input = rest; first_record = false; in_state = s })

  pub read_record_after :
      (c d : Conn) (r : ℕ × List ℕ) → read_record crypto c ≡ (d, good r) → AfterRead c d
  read_record_after c d r h =
      let (header, rest, long, typed, split, after) = read_record-Accepted crypto c d r.0 r.1 h in
      let (s, content) = seal crypto c.in_state r.0 r.1 in
      (header ++ content, rest, s, split ∙ sym (append_assoc header content rest), after)

  change_cipher_spec_good :
      (c d : Conn) (u : Unit {0}) → change_cipher_spec crypto c ≡ (d, good u) → AfterRead c d
  unfolding change_cipher_spec
  change_cipher_spec_good c d u h =
      let (c1, r, got, h1) = and_then-good (read_record crypto c) _ h in
      let test = (r.0 == record_change_cipher_spec) && text_eq r.1 (1 ∷ []) in
      let (fits, same) = require-good test expected_change_cipher_spec c1 h1 in
      let (before, rest, s, split, after) = read_record_after c c1 r got in
      (before, rest, s, split, sym same ∙ after)

  -- What the client's Finished says, and that it came under the cipher of the connection.
  abbrev pub Sealed : Conn → Conn → ℕ → List ℕ → List ℕ → Type 0
  Sealed c d version want message =
      (header rest content : List ℕ) × (split_handshake content ≡ ok (message ∷ []))
      × (drop 4 message ≡ want)
      × (length message ≡ 4 + finished_len version)
      × (c.input ≡ header ++ ((seal crypto c.in_state record_handshake content).1 ++ rest))
      × (d ≡ record c {
        input = rest;
        first_record = false;
        in_state = (seal crypto c.in_state record_handshake content).0;
      })

  client_finished_good :
      (version : ℕ) (want : List ℕ) (c d : Conn) (message : List ℕ)
      → client_finished crypto version want c ≡ (d, good message)
      → Sealed c d version want message
  unfolding client_finished
  client_finished_good version want c d message h =
      let (c1, r, got, h1) = and_then-good (read_record crypto c) _ h in
      let (typed, split, said, long, same) = check_finished_good version want r c1 d message h1 in
      let (header, rest, five, first, heard, after) =
        read_record-Accepted crypto c c1 r.0 r.1 got in
      let seal_as = λ (t : ℕ). seal crypto c.in_state t r.1 in
      (
        header,
        rest,
        r.1,
        split,
        said,
        long,
        heard ∙ ap (λ (t : ℕ). header ++ ((seal_as t).1 ++ rest)) typed,
        sym same
            ∙ after
            ∙ ap
                (λ (t : ℕ). record c {
                  input = rest;
                  first_record = false;
                  in_state = (seal_as t).0;
                })
                typed,
      )

  answer_finished_good :
      (agreed : Agreed) (master transcript : List ℕ) (c d : Conn) (u : Unit {0})
      → answer_finished crypto agreed master transcript c ≡ (d, good u)
      → (output : List ℕ) × (answers : List Answer) × (d ≡ record c {
        output = output;
        answers = answers;
        out_state =
            (seal crypto (derive_keys crypto agreed master).server record_handshake (
              handshake_message 20
                (finished_verify crypto agreed.version master transcript false))).0;
      })
  unfolding answer_finished write_record
  answer_finished_good agreed master transcript c d u h =
      let (c1, v, wrote, h1) =
        and_then-good (write_raw_record record_change_cipher_spec (1 ∷ []) c) _ h in
      let (o1, a1, after) = write_raw_record_good record_change_cipher_spec (1 ∷ []) c c1 v wrote in
      let (s, content) =
        seal crypto (derive_keys crypto agreed master).server record_handshake
          (handshake_message 20 (finished_verify crypto agreed.version master transcript false)) in
      let (o2, a2, last) =
        write_raw_record_good record_handshake content (record c1 { out_state = s }) d u h1 in
      (
        o2,
        a2,
        last ∙ ap (λ (k : Conn). record k { output = o2; answers = a2; out_state = s }) after,
      )

  -- The end of a handshake, from the connection before the client's change of cipher.
  abbrev pub Ended : Agreed → List ℕ → List ℕ → Conn → Conn → Type 0
  Ended agreed master transcript c d =
      (before content message : List ℕ) × (split_handshake content ≡ ok (message ∷ []))
      × (drop 4 message ≡ finished_verify crypto agreed.version master transcript true)
      × (c.input
          ≡ before
            ++ ((seal crypto (derive_keys crypto agreed master).client record_handshake content).1
                ++ d.input))
      × (d.in_state
          ≡ (seal crypto (derive_keys crypto agreed master).client record_handshake content).0)
      × (d.out_state
          ≡ (seal crypto (derive_keys crypto agreed master).server record_handshake (
              handshake_message 20
                (finished_verify crypto agreed.version master (transcript ++ message) false))).0)
      × (d.version ≡ c.version)

  after_change :
      (agreed : Agreed) (master transcript : List ℕ) (c c1 d : Conn) (u : Unit {0})
      → AfterRead c c1
      → and_then
          (client_finished crypto agreed.version
            (finished_verify crypto agreed.version master transcript true)
            (record c1 { in_state = (derive_keys crypto agreed master).client }))
          (λ message. answer_finished crypto agreed master (transcript ++ message))
        ≡ (d, good u)
      → Ended agreed master transcript c d
  after_change agreed master transcript c c1 d u (before, behind, s, split, after) h =
      let want = finished_verify crypto agreed.version master transcript true in
      let keys = derive_keys crypto agreed master in
      let (c2, message, got, h1) =
        and_then-good
          (client_finished crypto agreed.version want (record c1 { in_state = keys.client })) _ h in
      let (header, rest, content, alone, said, long, heard, read) =
        client_finished_good agreed.version want (record c1 { in_state = keys.client }) c2 message
          got in
      let (output, answers, last) =
        answer_finished_good agreed master (transcript ++ message) c2 d u h1 in
      let came : behind ≡ header ++ ((seal crypto keys.client record_handshake content).1 ++ rest) =
        ap (λ (k : Conn). k.input) (sym after) ∙ heard in
      let left : d.input ≡ rest =
        ap (λ (k : Conn). k.input) last ∙ ap (λ (k : Conn). k.input) read in
      let tail = (seal crypto keys.client record_handshake content).1 in
      (
        before ++ header,
        content,
        message,
        alone,
        said,
        split
            ∙ ap (λ (l : List ℕ). before ++ l) came
            ∙ ap (λ (l : List ℕ). before ++ (header ++ (tail ++ l))) (sym left)
            ∙ sym (append_assoc before header (tail ++ d.input)),
        ap (λ (k : Conn). k.in_state) last ∙ ap (λ (k : Conn). k.in_state) read,
        ap (λ (k : Conn). k.out_state) last,
        ap (λ (k : Conn). k.version) last
            ∙ ap (λ (k : Conn). k.version) read
            ∙ ap (λ (k : Conn). k.version) after,
      )

  pub finish_good :
      (agreed : Agreed) (master transcript : List ℕ) (c d : Conn) (u : Unit {0})
      → finish crypto agreed master transcript c ≡ (d, good u)
      → Ended agreed master transcript c d
  unfolding finish
  finish_good agreed master transcript c d u h =
      let (c1, v, changed, h1) = and_then-good (change_cipher_spec crypto c) _ h in
      after_change agreed master transcript c c1 d u (change_cipher_spec_good c c1 v changed) h1
