-- ===== src/Tls/Handshake/Hellos.antt =====
-- What the two hellos agree on.
use hp_server.Prelude.{
  refl, ◌∷◌, ℕ, ◌≡◌, ap, sym, subst, ◌∙◌, false, List, [], ◌++◌, length, ◌==◌, ==_iff,
}
use hp_server.Stream.{Result, ok, err, read_full}
use hp_server.Tls.{
  Crypto, Conn, good, stream, and_then, and_then-good, require, require-good, good_parts,
  refused-ne-good, record_handshake, expected_key_exchange, malformed_key_exchange, give,
}
use hp_server.Tls.Record.{read_record, write_raw_record, record_header}
use hp_server.Tls.Message.{split_handshake}
use hp_server.Tls.Hello.{Hello, client_hello, server_random, took_random, server_flight}
use hp_server.Tls.Hello.Laws.{only_message_good}
use hp_server.Tls.Handshake.{Usable, Agreed, send_flight, exchange_hellos, client_key_exchange}
use hp_server.Tls.Handshake.Finished.{write_raw_record_good, write_raw_record_whole}
use hp_server.Tls.Handshake.Finish.{read_record_after}
use hp_server.Tls.Handshake.Greeting.{
  Consumes, KnownSuite, KnownVersion, HelloRead, client_hello_good,
}

took_random_good :
    (c d : Conn) (o : Result (List ℕ × List ℕ)) (bytes : List ℕ)
    → took_random c o ≡ (d, good bytes)
    → (rest : List ℕ) × (d ≡ record c { random = rest })
took_random_good c d (ok (xs, rest)) bytes h =
    (rest, sym (good_parts (record c { random = rest }) d _ bytes h).0)
took_random_good c d (err e) bytes h =
    absurd (refused-ne-good (record c { random = [] }) d (stream e) bytes h)

server_random_good :
    (c d : Conn) (bytes : List ℕ)
    → server_random c ≡ (d, good bytes)
    → (rest : List ℕ) × (d ≡ record c { random = rest })
unfolding server_random
server_random_good c d bytes h = took_random_good c d (read_full 28 c.random) bytes h

written_good :
    (c d : Conn) (flight : List ℕ) (given agreed : Agreed)
    → and_then (write_raw_record record_handshake flight c) (λ u. give given) ≡ (d, good agreed)
    → (d.input ≡ c.input)
      × (d.version ≡ c.version)
      × (given ≡ agreed)
      × (d.output
          ≡ c.output ++ (record_header record_handshake c.version (length flight) ++ flight))
written_good c d flight given agreed h =
    let (c1, u, wrote, h1) = and_then-good (write_raw_record record_handshake flight c) _ h in
    let (output, answers, after) = write_raw_record_good record_handshake flight c c1 u wrote in
    let (same, read) = good_parts c1 d given agreed h1 in
    let all : d ≡ record c { output = output; answers = answers } = sym same ∙ after in
    let whole = write_raw_record_whole record_handshake flight c c1 u wrote in
    (
      ap (λ (k : Conn). k.input) all,
      ap (λ (k : Conn). k.version) all,
      read,
      ap (λ (k : Conn). k.output) (sym same) ∙ whole,
    )

-- What the server answered: the flight, in one record, which the transcript has behind the hello.
abbrev pub Answered : List (List ℕ) → Conn → Conn → Agreed → Type 0
Answered chain c d agreed =
    let flight = server_flight agreed.version agreed.hello.suite agreed.random chain in
    (agreed.transcript ≡ agreed.hello.message ++ flight)
    × (d.output
        ≡ c.output ++ (record_header record_handshake agreed.version (length flight) ++ flight))

flight_good :
    (usable : Usable) (hello : Hello) (c d : Conn) (agreed : Agreed)
    → send_flight usable hello c ≡ (d, good agreed)
    → (d.input ≡ c.input)
      × (d.version ≡ c.version)
      × (agreed.version ≡ c.version)
      × (agreed.hello ≡ hello)
      × Answered usable.chain c d agreed
unfolding send_flight
flight_good usable hello c d agreed h =
    let (c1, random, drawn, h1) = and_then-good (server_random c) _ h in
    let (rest, after) = server_random_good c c1 random drawn in
    let flight = server_flight c1.version hello.suite random usable.chain in
    let given : Agreed = record {
      hello = hello;
      version = c1.version;
      random = random;
      transcript = hello.message ++ flight;
    } in
    let (input, version, read, output) = written_good c1 d flight given agreed h1 in
    let same : c1.version ≡ c.version = ap (λ (k : Conn). k.version) after in
    (
      input ∙ ap (λ (k : Conn). k.input) after,
      version ∙ same,
      ap (λ (k : Agreed). k.version) (sym read) ∙ same,
      ap (λ (k : Agreed). k.hello) (sym read),
      subst (λ (k : Agreed). Answered usable.chain c d k) read
          (
            refl,
            output
                ∙ ap
                    (λ (k : Conn).
                      k.output
                      ++ (record_header record_handshake c1.version (length flight) ++ flight))
                    after,
          ),
    )

module _ (crypto : Crypto) where
  -- Two hellos agree on a version and a suite that the server knows, the client's being the one that
  -- was read and the server's the one that went out.
  pub exchange_hellos_good :
      (usable : Usable) (c d : Conn) (agreed : Agreed)
      → exchange_hellos crypto usable c ≡ (d, good agreed)
      → Consumes c d
        × (d.version ≡ agreed.version)
        × KnownVersion agreed.version
        × KnownSuite agreed.hello.suite
        × (c1 : Conn) × HelloRead crypto c c1 agreed.hello
        × Answered usable.chain c1 d agreed
        × (d.input ≡ c1.input)
  unfolding exchange_hellos
  exchange_hellos_good usable c d agreed h =
      let (c1, hello, got, h1) = and_then-good (client_hello crypto c) _ h in
      let ((before, heard), known, suite, greeted) = client_hello_good crypto c c1 hello got in
      let (input, version, named, same, answered) = flight_good usable hello c1 d agreed h1 in
      (
        (before, heard ∙ ap (λ (l : List ℕ). before ++ l) (sym input)),
        version ∙ sym named,
        subst KnownVersion (sym named) known,
        subst (λ (k : Hello). KnownSuite k.suite) (sym same) suite,
        c1,
        subst (λ (k : Hello). HelloRead crypto c c1 k) (sym same) greeted,
        answered,
        input,
      )

  pub client_key_exchange_good :
      (c d : Conn) (message : List ℕ)
      → client_key_exchange crypto c ≡ (d, good message)
      → Consumes c d
        × (d.version ≡ c.version)
        × (content : List ℕ) × (read_record crypto c ≡ (d, good (record_handshake, content)))
        × (split_handshake content ≡ ok (message ∷ []))
  unfolding client_key_exchange
  client_key_exchange_good c d message h =
      let (c1, r, got, h1) = and_then-good (read_record crypto c) _ h in
      let typed = r.0 == record_handshake in
      let (c2, u2, p2, h2) = and_then-good (require typed expected_key_exchange c1) _ h1 in
      let (q2, e2) = require-good typed expected_key_exchange c1 p2 in
      let (split, first, e3) = only_message_good 16 malformed_key_exchange r.1 c2 d message h2 in
      let (before, rest, s, heard, after) = read_record_after crypto c c1 r got in
      let d_is : d ≡ record c { input = rest; first_record = false; in_state = s } =
        sym e3 ∙ sym e2 ∙ after in
      (
        (before, heard ∙ ap (λ (k : Conn). before ++ k.input) (sym d_is)),
        ap (λ (k : Conn). k.version) d_is,
        r.1,
        got
            ∙ ap (λ (t : ℕ). (c1, good (t, r.1))) ((==_iff r.0 record_handshake).0 q2)
            ∙ ap (λ (k : Conn). (k, good (record_handshake, r.1))) (e2 ∙ e3),
        split,
      )
