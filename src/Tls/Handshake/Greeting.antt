-- ===== src/Tls/Handshake/Greeting.antt =====
-- The ClientHello that a handshake of legacytls/conn.go accepts.
use hp_server.Prelude.{
  ◌∷◌, ℕ, ◌+◌, ◌%◌, ◌≡◌, ◌⊎◌, inl, inr, ap, sym, subst, ◌∙◌, true, not, ◌&&◌, ◌||◌, List, [], ◌++◌,
  length, take, drop, get_or, leb, ◌==◌, ==_iff, append_assoc, Bool-cases,
}
use hp_server.Stream.{ok}
use hp_server.Fire.{uint16}
use hp_server.Tls.{
  Crypto, Conn, good, and_then-good, require, require-good, good_parts, record_handshake, ssl30,
  tls10, suite_rc4_md5, suite_rc4_sha, expected_client_hello, malformed_client_hello,
  short_client_hello, unsupported_hello_version, malformed_session_id, malformed_cipher_suites,
  no_common_suite,
}
use hp_server.Tls.Record.{read_record}
use hp_server.Tls.Message.{split_handshake}
use hp_server.Tls.Hello.{
  Hello, select_suite, hello_suites, accept_hello, client_hello, only_message,
}
use hp_server.Tls.Hello.Suite.{select_suite-preferred, listed, offers}
use hp_server.Tls.Hello.Laws.{only_message_good}
use hp_server.Tls.Handshake.Finish.{read_record_after}

-- The bytes that went are in front of those that are left.
abbrev pub Consumes : Conn → Conn → Type 0
Consumes c d = (before : List ℕ) × (c.input ≡ before ++ d.input)

pub Consumes-trans : (c d e : Conn) → Consumes c d → Consumes d e → Consumes c e
Consumes-trans c d e (b1, h1) (b2, h2) =
    (b1 ++ b2, h1 ∙ ap (λ (l : List ℕ). b1 ++ l) h2 ∙ sym (append_assoc b1 b2 e.input))

abbrev pub KnownSuite : ℕ → Type 0
KnownSuite suite = (suite ≡ suite_rc4_md5) ⊎ (suite ≡ suite_rc4_sha)

abbrev pub KnownVersion : ℕ → Type 0
KnownVersion version = (version ≡ ssl30) ⊎ (version ≡ tls10)

select_suite_known :
    (suites : List ℕ) → not (select_suite 0 suites == 0) ≡ true → KnownSuite (select_suite 0 suites)
select_suite_known suites h = elim (Bool-cases (offers suite_rc4_sha (listed suites))) [
  | inl sha ↦ inr (select_suite-preferred 0 suites ∙ rw sha)
  | inr weaker ↦ elim (Bool-cases (offers suite_rc4_md5 (listed suites))) [
    | inl old ↦ inl (select_suite-preferred 0 suites ∙ rw (weaker, old))
    | inr other ↦
        let nothing : select_suite 0 suites ≡ 0 =
          select_suite-preferred 0 suites ∙ rw (weaker, other) in
        let never : not (0 == 0) ≡ true = rw nothing at h in absurd (cc)
  ]
]

hello_suites_good :
    (message body : List ℕ) (c d : Conn) (hello : Hello)
    → hello_suites message body c ≡ (d, good hello)
    → (c ≡ d)
      × KnownSuite hello.suite
      × (hello.message ≡ message)
      × (hello.client_random ≡ take 32 (drop 2 body))
unfolding hello_suites
hello_suites_good message body c d hello h =
    let sid_len = get_or body 34 0 in
    let cs_len = uint16 (get_or body (35 + sid_len) 0) (get_or body (36 + sid_len) 0) in
    let suite = select_suite 0 (take cs_len (drop (37 + sid_len) body)) in
    let test1 = leb (35 + sid_len + 2) (length body) in
    let test2 = cs_len % 2 == 0 && leb (37 + sid_len + cs_len + 1) (length body) in
    let (c1, u1, p1, h1) = and_then-good (require test1 malformed_session_id c) _ h in
    let (c2, u2, p2, h2) = and_then-good (require test2 malformed_cipher_suites c1) _ h1 in
    let (c3, u3, p3, h3) = and_then-good (require (not (suite == 0)) no_common_suite c2) _ h2 in
    let (q1, e1) = require-good test1 malformed_session_id c p1 in
    let (q2, e2) = require-good test2 malformed_cipher_suites c1 p2 in
    let (q3, e3) = require-good (not (suite == 0)) no_common_suite c2 p3 in
    let (last, read) = good_parts c3 d _ hello h3 in
    (
      e1 ∙ e2 ∙ e3 ∙ last,
      subst (λ (k : Hello). KnownSuite k.suite) read
          (select_suite_known (take cs_len (drop (37 + sid_len) body)) q3),
      ap (λ (k : Hello). k.message) (sym read),
      ap (λ (k : Hello). k.client_random) (sym read),
    )

accept_hello_good :
    (message : List ℕ) (c d : Conn) (hello : Hello)
    → accept_hello message c ≡ (d, good hello)
    → (d ≡ record c { version = d.version })
      × KnownVersion d.version
      × KnownSuite hello.suite
      × (hello.message ≡ message)
      × (hello.client_random ≡ take 32 (drop 2 (drop 4 message)))
      × (d.version ≡ uint16 (get_or (drop 4 message) 0 0) (get_or (drop 4 message) 1 0))
unfolding accept_hello
accept_hello_good message c d hello h =
    let body = drop 4 message in
    let version = uint16 (get_or body 0 0) (get_or body 1 0) in
    let known = version == ssl30 || version == tls10 in
    let (c1, u1, p1, h1) =
      and_then-good (require (leb 39 (length message)) short_client_hello c) _ h in
    let (c2, u2, p2, h2) =
      and_then-good (require known (unsupported_hello_version version) c1) _ h1 in
    let (q1, e1) = require-good (leb 39 (length message)) short_client_hello c p1 in
    let (q2, e2) = require-good known (unsupported_hello_version version) c1 p2 in
    let (same, suite, said, random) =
      hello_suites_good message body (record c2 { version = version }) d hello h2 in
    let set : d ≡ record c { version = version } =
      sym same ∙ ap (λ (k : Conn). record k { version = version }) (sym e2 ∙ sym e1) in
    let named : d.version ≡ version = ap (λ (k : Conn). k.version) set in
    (
      set ∙ ap (λ (v : ℕ). record c { version = v }) (sym named),
      rw named (known_version version q2),
      suite,
      said,
      random,
      named,
    )
  where
    known_version :
        (version : ℕ) → (version == ssl30 || version == tls10) ≡ true → KnownVersion version
    known_version version q = elim (Bool-cases (version == ssl30)) [
      | inl old ↦ inl ((==_iff version ssl30).0 old)
      | inr other ↦ inr ((==_iff version tls10).0 (rw other at q))
    ]

-- The connection between the calls of a handshake: the input is shorter, and the version is what
-- was agreed on.
module _ (crypto : Crypto) where
  -- The first record that was read holds the ClientHello alone, and the random bytes and the version
  -- are those of the message; nothing but the version changes behind it.
  abbrev pub HelloRead : Conn → Conn → Hello → Type 0
  HelloRead c d hello =
      (c1 : Conn) × (content : List ℕ) × (read_record crypto c
        ≡ (c1, good (record_handshake, content)))
      × (split_handshake content ≡ ok (hello.message ∷ []))
      × (hello.client_random ≡ take 32 (drop 2 (drop 4 hello.message)))
      × (d ≡ record c1 { version = d.version })
      × (d.version ≡ uint16 (get_or (drop 4 hello.message) 0 0) (get_or (drop 4 hello.message) 1 0))

  pub client_hello_good :
      (c d : Conn) (hello : Hello)
      → client_hello crypto c ≡ (d, good hello)
      → Consumes c d × KnownVersion d.version × KnownSuite hello.suite × HelloRead c d hello
  unfolding client_hello
  client_hello_good c d hello h =
      let (c1, r, got, h1) = and_then-good (read_record crypto c) _ h in
      let typed = r.0 == record_handshake in
      let (c2, u2, p2, h2) = and_then-good (require typed (expected_client_hello r.0) c1) _ h1 in
      let (q2, e2) = require-good typed (expected_client_hello r.0) c1 p2 in
      let (c3, message, alone, h3) =
        and_then-good (only_message 1 malformed_client_hello r.1 c2) _ h2 in
      let (split, first, e3) = only_message_good 1 malformed_client_hello r.1 c2 c3 message alone in
      let (set, version, suite, said, random, named) = accept_hello_good message c3 d hello h3 in
      let (before, rest, s, heard, after) = read_record_after crypto c c1 r got in
      let left : d.input ≡ rest =
        ap (λ (k : Conn). k.input)
          (set ∙ ap (λ (k : Conn). record k { version = d.version }) (sym e3 ∙ sym e2 ∙ after)) in
      let read : (c1, good r) ≡ (c1, good (record_handshake, r.1)) =
        ap (λ (t : ℕ). (c1, good (t, r.1))) ((==_iff r.0 record_handshake).0 q2) in
      (
        (before, heard ∙ ap (λ (l : List ℕ). before ++ l) (sym left)),
        version,
        suite,
        (
          c1,
          r.1,
          got ∙ read,
          split ∙ ap (λ (l : List ℕ). ok (l ∷ [])) (sym said),
          random ∙ ap (λ (l : List ℕ). take 32 (drop 2 (drop 4 l))) (sym said),
          set ∙ ap (λ (k : Conn). record k { version = d.version }) (sym e3 ∙ sym e2),
          named
              ∙ ap (λ (l : List ℕ). uint16 (get_or (drop 4 l) 0 0) (get_or (drop 4 l) 1 0))
                  (sym said),
        ),
      )
