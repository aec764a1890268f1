-- ===== src/Tls/Hello.antt =====
-- The ClientHello and the server's answer in `handshake` of legacytls/conn.go.
pub mod Suite
pub mod Laws
use hp_server.Prelude.{
  ℕ, zero, suc, ◌+◌, ◌/◌, ◌%◌, ◌^◌, Bool, ◌&&◌, ◌||◌, not, List, [], ◌∷◌, ◌++◌, leb, ◌==◌, length,
  take, drop, get_or, if◌then◌else◌,
}
use hp_server.Stream.{Result, ok, err, read_full}
use hp_server.Fire.{put_uint16, uint16}
use hp_server.Tls.{
  Crypto, Config, Conn, TlsError, Outcome, good, refused, M, ◌>>=◌, ◌>>◌, give, refuse, require,
  record_handshake, ssl30, tls10, suite_rc4_md5, suite_rc4_sha, stream, expected_client_hello,
  malformed_client_hello, short_client_hello, unsupported_hello_version, malformed_session_id,
  malformed_cipher_suites, no_common_suite,
}
use hp_server.Tls.Message.{split_handshake, handshake_message, put_uint24}
use hp_server.Tls.Record.{read_record}

abbrev pub one_message : ℕ → TlsError → Result (List (List ℕ)) → M (List ℕ)
one_message typ e (ok (message ∷ [])) = if get_or message 0 0 == typ then give message else refuse e
one_message typ e (ok []) = refuse e
one_message typ e (ok (message ∷ other ∷ more)) = refuse e
one_message typ e (err _) = refuse e

-- `err != nil || len(msgs) != 1 || msgs[0][0] != typ`.
unfoldable pub only_message : ℕ → TlsError → List ℕ → M (List ℕ)
only_message typ e content = one_message typ e (split_handshake content)

-- `for i := off; i < off+csLen; i += 2`, on the bytes of the suites.
unfoldable pub select_suite : ℕ → List ℕ → ℕ
select_suite suite [] = suite
select_suite suite (a ∷ []) = suite
select_suite suite (a ∷ b ∷ rest) =
    let s = uint16 a b in
    let later = select_suite (if s == suite_rc4_md5 then s else suite) rest in
    if s == suite_rc4_sha then s else later

pub record Hello : Type 0 where
  pub message : List ℕ
  pub client_random : List ℕ
  pub suite : ℕ

abbrev pub set_version : ℕ → M (Unit {0})
set_version v c = (record c { version = v }, good tt)

-- The body of a ClientHello from its session id on.
unfoldable pub hello_suites : List ℕ → List ℕ → M Hello
hello_suites message body = do
  let sid_len = get_or body 34 0
  require (leb (35 + sid_len + 2) (length body)) malformed_session_id
  let cs_len = uint16 (get_or body (35 + sid_len) 0) (get_or body (36 + sid_len) 0)
  require (cs_len % 2 == 0 && leb (37 + sid_len + cs_len + 1) (length body)) malformed_cipher_suites
  let suite = select_suite 0 (take cs_len (drop (37 + sid_len) body))
  require (not (suite == 0)) no_common_suite
  give (record { message = message; client_random = take 32 (drop 2 body); suite = suite })

-- A ClientHello's message: four bytes of header, the version, the random bytes and the rest.
unfoldable pub accept_hello : List ℕ → M Hello
accept_hello message = do
  require (leb 39 (length message)) short_client_hello
  let body = drop 4 message
  let version = uint16 (get_or body 0 0) (get_or body 1 0)
  require (version == ssl30 || version == tls10) (unsupported_hello_version version)
  set_version version
  hello_suites message body

module _ (crypto : Crypto) where
  unfoldable pub client_hello : M Hello
  client_hello = do
    r ← read_record crypto
    require (r.0 == record_handshake) (expected_client_hello r.0)
    message ← only_message 1 malformed_client_hello r.1
    accept_hello message

-- `binary.BigEndian.PutUint32`.
abbrev put_uint32 : ℕ → List ℕ
put_uint32 v = v / 2 ^ 24 % 256 ∷ v / 2 ^ 16 % 256 ∷ v / 2 ^ 8 % 256 ∷ v % 256 ∷ []

abbrev pub took_random : Conn → Result (List ℕ × List ℕ) → Conn × Outcome (List ℕ)
took_random c (ok (bytes, rest)) =
    (record c { random = rest }, good (put_uint32 c.unix_time ++ bytes))
took_random c (err e) = (record c { random = [] }, refused (stream e))

unfoldable pub server_random : M (List ℕ)
server_random c = took_random c (read_full 28 c.random)

unfoldable pub server_hello : ℕ → ℕ → List ℕ → List ℕ
server_hello version suite random =
    handshake_message 2 (put_uint16 version ++ (random ++ (0 ∷ put_uint16 suite ++ (0 ∷ []))))

unfoldable pub chain_length : List (List ℕ) → ℕ
chain_length [] = 0
chain_length (cert ∷ certs) = 3 + length cert + chain_length certs

unfoldable pub chain_bytes : List (List ℕ) → List ℕ
chain_bytes [] = []
chain_bytes (cert ∷ certs) = put_uint24 (length cert) ++ (cert ++ chain_bytes certs)

unfoldable pub certificate_message : List (List ℕ) → List ℕ
certificate_message certs =
    handshake_message 11 (put_uint24 (chain_length certs) ++ chain_bytes certs)

-- ServerHello, Certificate and ServerHelloDone.
unfoldable pub server_flight : ℕ → ℕ → List ℕ → List (List ℕ) → List ℕ
server_flight version suite random certs =
    server_hello version suite random ++ (certificate_message certs ++ handshake_message 14 [])
