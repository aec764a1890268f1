-- ===== src/Tls/Handshake.antt =====
-- `handshake` of legacytls/conn.go after the ClientHello, and `makeCipher`.
pub mod Finished
pub mod Finish
pub mod Greeting
pub mod Hellos
pub mod Secured
pub mod Sizes
use hp_server.Prelude.{
  ℕ, ◌+◌, ◌-◌, ◌*◌, Bool, true, false, ◌&&◌, Option, none, some, List, [], ◌∷◌, ◌++◌, leb, ◌==◌,
  length, take, drop, get_or, if◌then◌else◌, text_eq,
}
use hp_server.Fire.{uint16}
use hp_server.Tls.{
  Hash, md5, sha1, hash_size, Crypto, Config, CipherState, Conn, TlsError, Outcome, good, refused,
  M, ◌>>=◌, ◌>>◌, give, refuse, require, record_handshake, record_change_cipher_spec, tls10, ssl30,
  suite_rc4_md5, key_required, expected_key_exchange, malformed_key_exchange, premaster_failed,
  expected_change_cipher_spec, expected_finished, malformed_finished, finished_failed,
}
use hp_server.Tls.Message.{handshake_message}
use hp_server.Tls.Keys.{master_secret, expand_keys, finished_verify}
use hp_server.Tls.Record.{read_record, write_raw_record, write_record}
use hp_server.Tls.Hello.{Hello, client_hello, server_random, server_flight, only_message}

-- A configuration that can serve: its chain and its key.
pub record Usable : Type 0 where
  pub chain : List (List ℕ)
  pub key : ℕ

abbrev pub checked_key : List (List ℕ) → Option ℕ → M Usable
checked_key certs none = refuse key_required
checked_key [] (some key) = refuse key_required
checked_key (cert ∷ certs) (some key) = give (record { chain = cert ∷ certs; key = key })

abbrev pub checked : Option Config → M Usable
checked none = refuse key_required
checked (some config) = checked_key config.certificate config.private_key

unfoldable pub usable_config : M Usable
usable_config c = checked c.config c

unfoldable pub make_cipher : List ℕ → List ℕ → Hash → ℕ → CipherState
make_cipher key mac_key new_hash version = record {
  active = true;
  key = key;
  position = 0;
  mac_key = mac_key;
  new_hash = new_hash;
  seq = 0;
  version = version;
}

abbrev pub suite_hash : ℕ → Hash
suite_hash suite = if suite == suite_rc4_md5 then md5 else sha1

-- The ciphers of both directions, cut from the key block.
pub record Keys : Type 0 where
  pub client : CipherState
  pub server : CipherState

unfoldable pub cut_keys : Hash → ℕ → List ℕ → Keys
cut_keys h version block = record {
  client =
      make_cipher (take 16 (drop (2 * hash_size h) block)) (take (hash_size h) block) h version;
  server =
      make_cipher (drop (2 * hash_size h + 16) block)
        (take (hash_size h) (drop (hash_size h) block)) h version;
}

-- `enc`, less a length in front that fits.
unfoldable pub encrypted_premaster : List ℕ → List ℕ
encrypted_premaster message =
    let enc = drop 4 message in
    if leb 2 (length enc) && (uint16 (get_or enc 0 0) (get_or enc 1 0) == length enc - 2)
    then drop 2 enc
    else enc

abbrev pub premaster_of : Option (List ℕ) → M (List ℕ)
premaster_of none = refuse premaster_failed
premaster_of (some premaster) =
    if length premaster == 48 then give premaster else refuse premaster_failed

abbrev pub install_in : CipherState → M (Unit {0})
install_in s c = (record c { in_state = s }, good tt)

abbrev pub install_out : CipherState → M (Unit {0})
install_out s c = (record c { out_state = s }, good tt)

abbrev pub finished_len : ℕ → ℕ
finished_len version = if version == ssl30 then 36 else 12

abbrev pub get_version : M ℕ
get_version c = (c, good c.version)

-- The client's Finished, which must say what `want` does.
unfoldable pub check_finished : ℕ → List ℕ → ℕ × List ℕ → M (List ℕ)
check_finished version want r = do
  require (r.0 == record_handshake) expected_finished
  message ← only_message 20 malformed_finished r.1
  require (length message == 4 + finished_len version) malformed_finished
  require (text_eq (drop 4 message) want) finished_failed
  give message

-- What the two hellos settle.
pub record Agreed : Type 0 where
  pub hello : Hello
  pub version : ℕ
  pub random : List ℕ
  pub transcript : List ℕ

-- ServerHello, Certificate and ServerHelloDone, in one record.
unfoldable pub send_flight : Usable → Hello → M Agreed
send_flight usable hello = do
  random ← server_random
  version ← get_version
  let flight = server_flight version hello.suite random usable.chain
  write_raw_record record_handshake flight
  give (record {
    hello = hello;
    version = version;
    random = random;
    transcript = hello.message ++ flight;
  })

module _ (crypto : Crypto) where
  open crypto use {decrypt}

  -- From the ClientHello to the flight that answers it.
  unfoldable pub exchange_hellos : Usable → M Agreed
  exchange_hellos usable = do hello ← client_hello crypto; send_flight usable hello

  -- The message of the ClientKeyExchange.
  unfoldable pub client_key_exchange : M (List ℕ)
  client_key_exchange = do
    r ← read_record crypto
    require (r.0 == record_handshake) expected_key_exchange
    only_message 16 malformed_key_exchange r.1

  unfoldable pub derive_master : Agreed → List ℕ → List ℕ
  derive_master agreed premaster =
      master_secret crypto agreed.version premaster agreed.hello.client_random agreed.random

  unfoldable pub derive_keys : Agreed → List ℕ → Keys
  derive_keys agreed master =
      let h = suite_hash agreed.hello.suite in
      cut_keys h agreed.version (
        expand_keys crypto agreed.version master agreed.hello.client_random agreed.random
          (2 * hash_size h + 32))

  unfoldable pub change_cipher_spec : M (Unit {0})
  change_cipher_spec = do
    r ← read_record crypto
    require (r.0 == record_change_cipher_spec && text_eq r.1 (1 ∷ [])) expected_change_cipher_spec

  unfoldable pub client_finished : ℕ → List ℕ → M (List ℕ)
  client_finished version want = do r ← read_record crypto; check_finished version want r

  -- What the server sends once the client's Finished is right.
  unfoldable pub answer_finished : Agreed → List ℕ → List ℕ → M (Unit {0})
  answer_finished agreed master transcript = do
    write_raw_record record_change_cipher_spec (1 ∷ [])
    install_out (derive_keys agreed master).server
    write_record crypto record_handshake
        (handshake_message 20 (finished_verify crypto agreed.version master transcript false))

  -- From the keys on.
  unfoldable pub finish : Agreed → List ℕ → List ℕ → M (Unit {0})
  finish agreed master transcript = do
    change_cipher_spec
    install_in (derive_keys agreed master).client
    message ←
        client_finished agreed.version
          (finished_verify crypto agreed.version master transcript true)
    answer_finished agreed master (transcript ++ message)

  -- From the ClientKeyExchange on.
  unfoldable pub exchange_keys : ℕ → Agreed → M (Unit {0})
  exchange_keys key agreed = do
    message ← client_key_exchange
    premaster ← premaster_of (decrypt key (encrypted_premaster message))
    finish agreed (derive_master agreed premaster) (agreed.transcript ++ message)

  unfoldable pub handshake : M (Unit {0})
  handshake = do
    usable ← usable_config
    agreed ← exchange_hellos usable
    exchange_keys usable.key agreed

  abbrev pub once_done : Conn × Outcome (Unit {0}) → Conn × Outcome (Unit {0})
  once_done (c, outcome) = (record c { handshaken = some outcome }, outcome)

  abbrev pub once : Option (Outcome (Unit {0})) → M (Unit {0})
  once none c = once_done (handshake c)
  once (some outcome) c = (c, outcome)

  -- `Handshake`, which runs at most once.
  unfoldable pub run_handshake : M (Unit {0})
  run_handshake c = once c.handshaken c
