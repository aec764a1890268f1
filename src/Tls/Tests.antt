-- ===== src/Tls/Tests.antt =====
-- The theorems on legacytls at a handshake and an exchange, with a small crypto library.
use hp_server.Prelude.{
  ℕ, ◌+◌, ◌*◌, ◌%◌, ◌≡◌, refl, true, false, none, some, List, [], ◌∷◌, ◌++◌, map, length,
  length-replicate, replicate, inr, arith,
}
use hp_server.Stream.{ok, Answer, took, write_all, answers_left}
use hp_server.Tls.{
  Hash, sha1, hash_size, Crypto, Config, CipherState, Conn, good, server, tls10, ssl30,
  record_handshake, record_change_cipher_spec, record_application_data,
}
use hp_server.Tls.Message.{handshake_message, split_handshake}
use hp_server.Tls.Message.RoundTrip.{Plain, marshal, join, split_handshake-join}
use hp_server.Tls.Keys.{finished_verify}
use hp_server.Tls.Record.{
  xor_key_stream, record_header, write_raw_record, record_mac, read_record, seal, write_record,
}
use hp_server.Tls.Record.Exchange.{InStep, sent_since, read_record-write_record}
use hp_server.Tls.Record.Accepted.{Accepted, read_record-Accepted}
use hp_server.Tls.Hello.{select_suite, server_flight}
use hp_server.Tls.Hello.Suite.{listed, preferred, select_suite-preferred}
use hp_server.Tls.Handshake.{
  suite_hash, Agreed, derive_master, derive_keys, handshake, run_handshake, finished_len,
}
use hp_server.Tls.Handshake.Secured.{Secured}
use hp_server.Tls.Handshake.Sizes.{IsSized, derive_keys-IsSized}
use hp_server.Tls.Io.{Written, conn_read, write_loop, conn_write}
use hp_server.Tls.Io.Ends.{Reads, Writes, conn_read-Reads, conn_write-Writes}
use hp_server.Tls.Io.OneRead.{Streams, Ready}
use hp_server.Tls.Io.Delivery.{Arrived, conn_write-Streams}

toy_digest_size :
    (h : Hash) (text : List ℕ) → length (replicate (hash_size h) (length text % 256)) ≡ hash_size h
toy_digest_size h text = length-replicate (hash_size h) (length text % 256)

toy_hmac_size :
    (h : Hash) (key text : List ℕ)
    → length (replicate (hash_size h) ((length key + length text) % 256)) ≡ hash_size h
toy_hmac_size h key text = length-replicate (hash_size h) ((length key + length text) % 256)

-- Digests of the right size, a stream of bytes, and a private key that opens everything.
abbrev toy : Crypto
toy = record {
  digest = λ h text. replicate (hash_size h) (length text % 256);
  hmac = λ h key text. replicate (hash_size h) ((length key + length text) % 256);
  key_stream = λ key position. (length key + 7 * position) % 256;
  decrypt = λ key text. some (replicate 48 (key % 256));
  digest_size = toy_digest_size;
  hmac_size = toy_hmac_size;
}

abbrev two_messages : List Plain
two_messages = record { typ = 1; body = 5 ∷ 6 ∷ [] } ∷ record { typ = 14; body = [] } ∷ []

split_handshake-join_example : split_handshake (join two_messages) ≡ ok (map marshal two_messages)
split_handshake-join_example = split_handshake-join two_messages (omega arith)

-- MD5 first, SHA behind it: SHA is taken.
select_suite-preferred_example :
    select_suite 0 (0 ∷ 4 ∷ 0 ∷ 5 ∷ []) ≡ preferred 0 (listed (0 ∷ 4 ∷ 0 ∷ 5 ∷ []))
select_suite-preferred_example = select_suite-preferred 0 (0 ∷ 4 ∷ 0 ∷ 5 ∷ [])

select_suite_sha : select_suite 0 (0 ∷ 4 ∷ 0 ∷ 5 ∷ 0 ∷ 4 ∷ []) ≡ 5
unfolding select_suite
select_suite_sha = refl

-- A cipher in use, and two connections in step.
abbrev cipher : CipherState
cipher = record {
  active = true;
  key = replicate 16 1;
  position = 3;
  mac_key = replicate 20 2;
  new_hash = sha1;
  seq = 9;
  version = tls10;
}

abbrev shaken : List ℕ → List Answer → Conn
shaken input answers = record (server none input answers 0 []) {
  handshaken = some (good tt);
  in_state = cipher;
  out_state = cipher;
}

abbrev writer : Conn
writer = shaken [] (took 1000 ∷ took 1000 ∷ [])

abbrev written_record : Conn
written_record = (write_record toy record_application_data (1 ∷ 2 ∷ 3 ∷ []) writer).0

abbrev reader : Conn
reader = shaken (sent_since writer written_record ++ (8 ∷ 8 ∷ [])) []

in_step : InStep writer reader
in_step = record { same_cipher = refl; same_version = refl; version_fits = omega arith }

written_ok : (write_record toy record_application_data (1 ∷ 2 ∷ 3 ∷ []) writer).1 ≡ good tt
unfolding write_record write_raw_record write_all answers_left seal record_mac xor_key_stream
written_ok = refl

abbrev read_reader : Conn
read_reader = record reader {
  input = 8 ∷ 8 ∷ [];
  first_record = false;
  in_state = written_record.out_state;
}

read_record-write_record_example :
    read_record toy reader ≡ (read_reader, good (record_application_data, 1 ∷ 2 ∷ 3 ∷ []))
read_record-write_record_example =
    read_record-write_record toy writer reader record_application_data (1 ∷ 2 ∷ 3 ∷ []) (8 ∷ 8 ∷ [])
      in_step (omega arith) written_ok refl

conn_read-Reads_example : Reads 2 (conn_read toy 2 reader)
conn_read-Reads_example = conn_read-Reads toy 2 reader

conn_write-Writes_example : Writes (1 ∷ 2 ∷ 3 ∷ []) (conn_write toy (1 ∷ 2 ∷ 3 ∷ []) writer)
conn_write-Writes_example = conn_write-Writes toy (1 ∷ 2 ∷ 3 ∷ []) writer

read_record-Accepted_example :
    Accepted toy reader read_reader record_application_data (1 ∷ 2 ∷ 3 ∷ [])
read_record-Accepted_example =
    read_record-Accepted toy reader read_reader record_application_data (1 ∷ 2 ∷ 3 ∷ [])
      read_record-write_record_example

abbrev all_written : Written
all_written = record { conn = written_record; count = 3; error = none }

reader-Ready : Ready reader
reader-Ready = record { shaken = refl; drained = refl }

all_written_ok : conn_write toy (1 ∷ 2 ∷ 3 ∷ []) writer ≡ some all_written
unfolding conn_write write_loop run_handshake write_record write_raw_record write_all answers_left
    seal record_mac xor_key_stream
all_written_ok = refl

-- Reads of two bytes, of one and of five.
conn_write-Streams_example :
    Streams toy (Arrived written_record (8 ∷ 8 ∷ [])) (2 ∷ 1 ∷ 5 ∷ []) reader (1 ∷ 2 ∷ 3 ∷ [])
conn_write-Streams_example =
    conn_write-Streams toy writer reader (1 ∷ 2 ∷ 3 ∷ []) (8 ∷ 8 ∷ []) all_written (2 ∷ 1 ∷ 5 ∷ [])
      refl in_step reader-Ready all_written_ok refl refl
      (omega arith, (omega arith, (omega arith, tt)))

-- A handshake: a TLS 1.0 hello in a record that says SSL 3.0, and the client's part of the rest.
abbrev hello_message : List ℕ
hello_message =
    handshake_message 1 (3 ∷ 1 ∷ replicate 32 9 ++ (0 ∷ 0 ∷ 4 ∷ 0 ∷ 4 ∷ 0 ∷ 5 ∷ 1 ∷ 0 ∷ []))

abbrev config : Config
config = record { certificate = (0x30 ∷ 0x31 ∷ []) ∷ []; private_key = some 7 }

abbrev random : List ℕ
random = 0 ∷ 0 ∷ 0 ∷ 0 ∷ replicate 28 3

abbrev agreed : Agreed
agreed = record {
  hello = record { message = hello_message; client_random = replicate 32 9; suite = 5 };
  version = tls10;
  random = random;
  transcript = hello_message ++ server_flight tls10 5 random config.certificate;
}

abbrev key_message : List ℕ
key_message = handshake_message 16 (replicate 4 1)

abbrev master : List ℕ
master = derive_master toy agreed (replicate 48 7)

abbrev client_finished_message : List ℕ
client_finished_message =
    handshake_message 20 (finished_verify toy tls10 master (agreed.transcript ++ key_message) true)

abbrev wire : ℕ → ℕ → List ℕ → List ℕ
wire typ version content = record_header typ version (length content) ++ content

abbrev client_sends : List ℕ
client_sends =
    wire record_handshake ssl30 hello_message
    ++ (wire record_handshake tls10 key_message
        ++ (wire record_change_cipher_spec tls10 (1 ∷ [])
            ++ wire record_handshake tls10
                (seal toy (derive_keys toy agreed master).client record_handshake
                  client_finished_message).1))

abbrev fresh : Conn
fresh =
    server (some config) client_sends (took 1000 ∷ took 1000 ∷ took 1000 ∷ []) 0 (replicate 28 3)

abbrev finished : Conn
finished = (handshake toy fresh).0

derive_keys-IsSized_example :
    IsSized (suite_hash 5) (derive_keys toy agreed master)
    × (length (finished_verify toy tls10 master [] true) ≡ finished_len tls10)
derive_keys-IsSized_example = derive_keys-IsSized toy agreed master [] true (inr refl)
