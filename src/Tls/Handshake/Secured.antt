-- ===== src/Tls/Handshake/Secured.antt =====
-- What the success of a handshake means.
use hp_server.Prelude.{ℕ, ◌≡◌, some, List, [], ◌∷◌, ◌++◌, length}
use hp_server.Tls.{Crypto, Config, Conn, good, record_handshake}
use hp_server.Tls.Handshake.{Agreed, derive_master, encrypted_premaster}
use hp_server.Tls.Handshake.Finish.{Ended}
use hp_server.Tls.Handshake.Greeting.{Consumes, KnownSuite, KnownVersion, HelloRead}
use hp_server.Tls.Handshake.Hellos.{Answered}
use hp_server.Stream.{ok}
use hp_server.Tls.Message.{split_handshake}
use hp_server.Tls.Record.{read_record}

module _ (crypto : Crypto) where
  -- The next record holds the ClientKeyExchange alone, and what it carries decrypts to a premaster.
  abbrev KeyRead : ℕ → Conn → Conn → List ℕ → List ℕ → Type 0
  KeyRead key c before message premaster =
      (content : List ℕ) × (read_record crypto c ≡ (before, good (record_handshake, content)))
      × (split_handshake content ≡ ok (message ∷ []))
      × (crypto.decrypt key (encrypted_premaster message) ≡ some premaster)
      × (length premaster ≡ 48)

  -- The key exchange and what follows it.
  abbrev Exchanged : ℕ → Agreed → Conn → Conn → Type 0
  Exchanged key agreed c d =
      (message premaster : List ℕ) × (before : Conn) × KeyRead key c before message premaster
      × Consumes c before
      × Ended crypto agreed (derive_master crypto agreed premaster) (agreed.transcript ++ message)
          before d
      × (d.version ≡ c.version)

  -- What a connection and the end of its handshake have to do with each other. The hello is the one
  -- message of the first record that was read; the flight went out in one record behind it, and the
  -- transcript is the two; the key exchange is the one message of the next record.
  abbrev pub Secured : Conn → Conn → Type 0
  Secured c d =
      (config : Config) × (key : ℕ) × (agreed : Agreed) × (greeted flown before : Conn) × (message
        premaster : List ℕ)
      × (c.config ≡ some config)
      × (config.private_key ≡ some key)
      × KnownVersion agreed.version
      × KnownSuite agreed.hello.suite
      × (d.version ≡ agreed.version)
      × HelloRead crypto c greeted agreed.hello
      × Answered config.certificate greeted flown agreed
      × (flown.input ≡ greeted.input)
      × KeyRead key flown before message premaster
      × Consumes c before
      × Ended crypto agreed (derive_master crypto agreed premaster) (agreed.transcript ++ message)
          before d
