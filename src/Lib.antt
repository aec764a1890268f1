-- ===== src/Lib.antt =====
-- hp-server is a local server for an old online racing game. A client speaks legacy FIRE: frames of
-- twelve header bytes and a payload in TDF, a tagged binary format. hpserver keeps sessions, signs
-- them in under personas, pairs them for matches and keeps the rosters of their games.
--
-- Modules, from the bottom:
--   * Prelude (Tests, Lists, Bits, Xor): names of the libraries passed on, Boolean tests, lists, and
--     bitwise or and exclusive or on the native numbers.
--   * Tdf: the codec of Fire2Encoder.go and Fire2Decoder.go. Value is `interface{}`; Varint is
--     EncodeVarsizeInteger and DecodeVarsizeInteger; Tag is encodeTag and DecodeTag; Encode is
--     encodeStruct, encodeValue and EncodeTDF, where `none` is a panic; HeatType and Decode are
--     GetTypeByID, readValue, readStruct and readElement, where `bad` is the count -1, `panic` a panic
--     and `stuck` the model's own bound, which is never met.
--   * Stream, Fire: io.ReadFull, the loop of Write, and the frames of legacyfire/frame.go.
--   * Tls: legacytls/conn.go. Message is splitHandshake and handshakeMessage; Record is readRecord,
--     writeRecord and recordMAC; Keys is prf, pHash, ssl3Generate and what is derived by them; Hello and
--     Handshake are the phases of `handshake`, in order; Io is Read and Write. A connection is a record
--     that goes through each call, also where the call fails, and holds what it meets: the peer's bytes,
--     the writer's answers, the clock and the random bytes. The crypto library is the parameter
--     `Crypto`: the digests with their sizes, HMAC, the bytes of an RC4 key's stream, and RSA decryption.
--   * IntMap: Go maps with int64 keys as lists of entries, and the search `for taken(n) { n++ }`.
--   * Session: hpserver/session.go. A session is a record, a pointer to one is a number and `Heap` is
--     what pointers lead to. Outbox is enqueue, notify, flushNotifications and close; Name and
--     Identity are the persona names, ids and addresses.
--   * Game: hpserver/game.go: newGame, addMember, removeMember, isCompatibleGame, the mesh; Setup is
--     gameSetup and replicatedGamePlayer.
--   * Server: hpserver/server.go: Auth is authenticateSessionNamed, Leave is removeSession, Match is
--     queueMatch and cancelQueuedMatch, Mesh is updateMeshConnection, Broadcast is broadcast and
--     broadcastPlayerAttributes. Handlers are those of hpserver/handlers.go: the GameManager
--     handlers and updateNetworkInfo beside Create and Removal, Answers the ones that only answer, Login
--     those of an account; Notices and Commands are its constants and notifications. Dispatch is the
--     table of registerDefaultHandlers; Serve is serveConn, and Writer is writeLoop.
--
-- Numbers: an int64 is its bit pattern below 2 ^ 64, `slt` compares two as signed and `inc64` adds
-- one around the end. A text is the list of its bytes. Times are arguments, in seconds.
--
-- Bounds: a reader of n bytes has n + 1 levels of depth, since each level reads a byte; a search for
-- a free number has one round more than numbers are taken, since each round passes one of them; an
-- integer has at most ten groups. A loop over answers of a writer ends with the answers. The loops of
-- legacytls have as many rounds as bytes that they take or make, of which each round has one at least.
--
-- Concurrency: the reads and the writes of one TLS connection are steps of their own. An operation
-- that holds the server's mutex is one step, and the notifications that it sends afterwards belong to
-- the same step. What other connections do between two requests of one connection is a function of the
-- round, given to serveConn with the clock and the failure of the writer. The pick of `select` where
-- both cases are ready is a list of choices in the session. A channel is the list of all frames that
-- were sent on it. A send that has to wait for one of the 256 places is done once there is room; that
-- none ever comes, since a client or its writer has stopped, is given to serveConn with the rest, as
-- the rounds whose sends wait for ever.
--
-- Panics: `none` is a panic of the encoder. It ends queueMatch, and it is kept as a message `none`
-- where another handler would send what the encoder did not give.
--
-- Not modelled: the FIRE2 packets and their logging, the making and loading of certificates, the
-- HTTP API, the loops that accept connections, the command line and the test client. Logging has no
-- model.
pub mod Prelude
pub mod Tdf
pub mod Stream
pub mod Fire
pub mod Tls
pub mod IntMap
pub mod Session
pub mod Game
pub mod Server
