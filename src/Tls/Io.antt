-- ===== src/Tls/Io.antt =====
-- `Read` and `Write` of legacytls/conn.go.
pub mod Ends
pub mod OneRead
pub mod Delivery
use hp_server.Prelude.{
  ℕ, zero, suc, ◌+◌, Bool, Option, none, some, List, [], ◌∷◌, leb, ◌==◌, ◌&&◌, length, take, drop,
  get_or, if◌then◌else◌,
}
use hp_server.Stream.{eof}
use hp_server.Tls.{
  Crypto, Conn, TlsError, Outcome, good, refused, M, and_then, record_application_data,
  record_alert, stream, peer_alert, unexpected_record,
}
use hp_server.Tls.Record.{read_record, write_record}
use hp_server.Tls.Handshake.{run_handshake}

-- A `Write`: the connection after it, the bytes written and the error, if any.
pub record Written : Type 0 where
  pub conn : Conn
  pub count : ℕ
  pub error : Option TlsError

abbrev pub largest_chunk : ℕ
largest_chunk = 16384

abbrev pub chunk : List ℕ → List ℕ
chunk p = take largest_chunk p

-- What one record does for a `Read`: application data fill the buffer, a close alert ends the
-- stream, and all else is an error.
unfoldable pub take_record : ℕ × List ℕ → M (Unit {0})
take_record (typ, content) c =
    if typ == record_application_data
    then (record c { read_buf = content }, good tt)
    else if typ == record_alert
    then (if leb 2 (length content) && (get_or content 1 0 == 0)
        then (c, refused (stream eof))
        else (c, refused (peer_alert content)))
    else (c, refused (unexpected_record typ))

-- `c.readBuf.Read(p)` with `len(p)` = n, on a buffer that is not empty.
unfoldable pub read_buffer : ℕ → Conn → Conn × Outcome (List ℕ)
read_buffer n c = (record c { read_buf = drop n c.read_buf }, good (take n c.read_buf))

-- The next round, unless the record ended the loop.
abbrev pub fill_on :
    (Conn → Option (Conn × Outcome (Unit {0})))
    → Conn × Outcome (Unit {0})
    → Option (Conn × Outcome (Unit {0}))
fill_on next (c, refused e) = some (c, refused e)
fill_on next (c, good u) = next c

abbrev pub write_on : (Conn → Option Written) → ℕ → Conn × Outcome (Unit {0}) → Option Written
write_on next written (c, refused e) = some (record { conn = c; count = written; error = some e })
write_on next written (c, good u) = next c

abbrev pub fill_then : ℕ → Option (Conn × Outcome (Unit {0})) → Option (Conn × Outcome (List ℕ))
fill_then n none = none
fill_then n (some (d, refused e)) = some (d, refused e)
fill_then n (some (d, good u)) = some (read_buffer n d)

module _ (crypto : Crypto) where
  -- `for c.readBuf.Len() == 0`; each round takes five bytes of the input at least. `none` is a loop
  -- that ran out of fuel.
  unfoldable pub fill_loop : ℕ → Conn → List ℕ → Option (Conn × Outcome (Unit {0}))
  fill_loop fuel c (b ∷ buffered) = some (c, good tt)
  fill_loop zero c [] = none
  fill_loop (suc fuel) c [] =
      fill_on (λ d. fill_loop fuel d d.read_buf) (and_then (read_record crypto c) take_record)

  abbrev pub read_after : ℕ → Conn × Outcome (Unit {0}) → Option (Conn × Outcome (List ℕ))
  read_after n (c, refused e) = some (c, refused e)
  read_after n (c, good u) = fill_then n (fill_loop (suc (length c.input)) c c.read_buf)

  -- `Read` of at most n bytes.
  unfoldable pub conn_read : ℕ → Conn → Option (Conn × Outcome (List ℕ))
  conn_read n c = read_after n (run_handshake crypto c)

  -- The loop of `Write`, a chunk in each round, so the bytes' number is enough fuel.
  unfoldable pub write_loop : ℕ → Conn → ℕ → List ℕ → Option Written
  write_loop fuel c written [] = some (record { conn = c; count = written; error = none })
  write_loop zero c written (b ∷ p) = none
  write_loop (suc fuel) c written (b ∷ p) =
      write_on
        (λ d. write_loop fuel d (written + length (chunk (b ∷ p))) (drop largest_chunk (b ∷ p)))
        written (write_record crypto record_application_data (chunk (b ∷ p)) c)

  abbrev pub write_after : List ℕ → Conn × Outcome (Unit {0}) → Option Written
  write_after p (c, refused e) = some (record { conn = c; count = 0; error = some e })
  write_after p (c, good u) = write_loop (length p) c 0 p

  -- `Write` of all bytes of `p`.
  unfoldable pub conn_write : List ℕ → Conn → Option Written
  conn_write p c = write_after p (run_handshake crypto c)
