-- ===== src/Tls/Message.antt =====
-- The messages inside handshake records of legacytls/conn.go.
pub mod RoundTrip
use hp_server.Prelude.{
  ℕ, zero, suc, ◌+◌, ◌*◌, ◌/◌, ◌%◌, ◌^◌, Option, none, some, List, [], ◌∷◌, ◌++◌, bit_or, ltb,
  length, get_or, take, drop, if◌then◌else◌,
}
use hp_server.Stream.{Result, ok, err, unexpected_eof, broken}

-- The three bytes that `putUint24` writes.
unfoldable pub put_uint24 : ℕ → List ℕ
put_uint24 n = n / 2 ^ 16 % 256 ∷ n / 2 ^ 8 % 256 ∷ n % 256 ∷ []

unfoldable pub handshake_message : ℕ → List ℕ → List ℕ
handshake_message typ body = typ ∷ put_uint24 (length body) ++ body

-- `int(b[1])<<16 | int(b[2])<<8 | int(b[3])`.
unfoldable pub message_length : List ℕ → ℕ
message_length b = bit_or (bit_or (get_or b 1 0 * 2 ^ 16) (get_or b 2 0 * 2 ^ 8)) (get_or b 3 0)

abbrev pub keep_message : List ℕ → Option (Result (List (List ℕ))) → Option (Result (List (List ℕ)))
keep_message message none = none
keep_message message (some (ok messages)) = some (ok (message ∷ messages))
keep_message message (some (err e)) = some (err e)

-- The loop takes four bytes or more in each round, so the number of bytes is enough fuel; `none` is
-- a loop that ran out of it.
unfoldable pub split_loop : ℕ → List ℕ → Option (Result (List (List ℕ)))
split_loop fuel [] = some (ok [])
split_loop zero (b ∷ bs) = none
split_loop (suc fuel) (b ∷ bs) =
    let whole = b ∷ bs in
    let n = message_length whole in
    let rest = keep_message (take (n + 4) whole) (split_loop fuel (drop (n + 4) whole)) in
    if ltb (length whole) 4
    then some (err unexpected_eof)
    else if ltb (length whole) (n + 4)
    then some (err unexpected_eof)
    else rest

abbrev pub split_result : Option (Result (List (List ℕ))) → Result (List (List ℕ))
split_result none = err broken
split_result (some r) = r

unfoldable pub split_handshake : List ℕ → Result (List (List ℕ))
unfolding split_loop
split_handshake b = split_result (split_loop (length b) b)
