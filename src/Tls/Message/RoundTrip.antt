-- ===== src/Tls/Message/RoundTrip.antt =====
-- Messages that are put one after another come apart again.
use hp_server.Prelude.{
  ℕ, zero, suc, ◌+◌, ◌*◌, ◌/◌, ◌%◌, ◌^◌, ◌<◌, ◌≤◌, ◌≡◌, refl, ap, ◌∙◌, some, List, [], ◌∷◌, ◌++◌,
  map, length, length-append, All, arith, bit_or, append_assoc, ltb, false, take-append_left,
  drop-append_left,
}
use hp_server.Prelude.Bits.{bit_or_below}
use hp_server.Stream.{ok}
use hp_server.Tls.Message.{
  put_uint24, handshake_message, message_length, split_loop, split_handshake, keep_message,
  split_result,
}

-- A message before it is put on the wire: its type and its body.
pub record Plain : Type 0 where
  pub typ : ℕ
  pub body : List ℕ

abbrev pub marshal : Plain → List ℕ
marshal m = handshake_message m.typ m.body

abbrev pub join : List Plain → List ℕ
join [] = []
join (m ∷ ms) = marshal m ++ join ms

-- What three bytes of length can say.
abbrev pub Fits : Plain → Type 0
Fits m = length m.body < 2 ^ 24

pub length-handshake_message :
    (typ : ℕ) (body : List ℕ) → length (handshake_message typ body) ≡ length body + 4
unfolding handshake_message put_uint24
length-handshake_message typ body = omega arith

length_bytes :
    (n t : ℕ) (rest : List ℕ) → n < 2 ^ 24 → message_length (t ∷ put_uint24 n ++ rest) ≡ n
unfolding message_length put_uint24
length_bytes n t rest h =
    let outer : bit_or (n / 2 ^ 16 % 256 * 2 ^ 16) (n / 2 ^ 8 % 256 * 2 ^ 8)
        ≡ n / 2 ^ 16 % 256 * 2 ^ 16 + n / 2 ^ 8 % 256 * 2 ^ 8 =
      bit_or_below 16 (n / 2 ^ 16 % 256) (n / 2 ^ 8 % 256 * 2 ^ 8) (omega arith) in
    let joined : n / 2 ^ 16 % 256 * 2 ^ 16 + n / 2 ^ 8 % 256 * 2 ^ 8 ≡ n / 2 ^ 8 * 2 ^ 8 =
      omega arith in
    rw (outer, joined) (bit_or_below 8 (n / 2 ^ 8) (n % 256) (omega arith) ∙ omega arith)

loop_nil : (fuel : ℕ) → split_loop fuel [] ≡ some (ok [])
unfolding split_loop
loop_nil fuel = refl

-- A round of the loop on a whole message with others behind it.
loop_step :
    (fuel n : ℕ) (b : ℕ) (message rest : List ℕ)
    → message_length (b ∷ message ++ rest) ≡ n
    → length (b ∷ message) ≡ n + 4
    → split_loop (suc fuel) (b ∷ message ++ rest)
      ≡ keep_message (b ∷ message) (split_loop fuel rest)
unfolding split_loop
loop_step fuel n b message rest says long =
    let enough : ltb (length (b ∷ message ++ rest)) (n + 4) ≡ false =
      ground (arith, length-append (b ∷ message) rest) in
    let header : ltb (length (b ∷ message ++ rest)) 4 ≡ false =
      ground (arith, length-append (b ∷ message) rest) in
    rw (
      says,
      header,
      enough,
      take-append_left (n + 4) (b ∷ message) rest long,
      drop-append_left (n + 4) (b ∷ message) rest long,
    )

split_step :
    (fuel : ℕ) (m : Plain) (rest : List ℕ)
    → Fits m
    → split_loop (suc fuel) (marshal m ++ rest) ≡ keep_message (marshal m) (split_loop fuel rest)
unfolding handshake_message
split_step fuel m rest fits =
    let n = length m.body in
    loop_step fuel n m.typ (put_uint24 n ++ m.body) rest
      (ap (λ (l : List ℕ). message_length (m.typ ∷ l)) (append_assoc (put_uint24 n) m.body rest)
        ∙ length_bytes n m.typ (m.body ++ rest) fits)
      (length-handshake_message m.typ m.body)

split_each :
    (ms : List Plain) (fuel : ℕ)
    → All Fits ms
    → length (join ms) ≤ fuel
    → split_loop fuel (join ms) ≡ some (ok (map marshal ms))
split_each [] fuel fits enough = loop_nil fuel
split_each (m ∷ ms) zero fits enough =
    absurd
      (omega (arith, length-append (marshal m) (join ms), length-handshake_message m.typ m.body))
split_each (m ∷ ms) (suc fuel) fits enough = rw (
  split_step fuel m (join ms) fits.0,
  split_each ms fuel fits.1
      (omega (arith, length-append (marshal m) (join ms), length-handshake_message m.typ m.body)),
)

-- Handshake messages one after another come apart into the same messages, where each body fits the
-- three bytes of its length.
pub split_handshake-join :
    (ms : List Plain) → All Fits ms → split_handshake (join ms) ≡ ok (map marshal ms)
unfolding split_handshake
split_handshake-join ms fits = ap split_result (split_each ms (length (join ms)) fits (omega arith))
