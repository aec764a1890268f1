-- ===== src/Stream.antt =====
-- The byte streams under the protocols: `io.ReadFull` on what a peer sends, and a loop that writes
-- a packet whole. They are the language's library, met in legacyfire/frame.go and
-- legacytls/conn.go.
pub mod Laws
use hp_server.Prelude.{
  ℕ, zero, suc, Bool, Option, List, [], ◌∷◌, ◌++◌, leb, ◌==◌, length, take, drop, if◌then◌else◌,
}

-- `io.EOF` where no byte came, `io.ErrUnexpectedEOF` where too few did.
pub data StreamError : Type 0 where
  eof unexpected_eof short_write broken too_long : StreamError

pub data Result {ℓ} (A : Type ℓ) : Type ℓ where
  ok : A → Result A
  err : StreamError → Result A

infixl 5 ◌>>=◌
abbrev pub ◌>>=◌ {ℓ κ} : {A : Type ℓ} {B : Type κ} → Result A → (A → Result B) → Result B
ok a >>= f = f a
err e >>= f = err e

-- `io.ReadFull(r, buf)` with `len(buf)` = n, on the bytes that come before the end of the stream:
-- what is read, and what is left.
unfoldable pub read_full : ℕ → List ℕ → Result (List ℕ × List ℕ)
read_full n stream =
    if leb n (length stream)
    then ok (take n stream, drop n stream)
    else if length stream == 0
    then err eof
    else err unexpected_eof

-- What a call of `Write` answers: it took so many bytes of the packet, or it failed.
pub data Answer : Type 0 where
  took : ℕ → Answer
  failed : Answer

-- `for len(packet) != 0 { n, err := w.Write(packet) … packet = packet[n:] }` against the answers of
-- the writer: what went out, and how the loop ended. A writer takes at most what it is given. With
-- the answers used up the writer is closed, so the loop ends in any case.
unfoldable pub write_all : List Answer → List ℕ → List ℕ × Result (Unit {0})
write_all answers [] = ([], ok tt)
write_all [] (b ∷ packet) = ([], err broken)
write_all (failed ∷ answers) (b ∷ packet) = ([], err broken)
write_all (took zero ∷ answers) (b ∷ packet) = ([], err short_write)
write_all (took (suc n) ∷ answers) (b ∷ packet) =
    let (out, result) = write_all answers (drop (suc n) (b ∷ packet)) in
    (take (suc n) (b ∷ packet) ++ out, result)

-- The answers that the loop has not used.
unfoldable pub answers_left : List Answer → List ℕ → List Answer
answers_left answers [] = answers
answers_left [] (b ∷ packet) = []
answers_left (failed ∷ answers) (b ∷ packet) = answers
answers_left (took zero ∷ answers) (b ∷ packet) = answers
answers_left (took (suc n) ∷ answers) (b ∷ packet) =
    answers_left answers (drop (suc n) (b ∷ packet))
