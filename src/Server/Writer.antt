-- ===== src/Server/Writer.antt =====
-- `writeLoop` of hpserver/server.go: the frames of a session's channel, in order, onto the
-- connection.
pub mod Order
use hp_server.Prelude.{ℕ, Option, none, some, List, [], ◌∷◌, ◌++◌}
use hp_server.Stream.{Result, ok, err, StreamError, broken, Answer, answers_left}
use hp_server.Fire.{Frame, write}
use hp_server.Session.{Message, OutboundFrame}

-- What went out, and the error that ended the loop, if any.
abbrev pub Wire : Type 0
Wire = List ℕ × Result (Unit {0})

abbrev pub after_write : Wire → Wire → Wire
after_write (out, ok u) (later, result) = (out ++ later, result)
after_write (out, err e) later = (out, err e)

-- A frame that was never made, since its encoder ended the program, is written by nobody: here the
-- loop ends on it.
abbrev pub write_message : List Answer → Message → Wire
write_message answers none = ([], err broken)
write_message answers (some frame) = (write answers frame).1

abbrev pub left_after : List Answer → Wire → List Answer
left_after answers (out, result) = answers_left answers out

-- The delays only put the frames off. The answers of the writer go on from frame to frame.
unfoldable pub write_loop : List Answer → List OutboundFrame → Wire
write_loop answers [] = ([], ok tt)
write_loop answers (item ∷ items) =
    let wire = write_message answers item.frame in
    after_write wire (write_loop (left_after answers wire) items)
