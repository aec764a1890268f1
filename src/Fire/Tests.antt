-- ===== src/Fire/Tests.antt =====
-- The theorems on legacyfire/frame.go at concrete frames.
use hp_server.Prelude.{ℕ, zero, suc, ◌≡◌, refl, List, [], ◌∷◌, ◌++◌, length, replicate, arith, All}
use hp_server.Tdf.Value.{no_fields}
use hp_server.Stream.{ok, Answer, took}
use hp_server.Stream.Laws.{IsProgress}
use hp_server.Fire.{
  Header, Frame, marshal_binary, parse_header, read, write, reply, error_reply, attach_tdf,
}
use hp_server.Fire.RoundTrip.{IsHeader, parse-marshal, arrives, read-write, reply_arrives}

-- A request to the component 9, command 7, with the id 300.
abbrev ping : Header
ping = record {
  payload_size = 0;
  component = 9;
  command = 7;
  error = 0;
  message_type = 0;
  message_id = 300;
}

ping-IsHeader : IsHeader ping
ping-IsHeader = record {
  payload_size = omega arith;
  component = omega arith;
  command = omega arith;
  error = omega arith;
  message_type = omega arith;
  message_id = omega arith;
}

ping_bytes : marshal_binary ping ≡ 0 ∷ 0 ∷ 0 ∷ 9 ∷ 0 ∷ 7 ∷ 0 ∷ 0 ∷ 0 ∷ 0 ∷ 1 ∷ 44 ∷ []
unfolding marshal_binary
ping_bytes = refl

abbrev ping_frame : Frame
ping_frame = record { header = ping; payload = 0x61 ∷ 0x62 ∷ []; tdf = no_fields }

-- A writer that takes ten bytes, and then at most one at a time.
abbrev slow : List Answer
slow = took 10 ∷ replicate 19 (took 1)

ones-IsProgress : (n : ℕ) → All IsProgress (replicate n (took 1))
ones-IsProgress zero = tt
ones-IsProgress (suc n) = (omega arith, ones-IsProgress n)

slow-IsProgress : All IsProgress slow
slow-IsProgress = (omega arith, ones-IsProgress 19)

parse-marshal_example :
    (parse_header (marshal_binary ping ++ 5 ∷ []) ≡ ok ping) × (length (marshal_binary ping) ≡ 12)
parse-marshal_example = parse-marshal ping (5 ∷ []) ping-IsHeader

read-write_example :
    ((write slow ping_frame).1.1 ≡ ok tt)
    × (read ((write slow ping_frame).1.0 ++ 5 ∷ []) ≡ arrives ping_frame (5 ∷ []))
read-write_example =
    read-write slow ping_frame (5 ∷ []) ping-IsHeader (omega arith) slow-IsProgress (omega arith)

-- The header of an answer to the ping with two bytes.
abbrev answer : ℕ → ℕ → Header
answer type error = record ping { payload_size = 2; error = error; message_type = type }

reply_arrives_example :
    (read ((write slow (reply ping_frame (1 ∷ 2 ∷ []))).1.0 ++ [])
      ≡ ok (attach_tdf (answer 0x1000 0) (1 ∷ 2 ∷ []), []))
    × (read ((write slow (error_reply ping_frame 5 (1 ∷ 2 ∷ []))).1.0 ++ [])
        ≡ ok (attach_tdf (answer 0x3000 5) (1 ∷ 2 ∷ []), []))
reply_arrives_example =
    reply_arrives slow ping_frame 5 (1 ∷ 2 ∷ []) [] ping-IsHeader (omega arith) (omega arith)
      slow-IsProgress (omega arith)
