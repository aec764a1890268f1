-- ===== src/Fire.antt =====
-- legacyfire/frame.go and legacyfire/types.go: the twelve-byte header and the frame behind it.
pub mod RoundTrip
mod Tests
use hp_server.Prelude.{
  ℕ, ◌+◌, ◌*◌, ◌/◌, ◌%◌, ◌^◌, Bool, Option, none, some, List, [], ◌∷◌, ◌++◌, ltb, ◌==◌, length,
  if◌then◌else◌,
}
use hp_server.Stream.{
  Result, ok, err, StreamError, unexpected_eof, too_long, ◌>>=◌, read_full, Answer, write_all,
}
use hp_server.Tdf.Value.{Fields, no_fields}
use hp_server.Tdf.Decode.{Read, done, bad, panic, stuck, decode_tdf}

abbrev pub header_size : ℕ
header_size = 12

abbrev pub message_request : ℕ
message_request = 0x0000

abbrev pub message_reply : ℕ
message_reply = 0x1000

abbrev pub message_notify : ℕ
message_notify = 0x2000

abbrev pub message_error : ℕ
message_error = 0x3000

-- Each field is a uint16.
pub record Header : Type 0 where
  pub payload_size : ℕ
  pub component : ℕ
  pub command : ℕ
  pub error : ℕ
  pub message_type : ℕ
  pub message_id : ℕ

-- `tdf` is nil where the payload is empty or does not decode.
pub record Frame : Type 0 where
  pub header : Header
  pub payload : List ℕ
  pub tdf : Fields

-- `binary.BigEndian` on a uint16.
abbrev pub put_uint16 : ℕ → List ℕ
put_uint16 v = v / 2 ^ 8 % 256 ∷ v % 256 ∷ []

abbrev pub uint16 : ℕ → ℕ → ℕ
uint16 hi lo = hi * 2 ^ 8 + lo

unfoldable pub marshal_binary : Header → List ℕ
marshal_binary h =
    put_uint16 h.payload_size
    ++ (put_uint16 h.component
        ++ (put_uint16 h.command
            ++ (put_uint16 h.error ++ (put_uint16 h.message_type ++ put_uint16 h.message_id))))

unfoldable pub parse_header : List ℕ → Result Header
parse_header (a ∷ b ∷ c ∷ d ∷ e ∷ f ∷ g ∷ h ∷ i ∷ j ∷ k ∷ l ∷ _) = ok (record {
  payload_size = uint16 a b;
  component = uint16 c d;
  command = uint16 e f;
  error = uint16 g h;
  message_type = uint16 i j;
  message_id = uint16 k l;
})
parse_header _ = err unexpected_eof

-- `none` is a panic of the decoder.
abbrev with_tdf : Header → List ℕ → Read Fields → Option Frame
with_tdf h payload (done decoded n) = some (record { header = h; payload = payload; tdf = decoded })
with_tdf h payload (bad partial) = some (record { header = h; payload = payload; tdf = no_fields })
with_tdf h payload panic = none
with_tdf h payload stuck = none

unfoldable pub attach_tdf : Header → List ℕ → Option Frame
attach_tdf h [] = some (record { header = h; payload = []; tdf = no_fields })
attach_tdf h (b ∷ payload) = with_tdf h (b ∷ payload) (decode_tdf (b ∷ payload))

-- `Read`: the frame, or the decoder's panic, and what is left of the stream.
unfoldable pub read : List ℕ → Result (Option Frame × List ℕ)
unfolding attach_tdf
read stream = do
  (header_bytes, rest) ← read_full header_size stream
  h ← parse_header header_bytes
  (payload, rest') ← read_full h.payload_size rest
  ok (attach_tdf h payload, rest')

-- `Write` sets the size in the frame that it is given, and returns what went out with the result.
unfoldable pub write : List Answer → Frame → Frame × (List ℕ × Result (Unit {0}))
write answers f =
    let f' = record f { header = record (f.header) { payload_size = length f.payload % 2 ^ 16 } } in
    if ltb 0xffff (length f.payload)
    then (f, ([], err too_long))
    else (f', write_all answers (marshal_binary (f'.header) ++ f.payload))

-- The literals of `Reply` and `ErrorReply` leave the other fields zero.
unfoldable pub reply : Frame → List ℕ → Frame
reply req payload = record {
  header = record {
    payload_size = 0;
    component = req.header.component;
    command = req.header.command;
    error = 0;
    message_type = message_reply;
    message_id = req.header.message_id;
  };
  payload = payload;
  tdf = no_fields;
}

unfoldable pub error_reply : Frame → ℕ → List ℕ → Frame
error_reply req code payload = record {
  header = record {
    payload_size = 0;
    component = req.header.component;
    command = req.header.command;
    error = code;
    message_type = message_error;
    message_id = req.header.message_id;
  };
  payload = payload;
  tdf = no_fields;
}
