-- ===== src/Server/Serve/Tests.antt =====
-- The theorems on requests and connections at a logout, a broken stream and two frames.
use hp_server.Prelude.{
  ℕ, ◌≡◌, ◌≢◌, refl, true, false, none, some, List, [], ◌∷◌, ◌++◌, map, replicate, arith, bytes_of,
}
use hp_server.IntMap
use hp_server.Tdf.Value.{no_fields}
use hp_server.Stream.{ok, Answer, took}
use hp_server.Fire.{Frame, Header, reply}
use hp_server.Fire.RoundTrip.{IsHeader}
use hp_server.Session.{Heap, new_session, store, closed_channel}
use hp_server.Server.{Server, new, update_session}
use hp_server.Server.Commands.{component_authentication, command_logout}
use hp_server.Server.Handlers.{acknowledge, reply_with}
use hp_server.Server.Handlers.Answers.{must_hex}
use hp_server.Server.Dispatch.{
  Handler, handler_key, stateless, register_all, default_handlers, handler_of,
}
use hp_server.Server.Dispatch.Addressed.{IsAnswer}
use hp_server.Server.Dispatch.Table.{handler_of-IsAnswer}
use hp_server.Server.Serve.{again, Meets, serve_request, serve_conn}
use hp_server.Server.Serve.Reply.{answered, serve_request-Replies}
use hp_server.Server.Serve.Ends.{Ends, serve_conn-Ends}
use hp_server.Server.Writer.{write_loop}
use hp_server.Server.Writer.Order.{Arrive, queued, write_loop-Arrive}

abbrev guests : Heap
guests p = new_session none []

abbrev fresh : Server
fresh = new [] guests

abbrev logout_header : Header
logout_header = record {
  payload_size = 0;
  component = component_authentication;
  command = command_logout;
  error = 0;
  message_type = 0;
  message_id = 77;
}

abbrev logout : Frame
logout = record { header = logout_header; payload = []; tdf = no_fields }

abbrev acknowledged : Handler
acknowledged = stateless acknowledge

logout_handler : handler_of default_handlers logout ≡ some acknowledged
unfolding handler_of default_handlers register_all handler_key IntMap.get IntMap.put
logout_handler = refl

handler_of-IsAnswer_example : IsAnswer logout (acknowledge logout)
handler_of-IsAnswer_example =
    handler_of-IsAnswer 1000 1 logout fresh fresh acknowledged (acknowledge logout) logout_handler
      refl

-- A logout behind which a notification is pending.
abbrev noticed : Server
noticed =
    update_session 1
      (λ session. record session { notifications = none ∷ []; notification_delay = 250 }) fresh

abbrev logged_out : Frame
logged_out = reply logout []

logout_given : acknowledged 1000 1 logout noticed ≡ some (noticed, some logged_out)
unfolding reply_with
logout_given = refl

first_channel : (noticed.heap 1).outbound ≡ some []
unfolding update_session store
first_channel = refl

first_open : (noticed.heap 1).closing ≢ closed_channel
unfolding update_session store
first_open = λ h. cc

serve_request-Replies_example :
    serve_request default_handlers 1000 1 logout noticed
    ≡ again (update_session 1 (answered logged_out []) noticed)
serve_request-Replies_example =
    serve_request-Replies default_handlers 1000 1 logout noticed noticed acknowledged logged_out []
      logout_handler logout_given first_channel first_open

-- Nothing else happens, and the writer holds.
abbrev quiet : Meets
quiet = record {
  clock = λ round. 1000;
  others = λ round s. s;
  write_failed = λ round. false;
  blocked = λ round. false;
}

serve_conn-Ends_example :
    Ends quiet 1 (serve_conn default_handlers quiet none [] true 1 (0 ∷ 0 ∷ 0 ∷ 1 ∷ 0 ∷ []) fresh)
serve_conn-Ends_example =
    serve_conn-Ends default_handlers quiet none [] true 1 (0 ∷ 0 ∷ 0 ∷ 1 ∷ 0 ∷ []) fresh

abbrev two_frames : List (ℕ × Frame)
two_frames = (0, logout) ∷ (250, record logout { payload = 5 ∷ 6 ∷ [] }) ∷ []

logout-IsHeader : IsHeader logout_header
logout-IsHeader = record {
  payload_size = omega arith;
  component = omega arith;
  command = omega arith;
  error = omega arith;
  message_type = omega arith;
  message_id = omega arith;
}

abbrev slow : List Answer
slow = replicate 30 (took 1)

write_loop-Arrive_example :
    ((write_loop slow (map queued two_frames)).1 ≡ ok tt)
    × Arrive ((write_loop slow (map queued two_frames)).0 ++ []) two_frames []
write_loop-Arrive_example =
    write_loop-Arrive slow two_frames []
      ((logout-IsHeader, omega arith), ((logout-IsHeader, omega arith), tt)) (omega arith)
      (omega arith)

ping_tag : must_hex (bytes_of "cf 4a6d00") ≡ some (0xcf ∷ 0x4a ∷ 0x6d ∷ 0 ∷ [])
unfolding must_hex
ping_tag = refl
