-- ===== src/Server/Dispatch/Addressed.antt =====
-- Every handler answers the request that it was given.
use hp_server.Prelude.{
  ℕ, ◌≡◌, ◌⊎◌, inl, inr, refl, ap, sym, subst, ◌∙◌, Bool, true, false, Option, none, some, List, [],
  ◌∷◌, Option-cases, bytes_of, if◌then◌else◌,
}
use hp_server.IntMap
use hp_server.IntMap.{IntMap}
use hp_server.Fire.{Frame, reply, error_reply, message_reply, message_error}
use hp_server.Session.{Message}
use hp_server.Server.{Server}
use hp_server.Server.Handlers.{
  reply_with, acknowledge, reset_dedicated, own_game, start_matchmaking,
}
use hp_server.Server.Handlers.Removal.{removal_target, remove_player}
use hp_server.Tdf.Value.{int64, fields_of, get_field, int_field}
use hp_server.Tdf.Encode.{encode_tdf}
use hp_server.Server.Handlers.Answers.{
  client_config, must_hex, utility_game, autolog_config, is_game, refusal,
}
use hp_server.Server.Match.Queue.{queue_match}
use hp_server.Server.Dispatch.{Handler}

-- A reply or an error with the identifiers of the request; nothing is said of a panic.
unfoldable pub IsAnswer : Frame → Message → Type 0
IsAnswer req none = Unit
IsAnswer req (some frame) =
    (frame.header.component ≡ req.header.component)
    × (frame.header.command ≡ req.header.command)
    × (frame.header.message_id ≡ req.header.message_id)
    × ((frame.header.message_type ≡ message_reply) ⊎ (frame.header.message_type ≡ message_error))

pub reply_with-IsAnswer :
    (req : Frame) (payload : Option (List ℕ)) → IsAnswer req (reply_with req payload)
unfolding IsAnswer reply_with reply
reply_with-IsAnswer req none = tt
reply_with-IsAnswer req (some payload) = (refl, refl, refl, inl refl)

pub acknowledge-IsAnswer : (req : Frame) → IsAnswer req (acknowledge req)
acknowledge-IsAnswer req = reply_with-IsAnswer req (some [])

pub refusal-IsAnswer :
    (req : Frame) (payload : Option (List ℕ)) → IsAnswer req (refusal req payload)
unfolding IsAnswer error_reply
refusal-IsAnswer req none = tt
refusal-IsAnswer req (some payload) = (refl, refl, refl, inr refl)

abbrev pub AnswersAll : Handler → Type 0
AnswersAll h =
    (now p : ℕ) (req : Frame) (s s' : Server) (m : Message)
    → h now p req s ≡ some (s', m)
    → IsAnswer req m

abbrev message : Message → Option (Server × Message) → Message
message d none = d
message d (some (s, m)) = m

-- A handler that returns is right where its message is.
pub returning :
    (f : ℕ → ℕ → Frame → Server → Server × Message)
    → ((now p : ℕ) (req : Frame) (s : Server) → IsAnswer req (f now p req s).1)
    → AnswersAll (λ now p req s. some (f now p req s))
returning f right now p req s s' m h = subst (IsAnswer req) (ap (message m) h) (right now p req s)

if-IsAnswer :
    (req : Frame) (b : Bool) (m n : Message)
    → IsAnswer req m
    → IsAnswer req n
    → IsAnswer req (if b then m else n)
if-IsAnswer req true m n hm hn = hm
if-IsAnswer req false m n hm hn = hn

pub reset_dedicated-IsAnswer :
    (now p : ℕ) (req : Frame) (s : Server) → IsAnswer req (reset_dedicated now p req s).1
unfolding reset_dedicated
reset_dedicated-IsAnswer now p req s = elim (Option-cases (own_game p s)) [
  | inl alone ↦
      let e : (reset_dedicated now p req s).1
          ≡ reply_with req (encode_tdf (fields_of (("GID", int64 s.next_game_id) ∷ []))) =
        rw (alone, reset_dedicated) in
      subst (IsAnswer req) (sym e) (reply_with-IsAnswer req _)
  | inr (game, own) ↦
      let e : (reset_dedicated now p req s).1
          ≡ reply_with req (encode_tdf (fields_of (("GID", int64 game.id) ∷ []))) =
        rw (own, reset_dedicated) in
      subst (IsAnswer req) (sym e) (reply_with-IsAnswer req _)
]

remove_player_acknowledged :
    (p : ℕ) (req : Frame) (s : Server) → (remove_player p req s).1 ≡ acknowledge req
unfolding remove_player
remove_player_acknowledged p req s =
    elim (Option-cases (IntMap.get (int_field "GID" req.tdf) s.games)) [
      | inl missing ↦ rw (missing, remove_player)
      | inr (game, found) ↦
          elim (Option-cases (removal_target s.heap p game (int_field "PID" req.tdf))) [
            | inl nobody ↦ rw (found, nobody, remove_player)
            | inr (target, allowed) ↦ rw (found, allowed, remove_player)
          ]
    ]

pub remove_player-IsAnswer :
    (p : ℕ) (req : Frame) (s : Server) → IsAnswer req (remove_player p req s).1
remove_player-IsAnswer p req s =
    subst (IsAnswer req) (sym (remove_player_acknowledged p req s)) (reply_with-IsAnswer req _)

pub client_config-IsAnswer : (base : List ℕ) (req : Frame) → IsAnswer req (client_config base req)
unfolding client_config
client_config-IsAnswer base req =
    if-IsAnswer req (is_game (get_field (bytes_of "CFID") req.tdf)) _ _
      (reply_with-IsAnswer req (must_hex utility_game))
      (reply_with-IsAnswer req (encode_tdf (fields_of (autolog_config base))))

pub start_matchmaking-IsAnswer : AnswersAll start_matchmaking
unfolding start_matchmaking
start_matchmaking-IsAnswer now p req s s' m h = elim (Option-cases (queue_match now p req.tdf s)) [
  | inl panic ↦
      let no : ◌≡◌ {A = Option (Server × Message)} none (some (s', m)) = sym (rw panic refl) ∙ h in
      let never : ⊥ = cc in absurd never
  | inr ((t, id), queued) ↦
      let given : some (t, reply_with req (encode_tdf (fields_of (("MSID", int64 id) ∷ []))))
          ≡ some (s', m) =
        sym (rw queued refl) ∙ h in
      subst (IsAnswer req) (ap (message m) given) (reply_with-IsAnswer req _)
]
