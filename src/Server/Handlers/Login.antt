-- ===== src/Server/Handlers/Login.antt =====
-- The handlers of hpserver/handlers.go that sign a session in or show its account.
use hp_server.Prelude.{ℕ, false, [], ◌∷◌, ◌++◌, bytes_of}
use hp_server.Tdf.Value.{
  Value, int64, text, boolean, struct, typed_list, fields_of, values_of, int_field, text_field,
}
use hp_server.Fire.{Frame}
use hp_server.Session.{Session, Message}
use hp_server.Session.Name.{persona_name_from_token}
use hp_server.Session.Identity.{
  synthetic_user_session_extended_data, user_added, extended_data_changed, user_session_id,
}
use hp_server.Server.{Server, update_session}
use hp_server.Server.Auth.{authenticate_session_named}
use hp_server.Server.Handlers.{reply_with}
use hp_server.Server.Handlers.Answers.{answer_with}

unfoldable pub get_account : Session → Frame → Message
unfolding reply_with
get_account session req = answer_with req (
    ("ASRC", text [])
    ∷ ("CO", text (bytes_of "US"))
    ∷ ("DOB", text (bytes_of "1980-01-01"))
    ∷ ("DTCR", text (bytes_of "2010-11-16T00:00:00Z"))
    ∷ ("GOPT", boolean false)
    ∷ ("LATH", text [])
    ∷ ("LN", text (bytes_of "en"))
    ∷ ("MAIL", text (bytes_of "player@localhost"))
    ∷ ("PML", text [])
    ∷ ("RC", int64 1)
    ∷ ("STAS", int64 1)
    ∷ ("STAT", int64 2)
    ∷ ("TOSV", text [])
    ∷ ("TPOT", boolean false)
    ∷ ("UID", int64 session.account_id)
    ∷ [])

abbrev entitlement : Session → Value
entitlement session = struct (
    fields_of (
      ("DEVI", text [])
      ∷ ("GDAY", text (bytes_of "2010-11-16T00:00:00Z"))
      ∷ ("GNAM", text (bytes_of "NFS11HP"))
      ∷ ("ID", int64 1)
      ∷ ("ISCO", boolean false)
      ∷ ("PID", int64 session.persona_id)
      ∷ ("PJID", text (bytes_of "NFS11HP"))
      ∷ ("PRCA", int64 1)
      ∷ ("PRID", text (bytes_of "nfs-2011-pc"))
      ∷ ("STAT", int64 1)
      ∷ ("STRC", int64 1)
      ∷ ("TAG", text (bytes_of "ONLINE_ACCESS"))
      ∷ ("TDAY", text [])
      ∷ ("TYPE", int64 1)
      ∷ ("UCNT", int64 0)
      ∷ ("VER", int64 1)
      ∷ []))

unfoldable pub list_entitlements : Session → Frame → Message
unfolding reply_with
list_entitlements session req =
    answer_with req (("NLST", typed_list 3 (values_of (entitlement session ∷ []))) ∷ [])

abbrev session_details : Session → Value
session_details session = struct (
    fields_of (
      ("BUID", int64 session.persona_id)
      ∷ ("FRST", boolean false)
      ∷ ("KEY", text (bytes_of "LOCAL-SESSION-KEY"))
      ∷ ("LLOG", int64 0)
      ∷ ("MAIL", text (bytes_of "player@localhost"))
      ∷ (
        "PDTL",
        struct (
            fields_of (
              ("DSNM", text session.persona)
              ∷ ("LAST", int64 0)
              ∷ ("PID", int64 session.persona_id)
              ∷ ("XREF", int64 0)
              ∷ ("XTYP", int64 0)
              ∷ [])),
      )
      ∷ ("UID", int64 session.account_id)
      ∷ []))

-- The two notifications that follow a login: the user, and its extended data under the id of the
-- connection.
abbrev pub welcomed : Session → Session
welcomed session = record session {
  notifications =
      session.notifications
      ++ user_added synthetic_user_session_extended_data session.account_id session.persona_id
          session.persona
        ∷ extended_data_changed synthetic_user_session_extended_data (user_session_id session)
        ∷ [];
}

unfoldable pub login_reply : Session → Frame → Message
unfolding reply_with
login_reply session req = answer_with req (
    ("AGUP", boolean false)
    ∷ ("PCTK", text (bytes_of "LOCAL-PC-TOKEN"))
    ∷ ("PRIV", text [])
    ∷ ("SESS", session_details session)
    ∷ ("SPAM", boolean false)
    ∷ ("THST", text [])
    ∷ ("TURI", text [])
    ∷ [])

unfoldable pub silent_login : ℕ → Frame → Server → Server × Message
unfolding persona_name_from_token authenticate_session_named update_session login_reply
silent_login p req s =
    let name = persona_name_from_token (text_field "PCTK" req.tdf) in
    let s' = authenticate_session_named p (int_field "PID" req.tdf) name s in
    (update_session p welcomed s', login_reply (s'.heap p) req)
