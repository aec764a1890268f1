-- ===== src/Session/Identity.antt =====
-- The identity and the address of a session: `userSessionID`, `canonicalPlayerID`, `playerName`,
-- `sessionQOS`, `sessionIPPair`, `syntheticUserSessionExtendedData`, `userNotificationsFor` of
-- session.go.
use hp_server.Prelude.{
  ℕ, ◌+◌, ◌*◌, ◌^◌, Option, none, some, List, [], ◌∷◌, ◌==◌, ◌&&◌, if◌then◌else◌, bytes_of,
}
use hp_server.Tdf.Value.{
  Fields, Value, nil, int64, text, blob, struct, typed_list, union, variable, no_values, fields_of,
  set_field,
}
use hp_server.Tdf.Encode.{encode_tdf}
use hp_server.Session.{Session, Message, notification}
use hp_server.Session.Name.{persona_name}

abbrev pub component_user_sessions : ℕ
component_user_sessions = 0x7802

abbrev pub notify_extended_data : ℕ
notify_extended_data = 0x01

abbrev pub notify_user_added : ℕ
notify_user_added = 0x02

unfoldable pub user_session_id : Session → ℕ
user_session_id session = if session.session_id == 0 then session.persona_id else session.session_id

unfoldable pub canonical_player_id : Session → ℕ
canonical_player_id player = player.persona_id

unfoldable pub player_name : Session → List ℕ
player_name player = elim player.persona [
  | [] ↦ persona_name player.persona_id
  | _ ∷ _ ↦ player.persona
]

unfoldable pub zero_qos : Fields
zero_qos = fields_of (("DBPS", int64 0) ∷ ("NATT", int64 0) ∷ ("UBPS", int64 0) ∷ [])

unfoldable pub session_qos : Session → Fields
unfolding zero_qos
session_qos session = elim session.network_qos [ none ↦ zero_qos | some qos ↦ qos ]

-- `ip.To4()` as a number: of four bytes, or of sixteen that hold an IPv4 address.
unfoldable pub ip4 : List ℕ → Option ℕ
ip4 (a ∷ b ∷ c ∷ d ∷ []) = some (a * 2 ^ 24 + b * 2 ^ 16 + c * 2 ^ 8 + d)
ip4 (z0 ∷ z1 ∷ z2 ∷ z3 ∷ z4 ∷ z5 ∷ z6 ∷ z7 ∷ z8 ∷ z9 ∷ f0 ∷ f1 ∷ a ∷ b ∷ c ∷ d ∷ []) =
    if (z0 + z1 + z2 + z3 + z4 + z5 + z6 + z7 + z8 + z9 == 0) && ((f0 == 0xff) && (f1 == 0xff))
    then some (a * 2 ^ 24 + b * 2 ^ 16 + c * 2 ^ 8 + d)
    else none
ip4 _ = none

-- 127.0.0.1 stands in for an address that is missing or not IPv4.
unfoldable pub numeric_ip : Option (List ℕ) → ℕ
unfolding ip4
numeric_ip none = 0x7f000001
numeric_ip (some ip) = elim (ip4 ip) [ none ↦ 0x7f000001 | some n ↦ n ]

unfoldable pub local_ip_pair : Session → Fields
unfolding numeric_ip
local_ip_pair session = fields_of (
    ("EXIP", struct (fields_of (("IP", int64 0) ∷ ("PORT", int64 0) ∷ [])))
    ∷ (
      "INIP",
      struct (fields_of (("IP", int64 (numeric_ip session.remote_ip)) ∷ ("PORT", int64 3659) ∷ [])),
    )
    ∷ [])

unfoldable pub session_ip_pair : Session → Fields
unfolding local_ip_pair
session_ip_pair session = elim session.network_address [
  | none ↦ local_ip_pair session
  | some address ↦ address
]

-- A `Union` literal with the active member alone.
abbrev pub empty_union : ℕ → Value
empty_union active = union active [] nil

unfoldable pub synthetic_user_session_extended_data : Fields
unfolding zero_qos
synthetic_user_session_extended_data = fields_of (
    ("ADDR", empty_union 0x7f)
    ∷ ("BPS", text [])
    ∷ ("CTY", text (bytes_of "US"))
    ∷ ("CVAR", variable 0 [] nil)
    ∷ ("HWFG", int64 0)
    ∷ ("PSLM", typed_list 0 no_values)
    ∷ ("QDAT", struct zero_qos)
    ∷ ("UATT", int64 0)
    ∷ ("ULST", typed_list 9 no_values)
    ∷ [])

unfoldable pub user_added : Fields → ℕ → ℕ → List ℕ → Message
user_added extended account_id player_id name =
    notification component_user_sessions notify_user_added (
      encode_tdf (
        fields_of (
          ("DATA", struct extended)
          ∷ (
            "USER",
            struct (
                fields_of (
                  ("AID", int64 account_id)
                  ∷ ("ALOC", int64 0)
                  ∷ ("EXBB", blob [])
                  ∷ ("EXID", int64 0)
                  ∷ ("ID", int64 player_id)
                  ∷ ("NAME", text name)
                  ∷ [])),
          )
          ∷ [])))

unfoldable pub extended_data_changed : Fields → ℕ → Message
extended_data_changed extended user_session =
    notification component_user_sessions notify_extended_data
      (encode_tdf (fields_of (("DATA", struct extended) ∷ ("USID", int64 user_session) ∷ [])))

unfoldable pub user_notifications_for : Session → List Message
unfolding synthetic_user_session_extended_data user_added extended_data_changed session_ip_pair
    session_qos player_name user_session_id canonical_player_id
user_notifications_for player =
    let address = union 2 (bytes_of "VALU") (struct (session_ip_pair player)) in
    let extended =
      set_field (bytes_of "QDAT") (struct (session_qos player))
        (set_field (bytes_of "ADDR") address synthetic_user_session_extended_data) in
    user_added extended player.account_id (canonical_player_id player) (player_name player)
    ∷ extended_data_changed extended (user_session_id player)
    ∷ []
