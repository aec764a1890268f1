-- ===== src/Server/Handlers/Answers.antt =====
-- The handlers of hpserver/handlers.go that answer without changing the server: the redirector,
-- the utility services and the lists. `mustHex` reads the captured payloads.
use hp_server.Prelude.{
  ℕ, ◌+◌, ◌-◌, ◌*◌, Bool, true, false, ◌&&◌, Option, none, some, List, [], ◌∷◌, ◌++◌, String,
  bytes_of, ◌==◌, leb, text_eq, if◌then◌else◌, ◌>>=◌,
}
use hp_server.Tdf.Value.{
  Value, no_values, int64, text, boolean, struct, mapping, typed_list, fields_of, get_field,
  text_field, entries_of, no_fields,
}
use hp_server.Tdf.Varint.{encode_varsize_integer}
use hp_server.Tdf.Encode.{encode_tdf}
use hp_server.Fire.{Frame, error_reply}
use hp_server.Session.{Message}
use hp_server.Server.Commands.{auth_invalid_password}
use hp_server.Server.Handlers.{reply_with}

-- `strings.ReplaceAll(value, " ", "")`
unfoldable pub without_spaces : List ℕ → List ℕ
without_spaces [] = []
without_spaces (c ∷ cs) = let rest = without_spaces cs in if c == 32 then rest else c ∷ rest

unfoldable pub hex_digit : ℕ → Option ℕ
hex_digit c =
    if leb 48 c && leb c 57
    then some (c - 48)
    else if leb 97 c && leb c 102
    then some (c - 87)
    else if leb 65 c && leb c 70
    then some (c - 55)
    else none

-- `hex.DecodeString`, `none` where it gives an error.
unfoldable pub decode_hex : List ℕ → Option (List ℕ)
unfolding hex_digit
decode_hex [] = some []
decode_hex (c ∷ []) = none
decode_hex (c ∷ d ∷ rest) = do
  bytes ← decode_hex rest
  high ← hex_digit c
  low ← hex_digit d
  some ((high * 16 + low) ∷ bytes)

unfoldable pub must_hex : List ℕ → Option (List ℕ)
unfolding without_spaces decode_hex
must_hex value = decode_hex (without_spaces value)

abbrev pub answer_with : Frame → List (String × Value) → Message
answer_with req body = reply_with req (encode_tdf (fields_of body))

abbrev pub redirect_payload : Option (List ℕ)
redirect_payload = must_hex (
    bytes_of "8649320600da1b3503a2fcf4011b6e667368702d7072642d6d702d6170702d30312e65612e636f6d00"
    ++ bytes_of "a7000000a998caf913c2fcb4009d9c0100ce58f50001d33dae010100e24bb30000")

unfoldable pub redirect : Frame → Message
unfolding must_hex reply_with
redirect req = reply_with req redirect_payload

abbrev pub pre_auth_payload : Option (List ℕ)
pre_auth_payload = must_hex (
    bytes_of
      "8e993304001001812019041b1c07090a80e0030f81e00382e00383e0031485e0038efba6038efba605010103"
    ++ (bytes_of
          "0b70696e67506572696f6400043135730016766f6970486561647365745570646174655261746500053130303000"
        ++ (bytes_of "1a786c7370436f6e6e656374696f6e49646c6554696d656f757400043330300000"
            ++ (bytes_of "c6fcf3038b7c33030000"
                ++ (bytes_of "b2ec00000ab34c3305010300"
                    ++ bytes_of
                        "cf6a640085a088d40800cf6972011f426c617a6520332e30352e30312e372028434c232031393033393432290a00")))))

unfoldable pub pre_auth : Frame → Message
unfolding must_hex reply_with
pre_auth req = reply_with req pre_auth_payload

abbrev pub followed_by : List ℕ → Option (List ℕ) → Option (List ℕ)
followed_by back none = none
followed_by back (some front) = some (front ++ back)

-- The clock in seconds, behind the tag STIM and its type.
unfoldable pub ping_reply : ℕ → Frame → Message
unfolding must_hex encode_varsize_integer reply_with
ping_reply now req =
    reply_with req (followed_by (encode_varsize_integer now) (must_hex (bytes_of "cf4a6d00")))

unfoldable pub post_auth : Frame → Message
unfolding reply_with
post_auth req = answer_with req (
    ("PSS", struct no_fields)
    ∷ ("TELE", struct no_fields)
    ∷ ("TICK", struct no_fields)
    ∷ ("UROP", struct no_fields)
    ∷ [])

unfoldable pub user_settings_load : Frame → Message
unfolding reply_with
user_settings_load req =
    let setting_key = text_field "KEY" req.tdf in
    let setting_value =
      if text_eq setting_key (bytes_of "SHARE_USAGE") then bytes_of "TRUE" else [] in
    answer_with req (("DATA", text setting_value) ∷ ("KEY", text setting_key) ∷ [])

unfoldable pub get_best_scores : Frame → Message
unfolding reply_with
get_best_scores req = answer_with req (("SCRS", typed_list 3 no_values) ∷ [])

unfoldable pub get_telemetry : Frame → Message
unfolding reply_with
get_telemetry req = answer_with req (
    ("ADRS", text [])
    ∷ ("ANON", boolean false)
    ∷ ("DISA", boolean true)
    ∷ ("FILT", text [])
    ∷ ("LOC", int64 0)
    ∷ ("NOOK", text [])
    ∷ ("PORT", int64 0)
    ∷ ("SDLY", int64 0)
    ∷ ("SKEY", text [])
    ∷ ("SPCT", int64 0)
    ∷ [])

unfoldable pub create_wal_session : Frame → Message
unfolding reply_with
create_wal_session req = answer_with req (("KEY", text (bytes_of "LOCAL-WAL-SESSION-KEY")) ∷ [])

unfoldable pub get_lists : Frame → Message
unfolding reply_with
get_lists req = answer_with req (("LMAP", typed_list 3 no_values) ∷ [])

abbrev pub utility_game : List ℕ
utility_game =
    bytes_of
      "8efba6050101051045787069727954696d657374616d70000b31323839333437323031000a647368744c696d6974000232000e73686966745f747261696c6572000230000a737368744c696d6974000233000b746f735f627566666572000731343030303000"

-- `value == "Game"` on an interface value.
abbrev pub is_game : Option Value → Bool
is_game (some (text s)) = text_eq s (bytes_of "Game")
is_game _ = false

-- Where the Autolog services are, under the server's base.
abbrev pub autolog_config : List ℕ → List (String × Value)
autolog_config autolog_base =
    (
      "CONF",
      mapping (
          entries_of (
            ("autolog_host", text autolog_base)
            ∷ ("autolog_host_secure", text autolog_base)
            ∷ ("content_petition", text (bytes_of "game/post_content_petition.php"))
            ∷ ("content_rep_hide", text (bytes_of "hideContent/[sessionkey]"))
            ∷ ("content_rep_show", text (bytes_of "showContent/[sessionkey]"))
            ∷ ("content_rep_view", text (bytes_of "viewContent/[sessionkey]"))
            ∷ ("event", text (bytes_of "game/post_autolog_event.php"))
            ∷ ("friend_upload", text (bytes_of "game/friend_upload.php"))
            ∷ ("get_photo", text (bytes_of "game/get_photo.php"))
            ∷ ("layout_bundles", text (bytes_of "al/%s/bundles/pc/"))
            ∷ ("lua_bundles", text (bytes_of "al/%s/lua/"))
            ∷ ("page_data", text (bytes_of "al/%s/pages/"))
            ∷ ("photo_space", text (bytes_of "game/photo_space_check.php"))
            ∷ ("post_photo", text (bytes_of "game/post_photo.php"))
            ∷ ("profile_sync", text (bytes_of "game/profile_sync.php"))
            ∷ ("server_manifest", text (bytes_of "al/pc-%s.manifest"))
            ∷ ("view_model", text (bytes_of "_services/json_portal.ws.php"))
            ∷ [])),
    )
    ∷ []

unfoldable pub client_config : List ℕ → Frame → Message
unfolding must_hex reply_with
client_config autolog_base req =
    if is_game (get_field (bytes_of "CFID") req.tdf)
    then reply_with req (must_hex utility_game)
    else answer_with req (autolog_config autolog_base)

-- A login with a password is refused, with the payload that the retail service sent.
abbrev pub refusal : Frame → Option (List ℕ) → Message
refusal req none = none
refusal req (some payload) = some (error_reply req auth_invalid_password payload)

unfoldable pub password_login : Frame → Message
unfolding must_hex error_reply
password_login req = refusal req (must_hex (bytes_of "c2e86d010100d699000000"))
