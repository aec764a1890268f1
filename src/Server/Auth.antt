-- ===== src/Server/Auth.antt =====
-- `authenticateSessionNamed` and its two short forms.
pub mod Fresh
pub mod Directory
use hp_server.Prelude.{
  ℕ, suc, Bool, false, Option, none, some, List, [], ◌∷◌, ◌++◌, slt, inc64, ◌==◌, ◌||◌, not, length,
  if◌then◌else◌,
}
use hp_server.IntMap
use hp_server.Session.{Session}
use hp_server.Session.Name.{persona_name}
use hp_server.Server.{Server, UserIdentity, update_session}

-- `s.activePersonas[p] != nil || s.users[p].PersonaID != 0`
unfoldable pub is_taken : Server → ℕ → Bool
is_taken s p =
    IntMap.has p s.active_personas
    || elim (IntMap.get p s.users) [ none ↦ false | some identity ↦ not (identity.persona_id == 0) ]

-- The ids that can be taken.
abbrev pub known_personas : Server → List ℕ
known_personas s = IntMap.keys s.active_personas ++ IntMap.keys s.users

-- `for … { personaID++ }`: each round passes a taken id, so one more round than there are is enough.
unfoldable pub free_persona : Server → ℕ
unfolding is_taken
free_persona s = IntMap.next_free (suc (length (known_personas s))) (is_taken s) s.next_user_id

-- The persona that the session gets: the requested one, unless it is not positive or active.
unfoldable pub choose_persona : Server → ℕ → ℕ
unfolding free_persona
choose_persona s requested =
    if not (slt 0 requested) || IntMap.has requested s.active_personas
    then free_persona s
    else requested

abbrev pub fresh_identity : ℕ → UserIdentity
fresh_identity persona_id = record {
  account_id = persona_id;
  persona_id = persona_id;
  name = persona_name persona_id;
}

abbrev pub renamed : List ℕ → UserIdentity → UserIdentity
renamed [] identity = identity
renamed (c ∷ name) identity = record identity { name = c ∷ name }

unfoldable pub identity_of : Server → ℕ → List ℕ → UserIdentity
identity_of s persona_id requested_name =
    renamed requested_name (elim (IntMap.get persona_id s.users) [
      | none ↦ fresh_identity persona_id
      | some identity ↦ identity
    ])

-- The session `p` signed in under the identity that stands at `persona_id`.
unfoldable pub sign_in : ℕ → ℕ → UserIdentity → Server → Server
unfolding update_session
sign_in p persona_id identity s =
    let signed =
      update_session p
        (λ session. record session {
          account_id = identity.account_id;
          persona_id = identity.persona_id;
          session_id = s.next_session_id;
          persona = identity.name;
        })
        s in
    record signed {
      users = IntMap.put persona_id identity s.users;
      next_user_id = if slt persona_id s.next_user_id then s.next_user_id else inc64 persona_id;
      next_session_id = inc64 s.next_session_id;
      sessions = IntMap.put s.next_session_id p s.sessions;
      active_personas = IntMap.put identity.persona_id p s.active_personas;
    }

unfoldable pub authenticate_session_named : ℕ → ℕ → List ℕ → Server → Server
unfolding choose_persona identity_of sign_in
authenticate_session_named p requested requested_name s =
    let persona_id = choose_persona s requested in
    if not ((s.heap p).persona_id == 0)
    then s
    else sign_in p persona_id (identity_of s persona_id requested_name) s

unfoldable pub authenticate_session_as : ℕ → ℕ → Server → Server
unfolding authenticate_session_named
authenticate_session_as p requested s = authenticate_session_named p requested [] s

unfoldable pub authenticate_session : ℕ → Server → Server
unfolding authenticate_session_as
authenticate_session p s = authenticate_session_as p 0 s
