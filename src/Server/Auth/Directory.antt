-- ===== src/Server/Auth/Directory.antt =====
-- The directory of signed-in sessions that `authenticateSessionNamed` of hpserver/server.go keeps.
use hp_server.Prelude.{
  ℕ, ◌^◌, ◌<◌, ◌≡◌, ◌≢◌, inl, inr, true, false, none, some, List, [], ◌∷◌, arith, ◌==◌,
  if◌then◌else◌, Option-cases, Bool-cases, refl, ◌∙◌, sym, ap,
}
use hp_server.IntMap
use hp_server.IntMap.{get}
use hp_server.IntMap.Laws.{get-put}
use hp_server.Session.{store}
use hp_server.Server.{Server, UserIdentity, update_session}
use hp_server.Server.Auth.{
  choose_persona, identity_of, renamed, sign_in, authenticate_session_named,
}
use hp_server.Server.Auth.Fresh.{HasRoom, choose_persona_free}

-- An active persona leads to the session that has it, 0 is not one, and an identity stands at its
-- own persona.
abbrev pub IsDirectory : Server → Type 0
IsDirectory s =
    ((q p : ℕ) → get q s.active_personas ≡ some p → (s.heap p).persona_id ≡ q)
    × (get 0 s.active_personas ≡ none)
    × ((q : ℕ) (identity : UserIdentity) → get q s.users ≡ some identity → identity.persona_id ≡ q)

has-none {ℓ} : {V : Type ℓ} (k : ℕ) (m : IntMap.IntMap V) → IntMap.has k m ≡ false → get k m ≡ none
has-none k m h = elim (Option-cases (get k m)) [
  | inl missing ↦ missing
  | inr (v, e) ↦
      let no : true ≡ false = sym (rw (e, IntMap.has) refl) ∙ h in
      let never : ⊥ = cc in absurd never
]

renamed-persona :
    (name : List ℕ) (identity : UserIdentity)
    → (renamed name identity).persona_id ≡ identity.persona_id
renamed-persona [] identity = refl
renamed-persona (c ∷ name) identity = refl

identity_of-persona :
    (s : Server) (q : ℕ) (name : List ℕ)
    → ((identity : UserIdentity) → get q s.users ≡ some identity → identity.persona_id ≡ q)
    → (identity_of s q name).persona_id ≡ q
unfolding identity_of
identity_of-persona s q name known = elim (Option-cases (get q s.users)) [
  | inl missing ↦ rw (missing, identity_of) (renamed-persona name _)
  | inr (identity, e) ↦ rw (e, identity_of) (renamed-persona name identity ∙ known identity e)
]

-- The sessions after one has signed in.
signed-heap :
    (s : Server) (p q k : ℕ) (identity : UserIdentity)
    → ((sign_in p k identity s).heap q).persona_id
      ≡ (if p == q then identity.persona_id else (s.heap q).persona_id)
unfolding sign_in update_session store
signed-heap s p q k identity = ground arith

signed-active :
    (s : Server) (p k : ℕ) (identity : UserIdentity)
    → identity.persona_id ≡ k
    → (s.heap p).persona_id ≡ 0
    → IsDirectory s
    → (q p' : ℕ) → get q (sign_in p k identity s).active_personas ≡ some p'
    → ((sign_in p k identity s).heap p').persona_id ≡ q
unfolding sign_in
signed-active s p k identity named unsigned (active, none0, known) q p' h =
    let h' : (if identity.persona_id == q then some p else get q s.active_personas) ≡ some p' =
      sym (get-put identity.persona_id q p s.active_personas) ∙ h in
    let e = signed-heap s p p' k identity in
    elim (Bool-cases (identity.persona_id == q)) [
      | inl same ↦
          let h'' : some p ≡ some p' = sym (rw same refl) ∙ h' in
          let e' : p ≡ p' = cc in e ∙ ground (arith, e')
      | inr other ↦
          let h'' : get q s.active_personas ≡ some p' = sym (rw other refl) ∙ h' in
          let e'' = active q p' h'' in
          elim (Bool-cases (p == p')) [
            | inr apart ↦ e ∙ rw apart e''
            | inl same ↦
                let e' : p ≡ p' = ground (arith, same) in
                let zero_q : 0 ≡ q = sym unsigned ∙ ap (λ x. (s.heap x).persona_id) e' ∙ e'' in
                let no : none ≡ some p' =
                  sym none0 ∙ ap (λ x. get x s.active_personas) zero_q ∙ h'' in
                let never : ⊥ = cc in absurd never
          ]
    ]

sign_in-IsDirectory :
    (s : Server) (p k : ℕ) (identity : UserIdentity)
    → identity.persona_id ≡ k
    → 0 < k
    → (s.heap p).persona_id ≡ 0
    → IsDirectory s
    → IsDirectory (sign_in p k identity s)
unfolding sign_in
sign_in-IsDirectory s p k identity named positive unsigned directory =
    let (active, none0, known) = directory in
    (
      signed-active s p k identity named unsigned directory,
      get-put identity.persona_id 0 p s.active_personas ∙ rw named (ground (arith, none0)),
      λ q other h.
          let h' : (if k == q then some identity else get q s.users) ≡ some other =
            sym (get-put k q identity s.users) ∙ h in
          elim (Bool-cases (k == q)) [
            | inl same ↦
                let h'' : some identity ≡ some other = sym (rw same refl) ∙ h' in
                let e : identity ≡ other = cc in
                let e' : k ≡ q = ground (arith, same) in sym (ap (λ i. i.persona_id) e) ∙ named ∙ e'
            | inr apart ↦ known q other (sym (rw apart refl) ∙ h')
          ],
    )

signed-found :
    (s : Server) (p k : ℕ) (identity : UserIdentity)
    → identity.persona_id ≡ k
    → let s' = sign_in p k identity s in
      ((s'.heap p).persona_id ≡ k)
      × (get k s'.active_personas ≡ some p)
      × ((s'.heap p).session_id ≡ s.next_session_id)
      × (get s.next_session_id s'.sessions ≡ some p)
unfolding sign_in update_session store
signed-found s p k identity named = (
  signed-heap s p p k identity ∙ ground (arith, named),
  get-put identity.persona_id k p s.active_personas ∙ ground (arith, named),
  ground arith,
  get-put s.next_session_id s.next_session_id p s.sessions ∙ ground arith,
)

-- While ids are left, authenticating keeps the directory. A session that has no persona signs in under
-- one that is not active, and is found under its new persona and its new session id. A session that
-- has a persona changes nothing.
pub authenticate-IsDirectory :
    (s : Server) (p requested : ℕ) (name : List ℕ)
    → HasRoom s
    → requested < 2 ^ 64
    → IsDirectory s
    → let s' = authenticate_session_named p requested name s in
      let chosen = choose_persona s requested in
      IsDirectory s'
      × ((s.heap p).persona_id ≢ 0 → s' ≡ s)
      × ((s.heap p).persona_id ≡ 0
          → ((s'.heap p).persona_id ≡ chosen)
            × (get chosen s'.active_personas ≡ some p)
            × (get chosen s.active_personas ≡ none)
            × ((s'.heap p).session_id ≡ s.next_session_id)
            × (get s.next_session_id s'.sessions ≡ some p))
unfolding authenticate_session_named
authenticate-IsDirectory s p requested name room bound directory =
    let chosen = choose_persona s requested in
    let (inactive, positive, small, choice) = choose_persona_free s requested room bound in
    let identity = identity_of s chosen name in
    let (active, none0, known) = directory in
    let named = identity_of-persona s chosen name (known chosen) in
    elim (Bool-cases ((s.heap p).persona_id == 0)) [
      | inr signed ↦
          let ne : (s.heap p).persona_id ≢ 0 = ground (arith, signed) in
          rw (signed, authenticate_session_named) (directory, λ h. refl, λ h. absurd (ne h))
      | inl unsigned ↦
          let e : (s.heap p).persona_id ≡ 0 = ground (arith, unsigned) in
          let (persona, found, id, session) = signed-found s p chosen identity named in
          rw (unsigned, authenticate_session_named)
            (
              sign_in-IsDirectory s p chosen identity named positive e directory,
              λ h. absurd (h e),
              λ h. (persona, found, has-none chosen s.active_personas inactive, id, session),
            )
    ]
