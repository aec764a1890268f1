-- ===== src/Server/Match/Found.antt =====
-- What the search of the queue in `queueMatch` of hpserver/server.go finds.
use hp_server.Prelude.{
  ℕ, ◌≡◌, ◌≢◌, inl, inr, Option, none, some, List, [], ◌∷◌, All, ◌⊎◌, ◌==◌, Option-cases,
  Bool-cases, refl, ◌∙◌, sym, subst,
}
use hp_server.Game.{MatchRequest}
use hp_server.Server.Match.{take_match, keep_first, is_compatible_match}
use hp_server.Server.Match.Exclusive.{IsQueue}

-- No request of the session is in the queue.
abbrev pub Outside : List MatchRequest → ℕ → Type 0
Outside queue p = All (λ r. r.session ≢ p) queue

keep_first_inv :
    (r w : MatchRequest) (x : Option (Option (MatchRequest × List MatchRequest)))
    (others : List MatchRequest)
    → keep_first r x ≡ some (some (w, others))
    → (rest : List MatchRequest) × (x ≡ some (some (w, rest))) × (others ≡ r ∷ rest)
keep_first_inv r w none others h = let never : ⊥ = cc in absurd never
keep_first_inv r w (some none) others h = let never : ⊥ = cc in absurd never
keep_first_inv r w (some (some (w', rest))) others h = (rest, cc, cc)

-- The request that is found is the first one, or is found behind it.
take_match_inv :
    (c r w : MatchRequest) (queue others : List MatchRequest)
    → take_match c (r ∷ queue) ≡ some (some (w, others))
    → ((r ≡ w) × (queue ≡ others))
      ⊎ ((rest : List MatchRequest) × (take_match c queue ≡ some (some (w, rest)))
          × (others ≡ r ∷ rest))
unfolding take_match
take_match_inv c r w queue others h = elim (Bool-cases (r.session == c.session)) [
  | inl same ↦
      inr (keep_first_inv r w (take_match c queue) others (sym (rw (same, take_match) refl) ∙ h))
  | inr apart ↦ elim (Option-cases (is_compatible_match r c)) [
    | inl panic ↦
        let no : none ≡ some (some (w, others)) = sym (rw (apart, panic, take_match) refl) ∙ h in
        let never : ⊥ = cc in absurd never
    | inr (b, e) ↦ elim (Bool-cases b) [
      | inl met ↦
          let h' : some (some (r, queue)) ≡ some (some (w, others)) =
            sym (rw (apart, e, met, take_match) refl) ∙ h in
          inl (cc, cc)
      | inr unmet ↦ inr (
          keep_first_inv r w (take_match c queue) others
            (sym (rw (apart, e, unmet, take_match) refl) ∙ h))
    ]
  ]
]

pub take_match-All :
    (P : MatchRequest → Type 0) (c w : MatchRequest) (queue others : List MatchRequest)
    → take_match c queue ≡ some (some (w, others))
    → All P queue
    → P w × All P others
unfolding take_match
take_match-All P c w [] others h hs = let never : ⊥ = cc in absurd never
take_match-All P c w (r ∷ rs) others h (hr, hs) = elim (take_match_inv c r w rs others h) [
  | inl (e, e') ↦ (subst P e hr, subst (All P) e' hs)
  | inr (rest, e, e') ↦
      let (hw, ho) = take_match-All P c w rs rest e hs in (hw, subst (All P) (sym e') (hr, ho))
]

pub take_match-IsQueue :
    (c w : MatchRequest) (queue others : List MatchRequest)
    → take_match c queue ≡ some (some (w, others))
    → IsQueue queue
    → IsQueue others × Outside others w.session
unfolding take_match
take_match-IsQueue c w [] others h d = let never : ⊥ = cc in absurd never
take_match-IsQueue c w (r ∷ rs) others h (first, d) = elim (take_match_inv c r w rs others h) [
  | inl (e, e') ↦
      subst (λ os. IsQueue os × Outside os w.session) e'
        (d, subst (λ r. Outside rs r.session) e first)
  | inr (rest, e, e') ↦
      let (d', out) = take_match-IsQueue c w rs rest e d in
      let (apart, first') =
        take_match-All (λ other. other.session ≢ r.session) c w rs rest e first in
      subst (λ os. IsQueue os × Outside os w.session) (sym e')
        ((first', d'), (λ h. apart (sym h), out))
]
