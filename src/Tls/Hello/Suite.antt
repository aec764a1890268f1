-- ===== src/Tls/Hello/Suite.antt =====
-- The choice of a cipher suite, against its description.
use hp_server.Prelude.{
  ℕ, ◌≡◌, ◌∙◌, refl, Bool, false, ◌||◌, List, [], ◌∷◌, ◌==◌, if◌then◌else◌, arith, Bool-cases, inl,
  inr,
}
use hp_server.Fire.{uint16}
use hp_server.Tls.{suite_rc4_md5, suite_rc4_sha}
use hp_server.Tls.Hello.{select_suite}

-- The suites that a client lists, two bytes each.
abbrev pub listed : List ℕ → List ℕ
listed [] = []
listed (a ∷ []) = []
listed (a ∷ b ∷ rest) = uint16 a b ∷ listed rest

abbrev pub offers : ℕ → List ℕ → Bool
offers suite [] = false
offers suite (s ∷ rest) = s == suite || offers suite rest

-- SHA where the client offers it at any place, else MD5 where it offers that, else what was given.
abbrev pub preferred : ℕ → List ℕ → ℕ
preferred other suites =
    if offers suite_rc4_sha suites
    then suite_rc4_sha
    else if offers suite_rc4_md5 suites
    then suite_rc4_md5
    else other

preferred_step :
    (other s : ℕ) (rest : List ℕ)
    → (s == suite_rc4_sha) ≡ false
    → preferred (if s == suite_rc4_md5 then s else other) rest ≡ preferred other (s ∷ rest)
preferred_step other s rest h = ground arith

skip_suite :
    (other a b : ℕ) (rest : List ℕ)
    → (uint16 a b == suite_rc4_sha) ≡ false
    → select_suite other (a ∷ b ∷ rest)
      ≡ select_suite (if uint16 a b == suite_rc4_md5 then uint16 a b else other) rest
unfolding select_suite
skip_suite other a b rest h = rw h

-- The loop over the client's suites takes the suite that the server prefers among those listed, in
-- whatever order: SHA before MD5, and the value it started with where neither is offered.
pub select_suite-preferred :
    (other : ℕ) (suites : List ℕ) → select_suite other suites ≡ preferred other (listed suites)
unfolding select_suite
select_suite-preferred other [] = refl
select_suite-preferred other (a ∷ []) = refl
select_suite-preferred other (a ∷ b ∷ rest) = elim (Bool-cases (uint16 a b == suite_rc4_sha)) [
  | inl sha ↦ ground arith
  | inr weaker ↦
      skip_suite other a b rest weaker
      ∙ select_suite-preferred (if uint16 a b == suite_rc4_md5 then uint16 a b else other) rest
      ∙ preferred_step other (uint16 a b) (listed rest) weaker
]
