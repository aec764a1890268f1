-- ===== src/Tls/Hello/Laws.antt =====
-- What a message that was accepted is, and what the calls of the hellos leave alone.
use hp_server.Prelude.{
  ℕ, ◌≡◌, refl, ap, sym, ◌∙◌, List, [], ◌∷◌, get_or, ◌==◌, ==_iff, Bool-cases, inl, inr,
}
use hp_server.Stream.{Result, ok, err}
use hp_server.Tls.{Conn, TlsError, good, good_parts, refused-ne-good}
use hp_server.Tls.Message.{split_handshake}
use hp_server.Tls.Hello.{one_message, only_message}

one_message_good :
    (typ : ℕ) (e : TlsError) (r : Result (List (List ℕ))) (c d : Conn) (m : List ℕ)
    → one_message typ e r c ≡ (d, good m)
    → (r ≡ ok (m ∷ [])) × (get_or m 0 0 ≡ typ) × (c ≡ d)
one_message_good typ e (ok (message ∷ [])) c d m h = elim (Bool-cases (get_or message 0 0 == typ)) [
  | inl fits ↦
      let given : (c, good message) ≡ (d, good m) = sym (rw fits refl) ∙ h in
      let (same, read) = good_parts c d message m given in
      (
        ap (λ (l : List ℕ). ok (l ∷ [])) read,
        ap (λ (l : List ℕ). get_or l 0 0) (sym read) ∙ (==_iff (get_or message 0 0) typ).0 fits,
        same,
      )
  | inr other ↦ absurd (refused-ne-good c d e m (sym (rw other refl) ∙ h))
]
one_message_good typ e (ok []) c d m h = absurd (refused-ne-good c d e m h)
one_message_good typ e (ok (message ∷ other ∷ more)) c d m h = absurd (refused-ne-good c d e m h)
one_message_good typ e (err failure) c d m h = absurd (refused-ne-good c d e m h)

-- A message that `only_message` accepts stands alone in its record, and nothing else changes.
pub only_message_good :
    (typ : ℕ) (e : TlsError) (content : List ℕ) (c d : Conn) (m : List ℕ)
    → only_message typ e content c ≡ (d, good m)
    → (split_handshake content ≡ ok (m ∷ [])) × (get_or m 0 0 ≡ typ) × (c ≡ d)
unfolding only_message
only_message_good typ e content c d m h = one_message_good typ e (split_handshake content) c d m h
