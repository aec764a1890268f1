-- ===== src/Stream/Laws.antt =====
-- A packet goes out whole and in order, or a prefix of it does and the writer is told.
use hp_server.Prelude.{
  ℕ, zero, suc, ◌≡◌, ◌≤◌, ◌<◌, refl, ap, ◌∙◌, sym, List, [], ◌∷◌, ◌++◌, length, length-drop,
  length-append, take, drop, take-append-drop, append_assoc, All, arith, length-take, leb, leb→le,
  Bool-cases, inl, inr, take-append_left, drop-append_left,
}
use hp_server.Stream.{Result, ok, err, Answer, took, failed, write_all, read_full}

-- Each answer takes a byte at least, and none fails.
abbrev pub IsProgress : Answer → Type 0
IsProgress (took n) = 0 < n
IsProgress failed = ⊥

-- What goes out is always a prefix of the packet, and the whole of it where the loop succeeds.
pub write_all_prefix :
    (answers : List Answer) (packet : List ℕ)
    → (rest : List ℕ) × (packet ≡ (write_all answers packet).0 ++ rest)
      × ((write_all answers packet).1 ≡ ok tt → rest ≡ [])
unfolding write_all
write_all_prefix answers [] = ([], refl, λ e. refl)
write_all_prefix [] (b ∷ packet) = (b ∷ packet, refl, λ e. cc)
write_all_prefix (failed ∷ answers) (b ∷ packet) = (b ∷ packet, refl, λ e. cc)
write_all_prefix (took zero ∷ answers) (b ∷ packet) = (b ∷ packet, refl, λ e. cc)
write_all_prefix (took (suc n) ∷ answers) (b ∷ packet) =
    let (rest, whole, done) = write_all_prefix answers (drop n packet) in
    (
      rest,
      ap (λ (l : List ℕ). b ∷ l)
          (sym (take-append-drop n packet)
            ∙ ap (λ (l : List ℕ). take n packet ++ l) whole
            ∙ sym (append_assoc (take n packet) (write_all answers (drop n packet)).0 rest)),
      done,
    )

-- With a writer that takes a byte at least each time, and as many answers as bytes, the whole packet
-- goes out.
pub write_all_whole :
    (answers : List Answer) (packet : List ℕ)
    → All IsProgress answers
    → length packet ≤ length answers
    → write_all answers packet ≡ (packet, ok tt)
unfolding write_all
write_all_whole answers [] h enough = refl
write_all_whole [] (b ∷ packet) h enough = absurd (omega arith)
write_all_whole (failed ∷ answers) (b ∷ packet) h enough = absurd h.0
write_all_whole (took zero ∷ answers) (b ∷ packet) h enough = absurd (omega arith)
write_all_whole (took (suc n) ∷ answers) (b ∷ packet) h enough =
    rw (write_all_whole answers (drop n packet) h.1 (omega (arith, length-drop n packet)))
      (rw (take-append-drop n packet))

-- A read gives exactly the bytes asked for and leaves what follows them.
pub read_full-append : (xs rest : List ℕ) → read_full (length xs) (xs ++ rest) ≡ ok (xs, rest)
unfolding read_full
read_full-append xs rest = ground (
  arith,
  length-append xs rest,
  take-append_left (length xs) xs rest refl,
  drop-append_left (length xs) xs rest refl,
)

ok_injective : {a b : List ℕ × List ℕ} → ok a ≡ ok b → a ≡ b
ok_injective {a} {b} h = ap (value a) h
  where
    value : List ℕ × List ℕ → Result (List ℕ × List ℕ) → List ℕ × List ℕ
    value d (ok p) = p
    value d (err e) = d

taken : (n : ℕ) (s : List ℕ) → n ≤ length s → length (take n s) ≡ n
taken n s h = omega (arith, length-take n s)

-- A read that succeeds has split the stream.
pub read_full-ok :
    (n : ℕ) (s xs rest : List ℕ)
    → read_full n s ≡ ok (xs, rest)
    → (s ≡ xs ++ rest) × (length xs ≡ n)
unfolding read_full
read_full-ok n s xs rest h = elim (Bool-cases (leb n (length s))) [
  | inl enough ↦
      let whole : ok (take n s, drop n s) ≡ ok (xs, rest) = sym (rw enough refl) ∙ h in
      let parts : (take n s, drop n s) ≡ (xs, rest) = ok_injective whole in
      let front : take n s ≡ xs = ap (λ (p : List ℕ × List ℕ). p.0) parts in
      let back : drop n s ≡ rest = ap (λ (p : List ℕ × List ℕ). p.1) parts in
      (
        sym (take-append-drop n s) ∙ rw (front, back),
        ap length (sym front) ∙ taken n s (leb→le n (length s) enough),
      )
  | inr short ↦ ground arith
]
