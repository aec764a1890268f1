-- ===== src/Tls/Io/Ends.antt =====
-- `Read` and `Write` end, and keep what the language asks of a reader and a writer.
use hp_server.Prelude.{
  ℕ, zero, suc, ◌+◌, ◌≤◌, ◌<◌, ◌≡◌, refl, ap, sym, ◌∙◌, ◌⊎◌, inl, inr, ◌&&◌, Option, none, some,
  List, [], ◌∷◌, ◌++◌, length, length-append, length-take, length-drop, take, drop, get_or, leb,
  ◌==◌, ==_iff, Bool-cases, Option-cases, arith,
}
use hp_server.Stream.{eof}
use hp_server.Tls.{
  Crypto, Conn, TlsError, Outcome, good, refused, stream, and_then, and_then-good, good_parts,
  refused-ne-good, record_application_data, record_alert, peer_alert, unexpected_record,
}
use hp_server.Tls.Record.{read_record, write_record, seal}
use hp_server.Tls.Record.Accepted.{read_record-Accepted}
use hp_server.Tls.Handshake.{run_handshake}
use hp_server.Tls.Io.{
  Written, chunk, largest_chunk, take_record, read_buffer, fill_loop, fill_then, read_after,
  conn_read, write_loop, write_after, conn_write,
}

-- A call failed or succeeded, with the connection after it.
abbrev pub Ended {ℓ} : {A : Type ℓ} → Conn × Outcome A → Type ℓ
Ended {A = A} p =
    ((d : Conn) × (e : TlsError) × (p ≡ (d, refused e)))
    ⊎ ((d : Conn) × (a : A) × (p ≡ (d, good a)))

pub outcome-cases {ℓ} : {A : Type ℓ} (p : Conn × Outcome A) → Ended p
outcome-cases (d, refused e) = inl (d, e, refl)
outcome-cases (d, good a) = inr (d, a, refl)

take_record_good :
    (r : ℕ × List ℕ) (c d : Conn) (u : Unit {0})
    → take_record r c ≡ (d, good u)
    → (r.0 ≡ record_application_data) × (d ≡ record c { read_buf = r.1 })
unfolding take_record
take_record_good r c d u h = elim (Bool-cases (r.0 == record_application_data)) [
  | inl fits ↦
      let given : (record c { read_buf = r.1 }, good tt) ≡ (d, good u) = sym (rw fits refl) ∙ h in
      (
        (==_iff r.0 record_application_data).0 fits,
        sym (good_parts (record c { read_buf = r.1 }) d tt u given).0,
      )
  | inr other ↦ elim (Bool-cases (r.0 == record_alert)) [
    | inl alert ↦ elim (Bool-cases (leb 2 (length r.1) && (get_or r.1 1 0 == 0))) [
      | inl close ↦
          absurd (refused-ne-good c d (stream eof) u (sym (rw (other, alert, close) refl) ∙ h))
      | inr warning ↦
          absurd
            (refused-ne-good c d (peer_alert r.1) u (sym (rw (other, alert, warning) refl) ∙ h))
    ]
    | inr wrong ↦
        absurd (refused-ne-good c d (unexpected_record r.0) u (sym (rw (other, wrong) refl) ∙ h))
  ]
]

-- What the loop leaves: an error, or a buffer that is not empty.
abbrev Filled : Option (Conn × Outcome (Unit {0})) → Type 0
Filled o =
    (p : Conn × Outcome (Unit {0})) × (o ≡ some p)
    × ((d : Conn) (u : Unit {0}) → p ≡ (d, good u) → 0 < length d.read_buf)

-- What a reader keeps to: at most the bytes asked for, and one at least where any was asked for.
abbrev pub Reads : ℕ → Option (Conn × Outcome (List ℕ)) → Type 0
Reads n o =
    (p : Conn × Outcome (List ℕ)) × (o ≡ some p)
    × ((d : Conn) (bytes : List ℕ)
        → p ≡ (d, good bytes)
        → (length bytes ≤ n) × (0 < n → 0 < length bytes))

-- What a writer keeps to: all of the bytes given where there is no error, and fewer where there is
-- one, unless none were given.
abbrev pub Writes : List ℕ → Option Written → Type 0
Writes p o =
    (w : Written) × (o ≡ some w)
    × (w.count ≤ length p)
    × (w.error ≡ none → w.count ≡ length p)
    × ((e : TlsError) → w.error ≡ some e → 0 < length p → w.count < length p)

-- The same of the loop, behind what went before; it takes a record of bytes to fail.
abbrev LoopWrites : ℕ → List ℕ → Option Written → Type 0
LoopWrites before p o =
    (w : Written) × (o ≡ some w)
    × (w.error ≡ none → w.count ≡ before + length p)
    × ((e : TlsError) → w.error ≡ some e → w.count < before + length p)

loop-Writes : (p : List ℕ) (o : Option Written) → LoopWrites 0 p o → Writes p o
loop-Writes p o (w, e, all, fewer) = (
  w,
  e,
  elim (Option-cases w.error) [
    | inl fine ↦ omega (arith, all fine)
    | inr (e', failed) ↦ omega (arith, fewer e' failed)
  ],
  λ fine. omega (arith, all fine),
  λ e' failed any. omega (arith, fewer e' failed),
)

module _ (crypto : Crypto) where
  -- A record takes its header at least off the input.
  pub read_record_shorter :
      (c d : Conn) (r : ℕ × List ℕ)
      → read_record crypto c ≡ (d, good r)
      → length d.input < length c.input
  read_record_shorter c d r h =
      let (header, rest, five, typed, split, after) = read_record-Accepted crypto c d r.0 r.1 h in
      let left : length d.input ≡ length rest = ap (λ (k : Conn). length k.input) after in
      let tail = (seal crypto c.in_state r.0 r.1).1 in
      longer (length c.input) (length d.input) header tail rest (ap length split) five left
    where
      longer :
          (n m : ℕ) (header tail rest : List ℕ)
          → n ≡ length (header ++ (tail ++ rest))
          → length header ≡ 5
          → m ≡ length rest
          → m < n
      longer n m header tail rest long five left =
          omega (arith, length-append header (tail ++ rest), length-append tail rest)

  fill_loop-Filled :
      (fuel : ℕ) (c : Conn) (buffered : List ℕ)
      → buffered ≡ c.read_buf
      → length c.input < fuel
      → Filled (fill_loop crypto fuel c buffered)
  unfolding fill_loop
  fill_loop-Filled fuel c (b ∷ buffered) same enough = ((c, good tt), refl, λ d u e. filled d u e)
    where
      filled :
          (d : Conn) (u : Unit {0})
          → ◌≡◌ {A = Conn × Outcome (Unit {0})} (c, good tt) (d, good u)
          → 0 < length d.read_buf
      filled d u e =
          let kept : c ≡ d = (good_parts c d tt u e).0 in
          let long : length d.read_buf ≡ suc (length buffered) =
            ap (λ (k : Conn). length k.read_buf) (sym kept) ∙ ap length (sym same) in
          omega (arith, long)
  fill_loop-Filled zero c [] same enough = absurd (omega arith)
  fill_loop-Filled (suc fuel) c [] same enough =
      elim (outcome-cases (and_then (read_record crypto c) take_record)) [
        | inl (d, e, failed) ↦
            rw failed ((d, refused e), refl, λ d' u no. absurd (refused-ne-good d d' e u no))
        | inr (d, u, taken) ↦
            let (c1, r, got, took) = and_then-good (read_record crypto c) take_record taken in
            let (typed, after) = take_record_good r c1 d u took in
            let left : length d.input ≡ length c1.input = ap (λ (k : Conn). length k.input) after in
            rw taken (
              fill_loop-Filled fuel d d.read_buf refl
                (omega (arith, read_record_shorter c c1 r got, left)))
      ]

  buffered-Reads : (n : ℕ) (c : Conn) → 0 < length c.read_buf → Reads n (some (read_buffer n c))
  unfolding read_buffer
  buffered-Reads n c full = (read_buffer n c, refl, λ d bytes e. sized d bytes e)
    where
      sized :
          (d : Conn) (bytes : List ℕ)
          → ◌≡◌ {A = Conn × Outcome (List ℕ)}
              (record c { read_buf = drop n c.read_buf }, good (take n c.read_buf))
              (d, good bytes)
          → (length bytes ≤ n) × (0 < n → 0 < length bytes)
      sized d bytes e =
          let read : take n c.read_buf ≡ bytes =
            (good_parts (record c { read_buf = drop n c.read_buf }) d (take n c.read_buf) bytes
              e).1 in
          let long : length bytes ≡ length (take n c.read_buf) = ap length (sym read) in
          (
            omega (arith, long, length-take n c.read_buf),
            λ some'. omega (arith, long, length-take n c.read_buf),
          )

  Filled-Reads :
      (n : ℕ) (o : Option (Conn × Outcome (Unit {0}))) → Filled o → Reads n (fill_then n o)
  Filled-Reads n none ((d, outcome), e, f) = absurd (cc)
  Filled-Reads n (some (d, refused e)) f =
      ((d, refused e), refl, λ d' bytes no. absurd (refused-ne-good d d' e bytes no))
  Filled-Reads n (some (d, good u)) (p, e, full) =
      let same : p ≡ (d, good u) = cc in buffered-Reads n d (full d u same)

  after-Reads : (n : ℕ) (p : Conn × Outcome (Unit {0})) → Reads n (read_after crypto n p)
  after-Reads n (c, refused e) =
      ((c, refused e), refl, λ d bytes no. absurd (refused-ne-good c d e bytes no))
  after-Reads n (c, good u) =
      Filled-Reads n (fill_loop crypto (suc (length c.input)) c c.read_buf)
        (fill_loop-Filled (suc (length c.input)) c c.read_buf refl (omega arith))

  -- `Read` ends on every input, whatever the peer sends: with an error, or with at most the bytes
  -- asked for and, where any were asked for, one at least.
  pub conn_read-Reads : (n : ℕ) (c : Conn) → Reads n (conn_read crypto n c)
  unfolding conn_read
  conn_read-Reads n c = after-Reads n (run_handshake crypto c)

  chunk-Writes :
      (before : ℕ) (b : ℕ) (p : List ℕ) (o : Option Written)
      → LoopWrites (before + length (chunk (b ∷ p))) (drop largest_chunk (b ∷ p)) o
      → LoopWrites before (b ∷ p) o
  chunk-Writes before b p o (w, e, all, fewer) =
      let whole : before + length (chunk (b ∷ p)) + length (drop largest_chunk (b ∷ p))
          ≡ before + length (b ∷ p) =
        omega (arith, length-take largest_chunk (b ∷ p), length-drop largest_chunk (b ∷ p)) in
      (w, e, λ ended. all ended ∙ whole, λ e' h. rw (← whole) (fewer e' h))

  write_loop-Writes :
      (fuel : ℕ) (c : Conn) (before : ℕ) (p : List ℕ)
      → length p ≤ fuel
      → LoopWrites before p (write_loop crypto fuel c before p)
  unfolding write_loop
  write_loop-Writes fuel c before [] enough = (
    record { conn = c; count = before; error = none },
    refl,
    λ e. omega arith,
    λ e no. absurd (cc),
  )
  write_loop-Writes zero c before (b ∷ p) enough = absurd (omega arith)
  write_loop-Writes (suc fuel) c before (b ∷ p) enough =
      elim (outcome-cases (write_record crypto record_application_data (chunk (b ∷ p)) c)) [
        | inl (d, e, failed) ↦ rw failed (
          record { conn = d; count = before; error = some e },
          refl,
          λ no. absurd (cc),
          λ e' h. omega arith,
        )
        | inr (d, u, wrote) ↦ rw wrote (
            chunk-Writes before b p _ (
              write_loop-Writes fuel d (before + length (chunk (b ∷ p)))
                (drop largest_chunk (b ∷ p)) (omega (arith, length-drop largest_chunk (b ∷ p)))))
      ]

  after-Writes : (p : List ℕ) (q : Conn × Outcome (Unit {0})) → Writes p (write_after crypto p q)
  after-Writes p (c, refused e) = (
    record { conn = c; count = 0; error = some e },
    refl,
    omega arith,
    λ no. absurd (cc),
    λ e' h any. any,
  )
  after-Writes p (c, good u) =
      loop-Writes p (write_loop crypto (length p) c 0 p)
        (write_loop-Writes (length p) c 0 p (omega arith))

  -- `Write` ends, whatever the writer below answers. It reports at most the bytes that it was given,
  -- all of them where it reports no error, and fewer where it reports one, unless none were given.
  pub conn_write-Writes : (p : List ℕ) (c : Conn) → Writes p (conn_write crypto p c)
  unfolding conn_write
  conn_write-Writes p c = after-Writes p (run_handshake crypto c)
