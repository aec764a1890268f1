-- ===== src/Tls/Io/Delivery.antt =====
-- What one side writes, in chunks, the other side reads, in order and whole.
use hp_server.Prelude.{
  ℕ, zero, suc, ◌+◌, ◌^◌, ◌≤◌, ◌<◌, ◌≡◌, refl, ap, sym, subst, ◌∙◌, inl, inr, false, Option, none,
  some, List, [], ◌∷◌, ◌++◌, length, length-take, drop, take-append-drop, drop-append_left,
  append_assoc, append-nil, arith, All,
}
use hp_server.Tls.{Crypto, Conn, Outcome, good, TlsError, record_application_data}
use hp_server.Tls.Record.{write_record}
use hp_server.Tls.Record.Exchange.{InStep, sent_since, read_record-write_record}
use hp_server.Tls.Io.{Written, chunk, largest_chunk, write_loop, write_after, conn_write}
use hp_server.Tls.Io.Ends.{outcome-cases}
use hp_server.Tls.Io.OneRead.{
  write_record_grows, Ready, run_handshake_done, Feeds, fed, record_behind, Streams, reads-Streams,
}

abbrev conn_or : Conn → Option Written → Conn
conn_or w none = w
conn_or w (some written) = written.conn

abbrev error_of : Option Written → Option TlsError
error_of none = none
error_of (some written) = written.error

-- The reader has what was written behind it, and is in step with the writer after it.
abbrev pub Arrived : Conn → List ℕ → Conn → Type 0
Arrived w' rest r = (r.input ≡ rest) × InStep w' r × Ready r

none-ne-some : {written : Written} → none ≡ some written → ⊥
none-ne-some h = cc

module _ (crypto : Crypto) where
  -- The reader's side of a loop that wrote `p` and sent `out`.
  abbrev Delivers : Conn → List ℕ → List ℕ → Conn → Type 0
  Delivers w p out w' =
      (r : Conn) (rest : List ℕ)
      → InStep w r
      → Ready r
      → r.input ≡ out ++ rest
      → Feeds crypto (Arrived w' rest) r p

  chunk-Delivers :
      (w d w' : Conn) (u : Unit {0}) (bytes later x out : List ℕ)
      → write_record crypto record_application_data bytes w ≡ (d, good u)
      → d.output ≡ w.output ++ x
      → d.version ≡ w.version
      → 0 < length bytes
      → length bytes ≤ largest_chunk
      → Delivers d later out w'
      → Delivers w (bytes ++ later) (x ++ out) w'
  chunk-Delivers w d w' u bytes later x out wrote grown version any small delivers r rest step ready
        coming =
      let q = write_record crypto record_application_data bytes w in
      let ended : q.1 ≡ good tt = ap (λ (p : Conn × Outcome (Unit {0})). p.1) wrote in
      let after : q.0 ≡ d = ap (λ (p : Conn × Outcome (Unit {0})). p.0) wrote in
      let went : sent_since w q.0 ≡ x =
        ap (λ (k : Conn). drop (length w.output) k.output) after
        ∙ ap (drop (length w.output)) grown
        ∙ drop-append_left (length w.output) w.output x refl in
      let heard : r.input ≡ sent_since w q.0 ++ (out ++ rest) =
        coming ∙ append_assoc x out rest ∙ ap (λ (l : List ℕ). l ++ (out ++ rest)) (sym went) in
      let got =
        read_record-write_record crypto w r record_application_data bytes (out ++ rest) step small
          ended heard in
      let r1 : Conn = record r {
        input = out ++ rest;
        first_record = false;
        in_state = q.0.out_state;
        read_buf = [];
      } in
      let step' : InStep d r1 = record {
        same_cipher = ap (λ (k : Conn). k.out_state) after;
        same_version = step.same_version ∙ sym version;
        version_fits = subst (λ (v : ℕ). v < 2 ^ 16) (sym version) step.version_fits;
      } in
      let ready' : Ready r1 = record { shaken = ready.shaken; drained = refl } in
      record_behind r
        (record r { input = out ++ rest; first_record = false; in_state = q.0.out_state }) bytes
        later ready.drained got ready.shaken any (delivers r1 rest step' ready' refl)

  -- A loop without an error.
  abbrev Sends : Conn → List ℕ → Written → Type 0
  Sends w p written =
      (out : List ℕ) × (written.conn.output ≡ w.output ++ out) × Delivers w p out written.conn

  chunk-Sends :
      (w d : Conn) (u : Unit {0}) (b : ℕ) (p : List ℕ) (written : Written)
      → write_record crypto record_application_data (chunk (b ∷ p)) w ≡ (d, good u)
      → Sends d (drop largest_chunk (b ∷ p)) written
      → Sends w (b ∷ p) written
  chunk-Sends w d u b p written wrote (out, grows, delivers) =
      let (x, grown, version, shaken) =
        write_record_grows crypto record_application_data (chunk (b ∷ p)) w d u wrote in
      let small : length (chunk (b ∷ p)) ≤ largest_chunk =
        omega (arith, length-take largest_chunk (b ∷ p)) in
      let any : 0 < length (chunk (b ∷ p)) = omega (arith, length-take largest_chunk (b ∷ p)) in
      (
        x ++ out,
        grows ∙ ap (λ (l : List ℕ). l ++ out) grown ∙ append_assoc w.output x out,
        subst (λ (l : List ℕ). Delivers w l (x ++ out) written.conn)
            (take-append-drop largest_chunk (b ∷ p))
            (chunk-Delivers w d written.conn u (chunk (b ∷ p)) (drop largest_chunk (b ∷ p)) x out
              wrote grown version any small delivers),
      )

  write_loop-Sends :
      (fuel : ℕ) (w : Conn) (before : ℕ) (p : List ℕ) (written : Written)
      → write_loop crypto fuel w before p ≡ some written
      → written.error ≡ none
      → Sends w p written
  unfolding write_loop
  write_loop-Sends fuel w before [] written h whole =
      let same : w ≡ written.conn = ap (conn_or w) h in
      (
        [],
        ap (λ (k : Conn). k.output) (sym same) ∙ sym (append-nil w.output),
        λ r rest step ready coming.
            fed r ready.drained (coming, subst (λ (k : Conn). InStep k r) same step, ready),
      )
  write_loop-Sends zero w before (b ∷ p) written h whole = absurd (none-ne-some h)
  write_loop-Sends (suc fuel) w before (b ∷ p) written h whole =
      elim (outcome-cases (write_record crypto record_application_data (chunk (b ∷ p)) w)) [
        | inl (d, e, failed) ↦
            let stopped : some (record { conn = d; count = before; error = some e })
                ≡ some written =
              sym (rw failed refl) ∙ h in
            let error : some e ≡ none = ap error_of stopped ∙ whole in absurd (cc)
        | inr (d, u, wrote) ↦ chunk-Sends w d u b p written wrote (
            write_loop-Sends fuel d (before + length (chunk (b ∷ p))) (drop largest_chunk (b ∷ p))
              written (sym (rw wrote refl) ∙ h) whole)
      ]

  -- What `Write` sends without an error, after its handshake, the reads of a connection in step give
  -- back, whatever their sizes above zero are: each read gives one byte at least and no more than it
  -- asks for, the next of the bytes written, in their order, until all are read. Then nothing is read of what
  -- follows, nothing is left buffered, and the two are in step again.
  pub conn_write-Streams :
      (w r : Conn) (p rest : List ℕ) (written : Written) (sizes : List ℕ)
      → w.handshaken ≡ some (good tt)
      → InStep w r
      → Ready r
      → conn_write crypto p w ≡ some written
      → written.error ≡ none
      → r.input ≡ sent_since w written.conn ++ rest
      → All (λ n. 0 < n) sizes
      → Streams crypto (Arrived written.conn rest) sizes r p
  unfolding conn_write
  conn_write-Streams w r p rest written sizes shaken step ready wrote whole coming any =
      let loop : write_loop crypto (length p) w 0 p ≡ some written =
        sym (ap (write_after crypto p) (run_handshake_done crypto w shaken)) ∙ wrote in
      let (out, grown, delivers) = write_loop-Sends (length p) w 0 p written loop whole in
      let went : sent_since w written.conn ≡ out =
        ap (drop (length w.output)) grown ∙ drop-append_left (length w.output) w.output out refl in
      let feeds : Feeds crypto (Arrived written.conn rest) r p =
        delivers r rest step ready (coming ∙ ap (λ (l : List ℕ). l ++ rest) went) in
      let empty : r ≡ record r { read_buf = [] } =
        ap (λ (l : List ℕ). record r { read_buf = l }) ready.drained in
      reads-Streams crypto (Arrived written.conn rest) sizes r p any (
        p,
        ready.shaken,
        ap (λ (l : List ℕ). l ++ p) (sym ready.drained),
        subst (λ (k : Conn). Feeds crypto (Arrived written.conn rest) k p) empty feeds,
      )
