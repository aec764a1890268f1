-- ===== src/Tls/Io/OneRead.antt =====
-- What one write sends, and what one read of it gives.
use hp_server.Prelude.{
  All, length-append, ◌+◌, subst, take-append-drop, append_assoc, length-take, ◌<◌, ℕ, zero, suc,
  ◌≤◌, ◌<◌, ◌≡◌, refl, ap, sym, ◌∙◌, Option, some, List, [], ◌∷◌, ◌++◌, length, take, drop, arith,
}
use hp_server.Stream.{Result, ok, err, Answer, write_all, answers_left}
use hp_server.Tls.{
  Crypto, Conn, Outcome, good, stream, good_parts, refused-ne-good, record_application_data,
}
use hp_server.Tls.Record.{record_header, sent, write_raw_record, read_record, write_record, seal}
use hp_server.Tls.Handshake.{once, run_handshake}
use hp_server.Tls.Io.{take_record, read_buffer, fill_loop, fill_then, read_after, conn_read}

sent_grows :
    (c d : Conn) (answers : List Answer) (p : List ℕ × Result (Unit {0})) (u : Unit {0})
    → sent c answers p ≡ (d, good u)
    → (d.output ≡ c.output ++ p.0) × (d.version ≡ c.version) × (d.handshaken ≡ c.handshaken)
sent_grows c d answers (out, ok v) u h =
    let same : record c { output = c.output ++ out; answers = answers } ≡ d =
      (good_parts (record c { output = c.output ++ out; answers = answers }) d tt u h).0 in
    (
      ap (λ (k : Conn). k.output) (sym same),
      ap (λ (k : Conn). k.version) (sym same),
      ap (λ (k : Conn). k.handshaken) (sym same),
    )
sent_grows c d answers (out, err e) u h =
    absurd
      (refused-ne-good (record c { output = c.output ++ out; answers = answers }) d (stream e) u h)

-- After its handshake, with nothing buffered.
pub record Ready (r : Conn) : Type 0 where
  pub shaken : r.handshaken ≡ some (good tt)
  pub drained : r.read_buf ≡ []

module _ (crypto : Crypto) where
  pub write_record_grows :
      (typ : ℕ) (plain : List ℕ) (c d : Conn) (u : Unit {0})
      → write_record crypto typ plain c ≡ (d, good u)
      → (out : List ℕ) × (d.output ≡ c.output ++ out)
        × (d.version ≡ c.version)
        × (d.handshaken ≡ c.handshaken)
  unfolding write_record write_raw_record
  write_record_grows typ plain c d u h =
      let (s, content) = seal crypto c.out_state typ plain in
      let packet = record_header typ c.version (length content) ++ content in
      let (output, version, shaken) =
        sent_grows (record c { out_state = s }) d (answers_left c.answers packet)
          (write_all c.answers packet) u h in
      ((write_all c.answers packet).0, output, version, shaken)

  pub run_handshake_done :
      (c : Conn) → c.handshaken ≡ some (good tt) → run_handshake crypto c ≡ (c, good tt)
  unfolding run_handshake
  run_handshake_done c h = ap (λ (o : Option (Outcome (Unit {0}))). once crypto o c) h

  fill_record :
      (fuel : ℕ) (r r1 : Conn) (bytes : List ℕ)
      → read_record crypto r ≡ (r1, good (record_application_data, bytes))
      → fill_loop crypto (suc fuel) r []
        ≡ fill_loop crypto fuel (record r1 { read_buf = bytes }) bytes
  unfolding fill_loop take_record
  fill_record fuel r r1 bytes got = rw got

  fill_full :
      (fuel : ℕ) (c : Conn) (bytes : List ℕ)
      → 0 < length bytes
      → fill_loop crypto fuel c bytes ≡ some (c, good tt)
  unfolding fill_loop
  fill_full fuel c [] h = absurd (omega arith)
  fill_full zero c (b ∷ bytes) h = refl
  fill_full (suc fuel) c (b ∷ bytes) h = refl

  -- The records that are still to come to a connection that has read all that it buffered, and what
  -- is true of it behind them.
  pub data Feeds (P : Conn → Type 0) : Conn → List ℕ → Type 0 where
    fed : (r : Conn) → r.read_buf ≡ [] → P r → Feeds P r []
    record_behind :
        (r r1 : Conn) (bytes later : List ℕ)
        → r.read_buf ≡ []
        → read_record crypto r ≡ (r1, good (record_application_data, bytes))
        → r1.handshaken ≡ some (good tt)
        → 0 < length bytes
        → Feeds P (record r1 { read_buf = [] }) later
        → Feeds P r (bytes ++ later)

  -- What a connection is still to give: what it buffered, and then the records.
  abbrev pub Holds : (Conn → Type 0) → Conn → List ℕ → Type 0
  Holds P r pending =
      (later : List ℕ) × (r.handshaken ≡ some (good tt))
      × (pending ≡ r.read_buf ++ later)
      × Feeds P (record r { read_buf = [] }) later

  -- One read of at most n bytes gives the first of what is pending, and leaves the others.
  abbrev pub Gives : (Conn → Type 0) → ℕ → Conn → List ℕ → Type 0
  Gives P n r pending =
      (r' : Conn) × (bytes rest : List ℕ) × (conn_read crypto n r ≡ some (r', good bytes))
      × (pending ≡ bytes ++ rest)
      × (0 < length bytes)
      × (length bytes ≤ n)
      × Holds P r' rest

  buffered :
      (P : Conn → Type 0) (n : ℕ) (r d : Conn) (pending later : List ℕ)
      → 0 < n
      → r.handshaken ≡ some (good tt)
      → d.handshaken ≡ some (good tt)
      → fill_loop crypto (suc (length r.input)) r r.read_buf ≡ some (d, good tt)
      → 0 < length d.read_buf
      → pending ≡ d.read_buf ++ later
      → Feeds P (record d { read_buf = [] }) later
      → Gives P n r pending
  unfolding conn_read read_buffer
  buffered P n r d pending later any shaken shaken' filled full split feeds = (
    record d { read_buf = drop n d.read_buf },
    take n d.read_buf,
    drop n d.read_buf ++ later,
    ap (read_after crypto n) (run_handshake_done r shaken) ∙ ap (fill_then n) filled,
    split
        ∙ ap (λ (l : List ℕ). l ++ later) (sym (take-append-drop n d.read_buf))
        ∙ append_assoc (take n d.read_buf) (drop n d.read_buf) later,
    omega (arith, length-take n d.read_buf),
    omega (arith, length-take n d.read_buf),
    (later, shaken', refl, feeds),
  )

  -- With nothing buffered, the next record fills the buffer.
  drained :
      (P : Conn → Type 0) (n : ℕ) (r : Conn) (pending : List ℕ)
      → 0 < n
      → r.handshaken ≡ some (good tt)
      → r.read_buf ≡ []
      → 0 < length pending
      → Feeds P r pending
      → Gives P n r pending
  drained P n r pending any shaken empty more (fed r' empty' p) = absurd (omega arith)
  drained P n r pending any shaken empty more
        (record_behind r' r1 bytes later empty' got shaken' full feeds) =
      let d : Conn = record r1 { read_buf = bytes } in
      let filled : fill_loop crypto (suc (length r.input)) r r.read_buf ≡ some (d, good tt) =
        ap (λ (l : List ℕ). fill_loop crypto (suc (length r.input)) r l) empty
        ∙ fill_record (length r.input) r r1 bytes got
        ∙ fill_full (length r.input) d bytes full in
      buffered P n r d (bytes ++ later) later any shaken shaken' filled full refl feeds

  pub conn_read-Gives :
      (P : Conn → Type 0) (n : ℕ) (r : Conn) (pending : List ℕ)
      → 0 < n
      → 0 < length pending
      → Holds P r pending
      → Gives P n r pending
  conn_read-Gives P n r pending any more (later, shaken, split, feeds) = go r.read_buf refl
    where
      go : (buf : List ℕ) → r.read_buf ≡ buf → Gives P n r pending
      go [] empty =
          let same : record r { read_buf = [] } ≡ r =
            ap (λ (l : List ℕ). record r { read_buf = l }) (sym empty) in
          let all : pending ≡ later = split ∙ ap (λ (l : List ℕ). l ++ later) empty in
          drained P n r pending any shaken empty more (
            subst (λ (l : List ℕ). Feeds P r l) (sym all)
              (subst (λ (k : Conn). Feeds P k later) same feeds))
      go (b ∷ buf) some' =
          let filled : fill_loop crypto (suc (length r.input)) r r.read_buf ≡ some (r, good tt) =
            fill_full (suc (length r.input)) r r.read_buf (omega (arith, ap length some')) in
          buffered P n r r pending later any shaken shaken filled (omega (arith, ap length some'))
            split feeds

  -- Reads of any sizes, one after another: each gives one byte at least and no more than it asks
  -- for, the next of what is pending, until nothing is, and then P holds of the connection.
  abbrev pub Streams : (Conn → Type 0) → List ℕ → Conn → List ℕ → Type 0
  Streams P ns r [] = P r
  Streams P [] r (b ∷ pending) = Unit
  Streams P (n ∷ ns) r (b ∷ pending) =
      (r' : Conn) × (bytes rest : List ℕ) × (conn_read crypto n r ≡ some (r', good bytes))
      × (b ∷ pending ≡ bytes ++ rest)
      × (0 < length bytes)
      × (length bytes ≤ n)
      × Streams P ns r' rest

  fed-P :
      (P : Conn → Type 0) (r : Conn) (pending : List ℕ)
      → length pending ≡ 0
      → Feeds P r pending
      → P r
  fed-P P r pending none' (fed r' empty p) = p
  fed-P P r pending none' (record_behind r' r1 bytes later empty got shaken full feeds) =
      absurd (omega (arith, length-append bytes later, none'))

  held-P : (P : Conn → Type 0) (r : Conn) → Holds P r [] → P r
  held-P P r (later, shaken, split, feeds) =
      let short : 0 ≡ length r.read_buf + length later =
        ap length split ∙ length-append r.read_buf later in
      empty_buffer r.read_buf refl (omega (arith, short))
        (fed-P P _ later (omega (arith, short)) feeds)
    where
      empty_buffer :
          (buf : List ℕ) → r.read_buf ≡ buf → length buf ≡ 0 → P (record r { read_buf = [] }) → P r
      empty_buffer [] same none' p =
          subst P (ap (λ (l : List ℕ). record r { read_buf = l }) (sym same)) p
      empty_buffer (b ∷ buf) same none' p = absurd (omega arith)

  pub reads-Streams :
      (P : Conn → Type 0) (ns : List ℕ) (r : Conn) (pending : List ℕ)
      → All (λ n. 0 < n) ns
      → Holds P r pending
      → Streams P ns r pending
  reads-Streams P [] r [] any held = held-P P r held
  reads-Streams P (n ∷ ns) r [] any held = held-P P r held
  reads-Streams P [] r (b ∷ pending) any held = tt
  reads-Streams P (n ∷ ns) r (b ∷ pending) (positive, any) held =
      let (r', bytes, rest, read, split, some', most, held') =
        conn_read-Gives P n r (b ∷ pending) positive (omega arith) held in
      (r', bytes, rest, read, split, some', most, reads-Streams P ns r' rest any held')
