-- ===== src/Server/Writer/Order.antt =====
-- The client reads the frames of the channel in their order.
use hp_server.Prelude.{
  ℕ, zero, suc, ◌+◌, ◌^◌, ◌≤◌, ◌<◌, ◌≡◌, refl, ap, ◌∙◌, some, List, [], ◌∷◌, ◌++◌, map, length,
  length-append, length-drop, drop, append_assoc, All, arith,
}
use hp_server.Stream.{ok, err, Answer, took, failed, answers_left}
use hp_server.Stream.Laws.{IsProgress}
use hp_server.Fire.{Header, Frame, marshal_binary, write, read}
use hp_server.Fire.RoundTrip.{IsHeader, arrives, write_whole, read-write}
use hp_server.Session.{OutboundFrame}
use hp_server.Server.Writer.{Wire, after_write, write_loop}

-- A frame that a writer can send.
abbrev pub IsSendable : Frame → Type 0
IsSendable f = IsHeader f.header × (length f.payload < 2 ^ 16)

-- An item of the channel, with its delay.
abbrev pub queued : ℕ × Frame → OutboundFrame
queued (delay, f) = record { frame = some f; delay = delay }

abbrev pub wire_size : List (ℕ × Frame) → ℕ
wire_size [] = 0
wire_size ((delay, f) ∷ fs) = 12 + length f.payload + wire_size fs

-- The frames come off the stream one after another, each as it arrives, and `rest` is behind them.
abbrev pub Arrive : List ℕ → List (ℕ × Frame) → List ℕ → Type 0
Arrive stream [] rest = stream ≡ rest
Arrive stream ((delay, f) ∷ fs) rest =
    (behind : List ℕ) × (read stream ≡ arrives f behind) × Arrive behind fs rest

-- Every answer that is used up took a byte at least.
answers_left-IsProgress :
    (answers : List Answer) (packet : List ℕ)
    → All IsProgress answers
    → All IsProgress (answers_left answers packet)
      × (length answers ≤ length (answers_left answers packet) + length packet)
unfolding answers_left
answers_left-IsProgress answers [] progress = (progress, omega arith)
answers_left-IsProgress [] (b ∷ packet) progress = (tt, omega arith)
answers_left-IsProgress (failed ∷ answers) (b ∷ packet) progress = absurd progress.0
answers_left-IsProgress (took zero ∷ answers) (b ∷ packet) progress = absurd (omega arith)
answers_left-IsProgress (took (suc n) ∷ answers) (b ∷ packet) progress =
    let (more, enough) = answers_left-IsProgress answers (drop n packet) progress.1 in
    (more, omega (arith, enough, length-drop n packet))

length-marshal_binary : (h : Header) → length (marshal_binary h) ≡ 12
unfolding marshal_binary
length-marshal_binary h = refl

after_write_ok :
    (wire later : Wire) → wire.1 ≡ ok tt → after_write wire later ≡ (wire.0 ++ later.0, later.1)
after_write_ok (out, ok u) later h = refl
after_write_ok (out, err e) later h = absurd (cc)

write_size :
    (answers : List Answer) (f : Frame)
    → IsSendable f
    → All IsProgress answers
    → 12 + length f.payload ≤ length answers
    → length (write answers f).1.0 ≡ 12 + length f.payload
write_size answers f (v, fits) progress enough =
    let h = record (f.header) { payload_size = length f.payload } in
    rw (write_whole answers f v fits progress enough)
      (omega (arith, length-append (marshal_binary h) f.payload, length-marshal_binary h))

-- Over a writer that makes progress the loop sends every frame of the channel, and the client reads
-- them one by one in the order in which they were queued, each whole and with its size set.
pub write_loop-Arrive :
    (answers : List Answer) (fs : List (ℕ × Frame)) (rest : List ℕ)
    → All (λ f. IsSendable f.1) fs
    → All IsProgress answers
    → wire_size fs ≤ length answers
    → ((write_loop answers (map queued fs)).1 ≡ ok tt)
      × Arrive ((write_loop answers (map queued fs)).0 ++ rest) fs rest
unfolding write_loop
write_loop-Arrive answers [] rest sendable progress enough = (refl, refl)
write_loop-Arrive answers ((delay, f) ∷ fs) rest sendable progress enough =
    let (v, fits) = sendable.0 in
    let wire = (write answers f).1 in
    let room : 12 + length f.payload ≤ length answers = omega (arith, enough) in
    let (sent, arrived) = read-write answers f [] v fits progress room in
    let left = answers_left answers wire.0 in
    let (more, used) = answers_left-IsProgress answers wire.0 progress in
    let size = write_size answers f (v, fits) progress room in
    let (later, follow) =
      write_loop-Arrive left fs rest sendable.1 more (omega (arith, used, size, enough)) in
    let out = (write_loop left (map queued fs)).0 in
    let whole : after_write wire (write_loop left (map queued fs))
        ≡ (wire.0 ++ out, (write_loop left (map queued fs)).1) =
      after_write_ok wire (write_loop left (map queued fs)) sent in
    (
      ap (λ (w : Wire). w.1) whole ∙ later,
      (
        out ++ rest,
        ap (λ (w : Wire). read (w.0 ++ rest)) whole
            ∙ ap read (append_assoc wire.0 out rest)
            ∙ (read-write answers f (out ++ rest) v fits progress room).1,
        follow,
      ),
    )
