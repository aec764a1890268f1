-- ===== src/Server/Serve/Ends.antt =====
-- Every connection ends, and leaves nothing of its session behind.
use hp_server.Prelude.{
  ℕ, zero, suc, ◌+◌, ◌<◌, ◌≡◌, ◌≢◌, refl, ap, ◌∙◌, inl, inr, Bool, true, false, Option, none, some,
  List, ◌++◌, length, length-append, Bool-cases, All, arith,
}
use hp_server.IntMap
use hp_server.IntMap.{IntMap}
use hp_server.Stream.{Result, ok, err, read_full, ◌>>=◌}
use hp_server.Stream.Laws.{read_full-ok}
use hp_server.Fire.{Frame, header_size, parse_header, read}
use hp_server.Server.{Server}
use hp_server.Server.Leave.{remove_session}
use hp_server.Server.Leave.Laws.{remove_session-gone}
use hp_server.Server.Dispatch.{Handler}
use hp_server.Server.Serve.{
  Served, crashed, ended, again, serve_request, Ending, panic, left, waiting, leave, Meets,
  after_request, after_read, serve_loop, serve_conn,
}

-- The server was left by removing the session, which then has no request in the queue and is not
-- found under its id; or a send waits for ever, in a round where no room comes.
abbrev pub Gone : Meets → ℕ → Ending → Type 0
Gone meets p panic = Unit
Gone meets p (left s) =
    (t : Server) × (s ≡ remove_session p t)
    × All (λ r. r.session ≢ p) s.match_queue
    × (IntMap.get (t.heap p).session_id s.sessions ≡ none)
Gone meets p waiting = (round : ℕ) × (meets.blocked round ≡ true)

abbrev pub Ends : Meets → ℕ → Option Ending → Type 0
Ends meets p o = (ending : Ending) × (o ≡ some ending) × Gone meets p ending

leave-Gone :
    (meets : Meets) (p round : ℕ) (s : Server) → Gone meets p (leave (meets.blocked round) p s)
leave-Gone meets p round s =
    let (queue, sessions, active, others, ids, kept) = remove_session-gone p s in
    elim (Bool-cases (meets.blocked round)) [
      | inl stuck ↦ rw stuck (round, stuck)
      | inr room ↦ rw room (s, refl, queue, sessions)
    ]

leave-Ends :
    (meets : Meets) (p round : ℕ) (s : Server)
    → Ends meets p (some (leave (meets.blocked round) p s))
leave-Ends meets p round s = (leave (meets.blocked round) p s, refl, leave-Gone meets p round s)

ok_parts {ℓ κ} :
    {B : Type κ} {A : Type ℓ} {last : B} (first : Result A) (next : A → Result B)
    → (first >>= next) ≡ ok last
    → (value : A) × (first ≡ ok value) × (next value ≡ ok last)
ok_parts (ok value) next h = (value, refl, h)
ok_parts (err message) next h = absurd (cc)

abbrev rest_of : List ℕ → Result (Option Frame × List ℕ) → List ℕ
rest_of d (ok (frame, rest)) = rest
rest_of d (err e) = d

shorter :
    (stream bytes behind payload rest : List ℕ)
    → stream ≡ bytes ++ behind
    → length bytes ≡ header_size
    → behind ≡ payload ++ rest
    → length rest < length stream
shorter stream bytes behind payload rest front long back =
    omega (
      arith,
      ap length front,
      length-append bytes behind,
      ap length back,
      length-append payload rest,
    )

-- A frame takes its header off the stream.
read_shorter :
    (stream : List ℕ) (frame : Option Frame) (rest : List ℕ)
    → read stream ≡ ok (frame, rest)
    → length rest < length stream
unfolding read
read_shorter stream frame rest h =
    let ((bytes, behind), got, h1) = ok_parts (read_full header_size stream) _ h in
    let (header, parsed, h2) = ok_parts (parse_header bytes) _ h1 in
    let ((payload, rest'), body, h3) = ok_parts (read_full header.payload_size behind) _ h2 in
    let (front, long) = read_full-ok header_size stream bytes behind got in
    let (back, size) = read_full-ok header.payload_size behind payload rest' body in
    let same : rest' ≡ rest = ap (rest_of rest') h3 in
    shorter stream bytes behind payload rest front long
      (back ∙ ap (λ (l : List ℕ). payload ++ l) same)

-- What a round needs of the rounds behind it.
next-Ends :
    (meets : Meets) (p round : ℕ) (s : Server) (serve : Frame → Served)
    (next : List ℕ → Server → Option Ending) (stream : List ℕ)
    → ((rest : List ℕ) (t : Server) → length rest < length stream → Ends meets p (next rest t))
    → Ends meets p (after_read (meets.blocked round) p s serve next (read stream))
next-Ends meets p round s serve next stream later = by_read (read stream) refl
  where
    by_served :
        (rest : List ℕ)
        → length rest < length stream
        → (o : Served) → Ends meets p (after_request (meets.blocked round) p (next rest) o)
    by_served rest short crashed = (panic, refl, tt)
    by_served rest short (ended t) = leave-Ends meets p round t
    by_served rest short (again t) = elim (Bool-cases (meets.blocked round)) [
      | inl stuck ↦ rw stuck (waiting, refl, (round, stuck))
      | inr room ↦ rw room (later rest t short)
    ]

    by_read :
        (o : Result (Option Frame × List ℕ))
        → read stream ≡ o
        → Ends meets p (after_read (meets.blocked round) p s serve next o)
    by_read (err e) same = leave-Ends meets p round s
    by_read (ok (none, rest)) same = (panic, refl, tt)
    by_read (ok (some req, rest)) same =
        by_served rest (read_shorter stream (some req) rest same) (serve req)

serve_loop-Ends :
    (handlers : IntMap Handler) (meets : Meets) (p fuel round : ℕ) (stream : List ℕ) (s : Server)
    → length stream < fuel
    → Ends meets p (serve_loop handlers meets p fuel round stream s)
unfolding serve_loop
serve_loop-Ends handlers meets p zero round stream s enough = absurd (omega arith)
serve_loop-Ends handlers meets p (suc fuel) round stream s enough =
    let s' = meets.others round s in
    elim (Bool-cases (meets.write_failed round)) [
      | inl failed ↦ rw failed (leave-Ends meets p round s')
      | inr open' ↦ rw open' (
          next-Ends meets p round s' (λ req. serve_request handlers (meets.clock round) p req s')
            (λ rest t. serve_loop handlers meets p fuel (round + 1) rest t) stream
            (λ rest t short.
              serve_loop-Ends handlers meets p fuel (round + 1) rest t (omega (arith, short))))
    ]

-- A connection comes to an end for whatever bytes the client sends, whichever handlers are registered,
-- and whatever other connections do meanwhile: the model's bound on the rounds is never met. The end
-- is a panic of the program; or the removal of the session, which then has no request in the queue
-- and is not found under its id; or a send that waits for ever, and this only where in some round a
-- channel has no room and never gets any.
pub serve_conn-Ends :
    (handlers : IntMap Handler) (meets : Meets) (remote : Option (List ℕ)) (choices : List Bool)
    (shaken : Bool) (p : ℕ) (stream : List ℕ) (s : Server)
    → Ends meets p (serve_conn handlers meets remote choices shaken p stream s)
unfolding serve_conn
serve_conn-Ends handlers meets remote choices true p stream s =
    serve_loop-Ends handlers meets p (suc (length stream)) 0 stream _ (omega arith)
serve_conn-Ends handlers meets remote choices false p stream s = leave-Ends meets p 0 _
