-- ===== src/Tls/Record/Accepted.antt =====
-- What `readRecord` accepts: a record that the other side's cipher sealed, and nothing else.
use hp_server.Prelude.{ℕ, ◌≡◌, ap, sym, ◌∙◌, false, List, ◌++◌, length, get_or, leb}
use hp_server.Fire.{uint16}
use hp_server.Tls.{
  Crypto, Conn, good, and_then, good_parts, and_then-good, require-good, require, oversized_record,
  give,
}
use hp_server.Tls.Record.{
  read_bytes, accept_version, open_record, read_content, read_after_header, read_record, seal,
  max_record,
}
use hp_server.Tls.Record.Opened.{read_bytes_good, accept_version_good, open_record_good}

module _ (crypto : Crypto) where
  -- A content that was sealed by the connection's cipher is taken off the input.
  abbrev Opened : Conn → Conn → ℕ → ℕ × List ℕ → Type 0
  Opened c d typ r =
      (rest : List ℕ) × (c.input ≡ (seal crypto c.in_state typ r.1).1 ++ rest)
      × (typ ≡ r.0)
      × (d ≡ record c { input = rest; in_state = (seal crypto c.in_state typ r.1).0 })

  given_good :
      (c d1 d : Conn) (typ : ℕ) (b plain rest : List ℕ) (r : ℕ × List ℕ)
      → c.input ≡ b ++ rest
      → open_record crypto typ b (record c { input = rest }) ≡ (d1, good plain)
      → give (typ, plain) d1 ≡ (d, good r)
      → Opened c d typ r
  given_good c d1 d typ b plain rest r split opened given =
      let (same, named) = good_parts d1 d (typ, plain) r given in
      let content : plain ≡ r.1 = ap (λ (p : ℕ × List ℕ). p.1) named in
      let (sealed, after) =
        open_record_good crypto typ b plain (record c { input = rest }) d1 opened in
      (
        rest,
        split ∙ rw (sealed, content),
        ap (λ (p : ℕ × List ℕ). p.0) named,
        sym same ∙ after ∙ rw content,
      )

  read_content_good :
      (n typ : ℕ) (c d : Conn) (r : ℕ × List ℕ)
      → read_content crypto typ n c ≡ (d, good r)
      → Opened c d typ r
  unfolding read_content
  read_content_good n typ c d r h =
      let (c1, b, got, h1) = and_then-good (read_bytes n c) _ h in
      let (rest, split, long, after) = read_bytes_good n c c1 b got in
      let h2 : and_then (open_record crypto typ b (record c { input = rest }))
            (λ content. give (typ, content))
          ≡ (d, good r) =
        rw after at h1 in
      let (d1, plain, opened, given) =
        and_then-good (open_record crypto typ b (record c { input = rest })) _ h2 in
      given_good c d1 d typ b plain rest r split opened given

  after_header_good :
      (header : List ℕ) (c d : Conn) (r : ℕ × List ℕ)
      → read_after_header crypto header c ≡ (d, good r)
      → Opened (record c { first_record = false }) d (get_or header 0 0) r
  unfolding read_after_header
  after_header_good header c d r h =
      let typ = get_or header 0 0 in
      let n = uint16 (get_or header 3 0) (get_or header 4 0) in
      let (c1, u, versioned, h1) =
        and_then-good (accept_version typ (uint16 (get_or header 1 0) (get_or header 2 0)) c) _ h in
      let (c2, u2, fits, h2) =
        and_then-good (require (leb n max_record) oversized_record c1) _ h1 in
      let (small, same) = require-good (leb n max_record) oversized_record c1 fits in
      let after : c2 ≡ record c { first_record = false } =
        sym same ∙ accept_version_good typ _ c c1 u versioned in
      let h3 : read_content crypto typ n (record c { first_record = false }) ≡ (d, good r) =
        rw after at h2 in
      read_content_good n typ (record c { first_record = false }) d r h3

  abbrev pub Accepted : Conn → Conn → ℕ → List ℕ → Type 0
  Accepted c d typ plain =
      (header rest : List ℕ) × (length header ≡ 5)
      × (get_or header 0 0 ≡ typ)
      × (c.input ≡ header ++ ((seal crypto c.in_state typ plain).1 ++ rest))
      × (d ≡ record c {
        input = rest;
        first_record = false;
        in_state = (seal crypto c.in_state typ plain).0;
      })

  -- A record that `readRecord` accepts is its header of five bytes, of which the first is the type,
  -- and then the very bytes that sealing the content with the reader's own cipher gives: no others
  -- are taken for this content. The cipher moves on as the sender's does, the input loses exactly the
  -- record, and nothing else of the connection changes but `firstRecord`.
  pub read_record-Accepted :
      (c d : Conn) (typ : ℕ) (plain : List ℕ)
      → read_record crypto c ≡ (d, good (typ, plain))
      → Accepted c d typ plain
  unfolding read_record
  read_record-Accepted c d typ plain h =
      let (c1, header, got, h1) = and_then-good (read_bytes 5 c) _ h in
      let (behind, split, long, after) = read_bytes_good 5 c c1 header got in
      let h2 : read_after_header crypto header (record c { input = behind })
          ≡ (d, good (typ, plain)) =
        rw after at h1 in
      let (rest, sealed, named, moved) =
        after_header_good header (record c { input = behind }) d (typ, plain) h2 in
      let seal_as = λ (t : ℕ). seal crypto c.in_state t plain in
      (
        header,
        rest,
        long,
        named,
        split
            ∙ ap (λ (l : List ℕ). header ++ l) sealed
            ∙ ap (λ (t : ℕ). header ++ ((seal_as t).1 ++ rest)) named,
        moved
            ∙ ap
                (λ (t : ℕ). record c {
                  input = rest;
                  first_record = false;
                  in_state = (seal_as t).0;
                })
                named,
      )
