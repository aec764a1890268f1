-- ===== src/Tls/Handshake/Sizes.antt =====
-- The sizes that the cipher and the MAC rely on.
use hp_server.Prelude.{
  ℕ, ◌+◌, ◌*◌, ◌≡◌, ◌∙◌, inl, inr, Bool, List, length, length-take, length-drop, drop, arith, ◌==◌,
  if◌then◌else◌,
}
use hp_server.Tls.{Hash, hash_size, Crypto, tls10}
use hp_server.Tls.Keys.{finished_verify}
use hp_server.Tls.Keys.Lengths.{length-expand_keys, length-finished_verify}
use hp_server.Tls.Handshake.{
  Keys, Agreed, cut_keys, make_cipher, derive_keys, suite_hash, finished_len,
}
use hp_server.Tls.Handshake.Greeting.{KnownVersion}

-- Keys of sixteen bytes, and MAC keys as long as the digest.
abbrev pub IsSized : Hash → Keys → Type 0
IsSized h keys =
    (length keys.client.key ≡ 16)
    × (length keys.server.key ≡ 16)
    × (length keys.client.mac_key ≡ hash_size h)
    × (length keys.server.mac_key ≡ hash_size h)

cut_keys-IsSized :
    (h : Hash) (version : ℕ) (block : List ℕ)
    → length block ≡ 2 * hash_size h + 32
    → IsSized h (cut_keys h version block)
unfolding cut_keys make_cipher
cut_keys-IsSized h version block long =
    let n = hash_size h in
    (
      omega (arith, length-take 16 (drop (2 * n) block), length-drop (2 * n) block),
      omega (arith, length-drop (2 * n + 16) block),
      omega (arith, length-take n block),
      omega (arith, length-take n (drop n block), length-drop n block),
    )

module _ (crypto : Crypto) where
  -- The key block is cut without a byte left over: both directions get an RC4 key of sixteen bytes
  -- and a MAC key as long as the suite's digest. And the Finished of either side is as long as the
  -- one that the server asks of the client, for the versions that a handshake can agree on.
  pub derive_keys-IsSized :
      (agreed : Agreed) (master transcript : List ℕ) (client : Bool)
      → KnownVersion agreed.version
      → IsSized (suite_hash agreed.hello.suite) (derive_keys crypto agreed master)
        × (length (finished_verify crypto agreed.version master transcript client)
            ≡ finished_len agreed.version)
  unfolding derive_keys
  derive_keys-IsSized agreed master transcript client known =
      let h = suite_hash agreed.hello.suite in
      let random = agreed.hello.client_random in
      (
        cut_keys-IsSized h agreed.version _ (
            length-expand_keys crypto agreed.version master random agreed.random
              (2 * hash_size h + 32)),
        length-finished_verify crypto agreed.version master transcript client
            ∙ same_len agreed.version known,
      )
    where
      same_len :
          (version : ℕ)
          → KnownVersion version
          → (if version == tls10 then 12 else 36) ≡ finished_len version
      same_len version (inl old) = rw old
      same_len version (inr new) = rw new
