-- ===== src/Tls/Keys.antt =====
-- The key derivations of legacytls/conn.go: the TLS 1.0 and SSL 3.0 forms of the master secret, the
-- key block and the Finished message.
pub mod Lengths
use hp_server.Prelude.{
  ℕ, zero, suc, ◌+◌, ◌-◌, ◌/◌, ◌%◌, Bool, List, [], ◌∷◌, ◌++◌, ltb, ◌==◌, bit_xor, length, take,
  drop, replicate, if◌then◌else◌, bytes_of,
}
use hp_server.Tls.{Hash, md5, sha1, Crypto, tls10}

-- `for i := range a { a[i] ^= b[i] }`, for a `b` that is as long.
unfoldable pub xor_bytes : List ℕ → List ℕ → List ℕ
xor_bytes [] bs = []
xor_bytes (a ∷ as') [] = a ∷ as'
xor_bytes (a ∷ as') (b ∷ bs) = bit_xor a b ∷ xor_bytes as' bs

module _ (crypto : Crypto) where
  open crypto use {digest, hmac}

  -- One round of `pHash` has the next `a` and the bytes it appends. A digest is never empty, so `n`
  -- rounds are enough fuel for `n` bytes.
  unfoldable pub p_hash_loop : ℕ → Hash → List ℕ → List ℕ → ℕ → List ℕ → List ℕ → List ℕ
  p_hash_loop zero h secret seed n a out = out
  p_hash_loop (suc fuel) h secret seed n a out =
      let a' = hmac h secret a in
      let rest = p_hash_loop fuel h secret seed n a' (out ++ hmac h secret (a' ++ seed)) in
      if ltb (length out) n then rest else out

  unfoldable pub p_hash : Hash → List ℕ → List ℕ → ℕ → List ℕ
  p_hash h secret seed n = take n (p_hash_loop n h secret seed n seed [])

  unfoldable pub prf : List ℕ → List ℕ → List ℕ → ℕ → List ℕ
  prf secret label seed n =
      let full = label ++ seed in
      let half = (length secret + 1) / 2 in
      xor_bytes (p_hash md5 (take half secret) full n)
        (p_hash sha1 (drop (length secret - half) secret) full n)

  -- `letter` is `byte('A' + i - 1)`.
  unfoldable pub ssl3_round : List ℕ → List ℕ → ℕ → List ℕ
  ssl3_round secret randoms i =
      let letter = (64 + i) % 256 in
      digest md5 (secret ++ digest sha1 (replicate i letter ++ (secret ++ randoms)))

  unfoldable pub ssl3_loop : ℕ → List ℕ → List ℕ → ℕ → ℕ → List ℕ → List ℕ
  ssl3_loop zero secret randoms n i out = out
  ssl3_loop (suc fuel) secret randoms n i out =
      let rest = ssl3_loop fuel secret randoms n (i + 1) (out ++ ssl3_round secret randoms i) in
      if ltb (length out) n then rest else out

  unfoldable pub ssl3_generate : List ℕ → List ℕ → ℕ → List ℕ
  ssl3_generate secret randoms n = take n (ssl3_loop n secret randoms n 1 [])

  unfoldable pub master_secret : ℕ → List ℕ → List ℕ → List ℕ → List ℕ
  master_secret version premaster client_random server_random =
      if version == tls10
      then prf premaster (bytes_of "master secret") (client_random ++ server_random) 48
      else ssl3_generate premaster (client_random ++ server_random) 48

  unfoldable pub expand_keys : ℕ → List ℕ → List ℕ → List ℕ → ℕ → List ℕ
  expand_keys version master client_random server_random n =
      if version == tls10
      then prf master (bytes_of "key expansion") (server_random ++ client_random) n
      else ssl3_generate master (server_random ++ client_random) n

  unfoldable pub handshake_hash : List ℕ → List ℕ
  handshake_hash b = digest md5 b ++ digest sha1 b

  unfoldable pub ssl3_finished_hash : Hash → ℕ → List ℕ → List ℕ → List ℕ → List ℕ
  ssl3_finished_hash h pad_len master transcript sender =
      let inner = digest h (transcript ++ (sender ++ (master ++ replicate pad_len 0x36))) in
      digest h (master ++ (replicate pad_len 0x5c ++ inner))

  unfoldable pub finished_verify : ℕ → List ℕ → List ℕ → Bool → List ℕ
  finished_verify version master transcript client =
      let label = if client then bytes_of "client finished" else bytes_of "server finished" in
      let sender = if client then bytes_of "CLNT" else bytes_of "SRVR" in
      if version == tls10
      then prf master label (handshake_hash transcript) 12
      else ssl3_finished_hash md5 48 master transcript sender
        ++ ssl3_finished_hash sha1 40 master transcript sender
