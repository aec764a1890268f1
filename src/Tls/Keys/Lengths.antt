-- ===== src/Tls/Keys/Lengths.antt =====
-- The derivations give as many bytes as they are asked for.
use hp_server.Prelude.{
  ℕ, zero, suc, ◌+◌, ◌≤◌, ◌<◌, ◌≡◌, refl, ◌∙◌, Bool, List, [], ◌∷◌, ◌++◌, length, length-append,
  length-take, arith, bytes_of, if◌then◌else◌, ◌==◌, Bool-cases, inl, inr,
}
use hp_server.Tls.{Hash, md5, sha1, hash_size, Crypto, tls10}
use hp_server.Tls.Keys.{
  xor_bytes, p_hash_loop, p_hash, prf, ssl3_round, ssl3_loop, ssl3_generate, ssl3_finished_hash,
  finished_verify, master_secret, expand_keys, handshake_hash,
}

hash_size_pos : (h : Hash) → 0 < hash_size h
hash_size_pos md5 = omega arith
hash_size_pos sha1 = omega arith

length-xor_bytes : (xs ys : List ℕ) → length (xor_bytes xs ys) ≡ length xs
unfolding xor_bytes
length-xor_bytes [] ys = refl
length-xor_bytes (x ∷ xs) [] = refl
length-xor_bytes (x ∷ xs) (y ∷ ys) = omega (arith, length-xor_bytes xs ys)

module _ (crypto : Crypto) where
  open crypto use {digest, hmac, digest_size, hmac_size}

  -- Each round adds a byte at least.
  p_hash_loop_enough :
      (fuel : ℕ) (h : Hash) (secret seed : List ℕ) (n : ℕ) (a out : List ℕ)
      → n ≤ fuel + length out
      → n ≤ length (p_hash_loop crypto fuel h secret seed n a out)
  unfolding p_hash_loop
  p_hash_loop_enough zero h secret seed n a out enough = omega arith
  p_hash_loop_enough (suc fuel) h secret seed n a out enough =
      let a' = hmac h secret a in
      let block = hmac h secret (a' ++ seed) in
      ground (
        arith,
        hash_size_pos h,
        hmac_size h secret (a' ++ seed),
        length-append out block,
        p_hash_loop_enough fuel h secret seed n a' (out ++ block),
      )

  length-p_hash :
      (h : Hash) (secret seed : List ℕ) (n : ℕ) → length (p_hash crypto h secret seed n) ≡ n
  unfolding p_hash
  length-p_hash h secret seed n = omega (
    arith,
    length-take n (p_hash_loop crypto n h secret seed n seed []),
    p_hash_loop_enough n h secret seed n seed [] (omega arith),
  )

  length-ssl3_round :
      (secret randoms : List ℕ) (i : ℕ) → length (ssl3_round crypto secret randoms i) ≡ 16
  unfolding ssl3_round
  length-ssl3_round secret randoms i = digest_size md5 _

  ssl3_loop_enough :
      (fuel : ℕ) (secret randoms : List ℕ) (n i : ℕ) (out : List ℕ)
      → n ≤ fuel + length out
      → n ≤ length (ssl3_loop crypto fuel secret randoms n i out)
  unfolding ssl3_loop
  ssl3_loop_enough zero secret randoms n i out enough = omega arith
  ssl3_loop_enough (suc fuel) secret randoms n i out enough =
      let block = ssl3_round crypto secret randoms i in
      ground (
        arith,
        length-ssl3_round secret randoms i,
        length-append out block,
        ssl3_loop_enough fuel secret randoms n (i + 1) (out ++ block),
      )

  length-prf : (secret label seed : List ℕ) (n : ℕ) → length (prf crypto secret label seed n) ≡ n
  unfolding prf
  length-prf secret label seed n = length-xor_bytes _ _ ∙ length-p_hash md5 _ (label ++ seed) n

  length-ssl3_generate :
      (secret randoms : List ℕ) (n : ℕ) → length (ssl3_generate crypto secret randoms n) ≡ n
  unfolding ssl3_generate
  length-ssl3_generate secret randoms n = omega (
    arith,
    length-take n (ssl3_loop crypto n secret randoms n 1 []),
    ssl3_loop_enough n secret randoms n 1 [] (omega arith),
  )

  pub length-expand_keys :
      (version : ℕ) (master client server : List ℕ) (n : ℕ)
      → length (expand_keys crypto version master client server n) ≡ n
  unfolding expand_keys
  length-expand_keys version master client server n = ground (
    arith,
    length-prf master (bytes_of "key expansion") (server ++ client) n,
    length-ssl3_generate master (server ++ client) n,
  )

  length-ssl3_finished_hash :
      (h : Hash) (pad : ℕ) (master transcript sender : List ℕ)
      → length (ssl3_finished_hash crypto h pad master transcript sender) ≡ hash_size h
  unfolding ssl3_finished_hash
  length-ssl3_finished_hash h pad master transcript sender = digest_size h _

  pub length-master_secret :
      (version : ℕ) (premaster client server : List ℕ)
      → length (master_secret crypto version premaster client server) ≡ 48
  unfolding master_secret
  length-master_secret version premaster client server = ground (
    arith,
    length-prf premaster (bytes_of "master secret") (client ++ server) 48,
    length-ssl3_generate premaster (client ++ server) 48,
  )

  pub length-finished_verify :
      (version : ℕ) (master transcript : List ℕ) (client : Bool)
      → length (finished_verify crypto version master transcript client)
        ≡ (if version == tls10 then 12 else 36)
  unfolding finished_verify
  length-finished_verify version master transcript client = elim (Bool-cases (version == tls10)) [
    | inl new ↦ rw new (length-prf master _ (handshake_hash crypto transcript) 12)
    | inr old ↦ rw old (
        length-append (ssl3_finished_hash crypto md5 48 master transcript _) _
        ∙ omega (
          arith,
          length-ssl3_finished_hash md5 48 master transcript
              (if client then bytes_of "CLNT" else bytes_of "SRVR"),
          length-ssl3_finished_hash sha1 40 master transcript
              (if client then bytes_of "CLNT" else bytes_of "SRVR"),
        ))
  ]
