-- ===== src/Tls.antt =====
-- legacytls/types.go, and the package's libraries as parameters: the constants, the connection with
-- what it meets on the wire, and the errors that its calls return.
pub mod Message
pub mod Keys
pub mod Record
pub mod Hello
pub mod Handshake
pub mod Io
mod Tests
use hp_server.Prelude.{ℕ, ◌≡◌, refl, ap, Bool, true, false, Option, none, List, [], length}
use hp_server.Stream.{StreamError, Answer}

abbrev pub record_change_cipher_spec : ℕ
record_change_cipher_spec = 20

abbrev pub record_alert : ℕ
record_alert = 21

abbrev pub record_handshake : ℕ
record_handshake = 22

abbrev pub record_application_data : ℕ
record_application_data = 23

abbrev pub ssl30 : ℕ
ssl30 = 0x0300

abbrev pub tls10 : ℕ
tls10 = 0x0301

abbrev pub suite_rc4_md5 : ℕ
suite_rc4_md5 = 0x0004

abbrev pub suite_rc4_sha : ℕ
suite_rc4_sha = 0x0005

-- `md5.New` and `sha1.New`.
pub data Hash : Type 0 where
  md5 sha1 : Hash

-- `Size()`.
abbrev pub hash_size : Hash → ℕ
hash_size md5 = 16
hash_size sha1 = 20

-- The language's crypto library: the digests and their HMAC, the bytes of an RC4 key's stream by
-- their position, and `rsa.DecryptPKCS1v15`, `none` where it fails. A private key is named by a
-- number. What is documented of them is the size of a digest.
pub record Crypto : Type 0 where
  pub digest : Hash → List ℕ → List ℕ
  pub hmac : Hash → List ℕ → List ℕ → List ℕ
  pub key_stream : List ℕ → ℕ → ℕ
  pub decrypt : ℕ → List ℕ → Option (List ℕ)
  pub digest_size : (h : Hash) (text : List ℕ) → length (digest h text) ≡ hash_size h
  pub hmac_size : (h : Hash) (key text : List ℕ) → length (hmac h key text) ≡ hash_size h

-- `certificate` holds the DER bytes of the chain, the server's own first.
pub record Config : Type 0 where
  pub certificate : List (List ℕ)
  pub private_key : Option ℕ

-- The `rc4.Cipher` is its key and the number of bytes it has gone through. `seq` is a uint64.
pub record CipherState : Type 0 where
  pub active : Bool
  pub key : List ℕ
  pub position : ℕ
  pub mac_key : List ℕ
  pub new_hash : Hash
  pub seq : ℕ
  pub version : ℕ

abbrev pub no_cipher : CipherState
no_cipher = record {
  active = false;
  key = [];
  position = 0;
  mac_key = [];
  new_hash = md5;
  seq = 0;
  version = 0;
}

-- What goes wrong, without the text that the code puts in front.
pub data TlsError : Type 0 where
  stream : StreamError → TlsError
  unsupported_record_version unsupported_hello_version : ℕ → TlsError
  expected_client_hello unexpected_record : ℕ → TlsError
  peer_alert : List ℕ → TlsError
  oversized_record short_encrypted_record bad_record_mac : TlsError
  key_required malformed_client_hello short_client_hello malformed_session_id : TlsError
  malformed_cipher_suites no_common_suite : TlsError
  expected_key_exchange malformed_key_exchange premaster_failed : TlsError
  expected_change_cipher_spec expected_finished malformed_finished finished_failed : TlsError

pub data Outcome {ℓ} (A : Type ℓ) : Type ℓ where
  good : A → Outcome A
  refused : TlsError → Outcome A

-- `Conn`. `in` and `out` are `in_state` and `out_state`; `handshaken` is `once` with `hsErr`, `none`
-- before the handshake ran. The last five are what the connection meets: the bytes that the peer
-- sends before it closes, the answers of the writer, what went out, the clock, and the bytes that
-- `rand.Reader` gives.
pub record Conn : Type 0 where
  pub config : Option Config
  pub handshaken : Option (Outcome (Unit {0}))
  pub in_state : CipherState
  pub out_state : CipherState
  pub read_buf : List ℕ
  pub first_record : Bool
  pub version : ℕ
  pub input : List ℕ
  pub answers : List Answer
  pub output : List ℕ
  pub unix_time : ℕ
  pub random : List ℕ

-- A call on the connection: the connection after it, also where it failed.
abbrev pub M {ℓ} : Type ℓ → Type ℓ
M A = Conn → Conn × Outcome A

abbrev pub and_then {ℓ κ} :
    {A : Type ℓ} {B : Type κ} → Conn × Outcome A → (A → M B) → Conn × Outcome B
and_then (c, good a) f = f a c
and_then (c, refused e) f = (c, refused e)

infixl 5 ◌>>=◌ ◌>>◌
abbrev pub ◌>>=◌ {ℓ κ} : {A : Type ℓ} {B : Type κ} → M A → (A → M B) → M B
◌>>=◌ m f c = and_then (m c) f

abbrev pub ◌>>◌ {ℓ} : {B : Type ℓ} → M (Unit {0}) → M B → M B
◌>>◌ m k c = and_then (m c) (λ _. k)

abbrev pub give {ℓ} : {A : Type ℓ} → A → M A
give a c = (c, good a)

abbrev pub refuse {ℓ} : {A : Type ℓ} → TlsError → M A
refuse e c = (c, refused e)

-- `if !test { return errors.New(…) }`.
abbrev pub require : Bool → TlsError → M (Unit {0})
require true e c = (c, good tt)
require false e c = (c, refused e)

-- `Server`, on a connection as it is met.
abbrev pub server : Option Config → List ℕ → List Answer → ℕ → List ℕ → Conn
server config input answers unix_time random = record {
  config = config;
  handshaken = none;
  in_state = no_cipher;
  out_state = no_cipher;
  read_buf = [];
  first_record = true;
  version = tls10;
  input = input;
  answers = answers;
  output = [];
  unix_time = unix_time;
  random = random;
}

-- A call that succeeded had every part succeed.
pub and_then-good {ℓ κ} :
    {A : Type ℓ} {B : Type κ} (p : Conn × Outcome A) (f : A → M B) {c : Conn} {b : B}
    → and_then p f ≡ (c, good b)
    → (d : Conn) × (a : A) × (p ≡ (d, good a)) × (f a d ≡ (c, good b))
and_then-good (d, good a) f h = (d, a, refl, h)
and_then-good (d, refused e) f h = absurd (cc)

pub require-good :
    (test : Bool) (e : TlsError) (c : Conn) {d : Conn} {u : Unit {0}}
    → require test e c ≡ (d, good u)
    → (test ≡ true) × (c ≡ d)
require-good true e c h = (refl, ap (λ (p : Conn × Outcome (Unit {0})). p.0) h)
require-good false e c h = absurd (cc)

good_injective {ℓ} : {A : Type ℓ} {a b : A} → good a ≡ good b → a ≡ b
good_injective {A} {a} {b} h = ap (value a) h
  where
    value : A → Outcome A → A
    value d (good x) = x
    value d (refused e) = d

pub good_parts {ℓ κ} :
    {S : Type ℓ} {A : Type κ} (s t : S) (a b : A)
    → ◌≡◌ {A = S × Outcome A} (s, good a) (t, good b)
    → (s ≡ t) × (a ≡ b)
good_parts {S} {A} s t a b h =
    (ap (λ (p : S × Outcome A). p.0) h, good_injective (ap (λ (p : S × Outcome A). p.1) h))

pub refused-ne-good {ℓ κ} :
    {S : Type ℓ} {A : Type κ} (s t : S) (e : TlsError) (b : A)
    → ◌≡◌ {A = S × Outcome A} (s, refused e) (t, good b)
    → ⊥
refused-ne-good {S} {A} s t e b h =
    let no : refused e ≡ good b = ap (λ (p : S × Outcome A). p.1) h in cc
