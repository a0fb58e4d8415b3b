-- ===== src/Control/DeviceAuth/Keys.antt =====
-- gemacast-core/src/control/device_auth.rs: the pairing code, the device's public key and the
-- signature. The libraries for encodings, hashes, signatures and randomness are parameters.
use gemacast.Prelude.{
  ℕ, ◌+◌, ◌/◌, ◌%◌, List, [], ◌∷◌, ◌++◌, Option, none, some, Bool, false, not, ◌||◌, ◌==◌,
  if◌then◌else◌, length, take, Result, ok, err, ◌>>=◌,
}
use gemacast.Prelude.Bytes.{from_be_bytes}
use gemacast.Prelude.Assoc.{Text}

-- `base64`, `hex`, `sha2` and `ring`: the key, the transcript and the signature are bytes.
pub record Crypto : Type 0 where
  pub base64_decode : Text → Option (List ℕ)
  pub base64_encode : List ℕ → Text
  pub hex_encode : List ℕ → Text
  pub sha256 : List ℕ → List ℕ
  pub ecdsa_verify : List ℕ → List ℕ → List ℕ → Bool

pub data KeyError : Type 0 where
  key_not_base64 key_not_uncompressed signature_not_base64 verification_failed rng_failed : KeyError

-- "gemacast-pairing-code-v1"
abbrev pub pairing_code_domain : Text
pairing_code_domain =
    103 ∷ 101 ∷ 109 ∷ 97 ∷ 99 ∷ 97 ∷ 115 ∷ 116 ∷ 45 ∷ 112 ∷ 97 ∷ 105 ∷ 114 ∷ 105 ∷ 110 ∷ 103 ∷ 45
    ∷ 99 ∷ 111 ∷ 100 ∷ 101 ∷ 45 ∷ 118 ∷ 49 ∷ []

-- `format!("{value:06}")` of a value below a million.
abbrev pub six_digits : ℕ → Text
six_digits v =
    (48 + v / 100_000 % 10)
    ∷ (48 + v / 10_000 % 10)
    ∷ (48 + v / 1_000 % 10)
    ∷ (48 + v / 100 % 10)
    ∷ (48 + v / 10 % 10)
    ∷ (48 + v % 10)
    ∷ []

abbrev pub starts_with : ℕ → List ℕ → Bool
starts_with b [] = false
starts_with b (x ∷ xs) = x == b

abbrev pub or_else {ℓ} : {A : Type ℓ} → KeyError → Option A → Result KeyError A
or_else e none = err e
or_else e (some a) = ok a

module _ (c : Crypto) where
  abbrev pub pairing_code : List ℕ → Text
  pairing_code transcript =
      let digest = c.sha256 (pairing_code_domain ++ transcript) in
      six_digits (from_be_bytes (take 4 digest) % 1_000_000)

  abbrev pub uncompressed : List ℕ → Result KeyError (List ℕ)
  uncompressed key =
      if not (length key == 65) || not (starts_with 4 key) then err key_not_uncompressed else ok key

  abbrev pub decode_device_public_key : Text → Result KeyError (List ℕ)
  decode_device_public_key public_key =
      or_else key_not_base64 (c.base64_decode public_key) >>= λ key. uncompressed key

  abbrev pub signature_verifies : List ℕ → List ℕ → List ℕ → Result KeyError (Unit {0})
  signature_verifies key transcript signature =
      if c.ecdsa_verify key transcript signature then ok tt else err verification_failed

  abbrev pub verify_device_auth_signature : Text → Text → List ℕ → Result KeyError (Unit {0})
  verify_device_auth_signature public_key signature transcript =
      decode_device_public_key public_key >>= λ key.
      or_else signature_not_base64 (c.base64_decode signature) >>= λ s.
      signature_verifies key transcript s

  abbrev pub validate_device_public_key : Text → Result KeyError (Unit {0})
  validate_device_public_key public_key = decode_device_public_key public_key >>= λ key. ok tt

  abbrev pub sha256_fingerprint : List ℕ → Text
  sha256_fingerprint bytes = c.hex_encode (c.sha256 bytes)

  abbrev pub device_public_key_fingerprint : Text → Result KeyError Text
  device_public_key_fingerprint public_key =
      decode_device_public_key public_key >>= λ key. ok (sha256_fingerprint key)

  -- The bytes are those that `getrandom` gives.
  abbrev pub random_auth_value : Option (List ℕ) → Result KeyError Text
  random_auth_value bytes = or_else rng_failed bytes >>= λ b. ok (c.base64_encode b)
