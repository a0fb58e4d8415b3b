-- ===== src/Pc/DeviceAuth/Challenges.antt =====
-- `begin` and `verify` of gemacast-pc/src/device_auth.rs.
use gemacast.Prelude.{
  ℕ, ◌-◌, ◌/◌, List, Option, none, some, Bool, true, not, ◌||◌, ltb, leb, ◌==◌, if◌then◌else◌,
  length, Result, ok, err, ◌>>=◌,
}
use gemacast.Prelude.Assoc.{text_Eq, Text, text_eq, lookup, insert, remove}
use gemacast.Control.DeviceAuth.{Challenge, build_device_auth_transcript}
use gemacast.Control.DeviceAuth.Keys.{
  Crypto, pairing_code, verify_device_auth_signature, validate_device_public_key,
  device_public_key_fingerprint, random_auth_value,
}
use gemacast.Pc.DeviceAuth.{
  DeviceAuthManager, PendingChallenge, VerifiedDeviceIdentity, DeviceAuthRequest,
  DeviceAuthChallenge, DeviceAuthError, nonce_not_base64, nonce_length, unavailable, too_many,
  challenge_missing, signature_missing, invalid_or_used, expired, mismatched,
  max_pending_challenges, lift, with_challenges, prune_expired, signed,
}

abbrev pub mismatches : PendingChallenge → Text → Text → Text → DeviceAuthRequest → Bool
mismatches p device_id pc_id fingerprint auth =
    not (text_eq p.device_id device_id)
    || not (text_eq p.pc_id pc_id)
    || not (text_eq p.pc_certificate_fingerprint fingerprint)
    || not (text_eq p.public_key auth.public_key)
    || not (text_eq p.phone_nonce auth.phone_nonce)

abbrev pub take_challenge : DeviceAuthManager → Text → DeviceAuthManager
take_challenge m id = with_challenges m (remove id m.challenges)

abbrev pub check_nonce : Option (List ℕ) → Result DeviceAuthError (Unit {0})
check_nonce none = err nonce_not_base64
check_nonce (some nonce) = if not (length nonce == 32) then err nonce_length else ok tt

-- What the device that asks should have signed.
abbrev pub asked : Text → Text → Text → DeviceAuthRequest → Text → Text → Challenge
asked device_id pc_id fingerprint auth id challenge = record {
  device_id = device_id;
  pc_id = pc_id;
  pc_certificate_fingerprint = fingerprint;
  public_key = auth.public_key;
  phone_nonce = auth.phone_nonce;
  challenge_id = id;
  challenge = challenge;
}

-- A panic with the lock held poisons it.
abbrev pub settle :
    DeviceAuthManager × Option (Result DeviceAuthError VerifiedDeviceIdentity)
    → DeviceAuthManager × Option (Result DeviceAuthError VerifiedDeviceIdentity)
settle (m, none) = (record m { poisoned = true }, none)
settle (m, some r) = (m, some r)

module _ (c : Crypto) where
  abbrev pub issued :
      DeviceAuthManager → Bool → Text → PendingChallenge → List ℕ → DeviceAuthChallenge
  issued m requires_approval id p transcript = record {
    challenge_id = id;
    challenge = p.challenge;
    pc_certificate_fingerprint = p.pc_certificate_fingerprint;
    pairing_code = pairing_code c transcript;
    requires_approval = requires_approval;
    expires_in_seconds = m.ttl / 1_000_000;
  }

  -- From the transcript on. The first failing `expect` is before the lock.
  abbrev pub begin_locked :
      DeviceAuthManager
      → Bool
      → Text
      → PendingChallenge
      → Option (List ℕ)
      → Option (DeviceAuthManager × Result DeviceAuthError DeviceAuthChallenge)
  begin_locked m requires_approval id p none = none
  begin_locked m requires_approval id p (some transcript) =
      if m.poisoned
      then some (m, err unavailable)
      else (let pruned = prune_expired m p.created_at in
          if leb max_pending_challenges (length pruned.challenges)
          then some (pruned, err too_many)
          else some (
            with_challenges pruned (insert id p pruned.challenges),
            ok (issued m requires_approval id p transcript),
          ))

  -- The id and the challenge that were drawn.
  abbrev pub draw : Option (List ℕ) → Option (List ℕ) → Result DeviceAuthError (Text × Text)
  draw id_bytes challenge_bytes = lift (random_auth_value c id_bytes) >>= λ id.
      lift (random_auth_value c challenge_bytes) >>= λ challenge. ok (id, challenge)

  -- What comes before the transcript.
  abbrev pub checked :
      Text → Text → Option (List ℕ) → Option (List ℕ) → Result DeviceAuthError (Text × Text)
  checked public_key phone_nonce id_bytes challenge_bytes =
      lift (validate_device_public_key c public_key) >>= λ _.
      check_nonce (c.base64_decode phone_nonce) >>= λ _. draw id_bytes challenge_bytes

  abbrev pub begin_checked :
      DeviceAuthManager
      → Bool
      → (Text → PendingChallenge)
      → Result DeviceAuthError (Text × Text)
      → Option (DeviceAuthManager × Result DeviceAuthError DeviceAuthChallenge)
  begin_checked m requires_approval p (err e) = some (m, err e)
  begin_checked m requires_approval p (ok (id, challenge)) =
      begin_locked m requires_approval id (p challenge)
        (build_device_auth_transcript (signed id (p challenge)))

  unfoldable pub begin :
      DeviceAuthManager
      → Text
      → Text
      → Text
      → Bool
      → Text
      → Text
      → Option (List ℕ)
      → Option (List ℕ)
      → ℕ
      → Option (DeviceAuthManager × Result DeviceAuthError DeviceAuthChallenge)
  begin m device_id pc_id fingerprint requires_approval public_key phone_nonce id_bytes
        challenge_bytes now =
      begin_checked m requires_approval
        (λ challenge. record {
          device_id = device_id;
          pc_id = pc_id;
          pc_certificate_fingerprint = fingerprint;
          public_key = public_key;
          phone_nonce = phone_nonce;
          challenge = challenge;
          created_at = now;
        })
        (checked public_key phone_nonce id_bytes challenge_bytes)

  -- The signature, the fingerprint and the pairing code.
  abbrev pub verified :
      Text → Text → Option (List ℕ) → Option (Result DeviceAuthError VerifiedDeviceIdentity)
  verified public_key signature none = none
  verified public_key signature (some transcript) = some (
      lift (verify_device_auth_signature c public_key signature transcript) >>= λ _.
      lift (device_public_key_fingerprint c public_key) >>= λ fingerprint. ok (record {
        public_key = public_key;
        fingerprint = fingerprint;
        pairing_code = pairing_code c transcript;
      }))

  abbrev pub verify_found :
      ℕ
      → Text
      → Text
      → Text
      → DeviceAuthRequest
      → Text
      → Text
      → ℕ
      → Option PendingChallenge
      → Option (Result DeviceAuthError VerifiedDeviceIdentity)
  verify_found ttl device_id pc_id fingerprint auth id signature later none =
      some (err invalid_or_used)
  verify_found ttl device_id pc_id fingerprint auth id signature later (some p) =
      if ltb ttl (later - p.created_at)
      then some (err expired)
      else if mismatches p device_id pc_id fingerprint auth
      then some (err mismatched)
      else verified auth.public_key signature
          (build_device_auth_transcript (asked device_id pc_id fingerprint auth id p.challenge))

  -- `later` is the time of the second look at the clock.
  abbrev pub verify_given :
      DeviceAuthManager
      → Text
      → Text
      → Text
      → DeviceAuthRequest
      → Option Text
      → Option Text
      → ℕ
      → ℕ
      → DeviceAuthManager × Option (Result DeviceAuthError VerifiedDeviceIdentity)
  verify_given m device_id pc_id fingerprint auth none signature now later =
      (m, some (err challenge_missing))
  verify_given m device_id pc_id fingerprint auth (some id) none now later =
      (m, some (err signature_missing))
  verify_given m device_id pc_id fingerprint auth (some id) (some signature) now later =
      if m.poisoned
      then (m, some (err unavailable))
      else (let pruned = prune_expired m now in
          (
            take_challenge pruned id,
            verify_found m.ttl device_id pc_id fingerprint auth id signature later
                (lookup id pruned.challenges),
          ))

  unfoldable pub verify :
      DeviceAuthManager
      → Text
      → Text
      → Text
      → DeviceAuthRequest
      → ℕ
      → ℕ
      → DeviceAuthManager × Option (Result DeviceAuthError VerifiedDeviceIdentity)
  verify m device_id pc_id fingerprint auth now later =
      settle
        (verify_given m device_id pc_id fingerprint auth auth.challenge_id auth.signature now later)
