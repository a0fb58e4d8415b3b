-- ===== src/Pc/DeviceAuth/Verify.antt =====
-- A `verify` that accepts, after any calls.
use gemacast.Prelude.{
  ℕ, ◌-◌, ◌≤◌, ◌≡◌, refl, List, Option, none, some, Bool, true, false, arith, Result, ok, ap, ◌∙◌,
  sym, subst, length, Option-cases, Bool-cases, inl, inr,
}
use gemacast.Prelude.Assoc.{text_Eq, Text, text_eq_iff, lookup, kept, lookup-retain}
use gemacast.Control.DeviceAuth.{build_device_auth_transcript}
use gemacast.Control.DeviceAuth.Keys.{Crypto}
use gemacast.Pc.DeviceAuth.{
  DeviceAuthManager, PendingChallenge, VerifiedDeviceIdentity, DeviceAuthRequest, DeviceAuthError,
  lives, prune_expired, signed, new,
}
use gemacast.Pc.DeviceAuth.Challenges.{
  verify, verify_given, verify_found, verified, asked, mismatches,
}
use gemacast.Pc.DeviceAuth.Invariant.{WellFormed, verify-verify_given, new-WellFormed, asked-signed}
use gemacast.Pc.DeviceAuth.Run.{Move, run, run-WellFormed}

-- The signature holds over the transcript, by the key that is shown.
pub record Signs (c : Crypto) (public_key signature : Text) (transcript : Option (List ℕ))
    : Type 0 where
  pub message : List ℕ
  pub built : transcript ≡ some message
  pub key : List ℕ
  pub key_decoded : c.base64_decode public_key ≡ some key
  pub key_length : length key ≡ 65
  pub signature_bytes : List ℕ
  pub signature_decoded : c.base64_decode signature ≡ some signature_bytes
  pub holds : c.ecdsa_verify key message signature_bytes ≡ true

module _ (c : Crypto) where
  verified-Signs :
      (public_key signature : Text) (transcript : Option (List ℕ))
      (identity : VerifiedDeviceIdentity)
      → verified c public_key signature transcript ≡ some (ok identity)
      → Signs c public_key signature transcript × (identity.public_key ≡ public_key)
  verified-Signs k s none identity e = absurd (ground arith)
  verified-Signs k s (some t) identity e = elim (Option-cases (c.base64_decode k)) [
    | inl n ↦ absurd (ground (arith, n))
    | inr (key, kd) ↦ elim (Option-cases (c.base64_decode s)) [
      | inl n ↦ absurd (ground (arith, n))
      | inr (bytes, sd) ↦ (
        record {
          message = t;
          built = refl;
          key = key;
          key_decoded = kd;
          key_length = ground arith;
          signature_bytes = bytes;
          signature_decoded = sd;
          holds = ground arith;
        },
        ground (arith, ap (λ (i : VerifiedDeviceIdentity). i.public_key)),
      )
    ]
  ]

-- The challenge that a request answers: the manager holds it, it was begun for this device, computer,
-- certificate, key and nonce, and it has not lived longer than a challenge may.
pub record Answers (c : Crypto) (m : DeviceAuthManager) (device pc fingerprint : Text)
    (auth : DeviceAuthRequest) (later : ℕ) : Type 0 where
  pub id : Text
  pub id_given : auth.challenge_id ≡ some id
  pub signature : Text
  pub signature_given : auth.signature ≡ some signature
  pub challenge : PendingChallenge
  pub held : lookup id m.challenges ≡ some challenge
  pub device_is : challenge.device_id ≡ device
  pub pc_is : challenge.pc_id ≡ pc
  pub fingerprint_is : challenge.pc_certificate_fingerprint ≡ fingerprint
  pub key_is : challenge.public_key ≡ auth.public_key
  pub nonce_is : challenge.phone_nonce ≡ auth.phone_nonce
  pub fresh : later - challenge.created_at ≤ m.ttl
  pub signs : Signs c auth.public_key signature (build_device_auth_transcript (signed id challenge))

kept-some :
    (keep : Text → PendingChallenge → Bool) (id : Text) (o : Option PendingChallenge)
    (p : PendingChallenge)
    → kept keep id o ≡ some p
    → o ≡ some p
kept-some keep id none p e = absurd (ground arith)
kept-some keep id (some q) p e = elim (Bool-cases (keep id q)) [
  | inl t ↦ rw t at e
  | inr n ↦ absurd (ground (arith, n))
]

module _ (c : Crypto) where
  verify_found-Answers :
      (m : DeviceAuthManager) (device pc fingerprint : Text) (auth : DeviceAuthRequest)
      (id signature : Text) (later : ℕ) (o : Option PendingChallenge)
      (identity : VerifiedDeviceIdentity)
      → auth.challenge_id ≡ some id
      → auth.signature ≡ some signature
      → ((p : PendingChallenge) → o ≡ some p → lookup id m.challenges ≡ some p)
      → verify_found c m.ttl device pc fingerprint auth id signature later o ≡ some (ok identity)
      → Answers c m device pc fingerprint auth later × (identity.public_key ≡ auth.public_key)
  verify_found-Answers m device pc fingerprint auth id s later none identity ei es h e =
      absurd (ground arith)
  verify_found-Answers m device pc fingerprint auth id s later (some p) identity ei es h e =
      let same : mismatches p device pc fingerprint auth ≡ false = ground arith in
      let (signs, key) =
        verified-Signs c auth.public_key s
          (build_device_auth_transcript (asked device pc fingerprint auth id p.challenge)) identity
          (ground arith) in
      (
        record {
          id = id;
          id_given = ei;
          signature = s;
          signature_given = es;
          challenge = p;
          held = h p refl;
          device_is = ground (arith, text_eq_iff p.device_id device);
          pc_is = ground (arith, text_eq_iff p.pc_id pc);
          fingerprint_is = ground (arith, text_eq_iff p.pc_certificate_fingerprint fingerprint);
          key_is = ground (arith, text_eq_iff p.public_key auth.public_key);
          nonce_is = ground (arith, text_eq_iff p.phone_nonce auth.phone_nonce);
          fresh = ground arith;
          signs =
              subst (λ t. Signs c auth.public_key s (build_device_auth_transcript t))
                (asked-signed p device pc fingerprint auth id same) signs;
        },
        key,
      )

  verify_given-Answers :
      (m : DeviceAuthManager) (device pc fingerprint : Text) (auth : DeviceAuthRequest)
      (i s : Option Text) (now later : ℕ) (identity : VerifiedDeviceIdentity)
      → WellFormed m
      → auth.challenge_id ≡ i
      → auth.signature ≡ s
      → (verify_given c m device pc fingerprint auth i s now later).1 ≡ some (ok identity)
      → Answers c m device pc fingerprint auth later × (identity.public_key ≡ auth.public_key)
  unfolding prune_expired
  verify_given-Answers m device pc fingerprint auth none s now later identity w ei es e =
      absurd (ground arith)
  verify_given-Answers m device pc fingerprint auth (some i) none now later identity w ei es e =
      absurd (ground arith)
  verify_given-Answers m device pc fingerprint auth (some i) (some s) now later identity w ei es e =
      verify_found-Answers m device pc fingerprint auth i s later
        (lookup i (prune_expired m now).challenges) identity ei es
        (λ p f.
          kept-some (lives m.ttl now) i (lookup i m.challenges) p
            (sym (lookup-retain (lives m.ttl now) i m.challenges w.unique) ∙ f))
        (rw w.healthy at e)

  -- After any calls, `verify` accepts a request only if it carries the id of a pending challenge that
  -- was begun for this very device, computer, certificate, public key and nonce and has not
  -- expired, with a signature that holds, by that public key, over the transcript of the
  -- challenge; the identity that it returns has that public key.
  pub verify_sound :
      (moves : List Move) (device pc fingerprint : Text) (auth : DeviceAuthRequest) (now later : ℕ)
      (identity : VerifiedDeviceIdentity)
      → let m = run c new moves in
        (verify c m device pc fingerprint auth now later).1 ≡ some (ok identity)
        → Answers c m device pc fingerprint auth later × (identity.public_key ≡ auth.public_key)
  verify_sound moves device pc fingerprint auth now later identity e =
      let m = run c new moves in
      let w = run-WellFormed c new moves new-WellFormed in
      verify_given-Answers m device pc fingerprint auth auth.challenge_id auth.signature now later
        identity w refl refl
        (sym (
            ap
              (λ (r : DeviceAuthManager × Option (Result DeviceAuthError VerifiedDeviceIdentity)).
                r.1)
              (verify-verify_given c m device pc fingerprint auth now later w))
          ∙ e)
