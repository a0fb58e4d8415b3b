-- ===== src/Pc/DeviceAuth/Invariant.antt =====
-- The challenges that the manager holds: their ids, their transcripts and their number.
use gemacast.Prelude.{
  ℕ, ◌≤◌, ◌≡◌, refl, Option, none, some, Bool, true, false, arith, length, is_some, leb, ltb, sym,
  ◌-◌, if_elim, Result, ok, err, List, subst,
}
use gemacast.Prelude.Assoc.{
  text_Eq, Text, text_eq_iff, Unique, insert, insert-Unique, remove-Unique, retain-Unique,
}
use gemacast.Prelude.Entries.{
  Every, Every-lookup, Every-insert, Every-remove, Every-retain, length-insert, length-remove,
  length-retain,
}
use gemacast.Control.DeviceAuth.{build_device_auth_transcript}
use gemacast.Control.DeviceAuth.Keys.{Crypto}
use gemacast.Pc.DeviceAuth.{
  DeviceAuthManager, PendingChallenge, VerifiedDeviceIdentity, DeviceAuthRequest, DeviceAuthError,
  max_pending_challenges, prune_expired, signed, lives, new, with_challenges,
}
use gemacast.Pc.DeviceAuth.Challenges.{
  begin, begin_checked, begin_locked, verify, verify_given, verify_found, settle, take_challenge,
  mismatches, asked, verified, checked,
}

abbrev pub HasTranscript : Text → PendingChallenge → Type 0
HasTranscript id p = is_some (build_device_auth_transcript (signed id p)) ≡ true

pub record WellFormed (m : DeviceAuthManager) : Type 0 where
  pub healthy : m.poisoned ≡ false
  pub unique : Unique m.challenges
  pub unique_pairings : Unique m.pending_pairings
  pub signable : Every HasTranscript m.challenges
  pub bounded : length m.challenges ≤ max_pending_challenges

pub new-WellFormed : WellFormed new
new-WellFormed = record {
  healthy = refl;
  unique = tt;
  unique_pairings = tt;
  signable = tt;
  bounded = omega arith;
}

pub prune_expired-WellFormed :
    (m : DeviceAuthManager) (now : ℕ) → WellFormed m → WellFormed (prune_expired m now)
unfolding prune_expired
prune_expired-WellFormed m now w = record {
  healthy = w.healthy;
  unique = retain-Unique _ m.challenges w.unique;
  unique_pairings = retain-Unique _ m.pending_pairings w.unique_pairings;
  signable = Every-retain HasTranscript _ m.challenges w.signable;
  bounded = omega (arith, length-retain (lives m.ttl now) m.challenges, w.bounded);
}

take_challenge-WellFormed :
    (m : DeviceAuthManager) (id : Text) → WellFormed m → WellFormed (take_challenge m id)
take_challenge-WellFormed m id w = record {
  healthy = w.healthy;
  unique_pairings = w.unique_pairings;
  unique = remove-Unique id m.challenges w.unique;
  signable = Every-remove HasTranscript id m.challenges w.signable;
  bounded = omega (arith, length-remove id m.challenges, w.bounded);
}

insert-WellFormed :
    (m : DeviceAuthManager) (id : Text) (p : PendingChallenge)
    → WellFormed m
    → HasTranscript id p
    → leb max_pending_challenges (length m.challenges) ≡ false
    → WellFormed (with_challenges m (insert id p m.challenges))
insert-WellFormed m id p w h full = record {
  healthy = w.healthy;
  unique_pairings = w.unique_pairings;
  unique = insert-Unique id p m.challenges w.unique;
  signable = Every-insert HasTranscript id p m.challenges w.signable h;
  bounded = ground (arith, length-insert id p m.challenges, w.bounded);
}

-- The manager after a call: a panic outside the lock leaves it as it is.
abbrev pub left_by {ℓ} :
    {A : Type ℓ} → DeviceAuthManager → Option (DeviceAuthManager × A) → DeviceAuthManager
left_by m none = m
left_by m (some (n, r)) = n

-- A request that matches a challenge has the device sign what the challenge says.
pub asked-signed :
    (p : PendingChallenge) (device pc fingerprint : Text) (auth : DeviceAuthRequest) (id : Text)
    → mismatches p device pc fingerprint auth ≡ false
    → asked device pc fingerprint auth id p.challenge ≡ signed id p
asked-signed p device pc fingerprint auth id same =
    let d : p.device_id ≡ device = ground (arith, text_eq_iff p.device_id device) in
    let q : p.pc_id ≡ pc = ground (arith, text_eq_iff p.pc_id pc) in
    let f : p.pc_certificate_fingerprint ≡ fingerprint =
      ground (arith, text_eq_iff p.pc_certificate_fingerprint fingerprint) in
    let k : p.public_key ≡ auth.public_key =
      ground (arith, text_eq_iff p.public_key auth.public_key) in
    let n : p.phone_nonce ≡ auth.phone_nonce =
      ground (arith, text_eq_iff p.phone_nonce auth.phone_nonce) in
    sym (λ i. record {
      device_id = d i;
      pc_id = q i;
      pc_certificate_fingerprint = f i;
      public_key = k i;
      phone_nonce = n i;
      challenge_id = id;
      challenge = p.challenge;
    })

abbrev Outcome : Type 0
Outcome = DeviceAuthManager × Option (Result DeviceAuthError VerifiedDeviceIdentity)

abbrev Returns : Option (Result DeviceAuthError VerifiedDeviceIdentity) → Type 0
Returns o = is_some o ≡ true

module _ (c : Crypto) where
  begin_locked-WellFormed :
      (m : DeviceAuthManager) (q : Bool) (id : Text) (p : PendingChallenge) (t : Option (List ℕ))
      → t ≡ build_device_auth_transcript (signed id p)
      → WellFormed m
      → WellFormed (left_by m (begin_locked c m q id p t))
  begin_locked-WellFormed m q id p none e w = w
  begin_locked-WellFormed m q id p (some t) e w =
      let pruned = prune_expired m p.created_at in
      let kept = prune_expired-WellFormed m p.created_at w in
      if_elim (λ o. WellFormed (left_by m o)) m.poisoned _ _ (λ _. w)
        (λ _.
          if_elim (λ o. WellFormed (left_by m o))
            (leb max_pending_challenges (length pruned.challenges)) _ _ (λ _. kept)
            (λ room.
              insert-WellFormed pruned id p kept (subst (λ o. is_some o ≡ true) e refl) room))

  begin_checked-WellFormed :
      (m : DeviceAuthManager) (q : Bool) (p : Text → PendingChallenge)
      (r : Result DeviceAuthError (Text × Text))
      → WellFormed m
      → WellFormed (left_by m (begin_checked c m q p r))
  begin_checked-WellFormed m q p (err e) w = w
  begin_checked-WellFormed m q p (ok (id, challenge)) w =
      begin_locked-WellFormed m q id (p challenge) _ refl w

  verified-returns :
      (key signature : Text) (o : Option (List ℕ))
      → is_some o ≡ true
      → is_some (verified c key signature o) ≡ true
  verified-returns key signature none h = h
  verified-returns key signature (some t) h = refl

  -- A challenge that is found has a transcript, so that the `expect` does not fail.
  verify_found-returns :
      (ttl : ℕ) (device pc fingerprint : Text) (auth : DeviceAuthRequest) (id signature : Text)
      (later : ℕ) (o : Option PendingChallenge)
      → ((p : PendingChallenge) → o ≡ some p → HasTranscript id p)
      → is_some (verify_found c ttl device pc fingerprint auth id signature later o) ≡ true
  verify_found-returns ttl device pc fingerprint auth id signature later none h = refl
  verify_found-returns ttl device pc fingerprint auth id signature later (some p) h =
      if_elim Returns (ltb ttl (later - p.created_at)) _ _ (λ _. refl)
        (λ _.
          if_elim Returns (mismatches p device pc fingerprint auth) _ _ (λ _. refl)
            (λ same. verified-returns auth.public_key signature _ (
              subst (λ ch. is_some (build_device_auth_transcript ch) ≡ true)
                (sym (asked-signed p device pc fingerprint auth id same)) (h p refl))))

  verify_given-WellFormed :
      (m : DeviceAuthManager) (device pc fingerprint : Text) (auth : DeviceAuthRequest)
      (id signature : Option Text) (now later : ℕ)
      → WellFormed m
      → let r = verify_given c m device pc fingerprint auth id signature now later in
        WellFormed r.0 × (is_some r.1 ≡ true)
  verify_given-WellFormed m device pc fingerprint auth none s now later w = (w, refl)
  verify_given-WellFormed m device pc fingerprint auth (some id) none now later w = (w, refl)
  verify_given-WellFormed m device pc fingerprint auth (some id) (some s) now later w =
      let pruned = prune_expired m now in
      let kept = prune_expired-WellFormed m now w in
      if_elim (λ (r : Outcome). WellFormed r.0 × (is_some r.1 ≡ true)) m.poisoned _ _
        (λ _. (w, refl))
        (λ _. (
          take_challenge-WellFormed pruned id kept,
          verify_found-returns m.ttl device pc fingerprint auth id s later _
              (λ p e. Every-lookup HasTranscript id p pruned.challenges kept.signable e),
        ))

  settled :
      (r : DeviceAuthManager × Option (Result DeviceAuthError VerifiedDeviceIdentity))
      → WellFormed r.0
      → is_some r.1 ≡ true
      → settle r ≡ r
  settled (m, none) w h = absurd (ground arith)
  settled (m, some r) w h = refl

  -- The lock held, `verify` is what its body says.
  pub verify-verify_given :
      (m : DeviceAuthManager) (device pc fingerprint : Text) (auth : DeviceAuthRequest)
      (now later : ℕ)
      → WellFormed m
      → verify c m device pc fingerprint auth now later
        ≡ verify_given c m device pc fingerprint auth auth.challenge_id auth.signature now later
  unfolding verify
  verify-verify_given m device pc fingerprint auth now later w =
      let (kept, returns) =
        verify_given-WellFormed m device pc fingerprint auth auth.challenge_id auth.signature now
          later w in
      settled _ kept returns

  pub verify-WellFormed :
      (m : DeviceAuthManager) (device pc fingerprint : Text) (auth : DeviceAuthRequest)
      (now later : ℕ)
      → WellFormed m
      → let r = verify c m device pc fingerprint auth now later in
        WellFormed r.0 × (is_some r.1 ≡ true)
  verify-WellFormed m device pc fingerprint auth now later w =
      subst (λ r. WellFormed r.0 × (is_some r.1 ≡ true))
        (sym (verify-verify_given m device pc fingerprint auth now later w))
        (verify_given-WellFormed m device pc fingerprint auth auth.challenge_id auth.signature now
          later w)

  pub begin-WellFormed :
      (m : DeviceAuthManager) (device pc fingerprint : Text) (q : Bool) (key nonce : Text)
      (id challenge : Option (List ℕ)) (now : ℕ)
      → WellFormed m
      → WellFormed (left_by m (begin c m device pc fingerprint q key nonce id challenge now))
  unfolding begin
  begin-WellFormed m device pc fingerprint q key nonce id challenge now w =
      begin_checked-WellFormed m q _ (checked c key nonce id challenge) w
