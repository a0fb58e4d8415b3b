-- ===== src/Pc/DeviceAuth.antt =====
-- gemacast-pc/src/device_auth.rs: the proof challenges and pending pairings of devices. Times are
-- microseconds. A result is `none` where the operation panics. A panic while the lock is held, in
-- `verify`, poisons it.
pub mod Challenges
pub mod Invariant
pub mod Run
pub mod SingleUse
pub mod Verify
pub mod Pairings
mod Examples
use gemacast.Prelude.{
  ℕ, ◌+◌, ◌-◌, List, [], Option, none, some, Bool, false, not, ◌&&◌, leb, if◌then◌else◌, length,
  Result, ok, err,
}
use gemacast.Prelude.Assoc.{text_Eq, Text, Assoc, text_eq, lookup, insert, remove, retain}
use gemacast.Control.DeviceAuth.{Challenge}
use gemacast.Control.DeviceAuth.Keys.{KeyError}

-- 90 s and 65 s.
abbrev pub challenge_ttl : ℕ
challenge_ttl = 90_000_000

abbrev pub pending_pairing_ttl : ℕ
pending_pairing_ttl = 65_000_000

abbrev pub max_pending_challenges : ℕ
max_pending_challenges = 256

pub record VerifiedDeviceIdentity : Type 0 where
  pub public_key : Text
  pub fingerprint : Text
  pub pairing_code : Text

pub record PendingChallenge : Type 0 where
  pub device_id : Text
  pub pc_id : Text
  pub pc_certificate_fingerprint : Text
  pub public_key : Text
  pub phone_nonce : Text
  pub challenge : Text
  pub created_at : ℕ

pub record PendingPairing : Type 0 where
  pub device_id : Text
  pub identity : VerifiedDeviceIdentity
  pub created_at : ℕ

pub record DeviceAuthState : Type 0 where
  pub challenges : Assoc PendingChallenge
  pub pending_pairings : Assoc PendingPairing

pub record DeviceAuthManager : Type 0 where
  pub state : DeviceAuthState
  pub open state use {challenges, pending_pairings}
  pub ttl : ℕ
  pub poisoned : Bool

pub record DeviceAuthRequest : Type 0 where
  pub public_key : Text
  pub phone_nonce : Text
  pub challenge_id : Option Text
  pub signature : Option Text
  pub phone_confirmation : Option Bool

pub record DeviceAuthChallenge : Type 0 where
  pub challenge_id : Text
  pub challenge : Text
  pub pc_certificate_fingerprint : Text
  pub pairing_code : Text
  pub requires_approval : Bool
  pub expires_in_seconds : ℕ

pub data DeviceAuthError : Type 0 where
  key : KeyError → DeviceAuthError
  nonce_not_base64 nonce_length unavailable too_many challenge_missing signature_missing
        invalid_or_used expired mismatched :
      DeviceAuthError

abbrev pub new : DeviceAuthManager
new = record {
  state = record { challenges = []; pending_pairings = [] };
  ttl = challenge_ttl;
  poisoned = false;
}

-- The `?` on an error of the key functions.
abbrev pub lift {ℓ} : {A : Type ℓ} → Result KeyError A → Result DeviceAuthError A
lift (ok a) = ok a
lift (err e) = err (key e)

abbrev pub with_challenges : DeviceAuthManager → Assoc PendingChallenge → DeviceAuthManager
with_challenges m cs = record m { state = record m.state { challenges = cs } }

abbrev pub with_pairings : DeviceAuthManager → Assoc PendingPairing → DeviceAuthManager
with_pairings m ps = record m { state = record m.state { pending_pairings = ps } }

abbrev pub lives : ℕ → ℕ → Text → PendingChallenge → Bool
lives ttl now id p = leb (now - p.created_at) ttl

abbrev pub pairing_lives : ℕ → Text → PendingPairing → Bool
pairing_lives now id p = leb (now - p.created_at) pending_pairing_ttl

unfoldable pub prune_expired : DeviceAuthManager → ℕ → DeviceAuthManager
prune_expired m now = record m {
  state = record {
    challenges = retain (lives m.ttl now) m.challenges;
    pending_pairings = retain (pairing_lives now) m.pending_pairings;
  };
}

-- What a device's signature is over, once the challenge has its id.
abbrev pub signed : Text → PendingChallenge → Challenge
signed id p = record {
  device_id = p.device_id;
  pc_id = p.pc_id;
  pc_certificate_fingerprint = p.pc_certificate_fingerprint;
  public_key = p.public_key;
  phone_nonce = p.phone_nonce;
  challenge_id = id;
  challenge = p.challenge;
}

unfoldable pub hold_pending_pairing :
    DeviceAuthManager
    → Text
    → Text
    → VerifiedDeviceIdentity
    → ℕ
    → DeviceAuthManager × Result DeviceAuthError (Unit {0})
unfolding prune_expired
hold_pending_pairing m request_id device_id identity now =
    if m.poisoned
    then (m, err unavailable)
    else (let pruned = prune_expired m now in
        (
          with_pairings pruned (
              insert request_id
                (record { device_id = device_id; identity = identity; created_at = now })
                pruned.pending_pairings),
          ok tt,
        ))

abbrev pub identity_for : Text → Text → Option PendingPairing → Option VerifiedDeviceIdentity
identity_for device_id public_key none = none
identity_for device_id public_key (some p) =
    if text_eq p.device_id device_id && text_eq p.identity.public_key public_key
    then some p.identity
    else none

unfoldable pub pending_pairing :
    DeviceAuthManager → Text → Text → Text → ℕ → DeviceAuthManager × Option VerifiedDeviceIdentity
unfolding prune_expired
pending_pairing m request_id device_id public_key now =
    if m.poisoned
    then (m, none)
    else (let pruned = prune_expired m now in
        (pruned, identity_for device_id public_key (lookup request_id pruned.pending_pairings)))

unfoldable pub remove_pending_pairing : DeviceAuthManager → Text → DeviceAuthManager
remove_pending_pairing m request_id =
    if m.poisoned then m else with_pairings m (remove request_id m.pending_pairings)

abbrev pub without_device : DeviceAuthManager → Text → DeviceAuthManager
without_device m device_id = record m {
  state = record {
    challenges = retain (λ id p. not (text_eq p.device_id device_id)) m.challenges;
    pending_pairings = retain (λ id p. not (text_eq p.device_id device_id)) m.pending_pairings;
  };
}

unfoldable pub cancel_pending_for_device : DeviceAuthManager → Text → ℕ → DeviceAuthManager × ℕ
unfolding prune_expired
cancel_pending_for_device m device_id now =
    if m.poisoned
    then (m, 0)
    else (let pruned = prune_expired m now in
        let left = without_device pruned device_id in
        (
          left,
          (length pruned.pending_pairings + length pruned.challenges)
              - length left.pending_pairings
              - length left.challenges,
        ))

unfoldable pub clear_pending : DeviceAuthManager → DeviceAuthManager
clear_pending m =
    if m.poisoned then m else record m { state = record { challenges = []; pending_pairings = [] } }
