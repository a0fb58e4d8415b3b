-- ===== src/Pc/DeviceAuth/Run.antt =====
-- Runs of the manager from its start.
use gemacast.Prelude.{
  ℕ, ◌≤◌, ◌≡◌, List, [], ◌∷◌, Option, Bool, true, false, not, arith, is_some, Result, length,
  if_elim,
}
use gemacast.Prelude.Assoc.{text_Eq, Text, text_eq, insert-Unique, retain-Unique, remove-Unique}
use gemacast.Prelude.Entries.{Every-retain, length-retain}
use gemacast.Control.DeviceAuth.Keys.{Crypto}
use gemacast.Pc.DeviceAuth.{
  DeviceAuthManager, VerifiedDeviceIdentity, DeviceAuthRequest, DeviceAuthError, prune_expired,
  hold_pending_pairing, pending_pairing, remove_pending_pairing, cancel_pending_for_device,
  clear_pending, new,
}
use gemacast.Pc.DeviceAuth.Challenges.{begin, verify}
use gemacast.Pc.DeviceAuth.Invariant.{
  WellFormed, HasTranscript, new-WellFormed, prune_expired-WellFormed, left_by, begin-WellFormed,
  verify-WellFormed,
}

pub data Move : Type 0 where
  begins : Text → Text → Text → Bool → Text → Text → Option (List ℕ) → Option (List ℕ) → ℕ → Move
  verifies : Text → Text → Text → DeviceAuthRequest → ℕ → ℕ → Move
  holds : Text → Text → VerifiedDeviceIdentity → ℕ → Move
  reads : Text → Text → Text → ℕ → Move
  removes : Text → Move
  cancels : Text → ℕ → Move
  clears : Move

module _ (c : Crypto) where
  unfoldable pub step : DeviceAuthManager → Move → DeviceAuthManager
  step m (begins device pc fingerprint q key nonce id challenge now) =
      left_by m (begin c m device pc fingerprint q key nonce id challenge now)
  step m (verifies device pc fingerprint auth now later) =
      (verify c m device pc fingerprint auth now later).0
  step m (holds id device identity now) = (hold_pending_pairing m id device identity now).0
  step m (reads id device key now) = (pending_pairing m id device key now).0
  step m (removes id) = remove_pending_pairing m id
  step m (cancels device now) = (cancel_pending_for_device m device now).0
  step m clears = clear_pending m

  unfoldable pub run : DeviceAuthManager → List Move → DeviceAuthManager
  run m [] = m
  run m (a ∷ moves) = run (step m a) moves

  pub step-WellFormed : (m : DeviceAuthManager) (a : Move) → WellFormed m → WellFormed (step m a)
  unfolding step hold_pending_pairing pending_pairing remove_pending_pairing
      cancel_pending_for_device clear_pending
  step-WellFormed m (begins device pc fingerprint q key nonce id challenge now) w =
      begin-WellFormed c m device pc fingerprint q key nonce id challenge now w
  step-WellFormed m (verifies device pc fingerprint auth now later) w =
      (verify-WellFormed c m device pc fingerprint auth now later w).0
  step-WellFormed m (holds id device identity now) w =
      let k = prune_expired-WellFormed m now w in
      if_elim (λ (r : DeviceAuthManager × Result DeviceAuthError (Unit {0})). WellFormed r.0)
        m.poisoned _ _ (λ _. w)
        (λ _. record {
          healthy = k.healthy;
          unique = k.unique;
          unique_pairings = insert-Unique id _ _ k.unique_pairings;
          signable = k.signable;
          bounded = k.bounded;
        })
  step-WellFormed m (reads id device key now) w =
      if_elim (λ (r : DeviceAuthManager × Option VerifiedDeviceIdentity). WellFormed r.0) m.poisoned
        _ _ (λ _. w) (λ _. prune_expired-WellFormed m now w)
  step-WellFormed m (removes id) w =
      if_elim WellFormed m.poisoned _ _ (λ _. w)
        (λ _. record {
          healthy = w.healthy;
          unique = w.unique;
          unique_pairings = remove-Unique id _ w.unique_pairings;
          signable = w.signable;
          bounded = w.bounded;
        })
  step-WellFormed m (cancels device now) w =
      let k = prune_expired-WellFormed m now w in
      let pruned = prune_expired m now in
      if_elim (λ (r : DeviceAuthManager × ℕ). WellFormed r.0) m.poisoned _ _ (λ _. w)
        (λ _. record {
          healthy = k.healthy;
          unique = retain-Unique _ _ k.unique;
          unique_pairings = retain-Unique _ _ k.unique_pairings;
          signable = Every-retain HasTranscript _ _ k.signable;
          bounded = omega (
            arith,
            k.bounded,
            length-retain (λ id p. not (text_eq p.device_id device)) pruned.challenges,
          );
        })
  step-WellFormed m clears w =
      if_elim WellFormed m.poisoned _ _ (λ _. w)
        (λ _. record {
          healthy = w.healthy;
          unique = tt;
          unique_pairings = tt;
          signable = tt;
          bounded = omega arith;
        })

  pub run-WellFormed :
      (m : DeviceAuthManager) (moves : List Move) → WellFormed m → WellFormed (run m moves)
  unfolding run
  run-WellFormed m [] w = w
  run-WellFormed m (a ∷ moves) w = run-WellFormed (step m a) moves (step-WellFormed m a w)

  -- Whatever calls came before, the lock is not poisoned, at most 256 challenges are pending, and
  -- `verify` returns: the transcript of a challenge that it finds can be built again.
  pub run_safe :
      (moves : List Move) (device pc fingerprint : Text) (auth : DeviceAuthRequest) (now later : ℕ)
      → let m = run new moves in
        (m.poisoned ≡ false)
        × (length m.challenges ≤ 256)
        × (is_some (verify c m device pc fingerprint auth now later).1 ≡ true)
  run_safe moves device pc fingerprint auth now later =
      let w = run-WellFormed new moves new-WellFormed in
      (
        w.healthy,
        w.bounded,
        (verify-WellFormed c (run new moves) device pc fingerprint auth now later w).1,
      )
