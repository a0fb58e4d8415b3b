-- ===== src/Pc/DeviceAuth/SingleUse.antt =====
-- Two calls of `verify` for one challenge, with any calls between them.
use gemacast.Prelude.{
  ℕ, ◌≡◌, refl, List, [], ◌∷◌, Option, none, some, Bool, true, false, not, ◌&&◌, arith, Result, ok,
  err, ap, ◌∙◌, if_elim, sym, ◌>>=◌, length, leb,
}
use gemacast.Prelude.Assoc.{
  text_Eq, Text, text_eq, text_eq_refl, lookup, kept, Unique, lookup-remove, lookup-retain,
  lookup-insert,
}
use gemacast.Control.DeviceAuth.Keys.{Crypto}
use gemacast.Pc.DeviceAuth.{
  DeviceAuthManager, PendingChallenge, VerifiedDeviceIdentity, DeviceAuthRequest, DeviceAuthError,
  invalid_or_used, lives, prune_expired, hold_pending_pairing, pending_pairing,
  remove_pending_pairing, cancel_pending_for_device, clear_pending, new, max_pending_challenges,
}
use gemacast.Pc.DeviceAuth.Challenges.{
  begin, begin_checked, begin_locked, verify_found, checked, draw, verify, verify_given,
  take_challenge,
}
use gemacast.Pc.DeviceAuth.Invariant.{
  WellFormed, left_by, verify-verify_given, verify-WellFormed, prune_expired-WellFormed,
  new-WellFormed,
}
use gemacast.Pc.DeviceAuth.Run.{
  Move, begins, verifies, holds, reads, removes, cancels, clears, step, run, step-WellFormed,
  run-WellFormed,
}

-- The moves that do not draw an id for a challenge.
abbrev pub draws : Crypto → Text → Option (List ℕ) → Bool
draws c id none = false
draws c id (some bytes) = text_eq (c.base64_encode bytes) id

abbrev pub draws_id : Crypto → Text → Move → Bool
draws_id c id (begins device pc fingerprint q key nonce bytes challenge now) = draws c id bytes
draws_id c id a = false

unfoldable pub none_draws : Crypto → Text → List Move → Bool
none_draws c id [] = true
none_draws c id (a ∷ moves) = not (draws_id c id a) && none_draws c id moves

abbrev Outcome : Type 0
Outcome = DeviceAuthManager × Option (Result DeviceAuthError VerifiedDeviceIdentity)

abbrev Absent : Text → DeviceAuthManager → Type 0
Absent id m = lookup id m.challenges ≡ none

prune-Absent :
    (m : DeviceAuthManager) (id : Text) (now : ℕ)
    → Unique m.challenges
    → Absent id m
    → Absent id (prune_expired m now)
unfolding prune_expired
prune-Absent m id now u e =
    lookup-retain (lives m.ttl now) id m.challenges u ∙ ap (kept (lives m.ttl now) id) e

take-Absent :
    (m : DeviceAuthManager) (id other : Text)
    → Unique m.challenges
    → Absent id m
    → Absent id (take_challenge m other)
take-Absent m id other u e = ground (arith, lookup-remove other id m.challenges u, e)

module _ (c : Crypto) where
  drawn :
      (first second : Result DeviceAuthError (Unit {0})) (bytes challenge : Option (List ℕ))
      (id i ch : Text)
      → (first >>= λ _. second >>= λ _. draw c bytes challenge) ≡ ok (i, ch)
      → draws c id bytes ≡ text_eq i id
  drawn (err x) second bytes challenge id i ch e = absurd (ground arith)
  drawn (ok _) (err x) bytes challenge id i ch e = absurd (ground arith)
  drawn (ok _) (ok _) none challenge id i ch e = absurd (ground arith)
  drawn (ok _) (ok _) (some b) none id i ch e = absurd (ground arith)
  drawn (ok _) (ok _) (some b) (some d) id i ch e = ground arith

  begin_locked-Absent :
      (m : DeviceAuthManager) (q : Bool) (id i : Text) (p : PendingChallenge) (t : Option (List ℕ))
      → text_eq i id ≡ false
      → Unique m.challenges
      → Absent id m
      → Absent id (left_by m (begin_locked c m q i p t))
  begin_locked-Absent m q id i p none n u e = e
  begin_locked-Absent m q id i p (some t) n u e =
      let pruned = prune_expired m p.created_at in
      let gone = prune-Absent m id p.created_at u e in
      if_elim (λ o. Absent id (left_by m o)) m.poisoned _ _ (λ _. e)
        (λ _.
          if_elim (λ o. Absent id (left_by m o))
            (leb max_pending_challenges (length pruned.challenges)) _ _ (λ _. gone)
            (λ _. lookup-insert i id p pruned.challenges ∙ rw n gone))

  begin_checked-Absent :
      (m : DeviceAuthManager) (q : Bool) (id : Text) (p : Text → PendingChallenge)
      (r : Result DeviceAuthError (Text × Text))
      → ((i ch : Text) → r ≡ ok (i, ch) → text_eq i id ≡ false)
      → Unique m.challenges
      → Absent id m
      → Absent id (left_by m (begin_checked c m q p r))
  begin_checked-Absent m q id p (err x) n u e = e
  begin_checked-Absent m q id p (ok (i, ch)) n u e =
      begin_locked-Absent m q id i (p ch) _ (n i ch refl) u e

  verify_given-Absent :
      (m : DeviceAuthManager) (id device pc fingerprint : Text) (auth : DeviceAuthRequest)
      (i s : Option Text) (now later : ℕ)
      → WellFormed m
      → Absent id m
      → Absent id (verify_given c m device pc fingerprint auth i s now later).0
  verify_given-Absent m id device pc fingerprint auth none s now later w e = e
  verify_given-Absent m id device pc fingerprint auth (some i) none now later w e = e
  verify_given-Absent m id device pc fingerprint auth (some i) (some s) now later w e =
      if_elim (λ (r : Outcome). Absent id r.0) m.poisoned _ _ (λ _. e)
        (λ _.
          take-Absent (prune_expired m now) id i (prune_expired-WellFormed m now w).unique
            (prune-Absent m id now w.unique e))

  step-Absent :
      (m : DeviceAuthManager) (id : Text) (a : Move)
      → draws_id c id a ≡ false
      → WellFormed m
      → Absent id m
      → Absent id (step c m a)
  unfolding step begin hold_pending_pairing pending_pairing remove_pending_pairing
      cancel_pending_for_device clear_pending
  step-Absent m id (begins device pc fingerprint q key nonce bytes challenge now) n w e =
      begin_checked-Absent m q id _ (checked c key nonce bytes challenge)
        (λ i ch r. sym (drawn _ _ bytes challenge id i ch r) ∙ n) w.unique e
  step-Absent m id (verifies device pc fingerprint auth now later) n w e =
      ap (λ (r : Outcome). lookup id r.0.challenges)
        (verify-verify_given c m device pc fingerprint auth now later w)
      ∙ verify_given-Absent m id device pc fingerprint auth auth.challenge_id auth.signature now
          later w e
  step-Absent m id (holds i device identity now) n w e =
      if_elim (λ (r : DeviceAuthManager × Result DeviceAuthError (Unit {0})). Absent id r.0)
        m.poisoned _ _ (λ _. e) (λ _. prune-Absent m id now w.unique e)
  step-Absent m id (reads i device key now) n w e =
      if_elim (λ (r : DeviceAuthManager × Option VerifiedDeviceIdentity). Absent id r.0) m.poisoned
        _ _ (λ _. e) (λ _. prune-Absent m id now w.unique e)
  step-Absent m id (removes i) n w e = if_elim (Absent id) m.poisoned _ _ (λ _. e) (λ _. e)
  step-Absent m id (cancels device now) n w e =
      let pruned = prune_expired m now in
      if_elim (λ (r : DeviceAuthManager × ℕ). Absent id r.0) m.poisoned _ _ (λ _. e)
        (λ _.
          lookup-retain (λ i p. not (text_eq p.device_id device)) id pruned.challenges
            (prune_expired-WellFormed m now w).unique
          ∙ ap (kept (λ i p. not (text_eq p.device_id device)) id)
              (prune-Absent m id now w.unique e))
  step-Absent m id clears n w e =
      if_elim (Absent id) m.poisoned _ _ (λ _. e) (λ _. unfold lookup in refl)

  run-Absent :
      (m : DeviceAuthManager) (id : Text) (moves : List Move)
      → none_draws c id moves ≡ true
      → WellFormed m
      → Absent id m
      → Absent id (run c m moves)
  unfolding run none_draws
  run-Absent m id [] n w e = e
  run-Absent m id (a ∷ moves) n w e =
      run-Absent (step c m a) id moves (ground (arith, n)) (step-WellFormed c m a w)
        (step-Absent m id a (ground (arith, n)) w e)

  tried-Absent :
      (m : DeviceAuthManager) (id device pc fingerprint s : Text) (auth : DeviceAuthRequest)
      (now later : ℕ)
      → WellFormed m
      → Absent id (verify_given c m device pc fingerprint auth (some id) (some s) now later).0
  tried-Absent m id device pc fingerprint s auth now later w =
      let pruned = prune_expired m now in
      if_elim (λ (r : Outcome). Absent id r.0) m.poisoned _ _
        (λ t. absurd (ground (arith, t, w.healthy)))
        (λ _. ground (
          arith,
          text_eq_refl id,
          lookup-remove id id pruned.challenges (prune_expired-WellFormed m now w).unique,
        ))

  used_up :
      (m : DeviceAuthManager) (id device pc fingerprint s : Text) (auth : DeviceAuthRequest)
      (now later : ℕ)
      → WellFormed m
      → Absent id m
      → (verify_given c m device pc fingerprint auth (some id) (some s) now later).1
        ≡ some (err invalid_or_used)
  used_up m id device pc fingerprint s auth now later w e =
      if_elim (λ (r : Outcome). r.1 ≡ some (err invalid_or_used)) m.poisoned _ _
        (λ t. absurd (ground (arith, t, w.healthy)))
        (λ _.
          ap (verify_found c m.ttl device pc fingerprint auth id s later)
            (prune-Absent m id now w.unique e))

  -- A challenge is good for one attempt. Once a request with its id and some signature was verified,
  -- with whatever result and after whatever calls, every later request with that id is refused as
  -- invalid or already used, until the random source draws the id again.
  pub verify_single_use :
      (before : List Move) (device pc fingerprint : Text) (auth : DeviceAuthRequest) (now later : ℕ)
      (after : List Move) (device' pc' fingerprint' : Text) (auth' : DeviceAuthRequest)
      (now' later' : ℕ) (id s s' : Text)
      → auth.challenge_id ≡ some id
      → auth.signature ≡ some s
      → auth'.challenge_id ≡ some id
      → auth'.signature ≡ some s'
      → none_draws c id after ≡ true
      → let tried = (verify c (run c new before) device pc fingerprint auth now later).0 in
        (verify c (run c tried after) device' pc' fingerprint' auth' now' later').1
        ≡ some (err invalid_or_used)
  verify_single_use before device pc fingerprint auth now later after device' pc' fingerprint' auth'
        now' later' id s s' e1 e2 e3 e4 n =
      let m = run c new before in
      let w = run-WellFormed c new before new-WellFormed in
      let kept = (verify-WellFormed c m device pc fingerprint auth now later w).0 in
      let tried = (verify c m device pc fingerprint auth now later).0 in
      let gone : Absent id tried =
        ap (λ (r : Outcome). lookup id r.0.challenges)
          (verify-verify_given c m device pc fingerprint auth now later w
            ∙ ap
                (λ (q : Option Text × Option Text).
                  verify_given c m device pc fingerprint auth q.0 q.1 now later)
                {x = (auth.challenge_id, auth.signature)} {y = (some id, some s)}
                (λ i. (e1 i, e2 i)))
        ∙ tried-Absent m id device pc fingerprint s auth now later w in
      let last = run c tried after in
      let w' = run-WellFormed c tried after kept in
      ap (λ (r : Outcome). r.1)
        (verify-verify_given c last device' pc' fingerprint' auth' now' later' w'
          ∙ ap
              (λ (q : Option Text × Option Text).
                verify_given c last device' pc' fingerprint' auth' q.0 q.1 now' later')
              {x = (auth'.challenge_id, auth'.signature)} {y = (some id, some s')}
              (λ i. (e3 i, e4 i)))
      ∙ used_up last id device' pc' fingerprint' s' auth' now' later' w'
          (run-Absent tried id after n kept gone)
