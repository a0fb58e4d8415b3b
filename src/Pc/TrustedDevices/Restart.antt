-- ===== src/Pc/TrustedDevices/Restart.antt =====
-- Runs of the store, with restarts that load the file, and saves that may fail.
use gemacast.Prelude.{
  ◌≡◌, refl, List, [], ◌∷◌, Option, none, some, Bool, true, false, not, ◌&&◌, arith, if◌then◌else◌,
  ap, is_some, if_elim, Result,
}
use gemacast.Prelude.Assoc.{
  text_Eq, Text, text_eq, text_eq_iff, lookup, insert, lookup-insert, lookup-remove, insert-Unique,
}
use gemacast.Pc.TrustedDevices.{
  TrustedDevice, TrustedDeviceFile, TrustedDeviceState, TrustedDeviceStore, StoreError, load,
  file_or_default, file_of, bind_pc_identity, bound_to, text_is, is_trusted, trust, trusting,
  undone, finish, save_state, forget, forgetting, unrevoked,
}
use gemacast.Pc.TrustedDevices.Trust.{
  Sound, Agrees, saved-Agrees, collect-Unique, collect-IsKeyed, trusting-Sound, undone-devices,
  undone-revoked, undone-Sound, forgetting-Sound, unrevoked-Sound,
}

pub record Synced (w : TrustedDeviceStore) : Type 0 where
  pub healthy : w.poisoned ≡ false
  pub on_disk : w.has_path ≡ true
  pub sound : Sound w.state
  pub agrees : Agrees w.state w.disk

pub load-Synced : (disk : Option TrustedDeviceFile) → Synced (load disk)
unfolding load
load-Synced disk = record {
  healthy = refl;
  on_disk = refl;
  sound = record {
    unique = collect-Unique [] (file_or_default disk).devices tt;
    keyed = collect-IsKeyed [] (file_or_default disk).devices tt;
    unique_revoked = tt;
    revoked_gone = λ k r. absurd (unfold lookup in ground (arith, r));
  };
  agrees = λ k r. refl;
}

pub bound-Sound : (fingerprint : Text) → Sound (bound_to fingerprint)
bound-Sound fingerprint = record {
  unique = tt;
  keyed = tt;
  unique_revoked = tt;
  revoked_gone = λ k r. unfold lookup in refl;
}

abbrev Settled {ℓ} : {A : Type ℓ} → TrustedDeviceStore × Result StoreError A → Type 0
Settled r = Synced r.0

finish-Synced {ℓ} :
    {A : Type ℓ} (w : TrustedDeviceStore) (s written undo : TrustedDeviceState) (a : A)
    (saved : Bool)
    → Synced w
    → Sound s
    → Sound undo
    → Agrees s (some (file_of written))
    → Agrees undo w.disk
    → Settled (finish w s undo a (save_state w written saved))
finish-Synced w s written undo a true y ws wu as' au =
    rw y.on_disk (record { healthy = y.healthy; on_disk = refl; sound = ws; agrees = as' })
finish-Synced w s written undo a false y ws wu as' au =
    rw y.on_disk (record { healthy = y.healthy; on_disk = refl; sound = wu; agrees = au })

pub bind_pc_identity-Synced :
    (w : TrustedDeviceStore) (fingerprint : Text) (saved : Bool)
    → Synced w
    → Synced (bind_pc_identity w fingerprint saved).0
unfolding bind_pc_identity
bind_pc_identity-Synced w fingerprint saved y =
    let s = bound_to fingerprint in
    let sound = bound-Sound fingerprint in
    if_elim Settled w.poisoned _ _ (λ _. y)
      (λ _.
        if_elim Settled (text_is w.pc_certificate_fingerprint fingerprint) _ _ (λ _. y)
          (λ _.
            finish-Synced w s s w.state tt saved y sound y.sound
              (saved-Agrees s s sound (λ k. refl)) y.agrees))

unrevoked-forgetting :
    (s : TrustedDeviceState) (id k : Text)
    → Sound s
    → lookup k (unrevoked (forgetting s id) id).revoked
      ≡ (if text_eq id k then none else lookup k s.revoked)
unrevoked-forgetting s id k w = ground (
  arith,
  lookup-remove id k (insert id tt s.revoked) (insert-Unique id tt s.revoked w.unique_revoked),
  lookup-insert id k tt s.revoked,
)

pub trust-Synced :
    (w : TrustedDeviceStore) (d : TrustedDevice) (saved : Bool)
    → Synced w
    → Synced (trust w d saved).0
unfolding trust
trust-Synced w d saved y =
    let s = trusting w.state d in
    let undo = undone w.state s d in
    let sound = trusting-Sound w.state d y.sound in
    if_elim Settled w.poisoned _ _ (λ _. y)
      (λ _.
        if_elim Settled (not (is_some w.pc_certificate_fingerprint)) _ _ (λ _. y)
          (λ _.
            finish-Synced w s s undo tt saved y sound (undone-Sound w.state d y.sound)
              (saved-Agrees s s sound (λ k. refl))
              (λ k r. ground (
                arith,
                r,
                undone-revoked w.state d k y.sound,
                undone-devices w.state d k y.sound,
                y.agrees k,
              ))))

pub forget-Synced :
    (w : TrustedDeviceStore) (id : Text) (saved : Bool) → Synced w → Synced (forget w id saved).0
unfolding forget
forget-Synced w id saved y =
    let s = forgetting w.state id in
    let sound = forgetting-Sound w.state id y.sound in
    let left = unrevoked-Sound s id sound in
    if_elim Settled w.poisoned _ _ (λ _. y)
      (λ _.
        if_elim Settled (not (is_some (lookup id w.devices)) && not (is_some (lookup id w.revoked)))
          _ _
          (λ none_there. record {
            healthy = y.healthy;
            on_disk = y.on_disk;
            sound = left;
            agrees = λ k r. ground (
              arith,
              r,
              none_there,
              y.agrees k,
              unrevoked-forgetting w.state id k y.sound,
              lookup-remove id k w.devices y.sound.unique,
              text_eq_iff id k,
              ap (λ (t : Text). lookup t w.devices) {x = id} {y = k},
              ap (λ (t : Text). lookup t w.revoked) {x = id} {y = k},
            );
          })
          (λ _.
            finish-Synced w (unrevoked s id) s s true saved y left sound
              (saved-Agrees (unrevoked s id) s sound (λ k. refl))
              (λ k r. ground (
                arith,
                r,
                y.agrees k,
                lookup-insert id k tt w.revoked,
                lookup-remove id k w.devices y.sound.unique,
              ))))

pub data Move : Type 0 where
  binds : Text → Bool → Move
  trusts : TrustedDevice → Bool → Move
  forgets : Text → Bool → Move
  restarts : Move

unfoldable pub step : TrustedDeviceStore → Move → TrustedDeviceStore
step w (binds fingerprint saved) = (bind_pc_identity w fingerprint saved).0
step w (trusts d saved) = (trust w d saved).0
step w (forgets id saved) = (forget w id saved).0
step w restarts = load w.disk

unfoldable pub run : TrustedDeviceStore → List Move → TrustedDeviceStore
unfolding step
run w [] = w
run w (a ∷ moves) = run (step w a) moves

pub step-Synced : (w : TrustedDeviceStore) (a : Move) → Synced w → Synced (step w a)
unfolding step
step-Synced w (binds fingerprint saved) y = bind_pc_identity-Synced w fingerprint saved y
step-Synced w (trusts d saved) y = trust-Synced w d saved y
step-Synced w (forgets id saved) y = forget-Synced w id saved y
step-Synced w restarts y = load-Synced w.disk

pub run-Synced : (w : TrustedDeviceStore) (moves : List Move) → Synced w → Synced (run w moves)
unfolding run
run-Synced w [] y = y
run-Synced w (a ∷ moves) y = run-Synced (step w a) moves (step-Synced w a y)

-- A restart keeps the trust. Whatever was bound, trusted and forgotten since the store was loaded,
-- with saves that succeed or fail and with restarts, a new start from the file trusts a device
-- that is not held revoked with exactly the keys that the running store trusts it with.
pub restart_keeps_trust :
    (disk : Option TrustedDeviceFile) (moves : List Move) (id key : Text)
    → let w = run (load disk) moves in
      lookup id w.revoked ≡ none → is_trusted (load w.disk) id key ≡ is_trusted w id key
unfolding is_trusted load
restart_keeps_trust disk moves id key r =
    let w = run (load disk) moves in
    let y = run-Synced (load disk) moves (load-Synced disk) in
    unfold lookup in ground (arith, y.healthy, r, y.agrees id r)
