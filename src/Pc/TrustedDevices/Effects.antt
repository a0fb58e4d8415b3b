-- ===== src/Pc/TrustedDevices/Effects.antt =====
-- The answers of the store after `forget`, and after a `trust` that fails.
use gemacast.Prelude.{
  ◌≡◌, refl, List, Option, Bool, true, false, not, ◌&&◌, arith, if◌then◌else◌, is_some, if_elim,
  Result, err,
}
use gemacast.Prelude.Assoc.{
  text_Eq, Text, text_eq, lookup, insert, lookup-insert, lookup-remove, insert-Unique,
}
use gemacast.Pc.TrustedDevices.{
  TrustedDevice, TrustedDeviceFile, TrustedDeviceState, TrustedDeviceStore, StoreError, load,
  is_trusted, key_matches, trust, trusting, undone, forget, forgetting, unrevoked, finish,
  save_state,
}
use gemacast.Pc.TrustedDevices.Trust.{undone-devices, undone-revoked}
use gemacast.Pc.TrustedDevices.Restart.{Synced, load-Synced, Move, run, run-Synced}

-- The answers of a store for each device and key.
abbrev answers : TrustedDeviceState → Text → Text → Bool
answers s id key =
    if is_some (lookup id s.revoked) then false else key_matches key (lookup id s.devices)

abbrev Forgets : Text → TrustedDeviceStore → TrustedDeviceStore × Result StoreError Bool → Type 0
Forgets id w r =
    (k key : Text)
    → (if r.0.poisoned then false else answers r.0.state k key)
      ≡ (if text_eq id k then false else (if w.poisoned then false else answers w.state k key))

finish-Forgets :
    (id : Text) (w : TrustedDeviceStore) (saved : Bool)
    → Synced w
    → Forgets id w (
        finish w
          (unrevoked (forgetting w.state id) id)
          (forgetting w.state id)
          true
          (save_state w (forgetting w.state id) saved))
finish-Forgets id w true y k key = rw y.on_disk (
    ground (
      arith,
      y.healthy,
      lookup-remove id k w.devices y.sound.unique,
      lookup-insert id k tt w.revoked,
      lookup-remove id k (insert id tt w.revoked)
          (insert-Unique id tt w.revoked y.sound.unique_revoked),
    ))
finish-Forgets id w false y k key = rw y.on_disk (
    ground (
      arith,
      y.healthy,
      lookup-remove id k w.devices y.sound.unique,
      lookup-insert id k tt w.revoked,
    ))

-- Forgetting a device, even one whose removal cannot be saved: it is trusted with no key afterwards,
-- and the answers for the other devices stay. The store was loaded before, and then used in any way.
pub forget_effect :
    (disk : Option TrustedDeviceFile) (before : List Move) (id : Text) (saved : Bool) (k key : Text)
    → let w = run (load disk) before in
      is_trusted (forget w id saved).0 k key ≡ (if text_eq id k then false else is_trusted w k key)
unfolding is_trusted forget
forget_effect disk before id saved k key =
    let w = run (load disk) before in
    let y = run-Synced (load disk) before (load-Synced disk) in
    let s = forgetting w.state id in
    if_elim (Forgets id w) w.poisoned _ _ (λ p. absurd (ground (arith, p, y.healthy)))
      (λ _.
        if_elim (Forgets id w)
          (not (is_some (lookup id w.devices)) && not (is_some (lookup id w.revoked))) _ _
          (λ none_there i j. ground (
            arith,
            y.healthy,
            none_there,
            lookup-remove id i w.devices y.sound.unique,
            lookup-insert id i tt w.revoked,
            lookup-remove id i (insert id tt w.revoked)
                (insert-Unique id tt w.revoked y.sound.unique_revoked),
          ))
          (λ _. finish-Forgets id w saved y))
      k key

abbrev Unchanged : TrustedDeviceStore → TrustedDeviceStore × Result StoreError (Unit {0}) → Type 0
Unchanged w r =
    (e : StoreError)
    → r.1 ≡ err e
    → (k key : Text)
    → (if r.0.poisoned then false else answers r.0.state k key)
      ≡ (if w.poisoned then false else answers w.state k key)

finish-Unchanged :
    (w : TrustedDeviceStore) (d : TrustedDevice) (saved : Bool)
    → Synced w
    → Unchanged w (
        finish w
          (trusting w.state d)
          (undone w.state (trusting w.state d) d)
          (tt {0})
          (save_state w (trusting w.state d) saved))
finish-Unchanged w d true y e f k key = absurd (ground (arith, y.on_disk, f))
finish-Unchanged w d false y e f k key =
    rw y.on_disk
      (ground (arith, undone-revoked w.state d k y.sound, undone-devices w.state d k y.sound))

-- A device that cannot be trusted, because the store is not bound to a certificate or the file is not
-- written, changes no answer: every device is trusted with the same keys as before. The store was
-- loaded before, and then used in any way.
pub trust_error :
    (disk : Option TrustedDeviceFile) (before : List Move) (d : TrustedDevice) (saved : Bool)
    (e : StoreError) (k key : Text)
    → let w = run (load disk) before in
      (trust w d saved).1 ≡ err e → is_trusted (trust w d saved).0 k key ≡ is_trusted w k key
unfolding is_trusted trust
trust_error disk before d saved e k key f =
    let w = run (load disk) before in
    let y = run-Synced (load disk) before (load-Synced disk) in
    if_elim (Unchanged w) w.poisoned _ _ (λ _ e f k key. refl)
      (λ _.
        if_elim (Unchanged w) (not (is_some w.pc_certificate_fingerprint)) _ _ (λ _ e f k key. refl)
          (λ _. finish-Unchanged w d saved y))
      e f k key
