-- ===== src/Pc/TrustedDevices/Forgotten.antt =====
-- `TrustedDeviceStore::forget` of gemacast-pc/src/trusted_devices.rs, and runs after it.
use gemacast.Prelude.{
  ◌≡◌, refl, List, [], ◌∷◌, Option, none, Bool, true, false, not, ◌&&◌, arith, ◌∙◌, is_some,
  if_elim, Result, ok,
}
use gemacast.Prelude.Assoc.{
  text_Eq, Text, text_eq, text_eq_refl, lookup, remove, lookup-insert, lookup-remove,
}
use gemacast.Pc.TrustedDevices.{
  TrustedDevice, TrustedDeviceFile, TrustedDeviceState, TrustedDeviceStore, StoreError, load,
  collect, file_or_default, bind_pc_identity, bound_to, text_is, is_trusted, trust, trusting,
  undone, forget, forgetting, unrevoked, finish, save_state,
}
use gemacast.Pc.TrustedDevices.Trust.{
  Sound, saved-lookup, trusting-Sound, undone-devices, forgetting-Sound,
}
use gemacast.Pc.TrustedDevices.Restart.{
  Synced, bound-Sound, load-Synced, Move, binds, trusts, forgets, restarts, step, run, run-Synced,
  step-Synced, forget-Synced,
}

-- A device that neither the memory nor the file has.
abbrev Gone : Text → TrustedDeviceStore → Type 0
Gone id w =
    (lookup id w.devices ≡ none) × (lookup id (collect [] (file_or_default w.disk).devices) ≡ none)

abbrev Left {ℓ} : {A : Type ℓ} → Text → TrustedDeviceStore × Result StoreError A → Type 0
Left id r = Gone id r.0

finish-Gone {ℓ} :
    {A : Type ℓ} (id : Text) (w : TrustedDeviceStore) (s written undo : TrustedDeviceState) (a : A)
    (saved : Bool)
    → Synced w
    → Gone id w
    → Sound written
    → lookup id s.devices ≡ none
    → lookup id written.devices ≡ none
    → lookup id undo.devices ≡ none
    → Left id (finish w s undo a (save_state w written saved))
finish-Gone id w s written undo a true y g ww gs gw gu =
    rw y.on_disk (gs, saved-lookup written id ww ∙ gw)
finish-Gone id w s written undo a false y g ww gs gw gu = rw y.on_disk (gu, g.1)

bind-Gone :
    (id : Text) (w : TrustedDeviceStore) (fingerprint : Text) (saved : Bool)
    → Synced w
    → Gone id w
    → Gone id (bind_pc_identity w fingerprint saved).0
unfolding bind_pc_identity
bind-Gone id w fingerprint saved y g =
    let s = bound_to fingerprint in
    if_elim (Left id) w.poisoned _ _ (λ _. g)
      (λ _.
        if_elim (Left id) (text_is w.pc_certificate_fingerprint fingerprint) _ _ (λ _. g)
          (λ _.
            finish-Gone id w s s w.state tt saved y g (bound-Sound fingerprint)
              (unfold lookup in refl) (unfold lookup in refl) g.0))

trust-Gone :
    (id : Text) (w : TrustedDeviceStore) (d : TrustedDevice) (saved : Bool)
    → text_eq d.device_id id ≡ false
    → Synced w
    → Gone id w
    → Gone id (trust w d saved).0
unfolding trust
trust-Gone id w d saved other y g =
    let s = trusting w.state d in
    let still : lookup id s.devices ≡ none =
      ground (arith, lookup-insert d.device_id id d w.devices, other, g.0) in
    if_elim (Left id) w.poisoned _ _ (λ _. g)
      (λ _.
        if_elim (Left id) (not (is_some w.pc_certificate_fingerprint)) _ _ (λ _. g)
          (λ _.
            finish-Gone id w s s (undone w.state s d) tt saved y g
              (trusting-Sound w.state d y.sound) still still
              (undone-devices w.state d id y.sound ∙ g.0)))

removed :
    (id k : Text) (w : TrustedDeviceStore)
    → Synced w
    → lookup k w.devices ≡ none
    → lookup k (remove id w.devices) ≡ none
removed id k w y g = ground (arith, lookup-remove id k w.devices y.sound.unique, g)

forget-Gone :
    (id k : Text) (w : TrustedDeviceStore) (saved : Bool)
    → Synced w
    → Gone k w
    → Gone k (forget w id saved).0
unfolding forget
forget-Gone id k w saved y g =
    let s = forgetting w.state id in
    let still = removed id k w y g.0 in
    if_elim (Left k) w.poisoned _ _ (λ _. g)
      (λ _.
        if_elim (Left k)
          (not (is_some (lookup id w.devices)) && not (is_some (lookup id w.revoked))) _ _
          (λ _. (still, g.1))
          (λ _.
            finish-Gone k w (unrevoked s id) s s true saved y g
              (forgetting-Sound w.state id y.sound) still still still))

-- What a successful `forget` has done, wherever it was saved.
abbrev Done : Text → TrustedDeviceStore × Result StoreError Bool → Type 0
Done id r = (b : Bool) → r.1 ≡ ok b → Gone id r.0

finish-Done :
    (id : Text) (w : TrustedDeviceStore) (s written : TrustedDeviceState) (saved : Bool)
    → Synced w
    → Sound written
    → lookup id s.devices ≡ none
    → lookup id written.devices ≡ none
    → Done id (finish w s written true (save_state w written saved))
finish-Done id w s written true y ww gs gw b e = rw y.on_disk (gs, saved-lookup written id ww ∙ gw)
finish-Done id w s written false y ww gs gw b e = absurd (ground (arith, y.on_disk))

forget-Done :
    (id : Text) (w : TrustedDeviceStore) (saved : Bool) → Synced w → Done id (forget w id saved)
unfolding forget
forget-Done id w saved y =
    let s = forgetting w.state id in
    let still : lookup id (remove id w.devices) ≡ none =
      ground (arith, lookup-remove id id w.devices y.sound.unique, text_eq_refl id) in
    if_elim (Done id) w.poisoned _ _ (λ p. absurd (ground (arith, p, y.healthy)))
      (λ _.
        if_elim (Done id)
          (not (is_some (lookup id w.devices)) && not (is_some (lookup id w.revoked))) _ _
          (λ none_there b e.
            (still, y.agrees id (ground (arith, none_there)) ∙ ground (arith, none_there)))
          (λ _.
            finish-Done id w (unrevoked s id) s saved y (forgetting-Sound w.state id y.sound) still
              still))

-- The moves that trust a device.
abbrev pub trusts_id : Text → Move → Bool
trusts_id id (trusts d saved) = text_eq d.device_id id
trusts_id id a = false

unfoldable pub none_trusts : Text → List Move → Bool
none_trusts id [] = true
none_trusts id (a ∷ moves) = not (trusts_id id a) && none_trusts id moves

step-Gone :
    (id : Text) (w : TrustedDeviceStore) (a : Move)
    → trusts_id id a ≡ false
    → Synced w
    → Gone id w
    → Gone id (step w a)
unfolding step load
step-Gone id w (binds fingerprint saved) n y g = bind-Gone id w fingerprint saved y g
step-Gone id w (trusts d saved) n y g = trust-Gone id w d saved n y g
step-Gone id w (forgets k saved) n y g = forget-Gone k id w saved y g
step-Gone id w restarts n y g = (g.1, g.1)

run-Gone :
    (id : Text) (w : TrustedDeviceStore) (moves : List Move)
    → none_trusts id moves ≡ true
    → Synced w
    → Gone id w
    → Gone id (run w moves)
unfolding run none_trusts
run-Gone id w [] n y g = g
run-Gone id w (a ∷ moves) n y g =
    run-Gone id (step w a) moves (ground (arith, n)) (step-Synced w a y)
      (step-Gone id w a (ground (arith, n)) y g)

-- A forgotten device stays forgotten. Once `forget` has returned without an error, after whatever came
-- before since the store was loaded, the device is trusted with no key, through restarts and
-- failing saves, until it is trusted anew.
pub forgotten_stays :
    (disk : Option TrustedDeviceFile) (before : List Move) (id : Text) (saved b : Bool)
    (after : List Move) (key : Text)
    → let f = forget (run (load disk) before) id saved in
      f.1 ≡ ok b → none_trusts id after ≡ true → is_trusted (run f.0 after) id key ≡ false
unfolding is_trusted
forgotten_stays disk before id saved b after key e n =
    let w = run (load disk) before in
    let y = run-Synced (load disk) before (load-Synced disk) in
    let f = forget w id saved in
    let g = run-Gone id f.0 after n (forget-Synced w id saved y) (forget-Done id w saved y b e) in
    ground (arith, g.0)
