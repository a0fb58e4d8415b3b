-- ===== src/Pc/DeviceAuth/Pairings.antt =====
-- The pending pairings of gemacast-pc/src/device_auth.rs.
use gemacast.Prelude.{
  ℕ, ◌-◌, ◌≤◌, ◌≡◌, refl, Option, none, some, Bool, false, not, ◌&&◌, arith, ap, ◌∙◌, leb,
  if◌then◌else◌,
}
use gemacast.Prelude.Assoc.{
  text_Eq, Text, text_eq, Assoc, lookup, insert, retain, kept, Unique, lookup-insert, lookup-retain,
  insert-Unique, retain-Unique,
}
use gemacast.Pc.DeviceAuth.{
  DeviceAuthManager, PendingPairing, VerifiedDeviceIdentity, lives, pairing_lives,
  pending_pairing_ttl, prune_expired, hold_pending_pairing, pending_pairing,
  cancel_pending_for_device,
}

kept-kept :
    (now later : ℕ) (id : Text) (o : Option PendingPairing)
    → now ≤ later
    → kept (pairing_lives later) id (kept (pairing_lives now) id o)
      ≡ kept (pairing_lives later) id o
kept-kept now later id none h = refl
kept-kept now later id (some p) h = ground (arith, h)

-- Holding a pairing for a request. From then on that request gives the identity to the device and the
-- key it was held for, for 65 s, and nothing to others; other requests are answered as before. The
-- lock is not poisoned, the request ids are unique, and time does not go back.
pub pending_pairing-hold :
    (m : DeviceAuthManager) (id id' device device' key : Text) (identity : VerifiedDeviceIdentity)
    (now later : ℕ)
    → m.poisoned ≡ false
    → Unique m.pending_pairings
    → now ≤ later
    → (pending_pairing (hold_pending_pairing m id device identity now).0 id' device' key later).1
      ≡ (if text_eq id id'
          then if leb (later - now) pending_pairing_ttl
              && (text_eq device device' && text_eq identity.public_key key)
            then some identity
            else none
          else (pending_pairing m id' device' key later).1)
unfolding pending_pairing hold_pending_pairing prune_expired
pending_pairing-hold m id id' device device' key identity now later up u h =
    let held : PendingPairing = record {
      device_id = device;
      identity = identity;
      created_at = now;
    } in
    let pruned = retain (pairing_lives now) m.pending_pairings in
    let u' = retain-Unique (pairing_lives now) m.pending_pairings u in
    simp up (
      ground (
        arith,
        lookup-retain (pairing_lives later) id' (insert id held pruned)
            (insert-Unique id held pruned u'),
        lookup-insert id id' held pruned,
        lookup-retain (pairing_lives now) id' m.pending_pairings u,
        lookup-retain (pairing_lives later) id' m.pending_pairings u,
        kept-kept now later id' (lookup id' m.pending_pairings) h,
      ))

kept-both {ℓ} :
    {V : Type ℓ} (p q : Text → V → Bool) (id : Text) (o : Option V)
    → kept q id (kept p id o) ≡ kept (λ i v. p i v && q i v) id o
kept-both p q id none = refl
kept-both p q id (some v) = ground arith

both {ℓ} :
    {V : Type ℓ} (p q : Text → V → Bool) (id : Text) (m : Assoc V)
    → Unique m
    → lookup id (retain q (retain p m)) ≡ kept (λ i v. p i v && q i v) id (lookup id m)
both p q id m u =
    lookup-retain q id (retain p m) (retain-Unique p m u)
    ∙ ap (kept q id) (lookup-retain p id m u)
    ∙ kept-both p q id (lookup id m)

-- Cancelling what is pending for a device. Of the challenges, and likewise of the pairings, exactly
-- those stay that have not expired and belong to another device. The lock is not poisoned, and the
-- ids are unique.
pub cancel_pending_effect :
    (m : DeviceAuthManager) (device id : Text) (now : ℕ)
    → m.poisoned ≡ false
    → Unique m.challenges
    → Unique m.pending_pairings
    → let r = (cancel_pending_for_device m device now).0 in
      (lookup id r.challenges
        ≡ kept
            (λ i p. lives m.ttl now i p && not (text_eq p.device_id device))
            id
            (lookup id m.challenges))
      × (lookup id r.pending_pairings
          ≡ kept
              (λ i p. pairing_lives now i p && not (text_eq p.device_id device))
              id
              (lookup id m.pending_pairings))
unfolding cancel_pending_for_device prune_expired
cancel_pending_effect m device id now up u v = simp up (
  both (lives m.ttl now) (λ i p. not (text_eq p.device_id device)) id m.challenges u,
  both (pairing_lives now) (λ i p. not (text_eq p.device_id device)) id m.pending_pairings v,
)
