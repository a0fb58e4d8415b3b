-- ===== src/Pc/TrustedDevices/Trust.antt =====
-- The states that the operations pass through: what is found in them for each id.
use gemacast.Prelude.{
  ◌≡◌, refl, List, [], ◌∷◌, Option, none, some, Option-cases, inl, inr, true, arith, ap, ◌∙◌, sym,
  is_some, if_elim,
}
use gemacast.Prelude.Assoc.{
  text_Eq, Text, text_eq_iff, Assoc, lookup, insert, remove, Unique, lookup-insert, lookup-remove,
  insert-Unique, remove-Unique,
}
use gemacast.Prelude.Entries.{Every-insert, Every-remove, Every-lookup}
use gemacast.Pc.TrustedDevices.{
  TrustedDevice, TrustedDeviceFile, TrustedDeviceState, collect, file_or_default, file_of, trusting,
  undone, put_back, forgetting, unrevoked,
}
use gemacast.Pc.TrustedDevices.Saving.{IsKeyed, lookup-collect-sorted_values}

-- A revoked device is not among the devices.
pub record Sound (s : TrustedDeviceState) : Type 0 where
  pub unique : Unique s.devices
  pub keyed : IsKeyed s.devices
  pub unique_revoked : Unique s.revoked
  pub revoked_gone : (k : Text) → is_some (lookup k s.revoked) ≡ true → lookup k s.devices ≡ none

-- The file has the devices of the memory, but for those that are revoked.
abbrev pub Agrees : TrustedDeviceState → Option TrustedDeviceFile → Type 0
Agrees s disk =
    (k : Text)
    → lookup k s.revoked ≡ none
    → lookup k (collect [] (file_or_default disk).devices) ≡ lookup k s.devices

IsKeyed-at :
    (d : TrustedDevice) (m : Assoc TrustedDevice) → IsKeyed m → IsKeyed (insert d.device_id d m)
IsKeyed-at d m i =
    Every-insert (λ (k : Text) (e : TrustedDevice). k ≡ e.device_id) d.device_id d m i refl

pub IsKeyed-remove : (id : Text) (m : Assoc TrustedDevice) → IsKeyed m → IsKeyed (remove id m)
IsKeyed-remove id m i = Every-remove (λ (k : Text) (e : TrustedDevice). k ≡ e.device_id) id m i

pub collect-Unique :
    (m : Assoc TrustedDevice) (ds : List TrustedDevice) → Unique m → Unique (collect m ds)
unfolding collect
collect-Unique m [] u = u
collect-Unique m (d ∷ ds) u =
    collect-Unique (insert d.device_id d m) ds (insert-Unique d.device_id d m u)

pub collect-IsKeyed :
    (m : Assoc TrustedDevice) (ds : List TrustedDevice) → IsKeyed m → IsKeyed (collect m ds)
unfolding collect
collect-IsKeyed m [] i = i
collect-IsKeyed m (d ∷ ds) i = collect-IsKeyed (insert d.device_id d m) ds (IsKeyed-at d m i)

pub saved-lookup :
    (t : TrustedDeviceState) (k : Text)
    → Sound t
    → lookup k (collect [] (file_of t).devices) ≡ lookup k t.devices
unfolding file_of
saved-lookup t k w = lookup-collect-sorted_values k t.devices w.unique w.keyed

-- A state that was saved, and one with the same devices.
pub saved-Agrees :
    (s t : TrustedDeviceState)
    → Sound t
    → ((k : Text) → lookup k t.devices ≡ lookup k s.devices)
    → Agrees s (some (file_of t))
saved-Agrees s t w same k r = saved-lookup t k w ∙ same k

pub trusting-Sound : (s : TrustedDeviceState) (d : TrustedDevice) → Sound s → Sound (trusting s d)
trusting-Sound s d w = record {
  unique = insert-Unique d.device_id d s.devices w.unique;
  keyed = IsKeyed-at d s.devices w.keyed;
  unique_revoked = remove-Unique d.device_id s.revoked w.unique_revoked;
  revoked_gone = λ k r. ground (
    arith,
    lookup-insert d.device_id k d s.devices,
    lookup-remove d.device_id k s.revoked w.unique_revoked,
    w.revoked_gone k,
    r,
  );
}

-- Undoing gives back what was found for every id.
pub undone-devices :
    (s : TrustedDeviceState) (d : TrustedDevice) (k : Text)
    → Sound s
    → lookup k (undone s (trusting s d) d).devices ≡ lookup k s.devices
undone-devices s d k w = elim (Option-cases (lookup d.device_id s.devices)) [
  | inl n ↦
      ap (λ o. lookup k (put_back d.device_id o (insert d.device_id d s.devices))) n
      ∙ ground (
        arith,
        lookup-remove d.device_id k (insert d.device_id d s.devices)
            (insert-Unique d.device_id d s.devices w.unique),
        lookup-insert d.device_id k d s.devices,
        text_eq_iff d.device_id k,
        ap (λ (t : Text). lookup t s.devices) {x = d.device_id} {y = k},
        n,
      )
  | inr (e, f) ↦
      ap (λ o. lookup k (put_back d.device_id o (insert d.device_id d s.devices))) f
      ∙ ground (
        arith,
        lookup-insert d.device_id k e (insert d.device_id d s.devices),
        lookup-insert d.device_id k d s.devices,
        text_eq_iff d.device_id k,
        ap (λ (t : Text). lookup t s.devices) {x = d.device_id} {y = k},
        f,
      )
]

pub undone-revoked :
    (s : TrustedDeviceState) (d : TrustedDevice) (k : Text)
    → Sound s
    → is_some (lookup k (undone s (trusting s d) d).revoked) ≡ is_some (lookup k s.revoked)
undone-revoked s d k w = ground (
  arith,
  lookup-insert d.device_id k tt (remove d.device_id s.revoked),
  lookup-remove d.device_id k s.revoked w.unique_revoked,
  text_eq_iff d.device_id k,
  ap (λ (t : Text). lookup t s.revoked) {x = d.device_id} {y = k},
)

put_back-Unique :
    (id : Text) (o : Option TrustedDevice) (m : Assoc TrustedDevice)
    → Unique m
    → Unique (put_back id o m)
put_back-Unique id none m u = remove-Unique id m u
put_back-Unique id (some e) m u = insert-Unique id e m u

put_back-IsKeyed :
    (id : Text) (o : Option TrustedDevice) (m : Assoc TrustedDevice)
    → ((e : TrustedDevice) → o ≡ some e → id ≡ e.device_id)
    → IsKeyed m
    → IsKeyed (put_back id o m)
put_back-IsKeyed id none m own i = IsKeyed-remove id m i
put_back-IsKeyed id (some e) m own i =
    Every-insert (λ (k : Text) (e : TrustedDevice). k ≡ e.device_id) id e m i (own e refl)

pub undone-Sound :
    (s : TrustedDeviceState) (d : TrustedDevice) → Sound s → Sound (undone s (trusting s d) d)
undone-Sound s d w = record {
  unique = put_back-Unique d.device_id _ _ (insert-Unique d.device_id d s.devices w.unique);
  keyed =
      put_back-IsKeyed d.device_id _ _
        (λ e f.
          Every-lookup (λ (k : Text) (e : TrustedDevice). k ≡ e.device_id) d.device_id e s.devices
            w.keyed f)
        (IsKeyed-at d s.devices w.keyed);
  unique_revoked =
      (let gone = remove-Unique d.device_id s.revoked w.unique_revoked in
        if_elim Unique (is_some (lookup d.device_id s.revoked)) _ _
          (λ _. insert-Unique d.device_id tt (remove d.device_id s.revoked) gone) (λ _. gone));
  revoked_gone =
      λ k r. undone-devices s d k w ∙ w.revoked_gone k (sym (undone-revoked s d k w) ∙ r);
}

pub forgetting-Sound : (s : TrustedDeviceState) (id : Text) → Sound s → Sound (forgetting s id)
forgetting-Sound s id w = record {
  unique = remove-Unique id s.devices w.unique;
  keyed = IsKeyed-remove id s.devices w.keyed;
  unique_revoked = insert-Unique id tt s.revoked w.unique_revoked;
  revoked_gone = λ k r. ground (
    arith,
    lookup-remove id k s.devices w.unique,
    lookup-insert id k tt s.revoked,
    w.revoked_gone k,
    r,
  );
}

pub unrevoked-Sound : (s : TrustedDeviceState) (id : Text) → Sound s → Sound (unrevoked s id)
unrevoked-Sound s id w = record {
  unique = w.unique;
  keyed = w.keyed;
  unique_revoked = remove-Unique id s.revoked w.unique_revoked;
  revoked_gone =
      λ k r. ground (arith, lookup-remove id k s.revoked w.unique_revoked, w.revoked_gone k, r);
}
