-- ===== src/Pc/TrustedDevices/Saving.antt =====
-- The file that gemacast-pc/src/trusted_devices.rs saves, and the map that it loads from a file.
use gemacast.Prelude.{
  ◌≡◌, refl, List, [], ◌∷◌, Option, none, some, arith, if◌then◌else◌, ap, ◌∙◌, sym, Bool-cases, inl,
  inr,
}
use gemacast.Prelude.Assoc.{
  text_Eq, Text, text_eq, text_eq_iff, Assoc, lookup, insert, Unique, lookup-insert,
}
use gemacast.Prelude.Entries.{Every}
use gemacast.Pc.TrustedDevices.{TrustedDevice, collect, text_leb, insert_sorted, sorted_values}

-- The last device of a list with an id.
abbrev or_this : Option TrustedDevice → Option TrustedDevice → Option TrustedDevice
or_this none o = o
or_this (some d) o = some d

abbrev if_id : Text → TrustedDevice → Option TrustedDevice
if_id k d = if text_eq d.device_id k then some d else none

unfoldable find_last : Text → List TrustedDevice → Option TrustedDevice
find_last k [] = none
find_last k (d ∷ ds) = or_this (find_last k ds) (if_id k d)

lookup-collect :
    (k : Text) (m : Assoc TrustedDevice) (ds : List TrustedDevice)
    → lookup k (collect m ds) ≡ or_this (find_last k ds) (lookup k m)
unfolding collect find_last
lookup-collect k m [] = refl
lookup-collect k m (d ∷ ds) =
    ground (arith, lookup-collect k (insert d.device_id d m) ds, lookup-insert d.device_id k d m)

find_last-insert_sorted :
    (k : Text) (d : TrustedDevice) (ds : List TrustedDevice)
    → find_last d.device_id ds ≡ none
    → find_last k (insert_sorted d ds) ≡ or_this (find_last k ds) (if_id k d)
unfolding find_last insert_sorted
find_last-insert_sorted k d [] n = refl
find_last-insert_sorted k d (e ∷ es) n = elim (Bool-cases (text_leb d.device_id e.device_id)) [
  | inl t ↦ rw t refl
  | inr f ↦ rw f (
      ground (
        arith,
        find_last-insert_sorted k d es,
        text_eq_iff e.device_id d.device_id,
        text_eq_iff e.device_id k,
        text_eq_iff d.device_id k,
        n,
      ))
]

-- Each device stands under its own id.
abbrev pub IsKeyed : Assoc TrustedDevice → Type 0
IsKeyed = Every (λ k d. k ≡ d.device_id)

find_last-sorted_values :
    (k : Text) (m : Assoc TrustedDevice)
    → Unique m
    → IsKeyed m
    → find_last k (sorted_values m) ≡ lookup k m
unfolding find_last sorted_values lookup
find_last-sorted_values k [] u i = refl
find_last-sorted_values k ((j, d) ∷ m) u i =
    let absent : find_last d.device_id (sorted_values m) ≡ none =
      find_last-sorted_values d.device_id m u.1 i.1 ∙ ap (λ t. lookup t m) (sym i.0) ∙ u.0 in
    find_last-insert_sorted k d (sorted_values m) absent
    ∙ ground (
      arith,
      find_last-sorted_values k m u.1 i.1,
      text_eq_iff j k,
      text_eq_iff d.device_id k,
      ap (λ (t : Text). lookup t m) {x = j} {y = k},
      u.0,
      i.0,
    )

or_this-none : (o : Option TrustedDevice) → or_this o none ≡ o
or_this-none none = refl
or_this-none (some d) = refl

pub lookup-collect-sorted_values :
    (k : Text) (m : Assoc TrustedDevice)
    → Unique m
    → IsKeyed m
    → lookup k (collect [] (sorted_values m)) ≡ lookup k m
unfolding lookup
lookup-collect-sorted_values k m u i =
    lookup-collect k [] (sorted_values m)
    ∙ or_this-none (find_last k (sorted_values m))
    ∙ find_last-sorted_values k m u i
