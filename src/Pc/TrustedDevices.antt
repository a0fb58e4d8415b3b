-- ===== src/Pc/TrustedDevices.antt =====
-- gemacast-pc/src/trusted_devices.rs: the devices that the computer trusts, in memory and on disk. The
-- file is what `serde_json` reads from it (`none` if that fails), and whether a write reaches the
-- disk is an argument: `save_state` renames a complete file, so that else the old one stays.
-- `load` gets the file as it is on disk: a read that fails although the file is there is not modelled,
-- and `serde_json` reads back what it wrote.
pub mod Saving
pub mod Trust
pub mod Restart
pub mod Forgotten
pub mod Effects
mod Examples
use gemacast.Prelude.{
  ℕ, List, [], ◌∷◌, Option, none, some, Bool, true, false, not, ◌&&◌, ◌||◌, ltb, ◌==◌,
  if◌then◌else◌, is_some, Result, ok, err,
}
use gemacast.Prelude.Assoc.{text_Eq, Text, text_eq, Assoc, lookup, insert, remove}
use gemacast.Control.Auth.{constant_time_eq}

pub record TrustedDevice : Type 0 where
  pub device_id : Text
  pub device_name : Text
  pub public_key : Text

pub record TrustedDeviceFile : Type 0 where
  pub pc_certificate_fingerprint : Option Text
  pub devices : List TrustedDevice

-- A set is a map to nothing.
pub record TrustedDeviceState : Type 0 where
  pub pc_certificate_fingerprint : Option Text
  pub devices : Assoc TrustedDevice
  pub revoked : Assoc (Unit {0})

-- The store with its file. `has_path` is false for a store in memory only.
pub record TrustedDeviceStore : Type 0 where
  pub has_path : Bool
  pub state : TrustedDeviceState
  pub open state use {pc_certificate_fingerprint, devices, revoked}
  pub disk : Option TrustedDeviceFile
  pub poisoned : Bool

pub data StoreError : Type 0 where
  unavailable not_bound not_saved : StoreError

-- `collect` into a map: the last entry for a key stays.
unfoldable pub collect : Assoc TrustedDevice → List TrustedDevice → Assoc TrustedDevice
collect m [] = m
collect m (d ∷ ds) = collect (insert d.device_id d m) ds

-- `unwrap_or_default`
abbrev pub file_or_default : Option TrustedDeviceFile → TrustedDeviceFile
file_or_default none = record { pc_certificate_fingerprint = none; devices = [] }
file_or_default (some file) = file

unfoldable pub load : Option TrustedDeviceFile → TrustedDeviceStore
unfolding collect
load disk = record {
  has_path = true;
  state = record {
    pc_certificate_fingerprint = (file_or_default disk).pc_certificate_fingerprint;
    devices = collect [] (file_or_default disk).devices;
    revoked = [];
  };
  disk = disk;
  poisoned = false;
}

-- The order of strings.
unfoldable pub text_leb : Text → Text → Bool
text_leb [] t = true
text_leb (x ∷ s) [] = false
text_leb (x ∷ s) (y ∷ t) = ltb x y || (x == y && text_leb s t)

unfoldable pub insert_sorted : TrustedDevice → List TrustedDevice → List TrustedDevice
insert_sorted d [] = d ∷ []
insert_sorted d (e ∷ es) =
    if text_leb d.device_id e.device_id then d ∷ e ∷ es else e ∷ insert_sorted d es

-- `sort_by` on the values of the map.
unfoldable pub sorted_values : Assoc TrustedDevice → List TrustedDevice
unfolding insert_sorted text_leb
sorted_values [] = []
sorted_values ((k, d) ∷ m) = insert_sorted d (sorted_values m)

unfoldable pub file_of : TrustedDeviceState → TrustedDeviceFile
unfolding sorted_values
file_of s = record {
  pc_certificate_fingerprint = s.pc_certificate_fingerprint;
  devices = sorted_values s.devices;
}

-- `if let Some(path) = path && let Err(error) = save_state(path, &state)`: the disk afterwards, and
-- whether the operation goes on.
abbrev pub save_state :
    TrustedDeviceStore → TrustedDeviceState → Bool → Option TrustedDeviceFile × Bool
save_state w s saved =
    if not w.has_path
    then (w.disk, true)
    else if saved
    then (some (file_of s), true)
    else (w.disk, false)

abbrev pub with_state :
    TrustedDeviceStore → TrustedDeviceState → Option TrustedDeviceFile → TrustedDeviceStore
with_state w s disk = record w { state = s; disk = disk }

-- The rest of an operation, once it was saved or not.
abbrev pub finish {ℓ} :
    {A : Type ℓ}
    → TrustedDeviceStore
    → TrustedDeviceState
    → TrustedDeviceState
    → A
    → Option TrustedDeviceFile × Bool
    → TrustedDeviceStore × Result StoreError A
finish w s undo a (disk, true) = (with_state w s disk, ok a)
finish w s undo a (disk, false) = (with_state w undo disk, err not_saved)

abbrev pub text_is : Option Text → Text → Bool
text_is none t = false
text_is (some s) t = text_eq s t

abbrev pub bound_to : Text → TrustedDeviceState
bound_to fingerprint = record {
  pc_certificate_fingerprint = some fingerprint;
  devices = [];
  revoked = [];
}

unfoldable pub bind_pc_identity :
    TrustedDeviceStore → Text → Bool → TrustedDeviceStore × Result StoreError (Unit {0})
unfolding file_of
bind_pc_identity w fingerprint saved =
    if w.poisoned
    then (w, err unavailable)
    else if text_is w.pc_certificate_fingerprint fingerprint
    then (w, ok tt)
    else finish w (bound_to fingerprint) w.state tt (save_state w (bound_to fingerprint) saved)

abbrev pub key_matches : Text → Option TrustedDevice → Bool
key_matches public_key none = false
key_matches public_key (some d) = constant_time_eq d.public_key public_key

unfoldable pub is_trusted : TrustedDeviceStore → Text → Text → Bool
is_trusted w id public_key =
    if w.poisoned
    then false
    else if is_some (lookup id w.revoked)
    then false
    else key_matches public_key (lookup id w.devices)

abbrev pub key_of : Option TrustedDevice → Option Text
key_of none = none
key_of (some d) = some d.public_key

unfoldable pub public_key_of : TrustedDeviceStore → Text → Option Text
public_key_of w id =
    if w.poisoned
    then none
    else if is_some (lookup id w.revoked)
    then none
    else key_of (lookup id w.devices)

abbrev pub put_back : Text → Option TrustedDevice → Assoc TrustedDevice → Assoc TrustedDevice
put_back id none m = remove id m
put_back id (some d) m = insert id d m

abbrev pub trusting : TrustedDeviceState → TrustedDevice → TrustedDeviceState
trusting s d = record s {
  devices = insert d.device_id d s.devices;
  revoked = remove d.device_id s.revoked;
}

-- What `trust` undoes when the state is not saved.
abbrev pub undone : TrustedDeviceState → TrustedDeviceState → TrustedDevice → TrustedDeviceState
undone s trusted d = record trusted {
  devices = put_back d.device_id (lookup d.device_id s.devices) trusted.devices;
  revoked =
      if is_some (lookup d.device_id s.revoked)
      then insert d.device_id tt trusted.revoked
      else trusted.revoked;
}

unfoldable pub trust :
    TrustedDeviceStore → TrustedDevice → Bool → TrustedDeviceStore × Result StoreError (Unit {0})
unfolding file_of
trust w d saved =
    if w.poisoned
    then (w, err unavailable)
    else if not (is_some w.pc_certificate_fingerprint)
    then (w, err not_bound)
    else finish w (trusting w.state d) (undone w.state (trusting w.state d) d) tt
        (save_state w (trusting w.state d) saved)

-- The state while `forget` saves.
abbrev pub forgetting : TrustedDeviceState → Text → TrustedDeviceState
forgetting s id = record s { devices = remove id s.devices; revoked = insert id tt s.revoked }

abbrev pub unrevoked : TrustedDeviceState → Text → TrustedDeviceState
unrevoked s id = record s { revoked = remove id s.revoked }

unfoldable pub forget :
    TrustedDeviceStore → Text → Bool → TrustedDeviceStore × Result StoreError Bool
unfolding file_of
forget w id saved =
    if w.poisoned
    then (w, err unavailable)
    else if not (is_some (lookup id w.devices)) && not (is_some (lookup id w.revoked))
    then (with_state w (unrevoked (forgetting w.state id) id) w.disk, ok false)
    else finish w (unrevoked (forgetting w.state id) id) (forgetting w.state id) true
        (save_state w (forgetting w.state id) saved)
