-- ===== src/Pc/Registry.antt =====
-- gemacast-pc/src/state.rs: the registry of connected devices. Times are microseconds, and `poisoned`
-- is the lock after a panic of a holder.
pub mod Laws
mod Examples
use gemacast.Prelude.{
  ℕ, ◌-◌, List, [], ◌∷◌, Option, none, some, Bool, true, false, not, ltb, if◌then◌else◌, is_some,
}
use gemacast.Prelude.Assoc.{text_Eq, Text, Assoc, lookup, insert, retain, remove}
use gemacast.Prelude.Addr.{SocketAddr, addr_eq}

-- The kinds of transport are numbered.
pub record DiscoveredDevice : Type 0 where
  pub device_id : Text
  pub device_name : Text
  pub addr : SocketAddr
  pub last_seen : ℕ
  pub is_offline : Bool
  pub transport : Option ℕ

pub data RegistrationOutcome : Type 0 where
  new_device already_registered : RegistrationOutcome
  address_changed : SocketAddr → RegistrationOutcome

pub record SharedMapDeviceRegistry : Type 0 where
  pub inner : Assoc DiscoveredDevice
  pub poisoned : Bool

abbrev pub new : SharedMapDeviceRegistry
new = record { inner = []; poisoned = false }

abbrev pub outcome_of : DiscoveredDevice → Option DiscoveredDevice → RegistrationOutcome
outcome_of device none = new_device
outcome_of device (some existing) =
    if not (addr_eq existing.addr device.addr)
    then address_changed existing.addr
    else already_registered

unfoldable pub register :
    SharedMapDeviceRegistry → DiscoveredDevice → SharedMapDeviceRegistry × RegistrationOutcome
register r device = if r.poisoned then (r, already_registered) else (
  record r { inner = insert device.device_id device r.inner },
  outcome_of device (lookup device.device_id r.inner),
)

unfoldable pub unregister :
    SharedMapDeviceRegistry → Text → SharedMapDeviceRegistry × Option DiscoveredDevice
unregister r id =
    if r.poisoned then (r, none) else (record r { inner = remove id r.inner }, lookup id r.inner)

-- The write through `get_mut`.
abbrev pub touch :
    SharedMapDeviceRegistry → Text → ℕ → Option DiscoveredDevice → SharedMapDeviceRegistry × Bool
touch r id now none = (r, false)
touch r id now (some device) =
    (record r { inner = insert id (record device { last_seen = now }) r.inner }, true)

unfoldable pub update_last_seen :
    SharedMapDeviceRegistry → Text → ℕ → SharedMapDeviceRegistry × Bool
update_last_seen r id now = if r.poisoned then (r, false) else touch r id now (lookup id r.inner)

abbrev pub addr_of : Option DiscoveredDevice → Option SocketAddr
addr_of none = none
addr_of (some d) = some d.addr

unfoldable pub get_addr : SharedMapDeviceRegistry → Text → Option SocketAddr
get_addr r id = if r.poisoned then none else addr_of (lookup id r.inner)

unfoldable pub all_devices : SharedMapDeviceRegistry → List (Text × DiscoveredDevice)
all_devices r = if r.poisoned then [] else r.inner

unfoldable pub drain_all :
    SharedMapDeviceRegistry → SharedMapDeviceRegistry × List (Text × DiscoveredDevice)
drain_all r = if r.poisoned then (r, []) else (record r { inner = [] }, r.inner)

abbrev pub is_stale : ℕ → ℕ → Text → DiscoveredDevice → Bool
is_stale now timeout id device = ltb timeout (now - device.last_seen)

-- What the closure of `retain` pushes.
unfoldable pub evicted : ℕ → ℕ → Assoc DiscoveredDevice → List (Text × SocketAddr)
evicted now timeout [] = []
evicted now timeout ((id, device) ∷ m) =
    let rest = evicted now timeout m in
    if is_stale now timeout id device then (id, device.addr) ∷ rest else rest

unfoldable pub evict_stale :
    SharedMapDeviceRegistry → ℕ → ℕ → SharedMapDeviceRegistry × List (Text × SocketAddr)
unfolding evicted
evict_stale r timeout now = if r.poisoned then (r, []) else (
  record r { inner = retain (λ id device. not (is_stale now timeout id device)) r.inner },
  evicted now timeout r.inner,
)
