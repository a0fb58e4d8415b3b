-- ===== src/Pc/Registry/Laws.antt =====
-- What registering, probing and evicting do to the answers of the registry.
use gemacast.Prelude.{
  ℕ, ◌-◌, ◌≤◌, ◌≡◌, refl, [], ◌∷◌, Option, none, some, false, not, arith, if◌then◌else◌, ap, ◌∙◌,
}
use gemacast.Prelude.Assoc.{
  text_Eq, Text, text_eq, text_eq_iff, text_eq_refl, Assoc, lookup, kept, Unique, lookup-insert,
  lookup-retain, insert-Unique,
}
use gemacast.Prelude.Addr.{SocketAddr, addr_eq}
use gemacast.Pc.Registry.{
  SharedMapDeviceRegistry, DiscoveredDevice, RegistrationOutcome, new_device, already_registered,
  address_changed, touch, register, outcome_of, update_last_seen, get_addr, addr_of, is_stale,
  evicted, evict_stale,
}

abbrev pub stale_addr : ℕ → ℕ → Option DiscoveredDevice → Option SocketAddr
stale_addr now timeout none = none
stale_addr now timeout (some d) = if is_stale now timeout d.device_id d then some d.addr else none

abbrev pub fresh_addr : ℕ → ℕ → Option DiscoveredDevice → Option SocketAddr
fresh_addr now timeout none = none
fresh_addr now timeout (some d) = if is_stale now timeout d.device_id d then none else some d.addr

lookup-evicted :
    (now timeout : ℕ) (id : Text) (m : Assoc DiscoveredDevice)
    → Unique m
    → lookup id (evicted now timeout m) ≡ stale_addr now timeout (lookup id m)
unfolding lookup evicted
lookup-evicted now timeout id [] u = refl
lookup-evicted now timeout id ((j, d) ∷ m) u = ground (
  arith,
  text_eq_iff j id,
  lookup-evicted now timeout id m u.1,
  u.0,
  ap (λ (t : Text). lookup t m) {x = j} {y = id},
)

addr-kept :
    (now timeout : ℕ) (id : Text) (o : Option DiscoveredDevice)
    → addr_of (kept (λ i d. not (is_stale now timeout i d)) id o) ≡ fresh_addr now timeout o
addr-kept now timeout id none = refl
addr-kept now timeout id (some d) = ground arith

-- Evicting splits the registry: a device that was last seen longer ago than the timeout is
-- reported with its address and has none afterwards; every other device keeps its address and is
-- not reported. The lock is not poisoned, and the ids are unique, as in a hash map.
pub evict_stale_splits :
    (r : SharedMapDeviceRegistry) (timeout now : ℕ) (id : Text)
    → r.poisoned ≡ false
    → Unique r.inner
    → let e = evict_stale r timeout now in
      (get_addr e.0 id ≡ fresh_addr now timeout (lookup id r.inner))
      × (lookup id e.1 ≡ stale_addr now timeout (lookup id r.inner))
unfolding evict_stale get_addr
evict_stale_splits r timeout now id up u = simp up (
  ap addr_of (lookup-retain (λ i d. not (is_stale now timeout i d)) id r.inner u)
      ∙ addr-kept now timeout id (lookup id r.inner),
  lookup-evicted now timeout id r.inner u,
)

touched :
    (r : SharedMapDeviceRegistry) (timeout seen now : ℕ) (id : Text)
    → r.poisoned ≡ false
    → Unique r.inner
    → now - seen ≤ timeout
    → (o : Option DiscoveredDevice) → lookup id r.inner ≡ o
    → get_addr (evict_stale (touch r id seen o).0 timeout now).0 id ≡ addr_of o
touched r timeout seen now id up u h none e =
    (evict_stale_splits r timeout now id up u).0 ∙ ap (fresh_addr now timeout) e
touched r timeout seen now id up u h (some d) e =
    let seen_now : DiscoveredDevice = record d { last_seen = seen } in
    (evict_stale_splits (touch r id seen (some d)).0 timeout now id up
      (insert-Unique id seen_now r.inner u)).0
    ∙ ground (arith, lookup-insert id id seen_now r.inner, text_eq_refl id, h)

-- A device that probed within the timeout is not evicted: it keeps its
-- address. The lock is not poisoned, and the ids are unique.
pub evict_stale-update_last_seen :
    (r : SharedMapDeviceRegistry) (timeout seen now : ℕ) (id : Text)
    → r.poisoned ≡ false
    → Unique r.inner
    → now - seen ≤ timeout
    → get_addr (evict_stale (update_last_seen r id seen).0 timeout now).0 id ≡ get_addr r id
unfolding evict_stale update_last_seen get_addr
evict_stale-update_last_seen r timeout seen now id up u h =
    simp up (touched r timeout seen now id up u h (lookup id r.inner) refl)

abbrev pub outcome_of_addr : SocketAddr → Option SocketAddr → RegistrationOutcome
outcome_of_addr addr none = new_device
outcome_of_addr addr (some old) =
    if addr_eq old addr then already_registered else address_changed old

known :
    (d : DiscoveredDevice) (o : Option DiscoveredDevice)
    → outcome_of d o ≡ outcome_of_addr d.addr (addr_of o)
known d none = refl
known d (some old) = ground arith

-- Registering a device. Its address is known from then on and the other devices' addresses stay. The
-- outcome tells whether the device was unknown, known at this address, or known at another, which
-- it names. The lock is not poisoned.
pub register_effect :
    (r : SharedMapDeviceRegistry) (d : DiscoveredDevice) (id : Text)
    → r.poisoned ≡ false
    → let e = register r d in
      (get_addr e.0 id ≡ (if text_eq d.device_id id then some d.addr else get_addr r id))
      × (e.1 ≡ outcome_of_addr d.addr (get_addr r d.device_id))
unfolding register get_addr
register_effect r d id up =
    simp up
      (ground (arith, lookup-insert d.device_id id d r.inner), known d (lookup d.device_id r.inner))
