-- ===== src/Pc/Registry/Examples.antt =====
-- A registry with one phone.
use gemacast.Prelude.{ℕ, ◌≡◌, refl, [], ◌∷◌, none, false}
use gemacast.Prelude.Assoc.{text_Eq, Text, lookup, Unique}
use gemacast.Prelude.Addr.{SocketAddr}
use gemacast.Pc.Registry.{SharedMapDeviceRegistry, DiscoveredDevice, get_addr, evict_stale}
use gemacast.Pc.Registry.Laws.{fresh_addr, stale_addr, evict_stale_splits}

abbrev phone : Text
phone = 80 ∷ []

abbrev at : ℕ → SocketAddr
at port = record { ip = 10 ∷ 0 ∷ 0 ∷ 7 ∷ []; port = port }

abbrev device : ℕ → DiscoveredDevice
device port = record {
  device_id = phone;
  device_name = phone;
  addr = at port;
  last_seen = 100;
  is_offline = false;
  transport = none;
}

abbrev registry : SharedMapDeviceRegistry
registry = record { inner = (phone, device 4000) ∷ []; poisoned = false }

registry-Unique : Unique registry.inner
unfolding lookup
registry-Unique = (refl, tt)

evict_stale_splits_example :
    let e = evict_stale registry 30 200 in
    (get_addr e.0 phone ≡ fresh_addr 200 30 (lookup phone registry.inner))
    × (lookup phone e.1 ≡ stale_addr 200 30 (lookup phone registry.inner))
evict_stale_splits_example = evict_stale_splits registry 30 200 phone refl registry-Unique
