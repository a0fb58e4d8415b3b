-- ===== src/Control/Auth/Pending.antt =====
-- Pending approvals: their creation, their resolution and their time.
use gemacast.Prelude.{
  ℕ, ◌-◌, ◌≤◌, ◌≡◌, refl, sym, ap, ◌∙◌, Option, none, some, Bool, false, not, ◌&&◌, arith, leb,
  if◌then◌else◌, ok,
}
use gemacast.Prelude.Assoc.{
  text_Eq, Text, text_eq, text_eq_refl, lookup, insert, retain, kept, lookup-insert, lookup-retain,
  Unique, insert-Unique, retain-Unique,
}
use gemacast.Control.Auth.{
  SessionAuthorizer, PendingApproval, pending, approved, rejected, prune_pending, create_pending,
  status_for, pending_status, is_pending, resolve_found, resolve_pending, with_pending,
}

-- A request as it stands at a time: gone once older than the time to live.
unfoldable pub request_at : SessionAuthorizer → Text → ℕ → Option PendingApproval
request_at a id now = kept (λ k r. leb (now - r.created_at) a.pending_ttl) id (lookup id a.pending)

pub lookup-prune_pending :
    (a : SessionAuthorizer) (now : ℕ) (id : Text)
    → Unique a.pending
    → lookup id (prune_pending a now).pending ≡ request_at a id now
unfolding prune_pending request_at
lookup-prune_pending a now id u = lookup-retain _ id a.pending u

-- The status that a device is told, while the lock is healthy and the request ids are unique: that of
-- its own request while it lives, and none for another device's request, an unknown or an expired one.
pub pending_status_lem :
    (a : SessionAuthorizer) (id device : Text) (now : ℕ)
    → a.poisoned ≡ false
    → Unique a.pending
    → (pending_status a id device now).1 ≡ status_for device (request_at a id now)
unfolding pending_status
pending_status_lem a id device now up u =
    simp up (ap (status_for device) (lookup-prune_pending a now id u))

abbrev pub undecided : Option PendingApproval → Bool
undecided none = false
undecided (some q) = is_pending q.status

abbrev pub decided : Bool → Option PendingApproval → Option PendingApproval
decided approve none = none
decided approve (some q) = some (record q { status = if approve then approved else rejected })

kept-kept :
    (ttl now : ℕ) (k : Text) (o : Option PendingApproval)
    → kept (λ j r. leb (now - r.created_at) ttl) k (kept (λ j r. leb (now - r.created_at) ttl) k o)
      ≡ kept (λ j r. leb (now - r.created_at) ttl) k o
kept-kept ttl now k none = refl
kept-kept ttl now k (some r) = ground arith

pruned_request :
    (a : SessionAuthorizer) (now : ℕ) (id : Text)
    → Unique a.pending
    → request_at (prune_pending a now) id now ≡ request_at a id now
unfolding request_at prune_pending
pruned_request a now id u =
    ap (kept (λ k r. leb (now - r.created_at) a.pending_ttl) id) (lookup-prune_pending a now id u)
    ∙ kept-kept a.pending_ttl now id (lookup id a.pending)

-- The resolution of the request that was looked up, on the pruned authorizer.
resolve_found_effect :
    (b : SessionAuthorizer) (id j : Text) (approve : Bool) (now : ℕ) (o : Option PendingApproval)
    → o ≡ lookup id b.pending
    → lookup id b.pending ≡ request_at b id now
    → ((resolve_found b id approve o).1 ≡ undecided o)
      × (request_at (resolve_found b id approve o).0 j now
          ≡ (if undecided o && text_eq id j then decided approve o else request_at b j now))
unfolding resolve_found request_at
resolve_found_effect b id j approve now none e live = (refl, refl)
resolve_found_effect b id j approve now (some r) e live = (
  ground arith,
  ground (
    arith,
    e,
    live,
    lookup-insert id j (record r { status = if approve then approved else rejected }) b.pending,
  ),
)

-- While the lock is healthy and the request ids are unique, a decision counts exactly if the request
-- lives and is undecided. Then its status becomes the decision and every other request stands as
-- before; else all requests do.
pub resolve_pending_effect :
    (a : SessionAuthorizer) (id j : Text) (approve : Bool) (now : ℕ)
    → a.poisoned ≡ false
    → Unique a.pending
    → let r = resolve_pending a id approve now in
      let q = request_at a id now in
      (r.1 ≡ undecided q)
      × (request_at r.0 j now
          ≡ (if undecided q && text_eq id j then decided approve q else request_at a j now))
unfolding resolve_pending
resolve_pending_effect a id j approve now up u =
    let found = lookup-prune_pending a now id u in
    let eff =
      resolve_found_effect (prune_pending a now) id j approve now (request_at a id now) (sym found)
        (found ∙ sym (pruned_request a now id u)) in
    simp up (rw found (rw (pruned_request a now j u) at eff))

resolve_found-Unique :
    (b : SessionAuthorizer) (id : Text) (approve : Bool) (o : Option PendingApproval)
    → Unique b.pending
    → Unique (resolve_found b id approve o).0.pending
unfolding resolve_found
resolve_found-Unique b id approve none u = u
resolve_found-Unique b id approve (some r) u = ground (
  arith,
  u,
  insert-Unique id (record r { status = if approve then approved else rejected }) b.pending u,
)

resolve_found-poisoned :
    (b : SessionAuthorizer) (id : Text) (approve : Bool) (o : Option PendingApproval)
    → (resolve_found b id approve o).0.poisoned ≡ b.poisoned
unfolding resolve_found
resolve_found-poisoned b id approve none = refl
resolve_found-poisoned b id approve (some r) = ground arith

poisoned-prune :
    (a : SessionAuthorizer) (now : ℕ) → a.poisoned ≡ false → (prune_pending a now).poisoned ≡ false
unfolding prune_pending
poisoned-prune a now up = up

prune_pending-Unique :
    (a : SessionAuthorizer) (now : ℕ) → Unique a.pending → Unique (prune_pending a now).pending
unfolding prune_pending
prune_pending-Unique a now u = retain-Unique _ a.pending u

resolve_pending-healthy :
    (a : SessionAuthorizer) (id : Text) (approve : Bool) (now : ℕ)
    → a.poisoned ≡ false
    → Unique a.pending
    → ((resolve_pending a id approve now).0.poisoned ≡ false)
      × Unique (resolve_pending a id approve now).0.pending
unfolding resolve_pending
resolve_pending-healthy a id approve now up u =
    let b = prune_pending a now in
    simp up (
      resolve_found-poisoned b id approve (lookup id b.pending) ∙ poisoned-prune a now up,
      resolve_found-Unique b id approve (lookup id b.pending) (prune_pending-Unique a now u),
    )

-- A request that lives later lives now.
undecided_earlier :
    (b : SessionAuthorizer) (id : Text) (now later : ℕ)
    → now ≤ later
    → undecided (request_at b id now) ≡ false
    → undecided (request_at b id later) ≡ false
unfolding request_at
undecided_earlier b id now later h e = ground arith

undecided-decided :
    (approve : Bool) (o : Option PendingApproval)
    → undecided (if undecided o then decided approve o else o) ≡ false
undecided-decided approve none = refl
undecided-decided approve (some q) = unfold is_pending in ground arith

-- While the lock is healthy and the request ids are unique, a second decision on a request, at the
-- time of the first or later, does not count, whatever the first one was.
pub resolve_pending_once :
    (a : SessionAuthorizer) (id : Text) (first second : Bool) (now later : ℕ)
    → a.poisoned ≡ false
    → Unique a.pending
    → now ≤ later
    → (resolve_pending (resolve_pending a id first now).0 id second later).1 ≡ false
resolve_pending_once a id first second now later up u h =
    let b = (resolve_pending a id first now).0 in
    let (up', u') = resolve_pending-healthy a id first now up u in
    let told = (resolve_pending_effect b id id second later up' u').0 in
    let after = (resolve_pending_effect a id id first now up u).1 in
    told
    ∙ undecided_earlier b id now later h (
        ap undecided after
        ∙ ground (arith, text_eq_refl id, undecided-decided first (request_at a id now)))

abbrev new_request : Text → ℕ → PendingApproval
new_request device now = record { device_id = device; status = pending; created_at = now }

filed_request :
    (b : SessionAuthorizer) (device id j : Text) (now : ℕ)
    → Unique b.pending
    → request_at
        (with_pending b (
          insert id
            (new_request device now)
            (retain (λ k q. not (text_eq q.device_id device)) b.pending)))
        j
        now
      ≡ (if text_eq id j
          then some (new_request device now)
          else kept (λ k q. not (text_eq q.device_id device)) j (request_at b j now))
unfolding request_at
filed_request b device id j now u = ground (
  arith,
  lookup-insert id j (new_request device now)
      (retain (λ k q. not (text_eq q.device_id device)) b.pending),
  lookup-retain (λ k q. not (text_eq q.device_id device)) j b.pending u,
)

-- A new request replaces the requests of its device, while the lock is healthy and the request ids
-- are unique: the id is returned and afterwards the request under it waits, the other requests of the
-- device are gone, and those of other devices stand.
pub create_pending_effect :
    (a : SessionAuthorizer) (device id j : Text) (now : ℕ)
    → a.poisoned ≡ false
    → Unique a.pending
    → let r = create_pending a device (some id) now in
      (r.1 ≡ ok id)
      × (request_at r.0 j now ≡ (
          if text_eq id j
          then some (record { device_id = device; status = pending; created_at = now })
          else kept (λ k q. not (text_eq q.device_id device)) j (request_at a j now)))
unfolding create_pending
create_pending_effect a device id j now up u = simp up (
  refl,
  filed_request (prune_pending a now) device id j now (prune_pending-Unique a now u)
      ∙ ap
          (λ (o : Option PendingApproval).
            if text_eq id j
            then some (new_request device now)
            else kept (λ k q. not (text_eq q.device_id device)) j o)
          (pruned_request a now j u),
)
