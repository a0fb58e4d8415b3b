-- ===== src/Control/Auth.antt =====
-- gemacast-core/src/control/auth.rs: session tokens and pending approvals. A device id, a token and
-- a request id are texts, given by their bytes. What `getrandom` and `hex::encode` give is an
-- argument (`none` is a failure), and so is the time. `poisoned` is the lock after a panic of a
-- holder.
pub mod Tokens
pub mod Sessions
pub mod Generations
pub mod Pending
mod Examples
use Prim.Native.Nat.{bit_or, bit_xor}
use gemacast.Prelude.{
  ℕ, ◌+◌, ◌-◌, ◌%◌, ◌^◌, List, [], ◌∷◌, Option, none, some, Bool, true, false, not, ◌&&◌, max, leb,
  ◌==◌, if◌then◌else◌, length, is_some, Result, ok, err,
}
use gemacast.Prelude.Assoc.{text_Eq, Text, Assoc, text_eq, lookup, insert, remove, retain}

pub record AuthorizedSession : Type 0 where
  pub device_id : Text
  pub generation : ℕ

pub record PendingSession : Type 0 where
  pub device_id : Text
  pub token : Text
  pub generation : ℕ

pub record SessionRecord : Type 0 where
  pub token : Text
  pub generation : ℕ

pub data PendingApprovalStatus : Type 0 where
  pending approved rejected : PendingApprovalStatus

pub record PendingApproval : Type 0 where
  pub device_id : Text
  pub status : PendingApprovalStatus
  pub created_at : ℕ

pub record AuthorizationState : Type 0 where
  pub sessions : Assoc SessionRecord
  pub pending : Assoc PendingApproval
  pub next_generation : ℕ

-- 65 s, in microseconds.
abbrev pub pending_approval_ttl : ℕ
pending_approval_ttl = 65_000_000

pub record SessionAuthorizer : Type 0 where
  pub state : AuthorizationState
  pub open state use {sessions, pending, next_generation}
  pub pending_ttl : ℕ
  pub poisoned : Bool

pub new : SessionAuthorizer
new = record {
  state = record { sessions = []; pending = []; next_generation = 0 };
  pending_ttl = pending_approval_ttl;
  poisoned = false;
}

pub data AuthError : Type 0 where
  rng_failed unavailable : AuthError

abbrev pub with_sessions : SessionAuthorizer → Assoc SessionRecord → SessionAuthorizer
with_sessions a s = record a { state = record a.state { sessions = s } }

abbrev pub with_pending : SessionAuthorizer → Assoc PendingApproval → SessionAuthorizer
with_pending a p = record a { state = record a.state { pending = p } }

-- `Instant::elapsed` does not go below zero.
pub prune_pending : SessionAuthorizer → ℕ → SessionAuthorizer
prune_pending a now =
    with_pending a (retain (λ id r. leb (now - r.created_at) a.pending_ttl) a.pending)

pub create_pending :
    SessionAuthorizer → Text → Option Text → ℕ → SessionAuthorizer × Result AuthError Text
create_pending a device_id none now = (a, err rng_failed)
create_pending a device_id (some request_id) now = if a.poisoned then (a, err unavailable) else (
  let pruned = prune_pending a now in
      with_pending pruned (
        insert request_id (record { device_id = device_id; status = pending; created_at = now })
          (retain (λ id r. not (text_eq r.device_id device_id)) pruned.pending)),
  ok request_id,
)

abbrev pub status_for : Text → Option PendingApproval → Option PendingApprovalStatus
status_for device_id none = none
status_for device_id (some r) = if text_eq r.device_id device_id then some r.status else none

pub pending_status :
    SessionAuthorizer → Text → Text → ℕ → SessionAuthorizer × Option PendingApprovalStatus
pending_status a request_id device_id now = if a.poisoned then (a, none) else (
  prune_pending a now,
  status_for device_id (lookup request_id (prune_pending a now).pending),
)

pub is_pending : PendingApprovalStatus → Bool
is_pending pending = true
is_pending approved = false
is_pending rejected = false

-- `get_mut` and the write through it.
pub resolve_found :
    SessionAuthorizer → Text → Bool → Option PendingApproval → SessionAuthorizer × Bool
resolve_found a request_id approve none = (a, false)
resolve_found a request_id approve (some r) =
    if is_pending r.status
    then (
      with_pending a (
          insert request_id (record r { status = if approve then approved else rejected })
            a.pending),
      true,
    )
    else (a, false)

pub resolve_pending : SessionAuthorizer → Text → Bool → ℕ → SessionAuthorizer × Bool
unfolding resolve_found is_pending
resolve_pending a request_id approve now =
    if a.poisoned
    then (a, false)
    else resolve_found (prune_pending a now) request_id approve
        (lookup request_id (prune_pending a now).pending)

pub remove_pending : SessionAuthorizer → Text → SessionAuthorizer
remove_pending a request_id = if a.poisoned then a else with_pending a (remove request_id a.pending)

pub cancel_pending_for_device : SessionAuthorizer → Text → ℕ → SessionAuthorizer × ℕ
cancel_pending_for_device a device_id now =
    if a.poisoned
    then (a, 0)
    else (let pruned = prune_pending a now in
        let left = retain (λ id r. not (text_eq r.device_id device_id)) pruned.pending in
        (with_pending pruned left, length pruned.pending - length left))

-- `wrapping_add(1).max(1)` on a `u64`.
abbrev pub next : ℕ → ℕ
next g = max ((g + 1) % 2 ^ 64) 1

pub prepare :
    SessionAuthorizer → Text → Option Text → SessionAuthorizer × Result AuthError PendingSession
prepare a device_id none = (a, err rng_failed)
prepare a device_id (some token) = if a.poisoned then (a, err unavailable) else (
  record a { state = record a.state { next_generation = next a.next_generation } },
  ok (record { device_id = device_id; token = token; generation = next a.next_generation }),
)

pub commit : SessionAuthorizer → PendingSession → SessionAuthorizer × Result AuthError (Text × ℕ)
commit a p = if a.poisoned then (a, err unavailable) else (
  with_sessions a
      (insert p.device_id (record { token = p.token; generation = p.generation }) a.sessions),
  ok (p.token, p.generation),
)

abbrev pub commit_prepared :
    SessionAuthorizer
    → Result AuthError PendingSession
    → SessionAuthorizer × Result AuthError (Text × ℕ)
commit_prepared a (ok p) = commit a p
commit_prepared a (err e) = (a, err e)

pub issue : SessionAuthorizer → Text → Option Text → SessionAuthorizer × Result AuthError (Text × ℕ)
unfolding commit prepare
issue a device_id token = let (a', r) = prepare a device_id token in commit_prepared a' r

-- The fold over the pairs of bytes.
pub difference : ℕ → Text → Text → ℕ
difference d (x ∷ xs) (y ∷ ys) = difference (bit_or d (bit_xor x y)) xs ys
difference d _ _ = d

pub constant_time_eq : Text → Text → Bool
unfolding difference
constant_time_eq left right =
    if not (length left == length right) then false else difference 0 left right == 0

abbrev pub matched : Text → Text → Option SessionRecord → Option AuthorizedSession
matched device_id token none = none
matched device_id token (some r) =
    if constant_time_eq r.token token
    then some (record { device_id = device_id; generation = r.generation })
    else none

pub authenticate : SessionAuthorizer → Text → Text → Option AuthorizedSession
authenticate a device_id token =
    if a.poisoned then none else matched device_id token (lookup device_id a.sessions)

pub find_token : Text → Assoc SessionRecord → Option AuthorizedSession
find_token token [] = none
find_token token ((device_id, r) ∷ m) =
    if constant_time_eq r.token token
    then some (record { device_id = device_id; generation = r.generation })
    else find_token token m

pub authenticate_token : SessionAuthorizer → Text → Option AuthorizedSession
unfolding find_token
authenticate_token a token = if a.poisoned then none else find_token token a.sessions

abbrev pub has_generation : ℕ → Option SessionRecord → Bool
has_generation g none = false
has_generation g (some r) = r.generation == g

pub is_current : SessionAuthorizer → Text → ℕ → Bool
is_current a device_id generation =
    if a.poisoned then false else has_generation generation (lookup device_id a.sessions)

pub has_session : SessionAuthorizer → Text → Bool
has_session a device_id = if a.poisoned then false else is_some (lookup device_id a.sessions)

-- `generation.is_some_and(|g| sessions.get(device_id).map(|r| r.generation) != Some(g))`
abbrev pub is_stale : Option ℕ → Option SessionRecord → Bool
is_stale none r = false
is_stale (some g) r = not (has_generation g r)

pub revoke : SessionAuthorizer → Text → Option ℕ → SessionAuthorizer × Bool
revoke a device_id generation =
    if a.poisoned
    then (a, false)
    else if is_stale generation (lookup device_id a.sessions)
    then (a, false)
    else (with_sessions a (remove device_id a.sessions), is_some (lookup device_id a.sessions))

pub revoke_all : SessionAuthorizer → SessionAuthorizer
revoke_all a =
    if a.poisoned then a else record a { state = record a.state { sessions = []; pending = [] } }
