-- ===== src/Control/Auth/Sessions.antt =====
-- Sessions: `issue`, `revoke` and what they do to the answers.
use gemacast.Prelude.{
  ℕ, ◌+◌, ◌≤◌, ◌≡◌, List, [], ◌∷◌, Option, none, some, Option-cases, inl, inr, Bool, true, false,
  ◌&&◌, arith, ◌==◌, if◌then◌else◌, ok,
}
use gemacast.Prelude.Bytes.{IsBytes}
use gemacast.Prelude.Assoc.{
  text_Eq, Text, Assoc, text_eq, lookup, insert, remove, lookup-insert, lookup-remove, Unique,
}
use gemacast.Control.Auth.{
  SessionAuthorizer, SessionRecord, AuthorizedSession, PendingSession, next, prepare, commit, issue,
  authenticate, is_current, revoke,
}
use gemacast.Control.Auth.Tokens.{constant_time_eq-text_eq}

-- Issuing a session to a device. The new token, and no other, authenticates the device from then on,
-- under the new generation, which alone is current for it; the sessions of other devices are as
-- before. Tokens are byte strings, and the lock is not poisoned.
pub issue_effect :
    (a : SessionAuthorizer) (device token : Text)
    → a.poisoned ≡ false
    → IsBytes token
    → let r = issue a device (some token) in
      let g = next a.next_generation in
      (r.1 ≡ ok (token, g))
      × ((d t : Text)
          → IsBytes t
          → authenticate r.0 d t ≡ (
              if text_eq device d
              then if text_eq token t then some (record { device_id = d; generation = g }) else none
              else authenticate a d t))
      × ((d : Text) (h : ℕ)
          → is_current r.0 d h ≡ (if text_eq device d then g == h else is_current a d h))
unfolding issue prepare commit authenticate is_current
issue_effect a device token up bt = (
  simp up,
  λ d t b. simp up (
      ground (
        arith,
        constant_time_eq-text_eq token t bt b,
        lookup-insert device d (record { token = token; generation = next a.next_generation })
            a.sessions,
      )),
  λ d h. simp up (
      ground (
        arith,
        lookup-insert device d (record { token = token; generation = next a.next_generation })
            a.sessions,
      )),
)

-- Revoking a device's session under a generation. It succeeds exactly if that generation is current
-- for the device; then the device has no current generation any more. Else, and for other devices,
-- what is current stays current. The lock is healthy, and the keys are unique, as in a hash map.
pub revoke_effect :
    (a : SessionAuthorizer) (device : Text) (g : ℕ)
    → a.poisoned ≡ false
    → Unique a.sessions
    → let r = revoke a device (some g) in
      (r.1 ≡ is_current a device g)
      × ((d : Text) (h : ℕ)
          → is_current r.0 d h
            ≡ (if is_current a device g && text_eq device d then false else is_current a d h))
unfolding revoke is_current
revoke_effect a device g up u =
    (simp up (ground arith), λ d h. simp up (ground (arith, lookup-remove device d a.sessions u)))

-- A token authenticates a device only under the generation that is current for it.
pub authenticate-is_current :
    (a : SessionAuthorizer) (device token : Text) (s : AuthorizedSession)
    → authenticate a device token ≡ some s
    → is_current a device s.generation ≡ true
unfolding authenticate is_current
authenticate-is_current a device token s e = elim (Option-cases (lookup device a.sessions)) [
  | inl n ↦ absurd (ground (arith, n))
  | inr (r, f) ↦ ground (arith, f)
]

-- How often a generation occurs.
abbrev pub one_if : Bool → ℕ
one_if true = 1
one_if false = 0

abbrev pub in_record : ℕ → Option SessionRecord → ℕ
in_record g none = 0
in_record g (some r) = one_if (r.generation == g)

unfoldable pub in_sessions : ℕ → Assoc SessionRecord → ℕ
in_sessions g [] = 0
in_sessions g ((d, r) ∷ m) = one_if (r.generation == g) + in_sessions g m

unfoldable pub in_outstanding : ℕ → List PendingSession → ℕ
in_outstanding g [] = 0
in_outstanding g (p ∷ ps) = one_if (p.generation == g) + in_outstanding g ps

pub in_sessions-insert :
    (g : ℕ) (k : Text) (r : SessionRecord) (m : Assoc SessionRecord)
    → in_sessions g (insert k r m) + in_record g (lookup k m)
      ≡ in_sessions g m + one_if (r.generation == g)
unfolding in_sessions insert lookup
in_sessions-insert g k r [] = omega arith
in_sessions-insert g k r ((j, w) ∷ m) = ground (arith, in_sessions-insert g k r m)

pub in_sessions-remove :
    (g : ℕ) (k : Text) (m : Assoc SessionRecord)
    → in_sessions g (remove k m) + in_record g (lookup k m) ≡ in_sessions g m
unfolding in_sessions remove lookup
in_sessions-remove g k [] = omega arith
in_sessions-remove g k ((j, w) ∷ m) = ground (arith, in_sessions-remove g k m)

pub in_record-le :
    (g : ℕ) (k : Text) (m : Assoc SessionRecord) → in_record g (lookup k m) ≤ in_sessions g m
in_record-le g k m = omega (arith, in_sessions-remove g k m)
