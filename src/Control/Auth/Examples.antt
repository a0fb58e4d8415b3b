-- ===== src/Control/Auth/Examples.antt =====
-- The authorizer's theorems at concrete sessions and requests.
use gemacast.Prelude.{
  ℕ, ◌≡◌, refl, List, [], ◌∷◌, none, some, true, false, ◌&&◌, arith, ◌==◌, if◌then◌else◌, ok,
}
use gemacast.Prelude.Bytes.{IsBytes}
use gemacast.Prelude.Assoc.{text_Eq, Text, text_eq, Unique, lookup, insert}
use gemacast.Control.Auth.{
  SessionAuthorizer, pending, pending_approval_ttl, next, issue, authenticate, is_current,
  constant_time_eq, resolve_pending, new, prepare, commit,
}
use gemacast.Control.Auth.Tokens.{constant_time_eq-text_eq}
use gemacast.Control.Auth.Sessions.{issue_effect}
use gemacast.Control.Auth.Generations.{
  Move, prepares, commits, revokes, revokes_all, run, step, start, pick, retired_for_good,
}
use gemacast.Control.Auth.Pending.{
  request_at, undecided, decided, resolve_pending_effect, resolve_pending_once,
}

-- One phone with a session, and a request of it that waits.
abbrev phone : Text
phone = 80 ∷ 104 ∷ []

abbrev tablet : Text
tablet = 84 ∷ []

abbrev secret : Text
secret = 222 ∷ 173 ∷ []

abbrev other_secret : Text
other_secret = 222 ∷ 174 ∷ []

abbrev request : Text
request = 7 ∷ []

abbrev desk : SessionAuthorizer
desk = record {
  state = record {
    sessions = (phone, record { token = secret; generation = 1 }) ∷ [];
    pending = (request, record { device_id = phone; status = pending; created_at = 100 }) ∷ [];
    next_generation = 1;
  };
  pending_ttl = pending_approval_ttl;
  poisoned = false;
}

secret-IsBytes : IsBytes secret
secret-IsBytes = (omega arith, (omega arith, tt))

other_secret-IsBytes : IsBytes other_secret
other_secret-IsBytes = (omega arith, (omega arith, tt))

constant_time_eq-text_eq_example :
    constant_time_eq secret other_secret ≡ text_eq secret other_secret
constant_time_eq-text_eq_example =
    constant_time_eq-text_eq secret other_secret secret-IsBytes other_secret-IsBytes

issue_effect_example :
    let r = issue desk phone (some other_secret) in
    let g = next desk.next_generation in
    (r.1 ≡ ok (other_secret, g))
    × ((d t : Text)
        → IsBytes t
        → authenticate r.0 d t ≡ (
            if text_eq phone d
            then if text_eq other_secret t
              then some (record { device_id = d; generation = g })
              else none
            else authenticate desk d t))
    × ((d : Text) (h : ℕ)
        → is_current r.0 d h ≡ (if text_eq phone d then g == h else is_current desk d h))
issue_effect_example = issue_effect desk phone other_secret refl other_secret-IsBytes

-- The phone is replaced while an older prepared session still waits, and that one is committed later.
abbrev past : List Move
past =
    prepares phone (some secret)
    ∷ prepares tablet (some secret)
    ∷ prepares phone (some other_secret)
    ∷ commits 2
    ∷ []

abbrev future : List Move
future = commits 0 ∷ revokes phone (some 1) ∷ revokes_all ∷ []

was_current : is_current (run start past).auth phone 1 ≡ true
unfolding is_current run step start pick new prepare commit lookup insert text_eq
was_current = refl

replaced : is_current (step (run start past) (commits 0)).auth phone 1 ≡ false
unfolding is_current run step start pick new prepare commit lookup insert text_eq
replaced = refl

retired_for_good_example :
    is_current (run (step (run start past) (commits 0)) future).auth tablet 1 ≡ false
retired_for_good_example =
    retired_for_good past (commits 0) future phone tablet 1 (omega arith) was_current replaced

desk_pending-Unique : Unique desk.pending
unfolding lookup
desk_pending-Unique = (refl, tt)

resolve_pending_effect_example :
    let r = resolve_pending desk request true 200 in
    let q = request_at desk request 200 in
    (r.1 ≡ undecided q)
    × (request_at r.0 request 200 ≡ (
        if undecided q && text_eq request request
        then decided true q
        else request_at desk request 200))
resolve_pending_effect_example =
    resolve_pending_effect desk request request true 200 refl desk_pending-Unique

resolve_pending_once_example :
    (resolve_pending (resolve_pending desk request true 200).0 request false 300).1 ≡ false
resolve_pending_once_example =
    resolve_pending_once desk request true false 200 300 refl desk_pending-Unique (omega arith)
