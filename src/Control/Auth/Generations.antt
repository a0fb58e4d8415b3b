-- ===== src/Control/Auth/Generations.antt =====
-- Any run of session operations from a new authorizer, with the prepared sessions that callers hold.
-- A `PendingSession` is moved into `commit`, so that each is committed at most once.
use gemacast.Prelude.{
  ℕ, zero, suc, ◌+◌, ◌^◌, ◌≤◌, ◌<◌, ◌≡◌, refl, ap, List, [], ◌∷◌, ◌++◌, Option, none, some, true,
  false, arith, ◌==◌, length, inl, ◌⊎◌, Result, ok, err,
}
use gemacast.Prelude.Assoc.{text_Eq, Text, text_eq_iff, lookup, lookup-insert, lookup-remove_ne}
use gemacast.Control.Auth.{
  SessionAuthorizer, PendingSession, AuthError, new, prepare, commit, is_current, revoke,
  revoke_all,
}
use gemacast.Control.Auth.Sessions.{
  one_if, in_record, in_sessions, in_outstanding, in_sessions-insert, in_sessions-remove,
  in_record-le,
}

pub record Server : Type 0 where
  pub auth : SessionAuthorizer
  pub outstanding : List PendingSession

pub data Move : Type 0 where
  prepares : (device_id : Text) → (token : Option Text) → Move
  commits drops : ℕ → Move
  revokes : (device_id : Text) → (generation : Option ℕ) → Move
  revokes_all : Move

-- The prepared session at a position, and the others.
abbrev pub keep_head :
    PendingSession
    → Option (PendingSession × List PendingSession)
    → Option (PendingSession × List PendingSession)
keep_head p none = none
keep_head p (some (q, qs)) = some (q, p ∷ qs)

unfoldable pub pick : ℕ → List PendingSession → Option (PendingSession × List PendingSession)
pick i [] = none
pick zero (p ∷ ps) = some (p, ps)
pick (suc i) (p ∷ ps) = keep_head p (pick i ps)

abbrev pub with_prepared :
    List PendingSession → SessionAuthorizer × Result AuthError PendingSession → Server
with_prepared ps (a, ok p) = record { auth = a; outstanding = p ∷ ps }
with_prepared ps (a, err e) = record { auth = a; outstanding = ps }

abbrev pub with_committed : Server → Option (PendingSession × List PendingSession) → Server
with_committed s none = s
with_committed s (some (p, ps)) = record { auth = (commit s.auth p).0; outstanding = ps }

abbrev pub with_dropped : Server → Option (PendingSession × List PendingSession) → Server
with_dropped s none = s
with_dropped s (some (p, ps)) = record s { outstanding = ps }

unfoldable pub step : Server → Move → Server
step s (prepares d t) = with_prepared s.outstanding (prepare s.auth d t)
step s (commits i) = with_committed s (pick i s.outstanding)
step s (drops i) = with_dropped s (pick i s.outstanding)
step s (revokes d g) = record s { auth = (revoke s.auth d g).0 }
step s revokes_all = record s { auth = revoke_all s.auth }

unfoldable pub run : Server → List Move → Server
run s [] = s
run s (m ∷ ms) = run (step s m) ms

unfoldable pub start : Server
start = record { auth = new; outstanding = [] }

occurrences : ℕ → Server → ℕ
occurrences g s = in_sessions g s.auth.sessions + in_outstanding g s.outstanding

-- No generation occurs twice, and none beyond the counter at all.
record IsSound (s : Server) : Type 0 where
  healthy : s.auth.poisoned ≡ false
  once : (g : ℕ) → occurrences g s ≤ 1
  fresh : (g : ℕ) → s.auth.next_generation < g → occurrences g s ≡ 0

-- A generation that has been given out, and is neither current nor held by a caller.
record IsDead (g : ℕ) (s : Server) : Type 0 where
  old : g ≤ s.auth.next_generation
  gone : occurrences g s ≡ 0

abbrev Picks : ℕ → List PendingSession → Option (PendingSession × List PendingSession) → Type 0
Picks g ps none = Unit {0}
Picks g ps (some (q, qs)) = in_outstanding g ps ≡ one_if (q.generation == g) + in_outstanding g qs

keep_head-Picks :
    (g : ℕ) (p : PendingSession) (ps : List PendingSession)
    (o : Option (PendingSession × List PendingSession))
    → Picks g ps o
    → Picks g (p ∷ ps) (keep_head p o)
unfolding in_outstanding
keep_head-Picks g p ps none h = tt
keep_head-Picks g p ps (some (q, qs)) h = omega arith

pick-Picks : (g i : ℕ) (ps : List PendingSession) → Picks g ps (pick i ps)
unfolding pick in_outstanding
pick-Picks g i [] = tt
pick-Picks g zero (p ∷ ps) = refl
pick-Picks g (suc i) (p ∷ ps) = keep_head-Picks g p ps (pick i ps) (pick-Picks g i ps)

-- What a move does to the counts and the counter. `given` is the generation that it hands out.
record Counts (s t : Server) : Type 0 where
  healthy : t.auth.poisoned ≡ false
  counter : s.auth.next_generation ≤ t.auth.next_generation
  counter_step : t.auth.next_generation ≤ s.auth.next_generation + 1
  kept : (g : ℕ) → g ≤ s.auth.next_generation → occurrences g t ≤ occurrences g s
  given :
      (g : ℕ)
      → s.auth.next_generation < g
      → (occurrences g t ≤ occurrences g s)
        ⊎ ((g ≡ t.auth.next_generation) × (occurrences g t ≡ occurrences g s + 1))

unchanged :
    (s t : Server)
    → t.auth.poisoned ≡ false
    → t.auth.next_generation ≡ s.auth.next_generation
    → ((g : ℕ) → occurrences g t ≤ occurrences g s)
    → Counts s t
unchanged s t up n h = record {
  healthy = up;
  counter = omega arith;
  counter_step = omega arith;
  kept = λ g _. h g;
  given = λ g _. inl (h g);
}

prepares-Counts :
    (s : Server) (d : Text) (t : Option Text)
    → s.auth.poisoned ≡ false
    → s.auth.next_generation + 1 < 2 ^ 64
    → Counts s (step s (prepares d t))
unfolding step prepare occurrences in_outstanding
prepares-Counts s d none up room = unchanged s _ up refl (λ g. omega arith)
prepares-Counts s d (some t) up room = simp up (record {
  healthy = refl;
  counter = ground arith;
  counter_step = ground arith;
  kept = λ g h. ground arith;
  given = λ g h. ground arith;
})

commits-Counts :
    (s : Server) (o : Option (PendingSession × List PendingSession))
    → s.auth.poisoned ≡ false
    → ((g : ℕ) → Picks g s.outstanding o)
    → Counts s (with_committed s o)
unfolding commit occurrences
commits-Counts s none up h = unchanged s s up refl (λ g. omega arith)
commits-Counts s (some (p, ps)) up h = unchanged s _ (ground arith) (ground arith) (λ g. ground (
  arith,
  h g,
  in_sessions-insert g p.device_id (record { token = p.token; generation = p.generation })
      s.auth.sessions,
))

drops-Counts :
    (s : Server) (o : Option (PendingSession × List PendingSession))
    → s.auth.poisoned ≡ false
    → ((g : ℕ) → Picks g s.outstanding o)
    → Counts s (with_dropped s o)
unfolding occurrences
drops-Counts s none up h = unchanged s s up refl (λ g. omega arith)
drops-Counts s (some (p, ps)) up h = unchanged s _ up refl (λ g. omega (arith, h g))

revokes-Counts :
    (s : Server) (d : Text) (g : Option ℕ)
    → s.auth.poisoned ≡ false
    → Counts s (step s (revokes d g))
unfolding step revoke occurrences
revokes-Counts s d g up =
    unchanged s _ (ground arith) (ground arith)
      (λ h. ground (arith, in_sessions-remove h d s.auth.sessions))

revokes_all-Counts : (s : Server) → s.auth.poisoned ≡ false → Counts s (step s revokes_all)
unfolding step revoke_all occurrences in_sessions
revokes_all-Counts s up = unchanged s _ (ground arith) (ground arith) (λ h. ground arith)

step-Counts :
    (s : Server) (m : Move)
    → s.auth.poisoned ≡ false
    → s.auth.next_generation + 1 < 2 ^ 64
    → Counts s (step s m)
step-Counts s (prepares d t) up room = prepares-Counts s d t up room
step-Counts s (commits i) up room =
    unfold step in commits-Counts s _ up (λ g. pick-Picks g i s.outstanding)
step-Counts s (drops i) up room =
    unfold step in drops-Counts s _ up (λ g. pick-Picks g i s.outstanding)
step-Counts s (revokes d g) up room = revokes-Counts s d g up
step-Counts s revokes_all up room = revokes_all-Counts s up

step-IsSound :
    (s : Server) (m : Move) → IsSound s → s.auth.next_generation + 1 < 2 ^ 64 → IsSound (step s m)
step-IsSound s m v room =
    let c = step-Counts s m v.healthy room in
    record {
      healthy = c.healthy;
      once = λ g. ground (arith, c.kept g, c.given g, v.once g, v.fresh g);
      fresh = λ g h. ground (arith, c.counter, c.given g, v.fresh g);
    }

step-IsDead :
    (g : ℕ) (s : Server) (m : Move)
    → s.auth.poisoned ≡ false
    → s.auth.next_generation + 1 < 2 ^ 64
    → IsDead g s
    → IsDead g (step s m)
step-IsDead g s m up room d =
    let c = step-Counts s m up room in
    record { old = omega (arith, d.old, c.counter); gone = omega (arith, c.kept g d.old, d.gone) }

-- A current generation occurs, and so is not beyond the counter.
current_occurs :
    (g : ℕ) (d : Text) (s : Server)
    → is_current s.auth d g ≡ true
    → in_record g (lookup d s.auth.sessions) ≡ 1
unfolding is_current
current_occurs g d s h = ground arith

not_current_absent :
    (g : ℕ) (d : Text) (s : Server)
    → s.auth.poisoned ≡ false
    → is_current s.auth d g ≡ false
    → in_record g (lookup d s.auth.sessions) ≡ 0
unfolding is_current
not_current_absent g d s up h = ground arith

-- The counts of one device's record, over one move.
record Retires (g : ℕ) (d : Text) (s t : Server) : Type 0 where
  retired :
      in_record g (lookup d s.auth.sessions) ≡ 1
      → in_record g (lookup d t.auth.sessions) ≡ 0
      → occurrences g s ≤ 1
      → occurrences g t ≡ 0

commits-Retires :
    (g : ℕ) (d : Text) (s : Server) (o : Option (PendingSession × List PendingSession))
    → s.auth.poisoned ≡ false
    → Picks g s.outstanding o
    → Retires g d s (with_committed s o)
unfolding commit occurrences
commits-Retires g d s none up h = record { retired = λ a b c. absurd (omega arith) }
commits-Retires g d s (some (p, ps)) up h = record {
  retired = λ a b c. ground (
    arith,
    h,
    in_sessions-insert g p.device_id (record { token = p.token; generation = p.generation })
        s.auth.sessions,
    lookup-insert p.device_id d (record { token = p.token; generation = p.generation })
        s.auth.sessions,
    text_eq_iff p.device_id d,
    ap (λ (k : Text). lookup k s.auth.sessions) {x = p.device_id} {y = d},
    in_record-le g d s.auth.sessions,
  );
}

revokes-Retires :
    (g : ℕ) (d k : Text) (h : Option ℕ) (s : Server)
    → s.auth.poisoned ≡ false
    → Retires g d s (step s (revokes k h))
unfolding step revoke occurrences
revokes-Retires g d k h s up = record {
  retired = λ a b c. ground (
    arith,
    in_sessions-remove g k s.auth.sessions,
    lookup-remove_ne k d s.auth.sessions,
    text_eq_iff k d,
    ap (λ (t : Text). lookup t s.auth.sessions) {x = k} {y = d},
    in_record-le g d s.auth.sessions,
  );
}

others-Retires :
    (g : ℕ) (d : Text) (s : Server) (m : Move) → s.auth.poisoned ≡ false → Retires g d s (step s m)
unfolding step
others-Retires g d s (prepares k none) up =
    unfold prepare in record { retired = λ a b c. absurd (omega arith) }
others-Retires g d s (prepares k (some t)) up =
    unfold prepare in simp up (record { retired = λ a b c. absurd (omega arith) })
others-Retires g d s (commits i) up =
    commits-Retires g d s (pick i s.outstanding) up (pick-Picks g i s.outstanding)
others-Retires g d s (drops i) up = dropped (pick i s.outstanding)
  where
    dropped : (o : Option (PendingSession × List PendingSession)) → Retires g d s (with_dropped s o)
    dropped none = record { retired = λ a b c. absurd (omega arith) }
    dropped (some (p, ps)) = record { retired = λ a b c. absurd (omega arith) }
others-Retires g d s (revokes k h) up = revokes-Retires g d k h s up
others-Retires g d s revokes_all up = record {
  retired = λ a b c.
      unfold revoke_all occurrences in_sessions in ground (arith, in_record-le g d s.auth.sessions);
}

run-append : (s : Server) (ms ns : List Move) → run s (ms ++ ns) ≡ run (run s ms) ns
unfolding run
run-append s [] ns = refl
run-append s (m ∷ ms) ns = run-append (step s m) ms ns

run-IsSound :
    (s : Server) (ms : List Move)
    → IsSound s
    → s.auth.next_generation + length ms < 2 ^ 64
    → IsSound (run s ms) × ((run s ms).auth.next_generation ≤ s.auth.next_generation + length ms)
unfolding run
run-IsSound s [] v room = (v, omega arith)
run-IsSound s (m ∷ ms) v room =
    let c = step-Counts s m v.healthy (omega arith) in
    let (w, h) =
      run-IsSound (step s m) ms (step-IsSound s m v (omega arith))
        (omega (arith, c.counter_step)) in
    (w, omega (arith, c.counter_step))

run-IsDead :
    (g : ℕ) (s : Server) (ms : List Move)
    → IsSound s
    → s.auth.next_generation + length ms < 2 ^ 64
    → IsDead g s
    → IsDead g (run s ms)
unfolding run
run-IsDead g s [] v room d = d
run-IsDead g s (m ∷ ms) v room d =
    let c = step-Counts s m v.healthy (omega arith) in
    run-IsDead g (step s m) ms (step-IsSound s m v (omega arith)) (omega (arith, c.counter_step))
      (step-IsDead g s m v.healthy (omega arith) d)

start-IsSound : IsSound start
unfolding start new occurrences in_sessions in_outstanding
start-IsSound = record { healthy = refl; once = λ g. omega arith; fresh = λ g h. refl }

dead_not_current : (g : ℕ) (d : Text) (s : Server) → IsDead g s → is_current s.auth d g ≡ false
unfolding occurrences
dead_not_current g d s h =
    ground (arith, h.gone, in_record-le g d s.auth.sessions, current_occurs g d s)

current_old :
    (g : ℕ) (d : Text) (s : Server)
    → IsSound s
    → in_record g (lookup d s.auth.sessions) ≡ 1
    → g ≤ s.auth.next_generation
unfolding occurrences
current_old g d s v one = ground (arith, v.fresh g, in_record-le g d s.auth.sessions)

-- From a new authorizer, through fewer than 2 ^ 64 moves: once a generation has been current for a
-- device and has ceased to be, by a replacement or a revocation, it is never again current for any
-- device, whatever is prepared, committed, dropped or revoked afterwards.
pub retired_for_good :
    (past : List Move) (m : Move) (future : List Move) (d e : Text) (g : ℕ)
    → length past + length future + 1 < 2 ^ 64
    → is_current (run start past).auth d g ≡ true
    → is_current (step (run start past) m).auth d g ≡ false
    → is_current (run (step (run start past) m) future).auth e g ≡ false
retired_for_good past m future d e g room was gone =
    let zero_start : start.auth.next_generation ≡ 0 = unfold start new in refl in
    let (v, h) = run-IsSound start past start-IsSound (omega arith) in
    let s = run start past in
    let c = step-Counts s m v.healthy (omega arith) in
    let one = current_occurs g d s was in
    let dead : IsDead g (step s m) = record {
      old = omega (arith, current_old g d s v one, c.counter);
      gone =
          (others-Retires g d s m v.healthy).retired one
            (not_current_absent g d (step s m) c.healthy gone) (v.once g);
    } in
    dead_not_current g e (run (step s m) future) (
      run-IsDead g (step s m) future (step-IsSound s m v (omega arith))
        (omega (arith, c.counter_step)) dead)
