-- ===== src/Jitter/Buffer/Run.antt =====
-- Sequences of operations on a new buffer, and on the specification.
use gemacast.Prelude.{
  ℕ, suc, ◌+◌, ◌^◌, ◌≤◌, ◌<◌, ◌≡◌, refl, ap, Option, none, List, [], ◌∷◌, false, arith, length,
}
use gemacast.Audio.{RawPacket}
use gemacast.Jitter.Buffer.{
  JitterBuffer, InsertResult, new, insert, pop_next, advance_one, fast_forward, reset,
  lowest_available_seq,
}
use gemacast.Jitter.Buffer.Invariant.{IsValid}
use gemacast.Jitter.Buffer.Spec.{Playout}
use gemacast.Jitter.Buffer.Spec
use gemacast.Jitter.Buffer.Refinement.{Refines, insert-Refines}
use gemacast.Jitter.Buffer.Playing.{
  pop_next-Refines, advance_one-Refines, fast_forward-Refines, reset-Refines, new-Refines,
}
use gemacast.Jitter.Buffer.Cache.{lowest_available_seq-Refines}

pub data Op : Type 0 where
  inserts : RawPacket → Op
  pops advances asks_lowest resets : Op
  forwards : ℕ → Op

-- What a caller sees of an operation.
pub data Reply : Type 0 where
  inserted : InsertResult → Reply
  popped : Option RawPacket → Reply
  done : Reply

unfoldable pub step : JitterBuffer → Op → JitterBuffer × Reply
step b (inserts p) = let (b', r) = insert b p in (b', inserted r)
step b pops = let (b', r) = pop_next b in (b', popped r)
step b advances = (advance_one b, done)
step b asks_lowest = ((lowest_available_seq b).0, done)
step b resets = (reset b, done)
step b (forwards n) = (fast_forward b n, done)

unfoldable pub promise : Playout → Op → Playout × Reply
promise a (inserts p) = let (a', r) = Spec.insert a p in (a', inserted r)
promise a pops = let (a', r) = Spec.pop a in (a', popped r)
promise a advances = (Spec.advance a, done)
promise a asks_lowest = (a, done)
promise a resets = (record a { next = 0; started = false; packet = λ s. none }, done)
promise a (forwards n) = (Spec.skip a n, done)

unfoldable pub replies : JitterBuffer → List Op → List Reply
replies b [] = []
replies b (o ∷ os) = let (b', r) = step b o in r ∷ replies b' os

unfoldable pub promised : Playout → List Op → List Reply
promised a [] = []
promised a (o ∷ os) = let (a', r) = promise a o in r ∷ promised a' os

-- The buffer after a sequence of operations.
unfoldable pub after : JitterBuffer → List Op → JitterBuffer
after b [] = b
after b (o ∷ os) = after (step b o).0 os

-- Sequence numbers stay below a bound, and no one moves the playhead back.
abbrev pub Allowed : ℕ → Playout → Op → Type 0
Allowed top a (inserts p) = p.seq_num ≤ top
Allowed top a (forwards n) = (a.next ≤ n) × (n ≤ top)
Allowed top a _ = Unit {0}

abbrev pub AllAllowed : ℕ → Playout → List Op → Type 0
AllAllowed top a [] = Unit {0}
AllAllowed top a (o ∷ os) = Allowed top a o × AllAllowed top (promise a o).0 os

Allowed-suc : (top : ℕ) (a : Playout) (o : Op) → Allowed top a o → Allowed (suc top) a o
Allowed-suc top a (inserts p) h = omega arith
Allowed-suc top a (forwards n) h = (h.0, omega arith)
Allowed-suc top a _ h = tt

AllAllowed-suc :
    (top : ℕ) (a : Playout) (os : List Op) → AllAllowed top a os → AllAllowed (suc top) a os
AllAllowed-suc top a [] h = tt
AllAllowed-suc top a (o ∷ os) h =
    (Allowed-suc top a o h.0, AllAllowed-suc top (promise a o).0 os h.1)

next-promise :
    (top : ℕ) (a : Playout) (o : Op)
    → Allowed top a o
    → a.next ≤ top
    → (promise a o).0.next ≤ suc top
unfolding promise Spec.insert Spec.pop Spec.advance Spec.skip
next-promise top a (inserts p) h l = ground arith
next-promise top a (forwards n) h l = ground arith
next-promise top a _ h l = ground arith

size-promise : (a : Playout) (o : Op) → (promise a o).0.size ≡ a.size
unfolding promise Spec.insert Spec.pop Spec.advance Spec.skip
size-promise a (inserts p) = ground arith
size-promise a _ = ground arith

step-Refines :
    (top : ℕ) (b : JitterBuffer) (a : Playout) (o : Op)
    → Refines b a
    → Allowed top a o
    → a.next ≤ top
    → top + a.size + 1 < 2 ^ 64
    → Refines (step b o).0 (promise a o).0 × ((step b o).1 ≡ (promise a o).1)
unfolding step promise
step-Refines top b a (inserts p) r h l room =
    let (q, e) = insert-Refines b a p r (omega (arith, r.implements.size_eq)) in (q, ap inserted e)
step-Refines top b a pops r h l room =
    let (q, e) =
      pop_next-Refines b a r (omega (arith, r.implements.size_eq, r.implements.next_eq)) in
    (q, ap popped e)
step-Refines top b a advances r h l room =
    (advance_one-Refines b a r (omega (arith, r.implements.size_eq, r.implements.next_eq)), refl)
step-Refines top b a asks_lowest r h l room = (lowest_available_seq-Refines b a r, refl)
step-Refines top b a resets r h l room = (reset-Refines b a r, refl)
step-Refines top b a (forwards n) r h l room = (
  fast_forward-Refines b a n r (omega (arith, r.implements.next_eq))
      (omega (arith, r.implements.size_eq)),
  refl,
)

replies-promised :
    (os : List Op) (top : ℕ) (b : JitterBuffer) (a : Playout)
    → Refines b a
    → AllAllowed top a os
    → a.next ≤ top
    → top + a.size + length os < 2 ^ 64
    → replies b os ≡ promised a os
unfolding replies promised
replies-promised [] top b a r h l room = refl
replies-promised (o ∷ os) top b a r h l room =
    let (q, e) = step-Refines top b a o r h.0 l (omega arith) in
    let rest =
      replies-promised os (suc top) (step b o).0 (promise a o).0 q
        (AllAllowed-suc top (promise a o).0 os h.1) (next-promise top a o h.0 l)
        (omega (arith, size-promise a o)) in
    λ i. e i ∷ rest i

after-IsValid :
    (os : List Op) (top : ℕ) (b : JitterBuffer) (a : Playout)
    → Refines b a
    → AllAllowed top a os
    → a.next ≤ top
    → top + a.size + length os < 2 ^ 64
    → IsValid (after b os)
unfolding after
after-IsValid [] top b a r h l room = r.valid
after-IsValid (o ∷ os) top b a r h l room =
    after-IsValid os (suc top) (step b o).0 (promise a o).0
      (step-Refines top b a o r h.0 l (omega arith)).0 (AllAllowed-suc top (promise a o).0 os h.1)
      (next-promise top a o h.0 l) (omega (arith, size-promise a o))

abbrev pub silence_before : Playout
silence_before = record { size = 512; next = 0; started = false; packet = λ s. none }

-- On a new buffer every sequence of operations returns, reply by reply, what the specification of a
-- playhead with a window of 512 packets returns: which packets are accepted, stale or a restart, and
-- which packet each pop gives. The sequence numbers, with one for each operation and the window added,
-- stay below 2 ^ 64, and a fast-forward does not go back.
pub replies-new :
    (os : List Op) (top : ℕ)
    → AllAllowed top silence_before os
    → top + 512 + length os < 2 ^ 64
    → replies new os ≡ promised silence_before os
replies-new os top h room =
    replies-promised os top new silence_before new-Refines h (omega arith) room

-- Every sequence of operations on a new buffer leaves a valid buffer, under the same bounds: each
-- packet is in its own slot and within the window, and the counts are right.
pub after-new-IsValid :
    (os : List Op) (top : ℕ)
    → AllAllowed top silence_before os
    → top + 512 + length os < 2 ^ 64
    → IsValid (after new os)
after-new-IsValid os top h room =
    after-IsValid os top new silence_before new-Refines h (omega arith) room
