-- ===== src/Stream/CapturePool/Generations.antt =====
-- Runs of the pool, the number of its captures, and `evict_failed_source` for one generation.
use gemacast.Prelude.{
  ℕ, ◌+◌, ◌^◌, ◌≤◌, ◌<◌, ◌≡◌, refl, List, [], ◌∷◌, Option, none, some, inl, inr, Bool, true, false,
  arith, length, suc, subst, Bool-cases, ◌≢◌,
}
use gemacast.Prelude.Assoc.{lookup, remove, lookup-remove, Unique}
use gemacast.Stream.CaptureInstance.{ℤ, AudioCaptureInstance}
use gemacast.Stream.CapturePool.{
  AudioSource, source_Eq, source_eq, source_eq_iff, TargetId, CapturePool, World, new,
  subscribe_with_channel, unsubscribe, change_source, change_bitrate, shutdown_all,
  evict_failed_source, is_generation, StreamTaskFailure, remove_failed_target,
}
use gemacast.Stream.CapturePool.Invariant.{
  Inv, Rule, weaken, lose, unsubscribe-Inv, evict_failed_source-Inv, remove_failed_target-Inv,
  shutdown_all-Inv, subscribe-Inv, change_source-Inv, change_bitrate-Inv,
}

pub data Move : Type 0 where
  subscribes : AudioSource → TargetId → Option ℤ → World → Move
  unsubscribes : AudioSource → TargetId → Move
  changes_source : AudioSource → AudioSource → TargetId → Option ℤ → World → Move
  changes_bitrate : AudioSource → TargetId → Option ℤ → World → Move
  evicts : AudioSource → ℕ → Move
  removes_failed : StreamTaskFailure → Move
  shuts_down : Move

unfoldable pub step : CapturePool → Move → CapturePool
step p (subscribes s target bitrate w) = (subscribe_with_channel p s target bitrate none w).0
step p (unsubscribes s target) = unsubscribe p s target
step p (changes_source old s target bitrate w) = (change_source p old s target bitrate w).0
step p (changes_bitrate s target bitrate w) = (change_bitrate p s target bitrate w).0
step p (evicts s g) = (evict_failed_source p s g).0
step p (removes_failed f) = (remove_failed_target p f).0
step p shuts_down = shutdown_all p

unfoldable pub run : CapturePool → List Move → CapturePool
unfolding step
run p [] = p
run p (a ∷ moves) = run (step p a) moves

step-Inv :
    (C C' : ℕ → Type 0) (J J' : ℕ → AudioSource → ℕ → Type 0) (p : CapturePool) (a : Move)
    → Rule C C' J J' p.next_generation
    → Inv C J p
    → Inv C' J' (step p a)
unfolding step
step-Inv C C' J J' p (subscribes s target bitrate w) r v =
    subscribe-Inv C C' J J' p s target bitrate none w r v
step-Inv C C' J J' p (unsubscribes s target) r v =
    unsubscribe-Inv C' J' p s target (weaken C C' J J' p r v)
step-Inv C C' J J' p (changes_source old s target bitrate w) r v =
    change_source-Inv C C' J J' p old s target bitrate w r v
step-Inv C C' J J' p (changes_bitrate s target bitrate w) r v =
    change_bitrate-Inv C' J' p s target bitrate w (weaken C C' J J' p r v)
step-Inv C C' J J' p (evicts s g) r v = evict_failed_source-Inv C' J' p s g (weaken C C' J J' p r v)
step-Inv C C' J J' p (removes_failed f) r v =
    remove_failed_target-Inv C' J' p f (weaken C C' J J' p r v)
step-Inv C C' J J' p shuts_down r v = shutdown_all-Inv C' J' p (weaken C C' J J' p r v)

-- The counter has gone up by at most one for each move.
abbrev Within : ℕ → ℕ → Type 0
Within k n = n + k < 2 ^ 64

-- Generations that were given are not above the counter.
abbrev Given : ℕ → AudioSource → ℕ → Type 0
Given n s g = g ≤ n

abbrev GivenWithin : ℕ → CapturePool → Type 0
GivenWithin k p = Inv (Within k) Given p

counted-Rule : (k n : ℕ) → Rule (Within (suc k)) (Within k) Given Given n
counted-Rule k n = record {
  same_counter = λ h. omega (arith, h);
  next_counter = λ h. omega (arith, h);
  same = λ h s g i. i;
  aged = λ h s g i. omega (arith, h, i);
  newer = λ h s. omega arith;
}

pub run-Given :
    (k : ℕ) (p : CapturePool) (moves : List Move)
    → GivenWithin (length moves + k) p
    → GivenWithin k (run p moves)
unfolding run
run-Given k p [] v =
    let e : length {A = Move} [] + k ≡ k = omega arith in subst (λ j. GivenWithin j p) e v
run-Given k p (a ∷ moves) v =
    let e : length (a ∷ moves) + k ≡ suc (length moves + k) = omega arith in
    run-Given k (step p a) moves (
      step-Inv (Within (suc (length moves + k))) (Within (length moves + k)) Given Given p a
        (counted-Rule (length moves + k) p.next_generation) (subst (λ j. GivenWithin j p) e v))

new-Given : (k : ℕ) (b : Bool) → k < 2 ^ 64 → GivenWithin k (new b)
unfolding new lookup
new-Given k b h = record {
  unique = tt;
  limit = refl;
  bounded = omega arith;
  counter = omega (arith, h);
  generations = λ s i e. absurd (ground (arith, e));
}

-- Whatever is subscribed, changed, evicted or fails, the pool never runs more than eight captures. Its
-- counter of generations does not wrap before 2^64 moves.
pub run-bounded :
    (b : Bool) (moves : List Move)
    → length moves < 2 ^ 64
    → length (run (new b) moves).instances ≤ 8
run-bounded b moves h =
    (run-Given 0 (new b) moves (new-Given (length moves + 0) b (omega (arith, h)))).bounded

-- The source has no capture of the generation, nor will it get one.
abbrev Past : AudioSource → ℕ → ℕ → AudioSource → ℕ → Type 0
Past source g n s h = (g ≤ n) × (source_eq s source ≡ true → g < h)

abbrev After : ℕ → ℕ → ℕ → Type 0
After g k n = (g ≤ n) × (n + k < 2 ^ 64)

evicted-Rule :
    (source : AudioSource) (g k n : ℕ)
    → Rule (After g (suc k)) (After g k) (Past source g) (Past source g) n
evicted-Rule source g k n = record {
  same_counter = λ h. (h.0, omega (arith, h.1));
  next_counter = λ h. (omega (arith, h.0, h.1), omega (arith, h.1));
  same = λ h s g i. i;
  aged = λ h s g i. (omega (arith, h.0, h.1), i.1);
  newer = λ h s. (omega (arith, h.0, h.1), λ e. omega (arith, h.0, h.1));
}

run-Past :
    (source : AudioSource) (g k : ℕ) (p : CapturePool) (moves : List Move)
    → Inv (After g (length moves + k)) (Past source g) p
    → Inv (After g k) (Past source g) (run p moves)
unfolding run
run-Past source g k p [] v =
    let e : length {A = Move} [] + k ≡ k = omega arith in
    subst (λ j. Inv (After g j) (Past source g) p) e v
run-Past source g k p (a ∷ moves) v =
    let e : length (a ∷ moves) + k ≡ suc (length moves + k) = omega arith in
    run-Past source g k (step p a) moves (
      step-Inv (After g (suc (length moves + k))) (After g (length moves + k)) (Past source g)
        (Past source g) p a (evicted-Rule source g (length moves + k) p.next_generation)
        (subst (λ j. Inv (After g j) (Past source g) p) e v))

generation_given :
    (p : CapturePool) (source : AudioSource) (g k : ℕ)
    → GivenWithin k p
    → (o : Option AudioCaptureInstance) → lookup source p.instances ≡ o
    → is_generation g o ≡ true
    → g ≤ p.next_generation
generation_given p source g k v none f e = absurd (ground (arith, e))
generation_given p source g k v (some i) f e =
    let below : i.generation ≤ p.next_generation = v.generations source i f in
    ground (arith, e, below)

removed :
    (p : CapturePool) (source s : AudioSource) (i : AudioCaptureInstance)
    → Unique p.instances
    → source_eq s source ≡ true
    → lookup s (remove source p.instances) ≢ some i
removed p source s i u same f = ground (
  arith,
  lookup-remove source s p.instances u,
  source_eq_iff source s,
  source_eq_iff s source,
  same,
  f,
)

evicted-Past :
    (p : CapturePool) (source : AudioSource) (g k : ℕ)
    → GivenWithin k p
    → is_generation g (lookup source p.instances) ≡ true
    → Inv (After g k) (Past source g) (evict_failed_source p source g).0
unfolding evict_failed_source
evicted-Past p source g k v e =
    let q : CapturePool = record p { instances = remove source p.instances } in
    let left = lose (Within k) Given p source v in
    let given = generation_given p source g k v (lookup source p.instances) refl e in
    let gone : Inv (After g k) (Past source g) q = record {
      unique = left.unique;
      limit = left.limit;
      bounded = left.bounded;
      counter = (given, v.counter);
      generations = λ s i f. (given, λ same. absurd (removed p source s i v.unique same f));
    } in
    rw e gone

evicts_generation :
    (p : CapturePool) (source : AudioSource) (g : ℕ)
    → (evict_failed_source p source g).1 ≡ true
    → is_generation g (lookup source p.instances) ≡ true
unfolding evict_failed_source
evicts_generation p source g e = elim (Bool-cases (is_generation g (lookup source p.instances))) [
  | inl t ↦ t
  | inr n ↦ absurd (ground (arith, n, e))
]

not_current :
    (p : CapturePool) (source : AudioSource) (g : ℕ)
    → Inv (After g 0) (Past source g) p
    → (o : Option AudioCaptureInstance) → lookup source p.instances ≡ o
    → is_generation g o ≡ false
not_current p source g v none f = refl
not_current p source g v (some i) f =
    let above : g < i.generation =
      (v.generations source i f).1 ((source_eq_iff source source).1 refl) in
    ground (arith, above)

not_again :
    (p : CapturePool) (source : AudioSource) (g : ℕ)
    → Inv (After g 0) (Past source g) p
    → evict_failed_source p source g ≡ (p, false)
unfolding evict_failed_source
not_again p source g v = rw (not_current p source g v (lookup source p.instances) refl) refl

-- A late failure does no harm. Once a capture of a source was evicted, reporting a failure of its
-- generation again, after any moves, evicts nothing: it is false for whatever capture the source has
-- by then, and the pool stays as it is. The counter does not wrap before 2^64 moves.
pub evicted_once :
    (b : Bool) (before : List Move) (source : AudioSource) (g : ℕ) (after : List Move)
    → length before + length after < 2 ^ 64
    → let e = evict_failed_source (run (new b) before) source g in
      e.1 ≡ true → let p = run e.0 after in evict_failed_source p source g ≡ (p, false)
evicted_once b before source g after h e =
    let p = run (new b) before in
    let given : GivenWithin (length after + 0) p =
      run-Given (length after + 0) (new b) before
        (new-Given (length before + (length after + 0)) b (omega (arith, h))) in
    let past =
      run-Past source g 0 (evict_failed_source p source g).0 after
        (evicted-Past p source g (length after + 0) given (evicts_generation p source g e)) in
    not_again (run (evict_failed_source p source g).0 after) source g past
