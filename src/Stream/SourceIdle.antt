-- ===== src/Stream/SourceIdle.antt =====
-- gemacast-core/src/stream/player/source_idle.rs: sustained silence as suspend and wake edges.
mod Examples
use gemacast.Prelude.{
  ℕ, ◌-◌, ◌≤◌, ◌≡◌, refl, ap, ◌∙◌, subst, ◌⊎◌, ◌||◌, List, [], ◌∷◌, Option, none, some, Bool, true,
  false, not, ◌&&◌, arith, leb, if◌then◌else◌, Bool-cases, inl, inr,
}

pub record SourceIdleDetector : Type 0 where
  pub idle_after : ℕ
  pub silence_started_at : Option ℕ
  pub suspended : Bool

pub new : ℕ → SourceIdleDetector
new idle_after = record { idle_after = idle_after; silence_started_at = none; suspended = false }

-- `*self.silence_started_at.get_or_insert(now)`
abbrev pub get_or_insert : Option ℕ → ℕ → ℕ
get_or_insert none now = now
get_or_insert (some started) now = started

pub observe : SourceIdleDetector → Bool → ℕ → SourceIdleDetector × Option Bool
observe d is_silence now =
    if not is_silence
    then (if d.suspended
        then (record d { silence_started_at = none; suspended = false }, some false)
        else (record d { silence_started_at = none }, none))
    else (let started = get_or_insert d.silence_started_at now in
        if not d.suspended && leb d.idle_after (now - started)
        then (record d { silence_started_at = some started; suspended = true }, some true)
        else (record d { silence_started_at = some started }, none))

pub is_suspended : SourceIdleDetector → Bool
is_suspended d = d.suspended

-- The edges that a sequence of observations gives, and the detector after it.
abbrev pub with_edge : Option Bool → List Bool → List Bool
with_edge none es = es
with_edge (some e) es = e ∷ es

unfoldable pub edges : SourceIdleDetector → List (Bool × ℕ) → List Bool
edges d [] = []
edges d ((s, t) ∷ os) = with_edge (observe d s t).1 (edges (observe d s t).0 os)

unfoldable pub after : SourceIdleDetector → List (Bool × ℕ) → SourceIdleDetector
after d [] = d
after d ((s, t) ∷ os) = after (observe d s t).0 os

-- Each edge is the opposite of the one before it; the first is the opposite of `b`.
abbrev pub Alternates : Bool → List Bool → Type 0
Alternates b [] = Unit {0}
Alternates b (e ∷ es) = (e ≡ not b) × Alternates e es

observe_edge :
    (d : SourceIdleDetector) (s : Bool) (t : ℕ)
    → (((observe d s t).1 ≡ none) × ((observe d s t).0.suspended ≡ d.suspended))
      ⊎ (((observe d s t).1 ≡ some (not d.suspended))
          × ((observe d s t).0.suspended ≡ not d.suspended))
unfolding observe
observe_edge d s t = ground arith

with_edge-Alternates :
    (b c : Bool) (o : Option Bool) (es : List Bool)
    → ((o ≡ none) × (c ≡ b)) ⊎ ((o ≡ some (not b)) × (c ≡ not b))
    → Alternates c es
    → Alternates b (with_edge o es)
with_edge-Alternates b c o es (inl (e, f)) h = rw e (subst (λ x. Alternates x es) f h)
with_edge-Alternates b c o es (inr (e, f)) h = rw e (refl, subst (λ x. Alternates x es) f h)

-- Whatever is observed, suspending and waking alternate, the first edge being the opposite of the
-- state at the start: neither is signalled twice in a row.
pub edges-Alternates :
    (d : SourceIdleDetector) (os : List (Bool × ℕ)) → Alternates (is_suspended d) (edges d os)
unfolding is_suspended edges
edges-Alternates d [] = tt
edges-Alternates d ((s, t) ∷ os) =
    with_edge-Alternates d.suspended (observe d s t).0.suspended (observe d s t).1
      (edges (observe d s t).0 os) (observe_edge d s t) (edges-Alternates (observe d s t).0 os)

-- Silent observations at the given times.
unfoldable pub silences : List ℕ → List (Bool × ℕ)
silences [] = []
silences (t ∷ ts) = (true, t) ∷ silences ts

abbrev pub Rising : ℕ → List ℕ → Type 0
Rising t [] = Unit {0}
Rising t (u ∷ us) = (t ≤ u) × Rising u us

unfoldable pub latest : ℕ → List ℕ → ℕ
latest t [] = t
latest t (u ∷ us) = latest u us

observe_silence :
    (d : SourceIdleDetector) (first t : ℕ)
    → get_or_insert d.silence_started_at t ≡ first
    → let r = (observe d true t).0 in
      (r.idle_after ≡ d.idle_after)
      × (r.silence_started_at ≡ some first)
      × (r.suspended ≡ (d.suspended || leb d.idle_after (t - first)))
unfolding observe
observe_silence d first t e = ground arith

silence_lasts :
    (d : SourceIdleDetector) (first t : ℕ) (ts : List ℕ)
    → d.silence_started_at ≡ some first
    → d.suspended ≡ leb d.idle_after (t - first)
    → Rising t ts
    → is_suspended (after d (silences ts)) ≡ leb d.idle_after (latest t ts - first)
unfolding after silences latest is_suspended
silence_lasts d first t [] e h r = h
silence_lasts d first t (u ∷ us) e h r =
    let (idle, started, off) = observe_silence d first u (ap (λ o. get_or_insert o u) e) in
    silence_lasts (observe d true u).0 first u us started (ground (arith, idle, off, r.0)) r.1
    ∙ ap (λ k. leb k (latest u us - first)) idle

-- A detector that is awake, with no silence going on, is suspended after silence from `first` on,
-- observed at rising times, exactly if the last observation comes the grace period or more after the
-- first.
pub silence_suspends :
    (d : SourceIdleDetector) (first : ℕ) (ts : List ℕ)
    → d.silence_started_at ≡ none
    → d.suspended ≡ false
    → Rising first ts
    → is_suspended (after d (silences (first ∷ ts))) ≡ leb d.idle_after (latest first ts - first)
unfolding after silences
silence_suspends d first ts e awake r =
    let (idle, started, off) = observe_silence d first first (ap (λ o. get_or_insert o first) e) in
    silence_lasts (observe d true first).0 first first ts started (ground (arith, idle, off)) r
    ∙ ap (λ k. leb k (latest first ts - first)) idle
