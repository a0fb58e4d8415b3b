-- ===== src/Jitter/Flow/Recovery.antt =====
-- The recovery window and the episodes of starvation.
use gemacast.Prelude.{
  ℕ, ◌+◌, ◌-◌, ◌≡◌, refl, List, [], ◌∷◌, Option, none, some, Bool, true, ◌&&◌, arith, length, leb,
  ltb, ap, ◌∙◌, if_elim, suc,
}
use gemacast.Jitter.Flow.{
  Floats, PlaybackFlow, ConcealVerdict, conceal_window_callbacks, recovery_guard_window,
  observe_delivery, note_starvation_onset, open_episode, close_at, close_starvation_episode,
  still_open, tick_recovery, armed, arm_recovery_window, allowed_at, stretch_allowed,
  reset_on_stream_restart, discard_conceal_window, filter_buffer_level,
}

module _ (f : Floats) where
  pub data Move : Type 0 where
    ticks arms : ℕ → Move
    onsets closes : ℕ → Move
    observes : Bool → Move
    filters : ℕ → ℕ → Move
    restarts : Move

  unfoldable pub step : PlaybackFlow f → Move → PlaybackFlow f
  step w (ticks now) = tick_recovery f w now
  step w (arms now) = arm_recovery_window f w now
  step w (onsets now) = (note_starvation_onset f w now).0
  step w (closes now) = (close_starvation_episode f w now).0
  step w (observes concealed) = (observe_delivery f w concealed).0
  step w (filters occupied target) = (filter_buffer_level f w occupied target).0
  step w restarts = reset_on_stream_restart f w

  unfoldable pub run : PlaybackFlow f → List Move → PlaybackFlow f
  unfolding step
  run w [] = w
  run w (a ∷ moves) = run (step w a) moves

  -- The moves that tick do so before a time.
  unfoldable pub ticks_before : ℕ → List Move → Bool
  ticks_before end [] = true
  ticks_before end (ticks now ∷ moves) = ltb now end && ticks_before end moves
  ticks_before end (a ∷ moves) = ticks_before end moves

  note-recovery :
      (w : PlaybackFlow f) (now : ℕ) (o : Option ℕ)
      → (open_episode f w now o).0.recovery_started_at ≡ w.recovery_started_at
  note-recovery w now none = refl
  note-recovery w now (some t) = refl

  close-recovery :
      (w : PlaybackFlow f) (now : ℕ) (o : Option ℕ)
      → (close_at f w now o).0.recovery_started_at ≡ w.recovery_started_at
  close-recovery w now none = refl
  close-recovery w now (some t) = refl

  run-recovery :
      (w : PlaybackFlow f) (moves : List Move) (started : ℕ)
      → w.recovery_started_at ≡ some started
      → ticks_before (started + recovery_guard_window) moves ≡ true
      → (run w moves).recovery_started_at ≡ some started
  unfolding run step ticks_before tick_recovery arm_recovery_window note_starvation_onset
      close_starvation_episode observe_delivery filter_buffer_level reset_on_stream_restart
      discard_conceal_window
  run-recovery w [] started e h = e
  run-recovery w (ticks now ∷ moves) started e h =
      run-recovery (step w (ticks now)) moves started (ap (still_open f now) e ∙ ground (arith, h))
        (ground (arith, h))
  run-recovery w (arms now ∷ moves) started e h =
      run-recovery (step w (arms now)) moves started (ap (armed f now) e) h
  run-recovery w (onsets now ∷ moves) started e h =
      run-recovery (step w (onsets now)) moves started
        (note-recovery _ now w.episode_started_at ∙ e) h
  run-recovery w (closes now ∷ moves) started e h =
      run-recovery (step w (closes now)) moves started
        (close-recovery w now w.episode_started_at ∙ e) h
  run-recovery w (observes c ∷ moves) started e h =
      run-recovery (step w (observes c)) moves started
        (if_elim
          (λ (r : PlaybackFlow f × Option ConcealVerdict). r.0.recovery_started_at ≡ some started)
          (ltb (w.window_callbacks + 1) conceal_window_callbacks) _ _ (λ _. e) (λ _. e))
        h
  run-recovery w (filters occupied target ∷ moves) started e h =
      run-recovery (step w (filters occupied target)) moves started e h
  run-recovery w (restarts ∷ moves) started e h = run-recovery (step w restarts) moves started e h

  -- The suppression of time stretching is bounded by the clock. Once the recovery window was armed,
  -- whatever comes before its end, further starvations and restarts of the stream included,
  -- stretching is suppressed for 500 ms from the first arming and allowed from then on.
  pub stretch_allowed-run :
      (w : PlaybackFlow f) (started : ℕ) (moves : List Move) (now : ℕ)
      → w.recovery_started_at ≡ none
      → ticks_before (started + 500_000) moves ≡ true
      → stretch_allowed f (run (arm_recovery_window f w started) moves) now
        ≡ leb 500_000 (now - started)
  unfolding stretch_allowed arm_recovery_window
  stretch_allowed-run w started moves now e h =
      ap (allowed_at f now)
        (run-recovery (arm_recovery_window f w started) moves started (ap (armed f started) e) h)

  -- The onsets of an episode after its first.
  unfoldable pub note_all : PlaybackFlow f → List ℕ → PlaybackFlow f
  note_all w [] = w
  note_all w (t ∷ ts) = note_all (note_starvation_onset f w t).0 ts

  within_episode :
      (w : PlaybackFlow f) (started : ℕ) (ts : List ℕ)
      → w.episode_started_at ≡ some started
      → ((note_all w ts).starvation_events ≡ w.starvation_events + length ts)
        × ((note_all w ts).episode_started_at ≡ some started)
  unfolding note_all note_starvation_onset
  within_episode w started [] e = (omega arith, e)
  within_episode w started (t ∷ ts) e =
      let noted : PlaybackFlow f = record w { starvation_events = w.starvation_events + 1 } in
      let (events, still) =
        within_episode (open_episode f noted t w.episode_started_at).0 started ts
          (ap (λ o. (open_episode f noted t o).0.episode_started_at) e ∙ e) in
      let one_more : (open_episode f noted t w.episode_started_at).0.starvation_events
          ≡ w.starvation_events + 1 =
        ap (λ o. (open_episode f noted t o).0.starvation_events) e in
      (omega (arith, events, one_more), still)

  -- The census of an episode. After onsets at some times, of which the first opens an episode, closing it
  -- reports their number and the time since the first, and leaves no episode; closing again reports
  -- nothing.
  pub close_starvation_episode-onsets :
      (w : PlaybackFlow f) (first : ℕ) (ts : List ℕ) (now later : ℕ)
      → w.episode_started_at ≡ none
      → w.starvation_events ≡ 0
      → let closed = close_starvation_episode f (note_all w (first ∷ ts)) now in
        (closed.1 ≡ some (suc (length ts), now - first))
        × ((close_starvation_episode f closed.0 later).1 ≡ none)
  unfolding note_all note_starvation_onset close_starvation_episode
  close_starvation_episode-onsets w first ts now later none_open no_events =
      let noted : PlaybackFlow f = record w { starvation_events = w.starvation_events + 1 } in
      let opened = (open_episode f noted first w.episode_started_at).0 in
      let (events, still) =
        within_episode opened first ts
          (ap (λ o. (open_episode f noted first o).0.episode_started_at) none_open) in
      let one : opened.starvation_events ≡ w.starvation_events + 1 =
        ap (λ o. (open_episode f noted first o).0.starvation_events) none_open in
      let all : (note_all opened ts).starvation_events ≡ suc (length ts) =
        omega (arith, events, one, no_events) in
      let noted_all = note_all opened ts in
      (
        ap (λ o. (close_at f noted_all now o).1) still ∙ ap (λ n. some (n, now - first)) all,
        ap (λ o. (close_starvation_episode f (close_at f noted_all now o).0 later).1) still,
      )
