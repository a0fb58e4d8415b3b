-- ===== src/Jitter/Flow/Examples.antt =====
-- The playback flow over whole numbers.
use gemacast.Prelude.{
  ℕ, ◌+◌, ◌-◌, ◌*◌, ◌/◌, ◌≡◌, refl, List, [], ◌∷◌, Bool, true, leb, replicate, max,
}
use gemacast.Jitter.Flow.{Floats, PlaybackFlow, new, arm_recovery_window, stretch_allowed}
use gemacast.Jitter.Flow.Conceal.{observe_all, concealed_in, observe_window}
use gemacast.Jitter.Flow.Recovery.{
  Move, ticks, arms, onsets, restarts, run, ticks_before, stretch_allowed-run,
}

abbrev whole_numbers : Floats
whole_numbers = record {
  F = ℕ;
  of_u32 = λ n. n;
  add = λ a b. a + b;
  sub = λ a b. a - b;
  mul = λ a b. a * b;
  div = λ a b. a / b;
  larger = max;
}

abbrev flow : PlaybackFlow whole_numbers
flow = new whole_numbers

abbrev stormy : List Bool
stormy = replicate 50 true

observe_window_example :
    ((observe_all whole_numbers flow stormy).1
      ≡ record {
        conceal_pct = 2 * concealed_in stormy;
        callbacks = 50;
        should_rebuffer = leb 25 (concealed_in stormy);
      }
        ∷ [])
    × ((observe_all whole_numbers flow stormy).0.window_callbacks ≡ 0)
    × ((observe_all whole_numbers flow stormy).0.conceal_callbacks ≡ 0)
unfolding new replicate
observe_window_example = observe_window whole_numbers flow stormy refl refl refl

abbrev storm : List (Move whole_numbers)
storm = onsets 120 ∷ arms 120 ∷ ticks 200_000 ∷ restarts ∷ arms 300_000 ∷ ticks 499_999 ∷ []

stretch_allowed-run_example :
    stretch_allowed whole_numbers
      (run whole_numbers (arm_recovery_window whole_numbers flow 100) storm)
      600_000
    ≡ leb 500_000 (600_000 - 100)
unfolding new ticks_before
stretch_allowed-run_example = stretch_allowed-run whole_numbers flow 100 storm 600_000 refl refl
