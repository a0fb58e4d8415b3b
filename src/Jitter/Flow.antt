-- ===== src/Jitter/Flow.antt =====
-- gemacast-core/src/jitter/flow.rs: the life of the playback, between prebuffering, starving and playing.
-- `f32` is a parameter. Times are microseconds.
pub mod Conceal
pub mod Recovery
mod Examples
use gemacast.Prelude.{
  ℕ, ◌+◌, ◌-◌, ◌*◌, ◌/◌, Option, none, some, Bool, true, false, ltb, leb, if◌then◌else◌,
}
use gemacast.Audio.{opus_frame_size}

-- 500 ms.
abbrev pub recovery_guard_window : ℕ
recovery_guard_window = 500_000

-- Of jitter/consts.rs.
abbrev pub millis_per_frame : ℕ
millis_per_frame = opus_frame_size * 1000 / 48_000

abbrev pub conceal_window_callbacks : ℕ
conceal_window_callbacks = 500 / millis_per_frame

abbrev pub conceal_rebuffer_pct : ℕ
conceal_rebuffer_pct = 50

pub record ConcealVerdict : Type 0 where
  pub conceal_pct : ℕ
  pub callbacks : ℕ
  pub should_rebuffer : Bool

-- `F` is `f32`.
pub record Floats : Type 1 where
  pub F : Type 0
  pub of_u32 : ℕ → F
  pub add : F → F → F
  pub sub : F → F → F
  pub mul : F → F → F
  pub div : F → F → F
  pub larger : F → F → F

module _ (f : Floats) where
  open f use {F}

  pub record PlaybackFlow : Type 0 where
    pub is_prebuffering : Bool
    pub missing_count : ℕ
    pub starvation_count : ℕ
    pub conceal_run : ℕ
    pub gap_hold_count : ℕ
    pub starvation_recovery : ℕ
    pub recovery_started_at : Option ℕ
    pub filtered_buffer_level : F
    pub conceal_callbacks : ℕ
    pub window_callbacks : ℕ
    pub starvation_events : ℕ
    pub episode_started_at : Option ℕ

  unfoldable pub new : PlaybackFlow
  new = record {
    is_prebuffering = true;
    missing_count = 0;
    starvation_count = 0;
    conceal_run = 0;
    gap_hold_count = 0;
    starvation_recovery = 0;
    recovery_started_at = none;
    filtered_buffer_level = f.of_u32 0;
    conceal_callbacks = 0;
    window_callbacks = 0;
    starvation_events = 0;
    episode_started_at = none;
  }

  abbrev pub level_factor : ℕ → ℕ
  level_factor target =
      if leb target 1 then 251 else if leb target 3 then 252 else if leb target 7 then 253 else 254

  unfoldable pub filter_buffer_level : PlaybackFlow → ℕ → ℕ → PlaybackFlow × F
  filter_buffer_level w occupied target =
      let alpha = f.div (f.of_u32 (level_factor target)) (f.of_u32 256) in
      let level =
        f.add (f.mul w.filtered_buffer_level alpha)
          (f.mul (f.of_u32 occupied) (f.sub (f.of_u32 1) alpha)) in
      (record w { filtered_buffer_level = level }, level)

  unfoldable pub adjust_filtered_level : PlaybackFlow → F → PlaybackFlow
  adjust_filtered_level w delta_frames = record w {
    filtered_buffer_level = f.larger (f.add w.filtered_buffer_level delta_frames) (f.of_u32 0);
  }

  abbrev pub count : Bool → ℕ → ℕ
  count true n = n + 1
  count false n = n

  abbrev pub verdict : ℕ → ℕ → ConcealVerdict
  verdict concealed callbacks = record {
    conceal_pct = concealed * 100 / callbacks;
    callbacks = callbacks;
    should_rebuffer = leb conceal_rebuffer_pct (concealed * 100 / callbacks);
  }

  abbrev pub counted : PlaybackFlow → Bool → PlaybackFlow
  counted w concealed = record w {
    window_callbacks = w.window_callbacks + 1;
    conceal_callbacks = count concealed w.conceal_callbacks;
  }

  unfoldable pub discard_conceal_window : PlaybackFlow → PlaybackFlow
  discard_conceal_window w = record w { conceal_callbacks = 0; window_callbacks = 0 }

  unfoldable pub observe_delivery : PlaybackFlow → Bool → PlaybackFlow × Option ConcealVerdict
  observe_delivery w concealed =
      let w' = counted w concealed in
      if ltb w'.window_callbacks conceal_window_callbacks then (w', none) else (
        record w' { conceal_callbacks = 0; window_callbacks = 0 },
        some (verdict w'.conceal_callbacks w'.window_callbacks),
      )

  -- `if self.episode_started_at.is_none()`
  abbrev pub open_episode : PlaybackFlow → ℕ → Option ℕ → PlaybackFlow × Bool
  open_episode w now none = (record w { episode_started_at = some now }, true)
  open_episode w now (some started) = (w, false)

  unfoldable pub note_starvation_onset : PlaybackFlow → ℕ → PlaybackFlow × Bool
  note_starvation_onset w now =
      open_episode (record w { starvation_events = w.starvation_events + 1 }) now
        w.episode_started_at

  abbrev pub close_at : PlaybackFlow → ℕ → Option ℕ → PlaybackFlow × Option (ℕ × ℕ)
  close_at w now none = (w, none)
  close_at w now (some started) = (
    record w { episode_started_at = none; starvation_events = 0 },
    some (w.starvation_events, now - started),
  )

  unfoldable pub close_starvation_episode : PlaybackFlow → ℕ → PlaybackFlow × Option (ℕ × ℕ)
  close_starvation_episode w now = close_at w now w.episode_started_at

  -- The window that is still open at a time.
  abbrev pub still_open : ℕ → Option ℕ → Option ℕ
  still_open now none = none
  still_open now (some started) =
      if leb recovery_guard_window (now - started) then none else some started

  unfoldable pub tick_recovery : PlaybackFlow → ℕ → PlaybackFlow
  tick_recovery w now = record w {
    starvation_recovery = w.starvation_recovery - 1;
    recovery_started_at = still_open now w.recovery_started_at;
  }

  abbrev pub armed : ℕ → Option ℕ → Option ℕ
  armed now none = some now
  armed now (some started) = some started

  unfoldable pub arm_recovery_window : PlaybackFlow → ℕ → PlaybackFlow
  arm_recovery_window w now = record w { recovery_started_at = armed now w.recovery_started_at }

  abbrev pub allowed_at : ℕ → Option ℕ → Bool
  allowed_at now none = true
  allowed_at now (some started) = leb recovery_guard_window (now - started)

  unfoldable pub stretch_allowed : PlaybackFlow → ℕ → Bool
  stretch_allowed w now = allowed_at now w.recovery_started_at

  unfoldable pub reset_on_stream_restart : PlaybackFlow → PlaybackFlow
  unfolding discard_conceal_window
  reset_on_stream_restart w = discard_conceal_window (record w {
    is_prebuffering = true;
    missing_count = 0;
    starvation_count = 0;
    conceal_run = 0;
    gap_hold_count = 0;
    filtered_buffer_level = f.of_u32 0;
  })
