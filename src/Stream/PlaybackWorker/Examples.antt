-- ===== src/Stream/PlaybackWorker/Examples.antt =====
-- A user who pauses a phone while its source is idle, and resumes it.
use gemacast.Prelude.{◌≡◌, refl, List, [], ◌∷◌, Bool, not, ◌&&◌, true, false}
use gemacast.Stream.PlaybackWorker.{
  PlaybackCommand, set_user_playing, set_source_idle, fresh, run, run-rendering,
}

abbrev commands : List (PlaybackCommand × Bool)
commands =
    (set_user_playing false, true)
    ∷ (set_source_idle true, false)
    ∷ (set_user_playing true, true)
    ∷ (set_source_idle false, true)
    ∷ []

run-rendering_example :
    let s = run (fresh false) commands in
    (s.worker.render_enabled ≡ s.worker.alive && (s.wanted && not s.worker.source_idle))
    × (s.worker.alive ≡ true → s.worker.stream_running ≡ s.worker.render_enabled)
run-rendering_example = run-rendering false commands

plays_again : (run (fresh false) commands).worker.render_enabled ≡ true
unfolding run
plays_again = refl
