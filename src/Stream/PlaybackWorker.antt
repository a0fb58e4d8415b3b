-- ===== src/Stream/PlaybackWorker.antt =====
-- gemacast-core/src/stream/player/playback_control.rs and playback_worker.rs: who decides whether the
-- output plays. A command and the worker's answer to it are one round; the answer of the output device
-- is an argument.
mod Examples
use gemacast.Prelude.{
  if_elim, arith, ◌≡◌, refl, sym, ap, ◌∙◌, List, [], ◌∷◌, Bool, true, false, not, ◌&&◌,
  if◌then◌else◌, Result, ok, err,
}

pub data PlaybackCommand : Type 0 where
  set_user_playing set_source_idle : Bool → PlaybackCommand
  shutdown : PlaybackCommand

pub record PlaybackWorker : Type 0 where
  pub user_wants_playing : Bool
  pub source_idle : Bool
  pub stream_running : Bool
  pub render_enabled : Bool
  pub reset_requested : Bool
  pub alive : Bool

abbrev pub spawn : Bool → Bool → PlaybackWorker
spawn render reset = record {
  user_wants_playing = true;
  source_idle = false;
  stream_running = true;
  render_enabled = render;
  reset_requested = reset;
  alive = true;
}

abbrev pub ended : PlaybackWorker → PlaybackWorker
ended w = record w { render_enabled = false; alive = false }

abbrev pub should_run : PlaybackWorker → Bool
should_run w = w.user_wants_playing && not w.source_idle

-- Starting and pausing the output, and whether that worked.
abbrev pub started : PlaybackWorker → Bool → PlaybackWorker × Bool
started w true =
    (record w { reset_requested = true; render_enabled = true; stream_running = true }, true)
started w false = (ended (record w { reset_requested = true }), false)

abbrev pub paused : PlaybackWorker → Bool → PlaybackWorker × Bool
paused w true =
    (record w { render_enabled = false; reset_requested = true; stream_running = false }, true)
paused w false = (ended (record w { reset_requested = true }), false)

abbrev pub transition : PlaybackWorker → (wanted running works : Bool) → PlaybackWorker × Bool
transition w true false works = started w works
transition w false true works = paused w works
transition w true true works = (w, true)
transition w false false works = (w, true)

abbrev pub settle : PlaybackWorker → Bool → PlaybackWorker × Bool
settle w works = transition w (should_run w) w.stream_running works

-- A round of the worker, and whether the command succeeded.
abbrev pub serve : PlaybackWorker → PlaybackCommand → Bool → PlaybackWorker × Bool
serve w (set_user_playing playing) works = settle (record w { user_wants_playing = playing }) works
serve w (set_source_idle idle) works = settle (record w { source_idle = idle }) works
serve w shutdown works = (ended w, true)

-- The worker with `PlaybackControl::user_wants_playing`, which the phone's receive loop reads.
pub record Playback : Type 0 where
  pub wanted : Bool
  pub worker : PlaybackWorker

pub data PlaybackError : Type 0 where
  control_unavailable control_failed : PlaybackError

abbrev pub acknowledged :
    Playback → Bool → PlaybackWorker × Bool → Playback × Result PlaybackError (Unit {0})
acknowledged s playing (w, true) = (record { wanted = playing; worker = w }, ok tt)
acknowledged s playing (w, false) = (record s { worker = w }, err control_failed)

abbrev pub send_command :
    Playback → PlaybackCommand → Bool → Playback × Result PlaybackError (Unit {0})
send_command s (set_user_playing playing) works =
    if s.worker.alive
    then acknowledged s playing (serve s.worker (set_user_playing playing) works)
    else (s, err control_unavailable)
send_command s c works =
    if s.worker.alive then (record s { worker = (serve s.worker c works).0 }, ok tt) else (s, ok tt)

unfoldable pub run : Playback → List (PlaybackCommand × Bool) → Playback
run s [] = s
run s ((c, works) ∷ cs) = run (send_command s c works).0 cs

abbrev pub fresh : Bool → Playback
fresh reset = record { wanted = true; worker = spawn true reset }

record Settled (w : PlaybackWorker) (wanted : Bool) (r : PlaybackWorker × Bool) : Type 0 where
  user : r.0.user_wants_playing ≡ w.user_wants_playing
  idle : r.0.source_idle ≡ w.source_idle
  renders : r.0.render_enabled ≡ r.0.alive && wanted
  plays : r.0.alive ≡ true → r.0.stream_running ≡ wanted
  answers : r.1 ≡ r.0.alive

transition-Settled :
    (w : PlaybackWorker) (wanted running works : Bool)
    → w.alive ≡ true
    → w.stream_running ≡ running
    → w.render_enabled ≡ running
    → Settled w wanted (transition w wanted running works)
transition-Settled w true false true a s r = record {
  user = refl;
  idle = refl;
  renders = ap (λ b. b && true) (sym a);
  plays = λ _. refl;
  answers = sym a;
}
transition-Settled w true false false a s r = record {
  user = refl;
  idle = refl;
  renders = refl;
  plays = λ f. absurd (ground (arith, f));
  answers = refl;
}
transition-Settled w false true true a s r = record {
  user = refl;
  idle = refl;
  renders = rw a refl;
  plays = λ _. refl;
  answers = sym a;
}
transition-Settled w false true false a s r = record {
  user = refl;
  idle = refl;
  renders = refl;
  plays = λ f. absurd (ground (arith, f));
  answers = refl;
}
transition-Settled w true true works a s r = record {
  user = refl;
  idle = refl;
  renders = rw a r;
  plays = λ _. s;
  answers = sym a;
}
transition-Settled w false false works a s r = record {
  user = refl;
  idle = refl;
  renders = rw a r;
  plays = λ _. s;
  answers = sym a;
}

record Agrees (s : Playback) : Type 0 where
  shared : s.worker.alive ≡ true → s.wanted ≡ s.worker.user_wants_playing
  plays : s.worker.alive ≡ true → s.worker.stream_running ≡ should_run s.worker
  renders : s.worker.render_enabled ≡ s.worker.alive && should_run s.worker

should_run-Settled :
    (w : PlaybackWorker) (r : PlaybackWorker × Bool)
    → Settled w (should_run w) r
    → should_run r.0 ≡ should_run w
should_run-Settled w r h = rw h.user (rw h.idle refl)

settle-Settled :
    (w : PlaybackWorker) (works : Bool)
    → w.alive ≡ true
    → w.render_enabled ≡ w.stream_running
    → Settled w (should_run w) (settle w works)
settle-Settled w works a r = transition-Settled w (should_run w) w.stream_running works a refl r

Settled-Agrees :
    (w : PlaybackWorker) (wanted : Bool) (r : PlaybackWorker × Bool)
    → Settled w (should_run w) r
    → (r.0.alive ≡ true → wanted ≡ w.user_wants_playing)
    → Agrees (record { wanted = wanted; worker = r.0 })
Settled-Agrees w wanted r h same =
    let e = should_run-Settled w r h in
    record {
      shared = λ a. same a ∙ sym h.user;
      plays = λ a. h.plays a ∙ sym e;
      renders = h.renders ∙ ap (λ b. r.0.alive && b) (sym e);
    }

acknowledged-Agrees :
    (s : Playback) (playing : Bool) (w : PlaybackWorker) (r : PlaybackWorker × Bool)
    → w.user_wants_playing ≡ playing
    → Settled w (should_run w) r
    → Agrees (acknowledged s playing r).0
acknowledged-Agrees s playing w (w', true) u h = Settled-Agrees w playing (w', true) h (λ _. sym u)
acknowledged-Agrees s playing w (w', false) u h =
    Settled-Agrees w s.wanted (w', false) h (λ a. absurd (ground (arith, h.answers ∙ a)))

renders-plays :
    (s : Playback)
    → Agrees s
    → s.worker.alive ≡ true
    → s.worker.render_enabled ≡ s.worker.stream_running
renders-plays s g a = g.renders ∙ ap (λ b. b && should_run s.worker) a ∙ sym (g.plays a)

ended-Agrees :
    (wanted : Bool) (w : PlaybackWorker) → Agrees (record { wanted = wanted; worker = ended w })
ended-Agrees wanted w = record {
  shared = λ f. absurd (ground (arith, f));
  plays = λ f. absurd (ground (arith, f));
  renders = refl;
}

send_command-Agrees :
    (s : Playback) (c : PlaybackCommand) (works : Bool)
    → Agrees s
    → Agrees (send_command s c works).0
send_command-Agrees s (set_user_playing playing) works g =
    if_elim (λ (q : Playback × Result PlaybackError (Unit {0})). Agrees q.0) s.worker.alive _ _
      (λ a.
        let w = record s.worker { user_wants_playing = playing } in
        acknowledged-Agrees s playing w (settle w works) refl
          (settle-Settled w works a (renders-plays s g a)))
      (λ _. g)
send_command-Agrees s (set_source_idle idle) works g =
    if_elim (λ (q : Playback × Result PlaybackError (Unit {0})). Agrees q.0) s.worker.alive _ _
      (λ a.
        let w = record s.worker { source_idle = idle } in
        Settled-Agrees w s.wanted (settle w works) (settle-Settled w works a (renders-plays s g a))
          (λ _. g.shared a))
      (λ _. g)
send_command-Agrees s shutdown works g =
    if_elim (λ (q : Playback × Result PlaybackError (Unit {0})). Agrees q.0) s.worker.alive _ _
      (λ _. ended-Agrees s.wanted s.worker) (λ _. g)

run-Agrees : (s : Playback) (cs : List (PlaybackCommand × Bool)) → Agrees s → Agrees (run s cs)
unfolding run
run-Agrees s [] g = g
run-Agrees s ((c, works) ∷ cs) g =
    run-Agrees (send_command s c works).0 cs (send_command-Agrees s c works g)

guarded : (b x y z : Bool) → (b ≡ true → x ≡ y) → b && (y && z) ≡ b && (x && z)
guarded true x y z h = ap (λ u. u && z) (sym (h refl))
guarded false x y z h = refl

-- After any commands to a new worker and any answers of the output, the output renders exactly when
-- the worker is alive, the control's flag says that the user wants to play, and the worker holds the
-- source not to be idle; and the output of a worker that is alive runs exactly when it renders.
pub run-rendering :
    (reset : Bool) (cs : List (PlaybackCommand × Bool))
    → let s = run (fresh reset) cs in
      (s.worker.render_enabled ≡ s.worker.alive && (s.wanted && not s.worker.source_idle))
      × (s.worker.alive ≡ true → s.worker.stream_running ≡ s.worker.render_enabled)
run-rendering reset cs =
    let s = run (fresh reset) cs in
    let g =
      run-Agrees (fresh reset) cs
        (record { shared = λ _. refl; plays = λ _. refl; renders = refl }) in
    (
      g.renders
          ∙ guarded s.worker.alive s.wanted s.worker.user_wants_playing (not s.worker.source_idle)
              g.shared,
      λ a. sym (renders-plays s g a),
    )
