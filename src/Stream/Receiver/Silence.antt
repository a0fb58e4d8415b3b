-- ===== src/Stream/Receiver/Silence.antt =====
-- Rounds of the loop that bring no audio.
use gemacast.Prelude.{
  ℕ, ◌+◌, ◌≡◌, refl, List, [], ◌∷◌, Bool, true, false, not, ◌&&◌, ltb, ◌||◌, arith, leb, if_elim,
  ◌-◌, ◌/◌, ap, ◌∙◌,
}
use gemacast.Stream.Echo.{matches}
use gemacast.Stream.Receiver.{
  Config, Receiver, Round, Received, packet, failed, ErrorKind, timed_out, would_block, interrupted,
  unexpected_eof, connection_reset, other, Effect, top, is_unexpected, is_closed, is_benign, fail,
  handle, step, run,
}
use gemacast.Stream.Receiver.Ending.{count_timeout-running}

-- A round that brings no audio: an error, an unexpected sender or an echo.
unfoldable pub no_audio : Config → Received → Bool
no_audio c (failed e) = true
no_audio c (packet buffer len from) = is_unexpected c.allowed_streamer_ip from || matches buffer len

unfoldable pub all_no_audio : Config → List Round → Bool
all_no_audio c [] = true
all_no_audio c (round ∷ rounds) = no_audio c round.result && all_no_audio c rounds

abbrev Since : ℕ → Receiver × List Effect → Type 0
Since t r = r.0.last_packet_time ≡ t

handle-Since :
    (c : Config) (r : Receiver) (round : Round) (x : Received)
    → no_audio c x ≡ true
    → Since r.last_packet_time (handle c r round x)
unfolding handle no_audio fail
handle-Since c r round (failed e) h =
    let same = (count_timeout-running e r).1 in
    if_elim (Since r.last_packet_time) (is_closed e) _ _ (λ _. same)
      (λ _.
        if_elim (Since r.last_packet_time) (leb 10 ((round.later - r.last_packet_time) / 1_000_000))
          _ _ (λ _. same)
          (λ _. if_elim (Since r.last_packet_time) (not (is_benign e)) _ _ (λ _. same) (λ _. same)))
handle-Since c r round (packet buffer len from) h =
    if_elim (Since r.last_packet_time) (is_unexpected c.allowed_streamer_ip from) _ _ (λ _. refl)
      (λ n.
        if_elim (Since r.last_packet_time) (matches buffer len) _ _ (λ _. refl)
          (λ m. absurd (ground (arith, n, m, h))))

step-Since :
    (c : Config) (r : Receiver) (round : Round)
    → no_audio c round.result ≡ true
    → Since r.last_packet_time (step c r round)
unfolding step
step-Since c r round h =
    if_elim (Since r.last_packet_time) (not r.running) _ _ (λ _. refl)
      (λ _.
        if_elim (Since r.last_packet_time) round.active _ _
          (λ _. handle-Since c (top r round.now) round round.result h) (λ _. refl))

-- The result of a round that the loop goes on after, if the last audio packet came at `t`.
abbrev pub survives : ℕ → ℕ → Received → Bool
survives t later (failed e) = is_benign e && ltb later (t + 10_000_000)
survives t later (packet buffer len from) = true

unfoldable pub all_survived : ℕ → List Round → Bool
all_survived t [] = true
all_survived t (round ∷ rounds) =
    (round.active && survives t round.later round.result) && all_survived t rounds

closed_errors : (e : ErrorKind) → is_closed e ≡ true → is_benign e ≡ false
closed_errors timed_out h = absurd (ground (arith, h))
closed_errors would_block h = absurd (ground (arith, h))
closed_errors interrupted h = absurd (ground (arith, h))
closed_errors unexpected_eof h = refl
closed_errors connection_reset h = refl
closed_errors other h = absurd (ground (arith, h))

abbrev RunsIf : Bool → Receiver × List Effect → Type 0
RunsIf b q = q.0.running ≡ b

fail-RunsIf :
    (r : Receiver) (e : ErrorKind) (later : ℕ)
    → r.running ≡ true
    → RunsIf (survives r.last_packet_time later (failed e)) (fail r e later)
unfolding fail
fail-RunsIf r e later on =
    let b = survives r.last_packet_time later (failed e) in
    if_elim (RunsIf b) (is_closed e) _ _ (λ t. ground (arith, closed_errors e t))
      (λ _.
        if_elim (RunsIf b) (leb 10 ((later - r.last_packet_time) / 1_000_000)) _ _
          (λ late. ground (arith, late))
          (λ early.
            if_elim (RunsIf b) (not (is_benign e)) _ _ (λ t. ground (arith, t))
              (λ t. (count_timeout-running e r).0 ∙ on ∙ ground (arith, early, t))))

handle-RunsIf :
    (c : Config) (r : Receiver) (round : Round) (x : Received)
    → r.running ≡ true
    → no_audio c x ≡ true
    → RunsIf (survives r.last_packet_time round.later x) (handle c r round x)
unfolding handle no_audio
handle-RunsIf c r round (failed e) on h = fail-RunsIf r e round.later on
handle-RunsIf c r round (packet buffer len from) on h =
    if_elim (RunsIf true) (is_unexpected c.allowed_streamer_ip from) _ _ (λ _. on)
      (λ n.
        if_elim (RunsIf true) (matches buffer len) _ _ (λ _. on)
          (λ m. absurd (ground (arith, n, m, h))))

step-RunsIf :
    (c : Config) (r : Receiver) (round : Round)
    → no_audio c round.result ≡ true
    → RunsIf
        (r.running && (round.active && survives r.last_packet_time round.later round.result))
        (step c r round)
unfolding step
step-RunsIf c r round h =
    let b = r.running && (round.active && survives r.last_packet_time round.later round.result) in
    if_elim (RunsIf b) (not r.running) _ _
      (λ off. let e : r.running ≡ false = ground (arith, off) in rw e refl)
      (λ on.
        let e : r.running ≡ true = ground (arith, on) in
        if_elim (RunsIf b) round.active _ _
          (λ a. handle-RunsIf c (top r round.now) round round.result e h ∙ ground (arith, e, a))
          (λ a. ground (arith, a)))

-- Without audio, the loop runs after some rounds exactly when it ran before them and each of them
-- found `active` set and brought a packet, or a timeout or an interruption less than ten seconds
-- after the last audio packet. Rounds without audio are those that bring an error, an echo or a
-- packet of an unexpected sender: however many they are, the ten seconds count from the last audio
-- packet before them.
pub run-silent :
    (c : Config) (r : Receiver) (rounds : List Round)
    → all_no_audio c rounds ≡ true
    → (run c r rounds).0.running ≡ r.running && all_survived r.last_packet_time rounds
unfolding run all_no_audio all_survived
run-silent c r [] quiet = ground arith
run-silent c r (round ∷ rounds) quiet =
    let quiet_now : no_audio c round.result ≡ true = ground (arith, quiet) in
    let since = step-Since c r round quiet_now in
    run-silent c (step c r round).0 rounds (ground (arith, quiet))
    ∙ ap (λ t. (step c r round).0.running && all_survived t rounds) since
    ∙ ap (λ b. b && all_survived r.last_packet_time rounds) (step-RunsIf c r round quiet_now)
    ∙ ground arith
