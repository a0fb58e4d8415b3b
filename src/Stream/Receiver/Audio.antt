-- ===== src/Stream/Receiver/Audio.antt =====
-- The packets that the loop puts into the ring buffer of the player.
use gemacast.Prelude.{
  ℕ, ◌%◌, ◌-◌, ◌/◌, ◌≡◌, refl, List, [], ◌∷◌, ◌++◌, Option, none, some, Bool, true, false, not,
  ◌&&◌, arith, leb, ◌==◌, if_elim, ap, ◌∙◌,
}
use mathlib.Core.List.{append-nil}
use gemacast.Prelude.Assoc.{Text}
use gemacast.Audio.{RawPacket}
use gemacast.Stream.Echo.{matches, round_trip_micros}
use gemacast.Stream.PcmAssembly.{PcmAssembly}
use gemacast.Stream.Receiver.{
  Config, Receiver, Round, Received, packet, failed, ErrorKind, Effect, rtt, streamer_ip, enqueues,
  source_idle, reports_rms, network_dropped, top, is_unexpected, is_closed, is_benign, fail,
  only_if, idle_effects, observe_maybe, suspended, play, play_maybe, arrived, after_ip, assemble,
  hear, handle, step, run,
}
use gemacast.Stream.Receiver.Silence.{no_audio}

-- The packets that are put into the ring buffer.
unfoldable pub enqueued : List Effect → List RawPacket
enqueued [] = []
enqueued (enqueues p ∷ es) = p ∷ enqueued es
enqueued (e ∷ es) = enqueued es

enqueued-append : (es fs : List Effect) → enqueued (es ++ fs) ≡ enqueued es ++ enqueued fs
unfolding enqueued
enqueued-append [] fs = refl
enqueued-append (enqueues p ∷ es) fs = ap (λ ps. p ∷ ps) (enqueued-append es fs)
enqueued-append (rtt m ∷ es) fs = enqueued-append es fs
enqueued-append (streamer_ip t ∷ es) fs = enqueued-append es fs
enqueued-append (source_idle b ∷ es) fs = enqueued-append es fs
enqueued-append (reports_rms p ∷ es) fs = enqueued-append es fs
enqueued-append (network_dropped ∷ es) fs = enqueued-append es fs

-- A round in which audio may be played.
abbrev pub audible : Config → Round → Bool
audible c round = (round.user_wants_playing && round.room) && not (no_audio c round.result)

abbrev pub only_packet : Bool → RawPacket → List RawPacket
only_packet true p = p ∷ []
only_packet false p = []

abbrev pub plays : Receiver → Round → RawPacket → Bool
plays r round p =
    let (detector, edge) = observe_maybe r.source_idle_detector p.is_silence round.later in
    (round.user_wants_playing && not (suspended detector && p.is_silence)) && round.room

enqueued-only_if : (b : Bool) (p : RawPacket) → enqueued (only_if b (enqueues p)) ≡ only_packet b p
unfolding enqueued
enqueued-only_if true p = refl
enqueued-only_if false p = refl

enqueued-idle_effects :
    (o : Option Bool) (b : Bool) (p : RawPacket)
    → enqueued (idle_effects o ++ only_if b (reports_rms p)) ≡ []
unfolding enqueued
enqueued-idle_effects none true p = refl
enqueued-idle_effects none false p = refl
enqueued-idle_effects (some i) true p = refl
enqueued-idle_effects (some i) false p = refl

pub enqueued-play :
    (c : Config) (r : Receiver) (round : Round) (p : RawPacket)
    → enqueued (play c r round p).1 ≡ only_packet (plays r round p) p
unfolding play
enqueued-play c r round p =
    let (detector, edge) = observe_maybe r.source_idle_detector p.is_silence round.later in
    let rms = c.has_latency_tx && p.seq_num % 100 == 0 in
    enqueued-append (only_if (plays r round p) (enqueues p))
      (idle_effects edge ++ only_if rms (reports_rms p))
    ∙ ap (λ ps. enqueued (only_if (plays r round p) (enqueues p)) ++ ps)
        (enqueued-idle_effects edge rms p)
    ∙ append-nil (enqueued (only_if (plays r round p) (enqueues p)))
    ∙ enqueued-only_if (plays r round p) p

pub enqueued-after_ip :
    (pending : Bool) (ip : Text) (q : Receiver × List Effect)
    → enqueued (after_ip pending ip q).1 ≡ enqueued q.1
unfolding enqueued
enqueued-after_ip true ip (r, es) = refl
enqueued-after_ip false ip (r, es) = refl

abbrev Mute : Receiver × List Effect → Type 0
Mute q = enqueued q.1 ≡ []

play_maybe-Mute :
    (c : Config) (r : Receiver) (round : Round) (q : PcmAssembly × Option RawPacket)
    → round.user_wants_playing && round.room ≡ false
    → Mute (play_maybe c r round q)
play_maybe-Mute c r round (a, none) h = unfold enqueued in refl
play_maybe-Mute c r round (a, some p) h =
    let r' : Receiver = record r { pcm_assembly = a } in
    let off : plays r' round p ≡ false = ground (arith, h) in
    enqueued-play c r' round p ∙ ap (λ b. only_packet b p) off

fail-Mute : (r : Receiver) (e : ErrorKind) (later : ℕ) → Mute (fail r e later)
unfolding fail enqueued
fail-Mute r e later =
    if_elim Mute (is_closed e) _ _ (λ _. refl)
      (λ _.
        if_elim Mute (leb 10 ((later - r.last_packet_time) / 1_000_000)) _ _ (λ _. refl)
          (λ _. if_elim Mute (not (is_benign e)) _ _ (λ _. refl) (λ _. refl)))

rtt-Mute : (r : Receiver) (b : Bool) (m : ℕ) → Mute (r, only_if b (rtt m))
unfolding enqueued
rtt-Mute r true m = refl
rtt-Mute r false m = refl

handle-Mute :
    (c : Config) (r : Receiver) (round : Round) (x : Received)
    → (round.user_wants_playing && round.room) && not (no_audio c x) ≡ false
    → Mute (handle c r round x)
unfolding handle hear no_audio
handle-Mute c r round (failed e) h = fail-Mute r e round.later
handle-Mute c r round (packet buffer len from) h =
    if_elim Mute (is_unexpected c.allowed_streamer_ip from) _ _ (λ _. unfold enqueued in refl)
      (λ n.
        if_elim Mute (matches buffer len) _ _
          (λ _. rtt-Mute r c.has_rtt_tx (round_trip_micros buffer round.later))
          (λ m.
            let r' = arrived r len from round.later in
            let made = assemble r'.pcm_assembly buffer len round.later in
            enqueued-after_ip r.streamer_ip_pending from.ip (play_maybe c r' round made)
            ∙ play_maybe-Mute c r' round made (ground (arith, n, m, h))))

step-Mute :
    (c : Config) (r : Receiver) (round : Round) → audible c round ≡ false → Mute (step c r round)
unfolding step
step-Mute c r round h =
    if_elim Mute (not r.running) _ _ (λ _. unfold enqueued in refl)
      (λ _.
        if_elim Mute round.active _ _ (λ _. handle-Mute c (top r round.now) round round.result h)
          (λ _. unfold enqueued in refl))

unfoldable pub none_audible : Config → List Round → Bool
none_audible c [] = true
none_audible c (round ∷ rounds) = not (audible c round) && none_audible c rounds

-- Nothing is played that should not be. Over any rounds in each of which the user has paused, or the
-- ring buffer is full, or what comes is an error, an echo or a packet of an unexpected sender, no
-- packet is put into the ring buffer.
pub run-Mute :
    (c : Config) (r : Receiver) (rounds : List Round)
    → none_audible c rounds ≡ true
    → enqueued (run c r rounds).1 ≡ []
unfolding run none_audible
run-Mute c r [] h = unfold enqueued in refl
run-Mute c r (round ∷ rounds) h =
    enqueued-append (step c r round).1 (run c (step c r round).0 rounds).1
    ∙ ap (λ ps. ps ++ enqueued (run c (step c r round).0 rounds).1)
        (step-Mute c r round (ground (arith, h)))
    ∙ run-Mute c (step c r round).0 rounds (ground (arith, h))
