-- ===== src/Stream/Receiver/Ending.antt =====
-- The ways in which the loop ends.
use gemacast.Prelude.{
  ℕ, ◌+◌, ◌≤◌, ◌≡◌, refl, List, [], ◌∷◌, ◌++◌, Option, none, some, Bool, true, false, not, ◌&&◌,
  ◌||◌, arith, leb, if_elim, ◌-◌, ◌/◌, ◌%◌, ◌==◌, ap, ◌∙◌,
}
use gemacast.Prelude.Assoc.{Text}
use gemacast.Prelude.Addr.{SocketAddr}
use gemacast.Audio.{RawPacket}
use gemacast.Stream.Echo.{matches, round_trip_micros}
use gemacast.Stream.PcmAssembly.{PcmAssembly}
use gemacast.Stream.Receiver.{
  Config, Receiver, Round, Received, packet, failed, ErrorKind, Effect, rtt, streamer_ip, enqueues,
  reports_rms, network_dropped, top, is_unexpected, is_closed, is_benign, dropped, count_timeout,
  is_timeout, fail, only_if, idle_effects, observe_maybe, play, play_maybe, arrived, after_ip,
  assemble, hear, handle, step, run, suspended,
}

abbrev pub one_if : Bool → ℕ
one_if true = 1
one_if false = 0

abbrev pub is_drop : Effect → Bool
is_drop network_dropped = true
is_drop e = false

-- How often the end is reported.
unfoldable pub drops : List Effect → ℕ
drops [] = 0
drops (e ∷ es) = one_if (is_drop e) + drops es

drops-append : (es fs : List Effect) → drops (es ++ fs) ≡ drops es + drops fs
unfolding drops
drops-append [] fs = omega arith
drops-append (e ∷ es) fs = omega (arith, drops-append es fs)

-- The report comes exactly with the end.
abbrev Reports : Bool → Receiver × List Effect → Type 0
Reports b r = drops r.1 + one_if r.0.running ≡ one_if b

drops-only_if : (b : Bool) (e : Effect) → is_drop e ≡ false → drops (only_if b e) ≡ 0
unfolding drops
drops-only_if true e h = ground (arith, h)
drops-only_if false e h = refl

drops-idle_effects : (o : Option Bool) → drops (idle_effects o) ≡ 0
unfolding drops
drops-idle_effects none = refl
drops-idle_effects (some b) = refl

no_effects-Reports : (r : Receiver) (b : Bool) → r.running ≡ b → Reports b (r, [])
unfolding drops
no_effects-Reports r b e = omega (arith, ap one_if e)

dropped-Reports : (r : Receiver) → Reports true (dropped r)
unfolding drops
dropped-Reports r = refl

pub count_timeout-running :
    (e : ErrorKind) (r : Receiver)
    → ((count_timeout e r).running ≡ r.running)
      × ((count_timeout e r).last_packet_time ≡ r.last_packet_time)
count_timeout-running e r =
    if_elim (λ (q : Receiver). (q.running ≡ r.running) × (q.last_packet_time ≡ r.last_packet_time))
      (is_timeout e) _ _ (λ _. (refl, refl)) (λ _. (refl, refl))

fail-Reports :
    (r : Receiver) (e : ErrorKind) (later : ℕ) → r.running ≡ true → Reports true (fail r e later)
unfolding fail
fail-Reports r e later on =
    let r' = count_timeout e r in
    if_elim (Reports true) (is_closed e) _ _ (λ _. dropped-Reports r')
      (λ _.
        if_elim (Reports true) (leb 10 ((later - r.last_packet_time) / 1_000_000)) _ _
          (λ _. dropped-Reports r')
          (λ _.
            if_elim (Reports true) (not (is_benign e)) _ _ (λ _. dropped-Reports r')
              (λ _. no_effects-Reports r' true ((count_timeout-running e r).0 ∙ on))))

play-Reports :
    (c : Config) (r : Receiver) (round : Round) (p : RawPacket)
    → r.running ≡ true
    → Reports true (play c r round p)
unfolding play
play-Reports c r round p on =
    let (detector, edge) = observe_maybe r.source_idle_detector p.is_silence round.later in
    let plays =
      (round.user_wants_playing && not (suspended detector && p.is_silence)) && round.room in
    let rms = c.has_latency_tx && p.seq_num % 100 == 0 in
    omega (
      arith,
      ap one_if on,
      drops-only_if plays (enqueues p) refl,
      drops-idle_effects edge,
      drops-only_if rms (reports_rms p) refl,
      drops-append (idle_effects edge) (only_if rms (reports_rms p)),
      drops-append (only_if plays (enqueues p)) (idle_effects edge ++ only_if rms (reports_rms p)),
    )

play_maybe-Reports :
    (c : Config) (r : Receiver) (round : Round) (q : PcmAssembly × Option RawPacket)
    → r.running ≡ true
    → Reports true (play_maybe c r round q)
play_maybe-Reports c r round (a, none) on =
    no_effects-Reports (record r { pcm_assembly = a }) true on
play_maybe-Reports c r round (a, some p) on =
    play-Reports c (record r { pcm_assembly = a }) round p on

after_ip-Reports :
    (pending : Bool) (ip : Text) (q : Receiver × List Effect)
    → Reports true q
    → Reports true (after_ip pending ip q)
after_ip-Reports pending ip (r, es) h = omega (
  arith,
  h,
  drops-append (only_if pending (streamer_ip ip)) es,
  drops-only_if pending (streamer_ip ip) refl,
)

hear-Reports :
    (c : Config) (r : Receiver) (round : Round) (buffer : List ℕ) (len : ℕ) (from : SocketAddr)
    → r.running ≡ true
    → Reports true (hear c r round buffer len from)
unfolding hear
hear-Reports c r round buffer len from on =
    let r' = arrived r len from round.later in
    let made = assemble r'.pcm_assembly buffer len round.later in
    after_ip-Reports r.streamer_ip_pending from.ip (play_maybe c r' round made)
      (play_maybe-Reports c r' round made on)

handle-Reports :
    (c : Config) (r : Receiver) (round : Round) (x : Received)
    → r.running ≡ true
    → Reports true (handle c r round x)
unfolding handle
handle-Reports c r round (failed e) on = fail-Reports r e round.later on
handle-Reports c r round (packet buffer len from) on =
    if_elim (Reports true) (is_unexpected c.allowed_streamer_ip from) _ _
      (λ _. no_effects-Reports r true on)
      (λ _.
        if_elim (Reports true) (matches buffer len) _ _
          (λ _. omega (
            arith,
            drops-only_if c.has_rtt_tx (rtt (round_trip_micros buffer round.later)) refl,
            ap one_if on,
          ))
          (λ _. hear-Reports c r round buffer len from on))

-- A running loop finds `active` cleared.
abbrev leaves_at : Receiver → Round → Bool
leaves_at r round = r.running && not round.active

-- The loop ends, within the rounds, because it finds `active` cleared.
unfoldable pub leaves : Config → Receiver → List Round → Bool
leaves c r [] = false
leaves c r (round ∷ rounds) = leaves_at r round || leaves c (step c r round).0 rounds

abbrev ReportsOr : Bool → Bool → Receiver × List Effect → Type 0
ReportsOr b left r = drops r.1 + one_if r.0.running + one_if left ≡ one_if b

step-ReportsOr :
    (c : Config) (r : Receiver) (round : Round)
    → ReportsOr r.running (leaves_at r round) (step c r round)
unfolding step drops
step-ReportsOr c r round =
    let Good = λ (q : Receiver × List Effect). ReportsOr r.running (leaves_at r round) q in
    if_elim Good (not r.running) _ _
      (λ off. let e : r.running ≡ false = ground (arith, off) in rw e refl)
      (λ on.
        let e : r.running ≡ true = ground (arith, on) in
        if_elim Good round.active _ _
          (λ a.
            let h = handle-Reports c (top r round.now) round round.result e in
            let stay : leaves_at r round ≡ false = ground (arith, a) in
            omega (arith, h, ap one_if e, ap one_if stay))
          (λ a. rw (e, a) refl))

one_if-or : (a b : Bool) → one_if a + one_if b ≤ 1 → one_if (a || b) ≡ one_if a + one_if b
one_if-or true true h = absurd (omega (arith, h))
one_if-or true false h = refl
one_if-or false b h = omega arith

one_if_le : (b : Bool) → one_if b ≤ 1
one_if_le true = omega arith
one_if_le false = omega arith

-- The loop ends in one of two ways, and reports a drop of the network exactly in the one: over any
-- rounds, a receiver that runs at the start either still runs, or has reported a drop once, or has
-- found `active` cleared, and it is one of the three alone; one that does not run reports nothing.
pub run-reports_once :
    (c : Config) (r : Receiver) (rounds : List Round)
    → drops (run c r rounds).1 + one_if (run c r rounds).0.running + one_if (leaves c r rounds)
      ≡ one_if r.running
unfolding run leaves drops
run-reports_once c r [] = omega arith
run-reports_once c r (round ∷ rounds) =
    let here = step-ReportsOr c r round in
    let later = run-reports_once c (step c r round).0 rounds in
    let one = one_if_le r.running in
    let either =
      one_if-or (leaves_at r round) (leaves c (step c r round).0 rounds)
        (omega (arith, here, later, one)) in
    omega (
      arith,
      here,
      later,
      either,
      drops-append (step c r round).1 (run c (step c r round).0 rounds).1,
    )
