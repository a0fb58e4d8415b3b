-- ===== src/Stream/UdpSender/Session.antt =====
-- The rounds of a session: where it sends, and its assertions.
use gemacast.Prelude.{
  ℕ, ◌+◌, ◌≤◌, ◌≡◌, refl, List, [], ◌∷◌, ◌++◌, Option, none, some, Bool, true, false, ◌&&◌, arith,
  if_elim, length, ok, err, Result, zero, suc, ◌∙◌, subst,
}
use gemacast.Prelude.Addr.{SocketAddr, addr_eq, addr_eq_iff}
use gemacast.Audio.{max_opus_packet_size}
use gemacast.Wire.Packet.{Codec, AudioBitrate, AudioError, encode}
use gemacast.Wire.Packet.RoundTrip.{IsCodec, encode-IsFrame}
use gemacast.Wire.PcmDatagram.{chunks}
use gemacast.Wire.PcmDatagram.RoundTrip.{IsFrame, datagram, encode-datagram}
use gemacast.Stream.Echo.{matches}
use gemacast.Stream.UdpSender.{
  SendCounters, Answer, Datagram, CapturedFrame, expired, Event, shutdown, report_due,
  inbound_failed, closed, inbound, lagged, captured, due, Sender, new, counted, answer, further,
  Sent, send_chunks, send_pending, with_age, send_due, hold, capture, handle, step, run,
}

abbrev pub OnlyTo : SocketAddr → List Datagram → Type 0
OnlyTo a [] = Unit {0}
OnlyTo a (d ∷ ds) = (d.to ≡ a) × OnlyTo a ds

OnlyTo-append :
    (a : SocketAddr) (ds es : List Datagram) → OnlyTo a ds → OnlyTo a es → OnlyTo a (ds ++ es)
OnlyTo-append a [] es p q = q
OnlyTo-append a (d ∷ ds) es p q = (p.0, OnlyTo-append a ds es p.1 q)

module _ (k : Codec) (valid : IsCodec k) where
  -- What is true of a sender to a phone at all times: a packet that is to be sent in chunks is one.
  pub record Good (a : SocketAddr) (s : Sender k) : Type 0 where
    pub to_phone : s.target ≡ a
    pub ready : s.chunked ≡ true → IsFrame s.packet

  abbrev SendsTo : SocketAddr → Sent k → Type 0
  SendsTo a r = (r.panicked ≡ false) × OnlyTo a r.datagrams

  send_chunks-SendsTo :
      (left index : ℕ) (s : Sender k) (c : SendCounters) (answers : List Answer)
      → left + index ≤ 4
      → IsFrame s.packet
      → SendsTo s.target (send_chunks k left index s c answers)
  unfolding send_chunks
  send_chunks-SendsTo zero index s c answers h f = (refl, tt)
  send_chunks-SendsTo (suc left) index s c answers h f =
      let chunk = datagram s.packet s.generation index in
      let (c', went) = counted k c (length chunk) (answer k answers) in
      let rest =
        send_chunks-SendsTo left (index + 1) s c' (further k answers) (omega (arith, h)) f in
      rw (encode-datagram s.packet s.generation index f (omega (arith, h)), send_chunks)
        (if_elim (SendsTo s.target) went _ _ (λ _. (rest.0, (refl, rest.1)))
          (λ _. (refl, (refl, tt))))

  -- What a round leaves, and that it stops nothing.
  abbrev Fine : SocketAddr → Bool → Sender k × List Datagram → Type 0
  Fine a b r = Good a r.0 × OnlyTo a r.1 × (r.0.running ≡ b)

  send_pending-Fine :
      (a : SocketAddr) (s : Sender k) (now : ℕ) (answers : List Answer)
      → Good a s
      → Fine a s.running (send_pending k s now answers)
  send_pending-Fine a s now answers g =
      if_elim (Fine a s.running) s.chunked _ _
        (λ chunked.
          let r = send_chunks k chunks 0 s s.counters answers in
          let (fine, only) =
            send_chunks-SendsTo 4 0 s s.counters answers (omega arith) (g.ready chunked) in
          if_elim (Fine a s.running) r.panicked _ _ (λ p. absurd (ground (arith, p, fine)))
            (λ _. (
              record { to_phone = g.to_phone; ready = g.ready },
              subst (λ t. OnlyTo t r.datagrams) g.to_phone only,
              refl,
            )))
        (λ _. (record { to_phone = g.to_phone; ready = g.ready }, (g.to_phone, tt), refl))

  send_due-Fine :
      (a : SocketAddr) (s : Sender k) (now : ℕ) (answers : List Answer)
      (o : Option (CapturedFrame k))
      → Good a s
      → Fine a s.running (send_due k s now answers o)
  send_due-Fine a s now answers none g = (g, tt, refl)
  send_due-Fine a s now answers (some frame) g =
      let c = with_age k s.counters now frame in
      if_elim (Fine a s.running) (expired k frame now) _ _
        (λ _. (record { to_phone = g.to_phone; ready = g.ready }, tt, refl))
        (λ _.
          send_pending-Fine a (record s { counters = c }) now answers
            (record { to_phone = g.to_phone; ready = g.ready }))

  module _ (encoder : Option k.Encoder) (bitrate : AudioBitrate) where
    hold-Good :
        (a : SocketAddr) (s : Sender k) (frame : CapturedFrame k) (seq : ℕ)
        (r : Result AudioError (List ℕ))
        → encode k frame.samples encoder bitrate seq max_opus_packet_size ≡ r
        → Good a s
        → Good a (hold k s frame r)
    hold-Good a s frame seq (err e) q g = record { to_phone = g.to_phone; ready = g.ready }
    hold-Good a s frame seq (ok packet) q g = record {
      to_phone = g.to_phone;
      ready = λ flag.
          encode-IsFrame k valid frame.samples encoder bitrate seq max_opus_packet_size packet q
            (ground (arith, flag));
    }

    capture-Good :
        (a : SocketAddr) (s : Sender k) (frame : CapturedFrame k) (now : ℕ)
        (o : Option (CapturedFrame k))
        → Good a s
        → Good a (capture k encoder bitrate s frame now o)
    capture-Good a s frame now (some p) g = g
    capture-Good a s frame now none g =
        if_elim (Good a) (expired k frame now) _ _
          (λ _. record { to_phone = g.to_phone; ready = g.ready })
          (λ _. hold-Good a s frame _ _ refl g)

    abbrev Kept : SocketAddr → Sender k × List Datagram → Type 0
    Kept a r = Good a r.0 × OnlyTo a r.1

    handle-Kept :
        (a : SocketAddr) (s : Sender k) (e : Event k)
        → Good a s
        → Kept a (handle k encoder bitrate s e)
    handle-Kept a s shutdown g = (record { to_phone = g.to_phone; ready = g.ready }, tt)
    handle-Kept a s report_due g = (record { to_phone = g.to_phone; ready = g.ready }, tt)
    handle-Kept a s inbound_failed g = (record { to_phone = g.to_phone; ready = g.ready }, tt)
    handle-Kept a s closed g = (record { to_phone = g.to_phone; ready = g.ready }, tt)
    handle-Kept a s (inbound buffer len from) g =
        if_elim (Kept a) (addr_eq from s.target && matches buffer len) _ _
          (λ same. (g, ((addr_eq_iff from s.target).0 (ground (arith, same)) ∙ g.to_phone, tt)))
          (λ _. (g, tt))
    handle-Kept a s (lagged n) g = (record { to_phone = g.to_phone; ready = g.ready }, tt)
    handle-Kept a s (captured frame now) g = (capture-Good a s frame now s.pending g, tt)
    handle-Kept a s (due now answers) g =
        let (good, only, _) = send_due-Fine a s now answers s.pending g in (good, only)

    step-Kept :
        (a : SocketAddr) (s : Sender k) (e : Event k)
        → Good a s
        → Kept a (step k encoder bitrate s e)
    unfolding step
    step-Kept a s e g = if_elim (Kept a) s.running _ _ (λ _. handle-Kept a s e g) (λ _. (g, tt))

    run-Kept :
        (a : SocketAddr) (s : Sender k) (es : List (Event k))
        → Good a s
        → Kept a (run k encoder bitrate s es)
    unfolding run
    run-Kept a s [] g = (g, tt)
    run-Kept a s (e ∷ es) g =
        let (good, only) = step-Kept a s e g in
        let (last, rest) = run-Kept a (step k encoder bitrate s e).0 es good in
        (
          last,
          OnlyTo-append a (step k encoder bitrate s e).1
              (run k encoder bitrate (step k encoder bitrate s e).0 es).1 only rest,
        )

    -- A session sends only to its phone. Whatever frames are captured, whatever arrives at the socket and
    -- however it answers, every datagram of a new session, the echoes included, goes to the target;
    -- and a round that sends does not end the session: the assertions with which a frame is cut into
    -- datagrams hold. The codec is as for the decoder.
    pub run-OnlyTo :
        (target : SocketAddr) (previous epoch_micros epoch_millis start : ℕ) (es : List (Event k))
        (now : ℕ) (answers : List Answer)
        → let r =
            run k encoder bitrate (new k target previous epoch_micros epoch_millis start) es in
          OnlyTo target r.1
          × ((step k encoder bitrate r.0 (due now answers)).0.running ≡ r.0.running)
    unfolding step
    run-OnlyTo target previous epoch_micros epoch_millis start es now answers =
        let fresh = new k target previous epoch_micros epoch_millis start in
        let (good, only) =
          run-Kept target fresh es
            (record { to_phone = refl; ready = λ h. absurd (ground (arith, h)) }) in
        let s = (run k encoder bitrate fresh es).0 in
        (
          only,
          if_elim (λ (q : Sender k × List Datagram). q.0.running ≡ s.running) s.running _ _
              (λ _. (send_due-Fine target s now answers s.pending good).2) (λ _. refl),
        )
