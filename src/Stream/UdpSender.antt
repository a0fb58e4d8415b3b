-- ===== src/Stream/UdpSender.antt =====
-- gemacast-core/src/stream/streamer/udp_audio_sender.rs and captured_frame.rs: the session of a sender to
-- one phone, a round for each event that `select!` takes. The datagrams that a round gives to the
-- socket are its effects, and what the socket answers is an argument. Times are nanoseconds.
pub mod Session
pub mod Arrival
mod Examples
use gemacast.Prelude.{
  ℕ, ◌+◌, ◌-◌, ◌/◌, ◌%◌, ◌^◌, List, [], ◌∷◌, ◌++◌, Option, none, some, Bool, true, false, not, ◌&&◌,
  leb, ltb, ◌==◌, if◌then◌else◌, Result, ok, err, get_or, take, length, max, zero, suc,
}
use gemacast.Prelude.Addr.{SocketAddr, addr_eq}
use gemacast.Audio.{format_uncompressed, max_opus_packet_size}
use gemacast.Wire.Packet.{Codec, AudioBitrate, AudioError, encode}
use gemacast.Wire.PcmDatagram.{chunks, encode as encode_datagram}
use gemacast.Stream.Echo.{matches}
use gemacast.Stream.PacketPacer.{PacketPacer, new as new_pacer, sent}

-- 10 ms and 40 ms.
abbrev pub duration : ℕ
duration = 10_000_000

abbrev pub max_send_age : ℕ
max_send_age = 40_000_000

pub record SendCounters : Type 0 where
  pub packets : ℕ
  pub bytes : ℕ
  pub pcm_frames : ℕ
  pub incomplete_pcm_frames : ℕ
  pub expired_frames : ℕ
  pub lagged_frames : ℕ
  pub would_block : ℕ
  pub send_errors : ℕ
  pub max_age_us : ℕ

abbrev pub no_counters : SendCounters
no_counters = record {
  packets = 0;
  bytes = 0;
  pcm_frames = 0;
  incomplete_pcm_frames = 0;
  expired_frames = 0;
  lagged_frames = 0;
  would_block = 0;
  send_errors = 0;
  max_age_us = 0;
}

-- `(previous + 1).max(epoch.as_micros())`, for the last generation and the time since the epoch.
abbrev pub next_generation : ℕ → ℕ → ℕ
next_generation previous epoch_micros = max (previous + 1) epoch_micros

-- The answer to `try_send_to`.
pub data Answer : Type 0 where
  taken : ℕ → Answer
  blocked refused : Answer

pub record Datagram : Type 0 where
  pub to : SocketAddr
  pub content : List ℕ

module _ (k : Codec) where
  pub record CapturedFrame : Type 0 where
    pub samples : List k.F32
    pub position : ℕ
    pub ready_at : ℕ

  abbrev pub expired : CapturedFrame → ℕ → Bool
  expired frame now = leb max_send_age (now - frame.ready_at)

  pub data Event : Type 0 where
    shutdown report_due inbound_failed closed : Event
    inbound : (buffer : List ℕ) (len : ℕ) (from : SocketAddr) → Event
    lagged : ℕ → Event
    captured : CapturedFrame → ℕ → Event
    due : ℕ → List Answer → Event

  -- `packet` belongs to the pending frame; `running` is false once the loop has ended.
  pub record Sender : Type 0 where
    pub target : SocketAddr
    pub generation : ℕ
    pub sequence_base : ℕ
    pub counters : SendCounters
    pub pending : Option CapturedFrame
    pub packet : List ℕ
    pub chunked : Bool
    pub pacer : PacketPacer
    pub running : Bool

  abbrev pub new : SocketAddr → ℕ → ℕ → ℕ → ℕ → Sender
  new target previous epoch_micros epoch_millis now = record {
    target = target;
    generation = next_generation previous epoch_micros;
    sequence_base = epoch_millis;
    counters = no_counters;
    pending = none;
    packet = [];
    chunked = false;
    pacer = new_pacer now;
    running = true;
  }

  abbrev pub send_error : SendCounters → SendCounters
  send_error c = record c { send_errors = c.send_errors + 1 }

  -- The counters after an answer, and whether the datagram went out.
  abbrev pub counted : SendCounters → ℕ → Answer → SendCounters × Bool
  counted c len (taken n) =
      if n == len
      then (record c { packets = c.packets + 1; bytes = c.bytes + n }, true)
      else (send_error c, false)
  counted c len blocked = (record c { would_block = c.would_block + 1 }, false)
  counted c len refused = (send_error c, false)

  -- The next answer of the socket.
  abbrev pub answer : List Answer → Answer
  answer [] = blocked
  answer (a ∷ as') = a

  abbrev pub further : List Answer → List Answer
  further [] = []
  further (a ∷ as') = as'

  -- What the loop over the chunks has done: the counters, whether the frame is complete, whether an
  -- assertion of the encoding failed, and the datagrams.
  pub record Sent : Type 0 where
    pub after : SendCounters
    pub complete : Bool
    pub panicked : Bool
    pub datagrams : List Datagram

  abbrev pub then_more : Datagram → Sent → Sent
  then_more d s = record s { datagrams = d ∷ s.datagrams }

  unfoldable pub send_chunks : ℕ → ℕ → Sender → SendCounters → List Answer → Sent
  send_chunks zero index s c answers = record {
    after = c;
    complete = true;
    panicked = false;
    datagrams = [];
  }
  send_chunks (suc left) index s c answers = elim (encode_datagram s.packet s.generation index) [
    | none ↦ record { after = c; complete = false; panicked = true; datagrams = [] }
    | some chunk ↦
        let (c', went) = counted c (length chunk) (answer answers) in
        let rest = send_chunks left (index + 1) s c' (further answers) in
        let d : Datagram = record { to = s.target; content = chunk } in
        if went
        then then_more d rest
        else record { after = c'; complete = false; panicked = false; datagrams = d ∷ [] }
  ]

  abbrev pub count_frame : Sent → SendCounters
  count_frame r =
      let c : SendCounters = record r.after { pcm_frames = r.after.pcm_frames + 1 } in
      if r.complete then c else record c { incomplete_pcm_frames = c.incomplete_pcm_frames + 1 }

  abbrev pub cleared : Sender → ℕ → SendCounters → Sender
  cleared s now c = record s { counters = c; pending = none; pacer = sent s.pacer now duration }

  abbrev pub send_pending : Sender → ℕ → List Answer → Sender × List Datagram
  send_pending s now answers =
      if s.chunked
      then (let r = send_chunks chunks 0 s s.counters answers in
          if r.panicked
          then (record s { running = false }, r.datagrams)
          else (cleared s now (count_frame r), r.datagrams))
      else (
        cleared s now (counted s.counters (length s.packet) (answer answers)).0,
        record { to = s.target; content = s.packet } ∷ [],
      )

  abbrev pub with_age : SendCounters → ℕ → CapturedFrame → SendCounters
  with_age c now frame = record c { max_age_us = max c.max_age_us ((now - frame.ready_at) / 1_000) }

  abbrev pub count_expired : SendCounters → SendCounters
  count_expired c = record c { expired_frames = c.expired_frames + 1 }

  abbrev pub send_due : Sender → ℕ → List Answer → Option CapturedFrame → Sender × List Datagram
  send_due s now answers none = (s, [])
  send_due s now answers (some frame) =
      let c = with_age s.counters now frame in
      if expired frame now
      then (record s { counters = count_expired c; pending = none }, [])
      else send_pending (record s { counters = c }) now answers

  abbrev pub hold : Sender → CapturedFrame → Result AudioError (List ℕ) → Sender
  hold s frame (err e) = record s { running = false }
  hold s frame (ok packet) = record s {
    packet = packet;
    chunked = get_or packet 8 0 == format_uncompressed;
    pending = some frame;
  }

  module _ (encoder : Option k.Encoder) (bitrate : AudioBitrate) where
    -- A frame is taken only if none is pending.
    abbrev pub capture : Sender → CapturedFrame → ℕ → Option CapturedFrame → Sender
    capture s frame now (some p) = s
    capture s frame now none =
        if expired frame now
        then record s { counters = count_expired s.counters }
        else hold s frame (
            encode k frame.samples encoder bitrate ((s.sequence_base + frame.position) % 2 ^ 64)
              max_opus_packet_size)

    abbrev pub handle : Sender → Event → Sender × List Datagram
    handle s shutdown = (record s { running = false }, [])
    handle s report_due = (record s { counters = no_counters }, [])
    handle s inbound_failed = (record s { running = false }, [])
    handle s closed = (record s { running = false }, [])
    handle s (inbound buffer len from) =
        if addr_eq from s.target && matches buffer len
        then (s, record { to = from; content = take len buffer } ∷ [])
        else (s, [])
    handle s (lagged n) = (
      record s { counters = record s.counters { lagged_frames = s.counters.lagged_frames + n } },
      [],
    )
    handle s (captured frame now) = (capture s frame now s.pending, [])
    handle s (due now answers) = send_due s now answers s.pending

    unfoldable pub step : Sender → Event → Sender × List Datagram
    unfolding send_chunks
    step s e = if s.running then handle s e else (s, [])

    unfoldable pub run : Sender → List Event → Sender × List Datagram
    unfolding step
    run s [] = (s, [])
    run s (e ∷ es) = let (s', ds) = step s e in let (last, rest) = run s' es in (last, ds ++ rest)
