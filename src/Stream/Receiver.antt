-- ===== src/Stream/Receiver.antt =====
-- gemacast-core/src/stream/player/packet_receiver.rs, with receive_diagnostics.rs: the loop that receives
-- audio, one round for each result of the transport. What the loop does to the outside is a list
-- of effects. `now` is the time at the top of the loop and `later` that after the transport returned.
pub mod Ending
pub mod Silence
pub mod Audio
pub mod Encoded
mod Examples
use gemacast.Prelude.{
  ℕ, ◌+◌, ◌-◌, ◌/◌, ◌%◌, List, [], ◌∷◌, ◌++◌, Option, none, some, Bool, true, false, not, ◌&&◌,
  ◌||◌, max, ltb, leb, ◌==◌, if◌then◌else◌, Result, ok, err, take, get_or,
}
use gemacast.Prelude.Assoc.{Text, text_eq}
use gemacast.Prelude.Addr.{SocketAddr}
use gemacast.Audio.{RawPacket, seq_num_size, ProtocolError}
use gemacast.Wire.Packet.{decode as decode_packet}
use gemacast.Wire.PcmDatagram.{PcmChunk, format as pcm_format, decode as decode_datagram}
use gemacast.Stream.Echo.{matches, round_trip_micros}
use gemacast.Stream.PcmAssembly.{PcmAssembly, new as new_assembly, expire, push}
use gemacast.Stream.SourceIdle.{SourceIdleDetector, new as new_detector, observe, is_suspended}

pub record ReceiveDiagnostics : Type 0 where
  pub window_start : ℕ
  pub last_datagram : Option ℕ
  pub datagrams : ℕ
  pub bytes : ℕ
  pub timeouts : ℕ
  pub max_gap_us : ℕ

abbrev pub new_diagnostics : ℕ → ReceiveDiagnostics
new_diagnostics now = record {
  window_start = now;
  last_datagram = none;
  datagrams = 0;
  bytes = 0;
  timeouts = 0;
  max_gap_us = 0;
}

abbrev pub widest_gap : ReceiveDiagnostics → ℕ → Option ℕ → ℕ
widest_gap d now none = d.max_gap_us
widest_gap d now (some last) = max d.max_gap_us (now - last)

abbrev pub received_bytes : ReceiveDiagnostics → ℕ → ℕ → ReceiveDiagnostics
received_bytes d bytes now = record d {
  max_gap_us = widest_gap d now d.last_datagram;
  last_datagram = some now;
  datagrams = d.datagrams + 1;
  bytes = d.bytes + bytes;
}

abbrev pub timeout : ReceiveDiagnostics → ReceiveDiagnostics
timeout d = record d { timeouts = d.timeouts + 1 }

abbrev pub report : ReceiveDiagnostics → ℕ → ReceiveDiagnostics
report d now =
    if ltb (now - d.window_start) 1_000_000
    then d
    else record d { window_start = now; datagrams = 0; bytes = 0; timeouts = 0; max_gap_us = 0 }

pub data ErrorKind : Type 0 where
  timed_out would_block interrupted unexpected_eof connection_reset other : ErrorKind

-- The receive buffer as a whole, of which the first `len` bytes are the packet, and its sender.
pub data Received : Type 0 where
  packet : (buffer : List ℕ) (len : ℕ) (from : SocketAddr) → Received
  failed : ErrorKind → Received

-- One round. The flag `active` that the loop reads before it, the user's wish and the room in the
-- ring buffer are what the other threads make of them.
pub record Round : Type 0 where
  pub active : Bool
  pub now : ℕ
  pub later : ℕ
  pub user_wants_playing : Bool
  pub room : Bool
  pub result : Received

pub data Effect : Type 0 where
  rtt : ℕ → Effect
  streamer_ip : Text → Effect
  enqueues : RawPacket → Effect
  source_idle : Bool → Effect
  reports_rms : RawPacket → Effect
  network_dropped : Effect

-- Whether there are channels for the round trips and for the latency.
pub record Config : Type 0 where
  pub allowed_streamer_ip : Option Text
  pub has_rtt_tx : Bool
  pub has_latency_tx : Bool

pub record Receiver : Type 0 where
  pub running : Bool
  pub last_packet_time : ℕ
  pub first_packet_received : Bool
  pub source_idle_detector : Option SourceIdleDetector
  pub pcm_assembly : PcmAssembly
  pub diagnostics : ReceiveDiagnostics
  pub streamer_ip_pending : Bool
  pub streamer_port : ℕ

abbrev pub detector_for : Option ℕ → Option SourceIdleDetector
detector_for none = none
detector_for (some idle_after) = some (new_detector idle_after)

-- `has_ip_tx`: someone waits for the streamer's address.
unfoldable pub new : Option ℕ → Bool → ℕ → Receiver
new source_idle_after has_ip_tx now = record {
  running = true;
  last_packet_time = now;
  first_packet_received = false;
  source_idle_detector = detector_for source_idle_after;
  pcm_assembly = new_assembly;
  diagnostics = new_diagnostics now;
  streamer_ip_pending = has_ip_tx;
  streamer_port = 0;
}

-- The top of the loop.
abbrev pub top : Receiver → ℕ → Receiver
top r now = record r {
  pcm_assembly = expire r.pcm_assembly now;
  diagnostics = report r.diagnostics now;
}

abbrev pub is_unexpected : Option Text → SocketAddr → Bool
is_unexpected none from = false
is_unexpected (some allowed) from = not (text_eq allowed from.ip)

abbrev pub is_timeout : ErrorKind → Bool
is_timeout timed_out = true
is_timeout would_block = true
is_timeout _ = false

abbrev pub is_closed : ErrorKind → Bool
is_closed unexpected_eof = true
is_closed connection_reset = true
is_closed _ = false

abbrev pub is_benign : ErrorKind → Bool
is_benign interrupted = true
is_benign e = is_timeout e

abbrev pub dropped : Receiver → Receiver × List Effect
dropped r = (record r { running = false }, network_dropped ∷ [])

abbrev pub count_timeout : ErrorKind → Receiver → Receiver
count_timeout e r = if is_timeout e then record r { diagnostics = timeout r.diagnostics } else r

-- `Err(e)`. Ten seconds are `elapsed().as_secs() >= 10`.
unfoldable pub fail : Receiver → ErrorKind → ℕ → Receiver × List Effect
fail r e later =
    if is_closed e
    then dropped (count_timeout e r)
    else if leb 10 ((later - r.last_packet_time) / 1_000_000)
    then dropped (count_timeout e r)
    else if not (is_benign e)
    then dropped (count_timeout e r)
    else (count_timeout e r, [])

abbrev pub push_decoded :
    PcmAssembly → Result ProtocolError PcmChunk → ℕ → PcmAssembly × Option RawPacket
push_decoded a (err e) later = (a, none)
push_decoded a (ok chunk) later = push a chunk later

abbrev pub decoded : Result ProtocolError RawPacket → Option RawPacket
decoded (err e) = none
decoded (ok p) = some p

-- The packet that the bytes make, alone or with those before.
unfoldable pub assemble : PcmAssembly → List ℕ → ℕ → ℕ → PcmAssembly × Option RawPacket
assemble a buffer len later =
    if ltb seq_num_size len && get_or buffer seq_num_size 0 == pcm_format
    then push_decoded a (decode_datagram (take len buffer)) later
    else (a, decoded (decode_packet buffer len later))

abbrev pub observe_maybe :
    Option SourceIdleDetector → Bool → ℕ → Option SourceIdleDetector × Option Bool
observe_maybe none is_silence later = (none, none)
observe_maybe (some d) is_silence later =
    let (d', edge) = observe d is_silence later in (some d', edge)

abbrev pub suspended : Option SourceIdleDetector → Bool
suspended none = false
suspended (some d) = is_suspended d

abbrev pub idle_effects : Option Bool → List Effect
idle_effects none = []
idle_effects (some idle) = source_idle idle ∷ []

abbrev pub only_if : Bool → Effect → List Effect
only_if true e = e ∷ []
only_if false e = []

-- From the packet on.
unfoldable pub play : Config → Receiver → Round → RawPacket → Receiver × List Effect
play c r round p =
    let (detector, edge) = observe_maybe r.source_idle_detector p.is_silence round.later in
    let should_enqueue = round.user_wants_playing && not (suspended detector && p.is_silence) in
    (
      record r { source_idle_detector = detector },
      only_if (should_enqueue && round.room) (enqueues p)
          ++ (idle_effects edge
              ++ only_if (c.has_latency_tx && p.seq_num % 100 == 0) (reports_rms p)),
    )

abbrev pub play_maybe :
    Config → Receiver → Round → PcmAssembly × Option RawPacket → Receiver × List Effect
play_maybe c r round (a, none) = (record r { pcm_assembly = a }, [])
play_maybe c r round (a, some p) = play c (record r { pcm_assembly = a }) round p

-- The books on a packet that is audio.
abbrev pub arrived : Receiver → ℕ → SocketAddr → ℕ → Receiver
arrived r len from later = record r {
  diagnostics = received_bytes r.diagnostics len later;
  last_packet_time = later;
  first_packet_received = true;
  streamer_port = from.port;
  streamer_ip_pending = false;
}

abbrev pub after_ip : Bool → Text → Receiver × List Effect → Receiver × List Effect
after_ip pending ip (r, es) = (r, only_if pending (streamer_ip ip) ++ es)

unfoldable pub hear : Config → Receiver → Round → List ℕ → ℕ → SocketAddr → Receiver × List Effect
unfolding assemble play
hear c r round buffer len from =
    let r' = arrived r len from round.later in
    after_ip r.streamer_ip_pending from.ip
      (play_maybe c r' round (assemble r'.pcm_assembly buffer len round.later))

unfoldable pub handle : Config → Receiver → Round → Received → Receiver × List Effect
unfolding fail hear
handle c r round (failed e) = fail r e round.later
handle c r round (packet buffer len from) =
    if is_unexpected c.allowed_streamer_ip from
    then (r, [])
    else if matches buffer len
    then (r, only_if c.has_rtt_tx (rtt (round_trip_micros buffer round.later)))
    else hear c r round buffer len from

-- The loop ends without a report when `active` is cleared.
abbrev pub leave : Receiver → Receiver × List Effect
leave r = (record r { running = false }, [])

unfoldable pub step : Config → Receiver → Round → Receiver × List Effect
unfolding handle
step c r round =
    if not r.running
    then (r, [])
    else if round.active
    then handle c (top r round.now) round round.result
    else leave r

unfoldable pub run : Config → Receiver → List Round → Receiver × List Effect
unfolding step
run c r [] = (r, [])
run c r (round ∷ rounds) =
    let (r', es) = step c r round in let (last, rest) = run c r' rounds in (last, es ++ rest)
