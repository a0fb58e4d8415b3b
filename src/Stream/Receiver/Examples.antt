-- ===== src/Stream/Receiver/Examples.antt =====
-- A phone that hears its computer, and its neighbour.
use gemacast.Prelude.{
  ℕ, ◌≡◌, ◌+◌, refl, List, [], ◌∷◌, ◌++◌, ◌&&◌, none, some, true, false, arith, length, take, drop,
}
use gemacast.Prelude.Assoc.{text_eq}
use gemacast.Prelude.Addr.{SocketAddr}
use gemacast.Audio.{RawPacket}
use gemacast.Wire.Packet.{uncompressed}
use gemacast.Wire.Packet.Examples.{
  whole_numbers, whole_numbers-IsCodec, loud_frame, loud_packet, loud_encodes, loud,
}
use gemacast.Stream.Receiver.{
  Config, Receiver, Round, packet, failed, timed_out, Received, new, handle, fail, step, run,
}
use gemacast.Stream.Receiver.Ending.{drops, one_if, leaves, run-reports_once}
use gemacast.Stream.Receiver.Silence.{no_audio, all_no_audio, all_survived, run-silent}
use gemacast.Stream.Receiver.Audio.{enqueued, none_audible, run-Mute}
use gemacast.Stream.Receiver.Encoded.{step-encode}

abbrev computer : SocketAddr
computer = record { ip = 10 ∷ 0 ∷ 0 ∷ 2 ∷ []; port = 4000 }

abbrev neighbour : SocketAddr
neighbour = record { ip = 10 ∷ 0 ∷ 0 ∷ 3 ∷ []; port = 4000 }

abbrev config : Config
config = record {
  allowed_streamer_ip = some (10 ∷ 0 ∷ 0 ∷ 2 ∷ []);
  has_rtt_tx = true;
  has_latency_tx = false;
}

abbrev phone : Receiver
phone = new none true 0

abbrev round : ℕ → Received → Round
round time result = record {
  active = true;
  now = time;
  later = time + 1;
  user_wants_playing = true;
  room = true;
  result = result;
}

abbrev noise : List Round
noise = round 5 (packet (1 ∷ []) 1 neighbour) ∷ round 9 (failed timed_out) ∷ []

-- The user stops the stream.
abbrev stop : Round
stop = record (round 11 (failed timed_out)) { active = false }

run-reports_once_example :
    drops (run config phone (noise ++ (stop ∷ []))).1
      + one_if (run config phone (noise ++ (stop ∷ []))).0.running
      + one_if (leaves config phone (noise ++ (stop ∷ [])))
    ≡ one_if phone.running
run-reports_once_example = run-reports_once config phone (noise ++ (stop ∷ []))

stops_quietly : drops (run config phone (noise ++ (stop ∷ []))).1 ≡ 0
unfolding run step handle fail new drops text_eq
stops_quietly = refl

abbrev silence : List Round
silence = noise ++ (round 10_000_000 (failed timed_out) ∷ [])

run-silent_example :
    (run config phone silence).0.running
    ≡ phone.running && all_survived phone.last_packet_time silence
unfolding all_no_audio no_audio text_eq
run-silent_example = run-silent config phone silence refl

silence_ends : phone.running && all_survived phone.last_packet_time silence ≡ false
unfolding new all_survived
silence_ends = refl

run-Mute_example : enqueued (run config phone noise).1 ≡ []
unfolding none_audible no_audio text_eq
run-Mute_example = run-Mute config phone noise refl

step-encode_example :
    (pkt : RawPacket) × (enqueued
        (step config phone
          (round 3 (packet (loud_packet ++ (0 ∷ [])) (length loud_packet) computer))).1
      ≡ pkt ∷ [])
    × (pkt.seq_num ≡ 6)
    × (take pkt.payload_len pkt.payload_data ≡ drop 9 loud_packet)
unfolding new text_eq
step-encode_example =
    step-encode whole_numbers whole_numbers-IsCodec loud_frame none uncompressed 6 8000 loud_packet
      (0 ∷ []) config phone
      (round 3 (packet (loud_packet ++ (0 ∷ [])) (length loud_packet) computer)) computer
      loud_encodes loud (omega arith) (omega arith) refl refl refl refl refl refl
