-- ===== src/Stream/CaptureInstance.antt =====
-- gemacast-core/src/stream/streamer/capture_instance.rs: the encoders of one capture, without the tasks
-- that they run. Creating an Opus encoder may fail, which is an argument, and a broadcast channel
-- is known by a number, a new one by the argument `fresh`.
use gemacast.Prelude.{
  ℕ, ◌+◌, ◌%◌, ◌^◌, [], Option, none, some, Bool, true, false, ◌&&◌, max, leb, ◌==◌, if◌then◌else◌,
  Result, ok, err,
}
use gemacast.Prelude.Assoc.{text_Eq, Text, Assoc, Map, lookup, insert, remove}
use gemacast.Prelude.Addr.{SocketAddr, addr_Eq}
use gemacast.Wire.Packet.{AudioBitrate, uncompressed, opus}

-- An `i32`.
pub data ℤ : Type 0 where
  pos negsuc : ℕ → ℤ

abbrev pub min_opus_bitrate_bps : ℕ
min_opus_bitrate_bps = 6_000

abbrev pub max_opus_bitrate_bps : ℕ
max_opus_bitrate_bps = 512_000

pub data StreamError : Type 0 where
  invalid_bitrate : ℤ → StreamError
  opus_init_failed capture_failed process_capture_unavailable source_not_subscribed : StreamError
  capture_pool_exhausted : ℕ → StreamError

abbrev pub from_wire : Option ℤ → Result StreamError AudioBitrate
from_wire none = ok uncompressed
from_wire (some (pos bps)) =
    if leb min_opus_bitrate_bps bps && leb bps max_opus_bitrate_bps
    then ok (opus bps)
    else err (invalid_bitrate (pos bps))
from_wire (some (negsuc n)) = err (invalid_bitrate (negsuc n))

abbrev pub bitrate_eq : AudioBitrate → AudioBitrate → Bool
bitrate_eq uncompressed uncompressed = true
bitrate_eq (opus a) (opus b) = a == b
bitrate_eq _ _ = false

-- `works` tells whether Opus gives an encoder.
abbrev pub create_codec : AudioBitrate → Bool → Result StreamError (Unit {0})
create_codec uncompressed works = ok tt
create_codec (opus bps) works = if works then ok tt else err opus_init_failed

pub record PerTargetEncoder : Type 0 where
  pub bitrate : AudioBitrate
  pub generation : ℕ

pub record TcpEncoder : Type 0 where
  pub bitrate : AudioBitrate
  pub generation : ℕ
  pub audio_broadcast_tx : ℕ

-- `capture_shutdown_tx` and the handles of tasks are left out.
pub record AudioCaptureInstance : Type 0 where
  pub generation : ℕ
  pub next_encoder_generation : ℕ
  pub per_target_encoders : Map SocketAddr PerTargetEncoder
  pub tcp_encoders : Assoc TcpEncoder

unfoldable pub new_instance : ℕ → AudioCaptureInstance
new_instance generation = record {
  generation = generation;
  next_encoder_generation = 0;
  per_target_encoders = [];
  tcp_encoders = [];
}

-- `wrapping_add(1).max(1)` on a `u64`.
abbrev pub next : ℕ → ℕ
next g = max ((g + 1) % 2 ^ 64) 1

unfoldable pub remove_target_encoder : AudioCaptureInstance → SocketAddr → AudioCaptureInstance
remove_target_encoder i addr = record i { per_target_encoders = remove addr i.per_target_encoders }

unfoldable pub remove_tcp_encoder : AudioCaptureInstance → Text → AudioCaptureInstance
remove_tcp_encoder i device_id = record i { tcp_encoders = remove device_id i.tcp_encoders }

abbrev pub has_rate : AudioBitrate → Option PerTargetEncoder → Bool
has_rate bitrate none = false
has_rate bitrate (some e) = bitrate_eq e.bitrate bitrate

abbrev pub with_target_encoder :
    AudioCaptureInstance
    → SocketAddr
    → AudioBitrate
    → Result StreamError (Unit {0})
    → AudioCaptureInstance × Result StreamError (Unit {0})
with_target_encoder i addr bitrate (err e) = (i, err e)
with_target_encoder i addr bitrate (ok _) = (
  record i {
    next_encoder_generation = next i.next_encoder_generation;
    per_target_encoders =
        insert addr (record { bitrate = bitrate; generation = next i.next_encoder_generation })
          (remove addr i.per_target_encoders);
  },
  ok tt,
)

abbrev pub spawn_target_at :
    AudioCaptureInstance
    → SocketAddr
    → Bool
    → Result StreamError AudioBitrate
    → AudioCaptureInstance × Result StreamError (Unit {0})
spawn_target_at i addr works (err e) = (i, err e)
spawn_target_at i addr works (ok bitrate) =
    if has_rate bitrate (lookup addr i.per_target_encoders)
    then (i, ok tt)
    else with_target_encoder i addr bitrate (create_codec bitrate works)

unfoldable pub spawn_target_encoder :
    AudioCaptureInstance
    → SocketAddr
    → Option ℤ
    → Bool
    → AudioCaptureInstance × Result StreamError (Unit {0})
spawn_target_encoder i addr bitrate works = spawn_target_at i addr works (from_wire bitrate)

abbrev pub broadcaster_of : Option TcpEncoder → Option ℕ
broadcaster_of none = none
broadcaster_of (some e) = some e.audio_broadcast_tx

unfoldable pub instance_broadcaster : AudioCaptureInstance → Text → Option ℕ
instance_broadcaster i device_id = broadcaster_of (lookup device_id i.tcp_encoders)

-- `reusable_channel.or_else(…).unwrap_or_else(…)`
abbrev pub channel_of : Option ℕ → Option TcpEncoder → ℕ → ℕ
channel_of (some channel) existing fresh = channel
channel_of none (some e) fresh = e.audio_broadcast_tx
channel_of none none fresh = fresh

abbrev pub with_tcp_encoder :
    AudioCaptureInstance
    → Text
    → AudioBitrate
    → ℕ
    → Result StreamError (Unit {0})
    → AudioCaptureInstance × Result StreamError ℕ
with_tcp_encoder i device_id bitrate channel (err e) = (i, err e)
with_tcp_encoder i device_id bitrate channel (ok _) = (
  record i {
    next_encoder_generation = next i.next_encoder_generation;
    tcp_encoders =
        insert device_id
          (record {
            bitrate = bitrate;
            generation = next i.next_encoder_generation;
            audio_broadcast_tx = channel;
          })
          (remove device_id i.tcp_encoders);
  },
  ok channel,
)

-- With the encoder that the device has so far.
abbrev pub spawn_tcp_over :
    AudioCaptureInstance
    → Text
    → AudioBitrate
    → Option ℕ
    → Bool
    → ℕ
    → Option TcpEncoder
    → AudioCaptureInstance × Result StreamError ℕ
spawn_tcp_over i device_id bitrate reusable works fresh none =
    with_tcp_encoder i device_id bitrate (channel_of reusable none fresh)
      (create_codec bitrate works)
spawn_tcp_over i device_id bitrate reusable works fresh (some e) =
    if bitrate_eq e.bitrate bitrate
    then (i, ok e.audio_broadcast_tx)
    else with_tcp_encoder i device_id bitrate (channel_of reusable (some e) fresh)
        (create_codec bitrate works)

abbrev pub spawn_tcp_at :
    AudioCaptureInstance
    → Text
    → Option ℕ
    → Bool
    → ℕ
    → Result StreamError AudioBitrate
    → AudioCaptureInstance × Result StreamError ℕ
spawn_tcp_at i device_id reusable works fresh (err e) = (i, err e)
spawn_tcp_at i device_id reusable works fresh (ok bitrate) =
    spawn_tcp_over i device_id bitrate reusable works fresh (lookup device_id i.tcp_encoders)

unfoldable pub spawn_tcp_encoder_with_channel :
    AudioCaptureInstance
    → Text
    → Option ℤ
    → Option ℕ
    → Bool
    → ℕ
    → AudioCaptureInstance × Result StreamError ℕ
spawn_tcp_encoder_with_channel i device_id bitrate reusable works fresh =
    spawn_tcp_at i device_id reusable works fresh (from_wire bitrate)
