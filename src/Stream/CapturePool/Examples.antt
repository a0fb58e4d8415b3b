-- ===== src/Stream/CapturePool/Examples.antt =====
-- Two phones that hear the desktop.
use gemacast.Prelude.{◌≤◌, ◌≡◌, refl, List, [], ◌∷◌, none, some, true, false, arith, length, err}
use gemacast.Prelude.Assoc.{text_Eq, Text, lookup, insert, remove, text_eq}
use gemacast.Prelude.Addr.{addr_Eq, SocketAddr, addr_eq}
use gemacast.Stream.CaptureInstance.{
  pos, opus_init_failed, new_instance, spawn_target_encoder, spawn_tcp_encoder_with_channel,
}
use gemacast.Stream.CapturePool.{
  desktop, source_Eq, source_eq, udp, tcp, World, new, subscribe_with_channel, evict_failed_source,
  change_bitrate,
}
use gemacast.Stream.CapturePool.Generations.{Move, subscribes, step, run, run-bounded, evicted_once}
use gemacast.Stream.CapturePool.Changes.{change_bitrate_error}

abbrev phone : Text
phone = 80 ∷ []

abbrev address : SocketAddr
address = record { ip = 10 ∷ 0 ∷ 0 ∷ 7 ∷ []; port = 4000 }

abbrev fine : World
fine = record { captures = true; encodes = true; fresh = 5 }

abbrev broken : World
broken = record { captures = true; encodes = false; fresh = 6 }

abbrev listeners : List Move
listeners =
    subscribes desktop (udp address) none fine
    ∷ subscribes desktop (tcp phone) (some (pos 128_000)) fine
    ∷ []

run-bounded_example : length (run (new true) listeners).instances ≤ 8
run-bounded_example = run-bounded true listeners (omega arith)

evicts : (evict_failed_source (run (new true) listeners) desktop 1).1 ≡ true
unfolding run step new subscribe_with_channel spawn_target_encoder spawn_tcp_encoder_with_channel
    evict_failed_source lookup insert remove source_eq addr_eq text_eq new_instance
evicts = refl

evicted_once_example :
    let p = run (evict_failed_source (run (new true) listeners) desktop 1).0 listeners in
    evict_failed_source p desktop 1 ≡ (p, false)
evicted_once_example = evicted_once true listeners desktop 1 listeners (omega arith) evicts

fails :
    (change_bitrate (run (new true) listeners) desktop (tcp phone) (some (pos 64_000)) broken).1
    ≡ err opus_init_failed
unfolding run step new subscribe_with_channel spawn_target_encoder spawn_tcp_encoder_with_channel
    change_bitrate lookup insert remove source_eq addr_eq text_eq new_instance
fails = refl

change_bitrate_error_example :
    let p = run (new true) listeners in
    lookup desktop (change_bitrate p desktop (tcp phone) (some (pos 64_000)) broken).0.instances
    ≡ lookup desktop p.instances
change_bitrate_error_example =
    change_bitrate_error (run (new true) listeners) desktop desktop (tcp phone) (some (pos 64_000))
      broken opus_init_failed fails
