-- ===== src/Stream/CapturePool.antt =====
-- gemacast-core/src/stream/streamer/capture_pool.rs: the captures that run, each with the encoders of
-- its listeners. What the systems below answer is an argument.
pub mod Invariant
pub mod Generations
pub mod Changes
mod Examples
use gemacast.Prelude.{
  ℕ, ◌+◌, ◌%◌, ◌^◌, [], Option, none, some, Bool, true, false, not, ◌&&◌, ◌||◌, leb, ◌==◌,
  if◌then◌else◌, Result, ok, err, length, is_some, ◌↔◌, ◌≡◌, refl, arith, List, ◌∷◌, ap,
}
use gemacast.Prelude.Assoc.{
  Eq, text_Eq, Text, Assoc, Map, text_eq, text_eq_iff, text_eq_refl, lookup, insert, remove,
}
use gemacast.Prelude.Addr.{SocketAddr, addr_Eq}
use gemacast.Stream.CaptureInstance.{
  ℤ, StreamError, capture_failed, process_capture_unavailable, source_not_subscribed,
  capture_pool_exhausted, PerTargetEncoder, TcpEncoder, AudioCaptureInstance, new_instance, next,
  remove_target_encoder, remove_tcp_encoder, spawn_target_encoder, spawn_tcp_encoder_with_channel,
  instance_broadcaster,
}

pub data AudioSource : Type 0 where
  desktop : AudioSource
  process : ℕ → Text → AudioSource

unfoldable pub source_eq : AudioSource → AudioSource → Bool
source_eq desktop desktop = true
source_eq (process p n) (process q m) = p == q && text_eq n m
source_eq _ _ = false

pub source_eq_iff : (a b : AudioSource) → (source_eq a b ≡ true) ↔ (a ≡ b)
unfolding source_eq
source_eq_iff desktop desktop = (λ h. refl, λ e. refl)
source_eq_iff desktop (process q m) = (λ h. absurd (ground arith), λ e. absurd cc)
source_eq_iff (process p n) desktop = (λ h. absurd (ground arith), λ e. absurd cc)
source_eq_iff (process p n) (process q m) = (
  λ h.
      let pid : p ≡ q = ground arith in
      let name : n ≡ m = ground (arith, text_eq_iff n m) in λ i. process (pid i) (name i),
  λ e. ground (arith, text_eq_iff n m, e),
)

instance abbrev pub source_Eq : Eq AudioSource
source_Eq = record { beq = source_eq; beq_iff = source_eq_iff }

pub data TargetId : Type 0 where
  udp : SocketAddr → TargetId
  tcp : Text → TargetId

pub record CapturePool : Type 0 where
  pub instances : Map AudioSource AudioCaptureInstance
  pub max_instances : ℕ
  pub supports_process_capture : Bool
  pub next_generation : ℕ

unfoldable pub new : Bool → CapturePool
new supports_process_capture = record {
  instances = [];
  max_instances = 8;
  supports_process_capture = supports_process_capture;
  next_generation = 0;
}

-- Whether a capture can be created and an encoder made, and the number of a new channel.
pub record World : Type 0 where
  pub captures : Bool
  pub encodes : Bool
  pub fresh : ℕ

abbrev pub create_capture : CapturePool → AudioSource → World → Result StreamError (Unit {0})
create_capture p desktop w = if w.captures then ok tt else err capture_failed
create_capture p (process pid name) w =
    if not p.supports_process_capture
    then err process_capture_unavailable
    else if w.captures
    then ok tt
    else err capture_failed

abbrev pub add_instance :
    CapturePool
    → AudioSource
    → Result StreamError (Unit {0})
    → CapturePool × Result StreamError (Unit {0})
add_instance p source (err e) = (p, err e)
add_instance p source (ok _) = (
  record p {
    next_generation = next p.next_generation;
    instances = insert source (new_instance (next p.next_generation)) p.instances;
  },
  ok tt,
)

-- The first half of `subscribe_with_channel`.
abbrev pub ensure_instance :
    CapturePool → AudioSource → World → CapturePool × Result StreamError (Unit {0})
ensure_instance p source w =
    if is_some (lookup source p.instances)
    then (p, ok tt)
    else if leb p.max_instances (length p.instances)
    then (p, err (capture_pool_exhausted p.max_instances))
    else add_instance p source (create_capture p source w)

-- The write through `get_mut`.
abbrev pub with_instance : CapturePool → AudioSource → AudioCaptureInstance → CapturePool
with_instance p source i = record p { instances = insert source i p.instances }

abbrev pub no_channel : Result StreamError (Unit {0}) → Result StreamError (Option ℕ)
no_channel (ok _) = ok none
no_channel (err e) = err e

abbrev pub a_channel : Result StreamError ℕ → Result StreamError (Option ℕ)
a_channel (ok channel) = ok (some channel)
a_channel (err e) = err e

abbrev pub spawn :
    AudioCaptureInstance
    → TargetId
    → Option ℤ
    → Option ℕ
    → World
    → AudioCaptureInstance × Result StreamError (Option ℕ)
spawn i (udp addr) bitrate reusable w =
    let (i', r) = spawn_target_encoder i addr bitrate w.encodes in (i', no_channel r)
spawn i (tcp device_id) bitrate reusable w =
    let (i', r) = spawn_tcp_encoder_with_channel i device_id bitrate reusable w.encodes w.fresh in
    (i', a_channel r)

abbrev pub spawn_in :
    CapturePool
    → AudioSource
    → TargetId
    → Option ℤ
    → Option ℕ
    → World
    → StreamError
    → Option AudioCaptureInstance
    → CapturePool × Result StreamError (Option ℕ)
spawn_in p source target bitrate reusable w missing none = (p, err missing)
spawn_in p source target bitrate reusable w missing (some i) =
    let (i', r) = spawn i target bitrate reusable w in (with_instance p source i', r)

abbrev pub subscribe_ready :
    AudioSource
    → TargetId
    → Option ℤ
    → Option ℕ
    → World
    → CapturePool × Result StreamError (Unit {0})
    → CapturePool × Result StreamError (Option ℕ)
subscribe_ready source target bitrate reusable w (p, err e) = (p, err e)
subscribe_ready source target bitrate reusable w (p, ok _) =
    spawn_in p source target bitrate reusable w source_not_subscribed (lookup source p.instances)

unfoldable pub subscribe_with_channel :
    CapturePool
    → AudioSource
    → TargetId
    → Option ℤ
    → Option ℕ
    → World
    → CapturePool × Result StreamError (Option ℕ)
subscribe_with_channel p source target bitrate reusable w =
    subscribe_ready source target bitrate reusable w (ensure_instance p source w)

abbrev pub is_empty {ℓ} : {A : Type ℓ} → List A → Bool
is_empty [] = true
is_empty (x ∷ xs) = false

abbrev pub remove_encoder : AudioCaptureInstance → TargetId → AudioCaptureInstance
remove_encoder i (udp addr) = remove_target_encoder i addr
remove_encoder i (tcp device_id) = remove_tcp_encoder i device_id

abbrev pub unsubscribe_at :
    CapturePool → AudioSource → TargetId → Option AudioCaptureInstance → CapturePool
unsubscribe_at p source target none = p
unsubscribe_at p source target (some i) =
    let left = remove_encoder i target in
    if is_empty left.per_target_encoders && is_empty left.tcp_encoders
    then record p { instances = remove source (insert source left p.instances) }
    else with_instance p source left

unfoldable pub unsubscribe : CapturePool → AudioSource → TargetId → CapturePool
unsubscribe p source target = unsubscribe_at p source target (lookup source p.instances)

abbrev pub broadcaster_in : Text → Option AudioCaptureInstance → Option ℕ
broadcaster_in device_id none = none
broadcaster_in device_id (some i) = instance_broadcaster i device_id

unfoldable pub tcp_broadcaster : CapturePool → AudioSource → Text → Option ℕ
tcp_broadcaster p source device_id = broadcaster_in device_id (lookup source p.instances)

abbrev pub reusable_tcp_channel : CapturePool → AudioSource → TargetId → Option ℕ
reusable_tcp_channel p source (udp addr) = none
reusable_tcp_channel p source (tcp device_id) = broadcaster_in device_id (lookup source p.instances)

abbrev pub leave_old :
    AudioSource
    → TargetId
    → CapturePool × Result StreamError (Option ℕ)
    → CapturePool × Result StreamError (Option ℕ)
leave_old old target (p, err e) = (p, err e)
leave_old old target (p, ok tx) = (unsubscribe p old target, ok tx)

unfoldable pub change_source :
    CapturePool
    → AudioSource
    → AudioSource
    → TargetId
    → Option ℤ
    → World
    → CapturePool × Result StreamError (Option ℕ)
change_source p old source target bitrate w =
    if source_eq old source
    then subscribe_with_channel p source target bitrate none w
    else leave_old old target
        (subscribe_with_channel p source target bitrate (reusable_tcp_channel p old target) w)

unfoldable pub change_bitrate :
    CapturePool
    → AudioSource
    → TargetId
    → Option ℤ
    → World
    → CapturePool × Result StreamError (Option ℕ)
change_bitrate p source target bitrate w =
    spawn_in p source target bitrate none w source_not_subscribed (lookup source p.instances)

unfoldable pub shutdown_all : CapturePool → CapturePool
shutdown_all p = record p { instances = [] }

abbrev pub is_generation : ℕ → Option AudioCaptureInstance → Bool
is_generation g none = false
is_generation g (some i) = i.generation == g

unfoldable pub evict_failed_source : CapturePool → AudioSource → ℕ → CapturePool × Bool
evict_failed_source p source generation =
    if not (is_generation generation (lookup source p.instances))
    then (p, false)
    else (record p { instances = remove source p.instances }, true)

pub data StreamTaskFailure : Type 0 where
  capture : AudioSource → ℕ → StreamTaskFailure
  udp_encoder : AudioSource → ℕ → ℕ → SocketAddr → StreamTaskFailure
  tcp_encoder : AudioSource → ℕ → ℕ → Text → StreamTaskFailure

abbrev pub is_target_generation : ℕ → Option PerTargetEncoder → Bool
is_target_generation g none = false
is_target_generation g (some e) = e.generation == g

abbrev pub is_tcp_generation : ℕ → Option TcpEncoder → Bool
is_tcp_generation g none = false
is_tcp_generation g (some e) = e.generation == g

abbrev pub remove_failed_udp :
    CapturePool
    → AudioSource
    → ℕ
    → ℕ
    → SocketAddr
    → Option AudioCaptureInstance
    → CapturePool × Bool
remove_failed_udp p source generation encoder_generation target none = (p, false)
remove_failed_udp p source generation encoder_generation target (some i) =
    if not (i.generation == generation)
    then (p, false)
    else if not (is_target_generation encoder_generation (lookup target i.per_target_encoders))
    then (p, false)
    else (with_instance p source (remove_target_encoder i target), true)

abbrev pub remove_failed_tcp :
    CapturePool → AudioSource → ℕ → ℕ → Text → Option AudioCaptureInstance → CapturePool × Bool
remove_failed_tcp p source generation encoder_generation device_id none = (p, false)
remove_failed_tcp p source generation encoder_generation device_id (some i) =
    if not (i.generation == generation)
    then (p, false)
    else if not (is_tcp_generation encoder_generation (lookup device_id i.tcp_encoders))
    then (p, false)
    else (with_instance p source (remove_tcp_encoder i device_id), true)

unfoldable pub remove_failed_target : CapturePool → StreamTaskFailure → CapturePool × Bool
remove_failed_target p (capture source generation) = (p, false)
remove_failed_target p (udp_encoder source generation encoder_generation target) =
    remove_failed_udp p source generation encoder_generation target (lookup source p.instances)
remove_failed_target p (tcp_encoder source generation encoder_generation device_id) =
    remove_failed_tcp p source generation encoder_generation device_id (lookup source p.instances)
