-- ===== src/Stream/CapturePool/Changes.antt =====
-- `CapturePool::change_source` and `change_bitrate`.
use gemacast.Prelude.{
  ℕ, ◌≡◌, refl, Option, none, some, Bool, arith, Result, ok, err, ap, ◌∙◌, if_elim, is_some, leb,
  length, false,
}
use gemacast.Prelude.Assoc.{
  text_Eq, Text, text_eq_refl, lookup, insert, lookup-insert, lookup-insert_eq,
}
use gemacast.Prelude.Addr.{SocketAddr, addr_Eq}
use gemacast.Wire.Packet.{AudioBitrate}
use gemacast.Stream.CaptureInstance.{
  ℤ, StreamError, AudioCaptureInstance, TcpEncoder, from_wire, create_codec, spawn_target_encoder,
  spawn_target_at, with_target_encoder, has_rate, bitrate_eq, spawn_tcp_encoder_with_channel,
  spawn_tcp_at, spawn_tcp_over, with_tcp_encoder, broadcaster_of, instance_broadcaster,
  source_not_subscribed, new_instance, next,
}
use gemacast.Stream.CapturePool.{
  AudioSource, source_Eq, source_eq_iff, TargetId, udp, tcp, CapturePool, World, no_channel,
  a_channel, spawn, spawn_in, change_bitrate, add_instance, ensure_instance, create_capture,
  subscribe_ready, subscribe_with_channel, leave_old, reusable_tcp_channel, change_source,
  source_eq, tcp_broadcaster, broadcaster_in,
}

-- An error of an encoder leaves the capture as it was.
abbrev Untouched :
    {A : Type 0} → AudioCaptureInstance → AudioCaptureInstance × Result StreamError A → Type 0
Untouched i r = (e : StreamError) → r.1 ≡ err e → r.0 ≡ i

with_target_encoder-Untouched :
    (i : AudioCaptureInstance) (addr : SocketAddr) (b : AudioBitrate)
    (r : Result StreamError (Unit {0}))
    → Untouched i (with_target_encoder i addr b r)
with_target_encoder-Untouched i addr b (err x) e f = refl
with_target_encoder-Untouched i addr b (ok _) e f = absurd (ground (arith, f))

spawn_target_at-Untouched :
    (i : AudioCaptureInstance) (addr : SocketAddr) (works : Bool)
    (r : Result StreamError AudioBitrate)
    → Untouched i (spawn_target_at i addr works r)
spawn_target_at-Untouched i addr works (err x) = λ e f. refl
spawn_target_at-Untouched i addr works (ok b) =
    if_elim (Untouched i) (has_rate b (lookup addr i.per_target_encoders)) _ _ (λ _ e f. refl)
      (λ _. with_target_encoder-Untouched i addr b (create_codec b works))

with_tcp_encoder-Untouched :
    (i : AudioCaptureInstance) (device : Text) (b : AudioBitrate) (channel : ℕ)
    (r : Result StreamError (Unit {0}))
    → Untouched i (with_tcp_encoder i device b channel r)
with_tcp_encoder-Untouched i device b channel (err x) e f = refl
with_tcp_encoder-Untouched i device b channel (ok _) e f = absurd (ground (arith, f))

spawn_tcp_over-Untouched :
    (i : AudioCaptureInstance) (device : Text) (b : AudioBitrate) (reusable : Option ℕ)
    (works : Bool) (fresh : ℕ) (o : Option TcpEncoder)
    → Untouched i (spawn_tcp_over i device b reusable works fresh o)
spawn_tcp_over-Untouched i device b reusable works fresh none =
    with_tcp_encoder-Untouched i device b _ (create_codec b works)
spawn_tcp_over-Untouched i device b reusable works fresh (some x) =
    if_elim (Untouched i) (bitrate_eq x.bitrate b) _ _ (λ _ e f. refl)
      (λ _. with_tcp_encoder-Untouched i device b _ (create_codec b works))

spawn_tcp_at-Untouched :
    (i : AudioCaptureInstance) (device : Text) (reusable : Option ℕ) (works : Bool) (fresh : ℕ)
    (r : Result StreamError AudioBitrate)
    → Untouched i (spawn_tcp_at i device reusable works fresh r)
spawn_tcp_at-Untouched i device reusable works fresh (err x) = λ e f. refl
spawn_tcp_at-Untouched i device reusable works fresh (ok b) =
    spawn_tcp_over-Untouched i device b reusable works fresh (lookup device i.tcp_encoders)

udp_error :
    (i : AudioCaptureInstance) (q : AudioCaptureInstance × Result StreamError (Unit {0}))
    → Untouched i q
    → Untouched i (q.0, no_channel q.1)
udp_error i (j, ok _) u e f = absurd (ground (arith, f))
udp_error i (j, err x) u e f = u x refl

tcp_error :
    (i : AudioCaptureInstance) (q : AudioCaptureInstance × Result StreamError ℕ)
    → Untouched i q
    → Untouched i (q.0, a_channel q.1)
tcp_error i (j, ok c) u e f = absurd (ground (arith, f))
tcp_error i (j, err x) u e f = u x refl

pub spawn-Untouched :
    (i : AudioCaptureInstance) (target : TargetId) (bitrate : Option ℤ) (reusable : Option ℕ)
    (w : World)
    → Untouched i (spawn i target bitrate reusable w)
unfolding spawn_target_encoder spawn_tcp_encoder_with_channel
spawn-Untouched i (udp addr) bitrate reusable w =
    udp_error i _ (spawn_target_at-Untouched i addr w.encodes (from_wire bitrate))
spawn-Untouched i (tcp device) bitrate reusable w =
    tcp_error i _ (spawn_tcp_at-Untouched i device reusable w.encodes w.fresh (from_wire bitrate))

-- A capture that is written back unchanged.
written_back :
    (p : CapturePool) (s t : AudioSource) (i : AudioCaptureInstance)
    → lookup s p.instances ≡ some i
    → lookup t (insert s i p.instances) ≡ lookup t p.instances
written_back p s t i e = ground (
  arith,
  lookup-insert s t i p.instances,
  source_eq_iff s t,
  ap (λ (u : AudioSource). lookup u p.instances) {x = s} {y = t},
  e,
)

unchanged :
    (p : CapturePool) (s t : AudioSource) (target : TargetId) (bitrate : Option ℤ)
    (reusable : Option ℕ) (w : World) (missing e : StreamError) (o : Option AudioCaptureInstance)
    → lookup s p.instances ≡ o
    → (spawn_in p s target bitrate reusable w missing o).1 ≡ err e
    → lookup t (spawn_in p s target bitrate reusable w missing o).0.instances ≡ lookup t p.instances
unchanged p s t target bitrate reusable w missing e none g f = refl
unchanged p s t target bitrate reusable w missing e (some i) g f =
    ap (λ j. lookup t (insert s j p.instances)) (spawn-Untouched i target bitrate reusable w e f)
    ∙ written_back p s t i g

-- A change of the bitrate that fails leaves every capture with the encoders that it had.
pub change_bitrate_error :
    (p : CapturePool) (s t : AudioSource) (target : TargetId) (bitrate : Option ℤ) (w : World)
    (e : StreamError)
    → (change_bitrate p s target bitrate w).1 ≡ err e
    → lookup t (change_bitrate p s target bitrate w).0.instances ≡ lookup t p.instances
unfolding change_bitrate
change_bitrate_error p s t target bitrate w e f =
    unchanged p s t target bitrate none w source_not_subscribed e (lookup s p.instances) refl f

-- A capture that runs stays as it is.
abbrev Stays : AudioSource → AudioCaptureInstance → CapturePool → Type 0
Stays t i p = lookup t p.instances ≡ some i

add_instance-Stays :
    (p : CapturePool) (s t : AudioSource) (i : AudioCaptureInstance)
    (r : Result StreamError (Unit {0}))
    → is_some (lookup s p.instances) ≡ false
    → Stays t i p
    → Stays t i (add_instance p s r).0
add_instance-Stays p s t i (err x) none_yet h = h
add_instance-Stays p s t i (ok _) none_yet h = ground (
  arith,
  lookup-insert s t (new_instance (next p.next_generation)) p.instances,
  source_eq_iff s t,
  ap (λ (u : AudioSource). lookup u p.instances) {x = s} {y = t},
  none_yet,
  h,
)

ensure_instance-Stays :
    (p : CapturePool) (s t : AudioSource) (i : AudioCaptureInstance) (w : World)
    → Stays t i p
    → Stays t i (ensure_instance p s w).0
ensure_instance-Stays p s t i w h =
    let Good = λ (q : CapturePool × Result StreamError (Unit {0})). Stays t i q.0 in
    if_elim Good (is_some (lookup s p.instances)) _ _ (λ _. h)
      (λ none_yet.
        if_elim Good (leb p.max_instances (length p.instances)) _ _ (λ _. h)
          (λ _. add_instance-Stays p s t i (create_capture p s w) none_yet h))

subscribe_ready-Stays :
    (s t : AudioSource) (i : AudioCaptureInstance) (target : TargetId) (bitrate : Option ℤ)
    (reusable : Option ℕ) (w : World) (e : StreamError)
    (q : CapturePool × Result StreamError (Unit {0}))
    → (subscribe_ready s target bitrate reusable w q).1 ≡ err e
    → Stays t i q.0
    → Stays t i (subscribe_ready s target bitrate reusable w q).0
subscribe_ready-Stays s t i target bitrate reusable w e (p, err x) f h = h
subscribe_ready-Stays s t i target bitrate reusable w e (p, ok _) f h =
    unchanged p s t target bitrate reusable w source_not_subscribed e (lookup s p.instances) refl f
    ∙ h

leave_old-Stays :
    (old t : AudioSource) (i : AudioCaptureInstance) (target : TargetId) (e : StreamError)
    (q : CapturePool × Result StreamError (Option ℕ))
    → (leave_old old target q).1 ≡ err e
    → (q.1 ≡ err e → Stays t i q.0)
    → Stays t i (leave_old old target q).0
leave_old-Stays old t i target e (p, err x) f h = h f
leave_old-Stays old t i target e (p, ok c) f h = absurd (ground (arith, f))

-- A change of the source that fails leaves every capture that ran as it was, with all its encoders.
change_source_error :
    (p : CapturePool) (old source t : AudioSource) (i : AudioCaptureInstance) (target : TargetId)
    (bitrate : Option ℤ) (w : World) (e : StreamError)
    → (change_source p old source target bitrate w).1 ≡ err e
    → lookup t p.instances ≡ some i
    → lookup t (change_source p old source target bitrate w).0.instances ≡ some i
unfolding change_source subscribe_with_channel
change_source_error p old source t i target bitrate w e f h =
    let kept = ensure_instance-Stays p source t i w h in
    let ready = ensure_instance p source w in
    let Good = λ (q : CapturePool × Result StreamError (Option ℕ)). q.1 ≡ err e → Stays t i q.0 in
    if_elim Good (source_eq old source) _ _
      (λ _ f. subscribe_ready-Stays source t i target bitrate none w e ready f kept)
      (λ _ f. leave_old-Stays old t i target e _ f (λ g.
        subscribe_ready-Stays source t i target bitrate (reusable_tcp_channel p old target) w e
          ready g kept))
      f

-- The channel of a device outlives a change of its bitrate.
with_tcp_encoder-broadcaster :
    (i : AudioCaptureInstance) (device : Text) (b : AudioBitrate) (channel : ℕ)
    (r : Result StreamError (Unit {0}))
    → broadcaster_of (lookup device i.tcp_encoders) ≡ some channel
    → broadcaster_of (lookup device (with_tcp_encoder i device b channel r).0.tcp_encoders)
      ≡ some channel
with_tcp_encoder-broadcaster i device b channel (err x) h = h
with_tcp_encoder-broadcaster i device b channel (ok _) h =
    ap broadcaster_of (lookup-insert_eq device device _ _ (text_eq_refl device))

spawn_tcp_over-broadcaster :
    (i : AudioCaptureInstance) (device : Text) (b : AudioBitrate) (works : Bool) (fresh channel : ℕ)
    (o : Option TcpEncoder)
    → lookup device i.tcp_encoders ≡ o
    → broadcaster_of o ≡ some channel
    → broadcaster_of (lookup device (spawn_tcp_over i device b none works fresh o).0.tcp_encoders)
      ≡ some channel
spawn_tcp_over-broadcaster i device b works fresh channel none e h = absurd (ground (arith, h))
spawn_tcp_over-broadcaster i device b works fresh channel (some x) e h =
    let held : broadcaster_of (lookup device i.tcp_encoders) ≡ some channel =
      ap broadcaster_of e ∙ h in
    if_elim
      (λ (r : AudioCaptureInstance × Result StreamError ℕ).
        broadcaster_of (lookup device r.0.tcp_encoders) ≡ some channel)
      (bitrate_eq x.bitrate b) _ _ (λ _. held)
      (λ _.
        with_tcp_encoder-broadcaster i device b x.audio_broadcast_tx (create_codec b works)
          (ap broadcaster_of e)
        ∙ h)

spawn_tcp_at-broadcaster :
    (i : AudioCaptureInstance) (device : Text) (works : Bool) (fresh channel : ℕ)
    (r : Result StreamError AudioBitrate)
    → broadcaster_of (lookup device i.tcp_encoders) ≡ some channel
    → broadcaster_of (lookup device (spawn_tcp_at i device none works fresh r).0.tcp_encoders)
      ≡ some channel
spawn_tcp_at-broadcaster i device works fresh channel (err x) h = h
spawn_tcp_at-broadcaster i device works fresh channel (ok b) h =
    spawn_tcp_over-broadcaster i device b works fresh channel (lookup device i.tcp_encoders) refl h

spawn_in-broadcaster :
    (p : CapturePool) (s : AudioSource) (device : Text) (bitrate : Option ℤ) (w : World)
    (channel : ℕ) (o : Option AudioCaptureInstance)
    → broadcaster_in device o ≡ some channel
    → broadcaster_in device
        (lookup s (spawn_in p s (tcp device) bitrate none w source_not_subscribed o).0.instances)
      ≡ some channel
unfolding instance_broadcaster spawn_tcp_encoder_with_channel
spawn_in-broadcaster p s device bitrate w channel none h = absurd (ground (arith, h))
spawn_in-broadcaster p s device bitrate w channel (some i) h =
    let j = (spawn_tcp_at i device none w.encodes w.fresh (from_wire bitrate)).0 in
    ap (broadcaster_in device) (lookup-insert_eq s s j p.instances ((source_eq_iff s s).1 refl))
    ∙ spawn_tcp_at-broadcaster i device w.encodes w.fresh channel (from_wire bitrate) h

-- A phone over TCP keeps the channel that it listens to when its bitrate changes, whether the change
-- succeeds or fails.
pub change_bitrate-tcp_broadcaster :
    (p : CapturePool) (s : AudioSource) (device : Text) (bitrate : Option ℤ) (w : World)
    (channel : ℕ)
    → tcp_broadcaster p s device ≡ some channel
    → tcp_broadcaster (change_bitrate p s (tcp device) bitrate w).0 s device ≡ some channel
unfolding tcp_broadcaster change_bitrate
change_bitrate-tcp_broadcaster p s device bitrate w channel h =
    spawn_in-broadcaster p s device bitrate w channel (lookup s p.instances) h
