-- ===== src/Stream/CapturePool/Invariant.antt =====
-- The captures of the pool, their number and their generations, at every operation. The condition on
-- generations is a parameter.
use gemacast.Prelude.{
  ℕ, ◌≤◌, ◌≡◌, refl, Option, none, some, inl, inr, Bool, false, not, ◌&&◌, arith, Result, ok, err,
  length, is_some, leb, ◌==◌, if_elim, sym, ap, ◌∙◌, subst, Bool-cases,
}
use gemacast.Prelude.Assoc.{
  Text, text_Eq, lookup, remove, Unique, lookup-insert_eq, lookup-insert_ne, lookup-remove,
  insert-Unique, remove-Unique,
}
use gemacast.Prelude.Entries.{length-insert, length-insert_known, length-remove}
use gemacast.Prelude.Addr.{SocketAddr, addr_Eq}
use gemacast.Wire.Packet.{AudioBitrate}
use gemacast.Stream.CaptureInstance.{
  ℤ, StreamError, AudioCaptureInstance, new_instance, next, spawn_target_encoder, from_wire,
  spawn_target_at, with_target_encoder, spawn_tcp_encoder_with_channel, spawn_tcp_at,
  spawn_tcp_over, with_tcp_encoder, remove_target_encoder, remove_tcp_encoder, create_codec,
  has_rate, bitrate_eq, TcpEncoder, source_not_subscribed,
}
use gemacast.Stream.CapturePool.{
  AudioSource, source_Eq, source_eq, source_eq_iff, TargetId, udp, tcp, CapturePool, World,
  create_capture, add_instance, ensure_instance, with_instance, spawn, spawn_in, subscribe_ready,
  subscribe_with_channel, remove_encoder, unsubscribe_at, unsubscribe, leave_old, change_source,
  change_bitrate, shutdown_all, evict_failed_source, StreamTaskFailure, capture, udp_encoder,
  tcp_encoder, remove_failed_udp, remove_failed_tcp, remove_failed_target, is_empty,
  reusable_tcp_channel, is_generation, is_target_generation, is_tcp_generation,
}

-- `C` is about the pool's counter, `J` about the counter, a source and its capture's generation.
pub record Inv (C : ℕ → Type 0) (J : ℕ → AudioSource → ℕ → Type 0) (p : CapturePool) : Type 0 where
  pub unique : Unique p.instances
  pub limit : p.max_instances ≡ 8
  pub bounded : length p.instances ≤ 8
  pub counter : C p.next_generation
  pub generations :
      (s : AudioSource) (i : AudioCaptureInstance)
      → lookup s p.instances ≡ some i
      → J p.next_generation s i.generation

-- What a move may make of `C` and `J`.
pub record Rule (C C' : ℕ → Type 0) (J J' : ℕ → AudioSource → ℕ → Type 0) (n : ℕ) : Type 0 where
  pub same_counter : C n → C' n
  pub next_counter : C n → C' (next n)
  pub same : C n → (s : AudioSource) (g : ℕ) → J n s g → J' n s g
  pub aged : C n → (s : AudioSource) (g : ℕ) → J n s g → J' (next n) s g
  pub newer : C n → (s : AudioSource) → J' (next n) s (next n)

some_injective : (i j : AudioCaptureInstance) → some i ≡ some j → i ≡ j
some_injective i j e = cc

module _ (C : ℕ → Type 0) (J : ℕ → AudioSource → ℕ → Type 0) where
  pub keep :
      (p : CapturePool) (s : AudioSource) (i i' : AudioCaptureInstance)
      → Inv C J p
      → lookup s p.instances ≡ some i
      → i'.generation ≡ i.generation
      → Inv C J (with_instance p s i')
  keep p s i i' v e g = record {
    unique = insert-Unique s i' p.instances v.unique;
    limit = v.limit;
    bounded = omega (arith, length-insert_known s i' p.instances (ap is_some e), v.bounded);
    counter = v.counter;
    generations = λ t k f. elim (Bool-cases (source_eq s t)) [
      | inl same ↦
          let at_s : i' ≡ k =
            some_injective i' k (sym (lookup-insert_eq s t i' p.instances same) ∙ f) in
          let s_eq : s ≡ t = (source_eq_iff s t).0 same in
          subst (λ u. J p.next_generation u k.generation) s_eq
            (subst (λ h. J p.next_generation s h)
              (sym g ∙ ap (λ (j : AudioCaptureInstance). j.generation) at_s) (v.generations s i e))
      | inr other ↦ v.generations t k (sym (lookup-insert_ne s t i' p.instances other) ∙ f)
    ];
  }

  pub lose :
      (p : CapturePool) (s : AudioSource)
      → Inv C J p
      → Inv C J (record p { instances = remove s p.instances })
  lose p s v = record {
    unique = remove-Unique s p.instances v.unique;
    limit = v.limit;
    bounded = omega (arith, length-remove s p.instances, v.bounded);
    counter = v.counter;
    generations =
        λ t k f. v.generations t k (ground (arith, lookup-remove s t p.instances v.unique, f));
  }

  remove_encoder-generation :
      (i : AudioCaptureInstance) (target : TargetId)
      → (remove_encoder i target).generation ≡ i.generation
  unfolding remove_target_encoder remove_tcp_encoder
  remove_encoder-generation i (udp addr) = refl
  remove_encoder-generation i (tcp device) = refl

  unsubscribe_at-Inv :
      (p : CapturePool) (s : AudioSource) (target : TargetId) (o : Option AudioCaptureInstance)
      → Inv C J p
      → lookup s p.instances ≡ o
      → Inv C J (unsubscribe_at p s target o)
  unsubscribe_at-Inv p s target none v e = v
  unsubscribe_at-Inv p s target (some i) v e =
      let left = remove_encoder i target in
      let kept = keep p s i left v e (remove_encoder-generation i target) in
      if_elim (Inv C J) (is_empty left.per_target_encoders && is_empty left.tcp_encoders) _ _
        (λ _. lose (with_instance p s left) s kept) (λ _. kept)

  pub unsubscribe-Inv :
      (p : CapturePool) (s : AudioSource) (target : TargetId)
      → Inv C J p
      → Inv C J (unsubscribe p s target)
  unfolding unsubscribe
  unsubscribe-Inv p s target v = unsubscribe_at-Inv p s target (lookup s p.instances) v refl

  pub evict_failed_source-Inv :
      (p : CapturePool) (s : AudioSource) (g : ℕ)
      → Inv C J p
      → Inv C J (evict_failed_source p s g).0
  unfolding evict_failed_source
  evict_failed_source-Inv p s g v =
      if_elim (λ (r : CapturePool × Bool). Inv C J r.0)
        (not (is_generation g (lookup s p.instances))) _ _ (λ _. v) (λ _. lose p s v)

  remove_failed_udp-Inv :
      (p : CapturePool) (s : AudioSource) (g e : ℕ) (target : SocketAddr)
      (o : Option AudioCaptureInstance)
      → Inv C J p
      → lookup s p.instances ≡ o
      → Inv C J (remove_failed_udp p s g e target o).0
  remove_failed_udp-Inv p s g e target none v f = v
  remove_failed_udp-Inv p s g e target (some i) v f =
      if_elim (λ (r : CapturePool × Bool). Inv C J r.0) (not (i.generation == g)) _ _ (λ _. v)
        (λ _.
          if_elim (λ (r : CapturePool × Bool). Inv C J r.0)
            (not (is_target_generation e (lookup target i.per_target_encoders))) _ _ (λ _. v)
            (λ _.
              keep p s i (remove_target_encoder i target) v f
                (remove_encoder-generation i (udp target))))

  remove_failed_tcp-Inv :
      (p : CapturePool) (s : AudioSource) (g e : ℕ) (device : Text)
      (o : Option AudioCaptureInstance)
      → Inv C J p
      → lookup s p.instances ≡ o
      → Inv C J (remove_failed_tcp p s g e device o).0
  remove_failed_tcp-Inv p s g e device none v f = v
  remove_failed_tcp-Inv p s g e device (some i) v f =
      if_elim (λ (r : CapturePool × Bool). Inv C J r.0) (not (i.generation == g)) _ _ (λ _. v)
        (λ _.
          if_elim (λ (r : CapturePool × Bool). Inv C J r.0)
            (not (is_tcp_generation e (lookup device i.tcp_encoders))) _ _ (λ _. v)
            (λ _.
              keep p s i (remove_tcp_encoder i device) v f
                (remove_encoder-generation i (tcp device))))

  pub remove_failed_target-Inv :
      (p : CapturePool) (f : StreamTaskFailure) → Inv C J p → Inv C J (remove_failed_target p f).0
  unfolding remove_failed_target
  remove_failed_target-Inv p (capture s g) v = v
  remove_failed_target-Inv p (udp_encoder s g e target) v =
      remove_failed_udp-Inv p s g e target (lookup s p.instances) v refl
  remove_failed_target-Inv p (tcp_encoder s g e device) v =
      remove_failed_tcp-Inv p s g e device (lookup s p.instances) v refl

  pub shutdown_all-Inv : (p : CapturePool) → Inv C J p → Inv C J (shutdown_all p)
  unfolding shutdown_all
  shutdown_all-Inv p v = record {
    unique = tt;
    limit = v.limit;
    bounded = omega arith;
    counter = v.counter;
    generations = λ t k f. absurd (unfold lookup in ground (arith, f));
  }

-- An encoder that is made leaves the generation of the capture.
with_target_encoder-generation :
    (i : AudioCaptureInstance) (addr : SocketAddr) (b : AudioBitrate)
    (r : Result StreamError (Unit {0}))
    → (with_target_encoder i addr b r).0.generation ≡ i.generation
with_target_encoder-generation i addr b (err e) = refl
with_target_encoder-generation i addr b (ok _) = refl

spawn_target_at-generation :
    (i : AudioCaptureInstance) (addr : SocketAddr) (works : Bool)
    (r : Result StreamError AudioBitrate)
    → (spawn_target_at i addr works r).0.generation ≡ i.generation
spawn_target_at-generation i addr works (err e) = refl
spawn_target_at-generation i addr works (ok b) =
    if_elim
      (λ (r : AudioCaptureInstance × Result StreamError (Unit {0})). r.0.generation ≡ i.generation)
      (has_rate b (lookup addr i.per_target_encoders)) _ _ (λ _. refl)
      (λ _. with_target_encoder-generation i addr b (create_codec b works))

with_tcp_encoder-generation :
    (i : AudioCaptureInstance) (device : Text) (b : AudioBitrate) (channel : ℕ)
    (r : Result StreamError (Unit {0}))
    → (with_tcp_encoder i device b channel r).0.generation ≡ i.generation
with_tcp_encoder-generation i device b channel (err e) = refl
with_tcp_encoder-generation i device b channel (ok _) = refl

spawn_tcp_over-generation :
    (i : AudioCaptureInstance) (device : Text) (b : AudioBitrate) (reusable : Option ℕ)
    (works : Bool) (fresh : ℕ) (o : Option TcpEncoder)
    → (spawn_tcp_over i device b reusable works fresh o).0.generation ≡ i.generation
spawn_tcp_over-generation i device b reusable works fresh none =
    with_tcp_encoder-generation i device b _ (create_codec b works)
spawn_tcp_over-generation i device b reusable works fresh (some e) =
    if_elim (λ (r : AudioCaptureInstance × Result StreamError ℕ). r.0.generation ≡ i.generation)
      (bitrate_eq e.bitrate b) _ _ (λ _. refl)
      (λ _. with_tcp_encoder-generation i device b _ (create_codec b works))

spawn_tcp_at-generation :
    (i : AudioCaptureInstance) (device : Text) (reusable : Option ℕ) (works : Bool) (fresh : ℕ)
    (r : Result StreamError AudioBitrate)
    → (spawn_tcp_at i device reusable works fresh r).0.generation ≡ i.generation
spawn_tcp_at-generation i device reusable works fresh (err e) = refl
spawn_tcp_at-generation i device reusable works fresh (ok b) =
    spawn_tcp_over-generation i device b reusable works fresh (lookup device i.tcp_encoders)

spawn-generation :
    (i : AudioCaptureInstance) (target : TargetId) (bitrate : Option ℤ) (reusable : Option ℕ)
    (w : World)
    → (spawn i target bitrate reusable w).0.generation ≡ i.generation
unfolding spawn_target_encoder spawn_tcp_encoder_with_channel
spawn-generation i (udp addr) bitrate reusable w =
    spawn_target_at-generation i addr w.encodes (from_wire bitrate)
spawn-generation i (tcp device) bitrate reusable w =
    spawn_tcp_at-generation i device reusable w.encodes w.fresh (from_wire bitrate)

module _ (C C' : ℕ → Type 0) (J J' : ℕ → AudioSource → ℕ → Type 0) where
  pub weaken : (p : CapturePool) → Rule C C' J J' p.next_generation → Inv C J p → Inv C' J' p
  weaken p r v = record {
    unique = v.unique;
    limit = v.limit;
    bounded = v.bounded;
    counter = r.same_counter v.counter;
    generations = λ s i e. r.same v.counter s i.generation (v.generations s i e);
  }

  add-Inv :
      (p : CapturePool) (s : AudioSource) (made : Result StreamError (Unit {0}))
      → Rule C C' J J' p.next_generation
      → leb p.max_instances (length p.instances) ≡ false
      → Inv C J p
      → Inv C' J' (add_instance p s made).0
  unfolding new_instance
  add-Inv p s (err e) r room v = weaken p r v
  add-Inv p s (ok _) r room v =
      let i' = new_instance (next p.next_generation) in
      record {
        unique = insert-Unique s i' p.instances v.unique;
        limit = v.limit;
        bounded = ground (arith, length-insert s i' p.instances, v.limit, room);
        counter = r.next_counter v.counter;
        generations = λ t k f. elim (Bool-cases (source_eq s t)) [
          | inl same ↦
              let at_s : i' ≡ k =
                some_injective i' k (sym (lookup-insert_eq s t i' p.instances same) ∙ f) in
              subst (λ h. J' (next p.next_generation) t h)
                (ap (λ (j : AudioCaptureInstance). j.generation) at_s) (r.newer v.counter t)
          | inr other ↦
              r.aged v.counter t k.generation
                (v.generations t k (sym (lookup-insert_ne s t i' p.instances other) ∙ f))
        ];
      }

  ensure_instance-Inv :
      (p : CapturePool) (s : AudioSource) (w : World)
      → Rule C C' J J' p.next_generation
      → Inv C J p
      → Inv C' J' (ensure_instance p s w).0
  ensure_instance-Inv p s w r v =
      if_elim (λ (q : CapturePool × Result StreamError (Unit {0})). Inv C' J' q.0)
        (is_some (lookup s p.instances)) _ _ (λ _. weaken p r v)
        (λ _.
          if_elim (λ (q : CapturePool × Result StreamError (Unit {0})). Inv C' J' q.0)
            (leb p.max_instances (length p.instances)) _ _ (λ _. weaken p r v)
            (λ room. add-Inv p s (create_capture p s w) r room v))

spawn_in-Inv :
    (C : ℕ → Type 0) (J : ℕ → AudioSource → ℕ → Type 0) (p : CapturePool) (s : AudioSource)
    (target : TargetId) (bitrate : Option ℤ) (reusable : Option ℕ) (w : World)
    (missing : StreamError) (o : Option AudioCaptureInstance)
    → Inv C J p
    → lookup s p.instances ≡ o
    → Inv C J (spawn_in p s target bitrate reusable w missing o).0
spawn_in-Inv C J p s target bitrate reusable w missing none v e = v
spawn_in-Inv C J p s target bitrate reusable w missing (some i) v e =
    keep C J p s i (spawn i target bitrate reusable w).0 v e
      (spawn-generation i target bitrate reusable w)

subscribe_ready-Inv :
    (C : ℕ → Type 0) (J : ℕ → AudioSource → ℕ → Type 0) (s : AudioSource) (target : TargetId)
    (bitrate : Option ℤ) (reusable : Option ℕ) (w : World)
    (q : CapturePool × Result StreamError (Unit {0}))
    → Inv C J q.0
    → Inv C J (subscribe_ready s target bitrate reusable w q).0
subscribe_ready-Inv C J s target bitrate reusable w (p, err e) v = v
subscribe_ready-Inv C J s target bitrate reusable w (p, ok _) v =
    spawn_in-Inv C J p s target bitrate reusable w source_not_subscribed (lookup s p.instances) v
      refl

leave_old-Inv :
    (C : ℕ → Type 0) (J : ℕ → AudioSource → ℕ → Type 0) (old : AudioSource) (target : TargetId)
    (q : CapturePool × Result StreamError (Option ℕ))
    → Inv C J q.0
    → Inv C J (leave_old old target q).0
leave_old-Inv C J old target (p, err e) v = v
leave_old-Inv C J old target (p, ok tx) v = unsubscribe-Inv C J p old target v

pub change_bitrate-Inv :
    (C : ℕ → Type 0) (J : ℕ → AudioSource → ℕ → Type 0) (p : CapturePool) (s : AudioSource)
    (target : TargetId) (bitrate : Option ℤ) (w : World)
    → Inv C J p
    → Inv C J (change_bitrate p s target bitrate w).0
unfolding change_bitrate
change_bitrate-Inv C J p s target bitrate w v =
    spawn_in-Inv C J p s target bitrate none w source_not_subscribed (lookup s p.instances) v refl

module _ (C C' : ℕ → Type 0) (J J' : ℕ → AudioSource → ℕ → Type 0) where
  pub subscribe-Inv :
      (p : CapturePool) (s : AudioSource) (target : TargetId) (bitrate : Option ℤ)
      (reusable : Option ℕ) (w : World)
      → Rule C C' J J' p.next_generation
      → Inv C J p
      → Inv C' J' (subscribe_with_channel p s target bitrate reusable w).0
  unfolding subscribe_with_channel
  subscribe-Inv p s target bitrate reusable w r v =
      subscribe_ready-Inv C' J' s target bitrate reusable w (ensure_instance p s w)
        (ensure_instance-Inv C C' J J' p s w r v)

  pub change_source-Inv :
      (p : CapturePool) (old s : AudioSource) (target : TargetId) (bitrate : Option ℤ) (w : World)
      → Rule C C' J J' p.next_generation
      → Inv C J p
      → Inv C' J' (change_source p old s target bitrate w).0
  unfolding change_source
  change_source-Inv p old s target bitrate w r v =
      if_elim (λ (q : CapturePool × Result StreamError (Option ℕ)). Inv C' J' q.0) (source_eq old s)
        _ _ (λ _. subscribe-Inv p s target bitrate none w r v)
        (λ _.
          leave_old-Inv C' J' old target
            (subscribe_with_channel p s target bitrate (reusable_tcp_channel p old target) w)
            (subscribe-Inv p s target bitrate (reusable_tcp_channel p old target) w r v))
