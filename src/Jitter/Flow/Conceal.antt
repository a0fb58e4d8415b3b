-- ===== src/Jitter/Flow/Conceal.antt =====
-- The concealment window of `PlaybackFlow::observe_delivery`.
use gemacast.Prelude.{
  ℕ, ◌+◌, ◌*◌, ◌<◌, ◌≡◌, refl, List, [], ◌∷◌, Option, none, some, Bool, true, false, arith, length,
  leb, ltb, lt→ltb, ap, ◌∙◌, ◌/◌,
}
use gemacast.Jitter.Flow.{
  Floats, PlaybackFlow, ConcealVerdict, count, counted, verdict, observe_delivery,
}

abbrev pub count_one : Bool → ℕ
count_one true = 1
count_one false = 0

abbrev pub concealed_in : List Bool → ℕ
concealed_in [] = 0
concealed_in (c ∷ cs) = count_one c + concealed_in cs

abbrev with_verdict : Option ConcealVerdict → List ConcealVerdict → List ConcealVerdict
with_verdict none vs = vs
with_verdict (some v) vs = v ∷ vs

module _ (f : Floats) where
  -- The verdicts over a run of callbacks.
  unfoldable pub observe_all : PlaybackFlow f → List Bool → PlaybackFlow f × List ConcealVerdict
  observe_all w [] = (w, [])
  observe_all w (c ∷ cs) =
      let (w', v) = observe_delivery f w c in
      let (last, vs) = observe_all w' cs in (last, with_verdict v vs)

  abbrev Empty : PlaybackFlow f → Type 0
  Empty w = (w.window_callbacks ≡ 0) × (w.conceal_callbacks ≡ 0)

  count-count_one : (c : Bool) (n : ℕ) → count f c n ≡ n + count_one c
  count-count_one true n = refl
  count-count_one false n = omega arith

  observe_early :
      (w : PlaybackFlow f) (c : Bool)
      → w.window_callbacks + 1 < 50
      → observe_delivery f w c ≡ (counted f w c, none)
  unfolding observe_delivery
  observe_early w c h = rw (lt→ltb (w.window_callbacks + 1) 50 h) refl

  observe_last :
      (w : PlaybackFlow f) (c : Bool)
      → w.window_callbacks + 1 ≡ 50
      → observe_delivery f w c ≡ (
        record (counted f w c) { conceal_callbacks = 0; window_callbacks = 0 },
        some (verdict f (count f c w.conceal_callbacks) (w.window_callbacks + 1)),
      )
  unfolding observe_delivery
  observe_last w c h =
      let at_end : ltb (w.window_callbacks + 1) 50 ≡ false = ground (arith, h) in rw at_end refl

  last_count :
      (w : PlaybackFlow f) (c : Bool)
      → count f c w.conceal_callbacks ≡ w.conceal_callbacks + concealed_in (c ∷ [])
  last_count w c = omega (arith, count-count_one c w.conceal_callbacks)

  fifty :
      (w : PlaybackFlow f) (c : Bool) (cs : List Bool)
      → w.window_callbacks + length (c ∷ cs) ≡ 50
      → ((observe_all w (c ∷ cs)).1
          ≡ verdict f (w.conceal_callbacks + concealed_in (c ∷ cs)) 50 ∷ [])
        × Empty (observe_all w (c ∷ cs)).0
  unfolding observe_all
  fifty w c [] e = rw (observe_last w c e) (
    ap (λ (n : ℕ × ℕ). verdict f n.0 n.1 ∷ [])
        {x = (count f c w.conceal_callbacks, w.window_callbacks + 1)}
        {y = (w.conceal_callbacks + concealed_in (c ∷ []), 50)} (λ i. (last_count w c i, e i)),
    (refl, refl),
  )
  fifty w c (d ∷ cs) e =
      let (vs, empty) = fifty (counted f w c) d cs (omega (arith, e)) in
      rw (observe_early w c (omega (arith, e))) (
        vs ∙ ap (λ n. verdict f n 50 ∷ []) (omega (arith, count-count_one c w.conceal_callbacks)),
        empty,
      )

  in_percent :
      (n : ℕ)
      → ◌≡◌ {A = List ConcealVerdict}
          (verdict f n 50 ∷ [])
          (record { conceal_pct = 2 * n; callbacks = 50; should_rebuffer = leb 25 n } ∷ [])
  in_percent n =
      let pct : n * 100 / 50 ≡ 2 * n = omega arith in
      let half : leb 50 (n * 100 / 50) ≡ leb 25 n = ground (arith, pct) in
      λ i. record { conceal_pct = pct i; callbacks = 50; should_rebuffer = half i } ∷ []

  -- Fifty callbacks after the start of a window give exactly one verdict, and a new window. It measures
  -- fifty callbacks, states the share of those that were concealed as a percentage, and is for
  -- rebuffering exactly if at least half of them were.
  pub observe_window :
      (w : PlaybackFlow f) (cs : List Bool)
      → w.window_callbacks ≡ 0
      → w.conceal_callbacks ≡ 0
      → length cs ≡ 50
      → ((observe_all w cs).1
          ≡ record {
            conceal_pct = 2 * concealed_in cs;
            callbacks = 50;
            should_rebuffer = leb 25 (concealed_in cs);
          }
            ∷ [])
        × ((observe_all w cs).0.window_callbacks ≡ 0)
        × ((observe_all w cs).0.conceal_callbacks ≡ 0)
  observe_window w [] hw hc h = absurd (omega (arith, h))
  observe_window w (c ∷ cs) hw hc h =
      let (vs, empty) = fifty w c cs (omega (arith, hw, h)) in
      (
        vs ∙ ap (λ n. verdict f n 50 ∷ []) (omega (arith, hc)) ∙ in_percent (concealed_in (c ∷ cs)),
        empty.0,
        empty.1,
      )
