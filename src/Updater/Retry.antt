-- ===== src/Updater/Retry.antt =====
-- gemacast-core/src/updater/retry.rs: `RetryPolicy`. The operation is its result at each attempt, and the
-- pauses between the attempts are an effect. Times are microseconds. The backoff has no upper bound: where
-- the doubling leaves the range of a `Duration`, the code would panic, which is not modelled.
mod Examples
use gemacast.Prelude.{
  ℕ, zero, suc, ◌+◌, ◌*◌, ◌^◌, ◌≤◌, ◌<◌, ◌≡◌, refl, sym, ◌∙◌, subst, ap, arith, List, [], ◌∷◌,
  length, Result, ok, err, ◌⊎◌, inl, inr,
}

pub record RetryPolicy : Type 0 where
  pub retries : ℕ
  pub initial_backoff : ℕ

abbrev pub for_network_requests : RetryPolicy
for_network_requests = record { retries = 3; initial_backoff = 1_000_000 }

abbrev pub Operation : Type 0 → Type 0 → Type 0
Operation E A = ℕ → Result E A

abbrev pub total : List ℕ → ℕ
total [] = 0
total (t ∷ ts) = t + total ts

double : (b n : ℕ) → b * 2 * 2 ^ n ≡ b * 2 ^ suc n
double b n = grind arith

module _ {E A : Type 0} where
  -- What an attempt and the ones after it give, with the pause before them.
  abbrev pub then_retry : Result E A → ℕ → Result E A × List ℕ → Result E A × List ℕ
  then_retry (ok value) backoff rest = (ok value, [])
  then_retry (err error) backoff rest = (rest.0, backoff ∷ rest.1)

  -- The attempts from one on, of which `left` may follow it, with the backoff at that time.
  unfoldable pub attempts : Operation E A → (left attempt backoff : ℕ) → Result E A × List ℕ
  attempts operation zero attempt backoff = (operation attempt, [])
  attempts operation (suc left) attempt backoff =
      then_retry (operation attempt) backoff (attempts operation left (attempt + 1) (backoff * 2))

  unfoldable pub run : RetryPolicy → Operation E A → Result E A × List ℕ
  unfolding attempts
  run p operation = attempts operation p.retries 0 p.initial_backoff

  abbrev pub Fails : Result E A → Type 0
  Fails r = (e : E) × (r ≡ err e)

  abbrev pub Works : Result E A → Type 0
  Works r = (v : A) × (r ≡ ok v)

  -- What a run gives that ends with the attempt `n` of those from `attempt` on.
  EndsAt : Operation E A → (attempt backoff n : ℕ) → Result E A × List ℕ → Type 0
  EndsAt operation attempt backoff n r =
      (r.0 ≡ operation (attempt + n)) × (length r.1 ≡ n) × (total r.1 + backoff ≡ backoff * 2 ^ n)

  attempts-Works :
      (operation : Operation E A) (left attempt backoff : ℕ)
      → Works (operation attempt)
      → attempts operation left attempt backoff ≡ (operation attempt, [])
  unfolding attempts
  attempts-Works operation zero attempt backoff w = refl
  attempts-Works operation (suc left) attempt backoff (v, e) =
      ap (λ r. then_retry r backoff (attempts operation left (attempt + 1) (backoff * 2))) e
      ∙ ap (λ r. (r, [])) (sym e)

  EndsAt-retry :
      (operation : Operation E A) (n attempt backoff : ℕ) (rest : Result E A × List ℕ)
      → Fails (operation attempt)
      → EndsAt operation (attempt + 1) (backoff * 2) n rest
      → EndsAt operation attempt backoff (suc n) (then_retry (operation attempt) backoff rest)
  unfolding EndsAt
  EndsAt-retry operation n attempt backoff rest (x, e) (same, many, long) =
      subst (λ r. EndsAt operation attempt backoff (suc n) (then_retry r backoff rest)) (sym e)
        (same ∙ ap operation (omega arith), ap suc many, omega arith ∙ long ∙ double backoff n)

  attempts_lem :
      (operation : Operation E A) (n left attempt backoff : ℕ)
      → n ≤ left
      → ((i : ℕ) → i < n → Fails (operation (attempt + i)))
      → (n ≡ left) ⊎ Works (operation (attempt + n))
      → EndsAt operation attempt backoff n (attempts operation left attempt backoff)
  unfolding attempts EndsAt
  attempts_lem operation zero left attempt backoff le fails (inr w) =
      subst (λ r. EndsAt operation attempt backoff 0 r)
        (sym (
          attempts-Works operation left attempt backoff
            (subst (λ m. Works (operation m)) (omega arith) w)))
        (ap operation (omega arith), refl, omega arith)
  attempts_lem operation zero zero attempt backoff le fails (inl e) =
      (ap operation (omega arith), refl, omega arith)
  attempts_lem operation zero (suc left) attempt backoff le fails (inl e) = absurd (omega arith)
  attempts_lem operation (suc n) zero attempt backoff le fails stop = absurd (omega arith)
  attempts_lem operation (suc n) (suc left) attempt backoff le fails stop =
      EndsAt-retry operation n attempt backoff (attempts operation left (attempt + 1) (backoff * 2))
        (subst (λ m. Fails (operation m)) (omega arith) (fails 0 (omega arith)))
        (attempts_lem operation n left (attempt + 1) (backoff * 2) (omega arith)
          (λ i lt. subst (λ m. Fails (operation m)) (omega arith) (fails (suc i) (omega arith)))
          (elim stop [
            | inl e ↦ inl (omega arith)
            | inr w ↦ inr (subst (λ m. Works (operation m)) (omega arith) w)
          ]))

  -- When the first `n` attempts fail and the next one works or is the last that the policy allows, a
  -- run returns the result of that next attempt, after `n` pauses whose sum and the initial backoff are
  -- the initial backoff times `2 ^ n`.
  pub run_lem :
      (p : RetryPolicy) (operation : Operation E A) (n : ℕ)
      → n ≤ p.retries
      → ((i : ℕ) → i < n → Fails (operation i))
      → (n ≡ p.retries) ⊎ Works (operation n)
      → ((run p operation).0 ≡ operation n)
        × (length (run p operation).1 ≡ n)
        × (total (run p operation).1 + p.initial_backoff ≡ p.initial_backoff * 2 ^ n)
  unfolding run EndsAt
  run_lem p operation n le fails stop =
      let (same, many, long) =
        attempts_lem operation n p.retries 0 p.initial_backoff le
          (λ i lt. subst (λ m. Fails (operation m)) (omega arith) (fails i lt))
          (elim stop [
            | inl e ↦ inl e
            | inr w ↦ inr (subst (λ m. Works (operation m)) (omega arith) w)
          ]) in
      (same ∙ ap operation (omega arith), many, long)
