-- ===== src/Updater/Retry/Examples.antt =====
-- A download that works at the third attempt, and one that never does.
use gemacast.Prelude.{
  ℕ, zero, suc, ◌<◌, ◌+◌, ◌*◌, ◌^◌, ◌≡◌, refl, arith, [], ◌∷◌, length, ok, err, inr,
}
use gemacast.Updater.Retry.{for_network_requests, Operation, run, total, Fails, run_lem}

abbrev third_works : Operation ℕ ℕ
third_works (suc (suc n)) = ok 42
third_works n = err n

third-Fails : (i : ℕ) → i < 2 → Fails (third_works i)
third-Fails zero lt = (0, refl)
third-Fails (suc zero) lt = (1, refl)
third-Fails (suc (suc i)) lt = absurd (omega arith)

abbrev refused : Operation ℕ ℕ
refused n = err n

run_lem_example :
    ((run for_network_requests third_works).0 ≡ ok 42)
    × (length (run for_network_requests third_works).1 ≡ 2)
    × (total (run for_network_requests third_works).1 + 1_000_000 ≡ 1_000_000 * 2 ^ 2)
run_lem_example =
    run_lem for_network_requests third_works 2 (omega arith) third-Fails (inr (42, refl))

pauses : run for_network_requests refused ≡ (err 3, 1_000_000 ∷ 2_000_000 ∷ 4_000_000 ∷ [])
unfolding run
pauses = refl
