-- ===== src/Engine/LimiterTests.antt =====
-- Limits at concrete rates.
use botjim.Prelude.{ℕ, ◌*◌, ◌≤◌, ◌≡◌, ◌↔◌, refl, arith, true, false, List, [], ◌∷◌}
use botjim.Engine.Limiter.{Limiter, unit, new_limiter, acquire, acquire_iff}

-- 8 MiB a second.
abbrev eight : Limiter
eight = record { rate = 8388608; tokens = 0; burst = 8388608 * unit }

eight_empty : (new_limiter 8388608).burst ≡ eight.burst
unfolding new_limiter
eight_empty = refl

acquire_iff_example :
    ((ts : List ℕ) × ((acquire 4194304 ts eight).1 ≡ true)) ↔ (4194304 * unit ≤ eight.burst)
acquire_iff_example = acquire_iff 4194304 eight (omega arith)

-- Half a second is enough for 4 MiB, a third is not.
half_a_second : (acquire 4194304 (500000000 ∷ []) eight).1 ≡ true
unfolding acquire botjim.Engine.Limiter.wait_for botjim.Engine.Limiter.or_wait
    botjim.Engine.Limiter.acquire_round
half_a_second = refl

third_of_a_second : (acquire 4194304 (333333333 ∷ []) eight).1 ≡ false
unfolding acquire botjim.Engine.Limiter.wait_for botjim.Engine.Limiter.or_wait
    botjim.Engine.Limiter.acquire_round
third_of_a_second = refl

-- At 1 MiB a second a chunk of 4 MiB never goes out.
never : (ts : List ℕ) → (acquire 4194304 ts (new_limiter 1048576)).1 ≡ true → 1 ≤ 0
unfolding new_limiter
never ts granted =
    let small = (acquire_iff 4194304 (new_limiter 1048576) (omega arith)).0 (ts, granted) in
    absurd (omega (arith, small))
