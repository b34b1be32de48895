-- ===== src/Engine/Limiter.antt =====
-- internal/engine/limiter.go: the token bucket of --limit. The source counts bytes in floating point;
-- here tokens are counted in units of 10^-9 byte and time in nanoseconds, without rounding.
use botjim.Prelude.{
  ℕ, ◌+◌, ◌-◌, ◌*◌, ◌^◌, ◌<◌, ◌≤◌, ◌≡◌, ◌↔◌, ◌∙◌, refl, arith, Bool, true, false, List, [], ◌∷◌,
  ◌==◌, leb, ltb, if◌then◌else◌, Bool-cases, inl, inr, ◌⊎◌,
}

-- The units of a byte.
abbrev pub unit : ℕ
unit = 1000000000

pub record Limiter : Type 0 where
  pub rate : ℕ
  pub tokens : ℕ
  pub burst : ℕ

unfoldable pub new_limiter : ℕ → Limiter
new_limiter bytes_per_sec =
    let burst = if ltb (64 * 2 ^ 20) bytes_per_sec then 64 * 2 ^ 20 else bytes_per_sec in
    record { rate = bytes_per_sec; tokens = burst * unit; burst = burst * unit }

unfoldable pub refilled : Limiter → ℕ → ℕ
refilled l elapsed = let t = l.tokens + elapsed * l.rate in if ltb l.burst t then l.burst else t

-- A turn of acquire's loop, that long after the last: whether it grants `n` bytes.
unfoldable pub acquire_round : ℕ → Limiter → ℕ → Limiter × Bool
unfolding refilled
acquire_round n l elapsed =
    let t = refilled l elapsed in
    if leb (n * unit) t
    then (record l { tokens = t - n * unit }, true)
    else (record l { tokens = t }, false)

unfoldable pub or_wait : (Limiter → Limiter × Bool) → Limiter × Bool → Limiter × Bool
or_wait again (l, true) = (l, true)
or_wait again (l, false) = again l

-- The loop of acquire over turns with these times between them; behind the last one the wait is
-- cancelled.
unfoldable pub wait_for : ℕ → List ℕ → Limiter → Limiter × Bool
wait_for n [] l = (l, false)
wait_for n (t ∷ ts) l = or_wait (λ m. wait_for n ts m) (acquire_round n l t)

unfoldable pub acquire : ℕ → List ℕ → Limiter → Limiter × Bool
acquire n times l = if l.rate == 0 then (l, true) else wait_for n times l

abbrev After : Limiter → ℕ → Limiter × Bool → Type 0
After l n r = (r.0.burst ≡ l.burst) × ((r.1 ≡ false) ⊎ (n * unit ≤ l.burst))

acquire_round-After : (n : ℕ) (l : Limiter) (t : ℕ) → After l n (acquire_round n l t)
unfolding acquire_round
acquire_round-After n l t = elim (Bool-cases (leb (n * unit) (refilled l t))) [
  | inl granted ↦ rw granted (refl, inr (unfold refilled in ground arith))
  | inr short ↦ rw short (refl, inl refl)
]

or_wait-After :
    (n : ℕ) (l : Limiter) (again : Limiter → Limiter × Bool) (r : Limiter × Bool)
    → After l n r
    → ((m : Limiter) → After m n (again m))
    → After l n (or_wait again r)
unfolding or_wait
or_wait-After n l again (m, true) (same, fits) later = (same, fits)
or_wait-After n l again (m, false) (same, fits) later =
    let (same', fits') = later m in
    (
      same' ∙ same,
      elim fits' [ inl refused ↦ inl refused | inr small ↦ inr (omega (arith, small, same)) ],
    )

wait_for-After : (n : ℕ) (ts : List ℕ) (l : Limiter) → After l n (wait_for n ts l)
unfolding wait_for
wait_for-After n [] l = (refl, inl refl)
wait_for-After n (t ∷ ts) l =
    or_wait-After n l (λ m. wait_for n ts m) (acquire_round n l t) (acquire_round-After n l t)
      (λ m. wait_for-After n ts m)

le_times : (a r : ℕ) → 0 < r → a ≤ a * r
le_times a r h = grind arith

at_once :
    (n : ℕ) (l : Limiter)
    → 0 < l.rate
    → n * unit ≤ l.burst
    → (wait_for n (n * unit ∷ []) l).1 ≡ true
unfolding wait_for or_wait acquire_round
at_once n l some_rate small =
    let grown = le_times (n * unit) l.rate some_rate in
    let enough : leb (n * unit) (refilled l (n * unit)) ≡ true =
      unfold refilled in ground (arith, grown, small) in
    rw enough refl

-- Where the limit is not zero: acquire can grant `n` bytes, after some waits that nobody else uses, exactly if they are no more than
-- the burst.
pub acquire_iff :
    (n : ℕ) (l : Limiter)
    → 0 < l.rate
    → ((ts : List ℕ) × ((acquire n ts l).1 ≡ true)) ↔ (n * unit ≤ l.burst)
unfolding acquire
acquire_iff n l some_rate =
    let limited : (l.rate == 0) ≡ false = ground arith in
    (
      λ found.
          let (ts, granted) = found in
          let there : (wait_for n ts l).1 ≡ true = rw limited at granted in
          fits (wait_for n ts l) there (wait_for-After n ts l),
      λ small. (n * unit ∷ [], rw limited (granted_at_once small)),
    )
  where
    fits : (r : Limiter × Bool) → r.1 ≡ true → After l n r → n * unit ≤ l.burst
    fits r there (same, inl refused) = absurd cc
    fits r there (same, inr small) = small

    granted_at_once : n * unit ≤ l.burst → (wait_for n (n * unit ∷ []) l).1 ≡ true
    granted_at_once small = at_once n l some_rate small
