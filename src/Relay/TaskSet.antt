-- ===== src/Relay/TaskSet.antt =====
-- Sets and counts of chunk tasks, for the maps of internal/relay/swarm_picker.go.
use botjim.Prelude.{
  ℕ, ◌<◌, ◌≤◌, ◌≡◌, arith, Bool, true, false, not, ◌&&◌, ◌||◌, List, [], ◌∷◌, length, ◌==◌,
  if◌then◌else◌, Bool-cases, inl, inr,
}

pub record Task : Type 0 where
  pub file : ℕ
  pub chunk : ℕ

unfoldable pub same : Task → Task → Bool
same t u = t.file == u.file && t.chunk == u.chunk

pub same_self : (t : Task) → same t t ≡ true
unfolding same
same_self t = ground arith

pub same→eq : (t u : Task) → same t u ≡ true → t ≡ u
unfolding same
same→eq t u h =
    let file : t.file ≡ u.file = ground arith in let chunk : t.chunk ≡ u.chunk = ground arith in cc

-- map[chunkTask]struct{}
unfoldable pub has : Task → List Task → Bool
unfolding same
has t [] = false
has t (u ∷ s) = same t u || has t s

-- delete(s, t)
unfoldable pub without : Task → List Task → List Task
unfolding same
without t [] = []
without t (u ∷ s) = let rest = without t s in if same t u then rest else u ∷ rest

-- s[t] = struct{}{}
unfoldable pub with_task : Task → List Task → List Task
unfolding has
with_task t s = if has t s then s else t ∷ s

-- map[chunkTask]int: a missing key reads as 0.
pub record Counted : Type 0 where
  pub task : Task
  pub times : ℕ

unfoldable pub at : Task → List Counted → ℕ
unfolding same
at t [] = 0
at t (c ∷ m) = if same t c.task then c.times else at t m

unfoldable pub erase : Task → List Counted → List Counted
unfolding same
erase t [] = []
erase t (c ∷ m) = let rest = erase t m in if same t c.task then rest else c ∷ rest

-- m[t] = n
unfoldable pub put : Task → ℕ → List Counted → List Counted
unfolding erase
put t n m = record { task = t; times = n } ∷ erase t m

pub same_trans : (t u v : Task) → same t u ≡ true → same u v ≡ same t v
same_trans t u v h = let e = same→eq t u h in rw e

pub same_sym : (t u : Task) → same t u ≡ same u t
unfolding same
same_sym t u = ground arith

pub has-without : (t u : Task) (s : List Task) → has t (without u s) ≡ (not (same u t) && has t s)
unfolding has without
has-without t u [] = ground arith
has-without t u (v ∷ s) = elim (Bool-cases (same u v)) [
  | inl e ↦ ground (arith, has-without t u s, same_trans u v t e, same_sym t v)
  | inr d ↦ elim (Bool-cases (same t v)) [
    | inl e ↦ ground (arith, has-without t u s, same_trans t v u e, same_sym u v, same_sym u t)
    | inr d' ↦ ground (arith, has-without t u s)
  ]
]

pub has-with_task : (t u : Task) (s : List Task) → has t (with_task u s) ≡ (same u t || has t s)
unfolding has with_task
has-with_task t u s = elim (Bool-cases (same u t)) [
  | inl e ↦ let e' = same→eq u t e in rw e' (ground (arith, same_self t))
  | inr d ↦ ground (arith, same_sym t u)
]

pub at-erase : (t u : Task) (m : List Counted) → at t (erase u m) ≡ (if same u t then 0 else at t m)
unfolding at erase
at-erase t u [] = ground arith
at-erase t u (c ∷ m) = elim (Bool-cases (same u c.task)) [
  | inl e ↦ ground (arith, at-erase t u m, same_trans u c.task t e, same_sym t c.task)
  | inr d ↦ elim (Bool-cases (same t c.task)) [
    | inl e ↦
        ground (arith, at-erase t u m, same_trans t c.task u e, same_sym u c.task, same_sym u t)
    | inr d' ↦ ground (arith, at-erase t u m)
  ]
]

pub at-put :
    (t u : Task) (n : ℕ) (m : List Counted) → at t (put u n m) ≡ (if same u t then n else at t m)
unfolding at put
at-put t u n m = ground (arith, at-erase t u m, same_sym t u)

pub length-without : (t : Task) (s : List Task) → length (without t s) ≤ length s
unfolding without
length-without t [] = omega arith
length-without t (u ∷ s) = ground (arith, length-without t s)

pub length-without_lt :
    (t : Task) (s : List Task) → has t s ≡ true → length (without t s) < length s
unfolding has without
length-without_lt t [] h = absurd cc
length-without_lt t (u ∷ s) h = ground (arith, length-without t s, length-without_lt t s)

-- No task twice.
unfoldable pub distinct : List Task → Bool
unfolding has
distinct [] = true
distinct (t ∷ s) = not (has t s) && distinct s

-- A set without repetition is no longer than a set that it lies in.
pub length-within :
    (s r : List Task)
    → distinct s ≡ true
    → ((t : Task) → has t s ≡ true → has t r ≡ true)
    → length s ≤ length r
unfolding distinct has
length-within [] r d h = omega arith
length-within (u ∷ s) r d h =
    let inside : has u r ≡ true = h u (ground (arith, same_self u)) in
    let shorter = length-without_lt u r inside in
    let rest = length-within s (without u r) (ground arith) (λ t k. kept t k) in omega arith
  where
    kept : (t : Task) → has t s ≡ true → has t (without u r) ≡ true
    kept t k = elim (Bool-cases (same u t)) [
      | inl e ↦
          let e' = same→eq u t e in let twice : has u s ≡ true = rw e' k in absurd (clash twice)
      | inr n ↦ rw has-without (ground (arith, h t (ground arith)))
    ]
      where
        clash : has u s ≡ true → ⊥
        clash twice = ground arith
