-- ===== src/Sender/Ids.antt =====
-- Sets of ids as lists: an id once, and two sets of one size of which one lies in the other.
use botjim.Prelude.{
  ℕ, ◌+◌, ◌<◌, ◌≤◌, ◌≡◌, arith, Bool, true, false, not, ◌&&◌, ◌||◌, List, [], ◌∷◌, length, ◌==◌,
  if◌then◌else◌, Bool-cases, inl, inr,
}
use botjim.Sender.{has_id, with_id}

unfoldable pub distinct : List ℕ → Bool
distinct [] = true
distinct (i ∷ is) = not (has_id i is) && distinct is

unfoldable pub without : ℕ → List ℕ → List ℕ
without i [] = []
without i (j ∷ js) = let rest = without i js in if i == j then rest else j ∷ rest

has_id-without : (i j : ℕ) (js : List ℕ) → has_id i (without j js) ≡ (not (j == i) && has_id i js)
unfolding has_id without
has_id-without i j [] = ground arith
has_id-without i j (k ∷ js) = ground (arith, has_id-without i j js)

pub has_id-with_id : (i j : ℕ) (js : List ℕ) → has_id i (with_id j js) ≡ (i == j || has_id i js)
unfolding has_id with_id
has_id-with_id i j js = elim (Bool-cases (i == j)) [
  | inl e ↦ let e' : i ≡ j = ground arith in rw e' (ground arith)
  | inr d ↦ ground arith
]

pub length-with_id :
    (i : ℕ) (is : List ℕ) → has_id i is ≡ false → length (with_id i is) ≡ length is + 1
unfolding with_id
length-with_id i is h = rw h (omega arith)

pub distinct-with_id : (i : ℕ) (is : List ℕ) → distinct is ≡ true → distinct (with_id i is) ≡ true
unfolding with_id distinct
distinct-with_id i is d = ground arith

length-without : (i : ℕ) (is : List ℕ) → length (without i is) ≤ length is
unfolding without
length-without i [] = omega arith
length-without i (j ∷ is) = ground (arith, length-without i is)

length-without_lt : (i : ℕ) (is : List ℕ) → has_id i is ≡ true → length (without i is) < length is
unfolding without has_id
length-without_lt i [] h = absurd cc
length-without_lt i (j ∷ is) h = ground (arith, length-without i is, length-without_lt i is)

-- Ids each once are no more than the ids of a set that has them all.
pub length-within :
    (is js : List ℕ)
    → distinct is ≡ true
    → ((i : ℕ) → has_id i is ≡ true → has_id i js ≡ true)
    → length is ≤ length js
unfolding distinct has_id
length-within [] js d h = omega arith
length-within (k ∷ is) js d h =
    let inside : has_id k js ≡ true = h k (ground arith) in
    let shorter = length-without_lt k js inside in
    let rest = length-within is (without k js) (ground arith) kept in omega arith
  where
    kept : (i : ℕ) → has_id i is ≡ true → has_id i (without k js) ≡ true
    kept i there = elim (Bool-cases (k == i)) [
      | inl e ↦
          let e' : k ≡ i = ground arith in
          let twice : has_id k is ≡ true = rw e' there in absurd (clash twice)
      | inr n ↦ rw has_id-without (ground (arith, h i (ground arith)))
    ]
      where
        clash : has_id k is ≡ true → ⊥
        clash twice = ground arith

-- A set within another of no more ids is the other.
pub covers :
    (is js : List ℕ)
    → distinct is ≡ true
    → ((i : ℕ) → has_id i is ≡ true → has_id i js ≡ true)
    → length js ≤ length is
    → (i : ℕ) → has_id i js ≡ true
    → has_id i is ≡ true
unfolding distinct has_id
covers is js d h few i there = elim (Bool-cases (has_id i is)) [
  | inl e ↦ e
  | inr n ↦
      let more = length-within (i ∷ is) js (ground arith) (with_head n) in absurd (omega arith)
]
  where
    with_head : has_id i is ≡ false → (j : ℕ) → has_id j (i ∷ is) ≡ true → has_id j js ≡ true
    with_head n j k = elim (Bool-cases (j == i)) [
      | inl e ↦ let e' : j ≡ i = ground arith in rw e' there
      | inr o ↦ h j (ground arith)
    ]
