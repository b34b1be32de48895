-- ===== src/Relay/Runs.antt =====
-- Runs of the picker: what holds after any sequence of its calls.
use botjim.Prelude.{
  ℕ, ◌<◌, ◌≤◌, ◌≡◌, ◌↔◌, arith, true, false, not, ◌&&◌, List, [], ◌∷◌, length, ltb, leb, Bool-cases,
  inl, inr,
}
use botjim.Relay.TaskSet.{
  Task, same, has, without, Counted, same→eq, has-without, length-within, length-without_lt,
}
use botjim.Relay.Picker.{Picker, rarest, keys, started, endgame, scarcest, pick, all_done}
use botjim.Relay.Accounting.{IsValid, at-started}

-- A range over a map visits its keys and no others.
abbrev pub Visits : (List Task → List Task) → Type 0
Visits visit = (t : Task) (s : List Task) → has t (visit s) ≡ has t s

module _ (tasks : List Task) (p : Picker) (v : IsValid tasks p) where
  handed-IsValid :
      (b : Task)
      → IsValid tasks (record p { pending = without b p.pending; inflight = started b p.inflight })
  handed-IsValid b = record {
    counted = v.counted;
    once = v.once;
    done_once = v.done_once;
    known = v.known;
    apart = λ t h. rw (has-without, v.apart t h) (ground arith);
    held = λ t h.
        rw (has-without, at-started)
          (elim (Bool-cases (same b t)) [ inl e ↦ ground (arith, e) | inr n ↦ rw n (v.held t h) ]);
    bounded = v.bounded;
  }

  raced-IsValid : (b : Task) → IsValid tasks (record p { inflight = started b p.inflight })
  raced-IsValid b = record {
    counted = v.counted;
    once = v.once;
    done_once = v.done_once;
    known = v.known;
    apart = v.apart;
    held = λ t h. rw at-started (ground (arith, v.held t h));
    bounded = v.bounded;
  }

  scarcest-IsValid : (rarity : List Counted) (s : List Task) → IsValid tasks (scarcest rarity p s).0
  unfolding scarcest
  scarcest-IsValid rarity [] = v
  scarcest-IsValid rarity (t ∷ ts) = handed-IsValid (rarest rarity t ts)

  endgame-IsValid : (s : List Task) → IsValid tasks (endgame p s).0
  unfolding endgame
  endgame-IsValid [] = v
  endgame-IsValid (t ∷ ts) = raced-IsValid t

  pub pick-IsValid :
      (visit : List Task → List Task) (rarity : List Counted)
      → IsValid tasks (pick visit rarity p).0
  unfolding pick
  pick-IsValid visit rarity = elim (Bool-cases (leb p.total (length p.done))) [
    | inl full ↦ rw full v
    | inr more ↦ elim (Bool-cases (ltb 0 (length p.pending))) [
      | inl left ↦ rw (more, left) (scarcest-IsValid rarity (visit p.pending))
      | inr empty ↦ rw (more, empty) (endgame-IsValid (visit (keys p.inflight)))
    ]
  ]

  -- Whether every task is done can be read off the lengths.
  pub all_tasks_done : (all_done p ≡ true) ↔ ((t : Task) → has t tasks ≡ true → has t p.done ≡ true)
  unfolding all_done
  all_tasks_done = (
    λ full t h. elim (Bool-cases (has t p.done)) [
      | inl inside ↦ inside
      | inr out ↦
          let shorter = length-without_lt t tasks h in
          let bound =
            length-within p.done (without t tasks) v.done_once
              (λ u k. rw has-without (other t u h out k)) in
          absurd (clash full shorter bound)
    ],
    λ h. enough (length-within tasks p.done v.once h),
  )
    where
      both : (u : Task) → has u p.done ≡ false → has u p.done ≡ true → ⊥
      both u gone k = cc

      other :
          (t u : Task)
          → has t tasks ≡ true
          → has t p.done ≡ false
          → has u p.done ≡ true
          → (not (same t u) && has u tasks) ≡ true
      other t u h out k = elim (Bool-cases (same t u)) [
        | inl e ↦
            let gone : has u p.done ≡ false = rw (← same→eq t u e) out in absurd (both u gone k)
        | inr n ↦ rw (n, v.known u k)
      ]

      clash : {a b : ℕ} → leb p.total b ≡ true → a < length tasks → b ≤ a → ⊥
      clash full shorter bound = ground (arith, v.counted)

      enough : length tasks ≤ length p.done → leb p.total (length p.done) ≡ true
      enough h = ground (arith, v.counted)
