-- ===== src/Relay/Progress.antt =====
-- What `pick` gives, and that a chunk is completed once.
use botjim.Prelude.{
  ◌+◌, ◌≡◌, ◌↔◌, refl, ap, ◌∙◌, arith, true, false, not, ◌||◌, List, [], ◌∷◌, length, ltb, leb,
  Bool-cases, inl, inr, none,
}
use botjim.Relay.TaskSet.{Task, has, Counted, at, same_self, has-with_task, distinct}
use botjim.Relay.Picker.{
  Picker, new_picker, keys, endgame, scarcest, pick, complete, fail, all_done,
}
use botjim.Relay.Accounting.{IsValid, new_picker-IsValid, complete-IsValid, fail-IsValid}
use botjim.Relay.Runs.{Visits, pick-IsValid, all_tasks_done}

-- Calls of the workers, one after the other, none of which was told that a chunk is lost for good.
pub data Run (tasks : List Task) (p : Picker) : Picker → Type 0 where
  here : Run tasks p p
  picked :
      (q : Picker) (visit : List Task → List Task) (rarity : List Counted)
      → Run tasks p q
      → Run tasks p (pick visit rarity q).0
  completed :
      (q : Picker) (t : Task) → has t tasks ≡ true → Run tasks p q → Run tasks p (complete t q).0
  failed : (q : Picker) (t : Task) → (fail t q).1 ≡ false → Run tasks p q → Run tasks p (fail t q).0

Run-IsValid : (tasks : List Task) (p q : Picker) → IsValid tasks p → Run tasks p q → IsValid tasks q
Run-IsValid tasks p _ v here = v
Run-IsValid tasks p _ v (picked q visit rarity r) =
    pick-IsValid tasks q (Run-IsValid tasks p q v r) visit rarity
Run-IsValid tasks p _ v (completed q t h r) =
    complete-IsValid tasks q (Run-IsValid tasks p q v r) t h
Run-IsValid tasks p _ v (failed q t h r) = fail-IsValid tasks q (Run-IsValid tasks p q v r) t h

has-keys : (t : Task) (m : List Counted) → ltb 0 (at t m) ≡ true → has t (keys m) ≡ true
unfolding has at
has-keys t [] h = absurd cc
has-keys t (c ∷ m) h = ground (arith, has-keys t m)

has_none : (t : Task) (s : List Task) → s ≡ [] → has t s ≡ true → ⊥
unfolding has
has_none t [] e h = cc
has_none t (u ∷ s) e h = cc

scarcest-none :
    (rarity : List Counted) (p : Picker) (s : List Task) → (scarcest rarity p s).1 ≡ none → s ≡ []
unfolding scarcest
scarcest-none rarity p [] e = refl
scarcest-none rarity p (t ∷ ts) e = cc

endgame-none : (p : Picker) (s : List Task) → (endgame p s).1 ≡ none → s ≡ []
unfolding endgame
endgame-none p [] e = refl
endgame-none p (t ∷ ts) e = cc

length-positive : (t : Task) (s : List Task) → has t s ≡ true → ltb 0 (length s) ≡ true
unfolding has
length-positive t [] h = cc
length-positive t (u ∷ s) h = ground arith

empty : (s : List Task) → ltb 0 (length s) ≡ false → s ≡ []
empty [] h = refl
empty (t ∷ s) h = absurd (ground arith)

not_skipped :
    (visit : List Task → List Task)
    → Visits visit
    → (s : List Task) → ltb 0 (length s) ≡ true
    → visit s ≡ []
    → ⊥
not_skipped visit all [] h e = cc
not_skipped visit all (t ∷ s) h e =
    has_none t (visit (t ∷ s)) e (rw all (unfold has in rw same_self))

module _ (tasks : List Task) (p : Picker) (v : IsValid tasks p) (visit : List Task → List Task)
    (all : Visits visit) (rarity : List Counted) where
  no_task_left :
      (pick visit rarity p).1 ≡ none → (t : Task) → has t tasks ≡ true → has t p.done ≡ true
  unfolding pick
  no_task_left e t h = elim (Bool-cases (leb p.total (length p.done))) [
    | inl full ↦ (all_tasks_done tasks p v).0 (unfold all_done in full) t h
    | inr more ↦ elim (Bool-cases (ltb 0 (length p.pending))) [
      | inl left ↦
          absurd (unvisited left (scarcest-none rarity p (visit p.pending) (rw (more, left) at e)))
      | inr gone ↦ elim (Bool-cases (ltb 0 (at t p.inflight))) [
        | inl busy ↦ absurd (
            has_none t (visit (keys p.inflight))
              (endgame-none p (visit (keys p.inflight)) (rw (more, gone) at e))
              (rw all (has-keys t p.inflight busy)))
        | inr idle ↦ settled (v.held t h) (not_pending gone) idle
      ]
    ]
  ]
    where
      unvisited : ltb 0 (length p.pending) ≡ true → visit p.pending ≡ [] → ⊥
      unvisited left e = not_skipped visit all p.pending left e

      not_pending : ltb 0 (length p.pending) ≡ false → has t p.pending ≡ false
      not_pending gone = rw (empty p.pending gone) (unfold has in refl)

      settled :
          (has t p.done || has t p.pending || ltb 0 (at t p.inflight)) ≡ true
          → has t p.pending ≡ false
          → ltb 0 (at t p.inflight) ≡ false
          → has t p.done ≡ true
      settled h a b = ground arith

-- After any calls on a new picker over distinct tasks, none of which reported a lost chunk, whatever
-- the order in which Go ranges over its maps: `pick` finds no task exactly if every task is done.
pub pick-none_iff :
    (tasks : List Task) (q : Picker) (visit : List Task → List Task) (rarity : List Counted)
    → distinct tasks ≡ true
    → Run tasks (new_picker tasks) q
    → Visits visit
    → ((pick visit rarity q).1 ≡ none) ↔ ((t : Task) → has t tasks ≡ true → has t q.done ≡ true)
pick-none_iff tasks q visit rarity d r all =
    let v = Run-IsValid tasks (new_picker tasks) q (new_picker-IsValid tasks d) r in
    (no_task_left tasks q v visit all rarity, λ h. full ((all_tasks_done tasks q v).1 h))
  where
    full : all_done q ≡ true → (pick visit rarity q).1 ≡ none
    full h =
        let enough : leb q.total (length q.done) ≡ true = unfold all_done in h in
        unfold pick in rw enough

done_kept :
    (p : Picker) (t u : Task) (visit : List Task → List Task) (rarity : List Counted)
    → has t p.done ≡ true
    → (has t (pick visit rarity p).0.done ≡ true)
      × (has t (complete u p).0.done ≡ true)
      × (has t (fail u p).0.done ≡ true)
unfolding scarcest endgame pick complete fail
done_kept p t u visit rarity h = (picks, completes, fails)
  where
    scarce : (s : List Task) → has t (scarcest rarity p s).0.done ≡ true
    scarce [] = h
    scarce (w ∷ ws) = h

    race : (s : List Task) → has t (endgame p s).0.done ≡ true
    race [] = h
    race (w ∷ ws) = h

    picks : has t (pick visit rarity p).0.done ≡ true
    picks = elim (Bool-cases (leb p.total (length p.done))) [
      | inl full ↦ rw full h
      | inr more ↦ elim (Bool-cases (ltb 0 (length p.pending))) [
        | inl left ↦ rw (more, left) (scarce (visit p.pending))
        | inr gone ↦ rw (more, gone) (race (visit (keys p.inflight)))
      ]
    ]

    completes : has t (complete u p).0.done ≡ true
    completes = elim (Bool-cases (has u p.done)) [
      | inl was ↦ rw was h
      | inr fresh ↦ rw fresh (rw (has-with_task, h) (ground arith))
    ]

    fails : has t (fail u p).0.done ≡ true
    fails = elim (Bool-cases (has u p.done)) [
      | inl was ↦ rw was h
      | inr fresh ↦ elim (Bool-cases (leb p.max_fails (at u p.fails + 1))) [
        | inl lost ↦ rw (fresh, lost) h
        | inr more ↦ rw (fresh, more) h
      ]
    ]

-- Any calls, one after the other, also those of fail that report a chunk as lost for good.
pub data Calls (p : Picker) : Picker → Type 0 where
  no_call : Calls p p
  after_pick :
      (q : Picker) (visit : List Task → List Task) (rarity : List Counted)
      → Calls p q
      → Calls p (pick visit rarity q).0
  after_complete : (q : Picker) (t : Task) → Calls p q → Calls p (complete t q).0
  after_fail : (q : Picker) (t : Task) → Calls p q → Calls p (fail t q).0

done_later : (p q : Picker) (t : Task) → Calls p q → has t p.done ≡ true → has t q.done ≡ true
done_later p _ t no_call h = h
done_later p _ t (after_pick q visit rarity r) h =
    let (kept, c, f) = done_kept q t t visit rarity (done_later p q t r h) in kept
done_later p _ t (after_complete q u r) h =
    let (k, kept, f) = done_kept q t u (λ s. s) [] (done_later p q t r h) in kept
done_later p _ t (after_fail q u r) h =
    let (k, c, kept) = done_kept q t u (λ s. s) [] (done_later p q t r h) in kept

complete-done :
    (t : Task) (p : Picker)
    → ((complete t p).1 ≡ not (has t p.done)) × (has t (complete t p).0.done ≡ true)
unfolding complete
complete-done t p = elim (Bool-cases (has t p.done)) [
  | inl was ↦ rw was (refl, was)
  | inr fresh ↦ rw fresh (refl, rw (has-with_task, same_self))
]

-- `complete` answers yes to the first completion of a task, and after that, whatever calls of pick,
-- complete and fail come between, those that report a chunk as lost among them, no to every further one.
pub completes_once :
    (p q : Picker) (t : Task)
    → Calls (complete t p).0 q
    → ((complete t p).1 ≡ not (has t p.done)) × ((complete t q).1 ≡ false)
completes_once p q t r =
    let (first, recorded) = complete-done t p in
    let later : has t q.done ≡ true = done_later (complete t p).0 q t r recorded in
    (first, (complete-done t q).0 ∙ ap not later)
