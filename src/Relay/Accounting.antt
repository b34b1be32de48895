-- ===== src/Relay/Accounting.antt =====
-- No chunk is lost: each task of the picker is pending, in flight or done.
use botjim.Prelude.{
  ℕ, ◌+◌, ◌-◌, ◌≡◌, refl, arith, Bool, true, false, not, ◌&&◌, ◌||◌, List, [], ◌∷◌, length, ltb,
  leb, if◌then◌else◌, Bool-cases, inl, inr,
}
use botjim.Relay.TaskSet.{
  Task, same, has, without, with_task, Counted, at, erase, put, same→eq, same_sym, has-without,
  has-with_task, at-erase, at-put, distinct,
}
use botjim.Relay.Picker.{Picker, task_set, new_picker, started, released, complete, fail}

pub record IsValid (tasks : List Task) (p : Picker) : Type 0 where
  pub counted : p.total ≡ length tasks
  pub once : distinct tasks ≡ true
  pub done_once : distinct p.done ≡ true
  pub known : (t : Task) → has t p.done ≡ true → has t tasks ≡ true
  pub apart : (t : Task) → has t p.done ≡ true → has t p.pending ≡ false
  pub held :
      (t : Task)
      → has t tasks ≡ true
      → (has t p.done || has t p.pending || ltb 0 (at t p.inflight)) ≡ true
  pub bounded : (t : Task) → ltb (at t p.fails) p.max_fails ≡ true

has-task_set : (t : Task) (ts : List Task) → has t (task_set ts) ≡ has t ts
unfolding has task_set
has-task_set t [] = refl
has-task_set t (u ∷ ts) = rw (has-with_task, has-task_set t ts, same_sym u t)

pub new_picker-IsValid :
    (tasks : List Task) → distinct tasks ≡ true → IsValid tasks (new_picker tasks)
unfolding new_picker
new_picker-IsValid tasks d = record {
  counted = refl;
  once = d;
  done_once = unfold distinct in refl;
  known = λ t h. unfold has in absurd (unfold has in cc h);
  apart = λ t h. absurd (unfold has in cc h);
  held = λ t h. rw has-task_set (ground (arith, h));
  bounded = λ t. unfold at in refl;
}

pub at-started :
    (t u : Task) (m : List Counted) → at t (started u m) ≡ (if same u t then at t m + 1 else at t m)
unfolding started
at-started t u m = elim (Bool-cases (same u t)) [
  | inl e ↦ let e' = same→eq u t e in rw at-put (rw (e, e'))
  | inr n ↦ rw at-put (rw (n))
]

pub at-released : (t u : Task) (m : List Counted) → same u t ≡ false → at t (released u m) ≡ at t m
unfolding released
at-released t u m n = ground (arith, at-erase t u m, at-put t u (at u m - 1) m)

distinct-with_task :
    (t : Task) (s : List Task) → distinct s ≡ true → distinct (with_task t s) ≡ true
unfolding with_task distinct
distinct-with_task t s d = ground arith

-- Where a task is held after it was handed to a worker.
held-handed :
    (done pending : Bool) (n m : ℕ) (it : Bool)
    → (done || pending || ltb 0 n) ≡ true
    → m ≡ (if it then n + 1 else n)
    → (done || (not it && pending) || ltb 0 m) ≡ true
held-handed done pending n m it h e = ground arith

module _ (tasks : List Task) (p : Picker) (v : IsValid tasks p) where
  released-IsValid :
      (t : Task)
      → has t p.done ≡ true
      → IsValid tasks (record p { inflight = released t p.inflight })
  released-IsValid t was = record {
    counted = v.counted;
    once = v.once;
    done_once = v.done_once;
    known = v.known;
    apart = v.apart;
    held = λ u k. elim (Bool-cases (same t u)) [
      | inl e ↦ let there : has u p.done ≡ true = rw (← same→eq t u e) was in ground (arith, there)
      | inr n ↦ rw (at-released u t p.inflight n) (v.held u k)
    ];
    bounded = v.bounded;
  }

  completed-IsValid :
      (t : Task)
      → has t tasks ≡ true
      → IsValid tasks (record p {
        inflight = released t p.inflight;
        done = with_task t p.done;
        pending = without t p.pending;
        fails = erase t p.fails;
      })
  completed-IsValid t h = record {
    counted = v.counted;
    once = v.once;
    done_once = distinct-with_task t p.done v.done_once;
    known = λ u k. elim (Bool-cases (same t u)) [
      | inl e ↦ rw (← same→eq t u e) h
      | inr n ↦ v.known u (rw (has-with_task, n) at k)
    ];
    apart = λ u k. rw has-without (elim (Bool-cases (same t u)) [
      | inl e ↦ rw e
      | inr n ↦ rw (n, v.apart u (rw (has-with_task, n) at k))
    ]);
    held = λ u k.
        rw (has-with_task, has-without)
          (elim (Bool-cases (same t u)) [
            | inl e ↦ rw e
            | inr n ↦ rw (n, at-released u t p.inflight n) (v.held u k)
          ]);
    bounded = λ u. rw at-erase (ground (arith, v.bounded u));
  }

  retried-IsValid :
      (t : Task)
      → has t p.done ≡ false
      → leb p.max_fails (at t p.fails + 1) ≡ false
      → IsValid tasks (record p {
        inflight = released t p.inflight;
        fails = put t (at t p.fails + 1) p.fails;
        pending = with_task t p.pending;
      })
  retried-IsValid t fresh more = record {
    counted = v.counted;
    once = v.once;
    done_once = v.done_once;
    known = v.known;
    apart = λ u k. rw has-with_task (elim (Bool-cases (same t u)) [
      | inl e ↦
          let out : has u p.done ≡ false = rw (← same→eq t u e) fresh in ground (arith, out, e, k)
      | inr n ↦ rw n (v.apart u k)
    ]);
    held = λ u k. rw has-with_task (elim (Bool-cases (same t u)) [
      | inl e ↦ ground (arith, e)
      | inr n ↦ rw (n, at-released u t p.inflight n) (v.held u k)
    ]);
    bounded = λ u. rw at-put (elim (Bool-cases (same t u)) [
      | inl e ↦ ground (arith, e, more)
      | inr n ↦ rw n (v.bounded u)
    ]);
  }

  pub complete-IsValid : (t : Task) → has t tasks ≡ true → IsValid tasks (complete t p).0
  unfolding complete
  complete-IsValid t h = elim (Bool-cases (has t p.done)) [
    | inl was ↦ rw was (released-IsValid t was)
    | inr fresh ↦ rw fresh (completed-IsValid t h)
  ]

  pub fail-IsValid : (t : Task) → (fail t p).1 ≡ false → IsValid tasks (fail t p).0
  unfolding fail
  fail-IsValid t ok = elim (Bool-cases (has t p.done)) [
    | inl was ↦ rw was (released-IsValid t was)
    | inr fresh ↦
        let more : leb p.max_fails (at t p.fails + 1) ≡ false = ground (arith, fresh, ok) in
        rw (fresh, more) (retried-IsValid t fresh more)
  ]
