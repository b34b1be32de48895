-- ===== src/Sender/Queue.antt =====
-- What the scheduler has queued: of each file the chunks below its mark that the bitmap lacks, in order.
use mathlib.Core.Path.{subst}
use botjim.Prelude.{
  ℕ, zero, suc, ◌+◌, ◌-◌, ◌≤◌, ◌≡◌, ◌⊎◌, arith, Bool, true, false, List, [], ◌∷◌, ◌++◌, append-nil,
  ◌==◌, if◌then◌else◌, Bool-cases, inl, inr, Option, none, some, sym, ap, ◌∙◌, refl,
}
use botjim.Sender.{ChunkTask, TxFile, Sender, find, store, is_nil}
use botjim.Sender.Scheduler.{feed_file, has_bit, fed, is_over, feed_found, pass, refill, schedule}
use botjim.Sender.Lookup.{find-store}
use botjim.Sender.CreditEnds.{found_self}
use botjim.Sender.CreditRetries.{Stored}
use botjim.Sender.Feeding.{missing, missing-append, feed_file-exact}
use botjim.Sender.Quiet.{Plan, plan, plan_of, Quiet}

-- The tasks of one file, in their order.
unfoldable pub tasks_of : ℕ → List ChunkTask → List ChunkTask
tasks_of i [] = []
tasks_of i (t ∷ ts) = let rest = tasks_of i ts in if t.file_id == i then t ∷ rest else rest

tasks_of-append :
    (i : ℕ) (ts us : List ChunkTask) → tasks_of i (ts ++ us) ≡ tasks_of i ts ++ tasks_of i us
unfolding tasks_of
tasks_of-append i [] us = refl
tasks_of-append i (t ∷ ts) us = elim (Bool-cases (t.file_id == i)) [
  | inl e ↦ rw e (ap (λ vs. t ∷ vs) (tasks_of-append i ts us))
  | inr d ↦ rw d (tasks_of-append i ts us)
]

tasks_of-missing :
    (i : ℕ) (skip : ℕ → Bool) (a n : ℕ) → tasks_of i (missing i skip a n) ≡ missing i skip a n
unfolding tasks_of missing
tasks_of-missing i skip a zero = refl
tasks_of-missing i skip a (suc n) =
    let ih = tasks_of-missing i skip (a + 1) n in
    let self : (i == i) ≡ true = ground arith in
    elim (Bool-cases (skip a)) [
      | inl e ↦ rw e ih
      | inr d ↦ rw d (rw self (ap (λ ts. record { file_id = i; idx = a } ∷ ts) ih))
    ]

tasks_of-others :
    (i j : ℕ) (skip : ℕ → Bool) (a n : ℕ) → (j == i) ≡ false → tasks_of i (missing j skip a n) ≡ []
unfolding tasks_of missing
tasks_of-others i j skip a zero ne = refl
tasks_of-others i j skip a (suc n) ne =
    let ih = tasks_of-others i j skip (a + 1) n ne in
    elim (Bool-cases (skip a)) [ inl e ↦ rw e ih | inr d ↦ rw d (rw ne ih) ]

-- The tasks of file `i` against what the scheduler reads of it; a file with no bitmap has not been begun.
abbrev pub IsPlanned : ℕ → List ChunkTask → Option Plan → Type 0
IsPlanned i ts none = ts ≡ []
IsPlanned i ts (some p) =
    (ts ≡ missing i (has_bit p.have) 0 p.next_task)
    × ((is_nil p.have ≡ false) ⊎ (p.next_task ≡ 0))
    × (p.next_task ≤ p.count)

abbrev pub IsQueuedIn : List TxFile → List ChunkTask → Type 0
IsQueuedIn fs q = (i : ℕ) → IsPlanned i (tasks_of i q) (plan_of (find i fs))

abbrev pub IsQueued : Sender → Type 0
IsQueued s = IsQueuedIn s.files s.task_q

pub Quiet-IsQueued : (s t : Sender) → Quiet s t → IsQueued s → IsQueued t
Quiet-IsQueued s t q k i =
    subst (λ ts. IsPlanned i (tasks_of i ts) (plan_of (find i t.files))) (sym q.queue)
      (subst (λ v. IsPlanned i (tasks_of i s.task_q) v) (sym (q.plans i)) (k i))

-- A file stored; the tasks of the others stay.
pub store-IsQueued :
    (g : TxFile) (fs : List TxFile) (q r : List ChunkTask)
    → ((i : ℕ) → (g.entry.id == i) ≡ false → tasks_of i r ≡ tasks_of i q)
    → IsPlanned g.entry.id (tasks_of g.entry.id r) (some (plan g))
    → IsQueuedIn fs q
    → IsQueuedIn (store g fs) r
unfolding plan_of
store-IsQueued g fs q r others here k i =
    subst (λ o. IsPlanned i (tasks_of i r) (plan_of o)) (sym (find-store i g fs))
      (elim (Bool-cases (g.entry.id == i)) [
        | inl e ↦
            let n : g.entry.id ≡ i = ground arith in
            let flip : (i == g.entry.id) ≡ true = ground arith in
            subst (λ b. IsPlanned i (tasks_of i r) (plan_of (if b then some g else find i fs)))
              (sym flip) (subst (λ j. IsPlanned j (tasks_of j r) (some (plan g))) n here)
        | inr d ↦
            let flip : (i == g.entry.id) ≡ false = ground arith in
            subst (λ b. IsPlanned i (tasks_of i r) (plan_of (if b then some g else find i fs)))
              (sym flip)
              (subst (λ ts. IsPlanned i ts (plan_of (find i fs))) (sym (others i d)) (k i))
      ])

-- What is known of a file that a lookup gives.
pub IsPlanned-of :
    (f : TxFile) (s : Sender)
    → Stored s f
    → IsQueued s
    → IsPlanned f.entry.id (tasks_of f.entry.id s.task_q) (some (plan f))
unfolding plan_of
IsPlanned-of f s there k =
    subst (λ o. IsPlanned f.entry.id (tasks_of f.entry.id s.task_q) (plan_of o)) there
      (k f.entry.id)

live_have : (f : TxFile) → is_over f ≡ false → is_nil f.have ≡ false
unfolding is_over
live_have f n = ground arith

-- A round of the scheduler on a file takes its tasks on to the new mark.
fed-IsQueued :
    (room : ℕ) (f : TxFile) (s : Sender)
    → is_over f ≡ false
    → Stored s f
    → IsQueued s
    → IsQueued (fed f (feed_file room f) s)
unfolding fed
fed-IsQueued room f s live there k =
    let v = feed_file room f in
    let old = IsPlanned-of f s there k in
    let x = feed_file-exact room f old.2 in
    let i = f.entry.id in
    let skip = has_bit f.have in
    let whole : 0 + f.next_task ≡ f.next_task = omega arith in
    let parts : f.next_task + (v.next_task - f.next_task) ≡ v.next_task = omega (arith, x.1) in
    let tasks : tasks_of i (s.task_q ++ v.tasks) ≡ missing i skip 0 v.next_task =
      tasks_of-append i s.task_q v.tasks
      ∙ ap (λ ts. ts ++ tasks_of i v.tasks) old.0
      ∙ ap (λ ts. missing i skip 0 f.next_task ++ tasks_of i ts) x.0
      ∙ ap (λ ts. missing i skip 0 f.next_task ++ ts)
          (tasks_of-missing i skip f.next_task (v.next_task - f.next_task))
      ∙ ap (λ a. missing i skip 0 f.next_task ++ missing i skip a (v.next_task - f.next_task))
          (sym whole)
      ∙ sym (missing-append i skip 0 f.next_task (v.next_task - f.next_task))
      ∙ ap (λ n. missing i skip 0 n) parts in
    store-IsQueued (record f { next_task = v.next_task; inflight = v.inflight }) s.files s.task_q
      (s.task_q ++ v.tasks)
      (λ j ne.
        tasks_of-append j s.task_q v.tasks
        ∙ ap (λ ts. tasks_of j s.task_q ++ tasks_of j ts) x.0
        ∙ ap (λ ts. tasks_of j s.task_q ++ ts)
            (tasks_of-others j i skip f.next_task (v.next_task - f.next_task) ne)
        ∙ append-nil (tasks_of j s.task_q))
      (tasks, inl (live_have f live), x.2) k

feed_found-IsQueued :
    (room : ℕ) (found : Option TxFile) (s : Sender)
    → ((f : TxFile) → found ≡ some f → Stored s f)
    → IsQueued s
    → IsQueued ((feed_found room found s).1)
unfolding feed_found
feed_found-IsQueued room none s there k = k
feed_found-IsQueued room (some f) s there k = elim (Bool-cases (is_over f)) [
  | inl e ↦ rw e k
  | inr n ↦ rw n (fed-IsQueued room f s n (there f refl) k)
]

pass-IsQueued :
    (room : ℕ) (is : List ℕ) (s : Sender) → IsQueued s → IsQueued (pass room is s).sender
unfolding pass
pass-IsQueued room [] s k = k
pass-IsQueued room (i ∷ is) s k =
    let here = feed_found room (find i s.files) s in
    let k' : IsQueued here.1 =
      feed_found-IsQueued room (find i s.files) s (found_self i s.files) k in
    elim (Bool-cases here.0.full) [
      | inl e ↦ rw e k'
      | inr n ↦ rw n (pass-IsQueued here.0.room is here.1 k')
    ]

refill-IsQueued : (is : List ℕ) (s : Sender) → IsQueued s → IsQueued (refill is s).sender
unfolding refill
refill-IsQueued [] s k = k
refill-IsQueued (i ∷ is) s k = k

pub schedule-IsQueued :
    (room : ℕ) (is : List ℕ) (s : Sender) → IsQueued s → IsQueued (schedule room is s).sender
unfolding schedule
schedule-IsQueued room is s k = pass-IsQueued room _ _ (refill-IsQueued is s k)
