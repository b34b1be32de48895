-- ===== src/Sender/Scheduled.antt =====
-- In every run the scheduler has queued of each file what its bitmap lacks, up to its mark.
use mathlib.Core.Path.{subst}
use botjim.Prelude.{
  ℕ, ◌≤◌, ◌≡◌, arith, Bool, true, false, List, [], ◌∷◌, inr, Option, none, some, refl,
}
use botjim.Manifest.{Entry, Kind, regular, dir, hardlink}
use botjim.Sender.{TxFile, Sender, new_sender, find}
use botjim.Sender.Handlers.{
  Source, new_file, emit_kind, emit, take_if, take_parked, take_credit, drop_credits, gate_open,
}
use botjim.Sender.Scheduler.{has_bit, Pass, Wire}
use botjim.Sender.Steps.{
  Incoming, have_bitmap, outcome, retry, request, cancel, done, other, read_message, Step, walk,
  credit, stop, message, scheduled, worked, walk_on, step, run,
}
use botjim.Sender.CreditEnds.{found_self}
use botjim.Sender.Feeding.{missing}
use botjim.Sender.Quiet.{plan, plan_of, file_result-Quiet}
use botjim.Sender.QuietEnds.{retry_chunk-Quiet, chunk_request-Quiet, work-Quiet}
use botjim.Sender.Queue.{
  tasks_of, IsPlanned, IsQueued, Quiet-IsQueued, store-IsQueued, schedule-IsQueued,
}
use botjim.Sender.Ceiling.{start}
use botjim.Sender.Bitmaps.{gate_found-IsQueued}

emit_kind-IsQueued :
    (k : Kind) (e : Entry) (s : Sender)
    → find e.id s.files ≡ none
    → IsQueued s
    → IsQueued (emit_kind k e s)
unfolding emit_kind plan_of missing
emit_kind-IsQueued regular e s new k =
    let empty : tasks_of e.id s.task_q ≡ [] =
      subst (λ o. IsPlanned e.id (tasks_of e.id s.task_q) (plan_of o)) new (k e.id) in
    store-IsQueued (new_file e) s.files s.task_q s.task_q (λ i ne. refl)
      (empty, inr refl, omega arith) k
emit_kind-IsQueued dir e s new k = k
emit_kind-IsQueued hardlink e s new k = k
emit_kind-IsQueued _ e s new k = k

walk_on-IsQueued :
    (parked : Option ℕ) (e : Entry) (s : Sender)
    → find e.id s.files ≡ none
    → IsQueued s
    → IsQueued (walk_on parked e s)
unfolding walk_on emit
walk_on-IsQueued none e s new k = emit_kind-IsQueued e.kind e _ new k
walk_on-IsQueued (some i) e s new k = k

take_if-IsQueued : (free : Bool) (s : Sender) → IsQueued s → IsQueued (take_if free s)
unfolding take_if
take_if-IsQueued true s k = k
take_if-IsQueued false s k = k

take_parked-IsQueued :
    (parked : Option ℕ) (s : Sender) → IsQueued s → IsQueued (take_parked parked s)
unfolding take_parked
take_parked-IsQueued none s k = k
take_parked-IsQueued (some i) s k = take_if-IsQueued _ s k

read_message-IsQueued :
    (src : Source) (m : Incoming) (s : Sender) → IsQueued s → IsQueued (read_message src m s)
unfolding read_message gate_open
read_message-IsQueued src (have_bitmap m) s k =
    gate_found-IsQueued src m (find m.file_id s.files) s (found_self m.file_id s.files) k
read_message-IsQueued src (outcome m) s k = Quiet-IsQueued s _ (file_result-Quiet m s) k
read_message-IsQueued src (retry m) s k = Quiet-IsQueued s _ (retry_chunk-Quiet src m s) k
read_message-IsQueued src (request m) s k = Quiet-IsQueued s _ (chunk_request-Quiet m s) k
read_message-IsQueued src cancel s k = k
read_message-IsQueued src done s k = k
read_message-IsQueued src other s k = k

-- The walker gives a file an id that the table does not have.
abbrev pub IsNewFile : Step → Sender → Type 0
IsNewFile (walk e) s = find e.id s.files ≡ none
IsNewFile _ s = Unit

abbrev pub AreNewFiles : Source → Wire → List Step → Pass → Type 0
AreNewFiles src w [] p = Unit
AreNewFiles src w (t ∷ ts) p = IsNewFile t p.sender × AreNewFiles src w ts (step src w t p)

step-IsQueued :
    (src : Source) (w : Wire) (t : Step) (p : Pass)
    → IsNewFile t p.sender
    → IsQueued p.sender
    → IsQueued (step src w t p).sender
unfolding step take_credit drop_credits
step-IsQueued src w (walk e) p new k = walk_on-IsQueued p.sender.parked e p.sender new k
step-IsQueued src w credit p new k = take_parked-IsQueued _ p.sender k
step-IsQueued src w stop p new k = k
step-IsQueued src w (message m) p new k = read_message-IsQueued src m p.sender k
step-IsQueued src w (scheduled room) p new k = schedule-IsQueued room p.backlog p.sender k
step-IsQueued src w (worked fate msg changed_msg changed t) p new k =
    Quiet-IsQueued p.sender _ (work-Quiet src w fate msg changed_msg changed t p.sender) k

run-IsQueued :
    (src : Source) (w : Wire) (ts : List Step) (p : Pass)
    → AreNewFiles src w ts p
    → IsQueued p.sender
    → IsQueued (run src w ts p).sender
unfolding run
run-IsQueued src w [] p new k = k
run-IsQueued src w (t ∷ ts) p (n, ns) k =
    run-IsQueued src w ts (step src w t p) ns (step-IsQueued src w t p n k)

start-IsQueued : IsQueued new_sender
unfolding new_sender find plan_of tasks_of
start-IsQueued i = refl

-- After any steps in any order from the start in which the walker gives each file an id that the table does not have:
-- the tasks that the scheduler has queued for a file of the table are those of the chunks below the file's mark that
-- its bitmap lacks, in order and each once, and the mark is within the file.
pub queued_exactly :
    (src : Source) (w : Wire) (ts : List Step) (i : ℕ) (f : TxFile)
    → AreNewFiles src w ts start
    → find i (run src w ts start).sender.files ≡ some f
    → (tasks_of i (run src w ts start).sender.task_q ≡ missing i (has_bit f.have) 0 f.next_task)
      × (f.next_task ≤ f.count)
unfolding plan_of
queued_exactly src w ts i f new there =
    let s = (run src w ts start).sender in
    let k = run-IsQueued src w ts start new start-IsQueued in
    let p : IsPlanned i (tasks_of i s.task_q) (some (plan f)) =
      subst (λ o. IsPlanned i (tasks_of i s.task_q) (plan_of o)) there (k i) in
    (p.0, p.2)
