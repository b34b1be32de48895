-- ===== src/Sender/Completion.antt =====
-- Run ends its wait exactly when every entry has an outcome.
use botjim.Prelude.{
  ℕ, ◌+◌, ◌≤◌, ◌≡◌, arith, Bool, true, false, List, [], ◌∷◌, length, Option, none, some, refl,
}
use botjim.Manifest.{Entry}
use botjim.Sender.{Sender, new_sender, has_id, find}
use botjim.Sender.Handlers.{Source, take_if, take_parked, take_credit, drop_credits}
use botjim.Sender.Scheduler.{Pass, schedule, Wire, work}
use botjim.Sender.Steps.{
  Incoming, have_bitmap, outcome, retry, request, cancel, done, other, read_message, Step, walk,
  credit, stop, message, scheduled, worked, walk_on, step, run, is_done,
}
use botjim.Sender.Ids.{distinct, length-within, covers}
use botjim.Sender.CreditEnds.{found_self}
use botjim.Sender.Resolution.{Kept}
use botjim.Sender.ResolutionSteps.{emit-Kept, gate_open-Kept}
use botjim.Sender.ResolutionEnds.{file_result-Kept, retry_chunk-Kept, chunk_request-Kept}
use botjim.Sender.Ceiling.{start}
use botjim.Sender.ResolutionWork.{task_done-Kept, pass-Kept, refill-Kept, work_found-Kept}

-- A walker with new ids.
abbrev pub IsNewEntry : Step → Sender → Type 0
IsNewEntry (walk e) s = has_id e.id s.emitted_ids ≡ false
IsNewEntry _ s = Unit

abbrev pub IsNewEach : Source → Wire → List Step → Pass → Type 0
IsNewEach src w [] p = Unit
IsNewEach src w (t ∷ ts) p = IsNewEntry t p.sender × IsNewEach src w ts (step src w t p)

walk_on-Kept :
    (parked : Option ℕ) (e : Entry) (s : Sender)
    → has_id e.id s.emitted_ids ≡ false
    → Kept s
    → Kept (walk_on parked e s)
unfolding walk_on
walk_on-Kept none e s new k = emit-Kept e s new k
walk_on-Kept (some i) e s new k = k

take_if-Kept : (free : Bool) (s : Sender) → Kept s → Kept (take_if free s)
unfolding take_if
take_if-Kept true s k = k
take_if-Kept false s k = k

take_parked-Kept : (parked : Option ℕ) (s : Sender) → Kept s → Kept (take_parked parked s)
unfolding take_parked
take_parked-Kept none s k = k
take_parked-Kept (some i) s k = take_if-Kept _ s k

read_message-Kept :
    (src : Source) (m : Incoming) (s : Sender)
    → src.dry_run ≡ false
    → Kept s
    → Kept (read_message src m s)
unfolding read_message
read_message-Kept src (have_bitmap m) s real k = gate_open-Kept src m s real k
read_message-Kept src (outcome m) s real k = file_result-Kept m s k
read_message-Kept src (retry m) s real k = retry_chunk-Kept src m s k
read_message-Kept src (request m) s real k = chunk_request-Kept m s k
read_message-Kept src cancel s real k = k
read_message-Kept src done s real k = k
read_message-Kept src other s real k = k

step-Kept :
    (src : Source) (w : Wire) (t : Step) (p : Pass)
    → src.dry_run ≡ false
    → IsNewEntry t p.sender
    → Kept p.sender
    → Kept (step src w t p).sender
unfolding step take_credit drop_credits schedule work
step-Kept src w (walk e) p real new k = walk_on-Kept p.sender.parked e p.sender new k
step-Kept src w credit p real new k = take_parked-Kept _ p.sender k
step-Kept src w stop p real new k = k
step-Kept src w (message m) p real new k = read_message-Kept src m p.sender real k
step-Kept src w (scheduled room) p real new k =
    pass-Kept room _ _ (refill-Kept p.backlog p.sender k)
step-Kept src w (worked fate msg changed_msg changed t) p real new k =
    task_done-Kept changed changed_msg t _ (
      work_found-Kept src w fate msg t.idx (find t.file_id p.sender.files) p.sender
        (found_self t.file_id p.sender.files) k)

run-Kept :
    (src : Source) (w : Wire) (ts : List Step) (p : Pass)
    → src.dry_run ≡ false
    → IsNewEach src w ts p
    → Kept p.sender
    → Kept (run src w ts p).sender
unfolding run
run-Kept src w [] p real new k = k
run-Kept src w (t ∷ ts) p real (n, ns) k =
    run-Kept src w ts (step src w t p) real ns (step-Kept src w t p real n k)

start-Kept : Kept new_sender
unfolding new_sender has_id find distinct
start-Kept = (
  record {
    emits = refl;
    once = refl;
    resolves = refl;
    each = refl;
    within = λ i h. absurd cc;
    reported = omega arith;
  },
  λ i f h. absurd cc,
)

-- In a real run, after any steps in any order from the start in which the walker gives each entry a new id: when the
-- test that ends Run's wait succeeds, each entry that was emitted has its outcome.
pub done-resolved :
    (src : Source) (w : Wire) (ts : List Step) (i : ℕ)
    → src.dry_run ≡ false
    → IsNewEach src w ts start
    → is_done (run src w ts start).sender ≡ true
    → has_id i (run src w ts start).sender.emitted_ids ≡ true
    → has_id i (run src w ts start).sender.resolved_ids ≡ true
unfolding is_done
done-resolved src w ts i real new over there =
    let s = (run src w ts start).sender in
    let b = (run-Kept src w ts start real new start-Kept).0 in
    covers s.resolved_ids s.emitted_ids b.each b.within (ground (arith, b.emits, b.resolves)) i
      there

-- In a real run, after any steps in any order from the start in which the walker gives each entry a new id: when each
-- entry that was emitted has its outcome, the test that ends Run's wait succeeds.
pub resolved-done :
    (src : Source) (w : Wire) (ts : List Step)
    → src.dry_run ≡ false
    → IsNewEach src w ts start
    → ((i : ℕ)
        → has_id i (run src w ts start).sender.emitted_ids ≡ true
        → has_id i (run src w ts start).sender.resolved_ids ≡ true)
    → is_done (run src w ts start).sender ≡ true
unfolding is_done
resolved-done src w ts real new all =
    let s = (run src w ts start).sender in
    let b = (run-Kept src w ts start real new start-Kept).0 in
    let few = length-within s.emitted_ids s.resolved_ids b.once all in
    ground (arith, b.emits, b.resolves)

-- In a real run, after any steps in any order from the start in which the walker gives each entry a new id: the
-- successes and the failures of the report together are no more than the entries that have their
-- outcome, and these no more than the entries emitted: no entry is counted twice.
pub report-bounded :
    (src : Source) (w : Wire) (ts : List Step)
    → src.dry_run ≡ false
    → IsNewEach src w ts start
    → ((run src w ts start).sender.files_done + length (run src w ts start).sender.errors
        ≤ (run src w ts start).sender.resolved)
      × ((run src w ts start).sender.resolved ≤ (run src w ts start).sender.emitted)
report-bounded src w ts real new =
    let s = (run src w ts start).sender in
    let b = (run-Kept src w ts start real new start-Kept).0 in
    let few = length-within s.resolved_ids s.emitted_ids b.each b.within in
    (b.reported, omega (arith, b.emits, b.resolves))
