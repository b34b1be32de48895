-- ===== src/Sender/Ceiling.antt =====
-- The walker waits for a credit only while the limit's number of files is awaited.
use botjim.Prelude.{ℕ, ◌+◌, ◌≤◌, ◌≡◌, ◌≢◌, arith, true, List, [], ◌∷◌, Option, none, some, refl}
use botjim.Prelude.Int.{pos, pos_part, ltb_ℤ}
use botjim.Manifest.{Entry}
use botjim.Sender.{Sender, new_sender, find, credit_limit}
use botjim.Sender.Handlers.{Source, take_if, take_parked, take_credit, drop_credits}
use botjim.Sender.Scheduler.{Pass, Wire}
use botjim.Sender.Steps.{
  Incoming, have_bitmap, outcome, retry, request, cancel, done, other, read_message, Step, walk,
  credit, stop, message, scheduled, worked, walk_on, step, run,
}
use botjim.Sender.Lookup.{count_pending}
use botjim.Sender.Credits.{parked_tick}
use botjim.Sender.CreditSteps.{Credited, emit-Credited, take_credit-Credited, gate_open-Credited}
use botjim.Sender.CreditEnds.{file_result-Credited}
use botjim.Sender.CreditRetries.{retry_chunk-Credited, chunk_request-Credited}
use botjim.Sender.CreditRun.{schedule-Credited, work-Credited}

abbrev pub start : Pass
start = record { backlog = []; sender = new_sender }

abbrev pub IsOrderlyMessage : Incoming → Sender → Type 0
IsOrderlyMessage (have_bitmap m) s = s.parked ≢ some m.file_id
IsOrderlyMessage (outcome m) s = s.parked ≢ some m.file_id
IsOrderlyMessage (retry m) s = s.parked ≢ some m.file_id
IsOrderlyMessage _ s = Unit

-- The walker gives an entry a new id, and nobody speaks of a file that has not been announced yet.
abbrev pub IsOrderlyStep : Step → Sender → Type 0
IsOrderlyStep (walk e) s = find e.id s.files ≡ none
IsOrderlyStep (message m) s = IsOrderlyMessage m s
IsOrderlyStep (worked fate msg changed_msg changed t) s = s.parked ≢ some t.file_id
IsOrderlyStep _ s = Unit

abbrev pub IsOrderly : Source → Wire → List Step → Pass → Type 0
IsOrderly src w [] p = Unit
IsOrderly src w (t ∷ ts) p = IsOrderlyStep t p.sender × IsOrderly src w ts (step src w t p)

walk_on-Credited :
    (parked : Option ℕ) (e : Entry) (s : Sender)
    → s.parked ≡ parked
    → find e.id s.files ≡ none
    → Credited s
    → Credited (walk_on parked e s)
unfolding walk_on
walk_on-Credited none e s p new c = emit-Credited e s p new c
walk_on-Credited (some i) e s p new c = c

drop_credits-Credited : (s : Sender) → Credited (drop_credits s)
unfolding drop_credits
drop_credits-Credited s = record { room = omega arith; kept = λ i p. absurd cc }

read_message-Credited :
    (src : Source) (m : Incoming) (s : Sender)
    → IsOrderlyMessage m s
    → Credited s
    → Credited (read_message src m s)
unfolding read_message
read_message-Credited src (have_bitmap m) s o c = gate_open-Credited src m s o c
read_message-Credited src (outcome m) s o c = file_result-Credited m s o c
read_message-Credited src (retry m) s o c = retry_chunk-Credited src m s o c
read_message-Credited src (request m) s o c = chunk_request-Credited m s c
read_message-Credited src cancel s o c = c
read_message-Credited src done s o c = c
read_message-Credited src other s o c = c

step-Credited :
    (src : Source) (w : Wire) (t : Step) (p : Pass)
    → IsOrderlyStep t p.sender
    → Credited p.sender
    → Credited (step src w t p).sender
unfolding step
step-Credited src w (walk e) p o c = walk_on-Credited p.sender.parked e p.sender refl o c
step-Credited src w credit p o c = take_credit-Credited p.sender c
step-Credited src w stop p o c = drop_credits-Credited p.sender
step-Credited src w (message m) p o c = read_message-Credited src m p.sender o c
step-Credited src w (scheduled room) p o c = schedule-Credited room p.backlog p.sender c
step-Credited src w (worked fate msg changed_msg changed t) p o c =
    work-Credited src w fate msg changed_msg changed t p.sender o c

run-Credited :
    (src : Source) (w : Wire) (ts : List Step) (p : Pass)
    → IsOrderly src w ts p
    → Credited p.sender
    → Credited (run src w ts p).sender
unfolding run
run-Credited src w [] p o c = c
run-Credited src w (t ∷ ts) p (o, os) c =
    run-Credited src w ts (step src w t p) os (step-Credited src w t p o c)

start-Credited : Credited new_sender
unfolding new_sender count_pending
start-Credited = record { room = omega arith; kept = λ i p. absurd cc }

-- After any steps in any order from the start, where each entry that the walker emits has an id that no file of the
-- table has and no message or task is about the file whose credit is pending: there are no more credits out than
-- files whose bitmap is awaited and that have no outcome.
pub run-credits :
    (src : Source) (w : Wire) (ts : List Step)
    → IsOrderly src w ts start
    → pos_part (run src w ts start).sender.gates_open
      ≤ count_pending (run src w ts start).sender.files
run-credits src w ts o =
    let c = run-Credited src w ts start o start-Credited in omega (arith, c.room)

free-none :
    (parked : Option ℕ) (s : Sender)
    → s.parked ≡ parked
    → pos_part s.gates_open + parked_tick parked ≤ credit_limit
    → (take_parked parked s).parked ≡ none
unfolding take_parked take_if
free-none none s p room = p
free-none (some i) s p room =
    let free : ltb_ℤ s.gates_open (pos credit_limit) ≡ true = ground arith in rw free refl

-- After any steps in any order from the start, where each entry that the walker emits has an id that no file of the
-- table has and no message or task is about the file whose credit is pending: as long as at most 2048 files are
-- awaited (one whose credit is pending among them), the test of the walker's loop lets it go on: it is never stuck on credits that nobody will give back.
pub wait_ends :
    (src : Source) (w : Wire) (ts : List Step)
    → IsOrderly src w ts start
    → count_pending (run src w ts start).sender.files ≤ credit_limit
    → (take_credit (run src w ts start).sender).parked ≡ none
unfolding take_credit
wait_ends src w ts o few =
    let s = (run src w ts start).sender in
    let c = run-Credited src w ts start o start-Credited in
    free-none s.parked s refl (omega (arith, c.room))
