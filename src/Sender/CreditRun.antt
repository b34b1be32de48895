-- ===== src/Sender/CreditRun.antt =====
-- The scheduler and the workers keep the credits in bounds, and so does every step of a run.
use botjim.Prelude.{
  ℕ, ◌≡◌, ◌≢◌, Bool, true, false, List, [], ◌∷◌, Bytes, Bool-cases, inl, inr, Option, none, some,
  sym, ap, ◌∙◌, refl,
}
use botjim.Manifest.{Entry}
use botjim.Sender.{ChunkTask, TxFile, Sender, find, store}
use botjim.Sender.Handlers.{Source}
use botjim.Sender.Outcomes.{
  fail_file, fail_if, fail_open, fail_now, mark_resolved, code_source_changed,
}
use botjim.Sender.Scheduler.{
  Fate, sent_out, write_failed, context_over, feed_file, fed, is_over, feed_found, pass, refill,
  schedule, Wire, open_fd, frame_of, framed, open_and_send, work_if, work_found, work,
}
use botjim.Sender.Files.{pending-same, open_fd-SameBooks}
use botjim.Sender.CreditSteps.{Credited, not_parked}
use botjim.Sender.CreditEnds.{find-store_self, found_self, same-Credited, fail_file-Credited}
use botjim.Sender.CreditRetries.{Elsewhere, Stored, refed, task_done-Credited}

feed_found-Credited :
    (room : ℕ) (found : Option TxFile) (s : Sender)
    → ((f : TxFile) → found ≡ some f → Stored s f)
    → Credited s
    → Credited ((feed_found room found s).1)
unfolding feed_found fed
feed_found-Credited room none s there c = c
feed_found-Credited room (some f) s there c = elim (Bool-cases (is_over f)) [
  | inl e ↦ rw e c
  | inr n ↦ rw n (
      same-Credited f _ s (there f refl) refl
        (refed (feed_file room f).next_task (feed_file room f).inflight f) c)
]

pass-Credited :
    (room : ℕ) (is : List ℕ) (s : Sender) → Credited s → Credited (pass room is s).sender
unfolding pass
pass-Credited room [] s c = c
pass-Credited room (i ∷ is) s c =
    let here = feed_found room (find i s.files) s in
    let c' : Credited here.1 =
      feed_found-Credited room (find i s.files) s (found_self i s.files) c in
    elim (Bool-cases here.0.full) [
      | inl e ↦ rw e c'
      | inr n ↦ rw n (pass-Credited here.0.room is here.1 c')
    ]

refill-Credited : (is : List ℕ) (s : Sender) → Credited s → Credited (refill is s).sender
unfolding refill
refill-Credited [] s c = c
refill-Credited (i ∷ is) s c = c

pub schedule-Credited :
    (room : ℕ) (is : List ℕ) (s : Sender) → Credited s → Credited (schedule room is s).sender
unfolding schedule
schedule-Credited room is s c = pass-Credited room _ _ (refill-Credited is s c)

fail_open-parked :
    (known : Bool) (f : TxFile) (code : ℕ) (msg : Bytes) (s : Sender)
    → (fail_open known f code msg s).parked ≡ s.parked
unfolding fail_open fail_now mark_resolved
fail_open-parked true f code msg s = refl
fail_open-parked false f code msg s = refl

fail_if-parked :
    (over : Bool) (f : TxFile) (code : ℕ) (msg : Bytes) (s : Sender)
    → (fail_if over f code msg s).parked ≡ s.parked
unfolding fail_if
fail_if-parked true f code msg s = refl
fail_if-parked false f code msg s = fail_open-parked _ f code msg s

fail_file-parked :
    (f : TxFile) (code : ℕ) (msg : Bytes) (s : Sender) → (fail_file f code msg s).parked ≡ s.parked
unfolding fail_file
fail_file-parked f code msg s = fail_if-parked _ f code msg s

-- What a worker's step is to be shown to keep.
abbrev Worked : Sender → Sender → Type 0
Worked s t = Credited t × (t.parked ≡ s.parked)

fail_file-Worked :
    (f : TxFile) (code : ℕ) (msg : Bytes) (s : Sender)
    → Stored s f
    → Elsewhere s f
    → Credited s
    → Worked s (fail_file f code msg s)
fail_file-Worked f code msg s there away c =
    (fail_file-Credited f code msg s there away c, fail_file-parked f code msg s)

framed-Worked :
    (fate : Fate) (msg : Bytes) (f : TxFile) (sent : Option Bytes) (s : Sender)
    → Stored s f
    → Elsewhere s f
    → Credited s
    → Worked s (framed fate msg f sent s)
unfolding framed
framed-Worked fate msg f none s there away c =
    fail_file-Worked f code_source_changed msg s there away c
framed-Worked sent_out msg f (some b) s there away c = (c, refl)
framed-Worked write_failed msg f (some b) s there away c =
    fail_file-Worked f code_source_changed msg s there away c
framed-Worked context_over msg f (some b) s there away c = (c, refl)

open_and_send-Worked :
    (src : Source) (w : Wire) (fate : Fate) (msg : Bytes) (i : ℕ) (f : TxFile) (s : Sender)
    → Stored s f
    → Elsewhere s f
    → Credited s
    → Worked s (open_and_send src w fate msg i f s)
unfolding open_and_send
open_and_send-Worked src w fate msg i f s there away c =
    let ok = src.opens f.entry in
    let g = open_fd ok f in
    let books = open_fd-SameBooks ok f in
    framed-Worked fate msg g (frame_of src w i g) _
      (ap (λ e. find (Entry.id e) (store g s.files)) books.entry
        ∙ find-store_self f g s.files books.entry)
      (λ p. away (p ∙ ap (λ e. some (Entry.id e)) books.entry))
      (same-Credited f g s there books.entry (pending-same g f books) c)

work_if-Worked :
    (over outside : Bool) (src : Source) (w : Wire) (fate : Fate) (msg : Bytes) (i : ℕ) (f : TxFile)
    (s : Sender)
    → Stored s f
    → Elsewhere s f
    → Credited s
    → Worked s (work_if over outside src w fate msg i f s)
unfolding work_if
work_if-Worked true outside src w fate msg i f s there away c = (c, refl)
work_if-Worked false true src w fate msg i f s there away c =
    fail_file-Worked f code_source_changed msg s there away c
work_if-Worked false false src w fate msg i f s there away c =
    open_and_send-Worked src w fate msg i f s there away c

work_found-Worked :
    (src : Source) (w : Wire) (fate : Fate) (msg : Bytes) (i : ℕ) (found : Option TxFile)
    (s : Sender)
    → ((f : TxFile) → found ≡ some f → Stored s f)
    → ((f : TxFile) → found ≡ some f → Elsewhere s f)
    → Credited s
    → Worked s (work_found src w fate msg i found s)
unfolding work_found
work_found-Worked src w fate msg i none s there away c = (c, refl)
work_found-Worked src w fate msg i (some f) s there away c =
    work_if-Worked _ _ src w fate msg i f s (there f refl) (away f refl) c

pub work-Credited :
    (src : Source) (w : Wire) (fate : Fate) (msg changed_msg : Bytes) (changed : Bool)
    (t : ChunkTask) (s : Sender)
    → (s.parked ≢ some t.file_id)
    → Credited s
    → Credited (work src w fate msg changed_msg changed t s)
unfolding work
work-Credited src w fate msg changed_msg changed t s away c =
    let after =
      work_found-Worked src w fate msg t.idx (find t.file_id s.files) s
        (found_self t.file_id s.files) (not_parked t.file_id s away) c in
    task_done-Credited changed changed_msg t _ (λ p. away (sym after.1 ∙ p)) after.0
