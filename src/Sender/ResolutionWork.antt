-- ===== src/Sender/ResolutionWork.antt =====
-- The end of a task, the scheduler and the workers keep the books on outcomes.
use botjim.Prelude.{
  ℕ, ◌≡◌, Bool, true, false, ◌&&◌, List, [], ◌∷◌, Bytes, Bool-cases, inl, inr, Option, none, some,
  ap, ◌∙◌, refl,
}
use botjim.Manifest.{Entry}
use botjim.Sender.{ChunkTask, TxFile, Sender, find, store}
use botjim.Sender.Handlers.{Source}
use botjim.Sender.Outcomes.{released, to_check, code_source_changed, done_found, task_done}
use botjim.Sender.Scheduler.{
  Fate, sent_out, write_failed, context_over, fed, is_over, feed_found, pass, refill, Wire, open_fd,
  frame_of, framed, open_and_send, work_if, work_found,
}
use botjim.Sender.Files.{released-SameBooks, open_fd-SameBooks}
use botjim.Sender.CreditEnds.{found_self, find-store_self}
use botjim.Sender.CreditRetries.{Stored}
use botjim.Sender.Resolution.{Kept}
use botjim.Sender.ResolutionSteps.{store-Kept}
use botjim.Sender.ResolutionEnds.{fail_file-Kept}

pub done_found-Kept :
    (changed : Bool) (msg : Bytes) (found : Option TxFile) (s : Sender)
    → ((f : TxFile) → found ≡ some f → Stored s f)
    → Kept s
    → Kept (done_found changed msg found s)
unfolding done_found
done_found-Kept changed msg none s there k = k
done_found-Kept changed msg (some f) s there k =
    let same = (released-SameBooks f).entry in
    let left : Sender = record s { files = store (released f) s.files } in
    let stored : Kept left = store-Kept f (released f) s (there f refl) same k in
    let self : Stored left (released f) =
      ap (λ e. find (Entry.id e) (store (released f) s.files)) same
      ∙ find-store_self f (released f) s.files same in
    elim (Bool-cases (to_check (released f) && changed)) [
      | inl e ↦ rw e (fail_file-Kept (released f) code_source_changed msg left self stored)
      | inr n ↦ rw n stored
    ]

pub task_done-Kept :
    (changed : Bool) (msg : Bytes) (t : ChunkTask) (s : Sender)
    → Kept s
    → Kept (task_done changed msg t s)
unfolding task_done
task_done-Kept changed msg t s k =
    done_found-Kept changed msg (find t.file_id s.files) s (found_self t.file_id s.files) k

pub feed_found-Kept :
    (room : ℕ) (found : Option TxFile) (s : Sender)
    → ((f : TxFile) → found ≡ some f → Stored s f)
    → Kept s
    → Kept ((feed_found room found s).1)
unfolding feed_found fed
feed_found-Kept room none s there k = k
feed_found-Kept room (some f) s there k = elim (Bool-cases (is_over f)) [
  | inl e ↦ rw e k
  | inr n ↦ rw n (store-Kept f _ s (there f refl) refl k)
]

pub pass-Kept : (room : ℕ) (is : List ℕ) (s : Sender) → Kept s → Kept (pass room is s).sender
unfolding pass
pass-Kept room [] s k = k
pass-Kept room (i ∷ is) s k =
    let here = feed_found room (find i s.files) s in
    let k' : Kept here.1 = feed_found-Kept room (find i s.files) s (found_self i s.files) k in
    elim (Bool-cases here.0.full) [
      | inl e ↦ rw e k'
      | inr n ↦ rw n (pass-Kept here.0.room is here.1 k')
    ]

pub refill-Kept : (is : List ℕ) (s : Sender) → Kept s → Kept (refill is s).sender
unfolding refill
refill-Kept [] s k = k
refill-Kept (i ∷ is) s k = k

pub framed-Kept :
    (fate : Fate) (msg : Bytes) (f : TxFile) (sent : Option Bytes) (s : Sender)
    → Stored s f
    → Kept s
    → Kept (framed fate msg f sent s)
unfolding framed
framed-Kept fate msg f none s there k = fail_file-Kept f code_source_changed msg s there k
framed-Kept sent_out msg f (some b) s there k = k
framed-Kept write_failed msg f (some b) s there k =
    fail_file-Kept f code_source_changed msg s there k
framed-Kept context_over msg f (some b) s there k = k

pub work_if-Kept :
    (over outside : Bool) (src : Source) (w : Wire) (fate : Fate) (msg : Bytes) (i : ℕ) (f : TxFile)
    (s : Sender)
    → Stored s f
    → Kept s
    → Kept (work_if over outside src w fate msg i f s)
unfolding work_if open_and_send
work_if-Kept true outside src w fate msg i f s there k = k
work_if-Kept false true src w fate msg i f s there k =
    fail_file-Kept f code_source_changed msg s there k
work_if-Kept false false src w fate msg i f s there k =
    let g = open_fd (src.opens f.entry) f in
    let same = (open_fd-SameBooks (src.opens f.entry) f).entry in
    framed-Kept fate msg g (frame_of src w i g) _
      (ap (λ e. find (Entry.id e) (store g s.files)) same ∙ find-store_self f g s.files same)
      (store-Kept f g s there same k)

pub work_found-Kept :
    (src : Source) (w : Wire) (fate : Fate) (msg : Bytes) (i : ℕ) (found : Option TxFile)
    (s : Sender)
    → ((f : TxFile) → found ≡ some f → Stored s f)
    → Kept s
    → Kept (work_found src w fate msg i found s)
unfolding work_found
work_found-Kept src w fate msg i none s there k = k
work_found-Kept src w fate msg i (some f) s there k =
    work_if-Kept _ _ src w fate msg i f s (there f refl) k
