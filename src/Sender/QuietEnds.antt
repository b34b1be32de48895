-- ===== src/Sender/QuietEnds.antt =====
-- Retries, requests and the workers leave the scheduler's view of the files and its queue as they are.
use botjim.Prelude.{
  ℕ, ◌+◌, ◌≡◌, Bool, true, false, ◌&&◌, Bytes, Bool-cases, inl, inr, Option, none, some, ap, ◌∙◌,
  refl,
}
use botjim.Manifest.{Entry}
use botjim.Protocol.Messages.{ChunkRetry, ChunkRequest}
use botjim.Sender.{ChunkTask, TxFile, Sender, find, store}
use botjim.Sender.Handlers.{Source}
use botjim.Sender.Outcomes.{
  one_more, retry_counted, retry_if, retry_found, retry_chunk, request_if, request_found,
  chunk_request, released, to_check, code_source_changed, code_io, done_found, task_done,
}
use botjim.Sender.Scheduler.{
  Fate, sent_out, write_failed, context_over, Wire, open_fd, frame_of, framed, open_and_send,
  work_if, work_found, work,
}
use botjim.Sender.Files.{released-SameBooks, open_fd-SameBooks}
use botjim.Sender.CreditEnds.{found_self, find-store_self}
use botjim.Sender.CreditRetries.{Stored}
use botjim.Sender.Quiet.{Quiet, quiet, Quiet-trans, Quiet-store, books-plan, fail_file-Quiet}

retry_counted-Quiet :
    (over : Bool) (src : Source) (m : ChunkRetry) (counts : ℕ → ℕ) (f : TxFile) (s : Sender)
    → Stored s f
    → Quiet s (retry_counted over src m (record f { retries = counts }) s)
unfolding retry_counted
retry_counted-Quiet true src m counts f s there =
    let g : TxFile = record f { retries = counts } in
    let first : Sender = record s { files = store g s.files } in
    Quiet-trans s first _ (Quiet-store f g s first there refl refl refl) (
      fail_file-Quiet g code_io (src.exhausted m.chunk_idx) first
        (find-store_self f g s.files refl))
retry_counted-Quiet false src m counts f s there =
    Quiet-store f (record f { retries = counts; inflight = f.inflight + 1 }) s _ there refl refl
      refl

retry_if-Quiet :
    (over : Bool) (src : Source) (m : ChunkRetry) (f : TxFile) (s : Sender)
    → Stored s f
    → Quiet s (retry_if over src m f s)
unfolding retry_if
retry_if-Quiet true src m f s there = quiet s
retry_if-Quiet false src m f s there =
    retry_counted-Quiet _ src m (one_more m.chunk_idx f.retries) f s there

retry_found-Quiet :
    (src : Source) (m : ChunkRetry) (found : Option TxFile) (s : Sender)
    → ((f : TxFile) → found ≡ some f → Stored s f)
    → Quiet s (retry_found src m found s)
unfolding retry_found
retry_found-Quiet src m none s there = quiet s
retry_found-Quiet src m (some f) s there = retry_if-Quiet _ src m f s (there f refl)

pub retry_chunk-Quiet : (src : Source) (m : ChunkRetry) (s : Sender) → Quiet s (retry_chunk src m s)
unfolding retry_chunk
retry_chunk-Quiet src m s =
    retry_found-Quiet src m (find m.file_id s.files) s (found_self m.file_id s.files)

request_if-Quiet :
    (broken : Bool) (m : ChunkRequest) (f : TxFile) (s : Sender)
    → Stored s f
    → Quiet s (request_if broken m f s)
unfolding request_if
request_if-Quiet true m f s there = quiet s
request_if-Quiet false m f s there =
    Quiet-store f (record f { inflight = f.inflight + 1 }) s _ there refl refl refl

request_found-Quiet :
    (m : ChunkRequest) (found : Option TxFile) (s : Sender)
    → ((f : TxFile) → found ≡ some f → Stored s f)
    → Quiet s (request_found m found s)
unfolding request_found
request_found-Quiet m none s there = quiet s
request_found-Quiet m (some f) s there = request_if-Quiet f.errored m f s (there f refl)

pub chunk_request-Quiet : (m : ChunkRequest) (s : Sender) → Quiet s (chunk_request m s)
unfolding chunk_request
chunk_request-Quiet m s =
    request_found-Quiet m (find m.file_id s.files) s (found_self m.file_id s.files)

done_found-Quiet :
    (changed : Bool) (msg : Bytes) (found : Option TxFile) (s : Sender)
    → ((f : TxFile) → found ≡ some f → Stored s f)
    → Quiet s (done_found changed msg found s)
unfolding done_found
done_found-Quiet changed msg none s there = quiet s
done_found-Quiet changed msg (some f) s there =
    let b = released-SameBooks f in
    let left : Sender = record s { files = store (released f) s.files } in
    let stored : Quiet s left =
      Quiet-store f (released f) s left (there f refl) (books-plan f (released f) b) refl refl in
    let self : Stored left (released f) =
      ap (λ e. find (Entry.id e) (store (released f) s.files)) b.entry
      ∙ find-store_self f (released f) s.files b.entry in
    elim (Bool-cases (to_check (released f) && changed)) [
      | inl e ↦ rw e (
          Quiet-trans s left _ stored
            (fail_file-Quiet (released f) code_source_changed msg left self))
      | inr n ↦ rw n stored
    ]

task_done-Quiet :
    (changed : Bool) (msg : Bytes) (t : ChunkTask) (s : Sender)
    → Quiet s (task_done changed msg t s)
unfolding task_done
task_done-Quiet changed msg t s =
    done_found-Quiet changed msg (find t.file_id s.files) s (found_self t.file_id s.files)

framed-Quiet :
    (fate : Fate) (msg : Bytes) (f : TxFile) (sent : Option Bytes) (s : Sender)
    → Stored s f
    → Quiet s (framed fate msg f sent s)
unfolding framed
framed-Quiet fate msg f none s there = fail_file-Quiet f code_source_changed msg s there
framed-Quiet sent_out msg f (some b) s there = record { queue = refl; plans = λ i. refl }
framed-Quiet write_failed msg f (some b) s there = fail_file-Quiet f code_source_changed msg s there
framed-Quiet context_over msg f (some b) s there = quiet s

work_if-Quiet :
    (over outside : Bool) (src : Source) (w : Wire) (fate : Fate) (msg : Bytes) (i : ℕ) (f : TxFile)
    (s : Sender)
    → Stored s f
    → Quiet s (work_if over outside src w fate msg i f s)
unfolding work_if open_and_send
work_if-Quiet true outside src w fate msg i f s there = quiet s
work_if-Quiet false true src w fate msg i f s there =
    fail_file-Quiet f code_source_changed msg s there
work_if-Quiet false false src w fate msg i f s there =
    let g = open_fd (src.opens f.entry) f in
    let b = open_fd-SameBooks (src.opens f.entry) f in
    let first : Sender = record s { files = store g s.files } in
    Quiet-trans s first _ (Quiet-store f g s first there (books-plan f g b) refl refl) (
      framed-Quiet fate msg g (frame_of src w i g) first (
        ap (λ e. find (Entry.id e) (store g s.files)) b.entry
        ∙ find-store_self f g s.files b.entry))

work_found-Quiet :
    (src : Source) (w : Wire) (fate : Fate) (msg : Bytes) (i : ℕ) (found : Option TxFile)
    (s : Sender)
    → ((f : TxFile) → found ≡ some f → Stored s f)
    → Quiet s (work_found src w fate msg i found s)
unfolding work_found
work_found-Quiet src w fate msg i none s there = quiet s
work_found-Quiet src w fate msg i (some f) s there =
    work_if-Quiet _ _ src w fate msg i f s (there f refl)

pub work-Quiet :
    (src : Source) (w : Wire) (fate : Fate) (msg changed_msg : Bytes) (changed : Bool)
    (t : ChunkTask) (s : Sender)
    → Quiet s (work src w fate msg changed_msg changed t s)
unfolding work
work-Quiet src w fate msg changed_msg changed t s =
    Quiet-trans s _ _
      (work_found-Quiet src w fate msg t.idx (find t.file_id s.files) s
        (found_self t.file_id s.files))
      (task_done-Quiet changed changed_msg t _)
