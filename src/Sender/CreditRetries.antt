-- ===== src/Sender/CreditRetries.antt =====
-- Retries, requests and the end of a task keep the credits in bounds.
use botjim.Prelude.{
  ℕ, ◌+◌, ◌≡◌, ◌≢◌, Bool, true, false, ◌&&◌, Bytes, Bool-cases, inl, inr, Option, none, some, ap,
  ◌∙◌, refl,
}
use botjim.Manifest.{Entry}
use botjim.Protocol.Messages.{ChunkRetry, ChunkRequest}
use botjim.Sender.{ChunkTask, TxFile, Sender, find, store, waits}
use botjim.Sender.Handlers.{Source}
use botjim.Sender.Outcomes.{
  one_more, retry_counted, retry_if, retry_found, retry_chunk, request_if, request_found,
  chunk_request, released, to_check, code_source_changed, code_io, done_found, task_done,
}
use botjim.Sender.Lookup.{pending}
use botjim.Sender.Files.{pending-same, released-SameBooks}
use botjim.Sender.CreditSteps.{Credited, not_parked}
use botjim.Sender.CreditEnds.{find-store_self, found_self, same-Credited, fail_file-Credited}

-- A file whose id is the entry's stays what is not parked.
abbrev pub Elsewhere : Sender → TxFile → Type 0
Elsewhere s f = s.parked ≢ some f.entry.id

abbrev pub Stored : Sender → TxFile → Type 0
Stored s f = find f.entry.id s.files ≡ some f

recounted : (m : ℕ → ℕ) (f : TxFile) → pending (record f { retries = m }) ≡ pending f
unfolding pending waits
recounted m f = refl

reflown : (n : ℕ) (f : TxFile) → pending (record f { inflight = n }) ≡ pending f
unfolding pending waits
reflown n f = refl

pub refed : (i n : ℕ) (f : TxFile) → pending (record f { next_task = i; inflight = n }) ≡ pending f
unfolding pending waits
refed i n f = refl

retry_counted-Credited :
    (over : Bool) (src : Source) (m : ChunkRetry) (counts : ℕ → ℕ) (f : TxFile) (s : Sender)
    → Stored s f
    → Elsewhere s f
    → Credited s
    → Credited (retry_counted over src m (record f { retries = counts }) s)
unfolding retry_counted
retry_counted-Credited true src m counts f s there other c =
    let g : TxFile = record f { retries = counts } in
    fail_file-Credited g code_io (src.exhausted m.chunk_idx) (record s { files = store g s.files })
      (find-store_self f g s.files refl) other
      (same-Credited f g s there refl (recounted counts f) c)
retry_counted-Credited false src m counts f s there other c =
    same-Credited f (record f { retries = counts; inflight = f.inflight + 1 }) s there refl
      (reflown (f.inflight + 1) (record f { retries = counts }) ∙ recounted counts f) c

retry_if-Credited :
    (over : Bool) (src : Source) (m : ChunkRetry) (f : TxFile) (s : Sender)
    → Stored s f
    → Elsewhere s f
    → Credited s
    → Credited (retry_if over src m f s)
unfolding retry_if
retry_if-Credited true src m f s there other c = c
retry_if-Credited false src m f s there other c =
    retry_counted-Credited _ src m (one_more m.chunk_idx f.retries) f s there other c

retry_found-Credited :
    (src : Source) (m : ChunkRetry) (found : Option TxFile) (s : Sender)
    → ((f : TxFile) → found ≡ some f → Stored s f)
    → ((f : TxFile) → found ≡ some f → Elsewhere s f)
    → Credited s
    → Credited (retry_found src m found s)
unfolding retry_found
retry_found-Credited src m none s there other c = c
retry_found-Credited src m (some f) s there other c =
    retry_if-Credited _ src m f s (there f refl) (other f refl) c

pub retry_chunk-Credited :
    (src : Source) (m : ChunkRetry) (s : Sender)
    → (s.parked ≢ some m.file_id)
    → Credited s
    → Credited (retry_chunk src m s)
unfolding retry_chunk
retry_chunk-Credited src m s other c =
    retry_found-Credited src m (find m.file_id s.files) s (found_self m.file_id s.files)
      (not_parked m.file_id s other) c

request_if-Credited :
    (broken : Bool) (m : ChunkRequest) (f : TxFile) (s : Sender)
    → Stored s f
    → Credited s
    → Credited (request_if broken m f s)
unfolding request_if
request_if-Credited true m f s there c = c
request_if-Credited false m f s there c =
    same-Credited f (record f { inflight = f.inflight + 1 }) s there refl
      (reflown (f.inflight + 1) f) c

request_found-Credited :
    (m : ChunkRequest) (found : Option TxFile) (s : Sender)
    → ((f : TxFile) → found ≡ some f → Stored s f)
    → Credited s
    → Credited (request_found m found s)
unfolding request_found
request_found-Credited m none s there c = c
request_found-Credited m (some f) s there c = request_if-Credited f.errored m f s (there f refl) c

pub chunk_request-Credited :
    (m : ChunkRequest) (s : Sender) → Credited s → Credited (chunk_request m s)
unfolding chunk_request
chunk_request-Credited m s c =
    request_found-Credited m (find m.file_id s.files) s (found_self m.file_id s.files) c

done_found-Credited :
    (changed : Bool) (msg : Bytes) (found : Option TxFile) (s : Sender)
    → ((f : TxFile) → found ≡ some f → Stored s f)
    → ((f : TxFile) → found ≡ some f → Elsewhere s f)
    → Credited s
    → Credited (done_found changed msg found s)
unfolding done_found
done_found-Credited changed msg none s there other c = c
done_found-Credited changed msg (some f) s there other c =
    elim (Bool-cases (to_check (released f) && changed)) [
      | inl e ↦
          rw e (fail_file-Credited (released f) code_source_changed msg left at_self away stored)
      | inr n ↦ rw n stored
    ]
  where
    left : Sender
    left = record s { files = store (released f) s.files }

    same : (released f).entry ≡ f.entry
    same = (released-SameBooks f).entry

    stored : Credited left
    stored =
        same-Credited f (released f) s (there f refl) same
          (pending-same (released f) f (released-SameBooks f)) c

    at_self : Stored left (released f)
    at_self =
        ap (λ e. find (Entry.id e) (store (released f) s.files)) same
        ∙ find-store_self f (released f) s.files same

    away : Elsewhere left (released f)
    away p = other f refl (p ∙ ap (λ e. some (Entry.id e)) same)

pub task_done-Credited :
    (changed : Bool) (msg : Bytes) (t : ChunkTask) (s : Sender)
    → (s.parked ≢ some t.file_id)
    → Credited s
    → Credited (task_done changed msg t s)
unfolding task_done
task_done-Credited changed msg t s other c =
    done_found-Credited changed msg (find t.file_id s.files) s (found_self t.file_id s.files)
      (not_parked t.file_id s other) c
