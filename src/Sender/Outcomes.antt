-- ===== src/Sender/Outcomes.antt =====
-- internal/engine/sender.go: what ends a file or gives it work again: the receiver's result, a failure, a retry, a
-- request, a chunk sent; and the switch over the messages.
use botjim.Prelude.{
  ℕ, ◌+◌, ◌-◌, Bool, true, false, not, ◌&&◌, ◌||◌, [], ◌∷◌, ◌++◌, Bytes, ◌==◌, leb, ltb,
  if◌then◌else◌, Option, none, some,
}
use botjim.Protocol.Messages.{FileResult, ChunkRetry, ChunkRequest}
use botjim.Sender.{
  ChunkTask, TxFile, FileError, failed, Sender, has_id, with_id, find, store, waits,
}
use botjim.Sender.Handlers.{Source, release_if}

-- maybeCloseFD
unfoldable pub close_fd : TxFile → TxFile
close_fd f = if f.fd_open && f.resolved && f.inflight == 0 then record f { fd_open = false } else f

abbrev pub error_at : TxFile → ℕ → Bytes → FileError
error_at f code msg = record { path = f.entry.rel_path; code = code; msg = msg }

unfoldable pub mark_resolved : ℕ → Sender → Sender
mark_resolved i s = record s { resolved_ids = with_id i s.resolved_ids; resolved = s.resolved + 1 }

unfoldable pub is_error : FileResult → Bool
is_error m = m.status == 2

-- The branches on a regular file: a new error, a success, or neither.
unfoldable pub count_result : Bool → Bool → FileResult → TxFile → Sender → Sender
count_result true done m f s = record s { errors = s.errors ++ error_at f m.code m.msg ∷ [] }
count_result false true m f s = s
count_result false false m f s = record s { files_done = s.files_done + 1 }

unfoldable pub settled : Bool → TxFile → TxFile
settled fresh f = close_fd (record f { errored = f.errored || fresh; resolved = true })

unfoldable pub echo : FileResult → Option TxFile → Sender → Sender
echo m none s = if is_error m then s else record s { files_done = s.files_done + 1 }
echo m (some f) s =
    let fresh = is_error m && not f.errored in
    count_result fresh f.resolved m f (record s {
      gates_open = release_if (waits f) s.gates_open;
      files = store (settled fresh f) s.files;
    })

-- Ids that the walker did not give, or that have their outcome, are dropped.
unfoldable pub result_if : Bool → FileResult → Sender → Sender
result_if true m s = s
result_if false m s = mark_resolved m.file_id (echo m (find m.file_id s.files) s)

unfoldable pub file_result : FileResult → Sender → Sender
file_result m s =
    result_if (not (has_id m.file_id s.emitted_ids) || has_id m.file_id s.resolved_ids) m s

abbrev pub failure : TxFile → ℕ → Bytes → FileResult
failure f code msg = record { file_id = f.entry.id; status = 2; code = code; msg = msg }

unfoldable pub fail_now : TxFile → ℕ → Bytes → Sender → Sender
fail_now f code msg s = mark_resolved f.entry.id (record s {
  gates_open = release_if (waits f) s.gates_open;
  files = store (settled true f) s.files;
  errors = s.errors ++ error_at f code msg ∷ [];
  said = s.said ++ failed (failure f code msg) ∷ [];
})

unfoldable pub fail_open : Bool → TxFile → ℕ → Bytes → Sender → Sender
fail_open true f code msg s = record s { files = store (record f { errored = true }) s.files }
fail_open false f code msg s = fail_now f code msg s

unfoldable pub fail_if : Bool → TxFile → ℕ → Bytes → Sender → Sender
fail_if true f code msg s = s
fail_if false f code msg s = fail_open (has_id f.entry.id s.resolved_ids) f code msg s

-- failFile on the record behind the pointer, which the table holds.
unfoldable pub fail_file : TxFile → ℕ → Bytes → Sender → Sender
fail_file f code msg s = fail_if (f.errored || f.resolved) f code msg s

unfoldable pub code_io : ℕ
code_io = 1

unfoldable pub code_source_changed : ℕ
code_source_changed = 4

unfoldable pub one_more : ℕ → (ℕ → ℕ) → ℕ → ℕ
one_more i m j = if i == j then m j + 1 else m j

-- The count of this retry is over the limit of three, or a task goes out.
unfoldable pub retry_counted : Bool → Source → ChunkRetry → TxFile → Sender → Sender
retry_counted true src m f s =
    fail_file f code_io (src.exhausted m.chunk_idx) (record s { files = store f s.files })
retry_counted false src m f s = record s {
  files = store (record f { inflight = f.inflight + 1 }) s.files;
  retry_q = s.retry_q ++ record { file_id = m.file_id; idx = m.chunk_idx } ∷ [];
}

unfoldable pub retry_if : Bool → Source → ChunkRetry → TxFile → Sender → Sender
retry_if true src m f s = s
retry_if false src m f s =
    let g : TxFile = record f { retries = one_more m.chunk_idx f.retries } in
    retry_counted (ltb 3 (g.retries m.chunk_idx)) src m g s

unfoldable pub retry_found : Source → ChunkRetry → Option TxFile → Sender → Sender
retry_found src m none s = s
retry_found src m (some f) s = retry_if (f.errored || f.resolved) src m f s

unfoldable pub retry_chunk : Source → ChunkRetry → Sender → Sender
retry_chunk src m s = retry_found src m (find m.file_id s.files) s

-- The request's branch of readCtrl; a full reqCh is waited for elsewhere.
unfoldable pub request_if : Bool → ChunkRequest → TxFile → Sender → Sender
request_if true m f s = s
request_if false m f s = record s {
  files = store (record f { inflight = f.inflight + 1 }) s.files;
  req_q = s.req_q ++ record { file_id = m.file_id; idx = m.chunk_idx } ∷ [];
}

unfoldable pub request_found : ChunkRequest → Option TxFile → Sender → Sender
request_found m none s = s
request_found m (some f) s = request_if f.errored m f s

unfoldable pub chunk_request : ChunkRequest → Sender → Sender
chunk_request m s = request_found m (find m.file_id s.files) s

-- The first half of taskDone; `changed` is the answer of Stat on the source.
unfoldable pub released : TxFile → TxFile
released f = close_fd (record f { inflight = f.inflight - 1 })

unfoldable pub to_check : TxFile → Bool
to_check f =
    f.fd_open && not f.resolved && not f.errored && f.inflight == 0 && leb f.count f.next_task

unfoldable pub done_found : Bool → Bytes → Option TxFile → Sender → Sender
done_found changed msg none s = s
done_found changed msg (some f) s =
    let g = released f in
    let left : Sender = record s { files = store g s.files } in
    if to_check g && changed then fail_file g code_source_changed msg left else left

unfoldable pub task_done : Bool → Bytes → ChunkTask → Sender → Sender
task_done changed msg t s = done_found changed msg (find t.file_id s.files) s
