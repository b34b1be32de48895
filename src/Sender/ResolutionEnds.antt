-- ===== src/Sender/ResolutionEnds.antt =====
-- The handlers that end a file or give it work again, the scheduler and the workers keep the books on outcomes.
use botjim.Prelude.{
  ℕ, ◌+◌, ◌≡◌, arith, Bool, true, false, not, ◌&&◌, ◌||◌, [], ◌∷◌, ◌++◌, Bytes, length-append,
  Bool-cases, inl, inr, Option, none, some, refl,
}
use botjim.Protocol.Messages.{FileResult, ChunkRetry, ChunkRequest}
use botjim.Sender.{TxFile, Sender, failed, has_id, find, store, waits}
use botjim.Sender.Handlers.{Source, release_if}
use botjim.Sender.Outcomes.{
  settled, echo, is_error, result_if, file_result, fail_now, fail_open, fail_if, fail_file,
  error_at, one_more, retry_counted, retry_if, retry_found, retry_chunk, request_if, request_found,
  chunk_request, code_io, count_result, failure,
}
use botjim.Sender.Files.{settled-entry}
use botjim.Sender.CreditEnds.{found_self, find-store_self}
use botjim.Sender.CreditRetries.{Stored}
use botjim.Sender.Resolution.{IsKeyed, Kept, store-IsKeyed, OneCounted, mark_resolved-Kept}
use botjim.Sender.ResolutionSteps.{store-Kept, echo-OneCounted}

count_result-IsKeyed :
    (fresh over : Bool) (m : FileResult) (f : TxFile) (s : Sender)
    → IsKeyed s.emitted_ids s.files
    → IsKeyed (count_result fresh over m f s).emitted_ids (count_result fresh over m f s).files
unfolding count_result
count_result-IsKeyed true over m f s k = k
count_result-IsKeyed false true m f s k = k
count_result-IsKeyed false false m f s k = k

echo-IsKeyed :
    (m : FileResult) (found : Option TxFile) (s : Sender)
    → ((f : TxFile) → found ≡ some f → Stored s f)
    → Kept s
    → IsKeyed (echo m found s).emitted_ids (echo m found s).files
unfolding echo
echo-IsKeyed m none s there k = elim (Bool-cases (is_error m)) [
  | inl e ↦ rw e k.1
  | inr n ↦ rw n k.1
]
echo-IsKeyed m (some f) s there k =
    count_result-IsKeyed (is_error m && not f.errored) f.resolved m f _ (
      store-IsKeyed f (settled (is_error m && not f.errored) f) s (there f refl)
        (settled-entry (is_error m && not f.errored) f) k)

result_if-Kept :
    (dropped : Bool) (m : FileResult) (s : Sender)
    → (not (has_id m.file_id s.emitted_ids) || has_id m.file_id s.resolved_ids) ≡ dropped
    → Kept s
    → Kept (result_if dropped m s)
unfolding result_if
result_if-Kept true m s e k = k
result_if-Kept false m s e k =
    mark_resolved-Kept m.file_id s _ (echo-OneCounted m (find m.file_id s.files) s) (ground arith)
      (ground arith) (echo-IsKeyed m (find m.file_id s.files) s (found_self m.file_id s.files) k)
      k.0

pub file_result-Kept : (m : FileResult) (s : Sender) → Kept s → Kept (file_result m s)
unfolding file_result
file_result-Kept m s k = result_if-Kept _ m s refl k

fail_open-Kept :
    (known : Bool) (f : TxFile) (code : ℕ) (msg : Bytes) (s : Sender)
    → has_id f.entry.id s.resolved_ids ≡ known
    → Stored s f
    → Kept s
    → Kept (fail_open known f code msg s)
unfolding fail_open fail_now
fail_open-Kept true f code msg s e there k =
    store-Kept f (record f { errored = true }) s there refl k
fail_open-Kept false f code msg s e there k =
    mark_resolved-Kept f.entry.id s _ (one f code msg s) (k.1 f.entry.id f there) e
      (store-IsKeyed f (settled true f) s there (settled-entry true f) k) k.0
  where
    one :
        (f : TxFile) (code : ℕ) (msg : Bytes) (s : Sender)
        → OneCounted s (record s {
          gates_open = release_if (waits f) s.gates_open;
          files = store (settled true f) s.files;
          errors = s.errors ++ error_at f code msg ∷ [];
          said = s.said ++ failed (failure f code msg) ∷ [];
        })
    one f code msg s = record {
      emitted = refl;
      emitted_ids = refl;
      resolved = refl;
      resolved_ids = refl;
      one = omega (arith, length-append s.errors (error_at f code msg ∷ []));
    }

fail_if-Kept :
    (over : Bool) (f : TxFile) (code : ℕ) (msg : Bytes) (s : Sender)
    → Stored s f
    → Kept s
    → Kept (fail_if over f code msg s)
unfolding fail_if
fail_if-Kept true f code msg s there k = k
fail_if-Kept false f code msg s there k = fail_open-Kept _ f code msg s refl there k

pub fail_file-Kept :
    (f : TxFile) (code : ℕ) (msg : Bytes) (s : Sender)
    → Stored s f
    → Kept s
    → Kept (fail_file f code msg s)
unfolding fail_file
fail_file-Kept f code msg s there k = fail_if-Kept _ f code msg s there k

retry_counted-Kept :
    (over : Bool) (src : Source) (m : ChunkRetry) (counts : ℕ → ℕ) (f : TxFile) (s : Sender)
    → Stored s f
    → Kept s
    → Kept (retry_counted over src m (record f { retries = counts }) s)
unfolding retry_counted
retry_counted-Kept true src m counts f s there k =
    let g : TxFile = record f { retries = counts } in
    fail_file-Kept g code_io (src.exhausted m.chunk_idx) (record s { files = store g s.files })
      (find-store_self f g s.files refl) (store-Kept f g s there refl k)
retry_counted-Kept false src m counts f s there k =
    store-Kept f (record f { retries = counts; inflight = f.inflight + 1 }) s there refl k

retry_if-Kept :
    (over : Bool) (src : Source) (m : ChunkRetry) (f : TxFile) (s : Sender)
    → Stored s f
    → Kept s
    → Kept (retry_if over src m f s)
unfolding retry_if
retry_if-Kept true src m f s there k = k
retry_if-Kept false src m f s there k =
    retry_counted-Kept _ src m (one_more m.chunk_idx f.retries) f s there k

retry_found-Kept :
    (src : Source) (m : ChunkRetry) (found : Option TxFile) (s : Sender)
    → ((f : TxFile) → found ≡ some f → Stored s f)
    → Kept s
    → Kept (retry_found src m found s)
unfolding retry_found
retry_found-Kept src m none s there k = k
retry_found-Kept src m (some f) s there k = retry_if-Kept _ src m f s (there f refl) k

pub retry_chunk-Kept :
    (src : Source) (m : ChunkRetry) (s : Sender) → Kept s → Kept (retry_chunk src m s)
unfolding retry_chunk
retry_chunk-Kept src m s k =
    retry_found-Kept src m (find m.file_id s.files) s (found_self m.file_id s.files) k

request_if-Kept :
    (broken : Bool) (m : ChunkRequest) (f : TxFile) (s : Sender)
    → Stored s f
    → Kept s
    → Kept (request_if broken m f s)
unfolding request_if
request_if-Kept true m f s there k = k
request_if-Kept false m f s there k =
    store-Kept f (record f { inflight = f.inflight + 1 }) s there refl k

request_found-Kept :
    (m : ChunkRequest) (found : Option TxFile) (s : Sender)
    → ((f : TxFile) → found ≡ some f → Stored s f)
    → Kept s
    → Kept (request_found m found s)
unfolding request_found
request_found-Kept m none s there k = k
request_found-Kept m (some f) s there k = request_if-Kept f.errored m f s (there f refl) k

pub chunk_request-Kept : (m : ChunkRequest) (s : Sender) → Kept s → Kept (chunk_request m s)
unfolding chunk_request
chunk_request-Kept m s k =
    request_found-Kept m (find m.file_id s.files) s (found_self m.file_id s.files) k
