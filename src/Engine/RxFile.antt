-- ===== src/Engine/RxFile.antt =====
-- internal/engine/receiver.go: a file of the receiver (rxFile) and the handlers that change it. A
-- handler is one step: the mutex is not modelled, nor are the progress counters and the messages.
use botjim.Prelude.{
  ℕ, ◌+◌, ◌⊎◌, inl, inr, Bool, true, false, not, ◌&&◌, ◌||◌, Bytes, length, replicate, ◌==◌, leb,
  ltb, if◌then◌else◌, Option, none, some,
}
use botjim.Prelude.Int.{ℤ, pos, negsuc, pos_part}
use botjim.Wire.Bits.{test_bit}
use botjim.Wire.Stream.{StreamError}
use botjim.Manifest.{Entry}
use botjim.Chunking.{count, offset, len, chunk_sha, zero_hash}
use botjim.Protocol.Data.{ChunkHeader, zero_flag, raw_flag, checked_body}
use botjim.Sidecar.{Sidecar, entry_grid, have, set_have, complete, int_eq}
use botjim.Engine.Disk.{Disk, write_part}

-- `content` stands for the bytes of the part file and `part_open` for part != nil; `in_place` for
-- partPath == abs; `queued` counts the copies of the id on finalizeCh.
pub record RxFile : Type 0 where
  pub entry : Entry
  pub in_place : Bool
  pub part_open : Bool
  pub content : Disk
  pub sc : Sidecar
  pub dirty : Bool
  pub final_queued : Bool
  pub resolved : Bool
  pub errored : Bool
  pub retries : ℕ → ℕ
  pub adopted : Bool
  pub await_claims : Bool
  pub claims_resolved : Bool
  pub arrived : Option (ℕ → Bool)
  pub may_stale : Bool
  pub queued : ℕ

-- f.arrived[i], which is false on a nil map.
unfoldable pub has_arrived : Option (ℕ → Bool) → ℕ → Bool
has_arrived none i = false
has_arrived (some m) i = m i

unfoldable pub note_arrival : Option (ℕ → Bool) → ℕ → Option (ℕ → Bool)
note_arrival none i = none
note_arrival (some m) i = some (λ j. i == j || m j)

unfoldable pub queue_finalize : RxFile → RxFile
queue_finalize f = record f { queued = f.queued + 1 }

-- `f.sc.Complete() && (!f.awaitClaims || f.claimsResolved)`
unfoldable pub is_complete : RxFile → Bool
is_complete f = complete f.sc && (not f.await_claims || f.claims_resolved)

unfoldable pub maybe_complete : RxFile → RxFile
unfolding queue_finalize
maybe_complete f =
    if is_complete f && not f.final_queued
    then queue_finalize (record f { final_queued = true })
    else f

-- What absorbChunk does with the chunk's bytes on disk.
unfoldable pub mark_chunk : RxFile → ℕ → Bytes → Bool → RxFile
mark_chunk f i h is_zero = maybe_complete (record f {
  sc = set_have f.sc (pos i) h is_zero;
  dirty = true;
  arrived = note_arrival f.arrived i;
})

-- A failed write is an error, and may have left some of the bytes.
unfoldable pub after_write : RxFile → ℕ → Bytes → Bool → Disk × Bool → RxFile × Bool
after_write f i h is_zero (d, true) = (mark_chunk (record f { content = d }) i h is_zero, true)
after_write f i h is_zero (d, false) = (record f { content = d }, false)

-- `grid.Count() < 0 || hdr.ChunkIdx >= uint64(grid.Count())`
unfoldable pub out_of_range : ℤ → ℕ → Bool
out_of_range (negsuc k) i = true
out_of_range (pos k) i = leb k i

abbrev pub expected : RxFile → ℕ → ℤ
expected f i = len (entry_grid f.entry) i

-- A fresh part has a hole there already. The blocks of writeZeros are written as one.
unfoldable pub zero_write : Bool → Option ℕ → Disk → ℤ → ℤ → Disk × Bool
zero_write false fault d off size = (d, true)
zero_write true fault d off size = write_part fault d off (replicate (pos_part size) 0)

unfoldable pub absorb_zero : Option ℕ → RxFile → ℕ → RxFile × Bool
absorb_zero fault f i =
    if int_eq (expected f i) (pos 0)
    then (f, true)
    else after_write f i zero_hash true
        (zero_write f.may_stale fault f.content (offset (entry_grid f.entry) i) (expected f i))

unfoldable pub sized : ℤ → Option Bytes → Option Bytes
sized size none = none
sized size (some chunk) = if int_eq (pos (length chunk)) size then some chunk else none

-- `decompress` is Decompress of the negotiated codec, the size expected its second argument.
unfoldable pub decoded : (Bytes → ℤ → Option Bytes) → ℕ → Bytes → ℤ → Option Bytes
decoded decompress flags payload size =
    if test_bit flags raw_flag
    then if int_eq (pos (length payload)) size then some payload else none
    else sized size (decompress payload size)

unfoldable pub absorb_data : (Bytes → Bytes) → Option ℕ → RxFile → ℕ → Option Bytes → RxFile × Bool
absorb_data sha256 fault f i none = (f, false)
absorb_data sha256 fault f i (some chunk) =
    after_write f i (chunk_sha sha256 f.entry.rel_path i chunk) false
      (write_part fault f.content (offset (entry_grid f.entry) i) chunk)

-- Behind the check of the frame's sum.
unfoldable pub absorb_body :
    (Bytes → Bytes)
    → (Bytes → ℤ → Option Bytes)
    → Option ℕ
    → RxFile
    → ChunkHeader
    → StreamError ⊎ Bytes
    → RxFile × Bool
absorb_body sha256 decompress fault f hdr (inl err) = (f, false)
absorb_body sha256 decompress fault f hdr (inr body) =
    if not f.part_open || (have f.sc (pos hdr.chunk_idx) && not f.adopted)
    then (f, true)
    else if test_bit hdr.flags zero_flag
    then absorb_zero fault f hdr.chunk_idx
    else absorb_data sha256 fault f hdr.chunk_idx
        (decoded decompress hdr.flags body (expected f hdr.chunk_idx))

-- absorbChunk on a file that the receiver knows, and whether it returned nil. `fault` is the number of bytes after
-- which the write fails, if it does.
unfoldable pub absorb_chunk :
    (Bytes → Bytes)
    → (Bytes → ℤ → Option Bytes)
    → Bool
    → Option ℕ
    → RxFile
    → ChunkHeader
    → Bytes
    → RxFile × Bool
absorb_chunk sha256 decompress negotiated fault f hdr payload =
    if f.errored || f.resolved
    then (f, true)
    else if out_of_range (count (entry_grid f.entry)) hdr.chunk_idx
    then (f, false)
    else absorb_body sha256 decompress fault f hdr (checked_body negotiated hdr payload)

unfoldable pub fail_file : RxFile → RxFile
fail_file f =
    if f.errored || f.resolved
    then f
    else record f { errored = true; resolved = true; part_open = false }

-- The fourth failure of one chunk fails the file.
unfoldable pub retry_or_fail : RxFile → ℕ → RxFile
retry_or_fail f i =
    let n = f.retries i + 1 in
    let counted : RxFile = record f { retries = λ j. if i == j then n else f.retries j } in
    if f.errored || f.resolved then f else if ltb 3 n then fail_file counted else counted

unfoldable pub after_absorb : ℕ → RxFile × Bool → RxFile
after_absorb i (f, true) = f
after_absorb i (f, false) = retry_or_fail f i

-- The body of handleStream's loop.
unfoldable pub handle_chunk :
    (Bytes → Bytes)
    → (Bytes → ℤ → Option Bytes)
    → Bool
    → Option ℕ
    → RxFile
    → ChunkHeader
    → Bytes
    → RxFile
handle_chunk sha256 decompress negotiated fault f hdr payload =
    after_absorb hdr.chunk_idx (absorb_chunk sha256 decompress negotiated fault f hdr payload)

-- senderFileError on a file that the receiver knows.
unfoldable pub sender_file_error : RxFile → RxFile
sender_file_error f =
    if not f.resolved && not f.errored
    then record f { errored = true; resolved = true; part_open = false }
    else f
