-- ===== src/Engine/Ending.antt =====
-- internal/engine/receiver.go: the messages about a file, its finalizer, the flush of its sidecar and the end of
-- the session. As in Engine/RxFile a handler is one step.
use botjim.Prelude.{
  ℕ, zero, suc, Bool, true, false, not, ◌&&◌, ◌||◌, Bytes, if◌then◌else◌, Option, none, some,
}
use botjim.Prelude.Int.{pos}
use botjim.Sidecar.{Sidecar, entry_chunks, have, clear_have, complete, bit_at}
use botjim.Engine.RxFile.{RxFile, has_arrived, queue_finalize, maybe_complete, fail_file}

unfoldable pub commit_file : RxFile → RxFile
commit_file f =
    let settled : RxFile = record f { claims_resolved = true } in
    if f.resolved || f.errored
    then f
    else if not (complete f.sc)
    then settled
    else queue_finalize settled

unfoldable pub drop_one : Bool → ℕ → Sidecar × Bool → Sidecar × Bool
drop_one kept i (s, dropped) =
    if have s (pos i) && not kept then (clear_have s (pos i), true) else (s, dropped)

-- The loop over the first `n` chunks that unmarks those not to keep, and whether there were any.
unfoldable pub drop_claims : (ℕ → Bool) → ℕ → Sidecar → Sidecar × Bool
drop_claims keep zero sc = (sc, false)
drop_claims keep (suc n) sc = drop_one (keep n) n (drop_claims keep n sc)

unfoldable pub claim_result : RxFile → Bytes → RxFile
claim_result f verified =
    if (f.errored || f.resolved) || not f.adopted
    then f
    else let kept =
        drop_claims (λ i. bit_at verified i || has_arrived f.arrived i) (entry_chunks f.entry)
          f.sc in
      maybe_complete (record f { sc = kept.0; dirty = f.dirty || kept.1; claims_resolved = true })

pub data FinalFault : Type 0 where
  sync_failed close_failed rename_failed : FinalFault

-- Whether the fault meets a call that finalize makes.
unfoldable pub strikes : Bool → Bool → Option FinalFault → Bool
strikes fsync in_place none = false
strikes fsync in_place (some sync_failed) = fsync
strikes fsync in_place (some close_failed) = true
strikes fsync in_place (some rename_failed) = not in_place

unfoldable pub mark_written : Bool → Option FinalFault → Sidecar → Sidecar
mark_written fsync (some sync_failed) s = if fsync then s else record s { fully_written = true }
mark_written fsync (some close_failed) s = s
mark_written fsync _ s = record s { fully_written = true }

-- finalize of one id from finalizeCh, with okEntryLocked at its end.
unfoldable pub finalize : Bool → Option FinalFault → RxFile → RxFile
finalize fsync fault f =
    let taken : RxFile = record f { part_open = false; sc = mark_written fsync fault f.sc } in
    if (f.resolved || f.errored) || not f.part_open
    then f
    else if strikes fsync f.in_place fault
    then fail_file taken
    else record taken { dirty = false; resolved = true }

unfoldable pub take_id : Bool → Option FinalFault → RxFile → ℕ → RxFile
take_id fsync fault f zero = f
take_id fsync fault f (suc n) = finalize fsync fault (record f { queued = n })

-- runFinalizer takes an id off the channel first.
unfoldable pub run_finalizer : Bool → Option FinalFault → RxFile → RxFile
unfolding take_id
run_finalizer fsync fault f = take_id fsync fault f f.queued

-- A claim that nobody judged is not saved.
unfoldable pub kept_sidecar : RxFile → Sidecar
kept_sidecar f =
    if f.adopted && not f.claims_resolved
    then (drop_claims (has_arrived f.arrived) (entry_chunks f.entry) f.sc).0
    else f.sc

-- flushAllSidecars on one file: the file behind it, and what is saved, if anything.
unfoldable pub flush_sidecar : RxFile → RxFile × Option Sidecar
flush_sidecar f =
    if f.dirty && f.part_open
    then (record f { sc = kept_sidecar f; dirty = false }, some (kept_sidecar f))
    else (f, none)

-- closeAllParts
unfoldable pub close_part : RxFile → RxFile
close_part f = record f { part_open = false }
