-- ===== src/Engine/Delivery.antt =====
-- Any sequence of the receiver's handlers on one file, with frames and verdicts of an honest sender.
use botjim.Prelude.{
  ℕ, ◌<◌, ◌≡◌, ◌⊎◌, inl, inr, Bool, true, false, List, [], ◌∷◌, Bytes, All, Option,
}
use botjim.Prelude.Int.{ℤ}
use botjim.Chunking.Identity.{Collision}
use botjim.Protocol.Data.{ChunkHeader}
use botjim.Sidecar.{bit_at}
use botjim.Engine.RxFile.{RxFile, handle_chunk, sender_file_error}
use botjim.Engine.Ending.{
  commit_file, claim_result, run_finalizer, flush_sidecar, close_part, FinalFault,
}
use botjim.Engine.Table.{Job, IsFit, chunks}
use botjim.Engine.Sound.{IsSound, Whole, sender_file_error-IsSound}
use botjim.Engine.Absorb.{IsHonestFrame, handle_chunk-IsSound}
use botjim.Engine.Verdict.{IsRight, commit_file-IsSound, claim_result-IsSound}
use botjim.Engine.Closing.{run_finalizer-IsSound, close_part-IsSound, flush_sidecar-IsSound}

-- What can happen to a file: a frame with the fault of its write, the messages about it, the finalizer, the flush and
-- the end of the session.
pub data Event : Type 0 where
  frame : Option ℕ → ChunkHeader → Bytes → Event
  committed sender_failed : Event
  verdict : Bytes → Event
  finalizing : Bool → Option FinalFault → Event
  flushing closing : Event

unfoldable pub step : (Bytes → Bytes) → (Bytes → ℤ → Option Bytes) → Bool → RxFile → Event → RxFile
step sha256 decompress negotiated f (frame fault hdr payload) =
    handle_chunk sha256 decompress negotiated fault f hdr payload
step sha256 decompress negotiated f committed = commit_file f
step sha256 decompress negotiated f (verdict verified) = claim_result f verified
step sha256 decompress negotiated f sender_failed = sender_file_error f
step sha256 decompress negotiated f (finalizing fsync fault) = run_finalizer fsync fault f
step sha256 decompress negotiated f flushing = (flush_sidecar f).0
step sha256 decompress negotiated f closing = close_part f

unfoldable pub run :
    (Bytes → Bytes) → (Bytes → ℤ → Option Bytes) → Bool → RxFile → List Event → RxFile
run sha256 decompress negotiated f [] = f
run sha256 decompress negotiated f (e ∷ es) =
    run sha256 decompress negotiated (step sha256 decompress negotiated f e) es

module _ (job : Job) (fit : IsFit job) (decompress : Bytes → ℤ → Option Bytes)
    (negotiated : Bool) where
  -- A frame that stands for the source, a Commit when every claim is right, a ClaimResult that
  -- confirms only claims that are.
  abbrev pub IsHonest : Event → Type 0
  IsHonest (frame fault hdr payload) = IsHonestFrame job fit decompress negotiated hdr payload
  IsHonest committed = (i : ℕ) → i < chunks job → IsRight job i
  IsHonest (verdict verified) = (i : ℕ) → i < chunks job → bit_at verified i ≡ true → IsRight job i
  IsHonest _ = Unit

  pub step-IsSound :
      (f : RxFile) (e : Event)
      → IsHonest e
      → IsSound job f
      → IsSound job (step job.sha256 decompress negotiated f e) ⊎ Collision job.sha256
  unfolding step
  step-IsSound f (frame fault hdr payload) h v =
      inl (handle_chunk-IsSound job fit decompress negotiated fault f hdr payload h v)
  step-IsSound f committed h v = commit_file-IsSound job fit f h v
  step-IsSound f (verdict verified) h v = claim_result-IsSound job fit f verified h v
  step-IsSound f sender_failed h v = inl (sender_file_error-IsSound job fit f v)
  step-IsSound f (finalizing fsync fault) h v = inl (run_finalizer-IsSound job fit fsync fault f v)
  step-IsSound f flushing h v = inl (flush_sidecar-IsSound job fit f v)
  step-IsSound f closing h v = inl (close_part-IsSound job fit f v)

  -- A sound file stays sound through any honest events in any order, write faults and duplicate frames included, or SHA-256
  -- has a collision, which the proof exhibits.
  pub run-IsSound :
      (f : RxFile) (es : List Event)
      → All IsHonest es
      → IsSound job f
      → IsSound job (run job.sha256 decompress negotiated f es) ⊎ Collision job.sha256
  unfolding run
  run-IsSound f [] h v = inl v
  run-IsSound f (e ∷ es) (h, hs) v = elim (step-IsSound f e h v) [
    | inl next ↦ run-IsSound (step job.sha256 decompress negotiated f e) es hs next
    | inr found ↦ inr found
  ]

  -- If a sound file is resolved without an error after any honest events, in any order and with any write faults, its bytes are
  -- the source's, or SHA-256 has a collision, which the proof exhibits.
  pub run-Whole :
      (f : RxFile) (es : List Event)
      → IsSound job f
      → All IsHonest es
      → (run job.sha256 decompress negotiated f es).resolved ≡ true
      → (run job.sha256 decompress negotiated f es).errored ≡ false
      → Whole job (run job.sha256 decompress negotiated f es).content ⊎ Collision job.sha256
  run-Whole f es v hs done clean = elim (run-IsSound f es hs v) [
    | inl w ↦ inl (w.final done clean)
    | inr found ↦ inr found
  ]
