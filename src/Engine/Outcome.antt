-- ===== src/Engine/Outcome.antt =====
-- How a file ends: by the fourth failure of a chunk at the latest, and for good.
use mathlib.Core.Path.{subst}
use botjim.Prelude.{
  ℕ, zero, suc, ◌+◌, ◌<◌, ◌≤◌, ◌≡◌, ◌⊎◌, inl, inr, ◌∙◌, refl, ap, arith, Bool, true, false, not,
  ◌&&◌, ◌||◌, List, [], ◌∷◌, Bytes, ◌==◌, ltb, Option, none, some, Bool-cases,
}
use botjim.Prelude.Int.{ℤ, pos}
use botjim.Wire.Bits.{test_bit}
use botjim.Wire.Stream.{StreamError}
use botjim.Chunking.{count, zero_hash}
use botjim.Protocol.Data.{ChunkHeader, zero_flag}
use botjim.Sidecar.{entry_grid, have, int_eq}
use botjim.Engine.Disk.{Disk}
use botjim.Engine.RxFile.{
  RxFile, after_write, out_of_range, expected, absorb_zero, absorb_data, absorb_body, absorb_chunk,
  after_absorb, handle_chunk, fail_file, retry_or_fail, sender_file_error,
}
use botjim.Engine.Ending.{
  commit_file, claim_result, finalize, take_id, run_finalizer, FinalFault, flush_sidecar,
  close_part,
}
use botjim.Engine.Delivery.{
  Event, frame, committed, sender_failed, verdict, finalizing, flushing, closing, step, run,
}

-- Neither the bytes nor the outcome differ.
abbrev pub SameOutcome : RxFile → RxFile → Type 0
SameOutcome f g = (g.content ≡ f.content) × (g.resolved ≡ f.resolved) × (g.errored ≡ f.errored)

-- After `n` failures of chunk `i`: one more, or the end.
abbrev pub CountsFailureOf : ℕ → ℕ → RxFile → Type 0
CountsFailureOf n i g =
    ((n < 3) × (g.resolved ≡ false) × (g.retries i ≡ n + 1))
    ⊎ ((3 ≤ n) × (g.errored ≡ true) × (g.resolved ≡ true) × (g.part_open ≡ false))

abbrev pub CountsFailure : RxFile → ℕ → RxFile → Type 0
CountsFailure f i g = CountsFailureOf (f.retries i) i g

module _ (sha256 : Bytes → Bytes) (decompress : Bytes → ℤ → Option Bytes) (negotiated : Bool) where
  handle_chunk-stale :
      (fault : Option ℕ) (f : RxFile) (hdr : ChunkHeader) (payload : Bytes)
      → f.resolved ≡ true
      → handle_chunk sha256 decompress negotiated fault f hdr payload ≡ f
  unfolding handle_chunk absorb_chunk after_absorb
  handle_chunk-stale fault f hdr payload done =
      let stale : (f.errored || f.resolved) ≡ true = ground arith in rw stale refl

  take_id-stale :
      (fsync : Bool) (fault : Option FinalFault) (f : RxFile) (k : ℕ)
      → f.resolved ≡ true
      → SameOutcome f (take_id fsync fault f k)
  unfolding take_id finalize
  take_id-stale fsync fault f zero done = (refl, refl, refl)
  take_id-stale fsync fault f (suc k) done =
      let stale : ((f.resolved || f.errored) || not f.part_open) ≡ true = ground arith in
      rw stale (refl, refl, refl)

  flush_sidecar-stale : (f : RxFile) → SameOutcome f (flush_sidecar f).0
  unfolding flush_sidecar
  flush_sidecar-stale f = elim (Bool-cases (f.dirty && f.part_open)) [
    | inl e ↦ rw e (refl, refl, refl)
    | inr e ↦ rw e (refl, refl, refl)
  ]

  step-stale :
      (f : RxFile) (e : Event)
      → f.resolved ≡ true
      → SameOutcome f (step sha256 decompress negotiated f e)
  unfolding step commit_file claim_result sender_file_error run_finalizer flush_sidecar close_part
  step-stale f (frame fault hdr payload) done =
      rw (handle_chunk-stale fault f hdr payload done) (refl, refl, refl)
  step-stale f committed done =
      let stale : (f.resolved || f.errored) ≡ true = ground arith in rw stale (refl, refl, refl)
  step-stale f (verdict verified) done =
      let stale : ((f.errored || f.resolved) || not f.adopted) ≡ true = ground arith in
      rw stale (refl, refl, refl)
  step-stale f sender_failed done =
      let stale : (not f.resolved && not f.errored) ≡ false = ground arith in
      rw stale (refl, refl, refl)
  step-stale f (finalizing fsync fault) done = take_id-stale fsync fault f f.queued done
  step-stale f flushing done = flush_sidecar-stale f
  step-stale f closing done = (refl, refl, refl)

  -- Once a file is resolved, no sequence of events changes its bytes or its outcome.
  pub run-stale :
      (es : List Event) (f : RxFile)
      → f.resolved ≡ true
      → SameOutcome f (run sha256 decompress negotiated f es)
  unfolding run
  run-stale [] f done = (refl, refl, refl)
  run-stale (e ∷ es) f done =
      let (bytes, resolved, errored) = step-stale f e done in
      let (bytes', resolved', errored') =
        run-stale es (step sha256 decompress negotiated f e) (resolved ∙ done) in
      (bytes' ∙ bytes, resolved' ∙ resolved, errored' ∙ errored)

  -- A refused frame changes at most bytes of the part.
  abbrev Refused : RxFile → RxFile × Bool → Type 0
  Refused f r =
      r.1 ≡ false
      → (r.0.retries ≡ f.retries) × (r.0.resolved ≡ f.resolved) × (r.0.errored ≡ f.errored)

  after_write-Refused :
      (f : RxFile) (i : ℕ) (h : Bytes) (z : Bool) (w : Disk × Bool)
      → Refused f (after_write f i h z w)
  unfolding after_write
  after_write-Refused f i h z (d, true) e = absurd cc
  after_write-Refused f i h z (d, false) e = (refl, refl, refl)

  absorb_zero-Refused : (fault : Option ℕ) (f : RxFile) (i : ℕ) → Refused f (absorb_zero fault f i)
  unfolding absorb_zero
  absorb_zero-Refused fault f i = elim (Bool-cases (int_eq (expected f i) (pos 0))) [
    | inl none_expected ↦ rw none_expected (λ e. absurd cc)
    | inr some_expected ↦ rw some_expected (after_write-Refused f i zero_hash true _)
  ]

  absorb_data-Refused :
      (fault : Option ℕ) (f : RxFile) (i : ℕ) (o : Option Bytes)
      → Refused f (absorb_data sha256 fault f i o)
  unfolding absorb_data
  absorb_data-Refused fault f i none e = (refl, refl, refl)
  absorb_data-Refused fault f i (some chunk) e = after_write-Refused f i _ false _ e

  absorb_body-Refused :
      (fault : Option ℕ) (f : RxFile) (hdr : ChunkHeader) (o : StreamError ⊎ Bytes)
      → Refused f (absorb_body sha256 decompress fault f hdr o)
  unfolding absorb_body
  absorb_body-Refused fault f hdr (inl err) = λ e. (refl, refl, refl)
  absorb_body-Refused fault f hdr (inr body) =
      elim (Bool-cases (not f.part_open || (have f.sc (pos hdr.chunk_idx) && not f.adopted))) [
        | inl dropped ↦ rw dropped (λ e. absurd cc)
        | inr taken ↦ elim (Bool-cases (test_bit hdr.flags zero_flag)) [
          | inl zeros ↦ rw (taken, zeros) (absorb_zero-Refused fault f hdr.chunk_idx)
          | inr bytes ↦ rw (taken, bytes) (absorb_data-Refused fault f hdr.chunk_idx _)
        ]
      ]

  absorb_chunk-Refused :
      (fault : Option ℕ) (f : RxFile) (hdr : ChunkHeader) (payload : Bytes)
      → Refused f (absorb_chunk sha256 decompress negotiated fault f hdr payload)
  unfolding absorb_chunk
  absorb_chunk-Refused fault f hdr payload = elim (Bool-cases (f.errored || f.resolved)) [
    | inl stale ↦ rw stale (λ e. absurd cc)
    | inr live ↦ elim (Bool-cases (out_of_range (count (entry_grid f.entry)) hdr.chunk_idx)) [
      | inl out ↦ rw (live, out) (λ e. (refl, refl, refl))
      | inr inside ↦ rw (live, inside) (absorb_body-Refused fault f hdr _)
    ]
  ]

  retry_or_fail-counts :
      (f : RxFile) (i : ℕ)
      → f.errored ≡ false
      → f.resolved ≡ false
      → CountsFailure f i (retry_or_fail f i)
  unfolding retry_or_fail fail_file
  retry_or_fail-counts f i unharmed unresolved =
      let live : (f.errored || f.resolved) ≡ false = ground arith in
      let self : (i == i) ≡ true = ground arith in
      elim (few_or_many (f.retries i)) [
        | inl few ↦
            let under : ltb 3 (f.retries i + 1) ≡ false = ground arith in
            inl (rw (live, under) (few, unresolved, rw self refl))
        | inr many ↦
            let over : ltb 3 (f.retries i + 1) ≡ true = ground arith in
            inr (rw (live, over) (many, refl, refl, refl))
      ]
    where
      few_or_many : (n : ℕ) → (n < 3) ⊎ (3 ≤ n)
      few_or_many n = omega arith

  counted_after :
      (f : RxFile) (i : ℕ) (r : RxFile × Bool)
      → r.1 ≡ false
      → f.errored ≡ false
      → f.resolved ≡ false
      → Refused f r
      → CountsFailure f i (after_absorb i r)
  unfolding after_absorb
  counted_after f i (g, true) e unharmed unresolved kept = absurd cc
  counted_after f i (g, false) e unharmed unresolved kept =
      let (same, still, sound) = kept refl in
      subst (λ m. CountsFailureOf m i (retry_or_fail g i)) (ap (λ m. m i) same)
        (retry_or_fail-counts g i (sound ∙ unharmed) (still ∙ unresolved))

  -- A frame that absorbChunk refuses counts as a failure of its chunk; the fourth one fails the file and closes its part.
  pub refused_frame :
      (fault : Option ℕ) (f : RxFile) (hdr : ChunkHeader) (payload : Bytes)
      → f.errored ≡ false
      → f.resolved ≡ false
      → (absorb_chunk sha256 decompress negotiated fault f hdr payload).1 ≡ false
      → CountsFailure f hdr.chunk_idx
          (handle_chunk sha256 decompress negotiated fault f hdr payload)
  unfolding handle_chunk
  refused_frame fault f hdr payload unharmed unresolved refused =
      counted_after f hdr.chunk_idx _ refused unharmed unresolved
        (absorb_chunk-Refused fault f hdr payload)
