-- ===== src/Engine/Progress.antt =====
-- A new file whose chunks all arrive on a disk that works is finished, and is the source.
use mathlib.Core.Path.{subst}
use botjim.Prelude.{
  ℕ, zero, suc, ◌+◌, ◌<◌, ◌≡◌, inl, inr, ◌∙◌, refl, arith, Bool, true, false, not, ◌&&◌, ◌||◌, List,
  [], ◌∷◌, Bytes, ltb, none, Bool-cases,
}
use botjim.Prelude.Int.{pos}
use botjim.Protocol.Data.{ChunkHeader}
use botjim.Sidecar.{have, set_have, complete}
use botjim.Sidecar.Invariant.{IsValid, have-set_have, complete_iff, set_have-IsValid}
use botjim.Compress.{Codec}
use botjim.Compress.RoundTrip.{IsCodec}
use botjim.Engine.Disk.{Disk}
use botjim.Engine.RxFile.{
  RxFile, note_arrival, queue_finalize, is_complete, maybe_complete, mark_chunk, handle_chunk,
}
use botjim.Engine.Ending.{strikes, finalize, take_id, run_finalizer}
use botjim.Engine.Table.{Job, IsFit, chunks, chunk_of, chunk_count-set_have}
use botjim.Engine.TxFile.{outgoing}
use botjim.Engine.Sound.{IsSound}
use botjim.Engine.Absorb.{handle_chunk-IsSound}
use botjim.Engine.Frames.{received, outgoing-IsHonestFrame}
use botjim.Engine.Arrival.{outgoing-Carries, handle_chunk-lands}
use botjim.Engine.Delivery.{Event, frame, finalizing, step, run}

-- Where the finalizer will finish the file.
pub record IsReady (f : RxFile) : Type 0 where
  pub part_open : f.part_open ≡ true
  pub unresolved : f.resolved ≡ false
  pub unharmed : f.errored ≡ false
  pub queued : 0 < f.queued

finalize-resolves :
    (fsync : Bool) (f : RxFile)
    → f.part_open ≡ true
    → f.resolved ≡ false
    → f.errored ≡ false
    → ((finalize fsync none f).resolved ≡ true) × ((finalize fsync none f).errored ≡ false)
unfolding finalize strikes
finalize-resolves fsync f opened unresolved unharmed =
    let goes_on : ((f.resolved || f.errored) || not f.part_open) ≡ false = ground arith in
    rw goes_on (refl, unharmed)

pub run_finalizer-resolves :
    (fsync : Bool) (f : RxFile)
    → IsReady f
    → ((run_finalizer fsync none f).resolved ≡ true)
      × ((run_finalizer fsync none f).errored ≡ false)
unfolding run_finalizer take_id
run_finalizer-resolves fsync f v = from f.queued v.queued
  where
    from :
        (k : ℕ)
        → 0 < k
        → ((take_id fsync none f k).resolved ≡ true) × ((take_id fsync none f k).errored ≡ false)
    from zero h = absurd (omega (arith, h))
    from (suc k) h =
        finalize-resolves fsync (record f { queued = k }) v.part_open v.unresolved v.unharmed

module _ (job : Job) where
  -- The first `k` chunks are there and the others are not.
  pub record IsUnderWay (k : ℕ) (f : RxFile) : Type 0 where
    pub part_open : f.part_open ≡ true
    pub unresolved : f.resolved ≡ false
    pub unharmed : f.errored ≡ false
    pub own_part : f.adopted ≡ false
    pub no_claims : f.await_claims ≡ false
    pub unqueued : f.final_queued ≡ false
    pub books : IsValid f.sc
    pub grid_count : f.sc.chunk_count ≡ chunks job
    pub present : (j : ℕ) → j < chunks job → have f.sc (pos j) ≡ ltb j k

  marked_next :
      (f : RxFile) (k : ℕ) (d : Disk) (h : Bytes) (z : Bool)
      → k < chunks job
      → IsUnderWay k f
      → IsUnderWay (suc k) (record f {
        content = d;
        sc = set_have f.sc (pos k) h z;
        dirty = true;
        arrived = note_arrival f.arrived k;
      })
  marked_next f k d h z inside v = record {
    part_open = v.part_open;
    unresolved = v.unresolved;
    unharmed = v.unharmed;
    own_part = v.own_part;
    no_claims = v.no_claims;
    unqueued = v.unqueued;
    books = (set_have-IsValid f.sc (pos k) h z v.books).0;
    grid_count = (chunk_count-set_have f.sc k h z).0 ∙ v.grid_count;
    present = λ j hj.
        (have-set_have f.sc k j h z v.books (omega (arith, v.grid_count, inside))).0
        ∙ ground (arith, v.present j hj);
  }

  -- A chunk is missing, or none is.
  complete_at :
      (f : RxFile) (k : ℕ)
      → IsUnderWay k f
      → (k < chunks job → complete f.sc ≡ false) × (k ≡ chunks job → complete f.sc ≡ true)
  complete_at f k v = (
    λ h. elim (Bool-cases (complete f.sc)) [
      | inr e ↦ e
      | inl e ↦
          let there = (complete_iff f.sc v.books).0 e k (omega (arith, v.grid_count, h)) in
          let missing = v.present k h in absurd (ground (arith, there, missing))
    ],
    λ h.
        (complete_iff f.sc v.books).1 (λ j hj.
          v.present j (omega (arith, v.grid_count, hj)) ∙ ground (arith, v.grid_count, hj)),
  )

  maybe_complete-later :
      (f : RxFile) (k : ℕ) → k < chunks job → IsUnderWay k f → maybe_complete f ≡ f
  unfolding maybe_complete is_complete
  maybe_complete-later f k h v =
      let part : complete f.sc ≡ false = (complete_at f k v).0 h in rw part refl

  maybe_complete-IsReady : (f : RxFile) → IsUnderWay (chunks job) f → IsReady (maybe_complete f)
  unfolding maybe_complete is_complete queue_finalize
  maybe_complete-IsReady f v =
      let full : complete f.sc ≡ true = (complete_at f (chunks job) v).1 refl in
      let goes : ((complete f.sc && (not f.await_claims || f.claims_resolved))
            && not f.final_queued)
          ≡ true =
        ground (arith, full, v.no_claims, v.unqueued) in
      rw goes (record {
        part_open = v.part_open;
        unresolved = v.unresolved;
        unharmed = v.unharmed;
        queued = omega arith;
      })

-- A frame for each of the `n` chunks from `i` on, in order, and the finalizer at the end.
module _ (job : Job) (fit : IsFit job) (codec : Codec) (v : IsCodec job.chunk codec)
    (sparse with_sum fsync : Bool) (file_id : ℕ) where
  abbrev pub wire : ℕ → ChunkHeader × Bytes
  wire i = received with_sum (outgoing sparse codec.compress file_id i (chunk_of job job.source i))

  abbrev pub delivery : ℕ → ℕ → List Event
  delivery i zero = finalizing fsync none ∷ []
  delivery i (suc n) = frame none (wire i).0 (wire i).1 ∷ delivery (i + 1) n

  abbrev pub Finished : RxFile → Type 0
  Finished f = (f.resolved ≡ true) × (f.errored ≡ false)

  chunk_lands :
      (f : RxFile) (k : ℕ)
      → k < chunks job
      → IsSound job f
      → IsUnderWay job k f
      → (g : RxFile) × IsUnderWay job (suc k) g
        × (handle_chunk job.sha256 codec.decompress with_sum none f (wire k).0 (wire k).1
            ≡ maybe_complete g)
  unfolding mark_chunk
  chunk_lands f k h s w =
      let (d, hash, z, same) =
        handle_chunk-lands job fit codec v with_sum f k _ _ h s
          (record {
            part_open = w.part_open;
            live = ground (arith, w.unresolved, w.unharmed);
            missing = ground (arith, w.present k h);
          })
          (outgoing-Carries job fit codec v sparse file_id k) in
      (_, marked_next job f k d hash z h w, same)

  pub frame-IsSound :
      (f : RxFile) (k : ℕ)
      → IsSound job f
      → IsSound job (handle_chunk job.sha256 codec.decompress with_sum none f (wire k).0 (wire k).1)
  frame-IsSound f k s =
      handle_chunk-IsSound job fit codec.decompress with_sum none f (wire k).0 (wire k).1
        (outgoing-IsHonestFrame job fit codec v sparse with_sum file_id k) s

  pub delivery_next :
      (f : RxFile) (k n : ℕ)
      → run job.sha256 codec.decompress with_sum f (delivery k (suc n))
        ≡ run job.sha256 codec.decompress with_sum
            (handle_chunk job.sha256 codec.decompress with_sum none f (wire k).0 (wire k).1)
            (delivery (k + 1) n)
  unfolding run step
  delivery_next f k n = refl

  pub delivery_end :
      (f : RxFile) (k : ℕ)
      → run job.sha256 codec.decompress with_sum f (delivery k zero) ≡ run_finalizer fsync none f
  unfolding run step
  delivery_end f k = refl

  pub delivery-Finished :
      (n : ℕ) (f : RxFile) (k : ℕ)
      → k + suc n ≡ chunks job
      → IsSound job f
      → IsUnderWay job k f
      → Finished (run job.sha256 codec.decompress with_sum f (delivery k (suc n)))
  delivery-Finished zero f k e s w =
      let (g, w', same) = chunk_lands f k (omega (arith, e)) s w in
      let all : suc k ≡ chunks job = omega (arith, e) in
      let ready = maybe_complete-IsReady job g (subst (λ m. IsUnderWay job m g) all w') in
      rw (delivery_next f k zero, same, delivery_end (maybe_complete g) (k + 1))
        (run_finalizer-resolves fsync (maybe_complete g) ready)
  delivery-Finished (suc n) f k e s w =
      let (g, w', same) = chunk_lands f k (omega (arith, e)) s w in
      let later = maybe_complete-later job g (suc k) (omega (arith, e)) w' in
      let sound : IsSound job g = rw (same, later) at (frame-IsSound f k s) in
      let next : suc k ≡ k + 1 = omega arith in
      rw (delivery_next f k (suc n), same, later)
        (delivery-Finished n g (k + 1) (omega (arith, e)) sound
          (subst (λ m. IsUnderWay job m g) next w'))
