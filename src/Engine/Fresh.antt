-- ===== src/Engine/Fresh.antt =====
-- A new file from its first frame to the finalizer.
use mathlib.Core.Path.{subst}
use botjim.Prelude.{
  ℕ, zero, suc, ◌+◌, ◌-◌, ◌<◌, ◌≡◌, ◌∙◌, inl, inr, refl, sym, arith, Bool, false, Bytes, Bool-cases,
}
use botjim.Prelude.Int.{pos}
use botjim.Manifest.{Entry}
use botjim.Chunking.Tiling.{in_its_chunk}
use botjim.Sidecar.{new, complete}
use botjim.Sidecar.Invariant.{new-IsValid, have-new, complete_iff}
use botjim.Compress.{Codec}
use botjim.Compress.RoundTrip.{IsCodec}
use botjim.Engine.RxFile.{RxFile, is_complete}
use botjim.Engine.Opening.{prepared, queue_complete, open_fresh}
use botjim.Engine.Table.{Job, IsFit, chunks}
use botjim.Engine.Sound.{IsSound, Whole}
use botjim.Engine.Adoption.{IsEntryOf, open_fresh-IsSound, chunk_count-new, entry_chunks_lem}
use botjim.Engine.Closing.{run_finalizer-IsSound}
use botjim.Engine.Delivery.{run}
use botjim.Engine.Progress.{
  IsUnderWay, delivery, delivery_next, delivery_end, delivery-Finished, Finished, frame-IsSound,
}

module _ (job : Job) (fit : IsFit job) (codec : Codec) (v : IsCodec job.chunk codec)
    (sparse with_sum fsync : Bool) (file_id : ℕ) where
  delivery-IsSound :
      (n : ℕ) (f : RxFile) (k : ℕ)
      → IsSound job f
      → IsSound job (
          run job.sha256 codec.decompress with_sum f
            (delivery job fit codec v sparse with_sum fsync file_id k n))
  delivery-IsSound zero f k s =
      rw (delivery_end job fit codec v sparse with_sum fsync file_id f k)
        (run_finalizer-IsSound job fit fsync _ f s)
  delivery-IsSound (suc n) f k s =
      rw (delivery_next job fit codec v sparse with_sum fsync file_id f k n) (
        delivery-IsSound n _ (k + 1)
          (frame-IsSound job fit codec v sparse with_sum fsync file_id f k s))

module _ (job : Job) (fit : IsFit job) (e : Entry) (of : IsEntryOf job e) (nonce : Bytes)
    (some_byte : 0 < job.size) where
  some_chunk : 0 < chunks job
  some_chunk =
      let (inside, _, _) =
        in_its_chunk job.size job.chunk fit.some_chunk fit.chunk_small fit.size_small 0 some_byte in
      omega (arith, inside)

  new_count : (new e nonce).chunk_count ≡ chunks job
  new_count = chunk_count-new e nonce ∙ entry_chunks_lem job fit e of

  new_incomplete : complete (new e nonce) ≡ false
  new_incomplete = elim (Bool-cases (complete (new e nonce))) [
    | inr part ↦ part
    | inl full ↦
        let there =
          (complete_iff (new e nonce) (new-IsValid e nonce)).0 full 0
            (omega (arith, new_count, some_chunk)) in
        let missing = have-new e nonce (pos 0) in absurd (cc (there, missing))
  ]

  fresh_is_prepared : open_fresh e nonce ≡ prepared e (λ b. 0) (new e nonce) false
  unfolding open_fresh queue_complete is_complete prepared
  fresh_is_prepared = rw new_incomplete refl

  prepared-IsUnderWay : IsUnderWay job 0 (prepared e (λ b. 0) (new e nonce) false)
  unfolding prepared
  prepared-IsUnderWay = record {
    part_open = refl;
    unresolved = refl;
    unharmed = refl;
    own_part = refl;
    no_claims = refl;
    unqueued = refl;
    books = new-IsValid e nonce;
    grid_count = new_count;
    present = λ j hj. have-new e nonce (pos j) ∙ ground arith;
  }

  fresh-IsUnderWay : IsUnderWay job 0 (open_fresh e nonce)
  fresh-IsUnderWay = subst (IsUnderWay job 0) (sym fresh_is_prepared) prepared-IsUnderWay

  -- A new part of a file that is not empty, to which the sender's frames of all chunks come in order on a disk that works, is
  -- resolved by the finalizer without an error and holds the source, with any codec that gives back chunks of that size, with
  -- holes and sums or without.
  pub fresh_delivery :
      (codec : Codec) (v : IsCodec job.chunk codec) (sparse with_sum fsync : Bool)
      → ((b : ℕ) → job.old b ≡ 0)
      → Finished job fit codec v sparse with_sum fsync e.id (
          run job.sha256 codec.decompress with_sum
            (open_fresh e nonce)
            (delivery job fit codec v sparse with_sum fsync e.id 0 (chunks job)))
        × Whole job
            (run job.sha256 codec.decompress with_sum
              (open_fresh e nonce)
              (delivery job fit codec v sparse with_sum fsync e.id 0 (chunks job))).content
  fresh_delivery codec v sparse with_sum fsync hole =
      let sound = open_fresh-IsSound job fit e of nonce hole in
      let more : chunks job ≡ suc (chunks job - 1) = omega (arith, some_chunk) in
      let finished : Finished job fit codec v sparse with_sum fsync e.id (
          run job.sha256 codec.decompress with_sum (open_fresh e nonce)
            (delivery job fit codec v sparse with_sum fsync e.id 0 (chunks job))) =
        subst
          (λ m. Finished job fit codec v sparse with_sum fsync e.id (
            run job.sha256 codec.decompress with_sum (open_fresh e nonce)
              (delivery job fit codec v sparse with_sum fsync e.id 0 m)))
          (sym more)
          (delivery-Finished job fit codec v sparse with_sum fsync e.id (chunks job - 1)
            (open_fresh e nonce) 0 (omega (arith, more)) sound fresh-IsUnderWay) in
      let whole =
        (delivery-IsSound job fit codec v sparse with_sum fsync e.id (chunks job)
          (open_fresh e nonce) 0 sound).final in
      (finished, whole finished.0 finished.1)
