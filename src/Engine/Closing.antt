-- ===== src/Engine/Closing.antt =====
-- The finalizer and the flush of the sidecars keep a file sound, and what the flush saves is the source's.
use botjim.Prelude.{
  ℕ, zero, suc, ◌<◌, ◌≤◌, ◌≡◌, inl, inr, ◌∙◌, arith, Bool, true, false, not, ◌&&◌, ◌||◌, Option,
  none, some, Bool-cases,
}
use botjim.Prelude.Int.{pos}
use botjim.Sidecar.{Sidecar, have}
use botjim.Sidecar.Invariant.{IsValid}
use botjim.Engine.Disk.{Disk}
use botjim.Engine.RxFile.{RxFile, has_arrived}
use botjim.Engine.Ending.{
  FinalFault, sync_failed, close_failed, rename_failed, strikes, mark_written, finalize, take_id,
  run_finalizer, flush_sidecar, kept_sidecar, close_part,
}
use botjim.Engine.Table.{Job, IsFit, chunks, Settled, IsTable, drop_claims-IsDropped}
use botjim.Engine.TableSteps.{Settled-IsTable, judged-Settled, dropped-Settled}
use botjim.Engine.Sound.{IsSound, Whole, pending, fail_file-IsSound}
use botjim.Engine.Verdict.{entry_chunks_of}

module _ (job : Job) (fit : IsFit job) where
  written-IsTable :
      (s : Sidecar) (d : Disk) (p : Bool) (arrived : Option (ℕ → Bool))
      → IsTable job s d p arrived
      → IsTable job (record s { fully_written = true }) d p arrived
  unfolding have
  written-IsTable s d p arrived v = record {
    books = record {
      marks = v.books.marks;
      room = v.books.room;
      all_bytes = v.books.all_bytes;
      counted = v.books.counted;
    };
    grid_count = v.grid_count;
    held = v.held;
  }

  mark_written-IsTable :
      (fsync : Bool) (fault : Option FinalFault) (s : Sidecar) (d : Disk) (p : Bool)
      (arrived : Option (ℕ → Bool))
      → IsTable job s d p arrived
      → IsTable job (mark_written fsync fault s) d p arrived
  unfolding mark_written
  mark_written-IsTable true (some sync_failed) s d p arrived v = v
  mark_written-IsTable false (some sync_failed) s d p arrived v = written-IsTable s d p arrived v
  mark_written-IsTable fsync (some close_failed) s d p arrived v = v
  mark_written-IsTable fsync (some rename_failed) s d p arrived v = written-IsTable s d p arrived v
  mark_written-IsTable fsync none s d p arrived v = written-IsTable s d p arrived v

  taken-IsSound :
      (fsync : Bool) (fault : Option FinalFault) (f : RxFile)
      → IsSound job f
      → IsSound job (record f { part_open = false; sc = mark_written fsync fault f.sc })
  taken-IsSound fsync fault f v = record {
    path = v.path;
    grid = v.grid;
    table = mark_written-IsTable fsync fault f.sc f.content (pending f) f.arrived v.table;
    toward = v.toward;
    blank = v.blank;
    ready = v.ready;
    final = v.final;
  }

  done-IsSound :
      (f : RxFile)
      → Whole job f.content
      → IsSound job f
      → IsSound job (record f { dirty = false; resolved = true })
  done-IsSound f w v = record {
    path = v.path;
    grid = v.grid;
    table = v.table;
    toward = v.toward;
    blank = v.blank;
    ready = v.ready;
    final = λ r e. w;
  }

  finalize-IsSound :
      (fsync : Bool) (fault : Option FinalFault) (f : RxFile)
      → Whole job f.content
      → IsSound job f
      → IsSound job (finalize fsync fault f)
  unfolding finalize
  finalize-IsSound fsync fault f w v =
      elim (Bool-cases ((f.resolved || f.errored) || not f.part_open)) [
        | inl e ↦ rw e v
        | inr e ↦ elim (Bool-cases (strikes fsync f.in_place fault)) [
          | inl hit ↦ rw (e, hit) (fail_file-IsSound job fit _ (taken-IsSound fsync fault f v))
          | inr missed ↦ rw (e, missed) (done-IsSound _ w (taken-IsSound fsync fault f v))
        ]
      ]

  requeued-IsSound :
      (f : RxFile) (k : ℕ) → k ≤ f.queued → IsSound job f → IsSound job (record f { queued = k })
  requeued-IsSound f k h v = record {
    path = v.path;
    grid = v.grid;
    table = v.table;
    toward = v.toward;
    blank = v.blank;
    ready = λ q. v.ready (omega (arith, h));
    final = v.final;
  }

  take_id-IsSound :
      (fsync : Bool) (fault : Option FinalFault) (f : RxFile) (k : ℕ)
      → k ≤ f.queued
      → IsSound job f
      → IsSound job (take_id fsync fault f k)
  unfolding take_id
  take_id-IsSound fsync fault f zero h v = v
  take_id-IsSound fsync fault f (suc k) h v =
      finalize-IsSound fsync fault _ (v.ready (omega arith)) (requeued-IsSound f k (omega arith) v)

  pub run_finalizer-IsSound :
      (fsync : Bool) (fault : Option FinalFault) (f : RxFile)
      → IsSound job f
      → IsSound job (run_finalizer fsync fault f)
  unfolding run_finalizer
  run_finalizer-IsSound fsync fault f v = take_id-IsSound fsync fault f f.queued (omega arith) v

  pub close_part-IsSound : (f : RxFile) → IsSound job f → IsSound job (close_part f)
  unfolding close_part
  close_part-IsSound f v = record {
    path = v.path;
    grid = v.grid;
    table = v.table;
    toward = v.toward;
    blank = v.blank;
    ready = v.ready;
    final = v.final;
  }

  -- What is to be saved has its books right and marks only chunks that are the source's.
  pub record IsSavable (s : Sidecar) (d : Disk) : Type 0 where
    pub books : IsValid s
    pub grid_count : s.chunk_count ≡ chunks job
    pub settled : (i : ℕ) → i < chunks job → have s (pos i) ≡ true → Settled job s d i

  pub kept-IsSavable : (f : RxFile) → IsSound job f → IsSavable (kept_sidecar f) f.content
  unfolding kept_sidecar
  kept-IsSavable f v = elim (Bool-cases (f.adopted && not f.claims_resolved)) [
    | inl open_claims ↦
        let w =
          drop_claims-IsDropped (has_arrived f.arrived) (chunks job) f.sc v.table.books
            (omega (arith, v.table.grid_count)) in
        let each =
          dropped-Settled job fit {C = false ≡ true} f.sc f.content (pending f) f.arrived v.table
            (has_arrived f.arrived) _ w
            (λ i h kept claim. let (p, fresh, cl, mark) = claim in absurd cc) in
        rw (open_claims, entry_chunks_of job fit f v)
          (record {
            books = w.books;
            grid_count = w.same_count ∙ v.table.grid_count;
            settled = elim each [ inl all ↦ all | inr odd ↦ absurd cc ];
          })
    | inr judged ↦
        let settled : pending f ≡ false = ground arith in
        let each =
          judged-Settled job fit {C = false ≡ true} f.sc f.content (pending f) f.arrived v.table
            (λ i h claim. let (p, fresh, cl, mark) = claim in absurd cc) in
        rw judged (record {
          books = v.table.books;
          grid_count = v.table.grid_count;
          settled = elim each [ inl all ↦ all | inr odd ↦ absurd cc ];
        })
  ]

  pub flush_sidecar-IsSound : (f : RxFile) → IsSound job f → IsSound job (flush_sidecar f).0
  unfolding flush_sidecar
  flush_sidecar-IsSound f v = elim (Bool-cases (f.dirty && f.part_open)) [
    | inr e ↦ rw e v
    | inl e ↦
        let k = kept-IsSavable f v in
        rw e (record {
          path = v.path;
          grid = v.grid;
          table = Settled-IsTable job fit _ f.content _ f.arrived k.books k.grid_count k.settled;
          toward = v.toward;
          blank = v.blank;
          ready = v.ready;
          final = v.final;
        })
  ]
