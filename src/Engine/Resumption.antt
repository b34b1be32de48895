-- ===== src/Engine/Resumption.antt =====
-- A part of an earlier session, whose sidecar marks only chunks of the source, starts sound whatever its bytes
-- are now.
use botjim.Prelude.{
  ℕ, ◌<◌, ◌≤◌, ◌≡◌, ◌⊎◌, inl, inr, ◌∙◌, refl, sym, ap, arith, Bool, true, false, not, ◌&&◌, ltb,
  Bool-cases,
}
use botjim.Prelude.Int.{pos}
use botjim.Manifest.{Entry}
use botjim.Chunking.Identity.{Collision}
use botjim.Sidecar.{Sidecar, entry_grid, entry_chunks, have}
use botjim.Sidecar.Invariant.{IsValid, have_count-positive}
use botjim.Engine.Opening.{chunk_at, rehash_chunk, rehash_part, prepared, open_resumed}
use botjim.Engine.Table.{Job, IsFit, chunks, mark_at, IsTrue, Settled}
use botjim.Engine.TableSteps.{collect, Settled-IsTable}
use botjim.Engine.Loops.{IsLoop, for_chunks-IsLoop}
use botjim.Engine.Sound.{IsSound, queue_complete-IsSound}
use botjim.Engine.Adoption.{IsEntryOf, entry_chunks_lem, chunk_at_lem}
use botjim.Engine.Recheck.{IsTrusted, rehash_chunk-OnlyAt, rehash_chunk-Settled}

module _ (job : Job) (fit : IsFit job) (e : Entry) (of : IsEntryOf job e) (readable : ℕ → Bool)
    (s : Sidecar) (trusted : IsTrusted job fit s) where
  abbrev rehashed : Sidecar
  rehashed = rehash_part job.sha256 false readable job.old e s

  abbrev body : ℕ → Sidecar → Sidecar
  body = rehash_chunk job.sha256 e.rel_path false readable (chunk_at (entry_grid e) job.old)

  same_body :
      body ≡ rehash_chunk job.sha256 job.rel_path false readable (chunk_at (entry_grid e) job.old)
  same_body =
      ap (λ p. rehash_chunk job.sha256 p false readable (chunk_at (entry_grid e) job.old)) of.path

  enough : entry_chunks e ≤ s.chunk_count
  enough = omega (arith, trusted.grid_count, entry_chunks_lem job fit e of)

  rehashed-IsLoop : IsLoop body (entry_chunks e) s rehashed
  unfolding rehash_part
  rehashed-IsLoop =
      for_chunks-IsLoop body s
        (λ i r v same k.
          rehash_chunk-OnlyAt job.sha256 e.rel_path false readable (chunk_at (entry_grid e) job.old)
            i r v k)
        (entry_chunks e) trusted.books enough

  -- What rehashPart keeps is the source's.
  rehashed-Settled :
      ((i : ℕ) → i < chunks job → have rehashed (pos i) ≡ true → Settled job rehashed job.old i)
      ⊎ Collision job.sha256
  rehashed-Settled =
      collect (λ i. have rehashed (pos i) ≡ true → Settled job rehashed job.old i) (chunks job)
        (λ i h. elim (Bool-cases (have rehashed (pos i))) [
          | inr gone ↦ inl (λ there. absurd cc)
          | inl there ↦
              let (r, v, count, before, kept, after, mark) =
                rehashed-IsLoop.done i (omega (arith, entry_chunks_lem job fit e of)) in
              let truth : have r (pos i) ≡ true → IsTrue job (mark_at r i) i =
                λ marked. rw kept (trusted.marks i h (sym before ∙ marked)) in
              let outcome =
                rehash_chunk-Settled job fit readable (chunk_at (entry_grid e) job.old) job.old i r
                  v (omega (arith, count, trusted.grid_count)) h
                  (chunk_at_lem job fit e of job.old i h) truth in
              let checked = rw (← same_body) at outcome in
              elim (checked (sym after ∙ there)) [
                | inr found ↦ inr found
                | inl done ↦ inl (λ _. (done.0, rw (← mark) at done.1))
              ]
        ])

  -- The resumed file with a table that is settled.
  resumed-IsSound :
      (t : Sidecar) (dirty : Bool)
      → IsValid t
      → t.chunk_count ≡ chunks job
      → ((i : ℕ) → i < chunks job → have t (pos i) ≡ true → Settled job t job.old i)
      → IsSound job (record (prepared e job.old t true) { dirty = dirty })
  unfolding prepared
  resumed-IsSound t dirty books count each = record {
    path = of.path;
    grid = of.grid;
    table = Settled-IsTable job fit t job.old _ _ books count each;
    toward = λ b. inl refl;
    blank = λ fresh. absurd cc;
    ready = λ q. absurd (omega (arith, q));
    final = λ r _. absurd cc;
  }

  nothing_marked :
      ltb 0 s.have_count ≡ false
      → (i : ℕ) → i < chunks job
      → have s (pos i) ≡ true
      → Settled job s job.old i
  nothing_marked none_counted i h there =
      let positive =
        have_count-positive s i trusted.books (omega (arith, trusted.grid_count)) there in
      absurd (ground (arith, positive))

  pub open_resumed-IsSound :
      s.fully_written ≡ false
      → IsSound job (open_resumed job.sha256 readable job.old e s) ⊎ Collision job.sha256
  unfolding open_resumed
  open_resumed-IsSound partial = elim (Bool-cases (not s.fully_written && ltb 0 s.have_count)) [
    | inr skipped ↦
        let none_counted : ltb 0 s.have_count ≡ false = ground arith in
        inl (
          rw skipped (
            queue_complete-IsSound job fit _ (
              resumed-IsSound s false trusted.books trusted.grid_count
                (nothing_marked none_counted))))
    | inl checked ↦ elim rehashed-Settled [
      | inr found ↦ inr found
      | inl each ↦ inl (
          let w = rehashed-IsLoop in
          rw checked (
            queue_complete-IsSound job fit _
              (resumed-IsSound rehashed true w.books (w.same_count ∙ trusted.grid_count) each)))
    ]
  ]
