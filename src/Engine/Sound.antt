-- ===== src/Engine/Sound.antt =====
-- What holds of a file of the receiver between two handlers, and the handlers that only queue, fail or
-- close it.
use botjim.Prelude.{
  ℕ, ◌+◌, ◌<◌, ◌≡◌, inl, inr, ◌∙◌, arith, Bool, true, false, not, ◌&&◌, ◌||◌, Bytes, ltb,
  Bool-cases,
}
use botjim.Chunking.Tiling.{grid_of}
use botjim.Sidecar.{entry_grid, mark_of, complete}
use botjim.Engine.Disk.{Disk}
use botjim.Engine.RxFile.{
  RxFile, queue_finalize, is_complete, maybe_complete, mark_chunk, fail_file, retry_or_fail,
  sender_file_error,
}
use botjim.Engine.Opening.{queue_complete}
use botjim.Engine.Table.{Job, IsFit, chunks, Agrees, IsTrue, IsTable, Toward}
use botjim.Engine.TableSteps.{Toward-IsTable, mark-IsTable, complete-Whole}

-- The sender has yet to judge the claims.
abbrev pub pending : RxFile → Bool
pending f = f.adopted && (f.await_claims && not f.claims_resolved)

module _ (job : Job) where
  -- The part holds the source.
  abbrev pub Whole : Disk → Type 0
  Whole d = (b : ℕ) → b < job.size → d b ≡ job.source b

  pub record IsSound (f : RxFile) : Type 0 where
    pub path : f.entry.rel_path ≡ job.rel_path
    pub grid : entry_grid f.entry ≡ grid_of job.size job.chunk
    pub table : IsTable job f.sc f.content (pending f) f.arrived
    pub toward : Toward job.source job.old f.content
    pub blank : f.may_stale ≡ false → (b : ℕ) → job.old b ≡ 0
    pub ready : 0 < f.queued → Whole f.content
    pub final : f.resolved ≡ true → f.errored ≡ false → Whole f.content

complete_parts : (f : RxFile) → is_complete f ≡ true → (complete f.sc ≡ true) × (pending f ≡ false)
unfolding is_complete
complete_parts f e = ground arith

module _ (job : Job) (fit : IsFit job) where
  Toward-Whole : (d e : Disk) → Toward job.source d e → Whole job d → Whole job e
  Toward-Whole d e t w b h = elim (t b) [ inl same ↦ same ∙ w b h | inr there ↦ there ]

  -- A write of the source's bytes.
  pub write-IsSound :
      (f : RxFile) (d : Disk)
      → Toward job.source f.content d
      → IsSound job f
      → IsSound job (record f { content = d })
  write-IsSound f d t v = record {
    path = v.path;
    grid = v.grid;
    table = Toward-IsTable job fit f.sc f.content d (pending f) f.arrived t v.table;
    toward = λ b. elim (t b) [
      | inr there ↦ inr there
      | inl same ↦ elim (v.toward b) [
        | inl kept ↦ inl (same ∙ kept)
        | inr there ↦ inr (same ∙ there)
      ]
    ];
    blank = v.blank;
    ready = λ q. Toward-Whole f.content d t (v.ready q);
    final = λ r e. Toward-Whole f.content d t (v.final r e);
  }

  -- A complete file, of which no claim is open, is whole.
  pub is_complete-Whole :
      (f : RxFile) → complete f.sc ≡ true → pending f ≡ false → IsSound job f → Whole job f.content
  is_complete-Whole f full settled v =
      complete-Whole job fit f.sc f.content (pending f) f.arrived full settled v.table

  pub queue-IsSound :
      (f : RxFile) → Whole job f.content → IsSound job f → IsSound job (queue_finalize f)
  unfolding queue_finalize
  queue-IsSound f w v = record {
    path = v.path;
    grid = v.grid;
    table = v.table;
    toward = v.toward;
    blank = v.blank;
    ready = λ q. w;
    final = v.final;
  }

  pub queue_complete-IsSound : (f : RxFile) → IsSound job f → IsSound job (queue_complete f)
  unfolding queue_complete
  queue_complete-IsSound f v = elim (Bool-cases (is_complete f)) [
    | inr e ↦ rw e v
    | inl e ↦
        let (full, settled) = complete_parts f e in
        rw e (queue-IsSound f (is_complete-Whole f full settled v) v)
  ]

  mark_queued : (f : RxFile) → IsSound job f → IsSound job (record f { final_queued = true })
  mark_queued f v = record {
    path = v.path;
    grid = v.grid;
    table = v.table;
    toward = v.toward;
    blank = v.blank;
    ready = v.ready;
    final = v.final;
  }

  pub maybe_complete-IsSound : (f : RxFile) → IsSound job f → IsSound job (maybe_complete f)
  unfolding maybe_complete
  maybe_complete-IsSound f v = elim (Bool-cases (is_complete f && not f.final_queued)) [
    | inr e ↦ rw e v
    | inl e ↦
        let (full, settled) = complete_parts f (ground arith) in
        rw e (
          queue-IsSound (record f { final_queued = true }) (is_complete-Whole f full settled v)
            (mark_queued f v))
  ]

  -- A chunk that holds the source's bytes is marked.
  pub mark_chunk-IsSound :
      (f : RxFile) (i : ℕ) (h : Bytes) (z : Bool)
      → i < chunks job
      → Agrees job f.content i
      → IsTrue job (mark_of h z) i
      → IsSound job f
      → IsSound job (mark_chunk f i h z)
  unfolding mark_chunk
  mark_chunk-IsSound f i h z k g m v = maybe_complete-IsSound _ (record {
    path = v.path;
    grid = v.grid;
    table = mark-IsTable job fit f.sc f.content (pending f) f.arrived i h z k g m v.table;
    toward = v.toward;
    blank = v.blank;
    ready = v.ready;
    final = v.final;
  })

  failed-IsSound :
      (f : RxFile)
      → IsSound job f
      → IsSound job (record f { errored = true; resolved = true; part_open = false })
  failed-IsSound f v = record {
    path = v.path;
    grid = v.grid;
    table = v.table;
    toward = v.toward;
    blank = v.blank;
    ready = v.ready;
    final = λ r e. absurd cc;
  }

  pub fail_file-IsSound : (f : RxFile) → IsSound job f → IsSound job (fail_file f)
  unfolding fail_file
  fail_file-IsSound f v = elim (Bool-cases (f.errored || f.resolved)) [
    | inl e ↦ rw e v
    | inr e ↦ rw e (failed-IsSound f v)
  ]

  pub sender_file_error-IsSound : (f : RxFile) → IsSound job f → IsSound job (sender_file_error f)
  unfolding sender_file_error
  sender_file_error-IsSound f v = elim (Bool-cases (not f.resolved && not f.errored)) [
    | inl e ↦ rw e (failed-IsSound f v)
    | inr e ↦ rw e v
  ]

  counted-IsSound :
      (f : RxFile) (r : ℕ → ℕ) → IsSound job f → IsSound job (record f { retries = r })
  counted-IsSound f r v = record {
    path = v.path;
    grid = v.grid;
    table = v.table;
    toward = v.toward;
    blank = v.blank;
    ready = v.ready;
    final = v.final;
  }

  pub retry_or_fail-IsSound : (f : RxFile) (i : ℕ) → IsSound job f → IsSound job (retry_or_fail f i)
  unfolding retry_or_fail
  retry_or_fail-IsSound f i v = elim (Bool-cases (f.errored || f.resolved)) [
    | inl e ↦ rw e v
    | inr e ↦ elim (Bool-cases (ltb 3 (f.retries i + 1))) [
      | inl over ↦ rw (e, over) (fail_file-IsSound _ (counted-IsSound f _ v))
      | inr under ↦ rw (e, under) (counted-IsSound f _ v)
    ]
  ]
