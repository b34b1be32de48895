-- ===== src/Engine/Verdict.antt =====
-- The sender's verdict on the claims, the finalizer and the flush keep a file sound.
use botjim.Prelude.{
  ℕ, ◌^◌, ◌<◌, ◌≡◌, ◌⊎◌, inl, inr, ◌∙◌, refl, arith, Bool, true, false, not, ◌||◌, Bytes,
  Bool-cases,
}
use botjim.Prelude.Int.{pos}
use botjim.Chunking.Identity.{Collision}
use botjim.Chunking.Tiling.{count_lem, chunks_le}
use botjim.Sidecar.{Sidecar, entry_chunks, have, bit_at, complete}
use botjim.Sidecar.Invariant.{IsValid}
use botjim.Engine.RxFile.{RxFile, has_arrived}
use botjim.Engine.Ending.{commit_file, claim_result}
use botjim.Engine.Table.{Job, IsFit, chunks, Settled, Claimed, identity, drop_claims-IsDropped}
use botjim.Engine.TableSteps.{claim-Settled, Settled-IsTable, judged-Settled, dropped-Settled}
use botjim.Engine.Sound.{IsSound, pending, is_complete-Whole, queue-IsSound, maybe_complete-IsSound}

-- A claim about chunk `i` is right.
abbrev pub IsRight : Job → ℕ → Type 0
IsRight job i = job.claimed i ≡ true → identity job job.old i ≡ identity job job.source i

module _ (job : Job) (fit : IsFit job) where
  pub index_small : (i : ℕ) → i < chunks job → i < 2 ^ 64
  index_small i h = omega (
    arith,
    fit.size_small,
    chunks_le job.size job.chunk fit.some_chunk fit.chunk_small fit.size_small,
  )

  pub entry_chunks_of : (f : RxFile) → IsSound job f → entry_chunks f.entry ≡ chunks job
  entry_chunks_of f v =
      rw (v.grid, count_lem job.size job.chunk fit.some_chunk fit.chunk_small fit.size_small) refl

  -- The file with another table and its claims resolved.
  resolved-IsSound :
      (f : RxFile) (s : Sidecar) (dirty : Bool)
      → IsValid s
      → s.chunk_count ≡ chunks job
      → ((i : ℕ) → i < chunks job → have s (pos i) ≡ true → Settled job s f.content i)
      → IsSound job f
      → IsSound job (record f { sc = s; dirty = dirty; claims_resolved = true })
  resolved-IsSound f s dirty books same each v = record {
    path = v.path;
    grid = v.grid;
    table = Settled-IsTable job fit s f.content _ f.arrived books same each;
    toward = v.toward;
    blank = v.blank;
    ready = v.ready;
    final = v.final;
  }

  judge :
      (f : RxFile) (i : ℕ)
      → IsSound job f
      → i < chunks job
      → IsRight job i
      → Claimed job f.sc (pending f) f.arrived i
      → Settled job f.sc f.content i ⊎ Collision job.sha256
  judge f i v h right claim =
      let (p, fresh, cl, mark) = claim in
      claim-Settled job fit f.sc f.content (pending f) f.arrived i (index_small i h) v.toward
        (right cl) claim

  pub commit_file-IsSound :
      (f : RxFile)
      → ((i : ℕ) → i < chunks job → IsRight job i)
      → IsSound job f
      → IsSound job (commit_file f) ⊎ Collision job.sha256
  unfolding commit_file
  commit_file-IsSound f right v = elim (Bool-cases (f.resolved || f.errored)) [
    | inl e ↦ inl (rw e v)
    | inr e ↦
        elim (judged-Settled job fit f.sc f.content (pending f) f.arrived v.table
          (λ i h. judge f i v h (right i h))) [
            | inr found ↦ inr found
            | inl each ↦ inl (
                let w = resolved-IsSound f f.sc f.dirty v.table.books v.table.grid_count each v in
                elim (Bool-cases (complete f.sc)) [
                  | inr part ↦ rw (e, part) w
                  | inl full ↦
                      let settled : pending (record f { claims_resolved = true }) ≡ false =
                        ground arith in
                      rw (e, full)
                        (queue-IsSound job fit _ (is_complete-Whole job fit _ full settled w) w)
                ])
          ]
  ]

  pub claim_result-IsSound :
      (f : RxFile) (verified : Bytes)
      → ((i : ℕ) → i < chunks job → bit_at verified i ≡ true → IsRight job i)
      → IsSound job f
      → IsSound job (claim_result f verified) ⊎ Collision job.sha256
  unfolding claim_result
  claim_result-IsSound f verified right v =
      elim (Bool-cases ((f.errored || f.resolved) || not f.adopted)) [
        | inl e ↦ inl (rw e v)
        | inr e ↦
            let keep = λ (i : ℕ). bit_at verified i || has_arrived f.arrived i in
            let w =
              drop_claims-IsDropped keep (chunks job) f.sc v.table.books
                (omega (arith, v.table.grid_count)) in
            let outcome =
              dropped-Settled job fit f.sc f.content (pending f) f.arrived v.table keep _ w
                (λ i h kept claim.
                  let (p, fresh, cl, mark) = claim in
                  judge f i v h (right i h (ground arith)) claim) in
            elim outcome [
              | inr found ↦ inr found
              | inl each ↦ inl (
                  rw (e, entry_chunks_of f v)
                    (maybe_complete-IsSound job fit _
                      (resolved-IsSound f _ _ w.books (w.same_count ∙ v.table.grid_count) each v)))
            ]
      ]
