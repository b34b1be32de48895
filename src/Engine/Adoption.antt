-- ===== src/Engine/Adoption.antt =====
-- A final that is adopted as its own part, a part without a sidecar and a new part start sound.
use botjim.Prelude.{
  ℕ, ◌<◌, ◌≡◌, inl, inr, ◌∙◌, refl, sym, ap, arith, Bool, true, false, Bytes, Bool-cases,
}
use botjim.Prelude.Int.{pos}
use botjim.Manifest.{Entry}
use botjim.Chunking.{all_zero, chunk_sha}
use botjim.Chunking.Tiling.{grid_of, count_lem, offset_lem, len_lem}
use botjim.Sidecar.{Sidecar, hashed, new, entry_grid, entry_chunks, have}
use botjim.Sidecar.Invariant.{IsValid, new-IsValid, have-new, have_count-positive}
use botjim.Engine.Disk.{Disk}
use botjim.Engine.RxFile.{RxFile, has_arrived}
use botjim.Engine.Opening.{chunk_at, hash_chunk, hash_into, adopt_final, prepared, open_fresh}
use botjim.Engine.Table.{Job, IsFit, chunks, mark_at, chunk_of, identity, mark_at-set_have_self}
use botjim.Engine.Loops.{OnlyAt, same-OnlyAt, set_have-OnlyAt, for_chunks-IsLoop}
use botjim.Engine.TableSteps.{Settled-IsTable}
use botjim.Engine.Sound.{IsSound, pending, queue_complete-IsSound}

-- The entry has the job's path and sizes.
pub record IsEntryOf (job : Job) (e : Entry) : Type 0 where
  pub path : e.rel_path ≡ job.rel_path
  pub grid : entry_grid e ≡ grid_of job.size job.chunk

pub chunk_count-new : (e : Entry) (nonce : Bytes) → (new e nonce).chunk_count ≡ entry_chunks e
unfolding new
chunk_count-new e nonce = refl

hash_chunk-OnlyAt :
    (sha256 : Bytes → Bytes) (rel_path : Bytes) (readable : ℕ → Bool) (chunk : ℕ → Bytes) (i : ℕ)
    (s : Sidecar)
    → IsValid s
    → i < s.chunk_count
    → OnlyAt i s (hash_chunk sha256 rel_path readable chunk i s)
unfolding hash_chunk
hash_chunk-OnlyAt sha256 rel_path readable chunk i s v k = elim (Bool-cases (readable i)) [
  | inr torn ↦ rw torn (same-OnlyAt i s v)
  | inl there ↦ elim (Bool-cases (all_zero (chunk i))) [
    | inl zeros ↦ rw (there, zeros) (same-OnlyAt i s v)
    | inr bytes ↦ rw (there, bytes) (set_have-OnlyAt i s _ false v k).0
  ]
]

-- A chunk that the body marks has the hash of its bytes on disk.
hash_chunk-mark :
    (sha256 : Bytes → Bytes) (rel_path : Bytes) (readable : ℕ → Bool) (chunk : ℕ → Bytes) (i : ℕ)
    (s : Sidecar)
    → IsValid s
    → i < s.chunk_count
    → have s (pos i) ≡ false
    → have (hash_chunk sha256 rel_path readable chunk i s) (pos i) ≡ true
    → mark_at (hash_chunk sha256 rel_path readable chunk i s) i
      ≡ hashed (chunk_sha sha256 rel_path i (chunk i))
unfolding hash_chunk
hash_chunk-mark sha256 rel_path readable chunk i s v k before = elim (Bool-cases (readable i)) [
  | inr torn ↦ rw torn (λ after. absurd cc)
  | inl there ↦ elim (Bool-cases (all_zero (chunk i))) [
    | inl zeros ↦ rw (there, zeros) (λ after. absurd cc)
    | inr bytes ↦ rw (there, bytes) (λ after. mark_at-set_have_self s i _ false v k)
  ]
]

module _ (job : Job) (fit : IsFit job) (e : Entry) (of : IsEntryOf job e) where
  pub entry_chunks_lem : entry_chunks e ≡ chunks job
  entry_chunks_lem =
      rw (of.grid, count_lem job.size job.chunk fit.some_chunk fit.chunk_small fit.size_small) refl

  pub chunk_at_lem :
      (d : Disk) (i : ℕ) → i < chunks job → chunk_at (entry_grid e) d i ≡ chunk_of job d i
  chunk_at_lem d i h =
      rw
        (
          of.grid,
          offset_lem job.size job.chunk fit.some_chunk fit.chunk_small fit.size_small i h,
          len_lem job.size job.chunk fit.some_chunk fit.chunk_small fit.size_small i h,
        )
        refl

  pub identity_lem :
      (d : Disk) (i : ℕ)
      → i < chunks job
      → chunk_sha job.sha256 e.rel_path i (chunk_at (entry_grid e) d i) ≡ identity job d i
  identity_lem d i h =
      let path = of.path in
      let bytes = chunk_at_lem d i h in
      ap (λ p. chunk_sha job.sha256 p i (chunk_at (entry_grid e) d i)) path
      ∙ ap (λ b. chunk_sha job.sha256 job.rel_path i b) bytes

  -- What hashInto marks in a new sidecar are claims about the bytes on disk.
  pub hash_into_lem :
      (readable : ℕ → Bool) (d : Disk) (nonce : Bytes)
      → IsValid (hash_into job.sha256 readable d e (new e nonce))
        × ((hash_into job.sha256 readable d e (new e nonce)).chunk_count ≡ chunks job)
        × ((i : ℕ)
            → i < chunks job
            → have (hash_into job.sha256 readable d e (new e nonce)) (pos i) ≡ true
            → mark_at (hash_into job.sha256 readable d e (new e nonce)) i
              ≡ hashed (identity job d i))
  unfolding hash_into
  hash_into_lem readable d nonce =
      let body = hash_chunk job.sha256 e.rel_path readable (chunk_at (entry_grid e) d) in
      let w =
        for_chunks-IsLoop body (new e nonce)
          (λ i r v same k.
            hash_chunk-OnlyAt job.sha256 e.rel_path readable (chunk_at (entry_grid e) d) i r v k)
          (entry_chunks e) (new-IsValid e nonce) (omega (arith, chunk_count-new e nonce)) in
      (
        w.books,
        w.same_count ∙ chunk_count-new e nonce ∙ entry_chunks_lem,
        λ i h there.
            let (r, v, same, before, _, after, mark) = w.done i (omega (arith, entry_chunks_lem)) in
            mark
            ∙ hash_chunk-mark job.sha256 e.rel_path readable (chunk_at (entry_grid e) d) i r v
                (omega (arith, same, chunk_count-new e nonce, entry_chunks_lem))
                (before ∙ have-new e nonce (pos i)) (sym after ∙ there)
            ∙ ap hashed (identity_lem d i h),
      )

  -- A file that starts with claims about the old bytes, which the sender will judge.
  pub claiming-IsSound :
      (f : RxFile)
      → f.entry ≡ e
      → f.content ≡ job.old
      → IsValid f.sc
      → f.sc.chunk_count ≡ chunks job
      → ((i : ℕ)
          → i < chunks job
          → have f.sc (pos i) ≡ true
          → (pending f ≡ true)
            × (has_arrived f.arrived i ≡ false)
            × (job.claimed i ≡ true)
            × (mark_at f.sc i ≡ hashed (identity job job.old i)))
      → f.may_stale ≡ true
      → f.queued ≡ 0
      → f.resolved ≡ false
      → IsSound job f
  claiming-IsSound f same there books count claims stale idle active = record {
    path = ap (λ x. x.rel_path) same ∙ of.path;
    grid = ap entry_grid same ∙ of.grid;
    table = record { books = books; grid_count = count; held = λ i h k. inr (claims i h k) };
    toward = λ b. inl (ap (λ d. d b) there);
    blank = λ fresh. absurd cc;
    ready = λ q. absurd (omega (arith, idle));
    final = λ r _. absurd cc;
  }

  -- A final adopted under FeatClaimAck, whatever its bytes.
  pub adopt_final-IsSound :
      (readable : ℕ → Bool) (nonce : Bytes)
      → ((i : ℕ)
          → have (hash_into job.sha256 readable job.old e (new e nonce)) (pos i) ≡ true
          → job.claimed i ≡ true)
      → IsSound job (adopt_final job.sha256 readable true job.old e nonce)
  unfolding adopt_final has_arrived
  adopt_final-IsSound readable nonce claimed =
      let (books, count, marks) = hash_into_lem readable job.old nonce in
      claiming-IsSound _ refl refl books count
        (λ i h k.
          let positive = have_count-positive _ i books (omega (arith, count)) k in
          (ground (arith, positive), refl, claimed i k, marks i h k))
        refl refl refl

  -- A new part, all hole.
  pub open_fresh-IsSound :
      (nonce : Bytes) → ((b : ℕ) → job.old b ≡ 0) → IsSound job (open_fresh e nonce)
  unfolding open_fresh prepared
  open_fresh-IsSound nonce hole = queue_complete-IsSound job fit _ (record {
    path = of.path;
    grid = of.grid;
    table =
        Settled-IsTable job fit _ _ _ _ (new-IsValid e nonce)
          (chunk_count-new e nonce ∙ entry_chunks_lem)
          (λ i h k. absurd (let never = have-new e nonce (pos i) in cc (k, never)));
    toward = λ b. inl (sym (hole b));
    blank = λ _. hole;
    ready = λ q. absurd (omega (arith, q));
    final = λ r _. absurd cc;
  })
