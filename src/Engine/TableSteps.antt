-- ===== src/Engine/TableSteps.antt =====
-- The table of chunks through what the handlers do to it: a write, a mark, a verdict on the claims.
use mathlib.Core.Path.{subst}
use botjim.Prelude.{
  ℕ, zero, suc, ◌*◌, ◌/◌, ◌^◌, ◌<◌, ◌≡◌, ◌≢◌, ◌⊎◌, inl, inr, ◌∙◌, ap, arith, Bool, true, false,
  Bytes, Option, Bool-cases,
}
use botjim.Prelude.Int.{pos}
use botjim.Chunking.Identity.{Collision, chunk_sha-injective}
use botjim.Chunking.Tiling.{chunk_len, in_its_chunk}
use botjim.Sidecar.{Sidecar, hashed, mark_of, have, set_have, complete}
use botjim.Sidecar.Invariant.{IsValid, set_have-IsValid, have-set_have, complete_iff}
use botjim.Engine.Disk.{Disk, slice-eq}
use botjim.Engine.RxFile.{note_arrival}
use botjim.Engine.Table.{
  Job, IsFit, chunks, Toward, Agrees, identity, IsTrue, Settled, Claimed, IsTable, mark_at-set_have,
  mark_at-set_have_self, chunk_count-set_have, has_arrived-note_arrival, IsDropped,
}

-- A list of tests, one of which may come out otherwise.
pub collect {ℓ} :
    {C : Type ℓ} (P : ℕ → Type 0) (k : ℕ)
    → ((i : ℕ) → i < k → P i ⊎ C)
    → ((i : ℕ) → i < k → P i) ⊎ C
collect P zero each = inl (λ i h. absurd (omega arith))
collect P (suc k) each = elim (collect P k (λ i h. each i (omega arith))) [
  | inr found ↦ inr found
  | inl below ↦ elim (each k (omega arith)) [
    | inr found ↦ inr found
    | inl here ↦ inl (λ i h. last P k below here i (omega arith))
  ]
]
  where
    last :
        (Q : ℕ → Type 0) (m : ℕ) → ((i : ℕ) → i < m → Q i) → Q m → (i : ℕ) → (i < m) ⊎ (m ≡ i) → Q i
    last Q m f q i (inl h) = f i h
    last Q m f q i (inr e) = rw e at q

module _ (job : Job) (fit : IsFit job) where
  abbrev Table : Sidecar → Disk → Bool → Option (ℕ → Bool) → Type 0
  Table = IsTable job

  Toward-Agrees : (d e : Disk) (i : ℕ) → Toward job.source d e → Agrees job d i → Agrees job e i
  Toward-Agrees d e i t g b x = elim (t b) [ inl same ↦ same ∙ g b x | inr there ↦ there ]

  -- Bytes of the source written over the part keep the table.
  pub Toward-IsTable :
      (s : Sidecar) (d e : Disk) (pending : Bool) (arrived : Option (ℕ → Bool))
      → Toward job.source d e
      → Table s d pending arrived
      → Table s e pending arrived
  Toward-IsTable s d e pending arrived t v = record {
    books = v.books;
    grid_count = v.grid_count;
    held = λ i h k. elim (v.held i h k) [
      | inl (g, m) ↦ inl (Toward-Agrees d e i t g, m)
      | inr claim ↦ inr claim
    ];
  }

  -- Marking chunk `i`, whose bytes are the source's and whose mark is the source's.
  pub mark-IsTable :
      (s : Sidecar) (d : Disk) (pending : Bool) (arrived : Option (ℕ → Bool)) (i : ℕ) (h : Bytes)
      (z : Bool)
      → i < chunks job
      → Agrees job d i
      → IsTrue job (mark_of h z) i
      → Table s d pending arrived
      → Table (set_have s (pos i) h z) d pending (note_arrival arrived i)
  mark-IsTable s d pending arrived i h z k g m v =
      let inside : i < s.chunk_count = omega (arith, v.grid_count) in
      let here : Settled job (set_have s (pos i) h z) d i =
        (g, rw (mark_at-set_have_self s i h z v.books inside) m) in
      let settled : (j : ℕ) → i ≡ j → Settled job (set_have s (pos i) h z) d j =
        λ j same. subst (λ k. Settled job (set_have s (pos i) h z) d k) same here in
      record {
        books = (set_have-IsValid s (pos i) h z v.books).0;
        grid_count = (chunk_count-set_have s i h z).0 ∙ v.grid_count;
        held = λ j hj e. elim (Ord-cases i j) [
          | inl same ↦ inl (settled j same)
          | inr apart ↦
              let kept = (mark_at-set_have s i j h z apart).0 in
              let was : have s (pos j) ≡ true =
                ground (arith, (have-set_have s i j h z v.books inside).0) in
              elim (v.held j hj was) [
                | inl (agrees, mark) ↦ inl (agrees, rw (← kept) at mark)
                | inr (p, fresh, cl, mark) ↦
                    inr (p, has_arrived-note_arrival arrived i j apart ∙ fresh, cl, kept ∙ mark)
              ]
        ];
      }
    where
      Ord-cases : (a b : ℕ) → (a ≡ b) ⊎ (a ≢ b)
      Ord-cases a b = omega arith

  -- With no claim open, a complete table has the whole source on disk.
  pub complete-Whole :
      (s : Sidecar) (d : Disk) (pending : Bool) (arrived : Option (ℕ → Bool))
      → complete s ≡ true
      → pending ≡ false
      → Table s d pending arrived
      → (b : ℕ) → b < job.size
      → d b ≡ job.source b
  complete-Whole s d pending arrived full settled v b h =
      let (inside, p, q) =
        in_its_chunk job.size job.chunk fit.some_chunk fit.chunk_small fit.size_small b h in
      let present = (complete_iff s v.books).0 full (b / job.chunk) (omega (arith, v.grid_count)) in
      elim (v.held (b / job.chunk) inside present) [
        | inl (agrees, mark) ↦ agrees b (p, q)
        | inr (p', _, _, _) ↦ absurd cc
      ]

  -- The old bytes of a chunk whose claim is right are the source's, unless SHA-256 collides.
  pub claim-Settled :
      (s : Sidecar) (d : Disk) (pending : Bool) (arrived : Option (ℕ → Bool)) (i : ℕ)
      → i < 2 ^ 64
      → Toward job.source job.old d
      → identity job job.old i ≡ identity job job.source i
      → Claimed job s pending arrived i
      → Settled job s d i ⊎ Collision job.sha256
  claim-Settled s d pending arrived i hi t same (p, fresh, cl, mark) =
      elim (chunk_sha-injective job.sha256 job.rel_path job.rel_path i i _ _ fit.path_small
        fit.path_small hi hi same) [
          | inr found ↦ inr found
          | inl (_, _, bytes) ↦ inl (
            λ b x. elim (t b) [
              | inl kept ↦
                  kept
                  ∙ slice-eq job.old job.source (i * job.chunk) (chunk_len job.size job.chunk i) b
                      bytes x.0 x.1
              | inr there ↦ there
            ],
            inl (mark ∙ ap hashed same),
          )
        ]

  -- Once every chunk is settled no claim is open.
  pub Settled-IsTable :
      (s : Sidecar) (d : Disk) (pending : Bool) (arrived : Option (ℕ → Bool))
      → IsValid s
      → s.chunk_count ≡ chunks job
      → ((i : ℕ) → i < chunks job → have s (pos i) ≡ true → Settled job s d i)
      → Table s d pending arrived
  Settled-IsTable s d pending arrived books same each = record {
    books = books;
    grid_count = same;
    held = λ i h k. inl (each i h k);
  }

  module _ {ℓ} {C : Type ℓ} (s : Sidecar) (d : Disk) (pending : Bool) (arrived : Option (ℕ → Bool))
      (v : Table s d pending arrived) where
    -- If the claims are judged, every chunk marked present is settled.
    pub judged-Settled :
        ((i : ℕ) → i < chunks job → Claimed job s pending arrived i → Settled job s d i ⊎ C)
        → ((i : ℕ) → i < chunks job → have s (pos i) ≡ true → Settled job s d i) ⊎ C
    judged-Settled judge =
        collect (λ i. have s (pos i) ≡ true → Settled job s d i) (chunks job)
          (λ i h. elim (Bool-cases (have s (pos i))) [
            | inr gone ↦ inl (λ e. absurd cc)
            | inl there ↦ elim (v.held i h there) [
              | inl done ↦ inl (λ _. done)
              | inr claim ↦ elim (judge i h claim) [
                | inl done ↦ inl (λ _. done)
                | inr found ↦ inr found
              ]
            ]
          ])

    -- If the claims to keep are judged, every chunk that is left is settled.
    pub dropped-Settled :
        (keep : ℕ → Bool) (r : Sidecar)
        → IsDropped keep (chunks job) s r
        → ((i : ℕ)
            → i < chunks job
            → keep i ≡ true
            → Claimed job s pending arrived i
            → Settled job s d i ⊎ C)
        → ((i : ℕ) → i < chunks job → have r (pos i) ≡ true → Settled job r d i) ⊎ C
    dropped-Settled keep r w judge =
        collect (λ i. have r (pos i) ≡ true → Settled job r d i) (chunks job)
          (λ i h. elim (Bool-cases (have r (pos i))) [
            | inr gone ↦ inl (λ e. absurd cc)
            | inl there ↦
                let was : have s (pos i) ≡ true = ground (arith, w.present i, v.grid_count) in
                let kept : keep i ≡ true = ground (arith, w.present i, v.grid_count) in
                let carried : Settled job s d i → Settled job r d i =
                  λ done. (done.0, rw (← w.marks i there) at done.1) in
                elim (v.held i h was) [
                  | inl done ↦ inl (λ _. carried done)
                  | inr claim ↦ elim (judge i h kept claim) [
                    | inl done ↦ inl (λ _. carried done)
                    | inr found ↦ inr found
                  ]
                ]
          ])
