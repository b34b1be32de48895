-- ===== src/Engine/Recheck.antt =====
-- The body of rehashPart's loop on a chunk whose mark is the source's.
use botjim.Prelude.{
  ℕ, ◌*◌, ◌<◌, ◌≡◌, ◌⊎◌, inl, inr, ◌∙◌, refl, sym, ap, arith, Bool, true, false, not, [], Bytes,
  if◌then◌else◌, Bool-cases,
}
use botjim.Prelude.Int.{pos}
use botjim.Chunking.{all_zero}
use botjim.Chunking.Identity.{Collision, IsZero, all_zero_iff, chunk_sha-injective}
use botjim.Chunking.Tiling.{chunk_len}
use botjim.Protocol.Handshake.{bytes_eq}
use botjim.Protocol.HandshakeLaws.{bytes_eq→eq}
use botjim.Sidecar.{Sidecar, Mark, missing, zero_chunk, hashed, have, clear_have}
use botjim.Sidecar.Invariant.{IsValid, have-set_have}
use botjim.Engine.Disk.{Disk, slice-eq, All-slice}
use botjim.Engine.Opening.{check_mark, check_zeros, rehash_chunk}
use botjim.Engine.Table.{Job, IsFit, chunks, mark_at, chunk_of, identity, Agrees, IsTrue, Settled}
use botjim.Engine.Loops.{OnlyAt, same-OnlyAt, set_have-OnlyAt}
use botjim.Engine.Verdict.{index_small}
use botjim.Engine.Closing.{IsSavable}

check_mark-OnlyAt :
    (i : ℕ) (h : Bytes) (m : Mark) (s : Sidecar)
    → IsValid s
    → i < s.chunk_count
    → OnlyAt i s (check_mark i h m s)
unfolding check_mark
check_mark-OnlyAt i h missing s v k = (set_have-OnlyAt i s h false v k).0
check_mark-OnlyAt i h zero_chunk s v k = (set_have-OnlyAt i s h false v k).1
check_mark-OnlyAt i h (hashed w) s v k = elim (Bool-cases (bytes_eq w h)) [
  | inl same ↦ rw same (same-OnlyAt i s v)
  | inr other ↦ rw other (set_have-OnlyAt i s h false v k).1
]

check_zeros-OnlyAt :
    (rebuilt : Bool) (i : ℕ) (m : Mark) (s : Sidecar)
    → IsValid s
    → i < s.chunk_count
    → OnlyAt i s (check_zeros rebuilt i m s)
unfolding check_zeros
check_zeros-OnlyAt true i m s v k = (set_have-OnlyAt i s [] false v k).1
check_zeros-OnlyAt false i zero_chunk s v k = same-OnlyAt i s v
check_zeros-OnlyAt false i missing s v k = (set_have-OnlyAt i s [] false v k).1
check_zeros-OnlyAt false i (hashed w) s v k = (set_have-OnlyAt i s [] false v k).1

pub rehash_chunk-OnlyAt :
    (sha256 : Bytes → Bytes) (rel_path : Bytes) (rebuilt : Bool) (readable : ℕ → Bool)
    (chunk : ℕ → Bytes) (i : ℕ) (s : Sidecar)
    → IsValid s
    → i < s.chunk_count
    → OnlyAt i s (rehash_chunk sha256 rel_path rebuilt readable chunk i s)
unfolding rehash_chunk
rehash_chunk-OnlyAt sha256 rel_path rebuilt readable chunk i s v k =
    elim (Bool-cases (have s (pos i))) [
      | inr gone ↦ rw gone (same-OnlyAt i s v)
      | inl marked ↦ elim (Bool-cases (readable i)) [
        | inr torn ↦ rw (marked, torn) (set_have-OnlyAt i s [] false v k).1
        | inl there ↦ elim (Bool-cases (all_zero (chunk i))) [
          | inl zeros ↦ rw (marked, there, zeros) (check_zeros-OnlyAt rebuilt i _ s v k)
          | inr bytes ↦ rw (marked, there, bytes) (check_mark-OnlyAt i _ _ s v k)
        ]
      ]
    ]

pub cleared :
    (i : ℕ) (s : Sidecar)
    → IsValid s
    → i < s.chunk_count
    → have (clear_have s (pos i)) (pos i) ≡ false
cleared i s v k = (have-set_have s i i [] false v k).1 ∙ ground arith

module _ (job : Job) (fit : IsFit job) where
  -- What an earlier session saved: each mark is that of the source's chunk.
  pub record IsTrusted (s : Sidecar) : Type 0 where
    pub books : IsValid s
    pub grid_count : s.chunk_count ≡ chunks job
    pub marks : (i : ℕ) → i < chunks job → have s (pos i) ≡ true → IsTrue job (mark_at s i) i

  pub IsSavable-IsTrusted : (s : Sidecar) (d : Disk) → IsSavable job fit s d → IsTrusted s
  IsSavable-IsTrusted s d v = record {
    books = v.books;
    grid_count = v.grid_count;
    marks = λ i h k. (v.settled i h k).1;
  }

  same_identity :
      (d : Disk) (i : ℕ)
      → i < chunks job
      → identity job d i ≡ identity job job.source i
      → Agrees job d i ⊎ Collision job.sha256
  same_identity d i h same =
      let small = index_small job fit i h in
      elim (chunk_sha-injective job.sha256 job.rel_path job.rel_path i i _ _ fit.path_small
        fit.path_small small small same) [
          | inr found ↦ inr found
          | inl (_, _, bytes) ↦ inl (λ b x.
              slice-eq d job.source (i * job.chunk) (chunk_len job.size job.chunk i) b bytes x.0
                x.1)
        ]

  pub check_mark-Settled :
      (d : Disk) (i : ℕ) (m : Mark) (s : Sidecar)
      → IsValid s
      → i < s.chunk_count
      → i < chunks job
      → mark_at s i ≡ m
      → IsTrue job m i
      → have (check_mark i (identity job d i) m s) (pos i) ≡ true
      → Settled job (check_mark i (identity job d i) m s) d i ⊎ Collision job.sha256
  unfolding check_mark
  check_mark-Settled d i missing s v k h e (inl odd) there = absurd cc
  check_mark-Settled d i missing s v k h e (inr (odd, _)) there = absurd cc
  check_mark-Settled d i zero_chunk s v k h e truth there = let gone = cleared i s v k in absurd cc
  check_mark-Settled d i (hashed w) s v k h e (inr (odd, _)) there = absurd cc
  check_mark-Settled d i (hashed w) s v k h e (inl truth) there =
      elim (Bool-cases (bytes_eq w (identity job d i))) [
        | inr other ↦
            let gone = cleared i s v k in
            let never : have
                  (if not (bytes_eq w (identity job d i)) then clear_have s (pos i) else s) (pos i)
                ≡ false =
              rw other gone in
            absurd cc
        | inl same ↦
            let hash : w ≡ identity job d i = bytes_eq→eq w _ same in
            let source : w ≡ identity job job.source i = cc truth in
            elim (same_identity d i h (sym hash ∙ source)) [
              | inr found ↦ inr found
              | inl agrees ↦ inl (rw same (agrees, inl (e ∙ truth)))
            ]
      ]

  pub check_zeros-Settled :
      (d : Disk) (i : ℕ) (m : Mark) (s : Sidecar)
      → IsValid s
      → i < s.chunk_count
      → mark_at s i ≡ m
      → IsTrue job m i
      → all_zero (chunk_of job d i) ≡ true
      → have (check_zeros false i m s) (pos i) ≡ true
      → Settled job (check_zeros false i m s) d i
  unfolding check_zeros
  check_zeros-Settled d i missing s v k e truth zeros there =
      let gone = cleared i s v k in absurd cc
  check_zeros-Settled d i (hashed w) s v k e truth zeros there =
      let gone = cleared i s v k in absurd cc
  check_zeros-Settled d i zero_chunk s v k e (inl odd) zeros there = absurd cc
  check_zeros-Settled d i zero_chunk s v k e (inr (same, blank)) zeros there = (
    λ b x.
        let here : d b ≡ 0 =
          All-slice IsZero d (i * job.chunk) (chunk_len job.size job.chunk i) b
            ((all_zero_iff _).0 zeros) x.0 x.1 in
        here ∙ sym (blank b x),
    inr (e, blank),
  )

  pub rehash_chunk-Settled :
      (readable : ℕ → Bool) (chunk : ℕ → Bytes) (d : Disk) (i : ℕ) (s : Sidecar)
      → IsValid s
      → i < s.chunk_count
      → i < chunks job
      → chunk i ≡ chunk_of job d i
      → (have s (pos i) ≡ true → IsTrue job (mark_at s i) i)
      → have (rehash_chunk job.sha256 job.rel_path false readable chunk i s) (pos i) ≡ true
      → Settled job (rehash_chunk job.sha256 job.rel_path false readable chunk i s) d i
        ⊎ Collision job.sha256
  unfolding rehash_chunk
  rehash_chunk-Settled readable chunk d i s v k h same truth = elim (Bool-cases (have s (pos i))) [
    | inr gone ↦ rw gone (λ there. absurd cc)
    | inl marked ↦ elim (Bool-cases (readable i)) [
      | inr torn ↦ rw (marked, torn) (λ there. let gone = cleared i s v k in absurd cc)
      | inl read ↦ elim (Bool-cases (all_zero (chunk i))) [
        | inl zeros ↦
            rw (marked, read, zeros)
              (λ there. inl (
                check_zeros-Settled d i _ s v k refl (truth marked) (ap all_zero (sym same) ∙ zeros)
                  there))
        | inr bytes ↦
            rw (marked, read, bytes, same)
              (λ there. check_mark-Settled d i _ s v k h refl (truth marked) there)
      ]
    ]
  ]
