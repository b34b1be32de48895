-- ===== src/Engine/Answers.antt =====
-- The receiver's claims, the sender's answer, and the receiver that takes it.
use botjim.Prelude.{
  ℕ, ◌-◌, ◌<◌, ◌≡◌, inl, inr, ◌∙◌, sym, ap, arith, Bool, true, false, [], Bytes, ◌==◌, Bool-cases,
}
use botjim.Prelude.Int.{pos}
use botjim.Manifest.{Entry}
use botjim.Chunking.{chunk_sha}
use botjim.Sidecar.{Sidecar, hashed, entry_grid, entry_chunks, have, bit_at}
use botjim.Sidecar.Invariant.{IsValid}
use botjim.Engine.Opening.{chunk_at, claim_of, claims_from, claim_hashes}
use botjim.Engine.Table.{Job, IsFit, chunks, mark_at, identity}
use botjim.Engine.Adoption.{IsEntryOf, entry_chunks_lem, identity_lem}
use botjim.Engine.TxFile.{
  Judged, judge_first, sweep_first, verify_claims, Answer, commit, claim_result, answer_of,
}
use botjim.Engine.Claims.{
  IsBits, IsJudged, asked-IsBits, judge_first-IsJudged, distrust_first-IsBits, sweep_first-none,
  claims_from-zero,
}
use botjim.Engine.Verdict.{IsRight}

-- What the answer says of the claims: each is right, or each that is confirmed.
abbrev pub IsRightAnswer : Job → Answer → Type 0
IsRightAnswer job commit = (i : ℕ) → i < chunks job → IsRight job i
IsRightAnswer job (claim_result verified) =
    (i : ℕ) → i < chunks job → bit_at verified i ≡ true → IsRight job i

-- The receiver's table `s`, the sender's entry `e` of the same path and sizes.
module _ (job : Job) (fit : IsFit job) (e : Entry) (of : IsEntryOf job e) (s : Sidecar)
    (books : IsValid s) (count : s.chunk_count ≡ chunks job) where
  abbrev own : ℕ → Bytes
  own i = chunk_sha job.sha256 e.rel_path i (chunk_at (entry_grid e) job.source i)

  abbrev asked : Judged
  asked = record { have = s.have; cleared = 0; hashes = claim_hashes s e }

  all_chunks : entry_chunks e ≡ s.chunk_count
  all_chunks = entry_chunks_lem job fit e of ∙ sym count

  asked-IsJudged : IsJudged s books own 0 asked
  unfolding claim_hashes
  asked-IsJudged =
      (ap (λ m. claims_from s 0 m) (omega (arith, all_chunks)), asked-IsBits s books own)

  judged_all :
      (v : Judged)
      → IsJudged s books own (entry_chunks e) v
      → IsBits s books own
          (entry_chunks e)
          (sweep_first (entry_chunks e) v).have
          (sweep_first (entry_chunks e) v).cleared
  judged_all v (left, w) =
      let over : v.hashes ≡ [] = left ∙ nothing_left in
      rw (sweep_first-none (entry_chunks e) v over) w
    where
      nothing_left : claims_from s (entry_chunks e) (s.chunk_count - entry_chunks e) ≡ []
      nothing_left =
          let none_behind : s.chunk_count - entry_chunks e ≡ 0 = omega (arith, all_chunks) in
          rw none_behind (claims_from-zero s (entry_chunks e))

  -- Whether the source opens or not.
  verify_claims-IsBits :
      (opened : Bool) (readable : ℕ → Bool)
      → IsBits s books own
          (entry_chunks e)
          (verify_claims job.sha256 opened readable job.source e s.have (claim_hashes s e)).have
          (verify_claims job.sha256 opened readable job.source e s.have (claim_hashes s e)).cleared
  unfolding verify_claims
  verify_claims-IsBits true readable =
      judged_all (judge_first readable own (entry_chunks e) asked) (
        judge_first-IsJudged s books own readable (entry_chunks e) asked (omega (arith, all_chunks))
          asked-IsJudged)
  verify_claims-IsBits false readable =
      distrust_first-IsBits s books own (entry_chunks e) asked (omega (arith, all_chunks))
        (asked-IsBits s books own)

  verify_claims-right :
      (opened : Bool) (readable : ℕ → Bool) (i : ℕ)
      → i < chunks job
      → (bit_at
              (verify_claims job.sha256 opened readable job.source e s.have (claim_hashes s e)).have
              i
            ≡ true
          → claim_of (mark_at s i) ≡ identity job job.source i)
        × ((verify_claims job.sha256 opened readable job.source e s.have (claim_hashes s e)).cleared
              ≡ 0
            → have s (pos i) ≡ true
            → claim_of (mark_at s i) ≡ identity job job.source i)
  verify_claims-right opened readable i h =
      let w = verify_claims-IsBits opened readable in
      let inside : i < entry_chunks e = omega (arith, entry_chunks_lem job fit e of) in
      let same = identity_lem job fit e of job.source i h in
      (λ bit. w.right i inside bit ∙ same, λ clean there. w.clean clean i inside there ∙ same)

  -- For the bitmap and the hashes of any table in good order: a chunk whose bit the sender's judgement leaves set was claimed with the hash that the
  -- source's chunk has, whether the source opened or not.
  pub verify_claims-confirmed :
      (opened : Bool) (readable : ℕ → Bool) (i : ℕ)
      → i < chunks job
      → bit_at
          (verify_claims job.sha256 opened readable job.source e s.have (claim_hashes s e)).have
          i
        ≡ true
      → claim_of (mark_at s i) ≡ identity job job.source i
  verify_claims-confirmed opened readable i h = (verify_claims-right opened readable i h).0

  -- The claims are those of the table, about the old bytes.
  pub answer-IsRightAnswer :
      (opened : Bool) (readable : ℕ → Bool)
      → ((i : ℕ) → job.claimed i ≡ true → have s (pos i) ≡ true)
      → ((i : ℕ)
          → i < chunks job
          → have s (pos i) ≡ true
          → mark_at s i ≡ hashed (identity job job.old i))
      → IsRightAnswer job (
          answer_of
            (verify_claims job.sha256 opened readable job.source e s.have (claim_hashes s e)))
  unfolding answer_of claim_of
  answer-IsRightAnswer opened readable claimed marks =
      let v = verify_claims job.sha256 opened readable job.source e s.have (claim_hashes s e) in
      let right = λ (i : ℕ) (h : i < chunks job). verify_claims-right opened readable i h in
      elim (Bool-cases (v.cleared == 0)) [
        | inl clean ↦ rw clean (λ i h cl.
            sym (ap claim_of (marks i h (claimed i cl)))
            ∙ (right i h).1 (ground arith) (claimed i cl))
        | inr dirty ↦
            rw dirty
              (λ i h bit cl. sym (ap claim_of (marks i h (claimed i cl))) ∙ (right i h).0 bit)
      ]
