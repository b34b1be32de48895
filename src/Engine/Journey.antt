-- ===== src/Engine/Journey.antt =====
-- The two ends together: a final that is adopted, and a session after one that was cut off.
use mathlib.Core.Path.{subst}
use botjim.Prelude.{
  ℕ, ◌<◌, ◌≡◌, ◌⊎◌, inl, inr, ◌∙◌, sym, Bool, true, false, List, [], ◌∷◌, Bytes, All, some,
  Bool-cases, ◌&&◌,
}
use botjim.Prelude.Int.{pos}
use botjim.Manifest.{Entry}
use botjim.Chunking.Identity.{Collision}
use botjim.Sidecar.{Sidecar, new, have}
use botjim.Compress.{Codec}
use botjim.Compress.RoundTrip.{IsCodec}
use botjim.Engine.Disk.{Disk}
use botjim.Engine.RxFile.{RxFile}
use botjim.Engine.Ending.{kept_sidecar, flush_sidecar}
use botjim.Engine.Opening.{hash_into, adopt_final, claim_hashes, open_resumed}
use botjim.Engine.Table.{Job, IsFit, chunks, chunk_of}
use botjim.Engine.Adoption.{IsEntryOf, hash_into_lem, adopt_final-IsSound}
use botjim.Engine.TxFile.{outgoing, verify_claims, Answer, commit, claim_result, answer_of}
use botjim.Engine.Answers.{answer-IsRightAnswer, IsRightAnswer}
use botjim.Engine.Frames.{received, outgoing-IsHonestFrame}
use botjim.Engine.Sound.{IsSound, Whole}
use botjim.Engine.Closing.{kept-IsSavable}
use botjim.Engine.Recheck.{IsTrusted, IsSavable-IsTrusted}
use botjim.Engine.Resumption.{open_resumed-IsSound}
use botjim.Engine.Delivery.{
  Event, frame, committed, sender_failed, verdict, finalizing, flushing, closing, run, IsHonest,
  run-Whole,
}

-- How the sender sends: with holes, with sums, and whether its own file opens and reads.
pub record Sender : Type 0 where
  pub codec : Codec
  pub sparse : Bool
  pub with_sum : Bool
  pub opened : Bool
  pub readable : ℕ → Bool

module _ (job : Job) (fit : IsFit job) (tx : Sender) (v : IsCodec job.chunk tx.codec)
    (e own : Entry) (of : IsEntryOf job e) (own_of : IsEntryOf job own) (readable : ℕ → Bool)
    (nonce : Bytes)
    (claims : (i : ℕ)
      → job.claimed i ≡ have (hash_into job.sha256 readable job.old e (new e nonce)) (pos i)) where
  abbrev table : Sidecar
  table = hash_into job.sha256 readable job.old e (new e nonce)

  -- The sender's answer to the claims of the table.
  abbrev answer : Answer
  answer = answer_of (
      verify_claims job.sha256 tx.opened tx.readable job.source own table.have
        (claim_hashes table own))

  -- A frame of some chunk, the answer, or what happens at the receiver alone.
  abbrev pub IsSent : Event → Type 0
  IsSent (frame fault hdr payload) =
      (i : ℕ) × (i < chunks job)
      × (hdr
          ≡ (received tx.with_sum
              (outgoing tx.sparse tx.codec.compress own.id i (chunk_of job job.source i))).0)
      × (payload
          ≡ (received tx.with_sum
              (outgoing tx.sparse tx.codec.compress own.id i (chunk_of job job.source i))).1)
  IsSent committed = answer ≡ commit
  IsSent (verdict verified) = answer ≡ claim_result verified
  IsSent _ = Unit

  right_answer : IsRightAnswer job answer
  right_answer =
      let (books, count, marks) = hash_into_lem job fit e of readable job.old nonce in
      answer-IsRightAnswer job fit own own_of table books count tx.opened tx.readable
        (λ i cl. sym (claims i) ∙ cl) marks

  IsSent-IsHonest : (ev : Event) → IsSent ev → IsHonest job fit tx.codec.decompress tx.with_sum ev
  IsSent-IsHonest (frame fault hdr payload) (i, h, same_hdr, same_payload) =
      rw (same_hdr, same_payload)
        (outgoing-IsHonestFrame job fit tx.codec v tx.sparse tx.with_sum own.id i)
  IsSent-IsHonest committed same = subst (IsRightAnswer job) same right_answer
  IsSent-IsHonest (verdict verified) same = subst (IsRightAnswer job) same right_answer
  IsSent-IsHonest sender_failed h = tt
  IsSent-IsHonest (finalizing fsync fault) h = tt
  IsSent-IsHonest flushing h = tt
  IsSent-IsHonest closing h = tt

  All-IsHonest :
      (es : List Event) → All IsSent es → All (IsHonest job fit tx.codec.decompress tx.with_sum) es
  All-IsHonest [] h = tt
  All-IsHonest (ev ∷ es) (h, hs) = (IsSent-IsHonest ev h, All-IsHonest es hs)

  -- A final of any bytes is adopted as its own part, under FeatClaimAck, and its claims are answered by the sender: after any frames
  -- of sendChunk, that answer and any events of the receiver alone, in any order, a file that is resolved without an error
  -- holds the source, or SHA-256 has a collision, which the proof exhibits.
  pub adopted_Whole :
      (es : List Event)
      → All IsSent es
      → (run job.sha256 tx.codec.decompress tx.with_sum
          (adopt_final job.sha256 readable true job.old e nonce)
          es).resolved
        ≡ true
      → (run job.sha256 tx.codec.decompress tx.with_sum
          (adopt_final job.sha256 readable true job.old e nonce)
          es).errored
        ≡ false
      → Whole job
          (run job.sha256 tx.codec.decompress tx.with_sum
            (adopt_final job.sha256 readable true job.old e nonce)
            es).content
        ⊎ Collision job.sha256
  adopted_Whole es sent =
      run-Whole job fit tx.codec.decompress tx.with_sum
        (adopt_final job.sha256 readable true job.old e nonce) es
        (adopt_final-IsSound job fit e of readable nonce (λ i h. claims i ∙ h))
        (All-IsHonest es sent)

-- The job over a part whose bytes are `d`.
abbrev pub again : Job → Disk → Job
again job d = record job { old = d }

again-IsFit : (job : Job) (d : Disk) → IsFit job → IsFit (again job d)
again-IsFit job d fit = record {
  some_chunk = fit.some_chunk;
  chunk_small = fit.chunk_small;
  size_small = fit.size_small;
  path_small = fit.path_small;
}

again-IsTrusted :
    (job : Job) (fit : IsFit job) (d : Disk) (s : Sidecar)
    → IsTrusted job fit s
    → IsTrusted (again job d) (again-IsFit job d fit) s
again-IsTrusted job fit d s v = record {
  books = v.books;
  grid_count = v.grid_count;
  marks = v.marks;
}

flushed : (f : RxFile) (s : Sidecar) → (flush_sidecar f).1 ≡ some s → kept_sidecar f ≡ s
unfolding flush_sidecar
flushed f s = elim (Bool-cases (f.dirty && f.part_open)) [
  | inl saved ↦ rw saved (λ e. cc e)
  | inr nothing ↦ rw nothing (λ e. absurd cc)
]

-- What a session saves of a sound file, the next one resumes soundly whatever the bytes of the part are by then, if it
-- was not saved as fully written, or SHA-256 has a collision, which the proof exhibits.
pub resume_after_flush :
    (job : Job) (fit : IsFit job) (f : RxFile) (s : Sidecar) (e : Entry) (d : Disk)
    (readable : ℕ → Bool)
    → IsSound job f
    → (flush_sidecar f).1 ≡ some s
    → s.fully_written ≡ false
    → IsEntryOf (again job d) e
    → IsSound (again job d) (open_resumed job.sha256 readable d e s) ⊎ Collision job.sha256
resume_after_flush job fit f s e d readable v saved partial of =
    let kept = kept-IsSavable job fit f v in
    let trusted : IsTrusted job fit s =
      rw (flushed f s saved) at (IsSavable-IsTrusted job fit (kept_sidecar f) f.content kept) in
    open_resumed-IsSound (again job d) (again-IsFit job d fit) e of readable s
      (again-IsTrusted job fit d s trusted) partial
