-- ===== src/Engine/Absorb.antt =====
-- absorbChunk on a frame that an honest sender wrote keeps the file sound.
use botjim.Prelude.{
  ℕ, ◌+◌, ◌*◌, ◌<◌, ◌≤◌, ◌≡◌, ◌⊎◌, inl, inr, ◌∙◌, refl, sym, ap, arith, Bool, true, false, not,
  ◌&&◌, ◌||◌, Bytes, Option, none, some, Bool-cases,
}
use botjim.Prelude.Int.{ℤ, pos}
use botjim.Wire.Bits.{test_bit}
use botjim.Wire.Stream.{StreamError}
use botjim.Chunking.{count, offset, chunk_sha, zero_hash}
use botjim.Chunking.Tiling.{chunk_len, count_lem, offset_lem, len_lem}
use botjim.Protocol.Data.{ChunkHeader, zero_flag, checked_body}
use botjim.Sidecar.{entry_grid, mark_of, have, int_eq, hashed}
use botjim.Engine.Disk.{
  Disk, slice, write_part, take-slice, replicate-zero-eq-slice, put_at-inside, put_at-toward,
}
use botjim.Engine.RxFile.{
  RxFile, after_write, out_of_range, expected, zero_write, absorb_zero, decoded, absorb_data,
  absorb_body, absorb_chunk, after_absorb, handle_chunk,
}
use botjim.Engine.Table.{Job, IsFit, chunks, Agrees, IsTrue, IsBlank, Toward, chunk_of}
use botjim.Engine.Sound.{IsSound, write-IsSound, mark_chunk-IsSound, retry_or_fail-IsSound}

-- A write of bytes of `e` where they stand in `e`.
pub write_part-Toward :
    (fault : Option ℕ) (d e : Disk) (off n : ℕ)
    → Toward e d (write_part fault d (pos off) (slice e off n)).0
unfolding write_part
write_part-Toward none d e off n b = put_at-toward d e off n b
write_part-Toward (some k) d e off n b =
    let (m, h, same) = take-slice e off n k in rw same (put_at-toward d e off m b)

pub write_part-inside :
    (fault : Option ℕ) (d e : Disk) (off n b : ℕ)
    → (write_part fault d (pos off) (slice e off n)).1 ≡ true
    → off ≤ b
    → b < off + n
    → (write_part fault d (pos off) (slice e off n)).0 b ≡ e b
unfolding write_part
write_part-inside none d e off n b h p q = put_at-inside d e off n b p q
write_part-inside (some k) d e off n b h p q = absurd cc

module _ (job : Job) (fit : IsFit job) (decompress : Bytes → ℤ → Option Bytes)
    (negotiated : Bool) where
  -- A zero frame stands for zeros of the source, and the bytes of any other decode to the chunk of the source.
  pub record IsHonestFrame (hdr : ChunkHeader) (payload : Bytes) : Type 0 where
    pub zeros :
        hdr.chunk_idx < chunks job → test_bit hdr.flags zero_flag ≡ true → IsBlank job hdr.chunk_idx
    pub bytes :
        (body chunk : Bytes)
        → hdr.chunk_idx < chunks job
        → test_bit hdr.flags zero_flag ≡ false
        → checked_body negotiated hdr payload ≡ inr body
        → decoded decompress hdr.flags body (pos (chunk_len job.size job.chunk hdr.chunk_idx))
          ≡ some chunk
        → chunk ≡ chunk_of job job.source hdr.chunk_idx

  pub offset_of :
      (f : RxFile) (i : ℕ)
      → i < chunks job
      → IsSound job f
      → offset (entry_grid f.entry) i ≡ pos (i * job.chunk)
  offset_of f i h v =
      rw v.grid (offset_lem job.size job.chunk fit.some_chunk fit.chunk_small fit.size_small i h)

  pub expected_of :
      (f : RxFile) (i : ℕ)
      → i < chunks job
      → IsSound job f
      → expected f i ≡ pos (chunk_len job.size job.chunk i)
  expected_of f i h v =
      rw v.grid (len_lem job.size job.chunk fit.some_chunk fit.chunk_small fit.size_small i h)

  after_write-IsSound :
      (f : RxFile) (i : ℕ) (h : Bytes) (z : Bool) (w : Disk × Bool)
      → i < chunks job
      → Toward job.source f.content w.0
      → (w.1 ≡ true → Agrees job w.0 i)
      → IsTrue job (mark_of h z) i
      → IsSound job f
      → IsSound job (after_write f i h z w).0
  unfolding after_write
  after_write-IsSound f i h z (d, true) k t g m v =
      mark_chunk-IsSound job fit (record f { content = d }) i h z k (g refl) m
        (write-IsSound job fit f d t v)
  after_write-IsSound f i h z (d, false) k t g m v = write-IsSound job fit f d t v

  -- The chunk of the source written at its offset.
  stored-IsSound :
      (fault : Option ℕ) (f : RxFile) (i : ℕ) (h : Bytes) (z : Bool)
      → i < chunks job
      → IsTrue job (mark_of h z) i
      → IsSound job f
      → IsSound job
          (after_write f i h z
            (write_part fault f.content (pos (i * job.chunk)) (chunk_of job job.source i))).0
  stored-IsSound fault f i h z k m v =
      let start = i * job.chunk in
      let size = chunk_len job.size job.chunk i in
      after_write-IsSound f i h z _ k (write_part-Toward fault f.content job.source start size)
        (λ ok b x. write_part-inside fault f.content job.source start size b ok x.0 x.1) m v

  -- A hole of a fresh part is already the zeros of the source.
  hole-Agrees :
      (f : RxFile) (i : ℕ)
      → f.may_stale ≡ false
      → IsBlank job i
      → IsSound job f
      → Agrees job f.content i
  hole-Agrees f i fresh zeros v b x = elim (v.toward b) [
    | inl kept ↦ kept ∙ v.blank fresh b ∙ sym (zeros b x)
    | inr there ↦ there
  ]

  zero_write-IsSound :
      (stale : Bool) (fault : Option ℕ) (f : RxFile) (i : ℕ)
      → f.may_stale ≡ stale
      → i < chunks job
      → IsBlank job i
      → IsSound job f
      → IsSound job
          (after_write f i zero_hash true (
            zero_write stale fault f.content
              (pos (i * job.chunk))
              (pos (chunk_len job.size job.chunk i)))).0
  unfolding zero_write
  zero_write-IsSound true fault f i e k zeros v =
      let written =
        replicate-zero-eq-slice job.source (i * job.chunk) (chunk_len job.size job.chunk i)
          (λ b p q. zeros b (p, q)) in
      rw written (stored-IsSound fault f i zero_hash true k (inr (refl, zeros)) v)
  zero_write-IsSound false fault f i e k zeros v =
      after_write-IsSound f i zero_hash true (f.content, true) k (λ b. inl refl)
        (λ _. hole-Agrees f i e zeros v) (inr (refl, zeros)) v

  absorb_zero-IsSound :
      (fault : Option ℕ) (f : RxFile) (i : ℕ)
      → i < chunks job
      → IsBlank job i
      → IsSound job f
      → IsSound job (absorb_zero fault f i).0
  unfolding absorb_zero
  absorb_zero-IsSound fault f i k zeros v = elim (Bool-cases (int_eq (expected f i) (pos 0))) [
    | inl e ↦ rw e v
    | inr e ↦
        rw (e, offset_of f i k v, expected_of f i k v)
          (zero_write-IsSound f.may_stale fault f i refl k zeros v)
  ]

  absorb_data-IsSound :
      (fault : Option ℕ) (f : RxFile) (i : ℕ) (o : Option Bytes)
      → i < chunks job
      → ((chunk : Bytes) → o ≡ some chunk → chunk ≡ chunk_of job job.source i)
      → IsSound job f
      → IsSound job (absorb_data job.sha256 fault f i o).0
  unfolding absorb_data
  absorb_data-IsSound fault f i none k right v = v
  absorb_data-IsSound fault f i (some chunk) k right v =
      rw (right chunk refl, offset_of f i k v)
        (stored-IsSound fault f i _ false k
          (inl (ap (λ p. hashed (chunk_sha job.sha256 p i (chunk_of job job.source i))) v.path)) v)

  absorb_body-IsSound :
      (fault : Option ℕ) (f : RxFile) (hdr : ChunkHeader) (payload : Bytes)
      (o : StreamError ⊎ Bytes)
      → checked_body negotiated hdr payload ≡ o
      → hdr.chunk_idx < chunks job
      → IsHonestFrame hdr payload
      → IsSound job f
      → IsSound job (absorb_body job.sha256 decompress fault f hdr o).0
  unfolding absorb_body
  absorb_body-IsSound fault f hdr payload (inl err) same k honest v = v
  absorb_body-IsSound fault f hdr payload (inr body) same k honest v =
      elim (Bool-cases (not f.part_open || (have f.sc (pos hdr.chunk_idx) && not f.adopted))) [
        | inl e ↦ rw e v
        | inr e ↦ elim (Bool-cases (test_bit hdr.flags zero_flag)) [
          | inl zeros ↦
              rw (e, zeros) (absorb_zero-IsSound fault f hdr.chunk_idx k (honest.zeros k zeros) v)
          | inr bytes ↦
              rw (e, bytes, expected_of f hdr.chunk_idx k v)
                (absorb_data-IsSound fault f hdr.chunk_idx _ k
                  (λ chunk got. honest.bytes body chunk k bytes same got) v)
        ]
      ]

  in_range :
      (f : RxFile) (i : ℕ)
      → IsSound job f
      → out_of_range (count (entry_grid f.entry)) i ≡ false
      → i < chunks job
  unfolding out_of_range
  in_range f i v inside =
      let known : count (entry_grid f.entry) ≡ pos (chunks job) =
        rw v.grid (count_lem job.size job.chunk fit.some_chunk fit.chunk_small fit.size_small) in
      let there = rw known at inside in ground arith

  pub absorb_chunk-IsSound :
      (fault : Option ℕ) (f : RxFile) (hdr : ChunkHeader) (payload : Bytes)
      → IsHonestFrame hdr payload
      → IsSound job f
      → IsSound job (absorb_chunk job.sha256 decompress negotiated fault f hdr payload).0
  unfolding absorb_chunk
  absorb_chunk-IsSound fault f hdr payload honest v = elim (Bool-cases (f.errored || f.resolved)) [
    | inl e ↦ rw e v
    | inr e ↦ elim (Bool-cases (out_of_range (count (entry_grid f.entry)) hdr.chunk_idx)) [
      | inl out ↦ rw (e, out) v
      | inr inside ↦
          rw (e, inside)
            (absorb_body-IsSound fault f hdr payload _ refl (in_range f hdr.chunk_idx v inside)
              honest v)
    ]
  ]

  after_absorb-IsSound :
      (i : ℕ) (r : RxFile × Bool) → IsSound job r.0 → IsSound job (after_absorb i r)
  unfolding after_absorb
  after_absorb-IsSound i (f, true) v = v
  after_absorb-IsSound i (f, false) v = retry_or_fail-IsSound job fit f i v

  pub handle_chunk-IsSound :
      (fault : Option ℕ) (f : RxFile) (hdr : ChunkHeader) (payload : Bytes)
      → IsHonestFrame hdr payload
      → IsSound job f
      → IsSound job (handle_chunk job.sha256 decompress negotiated fault f hdr payload)
  unfolding handle_chunk
  handle_chunk-IsSound fault f hdr payload honest v =
      after_absorb-IsSound hdr.chunk_idx _ (absorb_chunk-IsSound fault f hdr payload honest v)
