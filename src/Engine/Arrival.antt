-- ===== src/Engine/Arrival.antt =====
-- A frame of sendChunk that the disk takes is absorbed: the chunk is written and marked.
use botjim.Prelude.{
  ℕ, ◌*◌, ◌<◌, ◌≤◌, ◌≡◌, ◌⊎◌, inl, inr, ◌∙◌, refl, ap, arith, Bool, true, false, not, ◌&&◌, ◌||◌,
  Bytes, length, leb, none, some, Bool-cases,
}
use botjim.Prelude.Int.{pos}
use botjim.Wire.Bits.{test_bit, set_bit}
use botjim.Chunking.{count, all_zero, zero_hash}
use botjim.Chunking.Tiling.{chunk_len, count_lem, last_starts}
use botjim.Protocol.Data.{ChunkHeader, zero_flag, raw_flag, sum_flag}
use botjim.Sidecar.{entry_grid, have, int_eq}
use botjim.Compress.{Codec}
use botjim.Compress.RoundTrip.{IsCodec}
use botjim.Engine.Disk.{Disk, length-slice, write_part}
use botjim.Engine.RxFile.{
  RxFile, mark_chunk, after_write, out_of_range, expected, zero_write, absorb_zero, decoded, sized,
  absorb_data, absorb_body, absorb_chunk, after_absorb, handle_chunk,
}
use botjim.Engine.Table.{Job, IsFit, chunks, chunk_of}
use botjim.Engine.TxFile.{packed, outgoing}
use botjim.Engine.Frames.{
  received, received_flags, received_idx, received_body, decoded_flags, zero_small, zero_plain,
  zero_is_zero,
}
use botjim.Engine.Absorb.{offset_of, expected_of}
use botjim.Engine.Sound.{IsSound}

-- The chunk was written and marked, whatever the bytes and the mark.
abbrev pub Landed : RxFile → ℕ → RxFile × Bool → Type 0
Landed f i r =
    (d : Disk) × (h : Bytes) × (z : Bool) × (r
      ≡ (mark_chunk (record f { content = d }) i h z, true))

module _ (job : Job) (fit : IsFit job) (codec : Codec) (v : IsCodec job.chunk codec) where
  -- The header and the payload carry chunk `i`.
  pub record Carries (i : ℕ) (w : ChunkHeader × Bytes) : Type 0 where
    pub idx : w.0.chunk_idx ≡ i
    pub small : w.0.flags < 256
    pub plain : test_bit w.0.flags sum_flag ≡ false
    pub content :
        (test_bit w.0.flags zero_flag ≡ true)
        ⊎ ((test_bit w.0.flags zero_flag ≡ false)
            × (decoded codec.decompress w.0.flags w.1 (pos (chunk_len job.size job.chunk i))
                ≡ some (chunk_of job job.source i)))

  long : (i : ℕ) → length (chunk_of job job.source i) ≡ chunk_len job.size job.chunk i
  long i = length-slice job.source (i * job.chunk) (chunk_len job.size job.chunk i)

  within : (i : ℕ) → length (chunk_of job job.source i) ≤ job.chunk
  within i =
      let most : chunk_len job.size job.chunk i ≤ job.chunk = ground arith in
      omega (arith, long i, most)

  packed-Carries :
      (file_id i : ℕ) (r : Bytes × Bool)
      → codec.compress (chunk_of job job.source i) ≡ r
      → Carries i (packed file_id i (chunk_of job job.source i) r)
  unfolding packed set_bit test_bit decoded sized
  packed-Carries file_id i (out, true) same = record {
    idx = refl;
    small = omega arith;
    plain = refl;
    content = inr (refl, let exact = long i in ground (arith, exact));
  }
  packed-Carries file_id i (out, false) same =
      let exact = long i in
      let back : codec.decompress out (pos (chunk_len job.size job.chunk i))
          ≡ some (chunk_of job job.source i) =
        rw exact at (v.back (chunk_of job job.source i) out (within i) same) in
      record {
        idx = refl;
        small = omega arith;
        plain = refl;
        content = inr (refl, ground (arith, exact, back));
      }

  pub outgoing-Carries :
      (sparse : Bool) (file_id i : ℕ)
      → Carries i (outgoing sparse codec.compress file_id i (chunk_of job job.source i))
  unfolding outgoing
  outgoing-Carries sparse file_id i =
      elim (Bool-cases (sparse && all_zero (chunk_of job job.source i))) [
        | inr bytes ↦ rw bytes (packed-Carries file_id i _ refl)
        | inl zeros ↦ rw zeros (record {
          idx = refl;
          small = zero_small;
          plain = zero_plain;
          content = inl zero_is_zero;
        })
      ]

  absorb_zero-Landed :
      (f : RxFile) (i : ℕ) → i < chunks job → IsSound job f → Landed f i (absorb_zero none f i)
  unfolding absorb_zero after_write zero_write write_part
  absorb_zero-Landed f i h s =
      let start =
        last_starts job.size job.chunk fit.some_chunk fit.chunk_small fit.size_small i h in
      let least : int_eq (pos (chunk_len job.size job.chunk i)) (pos 0) ≡ false =
        ground (arith, start, fit.some_chunk) in
      let size = expected_of job fit codec.decompress true f i h s in
      let place = offset_of job fit codec.decompress true f i h s in
      let some_bytes : int_eq (expected f i) (pos 0) ≡ false =
        ap (λ x. int_eq x (pos 0)) size ∙ least in
      rw (some_bytes, place) (written f.may_stale)
    where
      written :
          (stale : Bool)
          → Landed f i (
              after_write f i zero_hash true
                (zero_write stale none f.content (pos (i * job.chunk)) (expected f i)))
      written true = (_, _, _, refl)
      written false = (_, _, _, refl)

  absorb_data-Landed :
      (f : RxFile) (i : ℕ) (chunk : Bytes)
      → i < chunks job
      → IsSound job f
      → Landed f i (absorb_data job.sha256 none f i (some chunk))
  unfolding absorb_data after_write write_part
  absorb_data-Landed f i chunk h s =
      let place = offset_of job fit codec.decompress true f i h s in rw place (_, _, _, refl)

  -- A file that still takes chunks and has no chunk `i`.
  pub record Wants (i : ℕ) (f : RxFile) : Type 0 where
    pub part_open : f.part_open ≡ true
    pub live : (f.errored || f.resolved) ≡ false
    pub missing : (have f.sc (pos i) && not f.adopted) ≡ false

  absorb_body-Landed :
      (f : RxFile) (i : ℕ) (hdr : ChunkHeader) (p : Bytes)
      → i < chunks job
      → IsSound job f
      → Wants i f
      → hdr.chunk_idx ≡ i
      → (test_bit hdr.flags zero_flag ≡ true)
        ⊎ ((test_bit hdr.flags zero_flag ≡ false)
            × (decoded codec.decompress hdr.flags p (pos (chunk_len job.size job.chunk i))
                ≡ some (chunk_of job job.source i)))
      → Landed f i (absorb_body job.sha256 codec.decompress none f hdr (inr p))
  unfolding absorb_body
  absorb_body-Landed f i hdr p h s w idx content =
      let taken : (not f.part_open || (have f.sc (pos i) && not f.adopted)) ≡ false =
        ground (arith, w.part_open, w.missing) in
      elim content [
        | inl zeros ↦ rw (idx, taken, zeros) (absorb_zero-Landed f i h s)
        | inr (bytes, dec) ↦
            let size = expected_of job fit codec.decompress true f i h s in
            rw (idx, taken, bytes, size, dec) (absorb_data-Landed f i _ h s)
      ]

  pub handle_chunk-lands :
      (with_sum : Bool) (f : RxFile) (i : ℕ) (hdr : ChunkHeader) (p : Bytes)
      → i < chunks job
      → IsSound job f
      → Wants i f
      → Carries i (hdr, p)
      → (d : Disk) × (h : Bytes) × (z : Bool) × (handle_chunk job.sha256 codec.decompress with_sum
            none f
            (received with_sum (hdr, p)).0
            (received with_sum (hdr, p)).1
          ≡ mark_chunk (record f { content = d }) i h z)
  unfolding handle_chunk absorb_chunk after_absorb out_of_range
  handle_chunk-lands with_sum f i hdr p h s w c =
      let wire = received with_sum (hdr, p) in
      let idx : wire.0.chunk_idx ≡ i = received_idx with_sum hdr p ∙ c.idx in
      let known : count (entry_grid f.entry) ≡ pos (chunks job) =
        rw s.grid (count_lem job.size job.chunk fit.some_chunk fit.chunk_small fit.size_small) in
      let inside : leb (chunks job) i ≡ false = ground arith in
      let body = received_body with_sum hdr p c.small c.plain in
      let zero_bit = received_flags with_sum hdr p zero_flag c.small (omega arith) in
      let raw_bit = received_flags with_sum hdr p raw_flag c.small (omega arith) in
      let dec =
        decoded_flags codec.decompress wire.0.flags hdr.flags p
          (pos (chunk_len job.size job.chunk i)) raw_bit in
      let content : (test_bit wire.0.flags zero_flag ≡ true)
          ⊎ ((test_bit wire.0.flags zero_flag ≡ false)
              × (decoded codec.decompress wire.0.flags p (pos (chunk_len job.size job.chunk i))
                  ≡ some (chunk_of job job.source i))) =
        elim c.content [
          | inl zeros ↦ inl (zero_bit ∙ zeros)
          | inr (bytes, got_chunk) ↦ inr (zero_bit ∙ bytes, dec ∙ got_chunk)
        ] in
      let (d, hash, z, same) = absorb_body-Landed f i wire.0 p h s w idx content in
      (d, hash, z, rw (w.live, known, idx, inside, body, same) refl)
