-- ===== src/Engine/Sending.antt =====
-- What sendChunk puts on a stream is a frame that ReadChunk takes.
use botjim.Prelude.{
  ℕ, ◌+◌, ◌*◌, ◌^◌, ◌<◌, ◌≤◌, ◌≡◌, inl, inr, refl, arith, Bool, true, false, ◌&&◌, ◌++◌, Bytes,
  length, ◌==◌, leb, some, Bool-cases,
}
use botjim.Prelude.Int.{pos}
use botjim.Wire.Bits.{test_bit, set_bit}
use botjim.Wire.Stream.{got}
use botjim.Manifest.{Entry}
use botjim.Chunking.{count, all_zero, large_chunk}
use botjim.Chunking.Tiling.{chunk_len, count_lem, last_starts}
use botjim.Protocol.Data.{
  ChunkHeader, zero_flag, max_chunk_payload, read_chunk, chunk_frame, write_chunk,
  write_chunk_summed,
}
use botjim.Protocol.DataLaws.{chunk_roundtrip, read_chunk-summed}
use botjim.Sidecar.{entry_grid}
use botjim.Compress.{Codec}
use botjim.Compress.RoundTrip.{IsCodec}
use botjim.Engine.Disk.{length-slice}
use botjim.Engine.RxFile.{out_of_range}
use botjim.Engine.Table.{Job, IsFit, chunks, chunk_of}
use botjim.Engine.Adoption.{IsEntryOf, chunk_at_lem}
use botjim.Engine.TxFile.{packed, outgoing, write_frame, send_chunk}
use botjim.Engine.Frames.{received}
use botjim.Engine.Verdict.{index_small}

-- A header and a payload that a frame can carry, with a sum or without.
pub record IsFrame (h : ChunkHeader) (p : Bytes) : Type 0 where
  pub file_id : h.file_id < 2 ^ 32
  pub chunk_idx : h.chunk_idx < 2 ^ 64
  pub flags : h.flags < 256
  pub sized : length p ≡ h.payload_len
  pub fits : length p + 4 ≤ max_chunk_payload
  pub zero_only : h.payload_len ≡ 0 → test_bit h.flags zero_flag ≡ true

written :
    (h : ChunkHeader) (p : Bytes)
    → length p ≡ h.payload_len
    → write_chunk h p ≡ some (chunk_frame h p)
unfolding write_chunk
written h p e = let here : (length p == h.payload_len) ≡ true = ground arith in rw here refl

write_frame_read :
    (with_sum : Bool) (h : ChunkHeader) (p : Bytes)
    → IsFrame h p
    → (bytes : Bytes) × (write_frame with_sum (h, p) ≡ some bytes)
      × ((rest : Bytes) → read_chunk (bytes ++ rest) ≡ got (received with_sum (h, p)) rest)
unfolding write_frame received
write_frame_read true h p v = (
  write_chunk_summed h p,
  refl,
  λ rest.
      read_chunk-summed h p rest
        (record { file_id = v.file_id; chunk_idx = v.chunk_idx; flags = v.flags; fits = v.fits }),
)
write_frame_read false h p v = (
  chunk_frame h p,
  written h p v.sized,
  λ rest.
      chunk_roundtrip h p rest
        (record {
          file_id = v.file_id;
          chunk_idx = v.chunk_idx;
          payload_len = omega (arith, v.sized, v.fits);
          zero_only = v.zero_only;
        })
        (written h p v.sized),
)

module _ (job : Job) (fit : IsFit job) (chunk_max : job.chunk ≤ large_chunk) (codec : Codec)
    (v : IsCodec job.chunk codec) where
  abbrev raw_of : ℕ → Bytes
  raw_of i = chunk_of job job.source i

  long : (i : ℕ) → length (raw_of i) ≡ chunk_len job.size job.chunk i
  long i = length-slice job.source (i * job.chunk) (chunk_len job.size job.chunk i)

  some_byte : (i : ℕ) → i < chunks job → (0 < length (raw_of i)) × (length (raw_of i) ≤ large_chunk)
  some_byte i h =
      let start =
        last_starts job.size job.chunk fit.some_chunk fit.chunk_small fit.size_small i h in
      let most : chunk_len job.size job.chunk i ≤ job.chunk = ground arith in
      let least : 0 < chunk_len job.size job.chunk i = ground (arith, start, fit.some_chunk) in
      (omega (arith, long i, least), omega (arith, long i, most, chunk_max))

  packed-IsFrame :
      (file_id i : ℕ) (r : Bytes × Bool)
      → file_id < 2 ^ 32
      → i < chunks job
      → codec.compress (raw_of i) ≡ r
      → IsFrame (packed file_id i (raw_of i) r).0 (packed file_id i (raw_of i) r).1
  unfolding packed set_bit
  packed-IsFrame file_id i (out, true) id h same =
      let (least, most) = some_byte i h in
      record {
        file_id = id;
        chunk_idx = index_small job fit i h;
        flags = omega arith;
        sized = refl;
        fits = omega (arith, most);
        zero_only = λ e. absurd (omega (arith, least, e));
      }
  packed-IsFrame file_id i (out, false) id h same =
      let (least, most) = some_byte i h in
      let shorter = v.shorter _ out same in
      let full = v.some_bytes _ out least same in
      record {
        file_id = id;
        chunk_idx = index_small job fit i h;
        flags = omega arith;
        sized = refl;
        fits = omega (arith, most, shorter);
        zero_only = λ e. absurd (omega (arith, full, e));
      }

  outgoing-IsFrame :
      (sparse : Bool) (file_id i : ℕ)
      → file_id < 2 ^ 32
      → i < chunks job
      → IsFrame
          (outgoing sparse codec.compress file_id i (raw_of i)).0
          (outgoing sparse codec.compress file_id i (raw_of i)).1
  unfolding outgoing
  outgoing-IsFrame sparse file_id i id h = elim (Bool-cases (sparse && all_zero (raw_of i))) [
    | inr bytes ↦ rw bytes (packed-IsFrame file_id i _ id h refl)
    | inl zeros ↦ rw zeros (
        unfold set_bit test_bit in
        (record {
          file_id = id;
          chunk_idx = index_small job fit i h;
          flags = omega arith;
          sized = refl;
          fits = omega arith;
          zero_only = λ e. refl;
        }))
  ]

  -- With a codec that shrinks no chunk to nothing, a chunk that the sender can read, of a file in chunks of at most
  -- LargeChunk, goes out, and the receiver's ReadChunk takes its frame from the stream.
  pub send_chunk_read :
      (sparse with_sum : Bool) (readable : ℕ → Bool) (e : Entry) (i : ℕ)
      → IsEntryOf job e
      → e.id < 2 ^ 32
      → i < chunks job
      → readable i ≡ true
      → (bytes : Bytes) × (send_chunk sparse with_sum codec.compress readable job.source e i
          ≡ some bytes)
        × ((rest : Bytes)
            → read_chunk (bytes ++ rest)
              ≡ got
                  (received with_sum
                    (outgoing sparse codec.compress e.id i (chunk_of job job.source i)))
                  rest)
  unfolding send_chunk out_of_range
  send_chunk_read sparse with_sum readable e i of id h there =
      let (bytes, wrote, read) =
        write_frame_read with_sum _ _ (outgoing-IsFrame sparse e.id i id h) in
      let known : count (entry_grid e) ≡ pos (chunks job) =
        rw of.grid (count_lem job.size job.chunk fit.some_chunk fit.chunk_small fit.size_small) in
      let inside : leb (chunks job) i ≡ false = ground arith in
      (bytes, rw (known, inside, there, chunk_at_lem job fit e of job.source i h) wrote, read)
