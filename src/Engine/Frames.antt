-- ===== src/Engine/Frames.antt =====
-- The frames that sendChunk writes stand for the chunk of the source that they name.
use botjim.Prelude.{
  ℕ, ◌*◌, ◌<◌, ◌≤◌, ◌≡◌, inl, inr, ◌∙◌, refl, sym, arith, Bool, true, false, ◌&&◌, [], ◌++◌, Bytes,
  length, Option, some, Bool-cases,
}
use botjim.Prelude.Int.{ℤ, pos}
use botjim.Wire.Bits.{test_bit, set_bit, test_bit-set_bit}
use botjim.Chunking.{all_zero}
use botjim.Chunking.Identity.{IsZero, all_zero_iff}
use botjim.Chunking.Tiling.{chunk_len}
use botjim.Protocol.Data.{ChunkHeader, zero_flag, raw_flag, sum_flag, checked_body, summed}
use botjim.Protocol.DataLaws.{trailer, checked_body-summed}
use botjim.Compress.{Codec}
use botjim.Compress.RoundTrip.{IsCodec}
use botjim.Engine.Disk.{length-slice, All-slice}
use botjim.Engine.RxFile.{decoded, sized}
use botjim.Engine.Table.{Job, IsFit, chunk_of, IsBlank}
use botjim.Engine.Absorb.{IsHonestFrame}
use botjim.Engine.TxFile.{packed, outgoing}

-- What ReadChunk gives of a frame that was written with or without a sum.
unfoldable pub received : Bool → ChunkHeader × Bytes → ChunkHeader × Bytes
received true (h, body) = (summed h body, body ++ trailer h body)
received false (h, body) = (h, body)

other_bit :
    (flags k : ℕ) → flags < 256 → k < 3 → test_bit (set_bit flags sum_flag) k ≡ test_bit flags k
other_bit flags k small h =
    test_bit-set_bit flags sum_flag k small (omega arith) (omega arith) ∙ ground arith

pub received_flags :
    (with_sum : Bool) (h : ChunkHeader) (p : Bytes) (k : ℕ)
    → h.flags < 256
    → k < 3
    → test_bit (received with_sum (h, p)).0.flags k ≡ test_bit h.flags k
unfolding received
received_flags true h p k small low = other_bit h.flags k small low
received_flags false h p k small low = refl

pub received_idx :
    (with_sum : Bool) (h : ChunkHeader) (p : Bytes)
    → (received with_sum (h, p)).0.chunk_idx ≡ h.chunk_idx
unfolding received
received_idx true h p = refl
received_idx false h p = refl

pub received_body :
    (with_sum : Bool) (h : ChunkHeader) (p : Bytes)
    → h.flags < 256
    → test_bit h.flags sum_flag ≡ false
    → checked_body with_sum (received with_sum (h, p)).0 (received with_sum (h, p)).1 ≡ inr p
unfolding received
received_body true h p small plain = checked_body-summed true h p small
received_body false h p small plain = unfold checked_body in rw plain refl

pub decoded_flags :
    (decompress : Bytes → ℤ → Option Bytes) (f g : ℕ) (p : Bytes) (size : ℤ)
    → test_bit f raw_flag ≡ test_bit g raw_flag
    → decoded decompress f p size ≡ decoded decompress g p size
unfolding decoded
decoded_flags decompress f g p size same = rw same refl

pub zero_small : set_bit 0 zero_flag < 256
unfolding set_bit
zero_small = omega arith

pub zero_plain : test_bit (set_bit 0 zero_flag) sum_flag ≡ false
unfolding set_bit test_bit
zero_plain = refl

pub zero_is_zero : test_bit (set_bit 0 zero_flag) zero_flag ≡ true
unfolding set_bit test_bit
zero_is_zero = refl

module _ (job : Job) (fit : IsFit job) (codec : Codec) (v : IsCodec job.chunk codec) where
  abbrev raw_of : ℕ → Bytes
  raw_of i = chunk_of job job.source i

  received-IsHonestFrame :
      (with_sum : Bool) (h : ChunkHeader) (p : Bytes)
      → h.flags < 256
      → test_bit h.flags sum_flag ≡ false
      → (test_bit h.flags zero_flag ≡ true → IsBlank job h.chunk_idx)
      → ((chunk : Bytes)
          → test_bit h.flags zero_flag ≡ false
          → decoded codec.decompress h.flags p (pos (chunk_len job.size job.chunk h.chunk_idx))
            ≡ some chunk
          → chunk ≡ raw_of h.chunk_idx)
      → IsHonestFrame job fit codec.decompress with_sum
          (received with_sum (h, p)).0
          (received with_sum (h, p)).1
  received-IsHonestFrame with_sum h p small plain zeros bytes =
      let idx = received_idx with_sum h p in
      let zero_bit = received_flags with_sum h p zero_flag small (omega arith) in
      let raw_bit = received_flags with_sum h p raw_flag small (omega arith) in
      let body_is = received_body with_sum h p small plain in
      record {
        zeros = λ k z. rw idx (zeros (sym zero_bit ∙ z));
        bytes = λ body chunk k nz got_body dec.
            let same : body ≡ p = cc (body_is, got_body) in
            let dec' =
              decoded_flags codec.decompress (received with_sum (h, p)).0.flags h.flags p
                (pos (chunk_len job.size job.chunk h.chunk_idx)) raw_bit in
            let there : decoded codec.decompress (received with_sum (h, p)).0.flags p
                  (pos (chunk_len job.size job.chunk h.chunk_idx))
                ≡ some chunk =
              rw (same, idx) at dec in
            rw idx (bytes chunk (sym zero_bit ∙ nz) (sym dec' ∙ there));
      }

  long : (i : ℕ) → length (raw_of i) ≡ chunk_len job.size job.chunk i
  long i = length-slice job.source (i * job.chunk) (chunk_len job.size job.chunk i)

  within : (i : ℕ) → length (raw_of i) ≤ job.chunk
  within i =
      let most : chunk_len job.size job.chunk i ≤ job.chunk = ground arith in
      omega (arith, long i, most)

  packed-IsHonestFrame :
      (with_sum : Bool) (file_id i : ℕ) (r : Bytes × Bool)
      → codec.compress (raw_of i) ≡ r
      → IsHonestFrame job fit codec.decompress with_sum
          (received with_sum (packed file_id i (raw_of i) r)).0
          (received with_sum (packed file_id i (raw_of i) r)).1
  unfolding packed set_bit test_bit decoded sized
  packed-IsHonestFrame with_sum file_id i (out, true) same =
      received-IsHonestFrame with_sum _ (raw_of i) (omega arith) refl (λ z. absurd cc)
        (λ chunk nz dec. ground (arith, dec))
  packed-IsHonestFrame with_sum file_id i (out, false) same =
      let back : codec.decompress out (pos (chunk_len job.size job.chunk i)) ≡ some (raw_of i) =
        rw (long i) at (v.back (raw_of i) out (within i) same) in
      received-IsHonestFrame with_sum _ out (omega arith) refl (λ z. absurd cc)
        (λ chunk nz dec. ground (arith, dec, back))

  -- The frame of chunk `i`, sparse or not, compressed or raw, with a sum or without.
  pub outgoing-IsHonestFrame :
      (sparse with_sum : Bool) (file_id i : ℕ)
      → IsHonestFrame job fit codec.decompress with_sum
          (received with_sum (outgoing sparse codec.compress file_id i (raw_of i))).0
          (received with_sum (outgoing sparse codec.compress file_id i (raw_of i))).1
  unfolding outgoing
  outgoing-IsHonestFrame sparse with_sum file_id i =
      elim (Bool-cases (sparse && all_zero (raw_of i))) [
        | inr bytes ↦ rw bytes (packed-IsHonestFrame with_sum file_id i _ refl)
        | inl zeros ↦ rw zeros (
            received-IsHonestFrame with_sum _ [] zero_small zero_plain
              (λ _ b x.
                All-slice IsZero job.source (i * job.chunk) (chunk_len job.size job.chunk i) b
                  ((all_zero_iff (raw_of i)).0 (ground arith)) x.0 x.1)
              (λ chunk nz dec. absurd (let is = zero_is_zero in cc (is, nz))))
      ]
