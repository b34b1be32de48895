-- ===== src/Protocol/DataLaws.antt =====
-- A chunk frame goes through a data stream unchanged, and the checksum trailer is checked.
use botjim.Prelude.{
  ℕ, ◌+◌, ◌-◌, ◌%◌, ◌^◌, ◌<◌, ◌≤◌, ◌≡◌, ◌∙◌, refl, sym, arith, Bool, true, false, not, ◌&&◌, some,
  [], ◌∷◌, ◌++◌, Bytes, length, length-append, take, drop, ◌==◌, ltb, if◌then◌else◌, inl, inr,
  IsByte, IsBytes, All-drop, ltb-of_le, length-drop, take-append-drop,
}
use botjim.Wire.Words.{le_bytes, of_le, of_le-le_bytes, le_bytes-of_le, length-le_bytes, capacity}
use botjim.Wire.Bits.{test_bit, set_bit, test_bit-set_bit}
use botjim.Wire.Encoder.{◌then◌}
use botjim.Wire.Reads.{take-append, drop-append}
use botjim.Wire.Crc.{crc_update-lt}
use botjim.Wire.Stream.{
  got, pure, unless, Takes, Takes-bind, Takes-last, Takes-unless, Takes-read_byte,
  Takes-read_uvarint, Takes-read_full, wrong_sum,
}
use botjim.Protocol.Data.{
  stream_kind_data, zero_flag, sum_flag, frame_chunk_type, max_chunk_payload, data_hello,
  accept_data_stream, ChunkHeader, chunk_frame, write_chunk, chunk_body, read_chunk, chunk_sum,
  summed, write_chunk_summed, checked_body,
}

-- The hello of a data stream whose index is a uint64 is accepted with its index, and the frames behind it are left.
pub data_hello_roundtrip :
    (index : ℕ) (rest : Bytes)
    → index < 2 ^ 64
    → accept_data_stream (data_hello index ++ rest) ≡ got index rest
unfolding accept_data_stream data_hello
data_hello_roundtrip index rest h =
    (Takes-bind _ (Takes-read_byte stream_kind_data)
        (Takes-unless _ refl (Takes-last _ (Takes-read_uvarint index h) refl))).takes
      rest

pub record IsChunkHeader (h : ChunkHeader) : Type 0 where
  pub file_id : h.file_id < 2 ^ 32
  pub chunk_idx : h.chunk_idx < 2 ^ 64
  pub payload_len : h.payload_len ≤ max_chunk_payload
  pub zero_only : h.payload_len ≡ 0 → test_bit h.flags zero_flag ≡ true

Takes-body :
    (h : ChunkHeader) (payload : Bytes)
    → IsChunkHeader h
    → length payload ≡ h.payload_len
    → Takes (chunk_body h) payload (h, payload)
unfolding chunk_body
Takes-body h [] v len = record {
  takes = λ rest.
      let empty : (h.payload_len == 0) ≡ true = ground arith in
      let zero : test_bit h.flags zero_flag ≡ true = v.zero_only (sym len) in
      rw (empty, chunk_body) (unfold pure unless in rw zero);
}
Takes-body h (b ∷ bs) v len =
    let more : (h.payload_len == 0) ≡ false = ground arith in
    rw more (Takes-last (λ p. (h, p)) (Takes-read_full h.payload_len (b ∷ bs) len) refl)

Takes-chunk :
    (h : ChunkHeader) (payload : Bytes)
    → IsChunkHeader h
    → length payload ≡ h.payload_len
    → Takes read_chunk (chunk_frame h payload) (h, payload)
unfolding read_chunk chunk_frame
Takes-chunk h payload v len = Takes-bind _ (Takes-read_byte frame_chunk_type) (
    Takes-unless _ refl (
      Takes-bind _ (Takes-read_uvarint h.file_id (omega (arith, v.file_id))) (
        Takes-bind _ (Takes-read_uvarint h.chunk_idx v.chunk_idx) (
          Takes-bind _ (Takes-read_byte h.flags) (
            Takes-bind _ (Takes-read_uvarint h.payload_len (omega (arith, v.payload_len))) (
              Takes-unless _ (ltb-of_le _ _ v.payload_len)
                (rw narrow (Takes-body h payload v len))))))))
  where
    narrow : h.file_id % 2 ^ 32 ≡ h.file_id
    narrow = omega (arith, v.file_id)

-- What WriteChunk puts on a stream, for a header whose fields fit, ReadChunk takes from it: the same
-- header and payload.
pub chunk_roundtrip :
    (h : ChunkHeader) (payload rest : Bytes) {p : Bytes}
    → IsChunkHeader h
    → write_chunk h payload ≡ some p
    → read_chunk (p ++ rest) ≡ got (h, payload) rest
unfolding write_chunk
chunk_roundtrip h payload rest {p} v w =
    let (len, bytes_are) = written in rw bytes_are ((Takes-chunk h payload v len).takes rest)
  where
    written : (length payload ≡ h.payload_len) × (p ≡ chunk_frame h payload)
    written = ground arith

pub record IsSummed (h : ChunkHeader) (body : Bytes) : Type 0 where
  pub file_id : h.file_id < 2 ^ 32
  pub chunk_idx : h.chunk_idx < 2 ^ 64
  pub flags : h.flags < 256
  pub fits : length body + 4 ≤ max_chunk_payload

abbrev pub trailer : ChunkHeader → Bytes → Bytes
trailer h body = le_bytes 4 (chunk_sum (summed h body) body)

length-trailer :
    (h : ChunkHeader) (body : Bytes) → length (body ++ trailer h body) ≡ length body + 4
length-trailer h body = omega (
  arith,
  length-append body (le_bytes 4 (chunk_sum (summed h body) body)),
  length-le_bytes 4 (chunk_sum (summed h body) body),
)

has_sum : (flags : ℕ) → flags < 256 → test_bit (set_bit flags sum_flag) sum_flag ≡ true
has_sum flags h = rw (test_bit-set_bit flags sum_flag sum_flag h (omega arith) (omega arith))

sum_read :
    (h : ChunkHeader) (body : Bytes) → of_le (trailer h body) ≡ chunk_sum (summed h body) body
unfolding chunk_sum capacity
sum_read h body = of_le-le_bytes 4 _ (crc_update-lt _ body)

pick :
    {A : Type 0} (x y z : A) (n c : Bool)
    → (if n && false then x else if not c then y else z) ≡ (if c then z else y)
pick x y z true true = refl
pick x y z true false = refl
pick x y z false true = refl
pick x y z false false = refl

-- The check of a payload that ends in four bytes more than the body.
checked-split :
    (negotiated : Bool) (h : ChunkHeader) (body tail : Bytes)
    → test_bit h.flags sum_flag ≡ true
    → length tail ≡ 4
    → checked_body negotiated h (body ++ tail)
      ≡ (if chunk_sum h body == of_le tail then inr body else inl wrong_sum)
unfolding checked_body
checked-split negotiated h body tail flag four =
    let len : length (body ++ tail) - 4 ≡ length body = omega (arith, length-append body tail) in
    let long : ltb (length (body ++ tail)) 4 ≡ false = ground (arith, length-append body tail) in
    rw (flag, long, len, take-append body tail, drop-append body tail)
      (pick _ _ _ negotiated (chunk_sum h body == of_le tail))

same_sum :
    (h : ChunkHeader) (body : Bytes)
    → chunk_sum (summed h body) body == chunk_sum (summed h body) body ≡ true
same_sum h body = ground arith

pub checked_body-summed :
    (negotiated : Bool) (h : ChunkHeader) (body : Bytes)
    → h.flags < 256
    → checked_body negotiated (summed h body) (body ++ trailer h body) ≡ inr body
checked_body-summed negotiated h body small =
    checked-split negotiated (summed h body) body (trailer h body) (has_sum h.flags small)
      (length-le_bytes 4 _)
    ∙ rw (sum_read h body, same_sum h body)

pub read_chunk-summed :
    (h : ChunkHeader) (body rest : Bytes)
    → IsSummed h body
    → read_chunk (write_chunk_summed h body ++ rest)
      ≡ got (summed h body, body ++ trailer h body) rest
unfolding write_chunk_summed
read_chunk-summed h body rest v =
    (Takes-chunk (summed h body) (body ++ trailer h body) valid (length-trailer h body)).takes rest
  where
    valid : IsChunkHeader (summed h body)
    valid = record {
      file_id = v.file_id;
      chunk_idx = v.chunk_idx;
      payload_len = v.fits;
      zero_only = λ e. absurd (omega arith);
    }

-- What WriteChunkSummed puts on a stream, for a header whose fields fit and a body that leaves room
-- for the sum, ReadChunk takes from it, and the receiver's check gives
-- back the body, whether it negotiated checksums or not.
pub summed_roundtrip :
    (negotiated : Bool) (h : ChunkHeader) (body rest : Bytes)
    → IsSummed h body
    → (payload : Bytes) × (read_chunk (write_chunk_summed h body ++ rest)
        ≡ got (summed h body, payload) rest)
      × (checked_body negotiated (summed h body) payload ≡ inr body)
summed_roundtrip negotiated h body rest v = (
  body ++ trailer h body,
  read_chunk-summed h body rest v,
  checked_body-summed negotiated h body v.flags,
)

passed :
    (h : ChunkHeader) (payload : Bytes) {body : Bytes}
    → checked_body true h payload ≡ inr body
    → (test_bit h.flags sum_flag ≡ true)
      × (4 ≤ length payload)
      × (chunk_sum h body ≡ of_le (drop (length payload - 4) payload))
      × (body ≡ take (length payload - 4) payload)
unfolding checked_body
passed h payload e = ground arith

-- Where checksums are negotiated, a payload passes the receiver's check only if the frame has the
-- sum flag and the payload is the body that the check returns with the four bytes of the sum over
-- the frame's identity and that body behind it.
pub checked_body_sound :
    (h : ChunkHeader) (payload : Bytes) {body : Bytes}
    → IsBytes payload
    → checked_body true h payload ≡ inr body
    → (test_bit h.flags sum_flag ≡ true) × (payload ≡ body ++ le_bytes 4 (chunk_sum h body))
checked_body_sound h payload {body} all e =
    let (flag, long, sum, front) = passed h payload e in
    let tail = drop (length payload - 4) payload in
    let four : length tail ≡ 4 = omega (arith, length-drop (length payload - 4) payload) in
    let trailing : le_bytes 4 (of_le tail) ≡ tail =
      rw four at (le_bytes-of_le tail (All-drop IsByte _ payload all)) in
    (flag, rw (sum, trailing, front) (sym (take-append-drop _ payload)))
