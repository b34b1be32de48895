-- ===== src/Protocol/Data.antt =====
-- internal/protocol/data.go: the chunk frames of a data stream, and the check of the trailer that
-- absorbChunk of internal/engine/receiver.go makes.
use botjim.Prelude.{
  ℕ, ◌+◌, ◌-◌, ◌*◌, ◌%◌, ◌^◌, Bool, not, ◌&&◌, Option, none, some, [], ◌∷◌, ◌++◌, Bytes, length,
  take, drop, ◌==◌, ltb, if◌then◌else◌, ◌⊎◌, inl, inr,
}
use botjim.Wire.Varint.{append_uvarint}
use botjim.Wire.Words.{le_bytes, of_le}
use botjim.Wire.Bits.{test_bit, set_bit, clear_bit}
use botjim.Wire.Encoder.{◌then◌}
use botjim.Wire.Crc.{crc_update}
use botjim.Wire.Stream.{
  Reader, StreamError, ◌>>=◌, pure, unless, bad_stream_kind, bad_frame_type, too_large,
  empty_payload, missing_sum, short_sum, wrong_sum, read_byte, read_uvarint, read_full,
}

abbrev pub stream_kind_data : ℕ
stream_kind_data = 2

-- The positions of the flag bits.
abbrev pub zero_flag : ℕ
zero_flag = 0

abbrev pub raw_flag : ℕ
raw_flag = 1

abbrev pub sum_flag : ℕ
sum_flag = 3

abbrev pub frame_chunk_type : ℕ
frame_chunk_type = 0x20

abbrev pub max_chunk_payload : ℕ
max_chunk_payload = 17 * 2 ^ 20 + 4096

-- The hello of NewDataStream and AcceptDataStream.
unfoldable pub data_hello : ℕ → Bytes
data_hello index = (stream_kind_data ∷ []) then append_uvarint index

unfoldable pub accept_data_stream : Reader ℕ
accept_data_stream = read_byte >>= λ kind.
    unless (not (kind == stream_kind_data)) (bad_stream_kind kind)
      (read_uvarint >>= λ index. pure index)

pub record ChunkHeader : Type 0 where
  pub file_id : ℕ
  pub chunk_idx : ℕ
  pub flags : ℕ
  pub payload_len : ℕ

-- The header and the bytes behind it.
unfoldable pub chunk_frame : ChunkHeader → Bytes → Bytes
chunk_frame h payload =
    (frame_chunk_type ∷ [])
    then append_uvarint h.file_id
    then append_uvarint h.chunk_idx
    then (h.flags ∷ [])
    then append_uvarint h.payload_len
    then payload

-- The two ways to write, at once or in parts, leave the same bytes on the stream.
unfoldable pub write_chunk : ChunkHeader → Bytes → Option Bytes
unfolding chunk_frame
write_chunk h payload =
    if not (length payload == h.payload_len) then none else some (chunk_frame h payload)

-- An empty payload wants the zero flag.
unfoldable pub chunk_body : ChunkHeader → Reader (ChunkHeader × Bytes)
chunk_body h =
    if h.payload_len == 0
    then unless (not (test_bit h.flags zero_flag)) empty_payload (pure (h, []))
    else read_full h.payload_len >>= λ payload. pure (h, payload)

unfoldable pub read_chunk : Reader (ChunkHeader × Bytes)
unfolding chunk_body
read_chunk = read_byte >>= λ t. unless (not (t == frame_chunk_type)) (bad_frame_type t) (
    read_uvarint >>= λ file_id.
    (read_uvarint >>= λ idx.
    (read_byte >>= λ flags.
    (read_uvarint >>= λ plen. unless (ltb max_chunk_payload plen) (too_large plen) (
      chunk_body (record {
        file_id = file_id % 2 ^ 32;
        chunk_idx = idx;
        flags = flags;
        payload_len = plen;
      }))))))

-- The checksum over the frame's identity, less the sum flag, and the body.
unfoldable pub chunk_sum : ChunkHeader → Bytes → ℕ
chunk_sum h body =
    crc_update
      (crc_update 0 (
        append_uvarint h.file_id
        ++ (append_uvarint h.chunk_idx ++ clear_bit h.flags sum_flag ∷ [])))
      body

-- The header that WriteChunkSummed sends in place of `h`.
abbrev pub summed : ChunkHeader → Bytes → ChunkHeader
summed h body = record h { flags = set_bit h.flags sum_flag; payload_len = length body + 4 }

unfoldable pub write_chunk_summed : ChunkHeader → Bytes → Bytes
unfolding chunk_frame chunk_sum
write_chunk_summed h body =
    chunk_frame (summed h body) (body ++ le_bytes 4 (chunk_sum (summed h body) body))

-- The check in absorbChunk: `negotiated` is the receiver's chunkSum.
unfoldable pub checked_body : Bool → ChunkHeader → Bytes → StreamError ⊎ Bytes
checked_body negotiated h payload =
    if negotiated && not (test_bit h.flags sum_flag)
    then inl missing_sum
    else if not (test_bit h.flags sum_flag)
    then inr payload
    else if ltb (length payload) 4
    then inl short_sum
    else if not (
        chunk_sum h (take (length payload - 4) payload)
        == of_le (drop (length payload - 4) payload))
    then inl wrong_sum
    else inr (take (length payload - 4) payload)
