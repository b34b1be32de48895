-- ===== src/Protocol/StreamTests.antt =====
-- Frames, counted lists and chunks at concrete values.
use botjim.Prelude.{
  ◌≤◌, ◌≡◌, refl, arith, true, false, some, [], ◌∷◌, ◌++◌, Bytes, IsBytes, length, inl, inr,
  replicate,
}
use botjim.Prelude.Int.{negsuc}
use botjim.Wire.Decoder.{ok}
use botjim.Wire.Bits.{test_bit}
use botjim.Wire.Words.{le_bytes}
use botjim.Wire.Stream.{got}
use botjim.Protocol.Init.{
  InitTransfer, encode_init_transfer, decode_init_transfer, HaveBitmap, encode_have_bitmap,
  decode_have_bitmap, ListResp, encode_list_resp, decode_list_resp,
}
use botjim.Protocol.CountedLists.{
  IsInitTransfer, init_transfer_roundtrip, IsHaveBitmap, have_bitmap_roundtrip, IsListResp,
  list_resp_roundtrip,
}
use botjim.Protocol.Ctrl.{send, CtrlFrame, max_ctrl_payload, recv, send_all, recv_all}
use botjim.Protocol.CtrlLaws.{ctrl_roundtrip}
use botjim.Protocol.CtrlCanonical.{recv_canonical}
use botjim.Protocol.Data.{
  sum_flag, data_hello, accept_data_stream, ChunkHeader, write_chunk, read_chunk, chunk_sum, summed,
  write_chunk_summed, checked_body,
}
use botjim.Protocol.DataLaws.{
  data_hello_roundtrip, IsChunkHeader, chunk_roundtrip, IsSummed, summed_roundtrip,
  checked_body_sound,
}

abbrev ping : CtrlFrame
ping = record { type = 0x30; flags = 0; payload = [] }

abbrev short_frame : CtrlFrame
short_frame = record { type = 0x35; flags = 0; payload = 7 ∷ [] }

abbrev both_frames : Bytes
both_frames = 0x30 ∷ 0 ∷ 0 ∷ 0 ∷ 0 ∷ 0 ∷ 0x35 ∷ 0 ∷ 1 ∷ 0 ∷ 0 ∷ 0 ∷ 7 ∷ []

both_sent : send_all (ping ∷ short_frame ∷ []) ≡ some both_frames
unfolding send_all botjim.Wire.Encoder.◌then◌ le_bytes
both_sent = refl

ctrl_roundtrip_case : recv_all 2 (both_frames ++ (4 ∷ [])) ≡ got (ping ∷ short_frame ∷ []) (4 ∷ [])
ctrl_roundtrip_case = ctrl_roundtrip (ping ∷ short_frame ∷ []) (4 ∷ []) both_sent

short_received : recv (0x35 ∷ 0 ∷ 1 ∷ 0 ∷ 0 ∷ 0 ∷ 7 ∷ 4 ∷ []) ≡ got short_frame (4 ∷ [])
unfolding recv botjim.Wire.Stream.◌>>=◌ botjim.Wire.Stream.read_full botjim.Wire.Stream.unless
    botjim.Wire.Words.of_le botjim.Wire.Stream.pure
short_received = refl

abbrev arriving : Bytes
arriving = 0x35 ∷ 0 ∷ 1 ∷ 0 ∷ 0 ∷ 0 ∷ 7 ∷ 4 ∷ []

arriving-IsBytes : IsBytes arriving
arriving-IsBytes = (
  omega arith,
  (
    omega arith,
    (omega arith, (omega arith, (omega arith, (omega arith, (omega arith, (omega arith, tt)))))),
  ),
)

recv_canonical_example :
    (length (short_frame.payload) ≤ max_ctrl_payload)
    × ((p : Bytes) × (send short_frame ≡ some p) × (arriving ≡ p ++ (4 ∷ [])))
recv_canonical_example = recv_canonical arriving arriving-IsBytes short_received

data_hello_roundtrip_case : accept_data_stream (data_hello 300 ++ (32 ∷ [])) ≡ got 300 (32 ∷ [])
data_hello_roundtrip_case = data_hello_roundtrip 300 (32 ∷ []) (omega arith)

abbrev header : ChunkHeader
header = record { file_id = 9; chunk_idx = 200; flags = 2; payload_len = 3 }

header-IsChunkHeader : IsChunkHeader header
header-IsChunkHeader = record {
  file_id = omega arith;
  chunk_idx = omega arith;
  payload_len = omega arith;
  zero_only = λ e. absurd (omega arith);
}

header_written :
    write_chunk header (1 ∷ 2 ∷ 3 ∷ []) ≡ some (0x20 ∷ 9 ∷ 200 ∷ 1 ∷ 2 ∷ 3 ∷ 1 ∷ 2 ∷ 3 ∷ [])
unfolding write_chunk botjim.Wire.Encoder.◌then◌ botjim.Wire.Varint.append_uvarint
header_written = refl

chunk_roundtrip_case :
    read_chunk ((0x20 ∷ 9 ∷ 200 ∷ 1 ∷ 2 ∷ 3 ∷ 1 ∷ 2 ∷ 3 ∷ []) ++ (32 ∷ []))
    ≡ got (header, 1 ∷ 2 ∷ 3 ∷ []) (32 ∷ [])
chunk_roundtrip_case =
    chunk_roundtrip header (1 ∷ 2 ∷ 3 ∷ []) (32 ∷ []) header-IsChunkHeader header_written

header-IsSummed : IsSummed header (1 ∷ 2 ∷ 3 ∷ [])
header-IsSummed = record {
  file_id = omega arith;
  chunk_idx = omega arith;
  flags = omega arith;
  fits = omega arith;
}

summed_roundtrip_case :
    (payload : Bytes) × (read_chunk (write_chunk_summed header (1 ∷ 2 ∷ 3 ∷ []) ++ (32 ∷ []))
      ≡ got (summed header (1 ∷ 2 ∷ 3 ∷ []), payload) (32 ∷ []))
    × (checked_body true (summed header (1 ∷ 2 ∷ 3 ∷ [])) payload ≡ inr (1 ∷ 2 ∷ 3 ∷ []))
summed_roundtrip_case = summed_roundtrip true header (1 ∷ 2 ∷ 3 ∷ []) (32 ∷ []) header-IsSummed

-- A frame as it arrives, with the sum flag.
abbrev arrived : ChunkHeader
arrived = record { file_id = 9; chunk_idx = 200; flags = 10; payload_len = 7 }

abbrev push_request : InitTransfer
push_request = record {
  dir = 0;
  compression = 1;
  zstd_level = 3;
  chunk_policy = 0;
  preserve = 511;
  parallel = 8;
  resume = 1;
  root_name = 97 ∷ [];
  paths = (47 ∷ 97 ∷ []) ∷ [] ∷ [];
}

push_fits : IsInitTransfer push_request
push_fits = record {
  dir = inl refl;
  compression = omega arith;
  zstd_level = omega arith;
  chunk_policy = omega arith;
  preserve = omega arith;
  parallel = omega arith;
  resume = omega arith;
  root_name = omega arith;
  count = omega arith;
  paths = (omega arith, (omega arith, tt));
}

init_transfer_roundtrip_case :
    decode_init_transfer (encode_init_transfer push_request) ≡ ok push_request
init_transfer_roundtrip_case = init_transfer_roundtrip push_request push_fits

abbrev two_chunks : HaveBitmap
two_chunks = record {
  file_id = 5;
  status = 0;
  bitmap = 3 ∷ [];
  hashes = replicate 32 7 ∷ replicate 32 255 ∷ [];
}

two_fit : IsHaveBitmap two_chunks
two_fit = record {
  file_id = omega arith;
  status = omega arith;
  bitmap = omega arith;
  count = omega arith;
  hashes = (refl, (refl, tt));
}

have_bitmap_roundtrip_case : decode_have_bitmap (encode_have_bitmap two_chunks) ≡ ok two_chunks
have_bitmap_roundtrip_case = have_bitmap_roundtrip two_chunks two_fit

abbrev listing : ListResp
listing = record {
  total = 1;
  truncated = false;
  entries =
      record { name = 97 ∷ []; is_dir = true; size = 4096; mtime_ms = negsuc 9; mode = 493 } ∷ [];
}

listing_fits : IsListResp listing
listing_fits = record {
  total = omega arith;
  count = omega arith;
  entries = (
    record { name = omega arith; size = omega arith; mtime_ms = omega arith; mode = omega arith },
    tt,
  );
}

list_resp_roundtrip_case : decode_list_resp (encode_list_resp listing) ≡ ok listing
list_resp_roundtrip_case = list_resp_roundtrip listing listing_fits

sum_checked :
    checked_body true arrived (1 ∷ 2 ∷ 3 ∷ 157 ∷ 82 ∷ 56 ∷ 249 ∷ []) ≡ inr (1 ∷ 2 ∷ 3 ∷ [])
unfolding checked_body test_bit chunk_sum botjim.Wire.Crc.crc_update
    botjim.Wire.Varint.append_uvarint botjim.Wire.Bits.clear_bit botjim.Wire.Words.of_le
sum_checked = refl

arrived-IsBytes : IsBytes (1 ∷ 2 ∷ 3 ∷ 157 ∷ 82 ∷ 56 ∷ 249 ∷ [])
arrived-IsBytes = (
  omega arith,
  (omega arith, (omega arith, (omega arith, (omega arith, (omega arith, (omega arith, tt)))))),
)

checked_body_sound_example :
    (test_bit 10 sum_flag ≡ true)
    × (1 ∷ 2 ∷ 3 ∷ 157 ∷ 82 ∷ 56 ∷ 249 ∷ []
        ≡ (1 ∷ 2 ∷ 3 ∷ []) ++ le_bytes 4 (chunk_sum arrived (1 ∷ 2 ∷ 3 ∷ [])))
checked_body_sound_example =
    checked_body_sound arrived (1 ∷ 2 ∷ 3 ∷ 157 ∷ 82 ∷ 56 ∷ 249 ∷ []) arrived-IsBytes sum_checked
