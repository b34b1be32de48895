-- ===== src/Protocol/Tests.antt =====
-- The wire format at concrete values.
use botjim.Prelude.{
  ◌≡◌, refl, arith, Bool, true, some, ltb, ◌&&◌, [], ◌∷◌, ◌++◌, Bytes, IsBytes, length,
}
use botjim.Prelude.Int.{pos, negsuc}
use botjim.Manifest.{Entry, regular}
use botjim.Wire.Decoder.{ok}
use botjim.Wire.Words.{le_bytes}
use botjim.Wire.Stream.{got}
use botjim.Protocol.Messages.{FileResult, encode_file_result}
use botjim.Protocol.Entry.{
  encode_entry, decode_entry, ManifestBatch, encode_manifest_batch, decode_manifest_batch,
}
use botjim.Protocol.RoundTrip.{IsFileResult}
use botjim.Protocol.EntryRoundTrip.{
  IsEntry, IsExtra, received, entry_roundtrip, manifest_batch_roundtrip,
}
use botjim.Protocol.Handshake.{Handshake, marshal_handshake, read_handshake}
use botjim.Protocol.HandshakeLaws.{IsHandshake, handshake_roundtrip}
use botjim.Protocol.HandshakeCanonical.{read_handshake_canonical}
use botjim.Protocol.Ctrl.{CtrlFrame, send, recv}
use botjim.Protocol.Control.{
  Message, file_result, IsMessage, delivered, encode_message, decode_message, frame_of,
  control_roundtrip,
}

abbrev result : FileResult
result = record { file_id = 300; status = 2; code = 9; msg = 110 ∷ 111 ∷ [] }

result_fits : IsFileResult result
result_fits = record {
  file_id = omega arith;
  status = omega arith;
  code = omega arith;
  msg = omega arith;
}

result_frame :
    send (frame_of (file_result result))
    ≡ some (0x11 ∷ 0 ∷ 8 ∷ 0 ∷ 0 ∷ 0 ∷ 172 ∷ 2 ∷ 2 ∷ 9 ∷ 0 ∷ 2 ∷ 110 ∷ 111 ∷ [])
unfolding send encode_message encode_file_result botjim.Wire.Encoder.◌then◌
    botjim.Wire.Encoder.put_uv botjim.Wire.Varint.append_uvarint botjim.Wire.Encoder.put_u8 le_bytes
    botjim.Wire.Encoder.put_u16 botjim.Wire.Encoder.put_bytes botjim.Protocol.Control.msg_type
result_frame = refl

control_roundtrip_example :
    (f : CtrlFrame) × (recv
        ((0x11 ∷ 0 ∷ 8 ∷ 0 ∷ 0 ∷ 0 ∷ 172 ∷ 2 ∷ 2 ∷ 9 ∷ 0 ∷ 2 ∷ 110 ∷ 111 ∷ []) ++ (5 ∷ []))
      ≡ got f (5 ∷ []))
    × (decode_message f.type f.payload ≡ some (ok (file_result result)))
control_roundtrip_example = control_roundtrip (file_result result) (5 ∷ []) result_fits result_frame

abbrev hello : Handshake
hello = record {
  proto_major = 1;
  proto_minor = 0;
  cipher_id = 0;
  flags = 3;
  feature_bits = 65537;
  nonce = 1 ∷ 2 ∷ 3 ∷ 4 ∷ 5 ∷ 6 ∷ 7 ∷ 8 ∷ 9 ∷ 10 ∷ 11 ∷ 12 ∷ 13 ∷ 14 ∷ 15 ∷ 16 ∷ [];
}

hello_fits : IsHandshake hello
hello_fits = record {
  major = refl;
  cipher = refl;
  flags = refl;
  feature_bits = omega arith;
  nonce = refl;
}

handshake_roundtrip_example :
    read_handshake (marshal_handshake hello ++ (7 ∷ [])) ≡ got hello (7 ∷ [])
handshake_roundtrip_example = handshake_roundtrip hello hello_fits (7 ∷ [])

all_below : Bytes → Bool
all_below [] = true
all_below (b ∷ p) = ltb b 256 && all_below p

all_below-IsBytes : (p : Bytes) → all_below p ≡ true → IsBytes p
unfolding all_below
all_below-IsBytes [] h = tt
all_below-IsBytes (b ∷ p) h = (ground arith, all_below-IsBytes p (ground arith))

hello_below : all_below (marshal_handshake hello ++ (7 ∷ [])) ≡ true
unfolding all_below marshal_handshake botjim.Protocol.Handshake.handshake_head le_bytes
    botjim.Wire.Crc.crc32c
hello_below = refl

hello-IsBytes : IsBytes (marshal_handshake hello ++ (7 ∷ []))
hello-IsBytes = all_below-IsBytes _ hello_below

read_handshake_canonical_example :
    (marshal_handshake hello ++ (7 ∷ []) ≡ marshal_handshake hello ++ (7 ∷ [])) × IsHandshake hello
read_handshake_canonical_example =
    read_handshake_canonical (marshal_handshake hello ++ (7 ∷ [])) hello-IsBytes
      (handshake_roundtrip hello hello_fits (7 ∷ []))

abbrev log_file : Entry
log_file = record {
  id = 7;
  kind = regular;
  rel_path = 97 ∷ 47 ∷ 98 ∷ [];
  abs_path = 47 ∷ 97 ∷ [];
  mode = 420;
  uid = 1000;
  gid = 1000;
  uname = 117 ∷ [];
  gname = [];
  mtime = record { sec = negsuc 4; nsec = 999999999 };
  atime = record { sec = pos 1700000000; nsec = 0 };
  size = pos 5000000000;
  dev = 3;
  ino = 12;
  chunk_size = pos 4194304;
  link_target = [];
  link_ref_id = 0;
  rdev = 0;
  xattrs = record { name = 117 ∷ []; value = 0 ∷ 255 ∷ [] } ∷ [];
}

log-IsExtra : IsExtra (record {
  size = pos 5000000000;
  dev = 3;
  ino = 12;
  chunk_size = pos 4194304;
  link_target = [];
  link_ref_id = 0;
  rdev = 0;
})
log-IsExtra = record {
  size = omega arith;
  dev = omega arith;
  ino = omega arith;
  chunk_size = (4194304, refl, omega arith);
  link_target = omega arith;
  link_ref_id = omega arith;
  rdev = omega arith;
}

log_fits : IsEntry log_file
log_fits = record {
  id = omega arith;
  rel_path = omega arith;
  mode = omega arith;
  uid = omega arith;
  gid = omega arith;
  uname = omega arith;
  gname = omega arith;
  mtime_sec = omega arith;
  mtime_nsec = omega arith;
  atime_sec = omega arith;
  atime_nsec = omega arith;
  extra = log-IsExtra;
  count = omega arith;
  xattrs = ((omega arith, omega arith), tt);
}

entry_roundtrip_case :
    decode_entry (encode_entry log_file ++ (9 ∷ []))
    ≡ ok (received log_file, length (encode_entry log_file))
entry_roundtrip_case = entry_roundtrip log_file (9 ∷ []) log_fits

abbrev two_entries : ManifestBatch
two_entries = record { entries = log_file ∷ log_file ∷ [] }

manifest_batch_roundtrip_case :
    decode_manifest_batch (encode_manifest_batch two_entries)
    ≡ ok (record { entries = received log_file ∷ received log_file ∷ [] })
manifest_batch_roundtrip_case =
    manifest_batch_roundtrip two_entries (omega arith) (log_fits, (log_fits, tt))
