-- ===== src/Protocol/RoundTrip.antt =====
-- Every control message with a fixed set of fields is read back as it was written.
use botjim.Prelude.{ℕ, ◌^◌, ◌<◌, ◌≡◌, refl, arith, Bool, true, false, Bytes, length, ◌==◌}
use botjim.Wire.Decoder.{ok}
use botjim.Wire.Reads.{
  Reads-bind, Reads-last, Reads-u8, Reads-u16, Reads-u32, Reads-u64, Reads-uv, Reads-bytes,
  decode-Reads,
}
use botjim.Protocol.Messages.{
  flag, low32, TransferAck, encode_transfer_ack, decode_transfer_ack, ManifestEnd,
  encode_manifest_end, decode_manifest_end, FileResult, encode_file_result, decode_file_result,
  ChunkRetry, encode_chunk_retry, decode_chunk_retry, ListReq, encode_list_req, decode_list_req,
  ErrMsg, encode_err_msg, decode_err_msg, Commit, encode_commit, decode_commit, ClaimResult,
  encode_claim_result, decode_claim_result, ChunkRequest, encode_chunk_request,
  decode_chunk_request, Done, encode_done, decode_done,
}

-- A slice or string in memory.
abbrev pub Fits : Bytes → Type 0
Fits p = length p < 2 ^ 64

pub flag-lt : (b : Bool) → flag b < 2 ^ 8
unfolding flag
flag-lt true = omega arith
flag-lt false = omega arith

pub flag-eq : (b : Bool) → (flag b == 1) ≡ b
unfolding flag
flag-eq true = refl
flag-eq false = refl

pub low32_lem : (v : ℕ) → v < 2 ^ 32 → low32 v ≡ v
low32_lem v h = omega arith

pub record IsTransferAck (m : TransferAck) : Type 0 where
  pub err_code : m.err_code < 2 ^ 16
  pub msg : Fits m.msg

-- A TransferAck is read back as it was written.
pub transfer_ack_roundtrip :
    (m : TransferAck) → IsTransferAck m → decode_transfer_ack (encode_transfer_ack m) ≡ ok m
unfolding decode_transfer_ack encode_transfer_ack
transfer_ack_roundtrip m h = decode-Reads (
    Reads-bind _ (Reads-u8 (flag-lt m.accepted)) (
      Reads-bind _ (Reads-u16 h.err_code)
        (Reads-last _ (Reads-bytes h.msg) (ground (arith, flag-eq m.accepted)))))

pub record IsManifestEnd (m : ManifestEnd) : Type 0 where
  pub files : m.files < 2 ^ 64
  pub total_bytes : m.total_bytes < 2 ^ 64
  pub dirs : m.dirs < 2 ^ 64

-- A ManifestEnd is read back as it was written.
pub manifest_end_roundtrip :
    (m : ManifestEnd) → IsManifestEnd m → decode_manifest_end (encode_manifest_end m) ≡ ok m
unfolding decode_manifest_end encode_manifest_end
manifest_end_roundtrip m h = decode-Reads (
    Reads-bind _ (Reads-u64 h.files) (
      Reads-bind _ (Reads-u64 h.total_bytes) (
        Reads-bind _ (Reads-u64 h.dirs) (
          Reads-last _ (Reads-u8 (flag-lt m.has_hardlinks))
            (ground (arith, flag-eq m.has_hardlinks))))))

pub record IsFileResult (m : FileResult) : Type 0 where
  pub file_id : m.file_id < 2 ^ 32
  pub status : m.status < 2 ^ 8
  pub code : m.code < 2 ^ 16
  pub msg : Fits m.msg

-- A FileResult is read back as it was written.
pub file_result_roundtrip :
    (m : FileResult) → IsFileResult m → decode_file_result (encode_file_result m) ≡ ok m
unfolding decode_file_result encode_file_result
file_result_roundtrip m h = decode-Reads (
    Reads-bind _ (Reads-uv (omega arith)) (
      Reads-bind _ (Reads-u8 h.status) (
        Reads-bind _ (Reads-u16 h.code)
          (Reads-last _ (Reads-bytes h.msg) (ground (arith, low32_lem m.file_id))))))

pub record IsChunkRetry (m : ChunkRetry) : Type 0 where
  pub file_id : m.file_id < 2 ^ 32
  pub chunk_idx : m.chunk_idx < 2 ^ 64
  pub reason : m.reason < 2 ^ 8

-- A ChunkRetry is read back as it was written.
pub chunk_retry_roundtrip :
    (m : ChunkRetry) → IsChunkRetry m → decode_chunk_retry (encode_chunk_retry m) ≡ ok m
unfolding decode_chunk_retry encode_chunk_retry
chunk_retry_roundtrip m h = decode-Reads (
    Reads-bind _ (Reads-uv (omega arith)) (
      Reads-bind _ (Reads-uv h.chunk_idx)
        (Reads-last _ (Reads-u8 h.reason) (ground (arith, low32_lem m.file_id)))))

pub record IsListReq (m : ListReq) : Type 0 where
  pub path : Fits m.path
  pub offset : m.offset < 2 ^ 32
  pub limit : m.limit < 2 ^ 16

-- A ListReq is read back as it was written.
pub list_req_roundtrip : (m : ListReq) → IsListReq m → decode_list_req (encode_list_req m) ≡ ok m
unfolding decode_list_req encode_list_req
list_req_roundtrip m h = decode-Reads (
    Reads-bind _ (Reads-bytes h.path)
      (Reads-bind _ (Reads-u32 h.offset) (Reads-last _ (Reads-u16 h.limit) refl)))

pub record IsErrMsg (m : ErrMsg) : Type 0 where
  pub scope : m.scope < 2 ^ 8
  pub code : m.code < 2 ^ 16
  pub msg : Fits m.msg

-- An ErrMsg is read back as it was written.
pub err_msg_roundtrip : (m : ErrMsg) → IsErrMsg m → decode_err_msg (encode_err_msg m) ≡ ok m
unfolding decode_err_msg encode_err_msg
err_msg_roundtrip m h = decode-Reads (
    Reads-bind _ (Reads-u8 h.scope)
      (Reads-bind _ (Reads-u16 h.code) (Reads-last _ (Reads-bytes h.msg) refl)))

pub record IsClaimResult (m : ClaimResult) : Type 0 where
  pub file_id : m.file_id < 2 ^ 32
  pub verified : Fits m.verified

-- A ClaimResult is read back as it was written.
pub claim_result_roundtrip :
    (m : ClaimResult) → IsClaimResult m → decode_claim_result (encode_claim_result m) ≡ ok m
unfolding decode_claim_result encode_claim_result
claim_result_roundtrip m h = decode-Reads (
    Reads-bind _ (Reads-uv (omega arith))
      (Reads-last _ (Reads-bytes h.verified) (ground (arith, low32_lem m.file_id))))

-- A Commit and a ChunkRequest are read back as they were written.
pub commit_roundtrip : (m : Commit) → m.file_id < 2 ^ 32 → decode_commit (encode_commit m) ≡ ok m
unfolding decode_commit encode_commit
commit_roundtrip m h =
    decode-Reads (Reads-last _ (Reads-uv (omega arith)) (ground (arith, low32_lem m.file_id)))

pub chunk_request_roundtrip :
    (m : ChunkRequest)
    → m.file_id < 2 ^ 32
    → m.chunk_idx < 2 ^ 64
    → decode_chunk_request (encode_chunk_request m) ≡ ok m
unfolding decode_chunk_request encode_chunk_request
chunk_request_roundtrip m h k = decode-Reads (
    Reads-bind _ (Reads-uv (omega arith))
      (Reads-last _ (Reads-uv k) (ground (arith, low32_lem m.file_id))))

pub record IsDone (m : Done) : Type 0 where
  pub files : m.files < 2 ^ 64
  pub total_bytes : m.total_bytes < 2 ^ 64
  pub errors : m.errors < 2 ^ 32

-- A Done is read back as it was written.
pub done_roundtrip : (m : Done) → IsDone m → decode_done (encode_done m) ≡ ok m
unfolding decode_done encode_done
done_roundtrip m h = decode-Reads (
    Reads-bind _ (Reads-u64 h.files)
      (Reads-bind _ (Reads-u64 h.total_bytes) (Reads-last _ (Reads-u32 h.errors) refl)))
