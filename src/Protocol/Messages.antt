-- ===== src/Protocol/Messages.antt =====
-- internal/protocol/messages.go: the control messages with a fixed set of fields. A `Go` struct
-- is a record; a uintN field is a number, and `IsValid` says that it fits.
use botjim.Prelude.{ℕ, ◌%◌, ◌^◌, Bool, Bytes, ◌==◌, if◌then◌else◌}
use botjim.Wire.Encoder.{◌then◌, put_u8, put_u16, put_u32, put_u64, put_uv, put_bytes, put_str}
use botjim.Wire.Decoder.{Result, M, ◌>>=◌, pure, u8, u16, u32, u64, uv, bytes, str, decode}

-- `f := uint8(0); if b { f = 1 }`
unfoldable pub flag : Bool → ℕ
flag b = if b then 1 else 0

pub record TransferAck : Type 0 where
  pub accepted : Bool
  pub err_code : ℕ
  pub msg : Bytes

unfoldable pub encode_transfer_ack : TransferAck → Bytes
encode_transfer_ack m = put_u8 (flag m.accepted) then put_u16 m.err_code then put_str m.msg

unfoldable pub transfer_ack : M TransferAck
transfer_ack = do
  accepted ← u8
  err_code ← u16
  msg ← str
  pure (record { accepted = accepted == 1; err_code = err_code; msg = msg })

unfoldable pub decode_transfer_ack : Bytes → Result TransferAck
unfolding transfer_ack
decode_transfer_ack = decode transfer_ack

pub record ManifestEnd : Type 0 where
  pub files : ℕ
  pub total_bytes : ℕ
  pub dirs : ℕ
  pub has_hardlinks : Bool

unfoldable pub encode_manifest_end : ManifestEnd → Bytes
encode_manifest_end m =
    put_u64 m.files
    then put_u64 m.total_bytes
    then put_u64 m.dirs
    then put_u8 (flag m.has_hardlinks)

unfoldable pub manifest_end : M ManifestEnd
manifest_end = do
  files ← u64
  total_bytes ← u64
  dirs ← u64
  hl ← u8
  pure (record { files = files; total_bytes = total_bytes; dirs = dirs; has_hardlinks = hl == 1 })

unfoldable pub decode_manifest_end : Bytes → Result ManifestEnd
unfolding manifest_end
decode_manifest_end = decode manifest_end

pub record FileResult : Type 0 where
  pub file_id : ℕ
  pub status : ℕ
  pub code : ℕ
  pub msg : Bytes

unfoldable pub encode_file_result : FileResult → Bytes
encode_file_result m = put_uv m.file_id then put_u8 m.status then put_u16 m.code then put_str m.msg

-- `uint32(d.uv())`
abbrev pub low32 : ℕ → ℕ
low32 v = v % 2 ^ 32

unfoldable pub file_result : M FileResult
file_result = do
  file_id ← uv
  status ← u8
  code ← u16
  msg ← str
  pure (record { file_id = low32 file_id; status = status; code = code; msg = msg })

unfoldable pub decode_file_result : Bytes → Result FileResult
unfolding file_result
decode_file_result = decode file_result

pub record ChunkRetry : Type 0 where
  pub file_id : ℕ
  pub chunk_idx : ℕ
  pub reason : ℕ

unfoldable pub encode_chunk_retry : ChunkRetry → Bytes
encode_chunk_retry m = put_uv m.file_id then put_uv m.chunk_idx then put_u8 m.reason

unfoldable pub chunk_retry : M ChunkRetry
chunk_retry = do
  file_id ← uv
  chunk_idx ← uv
  reason ← u8
  pure (record { file_id = low32 file_id; chunk_idx = chunk_idx; reason = reason })

unfoldable pub decode_chunk_retry : Bytes → Result ChunkRetry
unfolding chunk_retry
decode_chunk_retry = decode chunk_retry

pub record ListReq : Type 0 where
  pub path : Bytes
  pub offset : ℕ
  pub limit : ℕ

unfoldable pub encode_list_req : ListReq → Bytes
encode_list_req m = put_str m.path then put_u32 m.offset then put_u16 m.limit

unfoldable pub list_req : M ListReq
list_req = do
  path ← str
  offset ← u32
  limit ← u16
  pure (record { path = path; offset = offset; limit = limit })

unfoldable pub decode_list_req : Bytes → Result ListReq
unfolding list_req
decode_list_req = decode list_req

pub record ErrMsg : Type 0 where
  pub scope : ℕ
  pub code : ℕ
  pub msg : Bytes

unfoldable pub encode_err_msg : ErrMsg → Bytes
encode_err_msg m = put_u8 m.scope then put_u16 m.code then put_str m.msg

unfoldable pub err_msg : M ErrMsg
err_msg = do
  scope ← u8
  code ← u16
  msg ← str
  pure (record { scope = scope; code = code; msg = msg })

unfoldable pub decode_err_msg : Bytes → Result ErrMsg
unfolding err_msg
decode_err_msg = decode err_msg

pub record Commit : Type 0 where
  pub file_id : ℕ

unfoldable pub encode_commit : Commit → Bytes
encode_commit m = put_uv m.file_id

unfoldable pub commit : M Commit
commit = do file_id ← uv; pure (record { file_id = low32 file_id })

unfoldable pub decode_commit : Bytes → Result Commit
unfolding commit
decode_commit = decode commit

pub record ClaimResult : Type 0 where
  pub file_id : ℕ
  pub verified : Bytes

unfoldable pub encode_claim_result : ClaimResult → Bytes
encode_claim_result m = put_uv m.file_id then put_bytes m.verified

unfoldable pub claim_result : M ClaimResult
claim_result = do
  file_id ← uv
  verified ← bytes
  pure (record { file_id = low32 file_id; verified = verified })

unfoldable pub decode_claim_result : Bytes → Result ClaimResult
unfolding claim_result
decode_claim_result = decode claim_result

pub record ChunkRequest : Type 0 where
  pub file_id : ℕ
  pub chunk_idx : ℕ

unfoldable pub encode_chunk_request : ChunkRequest → Bytes
encode_chunk_request m = put_uv m.file_id then put_uv m.chunk_idx

unfoldable pub chunk_request : M ChunkRequest
chunk_request = do
  file_id ← uv
  chunk_idx ← uv
  pure (record { file_id = low32 file_id; chunk_idx = chunk_idx })

unfoldable pub decode_chunk_request : Bytes → Result ChunkRequest
unfolding chunk_request
decode_chunk_request = decode chunk_request

pub record Done : Type 0 where
  pub files : ℕ
  pub total_bytes : ℕ
  pub errors : ℕ

unfoldable pub encode_done : Done → Bytes
encode_done m = put_u64 m.files then put_u64 m.total_bytes then put_u32 m.errors

unfoldable pub done : M Done
done = do
  files ← u64
  total_bytes ← u64
  errors ← u32
  pure (record { files = files; total_bytes = total_bytes; errors = errors })

unfoldable pub decode_done : Bytes → Result Done
unfolding done
decode_done = decode done
