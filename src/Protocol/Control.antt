-- ===== src/Protocol/Control.antt =====
-- internal/protocol/protocol.go: the message types, and a message on its way through a control
-- stream. The switches over the type stand in the readCtrl loops of internal/engine and in
-- internal/session; together they decode each type with the decoder that its constant names.
use botjim.Prelude.{
  ℕ, ◌^◌, ◌<◌, ◌≤◌, ◌≡◌, refl, Option, none, some, [], ◌++◌, Bytes, length, ◌==◌, if◌then◌else◌,
  All, map,
}
use botjim.Wire.Decoder.{Result, ok, err}
use botjim.Wire.Stream.{got}
use botjim.Protocol.Ctrl.{CtrlFrame, send, recv}
use botjim.Protocol.CtrlLaws.{send-Takes}
use botjim.Protocol.Messages
use botjim.Protocol.Messages.{
  TransferAck, ManifestEnd, FileResult, ChunkRetry, ListReq, ErrMsg, Commit, ClaimResult,
  ChunkRequest, Done,
}
use botjim.Protocol.Init
use botjim.Protocol.Init.{InitTransfer, HaveBitmap, ListResp}
use botjim.Protocol.Entry
use botjim.Protocol.Entry.{ManifestBatch}
use botjim.Protocol.RoundTrip
use botjim.Protocol.RoundTrip.{
  IsTransferAck, IsManifestEnd, IsFileResult, IsChunkRetry, IsListReq, IsErrMsg, IsClaimResult,
  IsDone,
}
use botjim.Protocol.CountedLists
use botjim.Protocol.CountedLists.{IsInitTransfer, IsHaveBitmap, IsListResp}
use botjim.Protocol.EntryRoundTrip
use botjim.Protocol.EntryRoundTrip.{IsEntry, received}

pub data Message : Type 0 where
  init_transfer : InitTransfer → Message
  transfer_ack : TransferAck → Message
  manifest_batch : ManifestBatch → Message
  manifest_end : ManifestEnd → Message
  have_bitmap : HaveBitmap → Message
  file_result : FileResult → Message
  chunk_retry : ChunkRetry → Message
  list_req : ListReq → Message
  list_resp : ListResp → Message
  error : ErrMsg → Message
  done : Done → Message
  commit : Commit → Message
  chunk_request : ChunkRequest → Message
  claim_result : ClaimResult → Message
  cancel abort goodbye : Message

-- The constants.
unfoldable pub msg_type : Message → ℕ
msg_type (init_transfer m) = 0x01
msg_type (transfer_ack m) = 0x02
msg_type (manifest_batch m) = 0x03
msg_type (manifest_end m) = 0x04
msg_type (have_bitmap m) = 0x10
msg_type (file_result m) = 0x11
msg_type (chunk_retry m) = 0x12
msg_type (list_req m) = 0x20
msg_type (list_resp m) = 0x21
msg_type cancel = 0x30
msg_type abort = 0x31
msg_type goodbye = 0x32
msg_type (error m) = 0x33
msg_type (done m) = 0x34
msg_type (commit m) = 0x35
msg_type (chunk_request m) = 0x36
msg_type (claim_result m) = 0x37

unfoldable pub encode_message : Message → Bytes
encode_message (init_transfer m) = Init.encode_init_transfer m
encode_message (transfer_ack m) = Messages.encode_transfer_ack m
encode_message (manifest_batch m) = Entry.encode_manifest_batch m
encode_message (manifest_end m) = Messages.encode_manifest_end m
encode_message (have_bitmap m) = Init.encode_have_bitmap m
encode_message (file_result m) = Messages.encode_file_result m
encode_message (chunk_retry m) = Messages.encode_chunk_retry m
encode_message (list_req m) = Messages.encode_list_req m
encode_message (list_resp m) = Init.encode_list_resp m
encode_message cancel = []
encode_message abort = []
encode_message goodbye = []
encode_message (error m) = Messages.encode_err_msg m
encode_message (done m) = Messages.encode_done m
encode_message (commit m) = Messages.encode_commit m
encode_message (chunk_request m) = Messages.encode_chunk_request m
encode_message (claim_result m) = Messages.encode_claim_result m

-- What a decoder's result becomes as a message.
unfoldable pub as_message : {A : Type 0} → (A → Message) → Result A → Option (Result Message)
as_message wrap (ok m) = some (ok (wrap m))
as_message wrap (err e) = some (err e)

-- `none` is an unknown type, which the loops pass over.
unfoldable pub decode_message : ℕ → Bytes → Option (Result Message)
unfolding as_message
decode_message t p =
    if t == 0x01
    then as_message init_transfer (Init.decode_init_transfer p)
    else if t == 0x02
    then as_message transfer_ack (Messages.decode_transfer_ack p)
    else if t == 0x03
    then as_message manifest_batch (Entry.decode_manifest_batch p)
    else if t == 0x04
    then as_message manifest_end (Messages.decode_manifest_end p)
    else if t == 0x10
    then as_message have_bitmap (Init.decode_have_bitmap p)
    else if t == 0x11
    then as_message file_result (Messages.decode_file_result p)
    else if t == 0x12
    then as_message chunk_retry (Messages.decode_chunk_retry p)
    else if t == 0x20
    then as_message list_req (Messages.decode_list_req p)
    else if t == 0x21
    then as_message list_resp (Init.decode_list_resp p)
    else if t == 0x30
    then some (ok cancel)
    else if t == 0x31
    then some (ok abort)
    else if t == 0x32
    then some (ok goodbye)
    else if t == 0x33
    then as_message error (Messages.decode_err_msg p)
    else if t == 0x34
    then as_message done (Messages.decode_done p)
    else if t == 0x35
    then as_message commit (Messages.decode_commit p)
    else if t == 0x36
    then as_message chunk_request (Messages.decode_chunk_request p)
    else if t == 0x37
    then as_message claim_result (Messages.decode_claim_result p)
    else none

-- The fields fit their types, and the lists their limits.
abbrev pub IsMessage : Message → Type 0
IsMessage (init_transfer m) = IsInitTransfer m
IsMessage (transfer_ack m) = IsTransferAck m
IsMessage (manifest_batch m) = (length m.entries ≤ 4096) × All IsEntry m.entries
IsMessage (manifest_end m) = IsManifestEnd m
IsMessage (have_bitmap m) = IsHaveBitmap m
IsMessage (file_result m) = IsFileResult m
IsMessage (chunk_retry m) = IsChunkRetry m
IsMessage (list_req m) = IsListReq m
IsMessage (list_resp m) = IsListResp m
IsMessage cancel = Unit
IsMessage abort = Unit
IsMessage goodbye = Unit
IsMessage (error m) = IsErrMsg m
IsMessage (done m) = IsDone m
IsMessage (commit m) = m.file_id < 2 ^ 32
IsMessage (chunk_request m) = (m.file_id < 2 ^ 32) × (m.chunk_idx < 2 ^ 64)
IsMessage (claim_result m) = IsClaimResult m

-- What arrives: the message itself, but for manifest entries, which lose what the wire does not
-- carry.
abbrev pub delivered : Message → Message
delivered (manifest_batch m) = manifest_batch (record { entries = map received m.entries })
delivered m = m

-- A frame without compression.
abbrev pub frame_of : Message → CtrlFrame
frame_of m = record { type = msg_type m; flags = 0; payload = encode_message m }

decoded :
    (m : Message)
    → IsMessage m
    → decode_message (msg_type m) (encode_message m) ≡ some (ok (delivered m))
unfolding decode_message msg_type encode_message
decoded (init_transfer m) h = rw (CountedLists.init_transfer_roundtrip m h, as_message)
decoded (transfer_ack m) h = rw (RoundTrip.transfer_ack_roundtrip m h, as_message)
decoded (manifest_batch m) (count, all) =
    rw (EntryRoundTrip.manifest_batch_roundtrip m count all, as_message)
decoded (manifest_end m) h = rw (RoundTrip.manifest_end_roundtrip m h, as_message)
decoded (have_bitmap m) h = rw (CountedLists.have_bitmap_roundtrip m h, as_message)
decoded (file_result m) h = rw (RoundTrip.file_result_roundtrip m h, as_message)
decoded (chunk_retry m) h = rw (RoundTrip.chunk_retry_roundtrip m h, as_message)
decoded (list_req m) h = rw (RoundTrip.list_req_roundtrip m h, as_message)
decoded (list_resp m) h = rw (CountedLists.list_resp_roundtrip m h, as_message)
decoded cancel h = refl
decoded abort h = refl
decoded goodbye h = refl
decoded (error m) h = rw (RoundTrip.err_msg_roundtrip m h, as_message)
decoded (done m) h = rw (RoundTrip.done_roundtrip m h, as_message)
decoded (commit m) h = rw (RoundTrip.commit_roundtrip m h, as_message)
decoded (chunk_request m) (h, k) = rw (RoundTrip.chunk_request_roundtrip m h k, as_message)
decoded (claim_result m) h = rw (RoundTrip.claim_result_roundtrip m h, as_message)

-- Every control message whose fields fit, sent as one frame that Send accepts, arrives: Recv
-- returns a frame whose type and payload decode to the message, with its manifest entries as the
-- receiver sees them, and the rest of the stream is left.
pub control_roundtrip :
    (m : Message) (rest : Bytes) {p : Bytes}
    → IsMessage m
    → send (frame_of m) ≡ some p
    → (f : CtrlFrame) × (recv (p ++ rest) ≡ got f rest)
      × (decode_message f.type f.payload ≡ some (ok (delivered m)))
control_roundtrip m rest h sent =
    (frame_of m, (send-Takes (frame_of m) sent).takes rest, decoded m h)
