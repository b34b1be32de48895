-- ===== src/Engine/TxFile.antt =====
-- internal/engine/sender.go: the sender's judgement of the claims (verifyClaims, gateOpen) and the frame
-- of a chunk (sendChunk). `readable` says which chunks of the source ReadAt reads in full.
use botjim.Prelude.{
  ℕ, zero, suc, ◌+◌, ◌/◌, ◌%◌, Bool, true, false, not, ◌&&◌, ◌||◌, List, [], ◌∷◌, Bytes, length,
  get_or, set, ◌==◌, if◌then◌else◌, Option, none, some,
}
use botjim.Wire.Bits.{set_bit, clear_bit}
use botjim.Manifest.{Entry}
use botjim.Chunking.{count, all_zero, chunk_sha}
use botjim.Protocol.Handshake.{bytes_eq}
use botjim.Protocol.Data.{ChunkHeader, zero_flag, raw_flag, write_chunk, write_chunk_summed}
use botjim.Sidecar.{bit_at, entry_grid, entry_chunks}
use botjim.Engine.Disk.{Disk}
use botjim.Engine.RxFile.{out_of_range}
use botjim.Engine.Opening.{chunk_at}

-- The sender's bitmap, how many bits it cleared, and the hashes it has not come to.
pub record Judged : Type 0 where
  pub have : Bytes
  pub cleared : ℕ
  pub hashes : List Bytes

unfoldable pub clear_at : Bytes → ℕ → Bytes
clear_at bits i = set bits (i / 8) (clear_bit (get_or bits (i / 8) 0) (i % 8))

-- The next hash against chunk `i` of the source, whose bit is set.
unfoldable pub judge_hash : Bool → Bytes → ℕ → Bytes → List Bytes → Judged → Judged
judge_hash readable own i h hs v =
    if not readable || not (bytes_eq own h)
    then record { have = clear_at v.have i; cleared = v.cleared + 1; hashes = hs }
    else record v { hashes = hs }

-- With no hash left the loop is over.
unfoldable pub judge_next : Bool → Bytes → ℕ → List Bytes → Judged → Judged
judge_next readable own i [] v = v
judge_next readable own i (h ∷ hs) v =
    if not (bit_at v.have i) then v else judge_hash readable own i h hs v

unfoldable pub judge_first : (ℕ → Bool) → (ℕ → Bytes) → ℕ → Judged → Judged
judge_first readable own zero v = v
judge_first readable own (suc n) v =
    let before = judge_first readable own n v in
    judge_next (readable n) (own n) n before.hashes before

unfoldable pub sweep_next : ℕ → List Bytes → Judged → Judged
sweep_next i [] v = v
sweep_next i (h ∷ hs) v =
    if bit_at v.have i
    then record { have = clear_at v.have i; cleared = v.cleared + 1; hashes = hs }
    else v

-- The second loop, over hashes that are left.
unfoldable pub sweep_first : ℕ → Judged → Judged
sweep_first zero v = v
sweep_first (suc n) v = let before = sweep_first n v in sweep_next n before.hashes before

-- The loop of a source that does not open.
unfoldable pub distrust_first : ℕ → Judged → Judged
distrust_first zero v = v
distrust_first (suc n) v =
    let before = distrust_first n v in
    if bit_at before.have n
    then record before { have = clear_at before.have n; cleared = before.cleared + 1 }
    else before

unfoldable pub verify_claims :
    (Bytes → Bytes) → Bool → (ℕ → Bool) → Disk → Entry → Bytes → List Bytes → Judged
verify_claims sha256 opened readable source e have hashes =
    let n = entry_chunks e in
    let asked : Judged = record { have = have; cleared = 0; hashes = hashes } in
    let own = λ (i : ℕ). chunk_sha sha256 e.rel_path i (chunk_at (entry_grid e) source i) in
    if not opened then distrust_first n asked else sweep_first n (judge_first readable own n asked)

-- What gateOpen answers to claims: Commit, or ClaimResult with the bitmap that is left.
pub data Answer : Type 0 where
  commit : Answer
  claim_result : Bytes → Answer

unfoldable pub answer_of : Judged → Answer
answer_of v = if v.cleared == 0 then commit else claim_result v.have

-- What Compress gave: its bytes, or the answer that they stay raw.
unfoldable pub packed : ℕ → ℕ → Bytes → Bytes × Bool → ChunkHeader × Bytes
packed file_id i raw (out, true) = (
  record { file_id = file_id; chunk_idx = i; flags = set_bit 0 raw_flag; payload_len = length raw },
  raw,
)
packed file_id i raw (out, false) =
    (record { file_id = file_id; chunk_idx = i; flags = 0; payload_len = length out }, out)

-- The header and the payload that sendChunk hands to the stream. `compress` is Compress of the codec; with none the
-- bytes stay raw.
unfoldable pub outgoing : Bool → (Bytes → Bytes × Bool) → ℕ → ℕ → Bytes → ChunkHeader × Bytes
unfolding packed
outgoing sparse compress file_id i raw =
    if sparse && all_zero raw
    then (
      record { file_id = file_id; chunk_idx = i; flags = set_bit 0 zero_flag; payload_len = 0 },
      [],
    )
    else packed file_id i raw (compress raw)

unfoldable pub write_frame : Bool → ChunkHeader × Bytes → Option Bytes
write_frame true (hdr, payload) = some (write_chunk_summed hdr payload)
write_frame false (hdr, payload) = write_chunk hdr payload

-- sendChunk of a file that is open: the bytes of the frame, or an error.
unfoldable pub send_chunk :
    Bool → Bool → (Bytes → Bytes × Bool) → (ℕ → Bool) → Disk → Entry → ℕ → Option Bytes
send_chunk sparse summed compress readable source e i =
    if out_of_range (count (entry_grid e)) i || not (readable i)
    then none
    else write_frame summed (outgoing sparse compress e.id i (chunk_at (entry_grid e) source i))
