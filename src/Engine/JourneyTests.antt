-- ===== src/Engine/JourneyTests.antt =====
-- A final that is the source already, and a session that is cut off.
use botjim.Engine.Tests.{
  note, bytes_up, same_hash, fresh_job, plain_codec, nonce, fresh_fit, plain_codec-IsCodec,
  fresh-IsSound,
}
use botjim.Prelude.{
  ℕ, zero, suc, ◌+◌, ◌*◌, ◌^◌, ◌<◌, ◌≤◌, ◌≡◌, ◌⊎◌, ◌++◌, inl, inr, refl, arith, Bool, true, false,
  List, [], ◌∷◌, Bytes, length, All, Option, none, some, ◌==◌, if◌then◌else◌,
}
use botjim.Prelude.Int.{ℤ, pos}
use botjim.Chunking.Identity.{Collision}
use botjim.Protocol.Data.{ChunkHeader, read_chunk}
use botjim.Sidecar.{Sidecar, new, have, bit_at}
use botjim.Compress.{Codec, zstd_codec}
use botjim.Engine.Disk.{Disk}
use botjim.Engine.RxFile.{RxFile, absorb_chunk, handle_chunk}
use botjim.Engine.Ending.{kept_sidecar, flush_sidecar}
use botjim.Engine.Opening.{
  hash_into, claim_of, claim_hashes, prepared, open_fresh, adopt_final, open_resumed,
}
use botjim.Engine.Table.{Job, IsFit}
use botjim.Engine.TxFile.{outgoing, send_chunk, verify_claims, commit, answer_of}
use botjim.Engine.Sound.{IsSound, Whole}
use botjim.Engine.Adoption.{IsEntryOf}
use botjim.Engine.Absorb.{handle_chunk-IsSound}
use botjim.Engine.Frames.{received, outgoing-IsHonestFrame}
use botjim.Engine.Delivery.{
  Event, frame, committed, finalizing, run, run-IsSound, run-Whole, IsHonest,
}
use botjim.Engine.Progress.{wire}
use botjim.Engine.Journey.{Sender, adopted_Whole, again, resume_after_flush}

-- The final is the source already: every claim is right and the answer is Commit.
abbrev right_table : Sidecar
right_table = hash_into same_hash (λ i. true) bytes_up note (new note nonce)

abbrev right_job : Job
right_job = record fresh_job { old = bytes_up; claimed = λ i. have right_table (pos i) }

right_fit : IsFit right_job
right_fit = record {
  some_chunk = omega arith;
  chunk_small = omega arith;
  size_small = omega arith;
  path_small = omega arith;
}

note-IsRight : IsEntryOf right_job note
note-IsRight = record { path = refl; grid = refl }

abbrev plain_sender : Sender
plain_sender = record {
  codec = plain_codec;
  sparse = true;
  with_sum = true;
  opened = true;
  readable = λ i. true;
}

abbrev all_committed : List Event
all_committed = committed ∷ finalizing true none ∷ []

all_right :
    answer_of (
      verify_claims same_hash true
        (λ i. true)
        bytes_up
        note
        right_table.have
        (claim_hashes right_table note))
    ≡ commit
unfolding answer_of verify_claims botjim.Engine.TxFile.sweep_first botjim.Chunking.count
    botjim.Wire.Words.to_i64 botjim.Wire.Words.to_u64 botjim.Engine.TxFile.sweep_next
    botjim.Engine.TxFile.judge_first botjim.Engine.TxFile.judge_next claim_hashes
    botjim.Engine.Opening.claims_from have hash_into botjim.Engine.Opening.for_chunks
    botjim.Engine.Opening.hash_chunk botjim.Chunking.all_zero botjim.Engine.Disk.slice
    botjim.Chunking.chunk_sha botjim.Chunking.len botjim.Chunking.offset claim_of
    botjim.Engine.TxFile.clear_at botjim.Engine.TxFile.judge_hash botjim.Prelude.Int.◌*ℤ◌
    botjim.Prelude.Int.◌-ℤ◌ botjim.Protocol.Handshake.bytes_eq bit_at botjim.Sidecar.set_have
    botjim.Wire.Bits.set_bit botjim.Wire.Bits.test_bit botjim.Wire.Varint.append_uvarint
    botjim.Wire.Varint.put_groups new
all_right = refl

committed_resolved :
    (run same_hash plain_codec.decompress true
      (adopt_final same_hash (λ i. true) true bytes_up note nonce)
      all_committed).resolved
    ≡ true
unfolding run botjim.Engine.Delivery.step adopt_final botjim.Engine.Ending.commit_file
    botjim.Engine.RxFile.queue_finalize botjim.Engine.Ending.run_finalizer
    botjim.Engine.Ending.take_id botjim.Engine.Ending.finalize botjim.Engine.Ending.strikes
    botjim.Engine.RxFile.fail_file botjim.Engine.Ending.mark_written botjim.Sidecar.complete
    botjim.Chunking.count botjim.Wire.Words.to_i64 botjim.Wire.Words.to_u64
    botjim.Engine.TxFile.sweep_next botjim.Engine.TxFile.judge_first botjim.Engine.TxFile.judge_next
    claim_hashes botjim.Engine.Opening.claims_from have hash_into botjim.Engine.Opening.for_chunks
    botjim.Engine.Opening.hash_chunk botjim.Chunking.all_zero botjim.Engine.Disk.slice
    botjim.Chunking.chunk_sha botjim.Chunking.len botjim.Chunking.offset claim_of
    botjim.Engine.TxFile.clear_at botjim.Engine.TxFile.judge_hash botjim.Prelude.Int.◌*ℤ◌
    botjim.Prelude.Int.◌-ℤ◌ botjim.Protocol.Handshake.bytes_eq bit_at botjim.Sidecar.set_have
    botjim.Wire.Bits.set_bit botjim.Wire.Bits.test_bit botjim.Wire.Varint.append_uvarint
    botjim.Wire.Varint.put_groups new
committed_resolved = refl

committed_unharmed :
    (run same_hash plain_codec.decompress true
      (adopt_final same_hash (λ i. true) true bytes_up note nonce)
      all_committed).errored
    ≡ false
unfolding run botjim.Engine.Delivery.step adopt_final botjim.Engine.Ending.commit_file
    botjim.Engine.RxFile.queue_finalize botjim.Engine.Ending.run_finalizer
    botjim.Engine.Ending.take_id botjim.Engine.Ending.finalize botjim.Engine.Ending.strikes
    botjim.Engine.RxFile.fail_file botjim.Engine.Ending.mark_written botjim.Sidecar.complete
    botjim.Chunking.count botjim.Wire.Words.to_i64 botjim.Wire.Words.to_u64
    botjim.Engine.TxFile.sweep_next botjim.Engine.TxFile.judge_first botjim.Engine.TxFile.judge_next
    claim_hashes botjim.Engine.Opening.claims_from have hash_into botjim.Engine.Opening.for_chunks
    botjim.Engine.Opening.hash_chunk botjim.Chunking.all_zero botjim.Engine.Disk.slice
    botjim.Chunking.chunk_sha botjim.Chunking.len botjim.Chunking.offset claim_of
    botjim.Engine.TxFile.clear_at botjim.Engine.TxFile.judge_hash botjim.Prelude.Int.◌*ℤ◌
    botjim.Prelude.Int.◌-ℤ◌ botjim.Protocol.Handshake.bytes_eq bit_at botjim.Sidecar.set_have
    botjim.Wire.Bits.set_bit botjim.Wire.Bits.test_bit botjim.Wire.Varint.append_uvarint
    botjim.Wire.Varint.put_groups new
committed_unharmed = refl

adopted_Whole_example :
    Whole right_job
      (run same_hash plain_codec.decompress true
        (adopt_final same_hash (λ i. true) true bytes_up note nonce)
        all_committed).content
    ⊎ Collision same_hash
adopted_Whole_example =
    adopted_Whole right_job right_fit plain_sender plain_codec-IsCodec note note note-IsRight
      note-IsRight (λ i. true) nonce (λ i. refl) all_committed (all_right, (tt, tt))
      committed_resolved committed_unharmed

-- The first chunk has arrived when the session is cut off.
abbrev first_arrived : RxFile
first_arrived =
    handle_chunk same_hash plain_codec.decompress true none (open_fresh note nonce)
      (wire fresh_job fresh_fit plain_codec plain_codec-IsCodec true true true 7 0).0
      (wire fresh_job fresh_fit plain_codec plain_codec-IsCodec true true true 7 0).1

saved : (flush_sidecar first_arrived).1 ≡ some (kept_sidecar first_arrived)
unfolding flush_sidecar kept_sidecar handle_chunk absorb_chunk open_fresh
    botjim.Engine.Opening.queue_complete botjim.Engine.RxFile.is_complete prepared received outgoing
    botjim.Engine.RxFile.after_absorb botjim.Engine.RxFile.absorb_body
    botjim.Engine.RxFile.out_of_range botjim.Protocol.Data.checked_body
    botjim.Protocol.Data.chunk_sum botjim.Wire.Crc.crc_update botjim.Engine.RxFile.absorb_data
    botjim.Engine.RxFile.decoded botjim.Engine.RxFile.after_write botjim.Engine.RxFile.mark_chunk
    botjim.Engine.RxFile.maybe_complete botjim.Engine.Disk.write_part botjim.Sidecar.complete
    botjim.Chunking.count botjim.Wire.Words.to_i64 botjim.Wire.Words.to_u64
    botjim.Engine.Opening.claims_from have botjim.Engine.Opening.for_chunks
    botjim.Engine.Opening.hash_chunk botjim.Chunking.all_zero botjim.Engine.Disk.slice
    botjim.Chunking.chunk_sha botjim.Chunking.len botjim.Chunking.offset botjim.Prelude.Int.◌*ℤ◌
    botjim.Prelude.Int.◌-ℤ◌ botjim.Protocol.Handshake.bytes_eq botjim.Sidecar.set_have
    botjim.Wire.Bits.set_bit botjim.Wire.Bits.test_bit botjim.Wire.Varint.append_uvarint
    botjim.Wire.Varint.put_groups new zstd_codec botjim.Compress.zstd_compress
    botjim.Wire.Words.le_bytes botjim.Wire.Bits.clear_bit botjim.Wire.Words.of_le bit_at
saved = refl

saved_partial : (kept_sidecar first_arrived).fully_written ≡ false
unfolding flush_sidecar kept_sidecar handle_chunk absorb_chunk open_fresh
    botjim.Engine.Opening.queue_complete botjim.Engine.RxFile.is_complete prepared received outgoing
    botjim.Engine.RxFile.after_absorb botjim.Engine.RxFile.absorb_body
    botjim.Engine.RxFile.out_of_range botjim.Protocol.Data.checked_body
    botjim.Protocol.Data.chunk_sum botjim.Wire.Crc.crc_update botjim.Engine.RxFile.absorb_data
    botjim.Engine.RxFile.decoded botjim.Engine.RxFile.after_write botjim.Engine.RxFile.mark_chunk
    botjim.Engine.RxFile.maybe_complete botjim.Engine.Disk.write_part botjim.Sidecar.complete
    botjim.Chunking.count botjim.Wire.Words.to_i64 botjim.Wire.Words.to_u64
    botjim.Engine.Opening.claims_from have botjim.Engine.Opening.for_chunks
    botjim.Engine.Opening.hash_chunk botjim.Chunking.all_zero botjim.Engine.Disk.slice
    botjim.Chunking.chunk_sha botjim.Chunking.len botjim.Chunking.offset botjim.Prelude.Int.◌*ℤ◌
    botjim.Prelude.Int.◌-ℤ◌ botjim.Protocol.Handshake.bytes_eq botjim.Sidecar.set_have
    botjim.Wire.Bits.set_bit botjim.Wire.Bits.test_bit botjim.Wire.Varint.append_uvarint
    botjim.Wire.Varint.put_groups new zstd_codec botjim.Compress.zstd_compress
    botjim.Wire.Words.le_bytes botjim.Wire.Bits.clear_bit botjim.Wire.Words.of_le bit_at
saved_partial = refl

resume_after_flush_example :
    IsSound
      (again fresh_job bytes_up)
      (open_resumed same_hash (λ i. true) bytes_up note (kept_sidecar first_arrived))
    ⊎ Collision same_hash
resume_after_flush_example =
    resume_after_flush fresh_job fresh_fit first_arrived (kept_sidecar first_arrived) note bytes_up
      (λ i. true)
      (handle_chunk-IsSound fresh_job fresh_fit plain_codec.decompress true none
        (open_fresh note nonce) _ _
        (outgoing-IsHonestFrame fresh_job fresh_fit plain_codec plain_codec-IsCodec true true 7 0)
        fresh-IsSound)
      saved saved_partial (record { path = refl; grid = refl })
