-- ===== src/Engine/Tests.antt =====
-- A file of three bytes in chunks of two, on its way.
use botjim.Prelude.{
  ℕ, zero, suc, ◌+◌, ◌*◌, ◌^◌, ◌<◌, ◌≤◌, ◌≡◌, ◌⊎◌, ◌++◌, inl, inr, refl, arith, Bool, true, false,
  List, [], ◌∷◌, Bytes, length, All, Option, none, some, ltb, ltb-of_le, ◌==◌, if◌then◌else◌,
}
use botjim.Prelude.Int.{ℤ, pos}
use botjim.Wire.Stream.{got}
use botjim.Manifest.{Entry, Kind}
use botjim.Chunking.Identity.{Collision}
use botjim.Protocol.Data.{ChunkHeader, read_chunk}
use botjim.Sidecar.{Sidecar, new, have, bit_at}
use botjim.Compress.{Codec, zstd_codec}
use botjim.Compress.RoundTrip.{IsCodec, zstd_codec-IsCodec}
use botjim.Engine.Disk.{Disk}
use botjim.Engine.RxFile.{RxFile, absorb_chunk, handle_chunk}
use botjim.Engine.Opening.{
  hash_into, claim_of, claim_hashes, prepared, open_fresh, adopt_final, open_resumed,
}
use botjim.Engine.Table.{Job, IsFit, mark_at, identity, chunk_of}
use botjim.Engine.TxFile.{outgoing, send_chunk, verify_claims, commit, answer_of}
use botjim.Engine.Sound.{IsSound, Whole}
use botjim.Engine.Adoption.{IsEntryOf, hash_into_lem, open_fresh-IsSound}
use botjim.Engine.Frames.{received, outgoing-IsHonestFrame}
use botjim.Engine.Answers.{verify_claims-confirmed}
use botjim.Engine.Sending.{send_chunk_read}
use botjim.Engine.Delivery.{Event, run, run-IsSound, run-Whole, IsHonest}
use botjim.Engine.Progress.{delivery, Finished}
use botjim.Engine.Fresh.{fresh_delivery}
use botjim.Engine.Outcome.{SameOutcome, CountsFailure, run-stale, refused_frame}

abbrev pub note : Entry
note = record {
  id = 7;
  kind = Kind.regular;
  rel_path = 110 ∷ [];
  abs_path = 47 ∷ 110 ∷ [];
  mode = 420;
  uid = 0;
  gid = 0;
  uname = [];
  gname = [];
  mtime = record { sec = pos 5; nsec = 0 };
  atime = record { sec = pos 5; nsec = 0 };
  size = pos 3;
  dev = 0;
  ino = 0;
  chunk_size = pos 2;
  link_target = [];
  link_ref_id = 0;
  rdev = 0;
  xattrs = [];
}

abbrev pub bytes_up : Disk
bytes_up b = b + 1

abbrev pub same_hash : Bytes → Bytes
same_hash b = b

abbrev pub fresh_job : Job
fresh_job = record {
  sha256 = same_hash;
  rel_path = 110 ∷ [];
  size = 3;
  chunk = 2;
  old = λ b. 0;
  source = bytes_up;
  claimed = λ i. false;
}

pub fresh_fit : IsFit fresh_job
fresh_fit = record {
  some_chunk = omega arith;
  chunk_small = omega arith;
  size_small = omega arith;
  path_small = omega arith;
}

note-IsEntryOf : IsEntryOf fresh_job note
note-IsEntryOf = record { path = refl; grid = refl }

-- A codec that puts a byte in front; its decoder refuses what is longer than its limit.
abbrev fronted : ℕ → Bytes → Option Bytes
fronted max [] = none
fronted max (x ∷ xs) = if ltb max (length xs) then none else some xs

fronted-inverse :
    (max : ℕ) (chunk : Bytes) → length chunk ≤ max → fronted max (9 ∷ chunk) ≡ some chunk
fronted-inverse max chunk h = let fits = ltb-of_le (length chunk) max h in rw fits refl

abbrev pub plain_codec : Codec
plain_codec = zstd_codec (λ b. 9 ∷ b) fronted

pub plain_codec-IsCodec : IsCodec 2 plain_codec
plain_codec-IsCodec =
    zstd_codec-IsCodec (λ b. 9 ∷ b) fronted 2 (λ b h. omega arith) fronted-inverse (omega arith)

abbrev pub nonce : Bytes
nonce = 97 ∷ []

abbrev both_frames : List Event
both_frames = delivery fresh_job fresh_fit plain_codec plain_codec-IsCodec true true true 7 0 2

fresh_delivery_example :
    Finished fresh_job fresh_fit plain_codec plain_codec-IsCodec true true true 7
      (run same_hash plain_codec.decompress true (open_fresh note nonce) both_frames)
    × Whole fresh_job
        (run same_hash plain_codec.decompress true (open_fresh note nonce) both_frames).content
fresh_delivery_example =
    fresh_delivery fresh_job fresh_fit note note-IsEntryOf nonce (omega arith) plain_codec
      plain_codec-IsCodec true true true (λ b. refl)

pub fresh-IsSound : IsSound fresh_job (open_fresh note nonce)
fresh-IsSound = open_fresh-IsSound fresh_job fresh_fit note note-IsEntryOf nonce (λ b. refl)

both-IsHonest : All (IsHonest fresh_job fresh_fit plain_codec.decompress true) both_frames
both-IsHonest = (
  outgoing-IsHonestFrame fresh_job fresh_fit plain_codec plain_codec-IsCodec true true 7 0,
  (
    outgoing-IsHonestFrame fresh_job fresh_fit plain_codec plain_codec-IsCodec true true 7 1,
    (tt, tt),
  ),
)

run-IsSound_example :
    IsSound fresh_job
      (run same_hash plain_codec.decompress true (open_fresh note nonce) both_frames)
    ⊎ Collision same_hash
run-IsSound_example =
    run-IsSound fresh_job fresh_fit plain_codec.decompress true (open_fresh note nonce) both_frames
      both-IsHonest fresh-IsSound

finished :
    Finished fresh_job fresh_fit plain_codec plain_codec-IsCodec true true true 7
      (run same_hash plain_codec.decompress true (open_fresh note nonce) both_frames)
finished =
    (fresh_delivery fresh_job fresh_fit note note-IsEntryOf nonce (omega arith) plain_codec
      plain_codec-IsCodec true true true (λ b. refl)).0

run-Whole_case :
    Whole fresh_job
      (run same_hash plain_codec.decompress true (open_fresh note nonce) both_frames).content
    ⊎ Collision same_hash
run-Whole_case =
    run-Whole fresh_job fresh_fit plain_codec.decompress true (open_fresh note nonce) both_frames
      fresh-IsSound both-IsHonest finished.0 finished.1

send_chunk_read_example :
    (bytes : Bytes) × (send_chunk true true plain_codec.compress (λ i. true) bytes_up note 1
      ≡ some bytes)
    × ((rest : Bytes)
        → read_chunk (bytes ++ rest)
          ≡ got
              (received true
                (outgoing true plain_codec.compress 7 1 (chunk_of fresh_job bytes_up 1)))
              rest)
send_chunk_read_example =
    send_chunk_read fresh_job fresh_fit (omega arith) plain_codec plain_codec-IsCodec true true
      (λ i. true) note 1 note-IsEntryOf (omega arith) (omega arith) refl

-- The final holds the source's second chunk, and another byte before it.
abbrev old_bytes : Disk
old_bytes b = if b == 0 then 8 else b + 1

abbrev old_table : Sidecar
old_table = hash_into same_hash (λ i. true) old_bytes note (new note nonce)

abbrev old_job : Job
old_job = record fresh_job { old = old_bytes; claimed = λ i. have old_table (pos i) }

old_fit : IsFit old_job
old_fit = record {
  some_chunk = omega arith;
  chunk_small = omega arith;
  size_small = omega arith;
  path_small = omega arith;
}

note-IsOld : IsEntryOf old_job note
note-IsOld = record { path = refl; grid = refl }

left_set :
    bit_at
      (verify_claims same_hash true
        (λ i. true)
        bytes_up
        note
        old_table.have
        (claim_hashes old_table note)).have
      1
    ≡ true
unfolding verify_claims botjim.Engine.TxFile.sweep_first botjim.Chunking.count
    botjim.Wire.Words.to_i64 botjim.Wire.Words.to_u64 botjim.Engine.TxFile.sweep_next
    botjim.Engine.TxFile.judge_first botjim.Engine.TxFile.judge_next claim_hashes
    botjim.Engine.Opening.claims_from have hash_into botjim.Engine.Opening.for_chunks
    botjim.Engine.Opening.hash_chunk botjim.Chunking.all_zero botjim.Engine.Disk.slice
    botjim.Chunking.chunk_sha botjim.Chunking.len botjim.Chunking.offset claim_of
    botjim.Engine.TxFile.clear_at botjim.Engine.TxFile.judge_hash botjim.Prelude.Int.◌*ℤ◌
    botjim.Prelude.Int.◌-ℤ◌ botjim.Protocol.Handshake.bytes_eq bit_at botjim.Sidecar.set_have
    botjim.Wire.Bits.set_bit botjim.Wire.Bits.test_bit botjim.Wire.Varint.append_uvarint
    botjim.Wire.Varint.put_groups new botjim.Wire.Bits.clear_bit
left_set = refl

verify_claims-confirmed_example : claim_of (mark_at old_table 1) ≡ identity old_job bytes_up 1
verify_claims-confirmed_example =
    verify_claims-confirmed old_job old_fit note note-IsOld old_table
      (hash_into_lem old_job old_fit note note-IsOld (λ i. true) old_bytes nonce).0
      (hash_into_lem old_job old_fit note note-IsOld (λ i. true) old_bytes nonce).1 true (λ i. true)
      1 (omega arith) left_set

abbrev finished_file : RxFile
finished_file = record (prepared note bytes_up (new note nonce) false) { resolved = true }

run-stale_example :
    SameOutcome finished_file (run same_hash plain_codec.decompress true finished_file both_frames)
run-stale_example = run-stale same_hash plain_codec.decompress true both_frames finished_file refl

abbrev stray : ChunkHeader
stray = record { file_id = 7; chunk_idx = 9; flags = 2; payload_len = 0 }

abbrev waiting : RxFile
waiting = prepared note (λ b. 0) (new note nonce) false

waiting_unharmed : waiting.errored ≡ false
unfolding prepared
waiting_unharmed = refl

waiting_unresolved : waiting.resolved ≡ false
unfolding prepared
waiting_unresolved = refl

out_of_the_grid :
    (absorb_chunk same_hash plain_codec.decompress true none waiting stray []).1 ≡ false
unfolding absorb_chunk prepared botjim.Engine.RxFile.out_of_range botjim.Chunking.count
    botjim.Wire.Words.to_i64 botjim.Wire.Words.to_u64
out_of_the_grid = refl

refused_frame_example :
    CountsFailure waiting 9
      (handle_chunk same_hash plain_codec.decompress true none waiting stray [])
refused_frame_example =
    refused_frame same_hash plain_codec.decompress true none waiting stray [] waiting_unharmed
      waiting_unresolved out_of_the_grid
