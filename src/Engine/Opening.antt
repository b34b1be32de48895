-- ===== src/Engine/Opening.antt =====
-- internal/engine/receiver.go: how a file gets its first table of chunks, from a final that is adopted
-- (adoptFinalAsPart) or from the part of an earlier session (prepareRegular). Files, locks and names
-- are not modelled: `readable` says which chunks ReadAt reads in full.
use botjim.Prelude.{
  ℕ, zero, suc, ◌+◌, ◌/◌, ◌%◌, Bool, true, false, not, ◌&&◌, List, [], ◌∷◌, Bytes, get_or, set,
  replicate, ltb, if◌then◌else◌, Option, none, some, map,
}
use botjim.Prelude.Int.{pos, pos_part}
use botjim.Manifest.{Entry}
use botjim.Chunking.{Grid, offset, len, all_zero, chunk_sha, zero_hash}
use botjim.Protocol.Handshake.{bytes_eq}
use botjim.Sidecar.{
  Sidecar, Mark, missing, zero_chunk, hashed, new, entry_grid, entry_chunks, have, set_have,
  clear_have, adopt_bitmap, validate, bitmap_size,
}
use botjim.Wire.Bits.{set_bit}
use botjim.Engine.Disk.{Disk, slice}
use botjim.Engine.RxFile.{RxFile, is_complete, queue_finalize}

-- A body for each of the first `n` chunks.
unfoldable pub for_chunks : (ℕ → Sidecar → Sidecar) → ℕ → Sidecar → Sidecar
for_chunks body zero s = s
for_chunks body (suc n) s = body n (for_chunks body n s)

-- The bytes of chunk `i` on disk.
abbrev pub chunk_at : Grid → Disk → ℕ → Bytes
chunk_at g d i = slice d (pos_part (offset g i)) (pos_part (len g i))

-- The body of hashInto's loop.
unfoldable pub hash_chunk :
    (Bytes → Bytes) → Bytes → (ℕ → Bool) → (ℕ → Bytes) → ℕ → Sidecar → Sidecar
hash_chunk sha256 rel_path readable chunk i s =
    if not (readable i)
    then s
    else if all_zero (chunk i)
    then s
    else set_have s (pos i) (chunk_sha sha256 rel_path i (chunk i)) false

unfoldable pub hash_into : (Bytes → Bytes) → (ℕ → Bool) → Disk → Entry → Sidecar → Sidecar
hash_into sha256 readable d e s =
    for_chunks (hash_chunk sha256 e.rel_path readable (chunk_at (entry_grid e) d)) (entry_chunks e)
      s

-- `ack` is whether the peers agreed on FeatClaimAck.
unfoldable pub adopt_final : (Bytes → Bytes) → (ℕ → Bool) → Bool → Disk → Entry → Bytes → RxFile
adopt_final sha256 readable ack d e nonce =
    let s = hash_into sha256 readable d e (new e nonce) in
    record {
      entry = e;
      in_place = true;
      part_open = true;
      content = d;
      sc = s;
      dirty = false;
      final_queued = false;
      resolved = false;
      errored = false;
      retries = λ i. 0;
      adopted = true;
      await_claims = ltb 0 s.have_count && ack;
      claims_resolved = false;
      arrived = some (λ i. false);
      may_stale = true;
      queued = 0;
    }

-- The hash that claimHashes sends for a mark.
unfoldable pub claim_of : Mark → Bytes
claim_of (hashed h) = h
claim_of zero_chunk = zero_hash
claim_of missing = zero_hash

-- One hash for each of the `n` chunks from `i` on that is marked.
unfoldable pub claims_from : Sidecar → ℕ → ℕ → List Bytes
claims_from s i zero = []
claims_from s i (suc n) =
    let rest = claims_from s (i + 1) n in
    if have s (pos i) then claim_of (get_or s.hashes i missing) ∷ rest else rest

unfoldable pub claim_hashes : Sidecar → Entry → List Bytes
claim_hashes s e = claims_from s 0 (entry_chunks e)

-- A chunk of a resumed part against its mark: the hash is that of the bytes on disk.
unfoldable pub check_mark : ℕ → Bytes → Mark → Sidecar → Sidecar
check_mark i h missing s = set_have s (pos i) h false
check_mark i h zero_chunk s = clear_have s (pos i)
check_mark i h (hashed want) s = if not (bytes_eq want h) then clear_have s (pos i) else s

-- The same for a chunk of zeros.
unfoldable pub check_zeros : Bool → ℕ → Mark → Sidecar → Sidecar
check_zeros true i m s = clear_have s (pos i)
check_zeros false i zero_chunk s = s
check_zeros false i _ s = clear_have s (pos i)

-- The body of rehashPart's loop.
unfoldable pub rehash_chunk :
    (Bytes → Bytes) → Bytes → Bool → (ℕ → Bool) → (ℕ → Bytes) → ℕ → Sidecar → Sidecar
rehash_chunk sha256 rel_path rebuilt readable chunk i s =
    if not (have s (pos i))
    then s
    else if not (readable i)
    then clear_have s (pos i)
    else if all_zero (chunk i)
    then check_zeros rebuilt i (get_or s.hashes i missing) s
    else check_mark i (chunk_sha sha256 rel_path i (chunk i)) (get_or s.hashes i missing) s

-- The loop that sets the first `n` bits of a bitmap.
unfoldable pub all_bits : ℕ → Bytes → Bytes
all_bits zero bits = bits
all_bits (suc n) bits =
    let below = all_bits n bits in set below (n / 8) (set_bit (get_or below (n / 8) 0) (n % 8))

-- What rehashPart starts from when the sidecar was lost: every chunk, with no hash.
unfoldable pub relisted : ℕ → Sidecar → Sidecar
relisted n s =
    let listed = adopt_bitmap s (all_bits n (replicate (bitmap_size n) 0)) in
    record listed { hashes = map (λ m. missing) listed.hashes }

unfoldable pub rehash_part : (Bytes → Bytes) → Bool → (ℕ → Bool) → Disk → Entry → Sidecar → Sidecar
rehash_part sha256 rebuilt readable d e s =
    for_chunks (rehash_chunk sha256 e.rel_path rebuilt readable (chunk_at (entry_grid e) d))
      (entry_chunks e) (if rebuilt then relisted (entry_chunks e) s else s)

-- A file before its first chunk, as prepareRegular makes it.
unfoldable pub prepared : Entry → Disk → Sidecar → Bool → RxFile
prepared e d s existed = record {
  entry = e;
  in_place = false;
  part_open = true;
  content = d;
  sc = s;
  dirty = false;
  final_queued = false;
  resolved = false;
  errored = false;
  retries = λ i. 0;
  adopted = false;
  await_claims = false;
  claims_resolved = false;
  arrived = none;
  may_stale = existed;
  queued = 0;
}

-- The end of prepareRegular.
unfoldable pub queue_complete : RxFile → RxFile
queue_complete f = if is_complete f then queue_finalize f else f

-- No part was found: a new one, all hole.
unfoldable pub open_fresh : Entry → Bytes → RxFile
open_fresh e nonce = queue_complete (prepared e (λ b. 0) (new e nonce) false)

-- A part was found with a sidecar that Validate accepts.
unfoldable pub open_resumed : (Bytes → Bytes) → (ℕ → Bool) → Disk → Entry → Sidecar → RxFile
open_resumed sha256 readable d e s =
    let checked = not s.fully_written && ltb 0 s.have_count in
    let f : RxFile =
      prepared e d (if checked then rehash_part sha256 false readable d e s else s) true in
    queue_complete (record f { dirty = checked })

-- A part was found without one.
unfoldable pub open_rebuilt : (Bytes → Bytes) → (ℕ → Bool) → Bool → Disk → Entry → Bytes → RxFile
open_rebuilt sha256 readable ack d e nonce =
    let s = rehash_part sha256 true readable d e (new e nonce) in
    let f : RxFile = prepared e d s true in
    let claiming : RxFile = record f {
      dirty = true;
      adopted = true;
      await_claims = ack;
      arrived = some (λ i. false);
    } in
    queue_complete (if ltb 0 s.have_count then claiming else record f { dirty = true })

-- The sidecar beside a part, if it can be used.
unfoldable pub usable : Entry → Bool → Option Sidecar → Option Sidecar
usable e strict_mtime none = none
usable e strict_mtime (some s) = elim (validate s e strict_mtime) [
  | none ↦ some s
  | some reason ↦ none
]

unfoldable pub open_existing :
    (Bytes → Bytes) → (ℕ → Bool) → Bool → Disk → Entry → Bytes → Option Sidecar → RxFile
open_existing sha256 readable ack d e nonce (some s) = open_resumed sha256 readable d e s
open_existing sha256 readable ack d e nonce none = open_rebuilt sha256 readable ack d e nonce
