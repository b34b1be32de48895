-- ===== src/Sidecar.antt =====
-- internal/sidecar/sidecar.go: the resume metadata of a part file. The JSON document, the clock and
-- the files themselves are not modelled; a hash is its 32 bytes, not their hexadecimal form.
pub mod Bitmap
pub mod Invariant
pub mod Validate
pub mod Names
mod Tests
use botjim.Prelude.{
  ℕ, zero, suc, ◌+◌, ◌-◌, ◌*◌, ◌/◌, ◌%◌, ◌^◌, ◌<◌, ◌≤◌, ◌≡◌, Bool, true, false, not, ◌&&◌, ◌||◌,
  List, [], ◌∷◌, ◌++◌, Bytes, length, take, drop, get_or, set, replicate, ◌==◌, ltb, leb,
  if◌then◌else◌, Option, none, some,
}
use botjim.Prelude.Int.{ℤ, pos, negsuc, pos_part}
use botjim.Wire.Bits.{test_bit, set_bit, clear_bit}
use botjim.Manifest.{Entry, Timespec}
use botjim.Chunking.{Grid, count, chunk_size_for}
use botjim.Protocol.Handshake.{bytes_eq}

abbrev pub version : ℕ
version = 1

-- An element of Hashes: "", "Z", or a hash.
pub data Mark : Type 0 where
  missing zero_chunk : Mark
  hashed : Bytes → Mark

pub record Sidecar : Type 0 where
  pub version : ℕ
  pub path : Bytes
  pub nonce : Bytes
  pub src_size : ℤ
  pub src_mtime : Timespec
  pub chunk_size : ℤ
  pub chunk_count : ℕ
  pub hashes : List Mark
  pub fully_written : Bool
  pub have : Bytes
  pub have_count : ℕ

-- Entry.Grid of internal/manifest/manifest.go.
abbrev pub entry_grid : Entry → Grid
entry_grid e = record { size = e.size; chunk_size = e.chunk_size }

-- The number of bytes of a bitmap over `n` chunks.
abbrev pub bitmap_size : ℕ → ℕ
bitmap_size n = (n + 7) / 8

-- Count of an entry's grid is never negative (Chunking/Tiling).
abbrev pub entry_chunks : Entry → ℕ
entry_chunks e = pos_part (count (entry_grid e))

unfoldable pub new : Entry → Bytes → Sidecar
new e nonce = record {
  version = version;
  path = e.rel_path;
  nonce = nonce;
  src_size = e.size;
  src_mtime = e.mtime;
  chunk_size = e.chunk_size;
  chunk_count = entry_chunks e;
  hashes = replicate (entry_chunks e) missing;
  fully_written = false;
  have = replicate (bitmap_size (entry_chunks e)) 0;
  have_count = 0;
}

-- s.have[i/8]&(1<<(uint(i)%8)) != 0
unfoldable pub bit_at : Bytes → ℕ → Bool
bit_at bits i = test_bit (get_or bits (i / 8) 0) (i % 8)

unfoldable pub have : Sidecar → ℤ → Bool
have s (negsuc i) = false
have s (pos i) = if leb s.chunk_count i then false else bit_at s.have i

abbrev pub mark_of : Bytes → Bool → Mark
mark_of h is_zero = if is_zero then zero_chunk else hashed h

-- `i < 0 || i >= s.ChunkCount || int64(len(s.Hashes)) <= i`
unfoldable pub set_have : Sidecar → ℤ → Bytes → Bool → Sidecar
set_have s (negsuc i) h is_zero = s
set_have s (pos i) h is_zero =
    if leb s.chunk_count i || leb (length s.hashes) i then s else record s {
      hashes = set s.hashes i (mark_of h is_zero);
      have_count = if bit_at s.have i then s.have_count else s.have_count + 1;
      have = set s.have (i / 8) (set_bit (get_or s.have (i / 8) 0) (i % 8));
    }

unfoldable pub clear_have : Sidecar → ℤ → Sidecar
clear_have s (negsuc i) = s
clear_have s (pos i) = if leb s.chunk_count i || leb (length s.hashes) i then s else record s {
  hashes = set s.hashes i missing;
  have_count = if bit_at s.have i then s.have_count - 1 else s.have_count;
  have = set s.have (i / 8) (clear_bit (get_or s.have (i / 8) 0) (i % 8));
}

-- The loop of recountHave over the first `n` chunks.
unfoldable pub popcount : ℕ → Bytes → ℕ
popcount zero bits = 0
popcount (suc n) bits = if bit_at bits n then popcount n bits + 1 else popcount n bits

unfoldable pub recount_have : Sidecar → Sidecar
unfolding popcount
recount_have s = record s { have_count = popcount s.chunk_count s.have }

unfoldable pub complete : Sidecar → Bool
complete s = s.have_count == s.chunk_count

unfoldable pub adopt_bitmap : Sidecar → Bytes → Sidecar
unfolding recount_have
adopt_bitmap s b = recount_have (record s { have = b })

-- `copy` into a fresh slice of `need` zero bytes.
abbrev pub fitted : ℕ → Bytes → Bytes
fitted need b = take need b ++ replicate (need - length b) 0

unfoldable pub resize_have : Sidecar → Sidecar
unfolding recount_have
resize_have s =
    let need = bitmap_size s.chunk_count in
    recount_have (if length s.have == need then s else record s { have = fitted need s.have })

pub data Mismatch : Type 0 where
  version_changed size_changed mtime_changed grid_changed count_changed path_changed : Mismatch

abbrev pub int_eq : ℤ → ℤ → Bool
int_eq (pos a) (pos b) = a == b
int_eq (negsuc a) (negsuc b) = a == b
int_eq _ _ = false

-- The first test that fails, in the source's order.
unfoldable pub validate : Sidecar → Entry → Bool → Option Mismatch
validate s e strict_mtime =
    if not (s.version == version)
    then some version_changed
    else if not (int_eq s.src_size e.size)
    then some size_changed
    else if strict_mtime
        && (not (int_eq s.src_mtime.sec e.mtime.sec) || not (s.src_mtime.nsec == e.mtime.nsec))
    then some mtime_changed
    else if not (int_eq s.chunk_size (pos (chunk_size_for e.size)))
    then some grid_changed
    else if not (s.chunk_count == entry_chunks e)
    then some count_changed
    else if not (bytes_eq s.path e.rel_path)
    then some path_changed
    else none
