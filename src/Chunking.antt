-- ===== src/Chunking.antt =====
-- internal/chunking/chunking.go: the chunk grid of a file, the zero test and the chunk's identity.
pub mod Tiling
pub mod Identity
mod Tests
use Prim.Native.Nat.{bit_and}
use botjim.Prelude.{
  ℕ, zero, suc, ◌+◌, ◌-◌, ◌*◌, ◌/◌, ◌%◌, ◌^◌, ◌<◌, ◌≤◌, ◌≡◌, Bool, true, false, not, ◌&&◌, ◌||◌,
  List, [], ◌∷◌, ◌++◌, Bytes, length, replicate, ◌==◌, ltb, leb, if◌then◌else◌,
}
use botjim.Prelude.Int.{ℤ, pos, negsuc, ◌-ℤ◌, ◌*ℤ◌, ltb_ℤ}
use botjim.Wire.Varint.{append_uvarint}
use botjim.Wire.Words.{to_u64, to_i64}

abbrev pub mib : ℕ
mib = 2 ^ 20

abbrev pub small_chunk : ℕ
small_chunk = 4 * mib

abbrev pub medium_chunk : ℕ
medium_chunk = 8 * mib

abbrev pub large_chunk : ℕ
large_chunk = 16 * mib

abbrev pub small_limit : ℕ
small_limit = 64 * mib

abbrev pub medium_limit : ℕ
medium_limit = 2 ^ 30

-- `x <= n` of an int64 and a constant.
abbrev pub at_most : ℤ → ℕ → Bool
at_most (pos x) n = leb x n
at_most (negsuc x) n = true

unfoldable pub chunk_size_for : ℤ → ℕ
chunk_size_for size =
    if at_most size small_limit
    then small_chunk
    else if at_most size medium_limit
    then medium_chunk
    else large_chunk

pub record Grid : Type 0 where
  pub size : ℤ
  pub chunk_size : ℤ

-- `c <= 0 || c&(c-1) != 0 || c > LargeChunk || c < 512*1024`
unfoldable pub no_override : ℤ → Bool
no_override (negsuc c) = true
no_override (pos c) =
    c == 0 || not (bit_and c (c - 1) == 0) || ltb large_chunk c || ltb c (512 * 1024)

unfoldable pub new_grid : ℤ → ℤ → Grid
unfolding no_override chunk_size_for
new_grid size chunk_size = record {
  size = size;
  chunk_size = if no_override chunk_size then pos (chunk_size_for size) else chunk_size;
}

-- The value of an int64 expression, which wraps around.
abbrev pub wrap64 : ℤ → ℤ
wrap64 x = to_i64 (to_u64 x)

-- Division of an int64 by a positive one, towards zero.
unfoldable pub quot64 : ℤ → ℕ → ℤ
quot64 (pos a) c = pos (a / c)
quot64 (negsuc a) c = pos 0 -ℤ pos (suc a / c)

unfoldable pub count_of : ℤ → ℤ → ℤ
unfolding quot64
count_of (negsuc n) c = pos 0
count_of (pos n) (negsuc c) = pos 0
count_of (pos n) (pos c) =
    if n == 0 || c == 0
    then pos 0
    else if ltb (2 ^ 62) n
    then pos 0
    else quot64 (wrap64 (pos (n + c - 1))) c

unfoldable pub count : Grid → ℤ
unfolding count_of
count g = count_of g.size g.chunk_size

unfoldable pub offset : Grid → ℕ → ℤ
offset g i = wrap64 (pos i *ℤ g.chunk_size)

unfoldable pub len : Grid → ℕ → ℤ
unfolding offset
len g i = let n = wrap64 (g.size -ℤ offset g i) in if ltb_ℤ g.chunk_size n then g.chunk_size else n

-- The last loop of AllZero, a byte at a time.
unfoldable pub tail_zero : Bytes → Bool
tail_zero [] = true
tail_zero (b ∷ bs) = if not (b == 0) then false else tail_zero bs

-- The first loop, eight bytes at a time.
unfoldable pub all_zero : Bytes → Bool
unfolding tail_zero
all_zero (a ∷ b ∷ c ∷ d ∷ e ∷ f ∷ g ∷ h ∷ rest) =
    if not (a == 0)
      || not (b == 0)
      || not (c == 0)
      || not (d == 0)
      || not (e == 0)
      || not (f == 0)
      || not (g == 0)
      || not (h == 0)
    then false
    else all_zero rest
all_zero bs = tail_zero bs

-- ZeroHash
abbrev pub zero_hash : Bytes
zero_hash = replicate 32 0

-- What ChunkSHA hashes.
unfoldable pub chunk_preimage : Bytes → ℕ → Bytes → Bytes
chunk_preimage rel_path idx payload =
    1 ∷ (append_uvarint (length rel_path) ++ (rel_path ++ (append_uvarint idx ++ payload)))

-- `sha256` is crypto/sha256.
unfoldable pub chunk_sha : (Bytes → Bytes) → Bytes → ℕ → Bytes → Bytes
unfolding chunk_preimage
chunk_sha sha256 rel_path idx payload = sha256 (chunk_preimage rel_path idx payload)
