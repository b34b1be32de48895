-- ===== src/Compress.antt =====
-- internal/compress/compress.go: the codecs of a chunk. The zstd and lz4 libraries are parameters; the
-- buffers that are used again are not modelled.
mod Tests
pub mod RoundTrip
use botjim.Prelude.{
  ℕ, ◌+◌, ◌*◌, ◌^◌, ◌≤◌, Bool, true, false, not, ◌||◌, Bytes, length, ◌==◌, ltb, leb, if◌then◌else◌,
  Option, none, some,
}
use botjim.Prelude.Int.{ℤ, pos, negsuc, ltb_ℤ, pos_part}

-- Compress answers whether the bytes stay raw; Decompress takes the size of the chunk.
pub record Codec : Type 0 where
  pub compress : Bytes → Bytes × Bool
  pub decompress : Bytes → ℤ → Option Bytes

-- Compress of zstdCodec: `encode_all` is EncodeAll.
unfoldable pub zstd_compress : (Bytes → Bytes) → Bytes → Bytes × Bool
zstd_compress encode_all src =
    let out = encode_all src in if leb (length src) (length out) then (src, true) else (out, false)

-- The test of the length behind DecodeAll.
unfoldable pub at_most_long : ℤ → Option Bytes → Option Bytes
at_most_long max_len none = none
at_most_long max_len (some out) = if ltb_ℤ max_len (pos (length out)) then none else some out

unfoldable pub zstd_decompress : (Bytes → Option Bytes) → Bytes → ℤ → Option Bytes
unfolding at_most_long
zstd_decompress decode_all src max_len =
    if ltb_ℤ max_len (pos (length src)) then none else at_most_long max_len (decode_all src)

-- What CompressBlock left: an error, or the bytes that it wrote; none stand for a chunk that it cannot compress.
unfoldable pub kept_block : Bytes → Option Bytes → Bytes × Bool
kept_block src none = (src, true)
kept_block src (some out) =
    if length out == 0 || leb (length src) (length out) then (src, true) else (out, false)

unfoldable pub lz4_compress : (Bytes → Option Bytes) → Bytes → Bytes × Bool
unfolding kept_block
lz4_compress compress_block src = kept_block src (compress_block src)

unfoldable pub exactly_long : ℤ → Option Bytes → Option Bytes
exactly_long max_len none = none
exactly_long (negsuc n) (some out) = none
exactly_long (pos n) (some out) = if not (length out == n) then none else some out

-- `uncompress_block` is UncompressBlock into a buffer of that many bytes.
unfoldable pub lz4_decompress : (Bytes → ℕ → Option Bytes) → Bytes → ℤ → Option Bytes
unfolding exactly_long
lz4_decompress uncompress_block src max_len =
    if ltb_ℤ max_len (pos (length src))
    then none
    else exactly_long max_len (uncompress_block src (pos_part max_len))

-- The argument of WithDecoderMaxMemory.
abbrev pub max_memory : ℕ
max_memory = 18 * 2 ^ 20

-- newZstd: `decode_all` is DecodeAll of a decoder with that limit on the decoded size.
unfoldable pub zstd_codec : (Bytes → Bytes) → (ℕ → Bytes → Option Bytes) → Codec
zstd_codec encode_all decode_all = record {
  compress = zstd_compress encode_all;
  decompress = zstd_decompress (decode_all max_memory);
}

unfoldable pub lz4_codec : (Bytes → Option Bytes) → (Bytes → ℕ → Option Bytes) → Codec
lz4_codec compress_block uncompress_block = record {
  compress = lz4_compress compress_block;
  decompress = lz4_decompress uncompress_block;
}

-- The level of zstd, from 1 to 4.
unfoldable pub normalize_zstd_level : ℤ → ℤ
normalize_zstd_level level =
    let low = if ltb_ℤ level (pos 1) then pos 1 else level in
    if ltb_ℤ (pos 4) low then pos 4 else low
