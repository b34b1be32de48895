-- ===== src/Compress/RoundTrip.antt =====
-- What a codec shrinks it gives back.
use botjim.Prelude.{
  ℕ, ◌<◌, ◌≤◌, ◌≡◌, ◌∙◌, refl, ap, arith, Bool, true, false, ◌||◌, Bytes, length, ◌==◌, leb,
  if◌then◌else◌, Option, none, some,
}
use botjim.Prelude.Int.{pos, ltb_ℤ}
use botjim.Chunking.{large_chunk}
use botjim.Compress.{
  max_memory, Codec, zstd_compress, zstd_decompress, kept_block, lz4_compress, lz4_decompress,
  zstd_codec, lz4_codec,
}

-- What Compress makes of a chunk is not empty and is shorter, and Decompress to the size of the chunk gives it back
-- if the chunk is no longer than the limit.
pub record IsCodec (limit : ℕ) (codec : Codec) : Type 0 where
  pub some_bytes :
      (chunk out : Bytes) → 0 < length chunk → codec.compress chunk ≡ (out, false) → 0 < length out
  pub shorter :
      (chunk out : Bytes) → codec.compress chunk ≡ (out, false) → length out < length chunk
  pub back :
      (chunk out : Bytes)
      → length chunk ≤ limit
      → codec.compress chunk ≡ (out, false)
      → codec.decompress out (pos (length chunk)) ≡ some chunk

-- A value and an answer, on either side of a test.
chosen :
    (long : Bool) (chunk block out : Bytes) (r : Bool)
    → ◌≡◌ {A = Bytes × Bool} (if long then (chunk, true) else (block, false)) (out, r)
    → (r ≡ true → out ≡ chunk) × (r ≡ false → (out ≡ block) × (long ≡ false))
chosen true chunk block out r e = (λ _. cc e, λ f. absurd cc)
chosen false chunk block out r e = (λ t. absurd cc, λ _. (cc e, refl))

-- With a library that encodes no chunk to nothing, and that decodes what it encodes of a chunk within the limit that
-- the decoder was given: what the zstd codec makes of a chunk that it shrinks is shorter, but not empty, and of a
-- chunk no longer than a limit that is at most LargeChunk Decompress to the chunk's size gives the chunk back.
pub zstd_codec-IsCodec :
    (encode_all : Bytes → Bytes) (decode_all : ℕ → Bytes → Option Bytes) (limit : ℕ)
    → ((chunk : Bytes) → 0 < length chunk → 0 < length (encode_all chunk))
    → ((max : ℕ) (chunk : Bytes)
        → length chunk ≤ max
        → decode_all max (encode_all chunk) ≡ some chunk)
    → limit ≤ large_chunk
    → IsCodec limit (zstd_codec encode_all decode_all)
unfolding zstd_codec zstd_compress zstd_decompress
zstd_codec-IsCodec encode_all decode_all limit nonempty inverse within = record {
  some_bytes = λ chunk out h e.
      let (same, small) = (chosen _ chunk (encode_all chunk) out false e).1 refl in
      rw same (nonempty chunk h);
  shorter = λ chunk out e.
      let (same, small) = (chosen _ chunk (encode_all chunk) out false e).1 refl in
      rw same (ground arith);
  back = λ chunk out fit e.
      let (same, small) = (chosen _ chunk (encode_all chunk) out false e).1 refl in
      let given : decode_all max_memory out ≡ some chunk =
        ap (decode_all max_memory) same ∙ inverse max_memory chunk (omega (arith, fit, within)) in
      let fits : ltb_ℤ (pos (length chunk)) (pos (length out)) ≡ false = rw same (ground arith) in
      let whole : ltb_ℤ (pos (length chunk)) (pos (length chunk)) ≡ false = ground arith in
      rw (fits, given, whole) refl;
}

module _ (compress_block : Bytes → Option Bytes) (uncompress_block : Bytes → ℕ → Option Bytes)
    (inverse : (chunk out : Bytes)
      → compress_block chunk ≡ some out
      → 0 < length out
      → uncompress_block out (length chunk) ≡ some chunk) where
  block_cases :
      (chunk out : Bytes) (r : Bool) (o : Option Bytes)
      → compress_block chunk ≡ o
      → kept_block chunk o ≡ (out, r)
      → (r ≡ true → out ≡ chunk)
        × (r ≡ false
            → (compress_block chunk ≡ some out) × (0 < length out) × (length out < length chunk))
  unfolding kept_block
  block_cases chunk out r none same e = (λ _. cc e, λ f. absurd cc)
  block_cases chunk out r (some block) same e =
      let (raw, packed) =
        chosen (length block == 0 || leb (length chunk) (length block)) chunk block out r e in
      (
        raw,
        λ f.
            let (is_block, small) = packed f in
            (rw is_block same, rw is_block (ground arith), rw is_block (ground arith)),
      )

  -- With a library that decodes the blocks it compresses, an empty block not being one: what the lz4 codec makes of a
  -- chunk that it shrinks is shorter, but not empty, and Decompress to the chunk's size gives the chunk back, whatever
  -- its length.
  pub lz4_codec-IsCodec : (limit : ℕ) → IsCodec limit (lz4_codec compress_block uncompress_block)
  unfolding lz4_codec lz4_compress lz4_decompress
  lz4_codec-IsCodec limit = record {
    some_bytes = λ chunk out h e.
        let (block, full, small) = (block_cases chunk out false _ refl e).1 refl in full;
    shorter = λ chunk out e.
        let (block, full, small) = (block_cases chunk out false _ refl e).1 refl in small;
    back = λ chunk out fit e.
        let (block, full, small) = (block_cases chunk out false _ refl e).1 refl in
        let fits : ltb_ℤ (pos (length chunk)) (pos (length out)) ≡ false = ground arith in
        let given = inverse chunk out block full in
        let whole : (length chunk == length chunk) ≡ true = ground arith in
        rw (fits, given, whole) refl;
  }
