-- ===== src/Compress/Tests.antt =====
-- The codecs with concrete libraries.
use botjim.Prelude.{
  ℕ, zero, ◌<◌, ◌≤◌, ◌≡◌, ◌==◌, ltb, ltb-of_le, if◌then◌else◌, refl, arith, true, false, [], ◌∷◌,
  Bytes, length, Option, none, some,
}
use botjim.Prelude.Int.{pos, negsuc}
use botjim.Chunking.{large_chunk}
use botjim.Compress.{
  zstd_compress, zstd_decompress, lz4_compress, zstd_codec, lz4_codec, normalize_zstd_level,
}
use botjim.Compress.RoundTrip.{IsCodec, zstd_codec-IsCodec, lz4_codec-IsCodec}

-- A library that makes one byte of two zeros and puts a byte in front of anything else; its decoder refuses what is
-- longer than its limit.
abbrev encoded : Bytes → Bytes
encoded (zero ∷ zero ∷ []) = 7 ∷ []
encoded b = 9 ∷ b

abbrev decoded : ℕ → Bytes → Option Bytes
decoded max [] = none
decoded max (x ∷ xs) =
    let out = if x == 7 then 0 ∷ 0 ∷ [] else xs in if ltb max (length out) then none else some out

encoded-nonempty : (chunk : Bytes) → 0 < length chunk → 0 < length (encoded chunk)
encoded-nonempty (zero ∷ zero ∷ []) h = omega arith
encoded-nonempty _ h = omega arith

encoded-inverse :
    (max : ℕ) (chunk : Bytes) → length chunk ≤ max → decoded max (encoded chunk) ≡ some chunk
encoded-inverse max (zero ∷ zero ∷ []) h = let fits = ltb-of_le 2 max h in rw fits refl
encoded-inverse max chunk h = let fits = ltb-of_le (length chunk) max h in rw fits refl

zstd_codec-IsCodec_example : IsCodec large_chunk (zstd_codec encoded decoded)
zstd_codec-IsCodec_example =
    zstd_codec-IsCodec encoded decoded large_chunk encoded-nonempty encoded-inverse (omega arith)

zeros_shrunk : zstd_compress encoded (0 ∷ 0 ∷ []) ≡ (7 ∷ [], false)
unfolding zstd_compress
zeros_shrunk = refl

-- A block that two zeros become; nothing else can be compressed.
abbrev two_zeros : Bytes → Option Bytes
two_zeros (zero ∷ zero ∷ []) = some (1 ∷ [])
two_zeros _ = some []

abbrev of_two_zeros : Bytes → ℕ → Option Bytes
of_two_zeros b n = some (0 ∷ 0 ∷ [])

empty_block : (out : Bytes) → ◌≡◌ {A = Option Bytes} (some []) (some out) → 0 < length out → ⊥
empty_block [] e h = omega arith
empty_block (x ∷ out) e h = cc

two_zeros-inverse :
    (chunk out : Bytes)
    → two_zeros chunk ≡ some out
    → 0 < length out
    → of_two_zeros out (length chunk) ≡ some chunk
two_zeros-inverse (zero ∷ zero ∷ []) out e h = refl
two_zeros-inverse _ out e h = absurd (empty_block out e h)

lz4_codec-IsCodec_example : IsCodec large_chunk (lz4_codec two_zeros of_two_zeros)
lz4_codec-IsCodec_example = lz4_codec-IsCodec two_zeros of_two_zeros two_zeros-inverse large_chunk

shrunk : lz4_compress two_zeros (0 ∷ 0 ∷ []) ≡ (1 ∷ [], false)
unfolding lz4_compress
shrunk = refl

kept_raw : lz4_compress two_zeros (0 ∷ 5 ∷ []) ≡ (0 ∷ 5 ∷ [], true)
unfolding lz4_compress
kept_raw = refl

too_long : zstd_decompress (decoded 9) (9 ∷ 1 ∷ 2 ∷ []) (pos 1) ≡ none
unfolding zstd_decompress
too_long = refl

clamped : normalize_zstd_level (pos 9) ≡ pos 4
unfolding normalize_zstd_level
clamped = refl

clamped_low : normalize_zstd_level (negsuc 3) ≡ pos 1
unfolding normalize_zstd_level
clamped_low = refl
