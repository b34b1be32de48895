-- ===== src/Protocol/Handshake.antt =====
-- internal/protocol/protocol.go: the 36 bytes that open a connection.
use Prim.Native.Nat.{bit_and}
use botjim.Prelude.{
  ℕ, ◌-◌, Bool, true, false, not, ◌&&◌, [], ◌∷◌, ◌++◌, Bytes, take, drop, get_or, ◌==◌,
}
use botjim.Wire.Words.{le_bytes, of_le}
use botjim.Wire.Crc.{crc32c}
use botjim.Wire.Stream.{
  Reader, bad_magic, corrupt, bad_major, bad_cipher, bad_flags, read_full, pure, ◌>>=◌, unless,
}

-- "FSY1"
abbrev pub magic : Bytes
magic = 0x46 ∷ 0x53 ∷ 0x59 ∷ 0x31 ∷ []

abbrev pub supported_major : ℕ
supported_major = 1

abbrev pub cipher_plain : ℕ
cipher_plain = 0

-- HSFlagToken | HSFlagPass | HSFlagSecureV2
abbrev pub known_flags : ℕ
known_flags = 7

pub record Handshake : Type 0 where
  pub proto_major : ℕ
  pub proto_minor : ℕ
  pub cipher_id : ℕ
  pub flags : ℕ
  pub feature_bits : ℕ
  pub nonce : Bytes

-- buf[0:32]
unfoldable pub handshake_head : Handshake → Bytes
handshake_head h =
    magic
    ++ (h.proto_major
        ∷ h.proto_minor
        ∷ h.cipher_id
        ∷ h.flags
        ∷ (le_bytes 8 h.feature_bits ++ h.nonce))

unfoldable pub marshal_handshake : Handshake → Bytes
marshal_handshake h = handshake_head h ++ le_bytes 4 (crc32c (handshake_head h))

unfoldable pub bytes_eq : Bytes → Bytes → Bool
bytes_eq [] [] = true
bytes_eq (x ∷ xs) (y ∷ ys) = x == y && bytes_eq xs ys
bytes_eq _ _ = false

-- buf[a:b]
unfoldable pub slice : ℕ → ℕ → Bytes → Bytes
slice a b buf = take (b - a) (drop a buf)

-- The checks of ReadHandshake on the 36 bytes, in the source's order.
unfoldable pub check_handshake : Bytes → Reader Handshake
unfolding slice bytes_eq
check_handshake buf = unless (not (bytes_eq (slice 0 4 buf) magic)) bad_magic (
    unless (not (of_le (slice 32 36 buf) == crc32c (take 32 buf))) corrupt (
      unless (not (get_or buf 4 0 == supported_major)) (bad_major (get_or buf 4 0)) (
        unless (not (get_or buf 6 0 == cipher_plain)) (bad_cipher (get_or buf 6 0)) (
          unless (not (bit_and (get_or buf 7 0) (255 - known_flags) == 0))
            (bad_flags (get_or buf 7 0))
            (pure (record {
              proto_major = get_or buf 4 0;
              proto_minor = get_or buf 5 0;
              cipher_id = get_or buf 6 0;
              flags = get_or buf 7 0;
              feature_bits = of_le (slice 8 16 buf);
              nonce = slice 16 32 buf;
            }))))))

unfoldable pub read_handshake : Reader Handshake
unfolding check_handshake read_full ◌>>=◌ pure unless
read_handshake = read_full 36 >>= check_handshake
