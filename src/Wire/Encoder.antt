-- ===== src/Wire/Encoder.antt =====
-- internal/protocol/protocol.go: the `enc` buffer. Each method appends to the buffer, so a run of
-- calls on an empty buffer is what they append, one behind the other.
use botjim.Prelude.{ℕ, List, [], ◌∷◌, ◌++◌, Bytes, length}
use botjim.Prelude.Int.{ℤ}
use botjim.Wire.Varint.{append_uvarint, zigzag}
use botjim.Wire.Words.{le_bytes}

-- Shut on purpose, like the decoder's bind.
infixr 60 ◌then◌
unfoldable pub ◌then◌ : Bytes → Bytes → Bytes
p then q = p ++ q

unfoldable pub done : Bytes
done = []

unfoldable pub put_u8 : ℕ → Bytes
put_u8 v = le_bytes 1 v

unfoldable pub put_u16 : ℕ → Bytes
put_u16 v = le_bytes 2 v

unfoldable pub put_u32 : ℕ → Bytes
put_u32 v = le_bytes 4 v

unfoldable pub put_u64 : ℕ → Bytes
put_u64 v = le_bytes 8 v

unfoldable pub put_uv : ℕ → Bytes
put_uv v = append_uvarint v

unfoldable pub put_sv : ℤ → Bytes
put_sv v = append_uvarint (zigzag v)

unfoldable pub put_raw : Bytes → Bytes
put_raw p = p

unfoldable pub put_bytes : Bytes → Bytes
unfolding put_uv
put_bytes p = put_uv (length p) ++ p

abbrev pub put_str : Bytes → Bytes
put_str = put_bytes

-- `for _, x := range xs { <one x> }`
unfoldable pub each : {A : Type 0} → (A → Bytes) → List A → Bytes
each one [] = []
each one (x ∷ xs) = one x ++ each one xs
