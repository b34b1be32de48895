-- ===== src/Wire/Words.antt =====
-- Little-endian words of a fixed width, and the two's complement reading of int64 and uint32.
use botjim.Prelude.{
  ℕ, zero, suc, ◌+◌, ◌-◌, ◌*◌, ◌/◌, ◌%◌, ◌^◌, ◌<◌, ◌≡◌, refl, ap, arith, [], ◌∷◌, Bytes, length,
  ltb, if◌then◌else◌, IsBytes, Bool-cases, inl, inr,
}
use botjim.Prelude.Int.{ℤ, pos, negsuc}
use botjim.Wire.Varint.{IsI64}

-- `n` bytes of `v`, the lowest first (binary.LittleEndian.AppendUint16, 32, 64).
unfoldable pub le_bytes : ℕ → ℕ → Bytes
le_bytes zero v = []
le_bytes (suc n) v = (v % 256) ∷ le_bytes n (v / 256)

-- binary.LittleEndian.Uint16, 32, 64.
unfoldable pub of_le : Bytes → ℕ
of_le [] = 0
of_le (b ∷ bs) = b + 256 * of_le bs

unfoldable pub capacity : ℕ → ℕ
capacity zero = 1
capacity (suc n) = 256 * capacity n

pub of_le-le_bytes : (n v : ℕ) → v < capacity n → of_le (le_bytes n v) ≡ v
unfolding of_le le_bytes capacity
of_le-le_bytes zero v h = omega arith
of_le-le_bytes (suc n) v h = omega (arith, of_le-le_bytes n (v / 256) (omega arith))

pub length-le_bytes : (n v : ℕ) → length (le_bytes n v) ≡ n
unfolding le_bytes
length-le_bytes zero v = refl
length-le_bytes (suc n) v = ap suc (length-le_bytes n (v / 256))

pub le_bytes-of_le : (bs : Bytes) → IsBytes bs → le_bytes (length bs) (of_le bs) ≡ bs
unfolding of_le le_bytes
le_bytes-of_le [] h = refl
le_bytes-of_le (b ∷ bs) (hb, hbs) =
    let high : (b + 256 * of_le bs) / 256 ≡ of_le bs = omega arith in
    let low : (b + 256 * of_le bs) % 256 ≡ b = omega arith in rw (low, high, le_bytes-of_le bs hbs)

pub of_le-lt : (bs : Bytes) → IsBytes bs → of_le bs < capacity (length bs)
unfolding of_le capacity
of_le-lt [] h = omega arith
of_le-lt (b ∷ bs) (hb, hbs) = omega (arith, of_le-lt bs hbs)

pub le_bytes-IsBytes : (n v : ℕ) → IsBytes (le_bytes n v)
unfolding le_bytes
le_bytes-IsBytes zero v = tt
le_bytes-IsBytes (suc n) v = (omega arith, le_bytes-IsBytes n (v / 256))

-- `uint64(x)` of an int64, and back.
unfoldable pub to_u64 : ℤ → ℕ
to_u64 (pos n) = n % 2 ^ 64
to_u64 (negsuc n) = 2 ^ 64 - 1 - n % 2 ^ 64

unfoldable pub to_i64 : ℕ → ℤ
to_i64 w = if ltb w (2 ^ 63) then pos w else negsuc (2 ^ 64 - 1 - w)

-- `uint32(x)` of an int64.
unfoldable pub to_u32 : ℤ → ℕ
to_u32 (pos n) = n % 2 ^ 32
to_u32 (negsuc n) = 2 ^ 32 - 1 - n % 2 ^ 32

pub to_i64-to_u64 : (x : ℤ) → IsI64 x → to_i64 (to_u64 x) ≡ x
unfolding to_i64 to_u64
to_i64-to_u64 (pos n) h = ground arith
to_i64-to_u64 (negsuc n) h = ground arith

pub to_u64-lt : (x : ℤ) → to_u64 x < 2 ^ 64
unfolding to_u64
to_u64-lt (pos n) = omega arith
to_u64-lt (negsuc n) = omega arith

pub to_u32-lt : (x : ℤ) → to_u32 x < 2 ^ 32
unfolding to_u32
to_u32-lt (pos n) = omega arith
to_u32-lt (negsuc n) = omega arith

pub to_u32-pos : (n : ℕ) → n < 2 ^ 32 → to_u32 (pos n) ≡ n
unfolding to_u32
to_u32-pos n h = omega arith

pub to_i64-IsI64 : (w : ℕ) → w < 2 ^ 64 → IsI64 (to_i64 w)
unfolding to_i64
to_i64-IsI64 w h = elim (Bool-cases (ltb w (2 ^ 63))) [
  | inl low ↦ rw low (ground arith)
  | inr high ↦ rw high (ground arith)
]
