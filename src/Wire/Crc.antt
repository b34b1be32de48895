-- ===== src/Wire/Crc.antt =====
-- hash/crc32 with the Castagnoli table, bit by bit.
use Prim.Native.Nat.{bit_xor}
use botjim.Prelude.{
  ℕ, zero, suc, ◌-◌, ◌/◌, ◌%◌, ◌^◌, ◌<◌, ◌≡◌, refl, arith, [], ◌∷◌, Bytes, ◌==◌, if◌then◌else◌,
}

crc_bits : ℕ → ℕ → ℕ
crc_bits zero c = c
crc_bits (suc k) c = crc_bits k (if c % 2 == 1 then bit_xor (c / 2) 0x82f6_3b78 else c / 2)

crc_loop : ℕ → Bytes → ℕ
crc_loop c [] = c
crc_loop c (b ∷ bs) = crc_loop (crc_bits 8 (bit_xor c b)) bs

-- crc32.Update(c, crc32c, p)
unfoldable pub crc_update : ℕ → Bytes → ℕ
unfolding crc_loop crc_bits
crc_update c p = 0xffff_ffff - crc_loop (0xffff_ffff - c) p

-- crc32.Checksum(p, crc32c)
unfoldable pub crc32c : Bytes → ℕ
unfolding crc_update
crc32c p = crc_update 0 p

pub crc_update-lt : (c : ℕ) (p : Bytes) → crc_update c p < 2 ^ 32
unfolding crc_update
crc_update-lt c p = omega arith

pub crc32c-lt : (p : Bytes) → crc32c p < 2 ^ 32
unfolding crc32c
crc32c-lt p = crc_update-lt 0 p

-- The check value of the algorithm, of the text "123456789".
check_value :
    crc32c (0x31 ∷ 0x32 ∷ 0x33 ∷ 0x34 ∷ 0x35 ∷ 0x36 ∷ 0x37 ∷ 0x38 ∷ 0x39 ∷ []) ≡ 0xe306_9283
unfolding crc32c
check_value = refl
