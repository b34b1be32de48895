-- ===== src/Wire/Bits.antt =====
-- Masks on a byte, by tables: `v &^ (1 << k)`, `v | 1 << k` and `v & (1 << k) != 0`.
use Prim.Native.Nat.{bit_and, bit_or}
use botjim.Prelude.{
  ℕ, zero, suc, ◌-◌, ◌^◌, ◌<◌, ◌≡◌, refl, arith, Bool, true, false, not, ◌&&◌, ◌||◌, ◌==◌, ltb,
  ==_iff,
}

unfoldable pub test_bit : ℕ → ℕ → Bool
test_bit v k = not (bit_and v (2 ^ k) == 0)

unfoldable pub set_bit : ℕ → ℕ → ℕ
set_bit v k = bit_or v (2 ^ k)

unfoldable pub clear_bit : ℕ → ℕ → ℕ
clear_bit v k = bit_and v (255 - 2 ^ k)

every_below : ℕ → (ℕ → Bool) → Bool
every_below zero p = true
every_below (suc n) p = p n && every_below n p

every_below_sound : (n : ℕ) (p : ℕ → Bool) (x : ℕ) → every_below n p ≡ true → x < n → p x ≡ true
unfolding every_below
every_below_sound zero p x h lt = absurd (omega arith)
every_below_sound (suc n) p x h lt = ground (arith, every_below_sound n p x)

-- A claim about one byte and two bit positions, checked at every value.
abbrev holds : (ℕ → ℕ → ℕ → Bool) → Bool
holds p = every_below 256 (λ v. every_below 8 (λ k. every_below 8 (λ j. p v k j)))

holds_at :
    (p : ℕ → ℕ → ℕ → Bool) (v k j : ℕ) → holds p ≡ true → v < 256 → k < 8 → j < 8 → p v k j ≡ true
holds_at p v k j h hv hk hj =
    every_below_sound 8 _ j (every_below_sound 8 _ k (every_below_sound 256 _ v h hv) hk) hj

abbrev same : Bool → Bool → Bool
same true b = b
same false b = not b

same→eq : (a b : Bool) → same a b ≡ true → a ≡ b
same→eq true b h = ground arith
same→eq false b h = ground arith

set_table : holds (λ v k j. same (test_bit (set_bit v k) j) (k == j || test_bit v j)) ≡ true
unfolding every_below test_bit set_bit
set_table = refl

clear_table :
    holds (λ v k j. same (test_bit (clear_bit v k) j) (not (k == j) && test_bit v j)) ≡ true
unfolding every_below test_bit clear_bit
clear_table = refl

bounds_table : holds (λ v k j. ltb (set_bit v k) 256 && ltb (clear_bit v k) 256) ≡ true
unfolding every_below set_bit clear_bit
bounds_table = refl

clear_set_table : holds (λ v k j. clear_bit (set_bit v k) k == clear_bit v k) ≡ true
unfolding every_below set_bit clear_bit
clear_set_table = refl

pub test_bit-set_bit :
    (v k j : ℕ) → v < 256 → k < 8 → j < 8 → test_bit (set_bit v k) j ≡ (k == j || test_bit v j)
test_bit-set_bit v k j hv hk hj = same→eq _ _ (holds_at _ v k j set_table hv hk hj)

pub test_bit-clear_bit :
    (v k j : ℕ)
    → v < 256
    → k < 8
    → j < 8
    → test_bit (clear_bit v k) j ≡ (not (k == j) && test_bit v j)
test_bit-clear_bit v k j hv hk hj = same→eq _ _ (holds_at _ v k j clear_table hv hk hj)

pub set_bit-lt : (v k : ℕ) → v < 256 → k < 8 → set_bit v k < 256
set_bit-lt v k hv hk = ground (arith, holds_at _ v k 0 bounds_table hv hk (omega arith))

pub clear_bit-lt : (v k : ℕ) → v < 256 → k < 8 → clear_bit v k < 256
clear_bit-lt v k hv hk = ground (arith, holds_at _ v k 0 bounds_table hv hk (omega arith))

pub clear_bit-set_bit : (v k : ℕ) → v < 256 → k < 8 → clear_bit (set_bit v k) k ≡ clear_bit v k
clear_bit-set_bit v k hv hk = (==_iff _ _).0 (holds_at _ v k 0 clear_set_table hv hk (omega arith))

zero_table : every_below 8 (λ k. not (test_bit 0 k)) ≡ true
unfolding every_below test_bit
zero_table = refl

pub test_bit-zero : (k : ℕ) → k < 8 → test_bit 0 k ≡ false
test_bit-zero k h = ground (arith, every_below_sound 8 (λ i. not (test_bit 0 i)) k zero_table h)
