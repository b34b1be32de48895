-- ===== src/Chunking/Tests.antt =====
-- Grids, the zero test and identities at concrete values.
use botjim.Prelude.{
  ℕ, ◌+◌, ◌-◌, ◌*◌, ◌^◌, ◌<◌, ◌≡◌, ◌↔◌, ◌⊎◌, refl, arith, Bool, true, false, [], ◌∷◌, Bytes, All,
}
use botjim.Prelude.Int.{pos, negsuc}
use botjim.Chunking.{Grid, new_grid, count, len, all_zero}
use botjim.Chunking.Tiling.{Holds, grid_partition}
use botjim.Chunking.Identity.{IsZero, Collision, all_zero_iff, chunk_sha-injective}

-- 10 MiB and a byte.
abbrev clip : Grid
clip = record { size = pos 10485761; chunk_size = pos 4194304 }

clip_grid : new_grid (pos 10485761) (pos 0) ≡ clip
unfolding new_grid
clip_grid = refl

odd_override : new_grid (pos 10485761) (pos 1000000) ≡ clip
unfolding new_grid
odd_override = refl

kept_override :
    new_grid (pos 10485761) (pos 1048576) ≡ record { size = pos 10485761; chunk_size = pos 1048576 }
unfolding new_grid
kept_override = refl

clip_count : count clip ≡ pos 3
unfolding count botjim.Wire.Words.to_i64 botjim.Wire.Words.to_u64
clip_count = refl

clip_last : len clip 2 ≡ pos 2097153
unfolding len botjim.Wire.Words.to_i64 botjim.Wire.Words.to_u64 botjim.Prelude.Int.◌-ℤ◌
    botjim.Prelude.Int.◌*ℤ◌
clip_last = refl

huge_is_empty : count (record { size = pos (2 ^ 62 + 1); chunk_size = pos 4194304 }) ≡ pos 0
unfolding count
huge_is_empty = refl

grid_partition_example :
    (i : ℕ) × (i < 3) × Holds clip i 9000000 × ((j : ℕ) → j < 3 → Holds clip j 9000000 → j ≡ i)
grid_partition_example =
    grid_partition 10485761 4194304 (omega arith) (omega arith) (omega arith) 3 9000000 clip_count
      (omega arith)

abbrev nine : Bytes
nine = 0 ∷ 0 ∷ 0 ∷ 0 ∷ 0 ∷ 0 ∷ 0 ∷ 0 ∷ 1 ∷ []

not_all_zero : all_zero nine ≡ false
unfolding all_zero
not_all_zero = refl

all_zero_iff_example : (all_zero nine ≡ true) ↔ All IsZero nine
all_zero_iff_example = all_zero_iff nine

-- The hash that is its input.
abbrev plain : Bytes → Bytes
plain p = p

chunk_sha-injective_example :
    (◌≡◌ {A = Bytes} (97 ∷ []) (97 ∷ []) × ◌≡◌ {A = ℕ} 300 300 × ◌≡◌ {A = Bytes} (5 ∷ []) (5 ∷ []))
    ⊎ Collision plain
chunk_sha-injective_example =
    chunk_sha-injective plain (97 ∷ []) (97 ∷ []) 300 300 (5 ∷ []) (5 ∷ []) (omega arith)
      (omega arith) (omega arith) (omega arith) refl
