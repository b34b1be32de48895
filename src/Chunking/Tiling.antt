-- ===== src/Chunking/Tiling.antt =====
-- The chunks of a grid cover the file, each byte once.
use botjim.Prelude.{
  ℕ, ◌+◌, ◌-◌, ◌*◌, ◌/◌, ◌%◌, ◌^◌, ◌<◌, ◌≤◌, ◌≡◌, ◌⊎◌, inl, inr, ◌∙◌, sym, arith, ltb,
  if◌then◌else◌,
}
use botjim.Prelude.Int.{pos, ◌-ℤ◌, ◌*ℤ◌}
use botjim.Wire.Words.{to_i64-to_u64}
use botjim.Chunking.{Grid, wrap64, count, offset, len}
use native.Mathlib.Nat.{div-add-mod, mod-lt}

wrap_pos : (m : ℕ) → m < 2 ^ 63 → wrap64 (pos m) ≡ pos m
wrap_pos m h = to_i64-to_u64 (pos m) h

mul_pos : (i c : ℕ) → pos i *ℤ pos c ≡ pos (i * c)
unfolding ◌*ℤ◌
mul_pos i c = ground arith

sub_pos : (a b : ℕ) → b ≤ a → pos a -ℤ pos b ≡ pos (a - b)
unfolding ◌-ℤ◌
sub_pos a b h = ground arith

-- Byte `b` of the file lies in chunk `i`.
pub record Holds (g : Grid) (i b : ℕ) : Type 0 where
  pub start : ℕ
  pub size : ℕ
  pub at : offset g i ≡ pos start
  pub long : len g i ≡ pos size
  pub from : start ≤ b
  pub below : b < start + size

next_multiple : (i q c : ℕ) → i < q → i * c + c ≤ q * c
next_multiple i q c h = grind arith

quotient_unique : (i q c b : ℕ) → q * c ≤ b → b < q * c + c → i * c ≤ b → b < i * c + c → i ≡ q
quotient_unique i q c b p r s t = elim (Ord-cases i q) [
  | inl low ↦ absurd (omega (arith, next_multiple i q c low))
  | inr high ↦ elim (Ord-cases q i) [
    | inl low ↦ absurd (omega (arith, next_multiple q i c low))
    | inr high' ↦ omega arith
  ]
]
  where
    Ord-cases : (a d : ℕ) → (a < d) ⊎ (d ≤ a)
    Ord-cases a d = omega arith

pos-injective : (a b : ℕ) → pos a ≡ pos b → a ≡ b
pos-injective a b h = cc

-- The grid of `n` bytes in chunks of `c`, the number of its chunks and the length of one.
abbrev pub grid_of : ℕ → ℕ → Grid
grid_of n c = record { size = pos n; chunk_size = pos c }

abbrev pub chunks_of : ℕ → ℕ → ℕ
chunks_of n c = (n + c - 1) / c

abbrev pub chunk_len : ℕ → ℕ → ℕ → ℕ
chunk_len n c i = if ltb c (n - i * c) then c else n - i * c

-- A file of `n` bytes in chunks of `c`: the sizes that an entry on the wire can have.
module _ (n c : ℕ) (some_chunk : 0 < c) (chunk : c < 2 ^ 32) (size : n ≤ 2 ^ 62) where
  abbrev grid : Grid
  grid = grid_of n c

  abbrev chunks : ℕ
  chunks = chunks_of n c

  rounding : (n + c - 1) ≡ c * chunks + (n + c - 1) % c
  rounding = sym (div-add-mod (n + c - 1) c)

  remainder : (n + c - 1) % c < c
  remainder = mod-lt (n + c - 1) some_chunk

  covers : n ≤ chunks * c
  covers = omega (arith, rounding, remainder)

  below : (i : ℕ) → i < chunks → i * c + c ≤ chunks * c
  below i h = grind arith

  pub last_starts : (i : ℕ) → i < chunks → i * c < n
  last_starts i h = omega (arith, rounding, remainder, below i h)

  -- A chunk has at least a byte.
  pub chunks_le : chunks ≤ n
  chunks_le = elim (Ord-cases n chunks) [
    | inl low ↦ absurd (grind (arith, last_starts n low))
    | inr high ↦ high
  ]
    where
      Ord-cases : (a d : ℕ) → (a < d) ⊎ (d ≤ a)
      Ord-cases a d = omega arith

  no_chunks : n ≡ 0 → chunks ≡ 0
  no_chunks e = grind (arith, rounding)

  pub count_lem : count grid ≡ pos chunks
  unfolding count
  count_lem = ground (arith, wrap_pos (n + c - 1), no_chunks)

  pub offset_lem : (i : ℕ) → i < chunks → offset grid i ≡ pos (i * c)
  unfolding offset
  offset_lem i h = rw mul_pos (wrap_pos (i * c) (omega (arith, last_starts i h)))

  pub len_lem : (i : ℕ) → i < chunks → len grid i ≡ pos (chunk_len n c i)
  unfolding len
  len_lem i h =
      let start = last_starts i h in
      let left : wrap64 (pos n -ℤ pos (i * c)) ≡ pos (n - i * c) =
        rw (sub_pos n (i * c) (omega arith)) (wrap_pos (n - i * c) (omega arith)) in
      rw (offset_lem i h) (rw left (ground arith))

  -- The chunk of byte `b`.
  holder : (b : ℕ) → b < n → (b / c < chunks) × Holds grid (b / c) b
  holder b h =
      let split = div-add-mod b c in
      let small = mod-lt b some_chunk in
      let inside : b / c < chunks = grind (arith, split, rounding, remainder) in
      (
        inside,
        record {
          start = b / c * c;
          size = chunk_len n c (b / c);
          at = offset_lem (b / c) inside;
          long = len_lem (b / c) inside;
          from = omega (arith, split);
          below = ground (arith, split, small);
        },
      )

  pub in_its_chunk :
      (b : ℕ) → b < n → (b / c < chunks) × (b / c * c ≤ b) × (b < b / c * c + chunk_len n c (b / c))
  in_its_chunk b h =
      let split = div-add-mod b c in
      let small = mod-lt b some_chunk in
      (
        grind (arith, split, rounding, remainder),
        omega (arith, split),
        ground (arith, split, small),
      )

  only_holder : (i b : ℕ) → i < chunks → Holds grid i b → i ≡ b / c
  only_holder i b h w =
      let start : w.start ≡ i * c = pos-injective _ _ (sym w.at ∙ offset_lem i h) in
      let l = if ltb c (n - i * c) then c else n - i * c in
      let size : w.size ≡ l = pos-injective _ _ (sym w.long ∙ len_lem i h) in
      let short : l ≤ c = ground arith in
      quotient_unique i (b / c) c b (omega (arith, div-add-mod b c))
        (omega (arith, div-add-mod b c, mod-lt b some_chunk)) (omega (arith, start, w.from))
        (omega (arith, start, size, short, w.below))

  -- A file of at most 2^62 bytes in chunks of less than 4 GiB: every byte lies in one chunk of the
  -- `k` that Count gives, and in no other.
  pub grid_partition :
      (k b : ℕ)
      → count grid ≡ pos k
      → b < n
      → (i : ℕ) × (i < k) × Holds grid i b × ((j : ℕ) → j < k → Holds grid j b → j ≡ i)
  grid_partition k b e h =
      let same = pos-injective _ _ (sym count_lem ∙ e) in
      let (inside, found) = holder b h in
      (b / c, rw (← same) inside, found, λ j hj w. only_holder j b (rw same hj) w)
