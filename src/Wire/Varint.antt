-- ===== src/Wire/Varint.antt =====
-- encoding/binary's uvarint and varint, as internal/protocol/protocol.go uses them (`enc.uv`,
-- `enc.sv`, `dec.uv`, `dec.sv`).
use botjim.Prelude.{
  ℕ, zero, suc, ◌+◌, ◌*◌, ◌/◌, ◌%◌, ◌^◌, ◌<◌, ◌≡◌, arith, ◌&&◌, Option, none, some, [], ◌∷◌, ◌++◌,
  ltb, ◌==◌, if◌then◌else◌, Bytes, Bool-cases, inl, inr,
}
use botjim.Prelude.Int.{ℤ, pos, negsuc}
use mathlib.Core.Option

-- Groups of seven bits, the lowest first, each but the last with its top bit set. `k` counts the
-- further bytes that the number may take.
unfoldable pub put_groups : ℕ → ℕ → Bytes
put_groups zero x = x ∷ []
put_groups (suc k) x =
    let higher = put_groups k (x / 128) in if ltb x 128 then x ∷ [] else (x % 128 + 128) ∷ higher

-- A uint64 takes ten bytes at most.
unfoldable pub append_uvarint : ℕ → Bytes
unfolding put_groups
append_uvarint x = put_groups 9 x

abbrev pub over : ℕ → ℕ × Bytes → ℕ × Bytes
over b (v, rest) = (b % 128 + 128 * v, rest)

-- `k` bytes at most are read; the tenth is 0 or 1.
unfoldable pub get_groups : ℕ → Bytes → Option (ℕ × Bytes)
get_groups zero bs = none
get_groups (suc k) [] = none
get_groups (suc k) (b ∷ bs) =
    let higher = Option.map (over b) (get_groups k bs) in
    if ltb b 128 then (if k == 0 && ltb 1 b then none else some (b, bs)) else higher

-- `none` is Uvarint's n <= 0.
unfoldable pub uvarint : Bytes → Option (ℕ × Bytes)
unfolding get_groups
uvarint bs = get_groups 10 bs

-- What fits in `k` further bytes.
bound : ℕ → ℕ
bound zero = 2
bound (suc k) = 128 * bound k

get_groups-put_groups :
    (k x : ℕ) (rest : Bytes)
    → x < bound k
    → get_groups (suc k) (put_groups k x ++ rest) ≡ some (x, rest)
unfolding get_groups put_groups bound
get_groups-put_groups zero x rest h = ground arith
get_groups-put_groups (suc k) x rest h = elim (Bool-cases (ltb x 128)) [
  | inl small ↦ ground arith
  | inr large ↦ ground (arith, get_groups-put_groups k (x / 128) rest (ground arith))
]

pub uvarint-append_uvarint :
    (x : ℕ) (rest : Bytes) → x < 2 ^ 64 → uvarint (append_uvarint x ++ rest) ≡ some (x, rest)
unfolding uvarint append_uvarint bound
uvarint-append_uvarint x rest h = get_groups-put_groups 9 x rest (ground arith)

-- int64, folded onto uint64: `ux := uint64(x) << 1; if x < 0 { ux = ^ux }`.
unfoldable pub zigzag : ℤ → ℕ
zigzag (pos n) = 2 * n
zigzag (negsuc n) = 2 * n + 1

unfoldable pub unzigzag : ℕ → ℤ
unzigzag u = if u % 2 == 0 then pos (u / 2) else negsuc (u / 2)

pub unzigzag-zigzag : (x : ℤ) → unzigzag (zigzag x) ≡ x
unfolding unzigzag zigzag
unzigzag-zigzag (pos n) = ground arith
unzigzag-zigzag (negsuc n) = ground arith

-- The values of an int64.
abbrev pub IsI64 : ℤ → Type 0
IsI64 (pos n) = n < 2 ^ 63
IsI64 (negsuc n) = n < 2 ^ 63

pub zigzag-lt : (x : ℤ) → IsI64 x → zigzag x < 2 ^ 64
unfolding zigzag
zigzag-lt (pos n) h = omega arith
zigzag-lt (negsuc n) h = omega arith
