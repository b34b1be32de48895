-- ===== src/Engine/Disk.antt =====
-- The bytes of a file, by position: a hole reads as zeros, as it does on disk.
use mathlib.Core.Path.{subst}
use botjim.Prelude.{
  ℕ, zero, suc, ◌+◌, ◌-◌, ◌<◌, ◌≤◌, ◌≡◌, ◌⊎◌, inl, inr, ◌∙◌, refl, sym, ap, arith, Bool, true,
  false, ◌&&◌, [], ◌∷◌, Bytes, length, take, replicate, get_or, ltb, leb, if◌then◌else◌, Option,
  none, some, Bool-cases, All,
}
use botjim.Prelude.Int.{ℤ, pos, negsuc}

abbrev pub Disk : Type 0
Disk = ℕ → ℕ

-- The `n` bytes from `off` on.
unfoldable pub slice : Disk → ℕ → ℕ → Bytes
slice d off zero = []
slice d off (suc n) = d off ∷ slice d (off + 1) n

unfoldable pub put_at : Disk → ℕ → Bytes → Disk
put_at d off p b = if leb off b && ltb b (off + length p) then get_or p (b - off) 0 else d b

-- WriteAt, and whether it succeeded: `some k` is a failure after `k` bytes.
unfoldable pub write_part : Option ℕ → Disk → ℤ → Bytes → Disk × Bool
write_part fault d (negsuc off) p = (d, false)
write_part none d (pos off) p = (put_at d off p, true)
write_part (some k) d (pos off) p = (put_at d off (take k p), false)

pub length-slice : (d : Disk) (off n : ℕ) → length (slice d off n) ≡ n
unfolding slice
length-slice d off zero = refl
length-slice d off (suc n) = ap suc (length-slice d (off + 1) n)

pub get_or-slice : (d : Disk) (off n j : ℕ) → j < n → get_or (slice d off n) j 0 ≡ d (off + j)
unfolding slice
get_or-slice d off zero j h = absurd (omega arith)
get_or-slice d off (suc n) zero h = ap d (omega arith)
get_or-slice d off (suc n) (suc j) h =
    get_or-slice d (off + 1) n j (omega arith) ∙ ap d (omega arith)

pub slice-cong :
    (d e : Disk) (off n : ℕ)
    → ((b : ℕ) → off ≤ b → b < off + n → d b ≡ e b)
    → slice d off n ≡ slice e off n
unfolding slice
slice-cong d e off zero h = refl
slice-cong d e off (suc n) h =
    let rest = slice-cong d e (off + 1) n (λ b p q. h b (omega arith) (omega arith)) in
    let here : d off ≡ e off = h off (omega arith) (omega arith) in cc (here, rest)

pub slice-eq :
    (d e : Disk) (off n b : ℕ) → slice d off n ≡ slice e off n → off ≤ b → b < off + n → d b ≡ e b
slice-eq d e off n b h p q =
    let back : off + (b - off) ≡ b = omega arith in
    rw back at (
      sym (get_or-slice d off n (b - off) (omega arith))
      ∙ ap (λ x. get_or x (b - off) 0) h
      ∙ get_or-slice e off n (b - off) (omega arith))

pub take-slice :
    (d : Disk) (off n k : ℕ) → (m : ℕ) × (m ≤ n) × (take k (slice d off n) ≡ slice d off m)
unfolding slice
take-slice d off n zero = (0, omega arith, refl)
take-slice d off zero (suc k) = (0, omega arith, refl)
take-slice d off (suc n) (suc k) =
    let (m, h, e) = take-slice d (off + 1) n k in (suc m, omega arith, ap (◌∷◌ (d off)) e)

pub replicate-zero-eq-slice :
    (d : Disk) (off n : ℕ)
    → ((b : ℕ) → off ≤ b → b < off + n → d b ≡ 0)
    → replicate n 0 ≡ slice d off n
unfolding slice
replicate-zero-eq-slice d off zero h = refl
replicate-zero-eq-slice d off (suc n) h =
    let rest = replicate-zero-eq-slice d (off + 1) n (λ b p q. h b (omega arith) (omega arith)) in
    let here : d off ≡ 0 = h off (omega arith) (omega arith) in cc (here, rest)

pub put_at-inside :
    (d e : Disk) (off n b : ℕ) → off ≤ b → b < off + n → put_at d off (slice e off n) b ≡ e b
unfolding put_at
put_at-inside d e off n b p q =
    let here : (leb off b && ltb b (off + length (slice e off n))) ≡ true =
      ground (arith, length-slice e off n) in
    let back : off + (b - off) ≡ b = omega arith in
    rw here (get_or-slice e off n (b - off) (omega arith) ∙ ap e back)

-- Writing bytes of `e` where they stand in `e` leaves each byte as it was or makes it that of `e`.
pub put_at-toward :
    (d e : Disk) (off n b : ℕ)
    → (put_at d off (slice e off n) b ≡ d b) ⊎ (put_at d off (slice e off n) b ≡ e b)
put_at-toward d e off n b = elim (Bool-cases (leb off b && ltb b (off + n))) [
  | inl within ↦ inr (put_at-inside d e off n b (ground arith) (ground arith))
  | inr outside ↦ inl (unfold put_at in rw (length-slice, outside))
]

pub All-slice :
    (P : ℕ → Type 0) (d : Disk) (off n b : ℕ)
    → All P (slice d off n)
    → off ≤ b
    → b < off + n
    → P (d b)
unfolding slice
All-slice P d off zero b h p q = absurd (omega arith)
All-slice P d off (suc n) b (h, hs) p q = elim (Ord-cases off b p) [
  | inl same ↦ subst (λ x. P (d x)) same h
  | inr later ↦ All-slice P d (off + 1) n b hs later (omega arith)
]
  where
    Ord-cases : (x y : ℕ) → x ≤ y → (x ≡ y) ⊎ (x + 1 ≤ y)
    Ord-cases x y h' = omega arith
