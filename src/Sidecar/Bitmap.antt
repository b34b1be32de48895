-- ===== src/Sidecar/Bitmap.antt =====
-- The bits of a have-bitmap, one by one, and how many are set.
use botjim.Prelude.{
  ℕ, zero, suc, ◌+◌, ◌/◌, ◌%◌, ◌<◌, ◌≤◌, ◌≡◌, ◌≢◌, ◌↔◌, ◌⊎◌, inl, inr, ◌∙◌, refl, arith, true,
  false, not, ◌&&◌, ◌||◌, [], ◌∷◌, Bytes, length, get_or, get_or-set_self, get_or-set_ne, set, ◌==◌,
  if◌then◌else◌, IsBytes,
}
use botjim.Wire.Bits.{
  test_bit, set_bit, clear_bit, test_bit-set_bit, test_bit-clear_bit, set_bit-lt, clear_bit-lt,
}
use botjim.Sidecar.{bit_at, popcount}

get_or-IsByte : (xs : Bytes) (i : ℕ) → IsBytes xs → get_or xs i 0 < 256
get_or-IsByte [] i h = omega arith
get_or-IsByte (x ∷ xs) zero (h, hs) = h
get_or-IsByte (x ∷ xs) (suc i) (h, hs) = get_or-IsByte xs i hs

pub set-IsBytes : (xs : Bytes) (i v : ℕ) → IsBytes xs → v < 256 → IsBytes (set xs i v)
set-IsBytes [] i v h hv = tt
set-IsBytes (x ∷ xs) zero v (h, hs) hv = (hv, hs)
set-IsBytes (x ∷ xs) (suc i) v (h, hs) hv = (h, set-IsBytes xs i v hs hv)

same_byte : (i j : ℕ) → (i / 8 ≡ j / 8) ⊎ (i / 8 ≢ j / 8)
same_byte i j = omega arith

within_byte : (i j : ℕ) → i / 8 ≡ j / 8 → (i == j) ≡ (i % 8 == j % 8)
within_byte i j h = ground arith

other_byte : (i j : ℕ) → i / 8 ≢ j / 8 → (i == j) ≡ false
other_byte i j h = ground arith

module _ (bits : Bytes) (i : ℕ) (all : IsBytes bits) (inside : i / 8 < length bits) where
  abbrev pub old : ℕ
  old = get_or bits (i / 8) 0

  old-lt : old < 256
  old-lt = get_or-IsByte bits (i / 8) all

  -- Whatever is written in the byte of chunk `i`, the bits of the other bytes stay.
  pub bit_at-write :
      (v j : ℕ)
      → bit_at (set bits (i / 8) v) j
        ≡ (if i / 8 == j / 8 then test_bit v (j % 8) else bit_at bits j)
  unfolding bit_at
  bit_at-write v j = elim (same_byte i j) [
    | inl e ↦
        let same : (i / 8 == j / 8) ≡ true = ground arith in
        rw same (rw (← e, get_or-set_self bits (i / 8) v 0 inside))
    | inr d ↦
        let apart : (i / 8 == j / 8) ≡ false = ground arith in
        rw apart (rw (get_or-set_ne bits (i / 8) (j / 8) v 0 d))
  ]

  pub bit_at-set :
      (j : ℕ) → bit_at (set bits (i / 8) (set_bit old (i % 8))) j ≡ (i == j || bit_at bits j)
  bit_at-set j = elim (same_byte i j) [
    | inl e ↦
        let same : (i / 8 == j / 8) ≡ true = ground arith in
        rw (bit_at-write (set_bit old (i % 8)) j) (
          rw same (
            test_bit-set_bit old (i % 8) (j % 8) old-lt (omega arith) (omega arith)
            ∙ rw (within_byte i j e) (unfold bit_at in rw (← e))))
    | inr d ↦
        let apart : (i / 8 == j / 8) ≡ false = ground arith in
        rw (bit_at-write (set_bit old (i % 8)) j) (rw (apart, other_byte i j d))
  ]

  pub bit_at-clear :
      (j : ℕ)
      → bit_at (set bits (i / 8) (clear_bit old (i % 8))) j ≡ (not (i == j) && bit_at bits j)
  bit_at-clear j = elim (same_byte i j) [
    | inl e ↦
        let same : (i / 8 == j / 8) ≡ true = ground arith in
        rw (bit_at-write (clear_bit old (i % 8)) j) (
          rw same (
            test_bit-clear_bit old (i % 8) (j % 8) old-lt (omega arith) (omega arith)
            ∙ rw (within_byte i j e) (unfold bit_at in rw (← e))))
    | inr d ↦
        let apart : (i / 8 == j / 8) ≡ false = ground arith in
        rw (bit_at-write (clear_bit old (i % 8)) j) (rw (apart, other_byte i j d))
  ]

  pub set-IsBytes-set : IsBytes (set bits (i / 8) (set_bit old (i % 8)))
  set-IsBytes-set = set-IsBytes bits (i / 8) _ all (set_bit-lt old (i % 8) old-lt (omega arith))

  pub set-IsBytes-clear : IsBytes (set bits (i / 8) (clear_bit old (i % 8)))
  set-IsBytes-clear = set-IsBytes bits (i / 8) _ all (clear_bit-lt old (i % 8) old-lt (omega arith))

-- Counting bits that agree, or that differ at one place only.
pub popcount-same :
    (n : ℕ) (p q : Bytes)
    → ((j : ℕ) → j < n → bit_at p j ≡ bit_at q j)
    → popcount n p ≡ popcount n q
unfolding popcount
popcount-same zero p q h = refl
popcount-same (suc n) p q h =
    rw (h n (omega arith), popcount-same n p q (λ j hj. h j (omega arith)))

-- With bit `i` clear in `p`, and set in `q`.
pub popcount-one_more :
    (n i : ℕ) (p q : Bytes)
    → i < n
    → bit_at p i ≡ false
    → bit_at q i ≡ true
    → ((j : ℕ) → i ≢ j → bit_at q j ≡ bit_at p j)
    → popcount n q ≡ popcount n p + 1
unfolding popcount
popcount-one_more zero i p q h hp hq other = absurd (omega arith)
popcount-one_more (suc n) i p q h hp hq other = elim (last i n) [
  | inl e ↦
      let rest = popcount-same n q p (λ j hj. other j (λ x. absurd (omega arith))) in
      let here : bit_at p n ≡ false = rw (← e) hp in
      let there : bit_at q n ≡ true = rw (← e) hq in rw (here, there, rest)
  | inr d ↦
      let rest = popcount-one_more n i p q (omega arith) hp hq other in
      rw (other n (λ e. absurd (omega arith))) (ground (arith, rest))
]
  where
    last : (a b : ℕ) → (a ≡ b) ⊎ (a ≢ b)
    last a b = omega arith

pub popcount-le : (n : ℕ) (bits : Bytes) → popcount n bits ≤ n
unfolding popcount
popcount-le zero bits = omega arith
popcount-le (suc n) bits = ground (arith, popcount-le n bits)

abbrev AllSet : ℕ → Bytes → Type 0
AllSet n bits = (j : ℕ) → j < n → bit_at bits j ≡ true

full_step :
    (n : ℕ) (bits : Bytes)
    → ((popcount n bits ≡ n) ↔ AllSet n bits)
    → (popcount (suc n) bits ≡ suc n) ↔ AllSet (suc n) bits
unfolding popcount
full_step n bits ih = (
  λ e j h.
      let top = to_last e in
      elim (last j h) [ inl below ↦ ih.0 top.1 j below | inr here ↦ rw here top.0 ],
  λ h. rw (h n (omega arith), ih.1 (λ j hj. h j (omega arith))) (omega arith),
)
  where
    last : (j : ℕ) → j < suc n → (j < n) ⊎ (j ≡ n)
    last j h = omega arith

    to_last :
        (if bit_at bits n then popcount n bits + 1 else popcount n bits) ≡ suc n
        → (bit_at bits n ≡ true) × (popcount n bits ≡ n)
    to_last e = ground (arith, popcount-le n bits)

-- All bits are set exactly when the count says so.
pub popcount_full :
    (n : ℕ) (bits : Bytes) → (popcount n bits ≡ n) ↔ ((j : ℕ) → j < n → bit_at bits j ≡ true)
unfolding popcount
popcount_full zero bits = (λ _ j h. absurd (omega arith), λ _. refl)
popcount_full (suc n) bits = full_step n bits (popcount_full n bits)
