-- ===== src/Chunking/Identity.antt =====
-- AllZero against its definition, and what the identity of a chunk tells apart.
use native.Mathlib.Decide.{ℕ_discrete}
use botjim.Prelude.{
  ℕ, ◌^◌, ◌<◌, ◌≡◌, ◌≢◌, ◌↔◌, ◌⊎◌, inl, inr, ◌∙◌, refl, sym, ap, arith, true, [], ◌∷◌, ◌++◌, Bytes,
  length, All, some,
}
use botjim.Wire.Varint.{append_uvarint, uvarint, uvarint-append_uvarint}
use botjim.Chunking.{tail_zero, all_zero, chunk_preimage, chunk_sha}

abbrev pub IsZero : ℕ → Type 0
IsZero b = b ≡ 0

tail_zero_iff : (bs : Bytes) → (tail_zero bs ≡ true) ↔ All IsZero bs
unfolding tail_zero
tail_zero_iff [] = (λ _. tt, λ _. refl)
tail_zero_iff (b ∷ bs) = ground (arith, tail_zero_iff bs)

-- AllZero, which looks at eight bytes at a time, says whether every byte is zero.
pub all_zero_iff : (bs : Bytes) → (all_zero bs ≡ true) ↔ All IsZero bs
unfolding all_zero
all_zero_iff (a ∷ b ∷ c ∷ d ∷ e ∷ f ∷ g ∷ h ∷ rest) = ground (arith, all_zero_iff rest)
all_zero_iff bs = tail_zero_iff bs

-- Two inputs with one hash.
pub record Collision (hash : Bytes → Bytes) : Type 0 where
  pub left : Bytes
  pub right : Bytes
  pub apart : left ≢ right
  pub same : hash left ≡ hash right

pub bytes_discrete : Discrete Bytes
bytes_discrete = hlevel ℕ_discrete

pub eq_or_Collision :
    (hash : Bytes → Bytes) (p q : Bytes) → hash p ≡ hash q → (p ≡ q) ⊎ Collision hash
eq_or_Collision hash p q h = elim (bytes_discrete p q) [
  | yes e ↦ inl e
  | no d ↦ inr (record { left = p; right = q; apart = d; same = h })
]

-- A number in front tells what is behind it apart.
uvarint_prefix :
    (m n : ℕ) (p q : Bytes)
    → m < 2 ^ 64
    → n < 2 ^ 64
    → append_uvarint m ++ p ≡ append_uvarint n ++ q
    → (m ≡ n) × (p ≡ q)
uvarint_prefix m n p q hm hn e =
    let both : some (m, p) ≡ some (n, q) =
      sym (uvarint-append_uvarint m p hm) ∙ ap uvarint e ∙ uvarint-append_uvarint n q hn in
    (cc both, cc both)

same_length_prefix : (p q x y : Bytes) → length p ≡ length q → p ++ x ≡ q ++ y → (p ≡ q) × (x ≡ y)
same_length_prefix [] [] x y l e = (refl, e)
same_length_prefix [] (b ∷ q) x y l e = absurd (omega arith)
same_length_prefix (a ∷ p) [] x y l e = absurd (omega arith)
same_length_prefix (a ∷ p) (b ∷ q) x y l e =
    let both = same_length_prefix p q x y (omega arith) (cc e) in
    let heads : a ≡ b = cc e in (cc (heads, both.0), both.1)

preimage-injective :
    (p q : Bytes) (i j : ℕ) (x y : Bytes)
    → length p < 2 ^ 64
    → length q < 2 ^ 64
    → i < 2 ^ 64
    → j < 2 ^ 64
    → chunk_preimage p i x ≡ chunk_preimage q j y
    → (p ≡ q) × (i ≡ j) × (x ≡ y)
unfolding chunk_preimage
preimage-injective p q i j x y hp hq hi hj e =
    let (len, rest) = uvarint_prefix (length p) (length q) _ _ hp hq (cc e) in
    let (path, behind) = same_length_prefix p q _ _ len rest in
    let (idx, payload) = uvarint_prefix i j x y hi hj behind in (path, idx, payload)

-- Two chunks with one ChunkSHA, whose indices and path lengths are uint64, have the same path, index and bytes, or SHA-256 has a collision,
-- which the proof exhibits.
pub chunk_sha-injective :
    (sha256 : Bytes → Bytes) (p q : Bytes) (i j : ℕ) (x y : Bytes)
    → length p < 2 ^ 64
    → length q < 2 ^ 64
    → i < 2 ^ 64
    → j < 2 ^ 64
    → chunk_sha sha256 p i x ≡ chunk_sha sha256 q j y
    → ((p ≡ q) × (i ≡ j) × (x ≡ y)) ⊎ Collision sha256
unfolding chunk_sha
chunk_sha-injective sha256 p q i j x y hp hq hi hj e =
    elim (eq_or_Collision sha256 (chunk_preimage p i x) (chunk_preimage q j y) e) [
      | inl same ↦ inl (preimage-injective p q i j x y hp hq hi hj same)
      | inr found ↦ inr found
    ]
