-- ===== src/Sidecar/Invariant.antt =====
-- Every operation keeps the sidecar's bookkeeping: the sizes of its tables and the cached count.
use botjim.Prelude.{
  ℕ, zero, suc, ◌+◌, ◌-◌, ◌/◌, ◌%◌, ◌<◌, ◌≤◌, ◌≡◌, ◌↔◌, ◌⊎◌, inl, inr, ◌∙◌, refl, sym, arith, Bool,
  true, false, not, ◌&&◌, ◌||◌, Bytes, length, length-append, length-take, length-replicate, get_or,
  set, take, replicate, ◌==◌, leb, if◌then◌else◌, IsByte, IsBytes, All-take, All-append, Bool-cases,
  length-set, ==_iff,
}
use botjim.Prelude.Int.{ℤ, pos, negsuc}
use botjim.Wire.Bits.{set_bit, clear_bit, test_bit-zero}
use botjim.Manifest.{Entry}
use botjim.Sidecar.{
  Sidecar, missing, mark_of, entry_chunks, bitmap_size, new, bit_at, have, set_have, clear_have,
  popcount, recount_have, complete, adopt_bitmap, fitted, resize_have,
}
use botjim.Sidecar.Bitmap.{
  bit_at-set, bit_at-clear, set-IsBytes-set, set-IsBytes-clear, popcount-one_more, popcount-same,
  popcount_full,
}

-- What the operations rely on: no index of the code is out of range, and HaveCount is right.
pub record IsValid (s : Sidecar) : Type 0 where
  pub marks : length s.hashes ≡ s.chunk_count
  pub room : length s.have ≡ bitmap_size s.chunk_count
  pub all_bytes : IsBytes s.have
  pub counted : s.have_count ≡ popcount s.chunk_count s.have

get_or-zeros : (i m : ℕ) → ◌≡◌ {A = ℕ} (get_or (replicate m 0) i 0) 0
get_or-zeros i zero = refl
get_or-zeros zero (suc m) = refl
get_or-zeros (suc i) (suc m) = get_or-zeros i m

bit_at-zeros : (i m : ℕ) → bit_at (replicate m 0) i ≡ false
unfolding bit_at
bit_at-zeros i m = rw (get_or-zeros (i / 8) m) (test_bit-zero (i % 8) (omega arith))

popcount-zeros : (n k : ℕ) → popcount n (replicate k 0) ≡ 0
unfolding popcount
popcount-zeros zero k = refl
popcount-zeros (suc n) k = rw (bit_at-zeros n k, popcount-zeros n k)

IsBytes-zeros : (k : ℕ) → IsBytes (replicate k 0)
IsBytes-zeros zero = tt
IsBytes-zeros (suc k) = (omega arith, IsBytes-zeros k)

-- The sidecar that New makes for an entry has its bookkeeping right.
pub new-IsValid : (e : Entry) (nonce : Bytes) → IsValid (new e nonce)
unfolding new
new-IsValid e nonce = record {
  marks = length-replicate (entry_chunks e) missing;
  room = length-replicate (bitmap_size (entry_chunks e)) 0;
  all_bytes = IsBytes-zeros (bitmap_size (entry_chunks e));
  counted = sym (popcount-zeros (entry_chunks e) _);
}

pub have-new : (e : Entry) (nonce : Bytes) (i : ℤ) → have (new e nonce) i ≡ false
unfolding have new
have-new e nonce (negsuc i) = refl
have-new e nonce (pos i) = elim (Bool-cases (leb (entry_chunks e) i)) [
  | inl out ↦ rw out refl
  | inr inside ↦ rw inside (bit_at-zeros i (bitmap_size (entry_chunks e)))
]

-- A chunk marked present is counted.
popcount-positive :
    (n : ℕ) (bits : Bytes) (i : ℕ) → i < n → bit_at bits i ≡ true → 0 < popcount n bits
unfolding popcount
popcount-positive zero bits i h e = absurd (omega arith)
popcount-positive (suc n) bits i h e = elim (Ord-cases n i h) [
  | inl low ↦ let rest = popcount-positive n bits i low e in ground arith
  | inr same ↦ let here : bit_at bits n ≡ true = rw same e in rw here (omega arith)
]
  where
    Ord-cases : (a b : ℕ) → b < suc a → (b < a) ⊎ (a ≡ b)
    Ord-cases a b k = omega arith

pub have_count-positive :
    (s : Sidecar) (i : ℕ) → IsValid s → i < s.chunk_count → have s (pos i) ≡ true → 0 < s.have_count
have_count-positive s i v h e =
    let there : bit_at s.have i ≡ true = unfold have in ground arith in
    rw v.counted (popcount-positive s.chunk_count s.have i h there)

byte_inside : (n k i : ℕ) → k ≡ bitmap_size n → i < n → i / 8 < k
byte_inside n k i h hi = omega arith

module _ (s : Sidecar) (v : IsValid s) (i : ℕ) (h : i < s.chunk_count) where
  inside : i / 8 < length s.have
  inside = byte_inside s.chunk_count (length s.have) i v.room h

  allowed : (leb s.chunk_count i || leb (length s.hashes) i) ≡ false
  allowed = ground (arith, v.marks)

  abbrev with_set : Bytes
  with_set = set s.have (i / 8) (set_bit (get_or s.have (i / 8) 0) (i % 8))

  abbrev with_clear : Bytes
  with_clear = set s.have (i / 8) (clear_bit (get_or s.have (i / 8) 0) (i % 8))

  set_count :
      (if bit_at s.have i then s.have_count else s.have_count + 1) ≡ popcount s.chunk_count with_set
  set_count = elim (Bool-cases (bit_at s.have i)) [
    | inl was ↦
        rw (was, v.counted)
          (popcount-same s.chunk_count s.have with_set
            (λ j hj. sym (bit_at-set s.have i v.all_bytes inside j ∙ ground arith)))
    | inr fresh ↦
        rw (fresh, v.counted)
          (sym (
            popcount-one_more s.chunk_count i s.have with_set h fresh
              (bit_at-set s.have i v.all_bytes inside i ∙ ground arith)
              (λ j d. bit_at-set s.have i v.all_bytes inside j ∙ ground arith)))
  ]

  clear_count :
      (if bit_at s.have i then s.have_count - 1 else s.have_count)
      ≡ popcount s.chunk_count with_clear
  clear_count = elim (Bool-cases (bit_at s.have i)) [
    | inl was ↦
        let fewer =
          popcount-one_more s.chunk_count i with_clear s.have h
            (bit_at-clear s.have i v.all_bytes inside i ∙ ground arith) was
            (λ j d. sym (bit_at-clear s.have i v.all_bytes inside j ∙ ground arith)) in
        rw (was, v.counted) (omega (arith, fewer))
    | inr fresh ↦
        rw (fresh, v.counted)
          (popcount-same s.chunk_count s.have with_clear
            (λ j hj. sym (bit_at-clear s.have i v.all_bytes inside j ∙ ground arith)))
  ]

  pub set_have-IsValid_in : (sum : Bytes) (z : Bool) → IsValid (set_have s (pos i) sum z)
  set_have-IsValid_in sum z =
      unfold set_have in
      rw allowed (record {
        marks = length-set s.hashes i (mark_of sum z) ∙ v.marks;
        room = length-set s.have (i / 8) _ ∙ v.room;
        all_bytes = set-IsBytes-set s.have i v.all_bytes inside;
        counted = set_count;
      })

  pub clear_have-IsValid_in : IsValid (clear_have s (pos i))
  clear_have-IsValid_in =
      unfold clear_have in
      rw allowed (record {
        marks = length-set s.hashes i missing ∙ v.marks;
        room = length-set s.have (i / 8) _ ∙ v.room;
        all_bytes = set-IsBytes-clear s.have i v.all_bytes inside;
        counted = clear_count;
      })

  -- Chunk `j` after chunk `i` was marked.
  pub have-set_have_in :
      (j : ℕ) (sum : Bytes) (z : Bool)
      → have (set_have s (pos i) sum z) (pos j) ≡ (i == j || have s (pos j))
  have-set_have_in j sum z =
      unfold set_have have in
      rw allowed (rw (bit_at-set s.have i v.all_bytes inside j) (ground arith))

  pub have-clear_have_in :
      (j : ℕ) → have (clear_have s (pos i)) (pos j) ≡ (not (i == j) && have s (pos j))
  have-clear_have_in j =
      unfold clear_have have in
      rw allowed (rw (bit_at-clear s.have i v.all_bytes inside j) (ground arith))

beyond :
    (s : Sidecar) (i : ℕ)
    → s.chunk_count ≤ i
    → (leb s.chunk_count i || leb (length s.hashes) i) ≡ true
beyond s i h = ground arith

pub in_or_out : (s : Sidecar) (i : ℕ) → (i < s.chunk_count) ⊎ (s.chunk_count ≤ i)
in_or_out s i = omega arith

-- Marking a chunk or unmarking it keeps the bookkeeping right, whatever the index.
pub set_have-IsValid :
    (s : Sidecar) (i : ℤ) (sum : Bytes) (z : Bool)
    → IsValid s
    → IsValid (set_have s i sum z) × IsValid (clear_have s i)
set_have-IsValid s (negsuc i) sum z v = unfold set_have clear_have in (v, v)
set_have-IsValid s (pos i) sum z v = elim (in_or_out s i) [
  | inl h ↦ (set_have-IsValid_in s v i h sum z, clear_have-IsValid_in s v i h)
  | inr out ↦ unfold set_have clear_have in rw (beyond s i out) (v, v)
]

-- Where the bookkeeping is right: after SetHave of a chunk in range Have says yes of that chunk and is unchanged elsewhere; after
-- ClearHave it says no of that chunk and is unchanged elsewhere.
pub have-set_have :
    (s : Sidecar) (i j : ℕ) (sum : Bytes) (z : Bool)
    → IsValid s
    → i < s.chunk_count
    → (have (set_have s (pos i) sum z) (pos j) ≡ (i == j || have s (pos j)))
      × (have (clear_have s (pos i)) (pos j) ≡ (not (i == j) && have s (pos j)))
have-set_have s i j sum z v h = (have-set_have_in s v i h j sum z, have-clear_have_in s v i h j)

-- Where the bookkeeping is right, Complete says whether every chunk of the grid is marked present.
pub complete_iff :
    (s : Sidecar)
    → IsValid s
    → (complete s ≡ true) ↔ ((j : ℕ) → j < s.chunk_count → have s (pos j) ≡ true)
unfolding complete
complete_iff s v = (
  λ e j h. unfold have in rw (in_range j h) ((popcount_full s.chunk_count s.have).0 (counts e) j h),
  λ h. full ((popcount_full s.chunk_count s.have).1 (λ j hj. bit_of j hj (h j hj))),
)
  where
    in_range : (j : ℕ) → j < s.chunk_count → leb s.chunk_count j ≡ false
    in_range j h = ground arith

    counts : (s.have_count == s.chunk_count) ≡ true → popcount s.chunk_count s.have ≡ s.chunk_count
    counts e = ground (arith, v.counted)

    full : popcount s.chunk_count s.have ≡ s.chunk_count → (s.have_count == s.chunk_count) ≡ true
    full e = ground (arith, v.counted)

    bit_of : (j : ℕ) → j < s.chunk_count → have s (pos j) ≡ true → bit_at s.have j ≡ true
    bit_of j hj e = unfold have in rw (in_range j hj) at e

length-fitted : (need : ℕ) (b : Bytes) → length (fitted need b) ≡ need
length-fitted need b = omega (
  arith,
  length-append (take need b) (replicate (need - length b) 0),
  length-take need b,
  length-replicate {A = ℕ} (need - length b) 0,
)

fitted-IsBytes : (need : ℕ) (b : Bytes) → IsBytes b → IsBytes (fitted need b)
fitted-IsBytes need b h =
    All-append IsByte (take need b) (replicate (need - length b) 0) (All-take IsByte need b h)
      (IsBytes-zeros (need - length b))

-- Whatever bitmap of bytes and whatever count Load found: if there is a hash entry for each chunk,
-- resizing the bitmap makes the bookkeeping right.
pub resize_have-IsValid :
    (s : Sidecar) → length s.hashes ≡ s.chunk_count → IsBytes s.have → IsValid (resize_have s)
unfolding resize_have recount_have
resize_have-IsValid s marks all = elim (Bool-cases (length s.have == bitmap_size s.chunk_count)) [
  | inl right ↦
      rw right
        (record { marks = marks; room = (==_iff _ _).0 right; all_bytes = all; counted = refl })
  | inr wrong ↦ rw wrong (record {
    marks = marks;
    room = length-fitted (bitmap_size s.chunk_count) s.have;
    all_bytes = fitted-IsBytes (bitmap_size s.chunk_count) s.have all;
    counted = refl;
  })
]

-- Adopting a bitmap of bytes, of the right size, keeps the bookkeeping right.
pub adopt_bitmap-IsValid :
    (s : Sidecar) (b : Bytes)
    → IsValid s
    → IsBytes b
    → length b ≡ bitmap_size s.chunk_count
    → IsValid (adopt_bitmap s b)
unfolding adopt_bitmap recount_have
adopt_bitmap-IsValid s b v all room = record {
  marks = v.marks;
  room = room;
  all_bytes = all;
  counted = refl;
}
