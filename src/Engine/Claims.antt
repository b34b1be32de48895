-- ===== src/Engine/Claims.antt =====
-- The claims of the receiver through the sender's judgement: what verifyClaims answers is right.
use mathlib.Core.Path.{subst}
use botjim.Prelude.{
  ℕ, zero, suc, ◌+◌, ◌-◌, ◌/◌, ◌<◌, ◌≤◌, ◌≡◌, ◌⊎◌, inl, inr, ◌∙◌, refl, sym, ap, arith, Bool, true,
  false, not, ◌&&◌, ◌||◌, List, [], ◌∷◌, Bytes, length, length-set, ◌==◌, if◌then◌else◌, IsBytes,
  Bool-cases,
}
use botjim.Prelude.Int.{pos}
use botjim.Protocol.Handshake.{bytes_eq}
use botjim.Protocol.HandshakeLaws.{bytes_eq→eq}
use botjim.Sidecar.{Sidecar, bit_at, have, bitmap_size}
use botjim.Sidecar.Invariant.{IsValid}
use botjim.Sidecar.Bitmap.{bit_at-clear, set-IsBytes-clear}
use botjim.Engine.Opening.{claim_of, claims_from}
use botjim.Engine.Table.{mark_at}
use botjim.Engine.TxFile.{
  Judged, clear_at, judge_hash, judge_next, judge_first, sweep_next, sweep_first, distrust_first,
}

clear_at-lem :
    (bits : Bytes) (n i : ℕ)
    → IsBytes bits
    → length bits ≡ bitmap_size n
    → i < n
    → IsBytes (clear_at bits i)
      × (length (clear_at bits i) ≡ bitmap_size n)
      × ((j : ℕ) → bit_at (clear_at bits i) j ≡ (not (i == j) && bit_at bits j))
unfolding clear_at
clear_at-lem bits n i all room h =
    let inside : i / 8 < length bits = omega arith in
    (
      set-IsBytes-clear bits i all inside,
      length-set bits (i / 8) _ ∙ room,
      λ j. bit_at-clear bits i all inside j,
    )

Ord-cases : (a b : ℕ) → b < suc a → (b < a) ⊎ (a ≡ b)
Ord-cases a b h = omega arith

module _ (s : Sidecar) (books : IsValid s) (own : ℕ → Bytes) where
  -- The claim about chunk `i` is the sender's own hash.
  abbrev Right : ℕ → Type 0
  Right i = claim_of (mark_at s i) ≡ own i

  bit_of : (j : ℕ) → j < s.chunk_count → bit_at s.have j ≡ have s (pos j)
  unfolding have
  bit_of j h = ground arith

  -- After the first `k` chunks: the bits behind are untouched, those before are right, and if none was cleared every
  -- claim was.
  pub record IsBits (k : ℕ) (bits : Bytes) (cleared : ℕ) : Type 0 where
    pub all_bytes : IsBytes bits
    pub room : length bits ≡ bitmap_size s.chunk_count
    pub later : (j : ℕ) → k ≤ j → j < s.chunk_count → bit_at bits j ≡ have s (pos j)
    pub right : (j : ℕ) → j < k → bit_at bits j ≡ true → Right j
    pub clean : cleared ≡ 0 → (j : ℕ) → j < k → have s (pos j) ≡ true → Right j

  abbrev left_at : ℕ → List Bytes
  left_at k = claims_from s k (s.chunk_count - k)

  abbrev pub IsJudged : ℕ → Judged → Type 0
  IsJudged k v = (v.hashes ≡ left_at k) × IsBits k v.have v.cleared

  claims_step :
      (k : ℕ)
      → k < s.chunk_count
      → left_at k
        ≡ (if have s (pos k) then claim_of (mark_at s k) ∷ left_at (k + 1) else left_at (k + 1))
  unfolding claims_from
  claims_step k h =
      let more : s.chunk_count - k ≡ suc (s.chunk_count - (k + 1)) = omega arith in rw more refl

  next_left : (k : ℕ) → left_at (k + 1) ≡ left_at (suc k)
  next_left k = ap (λ m. claims_from s m (s.chunk_count - m)) (omega arith)

  -- Chunk `k` is not claimed.
  unclaimed-IsBits :
      (k : ℕ) (bits : Bytes) (cleared : ℕ)
      → k < s.chunk_count
      → have s (pos k) ≡ false
      → IsBits k bits cleared
      → IsBits (suc k) bits cleared
  unclaimed-IsBits k bits cleared h gone w = record {
    all_bytes = w.all_bytes;
    room = w.room;
    later = λ j p q. w.later j (omega arith) q;
    right = λ j p e. elim (Ord-cases k j p) [
      | inl low ↦ w.right j low e
      | inr same ↦ let bit = w.later k (omega arith) h in absurd (cc (bit, same, gone, e))
    ];
    clean = λ none_cleared j p e. elim (Ord-cases k j p) [
      | inl low ↦ w.clean none_cleared j low e
      | inr same ↦ absurd (cc (same, gone, e))
    ];
  }

  -- Chunk `k` is claimed and the claim is the sender's own hash.
  confirmed-IsBits :
      (k : ℕ) (bits : Bytes) (cleared : ℕ)
      → k < s.chunk_count
      → Right k
      → IsBits k bits cleared
      → IsBits (suc k) bits cleared
  confirmed-IsBits k bits cleared h right w = record {
    all_bytes = w.all_bytes;
    room = w.room;
    later = λ j p q. w.later j (omega arith) q;
    right = λ j p e. elim (Ord-cases k j p) [
      | inl low ↦ w.right j low e
      | inr same ↦ subst Right same right
    ];
    clean = λ none_cleared j p e. elim (Ord-cases k j p) [
      | inl low ↦ w.clean none_cleared j low e
      | inr same ↦ subst Right same right
    ];
  }

  -- Chunk `k` is claimed and its bit is cleared.
  cleared-IsBits :
      (k : ℕ) (bits : Bytes) (cleared : ℕ)
      → k < s.chunk_count
      → IsBits k bits cleared
      → IsBits (suc k) (clear_at bits k) (cleared + 1)
  cleared-IsBits k bits cleared h w =
      let (all, room, after) = clear_at-lem bits s.chunk_count k w.all_bytes w.room h in
      record {
        all_bytes = all;
        room = room;
        later = λ j p q. after j ∙ ground (arith, w.later j (omega arith) q);
        right = λ j p e. elim (Ord-cases k j p) [
          | inl low ↦ w.right j low (ground (arith, after j))
          | inr same ↦ let gone = after j in absurd (ground (arith, gone))
        ];
        clean = λ none_cleared. absurd (omega (arith, none_cleared));
      }

  judge_hash-IsJudged :
      (readable : Bool) (k : ℕ) (h : Bytes) (hs : List Bytes) (v : Judged)
      → k < s.chunk_count
      → h ≡ claim_of (mark_at s k)
      → hs ≡ left_at (k + 1)
      → IsBits k v.have v.cleared
      → IsJudged (suc k) (judge_hash readable (own k) k h hs v)
  unfolding judge_hash
  judge_hash-IsJudged readable k h hs v inside head left w =
      elim (Bool-cases (not readable || not (bytes_eq (own k) h))) [
        | inl wrong ↦ rw wrong (left ∙ next_left k, cleared-IsBits k v.have v.cleared inside w)
        | inr fine ↦
            let same : own k ≡ h = bytes_eq→eq (own k) h (ground arith) in
            rw fine
              (left ∙ next_left k, confirmed-IsBits k v.have v.cleared inside (sym (same ∙ head)) w)
      ]

  judge_next-IsJudged :
      (readable : Bool) (k : ℕ) (hs : List Bytes) (v : Judged)
      → k < s.chunk_count
      → v.hashes ≡ hs
      → IsJudged k v
      → IsJudged (suc k) (judge_next readable (own k) k hs v)
  unfolding judge_next
  judge_next-IsJudged readable k [] v h same (left, w) = elim (Bool-cases (have s (pos k))) [
    | inl there ↦ let next = claims_step k h in absurd (ground (arith, next, there, left))
    | inr gone ↦
        let next = claims_step k h in
        (
          left ∙ ground (arith, next, gone) ∙ next_left k,
          unclaimed-IsBits k v.have v.cleared h gone w,
        )
  ]
  judge_next-IsJudged readable k (x ∷ hs) v h same (left, w) = elim (Bool-cases (have s (pos k))) [
    | inl there ↦
        let next = claims_step k h in
        let bit : bit_at v.have k ≡ true = w.later k (omega arith) h ∙ there in
        let both : x ∷ hs ≡ claim_of (mark_at s k) ∷ left_at (k + 1) =
          sym same ∙ left ∙ ground (arith, next, there) in
        rw bit (judge_hash-IsJudged readable k x hs v h (cc both) (cc both) w)
    | inr gone ↦
        let next = claims_step k h in
        let bit : bit_at v.have k ≡ false = w.later k (omega arith) h ∙ gone in
        rw bit (
          left ∙ ground (arith, next, gone) ∙ next_left k,
          unclaimed-IsBits k v.have v.cleared h gone w,
        )
  ]

  pub judge_first-IsJudged :
      (readable : ℕ → Bool) (k : ℕ) (v : Judged)
      → k ≤ s.chunk_count
      → IsJudged 0 v
      → IsJudged k (judge_first readable own k v)
  unfolding judge_first
  judge_first-IsJudged readable zero v h w = w
  judge_first-IsJudged readable (suc k) v h w =
      let rest = judge_first-IsJudged readable k v (omega arith) w in
      judge_next-IsJudged (readable k) k _ (judge_first readable own k v) (omega arith) refl rest

  -- The receiver's own bitmap, before the first.
  pub asked-IsBits : IsBits 0 s.have 0
  asked-IsBits = record {
    all_bytes = books.all_bytes;
    room = books.room;
    later = λ j p q. bit_of j q;
    right = λ j p e. absurd (omega (arith, p));
    clean = λ e j p. absurd (omega (arith, p));
  }

  pub distrust_first-IsBits :
      (k : ℕ) (v : Judged)
      → k ≤ s.chunk_count
      → IsBits 0 v.have v.cleared
      → IsBits k (distrust_first k v).have (distrust_first k v).cleared
  unfolding distrust_first
  distrust_first-IsBits zero v h w = w
  distrust_first-IsBits (suc k) v h w =
      let before = distrust_first k v in
      let rest = distrust_first-IsBits k v (omega arith) w in
      elim (Bool-cases (bit_at before.have k)) [
        | inl there ↦ rw there (cleared-IsBits k before.have before.cleared h rest)
        | inr gone ↦
            let unmarked : have s (pos k) ≡ false = sym (rest.later k (omega arith) h) ∙ gone in
            rw gone (unclaimed-IsBits k before.have before.cleared h unmarked rest)
      ]

pub sweep_first-none : (n : ℕ) (v : Judged) → v.hashes ≡ [] → sweep_first n v ≡ v
unfolding sweep_first sweep_next
sweep_first-none zero v e = refl
sweep_first-none (suc n) v e = rw (sweep_first-none n v e, e) refl

pub claims_from-zero : (s : Sidecar) (i : ℕ) → claims_from s i 0 ≡ []
unfolding claims_from
claims_from-zero s i = refl
