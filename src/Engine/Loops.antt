-- ===== src/Engine/Loops.antt =====
-- A loop over the chunks whose body changes only its own chunk in the sidecar.
use mathlib.Core.Path.{subst}
use botjim.Prelude.{ℕ, zero, suc, ◌<◌, ◌≤◌, ◌≡◌, ◌≢◌, ◌⊎◌, inl, inr, ◌∙◌, refl, arith, Bool, Bytes}
use botjim.Prelude.Int.{pos}
use botjim.Sidecar.{Sidecar, have, set_have, clear_have}
use botjim.Sidecar.Invariant.{IsValid, set_have-IsValid, have-set_have}
use botjim.Engine.Table.{mark_at, mark_at-set_have, chunk_count-set_have}
use botjim.Engine.Opening.{for_chunks}

-- From `s` to `t` at most chunk `i` changes.
pub record OnlyAt (i : ℕ) (s t : Sidecar) : Type 0 where
  pub books : IsValid t
  pub same_count : t.chunk_count ≡ s.chunk_count
  pub present : (j : ℕ) → j < s.chunk_count → i ≢ j → have t (pos j) ≡ have s (pos j)
  pub marks : (j : ℕ) → i ≢ j → mark_at t j ≡ mark_at s j

pub same-OnlyAt : (i : ℕ) (s : Sidecar) → IsValid s → OnlyAt i s s
same-OnlyAt i s v = record {
  books = v;
  same_count = refl;
  present = λ j h d. refl;
  marks = λ j d. refl;
}

pub set_have-OnlyAt :
    (i : ℕ) (s : Sidecar) (h : Bytes) (z : Bool)
    → IsValid s
    → i < s.chunk_count
    → OnlyAt i s (set_have s (pos i) h z) × OnlyAt i s (clear_have s (pos i))
set_have-OnlyAt i s h z v k = (
  record {
    books = (set_have-IsValid s (pos i) h z v).0;
    same_count = (chunk_count-set_have s i h z).0;
    present = λ j hj d. (have-set_have s i j h z v k).0 ∙ ground arith;
    marks = λ j d. (mark_at-set_have s i j h z d).0;
  },
  record {
    books = (set_have-IsValid s (pos i) h z v).1;
    same_count = (chunk_count-set_have s i h z).1;
    present = λ j hj d. (have-set_have s i j h z v k).1 ∙ ground arith;
    marks = λ j d. (mark_at-set_have s i j h z d).1;
  },
)

-- Chunk `j` after the loop is what the body makes of it in some `r` that has it as `s` did.
abbrev pub IsDone : (ℕ → Sidecar → Sidecar) → Sidecar → Sidecar → ℕ → Type 0
IsDone body s t j =
    (r : Sidecar) × IsValid r
    × (r.chunk_count ≡ s.chunk_count)
    × (have r (pos j) ≡ have s (pos j))
    × (mark_at r j ≡ mark_at s j)
    × (have t (pos j) ≡ have (body j r) (pos j))
    × (mark_at t j ≡ mark_at (body j r) j)

-- What the loop over the first `n` chunks leaves of chunk `j`: the work of the body on what `s` has there, or nothing new.
pub record IsLoop (body : ℕ → Sidecar → Sidecar) (n : ℕ) (s t : Sidecar) : Type 0 where
  pub books : IsValid t
  pub same_count : t.chunk_count ≡ s.chunk_count
  pub later :
      (j : ℕ)
      → n ≤ j
      → j < s.chunk_count
      → (have t (pos j) ≡ have s (pos j)) × (mark_at t j ≡ mark_at s j)
  pub done : (j : ℕ) → j < n → IsDone body s t j

module _ (body : ℕ → Sidecar → Sidecar) (s : Sidecar)
    (local : (i : ℕ) (r : Sidecar)
      → IsValid r
      → r.chunk_count ≡ s.chunk_count
      → i < r.chunk_count
      → OnlyAt i r (body i r)) where
  next-IsLoop :
      (n : ℕ) (r : Sidecar)
      → suc n ≤ s.chunk_count
      → IsLoop body n s r
      → IsLoop body (suc n) s (body n r)
  next-IsLoop n r h v =
      let w = local n r v.books v.same_count (omega (arith, v.same_count)) in
      record {
        books = w.books;
        same_count = w.same_count ∙ v.same_count;
        later = λ j hj k.
            let apart : n ≢ j = omega arith in
            let was = v.later j (omega arith) k in
            (w.present j (omega (arith, v.same_count)) apart ∙ was.0, w.marks j apart ∙ was.1);
        done = λ j hj. elim (Ord-cases n j hj) [
          | inl apart ↦
              let (q, vq, cq, hq, mq, ht, mt) = v.done j (omega arith) in
              (
                q,
                vq,
                cq,
                hq,
                mq,
                w.present j (omega (arith, v.same_count)) apart ∙ ht,
                w.marks j apart ∙ mt,
              )
          | inr here ↦
              let was = v.later n (omega arith) (omega arith) in
              subst (IsDone body s (body n r)) here
                (r, v.books, v.same_count, was.0, was.1, refl, refl)
        ];
      }
    where
      Ord-cases : (a b : ℕ) → b < suc a → (a ≢ b) ⊎ (a ≡ b)
      Ord-cases a b hb = omega arith

  pub for_chunks-IsLoop :
      (n : ℕ) → IsValid s → n ≤ s.chunk_count → IsLoop body n s (for_chunks body n s)
  unfolding for_chunks
  for_chunks-IsLoop zero v h = record {
    books = v;
    same_count = refl;
    later = λ j p k. (refl, refl);
    done = λ j p. absurd (omega arith);
  }
  for_chunks-IsLoop (suc n) v h = next-IsLoop n _ h (for_chunks-IsLoop n v (omega arith))
