-- ===== src/Sender/Credits.antt =====
-- The credits of the walker are no more than the files whose bitmap is awaited.
use botjim.Prelude.{
  ℕ, ◌+◌, ◌-◌, ◌≤◌, ◌≡◌, ◌≢◌, arith, true, false, List, [], ◌∷◌, ◌==◌, Bool-cases, inl, inr, Option,
  none, some, sym, ap, ◌∙◌, refl,
}
use botjim.Prelude.Int.{ℤ, pos, ◌-ℤ◌, pos_part}
use botjim.Sender.{TxFile, find, store, waits}
use botjim.Sender.Handlers.{clamped, release_if}
use botjim.Sender.Lookup.{find-store, tick, pending, count_pending, pending_in, count_pending-store}

abbrev pub parked_tick : Option ℕ → ℕ
parked_tick none = 0
parked_tick (some i) = 1

-- A parked walker's file is itself awaited and has no credit yet.
pub record IsCredited (parked : Option ℕ) (fs : List TxFile) (gates : ℤ) : Type 0 where
  pub room : pos_part gates + parked_tick parked ≤ count_pending fs
  pub kept : (i : ℕ) → parked ≡ some i → pending_in (find i fs) ≡ true

count_pending-pos :
    (i : ℕ) (fs : List TxFile) → pending_in (find i fs) ≡ true → 1 ≤ count_pending fs
unfolding find count_pending pending_in
count_pending-pos i [] h = absurd cc
count_pending-pos i (f ∷ fs) h = elim (Bool-cases (i == f.entry.id)) [
  | inl e ↦ let here : pending f ≡ true = rw e at h in ground arith
  | inr d ↦
      let later : pending_in (find i fs) ≡ true = rw d at h in
      omega (arith, count_pending-pos i fs later)
]

-- The parked file is there, whichever it is.
parked_tick-le :
    (parked : Option ℕ) (fs : List TxFile)
    → ((i : ℕ) → parked ≡ some i → pending_in (find i fs) ≡ true)
    → parked_tick parked ≤ count_pending fs
parked_tick-le none fs kept = omega arith
parked_tick-le (some i) fs kept = count_pending-pos i fs (kept i refl)

-- A change of a file that leaves it as awaited as it was.
pub IsCredited-store :
    (parked : Option ℕ) (fs : List TxFile) (gates : ℤ) (f g : TxFile)
    → find g.entry.id fs ≡ some f
    → pending g ≡ pending f
    → IsCredited parked fs gates
    → IsCredited parked (store g fs) gates
unfolding pending_in
IsCredited-store parked fs gates f g there same c = record {
  room =
      let n : pending_in (find g.entry.id fs) ≡ pending g = ap pending_in there ∙ sym same in
      let moved = count_pending-store g fs in
      let t : tick (pending_in (find g.entry.id fs)) ≡ tick (pending g) = ap tick n in
      omega (arith, c.room);
  kept = λ i p. rw find-store (elim (Bool-cases (i == g.entry.id)) [
    | inl e ↦
        let e' : i ≡ g.entry.id = ground arith in
        let old : pending_in (find g.entry.id fs) ≡ true = rw e' at (c.kept i p) in
        let new : pending g ≡ true = same ∙ sym (ap pending_in there) ∙ old in rw e new
    | inr d ↦ rw d (c.kept i p)
  ]);
}

-- A change of a file that is not the parked one, for which a credit is given back.
pub IsCredited-spend :
    (parked : Option ℕ) (fs : List TxFile) (gates after : ℤ) (g : TxFile)
    → (parked ≢ some g.entry.id)
    → pos_part after ≤ pos_part gates - 1
    → IsCredited parked fs gates
    → IsCredited parked (store g fs) after
IsCredited-spend parked fs gates after g other spent c = record {
  room =
      let moved = count_pending-store g fs in
      let positive = parked_tick-le parked (store g fs) still in
      let old : tick (pending_in (find g.entry.id fs)) ≤ 1 = ground arith in omega (arith, c.room);
  kept = still;
}
  where
    still : (i : ℕ) → parked ≡ some i → pending_in (find i (store g fs)) ≡ true
    still i p = rw find-store (elim (Bool-cases (i == g.entry.id)) [
      | inl e ↦ let e' : i ≡ g.entry.id = ground arith in absurd (other (p ∙ ap some e'))
      | inr d ↦ rw d (c.kept i p)
    ])

pub pred-lt : (gates : ℤ) → pos_part (gates -ℤ pos 1) ≤ pos_part gates - 1
unfolding ◌-ℤ◌
pred-lt gates = ground arith

pub clamped-lt : (gates : ℤ) → pos_part (clamped (gates -ℤ pos 1)) ≤ pos_part gates - 1
unfolding clamped
clamped-lt gates = ground (arith, pred-lt gates)

not_pending : (f : TxFile) → waits f ≡ false → pending f ≡ false
unfolding pending
not_pending f n = ground arith

-- What ends a file gives its credit back if the bitmap was still awaited.
pub IsCredited-settled :
    (parked : Option ℕ) (fs : List TxFile) (gates : ℤ) (f g : TxFile)
    → (parked ≢ some g.entry.id)
    → find g.entry.id fs ≡ some f
    → pending g ≡ false
    → IsCredited parked fs gates
    → IsCredited parked (store g fs) (release_if (waits f) gates)
unfolding release_if
IsCredited-settled parked fs gates f g other there over c = elim (Bool-cases (waits f)) [
  | inl w ↦
      rw w
        (IsCredited-spend parked fs gates (clamped (gates -ℤ pos 1)) g other (clamped-lt gates) c)
  | inr n ↦ rw n (IsCredited-store parked fs gates f g there (over ∙ sym (not_pending f n)) c)
]
