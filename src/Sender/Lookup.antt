-- ===== src/Sender/Lookup.antt =====
-- The table of files: what a lookup gives behind a store, and the number of files whose bitmap is awaited.
use botjim.Prelude.{
  ℕ, ◌+◌, ◌≡◌, arith, Bool, true, false, not, ◌&&◌, List, [], ◌∷◌, ◌==◌, if◌then◌else◌, Bool-cases,
  inl, inr, Option, none, some, sym, refl,
}
use botjim.Sender.{TxFile, find, store, waits}

pub find-id : (i : ℕ) (fs : List TxFile) (f : TxFile) → find i fs ≡ some f → f.entry.id ≡ i
unfolding find
find-id i [] f h = absurd cc
find-id i (g ∷ fs) f h = elim (Bool-cases (i == g.entry.id)) [
  | inl e ↦
      let first : some g ≡ some f = rw e at h in
      let g_is : g ≡ f = cc in let n : i ≡ g.entry.id = ground arith in rw (sym g_is) (sym n)
  | inr d ↦ let later : find i fs ≡ some f = rw d at h in find-id i fs f later
]

pub find-store :
    (i : ℕ) (g : TxFile) (fs : List TxFile)
    → find i (store g fs) ≡ (if i == g.entry.id then some g else find i fs)
unfolding find store
find-store i g [] = refl
find-store i g (f ∷ fs) = elim (Bool-cases (g.entry.id == f.entry.id)) [
  | inl e ↦ rw e (same_key e)
  | inr d ↦ rw d (other_key d (find-store i g fs))
]
  where
    same_key :
        (g.entry.id == f.entry.id) ≡ true
        → find i (g ∷ fs)
          ≡ (if i == g.entry.id then some g else if i == f.entry.id then some f else find i fs)
    same_key e = let n : g.entry.id ≡ f.entry.id = ground arith in ground arith

    other_key :
        (g.entry.id == f.entry.id) ≡ false
        → find i (store g fs) ≡ (if i == g.entry.id then some g else find i fs)
        → find i (f ∷ store g fs)
          ≡ (if i == g.entry.id then some g else if i == f.entry.id then some f else find i fs)
    other_key d ih = elim (Bool-cases (i == f.entry.id)) [
      | inl e ↦ let n : (i == g.entry.id) ≡ false = ground arith in rw e (rw n refl)
      | inr o ↦ rw o ih
    ]

abbrev pub tick : Bool → ℕ
tick b = if b then 1 else 0

-- The files whose bitmap is awaited and that have no outcome.
unfoldable pub pending : TxFile → Bool
pending f = waits f && not f.resolved

unfoldable pub count_pending : List TxFile → ℕ
count_pending [] = 0
count_pending (f ∷ fs) = tick (pending f) + count_pending fs

unfoldable pub pending_in : Option TxFile → Bool
pending_in none = false
pending_in (some f) = pending f

pub count_pending-store :
    (g : TxFile) (fs : List TxFile)
    → count_pending (store g fs) + tick (pending_in (find g.entry.id fs))
      ≡ count_pending fs + tick (pending g)
unfolding store find count_pending pending_in
count_pending-store g [] = omega arith
count_pending-store g (f ∷ fs) = elim (Bool-cases (g.entry.id == f.entry.id)) [
  | inl e ↦ rw e (omega arith)
  | inr d ↦ rw d (omega (arith, count_pending-store g fs))
]
