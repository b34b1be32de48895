-- ===== src/Sender/Resolution.antt =====
-- The sender's books on outcomes: each entry has at most one, and each counter is the size of its set.
use botjim.Prelude.{
  ℕ, ◌+◌, ◌≤◌, ◌≡◌, arith, Bool, true, false, ◌||◌, List, [], ◌∷◌, length, length-append, ◌==◌,
  if◌then◌else◌, Bool-cases, inl, inr, some, sym, ap, ◌∙◌, refl,
}
use botjim.Manifest.{Entry}
use botjim.Protocol.Messages.{FileResult}
use botjim.Sender.{TxFile, Sender, has_id, with_id, find, store}
use botjim.Sender.Outcomes.{count_result, mark_resolved, error_at}
use botjim.Sender.Ids.{distinct, has_id-with_id, length-with_id, distinct-with_id}
use botjim.Sender.Lookup.{find-store}

-- `counted` stands for the outcomes in the report.
pub record IsBooked (emitted : ℕ) (ids : List ℕ) (resolved : ℕ) (resolved_ids : List ℕ)
    (counted : ℕ) : Type 0 where
  pub emits : emitted ≡ length ids
  pub once : distinct ids ≡ true
  pub resolves : resolved ≡ length resolved_ids
  pub each : distinct resolved_ids ≡ true
  pub within : (i : ℕ) → has_id i resolved_ids ≡ true → has_id i ids ≡ true
  pub reported : counted ≤ resolved

abbrev pub Booked : Sender → Type 0
Booked s =
    IsBooked s.emitted s.emitted_ids s.resolved s.resolved_ids (s.files_done + length s.errors)

-- The files of the table are entries that were emitted.
abbrev pub IsKeyed : List ℕ → List TxFile → Type 0
IsKeyed ids fs = (i : ℕ) → (f : TxFile) → find i fs ≡ some f → has_id i ids ≡ true

pub IsKeyed-store :
    (ids : List ℕ) (g : TxFile) (fs : List TxFile)
    → has_id g.entry.id ids ≡ true
    → IsKeyed ids fs
    → IsKeyed ids (store g fs)
IsKeyed-store ids g fs there k i f found = elim (Bool-cases (i == g.entry.id)) [
  | inl e ↦ let n : i ≡ g.entry.id = ground arith in rw n there
  | inr d ↦
      let old : find i fs ≡ some f =
        sym (find-store i g fs ∙ ap (λ b. if b then some g else find i fs) d) ∙ found in
      k i f old
]

abbrev pub Kept : Sender → Type 0
Kept s = Booked s × IsKeyed s.emitted_ids s.files

-- The sender with one file stored, and other fields changed that the books do not name.
pub store-IsKeyed :
    (f g : TxFile) (s : Sender)
    → find f.entry.id s.files ≡ some f
    → g.entry ≡ f.entry
    → Kept s
    → IsKeyed s.emitted_ids (store g s.files)
store-IsKeyed f g s there same k =
    IsKeyed-store s.emitted_ids g s.files
      (ap (λ e. has_id (id e) s.emitted_ids) same ∙ k.1 f.entry.id f there) k.1
  where
    id : Entry → ℕ
    id e = e.id

-- One entry more that has its outcome: `t` has the books of `s`, with at most one outcome more in the report.
pub record OneCounted (s t : Sender) : Type 0 where
  pub emitted : t.emitted ≡ s.emitted
  pub emitted_ids : t.emitted_ids ≡ s.emitted_ids
  pub resolved : t.resolved ≡ s.resolved
  pub resolved_ids : t.resolved_ids ≡ s.resolved_ids
  pub one : t.files_done + length t.errors ≤ s.files_done + length s.errors + 1

pub mark_resolved-Kept :
    (i : ℕ) (s t : Sender)
    → OneCounted s t
    → has_id i s.emitted_ids ≡ true
    → has_id i s.resolved_ids ≡ false
    → IsKeyed t.emitted_ids t.files
    → Booked s
    → Kept (mark_resolved i t)
unfolding mark_resolved
mark_resolved-Kept i s t o there new k b = (
  record {
    emits = o.emitted ∙ b.emits ∙ sym (ap length o.emitted_ids);
    once = ap distinct o.emitted_ids ∙ b.once;
    resolves =
        let more = length-with_id i t.resolved_ids (ap (has_id i) o.resolved_ids ∙ new) in
        let same : length t.resolved_ids ≡ length s.resolved_ids = ap length o.resolved_ids in
        omega (arith, o.resolved, b.resolves);
    each = distinct-with_id i t.resolved_ids (ap distinct o.resolved_ids ∙ b.each);
    within = λ j h. ap (has_id j) o.emitted_ids ∙ inside j h;
    reported = omega (arith, o.resolved, o.one, b.reported);
  },
  k,
)
  where
    inside : (j : ℕ) → has_id j (with_id i t.resolved_ids) ≡ true → has_id j s.emitted_ids ≡ true
    inside j h = elim (Bool-cases (j == i)) [
      | inl e ↦ let n : j ≡ i = ground arith in rw n there
      | inr d ↦
          let old : has_id j s.resolved_ids ≡ true =
            sym (
              has_id-with_id j i t.resolved_ids
              ∙ ap (λ x. x || has_id j t.resolved_ids) d
              ∙ ap (has_id j) o.resolved_ids)
            ∙ h in
          b.within j old
    ]

pub count_result-OneCounted :
    (fresh over : Bool) (m : FileResult) (f : TxFile) (s : Sender)
    → OneCounted s (count_result fresh over m f s)
unfolding count_result
count_result-OneCounted true over m f s = record {
  emitted = refl;
  emitted_ids = refl;
  resolved = refl;
  resolved_ids = refl;
  one = omega (arith, length-append s.errors (error_at f m.code m.msg ∷ []));
}
count_result-OneCounted false true m f s = record {
  emitted = refl;
  emitted_ids = refl;
  resolved = refl;
  resolved_ids = refl;
  one = omega arith;
}
count_result-OneCounted false false m f s = record {
  emitted = refl;
  emitted_ids = refl;
  resolved = refl;
  resolved_ids = refl;
  one = omega arith;
}
