-- ===== src/Engine/Table.antt =====
-- The receiver's table of chunks against the source: a chunk marked present is the source's and its mark is
-- the source's hash, or it is a claim about the old bytes that the sender has yet to judge.
use botjim.Prelude.{
  ℕ, zero, suc, ◌+◌, ◌*◌, ◌^◌, ◌<◌, ◌≤◌, ◌≡◌, ◌≢◌, ◌⊎◌, inl, inr, ◌∙◌, refl, arith, Bool, true,
  false, not, ◌&&◌, ◌||◌, [], Bytes, length, get_or, get_or-set_self, get_or-set_ne, leb, Option,
  none, some, Bool-cases,
}
use botjim.Prelude.Int.{pos}
use botjim.Chunking.{chunk_sha}
use botjim.Chunking.Tiling.{chunks_of, chunk_len}
use botjim.Sidecar.{Sidecar, Mark, missing, zero_chunk, hashed, mark_of, have, set_have, clear_have}
use botjim.Sidecar.Invariant.{IsValid, set_have-IsValid, have-set_have}
use botjim.Engine.Disk.{Disk, slice}
use botjim.Engine.RxFile.{has_arrived, note_arrival}
use botjim.Engine.Ending.{drop_one, drop_claims}

abbrev pub mark_at : Sidecar → ℕ → Mark
mark_at s i = get_or s.hashes i missing

-- Every byte of `e` is that of `d` or that of `source`.
abbrev pub Toward : Disk → Disk → Disk → Type 0
Toward source d e = (b : ℕ) → (e b ≡ d b) ⊎ (e b ≡ source b)

-- A file of `size` bytes in chunks of `chunk`: `old` was in the part and `source` is to be; `claimed` are the chunks
-- whose old bytes the receiver claims.
pub record Job : Type 0 where
  pub sha256 : Bytes → Bytes
  pub rel_path : Bytes
  pub size : ℕ
  pub chunk : ℕ
  pub old : Disk
  pub source : Disk
  pub claimed : ℕ → Bool

-- The sizes that an entry on the wire can have.
pub record IsFit (job : Job) : Type 0 where
  pub some_chunk : 0 < job.chunk
  pub chunk_small : job.chunk < 2 ^ 32
  pub size_small : job.size ≤ 2 ^ 62
  pub path_small : length job.rel_path < 2 ^ 64

module _ (job : Job) where
  abbrev pub chunks : ℕ
  chunks = chunks_of job.size job.chunk

  abbrev pub Within : ℕ → ℕ → Type 0
  Within i b = (i * job.chunk ≤ b) × (b < i * job.chunk + chunk_len job.size job.chunk i)

  -- Chunk `i` of `d` is that of the source.
  abbrev pub Agrees : Disk → ℕ → Type 0
  Agrees d i = (b : ℕ) → Within i b → d b ≡ job.source b

  abbrev pub chunk_of : Disk → ℕ → Bytes
  chunk_of d i = slice d (i * job.chunk) (chunk_len job.size job.chunk i)

  abbrev pub identity : Disk → ℕ → Bytes
  identity d i = chunk_sha job.sha256 job.rel_path i (chunk_of d i)

  abbrev pub IsBlank : ℕ → Type 0
  IsBlank i = (b : ℕ) → Within i b → job.source b ≡ 0

  abbrev pub IsTrue : Mark → ℕ → Type 0
  IsTrue m i = (m ≡ hashed (identity job.source i)) ⊎ ((m ≡ zero_chunk) × IsBlank i)

  abbrev pub Settled : Sidecar → Disk → ℕ → Type 0
  Settled s d i = Agrees d i × IsTrue (mark_at s i) i

  abbrev pub Claimed : Sidecar → Bool → Option (ℕ → Bool) → ℕ → Type 0
  Claimed s pending arrived i =
      (pending ≡ true)
      × (has_arrived arrived i ≡ false)
      × (job.claimed i ≡ true)
      × (mark_at s i ≡ hashed (identity job.old i))

  pub record IsTable (s : Sidecar) (d : Disk) (pending : Bool) (arrived : Option (ℕ → Bool))
      : Type 0 where
    pub books : IsValid s
    pub grid_count : s.chunk_count ≡ chunks
    pub held :
        (i : ℕ) → i < chunks → have s (pos i) ≡ true → Settled s d i ⊎ Claimed s pending arrived i

-- The marks of the other chunks stay.
pub mark_at-set_have :
    (s : Sidecar) (i j : ℕ) (h : Bytes) (z : Bool)
    → i ≢ j
    → (mark_at (set_have s (pos i) h z) j ≡ mark_at s j)
      × (mark_at (clear_have s (pos i)) j ≡ mark_at s j)
unfolding set_have clear_have
mark_at-set_have s i j h z d = elim (Bool-cases (leb s.chunk_count i || leb (length s.hashes) i)) [
  | inl e ↦ rw e (refl, refl)
  | inr e ↦ rw e (
    get_or-set_ne s.hashes i j (mark_of h z) missing d,
    get_or-set_ne s.hashes i j missing missing d,
  )
]

pub mark_at-set_have_self :
    (s : Sidecar) (i : ℕ) (h : Bytes) (z : Bool)
    → IsValid s
    → i < s.chunk_count
    → mark_at (set_have s (pos i) h z) i ≡ mark_of h z
unfolding set_have
mark_at-set_have_self s i h z v k =
    let inside : (leb s.chunk_count i || leb (length s.hashes) i) ≡ false =
      ground (arith, v.marks) in
    rw inside (get_or-set_self s.hashes i (mark_of h z) missing (omega (arith, v.marks)))

pub chunk_count-set_have :
    (s : Sidecar) (i : ℕ) (h : Bytes) (z : Bool)
    → ((set_have s (pos i) h z).chunk_count ≡ s.chunk_count)
      × ((clear_have s (pos i)).chunk_count ≡ s.chunk_count)
unfolding set_have clear_have
chunk_count-set_have s i h z = elim (Bool-cases (leb s.chunk_count i || leb (length s.hashes) i)) [
  | inl e ↦ rw e (refl, refl)
  | inr e ↦ rw e (refl, refl)
]

pub has_arrived-note_arrival :
    (m : Option (ℕ → Bool)) (i j : ℕ) → i ≢ j → has_arrived (note_arrival m i) j ≡ has_arrived m j
unfolding has_arrived note_arrival
has_arrived-note_arrival none i j d = refl
has_arrived-note_arrival (some m) i j d = ground arith

-- What the loop over the claims leaves: the chunks below `n` that are not to be kept are unmarked.
pub record IsDropped (keep : ℕ → Bool) (n : ℕ) (s t : Sidecar) : Type 0 where
  pub books : IsValid t
  pub same_count : t.chunk_count ≡ s.chunk_count
  pub present :
      (j : ℕ) → j < s.chunk_count → have t (pos j) ≡ (have s (pos j) && (leb n j || keep j))
  pub marks : (j : ℕ) → have t (pos j) ≡ true → mark_at t j ≡ mark_at s j

clear-IsDropped :
    (keep : ℕ → Bool) (n : ℕ) (s t : Sidecar)
    → IsDropped keep n s t
    → suc n ≤ s.chunk_count
    → keep n ≡ false
    → IsDropped keep (suc n) s (clear_have t (pos n))
clear-IsDropped keep n s t w h gone =
    let inside : n < t.chunk_count = omega (arith, w.same_count) in
    let after = λ (j : ℕ). (have-set_have t n j [] false w.books inside).1 in
    record {
      books = (set_have-IsValid t (pos n) [] false w.books).1;
      same_count = (chunk_count-set_have t n [] false).1 ∙ w.same_count;
      present = λ j k. after j ∙ ground (arith, w.present j k, gone);
      marks = λ j k.
          let apart : n ≢ j = ground (arith, after j) in
          (mark_at-set_have t n j [] false apart).1 ∙ w.marks j (ground (arith, after j));
    }

drop_one-IsDropped :
    (keep : ℕ → Bool) (n : ℕ) (s : Sidecar) (t : Sidecar × Bool)
    → IsDropped keep n s t.0
    → suc n ≤ s.chunk_count
    → IsDropped keep (suc n) s (drop_one (keep n) n t).0
unfolding drop_one
drop_one-IsDropped keep n s (t, dropped) w h = elim (Bool-cases (have t (pos n) && not (keep n))) [
  | inl e ↦ rw e (clear-IsDropped keep n s t w h (ground arith))
  | inr e ↦ rw e (record {
    books = w.books;
    same_count = w.same_count;
    present = λ j k. ground (arith, w.present j k, e);
    marks = w.marks;
  })
]

pub drop_claims-IsDropped :
    (keep : ℕ → Bool) (n : ℕ) (s : Sidecar)
    → IsValid s
    → n ≤ s.chunk_count
    → IsDropped keep n s (drop_claims keep n s).0
unfolding drop_claims
drop_claims-IsDropped keep zero s v h = record {
  books = v;
  same_count = refl;
  present = λ j k. ground arith;
  marks = λ j k. refl;
}
drop_claims-IsDropped keep (suc n) s v h =
    let rest = drop_claims keep n s in
    drop_one-IsDropped keep n s rest (drop_claims-IsDropped keep n s v (omega arith)) h
