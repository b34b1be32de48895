-- ===== src/Relay/SpoolFifo.antt =====
-- The spool passes bytes on in order, each once, and holds no more than its limit.
use botjim.Prelude.{
  ℕ, zero, suc, ◌+◌, ◌≤◌, ◌≡◌, ◌∙◌, refl, sym, ap, arith, Bool, true, [], ◌∷◌, ◌++◌, Bytes, length,
  take, drop, ◌==◌, Option, none, some, append_assoc, append-nil, length-append, take-append-drop,
  Bool-cases, inl, inr,
}
use botjim.Relay.Spool.{
  Spool, write_at, spill_locked, store, Round, went, room, over_threshold, spilled, write_round,
}

-- What is still to be read of the file.
abbrev pub in_file : Option Bytes → ℕ → Bytes
in_file none rd = []
in_file (some c) rd = drop rd c

abbrev pub unread : Spool → Bytes
unread s = in_file s.file s.rd_off ++ s.mem

-- The offsets fit the file, and nothing is in memory while there is one.
abbrev pub FileFits : Option Bytes → ℕ → ℕ → Bytes → Type 0
FileFits none wr rd mem = (wr ≡ 0) × (rd ≡ 0)
FileFits (some c) wr rd mem = (length c ≡ wr) × (rd ≤ wr) × (mem ≡ [])

pub record IsValid (s : Spool) : Type 0 where
  pub file : FileFits s.file s.wr_off s.rd_off s.mem
  pub buffered : s.buffered ≡ length (unread s)

take_all : (n : ℕ) (c : Bytes) → length c ≤ n → take n c ≡ c
take_all zero [] h = refl
take_all zero (b ∷ c) h = absurd (omega arith)
take_all (suc n) [] h = refl
take_all (suc n) (b ∷ c) h = rw (take_all n c (omega arith))

pub drop_all : (n : ℕ) (c : Bytes) → length c ≤ n → drop n c ≡ []
drop_all zero [] h = refl
drop_all zero (b ∷ c) h = absurd (omega arith)
drop_all (suc n) [] h = refl
drop_all (suc n) (b ∷ c) h = drop_all n c (omega arith)

write_at-end : (c : Bytes) (off : ℕ) (p : Bytes) → length c ≡ off → write_at c off p ≡ c ++ p
unfolding write_at
write_at-end c off p h =
    rw (take_all off c (omega arith), drop_all (off + length p) c (omega arith), append-nil)

drop-append_within : (n : ℕ) (c p : Bytes) → n ≤ length c → drop n (c ++ p) ≡ drop n c ++ p
drop-append_within zero c p h = refl
drop-append_within (suc n) [] p h = absurd (omega arith)
drop-append_within (suc n) (b ∷ c) p h = drop-append_within n c p (omega arith)

pub drop_nil : (k : ℕ) → drop {A = ℕ} k [] ≡ []
drop_nil zero = refl
drop_nil (suc k) = refl

pub drop-drop : (m n : ℕ) (c : Bytes) → drop m (drop n c) ≡ drop (n + m) c
drop-drop m zero c = rw (zero_plus m)
  where
    zero_plus : (k : ℕ) → 0 + k ≡ k
    zero_plus k = omega arith
drop-drop m (suc n) [] = drop_nil m ∙ sym (drop_nil (suc n + m))
drop-drop m (suc n) (b ∷ c) = drop-drop m n c ∙ ap (λ k. drop k (b ∷ c)) (shift n m)
  where
    shift : (a k : ℕ) → suc (a + k) ≡ suc a + k
    shift a k = omega arith

grown_unread :
    (c mem p : Bytes) (wr rd : ℕ)
    → length c ≡ wr
    → rd ≤ wr
    → mem ≡ []
    → drop rd (write_at c wr p) ++ mem ≡ (drop rd c ++ mem) ++ p
grown_unread c mem p wr rd size within e =
    rw (e, write_at-end c wr p size, append-nil, append-nil)
      (drop-append_within rd c p (omega arith))

length-grown : (c p : Bytes) (wr : ℕ) → length c ≡ wr → length (write_at c wr p) ≡ wr + length p
length-grown c p wr size = rw (write_at-end c wr p size) (omega (arith, length-append c p))

store-IsValid :
    (s : Spool) (f : Option Bytes) (p : Bytes)
    → s.file ≡ f
    → IsValid s
    → IsValid (store s p) × (unread (store s p) ≡ unread s ++ p)
unfolding store
store-IsValid s none p e v =
    let fits : FileFits none s.wr_off s.rd_off s.mem = rw e at v.file in
    let count : s.buffered ≡ length s.mem = rw e at v.buffered in
    rw e (record { file = fits; buffered = omega (arith, length-append s.mem p) }, refl)
store-IsValid s (some c) p e v =
    let (size, within, no_mem) : FileFits (some c) s.wr_off s.rd_off s.mem = rw e at v.file in
    let grown = grown_unread c s.mem p s.wr_off s.rd_off size within no_mem in
    let count : s.buffered ≡ length (drop s.rd_off c ++ s.mem) = rw e at v.buffered in
    rw e (
      record {
        file = (length-grown c p s.wr_off size, omega arith, no_mem);
        buffered = rw grown (omega (arith, count, length-append (drop s.rd_off c ++ s.mem) p));
      },
      grown,
    )

spill-IsValid :
    (s : Spool) (f : Option Bytes)
    → s.file ≡ f
    → IsValid s
    → IsValid (spill_locked s) × (unread (spill_locked s) ≡ unread s)
unfolding spill_locked
spill-IsValid s none e v =
    let (wr, rd) : FileFits none s.wr_off s.rd_off s.mem = rw e at v.file in
    let count : s.buffered ≡ length s.mem = rw e at v.buffered in
    let new_file : write_at [] s.wr_off s.mem ≡ s.mem = write_at-end [] s.wr_off s.mem (sym wr) in
    elim (Bool-cases (length s.mem == 0)) [
      | inl empty ↦ rw empty (v, refl)
      | inr more ↦
          rw (more, e)
            (
              record {
                file = (length-grown [] s.mem s.wr_off (sym wr), omega arith, refl);
                buffered = rw (new_file, rd, append-nil) count;
              },
              rw (new_file, rd) (append-nil s.mem),
            )
    ]
spill-IsValid s (some c) e v =
    let (size, within, no_mem) : FileFits (some c) s.wr_off s.rd_off s.mem = rw e at v.file in
    let empty : (length s.mem == 0) ≡ true = rw no_mem in rw empty (v, refl)

spilled-IsValid : (s : Spool) → IsValid s → IsValid (spilled s) × (unread (spilled s) ≡ unread s)
spilled-IsValid s v = elim (Bool-cases (over_threshold s)) [
  | inl over ↦ rw over (spill-IsValid s s.file refl v)
  | inr under ↦ rw under (v, refl)
]

went-parts :
    {A : Type 0} {a b : A} {s t : Spool}
    → ◌≡◌ {A = Round A} (went a s) (went b t)
    → (a ≡ b) × (s ≡ t)
went-parts e = (cc e, cc e)

-- A round of Write that goes through stores a front of what it was given, behind everything that
-- is not read yet, and gives back the rest.
pub write_round_fifo :
    (spills writes : Bool) (s : Spool) (p : Bytes) {rest : Bytes} {t : Spool}
    → IsValid s
    → write_round spills writes s p ≡ went rest t
    → IsValid t × (unread t ++ rest ≡ unread s ++ p)
unfolding write_round
write_round_fifo spills writes s p {rest} {t} v e =
    let (r, w) = parts in
    let (v₁, same) = spilled-IsValid s v in
    let (v₂, more) = store-IsValid (spilled s) (spilled s).file (take (room s p) p) refl v₁ in
    rw (← r, ← w) (v₂, rw (more, same, append_assoc, take-append-drop))
  where
    parts : (drop (room s p) p ≡ rest) × (store (spilled s) (take (room s p) p) ≡ t)
    parts = ground arith
