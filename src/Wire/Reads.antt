-- ===== src/Wire/Reads.antt =====
-- A decoder reads back what an encoder wrote, whatever follows: one rule for each getter and for
-- each way to join them.
use botjim.Prelude.{
  ℕ, ◌^◌, ◌<◌, ◌≡◌, refl, sym, ap, ◌∙◌, arith, Bool, false, List, [], ◌∷◌, ◌++◌, Bytes, length,
  take, drop, ltb, if◌then◌else◌, append_assoc, append-nil, length-append, All, map,
}
use botjim.Prelude.Int.{ℤ}
use botjim.Wire.Varint.{
  append_uvarint, uvarint-append_uvarint, zigzag, unzigzag-zigzag, IsI64, zigzag-lt,
}
use botjim.Wire.Words.{le_bytes, of_le-le_bytes, length-le_bytes, capacity}
use botjim.Wire.Encoder.{
  ◌then◌, done, put_u8, put_u16, put_u32, put_u64, put_uv, put_sv, put_bytes, each,
}
use botjim.Wire.Decoder.{
  Fault, Decoder, read, M, ◌>>=◌, pure, word, u8, u16, u32, u64, groups, uv, sv, taken, bytes,
  repeat, unless, ok, close, fresh, decode,
}
use mathlib.Core.List.{map-id}
use mathlib.Core.Path.{subst}

pub record Reads {A : Type 0} (m : M A) (p : Bytes) (v : A) : Type 0 where
  pub reads : (rest : Bytes) → m (fresh (p ++ rest)) ≡ read v (fresh rest)

pub bind-eq :
    {A B : Type 0} (m : M A) (f : A → M B) (d : Decoder) {a : A} {d' : Decoder}
    → m d ≡ read a d'
    → (m >>= f) d ≡ f a d'
unfolding ◌>>=◌
bind-eq m f d e = rw (e, ◌>>=◌)

pub Reads-bind :
    {A B : Type 0} {m : M A} (f : A → M B) {p q : Bytes} {a : A} {b : B}
    → Reads m p a
    → Reads (f a) q b
    → Reads (m >>= f) (p then q) b
unfolding ◌then◌
Reads-bind {m = m} f {p = p} {q = q} r s = record {
  reads = λ rest. rw append_assoc (bind-eq m f _ (r.reads (q ++ rest)) ∙ s.reads rest);
}

pub Reads-last :
    {A B : Type 0} {m : M A} {a : A} {b : B} {p : Bytes} (f : A → B)
    → Reads m p a
    → f a ≡ b
    → Reads (m >>= λ x. pure (f x)) p b
unfolding pure
Reads-last {m = m} f r e = record {
  reads = λ rest. bind-eq m _ _ (r.reads rest) ∙ ap (λ t. read t (fresh rest)) e;
}

pub Reads-pure : {A : Type 0} {a : A} → Reads (pure a) done a
unfolding pure done
Reads-pure = record { reads = λ rest. refl }

pub take-append : (p rest : Bytes) → take (length p) (p ++ rest) ≡ p
take-append [] rest = refl
take-append (x ∷ p) rest = ap (◌∷◌ x) (take-append p rest)

pub drop-append : (p rest : Bytes) → drop (length p) (p ++ rest) ≡ rest
drop-append [] rest = refl
drop-append (x ∷ p) rest = drop-append p rest

pub not_short : (p rest : Bytes) → ltb (length (p ++ rest)) (length p) ≡ false
not_short p rest = ground (arith, length-append p rest)

word-le_bytes : (n v : ℕ) (short : Fault) → v < capacity n → Reads (word n short) (le_bytes n v) v
unfolding word
word-le_bytes n v short h = record {
  reads = λ rest.
      let len : length (le_bytes n v) ≡ n = length-le_bytes n v in
      let enough : ltb (length (le_bytes n v ++ rest)) n ≡ false =
        rw len at (not_short (le_bytes n v) rest) in
      let front : take n (le_bytes n v ++ rest) ≡ le_bytes n v =
        rw len at (take-append (le_bytes n v) rest) in
      let back : drop n (le_bytes n v ++ rest) ≡ rest =
        rw len at (drop-append (le_bytes n v) rest) in
      rw (enough, front, back, of_le-le_bytes n v h);
}

pub Reads-u8 : {v : ℕ} → v < 2 ^ 8 → Reads u8 (put_u8 v) v
unfolding u8 put_u8 capacity
Reads-u8 {v} h = word-le_bytes 1 v _ h

pub Reads-u16 : {v : ℕ} → v < 2 ^ 16 → Reads u16 (put_u16 v) v
unfolding u16 put_u16 capacity
Reads-u16 {v} h = word-le_bytes 2 v _ h

pub Reads-u32 : {v : ℕ} → v < 2 ^ 32 → Reads u32 (put_u32 v) v
unfolding u32 put_u32 capacity
Reads-u32 {v} h = word-le_bytes 4 v _ h

pub Reads-u64 : {v : ℕ} → v < 2 ^ 64 → Reads u64 (put_u64 v) v
unfolding u64 put_u64 capacity
Reads-u64 {v} h = word-le_bytes 8 v _ h

groups-append_uvarint : (v : ℕ) (bad : Fault) → v < 2 ^ 64 → Reads (groups bad) (append_uvarint v) v
unfolding groups
groups-append_uvarint v bad h = record {
  reads = λ rest. rw (uvarint-append_uvarint v rest h, groups);
}

pub Reads-uv : {v : ℕ} → v < 2 ^ 64 → Reads uv (put_uv v) v
unfolding uv put_uv
Reads-uv {v} h = groups-append_uvarint v _ h

pub Reads-sv : {v : ℤ} → IsI64 v → Reads sv (put_sv v) v
unfolding sv put_sv
Reads-sv {v} h =
    Reads-last _ (groups-append_uvarint (zigzag v) _ (zigzag-lt v h)) (unzigzag-zigzag v)

taken_lem : (p rest : Bytes) → taken (length p) (fresh (p ++ rest)) ≡ read p (fresh rest)
unfolding taken
taken_lem p rest = rw (not_short p rest, take-append p rest, drop-append p rest)

pub Reads-bytes : {p : Bytes} → length p < 2 ^ 64 → Reads bytes (put_bytes p) p
unfolding bytes put_bytes
Reads-bytes {p} h = record {
  reads = λ rest. rw append_assoc (
      bind-eq uv taken (fresh (put_uv (length p) ++ (p ++ rest))) ((Reads-uv h).reads (p ++ rest))
      ∙ taken_lem p rest);
}

-- A step that reads nothing.
pub Reads-silent :
    {A B : Type 0} (m : M A) (f : A → M B) (a : A) {p : Bytes} {b : B}
    → ((d : Decoder) → m d ≡ read a d)
    → Reads (f a) p b
    → Reads (m >>= f) p b
Reads-silent m f a e r = record { reads = λ rest. bind-eq m f _ (e _) ∙ r.reads rest }

-- The loop reads each item as `view` shows it.
pub Reads-each :
    {A B : Type 0} (one : M B) (put : A → Bytes) (view : A → B) (xs : List A)
    → All (λ x. Reads one (put x) (view x)) xs
    → Reads (repeat (length xs) one) (each put xs) (map view xs)
unfolding repeat each
Reads-each one put view [] h = record { reads = λ rest. unfold pure in refl }
Reads-each one put view (x ∷ xs) (h, hs) = record {
  reads = λ rest. rw append_assoc (
      bind-eq one _ _ (h.reads (each put xs ++ rest))
      ∙ (Reads-last (◌∷◌ (view x)) (Reads-each one put view xs hs) refl).reads rest);
}

pub Reads-repeat :
    {A : Type 0} (one : M A) (put : A → Bytes) (xs : List A)
    → All (λ x. Reads one (put x) x) xs
    → Reads (repeat (length xs) one) (each put xs) xs
Reads-repeat one put xs h =
    subst (Reads (repeat (length xs) one) (each put xs)) (map-id xs)
      (Reads-each one put (λ x. x) xs h)

pub Reads-unless :
    {A : Type 0} {m : M A} {p : Bytes} {a : A} {bad : Bool} (e : Fault)
    → bad ≡ false
    → Reads m p a
    → Reads (unless bad e m) p a
unfolding unless
Reads-unless e h r = record { reads = λ rest. rw (h, unless) (r.reads rest) }

-- A round trip of a whole payload.
pub decode-Reads : {A : Type 0} {m : M A} {p : Bytes} {a : A} → Reads m p a → decode m p ≡ ok a
unfolding decode close
decode-Reads {m = m} {p = p} r = rw (sym (append-nil p)) (rw (r.reads [], decode))
