-- ===== src/Wire/Stream.antt =====
-- A reader over a byte stream (io.Reader, bufio.Reader): what it took, or why it stopped.
use botjim.Prelude.{
  ℕ, ◌+◌, ◌^◌, ◌<◌, ◌≡◌, ◌∙◌, refl, sym, ap, arith, Bool, true, false, none, some, [], ◌∷◌, ◌++◌,
  Bytes, length, take, drop, ltb, if◌then◌else◌, append_assoc, length-take, length-drop,
}
use botjim.Wire.Varint.{uvarint, append_uvarint, uvarint-append_uvarint}
use botjim.Wire.Encoder.{◌then◌}
use botjim.Wire.Reads.{take-append, drop-append, not_short}

pub data StreamError : Type 0 where
  eof bad_varint bad_magic corrupt : StreamError
  bad_major bad_cipher bad_flags bad_stream_kind bad_frame_type too_large : ℕ → StreamError
  empty_payload length_mismatch missing_sum short_sum wrong_sum : StreamError

pub data Got (A : Type 0) : Type 0 where
  got : A → Bytes → Got A
  lost : StreamError → Got A

abbrev pub Reader : Type 0 → Type 0
Reader A = Bytes → Got A

-- Shut on purpose, like the bind of the payload decoder.
infixl 5 ◌>>=◌
unfoldable pub ◌>>=◌ : {A B : Type 0} → Reader A → (A → Reader B) → Reader B
◌>>=◌ m f s = elim (m s) [ got a s' ↦ f a s' | lost e ↦ lost e ]

unfoldable pub pure : {A : Type 0} → A → Reader A
pure a s = got a s

unfoldable pub refuse : {A : Type 0} → StreamError → Reader A
refuse e s = lost e

-- `if <bad> { return ..., fmt.Errorf(...) }`
unfoldable pub unless : {A : Type 0} → Bool → StreamError → Reader A → Reader A
unless true e m s = lost e
unless false e m s = m s

-- io.ReadFull into a buffer of `n` bytes.
unfoldable pub read_full : ℕ → Reader Bytes
read_full n s = if ltb (length s) n then lost eof else got (take n s) (drop n s)

unfoldable pub read_byte : Reader ℕ
read_byte [] = lost eof
read_byte (b ∷ s) = got b s

-- binary.ReadUvarint. It stops at the byte where Uvarint does.
unfoldable pub read_uvarint : Reader ℕ
read_uvarint s = elim (uvarint s) [ none ↦ lost bad_varint | some (v, rest) ↦ got v rest ]

pub record Takes {A : Type 0} (m : Reader A) (p : Bytes) (v : A) : Type 0 where
  pub takes : (rest : Bytes) → m (p ++ rest) ≡ got v rest

pub bind-eq :
    {A B : Type 0} (m : Reader A) (f : A → Reader B) (s : Bytes) {a : A} {s' : Bytes}
    → m s ≡ got a s'
    → (m >>= f) s ≡ f a s'
unfolding ◌>>=◌
bind-eq m f s e = rw (e, ◌>>=◌)

pub Takes-bind :
    {A B : Type 0} {m : Reader A} (f : A → Reader B) {p q : Bytes} {a : A} {b : B}
    → Takes m p a
    → Takes (f a) q b
    → Takes (m >>= f) (p then q) b
unfolding ◌then◌
Takes-bind {m = m} f {q = q} r s = record {
  takes = λ rest. rw append_assoc (bind-eq m f _ (r.takes (q ++ rest)) ∙ s.takes rest);
}

pub Takes-last :
    {A B : Type 0} {m : Reader A} {a : A} {b : B} {p : Bytes} (f : A → B)
    → Takes m p a
    → f a ≡ b
    → Takes (m >>= λ x. pure (f x)) p b
unfolding pure
Takes-last {m = m} f r e = record {
  takes = λ rest. bind-eq m _ _ (r.takes rest) ∙ ap (λ t. got t rest) e;
}

pub Takes-unless :
    {A : Type 0} {m : Reader A} {p : Bytes} {a : A} {bad : Bool} (e : StreamError)
    → bad ≡ false
    → Takes m p a
    → Takes (unless bad e m) p a
unfolding unless
Takes-unless e h r = record { takes = λ rest. rw (h, unless) (r.takes rest) }

pub Takes-read_full : (n : ℕ) (p : Bytes) → length p ≡ n → Takes (read_full n) p p
Takes-read_full n p h = record {
  takes = λ rest.
      let enough : ltb (length (p ++ rest)) n ≡ false = rw h at (not_short p rest) in
      let front : take n (p ++ rest) ≡ p = rw h at (take-append p rest) in
      let back : drop n (p ++ rest) ≡ rest = rw h at (drop-append p rest) in
      unfold read_full in rw (enough, front, back);
}

pub Takes-read_byte : (b : ℕ) → Takes read_byte (b ∷ []) b
Takes-read_byte b = record { takes = λ rest. unfold read_byte in refl }

pub Takes-read_uvarint : (v : ℕ) → v < 2 ^ 64 → Takes read_uvarint (append_uvarint v) v
Takes-read_uvarint v h = record {
  takes = λ rest. unfold read_uvarint in rw (uvarint-append_uvarint v rest h, read_uvarint);
}

pub unless-false :
    {A : Type 0} (bad : Bool) (e : StreamError) (m : Reader A) (s : Bytes)
    → bad ≡ false
    → unless bad e m s ≡ m s
unfolding unless
unless-false bad e m s h = rw (h, unless)

-- A reader that got something passed the guard.
pub unless-got :
    {A : Type 0} (bad : Bool) (e : StreamError) (m : Reader A) (s : Bytes) {a : A} {s' : Bytes}
    → unless bad e m s ≡ got a s'
    → (bad ≡ false) × (m s ≡ got a s')
unfolding unless
unless-got true e m s h = cc
unless-got false e m s h = (refl, h)

pub bind-got :
    {A B : Type 0} (m : Reader A) (f : A → Reader B) (s : Bytes) {b : B} {s' : Bytes}
    → (m >>= f) s ≡ got b s'
    → (a : A) × (t : Bytes) × (m s ≡ got a t) × (f a t ≡ got b s')
bind-got {A} {B} m f s {b} {s'} h = go (m s) refl
  where
    go : (r : Got A) → m s ≡ r → (a : A) × (t : Bytes) × (m s ≡ got a t) × (f a t ≡ got b s')
    go (got a t) e = (a, t, e, sym (bind-eq m f s e) ∙ h)
    go (lost x) e = unfold ◌>>=◌ in cc (rw (e, ◌>>=◌) at h)

pub read_full-got :
    (n : ℕ) (s : Bytes) {p t : Bytes}
    → read_full n s ≡ got p t
    → (p ≡ take n s) × (t ≡ drop n s) × (length p ≡ n)
unfolding read_full
read_full-got n s h = ground (arith, length-take n s)

pub read_full-length :
    (n : ℕ) (s : Bytes) {p t : Bytes} → read_full n s ≡ got p t → length s ≡ n + length t
unfolding read_full
read_full-length n s h = ground (arith, length-drop n s)
