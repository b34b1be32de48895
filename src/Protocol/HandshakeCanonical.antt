-- ===== src/Protocol/HandshakeCanonical.antt =====
-- ReadHandshake accepts no other bytes than WriteHandshake's.
use mathlib.Core.Path.{ap₂, subst}
use botjim.Prelude.{
  ℕ, zero, suc, ◌+◌, ◌^◌, ◌<◌, ◌≤◌, ◌≡◌, ◌∙◌, refl, sym, ap, arith, Bool, true, false, not, [], ◌∷◌,
  ◌++◌, Bytes, length, take, drop, get_or, ◌==◌, IsByte, IsBytes, All-take, All-drop,
  take-append-drop, length-take, length-drop,
}
use botjim.Wire.Words.{le_bytes, of_le, le_bytes-of_le, of_le-lt, capacity}
use botjim.Wire.Crc.{crc32c}
use botjim.Wire.Stream.{got, read_full, pure, unless-got, bind-got, read_full-got}
use botjim.Protocol.Handshake.{
  magic, Handshake, handshake_head, marshal_handshake, slice, check_handshake, read_handshake,
}
use botjim.Protocol.HandshakeLaws.{IsHandshake, Front, front, bytes_eq→eq}

take-split : (m n k : ℕ) (p : Bytes) → m + n ≡ k → take m p ++ take n (drop m p) ≡ take k p
take-split zero n k p e = let same : n ≡ k = omega arith in rw same
take-split (suc m) n zero p e = absurd (omega arith)
take-split (suc m) zero (suc k) [] e = refl
take-split (suc m) (suc n) (suc k) [] e = refl
take-split (suc m) n (suc k) (b ∷ p) e = ap (◌∷◌ b) (take-split m n k p (omega arith))

take-length : (p : Bytes) → take (length p) p ≡ p
take-length [] = refl
take-length (b ∷ p) = ap (◌∷◌ b) (take-length p)

length-take-drop : (a n : ℕ) (p : Bytes) → a + n ≤ length p → length (take n (drop a p)) ≡ n
length-take-drop a n p h = omega (arith, length-take n (drop a p), length-drop a p)

-- The handshake that ReadHandshake builds from the 36 bytes.
abbrev fields_of : Bytes → Handshake
fields_of buf = record {
  proto_major = get_or buf 4 0;
  proto_minor = get_or buf 5 0;
  cipher_id = get_or buf 6 0;
  flags = get_or buf 7 0;
  feature_bits = of_le (slice 8 16 buf);
  nonce = slice 16 32 buf;
}

abbrev behind_magic : Bytes → Bytes
behind_magic buf =
    get_or buf 4 0
    ∷ get_or buf 5 0
    ∷ get_or buf 6 0
    ∷ get_or buf 7 0
    ∷ (slice 8 16 buf ++ slice 16 32 buf)

glue : (buf : Bytes) → Front buf → slice 0 4 buf ++ behind_magic buf ≡ take 32 buf
unfolding slice
glue buf f = rw f.is (
    ap (λ t. f.b0 ∷ f.b1 ∷ f.b2 ∷ f.b3 ∷ f.b4 ∷ f.b5 ∷ f.b6 ∷ f.b7 ∷ t)
      (take-split 8 16 24 f.behind refl))

not-false : (b : Bool) → not b ≡ false → b ≡ true
not-false b h = ground arith

not_eq_false : (a b : ℕ) → not (a == b) ≡ false → a ≡ b
not_eq_false a b h = ground arith

module _ (buf : Bytes) (len : length buf ≡ 36) (all : IsBytes buf) where
  same_features : le_bytes 8 (of_le (slice 8 16 buf)) ≡ slice 8 16 buf
  unfolding slice
  same_features =
      rw (length-take-drop 8 8 buf (omega (arith, len))) at
        (le_bytes-of_le (take 8 (drop 8 buf)) (All-take IsByte 8 _ (All-drop IsByte 8 buf all)))

  same_sum :
      of_le (slice 32 36 buf) ≡ crc32c (take 32 buf)
      → le_bytes 4 (crc32c (take 32 buf)) ≡ drop 32 buf
  unfolding slice
  same_sum e =
      let tail = drop 32 buf in
      let four : length tail ≡ 4 = omega (arith, len, length-drop 32 buf) in
      let whole : take 4 tail ≡ tail = rw four at (take-length tail) in
      rw (← e, whole) (rw four at (le_bytes-of_le tail (All-drop IsByte 32 buf all)))

  same_head : slice 0 4 buf ≡ magic → handshake_head (fields_of buf) ≡ take 32 buf
  unfolding handshake_head
  same_head e =
      rw same_features
        (ap (λ m. m ++ behind_magic buf) (sym e) ∙ glue buf (front buf (omega (arith, len))))

  whole :
      of_le (slice 32 36 buf) ≡ crc32c (take 32 buf)
      → slice 0 4 buf ≡ magic
      → buf ≡ marshal_handshake (fields_of buf)
  unfolding marshal_handshake
  whole sum start = rw (same_head start, same_sum sum) (sym (take-append-drop 32 buf))

  features_lt : of_le (slice 8 16 buf) < 2 ^ 64
  unfolding slice capacity
  features_lt =
      rw (length-take-drop 8 8 buf (omega (arith, len))) at
        (of_le-lt (take 8 (drop 8 buf)) (All-take IsByte 8 _ (All-drop IsByte 8 buf all)))

  nonce_length : length (slice 16 32 buf) ≡ 16
  unfolding slice
  nonce_length = length-take-drop 16 16 buf (omega (arith, len))

  accepted :
      (t : Bytes) {h : Handshake} {rest : Bytes}
      → check_handshake buf t ≡ got h rest
      → (buf ≡ marshal_handshake h) × IsHandshake h × (t ≡ rest)
  unfolding check_handshake
  accepted t {h} {rest} e =
      let (m, e₁) = unless-got _ _ _ t e in
      let (s, e₂) = unless-got _ _ _ t e₁ in
      let (j, e₃) = unless-got _ _ _ t e₂ in
      let (c, e₄) = unless-got _ _ _ t e₃ in
      let (f, e₅) = unless-got _ _ _ t e₄ in
      let built : (fields_of buf ≡ h) × (t ≡ rest) = unfold pure in (cc e₅, cc e₅) in
      let valid : IsHandshake (fields_of buf) = record {
        major = not_eq_false _ _ j;
        cipher = not_eq_false _ _ c;
        flags = not_eq_false _ _ f;
        feature_bits = features_lt;
        nonce = nonce_length;
      } in
      let bytes_are : buf ≡ marshal_handshake (fields_of buf) =
        whole (not_eq_false _ _ s) (bytes_eq→eq _ _ (not-false _ m)) in
      (
        subst (λ g. buf ≡ marshal_handshake g) built.0 bytes_are,
        subst IsHandshake built.0 valid,
        built.1,
      )

-- If ReadHandshake accepts a stream of bytes, then the stream begins with the 36 bytes that
-- WriteHandshake writes for the handshake returned, the reader stands behind them, and the
-- handshake is one that this build speaks.
pub read_handshake_canonical :
    (s : Bytes) {h : Handshake} {rest : Bytes}
    → IsBytes s
    → read_handshake s ≡ got h rest
    → (s ≡ marshal_handshake h ++ rest) × IsHandshake h
unfolding read_handshake
read_handshake_canonical s {h} {rest} all e =
    let (buf, t, full, checked) = bind-got (read_full 36) check_handshake s e in
    let (b, r, len) = read_full-got 36 s full in
    let (bytes_are, valid, same) =
      accepted buf len (subst IsBytes (sym b) (All-take IsByte 36 s all)) t checked in
    (
      sym (take-append-drop 36 s)
          ∙ ap₂ (λ x y. x ++ y) (sym b) (sym r)
          ∙ ap₂ (λ x y. x ++ y) bytes_are same,
      valid,
    )
