-- ===== src/Protocol/HandshakeLaws.antt =====
-- ReadHandshake accepts what WriteHandshake writes, and nothing else.
use Prim.Native.Nat.{bit_and}
use mathlib.Core.Path.{ap₂}
use botjim.Prelude.{
  ℕ, ◌-◌, ◌^◌, ◌<◌, ◌≤◌, ◌≡◌, ◌∙◌, refl, arith, true, false, not, [], ◌∷◌, ◌++◌, Bytes, length,
  length-append, take, drop, ◌==◌,
}
use botjim.Wire.Words.{le_bytes, of_le, of_le-le_bytes, length-le_bytes, capacity}
use botjim.Wire.Reads.{take-append, drop-append}
use botjim.Wire.Crc.{crc32c, crc32c-lt}
use botjim.Wire.Stream.{got, read_full, pure, unless-false, bind-eq, Takes-read_full}
use botjim.Protocol.Handshake.{
  magic, supported_major, cipher_plain, known_flags, Handshake, handshake_head, marshal_handshake,
  bytes_eq, slice, check_handshake, read_handshake,
}

-- A handshake that this build speaks.
pub record IsHandshake (h : Handshake) : Type 0 where
  pub major : h.proto_major ≡ supported_major
  pub cipher : h.cipher_id ≡ cipher_plain
  pub flags : bit_and h.flags (255 - known_flags) ≡ 0
  pub feature_bits : h.feature_bits < 2 ^ 64
  pub nonce : length h.nonce ≡ 16

pub bytes_eq→eq : (a b : Bytes) → bytes_eq a b ≡ true → a ≡ b
unfolding bytes_eq
bytes_eq→eq [] [] h = refl
bytes_eq→eq [] (y ∷ ys) h = cc
bytes_eq→eq (x ∷ xs) [] h = cc
bytes_eq→eq (x ∷ xs) (y ∷ ys) h = ground (arith, bytes_eq→eq xs ys)

pub bytes_eq_self : (p : Bytes) → bytes_eq p p ≡ true
unfolding bytes_eq
bytes_eq_self [] = refl
bytes_eq_self (b ∷ p) = ground (arith, bytes_eq_self p)

take_whole : (n : ℕ) (p q : Bytes) → length p ≡ n → take n (p ++ q) ≡ p
take_whole n p q h = rw h at (take-append p q)

drop_whole : (n : ℕ) (p q : Bytes) → length p ≡ n → drop n (p ++ q) ≡ q
drop_whole n p q h = rw h at (drop-append p q)

pass : (a b : ℕ) → a ≡ b → not (a == b) ≡ false
pass a b h = ground arith

module _ (h : Handshake) (v : IsHandshake h) where
  length_head : length (handshake_head h) ≡ 32
  unfolding handshake_head le_bytes
  length_head = omega (arith, v.nonce)

  length_marshal : length (marshal_handshake h) ≡ 36
  unfolding marshal_handshake
  length_marshal = omega (
    arith,
    length-append (handshake_head h) (le_bytes 4 (crc32c (handshake_head h))),
    length_head,
    length-le_bytes 4 (crc32c (handshake_head h)),
  )

  the_sum : of_le (slice 32 36 (marshal_handshake h)) ≡ crc32c (take 32 (marshal_handshake h))
  unfolding marshal_handshake slice le_bytes
  the_sum =
      let sum = crc32c (handshake_head h) in
      rw
        (
          drop_whole 32 (handshake_head h) (le_bytes 4 sum) length_head,
          take_whole 32 (handshake_head h) (le_bytes 4 sum) length_head,
        )
        (of_le-le_bytes 4 sum (unfold capacity in crc32c-lt (handshake_head h)))

  features : of_le (slice 8 16 (marshal_handshake h)) ≡ h.feature_bits
  unfolding marshal_handshake handshake_head le_bytes slice
  features = of_le-le_bytes 8 h.feature_bits (unfold capacity in v.feature_bits)

  the_nonce : slice 16 32 (marshal_handshake h) ≡ h.nonce
  unfolding marshal_handshake handshake_head le_bytes slice
  the_nonce = take_whole 16 h.nonce (le_bytes 4 (crc32c (handshake_head h))) v.nonce

  magic_right : not (bytes_eq (slice 0 4 (marshal_handshake h)) magic) ≡ false
  unfolding marshal_handshake handshake_head le_bytes slice bytes_eq
  magic_right = refl

  checked : (rest : Bytes) → check_handshake (marshal_handshake h) rest ≡ got h rest
  unfolding check_handshake marshal_handshake handshake_head pure
  checked rest =
      let buf = marshal_handshake h in
      unless-false _ _ _ rest magic_right
      ∙ unless-false _ _ _ rest (pass _ _ the_sum)
      ∙ unless-false _ _ _ rest (pass _ _ v.major)
      ∙ unless-false _ _ _ rest (pass _ _ v.cipher)
      ∙ unless-false _ _ _ rest (pass _ _ v.flags)
      ∙ ap₂ (λ f n. got (record h { feature_bits = f; nonce = n }) rest) features the_nonce

  -- A handshake that this build speaks is read back as it was written, and the stream goes on
  -- behind it.
  pub handshake_roundtrip :
      (rest : Bytes) → read_handshake (marshal_handshake h ++ rest) ≡ got h rest
  unfolding read_handshake
  handshake_roundtrip rest =
      bind-eq (read_full 36) check_handshake _
        ((Takes-read_full 36 (marshal_handshake h) length_marshal).takes rest)
      ∙ checked rest

-- Eight bytes or more, with the first eight named.
pub record Front (p : Bytes) : Type 0 where
  pub b0 : ℕ
  pub b1 : ℕ
  pub b2 : ℕ
  pub b3 : ℕ
  pub b4 : ℕ
  pub b5 : ℕ
  pub b6 : ℕ
  pub b7 : ℕ
  pub behind : Bytes
  pub is : p ≡ b0 ∷ b1 ∷ b2 ∷ b3 ∷ b4 ∷ b5 ∷ b6 ∷ b7 ∷ behind

pub front : (p : Bytes) → 8 ≤ length p → Front p
front (a ∷ b ∷ c ∷ d ∷ e ∷ f ∷ g ∷ h ∷ p) n = record {
  b0 = a;
  b1 = b;
  b2 = c;
  b3 = d;
  b4 = e;
  b5 = f;
  b6 = g;
  b7 = h;
  behind = p;
  is = refl;
}
front [] n = absurd (omega arith)
front (a ∷ []) n = absurd (omega arith)
front (a ∷ b ∷ []) n = absurd (omega arith)
front (a ∷ b ∷ c ∷ []) n = absurd (omega arith)
front (a ∷ b ∷ c ∷ d ∷ []) n = absurd (omega arith)
front (a ∷ b ∷ c ∷ d ∷ e ∷ []) n = absurd (omega arith)
front (a ∷ b ∷ c ∷ d ∷ e ∷ f ∷ []) n = absurd (omega arith)
front (a ∷ b ∷ c ∷ d ∷ e ∷ f ∷ g ∷ []) n = absurd (omega arith)
