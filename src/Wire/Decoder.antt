-- ===== src/Wire/Decoder.antt =====
-- internal/protocol/protocol.go: the `dec` cursor with its sticky error, as a state monad. A
-- decoder's early `return ..., fmt.Errorf(...)` is `stop`; a getter that meets the end of the
-- input records the first error and returns zero values, and the decoder goes on.
use botjim.Prelude.{
  ℕ, zero, suc, Bool, true, false, Option, none, some, List, [], ◌∷◌, Bytes, length, take, drop,
  ltb, if◌then◌else◌,
}
use botjim.Prelude.Int.{ℤ}
use botjim.Wire.Varint.{uvarint, unzigzag}
use botjim.Wire.Words.{of_le}

-- The errors of the package, without their texts.
pub data Fault : Type 0 where
  short_u8 short_u16 short_u32 short_u64 bad_uvarint bad_varint short_bytes short_hash : Fault
  too_many_paths too_many_xattrs too_many_hashes batch_too_large list_too_large : ℕ → Fault
  bad_direction bad_kind : ℕ → Fault

pub record Decoder : Type 0 where
  pub b : Bytes
  pub err : Option Fault

pub data Outcome (A : Type 0) : Type 0 where
  read : A → Decoder → Outcome A
  stop : Fault → Outcome A

abbrev pub M : Type 0 → Type 0
M A = Decoder → Outcome A

-- Shut on purpose: the rules of Wire/Reads match on the shape of a `do` block.
infixl 5 ◌>>=◌
unfoldable pub ◌>>=◌ : {A B : Type 0} → M A → (A → M B) → M B
◌>>=◌ m f d = elim (m d) [ read a d' ↦ f a d' | stop e ↦ stop e ]

unfoldable pub pure : {A : Type 0} → A → M A
pure a d = read a d

unfoldable pub refuse : {A : Type 0} → Fault → M A
refuse e d = stop e

-- `d.fail` keeps the first error.
unfoldable pub fail : Fault → Decoder → Decoder
fail e d = elim d.err [ none ↦ record d { err = some e } | some first ↦ d ]

-- A word of `n` bytes: `short` where fewer are left.
unfoldable pub word : ℕ → Fault → M ℕ
unfolding fail
word n short d = elim d.err [
  | some first ↦ read 0 d
  | none ↦
      if ltb (length d.b) n
      then read 0 (fail short d)
      else read (of_le (take n d.b)) (record d { b = drop n d.b })
]

unfoldable pub u8 : M ℕ
unfolding word
u8 = word 1 short_u8

unfoldable pub u16 : M ℕ
unfolding word
u16 = word 2 short_u16

unfoldable pub u32 : M ℕ
unfolding word
u32 = word 4 short_u32

unfoldable pub u64 : M ℕ
unfolding word
u64 = word 8 short_u64

unfoldable pub groups : Fault → M ℕ
unfolding fail
groups bad d = elim d.err [
  | some first ↦ read 0 d
  | none ↦ elim (uvarint d.b) [
    | none ↦ read 0 (fail bad d)
    | some (v, rest) ↦ read v (record d { b = rest })
  ]
]

unfoldable pub uv : M ℕ
unfolding groups
uv = groups bad_uvarint

unfoldable pub sv : M ℤ
unfolding groups ◌>>=◌ pure
sv = groups bad_varint >>= λ u. pure (unzigzag u)

unfoldable pub taken : ℕ → M Bytes
unfolding fail
taken n d =
    if ltb (length d.b) n
    then read [] (fail short_bytes d)
    else read (take n d.b) (record d { b = drop n d.b })

unfoldable pub bytes : M Bytes
unfolding uv taken ◌>>=◌
bytes d = elim d.err [ some first ↦ read [] d | none ↦ (uv >>= taken) d ]

abbrev pub str : M Bytes
str = bytes

-- `for i := 0; i < n; i++ { out = append(out, <one>) }`
unfoldable pub repeat : {A : Type 0} → ℕ → M A → M (List A)
unfolding ◌>>=◌ pure
repeat zero one = pure []
repeat (suc n) one = one >>= λ a. (repeat n one >>= λ rest. pure (a ∷ rest))

-- `if <bad> { return m, fmt.Errorf(...) }`
unfoldable pub unless : {A : Type 0} → Bool → Fault → M A → M A
unless true e m d = stop e
unless false e m d = m d

pub data Result (A : Type 0) : Type 0 where
  ok : A → Result A
  err : Fault → Result A

-- `return m, d.err`. The half-filled value beside an error is dropped: no caller reads it.
unfoldable pub close : {A : Type 0} → A → Decoder → Result A
close a d = elim d.err [ none ↦ ok a | some e ↦ err e ]

abbrev pub fresh : Bytes → Decoder
fresh p = record { b = p; err = none }

unfoldable pub decode : {A : Type 0} → M A → Bytes → Result A
unfolding close
decode m p = elim (m (fresh p)) [ read a d ↦ close a d | stop e ↦ err e ]
