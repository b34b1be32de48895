-- ===== src/Sidecar/Names.antt =====
-- internal/sidecar/sidecar.go: the names of a part file and of its sidecar.
use botjim.Prelude.{
  ℕ, ◌≡◌, ◌∙◌, refl, Bool, true, false, [], ◌∷◌, ◌++◌, Bytes, length, take, drop, ◌==◌,
  if◌then◌else◌, Option, none, some, All,
}
use botjim.Protocol.Handshake.{bytes_eq}

-- ".fs-part-"
abbrev pub part_prefix : Bytes
part_prefix = 46 ∷ 102 ∷ 115 ∷ 45 ∷ 112 ∷ 97 ∷ 114 ∷ 116 ∷ 45 ∷ []

-- ".fs-meta-"
abbrev pub meta_prefix : Bytes
meta_prefix = 46 ∷ 102 ∷ 115 ∷ 45 ∷ 109 ∷ 101 ∷ 116 ∷ 97 ∷ 45 ∷ []

-- ".json"
abbrev pub json : Bytes
json = 46 ∷ 106 ∷ 115 ∷ 111 ∷ 110 ∷ []

unfoldable pub part_path : Bytes → Bytes → Bytes
part_path final nonce = final ++ (part_prefix ++ nonce)

unfoldable pub meta_path : Bytes → Bytes → Bytes
meta_path final nonce = final ++ (meta_prefix ++ (nonce ++ json))

unfoldable pub starts_part : Bytes → Bool
unfolding bytes_eq
starts_part p = bytes_eq (take (length part_prefix) p) part_prefix

abbrev pub behind : ℕ → Option (Bytes × Bytes) → Option (Bytes × Bytes) → Option (Bytes × Bytes)
behind b (some (front, rest)) here = some (b ∷ front, rest)
behind b none here = here

-- What stands in front of the last PartPrefix and behind it: strings.LastIndex and the two slices.
unfoldable pub split_last : Bytes → Option (Bytes × Bytes)
unfolding starts_part
split_last [] = none
split_last (b ∷ p) =
    behind b (split_last p)
      (if starts_part (b ∷ p) then some ([], drop (length part_prefix) (b ∷ p)) else none)

abbrev pub named : Bytes → Option (Bytes × Bytes) → Bytes
named p (some (final, nonce)) = meta_path final nonce
named p none = p ++ json

unfoldable pub meta_path_for_part : Bytes → Bytes
unfolding split_last meta_path
meta_path_for_part p = named p (split_last p)

abbrev pub NotDot : ℕ → Type 0
NotDot b = (b == 46) ≡ false

no_part_starts : (b : ℕ) (p : Bytes) → NotDot b → starts_part (b ∷ p) ≡ false
unfolding starts_part
no_part_starts b p h = rw h

no_part : (p : Bytes) → All NotDot p → split_last p ≡ none
unfolding split_last
no_part [] h = refl
no_part (b ∷ p) (d, h) = rw (no_part p h, no_part_starts b p d)

split_last-cons :
    (b : ℕ) (p : Bytes)
    → split_last (b ∷ p)
      ≡ behind b
          (split_last p)
          (if starts_part (b ∷ p) then some ([], drop (length part_prefix) (b ∷ p)) else none)
unfolding split_last
split_last-cons b p = refl

starts : (nonce : Bytes) → starts_part (part_prefix ++ nonce) ≡ true
unfolding starts_part bytes_eq
starts nonce = refl

whole_prefix :
    (nonce : Bytes) → All NotDot nonce → split_last (part_prefix ++ nonce) ≡ some ([], nonce)
whole_prefix nonce h =
    let tail_none : split_last (102 ∷ 115 ∷ 45 ∷ 112 ∷ 97 ∷ 114 ∷ 116 ∷ 45 ∷ nonce) ≡ none =
      no_part _ (refl, (refl, (refl, (refl, (refl, (refl, (refl, (refl, h)))))))) in
    split_last-cons 46 _ ∙ rw (tail_none, starts nonce)

split_last-part :
    (final nonce : Bytes)
    → All NotDot nonce
    → split_last (part_path final nonce) ≡ some (final, nonce)
unfolding split_last part_path
split_last-part [] nonce h = whole_prefix nonce h
split_last-part (b ∷ final) nonce h = rw (split_last-part final nonce h)

-- For a nonce without a dot, which hexadecimal digits are: the sidecar's name derived from the name
-- of a part file is the one that MetaPath gives for the same file and nonce, whatever the file's
-- name contains.
pub meta_path_for_part_lem :
    (final nonce : Bytes)
    → All NotDot nonce
    → meta_path_for_part (part_path final nonce) ≡ meta_path final nonce
unfolding meta_path_for_part
meta_path_for_part_lem final nonce h = rw (split_last-part final nonce h)
