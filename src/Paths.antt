-- ===== src/Paths.antt =====
-- internal/fsutil/fsutil.go: RelOK, which every path from a peer goes through, and the exclusion
-- patterns of internal/manifest/manifest.go.
pub mod Jail
mod Tests
use botjim.Prelude.{
  ℕ, zero, suc, ◌+◌, ◌<◌, ◌≤◌, ◌≡◌, Bool, true, false, not, ◌&&◌, ◌||◌, List, [], ◌∷◌, Bytes,
  length, ◌==◌, ltb, if◌then◌else◌, Option, none, some,
}
use botjim.Protocol.Handshake.{bytes_eq}

abbrev pub slash : ℕ
slash = 47

abbrev pub dot : Bytes
dot = 46 ∷ []

abbrev pub dot_dot : Bytes
dot_dot = 46 ∷ 46 ∷ []

abbrev pub max_component : ℕ
max_component = 255

abbrev pub max_path : ℕ
max_path = 4096

pub data PathFault : Type 0 where
  empty_path too_long has_nul absolute empty_component dot_component long_component : PathFault

unfoldable pub contains : ℕ → Bytes → Bool
contains b [] = false
contains b (c ∷ p) = b == c || contains b p

-- strings.HasPrefix(p, "/")
unfoldable pub rooted : Bytes → Bool
rooted [] = false
rooted (b ∷ p) = b == slash

abbrev pub push : ℕ → List Bytes → List Bytes
push b [] = (b ∷ []) ∷ []
push b (c ∷ cs) = (b ∷ c) ∷ cs

-- strings.Split(p, "/")
unfoldable pub components : Bytes → List Bytes
components [] = [] ∷ []
components (b ∷ p) = let rest = components p in if b == slash then [] ∷ rest else push b rest

-- The loop over the components.
unfoldable pub components_ok : List Bytes → Option PathFault
unfolding bytes_eq
components_ok [] = none
components_ok (c ∷ cs) =
    let rest = components_ok cs in
    if length c == 0
    then some empty_component
    else if bytes_eq c dot || bytes_eq c dot_dot
    then some dot_component
    else if ltb max_component (length c)
    then some long_component
    else rest

-- `none` is no error.
unfoldable pub rel_ok : Bytes → Option PathFault
unfolding bytes_eq
rel_ok rel =
    if length rel == 0
    then some empty_path
    else if bytes_eq rel dot
    then none
    else if ltb max_path (length rel)
    then some too_long
    else if contains 0 rel
    then some has_nul
    else if rooted rel
    then some absolute
    else components_ok (components rel)

-- `matches` is path.Match, where an error of the pattern is no match.
unfoldable pub any_component : (Bytes → Bytes → Bool) → Bytes → List Bytes → Bool
any_component matches pat [] = false
any_component matches pat (c ∷ cs) =
    let rest = any_component matches pat cs in if matches pat c then true else rest

-- A pattern with a slash is for the whole path, another for any component.
unfoldable pub excluded : (Bytes → Bytes → Bool) → Bytes → List Bytes → Bool
unfolding contains components any_component
excluded matches rel [] = false
excluded matches rel (pat ∷ pats) =
    let rest = excluded matches rel pats in
    if contains slash pat
    then (if matches pat rel then true else rest)
    else if any_component matches pat (components rel)
    then true
    else rest
