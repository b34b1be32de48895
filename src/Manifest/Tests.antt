-- ===== src/Manifest/Tests.antt =====
-- RelBase at concrete values.
use botjim.Prelude.{◌≡◌, refl, [], ◌∷◌, Bytes, none, some}
use botjim.Manifest.Roots.{rel_base}

abbrev as_is : Bytes → Bytes
as_is p = p

abbrev parent_a : Bytes → Bytes
parent_a p = 47 ∷ 97 ∷ []

-- "/a/b" and "/a/c" go under "b" and "c".
siblings :
    rel_base as_is parent_a ((47 ∷ 97 ∷ 47 ∷ 98 ∷ []) ∷ (47 ∷ 97 ∷ 47 ∷ 99 ∷ []) ∷ [])
    ≡ some ((47 ∷ 97 ∷ 47 ∷ 98 ∷ [], 98 ∷ []) ∷ (47 ∷ 97 ∷ 47 ∷ 99 ∷ [], 99 ∷ []) ∷ [])
unfolding rel_base
siblings = refl

-- "/a/b" alone goes under "b": the ancestor is its directory.
alone :
    rel_base as_is parent_a ((47 ∷ 97 ∷ 47 ∷ 98 ∷ []) ∷ [])
    ≡ some ((47 ∷ 97 ∷ 47 ∷ 98 ∷ [], 98 ∷ []) ∷ [])
unfolding rel_base
alone = refl

file_system : rel_base as_is parent_a ((47 ∷ []) ∷ []) ≡ none
unfolding rel_base
file_system = refl
