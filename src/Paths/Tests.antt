-- ===== src/Paths/Tests.antt =====
-- Paths at concrete values.
use botjim.Prelude.{◌≡◌, refl, true, List, [], ◌∷◌, ◌++◌, Bytes, none, some, All}
use botjim.Paths.{components, rel_ok, dot_component, absolute, empty_component, excluded}
use botjim.Paths.Jail.{resolve, IsName, rel_ok_jail}
use botjim.Protocol.Handshake.{bytes_eq}

-- "a/b"
abbrev nested : Bytes
nested = 97 ∷ 47 ∷ 98 ∷ []

nested_ok : rel_ok nested ≡ none
unfolding rel_ok botjim.Paths.contains botjim.Paths.rooted botjim.Paths.components_ok components
nested_ok = refl

-- "a/../b"
climbing : rel_ok (97 ∷ 47 ∷ 46 ∷ 46 ∷ 47 ∷ 98 ∷ []) ≡ some dot_component
unfolding rel_ok botjim.Paths.contains botjim.Paths.rooted botjim.Paths.components_ok components
climbing = refl

-- "/a" and "a/"
rooted_path : rel_ok (47 ∷ 97 ∷ []) ≡ some absolute
unfolding rel_ok botjim.Paths.contains botjim.Paths.rooted
rooted_path = refl

trailing_slash : rel_ok (97 ∷ 47 ∷ []) ≡ some empty_component
unfolding rel_ok botjim.Paths.contains botjim.Paths.rooted botjim.Paths.components_ok components
trailing_slash = refl

bare_name_excludes : excluded bytes_eq nested ((98 ∷ []) ∷ []) ≡ true
unfolding excluded bytes_eq
bare_name_excludes = refl

rel_ok_jail_example :
    (ds : List Bytes) × (resolve ((120 ∷ []) ∷ []) (components nested) ≡ ds ++ ((120 ∷ []) ∷ []))
    × All IsName ds
rel_ok_jail_example = rel_ok_jail ((120 ∷ []) ∷ []) nested nested_ok
