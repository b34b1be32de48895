-- ===== src/Paths/Jail.antt =====
-- A path that RelOK accepts stays below the directory that it is taken from.
use botjim.Prelude.{
  ◌<◌, ◌≤◌, ◌≡◌, ◌∙◌, refl, sym, arith, false, ◌||◌, List, [], ◌∷◌, ◌++◌, Bytes, length, ◌==◌,
  if◌then◌else◌, none, All, All-append, length-append, append_assoc, Bool-cases, inl, inr,
}
use botjim.Protocol.Handshake.{bytes_eq}
use botjim.Protocol.HandshakeLaws.{bytes_eq→eq}
use botjim.Paths.{dot, dot_dot, max_component, components, components_ok, rel_ok}

-- Where a system resolves the components, lexically, from the directory `at`: its names from the
-- root, the last first.
abbrev pub resolve : List Bytes → List Bytes → List Bytes
resolve at [] = at
resolve at (c ∷ cs) = resolve (step c at) cs
  where
    parent : List Bytes → List Bytes
    parent [] = []
    parent (d ∷ ds) = ds

    step : Bytes → List Bytes → List Bytes
    step c at =
        if length c == 0 || bytes_eq c dot
        then at
        else if bytes_eq c dot_dot
        then parent at
        else c ∷ at

-- A component that names an entry of a directory.
pub record IsName (c : Bytes) : Type 0 where
  pub some_bytes : 0 < length c
  pub fits : length c ≤ max_component
  pub no_dot : bytes_eq c dot ≡ false
  pub no_dot_dot : bytes_eq c dot_dot ≡ false

components_ok-IsName : (cs : List Bytes) → components_ok cs ≡ none → All IsName cs
unfolding components_ok
components_ok-IsName [] h = tt
components_ok-IsName (c ∷ cs) h = (
  record {
    some_bytes = ground arith;
    fits = ground arith;
    no_dot = ground arith;
    no_dot_dot = ground arith;
  },
  components_ok-IsName cs (ground arith),
)

-- Names lead down, one directory each.
resolve-names :
    (at cs : List Bytes)
    → All IsName cs
    → (ds : List Bytes) × (resolve at cs ≡ ds ++ at) × All IsName ds × (length ds ≡ length cs)
resolve-names at [] h = ([], refl, tt, refl)
resolve-names at (c ∷ cs) (n, h) =
    let (ds, e, names, count) = resolve-names (c ∷ at) cs h in
    let empty : (length c == 0) ≡ false = ground (arith, n.some_bytes) in
    (
      ds ++ (c ∷ []),
      rw (empty, n.no_dot, n.no_dot_dot) (e ∙ sym (append_assoc ds (c ∷ []) at)),
      All-append IsName ds (c ∷ []) names (n, tt),
      omega (arith, count, length-append ds (c ∷ [])),
    )

stays : (at : List Bytes) → resolve at (components dot) ≡ at
unfolding components bytes_eq
stays at = refl

checked :
    (rel : Bytes)
    → rel_ok rel ≡ none
    → bytes_eq rel dot ≡ false
    → components_ok (components rel) ≡ none
unfolding rel_ok
checked rel h other = ground arith

-- A path that RelOK accepts, resolved from a directory, leads to that directory or to one below it:
-- the way down is a list of names, none of them empty, "." or ".." or longer than 255 bytes.
pub rel_ok_jail :
    (at : List Bytes) (rel : Bytes)
    → rel_ok rel ≡ none
    → (ds : List Bytes) × (resolve at (components rel) ≡ ds ++ at) × All IsName ds
rel_ok_jail at rel h = elim (Bool-cases (bytes_eq rel dot)) [
  | inl lone ↦ ([], rw (bytes_eq→eq rel dot lone) (stays at), tt)
  | inr other ↦
      let (ds, e, names, count) =
        resolve-names at (components rel)
          (components_ok-IsName (components rel) (checked rel h other)) in
      (ds, e, names)
]
