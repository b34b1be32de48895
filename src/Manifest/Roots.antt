-- ===== src/Manifest/Roots.antt =====
-- internal/manifest/manifest.go: RelBase, under which path each root of a transfer arrives.
-- `clean` is filepath.Clean and `dir` is filepath.Dir.
use botjim.Prelude.{
  Bool, true, false, List, [], ◌∷◌, ◌++◌, map, Bytes, length, take, drop, if◌then◌else◌, Option,
  none, some,
}
use botjim.Protocol.Handshake.{bytes_eq}
use botjim.Paths.{slash, dot, components}

-- strings.Join(parts, "/")
unfoldable pub joined : List Bytes → Bytes
joined [] = []
joined (c ∷ []) = c
joined (c ∷ d ∷ cs) = c ++ (slash ∷ joined (d ∷ cs))

-- `parts[:n]`, where `n` counts the components that agree.
unfoldable pub agreeing : List Bytes → List Bytes → List Bytes
unfolding bytes_eq
agreeing (c ∷ cs) (d ∷ ds) = let rest = agreeing cs ds in if bytes_eq c d then c ∷ rest else []
agreeing _ _ = []

-- The loop over `ps[1:]`.
unfoldable pub narrowed : List Bytes → List Bytes → List Bytes
unfolding agreeing components
narrowed parts [] = parts
narrowed parts (p ∷ ps) = narrowed (agreeing parts (components p)) ps

abbrev pub rejoined : List Bytes → Bytes
rejoined [] = slash ∷ []
rejoined (c ∷ cs) = joined (c ∷ cs)

-- RelBase calls it with a root at least.
unfoldable pub common_ancestor : (Bytes → Bytes) → List Bytes → Bytes
unfolding narrowed joined
common_ancestor dir [] = []
common_ancestor dir (p ∷ []) = dir p
common_ancestor dir (p ∷ q ∷ ps) = rejoined (narrowed (components p) (q ∷ ps))

-- strings.TrimPrefix
unfoldable pub trimmed : Bytes → Bytes → Bytes
unfolding bytes_eq
trimmed p prefix = if bytes_eq (take (length prefix) p) prefix then drop (length prefix) p else p

abbrev pub or_dot : Bytes → Bytes
or_dot [] = dot
or_dot (b ∷ p) = b ∷ p

unfoldable pub has_root : List Bytes → Bool
unfolding bytes_eq
has_root [] = false
has_root (c ∷ cs) = let rest = has_root cs in if bytes_eq c (slash ∷ []) then true else rest

-- Each root with its base, or `none` for no roots or the root of the file system.
unfoldable pub rel_base :
    (Bytes → Bytes) → (Bytes → Bytes) → List Bytes → Option (List (Bytes × Bytes))
unfolding common_ancestor trimmed has_root
rel_base clean dir [] = none
rel_base clean dir (r ∷ rs) =
    let anc = common_ancestor dir (map clean (r ∷ rs)) in
    if has_root (map clean (r ∷ rs))
    then none
    else some (map (λ q. (q, or_dot (trimmed (trimmed (clean q) anc) (slash ∷ [])))) (r ∷ rs))
