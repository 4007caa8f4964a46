-- ===== src/Scopes/Examples.antt =====
-- The scopes `/a/`, `/a/b/` and `/`.
use fractalbits.Base.{some, ◌≡◌, ◌↔◌, ◌⊎◌, true, List, [], ◌∷◌, ◌++◌, arith, All}
use fractalbits.Scopes.{root_scope, Chars, in_scope, scope_ancestors}
use fractalbits.Scopes.Segments.{path_of, IsName, in_scope_iff}
use fractalbits.Scopes.Normal.{normalize_scope_accepts, normalize_scope-path_of}
use fractalbits.Scopes.Ancestors.{scope_ancestors-path_of}

abbrev one : List Chars
one = (97 ∷ []) ∷ []

abbrev two : List Chars
two = (97 ∷ []) ∷ (98 ∷ []) ∷ []

in_scope_iff_example :
    (in_scope (path_of one) (path_of two) ≡ true) ↔ ((rest : List Chars) × (two ≡ one ++ rest))
in_scope_iff_example =
    in_scope_iff one two ((ground arith, tt), tt) ((ground arith, tt), ((ground arith, tt), tt))

two_names : All IsName two
two_names = (
  ((ground arith, tt), (λ e. cc), (λ e. ground (arith, e)), λ e. cc),
  (((ground arith, tt), (λ e. cc), (λ e. ground (arith, e)), λ e. cc), tt),
)

normalize_scope-path_of_example :
    ((segments : List Chars) × All IsName segments × (path_of two ≡ path_of segments))
    × ((path_of two ≡ path_of two) ⊎ ((path_of two ≡ []) × (path_of two ≡ root_scope)))
normalize_scope-path_of_example =
    normalize_scope-path_of (path_of two) (path_of two) (normalize_scope_accepts two two_names)

scope_ancestors-path_of_example :
    scope_ancestors (path_of two) ≡ some (path_of one ∷ path_of two ∷ [])
scope_ancestors-path_of_example =
    scope_ancestors-path_of two ((ground arith, tt), ((ground arith, tt), tt))
