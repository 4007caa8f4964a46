-- ===== src/Scopes/Ancestors.antt =====
-- The directories that are made for a scope: the one of every first part of its path.
use fractalbits.Base.{some, ◌≡◌, refl, sym, ap, ◌∙◌, false, List, [], ◌∷◌, ◌++◌, arith, ◌==◌, All}
use mathlib.Core.List.{append_assoc}
use fractalbits.Base.Bytes.{bytes_eq}
use fractalbits.Base.Text.{IsFree}
use fractalbits.Scopes.{Chars, root_scope, ancestors_from, scope_ancestors}
use fractalbits.Scopes.Segments.{body, path_of}

-- The paths of the directories above `rest`, `above` being the names that precede it.
abbrev pub paths_below : List Chars → List Chars → List Chars
paths_below above [] = []
paths_below above (s ∷ rest) = path_of (above ++ s ∷ []) ∷ paths_below (above ++ s ∷ []) rest

body-append :
    (above : List Chars) (s : Chars) → body (above ++ s ∷ []) ≡ body above ++ (s ++ 47 ∷ [])
body-append [] s = refl
body-append (t ∷ above) s =
    ap (λ l. t ++ 47 ∷ l) (body-append above s)
    ∙ sym (append_assoc t (47 ∷ body above) (s ++ 47 ∷ []))

ancestors_from_segment :
    (before s cs : Chars)
    → IsFree 47 s
    → ancestors_from before (s ++ 47 ∷ cs)
      ≡ (before ++ (s ++ 47 ∷ [])) ∷ ancestors_from (before ++ (s ++ 47 ∷ [])) cs
unfolding ancestors_from
ancestors_from_segment before [] cs f = refl
ancestors_from_segment before (x ∷ s) cs f =
    let apart : (x == 47) ≡ false = ground (arith, f) in
    let shift : (before ++ x ∷ []) ++ (s ++ 47 ∷ []) ≡ before ++ (x ∷ (s ++ 47 ∷ [])) =
      append_assoc before (x ∷ []) (s ++ 47 ∷ []) in
    rw apart
      (ancestors_from_segment (before ++ x ∷ []) s cs f.1 ∙ ap (λ b. b ∷ ancestors_from b cs) shift)

ancestors_from-body :
    (above segments : List Chars)
    → All (IsFree 47) segments
    → ancestors_from (path_of above) (body segments) ≡ paths_below above segments
ancestors_from-body above [] f = unfold ancestors_from in refl
ancestors_from-body above (s ∷ rest) f =
    let next : path_of above ++ (s ++ 47 ∷ []) ≡ path_of (above ++ s ∷ []) =
      ap (◌∷◌ 47) (sym (body-append above s)) in
    ancestors_from_segment (path_of above) s (body rest) f.0
    ∙ ap (λ b. b ∷ ancestors_from b (body rest)) next
    ∙ ap (◌∷◌ (path_of (above ++ s ∷ []))) (ancestors_from-body (above ++ s ∷ []) rest f.1)

-- The ancestors of a scope are the paths of the first one, two and so on of its names, in this
-- order, the scope itself being the last; the root has none.
pub scope_ancestors-path_of :
    (segments : List Chars)
    → All (IsFree 47) segments
    → scope_ancestors (path_of segments) ≡ some (paths_below [] segments)
unfolding scope_ancestors
scope_ancestors-path_of [] f = refl
scope_ancestors-path_of (s ∷ rest) f = rw (longer s) (ap some (ancestors_from-body [] (s ∷ rest) f))
  where
    longer : (s : Chars) → bytes_eq (path_of (s ∷ rest)) root_scope ≡ false
    longer [] = refl
    longer (x ∷ s) = refl
