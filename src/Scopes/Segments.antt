-- ===== src/Scopes/Segments.antt =====
-- A scope is the path of its segments, each behind a slash, with a slash at the end.
use fractalbits.Base.{◌≡◌, refl, sym, subst, ◌≢◌, ◌↔◌, true, List, [], ◌∷◌, ◌++◌, arith, All}
use fractalbits.Base.Text.{IsFree, starts_with}
use fractalbits.Scopes.{Chars, in_scope}

abbrev pub body : List Chars → Chars
body [] = []
body (s ∷ segments) = s ++ 47 ∷ body segments

-- The path of some segments.
abbrev pub path_of : List Chars → Chars
path_of segments = 47 ∷ body segments

-- The name of a directory: not empty, without a slash, and neither `.` nor `..`.
abbrev pub IsName : Chars → Type 0
IsName s = IsFree 47 s × (s ≢ []) × (s ≢ 46 ∷ []) × (s ≢ 46 ∷ 46 ∷ [])

starts_with-body :
    (s t a b : Chars)
    → IsFree 47 s
    → IsFree 47 t
    → starts_with (s ++ 47 ∷ a) (t ++ 47 ∷ b) ≡ true
    → (s ≡ t) × (starts_with a b ≡ true)
unfolding starts_with
starts_with-body [] [] a b f g h = (refl, ground (arith, h))
starts_with-body [] (y ∷ t) a b f g h = absurd (ground (arith, g, h))
starts_with-body (x ∷ s) [] a b f g h = absurd (ground (arith, f, h))
starts_with-body (x ∷ s) (y ∷ t) a b f g h =
    let (same, rest) = starts_with-body s t a b f.1 g.1 (ground (arith, h)) in
    let first : x ≡ y = ground (arith, h) in (cc, rest)

starts_with_refl : (s a b : Chars) → starts_with a b ≡ true → starts_with (s ++ a) (s ++ b) ≡ true
unfolding starts_with
starts_with_refl [] a b h = h
starts_with_refl (x ∷ s) a b h = ground (arith, starts_with_refl s a b h)

-- A directory lies in a scope exactly if the segments of the scope are the first of its own.
pub in_scope_iff :
    (scope key : List Chars)
    → All (IsFree 47) scope
    → All (IsFree 47) key
    → (in_scope (path_of scope) (path_of key) ≡ true)
      ↔ ((rest : List Chars) × (key ≡ scope ++ rest))
unfolding in_scope starts_with
in_scope_iff scope key f g = (
  (λ h. to_ scope key f g (ground (arith, h))),
  λ (rest, e).
      ground
        (arith, subst (λ k. starts_with (body scope) (body k) ≡ true) (sym e) (from scope rest)),
)
  where
    to_ :
        (a b : List Chars)
        → All (IsFree 47) a
        → All (IsFree 47) b
        → starts_with (body a) (body b) ≡ true
        → (rest : List Chars) × (b ≡ a ++ rest)
    to_ [] b f g h = (b, refl)
    to_ (s ∷ a) [] f g h = absurd (nothing s h)
      where
        nothing : (s : Chars) → starts_with (s ++ 47 ∷ body a) [] ≡ true → ⊥
        nothing [] h = ground (arith, h)
        nothing (x ∷ s) h = ground (arith, h)
    to_ (s ∷ a) (t ∷ b) f g h =
        let (same, inner) = starts_with-body s t (body a) (body b) f.0 g.0 h in
        let (rest, e) = to_ a b f.1 g.1 inner in (rest, cc)

    from : (a rest : List Chars) → starts_with (body a) (body (a ++ rest)) ≡ true
    from [] rest = refl
    from (s ∷ a) rest =
        starts_with_refl s (47 ∷ body a) (47 ∷ body (a ++ rest)) (ground (arith, from a rest))
