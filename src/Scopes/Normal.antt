-- ===== src/Scopes/Normal.antt =====
-- The scopes that are accepted, and the names of their directories.
use fractalbits.Base.{
  subst, ◌⊎◌, ℕ, ◌≡◌, refl, sym, ap, ◌∙◌, ◌↔◌, inl, inr, true, false, List, [], ◌∷◌, ◌++◌, arith,
  ◌==◌, ==→eq, Bool-cases, All,
}
use mathlib.Core.Path.{ap₂}
use mathlib.Core.List.{append_assoc}
use fractalbits.Base.Results.{Result-cases, ok}
use fractalbits.Base.Bytes.{bytes_eq}
use fractalbits.Base.Text.{IsFree}
use fractalbits.Scopes.{
  Chars, root_scope, last_is_slash, drop_last, split, check_segment, check_segments,
  normalize_absolute, normalize_scope,
}
use fractalbits.Scopes.Segments.{body, path_of, IsName}

-- A segment and others behind it, with a slash between two of them.
abbrev inner : Chars → List Chars → Chars
inner s [] = s
inner s (t ∷ rest) = s ++ 47 ∷ inner t rest

body-inner : (s : Chars) (rest : List Chars) → body (s ∷ rest) ≡ inner s rest ++ 47 ∷ []
body-inner s [] = refl
body-inner s (t ∷ rest) =
    ap (λ l. s ++ 47 ∷ l) (body-inner t rest) ∙ sym (append_assoc s (47 ∷ inner t rest) (47 ∷ []))

last_is_slash-append : (xs : Chars) → last_is_slash (xs ++ 47 ∷ []) ≡ true
unfolding last_is_slash
last_is_slash-append [] = refl
last_is_slash-append (x ∷ []) = refl
last_is_slash-append (x ∷ y ∷ xs) = last_is_slash-append (y ∷ xs)

drop_last-append : (xs : Chars) → drop_last (xs ++ 47 ∷ []) ≡ xs
unfolding drop_last
drop_last-append [] = refl
drop_last-append (x ∷ []) = refl
drop_last-append (x ∷ y ∷ xs) = ap (◌∷◌ x) (drop_last-append (y ∷ xs))

-- A text that ends with a slash.
last_is_slash_lem : (xs : Chars) → last_is_slash xs ≡ true → xs ≡ drop_last xs ++ 47 ∷ []
unfolding last_is_slash drop_last
last_is_slash_lem [] h = cc
last_is_slash_lem (x ∷ []) h = ap (λ c. c ∷ []) (==→eq x 47 h)
last_is_slash_lem (x ∷ y ∷ xs) h = ap (◌∷◌ x) (last_is_slash_lem (y ∷ xs) h)

split_free : (s : Chars) → IsFree 47 s → split s ≡ (s, [])
unfolding split
split_free [] f = refl
split_free (c ∷ cs) f =
    let apart : (c == 47) ≡ false = ground (arith, f) in rw apart rw (split_free cs f.1) refl

split-append :
    (s cs : Chars) → IsFree 47 s → split (s ++ 47 ∷ cs) ≡ (s, (split cs).0 ∷ (split cs).1)
unfolding split
split-append [] cs f = refl
split-append (x ∷ s) cs f =
    let apart : (x == 47) ≡ false = ground (arith, f) in rw apart rw (split-append s cs f.1) refl

split-inner :
    (s : Chars) (rest : List Chars)
    → IsFree 47 s
    → All (IsFree 47) rest
    → split (inner s rest) ≡ (s, rest)
split-inner s [] f g = split_free s f
split-inner s (t ∷ rest) f g =
    split-append s (inner t rest) f
    ∙ ap (λ (p : Chars × List Chars). (s, p.0 ∷ p.1)) (split-inner t rest g.0 g.1)

-- Whatever is split is joined again, and the segments have no slash.
inner-split :
    (cs : Chars)
    → (inner (split cs).0 (split cs).1 ≡ cs) × IsFree 47 (split cs).0 × All (IsFree 47) (split cs).1
unfolding split
inner-split [] = (refl, tt, tt)
inner-split (c ∷ cs) =
    let (joined, f, g) = inner-split cs in
    elim (Bool-cases (c == 47)) [
      | inl e ↦ rw e (ap₂ ◌∷◌ (sym (==→eq c 47 e)) joined, tt, (f, g))
      | inr e ↦
          let longer = grown c (split cs).0 (split cs).1 in
          rw e (longer ∙ ap (◌∷◌ c) joined, ((λ k. ground (arith, e, k)), f), g)
    ]
  where
    grown : (c : ℕ) (s : Chars) (rest : List Chars) → inner (c ∷ s) rest ≡ c ∷ inner s rest
    grown c s [] = refl
    grown c s (t ∷ rest) = refl

check_segment-IsName : (s : Chars) → IsFree 47 s → (check_segment s ≡ ok tt) ↔ IsName s
unfolding check_segment
check_segment-IsName [] f = ((λ h. cc), λ (_, ne, _, _). absurd (ne refl))
check_segment-IsName (c ∷ []) f = (
  (λ h. (f, (λ e. cc), (λ e. one (head c [] 46 [] e) h), λ e. cc)),
  λ (_, _, ne, _). elim (Bool-cases (c == 46)) [
    | inl e ↦ absurd (ne (ap (λ x. x ∷ []) (==→eq c 46 e)))
    | inr e ↦ ground (arith, e)
  ],
)
  where
    head : (x : ℕ) (xs : Chars) (y : ℕ) (ys : Chars) → x ∷ xs ≡ y ∷ ys → x ≡ y
    head x xs y ys e = cc

    one : c ≡ 46 → check_segment (c ∷ []) ≡ ok tt → ⊥
    one e h = ground (arith, e, h)
check_segment-IsName (c ∷ d ∷ []) f = (
  (λ h. (f, (λ e. cc), (λ e. cc), λ e. two (first c d e) (second c d e) h)),
  λ (_, _, _, ne). elim (Bool-cases (c == 46)) [
    | inr e ↦ ground (arith, e)
    | inl e ↦ elim (Bool-cases (d == 46)) [
      | inr g ↦ ground (arith, e, g)
      | inl g ↦ absurd (ne (ap₂ (λ (x y : ℕ). x ∷ y ∷ []) (==→eq c 46 e) (==→eq d 46 g)))
    ]
  ],
)
  where
    first : (x y : ℕ) → x ∷ y ∷ [] ≡ 46 ∷ 46 ∷ [] → x ≡ 46
    first x y e = cc

    second : (x y : ℕ) → x ∷ y ∷ [] ≡ 46 ∷ 46 ∷ [] → y ≡ 46
    second x y e = cc

    two : c ≡ 46 → d ≡ 46 → check_segment (c ∷ d ∷ []) ≡ ok tt → ⊥
    two e g h = ground (arith, e, g, h)
check_segment-IsName (c ∷ d ∷ e ∷ cs) f = ((λ h. (f, (λ g. cc), (λ g. cc), λ g. cc)), λ h. refl)

check_segments-IsName :
    (segments : List Chars)
    → All (IsFree 47) segments
    → (check_segments segments ≡ ok tt) ↔ All IsName segments
unfolding check_segments
check_segments-IsName [] f = ((λ h. tt), λ h. refl)
check_segments-IsName (s ∷ rest) f =
    let (to_, from) = check_segment-IsName s f.0 in
    let (all_to, all_from) = check_segments-IsName rest f.1 in
    (
      (λ h. elim (Result-cases (check_segment s)) [
        | inl (e, g) ↦ absurd (ground (arith, g, h))
        | inr (u, g) ↦ (to_ g, all_to (ground (arith, g, h)))
      ]),
      λ (name, names). rw (from name) (all_from names),
    )

-- What is between the first slash and the last one of an accepted text.
accepted_middle :
    (middle s : Chars) (rest : List Chars)
    → split middle ≡ (s, rest)
    → check_segments (s ∷ rest) ≡ ok tt
    → normalize_scope (47 ∷ (middle ++ 47 ∷ [])) ≡ ok (47 ∷ (middle ++ 47 ∷ []))
unfolding normalize_scope normalize_absolute
accepted_middle middle s rest e h =
    ground
      (arith, not_empty middle, last_is_slash-append (47 ∷ middle), drop_last-append middle, e, h)
  where
    not_empty : (xs : Chars) → bytes_eq (xs ++ 47 ∷ []) [] ≡ false
    not_empty [] = refl
    not_empty (x ∷ xs) = refl

-- Every path of directory names is accepted as a scope, and returned as it is.
pub normalize_scope_accepts :
    (segments : List Chars)
    → All IsName segments
    → normalize_scope (path_of segments) ≡ ok (path_of segments)
normalize_scope_accepts [] h = unfold normalize_scope in refl
normalize_scope_accepts (s ∷ rest) h =
    let free = names_free (s ∷ rest) h in
    let checked = (check_segments-IsName (s ∷ rest) free).1 h in
    subst (λ b. normalize_scope (47 ∷ b) ≡ ok (47 ∷ b)) (sym (body-inner s rest))
      (accepted_middle (inner s rest) s rest (split-inner s rest free.0 free.1) checked)
  where
    names_free : (segments : List Chars) → All IsName segments → All (IsFree 47) segments
    names_free [] h = tt
    names_free (t ∷ ts) h = (h.0.0, names_free ts h.1)

-- Every text that is accepted as a scope is the path of some directory names, and is returned as it
-- is, but for the empty text, which stands for the root.
pub normalize_scope-path_of :
    (prefix scope : Chars)
    → normalize_scope prefix ≡ ok scope
    → ((segments : List Chars) × All IsName segments × (scope ≡ path_of segments))
      × ((scope ≡ prefix) ⊎ ((prefix ≡ []) × (scope ≡ root_scope)))
unfolding normalize_scope normalize_absolute
normalize_scope-path_of [] scope h = (([], tt, value scope h), inr (refl, value scope h))
  where
    value : (y : Chars) → normalize_scope [] ≡ ok y → y ≡ root_scope
    value y e = ground (arith, e)
normalize_scope-path_of (c ∷ []) scope h = elim (Bool-cases (c == 47)) [
  | inr e ↦ absurd (ground (arith, e, h))
  | inl e ↦
      let slash : c ∷ [] ≡ root_scope = ap (λ x. x ∷ []) (==→eq c 47 e) in
      let same : scope ≡ root_scope = ground (arith, e, h) in
      (([], tt, same), inl (same ∙ sym slash))
]
normalize_scope-path_of (c ∷ d ∷ ds) scope h = elim (Bool-cases (c == 47)) [
  | inr e ↦ absurd (ground (arith, e, h))
  | inl e ↦ elim (Bool-cases (last_is_slash (d ∷ ds))) [
    | inr f ↦ absurd (ground (arith, e, f, h))
    | inl f ↦
        let middle = drop_last (d ∷ ds) in
        let segments = (split middle).0 ∷ (split middle).1 in
        let (joined, free, frees) = inner-split middle in
        elim (Result-cases (check_segments segments)) [
          | inl (x, g) ↦ absurd (ground (arith, e, f, g, h))
          | inr (u, g) ↦
              let names = (check_segments-IsName segments (free, frees)).0 g in
              let same : scope ≡ c ∷ d ∷ ds = ground (arith, e, f, g, h) in
              let path : c ∷ d ∷ ds ≡ path_of segments = ap₂ ◌∷◌ (==→eq c 47 e) (
                last_is_slash_lem (d ∷ ds) f
                ∙ ap (λ l. l ++ 47 ∷ []) (sym joined)
                ∙ sym (body-inner (split middle).0 (split middle).1)) in
              ((segments, names, same ∙ path), inl same)
        ]
  ]
]
