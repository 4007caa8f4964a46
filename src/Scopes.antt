-- ===== src/Scopes.antt =====
-- scope.rs, the directory that a session is confined to. A text is the list of its code points; 47
-- is `/` and 46 is `.`.
pub mod Segments
pub mod Normal
pub mod Ancestors
mod Examples
use fractalbits.Base.Bytes.{bytes_eq}
use fractalbits.Base.Text.{starts_with}
use fractalbits.Base.{
  Option, none, some, ℕ, Bool, false, not, ◌&&◌, List, [], ◌∷◌, ◌++◌, ◌==◌, if◌then◌else◌,
}
use fractalbits.Base.Results.{Result, ok, err, ◌>>=◌}

abbrev pub Chars : Type 0
Chars = List ℕ

pub data ScopeError : Type 0 where
  not_absolute no_trailing_slash empty_segment dot_segment : ScopeError

abbrev pub root_scope : Chars
root_scope = 47 ∷ []

unfoldable pub last_is_slash : Chars → Bool
last_is_slash [] = false
last_is_slash (c ∷ []) = c == 47
last_is_slash (c ∷ d ∷ cs) = last_is_slash (d ∷ cs)

-- All but the last.
unfoldable pub drop_last : Chars → Chars
drop_last [] = []
drop_last (c ∷ []) = []
drop_last (c ∷ d ∷ cs) = c ∷ drop_last (d ∷ cs)

-- `split('/')`: the first segment, and the others.
unfoldable pub split : Chars → Chars × List Chars
split [] = ([], [])
split (c ∷ cs) =
    let (segment, rest) = split cs in if c == 47 then ([], segment ∷ rest) else (c ∷ segment, rest)

unfoldable pub check_segment : Chars → Result ScopeError (Unit {0})
check_segment [] = err ScopeError.empty_segment
check_segment (c ∷ []) = if c == 46 then err ScopeError.dot_segment else ok tt
check_segment (c ∷ d ∷ []) = if (c == 46) && (d == 46) then err ScopeError.dot_segment else ok tt
check_segment (c ∷ d ∷ e ∷ cs) = ok tt

unfoldable pub check_segments : List Chars → Result ScopeError (Unit {0})
unfolding check_segment
check_segments [] = ok tt
check_segments (s ∷ rest) = check_segment s >>= λ _. check_segments rest

-- A scope with at least two code points, of which the first is `c`.
unfoldable pub normalize_absolute : ℕ → Chars → Result ScopeError Chars
unfolding last_is_slash drop_last split check_segments
normalize_absolute c cs =
    let (segment, rest) = split (drop_last cs) in
    if not (c == 47)
    then err ScopeError.not_absolute
    else if not (last_is_slash (c ∷ cs))
    then err ScopeError.no_trailing_slash
    else (check_segments (segment ∷ rest) >>= λ _. ok (c ∷ cs))

unfoldable pub normalize_scope : Chars → Result ScopeError Chars
unfolding normalize_absolute
normalize_scope [] = ok root_scope
normalize_scope (c ∷ cs) =
    if bytes_eq (c ∷ cs) root_scope then ok root_scope else normalize_absolute c cs

unfoldable pub in_scope : Chars → Chars → Bool
unfolding starts_with
in_scope scope key = starts_with scope key

-- The directories above the rest of a scope, `before` being what precedes it.
unfoldable pub ancestors_from : Chars → Chars → List Chars
ancestors_from before [] = []
ancestors_from before (c ∷ cs) =
    let more = ancestors_from (before ++ c ∷ []) cs in
    if c == 47 then (before ++ c ∷ []) ∷ more else more

-- `none` is the panic of the slice behind the first byte of an empty text.
unfoldable pub scope_ancestors : Chars → Option (List Chars)
unfolding ancestors_from
scope_ancestors [] = none
scope_ancestors (c ∷ cs) =
    some (if bytes_eq (c ∷ cs) root_scope then [] else ancestors_from (c ∷ []) cs)
