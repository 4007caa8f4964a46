-- ===== src/Base/Text.antt =====
-- The `str` functions that the program calls, over lists of code points.
pub mod Hex
use Prim.Native.Nat.{ℕ, zero, suc, ◌≤◌}
use Prim.Native.Char.{code}
use Prim.Native.String.{String}
use Prim.Native.String
use mathlib.Core.Path.{◌≡◌, refl, ap}
use mathlib.Core.Logic.{◌≢◌}
use mathlib.Core.Bool.{Bool, true, false, ◌&&◌, ◌||◌, not}
use mathlib.Core.List.{List, [], ◌∷◌, ◌++◌}
use mathlib.Core.Option.{Option, none, some}
use native.Mathlib.Omega.{arith}
use fractalbits.Base.Tests.{◌==◌, if◌then◌else◌}
use fractalbits.Base.Lists.{All, replicate}

-- A literal.
abbrev pub codes : String → List ℕ
codes String.[] = []
codes (String.◌∷◌ c s) = code c ∷ codes s

unfoldable pub strip_prefix : List ℕ → List ℕ → Option (List ℕ)
strip_prefix [] s = some s
strip_prefix (p ∷ ps) [] = none
strip_prefix (p ∷ ps) (c ∷ cs) = elim (p == c) [ true ↦ strip_prefix ps cs | false ↦ none ]

unfoldable pub starts_with : List ℕ → List ℕ → Bool
starts_with [] s = true
starts_with (p ∷ ps) [] = false
starts_with (p ∷ ps) (c ∷ cs) = (p == c) && starts_with ps cs

-- `split_once` at the first `sep`.
unfoldable pub split_once : ℕ → List ℕ → Option (List ℕ × List ℕ)
split_once sep [] = none
split_once sep (c ∷ cs) =
    if c == sep
    then some ([], cs)
    else elim (split_once sep cs) [ none ↦ none | some (a, b) ↦ some (c ∷ a, b) ]

-- `trim_end_matches`.
unfoldable pub trim_end : ℕ → List ℕ → List ℕ
trim_end c [] = []
trim_end c (x ∷ xs) = elim (trim_end c xs) [
  | [] ↦ if x == c then [] else x ∷ []
  | y ∷ ys ↦ x ∷ y ∷ ys
]

abbrev pub IsFree : ℕ → List ℕ → Type 0
IsFree c = All (λ x. x ≢ c)

pub strip_prefix-append : (ps s : List ℕ) → strip_prefix ps (ps ++ s) ≡ some s
unfolding strip_prefix
strip_prefix-append [] s = refl
strip_prefix-append (p ∷ ps) s = ground (arith, strip_prefix-append ps s)

pub split_once-append :
    (sep : ℕ) (a b : List ℕ) → IsFree sep a → split_once sep (a ++ sep ∷ b) ≡ some (a, b)
unfolding split_once
split_once-append sep [] b h = ground arith
split_once-append sep (c ∷ cs) b h = ground (arith, split_once-append sep cs b h.1)

pub trim_end-replicate : (c k : ℕ) → trim_end c (replicate k c) ≡ []
unfolding trim_end
trim_end-replicate c zero = refl
trim_end-replicate c (suc k) = rw (trim_end-replicate c k) (ground arith)

pub trim_end-append : (c k : ℕ) (s : List ℕ) → IsFree c s → trim_end c (s ++ replicate k c) ≡ s
unfolding trim_end
trim_end-append c k [] h = trim_end-replicate c k
trim_end-append c k (x ∷ xs) h = rw (trim_end-append c k xs h.1) (go xs)
  where
    go :
        (ys : List ℕ)
        → elim ys as (λ _. List ℕ) [ [] ↦ if x == c then [] else x ∷ [] | y ∷ ys ↦ x ∷ y ∷ ys ]
          ≡ x ∷ ys
    go [] = ground arith
    go (y ∷ ys) = refl

pub IsFree-append : (c : ℕ) (a b : List ℕ) → IsFree c a → IsFree c b → IsFree c (a ++ b)
IsFree-append c [] b h k = k
IsFree-append c (x ∷ xs) b h k = (h.0, IsFree-append c xs b h.1 k)
