-- ===== src/Base/Counting.antt =====
-- Counting the places below a bound at which a test holds, and lists of distinct places.
use fractalbits.Base.{
  ℕ, zero, suc, ◌+◌, ◌≤◌, ◌<◌, ◌≡◌, ◌≢◌, refl, subst, sym, inl, inr, Bool-cases, ==→eq, Bool, true,
  false, not, ◌||◌, List, [], ◌∷◌, arith, ◌==◌, if◌then◌else◌, length, All,
}

abbrev pub count : (ℕ → Bool) → ℕ → ℕ
count test zero = 0
count test (suc n) = (if test n then 1 else 0) + count test n

abbrev pub IsDistinct : List ℕ → Type 0
IsDistinct [] = Unit {0}
IsDistinct (p ∷ ps) = All (λ q. q ≢ p) ps × IsDistinct ps

abbrev pub IsBelow : ℕ → List ℕ → Type 0
IsBelow n = All (λ p. p < n)

abbrev pub mem : List ℕ → ℕ → Bool
mem [] i = false
mem (p ∷ ps) i = (i == p) || mem ps i

-- The test, but not at `p`.
abbrev except : ℕ → (ℕ → Bool) → ℕ → Bool
except p test i = if i == p then false else test i

count-except_above :
    (p : ℕ) (test : ℕ → Bool) (n : ℕ) → n ≤ p → count (except p test) n ≡ count test n
count-except_above p test zero h = refl
count-except_above p test (suc n) h = ground (arith, count-except_above p test n)

count-except :
    (p : ℕ) (test : ℕ → Bool) (n : ℕ)
    → p < n
    → test p ≡ true
    → count (except p test) n + 1 ≡ count test n
count-except p test zero h t = absurd (omega arith)
count-except p test (suc n) h t = elim (Bool-cases (n == p)) [
  | inl e ↦
      let here : test n ≡ true = subst (λ k. test k ≡ true) (sym (==→eq n p e)) t in
      ground (arith, e, here, count-except_above p test n)
  | inr e ↦ ground (arith, e, count-except p test n (ground arith) t)
]

All-except :
    (p : ℕ) (test : ℕ → Bool) (ps : List ℕ)
    → All (λ q. q ≢ p) ps
    → All (λ q. test q ≡ true) ps
    → All (λ q. except p test q ≡ true) ps
All-except p test [] h k = tt
All-except p test (q ∷ ps) h k = (ground (arith, h, k), All-except p test ps h.1 k.1)

-- Distinct places at which the test holds are at most as many as there are.
pub length-count :
    (test : ℕ → Bool) (n : ℕ) (ps : List ℕ)
    → IsDistinct ps
    → IsBelow n ps
    → All (λ q. test q ≡ true) ps
    → length ps ≤ count test n
length-count test n [] d b h = omega arith
length-count test n (p ∷ ps) d b h =
    let rest = length-count (except p test) n ps d.1 b.1 (All-except p test ps d.0 h.1) in
    omega (arith, count-except p test n b.0 h.0)

count-not : (test : ℕ → Bool) (n : ℕ) → count test n + count (λ i. not (test i)) n ≡ n
count-not test zero = refl
count-not test (suc n) = ground (arith, count-not test n)

-- Distinct places on both sides of a test are together at most as many as there are places.
pub two_sides :
    (test : ℕ → Bool) (n : ℕ) (ps qs : List ℕ)
    → IsDistinct ps
    → IsDistinct qs
    → IsBelow n ps
    → IsBelow n qs
    → All (λ p. test p ≡ true) ps
    → All (λ q. not (test q) ≡ true) qs
    → length ps + length qs ≤ n
two_sides test n ps qs d e b c h k = omega (
  arith,
  length-count test n ps d b h,
  length-count (λ i. not (test i)) n qs e c k,
  count-not test n,
)

mem-head :
    (p : ℕ) (ps : List ℕ) → All (λ q. mem ps q ≡ true) ps → All (λ q. mem (p ∷ ps) q ≡ true) ps
mem-head p ps h = go ps h
  where
    go : (qs : List ℕ) → All (λ q. mem ps q ≡ true) qs → All (λ q. mem (p ∷ ps) q ≡ true) qs
    go [] h = tt
    go (q ∷ qs) h = (ground (arith, h), go qs h.1)

All-mem : (ps : List ℕ) → All (λ q. mem ps q ≡ true) ps
All-mem [] = tt
All-mem (p ∷ ps) = (ground arith, mem-head p ps (All-mem ps))

count_full : (test : ℕ → Bool) (n : ℕ) → n ≤ count test n → (i : ℕ) → i < n → test i ≡ true
count_full test zero h i lt = absurd (omega arith)
count_full test (suc n) h i lt = elim (Bool-cases (test n)) [
  | inl t ↦ elim (Bool-cases (i == n)) [
    | inl e ↦ subst (λ k. test k ≡ true) (sym (==→eq i n e)) t
    | inr e ↦ count_full test n (ground arith) i (ground arith)
  ]
  | inr f ↦ absurd (ground (arith, f, count-not test n))
]

-- As many distinct places as there are is every place.
pub mem_all :
    (n : ℕ) (ps : List ℕ)
    → IsDistinct ps
    → IsBelow n ps
    → n ≤ length ps
    → (i : ℕ) → i < n
    → mem ps i ≡ true
mem_all n ps d b h i lt =
    count_full (mem ps) n (omega (arith, length-count (mem ps) n ps d b (All-mem ps))) i lt
