-- ===== src/Read/Streams.antt =====
-- The streams deliver the content of the object: all of it, or exactly the range.
use mathlib.Core.Path.{ap₂}
use fractalbits.Base.{
  zero, suc, ◌≤◌, refl, sym, ap, ◌∙◌, ◌⊎◌, inl, inr, leb, Bool-cases, length-drop, take_all,
  take-append_lem, drop-append_lem, drop_all, ℕ, ◌+◌, ◌-◌, ◌<◌, max, ◌≡◌, List, [], ◌∷◌, ◌++◌,
  arith, ltb, if◌then◌else◌, length, take, drop, slice,
}
use fractalbits.Base.Results.{Result, ok, collect}
use fractalbits.Read.{S3Error, Bytes, scan_chunks}

-- The chunks of a run, joined.
abbrev pub joined : List Bytes → Bytes
joined [] = []
joined (c ∷ cs) = c ++ joined cs

abbrev pub oks : List Bytes → List (Result S3Error Bytes)
oks [] = []
oks (c ∷ cs) = ok c ∷ oks cs

pub take_any :
    (m k : ℕ) (xs : Bytes) → (m ≡ k) ⊎ (length xs ≤ m) × (length xs ≤ k) → take m xs ≡ take k xs
take_any m k xs (inl e) = ap (λ n. take n xs) e
take_any m k xs (inr (p, q)) = take_all m xs p ∙ sym (take_all k xs q)

pub take-drop_at :
    (m k i j : ℕ) (xs : Bytes) → m ≡ k → i ≡ j → take m (drop i xs) ≡ take k (drop j xs)
take-drop_at m k i j xs p q = rw (p, q)

-- Where the reading starts within the first of two parts.
take-drop-append :
    (m i : ℕ) (c rest : Bytes)
    → i ≤ length c
    → take m (drop i (c ++ rest)) ≡ take m (drop i c) ++ take (m - (length c - i)) rest
take-drop-append m i c rest h =
    let zero_left : i - length c ≡ 0 = omega arith in
    let all : drop (i - length c) rest ≡ rest = rw zero_left in
    ap (take m) (drop-append_lem i c rest ∙ ap (◌++◌ (drop i c)) all)
    ∙ take-append_lem m (drop i c) rest
    ∙ ap (λ n. take m (drop i c) ++ take (m - n) rest) (length-drop i c)

-- A chunk that the range meets, cut, is the part of the content that the range wants from it.
cut_chunk :
    (start end' offset : ℕ) (c rest : Bytes)
    → offset < end'
    → start < offset + length c
    → slice (start - offset) (if ltb (offset + length c) end' then length c else end' - offset) c
        ++ take (end' - max start (offset + length c)) (drop (start - (offset + length c)) rest)
      ≡ take (end' - max start offset) (drop (start - offset) (c ++ rest))
cut_chunk start end' offset c rest h k =
    let i = start - offset in
    let hi = if ltb (offset + length c) end' then length c else end' - offset in
    let m = end' - max start offset in
    let size = length-drop i c in
    let first : take (hi - i) (drop i c) ≡ take m (drop i c) =
      take_any (hi - i) m (drop i c) (ground (arith, size)) in
    let second : take (end' - max start (offset + length c))
          (drop (start - (offset + length c)) rest)
        ≡ take (m - (length c - i)) rest =
      take-drop_at _ (m - (length c - i)) _ 0 rest (omega arith) (omega arith) in
    ap₂ ◌++◌ first second ∙ sym (take-drop-append m i c rest (omega arith))

before_range :
    (start end' offset : ℕ) (c rest : Bytes)
    → offset + length c ≤ start
    → take (end' - max start (offset + length c)) (drop (start - (offset + length c)) rest)
      ≡ take (end' - max start offset) (drop (start - offset) (c ++ rest))
before_range start end' offset c rest h =
    let gone : drop (start - offset) c ≡ [] = drop_all (start - offset) c (omega arith) in
    let whole : drop (start - offset) (c ++ rest) ≡ drop (start - offset - length c) rest =
      drop-append_lem (start - offset) c rest
      ∙ ap (λ x. x ++ drop (start - offset - length c) rest) gone in
    take-drop_at _ (end' - max start offset) _ (start - offset - length c) rest (omega arith)
      (omega arith)
    ∙ ap (take (end' - max start offset)) (sym whole)

take_nothing : (m i : ℕ) → take m (drop {A = ℕ} i []) ≡ []
take_nothing zero i = refl
take_nothing (suc m) zero = refl
take_nothing (suc m) (suc i) = refl

pub scan_chunks-collect :
    (start end' offset : ℕ) (cs : List Bytes)
    → collect (scan_chunks start end' offset (oks cs))
      ≡ ok (take (end' - max start offset) (drop (start - offset) (joined cs)))
unfolding scan_chunks
scan_chunks-collect start end' offset [] =
    ap ok (sym (take_nothing (end' - max start offset) (start - offset)))
scan_chunks-collect start end' offset (c ∷ cs) =
    let next = scan_chunks-collect start end' (offset + length c) cs in
    elim (Bool-cases (leb end' offset)) [
      | inl past ↦
          let none_left : end' - max start offset ≡ 0 = ground arith in rw (past, none_left)
      | inr more ↦ elim (Bool-cases (leb (offset + length c) start)) [
        | inl early ↦
            rw (more, early)
              (next ∙ ap ok (before_range start end' offset c (joined cs) (ground arith)))
        | inr inside ↦
            rw (more, inside, next)
              (ap ok (cut_chunk start end' offset c (joined cs) (ground arith) (ground arith)))
      ]
    ]

pub collect-oks : (cs : List Bytes) → collect (oks cs) ≡ ok (joined cs)
collect-oks [] = refl
collect-oks (c ∷ cs) = rw (collect-oks cs)
