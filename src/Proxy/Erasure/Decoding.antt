-- ===== src/Proxy/Erasure/Decoding.antt =====
-- Decoding the shards of one write, for a Reed-Solomon code that restores what is missing.
use fractalbits.Base.{
  ℕ, suc, ◌+◌, ◌%◌, ◌≤◌, ◌<◌, ◌≡◌, refl, ap, subst, ◌∙◌, true, Option, none, some, List, [], ◌∷◌,
  ◌++◌, arith, ◌==◌, eq→==, length, get_elem?, take, drop, All,
}
use fractalbits.Proxy.Erasure.{ok, Bytes}
use fractalbits.Proxy.Erasure.Arrivals.{Shards, received}
use fractalbits.Proxy.Erasure.Reads.{
  Decoder, cohort_size, cohort_shards, present, lookup, fill_shards, reconstruct,
}
use fractalbits.Proxy.Erasure.Words.{Fits}
use fractalbits.Proxy.Erasure.Encoding.{concat}

-- What is there is the word's, place by place.
abbrev pub IsFrom : List Bytes → List (Option Bytes) → Type 0
IsFrom [] [] = Unit {0}
IsFrom [] (s ∷ found) = ⊥
IsFrom (x ∷ word) [] = ⊥
IsFrom (x ∷ word) (none ∷ found) = IsFrom word found
IsFrom (x ∷ word) (some y ∷ found) = (y ≡ x) × IsFrom word found

abbrev pub there : List (Option Bytes) → ℕ
there [] = 0
there (none ∷ found) = there found
there (some y ∷ found) = suc (there found)

abbrev pub HaveSize : ℕ → List Bytes → Type 0
HaveSize size = All (λ s. length s ≡ size)

-- From enough shards of a word, the decoder gives the data shards that are missing.
abbrev pub Restores : Decoder → ℕ → ℕ → List Bytes → List Bytes → Type 0
Restores rs_decode k m data_ parity =
    (found : List (Option Bytes))
    → IsFrom (data_ ++ parity) found
    → k ≤ there found
    → (restored : List (ℕ × Bytes)) × (rs_decode k m (present 0 (take k found))
          (present 0 (drop k found))
        ≡ some restored)
      × ((j : ℕ) (x : Bytes)
          → get_elem? found j ≡ some none
          → get_elem? data_ j ≡ some x
          → lookup j restored ≡ some x)

-- A Reed-Solomon code: data shards of one size, even and not 0, have parity shards of that size, and
-- any `k` of all of them restore the missing data shards.
abbrev pub IsCode : (ℕ → ℕ → List Bytes → Option (List Bytes)) → Decoder → ℕ → ℕ → Type 0
IsCode rs_encode rs_decode k m =
    (data_ : List Bytes) (size : ℕ)
    → length data_ ≡ k
    → 0 < size
    → size % 2 ≡ 0
    → HaveSize size data_
    → (parity : List Bytes) × (rs_encode k m data_ ≡ some parity)
      × (length parity ≡ m)
      × HaveSize size parity
      × Restores rs_decode k m data_ parity

module _ (tag size : ℕ) where
  pub cohort_size_lem :
      (word : List Bytes) (shards : Shards)
      → Fits tag word shards
      → HaveSize size word
      → 0 < received shards
      → cohort_size tag shards ≡ some size
  unfolding cohort_size received
  cohort_size_lem [] [] h k lt = absurd (omega arith)
  cohort_size_lem [] (s ∷ shards) h k lt = absurd h
  cohort_size_lem (x ∷ word) [] h k lt = absurd h
  cohort_size_lem (x ∷ word) (none ∷ shards) h k lt = cohort_size_lem word shards h k.1 lt
  cohort_size_lem (x ∷ word) (some b ∷ shards) h k lt =
      ground (arith, h.0.1, ap (λ s. length s) h.0.0 ∙ k.0)

  cohort_shards-IsFrom :
      (word : List Bytes) (shards : Shards)
      → Fits tag word shards
      → HaveSize size word
      → IsFrom word (cohort_shards tag size shards)
        × (there (cohort_shards tag size shards) ≡ received shards)
  unfolding cohort_shards received
  cohort_shards-IsFrom [] [] h k = (tt, refl)
  cohort_shards-IsFrom [] (s ∷ shards) h k = absurd h
  cohort_shards-IsFrom (x ∷ word) [] h k = absurd h
  cohort_shards-IsFrom (x ∷ word) (none ∷ shards) h k = cohort_shards-IsFrom word shards h k.1
  cohort_shards-IsFrom (x ∷ word) (some b ∷ shards) h k =
      let (from, n) = cohort_shards-IsFrom word shards h.1 k.1 in
      let mine : (b.cohort_tag == tag) ≡ true = eq→== b.cohort_tag tag h.0.1 in
      let fits : (length b.body == size) ≡ true =
        eq→== (length b.body) size (ap (λ s. length s) h.0.0 ∙ k.0) in
      rw mine rw fits ((h.0.0, from), omega (arith, n))

fill_shards_lem :
    (i : ℕ) (data_ parity : List Bytes) (found : List (Option Bytes)) (restored : List (ℕ × Bytes))
    → IsFrom (data_ ++ parity) found
    → ((j : ℕ) (x : Bytes)
        → get_elem? found j ≡ some none
        → get_elem? data_ j ≡ some x
        → lookup (i + j) restored ≡ some x)
    → fill_shards i (take (length data_) found) restored ≡ some (concat data_)
unfolding fill_shards
fill_shards_lem i [] parity found restored h r = refl
fill_shards_lem i (x ∷ data_) parity [] restored h r = absurd h
fill_shards_lem i (x ∷ data_) parity (none ∷ found) restored h r =
    let here : lookup i restored ≡ some x =
      subst (λ n. lookup n restored ≡ some x) (omega arith) (r 0 x refl refl) in
    let next =
      fill_shards_lem (i + 1) data_ parity found restored h
        (λ j y e f. subst (λ n. lookup n restored ≡ some y) (omega arith) (r (suc j) y e f)) in
    rw here rw next refl
fill_shards_lem i (x ∷ data_) parity (some y ∷ found) restored h r =
    let next =
      fill_shards_lem (i + 1) data_ parity found restored h.1
        (λ j z e f. subst (λ n. lookup n restored ≡ some z) (omega arith) (r (suc j) z e f)) in
    rw next rw h.0 refl

pub reconstruct_lem :
    (rs_decode : Decoder) (k m tag size : ℕ) (data_ parity : List Bytes) (shards : Shards)
    → 0 < k
    → length data_ ≡ k
    → HaveSize size (data_ ++ parity)
    → Restores rs_decode k m data_ parity
    → Fits tag (data_ ++ parity) shards
    → k ≤ received shards
    → reconstruct rs_decode k m tag shards ≡ ok (concat data_)
unfolding reconstruct
reconstruct_lem rs_decode k m tag size data_ parity shards pos len sizes restores fits enough =
    let found = cohort_shards tag size shards in
    let (from, n) = cohort_shards-IsFrom tag size (data_ ++ parity) shards fits sizes in
    let (restored, decoded, missing) = restores found from (omega (arith, n)) in
    let filled =
      fill_shards_lem 0 data_ parity found restored from
        (λ j x e f. subst (λ n. lookup n restored ≡ some x) (omega arith) (missing j x e f)) in
    let filled_k : fill_shards 0 (take k found) restored ≡ some (concat data_) =
      subst (λ n. fill_shards 0 (take n found) restored ≡ some (concat data_)) len filled in
    ground (
      arith,
      cohort_size_lem tag size (data_ ++ parity) shards fits sizes (omega arith),
      decoded,
      filled_k,
    )
