-- ===== src/Proxy/Cohorts/Unique.antt =====
-- With fewer parity than data shards at most one cohort can be decoded, and it is the one found.
use fractalbits.Base.{
  ℕ, ◌+◌, ◌≤◌, ◌<◌, ◌≡◌, ◌≢◌, sym, subst, ◌↔◌, inl, inr, Bool-cases, ==→eq, Option, none, some,
  List, [], ◌∷◌, arith, leb, ◌==◌, length,
}
use fractalbits.Proxy.Cohorts.{NodeBlob, matching, first_cohort, decodable_cohort}

abbrev pub Shards : Type 0
Shards = List (Option NodeBlob)

matching_two :
    (t u : ℕ) (shards : Shards) → t ≢ u → matching t shards + matching u shards ≤ length shards
unfolding matching
matching_two t u [] ne = omega arith
matching_two t u (none ∷ shards) ne = omega (arith, matching_two t u shards ne)
matching_two t u (some b ∷ shards) ne = ground (arith, matching_two t u shards ne)

pub first_cohort_sound :
    (all : Shards) (k : ℕ) (rest : Shards) (t : ℕ)
    → first_cohort all k rest ≡ some t
    → (t ≢ 0) × (k ≤ matching t all)
unfolding first_cohort
first_cohort_sound all k [] t h = cc
first_cohort_sound all k (none ∷ rest) t h = first_cohort_sound all k rest t h
first_cohort_sound all k (some b ∷ rest) t h = ground (arith, h, first_cohort_sound all k rest t)

-- A tag that some shard of the rest carries and that enough shards carry ends the loop with a tag.
first_cohort_total :
    (all : Shards) (k : ℕ) (rest : Shards) (t : ℕ)
    → t ≢ 0
    → k ≤ matching t all
    → 0 < matching t rest
    → (u : ℕ) × (first_cohort all k rest ≡ some u)
unfolding first_cohort matching
first_cohort_total all k [] t ne h lt = absurd (omega arith)
first_cohort_total all k (none ∷ rest) t ne h lt = first_cohort_total all k rest t ne h lt
first_cohort_total all k (some b ∷ rest) t ne h lt = elim (Bool-cases (b.cohort_tag == t)) [
  | inl e ↦
      let same = ==→eq b.cohort_tag t e in
      let enough : k ≤ matching b.cohort_tag all = subst (λ x. k ≤ matching x all) (sym same) h in
      (b.cohort_tag, ground (arith, same, enough))
  | inr e ↦
      let (u, f) = first_cohort_total all k rest t ne h (ground (arith, e, lt)) in
      elim (Bool-cases (b.cohort_tag == 0)) [
        | inl z ↦ (u, ground (arith, z, f))
        | inr z ↦ elim (Bool-cases (leb k (matching b.cohort_tag all))) [
          | inl y ↦ (b.cohort_tag, ground (arith, z, y))
          | inr y ↦ (u, ground (arith, z, y, f))
        ]
      ]
]

-- With fewer parity than data shards, and no more shards than both together: the cohort that is
-- found is a given one, of a tag other than 0, exactly if enough of its shards are there to
-- decode it.
pub decodable_cohort_iff :
    (shards : Shards) (data_shards parity_shards tag : ℕ)
    → parity_shards < data_shards
    → length shards ≤ data_shards + parity_shards
    → tag ≢ 0
    → (decodable_cohort shards data_shards ≡ some tag) ↔ (data_shards ≤ matching tag shards)
unfolding decodable_cohort
decodable_cohort_iff shards k m tag lt size ne =
    (λ h. (first_cohort_sound shards k shards tag h).1, back)
  where
    back : k ≤ matching tag shards → first_cohort shards k shards ≡ some tag
    back h =
        let (u, e) = first_cohort_total shards k shards tag ne h (omega arith) in
        let (nz, enough) = first_cohort_sound shards k shards u e in
        elim (Bool-cases (u == tag)) [
          | inl same ↦ ground (arith, e, same)
          | inr other ↦ absurd (omega (arith, matching_two u tag shards (ground (arith, other))))
        ]
