-- ===== src/Proxy/Erasure/Words.antt =====
-- The shards of one write: what a read knows of them once some of the nodes have answered.
use fractalbits.Base.Results.{ok, err, Result}
use fractalbits.Base.Counting.{IsDistinct, IsBelow}
use fractalbits.Base.{
  ℕ, zero, suc, ◌+◌, ◌≤◌, ◌<◌, ◌≡◌, refl, ap, ◌∙◌, ◌≢◌, Option, none, some, List, [], ◌∷◌, ◌++◌,
  arith, if◌then◌else◌, length, get_elem?, All, replicate,
}
use fractalbits.Proxy.Volumes.{RpcError}
use fractalbits.Proxy.Cohorts.{NodeBlob, matching, first_cohort, decodable_cohort}
use fractalbits.Proxy.Replicated.{Reply}
use fractalbits.Proxy.Replicated.Writes.{positions_of}
use fractalbits.Proxy.Replicated.Deletes.{all_positions}
use fractalbits.Proxy.Erasure.{Bytes}
use fractalbits.Proxy.Erasure.Arrivals.{Shards, ReadState, set_shard, received, note_shard}
use fractalbits.Proxy.Erasure.Loops.{note_all, is_ok}

-- Each shard that has arrived is the one of the word at its place, with the tag.
abbrev pub Fits : ℕ → List Bytes → Shards → Type 0
Fits tag [] [] = Unit {0}
Fits tag [] (s ∷ shards) = ⊥
Fits tag (x ∷ word) [] = ⊥
Fits tag (x ∷ word) (none ∷ shards) = Fits tag word shards
Fits tag (x ∷ word) (some b ∷ shards) = ((b.body ≡ x) × (b.cohort_tag ≡ tag)) × Fits tag word shards

-- A body in an answer is the shard of the word at the place that was asked for.
abbrev pub IsHonest : ℕ → List Bytes → Reply NodeBlob → Type 0
IsHonest tag word r =
    (b : NodeBlob)
    → r.answer ≡ ok b
    → (get_elem? word r.position ≡ some b.body) × (b.cohort_tag ≡ tag)

-- Nothing has arrived at these places, which are places of shards.
abbrev pub AreFree : Shards → List ℕ → Type 0
AreFree shards = All (λ p. get_elem? shards p ≡ some none)

pub Fits-replicate :
    (tag : ℕ) (word : List Bytes) (n : ℕ) → length word ≡ n → Fits tag word (replicate n none)
Fits-replicate tag [] zero e = tt
Fits-replicate tag [] (suc n) e = absurd (omega arith)
Fits-replicate tag (x ∷ word) zero e = absurd (omega arith)
Fits-replicate tag (x ∷ word) (suc n) e = Fits-replicate tag word n (omega arith)

Fits-set_shard :
    (tag : ℕ) (word : List Bytes) (i : ℕ) (b : NodeBlob) (shards : Shards)
    → get_elem? word i ≡ some b.body
    → b.cohort_tag ≡ tag
    → Fits tag word shards
    → Fits tag word (set_shard i b shards)
unfolding set_shard
Fits-set_shard tag [] i b [] e t h = tt
Fits-set_shard tag [] i b (s ∷ shards) e t h = absurd h
Fits-set_shard tag (x ∷ word) i b [] e t h = absurd h
Fits-set_shard tag (x ∷ word) zero b (none ∷ shards) e t h = ((cc, t), h)
Fits-set_shard tag (x ∷ word) zero b (some c ∷ shards) e t h = ((cc, t), h.1)
Fits-set_shard tag (x ∷ word) (suc i) b (none ∷ shards) e t h =
    Fits-set_shard tag word i b shards e t h
Fits-set_shard tag (x ∷ word) (suc i) b (some c ∷ shards) e t h =
    (h.0, Fits-set_shard tag word i b shards e t h.1)

received-set_shard :
    (i : ℕ) (b : NodeBlob) (shards : Shards)
    → get_elem? shards i ≡ some none
    → received (set_shard i b shards) ≡ received shards + 1
unfolding set_shard received
received-set_shard i b [] e = cc
received-set_shard zero b (none ∷ shards) e = omega arith
received-set_shard zero b (some c ∷ shards) e = cc
received-set_shard (suc i) b (none ∷ shards) e = received-set_shard i b shards e
received-set_shard (suc i) b (some c ∷ shards) e = omega (arith, received-set_shard i b shards e)

get_elem?-set_shard :
    (i p : ℕ) (b : NodeBlob) (shards : Shards)
    → p ≢ i
    → get_elem? (set_shard i b shards) p ≡ get_elem? shards p
unfolding set_shard
get_elem?-set_shard i p b [] ne = refl
get_elem?-set_shard zero zero b (s ∷ shards) ne = absurd (ne refl)
get_elem?-set_shard zero (suc p) b (s ∷ shards) ne = refl
get_elem?-set_shard (suc i) zero b (s ∷ shards) ne = refl
get_elem?-set_shard (suc i) (suc p) b (s ∷ shards) ne =
    get_elem?-set_shard i p b shards (λ e. ne (ap suc e))

AreFree-set_shard :
    (i : ℕ) (b : NodeBlob) (shards : Shards) (ps : List ℕ)
    → All (λ p. p ≢ i) ps
    → AreFree shards ps
    → AreFree (set_shard i b shards) ps
AreFree-set_shard i b shards [] ne h = tt
AreFree-set_shard i b shards (p ∷ ps) ne h =
    (get_elem?-set_shard i p b shards ne.0 ∙ h.0, AreFree-set_shard i b shards ps ne.1 h.1)

pub AreFree-replicate : (n : ℕ) (ps : List ℕ) → IsBelow n ps → AreFree (replicate n none) ps
AreFree-replicate n [] h = tt
AreFree-replicate n (p ∷ ps) h = (go n p h.0, AreFree-replicate n ps h.1)
  where
    go : (n p : ℕ) → p < n → get_elem? (replicate {A = Option NodeBlob} n none) p ≡ some none
    go zero p lt = absurd (omega arith)
    go (suc n) zero lt = refl
    go (suc n) (suc p) lt = go n p (omega arith)

module _ (tag : ℕ) (word : List Bytes) (ro total : ℕ) where
  note_shard-Fits :
      (r : Reply NodeBlob) (rest : List (Reply NodeBlob)) (s : ReadState)
      → IsHonest tag word r
      → IsDistinct (all_positions (r ∷ rest))
      → Fits tag word s.shard_results
      → AreFree s.shard_results (all_positions (r ∷ rest))
      → Fits tag word (note_shard ro total r s).shard_results
        × (received (note_shard ro total r s).shard_results
            ≡ received s.shard_results + (if is_ok r.answer then 1 else 0))
        × AreFree (note_shard ro total r s).shard_results (all_positions rest)
  unfolding note_shard
  note_shard-Fits r rest s honest d f free = go r.answer refl
    where
      go :
          (a : Result RpcError NodeBlob)
          → r.answer ≡ a
          → Fits tag word (note_shard ro total r s).shard_results
            × (received (note_shard ro total r s).shard_results
                ≡ received s.shard_results + (if is_ok r.answer then 1 else 0))
            × AreFree (note_shard ro total r s).shard_results (all_positions rest)
      go (ok b) e = rw e (
        Fits-set_shard tag word r.position b s.shard_results (honest b e).0 (honest b e).1 f,
        received-set_shard r.position b s.shard_results free.0,
        AreFree-set_shard r.position b s.shard_results (all_positions rest) d.0 free.1,
      )
      go (err RpcError.not_found) e = rw e (f, omega arith, free.1)
      go (err RpcError.version_skipped) e = rw e (f, omega arith, free.1)
      go (err RpcError.mismatch) e = rw e (f, omega arith, free.1)
      go (err (RpcError.other x)) e = rw e (f, omega arith, free.1)

  pub note_all-Fits :
      (taken rest : List (Reply NodeBlob)) (s : ReadState)
      → All (IsHonest tag word) taken
      → IsDistinct (all_positions (taken ++ rest))
      → Fits tag word s.shard_results
      → AreFree s.shard_results (all_positions (taken ++ rest))
      → Fits tag word (note_all ro total taken s).shard_results
        × (received (note_all ro total taken s).shard_results
            ≡ received s.shard_results + length (positions_of is_ok taken))
        × AreFree (note_all ro total taken s).shard_results (all_positions rest)
  note_all-Fits [] rest s honest d f free = (f, omega arith, free)
  note_all-Fits (r ∷ taken) rest s honest d f free =
      let (f', n, free') = note_shard-Fits r (taken ++ rest) s honest.0 d f free in
      let (fits, m, open_) =
        note_all-Fits taken rest (note_shard ro total r s) honest.1 d.1 f' free' in
      (fits, count_ok _ _ _ n m, open_)
    where
      count_ok :
          (x y z : ℕ)
          → y ≡ x + (if is_ok r.answer then 1 else 0)
          → z ≡ y + length (positions_of is_ok taken)
          → z ≡ x + length (positions_of is_ok (r ∷ taken))
      count_ok x y z n m = ground (arith, n, m)

matching-Fits :
    (tag : ℕ) (word : List Bytes) (shards : Shards)
    → Fits tag word shards
    → matching tag shards ≡ received shards
unfolding matching received
matching-Fits tag [] [] h = refl
matching-Fits tag [] (s ∷ shards) h = absurd h
matching-Fits tag (x ∷ word) [] h = absurd h
matching-Fits tag (x ∷ word) (none ∷ shards) h = matching-Fits tag word shards h
matching-Fits tag (x ∷ word) (some b ∷ shards) h =
    ground (arith, h.0.1, matching-Fits tag word shards h.1)

first_cohort-Fits :
    (tag k : ℕ) (all : Shards) (word : List Bytes) (rest : Shards)
    → tag ≢ 0
    → Fits tag word rest
    → ((k ≤ matching tag all) → 0 < received rest → first_cohort all k rest ≡ some tag)
      × ((matching tag all < k) → first_cohort all k rest ≡ none)
unfolding first_cohort received
first_cohort-Fits tag k all [] [] nz h = ((λ _ lt. absurd (omega arith)), λ _. refl)
first_cohort-Fits tag k all [] (s ∷ rest) nz h = absurd h
first_cohort-Fits tag k all (x ∷ word) [] nz h = absurd h
first_cohort-Fits tag k all (x ∷ word) (none ∷ rest) nz h =
    first_cohort-Fits tag k all word rest nz h
first_cohort-Fits tag k all (x ∷ word) (some b ∷ rest) nz h =
    let next = first_cohort-Fits tag k all word rest nz h.1 in
    let there : matching b.cohort_tag all ≡ matching tag all = ap (λ t. matching t all) h.0.1 in
    ((λ le _. ground (arith, h.0.1, nz, there)), λ lt. ground (arith, h.0.1, nz, there, next.1 lt))

-- With shards of one write only, its cohort is found exactly once enough of them are there.
pub decodable_cohort-Fits :
    (tag k : ℕ) (word : List Bytes) (shards : Shards)
    → tag ≢ 0
    → 0 < k
    → Fits tag word shards
    → ((k ≤ received shards) → decodable_cohort shards k ≡ some tag)
      × ((received shards < k) → decodable_cohort shards k ≡ none)
unfolding decodable_cohort
decodable_cohort-Fits tag k word shards nz pos h =
    let (found, missed) = first_cohort-Fits tag k shards word shards nz h in
    let same = matching-Fits tag word shards h in
    ((λ le. found (omega (arith, same)) (omega arith)), λ lt. missed (omega (arith, same)))
