-- ===== src/Proxy/Erasure/Loops.antt =====
-- What the two loops of a read leave: the answers that they took, noted one behind the other.
use fractalbits.Base.Results.{err, ok, Result}
use fractalbits.Base.{
  ℕ, ◌+◌, ◌≤◌, ◌≡◌, refl, ap, ◌⊎◌, inl, inr, Bool, true, false, none, List, [], ◌∷◌, ◌++◌, arith,
  ◌==◌, if◌then◌else◌, Bool-cases, is_none, length,
}
use fractalbits.Proxy.Volumes.{RpcError, DataVgError}
use fractalbits.Proxy.Cohorts.{NodeBlob, decodable_cohort}
use fractalbits.Proxy.Replicated.{Reply}
use fractalbits.Proxy.Replicated.Writes.{positions_of}
use fractalbits.Proxy.Replicated.Quorums.{is_absent}
use fractalbits.Proxy.Erasure.Arrivals.{
  DataEvent, ReadState, received, note_shard, is_absent_block, await_data, await_parity,
}

abbrev pub note_all : ℕ → ℕ → List (Reply NodeBlob) → ReadState → ReadState
note_all ro total [] s = s
note_all ro total (r ∷ replies) s = note_all ro total replies (note_shard ro total r s)

abbrev pub is_ok : {A : Type 0} → Result RpcError A → Bool
is_ok (ok _) = true
is_ok (err _) = false

-- The answers that the first loop takes, with `n` shards received of `k`.
abbrev pub heard : ℕ → ℕ → List DataEvent → List (Reply NodeBlob)
heard k n [] = []
heard k n (DataEvent.hedge ∷ events) = []
heard k n (DataEvent.answered r ∷ events) =
    let more = heard k (n + 1) events in
    r ∷ (if is_ok r.answer then (if n + 1 == k then [] else more) else [])

-- The loop was left without a shard and with `m` reports of absence, if it was left by an error.
abbrev pub IsLeft : ℕ → Result DataVgError (Unit {0}) × ReadState → Type 0
IsLeft m (result, s) =
    (e : DataVgError)
    → result ≡ err e
    → (e ≡ DataVgError.block_not_found) × (m ≤ s.shards_not_found)

IsLeft-later : (m : ℕ) (s : ReadState) → IsLeft m (ok tt, s)
IsLeft-later m s e h = cc

IsLeft-absent :
    (m n : ℕ) (s : ReadState)
    → is_absent_block m n s.shards_not_found ≡ true
    → IsLeft m (err DataVgError.block_not_found, s)
unfolding is_absent_block
IsLeft-absent m n s h e k = (cc, ground (arith, h))

pub await_data-heard :
    (ro k m n : ℕ) (events : List DataEvent) (s : ReadState)
    → ((await_data ro k m n events s).1 ≡ note_all ro (k + m) (heard k n events) s)
      × IsLeft m (await_data ro k m n events s)
unfolding await_data
await_data-heard ro k m n [] s = (refl, IsLeft-later m s)
await_data-heard ro k m n (DataEvent.hedge ∷ events) s = (refl, IsLeft-later m s)
await_data-heard ro k m n (DataEvent.answered r ∷ events) s =
    go r.answer refl (Bool-cases (n + 1 == k))
      (Bool-cases (is_absent_block m n (note_shard ro (k + m) r s).shards_not_found))
      (await_data-heard ro k m (n + 1) events (note_shard ro (k + m) r s))
  where
    after : ReadState
    after = note_shard ro (k + m) r s

    Goal : Type 0
    Goal =
        ((await_data ro k m n (DataEvent.answered r ∷ events) s).1
          ≡ note_all ro (k + m) (heard k n (DataEvent.answered r ∷ events)) s)
        × IsLeft m (await_data ro k m n (DataEvent.answered r ∷ events) s)

    go :
        (a : Result RpcError NodeBlob)
        → r.answer ≡ a
        → (n + 1 == k ≡ true) ⊎ (n + 1 == k ≡ false)
        → (is_absent_block m n after.shards_not_found ≡ true)
          ⊎ (is_absent_block m n after.shards_not_found ≡ false)
        → ((await_data ro k m (n + 1) events after).1
            ≡ note_all ro (k + m) (heard k (n + 1) events) after)
          × IsLeft m (await_data ro k m (n + 1) events after)
        → Goal
    go (ok b) e (inl c) d next = simp e simp c (refl, IsLeft-later m after)
    go (ok b) e (inr c) d next = simp e simp c next
    go (err RpcError.not_found) e c (inl d) next = simp e simp d (refl, IsLeft-absent m n after d)
    go (err RpcError.not_found) e c (inr d) next = simp e simp d (refl, IsLeft-later m after)
    go (err RpcError.version_skipped) e c d next = simp e (refl, IsLeft-later m after)
    go (err RpcError.mismatch) e c d next = simp e (refl, IsLeft-later m after)
    go (err (RpcError.other x)) e c d next = simp e (refl, IsLeft-later m after)

-- The second loop takes answers up to some point: all of them, if it is left without a cohort.
abbrev pub IsTaken :
    ℕ
    → ℕ
    → ℕ
    → List (Reply NodeBlob)
    → ReadState
    → List (Reply NodeBlob)
    → List (Reply NodeBlob)
    → Type 0
IsTaken ro k m replies s before after =
    (replies ≡ before ++ after)
    × ((await_parity ro k m replies s).1 ≡ note_all ro (k + m) before s)
    × ((await_parity ro k m replies s).0 ≡ ok tt
        → decodable_cohort (note_all ro (k + m) before s).shard_results k ≡ none
        → after ≡ [])
    × IsLeft m (await_parity ro k m replies s)

pub await_parity-IsTaken :
    (ro k m : ℕ) (replies : List (Reply NodeBlob)) (s : ReadState)
    → (before : List (Reply NodeBlob)) × (after : List (Reply NodeBlob)) × IsTaken ro k m replies s
        before after
unfolding await_parity
await_parity-IsTaken ro k m [] s = ([], [], (refl, refl, (λ _ _. refl), IsLeft-later m s))
await_parity-IsTaken ro k m (r ∷ replies) s =
    let s' = note_shard ro (k + m) r s in
    let (before, after, (split, state, all, left)) = await_parity-IsTaken ro k m replies s' in
    elim (Bool-cases (is_none (decodable_cohort s'.shard_results k))) [
      | inr e ↦ (
        r ∷ [],
        replies,
        (refl, rw e refl, (λ _ f. ground (arith, e, f)), rw e (IsLeft-later m s')),
      )
      | inl e ↦
          elim (Bool-cases (is_absent_block m (received s'.shard_results) s'.shards_not_found)) [
            | inl f ↦ (
              r ∷ [],
              replies,
              (
                refl,
                rw e rw f refl,
                rw e rw f (λ g _. cc),
                rw e rw f (IsLeft-absent m (received s'.shard_results) s' f),
              ),
            )
            | inr f ↦ (
              r ∷ before,
              after,
              (ap (◌∷◌ r) split, rw e rw f state, rw e rw f all, rw e rw f left),
            )
          ]
    ]

pub note_all-append :
    (ro total : ℕ) (xs ys : List (Reply NodeBlob)) (s : ReadState)
    → note_all ro total (xs ++ ys) s ≡ note_all ro total ys (note_all ro total xs s)
note_all-append ro total [] ys s = refl
note_all-append ro total (r ∷ xs) ys s = note_all-append ro total xs ys (note_shard ro total r s)

-- The reports of absence are counted.
pub note_all-absent :
    (ro total : ℕ) (replies : List (Reply NodeBlob)) (s : ReadState)
    → (note_all ro total replies s).shards_not_found
      ≡ s.shards_not_found + length (positions_of is_absent replies)
note_all-absent ro total [] s = omega arith
note_all-absent ro total (r ∷ replies) s =
    go r.answer refl (note_all-absent ro total replies (note_shard ro total r s))
  where
    go :
        (a : Result RpcError NodeBlob)
        → r.answer ≡ a
        → (note_all ro total replies (note_shard ro total r s)).shards_not_found
          ≡ (note_shard ro total r s).shards_not_found + length (positions_of is_absent replies)
        → (note_all ro total (r ∷ replies) s).shards_not_found
          ≡ s.shards_not_found + length (positions_of is_absent (r ∷ replies))
    go (ok b) e next = unfold note_shard in ground (arith, e, next)
    go (err RpcError.not_found) e next = unfold note_shard in ground (arith, e, next)
    go (err RpcError.version_skipped) e next = unfold note_shard in ground (arith, e, next)
    go (err RpcError.mismatch) e next = unfold note_shard in ground (arith, e, next)
    go (err (RpcError.other x)) e next = unfold note_shard in ground (arith, e, next)
