-- ===== src/Proxy/Erasure/OneWrite.antt =====
-- The ends of a read, with shards of one write only.
use fractalbits.Base.Results.{Result-cases, ok, err, Result}
use fractalbits.Base.Counting.{IsDistinct, IsBelow}
use fractalbits.Base.{
  ◌*◌, ◌/◌, length-append, sym, inl, inr, Bool, ltb, ltb→lt, Bool-cases, ap, subst, All, All-split,
  ℕ, zero, suc, ◌+◌, ◌-◌, ◌≤◌, ◌<◌, ◌≡◌, refl, ◌∙◌, ◌≢◌, none, some, List, [], ◌∷◌, ◌++◌, arith,
  length, take, drop, take-append, replicate,
}
use fractalbits.Proxy.Volumes.{RpcError}
use fractalbits.Proxy.Cohorts.{ec_padded_len, NodeBlob}
use fractalbits.Proxy.Replicated.{Reply}
use fractalbits.Proxy.Replicated.Writes.{positions_of}
use fractalbits.Proxy.Replicated.Deletes.{all_positions}
use fractalbits.Proxy.Replicated.Quorums.{is_absent}
use fractalbits.Proxy.Erasure.{Bytes, pad_body, encode_shards, ec_cohort_tag}
use fractalbits.Proxy.Erasure.Arrivals.{
  Shards, ReadState, set_shard, received, note_shard, await_parity,
}
use native.Mathlib.Nat.{div-eq_of_eq-mul_right}
use fractalbits.Proxy.Erasure.Places.{are_places_lem}
use fractalbits.Proxy.Erasure.Reads.{
  encode_pieces, repair_with, join_cohort, Code, Arrivals, join_bodies, cohort_matches_padded_body,
  checked_body, inline_repair, decode_shards, read_parity, ask_shards,
}
use fractalbits.Proxy.Erasure.Loops.{note_all, is_ok, await_parity-IsTaken, note_all-absent}
use fractalbits.Proxy.Erasure.Words.{Fits, IsHonest, AreFree, note_all-Fits, decodable_cohort-Fits}
use fractalbits.Proxy.Erasure.Encoding.{concat}
use fractalbits.Proxy.Erasure.Decoding.{cohort_size_lem, HaveSize, Restores, reconstruct_lem}

pub received-drop : (n : ℕ) (shards : Shards) → received shards ≤ n + received (drop n shards)
unfolding received
received-drop zero shards = omega arith
received-drop (suc n) [] = omega arith
received-drop (suc n) (none ∷ shards) = omega (arith, received-drop n shards)
received-drop (suc n) (some b ∷ shards) = omega (arith, received-drop n shards)

received-replicate : (n : ℕ) → received (replicate n none) ≡ 0
unfolding received
received-replicate zero = refl
received-replicate (suc n) = received-replicate n

pub received-drop-replicate : (k n : ℕ) → received (drop k (replicate n none)) ≡ 0
unfolding received
received-drop-replicate zero n = received-replicate n
received-drop-replicate (suc k) zero = refl
received-drop-replicate (suc k) (suc n) = received-drop-replicate k n

drop-set_shard :
    (k i : ℕ) (b : NodeBlob) (shards : Shards)
    → i < k
    → drop k (set_shard i b shards) ≡ drop k shards
unfolding set_shard
drop-set_shard zero i b shards lt = absurd (omega arith)
drop-set_shard (suc k) i b [] lt = refl
drop-set_shard (suc k) zero b (s ∷ shards) lt = refl
drop-set_shard (suc k) (suc i) b (s ∷ shards) lt = drop-set_shard k i b shards (omega arith)

-- Answers for data shards leave the parity shards as they are.
pub drop-note_all :
    (ro total k : ℕ) (replies : List (Reply NodeBlob)) (s : ReadState)
    → IsBelow k (all_positions replies)
    → drop k (note_all ro total replies s).shard_results ≡ drop k s.shard_results
unfolding note_shard
drop-note_all ro total k [] s h = refl
drop-note_all ro total k (r ∷ replies) s h =
    drop-note_all ro total k replies (note_shard ro total r s) h.1 ∙ go r.answer refl
  where
    go :
        (a : Result RpcError NodeBlob)
        → r.answer ≡ a
        → drop k (note_shard ro total r s).shard_results ≡ drop k s.shard_results
    go (ok b) e = rw e (drop-set_shard k r.position b s.shard_results h.0)
    go (err RpcError.not_found) e = rw e refl
    go (err RpcError.version_skipped) e = rw e refl
    go (err RpcError.mismatch) e = rw e refl
    go (err (RpcError.other x)) e = rw e refl

pub positions_of-append :
    (test : Result RpcError NodeBlob → Bool) (xs ys : List (Reply NodeBlob))
    → length (positions_of test (xs ++ ys))
      ≡ length (positions_of test xs) + length (positions_of test ys)
positions_of-append test [] ys = omega arith
positions_of-append test (r ∷ xs) ys = ground (arith, positions_of-append test xs ys)

join_bodies_lem :
    (tag : ℕ) (data_ parity : List Bytes) (shards : Shards)
    → Fits tag (data_ ++ parity) shards
    → received (drop (length data_) shards) ≡ 0
    → length data_ ≤ received shards
    → join_bodies (take (length data_) shards) ≡ some (concat data_)
unfolding join_bodies received
join_bodies_lem tag [] parity shards h e le = refl
join_bodies_lem tag (x ∷ data_) parity [] h e le = absurd h
join_bodies_lem tag (x ∷ data_) parity (none ∷ shards) h e le =
    absurd (omega (arith, received-drop (length data_) shards, e))
join_bodies_lem tag (x ∷ data_) parity (some b ∷ shards) h e le =
    rw (join_bodies_lem tag data_ parity shards h.1 e (omega arith)) rw h.0.0 refl

length-concat :
    (size : ℕ) (xs : List Bytes) → HaveSize size xs → length (concat xs) ≡ length xs * size
length-concat size [] h = grind arith
length-concat size (x ∷ xs) h =
    grind (arith, length-append x (concat xs), length-concat size xs h.1, h.0)

-- The shards of a body and the conditions under which they are read.
module _ (c : Code) (body : Bytes) (data_ parity : List Bytes) (size : ℕ) where
  abbrev pub padded_body : Bytes
  padded_body = pad_body c.data_shards body

  abbrev pub cohort : ℕ
  cohort = ec_cohort_tag c.xxh3 padded_body

  abbrev pub AreShards : Type 0
  AreShards =
      (0 < c.data_shards)
      × (length data_ ≡ c.data_shards)
      × HaveSize size (data_ ++ parity)
      × (concat data_ ≡ padded_body)
      × (encode_shards c.rs_encode c.data_shards c.parity_shards padded_body
          ≡ some (data_ ++ parity))
      × Restores c.rs_decode c.data_shards c.parity_shards data_ parity

  pub cohort_positive : cohort ≢ 0
  cohort_positive e = unfold ec_cohort_tag in omega (arith, e)

  checked_body_lem : checked_body c.xxh3 cohort (length body) padded_body ≡ ok body
  unfolding checked_body cohort_matches_padded_body
  checked_body_lem =
      let pad = ec_padded_len (length body) c.data_shards - length body in
      let zeros : Bytes = replicate pad 0 in
      let start : take (length body) padded_body ≡ body =
        unfold pad_body in take-append body zeros (length body) refl in
      ground (arith, start, cohort_positive)

  padded_length : AreShards → length padded_body ≡ c.data_shards * size
  padded_length (_, len, sizes, joined, _, _) =
      let (mine, _) = All-split (λ s. length s ≡ size) data_ parity sizes in
      sym (ap (λ (p : Bytes). length p) joined)
      ∙ length-concat size data_ mine
      ∙ ap (λ n. n * size) len

  encode_pieces_lem : AreShards → encode_pieces c size padded_body ≡ some (data_ ++ parity)
  unfolding encode_pieces encode_shards
  encode_pieces_lem shards =
      let same : length padded_body / c.data_shards ≡ size =
        div-eq_of_eq-mul_right shards.0 (padded_length shards) in
      ground (arith, shards.4, same)

  repair_with_lem :
      (ro : ℕ) (clock : ℕ → ℕ) (repaired : List (Reply (Unit {0}))) (s : ReadState)
      → AreShards
      → (repair_with c ro clock repaired cohort size padded_body body s).result ≡ some (ok body)
  unfolding repair_with
  repair_with_lem ro clock repaired s shards =
      ground (arith, padded_length shards, encode_pieces_lem shards)

  inline_repair_lem :
      (ro : ℕ) (clock : ℕ → ℕ) (repaired : List (Reply (Unit {0}))) (s : ReadState)
      → AreShards
      → Fits cohort (data_ ++ parity) s.shard_results
      → 0 < received s.shard_results
      → (inline_repair c ro clock repaired cohort padded_body body s).result ≡ some (ok body)
  unfolding inline_repair
  inline_repair_lem ro clock repaired s shards fits pos = go s.missing refl
    where
      go :
          (l : List ℕ)
          → s.missing ≡ l
          → (inline_repair c ro clock repaired cohort padded_body body s).result ≡ some (ok body)
      go [] e = ground (arith, e)
      go (x ∷ xs) e =
          let found =
            cohort_size_lem cohort size (data_ ++ parity) s.shard_results fits shards.2 pos in
          ground (arith, e, found, repair_with_lem ro clock repaired s shards)

  decode_shards_lem :
      (ro : ℕ) (clock : ℕ → ℕ) (repaired : List (Reply (Unit {0}))) (s : ReadState)
      → AreShards
      → Fits cohort (data_ ++ parity) s.shard_results
      → c.data_shards ≤ received s.shard_results
      → (decode_shards c ro clock repaired (length body) s).result ≡ some (ok body)
  unfolding decode_shards
  decode_shards_lem ro clock repaired s shards fits enough =
      let (pos, len, sizes, joined, encoded, restores) = shards in
      let k = c.data_shards in
      let found =
        (decodable_cohort-Fits cohort k (data_ ++ parity) s.shard_results cohort_positive pos
            fits).0
          enough in
      let decoded =
        reconstruct_lem c.rs_decode k c.parity_shards cohort size data_ parity s.shard_results pos
          len sizes restores fits enough in
      ground (
        arith,
        found,
        decoded ∙ ap ok joined,
        checked_body_lem,
        inline_repair_lem ro clock repaired s shards fits (omega (arith, pos, enough)),
      )

  -- What the second part of a read needs to end with the body.
  abbrev pub WillDecode : List (Reply NodeBlob) → ReadState → Type 0
  WillDecode replies s =
      Fits cohort (data_ ++ parity) s.shard_results
      × AreFree s.shard_results (all_positions replies)
      × IsDistinct (all_positions replies)
      × All (IsHonest cohort (data_ ++ parity)) replies
      × (c.data_shards ≤ received s.shard_results + length (positions_of is_ok replies))
      × (s.shards_not_found + length (positions_of is_absent replies) < c.parity_shards)

  pub read_parity_lem :
      (ro : ℕ) (a : Arrivals) (s : ReadState)
      → AreShards
      → WillDecode a.replies s
      → c.data_shards + c.parity_shards ≤ length s.nodes
      → (read_parity c ro a (length body) s).result ≡ some (ok body)
  unfolding read_parity
  read_parity_lem ro a s shards (fits, free, distinct, honest, enough, few) room =
      let k = c.data_shards in
      let m = c.parity_shards in
      let asked = record s { nodes = ask_shards a.parity_clock ro (k + m) k m s.nodes } in
      let places = are_places_lem ro (k + m) (length s.nodes) k m (omega (arith, shards.0)) room in
      let (before, after, (split, state, all, left)) =
        await_parity-IsTaken ro k m a.replies asked in
      let honest' =
        All-split (IsHonest cohort (data_ ++ parity)) before after
          (subst (All (IsHonest cohort (data_ ++ parity))) split honest) in
      let (fits', n, _) =
        note_all-Fits cohort (data_ ++ parity) ro (k + m) before after asked honest'.0
          (subst (λ l. IsDistinct (all_positions l)) split distinct) fits
          (subst (λ l. AreFree s.shard_results (all_positions l)) split free) in
      let total_ok : length (positions_of is_ok a.replies)
          ≡ length (positions_of is_ok before) + length (positions_of is_ok after) =
        ap (λ l. length (positions_of is_ok l)) split ∙ positions_of-append is_ok before after in
      let total_absent : length (positions_of is_absent a.replies)
          ≡ length (positions_of is_absent before) + length (positions_of is_absent after) =
        ap (λ l. length (positions_of is_absent l)) split
        ∙ positions_of-append is_absent before after in
      let last = note_all ro (k + m) before asked in
      elim (Result-cases (await_parity ro k m a.replies asked).0) [
        | inl (e, f) ↦
            let many = subst (λ t. m ≤ t.shards_not_found) state (left e f).1 in
            absurd (omega (arith, many, note_all-absent ro (k + m) before asked, total_absent, few))
        | inr (_, f) ↦
            let reached : k ≤ received last.shard_results =
              elim (Bool-cases (ltb (received last.shard_results) k)) [
                | inr g ↦ ground (arith, g)
                | inl g ↦
                    let missed =
                      (decodable_cohort-Fits cohort k (data_ ++ parity) last.shard_results
                          cohort_positive shards.0 fits').1
                        (ltb→lt (received last.shard_results) k g) in
                    let none_left : length (positions_of is_ok after) ≡ 0 =
                      ap (λ l. length (positions_of is_ok l)) (all f missed) in
                    omega (arith, n, total_ok, none_left, enough)
              ] in
            let decoded : (decode_shards c ro a.repair_clock a.repaired (length body)
                  (await_parity ro k m a.replies asked).1).result
                ≡ some (ok body) =
              decode_shards_lem ro a.repair_clock a.repaired (await_parity ro k m a.replies asked).1
                shards
                (subst (λ t. Fits cohort (data_ ++ parity) t.shard_results) (sym state) fits')
                (subst (λ t. k ≤ received t.shard_results) (sym state) reached) in
            ground (arith, f, decoded, places)
      ]

  pub join_cohort_lem :
      (s : ReadState)
      → AreShards
      → Fits cohort (data_ ++ parity) s.shard_results
      → received (drop c.data_shards s.shard_results) ≡ 0
      → c.data_shards ≤ received s.shard_results
      → (join_cohort c (length body) cohort s).result ≡ some (ok body)
  unfolding join_cohort
  join_cohort_lem s (pos, len, _, joined, _, _) fits rest enough =
      let bodies =
        join_bodies_lem cohort data_ parity s.shard_results fits
          (subst (λ n. received (drop n s.shard_results) ≡ 0) (sym len) rest)
          (omega (arith, len, enough)) in
      let here : join_bodies (take c.data_shards s.shard_results) ≡ some padded_body =
        subst (λ n. join_bodies (take n s.shard_results) ≡ some (concat data_)) len bodies
        ∙ ap some joined in
      ground (arith, here, checked_body_lem)
