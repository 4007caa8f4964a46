-- ===== src/Proxy/Erasure/Unmixed.antt =====
-- What a read returns is the start of a padded body that its shards' tag vouches for.
use fractalbits.Base.Results.{Result-cases, err, ok, Result}
use fractalbits.Base.{
  ◌*◌, ltb, not, ◌||◌, length, ◌<◌, sym, subst, All-split, ap, ◌∙◌, Bool, if◌then◌else◌, ==→eq,
  Option-cases, take, ℕ, zero, suc, ◌+◌, ◌≡◌, refl, ◌≢◌, ◌⊎◌, inl, inr, true, false, none, some,
  List, [], ◌∷◌, arith, ◌==◌, Bool-cases, All, replicate,
}
use fractalbits.Proxy.Volumes.{RpcError}
use fractalbits.Proxy.Erasure.Arrivals.{
  Shards, DataEvent, ReadState, set_shard, note_shard, await_data, await_parity,
}
use fractalbits.Proxy.Erasure.{Nodes, Bytes, ec_cohort_tag}
use fractalbits.Proxy.Erasure.Loops.{note_all, heard, is_ok, await_data-heard, await_parity-IsTaken}
use fractalbits.Proxy.Erasure.Reads.{
  repair_with, encode_pieces, cohort_size, are_places, panicked, Code, Arrivals, join_bodies,
  checked_body, cohort_matches_padded_body, reconstruct, inline_repair, decode_shards, failed_get,
  join_cohort, read_parity, get_blob_ec, ask_shards, initial,
}
use fractalbits.Proxy.Cohorts.{NodeBlob, first_cohort, decodable_cohort}
use fractalbits.Proxy.Replicated.{Nodes, Reply}

-- Every shard has a tag of 0 or one with the property.
abbrev AreTagged : (ℕ → Type 0) → Shards → Type 0
AreTagged P [] = Unit {0}
AreTagged P (none ∷ shards) = AreTagged P shards
AreTagged P (some b ∷ shards) = (b.cohort_tag ≢ 0 → P b.cohort_tag) × AreTagged P shards

-- The same of the shard in an answer.
abbrev pub IsTagged : (ℕ → Type 0) → Reply NodeBlob → Type 0
IsTagged P r = (b : NodeBlob) → r.answer ≡ ok b → b.cohort_tag ≢ 0 → P b.cohort_tag

abbrev pub IsTaggedEvent : (ℕ → Type 0) → DataEvent → Type 0
IsTaggedEvent P (DataEvent.answered r) = IsTagged P r
IsTaggedEvent P DataEvent.hedge = Unit {0}

module _ (P : ℕ → Type 0) where
  AreTagged-replicate : (n : ℕ) → AreTagged P (replicate n none)
  AreTagged-replicate zero = tt
  AreTagged-replicate (suc n) = AreTagged-replicate n

  AreTagged-set_shard :
      (i : ℕ) (b : NodeBlob) (shards : Shards)
      → (b.cohort_tag ≢ 0 → P b.cohort_tag)
      → AreTagged P shards
      → AreTagged P (set_shard i b shards)
  unfolding set_shard
  AreTagged-set_shard i b [] t h = tt
  AreTagged-set_shard zero b (none ∷ shards) t h = (t, h)
  AreTagged-set_shard zero b (some c ∷ shards) t h = (t, h.1)
  AreTagged-set_shard (suc i) b (none ∷ shards) t h = AreTagged-set_shard i b shards t h
  AreTagged-set_shard (suc i) b (some c ∷ shards) t h = (h.0, AreTagged-set_shard i b shards t h.1)

  AreTagged-note_shard :
      (ro total : ℕ) (r : Reply NodeBlob) (s : ReadState)
      → IsTagged P r
      → AreTagged P s.shard_results
      → AreTagged P (note_shard ro total r s).shard_results
  unfolding note_shard
  AreTagged-note_shard ro total r s t h = go r.answer refl
    where
      go :
          (a : Result RpcError NodeBlob)
          → r.answer ≡ a
          → AreTagged P (note_shard ro total r s).shard_results
      go (ok b) e = rw e (AreTagged-set_shard r.position b s.shard_results (t b e) h)
      go (err RpcError.not_found) e = rw e h
      go (err RpcError.version_skipped) e = rw e h
      go (err RpcError.mismatch) e = rw e h
      go (err (RpcError.other x)) e = rw e h

  AreTagged-note_all :
      (ro total : ℕ) (replies : List (Reply NodeBlob)) (s : ReadState)
      → All (IsTagged P) replies
      → AreTagged P s.shard_results
      → AreTagged P (note_all ro total replies s).shard_results
  AreTagged-note_all ro total [] s t h = h
  AreTagged-note_all ro total (r ∷ replies) s t h =
      AreTagged-note_all ro total replies (note_shard ro total r s) t.1
        (AreTagged-note_shard ro total r s t.0 h)

  All-heard :
      (k n : ℕ) (events : List DataEvent)
      → All (IsTaggedEvent P) events
      → All (IsTagged P) (heard k n events)
  All-heard k n [] t = tt
  All-heard k n (DataEvent.hedge ∷ events) t = tt
  All-heard k n (DataEvent.answered r ∷ events) t =
      (t.0, pick (is_ok r.answer) (n + 1 == k) (All-heard k (n + 1) events t.1))
    where
      pick :
          (y z : Bool)
          → All (IsTagged P) (heard k (n + 1) events)
          → All (IsTagged P) (if y then (if z then [] else heard k (n + 1) events) else [])
      pick true true h = tt
      pick true false h = h
      pick false z h = tt

  first_cohort_tagged :
      (all : Shards) (k : ℕ) (rest : Shards) (t : ℕ)
      → AreTagged P rest
      → first_cohort all k rest ≡ some t
      → P t
  unfolding first_cohort
  first_cohort_tagged all k [] t h e = cc
  first_cohort_tagged all k (none ∷ rest) t h e = first_cohort_tagged all k rest t h e
  first_cohort_tagged all k (some b ∷ rest) t h e =
      ground (arith, h, e, first_cohort_tagged all k rest t h.1)

  decodable_cohort_tagged :
      (shards : Shards) (k t : ℕ) → AreTagged P shards → decodable_cohort shards k ≡ some t → P t
  unfolding decodable_cohort
  decodable_cohort_tagged shards k t h e = first_cohort_tagged shards k shards t h e

-- A padded body with that tag.
abbrev Vouched : (Bytes → ℕ) → ℕ → ℕ → Bytes → Type 0
Vouched xxh3 len t body = (q : Bytes) × (ec_cohort_tag xxh3 q ≡ t) × (body ≡ take len q)

checked_body-Vouched :
    (xxh3 : Bytes → ℕ) (t len : ℕ) (padded body : Bytes)
    → checked_body xxh3 t len padded ≡ ok body
    → Vouched xxh3 len t body
unfolding checked_body cohort_matches_padded_body
checked_body-Vouched xxh3 t len padded body h = elim (Bool-cases (t == 0)) [
  | inl z ↦ absurd (ground (arith, z, h))
  | inr z ↦ elim (Bool-cases (ec_cohort_tag xxh3 padded == t)) [
    | inr e ↦ absurd (ground (arith, z, e, h))
    | inl e ↦ (padded, ==→eq (ec_cohort_tag xxh3 padded) t e, ground (arith, z, e, h))
  ]
]

join_cohort-Vouched :
    (c : Code) (len t : ℕ) (s : ReadState) (body : Bytes)
    → (join_cohort c len t s).result ≡ some (ok body)
    → Vouched c.xxh3 len t body
unfolding join_cohort
join_cohort-Vouched c len t s body h =
    elim (Option-cases (join_bodies (take c.data_shards s.shard_results))) [
      | inl e ↦ absurd (ground (arith, e, h))
      | inr (padded, e) ↦ checked_body-Vouched c.xxh3 t len padded body (ground (arith, e, h))
    ]

repair_with_ok :
    (c : Code) (ro : ℕ) (clock : ℕ → ℕ) (repaired : List (Reply (Unit {0}))) (t size : ℕ)
    (padded b : Bytes) (s : ReadState) (body : Bytes)
    → (repair_with c ro clock repaired t size padded b s).result ≡ some (ok body)
    → b ≡ body
unfolding repair_with failed_get panicked
repair_with_ok c ro clock repaired t size padded b s body h =
    elim (Bool-cases (ltb (length padded) (c.data_shards * size))) [
      | inl f ↦ absurd (ground (arith, f, h))
      | inr f ↦ elim (Option-cases (encode_pieces c size padded)) [
        | inl g ↦ absurd (ground (arith, f, g, h))
        | inr (shards, g) ↦ ground (arith, f, g, h)
      ]
    ]

inline_repair_ok :
    (c : Code) (ro : ℕ) (clock : ℕ → ℕ) (repaired : List (Reply (Unit {0}))) (t : ℕ)
    (padded b : Bytes) (s : ReadState) (body : Bytes)
    → (inline_repair c ro clock repaired t padded b s).result ≡ some (ok body)
    → b ≡ body
unfolding inline_repair failed_get
inline_repair_ok c ro clock repaired t padded b s body h = go s.missing refl
  where
    go : (l : List ℕ) → s.missing ≡ l → b ≡ body
    go [] e = ground (arith, e, h)
    go (x ∷ xs) e = elim (Option-cases (cohort_size t s.shard_results)) [
      | inl f ↦ absurd (ground (arith, e, f, h))
      | inr (size, f) ↦
          repair_with_ok c ro clock repaired t size padded b s body (ground (arith, e, f, h))
    ]

module _ (P : ℕ → Type 0) where
  decode_shards-Vouched :
      (c : Code) (ro : ℕ) (clock : ℕ → ℕ) (repaired : List (Reply (Unit {0}))) (len : ℕ)
      (s : ReadState) (body : Bytes)
      → AreTagged P s.shard_results
      → (decode_shards c ro clock repaired len s).result ≡ some (ok body)
      → (t : ℕ) × P t × Vouched c.xxh3 len t body
  unfolding decode_shards failed_get
  decode_shards-Vouched c ro clock repaired len s body tagged h =
      elim (Option-cases (decodable_cohort s.shard_results c.data_shards)) [
        | inl e ↦ absurd (ground (arith, e, h))
        | inr (t, e) ↦
            elim (Result-cases
              (reconstruct c.rs_decode c.data_shards c.parity_shards t s.shard_results)) [
                | inl (x, f) ↦ absurd (ground (arith, e, f, h))
                | inr (padded, f) ↦ elim (Result-cases (checked_body c.xxh3 t len padded)) [
                  | inl (x, g) ↦ absurd (ground (arith, e, f, g, h))
                  | inr (b, g) ↦
                      let same : b ≡ body =
                        inline_repair_ok c ro clock repaired t padded b s body
                          (ground (arith, e, f, g, h)) in
                      (
                        t,
                        decodable_cohort_tagged P s.shard_results c.data_shards t tagged e,
                        checked_body-Vouched c.xxh3 t len padded body (g ∙ ap ok same),
                      )
                ]
              ]
      ]

  read_parity-Vouched :
      (c : Code) (ro : ℕ) (a : Arrivals) (len : ℕ) (s : ReadState) (body : Bytes)
      → All (IsTagged P) a.replies
      → AreTagged P s.shard_results
      → (read_parity c ro a len s).result ≡ some (ok body)
      → (t : ℕ) × P t × Vouched c.xxh3 len t body
  unfolding read_parity failed_get panicked
  read_parity-Vouched c ro a len s body tr tagged h =
      let k = c.data_shards in
      let m = c.parity_shards in
      let asked = record s { nodes = ask_shards a.parity_clock ro (k + m) k m s.nodes } in
      let (before, after, (split, state, _, _)) = await_parity-IsTaken ro k m a.replies asked in
      let taken = (All-split (IsTagged P) before after (subst (All (IsTagged P)) split tr)).0 in
      let end_tagged : AreTagged P (await_parity ro k m a.replies asked).1.shard_results =
        rw state (AreTagged-note_all P ro (k + m) before asked taken tagged) in
      elim (Result-cases (await_parity ro k m a.replies asked).0) [
        | inl (e, f) ↦ elim (Bool-cases (are_places ro (k + m) (length s.nodes) k m)) [
          | inr w ↦ absurd (ground (arith, w, h))
          | inl w ↦ absurd (ground (arith, f, h, w))
        ]
        | inr (_, f) ↦ elim (Bool-cases (are_places ro (k + m) (length s.nodes) k m)) [
          | inr w ↦ absurd (ground (arith, w, h))
          | inl w ↦
              decode_shards-Vouched c ro a.repair_clock a.repaired len
                (await_parity ro k m a.replies asked).1 body end_tagged (ground (arith, f, h, w))
        ]
      ]

  get_blob_ec-Vouched :
      (c : Code) (ro len : ℕ) (a : Arrivals) (nodes : Nodes) (body : Bytes)
      → All (IsTaggedEvent P) a.events
      → All (IsTagged P) a.replies
      → (get_blob_ec c ro (suc len) a nodes).result ≡ some (ok body)
      → (t : ℕ) × P t × Vouched c.xxh3 (suc len) t body
  unfolding get_blob_ec failed_get panicked
  get_blob_ec-Vouched c ro len a nodes body te tr h =
      let k = c.data_shards in
      let m = c.parity_shards in
      let start = initial (k + m) (ask_shards a.clock ro (k + m) 0 k nodes) in
      let (state, _) = await_data-heard ro k m 0 a.events start in
      let start_tagged : AreTagged P start.shard_results =
        unfold initial in AreTagged-replicate P (k + m) in
      let tagged : AreTagged P (await_data ro k m 0 a.events start).1.shard_results = rw state (
        AreTagged-note_all P ro (k + m) (heard k 0 a.events) start (All-heard P k 0 a.events te)
          start_tagged) in
      let s = (await_data ro k m 0 a.events start).1 in
      let bad = (k == 0) || not (are_places ro (k + m) (length nodes) 0 k) in
      elim (Bool-cases bad) [
        | inl w ↦ absurd (ground (arith, w, h))
        | inr w ↦ elim (Result-cases (await_data ro k m 0 a.events start).0) [
          | inl (e, f) ↦ absurd (ground (arith, f, h, w))
          | inr (_, f) ↦ elim (Option-cases (decodable_cohort s.shard_results k)) [
            | inl g ↦
                read_parity-Vouched c ro a (suc len) s body tr tagged (ground (arith, f, g, h, w))
            | inr (t, g) ↦ (
              t,
              decodable_cohort_tagged P s.shard_results k t tagged g,
              join_cohort-Vouched c (suc len) t s body (ground (arith, f, g, h, w)),
            )
          ]
        ]
      ]

abbrev pub IsElem : Bytes → List Bytes → Type 0
IsElem p [] = ⊥
IsElem p (q ∷ qs) = (p ≡ q) ⊎ IsElem p qs

-- The tag is that of one of these padded bodies.
abbrev pub IsTagOf : (Bytes → ℕ) → List Bytes → ℕ → Type 0
IsTagOf xxh3 [] t = ⊥
IsTagOf xxh3 (p ∷ written) t = (ec_cohort_tag xxh3 p ≡ t) ⊎ IsTagOf xxh3 written t

-- Among the written bodies, the one with a tag.
written_with :
    (xxh3 : Bytes → ℕ) (written : List Bytes) (t : ℕ)
    → IsTagOf xxh3 written t
    → (p : Bytes) × IsElem p written × (ec_cohort_tag xxh3 p ≡ t)
written_with xxh3 [] t h = absurd h
written_with xxh3 (p ∷ written) t (inl e) = (p, inl refl, e)
written_with xxh3 (p ∷ written) t (inr h) =
    let (q, i, e) = written_with xxh3 written t h in (q, inr i, e)

-- Where every shard that a node answers with has a cohort tag of 0 or that of one of the padded
-- bodies that were written, a read that returns a body returns the start, as long as asked for, of
-- a padded body with the tag of a written one, in whatever order the answers come: so that shards
-- of different writes are never joined to a body, unless its hash is that of a written body.
pub get_blob_ec_unmixed :
    (c : Code) (ro len : ℕ) (a : Arrivals) (nodes : Nodes) (written : List Bytes) (body : Bytes)
    → 0 < len
    → All (IsTaggedEvent (IsTagOf c.xxh3 written)) a.events
    → All (IsTagged (IsTagOf c.xxh3 written)) a.replies
    → (get_blob_ec c ro len a nodes).result ≡ some (ok body)
    → (p : Bytes) × IsElem p written
      × (q : Bytes) × (ec_cohort_tag c.xxh3 q ≡ ec_cohort_tag c.xxh3 p)
      × (body ≡ take len q)
get_blob_ec_unmixed c ro zero a nodes written body pos te tr h = absurd (omega arith)
get_blob_ec_unmixed c ro (suc len) a nodes written body pos te tr h =
    let (t, known, (q, e, f)) =
      get_blob_ec-Vouched (IsTagOf c.xxh3 written) c ro len a nodes body te tr h in
    let (p, i, g) = written_with c.xxh3 written t known in (p, i, q, e ∙ sym g, f)
