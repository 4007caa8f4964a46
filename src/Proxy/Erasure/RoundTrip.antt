-- ===== src/Proxy/Erasure/RoundTrip.antt =====
-- A body that was encoded comes back from a read, whichever shards arrive, if they are enough.
use fractalbits.Base.Results.{Result-cases, ok}
use fractalbits.Base.Counting.{IsDistinct, IsBelow}
use fractalbits.Base.{
  ◌*◌, ◌/◌, length-append, All-append, inl, inr, ltb, ltb→lt, Bool-cases, ap, subst, All, All-split,
  ℕ, ◌+◌, ◌≤◌, ◌<◌, ◌≡◌, refl, ◌∙◌, some, List, [], ◌∷◌, ◌++◌, arith, length, drop,
}
use fractalbits.Proxy.Cohorts.{NodeBlob}
use fractalbits.Proxy.Replicated.{Nodes, Reply}
use fractalbits.Proxy.Replicated.Writes.{positions_of}
use fractalbits.Proxy.Replicated.Deletes.{all_positions}
use fractalbits.Proxy.Replicated.Quorums.{is_absent}
use fractalbits.Proxy.Erasure.{split_shards, Nodes, Bytes, pad_body, encode_shards, ec_cohort_tag}
use fractalbits.Proxy.Erasure.Arrivals.{await_data, received}
use fractalbits.Proxy.Erasure.Places.{are_places_lem, length-ask_shards, note_all-SameLengths}
use fractalbits.Proxy.Erasure.Reads.{initial, get_blob_ec, Code, Arrivals, ask_shards}
use fractalbits.Proxy.Erasure.Loops.{await_data-heard, heard, note_all, is_ok, note_all-absent}
use fractalbits.Proxy.Erasure.Words.{
  AreFree-replicate, Fits-replicate, IsHonest, note_all-Fits, decodable_cohort-Fits,
}
use fractalbits.Proxy.Erasure.Encoding.{concat-split_shards, split_shards-length, shard_size_lem}
use fractalbits.Proxy.Erasure.Decoding.{IsCode}
use fractalbits.Proxy.Erasure.OneWrite.{
  drop-note_all, received-drop-replicate, positions_of-append, cohort, AreShards, WillDecode,
  cohort_positive, read_parity_lem, join_cohort_lem,
}

-- What a read needs: each node answers at most once for its shard and with the right one, the
-- first loop has asked for data shards only, enough shards and few reports of absence come.
abbrev pub WillRead : Code → Bytes → List Bytes → Arrivals → Type 0
WillRead c body word a =
    let taken = heard c.data_shards 0 a.events in
    IsDistinct (all_positions (taken ++ a.replies))
    × IsBelow (c.data_shards + c.parity_shards) (all_positions (taken ++ a.replies))
    × IsBelow c.data_shards (all_positions taken)
    × All (IsHonest (ec_cohort_tag c.xxh3 (pad_body c.data_shards body)) word) (taken ++ a.replies)
    × (c.data_shards ≤ length (positions_of is_ok (taken ++ a.replies)))
    × (length (positions_of is_absent (taken ++ a.replies)) < c.parity_shards)

IsDistinct-rest :
    (xs ys : List (Reply NodeBlob))
    → IsDistinct (all_positions (xs ++ ys))
    → IsDistinct (all_positions ys)
IsDistinct-rest [] ys h = h
IsDistinct-rest (r ∷ xs) ys h = IsDistinct-rest xs ys h.1

get_blob_ec_lem :
    (c : Code) (b : ℕ) (bs : Bytes) (data_ parity : List Bytes) (size ro : ℕ) (a : Arrivals)
    (nodes : Nodes)
    → AreShards c (b ∷ bs) data_ parity size
    → length parity ≡ c.parity_shards
    → WillRead c (b ∷ bs) (data_ ++ parity) a
    → c.data_shards + c.parity_shards ≤ length nodes
    → (get_blob_ec c ro (length (b ∷ bs)) a nodes).result ≡ some (ok (b ∷ bs))
unfolding get_blob_ec
get_blob_ec_lem c b bs data_ parity size ro a nodes shards plen
      (distinct, below, data_only, honest, enough, few) room =
    let k = c.data_shards in
    let m = c.parity_shards in
    let word = data_ ++ parity in
    let tag = cohort c (b ∷ bs) data_ parity size in
    let taken = heard k 0 a.events in
    let start = initial (k + m) (ask_shards a.clock ro (k + m) 0 k nodes) in
    let places = are_places_lem ro (k + m) (length nodes) 0 k (omega (arith, shards.0)) room in
    let positive : 0 < k = shards.0 in
    let (state, left) = await_data-heard ro k m 0 a.events start in
    let s = note_all ro (k + m) taken start in
    let asked : length start.nodes ≡ length nodes =
      unfold initial in length-ask_shards a.clock ro (k + m) 0 k nodes in
    let (fits, n, free) =
      note_all-Fits tag word ro (k + m) taken a.replies start
        (All-split (IsHonest tag word) taken a.replies honest).0 distinct
        (unfold initial in
          Fits-replicate tag word (k + m)
            (omega (arith, length-append data_ parity, shards.1, plen)))
        (unfold initial in AreFree-replicate (k + m) (all_positions (taken ++ a.replies)) below) in
    let none_yet : received start.shard_results ≡ 0 =
      unfold initial in received-drop-replicate 0 (k + m) in
    let oks = positions_of-append is_ok taken a.replies in
    let absents = positions_of-append is_absent taken a.replies in
    let noted = note_all-absent ro (k + m) taken start in
    let zero_ : start.shards_not_found ≡ 0 = unfold initial in refl in
    elim (Result-cases (await_data ro k m 0 a.events start).0) [
      | inl (e, f) ↦
          let many = subst (λ t. m ≤ t.shards_not_found) state (left e f).1 in
          absurd (omega (arith, many, noted, zero_, absents, few))
      | inr (_, f) ↦ elim (Bool-cases (ltb (received s.shard_results) k)) [
        | inl g ↦
            let missed =
              (decodable_cohort-Fits tag k word s.shard_results
                  (cohort_positive c (b ∷ bs) data_ parity size) shards.0 fits).1
                (ltb→lt (received s.shard_results) k g) in
            let rest : WillDecode c (b ∷ bs) data_ parity size a.replies s = (
              fits,
              free,
              IsDistinct-rest taken a.replies distinct,
              (All-split (IsHonest tag word) taken a.replies honest).1,
              omega (arith, n, none_yet, oks, enough),
              omega (arith, noted, zero_, absents, few),
            ) in
            let still : k + m ≤ length s.nodes =
              omega (arith, room, (note_all-SameLengths ro (k + m) taken start).0, asked) in
            let read = read_parity_lem c (b ∷ bs) data_ parity size ro a s shards rest still in
            ground (arith, f, state, missed, read, places, positive)
        | inr g ↦
            let reached : k ≤ received s.shard_results = ground (arith, g) in
            let found =
              (decodable_cohort-Fits tag k word s.shard_results
                  (cohort_positive c (b ∷ bs) data_ parity size) shards.0 fits).0
                reached in
            let rest : received (drop k s.shard_results) ≡ 0 =
              ap received (drop-note_all ro (k + m) k taken start data_only)
              ∙ (unfold initial in received-drop-replicate k (k + m)) in
            let joined = join_cohort_lem c (b ∷ bs) data_ parity size s shards fits rest reached in
            ground (arith, f, state, found, joined, places, positive)
      ]
    ]

-- The shards that a write of the body sends.
AreShards-encode_shards :
    (c : Code) (body : Bytes)
    → 0 < c.data_shards
    → 0 < length body
    → IsCode c.rs_encode c.rs_decode c.data_shards c.parity_shards
    → (data_ : List Bytes) × (parity : List Bytes) × (size : ℕ) × AreShards c body data_ parity size
      × (length parity ≡ c.parity_shards)
unfolding encode_shards
AreShards-encode_shards c body pos some_ code =
    let k = c.data_shards in
    let padded = pad_body k body in
    let size = length padded / k in
    let data_ = split_shards size 0 k padded in
    let start : 0 * size ≡ 0 = grind arith in
    let (even, positive, whole) = shard_size_lem k body pos some_ in
    let (len, sizes) = split_shards-length size 0 k padded (grind (arith, whole)) in
    let (parity, encoded, plen, psizes, restores) = code data_ size len positive even sizes in
    (
      data_,
      parity,
      size,
      (
        pos,
        len,
        All-append (λ s. length s ≡ size) data_ parity sizes psizes,
        concat-split_shards size 0 k padded (grind (arith, whole)) ∙ ap (λ n. drop n padded) start,
        ground (arith, encoded),
        restores,
      ),
      plen,
    )

-- For a Reed-Solomon code with at least one data shard, a volume with a node for each shard, a body
-- that is not empty, and the shards that a write of it encodes: a read returns exactly the body,
-- whichever of the shards arrive and in whatever order, whatever the delay and the state of the
-- breakers; provided that the answers come from different shards, those of the first loop from data
-- shards, that each body is the shard that was written with the tag that was written, that enough
-- bodies come to decode, and that fewer shards are reported absent than there are parity shards.
pub get_blob_ec_total :
    (c : Code) (body : Bytes) (word : List Bytes) (ro : ℕ) (a : Arrivals) (nodes : Nodes)
    → 0 < c.data_shards
    → 0 < length body
    → IsCode c.rs_encode c.rs_decode c.data_shards c.parity_shards
    → encode_shards c.rs_encode c.data_shards c.parity_shards (pad_body c.data_shards body)
      ≡ some word
    → WillRead c body word a
    → c.data_shards + c.parity_shards ≤ length nodes
    → (get_blob_ec c ro (length body) a nodes).result ≡ some (ok body)
get_blob_ec_total c [] word ro a nodes pos some_ code encoded will room = absurd (omega arith)
get_blob_ec_total c (b ∷ bs) word ro a nodes pos some_ code encoded will room =
    let (data_, parity, size, shards, plen) = AreShards-encode_shards c (b ∷ bs) pos some_ code in
    let same : word ≡ data_ ++ parity = cc (encoded, shards.4) in
    get_blob_ec_lem c b bs data_ parity size ro a nodes shards plen
      (subst (λ w. WillRead c (b ∷ bs) w a) same will) room
