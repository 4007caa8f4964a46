-- ===== src/Proxy/Erasure/Reads.antt =====
-- data_vg_proxy.rs, the read of an erasure-coded block: the data shards first, the parity shards if
-- one of them fails or is late, and then the decoding. `rs_decode` is the Reed-Solomon decoder: it
-- gives the data shards that were missing, by index.
use fractalbits.Base.{
  ◌*◌, true, ◌||◌, ltb, replicate, ℕ, zero, suc, ◌+◌, Bool, false, not, ◌&&◌, Option, none, some,
  List, [], ◌∷◌, ◌++◌, ◌==◌, if◌then◌else◌, length, take, drop, ◌>>=◌,
}
use fractalbits.Base.Results.{Result, ok, err}
use fractalbits.Base.Counting.{count, mem}
use fractalbits.Proxy.Breaker.{is_available}
use fractalbits.Proxy.Volumes.{DataVgError}
use fractalbits.Proxy.Cohorts.{NodeBlob, node_index, decodable_cohort}
use fractalbits.Proxy.Replicated.{Nodes, Reply, background_writes}
use fractalbits.Proxy.Erasure.{Bytes, ec_cohort_tag, split_shards, ShardWrite}
use fractalbits.Proxy.Erasure.Arrivals.{
  Shards, DataEvent, ReadState, received, is_absent_block, await_data, await_parity,
}

-- The bodies one behind the other; `none` stands for the panic at a missing one.
unfoldable pub join_bodies : Shards → Option Bytes
join_bodies [] = some []
join_bodies (none ∷ shards) = none
join_bodies (some b ∷ shards) = do rest ← join_bodies shards; some (b.body ++ rest)

-- The length of the first shard of a cohort.
unfoldable pub cohort_size : ℕ → Shards → Option ℕ
cohort_size tag [] = none
cohort_size tag (none ∷ shards) = cohort_size tag shards
cohort_size tag (some b ∷ shards) =
    if b.cohort_tag == tag then some (length b.body) else cohort_size tag shards

-- The shards of the cohort that have that length.
unfoldable pub cohort_shards : ℕ → ℕ → Shards → List (Option Bytes)
cohort_shards tag size [] = []
cohort_shards tag size (none ∷ shards) = none ∷ cohort_shards tag size shards
cohort_shards tag size (some b ∷ shards) =
    (if (b.cohort_tag == tag) && (length b.body == size) then some b.body else none)
    ∷ cohort_shards tag size shards

-- The shards that are there, with their index from `i` on.
unfoldable pub present : ℕ → List (Option Bytes) → List (ℕ × Bytes)
present i [] = []
present i (none ∷ shards) = present (i + 1) shards
present i (some b ∷ shards) = (i, b) ∷ present (i + 1) shards

unfoldable pub lookup : ℕ → List (ℕ × Bytes) → Option Bytes
lookup i [] = none
lookup i ((j, b) ∷ rest) = if i == j then some b else lookup i rest

-- The data shards joined, each the one that arrived or the one that was restored.
unfoldable pub fill_shards : ℕ → List (Option Bytes) → List (ℕ × Bytes) → Option Bytes
unfolding lookup
fill_shards i [] restored = some []
fill_shards i (some b ∷ shards) restored = do
  rest ← fill_shards (i + 1) shards restored
  some (b ++ rest)
fill_shards i (none ∷ shards) restored = do
  b ← lookup i restored
  rest ← fill_shards (i + 1) shards restored
  some (b ++ rest)

abbrev pub Decoder : Type 0
Decoder = ℕ → ℕ → List (ℕ × Bytes) → List (ℕ × Bytes) → Option (List (ℕ × Bytes))

-- The padded body of a cohort.
unfoldable pub reconstruct : Decoder → ℕ → ℕ → ℕ → Shards → Result DataVgError Bytes
unfolding cohort_size cohort_shards present fill_shards
reconstruct rs_decode k m tag shards = elim (cohort_size tag shards) [
  | none ↦ err DataVgError.internal
  | some size ↦
      let found = cohort_shards tag size shards in
      elim (rs_decode k m (present 0 (take k found)) (present 0 (drop k found))) [
        | none ↦ err DataVgError.internal
        | some restored ↦ elim (fill_shards 0 (take k found) restored) [
          | none ↦ err DataVgError.internal
          | some padded ↦ ok padded
        ]
      ]
]

unfoldable pub cohort_matches_padded_body : (Bytes → ℕ) → ℕ → Bytes → Bool
unfolding ec_cohort_tag
cohort_matches_padded_body xxh3 cohort_tag padded_body =
    not (cohort_tag == 0) && (ec_cohort_tag xxh3 padded_body == cohort_tag)

-- The body for the caller, if it is the one of its cohort.
unfoldable pub checked_body : (Bytes → ℕ) → ℕ → ℕ → Bytes → Result DataVgError Bytes
unfolding cohort_matches_padded_body
checked_body xxh3 tag content_len padded =
    if cohort_matches_padded_body xxh3 tag padded
    then ok (take content_len padded)
    else err DataVgError.quorum_failure

pub record EcGet : Type 0 where
  pub result : Option (Result DataVgError Bytes)
  pub nodes : Nodes
  pub repairs : List ShardWrite

-- Whether the node at a position may be asked. Where there is no such node the code panics, which
-- `are_places` decides for a read.
unfoldable pub may_ask : ℕ → ℕ → Nodes → Bool × Nodes
may_ask now i [] = (false, [])
may_ask now zero (n ∷ ns) =
    let (yes_, breaker) = is_available now n.circuit_breaker in
    (yes_, record n { circuit_breaker = breaker } ∷ ns)
may_ask now (suc i) (n ∷ ns) = let (yes_, rest) = may_ask now i ns in (yes_, n ∷ rest)

-- The requests for `count` shards from shard `i` on; the answers are those that follow.
unfoldable pub ask_shards : (ℕ → ℕ) → ℕ → ℕ → ℕ → ℕ → Nodes → Nodes
unfolding may_ask node_index
ask_shards clock ro total i zero nodes = nodes
ask_shards clock ro total i (suc count) nodes =
    ask_shards clock ro total (i + 1) count (may_ask (clock i) (node_index i ro total) nodes).1

-- Shard `i` and those behind it that were reported absent go back to the nodes that may be asked.
unfoldable pub repair_writes :
    (ℕ → ℕ) → ℕ → ℕ → ℕ → List ℕ → ℕ → List Bytes → Nodes → List ShardWrite × Nodes
unfolding may_ask node_index
repair_writes clock ro total tag missing i [] nodes = ([], nodes)
repair_writes clock ro total tag missing i (shard ∷ rest) nodes =
    let node_idx = node_index i ro total in
    let (yes_, asked) = may_ask (clock i) node_idx nodes in
    let (writes, after) =
      repair_writes clock ro total tag missing (i + 1) rest
        (if mem missing i then asked else nodes) in
    (
      if mem missing i && yes_
          then (record { shard_idx = i; node_idx = node_idx; shard = shard; cohort_tag = tag }
              ∷ writes)
          else writes,
      after,
    )

-- What the reads of the parameters are: the encoder, the decoder and the hash, and the data and
-- parity shards.
pub record Code : Type 0 where
  pub rs_encode : ℕ → ℕ → List Bytes → Option (List Bytes)
  pub rs_decode : Decoder
  pub xxh3 : Bytes → ℕ
  pub data_shards : ℕ
  pub parity_shards : ℕ

-- Whether `count` shards from shard `i` on have their places among `n` nodes. The code panics at a
-- place behind the last node.
unfoldable pub are_places : ℕ → ℕ → ℕ → ℕ → ℕ → Bool
unfolding node_index
are_places ro total n i zero = true
are_places ro total n i (suc count) =
    ltb (node_index i ro total) n && are_places ro total n (i + 1) count

-- A panic, with the nodes before the step that panics.
unfoldable pub panicked : Nodes → EcGet
panicked nodes = record { result = none; nodes = nodes; repairs = [] }

unfoldable pub failed_get : Nodes → DataVgError → EcGet
failed_get nodes e = record { result = some (err e); nodes = nodes; repairs = [] }

-- The shards of a body in pieces of `size`; the encoder gives as many parity shards as there are.
unfoldable pub encode_pieces : Code → ℕ → Bytes → Option (List Bytes)
unfolding split_shards
encode_pieces c size padded =
    let shards = split_shards size 0 c.data_shards padded in
    elim (c.rs_encode c.data_shards c.parity_shards shards) [
      | none ↦ none
      | some parity ↦ some (shards ++ parity)
    ]

-- The repair with shards of `size`. A body that is shorter than its data shards is a panic.
unfoldable pub repair_with :
    Code → ℕ → (ℕ → ℕ) → List (Reply (Unit {0})) → ℕ → ℕ → Bytes → Bytes → ReadState → EcGet
unfolding encode_pieces repair_writes background_writes panicked failed_get
repair_with c ro clock repaired tag size padded body s =
    if ltb (length padded) (c.data_shards * size)
    then panicked s.nodes
    else elim (encode_pieces c size padded) [
      | none ↦ failed_get s.nodes DataVgError.internal
      | some shards ↦
          let (writes, asked) =
            repair_writes clock ro (c.data_shards + c.parity_shards) tag s.missing 0 shards
              s.nodes in
          record {
            result = some (ok body);
            nodes = background_writes repaired asked;
            repairs = writes;
          }
    ]

-- The repair behind a body that was decoded. `repaired` are the answers to it, noted in the
-- background. The size of a shard is that of the first one of the cohort, which there is. The nodes
-- of the missing shards were asked before, so that they have their places.
unfoldable pub inline_repair :
    Code → ℕ → (ℕ → ℕ) → List (Reply (Unit {0})) → ℕ → Bytes → Bytes → ReadState → EcGet
unfolding repair_with cohort_size failed_get
inline_repair c ro clock repaired tag padded body s = elim s.missing [
  | [] ↦ record { result = some (ok body); nodes = s.nodes; repairs = [] }
  | _ ∷ _ ↦ elim (cohort_size tag s.shard_results) [
    | none ↦ failed_get s.nodes DataVgError.internal
    | some size ↦ repair_with c ro clock repaired tag size padded body s
  ]
]

-- The answer without a cohort that can be decoded.
unfoldable pub undecodable : ℕ → ReadState → DataVgError
unfolding received is_absent_block
undecodable m s =
    if is_absent_block m (received s.shard_results) s.shards_not_found
    then DataVgError.block_not_found
    else DataVgError.quorum_failure

-- The end of a read with all shards that are to be had.
unfoldable pub decode_shards : Code → ℕ → (ℕ → ℕ) → List (Reply (Unit {0})) → ℕ → ReadState → EcGet
unfolding decodable_cohort undecodable failed_get reconstruct checked_body inline_repair
decode_shards c ro clock repaired content_len s =
    elim (decodable_cohort s.shard_results c.data_shards) [
      | none ↦ failed_get s.nodes (undecodable c.parity_shards s)
      | some tag ↦
          elim (reconstruct c.rs_decode c.data_shards c.parity_shards tag s.shard_results) [
            | err e ↦ failed_get s.nodes e
            | ok padded ↦ elim (checked_body c.xxh3 tag content_len padded) [
              | err e ↦ failed_get s.nodes e
              | ok body ↦ inline_repair c ro clock repaired tag padded body s
            ]
          ]
    ]

-- The fast end of a read, with one cohort among the data shards.
unfoldable pub join_cohort : Code → ℕ → ℕ → ReadState → EcGet
unfolding join_bodies checked_body
join_cohort c content_len tag s = record {
  result = elim (join_bodies (take c.data_shards s.shard_results)) [
    | none ↦ none
    | some padded ↦ some (checked_body c.xxh3 tag content_len padded)
  ];
  nodes = s.nodes;
  repairs = [];
}

-- The times at which breakers are asked, and what arrives: the events of the first loop, the
-- answers of the second one and the answers to the repair.
pub record Arrivals : Type 0 where
  pub clock : ℕ → ℕ
  pub parity_clock : ℕ → ℕ
  pub repair_clock : ℕ → ℕ
  pub events : List DataEvent
  pub replies : List (Reply NodeBlob)
  pub repaired : List (Reply (Unit {0}))

-- The second part of a read, behind the first loop.
unfoldable pub read_parity : Code → ℕ → Arrivals → ℕ → ReadState → EcGet
unfolding ask_shards await_parity failed_get decode_shards are_places panicked
read_parity c ro a content_len s =
    let k = c.data_shards in
    let m = c.parity_shards in
    let asked = record s { nodes = ask_shards a.parity_clock ro (k + m) k m s.nodes } in
    let (result, s') = await_parity ro k m a.replies asked in
    if not (are_places ro (k + m) (length s.nodes) k m) then panicked s.nodes else elim result [
      | err e ↦ failed_get s'.nodes e
      | ok _ ↦ decode_shards c ro a.repair_clock a.repaired content_len s'
    ]

unfoldable pub initial : ℕ → Nodes → ReadState
initial total nodes = record {
  shard_results = replicate total none;
  missing = [];
  shards_not_found = 0;
  nodes = nodes;
}

-- Without data shards the padded length is not defined, and the code panics.
unfoldable pub get_blob_ec : Code → ℕ → ℕ → Arrivals → Nodes → EcGet
unfolding ask_shards initial await_data decodable_cohort failed_get join_cohort read_parity
    are_places panicked
get_blob_ec c ro zero a nodes = record { result = some (ok []); nodes = nodes; repairs = [] }
get_blob_ec c ro (suc len) a nodes =
    let k = c.data_shards in
    let total = k + c.parity_shards in
    let asked = ask_shards a.clock ro total 0 k nodes in
    let (result, s) = await_data ro k c.parity_shards 0 a.events (initial total asked) in
    if (k == 0) || not (are_places ro total (length nodes) 0 k)
    then panicked nodes
    else elim result [
      | err e ↦ failed_get s.nodes e
      | ok _ ↦ elim (decodable_cohort s.shard_results k) [
        | some tag ↦ join_cohort c (suc len) tag s
        | none ↦ read_parity c ro a (suc len) s
      ]
    ]
