-- ===== src/Proxy/Erasure/Examples.antt =====
-- Each theorem about erasure-coded blocks at a concrete input: two data shards, and their sum as the
-- parity shard.
use fractalbits.Proxy.Replicated.Deletes.{is_gone}
use fractalbits.Proxy.Erasure.Unmixed.{get_blob_ec_unmixed, IsElem}
use fractalbits.Proxy.Erasure.Writes.{put_blob_ec-IsQuorum, delete_blob_ec_exact, IsSent}
use fractalbits.Proxy.Erasure.Absence.{ec_read_after_write}
use fractalbits.Proxy.Erasure.Panic.{AreSized, AreSized-take, KeepsSize, get_blob_ec_safe}
use fractalbits.Proxy.Erasure.RoundTrip.{get_blob_ec_total}
use fractalbits.Base.Counting.{mem}
use fractalbits.Base.Results.{ok, err, Result}
use fractalbits.Base.{
  subst, inr, ◌==◌, Bool-cases, drop, inl, ◌≢◌, true, take, All, ◌≤◌, sym, ap, ◌∙◌, get_elem?, ℕ,
  zero, suc, ◌+◌, ◌-◌, ◌≡◌, refl, Option, none, some, List, [], ◌∷◌, arith, length,
}
use fractalbits.Proxy.Breaker
use fractalbits.Proxy.Breaker.{default_config, is_available}
use fractalbits.Proxy.Volumes.{DataVgError, RpcError, BssNode}
use fractalbits.Proxy.Cohorts.{NodeBlob}
use fractalbits.Proxy.Replicated.{Nodes, Reply, PutBlobOutcome}
use fractalbits.Proxy.Replicated.Writes.{positions_of, IsQuorum, Acks}
use fractalbits.Proxy.Erasure.{
  delete_blob_ec, ec_cohort_tag, DataVgError, Bytes, pad_body, encode_shards, put_blob_ec,
}
use fractalbits.Proxy.Erasure.Arrivals.{DataEvent}
use fractalbits.Proxy.Erasure.Reads.{present, Decoder, Code, Arrivals, lookup, get_blob_ec}
use fractalbits.Proxy.Erasure.Decoding.{IsCode, IsFrom, there, Restores}

abbrev sums : Bytes → Bytes → Bytes
sums [] bs = []
sums (a ∷ as_) [] = []
sums (a ∷ as_) (b ∷ bs) = (a + b) ∷ sums as_ bs

-- The other summand.
abbrev rest_of : Bytes → Bytes → Bytes
rest_of [] as_ = []
rest_of (s ∷ ss) [] = []
rest_of (s ∷ ss) (a ∷ as_) = (s - a) ∷ rest_of ss as_

sums-length : (xs ys : Bytes) (n : ℕ) → length xs ≡ n → length ys ≡ n → length (sums xs ys) ≡ n
sums-length [] ys n h k = h
sums-length (x ∷ xs) [] n h k = absurd (omega (arith, h, k))
sums-length (x ∷ xs) (y ∷ ys) n h k =
    omega (arith, sums-length xs ys (length xs) refl (omega (arith, h, k)), h)

rest_of-sums :
    (xs ys : Bytes)
    → length xs ≡ length ys
    → (rest_of (sums xs ys) xs ≡ ys) × (rest_of (sums xs ys) ys ≡ xs)
rest_of-sums [] [] h = (refl, refl)
rest_of-sums [] (y ∷ ys) h = absurd (omega (arith, h))
rest_of-sums (x ∷ xs) [] h = absurd (omega (arith, h))
rest_of-sums (x ∷ xs) (y ∷ ys) h =
    let (l, r) = rest_of-sums xs ys (omega (arith, h)) in
    let first : x + y - x ≡ y = omega arith in
    let second : x + y - y ≡ x = omega arith in (rw first rw l refl, rw second rw r refl)

abbrev encode : ℕ → ℕ → List Bytes → Option (List Bytes)
encode k m [] = none
encode k m (x ∷ []) = none
encode k m (x ∷ y ∷ []) = some (sums x y ∷ [])
encode k m (x ∷ y ∷ z ∷ rest) = none

abbrev decode : Decoder
decode k m [] recovery = none
decode k m ((zero, x) ∷ []) [] = none
decode k m ((zero, x) ∷ []) ((j, p) ∷ rest) = some ((1, rest_of p x) ∷ [])
decode k m ((suc i, y) ∷ []) [] = none
decode k m ((suc i, y) ∷ []) ((j, p) ∷ rest) = some ((0, rest_of p y) ∷ [])
decode k m (x ∷ y ∷ rest) recovery = some []

-- What a decoder must give: the shards that are missing.
abbrev Missing : List Bytes → List (Option Bytes) → List (ℕ × Bytes) → Type 0
Missing data_ found restored =
    (j : ℕ) (x : Bytes)
    → get_elem? found j ≡ some none
    → get_elem? data_ j ≡ some x
    → lookup j restored ≡ some x

restores : (x y : Bytes) → length x ≡ length y → Restores decode 2 1 (x ∷ y ∷ []) (sums x y ∷ [])
unfolding lookup present
restores x y h [] from enough = absurd from
restores x y h (none ∷ []) from enough = absurd from
restores x y h (some p ∷ []) from enough = absurd from.1
restores x y h (none ∷ none ∷ []) from enough = absurd from
restores x y h (none ∷ some q ∷ []) from enough = absurd from.1
restores x y h (some p ∷ none ∷ []) from enough = absurd from.1
restores x y h (some p ∷ some q ∷ []) from enough = absurd from.1.1
restores x y h (none ∷ none ∷ r ∷ rest) from enough = absurd (go r rest from enough)
  where
    go :
        (r : Option Bytes) (rest : List (Option Bytes))
        → IsFrom (sums x y ∷ []) (r ∷ rest)
        → 2 ≤ there (r ∷ rest)
        → ⊥
    go none [] from enough = omega arith
    go none (s ∷ rest) from enough = from
    go (some s) [] from enough = omega arith
    go (some s) (t ∷ rest) from enough = from.1
restores x y h (none ∷ some q ∷ none ∷ rest) from enough = absurd (go rest from.1 enough)
  where
    go : (rest : List (Option Bytes)) → IsFrom [] rest → 2 ≤ suc (there rest) → ⊥
    go [] from enough = omega arith
    go (s ∷ rest) from enough = from
restores x y h (none ∷ some q ∷ some r ∷ rest) from enough =
    (((0, rest_of r q) ∷ []), refl, missing)
  where
    first : rest_of r q ≡ x
    first = rw from.0 rw from.1.0 (rest_of-sums x y h).1

    missing : Missing (x ∷ y ∷ []) (none ∷ some q ∷ some r ∷ rest) ((0, rest_of r q) ∷ [])
    missing zero z e f = ap some first ∙ f
    missing (suc zero) z e f = cc
    missing (suc (suc j)) z e f = cc
restores x y h (some p ∷ none ∷ none ∷ rest) from enough = absurd (go rest from.1 enough)
  where
    go : (rest : List (Option Bytes)) → IsFrom [] rest → 2 ≤ suc (there rest) → ⊥
    go [] from enough = omega arith
    go (s ∷ rest) from enough = from
restores x y h (some p ∷ none ∷ some r ∷ rest) from enough =
    (((1, rest_of r p) ∷ []), refl, missing)
  where
    second : rest_of r p ≡ y
    second = rw from.0 rw from.1.0 (rest_of-sums x y h).0

    missing : Missing (x ∷ y ∷ []) (some p ∷ none ∷ some r ∷ rest) ((1, rest_of r p) ∷ [])
    missing zero z e f = cc
    missing (suc zero) z e f = ap some second ∙ f
    missing (suc (suc j)) z e f = cc
restores x y h (some p ∷ some q ∷ r ∷ rest) from enough = ([], refl, missing)
  where
    missing : Missing (x ∷ y ∷ []) (some p ∷ some q ∷ r ∷ rest) []
    missing zero z e f = cc
    missing (suc zero) z e f = cc
    missing (suc (suc j)) z e f = cc

is_code : IsCode encode decode 2 1
is_code [] size h pos even sizes = absurd (omega (arith, h))
is_code (x ∷ []) size h pos even sizes = absurd (omega (arith, h))
is_code (x ∷ y ∷ []) size h pos even sizes = (
  sums x y ∷ [],
  refl,
  refl,
  (sums-length x y size sizes.0 sizes.1.0, tt),
  restores x y (sizes.0 ∙ sym sizes.1.0),
)
is_code (x ∷ y ∷ z ∷ rest) size h pos even sizes = absurd (omega (arith, h))

abbrev code : Code
code = record {
  rs_encode = encode;
  rs_decode = decode;
  xxh3 = λ b. length b;
  data_shards = 2;
  parity_shards = 1;
}

abbrev node : BssNode
node = record { address = ([], 9000); circuit_breaker = Breaker.new default_config }

abbrev nodes : Nodes
nodes = node ∷ node ∷ node ∷ []

abbrev clock : ℕ → ℕ
clock _ = 10

abbrev reply : {A : Type 0} → ℕ → Result RpcError A → Reply A
reply i a = record { position = i; now = 20; answer = a }

abbrev body : Bytes
body = 1 ∷ 2 ∷ 3 ∷ 4 ∷ 5 ∷ []

abbrev padded : Bytes
padded = 1 ∷ 2 ∷ 3 ∷ 4 ∷ 5 ∷ 0 ∷ 0 ∷ 0 ∷ []

abbrev word : List Bytes
word = (1 ∷ 2 ∷ 3 ∷ 4 ∷ []) ∷ (5 ∷ 0 ∷ 0 ∷ 0 ∷ []) ∷ (6 ∷ 2 ∷ 3 ∷ 4 ∷ []) ∷ []

abbrev shard : ℕ → Bytes → Reply NodeBlob
shard i b = reply i (ok (record { body = b; cohort_tag = 8 }))

-- The second data shard fails, and the parity shard comes.
abbrev arrivals : Arrivals
arrivals = record {
  clock = clock;
  parity_clock = clock;
  repair_clock = clock;
  events =
      DataEvent.answered (shard 0 (1 ∷ 2 ∷ 3 ∷ 4 ∷ []))
      ∷ DataEvent.answered (reply 1 (err (RpcError.other 1)))
      ∷ [];
  replies = shard 2 (6 ∷ 2 ∷ 3 ∷ 4 ∷ []) ∷ [];
  repaired = [];
}

abbrev writes : Acks
writes = reply 1 (ok tt) ∷ reply 0 (ok tt) ∷ reply 2 (err RpcError.version_skipped) ∷ []

padded_body : pad_body 2 body ≡ padded
unfolding pad_body
padded_body = refl

encoded : encode_shards encode 2 1 (pad_body 2 body) ≡ some word
unfolding encode_shards pad_body
encoded = refl

written :
    (put_blob_ec encode (λ b. length b) 1 2 1 body clock writes nodes).result
    ≡ ok PutBlobOutcome.already_present
unfolding put_blob_ec encode_shards pad_body is_available Breaker.new
written = refl

read : (get_blob_ec code 1 5 arrivals nodes).result ≡ some (ok body)
unfolding get_blob_ec is_available Breaker.new
read = refl

get_blob_ec_total_example :
    (get_blob_ec code 1 (length body) arrivals nodes).result ≡ some (ok body)
unfolding encode_shards pad_body ec_cohort_tag
get_blob_ec_total_example =
    get_blob_ec_total code body word 1 arrivals nodes (omega arith) (omega arith) is_code encoded
      (
        omega arith,
        omega arith,
        omega arith,
        ((λ b e. (cc, cc)), ((λ b e. cc), ((λ b e. (cc, cc)), tt))),
        omega arith,
        omega arith,
      )
      (omega arith)

get_blob_ec_unmixed_example :
    (p : Bytes) × IsElem p (padded ∷ [])
    × (q : Bytes) × (ec_cohort_tag code.xxh3 q ≡ ec_cohort_tag code.xxh3 p)
    × (body ≡ take 5 q)
unfolding ec_cohort_tag
get_blob_ec_unmixed_example =
    get_blob_ec_unmixed code 1 5 arrivals nodes (padded ∷ []) body (omega arith)
      ((λ b e nz. inl cc), ((λ b e nz. cc), tt)) ((λ b e nz. inl cc), tt) read

put_blob_ec-IsQuorum_example :
    IsQuorum 3 PutBlobOutcome.stored writes PutBlobOutcome.already_present
    × ((w : List Bytes) × (encode_shards encode 2 1 (pad_body 2 body) ≡ some w)
        × All
            (IsSent (λ b. length b) 1 3 (pad_body 2 body) w)
            (put_blob_ec encode (λ b. length b) 1 2 1 body clock writes nodes).sent)
put_blob_ec-IsQuorum_example =
    put_blob_ec-IsQuorum encode (λ b. length b) 1 2 1 body clock writes nodes
      PutBlobOutcome.already_present (omega arith) written

ec_read_after_write_example :
    (get_blob_ec code 1 5 arrivals nodes).result ≢ some (err DataVgError.block_not_found)
ec_read_after_write_example =
    ec_read_after_write code 1 5 body (λ i. true) clock writes nodes nodes
      PutBlobOutcome.already_present arrivals (omega arith) (omega arith)
      (omega arith, omega arith, omega arith, omega arith, (refl, (refl, (refl, tt))), tt) written

rest_of-length :
    (xs ys : Bytes) (n : ℕ) → length xs ≡ n → length ys ≡ n → length (rest_of xs ys) ≡ n
rest_of-length [] ys n h k = h
rest_of-length (x ∷ xs) [] n h k = absurd (omega (arith, h, k))
rest_of-length (x ∷ xs) (y ∷ ys) n h k =
    omega (arith, rest_of-length xs ys (length xs) refl (omega (arith, h, k)), h)

abbrev HasSize : ℕ → ℕ × Bytes → Type 0
HasSize size q = length q.1 ≡ size

present-HasSize :
    (size i : ℕ) (found : List (Option Bytes))
    → AreSized size found
    → All (HasSize size) (present i found)
unfolding present
present-HasSize size i [] h = tt
present-HasSize size i (none ∷ found) h = present-HasSize size (i + 1) found h
present-HasSize size i (some b ∷ found) h = (h.0, present-HasSize size (i + 1) found h.1)

AreSized-drop :
    (n size : ℕ) (found : List (Option Bytes)) → AreSized size found → AreSized size (drop n found)
AreSized-drop zero size found h = h
AreSized-drop (suc n) size [] h = tt
AreSized-drop (suc n) size (none ∷ found) h = AreSized-drop n size found h
AreSized-drop (suc n) size (some b ∷ found) h = AreSized-drop n size found h.1

one_restored :
    (i : ℕ) (p x : Bytes) (size : ℕ) (restored : List (ℕ × Bytes)) (j : ℕ) (y : Bytes)
    → length p ≡ size
    → length x ≡ size
    → some ((i, rest_of p x) ∷ []) ≡ some restored
    → lookup j restored ≡ some y
    → length y ≡ size
unfolding lookup
one_restored i p x size restored j y hp hx e f =
    let same : (i, rest_of p x) ∷ [] ≡ restored = cc in
    let found : lookup j ((i, rest_of p x) ∷ []) ≡ some y =
      subst (λ r. lookup j r ≡ some y) (sym same) f in
    elim (Bool-cases (j == i)) [
      | inr g ↦ absurd (ground (arith, found, g))
      | inl g ↦
          let it : rest_of p x ≡ y = ground (arith, found, g) in
          subst (λ z. length z ≡ size) it (rest_of-length p x size hp hx)
    ]

decode_size :
    (size : ℕ) (originals recovery restored : List (ℕ × Bytes)) (j : ℕ) (y : Bytes)
    → All (HasSize size) originals
    → All (HasSize size) recovery
    → decode 2 1 originals recovery ≡ some restored
    → lookup j restored ≡ some y
    → length y ≡ size
unfolding lookup
decode_size size [] recovery restored j y h k e f = absurd (ground (arith, e))
decode_size size ((zero, x) ∷ []) [] restored j y h k e f = absurd (ground (arith, e))
decode_size size ((zero, x) ∷ []) ((i, p) ∷ rest) restored j y h k e f =
    one_restored 1 p x size restored j y k.0 h.0 e f
decode_size size ((suc n, x) ∷ []) [] restored j y h k e f = absurd (ground (arith, e))
decode_size size ((suc n, x) ∷ []) ((i, p) ∷ rest) restored j y h k e f =
    one_restored 0 p x size restored j y k.0 h.0 e f
decode_size size (q ∷ r ∷ originals) recovery restored j y h k e f =
    let empty : [] ≡ restored = cc in
    absurd (nothing (subst (λ l. lookup j l ≡ some y) (sym empty) f))
  where
    nothing : lookup j [] ≡ some y → ⊥
    nothing g = cc

keeps_size : KeepsSize decode 2 1
keeps_size size found restored sized e j x f =
    decode_size size (present 0 (take 2 found)) (present 0 (drop 2 found)) restored j x
      (present-HasSize size 0 (take 2 found) (AreSized-take 2 size found sized))
      (present-HasSize size 0 (drop 2 found) (AreSized-drop 2 size found sized)) e f

get_blob_ec_safe_example : (get_blob_ec code 1 5 arrivals nodes).result ≢ none
get_blob_ec_safe_example =
    get_blob_ec_safe code 1 5 arrivals nodes (omega arith) (omega arith) keeps_size (omega arith)

abbrev deletes : Acks
deletes = reply 2 (ok tt) ∷ reply 0 (err RpcError.not_found) ∷ reply 1 (ok tt) ∷ []

deleted : (delete_blob_ec 2 1 clock deletes nodes).0 ≡ ok tt
unfolding delete_blob_ec is_available Breaker.new
deleted = refl

delete_blob_ec_exact_example : mem (positions_of is_gone deletes) 0 ≡ true
delete_blob_ec_exact_example =
    delete_blob_ec_exact 2 1 clock deletes nodes (omega arith) (omega arith) deleted 0 (omega arith)
