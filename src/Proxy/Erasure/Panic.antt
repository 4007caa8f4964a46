-- ===== src/Proxy/Erasure/Panic.antt =====
-- The panics of the read of an erasure-coded block.
use fractalbits.Base.Results.{ok, Result-cases}
use fractalbits.Base.Counting.{IsBelow}
use fractalbits.Base.{
  ◌*◌, ◌<◌, sym, subst, ◌&&◌, Option, ◌==◌, Bool-cases, length, length-append, length-take,
  length-replicate, ℕ, zero, suc, ◌+◌, ◌≤◌, ◌≡◌, refl, ap, ◌∙◌, ◌≢◌, inl, inr, none, some, List, [],
  ◌∷◌, ◌++◌, arith, Option-cases, take, drop,
}
use fractalbits.Proxy.Cohorts.{matching, decodable_cohort}
use fractalbits.Proxy.Cohorts.Unique.{first_cohort_sound}
use fractalbits.Proxy.Replicated.{Nodes, Reply}
use fractalbits.Proxy.Replicated.Deletes.{all_positions}
use fractalbits.Proxy.Erasure.{Bytes}
use fractalbits.Proxy.Erasure.Arrivals.{Shards, ReadState, received, await_data, await_parity}
use fractalbits.Proxy.Erasure.Places.{are_places_lem, length-ask_shards, note_all-SameLengths}
use fractalbits.Proxy.Erasure.Loops.{await_parity-IsTaken}
use fractalbits.Proxy.Erasure.Reads.{
  Decoder, present, lookup, cohort_size, cohort_shards, fill_shards, reconstruct, checked_body,
  repair_with,
}
use fractalbits.Proxy.Erasure.Reads.{
  Code, Arrivals, join_bodies, inline_repair, failed_get, decode_shards, join_cohort, read_parity,
  ask_shards, initial, get_blob_ec,
}
use fractalbits.Proxy.Erasure.Loops.{heard, await_data-heard}
use fractalbits.Proxy.Erasure.OneWrite.{received-drop, received-drop-replicate, drop-note_all}

matching_le : (tag : ℕ) (shards : Shards) → matching tag shards ≤ received shards
unfolding matching received
matching_le tag [] = omega arith
matching_le tag (none ∷ shards) = matching_le tag shards
matching_le tag (some b ∷ shards) = ground (arith, matching_le tag shards)

join_bodies_total :
    (n : ℕ) (shards : Shards)
    → received (drop n shards) ≡ 0
    → n ≤ received shards
    → (padded : Bytes) × (join_bodies (take n shards) ≡ some padded)
unfolding join_bodies received
join_bodies_total zero shards e le = ([], refl)
join_bodies_total (suc n) [] e le = absurd (omega arith)
join_bodies_total (suc n) (none ∷ shards) e le = absurd (omega (arith, received-drop n shards, e))
join_bodies_total (suc n) (some b ∷ shards) e le =
    let (rest, f) = join_bodies_total n shards e (omega arith) in (b.body ++ rest, rw f refl)

-- Whatever is there has the size.
abbrev pub AreSized : ℕ → List (Option Bytes) → Type 0
AreSized size [] = Unit {0}
AreSized size (none ∷ found) = AreSized size found
AreSized size (some b ∷ found) = (length b ≡ size) × AreSized size found

-- The decoder restores shards of the size of those that it is given.
abbrev pub KeepsSize : Decoder → ℕ → ℕ → Type 0
KeepsSize rs_decode k m =
    (size : ℕ) (found : List (Option Bytes)) (restored : List (ℕ × Bytes))
    → AreSized size found
    → rs_decode k m (present 0 (take k found)) (present 0 (drop k found)) ≡ some restored
    → (j : ℕ) (x : Bytes) → lookup j restored ≡ some x
    → length x ≡ size

cohort_shards-AreSized :
    (tag size : ℕ) (shards : Shards)
    → AreSized size (cohort_shards tag size shards)
      × (length (cohort_shards tag size shards) ≡ length shards)
unfolding cohort_shards
cohort_shards-AreSized tag size [] = (tt, refl)
cohort_shards-AreSized tag size (none ∷ shards) =
    let (sized, n) = cohort_shards-AreSized tag size shards in (sized, omega (arith, n))
cohort_shards-AreSized tag size (some b ∷ shards) =
    let (sized, n) = cohort_shards-AreSized tag size shards in
    elim (Bool-cases ((b.cohort_tag == tag) && (length b.body == size))) [
      | inl e ↦
          let here : length b.body ≡ size = ground (arith, e) in
          rw e ((here, sized), omega (arith, n))
      | inr e ↦ rw e (sized, omega (arith, n))
    ]

pub AreSized-take :
    (n size : ℕ) (found : List (Option Bytes)) → AreSized size found → AreSized size (take n found)
AreSized-take zero size found h = tt
AreSized-take (suc n) size [] h = tt
AreSized-take (suc n) size (none ∷ found) h = AreSized-take n size found h
AreSized-take (suc n) size (some b ∷ found) h = (h.0, AreSized-take n size found h.1)

length-fill_shards :
    (size i : ℕ) (found : List (Option Bytes)) (restored : List (ℕ × Bytes)) (padded : Bytes)
    → AreSized size found
    → ((j : ℕ) (x : Bytes) → lookup j restored ≡ some x → length x ≡ size)
    → fill_shards i found restored ≡ some padded
    → length padded ≡ length found * size
unfolding fill_shards
length-fill_shards size i [] restored padded h k e =
    let empty : [] ≡ padded = ground (arith, e) in
    subst (λ p. length p ≡ 0 * size) empty (grind arith)
length-fill_shards size i (some b ∷ found) restored padded h k e =
    elim (Option-cases (fill_shards (i + 1) found restored)) [
      | inl f ↦ absurd (ground (arith, e, f))
      | inr (rest, f) ↦
          let whole : b ++ rest ≡ padded = ground (arith, e, f) in
          let more = length-fill_shards size (i + 1) found restored rest h.1 k f in
          let sum = length-append b rest in
          subst (λ p. length p ≡ suc (length found) * size) whole (grind (arith, more, sum, h.0))
    ]
length-fill_shards size i (none ∷ found) restored padded h k e =
    elim (Option-cases (lookup i restored)) [
      | inl g ↦ absurd (ground (arith, e, g))
      | inr (b, g) ↦ elim (Option-cases (fill_shards (i + 1) found restored)) [
        | inl f ↦ absurd (ground (arith, e, f, g))
        | inr (rest, f) ↦
            let whole : b ++ rest ≡ padded = ground (arith, e, f, g) in
            let more = length-fill_shards size (i + 1) found restored rest h k f in
            let sum = length-append b rest in
            let mine = k i b g in
            subst (λ p. length p ≡ suc (length found) * size) whole (grind (arith, more, sum, mine))
      ]
    ]

-- A reconstructed body has as many shards of the cohort's size as there are data shards.
reconstruct-length :
    (rs_decode : Decoder) (k m tag : ℕ) (shards : Shards) (padded : Bytes)
    → KeepsSize rs_decode k m
    → k ≤ length shards
    → reconstruct rs_decode k m tag shards ≡ ok padded
    → (size : ℕ) × (cohort_size tag shards ≡ some size) × (length padded ≡ k * size)
unfolding reconstruct
reconstruct-length rs_decode k m tag shards padded keeps le h =
    elim (Option-cases (cohort_size tag shards)) [
      | inl e ↦ absurd (ground (arith, e, h))
      | inr (size, e) ↦
          let found = cohort_shards tag size shards in
          let (sized, n) = cohort_shards-AreSized tag size shards in
          elim (Option-cases
            (rs_decode k m (present 0 (take k found)) (present 0 (drop k found)))) [
              | inl f ↦ absurd (ground (arith, e, f, h))
              | inr (restored, f) ↦ elim (Option-cases (fill_shards 0 (take k found) restored)) [
                | inl g ↦ absurd (ground (arith, e, f, g, h))
                | inr (filled, g) ↦
                    let same : filled ≡ padded = ground (arith, e, f, g, h) in
                    let len =
                      length-fill_shards size 0 (take k found) restored filled
                        (AreSized-take k size found sized) (keeps size found restored sized f) g in
                    let count_ : length (take k found) ≡ k =
                      omega (arith, length-take k found, n, le) in
                    (
                      size,
                      e,
                      subst (λ p. length p ≡ k * size) same (len ∙ ap (λ a. a * size) count_),
                    )
              ]
            ]
    ]

repair_with_total :
    (c : Code) (ro : ℕ) (clock : ℕ → ℕ) (repaired : List (Reply (Unit {0}))) (tag size : ℕ)
    (padded body : Bytes) (s : ReadState)
    → length padded ≡ c.data_shards * size
    → (repair_with c ro clock repaired tag size padded body s).result ≢ none
unfolding repair_with failed_get
repair_with_total c ro clock repaired tag size padded body s len h = ground (arith, len, h)

inline_repair_total :
    (c : Code) (ro : ℕ) (clock : ℕ → ℕ) (repaired : List (Reply (Unit {0}))) (tag size : ℕ)
    (padded body : Bytes) (s : ReadState)
    → cohort_size tag s.shard_results ≡ some size
    → length padded ≡ c.data_shards * size
    → (inline_repair c ro clock repaired tag padded body s).result ≢ none
unfolding inline_repair
inline_repair_total c ro clock repaired tag size padded body s e len h = go s.missing refl
  where
    go : (l : List ℕ) → s.missing ≡ l → ⊥
    go [] f = ground (arith, f, h)
    go (x ∷ xs) f =
        repair_with_total c ro clock repaired tag size padded body s len (ground (arith, e, f, h))

decode_shards_total :
    (c : Code) (ro : ℕ) (clock : ℕ → ℕ) (repaired : List (Reply (Unit {0}))) (len : ℕ)
    (s : ReadState)
    → KeepsSize c.rs_decode c.data_shards c.parity_shards
    → c.data_shards ≤ length s.shard_results
    → (decode_shards c ro clock repaired len s).result ≢ none
unfolding decode_shards failed_get
decode_shards_total c ro clock repaired len s keeps le h =
    let k = c.data_shards in
    elim (Option-cases (decodable_cohort s.shard_results k)) [
      | inl e ↦ ground (arith, e, h)
      | inr (t, e) ↦
          elim (Result-cases (reconstruct c.rs_decode k c.parity_shards t s.shard_results)) [
            | inl (x, f) ↦ ground (arith, e, f, h)
            | inr (padded, f) ↦
                let (size, found, n) =
                  reconstruct-length c.rs_decode k c.parity_shards t s.shard_results padded keeps le
                    f in
                elim (Result-cases (checked_body c.xxh3 t len padded)) [
                  | inl (x, g) ↦ ground (arith, e, f, g, h)
                  | inr (body, g) ↦
                      inline_repair_total c ro clock repaired t size padded body s found n
                        (ground (arith, e, f, g, h))
                ]
          ]
    ]

read_parity_total :
    (c : Code) (ro : ℕ) (a : Arrivals) (len : ℕ) (s : ReadState)
    → 0 < c.data_shards
    → c.data_shards + c.parity_shards ≤ length s.nodes
    → KeepsSize c.rs_decode c.data_shards c.parity_shards
    → c.data_shards ≤ length s.shard_results
    → (read_parity c ro a len s).result ≢ none
unfolding read_parity failed_get
read_parity_total c ro a len s pos room keeps le h =
    let k = c.data_shards in
    let m = c.parity_shards in
    let places = are_places_lem ro (k + m) (length s.nodes) k m (omega (arith, pos)) room in
    let asked = record s { nodes = ask_shards a.parity_clock ro (k + m) k m s.nodes } in
    let last = (await_parity ro k m a.replies asked).1 in
    let (before, after, (split, state, _, _)) = await_parity-IsTaken ro k m a.replies asked in
    let many : k ≤ length last.shard_results =
      subst (λ (t : ReadState). k ≤ length t.shard_results) (sym state)
        (omega (arith, le, (note_all-SameLengths ro (k + m) before asked).1)) in
    elim (Result-cases (await_parity ro k m a.replies asked).0) [
      | inl (e, f) ↦ ground (arith, f, h, places)
      | inr (_, f) ↦
          decode_shards_total c ro a.repair_clock a.repaired len last keeps many
            (ground (arith, f, h, places))
    ]

-- On a volume with at least one data shard and a node for each shard, a read ends with a body or an
-- error, whatever the nodes answer, and none of its panics is reached: not the one on a volume
-- without data shards, nor that of a shard whose node is not there, nor that of a missing body in
-- a complete cohort, nor that of a body too short for its repair. This needs that the first loop
-- has asked for data shards only, and that the decoder restores shards of the size of the others.
pub get_blob_ec_safe :
    (c : Code) (ro len : ℕ) (a : Arrivals) (nodes : Nodes)
    → 0 < c.data_shards
    → c.data_shards + c.parity_shards ≤ length nodes
    → KeepsSize c.rs_decode c.data_shards c.parity_shards
    → IsBelow c.data_shards (all_positions (heard c.data_shards 0 a.events))
    → (get_blob_ec c ro len a nodes).result ≢ none
unfolding get_blob_ec failed_get
get_blob_ec_safe c ro zero a nodes pos room keeps below h = ground (arith, h)
get_blob_ec_safe c ro (suc len) a nodes pos room keeps below h =
    let k = c.data_shards in
    let m = c.parity_shards in
    let places = are_places_lem ro (k + m) (length nodes) 0 k (omega (arith, pos)) room in
    let start = initial (k + m) (ask_shards a.clock ro (k + m) 0 k nodes) in
    let taken = heard k 0 a.events in
    let (state, _) = await_data-heard ro k m 0 a.events start in
    let s = (await_data ro k m 0 a.events start).1 in
    let rest : received (drop k s.shard_results) ≡ 0 =
      ap (λ t. received (drop k t.shard_results)) state
      ∙ ap received (drop-note_all ro (k + m) k taken start below)
      ∙ (unfold initial in received-drop-replicate k (k + m)) in
    let same = note_all-SameLengths ro (k + m) taken start in
    let asked : length start.nodes ≡ length nodes =
      unfold initial in length-ask_shards a.clock ro (k + m) 0 k nodes in
    let all : length start.shard_results ≡ k + m =
      unfold initial in length-replicate (k + m) none in
    let still : k + m ≤ length s.nodes =
      subst (λ (t : ReadState). k + m ≤ length t.nodes) (sym state)
        (omega (arith, same.0, asked, room)) in
    let many : k ≤ length s.shard_results =
      subst (λ (t : ReadState). k ≤ length t.shard_results) (sym state)
        (omega (arith, same.1, all)) in
    elim (Result-cases (await_data ro k m 0 a.events start).0) [
      | inl (e, f) ↦ ground (arith, f, h, places, pos)
      | inr (_, f) ↦ elim (Option-cases (decodable_cohort s.shard_results k)) [
        | inl g ↦
            read_parity_total c ro a (suc len) s pos still keeps many
              (ground (arith, f, g, h, places, pos))
        | inr (t, g) ↦
            let enough =
              (first_cohort_sound s.shard_results k s.shard_results t
                (unfold decodable_cohort in g)).1 in
            let (padded, joined) =
              join_bodies_total k s.shard_results rest
                (omega (arith, enough, matching_le t s.shard_results)) in
            unfold join_cohort in ground (arith, f, g, joined, h, places, pos)
      ]
    ]
