-- ===== src/Proxy/Cohorts.antt =====
-- The shards of erasure-coded blocks: ec_utils.rs, their sizes and places; data_vg_proxy.rs, the cohort
-- that a read may decode. The hash of a blob id and the Reed-Solomon code are not modelled.
pub mod Unique
pub mod Placement
use fractalbits.Base.{
  ℕ, zero, suc, ◌+◌, ◌-◌, ◌*◌, ◌%◌, Bool, true, false, not, ◌&&◌, Option, none, some, List, [], ◌∷◌,
  leb, ◌==◌, if◌then◌else◌,
}

unfoldable pub ec_padded_len : ℕ → ℕ → ℕ
ec_padded_len content_len data_shards =
    let stripe_size = data_shards * 2 in
    if content_len % stripe_size == 0
    then content_len
    else content_len + (stripe_size - content_len % stripe_size)

unfoldable pub shard_index : ℕ → ℕ → ℕ → ℕ
shard_index node_idx rotation total = (node_idx + total - rotation) % total

unfoldable pub node_index : ℕ → ℕ → ℕ → ℕ
node_index shard_idx rotation total = (shard_idx + rotation) % total

-- A shard as a node returned it.
pub record NodeBlob : Type 0 where
  pub body : List ℕ
  pub cohort_tag : ℕ

-- How many of the shards carry the tag.
unfoldable pub matching : ℕ → List (Option NodeBlob) → ℕ
matching tag [] = 0
matching tag (none ∷ shards) = matching tag shards
matching tag (some b ∷ shards) = (if b.cohort_tag == tag then 1 else 0) + matching tag shards

-- The loop over the shards from some place on, `all` being the whole list.
unfoldable pub first_cohort : List (Option NodeBlob) → ℕ → List (Option NodeBlob) → Option ℕ
unfolding matching
first_cohort all data_shards [] = none
first_cohort all data_shards (none ∷ rest) = first_cohort all data_shards rest
first_cohort all data_shards (some b ∷ rest) =
    let later = first_cohort all data_shards rest in
    if b.cohort_tag == 0
    then later
    else if leb data_shards (matching b.cohort_tag all)
    then some b.cohort_tag
    else later

unfoldable pub decodable_cohort : List (Option NodeBlob) → ℕ → Option ℕ
unfolding first_cohort
decodable_cohort shards data_shards = first_cohort shards data_shards shards
