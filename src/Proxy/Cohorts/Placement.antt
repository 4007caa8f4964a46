-- ===== src/Proxy/Cohorts/Placement.antt =====
-- ec_utils.rs: shards and nodes correspond one to one, and a padded body splits into even shards.
use fractalbits.Base.{
  ℕ, ◌+◌, ◌-◌, ◌*◌, ◌%◌, ◌≤◌, ◌<◌, ◌≡◌, sym, ap, ◌∙◌, Bool-cases, inl, inr, arith, ◌==◌,
}
use native.Mathlib.Nat.{mod-add-mod, add-mod_right, mod-eq_of_lt, mod_self, mod-lt}
use fractalbits.Proxy.Cohorts.{ec_padded_len, shard_index, node_index}

-- A turn by `b` after one by `a` is none if both together are a full turn.
turn : (i a b total : ℕ) → i < total → a + b ≡ total → ((i + a) % total + b) % total ≡ i
turn i a b total lt e =
    mod-add-mod (i + a) total b ∙ ap (λ x. x % total) full ∙ add-mod_right i total ∙ mod-eq_of_lt lt
  where
    full : i + a + b ≡ i + total
    full = omega (arith, e)

-- For a rotation and a place below the number of shards: going from a node to its shard and back,
-- or from a shard to its node and back, returns to the place.
pub node_index-shard_index :
    (i rotation total : ℕ)
    → i < total
    → rotation < total
    → (node_index (shard_index i rotation total) rotation total ≡ i)
      × (shard_index (node_index i rotation total) rotation total ≡ i)
unfolding node_index shard_index
node_index-shard_index i rotation total lt r =
    let back : i + total - rotation ≡ i + (total - rotation) = omega arith in
    let over : (i + rotation) % total + total - rotation
        ≡ (i + rotation) % total + (total - rotation) =
      omega arith in
    (
      ap (λ x. (x % total + rotation) % total) back
          ∙ turn i (total - rotation) rotation total lt (omega arith),
      ap (λ x. x % total) over ∙ turn i rotation (total - rotation) total lt (omega arith),
    )

-- With at least one data shard, the padded length is a multiple of twice the number of data
-- shards, not below the length of the content, and less than one such stripe above it.
pub ec_padded_len_lem :
    (content_len data_shards : ℕ)
    → 0 < data_shards
    → (ec_padded_len content_len data_shards % (data_shards * 2) ≡ 0)
      × (content_len ≤ ec_padded_len content_len data_shards)
      × (ec_padded_len content_len data_shards < content_len + data_shards * 2)
unfolding ec_padded_len
ec_padded_len_lem c k pos = elim (Bool-cases (c % (k * 2) == 0)) [
  | inl e ↦ rw e (ground (arith, e), omega arith, omega arith)
  | inr e ↦
      let below : c % (k * 2) < k * 2 = mod-lt c (omega arith) in
      let up : c % (k * 2) + (k * 2 - c % (k * 2)) ≡ k * 2 = omega (arith, below) in
      let whole =
        sym (mod-add-mod c (k * 2) (k * 2 - c % (k * 2)))
        ∙ ap (λ x. x % (k * 2)) up
        ∙ mod_self (k * 2) in
      rw e (whole, omega (arith, below), ground (arith, below, e))
]
