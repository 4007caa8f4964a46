-- ===== src/Proxy/Erasure/Encoding.antt =====
-- A padded body and its data shards.
use fractalbits.Base.{
  ℕ, zero, suc, ◌+◌, ◌-◌, ◌*◌, ◌/◌, ◌%◌, ◌≤◌, ◌<◌, ◌≡◌, refl, sym, ap, ◌∙◌, List, [], ◌∷◌, ◌++◌,
  arith, length, take, drop, All, length-append, length-take, length-drop, take-append-drop,
  replicate, drop-drop, drop_all, length-replicate,
}
use native.Mathlib.Nat.{div-add-mod, div-eq_of_eq-mul_right, mul-mod_right}
use fractalbits.Proxy.Cohorts.{ec_padded_len}
use fractalbits.Proxy.Cohorts.Placement.{ec_padded_len_lem}
use fractalbits.Proxy.Erasure.{Bytes, pad_body, split_shards}

abbrev pub concat : List Bytes → Bytes
concat [] = []
concat (x ∷ xs) = x ++ concat xs

-- As many shards as asked for, each of the size.
pub split_shards-length :
    (size i k : ℕ) (padded : Bytes)
    → (i + k) * size ≤ length padded
    → (length (split_shards size i k padded) ≡ k)
      × All (λ s. length s ≡ size) (split_shards size i k padded)
unfolding split_shards
split_shards-length size i zero padded h = (refl, tt)
split_shards-length size i (suc k) padded h =
    let next : (i + 1 + k) * size ≤ length padded = grind (arith, h) in
    let (n, sizes) = split_shards-length size (i + 1) k padded next in
    let start = i * size in
    let stop = (i + 1) * size in
    let room : stop ≤ length padded = grind (arith, h) in
    let wide : stop ≡ start + size = grind arith in
    (
      omega (arith, n),
      (
        omega (
          arith,
          length-take (stop - start) (drop start padded),
          length-drop start padded,
          room,
          wide,
        ),
        sizes,
      ),
    )

-- The data shards joined are the padded body.
pub concat-split_shards :
    (size i k : ℕ) (padded : Bytes)
    → length padded ≡ (i + k) * size
    → concat (split_shards size i k padded) ≡ drop (i * size) padded
unfolding split_shards
concat-split_shards size i zero padded h = sym (drop_all (i * size) padded (grind (arith, h)))
concat-split_shards size i (suc k) padded h =
    let start = i * size in
    let stop = (i + 1) * size in
    let wide : stop ≡ start + (stop - start) = grind arith in
    let next : length padded ≡ (i + 1 + k) * size = grind (arith, h) in
    ap (◌++◌ (take (stop - start) (drop start padded))) (
      concat-split_shards size (i + 1) k padded next
      ∙ ap (λ n. drop n padded) wide
      ∙ sym (drop-drop (stop - start) start padded))
    ∙ take-append-drop (stop - start) (drop start padded)

pub pad_body-length :
    (k : ℕ) (body : Bytes) → 0 < k → length (pad_body k body) ≡ ec_padded_len (length body) k
unfolding pad_body
pad_body-length k body pos =
    let pad = ec_padded_len (length body) k - length body in
    let zeros : Bytes = replicate pad 0 in
    omega (
      arith,
      length-append body zeros,
      length-replicate {A = ℕ} pad 0,
      ec_padded_len_lem (length body) k pos,
    )

-- The size of the shards is even and not 0, and `k` of them are the padded body.
pub shard_size_lem :
    (k : ℕ) (body : Bytes)
    → 0 < k
    → 0 < length body
    → (length (pad_body k body) / k % 2 ≡ 0)
      × (0 < length (pad_body k body) / k)
      × (length (pad_body k body) ≡ k * (length (pad_body k body) / k))
shard_size_lem k body pos some_ =
    let len = length (pad_body k body) in
    let same = pad_body-length k body pos in
    let (whole, enough, _) = ec_padded_len_lem (length body) k pos in
    let stripes = len / (k * 2) in
    let none_left : len % (k * 2) ≡ 0 = ap (λ n. n % (k * 2)) same ∙ whole in
    let split : len ≡ k * (2 * stripes) = grind (arith, div-add-mod len (k * 2), none_left) in
    let size : len / k ≡ 2 * stripes = div-eq_of_eq-mul_right pos split in
    (
      ap (λ n. n % 2) size ∙ mul-mod_right 2 stripes,
      grind (arith, size, split, same, enough),
      split ∙ ap (λ n. k * n) (sym size),
    )
