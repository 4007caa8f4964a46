-- ===== src/Proxy/Volumes/Selection.antt =====
-- data_vg_proxy.rs, the choice of a volume for a new blob. The random draws are arguments: `i` of
-- 0..len, `j` of 0..len - 1, and a coin.
use fractalbits.Base.{
  ℕ, ◌+◌, ◌-◌, ◌%◌, ◌^◌, ◌≤◌, ◌<◌, ◌≡◌, ◌≢◌, refl, ap, sym, subst, ◌∙◌, ◌⊎◌, Bool, true, false, not,
  Option, none, some, List, [], ◌∷◌, arith, ltb, leb, ◌==◌, if◌then◌else◌, length, get_elem?, ◌>>=◌,
  inl, inr,
}
use fractalbits.Base.Choice.{filter, Holds, Holds-filter, get_elem?_below, filter_none}
use fractalbits.Proxy.Volumes.{VolumeWithNodes, VolumeSelectionPolicy, DataVgProxy, is_ec}

pub record Draws : Type 0 where
  pub i : ℕ
  pub j : ℕ
  pub coin : Bool

abbrev pub Volumes : Type 0
Volumes = List VolumeWithNodes

unfoldable pub or_else : Volumes → Volumes → Volumes
or_else [] other = other
or_else (v ∷ vs) other = v ∷ vs

-- The preferred tier, the replicated one if that is empty, and every volume if that is too.
unfoldable pub candidates : Bool → Volumes → Volumes
unfolding or_else is_ec
candidates prefer_ec volumes =
    or_else
      (or_else (if prefer_ec then filter (λ v. is_ec v.mode) volumes else [])
        (filter (λ v. not (is_ec v.mode)) volumes))
      volumes

unfoldable pub less_loaded : VolumeWithNodes → VolumeWithNodes → Bool → VolumeWithNodes
less_loaded a b coin =
    if ltb a.inflight b.inflight
    then a
    else if ltb b.inflight a.inflight
    then b
    else if coin
    then a
    else b

unfoldable pub pick_volume_least_qd : Draws → Volumes → Option VolumeWithNodes
unfolding less_loaded
pick_volume_least_qd d vs = do
  a ← get_elem? vs d.i
  b ← get_elem? vs (if leb d.i d.j then d.j + 1 else d.j)
  some (less_loaded a b d.coin)

-- The counter before the step chooses; `fetch_add` wraps around at 64 bits.
unfoldable pub pick_volume_round_robin : ℕ → Volumes → Option VolumeWithNodes × ℕ
pick_volume_round_robin counter vs = (get_elem? vs (counter % length vs), (counter + 1) % 2 ^ 64)

-- The volume and the counter after the choice; `none` stands for a panic.
unfoldable pub pick_volume :
    VolumeSelectionPolicy → Draws → ℕ → Volumes → Option VolumeWithNodes × ℕ
unfolding pick_volume_least_qd pick_volume_round_robin
pick_volume policy d counter [] = (none, counter)
pick_volume policy d counter (v ∷ []) = (some v, counter)
pick_volume VolumeSelectionPolicy.round_robin d counter (v ∷ w ∷ vs) =
    pick_volume_round_robin counter (v ∷ w ∷ vs)
pick_volume VolumeSelectionPolicy.least_qd d counter (v ∷ w ∷ vs) =
    (pick_volume_least_qd d (v ∷ w ∷ vs), counter)

unfoldable pub select_volume_for_blob_with_preference :
    DataVgProxy → Draws → Bool → Option ℕ × DataVgProxy
unfolding pick_volume candidates
select_volume_for_blob_with_preference p d prefer_ec =
    let (picked, counter) =
      pick_volume p.policy d p.round_robin_counter (candidates prefer_ec p.volumes) in
    ((picked >>= λ v. some v.volume_id), record p { round_robin_counter = counter })

unfoldable pub find_volume : Volumes → ℕ → Option VolumeWithNodes
find_volume [] volume_id = none
find_volume (v ∷ vs) volume_id =
    if v.volume_id == volume_id then some v else find_volume vs volume_id

-- What the random source promises for a tier of that size.
abbrev pub AreDraws : ℕ → Draws → Type 0
AreDraws len d = (d.i < len) × (d.j < len - 1)

less_loaded-cases :
    (a b : VolumeWithNodes) (coin : Bool) → (less_loaded a b coin ≡ a) ⊎ (less_loaded a b coin ≡ b)
unfolding less_loaded
less_loaded-cases a b coin = ground arith

less_loaded_least :
    (a b : VolumeWithNodes) (coin : Bool)
    → ((less_loaded a b coin).inflight ≤ a.inflight)
      × ((less_loaded a b coin).inflight ≤ b.inflight)
unfolding less_loaded
less_loaded_least a b coin = ground arith

-- With draws in their ranges, two distinct places of the tier are sampled, and the volume that is
-- picked is in the tier and has at most as many writes in flight as each of the two.
pub pick_volume_least_qd_lem :
    (d : Draws) (vs : Volumes)
    → AreDraws (length vs) d
    → (k : ℕ) × (a : VolumeWithNodes) × (b : VolumeWithNodes) × (v : VolumeWithNodes) × (d.i ≢ k)
      × (get_elem? vs d.i ≡ some a)
      × (get_elem? vs k ≡ some b)
      × (pick_volume_least_qd d vs ≡ some v)
      × Holds v vs
      × (v.inflight ≤ a.inflight)
      × (v.inflight ≤ b.inflight)
unfolding pick_volume_least_qd
pick_volume_least_qd_lem d vs (di, dj) =
    let k = if leb d.i d.j then d.j + 1 else d.j in
    let (a, e) = get_elem?_below vs d.i di in
    let (b, f) = get_elem?_below vs k (ground (arith, dj)) in
    let (le_a, le_b) = less_loaded_least a b d.coin in
    let held : Holds (less_loaded a b d.coin) vs = elim (less_loaded-cases a b d.coin) [
      | inl s ↦ (d.i, e ∙ ap some (sym s))
      | inr s ↦ (k, f ∙ ap some (sym s))
    ] in
    (k, a, b, less_loaded a b d.coin, ground arith, e, f, rw (e, f) refl, held, le_a, le_b)

pick_volume-Holds :
    (policy : VolumeSelectionPolicy) (d : Draws) (counter : ℕ) (vs : Volumes)
    → vs ≢ []
    → (1 < length vs → AreDraws (length vs) d)
    → (v : VolumeWithNodes) × ((pick_volume policy d counter vs).0 ≡ some v) × Holds v vs
pick_volume-Holds policy d counter [] ne draws = absurd (ne refl)
pick_volume-Holds policy d counter (v ∷ []) ne draws = (v, unfold pick_volume in refl, (0, refl))
pick_volume-Holds VolumeSelectionPolicy.round_robin d counter (v ∷ w ∷ vs) ne draws =
    let (a, e) = get_elem?_below (v ∷ w ∷ vs) (counter % length (v ∷ w ∷ vs)) (omega arith) in
    (a, unfold pick_volume pick_volume_round_robin in e, (_, e))
pick_volume-Holds VolumeSelectionPolicy.least_qd d counter (v ∷ w ∷ vs) ne draws =
    let (k, a, b, x, _, _, _, picked, held, _, _) =
      pick_volume_least_qd_lem d (v ∷ w ∷ vs) (draws (omega arith)) in
    (x, unfold pick_volume in picked, held)

or_else_assoc : (xs ys zs : Volumes) → or_else (or_else xs ys) zs ≡ or_else xs (or_else ys zs)
unfolding or_else
or_else_assoc [] ys zs = refl
or_else_assoc (x ∷ xs) ys zs = refl

-- The first choice is a test's tier if that has a volume.
tier_lem :
    (test : VolumeWithNodes → Bool) (vs ys : Volumes) (v : VolumeWithNodes)
    → (Holds v ys → Holds v vs)
    → Holds v (or_else (filter test vs) ys)
    → Holds v vs × (((w : VolumeWithNodes) × Holds w vs × (test w ≡ true)) → test v ≡ true)
tier_lem test vs ys v from h = go (filter test vs) refl h
  where
    go :
        (tier : Volumes)
        → filter test vs ≡ tier
        → Holds v (or_else tier ys)
        → Holds v vs × (((w : VolumeWithNodes) × Holds w vs × (test w ≡ true)) → test v ≡ true)
    go [] e k = (
      from (unfold or_else in k),
      λ (w, held, t). let none_left = filter_none test w vs e held in cc,
    )
    go (x ∷ xs) e k =
        let here : Holds v (x ∷ xs) = unfold or_else in k in
        let (held, t) = Holds-filter test v vs (subst (Holds v) (sym e) here) in (held, λ _. t)

abbrev pub in_tier : Bool → VolumeWithNodes → Bool
in_tier prefer_ec v = if prefer_ec then is_ec v.mode else not (is_ec v.mode)

candidates_lem :
    (prefer_ec : Bool) (vs : Volumes) (v : VolumeWithNodes)
    → Holds v (candidates prefer_ec vs)
    → Holds v vs
      × (((w : VolumeWithNodes) × Holds w vs × (in_tier prefer_ec w ≡ true))
          → in_tier prefer_ec v ≡ true)
candidates_lem true vs v h =
    let replicated = filter (λ (x : VolumeWithNodes). not (is_ec x.mode)) vs in
    let ec = filter (λ (x : VolumeWithNodes). is_ec x.mode) vs in
    tier_lem (in_tier true) vs (or_else replicated vs) v
      (λ k. (tier_lem (in_tier false) vs vs v (λ x. x) k).0)
      (subst (Holds v) (or_else_assoc ec replicated vs) (unfold candidates in h))
candidates_lem false vs v h =
    tier_lem (in_tier false) vs vs v (λ x. x) (unfold candidates or_else in h)

or_else-cons : (xs ys : Volumes) → ys ≢ [] → or_else xs ys ≢ []
unfolding or_else
or_else-cons [] ys ne e = ne e
or_else-cons (x ∷ xs) ys ne e = cc

-- On a proxy with a volume, a new blob goes to a configured volume, and to one of the tier asked
-- for, erasure coded or not, if that tier has a volume; the volumes are left as they are. The
-- draws are in the ranges that the code asks of its random source.
pub select_volume_for_blob_with_preference_lem :
    (p : DataVgProxy) (d : Draws) (prefer_ec : Bool)
    → p.volumes ≢ []
    → (1 < length (candidates prefer_ec p.volumes)
        → AreDraws (length (candidates prefer_ec p.volumes)) d)
    → (v : VolumeWithNodes) × ((select_volume_for_blob_with_preference p d prefer_ec).0
        ≡ some v.volume_id)
      × ((select_volume_for_blob_with_preference p d prefer_ec).1.volumes ≡ p.volumes)
      × Holds v p.volumes
      × (((w : VolumeWithNodes) × Holds w p.volumes × (in_tier prefer_ec w ≡ true))
          → in_tier prefer_ec v ≡ true)
unfolding select_volume_for_blob_with_preference
select_volume_for_blob_with_preference_lem p d prefer_ec ne draws =
    let some_left : candidates prefer_ec p.volumes ≢ [] =
      unfold candidates in or_else-cons _ p.volumes ne in
    let (v, e, held) =
      pick_volume-Holds p.policy d p.round_robin_counter (candidates prefer_ec p.volumes) some_left
        draws in
    let (inside, tier) = candidates_lem prefer_ec p.volumes v held in
    (v, rw e refl, refl, inside, tier)
