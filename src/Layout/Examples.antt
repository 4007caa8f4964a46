-- ===== src/Layout/Examples.antt =====
-- Each theorem about layouts at a concrete input.
use fractalbits.Base.{
  Bool-cases, inr, sym, ◌∙◌, ℕ, ◌≡◌, refl, inl, true, Option, none, some, List, [], ◌∷◌, arith,
  if◌then◌else◌,
}
use native.Mathlib.Decide.{ℕ_discrete}
use mathlib.Core.Bool.{decide}
use fractalbits.Layout.{ObjectLayout, ObjectState, ObjectMetaData, PosixAttrs, fs_ext_is_default}
use fractalbits.Layout.Normalized.{IsNormalized}
use fractalbits.Layout.Posix.{layout_with_posix, posix_only_moved}
use fractalbits.Layout.Posix.Compare.{
  BindsAs, posix_only_moved-BindsAs, posix_only_moved-layout_with_posix,
}

abbrev attrs : PosixAttrs
attrs = record { mode = 420; uid = 7; gid = 7; mtime_ns = 1; ctime_ns = 2 }

abbrev object : ObjectMetaData
object = record {
  blob_guid = record { blob_id = 9; volume_id = 1 };
  core_meta_data = record { size = 100; etag = []; headers = []; checksum = none };
}

abbrev layout : ObjectLayout
layout = record {
  timestamp = 1;
  version_id = 2;
  block_size = 4096;
  blob_version = 3;
  fs_ext = some (record { posix = none; next_version = 5; pending_append = none; map_epoch = 0 });
  state = ObjectState.normal object;
}

layout_discrete : Discrete ObjectLayout
layout_discrete = hlevel ℕ_discrete

-- An encoder that tells the layout from every other one.
abbrev to_bytes : ObjectLayout → Option (List ℕ)
to_bytes l = some ((if decide (layout_discrete layout l) then 1 else 0) ∷ [])

layout-IsNormalized : IsNormalized layout
unfolding fs_ext_is_default
layout-IsNormalized = refl

layout-to_bytes : to_bytes layout ≡ some (1 ∷ [])
unfolding decide layout_discrete ℕ_discrete
layout-to_bytes = refl

decide→proof {ℓ} : {A : Type ℓ} (d : Dec A) → decide d ≡ true → A
unfolding decide
decide→proof (yes a) h = a
decide→proof (no n) h = cc

to_bytes_unique :
    (x : List ℕ) (n : ObjectLayout) → to_bytes layout ≡ some x → to_bytes n ≡ some x → layout ≡ n
to_bytes_unique x n p q = elim (Bool-cases (decide (layout_discrete layout n))) [
  | inl t ↦ decide→proof (layout_discrete layout n) t
  | inr f ↦
      let zero : to_bytes n ≡ some (0 ∷ []) = rw f refl in
      let one : to_bytes n ≡ some (1 ∷ []) = q ∙ sym p ∙ layout-to_bytes in
      let same : some (0 ∷ []) ≡ some (1 ∷ []) = sym zero ∙ one in absurd (ground (arith, same))
]

moved : posix_only_moved to_bytes layout (layout_with_posix layout attrs) ≡ true
moved =
    posix_only_moved-layout_with_posix to_bytes layout attrs (1 ∷ []) layout-IsNormalized
      layout-to_bytes

posix_only_moved-BindsAs_example : BindsAs layout (layout_with_posix layout attrs)
posix_only_moved-BindsAs_example =
    posix_only_moved-BindsAs to_bytes layout (layout_with_posix layout attrs) to_bytes_unique moved
