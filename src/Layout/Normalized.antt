-- ===== src/Layout/Normalized.antt =====
-- The filesystem members stay normalized, so equal layouts have one representation; and the version
-- allocator never goes back.
use fractalbits.Base.{
  subst, ℕ, ◌+◌, ◌-◌, ◌^◌, ◌<◌, max, ◌≡◌, refl, sym, ap, ◌≢◌, ◌↔◌, ◌⊎◌, inl, inr, true, false,
  Option, none, some, arith, Bool-cases, is_none,
}
use fractalbits.Layout.{
  ObjectLayout, PosixAttrs, FsExt, ext_or_default, update_fs_ext, normalize_ext, fs_ext_default,
  fs_ext_is_default,
}
use fractalbits.Ovr.Ranges.{saturating_add}
use fractalbits.Layout.Ext.{
  fs_posix, pending_append, map_epoch, next_version, next_burn_version, set_fs_posix,
  set_next_version, set_pending_append, set_map_epoch, fs_ext_from, may_have_ovr_records,
}

abbrev pub IsNormalExt : Option FsExt → Type 0
IsNormalExt none = Unit {0}
IsNormalExt (some e) = fs_ext_is_default e ≡ false

abbrev pub IsNormalized : ObjectLayout → Type 0
IsNormalized l = IsNormalExt l.fs_ext

pub normalize_ext-IsNormal : (e : FsExt) → IsNormalExt (normalize_ext e)
unfolding normalize_ext
normalize_ext-IsNormal e = elim (Bool-cases (fs_ext_is_default e)) [
  | inl d ↦ rw d tt
  | inr d ↦ rw d d
]

pub update-IsNormalized : (f : FsExt → FsExt) (l : ObjectLayout) → IsNormalized (update_fs_ext f l)
unfolding update_fs_ext
update-IsNormalized f l = normalize_ext-IsNormal (f (ext_or_default l.fs_ext))

-- Every mutator leaves a normalized layout, whatever it was given.
pub setters-IsNormalized :
    (l : ObjectLayout) (posix : Option PosixAttrs) (version epoch : ℕ) (range : Option (ℕ × ℕ))
    → IsNormalized (set_fs_posix posix l)
      × IsNormalized (set_next_version version l)
      × IsNormalized (set_pending_append range l)
      × IsNormalized (set_map_epoch epoch l)
      × IsNormalExt (fs_ext_from posix)
unfolding set_fs_posix set_next_version set_pending_append set_map_epoch fs_ext_from
setters-IsNormalized l posix version epoch range = (
  update-IsNormalized (λ e. record e { posix = posix }) l,
  update-IsNormalized (λ e. record e { next_version = max e.next_version version }) l,
  update-IsNormalized (λ e. record e { pending_append = range }) l,
  update-IsNormalized (λ e. record e { map_epoch = max e.map_epoch epoch }) l,
  normalize_ext-IsNormal (record fs_ext_default { posix = posix }),
)

is_none→eq {ℓ} : {A : Type ℓ} (o : Option A) → is_none o ≡ true → o ≡ none
is_none→eq none h = refl
is_none→eq (some a) h = cc

default→eq : (e : FsExt) → fs_ext_is_default e ≡ true → e ≡ fs_ext_default
unfolding fs_ext_is_default
default→eq e h = ground (arith, is_none→eq e.posix, is_none→eq e.pending_append)

-- Normalizing loses nothing that an accessor reads.
ext_or_default-normalize : (e : FsExt) → ext_or_default (normalize_ext e) ≡ e
unfolding ext_or_default normalize_ext
ext_or_default-normalize e = elim (Bool-cases (fs_ext_is_default e)) [
  | inl d ↦ rw d (sym (default→eq e d))
  | inr d ↦ rw d refl
]

pub ext_unique :
    (a b : Option FsExt)
    → IsNormalExt a
    → IsNormalExt b
    → ext_or_default a ≡ ext_or_default b
    → a ≡ b
unfolding ext_or_default fs_ext_is_default
ext_unique none none p q h = refl
ext_unique none (some e) p q h =
    let impossible : true ≡ false = subst (λ x. fs_ext_is_default x ≡ false) (sym h) q in cc
ext_unique (some e) none p q h =
    let impossible : true ≡ false = subst (λ x. fs_ext_is_default x ≡ false) h p in cc
ext_unique (some e) (some f) p q h = ap some h

-- Two normalized layouts that agree on every accessor and every plain field are the same value, so
-- they are stored as the same bytes.
pub normalized_unique :
    (a b : ObjectLayout)
    → IsNormalized a
    → IsNormalized b
    → a.timestamp ≡ b.timestamp
    → a.version_id ≡ b.version_id
    → a.block_size ≡ b.block_size
    → a.blob_version ≡ b.blob_version
    → a.state ≡ b.state
    → fs_posix a ≡ fs_posix b
    → next_version a ≡ next_version b
    → pending_append a ≡ pending_append b
    → map_epoch a ≡ map_epoch b
    → a ≡ b
unfolding fs_posix next_version pending_append map_epoch
normalized_unique a b p q t v s c w x y z u =
    let e : ext_or_default a.fs_ext ≡ ext_or_default b.fs_ext = ground arith in
    ground (arith, ext_unique a.fs_ext b.fs_ext p q e)

pub ext-update :
    (f : FsExt → FsExt) (l : ObjectLayout)
    → ext_or_default (update_fs_ext f l).fs_ext ≡ f (ext_or_default l.fs_ext)
unfolding update_fs_ext
ext-update f l = ext_or_default-normalize (f (ext_or_default l.fs_ext))

-- Each mutator sets its own member of the filesystem extension and leaves the others as they are;
-- the allocator and the map epoch only grow.
pub setters_lem :
    (l : ObjectLayout) (posix : Option PosixAttrs) (version epoch : ℕ) (range : Option (ℕ × ℕ))
    → (ext_or_default (set_fs_posix posix l).fs_ext
        ≡ record (ext_or_default l.fs_ext) { posix = posix })
      × (ext_or_default (set_next_version version l).fs_ext
          ≡ record (ext_or_default l.fs_ext) { next_version = max (next_version l) version })
      × (ext_or_default (set_pending_append range l).fs_ext
          ≡ record (ext_or_default l.fs_ext) { pending_append = range })
      × (ext_or_default (set_map_epoch epoch l).fs_ext
          ≡ record (ext_or_default l.fs_ext) { map_epoch = max (map_epoch l) epoch })
unfolding set_fs_posix set_next_version set_pending_append set_map_epoch next_version map_epoch
setters_lem l posix version epoch range = (
  ext-update (λ e. record e { posix = posix }) l,
  ext-update (λ e. record e { next_version = max e.next_version version }) l,
  ext-update (λ e. record e { pending_append = range }) l,
  ext-update (λ e. record e { map_epoch = max e.map_epoch epoch }) l,
)

-- The next version to burn lies above the committed ceiling, and recording a burned version
-- raises it to that version if it was lower, and never lowers it.
pub next_burn_version-set_next_version :
    (l : ObjectLayout) (n : ℕ)
    → l.blob_version + 1 < 2 ^ 64
    → (l.blob_version < next_burn_version l)
      × (next_burn_version (set_next_version n l) ≡ max (next_burn_version l) n)
unfolding next_burn_version next_version set_next_version
next_burn_version-set_next_version l n fits =
    let e = ext-update (λ e. record e { next_version = max e.next_version n }) l in
    let v = ap (λ (e : FsExt). e.next_version) e in (omega arith, omega (arith, v))

-- Below the last ceiling, a layout may have overwrite records exactly if it was mapped or its
-- allocator is more than one step past the ceiling.
pub may_have_ovr_records_iff :
    (l : ObjectLayout)
    → l.blob_version < 2 ^ 64 - 1
    → (may_have_ovr_records l ≡ true) ↔ ((map_epoch l ≢ 0) ⊎ (l.blob_version + 1 < next_version l))
unfolding may_have_ovr_records map_epoch next_version saturating_add
may_have_ovr_records_iff l h = go l.fs_ext refl
  where
    go :
        (e : Option FsExt)
        → l.fs_ext ≡ e
        → (may_have_ovr_records l ≡ true)
          ↔ ((map_epoch l ≢ 0) ⊎ (l.blob_version + 1 < next_version l))
    go none e = (λ t. ground arith, λ t. ground arith)
    go (some x) e = (λ t. ground arith, λ t. ground arith)
