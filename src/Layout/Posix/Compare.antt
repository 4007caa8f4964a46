-- ===== src/Layout/Posix/Compare.antt =====
-- What the comparisons of layouts decide.
use fractalbits.Base.Bytes.{bytes_eq_refl, bytes_eq→eq}
use fractalbits.Base.{
  subst, ◌∙◌, inl, inr, Option-cases, ℕ, ◌≡◌, refl, sym, ap, ◌⊎◌, true, Option, none, some, List,
  arith,
}
use fractalbits.Layout.{
  update_fs_ext, ObjectLayout, ObjectState, MpuState, PosixAttrs, DirectoryData, FsExt,
  update_fs_ext,
}
use fractalbits.Layout.Ext
use fractalbits.Layout.Ext.{fs_posix, map_epoch, set_fs_posix, next_version, pending_append}
use fractalbits.Layout.Normalized.{ext_unique, update-IsNormalized, IsNormalized, ext-update}
use fractalbits.Layout.Posix.{
  posix_only_moved, layout_with_posix, layout_posix, rebase_posix, same_bytes, has_ext_posix,
  directory_data,
}

-- The attributes written are the attributes read, for every shape that carries any: plain
-- objects, completed uploads, symlinks, special files and directories.
pub layout_posix-layout_with_posix :
    (l : ObjectLayout) (p : PosixAttrs)
    → (has_ext_posix l.state ≡ true) ⊎ ((d : DirectoryData) × (l.state ≡ ObjectState.directory d))
    → layout_posix (layout_with_posix l p) ≡ p
unfolding layout_posix layout_with_posix set_fs_posix
layout_posix-layout_with_posix l p h = go l.state refl h
  where
    stored : fs_posix (set_fs_posix (some p) l) ≡ some p
    stored =
        unfold fs_posix set_fs_posix in
        ap (λ (e : FsExt). e.posix) (ext-update (λ e. record e { posix = some p }) l)

    go :
        (s : ObjectState)
        → l.state ≡ s
        → (has_ext_posix l.state ≡ true)
          ⊎ ((d : DirectoryData) × (l.state ≡ ObjectState.directory d))
        → layout_posix (layout_with_posix l p) ≡ p
    go (ObjectState.normal d) e h = ground (arith, stored)
    go (ObjectState.mpu MpuState.uploading) e h = ground arith
    go (ObjectState.mpu (MpuState.completed c)) e h = ground (arith, stored)
    go (ObjectState.symlink d) e h = ground (arith, stored)
    go (ObjectState.special d) e h = ground (arith, stored)
    go (ObjectState.directory d) e h = ground arith
    go (ObjectState.indirect d) e h = ground arith

same_bytes→eq :
    (a b : Option (List ℕ)) → same_bytes a b ≡ true → (x : List ℕ) × (a ≡ some x) × (b ≡ some x)
unfolding same_bytes
same_bytes→eq (some a) (some b) h = (a, refl, ap some (sym (bytes_eq→eq a b h)))
same_bytes→eq (some a) none h = cc
same_bytes→eq none b h = cc

-- Everything but the POSIX attributes is the same.
pub record BindsAs (a b : ObjectLayout) : Type 0 where
  pub timestamp : a.timestamp ≡ b.timestamp
  pub version_id : a.version_id ≡ b.version_id
  pub block_size : a.block_size ≡ b.block_size
  pub blob_version : a.blob_version ≡ b.blob_version
  pub next_version : Ext.next_version a ≡ Ext.next_version b
  pub pending_append : Ext.pending_append a ≡ Ext.pending_append b
  pub map_epoch : Ext.map_epoch a ≡ Ext.map_epoch b
  pub state : directory_data b.state ≡ none → a.state ≡ b.state

set_fs_posix-BindsAs : (l : ObjectLayout) (p : Option PosixAttrs) → BindsAs (set_fs_posix p l) l
unfolding set_fs_posix Ext.next_version Ext.pending_append Ext.map_epoch
set_fs_posix-BindsAs l p =
    let e = ext-update (λ e. record e { posix = p }) l in
    record {
      timestamp = refl;
      version_id = refl;
      block_size = refl;
      blob_version = refl;
      next_version = ap (λ (x : FsExt). x.next_version) e;
      pending_append = ap (λ (x : FsExt). x.pending_append) e;
      map_epoch = ap (λ (x : FsExt). x.map_epoch) e;
      state = λ _. refl;
    }

with_directory-BindsAs :
    (l : ObjectLayout) (c d : DirectoryData)
    → directory_data l.state ≡ some c
    → BindsAs (record l { state = ObjectState.directory d }) l
unfolding Ext.next_version Ext.pending_append Ext.map_epoch
with_directory-BindsAs l c d h = record {
  timestamp = refl;
  version_id = refl;
  block_size = refl;
  blob_version = refl;
  next_version = refl;
  pending_append = refl;
  map_epoch = refl;
  state = λ e. let impossible : none ≡ some c = sym e ∙ h in cc;
}

rebase_posix-BindsAs :
    (expected current normalized : ObjectLayout)
    → rebase_posix expected current ≡ some normalized
    → BindsAs normalized current
unfolding rebase_posix
rebase_posix-BindsAs expected current normalized h =
    go (directory_data expected.state) (directory_data current.state) refl refl
  where
    go :
        (x y : Option DirectoryData)
        → directory_data expected.state ≡ x
        → directory_data current.state ≡ y
        → BindsAs normalized current
    go (some e) (some c) p q =
        let same : record current { state = ObjectState.directory (record c { posix = e.posix }) }
            ≡ normalized =
          ground arith in
        subst (λ n. BindsAs n current) same
          (with_directory-BindsAs current c (record c { posix = e.posix }) q)
    go (some e) none p q = absurd (ground arith)
    go none (some c) p q = absurd (ground arith)
    go none none p q =
        let same : set_fs_posix (fs_posix expected) current ≡ normalized = ground arith in
        subst (λ n. BindsAs n current) same (set_fs_posix-BindsAs current (fs_posix expected))

-- A layout that the check accepts in place of the expected one binds the same data: every member
-- but the POSIX attributes is the expected one, and for anything but a directory the object state
-- too. The encoder is assumed to give no other layout the bytes of the expected one.
pub posix_only_moved-BindsAs :
    (to_bytes : ObjectLayout → Option (List ℕ)) (expected current : ObjectLayout)
    → ((x : List ℕ) (normalized : ObjectLayout)
        → to_bytes expected ≡ some x
        → to_bytes normalized ≡ some x
        → expected ≡ normalized)
    → posix_only_moved to_bytes expected current ≡ true
    → BindsAs expected current
unfolding posix_only_moved
posix_only_moved-BindsAs to_bytes expected current injective h =
    elim (Option-cases (rebase_posix expected current)) [
      | inl e ↦ absurd (ground arith)
      | inr (n, e) ↦
          let (x, p, q) = same_bytes→eq (to_bytes expected) (to_bytes n) (ground arith) in
          subst (λ l. BindsAs l current) (sym (injective x n p q))
            (rebase_posix-BindsAs expected current n e)
    ]

set_fs_posix-back :
    (l : ObjectLayout) (q : Option PosixAttrs)
    → IsNormalized l
    → set_fs_posix (fs_posix l) (set_fs_posix q l) ≡ l
unfolding set_fs_posix fs_posix update_fs_ext
set_fs_posix-back l q n =
    let m = set_fs_posix q l in
    let inner = ext-update (λ e. record e { posix = q }) l in
    let outer = ext-update (λ e. record e { posix = fs_posix l }) m in
    let same = outer ∙ ap (λ (e : FsExt). record e { posix = fs_posix l }) inner in
    ap (λ x. record l { fs_ext = x })
      (ext_unique _ l.fs_ext (update-IsNormalized (λ e. record e { posix = fs_posix l }) m) n same)

set_fs_posix-same : (l : ObjectLayout) → IsNormalized l → set_fs_posix (fs_posix l) l ≡ l
unfolding set_fs_posix fs_posix update_fs_ext
set_fs_posix-same l n =
    let same = ext-update (λ e. record e { posix = fs_posix l }) l in
    ap (λ x. record l { fs_ext = x })
      (ext_unique _ l.fs_ext (update-IsNormalized (λ e. record e { posix = fs_posix l }) l) n same)

state-set_fs_posix : (l : ObjectLayout) (q : Option PosixAttrs) → (set_fs_posix q l).state ≡ l.state
unfolding set_fs_posix
state-set_fs_posix l q = refl

rebase-layout_with_posix :
    (l : ObjectLayout) (p : PosixAttrs)
    → IsNormalized l
    → rebase_posix l (layout_with_posix l p) ≡ some l
unfolding rebase_posix layout_with_posix
rebase-layout_with_posix l p n = go l.state refl
  where
    go : (s : ObjectState) → l.state ≡ s → rebase_posix l (layout_with_posix l p) ≡ some l
    go (ObjectState.normal d) e =
        ground (arith, set_fs_posix-back l (some p) n, state-set_fs_posix l (some p))
    go (ObjectState.mpu MpuState.uploading) e = ground (arith, set_fs_posix-same l n)
    go (ObjectState.mpu (MpuState.completed c)) e =
        ground (arith, set_fs_posix-back l (some p) n, state-set_fs_posix l (some p))
    go (ObjectState.symlink d) e =
        ground (arith, set_fs_posix-back l (some p) n, state-set_fs_posix l (some p))
    go (ObjectState.special d) e =
        ground (arith, set_fs_posix-back l (some p) n, state-set_fs_posix l (some p))
    go (ObjectState.directory d) e = ground arith
    go (ObjectState.indirect d) e = ground (arith, set_fs_posix-same l n)

-- A change of attributes alone is always accepted, on a normalized layout of any shape that the
-- encoder encodes.
pub posix_only_moved-layout_with_posix :
    (to_bytes : ObjectLayout → Option (List ℕ)) (l : ObjectLayout) (p : PosixAttrs) (x : List ℕ)
    → IsNormalized l
    → to_bytes l ≡ some x
    → posix_only_moved to_bytes l (layout_with_posix l p) ≡ true
unfolding posix_only_moved
posix_only_moved-layout_with_posix to_bytes l p x n h =
    ground (arith, rebase-layout_with_posix l p n, bytes_eq_refl x)
