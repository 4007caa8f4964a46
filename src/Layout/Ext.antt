-- ===== src/Layout/Ext.antt =====
-- object_layout.rs, the filesystem members of a layout behind their normalizing mutator.
use fractalbits.Base.{◌%◌, ◌^◌, ℕ, ◌+◌, max, Bool, false, not, ◌||◌, Option, none, some, ltb, ◌==◌}
use fractalbits.Layout.{
  ObjectLayout, PosixAttrs, FsExt, ext_or_default, update_fs_ext, normalize_ext, fs_ext_default,
}
use fractalbits.Ovr.Ranges.{saturating_add}

unfoldable pub fs_posix : ObjectLayout → Option PosixAttrs
unfolding ext_or_default
fs_posix l = (ext_or_default l.fs_ext).posix

unfoldable pub pending_append : ObjectLayout → Option (ℕ × ℕ)
unfolding ext_or_default
pending_append l = (ext_or_default l.fs_ext).pending_append

unfoldable pub map_epoch : ObjectLayout → ℕ
unfolding ext_or_default
map_epoch l = (ext_or_default l.fs_ext).map_epoch

unfoldable pub next_version : ObjectLayout → ℕ
unfolding ext_or_default
next_version l = (ext_or_default l.fs_ext).next_version

-- The version that the next write attempt must burn.
unfoldable pub next_burn_version : ObjectLayout → ℕ
unfolding next_version
next_burn_version l = max (next_version l) ((l.blob_version + 1) % 2 ^ 64)

unfoldable pub set_fs_posix : Option PosixAttrs → ObjectLayout → ObjectLayout
unfolding update_fs_ext
set_fs_posix posix = update_fs_ext (λ e. record e { posix = posix })

unfoldable pub set_next_version : ℕ → ObjectLayout → ObjectLayout
unfolding update_fs_ext
set_next_version v = update_fs_ext (λ e. record e { next_version = max e.next_version v })

unfoldable pub set_pending_append : Option (ℕ × ℕ) → ObjectLayout → ObjectLayout
unfolding update_fs_ext
set_pending_append range = update_fs_ext (λ e. record e { pending_append = range })

unfoldable pub set_map_epoch : ℕ → ObjectLayout → ObjectLayout
unfolding update_fs_ext
set_map_epoch epoch = update_fs_ext (λ e. record e { map_epoch = max e.map_epoch epoch })

unfoldable pub is_mapped : ObjectLayout → Bool
unfolding map_epoch
is_mapped l = not (map_epoch l == 0)

-- `saturating_add` on the committed ceiling.
unfoldable pub may_have_ovr_records : ObjectLayout → Bool
unfolding is_mapped ext_or_default
may_have_ovr_records l = is_mapped l || elim l.fs_ext [
  | none ↦ false
  | some e ↦ ltb (saturating_add l.blob_version 1) e.next_version
]

unfoldable pub fs_ext_from : Option PosixAttrs → Option FsExt
unfolding normalize_ext
fs_ext_from posix = normalize_ext (record fs_ext_default { posix = posix })
