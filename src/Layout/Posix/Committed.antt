-- ===== src/Layout/Posix/Committed.antt =====
-- What the comparison of committed data decides.
use fractalbits.Base.{◌≡◌, refl, ◌↔◌, true, arith}
use fractalbits.Layout.{ObjectLayout, ObjectState, ObjectMetaData}
use fractalbits.Layout.Ext
use fractalbits.Layout.Posix.{same_committed_data, guid_eq}

-- Two layouts publish the same committed data exactly if both are plain objects with the same blob,
-- size, ceiling, block size and map epoch, whatever else differs.
pub same_committed_data_iff :
    (expected current : ObjectLayout)
    → (same_committed_data expected current ≡ true) ↔ (
        (a b : ObjectMetaData) × (expected.state ≡ ObjectState.normal a)
        × (current.state ≡ ObjectState.normal b)
        × (a.blob_guid ≡ b.blob_guid)
        × (a.core_meta_data.size ≡ b.core_meta_data.size)
        × (expected.blob_version ≡ current.blob_version)
        × (expected.block_size ≡ current.block_size)
        × (Ext.map_epoch expected ≡ Ext.map_epoch current))
unfolding same_committed_data guid_eq
same_committed_data_iff expected current = (there expected.state current.state refl refl, back)
  where
    there :
        (s t : ObjectState)
        → expected.state ≡ s
        → current.state ≡ t
        → same_committed_data expected current ≡ true
        → ((a b : ObjectMetaData) × (expected.state ≡ ObjectState.normal a)
            × (current.state ≡ ObjectState.normal b)
            × (a.blob_guid ≡ b.blob_guid)
            × (a.core_meta_data.size ≡ b.core_meta_data.size)
            × (expected.blob_version ≡ current.blob_version)
            × (expected.block_size ≡ current.block_size)
            × (Ext.map_epoch expected ≡ Ext.map_epoch current))
    there (ObjectState.normal a) (ObjectState.normal b) p q h =
        (a, b, p, q, ground arith, ground arith, ground arith, ground arith, ground arith)
    there s t p q h = absurd (ground arith)

    back :
        ((a b : ObjectMetaData) × (expected.state ≡ ObjectState.normal a)
          × (current.state ≡ ObjectState.normal b)
          × (a.blob_guid ≡ b.blob_guid)
          × (a.core_meta_data.size ≡ b.core_meta_data.size)
          × (expected.blob_version ≡ current.blob_version)
          × (expected.block_size ≡ current.block_size)
          × (Ext.map_epoch expected ≡ Ext.map_epoch current))
        → same_committed_data expected current ≡ true
    back (a, b, p, q, g, s, v, k, m) = ground arith
