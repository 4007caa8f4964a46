-- ===== src/Lib.antt =====
-- Fractalbits is an S3 gateway over a metadata service (NSS) and storage nodes (BSS). An object is
-- a value of the metadata tree, its layout, and a blob of fixed-size blocks on a volume of storage
-- nodes. A filesystem client overwrites blocks in place of a blob: it burns a new generation, writes
-- the blocks under it, stages one row `@ovr/{blob}/{block}` for each, and commits by a
-- compare-and-swap of the layout, whose `blob_version` is the ceiling up to which generations are
-- visible. A flush that dies leaves rows and, later, a record of the generations that are rejected.
-- A reader loads the layout, then the rows, decides for each block which generation to fetch, and
-- fetches it from the volume.
--
-- The parts and their files, with paths from the root of the repository:
-- - Ovr: crates/common/data_types/src/ovr_map.rs. Ovr/Row is the row (`OvrRow::encode`, `decode`),
--   Ovr/Marker the teardown marker, Ovr/Keys the keys, Ovr/Resolve the reader's decision
--   (`resolve_row_filtered`) and the writer's merge (`merge_row_for_write_filtered`), Ovr/Ranges the
--   rejected generations, Ovr/Map the map of a blob and the fetch plan of a block. A `BTreeMap` is a
--   list in key order; the byte loops of the source are functions on lists of bytes.
-- - Layout: crates/common/data_types/src/object_layout.rs. Layout is the data and its accessors,
--   Layout/Ext the filesystem extension and its mutators, Layout/Posix the comparisons of layouts.
--   The encoder of rkyv is a parameter.
-- - Read: crates/s3_gateway/src/handler/get/get_object.rs. Read/RowMap is `load_row_map` with its
--   cache, Read holds its paging loop, `read_block` and the streams of full and range requests,
--   Read/Parts the bodies of objects of every state, an upload being its parts one behind the other
--   (`get_object_content`, `get_object_range_content`). The
--   name service and the blob client are parameters, given by their answers; a stream is the list of
--   its items. The paging loop runs on fuel, one unit for a page; as a page that is followed by
--   another one is not empty, more fuel than entries is enough.
-- - Proxy: crates/common/volume_group_proxy/src/data_vg_proxy.rs and
--   crates/common/data_types/src/volume.rs. Proxy/Breaker is the circuit breaker of a node,
--   Proxy/Volumes the checks of a configuration and the choice of a volume, Proxy/Replicated the
--   reads, writes and deletions on a replicated volume, Proxy/Cohorts the places of erasure-coded
--   shards (crates/common/data_types/src/ec_utils.rs) and the choice of a cohort to decode,
--   Proxy/Erasure the erasure-coded operations: `put_blob_ec` and `delete_blob_ec`, and below it
--   Arrivals, the two loops of `get_blob_ec`, and Reads, its decoding and repair. The Reed-Solomon
--   code and the hashes are parameters. Proxy/Dispatch is the choice of the operation by the volume
--   of a blob and its mode, with the vectored write, and Proxy/Listing the listing of the blocks of
--   a blob (`list_blob_blocks_inner`). The
--   answers of the nodes come as a list in the order of their completion, which is arbitrary; clock
--   readings and random draws are arguments. Operations on one breaker run one at a time.
-- - Drives: crates/common/data_types/src/drive.rs and crates/s3_gateway/src/drive_sweep.rs. Drives
--   is the record of a drive, Drives/Lease the lease of the worker that empties it, Drives/World the
--   steps of such a worker and of the other gateways on the stored record. The store of the records
--   (RSS) is outside: it gives each version once, answers a compare-and-set, and loses replies.
-- - Scopes: crates/common/data_types/src/scope.rs, the directory that a mount is confined to.
-- - Wire: crates/common/rpc_codecs/codec_common/src/protobuf_header.rs and lib.rs, the header of an
--   RPC message, and Wire/Receive the `receive_task` of
--   crates/common/rpc_clients/client_common/src/generic_client.rs. The hash is a parameter; the loop
--   runs on fuel, one unit for a frame, and more fuel than bytes is enough.
-- - Base: the shared helpers. A byte is a natural number below 256, a machine word one below its
--   power of two; additions that wrap around or saturate say so.
--
-- The parts meet as follows: Read folds the keys and rows of Ovr into a map and asks it for the plan
-- of each block, with the ceiling and the map epoch of the layout; what the proxy answers is the
-- answer of the blob client of Read, where an absent block is data loss for a committed generation
-- and a hole for the base version.
--
-- A panic of the erasure-coded read is the result `none`: on a volume without data shards, at a
-- shard without a node, at a missing body and at a body too short for its repair. The writes and
-- deletions are modelled for the volumes that `new_with_circuit_breaker` accepts, with at least one
-- data shard and a node for each shard; on others, where the code panics, they are total here.
--
-- Not modelled: the other request handlers, signatures, the RPC clients but for their receiving
-- loop, the message header of the storage nodes, the loop of a sweep, the command line tools,
-- benchmarks and deployment.
-- Logging and metrics have no model.
pub mod Base
pub mod Ovr
pub mod Layout
pub mod Read
pub mod Proxy
pub mod Drives
pub mod Scopes
pub mod Wire
