-- ===== src/Lib.antt =====
-- A model of the core of Deep, a store for snapshots of running programs: how queries are queued and
-- cut into requests, which blocks of the object store a tenant has, how blocks are compacted and
-- retired, and how an ingester queues its flushes. Paths are from the root of the repository.
--
-- The parts and the files that model them:
--
-- Prelude            Boolean tests, lists over the native numbers, Go strings as lists of bytes, maps
--                    as association lists, and signed integers.
-- Backend            pkg/deepdb/backend/block_meta.go: BlockMeta, NewBlockMeta and ObjectAdded.
-- BlockList          pkg/deepdb/blocklist/list.go: the list of a tenant's live and compacted blocks.
--                    Update and ApplyPollResults are functions on the record of the six maps. Blocks
--                    is about one list of blocks, Polling about updates and polls.
-- Scheduler          pkg/scheduler/queue. State holds the records of user_queues.go; Shuffle, UserOps
--                    and QuerierOps its functions; RequestQueue is queue.go. Their child modules hold
--                    the proofs: Slots and Rotation for the users' places and the order of service,
--                    Sorting, Current and Forget for the queriers, and Fifo, Serving, Work and
--                    Histories for whole calls.
-- Compaction         pkg/deepdb. Selector is compaction_block_selector.go (Format: what it prints),
--                    Maintenance is markCompacted and compact of compactor.go and the work of retention.go,
--                    Cycle is doCompaction. They use BlockList for the list in memory.
-- Frontend           modules/frontend. Sharding is searchsharding.go, Response search_response.go with
--                    CombineSearchResults of pkg/search/util.go, Retry is retry.go. ById is
--                    snapshotbyidsharding.go with pkg/model/snapshot/result_handler.go and the choice
--                    of blocks in Find of pkg/deepdb/deepdb.go.
-- Ingester           modules/ingester: Push, Cut and Blocks are tenantBlockManager.go, with snapshot.go,
--                    local_block.go, and handleFlush and handleComplete of flush.go. Bounds, Cutting,
--                    Visible, Owning, Kept, Safe, Completing and Histories hold the proofs.
-- Tracepoints        modules/tracepoint. Block and Encoder are store/encoding/v1/tpBlock.go and
--                    tpEncoder.go, Store and Tenants store/tracepointStore.go, Query runQuery of
--                    tracepointService.go with the conditions of pkg/deepql/storage.go, Slices
--                    pkg/util/slices.go.
-- FlushQueues        pkg/flushqueues: priority_queue.go and exclusivequeues.go. advance is one action of a
--                    call of Enqueue or Requeue; Calls interleaves these, Counting and Exclusive are
--                    about the operations under way, Index about the counter.
-- SnapshotIds        pkg/util/snapshotid.go: snapshot IDs as bytes and as hexadecimal text.
-- Collector          pkg/util/distinct_string_collector.go.
-- RowNumbers         the RowNumber functions of pkg/parquetquery/iters.go.
--
-- State is passed explicitly: an operation takes the record and gives the new one. A panic is the
-- result `none`, or a constructor of its own. A method that holds a mutex is one step; a method that
-- waits is one pass up to the wait, which its result names, and a later pass starts from the same code.
-- Enqueue and Requeue of the flush queues hold none and are taken apart; CutSnapshots, CompleteBlock and
-- the calls of flush.go on a tenant's manager, which let go of its mutexes in between, are taken whole.
--
-- Fuel: digits_in has the number itself, pages_from the number of records, rounds and cycle the number
-- of entries (one more for cycle), round_trip the configured tries. A round of each of these shortens
-- what is left by one at least.
--
-- Parameters: math/rand and the shard seed (Scheduler.State.Env); the clock, the object store, the
-- encoding's compactor, the ring and the context (Compaction.Maintenance.Outside); the next round
-- tripper (Frontend.Retry); the object store, the ring and the clock of a poll (BlockList.Poller); the
-- hash, the segment decoder, the limiter, the size and the search of a block (Ingester); the hash, the
-- protobuf encoding and regular expressions (Tracepoints). Times are nanoseconds since the year 1 and do not go below it; Go's `int`
-- does not overflow where the file does not say so; fixed widths wrap where they are written out.
--
-- Modules named Examples apply the theorems at concrete states.
--
-- Not modelled: metrics but for the outstanding blocks, logs and spans, HTTP and gRPC, the object store clients, the Parquet encoding,
-- the replay and the loops of the ingester, the distributor, the generator, the life cycle of the tracepoint service, and DeepQL but for conditions.
mod Prelude
pub mod Backend
pub mod BlockList
pub mod Scheduler
pub mod Compaction
pub mod Frontend
pub mod FlushQueues
pub mod RowNumbers
pub mod SnapshotIds
pub mod Collector
pub mod Tracepoints
pub mod Ingester
