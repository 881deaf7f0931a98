-- ===== src/Lib.antt =====
-- zvec stores the documents of a collection in segments. Its storage layer, modelled here from
-- internal/db, keeps a write segment in memory, immutable segments in files, a map from primary keys to
-- document locations and a set of deleted documents. A write is first appended to a write-ahead log and
-- synced, then applied to these; opening a collection replays the log. The metadata of a collection is an
-- immutable manifest file per version, and a pointer file names the current one. Filters select documents
-- by SQL predicates over three-valued truth.
--
-- Where each part is modelled:
--   Go/Checksum        internal/ailego/crc32c.go over hash/crc32
--   Go/Utf8            unicode/utf8.ValidString and the runes of a string
--   Go/Path            internal/db/snapshot.go, validatePortableRelativePath over path.Clean
--   Wal/Codec          internal/db/wal.go, file header and record header
--   Wal/Scan           internal/db/wal.go, scanWAL, readWALRecordAt and WALReader
--   Wal/Handle         internal/db/wal.go, the handle: create, open, Append, Sync, Close, Replay
--   PrimaryMap         internal/db/primary_map.go, PrimaryKeyMap
--   Snapshot           internal/db/snapshot.go, the envelope of snapshots
--   DeleteStore        internal/db/delete_store.go, DeleteStore and its snapshot
--   Segment            internal/db/segment.go, WriteSegment and ImmutableSegment
--   Segment/Codec      internal/db/segment.go, encodeSegment and decodeSegment
--   Manager            internal/db/segment_manager.go, SegmentManager
--   Operation          internal/db/write_engine.go, the operations in the log
--   Engine             internal/db/write_engine.go, WriteEngine
--   Engine/Recover     internal/db/collection.go, replayWriteWAL and applyRecoveredOperation
--   Manifest           internal/db/manifest.go, the records and Validate
--   Manifest/Codec     internal/db/manifest.go, MarshalManifest and UnmarshalManifest
--   Versions           internal/db/version_manager.go, names, CURRENT and reading a directory
--   Versions/Publish   internal/db/version_manager.go, create, open, Publish and Update
--   Sql/Like           internal/db/sql/like.go
--   Sql/Value          internal/db/sql/value.go
--   Sql/Predicate      internal/db/sql/predicate.go
--   Sql/Plan           internal/db/sql/plan.go, evaluation and optimizer
--   Sql/Schema         internal/db/sql/schema.go
--   Sql/Syntax         internal/db/sql/ast.go
--   Sql/Analyzer       internal/db/sql/analyzer.go, binding of expressions and literals
--   Sql/Rewrite        internal/db/sql/rewrite.go
--   Sql/Build          internal/db/sql/analyzer.go, BuildPlan behind the parser
-- The other modules under these hold the lemmas and theorems, Base the helpers, Errors the errors, and
-- Examples the runs at concrete inputs.
--
-- A file, a payload and a string are lists of bytes. A struct is a record of its fields, without its mutex; a
-- method that changes it returns the changed record, or the error that leaves it as it was. A method
-- that may fail after a change, as those of the log and the engine, returns the record and the result.
-- Go's maps are lists, which is one order of the many that Go may iterate in. The words of 64 bits are
-- natural numbers, with `% 2 ^ 64` where the source can wrap. A sequence number of the log cannot wrap
-- before the file passes 2^63 bytes, as each record takes 33 bytes at least.
--
-- What the operating system and the contexts do is an argument: whether a write or a sync succeeds, how
-- many bytes a failed write leaves, and what each poll of a context finds. A scan takes as many rounds as
-- the file has bytes, and a replay as the log's size; both are enough, as each record takes more than one.
--
-- A publication is the sequence of its steps on a directory, and each answer in it may be a failure that
-- leaves a part of a file; a process that stops there is the same sequence cut off. JSON is the record
-- `Json` of Manifest: its decoder gives what its encoder wrote, less the layout of the raw schema, as
-- encoding/json documents for strings that are UTF-8. A finite float is its number of steps of 2^-1074.
--
-- Not modelled: locks inside a process, nil receivers, and the errors of opening, listing, truncating and
-- closing files; temporary files; the sequence number that `Append` returns beside a failed sync, which
-- no caller reads; the rest of the collection, the indexes, the lexer and the parser of filters,
-- parsing a float, and the public API.
pub mod Base
pub mod Errors
pub mod Go
pub mod Wal
pub mod PrimaryMap
pub mod Snapshot
pub mod DeleteStore
pub mod Segment
pub mod Operation
pub mod Manager
pub mod Manifest
pub mod Versions
pub mod Sql
pub mod Engine
pub mod Examples
