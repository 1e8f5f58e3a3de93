-- ===== src/Lib.antt =====
-- lsvd, a log-structured virtual disk: what its core data structures do, and that they do it right.
--
-- The disk writes extents, ranges of 4 KiB blocks, into a segment that is open for writing. When the
-- segment is closed, the controller publishes it: the segment is recorded among the segments with its
-- number of blocks, and each of its extents is put into the extent map, which says for every block of
-- the disk in which segment its data lies. What an extent hides of the older ones is taken off the
-- usage of their segments; a segment without a block in use is marked and removed later.
--
-- Files, with the code that they follow:
--   Base             numbers, tests, lists, wrapping words, and `Outcome`: a value, an error or a panic
--   Extent           extent.go and cover.go: `Extent` and its operations, one function for each method.
--                    Extent.Range has the arithmetic without wrapping, Extent.Overlap `Cover` and `Clamp`,
--                    Extent.Subtract `Sub`, Extent.Sorting and Extent.Many `SubMany`.
--   Uvarint          headers.go: `ReadUvarint` (its ten rounds are structural recursion) and `WriteUvarint`
--                    (on ten units of fuel, which Uvarint.RoundTrip shows to be enough for a uint64)
--   Header           headers.go: `ExtentHeader.Read` and `ExtentHeader.Write`
--   Location         headers.go and disk.go: `ExtentHeader`, `ExtentLocation`, `PartialExtent`
--   TreeMap          the ordered map that the extent map stands on, pkg/treemap, as a record of operations
--                    and laws about the list of its entries. TreeMap.Model shows that sorted lists meet them.
--   Compact          extent_map.go: `compactPE`, an entry of the extent map, packed into few bytes
--   ExtentMap        extent_map.go: `update` (the loops `floor_loop` and `lower_loop`, then deletions,
--                    additions and `set`), the segment table and `ToPE`. ExtentMap.Resolve is `Resolve`.
--                    ExtentMap.Carve has the specification on entries; ExtentMap.Lower, Floor, Apply, Locate,
--                    Run and Update relate the loops to it; ExtentMap.Blocks, Carved, Usage, Setting and Replacing give
--                    the view of a map from blocks to locations, in which entries and their splits are forgotten.
--   Segments         segments.go: `Segments`. Segments.Commit is `UpdateBatch` and the part of control.go's
--                    `closeSegment` that records a segment. Segments.Committing and Segments.Pruning relate the
--                    usage of the segments to the extent map. Segments.Choice chooses a segment to clear by its
--                    density, a float64, which is a parameter; Choosing and Picking say which.
--   RangeData        range_data.go and `emptyBytes` of util.go: ranges of bytes and views of them.
--                    RangeData.Views and Copying give the bytes by their positions on the disk.
--   Builder          segment.go: `SegmentBuilder.WriteExtent`. Builder.Creator has `SegmentCreator` and `readLog`,
--                    Builder.Flush `Flush`, whose calls on local files (`SegmentFiles`) and on the storage are
--                    parameters, with the laws `IsFiles` and `Made` of Builder.Publish. Builder.Log is the contents of the write log; Builder.Writing and
--                    Restore relate it to writing and reading, Builder.Publish and Stored to the segment's file.
--                    `read_log_loop` runs on fuel, one more than the bytes of the log, which Builder.Restore
--                    shows to be enough.
--                    Builder.Fill is `FillExtent`, which Filling and Filled relate to the bytes of the blocks.
--                    Builder.Serving and Served relate `WriteExtent` of the creator to what can be read of it.
--   DiskRead         disk.go: the read path. DiskRead.WriteCache is `fillFromWriteCache`, Requests the loop of
--                    `ReadExtentInto` over the holes, Segments `readOneExtent`, `readPartialExtent` and
--                    `ReadExtentInto` and `ReadExtent` as a whole. Layers and Cached give the write caches as
--                    layers of blocks; Gathering, Planning, Fetching and Serving follow the bytes that are
--                    still to come, Reading puts the layers together, and Written has reads after a write.
--                    What `fetchExtent` answers is a parameter, with the law `CanFetch` of DiskRead.Serving.
--                    The requests are a list with the last one first.
--   Nbd              nbd.go: `nbdWrapper`, the queue of pending writes and trims, over a disk (`BlockDisk`) that is
--                    a parameter with the laws of Nbd.Image, which also has what clients see. The laws ask
--                    nothing of the disk for an extent that ends above block 2 ^ 32, since the extent map
--                    panics from there on. Nbd.Flushing,
--                    Queue, Writing and Zeroing relate each operation to it, and Nbd.History their sequences.
--                    Nbd.Creator has the writing and zeroing of a segment creator, to which the disk hands
--                    over, in the terms of these laws.
--                    `zero_loop` runs on fuel, a round for every 65535 blocks.
--   RangeCache       range_cache.go: `ReadAt` and `saveChunk` of `RangeCache`, which keeps chunks of segments in a file.
--                    The LRU list, the writes of the file and the fetching are parameters (`Chunks`); RangeCache.Slots
--                    has what is asked of them and the invariant, Loading and Reading what a read does. The
--                    invariant has a chunk for every place of the file before the cursor: the mapped bytes
--                    end at MaxSize, and a slice behind them panics.
--   Rebuild          rebuild.go: `rebuildFromSegment`, from the header and the bytes behind it
--
-- A map of Go is an association list; an iteration over it sees the entries in the list's order, which
-- the theorems leave open. uint64 and uint32 values are natural numbers with the wrap-around written out.
-- A ULID is the number of its 16 bytes. Every other loop runs
-- over a finite list.
-- An extent that a compact entry can hold has 1 to 2 ^ 16 - 1 blocks and begins below block 2 ^ 32;
-- the theorems about updates ask for such extents.
--
-- Not modelled: locks (each operation runs under one), log lines and metrics, the checks of debug mode,
-- the reuse of slices, strings for people, percentages in floating point, file and network I/O, the extent
-- reader and the extent cache behind `fetchExtent`, the reads of the block device, and garbage collection.
pub mod Base
pub mod Extent
pub mod Location
pub mod TreeMap
pub mod Compact
pub mod ExtentMap
pub mod Segments
pub mod Uvarint
pub mod Header
pub mod Rebuild
pub mod RangeData
pub mod Builder
pub mod Nbd
pub mod RangeCache
pub mod DiskRead
