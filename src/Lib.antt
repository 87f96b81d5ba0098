-- ===== src/Lib.antt =====
-- Verification of the index structures of WRERT: radix trees for keys of 64 bits, kept in persistent
-- memory.
--
-- The repository has several indexes that the benchmark drivers run against one another. Four of them
-- are modelled here, with the allocator and the random numbers that they use.
--
-- * Wort models wort/wort.h and wort/wort.cpp, a radix tree of sixteen children per node with path
--   compression. A `wort_node*` is the data type `Wort.Node`; a function that writes through `ref`
--   returns the node that stands there afterwards. `wort_get`, `recursive_insert`, `wort_put`,
--   `prefix_mismatch`, `check_prefix` and the others keep their names; the part of
--   `recursive_insert` that splits a leaf is `split_leaf`, the part that splits a path `shorten` and
--   `split_path`, and the recovery of a header is `old_path`. `fault` is the outcome of following a null
--   pointer. Wort/Shape says what a well-formed tree is, Wort/Lookup and Wort/Insert follow the two
--   operations, Wort/Recovery nodes whose header a crash has left stale, and Wort/Map the public
--   functions.
-- * Wrert models wrert/: an extendible radix tree whose nodes are directories of segments, whose
--   segments are 48 buckets, and whose buckets are 16 slots. Wrert/Words has the macros of
--   wrert_node.h, Wrert/Slot the bit fields, Wrert/Bucket the vector loops over a bucket, Wrert/Header
--   the prefix of a node, Wrert/Segment the migration of a split, Wrert/Memory the objects by address,
--   Wrert/Node the operations of `WRERTNode`, Wrert/Tree `WRERT::insert` and `WRERT::search`, and
--   Wrert/Scan `WRERT::lookupRange` with `nodeScan` and `scanAllNodes`. Wrert/Recovery has the loop
--   over a directory in `recoveryTree` and `recoveryAllNodes`. A shift by the difference of two depths is
--   modelled for a segment that is no deeper than its directory.
--   The proofs on a split stand in Wrert/Segment/Split, for the segments, and in Wrert/Node/Splits
--   and Wrert/Node/Doubles, for the two ways in which the directory takes it up. That a pair is found
--   (`Holds`, `NodeHolds`) means there that a valid slot with its subkey, value and flags stands in one
--   of the two buckets in which a lookup searches at the depth of the segment.
-- * Woart models woart/, a radix tree over the bytes of a key whose nodes have room for 4, 16, 48 or 256
--   children. Woart/Bits has the bit searches, over one word; Woart/Node the four layouts, `find_child`,
--   and `add_child` with the growth from one layout to the next; Woart/Tree the operations on trees, with
--   the names of woart.cpp. An address of a child is its place in the array of children; `fault` is a
--   call of `abort` or `exit`, or a read of a null pointer. Woart/Slots, Woart/Scan, Woart/Bitmap,
--   Woart/Keys and Woart/Grow are about single layouts, Woart/AddFour, Woart/AddSixteen, Woart/AddMore
--   and Woart/Add about adding a child. Woart/Wide is the specification, a tree whose nodes have an
--   array of 256 children, and `view` what a tree of adaptive nodes shows of itself; Woart/Views,
--   Woart/Children, Woart/Additions, Woart/SplitNodes, Woart/Puts and Woart/Map hold the code against it.
--   The specification gives no answer where two children of a new node would have the same byte.
-- * Ert models ert/, the extendible radix tree that came before WRERT: a node is a directory of segments
--   of 256 buckets of four counters. Ert has the words and the loops over a bucket, Ert/Memory the objects
--   by address, Ert/Node the operations of `ERTIntNode`, Ert/Tree `ERTInt::Insert` and `ERTInt::Search`.
--   The proofs on buckets stand in Ert/Buckets, those on a node in Ert/Node/Shape (well-formed nodes),
--   Ert/Node/Writes, Ert/Node/Sides, Ert/Node/Splits, Ert/Node/Doubles and Ert/Node/Insertions, and those on
--   trees in Ert/Tree/Rooted and Ert/Tree/Sequences. Memory that the code reads past the end of
--   `treeNodeValues` is read as further entries of it.
-- * Fastalloc models fastalloc/, the bump allocator below both trees. `new` and `mmap` are a parameter,
--   the addresses of the arenas, of which the theorem assumes that they do not overlap.
-- * Rng models rng/rng.cpp.
-- * Prelude has the names of the libraries, Boolean tests, arrays and search loops.
--
-- The loops of Wrert take fuel: a round of `insert` or `search` for each node on the way, and a round of
-- `putSegNode` for each split that an insertion makes; those of Ert a round for each node and for each
-- split or doubling, of which 50 are enough. The recursions of Wort and Woart are on the tree and need
-- none; the loops of Woart over the places of a node have as many rounds as the node has places.
--
-- The range scans of wort and woart are modelled, but nothing is stated of them: they can miss keys and
-- answer keys outside the range.
--
-- Not modelled: roart/ (a further index), the range scans of ert, the recovery of wrert
-- below the entries of a directory, cache flushes and fences, memory counters and timings, the drivers
-- (db_bench.cpp, db_recovery.cpp) and YCSB-C/, which is a client of its own with copies of the indexes.
pub mod Prelude
pub mod Ert
pub mod Fastalloc
pub mod Rng
pub mod Woart
pub mod Wort
pub mod Wrert
