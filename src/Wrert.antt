-- ===== src/Wrert.antt =====
-- The write and range-query optimised extendible radix tree of wrert/: its words and slots, the
-- buckets and segments of a node, the nodes, and the tree.
pub mod Words
pub mod Slot
pub mod Bucket
pub mod Header
pub mod Segment
pub mod Memory
pub mod Node
pub mod Tree
pub mod Scan
pub mod Recovery
mod Tests
mod Examples
