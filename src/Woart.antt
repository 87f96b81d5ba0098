-- ===== src/Woart.antt =====
-- The adaptive radix tree of woart/woart.h and woart/woart.cpp: the digits of a key are its bytes, and a
-- node has room for 4, 16, 48 or 256 children.
pub mod Bits
pub mod Node
pub mod Count
pub mod Slots
pub mod Scan
pub mod Bitmap
pub mod Keys
pub mod Grow
pub mod Layout
pub mod AddFour
pub mod AddSixteen
pub mod AddMore
pub mod Add
pub mod Tree
pub mod Least
pub mod Wide
pub mod Views
pub mod Children
pub mod Additions
pub mod SplitNodes
pub mod Puts
pub mod Map
mod Tests
mod Examples
