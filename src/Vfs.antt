-- ===== src/Vfs.antt =====
-- virtual-fs/src: a file system whose file blocks are frames of the allocator. A text is the list of
-- its bytes.
pub mod Inode
pub mod Path
pub mod Tree
pub mod Write
pub mod Ranked
pub mod Read
pub mod Remove
pub mod Copy
pub mod RoundTrip
pub mod Lost
pub mod Closed
