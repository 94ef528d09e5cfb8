-- ===== src/Lib.antt =====
-- BAFS, the Bazzulto Advanced File System: a copy-on-write file system library over a block device.
--
-- Everything persistent stands in three B-trees: the inode tree, the free-extent tree and the
-- checksum tree. An operation reads nodes through a cache of dirty blocks, writes changed nodes to
-- new blocks of that cache, and returns a new root; the superblock names the roots. A volume owns
-- the device, the superblock and the cache; a flush commits the cache through the journal, and a
-- mount replays what a crash left there. The kernel adapter shares one volume among its inodes.
--
-- Which file models what:
--   Bytes        byte buffers: slices, writes in place, little-endian integers, struct layouts
--   Error        src/error.rs: BafsError, and Result with the panics of the Rust code as values
--   Exec         fallible operations on what a caller lends; a failure keeps what was written
--   Device       src/block_device.rs: the trait as a record over a device state
--   Checksum     src/checksum.rs: the CRC32C table and compute_crc32c, verify_crc32c
--   Btree        src/btree.rs: Key (BafsKey), Node (the structs and sizes), Codec
--                (serialise_node_to_block, deserialise_node_from_block), Cache (the block I/O
--                helpers), Search (binary_search_by_key and partition_point as the standard
--                library runs them, find_child_index_for_key), Lookup (lookup_in_tree,
--                iterate_tree_range), Insert (insert_into_tree and the splits), Delete
--                (delete_from_tree, create_empty_tree)
--   Btree.Map    the abstract view: items in the order of their keys, with find, put and remove
--   Btree.Tree   sound trees over a view of the blocks, and what stays when blocks are added
--   Btree.Store  the interface that the clients of a tree use: a tree that keeps its least key
--   Extent       src/extent.rs: extents of files and the pool of free extents
--   ChecksumTree src/checksum_tree.rs: checksums of data blocks
--   Inode        src/inode.rs: inodes, their bytes, and their items in the inode tree
--   Dir          src/dir.rs: directory entries, with Hash (xxhash64_with_seed_zero) and Utf8
--                (String::from_utf8_lossy of the standard library, as an automaton)
--   Superblock   src/superblock.rs: the struct, its validation, and the write of both copies
--   Journal      src/journal.rs: commit records, their replay on mount, and commits
--   Volume       src/volume.rs: BafsVolume and the return of freed blocks, with Format
--                (bafs_format), Mount (bafs_mount, flush_and_commit, bafs_unmount), Data
--                (allocate_and_write_data_blocks), Files (creation, reads and writes of files) and
--                Directories (lookup, iteration and removal of entries); Session has what an
--                operation leaves to the next flush
--   Kernel       src/kernel.rs: the methods of BafsKernelInode over the shared volume
--
-- Integers are natural numbers; what a width could change is written out (% 2 ^ 64). A device is a
-- parameter: a reader of sectors, or a record of operations on a device state. Where a theorem
-- needs more of it, IsDisk names it: a read returns what was written, and a write leaves the sectors
-- outside its range alone. The dirty-block cache is a list of entries in the order of their keys. A
-- string is the list of its bytes.
--
-- A tree operation recurses on fuel of 256 nodes (max_depth): a node's level is one byte and
-- falls by one from a node to its child, so no path of a sound tree is longer. A corrupt tree
-- may have a cycle, on which the Rust code does not return; the model's outcome is then
-- out_of_fuel. A value of at most 267 bytes is assumed where a leaf is split: it is the largest
-- that the library stores, a directory entry with a name of 255 bytes. The loops of the hash
-- have fuel for the bytes of the input, the loop that reads a file fuel for the bytes to read.
-- The recursion that returns freed blocks has fuel for the blocks below the committed boundary
-- and two rounds more: a committed block is superseded once, so each round frees others.
--
-- Not modelled: the Display messages of src/error.rs; UnsafeCell and Arc in src/kernel.rs, as the
-- kernel serialises the calls and the volume is an explicit state; src/lib.rs, which declares the
-- modules; bafs-tools, which is terminal and file I/O; the tests.
pub mod Base
pub mod Bytes
pub mod Error
pub mod Exec
pub mod Checksum
pub mod Device
pub mod Btree
pub mod Extent
pub mod ChecksumTree
pub mod Superblock
pub mod Inode
pub mod Dir
pub mod Volume
pub mod Kernel
pub mod Journal
