-- ===== src/Btree/Codec.antt =====
-- src/btree.rs: nodes as 4 KiB blocks.
pub mod Writes
pub mod Items
pub mod RoundTrip
use bazzulto_bafs.Base.{
  ℕ, zero, suc, ◌+◌, ◌-◌, ◌*◌, ◌%◌, ◌^◌, List, [], ◌∷◌, length, drop, replicate, ltb, leb,
  if◌then◌else◌, ◌==◌, not,
}
use bazzulto_bafs.Bytes.{Bytes, to_le_bytes, read_le, slice, overwrite}
use bazzulto_bafs.Checksum.{compute_crc32c, verify_crc32c}
use bazzulto_bafs.Error.{
  Result, ok, err, panic, ◌>>=◌, BafsError, invalid_checksum, corrupted_structure,
}
use bazzulto_bafs.Btree.Key.{BafsKey}
use bazzulto_bafs.Btree.Node.{
  BafsTreeNode, BafsLeafItem, BafsInternalItem, block_size, node_header_size_bytes,
}

-- `buffer[position..position + bytes.len()].copy_from_slice(bytes)`: a range outside panics.
pub copy_from_slice : Bytes → ℕ → Bytes → Result Bytes
copy_from_slice buffer position bytes =
    if leb (position + length bytes) (length buffer)
    then ok (overwrite position bytes buffer)
    else panic

-- `destination` is the buffer from `position` on.
pub serialise_key : BafsKey → ℕ → Bytes → Result Bytes
serialise_key key position buffer = do
  buffer1 ← copy_from_slice buffer position (to_le_bytes 8 key.object_id)
  buffer2 ← copy_from_slice buffer1 (position + 8) (to_le_bytes 1 key.item_type)
  copy_from_slice buffer2 (position + 9) (to_le_bytes 8 key.offset)

pub deserialise_key : Bytes → BafsKey
deserialise_key source = record {
  object_id = read_le 0 8 source;
  item_type = read_le 8 1 source;
  offset = read_le 9 8 source;
}

pub write_internal_item : BafsInternalItem → ℕ → Bytes → Result Bytes
write_internal_item item write_cursor buffer = do
  buffer1 ← serialise_key item.key write_cursor buffer
  buffer2 ← copy_from_slice buffer1 (write_cursor + 17) (to_le_bytes 8 item.child_block)
  copy_from_slice buffer2 (write_cursor + 25) (to_le_bytes 8 item.child_generation)

pub write_internal_items : List BafsInternalItem → ℕ → Bytes → Result Bytes
write_internal_items [] write_cursor buffer = ok buffer
write_internal_items (item ∷ rest) write_cursor buffer = do
  buffer1 ← write_internal_item item write_cursor buffer
  write_internal_items rest (write_cursor + 33) buffer1

-- One leaf item: its value below `value_cursor`, its header at `header_cursor`.
pub write_leaf_item : BafsLeafItem → ℕ → ℕ → Bytes → Result Bytes
write_leaf_item item header_cursor value_cursor buffer =
    let value_size = length item.value in
    if ltb value_cursor value_size then panic else do
      buffer1 ← copy_from_slice buffer (value_cursor - value_size) item.value
      buffer2 ← serialise_key item.key header_cursor buffer1
      buffer3 ←
          copy_from_slice buffer2 (header_cursor + 17)
            (to_le_bytes 4 ((value_cursor - value_size) % 2 ^ 32))
      copy_from_slice buffer3 (header_cursor + 21) (to_le_bytes 4 (value_size % 2 ^ 32))

pub write_leaf_items : List BafsLeafItem → ℕ → ℕ → Bytes → Result Bytes
write_leaf_items [] header_cursor value_cursor buffer = ok buffer
write_leaf_items (item ∷ rest) header_cursor value_cursor buffer = do
  buffer1 ← write_leaf_item item header_cursor value_cursor buffer
  write_leaf_items rest (header_cursor + 25) (value_cursor - length item.value) buffer1

-- The 24 bytes before the items, without the checksum.
pub write_node_header : BafsTreeNode → Bytes → Result Bytes
write_node_header node buffer = do
  buffer1 ← copy_from_slice buffer 4 (to_le_bytes 1 node.level)
  buffer2 ← copy_from_slice buffer1 5 (to_le_bytes 1 node.flags)
  buffer3 ← copy_from_slice buffer2 6 (to_le_bytes 2 node.item_count)
  buffer4 ← copy_from_slice buffer3 8 (to_le_bytes 8 node.self_block_address)
  copy_from_slice buffer4 16 (to_le_bytes 8 node.generation)

pub write_node_items : BafsTreeNode → Bytes → Result Bytes
write_node_items node buffer =
    if ltb 0 node.level
    then write_internal_items node.internal_items node_header_size_bytes buffer
    else write_leaf_items node.leaf_items node_header_size_bytes block_size buffer

pub write_node_checksum : Bytes → Result Bytes
write_node_checksum buffer =
    copy_from_slice buffer 0 (to_le_bytes 4 (compute_crc32c (drop 4 buffer)))

pub serialise_node_to_block : BafsTreeNode → Result Bytes
serialise_node_to_block node = do
  buffer1 ← write_node_header node (replicate block_size 0)
  buffer2 ← write_node_items node buffer1
  write_node_checksum buffer2

pub read_internal_items : ℕ → ℕ → Bytes → List BafsInternalItem
read_internal_items zero read_cursor block_data = []
read_internal_items (suc left) read_cursor block_data =
    record {
      key = deserialise_key (drop read_cursor block_data);
      child_block = read_le (read_cursor + 17) 8 block_data;
      child_generation = read_le (read_cursor + 25) 8 block_data;
    }
    ∷ read_internal_items left (read_cursor + 33) block_data

pub read_leaf_items : ℕ → ℕ → Bytes → Result (List BafsLeafItem)
read_leaf_items zero header_cursor block_data = ok []
read_leaf_items (suc left) header_cursor block_data =
    let data_offset = read_le (header_cursor + 17) 4 block_data in
    let data_size = read_le (header_cursor + 21) 4 block_data in
    let more = read_leaf_items left (header_cursor + 25) block_data in
    if ltb block_size (data_offset + data_size) then err corrupted_structure else do
      rest ← more
      ok (
          record {
            key = deserialise_key (drop header_cursor block_data);
            value = slice data_offset data_size block_data;
          }
          ∷ rest)

-- The node with its header fields read and no items yet.
pub read_node_header : Bytes → BafsTreeNode
read_node_header block_data = record {
  node_checksum = read_le 0 4 block_data;
  level = read_le 4 1 block_data;
  flags = read_le 5 1 block_data;
  item_count = read_le 6 2 block_data;
  self_block_address = read_le 8 8 block_data;
  generation = read_le 16 8 block_data;
  leaf_items = [];
  internal_items = [];
}

pub read_node_items : BafsTreeNode → Bytes → Result BafsTreeNode
read_node_items node block_data =
    if ltb 0 node.level
    then (if ltb block_size (node_header_size_bytes + node.item_count * 33)
        then err corrupted_structure
        else ok (record node {
          internal_items = read_internal_items node.item_count node_header_size_bytes block_data;
        }))
    else (if ltb block_size (node_header_size_bytes + node.item_count * 25)
        then err corrupted_structure
        else do
          items ← read_leaf_items node.item_count node_header_size_bytes block_data
          ok (record node { leaf_items = items }))

-- `debug_assert_eq!(block_data.len(), block_size)` is the first test; then no index is out of range.
pub deserialise_node_from_block : Bytes → ℕ → Result BafsTreeNode
deserialise_node_from_block block_data block_address =
    if not (length block_data == block_size)
    then panic
    else if not (verify_crc32c (drop 4 block_data) (read_le 0 4 block_data))
    then err (invalid_checksum block_address)
    else read_node_items (read_node_header block_data) block_data
