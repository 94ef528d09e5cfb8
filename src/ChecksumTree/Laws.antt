-- ===== src/ChecksumTree/Laws.antt =====
-- The items of src/checksum_tree.rs, and verification after a checksum was stored.
use bazzulto_bafs.Base.{
  ℕ, ◌+◌, ◌*◌, ◌^◌, ◌<◌, ◌≡◌, refl, sym, ◌∙◌, ◌==◌, false, Option, some, ltb, length, replicate,
  length-replicate, if◌then◌else◌, arith,
}
use bazzulto_bafs.Bytes.{Bytes, to_le_bytes, read_le, overwrite, length-to_le_bytes}
use bazzulto_bafs.Bytes.Slices.{length-overwrite, slice-overwrite, slice-overwrite_before}
use bazzulto_bafs.Btree.Codec.Items.{read_le_of}
use bazzulto_bafs.Checksum.{compute_crc32c, verify_crc32c}
use bazzulto_bafs.Checksum.Bounds.{compute_crc32c-lt}
use bazzulto_bafs.Device.{Reader}
use bazzulto_bafs.Error.{ok, err, invalid_checksum}
use bazzulto_bafs.Btree.Key.{IsKey, rank, rank_limit, rank-lt}
use bazzulto_bafs.Btree.Cache.{TreeState}
use bazzulto_bafs.Btree.Map.{Items, find}
use bazzulto_bafs.Btree.Tree.{view, IsTree}
use bazzulto_bafs.Btree.Lookup.{lookup_in_tree}
use bazzulto_bafs.Btree.Lookup.Refines.{lookup_in_tree_lem}
use bazzulto_bafs.Btree.Refinement.{lookup-insert}
use bazzulto_bafs.ChecksumTree.{
  BafsChecksumItem, serialise_checksum_item_to_bytes, deserialise_checksum_item_from_bytes,
  checksum_key, store_data_block_checksum, verify_against, verify_data_block_checksum,
}

module _ (item : BafsChecksumItem) where
  pub length-serialise : length (serialise_checksum_item_to_bytes item) ≡ 16
  unfolding serialise_checksum_item_to_bytes
  length-serialise =
      let b1 = overwrite 0 (to_le_bytes 8 item.block_address) (replicate 16 0) in
      let b2 = overwrite 8 (to_le_bytes 4 item.crc32c_checksum) b1 in
      length-overwrite 12 (to_le_bytes 4 item.reserved) b2
      ∙ length-overwrite 8 (to_le_bytes 4 item.crc32c_checksum) b1
      ∙ length-overwrite 0 (to_le_bytes 8 item.block_address) (replicate 16 0)
      ∙ length-replicate {A = ℕ} 16 0

  checksum_item-RoundTrip :
      item.block_address < 2 ^ 64
      → item.crc32c_checksum < 2 ^ 32
      → item.reserved < 2 ^ 32
      → deserialise_checksum_item_from_bytes (serialise_checksum_item_to_bytes item) ≡ item
  unfolding serialise_checksum_item_to_bytes deserialise_checksum_item_from_bytes
  checksum_item-RoundTrip a c r =
      let f1 = to_le_bytes 8 item.block_address in
      let f2 = to_le_bytes 4 item.crc32c_checksum in
      let f3 = to_le_bytes 4 item.reserved in
      let b0 : Bytes = replicate 16 0 in
      let b1 = overwrite 0 f1 b0 in
      let b2 = overwrite 8 f2 b1 in
      let b3 = overwrite 12 f3 b2 in
      let l0 = length-replicate {A = ℕ} 16 0 in
      let l1 = length-overwrite 0 f1 b0 in
      let l2 = length-overwrite 8 f2 b1 in
      let n1 = length-to_le_bytes 8 item.block_address in
      let n2 = length-to_le_bytes 4 item.crc32c_checksum in
      let n3 = length-to_le_bytes 4 item.reserved in
      let r1 : read_le 0 8 b3 ≡ item.block_address =
        read_le_of 8 item.block_address 0 b3
          (slice-overwrite_before 0 8 12 f3 b2 (omega arith)
            ∙ slice-overwrite_before 0 8 8 f2 b1 (omega arith)
            ∙ slice-overwrite 0 8 f1 b0 n1 (omega arith))
          a in
      let r2 : read_le 8 4 b3 ≡ item.crc32c_checksum =
        read_le_of 4 item.crc32c_checksum 8 b3
          (slice-overwrite_before 8 4 12 f3 b2 (omega arith)
            ∙ slice-overwrite 8 4 f2 b1 n2 (omega arith))
          c in
      let r3 : read_le 12 4 b3 ≡ item.reserved =
        read_le_of 4 item.reserved 12 b3 (slice-overwrite 12 4 f3 b2 n3 (omega arith)) r in
      rw (r1, r2, r3) refl

-- What verification answers when the tree has the checksum of `stored`.
pub verify_against-stored :
    (address : ℕ) (stored block_data : Bytes)
    → address < 2 ^ 64
    → verify_against address block_data (
        some (
          serialise_checksum_item_to_bytes (record {
            block_address = address;
            crc32c_checksum = compute_crc32c stored;
            reserved = 0;
          })))
      ≡ (if compute_crc32c block_data == compute_crc32c stored
          then ok tt
          else err (invalid_checksum address))
unfolding verify_against verify_crc32c
verify_against-stored address stored block_data h =
    let item : BafsChecksumItem = record {
      block_address = address;
      crc32c_checksum = compute_crc32c stored;
      reserved = 0;
    } in
    let long : ltb (length (serialise_checksum_item_to_bytes item)) 16 ≡ false =
      ground (arith, length-serialise item) in
    rw (long, checksum_item-RoundTrip item h (compute_crc32c-lt stored) (omega arith)) refl

pub verify-reads :
    (device : Reader) (s : TreeState) (root address : ℕ) (block_data : Bytes) (found : Option Bytes)
    → lookup_in_tree device s.dirty_cache root (checksum_key address) ≡ ok found
    → verify_data_block_checksum device s.dirty_cache root address block_data
      ≡ verify_against address block_data found
unfolding verify_data_block_checksum
verify-reads device s root address block_data found e = rw e refl

pub checksum_key-IsKey : (address : ℕ) → address < 2 ^ 64 → IsKey (checksum_key address)
checksum_key-IsKey address h = record {
  object_fits = omega arith;
  type_fits = omega arith;
  offset_fits = h;
}

-- The verdicts after a checksum was stored: on its own block, and on the others.
pub record Guarded (device : Reader) (root address : ℕ) (block_data : Bytes) (generation : ℕ)
    (s : TreeState) : Type 0 where
  pub state : TreeState
  pub new_root : ℕ
  pub runs :
      store_data_block_checksum device root address block_data generation s ≡ (ok new_root, state)
  pub judges :
      (read : Bytes)
      → verify_data_block_checksum device state.dirty_cache new_root address read ≡ (
          if compute_crc32c read == compute_crc32c block_data
          then ok tt
          else err (invalid_checksum address))
  pub others :
      (other : ℕ) (read : Bytes)
      → other < 2 ^ 64
      → (address == other) ≡ false
      → verify_data_block_checksum device state.dirty_cache new_root other read
        ≡ verify_data_block_checksum device s.dirty_cache root other read

rank-checksum_key : (a b : ℕ) → (rank (checksum_key a) == rank (checksum_key b)) ≡ (a == b)
unfolding rank
rank-checksum_key a b = ground arith

module _ (device : Reader) (root depth : ℕ) (m : Items) (s : TreeState)
    (t : IsTree (view device s) s.next_free_block depth root 0 rank_limit m) where
  -- Storing the checksum of a data block with a 64-bit address and generation in a sound tree of
  -- fewer than 255 levels below its root, with block numbers left, succeeds; verifying the block
  -- under the new root then accepts data exactly if its CRC32C is that of the stored data and is
  -- otherwise InvalidChecksum with the address, and the verdict on every other block is the one
  -- under the old root.
  pub store_data_block_checksum_lem :
      (address : ℕ) (block_data : Bytes) (generation : ℕ)
      → address < 2 ^ 64
      → generation < 2 ^ 64
      → depth < 255
      → s.next_free_block + (2 * (depth + 1) + 1) < 2 ^ 64
      → Guarded device root address block_data generation s
  unfolding store_data_block_checksum
  store_data_block_checksum_lem address block_data generation a g d free =
      let item : BafsChecksumItem = record {
        block_address = address;
        crc32c_checksum = compute_crc32c block_data;
        reserved = 0;
      } in
      let value = serialise_checksum_item_to_bytes item in
      let c =
        lookup-insert device root depth m s t (checksum_key address) value generation
          (checksum_key-IsKey address a) (omega (arith, length-serialise item)) g d free in
      record {
        state = c.state;
        new_root = c.new_root;
        runs = c.runs;
        judges = λ read.
            verify-reads device c.state c.new_root address read (some value)
              (c.new_reads (checksum_key address) (checksum_key-IsKey address a) ∙ ground arith)
            ∙ verify_against-stored address block_data read a;
        others = λ other read b e.
            let k = checksum_key-IsKey other b in
            let differs = rank-checksum_key address other ∙ e in
            verify-reads device c.state c.new_root other read (find (rank (checksum_key other)) m)
              (c.new_reads (checksum_key other) k ∙ ground (arith, differs))
            ∙ sym (
                verify-reads device s root other read (find (rank (checksum_key other)) m) (
                  lookup_in_tree_lem device s s.next_free_block (checksum_key other) k depth root 0
                    rank_limit m t (omega arith) (rank-lt (checksum_key other) k) (omega arith)));
      }
