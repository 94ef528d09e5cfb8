-- ===== src/Btree/Codec/RoundTrip.antt =====
-- Whole nodes in `serialise_node_to_block` and `deserialise_node_from_block` of src/btree.rs.
use bazzulto_bafs.Base.{
  ℕ, ◌+◌, ◌*◌, ◌^◌, ◌≤◌, ◌<◌, ◌≡◌, refl, sym, ap, lt→ltb, ◌∙◌, inl, inr, List, [], ◌∷◌, length,
  arith, ltb, true, false, drop, replicate, length-replicate, ==_iff,
}
use bazzulto_bafs.Bytes.{Bytes, All, to_le_bytes, read_le, slice, overwrite, length-to_le_bytes}
use bazzulto_bafs.Bytes.Slices.{
  length-overwrite, slice-overwrite, slice-overwrite_before, slice-overwrite_after, drop-overwrite,
}
use bazzulto_bafs.Checksum.{compute_crc32c, verify_crc32c}
use bazzulto_bafs.Checksum.Bounds.{compute_crc32c-lt, verify_crc32c_iff}
use bazzulto_bafs.Error.{ok}
use bazzulto_bafs.Btree.Key.{IsKey}
use bazzulto_bafs.Btree.Node.{
  BafsTreeNode, BafsLeafItem, BafsInternalItem, block_size, leaf_serialised_size, total_value_bytes,
}
use bazzulto_bafs.Btree.Codec.{
  write_node_header, write_node_items, write_node_checksum, serialise_node_to_block,
  read_node_header, read_node_items, deserialise_node_from_block, write_leaf_items,
  write_internal_items, read_leaf_items, read_internal_items,
}
use bazzulto_bafs.Btree.Codec.Writes.{
  copy_ok, HasFields, SameOutside, write_fields, write_fields-SameOutside, write_fields-HasFields,
  HasFields-SameOutside, fields_size,
}
use bazzulto_bafs.Btree.Codec.Items.{
  IsInternalItem, HasInternal-above, HasLeaf-above, write_internal_items_lem, write_leaf_items_lem,
  read_internal_items_lem, read_leaf_items_lem, read_le_of, SameOutside-trans, SameOutside-refl,
}

-- The header fields fit their widths.
pub record IsHeader (node : BafsTreeNode) : Type 0 where
  pub level_fits : node.level < 256
  pub flags_fit : node.flags < 256
  pub address_fits : node.self_block_address < 2 ^ 64
  pub generation_fits : node.generation < 2 ^ 64

-- A leaf that fits its block.
pub record IsLeafNode (node : BafsTreeNode) : Type 0 where
  pub header : IsHeader node
  pub is_leaf : node.level ≡ 0
  pub keys_fit : All (λ item. IsKey item.key) node.leaf_items
  pub counted : node.item_count ≡ length node.leaf_items
  pub no_children : node.internal_items ≡ []
  pub fits : leaf_serialised_size node.leaf_items ≤ block_size

-- An internal node that fits its block.
pub record IsInternalNode (node : BafsTreeNode) : Type 0 where
  pub header : IsHeader node
  pub is_internal : 0 < node.level
  pub items_fit : All IsInternalItem node.internal_items
  pub counted : node.item_count ≡ length node.internal_items
  pub no_values : node.leaf_items ≡ []
  pub fits : 24 + 33 * length node.internal_items ≤ block_size

abbrev header_fields : BafsTreeNode → List Bytes
header_fields node =
    to_le_bytes 1 node.level
    ∷ to_le_bytes 1 node.flags
    ∷ to_le_bytes 2 node.item_count
    ∷ to_le_bytes 8 node.self_block_address
    ∷ to_le_bytes 8 node.generation
    ∷ []

write_node_header_lem :
    (node : BafsTreeNode) (buf : Bytes)
    → 24 ≤ length buf
    → write_node_header node buf ≡ ok (write_fields (header_fields node) 4 buf)
unfolding write_node_header
write_node_header_lem node buf h =
    let f1 = to_le_bytes 1 node.level in
    let f2 = to_le_bytes 1 node.flags in
    let f3 = to_le_bytes 2 node.item_count in
    let f4 = to_le_bytes 8 node.self_block_address in
    let f5 = to_le_bytes 8 node.generation in
    let b1 = overwrite 4 f1 buf in
    let b2 = overwrite 5 f2 b1 in
    let b3 = overwrite 6 f3 b2 in
    let b4 = overwrite 8 f4 b3 in
    let l1 = length-overwrite 4 f1 buf in
    let l2 = length-overwrite 5 f2 b1 in
    let l3 = length-overwrite 6 f3 b2 in
    let l4 = length-overwrite 8 f4 b3 in
    rw (copy_ok buf 4 f1 (omega (arith, length-to_le_bytes 1 node.level))) (
      rw (copy_ok b1 5 f2 (omega (arith, length-to_le_bytes 1 node.flags))) (
        rw (copy_ok b2 6 f3 (omega (arith, length-to_le_bytes 2 node.item_count))) (
          rw (copy_ok b3 8 f4 (omega (arith, length-to_le_bytes 8 node.self_block_address))) (
            rw (copy_ok b4 16 f5 (omega (arith, length-to_le_bytes 8 node.generation)))
              (simp length-to_le_bytes)))))

header_read :
    (node : BafsTreeNode) (buf : Bytes)
    → IsHeader node
    → node.item_count < 2 ^ 16
    → HasFields (header_fields node) 4 buf
    → read_node_header buf
      ≡ record node { node_checksum = read_le 0 4 buf; leaf_items = []; internal_items = [] }
unfolding read_node_header
header_read node buf h hc f =
    let (e1, r1) = simp length-to_le_bytes at f in
    let (e2, r2) = r1 in
    let (e3, r3) = r2 in
    let (e4, r4) = r3 in
    let (e5, _) = r4 in
    ground (
      arith,
      read_le_of 1 node.level 4 buf e1 h.level_fits,
      read_le_of 1 node.flags 5 buf e2 h.flags_fit,
      read_le_of 2 node.item_count 6 buf e3 hc,
      read_le_of 8 node.self_block_address 8 buf e4 h.address_fits,
      read_le_of 8 node.generation 16 buf e5 h.generation_fits,
    )

-- What the block of a node holds, before its items are read.
record Framed (node : BafsTreeNode) (body block : Bytes) : Type 0 where
  full : length block ≡ block_size
  sealed : verify_crc32c (drop 4 block) (read_le 0 4 block) ≡ true
  head :
      read_node_header block
      ≡ record node { node_checksum = read_le 0 4 block; leaf_items = []; internal_items = [] }
  kept : SameOutside 0 4 body block

abbrev start : BafsTreeNode → Bytes
start node = write_fields (header_fields node) 4 (replicate block_size 0)

header_size : (node : BafsTreeNode) → fields_size (header_fields node) ≡ 20
header_size node = simp length-to_le_bytes

length-start : (node : BafsTreeNode) → length (start node) ≡ block_size
length-start node =
    (write_fields-SameOutside (header_fields node) 4 (replicate block_size 0)).same_length
    ∙ length-replicate block_size 0

frame :
    (node : BafsTreeNode) (body : Bytes)
    → IsHeader node
    → node.item_count < 2 ^ 16
    → SameOutside 24 block_size (start node) body
    → (block : Bytes) × (write_node_checksum body ≡ ok block) × Framed node body block
unfolding write_node_checksum
frame node body h hc out =
    let c = compute_crc32c (drop 4 body) in
    let c4 = to_le_bytes 4 c in
    let block = overwrite 0 c4 body in
    let l4 = length-to_le_bytes 4 c in
    let len = out.same_length ∙ length-start node in
    let e4 : slice 0 4 block ≡ c4 = slice-overwrite 0 4 c4 body l4 (omega arith) in
    let same : SameOutside 0 4 body block = record {
      same_length = length-overwrite 0 c4 body;
      low = λ q n below. slice-overwrite_before q n 0 c4 body below;
      high = λ q n above. slice-overwrite_after q n 0 c4 body (omega arith);
    } in
    let fields =
      write_fields-HasFields (header_fields node) 4 (replicate block_size 0)
        (omega (arith, header_size node, length-replicate {A = ℕ} block_size 0)) in
    let in_body =
      HasFields-SameOutside (header_fields node) 4 24 block_size (start node) body out
        (inl (omega (arith, header_size node))) fields in
    let in_block =
      HasFields-SameOutside (header_fields node) 4 0 4 body block same (inr (omega arith))
        in_body in
    (
      block,
      copy_ok body 0 c4 (omega arith),
      record {
        full = same.same_length ∙ len;
        sealed =
            verify_crc32c_iff (drop 4 block) (read_le 0 4 block)
            ∙ (==_iff _ _).1 (
                ap compute_crc32c (drop-overwrite 4 0 c4 body (omega arith))
                ∙ sym (read_le_of 4 c 0 block e4 (compute_crc32c-lt _)));
        head = header_read node block h hc in_block;
        kept = same;
      },
    )

-- A node is written to a block of full size, and every read of the block gives the node.
pub record RoundTrip (node : BafsTreeNode) : Type 0 where
  pub block : Bytes
  pub written : serialise_node_to_block node ≡ ok block
  pub full : length block ≡ block_size
  pub read :
      (address : ℕ)
      → deserialise_node_from_block block address
        ≡ ok (record node { node_checksum = compute_crc32c (drop 4 block) })

module _ (node : BafsTreeNode) (address : ℕ) (body block : Bytes) (f : Framed node body block) where
  deserialise_lem :
      deserialise_node_from_block block address
      ≡ read_node_items
          (record node { node_checksum = read_le 0 4 block; leaf_items = []; internal_items = [] })
          block
  unfolding deserialise_node_from_block
  deserialise_lem = rw ((==_iff _ _).1 f.full, f.sealed, f.head) refl

  checksum_read : read_le 0 4 block ≡ compute_crc32c (drop 4 block)
  checksum_read =
      sym ((==_iff _ _).0 (sym (verify_crc32c_iff (drop 4 block) (read_le 0 4 block)) ∙ f.sealed))

leaf_size :
    (items : List BafsLeafItem)
    → leaf_serialised_size items ≡ 24 + length items * 25 + total_value_bytes items
unfolding leaf_serialised_size
leaf_size items = refl

serialise_lem :
    (node : BafsTreeNode) (body block : Bytes)
    → write_node_items node (start node) ≡ ok body
    → write_node_checksum body ≡ ok block
    → serialise_node_to_block node ≡ ok block
unfolding serialise_node_to_block
serialise_lem node body block e1 e2 =
    rw
      (
        write_node_header_lem node (replicate block_size 0)
            (omega (arith, length-replicate {A = ℕ} block_size 0)),
        e1,
      )
      e2

module _ (node : BafsTreeNode) (buf : Bytes) where
  write_node_items-leaf :
      node.level ≡ 0
      → write_node_items node buf ≡ write_leaf_items node.leaf_items 24 block_size buf
  unfolding write_node_items
  write_node_items-leaf e = ground arith

  write_node_items-internal :
      0 < node.level → write_node_items node buf ≡ write_internal_items node.internal_items 24 buf
  unfolding write_node_items
  write_node_items-internal h = ground arith

module _ (node : BafsTreeNode) (c : ℕ) (block : Bytes) where
  abbrev bare : BafsTreeNode
  bare = record node { node_checksum = c; leaf_items = []; internal_items = [] }

  read_node_items-leaf :
      (items : List BafsLeafItem)
      → node.level ≡ 0
      → node.item_count ≡ length items
      → 24 + length items * 25 ≤ block_size
      → read_leaf_items (length items) 24 block ≡ ok items
      → read_node_items bare block ≡ ok (record bare { leaf_items = items })
  unfolding read_node_items
  read_node_items-leaf items e1 e2 h e3 =
      let fits : ltb block_size (24 + length items * 25) ≡ false = ground arith in
      rw (e1, e2) (rw (fits, e3) refl)

  read_node_items-internal :
      (items : List BafsInternalItem)
      → 0 < node.level
      → node.item_count ≡ length items
      → 24 + 33 * length items ≤ block_size
      → read_internal_items (length items) 24 block ≡ items
      → read_node_items bare block ≡ ok (record bare { internal_items = items })
  unfolding read_node_items
  read_node_items-internal items e1 e2 h e3 =
      let fits : ltb block_size (24 + length items * 33) ≡ false = ground arith in
      rw (lt→ltb _ _ e1, e2) (rw (fits, e3) refl)

-- A leaf that fits a block is written to a block of 4096 bytes, and reading that block gives the
-- leaf with the checksum of the block.
pub leaf-RoundTrip : (node : BafsTreeNode) → IsLeafNode node → RoundTrip node
leaf-RoundTrip node h =
    let items = node.leaf_items in
    let size = leaf_size items in
    let w =
      write_leaf_items_lem items 24 block_size (start node) (omega arith)
        (omega (arith, length-start node)) in
    let (block, written, f) = frame node w.buffer h.header (omega arith) w.outside in
    let has =
      HasLeaf-above items 24 block_size 0 4 w.buffer block f.kept (omega arith) (omega arith)
        w.has in
    let items_read =
      read_leaf_items_lem items 24 block_size block h.keys_fit (omega arith) (omega arith) has in
    let c = read_le 0 4 block in
    record {
      block = block;
      written =
          serialise_lem node w.buffer block
            (write_node_items-leaf node (start node) h.is_leaf ∙ w.written) written;
      full = f.full;
      read = λ address.
          deserialise_lem node address w.buffer block f
          ∙ read_node_items-leaf node c block items h.is_leaf h.counted (omega arith) items_read
          ∙ cc (checksum_read node address w.buffer block f, h.no_children);
    }

-- An internal node that fits a block is written to a block of 4096 bytes, and reading that block
-- gives the node with the checksum of the block.
pub internal-RoundTrip : (node : BafsTreeNode) → IsInternalNode node → RoundTrip node
internal-RoundTrip node h =
    let items = node.internal_items in
    let w =
      write_internal_items_lem items 24 (start node) (omega (arith, h.fits, length-start node)) in
    let (block, written, f) = frame node w.buffer h.header (omega (arith, h.fits, h.counted)) (
      SameOutside-trans 24 (24 + 33 * length items) 24 24 24 block_size (omega arith) (omega arith)
        (omega (arith, h.fits)) (omega arith) w.outside (SameOutside-refl 24 24 w.buffer)) in
    let has = HasInternal-above items 24 0 4 w.buffer block f.kept (omega arith) w.has in
    let items_read = read_internal_items_lem items 24 block h.items_fit has in
    let c = read_le 0 4 block in
    record {
      block = block;
      written =
          serialise_lem node w.buffer block
            (write_node_items-internal node (start node) h.is_internal ∙ w.written) written;
      full = f.full;
      read = λ address.
          deserialise_lem node address w.buffer block f
          ∙ read_node_items-internal node c block items h.is_internal h.counted h.fits items_read
          ∙ cc (checksum_read node address w.buffer block f, h.no_values);
    }
