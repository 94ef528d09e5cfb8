-- ===== src/ChecksumTree/Tests.antt =====
-- The theorems on stored checksums at a concrete tree.
use bazzulto_bafs.Base.{[], ◌∷◌, arith}
use bazzulto_bafs.Btree.Tests.{no_device, created}
use bazzulto_bafs.ChecksumTree.Laws.{Guarded, store_data_block_checksum_lem}

store_data_block_checksum_lem_example : Guarded no_device 40 900 (1 ∷ 2 ∷ 3 ∷ []) 2 created.state
store_data_block_checksum_lem_example =
    store_data_block_checksum_lem no_device 40 0 [] created.state created.tree 900 (1 ∷ 2 ∷ 3 ∷ [])
      2 (omega arith) (omega arith) (omega arith) (omega (arith, created.next))
