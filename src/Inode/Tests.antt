-- ===== src/Inode/Tests.antt =====
-- The theorems on inodes at a concrete inode and tree.
use bazzulto_bafs.Base.{ℕ, ◌^◌, ◌<◌, ◌≡◌, refl, [], length-replicate, arith}
use bazzulto_bafs.Btree.Tests.{no_device, created}
use bazzulto_bafs.Inode.{
  BafsInode, new_regular_file, serialise_inode_to_bytes, deserialise_inode_from_bytes,
  allocate_next_inode_number,
}
use bazzulto_bafs.Inode.Laws.{IsInode, inode-RoundTrip, Updated, write_inode_to_tree_lem}

abbrev pub file : BafsInode
file = new_regular_file 7 3 1000000

pub file-IsInode : IsInode file
unfolding new_regular_file
file-IsInode = record {
  fields_fit = (
    omega arith,
    (
      omega arith,
      (
        omega arith,
        (
          omega arith,
          (
            omega arith,
            (
              omega arith,
              (
                omega arith,
                (
                  omega arith,
                  (
                    omega arith,
                    (
                      omega arith,
                      (omega arith, (omega arith, (omega arith, (omega arith, (omega arith, tt))))),
                    ),
                  ),
                ),
              ),
            ),
          ),
        ),
      ),
    ),
  );
  reserved_size = length-replicate {A = ℕ} 32 0;
}

inode-RoundTrip_example : deserialise_inode_from_bytes (serialise_inode_to_bytes file) ≡ file
inode-RoundTrip_example = inode-RoundTrip file file-IsInode

pub number_fits : file.inode_number < 2 ^ 64
unfolding new_regular_file
number_fits = omega arith

write_inode_to_tree_lem_example : Updated no_device 40 file 2 created.state
write_inode_to_tree_lem_example =
    write_inode_to_tree_lem no_device 40 0 [] created.state created.tree file 2 file-IsInode
      number_fits (omega arith) (omega arith) (omega (arith, created.next))

-- The first inode after the root's.
second_number : allocate_next_inode_number 1 ≡ 2
unfolding allocate_next_inode_number
second_number = refl
