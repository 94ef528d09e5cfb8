-- ===== src/Kernel/Tests.antt =====
-- The kernel's methods of src/kernel.rs on a volume whose root directory has one entry.
use bazzulto_bafs.Base.{◌≡◌, refl, sym, ◌∙◌, some, [], ◌∷◌, arith}
use bazzulto_bafs.Error.{ok}
use bazzulto_bafs.Btree.Map.{find}
use bazzulto_bafs.Volume.Session.{session}
use bazzulto_bafs.Volume.{BafsVolume, volume_read_inode}
use bazzulto_bafs.Volume.Format.Sound.{root_inode}
use bazzulto_bafs.Dir.Lookup.{named, directory_lookup_entry_lem}
use bazzulto_bafs.Btree.Tests.{no_device}
use bazzulto_bafs.Inode.Laws.{new_inode_types}
use bazzulto_bafs.Volume.Files.Tests.{broken_device, fresh, root_reads, formatted}
use bazzulto_bafs.Dir.Tests.{file_name, file_entry, there, created, created_map, key_rank}
use bazzulto_bafs.Kernel.{fs_ok, write_at, create, mkdir, unlink, lookup}
use bazzulto_bafs.Kernel.Laws.{kernel-session, kernel_lookup_lem}

-- A volume whose root directory has one entry, all of it in the cache.
abbrev with_entry : BafsVolume Unit
with_entry = record fresh {
  superblock = record fresh.superblock { inode_tree_root_block = created.tree.new_root };
  dirty_block_cache = created.tree.state.dirty_cache;
  next_free_block = created.tree.state.next_free_block;
}

root_read : volume_read_inode broken_device with_entry 1 ≡ ok root_inode
unfolding volume_read_inode
root_read = created.inodes 1 (omega arith) (omega arith) ∙ root_reads

entry_held : named file_name (find key_rank created_map) ≡ ok (some file_entry)
entry_held =
    sym (
      directory_lookup_entry_lem no_device created.tree.state created.tree.height
        created.tree.new_root created_map 1 file_name created.tree.store (omega arith) (omega arith)
        (omega (arith, created.tree.height_le, formatted.inode_height_le)))
    ∙ there

kernel_lookup_lem_example : lookup broken_device 1 file_name with_entry ≡ fs_ok (some 2)
kernel_lookup_lem_example =
    kernel_lookup_lem broken_device with_entry 1 file_name root_inode created.tree.state
      created.tree.height created_map (some file_entry) created.tree.store refl (omega arith)
      (omega arith) (omega (arith, created.tree.height_le, formatted.inode_height_le)) root_read
      (new_inode_types 1 1 0).2 entry_held

kernel-session_example :
    (session (write_at broken_device 1 0 (7 ∷ []) with_entry).1 ≡ session with_entry)
    × (session (create broken_device 1 file_name with_entry).1 ≡ session with_entry)
    × (session (mkdir broken_device 1 file_name with_entry).1 ≡ session with_entry)
    × (session (unlink broken_device 1 file_name with_entry).1 ≡ session with_entry)
kernel-session_example = kernel-session broken_device with_entry 1 0 (7 ∷ []) file_name
