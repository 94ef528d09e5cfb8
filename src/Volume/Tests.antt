-- ===== src/Volume/Tests.antt =====
-- Volumes of src/volume.rs at concrete states.
use bazzulto_bafs.Base.{
  ◌+◌, ◌*◌, ◌%◌, ◌^◌, ◌≤◌, ◌≡◌, ◌≢◌, ◌⊎◌, refl, some, [], ◌∷◌, replicate, arith,
}
use bazzulto_bafs.Bytes.{read_le}
use bazzulto_bafs.Device.{reader}
use bazzulto_bafs.Error.{ok}
use bazzulto_bafs.Btree.Tests.{no_device}
use bazzulto_bafs.Superblock.{seal_with_checksum, write_superblock_to_device, write_at_block}
use bazzulto_bafs.Journal.{commit_transaction, finish}
use bazzulto_bafs.Superblock.Tests.{
  Log, log_device, log_device-IsDisk, sample, sample-IsCurrent, read_log,
}
use bazzulto_bafs.Volume.Format.Sound.{Formatted, build_trees_lem}
use bazzulto_bafs.Volume.Mount.{flush_and_commit, bafs_mount}
use bazzulto_bafs.Volume.Mount.Persist.{flush-mount, flush_and_commit_lem}
use bazzulto_bafs.Volume.{BafsVolume}

build_trees_lem_example : Formatted no_device 1000 259
build_trees_lem_example = build_trees_lem no_device 1000 259 (omega arith) (omega arith)

-- A volume in its first transaction, on a disk with an empty journal.
abbrev disk_of_zeros : Log
disk_of_zeros = (24, 5240, replicate 100 0) ∷ []

abbrev pub mounted : BafsVolume Log
mounted = record {
  disk = disk_of_zeros;
  superblock = sample;
  dirty_block_cache = [];
  next_transaction_id = 1;
  next_free_block = 703;
}

flush_and_commit_lem_example :
    let (outcome, v') = flush_and_commit log_device mounted in
    (v'.next_free_block ≡ 703)
    × (((v'.dirty_block_cache ≡ [])
          × (v'.next_transaction_id ≡ (1 + 1) % 2 ^ 64)
          × (outcome ≡ ok tt))
        ⊎ ((v'.dirty_block_cache ≡ []) × (v'.next_transaction_id ≡ 1) × (outcome ≢ ok tt)))
flush_and_commit_lem_example =
    flush_and_commit_lem log_device mounted (flush_and_commit log_device mounted).1
      (flush_and_commit log_device mounted).0 refl

abbrev after_flush : BafsVolume Log
after_flush = (flush_and_commit log_device mounted).1

flush_succeeds : flush_and_commit log_device mounted ≡ (ok tt, after_flush)
unfolding flush_and_commit commit_transaction finish write_superblock_to_device write_at_block
flush_succeeds = refl

journal_reads :
    reader log_device after_flush.disk
      (after_flush.superblock.journal_start_block * 8 % 2 ^ 64)
      (after_flush.superblock.journal_size_in_blocks * 8 % 2 ^ 32)
    ≡ some (replicate 100 0)
unfolding flush_and_commit commit_transaction finish write_superblock_to_device write_at_block
    seal_with_checksum read_log
journal_reads = refl

no_transaction : read_le 8 8 (replicate 100 0) ≤ 1
unfolding read_le replicate
no_transaction = omega arith

flush-mount_example : bafs_mount log_device after_flush.disk ≡ (ok after_flush, after_flush.disk)
flush-mount_example =
    flush-mount log_device mounted after_flush (replicate 100 0) log_device-IsDisk sample-IsCurrent
      flush_succeeds journal_reads no_transaction
