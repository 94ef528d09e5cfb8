-- ===== src/Volume/Mount.antt =====
-- `bafs_mount`, `flush_and_commit` and `bafs_unmount` of src/volume.rs.
pub mod Persist
use bazzulto_bafs.Base.{ℕ, ◌+◌, ◌%◌, ◌^◌, Bool, []}
use bazzulto_bafs.Device.{BlockDevice, Reader, reader}
use bazzulto_bafs.Error.{Result, ok, err, panic, out_of_fuel}
use bazzulto_bafs.Exec.{Exec, resume}
use bazzulto_bafs.Superblock.{
  BafsSuperblock, read_superblock_from_device, bafs_primary_superblock_block_address,
  bafs_backup_superblock_block_address,
}
use bazzulto_bafs.Journal.{Mounted, begin_transaction, commit_transaction, recover_journal_on_mount}
use bazzulto_bafs.Volume.{BafsVolume}

-- The backup in place of a primary superblock that is not read, for whatever error.
pub superblock_or_backup : Reader → Result BafsSuperblock → Result BafsSuperblock
superblock_or_backup device (err primary_error) =
    read_superblock_from_device device bafs_backup_superblock_block_address
superblock_or_backup device (ok superblock) = ok superblock
superblock_or_backup device panic = panic
superblock_or_backup device out_of_fuel = out_of_fuel

module _ {S : Type 0} (device : BlockDevice S) where
  -- The volume over what the recovery left.
  abbrev pub new_volume : Mounted S → BafsVolume S
  new_volume recovered = record {
    disk = recovered.disk;
    superblock = recovered.superblock;
    dirty_block_cache = [];
    next_transaction_id = (recovered.superblock.last_committed_transaction_id + 1) % 2 ^ 64;
    next_free_block = recovered.superblock.next_cow_block_address;
  }

  -- After the recovery, on the device in the state that it left.
  pub volume_over : Result Bool × Mounted S → Result (BafsVolume S) × S
  volume_over (ok replayed, recovered) = (ok (new_volume recovered), recovered.disk)
  volume_over (err error, recovered) = (err error, recovered.disk)
  volume_over (panic, recovered) = (panic, recovered.disk)
  volume_over (out_of_fuel, recovered) = (out_of_fuel, recovered.disk)

  -- With the superblock, or none.
  pub mount_with : Result BafsSuperblock → S → Result (BafsVolume S) × S
  unfolding volume_over
  mount_with (ok superblock) disk =
      volume_over
        (recover_journal_on_mount device (record { disk = disk; superblock = superblock }))
  mount_with (err error) disk = (err error, disk)
  mount_with panic disk = (panic, disk)
  mount_with out_of_fuel disk = (out_of_fuel, disk)

  pub bafs_mount : S → Result (BafsVolume S) × S
  unfolding mount_with superblock_or_backup
  bafs_mount disk =
      mount_with
        (superblock_or_backup (reader device disk)
          (read_superblock_from_device (reader device disk) bafs_primary_superblock_block_address))
        disk

  unfoldable pub flush_and_commit : Exec (BafsVolume S) (Unit {0})
  flush_and_commit volume =
      let superblock = record volume.superblock {
        next_cow_block_address = volume.next_free_block;
      } in
      let (outcome, committed) =
        commit_transaction device (begin_transaction volume.next_transaction_id)
          volume.dirty_block_cache (record { disk = volume.disk; superblock = superblock }) in
      resume
        (λ done v. (
          ok tt,
          record v {
            dirty_block_cache = [];
            next_transaction_id = (v.next_transaction_id + 1) % 2 ^ 64;
          },
        ))
        outcome (record volume { disk = committed.disk; superblock = committed.superblock })

  -- The volume is consumed; the device keeps what was written.
  unfoldable pub bafs_unmount : BafsVolume S → Result (Unit {0}) × S
  unfolding flush_and_commit
  bafs_unmount volume = let (outcome, left) = flush_and_commit volume in (outcome, left.disk)
