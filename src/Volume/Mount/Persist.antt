-- ===== src/Volume/Mount/Persist.antt =====
-- `flush_and_commit` and `bafs_mount` of src/volume.rs against each other.
use bazzulto_bafs.Base.{
  ◌+◌, ◌*◌, ◌%◌, ◌^◌, ◌≤◌, ◌≡◌, ◌≢◌, ◌⊎◌, inl, inr, refl, sym, ap, ◌∙◌, false, some, [], arith,
}
use mathlib.Core.Path.{subst}
use bazzulto_bafs.Bytes.{Bytes, read_le}
use bazzulto_bafs.Device.{BlockDevice, IsDisk, reader}
use bazzulto_bafs.Error.{Result, ok, err, panic, out_of_fuel}
use bazzulto_bafs.Superblock.{BafsSuperblock, seal_with_checksum, read_superblock_from_device}
use bazzulto_bafs.Superblock.Writes.{IsCurrent}
use bazzulto_bafs.Journal.{Mounted, begin_transaction, commit_transaction, recover_journal_on_mount}
use bazzulto_bafs.Journal.Finish.{parse-old, commit-finish, finish-reads}
use bazzulto_bafs.Journal.Recovery.{recover-nothing}
use bazzulto_bafs.Volume.{BafsVolume}
use bazzulto_bafs.Volume.Mount.{
  new_volume, volume_over, mount_with, superblock_or_backup, bafs_mount, flush_and_commit,
}

module _ {S : Type 0} (device : BlockDevice S) where
  -- The superblock that a flush commits.
  abbrev pub committed : BafsVolume S → BafsSuperblock
  committed v = record v.superblock {
    next_cow_block_address = v.next_free_block;
    last_committed_transaction_id = v.next_transaction_id;
  }

  -- The volume after a flush that left the device in the state `d`.
  abbrev pub flushed : BafsVolume S → S → BafsVolume S
  flushed v d = record {
    disk = d;
    superblock = seal_with_checksum (committed v);
    dirty_block_cache = [];
    next_transaction_id = (v.next_transaction_id + 1) % 2 ^ 64;
    next_free_block = v.next_free_block;
  }

  mounts :
      (d : S) (superblock : BafsSuperblock)
      → read_superblock_from_device (reader device d) 1 ≡ ok superblock
      → recover_journal_on_mount device (record { disk = d; superblock = superblock })
        ≡ (ok false, record { disk = d; superblock = superblock })
      → bafs_mount device d
        ≡ (ok (new_volume device (record { disk = d; superblock = superblock })), d)
  unfolding bafs_mount mount_with superblock_or_backup volume_over
  mounts d superblock e f = ground (arith, e, f)

  -- What a flush makes of the outcome of its commit.
  after_commit : BafsVolume S → Result (Unit {0}) × Mounted S → Result (Unit {0}) × BafsVolume S
  after_commit v (ok done, c) = (
    ok tt,
    record v {
      disk = c.disk;
      superblock = c.superblock;
      dirty_block_cache = [];
      next_transaction_id = (v.next_transaction_id + 1) % 2 ^ 64;
    },
  )
  after_commit v (panic, c) = (panic, record v { disk = c.disk; superblock = c.superblock })
  after_commit v (out_of_fuel, c) =
      (out_of_fuel, record v { disk = c.disk; superblock = c.superblock })
  after_commit v (err error, c) = (err error, record v { disk = c.disk; superblock = c.superblock })

  abbrev ready : BafsVolume S → Mounted S
  ready v = record {
    disk = v.disk;
    superblock = record v.superblock { next_cow_block_address = v.next_free_block };
  }

  flush_runs :
      (v : BafsVolume S) (r : Result (Unit {0}) × Mounted S)
      → commit_transaction device
          (begin_transaction v.next_transaction_id)
          v.dirty_block_cache
          (ready v)
        ≡ r
      → flush_and_commit device v ≡ after_commit v r
  unfolding flush_and_commit after_commit
  flush_runs v (ok done, c) e = rw e refl
  flush_runs v (err error, c) e = rw e refl
  flush_runs v (panic, c) e = rw e refl
  flush_runs v (out_of_fuel, c) e = rw e refl

  commit_of_flush :
      (v v' : BafsVolume S) (r : Result (Unit {0}) × Mounted S)
      → after_commit v r ≡ (ok tt, v')
      → (c : Mounted S) × (r ≡ (ok tt, c))
        × (v' ≡ record v {
          disk = c.disk;
          superblock = c.superblock;
          dirty_block_cache = [];
          next_transaction_id = (v.next_transaction_id + 1) % 2 ^ 64;
        })
  unfolding after_commit
  commit_of_flush v v' (ok done, c) e = (c, refl, sym (ap (λ t. t.1) e))
  commit_of_flush v v' (err error, c) e = ground (arith, e)
  commit_of_flush v v' (panic, c) e = ground (arith, e)
  commit_of_flush v v' (out_of_fuel, c) e = ground (arith, e)

  -- After a flush of a volume of the supported version to a disk that succeeded, if the journal
  -- area is readable and its record is not of a later transaction, mounting the disk gives back
  -- the volume as the flush left it, with its cache empty, its bump pointer and its next
  -- transaction id, and writes nothing.
  pub flush-mount :
      (v v' : BafsVolume S) (journal : Bytes)
      → IsDisk device
      → IsCurrent (committed v)
      → flush_and_commit device v ≡ (ok tt, v')
      → reader device v'.disk
          (v'.superblock.journal_start_block * 8 % 2 ^ 64)
          (v'.superblock.journal_size_in_blocks * 8 % 2 ^ 32)
        ≡ some journal
      → read_le 8 8 journal ≤ v.next_transaction_id
      → bafs_mount device v'.disk ≡ (ok v', v'.disk)
  unfolding seal_with_checksum
  flush-mount v v' journal disk h e read old =
      let r =
        commit_transaction device (begin_transaction v.next_transaction_id) v.dirty_block_cache
          (ready v) in
      let (c, done, same) = commit_of_flush v v' r (sym (flush_runs v r refl) ∙ e) in
      let (d, finished) =
        commit-finish device v.next_transaction_id v.dirty_block_cache (ready v) c done in
      let (superblock, primary) =
        finish-reads device v.next_transaction_id
          (record { disk = d; superblock = (ready v).superblock }) c disk h finished in
      let back : v' ≡ flushed v c.disk =
        same
        ∙ ap
            (λ sb. record v {
              disk = c.disk;
              superblock = sb;
              dirty_block_cache = [];
              next_transaction_id = (v.next_transaction_id + 1) % 2 ^ 64;
            })
            superblock in
      subst
        (λ w.
          reader device w.disk (w.superblock.journal_start_block * 8 % 2 ^ 64)
              (w.superblock.journal_size_in_blocks * 8 % 2 ^ 32)
            ≡ some journal
          → bafs_mount device w.disk ≡ (ok w, w.disk))
        (sym back)
        (λ here. mounts c.disk (seal_with_checksum (committed v)) primary (
          recover-nothing device
            (record { disk = c.disk; superblock = seal_with_checksum (committed v) }) journal here
            (parse-old v.next_transaction_id journal old)))
        read

  -- A flush leaves the bump pointer as it was; if it fails, the cache and the next transaction id
  -- too, and if it succeeds, it empties the cache and counts the transaction.
  pub flush_and_commit_lem :
      (v v' : BafsVolume S) (outcome : Result (Unit {0}))
      → flush_and_commit device v ≡ (outcome, v')
      → (v'.next_free_block ≡ v.next_free_block)
        × (((v'.dirty_block_cache ≡ [])
              × (v'.next_transaction_id ≡ (v.next_transaction_id + 1) % 2 ^ 64)
              × (outcome ≡ ok tt))
            ⊎ ((v'.dirty_block_cache ≡ v.dirty_block_cache)
                × (v'.next_transaction_id ≡ v.next_transaction_id)
                × (outcome ≢ ok tt)))
  unfolding after_commit
  flush_and_commit_lem v v' outcome e =
      let r =
        commit_transaction device (begin_transaction v.next_transaction_id) v.dirty_block_cache
          (ready v) in
      go r (sym (flush_runs v r refl) ∙ e)
    where
      go :
          (r : Result (Unit {0}) × Mounted S)
          → after_commit v r ≡ (outcome, v')
          → (v'.next_free_block ≡ v.next_free_block)
            × (((v'.dirty_block_cache ≡ [])
                  × (v'.next_transaction_id ≡ (v.next_transaction_id + 1) % 2 ^ 64)
                  × (outcome ≡ ok tt))
                ⊎ ((v'.dirty_block_cache ≡ v.dirty_block_cache)
                    × (v'.next_transaction_id ≡ v.next_transaction_id)
                    × (outcome ≢ ok tt)))
      go (ok done, c) f = (
        sym (ap (λ t. t.1.next_free_block) f),
        inl (
          sym (ap (λ t. t.1.dirty_block_cache) f),
          sym (ap (λ t. t.1.next_transaction_id) f),
          sym (ap (λ t. t.0) f),
        ),
      )
      go (panic, c) f = (
        sym (ap (λ t. t.1.next_free_block) f),
        inr (
          sym (ap (λ t. t.1.dirty_block_cache) f),
          sym (ap (λ t. t.1.next_transaction_id) f),
          λ good. ground (arith, ap (λ t. t.0) f, good),
        ),
      )
      go (out_of_fuel, c) f = (
        sym (ap (λ t. t.1.next_free_block) f),
        inr (
          sym (ap (λ t. t.1.dirty_block_cache) f),
          sym (ap (λ t. t.1.next_transaction_id) f),
          λ good. ground (arith, ap (λ t. t.0) f, good),
        ),
      )
      go (err error, c) f = (
        sym (ap (λ t. t.1.next_free_block) f),
        inr (
          sym (ap (λ t. t.1.dirty_block_cache) f),
          sym (ap (λ t. t.1.next_transaction_id) f),
          λ good. ground (arith, ap (λ t. t.0) f, good),
        ),
      )
