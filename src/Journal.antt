-- ===== src/Journal.antt =====
-- src/journal.rs: the write-ahead journal that makes a commit atomic.
pub mod Writes
pub mod Record
pub mod Recovery
pub mod Crash
pub mod Finish
pub mod Tests
use bazzulto_bafs.Base.{
  ℕ, zero, suc, ◌+◌, ◌*◌, ◌%◌, ◌^◌, Bool, true, false, Option, none, some, List, [], ◌∷◌, map, ltb,
  leb, ◌==◌, length, take, drop, replicate, if◌then◌else◌,
}
use bazzulto_bafs.Bytes.{Bytes, to_le_bytes, read_le, slice, overwrite}
use bazzulto_bafs.Checksum.{compute_crc32c}
use bazzulto_bafs.Device.{BlockDevice, reader}
use bazzulto_bafs.Error
use bazzulto_bafs.Error.{Result, ok, err, panic, ok_or, out_of_space, input_output_error}
use bazzulto_bafs.Exec.{Exec, pure, fail, lift, gets, modify, ◌>>=◌, ◌>>◌}
use bazzulto_bafs.Btree.Codec.{copy_from_slice}
use bazzulto_bafs.Btree.Cache.{DirtyCache}
use bazzulto_bafs.Superblock.{
  BafsSuperblock, bafs_default_block_size_bytes, bafs_sectors_per_block, same_bytes,
  seal_with_checksum, write_superblock_to_device,
}

-- "BAFSJRNL"
abbrev pub journal_commit_record_magic : Bytes
journal_commit_record_magic = 0x42 ∷ 0x41 ∷ 0x46 ∷ 0x53 ∷ 0x4A ∷ 0x52 ∷ 0x4E ∷ 0x4C ∷ []

abbrev pub journal_commit_record_header_size_bytes : ℕ
journal_commit_record_header_size_bytes = 24

pub record BafsTransaction : Type 0 where
  pub transaction_id : ℕ

abbrev pub begin_transaction : ℕ → BafsTransaction
begin_transaction next_transaction_id = record { transaction_id = next_transaction_id }

-- `record_body_size`
abbrev pub body_size : ℕ → ℕ
body_size count =
    journal_commit_record_header_size_bytes + 8 * count + bafs_default_block_size_bytes * count

-- `for &address in &block_addresses`
pub write_addresses : List (ℕ × Bytes) → ℕ → Bytes → Result Bytes
write_addresses [] write_cursor buffer = ok buffer
write_addresses ((address, _) ∷ rest) write_cursor buffer =
    Error.◌>>=◌ (copy_from_slice buffer write_cursor (to_le_bytes 8 address))
      λ next. write_addresses rest (write_cursor + 8) next

-- A block of another size does not fit the slice of a block.
pub write_blocks : List (ℕ × Bytes) → ℕ → Bytes → Result Bytes
write_blocks [] write_cursor buffer = ok buffer
write_blocks ((_, block_data) ∷ rest) write_cursor buffer =
    let written =
      Error.◌>>=◌ (copy_from_slice buffer write_cursor block_data)
        λ next. write_blocks rest (write_cursor + bafs_default_block_size_bytes) next in
    if length block_data == bafs_default_block_size_bytes then written else panic

-- Step (a) of a commit.
pub build_commit_record : ℕ → DirtyCache → Result Bytes
build_commit_record transaction_id dirty_cache =
    let count = length dirty_cache % 2 ^ 32 in
    let size = body_size count in
    Error.◌>>=◌ (copy_from_slice (replicate (size + 4) 0) 0 journal_commit_record_magic) λ b1.
      Error.◌>>=◌ (copy_from_slice b1 8 (to_le_bytes 8 transaction_id)) λ b2.
        Error.◌>>=◌ (copy_from_slice b2 16 (to_le_bytes 4 count)) λ b3.
          Error.◌>>=◌ (write_addresses dirty_cache 20 b3) λ b4.
            Error.◌>>=◌ (write_blocks dirty_cache (20 + 8 * length dirty_cache) b4)
              λ b5. copy_from_slice b5 size (to_le_bytes 4 (compute_crc32c (take size b5)))

module _ {S : Type 0} (device : BlockDevice S) where
  -- One block to its place.
  pub write_home : ℕ → Bytes → Exec S (Unit {0})
  write_home block_address block_data s =
      let (success, s') =
        device.write_sectors (block_address * bafs_sectors_per_block % 2 ^ 64)
          bafs_sectors_per_block block_data s in
      elim success [ true ↦ pure tt s' | false ↦ fail input_output_error s' ]

  pub write_all_home : List (ℕ × Bytes) → Exec S (Unit {0})
  unfolding write_home
  write_all_home [] = pure tt
  write_all_home ((block_address, block_data) ∷ rest) = do
    write_home block_address block_data
    write_all_home rest

  -- `while bytes_written < data.len()`; what is left is the argument.
  pub write_chunks : ℕ → ℕ → Bytes → Exec S (Unit {0})
  unfolding write_home
  write_chunks fuel current_block [] = pure tt
  write_chunks zero current_block (b ∷ bs) = lift Error.out_of_fuel
  write_chunks (suc fuel) current_block (b ∷ bs) = do
    write_home current_block (
        overwrite 0 (take bafs_default_block_size_bytes (b ∷ bs))
          (replicate bafs_default_block_size_bytes 0))
    write_chunks fuel ((current_block + 1) % 2 ^ 64) (drop bafs_default_block_size_bytes (b ∷ bs))

  pub write_bytes_to_journal : BafsSuperblock → Bytes → Exec S (Unit {0})
  write_bytes_to_journal superblock bytes =
      elim (ltb (superblock.journal_size_in_blocks * bafs_default_block_size_bytes)
        (length bytes)) [
          | true ↦ fail out_of_space
          | false ↦ write_chunks (length bytes) superblock.journal_start_block bytes
        ]

-- A device and the superblock in memory, which a commit changes.
pub record Mounted (S : Type 0) : Type 0 where
  pub disk : S
  pub superblock : BafsSuperblock

-- An operation on the device alone.
module _ {S : Type 0} where
  abbrev pub on_disk : Exec S (Unit {0}) → Exec (Mounted S) (Unit {0})
  on_disk operation m =
      let (outcome, disk') = operation m.disk in (outcome, record m { disk = disk' })

module _ {S : Type 0} (device : BlockDevice S) where
  -- The new transaction id, and both copies of the superblock.
  unfoldable pub finish : ℕ → Exec (Mounted S) (Unit {0})
  finish transaction_id m =
      let superblock = record m.superblock { last_committed_transaction_id = transaction_id } in
      let (outcome, disk') = write_superblock_to_device device superblock m.disk in
      (outcome, record { disk = disk'; superblock = seal_with_checksum superblock })

  unfoldable pub commit_transaction : BafsTransaction → DirtyCache → Exec (Mounted S) (Unit {0})
  unfolding finish
  commit_transaction transaction [] = finish transaction.transaction_id
  commit_transaction transaction (entry ∷ entries) = do
    record_buffer ← lift (build_commit_record transaction.transaction_id (entry ∷ entries))
    superblock ← gets (λ m. m.superblock)
    on_disk (write_bytes_to_journal device superblock record_buffer)
    on_disk (write_all_home device (entry ∷ entries))
    finish transaction.transaction_id

-- `for _ in 0..dirty_block_count`: the addresses from a position on.
pub read_addresses : ℕ → ℕ → Bytes → List ℕ
read_addresses zero read_cursor journal_buffer = []
read_addresses (suc count) read_cursor journal_buffer =
    read_le read_cursor 8 journal_buffer ∷ read_addresses count (read_cursor + 8) journal_buffer

-- The blocks that are replayed, one after another from a position on.
pub read_blocks : List ℕ → ℕ → Bytes → List (ℕ × Bytes)
read_blocks [] read_cursor journal_buffer = []
read_blocks (address ∷ rest) read_cursor journal_buffer =
    (address, slice read_cursor bafs_default_block_size_bytes journal_buffer)
    ∷ read_blocks rest (read_cursor + bafs_default_block_size_bytes) journal_buffer

-- The transaction to replay, or none if there is no complete one newer than the superblock's.
pub parse_commit_record : ℕ → Bytes → Option (ℕ × List (ℕ × Bytes))
parse_commit_record last_committed_transaction_id journal_buffer =
    let transaction_id = read_le 8 8 journal_buffer in
    let count = read_le 16 4 journal_buffer in
    let size = body_size count in
    let addresses = read_addresses count 20 journal_buffer in
    if ltb (length journal_buffer) journal_commit_record_header_size_bytes
    then none
    else if same_bytes (slice 0 8 journal_buffer) journal_commit_record_magic
    then if leb transaction_id last_committed_transaction_id
      then none
      else if ltb (length journal_buffer) (size + 4)
      then none
      else if read_le size 4 journal_buffer == compute_crc32c (take size journal_buffer)
      then some (transaction_id, read_blocks addresses (20 + 8 * count) journal_buffer)
      else none
    else none

module _ {S : Type 0} (device : BlockDevice S) where
  -- The replay of what was parsed.
  pub replay : Option (ℕ × List (ℕ × Bytes)) → Exec (Mounted S) Bool
  replay none = pure false
  replay (some (transaction_id, blocks)) = do
    on_disk (write_all_home device blocks)
    finish device transaction_id
    pure true

  pub recover_journal_on_mount : Exec (Mounted S) Bool
  unfolding replay
  recover_journal_on_mount = do
    m ← gets (λ m. m)
    journal_buffer ← lift (
        ok_or
          (reader device m.disk (m.superblock.journal_start_block * bafs_sectors_per_block % 2 ^ 64)
            (m.superblock.journal_size_in_blocks * bafs_sectors_per_block % 2 ^ 32))
          input_output_error)
    replay (parse_commit_record m.superblock.last_committed_transaction_id journal_buffer)
