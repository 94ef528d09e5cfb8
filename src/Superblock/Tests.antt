-- ===== src/Superblock/Tests.antt =====
-- A disk that keeps its writes, and the superblock's theorems at a concrete superblock.
use bazzulto_bafs.Base.{
  ℕ, ◌+◌, ◌≤◌, ◌<◌, ◌≡◌, ◌⊎◌, inl, inr, refl, ◌==◌, ◌&&◌, ltb, if◌then◌else◌, true, Option, none,
  some, List, [], ◌∷◌, replicate, length-replicate, arith,
}
use mathlib.Core.Path.{subst}
use bazzulto_bafs.Base.{ap}
use bazzulto_bafs.Bytes.{Bytes}
use bazzulto_bafs.Device.{BlockDevice, IsDisk}
use bazzulto_bafs.Superblock.{
  BafsSuperblock, bafs_magic_number, serialise_superblock_to_bytes,
  deserialise_superblock_from_bytes, write_superblock_to_device, compute_data_area_start_block,
}
use bazzulto_bafs.Superblock.RoundTrip.{
  IsSuperblock, superblock-RoundTrip, compute_data_area_start_block-le,
}
use bazzulto_bafs.Superblock.Writes.{IsCurrent, Copies, write_superblock_to_device_lem}

abbrev pub Log : Type 0
Log = List (ℕ × ℕ × Bytes)

-- The last write that meets the range decides; a range that it meets in part only is not readable.
unfoldable pub read_log : ℕ → ℕ → Log → Option Bytes
read_log lba count [] = none
read_log lba count ((l, c, b) ∷ rest) =
    let older = read_log lba count rest in
    if (ltb l (lba + count) && ltb lba (l + c))
    then (if (l == lba) && (c == count) then some b else none)
    else older

abbrev pub log_device : BlockDevice Log
log_device = record {
  read_sectors = λ lba count log. read_log lba count log;
  write_sectors = λ lba count buffer log. (true, (lba, count, buffer) ∷ log);
  total_sector_count = λ log. 1000000;
}

pub read_log-same :
    (lba count : ℕ) (b : Bytes) (log : Log)
    → 0 < count
    → read_log lba count ((lba, count, b) ∷ log) ≡ some b
unfolding read_log
read_log-same lba count b log h = ground arith

pub read_log-other :
    (l c lba count : ℕ) (b : Bytes) (log : Log)
    → (l + c ≤ lba) ⊎ (lba + count ≤ l)
    → read_log lba count ((l, c, b) ∷ log) ≡ read_log lba count log
unfolding read_log
read_log-other l c lba count b log (inl h) = ground arith
read_log-other l c lba count b log (inr h) = ground arith

pub log_device-IsDisk : IsDisk log_device
log_device-IsDisk = record {
  read_written = λ lba count buffer s s' h e.
      let same : (lba, count, buffer) ∷ s ≡ s' = ap (λ r. r.1) e in
      subst (λ t. read_log lba count t ≡ some buffer) same (read_log-same lba count buffer s h);
  read_other = λ lba count buffer s s' success e lba' count' apart.
      let same : (lba, count, buffer) ∷ s ≡ s' = ap (λ r. r.1) e in
      subst (λ t. read_log lba' count' t ≡ read_log lba' count' s) same
        (read_log-other lba count lba' count' buffer s apart);
}

abbrev pub sample : BafsSuperblock
sample = record {
  magic_number = bafs_magic_number;
  version = 1;
  block_size_in_bytes = 4096;
  total_block_count = 65536;
  free_block_count = 60000;
  allocated_inode_count = 1;
  last_committed_transaction_id = 1;
  root_inode_number = 1;
  inode_tree_root_block = 700;
  free_extent_tree_root_block = 701;
  checksum_tree_root_block = 702;
  journal_start_block = 3;
  journal_size_in_blocks = 655;
  volume_uuid = (7, 9);
  volume_label = (1, 2, 3, 4);
  feature_flags = 0;
  checksum_algorithm = 0;
  next_cow_block_address = 703;
  reserved = replicate 348 0;
  superblock_checksum = 0;
}

sample-IsSuperblock : IsSuperblock sample
sample-IsSuperblock = record {
  magic_size = refl;
  fields_fit = (
    omega arith,
    (
      omega arith,
      (
        omega arith,
        (
          omega arith,
          (
            omega arith,
            (
              omega arith,
              (
                omega arith,
                (
                  omega arith,
                  (
                    omega arith,
                    (
                      omega arith,
                      (
                        omega arith,
                        (
                          omega arith,
                          (
                            omega arith,
                            (
                              omega arith,
                              (
                                omega arith,
                                (
                                  omega arith,
                                  (
                                    omega arith,
                                    (omega arith, (omega arith, (omega arith, (omega arith, tt)))),
                                  ),
                                ),
                              ),
                            ),
                          ),
                        ),
                      ),
                    ),
                  ),
                ),
              ),
            ),
          ),
        ),
      ),
    ),
  );
  reserved_size = length-replicate {A = ℕ} 348 0;
  checksum_fits = omega arith;
}

superblock-RoundTrip_example :
    deserialise_superblock_from_bytes (serialise_superblock_to_bytes sample) ≡ sample
superblock-RoundTrip_example = superblock-RoundTrip sample sample-IsSuperblock

pub sample-IsCurrent : IsCurrent sample
sample-IsCurrent = record { shape = sample-IsSuperblock; magic = refl; current = refl }

write_superblock_to_device_lem_example :
    Copies log_device log_device-IsDisk sample sample-IsCurrent []
      (write_superblock_to_device log_device sample [])
write_superblock_to_device_lem_example =
    write_superblock_to_device_lem log_device log_device-IsDisk sample sample-IsCurrent []

compute_data_area_start_block-le_example :
    (259 ≤ compute_data_area_start_block 65536)
    × (compute_data_area_start_block 65536 ≤ 16387)
    × (compute_data_area_start_block 65536 ≤ 65536)
compute_data_area_start_block-le_example = compute_data_area_start_block-le 65536 (omega arith)
