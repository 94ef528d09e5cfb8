-- ===== src/Device.antt =====
-- src/block_device.rs: the trait through which all I/O goes, over a device state S.
-- A driver is not part of the library: it is a value of this record.
use bazzulto_bafs.Base.{ℕ, ◌+◌, ◌≤◌, ◌<◌, ◌≡◌, ◌⊎◌, Option, some, Bool, true}
use bazzulto_bafs.Bytes.{Bytes}

-- `read_sectors` gives the bytes that it puts in the buffer, or none for `false`.
pub record BlockDevice (S : Type 0) : Type 0 where
  pub read_sectors : (start_lba sector_count : ℕ) → S → Option Bytes
  pub write_sectors : (start_lba sector_count : ℕ) → Bytes → S → Bool × S
  pub total_sector_count : S → ℕ

-- The reads of a device in one state.
abbrev pub Reader : Type 0
Reader = ℕ → ℕ → Option Bytes

abbrev pub reader : {S : Type 0} → BlockDevice S → S → Reader
reader device s start_lba sector_count = device.read_sectors start_lba sector_count s

-- A disk: what was written is read back, and a write reaches no sector outside its range.
pub record IsDisk {S : Type 0} (device : BlockDevice S) : Type 0 where
  pub read_written :
      (lba count : ℕ) (buffer : Bytes) (s s' : S)
      → 0 < count
      → device.write_sectors lba count buffer s ≡ (true, s')
      → device.read_sectors lba count s' ≡ some buffer
  pub read_other :
      (lba count : ℕ) (buffer : Bytes) (s s' : S) (success : Bool)
      → device.write_sectors lba count buffer s ≡ (success, s')
      → (lba' count' : ℕ) → (lba + count ≤ lba') ⊎ (lba' + count' ≤ lba)
      → device.read_sectors lba' count' s' ≡ device.read_sectors lba' count' s
