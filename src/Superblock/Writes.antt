-- ===== src/Superblock/Writes.antt =====
-- `write_superblock_to_device` of src/superblock.rs on a disk.
use bazzulto_bafs.Base.{
  ℕ, ◌*◌, ◌%◌, ◌^◌, ◌≡◌, ◌⊎◌, inl, inr, refl, sym, ap, ◌∙◌, ◌==◌, ==_iff, Bool, true, false, some,
  [], ◌∷◌, ◌++◌, length, take, replicate, if◌then◌else◌, arith,
}
use mathlib.Core.Path.{subst}
use mathlib.Core.List.{append_assoc}
use bazzulto_bafs.Bytes.{Bytes, slice, overwrite}
use bazzulto_bafs.Bytes.Slices.{slice-overwrite}
use bazzulto_bafs.Bytes.Layout.{encode, take-append}
use bazzulto_bafs.Base.{length-append, length-replicate}
use bazzulto_bafs.Checksum.{compute_crc32c}
use bazzulto_bafs.Checksum.Bounds.{compute_crc32c-lt, verify_crc32c_iff}
use bazzulto_bafs.Device.{BlockDevice, IsDisk, reader}
use bazzulto_bafs.Error.{Result, ok, err, panic, out_of_fuel, input_output_error}
use bazzulto_bafs.Superblock.{
  BafsSuperblock, serialise_superblock_to_bytes, compute_checksum, seal_with_checksum,
  verify_checksum, same_bytes, bafs_magic_number, validate_superblock, read_superblock_from_device,
  write_at_block, write_superblock_to_device,
}
use bazzulto_bafs.Superblock.RoundTrip.{
  IsSuperblock, superblock-RoundTrip, length-serialise, front_size, front, regroup,
}

-- A superblock that this version of the code writes.
pub record IsCurrent (s : BafsSuperblock) : Type 0 where
  pub shape : IsSuperblock s
  pub magic : s.magic_number ≡ bafs_magic_number
  pub current : s.version ≡ 1

IsSuperblock-seal : (s : BafsSuperblock) → IsSuperblock s → IsSuperblock (seal_with_checksum s)
unfolding seal_with_checksum compute_checksum
IsSuperblock-seal s h = record {
  magic_size = h.magic_size;
  fields_fit = h.fields_fit;
  reserved_size = h.reserved_size;
  checksum_fits = compute_crc32c-lt _;
}

covered :
    (s : BafsSuperblock) (h : IsSuperblock s)
    → take 508 (serialise_superblock_to_bytes s) ≡ front s h ++ s.reserved
covered s h =
    let seal = encode ((4, s.superblock_checksum) ∷ []) in
    let size : length (front s h ++ s.reserved) ≡ 508 =
      omega (arith, length-append (front s h) s.reserved, front_size s h, h.reserved_size) in
    ap (take 508) (sym (regroup s h) ∙ sym (append_assoc (front s h) s.reserved seal))
    ∙ subst (λ n. take n ((front s h ++ s.reserved) ++ seal) ≡ front s h ++ s.reserved) size
        (take-append (front s h ++ s.reserved) seal)

verify-seal : (s : BafsSuperblock) → IsSuperblock s → verify_checksum (seal_with_checksum s) ≡ true
unfolding verify_checksum seal_with_checksum compute_checksum
verify-seal s h =
    let sealed = seal_with_checksum s in
    verify_crc32c_iff _ _
    ∙ (==_iff _ _).1
        (ap compute_crc32c (covered sealed (IsSuperblock-seal s h) ∙ sym (covered s h)))

magic_matches : same_bytes bafs_magic_number bafs_magic_number ≡ true
unfolding same_bytes
magic_matches = refl

seal-magic : (s : BafsSuperblock) → (seal_with_checksum s).magic_number ≡ s.magic_number
unfolding seal_with_checksum
seal-magic s = refl

seal-version : (s : BafsSuperblock) → (seal_with_checksum s).version ≡ s.version
unfolding seal_with_checksum
seal-version s = refl

validate_of :
    (x : BafsSuperblock) (block : ℕ)
    → same_bytes x.magic_number bafs_magic_number ≡ true
    → (x.version == 1) ≡ true
    → verify_checksum x ≡ true
    → validate_superblock block x ≡ ok x
unfolding validate_superblock
validate_of x block m v c = rw (m, v, c) refl

validate-seal :
    (s : BafsSuperblock) (block : ℕ)
    → IsCurrent s
    → validate_superblock block (seal_with_checksum s) ≡ ok (seal_with_checksum s)
validate-seal s block h =
    validate_of (seal_with_checksum s) block
      (ap (λ m. same_bytes m bafs_magic_number) (seal-magic s ∙ h.magic) ∙ magic_matches)
      ((==_iff _ _).1 (seal-version s ∙ h.current)) (verify-seal s h.shape)

module _ {S : Type 0} (device : BlockDevice S) (disk : IsDisk device) (superblock : BafsSuperblock)
    (h : IsCurrent superblock) where
  abbrev sealed : BafsSuperblock
  sealed = seal_with_checksum superblock

  abbrev buffer : Bytes
  buffer = overwrite 0 (serialise_superblock_to_bytes sealed) (replicate 4096 0)

  stored : take 512 buffer ≡ serialise_superblock_to_bytes sealed
  unfolding slice
  stored =
      slice-overwrite 0 512 (serialise_superblock_to_bytes sealed) (replicate 4096 0)
        (length-serialise sealed (IsSuperblock-seal superblock h.shape))
        (omega (arith, length-replicate {A = ℕ} 4096 0))

  reads :
      (s : S) (block : ℕ)
      → device.read_sectors (block * 8 % 2 ^ 64) 8 s ≡ some buffer
      → read_superblock_from_device (reader device s) block ≡ ok sealed
  unfolding read_superblock_from_device
  reads s block e =
      rw (e, stored, superblock-RoundTrip sealed (IsSuperblock-seal superblock h.shape))
        (validate-seal superblock block h)

  reads_same :
      (s s' : S) (block : ℕ)
      → device.read_sectors (block * 8 % 2 ^ 64) 8 s' ≡ device.read_sectors (block * 8 % 2 ^ 64) 8 s
      → read_superblock_from_device (reader device s') block
        ≡ read_superblock_from_device (reader device s) block
  unfolding read_superblock_from_device
  reads_same s s' block e = rw e refl

  at_block_of :
      (s s' : S) (block : ℕ) (success : Bool)
      → device.write_sectors (block * 8 % 2 ^ 64) 8 buffer s ≡ (success, s')
      → write_at_block device (serialise_superblock_to_bytes sealed) block s
        ≡ ((if success then ok tt else err input_output_error), s')
  unfolding write_at_block
  at_block_of s s' block success e = ground (arith, e)

  -- Both copies are written, or the backup fails, or the primary fails.
  data Writes (s : S) : Type 0 where
    both :
        (s1 s2 : S)
        → device.write_sectors 16 8 buffer s ≡ (true, s1)
        → device.write_sectors 8 8 buffer s1 ≡ (true, s2)
        → write_superblock_to_device device superblock s ≡ (ok tt, s2)
        → Writes s
    backup_fails :
        (s1 : S)
        → device.write_sectors 16 8 buffer s ≡ (false, s1)
        → write_superblock_to_device device superblock s ≡ (err input_output_error, s1)
        → Writes s
    primary_fails :
        (s1 s2 : S)
        → device.write_sectors 16 8 buffer s ≡ (true, s1)
        → device.write_sectors 8 8 buffer s1 ≡ (false, s2)
        → write_superblock_to_device device superblock s ≡ (err input_output_error, s2)
        → Writes s

  writes : (s : S) → Writes s
  unfolding write_superblock_to_device
  writes s = go (device.write_sectors 16 8 buffer s) refl
    where
      go2 :
          (s1 : S)
          → device.write_sectors 16 8 buffer s ≡ (true, s1)
          → (r : Bool × S) → device.write_sectors 8 8 buffer s1 ≡ r
          → Writes s
      go2 s1 e (true, s2) f =
          both s1 s2 e f (ground (arith, at_block_of s s1 2 true e, at_block_of s1 s2 1 true f))
      go2 s1 e (false, s2) f =
          primary_fails s1 s2 e f
            (ground (arith, at_block_of s s1 2 true e, at_block_of s1 s2 1 false f))

      go : (r : Bool × S) → device.write_sectors 16 8 buffer s ≡ r → Writes s
      go (true, s1) e = go2 s1 e (device.write_sectors 8 8 buffer s1) refl
      go (false, s1) e = backup_fails s1 e (ground (arith, at_block_of s s1 2 false e))

  -- What the two copies are after the run, by its outcome.
  abbrev pub Copies : S → Result (Unit {0}) × S → Type 0
  Copies s (ok _, s') =
      (read_superblock_from_device (reader device s') 1 ≡ ok sealed)
      × (read_superblock_from_device (reader device s') 2 ≡ ok sealed)
  Copies s (err e, s') =
      (read_superblock_from_device (reader device s') 1
        ≡ read_superblock_from_device (reader device s) 1)
      ⊎ (read_superblock_from_device (reader device s') 2 ≡ ok sealed)
  Copies s (panic, s') = ⊥
  Copies s (out_of_fuel, s') = ⊥

  -- Writing a superblock of the supported version to a disk, which reads back what is written and
  -- touches no other sector, leaves both copies readable and sealed if it succeeds; if the device
  -- fails, the primary copy reads as before or the backup copy reads as the new superblock.
  pub write_superblock_to_device_lem :
      (s : S) → Copies s (write_superblock_to_device device superblock s)
  write_superblock_to_device_lem s = go (writes s)
    where
      go : Writes s → Copies s (write_superblock_to_device device superblock s)
      go (both s1 s2 e f run) = subst (Copies s) (sym run) (
        reads s2 1 (disk.read_written 8 8 buffer s1 s2 (omega arith) f),
        reads s2 2 (
            disk.read_other 8 8 buffer s1 s2 true f 16 8 (inl (omega arith))
            ∙ disk.read_written 16 8 buffer s s1 (omega arith) e),
      )
      go (backup_fails s1 e run) = subst (Copies s) (sym run) (
          inl
            (reads_same s s1 1 (disk.read_other 16 8 buffer s s1 false e 8 8 (inr (omega arith)))))
      go (primary_fails s1 s2 e f run) = subst (Copies s) (sym run) (
          inr (
            reads s2 2 (
              disk.read_other 8 8 buffer s1 s2 false f 16 8 (inl (omega arith))
              ∙ disk.read_written 16 8 buffer s s1 (omega arith) e)))
