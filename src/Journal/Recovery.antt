-- ===== src/Journal/Recovery.antt =====
-- `recover_journal_on_mount` and `commit_transaction` of src/journal.rs on a disk.
use bazzulto_bafs.Base.{
  ℕ, ◌+◌, ◌*◌, ◌%◌, ◌^◌, ◌≤◌, ◌<◌, ◌≡◌, ◌⊎◌, refl, sym, ap, ◌∙◌, ◌==◌, Bool, true, false,
  Bool-cases, Option, none, some, List, [], ◌∷◌, ◌++◌, ltb, length, arith, inl, inr,
}
use bazzulto_bafs.Bytes.{Bytes}
use bazzulto_bafs.Device.{BlockDevice, IsDisk, reader}
use bazzulto_bafs.Error.{ok, err, input_output_error, out_of_space}
use bazzulto_bafs.Exec.{pure, ◌>>◌}
use bazzulto_bafs.Superblock.{BafsSuperblock}
use bazzulto_bafs.Journal.{
  Mounted, BafsTransaction, parse_commit_record, write_home, write_all_home, write_bytes_to_journal,
  finish, replay, recover_journal_on_mount, commit_transaction,
}
use bazzulto_bafs.Journal.Record.{Recorded}

module _ {S : Type 0} (device : BlockDevice S) where
  pub all_home-true :
      (address : ℕ) (block : Bytes) (rest : List (ℕ × Bytes)) (s s1 : S)
      → device.write_sectors (address * 8 % 2 ^ 64) 8 block s ≡ (true, s1)
      → write_all_home device ((address, block) ∷ rest) s ≡ write_all_home device rest s1
  unfolding write_all_home write_home
  all_home-true address block rest s s1 e = ground (arith, e)

  pub all_home-false :
      (address : ℕ) (block : Bytes) (rest : List (ℕ × Bytes)) (s s1 : S)
      → device.write_sectors (address * 8 % 2 ^ 64) 8 block s ≡ (false, s1)
      → write_all_home device ((address, block) ∷ rest) s ≡ (err input_output_error, s1)
  unfolding write_all_home write_home
  all_home-false address block rest s s1 e = ground (arith, e)

  pub all_home-nil : (s : S) → write_all_home device [] s ≡ (ok tt, s)
  unfolding write_all_home
  all_home-nil s = refl

  -- A run that succeeds has written its first block.
  first_home :
      (address : ℕ) (block : Bytes) (rest : List (ℕ × Bytes)) (s s' : S)
      → write_all_home device ((address, block) ∷ rest) s ≡ (ok tt, s')
      → (s1 : S) × (device.write_sectors (address * 8 % 2 ^ 64) 8 block s ≡ (true, s1))
        × (write_all_home device rest s1 ≡ (ok tt, s'))
  first_home address block rest s s' h =
      go (device.write_sectors (address * 8 % 2 ^ 64) 8 block s) refl
    where
      go :
          (r : Bool × S)
          → device.write_sectors (address * 8 % 2 ^ 64) 8 block s ≡ r
          → (s1 : S) × (device.write_sectors (address * 8 % 2 ^ 64) 8 block s ≡ (true, s1))
            × (write_all_home device rest s1 ≡ (ok tt, s'))
      go (true, s1) e = (s1, e, sym (all_home-true address block rest s s1 e) ∙ h)
      go (false, s1) e =
          let failed : err input_output_error ≡ ok tt =
            ap (λ r. r.0) (sym (all_home-false address block rest s s1 e) ∙ h) in
          absurd (cc failed)

-- No entry is for the block.
abbrev Absent : ℕ → List (ℕ × Bytes) → Type 0
Absent block [] = Unit
Absent block ((address, _) ∷ rest) = ((address == block) ≡ false) × Absent block rest

-- Addresses of the device, each once.
abbrev pub Distinct : List (ℕ × Bytes) → Type 0
Distinct [] = Unit
Distinct ((address, _) ∷ rest) = (address < 2 ^ 60) × Absent address rest × Distinct rest

-- Every block reads as the entry for it says.
abbrev pub Stored : {S : Type 0} → BlockDevice S → S → List (ℕ × Bytes) → Type 0
Stored device s [] = Unit
Stored device s ((address, block) ∷ rest) =
    (device.read_sectors (address * 8) 8 s ≡ some block) × Stored device s rest

module _ {S : Type 0} (device : BlockDevice S) (disk : IsDisk device) where
  keeps :
      (block : ℕ) (entries : List (ℕ × Bytes)) (s s' : S)
      → Absent block entries
      → Distinct entries
      → write_all_home device entries s ≡ (ok tt, s')
      → device.read_sectors (block * 8) 8 s' ≡ device.read_sectors (block * 8) 8 s
  keeps block [] s s' a d h =
      ap (λ t. device.read_sectors (block * 8) 8 t) (ap (λ r. r.1) (sym h ∙ all_home-nil device s))
  keeps block ((address, bytes) ∷ rest) s s' (a, as') (b, _, d) h =
      let (s1, e, later) = first_home device address bytes rest s s' h in
      let here : address * 8 % 2 ^ 64 ≡ address * 8 = omega arith in
      let apart : (address * 8 + 8 ≤ block * 8) ⊎ (block * 8 + 8 ≤ address * 8) =
        elim (Bool-cases (ltb address block)) [
          | inl below ↦ inl (ground arith)
          | inr above ↦ inr (ground arith)
        ] in
      keeps block rest s1 s' as' d later
      ∙ disk.read_other (address * 8) 8 bytes s s1 true (rw here at e) (block * 8) 8 apart

  pub write_all_home-Stored :
      (entries : List (ℕ × Bytes)) (s s' : S)
      → Distinct entries
      → write_all_home device entries s ≡ (ok tt, s')
      → Stored device s' entries
  write_all_home-Stored [] s s' d h = tt
  write_all_home-Stored ((address, bytes) ∷ rest) s s' (b, a, d) h =
      let (s1, e, later) = first_home device address bytes rest s s' h in
      let here : address * 8 % 2 ^ 64 ≡ address * 8 = omega arith in
      (
        keeps address rest s1 s' a d later
            ∙ disk.read_written (address * 8) 8 bytes s s1 (omega arith) (rw here at e),
        write_all_home-Stored rest s1 s' d later,
      )

module _ {S : Type 0} (device : BlockDevice S) (m : Mounted S) (journal : Bytes)
    (read : reader device m.disk
        (m.superblock.journal_start_block * 8 % 2 ^ 64)
        (m.superblock.journal_size_in_blocks * 8 % 2 ^ 32)
      ≡ some journal) where
  recovers :
      (found : Option (ℕ × List (ℕ × Bytes)))
      → parse_commit_record m.superblock.last_committed_transaction_id journal ≡ found
      → recover_journal_on_mount device m ≡ replay device found m
  unfolding recover_journal_on_mount
  recovers found e = rw (read, e) refl

  pub recover-nothing :
      parse_commit_record m.superblock.last_committed_transaction_id journal ≡ none
      → recover_journal_on_mount device m ≡ (ok false, m)
  unfolding replay
  recover-nothing e = recovers none e

  replay-fails :
      (id : ℕ) (entries : List (ℕ × Bytes)) (s1 : S)
      → write_all_home device entries m.disk ≡ (err input_output_error, s1)
      → replay device (some (id, entries)) m ≡ (err input_output_error, record m { disk = s1 })
  unfolding replay
  replay-fails id entries s1 e = rw e refl

  replay-writes :
      (id : ℕ) (entries : List (ℕ × Bytes)) (s1 : S)
      → write_all_home device entries m.disk ≡ (ok tt, s1)
      → replay device (some (id, entries)) m
        ≡ (finish device id >> pure true) (record m { disk = s1 })
  unfolding replay
  replay-writes id entries s1 e = rw e refl

  -- When the journal begins with the record of a transaction newer than the superblock's, whose
  -- blocks have distinct addresses below 2^60, and the device, a disk, takes the writes of the
  -- replay, recovery writes every block of the transaction to its place, where it is then read,
  -- and ends with the superblock's transaction id set.
  pub recover_journal_on_mount_lem :
      (id : ℕ) (entries : List (ℕ × Bytes)) (recorded : Recorded id entries) (rest : Bytes) (s1 : S)
      → IsDisk device
      → Distinct entries
      → journal ≡ recorded.bytes ++ rest
      → m.superblock.last_committed_transaction_id < id
      → write_all_home device entries m.disk ≡ (ok tt, s1)
      → (recover_journal_on_mount device m
          ≡ (finish device id >> pure true) (record m { disk = s1 }))
        × Stored device s1 entries
  recover_journal_on_mount_lem id entries recorded rest s1 disk d e newer w = (
    recovers (some (id, entries)) (
          ap (parse_commit_record m.superblock.last_committed_transaction_id) e
          ∙ recorded.parsed m.superblock.last_committed_transaction_id rest newer)
        ∙ replay-writes id entries s1 w,
    write_all_home-Stored device disk entries m.disk s1 d w,
  )

-- A transaction without blocks changes the superblock only.
pub commit-empty :
    {S : Type 0} (device : BlockDevice S) (transaction : BafsTransaction) (m : Mounted S)
    → commit_transaction device transaction [] m ≡ finish device transaction.transaction_id m
unfolding commit_transaction
commit-empty device transaction m = refl

-- A record that is larger than the journal area is refused as OutOfSpace before anything is
-- written.
write_bytes_to_journal-out_of_space :
    {S : Type 0} (device : BlockDevice S) (superblock : BafsSuperblock) (bytes : Bytes) (s : S)
    → superblock.journal_size_in_blocks * 4096 < length bytes
    → write_bytes_to_journal device superblock bytes s ≡ (err out_of_space, s)
unfolding write_bytes_to_journal
write_bytes_to_journal-out_of_space device superblock bytes s h = ground arith
