-- ===== src/Journal/Crash.antt =====
-- A crash of `commit_transaction` of src/journal.rs between its writes of blocks to their places, and
-- the recovery after it.
use bazzulto_bafs.Base.{
  ℕ, ◌+◌, ◌*◌, ◌%◌, ◌^◌, ◌≤◌, ◌<◌, ◌≡◌, ◌⊎◌, refl, sym, ap, ◌∙◌, Bool, true, false, Option, some,
  List, [], ◌∷◌, ◌++◌, arith,
}
use bazzulto_bafs.Bytes.{Bytes}
use bazzulto_bafs.Device.{BlockDevice, IsDisk, reader}
use bazzulto_bafs.Error.{Result, ok}
use bazzulto_bafs.Exec.{pure, ◌>>◌}
use bazzulto_bafs.Journal.{Mounted, write_all_home, finish, recover_journal_on_mount}
use bazzulto_bafs.Journal.Record.{Recorded}
use bazzulto_bafs.Journal.Recovery.{
  Distinct, Stored, all_home-true, all_home-false, all_home-nil, recover_journal_on_mount_lem,
}

-- No block of a list reaches a range of sectors.
abbrev pub Apart : ℕ → ℕ → List (ℕ × Bytes) → Type 0
Apart lba count [] = Unit
Apart lba count ((address, _) ∷ rest) =
    ((address * 8 + 8 ≤ lba) ⊎ (lba + count ≤ address * 8)) × Apart lba count rest

module _ {S : Type 0} (device : BlockDevice S) (address : ℕ) (bytes : Bytes)
    (rest : List (ℕ × Bytes)) (s s' : S) (outcome : Result (Unit {0}))
    (run : write_all_home device ((address, bytes) ∷ rest) s ≡ (outcome, s')) where
  -- The first write fails and the run ends there, or it succeeds and the others follow.
  first_write :
      (P : S → Type 0)
      → ((s1 : S)
          → device.write_sectors (address * 8 % 2 ^ 64) 8 bytes s ≡ (true, s1)
          → write_all_home device rest s1 ≡ (outcome, s')
          → P s')
      → (device.write_sectors (address * 8 % 2 ^ 64) 8 bytes s ≡ (false, s') → P s')
      → P s'
  first_write P goes stops = go (device.write_sectors (address * 8 % 2 ^ 64) 8 bytes s) refl
    where
      go : (r : Bool × S) → device.write_sectors (address * 8 % 2 ^ 64) 8 bytes s ≡ r → P s'
      go (true, s1) e = goes s1 e (sym (all_home-true device address bytes rest s s1 e) ∙ run)
      go (false, s1) e =
          let ends : s1 ≡ s' =
            ap (λ r. r.1) (sym (all_home-false device address bytes rest s s1 e) ∙ run) in
          stops (e ∙ ap (λ t. (false, t)) ends)

module _ {S : Type 0} (device : BlockDevice S) (disk : IsDisk device) where
  -- However far the writes come, sectors apart from the blocks read as before.
  pub write_all_home-Apart :
      (entries : List (ℕ × Bytes)) (lba count : ℕ) (s s' : S) (outcome : Result (Unit {0}))
      → Distinct entries
      → Apart lba count entries
      → write_all_home device entries s ≡ (outcome, s')
      → device.read_sectors lba count s' ≡ device.read_sectors lba count s
  write_all_home-Apart [] lba count s s' outcome d a w =
      ap (λ t. device.read_sectors lba count t) (ap (λ r. r.1) (sym w ∙ all_home-nil device s))
  write_all_home-Apart ((address, bytes) ∷ rest) lba count s s' outcome (b, _, d) (apart, a) w =
      let here : address * 8 % 2 ^ 64 ≡ address * 8 = omega arith in
      let reads : S → Option Bytes = device.read_sectors lba count in
      first_write device address bytes rest s s' outcome w (λ t. reads t ≡ reads s)
        (λ s1 e later.
          write_all_home-Apart rest lba count s1 s' outcome d a later
          ∙ disk.read_other (address * 8) 8 bytes s s1 true (rw here at e) lba count apart)
        (λ e. disk.read_other (address * 8) 8 bytes s s' false (rw here at e) lba count apart)

  module _ (m : Mounted S) where
    abbrev journal_lba : ℕ
    journal_lba = m.superblock.journal_start_block * 8 % 2 ^ 64

    abbrev journal_sectors : ℕ
    journal_sectors = m.superblock.journal_size_in_blocks * 8 % 2 ^ 32

    -- On a disk whose journal area begins with the record of a transaction newer than the
    -- superblock's, whose blocks have distinct addresses below 2^60 and lie outside the journal
    -- area: however far the writes of the blocks to their places come before a crash, if the
    -- device then takes the writes of the replay, recovery with the old superblock writes every
    -- block of the transaction to its place, where it is then read, leaves sectors apart from the
    -- blocks as they read before the commit wrote them, and goes on to set the superblock's
    -- transaction id.
    pub write_all_home-interrupted :
        (id : ℕ) (entries : List (ℕ × Bytes)) (recorded : Recorded id entries) (rest : Bytes)
        (s1 s2 : S) (outcome : Result (Unit {0}))
        → Distinct entries
        → Apart journal_lba journal_sectors entries
        → reader device m.disk journal_lba journal_sectors ≡ some (recorded.bytes ++ rest)
        → m.superblock.last_committed_transaction_id < id
        → write_all_home device entries m.disk ≡ (outcome, s1)
        → write_all_home device entries s1 ≡ (ok tt, s2)
        → (recover_journal_on_mount device (record m { disk = s1 })
            ≡ (finish device id >> pure true) (record m { disk = s2 }))
          × Stored device s2 entries
          × ((lba count : ℕ)
              → Apart lba count entries
              → device.read_sectors lba count s2 ≡ device.read_sectors lba count m.disk)
    write_all_home-interrupted id entries recorded rest s1 s2 outcome d apart journal newer w
          again =
        let journal1 =
          write_all_home-Apart entries journal_lba journal_sectors m.disk s1 outcome d apart w
          ∙ journal in
        let (recovers, stored) =
          recover_journal_on_mount_lem device (record m { disk = s1 }) (recorded.bytes ++ rest)
            journal1 id entries recorded rest s2 disk d refl newer again in
        (
          recovers,
          stored,
          λ lba count a.
              write_all_home-Apart entries lba count s1 s2 (ok tt) d a again
              ∙ write_all_home-Apart entries lba count m.disk s1 outcome d a w,
        )
