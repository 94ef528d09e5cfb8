-- ===== src/Journal/Tests.antt =====
-- The theorems on the journal at a concrete transaction.
use bazzulto_bafs.Base.{
  ℕ, ◌≡◌, ◌⊎◌, inl, inr, sym, ap, ◌∙◌, Bool, false, refl, List, [], ◌∷◌, ◌++◌, true, replicate,
  take, drop, length-replicate, arith,
}
use bazzulto_bafs.Bytes.{Bytes, All, overwrite}
use bazzulto_bafs.Device.{BlockDevice, IsDisk}
use bazzulto_bafs.Error.{ok, err, input_output_error}
use bazzulto_bafs.Exec.{pure, ◌>>◌}
use bazzulto_bafs.Superblock.Tests.{
  Log, log_device, log_device-IsDisk, sample, read_log, read_log-same, read_log-other,
}
use bazzulto_bafs.Journal.{
  Mounted, write_all_home, write_chunks, write_home, finish, recover_journal_on_mount,
}
use bazzulto_bafs.Journal.Recovery.{Distinct, Stored, recover_journal_on_mount_lem}
use bazzulto_bafs.Journal.Crash.{Apart, write_all_home-interrupted}
use bazzulto_bafs.Journal.Writes.{IsEntry}
use bazzulto_bafs.Journal.Record.{Recorded, commit_record_lem}

abbrev entries : List (ℕ × Bytes)
entries = (700, replicate 4096 1) ∷ (701, replicate 4096 2) ∷ []

entries-IsEntry : All IsEntry entries
entries-IsEntry = (
  (omega arith, length-replicate {A = ℕ} 4096 1),
  ((omega arith, length-replicate {A = ℕ} 4096 2), tt),
)

commit_record_lem_example : Recorded 5 entries
commit_record_lem_example = commit_record_lem 5 entries entries-IsEntry (omega arith) (omega arith)

recorded : Recorded 5 entries
recorded = commit_record_lem 5 entries entries-IsEntry (omega arith) (omega arith)

abbrev journal : Bytes
journal = recorded.bytes ++ []

-- The journal area of the sample's disk holds the record.
abbrev crashed : Mounted Log
crashed = record { disk = (24, 5240, journal) ∷ []; superblock = sample }

abbrev replayed : Log
replayed = (5608, 8, replicate 4096 2) ∷ (5600, 8, replicate 4096 1) ∷ crashed.disk

replays : write_all_home log_device entries crashed.disk ≡ (ok tt, replayed)
unfolding write_all_home write_home
replays = refl

entries-Distinct : Distinct entries
entries-Distinct = (omega arith, (refl, tt), (omega arith, tt, tt))

recover_journal_on_mount_lem_example :
    (recover_journal_on_mount log_device crashed
      ≡ (finish log_device 5 >> pure true) (record crashed { disk = replayed }))
    × Stored log_device replayed entries
recover_journal_on_mount_lem_example =
    recover_journal_on_mount_lem log_device crashed journal
      (read_log-same 24 5240 journal [] (omega arith)) 5 entries recorded [] replayed
      log_device-IsDisk entries-Distinct refl (omega arith) replays

-- One chunk of a record, filled up to a block.
one_chunk :
    write_chunks log_device 1 3 (7 ∷ []) []
    ≡ (ok tt, (24, 8, overwrite 0 (7 ∷ []) (replicate 4096 0)) ∷ [])
unfolding write_chunks write_home take drop
one_chunk = refl

-- A disk whose next writes succeed or fail as planned, and then all succeed.
abbrev Planned : Type 0
Planned = List Bool × Log

planned_write : ℕ → ℕ → Bytes → Planned → Bool × Planned
planned_write lba count buffer ([], log) = (true, ([], (lba, count, buffer) ∷ log))
planned_write lba count buffer (true ∷ plan, log) = (true, (plan, (lba, count, buffer) ∷ log))
planned_write lba count buffer (false ∷ plan, log) = (false, (plan, log))

abbrev planned_device : BlockDevice Planned
planned_device = record {
  read_sectors = λ lba count s. read_log lba count s.1;
  write_sectors = planned_write;
  total_sector_count = λ s. 1000000;
}

-- A write is one of the log or none.
writes_log :
    (lba count : ℕ) (buffer : Bytes) (s s' : Planned) (success : Bool)
    → planned_write lba count buffer s ≡ (success, s')
    → ((success ≡ true) × ((lba, count, buffer) ∷ s.1 ≡ s'.1)) ⊎ ((success ≡ false) × (s.1 ≡ s'.1))
unfolding planned_write
writes_log lba count buffer ([], log) s' success e = inl (ap (λ r. r.0) (sym e), ap (λ r. r.1.1) e)
writes_log lba count buffer (true ∷ plan, log) s' success e =
    inl (ap (λ r. r.0) (sym e), ap (λ r. r.1.1) e)
writes_log lba count buffer (false ∷ plan, log) s' success e =
    inr (ap (λ r. r.0) (sym e), ap (λ r. r.1.1) e)

planned_device-IsDisk : IsDisk planned_device
planned_device-IsDisk = record {
  read_written = λ lba count buffer s s' h e. elim (writes_log lba count buffer s s' true e) [
    | inl (_, l) ↦ ap (λ t. read_log lba count t) (sym l) ∙ read_log-same lba count buffer s.1 h
    | inr (failed, _) ↦ absurd (cc failed)
  ];
  read_other = λ lba count buffer s s' success e lba' count' apart.
      elim (writes_log lba count buffer s s' success e) [
        | inl (_, l) ↦
            ap (λ t. read_log lba' count' t) (sym l)
            ∙ read_log-other lba count lba' count' buffer s.1 apart
        | inr (_, l) ↦ ap (λ t. read_log lba' count' t) (sym l)
      ];
}

-- The journal holds the record; the second block will not be written.
abbrev before_crash : Mounted Planned
before_crash = record { disk = (true ∷ false ∷ [], (24, 5240, journal) ∷ []); superblock = sample }

abbrev at_crash : Planned
at_crash = ([], (5600, 8, replicate 4096 1) ∷ before_crash.disk.1)

crash : write_all_home planned_device entries before_crash.disk ≡ (err input_output_error, at_crash)
unfolding write_all_home write_home planned_write
crash = refl

abbrev after_replay : Planned
after_replay = ([], (5608, 8, replicate 4096 2) ∷ (5600, 8, replicate 4096 1) ∷ at_crash.1)

writes_again : write_all_home planned_device entries at_crash ≡ (ok tt, after_replay)
unfolding write_all_home write_home planned_write
writes_again = refl

write_all_home-interrupted_example :
    (recover_journal_on_mount planned_device (record before_crash { disk = at_crash })
      ≡ (finish planned_device 5 >> pure true) (record before_crash { disk = after_replay }))
    × Stored planned_device after_replay entries
    × ((lba count : ℕ)
        → Apart lba count entries
        → read_log lba count after_replay.1 ≡ read_log lba count before_crash.disk.1)
write_all_home-interrupted_example =
    write_all_home-interrupted planned_device planned_device-IsDisk before_crash 5 entries recorded
      [] at_crash after_replay (err input_output_error) entries-Distinct
      (inr (omega arith), (inr (omega arith), tt)) (read_log-same 24 5240 journal [] (omega arith))
      (omega arith) crash writes_again
