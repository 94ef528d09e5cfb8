-- ===== src/Journal/Finish.antt =====
-- How a commit of src/journal.rs ends, and what a journal that was committed has left to replay.
use bazzulto_bafs.Base.{ℕ, ◌≤◌, ◌≡◌, refl, sym, ap, ◌∙◌, none, List, [], ◌∷◌, arith}
use bazzulto_bafs.Bytes.{Bytes, read_le}
use bazzulto_bafs.Device.{BlockDevice, IsDisk, reader}
use bazzulto_bafs.Error.{ok}
use bazzulto_bafs.Exec.{Exec, lift, gets, ◌>>=◌, >>=_ok}
use bazzulto_bafs.Superblock.{
  BafsSuperblock, seal_with_checksum, write_superblock_to_device, read_superblock_from_device,
}
use bazzulto_bafs.Superblock.Writes.{IsCurrent, Copies, write_superblock_to_device_lem}
use mathlib.Core.Path.{subst}
use bazzulto_bafs.Journal.{
  Mounted, begin_transaction, commit_transaction, finish, on_disk, write_all_home,
  write_bytes_to_journal, build_commit_record, parse_commit_record,
}

-- A journal whose transaction is not newer than the superblock's has nothing to replay.
pub parse-old :
    (last : ℕ) (journal : Bytes)
    → read_le 8 8 journal ≤ last
    → parse_commit_record last journal ≡ none
unfolding parse_commit_record
parse-old last journal h = ground arith

module _ {S : Type 0} (device : BlockDevice S) where
  -- A commit that succeeds ends with the superblock of before under the new transaction id.
  pub commit-finish :
      (id : ℕ) (cache : List (ℕ × Bytes)) (m c : Mounted S)
      → commit_transaction device (begin_transaction id) cache m ≡ (ok tt, c)
      → (d : S) × (finish device id (record { disk = d; superblock = m.superblock }) ≡ (ok tt, c))
  unfolding commit_transaction
  commit-finish id [] m c e = (m.disk, e)
  commit-finish id (entry ∷ entries) m c e =
      let cache = entry ∷ entries in
      let rest3 : Unit {0} → Exec (Mounted S) (Unit {0}) = λ _. finish device id in
      let rest2 : Unit {0} → Exec (Mounted S) (Unit {0}) =
        λ _. on_disk (write_all_home device cache) >>= rest3 in
      let rest1 : Bytes → Exec (Mounted S) (Unit {0}) = λ buffer. gets (λ n. n.superblock) >>= λ sb.
      on_disk (write_bytes_to_journal device sb buffer) >>= rest2 in
      let (buffer, m1, built, e1) = >>=_ok (lift (build_commit_record id cache)) rest1 m c tt e in
      let same : m1 ≡ m = cc built in
      let (done1, m2, written, e2) =
        >>=_ok (on_disk (write_bytes_to_journal device m1.superblock buffer)) rest2 m1 c tt e1 in
      let (done2, m3, homed, e3) =
        >>=_ok (on_disk (write_all_home device cache)) rest3 m2 c tt e2 in
      let kept : m3.superblock ≡ m.superblock =
        sym (ap (λ r. r.1.superblock) homed)
        ∙ sym (ap (λ r. r.1.superblock) written)
        ∙ ap (λ n. n.superblock) same in
      (
        m3.disk,
        ap (λ sb. finish device id (record { disk = m3.disk; superblock = sb })) (sym kept) ∙ e3,
      )

  -- The superblock under the new transaction id.
  abbrev pub under_id : ℕ → BafsSuperblock → BafsSuperblock
  under_id id superblock = record superblock { last_committed_transaction_id = id }

  finish_runs :
      (id : ℕ) (m : Mounted S)
      → let written = write_superblock_to_device device (under_id id m.superblock) m.disk in
        finish device id m ≡ (
          written.0,
          record { disk = written.1; superblock = seal_with_checksum (under_id id m.superblock) },
        )
  unfolding finish
  finish_runs id m = refl

  -- What the end of a commit that succeeds leaves in memory and, on a disk, in the primary copy.
  pub finish-reads :
      (id : ℕ) (m c : Mounted S)
      → IsDisk device
      → IsCurrent (under_id id m.superblock)
      → finish device id m ≡ (ok tt, c)
      → (c.superblock ≡ seal_with_checksum (under_id id m.superblock))
        × (read_superblock_from_device (reader device c.disk) 1
            ≡ ok (seal_with_checksum (under_id id m.superblock)))
  finish-reads id m c disk h e =
      let run = sym (finish_runs id m) ∙ e in
      let written = write_superblock_to_device device (under_id id m.superblock) m.disk in
      let outcome : written ≡ (ok tt, c.disk) = λ i. ((run i).0, (run i).1.disk) in
      let copies =
        subst (Copies device disk (under_id id m.superblock) h m.disk) outcome
          (write_superblock_to_device_lem device disk (under_id id m.superblock) h m.disk) in
      (sym (ap (λ r. r.1.superblock) run), copies.0)
