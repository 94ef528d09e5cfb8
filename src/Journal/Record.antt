-- ===== src/Journal/Record.antt =====
-- The commit record of src/journal.rs, built and parsed.
use bazzulto_bafs.Base.{
  ℕ, zero, suc, ◌+◌, ◌*◌, ◌%◌, ◌^◌, ◌≤◌, ◌<◌, ◌≡◌, refl, sym, ap, ◌∙◌, ◌==◌, ==_iff, true, false,
  some, List, [], ◌∷◌, ◌++◌, ltb, leb, length, length-append, length-replicate, take, replicate,
  arith,
}
use bazzulto_bafs.Bytes.{Bytes, All, to_le_bytes, read_le, slice, overwrite, length-to_le_bytes}
use bazzulto_bafs.Bytes.Slices.{length-overwrite, slice-overwrite}
use bazzulto_bafs.Checksum.{compute_crc32c}
use bazzulto_bafs.Checksum.Bounds.{compute_crc32c-lt}
use bazzulto_bafs.Error.{ok}
use bazzulto_bafs.Btree.Codec.Writes.{copy_ok, SameOutside}
use bazzulto_bafs.Btree.Codec.Items.{read_le_of, SameOutside-trans}
use bazzulto_bafs.Superblock.{same_bytes}
use bazzulto_bafs.Journal.Writes.{
  IsEntry, overwrite-SameOutside, Addressed, write_addresses_lem, Blocked, write_blocks_lem,
  HasAddresses-agree, HasBlocks-agree, reads_back,
}
use bazzulto_bafs.Journal.{
  journal_commit_record_magic, body_size, build_commit_record, read_addresses, read_blocks,
  parse_commit_record,
}

slice-append_left : (p n : ℕ) (a b : Bytes) → p + n ≤ length a → slice p n (a ++ b) ≡ slice p n a
unfolding slice take
slice-append_left zero zero a b h = refl
slice-append_left zero (suc n) [] b h = absurd (omega arith)
slice-append_left zero (suc n) (x ∷ a) b h =
    ap (λ t. x ∷ t) (slice-append_left zero n a b (omega arith))
slice-append_left (suc p) n [] b h = absurd (omega arith)
slice-append_left (suc p) n (x ∷ a) b h = slice-append_left p n a b (omega arith)

slice-take : (n : ℕ) (a : Bytes) → slice 0 n a ≡ take n a
unfolding slice
slice-take n a = refl

magic_matches : same_bytes journal_commit_record_magic journal_commit_record_magic ≡ true
unfolding same_bytes
magic_matches = refl

parse_of :
    (last id n : ℕ) (journal : Bytes) (entries : List (ℕ × Bytes))
    → ltb (length journal) 24 ≡ false
    → slice 0 8 journal ≡ journal_commit_record_magic
    → read_le 8 8 journal ≡ id
    → leb id last ≡ false
    → read_le 16 4 journal ≡ n
    → ltb (length journal) (body_size n + 4) ≡ false
    → (read_le (body_size n) 4 journal == compute_crc32c (take (body_size n) journal)) ≡ true
    → read_blocks (read_addresses n 20 journal) (20 + 8 * n) journal ≡ entries
    → parse_commit_record last journal ≡ some (id, entries)
unfolding parse_commit_record
parse_of last id n journal entries long magic i newer c complete seal blocks =
    rw (magic, magic_matches, i, c) (rw (long, newer, complete, seal, blocks) refl)

-- A record that was built, and what recovery makes of it in front of any bytes.
pub record Recorded (id : ℕ) (entries : List (ℕ × Bytes)) : Type 0 where
  pub bytes : Bytes
  pub built : build_commit_record id entries ≡ ok bytes
  pub size : length bytes ≡ 28 + 4104 * length entries
  pub parsed :
      (last : ℕ) (rest : Bytes)
      → last < id
      → parse_commit_record last (bytes ++ rest) ≡ some (id, entries)

module _ (id : ℕ) (entries : List (ℕ × Bytes)) (fits : All IsEntry entries)
    (few : length entries < 2 ^ 32) (i : id < 2 ^ 64) where
  abbrev n : ℕ
  n = length entries

  abbrev b0 : Bytes
  b0 = replicate (body_size n + 4) 0

  abbrev b1 : Bytes
  b1 = overwrite 0 journal_commit_record_magic b0

  abbrev b2 : Bytes
  b2 = overwrite 8 (to_le_bytes 8 id) b1

  abbrev b3 : Bytes
  b3 = overwrite 16 (to_le_bytes 4 n) b2

  length-b3 : length b3 ≡ body_size n + 4
  length-b3 =
      length-overwrite 16 (to_le_bytes 4 n) b2
      ∙ length-overwrite 8 (to_le_bytes 8 id) b1
      ∙ length-overwrite 0 journal_commit_record_magic b0
      ∙ length-replicate {A = ℕ} (body_size n + 4) 0

  a : Addressed entries 20 b3
  a = write_addresses_lem entries 20 b3 (omega (arith, length-b3))

  d : Blocked entries (20 + 8 * n) a.after
  d =
      write_blocks_lem entries (20 + 8 * n) a.after fits
        (omega (arith, length-b3, a.outside.same_length))

  abbrev crc : ℕ
  crc = compute_crc32c (take (body_size n) d.after)

  abbrev b6 : Bytes
  b6 = overwrite (body_size n) (to_le_bytes 4 crc) d.after

  length-d : length d.after ≡ body_size n + 4
  length-d = d.outside.same_length ∙ a.outside.same_length ∙ length-b3

  length-b6 : length b6 ≡ body_size n + 4
  length-b6 = length-overwrite (body_size n) (to_le_bytes 4 crc) d.after ∙ length-d

  builds : build_commit_record id entries ≡ ok b6
  unfolding build_commit_record
  builds =
      let l0 = length-replicate {A = ℕ} (body_size n + 4) 0 in
      let l1 = length-overwrite 0 journal_commit_record_magic b0 in
      let l2 = length-overwrite 8 (to_le_bytes 8 id) b1 in
      let n8 = length-to_le_bytes 8 id in
      let n4 = length-to_le_bytes 4 n in
      let c4 = length-to_le_bytes 4 crc in
      let small : n % 2 ^ 32 ≡ n = omega (arith, few) in
      rw small (
        rw
          (
            copy_ok b0 0 journal_commit_record_magic (omega arith),
            copy_ok b1 8 (to_le_bytes 8 id) (omega arith),
            copy_ok b2 16 (to_le_bytes 4 n) (omega arith),
            a.written,
            d.written,
          )
          (copy_ok d.after (body_size n) (to_le_bytes 4 crc) (omega (arith, length-d))))

  -- What each later write leaves.
  last_write : SameOutside (body_size n) (body_size n + 4) d.after b6
  last_write =
      overwrite-SameOutside (body_size n) 4 (to_le_bytes 4 crc) d.after (length-to_le_bytes 4 crc)

  from_a : SameOutside (20 + 8 * n) (body_size n + 4) a.after b6
  from_a =
      SameOutside-trans (20 + 8 * n) (20 + 8 * n + 4096 * n) (body_size n) (body_size n + 4)
        (20 + 8 * n) (body_size n + 4) (omega arith) (omega arith) (omega arith) (omega arith)
        d.outside last_write

  from_b3 : SameOutside 20 (body_size n + 4) b3 b6
  from_b3 =
      SameOutside-trans 20 (20 + 8 * n) (20 + 8 * n) (body_size n + 4) 20 (body_size n + 4)
        (omega arith) (omega arith) (omega arith) (omega arith) a.outside from_a

  from_b2 : SameOutside 16 (body_size n + 4) b2 b6
  from_b2 =
      SameOutside-trans 16 20 20 (body_size n + 4) 16 (body_size n + 4) (omega arith) (omega arith)
        (omega arith) (omega arith)
        (overwrite-SameOutside 16 4 (to_le_bytes 4 n) b2 (length-to_le_bytes 4 n)) from_b3

  from_b1 : SameOutside 8 (body_size n + 4) b1 b6
  from_b1 =
      SameOutside-trans 8 16 16 (body_size n + 4) 8 (body_size n + 4) (omega arith) (omega arith)
        (omega arith) (omega arith)
        (overwrite-SameOutside 8 8 (to_le_bytes 8 id) b1 (length-to_le_bytes 8 id)) from_b2

  module _ (rest : Bytes) where
    abbrev journal : Bytes
    journal = b6 ++ rest

    length-journal : length journal ≡ body_size n + 4 + length rest
    length-journal = length-append b6 rest ∙ ap (λ l. l + length rest) length-b6

    in_journal : (p k : ℕ) → p + k ≤ body_size n + 4 → slice p k journal ≡ slice p k b6
    in_journal p k h = slice-append_left p k b6 rest (omega (arith, length-b6))

    magic_read : slice 0 8 journal ≡ journal_commit_record_magic
    magic_read =
        in_journal 0 8 (omega arith)
        ∙ from_b1.low 0 8 (omega arith)
        ∙ slice-overwrite 0 8 journal_commit_record_magic b0 refl
            (omega (arith, length-replicate {A = ℕ} (body_size n + 4) 0))

    id_read : read_le 8 8 journal ≡ id
    id_read =
        read_le_of 8 id 8 journal
          (in_journal 8 8 (omega arith)
            ∙ from_b2.low 8 8 (omega arith)
            ∙ slice-overwrite 8 8 (to_le_bytes 8 id) b1 (length-to_le_bytes 8 id) (
                omega (
                  arith,
                  length-overwrite 0 journal_commit_record_magic b0,
                  length-replicate {A = ℕ} (body_size n + 4) 0,
                )))
          i

    count_read : read_le 16 4 journal ≡ n
    count_read =
        read_le_of 4 n 16 journal
          (in_journal 16 4 (omega arith)
            ∙ from_b3.low 16 4 (omega arith)
            ∙ slice-overwrite 16 4 (to_le_bytes 4 n) b2 (length-to_le_bytes 4 n)
                (omega (arith, length-b3, length-overwrite 16 (to_le_bytes 4 n) b2)))
          few

    covered : take (body_size n) journal ≡ take (body_size n) d.after
    covered =
        sym (slice-take (body_size n) journal)
        ∙ in_journal 0 (body_size n) (omega arith)
        ∙ last_write.low 0 (body_size n) (omega arith)
        ∙ slice-take (body_size n) d.after

    seal_read : read_le (body_size n) 4 journal ≡ crc
    seal_read =
        read_le_of 4 crc (body_size n) journal
          (in_journal (body_size n) 4 (omega arith)
            ∙ slice-overwrite (body_size n) 4 (to_le_bytes 4 crc) d.after (length-to_le_bytes 4 crc)
                (omega (arith, length-d)))
          (compute_crc32c-lt _)

    blocks_read : read_blocks (read_addresses n 20 journal) (20 + 8 * n) journal ≡ entries
    blocks_read =
        reads_back entries 20 (20 + 8 * n) journal fits
          (HasAddresses-agree entries 20 a.after journal
            (λ q k l u. in_journal q k (omega arith) ∙ from_a.low q k (omega arith)) a.has)
          (HasBlocks-agree entries (20 + 8 * n) d.after journal
            (λ q k l u. in_journal q k (omega arith) ∙ last_write.low q k (omega arith)) d.has)

    parses : (last : ℕ) → last < id → parse_commit_record last journal ≡ some (id, entries)
    parses last newer =
        parse_of last id n journal entries (ground (arith, length-journal)) magic_read id_read
          (ground arith) count_read (ground (arith, length-journal))
          ((==_iff _ _).1 (seal_read ∙ sym (ap compute_crc32c covered))) blocks_read

  -- For a transaction with a 64-bit id of n < 2^32 whole blocks with 64-bit addresses, building
  -- the commit record succeeds with 28 + 4104 n bytes, four more than the documented layout has,
  -- and parsing a journal that begins with it gives back the transaction id and the blocks when
  -- the id is newer than the superblock's.
  pub commit_record_lem : Recorded id entries
  commit_record_lem = record {
    bytes = b6;
    built = builds;
    size = omega (arith, length-b6);
    parsed = λ last rest newer. parses rest last newer;
  }
