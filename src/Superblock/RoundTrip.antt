-- ===== src/Superblock/RoundTrip.antt =====
-- The bytes of the superblock, and the layout formulas of src/superblock.rs.
use bazzulto_bafs.Base.{
  ℕ, ◌^◌, ◌≤◌, ◌<◌, ◌≡◌, refl, ap, ◌∙◌, [], ◌∷◌, ◌++◌, length, length-append, arith,
}
use mathlib.Core.Path.{subst}
use mathlib.Core.List.{append_assoc, append-nil}
use bazzulto_bafs.Bytes.{Bytes, read_le, slice}
use bazzulto_bafs.Bytes.Layout.{
  encode, FitWidths, HasFields, encode-HasFields, slice-append, length-encode,
}
use bazzulto_bafs.Superblock.{
  BafsSuperblock, superblock_fields, serialise_superblock_to_bytes,
  deserialise_superblock_from_bytes, compute_journal_size_in_blocks, compute_data_area_start_block,
}

-- The fields fit their places in the struct.
pub record IsSuperblock (s : BafsSuperblock) : Type 0 where
  pub magic_size : length s.magic_number ≡ 8
  pub fields_fit : FitWidths (superblock_fields s)
  pub reserved_size : length s.reserved ≡ 348
  pub checksum_fits : s.superblock_checksum < 2 ^ 32

module _ (s : BafsSuperblock) (h : IsSuperblock s) where
  pub length-serialise : length (serialise_superblock_to_bytes s) ≡ 512
  unfolding serialise_superblock_to_bytes
  length-serialise =
      let seal = encode ((4, s.superblock_checksum) ∷ []) in
      let fields = encode (superblock_fields s) in
      omega (
        arith,
        length-append s.magic_number (fields ++ (s.reserved ++ seal)),
        length-append fields (s.reserved ++ seal),
        length-append s.reserved seal,
        length-encode (superblock_fields s),
        length-encode ((4, s.superblock_checksum) ∷ []),
        h.magic_size,
        h.reserved_size,
      )

  magic_read : slice 0 8 (serialise_superblock_to_bytes s) ≡ s.magic_number
  unfolding serialise_superblock_to_bytes
  magic_read =
      subst (λ n. slice 0 n (serialise_superblock_to_bytes s) ≡ s.magic_number) h.magic_size
        (slice-append [] s.magic_number (
          encode (superblock_fields s) ++ (s.reserved ++ encode ((4, s.superblock_checksum) ∷ []))))

  fields_read : HasFields (superblock_fields s) 8 (serialise_superblock_to_bytes s)
  unfolding serialise_superblock_to_bytes
  fields_read =
      encode-HasFields (superblock_fields s) s.magic_number
        (s.reserved ++ encode ((4, s.superblock_checksum) ∷ [])) 8 h.fields_fit h.magic_size

  abbrev pub front : Bytes
  front = s.magic_number ++ encode (superblock_fields s)

  pub front_size : length front ≡ 160
  front_size = omega (
    arith,
    length-append s.magic_number (encode (superblock_fields s)),
    length-encode (superblock_fields s),
    h.magic_size,
  )

  pub regroup :
      front ++ (s.reserved ++ encode ((4, s.superblock_checksum) ∷ []))
      ≡ serialise_superblock_to_bytes s
  unfolding serialise_superblock_to_bytes
  regroup =
      append_assoc s.magic_number (encode (superblock_fields s))
        (s.reserved ++ encode ((4, s.superblock_checksum) ∷ []))

  reserved_read : slice 160 348 (serialise_superblock_to_bytes s) ≡ s.reserved
  reserved_read =
      subst (λ bs. slice 160 348 bs ≡ s.reserved) regroup
        (subst
          (λ p.
            slice p 348 (front ++ (s.reserved ++ encode ((4, s.superblock_checksum) ∷ [])))
            ≡ s.reserved)
          front_size
          (subst
            (λ n.
              slice (length front) n
                (front ++ (s.reserved ++ encode ((4, s.superblock_checksum) ∷ [])))
              ≡ s.reserved)
            h.reserved_size
            (slice-append front s.reserved (encode ((4, s.superblock_checksum) ∷ [])))))

  checksum_read : read_le 508 4 (serialise_superblock_to_bytes s) ≡ s.superblock_checksum
  checksum_read =
      let seal = encode ((4, s.superblock_checksum) ∷ []) in
      let (r, _) =
        encode-HasFields ((4, s.superblock_checksum) ∷ []) (front ++ s.reserved) [] 508
          (h.checksum_fits, tt)
          (omega (arith, length-append front s.reserved, front_size, h.reserved_size)) in
      subst (λ bs. read_le 508 4 bs ≡ s.superblock_checksum) regroup
        (subst (λ bs. read_le 508 4 bs ≡ s.superblock_checksum)
          (append_assoc front s.reserved (seal ++ [])
            ∙ ap (λ bs. front ++ (s.reserved ++ bs)) (append-nil seal))
          r)

  -- A superblock whose fields fit their places is read back from its bytes.
  pub superblock-RoundTrip : deserialise_superblock_from_bytes (serialise_superblock_to_bytes s) ≡ s
  unfolding deserialise_superblock_from_bytes
  superblock-RoundTrip =
      let (
        r1,
        (
          r2,
          (
            r3,
            (
              r4,
              (
                r5,
                (
                  r6,
                  (
                    r7,
                    (
                      r8,
                      (
                        r9,
                        (
                          r10,
                          (
                            r11,
                            (r12, (r13, (r14, (r15, (r16, (r17, (r18, (r19, (r20, (r21, _)))))))))),
                          ),
                        ),
                      ),
                    ),
                  ),
                ),
              ),
            ),
          ),
        ),
      ) =
        fields_read in
      rw (magic_read, reserved_read, checksum_read, r1, r2, r3, r4, r5, r6, r7)
        (rw (r8, r9, r10, r11, r12, r13, r14, r15, r16, r17, r18, r19, r20, r21) refl)

-- On a disk of at least 259 blocks the data area starts between block 259 and block 16387 and not
-- behind the end of the disk.
pub compute_data_area_start_block-le :
    (total : ℕ)
    → 259 ≤ total
    → (259 ≤ compute_data_area_start_block total)
      × (compute_data_area_start_block total ≤ 16387)
      × (compute_data_area_start_block total ≤ total)
unfolding compute_data_area_start_block compute_journal_size_in_blocks
compute_data_area_start_block-le total h = ground arith
