-- ===== src/Volume/Files/Contents.antt =====
-- What `volume_read_file_data` of src/volume.rs puts in the buffer, in terms of the checked blocks of
-- the file.
use bazzulto_bafs.Base.{
  ℕ, zero, suc, ◌+◌, ◌-◌, ◌%◌, ◌^◌, ◌≤◌, ◌<◌, ◌≡◌, refl, sym, ap, ◌∙◌, true, ltb, leb, length,
  Bool-cases, inl, inr, arith, [], ◌∷◌, ◌++◌, take, drop,
}
use native.Mathlib.Nat.{zero-add, suc-add}
use bazzulto_bafs.Bytes.{Bytes, slice, overwrite}
use bazzulto_bafs.Bytes.Slices.{length-overwrite}
use bazzulto_bafs.Bytes.Everywhere.{length-take, length-drop, take-append-drop}
use bazzulto_bafs.Device.{BlockDevice}
use bazzulto_bafs.Error.{Result, ok}
use bazzulto_bafs.Inode.{BafsInode, is_regular_file}
use bazzulto_bafs.Volume.{BafsVolume, volume_read_inode}
use bazzulto_bafs.Volume.Files.{
  lesser, copied, block_at, copy_from_block, read_step, read_loop, read_from_inode,
  volume_read_file_data,
}
use bazzulto_bafs.Volume.Files.Reads.{loop_done, loop_more}

-- Two writes one behind the other are one.
overwrite-overwrite :
    (p : ℕ) (xs ys bs : Bytes)
    → overwrite (p + length xs) ys (overwrite p xs bs) ≡ overwrite p (xs ++ ys) bs
unfolding overwrite
overwrite-overwrite zero [] ys bs = refl
overwrite-overwrite zero (x ∷ xs) ys [] = rw zero-add refl
overwrite-overwrite zero (x ∷ xs) ys (b ∷ bs) =
    let later = overwrite-overwrite zero xs ys bs in
    rw zero-add (ap (λ t. x ∷ t) (rw zero-add at later))
overwrite-overwrite (suc p) xs ys [] = rw suc-add refl
overwrite-overwrite (suc p) xs ys (b ∷ bs) =
    rw suc-add (ap (λ t. b ∷ t) (overwrite-overwrite p xs ys bs))

overwrite-nil : (p : ℕ) (bs : Bytes) → overwrite p [] bs ≡ bs
unfolding overwrite
overwrite-nil zero bs = refl
overwrite-nil (suc p) [] = refl
overwrite-nil (suc p) (b ∷ bs) = ap (λ t. b ∷ t) (overwrite-nil p bs)

drop-all : (i : ℕ) (bs : Bytes) → length bs ≤ i → drop i bs ≡ []
unfolding drop
drop-all zero [] h = refl
drop-all zero (b ∷ bs) h = absurd (omega arith)
drop-all (suc i) [] h = refl
drop-all (suc i) (b ∷ bs) h = drop-all i bs (omega arith)

-- A part and what is behind it.
take-drop : (i n : ℕ) (bs : Bytes) → take n (drop i bs) ++ drop (i + n) bs ≡ drop i bs
unfolding drop take
take-drop zero n bs = rw zero-add (take-append-drop n bs)
take-drop (suc i) zero [] = rw suc-add refl
take-drop (suc i) (suc n) [] = rw suc-add refl
take-drop (suc i) n (b ∷ bs) = rw suc-add (take-drop i n bs)

module _ {S : Type 0} (device : BlockDevice S) (volume : BafsVolume S) (number start : ℕ)
    (content : Bytes) where
  abbrev size : ℕ
  size = length content

  -- The block that has a byte of the content has the bytes that follow too, as far as it goes.
  pub record ReadableAt (i : ℕ) : Type 0 where
    pub offset_within_block : ℕ
    pub block : Bytes
    pub located :
        block_at device volume number ((start + i) % 2 ^ 64) ≡ ok (offset_within_block, block)
    pub inside : offset_within_block < 4096
    pub whole : length block ≡ 4096
    pub agrees :
        slice offset_within_block (copied offset_within_block size i) block
        ≡ take (copied offset_within_block size i) (drop i content)

  step_copies :
      (i : ℕ) (buffer : Bytes) (r : ReadableAt i)
      → i < size
      → size ≤ length buffer
      → read_step device volume number start size i buffer ≡ (
        ok (copied r.offset_within_block size i),
        overwrite i (take (copied r.offset_within_block size i) (drop i content)) buffer,
      )
  unfolding read_step copy_from_block
  step_copies i buffer r lt fits =
      let inside = r.inside in let whole = r.whole in rw (r.located, sym r.agrees) (ground arith)

  -- At the end of the content nothing is left to write.
  finished :
      (i : ℕ) (buffer : Bytes)
      → i ≡ size
      → ◌≡◌ {A = Result ℕ × Bytes} (ok i, buffer) (ok size, overwrite i (drop i content) buffer)
  finished i buffer e =
      let nothing = drop-all i content (omega arith) in rw (nothing, overwrite-nil i buffer, e) refl

  length-part : (i n : ℕ) → i + n ≤ size → length (take n (drop i content)) ≡ n
  length-part i n h =
      length-take n (drop i content) (omega (arith, length-drop i content (omega arith)))

  -- One round and the rounds after it.
  rounds :
      (i n : ℕ) (buffer : Bytes)
      → i + n ≤ size
      → overwrite (i + n) (drop (i + n) content) (overwrite i (take n (drop i content)) buffer)
        ≡ overwrite i (drop i content) buffer
  rounds i n buffer h =
      ap
        (λ k.
          overwrite (i + k) (drop (i + n) content) (overwrite i (take n (drop i content)) buffer))
        (sym (length-part i n h))
      ∙ overwrite-overwrite i (take n (drop i content)) (drop (i + n) content) buffer
      ∙ ap (λ t. overwrite i t buffer) (take-drop i n content)

  pub read_loop_lem :
      (f i : ℕ) (buffer : Bytes)
      → ((j : ℕ) → j < size → ReadableAt j)
      → i ≤ size
      → size ≤ f + i
      → size ≤ length buffer
      → read_loop device f volume number start size i buffer
        ≡ (ok size, overwrite i (drop i content) buffer)
  read_loop_lem zero i buffer r h enough fits =
      loop_done device volume number start size zero i buffer (omega arith)
      ∙ finished i buffer (omega arith)
  read_loop_lem (suc f) i buffer r h enough fits = elim (Bool-cases (ltb i size)) [
    | inr over ↦
        loop_done device volume number start size (suc f) i buffer (ground arith)
        ∙ finished i buffer (ground arith)
    | inl more ↦
        let here = r i (ground arith) in
        let n = copied here.offset_within_block size i in
        let step = step_copies i buffer here (ground arith) fits in
        let next = overwrite i (take n (drop i content)) buffer in
        let inside = here.inside in
        let later =
          read_loop_lem f (i + n) next r (ground arith) (ground arith)
            (ground (arith, length-overwrite i (take n (drop i content)) buffer)) in
        loop_more device volume number start size f i buffer (ground arith)
        ∙ rw step (later ∙ ap (λ b. (ok size, b)) (rounds i n buffer (ground arith)))
  ]

  -- The bytes of the file from the offset on that go into a buffer.
  module _ (inode : BafsInode) (reads : volume_read_inode device volume number ≡ ok inode)
      (regular : is_regular_file inode ≡ true) (readable : (i : ℕ) → i < size → ReadableAt i) where
    from_inode :
        (buffer : Bytes)
        → size ≡ lesser (length buffer) (inode.file_size_in_bytes - start)
        → read_from_inode device volume number start inode buffer
          ≡ (ok size, overwrite 0 content buffer)
    unfolding read_from_inode drop
    from_inode buffer e = elim (Bool-cases (leb inode.file_size_in_bytes start)) [
      | inl behind ↦
          let none_left : 0 ≡ size = ground (arith, e, behind) in
          let done = finished 0 buffer none_left in ground (arith, regular, done)
      | inr before ↦
          let run =
            read_loop_lem size 0 buffer readable (omega arith) (omega arith) (ground (arith, e)) in
          ground (arith, regular, e, run)
    ]

    -- Reading a regular file whose inode is read succeeds where, for each position of the range,
    -- the checked block that the code finds for it is a whole block with the bytes of the content
    -- from there to the end of the block or of the content; the content is as long as the buffer
    -- or the file from the offset on, whichever is less, its length is returned, and it is what
    -- the read writes at the start of the buffer.
    pub volume_read_file_data-contents :
        (buffer : Bytes)
        → size ≡ lesser (length buffer) (inode.file_size_in_bytes - start)
        → volume_read_file_data device volume number start buffer
          ≡ (ok size, overwrite 0 content buffer)
    unfolding volume_read_file_data drop
    volume_read_file_data-contents [] e =
        let empty : 0 ≡ size = ground (arith, e) in finished 0 [] empty
    volume_read_file_data-contents (b ∷ bs) e = rw reads (from_inode (b ∷ bs) e)
