-- ===== src/Volume/Files/Reads.antt =====
-- The read loop of `volume_read_file_data` in src/volume.rs: that it ends, and how much it reads.
use bazzulto_bafs.Base.{
  ℕ, zero, suc, ◌+◌, ◌-◌, ◌%◌, ◌^◌, ◌≤◌, ◌<◌, ◌≡◌, ◌≢◌, refl, sym, ap, ◌∙◌, true, ltb, length, ◌⊎◌,
  Bool-cases, inl, inr, arith, [], ◌∷◌,
}
use bazzulto_bafs.Bytes.{Bytes, slice}
use bazzulto_bafs.Bytes.Slices.{length-overwrite}
use bazzulto_bafs.Device.{BlockDevice}
use bazzulto_bafs.Error.{Result, ok, err, panic, out_of_fuel}
use bazzulto_bafs.Exec.{Exec, resume}
use bazzulto_bafs.Inode.{BafsInode, is_regular_file}
use bazzulto_bafs.Volume.{BafsVolume, volume_read_inode}
use bazzulto_bafs.Volume.Files.{
  lesser, copied, block_at, copy_from_block, read_step, read_loop, read_from_inode,
  volume_read_file_data,
}

module _ {S : Type 0} (device : BlockDevice S) (volume : BafsVolume S)
    (number start bytes_to_read : ℕ) where
  -- A round that succeeds makes progress, not past the range, and keeps the size of the buffer.
  record Progress (so_far : ℕ) (before : Bytes) (count : ℕ) (after : Bytes) : Type 0 where
    positive : 0 < count
    inside : so_far + count ≤ bytes_to_read
    same_size : length after ≡ length before

  block_at-lt :
      (offset o : ℕ) (block : Bytes)
      → block_at device volume number offset ≡ ok (o, block)
      → o < 4096
  unfolding block_at
  block_at-lt offset o block e = ground (arith, e)

  step_with : Result (ℕ × Bytes) → ℕ → Exec Bytes ℕ
  step_with located so_far before =
      resume
        (λ at after_lookup.
          let (o, block) = at in
          resume (λ done left. (ok (copied o bytes_to_read so_far), left))
            (copy_from_block so_far o (copied o bytes_to_read so_far) block after_lookup).0
            (copy_from_block so_far o (copied o bytes_to_read so_far) block after_lookup).1)
        located before

  read_step_runs :
      (so_far : ℕ) (before : Bytes) (located : Result (ℕ × Bytes))
      → block_at device volume number ((start + so_far) % 2 ^ 64) ≡ located
      → read_step device volume number start bytes_to_read so_far before
        ≡ step_with located so_far before
  unfolding read_step step_with
  read_step_runs so_far before located e = rw e refl

  step_with-Progress :
      (located : Result (ℕ × Bytes)) (so_far count : ℕ) (before after : Bytes)
      → ((o : ℕ) (block : Bytes) → located ≡ ok (o, block) → o < 4096)
      → so_far < bytes_to_read
      → step_with located so_far before ≡ (ok count, after)
      → Progress so_far before count after
  unfolding step_with copy_from_block
  step_with-Progress panic so_far count before after small h e = ground (arith, e)
  step_with-Progress out_of_fuel so_far count before after small h e = ground (arith, e)
  step_with-Progress (err error) so_far count before after small h e = ground (arith, e)
  step_with-Progress (ok (o, block)) so_far count before after small h e =
      let n = copied o bytes_to_read so_far in
      let keeps = length-overwrite so_far (slice o n block) before in
      let fits = small o block refl in
      record {
        positive = ground (arith, e, fits);
        inside = ground (arith, e, fits);
        same_size = ground (arith, e, keeps);
      }

  read_step-Progress :
      (so_far count : ℕ) (before after : Bytes)
      → so_far < bytes_to_read
      → read_step device volume number start bytes_to_read so_far before ≡ (ok count, after)
      → Progress so_far before count after
  read_step-Progress so_far count before after h e =
      let located = block_at device volume number ((start + so_far) % 2 ^ 64) in
      step_with-Progress located so_far count before after
        (λ o block f. block_at-lt ((start + so_far) % 2 ^ 64) o block f) h
        (sym (read_step_runs so_far before located refl) ∙ e)

  abbrev loop : ℕ → ℕ → Exec Bytes ℕ
  loop fuel so_far = read_loop device fuel volume number start bytes_to_read so_far

  abbrev one : ℕ → Exec Bytes ℕ
  one so_far = read_step device volume number start bytes_to_read so_far

  pub loop_done :
      (fuel so_far : ℕ) (b : Bytes) → bytes_to_read ≤ so_far → loop fuel so_far b ≡ (ok so_far, b)
  unfolding read_loop
  loop_done zero so_far b h = ground arith
  loop_done (suc fuel) so_far b h = ground arith

  pub loop_more :
      (fuel so_far : ℕ) (b : Bytes)
      → so_far < bytes_to_read
      → loop (suc fuel) so_far b
        ≡ resume (λ count. loop fuel (so_far + count)) (one so_far b).0 (one so_far b).1
  unfolding read_loop
  loop_more fuel so_far b h = ground arith

  loop_cut :
      (so_far : ℕ) (b : Bytes) → so_far < bytes_to_read → loop zero so_far b ≡ (out_of_fuel, b)
  unfolding read_loop
  loop_cut so_far b h = ground arith

  -- A read that succeeds fills the whole range, in a buffer of the same size.
  pub read_loop-exact :
      (fuel so_far n : ℕ) (before after : Bytes)
      → so_far ≤ bytes_to_read
      → loop fuel so_far before ≡ (ok n, after)
      → (n ≡ bytes_to_read) × (length after ≡ length before)
  read_loop-exact zero so_far n before after h e = elim (Bool-cases (ltb so_far bytes_to_read)) [
    | inr over ↦
        let done = sym (loop_done zero so_far before (ground arith)) ∙ e in
        (ground (arith, done), ap length (sym (ap (λ r. r.1) done)))
    | inl more ↦ let cut = loop_cut so_far before (ground arith) in ground (arith, cut, e)
  ]
  read_loop-exact (suc f) so_far n before after h e = elim (Bool-cases (ltb so_far bytes_to_read)) [
    | inr over ↦
        let done = sym (loop_done (suc f) so_far before (ground arith)) ∙ e in
        (ground (arith, done), ap length (sym (ap (λ r. r.1) done)))
    | inl more ↦
        round (λ c b p g. read_loop-exact f (so_far + c) n b after p g) (one so_far before)
          (ground arith) refl (sym (loop_more f so_far before (ground arith)) ∙ e)
  ]
    where
      round :
          ((c : ℕ) (b : Bytes)
            → so_far + c ≤ bytes_to_read
            → loop f (so_far + c) b ≡ (ok n, after)
            → (n ≡ bytes_to_read) × (length after ≡ length b))
          → (r : Result ℕ × Bytes) → so_far < bytes_to_read
          → one so_far before ≡ r
          → resume (λ count. loop f (so_far + count)) r.0 r.1 ≡ (ok n, after)
          → (n ≡ bytes_to_read) × (length after ≡ length before)
      round next (panic, b) lt step g = ground (arith, g)
      round next (out_of_fuel, b) lt step g = ground (arith, g)
      round next (err error, b) lt step g = ground (arith, g)
      round next (ok count, b) lt step g =
          let p = read_step-Progress so_far count before b lt step in
          let (all, size) = next count b p.inside g in (all, size ∙ p.same_size)

  -- More fuel than the bytes that are left need changes nothing.
  read_loop_fuel :
      (f g so_far : ℕ) (b : Bytes)
      → so_far ≤ bytes_to_read
      → bytes_to_read ≤ f + so_far
      → bytes_to_read ≤ g + so_far
      → loop f so_far b ≡ loop g so_far b
  read_loop_fuel zero g so_far b h p q =
      loop_done zero so_far b (omega arith) ∙ sym (loop_done g so_far b (omega arith))
  read_loop_fuel (suc f) zero so_far b h p q =
      loop_done (suc f) so_far b (omega arith) ∙ sym (loop_done zero so_far b (omega arith))
  read_loop_fuel (suc f) (suc g) so_far b h p q = elim (Bool-cases (ltb so_far bytes_to_read)) [
    | inr over ↦
        loop_done (suc f) so_far b (ground arith) ∙ sym (loop_done (suc g) so_far b (ground arith))
    | inl more ↦
        loop_more f so_far b (ground arith)
        ∙ round (λ c b' i u v. read_loop_fuel f g (so_far + c) b' i u v) (one so_far b)
            (ground arith) refl
        ∙ sym (loop_more g so_far b (ground arith))
  ]
    where
      round :
          ((c : ℕ) (b' : Bytes)
            → so_far + c ≤ bytes_to_read
            → bytes_to_read ≤ f + (so_far + c)
            → bytes_to_read ≤ g + (so_far + c)
            → loop f (so_far + c) b' ≡ loop g (so_far + c) b')
          → (r : Result ℕ × Bytes) → so_far < bytes_to_read
          → one so_far b ≡ r
          → resume (λ count. loop f (so_far + count)) r.0 r.1
            ≡ resume (λ count. loop g (so_far + count)) r.0 r.1
      round next (panic, b') lt step = refl
      round next (out_of_fuel, b') lt step = refl
      round next (err error, b') lt step = refl
      round next (ok count, b') lt step =
          let t = read_step-Progress so_far count b b' lt step in
          let more = t.positive in next count b' t.inside (omega arith) (omega arith)

  -- A round ends if its lookup of the block does.
  step_ends :
      (located : Result (ℕ × Bytes)) (so_far : ℕ) (b : Bytes)
      → located ≢ out_of_fuel
      → (step_with located so_far b).0 ≢ out_of_fuel
  unfolding step_with copy_from_block
  step_ends panic so_far b h e = cc
  step_ends out_of_fuel so_far b h e = h refl
  step_ends (err error) so_far b h e = cc
  step_ends (ok (o, block)) so_far b h e = ground (arith, e)

  loop_ends :
      (f so_far : ℕ) (b : Bytes)
      → ((i : ℕ)
          → i < bytes_to_read
          → block_at device volume number ((start + i) % 2 ^ 64) ≢ out_of_fuel)
      → so_far ≤ bytes_to_read
      → bytes_to_read ≤ f + so_far
      → (loop f so_far b).0 ≢ out_of_fuel
  loop_ends zero so_far b h low enough e =
      let done = loop_done zero so_far b (omega arith) in
      let never : ok so_far ≡ out_of_fuel = sym (ap (λ r. r.0) done) ∙ e in cc
  loop_ends (suc f) so_far b h low enough e = elim (Bool-cases (ltb so_far bytes_to_read)) [
    | inr over ↦
        let done = loop_done (suc f) so_far b (ground arith) in
        let never : ok so_far ≡ out_of_fuel = sym (ap (λ r. r.0) done) ∙ e in cc
    | inl more ↦
        round (λ c b' u v. loop_ends f (so_far + c) b' h u v) (one so_far b) (ground arith)
          (λ stuck.
            step_ends _ so_far b (h so_far (ground arith))
              (ap (λ r. r.0) (sym (read_step_runs so_far b _ refl)) ∙ stuck))
          refl (ap (λ r. r.0) (sym (loop_more f so_far b (ground arith))) ∙ e)
  ]
    where
      round :
          ((c : ℕ) (b' : Bytes)
            → so_far + c ≤ bytes_to_read
            → bytes_to_read ≤ f + (so_far + c)
            → (loop f (so_far + c) b').0 ≢ out_of_fuel)
          → (r : Result ℕ × Bytes) → so_far < bytes_to_read
          → (one so_far b).0 ≢ out_of_fuel
          → one so_far b ≡ r
          → (resume (λ count. loop f (so_far + count)) r.0 r.1).0 ≢ out_of_fuel
      round next (panic, b') lt ends step g = cc
      round next (out_of_fuel, b') lt ends step g = ends (ap (λ r. r.0) step)
      round next (err error, b') lt ends step g = cc
      round next (ok count, b') lt ends step g =
          let t = read_step-Progress so_far count b b' lt step in
          let more = t.positive in next count b' t.inside (omega arith) g

  -- Where no lookup of a block of the range runs out of its own fuel, fuel for the bytes that are
  -- left is enough for the loop that reads a file: it does not run out of it, and more of it
  -- changes nothing.
  pub read_loop-Terminates :
      (f g so_far : ℕ) (b : Bytes)
      → ((i : ℕ)
          → i < bytes_to_read
          → block_at device volume number ((start + i) % 2 ^ 64) ≢ out_of_fuel)
      → so_far ≤ bytes_to_read
      → bytes_to_read ≤ f + so_far
      → bytes_to_read ≤ g + so_far
      → ((loop f so_far b).0 ≢ out_of_fuel) × (loop f so_far b ≡ loop g so_far b)
  read_loop-Terminates f g so_far b h low p q =
      (loop_ends f so_far b h low p, read_loop_fuel f g so_far b low p q)

module _ {S : Type 0} (device : BlockDevice S) (volume : BafsVolume S) (number start : ℕ) where
  from_inode-exact :
      (inode : BafsInode) (n : ℕ) (before after : Bytes)
      → read_from_inode device volume number start inode before ≡ (ok n, after)
      → (n ≡ lesser (length before) (inode.file_size_in_bytes - start))
        × (length after ≡ length before)
  unfolding read_from_inode
  from_inode-exact inode n before after e =
      let range = lesser (length before) (inode.file_size_in_bytes - start) in
      let whole =
        read_loop-exact device volume number start range range 0 n before after (omega arith) in
      ground (arith, e, whole)

  regular :
      (inode : BafsInode) (n : ℕ) (before after : Bytes)
      → read_from_inode device volume number start inode before ≡ (ok n, after)
      → is_regular_file inode ≡ true
  unfolding read_from_inode
  regular inode n before after e = ground (arith, e)

  -- What a read that returned `n` says: an empty buffer, or a regular file and the bytes up to its end.
  abbrev pub Filled : ℕ → Bytes → Type 0
  Filled n before =
      ((n ≡ 0) × (before ≡ []))
      ⊎ ((inode : BafsInode) × (volume_read_inode device volume number ≡ ok inode)
          × (is_regular_file inode ≡ true)
          × (n ≡ lesser (length before) (inode.file_size_in_bytes - start)))

  -- A read of a file that succeeds returns 0 for an empty buffer, and else the size of the buffer
  -- or the bytes from the offset to the end of a regular file, whichever is less; the buffer keeps
  -- its size.
  pub volume_read_file_data_lem :
      (n : ℕ) (before after : Bytes)
      → volume_read_file_data device volume number start before ≡ (ok n, after)
      → Filled n before × (length after ≡ length before)
  unfolding volume_read_file_data
  volume_read_file_data_lem n [] after e = (inl (ground (arith, e), refl), ground (arith, e))
  volume_read_file_data_lem n (b ∷ bs) after e =
      with_inode (volume_read_inode device volume number) refl e
    where
      with_inode :
          (r : Result BafsInode)
          → volume_read_inode device volume number ≡ r
          → resume (read_from_inode device volume number start) r (b ∷ bs) ≡ (ok n, after)
          → Filled n (b ∷ bs) × (length after ≡ length (b ∷ bs))
      with_inode panic f g = ground (arith, g)
      with_inode out_of_fuel f g = ground (arith, g)
      with_inode (err error) f g = ground (arith, g)
      with_inode (ok inode) f g =
          let (size, same) = from_inode-exact inode n (b ∷ bs) after g in
          (inr (inode, f, regular inode n (b ∷ bs) after g, size), same)
