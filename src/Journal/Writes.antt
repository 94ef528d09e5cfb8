-- ===== src/Journal/Writes.antt =====
-- The two lists of a commit record of src/journal.rs: addresses and blocks.
use bazzulto_bafs.Base.{
  ℕ, ◌+◌, ◌*◌, ◌^◌, ◌≤◌, ◌<◌, ◌≡◌, refl, ◌∙◌, ==_iff, List, [], ◌∷◌, length, arith,
}
use mathlib.Core.Path.{subst}
use bazzulto_bafs.Bytes.{Bytes, All, to_le_bytes, slice, overwrite, length-to_le_bytes}
use bazzulto_bafs.Bytes.Slices.{
  length-overwrite, slice-overwrite, slice-overwrite_before, slice-overwrite_after,
}
use bazzulto_bafs.Error.{ok}
use bazzulto_bafs.Btree.Codec.Writes.{copy_ok, SameOutside}
use bazzulto_bafs.Btree.Codec.Items.{read_le_of}
use bazzulto_bafs.Journal.{write_addresses, write_blocks, read_addresses, read_blocks}

-- A block of a transaction: a 64-bit address and a whole block of data.
abbrev pub IsEntry : ℕ × Bytes → Type 0
IsEntry (address, block) = (address < 2 ^ 64) × (length block ≡ 4096)

pub overwrite-SameOutside :
    (p n : ℕ) (f buf : Bytes) → length f ≡ n → SameOutside p (p + n) buf (overwrite p f buf)
overwrite-SameOutside p n f buf e = record {
  same_length = length-overwrite p f buf;
  low = λ q k h. slice-overwrite_before q k p f buf h;
  high = λ q k h. slice-overwrite_after q k p f buf (omega arith);
}

-- Two writes one behind the other.
SameOutside-then :
    (lo mid hi : ℕ) (a b c : Bytes)
    → lo ≤ mid
    → mid ≤ hi
    → SameOutside lo mid a b
    → SameOutside mid hi b c
    → SameOutside lo hi a c
SameOutside-then lo mid hi a b c h k s t = record {
  same_length = t.same_length ∙ s.same_length;
  low = λ q n l. t.low q n (omega arith) ∙ s.low q n l;
  high = λ q n l. t.high q n l ∙ s.high q n (omega arith);
}

abbrev pub HasAddresses : List (ℕ × Bytes) → ℕ → Bytes → Type 0
HasAddresses [] p buf = Unit
HasAddresses ((address, _) ∷ rest) p buf =
    (slice p 8 buf ≡ to_le_bytes 8 address) × HasAddresses rest (p + 8) buf

abbrev pub HasBlocks : List (ℕ × Bytes) → ℕ → Bytes → Type 0
HasBlocks [] p buf = Unit
HasBlocks ((_, block) ∷ rest) p buf = (slice p 4096 buf ≡ block) × HasBlocks rest (p + 4096) buf

pub record Addressed (entries : List (ℕ × Bytes)) (p : ℕ) (buf : Bytes) : Type 0 where
  pub after : Bytes
  pub written : write_addresses entries p buf ≡ ok after
  pub outside : SameOutside p (p + 8 * length entries) buf after
  pub has : HasAddresses entries p after

pub write_addresses_lem :
    (entries : List (ℕ × Bytes)) (p : ℕ) (buf : Bytes)
    → p + 8 * length entries ≤ length buf
    → Addressed entries p buf
unfolding write_addresses
write_addresses_lem [] p buf h = record {
  after = buf;
  written = refl;
  outside = record { same_length = refl; low = λ q n l. refl; high = λ q n l. refl };
  has = tt;
}
write_addresses_lem ((address, block) ∷ rest) p buf h =
    let f = to_le_bytes 8 address in
    let n = length-to_le_bytes 8 address in
    let next = overwrite p f buf in
    let l = length-overwrite p f buf in
    let r = write_addresses_lem rest (p + 8) next (omega arith) in
    record {
      after = r.after;
      written = rw (copy_ok buf p f (omega arith)) r.written;
      outside =
          subst (λ hi. SameOutside p hi buf r.after) (omega arith)
            (SameOutside-then p (p + 8) (p + 8 + 8 * length rest) buf next r.after (omega arith)
              (omega arith) (overwrite-SameOutside p 8 f buf n) r.outside);
      has = (r.outside.low p 8 (omega arith) ∙ slice-overwrite p 8 f buf n (omega arith), r.has);
    }

pub record Blocked (entries : List (ℕ × Bytes)) (p : ℕ) (buf : Bytes) : Type 0 where
  pub after : Bytes
  pub written : write_blocks entries p buf ≡ ok after
  pub outside : SameOutside p (p + 4096 * length entries) buf after
  pub has : HasBlocks entries p after

pub write_blocks_lem :
    (entries : List (ℕ × Bytes)) (p : ℕ) (buf : Bytes)
    → All IsEntry entries
    → p + 4096 * length entries ≤ length buf
    → Blocked entries p buf
unfolding write_blocks
write_blocks_lem [] p buf e h = record {
  after = buf;
  written = refl;
  outside = record { same_length = refl; low = λ q n l. refl; high = λ q n l. refl };
  has = tt;
}
write_blocks_lem ((address, block) ∷ rest) p buf ((_, n), es) h =
    let next = overwrite p block buf in
    let l = length-overwrite p block buf in
    let r = write_blocks_lem rest (p + 4096) next es (omega arith) in
    record {
      after = r.after;
      written = rw ((==_iff _ _).1 n, copy_ok buf p block (omega arith)) r.written;
      outside =
          subst (λ hi. SameOutside p hi buf r.after) (omega arith)
            (SameOutside-then p (p + 4096) (p + 4096 + 4096 * length rest) buf next r.after
              (omega arith) (omega arith) (overwrite-SameOutside p 4096 block buf n) r.outside);
      has = (
        r.outside.low p 4096 (omega arith) ∙ slice-overwrite p 4096 block buf n (omega arith),
        r.has,
      );
    }

-- What a buffer has, another one has that agrees on the range.
pub HasAddresses-agree :
    (entries : List (ℕ × Bytes)) (p : ℕ) (a b : Bytes)
    → ((q n : ℕ) → p ≤ q → q + n ≤ p + 8 * length entries → slice q n b ≡ slice q n a)
    → HasAddresses entries p a
    → HasAddresses entries p b
HasAddresses-agree [] p a b s h = tt
HasAddresses-agree ((address, _) ∷ rest) p a b s (h, hs) = (
  s p 8 (omega arith) (omega arith) ∙ h,
  HasAddresses-agree rest (p + 8) a b (λ q n l u. s q n (omega arith) (omega arith)) hs,
)

pub HasBlocks-agree :
    (entries : List (ℕ × Bytes)) (p : ℕ) (a b : Bytes)
    → ((q n : ℕ) → p ≤ q → q + n ≤ p + 4096 * length entries → slice q n b ≡ slice q n a)
    → HasBlocks entries p a
    → HasBlocks entries p b
HasBlocks-agree [] p a b s h = tt
HasBlocks-agree ((_, block) ∷ rest) p a b s (h, hs) = (
  s p 4096 (omega arith) (omega arith) ∙ h,
  HasBlocks-agree rest (p + 4096) a b (λ q n l u. s q n (omega arith) (omega arith)) hs,
)

-- The readers give the entries back.
pub reads_back :
    (entries : List (ℕ × Bytes)) (p q : ℕ) (buf : Bytes)
    → All IsEntry entries
    → HasAddresses entries p buf
    → HasBlocks entries q buf
    → read_blocks (read_addresses (length entries) p buf) q buf ≡ entries
unfolding read_addresses read_blocks
reads_back [] p q buf e a b = refl
reads_back ((address, block) ∷ rest) p q buf ((fits, _), es) (a, as') (b, bs) =
    let here = read_le_of 8 address p buf a fits in
    let later = reads_back rest (p + 8) (q + 4096) buf es as' bs in rw (here, b, later) refl
