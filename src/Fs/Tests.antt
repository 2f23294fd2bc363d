-- ===== src/Fs/Tests.antt =====
-- The theorems on a file system of 200 blocks with one file of one block.
use operating_systems_class.Prelude.{
  false, ℕ, ◌%◌, ◌≡◌, ◌⊎◌, ◌<◌, ◌≤◌, true, Option, List, [], ◌∷◌, some, arith, refl, ap, ltb, ◌==◌,
  if◌then◌else◌,
}
use native.Mathlib.Decide.{ℕ_discrete}
use operating_systems_class.Run.{ok, fault}
use operating_systems_class.Fs.{
  Super, Fs, bblock, bit, balloc, bfree, balloc_from, find_bit, take_block,
}
use operating_systems_class.Fs.Bitmap.{used, IsFs}
use operating_systems_class.Fs.Balloc.{Allocated, balloc-Allocated, bfree-balloc}
use operating_systems_class.Fs.Inode.{iread, iupdate, Inode, bmap}
use operating_systems_class.Fs.Inode.Blocks.{block, IsInode}
use operating_systems_class.Fs.Inode.Mapped.{Mapped, bmap-Mapped}
use operating_systems_class.Fs.Inode.Update.{IsHome}
use operating_systems_class.Fs.Table.{Table, ninode, iget}
use operating_systems_class.Fs.Table.References.{references}
use operating_systems_class.Fs.Table.Unique.{IsUnique, Got, iget_refines}
use operating_systems_class.Fs.Path.Elements.{names, elements, names-elements}
use operating_systems_class.Fs.Io.{readi, writei}
use operating_systems_class.Fs.Inode.Saved.{IsStorable, SameInode, iread-iupdate}
use operating_systems_class.Fs.Io.{itrunc}
use operating_systems_class.Fs.Io.Truncated.{Truncated, itrunc-Truncated}
use operating_systems_class.Fs.Io.Written.{Outcome, writei-Outcome}
use operating_systems_class.Fs.Io.Roundtrip.{readi-writei}

abbrev super : Super
super = record {
  magic = 0x10203040;
  size = 200;
  nblocks = 154;
  ninodes = 200;
  nlog = 30;
  logstart = 2;
  inodestart = 32;
  bmapstart = 45;
}

-- The blocks below 48 are marked, and block 47 is that of the file.
abbrev one_file : Fs
one_file = record {
  disk = λ c o. if c == 45 then (if ltb o 6 then 255 else 0) else if c == 47 then o % 256 else 0;
  written = [];
}

abbrev file : Inode
file = record {
  inum = 1;
  valid = true;
  type = 2;
  major = 0;
  minor = 0;
  nlink = 1;
  size = 1000;
  addrs = λ k. if k == 0 then 47 else 0;
}

one_file-IsFs : IsFs super one_file
unfolding bit
one_file-IsFs = record {
  small = omega arith;
  boot_used = refl;
  map_in = λ c h. omega arith;
  map_used = λ c h. let at : bblock c super ≡ 45 = omega arith in ap (used super one_file) at;
}

file_blocks : (k : ℕ) → block one_file file k ≡ (if k == 0 then 47 else 0)
unfolding block
file_blocks k = ground arith

file-IsInode : IsInode super one_file file
unfolding bit
file-IsInode = record {
  data_ = λ k h n. elim (ℕ_discrete k 0) [
    | yes e ↦
        let at : block one_file file k ≡ 47 = ground (arith, file_blocks k, e) in
        record {
          in_fs = omega (arith, at);
          marked = ap (used super one_file) at;
          not_map = λ c l q. omega (arith, at, q);
        }
    | no e ↦ absurd (n (ground (arith, file_blocks k, e)))
  ];
  once = λ j k l h n. absurd (n (ground (arith, file_blocks k)));
}

file-IsHome : IsHome super one_file file
unfolding bit
file-IsHome = record {
  some_home = λ z. omega (arith, z);
  home_data = record { in_fs = omega arith; marked = refl; not_map = λ c l q. omega (arith, q) };
  apart = λ k h q. ground (arith, file_blocks k, q);
}

balloc-Allocated_example : Allocated super one_file (balloc super one_file)
balloc-Allocated_example = balloc-Allocated super one_file one_file-IsFs

allocates : (balloc super one_file).1 ≡ 48
unfolding balloc balloc_from find_bit take_block bit
allocates = refl

bfree-balloc_example :
    (fs' : Fs) × (bfree super (balloc super one_file).0 (balloc super one_file).1 ≡ ok fs')
    × ((c : ℕ) → c < 200 → used super fs' c ≡ used super one_file c)
bfree-balloc_example =
    bfree-balloc super one_file one_file-IsFs (λ z. absurd (ground (arith, allocates, z)))

bmap-Mapped_example :
    (r : Fs × Inode × ℕ) × (bmap super one_file file 20 ≡ ok r)
    × Mapped super one_file file 20 r.0 r.1 r.2
bmap-Mapped_example = bmap-Mapped super one_file file 20 one_file-IsFs file-IsInode (omega arith)

-- A write over the end of the first block.
writei-Outcome_example :
    (r : Fs × Inode × Option ℕ) × (writei super (λ t m. m) (λ x. x % 256) one_file file 1000 500
      ≡ ok r)
    × Outcome super (λ t m. m) (λ x. x % 256) one_file file 1000 500 r
writei-Outcome_example =
    writei-Outcome super (λ t m. m) (λ x. x % 256) one_file file 1000 500 one_file-IsFs file-IsInode
      file-IsHome (omega arith) (omega arith)

readi-writei_example :
    (fs' : Fs) × (ip' : Inode) × (tot : ℕ) × (r : Fs × Inode × (ℕ → ℕ) × Option ℕ) × (writei super
        (λ t m. m)
        (λ x. x % 256)
        one_file
        file
        1000
        500
      ≡ ok (fs', ip', some tot))
    × tot ≤ 500
    × (readi super (λ t m. m) fs' ip' (λ x. 0) 1000 tot ≡ ok r)
    × (r.3 ≡ some tot)
    × ((x : ℕ) → x < tot → r.2 x ≡ x % 256)
readi-writei_example =
    readi-writei super (λ t m. m) (λ x. x % 256) one_file file 1000 500 (λ x. 0) one_file-IsFs
      file-IsInode file-IsHome (omega arith) (omega arith) (omega arith)

-- Only entry 0 has references, to inode 1.
abbrev one_entry : Table
one_entry i = record { dev = 1; ref = if i == 0 then 2 else 0; inode = file }

one_entry-IsUnique : IsUnique one_entry
one_entry-IsUnique i j hi hj ri rj d k = ground arith

iget_refines_example :
    ((t' : Table) × (i : ℕ) × (iget 1 5 one_entry ≡ ok (t', i)) × Got 1 5 one_entry t' i)
    ⊎ ((iget 1 5 one_entry ≡ fault)
        × (references one_entry 1 5 ≡ 0)
        × ((j : ℕ) → j < ninode → 0 < (one_entry j).ref))
iget_refines_example = iget_refines 1 5 one_entry one_entry-IsUnique

-- `//ab/c/`
abbrev path_ab : List ℕ
path_ab = 47 ∷ 47 ∷ 97 ∷ 98 ∷ 47 ∷ 99 ∷ 47 ∷ []

names-elements_example : names 7 path_ab ≡ elements path_ab
names-elements_example = names-elements 7 path_ab (omega arith)

itrunc-Truncated_example :
    (fs' : Fs) × (ip' : Inode) × (itrunc super one_file file ≡ ok (fs', ip'))
    × Truncated super one_file file fs' ip'
itrunc-Truncated_example =
    itrunc-Truncated super one_file file one_file-IsFs file-IsInode file-IsHome

file-IsStorable : IsStorable file
file-IsStorable = record {
  some_type = λ z. omega (arith, z);
  small_type = omega arith;
  small_major = omega arith;
  small_minor = omega arith;
  small_nlink = omega arith;
  small_size = omega arith;
  small_addrs = λ k h. ground arith;
}

-- The entry for inode 1 before it is read.
abbrev unread : Inode
unread = record file { valid = false; size = 0; addrs = λ k. 0 }

iread-iupdate_example :
    (ip' : Inode) × (iread super (iupdate super one_file file) unread ≡ ok ip') × SameInode file ip'
iread-iupdate_example = iread-iupdate super one_file file unread file-IsStorable refl refl
