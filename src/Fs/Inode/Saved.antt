-- ===== src/Fs/Inode/Saved.antt =====
-- `iupdate`, and `ilock` after it.
use operating_systems_class.Prelude.{
  ℕ, zero, suc, ◌+◌, ◌*◌, ◌^◌, ◌≤◌, ◌<◌, ◌≡◌, ◌≢◌, true, false, ◌==◌, arith, refl, ap, ◌∙◌, sym,
}
use native.Mathlib.Decide.{ℕ_discrete}
use operating_systems_class.Run.{ok}
use operating_systems_class.Fs.{Super, Fs}
use operating_systems_class.Fs.Inode.{
  Inode, ndirect, iblock, dinode_at, get_16, get_32, put_16, put_32, put_addrs, put_dinode, iupdate,
  iread,
}
use operating_systems_class.Fs.Inode.Words.{get_32-put_32}

-- A byte in front of the addresses.
put_addrs-before :
    (rounds : ℕ) (d : ℕ → ℕ) (o i : ℕ) (addrs : ℕ → ℕ) (j : ℕ)
    → j < o + i * 4
    → put_addrs rounds d o i addrs j ≡ d j
unfolding put_addrs
put_addrs-before zero d o i addrs j h = refl
put_addrs-before (suc rounds) d o i addrs j h =
    put_addrs-before rounds (put_32 d (o + i * 4) (addrs i)) o (i + 1) addrs j (omega arith)
    ∙ ground arith

get_32_before :
    (rounds : ℕ) (d : ℕ → ℕ) (o i : ℕ) (addrs : ℕ → ℕ) (p : ℕ)
    → p + 4 ≤ o + i * 4
    → get_32 (put_addrs rounds d o i addrs) p ≡ get_32 d p
get_32_before rounds d o i addrs p h = ground (
  arith,
  put_addrs-before rounds d o i addrs p (omega arith),
  put_addrs-before rounds d o i addrs (p + 1) (omega arith),
  put_addrs-before rounds d o i addrs (p + 2) (omega arith),
  put_addrs-before rounds d o i addrs (p + 3) (omega arith),
)

get_32-put_addrs :
    (rounds : ℕ) (d : ℕ → ℕ) (o i : ℕ) (addrs : ℕ → ℕ) (k : ℕ)
    → i ≤ k
    → k < i + rounds
    → addrs k < 2 ^ 32
    → get_32 (put_addrs rounds d o i addrs) (o + k * 4) ≡ addrs k
unfolding put_addrs
get_32-put_addrs zero d o i addrs k l u h = absurd (omega arith)
get_32-put_addrs (suc rounds) d o i addrs k l u h = elim (ℕ_discrete k i) [
  | yes e ↦
      get_32_before rounds (put_32 d (o + i * 4) (addrs i)) o (i + 1) addrs (o + k * 4)
        (omega (arith, e))
      ∙ (λ j. get_32 (put_32 d (o + i * 4) (addrs i)) (o + e j * 4))
      ∙ get_32-put_32 d (o + i * 4) (addrs i) (omega (arith, h, ap addrs e))
      ∙ ap addrs (sym e)
  | no e ↦
      get_32-put_addrs rounds (put_32 d (o + i * 4) (addrs i)) o (i + 1) addrs k (omega (arith, e))
        (omega arith) h
]

-- The numbers of an inode that is in use fit into their places on the disk.
pub record IsStorable (ip : Inode) : Type 0 where
  pub some_type : ip.type ≢ 0
  pub small_type : ip.type < 2 ^ 16
  pub small_major : ip.major < 2 ^ 16
  pub small_minor : ip.minor < 2 ^ 16
  pub small_nlink : ip.nlink < 2 ^ 16
  pub small_size : ip.size < 2 ^ 32
  pub small_addrs : (k : ℕ) → k ≤ ndirect → ip.addrs k < 2 ^ 32

-- The fields of `struct dinode` in front of the addresses.
fields_of : (ℕ → ℕ) → ℕ → Inode → ℕ → ℕ
fields_of d o ip =
    put_32
      (put_16 (put_16 (put_16 (put_16 d o ip.type) (o + 2) ip.major) (o + 4) ip.minor) (o + 6)
        ip.nlink)
      (o + 8) ip.size

module _ (d : ℕ → ℕ) (o : ℕ) (ip : Inode) (s : IsStorable ip) where
  type_there : get_16 (fields_of d o ip) (o + 0) ≡ ip.type
  unfolding fields_of
  type_there = ground (arith, s.small_type)

  major_there : get_16 (fields_of d o ip) (o + 2) ≡ ip.major
  unfolding fields_of
  major_there = ground (arith, s.small_major)

  minor_there : get_16 (fields_of d o ip) (o + 4) ≡ ip.minor
  unfolding fields_of
  minor_there = ground (arith, s.small_minor)

  nlink_there : get_16 (fields_of d o ip) (o + 6) ≡ ip.nlink
  unfolding fields_of
  nlink_there = ground (arith, s.small_nlink)

  size_there : get_32 (fields_of d o ip) (o + 8) ≡ ip.size
  unfolding fields_of
  size_there = ground (arith, s.small_size)

-- What an inode read from the disk has of one that was written: every field, with the addresses up to the
-- indirect one.
pub record SameInode (ip ip' : Inode) : Type 0 where
  pub same_inum : ip'.inum ≡ ip.inum
  pub now_valid : ip'.valid ≡ true
  pub same_type : ip'.type ≡ ip.type
  pub same_major : ip'.major ≡ ip.major
  pub same_minor : ip'.minor ≡ ip.minor
  pub same_nlink : ip'.nlink ≡ ip.nlink
  pub same_size : ip'.size ≡ ip.size
  pub same_addrs : (k : ℕ) → k ≤ ndirect → ip'.addrs k ≡ ip.addrs k

module _ (d : ℕ → ℕ) (ip : Inode) (s : IsStorable ip) where
  abbrev at_inode : ℕ
  at_inode = dinode_at ip.inum

  get_16-put_dinode :
      (p v : ℕ)
      → p + 2 ≤ 12
      → get_16 (fields_of d at_inode ip) (at_inode + p) ≡ v
      → get_16 (put_dinode d ip) (at_inode + p) ≡ v
  unfolding put_dinode fields_of
  get_16-put_dinode p v h e =
      let before : (j : ℕ) → j < at_inode + 12 → put_dinode d ip j ≡ fields_of d at_inode ip j =
        λ j l.
          put_addrs-before (ndirect + 1) (fields_of d at_inode ip) (at_inode + 12) 0 ip.addrs j
            (omega arith) in
      let low = before (at_inode + p) (omega arith) in
      let high = before (at_inode + p + 1) (omega arith) in (λ j. low j + high j * 2 ^ 8) ∙ e

  size-put_dinode : get_32 (put_dinode d ip) (at_inode + 8) ≡ ip.size
  unfolding put_dinode fields_of
  size-put_dinode =
      get_32_before (ndirect + 1) (fields_of d at_inode ip) (at_inode + 12) 0 ip.addrs
        (at_inode + 8) (omega arith)
      ∙ size_there d at_inode ip s

  addrs-put_dinode :
      (k : ℕ) → k ≤ ndirect → get_32 (put_dinode d ip) (at_inode + 12 + k * 4) ≡ ip.addrs k
  unfolding put_dinode fields_of
  addrs-put_dinode k h =
      get_32-put_addrs (ndirect + 1) (fields_of d at_inode ip) (at_inode + 12) 0 ip.addrs k
        (omega arith) (omega arith) (s.small_addrs k h)

dinode-iupdate :
    (sb : Super) (fs : Fs) (ip : Inode)
    → (iupdate sb fs ip).disk (iblock ip.inum sb) ≡ put_dinode (fs.disk (iblock ip.inum sb)) ip
unfolding iupdate
dinode-iupdate sb fs ip =
    let same : (iblock ip.inum sb == iblock ip.inum sb) ≡ true = ground arith in rw same refl

-- An inode that `iupdate` has written, whose numbers fit into the fields on the disk, is what `ilock` reads back
-- into an entry for the same number that is not valid.
pub iread-iupdate :
    (sb : Super) (fs : Fs) (ip old : Inode)
    → IsStorable ip
    → old.inum ≡ ip.inum
    → old.valid ≡ false
    → (ip' : Inode) × (iread sb (iupdate sb fs ip) old ≡ ok ip') × SameInode ip ip'
unfolding iread
iread-iupdate sb fs ip old s e v =
    let d = fs.disk (iblock ip.inum sb) in
    let read = (iupdate sb fs ip).disk (iblock old.inum sb) in
    let o = dinode_at old.inum in
    let there : read ≡ put_dinode d ip =
      (λ j. (iupdate sb fs ip).disk (iblock (e j) sb)) ∙ dinode-iupdate sb fs ip in
    let short : (p : ℕ) (w : ℕ)
        → get_16 (put_dinode d ip) (dinode_at ip.inum + p) ≡ w
        → get_16 read (o + p) ≡ w =
      λ p w q. (λ j. get_16 (there j) (dinode_at (e j) + p)) ∙ q in
    let type : get_16 read o ≡ ip.type =
      ap (get_16 read) (omega arith)
      ∙ short 0 ip.type (
          get_16-put_dinode d ip s 0 ip.type (omega arith)
            (type_there d (dinode_at ip.inum) ip s)) in
    let used_type : (get_16 read o == 0) ≡ false = ground (arith, type, s.some_type) in
    (
      record {
        inum = old.inum;
        valid = true;
        type = get_16 read o;
        major = get_16 read (o + 2);
        minor = get_16 read (o + 4);
        nlink = get_16 read (o + 6);
        size = get_32 read (o + 8);
        addrs = λ i. get_32 read (o + 12 + i * 4);
      },
      rw (v, used_type) refl,
      record {
        same_inum = e;
        now_valid = refl;
        same_type = type;
        same_major = short 2 ip.major (
            get_16-put_dinode d ip s 2 ip.major (omega arith)
              (major_there d (dinode_at ip.inum) ip s));
        same_minor = short 4 ip.minor (
            get_16-put_dinode d ip s 4 ip.minor (omega arith)
              (minor_there d (dinode_at ip.inum) ip s));
        same_nlink = short 6 ip.nlink (
            get_16-put_dinode d ip s 6 ip.nlink (omega arith)
              (nlink_there d (dinode_at ip.inum) ip s));
        same_size = (λ j. get_32 (there j) (dinode_at (e j) + 8)) ∙ size-put_dinode d ip s;
        same_addrs = λ k h.
            (λ j. get_32 (there j) (dinode_at (e j) + 12 + k * 4)) ∙ addrs-put_dinode d ip s k h;
      },
    )
