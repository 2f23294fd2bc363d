-- ===== src/Log/Phase.antt =====
-- The disk through the phases of a transaction that takes the home blocks from `old` to `new`.
use operating_systems_class.Prelude.{
  ℕ, zero, suc, ◌+◌, ◌≤◌, ◌<◌, ◌≡◌, ◌≢◌, ◌⊎◌, Bool, true, false, arith, refl, ◌∙◌, sym, subst, ◌-◌,
  if◌then◌else◌,
}
use native.Mathlib.Decide.{ℕ_discrete}
use operating_systems_class.Log.{
  Block, Disk, LogState, put, bwrite, logsize, write_log_from, write_head, write_blocks,
  install_from,
}
use operating_systems_class.Log.Safe.{Safe, Safe-bind, Stopped, May, bwrite-Safe}

-- A block outside the log, which is `size` blocks from block `start` on, the header included.
abbrev pub Outside : (start size b : ℕ) → Type 0
Outside start size b = (b < start) ⊎ (start + size ≤ b)

-- A log of `n` blocks with their home addresses, which the header and the log have room for.
pub record IsTxn (start size n : ℕ) (block : ℕ → ℕ) : Type 0 where
  pub fits : n ≤ logsize
  pub room : n < size
  pub homes : (i : ℕ) → i < n → Outside start size (block i)

-- Nothing is committed, and the home blocks are those of `old`.
pub record IsIdle (start size : ℕ) (old d : Disk) : Type 0 where
  pub header : d start 0 ≡ 0
  pub home : (b : ℕ) → Outside start size b → d b ≡ old b

-- The transaction is committed: the log holds the new contents of its blocks, and every other home
-- block has its new contents.
pub record IsCommitted (start size n : ℕ) (block : ℕ → ℕ) (new d : Disk) : Type 0 where
  pub header : d start 0 ≡ n
  pub addresses : (i : ℕ) → i < n → d start (i + 1) ≡ block i
  pub logged : (i : ℕ) → i < n → d (start + i + 1) ≡ new (block i)
  pub home : (b : ℕ) → Outside start size b → ((i : ℕ) → i < n → block i ≢ b) → d b ≡ new b

-- The words that `write_head` stores.
write_blocks-before :
    (rounds i : ℕ) (block : ℕ → ℕ) (head : Block) (j : ℕ)
    → j ≤ i
    → write_blocks rounds i block head j ≡ head j
unfolding write_blocks
write_blocks-before zero i block head j h = refl
write_blocks-before (suc rounds) i block head j h =
    write_blocks-before rounds (i + 1) block (put head (i + 1) (block i)) j (omega arith)
    ∙ ground arith

write_blocks-at :
    (rounds i : ℕ) (block : ℕ → ℕ) (head : Block) (j : ℕ)
    → i ≤ j
    → j < i + rounds
    → write_blocks rounds i block head (j + 1) ≡ block j
unfolding write_blocks
write_blocks-at zero i block head j l u = absurd (omega arith)
write_blocks-at (suc rounds) i block head j l u = elim (ℕ_discrete j i) [
  | yes e ↦
      write_blocks-before rounds (i + 1) block (put head (i + 1) (block i)) (j + 1) (omega arith)
      ∙ ground arith
  | no e ↦
      write_blocks-at rounds (i + 1) block (put head (i + 1) (block i)) j (omega arith)
        (omega arith)
]

module _ {start size n : ℕ} {block : ℕ → ℕ} (txn : IsTxn start size n block) (old new : Disk)
    (stop : Bool) where
  -- Before index `tail` the log blocks are written.
  pub record Logging (tail : ℕ) (s : LogState) : Type 0 where
    pub may : May stop s.left
    pub same_start : s.start ≡ start
    pub same_n : s.n ≡ n
    pub same_block : s.block ≡ block
    pub idle : IsIdle start size old s.disk
    pub fresh : (b : ℕ) → Outside start size b → s.cache b ≡ new b
    pub logged : (i : ℕ) → i < tail → s.disk (start + i + 1) ≡ new (block i)
    pub copied : (i : ℕ) → i < tail → s.cache (start + i + 1) ≡ new (block i)

  pub write_log_from-Logging :
      (rounds tail : ℕ) (s : LogState)
      → tail + rounds ≡ n
      → Logging tail s
      → Safe (Stopped stop (IsIdle start size old)) (Logging n) (write_log_from rounds s tail)
  unfolding write_log_from
  write_log_from-Logging zero tail s e l =
      let d : tail ≡ n = omega arith in subst (λ k. Logging k s) d l
  write_log_from-Logging (suc rounds) tail s e l =
      let to = s.start + tail + 1 in
      let s1 = record s { cache = put s.cache to (s.cache (s.block tail)) } in
      Safe-bind (Stopped stop (IsIdle start size old)) (Logging (tail + 1)) (Logging n)
        (bwrite s1 to) (λ s'. write_log_from rounds s' (tail + 1))
        (bwrite-Safe stop (Stopped stop (IsIdle start size old)) (Logging (tail + 1)) s1 to l.may
          (λ h. (h, l.idle))
          (λ left may. record {
            may = may;
            same_start = l.same_start;
            same_n = l.same_n;
            same_block = l.same_block;
            idle = record {
              header = ground (arith, l.idle.header, l.same_start);
              home = λ b o. ground (arith, l.idle.home b o, l.same_start, txn.room);
            };
            fresh = λ b o. ground (arith, l.fresh b o, l.same_start, txn.room);
            logged = λ i h. ground (
              arith,
              l.logged i,
              l.fresh (block tail) (txn.homes tail (omega arith)),
              txn.homes tail (omega arith),
              l.same_start,
              txn.room,
              l.same_block,
            );
            copied = λ i h. ground (
              arith,
              l.copied i,
              l.fresh (block tail) (txn.homes tail (omega arith)),
              txn.homes tail (omega arith),
              l.same_start,
              txn.room,
              l.same_block,
            );
          }))
        (λ s' l'. write_log_from-Logging rounds (tail + 1) s' (omega arith) l')

module _ {start size n : ℕ} {block : ℕ → ℕ} (txn : IsTxn start size n block) (old new : Disk)
    (stop : Bool) where
  -- The transaction is committed, and before index `tail` its blocks are installed.
  pub record Installing (tail : ℕ) (s : LogState) : Type 0 where
    pub may : May stop s.left
    pub same_start : s.start ≡ start
    pub same_n : s.n ≡ n
    pub same_block : (i : ℕ) → i < n → s.block i ≡ block i
    pub cached : (i : ℕ) → i < n → s.cache (start + i + 1) ≡ new (block i)
    pub committed : IsCommitted start size n block new s.disk
    pub home :
        (b : ℕ)
        → Outside start size b
        → ((i : ℕ) → tail ≤ i → i < n → block i ≢ b)
        → s.disk b ≡ new b

  -- The write of the header is the commit.
  pub write_head-Installing :
      (s : LogState)
      → Logging txn old new stop n s
      → ((b : ℕ) → Outside start size b → ((i : ℕ) → i < n → block i ≢ b) → old b ≡ new b)
      → Safe (Stopped stop (IsIdle start size old)) (Installing 0) (write_head s)
  unfolding write_head
  write_head-Installing s l same =
      let head = write_blocks s.n 0 s.block (put (s.cache s.start) 0 s.n) in
      let s1 = record s { cache = put s.cache s.start head } in
      let word_0 : head 0 ≡ n =
        write_blocks-before s.n 0 s.block (put (s.cache s.start) 0 s.n) 0 (omega arith)
        ∙ ground (arith, l.same_n) in
      let word : (i : ℕ) → i < n → head (i + 1) ≡ block i = λ i h.
        write_blocks-at s.n 0 s.block (put (s.cache s.start) 0 s.n) i (omega arith)
          (omega (arith, l.same_n))
        ∙ λ j. l.same_block j i in
      bwrite-Safe stop (Stopped stop (IsIdle start size old)) (Installing 0) s1 s.start l.may
        (λ h. (h, l.idle))
        (λ left may. record {
          may = may;
          same_start = l.same_start;
          same_n = l.same_n;
          same_block = λ i h j. l.same_block j i;
          cached = λ i h. ground (arith, l.copied i h, l.same_start);
          committed = record {
            header = ground (arith, word_0, l.same_start);
            addresses = λ i h. ground (arith, word i h, l.same_start);
            logged = λ i h. ground (arith, l.logged i h, l.same_start);
            home = λ b o out. ground (arith, l.idle.home b o, same b o out, l.same_start, txn.room);
          };
          home = λ b o out. ground (
            arith,
            l.idle.home b o,
            same b o (λ i h. out i (omega arith) h),
            l.same_start,
            txn.room,
          );
        })

  abbrev unpinned : Bool → LogState → ℕ → LogState
  unpinned recovering s dst =
      if recovering then s else record s { pins = put s.pins dst (s.pins dst - 1) }

  from_tail :
      (tail b : ℕ)
      → ((i : ℕ) → tail + 1 ≤ i → i < n → block i ≢ b)
      → block tail ≢ b
      → (i : ℕ) → tail ≤ i
      → i < n
      → block i ≢ b
  from_tail tail b f ne i lo hi = elim (ℕ_discrete i tail) [
    | yes e ↦ λ h. ne ((λ j. block (sym e j)) ∙ h)
    | no e ↦ f i (omega arith) hi
  ]

  unpinned-Installing :
      (recovering : Bool) (tail dst : ℕ) (s : LogState)
      → Installing tail s
      → Installing tail (unpinned recovering s dst)
  unpinned-Installing true tail dst s l = l
  unpinned-Installing false tail dst s l = record {
    may = l.may;
    same_start = l.same_start;
    same_n = l.same_n;
    same_block = l.same_block;
    cached = l.cached;
    committed = l.committed;
    home = l.home;
  }

  pub install_from-Installing :
      (rounds tail : ℕ) (recovering : Bool) (s : LogState)
      → tail + rounds ≡ n
      → Installing tail s
      → Safe
          (Stopped stop (IsCommitted start size n block new))
          (Installing n)
          (install_from rounds recovering s tail)
  unfolding install_from
  install_from-Installing zero tail recovering s e l =
      let d : tail ≡ n = omega arith in subst (λ k. Installing k s) d l
  install_from-Installing (suc rounds) tail recovering s e l =
      let dst = s.block tail in
      let s1 = record s { cache = put s.cache dst (s.cache (s.start + tail + 1)) } in
      let at : dst ≡ block tail = l.same_block tail (omega arith) in
      let out : Outside start size dst =
        subst (λ b. Outside start size b) (sym at) (txn.homes tail (omega arith)) in
      let new_home : s.cache (s.start + tail + 1) ≡ new dst =
        (λ i. s.cache (l.same_start i + tail + 1)) ∙ l.cached tail (omega arith) ∙ λ i.
        new (sym at i) in
      Safe-bind (Stopped stop (IsCommitted start size n block new)) (Installing (tail + 1))
        (Installing n) (bwrite s1 dst)
        (λ s'. install_from rounds recovering (unpinned recovering s' dst) (tail + 1))
        (bwrite-Safe stop (Stopped stop (IsCommitted start size n block new))
          (Installing (tail + 1)) s1 dst l.may (λ h. (h, l.committed))
          (λ left may. record {
            may = may;
            same_start = l.same_start;
            same_n = l.same_n;
            same_block = l.same_block;
            cached = λ i h. ground (arith, l.cached i h, out, l.same_start, txn.room);
            committed = record {
              header = ground (arith, l.committed.header, out, l.same_start, txn.room);
              addresses =
                  λ i h. ground (arith, l.committed.addresses i h, out, l.same_start, txn.room);
              logged = λ i h. ground (arith, l.committed.logged i h, out, l.same_start, txn.room);
              home = λ b o f. ground (arith, l.committed.home b o f, new_home);
            };
            home = λ b o f. elim (ℕ_discrete b dst) [
              | yes same ↦ ground (arith, same, new_home)
              | no other ↦
                  ground
                    (arith, other, l.home b o (from_tail tail b f (λ h. other (sym h ∙ sym at))))
            ];
          }))
        (λ s' l'.
          install_from-Installing rounds (tail + 1) recovering (unpinned recovering s' dst)
            (omega arith) (unpinned-Installing recovering (tail + 1) dst s' l'))
