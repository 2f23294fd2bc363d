-- ===== src/Log/Write.antt =====
-- `log_write` and the space that `begin_op` reserves.
use operating_systems_class.Prelude.{
  ℕ, zero, suc, ◌+◌, ◌-◌, ◌≤◌, ◌<◌, ◌≡◌, ◌≢◌, true, false, some, arith, refl, ◌∙◌, sym, ◌==◌, ltb,
  leb, ◌||◌,
}
use native.Mathlib.Decide.{ℕ_discrete}
use operating_systems_class.Log.{Block, LogState, put, log_write, find_block, logsize}
use operating_systems_class.Log.Phase.{Outside, IsTxn}
use operating_systems_class.Log.Commit.{IsReady}

pub record IsFirst (rounds i : ℕ) (block : ℕ → ℕ) (b r : ℕ) : Type 0 where
  pub low : i ≤ r
  pub high : r ≤ i + rounds
  pub here : r < i + rounds → block r ≡ b
  pub before : (j : ℕ) → i ≤ j → j < r → block j ≢ b

pub find_block-IsFirst :
    (rounds i : ℕ) (block : ℕ → ℕ) (b : ℕ) → IsFirst rounds i block b (find_block rounds i block b)
unfolding find_block
find_block-IsFirst zero i block b = record {
  low = omega arith;
  high = omega arith;
  here = λ h. absurd (omega arith);
  before = λ j l u. absurd (omega arith);
}
find_block-IsFirst (suc rounds) i block b =
    let f = find_block-IsFirst rounds (i + 1) block b in
    elim (ℕ_discrete (block i) b) [
      | yes e ↦ record {
        low = ground (arith, e);
        high = ground (arith, e);
        here = λ h. ground (arith, e);
        before = λ j l u. absurd (ground (arith, e));
      }
      | no e ↦ record {
        low = ground (arith, e, f.low);
        high = ground (arith, e, f.high);
        here = λ h. ground (arith, e, f.here (ground (arith, e)));
        before = λ j l u. elim (ℕ_discrete j i) [
          | yes at ↦ λ q. e ((λ k. block (sym at k)) ∙ q)
          | no other ↦ f.before j (omega arith) (ground (arith, e))
        ];
      }
    ]

-- Between transactions: the header on the disk is empty, no block is logged twice, and only logged
-- blocks differ between the cache and the disk.
pub record IsOpen (s : LogState) : Type 0 where
  pub txn : IsTxn s.start s.size s.n s.block
  pub once : (i j : ℕ) → i < j → j < s.n → s.block i ≢ s.block j
  pub header : s.disk s.start 0 ≡ 0
  pub clean :
      (b : ℕ)
      → Outside s.start s.size b
      → ((i : ℕ) → i < s.n → s.block i ≢ b)
      → s.cache b ≡ s.disk b

pub IsOpen-IsReady : (s : LogState) → IsOpen s → 0 < s.n → IsReady s
IsOpen-IsReady s open_log h = record {
  txn = open_log.txn;
  some_blocks = h;
  header = open_log.header;
  clean = open_log.clean;
}

-- Block `b` is in the log of `s`.
abbrev pub IsLogged : LogState → ℕ → Type 0
IsLogged s b = (i : ℕ) × i < s.n × (s.block i ≡ b)

-- The call of `log_write` for a block that the caller has changed in the cache.
abbrev pub changed : LogState → ℕ → Block → LogState
changed s b v = record s { cache = put s.cache b v }

-- What `log_write` of block `b` with contents `v` leaves.
pub record Logged (s : LogState) (b : ℕ) (v : Block) (s' : LogState) : Type 0 where
  pub is_open : IsOpen s'
  pub logged : IsLogged s' b
  pub kept : (c : ℕ) → IsLogged s c → IsLogged s' c
  pub absorbed : IsLogged s b → s'.n ≡ s.n
  pub appended : (¬ IsLogged s b) → s'.n ≡ s.n + 1
  pub contents : s'.cache ≡ put s.cache b v
  pub unwritten : s'.disk ≡ s.disk

put_same : (f : ℕ → ℕ) (i b : ℕ) → f i ≡ b → (j : ℕ) → put f i b j ≡ f j
put_same f i b e j = elim (ℕ_discrete j i) [
  | yes same ↦ ground (arith, same, e)
  | no other ↦ ground (arith, other)
]

-- `log_write` when the test `i == log.lh.n` is decided.
module _ {s : LogState} (l : IsOpen s) (b : ℕ) (o : Outside s.start s.size b) (v : Block) where
  absorb :
      (i : ℕ)
      → i < s.n
      → s.block i ≡ b
      → Logged s b v (record (changed s b v) { block = put s.block i b })
  absorb i h e = record {
    is_open = record {
      txn = record {
        fits = l.txn.fits;
        room = l.txn.room;
        homes = λ j k. ground (arith, e, o, l.txn.homes j k);
      };
      once = λ j k p q. ground (arith, e, l.once j k p q);
      header = l.header;
      clean = λ c p f.
          ground (arith, f i h, l.clean c p (λ j k q. f j k (put_same s.block i b e j ∙ q)));
    };
    logged = (i, h, ground arith);
    kept = λ c p. (p.0, p.1, put_same s.block i b e p.0 ∙ p.2);
    absorbed = λ p. refl;
    appended = λ f. absurd (f (i, h, e));
    contents = refl;
    unwritten = refl;
  }

  append :
      s.n < logsize
      → s.n < s.size - 1
      → ((i : ℕ) → i < s.n → s.block i ≢ b)
      → Logged s b v (record (changed s b v) {
        block = put s.block s.n b;
        pins = put s.pins b (s.pins b + 1);
        n = s.n + 1;
      })
  append space device f = record {
    is_open = record {
      txn = record {
        fits = omega arith;
        room = omega arith;
        homes = λ j k. ground (arith, o, l.txn.homes j);
      };
      once = λ j k p q. ground (arith, l.once j k p, f j);
      header = l.header;
      clean = λ c p g. ground (
        arith,
        g s.n (omega arith),
        l.clean c p (λ j k q. g j (omega arith) (ground (arith, q))),
      );
    };
    logged = (s.n, omega arith, ground arith);
    kept = λ c p. (p.0, omega (arith, p.1), ground (arith, p.1, p.2));
    absorbed = λ p. absurd (f p.0 p.1 p.2);
    appended = λ g. refl;
    contents = refl;
    unwritten = refl;
  }

  -- `log_write` of a home block whose contents have just been changed in the cache, from a log
  -- in order (at most LOGSIZE blocks outside the log's area, fewer than the area has, none logged twice, only logged blocks
  -- different from the disk), while the log and the device have room for one more block and a
  -- system call is outstanding, does not panic: the block is in the log afterwards, with those
  -- that were; the log grows by one entry if the block was not in it, and not at all otherwise;
  -- the log is in order again, and nothing is written to the disk.
  pub log_write_refines :
      s.n < logsize
      → s.n < s.size - 1
      → 1 ≤ s.outstanding
      → (s' : LogState) × (log_write (changed s b v) b ≡ some s') × Logged s b v s'
  unfolding log_write
  log_write_refines space device outstanding =
      let i = find_block s.n 0 s.block b in
      let first = find_block-IsFirst s.n 0 s.block b in
      let room : (leb logsize s.n || leb (s.size - 1) s.n) ≡ false = ground arith in
      let self : (s.n == s.n) ≡ true = ground arith in
      let called : ltb s.outstanding 1 ≡ false = ground arith in
      elim (ℕ_discrete i s.n) [
        | yes e ↦ (
          _,
          rw (room, called, e, self) refl,
          append space device (λ j k. first.before j (omega arith) (omega (arith, e))),
        )
        | no e ↦ (
          _,
          let differ : (i == s.n) ≡ false = ground (arith, e) in rw (room, called, differ) refl,
          absorb i (omega (arith, first.high)) (first.here (omega (arith, first.high))),
        )
      ]
