-- ===== src/Log/Full.antt =====
-- A log whose area has no more than LOGSIZE blocks, as mkfs/mkfs.c makes it, runs full.
use operating_systems_class.Prelude.{
  ℕ, zero, suc, ◌+◌, ◌-◌, ◌*◌, ◌≤◌, ◌<◌, ◌≡◌, true, false, ◌||◌, none, some, List, [], ◌∷◌, ◌++◌,
  ltb, leb, ◌==◌, arith, refl, ap, subst,
}
use native.Mathlib.Decide.{dec_lt}
use operating_systems_class.Log.{
  LogState, maxopblocks, logsize, find_block, put, begin_op, log_write,
}
use operating_systems_class.Log.Write.{find_block-IsFirst}
use operating_systems_class.Log.Reserve.{
  System, begins, writes, IsFresh, Reach, start, step, total, total-without,
}
use operating_systems_class.Log.Room.{log_write_full}

-- Three calls have begun and have logged `j` blocks, from block `base` on.
record Filled (base size j : ℕ) : Type 0 where
  log : LogState
  calls : List ℕ
  reached : Reach (record { log = log; calls = calls })
  same_size : log.size ≡ size
  many : log.n ≡ j
  running : log.outstanding ≡ 3
  left : total calls + j ≡ logsize
  logged : (i : ℕ) → i < j → log.block i ≡ base + i

-- A call that has blocks left.
some_left :
    (calls : List ℕ)
    → 0 < total calls
    → (front : List ℕ) × (k : ℕ) × (back : List ℕ) × (calls ≡ front ++ suc k ∷ back)
unfolding total
some_left [] h = absurd (omega arith)
some_left (zero ∷ calls) h =
    let (front, k, back, e) = some_left calls (omega arith) in
    (zero ∷ front, k, back, ap (λ c. zero ∷ c) e)
some_left (suc k ∷ calls) h = ([], k, calls, refl)

-- `log_write` of a block that is not in the log yet.
log_write_new :
    (s : LogState) (base j : ℕ)
    → s.n ≡ j
    → ((i : ℕ) → i < j → s.block i ≡ base + i)
    → j < logsize
    → j < s.size - 1
    → 1 ≤ s.outstanding
    → let b = base + j in
      log_write s b
      ≡ some
          (record s { block = put s.block s.n b; pins = put s.pins b (s.pins b + 1); n = s.n + 1 })
unfolding log_write
log_write_new s base j e l h d o =
    let b = base + j in
    let first = find_block-IsFirst s.n 0 s.block b in
    let at : find_block s.n 0 s.block b ≡ s.n = elim (dec_lt (find_block s.n 0 s.block b) s.n) [
      | yes q ↦ absurd (
          omega (
            arith,
            first.here (omega arith),
            l (find_block s.n 0 s.block b) (omega (arith, q, e)),
            q,
            e,
          ))
      | no q ↦ omega (arith, q, first.high)
    ] in
    let room : (leb logsize s.n || leb (s.size - 1) s.n) ≡ false = ground (arith, e, h, d) in
    let called : ltb s.outstanding 1 ≡ false = ground (arith, o) in
    let self : (s.n == s.n) ≡ true = ground arith in rw (room, called, at, self) refl

one_more : LogState → LogState
one_more s = record s { outstanding = s.outstanding + 1 }

begin_op_room :
    (s : LogState)
    → s.committing ≡ false
    → s.n ≡ 0
    → s.outstanding ≤ 2
    → begin_op s ≡ some (one_more s)
unfolding begin_op one_more
begin_op_room s c n o =
    let room : ltb logsize (s.n + (s.outstanding + 1) * maxopblocks) ≡ false =
      ground (arith, n, o) in
    rw (c, room) refl

-- Three calls begin.
three : (base : ℕ) (s : System) → IsFresh s → Filled base s.log.size 0
unfolding one_more total
three base s f =
    let s0 = s.log in
    let s1 = one_more s0 in
    let s2 = one_more s1 in
    let fresh : Reach (record { log = s0; calls = [] }) =
      start (record { no_calls = refl; idle = f.idle; empty = f.empty; opened = f.opened }) in
    record {
      log = one_more s2;
      calls = 10 ∷ 10 ∷ 10 ∷ [];
      reached =
          step
            (step (step fresh (begins (begin_op_room s0 f.opened f.empty (omega (arith, f.idle)))))
              (begins (begin_op_room s1 f.opened f.empty (omega (arith, f.idle)))))
            (begins (begin_op_room s2 f.opened f.empty (omega (arith, f.idle))));
      same_size = refl;
      many = f.empty;
      running = omega (arith, f.idle);
      left = omega arith;
      logged = λ i h. absurd (omega arith);
    }

-- One more block is logged.
more :
    (base size j : ℕ)
    → Filled base size j
    → j + 1 < size
    → size ≤ logsize
    → Filled base size (j + 1)
more base size j p h u =
    let b = base + j in
    let (front, k, back, e) = some_left p.calls (omega (arith, p.left)) in
    let s = p.log in
    let s' : LogState = record s {
      block = put s.block s.n b;
      pins = put s.pins b (s.pins b + 1);
      n = s.n + 1;
    } in
    let here : Reach (record { log = s; calls = front ++ suc k ∷ back }) =
      subst (λ c. Reach (record { log = s; calls = c })) e p.reached in
    let run =
      log_write_new s base j p.many p.logged (omega arith) (omega (arith, p.same_size))
        (omega (arith, p.running)) in
    record {
      log = s';
      calls = front ++ k ∷ back;
      reached = step here (writes front back k b s.cache run);
      same_size = p.same_size;
      many = omega (arith, p.many);
      running = p.running;
      left =
          omega (
            arith,
            p.left,
            ap total e,
            total-without front back (suc k),
            total-without front back k,
          );
      logged = λ i l. ground (arith, p.many, p.logged i, l);
    }

fill :
    (base size : ℕ) (s : System)
    → IsFresh s
    → s.log.size ≡ size
    → (j : ℕ) → j < size
    → size ≤ logsize
    → Filled base size j
fill base size s f e zero h u = subst (λ n. Filled base n 0) e (three base s f)
fill base size s f e (suc j) h u =
    subst (Filled base size) (omega arith)
      (more base size j (fill base size s f e j (omega arith) u) (omega arith) u)

-- From every empty log whose area has 1 to LOGSIZE blocks, as on the image that mkfs makes, calls that keep
-- to MAXOPBLOCKS blocks each and log the blocks of the disk in order, from any block `base` on, can come to a
-- state in which a call that has blocks left panics in `log_write` of the next block.
pub full_log_panics :
    (base : ℕ) (s : System)
    → IsFresh s
    → 0 < s.log.size
    → s.log.size ≤ logsize
    → (t : System) × (front : List ℕ) × (k : ℕ) × (back : List ℕ) × Reach t
      × (t.log.size ≡ s.log.size)
      × (t.calls ≡ front ++ suc k ∷ back)
      × ((i : ℕ) → i < t.log.n → t.log.block i ≡ base + i)
      × (log_write t.log (base + t.log.n) ≡ none)
full_log_panics base s f h u =
    let p = fill base s.log.size s f refl (s.log.size - 1) (omega arith) u in
    let (front, k, back, e) = some_left p.calls (omega (arith, p.left)) in
    (
      record { log = p.log; calls = p.calls },
      front,
      k,
      back,
      p.reached,
      p.same_size,
      e,
      λ i l. p.logged i (omega (arith, p.many, l)),
      log_write_full p.log (base + p.log.n) (omega (arith, p.same_size, p.many)),
    )
