-- ===== src/Log/Room.antt =====
-- The log has room for the blocks that the calls have reserved.
use operating_systems_class.Prelude.{
  ℕ, suc, ◌+◌, ◌-◌, ◌*◌, ◌≤◌, ◌<◌, ◌≡◌, ◌⊎◌, inl, inr, Bool, Bool-cases, true, false, ◌||◌, none,
  some, List, ◌∷◌, ◌++◌, length, ltb, leb, ◌==◌, arith, refl, ap, ◌∙◌, sym, subst,
}
use native.Mathlib.Decide.{dec_lt}
use mathlib.Core.Option.{some-injective}
use operating_systems_class.Log.{
  LogState, maxopblocks, logsize, Disk, done, find_block, put, begin_op, log_write, end_op_start,
  end_op_commit,
}
use operating_systems_class.Log.Leaves.{Leaves, leaves, Committed, end_op_commit-Committed}
use operating_systems_class.Log.Reserve.{
  System, begins, writes, ends, commits, Reach, start, step, total, Bounded, no_call, one_call,
  Reserved, length-without, total-without, total-Bounded, Bounded-lower, Bounded-without,
}

-- `log_write` of a call that has not used up its blocks.
pub log_write_next :
    (s : LogState) (b : ℕ)
    → s.n < logsize
    → s.n < s.size - 1
    → 1 ≤ s.outstanding
    → (s' : LogState) × (log_write s b ≡ some s')
      × (s'.n ≤ s.n + 1)
      × (s'.outstanding ≡ s.outstanding)
      × (s'.size ≡ s.size)
      × (s'.committing ≡ s.committing)
unfolding log_write
log_write_next s b h d o =
    let i = find_block s.n 0 s.block b in
    let room : (leb logsize s.n || leb (s.size - 1) s.n) ≡ false = ground arith in
    let called : ltb s.outstanding 1 ≡ false = ground arith in
    elim (Bool-cases (i == s.n)) [
      | inl e ↦ (
        record s { block = put s.block i b; pins = put s.pins b (s.pins b + 1); n = s.n + 1 },
        rw (room, called, e) refl,
        omega arith,
        refl,
        refl,
        refl,
      )
      | inr e ↦ (
        record s { block = put s.block i b },
        rw (room, called, e) refl,
        omega arith,
        refl,
        refl,
        refl,
      )
    ]

-- The panic.
pub log_write_full : (s : LogState) (b : ℕ) → s.size - 1 ≤ s.n → log_write s b ≡ none
unfolding log_write
log_write_full s b h =
    let full : (leb logsize s.n || leb (s.size - 1) s.n) ≡ true = ground arith in rw full refl

-- A call that has not used up its blocks leaves the log below LOGSIZE, whatever the others have written.
Reserved-room :
    (s : LogState) (front back : List ℕ) (k : ℕ)
    → Reserved s (front ++ suc k ∷ back)
    → s.n < logsize × 1 ≤ s.outstanding
Reserved-room s front back k r =
    let all = total-without front back (suc k) in
    let many = length-without front back (suc k) in
    (omega (arith, all, r.room), omega (arith, many, r.counted))

module _ {s s' : LogState} where
  begin_op-Reserved :
      (calls : List ℕ) → Reserved s calls → begin_op s ≡ some s' → Reserved s' (maxopblocks ∷ calls)
  unfolding begin_op total
  begin_op-Reserved calls r e = elim (Bool-cases s.committing) [
    | inl c ↦ absurd (ground (arith, e, c))
    | inr c ↦ elim (Bool-cases (ltb logsize (s.n + (s.outstanding + 1) * maxopblocks))) [
      | inl f ↦ absurd (ground (arith, e, c, f))
      | inr f ↦
          let next : LogState = record s { outstanding = s.outstanding + 1 } in
          let run : begin_op s ≡ some next = rw (c, f) refl in
          subst (λ t. Reserved t (maxopblocks ∷ calls)) (some-injective next s' (sym run ∙ e))
            (record {
              counted = omega (arith, r.counted);
              room = ground (arith, f, r.room, total-Bounded calls r.each, r.counted);
              each = one_call (omega arith) r.each;
              quiet = λ q. absurd (ground (arith, c, q));
            })
    ]
  ]

  log_write-Reserved :
      (front back : List ℕ) (k b : ℕ) (cache : Disk)
      → Reserved s (front ++ suc k ∷ back)
      → log_write (record s { cache = cache }) b ≡ some s'
      → Reserved s' (front ++ k ∷ back)
  log_write-Reserved front back k b cache r e =
      let (space, called) = Reserved-room s front back k r in
      let before = total-without front back (suc k) in
      let after = total-without front back k in
      let many = length-without front back (suc k) in
      let same_many = length-without front back k in
      elim (dec_lt s.n (s.size - 1)) [
        | no f ↦
            absurd
              (ground (arith, e, log_write_full (record s { cache = cache }) b (omega (arith, f))))
        | yes d ↦
            let (t, run, n, o, size, open_) =
              log_write_next (record s { cache = cache }) b space d called in
            subst (λ t. Reserved t (front ++ k ∷ back)) (some-injective t s' (sym run ∙ e))
              (record {
                counted = omega (arith, o, r.counted, many, same_many);
                room = omega (arith, n, r.room, before, after);
                each = Bounded-lower front back k r.each;
                quiet = λ q. o ∙ r.quiet (sym open_ ∙ q);
              })
      ]

  end_op_start-Reserved :
      (front back : List ℕ) (k : ℕ) (last : Bool)
      → Reserved s (front ++ k ∷ back)
      → end_op_start s ≡ some (s', last)
      → Reserved s' (front ++ back)
  unfolding end_op_start
  end_op_start-Reserved front back k last r e =
      let all = total-without front back k in
      let many = length-without front back k in
      let closed : s.committing ≡ false = elim (Bool-cases s.committing) [
        | inl c ↦ absurd (omega (arith, r.quiet c, r.counted, many))
        | inr c ↦ c
      ] in
      let fewer : LogState = record s { outstanding = s.outstanding - 1 } in
      elim (Bool-cases (s.outstanding == 1)) [
        | inl o ↦
            let next : LogState = record fewer { committing = true } in
            let run : end_op_start s ≡ some (next, true) = rw (closed, o) refl in
            subst (λ t. Reserved t (front ++ back))
              (λ j. (some-injective (next, true) (s', last) (sym run ∙ e) j).0)
              (record {
                counted = omega (arith, r.counted, many);
                room = omega (arith, r.room, all);
                each = Bounded-without front back k r.each;
                quiet = λ q. ground (arith, o);
              })
        | inr o ↦
            let run : end_op_start s ≡ some (fewer, false) = rw (closed, o) refl in
            subst (λ t. Reserved t (front ++ back))
              (λ j. (some-injective (fewer, false) (s', last) (sym run ∙ e) j).0)
              (record {
                counted = omega (arith, r.counted, many);
                room = omega (arith, r.room, all);
                each = Bounded-without front back k r.each;
                quiet = λ q. absurd (ground (arith, closed, q));
              })
      ]

  end_op_commit-Reserved :
      (calls : List ℕ)
      → Reserved s calls
      → s.committing ≡ true
      → end_op_commit s ≡ done s'
      → Reserved s' calls
  end_op_commit-Reserved calls r c e =
      let (n, o, size, open_) =
        done_leaves s' (subst (Leaves (Committed s)) e (end_op_commit-Committed s)) in
      let none_left = r.quiet c in
      record {
        counted = omega (arith, o, r.counted);
        room = omega (arith, n, r.room);
        each = r.each;
        quiet = λ q. absurd (ground (arith, open_, q));
      }
    where
      done_leaves : (t : LogState) → Leaves (Committed s) (done t) → Committed s t
      done_leaves t (leaves p) = p

-- `end_op` of a call that has begun finds no commit under way.
ends_well :
    (s : LogState) (front back : List ℕ) (k : ℕ)
    → Reserved s (front ++ k ∷ back)
    → (r : LogState × Bool) × (end_op_start s ≡ some r)
unfolding end_op_start
ends_well s front back k r =
    let many = length-without front back k in
    elim (Bool-cases s.committing) [
      | inl c ↦ absurd (omega (arith, r.quiet c, r.counted, many))
      | inr c ↦ elim (Bool-cases (s.outstanding == 1)) [
        | inl o ↦ (
          (record s { outstanding = s.outstanding - 1; committing = true }, true),
          rw (c, o) refl,
        )
        | inr o ↦ ((record s { outstanding = s.outstanding - 1 }, false), rw (c, o) refl)
      ]
    ]

pub Reach-Reserved : {s : System} → Reach s → Reserved s.log s.calls
unfolding total
Reach-Reserved (start {s} f) = record {
  counted = f.idle ∙ sym (ap length f.no_calls);
  room = omega (arith, f.empty, ap total f.no_calls);
  each = subst Bounded (sym f.no_calls) no_call;
  quiet = λ q. f.idle;
}
Reach-Reserved (step r (begins {calls = calls} e)) = begin_op-Reserved calls (Reach-Reserved r) e
Reach-Reserved (step r (writes front back k b cache e)) =
    log_write-Reserved front back k b cache (Reach-Reserved r) e
Reach-Reserved (step r (ends front back k last e)) =
    end_op_start-Reserved front back k last (Reach-Reserved r) e
Reach-Reserved (step r (commits {calls = calls} c e)) =
    end_op_commit-Reserved calls (Reach-Reserved r) c e

-- `log_write` by a call that has not used up its blocks, on a device of any size.
writes_or_panics :
    (s : LogState) (front back : List ℕ) (k b : ℕ) (cache : Disk)
    → Reserved s (front ++ suc k ∷ back)
    → ((s.n < s.size - 1)
        × ((s' : LogState) × (log_write (record s { cache = cache }) b ≡ some s')))
      ⊎ ((s.size - 1 ≤ s.n) × (log_write (record s { cache = cache }) b ≡ none))
writes_or_panics s front back k b cache r =
    let (space, called) = Reserved-room s front back k r in
    elim (dec_lt s.n (s.size - 1)) [
      | yes d ↦
          let (t, run, n, o, size, open_) =
            log_write_next (record s { cache = cache }) b space d called in
          inl (d, (t, run))
      | no f ↦
          let full : s.size - 1 ≤ s.n = omega (arith, f) in
          inr (full, log_write_full (record s { cache = cache }) b full)
    ]

-- In whatever order calls begin, write up to MAXOPBLOCKS blocks each, end and commit, on a device of any size: the
-- blocks in the log, together with those that calls may still write, are at most LOGSIZE; `log_write` by a call
-- that has not used up its blocks panics only when the log's area on the disk is full, which is when the log
-- holds one block less than the area has, and never on an area of more than LOGSIZE blocks; `end_op` by a
-- call that has begun does not panic.
pub Reach-room :
    {s : System}
    → Reach s
    → (s.log.n + total s.calls ≤ logsize)
      × ((front back : List ℕ) (k b : ℕ) (cache : Disk)
          → s.calls ≡ front ++ suc k ∷ back
          → ((s.log.n < s.log.size - 1)
              × ((s' : LogState) × (log_write (record s.log { cache = cache }) b ≡ some s')))
            ⊎ ((s.log.size - 1 ≤ s.log.n)
                × (s.log.size ≤ logsize)
                × (log_write (record s.log { cache = cache }) b ≡ none)))
      × ((front back : List ℕ) (k : ℕ)
          → s.calls ≡ front ++ k ∷ back
          → (r : LogState × Bool) × (end_op_start s.log ≡ some r))
Reach-room {s} h =
    let r = Reach-Reserved h in
    (
      r.room,
      λ front back k b cache e.
          let r' = subst (Reserved s.log) e r in
          elim (writes_or_panics s.log front back k b cache r') [
            | inl (d, w) ↦ inl (d, w)
            | inr (full, p) ↦
                inr (full, omega (arith, full, (Reserved-room s.log front back k r').0), p)
          ],
      λ front back k e. ends_well s.log front back k (subst (Reserved s.log) e r),
    )
