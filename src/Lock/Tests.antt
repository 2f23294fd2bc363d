-- ===== src/Lock/Tests.antt =====
-- The lock with the CPUs 0 and 1.
use operating_systems_class.Prelude.{ℕ, ◌≡◌, ◌↔◌, true, false, refl}
use operating_systems_class.Lock.{initlock, is_cpu}
use operating_systems_class.Lock.Race.{Pc, cpu_step, System, advance, Reach, start, step}
use operating_systems_class.Lock.Exclusion.{owns, has_panicked, Reach-excludes}
use operating_systems_class.Lock.Progress.{Leads, spinning_enters}

abbrev begin : System
begin = record { lock = initlock; pc = λ i. Pc.idle }

-- CPU 0 is at the swap it has made, and CPU 1 spins.
abbrev both : System
both = advance 1 (advance 1 (advance 0 (advance 0 (advance 0 begin))))

both-Reach : Reach both
both-Reach = step 1 (step 1 (step 0 (step 0 (step 0 start))))

Reach-excludes_example :
    ((i j : ℕ) → owns (both.pc i) ≡ true → owns (both.pc j) ≡ true → i ≡ j)
    × ((both.lock.locked ≡ true) ↔ ((i : ℕ) × (owns (both.pc i) ≡ true)))
    × ((i : ℕ) → has_panicked (both.pc i) ≡ false)
Reach-excludes_example = Reach-excludes both-Reach

-- CPU 1 has seen the lock locked by CPU 0, whose name is not there yet.
abbrev waiting : System
waiting = advance 1 both

waits : waiting.pc 1 ≡ Pc.spinning
unfolding cpu_step initlock is_cpu
waits = refl

spinning_enters_example : (t : System) × Leads waiting t × (t.pc 1 ≡ Pc.inside)
spinning_enters_example = spinning_enters 1 (step 1 both-Reach) waits
