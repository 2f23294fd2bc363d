-- ===== src/Sched/Tests.antt =====
-- The theorems on the scheduler at a small system: process 0 runs, process 5 waits in the middle queue,
-- process 2 is the first process and sleeps, process 3 has exited, and the other slots are free.
use operating_systems_class.Prelude.{
  ℕ, ◌≤◌, ◌<◌, ◌≡◌, Bool, true, false, refl, [], ◌∷◌, none, some, arith, ◌==◌, if◌then◌else◌,
}
use operating_systems_class.Prelude.Int.{pos, negsuc, ◌+ℤ◌}
use operating_systems_class.Run.{ok}
use operating_systems_class.Queue.{nproc, num_queues}
use operating_systems_class.Queue.View.{Queues, with_queue}
use operating_systems_class.Queue.Tests.{waiting, waiting_queues, waiting-IsView}
use operating_systems_class.Proc.{
  ProcState, unused, runnable, running, sleeping, zombie, no_chan, proc_chan, Proc, Kernel,
  put_proc, priority, quantum,
}
use operating_systems_class.Sched.{yield_cpu, sys_nice, schedule, wrap_int}
use operating_systems_class.Sched.Inv.{IsMlfq, IsRunning}
use operating_systems_class.Sched.Yield.{Demoted, yield_demotes}
use operating_systems_class.Sched.Boost.{Boosted, yield_boosts}
use operating_systems_class.Sched.Ready.{ready_from}
use operating_systems_class.Sched.Dispatch.{Dispatched, schedule_picks, schedule_keeps}
use operating_systems_class.Sched.Turn.{schedule_highest}
use operating_systems_class.Sched.Nice.{new_nice, sys_nice_high}

abbrev pub a_proc : ProcState → (pid runtime : ℕ) → Proc
a_proc state pid runtime = record {
  state = state;
  chan = if pid == 3 then proc_chan 2 else no_chan;
  killed = false;
  xstate = pos 0;
  pid = pid;
  parent = if pid == 4 then some 0 else none;
  sz = 4096;
  pagetable = 0;
  trapframe = 0;
  nice = pos 0;
  runtime = runtime;
  queue = 1;
  pass = 0;
}

-- Process 0 has counted `runtime` ticks.
abbrev pub procs_with : ProcState → ℕ → ℕ → Proc
procs_with state runtime x =
    if x == 0
    then a_proc state 1 runtime
    else if x == 2
    then a_proc sleeping 3 0
    else if x == 3
    then a_proc zombie 4 0
    else if x == 5
    then a_proc runnable 6 2
    else a_proc unused 0 0

abbrev pub system : (state : ProcState) (kicked : Bool) (time runtime : ℕ) → Kernel
system state kicked time runtime = record {
  procs = procs_with state runtime;
  qtable = waiting;
  time = time;
  p_kicked = kicked;
  chosen = 0;
  cpu_proc = some 0;
  schedlog = λ i. record { pid = 0; time = 0; queue = 0; priority_boost = false };
  log_count = 0;
  nextpid = 7;
  initproc = 2;
}

pub system-IsMlfq :
    (time runtime : ℕ) → runtime < 10 → IsMlfq (system running true time runtime) waiting_queues
unfolding quantum
system-IsMlfq time runtime h = record {
  view = waiting-IsView;
  sound = λ q x l m. ground arith;
  complete = λ x l s n. ground arith;
  stays = λ x s. absurd (ground arith);
  fresh = λ x l s. ground arith;
  levels = λ x l. ground arith;
  quanta = λ x l. ground arith;
}

pub system-IsRunning : (time runtime : ℕ) → IsRunning (system running true time runtime) 0
system-IsRunning time runtime = record {
  in_table = omega arith;
  state = refl;
  kicked = refl;
  chosen = refl;
}

-- The state after a `yield` within the quantum.
abbrev kept_system : Kernel
kept_system = system runnable false 1 4

kept_system-IsMlfq : IsMlfq kept_system waiting_queues
unfolding quantum
kept_system-IsMlfq = record {
  view = waiting-IsView;
  sound = λ q x l m. ground arith;
  complete = λ x l s n. ground arith;
  stays = λ x s. ground arith;
  fresh = λ x l s. ground arith;
  levels = λ x l. ground arith;
  quanta = λ x l. ground arith;
}

yield_demotes_example :
    (k' : Kernel) × (yield_cpu (system running true 1 9) 0 ≡ ok k')
    × IsMlfq k' (with_queue waiting_queues 0 (0 ∷ []))
    × Demoted (system running true 1 9) k' 0
unfolding quantum
yield_demotes_example =
    yield_demotes (system-IsMlfq 1 9 (omega arith)) (system-IsRunning 1 9) (omega arith)
      (omega arith)

yield_boosts_example :
    (k' : Kernel) × (qs' : Queues) × (yield_cpu (system running true 60 3) 0 ≡ ok k')
    × IsMlfq k' qs'
    × ((q : ℕ)
        → q < num_queues
        → qs' q
          ≡ ready_from
              (put_proc
                (system running true 60 3)
                0
                (record ((system running true 60 3).procs 0) { state = runnable })).procs
              nproc
              0
              q)
    × Boosted (system running true 60 3) k' 0
yield_boosts_example =
    yield_boosts (system-IsMlfq 60 3 (omega arith)) (system-IsRunning 60 3) (omega arith)

schedule_picks_example :
    (k' : Kernel) × (schedule (system running true 1 3) ≡ ok k')
    × IsMlfq k' (with_queue waiting_queues 1 [])
    × IsRunning k' 5
    × Dispatched (system running true 1 3) k' 5
schedule_picks_example =
    schedule_picks (system-IsMlfq 1 3 (omega arith)) 1 5 [] refl (omega arith) refl
      (λ r l u. ground arith)

schedule_keeps_example :
    (k' : Kernel) × (schedule kept_system ≡ ok k')
    × IsMlfq k' waiting_queues
    × IsRunning k' 0
    × Dispatched kept_system k' 0
schedule_keeps_example = schedule_keeps kept_system-IsMlfq refl (omega arith)

schedule_highest_example :
    (k' : Kernel) × (y : ℕ) × (qs' : Queues) × (schedule (system running true 1 3) ≡ ok k')
    × IsMlfq k' qs'
    × IsRunning k' y
    × Dispatched (system running true 1 3) k' y
    × (((system running true 1 3).procs y).state ≡ runnable)
    × ((w : ℕ)
        → w < nproc
        → ((system running true 1 3).procs w).state ≡ runnable
        → ((system running true 1 3).procs w).queue ≤ ((system running true 1 3).procs y).queue)
schedule_highest_example =
    schedule_highest (system-IsMlfq 1 3 (omega arith)) 5 refl (omega arith) refl

sys_nice_high_example :
    (k' : Kernel) × (sys_nice (system running true 1 3) 0 (negsuc 11)
      ≡ ok (k', new_nice ((system running true 1 3).procs 0) (negsuc 11)))
    × (priority (k'.procs 0) ≡ 2)
    × ((k'.procs 0).queue ≡ 1)
    × IsMlfq k' (with_queue waiting_queues 1 (5 ∷ 0 ∷ []))
unfolding wrap_int ◌+ℤ◌
sys_nice_high_example =
    sys_nice_high (system-IsMlfq 1 3 (omega arith)) (system-IsRunning 1 3) (negsuc 11) (omega arith)
      (omega arith)
