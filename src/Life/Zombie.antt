-- ===== src/Life/Zombie.antt =====
-- `exit` as a whole: what it leaves of the process, its children and the queues.
use operating_systems_class.Prelude.{ℕ, ◌<◌, ◌≡◌, ◌≢◌, some, arith, refl, if◌then◌else◌, ◌∙◌}
use operating_systems_class.Prelude.Int.{ℤ}
use operating_systems_class.Run.{Run, ok, fault}
use operating_systems_class.Queue.{nproc}
use operating_systems_class.Queue.View.{Queues}
use operating_systems_class.Proc.{running, zombie, Kernel, put_proc}
use operating_systems_class.Life.{is_proc, reparent, exit, parent_chan}
use operating_systems_class.Life.Wake.{wakeup_refines}
use operating_systems_class.Life.Fork.{put_proc-IsMlfq}
use operating_systems_class.Life.Exit.{reparent_from_refines, Woken-proc}
use operating_systems_class.Sched.Inv.{IsMlfq, IsRunning, quantum_of_queue}

-- Process `x` has exited.
pub record Exited (k k' : Kernel) (x : ℕ) (code : ℤ) : Type 0 where
  pub state : (k'.procs x).state ≡ zombie
  pub status : (k'.procs x).xstate ≡ code
  pub pid : (k'.procs x).pid ≡ (k.procs x).pid
  pub children :
      (y : ℕ)
      → y < nproc
      → (k'.procs y).parent
        ≡ (if is_proc x (k.procs y).parent then some k.initproc else (k.procs y).parent)

became_zombie :
    (k : Kernel) (x y : ℕ) (status : ℤ)
    → let k' = put_proc k x (record (k.procs x) { xstate = status; state = zombie }) in
      ((k'.procs y).parent ≡ (k.procs y).parent) × ((k'.procs y).pid ≡ (k.procs y).pid)
became_zombie k x y status = (ground arith, ground arith)

-- What `exit` needs of the closing of the files of `x`: from a state in order in which `x` runs, it comes
-- back to `x`, which runs, in a state in order.
abbrev pub Closes : (Kernel → ℕ → Run Kernel) → ℕ → Type 0
Closes close_files x =
    (k : Kernel) (qs : Queues)
    → IsMlfq k qs
    → IsRunning k x
    → (k' : Kernel) × (qs' : Queues) × (close_files k x ≡ ok k') × IsMlfq k' qs' × IsRunning k' x

-- From a state where the invariant of queues and quanta holds, and if the closing of its files comes
-- back in a state in order in which it runs, `exit` of the running process, unless it is the first
-- process, does not fault and keeps the invariant; of the state with the files closed, it leaves a
-- zombie with its status and number, and each child of it has the first process for its parent.
pub exit_refines :
    {k : Kernel} {qs : Queues} {x : ℕ} (close_files : Kernel → ℕ → Run Kernel) (status : ℤ)
    → Closes close_files x
    → IsMlfq k qs
    → IsRunning k x
    → x ≢ k.initproc
    → (k1 : Kernel) × (k' : Kernel) × (qs' : Queues) × (close_files k x ≡ ok k1)
      × (exit close_files k x status ≡ ok k')
      × IsMlfq k' qs'
      × Exited k1 k' x status
unfolding exit reparent
exit_refines {k} {qs} {x} close_files status closes m0 run0 n =
    let (k0, qs0, closed, m, run) = closes k qs m0 run0 in
    let (k1, qs1, adopted, m1, a) = reparent_from_refines x nproc 0 m run.in_table run.state refl in
    let s1 : (k1.procs x).state ≡ running = a.running_one ∙ run.state in
    let (k2, qs2, woke, m2, w) = wakeup_refines (parent_chan (k1.procs x).parent) m1 in
    let s2 : (k2.procs x).state ≡ running = (Woken-proc w x run.in_table).2 (rw s1 refl) ∙ s1 in
    let dead = record (k2.procs x) { xstate = status; state = zombie } in
    (
      k0,
      put_proc k2 x dead,
      qs2,
      closed,
      ground (arith, closed, adopted, woke),
      put_proc-IsMlfq x dead m2 (ground (arith, s2)) (ground arith) (λ e. absurd (ground arith))
          (λ h. m2.levels x h) (λ h. rw (quantum_of_queue dead (k2.procs x) refl) (m2.quanta x h)),
      record {
        state = ground arith;
        status = ground arith;
        pid =
            (became_zombie k2 x x status).1
            ∙ (Woken-proc w x run.in_table).1
            ∙ a.own_pid x run.in_table;
        children = λ y h.
            (became_zombie k2 x y status).0 ∙ (Woken-proc w y h).0 ∙ a.children y (omega arith) h;
      },
    )

-- The first process cannot exit: `exit` panics.
pub exit-init :
    (close_files : Kernel → ℕ → Run Kernel) (k : Kernel) (status : ℤ)
    → exit close_files k k.initproc status ≡ fault
unfolding exit
exit-init close_files k status = ground arith
