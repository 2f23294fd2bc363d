-- ===== src/Pipe.antt =====
-- projects/project_1c/kernel/pipe.c. The counters are 32 bits wide and wrap around. A call is modelled
-- from a point where it holds the lock to where it sleeps or returns; in between the pipe and the mark
-- `killed` are its own.
pub mod Fifo
pub mod Write
pub mod Read
mod Tests
use operating_systems_class.Prelude.{
  ℕ, zero, suc, ◌+◌, ◌%◌, ◌^◌, Bool, true, false, not, ◌&&◌, ◌||◌, Option, none, some, List, [],
  ◌∷◌, ◌==◌, if◌then◌else◌,
}

abbrev pub pipesize : ℕ
pipesize = 512

-- `struct pipe`
pub record Pipe : Type 0 where
  pub data_ : ℕ → ℕ
  pub nread : ℕ
  pub nwrite : ℕ
  pub readopen : Bool
  pub writeopen : Bool

-- How a call goes on: it returns -1, it sleeps, or it returns its count.
pub data Status : Type 0 where
  failed sleeping finished : Status

-- The pipe, and whether it is freed.
pub pipeclose : Pipe → (writable : Bool) → Pipe × Bool
pipeclose pi writable =
    let pi = if writable then record pi { writeopen = false } else record pi { readopen = false } in
    (pi, not pi.readopen && not pi.writeopen)

abbrev pub put_byte : Pipe → ℕ → Pipe
put_byte pi ch = record pi {
  data_ = λ j. if j == pi.nwrite % pipesize then ch else pi.data_ j;
  nwrite = (pi.nwrite + 1) % 2 ^ 32;
}

-- The loop of `pipewrite` from byte `i` on. `copyin i` is the byte at `addr + i`, unless it cannot be
-- read.
pub write_from : ℕ → (killed : Bool) → (copyin : ℕ → Option ℕ) → Pipe → ℕ → Status × Pipe × ℕ
write_from zero killed copyin pi i = (finished, pi, i)
write_from (suc rounds) killed copyin pi i =
    let next = λ (ch : ℕ). write_from rounds killed copyin (put_byte pi ch) (i + 1) in
    if not pi.readopen || killed
    then (failed, pi, i)
    else if pi.nwrite == (pi.nread + pipesize) % 2 ^ 32
    then (sleeping, pi, i)
    else elim (copyin i) [ none ↦ (finished, pi, i) | some ch ↦ next ch ]

pub pipewrite : (killed : Bool) → (copyin : ℕ → Option ℕ) → Pipe → (n : ℕ) → Status × Pipe × ℕ
pipewrite killed copyin pi n = write_from n killed copyin pi 0

abbrev pub get_byte : Pipe → ℕ
get_byte pi = pi.data_ (pi.nread % pipesize)

abbrev pub drop_byte : Pipe → Pipe
drop_byte pi = record pi { nread = (pi.nread + 1) % 2 ^ 32 }

-- The second loop of `piperead` from byte `i` on, with the bytes that it copies out. `copyout i` is
-- whether the byte at `addr + i` can be written.
pub read_from : ℕ → (copyout : ℕ → Bool) → Pipe → ℕ → Pipe × List ℕ × ℕ
read_from zero copyout pi i = (pi, [], i)
read_from (suc rounds) copyout pi i =
    let rest = read_from rounds copyout (drop_byte pi) (i + 1) in
    if pi.nread == pi.nwrite
    then (pi, [], i)
    else if copyout i
    then (rest.0, get_byte pi ∷ rest.1, rest.2)
    else (drop_byte pi, [], i)

pub piperead : (killed : Bool) → (copyout : ℕ → Bool) → Pipe → (n : ℕ) → Status × Pipe × List ℕ × ℕ
piperead killed copyout pi n =
    if pi.nread == pi.nwrite && pi.writeopen
    then (if killed then (failed, pi, [], 0) else (sleeping, pi, [], 0))
    else (let (pi', bs, i) = read_from n copyout pi 0 in (finished, pi', bs, i))
