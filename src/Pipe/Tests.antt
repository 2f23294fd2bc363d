-- ===== src/Pipe/Tests.antt =====
-- The theorems on pipes at a pipe whose counters are about to wrap around.
use operating_systems_class.Prelude.{ℕ, ◌+◌, ◌-◌, ◌^◌, ◌≡◌, true, false, some, List, arith, refl}
use operating_systems_class.Pipe.{Pipe, finished, pipewrite, piperead}
use operating_systems_class.Pipe.Fifo.{IsPipe}
use operating_systems_class.Pipe.Write.{Wrote, pipewrite-Wrote}
use operating_systems_class.Pipe.Read.{Got, piperead-Got}

-- Three bytes wait.
abbrev three : Pipe
three = record {
  data_ = λ j. j;
  nread = 2 ^ 32 - 4;
  nwrite = 2 ^ 32 - 1;
  readopen = true;
  writeopen = true;
}

three-IsPipe : IsPipe three
three-IsPipe = record { small_read = omega arith; small_write = omega arith; fits = omega arith }

pipewrite-Wrote_example :
    Wrote false (λ i. some (i + 65)) three 0 2 (pipewrite false (λ i. some (i + 65)) three 2)
pipewrite-Wrote_example = pipewrite-Wrote false (λ i. some (i + 65)) three 2 three-IsPipe

piperead-Got_example :
    (r : Pipe × List ℕ × ℕ) × (piperead false (λ i. true) three 2 ≡ (finished, r.0, r.1, r.2))
    × Got (λ i. true) three 0 2 r
piperead-Got_example = piperead-Got false (λ i. true) three 2 three-IsPipe refl
