-- ===== src/Tests/Pipes.antt =====
-- pipe.c on a pipe at address 4096, with a reader in slot 1 and the caller in slot 0.
use cs330_operating_systems.Base.{
  ℕ, zero, suc, ◌≡◌, refl, Bool, true, false, List, [], ◌∷◌, some, length, length-replicate,
  replicate, arith,
}
use cs330_operating_systems.Proc.{running, sleeping}
use cs330_operating_systems.Proc.Table.{Ptable}
use cs330_operating_systems.Pipe.{Pipe, write_failed, nread_chan, nwrite_chan, pipewrite, piperead}
use cs330_operating_systems.Pipe.Ring.{Holds}
use cs330_operating_systems.Pipe.Sleepers.{Asleep, NoneLost, Reads, read_result, piperead_takes}
use cs330_operating_systems.Pipe.Writers.{Writes, pipewrite_appends, pipewrite_lost_wakeup}
use cs330_operating_systems.Tests.Tables.{process}

-- nothing was written since the counters stood just below 2^32
abbrev empty_pipe : Pipe
empty_pipe = record {
  buffer = λ i. 0;
  nread = 4294967295;
  nwrite = 4294967295;
  readopen = true;
  writeopen = true;
}

empty_pipe-Holds : Holds empty_pipe []
empty_pipe-Holds = record {
  small = omega arith;
  room = omega arith;
  count = omega arith;
  byte = λ k lt. absurd (omega arith);
}

-- the caller, killed or not, and a reader that sleeps on the pipe
abbrev table : Bool → Ptable
table killed = record {
  procs =
      record (process 1 running) { killed = killed }
      ∷ record (process 2 sleeping) { chan = some (nread_chan 4096) }
      ∷ [];
  nextpid = 3;
  initproc = 0;
}

table-NoneLost : NoneLost 4096 empty_pipe [] (table false)
table-NoneLost = record {
  readers = λ i asleep opened. (refl, refl);
  writers = λ i asleep. absurd (nobody i asleep);
}
  where
    nobody : (i : ℕ) → Asleep (nwrite_chan 4096) (table false) i → ⊥
    nobody zero h = cc
    nobody (suc zero) h = cc
    nobody (suc (suc i)) h = cc

abbrev three : List ℕ
three = 104 ∷ 105 ∷ 10 ∷ []

pipewrite_appends_example :
    Writes 4096 empty_pipe [] three (pipewrite 4096 0 three empty_pipe (table false))
pipewrite_appends_example =
    pipewrite_appends 4096 0 three empty_pipe (table false) empty_pipe-Holds table-NoneLost refl

piperead_takes_example :
    Reads 4096 (read_result empty_pipe false 8 []) 8 [] (piperead 4096 0 8 empty_pipe (table false))
piperead_takes_example =
    piperead_takes 4096 0 8 empty_pipe (table false) empty_pipe-Holds table-NoneLost

abbrev many : List ℕ
many = replicate 513 7

pipewrite_lost_wakeup_example :
    (xs : List ℕ) × (length xs ≡ 512)
    × Holds (pipewrite 4096 0 many empty_pipe (table true)).1 xs
    × ((pipewrite 4096 0 many empty_pipe (table true)).0 ≡ write_failed)
    × Asleep (nread_chan 4096) (pipewrite 4096 0 many empty_pipe (table true)).2 1
pipewrite_lost_wakeup_example =
    pipewrite_lost_wakeup 4096 0 1 many empty_pipe (table true) empty_pipe-Holds refl refl
      (omega (arith, length-replicate {A = ℕ} 513 7))
