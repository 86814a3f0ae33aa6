-- ===== src/Tests/Processes.antt =====
-- proc.c and pipe.c where they take or give back a page of the machine of Frames.
use cs330_operating_systems.Base.{
  ℕ, zero, suc, ◌≡◌, refl, true, false, [], ◌∷◌, find_index, update, arith, Outcome, ok,
}
use cs330_operating_systems.Kalloc.{Kmem, kalloc, kfree_locked, kfree}
use cs330_operating_systems.Kalloc.Chain.{page_of}
use cs330_operating_systems.Proc.{unused, running, Chan, Proc}
use cs330_operating_systems.Proc.Table.{Ptable, kill}
use cs330_operating_systems.Proc.Table.Pids.{Doomed, kill_marks_unused}
use cs330_operating_systems.Pipe.{Pipe, nread_chan, nwrite_chan}
use cs330_operating_systems.Pipe.Ring.{Holds}
use cs330_operating_systems.Pipe.Sleepers.{Asleep, NoneLost}
use cs330_operating_systems.Tests.Frames.{machine}
use cs330_operating_systems.Tests.Tables.{process}

-- one process, and a slot that was never used
abbrev one_process : Ptable
one_process = record {
  procs = process 1 running ∷ process 0 unused ∷ [];
  nextpid = 2;
  initproc = 0;
}

abbrev stack_taken : Kmem
stack_taken = record machine { freelist = 0; refcnt = update machine.refcnt 1000 1 }

takes_stack : kalloc machine ≡ ok (page_of 1000, stack_taken)
unfolding kalloc
takes_stack = refl

kill_marks_unused_example : Doomed 1 machine stack_taken (kill 0 one_process)
unfolding find_index kill
kill_marks_unused_example =
    kill_marks_unused one_process machine 1 (process 0 unused) refl refl refl takes_stack
      (omega arith)

-- a pipe in the page of frame 1000
abbrev half_open : Pipe
half_open = record { buffer = λ i. 0; nread = 7; nwrite = 7; readopen = true; writeopen = false }

half_open-Holds : Holds half_open []
half_open-Holds = record {
  small = omega arith;
  room = omega arith;
  count = omega arith;
  byte = λ k lt. absurd (omega arith);
}

one_process-NoneLost : NoneLost (page_of 1000) half_open [] one_process
one_process-NoneLost = record {
  readers = λ i asleep opened. absurd (nobody i (nread_chan (page_of 1000)) asleep);
  writers = λ i asleep. absurd (nobody i (nwrite_chan (page_of 1000)) asleep);
}
  where
    nobody : (i : ℕ) (c : Chan) → Asleep c one_process i → ⊥
    nobody zero c h = cc
    nobody (suc zero) c h = cc
    nobody (suc (suc i)) c h = cc

abbrev freed_of : Outcome Kmem → Kmem
freed_of (ok m) = m
freed_of _ = stack_taken

abbrev page_freed : Kmem
page_freed = freed_of (kfree (page_of 1000) stack_taken)

frees_page : kfree (page_of 1000) stack_taken ≡ ok page_freed
unfolding kfree kfree_locked
frees_page = refl
