-- ===== src/Tests/Tables.antt =====
-- proc.c on a table of three entries, and file.c on a table of one.
use cs330_operating_systems.Base.{ℕ, ◌≡◌, refl, false, List, [], ◌∷◌, none, some, arith}
use cs330_operating_systems.Proc.{ProcState, runnable, Proc}
use cs330_operating_systems.Proc.Table.{Ptable, no_vmas}
use cs330_operating_systems.Proc.Scheduler.{cycle, cpu_bound}
use cs330_operating_systems.Proc.Scheduler.Weights.{count, cycle-priority}
use cs330_operating_systems.Base.{ok, true}
use cs330_operating_systems.File.{File, fd_pipe, still_open, filedup, fileclose}
use cs330_operating_systems.File.Refs.{filedup-fileclose}

abbrev pub process : ℕ → ProcState → Proc
process pid state = record {
  sz = 0;
  pgdir = 0;
  kstack = 0;
  state = state;
  pid = pid;
  parent = none;
  chan = none;
  killed = false;
  trace_enabled = false;
  priority = 1;
  ofile = [];
  cwd = none;
  vmas = no_vmas;
}

-- `init`, a process of weight 4, and its child
abbrev family : List Proc
family =
    process 1 runnable
    ∷ record (process 2 runnable) { parent = some 0; priority = 4 }
    ∷ record (process 3 runnable) { parent = some 1 }
    ∷ []

abbrev family_table : Ptable
family_table = record { procs = family; nextpid = 4; initproc = 0 }

cycle-priority_example :
    ((cycle cpu_bound 3 family).1 ≡ family) × (count 1 (cycle cpu_bound 3 family).0 ≡ 4)
cycle-priority_example = cycle-priority 3 1 family refl (omega arith) (omega arith)

abbrev open_file : File
open_file = record { type = fd_pipe 4096; ref = 1; readable = true; writable = false; off = 0 }

filedup-fileclose_example :
    (files : List File) × (filedup 0 (open_file ∷ []) ≡ ok files)
    × (fileclose 0 files ≡ ok (still_open, open_file ∷ []))
filedup-fileclose_example = filedup-fileclose 0 open_file (open_file ∷ []) refl (omega arith)
