-- ===== src/Proc.antt =====
-- proc.h: what the kernel keeps for each process. Not modelled: the saved registers (`tf`,
-- `context`), and `name`.
pub mod Table
pub mod Scheduler
use cs330_operating_systems.Base.{ℕ, Bool, Option, List}

pub data ProcState : Type 0 where
  unused embryo sleeping runnable running zombie : ProcState

-- A sleep channel is an address: that of an entry of the process table, or another one.
pub data Chan : Type 0 where
  proc_chan : ℕ → Chan
  other_chan : ℕ → Chan

pub record Vma : Type 0 where
  pub start : ℕ
  pub length : ℕ
  pub prot : ℕ
  pub used : Bool

-- `parent` is an index into the process table; `chan` is `none` for the null pointer; `ofile` holds indices into the file table.
pub record Proc : Type 0 where
  pub sz : ℕ
  pub pgdir : ℕ
  pub kstack : ℕ
  pub state : ProcState
  pub pid : ℕ
  pub parent : Option ℕ
  pub chan : Option Chan
  pub killed : Bool
  pub trace_enabled : Bool
  pub priority : ℕ
  pub ofile : List (Option ℕ)
  pub cwd : Option ℕ
  pub vmas : List Vma
