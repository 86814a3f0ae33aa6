-- ===== src/Proc/Scheduler.antt =====
-- The weighted round-robin scheduler of proc.c.
pub mod Weights
use cs330_operating_systems.Base.{
  ℕ, zero, suc, ◌+◌, Bool, true, false, ◌&&◌, ltb, if◌then◌else◌, Option, none, some, List, [], ◌∷◌,
  ◌++◌, get_elem?, modify,
}
use cs330_operating_systems.Proc.{
  ProcState, unused, embryo, sleeping, runnable, running, zombie, Proc,
}

abbrev pub max_priority : ℕ
max_priority = 10

abbrev pub is_runnable : ProcState → Bool
is_runnable runnable = true
is_runnable _ = false

-- the two tests of the loop over the table
abbrev pub qualifies : ℕ → Proc → Bool
qualifies round p = is_runnable p.state && ltb round p.priority

abbrev pub qualifies_at : ℕ → Option Proc → Bool
qualifies_at round none = false
qualifies_at round (some p) = qualifies round p

abbrev pub set_state : ProcState → Proc → Proc
set_state s p = record p { state = s }

-- What happens to the table between the switch to process `i` and the switch back.
abbrev pub Run : Type 0
Run = ℕ → List Proc → List Proc

-- One pass over the `n` entries from `i` on: the processes that were given the CPU, in order, and
-- the table afterwards.
unfoldable pub pass : Run → ℕ → ℕ → ℕ → List Proc → List ℕ × List Proc
pass run round zero i procs = ([], procs)
pass run round (suc n) i procs = elim (qualifies_at round (get_elem? procs i)) [
  | false ↦ pass run round n (i + 1) procs
  | true ↦
      let (ran, procs') = pass run round n (i + 1) (run i (modify i (set_state running) procs)) in
      (i ∷ ran, procs')
]

abbrev pub is_empty : List ℕ → Bool
is_empty [] = true
is_empty (i ∷ is) = false

-- The rounds that are left of one weighted cycle; a round in which no process ran ends it.
unfoldable pub cycle_from : Run → ℕ → ℕ → ℕ → List Proc → List ℕ × List Proc
cycle_from run nproc zero round procs = ([], procs)
cycle_from run nproc (suc left) round procs =
    let (ran, procs₁) = pass run round nproc 0 procs in
    elim (is_empty ran) [
      | true ↦ ([], procs₁)
      | false ↦
          let (later, procs₂) = cycle_from run nproc left (round + 1) procs₁ in
          (ran ++ later, procs₂)
    ]

-- One turn of the `for(;;)` of `scheduler`.
unfoldable pub cycle : Run → ℕ → List Proc → List ℕ × List Proc
cycle run nproc procs = cycle_from run nproc max_priority 0 procs

-- A process that computes until the timer makes it `yield`.
abbrev pub cpu_bound : Run
cpu_bound i procs = modify i (set_state runnable) procs
