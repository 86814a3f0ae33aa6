-- ===== src/Proc/Table.antt =====
-- The operations of proc.c on the process table. Each is the part that runs under `ptable.lock`.
pub mod Pids
pub mod Wakeup
pub mod Exit
use cs330_operating_systems.Base.{
  ℕ, zero, suc, ◌+◌, Bool, true, false, not, ◌&&◌, ◌||◌, ltb, leb, ◌==◌, if◌then◌else◌, Option,
  none, some, List, [], ◌∷◌, map, Outcome, ok, panic, ◌>>=◌, find_index, get_elem?, modify,
  replicate,
}
use cs330_operating_systems.Kalloc.{Kmem, kalloc, kfree}
use cs330_operating_systems.Proc.{
  ProcState, unused, embryo, sleeping, runnable, running, zombie, Chan, proc_chan, other_chan, Vma,
  Proc,
}

pub record Ptable : Type 0 where
  pub procs : List Proc
  pub nextpid : ℕ
  pub initproc : ℕ

abbrev pub is_unused : ProcState → Bool
is_unused unused = true
is_unused _ = false

abbrev pub is_sleeping : ProcState → Bool
is_sleeping sleeping = true
is_sleeping _ = false

abbrev pub is_zombie : ProcState → Bool
is_zombie zombie = true
is_zombie _ = false

abbrev pub same_chan : Chan → Option Chan → Bool
same_chan (proc_chan i) (some (proc_chan j)) = i == j
same_chan (other_chan a) (some (other_chan b)) = a == b
same_chan _ _ = false

abbrev pub no_vmas : List Vma
no_vmas = replicate 16 (record { start = 0; length = 0; prot = 0; used = false })

abbrev pub default_priority : ℕ
default_priority = 1

-- the fields that `allocproc` sets before it drops the lock; the others keep what they held
abbrev pub embryo_of : ℕ → Proc → Proc
embryo_of pid p = record p {
  state = embryo;
  pid = pid;
  trace_enabled = false;
  vmas = no_vmas;
  priority = default_priority;
}

abbrev pub change : ℕ → (Proc → Proc) → Ptable → Ptable
change i f t = record t { procs = modify i f t.procs }

-- `allocproc`, from the entry found on. Its end, the kernel stack's contents, is not modelled.
unfoldable pub allocproc_at : ℕ → Ptable → Kmem → Outcome (Option ℕ × Ptable × Kmem)
allocproc_at i t m =
    let t₁ = change i (embryo_of t.nextpid) (record t { nextpid = t.nextpid + 1 }) in
    kalloc m >>= λ (stack, m₁).
    if stack == 0
    then ok (none, change i (λ p. record p { kstack = stack; state = unused }) t₁, m₁)
    else ok (some i, change i (λ p. record p { kstack = stack }) t₁, m₁)

unfoldable pub allocproc : Ptable → Kmem → Outcome (Option ℕ × Ptable × Kmem)
unfolding allocproc_at
allocproc t m = elim (find_index (λ p. is_unused p.state) t.procs) [
  | none ↦ ok (none, t, m)
  | some i ↦ allocproc_at i t m
]

-- one entry in `wakeup1`
abbrev pub wake : Chan → Proc → Proc
wake c p = if is_sleeping p.state && same_chan c p.chan then record p { state = runnable } else p

-- `wakeup1` and `wakeup`
unfoldable pub wakeup : Chan → Ptable → Ptable
wakeup c t = record t { procs = map (wake c) t.procs }

-- The return value 0 is `true`, and -1 is `false`.
unfoldable pub kill : ℕ → Ptable → Ptable × Bool
kill pid t = elim (find_index (λ p. p.pid == pid) t.procs) [
  | none ↦ (t, false)
  | some i ↦ (
    change i
        (λ p. record p { killed = true; state = if is_sleeping p.state then runnable else p.state })
        t,
    true,
  )
]

-- `sleep` before it calls `sched`, and after it was woken
unfoldable pub sleep : ℕ → Chan → Ptable → Ptable
sleep i c = change i (λ p. record p { chan = some c; state = sleeping })

unfoldable pub woken : ℕ → Ptable → Ptable
woken i = change i (λ p. record p { chan = none })

unfoldable pub yield_cpu : ℕ → Ptable → Ptable
yield_cpu i = change i (λ p. record p { state = runnable })

-- `setprio` of an `int`: a negative one is a pattern from 2^31 on, and so above the greatest.
unfoldable pub setprio : ℕ → ℕ → Ptable → Ptable × Bool
setprio i priority t =
    if ltb priority 1 || ltb 10 priority
    then (t, false)
    else (change i (λ p. record p { priority = priority }) t, true)

abbrev pub is_child : ℕ → Option ℕ → Bool
is_child i none = false
is_child i (some j) = j == i

-- `wakeup1(curproc->parent)`; no process sleeps on the null pointer.
abbrev pub wake_parent : Option ℕ → List Proc → List Proc
wake_parent none procs = procs
wake_parent (some j) procs = map (wake (proc_chan j)) procs

abbrev pub set_parent : ℕ → Proc → Proc
set_parent j p = record p { parent = some j }

-- the loop's body in `exit` at entry `k`, which holds `p`: a child of `i` becomes one of `init`, which
-- is woken if the child is a zombie
abbrev pub adopt : ℕ → ℕ → ℕ → Option Proc → List Proc → List Proc
adopt i init k none procs = procs
adopt i init k (some p) procs =
    if is_child i p.parent
    then (if is_zombie p.state
        then map (wake (proc_chan init)) (modify k (set_parent init) procs)
        else modify k (set_parent init) procs)
    else procs

-- the loop at entry `k`, `n` entries being left
unfoldable pub adopt_from : ℕ → ℕ → ℕ → ℕ → List Proc → List Proc
adopt_from i init zero k procs = procs
adopt_from i init (suc n) k procs =
    adopt_from i init n (k + 1) (adopt i init k (get_elem? procs k) procs)

-- `exit`, after the process has closed its files and left its directory
unfoldable pub exit_locked : ℕ → ℕ → Option ℕ → Ptable → Ptable
unfolding adopt_from
exit_locked nproc i parent t =
    let procs₁ = wake_parent parent t.procs in
    let procs₂ = adopt_from i t.initproc nproc 0 procs₁ in
    record t { procs = modify i (λ p. record p { state = zombie }) procs₂ }
