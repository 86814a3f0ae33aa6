-- ===== src/Proc/Table/Pids.antt =====
-- The process numbers of proc.c: `allocproc` and `kill`.
use mathlib.Core.Path.{subst}
use cs330_operating_systems.Base.{
  ℕ, ◌+◌, ◌<◌, ◌≡◌, refl, sym, ◌≢◌, Bool, true, false, arith, ◌==◌, if◌then◌else◌, Option, some,
  get_elem?, get_elem?-modify_self, modify_twice, find_index, Outcome, ok,
}
use cs330_operating_systems.Kalloc.{Kmem, kalloc}
use cs330_operating_systems.Proc.{unused, embryo, runnable, Proc}
use cs330_operating_systems.Proc.Table.{
  Ptable, is_unused, is_sleeping, embryo_of, change, allocproc_at, allocproc, kill,
}

-- the process in slot `i`
abbrev pub InSlot : Ptable → ℕ → Proc → Type 0
InSlot t i p = (get_elem? t.procs i ≡ some p) × (is_unused p.state ≡ false)

-- No two processes have one number, and the next number is above all.
pub record Numbered (t : Ptable) : Type 0 where
  pub below : (i : ℕ) (p : Proc) → InSlot t i p → p.pid < t.nextpid
  pub single : (i j : ℕ) (p q : Proc) → InSlot t i p → InSlot t j q → p.pid ≡ q.pid → i ≡ j

-- the table with one entry replaced by one that has the next number, or by none
abbrev pub renumber : ℕ → (Proc → Proc) → Ptable → Ptable
renumber i f t = change i f (record t { nextpid = t.nextpid + 1 })

-- what `allocproc` returns: a process with the next number, or nothing
abbrev pub Allocates : Ptable → Outcome (Option ℕ × Ptable × Kmem) → Type 0
Allocates t o =
    (r : Option ℕ) × (t' : Ptable) × (m' : Kmem) × (o ≡ ok (r, t', m'))
    × Numbered t'
    × ((i : ℕ)
        → r ≡ some i
        → (p : Proc) × (get_elem? t'.procs i ≡ some p) × (p.pid ≡ t.nextpid) × (p.state ≡ embryo))

-- the entry once the stack is there, and once it could not be had
abbrev pub with_stack : ℕ → ℕ → Proc → Proc
with_stack pid stack p = record (embryo_of pid p) { kstack = stack }

abbrev pub without_stack : ℕ → ℕ → Proc → Proc
without_stack pid stack p = record (embryo_of pid p) { kstack = stack; state = unused }

allocproc_at-stack :
    {stack : ℕ} {m₁ : Kmem} (i : ℕ) (t : Ptable) (m : Kmem)
    → kalloc m ≡ ok (stack, m₁)
    → (stack == 0) ≡ false
    → allocproc_at i t m ≡ ok (some i, renumber i (with_stack t.nextpid stack) t, m₁)
unfolding allocproc_at
allocproc_at-stack {stack} i t m run some_stack = rw (
  run,
  some_stack,
  modify_twice i (embryo_of t.nextpid) (λ p. record p { kstack = stack }) t.procs,
)

-- what `kill` does to the entry it finds
abbrev pub marked : Proc → Proc
marked p = record p { killed = true; state = if is_sleeping p.state then runnable else p.state }

kill-found :
    (pid i : ℕ) (t : Ptable)
    → find_index (λ p. p.pid == pid) t.procs ≡ some i
    → kill pid t ≡ (change i marked t, true)
unfolding kill
kill-found pid i t e = rw (e, kill)

pub allocproc-found :
    {stack : ℕ} {m₁ : Kmem} (i : ℕ) (t : Ptable) (m : Kmem)
    → find_index (λ p. is_unused p.state) t.procs ≡ some i
    → kalloc m ≡ ok (stack, m₁)
    → stack ≢ 0
    → allocproc t m ≡ ok (some i, renumber i (with_stack t.nextpid stack) t, m₁)
unfolding allocproc
allocproc-found i t m e run some_stack =
    rw (e, allocproc) (allocproc_at-stack i t m run (ground arith))

-- a kill that reports success, and the process that is put into slot `i` after it
abbrev pub Doomed : ℕ → Kmem → Kmem → Ptable × Bool → Type 0
Doomed i m m₁ (t, done) =
    (done ≡ true)
    × ((t' : Ptable) × (p : Proc) × (allocproc t m ≡ ok (some i, t', m₁))
        × (get_elem? t'.procs i ≡ some p)
        × (p.state ≡ embryo)
        × (p.killed ≡ true))

-- When the first slot with the number 0 is also the first unused one after `kill` of 0, that `kill`
-- succeeds, and if there is memory for a stack, the process that `allocproc` then puts into the
-- slot is killed from the start.
pub kill_marks_unused :
    {stack : ℕ} {m₁ : Kmem} (t : Ptable) (m : Kmem) (i : ℕ) (v : Proc)
    → get_elem? t.procs i ≡ some v
    → find_index (λ p. p.pid == 0) t.procs ≡ some i
    → find_index (λ p. is_unused p.state) (kill 0 t).0.procs ≡ some i
    → kalloc m ≡ ok (stack, m₁)
    → stack ≢ 0
    → Doomed i m m₁ (kill 0 t)
kill_marks_unused {stack} {m₁} t m i v at first free run some_stack =
    let e = kill-found 0 i t first in
    let free' = subst (λ r. find_index (λ p. is_unused p.state) r.0.procs ≡ some i) e free in
    let t₁ = change i marked t in
    let at₁ = get_elem?-modify_self i marked t.procs v at in
    subst (Doomed i m m₁) (sym e) (
      refl,
      (
        renumber i (with_stack t.nextpid stack) t₁,
        with_stack t.nextpid stack (marked v),
        allocproc-found i t₁ m free' run some_stack,
        get_elem?-modify_self i (with_stack t.nextpid stack) t₁.procs (marked v) at₁,
        refl,
        refl,
      ),
    )
