-- ===== src/Pipe.antt =====
-- pipe.c: the ring of a pipe, and the processes that sleep on it. A call is modelled from one
-- acquisition of `p->lock` to the next: it runs until it returns or sleeps, and the process goes on
-- from there when it is woken.
pub mod Ring
pub mod Sleepers
pub mod Writers
pub mod Close
use cs330_operating_systems.Base.{
  ℕ, zero, suc, ◌+◌, ◌%◌, Bool, true, false, not, ◌&&◌, ◌||◌, ◌==◌, if◌then◌else◌, Option, none,
  some, List, [], ◌∷◌, get_elem?, update, Outcome, ok, panic, ◌>>=◌,
}
use cs330_operating_systems.Kalloc.{Kmem, kalloc, kfree, add_uint}
use cs330_operating_systems.Proc.{Chan, other_chan, Proc}
use cs330_operating_systems.Proc.Table.{Ptable, wakeup, sleep}

abbrev pub pipesize : ℕ
pipesize = 512

-- `buffer` is `data`: it is read and written below `pipesize` only
pub record Pipe : Type 0 where
  pub buffer : ℕ → ℕ
  pub nread : ℕ
  pub nwrite : ℕ
  pub readopen : Bool
  pub writeopen : Bool

-- `&p->nread` and `&p->nwrite` of a pipe at address `a`: the lock takes 52 bytes
abbrev pub nread_chan : ℕ → Chan
nread_chan a = other_chan (a + 564)

abbrev pub nwrite_chan : ℕ → Chan
nwrite_chan a = other_chan (a + 568)

abbrev pub killed_in : Option Proc → Bool
killed_in none = false
killed_in (some p) = p.killed

-- `myproc()->killed` for the process in slot `i`
abbrev pub is_killed : ℕ → Ptable → Bool
is_killed i t = killed_in (get_elem? t.procs i)

-- `p->data[p->nwrite++ % PIPESIZE] = b`
abbrev pub put : ℕ → Pipe → Pipe
put b p = record p {
  buffer = update p.buffer (p.nwrite % pipesize) b;
  nwrite = add_uint p.nwrite 1;
}

-- `p->data[p->nread++ % PIPESIZE]`
abbrev pub next_byte : Pipe → ℕ
next_byte p = p.buffer (p.nread % pipesize)

abbrev pub advance : Pipe → Pipe
advance p = record p { nread = add_uint p.nread 1 }

abbrev pub is_full : Pipe → Bool
is_full p = p.nwrite == add_uint p.nread pipesize

abbrev pub is_empty : Pipe → Bool
is_empty p = p.nread == p.nwrite

-- `written` returns `n` and `write_failed` -1; `write_sleeps` has the bytes that are left.
pub data WriteResult : Type 0 where
  written : WriteResult
  write_failed : WriteResult
  write_sleeps : List ℕ → WriteResult

pub data ReadResult : Type 0 where
  got : List ℕ → ReadResult
  read_failed : ReadResult
  read_sleeps : ReadResult

-- what a writer does at a full pipe
abbrev pub at_full : Bool → List ℕ → Pipe → WriteResult
at_full killed bytes p = if not p.readopen || killed then write_failed else write_sleeps bytes

-- the loop of `pipewrite`
unfoldable pub pipewrite_from : Bool → List ℕ → Pipe → WriteResult × Pipe
pipewrite_from killed [] p = (written, p)
pipewrite_from killed (b ∷ bytes) p =
    let rest = pipewrite_from killed bytes (put b p) in
    if is_full p then (at_full killed (b ∷ bytes) p, p) else rest

-- the second loop of `piperead`
unfoldable pub piperead_from : ℕ → Pipe → List ℕ × Pipe
piperead_from zero p = ([], p)
piperead_from (suc n) p =
    let (bytes, p₁) = piperead_from n (advance p) in
    if is_empty p then ([], p) else (next_byte p ∷ bytes, p₁)

-- how the table is left: a writer that fails wakes nobody
abbrev pub after_write : ℕ → ℕ → WriteResult → Ptable → Ptable
after_write a i written t = wakeup (nread_chan a) t
after_write a i write_failed t = t
after_write a i (write_sleeps rest) t = sleep i (nwrite_chan a) (wakeup (nread_chan a) t)

-- `a` is the address of the pipe, and the caller is in slot `i`.
unfoldable pub pipewrite : ℕ → ℕ → List ℕ → Pipe → Ptable → WriteResult × Pipe × Ptable
unfolding pipewrite_from
pipewrite a i bytes p t =
    let (r, p₁) = pipewrite_from (is_killed i t) bytes p in (r, p₁, after_write a i r t)

unfoldable pub piperead : ℕ → ℕ → ℕ → Pipe → Ptable → ReadResult × Pipe × Ptable
unfolding piperead_from
piperead a i n p t =
    if is_empty p && p.writeopen
    then if is_killed i t then (read_failed, p, t) else (read_sleeps, p, sleep i (nread_chan a) t)
    else let (bytes, p₁) = piperead_from n p in (got bytes, p₁, wakeup (nwrite_chan a) t)

abbrev pub close_end : Bool → Pipe → Pipe
close_end writable p =
    if writable then record p { writeopen = false } else record p { readopen = false }

-- The pipe's page is freed once both ends are closed.
unfoldable pub pipeclose : ℕ → Bool → Pipe → Ptable → Kmem → Outcome (Pipe × Ptable × Kmem)
pipeclose a writable p t m =
    let p₁ = close_end writable p in
    let t₁ = wakeup (if writable then nread_chan a else nwrite_chan a) t in
    if not p₁.readopen && not p₁.writeopen
    then (kfree a m >>= λ m₁. ok (p₁, t₁, m₁))
    else ok (p₁, t₁, m)
