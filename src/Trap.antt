-- ===== src/Trap.antt =====
-- The page-fault case of `trap` in trap.c.
pub mod Faults
pub mod Retry
pub mod Served
pub mod Hole
use cs330_operating_systems.Base.{
  ℕ, zero, suc, ◌+◌, ◌%◌, Bool, true, false, not, ◌&&◌, ◌||◌, ◌==◌, if◌then◌else◌, Option, none,
  some, Outcome, ok, panic, ◌>>=◌,
}
use cs330_operating_systems.Kalloc.{Kmem, pg_round_down}
use cs330_operating_systems.Vm.{
  CowResult, resolved, not_cow, no_memory, cow_fault, vm_alloc_mmap_page, prot_write,
}
use cs330_operating_systems.Vm.Pte.{has_flag}
use cs330_operating_systems.Proc.{Vma, Proc}
use cs330_operating_systems.Mmap.{vma_find}

-- The hardware's error code and code segment, and CR2.
pub record Fault : Type 0 where
  pub err : ℕ
  pub cs : ℕ
  pub va : ℕ

-- the low bits of the error code: the page was present, the access was a write
abbrev pub was_present : Fault → Bool
was_present f = has_flag f.err 1

abbrev pub was_write : Fault → Bool
was_write f = has_flag f.err 2

-- `(tf->cs & 3) == 0`
abbrev pub in_kernel : Fault → Bool
in_kernel f = f.cs % 4 == 0

abbrev pub kill_proc : Proc → Proc
kill_proc p = record p { killed = true }

-- a fault that is an error: in the kernel a panic, in a process its end
abbrev pub violation : Fault → Proc → Kmem → Outcome (Proc × Kmem)
violation f p m = if in_kernel f then panic else ok (kill_proc p, m)

abbrev pub is_writable : Vma → Bool
is_writable v = has_flag v.prot prot_write

abbrev pub is_read_only : Option Vma → Bool
is_read_only none = false
is_read_only (some v) = not (is_writable v)

-- CASE 1, from the result of `cow_fault` on
abbrev pub after_cow : CowResult → Fault → Proc → Kmem → Outcome (Proc × Kmem)
after_cow resolved f p m = ok (p, m)
after_cow no_memory f p m = ok (kill_proc p, m)
after_cow not_cow f p m = violation f p m

-- CASE 3: the page is not present
unfoldable pub demand_page : Option Vma → Fault → Proc → Kmem → Outcome (Proc × Kmem)
demand_page none f p m = violation f p m
demand_page (some v) f p m =
    if was_write f && not (is_writable v)
    then ok (kill_proc p, m)
    else (vm_alloc_mmap_page p.pgdir (pg_round_down f.va) v.prot m >>= λ (done, m₁).
        ok (if done then p else kill_proc p, m₁))

unfoldable pub page_fault : Fault → Proc → Kmem → Outcome (Proc × Kmem)
unfolding demand_page
page_fault f p m =
    let v = vma_find p f.va in
    if was_present f && was_write f
    then if is_read_only v
      then ok (kill_proc p, m)
      else (cow_fault p.pgdir (pg_round_down f.va) m >>= λ (r, m₁). after_cow r f p m₁)
    else if was_present f
    then violation f p m
    else demand_page v f p m
