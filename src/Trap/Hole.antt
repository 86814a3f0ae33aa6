-- ===== src/Trap/Hole.antt =====
-- What the kernel meets at the addresses of a region that was unmapped.
use cs330_operating_systems.Base.{
  ℕ, suc, ◌+◌, ◌%◌, ◌≤◌, ◌≡◌, ◌∙◌, arith, Bool, true, false, set, none, some, ok, panic, ◌==◌,
}
use cs330_operating_systems.Kalloc.{Kmem, pg_round_up}
use cs330_operating_systems.Vm.{vm_unmap_range}
use cs330_operating_systems.Proc.{Proc}
use cs330_operating_systems.Mmap.{
  covers, vma_find, vma_find_exact, is_positive, region, no_vma, sys_munmap,
}
use cs330_operating_systems.Mmap.Layout.{IsLayout}
use cs330_operating_systems.Mmap.Protect.{vma_find_exact-Found}
use cs330_operating_systems.Mmap.Unmap.{sys_munmap-runs, vma_find-clear}
use cs330_operating_systems.Syscall.{Bytes, argint, argptr}
use cs330_operating_systems.Syscall.Fetch.{argptr-InSpace}
use cs330_operating_systems.Trap.{Fault, was_present, page_fault, demand_page}
use cs330_operating_systems.Trap.Retry.{is_present, fault_at, access, access-panic}
use cs330_operating_systems.Trap.Served.{fault_at-lazy}

page_fault-panics :
    (f : Fault) (p : Proc) (m : Kmem)
    → was_present f ≡ false
    → f.cs % 4 ≡ 0
    → vma_find p f.va ≡ none
    → page_fault f p m ≡ panic
unfolding page_fault demand_page
page_fault-panics f p m lazy kernel none_there =
    let k : (f.cs % 4 == 0) ≡ true = ground arith in rw (lazy, none_there, k)

access-panics :
    (left : ℕ) (write : Bool) (cs va : ℕ) (p : Proc) (m : Kmem)
    → cs % 4 ≡ 0
    → is_present p.pgdir va m ≡ false
    → vma_find p va ≡ none
    → access (suc left) write cs va p m ≡ panic
access-panics left write cs va p m kernel lazy none_there =
    access-panic left write cs va p m (rw lazy) (
      page_fault-panics (fault_at write cs va p.pgdir m) p m
        (fault_at-lazy write cs va p.pgdir m lazy).0 kernel none_there)

-- After `sys_munmap` of a region, `argptr` still accepts a pointer to bytes of the region, and the
-- kernel's access to such an address panics when its page is not present.
pub munmap-panics :
    (start n i va : ℕ) {p : Proc} (m : Kmem) {m' : Kmem}
    → IsLayout p
    → is_positive n ≡ true
    → vma_find_exact p start (pg_round_up n) ≡ some i
    → vm_unmap_range p.pgdir start (pg_round_up n) m ≡ ok m'
    → covers (region start (pg_round_up n) 0) va ≡ true
    → is_present p.pgdir va m' ≡ false
    → (p' : Proc) × (sys_munmap (some start) (some n) p m ≡ ok (p', m', true))
      × ((mem : Bytes) (esp k : ℕ)
          → argint p' mem esp k ≡ some va
          → argptr p' mem esp k 1 ≡ some va)
      × ((left : ℕ) (write : Bool) (cs : ℕ)
          → cs % 4 ≡ 0
          → access (suc left) write cs va p' m' ≡ panic)
munmap-panics start n i va {p} m {m'} l pos found run inside lazy =
    let p' = record p { vmas = set p.vmas i no_vma } in
    let f = vma_find_exact-Found start (pg_round_up n) i l found in
    let below : va + 1 ≤ p.sz = ground (arith, f.inside) in
    (
      p',
      sys_munmap-runs start n i m l pos found run,
      λ mem esp k fetched.
          (argptr-InSpace p' mem esp k 1 va l.top).1
            (fetched, omega arith, omega (arith, below), below),
      λ left write cs kernel.
          access-panics left write cs va p' m' kernel lazy
            (vma_find-clear start (pg_round_up n) i va l found ∙ rw inside),
    )
