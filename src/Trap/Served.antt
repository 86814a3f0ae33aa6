-- ===== src/Trap/Served.antt =====
-- The first access to a page of a region: one page fault, and the retry goes through.
use cs330_operating_systems.Base.{
  ℕ, suc, ◌≡◌, refl, ◌∙◌, ap, arith, Bool, true, false, not, ◌&&◌, ◌||◌, List, ◌∷◌, some, ok,
  update,
}
use cs330_operating_systems.Kalloc.{Kmem, pg_round_down}
use cs330_operating_systems.Kalloc.Counts.{Pool, Refines}
use cs330_operating_systems.Vm.{prot_write, Slot, load, pde_slot, pte_slot, vm_alloc_mmap_page}
use cs330_operating_systems.Vm.Pte.{has_flag, pte_p, pte_w}
use cs330_operating_systems.Vm.Lazy.{
  IsLazy, Served, IsLazy-round_down, Served-of_page, vm_alloc_mmap_page-Served,
}
use cs330_operating_systems.Proc.{Proc, Vma}
use cs330_operating_systems.Mmap.{vma_find}
use cs330_operating_systems.Trap.{
  demand_page, is_writable, page_fault, was_present, was_write, Fault,
}
use cs330_operating_systems.Trap.Retry.{
  grants, is_present, fault_at, leaves, access, made, access-retries, access-made,
}

demand_page-runs :
    (f : Fault) (p : Proc) (v : Vma) (m : Kmem) {m' : Kmem}
    → was_present f ≡ false
    → (was_write f && not (is_writable v)) ≡ false
    → vma_find p f.va ≡ some v
    → vm_alloc_mmap_page p.pgdir (pg_round_down f.va) v.prot m ≡ ok (true, m')
    → page_fault f p m ≡ ok (p, m')
unfolding page_fault demand_page
demand_page-runs f p v m lazy may found alloc = rw (lazy, found, may, alloc)

absent : {m : Kmem} {q : Pool} {d va : ℕ} {t : Slot} → IsLazy m q d va t → is_present d va m ≡ false
absent {m} {q} {d} {va} {t} c =
    ap (λ x. has_flag (load (pde_slot d va) m) pte_p && has_flag (load x m) pte_p) c.place
    ∙ rw (c.table, c.free)

pub fault_at-lazy :
    (write : Bool) (cs va d : ℕ) (m : Kmem)
    → is_present d va m ≡ false
    → (was_present (fault_at write cs va d m) ≡ false)
      × (was_write (fault_at write cs va d m) ≡ write)
fault_at-lazy true cs va d m h = (rw h, rw h)
fault_at-lazy false cs va d m h = (rw h, rw h)

granted :
    {m m' : Kmem} {q : Pool} {d va prot f : ℕ} {t : Slot} (write : Bool)
    → IsLazy m q d va t
    → Served m m' d va prot f t
    → (write && not (has_flag prot prot_write)) ≡ false
    → grants write d va m' ≡ true
granted {m} {m'} {q} {d} {va} {prot} {f} {t} write c s may =
    let there : has_flag (load (pde_slot d va) m') pte_p ≡ true =
      ap (λ w. has_flag w pte_p) s.directory ∙ c.table in
    let place : pte_slot (load (pde_slot d va) m') va ≡ t =
      ap (λ w. pte_slot w va) s.directory ∙ c.place in
    ap
      (λ x.
        (has_flag (load (pde_slot d va) m') pte_p && has_flag (load x m') pte_p)
        && (not write || has_flag (load x m') pte_w))
      place
    ∙ rw (there, s.present, s.writable, allowed write may)
  where
    allowed :
        (write : Bool)
        → (write && not (has_flag prot prot_write)) ≡ false
        → ((true && true) && (not write || has_flag prot prot_write)) ≡ true
    allowed true h = ground arith
    allowed false h = refl

-- A process that was not killed accesses a page of a region for the first time, and the region allows
-- the access. When the page table is there and a frame is free, one page fault gives it that frame,
-- filled with zeros and with the region's protection, and the retry goes through.
pub access-Served :
    {m : Kmem} {q : Pool} {t : Slot} (left : ℕ) (write : Bool) (cs va f : ℕ) (fs : List ℕ)
    (p : Proc) (v : Vma)
    → p.killed ≡ false
    → vma_find p va ≡ some v
    → (write && not (is_writable v)) ≡ false
    → IsLazy m q p.pgdir va t
    → q.free ≡ f ∷ fs
    → (m' : Kmem) × (access (suc left) write cs va p m ≡ ok (made p m'))
      × Refines m' (record { count = update q.count f 1; free = fs })
      × Served m m' p.pgdir va v.prot f t
access-Served {m} {q} {t} left write cs va f fs p v alive found may c e =
    let (m', alloc, r, s) = vm_alloc_mmap_page-Served (IsLazy-round_down c) v.prot f fs e in
    let served = Served-of_page s in
    let lazy = absent c in
    let (here, kind) = fault_at-lazy write cs va p.pgdir m lazy in
    let fault =
      demand_page-runs (fault_at write cs va p.pgdir m) p v m here
        (ap (λ b. b && not (is_writable v)) kind ∙ may) found alloc in
    let refused : grants write p.pgdir va m ≡ false = rw lazy in
    let stays : leaves cs p ≡ false = rw alive in
    (
      m',
      access-retries left write cs va p m refused fault
          ∙ rw (stays, access-made left write cs va p m' (granted write c served may)),
      r,
      served,
    )
