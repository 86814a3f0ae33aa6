-- ===== src/Trap/Retry.antt =====
-- An access that faults and is tried again: the hardware's check, the page-fault case of `trap` in
-- trap.c, and the end of `trap`, where a killed process exits on its way back to user mode.
use cs330_operating_systems.Base.{
  ◌≡◌, ◌∙◌, arith, ℕ, zero, suc, ◌+◌, ◌%◌, Bool, true, false, not, ◌&&◌, ◌||◌, ◌==◌, if◌then◌else◌,
  Outcome, ok, panic, out_of_fuel, ◌>>=◌,
}
use cs330_operating_systems.Kalloc.{Kmem}
use cs330_operating_systems.Vm.{Slot, load, pde_slot, pte_slot}
use cs330_operating_systems.Vm.Pte.{has_flag, pte_p, pte_w}
use cs330_operating_systems.Proc.{Proc}
use cs330_operating_systems.Mmap.{vma_find}
use cs330_operating_systems.Trap.Faults.{page_fault-read_only}
use cs330_operating_systems.Trap.{kill_proc, is_read_only, Fault, page_fault}

-- the entry for the address, when there is a page table
abbrev pub pte_of : ℕ → ℕ → Kmem → Slot
pte_of pgdir va m = pte_slot (load (pde_slot pgdir va) m) va

abbrev pub is_present : ℕ → ℕ → Kmem → Bool
is_present pgdir va m =
    has_flag (load (pde_slot pgdir va) m) pte_p && has_flag (load (pte_of pgdir va m) m) pte_p

-- The kernel runs with write protection on, so that PTE_W binds it too.
abbrev pub grants : Bool → ℕ → ℕ → Kmem → Bool
grants write pgdir va m =
    is_present pgdir va m && (not write || has_flag (load (pte_of pgdir va m) m) pte_w)

abbrev pub bit_of : Bool → ℕ → ℕ
bit_of b k = if b then k else 0

-- the fault that the hardware reports: bit 0 for a present page, bit 1 for a write
abbrev pub fault_at : Bool → ℕ → ℕ → ℕ → Kmem → Fault
fault_at write cs va pgdir m = record {
  err = bit_of (is_present pgdir va m) 1 + bit_of write 2;
  cs = cs;
  va = va;
}

-- `p->killed && (tf->cs & 3) == DPL_USER`
abbrev pub leaves : ℕ → Proc → Bool
leaves cs p = p.killed && (cs % 4 == 3)

pub data Access : Type 0 where
  made exited : Proc → Kmem → Access

-- The instruction, its faults and its retries, for some number of faults.
unfoldable pub access : ℕ → Bool → ℕ → ℕ → Proc → Kmem → Outcome Access
access zero write cs va p m = if grants write p.pgdir va m then ok (made p m) else out_of_fuel
access (suc left) write cs va p m =
    if grants write p.pgdir va m
    then ok (made p m)
    else (page_fault (fault_at write cs va p.pgdir m) p m >>= λ (p₁, m₁).
        if leaves cs p₁ then ok (exited p₁ m₁) else access left write cs va p₁ m₁)

-- One fault and one retry.
pub access-retries :
    (left : ℕ) (write : Bool) (cs va : ℕ) (p : Proc) (m : Kmem) {p₁ : Proc} {m₁ : Kmem}
    → grants write p.pgdir va m ≡ false
    → page_fault (fault_at write cs va p.pgdir m) p m ≡ ok (p₁, m₁)
    → access (suc left) write cs va p m
      ≡ (if leaves cs p₁ then ok (exited p₁ m₁) else access left write cs va p₁ m₁)
unfolding access
access-retries left write cs va p m refused fault = rw (refused, fault)

pub access-panic :
    (left : ℕ) (write : Bool) (cs va : ℕ) (p : Proc) (m : Kmem)
    → grants write p.pgdir va m ≡ false
    → page_fault (fault_at write cs va p.pgdir m) p m ≡ panic
    → access (suc left) write cs va p m ≡ panic
unfolding access
access-panic left write cs va p m refused fault = rw (refused, fault)

pub access-made :
    (left : ℕ) (write : Bool) (cs va : ℕ) (p : Proc) (m : Kmem)
    → grants write p.pgdir va m ≡ true
    → access left write cs va p m ≡ ok (made p m)
unfolding access
access-made zero write cs va p m h = rw h
access-made (suc left) write cs va p m h = rw h

-- A kernel's write to a page that its region's protection forbids is made at no time, however often it
-- is tried again: the fault only marks the process as killed, and the kernel does not exit there.
pub access-never :
    (rounds cs va : ℕ) (p : Proc) (m : Kmem)
    → cs % 4 ≡ 0
    → is_read_only (vma_find p va) ≡ true
    → grants true p.pgdir va m ≡ false
    → access rounds true cs va p m ≡ out_of_fuel
access-never zero cs va p m kernel forbidden refused = unfold access in rw refused
access-never (suc left) cs va p m kernel forbidden refused =
    access-retries left true cs va p m refused
      (page_fault-read_only (fault_at true cs va p.pgdir m) p m (ground arith) forbidden)
    ∙ rw (
      stays,
      access-never left cs va (kill_proc p) m kernel (unfold vma_find in forbidden) refused,
    )
  where
    stays : leaves cs (kill_proc p) ≡ false
    stays = ground arith
