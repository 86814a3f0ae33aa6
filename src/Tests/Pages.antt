-- ===== src/Tests/Pages.antt =====
-- vm.c and the page faults of trap.c on the machine of Frames.
use cs330_operating_systems.Base.{ℕ, ◌+◌, ◌*◌, ◌≡◌, inr, refl, true, [], ◌∷◌, arith, ok}
use cs330_operating_systems.Kalloc.{Kmem, kref_get, p2v, frame_of}
use cs330_operating_systems.Kalloc.Chain.{page_of}
use cs330_operating_systems.Kalloc.Counts.{Pool, Refines}
use cs330_operating_systems.Vm.{Slot, resolved, cow_fault, protect_entry}
use cs330_operating_systems.Vm.Pte.{pte_addr}
use cs330_operating_systems.Vm.Cow.{IsCow, Private}
use cs330_operating_systems.Vm.CowFault.{entry_of, cow_fault-Private}
use cs330_operating_systems.Vm.Unmap.{IsMapped}
use cs330_operating_systems.Proc.{running, Proc}
use cs330_operating_systems.Mmap.{vma_find}
use cs330_operating_systems.Trap.{Fault, page_fault}
use cs330_operating_systems.Trap.Faults.{page_fault-Private}
use cs330_operating_systems.Tests.Frames.{pages, machine, pool, machine-Refines}
use cs330_operating_systems.Tests.Tables.{process}

abbrev directory : ℕ
directory = page_of 900

abbrev address : ℕ
address = 20480

-- the entry that maps the shared page
abbrev entry : Slot
entry = entry_of directory address machine

entry-IsCow : IsCow machine pool entry 902
entry-IsCow = record {
  pool = machine-Refines;
  table = omega arith;
  present = refl;
  cow = refl;
  maps = refl;
  in_ram = omega arith;
  above = omega arith;
  owned = omega arith;
  apart = omega arith;
}

cow_fault-Private_example :
    (m' : Kmem) × (q : Pool) × (g : ℕ) × (cow_fault directory address machine ≡ ok (resolved, m'))
    × Refines m' q
    × Private machine m' entry 902 g
cow_fault-Private_example =
    cow_fault-Private directory address refl entry-IsCow (inr (λ e. absurd (cc)))

entry-IsMapped : IsMapped machine pool entry 902
entry-IsMapped = record {
  pool = machine-Refines;
  present = refl;
  maps = refl;
  not_null = omega arith;
  in_ram = omega arith;
  above = omega arith;
  owned = omega arith;
  table = omega arith;
}

abbrev table_of : ℕ → ℕ
table_of i = frame_of (p2v (pte_addr (pages 900 i)))

-- a page of one owner, in frame 901
made_writable : protect_entry 3 (901 * 4096 + 5) machine ≡ ok (901 * 4096 + 7)
unfolding protect_entry kref_get
made_writable = refl

-- a process with a region at the shared page
abbrev owner : ℕ → Proc
owner prot = record (process 1 running) {
  sz = 24576;
  pgdir = directory;
  vmas = record { start = 20480; length = 4096; prot = prot; used = true } ∷ [];
}

abbrev fault : ℕ → ℕ → Fault
fault err va = record { err = err; cs = 27; va = va }

page_fault-Private_example :
    (m' : Kmem) × (q : Pool) × (h : ℕ) × (page_fault (fault 7 20484) (owner 3) machine
      ≡ ok (owner 3, m'))
    × Refines m' q
    × Private machine m' (entry_of directory 20484 machine) 902 h
unfolding vma_find
page_fault-Private_example =
    page_fault-Private (fault 7 20484) (owner 3) machine refl refl refl refl entry-IsCow
      (inr (λ e. absurd (cc)))
