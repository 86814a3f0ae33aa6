-- ===== src/Tests/Regions.antt =====
-- The mmap system calls on a process with one mapped region, and a page table directory without
-- tables.
use cs330_operating_systems.Base.{ℕ, suc, ◌+◌, ◌%◌, ◌≡◌, refl, List, [], ◌∷◌, some, arith, ok}
use cs330_operating_systems.Kalloc.{Kmem, pgsize, kernbase, pg_round_up}
use cs330_operating_systems.Kalloc.Chain.{page_of}
use cs330_operating_systems.Vm.{walkpgdir, unmap_page, unmap_from, vm_unmap_range}
use cs330_operating_systems.Proc.{running, Vma, Proc}
use cs330_operating_systems.Mmap.{region, no_vma, sys_mmap}
use cs330_operating_systems.Mmap.Layout.{IsLayout}
use cs330_operating_systems.Mmap.Calls.{sys_mmap-IsLayout}
use cs330_operating_systems.Tests.Tables.{process}

abbrev mapper : List Vma → ℕ → Proc
mapper vmas sz = record (process 1 running) { sz = sz; pgdir = page_of 900; vmas = vmas }

-- one region, of one page, and one free slot
abbrev before : Proc
before = mapper (region 8192 4096 3 ∷ no_vma ∷ []) 12288

abbrev after : Proc
after = mapper (region 8192 4096 3 ∷ region 12288 8192 3 ∷ []) 20480

before-IsLayout : IsLayout before
before-IsLayout = record {
  placed = (
    record {
      start = λ u. refl;
      length = λ u. refl;
      pages = λ u. omega arith;
      below = λ u. omega arith;
    },
    (
      record {
        start = λ u. refl;
        length = λ u. refl;
        pages = λ u. absurd (cc);
        below = λ u. absurd (cc);
      },
      tt,
    ),
  );
  apart = ((λ u u'. absurd (cc), tt), (tt, tt));
  top = omega arith;
}

mapped : sys_mmap (some 5000) before ≡ (after, some 12288)
unfolding sys_mmap
mapped = refl

sys_mmap-IsLayout_example : IsLayout after × (12288 % pgsize ≡ 0)
sys_mmap-IsLayout_example = sys_mmap-IsLayout 5000 before-IsLayout mapped

abbrev bare : Kmem
bare = record { freelist = 0; refcnt = λ f. 0; ram = λ f i. 0; kernel_end = kernbase + 1048576 }

unmapped_from : (k : ℕ) → unmap_from (suc (suc k)) (page_of 900) 8192 12288 bare ≡ ok bare
unfolding unmap_from walkpgdir unmap_page
unmapped_from k = refl

unmapped : vm_unmap_range (page_of 900) 8192 (pg_round_up 4096) bare ≡ ok bare
unfolding vm_unmap_range
unmapped = unmapped_from 1048574
