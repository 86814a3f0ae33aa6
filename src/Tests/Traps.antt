-- ===== src/Tests/Traps.antt =====
-- A process with two regions: one of a page that is not there yet, and a read-only one. Frame 900 is its
-- page directory, 901 its page table, and frame 902 is free.
use cs330_operating_systems.Base.{
  ℕ, suc, ◌+◌, ◌*◌, ◌%◌, ◌^◌, ◌≤◌, ◌<◌, ◌≡◌, refl, arith, Bool, true, false, ◌&&◌, ◌||◌, ◌==◌,
  if◌then◌else◌, ◌-◌, get_elem?, find_index, [], ◌∷◌, some, none, inl, ok, panic, out_of_fuel,
  update,
}
use cs330_operating_systems.Kalloc.{Kmem, Page, kernbase, pg_round_up}
use cs330_operating_systems.Kalloc.Chain.{page_of}
use cs330_operating_systems.Kalloc.Counts.{Pool, Refines}
use cs330_operating_systems.Vm.{slot, vm_unmap_range, unmap_from, walkpgdir, unmap_page}
use cs330_operating_systems.Vm.Lazy.{IsLazy, Served}
use cs330_operating_systems.Proc.{running, Proc}
use cs330_operating_systems.Mmap.{find_in, vma_find, vma_find_exact, region, sys_munmap}
use cs330_operating_systems.Mmap.Layout.{IsLayout}
use cs330_operating_systems.Syscall.{Bytes, argint, argptr}
use cs330_operating_systems.Trap.{is_read_only}
use cs330_operating_systems.Trap.Retry.{access, made, access-never}
use cs330_operating_systems.Trap.Served.{access-Served}
use cs330_operating_systems.Trap.Hole.{munmap-panics}
use cs330_operating_systems.Vm.Space.{growproc, deallocuvm, dealloc_from, allocuvm, alloc_from}
use cs330_operating_systems.Vm.Space.Counts.{vm_numpp, vm_numvp, vm_numpp-vm_numvp}
use cs330_operating_systems.Vm.Copyout.{copyout}
use cs330_operating_systems.Vm.Copyout.Checks.{copyout-read_only}
use cs330_operating_systems.Mmap.Shrink.{growproc-IsLayout, growproc_cuts}
use cs330_operating_systems.Proc.{unused}
use cs330_operating_systems.Fork.{System, fork}
use cs330_operating_systems.Fork.Fails.{GivesBack, fork_fails}

abbrev two_regions : Proc
two_regions = record {
  sz = 20480;
  pgdir = page_of 900;
  kstack = 0;
  state = running;
  pid = 3;
  parent = none;
  chan = none;
  killed = false;
  trace_enabled = false;
  priority = 1;
  ofile = [];
  cwd = none;
  vmas = region 12288 4096 3 ∷ region 16384 4096 1 ∷ [];
}

abbrev owners_at_trap : ℕ → ℕ
owners_at_trap f = if (f == 900) || (f == 901) then 1 else 0

abbrev pages_at_trap : ℕ → Page
pages_at_trap f i = if (f == 900) && (i == 0) then 901 * 4096 + 7 else 0

abbrev at_trap : Kmem
at_trap = record {
  freelist = page_of 902;
  refcnt = owners_at_trap;
  ram = pages_at_trap;
  kernel_end = kernbase + 1048576;
}

abbrev pool_at_trap : Pool
pool_at_trap = record { count = owners_at_trap; free = 902 ∷ [] }

at_trap-IsLazy : IsLazy at_trap pool_at_trap (page_of 900) 12300 (slot 901 3)
at_trap-IsLazy = record {
  pool = record {
    pool = record {
      chain = (refl, refl);
      unowned = (refl, tt);
      above = (omega arith, tt);
      in_ram = (omega arith, tt);
      distinct = (refl, tt);
      end_above = omega arith;
    };
    counts = λ f. refl;
  };
  table = refl;
  place = refl;
  free = refl;
  directory_owned = omega arith;
  table_owned = omega arith;
  apart = omega arith;
  low = omega arith;
}

lazy_region : vma_find two_regions 12300 ≡ some (region 12288 4096 3)
unfolding vma_find find_in
lazy_region = refl

access-Served_example :
    (m' : Kmem) × (access (suc 4) true 27 12300 two_regions at_trap ≡ ok (made two_regions m'))
    × Refines m' (record { count = update owners_at_trap 902 1; free = [] })
    × Served at_trap m' (page_of 900) 12300 3 902 (slot 901 3)
access-Served_example =
    access-Served 4 true 27 12300 902 [] two_regions (region 12288 4096 3) refl lazy_region refl
      at_trap-IsLazy refl

forbidden : is_read_only (vma_find two_regions 16390) ≡ true
unfolding vma_find find_in
forbidden = refl

access-never_example : access 100 true 8 16390 two_regions at_trap ≡ out_of_fuel
access-never_example = access-never 100 8 16390 two_regions at_trap refl forbidden refl

two_regions-IsLayout : IsLayout two_regions
two_regions-IsLayout = record {
  placed = (
    record {
      start = λ u. refl;
      length = λ u. refl;
      pages = λ u. omega arith;
      below = λ u. omega arith;
    },
    (
      record {
        start = λ u. refl;
        length = λ u. refl;
        pages = λ u. omega arith;
        below = λ u. omega arith;
      },
      tt,
    ),
  );
  apart = (((λ u u'. inl (omega arith)), tt), (tt, tt));
  top = omega arith;
}

first_region : vma_find_exact two_regions 12288 (pg_round_up 4096) ≡ some 0
unfolding vma_find_exact
first_region = refl

unmapped_rounds : (k : ℕ) → unmap_from (suc (suc k)) (page_of 900) 12288 16384 at_trap ≡ ok at_trap
unfolding unmap_from walkpgdir unmap_page
unmapped_rounds k = refl

unmapped_first : vm_unmap_range (page_of 900) 12288 (pg_round_up 4096) at_trap ≡ ok at_trap
unfolding vm_unmap_range
unmapped_first = unmapped_rounds 1048574

munmap-panics_example :
    (p' : Proc) × (sys_munmap (some 12288) (some 4096) two_regions at_trap ≡ ok (p', at_trap, true))
    × ((mem : Bytes) (esp k : ℕ)
        → argint p' mem esp k ≡ some 12300
        → argptr p' mem esp k 1 ≡ some 12300)
    × ((left : ℕ) (write : Bool) (cs : ℕ)
        → cs % 4 ≡ 0
        → access (suc left) write cs 12300 p' at_trap ≡ panic)
munmap-panics_example =
    munmap-panics 12288 4096 0 12300 at_trap two_regions-IsLayout refl first_region unmapped_first
      refl refl

-- the user's memory: the word 4096 at 104 and a string at 4096
abbrev user_bytes : Bytes
user_bytes a = if a == 105 then 16 else if a == 4096 then 65 else 0

vm_numpp-vm_numvp_example :
    (pp : ℕ) × (vp : ℕ) × (vm_numpp two_regions at_trap ≡ ok pp)
    × (vm_numvp two_regions at_trap ≡ ok vp)
    × (pp ≤ vp)
    × (4096 * vp ≤ pg_round_up 20480)
vm_numpp-vm_numvp_example = vm_numpp-vm_numvp two_regions at_trap (omega arith)

read_only_region : vma_find two_regions 16384 ≡ some (region 16384 4096 1)
unfolding vma_find find_in
read_only_region = refl

copyout-read_only_example :
    copyout (some two_regions) (page_of 900) 16390 (7 ∷ 8 ∷ []) at_trap ≡ ok (false, at_trap)
copyout-read_only_example =
    copyout-read_only two_regions (region 16384 4096 1) 16390 7 (8 ∷ []) at_trap read_only_region
      refl

-- 100 bytes more need no new page once the size is a page and a half
abbrev half_page : Proc
half_page = record two_regions { sz = 20500 }

within_page : growproc 100 half_page at_trap ≡ ok (true, record half_page { sz = 20600 }, at_trap)
unfolding growproc allocuvm alloc_from
within_page = refl

half_page-IsLayout : IsLayout half_page
half_page-IsLayout = record {
  placed = (
    record {
      start = λ u. refl;
      length = λ u. refl;
      pages = λ u. omega arith;
      below = λ u. omega arith;
    },
    (
      record {
        start = λ u. refl;
        length = λ u. refl;
        pages = λ u. omega arith;
        below = λ u. omega arith;
      },
      tt,
    ),
  );
  apart = (((λ u u'. inl (omega arith)), tt), (tt, tt));
  top = omega arith;
}

growproc-IsLayout_example :
    IsLayout (record half_page { sz = 20600 }) × (half_page.vmas ≡ half_page.vmas) × (20500 ≤ 20600)
growproc-IsLayout_example =
    growproc-IsLayout 100 half_page (record half_page { sz = 20600 }) at_trap at_trap (omega arith)
      half_page-IsLayout within_page

-- one page less: the last page of the read-only region is not mapped
shrunk :
    growproc (2 ^ 32 - 4096) two_regions at_trap
    ≡ ok (true, record two_regions { sz = 16384 }, at_trap)
unfolding growproc deallocuvm dealloc_from walkpgdir unmap_page
shrunk = refl

growproc_cuts_example :
    (get_elem? two_regions.vmas 1 ≡ some (region 16384 4096 1))
    × (16384 < 16384 + 4096)
    × (IsLayout (record two_regions { sz = 16384 }) → ⊥)
growproc_cuts_example =
    growproc_cuts (2 ^ 32 - 4096) 1 (region 16384 4096 1) two_regions
      (record two_regions { sz = 16384 }) at_trap at_trap (omega arith) (omega arith) (omega arith)
      (omega arith) refl refl (omega arith) shrunk

-- the process, a free slot, and one free frame
abbrev at_fork : System
at_fork = record {
  table = record {
    procs = two_regions ∷ record two_regions { state = unused } ∷ [];
    nextpid = 4;
    initproc = 0;
  };
  memory = at_trap;
  files = [];
  inodes = [];
}

fork_fails_example :
    (s' : System) × (fork 2149580800 0 two_regions at_fork ≡ ok (none, s'))
    × Refines s'.memory (record { count = owners_at_trap; free = 902 ∷ [] })
    × GivesBack 1 at_fork s'
unfolding find_index
fork_fails_example =
    fork_fails 2149580800 0 two_regions at_fork 1 902 owners_at_trap refl at_trap-IsLazy.pool
