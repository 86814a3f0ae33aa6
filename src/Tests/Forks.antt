-- ===== src/Tests/Forks.antt =====
-- The sharing of one page by `copyuvm`: frame 900 is the parent's directory, 901 its page table, 902
-- a writable page at the address 20480; frame 910 is the child's directory and 911 its page table.
use cs330_operating_systems.Base.{ℕ, ◌+◌, ◌*◌, ◌&&◌, ◌||◌, ◌==◌, if◌then◌else◌, []}
use cs330_operating_systems.Kalloc.{Kmem, Page, kernbase}
use cs330_operating_systems.Kalloc.Counts.{Pool}

abbrev owners_at_fork : ℕ → ℕ
owners_at_fork f =
    if (f == 900) || (f == 901) || (f == 902) || (f == 910) || (f == 911) then 1 else 0

abbrev pages_at_fork : ℕ → Page
pages_at_fork f i =
    if (f == 900) && (i == 0)
    then 901 * 4096 + 7
    else if (f == 901) && (i == 5)
    then 902 * 4096 + 7
    else if (f == 910) && (i == 0)
    then 911 * 4096 + 7
    else 0

abbrev at_fork : Kmem
at_fork = record {
  freelist = 0;
  refcnt = owners_at_fork;
  ram = pages_at_fork;
  kernel_end = kernbase + 1048576;
}

abbrev pool_at_fork : Pool
pool_at_fork = record { count = owners_at_fork; free = [] }
