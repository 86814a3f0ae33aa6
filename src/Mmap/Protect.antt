-- ===== src/Mmap/Protect.antt =====
-- `sys_mprotect`: the region's protection and the entries of its resident pages change together.
use cs330_operating_systems.Base.{ℕ, ◌+◌, ◌%◌, ◌≤◌, ◌<◌, ◌≡◌, arith, some, All-find_index}
use cs330_operating_systems.Kalloc.{pgsize, kernbase}
use cs330_operating_systems.Proc.{Proc}
use cs330_operating_systems.Mmap.{vma_find_exact, is_exactly}
use cs330_operating_systems.Mmap.Layout.{IsPlaced, IsLayout}

-- the region that an exact search finds
pub record Found (p : Proc) (start n : ℕ) : Type 0 where
  pub aligned : start % pgsize ≡ 0
  pub whole : n % pgsize ≡ 0
  pub pages : 0 < n
  pub below : start + n ≤ kernbase
  pub inside : start + n ≤ p.sz

pub vma_find_exact-Found :
    (start n i : ℕ) {p : Proc} → IsLayout p → vma_find_exact p start n ≡ some i → Found p start n
unfolding vma_find_exact
vma_find_exact-Found start n i {p} l found =
    let (v, placed, exact, _) =
      All-find_index (is_exactly start n) (IsPlaced p.sz) p.vmas i l.placed found in
    record {
      aligned = ground (arith, placed.start);
      whole = ground (arith, placed.length);
      pages = ground (arith, placed.pages);
      below = ground (arith, placed.below, l.top);
      inside = ground (arith, placed.below);
    }
