-- ===== src/Mmap/Unmap.antt =====
-- `sys_munmap` of sysproc.c.

use cs330_operating_systems.Base.{
  ℕ, ◌%◌, ◌≡◌, ap, ◌∙◌, ◌≢◌, true, arith, if◌then◌else◌, none, some, List, [], ◌∷◌, set, All, ok,
}
use cs330_operating_systems.Kalloc.{Kmem, pgsize, pg_round_up}
use cs330_operating_systems.Vm.{vm_unmap_range}
use cs330_operating_systems.Proc.{Vma, Proc}
use cs330_operating_systems.Mmap.{
  covers, vma_find, vma_find_exact, is_positive, region, no_vma, unmap_at, sys_munmap,
}
use cs330_operating_systems.Mmap.Layout.{IsPlaced, Apart, IsLayout, All-set, AllApart-set}
use cs330_operating_systems.Mmap.Regions.{find_in-clear}
use cs330_operating_systems.Mmap.Protect.{vma_find_exact-Found}

sys_munmap-unmap_at :
    (start n : ℕ) (p : Proc) (m : Kmem)
    → is_positive n ≡ true
    → start % pgsize ≡ 0
    → pg_round_up n ≢ 0
    → sys_munmap (some start) (some n) p m
      ≡ unmap_at (vma_find_exact p start (pg_round_up n)) start (pg_round_up n) p m
unfolding sys_munmap
sys_munmap-unmap_at start n p m pos aligned pages = ground arith

unmap_at-ok :
    (start n i : ℕ) (p : Proc) (m : Kmem) {m' : Kmem}
    → vm_unmap_range p.pgdir start n m ≡ ok m'
    → unmap_at (some i) start n p m ≡ ok (record p { vmas = set p.vmas i no_vma }, m', true)
unfolding unmap_at
unmap_at-ok start n i p m run = rw run

Apart-no_vma : (vs : List Vma) → All (λ v. Apart v no_vma × Apart no_vma v) vs
Apart-no_vma [] = tt
Apart-no_vma (v ∷ vs) = ((λ u u'. absurd (cc), λ u u'. absurd (cc)), Apart-no_vma vs)

-- the call's run
pub sys_munmap-runs :
    (start n i : ℕ) {p : Proc} (m : Kmem) {m' : Kmem}
    → IsLayout p
    → is_positive n ≡ true
    → vma_find_exact p start (pg_round_up n) ≡ some i
    → vm_unmap_range p.pgdir start (pg_round_up n) m ≡ ok m'
    → sys_munmap (some start) (some n) p m ≡ ok (record p { vmas = set p.vmas i no_vma }, m', true)
sys_munmap-runs start n i {p} m l pos found run =
    let f = vma_find_exact-Found start (pg_round_up n) i l found in
    sys_munmap-unmap_at start n p m pos f.aligned (omega (arith, f.pages))
    ∙ ap (λ o. unmap_at o start (pg_round_up n) p m) found
    ∙ unmap_at-ok start (pg_round_up n) i p m run

pub vma_find-clear :
    (start n i addr : ℕ) {p : Proc}
    → IsLayout p
    → vma_find_exact p start n ≡ some i
    → vma_find (record p { vmas = set p.vmas i no_vma }) addr
      ≡ (if covers (region start n 0) addr then none else vma_find p addr)
unfolding vma_find
vma_find-clear start n i addr {p} l found =
    find_in-clear start n addr p.vmas i l.apart (unfold vma_find_exact in found)

-- When the pages of a whole mapped region can be unmapped, `sys_munmap` succeeds: `vma_find` finds no
-- region at its addresses and what it found before elsewhere, and the regions left are aligned, below
-- the process's size and pairwise disjoint.
pub sys_munmap-IsLayout :
    (start n i : ℕ) {p : Proc} (m : Kmem) {m' : Kmem}
    → IsLayout p
    → is_positive n ≡ true
    → vma_find_exact p start (pg_round_up n) ≡ some i
    → vm_unmap_range p.pgdir start (pg_round_up n) m ≡ ok m'
    → (p' : Proc) × (sys_munmap (some start) (some n) p m ≡ ok (p', m', true))
      × IsLayout p'
      × ((addr : ℕ)
          → vma_find p' addr
            ≡ (if covers (region start (pg_round_up n) 0) addr then none else vma_find p addr))
sys_munmap-IsLayout start n i {p} m l pos found run = (
  record p { vmas = set p.vmas i no_vma },
  sys_munmap-runs start n i m l pos found run,
  record {
    placed =
        All-set (IsPlaced p.sz) p.vmas i no_vma
          record {
            start = λ u. absurd (cc);
            length = λ u. absurd (cc);
            pages = λ u. absurd (cc);
            below = λ u. absurd (cc);
          }
          l.placed;
    apart = AllApart-set p.vmas i no_vma (Apart-no_vma p.vmas) l.apart;
    top = l.top;
  },
  λ addr. vma_find-clear start (pg_round_up n) i addr l found,
)
