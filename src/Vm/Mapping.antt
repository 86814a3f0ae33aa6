-- ===== src/Vm/Mapping.antt =====
-- `mappages` of vm.c for one page.
use cs330_operating_systems.Base.{ℕ, suc, ◌%◌, ◌<◌, ◌≡◌, ◌≢◌, ap, ◌∙◌, true, false, arith, ◌==◌, ok}
use cs330_operating_systems.Kalloc.{Kmem, pgsize, kernbase, pg_round_down, add_uint, sub_uint}
use cs330_operating_systems.Vm.{
  Slot, load, store, pde_slot, pte_slot, walkpgdir, map_page, mappages_from, mappages,
}
use cs330_operating_systems.Vm.Pte.{pte_p, has_flag, set_flag, with_flags}

-- `mappages` of one page whose page table is there and whose entry is free
mappages_from-one :
    (k d i pa perm : ℕ) (m : Kmem)
    → has_flag (load (pde_slot d i) m) pte_p ≡ true
    → has_flag (load (pte_slot (load (pde_slot d i) m) i) m) pte_p ≡ false
    → mappages_from (suc k) d i i pa perm m
      ≡ ok
          (true, store (pte_slot (load (pde_slot d i) m) i) (set_flag (with_flags pa perm) pte_p) m)
unfolding mappages_from map_page walkpgdir
mappages_from-one k d i pa perm m there free =
    let same : (i == i) ≡ true = ground arith in rw (there, free, same)

pub mappages-one :
    (d i pa perm : ℕ) (m : Kmem)
    → i % pgsize ≡ 0
    → i < kernbase
    → has_flag (load (pde_slot d i) m) pte_p ≡ true
    → has_flag (load (pte_slot (load (pde_slot d i) m) i) m) pte_p ≡ false
    → mappages d i pgsize pa perm m
      ≡ ok
          (true, store (pte_slot (load (pde_slot d i) m) i) (set_flag (with_flags pa perm) pte_p) m)
unfolding mappages
mappages-one d i pa perm m aligned low there free =
    let first : pg_round_down i ≡ i = omega arith in
    let last : pg_round_down (sub_uint (add_uint i pgsize) 1) ≡ i = omega arith in
    ap (λ a. mappages_from 1048576 d a (pg_round_down (sub_uint (add_uint i pgsize) 1)) pa perm m)
      first
    ∙ ap (λ b. mappages_from 1048576 d i b pa perm m) last
    ∙ mappages_from-one 1048575 d i pa perm m there free

pub load-store_ne :
    (s t : Slot) (v : ℕ) (m : Kmem) → s.frame ≢ t.frame → load t (store s v m) ≡ load t m
load-store_ne s t v m h = ground arith
