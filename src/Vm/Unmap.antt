-- ===== src/Vm/Unmap.antt =====
-- One page of `vm_unmap_range` of vm.c.
use cs330_operating_systems.Base.{ℕ, ◌*◌, ◌≤◌, ◌<◌, ◌≡◌, ◌≢◌, true, false, arith, ◌==◌, some, ok}
use cs330_operating_systems.Kalloc.{Kmem, pgsize, p2v}
use cs330_operating_systems.Kalloc.Chain.{frames, page_of}
use cs330_operating_systems.Kalloc.Counts.{Pool, Refines, drop_ref, kfree-drop_ref}
use cs330_operating_systems.Vm.{Slot, load, store, unmap_page}
use cs330_operating_systems.Vm.Pte.{has_flag, pte_addr, pte_p}
use cs330_operating_systems.Vm.Cow.{store-Refines, load-store}

-- the entry at `s` maps the owned frame `f`; its table is owned by more than an entry of `f`
pub record IsMapped (m : Kmem) (q : Pool) (s : Slot) (f : ℕ) : Type 0 where
  pub pool : Refines m q
  pub present : has_flag (load s m) pte_p ≡ true
  pub maps : pte_addr (load s m) ≡ f * pgsize
  pub not_null : 0 < f
  pub in_ram : f < frames
  pub above : m.kernel_end ≤ page_of f
  pub owned : q.count f ≢ 0
  pub table : (drop_ref f q).count s.frame ≢ 0

-- Unmapping a resident page clears its entry and drops one owner of its frame: the frame is free
-- exactly when that owner was the last, and stays with its other owners otherwise.
pub unmap_page-drop_ref :
    {m : Kmem} {q : Pool} {s : Slot} {f : ℕ}
    → IsMapped m q s f
    → (m' : Kmem) × (unmap_page (some s) m ≡ ok m') × Refines m' (drop_ref f q) × (load s m' ≡ 0)
unfolding unmap_page
unmap_page-drop_ref {m} {q} {s} {f} c =
    let (m₁, run, r, _, _) = kfree-drop_ref f c.pool c.in_ram c.above c.owned in
    let present : has_flag (load s m) pte_p ≡ true = c.present in
    let nonzero : (f * pgsize == 0) ≡ false = ground (arith, c.not_null) in
    let e : p2v (f * pgsize) ≡ page_of f = omega (arith, c.in_ram) in
    (
      store s 0 m₁,
      rw (c.maps, present, nonzero, e, run),
      store-Refines s 0 r c.table,
      load-store s 0 m₁,
    )
