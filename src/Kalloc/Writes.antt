-- ===== src/Kalloc/Writes.antt =====
-- Writes to owned frames leave the allocator of kalloc.c alone; `kalloc` by cases on the free frames.
use mathlib.Core.Path.{subst, sym}
use cs330_operating_systems.Base.{ℕ, ◌≡◌, ◌∙◌, true, List, [], ◌∷◌, arith, update, has, All, ok}
use cs330_operating_systems.Kalloc.{Page, Kmem, kalloc}
use cs330_operating_systems.Kalloc.Chain.{page_of, IsChain, IsPool, IsChain-frame}
use cs330_operating_systems.Kalloc.Counts.{Pool, Refines, kalloc_cases}

free-unowned :
    (count : ℕ → ℕ) (g : ℕ) (fs : List ℕ)
    → All (λ f. count f ≡ 0) fs
    → has g fs ≡ true
    → count g ≡ 0
free-unowned count g [] h k = absurd (cc)
free-unowned count g (f ∷ fs) h k = ground (arith, free-unowned count g fs h.1, h.0)

-- The owner of a frame may write to its page.
pub Refines-write :
    {m : Kmem} {p : Pool} (ram' : ℕ → Page)
    → Refines m p
    → ((g : ℕ) → p.count g ≡ 0 → ram' g 0 ≡ m.ram g 0)
    → Refines (record m { ram = ram' }) p
Refines-write {m} {p} ram' r same = record {
  pool = record {
    chain =
        IsChain-frame m.ram ram' m.freelist p.free
          (λ g h. same g (sym (r.counts g) ∙ free-unowned m.refcnt g p.free r.pool.unowned h))
          r.pool.chain;
    unowned = r.pool.unowned;
    above = r.pool.above;
    in_ram = r.pool.in_ram;
    distinct = r.pool.distinct;
    end_above = r.pool.end_above;
  };
  counts = r.counts;
}

module _ {m : Kmem} {p : Pool} (r : Refines m p) where
  -- `kalloc` with a free frame at hand, and with none
  pub kalloc-cons :
      (g : ℕ) (fs : List ℕ)
      → p.free ≡ g ∷ fs
      → (m₁ : Kmem) × (kalloc m ≡ ok (page_of g, m₁))
        × Refines m₁ (record { count = update p.count g 1; free = fs })
        × (m₁.ram ≡ m.ram)
        × (m₁.kernel_end ≡ m.kernel_end)
  kalloc-cons g fs e = kalloc_cases m p (g ∷ fs) e (subst (IsPool m) e r.pool) r.counts

  pub kalloc-nil : p.free ≡ [] → kalloc m ≡ ok (0, m)
  unfolding kalloc
  kalloc-nil e = let z : m.freelist ≡ 0 = subst (IsChain m.ram m.freelist) e r.pool.chain in rw z
