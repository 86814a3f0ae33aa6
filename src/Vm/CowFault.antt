-- ===== src/Vm/CowFault.antt =====
-- What `cow_fault` of vm.c returns, and the page that it leaves to the process.
use mathlib.Core.Path.{subst, sym}
use cs330_operating_systems.Base.{
  ℕ, ◌*◌, ◌≤◌, ◌<◌, ◌≡◌, refl, ◌∙◌, ◌≢◌, ◌⊎◌, inl, inr, Bool, true, false, List, [], ◌∷◌, arith,
  ◌==◌, ok, none, some, Bool-cases,
}
use cs330_operating_systems.Kalloc.{Kmem, pgsize, pg_round_down}
use cs330_operating_systems.Kalloc.Chain.{frames, IsPool}
use cs330_operating_systems.Kalloc.Counts.{Pool, Refines}
use cs330_operating_systems.Kalloc.Writes.{kalloc-cons, kalloc-nil}
use cs330_operating_systems.Vm.{
  Slot, load, store, pde_slot, pte_slot, walkpgdir, resolved, not_cow, no_memory, cow_copy,
  cow_entry, cow_fault,
}
use cs330_operating_systems.Vm.Pte.{pte_p, pte_cow, has_flag, pte_flags, with_flags, private_flags}
use cs330_operating_systems.Vm.Cow.{
  IsCow, store-Refines, cow_entry-last, cow_entry-shared, Private, last-Private, copy-Private,
}

-- the state after `kalloc` took a frame, as far as copying needs it
free_frame :
    {m : Kmem} {p : Pool} (g : ℕ) (fs : List ℕ)
    → Refines m p
    → p.free ≡ g ∷ fs
    → (g < frames) × (p.count g ≡ 0)
free_frame {m} {p} g fs r e =
    let q = subst (λ l. IsPool m l) e r.pool in (q.in_ram.0, sym (r.counts g) ∙ q.unowned.0)

-- A write to a copy-on-write page is resolved when its frame has no other owner or a frame is free,
-- and the process then has the frame to itself, with the page's old contents.
pub cow_entry-Private :
    {m : Kmem} {p : Pool} {s : Slot} {f : ℕ}
    → IsCow m p s f
    → (p.count f ≡ 1) ⊎ (p.free ≢ [])
    → (m' : Kmem) × (p' : Pool) × (g : ℕ) × (cow_entry s m ≡ ok (resolved, m'))
      × Refines m' p'
      × Private m m' s f g
cow_entry-Private {m} {p} {s} {f} c able = elim (Bool-cases (p.count f == 1)) [
  | inl last ↦
      let one : p.count f ≡ 1 = ground arith in
      (
        store s (with_flags (f * pgsize) (private_flags (pte_flags (load s m)))) m,
        p,
        f,
        cow_entry-last c one,
        store-Refines s _ c.pool c.table,
        last-Private c one,
      )
  | inr more ↦ shared (ground (arith, c.owned)) p.free refl
]
  where
    shared :
        2 ≤ p.count f
        → (l : List ℕ) → p.free ≡ l
        → (m' : Kmem) × (p' : Pool) × (g : ℕ) × (cow_entry s m ≡ ok (resolved, m'))
          × Refines m' p'
          × Private m m' s f g
    shared many [] e = absurd (ground arith)
    shared many (g ∷ fs) e =
        let (lt, zero_count) = free_frame g fs c.pool e in
        let (m₁, run, r₁, ram, kend) = kalloc-cons c.pool g fs e in
        let (m', p', run', r', q) =
          copy-Private c lt (λ a. c.owned (ground arith)) (λ a. c.table (ground arith)) r₁ ram kend
            (λ h. refl) many in
        (m', p', g, cow_entry-shared c many ∙ rw run run', r', q)

-- With every frame in use a write to a page that others share cannot be resolved, and nothing
-- changes.
pub cow_entry-no_memory :
    {m : Kmem} {p : Pool} {s : Slot} {f : ℕ}
    → IsCow m p s f
    → 2 ≤ p.count f
    → p.free ≡ []
    → cow_entry s m ≡ ok (no_memory, m)
unfolding cow_copy
cow_entry-no_memory c many e = cow_entry-shared c many ∙ rw (kalloc-nil c.pool e)

cow_entry-not_cow :
    (s : Slot) (m : Kmem)
    → (has_flag (load s m) pte_p ≡ false) ⊎ (has_flag (load s m) pte_cow ≡ false)
    → cow_entry s m ≡ ok (not_cow, m)
unfolding cow_entry
cow_entry-not_cow s m (inl a) = rw a
cow_entry-not_cow s m (inr b) = elim (Bool-cases (has_flag (load s m) pte_p)) [
  | inl a ↦ rw (a, b)
  | inr a ↦ rw a
]

-- The table entry for a page address, as `walkpgdir` finds it without allocating.
pub walkpgdir-present :
    (pgdir va : ℕ) (m : Kmem)
    → has_flag (load (pde_slot pgdir va) m) pte_p ≡ true
    → walkpgdir pgdir va false m ≡ ok (some (pte_slot (load (pde_slot pgdir va) m) va), m)
unfolding walkpgdir
walkpgdir-present pgdir va m h = rw h

pub walkpgdir-absent :
    (pgdir va : ℕ) (m : Kmem)
    → has_flag (load (pde_slot pgdir va) m) pte_p ≡ false
    → walkpgdir pgdir va false m ≡ ok (none, m)
unfolding walkpgdir
walkpgdir-absent pgdir va m h = rw h

abbrev pub entry_of : ℕ → ℕ → Kmem → Slot
entry_of pgdir va m = pte_slot (load (pde_slot pgdir (pg_round_down va)) m) (pg_round_down va)

-- `cow_fault` on an address whose page table is present and whose entry is present and
-- copy-on-write gives the process a private page with the old contents, when its frame has no other
-- owner or a frame is free; the counts of owners stay right.
pub cow_fault-Private :
    {m : Kmem} {p : Pool} {f : ℕ} (pgdir va : ℕ)
    → has_flag (load (pde_slot pgdir (pg_round_down va)) m) pte_p ≡ true
    → IsCow m p (entry_of pgdir va m) f
    → (p.count f ≡ 1) ⊎ (p.free ≢ [])
    → (m' : Kmem) × (p' : Pool) × (g : ℕ) × (cow_fault pgdir va m ≡ ok (resolved, m'))
      × Refines m' p'
      × Private m m' (entry_of pgdir va m) f g
unfolding cow_fault
cow_fault-Private {m} pgdir va there c able =
    let (m', p', g, run, r, q) = cow_entry-Private c able in
    (m', p', g, rw (walkpgdir-present pgdir (pg_round_down va) m there) run, r, q)

-- `cow_fault` reports an address that no copy-on-write entry maps, and changes nothing: no page
-- table, no page, or a page that is not copy-on-write.
pub cow_fault-not_cow :
    {m : Kmem} (pgdir va : ℕ)
    → (has_flag (load (pde_slot pgdir (pg_round_down va)) m) pte_p ≡ false)
      ⊎ (has_flag (load (entry_of pgdir va m) m) pte_p ≡ false)
      ⊎ (has_flag (load (entry_of pgdir va m) m) pte_cow ≡ false)
    → cow_fault pgdir va m ≡ ok (not_cow, m)
unfolding cow_fault
cow_fault-not_cow {m} pgdir va h =
    elim (Bool-cases (has_flag (load (pde_slot pgdir (pg_round_down va)) m) pte_p)) [
      | inl there ↦
          rw (walkpgdir-present pgdir (pg_round_down va) m there)
            (cow_entry-not_cow (entry_of pgdir va m) m (only_entry there h))
      | inr none_there ↦ rw (walkpgdir-absent pgdir (pg_round_down va) m none_there)
    ]
  where
    only_entry : {A B : Type 0} {b : Bool} → b ≡ true → (b ≡ false) ⊎ A ⊎ B → A ⊎ B
    only_entry t (inl f) = absurd (cc)
    only_entry t (inr q) = q
