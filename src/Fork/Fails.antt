-- ===== src/Fork/Fails.antt =====
-- `fork` of proc.c when there is a page for the kernel stack but none for the page directory.
use mathlib.Core.Path.{subst}
use cs330_operating_systems.Base.{
  ℕ, ◌≡◌, ◌≢◌, ◌∙◌, refl, sym, arith, true, ◌==◌, if◌then◌else◌, [], ◌∷◌, none, some, find_index,
  find_index-get_elem?, get_elem?, get_elem?-modify_self, get_elem?-modify_ne, update, update_self,
  ok,
}
use cs330_operating_systems.Kalloc.{Kmem, kalloc, kfree}
use cs330_operating_systems.Kalloc.Chain.{page_of, IsPool}
use cs330_operating_systems.Kalloc.Counts.{Refines, drop_ref, kalloc-alloc, kfree-drop_ref}
use cs330_operating_systems.Proc.{unused, Proc}
use cs330_operating_systems.Proc.Table.{Ptable, is_unused, change, allocproc}
use cs330_operating_systems.Proc.Table.Pids.{renumber, with_stack, allocproc-found}
use cs330_operating_systems.Fork.{System, setupkvm, copyuvm, abandoned, fork_at, fork}

copyuvm-none :
    {m₁ : Kmem} (data_at pgdir sz : ℕ) (m : Kmem)
    → kalloc m ≡ ok (0, m₁)
    → copyuvm data_at pgdir sz m ≡ ok (0, m₁)
unfolding copyuvm setupkvm
copyuvm-none data_at pgdir sz m run = rw run

module _ (data_at cur : ℕ) (p : Proc) (s : System) where
  fork_at-abandoned :
      {m₁ m₂ : Kmem} (i : ℕ) (np : Proc)
      → kalloc s.memory ≡ ok (0, m₁)
      → get_elem? s.table.procs i ≡ some np
      → kfree np.kstack m₁ ≡ ok m₂
      → fork_at data_at cur p i s
        ≡ ok (none, record s { table = change i abandoned s.table; memory = m₂ })
  unfolding fork_at
  fork_at-abandoned i np none_left at freed =
      let none_copied = copyuvm-none data_at p.pgdir p.sz s.memory none_left in
      rw (none_copied, at, freed)

  fork-fork_at :
      {i : ℕ} {t : Ptable} {m₁ : Kmem}
      → allocproc s.table s.memory ≡ ok (some i, t, m₁)
      → fork data_at cur p s ≡ fork_at data_at cur p i (record s { table = t; memory = m₁ })
  unfolding fork
  fork-fork_at run = rw run

-- The slot is unused again and the other slots are as before, as are files and inodes.
pub record GivesBack (i : ℕ) (s s' : System) : Type 0 where
  pub slot :
      (q : Proc) × (get_elem? s'.table.procs i ≡ some q) × (q.state ≡ unused) × (q.kstack ≡ 0)
  pub others : (j : ℕ) → i ≢ j → get_elem? s'.table.procs j ≡ get_elem? s.table.procs j
  pub files : s'.files ≡ s.files
  pub inodes : s'.inodes ≡ s.inodes

-- The last frame, taken and dropped again.
taken_back-Refines :
    (m : Kmem) (f : ℕ) (count : ℕ → ℕ)
    → count f ≡ 0
    → Refines m (drop_ref f (record { count = update count f 1; free = [] }))
    → Refines m (record { count = count; free = f ∷ [] })
taken_back-Refines m f count zero r =
    let e : (update count f 1 f == 1) ≡ true = ground arith in
    let l : (if update count f 1 f == 1 then f ∷ [] else []) ≡ f ∷ [] = rw e in
    record { pool = subst (IsPool m) l r.pool; counts = λ g. ground (arith, r.counts g, zero) }

-- With a free slot and one free frame, `fork` returns -1 and gives all back: the frame that the kernel
-- stack had is free, the counts of owners are as before, and the slot is unused.
pub fork_fails :
    (data_at cur : ℕ) (p : Proc) (s : System) (i f : ℕ) (count : ℕ → ℕ)
    → find_index (λ q. is_unused q.state) s.table.procs ≡ some i
    → Refines s.memory (record { count = count; free = f ∷ [] })
    → (s' : System) × (fork data_at cur p s ≡ ok (none, s'))
      × Refines s'.memory (record { count = count; free = f ∷ [] })
      × GivesBack i s s'
fork_fails data_at cur p s i f count found r =
    let t = s.table in
    let (v, at, free) = find_index-get_elem? (λ q. is_unused q.state) t.procs i found in
    let (m₁, run, r₁, _, e₁) = kalloc-alloc r in
    let t₁ = renumber i (with_stack t.nextpid (page_of f)) t in
    let s₁ : System = record s { table = t₁; memory = m₁ } in
    let np = with_stack t.nextpid (page_of f) v in
    let at₁ = get_elem?-modify_self i (with_stack t.nextpid (page_of f)) t.procs v at in
    let (m₂, none_left, r₂, _, e₂) = kalloc-alloc r₁ in
    let zero : count f ≡ 0 = sym (r.counts f) ∙ r.pool.unowned.0 in
    let owned : update count f 1 f ≢ 0 =
      λ z. absurd (omega (arith, sym (update_self count f 1) ∙ z)) in
    let (m₃, freed, r₃, _, _) =
      kfree-drop_ref f r₂ r.pool.in_ram.0 (omega (arith, e₁, e₂, r.pool.above.0)) owned in
    (
      record s₁ { table = change i abandoned t₁; memory = m₃ },
      fork-fork_at data_at cur p s (allocproc-found i t s.memory found run (omega arith))
          ∙ fork_at-abandoned data_at cur p s₁ i np none_left at₁ freed,
      taken_back-Refines m₃ f count zero r₃,
      record {
        slot = (abandoned np, get_elem?-modify_self i abandoned t₁.procs np at₁, refl, refl);
        others = λ j n.
            get_elem?-modify_ne i j abandoned t₁.procs n
            ∙ get_elem?-modify_ne i j (with_stack t.nextpid (page_of f)) t.procs n;
        files = refl;
        inodes = refl;
      },
    )
