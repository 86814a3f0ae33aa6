-- ===== src/Vm/ProtectLoop.antt =====
-- The loop of `vm_protect_range`.
use cs330_operating_systems.Base.{ℕ, ◌*◌, ◌<◌, ◌≡◌, ◌⊎◌, true, false, ok, Option}
use cs330_operating_systems.Kalloc.{Kmem, pgsize, frame_of}
use cs330_operating_systems.Kalloc.Chain.{frames}
use cs330_operating_systems.Vm.{Slot, load, pde_slot, walkpgdir, protect_page}
use cs330_operating_systems.Vm.Protect.{protected, entry_at}
use cs330_operating_systems.Vm.Pte.{pte_p, has_flag, pte_addr}

module _ (prot pgdir : ℕ) where
  -- The word is an entry that maps frame `f`, and has been changed to the new protection.
  pub record Changed (m m' : Kmem) (g i f : ℕ) : Type 0 where
    pub in_ram : f < frames
    pub maps : pte_addr (m.ram g i) ≡ f * pgsize
    pub present : has_flag (m.ram g i) pte_p ≡ true
    pub now : m'.ram g i ≡ protected prot (m.refcnt f) (m.ram g i)

  -- Each word of memory is as it was, or an entry with the new protection.
  pub record Protects (m m' : Kmem) : Type 0 where
    pub counts : (f : ℕ) → m'.refcnt f ≡ m.refcnt f
    pub freelist : m'.freelist ≡ m.freelist
    pub kernel_end : m'.kernel_end ≡ m.kernel_end
    pub directory : (i : ℕ) → m'.ram (frame_of pgdir) i ≡ m.ram (frame_of pgdir) i
    pub words : (g i : ℕ) → (m'.ram g i ≡ m.ram g i) ⊎ ((f : ℕ) × Changed m m' g i f)

  -- The entry for page `b`, if there is one, has the new protection.
  abbrev pub IsDone : Kmem → Kmem → ℕ → Type 0
  IsDone m m' b =
      (f : ℕ)
      → has_flag (load (pde_slot pgdir b) m) pte_p ≡ true
      → has_flag (load (entry_at pgdir b m) m) pte_p ≡ true
      → pte_addr (load (entry_at pgdir b m) m) ≡ f * pgsize
      → load (entry_at pgdir b m) m' ≡ protected prot (m.refcnt f) (load (entry_at pgdir b m) m)

  -- One round of the loop.
  pub record Round (a : ℕ) (m : Kmem) : Type 0 where
    pub pte : Option Slot
    pub next : Kmem
    pub walks : walkpgdir pgdir a false m ≡ ok (pte, m)
    pub protects : protect_page pte prot m ≡ ok next
    pub frame : Protects m next
    pub done : IsDone m next a
