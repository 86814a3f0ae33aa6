-- ===== src/Fork/Share.antt =====
-- How one page of the parent is shared with the child in `copyuvm` of vm.c.
use cs330_operating_systems.Base.{ℕ, ◌*◌, ◌%◌, ◌<◌, ◌≡◌, ◌≢◌, true, false, arith}
use cs330_operating_systems.Kalloc.{Kmem, pgsize, kernbase, frame_of}
use cs330_operating_systems.Kalloc.Chain.{frames}
use cs330_operating_systems.Kalloc.Counts.{Pool, Refines}
use cs330_operating_systems.Vm.{Slot, load, pde_slot, pte_slot}
use cs330_operating_systems.Vm.Pte.{
  pte_p, pte_w, pte_cow, has_flag, set_flag, pte_addr, with_flags, shared_flags,
}
use cs330_operating_systems.Fork.{becomes_cow, child_flags}

-- flags that are neither W nor made COW are those of a page that was read-only
child_flags_lem :
    (w : ℕ)
    → (child_flags w < pgsize)
      × (has_flag (child_flags w) pte_w ≡ false)
      × (has_flag (child_flags w) pte_cow ≡ becomes_cow w)
      × (has_flag (child_flags w) pte_p ≡ has_flag w pte_p)
unfolding shared_flags
child_flags_lem w = ground arith

-- The parent's entry `s` maps the owned frame `f`; the child's page table for `i` is there and its
-- entry for `i` is free. The tables, the child's directory and the frame are different frames.
pub record Sharable (m : Kmem) (q : Pool) (d i : ℕ) (s t : Slot) (f : ℕ) : Type 0 where
  pub pool : Refines m q
  pub present : has_flag (load s m) pte_p ≡ true
  pub maps : pte_addr (load s m) ≡ f * pgsize
  pub in_ram : f < frames
  pub owned : q.count f ≢ 0
  pub parent_table : q.count s.frame ≢ 0
  pub child_table : q.count t.frame ≢ 0
  pub aligned : i % pgsize ≡ 0
  pub low : i < kernbase
  pub table : has_flag (load (pde_slot d i) m) pte_p ≡ true
  pub place : pte_slot (load (pde_slot d i) m) i ≡ t
  pub free : has_flag (load t m) pte_p ≡ false
  pub directory_apart : s.frame ≢ frame_of d
  pub tables_apart : s.frame ≢ t.frame
  pub parent_apart : s.frame ≢ f
  pub child_apart : t.frame ≢ f

-- Parent and child both map the frame, neither may write it, and both have to copy it before they
-- write exactly when the parent could write it, or had to copy it, before.
pub record IsShared (m m' : Kmem) (s t : Slot) (f : ℕ) : Type 0 where
  pub parent_maps : pte_addr (load s m') ≡ f * pgsize
  pub child_maps : pte_addr (load t m') ≡ f * pgsize
  pub parent_present : has_flag (load s m') pte_p ≡ true
  pub child_present : has_flag (load t m') pte_p ≡ true
  pub parent_read_only : has_flag (load s m') pte_w ≡ false
  pub child_read_only : has_flag (load t m') pte_w ≡ false
  pub parent_cow : has_flag (load s m') pte_cow ≡ becomes_cow (load s m)
  pub child_cow : has_flag (load t m') pte_cow ≡ becomes_cow (load s m)
  pub contents : m'.ram f ≡ m.ram f

-- the child's entry
abbrev pub child_word : ℕ → ℕ
child_word w = set_flag (with_flags (pte_addr w) (child_flags w)) pte_p
