-- ===== src/Trap/Faults.antt =====
-- What a page fault may do to the process and to memory.
use mathlib.Core.Path.{subst, sym}
use cs330_operating_systems.Base.{
  ℕ, ◌≡◌, refl, ◌≢◌, ◌⊎◌, inl, inr, true, false, arith, Option, none, some, [], ok, Bool-cases,
}
use cs330_operating_systems.Kalloc.{Kmem, pg_round_down}
use cs330_operating_systems.Kalloc.Counts.{Pool, Refines}
use cs330_operating_systems.Vm.{Slot, load, pde_slot, pte_slot}
use cs330_operating_systems.Vm.Cow.{IsCow, Private}
use cs330_operating_systems.Vm.CowFault.{entry_of, cow_fault-Private, cow_fault-not_cow}
use cs330_operating_systems.Vm.Pte.{has_flag, pte_p, pte_cow}
use cs330_operating_systems.Proc.{Vma, Proc}
use cs330_operating_systems.Mmap.{vma_find}
use cs330_operating_systems.Trap.{
  Fault, was_present, was_write, in_kernel, kill_proc, is_read_only, page_fault,
}

-- A write to a read-only mapping kills the process and leaves memory alone, whether the page is
-- there or not, and also if its entry is copy-on-write.
pub page_fault-read_only :
    (f : Fault) (p : Proc) (m : Kmem)
    → was_write f ≡ true
    → is_read_only (vma_find p f.va) ≡ true
    → page_fault f p m ≡ ok (kill_proc p, m)
unfolding page_fault
page_fault-read_only f p m w h = go (vma_find p f.va) refl h
  where
    go :
        (o : Option Vma)
        → vma_find p f.va ≡ o
        → is_read_only o ≡ true
        → page_fault f p m ≡ ok (kill_proc p, m)
    go none e h = absurd (cc)
    go (some v) e h = elim (Bool-cases (was_present f)) [
      | inl here ↦ rw (here, w, e, h)
      | inr lazy ↦ rw (lazy, e, w, h)
    ]

round_down_twice : (a : ℕ) → pg_round_down (pg_round_down a) ≡ pg_round_down a
round_down_twice a = omega arith

-- A write to a present copy-on-write page that its mapping does not forbid lets the process go on,
-- with a page of its own that has the old contents, when the frame has no other owner or a frame is
-- free.
pub page_fault-Private :
    {g : ℕ} {q : Pool} (f : Fault) (p : Proc) (m : Kmem)
    → was_present f ≡ true
    → was_write f ≡ true
    → is_read_only (vma_find p f.va) ≡ false
    → has_flag (load (pde_slot p.pgdir (pg_round_down f.va)) m) pte_p ≡ true
    → IsCow m q (entry_of p.pgdir f.va m) g
    → (q.count g ≡ 1) ⊎ (q.free ≢ [])
    → (m' : Kmem) × (q' : Pool) × (h : ℕ) × (page_fault f p m ≡ ok (p, m'))
      × Refines m' q'
      × Private m m' (entry_of p.pgdir f.va m) g h
unfolding page_fault
page_fault-Private {g} {q} f p m here w free there c able =
    let e = round_down_twice f.va in
    let (m', q', h, run, r, private) =
      cow_fault-Private p.pgdir (pg_round_down f.va)
        (subst (λ a. has_flag (load (pde_slot p.pgdir a) m) pte_p ≡ true) (sym e) there)
        (subst (λ a. IsCow m q (Slot_of a) g) (sym e) c) able in
    (m', q', h, rw (here, w, free, run), r, subst (λ a. Private m m' (Slot_of a) g h) e private)
  where
    Slot_of : ℕ → Slot
    Slot_of a = pte_slot (load (pde_slot p.pgdir a) m) a

-- A fault in user mode kills the process and leaves memory alone in each of three cases: the page
-- is not present and no mapping covers the address; the page is present and the access is no write;
-- the page is present and its entry is not copy-on-write.
pub page_fault-killed :
    (f : Fault) (p : Proc) (m : Kmem)
    → in_kernel f ≡ false
    → ((was_present f ≡ false) × (vma_find p f.va ≡ none))
      ⊎ ((was_present f ≡ true) × (was_write f ≡ false))
      ⊎ ((was_present f ≡ true) × (has_flag (load (entry_of p.pgdir f.va m) m) pte_cow ≡ false))
    → page_fault f p m ≡ ok (kill_proc p, m)
unfolding page_fault
page_fault-killed f p m user (inl (lazy, unmapped)) = rw (lazy, unmapped, user)
page_fault-killed f p m user (inr (inl (here, reading))) = rw (here, reading, user)
page_fault-killed f p m user (inr (inr (here, private))) = elim (Bool-cases (was_write f)) [
  | inr reading ↦ rw (here, reading, user)
  | inl writing ↦ elim (Bool-cases (is_read_only (vma_find p f.va))) [
    | inl forbidden ↦ rw (here, writing, forbidden)
    | inr allowed ↦ rw (
      here,
      writing,
      allowed,
      cow_fault-not_cow p.pgdir (pg_round_down f.va) (inr (inr at_page)),
      user,
    )
  ]
]
  where
    at_page : has_flag (load (entry_of p.pgdir (pg_round_down f.va) m) m) pte_cow ≡ false
    at_page =
        subst (λ a. has_flag (load (pte_slot (load (pde_slot p.pgdir a) m) a) m) pte_cow ≡ false)
          (sym (round_down_twice f.va)) private
