-- ===== src/Vm/Lazy.antt =====
-- `vm_alloc_mmap_page` of vm.c: the page that a region gets at its first access.
use mathlib.Core.Path.{subst}
use cs330_operating_systems.Base.{
  ℕ, ◌<◌, ◌*◌, ◌/◌, ◌^◌, List, ◌%◌, ◌≡◌, ◌≢◌, sym, ap, ◌∙◌, true, false, arith, if◌then◌else◌, ◌∷◌,
  ok, update, ◌==◌,
}
use cs330_operating_systems.Kalloc.{
  Kmem, pgsize, kernbase, pg_round_down, v2p, p2v, fill_page, frame_of, kalloc,
}
use cs330_operating_systems.Kalloc.Chain.{page_of, frames, IsPool}
use cs330_operating_systems.Kalloc.Counts.{Pool, Refines}
use cs330_operating_systems.Kalloc.Writes.{Refines-write, kalloc-cons}
use cs330_operating_systems.Vm.{
  Slot, slot, load, store, pde_slot, pte_slot, prot_write, mappages, vm_alloc_mmap_page,
}
use cs330_operating_systems.Vm.Cow.{store-Refines, load-store}
use cs330_operating_systems.Vm.Mapping.{mappages-one, load-store_ne}
use cs330_operating_systems.Vm.Pte.{pte_p, pte_w, pte_u, has_flag, set_flag, pte_addr, with_flags}

-- A page of a process that is not there yet: the page table is, its entry `t` is free, and directory
-- and table are different frames that someone owns.
pub record IsLazy (m : Kmem) (q : Pool) (d va : ℕ) (t : Slot) : Type 0 where
  pub pool : Refines m q
  pub table : has_flag (load (pde_slot d va) m) pte_p ≡ true
  pub place : pte_slot (load (pde_slot d va) m) va ≡ t
  pub free : has_flag (load t m) pte_p ≡ false
  pub directory_owned : q.count (frame_of d) ≢ 0
  pub table_owned : q.count t.frame ≢ 0
  pub apart : t.frame ≢ frame_of d
  pub low : va < kernbase

-- the flags for a protection
abbrev pub user_flags : ℕ → ℕ
user_flags prot = if has_flag prot prot_write then set_flag pte_u pte_w else pte_u

abbrev pub lazy_word : ℕ → ℕ → ℕ
lazy_word f prot = set_flag (with_flags (f * pgsize) (user_flags prot)) pte_p

lazy_word_lem :
    (f prot : ℕ)
    → (has_flag (lazy_word f prot) pte_p ≡ true)
      × (has_flag (lazy_word f prot) pte_w ≡ has_flag prot prot_write)
      × (has_flag (lazy_word f prot) pte_u ≡ true)
      × (pte_addr (lazy_word f prot) ≡ f * pgsize)
lazy_word_lem f prot = ground arith

alloc-runs :
    (d va prot mem : ℕ) (m m₁ : Kmem) {m₂ : Kmem}
    → kalloc m ≡ ok (mem, m₁)
    → (mem == 0) ≡ false
    → mappages d (pg_round_down va) pgsize (v2p mem) (user_flags prot) (fill_page mem 0 m₁)
      ≡ ok (true, m₂)
    → vm_alloc_mmap_page d va prot m ≡ ok (true, m₂)
unfolding vm_alloc_mmap_page
alloc-runs d va prot mem m m₁ got there maps = rw (got, there, maps)

-- What the process has once the page is there.
pub record Served (m m' : Kmem) (d va prot f : ℕ) (t : Slot) : Type 0 where
  pub directory : load (pde_slot d va) m' ≡ load (pde_slot d va) m
  pub present : has_flag (load t m') pte_p ≡ true
  pub writable : has_flag (load t m') pte_w ≡ has_flag prot prot_write
  pub user : has_flag (load t m') pte_u ≡ true
  pub maps : pte_addr (load t m') ≡ f * pgsize
  pub zeroed : (i : ℕ) → m'.ram f i ≡ 0

pde_slot-round_down : (d va : ℕ) → pde_slot d (pg_round_down va) ≡ pde_slot d va
pde_slot-round_down d va =
    let e : pg_round_down va / 2 ^ 22 % 1024 ≡ va / 2 ^ 22 % 1024 = omega arith in
    ap (λ i. slot (frame_of d) i) e

pte_slot-round_down : (w va : ℕ) → pte_slot w (pg_round_down va) ≡ pte_slot w va
pte_slot-round_down w va =
    let e : pg_round_down va / 2 ^ 12 % 1024 ≡ va / 2 ^ 12 % 1024 = omega arith in
    ap (λ i. slot (frame_of (p2v (pte_addr w))) i) e

-- The first free frame belongs to no one and lies in the memory.
free_frame :
    {m : Kmem} {q : Pool} (f : ℕ) (fs : List ℕ)
    → Refines m q
    → q.free ≡ f ∷ fs
    → (q.count f ≡ 0) × (f < frames)
free_frame {m} {q} f fs r e =
    let p = subst (IsPool m) e r.pool in (sym (r.counts f) ∙ p.unowned.0, p.in_ram.0)

load-fill_page :
    (s : Slot) (f w : ℕ) (m : Kmem)
    → f < frames
    → s.frame ≢ f
    → load s (fill_page (page_of f) w m) ≡ load s m
load-fill_page s f w m small apart =
    let e : frame_of (page_of f) ≡ f = omega arith in ground (arith, e)

zeroed_lem :
    (s : Slot) (f i w : ℕ) (m : Kmem)
    → f < frames
    → s.frame ≢ f
    → (store s w (fill_page (page_of f) 0 m)).ram f i ≡ 0
zeroed_lem s f i w m small apart =
    let e : frame_of (page_of f) ≡ f = omega arith in ground (arith, e)

-- The owner of a frame fills its page.
fill_page-Refines :
    {m : Kmem} (count : ℕ → ℕ) (f : ℕ) (fs : List ℕ)
    → Refines m (record { count = update count f 1; free = fs })
    → f < frames
    → Refines (fill_page (page_of f) 0 m) (record { count = update count f 1; free = fs })
fill_page-Refines {m} count f fs r small =
    let e : frame_of (page_of f) ≡ f = omega arith in
    Refines-write (update m.ram (frame_of (page_of f)) (λ i. 0)) r (λ g z. ground (arith, e))

module _ {m : Kmem} {q : Pool} {d va : ℕ} {t : Slot} (c : IsLazy m q d va t) where
  -- the mapping of the new page, in a memory where the tables are as before
  maps_lazy :
      (pa perm : ℕ) (m₂ : Kmem)
      → load (pde_slot d va) m₂ ≡ load (pde_slot d va) m
      → load t m₂ ≡ load t m
      → mappages d (pg_round_down va) pgsize pa perm m₂
        ≡ ok (true, store t (set_flag (with_flags pa perm) pte_p) m₂)
  maps_lazy pa perm m₂ directory table =
      let i = pg_round_down va in
      let e : load (pde_slot d i) m₂ ≡ load (pde_slot d va) m =
        ap (λ s. load s m₂) (pde_slot-round_down d va) ∙ directory in
      let p : pte_slot (load (pde_slot d i) m₂) i ≡ t =
        ap (λ w. pte_slot w i) e ∙ pte_slot-round_down (load (pde_slot d va) m) va ∙ c.place in
      mappages-one d i pa perm m₂ (omega arith) (omega (arith, c.low))
        (ap (λ w. has_flag w pte_p) e ∙ c.table)
        (ap (λ s. has_flag (load s m₂) pte_p) p ∙ ap (λ w. has_flag w pte_p) table ∙ c.free)
      ∙ ap (λ s. ok (true, store s (set_flag (with_flags pa perm) pte_p) m₂)) p

  -- With a free frame the page is put there, zeroed and with the protection's flags.
  pub vm_alloc_mmap_page-Served :
      (prot f : ℕ) (fs : List ℕ)
      → q.free ≡ f ∷ fs
      → (m' : Kmem) × (vm_alloc_mmap_page d va prot m ≡ ok (true, m'))
        × Refines m' (record { count = update q.count f 1; free = fs })
        × Served m m' d va prot f t
  vm_alloc_mmap_page-Served prot f fs e =
      let (unowned, small) = free_frame f fs c.pool e in
      let (m₁, got, r₁, ram, _) = kalloc-cons c.pool f fs e in
      let m₂ = fill_page (page_of f) 0 m₁ in
      let at : frame_of (page_of f) ≡ f = omega (arith, small) in
      let pa : v2p (page_of f) ≡ f * pgsize = omega (arith, small) in
      let dir : frame_of d ≢ f = λ h. c.directory_owned (ap q.count h ∙ unowned) in
      let tab : t.frame ≢ f = λ h. c.table_owned (ap q.count h ∙ unowned) in
      let kept : (s : Slot) → s.frame ≢ f → load s m₂ ≡ load s m =
        λ s h. load-fill_page s f 0 m₁ small h ∙ ap (λ x. x s.frame s.index) ram in
      let w = set_flag (with_flags (v2p (page_of f)) (user_flags prot)) pte_p in
      let (wp, ww, wu, wa) = lazy_word_lem f prot in
      let word : w ≡ lazy_word f prot =
        ap (λ a. set_flag (with_flags a (user_flags prot)) pte_p) pa in
      let entry : load t (store t w m₂) ≡ lazy_word f prot = load-store t w m₂ ∙ word in
      (
        store t w m₂,
        alloc-runs d va prot (page_of f) m m₁ got (ground arith) (
            maps_lazy (v2p (page_of f)) (user_flags prot) m₂ (kept (pde_slot d va) dir)
              (kept t tab)),
        store-Refines t w (fill_page-Refines q.count f fs r₁ small)
            (ground (arith, tab, c.table_owned)),
        record {
          directory = load-store_ne t (pde_slot d va) w m₂ c.apart ∙ kept (pde_slot d va) dir;
          present = ap (λ x. has_flag x pte_p) entry ∙ wp;
          writable = ap (λ x. has_flag x pte_w) entry ∙ ww;
          user = ap (λ x. has_flag x pte_u) entry ∙ wu;
          maps = ap pte_addr entry ∙ wa;
          zeroed = λ i. zeroed_lem t f i w m₁ small tab;
        },
      )

-- A page's entry is that of the page's first address.
pub IsLazy-round_down :
    {m : Kmem} {q : Pool} {d va : ℕ} {t : Slot}
    → IsLazy m q d va t
    → IsLazy m q d (pg_round_down va) t
IsLazy-round_down {m} {q} {d} {va} {t} c =
    let e = pde_slot-round_down d va in
    record {
      pool = c.pool;
      table = ap (λ s. has_flag (load s m) pte_p) e ∙ c.table;
      place =
          ap (λ s. pte_slot (load s m) (pg_round_down va)) e
          ∙ pte_slot-round_down (load (pde_slot d va) m) va
          ∙ c.place;
      free = c.free;
      directory_owned = c.directory_owned;
      table_owned = c.table_owned;
      apart = c.apart;
      low = omega (arith, c.low);
    }

pub Served-of_page :
    {m m' : Kmem} {d va prot f : ℕ} {t : Slot}
    → Served m m' d (pg_round_down va) prot f t
    → Served m m' d va prot f t
Served-of_page {m} {m'} {d} {va} {prot} {f} {t} s =
    let e = pde_slot-round_down d va in
    record {
      directory = ap (λ x. load x m') (sym e) ∙ s.directory ∙ ap (λ x. load x m) e;
      present = s.present;
      writable = s.writable;
      user = s.user;
      maps = s.maps;
      zeroed = s.zeroed;
    }
