-- ===== src/Kalloc.antt =====
-- kalloc.c: the allocator of 4096-byte frames, with a reference count for each frame. The free
-- list runs through the first word of each free page.
pub mod Chain
pub mod Counts
pub mod Writes
pub mod Boot
use cs330_operating_systems.Base.{
  ℕ, zero, suc, ◌+◌, ◌-◌, ◌*◌, ◌/◌, ◌%◌, ◌^◌, Bool, true, false, not, ◌||◌, ltb, leb, ◌==◌,
  if◌then◌else◌, update, Outcome, ok, panic, out_of_fuel, ◌>>=◌,
}

abbrev pub pgsize : ℕ
pgsize = 4096

abbrev pub kernbase : ℕ
kernbase = 0x80000000

abbrev pub phystop : ℕ
phystop = 0xE000000

-- uint addition and subtraction
abbrev pub add_uint : ℕ → ℕ → ℕ
add_uint a b = (a + b) % 2 ^ 32

abbrev pub sub_uint : ℕ → ℕ → ℕ
sub_uint a b = (a + 2 ^ 32 - b) % 2 ^ 32

-- V2P and P2V of memlayout.h
abbrev pub v2p : ℕ → ℕ
v2p a = sub_uint a kernbase

abbrev pub p2v : ℕ → ℕ
p2v a = add_uint a kernbase

-- PGROUNDUP and PGROUNDDOWN of mmu.h
abbrev pub pg_round_up : ℕ → ℕ
pg_round_up a = let b = add_uint a (pgsize - 1) in b - b % pgsize

abbrev pub pg_round_down : ℕ → ℕ
pg_round_down a = a - a % pgsize

-- a page, as 1024 words of 32 bits
abbrev pub Page : Type 0
Page = ℕ → ℕ

-- `kmem` and `refcnt`, with the physical memory by frame number, and the linker's `end`.
pub record Kmem : Type 0 where
  pub freelist : ℕ
  pub refcnt : ℕ → ℕ
  pub ram : ℕ → Page
  pub kernel_end : ℕ

-- the frame number of a kernel virtual address
abbrev pub frame_of : ℕ → ℕ
frame_of v = v2p v / pgsize

unfoldable pub refindex : ℕ → Outcome ℕ
refindex pa = if leb phystop pa || not (pa % pgsize == 0) then panic else ok (pa / pgsize)

-- `memset(v, c, PGSIZE)` of a page, where every word of it becomes `w`
abbrev pub fill_page : ℕ → ℕ → Kmem → Kmem
fill_page v w m = record m { ram = update m.ram (frame_of v) (λ i. w) }

-- `r->next = p` for the page `r`
abbrev pub set_next : ℕ → ℕ → Kmem → Kmem
set_next r p m = record m { ram = update m.ram (frame_of r) (update (m.ram (frame_of r)) 0 p) }

-- the part of `kfree` under `kmem.lock`
unfoldable pub kfree_locked : ℕ → ℕ → Kmem → Outcome Kmem
kfree_locked idx v m =
    if m.refcnt idx == 0
    then panic
    else let m₁ = record m { refcnt = update m.refcnt idx (m.refcnt idx - 1) } in
      if ltb 0 (m₁.refcnt idx)
      then ok m₁
      else let m₂ = set_next v m₁.freelist (fill_page v 0x01010101 m₁) in
        ok (record m₂ { freelist = v })

unfoldable pub kfree : ℕ → Kmem → Outcome Kmem
unfolding refindex
kfree v m =
    if not (v % pgsize == 0) || ltb v m.kernel_end || leb phystop (v2p v)
    then panic
    else refindex (v2p v) >>= λ idx. kfree_locked idx v m

-- Returns the page's address, or 0, and the new state.
unfoldable pub kalloc : Kmem → Outcome (ℕ × Kmem)
unfolding refindex
kalloc m =
    let r = m.freelist in
    if r == 0
    then ok (0, m)
    else refindex (v2p r) >>= λ idx.
        ok (r, record m { freelist = m.ram (frame_of r) 0; refcnt = update m.refcnt idx 1 })

unfoldable pub kref_inc : ℕ → Kmem → Outcome Kmem
unfolding refindex
kref_inc pa m = refindex pa >>= λ idx.
    if m.refcnt idx == 0
    then panic
    else ok (record m { refcnt = update m.refcnt idx (m.refcnt idx + 1) })

unfoldable pub kref_get : ℕ → Kmem → Outcome ℕ
unfolding refindex
kref_get pa m = refindex pa >>= λ idx. ok (m.refcnt idx)

-- The loop of `freerange` at `p`, on fuel.
unfoldable pub free_pages : ℕ → ℕ → ℕ → Kmem → Outcome Kmem
free_pages zero p vend m = out_of_fuel
free_pages (suc fuel) p vend m =
    if leb (p + pgsize) vend
    then (kfree p (record m { refcnt = update m.refcnt (frame_of p) 1 }) >>= λ m'.
        free_pages fuel (p + pgsize) vend m')
    else ok m

-- The pages of the kernel's address space below 2^32 are enough rounds.
unfoldable pub freerange : ℕ → ℕ → Kmem → Outcome Kmem
freerange vstart vend m = free_pages (2 ^ 20) (pg_round_up vstart) vend m
