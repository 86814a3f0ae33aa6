-- ===== src/Mmap/Calls.antt =====
-- What `sys_mmap` of sysproc.c does to the regions of a process.
use mathlib.Core.Path.{subst, sym}
use cs330_operating_systems.Base.{
  ℕ, zero, suc, ◌+◌, ◌%◌, ◌≤◌, ◌<◌, ◌≡◌, refl, ◌⊎◌, ◌↔◌, true, false, not, arith, if◌then◌else◌,
  none, some, List, [], ◌∷◌, set, All, find_index, find_index-zero, find_index-suc,
}
use cs330_operating_systems.Kalloc.{pgsize, kernbase, pg_round_up}
use cs330_operating_systems.Proc.{Vma, Proc}
use cs330_operating_systems.Mmap.{covers, find_in, vma_find, region, is_positive, sys_mmap}
use cs330_operating_systems.Mmap.Layout.{
  IsPlaced, IsPlaced-grow, Apart-above, AllApart-set, All-set, IsLayout, Mapped, sys_mmap-Mapped,
}

round_up_lem : (n : ℕ) → n ≤ kernbase → (n ≤ pg_round_up n) × (pg_round_up n % pgsize ≡ 0)
round_up_lem n h = (omega arith, omega arith)

-- A call of `sys_mmap` that succeeds returns a page-aligned address and keeps the regions of the
-- process aligned, apart, and below the kernel.
pub sys_mmap-IsLayout :
    (n : ℕ) {p p' : Proc} {a : ℕ}
    → IsLayout p
    → sys_mmap (some n) p ≡ (p', some a)
    → IsLayout p' × (a % pgsize ≡ 0)
sys_mmap-IsLayout n {p} {p'} {a} l h =
    let (i, q) = sys_mmap-Mapped n p h in
    let (up, aligned) = round_up_lem p.sz l.top in
    (
      subst IsLayout (sym q.after) (record {
        placed =
            All-set (IsPlaced (pg_round_up p.sz + pg_round_up n)) p.vmas i
              (region (pg_round_up p.sz) (pg_round_up n) 3) (new_IsPlaced i q up aligned)
              (IsPlaced-grow (omega (arith, up)) p.vmas l.placed);
        apart =
            AllApart-set p.vmas i (region (pg_round_up p.sz) (pg_round_up n) 3)
              (Apart-above p.sz (region (pg_round_up p.sz) (pg_round_up n) 3) p.vmas up l.placed)
              l.apart;
        top = omega (arith, q.room, q.address);
      }),
      rw q.address aligned,
    )
  where
    new_IsPlaced :
        (i : ℕ)
        → Mapped n p p' a i
        → p.sz ≤ pg_round_up p.sz
        → pg_round_up p.sz % pgsize ≡ 0
        → IsPlaced (pg_round_up p.sz + pg_round_up n) (region (pg_round_up p.sz) (pg_round_up n) 3)
    new_IsPlaced i q up aligned = record {
      start = λ u. aligned;
      length = λ u. omega arith;
      pages = λ u. q.pages;
      below = λ u. omega arith;
    }

find_in-set :
    (sz : ℕ) (w : Vma) (addr : ℕ) (vs : List Vma) (i : ℕ)
    → find_index (λ v. not v.used) vs ≡ some i
    → All (IsPlaced sz) vs
    → sz ≤ w.start
    → w.used ≡ true
    → find_in (set vs i w) addr ≡ (if covers w addr then some w else find_in vs addr)
unfolding find_in
find_in-set sz w addr [] i e h le u = absurd (unfold find_index in cc)
find_in-set sz w addr (v ∷ vs) zero e h le u =
    ground (arith, find_index-zero (λ v. not v.used) v vs)
find_in-set sz w addr (v ∷ vs) (suc i) e h le u =
    let (used, rest) = find_index-suc (λ v. not v.used) v vs i e in
    ground (arith, find_in-set sz w addr vs i rest h.1 le u, h.0.below)

-- After a call of `sys_mmap` that succeeds, `vma_find` finds the new region at its addresses, and
-- at every other address what it found before.
pub sys_mmap-vma_find :
    (n addr : ℕ) {p p' : Proc} {a : ℕ}
    → IsLayout p
    → sys_mmap (some n) p ≡ (p', some a)
    → vma_find p' addr ≡ (
        if covers (region a (pg_round_up n) 3) addr
        then some (region a (pg_round_up n) 3)
        else vma_find p addr)
unfolding vma_find
sys_mmap-vma_find n addr {p} {p'} {a} l h =
    let (i, q) = sys_mmap-Mapped n p h in
    let (up, _) = round_up_lem p.sz l.top in
    rw (q.after, q.address)
      (find_in-set p.sz (region (pg_round_up p.sz) (pg_round_up n) 3) addr p.vmas i q.free l.placed
        up refl)

-- For an argument that was fetched and a process whose size is not above the kernel's base,
-- `sys_mmap` fails and changes nothing exactly when the argument is not positive, its size is that
-- of all the memory below the kernel, no address range of that size is left below the kernel, or
-- every VMA is in use.
pub sys_mmap_fails :
    (n : ℕ) {p : Proc}
    → p.sz ≤ kernbase
    → (sys_mmap (some n) p ≡ (p, none)) ↔ (
        (is_positive n ≡ false)
        ⊎ (kernbase ≤ pg_round_up n)
        ⊎ (kernbase < pg_round_up p.sz + pg_round_up n)
        ⊎ (find_index (λ v. not v.used) p.vmas ≡ none))
unfolding sys_mmap
sys_mmap_fails n {p} top = (λ h. ground arith, λ h. ground arith)
