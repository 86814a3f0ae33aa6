-- ===== src/Mmap.antt =====
-- The mmap system calls of sysproc.c, and the searches of proc.c that they use. An `int` argument
-- is its 32-bit pattern, negative from 2^31 on; `none` is an argument that `argint` refuses, and
-- as a result the return value -1.
pub mod Layout
pub mod Calls
pub mod Regions
pub mod Protect
pub mod Unmap
pub mod Grow
pub mod Shrink
use cs330_operating_systems.Base.{
  ℕ, zero, suc, ◌+◌, ◌-◌, ◌%◌, ◌^◌, Bool, true, false, not, ◌&&◌, ◌||◌, ltb, leb, ◌==◌,
  if◌then◌else◌, Outcome, ok, ◌>>=◌, Option, none, some, List, [], ◌∷◌, set, find_index,
}
use cs330_operating_systems.Kalloc.{Kmem, pgsize, kernbase, pg_round_up, sub_uint}
use cs330_operating_systems.Vm.{vm_unmap_range, vm_protect_range, prot_read, prot_write}
use cs330_operating_systems.Proc.{Vma, Proc}

abbrev pub max_vmas : ℕ
max_vmas = 16

-- the test of `vma_find`
abbrev pub covers : Vma → ℕ → Bool
covers v addr = leb v.start addr && ltb (addr - v.start) v.length

unfoldable pub find_in : List Vma → ℕ → Option Vma
find_in [] addr = none
find_in (v ∷ vs) addr = if v.used && covers v addr then some v else find_in vs addr

unfoldable pub vma_find : Proc → ℕ → Option Vma
unfolding find_in
vma_find p addr = find_in p.vmas addr

abbrev pub is_exactly : ℕ → ℕ → Vma → Bool
is_exactly addr length v = v.used && (v.start == addr) && (v.length == length)

unfoldable pub vma_find_exact : Proc → ℕ → ℕ → Option ℕ
unfolding find_index
vma_find_exact p addr length = find_index (is_exactly addr length) p.vmas

-- `n > 0` for an `int`
abbrev pub is_positive : ℕ → Bool
is_positive n = ltb 0 n && ltb n (2 ^ 31)

abbrev pub region : ℕ → ℕ → ℕ → Vma
region start length prot = record { start = start; length = length; prot = prot; used = true }

-- the state after the free slot `i` was found
abbrev pub map_at : ℕ → ℕ → ℕ → Proc → Proc
map_at i start length p = record p {
  vmas = set p.vmas i (region start length 3);
  sz = start + length;
}

unfoldable pub sys_mmap : Option ℕ → Proc → Proc × Option ℕ
unfolding find_index
sys_mmap none p = (p, none)
sys_mmap (some n) p =
    let length = pg_round_up n in
    let start = pg_round_up p.sz in
    if not (is_positive n)
    then (p, none)
    else if length == 0 || leb kernbase length
    then (p, none)
    else if leb kernbase start || ltb (kernbase - start) length
    then (p, none)
    else (elim (find_index (λ v. not v.used) p.vmas) [
      | none ↦ (p, none)
      | some i ↦ (map_at i start length p, some start)
    ])

-- `memset(v, 0, sizeof(*v))`
abbrev pub no_vma : Vma
no_vma = record { start = 0; length = 0; prot = 0; used = false }

-- `sys_munmap`, from the result of `vma_find_exact` on
unfoldable pub unmap_at : Option ℕ → ℕ → ℕ → Proc → Kmem → Outcome (Proc × Kmem × Bool)
unmap_at none start length p m = ok (p, m, false)
unmap_at (some i) start length p m = vm_unmap_range p.pgdir start length m >>= λ m'.
    ok (record p { vmas = set p.vmas i no_vma }, m', true)

-- The return value 0 is `true`, and -1 is `false`.
unfoldable pub sys_munmap : Option ℕ → Option ℕ → Proc → Kmem → Outcome (Proc × Kmem × Bool)
unfolding unmap_at vma_find_exact
sys_munmap none n p m = ok (p, m, false)
sys_munmap (some addr) none p m = ok (p, m, false)
sys_munmap (some addr) (some n) p m =
    if not (is_positive n) || not (addr % pgsize == 0) || (pg_round_up n == 0)
    then ok (p, m, false)
    else unmap_at (vma_find_exact p addr (pg_round_up n)) addr (pg_round_up n) p m

abbrev pub set_prot : ℕ → ℕ → List Vma → List Vma
set_prot prot i [] = []
set_prot prot zero (v ∷ vs) = record v { prot = prot } ∷ vs
set_prot prot (suc i) (v ∷ vs) = v ∷ set_prot prot i vs

-- `sys_mprotect`, from the result of `vma_find_exact` on. `vm_protect_range` never returns a
-- negative value, so the old protection is never put back.
unfoldable pub protect_at : Option ℕ → ℕ → ℕ → ℕ → Proc → Kmem → Outcome (Proc × Kmem × Bool)
protect_at none start length prot p m = ok (p, m, false)
protect_at (some i) start length prot p m = vm_protect_range p.pgdir start length prot m >>= λ m'.
    ok (record p { vmas = set_prot prot i p.vmas }, m', true)

unfoldable pub sys_mprotect :
    Option ℕ → Option ℕ → Option ℕ → Proc → Kmem → Outcome (Proc × Kmem × Bool)
unfolding protect_at vma_find_exact
sys_mprotect none n prot p m = ok (p, m, false)
sys_mprotect (some addr) none prot p m = ok (p, m, false)
sys_mprotect (some addr) (some n) none p m = ok (p, m, false)
sys_mprotect (some addr) (some n) (some prot) p m =
    if not (is_positive n)
      || (not (prot == 1) && not (prot == 3))
      || not (addr % pgsize == 0)
      || (pg_round_up n == 0)
    then ok (p, m, false)
    else protect_at (vma_find_exact p addr (pg_round_up n)) addr (pg_round_up n) prot p m
