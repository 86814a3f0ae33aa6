-- ===== src/Vm/Copyout.antt =====
-- `copyout` of vm.c: bytes from the kernel into an address space, page by page.
pub mod Checks
use cs330_operating_systems.Base.{
  ℕ, zero, suc, ◌+◌, ◌-◌, ◌*◌, ◌/◌, ◌%◌, ◌^◌, ◌≡◌, ◌≢◌, ◌∙◌, refl, sym, arith, Bool, true, false,
  not, ◌&&◌, ◌||◌, ltb, ◌==◌, if◌then◌else◌, Bool-cases, taken_then, taken_else, update, Outcome,
  ok, panic, out_of_fuel, ◌>>=◌, Option, none, some, List, [], ◌∷◌, length, take, drop,
}
use cs330_operating_systems.Kalloc.{Kmem, Page, pgsize, add_uint, p2v, pg_round_down, frame_of}
use cs330_operating_systems.Vm.{
  Slot, load, walkpgdir, vm_alloc_mmap_page, prot_write, CowResult, resolved, not_cow, no_memory,
  cow_fault,
}
use cs330_operating_systems.Vm.Pte.{pte_p, pte_w, pte_u, pte_cow, has_flag, pte_addr}
use cs330_operating_systems.Vm.Space.Counts.{is_mapped, looked_up, walkpgdir-looked_up}
use cs330_operating_systems.Proc.{Vma, Proc}
use cs330_operating_systems.Mmap.{vma_find}

-- byte `k` of a word, and a word with another byte there
abbrev pub put_byte : ℕ → ℕ → ℕ → ℕ
put_byte w k b = w - (w / 256 ^ k % 256) * 256 ^ k + b * 256 ^ k

-- `memmove` to the offset `off` of a page
unfoldable pub put_page : Page → ℕ → List ℕ → Page
put_page page off [] = page
put_page page off (b ∷ bs) =
    put_page (update page (off / 4) (put_byte (page (off / 4)) (off % 4) b)) (off + 1) bs

-- The region that the page belongs to, if the address space is that of the running process.
abbrev pub region_of : Option Proc → ℕ → ℕ → Option Vma
region_of none pgdir va0 = none
region_of (some p) pgdir va0 = if p.pgdir == pgdir then vma_find p va0 else none

abbrev pub may_write : Vma → Bool
may_write v = has_flag v.prot prot_write

abbrev pub forbids : Option Vma → Bool
forbids none = false
forbids (some v) = not (may_write v)

-- `pte == 0 || !(*pte & PTE_P)`, as a result: `none` is -1
abbrev pub if_mapped : Option Slot × Kmem → Option Slot × Kmem
if_mapped (pte, m) = if is_mapped pte m then (pte, m) else (none, m)

-- a page that is not there yet
unfoldable pub bring_page : Option Vma → ℕ → ℕ → Kmem → Outcome (Option Slot × Kmem)
bring_page none pgdir va0 m = ok (none, m)
bring_page (some v) pgdir va0 m =
    if not (may_write v)
    then ok (none, m)
    else vm_alloc_mmap_page pgdir va0 v.prot m >>= λ (done, m₁).
        if done
        then (walkpgdir pgdir va0 false m₁ >>= λ found. ok (if_mapped found))
        else ok (none, m₁)

unfoldable pub find_page : Option Vma → ℕ → ℕ → Kmem → Outcome (Option Slot × Kmem)
unfolding bring_page
find_page v pgdir va0 m = walkpgdir pgdir va0 false m >>= λ (pte, m₁).
    if is_mapped pte m₁ then ok (pte, m₁) else bring_page v pgdir va0 m₁

abbrev pub after_cow : CowResult → ℕ → ℕ → Kmem → Outcome (Option Slot × Kmem)
after_cow resolved pgdir va0 m = walkpgdir pgdir va0 false m
after_cow not_cow pgdir va0 m = ok (none, m)
after_cow no_memory pgdir va0 m = ok (none, m)

-- a copy-on-write page, of which the process gets its own copy
unfoldable pub own_page : Option Slot → ℕ → ℕ → Kmem → Outcome (Option Slot × Kmem)
own_page none pgdir va0 m = ok (none, m)
own_page (some s) pgdir va0 m =
    if has_flag (load s m) pte_cow
    then (cow_fault pgdir va0 m >>= λ (r, m₁). after_cow r pgdir va0 m₁)
    else ok (some s, m)

-- `uva2ka`, on the entry that `walkpgdir` finds: `copyout` calls it only where there is one
abbrev pub uva2ka : Slot → Kmem → Option ℕ
uva2ka s m =
    if not (has_flag (load s m) pte_p) || not (has_flag (load s m) pte_u)
    then none
    else some (p2v (pte_addr (load s m)))

-- the test of the entry, and the copy of `bs` to the offset `off` of the page
unfoldable pub store_page : Option Slot → ℕ → List ℕ → Kmem → Bool × Kmem
unfolding put_page
store_page none off bs m = (false, m)
store_page (some s) off bs m =
    if not (has_flag (load s m) pte_p)
      || not (has_flag (load s m) pte_u)
      || not (has_flag (load s m) pte_w)
    then (false, m)
    else elim (uva2ka s m) [
      | none ↦ (false, m)
      | some pa0 ↦ (
        true,
        record m { ram = update m.ram (frame_of pa0) (put_page (m.ram (frame_of pa0)) off bs) },
      )
    ]

-- One page. The result -1 is `false`.
unfoldable pub copy_page_out : Option Vma → ℕ → ℕ → ℕ → List ℕ → Kmem → Outcome (Bool × Kmem)
unfolding find_page own_page store_page
copy_page_out v pgdir va0 off bs m = find_page v pgdir va0 m >>= λ (pte, m₁). elim pte [
  | none ↦ ok (false, m₁)
  | some s ↦
      if forbids v
      then ok (false, m₁)
      else own_page (some s) pgdir va0 m₁ >>= λ (pte', m₂). ok (store_page pte' off bs m₂)
]

-- `n`: the bytes that go to the first page
abbrev pub room : ℕ → List ℕ → ℕ
room va bs = if ltb (length bs) (pgsize - va % pgsize) then length bs else pgsize - va % pgsize

unfoldable pub copyout_from : ℕ → Option Proc → ℕ → ℕ → List ℕ → Kmem → Outcome (Bool × Kmem)
unfolding copy_page_out
copyout_from zero cur pgdir va bs m = if length bs == 0 then ok (true, m) else out_of_fuel
copyout_from (suc fuel) cur pgdir va bs m =
    if length bs == 0
    then ok (true, m)
    else (copy_page_out (region_of cur pgdir (pg_round_down va)) pgdir (pg_round_down va)
          (va % pgsize) (take (room va bs) bs) m
        >>= λ (done, m₁). elim done [
          | false ↦ ok (false, m₁)
          | true ↦
              copyout_from fuel cur pgdir (add_uint (pg_round_down va) pgsize)
                (drop (room va bs) bs) m₁
        ])

-- `cur` is the running process, if there is one.
unfoldable pub copyout : Option Proc → ℕ → ℕ → List ℕ → Kmem → Outcome (Bool × Kmem)
unfolding copyout_from
copyout cur pgdir va bs m = copyout_from (length bs) cur pgdir va bs m
