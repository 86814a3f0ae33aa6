-- ===== src/Vm/Space.antt =====
-- vm.c: an address space that grows, shrinks, is freed and is measured.
pub mod Counts
use cs330_operating_systems.Base.{
  ℕ, zero, suc, ◌+◌, ◌-◌, ◌*◌, ◌/◌, ◌%◌, ◌^◌, Bool, true, false, not, ◌&&◌, ◌||◌, ltb, leb, ◌==◌,
  if◌then◌else◌, Outcome, ok, panic, out_of_fuel, ◌>>=◌, Option, none, some,
}
use cs330_operating_systems.Kalloc.{
  Kmem, pgsize, kernbase, add_uint, sub_uint, v2p, p2v, pg_round_up, pg_round_down, frame_of,
  fill_page, kalloc, kfree, kref_get,
}
use cs330_operating_systems.Vm.{Slot, load, store, slot, walkpgdir, mappages, unmap_page, max_pages}
use cs330_operating_systems.Vm.Pte.{
  pte_p, pte_w, pte_u, has_flag, set_flag, clear_flag, pte_addr, pdx,
}
use cs330_operating_systems.Proc.{Proc}

-- the address at which the next round of `deallocuvm` looks: the next page, or the first one of the
-- next page table when this one is not there
abbrev pub next_page : Option Slot → ℕ → ℕ
next_page none a = add_uint (sub_uint ((pdx a + 1) * 2 ^ 22 % 2 ^ 32) pgsize) pgsize
next_page (some s) a = add_uint a pgsize

-- The loop of `deallocuvm`; a page is unmapped as in `vm_unmap_range`.
unfoldable pub dealloc_from : ℕ → ℕ → ℕ → ℕ → Kmem → Outcome Kmem
dealloc_from zero pgdir a oldsz m = out_of_fuel
dealloc_from (suc fuel) pgdir a oldsz m =
    if ltb a oldsz
    then (walkpgdir pgdir a false m >>= λ (pte, m₁).
        unmap_page pte m₁ >>= λ m₂. dealloc_from fuel pgdir (next_page pte a) oldsz m₂)
    else ok m

unfoldable pub deallocuvm : ℕ → ℕ → ℕ → Kmem → Outcome (ℕ × Kmem)
deallocuvm pgdir oldsz newsz m =
    if leb oldsz newsz
    then ok (oldsz, m)
    else (dealloc_from max_pages pgdir (pg_round_up newsz) oldsz m >>= λ m₁. ok (newsz, m₁))

-- a round of `allocuvm` that finds no memory: the pages added so far go, and the result is 0
abbrev pub undo_alloc : ℕ → ℕ → ℕ → Kmem → Outcome (ℕ × Kmem)
undo_alloc pgdir oldsz newsz m = deallocuvm pgdir newsz oldsz m >>= λ (n, m₁). ok (0, m₁)

-- one page: `false` when there is no memory
unfoldable pub alloc_page : ℕ → ℕ → Kmem → Outcome (Bool × ℕ × Kmem)
alloc_page pgdir a m = kalloc m >>= λ (mem, m₁).
    if mem == 0
    then ok (false, 0, m₁)
    else (mappages pgdir a pgsize (v2p mem) (pte_w + pte_u) (fill_page mem 0 m₁) >>= λ (done, m₂).
        ok (done, mem, m₂))

-- the end of a round: a page that could not be mapped is freed after the others
abbrev pub free_unmapped : ℕ → ℕ × Kmem → Outcome (ℕ × Kmem)
free_unmapped mem (n, m) = if mem == 0 then ok (n, m) else (kfree mem m >>= λ m₁. ok (n, m₁))

unfoldable pub alloc_from : ℕ → ℕ → ℕ → ℕ → ℕ → Kmem → Outcome (ℕ × Kmem)
unfolding alloc_page
alloc_from zero pgdir a oldsz newsz m = out_of_fuel
alloc_from (suc fuel) pgdir a oldsz newsz m =
    if ltb a newsz
    then (alloc_page pgdir a m >>= λ (done, mem, m₁). elim done [
      | true ↦ alloc_from fuel pgdir (add_uint a pgsize) oldsz newsz m₁
      | false ↦ undo_alloc pgdir oldsz newsz m₁ >>= free_unmapped mem
    ])
    else ok (newsz, m)

unfoldable pub allocuvm : ℕ → ℕ → ℕ → Kmem → Outcome (ℕ × Kmem)
allocuvm pgdir oldsz newsz m =
    if leb kernbase newsz
    then ok (0, m)
    else if ltb newsz oldsz
    then ok (oldsz, m)
    else alloc_from max_pages pgdir (pg_round_up oldsz) oldsz newsz m

-- `freevm` over the entries of the page directory, from `i` on
unfoldable pub free_tables : ℕ → ℕ → ℕ → Kmem → Outcome Kmem
free_tables pgdir zero i m = ok m
free_tables pgdir (suc n) i m =
    let pde = load (slot (frame_of pgdir) i) m in
    (if has_flag pde pte_p then kfree (p2v (pte_addr pde)) m else ok m) >>= λ m₁.
    free_tables pgdir n (i + 1) m₁

abbrev pub npdentries : ℕ
npdentries = 1024

unfoldable pub freevm : ℕ → Kmem → Outcome Kmem
unfolding free_tables
freevm pgdir m =
    if pgdir == 0
    then panic
    else deallocuvm pgdir kernbase 0 m >>= λ (n, m₁).
        free_tables pgdir npdentries 0 m₁ >>= λ m₂. kfree pgdir m₂

unfoldable pub clearpteu : ℕ → ℕ → Kmem → Outcome Kmem
clearpteu pgdir uva m = walkpgdir pgdir uva false m >>= λ (pte, m₁). elim pte [
  | none ↦ panic
  | some s ↦ ok (store s (clear_flag (load s m₁) pte_u) m₁)
]

-- `growproc`, by a count that is an `int`: a negative one is a pattern from 2^31 on. The result -1 is
-- `false`.
abbrev pub grown : Proc → ℕ × Kmem → Outcome (Bool × Proc × Kmem)
grown p (sz, m) = if sz == 0 then ok (false, p, m) else ok (true, record p { sz = sz }, m)

unfoldable pub growproc : ℕ → Proc → Kmem → Outcome (Bool × Proc × Kmem)
unfolding allocuvm deallocuvm
growproc n p m =
    if n == 0
    then ok (true, p, m)
    else if ltb n (2 ^ 31)
    then allocuvm p.pgdir p.sz (add_uint p.sz n) m >>= grown p
    else deallocuvm p.pgdir p.sz (add_uint p.sz n) m >>= grown p
