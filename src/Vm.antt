-- ===== src/Vm.antt =====
-- vm.c: two-level page tables in physical memory, demand paging and copy-on-write. `lcr3` reloads
-- the TLB, which the model has not.
pub mod Pte
pub mod Cow
pub mod CowFault
pub mod Protect
pub mod ProtectLoop
pub mod Unmap
pub mod Mapping
pub mod Lazy
pub mod Space
pub mod Copyout
use cs330_operating_systems.Base.{
  ℕ, zero, suc, ◌+◌, ◌-◌, ◌*◌, ◌/◌, ◌%◌, ◌^◌, Bool, true, false, not, ◌&&◌, ◌||◌, ltb, leb, ◌==◌,
  if◌then◌else◌, update, Outcome, ok, panic, out_of_fuel, ◌>>=◌, Option, none, some,
}
use cs330_operating_systems.Kalloc.{
  Kmem, pgsize, kernbase, add_uint, sub_uint, v2p, p2v, pg_round_up, pg_round_down, frame_of,
  fill_page, kalloc, kfree, kref_inc, kref_get,
}
use Pte.{
  pte_p, pte_w, pte_u, pte_cow, has_flag, set_flag, clear_flag, pte_addr, pte_flags, with_flags,
  pdx, ptx, private_flags, shared_flags,
}

-- A `pte_t *`: the frame of the page table, and the index of the entry.
pub record Slot : Type 0 where
  pub frame : ℕ
  pub index : ℕ

abbrev pub load : Slot → Kmem → ℕ
load s m = m.ram s.frame s.index

abbrev pub store : Slot → ℕ → Kmem → Kmem
store s w m = record m { ram = update m.ram s.frame (update (m.ram s.frame) s.index w) }

abbrev pub slot : ℕ → ℕ → Slot
slot f i = record { frame = f; index = i }

-- the entry of page directory `pgdir` for `va`
abbrev pub pde_slot : ℕ → ℕ → Slot
pde_slot pgdir va = slot (frame_of pgdir) (pdx va)

-- the entry for `va` in the page table that a directory entry points to
abbrev pub pte_slot : ℕ → ℕ → Slot
pte_slot pde va = slot (frame_of (p2v (pte_addr pde))) (ptx va)

-- `walkpgdir`, from the result of its call of `kalloc` on
unfoldable pub new_table : ℕ → ℕ → ℕ → Kmem → Option Slot × Kmem
new_table pgdir va pgtab m =
    if pgtab == 0
    then (none, m)
    else let m₁ = fill_page pgtab 0 m in
      let pde = set_flag (set_flag (set_flag (v2p pgtab) pte_p) pte_w) pte_u in
      (some (slot (frame_of pgtab) (ptx va)), store (pde_slot pgdir va) pde m₁)

unfoldable pub walkpgdir : ℕ → ℕ → Bool → Kmem → Outcome (Option Slot × Kmem)
unfolding new_table
walkpgdir pgdir va alloc m =
    let pde = load (pde_slot pgdir va) m in
    if has_flag pde pte_p
    then ok (some (pte_slot pde va), m)
    else if not alloc
    then ok (none, m)
    else (kalloc m >>= λ (pgtab, m₁). ok (new_table pgdir va pgtab m₁))

-- One page of `mappages`: `false` is the return value -1.
unfoldable pub map_page : ℕ → ℕ → ℕ → ℕ → Kmem → Outcome (Bool × Kmem)
map_page pgdir a pa perm m = walkpgdir pgdir a true m >>= λ (pte, m₁). elim pte [
  | none ↦ ok (false, m₁)
  | some s ↦
      if has_flag (load s m₁) pte_p
      then panic
      else ok (true, store s (set_flag (with_flags pa perm) pte_p) m₁)
]

unfoldable pub mappages_from : ℕ → ℕ → ℕ → ℕ → ℕ → ℕ → Kmem → Outcome (Bool × Kmem)
mappages_from zero pgdir a last pa perm m = out_of_fuel
mappages_from (suc fuel) pgdir a last pa perm m = map_page pgdir a pa perm m >>= λ (done, m₁).
    if not done then ok (false, m₁) else (elim (a == last) [
      | true ↦ ok (true, m₁)
      | false ↦ mappages_from fuel pgdir (add_uint a pgsize) last (add_uint pa pgsize) perm m₁
    ])

-- as many pages as an address space has
abbrev pub max_pages : ℕ
max_pages = 2 ^ 20

unfoldable pub mappages : ℕ → ℕ → ℕ → ℕ → ℕ → Kmem → Outcome (Bool × Kmem)
mappages pgdir va size pa perm m =
    mappages_from max_pages pgdir (pg_round_down va) (pg_round_down (sub_uint (add_uint va size) 1))
      pa perm m

-- `prot & PROT_WRITE` of mmap.h
abbrev pub prot_read : ℕ
prot_read = 1

abbrev pub prot_write : ℕ
prot_write = 2

unfoldable pub vm_alloc_mmap_page : ℕ → ℕ → ℕ → Kmem → Outcome (Bool × Kmem)
vm_alloc_mmap_page pgdir va prot m = kalloc m >>= λ (mem, m₁).
    if mem == 0
    then ok (false, m₁)
    else (mappages pgdir (pg_round_down va) pgsize (v2p mem)
          (if has_flag prot prot_write then set_flag pte_u pte_w else pte_u) (fill_page mem 0 m₁)
        >>= λ (done, m₂). if done then ok (true, m₂) else (kfree mem m₂ >>= λ m₃. ok (false, m₃)))

-- The entry's new value in `vm_protect_range`; `kref_get` is called only if the entry is not COW.
unfoldable pub protect_entry : ℕ → ℕ → Kmem → Outcome ℕ
protect_entry prot w m =
    if has_flag prot prot_write
    then if has_flag w pte_cow
      then ok (shared_flags w)
      else (kref_get (pte_addr w) m >>= λ refs.
          ok (if ltb 1 refs then shared_flags w else set_flag w pte_w))
    else ok (clear_flag w pte_w)

-- One round of `vm_protect_range`, on the result of `walkpgdir`.
unfoldable pub protect_page : Option Slot → ℕ → Kmem → Outcome Kmem
protect_page none prot m = ok m
protect_page (some s) prot m =
    if has_flag (load s m) pte_p
    then (protect_entry prot (load s m) m >>= λ w. ok (store s w m))
    else ok m

unfoldable pub protect_from : ℕ → ℕ → ℕ → ℕ → ℕ → Kmem → Outcome Kmem
protect_from zero pgdir a limit prot m = out_of_fuel
protect_from (suc fuel) pgdir a limit prot m =
    if ltb a limit
    then (walkpgdir pgdir a false m >>= λ (pte, m₁). protect_page pte prot m₁ >>= λ m₂.
        protect_from fuel pgdir (add_uint a pgsize) limit prot m₂)
    else ok m

unfoldable pub vm_protect_range : ℕ → ℕ → ℕ → ℕ → Kmem → Outcome Kmem
vm_protect_range pgdir start length prot m =
    protect_from max_pages pgdir start (add_uint start length) prot m

-- One round of `vm_unmap_range`.
unfoldable pub unmap_page : Option Slot → Kmem → Outcome Kmem
unmap_page none m = ok m
unmap_page (some s) m =
    let pa = pte_addr (load s m) in
    if has_flag (load s m) pte_p
    then if pa == 0 then panic else (kfree (p2v pa) m >>= λ m₁. ok (store s 0 m₁))
    else ok m

unfoldable pub unmap_from : ℕ → ℕ → ℕ → ℕ → Kmem → Outcome Kmem
unmap_from zero pgdir a limit m = out_of_fuel
unmap_from (suc fuel) pgdir a limit m =
    if ltb a limit
    then (walkpgdir pgdir a false m >>= λ (pte, m₁).
        unmap_page pte m₁ >>= λ m₂. unmap_from fuel pgdir (add_uint a pgsize) limit m₂)
    else ok m

unfoldable pub vm_unmap_range : ℕ → ℕ → ℕ → Kmem → Outcome Kmem
vm_unmap_range pgdir start length m = unmap_from max_pages pgdir start (add_uint start length) m

-- The return values 1, 0 and -1 of `cow_fault`.
pub data CowResult : Type 0 where
  resolved not_cow no_memory : CowResult

-- `memmove(dst, src, PGSIZE)` of two pages
abbrev pub copy_page : ℕ → ℕ → Kmem → Kmem
copy_page dst src m = record m { ram = update m.ram (frame_of dst) (m.ram (frame_of src)) }

-- `cow_fault` for a shared frame, from the result of `kalloc` on
unfoldable pub cow_copy : Slot → ℕ → ℕ → ℕ → Kmem → Outcome (CowResult × Kmem)
cow_copy s pa flags mem m =
    if mem == 0
    then ok (no_memory, m)
    else let m₁ = copy_page mem (p2v pa) m in
      let m₂ = store s (with_flags (v2p mem) (private_flags flags)) m₁ in
      kfree (p2v pa) m₂ >>= λ m₃. ok (resolved, m₃)

unfoldable pub cow_entry : Slot → Kmem → Outcome (CowResult × Kmem)
unfolding cow_copy
cow_entry s m =
    let w = load s m in
    if not (has_flag w pte_p)
    then ok (not_cow, m)
    else if not (has_flag w pte_cow)
    then ok (not_cow, m)
    else (kref_get (pte_addr w) m >>= λ refs.
        if ltb refs 1
        then panic
        else if refs == 1
        then ok (resolved, store s (with_flags (pte_addr w) (private_flags (pte_flags w))) m)
        else (kalloc m >>= λ (mem, m₁). cow_copy s (pte_addr w) (pte_flags w) mem m₁))

unfoldable pub cow_fault : ℕ → ℕ → Kmem → Outcome (CowResult × Kmem)
unfolding cow_entry
cow_fault pgdir va m = walkpgdir pgdir (pg_round_down va) false m >>= λ (pte, m₁). elim pte [
  | none ↦ ok (not_cow, m₁)
  | some s ↦ cow_entry s m₁
]
