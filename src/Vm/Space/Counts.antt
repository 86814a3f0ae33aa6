-- ===== src/Vm/Space/Counts.antt =====
-- vm.c: how many pages a process has, in its regions and in memory, and who owns them.
use cs330_operating_systems.Base.{
  taken_then, taken_else, ℕ, zero, suc, ◌+◌, ◌*◌, ◌%◌, ◌≤◌, ◌<◌, ◌≡◌, refl, ◌∙◌, ap, arith, Bool,
  true, false, not, ◌||◌, ltb, lt→ltb, ◌==◌, if◌then◌else◌, Bool-cases, Outcome, ok, out_of_fuel,
  ◌>>=◌, Option, none, some, inl, inr,
}
use cs330_operating_systems.Kalloc.{
  Kmem, pgsize, kernbase, add_uint, pg_round_up, pg_round_down, frame_of, kref_get,
}
use cs330_operating_systems.Vm.{Slot, load, slot, pde_slot, pte_slot, walkpgdir, max_pages}
use cs330_operating_systems.Vm.Pte.{pte_p, pte_u, has_flag, pte_addr, pdx}
use cs330_operating_systems.Proc.{Vma, Proc}
use cs330_operating_systems.Mmap.{vma_find}

-- `pte != 0 && (*pte & PTE_P)`
abbrev pub is_mapped : Option Slot → Kmem → Bool
is_mapped none m = false
is_mapped (some s) m = has_flag (load s m) pte_p

abbrev pub one_if : Bool → ℕ
one_if b = if b then 1 else 0

-- the loop of `vm_numpp`, with the pages counted so far
unfoldable pub numpp_from : ℕ → ℕ → ℕ → ℕ → ℕ → Kmem → Outcome ℕ
numpp_from zero pgdir a limit count m = out_of_fuel
numpp_from (suc fuel) pgdir a limit count m =
    if ltb a limit
    then (walkpgdir pgdir a false m >>= λ (pte, m₁).
        numpp_from fuel pgdir (add_uint a pgsize) limit (count + one_if (is_mapped pte m₁)) m₁)
    else ok count

unfoldable pub vm_numpp : Proc → Kmem → Outcome ℕ
unfolding numpp_from
vm_numpp p m = if p.pgdir == 0 then ok 0 else numpp_from max_pages p.pgdir 0 (pg_round_up p.sz) 0 m

abbrev pub in_region : Option Vma → Bool
in_region none = false
in_region (some v) = true

-- the loop of `vm_numvp`: a page in a region counts, mapped or not
unfoldable pub numvp_from : ℕ → Proc → ℕ → ℕ → ℕ → Kmem → Outcome ℕ
numvp_from zero p a limit count m = out_of_fuel
numvp_from (suc fuel) p a limit count m =
    if ltb a limit
    then (if in_region (vma_find p a)
        then numvp_from fuel p (add_uint a pgsize) limit (count + 1) m
        else (walkpgdir p.pgdir a false m >>= λ (pte, m₁).
            numvp_from fuel p (add_uint a pgsize) limit (count + one_if (is_mapped pte m₁)) m₁))
    else ok count

unfoldable pub vm_numvp : Proc → Kmem → Outcome ℕ
unfolding numvp_from
vm_numvp p m = if p.pgdir == 0 then ok 0 else numvp_from max_pages p 0 (pg_round_up p.sz) 0 m

-- the loop of `vm_getptsize` over the directory's entries from `i` on
unfoldable pub getptsize_from : ℕ → ℕ → ℕ → ℕ → Kmem → ℕ
getptsize_from zero pgdir i pages m = pages
getptsize_from (suc n) pgdir i pages m =
    getptsize_from n pgdir (i + 1)
      (pages + one_if (has_flag (load (slot (frame_of pgdir) i) m) pte_p)) m

unfoldable pub vm_getptsize : Proc → Kmem → ℕ
unfolding getptsize_from
vm_getptsize p m = if p.pgdir == 0 then 0 else getptsize_from (pdx kernbase) p.pgdir 0 1 m

-- `none` is the return value -1.
abbrev pub ref_of : Option Slot → Kmem → Outcome (Option ℕ)
ref_of none m = ok none
ref_of (some s) m =
    if not (has_flag (load s m) pte_p) || not (has_flag (load s m) pte_u)
    then ok none
    else kref_get (pte_addr (load s m)) m >>= λ n. ok (some n)

unfoldable pub vm_pageref : ℕ → ℕ → Kmem → Outcome (Option ℕ)
vm_pageref pgdir va m = walkpgdir pgdir (pg_round_down va) false m >>= λ (pte, m₁). ref_of pte m₁

-- `walkpgdir` without allocation ends, and leaves memory alone.
pub looked_up : ℕ → ℕ → Kmem → Option Slot
looked_up pgdir va m =
    if has_flag (load (pde_slot pgdir va) m) pte_p
    then some (pte_slot (load (pde_slot pgdir va) m) va)
    else none

pub walkpgdir-looked_up :
    (pgdir va : ℕ) (m : Kmem) → walkpgdir pgdir va false m ≡ ok (looked_up pgdir va m, m)
unfolding walkpgdir looked_up
walkpgdir-looked_up pgdir va m = elim (Bool-cases (has_flag (load (pde_slot pgdir va) m) pte_p)) [
  | inl there ↦ rw there
  | inr absent ↦ rw absent
]

abbrev pub page_mapped : ℕ → ℕ → Kmem → Bool
page_mapped pgdir a m = is_mapped (looked_up pgdir a m) m

module _ (fuel a limit count : ℕ) (p : Proc) (m : Kmem) where
  numpp_from-next :
      a < limit
      → numpp_from (suc fuel) p.pgdir a limit count m
        ≡ numpp_from fuel p.pgdir
            (add_uint a pgsize)
            limit
            (count + one_if (page_mapped p.pgdir a m))
            m
  unfolding numpp_from
  numpp_from-next h =
      let t = lt→ltb a limit h in let w = walkpgdir-looked_up p.pgdir a m in rw (t, w)

  numvp_from-next :
      a < limit
      → numvp_from (suc fuel) p a limit count m
        ≡ numvp_from fuel p
            (add_uint a pgsize)
            limit
            (count + one_if (in_region (vma_find p a) || page_mapped p.pgdir a m))
            m
  unfolding numvp_from
  numvp_from-next h =
      let t = lt→ltb a limit h in
      let w = walkpgdir-looked_up p.pgdir a m in
      elim (Bool-cases (in_region (vma_find p a))) [ inl r ↦ rw (t, r) | inr r ↦ rw (t, r, w) ]

  counts_end :
      limit ≤ a
      → (numpp_from (suc fuel) p.pgdir a limit count m ≡ ok count)
        × (numvp_from (suc fuel) p a limit count m ≡ ok count)
  unfolding numpp_from numvp_from
  counts_end h = let t : ltb a limit ≡ false = ground (arith, h) in (rw t, rw t)

-- Both loops end after as many rounds as there are pages, and the count of mapped pages grows by no more
-- than that of pages in regions or mapped, which grows by one a round at most.
counts_from :
    (fuel a limit n k : ℕ) (p : Proc) (m : Kmem)
    → a % pgsize ≡ 0
    → limit % pgsize ≡ 0
    → limit ≤ kernbase
    → a ≤ limit
    → limit < a + pgsize * fuel
    → n ≤ k
    → pgsize * k ≤ a
    → (pp : ℕ) × (vp : ℕ) × (numpp_from fuel p.pgdir a limit n m ≡ ok pp)
      × (numvp_from fuel p a limit k m ≡ ok vp)
      × (pp ≤ vp)
      × (pgsize * vp ≤ limit)
counts_from zero a limit n k p m aligned whole low le enough nk kb =
    absurd (omega (arith, le, enough))
counts_from (suc fuel) a limit n k p m aligned whole low le enough nk kb =
    elim (Bool-cases (ltb a limit)) [
      | inr past ↦
          let end : limit ≤ a = ground arith in
          (
            n,
            k,
            (counts_end fuel a limit n p m end).0,
            (counts_end fuel a limit k p m end).1,
            nk,
            omega (arith, kb, le),
          )
      | inl there ↦
          let h : a < limit = ground arith in
          let b = page_mapped p.pgdir a m in
          let c = in_region (vma_find p a) in
          let next : add_uint a pgsize ≡ a + pgsize = omega (arith, h, low) in
          let more : n + one_if b ≤ k + one_if (c || b) = ones n k b c nk in
          let most : one_if (c || b) ≤ 1 = at_most_one (c || b) in
          let (pp, vp, e, e', l, t) =
            counts_from fuel (a + pgsize) limit (n + one_if b) (k + one_if (c || b)) p m
              (omega (arith, aligned)) whole low (omega (arith, h, aligned, whole))
              (omega (arith, enough)) more (omega (arith, kb, most)) in
          (
            pp,
            vp,
            numpp_from-next fuel a limit n p m h
                ∙ ap (λ x. numpp_from fuel p.pgdir x limit (n + one_if b) m) next
                ∙ e,
            numvp_from-next fuel a limit k p m h
                ∙ ap (λ x. numvp_from fuel p x limit (k + one_if (c || b)) m) next
                ∙ e',
            l,
            t,
          )
    ]
  where
    at_most_one : (b : Bool) → one_if b ≤ 1
    at_most_one true = omega arith
    at_most_one false = omega arith

    ones : (n k : ℕ) (b c : Bool) → n ≤ k → n + one_if b ≤ k + one_if (c || b)
    ones n k true true h = omega (arith, h)
    ones n k true false h = omega (arith, h)
    ones n k false true h = omega (arith, h)
    ones n k false false h = omega (arith, h)

-- For a process below the kernel both counts end; a process has no more pages in memory than pages, and no
-- more pages than its rounded size has.
pub vm_numpp-vm_numvp :
    (p : Proc) (m : Kmem)
    → p.sz ≤ kernbase
    → (pp : ℕ) × (vp : ℕ) × (vm_numpp p m ≡ ok pp)
      × (vm_numvp p m ≡ ok vp)
      × (pp ≤ vp)
      × (pgsize * vp ≤ pg_round_up p.sz)
unfolding vm_numpp vm_numvp
vm_numpp-vm_numvp p m low = elim (Bool-cases (p.pgdir == 0)) [
  | inl null ↦ (
    0,
    0,
    taken_then (p.pgdir == 0) (ok 0) (numpp_from max_pages p.pgdir 0 (pg_round_up p.sz) 0 m) null,
    taken_then (p.pgdir == 0) (ok 0) (numvp_from max_pages p 0 (pg_round_up p.sz) 0 m) null,
    omega arith,
    omega arith,
  )
  | inr there ↦
      let (pp, vp, e, e', l, t) =
        counts_from max_pages 0 (pg_round_up p.sz) 0 0 p m refl (omega arith) (omega (arith, low))
          (omega arith) (omega (arith, low)) (omega arith) (omega arith) in
      (
        pp,
        vp,
        taken_else (p.pgdir == 0) (ok 0) (numpp_from max_pages p.pgdir 0 (pg_round_up p.sz) 0 m)
              there
            ∙ e,
        taken_else (p.pgdir == 0) (ok 0) (numvp_from max_pages p 0 (pg_round_up p.sz) 0 m) there
            ∙ e',
        l,
        t,
      )
]
