-- ===== src/Vm/Copyout/Checks.antt =====
-- What `copyout` of vm.c refuses.
use cs330_operating_systems.Base.{
  ℕ, suc, ◌%◌, ◌≡◌, ◌<◌, ◌∙◌, ap, arith, true, false, ◌==◌, Bool-cases, ok, Option, none, some,
  List, ◌∷◌, length, take, inl, inr,
}
use cs330_operating_systems.Kalloc.{Kmem, pg_round_down, pgsize}
use cs330_operating_systems.Vm.{Slot}
use cs330_operating_systems.Vm.Space.Counts.{is_mapped, looked_up, walkpgdir-looked_up}
use cs330_operating_systems.Proc.{Vma, Proc}
use cs330_operating_systems.Mmap.{vma_find}
use cs330_operating_systems.Vm.Copyout.{
  region_of, may_write, bring_page, find_page, copy_page_out, room, copyout_from, copyout,
}

find_page-there :
    (v : Option Vma) (pgdir va0 : ℕ) (m : Kmem)
    → is_mapped (looked_up pgdir va0 m) m ≡ true
    → find_page v pgdir va0 m ≡ ok (looked_up pgdir va0 m, m)
unfolding find_page
find_page-there v pgdir va0 m h = let w = walkpgdir-looked_up pgdir va0 m in rw (w, h)

find_page-forbidden :
    (v : Vma) (pgdir va0 : ℕ) (m : Kmem)
    → is_mapped (looked_up pgdir va0 m) m ≡ false
    → may_write v ≡ false
    → find_page (some v) pgdir va0 m ≡ ok (none, m)
unfolding find_page bring_page
find_page-forbidden v pgdir va0 m h f = let w = walkpgdir-looked_up pgdir va0 m in rw (w, h, f)

copy_page_out-forbidden :
    (v : Vma) (pgdir va0 off : ℕ) (bs : List ℕ) (m : Kmem)
    → may_write v ≡ false
    → copy_page_out (some v) pgdir va0 off bs m ≡ ok (false, m)
unfolding copy_page_out
copy_page_out-forbidden v pgdir va0 off bs m f =
    elim (Bool-cases (is_mapped (looked_up pgdir va0 m) m)) [
      | inr absent ↦ let e = find_page-forbidden v pgdir va0 m absent f in rw e
      | inl there ↦
          let e = find_page-there (some v) pgdir va0 m there in go (looked_up pgdir va0 m) e
    ]
  where
    go :
        (o : Option Slot)
        → find_page (some v) pgdir va0 m ≡ ok (o, m)
        → copy_page_out (some v) pgdir va0 off bs m ≡ ok (false, m)
    go none e = unfold copy_page_out in rw e
    go (some s) e = unfold copy_page_out in rw (e, f)

copyout_from-false :
    (fuel : ℕ) (cur : Option Proc) (pgdir va : ℕ) (bs : List ℕ) (m m' : Kmem)
    → 0 < length bs
    → copy_page_out
        (region_of cur pgdir (pg_round_down va))
        pgdir
        (pg_round_down va)
        (va % pgsize)
        (take (room va bs) bs)
        m
      ≡ ok (false, m')
    → copyout_from (suc fuel) cur pgdir va bs m ≡ ok (false, m')
unfolding copyout_from
copyout_from-false fuel cur pgdir va bs m m' pos e =
    let z : (length bs == 0) ≡ false = ground (arith, pos) in rw (z, e)

-- `copyout` of at least one byte to a page of a region of the running process that may not be written
-- returns -1 and leaves memory alone, whether the page is there or not, and whatever its entry says.
pub copyout-read_only :
    (p : Proc) (v : Vma) (va b : ℕ) (bs : List ℕ) (m : Kmem)
    → vma_find p (pg_round_down va) ≡ some v
    → may_write v ≡ false
    → copyout (some p) p.pgdir va (b ∷ bs) m ≡ ok (false, m)
unfolding copyout
copyout-read_only p v va b bs m found f =
    let same : (p.pgdir == p.pgdir) ≡ true = ground arith in
    let r : region_of (some p) p.pgdir (pg_round_down va) ≡ some v = rw (same, found) in
    let off = va % pgsize in
    let cs = take (room va (b ∷ bs)) (b ∷ bs) in
    copyout_from-false (length bs) (some p) p.pgdir va (b ∷ bs) m m (omega arith) (
      ap (λ x. copy_page_out x p.pgdir (pg_round_down va) off cs m) r
      ∙ copy_page_out-forbidden v p.pgdir (pg_round_down va) off cs m f)
