-- ===== src/Vm/Protect.antt =====
-- `vm_protect_range`: the entries of a range after a change of protection.
use mathlib.Core.Path.{sym, ap}
use cs330_operating_systems.Base.{
  ℕ, ◌+◌, ◌*◌, ◌≤◌, ◌<◌, ◌≡◌, refl, ◌∙◌, ◌≢◌, Bool, true, false, arith, ltb, if◌then◌else◌, ok,
}
use cs330_operating_systems.Kalloc.{Kmem, pgsize, frame_of}
use cs330_operating_systems.Kalloc.Chain.{frames}
use cs330_operating_systems.Vm.{Slot, load, pde_slot, pte_slot, prot_write, protect_entry}
use cs330_operating_systems.Vm.Cow.{kref_get_lem}
use cs330_operating_systems.Vm.Pte.{
  pte_p, pte_w, pte_cow, has_flag, set_flag, clear_flag, pte_addr, shared_flags, shared_flags_lem,
  SameEntry, shared_flags-SameEntry, set_w-SameEntry, clear_w-SameEntry, shared_flags_twice,
  set_w_lem, clear_w_lem, set_w_twice, clear_w_twice,
}

-- What an entry becomes: for a writable range, an entry that is copy-on-write, and a frame that
-- others own too.
abbrev pub protect_by : Bool → Bool → Bool → ℕ → ℕ
protect_by true true many w = shared_flags w
protect_by true false true w = shared_flags w
protect_by true false false w = set_flag w pte_w
protect_by false cow many w = clear_flag w pte_w

-- the same, when the frame has `refs` owners
pub protected : ℕ → ℕ → ℕ → ℕ
protected prot refs w = protect_by (has_flag prot prot_write) (has_flag w pte_cow) (ltb 1 refs) w

pub protected-SameEntry : (prot refs w : ℕ) → SameEntry w (protected prot refs w)
unfolding protected
protected-SameEntry prot refs w = go (has_flag prot prot_write) (has_flag w pte_cow) (ltb 1 refs)
  where
    go : (a b c : Bool) → SameEntry w (protect_by a b c w)
    go true true c = shared_flags-SameEntry w
    go true false true = shared_flags-SameEntry w
    go true false false = set_w-SameEntry w
    go false b c = clear_w-SameEntry w

-- An entry that was protected is writable only if the protection is, its frame has at most one
-- owner, and it was not copy-on-write before.
pub protected_writable :
    (prot refs w : ℕ)
    → has_flag (protected prot refs w) pte_w ≡ true
    → (has_flag prot prot_write ≡ true) × (refs ≤ 1) × (has_flag w pte_cow ≡ false)
unfolding protected
protected_writable prot refs w h =
    let (a, b, c) = go (has_flag prot prot_write) (has_flag w pte_cow) (ltb 1 refs) h in
    (a, ground arith, b)
  where
    go :
        (a b c : Bool)
        → has_flag (protect_by a b c w) pte_w ≡ true
        → (a ≡ true) × (b ≡ false) × (c ≡ false)
    go true true c h = absurd (cc (h, (shared_flags_lem w).0))
    go true false true h = absurd (cc (h, (shared_flags_lem w).0))
    go true false false h = (refl, refl, refl)
    go false b c h = absurd (cc (h, clear_w_lem w))

pub protected_twice :
    (prot refs w : ℕ) → protected prot refs (protected prot refs w) ≡ protected prot refs w
unfolding protected
protected_twice prot refs w = go (has_flag prot prot_write) (has_flag w pte_cow) (ltb 1 refs) refl
  where
    go :
        (a b c : Bool)
        → b ≡ has_flag w pte_cow
        → protect_by a (has_flag (protect_by a b c w) pte_cow) c (protect_by a b c w)
          ≡ protect_by a b c w
    go true true c e = rw (shared_flags_lem w).1 (shared_flags_twice w)
    go true false true e = rw (shared_flags_lem w).1 (shared_flags_twice w)
    go true false false e =
        let plain : has_flag (set_flag w pte_w) pte_cow ≡ false = (set_w_lem w).1 ∙ sym e in
        rw plain (set_w_twice w)
    go false b c e = clear_w_twice w

pub protect_entry_lem :
    (prot w f : ℕ) (m : Kmem)
    → pte_addr w ≡ f * pgsize
    → f < frames
    → protect_entry prot w m ≡ ok (protected prot (m.refcnt f) w)
unfolding protect_entry protected
protect_entry_lem prot w f m e lt =
    rw (e, kref_get_lem f m lt)
      (go (has_flag prot prot_write) (has_flag w pte_cow) (ltb 1 (m.refcnt f)))
  where
    go :
        (a b c : Bool)
        → (if a
            then if b
              then ok (shared_flags w)
              else ok (if c then shared_flags w else set_flag w pte_w)
            else ok (clear_flag w pte_w))
          ≡ ok (protect_by a b c w)
    go true true c = refl
    go true false true = refl
    go true false false = refl
    go false b c = refl

-- The pages of a range: `n` of them from `a` on, all below 2^32.
abbrev pub InRange : ℕ → ℕ → ℕ → Type 0
InRange a n b = (i : ℕ) × (i < n) × (b ≡ a + i * pgsize)

-- the entry for `va`, if its page table is there
abbrev pub entry_at : ℕ → ℕ → Kmem → Slot
entry_at pgdir va m = pte_slot (load (pde_slot pgdir va) m) va

-- Every page table of the directory lies outside the directory, and every present entry maps a
-- frame of the memory.
pub record IsTables (m : Kmem) (pgdir : ℕ) : Type 0 where
  pub apart :
      (va : ℕ)
      → has_flag (load (pde_slot pgdir va) m) pte_p ≡ true
      → (entry_at pgdir va m).frame ≢ frame_of pgdir
  pub maps :
      (va : ℕ)
      → has_flag (load (pde_slot pgdir va) m) pte_p ≡ true
      → has_flag (load (entry_at pgdir va m) m) pte_p ≡ true
      → (f : ℕ) × (f < frames) × (pte_addr (load (entry_at pgdir va m) m) ≡ f * pgsize)

-- The entry of a page in the memory that `vm_protect_range` leaves writable belongs to a writable
-- protection, its frame has at most one owner, and it was not copy-on-write before.
pub protect_entry-writable :
    (prot w f : ℕ) (m : Kmem) {w' : ℕ}
    → pte_addr w ≡ f * pgsize
    → f < frames
    → protect_entry prot w m ≡ ok w'
    → has_flag w' pte_w ≡ true
    → (has_flag prot prot_write ≡ true) × (m.refcnt f ≤ 1) × (has_flag w pte_cow ≡ false)
protect_entry-writable prot w f m {w'} e lt run writable =
    let same : protected prot (m.refcnt f) w ≡ w' = cc (protect_entry_lem prot w f m e lt, run) in
    protected_writable prot (m.refcnt f) w (ap (λ x. has_flag x pte_w) same ∙ writable)
