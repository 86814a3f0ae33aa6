-- ===== src/Vm/Cow.antt =====
-- `cow_fault`: a write to a shared page gets the process a page of its own, with the same contents.
use mathlib.Core.Path.{subst, sym, fun_ext, ap}
use cs330_operating_systems.Base.{
  ℕ, ◌+◌, ◌*◌, ◌≤◌, ◌<◌, ◌≡◌, refl, ◌∙◌, ◌≢◌, inr, true, false, arith, ◌==◌, ltb, if◌then◌else◌,
  update, ok, ◌>>=◌,
}
use cs330_operating_systems.Kalloc.{Kmem, pgsize, p2v, v2p, frame_of, kalloc, kfree, kref_get}
use cs330_operating_systems.Kalloc.Chain.{frames, page_of}
use cs330_operating_systems.Kalloc.Counts.{Pool, Refines, drop_ref, kfree-drop_ref}
use cs330_operating_systems.Kalloc.Writes.{Refines-write}
use cs330_operating_systems.Vm.{Slot, load, store, resolved, copy_page, cow_copy, cow_entry}
use cs330_operating_systems.Vm.Pte.{
  pte_p, pte_cow, has_flag, pte_addr, pte_flags, with_flags, private_flags,
}

-- The entry at `s` maps frame `f` copy-on-write.
pub record IsCow (m : Kmem) (p : Pool) (s : Slot) (f : ℕ) : Type 0 where
  pub pool : Refines m p
  pub table : p.count s.frame ≢ 0
  pub present : has_flag (load s m) pte_p ≡ true
  pub cow : has_flag (load s m) pte_cow ≡ true
  pub maps : pte_addr (load s m) ≡ f * pgsize
  pub in_ram : f < frames
  pub above : m.kernel_end ≤ page_of f
  pub owned : p.count f ≢ 0
  pub apart : s.frame ≢ f

pub kref_get_lem : (f : ℕ) (m : Kmem) → f < frames → kref_get (f * pgsize) m ≡ ok (m.refcnt f)
unfolding kref_get
kref_get_lem f m h = ground arith

-- Writing an entry of a page table that has an owner.
pub store-Refines :
    {m : Kmem} {p : Pool} (s : Slot) (w : ℕ)
    → Refines m p
    → p.count s.frame ≢ 0
    → Refines (store s w m) p
store-Refines {m} s w r h =
    Refines-write (update m.ram s.frame (update (m.ram s.frame) s.index w)) r (λ g e. ground arith)

pub load-store : (s : Slot) (w : ℕ) (m : Kmem) → load s (store s w m) ≡ w
load-store s w m = ground arith

module _ {m : Kmem} {p : Pool} {s : Slot} {f : ℕ} (c : IsCow m p s f) where
  pub cow_entry-last :
      p.count f ≡ 1
      → cow_entry s m
        ≡ ok (resolved, store s (with_flags (f * pgsize) (private_flags (pte_flags (load s m)))) m)
  unfolding cow_entry
  cow_entry-last one =
      let refs = kref_get_lem f m c.in_ram in
      let r : m.refcnt f ≡ 1 = c.pool.counts f ∙ one in rw (c.present, c.cow, c.maps, refs, r)

  pub cow_entry-shared :
      2 ≤ p.count f
      → cow_entry s m
        ≡ (kalloc m >>= λ (mem, m₁). cow_copy s (f * pgsize) (pte_flags (load s m)) mem m₁)
  unfolding cow_entry
  cow_entry-shared many =
      let refs = kref_get_lem f m c.in_ram in
      let l : ltb (m.refcnt f) 1 ≡ false = ground (arith, c.pool.counts f) in
      let n : (m.refcnt f == 1) ≡ false = ground (arith, c.pool.counts f) in
      rw (c.present, c.cow, c.maps, refs, l, n)

-- After the fault the entry at `s` maps frame `g`, which has what frame `f` had and no other
-- owner; the entry is writable and no longer copy-on-write; every other frame and entry is as it
-- was, and frame `f` has lost this owner if `g` is another frame.
pub record Private (m m' : Kmem) (s : Slot) (f g : ℕ) : Type 0 where
  pub entry : load s m' ≡ with_flags (g * pgsize) (private_flags (pte_flags (load s m)))
  pub contents : m'.ram g ≡ m.ram f
  pub alone : m'.refcnt g ≡ 1
  pub frames_kept : (h : ℕ) → h ≢ g → h ≢ s.frame → m'.ram h ≡ m.ram h
  pub entries_kept : (i : ℕ) → i ≢ s.index → m'.ram s.frame i ≡ m.ram s.frame i
  pub counts_kept : (h : ℕ) → h ≢ f → h ≢ g → m'.refcnt h ≡ m.refcnt h
  pub dropped : g ≢ f → m'.refcnt f + 1 ≡ m.refcnt f
  pub in_ram : g < frames

kernel_address : (f : ℕ) → f < frames → p2v (f * pgsize) ≡ page_of f
kernel_address f h = omega arith

frame_of-page_of : (f : ℕ) → f < frames → frame_of (page_of f) ≡ f
frame_of-page_of f h = omega arith

v2p-page_of : (f : ℕ) → f < frames → v2p (page_of f) ≡ f * pgsize
v2p-page_of f h = omega arith

module _ {m : Kmem} {p : Pool} {s : Slot} {f : ℕ} (c : IsCow m p s f) where
  pub last-Private :
      p.count f ≡ 1
      → Private m (store s (with_flags (f * pgsize) (private_flags (pte_flags (load s m)))) m) s f f
  last-Private one = record {
    entry = load-store s _ m;
    contents = fun_ext λ i. ground (arith, c.apart);
    alone = c.pool.counts f ∙ one;
    frames_kept = λ h a b. ground arith;
    entries_kept = λ i a. ground arith;
    counts_kept = λ h a b. refl;
    dropped = λ a. absurd (a refl);
    in_ram = c.in_ram;
  }

  -- The frame `g` that `kalloc` returned is neither the shared frame nor the page table.
  module _ {m₁ : Kmem} {p₁ : Pool} {g : ℕ} (lt : g < frames) (gf : g ≢ f) (gs : g ≢ s.frame)
      (r : Refines m₁ p₁) (ram : m₁.ram ≡ m.ram) (kend : m₁.kernel_end ≡ m.kernel_end)
      (counts : (h : ℕ) → p₁.count h ≡ (if h == g then 1 else p.count h)) where
    new_entry : ℕ
    new_entry = with_flags (v2p (page_of g)) (private_flags (pte_flags (load s m)))

    copied : Kmem
    copied = store s new_entry (copy_page (page_of g) (p2v (f * pgsize)) m₁)

    copied-ram :
        (h i : ℕ)
        → copied.ram h i ≡ (
            if h == s.frame
            then (if i == s.index then new_entry else m.ram h i)
            else if h == g
            then m.ram f i
            else m.ram h i)
    unfolding copied
    copied-ram h i = ground (
      arith,
      frame_of-page_of g lt,
      kernel_address f c.in_ram,
      frame_of-page_of f c.in_ram,
      ap (λ k. k h i) ram,
      ap (λ k. k f i) ram,
    )

    copied-Refines : Refines copied p₁
    unfolding copied
    copied-Refines =
        Refines-write copied.ram r
          λ h e. ground (arith, copied-ram h 0, counts h, ap (λ k. k h 0) ram, c.table)

    cow_copy-kfree :
        {m₄ : Kmem}
        → kfree (p2v (f * pgsize)) copied ≡ ok m₄
        → cow_copy s (f * pgsize) (pte_flags (load s m)) (page_of g) m₁ ≡ ok (resolved, m₄)
    unfolding cow_copy copied new_entry
    cow_copy-kfree run = let nz : (page_of g == 0) ≡ false = ground arith in rw (nz, run)

    copied-Private :
        {m₄ : Kmem}
        → Refines m₄ (drop_ref f p₁)
        → ((h i : ℕ) → m₄.ram h i ≡ copied.ram h i)
        → Private m m₄ s f g
    copied-Private {m₄} q same = record {
      entry = ground (arith, same s.frame s.index, copied-ram s.frame s.index, new_entry_lem);
      contents = fun_ext λ i. ground (arith, same g i, copied-ram g i);
      alone = ground (arith, q.counts g, counts g);
      frames_kept = λ h a b. fun_ext λ i. ground (arith, same h i, copied-ram h i);
      entries_kept = λ i a. ground (arith, same s.frame i, copied-ram s.frame i);
      counts_kept = λ h a b. ground (arith, q.counts h, counts h, c.pool.counts h);
      dropped = λ a. ground (arith, q.counts f, counts f, c.pool.counts f, c.owned);
      in_ram = lt;
    }
      where
        new_entry_lem : new_entry ≡ with_flags (g * pgsize) (private_flags (pte_flags (load s m)))
        new_entry_lem =
            unfold new_entry in
            ap (λ a. with_flags a (private_flags (pte_flags (load s m)))) (v2p-page_of g lt)

    pub copy-Private :
        2 ≤ p.count f
        → (m' : Kmem) × (p' : Pool) × (cow_copy s (f * pgsize) (pte_flags (load s m)) (page_of g) m₁
            ≡ ok (resolved, m'))
          × Refines m' p'
          × Private m m' s f g
    copy-Private many =
        let (m', run, q, same, _) =
          kfree-drop_ref {p = p₁} f copied-Refines c.in_ram
            (unfold copied in ground (arith, kend, c.above)) (ground (arith, counts f)) in
        (
          m',
          drop_ref f p₁,
          cow_copy-kfree
              (subst (λ v. kfree v copied ≡ ok m') (sym (kernel_address f c.in_ram)) run),
          q,
          copied-Private q (λ h i. ap (λ k. k i) (same h (inr (ground (arith, counts f))))),
        )
