-- ===== src/Kalloc/Boot.antt =====
-- `freerange` at boot: every whole page of the range becomes a free frame.
use mathlib.Core.Path.{subst, sym}
use mathlib.Core.List.{append_assoc}
use cs330_operating_systems.Base.{
  ℕ, zero, suc, ◌+◌, ◌^◌, ◌≤◌, ◌<◌, ◌≡◌, refl, ◌∙◌, true, false, List, [], ◌∷◌, ◌++◌, arith, ◌==◌,
  leb, if◌then◌else◌, update, has, ok,
}
use cs330_operating_systems.Kalloc.{
  Kmem, pgsize, frame_of, kfree, free_pages, freerange, pg_round_up,
}
use cs330_operating_systems.Kalloc.Chain.{frames, page_of, IsPool, unowned-update}
use cs330_operating_systems.Kalloc.Counts.{Pool, Refines, kfree-drop_ref}

-- the frames `f, f + 1, … , f + n - 1`, the last one first
abbrev pub down_from : ℕ → ℕ → List ℕ
down_from f zero = []
down_from f (suc n) = down_from (f + 1) n ++ f ∷ []

-- one round of the loop, on a frame that is not free yet
add_page :
    {m : Kmem} {p : Pool} (f : ℕ)
    → Refines m p
    → f < frames
    → m.kernel_end ≤ page_of f
    → has f p.free ≡ false
    → (m' : Kmem) × (kfree
          (page_of f)
          (record m { refcnt = update m.refcnt (frame_of (page_of f)) 1 })
        ≡ ok m')
      × Refines m' (record { count = update p.count f 0; free = f ∷ p.free })
      × (m'.kernel_end ≡ m.kernel_end)
add_page {m} {p} f r lt above new =
    let q : Pool = record { count = update p.count f 1; free = p.free } in
    let (m', run, r', _, e) = kfree-drop_ref {p = q} f marked lt above (ground arith) in
    let freed : (update p.count f 1 f == 1) ≡ true = ground arith in
    (
      m',
      run,
      record {
        pool = subst (λ b. IsPool m' (if b then f ∷ p.free else p.free)) freed r'.pool;
        counts = λ g. ground (arith, r'.counts g);
      },
      e,
    )
  where
    here : frame_of (page_of f) ≡ f
    here = omega arith

    marked :
        Refines
          (record m { refcnt = update m.refcnt (frame_of (page_of f)) 1 })
          (record { count = update p.count f 1; free = p.free })
    marked = record {
      pool = record {
        chain = r.pool.chain;
        unowned = rw here (unowned-update m.refcnt f 1 p.free new r.pool.unowned);
        above = r.pool.above;
        in_ram = r.pool.in_ram;
        distinct = r.pool.distinct;
        end_above = r.pool.end_above;
      };
      counts = λ g. ground (arith, r.counts g, here);
    }

free_pages_lem :
    (fuel f n vend : ℕ) {m : Kmem} {p : Pool}
    → Refines m p
    → n < fuel
    → page_of (f + n) ≤ vend
    → vend < page_of (f + n) + pgsize
    → f + n ≤ frames
    → m.kernel_end ≤ page_of f
    → ((g : ℕ) → f ≤ g → g < f + n → has g p.free ≡ false)
    → (m' : Kmem) × (free_pages fuel (page_of f) vend m ≡ ok m')
      × ((p' : Pool) × Refines m' p' × (p'.free ≡ down_from f n ++ p.free))
unfolding free_pages
free_pages_lem zero f n vend r h below over fits above new = absurd (omega arith)
free_pages_lem (suc fuel) f zero vend {m} {p} r h below over fits above new =
    let stop : leb (page_of f + pgsize) vend ≡ false = ground arith in (m, rw stop, (p, r, refl))
free_pages_lem (suc fuel) f (suc n) vend {m} {p} r h below over fits above new =
    let go_on : leb (page_of f + pgsize) vend ≡ true = ground arith in
    let (m₁, run₁, r₁, e) = add_page f r (omega arith) above (new f (omega arith) (omega arith)) in
    let (m₂, run₂, (p₂, r₂, listed)) =
      free_pages_lem fuel (f + 1) n vend r₁ (omega arith) (omega arith) (omega arith) (omega arith)
        (omega (arith, e)) (λ g a b. ground (arith, new g)) in
    let next : page_of f + pgsize ≡ page_of (f + 1) = omega arith in
    (
      m₂,
      rw (go_on, run₁, next) run₂,
      (p₂, r₂, listed ∙ sym (append_assoc (down_from (f + 1) n) (f ∷ []) p.free)),
    )

-- `freerange` puts every whole page between its bounds in front of the free list, each with no
-- owner, when no such page is free already and all lie in the memory above the kernel.
pub freerange-down_from :
    (f n vstart vend : ℕ) {m : Kmem} {p : Pool}
    → Refines m p
    → pg_round_up vstart ≡ page_of f
    → page_of (f + n) ≤ vend
    → vend < page_of (f + n) + pgsize
    → f + n ≤ frames
    → m.kernel_end ≤ page_of f
    → ((g : ℕ) → f ≤ g → g < f + n → has g p.free ≡ false)
    → (m' : Kmem) × (freerange vstart vend m ≡ ok m')
      × ((p' : Pool) × Refines m' p' × (p'.free ≡ down_from f n ++ p.free))
unfolding freerange
freerange-down_from f n vstart vend r e below over fits above new =
    rw e (free_pages_lem (2 ^ 20) f n vend r (omega arith) below over fits above new)
