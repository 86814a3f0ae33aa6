-- ===== src/Kalloc/Counts.antt =====
-- `kalloc`, `kfree` and `kref_inc` against a pool of frames with counts.
use mathlib.Core.Path.{fun_ext}
use cs330_operating_systems.Base.{
  ℕ, ◌+◌, ◌-◌, ◌*◌, ◌%◌, ◌≤◌, ◌<◌, ◌≡◌, refl, ◌∙◌, ◌≢◌, false, List, [], ◌∷◌, arith, ◌==◌, ltb,
  if◌then◌else◌, update, has, ok, panic, Option, none, some, inl, inr, ◌⊎◌, ◌↔◌, Bool-cases,
}
use cs330_operating_systems.Kalloc.{
  Kmem, pgsize, phystop, v2p, frame_of, fill_page, set_next, kalloc, kfree, kfree_locked, kref_inc,
}
use cs330_operating_systems.Kalloc.Chain.{
  frames, page_of, IsPool, IsChain-frame, owned-not_free, unowned-update,
}

-- The allocator's promise: counts of owners, and the free frames in the order of their reuse.
pub record Pool : Type 0 where
  pub count : ℕ → ℕ
  pub free : List ℕ

abbrev pub take_frame : List ℕ → Pool → Option ℕ × Pool
take_frame [] p = (none, p)
take_frame (f ∷ fs) p = (some f, record { count = update p.count f 1; free = fs })

abbrev pub alloc : Pool → Option ℕ × Pool
alloc p = take_frame p.free p

abbrev pub drop_ref : ℕ → Pool → Pool
drop_ref f p = record {
  count = update p.count f (p.count f - 1);
  free = if p.count f == 1 then f ∷ p.free else p.free;
}

abbrev pub add_ref : ℕ → Pool → Pool
add_ref f p = record p { count = update p.count f (p.count f + 1) }

abbrev pub address : Option ℕ → ℕ
address none = 0
address (some f) = page_of f

pub record Refines (m : Kmem) (p : Pool) : Type 0 where
  pub pool : IsPool m p.free
  pub counts : (f : ℕ) → m.refcnt f ≡ p.count f

pub kalloc_cases :
    (m : Kmem) (p : Pool) (fs : List ℕ)
    → p.free ≡ fs
    → IsPool m fs
    → ((f : ℕ) → m.refcnt f ≡ p.count f)
    → (m' : Kmem) × (kalloc m ≡ ok (address (take_frame fs p).0, m'))
      × Refines m' (take_frame fs p).1
      × (m'.ram ≡ m.ram)
      × (m'.kernel_end ≡ m.kernel_end)
unfolding kalloc
kalloc_cases m p [] e v c = (m, rw v.chain, record { pool = rw e v; counts = c }, refl, refl)
kalloc_cases m p (f ∷ fs) e v c = (
  record m { freelist = m.ram f 0; refcnt = update m.refcnt f 1 },
  ground (arith, v.chain.0, v.in_ram.0),
  record {
    pool = record {
      chain = v.chain.1;
      unowned = unowned-update m.refcnt f 1 fs v.distinct.0 v.unowned.1;
      above = v.above.1;
      in_ram = v.in_ram.1;
      distinct = v.distinct.1;
      end_above = v.end_above;
    };
    counts = λ g. ground (arith, c g);
  },
  refl,
  refl,
)

-- `kalloc` takes the frame that the pool takes, gives it one owner, and returns its address, or 0
-- when the pool is empty; it changes no page.
pub kalloc-alloc :
    {m : Kmem} {p : Pool}
    → Refines m p
    → (m' : Kmem) × (kalloc m ≡ ok (address (alloc p).0, m'))
      × Refines m' (alloc p).1
      × (m'.ram ≡ m.ram)
      × (m'.kernel_end ≡ m.kernel_end)
kalloc-alloc {m} {p} r = kalloc_cases m p p.free refl r.pool r.counts

frame_of-page_of : (f : ℕ) → f < frames → frame_of (page_of f) ≡ f
frame_of-page_of f h = omega arith

-- the state after one owner of frame `f` is gone
abbrev dropped : ℕ → Kmem → Kmem
dropped f m = record m { refcnt = update m.refcnt f (m.refcnt f - 1) }

-- and after the last one is
abbrev freed : ℕ → Kmem → Kmem
freed f m =
    record (set_next (page_of f) m.freelist (fill_page (page_of f) 0x01010101 (dropped f m))) {
      freelist = page_of f;
    }

module _ (f : ℕ) (m : Kmem) (lt : f < frames) (above : m.kernel_end ≤ page_of f) where
  kfree-locked : kfree (page_of f) m ≡ kfree_locked f (page_of f) m
  unfolding kfree
  kfree-locked = ground arith

  kfree-shared : 2 ≤ m.refcnt f → kfree (page_of f) m ≡ ok (dropped f m)
  unfolding kfree_locked
  kfree-shared h = kfree-locked ∙ ground arith

  kfree-last : m.refcnt f ≡ 1 → kfree (page_of f) m ≡ ok (freed f m)
  unfolding kfree_locked
  kfree-last h =
      let z : (m.refcnt f == 0) ≡ false = ground arith in
      let l : ltb 0 (update m.refcnt f (m.refcnt f - 1) f) ≡ false = ground arith in
      kfree-locked ∙ rw (z, l)

  freed-ram :
      (g i : ℕ)
      → (freed f m).ram g i
        ≡ (if g == f then (if i == 0 then m.freelist else 0x01010101) else m.ram g i)
  freed-ram g i = ground (arith, frame_of-page_of f lt)

  freed-head : (freed f m).ram f 0 ≡ m.freelist
  freed-head = ground (arith, freed-ram f 0)

  freed-IsPool : (fs : List ℕ) → IsPool m fs → m.refcnt f ≡ 1 → IsPool (freed f m) (f ∷ fs)
  freed-IsPool fs v e =
      let new : has f fs ≡ false = owned-not_free m.refcnt f fs v.unowned (ground arith) in
      record {
        chain = (
          refl,
          IsChain-frame m.ram (freed f m).ram ((freed f m).ram f 0) fs
              (λ g i. ground (arith, freed-ram g 0)) (rw freed-head v.chain),
        );
        unowned = (ground arith, unowned-update m.refcnt f (m.refcnt f - 1) fs new v.unowned);
        above = (above, v.above);
        in_ram = (lt, v.in_ram);
        distinct = (new, v.distinct);
        end_above = v.end_above;
      }

-- `kfree` of an owned frame drops one owner, and puts the frame in front of the free ones exactly
-- when that owner was the last; no page changes but that of a frame that becomes free.
pub kfree-drop_ref :
    {m : Kmem} {p : Pool} (f : ℕ)
    → Refines m p
    → f < frames
    → m.kernel_end ≤ page_of f
    → p.count f ≢ 0
    → (m' : Kmem) × (kfree (page_of f) m ≡ ok m')
      × Refines m' (drop_ref f p)
      × ((g : ℕ) → (g ≢ f) ⊎ (p.count f ≢ 1) → m'.ram g ≡ m.ram g)
      × (m'.kernel_end ≡ m.kernel_end)
kfree-drop_ref {m} {p} f r lt above owned = elim (Bool-cases (p.count f == 1)) [
  | inl last ↦
      let one : m.refcnt f ≡ 1 = ground (arith, r.counts f) in
      (
        freed f m,
        kfree-last f m lt above one,
        record {
          pool = rw last (freed-IsPool f m lt above p.free r.pool one);
          counts = λ g. ground (arith, r.counts g, r.counts f);
        },
        λ g h. fun_ext λ i. ground (arith, freed-ram f m lt above g i),
        refl,
      )
  | inr more ↦ (
    dropped f m,
    kfree-shared f m lt above (ground (arith, r.counts f)),
    record {
      pool = rw more (record {
        chain = r.pool.chain;
        unowned =
            unowned-update m.refcnt f (m.refcnt f - 1) p.free
              (owned-not_free m.refcnt f p.free r.pool.unowned (ground (arith, r.counts f)))
              r.pool.unowned;
        above = r.pool.above;
        in_ram = r.pool.in_ram;
        distinct = r.pool.distinct;
        end_above = r.pool.end_above;
      });
      counts = λ g. ground (arith, r.counts g, r.counts f);
    },
    λ g h. refl,
    refl,
  )
]

-- `kref_inc` of an owned frame adds one owner and changes no page.
pub kref_inc-add_ref :
    {m : Kmem} {p : Pool} (f : ℕ)
    → Refines m p
    → f < frames
    → p.count f ≢ 0
    → (m' : Kmem) × (kref_inc (f * pgsize) m ≡ ok m')
      × Refines m' (add_ref f p)
      × (m'.ram ≡ m.ram)
      × (m'.kernel_end ≡ m.kernel_end)
unfolding kref_inc
kref_inc-add_ref {m} {p} f r lt owned = (
  record m { refcnt = update m.refcnt f (m.refcnt f + 1) },
  ground (arith, r.counts f),
  record {
    pool = record {
      chain = r.pool.chain;
      unowned =
          unowned-update m.refcnt f (m.refcnt f + 1) p.free
            (owned-not_free m.refcnt f p.free r.pool.unowned (ground (arith, r.counts f)))
            r.pool.unowned;
      above = r.pool.above;
      in_ram = r.pool.in_ram;
      distinct = r.pool.distinct;
      end_above = r.pool.end_above;
    };
    counts = λ g. ground (arith, r.counts g, r.counts f);
  },
  refl,
  refl,
)

-- `kfree` panics exactly on an address that is no page above the kernel's end and below the top of
-- memory, and on a frame that no one owns.
pub kfree_panics :
    (v : ℕ) (m : Kmem)
    → (kfree v m ≡ panic)
      ↔ ((v % pgsize ≢ 0) ⊎ (v < m.kernel_end) ⊎ (phystop ≤ v2p v) ⊎ (m.refcnt (frame_of v) ≡ 0))
unfolding kfree kfree_locked
kfree_panics v m = (λ h. ground arith, λ h. ground arith)
