-- ===== src/Mmap/Shrink.antt =====
-- What `growproc` of proc.c does to the layout of the mapped regions: growing keeps it, and shrinking may
-- cut a region off.
use mathlib.Core.Path.{subst}
use cs330_operating_systems.Base.{
  taken_then, taken_else, ℕ, zero, suc, ◌+◌, ◌^◌, ◌≤◌, ◌<◌, ◌≡◌, ◌≢◌, refl, sym, ◌∙◌, ap, inl, inr,
  arith, Bool, true, false, ltb, leb, ◌==◌, if◌then◌else◌, Bool-cases, Outcome, ok, ◌>>=◌,
  >>=-eq-ok, some, get_elem?, List, [], ◌∷◌, All,
}
use cs330_operating_systems.Kalloc.{Kmem, kernbase, add_uint, pg_round_up}
use cs330_operating_systems.Vm.{max_pages}
use cs330_operating_systems.Vm.Space.{allocuvm, deallocuvm, dealloc_from, growproc, grown}
use cs330_operating_systems.Proc.{Vma, Proc}
use cs330_operating_systems.Mmap.Layout.{IsPlaced, IsPlaced-grow, IsLayout}
use cs330_operating_systems.Mmap.Grow.{allocuvm_lem, first_ok}

third_ok :
    (p p' : Proc) (m m' : Kmem) (b b' : Bool)
    → ◌≡◌ {A = Outcome (Bool × Proc × Kmem)} (ok (b, p, m)) (ok (b', p', m'))
    → (b ≡ b') × (p ≡ p')
third_ok p p' m m' b b' e = (cc, cc)

-- the end of `growproc` when it returns 0
grown_lem :
    (p p' : Proc) (v : ℕ × Kmem) (m' : Kmem)
    → grown p v ≡ ok (true, p', m')
    → (v.0 ≢ 0) × (record p { sz = v.0 } ≡ p')
grown_lem p p' (n, m) m' e =
    let failed : Outcome (Bool × Proc × Kmem) = ok (false, p, m) in
    let fine : Outcome (Bool × Proc × Kmem) = ok (true, record p { sz = n }, m) in
    elim (Bool-cases (n == 0)) [
      | inl z ↦
          let q = (third_ok p p' m m' false true (sym (taken_then (n == 0) failed fine z) ∙ e)).0 in
          absurd (cc)
      | inr n_pos ↦ (
        ground arith,
        (third_ok (record p { sz = n }) p' m m' true true
            (sym (taken_else (n == 0) failed fine n_pos) ∙ e)).1,
      )
    ]

resized-IsLayout :
    (p : Proc) (n : ℕ) → IsLayout p → p.sz ≤ n → n ≤ kernbase → IsLayout (record p { sz = n })
resized-IsLayout p n l le top = record {
  placed = IsPlaced-grow le p.vmas l.placed;
  apart = l.apart;
  top = top;
}

growproc-zero : (p : Proc) (m : Kmem) → growproc 0 p m ≡ ok (true, p, m)
unfolding growproc
growproc-zero p m = refl

growproc-alloc :
    (n : ℕ) (p : Proc) (m : Kmem)
    → 0 < n
    → n < 2 ^ 31
    → growproc n p m ≡ (allocuvm p.pgdir p.sz (add_uint p.sz n) m >>= grown p)
unfolding growproc
growproc-alloc n p m pos small =
    let r = allocuvm p.pgdir p.sz (add_uint p.sz n) m >>= grown p in
    let d = deallocuvm p.pgdir p.sz (add_uint p.sz n) m >>= grown p in
    taken_else (n == 0) (ok (true, p, m)) (if ltb n (2 ^ 31) then r else d) (ground (arith, pos))
    ∙ taken_then (ltb n (2 ^ 31)) r d (ground (arith, small))

growproc-dealloc :
    (n : ℕ) (p : Proc) (m : Kmem)
    → 2 ^ 31 ≤ n
    → growproc n p m ≡ (deallocuvm p.pgdir p.sz (add_uint p.sz n) m >>= grown p)
unfolding growproc
growproc-dealloc n p m big =
    let r = allocuvm p.pgdir p.sz (add_uint p.sz n) m >>= grown p in
    let d = deallocuvm p.pgdir p.sz (add_uint p.sz n) m >>= grown p in
    taken_else (n == 0) (ok (true, p, m)) (if ltb n (2 ^ 31) then r else d) (ground (arith, big))
    ∙ taken_else (ltb n (2 ^ 31)) r d (ground (arith, big))

-- When `growproc` by a count that is not negative returns 0, the regions are placed as before and lie
-- below the new size, which is not below the old one and not in the kernel.
pub growproc-IsLayout :
    (n : ℕ) (p p' : Proc) (m m' : Kmem)
    → n < 2 ^ 31
    → IsLayout p
    → growproc n p m ≡ ok (true, p', m')
    → IsLayout p' × (p'.vmas ≡ p.vmas) × (p.sz ≤ p'.sz)
growproc-IsLayout n p p' m m' small l run = elim (Bool-cases (n == 0)) [
  | inl z ↦
      let e : n ≡ 0 = ground arith in
      let q =
        (third_ok p p' m m' true true
          (sym (growproc-zero p m) ∙ ap (λ x. growproc x p m) (sym e) ∙ run)).1 in
      subst (λ x. IsLayout x × (x.vmas ≡ p.vmas) × (p.sz ≤ x.sz)) q (l, refl, omega arith)
  | inr pos ↦
      let (v, a, g) =
        >>=-eq-ok (allocuvm p.pgdir p.sz (add_uint p.sz n) m) (grown p)
          (sym (growproc-alloc n p m (ground arith) small) ∙ run) in
      let (nonzero, q) = grown_lem p p' v m' g in
      subst (λ x. IsLayout x × (x.vmas ≡ p.vmas) × (p.sz ≤ x.sz)) q
        (elim (allocuvm_lem p.pgdir p.sz (add_uint p.sz n) v.0 m v.1 a) [
          | inl z ↦ absurd (nonzero z)
          | inr (le, why) ↦ (resized-IsLayout p v.0 l le (omega (arith, why, l.top)), refl, le)
        ])
]

deallocuvm-newsz :
    (pgdir oldsz newsz r : ℕ) (m m' : Kmem)
    → newsz < oldsz
    → deallocuvm pgdir oldsz newsz m ≡ ok (r, m')
    → newsz ≡ r
unfolding deallocuvm
deallocuvm-newsz pgdir oldsz newsz r m m' less e =
    let kept : Outcome (ℕ × Kmem) = ok (oldsz, m) in
    let loop = dealloc_from max_pages pgdir (pg_round_up newsz) oldsz m in
    let rest : Outcome (ℕ × Kmem) = loop >>= λ m₁. ok (newsz, m₁) in
    let (m₁, l, g) =
      >>=-eq-ok loop (λ m₁. ok (newsz, m₁))
        (sym (taken_else (leb oldsz newsz) kept rest (ground (arith, less))) ∙ e) in
    first_ok newsz r m₁ m' g

-- A region in use lies below the size.
placed_at :
    (sz i : ℕ) (v : Vma) (vs : List Vma)
    → All (IsPlaced sz) vs
    → get_elem? vs i ≡ some v
    → v.used ≡ true
    → v.start + v.length ≤ sz
placed_at sz i v [] h e u = absurd (cc)
placed_at sz zero v (w ∷ vs) h e u =
    let s : w ≡ v = cc in
    subst (λ x. x.start + x.length ≤ sz) s (h.0.below (subst (λ x. x.used ≡ true) (sym s) u))
placed_at sz (suc i) v (w ∷ vs) h e u = placed_at sz i v vs h.1 e u

-- When `growproc` by a negative count returns 0 and the new size is below the end of a region in use, the
-- region stays in use, and the layout that `sys_mmap` relies on is lost.
pub growproc_cuts :
    (n i : ℕ) (v : Vma) (p p' : Proc) (m m' : Kmem)
    → 2 ^ 31 ≤ n
    → n < 2 ^ 32
    → 2 ^ 32 ≤ p.sz + n
    → p.sz ≤ kernbase
    → get_elem? p.vmas i ≡ some v
    → v.used ≡ true
    → p.sz + n < 2 ^ 32 + (v.start + v.length)
    → growproc n p m ≡ ok (true, p', m')
    → (get_elem? p'.vmas i ≡ some v) × (p'.sz < v.start + v.length) × (IsLayout p' → ⊥)
growproc_cuts n i v p p' m m' big word enough low at used cut run =
    let (r, d, g) =
      >>=-eq-ok (deallocuvm p.pgdir p.sz (add_uint p.sz n) m) (grown p)
        (sym (growproc-dealloc n p m big) ∙ run) in
    let (nonzero, q) = grown_lem p p' r m' g in
    let less : add_uint p.sz n < p.sz = omega (arith, word, enough, low) in
    let e = deallocuvm-newsz p.pgdir p.sz (add_uint p.sz n) r.0 m r.1 less d in
    let below : r.0 < v.start + v.length = omega (arith, e, cut, enough, low, word) in
    subst (λ x. (get_elem? x.vmas i ≡ some v) × (x.sz < v.start + v.length) × (IsLayout x → ⊥)) q
      (at, below, λ l. omega (arith, placed_at r.0 i v p.vmas l.placed at used, below))
