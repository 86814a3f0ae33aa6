-- ===== src/Mmap/Grow.antt =====
-- `growproc` of proc.c beside the mapped regions.
use cs330_operating_systems.Base.{
  taken_then, taken_else, ℕ, zero, suc, ◌≤◌, ◌<◌, ◌≡◌, refl, sym, ◌∙◌, ◌⊎◌, inl, inr, arith, Bool,
  true, false, ltb, leb, ◌==◌, lt→ltb, if◌then◌else◌, Bool-cases, Outcome, ok, panic, out_of_fuel,
  ◌>>=◌, >>=-eq-ok,
}
use cs330_operating_systems.Kalloc.{Kmem, kernbase, add_uint, pgsize, pg_round_up, kfree}
use cs330_operating_systems.Vm.{max_pages}
use cs330_operating_systems.Vm.Space.{
  alloc_page, alloc_from, undo_alloc, free_unmapped, allocuvm, deallocuvm,
}

pub first_ok :
    (x y : ℕ) (m m' : Kmem) → ◌≡◌ {A = Outcome (ℕ × Kmem)} (ok (x, m)) (ok (y, m')) → x ≡ y
first_ok x y m m' e = cc

free_unmapped_lem : (mem n r : ℕ) (m m' : Kmem) → free_unmapped mem (n, m) ≡ ok (r, m') → n ≡ r
free_unmapped_lem mem n r m m' e =
    let rest : Outcome (ℕ × Kmem) = kfree mem m >>= λ m₁. ok (n, m₁) in
    elim (Bool-cases (mem == 0)) [
      | inl null ↦ first_ok n r m m' (sym (taken_then (mem == 0) (ok (n, m)) rest null) ∙ e)
      | inr there ↦
          let (m₁, h, w) =
            >>=-eq-ok (kfree mem m) (λ m₁. ok (n, m₁))
              (sym (taken_else (mem == 0) (ok (n, m)) rest there) ∙ e) in
          first_ok n r m₁ m' w
    ]

undo_alloc_lem :
    (pgdir oldsz newsz n : ℕ) (m m' : Kmem) → undo_alloc pgdir oldsz newsz m ≡ ok (n, m') → 0 ≡ n
undo_alloc_lem pgdir oldsz newsz n m m' e =
    let (v, d, g) = >>=-eq-ok (deallocuvm pgdir newsz oldsz m) (λ (n, m₁). ok (0, m₁)) e in
    first_ok 0 n v.1 m' g

undone :
    (pgdir oldsz newsz mem r : ℕ) (m m' : Kmem)
    → (undo_alloc pgdir oldsz newsz m >>= free_unmapped mem) ≡ ok (r, m')
    → r ≡ 0
undone pgdir oldsz newsz mem r m m' e =
    let (v, u, f) = >>=-eq-ok (undo_alloc pgdir oldsz newsz m) (free_unmapped mem) e in
    sym (undo_alloc_lem pgdir oldsz newsz v.0 m v.1 u ∙ free_unmapped_lem mem v.0 r v.1 m' f)

-- the rest of a round of `allocuvm`, on the result of `alloc_page`
abbrev round_end : ℕ → ℕ → ℕ → ℕ → ℕ → Outcome (Bool × ℕ × Kmem) → Outcome (ℕ × Kmem)
round_end fuel pgdir a oldsz newsz page = page >>= λ (done, mem, m₁). elim done [
  | true ↦ alloc_from fuel pgdir (add_uint a pgsize) oldsz newsz m₁
  | false ↦ undo_alloc pgdir oldsz newsz m₁ >>= free_unmapped mem
]

alloc_from-round :
    (fuel pgdir a oldsz newsz : ℕ) (m : Kmem) (page : Outcome (Bool × ℕ × Kmem))
    → a < newsz
    → alloc_page pgdir a m ≡ page
    → alloc_from (suc fuel) pgdir a oldsz newsz m ≡ round_end fuel pgdir a oldsz newsz page
unfolding alloc_from
alloc_from-round fuel pgdir a oldsz newsz m page h e =
    let t = lt→ltb a newsz h in rw (t, e, alloc_page)

alloc_from-end :
    (fuel pgdir a oldsz newsz : ℕ) (m : Kmem)
    → newsz ≤ a
    → alloc_from (suc fuel) pgdir a oldsz newsz m ≡ ok (newsz, m)
unfolding alloc_from
alloc_from-end fuel pgdir a oldsz newsz m h =
    let t : ltb a newsz ≡ false = ground (arith, h) in rw t

alloc_from_lem :
    (fuel pgdir a oldsz newsz r : ℕ) (m m' : Kmem)
    → alloc_from fuel pgdir a oldsz newsz m ≡ ok (r, m')
    → (r ≡ 0) ⊎ (r ≡ newsz)
alloc_from_lem zero pgdir a oldsz newsz r m m' e = absurd (unfold alloc_from in cc)
alloc_from_lem (suc fuel) pgdir a oldsz newsz r m m' e = elim (Bool-cases (ltb a newsz)) [
  | inr past ↦ inr (
      sym (
        first_ok newsz r m m' (sym (alloc_from-end fuel pgdir a oldsz newsz m (ground arith)) ∙ e)))
  | inl there ↦
      go (alloc_page pgdir a m)
        (sym
            (alloc_from-round fuel pgdir a oldsz newsz m (alloc_page pgdir a m) (ground arith) refl)
          ∙ e)
        (λ m₁. alloc_from_lem fuel pgdir (add_uint a pgsize) oldsz newsz r m₁ m')
]
  where
    go :
        (page : Outcome (Bool × ℕ × Kmem))
        → round_end fuel pgdir a oldsz newsz page ≡ ok (r, m')
        → ((m₁ : Kmem)
            → alloc_from fuel pgdir (add_uint a pgsize) oldsz newsz m₁ ≡ ok (r, m')
            → (r ≡ 0) ⊎ (r ≡ newsz))
        → (r ≡ 0) ⊎ (r ≡ newsz)
    go panic f ih = absurd (cc)
    go out_of_fuel f ih = absurd (cc)
    go (ok (true, mem, m₁)) f ih = ih m₁ f
    go (ok (false, mem, m₁)) f ih = inl (undone pgdir oldsz newsz mem r m₁ m' f)

-- What `allocuvm` returns when it ends.
pub allocuvm_lem :
    (pgdir oldsz newsz r : ℕ) (m m' : Kmem)
    → allocuvm pgdir oldsz newsz m ≡ ok (r, m')
    → (r ≡ 0) ⊎ ((oldsz ≤ r) × ((r ≡ oldsz) ⊎ (r < kernbase)))
unfolding allocuvm
allocuvm_lem pgdir oldsz newsz r m m' e =
    let loop = alloc_from max_pages pgdir (pg_round_up oldsz) oldsz newsz m in
    let kept : Outcome (ℕ × Kmem) = ok (oldsz, m) in
    let refused : Outcome (ℕ × Kmem) = ok (0, m) in
    elim (Bool-cases (leb kernbase newsz)) [
      | inl high ↦ inl (
          sym (
            first_ok 0 r m m' (
              sym (
                taken_then (leb kernbase newsz) refused (if ltb newsz oldsz then kept else loop)
                  high)
              ∙ e)))
      | inr low ↦
          let e₁ =
            sym
              (taken_else (leb kernbase newsz) refused (if ltb newsz oldsz then kept else loop) low)
            ∙ e in
          elim (Bool-cases (ltb newsz oldsz)) [
            | inl less ↦
                let q =
                  first_ok oldsz r m m' (sym (taken_then (ltb newsz oldsz) kept loop less) ∙ e₁) in
                inr (omega (arith, q), inl (sym q))
            | inr more ↦
                elim (alloc_from_lem max_pages pgdir (pg_round_up oldsz) oldsz newsz r m m'
                  (sym (taken_else (ltb newsz oldsz) kept loop more) ∙ e₁)) [
                    | inl z ↦ inl z
                    | inr q ↦ inr (ground (arith, q), inr (ground (arith, q)))
                  ]
          ]
    ]
