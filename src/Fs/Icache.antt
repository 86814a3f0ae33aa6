-- ===== src/Fs/Icache.antt =====
-- `iget`, `idup` and the end of `iput` of fs.c: an inode is in the cache at one place.
use mathlib.Core.Path.{subst}
use cs330_operating_systems.Base.{
  ℕ, zero, suc, ◌+◌, ◌<◌, ◌≡◌, ◌≢◌, ◌⊎◌, inl, inr, ap, refl, sym, arith, true, false, some, List,
  [], ◌∷◌, get_elem?, modify,
}
use cs330_operating_systems.Fs.Inode.{Inode, is_cached}

-- Two entries in use are for different inodes.
abbrev pub IsUnique : List Inode → Type 0
IsUnique inodes =
    (i j : ℕ) (x y : Inode)
    → get_elem? inodes i ≡ some x
    → get_elem? inodes j ≡ some y
    → 0 < x.ref
    → is_cached x.dev x.inum y ≡ true
    → i ≡ j

-- where an element of the changed list comes from
modify-inv {ℓ} :
    {A : Type ℓ} (k i : ℕ) (f : A → A) (xs : List A) (x : A)
    → get_elem? (modify k f xs) i ≡ some x
    → (y : A) × (get_elem? xs i ≡ some y) × (((i ≡ k) × (x ≡ f y)) ⊎ ((i ≢ k) × (x ≡ y)))
modify-inv k i f [] x h = absurd (cc)
modify-inv zero zero f (y ∷ xs) x h = (y, refl, inl (refl, cc))
modify-inv zero (suc i) f (y ∷ xs) x h = (x, h, inr (λ e. absurd (omega (arith, e)), refl))
modify-inv (suc k) zero f (y ∷ xs) x h = (y, refl, inr (λ e. absurd (omega (arith, e)), cc))
modify-inv (suc k) (suc i) f (y ∷ xs) x h =
    let (z, e, c) = modify-inv k i f xs x h in
    (
      z,
      e,
      elim c [ inl (a, b) ↦ inl (ap suc a, b) | inr (a, b) ↦ inr (λ q. a (omega (arith, q)), b) ],
    )

-- A change of an entry that keeps its inode and gives no users to a free entry.
pub keep-IsUnique :
    (k : ℕ) (f : Inode → Inode) (inodes : List Inode)
    → ((x : Inode)
        → get_elem? inodes k ≡ some x
        → ((f x).dev ≡ x.dev) × ((f x).inum ≡ x.inum) × (0 < (f x).ref → 0 < x.ref))
    → IsUnique inodes
    → IsUnique (modify k f inodes)
keep-IsUnique k f inodes same u i j x y gi gj used cached =
    let (x₀, ei, ci) = modify-inv k i f inodes x gi in
    let (y₀, ej, cj) = modify-inv k j f inodes y gj in
    let (dx, nx, rx) = from x₀ i x ei ci in
    let (dy, ny, ry) = from y₀ j y ej cj in
    u i j x₀ y₀ ei ej (rx used) (ground (arith, dx, nx, dy, ny, ry, cached))
  where
    from :
        (z : Inode) (i : ℕ) (x : Inode)
        → get_elem? inodes i ≡ some z
        → ((i ≡ k) × (x ≡ f z)) ⊎ ((i ≢ k) × (x ≡ z))
        → (x.dev ≡ z.dev) × (x.inum ≡ z.inum) × (0 < x.ref → 0 < z.ref)
    from z i x e (inl (a, b)) =
        let s = same z (subst (λ n. get_elem? inodes n ≡ some z) a e) in
        subst (λ w. (w.dev ≡ z.dev) × (w.inum ≡ z.inum) × (0 < w.ref → 0 < z.ref)) (sym b) s
    from z i x e (inr (a, b)) =
        subst (λ w. (w.dev ≡ z.dev) × (w.inum ≡ z.inum) × (0 < w.ref → 0 < z.ref)) (sym b)
          (refl, refl, λ h. h)

-- The entry that `iget` returns is one for the inode, with one user more; the others are as before.
pub record Got (dev inum : ℕ) (inodes : List Inode) (i : ℕ) (inodes' : List Inode) : Type 0 where
  pub before : Inode
  pub was : get_elem? inodes i ≡ some before
  pub after : Inode
  pub is : get_elem? inodes' i ≡ some after
  pub inode : is_cached dev inum after ≡ true
  pub users : after.ref ≡ before.ref + 1
  pub fresh : before.ref ≡ 0 → after.valid ≡ false
  pub others : (j : ℕ) → j ≢ i → get_elem? inodes' j ≡ get_elem? inodes j
