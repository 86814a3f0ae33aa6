-- ===== src/Mmap/Layout.antt =====
-- The mapped regions of a process: aligned, apart from one another, and below `sz`.

use cs330_operating_systems.Base.{
  ℕ, zero, suc, ◌+◌, ◌%◌, ◌≤◌, ◌<◌, ◌≡◌, refl, ◌⊎◌, inl, inr, true, not, arith, Option, none, some,
  List, [], ◌∷◌, set, All, find_index,
}
use cs330_operating_systems.Kalloc.{pgsize, kernbase, pg_round_up}
use cs330_operating_systems.Proc.{Vma, Proc}
use cs330_operating_systems.Mmap.{map_at, sys_mmap}

-- A VMA in use is a range of whole pages below `sz`.
pub record IsPlaced (sz : ℕ) (v : Vma) : Type 0 where
  pub start : v.used ≡ true → v.start % pgsize ≡ 0
  pub length : v.used ≡ true → v.length % pgsize ≡ 0
  pub pages : v.used ≡ true → 0 < v.length
  pub below : v.used ≡ true → v.start + v.length ≤ sz

-- no address in common
abbrev pub Apart : Vma → Vma → Type 0
Apart v w =
    v.used ≡ true → w.used ≡ true → (v.start + v.length ≤ w.start) ⊎ (w.start + w.length ≤ v.start)

abbrev pub AllApart : List Vma → Type 0
AllApart [] = Unit
AllApart (v ∷ vs) = All (Apart v) vs × AllApart vs

pub record IsLayout (p : Proc) : Type 0 where
  pub placed : All (IsPlaced p.sz) p.vmas
  pub apart : AllApart p.vmas
  pub top : p.sz ≤ kernbase

pub All-set {ℓ κ} :
    {A : Type ℓ} (P : A → Type κ) (xs : List A) (i : ℕ) (a : A)
    → P a
    → All P xs
    → All P (set xs i a)
All-set P [] i a h k = tt
All-set P (x ∷ xs) zero a h k = (h, k.1)
All-set P (x ∷ xs) (suc i) a h k = (k.0, All-set P xs i a h k.1)

pub IsPlaced-grow :
    {sz sz' : ℕ} → sz ≤ sz' → (vs : List Vma) → All (IsPlaced sz) vs → All (IsPlaced sz') vs
IsPlaced-grow le [] h = tt
IsPlaced-grow le (v ∷ vs) h = (
  record {
    start = h.0.start;
    length = h.0.length;
    pages = h.0.pages;
    below = λ u. omega (arith, h.0.below u, le);
  },
  IsPlaced-grow le vs h.1,
)

-- A region from `sz` on is apart from all that lie below.
pub Apart-above :
    (sz : ℕ) (w : Vma) (vs : List Vma)
    → sz ≤ w.start
    → All (IsPlaced sz) vs
    → All (λ v. Apart v w × Apart w v) vs
Apart-above sz w [] le h = tt
Apart-above sz w (v ∷ vs) le h = (
  (λ u u'. inl (omega (arith, h.0.below u, le)), λ u u'. inr (omega (arith, h.0.below u', le))),
  Apart-above sz w vs le h.1,
)

pub All-map {ℓ κ λ'} :
    {A : Type ℓ} {P : A → Type κ} {Q : A → Type λ'} (xs : List A)
    → ((a : A) → P a → Q a)
    → All P xs
    → All Q xs
All-map [] f h = tt
All-map (x ∷ xs) f h = (f x h.0, All-map xs f h.1)

pub AllApart-set :
    (vs : List Vma) (i : ℕ) (w : Vma)
    → All (λ v. Apart v w × Apart w v) vs
    → AllApart vs
    → AllApart (set vs i w)
AllApart-set [] i w h k = tt
AllApart-set (v ∷ vs) zero w h k = (All-map vs (λ a q. q.1) h.1, k.1)
AllApart-set (v ∷ vs) (suc i) w h k =
    (All-set (Apart v) vs i w h.0.0 k.0, AllApart-set vs i w h.1 k.1)

-- What a call of `sys_mmap` that returns an address has done.
pub record Mapped (n : ℕ) (p p' : Proc) (a i : ℕ) : Type 0 where
  pub free : find_index (λ v. not v.used) p.vmas ≡ some i
  pub after : p' ≡ map_at i (pg_round_up p.sz) (pg_round_up n) p
  pub address : a ≡ pg_round_up p.sz
  pub room : a + pg_round_up n ≤ kernbase
  pub pages : 0 < pg_round_up n

pub sys_mmap-Mapped :
    (n : ℕ) (p : Proc) {p' : Proc} {a : ℕ}
    → sys_mmap (some n) p ≡ (p', some a)
    → (i : ℕ) × Mapped n p p' a i
unfolding sys_mmap
sys_mmap-Mapped n p {p'} {a} h = go (find_index (λ v. not v.used) p.vmas) refl h
  where
    go :
        (o : Option ℕ)
        → find_index (λ v. not v.used) p.vmas ≡ o
        → sys_mmap (some n) p ≡ (p', some a)
        → (i : ℕ) × Mapped n p p' a i
    go none e h = absurd (ground arith)
    go (some i) e h = (i, ground arith)
