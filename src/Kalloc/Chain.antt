-- ===== src/Kalloc/Chain.antt =====
-- The free list in memory, and the invariant of the allocator.
use cs330_operating_systems.Base.{
  ℕ, ◌+◌, ◌*◌, ◌/◌, ◌≤◌, ◌<◌, ◌≡◌, refl, ◌≢◌, true, false, List, [], ◌∷◌, arith, update, has, All,
  Distinct,
}
use mathlib.Core.Path.{subst, sym}
use cs330_operating_systems.Kalloc.{Page, Kmem, pgsize, kernbase, phystop}

abbrev pub frames : ℕ
frames = phystop / pgsize

-- the kernel address of a frame
abbrev pub page_of : ℕ → ℕ
page_of f = f * pgsize + kernbase

-- From `p` the `next` words lead through the listed frames to the null pointer.
abbrev pub IsChain : (ℕ → Page) → ℕ → List ℕ → Type 0
IsChain ram p [] = p ≡ 0
IsChain ram p (f ∷ fs) = (p ≡ page_of f) × IsChain ram (ram f 0) fs

-- The listed frames are the free ones: no one counts them, and each lies above the kernel.
pub record IsPool (m : Kmem) (fs : List ℕ) : Type 0 where
  pub chain : IsChain m.ram m.freelist fs
  pub unowned : All (λ f. m.refcnt f ≡ 0) fs
  pub above : All (λ f. m.kernel_end ≤ page_of f) fs
  pub in_ram : All (λ f. f < frames) fs
  pub distinct : Distinct fs
  pub end_above : kernbase < m.kernel_end

-- Writes to other frames leave the chain alone.
pub IsChain-frame :
    (ram ram' : ℕ → Page) (p : ℕ) (fs : List ℕ)
    → ((f : ℕ) → has f fs ≡ true → ram' f 0 ≡ ram f 0)
    → IsChain ram p fs
    → IsChain ram' p fs
IsChain-frame ram ram' p [] same h = h
IsChain-frame ram ram' p (f ∷ fs) same h = (
  h.0,
  subst (λ q. IsChain ram' q fs) (sym (same f (ground arith)))
      (IsChain-frame ram ram' (ram f 0) fs (λ g i. same g (ground arith)) h.1),
)

-- A frame that someone owns is not free.
pub owned-not_free :
    (count : ℕ → ℕ) (f : ℕ) (fs : List ℕ)
    → All (λ g. count g ≡ 0) fs
    → count f ≢ 0
    → has f fs ≡ false
owned-not_free count f [] h n = refl
owned-not_free count f (g ∷ fs) h n = ground (arith, owned-not_free count f fs h.1)

pub unowned-update :
    (count : ℕ → ℕ) (f n : ℕ) (fs : List ℕ)
    → has f fs ≡ false
    → All (λ g. count g ≡ 0) fs
    → All (λ g. update count f n g ≡ 0) fs
unowned-update count f n [] h k = tt
unowned-update count f n (g ∷ fs) h k =
    (ground arith, unowned-update count f n fs (ground arith) k.1)
