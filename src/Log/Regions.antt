-- ===== src/Log/Regions.antt =====
-- Vocabulary for the proofs about the log: the log's own blocks, and what the log area holds.
use cs330_operating_systems.Base.{
  ℕ, ◌+◌, ◌≤◌, ◌<◌, ◌≡◌, refl, ◌⊎◌, false, List, [], ◌∷◌, arith, length, has, All,
}
use mathlib.Core.Path.{subst}
use cs330_operating_systems.Log.{Disk, LogState, Io, done, crashed, ◌then_do◌}

abbrev pub Outside : ℕ → ℕ → ℕ → Type 0
Outside lo hi j = (j < lo) ⊎ (hi ≤ j)

-- From block `at` on, the store holds `v`'s contents of the listed blocks, in order.
abbrev pub Holds : Disk → ℕ → List ℕ → Disk → Type 0
Holds d at [] v = Unit
Holds d at (b ∷ bs) v = (d at ≡ v b) × Holds d (at + 1) bs v

pub Holds-cong :
    (v w : Disk) (d : Disk) (at : ℕ) (bs : List ℕ)
    → All (λ b. v b ≡ w b) bs
    → Holds d at bs v
    → Holds d at bs w
Holds-cong v w d at [] e h = tt
Holds-cong v w d at (b ∷ bs) e h = (cc (h.0, e.0), Holds-cong v w d (at + 1) bs e.1 h.1)

pub Holds-frame :
    (v : Disk) {d e : Disk} (at : ℕ) (bs : List ℕ)
    → ((j : ℕ) → at ≤ j → j < at + length bs → e j ≡ d j)
    → Holds d at bs v
    → Holds e at bs v
Holds-frame v at [] same h = tt
Holds-frame v at (b ∷ bs) same h = (
  cc (h.0, same at (omega arith) (omega arith)),
  Holds-frame v (at + 1) bs (λ j p q. same j (omega arith) (omega arith)) h.1,
)

pub All-map {ℓ κ λ'} :
    {A : Type ℓ} {P : A → Type κ} {Q : A → Type λ'} (xs : List A)
    → ((a : A) → P a → Q a)
    → All P xs
    → All Q xs
All-map [] f h = tt
All-map (x ∷ xs) f h = (f x h.0, All-map xs f h.1)

-- A block of the log area is none of the listed home blocks.
pub has-false :
    (lo hi j : ℕ) (bs : List ℕ) → lo ≤ j → j < hi → All (Outside lo hi) bs → has j bs ≡ false
has-false lo hi j [] p q h = ground arith
has-false lo hi j (b ∷ bs) p q h = ground (arith, has-false lo hi j bs p q h.1, h.0)

-- How a run may end: in a state that satisfies `P`, or by a loss of power on a disk with `Q`.
pub data Ends (P : LogState → Type 0) (Q : Disk → Type 0) : Io → Type 0 where
  ends : {s : LogState} → P s → Ends P Q (done s)
  stops : {d : Disk} → Q d → Ends P Q (crashed d)

module _ {P P' : LogState → Type 0} {Q Q' : Disk → Type 0} where
  pub andthen :
      {r : Io} {k : LogState → Io}
      → Ends P Q r
      → ((d : Disk) → Q d → Q' d)
      → ((s : LogState) → P s → Ends P' Q' (k s))
      → Ends P' Q' (r then_do k)
  andthen (ends p) lose next = next _ p
  andthen (stops q) lose next = stops (lose _ q)

  pub mono :
      {r : Io}
      → Ends P Q r
      → ((d : Disk) → Q d → Q' d)
      → ((s : LogState) → P s → P' s)
      → Ends P' Q' r
  mono (ends p) lose next = ends (next _ p)
  mono (stops q) lose next = stops (lose _ q)

pub Ends-crashed :
    {P : LogState → Type 0} {Q : Disk → Type 0} {r : Io} (d : Disk)
    → Ends P Q r
    → r ≡ crashed d
    → Q d
Ends-crashed d (ends p) e = cc
Ends-crashed {Q} d (stops {d = c} q) e = let same : c ≡ d = cc in subst Q same q

pub Ends-done :
    {P : LogState → Type 0} {Q : Disk → Type 0} {r : Io}
    → Ends P Q r
    → ((d : Disk) → Q d → ⊥)
    → (s : LogState) × (r ≡ done s) × P s
Ends-done (ends {s} p) no_loss = (s, refl, p)
Ends-done (stops {d} q) no_loss = absurd (no_loss d q)
