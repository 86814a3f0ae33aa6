-- ===== src/Mmap/Regions.antt =====
-- How the searches see a region that is unmapped or gets another protection.

use cs330_operating_systems.Base.{
  ℕ, zero, suc, ◌≡◌, refl, true, false, arith, if◌then◌else◌, none, some, List, [], ◌∷◌, set, All,
  find_index, find_index-zero, find_index-suc, All-find_index,
}
use cs330_operating_systems.Proc.{Vma}
use cs330_operating_systems.Mmap.{covers, find_in, is_exactly, region, no_vma, set_prot}
use cs330_operating_systems.Mmap.Layout.{Apart, AllApart}

-- No other region covers an address of `v`.
find_in-none :
    (v : Vma) (addr : ℕ) (vs : List Vma)
    → v.used ≡ true
    → covers v addr ≡ true
    → All (Apart v) vs
    → find_in vs addr ≡ none
unfolding find_in
find_in-none v addr [] u c h = refl
find_in-none v addr (w ∷ vs) u c h = ground (arith, find_in-none v addr vs u c h.1, h.0)

-- A region that stands apart from the one found does not cover its addresses.
Apart-covers :
    (v : Vma) (a n addr : ℕ) (vs : List Vma) (i : ℕ)
    → All (Apart v) vs
    → find_index (is_exactly a n) vs ≡ some i
    → v.used ≡ true
    → covers (region a n 0) addr ≡ true
    → covers v addr ≡ false
Apart-covers v a n addr vs i h e u c =
    let (w, p, t, _) = All-find_index (is_exactly a n) (Apart v) vs i h e in ground (arith, p)

pub find_in-clear :
    (a n addr : ℕ) (vs : List Vma) (i : ℕ)
    → AllApart vs
    → find_index (is_exactly a n) vs ≡ some i
    → find_in (set vs i no_vma) addr
      ≡ (if covers (region a n 0) addr then none else find_in vs addr)
unfolding find_in
find_in-clear a n addr [] i h e = absurd (unfold find_index in cc)
find_in-clear a n addr (v ∷ vs) zero h e =
    ground (arith, find_index-zero (is_exactly a n) v vs, find_in-none v addr vs)
find_in-clear a n addr (v ∷ vs) (suc i) h e =
    let (_, rest) = find_index-suc (is_exactly a n) v vs i e in
    ground (arith, find_in-clear a n addr vs i h.1 rest, Apart-covers v a n addr vs i h.0 rest)

pub find_in-set_prot :
    (a n prot addr : ℕ) (vs : List Vma) (i : ℕ)
    → AllApart vs
    → find_index (is_exactly a n) vs ≡ some i
    → find_in (set_prot prot i vs) addr
      ≡ (if covers (region a n 0) addr then some (region a n prot) else find_in vs addr)
unfolding find_in
find_in-set_prot a n prot addr [] i h e = absurd (unfold find_index in cc)
find_in-set_prot a n prot addr (v ∷ vs) zero h e =
    ground (arith, find_index-zero (is_exactly a n) v vs)
find_in-set_prot a n prot addr (v ∷ vs) (suc i) h e =
    let (_, rest) = find_index-suc (is_exactly a n) v vs i e in
    ground
      (arith, find_in-set_prot a n prot addr vs i h.1 rest, Apart-covers v a n addr vs i h.0 rest)
