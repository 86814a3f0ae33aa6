-- ===== src/Bio/Unique.antt =====
-- The buffer cache of bio.c holds a block at most once, and keeps the buffers that are in use. At
-- boot all buffers stand for block 0 of device 0, so that device is left out.
use mathlib.Core.Path.{subst}
use cs330_operating_systems.Base.{
  ℕ, zero, suc, ◌+◌, ◌≤◌, ◌≡◌, refl, ap, ◌∙◌, ◌≢◌, ◌⊎◌, inl, inr, true, false, arith, ◌==◌,
  if◌then◌else◌, Bool-cases, Option, none, some, List, [], ◌∷◌, ◌++◌, get_elem?, take, drop, modify,
  Outcome, ok, panic,
}
use cs330_operating_systems.Kalloc.{sub_uint}
use cs330_operating_systems.Bio.{
  Buf, is_block, is_free, hold, put_back, brelse, link_from, nbuf, binit,
}

-- how many buffers stand for a block
abbrev pub copies : ℕ → ℕ → List Buf → ℕ
copies d n [] = 0
copies d n (b ∷ bufs) = if is_block d n b then suc (copies d n bufs) else copies d n bufs

abbrev pub Unique : List Buf → Type 0
Unique bufs = (d n : ℕ) → d ≢ 0 → copies d n bufs ≤ 1

-- a buffer that is in use, or dirty, is kept, and gets at most one more user
abbrev pub KeepsUsed : List Buf → List Buf → Type 0
KeepsUsed bufs bufs' =
    (j : ℕ) (c : Buf)
    → get_elem? bufs j ≡ some c
    → is_free c ≡ false
    → (get_elem? bufs' j ≡ some c) ⊎ (get_elem? bufs' j ≡ some (hold c))

-- what `bget` returns for block `n` of device `d`
abbrev pub Gets : ℕ → ℕ → List Buf → Outcome (ℕ × List Buf) → Type 0
Gets d n bufs r =
    ((i : ℕ) × (bufs' : List Buf) × (b : Buf) × (r ≡ ok (i, bufs'))
      × (get_elem? bufs' i ≡ some b)
      × (is_block d n b ≡ true)
      × Unique bufs'
      × KeepsUsed bufs bufs')
    ⊎ ((r ≡ panic) × ((j : ℕ) (c : Buf) → get_elem? bufs j ≡ some c → is_free c ≡ false))

copies-out :
    (d n i : ℕ) (bufs : List Buf) (b : Buf)
    → get_elem? bufs i ≡ some b
    → copies d n bufs
      ≡ (if is_block d n b then 1 else 0) + copies d n (take i bufs ++ drop (suc i) bufs)
copies-out d n i [] b at = absurd (cc)
copies-out d n zero (x ∷ bufs) b at =
    let e : x ≡ b = cc in
    subst (λ y. copies d n (x ∷ bufs) ≡ (if is_block d n y then 1 else 0) + copies d n bufs) e
      (ground arith)
copies-out d n (suc i) (x ∷ bufs) b at = let e = copies-out d n i bufs b at in ground (arith, e)

is_block-same :
    (d n : ℕ) (b c : Buf) → c.dev ≡ b.dev → c.blockno ≡ b.blockno → is_block d n c ≡ is_block d n b
is_block-same d n b c e e' = rw (e, e')

copies-front :
    (d n i : ℕ) (bufs : List Buf) (b c : Buf)
    → get_elem? bufs i ≡ some b
    → is_block d n c ≡ is_block d n b
    → copies d n (c ∷ (take i bufs ++ drop (suc i) bufs)) ≡ copies d n bufs
copies-front d n i bufs b c at same = let e = copies-out d n i bufs b at in ground (arith, same, e)

copies-replace :
    (d n i : ℕ) (bufs : List Buf) (b c : Buf)
    → get_elem? bufs i ≡ some b
    → is_block d n c ≡ is_block d n b
    → copies d n (modify i (λ x. c) bufs) ≡ copies d n bufs
copies-replace d n i [] b c at same = absurd (cc)
copies-replace d n zero (x ∷ bufs) b c at same =
    let e : is_block d n c ≡ is_block d n x = same ∙ ap (is_block d n) (let f : b ≡ x = cc in f) in
    ground (arith, e)
copies-replace d n (suc i) (x ∷ bufs) b c at same =
    let e = copies-replace d n i bufs b c at same in ground (arith, e)

put_back-copies :
    (d n i : ℕ) (bufs : List Buf) (b c : Buf)
    → get_elem? bufs i ≡ some b
    → is_block d n c ≡ is_block d n b
    → copies d n (put_back i bufs c) ≡ copies d n bufs
put_back-copies d n i bufs b c at same = elim (Bool-cases (c.refcnt == 0)) [
  | inl last ↦ rw last (copies-front d n i bufs b c at same)
  | inr more ↦ rw more (copies-replace d n i bufs b c at same)
]

-- `brelse` keeps each block cached as often as it was.
pub brelse-copies :
    (i : ℕ) (bufs : List Buf) (d n : ℕ) → copies d n (brelse i bufs) ≡ copies d n bufs
unfolding brelse
brelse-copies i bufs d n = go (get_elem? bufs i) refl
  where
    go : (o : Option Buf) → get_elem? bufs i ≡ o → copies d n (brelse i bufs) ≡ copies d n bufs
    go none e = rw (e, brelse)
    go (some b) e =
        rw (e, brelse)
          (put_back-copies d n i bufs b (record b { refcnt = sub_uint b.refcnt 1 }) e refl)

link_from-copies :
    (d n k count : ℕ) (bufs : List Buf)
    → d ≢ 0
    → copies d n (link_from k count bufs) ≡ copies d n bufs
unfolding link_from
link_from-copies d n k zero bufs nz = refl
link_from-copies d n k (suc count) bufs nz =
    link_from-copies d n (k + 1) count
      (record { number = k; dev = 0; blockno = 0; valid = false; dirty = false; refcnt = 0 } ∷ bufs)
      nz
    ∙ ground arith

-- After boot no block is cached twice.
pub binit-Unique : Unique binit
unfolding binit
binit-Unique d n nz = let e = link_from-copies d n 0 nbuf [] nz in omega (arith, e)
