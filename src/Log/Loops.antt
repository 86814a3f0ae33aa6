-- ===== src/Log/Loops.antt =====
-- The copying loops of log.c: `write_log` and `install_trans`, with power lost at any write.
use cs330_operating_systems.Base.{
  ℕ, zero, suc, ◌+◌, ◌<◌, ◌≡◌, refl, ◌∙◌, false, List, [], ◌∷◌, arith, ◌==◌, if◌then◌else◌, length,
  update, has, All,
}
use cs330_operating_systems.Log.{
  Disk, LogState, done, crashed, fill, bwrite, install_from, write_log_from,
}
use cs330_operating_systems.Log.Regions
use cs330_operating_systems.Log.Header.{Block}
use cs330_operating_systems.Log.Regions.{
  Outside, Holds, Holds-cong, Holds-frame, All-map, Ends, ends, stops,
}

-- What no write of the log code changes.
pub record SameLog (s t : LogState) : Type 0 where
  pub start : t.start ≡ s.start
  pub size : t.size ≡ s.size
  pub block : t.block ≡ s.block

-- One copied block on its way through the cache to the disk.
pub record Put (b : ℕ) (blk : Block) (s t : LogState) : Type 0 where
  pub same : SameLog s t
  pub disk : (j : ℕ) → t.disk j ≡ (if j == b then blk else s.disk j)
  pub cache : (j : ℕ) → t.cache j ≡ (if j == b then blk else s.cache j)
  pub budget : t.budget + 1 ≡ s.budget

-- Power was lost before the write: the disk is as in `s`, at every block.
abbrev pub Kept : LogState → Disk → Type 0
Kept s d = (s.budget ≡ 0) × ((j : ℕ) → d j ≡ s.disk j)

pub bwrite-Put :
    (b : ℕ) (blk : Block) (s : LogState) → Ends (Put b blk s) (Kept s) (bwrite b (fill b blk s))
unfolding bwrite
bwrite-Put b blk s = go s.budget refl
  where
    go :
        (n : ℕ)
        → s.budget ≡ n
        → Ends (Put b blk s) (Kept s) (elim n [
          | zero ↦ crashed s.disk
          | suc left ↦ done (record s {
            disk = update s.disk b (update s.cache b blk b);
            cache = update s.cache b blk;
            dirty = update s.dirty b false;
            budget = left;
          })
        ])
    go zero e = stops (e, λ j. refl)
    go (suc left) e = ends (record {
      same = record { start = refl; size = refl; block = refl };
      disk = λ j. ground arith;
      cache = λ j. refl;
      budget = omega arith;
    })

-- After `write_log` from block `at` on: the log blocks hold the cached contents, all else is as
-- it was.
pub record Logged (at : ℕ) (bs : List ℕ) (s t : LogState) : Type 0 where
  pub same : SameLog s t
  pub disk_outside : (j : ℕ) → Outside at (at + length bs) j → t.disk j ≡ s.disk j
  pub cache_outside : (j : ℕ) → Outside at (at + length bs) j → t.cache j ≡ s.cache j
  pub on_disk : Holds t.disk at bs s.cache
  pub in_cache : Holds t.cache at bs s.cache
  pub budget : t.budget + length bs ≡ s.budget

abbrev pub KeptOutside : ℕ → List ℕ → LogState → Disk → Type 0
KeptOutside at bs s d =
    (s.budget < length bs) × ((j : ℕ) → Outside at (at + length bs) j → d j ≡ s.disk j)

SameLog-trans : {s t u : LogState} → SameLog s t → SameLog t u → SameLog s u
SameLog-trans p q = record {
  start = q.start ∙ p.start;
  size = q.size ∙ p.size;
  block = q.block ∙ p.block;
}

-- the first block of the loop, then the rest
Logged-cons :
    (at b : ℕ) (bs : List ℕ) {s t u : LogState}
    → All (Outside at (at + length (b ∷ bs))) (b ∷ bs)
    → Put at (s.cache b) s t
    → Logged (at + 1) bs t u
    → Logged at (b ∷ bs) s u
Logged-cons at b bs {s} {t} {u} out w l = record {
  same = SameLog-trans w.same l.same;
  disk_outside = λ j o. ground (arith, l.disk_outside j, w.disk j);
  cache_outside = λ j o. ground (arith, l.cache_outside j, w.cache j);
  on_disk = (
    ground (arith, l.disk_outside at, w.disk at),
    Holds-cong t.cache s.cache u.disk (at + 1) bs unchanged l.on_disk,
  );
  in_cache = (
    ground (arith, l.cache_outside at, w.cache at),
    Holds-cong t.cache s.cache u.cache (at + 1) bs unchanged l.in_cache,
  );
  budget = omega arith;
}
  where
    unchanged : All (λ j. t.cache j ≡ s.cache j) bs
    unchanged = All-map bs (λ j o. ground (arith, w.cache j)) out.1

pub write_log_from-Logged :
    (at : ℕ) (bs : List ℕ) (s : LogState)
    → All (Outside at (at + length bs)) bs
    → Ends (Logged at bs s) (KeptOutside at bs s) (write_log_from at bs s)
unfolding write_log_from
write_log_from-Logged at [] s out = ends (record {
  same = record { start = refl; size = refl; block = refl };
  disk_outside = λ j o. refl;
  cache_outside = λ j o. refl;
  on_disk = tt;
  in_cache = tt;
  budget = omega arith;
})
write_log_from-Logged at (b ∷ bs) s out =
    Regions.andthen (bwrite-Put at (s.cache b) s) (λ d e. (omega (arith, e.0), λ j o. e.1 j))
      λ t w.
        Regions.mono (write_log_from-Logged (at + 1) bs t (All-map bs (λ j o. omega arith) out.1))
          (λ d k. (omega (arith, k.0, w.budget), λ j o. ground (arith, k.1 j, w.disk j)))
          (λ u l. Logged-cons at b bs out w l)

-- After `install_trans` from block `at` on: the listed blocks have the contents `v`, all else is
-- as it was.
pub record Installed (bs : List ℕ) (v : Disk) (s t : LogState) : Type 0 where
  pub same : SameLog s t
  pub disk : (j : ℕ) → t.disk j ≡ (if has j bs then v j else s.disk j)
  pub cache : (j : ℕ) → t.cache j ≡ (if has j bs then v j else s.cache j)
  pub budget : t.budget + length bs ≡ s.budget

-- Only listed blocks have changed.
abbrev pub KeptUnlisted : List ℕ → LogState → Disk → Type 0
KeptUnlisted bs s d = (s.budget < length bs) × ((j : ℕ) → has j bs ≡ false → d j ≡ s.disk j)

Installed-cons :
    (b : ℕ) (bs : List ℕ) (v : Disk) {blk : Block} {s t u : LogState}
    → blk ≡ v b
    → Put b blk s t
    → Installed bs v t u
    → Installed (b ∷ bs) v s u
Installed-cons b bs v e w i = record {
  same = SameLog-trans w.same i.same;
  disk = λ j. ground (arith, i.disk j, w.disk j);
  cache = λ j. ground (arith, i.cache j, w.cache j);
  budget = omega arith;
}

pub install_from-Installed :
    (at : ℕ) (bs : List ℕ) (v : Disk) (s : LogState)
    → All (Outside at (at + length bs)) bs
    → Holds s.cache at bs v
    → Ends (Installed bs v s) (KeptUnlisted bs s) (install_from at bs s)
unfolding install_from
install_from-Installed at [] v s out h = ends (record {
  same = record { start = refl; size = refl; block = refl };
  disk = λ j. refl;
  cache = λ j. refl;
  budget = omega arith;
})
install_from-Installed at (b ∷ bs) v s out h =
    Regions.andthen (bwrite-Put b (s.cache at) s) (λ d e. (omega (arith, e.0), λ j o. e.1 j))
      λ t w.
        Regions.mono
          (install_from-Installed (at + 1) bs v t (All-map bs (λ j o. omega arith) out.1)
            (Holds-frame v (at + 1) bs (λ j p q. ground (arith, w.cache j)) h.1))
          (λ d k. (omega (arith, k.0, w.budget), λ j o. ground (arith, k.1 j, w.disk j)))
          (λ u i. Installed-cons b bs v h.0 w i)
