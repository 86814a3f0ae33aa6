-- ===== src/Log/Frame.antt =====
-- What `commit` leaves alone in `struct log`, wherever it ends.
use cs330_operating_systems.Base.{
  ℕ, zero, suc, ◌+◌, ◌≤◌, ◌≡◌, refl, Bool, List, [], ◌∷◌, arith, ltb, if◌then◌else◌, length, update,
  true, false,
}
use cs330_operating_systems.Log.{
  Disk, LogState, done, crashed, bwrite, fill, install_from, install_trans, write_log_from,
  write_log, write_head, commit_body, commit,
}
use cs330_operating_systems.Log.Regions
use cs330_operating_systems.Log.Regions.{Ends, ends, stops}

pub record Keeps (s t : LogState) : Type 0 where
  pub outstanding : t.outstanding ≡ s.outstanding
  pub size : t.size ≡ s.size
  pub block : length t.block ≤ length s.block

abbrev AnyDisk : Disk → Type 0
AnyDisk d = Unit {0}

bwrite-Keeps : (b : ℕ) (s : LogState) → Ends (Keeps s) AnyDisk (bwrite b s)
unfolding bwrite
bwrite-Keeps b s = go s.budget
  where
    go :
        (n : ℕ)
        → Ends (Keeps s) AnyDisk (elim n [
          | zero ↦ crashed s.disk
          | suc left ↦ done (record s {
            disk = update s.disk b (s.cache b);
            dirty = update s.dirty b false;
            budget = left;
          })
        ])
    go zero = stops tt
    go (suc left) = ends (record { outstanding = refl; size = refl; block = omega arith })

Keeps-trans : {s t u : LogState} → Keeps s t → Keeps t u → Keeps s u
Keeps-trans p q = ground arith

write_log_from-Keeps :
    (at : ℕ) (bs : List ℕ) (s : LogState) → Ends (Keeps s) AnyDisk (write_log_from at bs s)
unfolding write_log_from
write_log_from-Keeps at [] s =
    ends (record { outstanding = refl; size = refl; block = omega arith })
write_log_from-Keeps at (b ∷ bs) s =
    Regions.andthen (bwrite-Keeps at (fill at (s.cache b) s)) (λ d q. tt)
      λ t p.
        Regions.mono (write_log_from-Keeps (at + 1) bs t) (λ d q. tt) (λ u q. ground (arith, p, q))

install_from-Keeps :
    (at : ℕ) (bs : List ℕ) (s : LogState) → Ends (Keeps s) AnyDisk (install_from at bs s)
unfolding install_from
install_from-Keeps at [] s = ends (record { outstanding = refl; size = refl; block = omega arith })
install_from-Keeps at (b ∷ bs) s =
    Regions.andthen (bwrite-Keeps b (fill b (s.cache at) s)) (λ d q. tt)
      λ t p.
        Regions.mono (install_from-Keeps (at + 1) bs t) (λ d q. tt) (λ u q. ground (arith, p, q))

clear-Keeps :
    (s v : LogState) → Keeps s v → Ends (Keeps s) AnyDisk (write_head (record v { block = [] }))
unfolding write_head
clear-Keeps s v p =
    Regions.mono (bwrite-Keeps v.start (fill v.start _ (record v { block = [] }))) (λ d q. tt)
      (λ w q. ground (arith, p, q))

commit_body-Keeps : (s : LogState) → Ends (Keeps s) AnyDisk (commit_body s)
unfolding commit_body write_log write_head install_trans
commit_body-Keeps s =
    Regions.andthen (write_log_from-Keeps (s.start + 0 + 1) s.block s) (λ d q. tt)
      λ t p.
        Regions.andthen (bwrite-Keeps t.start (fill t.start _ t)) (λ d q. tt)
          λ u q.
            Regions.andthen (install_from-Keeps (u.start + 0 + 1) u.block u) (λ d q. tt)
              λ v r. clear-Keeps s v (ground (arith, p, q, r))

pub commit-Keeps : (s : LogState) → Ends (Keeps s) AnyDisk (commit s)
unfolding commit
commit-Keeps s = go (ltb 0 (length s.block))
  where
    go : (b : Bool) → Ends (Keeps s) AnyDisk (if b then commit_body s else done s)
    go true = commit_body-Keeps s
    go false = ends (record { outstanding = refl; size = refl; block = omega arith })
