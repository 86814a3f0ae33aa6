-- ===== src/Log/Recovery.antt =====
-- `initlog` and `recover_from_log` after a loss of power, also when power is lost again meanwhile.
use cs330_operating_systems.Base.{
  ℕ, ◌+◌, ◌≤◌, ◌<◌, ◌≡◌, refl, sym, ◌∙◌, ap, false, List, [], arith, length, has, All,
}
use mathlib.Core.Path.{subst₂}
use cs330_operating_systems.Log.{
  Disk, LogState, done, crashed, install_from, restart, read_head, write_head, install_trans,
  recover_from_log, initlog,
}
use cs330_operating_systems.Log.Header.{decode, encode, decode-encode}
use cs330_operating_systems.Log.Loops.{
  Put, bwrite-Put, KeptUnlisted, Installed, install_from-Installed,
}
use cs330_operating_systems.Log.Regions
use cs330_operating_systems.Log.Regions.{
  Outside, Holds, Holds-frame, All-map, has-false, Ends, ends, stops,
}

-- The disk `d`, with its log area, stands for the file system contents `v`: the header lists
-- `bs`, their contents stand in the log, and every home block that is not listed is up to date.
pub record Stored (start size : ℕ) (d v : Disk) (bs : List ℕ) : Type 0 where
  pub header : decode (d start) ≡ bs
  pub fits : length bs < size
  pub outside : All (Outside start (start + size)) bs
  pub logged : Holds d (start + 1) bs v
  pub home : (j : ℕ) → Outside start (start + size) j → has j bs ≡ false → d j ≡ v j

-- The disk stands for `v`, whatever its log lists.
abbrev pub StandsFor : ℕ → ℕ → Disk → Disk → Type 0
StandsFor start size d v = (bs : List ℕ) × Stored start size d v bs

-- The log is empty, and the disk and the cache both have the contents `v`.
pub record Settled (start size : ℕ) (v : Disk) (t : LogState) : Type 0 where
  pub place : t.start ≡ start
  pub room : t.size ≡ size
  pub empty : t.block ≡ []
  pub header : decode (t.disk start) ≡ []
  pub disk : (j : ℕ) → Outside start (start + size) j → t.disk j ≡ v j
  pub cache : (j : ℕ) → Outside start (start + size) j → t.cache j ≡ v j

-- What installing has changed so far is written again from the log.
pub Stored-KeptUnlisted :
    {start size : ℕ} {d e v : Disk} {bs : List ℕ}
    → Stored start size d v bs
    → ((j : ℕ) → has j bs ≡ false → e j ≡ d j)
    → Stored start size e v bs
Stored-KeptUnlisted {start} {size} {d} {e} {v} {bs} s k = record {
  header =
      ap decode (
        k start
          (has-false start (start + size) start bs (omega arith) (omega (arith, s.fits)) s.outside))
      ∙ s.header;
  fits = s.fits;
  outside = s.outside;
  logged =
      Holds-frame v (start + 1) bs
        (λ j p q.
          k j (has-false start (start + size) j bs (omega arith) (omega (arith, s.fits)) s.outside))
        s.logged;
  home = λ j o n. k j n ∙ s.home j o n;
}

-- Clearing the header ends the transaction.
pub write_head-Settled :
    {start size : ℕ} {v : Disk} {bs : List ℕ} (t : LogState)
    → Stored start size t.disk v bs
    → t.start ≡ start
    → t.size ≡ size
    → ((j : ℕ) → Outside start (start + size) j → t.disk j ≡ v j)
    → ((j : ℕ) → Outside start (start + size) j → t.cache j ≡ v j)
    → Ends
        (λ u. Settled start size v u)
        (λ d. (t.budget ≡ 0) × StandsFor start size d v)
        (write_head (record t { block = [] }))
unfolding write_head
write_head-Settled {start} {size} {v} {bs} t s e₁ e₂ hd hc =
    Regions.mono (bwrite-Put t.start (encode [] (t.cache t.start)) (record t { block = [] }))
      (λ d k. (k.0, (bs, Stored-KeptUnlisted s (λ j n. k.1 j))))
      λ u w. record {
        place = w.same.start ∙ e₁;
        room = w.same.size ∙ e₂;
        empty = w.same.block;
        header = ap decode (cleared u w) ∙ decode-encode [] (t.cache t.start);
        disk = λ j o. ground (arith, w.disk j, hd j, s.fits);
        cache = λ j o. ground (arith, w.cache j, hc j, s.fits);
      }
  where
    cleared :
        (u : LogState)
        → Put t.start (encode [] (t.cache t.start)) (record t { block = [] }) u
        → u.disk start ≡ encode [] (t.cache t.start)
    cleared u w = ground (arith, w.disk start)

-- Installing the listed blocks, from a cache that shows the log, brings every home block up to
-- date.
pub install_trans-Installed :
    {start size : ℕ} {v : Disk} {bs : List ℕ} (s : LogState)
    → s.start ≡ start
    → s.block ≡ bs
    → length bs < size
    → All (Outside start (start + size)) bs
    → Holds s.cache (start + 1) bs v
    → Ends (Installed bs v s) (KeptUnlisted bs s) (install_trans s)
unfolding install_trans
install_trans-Installed {start} {size} {v} {bs} s e₁ e₂ fits out h =
    let at : s.start + 0 + 1 ≡ start + 1 = omega arith in
    subst₂ (λ a l. Ends (Installed bs v s) (KeptUnlisted bs s) (install_from a l s)) (sym at)
      (sym e₂) (install_from-Installed (start + 1) bs v s (All-map bs (λ j o. omega arith) out) h)

pub recover_from_log-Settled :
    {start size : ℕ} {v : Disk} {bs : List ℕ} (budget : ℕ) (d : Disk)
    → Stored start size d v bs
    → Ends
        (Settled start size v)
        (λ e. (budget ≤ length bs) × StandsFor start size e v)
        (initlog start size d budget)
unfolding initlog recover_from_log read_head
recover_from_log-Settled {start} {size} {v} {bs} budget d s =
    Regions.andthen
      (install_trans-Installed (read_head (restart start size d budget)) refl s.header s.fits
        s.outside s.logged)
      (λ e k. (omega arith, (bs, Stored-KeptUnlisted s k.1)))
      λ t i.
        Regions.mono
          (write_head-Settled t (Stored-KeptUnlisted s (λ j n. ground (arith, i.disk j)))
            i.same.start i.same.size (λ j o. ground (arith, i.disk j, s.home j))
            (λ j o. ground (arith, i.cache j, s.home j)))
          (λ e k. (omega arith, k.1)) (λ u p. p)

-- Every loss of power during recovery leaves a disk that stands for the same contents.
pub data Restarts (start size : ℕ) (d : Disk) : Disk → Type 0 where
  here : Restarts start size d d
  again :
      {e f : Disk} (budget : ℕ)
      → Restarts start size d e
      → initlog start size e budget ≡ crashed f
      → Restarts start size d f

pub Restarts-StandsFor :
    {start size : ℕ} {v d e : Disk}
    → Restarts start size d e
    → StandsFor start size d v
    → StandsFor start size e v
Restarts-StandsFor here s = s
Restarts-StandsFor (again {e} {f} budget r c) s =
    let (bs, stored) = Restarts-StandsFor r s in
    (Regions.Ends-crashed f (recover_from_log-Settled budget e stored) c).1

-- On a disk that stands for the contents `v`, with power for at least `size` block writes,
-- `initlog` ends; the log is then empty, and the disk and the cache hold `v` outside the log.
pub initlog_done :
    {start size : ℕ} {v d : Disk} (budget : ℕ)
    → StandsFor start size d v
    → size ≤ budget
    → (t : LogState) × (initlog start size d budget ≡ done t) × Settled start size v t
initlog_done budget s h =
    Regions.Ends-done (recover_from_log-Settled budget _ s.1) (λ d k. omega (arith, k.0, s.1.fits))
