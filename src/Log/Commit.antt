-- ===== src/Log/Commit.antt =====
-- `commit` and `end_op`: a transaction reaches the disk whole or not at all.
use cs330_operating_systems.Base.{
  ℕ, ◌+◌, ◌≤◌, ◌<◌, ◌≡◌, refl, sym, ◌∙◌, ap, ◌⊎◌, inl, inr, false, List, [], ◌∷◌, arith, lt→ltb,
  ltb→lt, ltb, Bool-cases, if◌then◌else◌, length, has, All,
}
use cs330_operating_systems.Log.{
  Disk, LogState, done, crashed, write_log, write_head, initlog, commit,
}
use cs330_operating_systems.Log.Header.{decode, encode, decode-encode}
use cs330_operating_systems.Log.Loops.{Put, bwrite-Put, Logged, KeptOutside, write_log_from-Logged}
use cs330_operating_systems.Log.Recovery.{
  Stored, StandsFor, Settled, Stored-KeptUnlisted, write_head-Settled, install_trans-Installed,
  Restarts, Restarts-StandsFor, initlog_done,
}
use cs330_operating_systems.Log.Regions
use cs330_operating_systems.Log.Regions.{
  Outside, Holds, Holds-frame, Holds-cong, All-map, has-false, Ends, ends, stops,
}

-- Between transactions' commits: the log on disk is empty, the listed blocks are home blocks that
-- fit in the log, and only listed blocks differ between the cache and the disk.
pub record Pending (s : LogState) : Type 0 where
  pub header : decode (s.disk s.start) ≡ []
  pub fits : length s.block < s.size
  pub outside : All (Outside s.start (s.start + s.size)) s.block
  pub home :
      (j : ℕ) → Outside s.start (s.start + s.size) j → has j s.block ≡ false → s.cache j ≡ s.disk j

module _ {s : LogState} (p : Pending s) where
  -- A disk that agrees with `s` on the header and outside the log still stands for the old
  -- contents.
  old_StandsFor :
      (d : Disk)
      → d s.start ≡ s.disk s.start
      → ((j : ℕ) → Outside s.start (s.start + s.size) j → d j ≡ s.disk j)
      → StandsFor s.start s.size d s.disk
  old_StandsFor d e k = (
    [],
    record {
      header = ap decode e ∙ p.header;
      fits = omega (arith, p.fits);
      outside = tt;
      logged = tt;
      home = λ j o n. k j o;
    },
  )

  write_log-Logged :
      Ends (Logged (s.start + 1) s.block s) (KeptOutside (s.start + 1) s.block s) (write_log s)
  unfolding write_log
  write_log-Logged =
      let at : s.start + 0 + 1 ≡ s.start + 1 = omega arith in
      rw at (
        write_log_from-Logged (s.start + 1) s.block s
          (All-map s.block (λ j o. omega (arith, p.fits)) p.outside))

  -- Once the header is written, the disk stands for the new contents.
  write_head-Stored :
      (t : LogState)
      → Logged (s.start + 1) s.block s t
      → Ends
          (λ u.
            Stored s.start s.size u.disk s.cache s.block
            × (u.budget + length s.block + 1 ≡ s.budget)
            × (u.start ≡ s.start)
            × (u.size ≡ s.size)
            × (u.block ≡ s.block)
            × Holds u.cache (s.start + 1) s.block s.cache
            × ((j : ℕ) → Outside s.start (s.start + s.size) j → u.cache j ≡ s.cache j))
          (λ d. (s.budget ≤ length s.block) × StandsFor s.start s.size d s.disk)
          (write_head t)
  unfolding write_head
  write_head-Stored t l =
      Regions.mono (bwrite-Put t.start (encode t.block (t.cache t.start)) t)
        (λ d k. (
          omega (arith, k.0, l.budget),
          old_StandsFor d (k.1 s.start ∙ l.disk_outside s.start (omega arith))
              λ j o. k.1 j ∙ l.disk_outside j (omega (arith, o, p.fits)),
        ))
        λ u w. (
          record {
            header = ap decode (header_at u w) ∙ decode-encode t.block _ ∙ l.same.block;
            fits = p.fits;
            outside = p.outside;
            logged =
                Holds-frame s.cache (s.start + 1) s.block
                  (λ j a b. ground (arith, w.disk j, l.same.start)) l.on_disk;
            home =
                λ j o n. ground (arith, w.disk j, l.disk_outside j, p.home j, l.same.start, p.fits);
          },
          omega (arith, w.budget, l.budget),
          w.same.start ∙ l.same.start,
          w.same.size ∙ l.same.size,
          w.same.block ∙ l.same.block,
          Holds-frame s.cache (s.start + 1) s.block
              (λ j a b. ground (arith, w.cache j, l.same.start)) l.in_cache,
          λ j o. ground (arith, w.cache j, l.cache_outside j, l.same.start, p.fits),
        )
    where
      header_at :
          (u : LogState)
          → Put t.start (encode t.block (t.cache t.start)) t u
          → u.disk s.start ≡ encode t.block (t.cache t.start)
      header_at u w = ground (arith, w.disk s.start, l.same.start)

  -- A transaction that reaches its header is finished, and one that does not leaves no trace.
  pub commit-Ends :
      0 < length s.block
      → Ends
          (Settled s.start s.size s.cache)
          (λ d.
            (s.budget < length s.block + length s.block + 2)
            × (StandsFor s.start s.size d s.disk ⊎ StandsFor s.start s.size d s.cache))
          (commit s)
  unfolding commit
  commit-Ends h = rw (lt→ltb 0 (length s.block) h) (
      Regions.andthen write_log-Logged
        (λ d k. (
          omega (arith, k.0),
          inl (old_StandsFor d (k.1 s.start (omega arith)) λ j o. k.1 j (omega (arith, o, p.fits))),
        ))
        λ t l.
          Regions.andthen (write_head-Stored t l) (λ d k. (omega (arith, k.0), inl k.1))
            λ u (st, b, e₁, e₂, e₃, held, cached).
              Regions.andthen (install_trans-Installed u e₁ e₃ p.fits p.outside held)
                (λ d k. (omega (arith, k.0), inr (s.block, Stored-KeptUnlisted st k.1)))
                λ v i.
                  Regions.mono
                    (write_head-Settled v (Stored-KeptUnlisted st (λ j n. ground (arith, i.disk j)))
                      (i.same.start ∙ e₁) (i.same.size ∙ e₂)
                      (λ j o. ground (arith, i.disk j, st.home j))
                      (λ j o. ground (arith, i.cache j, cached j)))
                    (λ d k. (omega (arith, k.0, i.budget), inr k.1)) (λ w q. q))

-- Two contents agree on every block outside the log.
abbrev pub Agree : LogState → Disk → Disk → Type 0
Agree s d e = (j : ℕ) → Outside s.start (s.start + s.size) j → d j ≡ e j

commit-empty : {s : LogState} → ltb 0 (length s.block) ≡ false → commit s ≡ done s
unfolding commit
commit-empty h = rw h

-- If power fails at any write of `commit`, and then again during any number of recoveries, the
-- first recovery with enough time left ends, and all home blocks on the disk have their contents
-- from before the transaction, or all have the new ones.
pub commit_atomic :
    {s : LogState} {d e : Disk} (n : ℕ)
    → Pending s
    → commit s ≡ crashed d
    → Restarts s.start s.size d e
    → s.size ≤ n
    → (t : LogState) × (initlog s.start s.size e n ≡ done t)
      × (Agree s t.disk s.disk ⊎ Agree s t.disk s.cache)
commit_atomic {s} {d} {e} n p c r h = elim (Bool-cases (ltb 0 (length s.block))) [
  | inl some ↦ recovered (Regions.Ends-crashed d (commit-Ends p (ltb→lt 0 _ some)) c).1
  | inr empty ↦ absurd (none_lost (sym (commit-empty empty) ∙ c))
]
  where
    none_lost : done s ≡ crashed d → ⊥
    none_lost q = cc

    after :
        {v : Disk}
        → StandsFor s.start s.size d v
        → (t : LogState) × (initlog s.start s.size e n ≡ done t) × Settled s.start s.size v t
    after st = initlog_done n (Restarts-StandsFor r st) h

    recovered :
        StandsFor s.start s.size d s.disk ⊎ StandsFor s.start s.size d s.cache
        → (t : LogState) × (initlog s.start s.size e n ≡ done t)
          × (Agree s t.disk s.disk ⊎ Agree s t.disk s.cache)
    recovered (inl st) = let (t, run, q) = after st in (t, run, inl q.disk)
    recovered (inr st) = let (t, run, q) = after st in (t, run, inr q.disk)

-- With power for all its writes, `commit` ends with the new contents of every home block on the
-- disk and with an empty log, ready for the next transaction.
pub commit_durable :
    {s : LogState}
    → Pending s
    → length s.block + length s.block + 2 ≤ s.budget
    → (t : LogState) × (commit s ≡ done t)
      × (t.block ≡ (if ltb 0 (length s.block) then [] else s.block))
      × Pending t
      × Agree s t.disk s.cache
      × Agree s t.cache s.cache
commit_durable {s} p h = elim (Bool-cases (ltb 0 (length s.block))) [
  | inl some ↦
      let (t, run, q) =
        Regions.Ends-done (commit-Ends p (ltb→lt 0 _ some)) (λ d k. omega (arith, k.0)) in
      (t, run, rw some q.empty, settled t q, q.disk, q.cache)
  | inr empty ↦ (
    s,
    commit-empty empty,
    rw empty,
    p,
    λ j o. sym (p.home j o (none_listed s.block empty j)),
    λ j o. refl,
  )
]
  where
    none_listed : (bs : List ℕ) → ltb 0 (length bs) ≡ false → (j : ℕ) → has j bs ≡ false
    none_listed [] e j = refl
    none_listed (b ∷ bs) e j = absurd (omega (arith, lt→ltb 0 (length (b ∷ bs)), bad e))
      where
        bad : ltb 0 (length (b ∷ bs)) ≡ false → ⊥
        bad e = ground arith

    settled : (t : LogState) → Settled s.start s.size s.cache t → Pending t
    settled t q = record {
      header = ap (λ k. decode (t.disk k)) q.place ∙ q.header;
      fits = rw q.empty (omega (arith, p.fits, q.room));
      outside = rw q.empty tt;
      home = λ j o n. ground (arith, q.disk j, q.cache j, q.place, q.room);
    }
