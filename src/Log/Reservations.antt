-- ===== src/Log/Reservations.antt =====
-- The system calls that share a transaction of log.c, and the room that each has reserved in the log.
use cs330_operating_systems.Base.{
  ℕ, suc, ◌+◌, ◌-◌, ◌*◌, ◌≤◌, ◌<◌, ◌≡◌, true, false, List, [], ◌∷◌, ◌++◌, arith, ◌==◌, Bool-cases,
  inl, inr, length, length-append, All, Outcome, ok,
}
use mathlib.Core.Path.{subst, sym}
use cs330_operating_systems.Log.{
  LogState, Io, done, ◌then_do◌, max_op_blocks, log_size, fill, begin_op, end_op,
}
use cs330_operating_systems.Log.Header.{Block}
use cs330_operating_systems.Log.Regions.{Ends, ends, stops}
use cs330_operating_systems.Log.Frame.{Keeps, commit-Keeps}
use cs330_operating_systems.Log.Transactions.{
  length-absorb, write_block, after_log_write, log_write-eq_ok, log_write-ok,
}

abbrev pub sum : List ℕ → ℕ
sum [] = 0
sum (r ∷ rs) = r + sum rs

sum-append : (xs ys : List ℕ) → sum (xs ++ ys) ≡ sum xs + sum ys
sum-append [] ys = omega arith
sum-append (x ∷ xs) ys = omega (arith, sum-append xs ys)

-- The system calls that are inside a transaction: for each, how many blocks it may still log.
pub record Traffic : Type 0 where
  pub log : LogState
  pub calls : List ℕ

-- One step of some system call. Each logs at most `max_op_blocks` blocks.
pub data Step : Traffic → Traffic → Type 0 where
  begins :
      {s t : LogState} {rs : List ℕ}
      → begin_op s ≡ (t, true)
      → Step (record { log = s; calls = rs }) (record { log = t; calls = max_op_blocks ∷ rs })
  waits :
      {s t : LogState} {rs : List ℕ}
      → begin_op s ≡ (t, false)
      → Step (record { log = s; calls = rs }) (record { log = t; calls = rs })
  logs :
      {s t : LogState} {rs rs' : List ℕ} (xs ys : List ℕ) (r b : ℕ) (blk : Block)
      → rs ≡ xs ++ suc r ∷ ys
      → rs' ≡ xs ++ r ∷ ys
      → write_block b blk s ≡ ok t
      → Step (record { log = s; calls = rs }) (record { log = t; calls = rs' })
  finishes :
      {s t : LogState} {rs rs' : List ℕ} (xs ys : List ℕ) (r : ℕ)
      → rs ≡ xs ++ r ∷ ys
      → rs' ≡ xs ++ ys
      → end_op s ≡ ok (done t)
      → Step (record { log = s; calls = rs }) (record { log = t; calls = rs' })

abbrev Capped : List ℕ → Type 0
Capped = All (λ r. r ≤ max_op_blocks)

sum-Capped : (rs : List ℕ) → Capped rs → sum rs ≤ length rs * max_op_blocks
sum-Capped [] h = omega arith
sum-Capped (r ∷ rs) h = omega (arith, sum-Capped rs h.1, h.0)

Capped-append : (xs ys : List ℕ) → Capped xs → Capped ys → Capped (xs ++ ys)
Capped-append [] ys h k = k
Capped-append (x ∷ xs) ys h k = (h.0, Capped-append xs ys h.1 k)

Capped-split : (xs ys : List ℕ) → Capped (xs ++ ys) → Capped xs × Capped ys
Capped-split [] ys h = (tt, h)
Capped-split (x ∷ xs) ys h = let (a, b) = Capped-split xs ys h.1 in ((h.0, a), b)

-- The log has room for all that the calls may still write.
pub record Reserved (s : LogState) (rs : List ℕ) : Type 0 where
  pub idle : s.committing ≡ false
  pub counted : s.outstanding ≡ length rs
  pub capped : All (λ r. r ≤ max_op_blocks) rs
  pub room : length s.block + sum rs ≤ log_size
  pub area : log_size < s.size

begins-Reserved :
    {s t : LogState} {rs : List ℕ}
    → begin_op s ≡ (t, true)
    → Reserved s rs
    → Reserved t (max_op_blocks ∷ rs)
unfolding begin_op
begins-Reserved {s} {t} {rs} h r = ground (arith, sum-Capped rs r.capped)

waits-same : {s t : LogState} → begin_op s ≡ (t, false) → t ≡ s
unfolding begin_op
waits-same h = ground arith

logs-Reserved :
    {s t : LogState} (xs ys : List ℕ) (r b : ℕ) (blk : Block)
    → write_block b blk s ≡ ok t
    → Reserved s (xs ++ suc r ∷ ys)
    → Reserved t (xs ++ r ∷ ys)
unfolding write_block
logs-Reserved {s} {t} xs ys r b blk h v =
    let (e, _, _, _) = log_write-eq_ok b (fill b blk s) h in
    let (cx, cy) = Capped-split xs (suc r ∷ ys) v.capped in
    subst (λ t. Reserved t (xs ++ r ∷ ys)) (sym e)
      (record {
        idle = v.idle;
        counted =
            omega (arith, v.counted, length-append xs (suc r ∷ ys), length-append xs (r ∷ ys));
        capped = Capped-append xs (r ∷ ys) cx (omega (arith, cy.0), cy.1);
        room = ground (
          arith,
          v.room,
          length-absorb b s.block,
          sum-append xs (suc r ∷ ys),
          sum-append xs (r ∷ ys),
        );
        area = v.area;
      })

-- What `end_op` does to the counters, whether it commits or not.
pub record Ended (s t : LogState) : Type 0 where
  pub idle : t.committing ≡ false
  pub outstanding : t.outstanding ≡ s.outstanding - 1
  pub size : t.size ≡ s.size
  pub block : length t.block ≤ length s.block

commits-Ended :
    {s t : LogState} {r : Io}
    → Ends
        (Keeps (record s { outstanding = s.outstanding - 1; committing = true }))
        (λ d. Unit {0})
        r
    → ◌≡◌ {A = Outcome Io}
        (ok (r then_do λ u. done (record u { committing = false })))
        (ok (done t))
    → Ended s t
commits-Ended (ends k) e = ground (arith, k)
commits-Ended (stops q) e = absurd (cc)

end_op-Ended :
    (s : LogState) {t : LogState} → s.committing ≡ false → end_op s ≡ ok (done t) → Ended s t
unfolding end_op
end_op-Ended s idle h = elim (Bool-cases ((s.outstanding - 1) == 0)) [
  | inl last ↦
      commits-Ended (commit-Keeps (record s { outstanding = s.outstanding - 1; committing = true }))
        (rw (idle, last) at h)
  | inr more ↦ ground arith
]

finishes-Reserved :
    {s t : LogState} (xs ys : List ℕ) (r : ℕ)
    → end_op s ≡ ok (done t)
    → Reserved s (xs ++ r ∷ ys)
    → Reserved t (xs ++ ys)
finishes-Reserved {s} {t} xs ys r h v =
    let (cx, cy) = Capped-split xs (r ∷ ys) v.capped in
    let e = end_op-Ended s v.idle h in
    record {
      idle = e.idle;
      counted =
          omega (arith, v.counted, e.outstanding, length-append xs (r ∷ ys), length-append xs ys);
      capped = Capped-append xs ys cx cy.1;
      room = omega (arith, v.room, e.block, sum-append xs (r ∷ ys), sum-append xs ys);
      area = omega (arith, v.area, e.size);
    }

abbrev pub IsReserved : Traffic → Type 0
IsReserved c = Reserved c.log c.calls

-- Each step of a system call keeps the reservation: the log's listed blocks and those that the
-- calls may still write are at most `log_size` together, and `outstanding` counts the calls.
pub Step-Reserved : {c d : Traffic} → Step c d → IsReserved c → IsReserved d
Step-Reserved (begins h) r = begins-Reserved h r
Step-Reserved (waits h) r = rw (waits-same h) r
Step-Reserved (logs xs ys r b blk e e' h) v = rw e' (logs-Reserved xs ys r b blk h (rw e at v))
Step-Reserved (finishes xs ys r e e' h) v = rw e' (finishes-Reserved xs ys r h (rw e at v))

pub data Reach (c : Traffic) : Traffic → Type 0 where
  here : Reach c c
  next : {d e : Traffic} → Reach c d → Step d e → Reach c e

Reach-Reserved : {c d : Traffic} → IsReserved c → Reach c d → IsReserved d
Reach-Reserved v here = v
Reach-Reserved v (next r s) = Step-Reserved s (Reach-Reserved v r)

-- However the system calls interleave, a call that has logged fewer than `max_op_blocks` blocks
-- can log another one: `log_write` does not panic, if the log area has room for `log_size` blocks
-- and the header.
pub log_write_admitted :
    {c d : Traffic} (b : ℕ) (blk : Block)
    → IsReserved c
    → Reach c d
    → 0 < sum d.calls
    → (t : LogState) × (write_block b blk d.log ≡ ok t)
unfolding write_block
log_write_admitted {c} {d} b blk v r h =
    let w = Reach-Reserved v r in
    (
      after_log_write b (fill b blk d.log),
      log_write-ok b (fill b blk d.log) (omega (arith, w.room)) (omega (arith, w.room, w.area))
          (omega (arith, w.counted, h, sum-Capped d.calls w.capped)),
    )
