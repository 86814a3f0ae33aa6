-- ===== src/Tests/Logs.antt =====
-- log.c on a log of 31 blocks at block 2, with one block, 40, to be written.
use cs330_operating_systems.Base.{
  ℕ, ◌≡◌, ◌⊎◌, inr, refl, true, false, List, [], ◌∷◌, arith, update, ok,
}
use cs330_operating_systems.Log.{
  Disk, LogState, Io, done, crashed, bwrite, install_from, install_trans, write_log_from, write_log,
  write_head, commit_body, commit, begin_op, absorb, log_write, initlog,
}
use cs330_operating_systems.Log.Header.{Block, decode}
use cs330_operating_systems.Log.Commit.{Pending, Agree, commit_atomic, commit_durable}
use cs330_operating_systems.Log.Recovery.{StandsFor, here, Settled, initlog_done}
use cs330_operating_systems.Log.Transactions.{write_block}
use cs330_operating_systems.Log.Reservations.{
  Traffic, Step, begins, Reach, next, IsReserved, log_write_admitted,
}

abbrev zeros : Disk
zeros b i = 0

abbrev sevens : Block
sevens i = 7

-- `n` block writes are left before the power fails
abbrev logging : ℕ → List ℕ → ℕ → LogState
logging n bs outstanding = record {
  start = 2;
  size = 31;
  outstanding = outstanding;
  committing = false;
  block = bs;
  disk = zeros;
  cache = update zeros 40 sevens;
  dirty = λ b. false;
  budget = n;
}

logging-Pending : (n : ℕ) → Pending (logging n (40 ∷ []) 1)
unfolding decode
logging-Pending n = record {
  header = refl;
  fits = omega arith;
  outside = (inr (omega arith), tt);
  home = λ j o h. ground arith;
}

abbrev disk_of : Io → Disk
disk_of (done s) = s.disk
disk_of (crashed d) = d

-- the disk when the power fails just after the header was written
abbrev lost : Disk
lost = disk_of (commit (logging 2 (40 ∷ []) 1))

loses_power : commit (logging 2 (40 ∷ []) 1) ≡ crashed lost
unfolding commit commit_body write_log write_log_from write_head install_trans install_from bwrite
loses_power = refl

commit_atomic_example :
    (t : LogState) × (initlog 2 31 lost 40 ≡ done t)
    × (Agree (logging 2 (40 ∷ []) 1) t.disk zeros
        ⊎ Agree (logging 2 (40 ∷ []) 1) t.disk (update zeros 40 sevens))
commit_atomic_example = commit_atomic 40 (logging-Pending 2) loses_power here (omega arith)

commit_durable_example :
    (t : LogState) × (commit (logging 9 (40 ∷ []) 1) ≡ done t)
    × (t.block ≡ [])
    × Pending t
    × Agree (logging 9 (40 ∷ []) 1) t.disk (update zeros 40 sevens)
    × Agree (logging 9 (40 ∷ []) 1) t.cache (update zeros 40 sevens)
commit_durable_example = commit_durable (logging-Pending 9) (omega arith)

zeros-StandsFor : StandsFor 2 31 zeros zeros
unfolding decode
zeros-StandsFor = (
  [],
  record { header = refl; fits = omega arith; outside = tt; logged = tt; home = λ j o h. refl },
)

initlog_done_example : (t : LogState) × (initlog 2 31 zeros 40 ≡ done t) × Settled 2 31 zeros t
initlog_done_example = initlog_done 40 zeros-StandsFor (omega arith)

written :
    write_block 41 sevens (logging 9 (40 ∷ []) 1)
    ≡ ok (record (logging 9 (40 ∷ 41 ∷ []) 1) {
      cache = update (update zeros 40 sevens) 41 sevens;
      dirty = update (λ b. false) 41 true;
    })
unfolding write_block log_write absorb
written = refl

abbrev quiet : Traffic
quiet = record { log = logging 9 [] 0; calls = [] }

abbrev busy : Traffic
busy = record { log = logging 9 [] 1; calls = 10 ∷ [] }

quiet-IsReserved : IsReserved quiet
quiet-IsReserved = record {
  idle = refl;
  counted = refl;
  capped = tt;
  room = omega arith;
  area = omega arith;
}

begun : Step quiet busy
unfolding begin_op
begun = begins refl

log_write_admitted_example : (t : LogState) × (write_block 50 sevens (logging 9 [] 1) ≡ ok t)
log_write_admitted_example =
    log_write_admitted 50 sevens quiet-IsReserved (next Reach.here begun) (omega arith)

abbrev short : List ℕ → ℕ → LogState
short bs outstanding = record (logging 9 bs outstanding) { size = 30 }
