-- ===== src/Log.antt =====
-- log.c, the write-ahead log of the file system, over the block view that bio.c gives it.
pub mod Header
pub mod Regions
pub mod Loops
pub mod Commit
pub mod Recovery
pub mod Frame
pub mod Transactions
pub mod Reservations
use cs330_operating_systems.Base.{
  ℕ, zero, suc, ◌+◌, ◌-◌, ◌*◌, Bool, true, false, not, ◌||◌, List, [], ◌∷◌, ◌++◌, ltb, leb, ◌==◌,
  if◌then◌else◌, length, update, has, Outcome, ok, panic,
}
use Header.{Block, encode, decode}

abbrev pub max_op_blocks : ℕ
max_op_blocks = 10

abbrev pub log_size : ℕ
log_size = max_op_blocks * 3

abbrev pub Disk : Type 0
Disk = ℕ → Block

-- `struct log`, the disk, and what `bread` returns for each block (its cached copy).
-- `block` lists `lh.block[0 .. lh.n)`. `budget` is how many block writes the disk completes
-- before the machine loses power.
pub record LogState : Type 0 where
  pub start : ℕ
  pub size : ℕ
  pub outstanding : ℕ
  pub committing : Bool
  pub block : List ℕ
  pub disk : Disk
  pub cache : Disk
  pub dirty : ℕ → Bool
  pub budget : ℕ

-- A run of the log code either ends, or loses power and leaves only the disk.
pub data Io : Type 0 where
  done : LogState → Io
  crashed : Disk → Io

infixl 5 ◌then_do◌
abbrev pub ◌then_do◌ : Io → (LogState → Io) → Io
(done s) then_do k = k s
(crashed d) then_do k = crashed d

-- `bwrite` of a block: `iderw` copies the buffer to the disk and clears B_DIRTY.
unfoldable pub bwrite : ℕ → LogState → Io
bwrite b s = elim s.budget [
  | zero ↦ crashed s.disk
  | suc left ↦ done (record s {
    disk = update s.disk b (s.cache b);
    dirty = update s.dirty b false;
    budget = left;
  })
]

-- assignment to a buffer's data
abbrev pub fill : ℕ → Block → LogState → LogState
fill b blk s = record s { cache = update s.cache b blk }

-- The loops of `install_trans` and `write_log` at `tail`, over the blocks that are left;
-- `at` is `log.start + tail + 1`.
unfoldable pub install_from : ℕ → List ℕ → LogState → Io
install_from at [] s = done s
install_from at (b ∷ bs) s =
    bwrite b (fill b (s.cache at) s) then_do λ t. install_from (at + 1) bs t

unfoldable pub install_trans : LogState → Io
unfolding install_from
install_trans s = install_from (s.start + 0 + 1) s.block s

unfoldable pub write_log_from : ℕ → List ℕ → LogState → Io
write_log_from at [] s = done s
write_log_from at (b ∷ bs) s =
    bwrite at (fill at (s.cache b) s) then_do λ t. write_log_from (at + 1) bs t

unfoldable pub write_log : LogState → Io
unfolding write_log_from
write_log s = write_log_from (s.start + 0 + 1) s.block s

unfoldable pub read_head : LogState → LogState
read_head s = record s { block = decode (s.cache s.start) }

unfoldable pub write_head : LogState → Io
write_head s = bwrite s.start (fill s.start (encode s.block (s.cache s.start)) s)

unfoldable pub recover_from_log : LogState → Io
recover_from_log s = install_trans (read_head s) then_do λ t. write_head (record t { block = [] })

-- What `initlog` finds after a restart on disk `d`: the log's place comes from the superblock,
-- and nothing is cached, so each `bread` reads the disk.
abbrev pub restart : ℕ → ℕ → Disk → ℕ → LogState
restart start size d budget = record {
  start = start;
  size = size;
  outstanding = 0;
  committing = false;
  block = [];
  disk = d;
  cache = d;
  dirty = λ b. false;
  budget = budget;
}

unfoldable pub initlog : ℕ → ℕ → Disk → ℕ → Io
initlog start size d budget = recover_from_log (restart start size d budget)

-- the body of `commit`'s `if`
unfoldable pub commit_body : LogState → Io
commit_body s = write_log s then_do λ t.
    write_head t then_do λ u. install_trans u then_do λ v. write_head (record v { block = [] })

unfoldable pub commit : LogState → Io
unfolding commit_body
commit s = if ltb 0 (length s.block) then commit_body s else done s

-- `begin_op` goes round its loop once: `true` when the operation may start, `false` when it sleeps.
unfoldable pub begin_op : LogState → LogState × Bool
begin_op s =
    if s.committing
    then (s, false)
    else if ltb log_size (length s.block + (s.outstanding + 1) * max_op_blocks)
    then (s, false)
    else (record s { outstanding = s.outstanding + 1 }, true)

-- `end_op`; `outstanding` is at least 1 when it is called, so truncated `-` is exact. A caller that
-- waits in `begin_op` may try again at any time, so its wakeups leave no trace in the state.
unfoldable pub end_op : LogState → Outcome Io
unfolding commit
end_op s =
    let t = record s { outstanding = s.outstanding - 1 } in
    if t.committing
    then panic
    else if t.outstanding == 0
    then ok (
        commit (record t { committing = true }) then_do λ u. done (record u { committing = false }))
    else ok (done t)

-- `log.lh.block[i] = b->blockno` after the search loop: the slot found, or a new one.
unfoldable pub absorb : ℕ → List ℕ → List ℕ
absorb b [] = b ∷ []
absorb b (c ∷ cs) = if c == b then b ∷ cs else c ∷ absorb b cs

unfoldable pub log_write : ℕ → LogState → Outcome LogState
unfolding absorb
log_write b s =
    if leb log_size (length s.block) || leb (s.size - 1) (length s.block)
    then panic
    else if ltb s.outstanding 1
    then panic
    else ok (record s { block = absorb b s.block; dirty = update s.dirty b true })
