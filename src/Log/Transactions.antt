-- ===== src/Log/Transactions.antt =====
-- `log_write` of log.c: the block that is recorded, and the log that stays ready for a commit.
use cs330_operating_systems.Base.{
  ℕ, ◌+◌, ◌-◌, ◌≤◌, ◌<◌, ◌≡◌, refl, Bool, true, false, ◌||◌, List, [], ◌∷◌, arith, ◌==◌,
  if◌then◌else◌, length, has, All, Distinct, Outcome, ok,
}
use mathlib.Core.Path.{subst, sym}
use cs330_operating_systems.Log.{LogState, log_size, fill, absorb, log_write}
use cs330_operating_systems.Log.Header.{Block}
use cs330_operating_systems.Log.Commit.{Pending}
use cs330_operating_systems.Log.Regions.{Outside}

has-absorb : (b : ℕ) (bs : List ℕ) (j : ℕ) → has j (absorb b bs) ≡ ((j == b) || has j bs)
unfolding absorb
has-absorb b [] j = ground arith
has-absorb b (c ∷ cs) j = ground (arith, has-absorb b cs j)

-- An absorbed block takes no new slot.
pub length-absorb :
    (b : ℕ) (bs : List ℕ) → length (absorb b bs) ≡ (if has b bs then length bs else length bs + 1)
unfolding absorb
length-absorb b [] = omega arith
length-absorb b (c ∷ cs) = ground (arith, length-absorb b cs)

All-absorb {ℓ} : (P : ℕ → Type ℓ) (b : ℕ) (bs : List ℕ) → P b → All P bs → All P (absorb b bs)
unfolding absorb
All-absorb P b [] h hs = (h, tt)
All-absorb P b (c ∷ cs) h hs = go (All-absorb P b cs h hs.1) (c == b)
  where
    go : All P (absorb b cs) → (t : Bool) → All P (if t then b ∷ cs else c ∷ absorb b cs)
    go rest true = (h, hs.1)
    go rest false = (hs.0, rest)

pub absorb-Distinct : (b : ℕ) (bs : List ℕ) → Distinct bs → Distinct (absorb b bs)
unfolding absorb
absorb-Distinct b [] h = ground arith
absorb-Distinct b (c ∷ cs) h = ground (arith, has-absorb b cs c, absorb-Distinct b cs)

-- A caller's change of a block: assign to `b->data`, then `log_write(b)`.
unfoldable pub write_block : ℕ → Block → LogState → Outcome LogState
write_block b blk s = log_write b (fill b blk s)

-- the state after a `log_write` that does not panic
abbrev pub after_log_write : ℕ → LogState → LogState
after_log_write b s = record s {
  block = absorb b s.block;
  dirty = λ j. if j == b then true else s.dirty j;
}

pub log_write-eq_ok :
    (b : ℕ) (s : LogState) {t : LogState}
    → log_write b s ≡ ok t
    → (t ≡ after_log_write b s)
      × (length s.block < log_size)
      × (length s.block < s.size - 1)
      × (1 ≤ s.outstanding)
unfolding log_write
log_write-eq_ok b s h = ground arith

pub log_write-ok :
    (b : ℕ) (s : LogState)
    → length s.block < log_size
    → length s.block < s.size - 1
    → 1 ≤ s.outstanding
    → log_write b s ≡ ok (after_log_write b s)
unfolding log_write
log_write-ok b s h₁ h₂ h₃ = ground arith

-- Changing a home block within a transaction keeps the log ready to commit, records the block
-- once, changes the cached contents of that block alone, and leaves the disk alone.
pub write_block-Pending :
    (b : ℕ) (blk : Block) {s t : LogState}
    → Pending s
    → Outside s.start (s.start + s.size) b
    → write_block b blk s ≡ ok t
    → Pending t
      × (has b t.block ≡ true)
      × ((j : ℕ) → t.cache j ≡ (if j == b then blk else s.cache j))
      × ((j : ℕ) → t.disk j ≡ s.disk j)
unfolding write_block
write_block-Pending b blk {s} {t} p o h =
    let (e, _, short, _) = log_write-eq_ok b (fill b blk s) h in
    subst
      (λ t.
        Pending t
        × (has b t.block ≡ true)
        × ((j : ℕ) → t.cache j ≡ (if j == b then blk else s.cache j))
        × ((j : ℕ) → t.disk j ≡ s.disk j))
      (sym e)
      (
        record {
          header = p.header;
          fits = ground (arith, length-absorb b s.block);
          outside = All-absorb (Outside s.start (s.start + s.size)) b s.block o p.outside;
          home = λ j q n. ground (arith, p.home j, has-absorb b s.block j);
        },
        ground (arith, has-absorb b s.block b),
        λ j. refl,
        λ j. refl,
      )
