-- ===== src/Fs.antt =====
-- fs.c, the file system above the log: the parts are the block bitmap, the inode cache, inodes on the
-- disk, their contents, directories and path names. All of them read and write the cached blocks, as
-- bytes, and name the blocks they hand to `log_write`; `bread` and `brelse` around each use are not modelled.
pub mod Bits
pub mod Bytes
pub mod Inode
pub mod Dinode
pub mod Icache
pub mod Content
pub mod Path
pub mod Elements
pub mod Dir
pub mod Namex
pub mod Bitmap
pub mod Balloc
pub mod Bfree
use cs330_operating_systems.Base.{
  ℕ, zero, suc, ◌+◌, ◌-◌, ◌*◌, ◌/◌, ◌%◌, ◌^◌, Bool, true, false, not, ◌&&◌, ltb, leb, ◌==◌,
  if◌then◌else◌, Option, none, some, List, [], ◌∷◌, Outcome, ok, panic, out_of_fuel, update, has,
}
use Bits.{has_bit, set_bit, clear_bit}

abbrev pub bsize : ℕ
bsize = 512

-- bits of a block
abbrev pub bpb : ℕ
bpb = bsize * 8

-- a block's bytes
abbrev pub Block : Type 0
Block = ℕ → ℕ

pub record Superblock : Type 0 where
  pub size : ℕ
  pub nblocks : ℕ
  pub ninodes : ℕ
  pub nlog : ℕ
  pub logstart : ℕ
  pub inodestart : ℕ
  pub bmapstart : ℕ

-- The cached blocks and the blocks handed to `log_write` in this transaction.
pub record Fs : Type 0 where
  pub sb : Superblock
  pub block : ℕ → Block
  pub logged : List ℕ

-- BBLOCK
abbrev pub bblock : ℕ → Fs → ℕ
bblock b s = b / bpb + s.sb.bmapstart

-- a change of a block's bytes, and `log_write` of the block
abbrev pub write_block : ℕ → Block → Fs → Fs
write_block b bytes s = record s { block = update s.block b bytes; logged = b ∷ s.logged }

unfoldable pub bzero : ℕ → Fs → Fs
bzero b s = write_block b (λ i. 0) s

-- the inner loop of `balloc` at the bit `bi`, `n` bits being left
unfoldable pub find_bit : Block → ℕ → ℕ → Option ℕ
find_bit bytes zero bi = none
find_bit bytes (suc n) bi =
    if not (has_bit (bytes (bi / 8)) (bi % 8)) then some bi else find_bit bytes n (bi + 1)

-- `bp->data[bi/8] |= m`, and `&= ~m`
abbrev pub mark_bit : ℕ → Block → Block
mark_bit bi bytes = update bytes (bi / 8) (set_bit (bytes (bi / 8)) (bi % 8))

abbrev pub unmark_bit : ℕ → Block → Block
unmark_bit bi bytes = update bytes (bi / 8) (clear_bit (bytes (bi / 8)) (bi % 8))

-- `BPB` or the blocks that are left from `b` on
abbrev pub bits_at : ℕ → ℕ → ℕ
bits_at size b = if leb bpb (size - b) then bpb else size - b

-- `balloc` from the free bit found on
unfoldable pub take_bit : ℕ → ℕ → Fs → Outcome (ℕ × Fs)
unfolding bzero
take_bit b bi s =
    let c = bblock b s in ok (b + bi, bzero (b + bi) (write_block c (mark_bit bi (s.block c)) s))

-- the outer loop at `b`
unfoldable pub balloc_from : ℕ → ℕ → Fs → Outcome (ℕ × Fs)
unfolding find_bit take_bit
balloc_from zero b s = out_of_fuel
balloc_from (suc fuel) b s =
    let rest = balloc_from fuel (b + bpb) s in
    if ltb b s.sb.size
    then (elim (find_bit (s.block (bblock b s)) (bits_at s.sb.size b) 0) [
      | none ↦ rest
      | some bi ↦ take_bit b bi s
    ])
    else panic

unfoldable pub balloc : Fs → Outcome (ℕ × Fs)
unfolding balloc_from
balloc s = balloc_from (s.sb.size / bpb + 2) 0 s

unfoldable pub bfree : ℕ → Fs → Outcome Fs
bfree b s =
    let c = bblock b s in
    let bi = b % bpb in
    if not (has_bit (s.block c (bi / 8)) (bi % 8))
    then panic
    else ok (write_block c (unmark_bit bi (s.block c)) s)
