-- ===== src/Fs/Content/Owned.antt =====
-- The blocks of an inode: which they are, and that no two of its slots have the same one.
use cs330_operating_systems.Base.{
  ℕ, ◌+◌, ◌-◌, ◌^◌, ◌≤◌, ◌<◌, ◌≡◌, ◌≢◌, true, ◌==◌, ltb, if◌then◌else◌,
}
use cs330_operating_systems.Fs.{Fs, bblock}
use cs330_operating_systems.Fs.Inode.{Inode, ndirect, iblock}
use cs330_operating_systems.Fs.Bitmap.{is_used}
use cs330_operating_systems.Fs.Balloc.{IsBitmap}
use cs330_operating_systems.Fs.Content.{entry, maxfile}

-- The slots of an inode: the direct blocks, the indirect block at `ndirect`, and behind it the entries
-- of the indirect block.
abbrev pub slot_addr : ℕ → Inode → Fs → ℕ
slot_addr i ip s =
    if ltb i (ndirect + 1)
    then ip.addrs i
    else if ip.addrs ndirect == 0
    then 0
    else entry (ip.addrs ndirect) (i - (ndirect + 1)) s

-- the slot for block `bn` of the file
abbrev pub slot_for : ℕ → ℕ
slot_for bn = if ltb bn ndirect then bn else bn + 1

abbrev pub slots : ℕ
slots = maxfile + 1

-- A block of a file is in use and no block of the bitmap; so is one that inodes are in.
pub record IsFileBlock (a : ℕ) (s : Fs) : Type 0 where
  pub in_range : a < s.sb.size
  pub used : is_used a s ≡ true
  pub no_bitmap : (j : ℕ) → j < s.sb.size → bblock j s ≢ a

pub record IsOwned (ip : Inode) (s : Fs) : Type 0 where
  pub bitmap : IsBitmap s
  pub boot : is_used 0 s ≡ true
  pub small : s.sb.size ≤ 2 ^ 32
  pub blocks : (i : ℕ) → i < slots → slot_addr i ip s ≢ 0 → IsFileBlock (slot_addr i ip s) s
  pub apart :
      (i j : ℕ)
      → i < slots
      → j < slots
      → slot_addr i ip s ≢ 0
      → slot_addr i ip s ≡ slot_addr j ip s
      → i ≡ j
  pub inode_block : IsFileBlock (iblock ip.inum s) s
  pub no_inode_block :
      (i : ℕ) → i < slots → slot_addr i ip s ≢ 0 → slot_addr i ip s ≢ iblock ip.inum s
