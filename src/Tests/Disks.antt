-- ===== src/Tests/Disks.antt =====
-- The file system on a disk of 16 blocks: block 2 has the inodes, block 3 the bitmap, and block 4 is
-- the first block of inode 1, a file of 3 bytes.
use mathlib.Core.Path.{subst}
use Prim.Native.Nat.{min}
use cs330_operating_systems.Base.{
  ℕ, ◌+◌, ◌-◌, ◌^◌, ◌≤◌, ◌<◌, ◌≡◌, ◌≢◌, ◌⊎◌, refl, sym, arith, true, false, ◌==◌, if◌then◌else◌,
  List, [], ◌∷◌, none, some, ok, panic,
}
use cs330_operating_systems.Fs.{
  Block, Fs, Superblock, balloc, bfree, write_block, bzero, find_bit, take_bit, balloc_from,
}
use cs330_operating_systems.Fs.Bits.{has_bit}
use cs330_operating_systems.Fs.Bitmap.{is_used}
use cs330_operating_systems.Fs.Balloc.{taken, IsBitmap, Allocated, balloc-Allocated}
use cs330_operating_systems.Fs.Bfree.{balloc-bfree}
use cs330_operating_systems.Fs.Inode.{Inode, iupdate, ilock, load_inode}
use cs330_operating_systems.Fs.Dinode.{Fits, SameDinode, iupdate-ilock}
use cs330_operating_systems.Fs.Content.{
  bmap, ensure_addr, write_from, put_bytes, get_bytes, writei_file, readi_file,
}
use cs330_operating_systems.Fs.Content.Owned.{slot_addr, slot_for, IsFileBlock, IsOwned}
use cs330_operating_systems.Fs.Content.Ensure.{Ensured}
use cs330_operating_systems.Fs.Content.Bmap.{AlmostFull, bmap-Ensured}
use cs330_operating_systems.Fs.Content.View.{byte_at}
use cs330_operating_systems.Fs.Content.Read.{Hole, Holds, readi_file-Holds}
use cs330_operating_systems.Fs.Content.Grow.{writei_file-readi_file}
use cs330_operating_systems.Fs.Dir.Linked.{Linked}

abbrev small_sb : Superblock
small_sb = record {
  size = 16;
  nblocks = 12;
  ninodes = 8;
  nlog = 0;
  logstart = 2;
  inodestart = 2;
  bmapstart = 3;
}

-- the first five blocks are in use
abbrev small_blocks : ℕ → Block
small_blocks b i = if b == 3 then if i == 0 then 31 else 0 else if b == 4 then 65 + i else 0

abbrev small_disk : Fs
small_disk = record { sb = small_sb; block = small_blocks; logged = [] }

bitmap_used : is_used 3 small_disk ≡ true
unfolding has_bit
bitmap_used = refl

small_disk-IsBitmap : IsBitmap small_disk
small_disk-IsBitmap = record {
  kept = λ b j h i clear e.
      let same : 3 ≡ b = omega (arith, e, i) in
      absurd (cc (bitmap_used, subst (λ x. is_used x small_disk ≡ false) (sym same) clear));
}

balloc-Allocated_example :
    ((balloc small_disk ≡ panic) × ((j : ℕ) → j < 16 → is_used j small_disk ≡ true))
    ⊎ ((b : ℕ) × (s' : Fs) × (balloc small_disk ≡ ok (b, s')) × Allocated small_disk b s')
balloc-Allocated_example = balloc-Allocated small_disk small_disk-IsBitmap

abbrev one_file : Inode
one_file = record {
  dev = 1;
  inum = 1;
  ref = 1;
  valid = true;
  type = 2;
  major = 0;
  minor = 0;
  nlink = 1;
  size = 3;
  addrs = λ i. if i == 0 then 4 else 0;
}

one_slot : (i : ℕ) → slot_addr i one_file small_disk ≡ (if i == 0 then 4 else 0)
one_slot i = ground arith

used_0 : is_used 0 small_disk ≡ true
unfolding has_bit
used_0 = refl

used_2 : is_used 2 small_disk ≡ true
unfolding has_bit
used_2 = refl

used_4 : is_used 4 small_disk ≡ true
unfolding has_bit
used_4 = refl

used-IsFileBlock : (b : ℕ) → b < 5 → b ≢ 3 → is_used b small_disk ≡ true → IsFileBlock b small_disk
used-IsFileBlock b h n u = record {
  in_range = omega (arith, h);
  used = u;
  no_bitmap = λ j l e. n (omega (arith, e, l));
}

one_file-IsOwned : IsOwned one_file small_disk
one_file-IsOwned = record {
  bitmap = small_disk-IsBitmap;
  boot = used_0;
  small = omega arith;
  blocks = λ i h n.
      let e : slot_addr i one_file small_disk ≡ 4 = ground (arith, one_slot i, n) in
      subst (λ c. IsFileBlock c small_disk) (sym e)
        (used-IsFileBlock 4 (omega arith) (omega arith) used_4);
  apart = λ i j h h' n e. ground (arith, one_slot i, one_slot j, n, e);
  inode_block = used-IsFileBlock 2 (omega arith) (omega arith) used_2;
  no_inode_block = λ i h n e. ground (arith, one_slot i, n, e);
}

bmap-Ensured_example :
    ((bmap 20 one_file small_disk ≡ panic)
      × (slot_addr (slot_for 20) one_file small_disk ≡ 0)
      × AlmostFull small_disk)
    ⊎ ((a : ℕ) × (ip' : Inode) × (s' : Fs) × (bmap 20 one_file small_disk ≡ ok (a, ip', s'))
        × Ensured (slot_for 20) one_file small_disk a ip' s')
bmap-Ensured_example = bmap-Ensured 20 one_file small_disk one_file-IsOwned (omega arith)

readi_file-Holds_example :
    ((readi_file 1 7 one_file small_disk ≡ ok (none, one_file, small_disk))
      × ((3 < 1) ⊎ (2 ^ 32 ≤ 1 + 7)))
    ⊎ ((1 ≤ 3)
        × (((readi_file 1 7 one_file small_disk ≡ panic)
              × Hole one_file small_disk 1 (min 7 (3 - 1)))
            ⊎ ((ip' : Inode) × (s' : Fs) × (readi_file 1 7 one_file small_disk
                  ≡ ok (some (get_bytes (byte_at one_file small_disk) 1 (min 7 (3 - 1))), ip', s'))
                × Holds (byte_at one_file small_disk) one_file small_disk ip' s')))
readi_file-Holds_example =
    readi_file-Holds 1 7 one_file small_disk one_file-IsOwned (omega arith) (omega arith)

abbrev four_bytes : List ℕ
four_bytes = 10 ∷ 20 ∷ 30 ∷ 40 ∷ []

one_file-Fits : Fits one_file
one_file-Fits = record {
  type = omega arith;
  major = omega arith;
  minor = omega arith;
  nlink = omega arith;
  size = omega arith;
  addrs = λ i. ground arith;
}

-- another entry of the inode cache, not read yet
abbrev stale : Inode
stale = record one_file { valid = false; type = 0; size = 0; addrs = λ i. 0 }

iupdate-ilock_example :
    ((stale.inum ≡ one_file.inum)
      → (jp' : Inode) × (ilock stale (iupdate one_file small_disk) ≡ ok jp')
        × SameDinode one_file jp')
    × ((stale.inum ≢ one_file.inum)
        → SameDinode (load_inode small_disk stale) (load_inode (iupdate one_file small_disk) stale))
iupdate-ilock_example =
    iupdate-ilock one_file stale small_disk one_file-Fits (omega arith) (omega arith) refl

abbrev empty_entry : Inode
empty_entry = record stale { dev = 0; inum = 0; ref = 0 }

-- block 5 is the first that is free
allocated : balloc small_disk ≡ ok (5, taken 5 small_disk)
unfolding balloc balloc_from find_bit take_bit bzero has_bit
allocated = refl

balloc-bfree_example :
    (s'' : Fs) × (bfree 5 (taken 5 small_disk) ≡ ok s'')
    × ((j : ℕ) → j < 16 → is_used j s'' ≡ is_used j small_disk)
    × (bfree 5 s'' ≡ panic)
balloc-bfree_example = balloc-bfree small_disk small_disk-IsBitmap allocated

-- one byte in the middle of the file
abbrev with_byte : Fs
with_byte = write_block 4 (put_bytes (small_blocks 4) 1 (9 ∷ [])) small_disk

wrote : writei_file 1 (9 ∷ []) one_file small_disk ≡ ok (true, one_file, with_byte)
unfolding writei_file write_from bmap ensure_addr
wrote = refl

writei_file-readi_file_example :
    (ip' : Inode) × (s' : Fs) × (readi_file 1 1 one_file with_byte ≡ ok (some (9 ∷ []), ip', s'))
    × Holds (byte_at one_file with_byte) one_file with_byte ip' s'
writei_file-readi_file_example =
    writei_file-readi_file 1 (9 ∷ []) one_file small_disk one_file-IsOwned (omega arith)
      (omega arith) wrote

-- the file's block as a directory of one entry, whose name has the bytes from 67 on
abbrev one_dir : Inode
one_dir = record one_file { type = 1; size = 16 }

abbrev from_67 : ℕ → ℕ
from_67 i = 67 + i

-- "/a//b"
abbrev two_names : List ℕ
two_names = 47 ∷ 97 ∷ 47 ∷ 47 ∷ 98 ∷ []

abbrev from_97 : ℕ → ℕ
from_97 i = 97 + i
