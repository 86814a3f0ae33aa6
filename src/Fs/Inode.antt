-- ===== src/Fs/Inode.antt =====
-- fs.c: inodes on the disk and in memory.
use cs330_operating_systems.Base.{
  ℕ, zero, suc, ◌+◌, ◌-◌, ◌*◌, ◌/◌, ◌%◌, Bool, true, false, ◌&&◌, ltb, ◌==◌, if◌then◌else◌, none,
  some, List, Outcome, ok, panic, ◌>>=◌, modify, find_index, update,
}
use cs330_operating_systems.Fs.{Block, Fs, write_block}
use cs330_operating_systems.Fs.Bytes.{get_le, put_le}

abbrev pub ndirect : ℕ
ndirect = 12

-- The lock of `struct inode` is left out; `ref` counts up without bound. A negative `short` is its
-- 16-bit pattern.
pub record Inode : Type 0 where
  pub dev : ℕ
  pub inum : ℕ
  pub ref : ℕ
  pub valid : Bool
  pub type : ℕ
  pub major : ℕ
  pub minor : ℕ
  pub nlink : ℕ
  pub size : ℕ
  pub addrs : ℕ → ℕ

-- IPB, IBLOCK, and the offset of an inode's `struct dinode` in its block
abbrev pub ipb : ℕ
ipb = 8

abbrev pub iblock : ℕ → Fs → ℕ
iblock i s = i / ipb + s.sb.inodestart

abbrev pub dinode_at : ℕ → ℕ
dinode_at i = i % ipb * 64

-- `memmove` of `n` words of `addrs`, from word `i` on
unfoldable pub put_words : Block → ℕ → ℕ → ℕ → (ℕ → ℕ) → Block
put_words bytes off i zero addrs = bytes
put_words bytes off i (suc n) addrs =
    put_words (put_le bytes (off + 4 * i) 4 (addrs i)) off (i + 1) n addrs

abbrev pub get_words : Block → ℕ → (ℕ → ℕ) → ℕ → ℕ
get_words bytes off addrs i = if ltb i (ndirect + 1) then get_le bytes (off + 4 * i) 4 else addrs i

-- the assignments to a `struct dinode` at `off`
unfoldable pub put_dinode : Block → ℕ → Inode → Block
unfolding put_words
put_dinode bytes off ip =
    let b₁ = put_le bytes off 2 ip.type in
    let b₂ = put_le b₁ (off + 2) 2 ip.major in
    let b₃ = put_le b₂ (off + 4) 2 ip.minor in
    let b₄ = put_le b₃ (off + 6) 2 ip.nlink in
    let b₅ = put_le b₄ (off + 8) 4 ip.size in put_words b₅ (off + 12) 0 (ndirect + 1) ip.addrs

unfoldable pub iupdate : Inode → Fs → Fs
unfolding put_dinode
iupdate ip s =
    let c = iblock ip.inum s in write_block c (put_dinode (s.block c) (dinode_at ip.inum) ip) s

-- the assignments from a `struct dinode` at `off`
abbrev pub get_dinode : Block → ℕ → Inode → Inode
get_dinode bytes off ip = record ip {
  type = get_le bytes off 2;
  major = get_le bytes (off + 2) 2;
  minor = get_le bytes (off + 4) 2;
  nlink = get_le bytes (off + 6) 2;
  size = get_le bytes (off + 8) 4;
  addrs = get_words bytes (off + 12) ip.addrs;
}

abbrev pub load_inode : Fs → Inode → Inode
load_inode s ip =
    get_dinode (s.block (iblock ip.inum s)) (dinode_at ip.inum) (record ip { valid = true })

-- `ilock` of an entry of the cache, after `acquiresleep`
unfoldable pub ilock : Inode → Fs → Outcome Inode
ilock ip s =
    if ltb ip.ref 1
    then panic
    else if ip.valid
    then ok ip
    else if (load_inode s ip).type == 0
    then panic
    else ok (load_inode s ip)

-- The inode cache `icache.inode`. An entry with no references is free.
abbrev pub is_cached : ℕ → ℕ → Inode → Bool
is_cached dev inum ip = ltb 0 ip.ref && (ip.dev == dev) && (ip.inum == inum)

abbrev pub is_unreferenced : Inode → Bool
is_unreferenced ip = ip.ref == 0

abbrev pub add_user : Inode → Inode
add_user ip = record ip { ref = ip.ref + 1 }

abbrev pub claim : ℕ → ℕ → Inode → Inode
claim dev inum ip = record ip { dev = dev; inum = inum; ref = 1; valid = false }

-- The result is the entry's place.
unfoldable pub iget : ℕ → ℕ → List Inode → Outcome (ℕ × List Inode)
unfolding find_index
iget dev inum inodes = elim (find_index (is_cached dev inum) inodes) [
  | some i ↦ ok (i, modify i add_user inodes)
  | none ↦ elim (find_index is_unreferenced inodes) [
    | none ↦ panic
    | some i ↦ ok (i, modify i (claim dev inum) inodes)
  ]
]

unfoldable pub idup : ℕ → List Inode → List Inode
idup i inodes = modify i add_user inodes

-- the end of `iput`
abbrev pub drop_user : Inode → Inode
drop_user ip = record ip { ref = ip.ref - 1 }

-- `memset(dip, 0, sizeof(*dip))`, then the type
unfoldable pub clear_bytes : Block → ℕ → ℕ → Block
clear_bytes bytes off zero = bytes
clear_bytes bytes off (suc n) = clear_bytes (update bytes off 0) (off + 1) n

abbrev pub fresh_dinode : Block → ℕ → ℕ → Block
fresh_dinode bytes off type = put_le (clear_bytes bytes off 64) off 2 type

abbrev pub disk_type : ℕ → Fs → ℕ
disk_type i s = get_le (s.block (iblock i s)) (dinode_at i) 2

-- the loop of `ialloc` at `inum`, `n` inodes being left
unfoldable pub ialloc_from : ℕ → ℕ → ℕ → ℕ → Fs → List Inode → Outcome (ℕ × Fs × List Inode)
unfolding clear_bytes
ialloc_from zero inum dev type s inodes = panic
ialloc_from (suc n) inum dev type s inodes =
    let rest = ialloc_from n (inum + 1) dev type s inodes in
    if disk_type inum s == 0
    then (let c = iblock inum s in
        let s₁ = write_block c (fresh_dinode (s.block c) (dinode_at inum) type) s in
        iget dev inum inodes >>= λ (i, inodes₁). ok (i, s₁, inodes₁))
    else rest

unfoldable pub ialloc : ℕ → ℕ → Fs → List Inode → Outcome (ℕ × Fs × List Inode)
unfolding ialloc_from
ialloc dev type s inodes = ialloc_from (s.sb.ninodes - 1) 1 dev type s inodes
