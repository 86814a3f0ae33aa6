-- ===== src/Fs/Dir/Linked.antt =====
-- `dirlink` of fs.c, of a name that the directory does not have.
use Prim.Native.Nat.{max}
use cs330_operating_systems.Base.{
  ℕ, ◌+◌, ◌%◌, ◌<◌, ◌≡◌, ◌≢◌, ◌⊎◌, Bool, true, List, length, Option, none, Outcome, ok, panic,
}
use cs330_operating_systems.Fs.{Block, Fs}
use cs330_operating_systems.Fs.Inode.{Inode}
use cs330_operating_systems.Fs.Content.Owned.{IsOwned}
use cs330_operating_systems.Fs.Content.View.{byte_at}
use cs330_operating_systems.Fs.Dir.{dirent_size, dirent_inum, is_entry, free_offset}
use cs330_operating_systems.Fs.Dir.Search.{entry_at}

-- The directory has the name at `off`, with this number, and its other entries as before.
pub record Linked (name : ℕ → ℕ) (inum off size : ℕ) (view : Block) (dp' : Inode) (s' : Fs)
    : Type 0 where
  pub owned : IsOwned dp' s'
  pub number : dirent_inum (entry_at (byte_at dp' s') off) ≡ inum
  pub named : is_entry name (entry_at (byte_at dp' s') off) ≡ true
  pub length : dp'.size ≡ max size (off + dirent_size)
  pub others :
      (q : ℕ)
      → q % dirent_size ≡ 0
      → q < size
      → q ≢ off
      → entry_at (byte_at dp' s') q ≡ entry_at view q

-- How adding the entry can end: a panic, if no entry is free; or the entry is at the first free place.
abbrev pub Adds :
    (ℕ → ℕ) → ℕ → Block → ℕ → Option (ℕ × List ℕ) → Inode → Outcome (Bool × Inode × Fs) → Type 0
Adds name inum view size r dp o =
    ((o ≡ panic) × (r ≡ none))
    ⊎ ((dp' : Inode) × (s' : Fs) × (o ≡ ok (true, dp', s'))
        × Linked name inum (free_offset dp r) size view dp' s')
