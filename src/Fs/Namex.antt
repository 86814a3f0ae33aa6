-- ===== src/Fs/Namex.antt =====
-- fs.c: from a path name to an inode.
use cs330_operating_systems.Base.{
  ℕ, zero, suc, ◌+◌, Bool, true, false, not, ◌&&◌, ◌==◌, if◌then◌else◌, Option, none, some, List,
  [], ◌∷◌, length, get_elem?, modify, Outcome, ok, panic, out_of_fuel, ◌>>=◌,
}
use cs330_operating_systems.Fs.{Fs}
use cs330_operating_systems.Fs.Inode.{Inode, iget, idup, ilock}
use cs330_operating_systems.Fs.Path.{slash, skipelem}
use cs330_operating_systems.Fs.Dir.{t_dir, byte_of, dirlookup, iput_at}

-- the disk and the inode cache
abbrev pub Files : Type 0
Files = Fs × List Inode

abbrev pub put_at : ℕ → Inode → List Inode → List Inode
put_at i ip = modify i (λ x. ip)

-- `ilock` of the entry at place `i`; the caches's place is never the null pointer
unfoldable pub lock_at : ℕ → Files → Outcome (Inode × Files)
unfolding ilock
lock_at i (s, inodes) = elim (get_elem? inodes i) [
  | none ↦ panic
  | some ip ↦ ilock ip s >>= λ ip₁. ok (ip₁, (s, put_at i ip₁ inodes))
]

-- `iunlockput`, and the null pointer as a result
unfoldable pub give_up : ℕ → Files → Outcome (Option (ℕ × List ℕ) × Files)
unfolding iput_at
give_up i (s, inodes) = iput_at i s inodes >>= λ (s₁, inodes₁). ok (none, (s₁, inodes₁))

abbrev pub is_end : List ℕ → Bool
is_end [] = true
is_end _ = false

-- One round of `namex`: the inode at `i` is not a directory, is the parent asked for, or has an entry
-- with the name, at whose inode the next round goes on.
pub data Round : Type 0 where
  stopped : Option (ℕ × List ℕ) → Files → Round
  goes_on : ℕ → Files → Round

unfoldable pub look_in : ℕ → List ℕ → Inode → Files → Outcome Round
unfolding dirlookup iput_at
look_in i name ip (s, inodes) =
    dirlookup (byte_of name) ip s inodes >>= λ (found, ip₁, s₁, inodes₁).
    iput_at i s₁ (put_at i ip₁ inodes₁) >>= λ files₂. elim found [
      | none ↦ ok (stopped none files₂)
      | some v ↦ ok (goes_on v.1 files₂)
    ]

unfoldable pub round : Bool → ℕ → List ℕ → List ℕ → Files → Outcome Round
unfolding lock_at give_up look_in
round nameiparent i name path files = lock_at i files >>= λ (ip, files₁).
    if not (ip.type == t_dir)
    then (give_up i files₁ >>= λ (r, files₂). ok (stopped r files₂))
    else if nameiparent && is_end path
    then ok (stopped (some (i, name)) files₁)
    else look_in i name ip files₁

abbrev pub last : Bool → ℕ → List ℕ → Files → Outcome (Option (ℕ × List ℕ) × Files)
last true i name files = give_up i files
last false i name files = ok (some (i, name), files)

-- The loop of `namex` on a path that `skipelem` shortens in each round. The result is the place of the
-- inode, and what `name` holds.
unfoldable pub namex_from :
    ℕ → Bool → ℕ → List ℕ → List ℕ → Files → Outcome (Option (ℕ × List ℕ) × Files)
unfolding round skipelem give_up
namex_from zero nameiparent i name path files = out_of_fuel
namex_from (suc fuel) nameiparent i name path files = elim (skipelem path) [
  | none ↦ last nameiparent i name files
  | some v ↦ round nameiparent i v.0 v.1 files >>= λ r. elim r [
    | stopped found files₁ ↦ ok (found, files₁)
    | goes_on next files₁ ↦ namex_from fuel nameiparent next v.0 v.1 files₁
  ]
]

abbrev pub rootdev : ℕ
rootdev = 1

abbrev pub rootino : ℕ
rootino = 1

-- where the path begins: at the root, or at the directory `cwd` of the process
unfoldable pub first_inode : ℕ → List ℕ → List Inode → Outcome (ℕ × List Inode)
unfolding iget idup
first_inode cwd [] inodes = ok (cwd, idup cwd inodes)
first_inode cwd (c ∷ cs) inodes =
    if c == slash then iget rootdev rootino inodes else ok (cwd, idup cwd inodes)

-- `name` is what the caller's array held before.
unfoldable pub namex : Bool → ℕ → List ℕ → List ℕ → Files → Outcome (Option (ℕ × List ℕ) × Files)
unfolding namex_from first_inode
namex nameiparent cwd name path (s, inodes) = first_inode cwd path inodes >>= λ (i, inodes₁).
    namex_from (length path + 1) nameiparent i name path (s, inodes₁)

unfoldable pub namei : ℕ → List ℕ → Files → Outcome (Option (ℕ × List ℕ) × Files)
unfolding namex
namei cwd path files = namex false cwd [] path files

unfoldable pub nameiparent : ℕ → List ℕ → Files → Outcome (Option (ℕ × List ℕ) × Files)
unfolding namex
nameiparent cwd path files = namex true cwd [] path files
