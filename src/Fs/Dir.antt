-- ===== src/Fs/Dir.antt =====
-- fs.c: directories, which are files of 16-byte entries. A name is an array of bytes; a directory is
-- no device, so `readi` and `writei` of it are those of a file.
pub mod Search
pub mod Lookup
pub mod Entry
pub mod Linked
use cs330_operating_systems.Base.{
  ℕ, zero, suc, ◌+◌, ◌-◌, ◌*◌, ◌/◌, ◌%◌, ◌^◌, Bool, true, false, not, ◌&&◌, ltb, ◌==◌,
  if◌then◌else◌, Option, none, some, List, [], ◌∷◌, length, get_or, get_elem?, modify, Outcome, ok,
  panic, out_of_fuel, ◌>>=◌,
}
use cs330_operating_systems.Kalloc.{add_uint}
use cs330_operating_systems.Str.{ℤ, pos, negsuc, strncmp, strncpy}
use cs330_operating_systems.Fs.{Fs}
use cs330_operating_systems.Fs.Bytes.{get_le, put_le}
use cs330_operating_systems.Fs.Inode.{Inode, iget}
use cs330_operating_systems.Fs.Path.{dirsiz}
use cs330_operating_systems.Fs.Content.{get_bytes, readi_file, writei_file, iput}

abbrev pub t_dir : ℕ
t_dir = 1

-- `sizeof(struct dirent)`, its inode number and its name
abbrev pub dirent_size : ℕ
dirent_size = 16

abbrev pub byte_of : List ℕ → ℕ → ℕ
byte_of de i = get_or de i 0

abbrev pub dirent_inum : List ℕ → ℕ
dirent_inum de = get_le (byte_of de) 0 2

abbrev pub is_zero : ℤ → Bool
is_zero (pos zero) = true
is_zero _ = false

-- two arrays one behind the other, the first of them DIRSIZ bytes long
abbrev pub side_by_side : (ℕ → ℕ) → (ℕ → ℕ) → ℕ → ℕ
side_by_side s t i = if ltb i dirsiz then s i else t (i - dirsiz)

unfoldable pub namecmp : (ℕ → ℕ) → (ℕ → ℕ) → ℤ
unfolding strncmp
namecmp s t = strncmp 0 dirsiz dirsiz (side_by_side s t)

-- `de.inum != 0 && namecmp(name, de.name) == 0`
abbrev pub is_entry : (ℕ → ℕ) → List ℕ → Bool
is_entry name de = not (dirent_inum de == 0) && is_zero (namecmp name (λ i. byte_of de (2 + i)))

-- `readi(dp, &de, off, sizeof(de)) != sizeof(de)` panics.
abbrev pub whole_entry : Option (List ℕ) → Outcome (List ℕ)
whole_entry none = panic
whole_entry (some de) = if length de == dirent_size then ok de else panic

-- The loops of `dirlookup` and `dirlink` at `off`, which look for an entry that passes a test.
unfoldable pub search_from :
    (List ℕ → Bool) → ℕ → ℕ → Inode → Fs → Outcome (Option (ℕ × List ℕ) × Inode × Fs)
unfolding readi_file
search_from test zero off dp s = out_of_fuel
search_from test (suc fuel) off dp s =
    if ltb off dp.size
    then (readi_file off dirent_size dp s >>= λ (r, dp₁, s₁). whole_entry r >>= λ de.
        if test de
        then ok (some (off, de), dp₁, s₁)
        else search_from test fuel (add_uint off dirent_size) dp₁ s₁)
    else ok (none, dp, s)

abbrev pub search : (List ℕ → Bool) → Inode → Fs → Outcome (Option (ℕ × List ℕ) × Inode × Fs)
search test dp s = search_from test (dp.size / dirent_size + 2) 0 dp s

-- `dirlookup` from the end of its search on
abbrev pub enter : ℕ → Option (ℕ × List ℕ) → List Inode → Outcome (Option (ℕ × ℕ) × List Inode)
enter dev none inodes = ok (none, inodes)
enter dev (some (off, de)) inodes =
    iget dev (dirent_inum de) inodes >>= λ (i, inodes₁). ok (some (off, i), inodes₁)

-- The result is the entry's offset and the place of its inode in the cache; the directory and the disk
-- come back too.
unfoldable pub dirlookup :
    (ℕ → ℕ) → Inode → Fs → List Inode → Outcome (Option (ℕ × ℕ) × Inode × Fs × List Inode)
unfolding search_from
dirlookup name dp s inodes =
    if not (dp.type == t_dir)
    then panic
    else search (is_entry name) dp s >>= λ (found, dp₁, s₁).
        enter dp.dev found inodes >>= λ (r, inodes₁). ok (r, dp₁, s₁, inodes₁)

abbrev pub is_hole : List ℕ → Bool
is_hole de = dirent_inum de == 0

-- the 16 bytes of a new entry: `strncpy(de.name, name, DIRSIZ)` and `de.inum = inum`
unfoldable pub new_entry : (ℕ → ℕ) → ℕ → List ℕ
unfolding put_le strncpy get_bytes
new_entry name inum =
    let memory : ℕ → ℕ = λ i. if ltb i dirent_size then 0 else name (i - dirent_size) in
    get_bytes (put_le (strncpy 2 dirent_size dirsiz memory) 0 2 (inum % 2 ^ 16)) 0 dirent_size

-- where the loop of `dirlink` ends
abbrev pub free_offset : Inode → Option (ℕ × List ℕ) → ℕ
free_offset dp none = dp.size
free_offset dp (some (off, de)) = off

-- the end of `dirlink`: a write that is refused panics
abbrev pub linked_entry : Bool × Inode × Fs → Outcome (Bool × Inode × Fs)
linked_entry (false, dp, s) = panic
linked_entry (true, dp, s) = ok (true, dp, s)

-- `dirlink` once `dirlookup` found no entry for the name
unfoldable pub add_entry : (ℕ → ℕ) → ℕ → Inode → Fs → Outcome (Bool × Inode × Fs)
unfolding search_from new_entry writei_file
add_entry name inum dp s = search is_hole dp s >>= λ (hole, dp₁, s₁).
    writei_file (free_offset dp₁ hole) (new_entry name inum) dp₁ s₁ >>= linked_entry

-- `iput` of the entry at place `i` of the inode cache
unfoldable pub iput_at : ℕ → Fs → List Inode → Outcome (Fs × List Inode)
unfolding iput
iput_at i s inodes = elim (get_elem? inodes i) [
  | none ↦ ok (s, inodes)
  | some ip ↦ iput ip s >>= λ (ip₁, s₁). ok (s₁, modify i (λ x. ip₁) inodes)
]

-- The return value 0 is `true`, and -1 is `false`.
unfoldable pub dirlink :
    (ℕ → ℕ) → ℕ → Inode → Fs → List Inode → Outcome (Bool × Inode × Fs × List Inode)
unfolding dirlookup add_entry iput_at
dirlink name inum dp s inodes = dirlookup name dp s inodes >>= λ (r, dp₁, s₁, inodes₁). elim r [
  | none ↦ add_entry name inum dp₁ s₁ >>= λ (done, dp₂, s₂). ok (done, dp₂, s₂, inodes₁)
  | some v ↦ iput_at v.1 s₁ inodes₁ >>= λ (s₂, inodes₂). ok (false, dp₁, s₂, inodes₂)
]
