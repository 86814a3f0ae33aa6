-- ===== src/Fs/Dir/Lookup.antt =====
-- `namecmp` and `dirlookup` of fs.c.

use cs330_operating_systems.Base.{
  ℕ, zero, suc, ◌+◌, ◌-◌, ◌<◌, ◌≡◌, ◌≢◌, ◌∙◌, ◌⊎◌, ◌↔◌, ap, refl, sym, arith, true, false, ltb,
  lt→ltb, List, Option, none, some, Outcome, ok, panic, get_elem?,
}
use cs330_operating_systems.Str.{ℤ, pos, negsuc, strncmp}
use cs330_operating_systems.Str.Compares.{SameString, strncmp-SameString}
use cs330_operating_systems.Fs.{Fs}
use cs330_operating_systems.Fs.Inode.{Inode, is_cached, is_unreferenced}
use cs330_operating_systems.Fs.Icache.{IsUnique, Got}
use cs330_operating_systems.Fs.Path.{dirsiz}
use cs330_operating_systems.Fs.Dir.{byte_of, dirent_inum, is_zero, side_by_side, namecmp, is_entry}

-- Two names agree up to the first NUL or the first DIRSIZ bytes.
abbrev pub SameName : (ℕ → ℕ) → (ℕ → ℕ) → Type 0
SameName s t = (k : ℕ) → k < dirsiz → ((j : ℕ) → j < k → s j ≢ 0) → s k ≡ t k

first_array : (s t : ℕ → ℕ) (k : ℕ) → k < dirsiz → side_by_side s t (0 + k) ≡ s k
first_array s t k h =
    let z : 0 + k ≡ k = omega arith in ap (side_by_side s t) z ∙ (let e = lt→ltb k 14 h in rw e)

second_array : (s t : ℕ → ℕ) (k : ℕ) → side_by_side s t (14 + k) ≡ t k
second_array s t k =
    let e : ltb (14 + k) 14 ≡ false = ground arith in
    let z : 14 + k - 14 ≡ k = omega arith in rw (e, z)

SameString-SameName : (s t : ℕ → ℕ) → SameString (side_by_side s t) 0 14 14 ↔ SameName s t
SameString-SameName s t = (
  λ h k l before.
      sym (first_array s t k l)
      ∙ h k l (λ j m z. before j m (sym (first_array s t j (omega (arith, l, m))) ∙ z))
      ∙ second_array s t k,
  λ h k l before.
      first_array s t k l
      ∙ h k l (λ j m z. before j m (first_array s t j (omega (arith, l, m)) ∙ z))
      ∙ sym (second_array s t k),
)

is_zero-pos : (z : ℤ) → (is_zero z ≡ true) ↔ (z ≡ pos 0)
is_zero-pos (pos zero) = (λ h. refl, λ h. refl)
is_zero-pos (pos (suc n)) = (λ h. absurd (cc), λ h. absurd (cc))
is_zero-pos (negsuc n) = (λ h. absurd (cc), λ h. absurd (cc))

pub namecmp-SameName : (s t : ℕ → ℕ) → (is_zero (namecmp s t) ≡ true) ↔ SameName s t
unfolding namecmp
namecmp-SameName s t =
    let (to, from) = is_zero-pos (strncmp 0 14 14 (side_by_side s t)) in
    let (there, back) = strncmp-SameString 0 14 14 (side_by_side s t) in
    let (names, strings) = SameString-SameName s t in
    (λ h. names (there (to h)), λ h. from (back (strings h)))

-- The entry is in use and has the name.
abbrev pub IsNamed : (ℕ → ℕ) → List ℕ → Type 0
IsNamed name de = (dirent_inum de ≢ 0) × SameName name (λ i. byte_of de (2 + i))

pub is_entry-IsNamed : (name : ℕ → ℕ) (de : List ℕ) → (is_entry name de ≡ true) ↔ IsNamed name de
is_entry-IsNamed name de =
    let (to, from) = namecmp-SameName name (λ i. byte_of de (2 + i)) in
    (
      λ h. (ground (arith, h), to (ground (arith, h))),
      λ (n, same). let z = from same in ground (arith, n, z),
    )

-- How `dirlookup` can end: no entry in use has the name; or the first one that has it is found, and its
-- inode has one user more, or the inode cache is full and it panics.
abbrev pub Looks :
    (ℕ → ℕ)
    → Inode
    → Fs
    → List Inode
    → Outcome (Option (ℕ × ℕ) × Inode × Fs × List Inode)
    → Inode
    → Fs
    → Option (ℕ × List ℕ)
    → Type 0
Looks name dp s inodes result dp' s' none = result ≡ ok (none, dp', s', inodes)
Looks name dp s inodes result dp' s' (some (off, de)) =
    ((result ≡ panic)
      × ((i : ℕ) (x : Inode)
          → get_elem? inodes i ≡ some x
          → (is_cached dp.dev (dirent_inum de) x ≡ false) × (is_unreferenced x ≡ false)))
    ⊎ ((i : ℕ) × (inodes' : List Inode) × (result ≡ ok (some (off, i), dp', s', inodes'))
        × IsUnique inodes'
        × Got dp.dev (dirent_inum de) inodes i inodes')
