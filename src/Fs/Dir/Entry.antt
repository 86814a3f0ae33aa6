-- ===== src/Fs/Dir/Entry.antt =====
-- The entry that `dirlink` of fs.c makes.
use cs330_operating_systems.Base.{
  ℕ, zero, suc, ◌+◌, ◌-◌, ◌%◌, ◌^◌, ◌<◌, ◌≡◌, ◌≢◌, ◌∙◌, inr, ap, refl, sym, arith, true, false, ltb,
  if◌then◌else◌, get_or, length,
}
use cs330_operating_systems.Str.{strncpy}
use cs330_operating_systems.Str.Strncpy.{strncpy_lem}
use cs330_operating_systems.Fs.{Block}
use cs330_operating_systems.Fs.Bytes.{get_le, put_le, put_le-other, get_le-put_le}
use cs330_operating_systems.Fs.Content.{get_bytes}
use cs330_operating_systems.Fs.Dir.{dirent_size, byte_of, dirent_inum, is_entry, new_entry}
use cs330_operating_systems.Fs.Dir.Search.{length-get_bytes}
use cs330_operating_systems.Fs.Dir.Lookup.{SameName, is_entry-IsNamed}

get_or-get_bytes : (f : Block) (off n i : ℕ) → i < n → get_or (get_bytes f off n) i 0 ≡ f (off + i)
unfolding get_bytes
get_or-get_bytes f off zero i h = absurd (omega (arith, h))
get_or-get_bytes f off (suc n) zero h = ap f (omega arith)
get_or-get_bytes f off (suc n) (suc i) h =
    get_or-get_bytes f (off + 1) n i (omega (arith, h)) ∙ ap f (omega arith)

get_le_ext :
    (f g : Block) (off n : ℕ)
    → ((i : ℕ) → i < off + n → f i ≡ g i)
    → get_le f off n ≡ get_le g off n
unfolding get_le
get_le_ext f g off zero h = refl
get_le_ext f g off (suc n) h =
    let first = h off (omega arith) in
    let rest = get_le_ext f g (off + 1) n (λ i l. h i (omega (arith, l))) in rw (first, rest)

module _ (name : ℕ → ℕ) (inum : ℕ) where
  -- the stack: the entry, and the name behind it
  abbrev stack : ℕ → ℕ
  stack i = if ltb i 16 then 0 else name (i - 16)

  abbrev filled_in : ℕ → ℕ
  filled_in = put_le (strncpy 2 16 14 stack) 0 2 (inum % 2 ^ 16)

  pub length-new_entry : length (new_entry name inum) ≡ dirent_size
  unfolding new_entry
  length-new_entry = length-get_bytes filled_in 0 16

  byte_of-new_entry : (i : ℕ) → i < 16 → byte_of (new_entry name inum) i ≡ filled_in i
  unfolding new_entry
  byte_of-new_entry i h =
      let z : 0 + i ≡ i = omega arith in get_or-get_bytes filled_in 0 16 i h ∙ ap filled_in z

  dirent_inum-new_entry : dirent_inum (new_entry name inum) ≡ inum % 2 ^ 16
  dirent_inum-new_entry =
      get_le_ext (byte_of (new_entry name inum)) filled_in 0 2
        (λ i h. byte_of-new_entry i (omega (arith, h)))
      ∙ get_le-put_le (strncpy 2 16 14 stack) 0 2 (inum % 2 ^ 16) (omega arith)

  source : (k : ℕ) → stack (16 + k) ≡ name k
  source k =
      let e : ltb (16 + k) 16 ≡ false = ground arith in
      let z : 16 + k - 16 ≡ k = omega arith in rw (e, z)

  new_entry-SameName : SameName name (λ i. byte_of (new_entry name inum) (2 + i))
  new_entry-SameName k h clear = sym (
      byte_of-new_entry (2 + k) (omega (arith, h))
      ∙ put_le-other (strncpy 2 16 14 stack) 0 2 (inum % 2 ^ 16) (2 + k) (inr (omega arith))
      ∙ strncpy_lem 2 16 14 stack k (omega arith) h (λ j l z. clear j l (sym (source j) ∙ z))
      ∙ source k)

  -- The entry has the name and the number, if this is not 0.
  pub new_entry-is_entry :
      inum ≢ 0
      → inum < 2 ^ 16
      → (dirent_inum (new_entry name inum) ≡ inum) × (is_entry name (new_entry name inum) ≡ true)
  new_entry-is_entry nz small =
      let e : dirent_inum (new_entry name inum) ≡ inum =
        omega (arith, dirent_inum-new_entry, small) in
      (
        e,
        (is_entry-IsNamed name (new_entry name inum)).1 ((λ z. nz (sym e ∙ z)), new_entry-SameName),
      )
