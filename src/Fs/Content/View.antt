-- ===== src/Fs/Content/View.antt =====
-- A file as one array of bytes, and what `bmap` leaves of it.

use cs330_operating_systems.Base.{
  ℕ, ◌*◌, ◌/◌, ◌%◌, ◌<◌, ◌≡◌, ◌≢◌, ◌∙◌, inl, inr, ap, refl, sym, arith, true, false, ◌==◌,
  if◌then◌else◌, Bool-cases,
}
use cs330_operating_systems.Fs.{Fs, bsize}
use cs330_operating_systems.Fs.Inode.{Inode, ndirect}
use cs330_operating_systems.Fs.Content.{maxfile}
use cs330_operating_systems.Fs.Content.Owned.{slot_addr, slot_for, slots, IsOwned}
use cs330_operating_systems.Fs.Content.Ensure.{Ensured}

-- the block at an offset, 0 for none
abbrev pub block_at : ℕ → Inode → Fs → ℕ
block_at off ip s = slot_addr (slot_for (off / bsize)) ip s

-- the byte at an offset: zero where the file has no block
unfoldable pub byte_at : Inode → Fs → ℕ → ℕ
byte_at ip s off = if block_at off ip s == 0 then 0 else s.block (block_at off ip s) (off % bsize)

abbrev pub maxbytes : ℕ
maxbytes = maxfile * bsize

pub byte_at-block :
    (ip : Inode) (s : Fs) (off a : ℕ)
    → block_at off ip s ≡ a
    → a ≢ 0
    → byte_at ip s off ≡ s.block a (off % bsize)
unfolding byte_at
byte_at-block ip s off a e n =
    let z : (block_at off ip s == 0) ≡ false = ground (arith, e, n) in
    let e' : slot_addr (slot_for (off / bsize)) ip s ≡ a = e in
    rw (z) (ap (λ x. s.block x (off % bsize)) e')

pub byte_at-hole : (ip : Inode) (s : Fs) (off : ℕ) → block_at off ip s ≡ 0 → byte_at ip s off ≡ 0
unfolding byte_at
byte_at-hole ip s off e = let z : (block_at off ip s == 0) ≡ true = ground (arith, e) in rw z

-- The slots for blocks of the file are not that of the indirect block, and different blocks have
-- different slots.
pub slot_for_lem : (bn : ℕ) → bn < maxfile → (slot_for bn < slots) × (slot_for bn ≢ ndirect)
slot_for_lem bn h = (ground (arith, h), ground (arith, h))

pub slot_for-inj : (b c : ℕ) → slot_for b ≡ slot_for c → b ≡ c
slot_for-inj b c e = ground (arith, e)

-- A block of the file is not its indirect block.
pub not_indirect :
    (ip : Inode) (s : Fs) (i : ℕ)
    → IsOwned ip s
    → i < slots
    → i ≢ ndirect
    → slot_addr i ip s ≢ 0
    → slot_addr i ip s ≢ ip.addrs ndirect
not_indirect ip s i o h n z e = n (o.apart i 12 h (omega arith) z e)

-- After `bmap` of block `bn` the file has the bytes it had, and those of this block are in the block
-- returned.
module _ {bn : ℕ} {ip : Inode} {s : Fs} {a : ℕ} {ip' : Inode} {s' : Fs} (o : IsOwned ip s)
    (small : bn < maxfile) (e : Ensured (slot_for bn) ip s a ip' s') where
  -- the bytes of a block that was there and is not the indirect block
  kept_block :
      (i : ℕ)
      → i < slots
      → i ≢ ndirect
      → slot_addr i ip s ≢ 0
      → slot_addr i ip' s' ≡ slot_addr i ip s
      → s'.block (slot_addr i ip s) ≡ s.block (slot_addr i ip s)
  kept_block i h n z same =
      e.contents (slot_addr i ip s) (o.blocks i h z)
        (λ q. not_indirect ip' s' i e.owned h n (λ w. z (sym same ∙ w)) (same ∙ q))

  pub ensured-here : (off : ℕ) → off / bsize ≡ bn → byte_at ip' s' off ≡ s'.block a (off % bsize)
  ensured-here off h =
      byte_at-block ip' s' off a (ap (λ x. slot_addr (slot_for x) ip' s') h ∙ e.addr) e.nonzero

  pub ensured-byte_at : (off : ℕ) → off < maxbytes → byte_at ip' s' off ≡ byte_at ip s off
  ensured-byte_at off h = elim (Bool-cases (off / bsize == bn)) [
    | inl here ↦
        let q : off / bsize ≡ bn = ground arith in
        let (inside, n) = slot_for_lem bn small in
        elim (Bool-cases (block_at off ip s == 0)) [
          | inl hole ↦
              let z : block_at off ip s ≡ 0 = ground arith in
              ensured-here off q
              ∙ e.zeroed (ap (λ x. slot_addr (slot_for x) ip s) (sym q) ∙ z) (off % bsize)
              ∙ sym (byte_at-hole ip s off z)
          | inr there ↦
              let z : block_at off ip s ≢ 0 = ground arith in
              let same : slot_addr (slot_for bn) ip s ≡ block_at off ip s =
                ap (λ x. slot_addr (slot_for x) ip s) (sym q) in
              let w : slot_addr (slot_for bn) ip s ≢ 0 = λ r. z (sym same ∙ r) in
              let old : slot_addr (slot_for bn) ip s ≡ a = e.kept w in
              ensured-here off q
              ∙ ap (λ x. s'.block x (off % bsize)) (sym old)
              ∙ ap (λ f. f (off % bsize)) (kept_block (slot_for bn) inside n w (e.addr ∙ sym old))
              ∙ sym (byte_at-block ip s off (slot_addr (slot_for bn) ip s) (sym same) w)
        ]
    | inr other ↦
        let q : off / bsize ≢ bn = ground arith in
        let (inside, n) = slot_for_lem (off / bsize) (omega (arith, h)) in
        let same =
          e.same (slot_for (off / bsize)) inside (λ x. q (slot_for-inj (off / bsize) bn x)) n in
        elim (Bool-cases (block_at off ip s == 0)) [
          | inl hole ↦
              let z : block_at off ip s ≡ 0 = ground arith in
              byte_at-hole ip' s' off (same ∙ z) ∙ sym (byte_at-hole ip s off z)
          | inr there ↦
              let z : block_at off ip s ≢ 0 = ground arith in
              byte_at-block ip' s' off (block_at off ip s) same z
              ∙ ap (λ f. f (off % bsize)) (kept_block (slot_for (off / bsize)) inside n z same)
              ∙ sym (byte_at-block ip s off (block_at off ip s) refl z)
        ]
  ]

  -- A place without a block was without one before.
  pub ensured-hole : (off : ℕ) → off < maxbytes → block_at off ip' s' ≡ 0 → block_at off ip s ≡ 0
  ensured-hole off h z = elim (Bool-cases (off / bsize == bn)) [
    | inl here ↦
        let q : off / bsize ≡ bn = ground arith in
        absurd (e.nonzero (sym e.addr ∙ ap (λ x. slot_addr (slot_for x) ip' s') (sym q) ∙ z))
    | inr other ↦
        let q : off / bsize ≢ bn = ground arith in
        let (inside, n) = slot_for_lem (off / bsize) (omega (arith, h)) in
        sym (e.same (slot_for (off / bsize)) inside (λ x. q (slot_for-inj (off / bsize) bn x)) n)
        ∙ z
  ]
