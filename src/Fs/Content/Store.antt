-- ===== src/Fs/Content/Store.antt =====
-- A store into a block of a file that is not its indirect block.
use mathlib.Core.Path.{subst}
use cs330_operating_systems.Base.{
  ℕ, ◌+◌, ◌-◌, ◌*◌, ◌/◌, ◌%◌, ◌^◌, ◌≤◌, ◌<◌, ◌≡◌, ◌≢◌, ◌∙◌, inl, inr, ap, refl, sym, arith, false,
  ◌==◌, ltb, if◌then◌else◌, Bool-cases, List, get_or, length, update_self, update_other,
}
use cs330_operating_systems.Fs.{Block, Fs, bsize, write_block}
use cs330_operating_systems.Fs.Bytes.{get_le}
use cs330_operating_systems.Fs.Inode.{Inode, ipb, iblock}
use cs330_operating_systems.Fs.Content.{put_bytes, maxfile}
use cs330_operating_systems.Fs.Content.Owned.{slot_addr, slot_for, IsFileBlock, IsOwned}
use cs330_operating_systems.Fs.Content.Alloc.{Keeps, write_block-Keeps}
use cs330_operating_systems.Fs.Content.Ensure.{slot_addr-direct, slot_addr-entry, slot_addr-none}
use cs330_operating_systems.Fs.Content.Slices.{is_within, put_bytes_lem}
use cs330_operating_systems.Fs.Content.View.{
  block_at, byte_at, maxbytes, byte_at-block, byte_at-hole, slot_for_lem, slot_for-inj,
  not_indirect,
}

-- An inode whose slots stay what they are.
pub same-IsOwned :
    (ip : Inode) {s s' : Fs}
    → IsOwned ip s
    → Keeps s s'
    → ((j : ℕ) → slot_addr j ip s' ≡ slot_addr j ip s)
    → IsOwned ip s'
same-IsOwned ip {s} {s'} o k same = record {
  bitmap = k.bitmap;
  boot = k.boot;
  small = subst (λ x. x.size ≤ 2 ^ 32) (sym k.sb) o.small;
  blocks = λ i h n.
      subst (λ c. IsFileBlock c s') (sym (same i))
        (k.blocks (slot_addr i ip s) (o.blocks i h (λ z. n (same i ∙ z))));
  apart = λ i j h h' n e. o.apart i j h h' (λ z. n (same i ∙ z)) (sym (same i) ∙ e ∙ same j);
  inode_block =
      subst (λ c. IsFileBlock c s') (sym same_inode) (k.blocks (iblock ip.inum s) o.inode_block);
  no_inode_block =
      λ i h n e. o.no_inode_block i h (λ z. n (same i ∙ z)) (sym (same i) ∙ e ∙ same_inode);
}
  where
    same_inode : iblock ip.inum s' ≡ iblock ip.inum s
    same_inode = ap (λ x. ip.inum / ipb + x.inodestart) k.sb

module _ {bn : ℕ} {ip : Inode} {s : Fs} {a : ℕ} (bytes : Block) (o : IsOwned ip s)
    (small : bn < maxfile) (addr : slot_addr (slot_for bn) ip s ≡ a) (nonzero : a ≢ 0) where
  stored_block : IsFileBlock a s
  stored_block =
      let (h, n) = slot_for_lem bn small in
      subst (λ c. IsFileBlock c s) addr (o.blocks (slot_for bn) h (λ z. nonzero (sym addr ∙ z)))

  not_table : ip.addrs 12 ≢ a
  not_table e =
      let (h, n) = slot_for_lem bn small in
      not_indirect ip s (slot_for bn) o h n (λ z. nonzero (sym addr ∙ z)) (addr ∙ sym e)

  pub store-Keeps : Keeps s (write_block a bytes s)
  store-Keeps = write_block-Keeps a bytes s o.bitmap o.boot stored_block

  pub store-slot_addr : (j : ℕ) → slot_addr j ip (write_block a bytes s) ≡ slot_addr j ip s
  store-slot_addr j = elim (Bool-cases (ltb j 13)) [
    | inl direct ↦
        let h : j < 13 = ground arith in
        slot_addr-direct j ip (write_block a bytes s) h ∙ sym (slot_addr-direct j ip s h)
    | inr behind ↦
        let h : 13 ≤ j = ground arith in
        elim (Bool-cases (ip.addrs 12 == 0)) [
          | inl none_yet ↦
              let z : ip.addrs 12 ≡ 0 = ground arith in
              slot_addr-none j ip (write_block a bytes s) h z ∙ sym (slot_addr-none j ip s h z)
          | inr there ↦
              let z : ip.addrs 12 ≢ 0 = ground arith in
              slot_addr-entry j ip (write_block a bytes s) h z
              ∙ ap (λ f. get_le f (4 * (j - 13)) 4)
                  (update_other s.block a bytes (ip.addrs 12) not_table)
              ∙ sym (slot_addr-entry j ip s h z)
        ]
  ]

  pub store-IsOwned : IsOwned ip (write_block a bytes s)
  store-IsOwned = same-IsOwned ip o store-Keeps store-slot_addr

  -- the bytes of the block, and those of the file's other blocks
  store-here :
      (off : ℕ) → off / bsize ≡ bn → byte_at ip (write_block a bytes s) off ≡ bytes (off % bsize)
  store-here off h =
      byte_at-block ip (write_block a bytes s) off a
        (store-slot_addr (slot_for (off / bsize)) ∙ ap (λ x. slot_addr (slot_for x) ip s) h ∙ addr)
        nonzero
      ∙ ap (λ f. f (off % bsize)) (update_self s.block a bytes)

  store-other :
      (off : ℕ)
      → off < maxbytes
      → off / bsize ≢ bn
      → byte_at ip (write_block a bytes s) off ≡ byte_at ip s off
  store-other off h n = elim (Bool-cases (block_at off ip s == 0)) [
    | inl hole ↦
        let z : block_at off ip s ≡ 0 = ground arith in
        byte_at-hole ip (write_block a bytes s) off (store-slot_addr (slot_for (off / bsize)) ∙ z)
        ∙ sym (byte_at-hole ip s off z)
    | inr there ↦
        let z : block_at off ip s ≢ 0 = ground arith in
        let c = block_at off ip s in
        let (h₁, n₁) = slot_for_lem (off / bsize) (omega (arith, h)) in
        let (h₂, n₂) = slot_for_lem bn small in
        let apart : c ≢ a = λ e. n (
          slot_for-inj (off / bsize) bn
            (o.apart (slot_for (off / bsize)) (slot_for bn) h₁ h₂ z (e ∙ sym addr))) in
        byte_at-block ip (write_block a bytes s) off c (store-slot_addr (slot_for (off / bsize))) z
        ∙ ap (λ f. f (off % bsize)) (update_other s.block a bytes c apart)
        ∙ sym (byte_at-block ip s off c refl z)
  ]

-- A `memmove` into the block at `off` is one into the file's bytes.
pub store-put_bytes :
    {ip : Inode} {s : Fs} {a : ℕ} (off : ℕ) (cs : List ℕ) (o : IsOwned ip s)
    → off / bsize < maxfile
    → off % bsize + length cs ≤ bsize
    → block_at off ip s ≡ a
    → a ≢ 0
    → (q : ℕ) → q < maxbytes
    → byte_at ip (write_block a (put_bytes (s.block a) (off % bsize) cs) s) q
      ≡ put_bytes (byte_at ip s) off cs q
store-put_bytes {ip} {s} {a} off cs o small in_block addr nonzero q h =
    elim (Bool-cases (q / bsize == off / bsize)) [
      | inl here ↦
          let e : q / bsize ≡ off / bsize = ground arith in
          let w : is_within (off % bsize) (length cs) (q % bsize) ≡ is_within off (length cs) q =
            ground (arith, e) in
          let d : q % bsize - off % bsize ≡ q - off = omega (arith, e) in
          store-here (put_bytes (s.block a) (off % bsize) cs) o small addr nonzero q e
          ∙ put_bytes_lem (s.block a) (off % bsize) cs (q % bsize)
          ∙ ap (λ b. if b then get_or cs (q % bsize - off % bsize) 0 else s.block a (q % bsize)) w
          ∙ ap (λ x. if is_within off (length cs) q then get_or cs x 0 else s.block a (q % bsize)) d
          ∙ ap (λ x. if is_within off (length cs) q then get_or cs (q - off) 0 else x)
              (sym
                (byte_at-block ip s q a (ap (λ x. slot_addr (slot_for x) ip s) e ∙ addr) nonzero))
          ∙ sym (put_bytes_lem (byte_at ip s) off cs q)
      | inr other ↦
          let e : q / bsize ≢ off / bsize = ground arith in
          let w : is_within off (length cs) q ≡ false = ground (arith, e, in_block) in
          store-other (put_bytes (s.block a) (off % bsize) cs) o small addr nonzero q h e
          ∙ sym (put_bytes_lem (byte_at ip s) off cs q ∙ rw w)
    ]
