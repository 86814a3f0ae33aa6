-- ===== src/Fs/Content/Grow.antt =====
-- `writei` of fs.c as a whole: its checks, the loop, and the new size.
use Prim.Native.Nat.{max, min}
use mathlib.Core.Path.{subst}
use cs330_operating_systems.Base.{
  ℕ, ◌+◌, ◌-◌, ◌*◌, ◌/◌, ◌%◌, ◌^◌, ◌≤◌, ◌<◌, ◌≡◌, ◌≢◌, ◌∙◌, ◌⊎◌, inl, inr, ap, refl, sym, arith,
  true, false, ◌&&◌, ◌||◌, ◌==◌, ltb, Bool-cases, List, length, some, ok, panic, ◌>>=◌,
  update_other,
}
use cs330_operating_systems.Kalloc.{add_uint}
use cs330_operating_systems.Fs.{Block, Fs, bsize, write_block}
use cs330_operating_systems.Fs.Bytes.{get_le}
use cs330_operating_systems.Fs.Inode.{Inode, iblock, iupdate, put_dinode, dinode_at}
use cs330_operating_systems.Fs.Content.{
  put_bytes, get_bytes, write_from, grow, writei_file, readi_file,
}
use cs330_operating_systems.Fs.Content.Owned.{slot_addr, slot_for, IsOwned}
use cs330_operating_systems.Fs.Content.Alloc.{write_block-Keeps}
use cs330_operating_systems.Fs.Content.Ensure.{slot_addr-direct, slot_addr-entry, slot_addr-none}
use cs330_operating_systems.Fs.Content.Slices.{get_bytes_ext, get_bytes-put_bytes}
use cs330_operating_systems.Fs.Content.View.{
  block_at, byte_at, maxbytes, byte_at-block, byte_at-hole, slot_for_lem,
}
use cs330_operating_systems.Fs.Content.Read.{Hole, Holds, readi_file-Holds}
use cs330_operating_systems.Fs.Content.Store.{same-IsOwned}
use cs330_operating_systems.Fs.Content.Write.{Filled, write_from-Holds}

-- A write to the inode's block on the disk leaves the file alone.
module _ {ip : Inode} {s : Fs} (bytes : Block) (o : IsOwned ip s) where
  abbrev after_inode : Fs
  after_inode = write_block (iblock ip.inum s) bytes s

  inode-slot_addr : (j : ℕ) → slot_addr j ip after_inode ≡ slot_addr j ip s
  inode-slot_addr j = elim (Bool-cases (ltb j 13)) [
    | inl direct ↦
        let h : j < 13 = ground arith in
        slot_addr-direct j ip after_inode h ∙ sym (slot_addr-direct j ip s h)
    | inr behind ↦
        let h : 13 ≤ j = ground arith in
        elim (Bool-cases (ip.addrs 12 == 0)) [
          | inl none_yet ↦
              let z : ip.addrs 12 ≡ 0 = ground arith in
              slot_addr-none j ip after_inode h z ∙ sym (slot_addr-none j ip s h z)
          | inr there ↦
              let z : ip.addrs 12 ≢ 0 = ground arith in
              let n : ip.addrs 12 ≢ iblock ip.inum s = o.no_inode_block 12 (omega arith) z in
              slot_addr-entry j ip after_inode h z
              ∙ ap (λ f. get_le f (4 * (j - 13)) 4)
                  (update_other s.block (iblock ip.inum s) bytes (ip.addrs 12) n)
              ∙ sym (slot_addr-entry j ip s h z)
        ]
  ]

  inode-IsOwned : IsOwned ip after_inode
  inode-IsOwned =
      same-IsOwned ip o (write_block-Keeps (iblock ip.inum s) bytes s o.bitmap o.boot o.inode_block)
        inode-slot_addr

  inode-byte_at : (q : ℕ) → q < maxbytes → byte_at ip after_inode q ≡ byte_at ip s q
  inode-byte_at q h = elim (Bool-cases (block_at q ip s == 0)) [
    | inl hole ↦
        let z : block_at q ip s ≡ 0 = ground arith in
        byte_at-hole ip after_inode q (inode-slot_addr (slot_for (q / bsize)) ∙ z)
        ∙ sym (byte_at-hole ip s q z)
    | inr there ↦
        let z : block_at q ip s ≢ 0 = ground arith in
        let (h₁, n₁) = slot_for_lem (q / bsize) (omega (arith, h)) in
        let n = o.no_inode_block (slot_for (q / bsize)) h₁ z in
        byte_at-block ip after_inode q (block_at q ip s) (inode-slot_addr (slot_for (q / bsize))) z
        ∙ ap (λ f. f (q % bsize))
            (update_other s.block (iblock ip.inum s) bytes (block_at q ip s) n)
        ∙ sym (byte_at-block ip s q (block_at q ip s) refl z)
  ]

-- An inode with another size has the same blocks.
resize-IsOwned : {ip : Inode} {s : Fs} (n : ℕ) → IsOwned ip s → IsOwned (record ip { size = n }) s
resize-IsOwned n o = record {
  bitmap = o.bitmap;
  boot = o.boot;
  small = o.small;
  blocks = o.blocks;
  apart = o.apart;
  inode_block = o.inode_block;
  no_inode_block = o.no_inode_block;
}

resize-byte_at :
    (n : ℕ) (ip : Inode) (s : Fs) (q : ℕ) → byte_at (record ip { size = n }) s q ≡ byte_at ip s q
unfolding byte_at
resize-byte_at n ip s q = refl

-- What `writei` leaves: the bytes `view`, the size `n`, blocks of its own and at the places written.
pub record Written (view : Block) (n off len : ℕ) (ip : Inode) (s : Fs) : Type 0 where
  pub owned : IsOwned ip s
  pub bytes : (q : ℕ) → q < maxbytes → byte_at ip s q ≡ view q
  pub size : ip.size ≡ n
  pub filled : Filled off len ip s

grown-Written :
    (view : Block) (n off len : ℕ) (ip : Inode) (s : Fs)
    → IsOwned ip s
    → ((q : ℕ) → q < maxbytes → byte_at ip s q ≡ view q)
    → Filled off len ip s
    → Written view n off len (record ip { size = n }) (iupdate (record ip { size = n }) s)
unfolding iupdate
grown-Written view n off len ip s o bytes filled =
    let ip' = record ip { size = n } in
    let d = put_dinode (s.block (iblock ip.inum s)) (dinode_at ip.inum) ip' in
    record {
      owned = resize-IsOwned n (inode-IsOwned d o);
      bytes = λ q h. resize-byte_at n ip (after_inode d o) q ∙ inode-byte_at d o q h ∙ bytes q h;
      size = refl;
      filled = λ q l h z. filled q l h (sym (inode-slot_addr d o (slot_for (q / bsize))) ∙ z);
    }

grow-Written :
    (view : Block) (off n : ℕ) (ip : Inode) (s : Fs)
    → IsOwned ip s
    → ((q : ℕ) → q < maxbytes → byte_at ip s q ≡ view q)
    → Filled off n ip s
    → off ≤ ip.size
    → (ip' : Inode) × (s' : Fs) × (grow n (off + n) ip s ≡ (ip', s'))
      × Written view (max ip.size (off + n)) off n ip' s'
grow-Written view off n ip s o bytes filled le =
    elim (Bool-cases (ltb 0 n && ltb ip.size (off + n))) [
      | inl grows ↦
          let m : off + n ≡ max ip.size (off + n) = ground (arith, grows) in
          (
            record ip { size = off + n },
            iupdate (record ip { size = off + n }) s,
            rw grows,
            subst
                (λ x.
                  Written view x off n (record ip { size = off + n })
                    (iupdate (record ip { size = off + n }) s))
                m (grown-Written view (off + n) off n ip s o bytes filled),
          )
      | inr stays ↦
          let m : ip.size ≡ max ip.size (off + n) = ground (arith, stays, le) in
          (ip, s, rw stays, record { owned = o; bytes = bytes; size = m; filled = filled })
    ]

module _ (off : ℕ) (bs : List ℕ) (ip : Inode) (s : Fs) where
  writei_file-refuses :
      (ltb ip.size off || ltb (add_uint off (length bs)) off) ≡ true
      → writei_file off bs ip s ≡ ok (false, ip, s)
  unfolding writei_file
  writei_file-refuses h = rw h

  writei_file-too_large :
      (ltb ip.size off || ltb (add_uint off (length bs)) off) ≡ false
      → ltb maxbytes (add_uint off (length bs)) ≡ true
      → writei_file off bs ip s ≡ ok (false, ip, s)
  unfolding writei_file
  writei_file-too_large h h' = rw (h, h')

  writei_file-writes :
      (ltb ip.size off || ltb (add_uint off (length bs)) off) ≡ false
      → ltb maxbytes (add_uint off (length bs)) ≡ false
      → writei_file off bs ip s ≡ (
          write_from (length bs) off bs ip s >>= λ (ip₁, s₁).
          let (ip₂, s₂) = grow (length bs) (off + length bs) ip₁ s₁ in ok (true, ip₂, s₂))
  unfolding writei_file
  writei_file-writes h h' = rw (h, h')

pub writei_file-Written :
    (off : ℕ) (bs : List ℕ) (ip : Inode) (s : Fs)
    → IsOwned ip s
    → ip.size ≤ maxbytes
    → length bs < 2 ^ 32
    → ((writei_file off bs ip s ≡ ok (false, ip, s))
        × ((ip.size < off) ⊎ (maxbytes < off + length bs)))
      ⊎ ((off ≤ ip.size)
          × (off + length bs ≤ maxbytes)
          × (((writei_file off bs ip s ≡ panic) × Hole ip s off (length bs))
              ⊎ ((ip' : Inode) × (s' : Fs) × (writei_file off bs ip s ≡ ok (true, ip', s'))
                  × Written
                      (put_bytes (byte_at ip s) off bs)
                      (max ip.size (off + length bs))
                      off
                      (length bs)
                      ip'
                      s')))
writei_file-Written off bs ip s o bound word =
    elim (Bool-cases (ltb ip.size off || ltb (add_uint off (length bs)) off)) [
      | inl out ↦ inl (writei_file-refuses off bs ip s out, ground (arith, word, bound))
      | inr inside ↦
          let le : off ≤ ip.size = ground arith in
          let fits : off + length bs < 2 ^ 32 = ground (arith, word, bound, le) in
          elim (Bool-cases (ltb maxbytes (add_uint off (length bs)))) [
            | inl large ↦
                inl (writei_file-too_large off bs ip s inside large, inr (ground (arith, fits)))
            | inr small ↦
                let room : off + length bs ≤ maxbytes = ground (arith, fits) in
                let run = writei_file-writes off bs ip s inside small in
                inr (
                  le,
                  room,
                  elim (write_from-Holds (length bs) off bs ip s o room (omega arith)) [
                    | inl (stop, hole) ↦ inl (run ∙ rw stop, hole)
                    | inr (ip₁, s₁, run', h, filled) ↦
                        let same : ip₁.size ≡ ip.size = ap (λ x. x.size) h.rest in
                        let (ip₂, s₂, grows, w) =
                          grow-Written (put_bytes (byte_at ip s) off bs) off (length bs) ip₁ s₁
                            h.owned h.bytes filled (omega (arith, same, le)) in
                        inr (
                          ip₂,
                          s₂,
                          run ∙ rw (run', grows),
                          subst
                              (λ x.
                                Written (put_bytes (byte_at ip s) off bs) (max x (off + length bs))
                                  off (length bs) ip₂ s₂)
                              same w,
                        )
                  ],
                )
          ]
    ]

-- What `writei` wrote, `readi` at the same offset reads, and neither of them needs a block for it.
pub writei_file-readi_file :
    (off : ℕ) (bs : List ℕ) (ip : Inode) (s : Fs) {ip' : Inode} {s' : Fs}
    → IsOwned ip s
    → ip.size ≤ maxbytes
    → length bs < 2 ^ 32
    → writei_file off bs ip s ≡ ok (true, ip', s')
    → (ip'' : Inode) × (s'' : Fs) × (readi_file off (length bs) ip' s' ≡ ok (some bs, ip'', s''))
      × Holds (byte_at ip' s') ip' s' ip'' s''
writei_file-readi_file off bs ip s {ip'} {s'} o bound word run =
    elim (writei_file-Written off bs ip s o bound word) [
      | inl (stop, why) ↦ absurd (cc)
      | inr (le, room, inl (stop, hole)) ↦ absurd (cc)
      | inr (le, room, inr (ip₁, s₁, run', w₁)) ↦
          let e₁ : ip₁ ≡ ip' = cc in
          let e₂ : s₁ ≡ s' = cc in
          let w =
            subst
              (λ x.
                Written (put_bytes (byte_at ip s) off bs) (max ip.size (off + length bs)) off
                  (length bs) x s')
              e₁
              (subst
                (λ x.
                  Written (put_bytes (byte_at ip s) off bs) (max ip.size (off + length bs)) off
                    (length bs) ip₁ x)
                e₂ w₁) in
          let n : min (length bs) (ip'.size - off) ≡ length bs = omega (arith, w.size) in
          let small : ip'.size ≤ maxbytes = omega (arith, w.size, bound, room) in
          let bytes : get_bytes (byte_at ip' s') off (length bs) ≡ bs =
            get_bytes_ext (byte_at ip' s') (put_bytes (byte_at ip s) off bs) off off (length bs)
              (λ k h. w.bytes (off + k) (omega (arith, h, room)))
            ∙ get_bytes-put_bytes (byte_at ip s) off bs in
          elim (readi_file-Holds off (length bs) ip' s' w.owned small word) [
            | inl (stop, why) ↦ absurd (omega (arith, why, w.size, room))
            | inr (le', inl (stop, (q, l, h, z))) ↦ absurd (w.filled q l (omega (arith, h, n)) z)
            | inr (le', inr (ip₂, s₂, run₂, h)) ↦ (
              ip₂,
              s₂,
              run₂
                  ∙ ap (λ k. ok (some (get_bytes (byte_at ip' s') off k), ip₂, s₂)) n
                  ∙ ap (λ l. ok (some l, ip₂, s₂)) bytes,
              h,
            )
          ]
    ]
