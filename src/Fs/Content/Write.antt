-- ===== src/Fs/Content/Write.antt =====
-- `writei` of fs.c stores the bytes into the file.

use cs330_operating_systems.Base.{
  ℕ, zero, suc, ◌+◌, ◌/◌, ◌%◌, ◌≤◌, ◌<◌, ◌≡◌, ◌≢◌, ◌∙◌, ◌⊎◌, inl, inr, ap, refl, sym, arith, false,
  ◌==◌, ltb, Bool-cases, List, [], ◌∷◌, take, drop, length, length-take, length-drop,
  take-append-drop, ok, panic,
}
use cs330_operating_systems.Fs.{Block, Fs, bsize, write_block}
use cs330_operating_systems.Fs.Inode.{Inode}
use cs330_operating_systems.Fs.Content.{bmap, put_bytes, chunk, write_from, maxfile}
use cs330_operating_systems.Fs.Content.Owned.{slot_addr, slot_for, IsOwned}
use cs330_operating_systems.Fs.Content.Alloc.{trans-Keeps}
use cs330_operating_systems.Fs.Content.Ensure.{Ensured, refl-Keeps}
use cs330_operating_systems.Fs.Content.Bmap.{bmap-Ensured}
use cs330_operating_systems.Fs.Content.Slices.{put_bytes_ext, put_bytes-append}
use cs330_operating_systems.Fs.Content.View.{
  block_at, byte_at, maxbytes, ensured-byte_at, ensured-hole,
}
use cs330_operating_systems.Fs.Content.Read.{Hole, Holds, chunk_lem}
use cs330_operating_systems.Fs.Content.Store.{
  store-Keeps, store-slot_addr, store-IsOwned, store-put_bytes,
}

write_from-end :
    (fuel off : ℕ) (bs : List ℕ) (ip : Inode) (s : Fs)
    → length bs ≡ 0
    → write_from fuel off bs ip s ≡ ok (ip, s)
unfolding write_from
write_from-end zero off bs ip s h = rw h
write_from-end (suc fuel) off bs ip s h = rw h

-- the disk after one round of the loop
abbrev pub after_round : ℕ → List ℕ → ℕ → Fs → Fs
after_round off bs a s =
    write_block a (put_bytes (s.block a) (off % bsize) (take (chunk (length bs) off) bs)) s

module _ (fuel off : ℕ) (bs : List ℕ) (ip : Inode) (s : Fs) (some_left : 0 < length bs) where
  write_from-panic : bmap (off / bsize) ip s ≡ panic → write_from (suc fuel) off bs ip s ≡ panic
  unfolding write_from
  write_from-panic e = let z : (length bs == 0) ≡ false = ground (arith, some_left) in rw (z, e)

  write_from-next :
      {a : ℕ} {ip₁ : Inode} {s₁ : Fs}
      → bmap (off / bsize) ip s ≡ ok (a, ip₁, s₁)
      → write_from (suc fuel) off bs ip s
        ≡ write_from fuel
            (off + chunk (length bs) off)
            (drop (chunk (length bs) off) bs)
            ip₁
            (after_round off bs a s₁)
  unfolding write_from
  write_from-next e = let z : (length bs == 0) ≡ false = ground (arith, some_left) in rw (z, e)

put_bytes_zero : (f : Block) (off : ℕ) (bs : List ℕ) → length bs ≡ 0 → put_bytes f off bs ≡ f
unfolding put_bytes
put_bytes_zero f off [] h = refl
put_bytes_zero f off (b ∷ bs) h = absurd (omega (arith, h))

-- The file has a block at each place of the range.
abbrev pub Filled : ℕ → ℕ → Inode → Fs → Type 0
Filled off n ip s = (q : ℕ) → off ≤ q → q < off + n → block_at q ip s ≢ 0

nothing-Holds :
    (fuel off : ℕ) (bs : List ℕ) (ip : Inode) (s : Fs)
    → IsOwned ip s
    → length bs ≡ 0
    → ((write_from fuel off bs ip s ≡ panic) × Hole ip s off (length bs))
      ⊎ ((ip' : Inode) × (s' : Fs) × (write_from fuel off bs ip s ≡ ok (ip', s'))
          × Holds (put_bytes (byte_at ip s) off bs) ip s ip' s'
          × Filled off (length bs) ip' s')
nothing-Holds fuel off bs ip s o z = inr (
  ip,
  s,
  write_from-end fuel off bs ip s z,
  record {
    owned = o;
    bytes = λ q h. ap (λ f. f q) (sym (put_bytes_zero (byte_at ip s) off bs z));
    holes = λ q h w. w;
    rest = refl;
    keeps = refl-Keeps ip o;
  },
  λ q l h. absurd (omega (arith, z, l, h)),
)

-- One round: the inode has its bytes with the round's in their place.
round-Holds :
    (off : ℕ) (bs : List ℕ) (ip : Inode) (s : Fs) {a : ℕ} {ip₁ : Inode} {s₁ : Fs}
    → IsOwned ip s
    → off + length bs ≤ maxbytes
    → 0 < length bs
    → Ensured (slot_for (off / bsize)) ip s a ip₁ s₁
    → Holds
        (put_bytes (byte_at ip s) off (take (chunk (length bs) off) bs))
        ip
        s
        ip₁
        (after_round off bs a s₁)
round-Holds off bs ip s {a} {ip₁} {s₁} o fits pos e =
    let (m_pos, le, in_block) = chunk_lem (length bs) off pos in
    let m = chunk (length bs) off in
    let cs = take m bs in
    let n : length cs ≡ m = omega (arith, length-take m bs, le) in
    let small : off / bsize < maxfile = omega (arith, fits, pos) in
    let bytes = put_bytes (s₁.block a) (off % bsize) cs in
    record {
      owned = store-IsOwned bytes e.owned small e.addr e.nonzero;
      bytes = λ q h.
          store-put_bytes off cs e.owned small (omega (arith, in_block, n)) e.addr e.nonzero q h
          ∙ put_bytes_ext (byte_at ip₁ s₁) (byte_at ip s) off cs q (ensured-byte_at o small e q h);
      holes = λ q h z.
          ensured-hole o small e q h
            (sym (store-slot_addr bytes e.owned small e.addr e.nonzero (slot_for (q / bsize))) ∙ z);
      rest = e.rest;
      keeps = trans-Keeps e.keeps (store-Keeps bytes e.owned small e.addr e.nonzero);
    }

-- The places of the round have a block then.
round-fills :
    (off : ℕ) (bs : List ℕ) (ip : Inode) (s : Fs) {a : ℕ} {ip₁ : Inode} {s₁ : Fs}
    → IsOwned ip s
    → off + length bs ≤ maxbytes
    → 0 < length bs
    → Ensured (slot_for (off / bsize)) ip s a ip₁ s₁
    → Filled off (chunk (length bs) off) ip₁ (after_round off bs a s₁)
round-fills off bs ip s {a} {ip₁} {s₁} o fits pos e q l h z =
    let (m_pos, le, in_block) = chunk_lem (length bs) off pos in
    let small : off / bsize < maxfile = omega (arith, fits, pos) in
    let bytes = put_bytes (s₁.block a) (off % bsize) (take (chunk (length bs) off) bs) in
    let d : q / bsize ≡ off / bsize = omega (arith, l, h, in_block) in
    e.nonzero (
      sym e.addr
      ∙ sym (store-slot_addr bytes e.owned small e.addr e.nonzero (slot_for (off / bsize)))
      ∙ ap (λ x. slot_addr (slot_for x) ip₁ (after_round off bs a s₁)) (sym d)
      ∙ z)

-- the bytes of one round, then those of the rounds after it
rounds_bytes :
    (f g : Block) (off m : ℕ) (bs : List ℕ) (q : ℕ)
    → m ≤ length bs
    → g q ≡ put_bytes f off (take m bs) q
    → put_bytes g (off + m) (drop m bs) q ≡ put_bytes f off bs q
rounds_bytes f g off m bs q le h =
    let n : m ≡ length (take m bs) = omega (arith, length-take m bs, le) in
    put_bytes_ext g (put_bytes f off (take m bs)) (off + m) (drop m bs) q h
    ∙ ap (λ x. put_bytes (put_bytes f off (take m bs)) (off + x) (drop m bs) q) n
    ∙ ap (λ x. x q) (put_bytes-append f off (take m bs) (drop m bs))
    ∙ ap (λ l. put_bytes f off l q) (take-append-drop m bs)

pub write_from-Holds :
    (fuel off : ℕ) (bs : List ℕ) (ip : Inode) (s : Fs)
    → IsOwned ip s
    → off + length bs ≤ maxbytes
    → length bs ≤ fuel
    → ((write_from fuel off bs ip s ≡ panic) × Hole ip s off (length bs))
      ⊎ ((ip' : Inode) × (s' : Fs) × (write_from fuel off bs ip s ≡ ok (ip', s'))
          × Holds (put_bytes (byte_at ip s) off bs) ip s ip' s'
          × Filled off (length bs) ip' s')
write_from-Holds zero off bs ip s o fits enough =
    nothing-Holds zero off bs ip s o (omega (arith, enough))
write_from-Holds (suc fuel) off bs ip s o fits enough = elim (Bool-cases (length bs == 0)) [
  | inl nothing ↦ nothing-Holds (suc fuel) off bs ip s o (ground arith)
  | inr some_left ↦
      let pos : 0 < length bs = ground arith in
      let (m_pos, le, in_block) = chunk_lem (length bs) off pos in
      let m = chunk (length bs) off in
      let small : off / bsize < maxfile = omega (arith, fits, pos) in
      elim (bmap-Ensured (off / bsize) ip s o small) [
        | inl (stop, z, full) ↦
            inl (
              write_from-panic fuel off bs ip s pos stop,
              (off, omega arith, omega (arith, pos), z),
            )
        | inr (a, ip₁, s₁, run, e) ↦
            let r = round-Holds off bs ip s o fits pos e in
            let s₂ = after_round off bs a s₁ in
            let next = write_from-next fuel off bs ip s pos run in
            let d = length-drop m bs in
            elim (write_from-Holds fuel (off + m) (drop m bs) ip₁ s₂ r.owned
              (omega (arith, fits, le, d)) (omega (arith, enough, m_pos, d))) [
                | inl (stop, (q, l, h, z)) ↦
                    let b : q < off + length bs = omega (arith, h, le, d) in
                    inl
                      (next ∙ stop, (q, omega (arith, l), b, r.holes q (omega (arith, b, fits)) z))
                | inr (ip₂, s₃, run', h, fills) ↦ inr (
                  ip₂,
                  s₃,
                  next ∙ run',
                  record {
                    owned = h.owned;
                    bytes = λ q l.
                        h.bytes q l
                        ∙ rounds_bytes (byte_at ip s) (byte_at ip₁ s₂) off m bs q le (r.bytes q l);
                    holes = λ q l z. r.holes q l (h.holes q l z);
                    rest = h.rest ∙ ap {A = Inode} (λ x. record x { addrs = ip₂.addrs }) r.rest;
                    keeps = trans-Keeps r.keeps h.keeps;
                  },
                  λ q l b.
                      let inside : q < maxbytes = omega (arith, b, fits) in
                      elim (Bool-cases (ltb q (off + m))) [
                        | inl now ↦ λ z.
                            round-fills off bs ip s o fits pos e q l (ground arith)
                              (h.holes q inside z)
                        | inr later ↦ fills q (ground arith) (omega (arith, b, d))
                      ],
                )
              ]
      ]
]
