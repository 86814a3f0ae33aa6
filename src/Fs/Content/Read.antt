-- ===== src/Fs/Content/Read.antt =====
-- `readi` of fs.c returns the bytes of the file.

use Prim.Native.Nat.{min}
use cs330_operating_systems.Base.{
  ℕ, zero, suc, ◌+◌, ◌-◌, ◌/◌, ◌%◌, ◌^◌, ◌≤◌, ◌<◌, ◌≡◌, ◌∙◌, ◌⊎◌, inl, inr, ap, refl, sym, arith,
  true, false, ◌||◌, ◌==◌, ltb, if◌then◌else◌, Bool-cases, List, [], ◌++◌, none, some, ok, panic,
  ◌>>=◌,
}
use cs330_operating_systems.Kalloc.{add_uint}
use cs330_operating_systems.Fs.{Block, Fs, bsize}
use cs330_operating_systems.Fs.Inode.{Inode}
use cs330_operating_systems.Fs.Content.{bmap, get_bytes, chunk, read_from, readi_file, maxfile}
use cs330_operating_systems.Fs.Content.Owned.{slot_for, IsOwned}
use cs330_operating_systems.Fs.Content.Alloc.{Keeps, trans-Keeps}
use cs330_operating_systems.Fs.Content.Ensure.{Ensured, refl-Keeps}
use cs330_operating_systems.Fs.Content.Bmap.{bmap-Ensured}
use cs330_operating_systems.Fs.Content.Slices.{get_bytes-zero, get_bytes_ext, get_bytes-append}
use cs330_operating_systems.Fs.Content.View.{
  block_at, byte_at, maxbytes, ensured-here, ensured-byte_at, ensured-hole,
}

-- a place of the range where the file has no block
abbrev pub Hole : Inode → Fs → ℕ → ℕ → Type 0
Hole ip s off n = (o : ℕ) × (off ≤ o) × (o < off + n) × (block_at o ip s ≡ 0)

-- The inode has the bytes `view`, its other fields as before, blocks of its own, and no new holes.
pub record Holds (view : Block) (ip : Inode) (s : Fs) (ip' : Inode) (s' : Fs) : Type 0 where
  pub owned : IsOwned ip' s'
  pub bytes : (o : ℕ) → o < maxbytes → byte_at ip' s' o ≡ view o
  pub holes : (o : ℕ) → o < maxbytes → block_at o ip' s' ≡ 0 → block_at o ip s ≡ 0
  pub rest : ip' ≡ record ip { addrs = ip'.addrs }
  pub keeps : Keeps s s'

pub chunk_lem :
    (n off : ℕ)
    → 0 < n
    → (0 < chunk n off) × (chunk n off ≤ n) × (off % bsize + chunk n off ≤ bsize)
chunk_lem n off h = (ground (arith, h), ground (arith, h), ground (arith, h))

read_from-end : (fuel off : ℕ) (ip : Inode) (s : Fs) → read_from fuel off 0 ip s ≡ ok ([], ip, s)
unfolding read_from
read_from-end zero off ip s = refl
read_from-end (suc fuel) off ip s = refl

module _ (fuel off n : ℕ) (ip : Inode) (s : Fs) (some_left : 0 < n) where
  read_from-panic : bmap (off / bsize) ip s ≡ panic → read_from (suc fuel) off n ip s ≡ panic
  unfolding read_from
  read_from-panic e = let z : (n == 0) ≡ false = ground (arith, some_left) in rw (z, e)

  read_from-panics :
      {a : ℕ} {ip₁ : Inode} {s₁ : Fs}
      → bmap (off / bsize) ip s ≡ ok (a, ip₁, s₁)
      → read_from fuel (off + chunk n off) (n - chunk n off) ip₁ s₁ ≡ panic
      → read_from (suc fuel) off n ip s ≡ panic
  unfolding read_from
  read_from-panics e e' = let z : (n == 0) ≡ false = ground (arith, some_left) in rw (z, e, e')

  read_from-next :
      {a : ℕ} {ip₁ ip₂ : Inode} {s₁ s₂ : Fs} {bs : List ℕ}
      → bmap (off / bsize) ip s ≡ ok (a, ip₁, s₁)
      → read_from fuel (off + chunk n off) (n - chunk n off) ip₁ s₁ ≡ ok (bs, ip₂, s₂)
      → read_from (suc fuel) off n ip s
        ≡ ok (get_bytes (s₁.block a) (off % bsize) (chunk n off) ++ bs, ip₂, s₂)
  unfolding read_from
  read_from-next e e' = let z : (n == 0) ≡ false = ground (arith, some_left) in rw (z, e, e')

-- the bytes of one round and of the rounds after it
round_bytes :
    (off m n r : ℕ) (ip : Inode) (s : Fs) {a : ℕ} {ip₁ : Inode} {s₁ : Fs}
    → IsOwned ip s
    → off + n ≤ maxbytes
    → off % bsize + m ≤ bsize
    → 0 < m
    → n ≡ m + r
    → Ensured (slot_for (off / bsize)) ip s a ip₁ s₁
    → get_bytes (s₁.block a) (off % bsize) m ++ get_bytes (byte_at ip₁ s₁) (off + m) r
      ≡ get_bytes (byte_at ip s) off n
round_bytes off m n r ip s {a} {ip₁} {s₁} o fits in_block pos e d =
    let small : off / bsize < maxfile = omega (arith, fits, e, pos) in
    let view = ensured-byte_at o small d in
    let first = get_bytes_ext (s₁.block a) (byte_at ip s) (off % bsize) off m (λ k h.
      let q : off % bsize + k ≡ (off + k) % bsize = omega (arith, in_block, h) in
      ap (s₁.block a) q
      ∙ sym (ensured-here o small d (off + k) (omega (arith, in_block, h)))
      ∙ view (off + k) (omega (arith, fits, e, h))) in
    let rest =
      get_bytes_ext (byte_at ip₁ s₁) (byte_at ip s) (off + m) (off + m) r
        (λ k h. view (off + m + k) (omega (arith, fits, e, h))) in
    ap (λ l. l ++ get_bytes (byte_at ip₁ s₁) (off + m) r) first
    ∙ ap (λ l. get_bytes (byte_at ip s) off m ++ l) rest
    ∙ get_bytes-append (byte_at ip s) off m r n e

pub read_from-Holds :
    (fuel off n : ℕ) (ip : Inode) (s : Fs)
    → IsOwned ip s
    → off + n ≤ maxbytes
    → n ≤ fuel
    → ((read_from fuel off n ip s ≡ panic) × Hole ip s off n)
      ⊎ ((ip' : Inode) × (s' : Fs) × (read_from fuel off n ip s
            ≡ ok (get_bytes (byte_at ip s) off n, ip', s'))
          × Holds (byte_at ip s) ip s ip' s')
read_from-Holds fuel off zero ip s o fits enough = inr (
  ip,
  s,
  read_from-end fuel off ip s ∙ rw (get_bytes-zero (byte_at ip s) off),
  record {
    owned = o;
    bytes = λ q h. refl;
    holes = λ q h z. z;
    rest = refl;
    keeps = refl-Keeps ip o;
  },
)
read_from-Holds zero off (suc n) ip s o fits enough = absurd (omega (arith, enough))
read_from-Holds (suc fuel) off (suc n) ip s o fits enough =
    let (pos, le, in_block) = chunk_lem (suc n) off (omega arith) in
    let m = chunk (suc n) off in
    let small : off / bsize < maxfile = omega (arith, fits) in
    elim (bmap-Ensured (off / bsize) ip s o small) [
      | inl (stop, z, full) ↦ inl (
        read_from-panic fuel off (suc n) ip s (omega arith) stop,
        (off, omega arith, omega arith, z),
      )
      | inr (a, ip₁, s₁, run, e) ↦
          elim (read_from-Holds fuel (off + m) (suc n - m) ip₁ s₁ e.owned (omega (arith, fits, le))
            (omega (arith, enough, pos))) [
              | inl (stop, (q, l, h, z)) ↦ inl (
                read_from-panics fuel off (suc n) ip s (omega arith) run stop,
                (
                  q,
                  omega (arith, l),
                  omega (arith, h, le),
                  ensured-hole o small e q (omega (arith, h, le, fits)) z,
                ),
              )
              | inr (ip₂, s₂, run', d) ↦
                  let view = ensured-byte_at o small e in
                  inr (
                    ip₂,
                    s₂,
                    read_from-next fuel off (suc n) ip s (omega arith) run run'
                        ∙ ap (λ l. ok (l, ip₂, s₂))
                            (round_bytes off m (suc n) (suc n - m) ip s o fits in_block pos
                              (omega (arith, le)) e),
                    record {
                      owned = d.owned;
                      bytes = λ q h. d.bytes q h ∙ view q h;
                      holes = λ q h z. ensured-hole o small e q h (d.holes q h z);
                      rest = d.rest ∙ ap {A = Inode} (λ x. record x { addrs = ip₂.addrs }) e.rest;
                      keeps = trans-Keeps e.keeps d.keeps;
                    },
                  )
            ]
    ]

module _ (off n : ℕ) (ip : Inode) (s : Fs) where
  readi_file-refuses :
      (ltb ip.size off || ltb (add_uint off n) off) ≡ true
      → readi_file off n ip s ≡ ok (none, ip, s)
  unfolding readi_file
  readi_file-refuses h = rw h

  readi_file-reads :
      off ≤ ip.size
      → off + n < 2 ^ 32
      → readi_file off n ip s ≡ (
          read_from (min n (ip.size - off)) off (min n (ip.size - off)) ip s >>= λ (bs, ip₁, s₁).
          ok (some bs, ip₁, s₁))
  unfolding readi_file
  readi_file-reads h h' =
      let t : (ltb ip.size off || ltb (add_uint off n) off) ≡ false = ground (arith, h, h') in
      let m : (if ltb ip.size (add_uint off n) then ip.size - off else n) ≡ min n (ip.size - off) =
        ground (arith, h, h') in
      rw (t, m)

-- `readi` of a file that is no device, for an inode whose slots have different blocks of the disk and
-- whose size is at most MAXFILE blocks: from beyond the end, or when the end wraps around, it returns -1
-- and changes nothing. Otherwise it returns the file's bytes from the offset on, at most `n` of them and
-- none behind the end, and the file has the bytes it had; or it panics, for want of a block, at a place of
-- the range where the file has none.
pub readi_file-Holds :
    (off n : ℕ) (ip : Inode) (s : Fs)
    → IsOwned ip s
    → ip.size ≤ maxbytes
    → n < 2 ^ 32
    → ((readi_file off n ip s ≡ ok (none, ip, s)) × ((ip.size < off) ⊎ (2 ^ 32 ≤ off + n)))
      ⊎ ((off ≤ ip.size)
          × (((readi_file off n ip s ≡ panic) × Hole ip s off (min n (ip.size - off)))
              ⊎ ((ip' : Inode) × (s' : Fs) × (readi_file off n ip s
                    ≡ ok (some (get_bytes (byte_at ip s) off (min n (ip.size - off))), ip', s'))
                  × Holds (byte_at ip s) ip s ip' s')))
readi_file-Holds off n ip s o bound word =
    elim (Bool-cases (ltb ip.size off || ltb (add_uint off n) off)) [
      | inl out ↦ inl (readi_file-refuses off n ip s out, ground (arith, word))
      | inr inside ↦
          let le : off ≤ ip.size = ground arith in
          let fits : off + n < 2 ^ 32 = ground (arith, word, bound, le) in
          let m = min n (ip.size - off) in
          let run = readi_file-reads off n ip s le fits in
          inr (
            le,
            elim (read_from-Holds m off m ip s o (omega (arith, le, bound)) (omega arith)) [
              | inl (stop, hole) ↦ inl (run ∙ rw stop, hole)
              | inr (ip', s', run', d) ↦ inr (ip', s', run ∙ rw run', d)
            ],
          )
    ]
