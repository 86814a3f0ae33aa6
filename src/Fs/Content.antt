-- ===== src/Fs/Content.antt =====
-- fs.c: the content of an inode, in direct blocks and in one indirect block.
pub mod Owned
pub mod Alloc
pub mod Ensure
pub mod Linked
pub mod Bmap
pub mod Slices
pub mod View
pub mod Read
pub mod Store
pub mod Write
pub mod Grow
use cs330_operating_systems.Base.{
  ℕ, zero, suc, ◌+◌, ◌-◌, ◌*◌, ◌/◌, ◌%◌, ◌^◌, Bool, true, false, not, ◌&&◌, ◌||◌, ltb, leb, ◌==◌,
  if◌then◌else◌, Option, none, some, List, [], ◌∷◌, ◌++◌, Outcome, ok, panic, out_of_fuel, ◌>>=◌,
  update, take, drop, length,
}
use cs330_operating_systems.Kalloc.{add_uint}
use cs330_operating_systems.Fs.{Block, Fs, bsize, write_block, balloc, bfree}
use cs330_operating_systems.Fs.Bytes.{get_le, put_le}
use cs330_operating_systems.Fs.Inode.{Inode, ndirect, iupdate, drop_user}

abbrev pub nindirect : ℕ
nindirect = bsize / 4

abbrev pub maxfile : ℕ
maxfile = ndirect + nindirect

-- `ip->addrs[i] = a`
abbrev pub set_addr : ℕ → ℕ → Inode → Inode
set_addr i a ip = record ip { addrs = update ip.addrs i a }

-- `if((addr = ip->addrs[i]) == 0) ip->addrs[i] = addr = balloc(ip->dev)`
unfoldable pub ensure_addr : ℕ → Inode → Fs → Outcome (ℕ × Inode × Fs)
ensure_addr i ip s =
    if ip.addrs i == 0
    then (balloc s >>= λ (a, s₁). ok (a, set_addr i a ip, s₁))
    else ok (ip.addrs i, ip, s)

-- `a[k]` of an indirect block
abbrev pub entry : ℕ → ℕ → Fs → ℕ
entry addr k s = get_le (s.block addr) (4 * k) 4

-- `bmap` from the indirect block on
unfoldable pub ensure_entry : ℕ → ℕ → Fs → Outcome (ℕ × Fs)
ensure_entry addr k s =
    if entry addr k s == 0
    then (balloc s >>= λ (a, s₁). ok (a, write_block addr (put_le (s₁.block addr) (4 * k) 4 a) s₁))
    else ok (entry addr k s, s)

unfoldable pub bmap : ℕ → Inode → Fs → Outcome (ℕ × Inode × Fs)
unfolding ensure_addr ensure_entry
bmap bn ip s =
    if ltb bn ndirect
    then ensure_addr bn ip s
    else if ltb (bn - ndirect) nindirect
    then (ensure_addr ndirect ip s >>= λ (addr, ip₁, s₁).
        ensure_entry addr (bn - ndirect) s₁ >>= λ (a, s₂). ok (a, ip₁, s₂))
    else panic

-- the loop of `itrunc` over the direct blocks, from `i` on
unfoldable pub trunc_direct : ℕ → ℕ → Inode → Fs → Outcome (Inode × Fs)
trunc_direct zero i ip s = ok (ip, s)
trunc_direct (suc n) i ip s =
    (if ip.addrs i == 0
      then ok (ip, s)
      else (bfree (ip.addrs i) s >>= λ s₁. ok (set_addr i 0 ip, s₁)))
    >>= λ (ip₁, s₁). trunc_direct n (i + 1) ip₁ s₁

-- the loop over the entries of the indirect block `addr`
unfoldable pub trunc_entries : ℕ → ℕ → ℕ → Fs → Outcome Fs
trunc_entries addr zero j s = ok s
trunc_entries addr (suc n) j s =
    (if entry addr j s == 0 then ok s else bfree (entry addr j s) s) >>= λ s₁.
    trunc_entries addr n (j + 1) s₁

unfoldable pub trunc_indirect : Inode → Fs → Outcome (Inode × Fs)
unfolding trunc_entries
trunc_indirect ip s =
    if ip.addrs ndirect == 0
    then ok (ip, s)
    else (trunc_entries (ip.addrs ndirect) nindirect 0 s >>= λ s₁.
        bfree (ip.addrs ndirect) s₁ >>= λ s₂. ok (set_addr ndirect 0 ip, s₂))

unfoldable pub itrunc : Inode → Fs → Outcome (Inode × Fs)
unfolding trunc_direct trunc_indirect
itrunc ip s = trunc_direct ndirect 0 ip s >>= λ (ip₁, s₁). trunc_indirect ip₁ s₁ >>= λ (ip₂, s₂).
    let ip₃ = record ip₂ { size = 0 } in ok (ip₃, iupdate ip₃ s₂)

-- `iput`; the entry's last user frees an inode without links
unfoldable pub iput : Inode → Fs → Outcome (Inode × Fs)
unfolding itrunc
iput ip s =
    if ip.valid && (ip.nlink == 0) && (ip.ref == 1)
    then (itrunc ip s >>= λ (ip₁, s₁).
        let ip₂ = record ip₁ { type = 0 } in
        ok (drop_user (record ip₂ { valid = false }), iupdate ip₂ s₁))
    else ok (drop_user ip, s)

-- the bytes from `off` on, and a `memmove` to there
unfoldable pub get_bytes : Block → ℕ → ℕ → List ℕ
get_bytes bytes off zero = []
get_bytes bytes off (suc n) = bytes off ∷ get_bytes bytes (off + 1) n

unfoldable pub put_bytes : Block → ℕ → List ℕ → Block
put_bytes bytes off [] = bytes
put_bytes bytes off (b ∷ bs) = put_bytes (update bytes off b) (off + 1) bs

-- `min(n - tot, BSIZE - off%BSIZE)`
abbrev pub chunk : ℕ → ℕ → ℕ
chunk n off = if ltb n (bsize - off % bsize) then n else bsize - off % bsize

-- The loop of `readi` at `off`, `n` bytes being left.
unfoldable pub read_from : ℕ → ℕ → ℕ → Inode → Fs → Outcome (List ℕ × Inode × Fs)
unfolding bmap get_bytes
read_from zero off n ip s = if n == 0 then ok ([], ip, s) else out_of_fuel
read_from (suc fuel) off n ip s =
    if n == 0
    then ok ([], ip, s)
    else (bmap (off / bsize) ip s >>= λ (a, ip₁, s₁).
        read_from fuel (off + chunk n off) (n - chunk n off) ip₁ s₁ >>= λ (bs, ip₂, s₂).
        ok (get_bytes (s₁.block a) (off % bsize) (chunk n off) ++ bs, ip₂, s₂))

abbrev pub t_dev : ℕ
t_dev = 3

abbrev pub ndev : ℕ
ndev = 10

-- `readi` of a file that is no device: `none` is the return value -1
unfoldable pub readi_file : ℕ → ℕ → Inode → Fs → Outcome (Option (List ℕ) × Inode × Fs)
unfolding read_from
readi_file off n ip s =
    if ltb ip.size off || ltb (add_uint off n) off
    then ok (none, ip, s)
    else let n₁ = if ltb ip.size (add_uint off n) then ip.size - off else n in
      read_from n₁ off n₁ ip s >>= λ (bs, ip₁, s₁). ok (some bs, ip₁, s₁)

-- The loop of `writei` at `off`.
unfoldable pub write_from : ℕ → ℕ → List ℕ → Inode → Fs → Outcome (Inode × Fs)
unfolding bmap put_bytes
write_from zero off bs ip s = if length bs == 0 then ok (ip, s) else out_of_fuel
write_from (suc fuel) off bs ip s =
    if length bs == 0
    then ok (ip, s)
    else (bmap (off / bsize) ip s >>= λ (a, ip₁, s₁).
        let m = chunk (length bs) off in
        write_from fuel (off + m) (drop m bs) ip₁
          (write_block a (put_bytes (s₁.block a) (off % bsize) (take m bs)) s₁))

-- the end of `writei`
abbrev pub grow : ℕ → ℕ → Inode → Fs → Inode × Fs
grow n end ip s =
    if ltb 0 n && ltb ip.size end
    then (record ip { size = end }, iupdate (record ip { size = end }) s)
    else (ip, s)

-- `writei` of a file that is no device; the result `true` is the return value `n`
unfoldable pub writei_file : ℕ → List ℕ → Inode → Fs → Outcome (Bool × Inode × Fs)
unfolding write_from
writei_file off bs ip s =
    let n = length bs in
    if ltb ip.size off || ltb (add_uint off n) off
    then ok (false, ip, s)
    else if ltb (maxfile * bsize) (add_uint off n)
    then ok (false, ip, s)
    else (write_from n off bs ip s >>= λ (ip₁, s₁).
        let (ip₂, s₂) = grow n (off + n) ip₁ s₁ in ok (true, ip₂, s₂))

-- `devsw`, the devices' functions by major number, is a parameter: a device gives bytes, or takes bytes
-- and says whether it did.
module _ (device_read : ℕ → Option (Inode → ℕ → Option (List ℕ)))
    (device_write : ℕ → Option (Inode → List ℕ → Bool)) where
  -- A negative major number is a pattern from 2^15 on.
  unfoldable pub readi : ℕ → ℕ → Inode → Fs → Outcome (Option (List ℕ) × Inode × Fs)
  unfolding readi_file
  readi off n ip s =
      if ip.type == t_dev
      then if leb ndev ip.major then ok (none, ip, s) else (elim (device_read ip.major) [
        | none ↦ ok (none, ip, s)
        | some read ↦ ok (read ip n, ip, s)
      ])
      else readi_file off n ip s

  unfoldable pub writei : ℕ → List ℕ → Inode → Fs → Outcome (Bool × Inode × Fs)
  unfolding writei_file
  writei off bs ip s =
      if ip.type == t_dev
      then if leb ndev ip.major then ok (false, ip, s) else (elim (device_write ip.major) [
        | none ↦ ok (false, ip, s)
        | some write ↦ ok (write ip bs, ip, s)
      ])
      else writei_file off bs ip s
