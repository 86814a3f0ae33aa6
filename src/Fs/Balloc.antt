-- ===== src/Fs/Balloc.antt =====
-- `balloc` of fs.c takes the first block that is not in use, and `bfree` gives it back.
use mathlib.Core.Path.{subst}
use cs330_operating_systems.Base.{
  ℕ, zero, suc, ◌+◌, ◌-◌, ◌*◌, ◌/◌, ◌%◌, ◌≤◌, ◌<◌, ◌≡◌, ◌≢◌, ◌∙◌, ◌⊎◌, inl, inr, ap, refl, sym,
  arith, Bool, true, false, leb, ltb, ◌==◌, if◌then◌else◌, ◌∷◌, none, some, ok, panic, Bool-cases,
  Option-cases, update_self, update_other, Outcome,
}
use cs330_operating_systems.Fs.{
  Block, Fs, bpb, bblock, write_block, bzero, find_bit, mark_bit, bits_at, take_bit, balloc_from,
  balloc,
}
use cs330_operating_systems.Fs.Bitmap.{
  bit_of, is_used, bit_of-mark_bit, find_bit-IsFirst, find_bit-none,
}

-- The blocks of the bitmap are marked as used in it.
pub record IsBitmap (s : Fs) : Type 0 where
  pub kept : (b j : ℕ) → b < s.sb.size → j < s.sb.size → is_used b s ≡ false → bblock j s ≢ b

pub record Allocated (s : Fs) (b : ℕ) (s' : Fs) : Type 0 where
  pub in_range : b < s.sb.size
  pub was_free : is_used b s ≡ false
  pub lowest : (j : ℕ) → j < b → is_used j s ≡ true
  pub used : (j : ℕ) → j < s.sb.size → is_used j s' ≡ (if j == b then true else is_used j s)
  pub zeroed : (i : ℕ) → s'.block b i ≡ 0
  pub others : (c : ℕ) → c ≢ b → c ≢ bblock b s → s'.block c ≡ s.block c
  pub sb : s'.sb ≡ s.sb
  pub logged : s'.logged ≡ b ∷ bblock b s ∷ s.logged

-- the bits of one block of the bitmap are those of `bpb` blocks
is_used-bit_of :
    (k j : ℕ) (s : Fs) → j < bpb → is_used (k * bpb + j) s ≡ bit_of (s.block (bblock (k * bpb) s)) j
is_used-bit_of k j s h =
    let e : (k * bpb + j) / bpb ≡ k * bpb / bpb = omega (arith, h) in
    let r : (k * bpb + j) % bpb ≡ j = omega (arith, h) in
    ap (λ c. bit_of (s.block (c + s.sb.bmapstart)) ((k * bpb + j) % bpb)) e
    ∙ ap (bit_of (s.block (bblock (k * bpb) s))) r

-- A write to another block than the bit's leaves it alone; a write to that block decides it.
pub used-there :
    (j c : ℕ) (bytes : Block) (s : Fs)
    → bblock j s ≢ c
    → is_used j (write_block c bytes s) ≡ is_used j s
used-there j c bytes s h =
    ap (λ x. bit_of x (j % bpb)) (update_other s.block c bytes (bblock j s) h)

used-here :
    (j : ℕ) (bytes : Block) (s : Fs)
    → is_used j (write_block (bblock j s) bytes s) ≡ bit_of bytes (j % bpb)
used-here j bytes s = ap (λ x. bit_of x (j % bpb)) (update_self s.block (bblock j s) bytes)

-- changing the bit of `b` to `v`
pub used-write :
    (b j : ℕ) (v : Bool) (bytes : Block) (s : Fs)
    → ((i : ℕ) → bit_of bytes i ≡ (if i == b % bpb then v else bit_of (s.block (bblock b s)) i))
    → is_used j (write_block (bblock b s) bytes s) ≡ (if j == b then v else is_used j s)
used-write b j v bytes s h = elim (Bool-cases (j / bpb == b / bpb)) [
  | inl same ↦
      let e : j / bpb ≡ b / bpb = ground arith in
      let d : (j % bpb == b % bpb) ≡ (j == b) = ground (arith, e) in
      let c : bblock j s ≡ bblock b s = ap (λ x. x + s.sb.bmapstart) e in
      ap (λ x. is_used j (write_block x bytes s)) (sym c)
      ∙ used-here j bytes s
      ∙ h (j % bpb)
      ∙ ap (λ x. if x then v else bit_of (s.block (bblock b s)) (j % bpb)) d
      ∙ ap (λ x. if j == b then v else bit_of (s.block x) (j % bpb)) (sym c)
  | inr other ↦
      let d : (j == b) ≡ false = ground arith in
      let c : bblock j s ≢ bblock b s = λ e. absurd (ground (arith, e)) in
      used-there j (bblock b s) bytes s c ∙ rw d
]

-- the state after `take_bit`, for the bit of the block `b`
abbrev pub taken : ℕ → Fs → Fs
taken b s =
    write_block b (λ i. 0) (write_block (bblock b s) (mark_bit (b % bpb) (s.block (bblock b s))) s)

take_bit-taken :
    (k bi : ℕ) (s : Fs)
    → bi < bpb
    → take_bit (k * bpb) bi s ≡ ok (k * bpb + bi, taken (k * bpb + bi) s)
unfolding take_bit bzero
take_bit-taken k bi s h =
    let e : k * bpb / bpb ≡ (k * bpb + bi) / bpb = omega (arith, h) in
    let r : bi ≡ (k * bpb + bi) % bpb = omega (arith, h) in
    ap
      (λ c. ok (
        k * bpb + bi,
        write_block (k * bpb + bi) (λ i. 0) (write_block c (mark_bit bi (s.block c)) s),
      ))
      (ap (λ x. x + s.sb.bmapstart) e)
    ∙ ap
        (λ x. ok (
          k * bpb + bi,
          write_block (k * bpb + bi) (λ i. 0)
              (write_block (bblock (k * bpb + bi) s)
                (mark_bit x (s.block (bblock (k * bpb + bi) s))) s),
        ))
        r

taken-Allocated :
    (b : ℕ) (s : Fs)
    → IsBitmap s
    → b < s.sb.size
    → is_used b s ≡ false
    → ((j : ℕ) → j < b → is_used j s ≡ true)
    → Allocated s b (taken b s)
taken-Allocated b s w inside clear below =
    let c = bblock b s in
    let s₁ = write_block c (mark_bit (b % bpb) (s.block c)) s in
    record {
      in_range = inside;
      was_free = clear;
      lowest = below;
      used = λ j h.
          used-there j b (λ i. 0) s₁ (w.kept b j inside h clear)
          ∙ used-write b j true (mark_bit (b % bpb) (s.block c)) s
              (bit_of-mark_bit (s.block c) (b % bpb));
      zeroed = λ i. ap (λ x. x i) (update_self s₁.block b (λ i. 0));
      others = λ d h h'.
          update_other s₁.block b (λ i. 0) d h
          ∙ update_other s.block c (mark_bit (b % bpb) (s.block c)) d h';
      sb = refl;
      logged = refl;
    }

-- One round of the outer loop: a block of the bitmap with a clear bit, one without, and the end.
balloc_from-found :
    (fuel b bi : ℕ) (s : Fs)
    → b < s.sb.size
    → find_bit (s.block (bblock b s)) (bits_at s.sb.size b) 0 ≡ some bi
    → balloc_from (suc fuel) b s ≡ take_bit b bi s
unfolding balloc_from
balloc_from-found fuel b bi s h e = let t : ltb b s.sb.size ≡ true = ground (arith, h) in rw (t, e)

balloc_from-next :
    (fuel b : ℕ) (s : Fs)
    → b < s.sb.size
    → find_bit (s.block (bblock b s)) (bits_at s.sb.size b) 0 ≡ none
    → balloc_from (suc fuel) b s ≡ balloc_from fuel (b + bpb) s
unfolding balloc_from
balloc_from-next fuel b s h e = let t : ltb b s.sb.size ≡ true = ground (arith, h) in rw (t, e)

balloc_from-end : (fuel b : ℕ) (s : Fs) → s.sb.size ≤ b → balloc_from (suc fuel) b s ≡ panic
unfolding balloc_from
balloc_from-end fuel b s h = let t : ltb b s.sb.size ≡ false = ground (arith, h) in rw t

is_used-at :
    (k j : ℕ) (s : Fs)
    → k * bpb ≤ j
    → j < k * bpb + bpb
    → is_used j s ≡ bit_of (s.block (bblock (k * bpb) s)) (j - k * bpb)
is_used-at k j s l h =
    let e : k * bpb + (j - k * bpb) ≡ j = omega (arith, l) in
    ap (λ x. is_used x s) (sym e) ∙ is_used-bit_of k (j - k * bpb) s (omega (arith, h, l))

-- The bits of one block of the bitmap cover the disk's blocks up to the next one or to the end.
bits_at_lem :
    (size b : ℕ)
    → b < size
    → (bits_at size b ≤ bpb)
      × (b + bits_at size b ≤ size)
      × ((bits_at size b ≡ bpb) ⊎ (b + bits_at size b ≡ size))
bits_at_lem size b h = elim (Bool-cases (leb bpb (size - b))) [
  | inl whole ↦ (ground arith, ground arith, inl (ground arith))
  | inr rest ↦ (ground arith, ground arith, inr (ground arith))
]

-- What is used below a block of the bitmap, with what the scan saw in it.
below_next :
    (k n : ℕ) (s : Fs)
    → n ≤ bpb
    → ((j : ℕ) → j < k * bpb → j < s.sb.size → is_used j s ≡ true)
    → ((j : ℕ) → 0 ≤ j → j < 0 + n → bit_of (s.block (bblock (k * bpb) s)) j ≡ true)
    → (j : ℕ) → j < k * bpb + n
    → j < s.sb.size
    → is_used j s ≡ true
below_next k n s small below bits j h i = elim (Bool-cases (ltb j (k * bpb))) [
  | inl before ↦ below j (ground arith) i
  | inr here ↦
      let le : k * bpb ≤ j = ground arith in
      is_used-at k j s le (omega (arith, h, small))
      ∙ bits (j - k * bpb) (omega arith) (omega (arith, h, le))
]

-- How `balloc` can end.
abbrev pub Ends : Fs → Outcome (ℕ × Fs) → Type 0
Ends s r =
    ((r ≡ panic) × ((j : ℕ) → j < s.sb.size → is_used j s ≡ true))
    ⊎ ((b : ℕ) × (s' : Fs) × (r ≡ ok (b, s')) × Allocated s b s')

balloc_from-Ends :
    (fuel k : ℕ) (s : Fs)
    → IsBitmap s
    → s.sb.size + bpb ≤ k * bpb + fuel * bpb
    → k * bpb < s.sb.size + bpb
    → ((j : ℕ) → j < k * bpb → j < s.sb.size → is_used j s ≡ true)
    → Ends s (balloc_from fuel (k * bpb) s)
balloc_from-Ends zero k s w enough near below = absurd (omega (arith, enough, near))
balloc_from-Ends (suc fuel) k s w enough near below = elim (Bool-cases (leb s.sb.size (k * bpb))) [
  | inl stop ↦
      let le : s.sb.size ≤ k * bpb = ground arith in
      inl (balloc_from-end fuel (k * bpb) s le, λ j h. below j (omega (arith, h, le)) h)
  | inr on ↦
      let lt : k * bpb < s.sb.size = ground arith in
      elim (Option-cases
        (find_bit (s.block (bblock (k * bpb) s)) (bits_at s.sb.size (k * bpb)) 0)) [
          | inr (bi, e) ↦
              let (small, inside, _) = bits_at_lem s.sb.size (k * bpb) lt in
              let n = bits_at s.sb.size (k * bpb) in
              let (_, t, clear, bits) = find_bit-IsFirst (s.block (bblock (k * bpb) s)) n 0 bi e in
              let there : k * bpb + bi < s.sb.size = omega (arith, t, inside) in
              let fits : bi < bpb = omega (arith, t, small) in
              inr (
                k * bpb + bi,
                taken (k * bpb + bi) s,
                balloc_from-found fuel (k * bpb) bi s lt e ∙ take_bit-taken k bi s fits,
                taken-Allocated (k * bpb + bi) s w there (is_used-bit_of k bi s fits ∙ clear)
                    (λ j h.
                      below_next k bi s (omega (arith, fits)) below
                        (λ i a b. bits i a (omega (arith, b))) j h (omega (arith, h, there))),
              )
          | inl e ↦
              let (small, inside, full) = bits_at_lem s.sb.size (k * bpb) lt in
              let n = bits_at s.sb.size (k * bpb) in
              let bits = find_bit-none (s.block (bblock (k * bpb) s)) n 0 e in
              let past : (j : ℕ) → j < suc k * bpb → j < s.sb.size → is_used j s ≡ true =
                λ j h i. below_next k n s small below bits j (omega (arith, h, i, full)) i in
              let step : k * bpb + bpb ≡ suc k * bpb = omega arith in
              subst (Ends s)
                (sym (balloc_from-next fuel (k * bpb) s lt e ∙ ap (λ b. balloc_from fuel b s) step))
                (balloc_from-Ends fuel (suc k) s w (omega (arith, enough)) (omega (arith, lt)) past)
        ]
]

-- On a disk whose bitmap marks its own blocks as used, `balloc` panics exactly when every block is in
-- use. Otherwise it returns the first block that is not, marks it and no other block as used, fills it
-- with zeros, changes no third block, and logs the two blocks that it has changed.
pub balloc-Allocated :
    (s : Fs)
    → IsBitmap s
    → ((balloc s ≡ panic) × ((j : ℕ) → j < s.sb.size → is_used j s ≡ true))
      ⊎ ((b : ℕ) × (s' : Fs) × (balloc s ≡ ok (b, s')) × Allocated s b s')
unfolding balloc
balloc-Allocated s w =
    balloc_from-Ends (s.sb.size / bpb + 2) 0 s w (omega arith) (omega arith)
      (λ j h i. absurd (omega (arith, h)))
