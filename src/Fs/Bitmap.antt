-- ===== src/Fs/Bitmap.antt =====
-- `balloc` and `bfree` of fs.c on the bits that they read and write.
use mathlib.Core.Path.{subst}
use cs330_operating_systems.Base.{
  ℕ, zero, suc, ◌+◌, ◌/◌, ◌%◌, ◌≤◌, ◌<◌, ◌≡◌, inl, inr, sym, arith, Bool, true, false, ◌==◌,
  if◌then◌else◌, none, some, Bool-cases,
}
use cs330_operating_systems.Fs.{Block, Fs, bpb, bblock, find_bit, mark_bit, unmark_bit}
use cs330_operating_systems.Fs.Bits.{has_bit, has_bit-set_bit, has_bit-clear_bit}

abbrev pub bit_of : Block → ℕ → Bool
bit_of bytes j = has_bit (bytes (j / 8)) (j % 8)

-- the bit of a block in the block of the bitmap that has it
abbrev pub is_used : ℕ → Fs → Bool
is_used b s = bit_of (s.block (bblock b s)) (b % bpb)

pub bit_of-mark_bit :
    (bytes : Block) (c j : ℕ)
    → bit_of (mark_bit c bytes) j ≡ (if j == c then true else bit_of bytes j)
bit_of-mark_bit bytes c j = ground (arith, has_bit-set_bit (bytes (c / 8)) (c % 8) (j % 8))

pub bit_of-unmark_bit :
    (bytes : Block) (c j : ℕ)
    → bit_of (unmark_bit c bytes) j ≡ (if j == c then false else bit_of bytes j)
bit_of-unmark_bit bytes c j = ground (arith, has_bit-clear_bit (bytes (c / 8)) (c % 8) (j % 8))

-- what the scan finds: the first clear bit
abbrev pub IsFirst : Block → ℕ → ℕ → ℕ → Type 0
IsFirst bytes n bi c =
    (bi ≤ c)
    × (c < bi + n)
    × (bit_of bytes c ≡ false)
    × ((j : ℕ) → bi ≤ j → j < c → bit_of bytes j ≡ true)

pub find_bit-IsFirst :
    (bytes : Block) (n bi c : ℕ) → find_bit bytes n bi ≡ some c → IsFirst bytes n bi c
unfolding find_bit
find_bit-IsFirst bytes zero bi c e = absurd (cc)
find_bit-IsFirst bytes (suc n) bi c e = elim (Bool-cases (bit_of bytes bi)) [
  | inr clear ↦
      let same : bi ≡ c = ground arith in
      (
        omega (arith, same),
        omega (arith, same),
        subst (λ x. bit_of bytes x ≡ false) same clear,
        λ j l t. absurd (omega (arith, same, l, t)),
      )
  | inl on ↦
      let rest : find_bit bytes n (bi + 1) ≡ some c = ground arith in
      let (l, t, clear, below) = find_bit-IsFirst bytes n (bi + 1) c rest in
      (
        omega (arith, l),
        omega (arith, t),
        clear,
        λ j a b. elim (Bool-cases (j == bi)) [
          | inl here ↦
              let same : j ≡ bi = ground arith in subst (λ x. bit_of bytes x ≡ true) (sym same) on
          | inr on_from ↦ below j (ground arith) b
        ],
      )
]

pub find_bit-none :
    (bytes : Block) (n bi : ℕ)
    → find_bit bytes n bi ≡ none
    → (j : ℕ) → bi ≤ j
    → j < bi + n
    → bit_of bytes j ≡ true
unfolding find_bit
find_bit-none bytes zero bi e j l t = absurd (omega (arith, l, t))
find_bit-none bytes (suc n) bi e j l t = elim (Bool-cases (bit_of bytes bi)) [
  | inr clear ↦ absurd (ground arith)
  | inl on ↦ elim (Bool-cases (j == bi)) [
    | inl here ↦
        let same : j ≡ bi = ground arith in subst (λ x. bit_of bytes x ≡ true) (sym same) on
    | inr on_from ↦
        let rest : find_bit bytes n (bi + 1) ≡ none = ground arith in
        find_bit-none bytes n (bi + 1) rest j (ground arith) (omega (arith, t))
  ]
]
