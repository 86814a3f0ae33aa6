-- ===== src/Fs/Bits.antt =====
-- The bits of a byte of the block bitmap.
use cs330_operating_systems.Base.{
  Bool-cases, inl, inr, ◌≤◌, ℕ, zero, suc, ◌+◌, ◌-◌, ◌/◌, ◌%◌, ◌^◌, ◌≡◌, ◌≢◌, ◌∙◌, ap, refl, arith,
  Bool, true, false, not, ◌==◌, if◌then◌else◌,
}

-- `w & (1 << k)` as a condition
unfoldable pub has_bit : ℕ → ℕ → Bool
has_bit w zero = not (w % 2 == 0)
has_bit w (suc k) = has_bit (w / 2) k

-- `w | (1 << k)` and `w & ~(1 << k)`
abbrev pub set_bit : ℕ → ℕ → ℕ
set_bit w k = if has_bit w k then w else w + 2 ^ k

abbrev pub clear_bit : ℕ → ℕ → ℕ
clear_bit w k = if has_bit w k then w - 2 ^ k else w

half-add : (w j : ℕ) → (w + 2 ^ suc j) / 2 ≡ w / 2 + 2 ^ j
half-add w j = omega arith

add_self : (w j : ℕ) → has_bit w j ≡ false → has_bit (w + 2 ^ j) j ≡ true
unfolding has_bit
add_self w zero h = ground arith
add_self w (suc j) h = ap (λ x. has_bit x j) (half-add w j) ∙ add_self (w / 2) j h

add_other : (w j k : ℕ) → j ≢ k → has_bit w j ≡ false → has_bit (w + 2 ^ j) k ≡ has_bit w k
unfolding has_bit
add_other w zero zero n h = absurd (n refl)
add_other w zero (suc k) n h = let e : (w + 1) / 2 ≡ w / 2 = ground arith in ap (λ x. has_bit x k) e
add_other w (suc j) zero n h =
    let e : (w + 2 ^ suc j) % 2 ≡ w % 2 = omega arith in ap (λ x. not (x == 0)) e
add_other w (suc j) (suc k) n h =
    ap (λ x. has_bit x k) (half-add w j) ∙ add_other (w / 2) j k (λ e. n (ap suc e)) h

has_bit-le : (w j : ℕ) → has_bit w j ≡ true → 2 ^ j ≤ w
unfolding has_bit
has_bit-le w zero h = ground arith
has_bit-le w (suc j) h = omega (arith, has_bit-le (w / 2) j h)

half-sub : (w j : ℕ) → (w - 2 ^ suc j) / 2 ≡ w / 2 - 2 ^ j
half-sub w j = omega arith

sub_self : (w j : ℕ) → has_bit w j ≡ true → has_bit (w - 2 ^ j) j ≡ false
unfolding has_bit
sub_self w zero h = ground arith
sub_self w (suc j) h = ap (λ x. has_bit x j) (half-sub w j) ∙ sub_self (w / 2) j h

sub_other : (w j k : ℕ) → j ≢ k → has_bit w j ≡ true → has_bit (w - 2 ^ j) k ≡ has_bit w k
unfolding has_bit
sub_other w zero zero n h = absurd (n refl)
sub_other w zero (suc k) n h = let e : (w - 1) / 2 ≡ w / 2 = ground arith in ap (λ x. has_bit x k) e
sub_other w (suc j) zero n h =
    let e : (w - 2 ^ suc j) % 2 ≡ w % 2 = omega (arith, has_bit-le w (suc j) h) in
    ap (λ x. not (x == 0)) e
sub_other w (suc j) (suc k) n h =
    ap (λ x. has_bit x k) (half-sub w j) ∙ sub_other (w / 2) j k (λ e. n (ap suc e)) h

pub has_bit-set_bit : (w j k : ℕ) → has_bit (set_bit w j) k ≡ (if k == j then true else has_bit w k)
has_bit-set_bit w j k = elim (Bool-cases (has_bit w j)) [
  | inl on ↦ ground (arith, on)
  | inr off ↦ ground (arith, off, add_self w j off, add_other w j k)
]

pub has_bit-clear_bit :
    (w j k : ℕ) → has_bit (clear_bit w j) k ≡ (if k == j then false else has_bit w k)
has_bit-clear_bit w j k = elim (Bool-cases (has_bit w j)) [
  | inr off ↦ ground (arith, off)
  | inl on ↦ ground (arith, on, sub_self w j on, sub_other w j k)
]
