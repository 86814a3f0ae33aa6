-- ===== src/Fs/Bytes.antt =====
-- Numbers in the bytes of a block, least significant byte first, as the processor stores them.
use cs330_operating_systems.Base.{
  ℕ, zero, suc, ◌+◌, ◌*◌, ◌/◌, ◌%◌, ◌^◌, ◌≤◌, ◌<◌, ◌≡◌, ◌∙◌, ◌⊎◌, refl, arith, update, update_self,
  update_other,
}

-- a load and a store of `k` bytes at `off`
unfoldable pub get_le : (ℕ → ℕ) → ℕ → ℕ → ℕ
get_le f off zero = 0
get_le f off (suc k) = f off + 256 * get_le f (off + 1) k

unfoldable pub put_le : (ℕ → ℕ) → ℕ → ℕ → ℕ → ℕ → ℕ
put_le f off zero w = f
put_le f off (suc k) w = put_le (update f off (w % 256)) (off + 1) k (w / 256)

-- A store changes its own bytes only.
pub put_le-other :
    (f : ℕ → ℕ) (off k w j : ℕ) → (j < off) ⊎ (off + k ≤ j) → put_le f off k w j ≡ f j
unfolding put_le
put_le-other f off zero w j h = refl
put_le-other f off (suc k) w j h =
    put_le-other (update f off (w % 256)) (off + 1) k (w / 256) j (omega (arith, h))
    ∙ update_other f off (w % 256) j (omega (arith, h))

pub get_le-apart :
    (f : ℕ → ℕ) (off k w at n : ℕ)
    → (at + n ≤ off) ⊎ (off + k ≤ at)
    → get_le (put_le f off k w) at n ≡ get_le f at n
unfolding get_le
get_le-apart f off k w at zero h = refl
get_le-apart f off k w at (suc n) h =
    let first = put_le-other f off k w at (omega (arith, h)) in
    let rest = get_le-apart f off k w (at + 1) n (omega (arith, h)) in rw (first, rest)

pub get_le-put_le : (f : ℕ → ℕ) (off k w : ℕ) → w < 256 ^ k → get_le (put_le f off k w) off k ≡ w
unfolding get_le put_le
get_le-put_le f off zero w h = omega (arith, h)
get_le-put_le f off (suc k) w h =
    let g = update f off (w % 256) in
    let first = put_le-other g (off + 1) k (w / 256) off (omega arith) in
    let here = update_self f off (w % 256) in
    let rest = get_le-put_le g (off + 1) k (w / 256) (omega (arith, h)) in
    omega (arith, first, here, rest)
