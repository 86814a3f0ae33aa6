-- ===== src/Fs/Content/Slices.antt =====
-- `memmove` from and to a part of an array of bytes.
use cs330_operating_systems.Base.{
  ℕ, zero, suc, ◌+◌, ◌-◌, ◌<◌, ◌≡◌, ◌≢◌, ◌∙◌, inl, inr, ap, refl, sym, arith, Bool, true, false,
  ◌&&◌, leb, ltb, ◌==◌, if◌then◌else◌, Bool-cases, List, [], ◌∷◌, ◌++◌, length, get_or, update,
  update_self, update_other,
}
use cs330_operating_systems.Fs.{Block}
use cs330_operating_systems.Fs.Content.{get_bytes, put_bytes}

pub get_bytes-zero : (f : Block) (off : ℕ) → get_bytes f off 0 ≡ []
unfolding get_bytes
get_bytes-zero f off = refl

-- The same bytes at other places.
pub get_bytes_ext :
    (f g : Block) (at off n : ℕ)
    → ((k : ℕ) → k < n → f (at + k) ≡ g (off + k))
    → get_bytes f at n ≡ get_bytes g off n
unfolding get_bytes
get_bytes_ext f g at off zero h = refl
get_bytes_ext f g at off (suc n) h =
    let first : f at ≡ g off = ap f (omega arith) ∙ h 0 (omega arith) ∙ ap g (omega arith) in
    let rest =
      get_bytes_ext f g (at + 1) (off + 1) n
        (λ k l. ap f (omega arith) ∙ h (suc k) (omega (arith, l)) ∙ ap g (omega arith)) in
    rw (first, rest)

pub get_bytes-append :
    (f : Block) (off m k n : ℕ)
    → n ≡ m + k
    → get_bytes f off m ++ get_bytes f (off + m) k ≡ get_bytes f off n
unfolding get_bytes
get_bytes-append f off zero k n e =
    let d : off + 0 ≡ off = omega arith in let z : k ≡ n = omega (arith, e) in rw (d, z)
get_bytes-append f off (suc m) k zero e = absurd (omega (arith, e))
get_bytes-append f off (suc m) k (suc n) e =
    let d : off + suc m ≡ off + 1 + m = omega arith in
    ap (λ x. f off ∷ (get_bytes f (off + 1) m ++ get_bytes f x k)) d
    ∙ ap (λ l. f off ∷ l) (get_bytes-append f (off + 1) m k n (omega (arith, e)))

-- `j` is one of the `n` places from `off` on
abbrev pub is_within : ℕ → ℕ → ℕ → Bool
is_within off n j = leb off j && ltb j (off + n)

-- A store changes the places it names, and no other.
pub put_bytes_lem :
    (f : Block) (off : ℕ) (bs : List ℕ) (j : ℕ)
    → put_bytes f off bs j ≡ (if is_within off (length bs) j then get_or bs (j - off) 0 else f j)
unfolding put_bytes
put_bytes_lem f off [] j = ground arith
put_bytes_lem f off (b ∷ bs) j = elim (Bool-cases (j == off)) [
  | inl here ↦
      let e : j ≡ off = ground arith in
      let z : j - off ≡ 0 = omega (arith, e) in
      let w : is_within (off + 1) (length bs) j ≡ false = ground (arith, e) in
      let w' : is_within off (suc (length bs)) j ≡ true = ground (arith, e) in
      let u : update f off b j ≡ b = ground (arith, e) in
      put_bytes_lem (update f off b) (off + 1) bs j ∙ rw (w, w', z, u)
  | inr other ↦
      let n : j ≢ off = ground arith in
      let u : update f off b j ≡ f j = update_other f off b j n in
      put_bytes_lem (update f off b) (off + 1) bs j
      ∙ elim (Bool-cases (is_within (off + 1) (length bs) j)) [
        | inl inside ↦
            let w' : is_within off (suc (length bs)) j ≡ true = ground (arith, inside) in
            let z : j - off ≡ suc (j - (off + 1)) = ground (arith, inside, n) in rw (inside, w', z)
        | inr outside ↦
            let w' : is_within off (suc (length bs)) j ≡ false = ground (arith, outside, n) in
            rw (outside, w', u)
      ]
]

-- The same bytes, stored at places of two arrays that agree.
pub put_bytes_ext :
    (f g : Block) (off : ℕ) (bs : List ℕ) (j : ℕ)
    → f j ≡ g j
    → put_bytes f off bs j ≡ put_bytes g off bs j
put_bytes_ext f g off bs j h =
    put_bytes_lem f off bs j
    ∙ ap (λ x. if is_within off (length bs) j then get_or bs (j - off) 0 else x) h
    ∙ sym (put_bytes_lem g off bs j)

pub put_bytes-append :
    (f : Block) (off : ℕ) (bs cs : List ℕ)
    → put_bytes (put_bytes f off bs) (off + length bs) cs ≡ put_bytes f off (bs ++ cs)
unfolding put_bytes
put_bytes-append f off [] cs = ap (λ x. put_bytes f x cs) (omega arith)
put_bytes-append f off (b ∷ bs) cs =
    let d : off + suc (length bs) ≡ off + 1 + length bs = omega arith in
    ap (λ x. put_bytes (put_bytes (update f off b) (off + 1) bs) x cs) d
    ∙ put_bytes-append (update f off b) (off + 1) bs cs

-- What was stored can be loaded.
pub get_bytes-put_bytes :
    (f : Block) (off : ℕ) (bs : List ℕ) → get_bytes (put_bytes f off bs) off (length bs) ≡ bs
unfolding get_bytes put_bytes
get_bytes-put_bytes f off [] = refl
get_bytes-put_bytes f off (b ∷ bs) =
    let first : put_bytes (update f off b) (off + 1) bs off ≡ b =
      put_bytes_lem (update f off b) (off + 1) bs off
      ∙ (let w : is_within (off + 1) (length bs) off ≡ false = ground arith in
          let u : update f off b off ≡ b = update_self f off b in rw (w, u)) in
    rw (first, get_bytes-put_bytes (update f off b) (off + 1) bs)
