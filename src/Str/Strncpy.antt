-- ===== src/Str/Strncpy.antt =====
-- What `strncpy` of string.c copies, when the source lies behind the destination.
use cs330_operating_systems.Base.{
  ℕ, zero, suc, ◌+◌, ◌≤◌, ◌<◌, ◌≡◌, ◌≢◌, ◌∙◌, inl, inr, ap, refl, sym, arith, false, ◌==◌,
  Bool-cases, update, update_self, update_other,
}
use cs330_operating_systems.Str.{pad, strncpy}

pad_before : (s n : ℕ) (m : ℕ → ℕ) (a : ℕ) → a < s → pad s n m a ≡ m a
unfolding pad
pad_before s zero m a h = refl
pad_before s (suc n) m a h =
    pad_before (s + 1) n (update m s 0) a (omega (arith, h))
    ∙ update_other m s 0 a (omega (arith, h))

pub strncpy_before : (s t n : ℕ) (m : ℕ → ℕ) (a : ℕ) → a < s → strncpy s t n m a ≡ m a
unfolding strncpy
strncpy_before s t zero m a h = refl
strncpy_before s t (suc n) m a h =
    let m₁ = update m s (m t) in
    let kept : m₁ a ≡ m a = update_other m s (m t) a (omega (arith, h)) in
    elim (Bool-cases (m t == 0)) [
      | inl end ↦ rw end (pad_before (s + 1) n m₁ a (omega (arith, h)) ∙ kept)
      | inr more ↦ rw more (strncpy_before (s + 1) (t + 1) n m₁ a (omega (arith, h)) ∙ kept)
    ]

-- The bytes up to the first NUL, or the first `n` bytes, are those of the source.
pub strncpy_lem :
    (s t n : ℕ) (m : ℕ → ℕ) (k : ℕ)
    → s + n ≤ t
    → k < n
    → ((j : ℕ) → j < k → m (t + j) ≢ 0)
    → strncpy s t n m (s + k) ≡ m (t + k)
unfolding strncpy
strncpy_lem s t zero m k apart l clear = absurd (omega (arith, l))
strncpy_lem s t (suc n) m zero apart l clear =
    let m₁ = update m s (m t) in
    let here : m₁ (s + 0) ≡ m (t + 0) =
      ap m₁ (omega arith) ∙ update_self m s (m t) ∙ ap m (omega arith) in
    elim (Bool-cases (m t == 0)) [
      | inl end ↦ rw end (pad_before (s + 1) n m₁ (s + 0) (omega arith) ∙ here)
      | inr more ↦ rw more (strncpy_before (s + 1) (t + 1) n m₁ (s + 0) (omega arith) ∙ here)
    ]
strncpy_lem s t (suc n) m (suc k) apart l clear =
    let m₁ = update m s (m t) in
    let nz : m t ≢ 0 = λ z. clear 0 (omega arith) (ap m (omega arith) ∙ z) in
    let more : (m t == 0) ≡ false = ground (arith, nz) in
    let other : (j : ℕ) → m₁ (t + 1 + j) ≡ m (t + suc j) =
      λ j. update_other m s (m t) (t + 1 + j) (omega (arith, apart)) ∙ ap m (omega arith) in
    rw more (
      ap (strncpy (s + 1) (t + 1) n m₁) (omega arith)
      ∙ strncpy_lem (s + 1) (t + 1) n m₁ k (omega (arith, apart)) (omega (arith, l))
          (λ j b z. clear (suc j) (omega (arith, b)) (sym (other j) ∙ z))
      ∙ other k)
