-- ===== src/Str/Compares.antt =====
-- What the comparing functions of string.c return.
use cs330_operating_systems.Base.{
  ℕ, zero, suc, ◌+◌, ◌<◌, ◌≡◌, refl, sym, ap, ◌∙◌, ◌≢◌, inl, inr, ◌↔◌, true, not, ◌&&◌, arith, ◌==◌,
  Bool-cases,
}
use cs330_operating_systems.Str.{pos, diff, memcmp, strncmp}

diff-zero : (a b : ℕ) → diff a b ≡ pos 0 → a ≡ b
diff-zero a b h = ground arith

diff-same : (a b : ℕ) → a ≡ b → diff a b ≡ pos 0
diff-same a b h = ground arith

abbrev pub Same : (ℕ → ℕ) → ℕ → ℕ → ℕ → Type 0
Same m s t n = (k : ℕ) → k < n → m (s + k) ≡ m (t + k)

first-Same : (m : ℕ → ℕ) (s t n : ℕ) → Same m s t (suc n) → m s ≡ m t
first-Same m s t n h =
    let e : s ≡ s + 0 = omega arith in
    let e' : t ≡ t + 0 = omega arith in ap m e ∙ h 0 (omega arith) ∙ sym (ap m e')

rest-Same : (m : ℕ → ℕ) (s t n : ℕ) → Same m s t (suc n) → Same m (s + 1) (t + 1) n
rest-Same m s t n h k l =
    let e : s + 1 + k ≡ s + suc k = omega arith in
    let e' : t + 1 + k ≡ t + suc k = omega arith in ap m e ∙ h (suc k) (omega arith) ∙ sym (ap m e')

both-Same : (m : ℕ → ℕ) (s t n : ℕ) → m s ≡ m t → Same m (s + 1) (t + 1) n → Same m s t (suc n)
both-Same m s t n e h zero l =
    let a : s + 0 ≡ s = omega arith in let b : t + 0 ≡ t = omega arith in ap m a ∙ e ∙ sym (ap m b)
both-Same m s t n e h (suc k) l =
    let a : s + suc k ≡ s + 1 + k = omega arith in
    let b : t + suc k ≡ t + 1 + k = omega arith in ap m a ∙ h k (omega arith) ∙ sym (ap m b)

memcmp_there : (s t n : ℕ) (m : ℕ → ℕ) → memcmp s t n m ≡ pos 0 → Same m s t n
unfolding memcmp
memcmp_there s t zero m h = λ k l. absurd (omega arith)
memcmp_there s t (suc n) m h = elim (Bool-cases (m s == m t)) [
  | inl same ↦ both-Same m s t n (ground arith) (memcmp_there (s + 1) (t + 1) n m (rw same at h))
  | inr differ ↦ let e = diff-zero (m s) (m t) (rw differ at h) in absurd (ground (arith, e))
]

memcmp_back : (s t n : ℕ) (m : ℕ → ℕ) → Same m s t n → memcmp s t n m ≡ pos 0
unfolding memcmp
memcmp_back s t zero m h = refl
memcmp_back s t (suc n) m h =
    let e = first-Same m s t n h in
    let same : (m s == m t) ≡ true = ground (arith, e) in
    rw (same, memcmp_back (s + 1) (t + 1) n m (rest-Same m s t n h))

-- `memcmp` returns 0 exactly when the two ranges hold the same bytes.
pub memcmp-Same : (s t n : ℕ) (m : ℕ → ℕ) → (memcmp s t n m ≡ pos 0) ↔ Same m s t n
memcmp-Same s t n m = (memcmp_there s t n m, memcmp_back s t n m)

-- the strings agree on each of the first `n` places that no NUL stands before
abbrev pub SameString : (ℕ → ℕ) → ℕ → ℕ → ℕ → Type 0
SameString m p q n = (k : ℕ) → k < n → ((j : ℕ) → j < k → m (p + j) ≢ 0) → m (p + k) ≡ m (q + k)

first_string : (m : ℕ → ℕ) (p q n : ℕ) → SameString m p q (suc n) → m p ≡ m q
first_string m p q n h =
    let e : p ≡ p + 0 = omega arith in
    let e' : q ≡ q + 0 = omega arith in
    ap m e ∙ h 0 (omega arith) (λ j l. absurd (omega arith)) ∙ sym (ap m e')

rest_string :
    (m : ℕ → ℕ) (p q n : ℕ) → m p ≢ 0 → SameString m p q (suc n) → SameString m (p + 1) (q + 1) n
rest_string m p q n more h k l clear =
    let e : p + 1 + k ≡ p + suc k = omega arith in
    let e' : q + 1 + k ≡ q + suc k = omega arith in
    ap m e ∙ h (suc k) (omega arith) before ∙ sym (ap m e')
  where
    before : (j : ℕ) → j < suc k → m (p + j) ≢ 0
    before zero b z = let e : p ≡ p + 0 = omega arith in more (ap m e ∙ z)
    before (suc j) b z =
        let e : p + 1 + j ≡ p + suc j = omega arith in clear j (omega arith) (ap m e ∙ z)

both_string :
    (m : ℕ → ℕ) (p q n : ℕ)
    → m p ≡ m q
    → (m p ≢ 0 → SameString m (p + 1) (q + 1) n)
    → SameString m p q (suc n)
both_string m p q n e h zero l clear =
    let a : p + 0 ≡ p = omega arith in let b : q + 0 ≡ q = omega arith in ap m a ∙ e ∙ sym (ap m b)
both_string m p q n e h (suc k) l clear =
    let a : p + suc k ≡ p + 1 + k = omega arith in
    let b : q + suc k ≡ q + 1 + k = omega arith in
    ap m a ∙ h first k (omega arith) after ∙ sym (ap m b)
  where
    first : m p ≢ 0
    first z = let e' : p + 0 ≡ p = omega arith in clear 0 (omega arith) (ap m e' ∙ z)

    after : (j : ℕ) → j < k → m (p + 1 + j) ≢ 0
    after j b z =
        let e' : p + suc j ≡ p + 1 + j = omega arith in clear (suc j) (omega arith) (ap m e' ∙ z)

strncmp_there : (p q n : ℕ) (m : ℕ → ℕ) → strncmp p q n m ≡ pos 0 → SameString m p q n
unfolding strncmp
strncmp_there p q zero m h = λ k l clear. absurd (omega arith)
strncmp_there p q (suc n) m h = elim (Bool-cases (not (m p == 0) && (m p == m q))) [
  | inl more ↦
      let rest = strncmp_there (p + 1) (q + 1) n m (rw more at h) in
      both_string m p q n (ground arith) (λ z. rest)
  | inr last ↦
      let e = diff-zero (m p) (m q) (rw last at h) in
      let z : m p ≡ 0 = ground (arith, e) in both_string m p q n e (λ nz. absurd (nz z))
]

strncmp_back : (p q n : ℕ) (m : ℕ → ℕ) → SameString m p q n → strncmp p q n m ≡ pos 0
unfolding strncmp
strncmp_back p q zero m h = refl
strncmp_back p q (suc n) m h = elim (Bool-cases (m p == 0)) [
  | inl z ↦ rw z (diff-same (m p) (m q) (first_string m p q n h))
  | inr nz ↦
      let e = first_string m p q n h in
      let same : (m p == m q) ≡ true = ground (arith, e) in
      rw (nz, same, strncmp_back (p + 1) (q + 1) n m (rest_string m p q n (ground arith) h))
]

-- `strncmp` returns 0 exactly when the two strings agree up to the first NUL or the first `n` bytes.
pub strncmp-SameString : (p q n : ℕ) (m : ℕ → ℕ) → (strncmp p q n m ≡ pos 0) ↔ SameString m p q n
strncmp-SameString p q n m = (strncmp_there p q n m, strncmp_back p q n m)
