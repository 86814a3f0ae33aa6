-- ===== src/Syscall/Fetch.antt =====
-- The checks of syscall.c on what a process hands to the kernel.
use mathlib.Core.Path.{subst}
use cs330_operating_systems.Base.{
  sym, ap, ◌∙◌, inl, inr, Bool-cases, leb, ℕ, zero, suc, ◌+◌, ◌-◌, ◌^◌, ◌≤◌, ◌<◌, ◌≡◌, ◌≢◌, ◌↔◌,
  arith, Option, none, some, false,
}
use cs330_operating_systems.Kalloc.{kernbase}
use cs330_operating_systems.Proc.{Proc}
use cs330_operating_systems.Syscall.{
  Bytes, word_at, fetchint, string_from, fetchstr, argint, pointer_to, argptr,
}

-- Below the kernel's addresses the sums of the checks do not wrap around.
pub fetchint-InSpace :
    (p : Proc) (mem : Bytes) (addr w : ℕ)
    → p.sz ≤ kernbase
    → (fetchint p mem addr ≡ some w) ↔ ((addr + 4 ≤ p.sz) × (w ≡ word_at mem addr))
unfolding fetchint
fetchint-InSpace p mem addr w low = ground arith

pointer_to-InSpace :
    (p : Proc) (size i b : ℕ)
    → p.sz ≤ kernbase
    → (pointer_to p size (some i) ≡ some b)
      ↔ ((b ≡ i) × (size < 2 ^ 31) × (i < p.sz) × (i + size ≤ p.sz))
unfolding pointer_to
pointer_to-InSpace p size i b low = ground arith

pub argptr-InSpace :
    (p : Proc) (mem : Bytes) (esp n size b : ℕ)
    → p.sz ≤ kernbase
    → (argptr p mem esp n size ≡ some b)
      ↔ ((argint p mem esp n ≡ some b) × (size < 2 ^ 31) × (b < p.sz) × (b + size ≤ p.sz))
unfolding argptr
argptr-InSpace p mem esp n size b low = go (argint p mem esp n)
  where
    go :
        (o : Option ℕ)
        → (pointer_to p size o ≡ some b)
          ↔ ((o ≡ some b) × (size < 2 ^ 31) × (b < p.sz) × (b + size ≤ p.sz))
    go none = (λ e. absurd (unfold pointer_to in cc), λ h. absurd (cc (h.0)))
    go (some i) =
        let (to, from) = pointer_to-InSpace p size i b low in
        (
          λ e.
              let (same, s, l, t) = to e in
              (ap some (sym same), s, omega (arith, same, l), omega (arith, same, t)),
          λ h.
              let same : b ≡ i = cc (h.0) in
              from (same, h.1, omega (arith, same, h.2), omega (arith, same, h.3)),
        )

-- A string of length `n` ends with the first NUL at or after the address, below the end.
abbrev pub IsStringAt : Bytes → ℕ → ℕ → Type 0
IsStringAt mem addr n = (mem (addr + n) ≡ 0) × ((k : ℕ) → k < n → mem (addr + k) ≢ 0)

string_from-zero :
    (mem : Bytes) (k addr : ℕ) → (string_from mem (suc k) addr ≡ some zero) ↔ (mem addr ≡ 0)
unfolding string_from
string_from-zero mem k addr = ground arith

string_from-suc :
    (mem : Bytes) (k addr n : ℕ)
    → (string_from mem (suc k) addr ≡ some (suc n))
      ↔ ((mem addr ≢ 0) × (string_from mem k (addr + 1) ≡ some n))
unfolding string_from
string_from-suc mem k addr n = ground arith

-- one byte more in front
IsStringAt-suc :
    (mem : Bytes) (addr n : ℕ)
    → mem addr ≢ 0
    → IsStringAt mem (addr + 1) n
    → IsStringAt mem addr (suc n)
IsStringAt-suc mem addr n first (last, before) =
    (subst (λ a. mem a ≡ 0) (omega arith) last, before_suc)
  where
    before_suc : (k : ℕ) → k < suc n → mem (addr + k) ≢ 0
    before_suc zero lt = subst (λ a. mem a ≢ 0) (omega arith) first
    before_suc (suc k) lt = subst (λ a. mem a ≢ 0) (omega arith) (before k (omega (arith, lt)))

IsStringAt-pred :
    (mem : Bytes) (addr n : ℕ)
    → IsStringAt mem addr (suc n)
    → (mem addr ≢ 0) × IsStringAt mem (addr + 1) n
IsStringAt-pred mem addr n (last, before) = (
  subst (λ a. mem a ≢ 0) (omega arith) (before zero (omega arith)),
  (
    subst (λ a. mem a ≡ 0) (omega arith) last,
    λ k lt. subst (λ a. mem a ≢ 0) (omega arith) (before (suc k) (omega (arith, lt))),
  ),
)

string_from-IsStringAt :
    (mem : Bytes) (k addr n : ℕ)
    → (string_from mem k addr ≡ some n) ↔ ((n < k) × IsStringAt mem addr n)
string_from-IsStringAt mem zero addr n =
    (λ e. absurd (unfold string_from in cc), λ h. absurd (omega (arith, h.0)))
string_from-IsStringAt mem (suc k) addr zero =
    let (to, from) = string_from-zero mem k addr in
    (
      λ e. (
        omega arith,
        (subst (λ a. mem a ≡ 0) (omega arith) (to e), λ j lt. absurd (omega (arith, lt))),
      ),
      λ (lt, str). from (subst (λ a. mem a ≡ 0) (omega arith) (str.0)),
    )
string_from-IsStringAt mem (suc k) addr (suc n) =
    let (to, from) = string_from-suc mem k addr n in
    let (there, back) = string_from-IsStringAt mem k (addr + 1) n in
    (
      λ e.
          let (first, rest) = to e in
          let (lt, str) = there rest in (omega (arith, lt), IsStringAt-suc mem addr n first str),
      λ (lt, str).
          let (first, rest) = IsStringAt-pred mem addr n str in
          from (first, back (omega (arith, lt), rest)),
    )

fetchstr-string_from :
    (p : Proc) (mem : Bytes) (addr : ℕ)
    → leb p.sz addr ≡ false
    → fetchstr p mem addr ≡ string_from mem (p.sz - addr) addr
unfolding fetchstr
fetchstr-string_from p mem addr h = rw h

-- `fetchstr` returns `n` exactly if the first NUL at or after the address stands `n` bytes on, below
-- the end of the process's memory.
pub fetchstr-IsStringAt :
    (p : Proc) (mem : Bytes) (addr n : ℕ)
    → (fetchstr p mem addr ≡ some n) ↔ ((addr + n < p.sz) × IsStringAt mem addr n)
unfolding fetchstr
fetchstr-IsStringAt p mem addr n =
    let (to, from) = string_from-IsStringAt mem (p.sz - addr) addr n in
    elim (Bool-cases (leb p.sz addr)) [
      | inl out ↦ (λ e. absurd (ground arith), λ h. absurd (ground (arith, h.0)))
      | inr inside ↦
          let e₀ = fetchstr-string_from p mem addr inside in
          (
            λ e. let (lt, str) = to (sym e₀ ∙ e) in (omega (arith, lt), str),
            λ (lt, str). e₀ ∙ from (omega (arith, lt), str),
          )
    ]
