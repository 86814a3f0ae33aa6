-- ===== src/Fs/Content/Bmap.antt =====
-- `bmap` of fs.c: both steps together.
use mathlib.Core.Path.{subst}
use cs330_operating_systems.Base.{
  ℕ, ◌+◌, ◌-◌, ◌≤◌, ◌<◌, ◌≡◌, ◌≢◌, ◌∙◌, ◌⊎◌, inl, inr, ap, sym, arith, true, false, ltb, Bool-cases,
  ok, panic, ◌>>=◌,
}
use cs330_operating_systems.Fs.{Fs}
use cs330_operating_systems.Fs.Inode.{Inode}
use cs330_operating_systems.Fs.Bitmap.{is_used}
use cs330_operating_systems.Fs.Content.{ensure_addr, ensure_entry, bmap, maxfile}
use cs330_operating_systems.Fs.Content.Owned.{slot_addr, slot_for, slots, IsOwned}
use cs330_operating_systems.Fs.Content.Alloc.{trans-Keeps}
use cs330_operating_systems.Fs.Content.Ensure.{slot_addr-none, Ensured, ensure_addr-Ensured}
use cs330_operating_systems.Fs.Content.Linked.{ensure_entry-Ensured}

bmap-direct : (bn : ℕ) (ip : Inode) (s : Fs) → bn < 12 → bmap bn ip s ≡ ensure_addr bn ip s
unfolding bmap
bmap-direct bn ip s h = let t : ltb bn 12 ≡ true = ground (arith, h) in rw t

bmap-indirect :
    (bn : ℕ) (ip : Inode) (s : Fs) {a : ℕ} {ip₁ : Inode} {s₁ : Fs}
    → 12 ≤ bn
    → bn < maxfile
    → ensure_addr 12 ip s ≡ ok (a, ip₁, s₁)
    → bmap bn ip s ≡ (ensure_entry a (bn - 12) s₁ >>= λ (b, s₂). ok (b, ip₁, s₂))
unfolding bmap
bmap-indirect bn ip s h h' e =
    let t : ltb bn 12 ≡ false = ground (arith, h) in
    let t' : ltb (bn - 12) 128 ≡ true = ground (arith, h, h') in rw (t, t', e)

bmap-panic :
    (bn : ℕ) (ip : Inode) (s : Fs) → 12 ≤ bn → ensure_addr 12 ip s ≡ panic → bmap bn ip s ≡ panic
unfolding bmap
bmap-panic bn ip s h e =
    let t : ltb bn 12 ≡ false = ground (arith, h) in
    elim (Bool-cases (ltb (bn - 12) 128)) [ inl t' ↦ rw (t, t', e) | inr t' ↦ rw (t, t') ]

module _ {i : ℕ} {ip ip₁ ip₂ : Inode} {s s₁ s₂ : Fs} {a b : ℕ} (behind : 13 ≤ i)
    (inside : i < slots) (e₁ : Ensured 12 ip s a ip₁ s₁) (e₂ : Ensured i ip₁ s₁ b ip₂ s₂) where
  first_same : slot_addr i ip₁ s₁ ≡ slot_addr i ip s
  first_same = e₁.same i inside (omega (arith, behind)) (omega (arith, behind))

  -- the indirect block after the first step
  first_there : ip₁.addrs 12 ≢ 0
  first_there z = e₁.nonzero (sym e₁.addr ∙ z)

  both-Ensured : Ensured i ip s b ip₂ s₂
  both-Ensured = record {
    owned = e₂.owned;
    addr = e₂.addr;
    nonzero = e₂.nonzero;
    kept = λ n. sym first_same ∙ e₂.kept (λ z. n (sym first_same ∙ z));
    same = λ j h h' h''. e₂.same j h h' h'' ∙ e₁.same j h h'' h'';
    indirect = λ n. e₂.indirect first_there ∙ e₁.indirect n;
    zeroed = λ z. e₂.zeroed (first_same ∙ z);
    contents = λ c f n.
        e₂.contents c (e₁.keeps.blocks c f) n
        ∙ e₁.contents c f (λ z. n (z ∙ sym (e₂.indirect first_there)));
    marks = λ j h n n'.
        let d : ip₂.addrs 12 ≡ ip₁.addrs 12 = e₂.indirect first_there in
        e₂.marks j (subst (λ x. j < x.size) (sym e₁.keeps.sb) h) n n'
        ∙ e₁.marks j h (λ z. n' (z ∙ sym e₁.addr ∙ sym d)) (λ z. n' (z ∙ sym d));
    rest = e₂.rest ∙ ap {A = Inode} (λ x. record x { addrs = ip₂.addrs }) e₁.rest;
    keeps = trans-Keeps e₁.keeps e₂.keeps;
  }

-- all blocks but one are in use
abbrev pub AlmostFull : Fs → Type 0
AlmostFull s = (b : ℕ) × ((j : ℕ) → j < s.sb.size → j ≢ b → is_used j s ≡ true)

-- For an inode whose slots have different blocks of the disk, `bmap` of a block number below MAXFILE
-- panics only when the file has no such block and at most one block of the disk is not in use.
-- Otherwise it returns the block at this place: the one that was there, or a new one full of zeros. The
-- file's other blocks and their bytes are as before, and its slots still have different blocks.
pub bmap-Ensured :
    (bn : ℕ) (ip : Inode) (s : Fs)
    → IsOwned ip s
    → bn < maxfile
    → ((bmap bn ip s ≡ panic) × (slot_addr (slot_for bn) ip s ≡ 0) × AlmostFull s)
      ⊎ ((a : ℕ) × (ip' : Inode) × (s' : Fs) × (bmap bn ip s ≡ ok (a, ip', s'))
          × Ensured (slot_for bn) ip s a ip' s')
bmap-Ensured bn ip s o inside = elim (Bool-cases (ltb bn 12)) [
  | inl direct ↦
      let h : bn < 12 = ground arith in
      let e : slot_for bn ≡ bn = rw direct in
      let step = bmap-direct bn ip s h in
      elim (ensure_addr-Ensured bn ip s o (omega (arith, h))) [
        | inl (stop, z, full) ↦
            inl (step ∙ stop, ap (λ i. slot_addr i ip s) e ∙ z, (0, λ j i n. full j i))
        | inr (a, ip', s', run, d) ↦
            inr (a, ip', s', step ∙ run, subst (λ i. Ensured i ip s a ip' s') (sym e) d)
      ]
  | inr behind ↦
      let h : 12 ≤ bn = ground arith in
      let n : bn + 1 ≡ 13 + (bn - 12) = omega (arith, h) in
      let e : slot_for bn ≡ 13 + (bn - 12) = rw (behind, n) in
      elim (ensure_addr-Ensured 12 ip s o (omega arith)) [
        | inl (stop, z, full) ↦ inl (
          bmap-panic bn ip s h stop,
          slot_addr-none (slot_for bn) ip s (omega (arith, e)) z,
          (0, λ j i n. full j i),
        )
        | inr (a, ip₁, s₁, run, d) ↦
            let step =
              bmap-indirect bn ip s h inside run
              ∙ ap (λ x. ensure_entry x (bn - 12) s₁ >>= λ (b, s₂). ok (b, ip₁, s₂)) (sym d.addr) in
            let there : ip₁.addrs 12 ≢ 0 = λ z. d.nonzero (sym d.addr ∙ z) in
            let low : 13 ≤ slot_for bn = omega (arith, e) in
            let high : slot_for bn < slots = omega (arith, e, inside, h) in
            elim (ensure_entry-Ensured (bn - 12) ip₁ s₁ d.owned there (omega (arith, inside, h))) [
              | inl (stop, z, full) ↦ inl (
                step ∙ stop,
                sym (d.same (slot_for bn) high (omega (arith, low)) (omega (arith, low)))
                    ∙ ap (λ i. slot_addr i ip₁ s₁) e
                    ∙ z,
                (
                  a,
                  λ j i n'.
                      sym (d.marks j i n' (λ q. n' (q ∙ d.addr)))
                      ∙ full j (subst (λ x. j < x.size) (sym d.keeps.sb) i),
                ),
              )
              | inr (b, ip₂, s₂, run', d') ↦ inr (
                b,
                ip₂,
                s₂,
                step ∙ run',
                both-Ensured low high d (subst (λ i. Ensured i ip₁ s₁ b ip₂ s₂) (sym e) d'),
              )
            ]
      ]
]
