-- ===== src/Fs/Bfree.antt =====
-- `bfree` of fs.c, and a block that is allocated and freed again.
use mathlib.Core.Path.{subst}
use cs330_operating_systems.Base.{
  ℕ, ◌+◌, ◌/◌, ◌%◌, ◌<◌, ◌≡◌, ◌≢◌, ◌∙◌, ◌⊎◌, inl, inr, ap, refl, sym, arith, true, false, ◌==◌,
  if◌then◌else◌, ◌∷◌, ok, panic, Bool-cases, update_other,
}
use cs330_operating_systems.Fs.{Fs, bpb, bblock, write_block, unmark_bit, balloc, bfree}
use cs330_operating_systems.Fs.Bitmap.{is_used, bit_of-unmark_bit}
use cs330_operating_systems.Fs.Balloc.{IsBitmap, Allocated, used-write, balloc-Allocated}

-- the state after a block was freed
abbrev pub freed : ℕ → Fs → Fs
freed b s = write_block (bblock b s) (unmark_bit (b % bpb) (s.block (bblock b s))) s

bfree-freed : (b : ℕ) (s : Fs) → is_used b s ≡ true → bfree b s ≡ ok (freed b s)
unfolding bfree
bfree-freed b s h = rw h

bfree-panic : (b : ℕ) (s : Fs) → is_used b s ≡ false → bfree b s ≡ panic
unfolding bfree
bfree-panic b s h = rw h

pub record Freed (s : Fs) (b : ℕ) (s' : Fs) : Type 0 where
  pub was_used : is_used b s ≡ true
  pub used : (j : ℕ) → is_used j s' ≡ (if j == b then false else is_used j s)
  pub others : (c : ℕ) → c ≢ bblock b s → s'.block c ≡ s.block c
  pub sb : s'.sb ≡ s.sb
  pub logged : s'.logged ≡ bblock b s ∷ s.logged

freed-Freed : (b : ℕ) (s : Fs) → is_used b s ≡ true → Freed s b (freed b s)
freed-Freed b s h =
    let c = bblock b s in
    let bytes = unmark_bit (b % bpb) (s.block c) in
    record {
      was_used = h;
      used = λ j. used-write b j false bytes s (bit_of-unmark_bit (s.block c) (b % bpb));
      others = λ d n. update_other s.block c bytes d n;
      sb = refl;
      logged = refl;
    }

-- `bfree` panics for a block that is not in use, and otherwise clears the mark of this block and of
-- no other, changes only the block of the bitmap that has the mark, and logs it.
pub bfree-Freed :
    (b : ℕ) (s : Fs)
    → ((bfree b s ≡ panic) × (is_used b s ≡ false))
      ⊎ ((s' : Fs) × (bfree b s ≡ ok s') × Freed s b s')
bfree-Freed b s = elim (Bool-cases (is_used b s)) [
  | inl on ↦ inr (freed b s, bfree-freed b s on, freed-Freed b s on)
  | inr off ↦ inl (bfree-panic b s off, off)
]

-- The bitmap goes on marking its own blocks.
pub Allocated-IsBitmap : {s s' : Fs} {b : ℕ} → IsBitmap s → Allocated s b s' → IsBitmap s'
Allocated-IsBitmap {s} {s'} {b} w a = record {
  kept = λ c j h i clear e.
      let h' : c < s.sb.size = subst (λ x. c < x.size) a.sb h in
      let i' : j < s.sb.size = subst (λ x. j < x.size) a.sb i in
      let free : is_used c s ≡ false = ground (arith, a.used c h', clear) in
      w.kept c j h' i' free (ap (λ x. j / bpb + x.bmapstart) (sym a.sb) ∙ e);
}

pub balloc-ok : (s : Fs) {b : ℕ} {s' : Fs} → IsBitmap s → balloc s ≡ ok (b, s') → Allocated s b s'
balloc-ok s {b} {s'} w run = elim (balloc-Allocated s w) [
  | inl (stop, _) ↦ absurd (cc)
  | inr (b₁, s₁, run₁, a) ↦
      let eb : b₁ ≡ b = cc in
      let es : s₁ ≡ s' = cc in subst (λ x. Allocated s x s') eb (subst (λ x. Allocated s b₁ x) es a)
]

-- A block that `balloc` gave can be freed: the marks are then those before the allocation, and a
-- second `bfree` of it panics.
pub balloc-bfree :
    (s : Fs) {b : ℕ} {s' : Fs}
    → IsBitmap s
    → balloc s ≡ ok (b, s')
    → (s'' : Fs) × (bfree b s' ≡ ok s'')
      × ((j : ℕ) → j < s.sb.size → is_used j s'' ≡ is_used j s)
      × (bfree b s'' ≡ panic)
balloc-bfree s {b} {s'} w run =
    let a = balloc-ok s w run in
    let on : is_used b s' ≡ true = ground (arith, a.used b a.in_range) in
    let f = freed-Freed b s' on in
    (
      freed b s',
      bfree-freed b s' on,
      λ j h. ground (arith, f.used j, a.used j h, a.was_free),
      bfree-panic b (freed b s') (ground (arith, f.used b)),
    )
