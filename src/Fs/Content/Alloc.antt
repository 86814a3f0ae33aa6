-- ===== src/Fs/Content/Alloc.antt =====
-- What an allocation of a block by `balloc` leaves alone, for an inode and its blocks.
use mathlib.Core.Path.{subst}
use cs330_operating_systems.Base.{
  ℕ, ◌+◌, ◌/◌, ◌^◌, ◌≤◌, ◌<◌, ◌≡◌, ◌≢◌, ◌∙◌, inl, inr, ap, refl, sym, arith, true, false, ◌==◌,
  if◌then◌else◌, Bool-cases,
}
use cs330_operating_systems.Fs.{Block, Fs, bpb, write_block}
use cs330_operating_systems.Fs.Inode.{Inode, ipb, iblock}
use cs330_operating_systems.Fs.Bitmap.{is_used}
use cs330_operating_systems.Fs.Balloc.{IsBitmap, Allocated, used-there}
use cs330_operating_systems.Fs.Bfree.{Allocated-IsBitmap}
use cs330_operating_systems.Fs.Content.Owned.{slot_addr, slots, IsFileBlock, IsOwned}

-- What a change of the disk leaves alone: the bitmap's place and promise, block 0, and the blocks of files.
pub record Keeps (s s' : Fs) : Type 0 where
  pub bitmap : IsBitmap s'
  pub boot : is_used 0 s' ≡ true
  pub sb : s'.sb ≡ s.sb
  pub blocks : (c : ℕ) → IsFileBlock c s → IsFileBlock c s'

pub trans-Keeps : {s s₁ s₂ : Fs} → Keeps s s₁ → Keeps s₁ s₂ → Keeps s s₂
trans-Keeps k l = record {
  bitmap = l.bitmap;
  boot = l.boot;
  sb = l.sb ∙ k.sb;
  blocks = λ c f. l.blocks c (k.blocks c f);
}

module _ {s : Fs} {b : ℕ} {s' : Fs} (a : Allocated s b s') where
  pub allocated-ne : (c : ℕ) → is_used c s ≡ true → c ≢ b
  allocated-ne c u e = let free = a.was_free in absurd (cc (u, free, e))

  pub allocated-Keeps : IsBitmap s → is_used 0 s ≡ true → Keeps s s'
  allocated-Keeps w boot = record {
    bitmap = Allocated-IsBitmap w a;
    boot =
        let some_block : 0 < s.sb.size = omega (arith, a.in_range) in
        ground (arith, a.used 0 some_block, boot);
    sb = a.sb;
    blocks = λ c f. record {
      in_range = subst (λ x. c < x.size) (sym a.sb) f.in_range;
      used = ground (arith, a.used c f.in_range, f.used);
      no_bitmap = λ j h e.
          f.no_bitmap j (subst (λ x. j < x.size) a.sb h)
            (ap (λ x. j / bpb + x.bmapstart) (sym a.sb) ∙ e);
    };
  }

  -- The blocks of files keep their bytes.
  pub allocated-block : (c : ℕ) → IsFileBlock c s → s'.block c ≡ s.block c
  allocated-block c f = a.others c (allocated-ne c f.used) (λ e. f.no_bitmap b a.in_range (sym e))

  pub allocated-IsFileBlock : IsBitmap s → IsFileBlock b s'
  allocated-IsFileBlock w = record {
    in_range = subst (λ x. b < x.size) (sym a.sb) a.in_range;
    used = ground (arith, a.used b a.in_range);
    no_bitmap = λ j h e.
        w.kept b j a.in_range (subst (λ x. j < x.size) a.sb h) a.was_free
          (ap (λ x. j / bpb + x.bmapstart) (sym a.sb) ∙ e);
  }

-- A write to a block of a file is no write to the bitmap.
pub write_block-Keeps :
    (c : ℕ) (bytes : Block) (s : Fs)
    → IsBitmap s
    → is_used 0 s ≡ true
    → IsFileBlock c s
    → Keeps s (write_block c bytes s)
write_block-Keeps c bytes s w boot f =
    let same : (j : ℕ) → j < s.sb.size → is_used j (write_block c bytes s) ≡ is_used j s =
      λ j h. used-there j c bytes s (f.no_bitmap j h) in
    let some_block : 0 < s.sb.size = omega (arith, f.in_range) in
    record {
      bitmap = record { kept = λ d j h i clear. w.kept d j h i (sym (same d h) ∙ clear) };
      boot = same 0 some_block ∙ boot;
      sb = refl;
      blocks = λ d g. record {
        in_range = g.in_range;
        used = same d g.in_range ∙ g.used;
        no_bitmap = g.no_bitmap;
      };
    }

-- An inode that gets the new block `b` at its empty slot `i`.
pub extend-IsOwned :
    {s s' : Fs} (ip ip' : Inode) (i b : ℕ)
    → IsOwned ip s
    → ip'.inum ≡ ip.inum
    → Keeps s s'
    → IsFileBlock b s'
    → ((c : ℕ) → IsFileBlock c s → c ≢ b)
    → ((j : ℕ) → j < slots → slot_addr j ip' s' ≡ (if j == i then b else slot_addr j ip s))
    → IsOwned ip' s'
extend-IsOwned {s} {s'} ip ip' i b o number k new fresh slot_of = record {
  bitmap = k.bitmap;
  boot = k.boot;
  small = subst (λ x. x.size ≤ 2 ^ 32) (sym k.sb) o.small;
  blocks = λ j h n. elim (Bool-cases (j == i)) [
    | inl here ↦
        let e : slot_addr j ip' s' ≡ b = ground (arith, slot_of j h, here) in
        subst (λ c. IsFileBlock c s') (sym e) new
    | inr other ↦
        let e : slot_addr j ip' s' ≡ slot_addr j ip s = ground (arith, slot_of j h, other) in
        subst (λ c. IsFileBlock c s') (sym e)
          (k.blocks (slot_addr j ip s) (o.blocks j h (λ z. n (e ∙ z))))
  ];
  apart = λ j l h h' n same. elim (Bool-cases (j == i)) [
    | inl here ↦ elim (Bool-cases (l == i)) [
      | inl here' ↦ ground arith
      | inr other' ↦
          let e : slot_addr j ip' s' ≡ b = ground (arith, slot_of j h, here) in
          absurd (
            not_b l h' (λ z. n (same ∙ old l h' other' ∙ z)) (sym (old l h' other') ∙ sym same ∙ e))
    ]
    | inr other ↦ elim (Bool-cases (l == i)) [
      | inl here' ↦
          let e : slot_addr l ip' s' ≡ b = ground (arith, slot_of l h', here') in
          absurd (not_b j h (λ z. n (old j h other ∙ z)) (sym (old j h other) ∙ same ∙ e))
      | inr other' ↦
          o.apart j l h h' (λ z. n (old j h other ∙ z))
            (sym (old j h other) ∙ same ∙ old l h' other')
    ]
  ];
  inode_block =
      subst (λ c. IsFileBlock c s') (sym same_inode) (k.blocks (iblock ip.inum s) o.inode_block);
  no_inode_block = λ j h n e. elim (Bool-cases (j == i)) [
    | inl here ↦
        let d : slot_addr j ip' s' ≡ b = ground (arith, slot_of j h, here) in
        fresh (iblock ip.inum s) o.inode_block (sym same_inode ∙ sym e ∙ d)
    | inr other ↦
        o.no_inode_block j h (λ z. n (old j h other ∙ z)) (sym (old j h other) ∙ e ∙ same_inode)
  ];
}
  where
    same_inode : iblock ip'.inum s' ≡ iblock ip.inum s
    same_inode = ap (λ x. iblock x s') number ∙ ap (λ x. ip.inum / ipb + x.inodestart) k.sb

    old : (j : ℕ) → j < slots → (j == i) ≡ false → slot_addr j ip' s' ≡ slot_addr j ip s
    old j h other = ground (arith, slot_of j h, other)

    not_b : (j : ℕ) → j < slots → slot_addr j ip s ≢ 0 → slot_addr j ip s ≢ b
    not_b j h n = fresh (slot_addr j ip s) (o.blocks j h n)
