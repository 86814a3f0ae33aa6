-- ===== src/Fs/Content/Ensure.antt =====
-- The two steps of `bmap` of fs.c, each of which makes sure that a slot of the inode has a block.
use mathlib.Core.Path.{subst}
use cs330_operating_systems.Base.{
  ℕ, zero, suc, ◌+◌, ◌-◌, ◌*◌, ◌≤◌, ◌<◌, ◌≡◌, ◌≢◌, ◌∙◌, ◌⊎◌, inl, inr, ap, refl, sym, arith, true,
  false, ◌==◌, ltb, if◌then◌else◌, Bool-cases, update_other, Outcome, ok, panic,
}
use cs330_operating_systems.Fs.{Block, Fs, balloc}
use cs330_operating_systems.Fs.Bytes.{get_le}
use cs330_operating_systems.Fs.Inode.{Inode, ndirect}
use cs330_operating_systems.Fs.Bitmap.{is_used}
use cs330_operating_systems.Fs.Balloc.{Allocated, balloc-Allocated}
use cs330_operating_systems.Fs.Content.{entry, set_addr, ensure_addr}
use cs330_operating_systems.Fs.Content.Owned.{slot_addr, slots, IsFileBlock, IsOwned}
use cs330_operating_systems.Fs.Content.Alloc.{
  Keeps, allocated-ne, allocated-Keeps, allocated-block, allocated-IsFileBlock, extend-IsOwned,
}

pub slot_addr-direct : (i : ℕ) (ip : Inode) (s : Fs) → i < 13 → slot_addr i ip s ≡ ip.addrs i
slot_addr-direct i ip s h = let t : ltb i 13 ≡ true = ground (arith, h) in rw t

pub slot_addr-entry :
    (i : ℕ) (ip : Inode) (s : Fs)
    → 13 ≤ i
    → ip.addrs 12 ≢ 0
    → slot_addr i ip s ≡ entry (ip.addrs 12) (i - 13) s
slot_addr-entry i ip s h n =
    let t : ltb i 13 ≡ false = ground (arith, h) in
    let z : (ip.addrs 12 == 0) ≡ false = ground (arith, n) in rw (t, z)

pub slot_addr-none : (i : ℕ) (ip : Inode) (s : Fs) → 13 ≤ i → ip.addrs 12 ≡ 0 → slot_addr i ip s ≡ 0
slot_addr-none i ip s h n =
    let t : ltb i 13 ≡ false = ground (arith, h) in
    let z : (ip.addrs 12 == 0) ≡ true = ground (arith, n) in rw (t, z)

-- After a step the slot `i` has the block `a`: the one it had, or a new one full of zeros. The other
-- slots but that of the indirect block, and the blocks of files but the indirect one, are as before.
pub record Ensured (i : ℕ) (ip : Inode) (s : Fs) (a : ℕ) (ip' : Inode) (s' : Fs) : Type 0 where
  pub owned : IsOwned ip' s'
  pub addr : slot_addr i ip' s' ≡ a
  pub nonzero : a ≢ 0
  pub kept : slot_addr i ip s ≢ 0 → slot_addr i ip s ≡ a
  pub same : (j : ℕ) → j < slots → j ≢ i → j ≢ ndirect → slot_addr j ip' s' ≡ slot_addr j ip s
  pub indirect : ip.addrs ndirect ≢ 0 → ip'.addrs ndirect ≡ ip.addrs ndirect
  pub zeroed : slot_addr i ip s ≡ 0 → (k : ℕ) → s'.block a k ≡ 0
  pub contents : (c : ℕ) → IsFileBlock c s → c ≢ ip'.addrs ndirect → s'.block c ≡ s.block c
  pub marks : (j : ℕ) → j < s.sb.size → j ≢ a → j ≢ ip'.addrs ndirect → is_used j s' ≡ is_used j s
  pub rest : ip' ≡ record ip { addrs = ip'.addrs }
  pub keeps : Keeps s s'

-- all blocks are in use
abbrev pub Full : Fs → Type 0
Full s = (j : ℕ) → j < s.sb.size → is_used j s ≡ true

pub refl-Keeps : {s : Fs} (ip : Inode) → IsOwned ip s → Keeps s s
refl-Keeps ip o = record { bitmap = o.bitmap; boot = o.boot; sb = refl; blocks = λ c f. f }

pub stays-Ensured :
    (i : ℕ) (ip : Inode) (s : Fs)
    → IsOwned ip s
    → slot_addr i ip s ≢ 0
    → Ensured i ip s (slot_addr i ip s) ip s
stays-Ensured i ip s o n = record {
  owned = o;
  addr = refl;
  nonzero = n;
  kept = λ h. refl;
  same = λ j h h' h''. refl;
  indirect = λ h. refl;
  zeroed = λ z. absurd (n z);
  contents = λ c f h. refl;
  marks = λ j h n n'. refl;
  rest = refl;
  keeps = refl-Keeps ip o;
}

ensure_addr-there :
    (i : ℕ) (ip : Inode) (s : Fs) → ip.addrs i ≢ 0 → ensure_addr i ip s ≡ ok (ip.addrs i, ip, s)
unfolding ensure_addr
ensure_addr-there i ip s n = let z : (ip.addrs i == 0) ≡ false = ground (arith, n) in rw z

ensure_addr-panic :
    (i : ℕ) (ip : Inode) (s : Fs) → ip.addrs i ≡ 0 → balloc s ≡ panic → ensure_addr i ip s ≡ panic
unfolding ensure_addr
ensure_addr-panic i ip s n e = let z : (ip.addrs i == 0) ≡ true = ground (arith, n) in rw (z, e)

ensure_addr-new :
    (i : ℕ) (ip : Inode) (s : Fs) {b : ℕ} {s' : Fs}
    → ip.addrs i ≡ 0
    → balloc s ≡ ok (b, s')
    → ensure_addr i ip s ≡ ok (b, set_addr i b ip, s')
unfolding ensure_addr
ensure_addr-new i ip s n e = let z : (ip.addrs i == 0) ≡ true = ground (arith, n) in rw (z, e)

get_le-zeros : (f : Block) (at k : ℕ) → ((j : ℕ) → f j ≡ 0) → get_le f at k ≡ 0
unfolding get_le
get_le-zeros f at zero h = refl
get_le-zeros f at (suc k) h = omega (arith, h at, get_le-zeros f (at + 1) k h)

-- A new block at a slot of the inode itself.
module _ (i : ℕ) (ip : Inode) {s : Fs} {b : ℕ} {s' : Fs} (o : IsOwned ip s) (inside : i < 13)
    (empty : ip.addrs i ≡ 0) (a : Allocated s b s') where
  abbrev new_ip : Inode
  new_ip = set_addr i b ip

  new_slot_direct :
      (j : ℕ) → j < 13 → slot_addr j new_ip s' ≡ (if j == i then b else slot_addr j ip s)
  new_slot_direct j h =
      slot_addr-direct j new_ip s' h
      ∙ ap (λ x. if j == i then b else x) (sym (slot_addr-direct j ip s h))

  indirect_kept : i ≢ 12 → new_ip.addrs 12 ≡ ip.addrs 12
  indirect_kept n = update_other ip.addrs i b 12 (λ e. n (sym e))

  new_slot_entry : (j : ℕ) → 13 ≤ j → slot_addr j new_ip s' ≡ slot_addr j ip s
  new_slot_entry j h = elim (Bool-cases (i == 12)) [
    | inl here ↦
        let e : i ≡ 12 = ground arith in
        let z : ip.addrs 12 ≡ 0 = subst (λ x. ip.addrs x ≡ 0) e empty in
        let at : new_ip.addrs 12 ≡ b = ground (arith, e) in
        let n : new_ip.addrs 12 ≢ 0 = λ q. allocated-ne a 0 o.boot (sym q ∙ at) in
        slot_addr-entry j new_ip s' h n
        ∙ get_le-zeros (s'.block (new_ip.addrs 12)) (4 * (j - 13)) 4
            (λ k. ap (λ x. s'.block x k) at ∙ a.zeroed k)
        ∙ sym (slot_addr-none j ip s h z)
    | inr other ↦
        let d = indirect_kept (λ e. absurd (ground (arith, e))) in
        elim (Bool-cases (ip.addrs 12 == 0)) [
          | inl none_yet ↦
              let z : ip.addrs 12 ≡ 0 = ground arith in
              slot_addr-none j new_ip s' h (d ∙ z) ∙ sym (slot_addr-none j ip s h z)
          | inr there ↦
              let z : ip.addrs 12 ≢ 0 = ground arith in
              let f : IsFileBlock (ip.addrs 12) s = o.blocks 12 (omega arith) z in
              slot_addr-entry j new_ip s' h (λ q. z (sym d ∙ q))
              ∙ ap (λ x. entry x (j - 13) s') d
              ∙ ap (λ x. get_le x (4 * (j - 13)) 4) (allocated-block a (ip.addrs 12) f)
              ∙ sym (slot_addr-entry j ip s h z)
        ]
  ]

  new_slot : (j : ℕ) → slot_addr j new_ip s' ≡ (if j == i then b else slot_addr j ip s)
  new_slot j = elim (Bool-cases (ltb j 13)) [
    | inl direct ↦ new_slot_direct j (ground arith)
    | inr behind ↦
        let h : 13 ≤ j = ground arith in
        let d : (j == i) ≡ false = ground (arith, h, inside) in new_slot_entry j h ∙ rw d
  ]

  new_addr-Ensured : Ensured i ip s b new_ip s'
  new_addr-Ensured =
      let k = allocated-Keeps a o.bitmap o.boot in
      let none_there : slot_addr i ip s ≡ 0 = slot_addr-direct i ip s inside ∙ empty in
      record {
        owned =
            extend-IsOwned ip new_ip i b o refl k (allocated-IsFileBlock a o.bitmap)
              (λ c f. allocated-ne a c f.used) (λ j h. new_slot j);
        addr = ground (arith, new_slot i);
        nonzero = λ z. allocated-ne a 0 o.boot (sym z);
        kept = λ n. absurd (n none_there);
        same = λ j h h' h''. ground (arith, new_slot j, h');
        indirect = λ n. indirect_kept (λ e. n (subst (λ x. ip.addrs x ≡ 0) e empty));
        zeroed = λ z. a.zeroed;
        contents = λ c f h. allocated-block a c f;
        marks = λ j h n n'. ground (arith, a.used j h, n);
        rest = refl;
        keeps = k;
      }

-- How a step on slot `i` can end: by a panic when the slot is empty and all blocks of the disk are in
-- use, or with a block.
abbrev pub StepEnds : ℕ → Inode → Fs → Outcome (ℕ × Inode × Fs) → Type 0
StepEnds i ip s r =
    ((r ≡ panic) × (slot_addr i ip s ≡ 0) × Full s)
    ⊎ ((a : ℕ) × (ip' : Inode) × (s' : Fs) × (r ≡ ok (a, ip', s')) × Ensured i ip s a ip' s')

pub ensure_addr-Ensured :
    (i : ℕ) (ip : Inode) (s : Fs) → IsOwned ip s → i < 13 → StepEnds i ip s (ensure_addr i ip s)
ensure_addr-Ensured i ip s o inside = elim (Bool-cases (ip.addrs i == 0)) [
  | inr there ↦
      let n : ip.addrs i ≢ 0 = ground arith in
      let d = slot_addr-direct i ip s inside in
      inr (
        ip.addrs i,
        ip,
        s,
        ensure_addr-there i ip s n,
        subst (λ x. Ensured i ip s x ip s) d (stays-Ensured i ip s o (λ z. n (sym d ∙ z))),
      )
  | inl empty ↦
      let z : ip.addrs i ≡ 0 = ground arith in
      elim (balloc-Allocated s o.bitmap) [
        | inl (stop, full) ↦
            inl (ensure_addr-panic i ip s z stop, slot_addr-direct i ip s inside ∙ z, full)
        | inr (b, s', run, a) ↦ inr (
          b,
          set_addr i b ip,
          s',
          ensure_addr-new i ip s z run,
          new_addr-Ensured i ip o inside z a,
        )
      ]
]
