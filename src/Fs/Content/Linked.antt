-- ===== src/Fs/Content/Linked.antt =====
-- The second step of `bmap` of fs.c, on an entry of the indirect block.
use mathlib.Core.Path.{subst}
use cs330_operating_systems.Base.{
  ℕ, ◌+◌, ◌-◌, ◌*◌, ◌^◌, ◌≤◌, ◌<◌, ◌≡◌, ◌≢◌, ◌∙◌, inl, inr, ap, refl, sym, arith, true, false, ◌==◌,
  ltb, if◌then◌else◌, Bool-cases, update_self, update_other, ok, panic, ◌>>=◌,
}
use cs330_operating_systems.Fs.{Fs, write_block, balloc}
use cs330_operating_systems.Fs.Bytes.{get_le, put_le, get_le-apart, get_le-put_le}
use cs330_operating_systems.Fs.Inode.{Inode}
use cs330_operating_systems.Fs.Bitmap.{is_used}
use cs330_operating_systems.Fs.Balloc.{Allocated, used-there, balloc-Allocated}
use cs330_operating_systems.Fs.Content.{entry, ensure_entry}
use cs330_operating_systems.Fs.Content.Owned.{slot_addr, slots, IsFileBlock, IsOwned}
use cs330_operating_systems.Fs.Content.Alloc.{
  Keeps, trans-Keeps, allocated-ne, allocated-Keeps, allocated-block, allocated-IsFileBlock,
  write_block-Keeps, extend-IsOwned,
}
use cs330_operating_systems.Fs.Content.Ensure.{
  slot_addr-direct, slot_addr-entry, Ensured, StepEnds, stays-Ensured,
}

ensure_entry-there :
    (addr k : ℕ) (s : Fs) → entry addr k s ≢ 0 → ensure_entry addr k s ≡ ok (entry addr k s, s)
unfolding ensure_entry
ensure_entry-there addr k s n = let z : (entry addr k s == 0) ≡ false = ground (arith, n) in rw z

ensure_entry-panic :
    (addr k : ℕ) (s : Fs) → entry addr k s ≡ 0 → balloc s ≡ panic → ensure_entry addr k s ≡ panic
unfolding ensure_entry
ensure_entry-panic addr k s n e =
    let z : (entry addr k s == 0) ≡ true = ground (arith, n) in rw (z, e)

-- the disk after the new block's address was stored in the indirect block
abbrev pub linked : ℕ → ℕ → ℕ → Fs → Fs
linked addr k b s = write_block addr (put_le (s.block addr) (4 * k) 4 b) s

ensure_entry-new :
    (addr k : ℕ) (s : Fs) {b : ℕ} {s' : Fs}
    → entry addr k s ≡ 0
    → balloc s ≡ ok (b, s')
    → ensure_entry addr k s ≡ ok (b, linked addr k b s')
unfolding ensure_entry
ensure_entry-new addr k s n e =
    let z : (entry addr k s == 0) ≡ true = ground (arith, n) in rw (z, e)

empty_slot :
    (k : ℕ) (ip : Inode) (s : Fs)
    → ip.addrs 12 ≢ 0
    → entry (ip.addrs 12) k s ≡ 0
    → slot_addr (13 + k) ip s ≡ 0
empty_slot k ip s there empty =
    slot_addr-entry (13 + k) ip s (omega arith) there
    ∙ ap (λ x. entry (ip.addrs 12) x s) (omega arith)
    ∙ empty

module _ (k : ℕ) (ip : Inode) {s : Fs} {b : ℕ} {s' : Fs} (o : IsOwned ip s)
    (there : ip.addrs 12 ≢ 0) (inside : 13 + k < slots) (empty : entry (ip.addrs 12) k s ≡ 0)
    (a : Allocated s b s') where
  indirect_block : IsFileBlock (ip.addrs 12) s
  indirect_block = o.blocks 12 (omega arith) there

  -- the entries of the indirect block after the store
  linked_entry :
      (j : ℕ)
      → entry (ip.addrs 12) j (linked (ip.addrs 12) k b s')
        ≡ (if j == k then b else entry (ip.addrs 12) j s)
  linked_entry j =
      let d = ip.addrs 12 in
      let f = put_le (s'.block d) (4 * k) 4 b in
      let small : b < 256 ^ 4 = omega (arith, a.in_range, o.small) in
      ap (λ x. get_le x (4 * j) 4) (update_self s'.block d f) ∙ elim (Bool-cases (j == k)) [
        | inl here ↦
            let e : k ≡ j = ground arith in
            subst (λ x. get_le f (4 * x) 4 ≡ (if j == k then b else entry d j s)) e
              (get_le-put_le (s'.block d) (4 * k) 4 b small ∙ rw here)
        | inr other ↦
            let n : j ≢ k = ground arith in
            get_le-apart (s'.block d) (4 * k) 4 b (4 * j) 4 (omega (arith, n))
            ∙ ap (λ x. get_le x (4 * j) 4) (allocated-block a d indirect_block)
            ∙ rw other
      ]

  linked_slot :
      (j : ℕ)
      → slot_addr j ip (linked (ip.addrs 12) k b s') ≡ (if j == 13 + k then b else slot_addr j ip s)
  linked_slot j = elim (Bool-cases (ltb j 13)) [
    | inl direct ↦
        let h : j < 13 = ground arith in
        let d : (j == 13 + k) ≡ false = ground (arith, h) in
        slot_addr-direct j ip (linked (ip.addrs 12) k b s') h
        ∙ sym (slot_addr-direct j ip s h)
        ∙ rw d
    | inr behind ↦
        let h : 13 ≤ j = ground arith in
        let d : (j - 13 == k) ≡ (j == 13 + k) = ground (arith, h) in
        slot_addr-entry j ip (linked (ip.addrs 12) k b s') h there
        ∙ linked_entry (j - 13)
        ∙ ap (λ x. if x then b else entry (ip.addrs 12) (j - 13) s) d
        ∙ ap (λ x. if j == 13 + k then b else x) (sym (slot_addr-entry j ip s h there))
  ]

  linked-Ensured : Ensured (13 + k) ip s b ip (linked (ip.addrs 12) k b s')
  linked-Ensured =
      let d = ip.addrs 12 in
      let f = put_le (s'.block d) (4 * k) 4 b in
      let kept = allocated-Keeps a o.bitmap o.boot in
      let wrote = write_block-Keeps d f s' kept.bitmap kept.boot (kept.blocks d indirect_block) in
      let wrote_marks : (j : ℕ) → j < s.sb.size → is_used j (linked d k b s') ≡ is_used j s' =
        λ j h.
          used-there j d f s'
            ((kept.blocks d indirect_block).no_bitmap j (subst (λ x. j < x.size) (sym a.sb) h)) in
      let all : Keeps s (linked d k b s') = trans-Keeps kept wrote in
      record {
        owned =
            extend-IsOwned ip ip (13 + k) b o refl all
              (wrote.blocks b (allocated-IsFileBlock a o.bitmap)) (λ c g. allocated-ne a c g.used)
              (λ j h. linked_slot j);
        addr = ground (arith, linked_slot (13 + k));
        nonzero = λ z. allocated-ne a 0 o.boot (sym z);
        kept = λ n. absurd (n (empty_slot k ip s there empty));
        same = λ j h h' h''. ground (arith, linked_slot j, h');
        indirect = λ n. refl;
        zeroed = λ z i.
            ap (λ x. x i)
              (update_other s'.block d f b (λ e. allocated-ne a d indirect_block.used (sym e)))
            ∙ a.zeroed i;
        contents = λ c g h. update_other s'.block d f c h ∙ allocated-block a c g;
        marks = λ j h n n'. wrote_marks j h ∙ ground (arith, a.used j h, n);
        rest = refl;
        keeps = all;
      }

pub ensure_entry-Ensured :
    (k : ℕ) (ip : Inode) (s : Fs)
    → IsOwned ip s
    → ip.addrs 12 ≢ 0
    → 13 + k < slots
    → StepEnds (13 + k) ip s (ensure_entry (ip.addrs 12) k s >>= λ (a, s'). ok (a, ip, s'))
ensure_entry-Ensured k ip s o there inside = elim (Bool-cases (entry (ip.addrs 12) k s == 0)) [
  | inr set ↦
      let n : entry (ip.addrs 12) k s ≢ 0 = ground arith in
      let d : slot_addr (13 + k) ip s ≡ entry (ip.addrs 12) k s =
        slot_addr-entry (13 + k) ip s (omega arith) there
        ∙ ap (λ x. entry (ip.addrs 12) x s) (omega arith) in
      inr (
        entry (ip.addrs 12) k s,
        ip,
        s,
        rw (ensure_entry-there (ip.addrs 12) k s n),
        subst (λ x. Ensured (13 + k) ip s x ip s) d
            (stays-Ensured (13 + k) ip s o (λ z. n (sym d ∙ z))),
      )
  | inl empty ↦
      let z : entry (ip.addrs 12) k s ≡ 0 = ground arith in
      elim (balloc-Allocated s o.bitmap) [
        | inl (stop, full) ↦
            inl (rw (ensure_entry-panic (ip.addrs 12) k s z stop), empty_slot k ip s there z, full)
        | inr (b, s', run, a) ↦ inr (
          b,
          ip,
          linked (ip.addrs 12) k b s',
          rw (ensure_entry-new (ip.addrs 12) k s z run),
          linked-Ensured k ip o there inside z a,
        )
      ]
]
