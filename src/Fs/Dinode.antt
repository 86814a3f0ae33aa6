-- ===== src/Fs/Dinode.antt =====
-- What `iupdate` of fs.c writes is what `ilock` reads.
use mathlib.Core.Path.{subst}
use cs330_operating_systems.Base.{
  ℕ, zero, suc, ◌+◌, ◌*◌, ◌^◌, ◌≤◌, ◌<◌, ◌≡◌, ◌≢◌, ◌∙◌, ◌⊎◌, inl, inr, ap, refl, sym, arith, true,
  false, ◌==◌, ltb, Bool-cases, update, update_self, update_other, ok,
}
use cs330_operating_systems.Fs.{Block, Fs}
use cs330_operating_systems.Fs.Bytes.{get_le, put_le, get_le-apart, get_le-put_le}
use cs330_operating_systems.Fs.Inode.{
  Inode, ndirect, iblock, dinode_at, put_words, get_words, put_dinode, get_dinode, iupdate,
  load_inode, ilock,
}

put_words-apart :
    (f : Block) (off i n : ℕ) (a : ℕ → ℕ) (at k : ℕ)
    → (at + k ≤ off + 4 * i) ⊎ (off + 4 * i + 4 * n ≤ at)
    → get_le (put_words f off i n a) at k ≡ get_le f at k
unfolding put_words
put_words-apart f off i zero a at k h = refl
put_words-apart f off i (suc n) a at k h =
    put_words-apart (put_le f (off + 4 * i) 4 (a i)) off (i + 1) n a at k (omega (arith, h))
    ∙ get_le-apart f (off + 4 * i) 4 (a i) at k (omega (arith, h))

put_words_self :
    (f : Block) (off i n : ℕ) (a : ℕ → ℕ) (j : ℕ)
    → i ≤ j
    → j < i + n
    → a j < 2 ^ 32
    → get_le (put_words f off i n a) (off + 4 * j) 4 ≡ a j
unfolding put_words
put_words_self f off i zero a j l h small = absurd (omega (arith, l, h))
put_words_self f off i (suc n) a j l h small = elim (Bool-cases (j == i)) [
  | inl here ↦
      let e : i ≡ j = ground arith in
      put_words-apart (put_le f (off + 4 * i) 4 (a i)) off (i + 1) n a (off + 4 * j) 4
        (inl (omega (arith, e)))
      ∙ subst (λ x. get_le (put_le f (off + 4 * i) 4 (a i)) (off + 4 * x) 4 ≡ a x) e
          (get_le-put_le f (off + 4 * i) 4 (a i)
            (omega (arith, subst (λ x. a x < 2 ^ 32) (sym e) small)))
  | inr past ↦
      put_words_self (put_le f (off + 4 * i) 4 (a i)) off (i + 1) n a j (ground arith)
        (omega (arith, h)) small
]

-- The fields fit into a `struct dinode`.
pub record Fits (ip : Inode) : Type 0 where
  pub type : ip.type < 2 ^ 16
  pub major : ip.major < 2 ^ 16
  pub minor : ip.minor < 2 ^ 16
  pub nlink : ip.nlink < 2 ^ 16
  pub size : ip.size < 2 ^ 32
  pub addrs : (i : ℕ) → ip.addrs i < 2 ^ 32

-- the same type, devices, links, size and blocks
pub record SameDinode (ip jp : Inode) : Type 0 where
  pub type : jp.type ≡ ip.type
  pub major : jp.major ≡ ip.major
  pub minor : jp.minor ≡ ip.minor
  pub nlink : jp.nlink ≡ ip.nlink
  pub size : jp.size ≡ ip.size
  pub addrs : (i : ℕ) → i < ndirect + 1 → jp.addrs i ≡ ip.addrs i

get_words_lem :
    (f : Block) (off : ℕ) (a : ℕ → ℕ) (i : ℕ)
    → i < ndirect + 1
    → get_words f off a i ≡ get_le f (off + 4 * i) 4
get_words_lem f off a i h = let t : ltb i 13 ≡ true = ground (arith, h) in rw t

put_dinode-SameDinode :
    (f : Block) (off : ℕ) (ip jp : Inode)
    → Fits ip
    → SameDinode ip (get_dinode (put_dinode f off ip) off jp)
unfolding put_dinode
put_dinode-SameDinode f off ip jp w =
    let b₁ = put_le f off 2 ip.type in
    let b₂ = put_le b₁ (off + 2) 2 ip.major in
    let b₃ = put_le b₂ (off + 4) 2 ip.minor in
    let b₄ = put_le b₃ (off + 6) 2 ip.nlink in
    let b₅ = put_le b₄ (off + 8) 4 ip.size in
    let past : (at k : ℕ)
        → at + k ≤ off + 12
        → get_le (put_words b₅ (off + 12) 0 (ndirect + 1) ip.addrs) at k ≡ get_le b₅ at k =
      λ at k h.
        put_words-apart b₅ (off + 12) 0 (ndirect + 1) ip.addrs at k (inl (omega (arith, h))) in
    record {
      type =
          past off 2 (omega arith)
          ∙ get_le-apart b₄ (off + 8) 4 ip.size off 2 (inl (omega arith))
          ∙ get_le-apart b₃ (off + 6) 2 ip.nlink off 2 (inl (omega arith))
          ∙ get_le-apart b₂ (off + 4) 2 ip.minor off 2 (inl (omega arith))
          ∙ get_le-apart b₁ (off + 2) 2 ip.major off 2 (inl (omega arith))
          ∙ get_le-put_le f off 2 ip.type w.type;
      major =
          past (off + 2) 2 (omega arith)
          ∙ get_le-apart b₄ (off + 8) 4 ip.size (off + 2) 2 (inl (omega arith))
          ∙ get_le-apart b₃ (off + 6) 2 ip.nlink (off + 2) 2 (inl (omega arith))
          ∙ get_le-apart b₂ (off + 4) 2 ip.minor (off + 2) 2 (inl (omega arith))
          ∙ get_le-put_le b₁ (off + 2) 2 ip.major w.major;
      minor =
          past (off + 4) 2 (omega arith)
          ∙ get_le-apart b₄ (off + 8) 4 ip.size (off + 4) 2 (inl (omega arith))
          ∙ get_le-apart b₃ (off + 6) 2 ip.nlink (off + 4) 2 (inl (omega arith))
          ∙ get_le-put_le b₂ (off + 4) 2 ip.minor w.minor;
      nlink =
          past (off + 6) 2 (omega arith)
          ∙ get_le-apart b₄ (off + 8) 4 ip.size (off + 6) 2 (inl (omega arith))
          ∙ get_le-put_le b₃ (off + 6) 2 ip.nlink w.nlink;
      size = past (off + 8) 4 (omega arith) ∙ get_le-put_le b₄ (off + 8) 4 ip.size w.size;
      addrs = λ i h.
          get_words_lem (put_words b₅ (off + 12) 0 (ndirect + 1) ip.addrs) (off + 12) jp.addrs i h
          ∙ put_words_self b₅ (off + 12) 0 (ndirect + 1) ip.addrs i (omega arith) (omega (arith, h))
              (w.addrs i);
    }

-- A store in another place leaves the fields alone.
put_dinode-apart :
    (f : Block) (off : ℕ) (ip : Inode) (at k : ℕ)
    → (at + k ≤ off) ⊎ (off + 64 ≤ at)
    → get_le (put_dinode f off ip) at k ≡ get_le f at k
unfolding put_dinode
put_dinode-apart f off ip at k h =
    let b₁ = put_le f off 2 ip.type in
    let b₂ = put_le b₁ (off + 2) 2 ip.major in
    let b₃ = put_le b₂ (off + 4) 2 ip.minor in
    let b₄ = put_le b₃ (off + 6) 2 ip.nlink in
    let b₅ = put_le b₄ (off + 8) 4 ip.size in
    put_words-apart b₅ (off + 12) 0 (ndirect + 1) ip.addrs at k (omega (arith, h))
    ∙ get_le-apart b₄ (off + 8) 4 ip.size at k (omega (arith, h))
    ∙ get_le-apart b₃ (off + 6) 2 ip.nlink at k (omega (arith, h))
    ∙ get_le-apart b₂ (off + 4) 2 ip.minor at k (omega (arith, h))
    ∙ get_le-apart b₁ (off + 2) 2 ip.major at k (omega (arith, h))
    ∙ get_le-apart f off 2 ip.type at k (omega (arith, h))

get_dinode-SameDinode :
    (f g : Block) (off : ℕ) (jp : Inode)
    → ((at k : ℕ) → off ≤ at → at + k ≤ off + 64 → get_le g at k ≡ get_le f at k)
    → SameDinode (get_dinode f off jp) (get_dinode g off jp)
get_dinode-SameDinode f g off jp same = record {
  type = same off 2 (omega arith) (omega arith);
  major = same (off + 2) 2 (omega arith) (omega arith);
  minor = same (off + 4) 2 (omega arith) (omega arith);
  nlink = same (off + 6) 2 (omega arith) (omega arith);
  size = same (off + 8) 4 (omega arith) (omega arith);
  addrs = λ i h.
      get_words_lem g (off + 12) jp.addrs i h
      ∙ same (off + 12 + 4 * i) 4 (omega arith) (omega (arith, h))
      ∙ sym (get_words_lem f (off + 12) jp.addrs i h);
}

pub iupdate-SameDinode :
    (ip jp : Inode) (s : Fs)
    → Fits ip
    → ((jp.inum ≡ ip.inum) → SameDinode ip (load_inode (iupdate ip s) jp))
      × ((jp.inum ≢ ip.inum) → SameDinode (load_inode s jp) (load_inode (iupdate ip s) jp))
unfolding iupdate
iupdate-SameDinode ip jp s w = (same_number, other_number)
  where
    c : ℕ
    c = iblock ip.inum s

    after : Block
    after = put_dinode (s.block c) (dinode_at ip.inum) ip

    j₁ : Inode
    j₁ = record jp { valid = true }

    Reads : Block → Inode → Type 0
    Reads b kp = SameDinode kp (get_dinode b (dinode_at jp.inum) j₁)

    same_number : jp.inum ≡ ip.inum → Reads (update s.block c after (iblock jp.inum s)) ip
    same_number e =
        subst (λ b. Reads b ip)
          (sym (ap (λ n. update s.block c after (iblock n s)) e ∙ update_self s.block c after))
          (subst (λ n. SameDinode ip (get_dinode after (dinode_at n) j₁)) (sym e)
            (put_dinode-SameDinode (s.block c) (dinode_at ip.inum) ip j₁ w))

    apart :
        jp.inum ≢ ip.inum
        → iblock jp.inum s ≡ c
        → (at k : ℕ) → dinode_at jp.inum ≤ at
        → at + k ≤ dinode_at jp.inum + 64
        → get_le after at k ≡ get_le (s.block c) at k
    apart n e at k l h =
        put_dinode-apart (s.block c) (dinode_at ip.inum) ip at k (omega (arith, n, e, l, h))

    other_number :
        jp.inum ≢ ip.inum → Reads (update s.block c after (iblock jp.inum s)) (load_inode s jp)
    other_number n = elim (Bool-cases (iblock jp.inum s == c)) [
      | inl same ↦
          let e : iblock jp.inum s ≡ c = ground arith in
          subst (λ b. Reads b (load_inode s jp))
            (sym (ap (update s.block c after) e ∙ update_self s.block c after))
            (subst
              (λ d.
                SameDinode (get_dinode (s.block d) (dinode_at jp.inum) j₁)
                  (get_dinode after (dinode_at jp.inum) j₁))
              (sym e) (get_dinode-SameDinode (s.block c) after (dinode_at jp.inum) j₁ (apart n e)))
      | inr other ↦
          let d : iblock jp.inum s ≢ c = ground arith in
          subst (λ b. Reads b (load_inode s jp))
            (sym (update_other s.block c after (iblock jp.inum s) d))
            (get_dinode-SameDinode (s.block (iblock jp.inum s)) (s.block (iblock jp.inum s))
              (dinode_at jp.inum) j₁ (λ at k l h. refl))
    ]

-- `ilock` of an entry with users that has not been read yet
ilock-loads :
    (jp : Inode) (s : Fs)
    → 0 < jp.ref
    → jp.valid ≡ false
    → (load_inode s jp).type ≢ 0
    → ilock jp s ≡ ok (load_inode s jp)
unfolding ilock
ilock-loads jp s used stale typed =
    let r : ltb jp.ref 1 ≡ false = ground (arith, used) in
    let t : ((load_inode s jp).type == 0) ≡ false = ground (arith, typed) in rw (r, stale, t)

-- After `iupdate` of an inode whose fields fit and that has a type, `ilock` of another entry for the
-- same number, which has users and was not read before, succeeds with these fields. An entry for
-- another number reads what it would have read before.
pub iupdate-ilock :
    (ip jp : Inode) (s : Fs)
    → Fits ip
    → ip.type ≢ 0
    → 0 < jp.ref
    → jp.valid ≡ false
    → ((jp.inum ≡ ip.inum) → (jp' : Inode) × (ilock jp (iupdate ip s) ≡ ok jp') × SameDinode ip jp')
      × ((jp.inum ≢ ip.inum) → SameDinode (load_inode s jp) (load_inode (iupdate ip s) jp))
iupdate-ilock ip jp s w typed used stale =
    let (same, other) = iupdate-SameDinode ip jp s w in
    (
      λ e.
          let d = same e in
          (
            load_inode (iupdate ip s) jp,
            ilock-loads jp (iupdate ip s) used stale (λ z. typed (sym d.type ∙ z)),
            d,
          ),
      other,
    )
