-- ===== src/Fs/Dir/Search.antt =====
-- The searches of `dirlookup` and `dirlink` of fs.c.
use Prim.Native.Nat.{min}
use mathlib.Core.Path.{subst}
use cs330_operating_systems.Base.{
  ℕ, zero, suc, ◌+◌, ◌-◌, ◌*◌, ◌%◌, ◌^◌, ◌≤◌, ◌<◌, ◌≡◌, ◌≢◌, ◌∙◌, inl, inr, ap, refl, arith, lt→ltb,
  Bool, true, false, ◌==◌, ltb, if◌then◌else◌, Bool-cases, List, length, Option, none, some, ok,
}
use cs330_operating_systems.Kalloc.{add_uint}
use cs330_operating_systems.Fs.{Block, Fs}
use cs330_operating_systems.Fs.Inode.{Inode}
use cs330_operating_systems.Fs.Content.{get_bytes, readi_file}
use cs330_operating_systems.Fs.Content.Owned.{IsOwned}
use cs330_operating_systems.Fs.Content.Alloc.{trans-Keeps}
use cs330_operating_systems.Fs.Content.Ensure.{refl-Keeps}
use cs330_operating_systems.Fs.Content.Slices.{get_bytes_ext}
use cs330_operating_systems.Fs.Content.View.{block_at, byte_at, maxbytes}
use cs330_operating_systems.Fs.Content.Read.{Holds, readi_file-Holds}
use cs330_operating_systems.Fs.Dir.{dirent_size, whole_entry, search_from}

-- the entry at an offset, as the directory's bytes have it
abbrev pub entry_at : Block → ℕ → List ℕ
entry_at view off = get_bytes view off dirent_size

-- A directory: a file of whole entries, with a block at each place.
pub record IsDirectory (dp : Inode) (s : Fs) : Type 0 where
  pub owned : IsOwned dp s
  pub size : dp.size ≤ maxbytes
  pub whole : dp.size % dirent_size ≡ 0
  pub solid : (q : ℕ) → q < dp.size → block_at q dp s ≢ 0

-- What a search from `off` finds: the first entry that passes the test, or that none does.
abbrev pub Finds : (List ℕ → Bool) → Block → ℕ → ℕ → Option (ℕ × List ℕ) → Type 0
Finds test view size off none =
    (q : ℕ) → off ≤ q → q < size → q % dirent_size ≡ 0 → test (entry_at view q) ≡ false
Finds test view size off (some (at, de)) =
    (off ≤ at)
    × (at < size)
    × (at % dirent_size ≡ 0)
    × (de ≡ entry_at view at)
    × (test de ≡ true)
    × ((q : ℕ) → off ≤ q → q < at → q % dirent_size ≡ 0 → test (entry_at view q) ≡ false)

pub length-get_bytes : (f : Block) (off n : ℕ) → length (get_bytes f off n) ≡ n
unfolding get_bytes
length-get_bytes f off zero = refl
length-get_bytes f off (suc n) = ap suc (length-get_bytes f (off + 1) n)

-- Two views with the same entries.
pub Finds-entry_at :
    (test : List ℕ → Bool) (v w : Block) (size off : ℕ) (r : Option (ℕ × List ℕ))
    → ((q : ℕ) → q < size → q % dirent_size ≡ 0 → entry_at v q ≡ entry_at w q)
    → Finds test v size off r
    → Finds test w size off r
Finds-entry_at test v w size off none same f =
    λ q l h a. subst (λ de. test de ≡ false) (same q h a) (f q l h a)
Finds-entry_at test v w size off (some (at, de)) same (l, h, a, e, t, before) = (
  l,
  h,
  a,
  e ∙ same at h a,
  t,
  λ q l' h' a'. subst (λ x. test x ≡ false) (same q (omega (arith, h, h')) a') (before q l' h' a'),
)

-- An entry in front that fails the test.
Finds-next :
    (test : List ℕ → Bool) (view : Block) (size off : ℕ) (r : Option (ℕ × List ℕ))
    → off % dirent_size ≡ 0
    → test (entry_at view off) ≡ false
    → Finds test view size (off + dirent_size) r
    → Finds test view size off r
Finds-next test view size off none aligned fails f = λ q l h a. elim (Bool-cases (q == off)) [
  | inl here ↦ let e : off ≡ q = ground arith in subst (λ x. test (entry_at view x) ≡ false) e fails
  | inr other ↦ let n : q ≢ off = ground arith in f q (omega (arith, l, n, a, aligned)) h a
]
Finds-next test view size off (some (at, de)) aligned fails (l, h, a, e, t, before) = (
  omega (arith, l),
  h,
  a,
  e,
  t,
  λ q l' h' a'. elim (Bool-cases (q == off)) [
    | inl here ↦
        let e' : off ≡ q = ground arith in subst (λ x. test (entry_at view x) ≡ false) e' fails
    | inr other ↦
        let n : q ≢ off = ground arith in before q (omega (arith, l', n, a', aligned)) h' a'
  ],
)

whole_entry-ok : (de : List ℕ) → length de ≡ dirent_size → whole_entry (some de) ≡ ok de
whole_entry-ok de h = let t : (length de == 16) ≡ true = ground (arith, h) in rw t

module _ (test : List ℕ → Bool) (fuel off : ℕ) (dp : Inode) (s : Fs) where
  search_from-end : dp.size ≤ off → search_from test (suc fuel) off dp s ≡ ok (none, dp, s)
  unfolding search_from
  search_from-end h = let t : ltb off dp.size ≡ false = ground (arith, h) in rw t

  search_from-step :
      {de : List ℕ} {dp₁ : Inode} {s₁ : Fs}
      → off < dp.size
      → readi_file off dirent_size dp s ≡ ok (some de, dp₁, s₁)
      → length de ≡ dirent_size
      → search_from test (suc fuel) off dp s ≡ (
          if test de
          then ok (some (off, de), dp₁, s₁)
          else search_from test fuel (add_uint off dirent_size) dp₁ s₁)
  unfolding search_from
  search_from-step {de} {dp₁} {s₁} h run n =
      let t = lt→ltb off dp.size h in let w = whole_entry-ok de n in rw (t, run, w)

  search_from-miss :
      {de : List ℕ} {dp₁ : Inode} {s₁ : Fs}
      → off < dp.size
      → off + dirent_size < 2 ^ 32
      → readi_file off dirent_size dp s ≡ ok (some de, dp₁, s₁)
      → length de ≡ dirent_size
      → test de ≡ false
      → search_from test (suc fuel) off dp s ≡ search_from test fuel (off + dirent_size) dp₁ s₁
  search_from-miss {de} {dp₁} {s₁} h w run n miss =
      let next : add_uint off 16 ≡ off + 16 = omega (arith, w) in
      search_from-step h run n ∙ rw (miss, next)

-- What reading the directory's bytes leaves is a directory.
pub Holds-IsDirectory :
    (dp : Inode) (s : Fs) (dp' : Inode) (s' : Fs)
    → IsDirectory dp s
    → Holds (byte_at dp s) dp s dp' s'
    → IsDirectory dp' s'
Holds-IsDirectory dp s dp' s' d h =
    let same : dp'.size ≡ dp.size = ap (λ x. x.size) h.rest in
    record {
      owned = h.owned;
      size = omega (arith, same, d.size);
      whole = ap (λ n. n % 16) same ∙ d.whole;
      solid = λ q l z.
          d.solid q (omega (arith, l, same)) (h.holes q (omega (arith, l, same, d.size)) z);
    }

-- `readi` of an entry of a directory
read_entry :
    (off : ℕ) (dp : Inode) (s : Fs)
    → IsDirectory dp s
    → off % dirent_size ≡ 0
    → off < dp.size
    → (dp' : Inode) × (s' : Fs) × (readi_file off dirent_size dp s
        ≡ ok (some (entry_at (byte_at dp s) off), dp', s'))
      × Holds (byte_at dp s) dp s dp' s'
read_entry off dp s d aligned inside =
    let n : min dirent_size (dp.size - off) ≡ dirent_size =
      omega (arith, d.whole, aligned, inside) in
    elim (readi_file-Holds off dirent_size dp s d.owned d.size (omega arith)) [
      | inl (stop, why) ↦ absurd (omega (arith, why, inside, d.size))
      | inr (le, inl (stop, (q, l, h, z))) ↦
          absurd (d.solid q (omega (arith, h, n, inside, d.whole, aligned)) z)
      | inr (le, inr (dp', s', run, h)) ↦
          (dp', s', run ∙ ap (λ k. ok (some (get_bytes (byte_at dp s) off k), dp', s')) n, h)
    ]

trans-Holds :
    (view : Block) (dp dp₁ dp₂ : Inode) (s s₁ s₂ : Fs)
    → Holds view dp s dp₁ s₁
    → Holds (byte_at dp₁ s₁) dp₁ s₁ dp₂ s₂
    → Holds view dp s dp₂ s₂
trans-Holds view dp dp₁ dp₂ s s₁ s₂ h k = record {
  owned = k.owned;
  bytes = λ q l. k.bytes q l ∙ h.bytes q l;
  holes = λ q l z. h.holes q l (k.holes q l z);
  rest = k.rest ∙ ap {A = Inode} (λ x. record x { addrs = dp₂.addrs }) h.rest;
  keeps = trans-Keeps h.keeps k.keeps;
}

pub search_from-Finds :
    (test : List ℕ → Bool) (fuel off : ℕ) (dp : Inode) (s : Fs)
    → IsDirectory dp s
    → off % dirent_size ≡ 0
    → off ≤ dp.size
    → dp.size < off + dirent_size * fuel
    → (r : Option (ℕ × List ℕ)) × (dp' : Inode) × (s' : Fs) × (search_from test fuel off dp s
        ≡ ok (r, dp', s'))
      × Finds test (byte_at dp s) dp.size off r
      × Holds (byte_at dp s) dp s dp' s'
search_from-Finds test zero off dp s d aligned le enough = absurd (omega (arith, le, enough))
search_from-Finds test (suc fuel) off dp s d aligned le enough =
    elim (Bool-cases (ltb off dp.size)) [
      | inr past ↦
          let end : dp.size ≤ off = ground arith in
          (
            none,
            dp,
            s,
            search_from-end test fuel off dp s end,
            λ q l h a. absurd (omega (arith, l, h, end)),
            record {
              owned = d.owned;
              bytes = λ q h. refl;
              holes = λ q h z. z;
              rest = refl;
              keeps = refl-Keeps dp d.owned;
            },
          )
      | inl there ↦
          let inside : off < dp.size = ground arith in
          let view = byte_at dp s in
          let de = entry_at view off in
          let (dp₁, s₁, run, h) = read_entry off dp s d aligned inside in
          let step =
            search_from-step test fuel off dp s inside run (length-get_bytes view off 16) in
          elim (Bool-cases (test de)) [
            | inl hit ↦ (
              some (off, de),
              dp₁,
              s₁,
              step ∙ rw hit,
              (omega arith, inside, aligned, refl, hit, λ q l l' a. absurd (omega (arith, l, l'))),
              h,
            )
            | inr miss ↦
                let same : dp₁.size ≡ dp.size = ap (λ x. x.size) h.rest in
                let small : off + 16 < 2 ^ 32 = omega (arith, inside, d.size) in
                let go_on =
                  search_from-miss test fuel off dp s inside small run
                    (length-get_bytes view off 16) miss in
                let (r, dp₂, s₂, run', f, k) =
                  search_from-Finds test fuel (off + 16) dp₁ s₁ (Holds-IsDirectory dp s dp₁ s₁ d h)
                    (omega (arith, aligned)) (omega (arith, same, inside, d.whole, aligned))
                    (omega (arith, same, enough)) in
                (
                  r,
                  dp₂,
                  s₂,
                  go_on ∙ run',
                  Finds-next test view dp.size off r aligned miss (
                      Finds-entry_at test (byte_at dp₁ s₁) view dp.size (off + 16) r
                        (λ q l a.
                          get_bytes_ext (byte_at dp₁ s₁) view q q 16
                            (λ i b. h.bytes (q + i) (omega (arith, l, a, b, d.whole, d.size))))
                        (subst (λ n. Finds test (byte_at dp₁ s₁) n (off + 16) r) same f)),
                  trans-Holds view dp dp₁ dp₂ s s₁ s₂ h k,
                )
          ]
    ]
