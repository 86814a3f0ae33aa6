-- ===== src/Str/Copies.antt =====
-- What the copying functions of string.c leave in memory.
use cs330_operating_systems.Base.{
  ℕ, zero, suc, ◌+◌, ◌-◌, ◌*◌, ◌/◌, ◌%◌, ◌≤◌, ◌<◌, ◌≡◌, ap, ◌∙◌, ◌⊎◌, inl, inr, not, ◌&&◌, arith,
  ltb, ◌==◌, if◌then◌else◌, Bool-cases, update,
}
use cs330_operating_systems.Str.{
  stosb, stosl, put_word, four_times, memset, move_down, move_up, memmove,
}

-- the memory `m` with the `n` bytes from `d` on taken from `s`, all at once
abbrev pub moved : ℕ → ℕ → ℕ → (ℕ → ℕ) → ℕ → ℕ
moved d s n m a = if not (ltb a d) && ltb a (d + n) then m (s + (a - d)) else m a

move_down-moved : (d s n : ℕ) (m : ℕ → ℕ) (a : ℕ) → s < d → move_down d s n m a ≡ moved d s n m a
unfolding move_down
move_down-moved d s zero m a h = ground arith
move_down-moved d s (suc n) m a h =
    move_down-moved d s n (update m (d + n) (m (s + n))) a h ∙ ground arith

move_up-moved :
    (d s n : ℕ) (m : ℕ → ℕ) (a : ℕ) → (d ≤ s) ⊎ (s + n ≤ d) → move_up d s n m a ≡ moved d s n m a
unfolding move_up
move_up-moved d s zero m a h = ground arith
move_up-moved d s (suc n) m a h =
    move_up-moved (d + 1) (s + 1) n (update m d (m s)) a (omega arith) ∙ ground arith

-- After `memmove` each byte of the destination is the byte that the source had before the call,
-- also when the two ranges overlap, and every other byte is as it was.
pub memmove-moved :
    (dst src n : ℕ) (m : ℕ → ℕ) (a : ℕ) → memmove dst src n m a ≡ moved dst src n m a
unfolding memmove
memmove-moved dst src n m a = elim (Bool-cases (ltb src dst && ltb dst (src + n))) [
  | inl overlap ↦ rw (overlap, move_down-moved dst src n m a (ground arith))
  | inr apart ↦ rw (apart, move_up-moved dst src n m a (ground arith))
]

abbrev pub filled : ℕ → ℕ → ℕ → (ℕ → ℕ) → ℕ → ℕ
filled d c n m a = if not (ltb a d) && ltb a (d + n) then c % 256 else m a

stosb-filled : (d c n : ℕ) (m : ℕ → ℕ) (a : ℕ) → stosb d c n m a ≡ filled d c n m a
unfolding stosb
stosb-filled d c zero m a = ground arith
stosb-filled d c (suc n) m a = stosb-filled (d + 1) c n (update m d (c % 256)) a ∙ ground arith

put_word-filled :
    (d c : ℕ) (m : ℕ → ℕ) (a : ℕ) → c < 256 → put_word d (four_times c) m a ≡ filled d c 4 m a
put_word-filled d c m a h = ground arith

stosl-filled :
    (d c n : ℕ) (m : ℕ → ℕ) (a : ℕ)
    → c < 256
    → stosl d (four_times c) n m a ≡ filled d c (n * 4) m a
unfolding stosl
stosl-filled d c zero m a h = ground arith
stosl-filled d c (suc n) m a h =
    stosl-filled (d + 4) c n (put_word d (four_times c) m) a h
    ∙ ap (λ v. if not (ltb a (d + 4)) && ltb a (d + 4 + n * 4) then c % 256 else v)
        (put_word-filled d c m a h)
    ∙ ground arith

-- `memset` sets the `n` bytes to the low byte of `c` and changes nothing else, whether it stores
-- words or bytes.
pub memset-filled : (dst c n : ℕ) (m : ℕ → ℕ) (a : ℕ) → memset dst c n m a ≡ filled dst c n m a
unfolding memset
memset-filled dst c n m a = elim (Bool-cases ((dst % 4 == 0) && (n % 4 == 0))) [
  | inl words ↦
      let e : filled dst (c % 256) (n / 4 * 4) m a ≡ filled dst c n m a = ground arith in
      rw (words, stosl-filled dst (c % 256) (n / 4) m a (omega arith), e)
  | inr bytes ↦ rw (bytes, stosb-filled dst c n m a)
]
