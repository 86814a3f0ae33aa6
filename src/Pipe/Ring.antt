-- ===== src/Pipe/Ring.antt =====
-- The ring of pipe.c holds the bytes that were written and not yet read, in order.
use mathlib.Core.Path.{subst}
use mathlib.Core.List.{append-nil, append_assoc}
use cs330_operating_systems.Base.{
  ℕ, zero, suc, ◌+◌, ◌%◌, ◌≤◌, ◌<◌, ◌≡◌, refl, sym, ap, ◌∙◌, ◌≢◌, ◌⊎◌, inl, inr, ◌↔◌, Bool, true,
  false, not, ◌||◌, arith, if◌then◌else◌, List, [], ◌∷◌, ◌++◌, length, length-append, get_or, take,
  drop, update, update_self, update_other, Bool-cases,
}
use cs330_operating_systems.Pipe.{
  Pipe, WriteResult, written, write_failed, write_sleeps, put, next_byte, advance, is_full,
  is_empty, pipewrite_from, piperead_from,
}

-- The pipe is a queue of at most 512 bytes; its counters wrap around at 2^32.
pub record Holds (p : Pipe) (bytes : List ℕ) : Type 0 where
  pub small : p.nread < 4294967296
  pub room : length bytes ≤ 512
  pub count : p.nwrite ≡ (p.nread + length bytes) % 4294967296
  pub byte : (k : ℕ) → k < length bytes → p.buffer ((p.nread + k) % 512) ≡ get_or bytes k 0

get_or-append_left :
    (xs ys : List ℕ) (k : ℕ) → k < length xs → get_or (xs ++ ys) k 0 ≡ get_or xs k 0
get_or-append_left [] ys k h = elim h [ ]
get_or-append_left (x ∷ xs) ys zero h = refl
get_or-append_left (x ∷ xs) ys (suc k) h = get_or-append_left xs ys k (omega arith)

get_or-append_last : (xs : List ℕ) (y : ℕ) → get_or (xs ++ (y ∷ [])) (length xs) 0 ≡ y
get_or-append_last [] y = refl
get_or-append_last (x ∷ xs) y = get_or-append_last xs y

-- distinct positions of a queue of at most 512 bytes have distinct places
places_differ : (a k n : ℕ) → k < n → n < 512 → (a + k) % 512 ≢ (a + n) % 512
places_differ a k n h l = omega arith

before_or_last : (k n : ℕ) → k < n + 1 → (k < n) ⊎ (k ≡ n)
before_or_last k n h = ground arith

pub is_full_iff :
    {p : Pipe} {bytes : List ℕ} → Holds p bytes → (is_full p ≡ true) ↔ (length bytes ≡ 512)
is_full_iff {p} {bytes} h =
    let s = h.small in let r = h.room in let c = h.count in ground (arith, s, r, c)

pub is_empty_iff :
    {p : Pipe} {bytes : List ℕ} → Holds p bytes → (is_empty p ≡ true) ↔ (length bytes ≡ 0)
is_empty_iff {p} {bytes} h =
    let s = h.small in let r = h.room in let c = h.count in ground (arith, s, r, c)

pub put-Holds :
    {p : Pipe} {bytes : List ℕ} (b : ℕ)
    → Holds p bytes
    → length bytes < 512
    → Holds (put b p) (bytes ++ (b ∷ []))
put-Holds {p} {bytes} b h l = record {
  small = h.small;
  room = let e = length-append bytes (b ∷ []) in omega (arith, e);
  count = let e = length-append bytes (b ∷ []) in let c = h.count in omega (arith, e, c);
  byte = λ k lt. byte k lt;
}
  where
    place : p.nwrite % 512 ≡ (p.nread + length bytes) % 512
    place = let c = h.count in omega (arith, c)

    byte :
        (k : ℕ)
        → k < length (bytes ++ (b ∷ []))
        → update p.buffer (p.nwrite % 512) b ((p.nread + k) % 512) ≡ get_or (bytes ++ (b ∷ [])) k 0
    byte k lt =
        elim (before_or_last k (length bytes) (omega (arith, length-append bytes (b ∷ [])))) [
          | inl before ↦
              update_other p.buffer (p.nwrite % 512) b ((p.nread + k) % 512)
                (λ e. places_differ p.nread k (length bytes) before l (e ∙ place))
              ∙ h.byte k before
              ∙ sym (get_or-append_left bytes (b ∷ []) k before)
          | inr last ↦
              subst
                (λ j.
                  update p.buffer (p.nwrite % 512) b ((p.nread + j) % 512)
                  ≡ get_or (bytes ++ (b ∷ [])) j 0)
                (sym last)
                (subst
                  (λ a.
                    update p.buffer (p.nwrite % 512) b a
                    ≡ get_or (bytes ++ (b ∷ [])) (length bytes) 0)
                  place
                  (update_self p.buffer (p.nwrite % 512) b ∙ sym (get_or-append_last bytes b)))
        ]

advance-Holds : {p : Pipe} {b : ℕ} {bytes : List ℕ} → Holds p (b ∷ bytes) → Holds (advance p) bytes
advance-Holds {p} {b} {bytes} h = record {
  small = omega arith;
  room = let r = h.room in omega (arith, r);
  count = let c = h.count in omega (arith, c);
  byte = λ k lt.
      let e : ((p.nread + 1) % 4294967296 + k) % 512 ≡ (p.nread + suc k) % 512 = omega arith in
      ap p.buffer e ∙ h.byte (suc k) (omega arith);
}

-- what is left to do when a run of the loop has written `xs`
abbrev pub write_result : Bool → Bool → List ℕ → WriteResult
write_result readopen killed [] = written
write_result readopen killed (b ∷ rest) =
    if not readopen || killed then write_failed else write_sleeps (b ∷ rest)

-- what a run that starts with `bytes` in the pipe and has `new` to write comes to
abbrev pub Wrote : Pipe → List ℕ → Bool → List ℕ → WriteResult × Pipe → Type 0
Wrote p bytes killed new r =
    (xs rest : List ℕ) × (new ≡ xs ++ rest)
    × Holds r.1 (bytes ++ xs)
    × (r.0 ≡ write_result p.readopen killed rest)
    × ((rest ≡ []) ⊎ (length (bytes ++ xs) ≡ 512))

pub pipewrite_from-full :
    (p : Pipe) (killed : Bool) (b : ℕ) (new : List ℕ)
    → is_full p ≡ true
    → pipewrite_from killed (b ∷ new) p ≡ (write_result p.readopen killed (b ∷ new), p)
unfolding pipewrite_from
pipewrite_from-full p killed b new full = rw full

pub pipewrite_from-space :
    (p : Pipe) (killed : Bool) (b : ℕ) (new : List ℕ)
    → is_full p ≡ false
    → pipewrite_from killed (b ∷ new) p ≡ pipewrite_from killed new (put b p)
unfolding pipewrite_from
pipewrite_from-space p killed b new space = rw space

pub not_full : {p : Pipe} {bytes : List ℕ} → Holds p bytes → is_full p ≡ false → length bytes < 512
not_full {p} {bytes} h space =
    let s = h.small in let r = h.room in let c = h.count in ground (arith, s, r, c)

-- The loop of `pipewrite` appends a prefix of the bytes to the queue: all of them, or as many as fill
-- it; it then fails if the read end is closed or the writer was killed, and sleeps with the rest
-- otherwise.
pub pipewrite_from-Holds :
    {p : Pipe} {bytes : List ℕ} (killed : Bool) (new : List ℕ)
    → Holds p bytes
    → Wrote p bytes killed new (pipewrite_from killed new p)
unfolding pipewrite_from
pipewrite_from-Holds {bytes} killed [] h =
    ([], [], refl, subst (Holds _) (sym (append-nil bytes)) h, refl, inl refl)
pipewrite_from-Holds {p} {bytes} killed (b ∷ new) h = elim (Bool-cases (is_full p)) [
  | inl full ↦
      subst (λ r. Wrote p bytes killed (b ∷ new) r) (sym (pipewrite_from-full p killed b new full))
        (
          [],
          b ∷ new,
          refl,
          subst (Holds p) (sym (append-nil bytes)) h,
          refl,
          inr (ap length (append-nil bytes) ∙ (is_full_iff h).0 full),
        )
  | inr space ↦
      let (xs, rest, split, holds, result, why) =
        pipewrite_from-Holds {p = put b p} {bytes = bytes ++ (b ∷ [])} killed new
          (put-Holds b h (not_full h space)) in
      let e = append_assoc bytes (b ∷ []) xs in
      subst (λ r. Wrote p bytes killed (b ∷ new) r)
        (sym (pipewrite_from-space p killed b new space))
        (
          b ∷ xs,
          rest,
          ap (λ l. b ∷ l) split,
          subst (Holds _) e holds,
          result,
          subst (λ l. (rest ≡ []) ⊎ (length l ≡ 512)) e why,
        )
]

abbrev pub Took : ℕ → List ℕ → List ℕ × Pipe → Type 0
Took n bytes r = (r.0 ≡ take n bytes) × Holds r.1 (drop n bytes)

piperead_from-empty : (n : ℕ) (p : Pipe) → is_empty p ≡ true → piperead_from (suc n) p ≡ ([], p)
unfolding piperead_from
piperead_from-empty n p empty = rw empty

piperead_from-byte :
    (n : ℕ) (p : Pipe)
    → is_empty p ≡ false
    → piperead_from (suc n) p
      ≡ (next_byte p ∷ (piperead_from n (advance p)).0, (piperead_from n (advance p)).1)
unfolding piperead_from
piperead_from-byte n p some_left = rw some_left

not_empty : {p : Pipe} {b : ℕ} {bytes : List ℕ} → Holds p (b ∷ bytes) → is_empty p ≡ false
not_empty {p} {b} {bytes} h =
    let s = h.small in let r = h.room in let c = h.count in ground (arith, s, r, c)

next_byte-Holds : {p : Pipe} {b : ℕ} {bytes : List ℕ} → Holds p (b ∷ bytes) → next_byte p ≡ b
next_byte-Holds {p} {b} {bytes} h =
    let e : p.nread % 512 ≡ (p.nread + 0) % 512 = omega arith in
    ap p.buffer e ∙ h.byte 0 (omega arith)

-- The loop of `piperead` takes the first `n` bytes from the queue, or all if there are fewer.
pub piperead_from-Holds :
    {p : Pipe} {bytes : List ℕ} (n : ℕ) → Holds p bytes → Took n bytes (piperead_from n p)
unfolding piperead_from
piperead_from-Holds zero h = (refl, h)
piperead_from-Holds {p} {bytes = []} (suc n) h =
    subst (Took (suc n) []) (sym (piperead_from-empty n p ((is_empty_iff h).1 refl))) (refl, h)
piperead_from-Holds {p} {bytes = b ∷ bytes} (suc n) h =
    let (taken, left) = piperead_from-Holds {p = advance p} n (advance-Holds h) in
    subst (Took (suc n) (b ∷ bytes)) (sym (piperead_from-byte n p (not_empty h)))
      (rw (next_byte-Holds h, taken), left)
