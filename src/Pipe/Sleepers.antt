-- ===== src/Pipe/Sleepers.antt =====
-- The processes that sleep on a pipe of pipe.c, and who wakes them.
use mathlib.Core.Path.{subst}
use mathlib.Core.Option
use cs330_operating_systems.Base.{
  ℕ, zero, suc, ◌≤◌, ◌≡◌, refl, sym, ap, ◌∙◌, inl, inr, Bool, true, false, ◌&&◌, arith,
  if◌then◌else◌, Option, none, some, List, [], ◌∷◌, ◌++◌, length, length-append, get_elem?, modify,
  take, drop, Bool-cases,
}
use cs330_operating_systems.Proc.{sleeping, runnable, Chan, Proc}
use cs330_operating_systems.Proc.Table.{Ptable, is_sleeping, same_chan, wake, wakeup, sleep}
use cs330_operating_systems.Proc.Table.Wakeup.{wakeup-get_elem?}
use cs330_operating_systems.Pipe.{
  Pipe, ReadResult, got, read_failed, read_sleeps, nread_chan, nwrite_chan, is_killed,
  pipewrite_from, piperead_from, piperead, put, advance, is_full, is_empty,
}
use cs330_operating_systems.Pipe.Ring.{
  Holds, pipewrite_from-full, pipewrite_from-space, piperead_from-Holds, is_empty_iff,
}

abbrev pub sleeps_on : Chan → Option Proc → Bool
sleeps_on c none = false
sleeps_on c (some p) = is_sleeping p.state && same_chan c p.chan

abbrev pub Asleep : Chan → Ptable → ℕ → Type 0
Asleep c t i = sleeps_on c (get_elem? t.procs i) ≡ true

-- No wakeup was lost: a reader that sleeps finds the pipe empty, and a writer finds it full.
pub record NoneLost (a : ℕ) (p : Pipe) (bytes : List ℕ) (t : Ptable) : Type 0 where
  pub readers :
      (i : ℕ) → Asleep (nread_chan a) t i → p.readopen ≡ true → (bytes ≡ []) × (p.writeopen ≡ true)
  pub writers : (i : ℕ) → Asleep (nwrite_chan a) t i → (length bytes ≡ 512) × (p.readopen ≡ true)

woken_none : (c : Chan) (o : Option Proc) → sleeps_on c (Option.map (wake c) o) ≡ false
woken_none c none = refl
woken_none c (some p) = elim (Bool-cases (is_sleeping p.state && same_chan c p.chan)) [
  | inl woken ↦ rw woken
  | inr left ↦ rw (left, left)
]

pub wakeup-none :
    (c : Chan) (t : Ptable) (i : ℕ) → sleeps_on c (get_elem? (wakeup c t).procs i) ≡ false
wakeup-none c t i = ap (sleeps_on c) (wakeup-get_elem? c t i) ∙ woken_none c (get_elem? t.procs i)

still_asleep :
    (c d : Chan) (o : Option Proc)
    → sleeps_on d (Option.map (wake c) o) ≡ true
    → sleeps_on d o ≡ true
still_asleep c d none h = h
still_asleep c d (some p) h = go (is_sleeping p.state && same_chan c p.chan) refl h
  where
    go :
        (b : Bool)
        → (is_sleeping p.state && same_chan c p.chan) ≡ b
        → sleeps_on d (some (if b then record p { state = runnable } else p)) ≡ true
        → sleeps_on d (some p) ≡ true
    go true e h = absurd (cc)
    go false e h = h

pub wakeup-Asleep : (c d : Chan) (t : Ptable) (i : ℕ) → Asleep d (wakeup c t) i → Asleep d t i
wakeup-Asleep c d t i h =
    still_asleep c d (get_elem? t.procs i) (sym (ap (sleeps_on d) (wakeup-get_elem? c t i)) ∙ h)

pub modify-asleep :
    (c d : Chan) (i j : ℕ) (xs : List Proc)
    → same_chan d (some c) ≡ false
    → sleeps_on d (get_elem? (modify i (λ p. record p { chan = some c; state = sleeping }) xs) j)
      ≡ true
    → sleeps_on d (get_elem? xs j) ≡ true
modify-asleep c d i j [] other h = h
modify-asleep c d zero zero (x ∷ xs) other h = absurd (cc)
modify-asleep c d zero (suc j) (x ∷ xs) other h = h
modify-asleep c d (suc i) zero (x ∷ xs) other h = h
modify-asleep c d (suc i) (suc j) (x ∷ xs) other h = modify-asleep c d i j xs other h

pub sleep-Asleep :
    (c d : Chan) (t : Ptable) (i j : ℕ)
    → same_chan d (some c) ≡ false
    → Asleep d (sleep i c t) j
    → Asleep d t j
unfolding sleep
sleep-Asleep c d t i j other h = modify-asleep c d i j t.procs other h

pub apart : (a : ℕ) → same_chan (nwrite_chan a) (some (nread_chan a)) ≡ false
apart a = ground arith

pub apart_back : (a : ℕ) → same_chan (nread_chan a) (some (nwrite_chan a)) ≡ false
apart_back a = ground arith

-- the loops leave the ends as they are
pub pipewrite_from-ends :
    (killed : Bool) (new : List ℕ) (p : Pipe)
    → ((pipewrite_from killed new p).1.readopen ≡ p.readopen)
      × ((pipewrite_from killed new p).1.writeopen ≡ p.writeopen)
unfolding pipewrite_from
pipewrite_from-ends killed [] p = (refl, refl)
pipewrite_from-ends killed (b ∷ new) p = elim (Bool-cases (is_full p)) [
  | inl full ↦ rw (pipewrite_from-full p killed b new full) (refl, refl)
  | inr space ↦
      rw (pipewrite_from-space p killed b new space) (pipewrite_from-ends killed new (put b p))
]

piperead_from-ends :
    (n : ℕ) (p : Pipe)
    → ((piperead_from n p).1.readopen ≡ p.readopen)
      × ((piperead_from n p).1.writeopen ≡ p.writeopen)
unfolding piperead_from
piperead_from-ends zero p = (refl, refl)
piperead_from-ends (suc n) p = elim (Bool-cases (is_empty p)) [
  | inl empty ↦ rw empty (refl, refl)
  | inr left ↦ rw left (piperead_from-ends n (advance p))
]

pub clash : {b : Bool} → b ≡ true → b ≡ false → ⊥
clash x y = cc

both : (a b : Bool) → (a && b) ≡ true → (a ≡ true) × (b ≡ true)
both true b h = (refl, h)
both false b h = absurd (cc)

drop-nil : (n : ℕ) → drop {A = ℕ} n [] ≡ []
drop-nil zero = refl
drop-nil (suc n) = refl

nil_of_length : (xs : List ℕ) → length xs ≡ 0 → xs ≡ []
nil_of_length [] h = refl
nil_of_length (x ∷ xs) h = absurd (cc)

pub nil_of_room : (xs ys : List ℕ) → length (xs ++ ys) ≤ 512 → length xs ≡ 512 → ys ≡ []
nil_of_room xs ys room full = let e = length-append xs ys in nil_of_length ys (omega (arith, e))

-- what `piperead` returns with `bytes` in the pipe
abbrev pub read_result : Pipe → Bool → ℕ → List ℕ → ReadResult
read_result p killed n bytes =
    if is_empty p && p.writeopen
    then (if killed then read_failed else read_sleeps)
    else got (take n bytes)

-- what a read of `n` bytes comes to
abbrev pub Reads : ℕ → ReadResult → ℕ → List ℕ → ReadResult × Pipe × Ptable → Type 0
Reads a r n bytes (r₁, p₁, t₁) =
    (r₁ ≡ r) × Holds p₁ (drop n bytes) × NoneLost a p₁ (drop n bytes) t₁

piperead-killed :
    (a i n : ℕ) (p : Pipe) (t : Ptable)
    → (is_empty p && p.writeopen) ≡ true
    → is_killed i t ≡ true
    → piperead a i n p t ≡ (read_failed, p, t)
unfolding piperead
piperead-killed a i n p t waits killed = rw (waits, killed)

piperead-waits :
    (a i n : ℕ) (p : Pipe) (t : Ptable)
    → (is_empty p && p.writeopen) ≡ true
    → is_killed i t ≡ false
    → piperead a i n p t ≡ (read_sleeps, p, sleep i (nread_chan a) t)
unfolding piperead
piperead-waits a i n p t waits alive = rw (waits, alive)

piperead-goes :
    (a i n : ℕ) (p : Pipe) (t : Ptable)
    → (is_empty p && p.writeopen) ≡ false
    → piperead a i n p t
      ≡ (got (piperead_from n p).0, (piperead_from n p).1, wakeup (nwrite_chan a) t)
unfolding piperead
piperead-goes a i n p t goes = rw goes

-- On a pipe that holds `bytes`, `piperead` returns the first `n` of them, or as many as there are,
-- and takes them out; at an empty pipe whose write end is open it sleeps, or fails if the reader
-- was killed. If no wakeup was lost before, none is lost after.
pub piperead_takes :
    {bytes : List ℕ} (a i n : ℕ) (p : Pipe) (t : Ptable)
    → Holds p bytes
    → NoneLost a p bytes t
    → Reads a (read_result p (is_killed i t) n bytes) n bytes (piperead a i n p t)
piperead_takes {bytes} a i n p t h lost = elim (Bool-cases (is_empty p && p.writeopen)) [
  | inl waits ↦
      let (empty, writable) = both (is_empty p) p.writeopen waits in
      let nil = nil_of_length bytes ((is_empty_iff h).0 empty) in
      let same = ap (drop n) nil ∙ drop-nil n ∙ sym nil in
      elim (Bool-cases (is_killed i t)) [
        | inl killed ↦
            subst (Reads a (read_result p (is_killed i t) n bytes) n bytes)
              (sym (piperead-killed a i n p t waits killed))
              (
                rw (waits, killed),
                subst (Holds p) (sym same) h,
                subst (λ l. NoneLost a p l t) (sym same) lost,
              )
        | inr alive ↦
            subst (Reads a (read_result p (is_killed i t) n bytes) n bytes)
              (sym (piperead-waits a i n p t waits alive))
              (
                rw (waits, alive),
                subst (Holds p) (sym same) h,
                subst (λ l. NoneLost a p l (sleep i (nread_chan a) t)) (sym same)
                    record {
                      readers = λ j asleep opened. (nil, writable);
                      writers = λ j asleep.
                          lost.writers j
                            (sleep-Asleep (nread_chan a) (nwrite_chan a) t i j (apart a) asleep);
                    },
              )
      ]
  | inr goes ↦
      let (taken, left) = piperead_from-Holds n h in
      let (ro, wo) = piperead_from-ends n p in
      subst (Reads a (read_result p (is_killed i t) n bytes) n bytes)
        (sym (piperead-goes a i n p t goes))
        (
          rw (goes, taken),
          left,
          record {
            readers = λ j asleep opened.
                let (nil, writable) =
                  lost.readers j (wakeup-Asleep (nwrite_chan a) (nread_chan a) t j asleep)
                    (sym ro ∙ opened) in
                absurd (nobody (ap length nil) writable goes);
            writers = λ j asleep. absurd (clash asleep (wakeup-none (nwrite_chan a) t j));
          },
        )
]
  where
    nobody : length bytes ≡ 0 → p.writeopen ≡ true → (is_empty p && p.writeopen) ≡ false → ⊥
    nobody none_left writable goes = let empty = (is_empty_iff h).1 none_left in cc
