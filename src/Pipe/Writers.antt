-- ===== src/Pipe/Writers.antt =====
-- What `pipewrite` of pipe.c does to the queue and to the processes that sleep on it.
use mathlib.Core.Path.{subst}
use mathlib.Core.List.{append-nil}
use cs330_operating_systems.Base.{
  ℕ, ◌<◌, ◌≡◌, refl, sym, ap, ◌∙◌, ◌⊎◌, inl, inr, Bool, true, false, arith, List, [], ◌∷◌, ◌++◌,
  length, Bool-cases,
}
use cs330_operating_systems.Proc.Table.{Ptable, wakeup}
use cs330_operating_systems.Pipe.{
  Pipe, WriteResult, write_failed, write_sleeps, nread_chan, nwrite_chan, is_killed, after_write,
  pipewrite_from, pipewrite,
}
use cs330_operating_systems.Pipe.Ring.{Holds, write_result, pipewrite_from-Holds}
use cs330_operating_systems.Pipe.Sleepers.{
  Asleep, NoneLost, wakeup-none, wakeup-Asleep, sleep-Asleep, apart_back, pipewrite_from-ends,
  nil_of_room, clash,
}

-- how a call of `pipewrite` by a process that was not killed leaves the sleepers
after_write-NoneLost :
    {p p₁ : Pipe} {bytes : List ℕ} {r : WriteResult} (a i : ℕ) (xs rest : List ℕ) (t : Ptable)
    → NoneLost a p bytes t
    → Holds p₁ (bytes ++ xs)
    → p₁.readopen ≡ p.readopen
    → r ≡ write_result p.readopen false rest
    → (rest ≡ []) ⊎ (length (bytes ++ xs) ≡ 512)
    → NoneLost a p₁ (bytes ++ xs) (after_write a i r t)
after_write-NoneLost {p} {p₁} {bytes} {r} a i xs [] t lost h open_same result why =
    subst (λ r. NoneLost a p₁ (bytes ++ xs) (after_write a i r t)) (sym result)
      record {
        readers = λ j asleep opened. absurd (clash asleep (wakeup-none (nread_chan a) t j));
        writers = λ j asleep.
            let (full, opened) =
              lost.writers j (wakeup-Asleep (nread_chan a) (nwrite_chan a) t j asleep) in
            (still_full full, open_same ∙ opened);
      }
  where
    still_full : length bytes ≡ 512 → length (bytes ++ xs) ≡ 512
    still_full full =
        ap (λ l. length (bytes ++ l)) (nil_of_room bytes xs h.room full)
        ∙ ap length (append-nil bytes)
        ∙ full
after_write-NoneLost {p} {p₁} {bytes} {r} a i xs (b ∷ rest) t lost h open_same result why =
    elim (Bool-cases p.readopen) [
      | inl opened ↦
          subst (λ r. NoneLost a p₁ (bytes ++ xs) (after_write a i r t)) (sym (sleeps opened))
            record {
              readers = λ j asleep o. absurd (
                  clash
                    (sleep-Asleep (nwrite_chan a) (nread_chan a) (wakeup (nread_chan a) t) i j
                      (apart_back a) asleep)
                    (wakeup-none (nread_chan a) t j));
              writers = λ j asleep. (full why, open_same ∙ opened);
            }
      | inr closed ↦
          subst (λ r. NoneLost a p₁ (bytes ++ xs) (after_write a i r t)) (sym (fails closed))
            record {
              readers = λ j asleep o. absurd (clash (sym open_same ∙ o) closed);
              writers = λ j asleep. absurd (clash (lost.writers j asleep).1 closed);
            }
    ]
  where
    sleeps : p.readopen ≡ true → r ≡ write_sleeps (b ∷ rest)
    sleeps opened = result ∙ rw opened

    fails : p.readopen ≡ false → r ≡ write_failed
    fails closed = result ∙ rw closed

    full : ((b ∷ rest) ≡ []) ⊎ (length (bytes ++ xs) ≡ 512) → length (bytes ++ xs) ≡ 512
    full (inl none_left) = absurd (cc)
    full (inr e) = e

-- what a write of `new` comes to
abbrev pub Writes : ℕ → Pipe → List ℕ → List ℕ → WriteResult × Pipe × Ptable → Type 0
Writes a p bytes new (r, p₁, t₁) =
    (xs rest : List ℕ) × (new ≡ xs ++ rest)
    × Holds p₁ (bytes ++ xs)
    × (r ≡ write_result p.readopen false rest)
    × ((rest ≡ []) ⊎ (length (bytes ++ xs) ≡ 512))
    × NoneLost a p₁ (bytes ++ xs) t₁

-- On a pipe that holds `bytes`, `pipewrite` by a process that was not killed appends a prefix of
-- its bytes, all of them or as many as fill the pipe; in the second case it sleeps with the rest,
-- or fails if the read end is closed. If no wakeup was lost before, none is lost after.
pub pipewrite_appends :
    {bytes : List ℕ} (a i : ℕ) (new : List ℕ) (p : Pipe) (t : Ptable)
    → Holds p bytes
    → NoneLost a p bytes t
    → is_killed i t ≡ false
    → Writes a p bytes new (pipewrite a i new p t)
unfolding pipewrite
pipewrite_appends {bytes} a i new p t h lost alive =
    let (xs, rest, split, holds, result, why) = pipewrite_from-Holds (is_killed i t) new h in
    let result₁ = result ∙ ap (λ k. write_result p.readopen k rest) alive in
    (
      xs,
      rest,
      split,
      holds,
      result₁,
      why,
      after_write-NoneLost a i xs rest t lost holds (pipewrite_from-ends (is_killed i t) new p).0
          result₁ why,
    )

-- A writer that was killed while the pipe was empty and a reader slept on it fills the pipe and
-- returns -1 without waking the reader, when it has more than 512 bytes to write.
pub pipewrite_lost_wakeup :
    (a i j : ℕ) (new : List ℕ) (p : Pipe) (t : Ptable)
    → Holds p []
    → is_killed i t ≡ true
    → Asleep (nread_chan a) t j
    → 512 < length new
    → (xs : List ℕ) × (length xs ≡ 512)
      × Holds (pipewrite a i new p t).1 xs
      × ((pipewrite a i new p t).0 ≡ write_failed)
      × Asleep (nread_chan a) (pipewrite a i new p t).2 j
unfolding pipewrite
pipewrite_lost_wakeup a i j new p t h killed asleep long =
    let (xs, rest, split, holds, result, why) = pipewrite_from-Holds (is_killed i t) new h in
    go xs rest split holds (result ∙ ap (λ k. write_result p.readopen k rest) killed) why
  where
    go :
        (xs rest : List ℕ)
        → new ≡ xs ++ rest
        → Holds (pipewrite_from (is_killed i t) new p).1 xs
        → (pipewrite_from (is_killed i t) new p).0 ≡ write_result p.readopen true rest
        → (rest ≡ []) ⊎ (length xs ≡ 512)
        → (ys : List ℕ) × (length ys ≡ 512)
          × Holds (pipewrite_from (is_killed i t) new p).1 ys
          × ((pipewrite_from (is_killed i t) new p).0 ≡ write_failed)
          × Asleep (nread_chan a) (after_write a i (pipewrite_from (is_killed i t) new p).0 t) j
    go xs [] split holds result why =
        let e = ap length (split ∙ append-nil xs) in
        let r = holds.room in absurd (omega (arith, e, r))
    go xs (b ∷ rest) split holds result (inl none_left) = absurd (cc)
    go xs (b ∷ rest) split holds result (inr full) =
        let failed = result ∙ fails p.readopen in
        (
          xs,
          full,
          holds,
          failed,
          subst (λ r. Asleep (nread_chan a) (after_write a i r t) j) (sym failed) asleep,
        )
      where
        fails : (o : Bool) → write_result o true (b ∷ rest) ≡ write_failed
        fails true = refl
        fails false = refl
