-- ===== src/Pipe/Close.antt =====
-- What `pipeclose` of pipe.c does to the sleepers and to the pipe's page.

use cs330_operating_systems.Base.{
  ℕ, ◌≡◌, refl, Bool, true, false, not, ◌&&◌, if◌then◌else◌, List, Outcome, ok, ◌>>=◌,
}
use cs330_operating_systems.Kalloc.{Kmem, kfree}
use cs330_operating_systems.Proc.Table.{Ptable, wakeup}
use cs330_operating_systems.Pipe.{Pipe, nread_chan, nwrite_chan, close_end, pipeclose}
use cs330_operating_systems.Pipe.Ring.{Holds}
use cs330_operating_systems.Pipe.Sleepers.{NoneLost, wakeup-none, wakeup-Asleep, clash}

abbrev pub both_closed : Pipe → Bool
both_closed p = not p.readopen && not p.writeopen

-- the state after a close, with the kernel's memory from then on
abbrev pub Closed : ℕ → Bool → Pipe → List ℕ → Kmem → Kmem → Outcome (Pipe × Ptable × Kmem) → Type 0
Closed a writable p bytes m m₁ r =
    let p₁ = close_end writable p in
    (t₁ : Ptable) × (r ≡ ok (p₁, t₁, if both_closed p₁ then m₁ else m))
    × Holds p₁ bytes
    × NoneLost a p₁ bytes t₁

freed_if :
    {m₁ : Kmem} (b : Bool) (a : ℕ) (p : Pipe) (t : Ptable) (m : Kmem)
    → kfree a m ≡ ok m₁
    → (if b
        then (◌>>=◌ {B = Pipe × Ptable × Kmem} (kfree a m) (λ m₂. ok (p, t, m₂)))
        else ok (p, t, m))
      ≡ ok (p, t, if b then m₁ else m)
freed_if true a p t m freed = rw freed
freed_if false a p t m freed = refl

-- `pipeclose` closes one end and keeps the bytes, and if no wakeup was lost before, none is lost
-- after. The pipe's page is freed if both ends are closed and kept otherwise. The page is one that
-- `kfree` accepts.
pub pipeclose-NoneLost :
    {bytes : List ℕ} {m₁ : Kmem} (a : ℕ) (writable : Bool) (p : Pipe) (t : Ptable) (m : Kmem)
    → Holds p bytes
    → NoneLost a p bytes t
    → kfree a m ≡ ok m₁
    → Closed a writable p bytes m m₁ (pipeclose a writable p t m)
unfolding pipeclose
pipeclose-NoneLost {bytes} {m₁} a true p t m h lost freed = (
  wakeup (nread_chan a) t,
  freed_if (both_closed (close_end true p)) a (close_end true p) (wakeup (nread_chan a) t) m freed,
  record { small = h.small; room = h.room; count = h.count; byte = h.byte },
  record {
    readers = λ j asleep opened. absurd (clash asleep (wakeup-none (nread_chan a) t j));
    writers = λ j asleep. lost.writers j (wakeup-Asleep (nread_chan a) (nwrite_chan a) t j asleep);
  },
)
pipeclose-NoneLost {bytes} {m₁} a false p t m h lost freed = (
  wakeup (nwrite_chan a) t,
  freed_if (both_closed (close_end false p)) a (close_end false p) (wakeup (nwrite_chan a) t) m
      freed,
  record { small = h.small; room = h.room; count = h.count; byte = h.byte },
  record {
    readers = λ j asleep opened. absurd (clash opened refl);
    writers = λ j asleep. absurd (clash asleep (wakeup-none (nwrite_chan a) t j));
  },
)
