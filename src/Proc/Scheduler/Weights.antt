-- ===== src/Proc/Scheduler/Weights.antt =====
-- How often a process gets the CPU in one weighted cycle.
use mathlib.Core.Path.{subst, sym, ap}
use cs330_operating_systems.Base.{
  ℕ, zero, suc, ◌+◌, ◌-◌, ◌≤◌, ◌<◌, ◌≡◌, refl, ◌∙◌, inl, inr, Bool, true, false, ◌&&◌, arith, ltb,
  leb, ◌==◌, if◌then◌else◌, Option, none, some, List, [], ◌∷◌, ◌++◌, get_elem?, modify, Bool-cases,
  modify-modify,
}
use cs330_operating_systems.Proc.{ProcState, runnable, running, Proc}
use cs330_operating_systems.Proc.Scheduler.{
  max_priority, is_runnable, qualifies_at, set_state, pass, is_empty, cycle_from, cycle, cpu_bound,
}

-- how often `i` stands in a list
pub count : ℕ → List ℕ → ℕ
count i [] = 0
count i (j ∷ js) = (if i == j then 1 else 0) + count i js

count-append : (i : ℕ) (xs ys : List ℕ) → count i (xs ++ ys) ≡ count i xs + count i ys
unfolding count
count-append i [] ys = omega arith
count-append i (x ∷ xs) ys = omega (arith, count-append i xs ys)

-- A run of a process that qualifies leaves the table as it was.
cpu_bound_same :
    (round i : ℕ) (procs : List Proc)
    → qualifies_at round (get_elem? procs i) ≡ true
    → cpu_bound i (modify i (set_state running) procs) ≡ procs
cpu_bound_same round i procs h = go (get_elem? procs i) refl h
  where
    go :
        (o : Option Proc)
        → get_elem? procs i ≡ o
        → qualifies_at round o ≡ true
        → modify i (set_state runnable) (modify i (set_state running) procs) ≡ procs
    go none e h = absurd (cc)
    go (some p) e h =
        let s : p.state ≡ runnable = ground arith in
        modify-modify i (set_state running) (set_state runnable) procs p e (ground arith)

abbrev one_if : Bool → ℕ
one_if b = if b then 1 else 0

pass-yes :
    (round n i : ℕ) (procs : List Proc)
    → qualifies_at round (get_elem? procs i) ≡ true
    → pass cpu_bound round (suc n) i procs
      ≡ (i ∷ (pass cpu_bound round n (i + 1) procs).0, (pass cpu_bound round n (i + 1) procs).1)
unfolding pass
pass-yes round n i procs h = rw (h, pass) (rw (cpu_bound_same round i procs h))

pass-no :
    (round n i : ℕ) (procs : List Proc)
    → qualifies_at round (get_elem? procs i) ≡ false
    → pass cpu_bound round (suc n) i procs ≡ pass cpu_bound round n (i + 1) procs
unfolding pass
pass-no round n i procs h = rw (h, pass)

-- the entries from `i` on, `n` of them, counted where `q` holds
abbrev in_window : (ℕ → Bool) → ℕ → ℕ → ℕ → ℕ
in_window q n i k = if leb i k && ltb k (i + n) then one_if (q k) else 0

window-suc :
    (q : ℕ → Bool) (n i k c : ℕ)
    → c ≡ in_window q n (i + 1) k
    → ((q i ≡ true → (if k == i then 1 else 0) + c ≡ in_window q (suc n) i k)
        × (q i ≡ false → c ≡ in_window q (suc n) i k))
window-suc q n i k c h = (λ e. ground arith, λ e. ground arith)

pass-count :
    (round n i k : ℕ) (procs : List Proc)
    → ((pass cpu_bound round n i procs).1 ≡ procs)
      × (count k (pass cpu_bound round n i procs).0
          ≡ in_window (λ j. qualifies_at round (get_elem? procs j)) n i k)
unfolding count
pass-count round zero i k procs = unfold pass in (refl, ground arith)
pass-count round (suc n) i k procs =
    let (same, counted) = pass-count round n (i + 1) k procs in
    let w = window-suc (λ j. qualifies_at round (get_elem? procs j)) n i k _ counted in
    elim (Bool-cases (qualifies_at round (get_elem? procs i))) [
      | inl y ↦ rw (pass-yes round n i procs y) (same, w.0 y)
      | inr no_turn ↦ rw (pass-no round n i procs no_turn) (same, w.1 no_turn)
    ]

-- Nothing ran in a round in which no one qualified, and then no one does in a later round either.
later_round :
    (round : ℕ) (o : Option Proc)
    → qualifies_at round o ≡ false
    → qualifies_at (round + 1) o ≡ false
later_round round none h = refl
later_round round (some p) h = ground arith

-- the rounds from `round` on, `left` of them, in which a process takes part
abbrev turns : ℕ → ℕ → Option Proc → ℕ
turns zero round o = 0
turns (suc left) round o = one_if (qualifies_at round o) + turns left (round + 1) o

turns-zero :
    (left round : ℕ) (o : Option Proc) → qualifies_at round o ≡ false → turns left round o ≡ 0
turns-zero zero round o h = refl
turns-zero (suc left) round o h =
    omega (arith, turns-zero left (round + 1) o (later_round round o h), ap one_if h)

is_empty-count : (k : ℕ) (is : List ℕ) → is_empty is ≡ true → count k is ≡ 0
unfolding count
is_empty-count k [] h = refl
is_empty-count k (i ∷ is) h = absurd (cc)

cycle_from-count :
    (left round nproc k : ℕ) (procs : List Proc)
    → k < nproc
    → ((cycle_from cpu_bound nproc left round procs).1 ≡ procs)
      × (count k (cycle_from cpu_bound nproc left round procs).0
          ≡ turns left round (get_elem? procs k))
unfolding cycle_from count
cycle_from-count zero round nproc k procs h = (refl, refl)
cycle_from-count (suc left) round nproc k procs h =
    let (same, counted) = pass-count round nproc 0 k procs in
    let o = get_elem? procs k in
    let turn : count k (pass cpu_bound round nproc 0 procs).0 ≡ one_if (qualifies_at round o) =
      ground (arith, counted) in
    let rest =
      subst
        (λ q.
          ((cycle_from cpu_bound nproc left (round + 1) q).1 ≡ procs)
          × (count k (cycle_from cpu_bound nproc left (round + 1) q).0 ≡ turns left (round + 1) o))
        (sym same) (cycle_from-count left (round + 1) nproc k procs h) in
    elim (Bool-cases (is_empty (pass cpu_bound round nproc 0 procs).0)) [
      | inl idle ↦
          let out : qualifies_at round o ≡ false = ground (arith, turn, is_empty-count k _ idle) in
          rw (idle, cycle_from) (same, sym (turns-zero (suc left) round o out))
      | inr busy ↦
          rw (busy, cycle_from)
            (
              rest.0,
              count-append k (pass cpu_bound round nproc 0 procs).0
                    (cycle_from cpu_bound nproc left (round + 1)
                      (pass cpu_bound round nproc 0 procs).1).0
                  ∙ omega (arith, turn, rest.1),
            )
    ]

turns-priority :
    (left round : ℕ) (p : Proc)
    → p.state ≡ runnable
    → turns left round (some p) ≡ (
        if leb p.priority round
        then 0
        else if leb (p.priority - round) left
        then p.priority - round
        else left)
turns-priority zero round p h = ground arith
turns-priority (suc left) round p h = ground (arith, turns-priority left (round + 1) p h)

runnable_state : (s : ProcState) → is_runnable s ≡ true → s ≡ runnable
runnable_state s h = ground arith

-- In one cycle of the scheduler over processes that only compute, a runnable process whose priority
-- is at most the greatest one gets the CPU exactly as often as its priority says, and a process that
-- is not runnable never; the table is then as it was.
pub cycle-priority :
    (nproc k : ℕ) (procs : List Proc) {p : Proc}
    → get_elem? procs k ≡ some p
    → k < nproc
    → p.priority ≤ max_priority
    → ((cycle cpu_bound nproc procs).1 ≡ procs)
      × (count k (cycle cpu_bound nproc procs).0 ≡ (if is_runnable p.state then p.priority else 0))
unfolding cycle
cycle-priority nproc k procs {p} here lt le =
    let (same, counted) = cycle_from-count max_priority 0 nproc k procs lt in
    (same, counted ∙ ap (turns max_priority 0) here ∙ share)
  where
    share : turns max_priority 0 (some p) ≡ (if is_runnable p.state then p.priority else 0)
    share = elim (Bool-cases (is_runnable p.state)) [
      | inl r ↦
          let all : turns max_priority 0 (some p) ≡ p.priority =
            turns-priority max_priority 0 p (runnable_state p.state r) ∙ ground arith in
          all ∙ sym (ap (λ b. if b then p.priority else 0) r)
      | inr idle ↦
          turns-zero max_priority 0 (some p) (ground arith)
          ∙ sym (ap (λ b. if b then p.priority else 0) idle)
    ]
