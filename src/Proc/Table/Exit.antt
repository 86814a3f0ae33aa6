-- ===== src/Proc/Table/Exit.antt =====
-- `exit` of proc.c: who is left behind.
use mathlib.Core.Path.{subst}
use mathlib.Core.Option
use cs330_operating_systems.Base.{
  ℕ, zero, suc, ◌+◌, ◌<◌, ◌≡◌, refl, sym, ap, ◌∙◌, ◌≢◌, ◌⊎◌, inl, inr, Bool, false, ◌&&◌, arith,
  ◌==◌, Option, none, some, List, [], ◌∷◌, map, get_elem?, modify, get_elem?-map,
  get_elem?-modify_self, get_elem?-modify_ne, Bool-cases,
}
use cs330_operating_systems.Proc.{zombie, Chan, proc_chan, Proc}
use cs330_operating_systems.Proc.Table.{
  Ptable, is_child, is_zombie, is_sleeping, same_chan, wake, wake_parent, set_parent, adopt,
  adopt_from, exit_locked,
}

abbrev pub child_at : ℕ → Option Proc → Bool
child_at i none = false
child_at i (some p) = is_child i p.parent

wake-child :
    (i : ℕ) (c : Chan) (o : Option Proc) → child_at i (Option.map (wake c) o) ≡ child_at i o
wake-child i c none = refl
wake-child i c (some p) = elim (Bool-cases (is_sleeping p.state && same_chan c p.chan)) [
  | inl woken ↦ rw woken
  | inr left ↦ rw left
]

map-child :
    (i : ℕ) (c : Chan) (procs : List Proc) (j : ℕ)
    → child_at i (get_elem? (map (wake c) procs) j) ≡ child_at i (get_elem? procs j)
map-child i c procs j =
    ap (child_at i) (get_elem?-map (wake c) procs j) ∙ wake-child i c (get_elem? procs j)

modify-child :
    (i init k : ℕ) (procs : List Proc) (j : ℕ) (p : Proc)
    → init ≢ i
    → get_elem? procs k ≡ some p
    → (j ≡ k) ⊎ (child_at i (get_elem? procs j) ≡ false)
    → child_at i (get_elem? (modify k (set_parent init) procs) j) ≡ false
modify-child i init k procs j p other at h = elim (Bool-cases (j == k)) [
  | inl same ↦
      let e : k ≡ j = ground arith in
      subst (λ a. child_at i (get_elem? (modify k (set_parent init) procs) a) ≡ false) e
        (ap (child_at i) (get_elem?-modify_self k (set_parent init) procs p at) ∙ ground arith)
  | inr away ↦
      ap (child_at i) (get_elem?-modify_ne k j (set_parent init) procs (ground arith))
      ∙ ground (arith, h)
]

adopt-child :
    (i init k : ℕ) (procs : List Proc) (j : ℕ) (o : Option Proc)
    → init ≢ i
    → get_elem? procs k ≡ o
    → (j ≡ k) ⊎ (child_at i (get_elem? procs j) ≡ false)
    → child_at i (get_elem? (adopt i init k o procs) j) ≡ false
adopt-child i init k procs j none other at (inl e) =
    subst (λ a. child_at i (get_elem? procs a) ≡ false) (sym e) (ap (child_at i) at)
adopt-child i init k procs j none other at (inr h) = h
adopt-child i init k procs j (some p) other at h = elim (Bool-cases (is_child i p.parent)) [
  | inl child ↦ elim (Bool-cases (is_zombie p.state)) [
    | inl dead ↦
        rw (child, dead)
          (map-child i (proc_chan init) (modify k (set_parent init) procs) j
            ∙ modify-child i init k procs j p other at h)
    | inr alive ↦ rw (child, alive) (modify-child i init k procs j p other at h)
  ]
  | inr stranger ↦ rw stranger (elim h [
    | inl e ↦
        subst (λ a. child_at i (get_elem? procs a) ≡ false) (sym e) (ap (child_at i) at ∙ stranger)
    | inr clean ↦ clean
  ])
]

adopt_from-child :
    (i init n k : ℕ) (procs : List Proc) (j : ℕ)
    → init ≢ i
    → (j < k → child_at i (get_elem? procs j) ≡ false)
    → j < k + n
    → child_at i (get_elem? (adopt_from i init n k procs) j) ≡ false
unfolding adopt_from
adopt_from-child i init zero k procs j other h l = h (omega arith)
adopt_from-child i init (suc n) k procs j other h l =
    adopt_from-child i init n (k + 1) (adopt i init k (get_elem? procs k) procs) j other
      (λ l'.
        adopt-child i init k procs j (get_elem? procs k) other refl
          (elim (before_or_at l') [ inl e ↦ inl e | inr b ↦ inr (h b) ]))
      (omega arith)
  where
    before_or_at : j < k + 1 → (j ≡ k) ⊎ (j < k)
    before_or_at b = ground arith

abbrev pub dead : Proc → Proc
dead p = record p { state = zombie }

dead-child :
    (i k : ℕ) (procs : List Proc) (j : ℕ)
    → child_at i (get_elem? (modify k dead procs) j) ≡ child_at i (get_elem? procs j)
dead-child i k [] j = refl
dead-child i zero (p ∷ procs) zero = refl
dead-child i zero (p ∷ procs) (suc j) = refl
dead-child i (suc k) (p ∷ procs) zero = refl
dead-child i (suc k) (p ∷ procs) (suc j) = dead-child i k procs j

-- After `exit` of a process that is not `init`, none of the `nproc` entries of the table has it as
-- its parent.
pub exit_locked-child :
    (nproc i : ℕ) (parent : Option ℕ) (t : Ptable) (j : ℕ)
    → t.initproc ≢ i
    → j < nproc
    → child_at i (get_elem? (exit_locked nproc i parent t).procs j) ≡ false
unfolding exit_locked
exit_locked-child nproc i parent t j other l =
    let procs = wake_parent parent t.procs in
    dead-child i i (adopt_from i t.initproc nproc 0 procs) j
    ∙ adopt_from-child i t.initproc nproc 0 procs j other (λ b. absurd (omega arith)) (omega arith)
