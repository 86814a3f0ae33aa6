-- ===== src/Base/Search.antt =====
-- The first element of a list that passes a test, by its index.
use Prim.Native.Nat.{ℕ, zero, suc, ◌<◌}
use mathlib.Core.Path.{◌≡◌, refl, ap}
use mathlib.Core.Logic.{◌≢◌}
use mathlib.Core.Option
use mathlib.Core.Bool.{Bool, true, false}
use mathlib.Core.List.{List, [], ◌∷◌, map}
use mathlib.Core.Option.{Option, none, some}
use native.Mathlib.Omega.{arith}
use cs330_operating_systems.Base.Tests.{if◌then◌else◌}
use cs330_operating_systems.Base.Lists.{get_elem?, length, set}
use cs330_operating_systems.Base.Arrays.{All}

module _ {ℓ} {A : Type ℓ} where
  unfoldable pub find_index : (A → Bool) → List A → Option ℕ
  find_index test [] = none
  find_index test (v ∷ vs) =
      if test v then some 0 else elim (find_index test vs) [ none ↦ none | some i ↦ some (suc i) ]

module _ {ℓ} {A : Type ℓ} (test : A → Bool) where
  pub find_index-zero : (v : A) (vs : List A) → find_index test (v ∷ vs) ≡ some zero → test v ≡ true
  unfolding find_index
  find_index-zero v vs h = ground arith

  pub find_index-suc :
      (v : A) (vs : List A) (i : ℕ)
      → find_index test (v ∷ vs) ≡ some (suc i)
      → (test v ≡ false) × (find_index test vs ≡ some i)
  unfolding find_index
  find_index-suc v vs i h = ground arith

  -- The element found passes the test, and has whatever all elements have.
  pub All-find_index {κ} :
      (P : A → Type κ) (vs : List A) (i : ℕ)
      → All P vs
      → find_index test vs ≡ some i
      → (v : A) × P v × (test v ≡ true) × (get_elem? vs i ≡ some v)
  All-find_index P [] i h e = absurd (unfold find_index in cc)
  All-find_index P (v ∷ vs) zero h e = (v, h.0, find_index-zero v vs e, refl)
  All-find_index P (v ∷ vs) (suc i) h e = All-find_index P vs i h.1 (find_index-suc v vs i e).1

  pub find_index-get_elem? :
      (vs : List A) (i : ℕ)
      → find_index test vs ≡ some i
      → (v : A) × (get_elem? vs i ≡ some v) × (test v ≡ true)
  find_index-get_elem? [] i e = absurd (unfold find_index in cc)
  find_index-get_elem? (v ∷ vs) zero e = (v, refl, find_index-zero v vs e)
  find_index-get_elem? (v ∷ vs) (suc i) e = find_index-get_elem? vs i (find_index-suc v vs i e).1

module _ {ℓ} {A : Type ℓ} where
  -- Writing an element back changes nothing.
  pub set-get_elem? : (xs : List A) (i : ℕ) (x : A) → get_elem? xs i ≡ some x → set xs i x ≡ xs
  set-get_elem? [] i x h = refl
  set-get_elem? (y ∷ xs) zero x h = cc
  set-get_elem? (y ∷ xs) (suc i) x h = cc (set-get_elem? xs i x h)

  pub set-set : (xs : List A) (i : ℕ) (x y : A) → set (set xs i x) i y ≡ set xs i y
  set-set [] i x y = refl
  set-set (z ∷ xs) zero x y = refl
  set-set (z ∷ xs) (suc i) x y = cc (set-set xs i x y)

  pub get_elem?-lt : (xs : List A) (i : ℕ) (x : A) → get_elem? xs i ≡ some x → i < length xs
  get_elem?-lt [] i x h = absurd (cc)
  get_elem?-lt (y ∷ xs) zero x h = omega arith
  get_elem?-lt (y ∷ xs) (suc i) x h = omega (arith, get_elem?-lt xs i x h)

module _ {ℓ} {A : Type ℓ} where
  -- an assignment to a field of element `i`
  abbrev pub modify : ℕ → (A → A) → List A → List A
  modify i f [] = []
  modify zero f (x ∷ xs) = f x ∷ xs
  modify (suc i) f (x ∷ xs) = x ∷ modify i f xs

  pub get_elem?-modify_self :
      (i : ℕ) (f : A → A) (xs : List A) (x : A)
      → get_elem? xs i ≡ some x
      → get_elem? (modify i f xs) i ≡ some (f x)
  get_elem?-modify_self i f [] x h = absurd (cc)
  get_elem?-modify_self zero f (y ∷ xs) x h = cc
  get_elem?-modify_self (suc i) f (y ∷ xs) x h = get_elem?-modify_self i f xs x h

  pub get_elem?-modify_ne :
      (i j : ℕ) (f : A → A) (xs : List A) → i ≢ j → get_elem? (modify i f xs) j ≡ get_elem? xs j
  get_elem?-modify_ne i j f [] h = refl
  get_elem?-modify_ne zero zero f (y ∷ xs) h = absurd (h refl)
  get_elem?-modify_ne zero (suc j) f (y ∷ xs) h = refl
  get_elem?-modify_ne (suc i) zero f (y ∷ xs) h = refl
  get_elem?-modify_ne (suc i) (suc j) f (y ∷ xs) h = get_elem?-modify_ne i j f xs (omega arith)

  pub length-modify : (i : ℕ) (f : A → A) (xs : List A) → length (modify i f xs) ≡ length xs
  length-modify i f [] = refl
  length-modify zero f (x ∷ xs) = refl
  length-modify (suc i) f (x ∷ xs) = omega (arith, length-modify i f xs)

  -- An assignment that undoes another one.
  pub modify-modify :
      (i : ℕ) (f g : A → A) (xs : List A) (x : A)
      → get_elem? xs i ≡ some x
      → g (f x) ≡ x
      → modify i g (modify i f xs) ≡ xs
  modify-modify i f g [] x h e = refl
  modify-modify zero f g (y ∷ xs) x h e = let s : y ≡ x = cc in rw (s, e)
  modify-modify (suc i) f g (y ∷ xs) x h e = ap (λ l. y ∷ l) (modify-modify i f g xs x h e)

  pub modify_twice :
      (i : ℕ) (f g : A → A) (xs : List A) → modify i g (modify i f xs) ≡ modify i (λ x. g (f x)) xs
  modify_twice i f g [] = refl
  modify_twice zero f g (x ∷ xs) = refl
  modify_twice (suc i) f g (x ∷ xs) = ap (λ l. x ∷ l) (modify_twice i f g xs)

  pub get_elem?-map {κ} :
      {B : Type κ} (f : A → B) (xs : List A) (i : ℕ)
      → get_elem? (map f xs) i ≡ Option.map f (get_elem? xs i)
  get_elem?-map f [] i = refl
  get_elem?-map f (x ∷ xs) zero = refl
  get_elem?-map f (x ∷ xs) (suc i) = get_elem?-map f xs i
