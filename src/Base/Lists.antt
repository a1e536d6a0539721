-- ===== src/Base/Lists.antt =====
-- Lists measured by native numbers, tests and predicates over them.
use Prim.Native.Nat.{ℕ, suc, ◌+◌, ◌≤◌}
use Prim.Native.Char.{code}
use Prim.Native.String.{String}
use mathlib.Core.Path.{refl, ◌≡◌}
use mathlib.Core.Logic.{inl, inr}
use mathlib.Core.Bool.{false, true, Bool, false, ◌||◌}
use mathlib.Core.Option.{Option, none, some}
use mathlib.Core.List.{List, [], ◌∷◌, ◌++◌}
use native.Mathlib.Omega.{arith}
use oksai_cc_api_server.Base.Tests.{Bool-cases, if◌then◌else◌, Decided, ◌==◌}

-- The code points of a text. `String` has its own `[]` and `∷`.
abbrev pub codes : String → List ℕ
codes String.[] = []
codes (String.◌∷◌ c s) = code c ∷ codes s

module _ {ℓ} {A : Type ℓ} where
  abbrev pub length : List A → ℕ
  length [] = 0
  length (x ∷ xs) = suc (length xs)

  -- `xs.filter(p)`
  abbrev pub filter : (A → Bool) → List A → List A
  filter p [] = []
  filter p (x ∷ xs) = if p x then x ∷ filter p xs else filter p xs

  -- `xs.find(p)`
  abbrev pub find : (A → Bool) → List A → Option A
  find p [] = none
  find p (x ∷ xs) = if p x then some x else find p xs

  -- The elements of the first list in reverse order, before the second.
  abbrev pub reverse_onto : List A → List A → List A
  reverse_onto [] ys = ys
  reverse_onto (x ∷ xs) ys = reverse_onto xs (x ∷ ys)

  pub length-append : (xs ys : List A) → length (xs ++ ys) ≡ length xs + length ys
  length-append [] ys = omega arith
  length-append (x ∷ xs) ys = omega (arith, length-append xs ys)

  pub length-filter-le : (p : A → Bool) (xs : List A) → length (filter p xs) ≤ length xs
  length-filter-le p [] = omega arith
  length-filter-le p (x ∷ xs) = ground (arith, length-filter-le p xs)

module _ {ℓ κ} {A : Type ℓ} (P : A → Type κ) where
  abbrev pub All : List A → Type κ
  All [] = Unit
  All (x ∷ xs) = P x × All xs

module _ {ℓ κ} {A : Type ℓ} (P : A → Type κ) where
  pub All-filter :
      (test : A → Bool) (xs : List A) → All P (filter test xs) → All (λ x. test x ≡ true → P x) xs
  All-filter test [] a = tt
  All-filter test (x ∷ xs) a = elim (Bool-cases (test x)) [
    | inl y ↦ let b = rw y at a in ((λ _. b.0), All-filter test xs b.1)
    | inr n ↦ ((λ y. cc), All-filter test xs (rw n at a))
  ]

  pub All-map : {Q : A → Type κ} (xs : List A) → ((x : A) → P x → Q x) → All P xs → All Q xs
  All-map [] f a = tt
  All-map (x ∷ xs) f a = (f x a.0, All-map xs f a.1)

-- `xs.includes(k)`, and `Set.has` for a set kept as a list.
abbrev pub includes {ℓ} : {A : Type ℓ} ⦃e : Decided A⦄ → A → List A → Bool
includes k [] = false
includes k (x ∷ xs) = x == k || includes k xs

-- `Set.delete`
abbrev pub remove {ℓ} : {A : Type ℓ} ⦃e : Decided A⦄ → A → List A → List A
remove k [] = []
remove k (x ∷ xs) = if x == k then remove k xs else x ∷ remove k xs

pub remove_absent {ℓ} :
    {A : Type ℓ} ⦃e : Decided A⦄ (k : A) (xs : List A) → includes k xs ≡ false → remove k xs ≡ xs
remove_absent k [] h = refl
remove_absent k (x ∷ xs) h = ground (arith, remove_absent k xs)
