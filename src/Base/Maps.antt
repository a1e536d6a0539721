-- ===== src/Base/Maps.antt =====
-- JavaScript's `Map`: an association list in the order of insertion. A `set` on a key that is
-- there keeps its place.
use Prim.Native.Nat.{ℕ, ◌+◌}
use mathlib.Core.Path.{◌≡◌, refl}
use mathlib.Core.Bool.{Bool, true, false}
use mathlib.Core.Option.{Option, none, some}
use mathlib.Core.List.{List, [], ◌∷◌, map}
use native.Mathlib.Omega.{arith}
use oksai_cc_api_server.Base.Tests.{if◌then◌else◌, Decided, ◌==◌}
use oksai_cc_api_server.Base.Lists.{length}

abbrev pub Map {ℓ} : Type ℓ → Type ℓ → Type ℓ
Map K V = List (K × V)

abbrev pub is_some {ℓ} : {A : Type ℓ} → Option A → Bool
is_some none = false
is_some (some a) = true

module _ {ℓ} {K V : Type ℓ} ⦃e : Decided K⦄ where
  unfoldable pub get : K → Map K V → Option V
  get k [] = none
  get k ((j, v) ∷ m) = if j == k then some v else get k m

  unfoldable pub set : K → V → Map K V → Map K V
  set k v [] = (k, v) ∷ []
  set k v ((j, w) ∷ m) = if j == k then (k, v) ∷ m else (j, w) ∷ set k v m

  unfoldable pub delete : K → Map K V → Map K V
  delete k [] = []
  delete k ((j, w) ∷ m) = if j == k then delete k m else (j, w) ∷ delete k m

  unfoldable pub has : K → Map K V → Bool
  unfolding get
  has k m = is_some (get k m)

  -- Each key stands once.
  abbrev pub UniqueKeys : Map K V → Type ℓ
  UniqueKeys [] = Unit
  UniqueKeys ((k, v) ∷ m) = (get k m ≡ none) × UniqueKeys m

  pub has-get : (k : K) (m : Map K V) → has k m ≡ is_some (get k m)
  unfolding has
  has-get k m = refl

  pub get-set :
      (k j : K) (v : V) (m : Map K V) → get j (set k v m) ≡ (if k == j then some v else get j m)
  unfolding get set
  get-set k j v [] = refl
  get-set k j v ((i, w) ∷ m) =
      ground (arith, e.test_iff k j, e.test_iff i k, e.test_iff i j, get-set k j v m)

  pub get-delete : (k j : K) (m : Map K V) → get j (delete k m) ≡ (if k == j then none else get j m)
  unfolding get delete
  get-delete k j [] = ground arith
  get-delete k j ((i, w) ∷ m) =
      ground (arith, e.test_iff k j, e.test_iff i k, e.test_iff i j, get-delete k j m)

  pub get-set_self : (k : K) (v : V) (m : Map K V) → get k (set k v m) ≡ some v
  get-set_self k v m = ground (arith, get-set k k v m, e.test_iff k k)

  pub get-delete_self : (k : K) (m : Map K V) → get k (delete k m) ≡ none
  get-delete_self k m = ground (arith, get-delete k k m, e.test_iff k k)

  pub set-UniqueKeys : (k : K) (v : V) (m : Map K V) → UniqueKeys m → UniqueKeys (set k v m)
  unfolding set get
  set-UniqueKeys k v [] u = (refl, tt)
  set-UniqueKeys k v ((i, w) ∷ m) u =
      ground (arith, e.test_iff i k, e.test_iff k i, get-set k i v m, set-UniqueKeys k v m u.1)

  pub delete-UniqueKeys : (k : K) (m : Map K V) → UniqueKeys m → UniqueKeys (delete k m)
  unfolding delete
  delete-UniqueKeys k [] u = tt
  delete-UniqueKeys k ((i, w) ∷ m) u = ground (arith, get-delete k i m, delete-UniqueKeys k m u.1)

  pub delete_absent : (k : K) (m : Map K V) → get k m ≡ none → delete k m ≡ m
  unfolding delete get
  delete_absent k [] h = refl
  delete_absent k ((i, w) ∷ m) h = ground (arith, delete_absent k m)

  pub delete-set_new : (k : K) (v : V) (m : Map K V) → get k m ≡ none → delete k (set k v m) ≡ m
  unfolding delete set get
  delete-set_new k v [] h = ground (arith, e.test_iff k k)
  delete-set_new k v ((i, w) ∷ m) h = ground (arith, delete-set_new k v m)

  pub size-delete :
      (k : K) (m : Map K V) (v : V)
      → UniqueKeys m
      → get k m ≡ some v
      → length (delete k m) + 1 ≡ length m
  unfolding delete get
  size-delete k [] v u h = cc
  size-delete k ((i, w) ∷ m) v u h =
      ground (arith, e.test_iff i k, delete_absent k m, size-delete k m v u.1)

module _ {ℓ} {K V : Type ℓ} where
  abbrev pub size : Map K V → ℕ
  size m = length m

  abbrev pub keys : Map K V → List K
  keys m = map (λ p. p.0) m

  abbrev pub values : Map K V → List V
  values m = map (λ p. p.1) m
