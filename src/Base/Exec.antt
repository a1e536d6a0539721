-- ===== src/Base/Exec.antt =====
-- Methods that change an object and may throw. What was written before a throw stays written, so
-- the state comes back beside the error too.
use mathlib.Core.Bool.{Bool}
use mathlib.Core.Path.{◌≡◌, refl}
use mathlib.Core.Logic.{◌⊎◌, inl, inr}
use oksai_cc_api_server.Base.Tests.{if◌then◌else◌}

pub data Result {ℓ} (E A : Type ℓ) : Type ℓ where
  ok : A → Result E A
  err : E → Result E A

abbrev pub Exec {ℓ} : Type ℓ → Type ℓ → Type ℓ → Type ℓ
Exec E S A = S → Result E A × S

module _ {ℓ} {E S A : Type ℓ} where
  abbrev pub pure : A → Exec E S A
  pure a s = (ok a, s)

  abbrev pub throw : E → Exec E S A
  throw x s = (err x, s)

  abbrev pub gets : (S → A) → Exec E S A
  gets f s = (ok (f s), s)

module _ {ℓ} {E S : Type ℓ} where
  abbrev pub modify : (S → S) → Exec E S (Unit {ℓ})
  modify f s = (ok tt, f s)

  abbrev pub when : Bool → Exec E S (Unit {ℓ}) → Exec E S (Unit {ℓ})
  when b m s = if b then m s else (ok tt, s)

module _ {ℓ} {E A : Type ℓ} where
  abbrev pub discarded : Result E A → Result E (Unit {ℓ})
  discarded (ok a) = ok tt
  discarded (err x) = err x

module _ {ℓ} {E S A : Type ℓ} where
  -- a method that returns nothing
  abbrev pub discard : Exec E S A → Exec E S (Unit {ℓ})
  discard m s = (discarded (m s).0, (m s).1)

module _ {ℓ} {E S A B : Type ℓ} where
  abbrev pub continue : Result E A → (A → Exec E S B) → Exec E S B
  continue (ok a) f s = f a s
  continue (err x) f s = (err x, s)

  infixl 10 ◌>>=◌ ◌>>◌
  abbrev pub ◌>>=◌ : Exec E S A → (A → Exec E S B) → Exec E S B
  ◌>>=◌ m f s = continue (m s).0 f (m s).1

  abbrev pub ◌>>◌ : Exec E S A → Exec E S B → Exec E S B
  m >> n = m >>= λ _. n

module _ {ℓ} {E S A : Type ℓ} where
  abbrev pub handle : Result E A → (E → Exec E S A) → Exec E S A
  handle (ok a) h s = (ok a, s)
  handle (err x) h s = h x s

  -- `try { m } catch (x) { h(x) }`
  abbrev pub try_catch : Exec E S A → (E → Exec E S A) → Exec E S A
  try_catch m h s = handle (m s).0 h (m s).1

pub Result-cases {ℓ} :
    {E A : Type ℓ} → (r : Result E A) → ((a : A) × (r ≡ ok a)) ⊎ ((x : E) × (r ≡ err x))
Result-cases (ok a) = inl (a, refl)
Result-cases (err x) = inr (x, refl)
