-- ===== src/Core/Password.antt =====
-- `validatePasswordStrength` of libs/core/src/lib/utils/password.utils.ts. A password is the list of
-- its UTF-16 code units.
use oksai_cc_api_server.Base.{
  ℕ, ◌≤◌, Bool, true, false, List, [], ◌∷◌, ◌++◌, length, includes, if◌then◌else◌, nat_eq, ltb, leb,
  not, ◌&&◌, ◌||◌, ◌≡◌, ◌↔◌, arith, Bool-cases, inl, inr,
}

pub data PasswordError : Type 0 where
  too_short too_long without_lowercase without_uppercase without_number : PasswordError

pub record PasswordStrength : Type 0 where
  pub valid : Bool
  pub errors : List PasswordError

-- `/[from-to]/.test(password)`
unfoldable pub has_in : ℕ → ℕ → List ℕ → Bool
has_in from to [] = false
has_in from to (c ∷ cs) = (leb from c && leb c to) || has_in from to cs

-- `if (test) errors.push(error)`
abbrev pub push_if : Bool → PasswordError → List PasswordError → List PasswordError
push_if b e errors = if b then errors ++ (e ∷ []) else errors

abbrev pub is_valid : List PasswordError → Bool
is_valid [] = true
is_valid (e ∷ errors) = false

unfoldable pub validate_password_strength : List ℕ → PasswordStrength
validate_password_strength password =
    let short = push_if (ltb (length password) 8) too_short [] in
    let long = push_if (ltb 100 (length password)) too_long short in
    let lower = push_if (not (has_in b'a' b'z' password)) without_lowercase long in
    let upper = push_if (not (has_in b'A' b'Z' password)) without_uppercase lower in
    let errors = push_if (not (has_in b'0' b'9' password)) without_number upper in
    record { valid = is_valid errors; errors = errors }

-- One of the code units lies between the two.
abbrev pub HasIn : ℕ → ℕ → List ℕ → Type 0
HasIn from to cs = (c : ℕ) × (includes c cs ≡ true) × (from ≤ c) × (c ≤ to)

has_in_iff : (from to : ℕ) (cs : List ℕ) → (has_in from to cs ≡ true) ↔ HasIn from to cs
unfolding has_in
has_in_iff from to cs = (there cs, (λ (c, i, l, u). back cs c i l u))
  where
    there : (cs : List ℕ) → has_in from to cs ≡ true → HasIn from to cs
    there [] h = cc
    there (c ∷ cs) h = elim (Bool-cases (leb from c && leb c to)) [
      | inl here ↦ (c, ground (arith), ground (arith, here), ground (arith, here))
      | inr n ↦ let (d, i, l, u) = there cs (ground (arith, n)) in (d, ground (arith, i), l, u)
    ]

    back :
        (cs : List ℕ) (c : ℕ) → includes c cs ≡ true → from ≤ c → c ≤ to → has_in from to cs ≡ true
    back [] c i l u = cc
    back (d ∷ cs) c i l u = ground (arith, back cs c)

-- A password is valid exactly when it has 8 to 100 code units, among them a lower-case letter, an
-- upper-case letter and a digit.
pub validate_password_strength_iff :
    (password : List ℕ)
    → ((validate_password_strength password).valid ≡ true) ↔ (
        (8 ≤ length password)
        × (length password ≤ 100)
        × HasIn b'a' b'z' password
        × HasIn b'A' b'Z' password
        × HasIn b'0' b'9' password)
unfolding validate_password_strength
validate_password_strength_iff password =
    let lower = has_in_iff b'a' b'z' password in
    let upper = has_in_iff b'A' b'Z' password in
    let digit = has_in_iff b'0' b'9' password in
    (
      (λ v. (
        ground arith,
        ground arith,
        lower.0 (ground arith),
        upper.0 (ground arith),
        digit.0 (ground arith),
      )),
      (λ (short, long, l, u, d).
          let l' = lower.1 l in let u' = upper.1 u in let d' = digit.1 d in ground arith),
    )
