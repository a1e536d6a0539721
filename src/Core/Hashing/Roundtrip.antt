-- ===== src/Core/Hashing/Roundtrip.antt =====
-- A stored hash, read back.
use oksai_cc_api_server.Base.{
  ℕ, ◌/◌, ◌%◌, ◌<◌, true, false, some, List, [], ◌∷◌, ◌++◌, codes, length, All, ◌==◌, nat_eq, ◌≡◌,
  ◌↔◌, refl, ap, arith, subst,
}
use oksai_cc_api_server.Core.Hashing.{
  dollar, same_codes, hex_digit, hex, digit_value, unhex, split, hash_password, verify_password,
}

abbrev pub AllBytes : List ℕ → Type 0
AllBytes bs = All (λ b. b < 256) bs

-- What the platform documents of scrypt: a key of the length that was asked for.
pub record ScryptLaws (scrypt : List ℕ → List ℕ → ℕ → List ℕ) : Type 0 where
  pub length-scrypt : (password salt : List ℕ) (n : ℕ) → length (scrypt password salt n) ≡ n
  pub scrypt-AllBytes : (password salt : List ℕ) (n : ℕ) → AllBytes (scrypt password salt n)

value-hex_digit : (n : ℕ) → n < 16 → digit_value (hex_digit n) ≡ some n
value-hex_digit n small = ground arith

unhex-hex : (bs : List ℕ) → AllBytes bs → unhex (hex bs) ≡ bs
unfolding unhex hex
unhex-hex [] a = refl
unhex-hex (b ∷ bs) a =
    rw
      (
        value-hex_digit (b / 16) (omega (arith, a.0)),
        value-hex_digit (b % 16) (omega arith),
        unhex-hex bs a.1,
      )
      (ap (λ c. c ∷ bs) (omega arith))

-- no separator
abbrev Apart : List ℕ → Type 0
Apart cs = All (λ c. (c == dollar) ≡ false) cs

hex-Apart : (bs : List ℕ) → Apart (hex bs)
unfolding hex
hex-Apart [] = tt
hex-Apart (b ∷ bs) = (ground arith, (ground arith, hex-Apart bs))

split-Apart : (cs : List ℕ) → Apart cs → split cs ≡ cs ∷ []
unfolding split
split-Apart [] a = refl
split-Apart (c ∷ cs) a = rw (a.0, split-Apart cs a.1) refl

split-join : (cs ds : List ℕ) → Apart cs → split (cs ++ (dollar ∷ ds)) ≡ cs ∷ split ds
unfolding split
split-join [] ds a = refl
split-join (c ∷ cs) ds a = rw (a.0, split-join cs ds a.1) refl

pub same_codes_refl : (cs : List ℕ) → same_codes cs cs ≡ true
unfolding same_codes
same_codes_refl [] = refl
same_codes_refl (c ∷ cs) = ground (arith, same_codes_refl cs)

same_codes-eq : (cs ds : List ℕ) → same_codes cs ds ≡ true → cs ≡ ds
unfolding same_codes
same_codes-eq [] [] h = refl
same_codes-eq [] (d ∷ ds) h = cc
same_codes-eq (c ∷ cs) [] h = cc
same_codes-eq (c ∷ cs) (d ∷ ds) h = ground (arith, same_codes-eq cs ds)

same_codes_iff : (cs ds : List ℕ) → (same_codes cs ds ≡ true) ↔ (cs ≡ ds)
same_codes_iff cs ds =
    (same_codes-eq cs ds, (λ e. subst (λ xs. same_codes cs xs ≡ true) e (same_codes_refl cs)))

module _ (scrypt : List ℕ → List ℕ → ℕ → List ℕ) (laws : ScryptLaws scrypt) where
  split-hash_password :
      (salt password : List ℕ)
      → split (hash_password scrypt salt password)
        ≡ []
          ∷ codes "scrypt"
          ∷ codes "16384"
          ∷ codes "8"
          ∷ codes "1"
          ∷ hex salt
          ∷ hex (scrypt password salt 64)
          ∷ []
  unfolding split hash_password
  split-hash_password salt password =
      let key = hex (scrypt password salt 64) in
      rw
        (
          split-join (hex salt) key (hex-Apart salt),
          split-Apart key (hex-Apart (scrypt password salt 64)),
        )
        refl

  -- A stored hash accepts exactly the passwords for which scrypt gives, with the same salt, the key
  -- that it gave for the hashed one; among them the hashed one itself.
  pub verify_password-hash_password :
      (salt own password : List ℕ)
      → AllBytes salt
      → (verify_password scrypt password (hash_password scrypt salt own) ≡ true)
        ↔ (scrypt password salt 64 ≡ scrypt own salt 64)
  unfolding verify_password
  verify_password-hash_password salt own password bytes =
      let key = scrypt own salt 64 in
      rw
        (
          split-hash_password salt own,
          unhex-hex salt bytes,
          unhex-hex key (laws.scrypt-AllBytes own salt 64),
          laws.length-scrypt own salt 64,
        )
        (same_codes_iff (scrypt password salt 64) key)
