-- ===== src/Core/Tests.antt =====
-- The blacklist on a Redis server in memory, and the strength of passwords.
use oksai_cc_api_server.Base.{
  ℕ, zero, suc, ◌%◌, length, List, [], ◌∷◌, ◌≤◌, true, false, string_eq, nat_eq, ◌≡◌, ◌↔◌, refl,
  arith, codes,
}
use oksai_cc_api_server.Core.MemoryRedis.{server, server-RedisLaws}
use oksai_cc_api_server.Core.Blacklist.{add, is_blacklisted, is_blacklisted-add}
use oksai_cc_api_server.Core.Hashing.{hash_password, verify_password}
use oksai_cc_api_server.Core.Hashing.Roundtrip.{AllBytes, ScryptLaws, verify_password-hash_password}
use oksai_cc_api_server.Core.Password.{
  validate_password_strength, validate_password_strength_iff, HasIn,
}

is_blacklisted-add_example :
    is_blacklisted server true 5000 "token" (add server true 1000 "token" 4 []).1 ≡ false
unfolding add
is_blacklisted-add_example =
    is_blacklisted-add server server-RedisLaws 1000 5000 "token" "token" 4 [] (omega arith) refl
      (λ e. cc)

validate_password_strength_iff_example :
    ((validate_password_strength (codes "Passw0rd")).valid ≡ true) ↔ (
      (8 ≤ 8)
      × (8 ≤ 100)
      × HasIn b'a' b'z' (codes "Passw0rd")
      × HasIn b'A' b'Z' (codes "Passw0rd")
      × HasIn b'0' b'9' (codes "Passw0rd"))
validate_password_strength_iff_example = validate_password_strength_iff (codes "Passw0rd")

-- a key that is the password, cut or filled up with zeros
stretch : ℕ → List ℕ → List ℕ
stretch zero cs = []
stretch (suc n) [] = 0 ∷ stretch n []
stretch (suc n) (c ∷ cs) = c % 256 ∷ stretch n cs

length-stretch : (n : ℕ) (cs : List ℕ) → length (stretch n cs) ≡ n
unfolding stretch
length-stretch zero cs = refl
length-stretch (suc n) [] = ground (arith, length-stretch n [])
length-stretch (suc n) (c ∷ cs) = ground (arith, length-stretch n cs)

stretch-AllBytes : (n : ℕ) (cs : List ℕ) → AllBytes (stretch n cs)
unfolding stretch
stretch-AllBytes zero cs = tt
stretch-AllBytes (suc n) [] = (omega arith, stretch-AllBytes n [])
stretch-AllBytes (suc n) (c ∷ cs) = (omega arith, stretch-AllBytes n cs)

abbrev weak_scrypt : List ℕ → List ℕ → ℕ → List ℕ
weak_scrypt password salt n = stretch n password

weak_scrypt-ScryptLaws : ScryptLaws weak_scrypt
weak_scrypt-ScryptLaws = record {
  length-scrypt = λ password salt n. length-stretch n password;
  scrypt-AllBytes = λ password salt n. stretch-AllBytes n password;
}

verify_password-hash_password_example :
    (verify_password weak_scrypt
        (codes "Passw0rd")
        (hash_password weak_scrypt (7 ∷ 255 ∷ []) (codes "Passw0rd"))
      ≡ true)
    ↔ (weak_scrypt (codes "Passw0rd") (7 ∷ 255 ∷ []) 64
        ≡ weak_scrypt (codes "Passw0rd") (7 ∷ 255 ∷ []) 64)
verify_password-hash_password_example =
    verify_password-hash_password weak_scrypt weak_scrypt-ScryptLaws (7 ∷ 255 ∷ [])
      (codes "Passw0rd") (codes "Passw0rd") (omega arith, (omega arith, tt))
