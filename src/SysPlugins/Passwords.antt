-- ===== src/SysPlugins/Passwords.antt =====
-- What the services ask of libs/core/src/lib/utils/password.utils.ts: `hashPassword`, whose random
-- salt is an argument, `verifyPassword`, and the message of a password that is too weak.
use oksai_cc_api_server.Base.{ℕ, String, Bool, true, List, ◌≡◌, refl}
use oksai_cc_api_server.Base.Http.{HttpError, bad_request}
use oksai_cc_api_server.Core.Hashing.{hash_password, verify_password}
use oksai_cc_api_server.Core.Hashing.Roundtrip.{AllBytes, ScryptLaws, verify_password-hash_password}
use oksai_cc_api_server.Core.Password.{validate_password_strength, PasswordError}
use Prim.Native.String.{◌++◌ as concat}

pub record Passwords : Type 0 where
  pub hash_password : List ℕ → List ℕ → List ℕ
  pub verify_password : List ℕ → List ℕ → Bool

-- A hash whose salt is one accepts its own password.
pub record PasswordsLaws (p : Passwords) (IsSalt : List ℕ → Type 0) : Type 0 where
  pub verify-hash :
      (salt password : List ℕ)
      → IsSalt salt
      → p.verify_password password (p.hash_password salt password) ≡ true

-- the implementation, over any scrypt
unfoldable pub scrypt_passwords : (List ℕ → List ℕ → ℕ → List ℕ) → Passwords
scrypt_passwords scrypt = record {
  hash_password = hash_password scrypt;
  verify_password = verify_password scrypt;
}

pub scrypt_passwords-PasswordsLaws :
    (scrypt : List ℕ → List ℕ → ℕ → List ℕ)
    → ScryptLaws scrypt
    → PasswordsLaws (scrypt_passwords scrypt) AllBytes
unfolding scrypt_passwords
scrypt_passwords-PasswordsLaws scrypt laws = record {
  verify-hash = λ salt password bytes.
      (verify_password-hash_password scrypt laws salt password password bytes).1 refl;
}

abbrev pub message_of : PasswordError → String
message_of PasswordError.too_short = "Password must be at least 8 characters long"
message_of PasswordError.too_long = "Password must not exceed 100 characters"
message_of PasswordError.without_lowercase = "Password must contain at least one lowercase letter"
message_of PasswordError.without_uppercase = "Password must contain at least one uppercase letter"
message_of PasswordError.without_number = "Password must contain at least one number"

-- `errors.join(', ')`
unfoldable pub joined : List PasswordError → String
joined List.[] = ""
joined (List.◌∷◌ e List.[]) = message_of e
joined (List.◌∷◌ e (List.◌∷◌ f es)) = concat (concat (message_of e) ", ") (joined (List.◌∷◌ f es))

-- `throw new BadRequestException(errors.join(', '))`
abbrev pub weak_password : List ℕ → HttpError
weak_password password = bad_request (joined (validate_password_strength password).errors)
