-- ===== src/SysPlugins/PlainPasswords.antt =====
-- A hash of passwords for trials: the password itself.
use oksai_cc_api_server.Base.{nat_eq}
use oksai_cc_api_server.Core.Hashing.{same_codes}
use oksai_cc_api_server.Core.Hashing.Roundtrip.{same_codes_refl}
use oksai_cc_api_server.SysPlugins.Passwords.{Passwords, PasswordsLaws}

unfoldable pub plain_passwords : Passwords
unfolding same_codes
plain_passwords = record { hash_password = λ salt password. password; verify_password = same_codes }

pub plain_passwords-PasswordsLaws : PasswordsLaws plain_passwords (λ salt. Unit)
unfolding plain_passwords
plain_passwords-PasswordsLaws = record {
  verify-hash = λ salt password is_salt. same_codes_refl password;
}
