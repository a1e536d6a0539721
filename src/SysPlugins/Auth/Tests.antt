-- ===== src/SysPlugins/Auth/Tests.antt =====
-- The service of authentication on a database in memory, with tokens in plain text.
pub mod Tokens
use oksai_cc_api_server.Base.{
  ℕ, ◌*◌, ◌/◌, ◌<◌, ◌≤◌, String, Bool, true, false, Option, none, some, List, [], ◌∷◌, codes, ltb,
  if◌then◌else◌, ◌==◌, Map, get, set, string_eq, ◌≡◌, ◌≢◌, refl, arith, eq_iff,
}
use oksai_cc_api_server.Base.Exec.{Result, ok, err}
use oksai_cc_api_server.Core.Jwt.{Jwt, JwtLaws, JwtUtils}
use oksai_cc_api_server.Core.PlainJwt.{plain_jwt, plain_jwt-JwtLaws}
use oksai_cc_api_server.Orm.{Repository, flushed}
use oksai_cc_api_server.Orm.Table.{table-RepositoryLaws, look_up}
use oksai_cc_api_server.Orm.Pair.{on_left-RepositoryLaws}
use oksai_cc_api_server.Orm.Unique.{Unique, empty-Unique}
use oksai_cc_api_server.SysPlugins.PlainPasswords.{plain_passwords, plain_passwords-PasswordsLaws}
use oksai_cc_api_server.SysPlugins.Auth.{success, User, UserRole, AuthStore, AuthStoreLaws}
use oksai_cc_api_server.SysPlugins.Auth.Memory.{Database, memory, memory-AuthStoreLaws}
use oksai_cc_api_server.SysPlugins.Auth.Registration.{RegisterDto, register, registered}
use oksai_cc_api_server.SysPlugins.Auth.Sessions.{
  respond, payload_of, LoginResponse, login, login_history, logged_in, refresh_token, refresh_as,
  logout, expires_in,
}
use oksai_cc_api_server.Core.Jwt.{generate_token_pair}
use oksai_cc_api_server.Core.Password.{validate_password_strength, has_in}
use oksai_cc_api_server.SysPlugins.Auth.Steps.{
  AuthConfig, Reachable, start, next, registering, binding,
}
use oksai_cc_api_server.SysPlugins.Auth.UserChanges.{same_email}
use oksai_cc_api_server.SysPlugins.Auth.Emails.{Reachable-Unique_addresses}
use oksai_cc_api_server.SysPlugins.Auth.Cleared.{UniqueAccounts, same_account}
use oksai_cc_api_server.SysPlugins.Auth.Accounts.{bind_oauth_account}
use oksai_cc_api_server.SysPlugins.Auth.Signup.{login-register}
use oksai_cc_api_server.SysPlugins.Auth.Recovery.{
  reset_password-reset_password, login-reset_password,
}
use oksai_cc_api_server.SysPlugins.Auth.Resets.{
  invalid_token, with_reset_token, with_new_password, reset_password,
}
use oksai_cc_api_server.SysPlugins.Auth.Primary.{Reachable-UniqueAccounts}

abbrev role_name : UserRole → String
role_name UserRole.admin = "A"
role_name UserRole.user = "U"
role_name UserRole.guest = "G"

abbrev named : String → UserRole
named name =
    if name == "A" then UserRole.admin else if name == "U" then UserRole.user else UserRole.guest

named-role_name : (r : UserRole) → named (role_name r) ≡ r
named-role_name UserRole.admin = refl
named-role_name UserRole.user = refl
named-role_name UserRole.guest = refl

-- every text stands for a day
abbrev jwt : Jwt UserRole
jwt = plain_jwt role_name named (λ text. 86400)

jwt-JwtLaws : JwtLaws jwt
jwt-JwtLaws = plain_jwt-JwtLaws role_name named (λ text. 86400) named-role_name

abbrev utils : JwtUtils
utils = record {
  access_token_secret = "access";
  refresh_token_secret = "refresh";
  access_token_expires_in = "1d";
  refresh_token_expires_in = "7d";
}

abbrev config : AuthConfig
config = record {
  jwt = jwt;
  utils = utils;
  welcome = λ name url. name;
  reset_mail = λ url name hours. url;
  client_base_url = "http://localhost:4200";
  upper = λ text. text;
}

abbrev bob : RegisterDto
bob = record {
  email = "bob@one";
  password = codes "Passw0rd";
  first_name = "Bob";
  last_name = "Ray";
  role = none;
}

abbrev empty : Database
empty = ([], [])

no_users : Unique memory-AuthStoreLaws.users same_email empty
unfolding memory
no_users = empty-Unique memory-AuthStoreLaws.users same_email empty (λ p. refl)

no_accounts : UniqueAccounts memory memory-AuthStoreLaws empty
unfolding memory
no_accounts = empty-Unique memory-AuthStoreLaws.accounts same_account empty (λ p. refl)

abbrev with_bob : Database
with_bob =
    (register memory plain_passwords jwt utils config.welcome config.client_base_url 1000 "u1"
      (codes "salt") bob empty).1

bob_registered : Reachable memory plain_passwords config empty with_bob
bob_registered = next start (registering 1000 "u1" (codes "salt") bob)

Reachable-Unique_addresses_example : Unique memory-AuthStoreLaws.users same_email with_bob
Reachable-Unique_addresses_example =
    Reachable-Unique_addresses memory memory-AuthStoreLaws plain_passwords config empty with_bob
      no_users bob_registered

abbrev with_github : Database
with_github =
    (bind_oauth_account memory config.upper "a1" "u1" "GITHUB" "42" (some true) with_bob).1

Reachable-UniqueAccounts_example : UniqueAccounts memory memory-AuthStoreLaws with_github
Reachable-UniqueAccounts_example =
    Reachable-UniqueAccounts memory memory-AuthStoreLaws plain_passwords config empty with_github
      no_accounts (next bob_registered (binding "a1" "u1" "GITHUB" "42" (some true)))

abbrev user_bob : User
user_bob = registered "u1" bob (codes "Passw0rd")

abbrev one_user : Database
one_user = (user_bob ∷ [], [])

abbrev session : LoginResponse
session = respond (generate_token_pair jwt utils (payload_of user_bob) 1000) user_bob

register_runs :
    register memory plain_passwords jwt utils config.welcome config.client_base_url 1000 "u1"
      (codes "salt")
      bob
      empty
    ≡ (ok session, one_user)
unfolding register memory registered validate_password_strength plain_passwords has_in
register_runs = refl

login-register_example :
    (u : User) × (respond (generate_token_pair jwt utils (payload_of u) 1000) u ≡ session)
    × (login memory plain_passwords jwt utils 2000 "h1" "bob@one" (codes "Passw0rd") one_user
        ≡ flushed (respond (generate_token_pair jwt utils (payload_of u) 2000) u) (
            memory.save_login
              (login_history "h1" u.id success none)
              (some (logged_in 2000 u))
              one_user))
login-register_example =
    login-register memory memory-AuthStoreLaws plain_passwords config (λ salt. Unit)
      plain_passwords-PasswordsLaws 1000 2000 "u1" "h1" (codes "salt") bob session empty one_user
      register_runs tt

-- Bob after he asked for a reset, and after he made it
abbrev forgetful : Database
forgetful = (with_reset_token 5000 "secret" user_bob ∷ [], [])

abbrev renewed : Database
renewed =
    (with_new_password (codes "N3wpassword") (with_reset_token 5000 "secret" user_bob) ∷ [], [])

reset_runs :
    reset_password memory plain_passwords 6000
      (codes "salt")
      "bob@one"
      "secret"
      (codes "N3wpassword")
      forgetful
    ≡ (ok tt, renewed)
unfolding reset_password memory registered plain_passwords validate_password_strength has_in
reset_runs = refl

still_only_bob : Unique memory-AuthStoreLaws.users same_email forgetful
unfolding memory-AuthStoreLaws on_left-RepositoryLaws table-RepositoryLaws look_up registered
still_only_bob = λ a b ea eb c. ground (arith, eq_iff "u1" a.id, eq_iff "u1" b.id)

reset_password-reset_password_example :
    reset_password memory plain_passwords 7000
      (codes "salt")
      "bob@one"
      "secret"
      (codes "0therPassword")
      renewed
    ≡ (err invalid_token, renewed)
reset_password-reset_password_example =
    reset_password-reset_password memory memory-AuthStoreLaws plain_passwords config 6000 7000
      (codes "salt") (codes "salt") "bob@one" "secret" "secret" (codes "N3wpassword")
      (codes "0therPassword") forgetful renewed still_only_bob reset_runs

login-reset_password_example :
    (u : User) × (u.email ≡ "bob@one")
    × (login memory plain_passwords jwt utils 8000 "h2" "bob@one" (codes "N3wpassword") renewed
        ≡ flushed (respond (generate_token_pair jwt utils (payload_of u) 8000) u) (
            memory.save_login
              (login_history "h2" u.id success none)
              (some (logged_in 8000 u))
              renewed))
login-reset_password_example =
    login-reset_password memory memory-AuthStoreLaws plain_passwords config (λ salt. Unit)
      plain_passwords-PasswordsLaws 6000 8000 (codes "salt") "h2" "bob@one" "secret"
      (codes "N3wpassword") forgetful renewed still_only_bob reset_runs tt
