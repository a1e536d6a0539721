-- ===== src/SysPlugins/Auth/Registration.antt =====
-- `register` and `verifyEmail`.
use oksai_cc_api_server.Base.{
  ℕ, String, Bool, true, false, not, Option, none, some, List, if◌then◌else◌, ◌==◌, string_eq, ltb,
}
use oksai_cc_api_server.Base.Exec.{ok, err, Exec, ◌>>=◌}
use oksai_cc_api_server.Base.Http.{HttpError, bad_request, conflict}
use oksai_cc_api_server.Core.Jwt.{Jwt, JwtUtils, generate_token_pair}
use oksai_cc_api_server.Core.Password.{validate_password_strength}
use oksai_cc_api_server.Orm.{create_entity, flushed, given}
use oksai_cc_api_server.SysPlugins.Passwords.{Passwords, weak_password}
use oksai_cc_api_server.SysPlugins.Auth.{User, UserRole, user, Mail, AuthStore}
use oksai_cc_api_server.SysPlugins.Auth.Sessions.{LoginResponse, payload_of, respond}
use Prim.Native.String.{◌++◌ as concat}

pub record RegisterDto : Type 0 where
  pub email : String
  pub password : List ℕ
  pub first_name : String
  pub last_name : String
  pub role : Option UserRole

unfoldable pub registered : String → RegisterDto → List ℕ → User
registered id dto hashed = record {
  id = id;
  email = dto.email;
  password = hashed;
  first_name = dto.first_name;
  last_name = dto.last_name;
  role = some (given dto.role user);
  is_active = true;
  tenant_id = "default";
  email_verified_at = none;
  verification_token = none;
  verification_code = none;
  verification_code_expires_at = none;
  reset_token = none;
  reset_token_expires_at = none;
  avatar = none;
  last_login_at = none;
  login_count = none;
  require_password_setup = none;
  login_fail_count = none;
  locked_until = none;
  two_factor_enabled = none;
  two_factor_secret = none;
  two_factor_verified_at = none;
}

abbrev pub full_name : User → String
full_name u = concat (concat u.first_name " ") u.last_name

-- `user.field !== credentials.field`, where the field may be undefined
abbrev pub differs : Option String → String → Bool
differs none given = true
differs (some own) given = not (own == given)

-- `user.verificationCodeExpiresAt && user.verificationCodeExpiresAt < new Date()`
abbrev pub is_past : Option ℕ → ℕ → Bool
is_past none now = false
is_past (some t) now = ltb t now

abbrev pub verified : ℕ → User → User
verified now u = record u {
  email_verified_at = some now;
  verification_token = none;
  verification_code = none;
  verification_code_expires_at = none;
}

-- `welcome` renders the mail of a name and the address of the login page.
module _ {S : Type 0} (store : AuthStore S) (passwords : Passwords) (jwt : Jwt UserRole)
    (utils : JwtUtils) (welcome : String → String → String) (client_base_url : String) where
  abbrev pub welcome_mail : User → Mail
  welcome_mail u = record {
    to = u.email;
    subject = "欢迎加入 OKSAI 平台";
    html = welcome (full_name u) (concat client_base_url "/login");
  }

  unfoldable pub register_unless :
      ℕ → String → List ℕ → RegisterDto → Option User → Exec HttpError S LoginResponse
  unfolding generate_token_pair
  register_unless now id salt dto (some u) s = (err (conflict "此邮箱已被注册"), s)
  register_unless now id salt dto none s =
      (do
        u ←
            create_entity store.users
              (registered id dto (passwords.hash_password salt dto.password))
        λ s. (
          ok (respond (generate_token_pair jwt utils (payload_of u) now) u),
          -- a failure is only logged
          (store.add_mail (welcome_mail u) s).1,
        ))
        s

  unfoldable pub register : ℕ → String → List ℕ → RegisterDto → Exec HttpError S LoginResponse
  unfolding register_unless
  register now id salt dto s =
      if (validate_password_strength dto.password).valid
      then register_unless now id salt dto (store.users.find_one (λ u. u.email == dto.email) s) s
      else (err (weak_password dto.password), s)

module _ {S : Type 0} (store : AuthStore S) where
  unfoldable pub verify_email_of : ℕ → String → String → Option User → Exec HttpError S Bool
  verify_email_of now token code none s = (ok false, s)
  verify_email_of now token code (some u) s =
      if differs u.verification_token token
      then (err (bad_request "验证令牌无效"), s)
      else if differs u.verification_code code
      then (err (bad_request "验证码无效"), s)
      else if is_past u.verification_code_expires_at now
      then (err (bad_request "验证码已过期"), s)
      else flushed true (store.users.update_row u.id (verified now u) s)

  unfoldable pub verify_email : ℕ → String → String → String → Exec HttpError S Bool
  unfolding verify_email_of
  verify_email now email token code s =
      verify_email_of now token code (store.users.find_one (λ u. u.email == email) s) s
