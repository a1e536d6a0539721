-- ===== src/SysPlugins/Auth/Resets.antt =====
-- `forgotPassword`, `resetPassword` and `changePassword`.
use oksai_cc_api_server.Base.{
  ℕ, ◌+◌, String, Bool, true, false, Option, none, some, List, [], if◌then◌else◌, ◌==◌, string_eq,
  ltb,
}
use oksai_cc_api_server.Base.Exec.{ok, err, Exec, ◌>>=◌}
use oksai_cc_api_server.Base.Http.{HttpError, bad_request, unauthorized}
use oksai_cc_api_server.Core.Password.{validate_password_strength}
use oksai_cc_api_server.Orm.{store_entity, flushed, settled, given}
use oksai_cc_api_server.SysPlugins.Passwords.{Passwords, weak_password}
use oksai_cc_api_server.SysPlugins.Auth.{User, Mail, AuthStore}
use oksai_cc_api_server.SysPlugins.Auth.Registration.{full_name, differs}
use Prim.Native.String.{◌++◌ as concat}

abbrev pub hour : ℕ
hour = 3600000

abbrev pub no_such_email : HttpError
no_such_email = bad_request "未找到该邮箱对应的用户"

abbrev pub invalid_token : HttpError
invalid_token = bad_request "无效的重置令牌"

abbrev pub token_expired : HttpError
token_expired = bad_request "重置令牌已过期"

abbrev pub no_mail : HttpError
no_mail = bad_request "发送密码重置邮件失败，请稍后重试"

abbrev pub with_reset_token : ℕ → String → User → User
with_reset_token now token u = record u {
  reset_token = some token;
  reset_token_expires_at = some (now + hour);
}

abbrev pub with_new_password : List ℕ → User → User
with_new_password hashed u = record u {
  password = hashed;
  reset_token = none;
  reset_token_expires_at = none;
}

-- `!user.resetTokenExpiresAt || user.resetTokenExpiresAt < new Date()`
abbrev pub has_expired : Option ℕ → ℕ → Bool
has_expired none now = true
has_expired (some t) now = ltb t now

-- `reset_mail` renders the mail of an address, a name and a number of hours.
module _ {S : Type 0} (store : AuthStore S) (reset_mail : String → String → ℕ → String)
    (client_base_url : String) where
  abbrev pub reset_url : String → String → String
  reset_url token email =
      concat (concat (concat (concat client_base_url "/reset-password?token=") token) "&email=")
        email

  abbrev pub mail_of : String → String → User → Mail
  mail_of token email u = record {
    to = email;
    subject = "密码重置";
    html = reset_mail (reset_url token email) (full_name u) 1;
  }

  unfoldable pub forgot_password_of : ℕ → String → String → Option User → Exec HttpError S Unit
  forgot_password_of now token email none s = (err no_such_email, s)
  forgot_password_of now token email (some u) s =
      (do
        v ← store_entity store.users u.id (with_reset_token now token u)
        λ s. settled (ok tt) no_mail (store.add_mail (mail_of token email v) s))
        s

  unfoldable pub forgot_password : ℕ → String → String → Exec HttpError S Unit
  unfolding forgot_password_of
  forgot_password now token email s =
      forgot_password_of now token email (store.users.find_one (λ u. u.email == email) s) s

module _ {S : Type 0} (store : AuthStore S) (passwords : Passwords) where
  unfoldable pub reset_password_of :
      ℕ → List ℕ → String → List ℕ → Option User → Exec HttpError S Unit
  reset_password_of now salt token password none s = (err no_such_email, s)
  reset_password_of now salt token password (some u) s =
      if differs u.reset_token token
      then (err invalid_token, s)
      else if has_expired u.reset_token_expires_at now
      then (err token_expired, s)
      else if (validate_password_strength password).valid
      then flushed tt (
          store.users.update_row u.id (with_new_password (passwords.hash_password salt password) u)
            s)
      else (err (weak_password password), s)

  unfoldable pub reset_password : ℕ → List ℕ → String → String → List ℕ → Exec HttpError S Unit
  unfolding reset_password_of
  reset_password now salt email token password s =
      reset_password_of now salt token password (store.users.find_one (λ u. u.email == email) s) s

  -- whether the current password is missing: undefined or empty
  abbrev pub is_missing : Option (List ℕ) → Bool
  is_missing none = true
  is_missing (some []) = true
  is_missing (some (List.◌∷◌ c cs)) = false

  -- the `else` of `if (user.requirePasswordSetup)`: what it throws
  unfoldable pub refused_current : Option (List ℕ) → User → Option HttpError
  refused_current current u =
      if is_missing current
      then some (bad_request "请提供当前密码")
      else if passwords.verify_password (given current []) u.password
      then none
      else some (bad_request "当前密码错误")

  abbrev pub changed : List ℕ → User → User
  changed hashed u = record u {
    require_password_setup =
        if given u.require_password_setup false then some false else u.require_password_setup;
    password = hashed;
  }

  unfoldable pub change_unless : List ℕ → List ℕ → User → Option HttpError → Exec HttpError S Unit
  change_unless salt password u (some x) s = (err x, s)
  change_unless salt password u none s =
      flushed tt (store.users.update_row u.id (changed (passwords.hash_password salt password) u) s)

  unfoldable pub change_password_of :
      List ℕ → Option (List ℕ) → List ℕ → Option User → Exec HttpError S Unit
  unfolding change_unless refused_current
  change_password_of salt current password none s = (err (unauthorized "未找到该用户"), s)
  change_password_of salt current password (some u) s =
      if (validate_password_strength password).valid
      then change_unless salt password u
          (if given u.require_password_setup false then none else refused_current current u) s
      else (err (weak_password password), s)

  unfoldable pub change_password :
      List ℕ → String → Option (List ℕ) → List ℕ → Exec HttpError S Unit
  unfolding change_password_of
  change_password salt id current password s =
      change_password_of salt current password (store.users.find_one (λ u. u.id == id) s) s
