-- ===== src/SysPlugins/Users.antt =====
-- libs/sys-plugins/user/src/lib/user.service.ts. The tenant of the request, which `RequestContext`
-- holds, the id of a new user, the salt of a hash and the time are arguments. The query `findAll`
-- only hands a filter to the database and is left out.
pub mod Changes
pub mod Updates
pub mod Requests
pub mod Isolation
use oksai_cc_api_server.Base.{
  ℕ, suc, String, Bool, true, false, not, Option, none, some, List, if◌then◌else◌, ◌==◌, string_eq,
  ◌&&◌,
}
use oksai_cc_api_server.Base.Exec.{Result, ok, err, Exec, ◌>>=◌, continue, discard}
use oksai_cc_api_server.Base.Http.{HttpError, bad_request, not_found, forbidden}
use oksai_cc_api_server.Core.Password.{validate_password_strength}
use oksai_cc_api_server.Orm.{
  Repository, create_entity, store_entity, remove_entity, given, given_optional, flushed,
}
use oksai_cc_api_server.SysPlugins.Passwords.{Passwords, weak_password}
use Prim.Native.String.{◌++◌ as concat}

pub data UserRole : Type 0 where
  admin user guest : UserRole

pub record User : Type 0 where
  pub id : String
  pub email : String
  pub password : List ℕ
  pub first_name : String
  pub last_name : String
  pub role : UserRole
  pub tenant_id : String
  pub is_active : Bool
  pub avatar : Option String
  pub phone_number : Option String
  pub timezone : Option String
  pub locale : Option String
  pub preferred_language : Option String
  pub last_login_at : Option ℕ
  pub login_count : ℕ

-- the optional properties that both transfer objects have
pub record UserDetails : Type 0 where
  pub role : Option UserRole
  pub is_active : Option Bool
  pub avatar : Option String
  pub phone_number : Option String
  pub timezone : Option String
  pub locale : Option String
  pub preferred_language : Option String

pub record CreateUserDto : Type 0 where
  pub email : String
  pub password : List ℕ
  pub first_name : String
  pub last_name : String
  pub details : UserDetails

pub record UpdateUserDto : Type 0 where
  pub email : Option String
  pub password : Option (List ℕ)
  pub first_name : Option String
  pub last_name : Option String
  pub details : UserDetails

unfoldable pub new_user : String → CreateUserDto → String → List ℕ → User
new_user id dto tenant_id hashed = record {
  id = id;
  email = dto.email;
  password = hashed;
  first_name = dto.first_name;
  last_name = dto.last_name;
  role = given dto.details.role user;
  tenant_id = tenant_id;
  is_active = given dto.details.is_active true;
  avatar = dto.details.avatar;
  phone_number = dto.details.phone_number;
  timezone = dto.details.timezone;
  locale = dto.details.locale;
  preferred_language = dto.details.preferred_language;
  last_login_at = none;
  login_count = 0;
}

-- the assignments of `update`, with the hash of the new password
unfoldable pub updated_user : UpdateUserDto → Option (List ℕ) → User → User
updated_user dto hashed u = record u {
  email = given dto.email u.email;
  first_name = given dto.first_name u.first_name;
  last_name = given dto.last_name u.last_name;
  password = given hashed u.password;
  role = given dto.details.role u.role;
  is_active = given dto.details.is_active u.is_active;
  avatar = given_optional dto.details.avatar u.avatar;
  phone_number = given_optional dto.details.phone_number u.phone_number;
  timezone = given_optional dto.details.timezone u.timezone;
  locale = given_optional dto.details.locale u.locale;
  preferred_language = given_optional dto.details.preferred_language u.preferred_language;
}

abbrev pub email_is_taken : HttpError
email_is_taken = bad_request "此邮箱在该租户下已存在"

abbrev pub no_tenant : HttpError
no_tenant = forbidden "租户上下文缺失"

abbrev pub no_user : String → HttpError
no_user id = not_found (concat (concat "未找到 ID 为 " id) " 的用户")

-- `if (!currentTenantId) throw`
abbrev pub in_tenant :
    {A S : Type 0} → Option String → (String → Exec HttpError S A) → Exec HttpError S A
in_tenant none f s = (err no_tenant, s)
in_tenant (some t) f s = if t == "" then (err no_tenant, s) else f t s

module _ {S : Type 0} (repo : Repository User S) (passwords : Passwords)
    (current : Option String) where
  unfoldable pub create_unless :
      String → List ℕ → CreateUserDto → String → Option User → Exec HttpError S User
  create_unless id salt dto tenant (some u) s = (err email_is_taken, s)
  create_unless id salt dto tenant none s =
      if (validate_password_strength dto.password).valid
      then create_entity repo (new_user id dto tenant (passwords.hash_password salt dto.password)) s
      else (err (weak_password dto.password), s)

  unfoldable pub create : String → List ℕ → CreateUserDto → Exec HttpError S User
  unfolding create_unless
  create id salt dto = in_tenant current λ tenant s.
      create_unless id salt dto tenant
        (repo.find_one (λ u. u.email == dto.email && u.tenant_id == tenant) s) s

  abbrev pub or_not_found : String → Option User → Exec HttpError S User
  or_not_found id none s = (err (no_user id), s)
  or_not_found id (some u) s = (ok u, s)

  abbrev pub find_in : String → String → Exec HttpError S User
  find_in id tenant s =
      or_not_found id (repo.find_one (λ u. u.id == id && u.tenant_id == tenant) s) s

  unfoldable pub find_one : String → Exec HttpError S User
  find_one id = in_tenant current (find_in id)

  -- the other user that `update` looks for, if the new e-mail is neither undefined nor empty
  abbrev pub other_with : String → String → Option String → S → Option User
  other_with id tenant none s = none
  other_with id tenant (some email) s =
      if email == ""
      then none
      else repo.find_one (λ u. u.email == email && u.tenant_id == tenant && not (u.id == id)) s

  -- the part of `update` from the new password on
  unfoldable pub update_password_in :
      List ℕ → UpdateUserDto → User → Option (List ℕ) → Exec HttpError S User
  update_password_in salt dto u none s = store_entity repo u.id (updated_user dto none u) s
  update_password_in salt dto u (some password) s =
      if (validate_password_strength password).valid
      then store_entity repo u.id
          (updated_user dto (some (passwords.hash_password salt password)) u) s
      else (err (weak_password password), s)

  unfoldable pub update_unless : List ℕ → UpdateUserDto → User → Option User → Exec HttpError S User
  unfolding update_password_in
  update_unless salt dto u (some other) s = (err email_is_taken, s)
  update_unless salt dto u none s = update_password_in salt dto u dto.password s

  unfoldable pub update : String → List ℕ → UpdateUserDto → Exec HttpError S User
  unfolding update_unless
  update id salt dto = in_tenant current λ tenant. do
    u ← find_in id tenant
    λ s. update_unless salt dto u (other_with id tenant dto.email s) s

  unfoldable pub remove : String → Exec HttpError S Unit
  unfolding find_one
  remove id = do u ← find_one id; remove_entity repo u.id

  -- the methods that find the user, change its fields and flush
  unfoldable pub change_user : String → (User → User) → Exec HttpError S User
  unfolding find_one
  change_user id f = do u ← find_one id; store_entity repo u.id (f u)

  unfoldable pub update_avatar : String → String → Exec HttpError S User
  unfolding change_user
  update_avatar id avatar = change_user id (λ u. record u { avatar = some avatar })

  unfoldable pub deactivate : String → Exec HttpError S User
  unfolding change_user
  deactivate id = change_user id (λ u. record u { is_active = false })

  unfoldable pub activate : String → Exec HttpError S User
  unfolding change_user
  activate id = change_user id (λ u. record u { is_active = true })

  unfoldable pub update_last_login : String → ℕ → Exec HttpError S Unit
  unfolding change_user
  update_last_login id now =
      discard (
        change_user id
          (λ u. record u { last_login_at = some now; login_count = suc u.login_count }))

  unfoldable pub replace_password : List ℕ → List ℕ → List ℕ → User → Exec HttpError S User
  replace_password salt old new u s =
      if passwords.verify_password old u.password
      then if (validate_password_strength new).valid
        then store_entity repo u.id (record u { password = passwords.hash_password salt new }) s
        else (err (weak_password new), s)
      else (err (bad_request "当前密码错误"), s)

  unfoldable pub update_password : String → List ℕ → List ℕ → List ℕ → Exec HttpError S Unit
  unfolding find_one replace_password
  update_password id salt old new = discard (do u ← find_one id; replace_password salt old new u)
