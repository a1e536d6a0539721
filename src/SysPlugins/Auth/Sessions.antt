-- ===== src/SysPlugins/Auth/Sessions.antt =====
-- `login`, `refreshToken` and `logout`. The blacklist of tokens is libs/core's, on a Redis server
-- beside the database. The JWT utilities are taken to be initialised.
use oksai_cc_api_server.Base.{
  ℕ, ◌+◌, ◌/◌, ◌-◌, suc, String, Bool, Option, none, some, List, if◌then◌else◌, ◌==◌, string_eq,
  nat_eq, ltb,
}
use oksai_cc_api_server.Base.Exec.{Result, ok, err, Exec}
use oksai_cc_api_server.Base.Http.{HttpError, unauthorized, database_failed}
use oksai_cc_api_server.Core.Redis.{Redis}
use oksai_cc_api_server.Core.Blacklist.{add, is_blacklisted}
use oksai_cc_api_server.Core.Jwt.{
  Jwt, JwtUtils, JwtPayload, Claims, TokenPair, generate_token_pair, verify_access_token,
  verify_refresh_token,
}
use oksai_cc_api_server.Orm.{flushed, settled, given}
use oksai_cc_api_server.SysPlugins.Passwords.{Passwords}
use oksai_cc_api_server.SysPlugins.Auth.{
  User, UserRole, role_of, LoginHistory, LoginHistoryContext, LoginStatus, success, failed,
  AuthStore,
}

pub record LoginUser : Type 0 where
  pub id : String
  pub email : String
  pub first_name : String
  pub last_name : String
  pub tenant_id : String
  pub role : UserRole

pub record LoginResponse : Type 0 where
  pub access_token : String
  pub refresh_token : String
  pub user : LoginUser

-- the payload that the methods sign
abbrev pub payload_of : User → JwtPayload UserRole
payload_of u = record { sub = u.id; email = u.email; tenant_id = u.tenant_id; role = role_of u }

abbrev pub respond : TokenPair → User → LoginResponse
respond tokens u = record {
  access_token = tokens.access_token;
  refresh_token = tokens.refresh_token;
  user = record {
    id = u.id;
    email = u.email;
    first_name = u.first_name;
    last_name = u.last_name;
    tenant_id = u.tenant_id;
    role = role_of u;
  };
}

abbrev pub no_context : LoginHistoryContext
no_context = record { ip_address = none; user_agent = none; device_type = none; location = none }

abbrev pub login_history : String → String → LoginStatus → Option String → LoginHistory
login_history id user_id status remark = record {
  id = id;
  user_id = user_id;
  login_method = "password";
  status = status;
  context = no_context;
  remark = remark;
}

-- the changes of `login` to the user
abbrev pub logged_in : ℕ → User → User
logged_in now u = record u {
  last_login_at = some now;
  login_count = some (suc (given u.login_count 0));
}

abbrev pub bad_credentials : HttpError
bad_credentials = unauthorized "用户名或密码错误"

module _ {S : Type 0} (store : AuthStore S) (passwords : Passwords) (jwt : Jwt UserRole)
    (utils : JwtUtils) where
  unfoldable pub login_as :
      ℕ → String → List ℕ → Option User → S → Result HttpError LoginResponse × S
  unfolding generate_token_pair
  login_as now id password none s = (err bad_credentials, s)
  login_as now id password (some u) s =
      if passwords.verify_password password u.password
      then flushed (respond (generate_token_pair jwt utils (payload_of u) now) u)
          (store.save_login (login_history id u.id success none) (some (logged_in now u)) s)
      else settled (err bad_credentials) database_failed
          (store.save_login (login_history id u.id failed (some "密码错误")) none s)

  unfoldable pub login : ℕ → String → String → List ℕ → Exec HttpError S LoginResponse
  unfolding login_as
  login now id email password s =
      login_as now id password (store.users.find_one (λ u. u.email == email) s) s

  unfoldable pub refresh_as : ℕ → Option User → Result HttpError TokenPair
  unfolding generate_token_pair
  refresh_as now none = err (unauthorized "未找到该用户")
  refresh_as now (some u) = ok (generate_token_pair jwt utils (payload_of u) now)

  unfoldable pub refresh_verified :
      {R : Type 0}
      → Redis R
      → Bool
      → ℕ
      → String
      → R
      → Option (Claims UserRole)
      → S
      → Result HttpError TokenPair
  unfolding refresh_as is_blacklisted
  refresh_verified redis connected now token r none s = err (unauthorized "无效的刷新令牌")
  refresh_verified redis connected now token r (some claims) s =
      if is_blacklisted redis connected now token r
      then err (unauthorized "刷新令牌已失效，请重新登录")
      else refresh_as now (store.users.find_one (λ u. u.id == claims.payload.sub) s)

  -- no state changes
  unfoldable pub refresh_token :
      {R : Type 0} → Redis R → Bool → ℕ → String → R → S → Result HttpError TokenPair
  unfolding refresh_verified verify_refresh_token
  refresh_token redis connected now token r s =
      refresh_verified redis connected now token r (verify_refresh_token jwt utils token now) s

module _ {R : Type 0} (redis : Redis R) (connected : Bool) (jwt : Jwt UserRole)
    (utils : JwtUtils) where
  -- `Math.floor(payload.exp - Date.now() / 1000)`, where it is not negative
  abbrev pub expires_in : ℕ → ℕ → ℕ
  expires_in exp now = exp - (now + 999) / 1000

  -- the block of `try`
  unfoldable pub logout_verified : ℕ → String → Option (Claims UserRole) → R → R
  unfolding add
  logout_verified now token none r = r
  logout_verified now token (some claims) r =
      if ltb 0 (expires_in claims.exp now)
      then (add redis connected now token (expires_in claims.exp now) r).1
      else r

  unfoldable pub logout : ℕ → Option String → R → R
  unfolding logout_verified verify_access_token
  logout now none r = r
  logout now (some token) r =
      if token == ""
      then r
      else if connected
      then logout_verified now token (verify_access_token jwt utils token now) r
      else r
