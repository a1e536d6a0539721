-- ===== src/SysPlugins/Auth/Tests/Tokens.antt =====
-- The tokens of a login, on a database and a Redis server in memory.
use oksai_cc_api_server.Base.{
  ◌+◌, ◌*◌, ◌/◌, true, some, [], ◌∷◌, codes, ltb, if◌then◌else◌, ◌==◌, string_eq, is_some, ◌≡◌, ◌≢◌,
  refl, arith,
}
use oksai_cc_api_server.Base.Exec.{ok, err}
use oksai_cc_api_server.Base.Http.{unauthorized}
use oksai_cc_api_server.Core.MemoryRedis.{server, server-RedisLaws}
use oksai_cc_api_server.Core.Blacklist.{add, is_blacklisted, key_prefix}
use oksai_cc_api_server.Core.Jwt.{Claims, generate_token_pair, verify_access_token}
use oksai_cc_api_server.Core.PlainJwt.{plain_jwt, sign_plain-ne-nil}
use oksai_cc_api_server.SysPlugins.PlainPasswords.{plain_passwords}
use oksai_cc_api_server.SysPlugins.Auth.{UserRole}
use oksai_cc_api_server.SysPlugins.Auth.Memory.{Database, memory}
use oksai_cc_api_server.SysPlugins.Auth.Registration.{registered}
use oksai_cc_api_server.SysPlugins.Auth.Sessions.{
  login, payload_of, refresh_token, logout, logged_in,
}
use oksai_cc_api_server.SysPlugins.Auth.Tokens.{renewed, refresh_token-login, is_blacklisted-logout}
use oksai_cc_api_server.SysPlugins.Auth.Tests.{
  role_name, named, jwt, jwt-JwtLaws, utils, user_bob, one_user, session,
}
use Prim.Native.String.{◌++◌ as concat}

abbrev seen : Database
seen = (logged_in 1000 user_bob ∷ [], [])

login_runs :
    login memory plain_passwords jwt utils 1000 "h1" "bob@one" (codes "Passw0rd") one_user
    ≡ (ok session, seen)
unfolding login memory registered plain_passwords
login_runs = refl

refresh_token-login_example :
    refresh_token memory plain_passwords jwt utils server true 2000 session.refresh_token [] seen
    ≡ (if ltb 2000 ((1000 / 1000 + jwt.seconds "7d") * 1000)
        then if is_blacklisted server true 2000 session.refresh_token []
          then err (unauthorized "刷新令牌已失效，请重新登录")
          else renewed memory plain_passwords jwt utils 2000
              (memory.users.find_one (λ u. u.id == session.user.id) seen)
        else err (unauthorized "无效的刷新令牌"))
refresh_token-login_example =
    refresh_token-login memory plain_passwords jwt utils server true jwt-JwtLaws 1000 2000 "h1"
      "bob@one" (codes "Passw0rd") session one_user seen seen [] (omega arith) login_runs

abbrev claims : Claims UserRole
claims = record { payload = payload_of user_bob; exp = 1 + 86400 }

verify_runs : verify_access_token jwt utils session.access_token 2000 ≡ some claims
unfolding verify_access_token generate_token_pair plain_jwt
verify_runs =
    jwt-JwtLaws.verify-sign (payload_of user_bob) "access" "1d" 1000 2000 (omega arith)
      (omega arith)

not_empty : session.access_token ≢ ""
unfolding generate_token_pair plain_jwt
not_empty = sign_plain-ne-nil role_name named (payload_of user_bob) "access" 86401

-- Logging out a second after the login: the token is refused from then on, until a day is over.
is_blacklisted-logout_example :
    is_blacklisted server true 3000 session.access_token
      (logout server true jwt utils 2000 (some session.access_token) [])
    ≡ (if session.access_token == session.access_token
        then ltb 3000 (2000 + 86399 * 1000)
        else is_some (server-RedisLaws.held 3000 (concat key_prefix session.access_token) []))
unfolding generate_token_pair add
is_blacklisted-logout_example =
    is_blacklisted-logout server server-RedisLaws jwt utils 2000 3000 86399 session.access_token
      session.access_token claims [] (omega arith) not_empty verify_runs (omega arith) (omega arith)
      (omega arith) refl (λ e. cc)
