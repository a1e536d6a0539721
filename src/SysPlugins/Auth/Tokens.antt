-- ===== src/SysPlugins/Auth/Tokens.antt =====
-- The tokens that `login` hands out, in `refreshToken` and in `logout`.
use oksai_cc_api_server.Base.{
  ℕ, ◌+◌, ◌*◌, ◌/◌, ◌<◌, ◌≤◌, String, Bool, true, Option, none, some, List, if◌then◌else◌, is_some,
  ltb, ◌==◌, string_eq, ◌≡◌, ◌≢◌, refl, sym, ap, ◌∙◌, arith, eq_iff, Option-cases, Bool-cases, inl,
  inr,
}
use oksai_cc_api_server.Base.Exec.{Result, ok, err}
use oksai_cc_api_server.Base.Http.{HttpError, unauthorized}
use oksai_cc_api_server.Core.Redis.{Redis, RedisLaws}
use oksai_cc_api_server.Core.Blacklist.{add, is_blacklisted, key_prefix, is_blacklisted-add}
use oksai_cc_api_server.Core.Jwt.{
  Jwt, JwtLaws, JwtUtils, JwtPayload, Claims, TokenPair, generate_token_pair, verify_access_token,
}
use oksai_cc_api_server.Orm.{flushed-ok, given}
use oksai_cc_api_server.SysPlugins.Passwords.{Passwords}
use oksai_cc_api_server.SysPlugins.Auth.{User, UserRole, user, AuthStore, success, failed}
use oksai_cc_api_server.SysPlugins.Auth.Sessions.{
  LoginResponse, login, logged_in, login_history, respond, payload_of, refresh_token, refresh_as,
  logout, expires_in,
}
use Prim.Native.String.{◌++◌ as concat}

-- A user without a role counts as a plain one.
abbrev pub role_or_user : Option UserRole → UserRole
role_or_user none = user
role_or_user (some role) = role

role_or_user_lem : (role : Option UserRole) → given role user ≡ role_or_user role
role_or_user_lem none = refl
role_or_user_lem (some role) = refl

module _ {S : Type 0} (store : AuthStore S) (passwords : Passwords) (jwt : Jwt UserRole)
    (utils : JwtUtils) where
  -- whom `login` answers for
  login-ok :
      (now : ℕ) (id email : String) (password : List ℕ) (r : LoginResponse) (s s' : S)
      → login store passwords jwt utils now id email password s ≡ (ok r, s')
      → (u : User) × (respond (generate_token_pair jwt utils (payload_of u) now) u ≡ r)
  unfolding login
  login-ok now id email password r s s' went =
      elim (Option-cases (store.users.find_one (λ u. u.email == email) s)) [
        | inl missing ↦ absurd (ground (arith, went, missing))
        | inr (u, found) ↦ elim (Bool-cases (passwords.verify_password password u.password)) [
          | inr wrong ↦
              let q = store.save_login (login_history id u.id failed (some "密码错误")) none s in
              elim (Bool-cases q.0) [
                | inl y ↦ absurd (ground (arith, went, found, wrong, y))
                | inr n ↦ absurd (ground (arith, went, found, wrong, n))
              ]
          | inl right ↦
              let q =
                store.save_login (login_history id u.id success none) (some (logged_in now u)) s in
              (
                u,
                (flushed-ok (respond (generate_token_pair jwt utils (payload_of u) now) u) r q
                    (ground (arith, went, found, right))).1,
              )
        ]
      ]

  -- What a refresh yields for the row of the user: two new tokens in the name of what it holds.
  abbrev pub renewed : ℕ → Option User → Result HttpError TokenPair
  renewed later none = err (unauthorized "未找到该用户")
  renewed later (some u) =
      let own : JwtPayload UserRole = record {
        sub = u.id;
        email = u.email;
        tenant_id = u.tenant_id;
        role = role_or_user u.role;
      } in
      ok (record {
        access_token = jwt.sign own utils.access_token_secret utils.access_token_expires_in later;
        refresh_token =
            jwt.sign own utils.refresh_token_secret utils.refresh_token_expires_in later;
      })

  refresh_as-renewed :
      (later : ℕ) (found : Option User)
      → refresh_as store passwords jwt utils later found ≡ renewed later found
  unfolding refresh_as generate_token_pair
  refresh_as-renewed later none = refl
  refresh_as-renewed later (some u) = simp (role_or_user_lem u.role)

  -- The refresh token of a `login`, as `refreshToken` answers to it later, whatever became of the
  -- users and the blacklist: once its time is over it is invalid, a blacklisted one is refused, and
  -- otherwise there is a new pair of tokens, signed then with the two secrets for the user's id,
  -- e-mail, tenant and role as they are then, unless the user is gone.
  pub refresh_token-login :
      {R : Type 0}
      → (redis : Redis R) (connected : Bool) → JwtLaws jwt
      → (now later : ℕ) (id email : String) (password : List ℕ) (r : LoginResponse)
        (s s' later_s : S) (later_r : R)
      → now ≤ later
      → login store passwords jwt utils now id email password s ≡ (ok r, s')
      → refresh_token store passwords jwt utils redis connected later r.refresh_token later_r
          later_s
        ≡ (if ltb later ((now / 1000 + jwt.seconds utils.refresh_token_expires_in) * 1000)
            then if is_blacklisted redis connected later r.refresh_token later_r
              then err (unauthorized "刷新令牌已失效，请重新登录")
              else renewed later (store.users.find_one (λ u. u.id == r.user.id) later_s)
            else err (unauthorized "无效的刷新令牌"))
  unfolding refresh_token generate_token_pair
  refresh_token-login redis connected laws now later id email password r s s' later_s later_r before
        went =
      let (u, answer) = login-ok now id email password r s s' went in
      let until = (now / 1000 + jwt.seconds utils.refresh_token_expires_in) * 1000 in
      elim (Bool-cases (ltb later until)) [
        | inl early ↦
            rw
              (
                sym answer,
                early,
                laws.verify-sign (payload_of u) utils.refresh_token_secret
                    utils.refresh_token_expires_in now later before (ground (arith, early)),
                refresh_as-renewed later (store.users.find_one (λ w. w.id == u.id) later_s),
              )
              refl
        | inr late ↦
            rw
              (
                sym answer,
                late,
                laws.verify_expired (payload_of u) utils.refresh_token_secret
                    utils.refresh_token_expires_in now later (ground (arith, late)),
              )
              refl
      ]

  -- The access token of a `login` is never taken for a refresh token, if the two secrets differ.
  pub refresh_token-access_token :
      {R : Type 0}
      → (redis : Redis R) (connected : Bool) → JwtLaws jwt
      → (now later : ℕ) (id email : String) (password : List ℕ) (r : LoginResponse)
        (s s' later_s : S) (later_r : R)
      → utils.access_token_secret ≢ utils.refresh_token_secret
      → login store passwords jwt utils now id email password s ≡ (ok r, s')
      → refresh_token store passwords jwt utils redis connected later r.access_token later_r later_s
        ≡ err (unauthorized "无效的刷新令牌")
  unfolding refresh_token generate_token_pair
  refresh_token-access_token redis connected laws now later id email password r s s' later_s later_r
        apart went =
      let (u, answer) = login-ok now id email password r s s' went in
      rw
        (
          sym answer,
          laws.verify_foreign (payload_of u) utils.access_token_secret utils.refresh_token_secret
              utils.access_token_expires_in now later apart,
        )
        refl

module _ {R : Type 0} (redis : Redis R) (laws : RedisLaws redis) (jwt : Jwt UserRole)
    (utils : JwtUtils) where
  -- `logout` with an access token that is not empty and is valid for `left` whole seconds more, at
  -- least one, blacklists that token, and no other, for these `left` seconds, if Redis can be
  -- reached, stores it, and answers when it is asked.
  pub is_blacklisted-logout :
      (now later left : ℕ) (token other : String) (claims : Claims UserRole) (r : R)
      → now ≤ later
      → token ≢ ""
      → verify_access_token jwt utils token now ≡ some claims
      → 0 < left
      → now + left * 1000 ≤ claims.exp * 1000
      → claims.exp * 1000 < now + (left + 1) * 1000
      → (add redis true now token left r).0 ≡ true
      → redis.exists_key later
          (concat key_prefix other)
          (logout redis true jwt utils now (some token) r)
        ≢ none
      → is_blacklisted redis true later other (logout redis true jwt utils now (some token) r) ≡ (
          if token == other
          then ltb later (now + left * 1000)
          else is_some (laws.held later (concat key_prefix other) r))
  unfolding logout
  is_blacklisted-logout now later left token other claims r before there valid some_left fits tight
        went asked =
      let seconds : expires_in redis true jwt utils claims.exp now ≡ left = omega arith in
      let same : logout redis true jwt utils now (some token) r
          ≡ (add redis true now token left r).1 =
        ground (arith, valid, seconds, eq_iff token "") in
      rw same (
        is_blacklisted-add redis laws now later token other left r before went
          (λ n. asked (ap (λ t. redis.exists_key later (concat key_prefix other) t) same ∙ n)))
