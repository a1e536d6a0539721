-- ===== src/SysPlugins/Auth/Accounts.antt =====
-- `bindOAuthAccount` and `unbindOAuthAccount`. `upper` is the platform's `toUpperCase`. The query
-- `getOAuthAccounts` only hands a filter to the database and is left out.
use oksai_cc_api_server.Base.{
  String, Bool, false, Option, none, some, if◌then◌else◌, ◌==◌, string_eq, ◌&&◌,
}
use oksai_cc_api_server.Base.Exec.{ok, err, Exec, ◌>>=◌, discard}
use oksai_cc_api_server.Base.Http.{HttpError, bad_request}
use oksai_cc_api_server.Orm.{create_entity, remove_entity, flushed, given}
use oksai_cc_api_server.SysPlugins.Auth.{
  User, OAuthAccount, OAuthProvider, google, github, microsoft, auth0, AuthStore,
}
use Prim.Native.String.{◌++◌ as concat}

-- `OAuthProvider[name]`
abbrev pub provider_named : String → Option OAuthProvider
provider_named name =
    if name == "GOOGLE"
    then some google
    else if name == "GITHUB"
    then some github
    else if name == "MICROSOFT"
    then some microsoft
    else if name == "AUTH0"
    then some auth0
    else none

-- the value of a provider
abbrev pub provider_value : OAuthProvider → String
provider_value google = "google"
provider_value github = "github"
provider_value microsoft = "microsoft"
provider_value auth0 = "auth0"

unfoldable pub new_account : String → String → OAuthProvider → String → Option Bool → OAuthAccount
new_account id user_id provider provider_id is_primary = record {
  id = id;
  user_id = user_id;
  provider = provider;
  provider_id = provider_id;
  provider_email = none;
  provider_name = none;
  provider_avatar = none;
  is_primary = given is_primary false;
}

abbrev pub unsupported : String → HttpError
unsupported name = bad_request (concat "不支持的 OAuth 提供者：" name)

module _ {S : Type 0} (store : AuthStore S) (upper : String → String) where
  abbrev pub is_account : OAuthProvider → String → OAuthAccount → Bool
  is_account p provider_id a =
      provider_value a.provider == provider_value p && a.provider_id == provider_id

  -- what the methods do first: they find the user and the provider
  abbrev pub with_provider :
      {A : Type 0}
      → String
      → Option User
      → Option OAuthProvider
      → (User → OAuthProvider → Exec HttpError S A)
      → Exec HttpError S A
  with_provider name none p f s = (err (bad_request "未找到该用户"), s)
  with_provider name (some u) none f s = (err (unsupported name), s)
  with_provider name (some u) (some p) f s = f u p s

  -- `if (credentials.isPrimary)`
  abbrev pub clear_if : Bool → String → Exec HttpError S Unit
  clear_if is_primary user_id s =
      if is_primary then flushed tt (store.clear_primary user_id s) else (ok tt, s)

  unfoldable pub bind_unless :
      String
      → String
      → OAuthProvider
      → String
      → Option Bool
      → Option OAuthAccount
      → Exec HttpError S Unit
  bind_unless id user_id p provider_id is_primary (some a) s =
      (err (bad_request "该 OAuth 账号已被绑定"), s)
  bind_unless id user_id p provider_id is_primary none s =
      (do
        _ ← clear_if (given is_primary false) user_id
        discard (create_entity store.accounts (new_account id user_id p provider_id is_primary)))
        s

  unfoldable pub bind_oauth_account :
      String → String → String → String → Option Bool → Exec HttpError S Unit
  unfolding bind_unless
  bind_oauth_account id user_id name provider_id is_primary s =
      with_provider name (store.users.find_one (λ u. u.id == user_id) s)
        (provider_named (upper name))
        (λ u p s.
          bind_unless id user_id p provider_id is_primary
            (store.accounts.find_one (is_account p provider_id) s) s)
        s

  unfoldable pub unbind_found : User → Option OAuthAccount → Exec HttpError S Unit
  unbind_found u none s = (err (bad_request "未找到要解绑的 OAuth 账号"), s)
  unbind_found u (some a) s =
      if a.is_primary && given u.require_password_setup false
      then (err (bad_request "请先设置密码后再解绑主账号"), s)
      else remove_entity store.accounts a.id s

  unfoldable pub unbind_oauth_account : String → String → String → Exec HttpError S Unit
  unfolding unbind_found
  unbind_oauth_account user_id name provider_id s =
      with_provider name (store.users.find_one (λ u. u.id == user_id) s)
        (provider_named (upper name))
        (λ u p s.
          unbind_found u
            (store.accounts.find_one (λ a. a.user_id == user_id && is_account p provider_id a) s) s)
        s
