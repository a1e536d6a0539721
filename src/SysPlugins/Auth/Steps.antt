-- ===== src/SysPlugins/Auth/Steps.antt =====
-- The requests to the service of authentication, and what one does to the users.
use oksai_cc_api_server.Base.{ℕ, String, Bool, Option, List, string_eq}
use oksai_cc_api_server.Core.Jwt.{Jwt, JwtUtils}
use oksai_cc_api_server.SysPlugins.Passwords.{Passwords}
use oksai_cc_api_server.SysPlugins.Auth.{UserRole, AuthStore}
use oksai_cc_api_server.SysPlugins.Auth.Sessions.{login}
use oksai_cc_api_server.SysPlugins.Auth.Registration.{RegisterDto, register, verify_email}
use oksai_cc_api_server.SysPlugins.Auth.Resets.{forgot_password, reset_password, change_password}
use oksai_cc_api_server.SysPlugins.Auth.Accounts.{bind_oauth_account, unbind_oauth_account}

-- what the service is configured with
pub record AuthConfig : Type 0 where
  pub jwt : Jwt UserRole
  pub utils : JwtUtils
  pub welcome : String → String → String
  pub reset_mail : String → String → ℕ → String
  pub client_base_url : String
  pub upper : String → String

module _ {S : Type 0} (store : AuthStore S) (passwords : Passwords) (c : AuthConfig) where
  pub data Step (s : S) : S → Type 0 where
    logging_in :
        (now : ℕ) (id email : String) (password : List ℕ)
        → Step s (login store passwords c.jwt c.utils now id email password s).1
    registering :
        (now : ℕ) (id : String) (salt : List ℕ) (dto : RegisterDto)
        → Step s
            (register store passwords c.jwt c.utils c.welcome c.client_base_url now id salt dto s).1
    verifying :
        (now : ℕ) (email token code : String) → Step s (verify_email store now email token code s).1
    forgetting :
        (now : ℕ) (token email : String)
        → Step s (forgot_password store c.reset_mail c.client_base_url now token email s).1
    resetting :
        (now : ℕ) (salt : List ℕ) (email token : String) (password : List ℕ)
        → Step s (reset_password store passwords now salt email token password s).1
    changing :
        (salt : List ℕ) (id : String) (current : Option (List ℕ)) (password : List ℕ)
        → Step s (change_password store passwords salt id current password s).1
    binding :
        (id user_id name provider_id : String) (is_primary : Option Bool)
        → Step s (bind_oauth_account store c.upper id user_id name provider_id is_primary s).1
    unbinding :
        (user_id name provider_id : String)
        → Step s (unbind_oauth_account store c.upper user_id name provider_id s).1

  pub data Reachable (s : S) : S → Type 0 where
    start : Reachable s s
    next : {s' s'' : S} → Reachable s s' → Step s' s'' → Reachable s s''
