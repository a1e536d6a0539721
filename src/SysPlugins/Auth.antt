-- ===== src/SysPlugins/Auth.antt =====
-- libs/sys-plugins/auth/src/lib/auth.service.ts: its entities, what it needs of the database and of
-- the mail queue, and what its methods share. The timestamps of the base entity and the plain text
-- of a mail are left out. The time in milliseconds, ids, salts and tokens that are drawn at random
-- are arguments.
pub mod Sessions
pub mod Registration
pub mod Resets
pub mod Accounts
pub mod Steps
pub mod UserChanges
pub mod Emails
pub mod Cleared
pub mod Bindings
pub mod Primary
pub mod Recovery
pub mod Signup
pub mod Tokens
pub mod Memory
mod Tests
use oksai_cc_api_server.Base.{
  ℕ, String, Bool, true, false, Option, none, some, List, if◌then◌else◌, ◌==◌, string_eq, ◌&&◌, ◌≡◌,
}
use oksai_cc_api_server.Orm.{Repository, RepositoryLaws, given}

pub data UserRole : Type 0 where
  admin user guest : UserRole

pub record User : Type 0 where
  pub id : String
  pub email : String
  pub password : List ℕ
  pub first_name : String
  pub last_name : String
  pub role : Option UserRole
  pub is_active : Bool
  pub tenant_id : String
  pub email_verified_at : Option ℕ
  pub verification_token : Option String
  pub verification_code : Option String
  pub verification_code_expires_at : Option ℕ
  pub reset_token : Option String
  pub reset_token_expires_at : Option ℕ
  pub avatar : Option String
  pub last_login_at : Option ℕ
  pub login_count : Option ℕ
  pub require_password_setup : Option Bool
  pub login_fail_count : Option ℕ
  pub locked_until : Option ℕ
  pub two_factor_enabled : Option Bool
  pub two_factor_secret : Option String
  pub two_factor_verified_at : Option ℕ

-- `user.role || UserRole.USER`
abbrev pub role_of : User → UserRole
role_of u = given u.role user

pub data LoginStatus : Type 0 where
  success failed locked : LoginStatus

pub record LoginHistoryContext : Type 0 where
  pub ip_address : Option String
  pub user_agent : Option String
  pub device_type : Option String
  pub location : Option String

pub record LoginHistory : Type 0 where
  pub id : String
  pub user_id : String
  pub login_method : String
  pub status : LoginStatus
  pub context : LoginHistoryContext
  pub remark : Option String

pub data OAuthProvider : Type 0 where
  google github microsoft auth0 : OAuthProvider

pub record OAuthAccount : Type 0 where
  pub id : String
  pub user_id : String
  pub provider : OAuthProvider
  pub provider_id : String
  pub provider_email : Option String
  pub provider_name : Option String
  pub provider_avatar : Option String
  pub is_primary : Bool

pub record Mail : Type 0 where
  pub to : String
  pub subject : String
  pub html : String

-- The tables and the mail queue. A Boolean says whether the call went through.
pub record AuthStore (S : Type 0) : Type 0 where
  pub users : Repository User S
  pub accounts : Repository OAuthAccount S
  -- the flush of a new history entry and, if given, of a changed user
  pub save_login : LoginHistory → Option User → S → Bool × S
  -- `nativeUpdate({ userId, isPrimary: true }, { isPrimary: false })`
  pub clear_primary : String → S → Bool × S
  -- `mailQueueService.add`
  pub add_mail : Mail → S → Bool × S

-- an account after `clear_primary`
abbrev pub not_primary : String → Option OAuthAccount → Option OAuthAccount
not_primary user_id none = none
not_primary user_id (some a) =
    some (record a { is_primary = if a.user_id == user_id then false else a.is_primary })

pub record AuthStoreLaws {S : Type 0} (store : AuthStore S) : Type 0 where
  pub users : RepositoryLaws (λ u. u.id) store.users
  pub accounts : RepositoryLaws (λ a. a.id) store.accounts
  pub history_only :
      (h : LoginHistory) (s : S) (k : String)
      → users.row k (store.save_login h none s).1 ≡ users.row k s
  pub login_failed :
      (h : LoginHistory) (u : User) (s : S) (k : String)
      → (store.save_login h (some u) s).0 ≡ false
      → users.row k (store.save_login h (some u) s).1 ≡ users.row k s
  pub row-save_login :
      (h : LoginHistory) (u : User) (s : S) (k : String)
      → (store.save_login h (some u) s).0 ≡ true
      → users.row k (store.save_login h (some u) s).1
        ≡ (if u.id == k then some u else users.row k s)
  pub row-add_mail :
      (m : Mail) (s : S) (k : String) → users.row k (store.add_mail m s).1 ≡ users.row k s
  pub clear_primary_failed :
      (id : String) (s : S) (k : String)
      → (store.clear_primary id s).0 ≡ false
      → accounts.row k (store.clear_primary id s).1 ≡ accounts.row k s
  pub row-clear_primary :
      (id : String) (s : S) (k : String)
      → (store.clear_primary id s).0 ≡ true
      → accounts.row k (store.clear_primary id s).1 ≡ not_primary id (accounts.row k s)
  -- a call for one table leaves the other's rows
  pub user-insert_account :
      (a : OAuthAccount) (s : S) (k : String)
      → users.row k (store.accounts.insert a s).1 ≡ users.row k s
  pub user-delete_account :
      (id : String) (s : S) (k : String)
      → users.row k (store.accounts.delete_row id s).1 ≡ users.row k s
  pub user-clear_primary :
      (id : String) (s : S) (k : String) → users.row k (store.clear_primary id s).1 ≡ users.row k s
  pub account-insert_user :
      (u : User) (s : S) (k : String) → accounts.row k (store.users.insert u s).1 ≡ accounts.row k s
  pub account-update_user :
      (id : String) (u : User) (s : S) (k : String)
      → accounts.row k (store.users.update_row id u s).1 ≡ accounts.row k s
  pub account-save_login :
      (h : LoginHistory) (u : Option User) (s : S) (k : String)
      → accounts.row k (store.save_login h u s).1 ≡ accounts.row k s
  pub account-add_mail :
      (m : Mail) (s : S) (k : String) → accounts.row k (store.add_mail m s).1 ≡ accounts.row k s
