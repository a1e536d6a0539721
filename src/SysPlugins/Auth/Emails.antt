-- ===== src/SysPlugins/Auth/Emails.antt =====
-- The e-mails of the users of the service of authentication.
use oksai_cc_api_server.Base.{
  String, Bool, true, false, Option, none, some, ◌==◌, string_eq, ◌&&◌, ◌≡◌, refl, ◌∙◌,
  Option-cases, Bool-cases, inl, inr,
}
use oksai_cc_api_server.Base.Exec.{Result-cases}
use oksai_cc_api_server.Orm.{state-flushed, given}
use oksai_cc_api_server.Orm.Unique.{Unique, Change, kept, Change-Unique}
use oksai_cc_api_server.SysPlugins.Passwords.{Passwords}
use oksai_cc_api_server.SysPlugins.Auth.{
  User, AuthStore, AuthStoreLaws, OAuthAccount, OAuthProvider,
}
use oksai_cc_api_server.SysPlugins.Auth.Accounts.{
  bind_oauth_account, bind_unless, unbind_oauth_account, unbind_found, provider_named, clear_if,
  is_account, new_account,
}
use oksai_cc_api_server.SysPlugins.Auth.Steps.{
  AuthConfig, Step, logging_in, registering, verifying, forgetting, resetting, changing, binding,
  unbinding, Reachable, start, next,
}
use oksai_cc_api_server.SysPlugins.Auth.UserChanges.{
  same_email, same_email_comm, login_step, register_step, verify_step, forget_step, reset_step,
  new_password_step,
}

module _ {S : Type 0} (store : AuthStore S) (laws : AuthStoreLaws store) (passwords : Passwords)
    (c : AuthConfig) where
  clear_if_users :
      (b : Bool) (user_id : String) (s : S) (k : String)
      → laws.users.row k (clear_if store c.upper b user_id s).1 ≡ laws.users.row k s
  clear_if_users true user_id s k = rw state-flushed (laws.user-clear_primary user_id s k)
  clear_if_users false user_id s k = refl

  bind_unless_users :
      (id user_id : String) (p : OAuthProvider) (provider_id : String) (is_primary : Option Bool)
      (a : Option OAuthAccount) (s : S) (k : String)
      → laws.users.row k (bind_unless store c.upper id user_id p provider_id is_primary a s).1
        ≡ laws.users.row k s
  unfolding bind_unless
  bind_unless_users id user_id p provider_id is_primary (some a) s k = refl
  bind_unless_users id user_id p provider_id is_primary none s k =
      let (r, s') = clear_if store c.upper (given is_primary false) user_id s in
      elim (Result-cases r) [
        | inl (a, e) ↦
            rw (e, state-flushed)
              (laws.user-insert_account (new_account id user_id p provider_id is_primary) s' k
                ∙ clear_if_users (given is_primary false) user_id s k)
        | inr (x, e) ↦ rw e (clear_if_users (given is_primary false) user_id s k)
      ]

  unbind_found_users :
      (u : User) (a : Option OAuthAccount) (s : S) (k : String)
      → laws.users.row k (unbind_found store c.upper u a s).1 ≡ laws.users.row k s
  unfolding unbind_found
  unbind_found_users u none s k = refl
  unbind_found_users u (some a) s k =
      elim (Bool-cases (a.is_primary && given u.require_password_setup false)) [
        | inl y ↦ rw y refl
        | inr n ↦ rw (n, state-flushed) (laws.user-delete_account a.id s k)
      ]

  bind_users :
      (id user_id name provider_id : String) (is_primary : Option Bool) (s : S) (k : String)
      → laws.users.row k
          (bind_oauth_account store c.upper id user_id name provider_id is_primary s).1
        ≡ laws.users.row k s
  unfolding bind_oauth_account
  bind_users id user_id name provider_id is_primary s k =
      elim (Option-cases (store.users.find_one (λ u. u.id == user_id) s)) [
        | inl missing ↦ rw missing refl
        | inr (u, found) ↦ elim (Option-cases (provider_named (c.upper name))) [
          | inl unknown ↦ rw (found, unknown) refl
          | inr (p, known) ↦
              rw (found, known)
                (bind_unless_users id user_id p provider_id is_primary
                  (store.accounts.find_one (is_account store c.upper p provider_id) s) s k)
        ]
      ]

  unbind_users :
      (user_id name provider_id : String) (s : S) (k : String)
      → laws.users.row k (unbind_oauth_account store c.upper user_id name provider_id s).1
        ≡ laws.users.row k s
  unfolding unbind_oauth_account
  unbind_users user_id name provider_id s k =
      elim (Option-cases (store.users.find_one (λ u. u.id == user_id) s)) [
        | inl missing ↦ rw missing refl
        | inr (u, found) ↦ elim (Option-cases (provider_named (c.upper name))) [
          | inl unknown ↦ rw (found, unknown) refl
          | inr (p, known) ↦
              rw (found, known)
                (unbind_found_users u
                  (store.accounts.find_one
                    (λ a. a.user_id == user_id && is_account store c.upper p provider_id a) s)
                  s k)
        ]
      ]

  Step-Change_users :
      (s s' : S)
      → Unique laws.users same_email s
      → Step store passwords c s s'
      → Change laws.users same_email s s'
  Step-Change_users s _ u (logging_in now id email password) =
      login_step store laws passwords c now id email password s u
  Step-Change_users s _ u (registering now id salt dto) =
      register_step store laws passwords c now id salt dto s
  Step-Change_users s _ u (verifying now email token code) =
      verify_step store laws passwords c now email token code s u
  Step-Change_users s _ u (forgetting now token email) =
      forget_step store laws passwords c now token email s u
  Step-Change_users s _ u (resetting now salt email token password) =
      reset_step store laws passwords c now salt email token password s u
  Step-Change_users s _ u (changing salt id current password) =
      new_password_step store laws passwords c salt id current password s u
  Step-Change_users s _ u (binding id user_id name provider_id is_primary) =
      kept (bind_users id user_id name provider_id is_primary s)
  Step-Change_users s _ u (unbinding user_id name provider_id) =
      kept (unbind_users user_id name provider_id s)

  pub Step-Unique_addresses :
      (s s' : S)
      → Unique laws.users same_email s
      → Step store passwords c s s'
      → Unique laws.users same_email s'
  Step-Unique_addresses s s' u t =
      Change-Unique laws.users same_email s s' same_email_comm (Step-Change_users s s' u t) u

  -- Whatever requests come to the service, and whether or not their writes go through, no two
  -- users get the same e-mail.
  pub Reachable-Unique_addresses :
      (s s' : S)
      → Unique laws.users same_email s
      → Reachable store passwords c s s'
      → Unique laws.users same_email s'
  Reachable-Unique_addresses s _ u start = u
  Reachable-Unique_addresses s s'' u (next {s' = before} r t) =
      Step-Unique_addresses before s'' (Reachable-Unique_addresses s before u r) t
