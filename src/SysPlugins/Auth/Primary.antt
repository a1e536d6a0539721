-- ===== src/SysPlugins/Auth/Primary.antt =====
-- The OAuth accounts of all users, along the requests to the service of authentication.
use oksai_cc_api_server.Base.{
  ℕ, String, false, Option, none, some, List, if◌then◌else◌, ◌==◌, string_eq, ◌≡◌, refl, sym, ◌∙◌,
  Option-cases, Bool-cases, inl, inr,
}
use oksai_cc_api_server.Core.Password.{validate_password_strength}
use oksai_cc_api_server.Orm.{state-flushed, state-settled, given}
use oksai_cc_api_server.SysPlugins.Passwords.{Passwords}
use oksai_cc_api_server.SysPlugins.Auth.{AuthStore, AuthStoreLaws, success, failed}
use oksai_cc_api_server.SysPlugins.Auth.Sessions.{login, logged_in, login_history}
use oksai_cc_api_server.SysPlugins.Auth.Registration.{
  RegisterDto, registered, register, welcome_mail, verify_email, verified, differs, is_past,
}
use oksai_cc_api_server.SysPlugins.Auth.Resets.{
  forgot_password, with_reset_token, mail_of, reset_password, with_new_password, has_expired,
  change_password, refused_current, changed,
}
use oksai_cc_api_server.SysPlugins.Auth.Steps.{
  AuthConfig, Step, logging_in, registering, verifying, forgetting, resetting, changing, binding,
  unbinding, Reachable, start, next,
}
use oksai_cc_api_server.SysPlugins.Auth.Cleared.{UniqueAccounts}
use oksai_cc_api_server.SysPlugins.Auth.Bindings.{bind_step, unbind_step}

module _ {S : Type 0} (store : AuthStore S) (laws : AuthStoreLaws store) (passwords : Passwords)
    (c : AuthConfig) where
  -- the same accounts
  abbrev Kept : S → S → Type 0
  Kept s s' = (k : String) → laws.accounts.row k s' ≡ laws.accounts.row k s

  login_accounts :
      (now : ℕ) (id email : String) (password : List ℕ) (s : S)
      → Kept s (login store passwords c.jwt c.utils now id email password s).1
  unfolding login
  login_accounts now id email password s k =
      elim (Option-cases (store.users.find_one (λ u. u.email == email) s)) [
        | inl missing ↦ rw missing refl
        | inr (u, found) ↦ elim (Bool-cases (passwords.verify_password password u.password)) [
          | inl right ↦
              rw (found, right, state-flushed)
                (laws.account-save_login (login_history id u.id success none)
                  (some (logged_in now u)) s k)
          | inr wrong ↦
              rw (found, wrong, state-settled)
                (laws.account-save_login (login_history id u.id failed (some "密码错误")) none s k)
        ]
      ]

  register_accounts :
      (now : ℕ) (id : String) (salt : List ℕ) (dto : RegisterDto) (s : S)
      → Kept s
          (register store passwords c.jwt c.utils c.welcome c.client_base_url now id salt dto s).1
  unfolding register
  register_accounts now id salt dto s k =
      elim (Bool-cases (validate_password_strength dto.password).valid) [
        | inr weak ↦ rw weak refl
        | inl strong ↦ elim (Option-cases (store.users.find_one (λ u. u.email == dto.email) s)) [
          | inr (u, taken) ↦ rw (strong, taken) refl
          | inl free ↦
              let u = registered id dto (passwords.hash_password salt dto.password) in
              let same = laws.account-insert_user u s k in
              elim (Bool-cases (store.users.insert u s).0) [
                | inr n ↦ rw (strong, free, n) same
                | inl y ↦
                    rw (strong, free, y)
                      (laws.account-add_mail
                          (welcome_mail store passwords c.jwt c.utils c.welcome c.client_base_url u)
                          (store.users.insert u s).1 k
                        ∙ same)
              ]
        ]
      ]

  verify_accounts :
      (now : ℕ) (email token code : String) (s : S)
      → Kept s (verify_email store now email token code s).1
  unfolding verify_email
  verify_accounts now email token code s k =
      elim (Option-cases (store.users.find_one (λ u. u.email == email) s)) [
        | inl missing ↦ rw missing refl
        | inr (u, found) ↦ elim (Bool-cases (differs u.verification_token token)) [
          | inl wrong ↦ rw (found, wrong) refl
          | inr right ↦ elim (Bool-cases (differs u.verification_code code)) [
            | inl wrong ↦ rw (found, right, wrong) refl
            | inr same ↦ elim (Bool-cases (is_past u.verification_code_expires_at now)) [
              | inl late ↦ rw (found, right, same, late) refl
              | inr early ↦
                  rw (found, right, same, early, state-flushed)
                    (laws.account-update_user u.id (verified now u) s k)
            ]
          ]
        ]
      ]

  forget_accounts :
      (now : ℕ) (token email : String) (s : S)
      → Kept s (forgot_password store c.reset_mail c.client_base_url now token email s).1
  unfolding forgot_password
  forget_accounts now token email s k =
      elim (Option-cases (store.users.find_one (λ u. u.email == email) s)) [
        | inl missing ↦ rw missing refl
        | inr (u, found) ↦
            let v = with_reset_token now token u in
            let same = laws.account-update_user u.id v s k in
            elim (Bool-cases (store.users.update_row u.id v s).0) [
              | inr n ↦ rw (found, n) same
              | inl y ↦
                  rw (found, y, state-settled)
                    (laws.account-add_mail
                        (mail_of store c.reset_mail c.client_base_url token email v)
                        (store.users.update_row u.id v s).1 k
                      ∙ same)
            ]
      ]

  reset_accounts :
      (now : ℕ) (salt : List ℕ) (email token : String) (password : List ℕ) (s : S)
      → Kept s (reset_password store passwords now salt email token password s).1
  unfolding reset_password
  reset_accounts now salt email token password s k =
      elim (Option-cases (store.users.find_one (λ u. u.email == email) s)) [
        | inl missing ↦ rw missing refl
        | inr (u, found) ↦ elim (Bool-cases (differs u.reset_token token)) [
          | inl wrong ↦ rw (found, wrong) refl
          | inr right ↦ elim (Bool-cases (has_expired u.reset_token_expires_at now)) [
            | inl late ↦ rw (found, right, late) refl
            | inr early ↦ elim (Bool-cases (validate_password_strength password).valid) [
              | inr weak ↦ rw (found, right, early, weak) refl
              | inl strong ↦
                  rw (found, right, early, strong, state-flushed)
                    (laws.account-update_user u.id
                      (with_new_password (passwords.hash_password salt password) u) s k)
            ]
          ]
        ]
      ]

  change_accounts :
      (salt : List ℕ) (id : String) (current : Option (List ℕ)) (password : List ℕ) (s : S)
      → Kept s (change_password store passwords salt id current password s).1
  unfolding change_password
  change_accounts salt id current password s k =
      elim (Option-cases (store.users.find_one (λ u. u.id == id) s)) [
        | inl missing ↦ rw missing refl
        | inr (u, found) ↦
            let x =
              if given u.require_password_setup false
              then none
              else refused_current store passwords current u in
            elim (Bool-cases (validate_password_strength password).valid) [
              | inr weak ↦ rw (found, weak) refl
              | inl strong ↦ elim (Option-cases x) [
                | inr (y, thrown) ↦ rw (found, strong, thrown) refl
                | inl allowed ↦
                    rw (found, strong, allowed, state-flushed)
                      (laws.account-update_user u.id
                        (changed store passwords (passwords.hash_password salt password) u) s k)
              ]
            ]
      ]

  Kept-UniqueAccounts :
      (s s' : S) → UniqueAccounts store laws s → Kept s s' → UniqueAccounts store laws s'
  Kept-UniqueAccounts s s' u same =
      λ a b ea eb clash. u a b (sym (same a.id) ∙ ea) (sym (same b.id) ∙ eb) clash

  Step-UniqueAccounts :
      (s s' : S)
      → UniqueAccounts store laws s
      → Step store passwords c s s'
      → UniqueAccounts store laws s'
  Step-UniqueAccounts s s' u (logging_in now id email password) =
      Kept-UniqueAccounts s s' u (login_accounts now id email password s)
  Step-UniqueAccounts s s' u (registering now id salt dto) =
      Kept-UniqueAccounts s s' u (register_accounts now id salt dto s)
  Step-UniqueAccounts s s' u (verifying now email token code) =
      Kept-UniqueAccounts s s' u (verify_accounts now email token code s)
  Step-UniqueAccounts s s' u (forgetting now token email) =
      Kept-UniqueAccounts s s' u (forget_accounts now token email s)
  Step-UniqueAccounts s s' u (resetting now salt email token password) =
      Kept-UniqueAccounts s s' u (reset_accounts now salt email token password s)
  Step-UniqueAccounts s s' u (changing salt id current password) =
      Kept-UniqueAccounts s s' u (change_accounts salt id current password s)
  Step-UniqueAccounts s _ u (binding id user_id name provider_id is_primary) =
      bind_step store laws c id user_id name provider_id is_primary s u
  Step-UniqueAccounts s _ u (unbinding user_id name provider_id) =
      unbind_step store laws c user_id name provider_id s u

  -- Whatever requests come to the service, and whether or not their writes go through, an identity
  -- at a provider stays bound to one account at most, and a user has one primary account at most.
  pub Reachable-UniqueAccounts :
      (s s' : S)
      → UniqueAccounts store laws s
      → Reachable store passwords c s s'
      → UniqueAccounts store laws s'
  Reachable-UniqueAccounts s _ u start = u
  Reachable-UniqueAccounts s s'' u (next {s' = before} r t) =
      Step-UniqueAccounts before s'' (Reachable-UniqueAccounts s before u r) t
