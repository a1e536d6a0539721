-- ===== src/SysPlugins/Auth/UserChanges.antt =====
-- What each request to the service of authentication does to the users.
use oksai_cc_api_server.Base.{
  ℕ, String, Bool, false, Option, none, some, List, if◌then◌else◌, ◌==◌, string_eq, ◌≡◌, refl, ap,
  arith, eq_iff, Option-cases, Bool-cases, inl, inr, subst,
}
use oksai_cc_api_server.Core.Password.{validate_password_strength}
use oksai_cc_api_server.Orm.{state-flushed, state-settled, given}
use oksai_cc_api_server.Orm.Unique.{
  Unique, Change, kept, replaced, Change-same, same-ClashesOnly, create-Change, store-Change,
}
use oksai_cc_api_server.SysPlugins.Passwords.{Passwords}
use oksai_cc_api_server.SysPlugins.Auth.{
  User, AuthStore, AuthStoreLaws, success, failed, LoginHistory,
}
use oksai_cc_api_server.SysPlugins.Auth.Sessions.{login, logged_in, login_history}
use oksai_cc_api_server.SysPlugins.Auth.Registration.{
  RegisterDto, registered, register, welcome_mail, verify_email, verified, differs, is_past,
}
use oksai_cc_api_server.SysPlugins.Auth.Resets.{
  forgot_password, with_reset_token, mail_of, reset_password, with_new_password, has_expired,
  change_password, refused_current, changed,
}
use oksai_cc_api_server.SysPlugins.Auth.Steps.{AuthConfig}

abbrev pub same_email : User → User → Bool
same_email a b = a.email == b.email

pub same_email_comm : (a b : User) → same_email a b ≡ same_email b a
same_email_comm a b = ground (arith, eq_iff a.email b.email, eq_iff b.email a.email)

module _ {S : Type 0} (store : AuthStore S) (laws : AuthStoreLaws store) where
  -- a user that is changed, but not in its id and e-mail
  update-Change :
      (u e : User) (s : S)
      → Unique laws.users same_email s
      → laws.users.row u.id s ≡ some u
      → e.email ≡ u.email
      → Change laws.users same_email s (store.users.update_row u.id e s).1
  update-Change u e s unique at same =
      subst (λ s'. Change laws.users same_email s s')
        (state-flushed e (store.users.update_row u.id e s))
        (store-Change laws.users same_email u.id e s (
          same-ClashesOnly laws.users same_email u e s unique at
            (λ b. ap (λ m. m == b.email) same)))

  same_users :
      (s s' : S)
      → ((k : String) → laws.users.row k s' ≡ laws.users.row k s)
      → Change laws.users same_email s s'
  same_users s s' rows = kept rows

  save_login-Change :
      (h : LoginHistory) (now : ℕ) (u : User) (s : S)
      → Unique laws.users same_email s
      → laws.users.row u.id s ≡ some u
      → Change laws.users same_email s (store.save_login h (some (logged_in now u)) s).1
  save_login-Change h now u s unique at =
      let v = logged_in now u in
      elim (Bool-cases (store.save_login h (some v) s).0) [
        | inl y ↦
            replaced u.id v (same-ClashesOnly laws.users same_email u v s unique at (λ b. refl))
              (λ k. ground (arith, laws.row-save_login h v s k y))
        | inr n ↦ kept (λ k. laws.login_failed h v s k n)
      ]

  module _ (passwords : Passwords) (c : AuthConfig) where
    pub login_step :
        (now : ℕ) (id email : String) (password : List ℕ) (s : S)
        → Unique laws.users same_email s
        → Change laws.users same_email s
            (login store passwords c.jwt c.utils now id email password s).1
    unfolding login
    login_step now id email password s unique =
        elim (Option-cases (store.users.find_one (λ u. u.email == email) s)) [
          | inl missing ↦ rw missing (kept (λ k. refl))
          | inr (u, found) ↦
              let (at, own) = laws.users.find_one_some (λ u. u.email == email) s u found in
              elim (Bool-cases (passwords.verify_password password u.password)) [
                | inl right ↦
                    rw (found, right, state-flushed)
                      (save_login-Change (login_history id u.id success none) now u s unique at)
                | inr wrong ↦
                    rw (found, wrong, state-settled)
                      (kept (laws.history_only (login_history id u.id failed (some "密码错误")) s))
              ]
        ]

    pub register_step :
        (now : ℕ) (id : String) (salt : List ℕ) (dto : RegisterDto) (s : S)
        → Change laws.users same_email s
            (register store passwords c.jwt c.utils c.welcome c.client_base_url now id salt dto s).1
    unfolding register registered
    register_step now id salt dto s =
        elim (Bool-cases (validate_password_strength dto.password).valid) [
          | inr weak ↦ rw weak (kept (λ k. refl))
          | inl strong ↦ elim (Option-cases (store.users.find_one (λ u. u.email == dto.email) s)) [
            | inr (u, taken) ↦ rw (strong, taken) (kept (λ k. refl))
            | inl free ↦
                let u = registered id dto (passwords.hash_password salt dto.password) in
                let created = create-Change laws.users same_email u s (λ b at. ground (
                  arith,
                  laws.users.find_one_none (λ u. u.email == dto.email) s b.id b free at,
                  eq_iff dto.email b.email,
                  eq_iff b.email dto.email,
                )) in
                elim (Bool-cases (store.users.insert u s).0) [
                  | inr n ↦ rw (strong, free, n) (kept (λ k. laws.users.insert_failed u s k n))
                  | inl y ↦
                      rw (strong, free, y)
                        (Change-same laws.users same_email s (store.users.insert u s).1 _
                          (laws.row-add_mail
                            (welcome_mail store passwords c.jwt c.utils c.welcome c.client_base_url
                              u)
                            (store.users.insert u s).1)
                          (subst (λ s'. Change laws.users same_email s s')
                            (state-flushed u (store.users.insert u s)) created))
                ]
          ]
        ]

    pub forget_step :
        (now : ℕ) (token email : String) (s : S)
        → Unique laws.users same_email s
        → Change laws.users same_email s
            (forgot_password store c.reset_mail c.client_base_url now token email s).1
    unfolding forgot_password
    forget_step now token email s unique =
        elim (Option-cases (store.users.find_one (λ u. u.email == email) s)) [
          | inl missing ↦ rw missing (kept (λ k. refl))
          | inr (u, found) ↦
              let (at, own) = laws.users.find_one_some (λ u. u.email == email) s u found in
              let v = with_reset_token now token u in
              elim (Bool-cases (store.users.update_row u.id v s).0) [
                | inr n ↦ rw (found, n) (kept (λ k. laws.users.update_failed u.id v s k n))
                | inl y ↦
                    rw (found, y, state-settled)
                      (Change-same laws.users same_email s (store.users.update_row u.id v s).1 _
                        (laws.row-add_mail
                          (mail_of store c.reset_mail c.client_base_url token email v)
                          (store.users.update_row u.id v s).1)
                        (update-Change u v s unique at refl))
              ]
        ]

    pub reset_step :
        (now : ℕ) (salt : List ℕ) (email token : String) (password : List ℕ) (s : S)
        → Unique laws.users same_email s
        → Change laws.users same_email s
            (reset_password store passwords now salt email token password s).1
    unfolding reset_password
    reset_step now salt email token password s unique =
        elim (Option-cases (store.users.find_one (λ u. u.email == email) s)) [
          | inl missing ↦ rw missing (kept (λ k. refl))
          | inr (u, found) ↦
              let (at, own) = laws.users.find_one_some (λ u. u.email == email) s u found in
              elim (Bool-cases (differs u.reset_token token)) [
                | inl wrong ↦ rw (found, wrong) (kept (λ k. refl))
                | inr right ↦ elim (Bool-cases (has_expired u.reset_token_expires_at now)) [
                  | inl late ↦ rw (found, right, late) (kept (λ k. refl))
                  | inr early ↦ elim (Bool-cases (validate_password_strength password).valid) [
                    | inr weak ↦ rw (found, right, early, weak) (kept (λ k. refl))
                    | inl strong ↦
                        rw (found, right, early, strong, state-flushed)
                          (update-Change u
                            (with_new_password (passwords.hash_password salt password) u) s unique
                            at refl)
                  ]
                ]
              ]
        ]

    pub new_password_step :
        (salt : List ℕ) (id : String) (current : Option (List ℕ)) (password : List ℕ) (s : S)
        → Unique laws.users same_email s
        → Change laws.users same_email s
            (change_password store passwords salt id current password s).1
    unfolding change_password
    new_password_step salt id current password s unique =
        elim (Option-cases (store.users.find_one (λ u. u.id == id) s)) [
          | inl missing ↦ rw missing (kept (λ k. refl))
          | inr (u, found) ↦
              let (at, own) = laws.users.find_one_some (λ u. u.id == id) s u found in
              let x =
                if given u.require_password_setup false
                then none
                else refused_current store passwords current u in
              elim (Bool-cases (validate_password_strength password).valid) [
                | inr weak ↦ rw (found, weak) (kept (λ k. refl))
                | inl strong ↦ elim (Option-cases x) [
                  | inr (y, thrown) ↦ rw (found, strong, thrown) (kept (λ k. refl))
                  | inl allowed ↦
                      rw (found, strong, allowed, state-flushed)
                        (update-Change u
                          (changed store passwords (passwords.hash_password salt password) u) s
                          unique at refl)
                ]
              ]
        ]

    pub verify_step :
        (now : ℕ) (email token code : String) (s : S)
        → Unique laws.users same_email s
        → Change laws.users same_email s (verify_email store now email token code s).1
    unfolding verify_email
    verify_step now email token code s unique =
        elim (Option-cases (store.users.find_one (λ u. u.email == email) s)) [
          | inl missing ↦ rw missing (kept (λ k. refl))
          | inr (u, found) ↦
              let (at, own) = laws.users.find_one_some (λ u. u.email == email) s u found in
              elim (Bool-cases (differs u.verification_token token)) [
                | inl wrong ↦ rw (found, wrong) (kept (λ k. refl))
                | inr right ↦ elim (Bool-cases (differs u.verification_code code)) [
                  | inl wrong ↦ rw (found, right, wrong) (kept (λ k. refl))
                  | inr same ↦ elim (Bool-cases (is_past u.verification_code_expires_at now)) [
                    | inl late ↦ rw (found, right, same, late) (kept (λ k. refl))
                    | inr early ↦
                        rw (found, right, same, early, state-flushed)
                          (update-Change u (verified now u) s unique at refl)
                  ]
                ]
              ]
        ]
