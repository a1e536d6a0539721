-- ===== src/SysPlugins/Auth/Recovery.antt =====
-- A forgotten password: `forgotPassword`, then `resetPassword`, then `login`.
use oksai_cc_api_server.Base.{
  ℕ, String, true, none, some, List, ◌==◌, string_eq, ◌≡◌, refl, sym, ap, ◌∙◌, arith, eq_iff,
  Option-cases, Bool-cases, inl, inr, subst,
}
use oksai_cc_api_server.Base.Exec.{ok, err}
use oksai_cc_api_server.Core.Jwt.{generate_token_pair}
use oksai_cc_api_server.Orm.{flushed}
use oksai_cc_api_server.Orm.Unique.{Unique}
use oksai_cc_api_server.SysPlugins.Passwords.{Passwords, PasswordsLaws}
use oksai_cc_api_server.SysPlugins.Auth.{User, AuthStore, AuthStoreLaws, success}
use oksai_cc_api_server.SysPlugins.Auth.Sessions.{login, logged_in, login_history}
use oksai_cc_api_server.SysPlugins.Auth.Resets.{invalid_token, reset_password, with_new_password}
use oksai_cc_api_server.SysPlugins.Auth.Steps.{AuthConfig, Step, resetting}
use oksai_cc_api_server.Orm.Finding.{find_one-only}
use oksai_cc_api_server.SysPlugins.Auth.Sessions.{respond, payload_of}
use oksai_cc_api_server.SysPlugins.Auth.UserChanges.{same_email}
use oksai_cc_api_server.SysPlugins.Auth.Emails.{Step-Unique_addresses}

module _ {S : Type 0} (store : AuthStore S) (laws : AuthStoreLaws store) where
  pub found_by_email :
      (email : String) (u : User) (s : S)
      → Unique laws.users same_email s
      → laws.users.row u.id s ≡ some u
      → u.email ≡ email
      → store.users.find_one (λ v. v.email == email) s ≡ some u
  found_by_email email u s unique at own =
      find_one-only laws.users (λ v. v.email == email) u s at (ground (arith, eq_iff u.email email))
        (λ b there same.
          sym (unique u b at there (ground (arith, eq_iff u.email b.email, eq_iff b.email email))))

  -- a user of an e-mail, after its row was stored
  updated_by_email :
      (email : String) (u v : User) (s : S)
      → Unique laws.users same_email (store.users.update_row u.id v s).1
      → (store.users.update_row u.id v s).0 ≡ true
      → v.id ≡ u.id
      → v.email ≡ email
      → store.users.find_one (λ w. w.email == email) (store.users.update_row u.id v s).1 ≡ some v
  updated_by_email email u v s unique y same own =
      found_by_email email v (store.users.update_row u.id v s).1 unique
        (ground (arith, laws.users.row-update u.id v s v.id y, eq_iff v.id v.id)) own

module _ {S : Type 0} (store : AuthStore S) (laws : AuthStoreLaws store) (passwords : Passwords)
    (c : AuthConfig) where
  -- what `resetPassword` did, if it went through
  reset_password-ok :
      (now : ℕ) (salt : List ℕ) (email token : String) (password : List ℕ) (s s' : S)
      → Unique laws.users same_email s
      → reset_password store passwords now salt email token password s ≡ (ok tt, s')
      → (u : User) × (store.users.find_one (λ v. v.email == email) s ≡ some u)
        × (store.users.find_one (λ v. v.email == email) s'
            ≡ some (with_new_password (passwords.hash_password salt password) u))
  unfolding reset_password
  reset_password-ok now salt email token password s s' unique went =
      let unique' = Step-Unique_addresses store laws passwords c s s' unique (
        subst (λ r. Step store passwords c s r.1) went (resetting now salt email token password)) in
      elim (Option-cases (store.users.find_one (λ u. u.email == email) s)) [
        | inl missing ↦ absurd (ground (arith, went, missing))
        | inr (u, found) ↦
            let (at, own) = laws.users.find_one_some (λ u. u.email == email) s u found in
            let v = with_new_password (passwords.hash_password salt password) u in
            let p = store.users.update_row u.id v s in
            elim (Bool-cases p.0) [
              | inr n ↦ absurd (ground (arith, went, found, n))
              | inl y ↦
                  let same : s' ≡ p.1 = ground (arith, went, found, y) in
                  (
                    u,
                    found,
                    found_by_email store laws email v s' unique'
                        (ap (laws.users.row u.id) same
                          ∙ ground (arith, laws.users.row-update u.id v s u.id y, eq_iff u.id u.id))
                        (ground (arith, own, eq_iff u.email email)),
                  )
            ]
      ]

  -- A reset token works once: after a `resetPassword` that went through, another one for the same
  -- e-mail is refused, whatever its token and its time, and changes nothing. E-mails are unique
  -- before.
  pub reset_password-reset_password :
      (now later : ℕ) (salt salt' : List ℕ) (email token token' : String)
      (password password' : List ℕ) (s s' : S)
      → Unique laws.users same_email s
      → reset_password store passwords now salt email token password s ≡ (ok tt, s')
      → reset_password store passwords later salt' email token' password' s'
        ≡ (err invalid_token, s')
  unfolding reset_password
  reset_password-reset_password now later salt salt' email token token' password password' s s'
        unique went =
      let (u, before, after) = reset_password-ok now salt email token password s s' unique went in
      rw after refl

  -- After a `resetPassword` that went through, `login` with the new password finds the user and
  -- answers with tokens for it, unless its own flush fails. E-mails are unique before.
  pub login-reset_password :
      (IsSalt : List ℕ → Type 0)
      → PasswordsLaws passwords IsSalt
      → (now later : ℕ) (salt : List ℕ) (id email token : String) (password : List ℕ) (s s' : S)
      → Unique laws.users same_email s
      → reset_password store passwords now salt email token password s ≡ (ok tt, s')
      → IsSalt salt
      → (u : User) × (u.email ≡ email)
        × (login store passwords c.jwt c.utils later id email password s'
            ≡ flushed (respond (generate_token_pair c.jwt c.utils (payload_of u) later) u) (
                store.save_login
                  (login_history id u.id success none)
                  (some (logged_in later u))
                  s'))
  unfolding login
  login-reset_password is_salt right now later salt id email token password s s' unique went
        salted =
      let (u, before, after) = reset_password-ok now salt email token password s s' unique went in
      let v = with_new_password (passwords.hash_password salt password) u in
      let (at, own) = laws.users.find_one_some (λ u. u.email == email) s u before in
      (
        v,
        ground (arith, own, eq_iff u.email email),
        rw (after, right.verify-hash salt password salted) refl,
      )
