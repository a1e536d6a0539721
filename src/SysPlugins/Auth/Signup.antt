-- ===== src/SysPlugins/Auth/Signup.antt =====
-- `register`, then `login`.
use oksai_cc_api_server.Base.{
  ℕ, String, none, some, List, if◌then◌else◌, ◌==◌, string_eq, ◌≡◌, refl, sym, ap, ◌∙◌, arith,
  eq_iff, Option-cases, Bool-cases, inl, inr,
}
use oksai_cc_api_server.Base.Exec.{ok}
use oksai_cc_api_server.Core.Jwt.{generate_token_pair}
use oksai_cc_api_server.Core.Password.{validate_password_strength}
use oksai_cc_api_server.Orm.{flushed}
use oksai_cc_api_server.Orm.Finding.{find_one-only}
use oksai_cc_api_server.SysPlugins.Passwords.{Passwords, PasswordsLaws}
use oksai_cc_api_server.SysPlugins.Auth.{User, AuthStore, AuthStoreLaws, success}
use oksai_cc_api_server.SysPlugins.Auth.Sessions.{
  LoginResponse, login, logged_in, login_history, respond, payload_of,
}
use oksai_cc_api_server.SysPlugins.Auth.Registration.{
  RegisterDto, registered, register, welcome_mail,
}
use oksai_cc_api_server.SysPlugins.Auth.Steps.{AuthConfig}

module _ {S : Type 0} (store : AuthStore S) (laws : AuthStoreLaws store) (passwords : Passwords)
    (c : AuthConfig) where
  -- what `register` did, if it went through
  register-ok :
      (now : ℕ) (id : String) (salt : List ℕ) (dto : RegisterDto) (r : LoginResponse) (s s' : S)
      → register store passwords c.jwt c.utils c.welcome c.client_base_url now id salt dto s
        ≡ (ok r, s')
      → let u = registered id dto (passwords.hash_password salt dto.password) in
        ((k : String) → laws.users.row k s' ≡ (if id == k then some u else laws.users.row k s))
        × (store.users.find_one (λ v. v.email == dto.email) s ≡ none)
        × (r ≡ respond (generate_token_pair c.jwt c.utils (payload_of u) now) u)
  unfolding register registered
  register-ok now id salt dto r s s' went =
      let u = registered id dto (passwords.hash_password salt dto.password) in
      let p = store.users.insert u s in
      let m = welcome_mail store passwords c.jwt c.utils c.welcome c.client_base_url u in
      elim (Bool-cases (validate_password_strength dto.password).valid) [
        | inr weak ↦ absurd (ground (arith, went, weak))
        | inl strong ↦ elim (Option-cases (store.users.find_one (λ u. u.email == dto.email) s)) [
          | inr (v, taken) ↦ absurd (ground (arith, went, strong, taken))
          | inl free ↦ elim (Bool-cases p.0) [
            | inr n ↦ absurd (ground (arith, went, strong, free, n))
            | inl y ↦
                let same : s' ≡ (store.add_mail m p.1).1 = ground (arith, went, strong, free, y) in
                (
                  (λ k.
                      ap (laws.users.row k) same
                      ∙ laws.row-add_mail m p.1 k
                      ∙ laws.users.row-insert u s k y),
                  free,
                  ground (arith, went, strong, free, y),
                )
          ]
        ]
      ]

  -- After a `register` that went through, `login` with the same e-mail and password finds the
  -- registered user and answers with tokens for it, unless its own flush fails.
  pub login-register :
      (IsSalt : List ℕ → Type 0)
      → PasswordsLaws passwords IsSalt
      → (now later : ℕ) (id history_id : String) (salt : List ℕ) (dto : RegisterDto)
        (r : LoginResponse) (s s' : S)
      → register store passwords c.jwt c.utils c.welcome c.client_base_url now id salt dto s
        ≡ (ok r, s')
      → IsSalt salt
      → (u : User) × (respond (generate_token_pair c.jwt c.utils (payload_of u) now) u ≡ r)
        × (login store passwords c.jwt c.utils later history_id dto.email dto.password s'
            ≡ flushed (respond (generate_token_pair c.jwt c.utils (payload_of u) later) u) (
                store.save_login
                  (login_history history_id u.id success none)
                  (some (logged_in later u))
                  s'))
  unfolding login registered
  login-register is_salt right now later id history_id salt dto r s s' went salted =
      let u = registered id dto (passwords.hash_password salt dto.password) in
      let (rows, free, answer) = register-ok now id salt dto r s s' went in
      let found : store.users.find_one (λ v. v.email == dto.email) s' ≡ some u =
        find_one-only laws.users (λ v. v.email == dto.email) u s'
          (ground (arith, rows id, eq_iff id id)) (ground (arith, eq_iff dto.email dto.email))
          (λ b there same. ground (
            arith,
            rows b.id,
            eq_iff id b.id,
            laws.users.find_one_none (λ v. v.email == dto.email) s b.id b free,
          )) in
      (u, sym answer, rw (found, right.verify-hash salt dto.password salted) refl)
